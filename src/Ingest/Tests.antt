-- ===== src/Ingest/Tests.antt =====
-- Batches of readings, of a transfer too.
use qube_enterprise_home.Prelude.{
  ℕ, ◌≤◌, ◌<◌, ◌≡◌, ◌≢◌, refl, map, Bool, true, Option, none, some, List, [], ◌∷◌, ltb,
}
use qube_enterprise_home.Prelude.Text.{Text, codes, text_eq}
use qube_enterprise_home.Transfer
use qube_enterprise_home.Transfer.{
  Sending, batch_size, SensorMap, RawRecord, done, map_tables, map_records, lookup_sensor, find,
  tables_or_default, run,
}
use qube_enterprise_home.Ingest.{Reading, Row, count_results, count_row, queue, ingest}
use qube_enterprise_home.Ingest.Bounds.{IsCounted, ingest-bounded, AllCounted, run-AllCounted}

abbrev readings : List (Reading ℕ)
readings = record { time = some 5; body = 20 } ∷ record { time = none; body = 21 } ∷ []

-- The second row fails.
first_only : List (Row ℕ) → ℕ → Bool
first_only rows i = ltb i 1

ingest-bounded_example :
    (2 ≤ 5000 → IsCounted readings (ingest first_only 9 7 readings))
    × (5000 < 2 → ingest first_only 9 7 readings ≡ (400, none, []))
ingest-bounded_example = ingest-bounded first_only 9 7 readings

test-ingest : ingest first_only 9 7 readings ≡ (
  200,
  some (record { inserted = 1; failed = 1; total = 2 }),
  record { time = 5; qube = 7; body = 20 } ∷ record { time = 9; qube = 7; body = 21 } ∷ [],
)
unfolding ingest queue count_results count_row first_only
test-ingest = refl

abbrev sensors : SensorMap
sensors = (codes "pump.*", codes "s2") ∷ []

abbrev query : Text → Option (List (RawRecord ℕ ℕ))
query table = some (
    record { time = 1; equipment = codes "pump"; reading = codes "flow"; value = 20 }
    ∷ record { time = 2; equipment = codes "pump"; reading = codes "flow"; value = 21 }
    ∷ [])

abbrev encode : Transfer.Reading ℕ ℕ → Reading ℕ
encode r = record { time = some r.time; body = r.value }

abbrev all_post : List (Transfer.Reading ℕ ℕ) → Bool
all_post batch = true

mapped : map_tables sensors (map query (tables_or_default [])) ≢ []
unfolding map_tables map_records lookup_sensor find text_eq
mapped h = cc

run-AllCounted_example :
    (s : Sending (Transfer.Reading ℕ ℕ)) × (run batch_size (some sensors) [] query all_post
      ≡ done s)
    × AllCounted encode first_only 9 7 s.batches
run-AllCounted_example =
    run-AllCounted sensors [] query all_post encode first_only 9 7 (λ e. cc) mapped
