-- ===== src/Transfer/Tests.antt =====
-- A transfer cycle (enterprise-influx-to-sql/transfer/transfer.go) on concrete inputs, and its theorems there.
use qube_enterprise_home.Prelude.{
  ℕ, ◌≡◌, ◌≢◌, refl, Bool, true, false, Option, some, List, [], ◌∷◌, map, arith,
}
use qube_enterprise_home.Prelude.Text.{Text, codes, text_eq, has_byte, replace_all}
use qube_enterprise_home.Transfer.{
  SensorMap, find, put, normalise, load_from_sqlite, lookup_sensor, RawRecord, Reading, Sending,
  map_tables, map_records, tables_or_default, run, done,
}
use qube_enterprise_home.Transfer.Batches.{IsSending, run-IsSending}

abbrev raw : SensorMap
raw = (codes "a:b:temp", codes "s1") ∷ (codes "pump:*", codes "s2") ∷ []

abbrev loaded : SensorMap
loaded = (codes "a.b.temp", codes "s1") ∷ (codes "pump.*", codes "s2") ∷ []

raw-loaded : load_from_sqlite (some raw) ≡ some loaded
unfolding load_from_sqlite normalise put replace_all text_eq
raw-loaded = refl

has_colon : has_byte b':' (codes "a:b") ≡ true
unfolding has_byte
has_colon = refl

wildcard : lookup_sensor loaded (codes "pump") (codes "flow") ≡ codes "s2"
unfolding lookup_sensor find text_eq
wildcard = refl

s2_ne_nil : codes "s2" ≢ []
s2_ne_nil h = cc

no_colon : (has_byte b':' (codes "pump") ≡ false) × (has_byte b':' (codes "flow") ≡ false)
unfolding has_byte
no_colon = (refl, refl)

abbrev record_at : ℕ → RawRecord ℕ ℕ
record_at t = record { time = t; equipment = codes "pump"; reading = codes "flow"; value = t }

abbrev query : Text → Option (List (RawRecord ℕ ℕ))
query table = some (record_at 1 ∷ record_at 2 ∷ record_at 3 ∷ [])

abbrev none_fails : List (Reading ℕ ℕ) → Bool
none_fails batch = true

three_mapped : map_tables loaded (map query (tables_or_default [])) ≢ []
unfolding map_tables map_records lookup_sensor find text_eq
three_mapped h = cc

loaded_ne_nil : loaded ≢ []
loaded_ne_nil h = cc

run-IsSending_example :
    (s : Sending (Reading ℕ ℕ)) × (run 2 (some loaded) [] query none_fails ≡ done s)
    × IsSending 2 (map_tables loaded (map query (tables_or_default []))) s
run-IsSending_example =
    run-IsSending 2 loaded [] query none_fails (omega arith) loaded_ne_nil three_mapped
