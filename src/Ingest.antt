-- ===== src/Ingest.antt =====
-- The readings that the cloud takes in (`telemetryIngestHandler`, cloud/internal/tpapi/telemetry.go). A reading is
-- its time, if it has one, and a body of any type; what the database makes of the rows of a batch is an argument.
pub mod Bounds
mod Tests
use qube_enterprise_home.Prelude.{
  ℕ, suc, ◌+◌, Bool, Option, none, some, List, [], ◌∷◌, if◌then◌else◌, ltb, length,
}

pub record Reading (B : Type 0) : Type 0 where
  pub time : Option ℕ
  pub body : B

-- A row of `sensor_readings`.
pub record Row (B : Type 0) : Type 0 where
  pub time : ℕ
  pub qube : ℕ
  pub body : B

-- What the answer counts: `inserted`, `failed`, `total`.
pub record Counts : Type 0 where
  pub inserted : ℕ
  pub failed : ℕ
  pub total : ℕ

abbrev pub time_or : ℕ → Option ℕ → ℕ
time_or now none = now
time_or now (some time) = time

count_row : Bool → Counts → Counts
count_row works c =
    if works then record c { inserted = suc c.inserted } else record c { failed = suc c.failed }

-- The counts before the first result.
abbrev pub none_yet : ℕ → Counts
none_yet n = record { inserted = 0; failed = 0; total = n }

module _ {B : Type 0} where
  -- The loop that fills the batch.
  unfoldable pub queue : ℕ → ℕ → List (Reading B) → List (Row B)
  queue now qube [] = []
  queue now qube (r ∷ rs) =
      record { time = time_or now r.time; qube = qube; body = r.body } ∷ queue now qube rs

  -- The loop over the results of the batch, from the reading `i` on.
  unfoldable pub count_results : (ℕ → Bool) → ℕ → List (Reading B) → Counts → Counts
  unfolding count_row
  count_results works i [] c = c
  count_results works i (r ∷ rs) c = count_results works (suc i) rs (count_row (works i) c)

  -- The handler, for a body that decodes: the status, the counts of the answer, and the batch that is sent. The answer to
  -- an empty batch has `inserted` only; its other counts stand here as 0.
  unfoldable pub ingest :
      (List (Row B) → ℕ → Bool) → ℕ → ℕ → List (Reading B) → ℕ × Option Counts × List (Row B)
  ingest works now qube [] = (200, some (none_yet 0), [])
  ingest works now qube (r ∷ rs) =
      let rows = queue now qube (r ∷ rs) in
      if ltb 5000 (length (r ∷ rs))
      then (400, none, [])
      else (200, some (count_results (works rows) 0 (r ∷ rs) (none_yet (length (r ∷ rs)))), rows)
