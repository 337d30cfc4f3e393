-- ===== src/Sensors/Deleting.antt =====
-- Deleting a sensor, with its reader when it was the last one (`deleteSensorHandler`,
-- cloud/internal/api/sensors.go). `org_of` is the organisation of a Qube; the new hash is left out.
use qube_enterprise_home.Prelude.{
  ℕ, ◌≡◌, ◌≢◌, ◌⊎◌, refl, ap, ◌∙◌, inl, inr, Bool, true, false, not, Option, none, some, List, [],
  ◌∷◌, ◌==◌, if◌then◌else◌, arith, Bool-cases,
}
use qube_enterprise_home.Qubes.{first_row, delete_rows, rows}
use qube_enterprise_home.Qubes.Tables.{rows-delete_rows}
use qube_enterprise_home.Sensors.{Reader, Sensor, Tables, refers_to}

abbrev pub is_empty : List Sensor → Bool
is_empty [] = true
is_empty (s ∷ ss) = false

-- The transaction, as far as the tables go.
unfoldable pub without_sensor : ℕ → Tables → Tables
without_sensor id t = record t {
  sensors = delete_rows (λ s. s.id == id) t.sensors;
  mappings = delete_rows (λ m. refers_to id m.sensor) t.mappings;
}

unfoldable pub without_reader : ℕ → Tables → Tables
without_reader reader t =
    if is_empty (rows (λ s. s.reader == reader) t.sensors)
    then record t {
      containers = delete_rows (λ c. c.reader == reader) t.containers;
      readers = delete_rows (λ r. r.id == reader) t.readers;
    }
    else t

unfoldable pub is_org : ℕ → Option ℕ → Bool
is_org org none = false
is_org org (some o) = o == org

delete_from : (ℕ → Option ℕ) → Bool → ℕ → ℕ → Sensor → Option Reader → Tables → ℕ × Tables
unfolding is_org
delete_from org_of works org id s none t = (404, t)
delete_from org_of works org id s (some r) t =
    if not (is_org org (org_of r.qube))
    then (404, t)
    else if not works
    then (500, t)
    else (200, without_reader s.reader (without_sensor id t))

delete_row : (ℕ → Option ℕ) → Bool → ℕ → ℕ → Option Sensor → Tables → ℕ × Tables
unfolding delete_from
delete_row org_of works org id none t = (404, t)
delete_row org_of works org id (some s) t =
    delete_from org_of works org id s (first_row (λ r. r.id == s.reader) t.readers) t

-- `deleteSensorHandler`; `works` is whether the transaction is committed.
unfoldable pub delete_sensor : (ℕ → Option ℕ) → Bool → ℕ → ℕ → Tables → ℕ × Tables
unfolding delete_row
delete_sensor org_of works org id t =
    delete_row org_of works org id (first_row (λ s. s.id == id) t.sensors) t

abbrev pub has_reader : Option Reader → Bool
has_reader none = false
has_reader (some r) = true

-- Every sensor has its reader.
abbrev pub AllRead : List Sensor → List Reader → Type 0
AllRead [] rs = Unit
AllRead (s ∷ ss) rs = (has_reader (first_row (λ r. r.id == s.reader) rs) ≡ true) × AllRead ss rs

pub AllRead-delete_rows :
    (p : Sensor → Bool) (ss : List Sensor) (rs : List Reader)
    → AllRead ss rs
    → AllRead (delete_rows p ss) rs
unfolding delete_rows
AllRead-delete_rows p [] rs h = tt
AllRead-delete_rows p (s ∷ ss) rs (h, k) = elim (Bool-cases (p s)) [
  | inl hit ↦ rw hit (AllRead-delete_rows p ss rs k)
  | inr miss ↦ rw miss (h, AllRead-delete_rows p ss rs k)
]

pub first_row-delete_other :
    (i j : ℕ) (rs : List Reader)
    → (i == j) ≡ false
    → first_row (λ r. r.id == i) (delete_rows (λ r. r.id == j) rs) ≡ first_row (λ r. r.id == i) rs
unfolding first_row delete_rows
first_row-delete_other i j [] h = refl
first_row-delete_other i j (r ∷ rs) h = elim (Bool-cases (r.id == j)) [
  | inl hit ↦ ground (arith, hit, h, first_row-delete_other i j rs h)
  | inr miss ↦ ground (arith, miss, first_row-delete_other i j rs h)
]

used-empty : false ≡ true → ⊥
used-empty h = cc

pub AllRead-delete_reader :
    (reader : ℕ) (ss : List Sensor) (rs : List Reader)
    → is_empty (rows (λ s. s.reader == reader) ss) ≡ true
    → AllRead ss rs
    → AllRead ss (delete_rows (λ r. r.id == reader) rs)
unfolding rows
AllRead-delete_reader reader [] rs e h = tt
AllRead-delete_reader reader (s ∷ ss) rs e (h, k) = elim (Bool-cases (s.reader == reader)) [
  | inl used ↦ absurd (used-empty (rw used at e))
  | inr other ↦ (
    ap has_reader (first_row-delete_other s.reader reader rs other) ∙ h,
    AllRead-delete_reader reader ss rs (rw other at e) k,
  )
]

without_reader-AllRead :
    (reader : ℕ) (t : Tables)
    → AllRead t.sensors t.readers
    → AllRead (without_reader reader t).sensors (without_reader reader t).readers
unfolding without_reader
without_reader-AllRead reader t h =
    elim (Bool-cases (is_empty (rows (λ s. s.reader == reader) t.sensors))) [
      | inl last ↦ rw last (AllRead-delete_reader reader t.sensors t.readers last h)
      | inr more ↦ rw more h
    ]

without_sensor-AllRead :
    (id : ℕ) (t : Tables)
    → AllRead t.sensors t.readers
    → AllRead (without_sensor id t).sensors (without_sensor id t).readers
unfolding without_sensor
without_sensor-AllRead id t h = AllRead-delete_rows (λ s. s.id == id) t.sensors t.readers h

without_reader-rows :
    (reader id : ℕ) (t : Tables)
    → let after = without_reader reader (without_sensor id t) in
      (rows (λ s. s.id == id) after.sensors ≡ [])
      × (rows (λ m. refers_to id m.sensor) after.mappings ≡ [])
unfolding without_reader without_sensor
without_reader-rows reader id t =
    elim (Bool-cases
      (is_empty (rows (λ s. s.reader == reader) (delete_rows (λ s. s.id == id) t.sensors)))) [
        | inl last ↦ rw last (
          rows-delete_rows (λ s. s.id == id) t.sensors,
          rows-delete_rows (λ m. refers_to id m.sensor) t.mappings,
        )
        | inr more ↦ rw more (
          rows-delete_rows (λ s. s.id == id) t.sensors,
          rows-delete_rows (λ m. refers_to id m.sensor) t.mappings,
        )
      ]

module _ (org_of : ℕ → Option ℕ) (works : Bool) (org id : ℕ) (t : Tables) where
  -- What a deletion comes to: an error and the same tables, or the whole transaction.
  abbrev IsOutcome : ℕ × Tables → Type 0
  IsOutcome o =
      ((o.1 ≡ t) × (o.0 ≢ 200))
      ⊎ ((reader : ℕ) × (o ≡ (200, without_reader reader (without_sensor id t))))

  IsOutcome-if :
      (b : Bool) (x y : ℕ × Tables) → IsOutcome x → IsOutcome y → IsOutcome (if b then x else y)
  IsOutcome-if true x y h k = h
  IsOutcome-if false x y h k = k

  delete_from-IsOutcome :
      (s : Sensor) (r : Option Reader) → IsOutcome (delete_from org_of works org id s r t)
  unfolding delete_from
  delete_from-IsOutcome s none = inl (refl, λ e. omega arith)
  delete_from-IsOutcome s (some r) =
      IsOutcome-if (not (is_org org (org_of r.qube))) (404, t) _ (inl (refl, λ e. omega arith))
        (IsOutcome-if (not works) (500, t) _ (inl (refl, λ e. omega arith)) (inr (s.reader, refl)))

  delete_row-IsOutcome : (s : Option Sensor) → IsOutcome (delete_row org_of works org id s t)
  unfolding delete_row
  delete_row-IsOutcome none = inl (refl, λ e. omega arith)
  delete_row-IsOutcome (some s) =
      delete_from-IsOutcome s (first_row (λ r. r.id == s.reader) t.readers)

  delete_sensor-IsOutcome : IsOutcome (delete_sensor org_of works org id t)
  unfolding delete_sensor
  delete_sensor-IsOutcome = delete_row-IsOutcome (first_row (λ s. s.id == id) t.sensors)

  -- Deleting a sensor never leaves a sensor without its reader. If it answers 200, the sensor and its mappings are
  -- gone; if not, nothing has changed.
  pub delete_sensor-AllRead :
      AllRead t.sensors t.readers
      → let (status, after) = delete_sensor org_of works org id t in
        AllRead after.sensors after.readers
        × (status ≡ 200
            → (rows (λ s. s.id == id) after.sensors ≡ [])
              × (rows (λ m. refers_to id m.sensor) after.mappings ≡ []))
        × (status ≢ 200 → after ≡ t)
  delete_sensor-AllRead h = elim delete_sensor-IsOutcome [
    | inl (same, failed) ↦ (rw same h, λ ok. absurd (failed ok), λ other. same)
    | inr (reader, done) ↦ rw done (
      without_reader-AllRead reader (without_sensor id t) (without_sensor-AllRead id t h),
      λ ok. without_reader-rows reader id t,
      λ other. absurd (other refl),
    )
  ]
