-- ===== src/Download/Distinct.antt =====
-- The ids in a downloaded configuration (cloud/internal/tpapi/sync.go).
use mathlib.Core.Path.{subst}
use qube_enterprise_home.Prelude.{
  ℕ, ◌≡◌, refl, sym, ◌∙◌, inl, inr, Bool, true, false, ◌&&◌, List, [], ◌∷◌, ◌++◌, ◌==◌, map, arith,
  Bool-cases,
}
use qube_enterprise_home.Qubes.{rows}
use qube_enterprise_home.Sensors.{Reader, Sensor}
use qube_enterprise_home.Store
use qube_enterprise_home.Store.{lists_id, sensor_row}
use qube_enterprise_home.Store.Loading.{AreDistinct, lists_id-append, sensor_rows}
use qube_enterprise_home.Download.{Encoding, sensor_config, sensors_of, reader_config}

module _ {A : Type 0} (key : A → ℕ) (p : A → Bool) where
  pub lists_id-rows :
      (i : ℕ) (xs : List A) → lists_id key i xs ≡ false → lists_id key i (rows p xs) ≡ false
  unfolding lists_id rows
  lists_id-rows i [] h = refl
  lists_id-rows i (x ∷ xs) h = ground (arith, lists_id-rows i xs)

  pub AreDistinct-rows : (xs : List A) → AreDistinct key xs → AreDistinct key (rows p xs)
  unfolding rows
  AreDistinct-rows [] d = tt
  AreDistinct-rows (x ∷ xs) (new, d) = elim (Bool-cases (p x)) [
    | inl hit ↦ rw hit (lists_id-rows (key x) xs new, AreDistinct-rows xs d)
    | inr miss ↦ rw miss (AreDistinct-rows xs d)
  ]

module _ {A B : Type 0} (key : A → ℕ) (code : B → ℕ) (f : A → B) where
  pub lists_id-map :
      (i : ℕ) (xs : List A)
      → ((x : A) → code (f x) ≡ key x)
      → lists_id code i (map f xs) ≡ lists_id key i xs
  unfolding lists_id
  lists_id-map i [] k = refl
  lists_id-map i (x ∷ xs) k = rw (k x, lists_id-map i xs k) refl

  pub AreDistinct-map :
      (xs : List A)
      → ((x : A) → code (f x) ≡ key x)
      → AreDistinct key xs
      → AreDistinct code (map f xs)
  AreDistinct-map [] k d = tt
  AreDistinct-map (x ∷ xs) k (new, d) =
      (rw (k x) (lists_id-map (key x) xs k ∙ new), AreDistinct-map xs k d)

module _ {A : Type 0} (key : A → ℕ) where
  AreDistinct-append :
      (xs ys : List A)
      → AreDistinct key xs
      → AreDistinct key ys
      → ((i : ℕ) → lists_id key i xs ≡ true → lists_id key i ys ≡ false)
      → AreDistinct key (xs ++ ys)
  unfolding lists_id
  AreDistinct-append [] ys d e apart = e
  AreDistinct-append (x ∷ xs) ys (new, d) e apart = (
    lists_id-append key (key x) xs ys ∙ rw (new, apart (key x) (ground arith)) refl,
    AreDistinct-append xs ys d e (λ i h. apart i (ground (arith, h))),
  )

-- A sensor is in the part of one reader only.
sensors_of-apart :
    (i r q : ℕ) (ss : List Sensor)
    → AreDistinct (λ s. s.id) ss
    → (r == q) ≡ false
    → lists_id (λ s. s.id) i (sensors_of r ss) ≡ true
    → lists_id (λ s. s.id) i (sensors_of q ss) ≡ false
unfolding lists_id rows
sensors_of-apart i r q [] d n h = refl
sensors_of-apart i r q (s ∷ ss) (new, d) n h = elim (Bool-cases (s.id == i)) [
  | inl same ↦
      let absent : lists_id (λ s. s.id) i ss ≡ false =
        subst (λ j. lists_id (λ s. s.id) j ss ≡ false) (ground (arith, same)) new in
      let no_r = lists_id-rows (λ s. s.id) (λ s. s.reader == r && s.active) i ss absent in
      let no_q = lists_id-rows (λ s. s.id) (λ s. s.reader == q && s.active) i ss absent in
      ground (arith, no_r, no_q, h, n)
  | inr other ↦ ground (arith, other, sensors_of-apart i r q ss d n)
]

-- The rows of the sensors, for each reader of a list.
abbrev rows_of : Encoding → List Sensor → List Reader → List Store.SensorRow
rows_of e ss rs = sensor_rows (map (reader_config e ss) rs)

sensor_row-id :
    (e : Encoding) (i reader : ℕ) (ss : List Sensor)
    → lists_id (λ s. s.id) i (map (sensor_row reader) (map (sensor_config e) ss))
      ≡ lists_id (λ s. s.id) i ss
unfolding lists_id
sensor_row-id e i reader [] = refl
sensor_row-id e i reader (s ∷ ss) = rw (sensor_row-id e i reader ss) refl

AreDistinct-sensor_row :
    (e : Encoding) (reader : ℕ) (ss : List Sensor)
    → AreDistinct (λ s. s.id) ss
    → AreDistinct (λ s. s.id) (map (sensor_row reader) (map (sensor_config e) ss))
AreDistinct-sensor_row e reader [] d = tt
AreDistinct-sensor_row e reader (s ∷ ss) (new, d) =
    (sensor_row-id e s.id reader ss ∙ new, AreDistinct-sensor_row e reader ss d)

rows_of-apart :
    (e : Encoding) (i r : ℕ) (ss : List Sensor) (rs : List Reader)
    → AreDistinct (λ s. s.id) ss
    → lists_id (λ x. x.id) r rs ≡ false
    → lists_id (λ s. s.id) i (sensors_of r ss) ≡ true
    → lists_id (λ s. s.id) i (rows_of e ss rs) ≡ false
unfolding lists_id sensor_rows
rows_of-apart e i r ss [] d n h = refl
rows_of-apart e i r ss (q ∷ rs) d n h =
    lists_id-append (λ s. s.id) i
      (map (sensor_row q.id) (map (sensor_config e) (sensors_of q.id ss))) (rows_of e ss rs)
    ∙ rw
        (
          sensor_row-id e i q.id (sensors_of q.id ss),
          sensors_of-apart i r q.id ss d (ground (arith, n)) h,
          rows_of-apart e i r ss rs d (ground (arith, n)) h,
        )
        refl

-- No id of a sensor stands twice among the rows.
pub AreDistinct-rows_of :
    (e : Encoding) (ss : List Sensor) (rs : List Reader)
    → AreDistinct (λ s. s.id) ss
    → AreDistinct (λ x. x.id) rs
    → AreDistinct (λ s. s.id) (rows_of e ss rs)
unfolding sensor_rows
AreDistinct-rows_of e ss [] d k = tt
AreDistinct-rows_of e ss (r ∷ rs) d (new, k) =
    AreDistinct-append (λ s. s.id)
      (map (sensor_row r.id) (map (sensor_config e) (sensors_of r.id ss))) (rows_of e ss rs)
      (AreDistinct-sensor_row e r.id (sensors_of r.id ss)
        (AreDistinct-rows (λ s. s.id) (λ s. s.reader == r.id && s.active) ss d))
      (AreDistinct-rows_of e ss rs d k)
      (λ i h.
        rows_of-apart e i r.id ss rs d new (sym (sensor_row-id e i r.id (sensors_of r.id ss)) ∙ h))
