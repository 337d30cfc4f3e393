-- ===== src/Sensors/Rows.antt =====
-- The rows of readers and sensors, behind statements on them.
use qube_enterprise_home.Prelude.{
  ℕ, ◌≡◌, refl, ◌∙◌, inl, inr, Bool, true, some, List, [], ◌∷◌, ◌++◌, ◌==◌, arith, Bool-cases,
}
use qube_enterprise_home.Qubes.{first_row, update_rows}
use qube_enterprise_home.Sensors.{Reader, Sensor}
use qube_enterprise_home.Sensors.Deleting.{AllRead, has_reader}
use qube_enterprise_home.Sensors.Changing.{SensorUpdate, updated_sensor}

-- Whether the table has a reader of this id.
abbrev pub is_reader : ℕ → List Reader → Bool
is_reader id rs = has_reader (first_row (λ r. r.id == id) rs)

pub is_reader-append :
    (id : ℕ) (r : Reader) (rs : List Reader)
    → is_reader id rs ≡ true
    → is_reader id (rs ++ (r ∷ [])) ≡ true
unfolding first_row
is_reader-append id r [] h = cc
is_reader-append id r (q ∷ rs) h = ground (arith, is_reader-append id r rs)

pub is_reader-new : (r : Reader) (rs : List Reader) → is_reader r.id (rs ++ (r ∷ [])) ≡ true
unfolding first_row
is_reader-new r [] = ground arith
is_reader-new r (q ∷ rs) = ground (arith, is_reader-new r rs)

pub is_reader-found :
    (p : Reader → Bool) (r : Reader) (rs : List Reader)
    → first_row p rs ≡ some r
    → is_reader r.id rs ≡ true
unfolding first_row
is_reader-found p r [] h = cc
is_reader-found p r (q ∷ rs) h = elim (Bool-cases (p q)) [
  | inl hit ↦ let same : q ≡ r = cc (rw hit at h) in rw same (ground arith)
  | inr miss ↦ ground (arith, is_reader-found p r rs (rw miss at h))
]

pub is_reader-update :
    (id j : ℕ) (f : Reader → Reader) (rs : List Reader)
    → ((r : Reader) → (f r).id ≡ r.id)
    → is_reader id (update_rows (λ r. r.id == j) f rs) ≡ is_reader id rs
unfolding first_row update_rows
is_reader-update id j f [] k = refl
is_reader-update id j f (r ∷ rs) k = ground (arith, k r, is_reader-update id j f rs k)

pub AllRead-append_reader :
    (ss : List Sensor) (r : Reader) (rs : List Reader) → AllRead ss rs → AllRead ss (rs ++ (r ∷ []))
AllRead-append_reader [] r rs h = tt
AllRead-append_reader (s ∷ ss) r rs (h, k) =
    (is_reader-append s.reader r rs h, AllRead-append_reader ss r rs k)

pub AllRead-append_sensor :
    (s : Sensor) (ss : List Sensor) (rs : List Reader)
    → AllRead ss rs
    → is_reader s.reader rs ≡ true
    → AllRead (ss ++ (s ∷ [])) rs
AllRead-append_sensor s [] rs h k = (k, tt)
AllRead-append_sensor s (q ∷ ss) rs (h, g) k = (h, AllRead-append_sensor s ss rs g k)

pub AllRead-update_readers :
    (j : ℕ) (f : Reader → Reader) (ss : List Sensor) (rs : List Reader)
    → ((r : Reader) → (f r).id ≡ r.id)
    → AllRead ss rs
    → AllRead ss (update_rows (λ r. r.id == j) f rs)
AllRead-update_readers j f [] rs k h = tt
AllRead-update_readers j f (s ∷ ss) rs k (h, g) =
    (is_reader-update s.reader j f rs k ∙ h, AllRead-update_readers j f ss rs k g)

pub AllRead-update_sensors :
    (p : Sensor → Bool) (u : SensorUpdate) (ss : List Sensor) (rs : List Reader)
    → AllRead ss rs
    → AllRead (update_rows p (updated_sensor u) ss) rs
unfolding update_rows
AllRead-update_sensors p u [] rs h = tt
AllRead-update_sensors p u (s ∷ ss) rs (h, g) = elim (Bool-cases (p s)) [
  | inl hit ↦ rw hit (h, AllRead-update_sensors p u ss rs g)
  | inr miss ↦ rw miss (h, AllRead-update_sensors p u ss rs g)
]
