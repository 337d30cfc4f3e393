-- ===== src/Templates/Views.antt =====
-- The rows of a table that a view shows, behind statements on rows that it hides.
use mathlib.Core.Path.{subst}
use qube_enterprise_home.Prelude.{
  ℕ, ◌≡◌, refl, inl, inr, Bool, false, ◌&&◌, none, some, List, [], ◌∷◌, ◌++◌, ◌==◌, arith,
  Bool-cases,
}
use qube_enterprise_home.Qubes.{first_row, rows, update_rows, delete_rows}
use qube_enterprise_home.Templates.{DeviceTemplate, has_id}
use qube_enterprise_home.Templates.Keyed.{AreKeyed, update_rows-absent, delete_rows-absent}

module _ (v : DeviceTemplate → Bool) where
  pub rows-update_unseen :
      (id : ℕ) (f : DeviceTemplate → DeviceTemplate) (t : DeviceTemplate) (ts : List DeviceTemplate)
      → ((u : DeviceTemplate) → v (f u) ≡ v u)
      → AreKeyed ts
      → first_row (has_id id) ts ≡ some t
      → v t ≡ false
      → rows v (update_rows (has_id id) f ts) ≡ rows v ts
  unfolding rows update_rows first_row
  rows-update_unseen id f t [] k d h n = cc
  rows-update_unseen id f t (u ∷ us) k (new, d) h n = elim (Bool-cases (u.id == id)) [
    | inl hit ↦
        let same : u ≡ t = cc (rw hit at h) in
        let hidden : v u ≡ false = rw same n in
        let absent : first_row (has_id id) us ≡ none =
          subst (λ i. first_row (has_id i) us ≡ none) (ground (arith, hit)) new in
        rw (hit, k u, hidden, update_rows-absent id f us absent) refl
    | inr miss ↦ rw (miss, rows-update_unseen id f t us k d (rw miss at h) n) refl
  ]

  pub rows-delete_unseen :
      (id : ℕ) (t : DeviceTemplate) (ts : List DeviceTemplate)
      → AreKeyed ts
      → first_row (has_id id) ts ≡ some t
      → v t ≡ false
      → rows v (delete_rows (has_id id) ts) ≡ rows v ts
  unfolding rows delete_rows first_row
  rows-delete_unseen id t [] d h n = cc
  rows-delete_unseen id t (u ∷ us) (new, d) h n = elim (Bool-cases (u.id == id)) [
    | inl hit ↦
        let same : u ≡ t = cc (rw hit at h) in
        let hidden : v u ≡ false = rw same n in
        let absent : first_row (has_id id) us ≡ none =
          subst (λ i. first_row (has_id i) us ≡ none) (ground (arith, hit)) new in
        rw (hit, hidden, delete_rows-absent id us absent) refl
    | inr miss ↦ rw (miss, rows-delete_unseen id t us d (rw miss at h) n) refl
  ]

  pub rows-append_unseen :
      (t : DeviceTemplate) (ts : List DeviceTemplate)
      → v t ≡ false
      → rows v (ts ++ (t ∷ [])) ≡ rows v ts
  unfolding rows
  rows-append_unseen t [] h = rw h refl
  rows-append_unseen t (u ∷ us) h = rw (rows-append_unseen t us h) refl

pub rows-and :
    (v q : DeviceTemplate → Bool) (ts : List DeviceTemplate)
    → rows (λ t. v t && q t) ts ≡ rows q (rows v ts)
unfolding rows
rows-and v q [] = refl
rows-and v q (t ∷ ts) = ground (arith, rows-and v q ts)

pub first_row-seen :
    (v q : DeviceTemplate → Bool) (ts : List DeviceTemplate)
    → first_row (λ t. q t && v t) ts ≡ first_row q (rows v ts)
unfolding first_row rows
first_row-seen v q [] = refl
first_row-seen v q (t ∷ ts) = ground (arith, first_row-seen v q ts)
