-- ===== src/Templates/Keyed.antt =====
-- Tables whose rows have different ids, behind the statements on them.
use qube_enterprise_home.Prelude.{
  ℕ, ◌≡◌, refl, inl, inr, false, none, List, [], ◌∷◌, ◌++◌, ◌==◌, arith, Bool-cases,
}
use qube_enterprise_home.Qubes.{first_row, update_rows, delete_rows}
use qube_enterprise_home.Templates.{DeviceTemplate, has_id}

abbrev pub AreKeyed : List DeviceTemplate → Type 0
AreKeyed [] = Unit
AreKeyed (t ∷ ts) = (first_row (has_id t.id) ts ≡ none) × AreKeyed ts

pub update_rows-absent :
    (id : ℕ) (f : DeviceTemplate → DeviceTemplate) (ts : List DeviceTemplate)
    → first_row (has_id id) ts ≡ none
    → update_rows (has_id id) f ts ≡ ts
unfolding first_row update_rows
update_rows-absent id f [] h = refl
update_rows-absent id f (t ∷ ts) h = elim (Bool-cases (t.id == id)) [
  | inl hit ↦ ground (arith, hit)
  | inr miss ↦ rw (miss, update_rows-absent id f ts (rw miss at h)) refl
]

pub delete_rows-absent :
    (id : ℕ) (ts : List DeviceTemplate)
    → first_row (has_id id) ts ≡ none
    → delete_rows (has_id id) ts ≡ ts
unfolding first_row delete_rows
delete_rows-absent id [] h = refl
delete_rows-absent id (t ∷ ts) h = elim (Bool-cases (t.id == id)) [
  | inl hit ↦ ground (arith, hit)
  | inr miss ↦ rw (miss, delete_rows-absent id ts (rw miss at h)) refl
]

first_row-update_none :
    (id j : ℕ) (f : DeviceTemplate → DeviceTemplate) (ts : List DeviceTemplate)
    → ((t : DeviceTemplate) → (f t).id ≡ t.id)
    → first_row (has_id j) ts ≡ none
    → first_row (has_id j) (update_rows (has_id id) f ts) ≡ none
unfolding first_row update_rows
first_row-update_none id j f [] k h = refl
first_row-update_none id j f (t ∷ ts) k h = ground (arith, k t, first_row-update_none id j f ts k)

first_row-delete_none :
    (id j : ℕ) (ts : List DeviceTemplate)
    → first_row (has_id j) ts ≡ none
    → first_row (has_id j) (delete_rows (has_id id) ts) ≡ none
unfolding first_row delete_rows
first_row-delete_none id j [] h = refl
first_row-delete_none id j (t ∷ ts) h = ground (arith, first_row-delete_none id j ts)

pub AreKeyed-update :
    (id : ℕ) (f : DeviceTemplate → DeviceTemplate) (ts : List DeviceTemplate)
    → ((t : DeviceTemplate) → (f t).id ≡ t.id)
    → AreKeyed ts
    → AreKeyed (update_rows (has_id id) f ts)
unfolding update_rows
AreKeyed-update id f [] k h = tt
AreKeyed-update id f (t ∷ ts) k (new, h) = elim (Bool-cases (t.id == id)) [
  | inl hit ↦ rw (hit, k t) (first_row-update_none id t.id f ts k new, AreKeyed-update id f ts k h)
  | inr miss ↦ rw miss (first_row-update_none id t.id f ts k new, AreKeyed-update id f ts k h)
]

pub AreKeyed-delete :
    (id : ℕ) (ts : List DeviceTemplate) → AreKeyed ts → AreKeyed (delete_rows (has_id id) ts)
unfolding delete_rows
AreKeyed-delete id [] h = tt
AreKeyed-delete id (t ∷ ts) (new, h) = elim (Bool-cases (t.id == id)) [
  | inl hit ↦ rw hit (AreKeyed-delete id ts h)
  | inr miss ↦ rw miss (first_row-delete_none id t.id ts new, AreKeyed-delete id ts h)
]

first_row-append_none :
    (j : ℕ) (t : DeviceTemplate) (ts : List DeviceTemplate)
    → first_row (has_id j) ts ≡ none
    → (t.id == j) ≡ false
    → first_row (has_id j) (ts ++ (t ∷ [])) ≡ none
unfolding first_row
first_row-append_none j t [] h k = rw k refl
first_row-append_none j t (u ∷ ts) h k = ground (arith, first_row-append_none j t ts)

pub AreKeyed-append :
    (t : DeviceTemplate) (ts : List DeviceTemplate)
    → first_row (has_id t.id) ts ≡ none
    → AreKeyed ts
    → AreKeyed (ts ++ (t ∷ []))
unfolding first_row
AreKeyed-append t [] h k = (refl, tt)
AreKeyed-append t (u ∷ ts) h (new, k) = elim (Bool-cases (u.id == t.id)) [
  | inl hit ↦ ground (arith, hit)
  | inr miss ↦ (
    first_row-append_none u.id t ts new (ground (arith, miss)),
    AreKeyed-append t ts (rw miss at h) k,
  )
]
