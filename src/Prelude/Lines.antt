-- ===== src/Prelude/Lines.antt =====
-- Texts cut at a byte, and joined again: `strings.Split` and `strings.Join` with a separator of one byte.
use Prim.Native.Nat.{ℕ}
use mathlib.Core.Path.{◌≡◌, refl, ap, ◌∙◌}
use mathlib.Core.Logic.{inl, inr}
use mathlib.Core.Bool.{true, false}
use mathlib.Core.List.{List, [], ◌∷◌, ◌++◌}
use native.Mathlib.Omega.{arith}
use qube_enterprise_home.Prelude.Tests.{◌==◌, if◌then◌else◌, Bool-cases}
use qube_enterprise_home.Prelude.Text.{Text, has_byte}

-- The first part takes a byte more.
abbrev pub onto_first : ℕ → List Text → List Text
onto_first x [] = (x ∷ []) ∷ []
onto_first x (p ∷ ps) = (x ∷ p) ∷ ps

unfoldable pub split_at : ℕ → Text → List Text
split_at c [] = [] ∷ []
split_at c (x ∷ xs) = let rest = split_at c xs in if x == c then [] ∷ rest else onto_first x rest

unfoldable pub join_with : ℕ → List Text → Text
join_with c [] = []
join_with c (p ∷ []) = p
join_with c (p ∷ q ∷ ps) = p ++ (c ∷ join_with c (q ∷ ps))

-- No part has the byte.
abbrev pub AreFree : ℕ → List Text → Type 0
AreFree c [] = Unit
AreFree c (p ∷ ps) = (has_byte c p ≡ false) × AreFree c ps

true-ne-false : true ≡ false → ⊥
true-ne-false h = cc

pub split_at-free : (c : ℕ) (p : Text) → has_byte c p ≡ false → split_at c p ≡ p ∷ []
unfolding split_at has_byte
split_at-free c [] h = refl
split_at-free c (x ∷ xs) h = elim (Bool-cases (x == c)) [
  | inl hit ↦ absurd (true-ne-false (rw hit at h))
  | inr miss ↦ rw (miss, split_at-free c xs (rw miss at h)) refl
]

pub split_at-append :
    (c : ℕ) (p s : Text) → has_byte c p ≡ false → split_at c (p ++ (c ∷ s)) ≡ p ∷ split_at c s
unfolding split_at has_byte
split_at-append c [] s h = ground arith
split_at-append c (x ∷ xs) s h = elim (Bool-cases (x == c)) [
  | inl hit ↦ absurd (true-ne-false (rw hit at h))
  | inr miss ↦ rw (miss, split_at-append c xs s (rw miss at h)) refl
]

-- Parts without the byte come back from their join.
pub split_at-join_with :
    (c : ℕ) (p : Text) (ps : List Text)
    → AreFree c (p ∷ ps)
    → split_at c (join_with c (p ∷ ps)) ≡ p ∷ ps
unfolding join_with
split_at-join_with c p [] h = split_at-free c p h.0
split_at-join_with c p (q ∷ ps) h =
    split_at-append c p (join_with c (q ∷ ps)) h.0
    ∙ ap (λ xs. p ∷ xs) (split_at-join_with c q ps h.1)

onto_first-free :
    (c x : ℕ) (ps : List Text) → (x == c) ≡ false → AreFree c ps → AreFree c (onto_first x ps)
unfolding has_byte
onto_first-free c x [] e h = rw e (refl, tt)
onto_first-free c x (p ∷ ps) e h = rw e h

-- The parts of a text do not have the byte.
pub split_at-AreFree : (c : ℕ) (s : Text) → AreFree c (split_at c s)
unfolding split_at has_byte
split_at-AreFree c [] = (refl, tt)
split_at-AreFree c (x ∷ xs) = elim (Bool-cases (x == c)) [
  | inl hit ↦ rw hit (refl, split_at-AreFree c xs)
  | inr miss ↦ rw miss (onto_first-free c x (split_at c xs) miss (split_at-AreFree c xs))
]

abbrev pub NonEmpty : List Text → Type 0
NonEmpty [] = ⊥
NonEmpty (p ∷ ps) = Unit

first-NonEmpty : (x : ℕ) (ps : List Text) → NonEmpty (onto_first x ps)
first-NonEmpty x [] = tt
first-NonEmpty x (p ∷ ps) = tt

pub split_at-NonEmpty : (c : ℕ) (s : Text) → NonEmpty (split_at c s)
unfolding split_at
split_at-NonEmpty c [] = tt
split_at-NonEmpty c (x ∷ xs) = elim (Bool-cases (x == c)) [
  | inl hit ↦ rw hit tt
  | inr miss ↦ rw miss (first-NonEmpty x (split_at c xs))
]

pub split_at-join_lines :
    (c : ℕ) (ps : List Text) → NonEmpty ps → AreFree c ps → split_at c (join_with c ps) ≡ ps
split_at-join_lines c [] n h = absurd n
split_at-join_lines c (p ∷ ps) n h = split_at-join_with c p ps h
