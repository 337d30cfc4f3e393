-- ===== src/Qubes/Tables.antt =====
-- Queries of a table behind an update and a delete.
use qube_enterprise_home.Prelude.{
  ap, if◌then◌else◌, ◌≡◌, refl, inl, inr, Bool, true, false, ◌&&◌, some, List, [], ◌∷◌, arith,
  Bool-cases,
}
use qube_enterprise_home.Qubes.{first_row, rows, update_rows, delete_rows}

module _ {A : Type 0} where
  pub first_row-update_self :
      (p : A → Bool) (f : A → A) (x : A) (xs : List A)
      → ((y : A) → p (f y) ≡ p y)
      → first_row p xs ≡ some x
      → first_row p (update_rows p f xs) ≡ some (f x)
  unfolding first_row update_rows
  first_row-update_self p f x [] k h = cc
  first_row-update_self p f x (y ∷ ys) k h = elim (Bool-cases (p y)) [
    | inl hit ↦ ground (arith, hit, k y)
    | inr miss ↦ ground (arith, miss, first_row-update_self p f x ys k)
  ]

  pub first_row-and :
      (p r : A → Bool) (x : A) (xs : List A)
      → first_row p xs ≡ some x
      → r x ≡ true
      → first_row (λ y. p y && r y) xs ≡ some x
  unfolding first_row
  first_row-and p r x [] h k = cc
  first_row-and p r x (y ∷ ys) h k = elim (Bool-cases (p y)) [
    | inl hit ↦ ground (arith, hit, k)
    | inr miss ↦ ground (arith, miss, first_row-and p r x ys)
  ]

  pub first_row-update_other :
      (p r : A → Bool) (f : A → A) (xs : List A)
      → ((y : A) → r y ≡ true → p y ≡ false)
      → ((y : A) → p (f y) ≡ p y)
      → first_row p (update_rows r f xs) ≡ first_row p xs
  unfolding first_row update_rows
  first_row-update_other p r f [] d k = refl
  first_row-update_other p r f (y ∷ ys) d k = elim (Bool-cases (r y)) [
    | inl hit ↦ ground (arith, hit, d y hit, k y, first_row-update_other p r f ys d k)
    | inr miss ↦ ground (arith, miss, first_row-update_other p r f ys d k)
  ]

  pub rows-delete_rows : (p : A → Bool) (xs : List A) → rows p (delete_rows p xs) ≡ []
  unfolding rows delete_rows
  rows-delete_rows p [] = refl
  rows-delete_rows p (x ∷ xs) = ground (arith, rows-delete_rows p xs)

  pub rows-delete_other :
      (p d : A → Bool) (xs : List A)
      → ((x : A) → p x ≡ true → d x ≡ false)
      → rows p (delete_rows d xs) ≡ rows p xs
  unfolding rows delete_rows
  rows-delete_other p d [] h = refl
  rows-delete_other p d (x ∷ xs) h = elim (Bool-cases (p x)) [
    | inl mine ↦ rw (mine, h x mine) (rw mine (ap (λ l. x ∷ l) (rows-delete_other p d xs h)))
    | inr other ↦ elim (Bool-cases (d x)) [
      | inl gone ↦ rw (gone, other) (rows-delete_other p d xs h)
      | inr stays ↦ rw (stays, other) (rows-delete_other p d xs h)
    ]
  ]

  -- The rows that a deletion is for, whether it works or not, and those that it is not for.
  pub rows-if_deleted :
      (b : Bool) (p : A → Bool) (xs : List A)
      → rows p (if b then delete_rows p xs else xs) ≡ (if b then [] else rows p xs)
  rows-if_deleted true p xs = rows-delete_rows p xs
  rows-if_deleted false p xs = refl

  pub rows-if_other :
      (b : Bool) (p d : A → Bool) (xs : List A)
      → ((x : A) → p x ≡ true → d x ≡ false)
      → rows p (if b then delete_rows d xs else xs) ≡ rows p xs
  rows-if_other true p d xs h = rows-delete_other p d xs h
  rows-if_other false p d xs h = refl

  pub first_row-holds : (p : A → Bool) (x : A) (xs : List A) → first_row p xs ≡ some x → p x ≡ true
  unfolding first_row
  first_row-holds p x [] h = cc
  first_row-holds p x (y ∷ ys) h = elim (Bool-cases (p y)) [
    | inl hit ↦ ground (arith, hit)
    | inr miss ↦ ground (arith, miss, first_row-holds p x ys)
  ]
