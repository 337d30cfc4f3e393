-- ===== src/Relay/BufferList/Order.antt =====
-- Writes of one query and one set of credentials keep their order through `place`
-- (influxdb-relay/relay/retry.go, `add`).
use qube_enterprise_home.Prelude.{
  ℕ, ◌+◌, String, ◌≡◌, refl, sym, ◌∙◌, inl, inr, Bool, false, true, not, ◌&&◌, ◌||◌, List, [], ◌∷◌,
  ◌++◌, arith, eq_iff, if◌then◌else◌, str_eq, Bool-cases, ltb, length,
}
use mathlib.Core.List.{append_assoc, append-nil}
use qube_enterprise_home.Relay.Response.{Bytes}
use qube_enterprise_home.Relay.BufferList.{Batch, skips, place}

-- Whether two pairs of parameters are the same.
unfoldable pub same : String → String → String → String → Bool
same q a q' a' = str_eq q q' && str_eq a a'

pub same-same :
    (q a q₁ a₁ q₂ a₂ : String) → same q₁ a₁ q a ≡ true → same q₁ a₁ q₂ a₂ ≡ same q a q₂ a₂
unfolding same
same-same q a q₁ a₁ q₂ a₂ h =
    ground (arith, eq_iff q₁ q, eq_iff a₁ a, eq_iff q₁ q₂, eq_iff a₁ a₂, eq_iff q q₂, eq_iff a a₂)

same_comm : (q a q' a' : String) → same q a q' a' ≡ same q' a' q a
unfolding same
same_comm q a q' a' = ground (arith, eq_iff q q', eq_iff a a', eq_iff q' q, eq_iff a' a)

same-eq : (q a q' a' : String) → same q a q' a' ≡ true → (q ≡ q') × (a ≡ a')
unfolding same
same-eq q a q' a' h = ground (arith, eq_iff q q', eq_iff a a')

skips-eq : (q a : String) (b : Batch) → skips q a b ≡ (not (same b.query b.auth q a) || b.full)
unfolding skips same
skips-eq q a b = ground arith

unfoldable pub has_key : String → String → List Batch → Bool
has_key q a [] = false
has_key q a (b ∷ bs) = same b.query b.auth q a || has_key q a bs

-- The writes that wait for these parameters, the oldest first.
unfoldable pub pending : String → String → List Batch → List Bytes
pending q a [] = []
pending q a (b ∷ bs) = (if same b.query b.auth q a then b.bufs else []) ++ pending q a bs

-- A batch that still takes writes is the last one for its parameters.
abbrev pub IsOrdered : List Batch → Type 0
IsOrdered [] = Unit
IsOrdered (b ∷ bs) = (b.full ≡ false → has_key b.query b.auth bs ≡ false) × IsOrdered bs

pub pending-eq-nil : (q a : String) (bs : List Batch) → has_key q a bs ≡ false → pending q a bs ≡ []
unfolding pending has_key
pending-eq-nil q a [] h = refl
pending-eq-nil q a (b ∷ bs) h = ground (arith, pending-eq-nil q a bs)

-- The writes for other parameters that a batch was opened for are not of its own.
pending-eq-nil_same :
    (q a q' a' : String) (bs : List Batch)
    → has_key q a bs ≡ false
    → same q a q' a' ≡ true
    → pending q' a' bs ≡ []
pending-eq-nil_same q a q' a' bs h e =
    let both = same-eq q a q' a' e in pending-eq-nil q' a' bs (rw (← both.0, ← both.1) h)

module _ (id m : ℕ) (buf : Bytes) (q a : String) where
  has_key-place :
      (q' a' : String) (bs : List Batch)
      → has_key q' a' (place id m buf q a bs).0 ≡ (has_key q' a' bs || same q a q' a')
  unfolding place has_key
  has_key-place q' a' [] = ground arith
  has_key-place q' a' (b ∷ bs) =
      ground (arith, has_key-place q' a' bs, skips-eq q a b, same-same q a b.query b.auth q' a')

  -- Only the last batch of each pair of parameters stays open.
  pub place-IsOrdered : (bs : List Batch) → IsOrdered bs → IsOrdered (place id m buf q a bs).0
  unfolding place has_key
  place-IsOrdered [] h = ground arith
  place-IsOrdered (b ∷ bs) h = elim (Bool-cases (skips q a b)) [
    | inl e ↦ rw e (
      ground (arith, has_key-place b.query b.auth bs, skips-eq q a b, same_comm b.query b.auth q a),
      place-IsOrdered bs h.1,
    )
    | inr e ↦ elim (Bool-cases (ltb m (b.size + length buf))) [
      | inl over ↦ rw (e, over) (λ full. cc, place-IsOrdered bs h.1)
      | inr fits ↦ rw (e, fits) h
    ]
  ]

-- A list with one more write at its end, if the test holds.
unfoldable pub append_if : Bool → Bytes → List Bytes → List Bytes
append_if c buf xs = if c then xs ++ (buf ∷ []) else xs

pub append-append_if :
    (c : Bool) (buf : Bytes) (xs ys : List Bytes)
    → xs ++ append_if c buf ys ≡ append_if c buf (xs ++ ys)
unfolding append_if
append-append_if true buf xs ys = sym (append_assoc xs ys (buf ∷ []))
append-append_if false buf xs ys = refl

join-append_if :
    (c : Bool) (buf : Bytes) (xs ys : List Bytes)
    → (c ≡ true → ys ≡ [])
    → (if c then xs ++ (buf ∷ []) else []) ++ ys ≡ append_if c buf ((if c then xs else []) ++ ys)
unfolding append_if
join-append_if true buf xs ys h = rw (h refl) (simp append-nil)
join-append_if false buf xs ys h = refl

-- A batch that is not skipped is open, and is for the parameters of the write.
open_of_skips :
    (q a : String) (b : Batch)
    → skips q a b ≡ false
    → (same b.query b.auth q a ≡ true) × (b.full ≡ false)
open_of_skips q a b e = ground (arith, skips-eq q a b)

module _ (id m : ℕ) (buf : Bytes) (q a q' a' : String) where
  -- A write goes behind those that wait for the same parameters, and moves no other.
  pub pending-place :
      (bs : List Batch)
      → IsOrdered bs
      → pending q' a' (place id m buf q a bs).0 ≡ append_if (same q a q' a') buf (pending q' a' bs)
  unfolding place pending
  pending-place [] h = unfold append_if in ground arith
  pending-place (b ∷ bs) h = elim (Bool-cases (skips q a b)) [
    | inl e ↦ rw (e, pending-place bs h.1) (append-append_if _ buf _ _)
    | inr e ↦ elim (Bool-cases (ltb m (b.size + length buf))) [
      | inl over ↦ rw (e, over, pending-place bs h.1) (append-append_if _ buf _ _)
      | inr fits ↦
          rw (e, fits)
            (let (mine, room) = open_of_skips q a b e in
              rw (same-same q a b.query b.auth q' a' mine) (
                join-append_if (same q a q' a') buf b.bufs (pending q' a' bs) λ s.
                  pending-eq-nil_same b.query b.auth q' a' bs (h.0 room)
                    (same-same q a b.query b.auth q' a' mine ∙ s)))
    ]
  ]
