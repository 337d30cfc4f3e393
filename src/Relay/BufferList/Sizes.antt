-- ===== src/Relay/BufferList/Sizes.antt =====
-- Byte accounting of the buffer list (influxdb-relay/relay/retry.go, `add` and `pop`).
use qube_enterprise_home.Prelude.{
  ℕ, ◌+◌, ◌≤◌, String, ◌≡◌, ◌≢◌, refl, ap, ◌⊎◌, inl, inr, some, List, [], ◌∷◌, ◌++◌, arith,
  Bool-cases, ltb, ◌==◌, length,
}
use qube_enterprise_home.Relay.Response.{Bytes}
use qube_enterprise_home.Relay.BufferList.{
  Batch, BufferList, skips, place, add-eq-some, pop_chain, pop-eq-took, added, add, pop, waits,
  nil_dereference, took,
}

-- The bytes of some writes.
unfoldable pub total_length : List Bytes → ℕ
total_length [] = 0
total_length (x ∷ xs) = length x + total_length xs

total_length-snoc :
    (xs : List Bytes) (x : Bytes) → total_length (xs ++ (x ∷ [])) ≡ total_length xs + length x
unfolding total_length
total_length-snoc [] x = omega arith
total_length-snoc (y ∷ ys) x = omega (arith, total_length-snoc ys x)

unfoldable pub total_size : List Batch → ℕ
total_size [] = 0
total_size (b ∷ bs) = b.size + total_size bs

-- A batch counts its bytes, and passes the limit only where a single write does.
abbrev pub AreSized : ℕ → List Batch → Type 0
AreSized m [] = Unit
AreSized m (b ∷ bs) =
    (b.size ≡ total_length b.bufs) × ((b.size ≤ m) ⊎ (length b.bufs ≡ 1)) × AreSized m bs

pub record IsSized (l : BufferList) : Type 0 where
  pub counted : l.size ≡ total_size l.head
  pub within : l.size ≤ l.max_size
  pub batches : AreSized l.max_batch l.head

module _ (id m : ℕ) (buf : Bytes) (q a : String) where
  total_size-place :
      (bs : List Batch) → total_size (place id m buf q a bs).0 ≡ total_size bs + length buf
  unfolding place total_size
  total_size-place [] = omega arith
  total_size-place (b ∷ bs) = ground (arith, total_size-place bs)

  place-AreSized : (bs : List Batch) → AreSized m bs → AreSized m (place id m buf q a bs).0
  unfolding place total_length
  place-AreSized [] h = (omega arith, inr refl, tt)
  place-AreSized (b ∷ bs) h = elim (Bool-cases (skips q a b)) [
    | inl e ↦ rw e (h.0, h.1, place-AreSized bs h.2)
    | inr e ↦ elim (Bool-cases (ltb m (b.size + length buf))) [
      | inl over ↦ rw (e, over) (h.0, h.1, place-AreSized bs h.2)
      | inr fits ↦
          rw (e, fits) (omega (arith, total_length-snoc b.bufs buf, h.0), inl (ground arith), h.2)
    ]
  ]

module _ (buf : Bytes) (q a : String) where
  pub add-IsSized :
      (l l' : BufferList) (id : ℕ) → IsSized l → add buf q a l ≡ some (l', id) → IsSized l'
  add-IsSized l l' id s h =
      let (fits, new, _) = add-eq-some buf q a l l' id h in
      rw new (record {
        counted = omega (arith, s.counted, total_size-place l.next_id l.max_batch buf q a l.head);
        within = fits;
        batches = place-AreSized l.next_id l.max_batch buf q a l.head s.batches;
      })

-- The first batch comes off with its bytes.
pub pop-IsSized :
    (l l' : BufferList) (b : Batch) → IsSized l → pop l ≡ took b l' → IsSized l' × (b.size ≤ l.size)
unfolding total_size
pop-IsSized l l' b s h =
    let (chain, rest) = pop-eq-took l l' b h in
    let sum : total_size l.head ≡ b.size + total_size l'.head = rw chain refl in
    let fits : b.size ≤ l.size = omega (arith, s.counted) in
    let sized : AreSized l.max_batch (b ∷ l'.head) = rw chain at s.batches in
    (
      rw rest (record {
        counted = omega (arith, s.counted);
        within = omega (arith, s.within);
        batches = sized.2;
      }),
      fits,
    )

-- `pop` never runs into the nil at the end of the chain.
pub pop-ne-nil_dereference : (l : BufferList) → IsSized l → pop l ≢ nil_dereference
unfolding pop pop_chain total_size
pop-ne-nil_dereference l s h = go l.head refl
  where
    go : (bs : List Batch) → l.head ≡ bs → ⊥
    go [] e = ground (arith, ap total_size e)
    go (b ∷ bs) e = ground arith

place-ne-nil :
    (id m : ℕ) (buf : Bytes) (q a : String) (bs : List Batch) → (place id m buf q a bs).0 ≢ []
unfolding place
place-ne-nil id m buf q a [] h = cc
place-ne-nil id m buf q a (b ∷ bs) h = ground arith

pop_chain-ne-waits : (bs : List Batch) (l : BufferList) → pop_chain bs l ≢ waits
unfolding pop_chain
pop_chain-ne-waits [] l h = cc
pop_chain-ne-waits (b ∷ bs) l h = cc

size_of_waits : (l : BufferList) → pop l ≡ waits → l.size ≡ 0
unfolding pop
size_of_waits l h = elim (Bool-cases (l.size == 0)) [
  | inl e ↦ ground arith
  | inr e ↦ absurd (pop_chain-ne-waits l.head l (rw e at h))
]

-- With nothing but empty writes buffered, one more empty write is accepted, and `pop` still waits.
empty_write_waits :
    (q a : String) (l : BufferList)
    → IsSized l
    → pop l ≡ waits
    → (l' : BufferList) × (id : ℕ) × (add [] q a l ≡ some (l', id))
      × (pop l' ≡ waits)
      × (l'.head ≢ [])
unfolding add pop
empty_write_waits q a l s h =
    let none_left = size_of_waits l h in
    (
      added [] q a l,
      (place l.next_id l.max_batch [] q a l.head).1,
      ground (arith, s.within),
      ground arith,
      place-ne-nil l.next_id l.max_batch [] q a l.head,
    )
