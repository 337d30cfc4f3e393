-- ===== src/Modbus/Coverage.antt =====
-- The block reads cover what the readings need (modbus-reader/modbus/modbus.go, `fetchData`).
use qube_enterprise_home.Prelude.{
  ℕ, zero, suc, ◌+◌, ◌-◌, ◌≤◌, ◌<◌, ◌≡◌, refl, ◌⊎◌, inl, inr, true, Option, some, List, [], ◌∷◌,
  arith, leb, length, Bool-cases, if◌then◌else◌,
}
use qube_enterprise_home.Modbus.{Reading, is_wide, uint16}
use qube_enterprise_home.Modbus.Groups.{ReadGroup, IsMember, AreSorted}
use qube_enterprise_home.Modbus.Blocks.{
  split_block, first_block, widen, widen_all, widen_groups, adjust_count, blocks_from, blocks,
  cons_block,
}

-- Addresses of registers, the last two excepted.
abbrev pub AreAddresses : List ℕ → Type 0
AreAddresses [] = Unit
AreAddresses (a ∷ xs) = (a < 65534) × AreAddresses xs

-- What `split_block` leaves: the last address of the block is in order and below the limit, unless the block
-- is a single address, and each address is up to it or is left.
record IsSplit (limit first : ℕ) (xs : List ℕ) (block : ℕ × List ℕ) : Type 0 where
  up : first ≤ block.0
  small : block.0 < 65534
  below : (block.0 ≡ first) ⊎ (block.0 < limit)
  rest_sorted : AreSorted block.0 block.1
  rest_addresses : AreAddresses block.1
  shorter : length block.1 ≤ length xs
  taken : (a : ℕ) → IsMember a xs → ((first ≤ a) × (a ≤ block.0)) ⊎ IsMember a block.1

split_block-IsSplit :
    (limit last : ℕ) (xs : List ℕ)
    → last < 65534
    → AreSorted last xs
    → AreAddresses xs
    → IsSplit limit last xs (split_block limit last xs)
unfolding split_block
split_block-IsSplit limit last [] b s h = record {
  up = omega arith;
  small = b;
  below = inl refl;
  rest_sorted = tt;
  rest_addresses = tt;
  shorter = omega arith;
  taken = λ a m. elim m [ ];
}
split_block-IsSplit limit last (x ∷ xs) b s h = elim (Bool-cases (leb limit x)) [
  | inl stop ↦ rw stop (record {
    up = omega arith;
    small = b;
    below = inl refl;
    rest_sorted = s;
    rest_addresses = h;
    shorter = omega arith;
    taken = λ a m. inr m;
  })
  | inr go ↦
      let k = split_block-IsSplit limit x xs h.0 s.1 h.1 in
      rw go (record {
        up = omega (arith, k.up);
        small = k.small;
        below = inr (ground (arith, k.below));
        rest_sorted = k.rest_sorted;
        rest_addresses = k.rest_addresses;
        shorter = omega (arith, k.shorter);
        taken = λ a m. elim m [
          | inl e ↦ inl (omega (arith, k.up), omega (arith, k.up))
          | inr m' ↦ ground (arith, k.taken a m', k.up)
        ];
      })
]

first_block-IsSplit :
    (limit first : ℕ) (xs : List ℕ)
    → first < 65534
    → AreSorted first xs
    → AreAddresses xs
    → IsSplit limit first xs (first_block limit first xs)
unfolding first_block
first_block-IsSplit limit first xs b s h = elim (Bool-cases (leb limit first)) [
  | inl stop ↦ rw stop (record {
    up = omega arith;
    small = b;
    below = inl refl;
    rest_sorted = s;
    rest_addresses = h;
    shorter = omega arith;
    taken = λ a m. inr m;
  })
  | inr go ↦ rw go (split_block-IsSplit limit first xs b s h)
]

module _ {Scale : Type 0} where
  -- The registers of a reading.
  pub width : Reading Scale → ℕ
  width rec = if is_wide rec.data_type then 2 else 1

  abbrev pub IsReading : Reading Scale → List (Reading Scale) → Type 0
  IsReading rec [] = ⊥
  IsReading rec (r ∷ rs) = (rec ≡ r) ⊎ IsReading rec rs

  abbrev pub IsGrouped : Reading Scale → List (ReadGroup Scale) → Type 0
  IsGrouped rec [] = ⊥
  IsGrouped rec (g ∷ gs) = IsReading rec g.readings ⊎ IsGrouped rec gs

  module _ (start max_addr : ℕ) where
    widen_ge : (count : ℕ) (rec : Reading Scale) → count ≤ widen start max_addr count rec
    unfolding widen
    widen_ge count rec = ground arith

    widen_all_ge :
        (count : ℕ) (rs : List (Reading Scale)) → count ≤ widen_all start max_addr count rs
    unfolding widen_all
    widen_all_ge count [] = omega arith
    widen_all_ge count (r ∷ rs) =
        omega (arith, widen_ge count r, widen_all_ge (widen start max_addr count r) rs)

    widen_groups_ge :
        (count : ℕ) (gs : List (ReadGroup Scale)) → count ≤ widen_groups start max_addr count gs
    unfolding widen_groups
    widen_groups_ge count [] = omega arith
    widen_groups_ge count (g ∷ gs) = omega (
      arith,
      widen_all_ge count g.readings,
      widen_groups_ge (widen_all start max_addr count g.readings) gs,
    )

    module _ (rec : Reading Scale) (wide : is_wide rec.data_type ≡ true) (low : start ≤ rec.addr)
        (high : rec.addr ≤ max_addr) (end : rec.addr + 2 < 65536) where
      widen_self : (count : ℕ) → rec.addr + 2 ≤ start + widen start max_addr count rec
      unfolding widen
      widen_self count = ground arith

      widen_all_self :
          (count : ℕ) (rs : List (Reading Scale))
          → IsReading rec rs
          → rec.addr + 2 ≤ start + widen_all start max_addr count rs
      unfolding widen_all
      widen_all_self count [] m = elim m [ ]
      widen_all_self count (r ∷ rs) (inl e) =
          let now = widen_self count in
          rw (← e) (omega (arith, now, widen_all_ge (widen start max_addr count rec) rs))
      widen_all_self count (r ∷ rs) (inr m) = widen_all_self (widen start max_addr count r) rs m

      widen_groups_self :
          (count : ℕ) (gs : List (ReadGroup Scale))
          → IsGrouped rec gs
          → rec.addr + 2 ≤ start + widen_groups start max_addr count gs
      unfolding widen_groups
      widen_groups_self count [] m = elim m [ ]
      widen_groups_self count (g ∷ gs) (inl m) = omega (
        arith,
        widen_all_self count g.readings m,
        widen_groups_ge (widen_all start max_addr count g.readings) gs,
      )
      widen_groups_self count (g ∷ gs) (inr m) =
          widen_groups_self (widen_all start max_addr count g.readings) gs m

-- A block with the `w` registers from an address on.
abbrev pub IsRead : ℕ → ℕ → List (ℕ × ℕ) → Type 0
IsRead a w [] = ⊥
IsRead a w (b ∷ bs) = ((b.0 ≤ a) × (a + w ≤ b.0 + b.1)) ⊎ IsRead a w bs

-- What a list of block reads covers: each address, and each wide reading's two registers.
pub record Covers {Scale : Type 0} (gs : List (ReadGroup Scale)) (addrs : List ℕ)
    (bs : List (ℕ × ℕ)) : Type 0 where
  pub each : (a : ℕ) → IsMember a addrs → IsRead a 1 bs
  pub wide :
      (rec : Reading Scale)
      → is_wide rec.data_type ≡ true
      → IsGrouped rec gs
      → IsMember rec.addr addrs
      → IsRead rec.addr 2 bs

-- The count of a block before and after it is widened.
count_of : ℕ → ℕ → ℕ
count_of start last = uint16 (last + 65536 - start + 1)

count_of-eq :
    (start last : ℕ) → start ≤ last → last < 65534 → count_of start last ≡ last - start + 1
unfolding count_of
count_of-eq start last h k = omega arith

max_addr-eq :
    (start last : ℕ)
    → start ≤ last
    → last < 65534
    → uint16 (start + count_of start last + 65535) ≡ last
unfolding count_of
max_addr-eq start last h k = omega arith

module _ {Scale : Type 0} where
  block_count : List (ReadGroup Scale) → ℕ → ℕ → ℕ
  block_count gs start last = adjust_count start (count_of start last) gs

  block_count-ge :
      (gs : List (ReadGroup Scale)) (start last : ℕ)
      → start ≤ last
      → last < 65534
      → last + 1 ≤ start + block_count gs start last
  unfolding block_count adjust_count
  block_count-ge gs start last h k = omega (
    arith,
    widen_groups_ge start (uint16 (start + count_of start last + 65535)) (count_of start last) gs,
    count_of-eq start last h k,
  )

  block_count-wide :
      (gs : List (ReadGroup Scale)) (start last : ℕ) (rec : Reading Scale)
      → start ≤ last
      → last < 65534
      → is_wide rec.data_type ≡ true
      → IsGrouped rec gs
      → start ≤ rec.addr
      → rec.addr ≤ last
      → rec.addr + 2 < 65536
      → rec.addr + 2 ≤ start + block_count gs start last
  unfolding block_count adjust_count
  block_count-wide gs start last rec h k w m low high end =
      widen_groups_self start (uint16 (start + count_of start last + 65535)) rec w low
        (omega (arith, max_addr-eq start last h k)) end (count_of start last) gs m

  -- One block more covers the addresses it took.
  Covers-cons :
      (gs : List (ReadGroup Scale)) (limit start : ℕ) (xs : List ℕ) (block : ℕ × List ℕ)
      (bs : List (ℕ × ℕ))
      → IsSplit limit start xs block
      → Covers gs block.1 bs
      → Covers gs (start ∷ xs) ((start, block_count gs start block.0) ∷ bs)
  Covers-cons gs limit start xs block bs k c =
      let place : (a : ℕ)
          → IsMember a (start ∷ xs)
          → ((start ≤ a) × (a ≤ block.0)) ⊎ IsMember a block.1 =
        λ a m. elim m [
          | inl e ↦ inl (omega (arith, k.up), omega (arith, k.up))
          | inr m' ↦ k.taken a m'
        ] in
      record {
        each = λ a m. elim (place a m) [
          | inl h ↦ inl (h.0, omega (arith, h.1, block_count-ge gs start block.0 k.up k.small))
          | inr m' ↦ inr (c.each a m')
        ];
        wide = λ rec w g m. elim (place rec.addr m) [
          | inl h ↦ inl (
            h.0,
            block_count-wide gs start block.0 rec k.up k.small w g h.0 h.1
                (omega (arith, h.1, k.small)),
          )
          | inr m' ↦ inr (c.wide rec w g m')
        ];
      }

  -- `cons_block` on the requests of the rest.
  Covers-cons_block :
      (gs : List (ReadGroup Scale)) (b : ℕ × ℕ) (xs ys : List ℕ) (rest : Option (List (ℕ × ℕ)))
      → (bs : List (ℕ × ℕ)) × (rest ≡ some bs) × Covers gs ys bs
      → ((bs : List (ℕ × ℕ)) → Covers gs ys bs → Covers gs xs (b ∷ bs))
      → (bs : List (ℕ × ℕ)) × (cons_block b rest ≡ some bs) × Covers gs xs bs
  Covers-cons_block gs b xs ys rest (bs, e, c) step = (b ∷ bs, rw e refl, step bs c)

  blocks_from-Covers :
      (fuel single : ℕ) (gs : List (ReadGroup Scale)) (first : ℕ) (addrs : List ℕ)
      → length addrs < fuel
      → AreSorted first addrs
      → AreAddresses addrs
      → (bs : List (ℕ × ℕ)) × (blocks_from fuel single gs addrs ≡ some bs) × Covers gs addrs bs
  unfolding blocks_from block_count count_of
  blocks_from-Covers zero single gs first addrs l s h = absurd (omega (arith, l))
  blocks_from-Covers (suc fuel) single gs first [] l s h =
      ([], refl, record { each = λ a m. elim m [ ]; wide = λ rec w g m. elim m [ ] })
  blocks_from-Covers (suc fuel) single gs first (start ∷ xs) l s h =
      let limit = uint16 (start + uint16 single) in
      let k = first_block-IsSplit limit start xs h.0 s.1 h.1 in
      let block = first_block limit start xs in
      Covers-cons_block gs (start, block_count gs start block.0) (start ∷ xs) block.1
        (blocks_from fuel single gs block.1)
        (blocks_from-Covers fuel single gs block.0 block.1 (omega (arith, k.shorter, l))
          k.rest_sorted k.rest_addresses)
        (λ bs c. Covers-cons gs limit start xs block bs k c)

  -- For sorted addresses below 65534, the requests are found, whatever the read size; each address is in one of
  -- them, and both registers of a grouped wide reading are in the same one.
  pub blocks-Covers :
      (single : ℕ) (gs : List (ReadGroup Scale)) (first : ℕ) (addrs : List ℕ)
      → AreSorted first addrs
      → AreAddresses addrs
      → (bs : List (ℕ × ℕ)) × (blocks single gs addrs ≡ some bs) × Covers gs addrs bs
  unfolding blocks
  blocks-Covers single gs first addrs s h =
      blocks_from-Covers (suc (length addrs)) single gs first addrs (omega arith) s h
