-- ===== src/Modbus/Decoding.antt =====
-- `decodeValue` and the registers it reads (modbus-reader/modbus/modbus.go). Floating point is a parameter.
use qube_enterprise_home.Prelude.{
  ℕ, zero, suc, ◌+◌, ◌-◌, ◌*◌, ◌/◌, ◌%◌, ◌≤◌, ◌<◌, ◌≡◌, refl, ◌∙◌, ◌⊎◌, inl, inr, String, Bool,
  Option, none, some, List, [], ◌∷◌, arith, ltb, ◌==◌, if◌then◌else◌, str_eq, length, Bool-cases,
  ap,
}
use qube_enterprise_home.Prelude.Int.{ℤ, pos, negsuc, signed, unsigned}
use qube_enterprise_home.Prelude.Text.{Text, codes}
use qube_enterprise_home.Modbus.{Reading, uint16}
use qube_enterprise_home.Modbus.Blocks.{Client, store, after_read, read_blocks}
use qube_enterprise_home.Modbus.Coverage.{IsRead}

-- `float64`, as far as `decodeValue` uses it; `is_whole x` is `x == math.Trunc(x) && math.Abs(x) < 1e15`.
pub record Floats (F : Type 0) : Type 0 where
  pub of_int : ℤ → F
  pub of_bits : ℕ → F
  pub mul : F → F → F
  pub is_whole : F → Bool
  pub print_whole : F → Text
  pub print_fraction : F → Text

-- A lookup in `regs`.
unfoldable pub register : List (ℕ × ℕ) → ℕ → Option ℕ
register [] addr = none
register ((a, value) ∷ regs) addr =
    let rest = register regs addr in if a == addr then some value else rest

abbrev low_word : Option ℕ → ℕ
low_word none = 0
low_word (some lo) = lo

-- The 32 bits at an address and the next one.
unfoldable pub wide_bits : List (ℕ × ℕ) → ℕ → ℕ → ℕ
wide_bits regs addr hi = hi * 65536 + low_word (register regs (uint16 (addr + 1)))

unfoldable pub to_float : {F : Type 0} → Floats F → String → List (ℕ × ℕ) → ℕ → ℕ → F
to_float floats data_type regs addr hi =
    if str_eq data_type "uint16"
    then floats.of_int (pos hi)
    else if str_eq data_type "int16"
    then floats.of_int (signed 32768 hi)
    else if str_eq data_type "uint32"
    then floats.of_int (pos (wide_bits regs addr hi))
    else if str_eq data_type "int32"
    then floats.of_int (signed 2147483648 (wide_bits regs addr hi))
    else if str_eq data_type "float32"
    then floats.of_bits (wide_bits regs addr hi)
    else floats.of_int (pos hi)

unfoldable pub print_value : {F : Type 0} → Floats F → F → Text
print_value floats x = if floats.is_whole x then floats.print_whole x else floats.print_fraction x

decode_at : {F : Type 0} → Floats F → Reading F → List (ℕ × ℕ) → Option ℕ → Text
decode_at floats rec regs none = codes "0"
decode_at floats rec regs (some hi) =
    print_value floats (floats.mul (to_float floats rec.data_type regs rec.addr hi) rec.scale)

-- `decodeValue`
unfoldable pub decode_value : {F : Type 0} → Floats F → Reading F → List (ℕ × ℕ) → Text
unfolding decode_at
decode_value floats rec regs = decode_at floats rec regs (register regs rec.addr)

-- A device answers from its memory.
unfoldable pub memory_from : (ℕ → ℕ) → ℕ → ℕ → List ℕ
memory_from memory start zero = []
memory_from memory start (suc count) = memory start ∷ memory_from memory (start + 1) count

abbrev pub device : (ℕ → ℕ) → Client
device memory start count = some (memory_from memory start count)

length-memory_from :
    (memory : ℕ → ℕ) (start count : ℕ) → length (memory_from memory start count) ≡ count
unfolding memory_from
length-memory_from memory start zero = refl
length-memory_from memory start (suc count) = ap suc (length-memory_from memory (start + 1) count)

-- The requests stay in the address range.
abbrev pub AreInRange : List (ℕ × ℕ) → Type 0
AreInRange [] = Unit
AreInRange (b ∷ bs) = (b.0 + b.1 ≤ 65536) × AreInRange bs

module _ (memory : ℕ → ℕ) where
  -- Every known register is right.
  abbrev AreRight : List (ℕ × ℕ) → Type 0
  AreRight [] = Unit
  AreRight (p ∷ regs) = (p.1 ≡ memory p.0) × AreRight regs

  HasRegister : ℕ → List (ℕ × ℕ) → Type 0
  HasRegister a [] = ⊥
  HasRegister a (p ∷ regs) = (p.0 ≡ a) ⊎ HasRegister a regs

  register-right :
      (regs : List (ℕ × ℕ)) (a : ℕ)
      → AreRight regs
      → HasRegister a regs
      → register regs a ≡ some (memory a)
  unfolding register HasRegister
  register-right [] a r h = elim h [ ]
  register-right ((b, value) ∷ regs) a r h = elim (Bool-cases (b == a)) [
    | inl e ↦ let same : b ≡ a = ground arith in rw e (ap some (rw same at r.0))
    | inr e ↦ rw e (ground (arith, register-right regs a r.1))
  ]

  -- In range, the address does not wrap.
  store-unwrapped :
      (count start : ℕ) (regs : List (ℕ × ℕ))
      → start + count ≤ 65536
      → store (uint16 start) (memory_from memory start count) regs
        ≡ store start (memory_from memory start count) regs
  unfolding store memory_from
  store-unwrapped zero start regs l = refl
  store-unwrapped (suc count) start regs l =
      let small : start % 65536 ≡ start = omega arith in rw small refl

  store-right :
      (count start : ℕ) (regs : List (ℕ × ℕ))
      → start + count ≤ 65536
      → AreRight regs
      → AreRight (store start (memory_from memory start count) regs)
  unfolding store memory_from
  store-right zero start regs l r = r
  store-right (suc count) start regs l r =
      rw (store-unwrapped count (start + 1) ((start, memory start) ∷ regs) (omega arith))
        (store-right count (start + 1) ((start, memory start) ∷ regs) (omega arith) (refl, r))

  store-keeps :
      (values : List ℕ) (start a : ℕ) (regs : List (ℕ × ℕ))
      → HasRegister a regs
      → HasRegister a (store start values regs)
  unfolding store HasRegister
  store-keeps [] start a regs h = h
  store-keeps (v ∷ values) start a regs h =
      store-keeps values (uint16 (start + 1)) a ((start, v) ∷ regs) (inr h)

  store-new :
      (count start a : ℕ) (regs : List (ℕ × ℕ))
      → start + count ≤ 65536
      → start ≤ a
      → a < start + count
      → HasRegister a (store start (memory_from memory start count) regs)
  unfolding store memory_from
  store-new zero start a regs l h k = absurd (omega (arith, h, k))
  store-new (suc count) start a regs l h k = elim (Bool-cases (start == a)) [
    | inl e ↦
        store-keeps (memory_from memory (start + 1) count) (uint16 (start + 1)) a
          ((start, memory start) ∷ regs) (unfold HasRegister in inl (ground arith))
    | inr e ↦
        let past : start + 1 ≤ a = ground arith in
        rw (store-unwrapped count (start + 1) ((start, memory start) ∷ regs) (omega arith)) (
          store-new count (start + 1) a ((start, memory start) ∷ regs) (omega arith) past
            (omega arith))
  ]

  -- What a cycle of reads gives.
  record IsSnapshot (bs regs : List (ℕ × ℕ)) (regs' : List (ℕ × ℕ)) : Type 0 where
    right : AreRight regs'
    kept : (a : ℕ) → HasRegister a regs → HasRegister a regs'
    found : (a : ℕ) → IsRead a 1 bs → HasRegister a regs'

  after_read-device :
      (start count : ℕ) (regs : List (ℕ × ℕ))
      → after_read start count (some (memory_from memory start count)) regs
        ≡ some (store start (memory_from memory start count) regs)
  unfolding after_read
  after_read-device start count regs = rw (length-memory_from memory start count) (ground arith)

  read_blocks-cons :
      (start count : ℕ) (bs regs : List (ℕ × ℕ))
      → read_blocks (device memory) ((start, count) ∷ bs) regs
        ≡ read_blocks (device memory) bs (store start (memory_from memory start count) regs)
  unfolding read_blocks
  read_blocks-cons start count bs regs = rw (read_blocks, after_read-device start count regs) refl

  read_blocks-IsSnapshot :
      (bs regs : List (ℕ × ℕ))
      → AreInRange bs
      → AreRight regs
      → (regs' : List (ℕ × ℕ)) × (read_blocks (device memory) bs regs ≡ some regs')
        × IsSnapshot bs regs regs'
  unfolding read_blocks
  read_blocks-IsSnapshot [] regs l r =
      (regs, refl, record { right = r; kept = λ a h. h; found = λ a h. elim h [ ] })
  read_blocks-IsSnapshot (b ∷ bs) regs l r =
      let stored = store b.0 (memory_from memory b.0 b.1) regs in
      let (regs', e, k) = read_blocks-IsSnapshot bs stored l.1 (store-right b.1 b.0 regs l.0 r) in
      (
        regs',
        read_blocks-cons b.0 b.1 bs regs ∙ e,
        record {
          right = k.right;
          kept = λ a h. k.kept a (store-keeps (memory_from memory b.0 b.1) b.0 a regs h);
          found = λ a h. elim h [
            | inl h' ↦ k.kept a (store-new b.1 b.0 a regs l.0 h'.0 (omega (arith, h'.1)))
            | inr h' ↦ k.found a h'
          ];
        },
      )

  -- Against a device that answers from its memory, requests that stay in the address range find in `regs` the
  -- device's own value for every address that a request covers.
  pub read_blocks-register :
      (bs : List (ℕ × ℕ))
      → AreInRange bs
      → (regs : List (ℕ × ℕ)) × (read_blocks (device memory) bs [] ≡ some regs)
        × ((a : ℕ) → IsRead a 1 bs → register regs a ≡ some (memory a))
  read_blocks-register bs l =
      let (regs, e, k) = read_blocks-IsSnapshot bs [] l tt in
      (regs, e, λ a h. register-right regs a k.right (k.found a h))

-- The integers of a signed word of twice `half` values.
abbrev pub AreBits : ℕ → ℤ → Type 0
AreBits half (pos n) = n < half
AreBits half (negsuc n) = n < half

-- The two words of a 32-bit integer, high word first, are read back as the integer.
pub wide_bits-words :
    (regs : List (ℕ × ℕ)) (addr bits : ℕ)
    → bits < 4294967296
    → register regs (uint16 (addr + 1)) ≡ some (bits % 65536)
    → wide_bits regs addr (bits / 65536) ≡ bits
unfolding wide_bits
wide_bits-words regs addr bits h e = rw e (omega arith)

signed-unsigned : (half : ℕ) (z : ℤ) → AreBits half z → signed half (unsigned half z) ≡ z
signed-unsigned half (pos n) h = ground arith
signed-unsigned half (negsuc n) h =
    let back : 2 * half - (2 * half - n - 1) - 1 ≡ n = omega (arith, h) in
    let high : half ≤ 2 * half - n - 1 = omega (arith, h) in
    elim (Bool-cases (ltb (2 * half - n - 1) half)) [
      | inl e ↦ absurd (ground arith)
      | inr e ↦ rw (e, back) refl
    ]

IsRead-next : (a : ℕ) (bs : List (ℕ × ℕ)) → IsRead a 2 bs → IsRead a 1 bs × IsRead (a + 1) 1 bs
IsRead-next a [] h = elim h [ ]
IsRead-next a (b ∷ bs) (inl h) =
    (inl (h.0, omega (arith, h.1)), inl (omega (arith, h.0), omega (arith, h.1)))
IsRead-next a (b ∷ bs) (inr h) = let k = IsRead-next a bs h in (inr k.0, inr k.1)

module _ {F : Type 0} (floats : Floats F) (memory : ℕ → ℕ) (rec : Reading F) (z : ℤ)
    (bs : List (ℕ × ℕ)) (range : AreInRange bs) where
  -- A cycle of reads against a device that answers from its memory, with requests in the address range: if a
  -- request covers the two registers of a reading of type int32, and the device holds the two's complement of
  -- `z` there, high word first, then the value printed is `z` times the reading's scale.
  pub fetched-int32 :
      rec.data_type ≡ "int32"
      → AreBits 2147483648 z
      → memory rec.addr * 65536 + memory (rec.addr + 1) ≡ unsigned 2147483648 z
      → rec.addr + 1 < 65536
      → IsRead rec.addr 2 bs
      → (regs : List (ℕ × ℕ)) × (read_blocks (device memory) bs [] ≡ some regs)
        × (decode_value floats rec regs
            ≡ print_value floats (floats.mul (floats.of_int z) rec.scale))
  unfolding decode_value decode_at to_float wide_bits
  fetched-int32 t b w r h =
      let (regs, e, k) = read_blocks-register memory bs range in
      let n = IsRead-next rec.addr bs h in
      let small : uint16 (rec.addr + 1) ≡ rec.addr + 1 = omega (arith, r) in
      (
        regs,
        e,
        rw (k rec.addr n.0, t, small, k (rec.addr + 1) n.1, w, signed-unsigned 2147483648 z b) refl,
      )
