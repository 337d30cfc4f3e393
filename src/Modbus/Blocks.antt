-- ===== src/Modbus/Blocks.antt =====
-- The block reads of `fetchData` and `adjustCountForDataTypes` (modbus-reader/modbus/modbus.go).
use qube_enterprise_home.Prelude.{
  ℕ, zero, suc, ◌+◌, ◌-◌, ◌&&◌, ◌||◌, Option, none, some, List, [], ◌∷◌, ltb, leb, ◌==◌,
  if◌then◌else◌, length,
}
use qube_enterprise_home.Prelude.Text.{Text, codes, text_eq}
use qube_enterprise_home.Modbus.{Reading, uint16, is_wide}
use qube_enterprise_home.Modbus.Groups.{ReadGroup}

-- The loop over `idx` from `startIndx`: the last address of the block, and the addresses behind it.
unfoldable pub split_block : ℕ → ℕ → List ℕ → ℕ × List ℕ
split_block limit last [] = (last, [])
split_block limit last (a ∷ rest) =
    let next = split_block limit a rest in if leb limit a then (last, a ∷ rest) else next

-- The same from the first address on: the loop may end at that one already.
unfoldable pub first_block : ℕ → ℕ → List ℕ → ℕ × List ℕ
first_block limit start rest =
    if leb limit start then (start, rest) else split_block limit start rest

-- A request before those that follow it.
abbrev pub cons_block : ℕ × ℕ → Option (List (ℕ × ℕ)) → Option (List (ℕ × ℕ))
cons_block b none = none
cons_block b (some bs) = some (b ∷ bs)

module _ {Scale : Type 0} where
  -- The count for a reading: two registers for a wide one that starts in the block.
  unfoldable pub widen : ℕ → ℕ → ℕ → Reading Scale → ℕ
  widen start max_addr count rec =
      let needed = uint16 (rec.addr + 2) in
      let span = uint16 (needed + 65536 - start) in
      if leb start rec.addr && (leb rec.addr max_addr && is_wide rec.data_type)
      then (if ltb count span then span else count)
      else count

  unfoldable pub widen_all : ℕ → ℕ → ℕ → List (Reading Scale) → ℕ
  widen_all start max_addr count [] = count
  widen_all start max_addr count (rec ∷ recs) =
      widen_all start max_addr (widen start max_addr count rec) recs

  unfoldable pub widen_groups : ℕ → ℕ → ℕ → List (ReadGroup Scale) → ℕ
  widen_groups start max_addr count [] = count
  widen_groups start max_addr count (g ∷ gs) =
      widen_groups start max_addr (widen_all start max_addr count g.readings) gs

  -- `adjustCountForDataTypes`
  unfoldable pub adjust_count : ℕ → ℕ → List (ReadGroup Scale) → ℕ
  adjust_count start count gs = widen_groups start (uint16 (start + count + 65535)) count gs

  -- The block read loop on fuel: the requests, each with its first address and its count.
  unfoldable pub blocks_from : ℕ → ℕ → List (ReadGroup Scale) → List ℕ → Option (List (ℕ × ℕ))
  blocks_from zero single gs addrs = none
  blocks_from (suc fuel) single gs [] = some []
  blocks_from (suc fuel) single gs (start ∷ rest) =
      let block = first_block (uint16 (start + uint16 single)) start rest in
      let count = uint16 (block.0 + 65536 - start + 1) in
      cons_block (start, adjust_count start count gs) (blocks_from fuel single gs block.1)

  -- Every round takes an address at least.
  unfoldable pub blocks : ℕ → List (ReadGroup Scale) → List ℕ → Option (List (ℕ × ℕ))
  blocks single gs addrs = blocks_from (suc (length addrs)) single gs addrs

-- What `ReadRegisters` gives for a request: the registers, or `none` for an error.
abbrev pub Client : Type 0
Client = ℕ → ℕ → Option (List ℕ)

-- `regs` after a request: the later of two values at one address counts.
unfoldable pub store : ℕ → List ℕ → List (ℕ × ℕ) → List (ℕ × ℕ)
store addr [] regs = regs
store addr (value ∷ values) regs = store (uint16 (addr + 1)) values ((addr, value) ∷ regs)

unfoldable pub after_read : ℕ → ℕ → Option (List ℕ) → List (ℕ × ℕ) → Option (List (ℕ × ℕ))
after_read start count none regs = none
after_read start count (some raw) regs =
    if length raw == count then some (store start raw regs) else none

-- The requests in their order; a read that fails, or has another length, ends the cycle.
unfoldable pub read_blocks : Client → List (ℕ × ℕ) → List (ℕ × ℕ) → Option (List (ℕ × ℕ))
unfolding after_read
read_blocks client [] regs = some regs
read_blocks client ((start, count) ∷ rest) regs =
    elim (after_read start count (client start count) regs) [
      | none ↦ none
      | some regs' ↦ read_blocks client rest regs'
    ]

-- The registers of one register type; an unknown type is skipped, and its readings find no register.
unfoldable pub read_type : Client → Text → List (ℕ × ℕ) → Option (List (ℕ × ℕ))
read_type client rtype requests =
    if text_eq rtype (codes "Holding") || text_eq rtype (codes "Input")
    then read_blocks client requests []
    else some []
