-- ===== src/Modbus/Tests.antt =====
-- A server with readings of two types, and what its cycle does (modbus-reader/modbus/modbus.go).
use qube_enterprise_home.Prelude.{
  ℕ, ◌≡◌, refl, inl, inr, true, some, List, [], ◌∷◌, arith, ◌==◌, if◌then◌else◌,
}
use qube_enterprise_home.Prelude.Int.{ℤ, pos, negsuc}
use qube_enterprise_home.Prelude.Text.{codes, text_eq}
use qube_enterprise_home.Modbus.{Reading, with_defaults, is_wide}
use qube_enterprise_home.Modbus.Groups.{group_readings, addrs_of}
use qube_enterprise_home.Modbus.Blocks.{
  blocks, blocks_from, first_block, split_block, adjust_count, widen_groups, widen_all, widen,
  read_blocks,
}
use qube_enterprise_home.Modbus.Coverage.{blocks-Covers, Covers}
use qube_enterprise_home.Modbus.Decoding.{Floats, decode_value, print_value, device, fetched-int32}

-- Numbers for `float64`, printed as nothing but a sign.
abbrev floats : Floats ℤ
floats = record {
  of_int = λ z. z;
  of_bits = λ n. pos n;
  mul = λ x y. x;
  is_whole = λ x. true;
  print_whole = λ x. elim x [ pos n ↦ codes "+" | negsuc n ↦ codes "-" ];
  print_fraction = λ x. [];
}

abbrev power : Reading ℤ
power = record {
  equipment = codes "Chiller";
  reading = codes "power";
  reg_type = codes "Holding";
  addr = 12;
  data_type = "int32";
  scale = pos 1;
}

abbrev temp : Reading ℤ
temp = record {
  equipment = codes "Chiller";
  reading = codes "temp";
  reg_type = codes "Holding";
  addr = 10;
  data_type = "uint16";
  scale = pos 1;
}

abbrev readings : List (Reading ℤ)
readings = temp ∷ power ∷ []

test-defaults :
    with_defaults (record { freq_sec = 0; single_read_count = 0 })
    ≡ record { freq_sec = 5; single_read_count = 100 }
unfolding with_defaults
test-defaults = refl

test-addrs : addrs_of (codes "Holding") readings ≡ 10 ∷ 12 ∷ []
unfolding addrs_of text_eq
test-addrs = refl

-- Read size 2: the second block is widened to the power's two registers.
test-blocks :
    blocks 2 (record { key = []; reg_type = []; readings = readings } ∷ []) (10 ∷ 12 ∷ [])
    ≡ some ((10, 1) ∷ (12, 2) ∷ [])
unfolding blocks blocks_from first_block split_block adjust_count widen_groups widen_all widen
    is_wide
test-blocks = refl

blocks-Covers_example :
    (bs : List (ℕ × ℕ)) × (blocks 2 (group_readings readings []) (10 ∷ 12 ∷ []) ≡ some bs)
    × Covers (group_readings readings []) (10 ∷ 12 ∷ []) bs
blocks-Covers_example =
    blocks-Covers 2 (group_readings readings []) 0 (10 ∷ 12 ∷ []) (omega arith, (omega arith, tt))
      (omega arith, (omega arith, tt))

-- A device that holds -5 at the power's address.
abbrev memory : ℕ → ℕ
memory a = if a == 12 then 65535 else (if a == 13 then 65531 else 0)

fetched-int32_example :
    (regs : List (ℕ × ℕ)) × (read_blocks (device memory) ((10, 1) ∷ (12, 2) ∷ []) [] ≡ some regs)
    × (decode_value floats power regs
        ≡ print_value floats (floats.mul (floats.of_int (negsuc 4)) power.scale))
fetched-int32_example =
    fetched-int32 floats memory power (negsuc 4) ((10, 1) ∷ (12, 2) ∷ [])
      (omega arith, (omega arith, tt)) refl (omega arith) refl (omega arith)
      (inr (inl (omega arith, omega arith)))
