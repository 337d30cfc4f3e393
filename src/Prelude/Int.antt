-- ===== src/Prelude/Int.antt =====
-- Signed integers, and the two's complement reading of a word.
use Prim.Native.Nat.{ℕ, ◌-◌, ◌*◌}
use qube_enterprise_home.Prelude.Tests.{ltb, if◌then◌else◌}

-- `negsuc n` is -(n + 1).
pub data ℤ : Type 0 where
  pos : ℕ → ℤ
  negsuc : ℕ → ℤ

-- The integer that a word stands for, if half of its range is `half`.
abbrev pub signed : ℕ → ℕ → ℤ
signed half x = if ltb x half then pos x else negsuc (2 * half - x - 1)

-- The word of an integer.
abbrev pub unsigned : ℕ → ℤ → ℕ
unsigned half (pos n) = n
unsigned half (negsuc n) = 2 * half - n - 1
