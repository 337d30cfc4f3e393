-- ===== src/Modbus.antt =====
-- modbus-reader/modbus/modbus.go: the readings of a Modbus server, their groups and addresses (`Init`),
-- the block reads (`fetchData`, `adjustCountForDataTypes`), and the values (`decodeValue`). An address is a
-- `uint16`, and arithmetic on addresses wraps. The Modbus client, floating point and the formatting of
-- values are parameters.
pub mod Groups
pub mod Blocks
pub mod Decoding
pub mod Coverage
mod Tests
use qube_enterprise_home.Prelude.{
  ℕ, ◌+◌, ◌%◌, String, Bool, false, List, [], ◌∷◌, ltb, ◌==◌, if◌then◌else◌, str_eq, ◌||◌,
}
use qube_enterprise_home.Prelude.Text.{Text, text_eq}

-- `Reading`, less the fields that are passed on as they are; `Scale` is the type of its scale factor.
pub record Reading (Scale : Type 0) : Type 0 where
  pub equipment : Text
  pub reading : Text
  pub reg_type : Text
  pub addr : ℕ
  pub data_type : String
  pub scale : Scale

-- `ModbusConfig`, less the server's address.
pub record ModbusConfig : Type 0 where
  pub freq_sec : ℕ
  pub single_read_count : ℕ

-- The defaults of `Init`.
unfoldable pub with_defaults : ModbusConfig → ModbusConfig
with_defaults c = record {
  freq_sec = if c.freq_sec == 0 then 5 else c.freq_sec;
  single_read_count = if c.single_read_count == 0 then 100 else c.single_read_count;
}

abbrev pub uint16 : ℕ → ℕ
uint16 n = n % 65536

-- `case "uint32", "int32", "float32"`
unfoldable pub is_wide : String → Bool
is_wide t = str_eq t "uint32" || (str_eq t "int32" || str_eq t "float32")

first_byte_lt : Text → Text → Bool
first_byte_lt [] t = false
first_byte_lt (x ∷ xs) [] = false
first_byte_lt (x ∷ xs) (y ∷ ys) = ltb x y

-- The order that `Init` sorts by, for register types that are not empty.
unfoldable pub comes_before {ℓ} : {A : Type ℓ} → (A → Text) → (A → ℕ) → A → A → Bool
unfolding first_byte_lt
comes_before reg_type addr a b =
    if text_eq (reg_type a) (reg_type b)
    then ltb (addr a) (addr b)
    else first_byte_lt (reg_type a) (reg_type b)
