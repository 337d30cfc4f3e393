-- ===== src/Store.antt =====
-- The configuration in the SQLite file of a device: `WriteConfig` (conf-agent/sqlite/sqlite.go), which writes what the
-- cloud has sent, and `LoadReaderConfig` (pkg/sqliteconfig/loader.go), by which a reader reads its part. Ids are
-- numbers; a JSON object is its text, as it is encoded; the columns of a sensor that are only carried along are its
-- `body`. A statement fails when a primary key is taken, and its error is ignored.
pub mod Loading
mod Tests
use qube_enterprise_home.Prelude.{
  ℕ, Bool, true, false, not, ◌&&◌, ◌||◌, Option, none, some, List, [], ◌∷◌, ◌++◌, ◌==◌,
  if◌then◌else◌, ltb,
}
use qube_enterprise_home.Prelude.Text.{Text, codes, text_eq}
use qube_enterprise_home.Qubes.{first_row, rows}

-- `tpapi.SensorConfig`, `tpapi.ReaderConfig` and the parts of `tpapi.SyncConfig` that are written.
pub record Sensor : Type 0 where
  pub id : ℕ
  pub name : Text
  pub body : Text

pub record Reader : Type 0 where
  pub id : ℕ
  pub name : Text
  pub protocol : Text
  pub config : Text
  pub status : Text
  pub sensors : List Sensor

pub record SyncConfig : Type 0 where
  pub readers : List Reader
  pub core_switch : List (Text × Text)
  pub telemetry : List Text
  pub hash : Text
  pub version : ℕ

-- The rows, and the tables; `telemetry` is that of the settings of telemetry, whose key is counted up.
pub record ReaderRow : Type 0 where
  pub id : ℕ
  pub name : Text
  pub protocol : Text
  pub config : Text
  pub status : Text

pub record SensorRow : Type 0 where
  pub id : ℕ
  pub reader : ℕ
  pub name : Text
  pub body : Text
  pub status : Text

pub record Store : Type 0 where
  pub readers : List ReaderRow
  pub sensors : List SensorRow
  pub core_switch : List (Text × Text)
  pub telemetry : List Text
  pub hash : Text
  pub version : ℕ

-- An `INSERT`, where the function gives the primary key.
unfoldable pub lists_id {ℓ} : {A : Type ℓ} → (A → ℕ) → ℕ → List A → Bool
lists_id key i [] = false
lists_id key i (x ∷ xs) = key x == i || lists_id key i xs

unfoldable pub insert_row {ℓ} : {A : Type ℓ} → (A → ℕ) → A → List A → List A
insert_row key x xs = if lists_id key (key x) xs then xs else xs ++ (x ∷ [])

abbrev pub status_or : Text → Text
status_or status = if text_eq status [] then codes "active" else status

abbrev pub reader_row : Reader → ReaderRow
reader_row r = record {
  id = r.id;
  name = r.name;
  protocol = r.protocol;
  config = r.config;
  status = status_or r.status;
}

abbrev pub sensor_row : ℕ → Sensor → SensorRow
sensor_row reader s = record {
  id = s.id;
  reader = reader;
  name = s.name;
  body = s.body;
  status = codes "active";
}

-- The two loops over readers and sensors.
unfoldable pub write_sensors : ℕ → List Sensor → List SensorRow → List SensorRow
write_sensors reader [] ss = ss
write_sensors reader (s ∷ rest) ss =
    write_sensors reader rest (insert_row (λ r. r.id) (sensor_row reader s) ss)

unfoldable pub write_readers :
    List Reader → List ReaderRow → List SensorRow → List ReaderRow × List SensorRow
write_readers [] rs ss = (rs, ss)
write_readers (r ∷ rest) rs ss =
    write_readers rest (insert_row (λ x. x.id) (reader_row r) rs) (write_sensors r.id r.sensors ss)

-- `WriteConfig`: whether it returns no error, and the tables. The keys of `CoreSwitchSettings` are those of a map.
unfoldable pub write_config : Bool → Bool → SyncConfig → Store → Bool × Store
write_config begins commits c store =
    let (readers, sensors) = write_readers c.readers [] [] in
    if not begins || not commits then (false, store) else (
      true,
      record {
        readers = readers;
        sensors = sensors;
        core_switch = c.core_switch;
        telemetry = c.telemetry;
        hash = c.hash;
        version = c.version;
      },
    )

-- `ORDER BY name`, by the bytes of the names.
unfoldable pub text_ltb : Text → Text → Bool
text_ltb [] [] = false
text_ltb [] (y ∷ ys) = true
text_ltb (x ∷ xs) [] = false
text_ltb (x ∷ xs) (y ∷ ys) = ltb x y || (x == y && text_ltb xs ys)

place : SensorRow → List SensorRow → List SensorRow
place s [] = s ∷ []
place s (r ∷ rs) = let rest = place s rs in if text_ltb r.name s.name then r ∷ rest else s ∷ r ∷ rs

unfoldable pub order_by_name : List SensorRow → List SensorRow
unfolding place
order_by_name [] = []
order_by_name (s ∷ ss) = place s (order_by_name ss)

abbrev pub is_active : Text → Bool
is_active status = text_eq status (codes "active")

with_sensors : ℕ → List SensorRow → Option ReaderRow → Option (ReaderRow × List SensorRow)
with_sensors i ss none = none
with_sensors i ss (some r) =
    some (r, order_by_name (rows (λ s. s.reader == i && is_active s.status) ss))

-- `LoadReaderConfig`; `none` is an error.
unfoldable pub load_reader_config : ℕ → Store → Option (ReaderRow × List SensorRow)
unfolding with_sensors
load_reader_config i store =
    with_sensors i store.sensors (first_row (λ r. r.id == i && is_active r.status) store.readers)
