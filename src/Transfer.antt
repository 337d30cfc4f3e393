-- ===== src/Transfer.antt =====
-- enterprise-influx-to-sql: one transfer cycle from InfluxDB to the cloud
-- (enterprise-influx-to-sql/transfer/transfer.go, sqlite/sqlite.go, schema/schema.go). The queries and the
-- posts are parameters; texts are bytes; times and values are carried along, and so are any types.
pub mod Mapping
pub mod Batches
mod Tests
use qube_enterprise_home.Prelude.{
  ℕ, zero, suc, ◌+◌, Option, none, some, List, [], ◌∷◌, ◌++◌, Bool, true, false, if◌then◌else◌,
  length, take, drop, map,
}
use qube_enterprise_home.Prelude.Text.{Text, codes, text_eq, replace_all}

-- A Go map from texts to texts, by its entries.
abbrev pub SensorMap : Type 0
SensorMap = List (Text × Text)

unfoldable pub find : Text → SensorMap → Option Text
find k [] = none
find k ((j, v) ∷ m) = if text_eq j k then some v else find k m

unfoldable pub put : Text → Text → SensorMap → SensorMap
put k v [] = (k, v) ∷ []
put k v ((j, w) ∷ m) = if text_eq j k then (k, v) ∷ m else (j, w) ∷ put k v m

-- A row of `telemetry_settings`.
pub record Setting : Type 0 where
  pub device : Text
  pub reading : Text
  pub sensor_id : Text

-- `LoadTelemetrySettings`: "device:reading" to the sensor, a later row over an earlier one.
unfoldable pub load_telemetry_settings : List Setting → SensorMap → SensorMap
load_telemetry_settings [] m = m
load_telemetry_settings (row ∷ rows) m =
    load_telemetry_settings rows (put (row.device ++ (b':' ∷ row.reading)) row.sensor_id m)

-- `loadFromSQLite`, over the entries in the order in which the map is read.
unfoldable pub normalise : SensorMap → SensorMap → SensorMap
normalise [] m = m
normalise ((key, id) ∷ raw) m = normalise raw (put (replace_all b':' (codes ".") key) id m)

unfoldable pub load_from_sqlite : Option SensorMap → Option SensorMap
load_from_sqlite none = none
load_from_sqlite (some raw) = some (normalise raw [])

-- `loadSensorMap`: with a path for SQLite the file is not read; `none` is a nil map.
unfoldable pub load_sensor_map : Text → Option SensorMap → Option SensorMap → Option SensorMap
unfolding load_from_sqlite
load_sensor_map sqlite_path raw from_json =
    if text_eq sqlite_path [] then from_json else load_from_sqlite raw

found_or : Option Text → Text → Text
found_or (some id) other = id
found_or none other = other

-- `lookupSensor`: the field, any field of the device, the device; "" is no sensor.
unfoldable pub lookup_sensor : SensorMap → Text → Text → Text
unfolding found_or
lookup_sensor m equipment reading =
    found_or (find (equipment ++ (b'.' ∷ reading)) m)
      (found_or (find (equipment ++ codes ".*") m) (found_or (find equipment m) []))

-- `schema.RawRecord`
pub record RawRecord (Time Value : Type 0) : Type 0 where
  pub time : Time
  pub equipment : Text
  pub reading : Text
  pub value : Value

-- `schema.Reading`
pub record Reading (Time Value : Type 0) : Type 0 where
  pub time : Time
  pub sensor_id : Text
  pub field_key : Text
  pub value : Value
  pub unit : Text

module _ {Time Value : Type 0} where
  -- The reading for a record, if its sensor is known.
  abbrev pub to_reading : RawRecord Time Value → Text → Option (Reading Time Value)
  to_reading rec [] = none
  to_reading rec (c ∷ id) = some (record {
    time = rec.time;
    sensor_id = c ∷ id;
    field_key = rec.reading;
    value = rec.value;
    unit = [];
  })

  keep : Option (Reading Time Value) → List (Reading Time Value) → List (Reading Time Value)
  keep none rest = rest
  keep (some r) rest = r ∷ rest

  -- The loop over the records of a table.
  unfoldable pub map_records : SensorMap → List (RawRecord Time Value) → List (Reading Time Value)
  unfolding keep
  map_records m [] = []
  map_records m (rec ∷ recs) =
      keep (to_reading rec (lookup_sensor m rec.equipment rec.reading)) (map_records m recs)

  -- The loop over the tables; `none` is a query that failed.
  unfoldable pub map_tables :
      SensorMap → List (Option (List (RawRecord Time Value))) → List (Reading Time Value)
  map_tables m [] = []
  map_tables m (none ∷ rest) = map_tables m rest
  map_tables m (some recs ∷ rest) = map_records m recs ++ map_tables m rest

-- What the posting loop has done: its batches, and its counters.
pub record Sending (R : Type 0) : Type 0 where
  pub batches : List (List R)
  pub sent : ℕ
  pub failed : ℕ

-- `Run`, for batches of some size: it skips without a map, and without readings; the tables are those of the configuration.
pub data Outcome (R : Type 0) : Type 0 where
  no_map : Outcome R
  no_readings : Outcome R
  out_of_fuel : Outcome R
  done : Sending R → Outcome R

module _ {R : Type 0} where
  -- The batch, and the counts, of one round.
  abbrev pub count_batch : Bool → List R → Sending R → Sending R
  count_batch true batch s = record s {
    batches = s.batches ++ (batch ∷ []);
    sent = s.sent + length batch;
  }
  count_batch false batch s = record s {
    batches = s.batches ++ (batch ∷ []);
    failed = s.failed + length batch;
  }

  -- The loop over `i`, with `allReadings[i:]` for its readings; fuel run out is `none`. `posts` is whether
  -- a batch is taken.
  unfoldable pub send_from : ℕ → ℕ → (List R → Bool) → List R → Sending R → Option (Sending R)
  send_from zero size posts readings s = none
  send_from (suc fuel) size posts [] s = some s
  send_from (suc fuel) size posts (r ∷ rs) s =
      let batch = take size (r ∷ rs) in
      send_from fuel size posts (drop size (r ∷ rs)) (count_batch (posts batch) batch s)

  after_send : Option (Sending R) → Outcome R
  after_send none = out_of_fuel
  after_send (some s) = done s

  send_all : ℕ → (List R → Bool) → List R → Outcome R
  unfolding after_send
  send_all size posts [] = no_readings
  send_all size posts (r ∷ rs) = after_send (
      send_from (suc (length (r ∷ rs))) size posts (r ∷ rs)
        (record { batches = []; sent = 0; failed = 0 }))

abbrev pub tables_or_default : List Text → List Text
tables_or_default [] = codes "Measurements" ∷ []
tables_or_default (t ∷ ts) = t ∷ ts

module _ {Time Value : Type 0} where
  -- `query` is `QueryTable` at the bounds of the run.
  unfoldable pub run :
      ℕ
      → Option SensorMap
      → List Text
      → (Text → Option (List (RawRecord Time Value)))
      → (List (Reading Time Value) → Bool)
      → Outcome (Reading Time Value)
  unfolding send_all
  run size none tables query posts = no_map
  run size (some []) tables query posts = no_map
  run size (some (entry ∷ m)) tables query posts =
      send_all size posts (map_tables (entry ∷ m) (map query (tables_or_default tables)))

-- `batchSize`
abbrev pub batch_size : ℕ
batch_size = 1000
