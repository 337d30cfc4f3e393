-- ===== src/Download.antt =====
-- The configuration that a Qube downloads: `syncConfigHandler`, `loadReadersForQube`, `loadContainersForQube` and
-- `loadTelemetrySettings` (cloud/internal/tpapi/sync.go), on the tables of Sensors, for a database that answers.
-- The JSON of an object and of the columns that are only carried along are parameters, and so are the order by device
-- and the settings of the core-switch.
pub mod Distinct
pub mod Loaded
pub mod Compose
mod Tests
use qube_enterprise_home.Prelude.{
  ℕ, Bool, true, false, ◌&&◌, Option, none, some, List, [], ◌∷◌, ◌==◌, if◌then◌else◌, map,
}
use qube_enterprise_home.Prelude.Text.{Text, codes}
use qube_enterprise_home.Qubes.{first_row, rows}
use qube_enterprise_home.Sensors.{Object, Reader, Sensor, Container, Mapping, Tables}
use qube_enterprise_home.Store
use qube_enterprise_home.Store.{SyncConfig}

-- How values are encoded: the configuration of a reader, the other columns of a sensor, and a mapping.
pub record Encoding : Type 0 where
  pub json : Object → Text
  pub columns : Sensor → Text
  pub setting : Mapping → Text
  pub by_device : List Mapping → List Mapping

abbrev pub sensor_config : Encoding → Sensor → Store.Sensor
sensor_config e s = record { id = s.id; name = s.name; body = e.columns s }

-- The active sensors of a reader.
abbrev pub sensors_of : ℕ → List Sensor → List Sensor
sensors_of reader ss = rows (λ s. s.reader == reader && s.active) ss

abbrev pub reader_config : Encoding → List Sensor → Reader → Store.Reader
reader_config e ss r = record {
  id = r.id;
  name = r.name;
  protocol = r.protocol;
  config = e.json r.config;
  status = codes "active";
  sensors = map (sensor_config e) (sensors_of r.id ss);
}

unfoldable pub load_readers_for_qube : Encoding → ℕ → Tables → List Store.Reader
load_readers_for_qube e qube t =
    map (reader_config e t.sensors) (rows (λ r. r.qube == qube && r.active) t.readers)

unfoldable pub load_telemetry_settings : Encoding → ℕ → Tables → List Text
load_telemetry_settings e qube t =
    map e.setting (e.by_device (rows (λ m. m.qube == qube) t.mappings))

-- A container with the protocol of its reader, "" without one. All containers are active: nothing disables one.
pub record ContainerConfig : Type 0 where
  pub reader : ℕ
  pub name : Text
  pub image : Text
  pub protocol : Text

protocol_of : Option Reader → Text
protocol_of none = []
protocol_of (some r) = r.protocol

unfoldable pub load_containers_for_qube : ℕ → Tables → List ContainerConfig
unfolding protocol_of
load_containers_for_qube qube t =
    map
      (λ c. record {
        reader = c.reader;
        name = c.name;
        image = c.image;
        protocol = protocol_of (first_row (λ r. r.id == c.reader) t.readers);
      })
      (rows (λ c. c.qube == qube) t.containers)

-- `syncConfigHandler`: the answer, from the row of `config_state` for the Qube; `none` is a 500.
unfoldable pub sync_config :
    Encoding → ℕ → Option (Text × ℕ) → List (Text × Text) → Tables → Option SyncConfig
sync_config e qube none core_switch t = none
sync_config e qube (some (hash, version)) core_switch t = some (record {
  readers = load_readers_for_qube e qube t;
  core_switch = core_switch;
  telemetry = load_telemetry_settings e qube t;
  hash = hash;
  version = version;
})
