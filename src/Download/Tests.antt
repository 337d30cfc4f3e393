-- ===== src/Download/Tests.antt =====
-- A Qube with two readers, one of them disabled.
use qube_enterprise_home.Prelude.{List, ◌≡◌, refl, true, false, none, some, [], ◌∷◌, map}
use qube_enterprise_home.Prelude.Text.{Text, codes, text_eq, has_byte}
use qube_enterprise_home.Qubes.{first_row}
use qube_enterprise_home.Sensors.{Reader, Sensor, Tables}
use qube_enterprise_home.Store
use qube_enterprise_home.Store.{
  SyncConfig, write_config, load_reader_config, order_by_name, reader_row, sensor_row, lists_id,
}
use qube_enterprise_home.Download.{
  ContainerConfig, Encoding, sensor_config, sensors_of, reader_config, sync_config,
}
use qube_enterprise_home.Registry.{image_for_service, value, get_or_default}
use qube_enterprise_home.Sensors.Names.{all_service}
use qube_enterprise_home.Download.Compose.{build_compose_yml}
use qube_enterprise_home.Download.Compose.Services.{services, all_free, build_compose_yml-services}
use qube_enterprise_home.Download.Loaded.{sync_config-loaded}

abbrev encoding : Encoding
encoding = record {
  json = λ o. codes "{}";
  columns = λ s. s.output;
  setting = λ m. m.device;
  by_device = λ ms. ms;
}

abbrev plc : Reader
plc = record {
  id = 4;
  qube = 7;
  protocol = codes "modbus_tcp";
  name = codes "PLC";
  template = none;
  config = [];
  active = true;
  version = 1;
}

abbrev pump : Sensor
pump = record {
  id = 11;
  reader = 4;
  name = codes "Pump";
  template = none;
  config = none;
  tags = codes "{}";
  output = codes "influxdb";
  table_name = codes "Measurements";
  active = true;
  version = 1;
}

abbrev tables : Tables
tables = record {
  readers = plc ∷ record plc { id = 5; active = false } ∷ [];
  sensors =
      pump
      ∷ record pump { id = 12; name = codes "Fan" }
      ∷ record pump { id = 13; active = false }
      ∷ record pump { id = 14; reader = 5 }
      ∷ [];
  containers = [];
  mappings = [];
}

abbrev blank : Store.Store
blank = record {
  readers = [];
  sensors = [];
  core_switch = [];
  telemetry = [];
  hash = [];
  version = 0;
}

sync_config-loaded_example :
    (c : SyncConfig) × (sync_config encoding 7 (some (codes "ab", 3)) [] tables ≡ some c)
    × (load_reader_config 4 (write_config true true c blank).1
        ≡ some (
          reader_row (reader_config encoding tables.sensors plc),
          order_by_name
              (map (sensor_row 4) (map (sensor_config encoding) (sensors_of 4 tables.sensors))),
        ))
unfolding first_row lists_id
sync_config-loaded_example =
    sync_config-loaded encoding 7 3 4 (codes "ab") [] plc tables blank (refl, (refl, tt))
      (refl, (refl, (refl, (refl, tt)))) refl refl

abbrev container : ContainerConfig
container = record {
  reader = 4;
  name = codes "plc";
  image = codes "modbus-reader:arm64";
  protocol = codes "modbus_tcp";
}

abbrev reader_env : ContainerConfig → List (Text × Text)
reader_env c = (codes "LOG_LEVEL", codes "info") ∷ []

build_compose_yml-services_example :
    services (build_compose_yml reader_env [] [] (codes "Q-1") [] (container ∷ []))
    ≡ codes "influxdb"
      ∷ codes "influxdb-relay"
      ∷ codes "core-switch"
      ∷ codes "enterprise-influx-to-sql"
      ∷ codes "plc"
      ∷ []
unfolding has_byte all_free all_service image_for_service value get_or_default text_eq
build_compose_yml-services_example =
    build_compose_yml-services reader_env [] [] (codes "Q-1") [] (container ∷ []) refl refl
      (refl, refl, refl) (refl, refl, refl, refl, tt)
