-- ===== src/Sensors/Tests.antt =====
-- Two sensors of one device, and a reader's name.
use mathlib.Core.Quot
use qube_enterprise_home.Prelude.{
  String, ◌≡◌, refl, inr, true, false, ℕ, Option, map, none, some, [], ◌∷◌, ◌==◌,
}
use qube_enterprise_home.Prelude.Text.{Text, codes, text_eq}
use qube_enterprise_home.Qubes.{first_row, rows}
use qube_enterprise_home.Sensors.{
  string, Object, get, put, get_str, endpoint_fingerprint, Reader, Sensor, Tables, refers_to,
  serves, same_endpoint, find_reader, create_auto_reader, find_or_create_reader,
  sanitize_service_name, merge_sensor_config, or_empty, merge, service_byte, trim_left, trim_right,
  reuse, same_name, has_row,
}
use qube_enterprise_home.Sensors.Requests.{
  Template, SensorRequest, Connection, Setup, valid_output, insert_sensor, insert_resolved,
  resolve_and_insert, smart_with, smart_create_sensor,
}
use qube_enterprise_home.Sensors.Changing.{delete_reader}
use qube_enterprise_home.Sensors.Integrity.{IsWhole}
use qube_enterprise_home.Sensors.Unordered.{Fields, merge_maps, empty_map, merge_maps-laws}
use qube_enterprise_home.Sensors.Merging.{lists_key, or_else}
use qube_enterprise_home.Sensors.Serving.{
  World, resolve_sensor, remove_reader, serve, serve-IsWhole,
}
use qube_enterprise_home.Sensors.Sharing.{KeepsReaders, smart_create_sensor-shares}
use qube_enterprise_home.Sensors.Stranding.{delete_reader-strands}
use qube_enterprise_home.Sensors.Deleting.{is_org}

abbrev address : Object
address = ("host", string (codes "10.0.0.5")) ∷ ("port", string (codes "502")) ∷ []

abbrev modbus : Text
modbus = codes "modbus_tcp"

abbrev empty : Tables
empty = record { readers = []; sensors = []; containers = []; mappings = [] }

abbrev plc : Reader
plc = record {
  id = 4;
  qube = 7;
  protocol = modbus;
  name = codes "PLC";
  template = none;
  config = address;
  active = true;
  version = 1;
}

abbrev pump : Sensor
pump = record {
  id = 11;
  reader = 4;
  name = codes "Pump";
  template = none;
  config = none;
  tags = codes "{}";
  output = codes "influxdb";
  table_name = codes "Measurements";
  active = true;
  version = 1;
}

abbrev tables : Tables
tables = record {
  readers = plc ∷ [];
  sensors = pump ∷ [];
  containers = [];
  mappings =
      record {
        qube = 7;
        device = codes "Pump";
        reading = codes "*";
        agg_time_min = 1;
        agg_func = codes "LAST";
        sensor = some 11;
      }
      ∷ [];
}

test-merge :
    get "host"
      (merge_sensor_config (some address) (some (("host", string (codes "10.0.0.9")) ∷ [])))
    ≡ some (string (codes "10.0.0.9"))
unfolding get merge_sensor_config or_empty merge put
test-merge = refl

test-name : sanitize_service_name (codes "_Boiler Room 2!") ≡ codes "boiler-room-2"
unfolding sanitize_service_name service_byte trim_left trim_right
test-name = refl

-- A name without letters and digits has no service name.
test-dashes : sanitize_service_name (codes "***") ≡ []
unfolding sanitize_service_name service_byte trim_left trim_right
test-dashes = refl

abbrev owner : ℕ → Option ℕ
owner qube = some 3

abbrev meter : Template
meter = record {
  id = 50;
  org = none;
  is_global = true;
  protocol = modbus;
  config = some (("registers", string (codes "[]")) ∷ []);
}

abbrev setup : Setup
setup = record {
  registry = [];
  is_multi_target = λ p. false;
  suffix = λ t. codes "modbus-reader";
  reads = true;
  creates = true;
}

abbrev wanted : SensorRequest
wanted = record {
  name = codes "Meter";
  template = some 50;
  params = none;
  tags = codes "{}";
  output = [];
  table_name = [];
}

abbrev second : SensorRequest
second = record wanted { name = codes "Meter 2" }

abbrev elsewhere : Connection
elsewhere = record {
  reader_config = some (("host", string (codes "10.0.0.9")) ∷ []);
  reader_name = codes "Meters";
}

abbrev world : World
world = record {
  org_of = owner;
  setup = setup;
  templates = meter ∷ [];
  protocols = modbus ∷ [];
  images = [];
}

serve-IsWhole_example : IsWhole (
    serve world
      ((3, resolve_sensor true true 5 12 7 (some (wanted, elsewhere)))
        ∷ (3, remove_reader true 4)
        ∷ [])
      tables)
unfolding IsWhole first_row
serve-IsWhole_example =
    serve-IsWhole world
      ((3, resolve_sensor true true 5 12 7 (some (wanted, elsewhere)))
        ∷ (3, remove_reader true 4)
        ∷ [])
      tables (refl, tt)

smart_create_sensor-shares_example :
    let u =
      (smart_create_sensor owner setup true true
        (meter ∷ [])
        5
        12
        3
        7
        (some (wanted, elsewhere))
        tables).1 in
    KeepsReaders u
      (smart_create_sensor owner setup true true
        (meter ∷ [])
        6
        13
        3
        7
        (some (second, elsewhere))
        u).1
unfolding smart_create_sensor smart_with resolve_and_insert insert_resolved insert_sensor
    valid_output find_or_create_reader create_auto_reader find_reader reuse first_row
    endpoint_fingerprint get_str get text_eq is_org same_name has_row or_empty same_endpoint serves
smart_create_sensor-shares_example =
    smart_create_sensor-shares owner setup (meter ∷ []) 3 7 50 elsewhere meter refl refl true true
      true true 5 6 12 13 wanted second tables _ (inr (refl, refl, refl)) refl refl refl

delete_reader-strands_example :
    let (status, after) = delete_reader owner true 3 4 tables in
    (status ≡ 200)
    × (rows (λ s. s.reader == 4) after.sensors ≡ [])
    × (rows (λ c. c.reader == 4) after.containers ≡ [])
    × (rows (λ m. refers_to 11 m.sensor) after.mappings ≡ [])
    × (map (λ m. m.device) after.mappings ≡ map (λ m. m.device) tables.mappings)
unfolding first_row is_org
delete_reader-strands_example = delete_reader-strands owner 3 4 11 plc pump tables refl refl refl

abbrev device : Fields
unfolding lists_key
device =
    (("unit_id", string (codes "1")) ∷ ("host", string (codes "10.0.0.5")) ∷ [], (refl, (refl, tt)))

abbrev defaults : Fields
unfolding lists_key
defaults = (("unit_id", string (codes "9")) ∷ [], (refl, tt))

merge_maps-laws_example :
    ((m : Fields) × (merge_maps (Quot.mk defaults) (Quot.mk device) ≡ Quot.mk m)
      × ((key : String) → get key m.0 ≡ or_else (get key device.0) (get key defaults.0)))
    × (merge_maps (merge_maps empty_map (Quot.mk device)) (Quot.mk defaults)
        ≡ merge_maps empty_map (merge_maps (Quot.mk device) (Quot.mk defaults)))
    × (merge_maps empty_map empty_map ≡ empty_map)
    × (merge_maps empty_map empty_map ≡ empty_map)
    × (merge_maps empty_map empty_map ≡ empty_map)
merge_maps-laws_example =
    merge_maps-laws defaults device empty_map (Quot.mk device) (Quot.mk defaults)
