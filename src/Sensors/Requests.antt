-- ===== src/Sensors/Requests.antt =====
-- The requests that make, change and remove readers and sensors (cloud/internal/api/sensors.go and readers.go), with
-- the mapping of a new sensor (`autoCreateTelemetryMapping`, cloud/internal/api/telemetry_settings.go). The new hash
-- is left out; `works` is whether the database carries a statement or a transaction out where no constraint of the
-- model is against it.
use qube_enterprise_home.Prelude.{
  ℕ, Bool, true, false, not, ◌&&◌, ◌||◌, Option, none, some, List, [], ◌∷◌, ◌++◌, ◌==◌,
  if◌then◌else◌,
}
use qube_enterprise_home.Prelude.Text.{Text, codes, text_eq}
use qube_enterprise_home.Qubes.{first_row}
use qube_enterprise_home.Registry.{Config}
use qube_enterprise_home.Sensors.{
  Object, or_empty, merge_sensor_config, Reader, Sensor, Mapping, Tables, refers_to, first_text,
  find_or_create_reader,
}
use qube_enterprise_home.Sensors.Deleting.{is_org}

-- A device template, as far as a new sensor goes.
pub record Template : Type 0 where
  pub id : ℕ
  pub org : Option ℕ
  pub is_global : Bool
  pub protocol : Text
  pub config : Option Object

-- The body of `createSensorHandler`; the id of a template that is "" is none.
pub record SensorRequest : Type 0 where
  pub name : Text
  pub template : Option ℕ
  pub params : Option Object
  pub tags : Text
  pub output : Text
  pub table_name : Text

abbrev pub find_template : ℕ → ℕ → List Template → Option Template
find_template org id ts = first_row (λ t. t.id == id && (t.is_global || is_org org t.org)) ts

-- The check of the column `output`.
unfoldable pub valid_output : Text → Bool
valid_output o =
    text_eq o (codes "influxdb") || (text_eq o (codes "live") || text_eq o (codes "influxdb,live"))

abbrev pub new_sensor : ℕ → ℕ → Option Object → SensorRequest → Sensor
new_sensor id reader config req = record {
  id = id;
  reader = reader;
  name = req.name;
  template = req.template;
  config = config;
  tags = req.tags;
  output = first_text req.output (codes "influxdb");
  table_name = first_text req.table_name (codes "Measurements");
  active = true;
  version = 1;
}

abbrev pub has_mapping : Option Mapping → Bool
has_mapping none = false
has_mapping (some m) = true

-- `autoCreateTelemetryMapping`, whose failure is only logged.
unfoldable pub auto_create_telemetry_mapping : Bool → ℕ → ℕ → Text → Tables → Tables
auto_create_telemetry_mapping works qube sensor name t =
    if not works
      || has_mapping (
          first_row
            (λ m.
              m.qube == qube
              && (text_eq m.device name
                  && (text_eq m.reading (codes "*") && refers_to sensor m.sensor)))
            t.mappings)
    then t
    else record t {
      mappings =
          t.mappings
          ++ (record {
            qube = qube;
            device = name;
            reading = codes "*";
            agg_time_min = 1;
            agg_func = codes "LAST";
            sensor = some sensor;
          }
              ∷ []);
    }

-- What both handlers do with a configuration: the row, then its mapping.
unfoldable pub insert_sensor :
    Bool → Bool → ℕ → ℕ → ℕ → Option Object → SensorRequest → Tables → ℕ × Tables
insert_sensor works maps id qube reader config req t =
    if not works || not (valid_output (first_text req.output (codes "influxdb")))
    then (500, t)
    else (
      201,
      auto_create_telemetry_mapping maps qube id req.name
          (record t { sensors = t.sensors ++ (new_sensor id reader config req ∷ []) }),
    )

unfoldable pub with_template :
    Bool → Bool → ℕ → Reader → SensorRequest → Option Template → Tables → ℕ × Tables
with_template works maps id r req none t = (404, t)
with_template works maps id r req (some tmpl) t =
    if text_eq tmpl.protocol r.protocol
    then insert_sensor works maps id r.qube r.id (some (merge_sensor_config tmpl.config req.params))
        req t
    else (400, t)

unfoldable pub choose_config :
    Bool → Bool → List Template → ℕ → ℕ → Reader → SensorRequest → Option ℕ → Tables → ℕ × Tables
choose_config works maps templates id org r req none t =
    insert_sensor works maps id r.qube r.id req.params req t
choose_config works maps templates id org r req (some tmpl) t =
    with_template works maps id r req (find_template org tmpl templates) t

unfoldable pub create_under :
    (ℕ → Option ℕ)
    → Bool
    → Bool
    → List Template
    → ℕ
    → ℕ
    → Option SensorRequest
    → Option Reader
    → Tables
    → ℕ × Tables
create_under org_of works maps templates id org req none t = (404, t)
create_under org_of works maps templates id org none (some r) t =
    if is_org org (org_of r.qube) then (400, t) else (404, t)
create_under org_of works maps templates id org (some req) (some r) t =
    if not (is_org org (org_of r.qube))
    then (404, t)
    else if text_eq req.name []
    then (400, t)
    else choose_config works maps templates id org r req req.template t

-- `createSensorHandler`; a body that does not decode is none.
unfoldable pub create_sensor :
    (ℕ → Option ℕ)
    → Bool
    → Bool
    → List Template
    → ℕ
    → ℕ
    → ℕ
    → Option SensorRequest
    → Tables
    → ℕ × Tables
create_sensor org_of works maps templates id org reader req t =
    create_under org_of works maps templates id org req (first_row (λ r. r.id == reader) t.readers)
      t

-- What `smartCreateSensorHandler` has besides: the connection of the reader, and a name for a new one.
pub record Connection : Type 0 where
  pub reader_config : Option Object
  pub reader_name : Text

unfoldable pub insert_resolved :
    Bool → Bool → ℕ → ℕ → Template → SensorRequest → Option ℕ × Tables → ℕ × Tables
insert_resolved works maps id qube tmpl req (none, t) = (500, t)
insert_resolved works maps id qube tmpl req (some reader, t) =
    insert_sensor works maps id qube reader (some (merge_sensor_config tmpl.config req.params)) req
      t

-- How a request is resolved: the registry of images, the protocols with one shared reader, the suffix of the image
-- that goes with a template, whether the query for a reader works, and whether a new reader is inserted.
pub record Setup : Type 0 where
  pub registry : Config
  pub is_multi_target : Text → Bool
  pub suffix : ℕ → Text
  pub reads : Bool
  pub creates : Bool

unfoldable pub resolve_and_insert :
    Setup
    → Bool
    → Bool
    → ℕ
    → ℕ
    → ℕ
    → SensorRequest
    → Connection
    → Option Template
    → Tables
    → ℕ × Tables
resolve_and_insert setup works maps next id qube req conn none t = (404, t)
resolve_and_insert setup works maps next id qube req conn (some tmpl) t =
    insert_resolved works maps id qube tmpl req (
      find_or_create_reader setup.registry setup.creates setup.reads (setup.suffix tmpl.id) next
        (setup.is_multi_target tmpl.protocol) qube tmpl.protocol conn.reader_name
        (or_empty conn.reader_config) t)

unfoldable pub smart_with :
    Setup
    → Bool
    → Bool
    → List Template
    → ℕ
    → ℕ
    → ℕ
    → ℕ
    → SensorRequest
    → Connection
    → Option ℕ
    → Tables
    → ℕ × Tables
smart_with setup works maps templates next id org qube req conn none t = (400, t)
smart_with setup works maps templates next id org qube req conn (some tmpl) t =
    resolve_and_insert setup works maps next id qube req conn (find_template org tmpl templates) t

-- `smartCreateSensorHandler`; `next` is the id of a new reader.
unfoldable pub smart_create_sensor :
    (ℕ → Option ℕ)
    → Setup
    → Bool
    → Bool
    → List Template
    → ℕ
    → ℕ
    → ℕ
    → ℕ
    → Option (SensorRequest × Connection)
    → Tables
    → ℕ × Tables
smart_create_sensor org_of setup works maps templates next id org qube none t =
    if is_org org (org_of qube) then (400, t) else (404, t)
smart_create_sensor org_of setup works maps templates next id org qube (some (req, conn)) t =
    if not (is_org org (org_of qube))
    then (404, t)
    else if text_eq req.name []
    then (400, t)
    else smart_with setup works maps templates next id org qube req conn req.template t
