-- ===== src/Sensors/Changing.antt =====
-- The requests that make, change and remove readers, and change sensors: `createReaderHandler`, `updateReaderHandler`
-- and `deleteReaderHandler` (cloud/internal/api/readers.go), `updateSensorHandler` (cloud/internal/api/sensors.go). What
-- a deletion takes along is in the references of cloud/migrations/001_init.sql. The new hash is left out.
use qube_enterprise_home.Prelude.{
  ℕ, suc, Bool, true, false, not, ◌&&◌, ◌||◌, Option, none, some, List, [], ◌∷◌, ◌++◌, ◌==◌,
  if◌then◌else◌,
}
use qube_enterprise_home.Prelude.Text.{Text, codes, text_eq}
use qube_enterprise_home.Qubes.{first_row, update_rows, delete_rows}
use qube_enterprise_home.Registry.{Config, resolve_reader_image}
use qube_enterprise_home.Sensors.{
  Object, or_empty, Reader, Sensor, Mapping, Tables, refers_to, sanitize_service_name, same_name,
  has_row,
}
use qube_enterprise_home.Sensors.Deleting.{is_org}
use qube_enterprise_home.Sensors.Requests.{valid_output}

-- A row of `reader_templates`, as far as a new reader goes.
pub record Image : Type 0 where
  pub id : ℕ
  pub protocol : Text
  pub suffix : Text

pub record ReaderRequest : Type 0 where
  pub name : Text
  pub protocol : Text
  pub template : Option ℕ
  pub config : Option Object

suffix_of : Option Image → Text
suffix_of none = []
suffix_of (some i) = i.suffix

named_suffix : Text → List Image → Option ℕ → Text
unfolding suffix_of
named_suffix protocol images none = []
named_suffix protocol images (some id) =
    suffix_of (first_row (λ i. i.id == id && text_eq i.protocol protocol) images)

-- The suffix of the template, or else of the first one of the protocol.
unfoldable pub image_suffix : Text → List Image → Option ℕ → Text
unfolding named_suffix suffix_of
image_suffix protocol images template =
    let named = named_suffix protocol images template in
    if text_eq named []
    then suffix_of (first_row (λ i. text_eq i.protocol protocol) images)
    else named

abbrev pub is_active : Text → List Text → Bool
is_active p [] = false
is_active p (q ∷ qs) = text_eq q p || is_active p qs

abbrev pub made_reader : ℕ → ℕ → ReaderRequest → Reader
made_reader id qube req = record {
  id = id;
  qube = qube;
  protocol = req.protocol;
  name = req.name;
  template = req.template;
  config = or_empty req.config;
  active = true;
  version = 1;
}

-- The transaction.
unfoldable pub insert_reader :
    Config → List Image → Bool → ℕ → ℕ → ReaderRequest → Tables → ℕ × Tables
insert_reader registry images works id qube req t =
    if not works || has_row (first_row (same_name qube req.protocol req.name) t.readers)
    then (500, t)
    else (
      201,
      record t {
        readers = t.readers ++ (made_reader id qube req ∷ []);
        containers =
            t.containers
            ++ (record {
              reader = id;
              qube = qube;
              name = sanitize_service_name req.name;
              image = resolve_reader_image registry (image_suffix req.protocol images req.template);
            }
                ∷ []);
      },
    )

-- `createReaderHandler`; `protocols` are the active ones, and a body that does not decode is none.
unfoldable pub create_reader :
    (ℕ → Option ℕ)
    → Config
    → List Text
    → List Image
    → Bool
    → ℕ
    → ℕ
    → ℕ
    → Option ReaderRequest
    → Tables
    → ℕ × Tables
create_reader org_of registry protocols images works id org qube none t =
    if is_org org (org_of qube) then (400, t) else (404, t)
create_reader org_of registry protocols images works id org qube (some req) t =
    if not (is_org org (org_of qube))
    then (404, t)
    else if text_eq req.name []
        || (text_eq req.protocol [] || not (is_active req.protocol protocols))
    then (400, t)
    else insert_reader registry images works id qube req t

-- The bodies of the two updates: a field that is missing is none, and so is a status that is neither "active" nor
-- "disabled".
pub record ReaderUpdate : Type 0 where
  pub name : Option Text
  pub config : Option (Option Object)
  pub status : Option Bool

pub record SensorUpdate : Type 0 where
  pub name : Option Text
  pub config : Option (Option Object)
  pub tags : Option Text
  pub output : Option Text
  pub table_name : Option Text
  pub status : Option Bool

abbrev pub set_or {ℓ} : {A : Type ℓ} → Option A → A → A
set_or none old = old
set_or (some new) old = new

abbrev pub is_given {ℓ} : {A : Type ℓ} → Option A → Bool
is_given none = false
is_given (some x) = true

abbrev pub or_empty_given : Option (Option Object) → Option Object
or_empty_given none = none
or_empty_given (some o) = some (or_empty o)

abbrev pub updated_reader : ReaderUpdate → Reader → Reader
updated_reader u r = record r {
  name = set_or u.name r.name;
  config = set_or (or_empty_given u.config) r.config;
  active = set_or u.status r.active;
  version = suc r.version;
}

abbrev pub updated_sensor : SensorUpdate → Sensor → Sensor
updated_sensor u s = record s {
  name = set_or u.name s.name;
  config = set_or u.config s.config;
  tags = set_or u.tags s.tags;
  output = set_or u.output s.output;
  table_name = set_or u.table_name s.table_name;
  active = set_or u.status s.active;
  version = suc s.version;
}

-- The unique index on the names of the readers, against the rows but `id`.
unfoldable pub taken_by_other : ℕ → Reader → Text → Reader → Bool
taken_by_other id old name r = not (r.id == id) && same_name old.qube old.protocol name r

unfoldable pub rewrite_reader : Bool → ℕ → ReaderUpdate → Reader → Tables → ℕ × Tables
rewrite_reader works id u r t =
    if not (is_given u.name || (is_given u.config || is_given u.status))
    then (400, t)
    else if not works || has_row (first_row (taken_by_other id r (set_or u.name r.name)) t.readers)
    then (500, t)
    else (200, record t { readers = update_rows (λ r. r.id == id) (updated_reader u) t.readers })

unfoldable pub update_reader_body : Bool → ℕ → Option ReaderUpdate → Reader → Tables → ℕ × Tables
update_reader_body works id none r t = (400, t)
update_reader_body works id (some u) r t = rewrite_reader works id u r t

-- What is done with the reader of a request, if it is there and of the organisation.
unfoldable pub with_reader :
    (ℕ → Option ℕ) → ℕ → Option Reader → (Reader → ℕ × Tables) → Tables → ℕ × Tables
with_reader org_of org none next t = (404, t)
with_reader org_of org (some r) next t = if is_org org (org_of r.qube) then next r else (404, t)

-- `updateReaderHandler`
unfoldable pub update_reader :
    (ℕ → Option ℕ) → Bool → ℕ → ℕ → Option ReaderUpdate → Tables → ℕ × Tables
update_reader org_of works org id u t =
    with_reader org_of org (first_row (λ r. r.id == id) t.readers)
      (λ r. update_reader_body works id u r t) t

unfoldable pub rewrite_sensor : Bool → ℕ → SensorUpdate → Tables → ℕ × Tables
rewrite_sensor works id u t =
    if not (
      is_given u.name
      || (is_given u.config
          || (is_given u.tags
              || (is_given u.output || (is_given u.table_name || is_given u.status)))))
    then (400, t)
    else if not works || not (valid_output (set_or u.output (codes "live")))
    then (500, t)
    else (200, record t { sensors = update_rows (λ s. s.id == id) (updated_sensor u) t.sensors })

unfoldable pub update_sensor_body : Bool → ℕ → Option SensorUpdate → Tables → ℕ × Tables
update_sensor_body works id none t = (400, t)
update_sensor_body works id (some u) t = rewrite_sensor works id u t

unfoldable pub update_sensor_found :
    (ℕ → Option ℕ) → Bool → ℕ → ℕ → Option SensorUpdate → Option Sensor → Tables → ℕ × Tables
update_sensor_found org_of works org id u none t = (404, t)
update_sensor_found org_of works org id u (some s) t =
    with_reader org_of org (first_row (λ r. r.id == s.reader) t.readers)
      (λ r. update_sensor_body works id u t) t

-- `updateSensorHandler`
unfoldable pub update_sensor :
    (ℕ → Option ℕ) → Bool → ℕ → ℕ → Option SensorUpdate → Tables → ℕ × Tables
update_sensor org_of works org id u t =
    update_sensor_found org_of works org id u (first_row (λ s. s.id == id) t.sensors) t

-- `ON DELETE SET NULL` of the mappings, for the sensors that go.
abbrev pub orphaned : Mapping → Mapping
orphaned m = record m { sensor = none }

unfoldable pub maps_into : ℕ → List Sensor → Option ℕ → Bool
maps_into reader [] o = false
maps_into reader (s ∷ ss) o = s.reader == reader && refers_to s.id o || maps_into reader ss o

-- The deletion of a reader with what refers to it.
unfoldable pub drop_reader : ℕ → Tables → Tables
drop_reader id t = record t {
  readers = delete_rows (λ r. r.id == id) t.readers;
  sensors = delete_rows (λ s. s.reader == id) t.sensors;
  containers = delete_rows (λ c. c.reader == id) t.containers;
  mappings = update_rows (λ m. maps_into id t.sensors m.sensor) orphaned t.mappings;
}

-- `deleteReaderHandler`
unfoldable pub delete_reader : (ℕ → Option ℕ) → Bool → ℕ → ℕ → Tables → ℕ × Tables
delete_reader org_of works org id t =
    with_reader org_of org (first_row (λ r. r.id == id) t.readers)
      (λ r. if works then (200, drop_reader id t) else (500, t)) t
