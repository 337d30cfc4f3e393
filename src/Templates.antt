-- ===== src/Templates.antt =====
-- Device templates and reader templates (cloud/internal/api/templates.go), less the creation times. A table is the
-- list of its rows, ids are numbers and a new one is an argument; `works` is whether the database carries a statement
-- out where no constraint of the model is against it. The order of a listing is the database's, a parameter.
pub mod Config
pub mod Removal
pub mod Keyed
pub mod Views
pub mod Editing
pub mod Actions
pub mod Detaching
pub mod Containers
pub mod Guards
mod Tests
use qube_enterprise_home.Prelude.{
  ℕ, suc, Bool, true, false, not, ◌&&◌, ◌||◌, Option, none, some, List, [], ◌∷◌, ◌++◌, String, ◌==◌,
  if◌then◌else◌, str_eq,
}
use qube_enterprise_home.Prelude.Text.{Text, codes, text_eq}
use qube_enterprise_home.Qubes.{first_row, update_rows}

-- A JSON value, as far as the handlers look into it: an object has fields that are arrays or something else. What
-- they do not look into is its text.
pub data Item : Type 0 where
  array : List Text → Item
  plain : Text → Item

abbrev pub Fields : Type 0
Fields = List (String × Item)

pub data Document : Type 0 where
  object : Fields → Document
  scalar : Text → Document

-- What `json.Marshal` makes of a field of a request; a missing one is nil.
unfoldable pub marshal : Option Document → Document
marshal none = scalar (codes "null")
marshal (some d) = d

pub record DeviceTemplate : Type 0 where
  pub id : ℕ
  pub org : Option ℕ
  pub protocol : String
  pub name : Text
  pub manufacturer : Text
  pub model : Text
  pub description : Text
  pub sensor_config : Document
  pub sensor_params_schema : Document
  pub reader_template : Option ℕ
  pub is_global : Bool
  pub version : ℕ

pub record ReaderTemplate : Type 0 where
  pub id : ℕ
  pub protocol : String
  pub name : Text
  pub description : Text
  pub image_suffix : Text
  pub connection_schema : Document
  pub env_defaults : Document
  pub version : ℕ

-- A row of `sensors`, as far as the templates go.
pub record Sensor : Type 0 where
  pub id : ℕ
  pub template : Option ℕ

pub record Catalog : Type 0 where
  pub devices : List DeviceTemplate
  pub readers : List ReaderTemplate
  pub sensors : List Sensor

-- The organisation and the role of a token.
pub record Caller : Type 0 where
  pub org : ℕ
  pub role : String

abbrev pub is_superadmin : Caller → Bool
is_superadmin who = str_eq who.role "superadmin"

unfoldable pub owns : Caller → Option ℕ → Bool
owns who none = false
owns who (some org) = org == who.org

-- The body of `createDeviceTemplateHandler`, and, without the protocol, of `updateDeviceTemplateHandler`.
pub record DeviceRequest : Type 0 where
  pub name : Text
  pub protocol : String
  pub manufacturer : Text
  pub model : Text
  pub description : Text
  pub sensor_config : Option Document
  pub sensor_params_schema : Option Document
  pub reader_template : Option ℕ

abbrev pub has_id : ℕ → DeviceTemplate → Bool
has_id id t = t.id == id

abbrev pub is_found {ℓ} : {A : Type ℓ} → Option A → Bool
is_found none = false
is_found (some x) = true

-- The constraint UNIQUE (protocol, name, is_global), against the rows but `id`.
clashes : ℕ → String → Text → Bool → DeviceTemplate → Bool
clashes id protocol name global t =
    not (t.id == id)
    && (str_eq t.protocol protocol
        && (text_eq t.name name && (t.is_global && global || not t.is_global && not global)))

abbrev pub created : ℕ → Caller → DeviceRequest → DeviceTemplate
created id who req = record {
  id = id;
  org = some who.org;
  protocol = req.protocol;
  name = req.name;
  manufacturer = req.manufacturer;
  model = req.model;
  description = req.description;
  sensor_config = marshal req.sensor_config;
  sensor_params_schema = marshal req.sensor_params_schema;
  reader_template = req.reader_template;
  is_global = is_superadmin who;
  version = 1;
}

-- The insertion, with the two constraints that are against it.
unfoldable pub insert_row : Bool → DeviceTemplate → Catalog → ℕ × Catalog
unfolding clashes
insert_row works t c =
    if not works
      || (is_found (first_row (has_id t.id) c.devices)
          || is_found (first_row (clashes t.id t.protocol t.name t.is_global) c.devices))
    then (500, c)
    else (201, record c { devices = c.devices ++ (t ∷ []) })

abbrev pub is_one_of : String → List String → Bool
is_one_of p [] = false
is_one_of p (q ∷ qs) = str_eq q p || is_one_of p qs

-- `createDeviceTemplateHandler`; `protocols` are the active ones, `none` a body that does not decode.
unfoldable pub create_device_template :
    List String → Bool → ℕ → Caller → Option DeviceRequest → Catalog → ℕ × Catalog
create_device_template protocols works id who none c = (400, c)
create_device_template protocols works id who (some req) c =
    if text_eq req.name [] || (str_eq req.protocol "" || not (is_one_of req.protocol protocols))
    then (400, c)
    else insert_row works (created id who req) c

-- The check that `updateDeviceTemplateHandler` and `patchDeviceTemplateConfigHandler` share.
unfoldable pub may_edit : Caller → DeviceTemplate → Bool
may_edit who t = is_superadmin who || not t.is_global && owns who t.org

abbrev pub rewritten : DeviceRequest → DeviceTemplate → DeviceTemplate
rewritten req t = record t {
  name = req.name;
  manufacturer = req.manufacturer;
  model = req.model;
  description = req.description;
  sensor_config = marshal req.sensor_config;
  sensor_params_schema = marshal req.sensor_params_schema;
  reader_template = req.reader_template;
  version = suc t.version;
}

-- The statement of `updateDeviceTemplateHandler`, behind its check.
unfoldable pub update_row : Bool → ℕ → Option DeviceRequest → DeviceTemplate → Catalog → ℕ × Catalog
unfolding clashes
update_row works id none t c = (400, c)
update_row works id (some req) t c =
    if not works || is_found (first_row (clashes id t.protocol req.name t.is_global) c.devices)
    then (500, c)
    else (200, record c { devices = update_rows (has_id id) (rewritten req) c.devices })

unfoldable pub update_found :
    Bool → ℕ → Caller → Option DeviceRequest → Option DeviceTemplate → Catalog → ℕ × Catalog
unfolding update_row
update_found works id who req none c = (404, c)
update_found works id who req (some t) c =
    if may_edit who t then update_row works id req t c else (403, c)

-- `updateDeviceTemplateHandler`
unfoldable pub update_device_template :
    Bool → ℕ → Caller → Option DeviceRequest → Catalog → ℕ × Catalog
unfolding update_found
update_device_template works id who req c =
    update_found works id who req (first_row (has_id id) c.devices) c
