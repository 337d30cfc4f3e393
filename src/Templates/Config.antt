-- ===== src/Templates/Config.antt =====
-- The configuration of a device template in parts: `patchDeviceTemplateConfigHandler` and `protocolArrayKey`
-- (cloud/internal/api/templates.go).
use qube_enterprise_home.Prelude.{
  ℕ, suc, Bool, false, ◌||◌, Option, none, some, List, [], ◌∷◌, ◌++◌, String, if◌then◌else◌, str_eq,
  ltb, length, set, take, drop,
}
use qube_enterprise_home.Prelude.Int.{ℤ, pos, negsuc}
use qube_enterprise_home.Prelude.Text.{Text}
use qube_enterprise_home.Qubes.{first_row, update_rows}
use qube_enterprise_home.Templates.{
  Item, array, plain, Fields, Document, object, scalar, DeviceTemplate, Catalog, Caller, has_id,
  may_edit,
}

-- `protocolArrayKey`
unfoldable pub protocol_array_key : String → String
protocol_array_key protocol =
    if str_eq protocol "modbus_tcp"
    then "registers"
    else if str_eq protocol "opcua"
    then "nodes"
    else if str_eq protocol "snmp"
    then "oids"
    else if str_eq protocol "mqtt" || str_eq protocol "http"
    then "json_paths"
    else "entries"

unfoldable pub item : String → Fields → Option Item
item key [] = none
item key ((k, v) ∷ rest) = if str_eq k key then some v else item key rest

unfoldable pub put_item : String → Item → Fields → Fields
put_item key v [] = (key, v) ∷ []
put_item key v ((k, w) ∷ rest) =
    if str_eq k key then (key, v) ∷ rest else (k, w) ∷ put_item key v rest

-- A map that JSON is read into; what is no object leaves it empty.
abbrev pub to_map : Document → Fields
to_map (object fs) = fs
to_map (scalar s) = []

abbrev pub array_or_empty : Option Item → List Text
array_or_empty none = []
array_or_empty (some (array es)) = es
array_or_empty (some (plain s)) = []

unfoldable pub entries : String → Document → List Text
entries key d = array_or_empty (item key (to_map d))

-- The body of `patchDeviceTemplateConfigHandler`: an action that is no string is "", an index that is no number is 0,
-- a number is its whole part, and an entry its text.
pub record PatchRequest : Type 0 where
  pub sensor_config : Option Document
  pub action : String
  pub index : ℤ
  pub entry : Text

unfoldable pub in_range : ℤ → List Text → Bool
in_range (pos n) es = ltb n (length es)
in_range (negsuc n) es = false

abbrev pub offset : ℤ → ℕ
offset (pos n) = n
offset (negsuc n) = 0

-- The switch on the action; `none` is an error.
unfoldable pub edit : PatchRequest → List Text → Option (List Text)
unfolding in_range
edit req es =
    if str_eq req.action "add"
    then some (es ++ (req.entry ∷ []))
    else if str_eq req.action "update"
    then (if in_range req.index es then some (set es (offset req.index) req.entry) else none)
    else if str_eq req.action "delete"
    then (if in_range req.index es
        then some (take (offset req.index) es ++ drop (suc (offset req.index)) es)
        else none)
    else none

-- What the body makes of a configuration: a status that ends the request, or the new configuration and its number
-- of entries. A new configuration that is no object makes the handler panic, which the router answers with 500.
pub data Patched : Type 0 where
  refused : ℕ → Patched
  config : Document → ℕ → Patched

unfoldable pub edited : String → Fields → Option (List Text) → Patched
edited key fs none = refused 400
edited key fs (some es) = config (object (put_item key (array es) fs)) (length es)

unfoldable pub patch_config : String → PatchRequest → Option Document → Document → Patched
unfolding edited
patch_config key req (some (object fs)) d = config (object fs) (length (entries key (object fs)))
patch_config key req (some (scalar s)) d = refused 500
patch_config key req none d = edited key (to_map d) (edit req (entries key d))

pub record Reply : Type 0 where
  pub status : ℕ
  pub total_entries : ℕ

abbrev pub reconfigured : Document → DeviceTemplate → DeviceTemplate
reconfigured d t = record t { sensor_config = d; version = suc t.version }

unfoldable pub patch_row : Bool → ℕ → Patched → Catalog → Reply × Catalog
patch_row works id (refused status) c = (record { status = status; total_entries = 0 }, c)
patch_row works id (config d total) c =
    if works
    then (
      record { status = 200; total_entries = total },
      record c { devices = update_rows (has_id id) (reconfigured d) c.devices },
    )
    else (record { status = 500; total_entries = 0 }, c)

unfoldable pub patch_body :
    Bool → ℕ → Option PatchRequest → DeviceTemplate → Catalog → Reply × Catalog
unfolding patch_row
patch_body works id none t c = (record { status = 400; total_entries = 0 }, c)
patch_body works id (some req) t c =
    patch_row works id
      (patch_config (protocol_array_key t.protocol) req req.sensor_config t.sensor_config) c

unfoldable pub patch_found :
    Bool → ℕ → Caller → Option PatchRequest → Option DeviceTemplate → Catalog → Reply × Catalog
unfolding patch_body
patch_found works id who req none c = (record { status = 404; total_entries = 0 }, c)
patch_found works id who req (some t) c =
    if may_edit who t
    then patch_body works id req t c
    else (record { status = 403; total_entries = 0 }, c)

-- `patchDeviceTemplateConfigHandler`
unfoldable pub patch_device_template :
    Bool → ℕ → Caller → Option PatchRequest → Catalog → Reply × Catalog
unfolding patch_found
patch_device_template works id who req c =
    patch_found works id who req (first_row (has_id id) c.devices) c
