-- ===== src/Templates/Tests.antt =====
-- Templates of two organisations.
use qube_enterprise_home.Prelude.{
  ℕ, ◌==◌, map, Option, List, ◌≡◌, refl, true, false, none, some, [], ◌∷◌,
}
use qube_enterprise_home.Prelude.Text.{Text, codes}
use qube_enterprise_home.Qubes.{first_row}
use qube_enterprise_home.Templates.{
  has_id, owns, may_edit, array, plain, Document, object, DeviceTemplate, ReaderTemplate, Catalog,
  Caller, DeviceRequest,
}
use qube_enterprise_home.Templates.Config.{
  protocol_array_key, entries, item, PatchRequest, patch_device_template,
}
use qube_enterprise_home.Templates.Removal.{
  may_delete, delete_device_template, create, patch, delete, serve, get_device_template,
  list_device_templates,
}
use qube_enterprise_home.Templates.Guards.{serve-stays}
use qube_enterprise_home.Templates.Actions.{IsActed, StaysElse, patch_device_template-edits}
use qube_enterprise_home.Templates.Detaching.{without_template, delete_device_template-detaches}
use qube_enterprise_home.Templates.Editing.{
  IsEdited, HasEntries, adding, deleting, patch_device_template-undone,
}

abbrev registers : Document
registers = object (
    ("registers", array (codes "voltage" ∷ codes "current" ∷ []))
    ∷ ("unit", plain (codes "3"))
    ∷ [])

abbrev meter : DeviceTemplate
meter = record {
  id = 1;
  org = some 7;
  protocol = "modbus_tcp";
  name = codes "PM5100";
  manufacturer = [];
  model = [];
  description = [];
  sensor_config = registers;
  sensor_params_schema = object [];
  reader_template = some 20;
  is_global = false;
  version = 1;
}

abbrev shared : DeviceTemplate
shared = record meter { id = 2; org = none; is_global = true; name = codes "UPS" }

abbrev modbus : ReaderTemplate
modbus = record {
  id = 20;
  protocol = "modbus_tcp";
  name = codes "Modbus";
  description = [];
  image_suffix = codes "modbus-reader";
  connection_schema = object [];
  env_defaults = object [];
  version = 1;
}

abbrev catalog : Catalog
catalog = record {
  devices = meter ∷ shared ∷ [];
  readers = modbus ∷ record modbus { id = 21; image_suffix = codes "modbus-fast" } ∷ [];
  sensors = record { id = 100; template = some 1 } ∷ record { id = 101; template = none } ∷ [];
}

abbrev engineer : Caller
engineer = record { org = 7; role = "editor" }

abbrev stranger : Caller
stranger = record { org = 8; role = "admin" }

abbrev request : DeviceRequest
request = record {
  name = codes "Meter";
  protocol = "snmp";
  manufacturer = [];
  model = [];
  description = [];
  sensor_config = none;
  sensor_params_schema = none;
  reader_template = none;
}

serve-stays_example :
    let after =
      serve
        ((stranger, create ("snmp" ∷ []) true 3 (some request))
          ∷ (stranger, delete true true 1)
          ∷ (stranger, patch true 2 (some (adding (codes "power"))))
          ∷ [])
        catalog in
    (list_device_templates (λ ts. ts) 7 "" after ≡ list_device_templates (λ ts. ts) 7 "" catalog)
    × (get_device_template 7 1 after ≡ get_device_template 7 1 catalog)
unfolding first_row
serve-stays_example =
    serve-stays 7
      ((stranger, create ("snmp" ∷ []) true 3 (some request))
        ∷ (stranger, delete true true 1)
        ∷ (stranger, patch true 2 (some (adding (codes "power"))))
        ∷ [])
      (λ ts. ts) "" 1 catalog ((refl, refl, (refl, refl, (refl, refl, tt)))) (refl, (refl, tt))

abbrev replacing : PatchRequest
replacing = record (adding (codes "power")) { action = "update" }

patch_device_template-edits_example :
    (result : Option (List Text)) × IsActed replacing
      (entries (protocol_array_key "modbus_tcp") registers)
      result
    × IsEdited 1 meter catalog result
        (patch_device_template true 1 engineer (some replacing) catalog)
    × StaysElse 1 catalog (patch_device_template true 1 engineer (some replacing) catalog).1
unfolding first_row may_edit owns
patch_device_template-edits_example =
    patch_device_template-edits 1 engineer replacing meter catalog refl refl refl

patch_device_template-undone_example :
    let with_entry =
      (patch_device_template true 1 engineer (some (adding (codes "power"))) catalog).1 in
    let after = (patch_device_template true 1 engineer (some (deleting 2)) with_entry).1 in
    (d : Document) × (first_row (has_id 1) after.devices
      ≡ some (record meter { sensor_config = d; version = 3 }))
    × HasEntries "registers" (codes "voltage" ∷ codes "current" ∷ []) registers d
unfolding first_row may_edit owns entries protocol_array_key item
patch_device_template-undone_example =
    patch_device_template-undone 1 engineer (codes "power") meter catalog refl refl

delete_device_template-detaches_example :
    let (status, after) = delete_device_template true true 1 engineer catalog in
    (status ≡ 200)
    × (first_row (has_id 1) after.devices ≡ none)
    × ((j : ℕ)
        → (j == 1) ≡ false
        → first_row (has_id j) after.devices ≡ first_row (has_id j) catalog.devices)
    × (after.sensors ≡ map (without_template 1) catalog.sensors)
    × (after.readers ≡ catalog.readers)
unfolding first_row may_delete owns
delete_device_template-detaches_example =
    delete_device_template-detaches 1 engineer meter catalog refl refl
