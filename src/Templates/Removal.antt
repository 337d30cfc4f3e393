-- ===== src/Templates/Removal.antt =====
-- Removing device templates, and the two handlers that read them (cloud/internal/api/templates.go).
use qube_enterprise_home.Prelude.{
  ℕ, Bool, false, not, ◌&&◌, ◌||◌, Option, none, some, List, [], ◌∷◌, String, ◌==◌, if◌then◌else◌,
  str_eq,
}
use qube_enterprise_home.Qubes.{first_row, rows, update_rows, delete_rows}
use qube_enterprise_home.Templates.{
  DeviceTemplate, Sensor, Catalog, Caller, has_id, owns, is_found, is_superadmin, DeviceRequest,
  create_device_template, update_device_template,
}
use qube_enterprise_home.Templates.Config.{PatchRequest, patch_device_template}

-- The check of `deleteDeviceTemplateHandler`.
unfoldable pub may_delete : Caller → DeviceTemplate → Bool
may_delete who t = if t.is_global then is_superadmin who else owns who t.org

unfoldable pub number_is : ℕ → Option ℕ → Bool
number_is n none = false
number_is n (some m) = m == n

unfoldable pub made_from : ℕ → Sensor → Bool
unfolding number_is
made_from id s = number_is id s.template

abbrev pub detached : Sensor → Sensor
detached s = record s { template = none }

abbrev pub detach : Bool → ℕ → Catalog → Catalog
detach detaches id c = record c {
  sensors = if detaches then update_rows (made_from id) detached c.sensors else c.sensors;
}

-- The deletion, which the reference of a sensor is against.
unfoldable pub drop_row : Bool → ℕ → Catalog → ℕ × Catalog
drop_row works id c =
    if not works || is_found (first_row (made_from id) c.sensors)
    then (500, c)
    else (200, record c { devices = delete_rows (has_id id) c.devices })

unfoldable pub delete_found :
    Bool → Bool → ℕ → Caller → Option DeviceTemplate → Catalog → ℕ × Catalog
delete_found detaches works id who none c = (404, c)
delete_found detaches works id who (some t) c =
    if may_delete who t then drop_row works id (detach detaches id c) else (403, c)

-- `deleteDeviceTemplateHandler`; `detaches` is whether its first statement works, which it does not look at.
unfoldable pub delete_device_template : Bool → Bool → ℕ → Caller → Catalog → ℕ × Catalog
unfolding delete_found
delete_device_template detaches works id who c =
    delete_found detaches works id who (first_row (has_id id) c.devices) c

unfoldable pub is_visible : ℕ → DeviceTemplate → Bool
unfolding number_is
is_visible org t = t.is_global || number_is org t.org

-- `getDeviceTemplateHandler`: the template, or 404.
unfoldable pub get_device_template : ℕ → ℕ → Catalog → Option DeviceTemplate
get_device_template org id c = first_row (λ t. t.id == id && is_visible org t) c.devices

-- `listDeviceTemplatesHandler`, with `sort` for ORDER BY.
unfoldable pub list_device_templates :
    (List DeviceTemplate → List DeviceTemplate) → ℕ → String → Catalog → List DeviceTemplate
list_device_templates sort org protocol c =
    if str_eq protocol ""
    then sort (rows (is_visible org) c.devices)
    else sort (rows (λ t. is_visible org t && str_eq t.protocol protocol) c.devices)

-- A request on device templates that changes something, with what the database does.
pub data Request : Type 0 where
  create : List String → Bool → ℕ → Option DeviceRequest → Request
  update : Bool → ℕ → Option DeviceRequest → Request
  patch : Bool → ℕ → Option PatchRequest → Request
  delete : Bool → Bool → ℕ → Request

unfoldable pub handle : Caller → Request → Catalog → Catalog
handle who (create protocols works id req) c =
    (create_device_template protocols works id who req c).1
handle who (update works id req) c = (update_device_template works id who req c).1
handle who (patch works id req) c = (patch_device_template works id who req c).1
handle who (delete detaches works id) c = (delete_device_template detaches works id who c).1

-- Requests of one caller and another, one behind another.
unfoldable pub serve : List (Caller × Request) → Catalog → Catalog
serve [] c = c
serve ((who, r) ∷ rest) c = serve rest (handle who r c)
