-- ===== src/Templates/Detaching.antt =====
-- The sensors of a device template that is deleted (`deleteDeviceTemplateHandler`, cloud/internal/api/templates.go).
use qube_enterprise_home.Prelude.{
  ℕ, ◌≡◌, refl, ap, true, false, none, some, List, [], ◌∷◌, ◌==◌, map, if◌then◌else◌, arith,
}
use qube_enterprise_home.Qubes.{first_row, update_rows, delete_rows}
use qube_enterprise_home.Templates.{DeviceTemplate, Sensor, Catalog, Caller, has_id, is_found}
use qube_enterprise_home.Templates.Removal.{
  may_delete, number_is, made_from, detached, drop_row, delete_found, delete_device_template,
}

none_made :
    (id : ℕ) (ss : List Sensor)
    → is_found (first_row (made_from id) (update_rows (made_from id) detached ss)) ≡ false
unfolding first_row update_rows made_from number_is
none_made id [] = refl
none_made id (s ∷ ss) = ground (arith, none_made id ss)

first_row-gone :
    (id : ℕ) (ts : List DeviceTemplate) → first_row (has_id id) (delete_rows (has_id id) ts) ≡ none
unfolding first_row delete_rows
first_row-gone id [] = refl
first_row-gone id (t ∷ ts) = ground (arith, first_row-gone id ts)

first_row-kept :
    (id j : ℕ) (ts : List DeviceTemplate)
    → (j == id) ≡ false
    → first_row (has_id j) (delete_rows (has_id id) ts) ≡ first_row (has_id j) ts
unfolding first_row delete_rows
first_row-kept id j [] h = refl
first_row-kept id j (t ∷ ts) h = ground (arith, first_row-kept id j ts h)

-- A sensor without its template, if it is this one.
unfoldable pub without_template : ℕ → Sensor → Sensor
without_template id s = if number_is id s.template then record s { template = none } else s

update-without_template :
    (id : ℕ) (ss : List Sensor)
    → update_rows (made_from id) detached ss ≡ map (without_template id) ss
unfolding update_rows made_from without_template
update-without_template id [] = refl
update-without_template id (s ∷ ss) =
    ap (λ rest. without_template id s ∷ rest) (update-without_template id ss)

-- A caller that may delete a template that sensors refer to or not: if the statements work, the answer is 200, the
-- template is gone, its sensors stay, without a template, in their places, and all other templates, all other sensors
-- and the reader templates are as before.
pub delete_device_template-detaches :
    (id : ℕ) (who : Caller) (t : DeviceTemplate) (c : Catalog)
    → first_row (has_id id) c.devices ≡ some t
    → may_delete who t ≡ true
    → let (status, after) = delete_device_template true true id who c in
      (status ≡ 200)
      × (first_row (has_id id) after.devices ≡ none)
      × ((j : ℕ)
          → (j == id) ≡ false
          → first_row (has_id j) after.devices ≡ first_row (has_id j) c.devices)
      × (after.sensors ≡ map (without_template id) c.sensors)
      × (after.readers ≡ c.readers)
unfolding delete_device_template delete_found drop_row
delete_device_template-detaches id who t c found may =
    rw (found, may, none_made id c.sensors)
      (
        refl,
        first_row-gone id c.devices,
        λ j h. first_row-kept id j c.devices h,
        update-without_template id c.sensors,
        refl,
      )
