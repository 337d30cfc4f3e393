-- ===== src/Templates/Guards.antt =====
-- Organisations and the device templates of others (cloud/internal/api/templates.go).
use qube_enterprise_home.Prelude.{
  ℕ, ◌≡◌, refl, inl, inr, Bool, true, false, Option, none, some, List, [], ◌∷◌, ◌++◌, ◌==◌, String,
  str_eq, if◌then◌else◌, arith, Bool-cases, ◌∙◌,
}
use qube_enterprise_home.Qubes.{first_row, rows, update_rows}
use qube_enterprise_home.Templates.{
  DeviceTemplate, Catalog, Caller, has_id, is_found, is_superadmin, owns, may_edit, DeviceRequest,
  create_device_template, update_device_template, rewritten, insert_row, created, update_row,
  update_found,
}
use qube_enterprise_home.Templates.Config.{
  PatchRequest, patch_device_template, patch_body, patch_row, patch_found, Patched, refused, config,
  reconfigured,
}
use qube_enterprise_home.Templates.Removal.{
  may_delete, number_is, is_visible, delete_device_template, drop_row, delete_found, detach,
  get_device_template, list_device_templates, Request, create, update, patch, delete, handle, serve,
}
use qube_enterprise_home.Templates.Keyed.{
  AreKeyed, AreKeyed-update, AreKeyed-delete, AreKeyed-append,
}
use qube_enterprise_home.Templates.Views.{
  rows-update_unseen, rows-delete_unseen, rows-append_unseen, rows-and, first_row-seen,
}

-- The callers are no superadmins and of other organisations.
abbrev pub AreOthers : ℕ → List (Caller × Request) → Type 0
AreOthers org [] = Unit
AreOthers org ((who, r) ∷ rest) =
    ((who.org == org) ≡ false) × (is_superadmin who ≡ false) × AreOthers org rest

owns-hidden :
    (org : ℕ) (who : Caller) (o : Option ℕ)
    → (who.org == org) ≡ false
    → owns who o ≡ true
    → number_is org o ≡ false
unfolding owns number_is
owns-hidden org who none h k = refl
owns-hidden org who (some m) h k = ground arith

may_edit-hidden :
    (org : ℕ) (who : Caller) (t : DeviceTemplate)
    → (who.org == org) ≡ false
    → is_superadmin who ≡ false
    → may_edit who t ≡ true
    → is_visible org t ≡ false
unfolding may_edit is_visible
may_edit-hidden org who t h plain k = ground (arith, owns-hidden org who t.org h)

may_delete-hidden :
    (org : ℕ) (who : Caller) (t : DeviceTemplate)
    → (who.org == org) ≡ false
    → is_superadmin who ≡ false
    → may_delete who t ≡ true
    → is_visible org t ≡ false
unfolding may_delete is_visible
may_delete-hidden org who t h plain k = ground (arith, owns-hidden org who t.org h)

-- What an organisation has of a table, and that the rows of the table have different ids.
Stays : ℕ → List DeviceTemplate → List DeviceTemplate → Type 0
Stays org ts us = (rows (is_visible org) us ≡ rows (is_visible org) ts) × AreKeyed us

Stays-if {ℓ} :
    {A : Type ℓ} (org : ℕ) (b : Bool) (ts : List DeviceTemplate) (x y : A × Catalog)
    → Stays org ts x.1.devices
    → Stays org ts y.1.devices
    → Stays org ts (if b then x else y).1.devices
Stays-if org true ts x y h k = h
Stays-if org false ts x y h k = k

Stays-change :
    (org id : ℕ) (f : DeviceTemplate → DeviceTemplate) (t : DeviceTemplate) (c : Catalog)
    → ((u : DeviceTemplate) → (f u).id ≡ u.id)
    → ((u : DeviceTemplate) → is_visible org (f u) ≡ is_visible org u)
    → AreKeyed c.devices
    → first_row (has_id id) c.devices ≡ some t
    → is_visible org t ≡ false
    → Stays org c.devices (update_rows (has_id id) f c.devices)
unfolding Stays
Stays-change org id f t c k v d h n = (
  rows-update_unseen (is_visible org) id f t c.devices v d h n,
  AreKeyed-update id f c.devices k d,
)

Stays-update_row :
    (org : ℕ) (works : Bool) (id : ℕ) (req : Option DeviceRequest) (t : DeviceTemplate)
    (c : Catalog)
    → AreKeyed c.devices
    → first_row (has_id id) c.devices ≡ some t
    → is_visible org t ≡ false
    → Stays org c.devices (update_row works id req t c).1.devices
unfolding Stays update_row is_visible
Stays-update_row org works id none t c d h n = (refl, d)
Stays-update_row org works id (some req) t c d h n =
    Stays-if org _ c.devices (500, c) _ (refl, d)
      (Stays-change org id (rewritten req) t c (λ u. refl) (λ u. refl) d h n)

Stays-patch_row :
    (org : ℕ) (works : Bool) (id : ℕ) (p : Patched) (t : DeviceTemplate) (c : Catalog)
    → AreKeyed c.devices
    → first_row (has_id id) c.devices ≡ some t
    → is_visible org t ≡ false
    → Stays org c.devices (patch_row works id p c).1.devices
unfolding Stays patch_row is_visible
Stays-patch_row org works id (refused status) t c d h n = (refl, d)
Stays-patch_row org works id (config doc total) t c d h n =
    Stays-if org works c.devices _ _
      (Stays-change org id (reconfigured doc) t c (λ u. refl) (λ u. refl) d h n) (refl, d)

Stays-patch_body :
    (org : ℕ) (works : Bool) (id : ℕ) (req : Option PatchRequest) (t : DeviceTemplate) (c : Catalog)
    → AreKeyed c.devices
    → first_row (has_id id) c.devices ≡ some t
    → is_visible org t ≡ false
    → Stays org c.devices (patch_body works id req t c).1.devices
unfolding Stays patch_body
Stays-patch_body org works id none t c d h n = (refl, d)
Stays-patch_body org works id (some req) t c d h n = Stays-patch_row org works id _ t c d h n

Stays-drop_row :
    (org : ℕ) (works : Bool) (id : ℕ) (t : DeviceTemplate) (c : Catalog)
    → AreKeyed c.devices
    → first_row (has_id id) c.devices ≡ some t
    → is_visible org t ≡ false
    → Stays org c.devices (drop_row works id c).1.devices
unfolding Stays drop_row
Stays-drop_row org works id t c d h n =
    Stays-if org _ c.devices (500, c) _ (refl, d)
      (rows-delete_unseen (is_visible org) id t c.devices d h n, AreKeyed-delete id c.devices d)

module _ (org : ℕ) (who : Caller) (other : (who.org == org) ≡ false)
    (plain : is_superadmin who ≡ false) where
  Stays-update_found :
      (works : Bool) (id : ℕ) (req : Option DeviceRequest) (o : Option DeviceTemplate) (c : Catalog)
      → AreKeyed c.devices
      → first_row (has_id id) c.devices ≡ o
      → Stays org c.devices (update_found works id who req o c).1.devices
  unfolding Stays update_found
  Stays-update_found works id req none c d found = (refl, d)
  Stays-update_found works id req (some t) c d found = elim (Bool-cases (may_edit who t)) [
    | inl may ↦
        rw may (
          Stays-update_row org works id req t c d found (may_edit-hidden org who t other plain may))
    | inr cannot ↦ rw cannot (refl, d)
  ]

  Stays-patch_found :
      (works : Bool) (id : ℕ) (req : Option PatchRequest) (o : Option DeviceTemplate) (c : Catalog)
      → AreKeyed c.devices
      → first_row (has_id id) c.devices ≡ o
      → Stays org c.devices (patch_found works id who req o c).1.devices
  unfolding Stays patch_found
  Stays-patch_found works id req none c d found = (refl, d)
  Stays-patch_found works id req (some t) c d found = elim (Bool-cases (may_edit who t)) [
    | inl may ↦
        rw may (
          Stays-patch_body org works id req t c d found (may_edit-hidden org who t other plain may))
    | inr cannot ↦ rw cannot (refl, d)
  ]

  Stays-delete_found :
      (detaches works : Bool) (id : ℕ) (o : Option DeviceTemplate) (c : Catalog)
      → AreKeyed c.devices
      → first_row (has_id id) c.devices ≡ o
      → Stays org c.devices (delete_found detaches works id who o c).1.devices
  unfolding Stays delete_found
  Stays-delete_found detaches works id none c d found = (refl, d)
  Stays-delete_found detaches works id (some t) c d found = elim (Bool-cases (may_delete who t)) [
    | inl may ↦ rw may (
        Stays-drop_row org works id t (detach detaches id c) d found
          (may_delete-hidden org who t other plain may))
    | inr cannot ↦ rw cannot (refl, d)
  ]

  Stays-append :
      (t : DeviceTemplate) (c : Catalog)
      → AreKeyed c.devices
      → is_visible org t ≡ false
      → is_found (first_row (has_id t.id) c.devices) ≡ false
      → Stays org c.devices (c.devices ++ (t ∷ []))
  unfolding Stays
  Stays-append t c d h n = (
    rows-append_unseen (is_visible org) t c.devices h,
    AreKeyed-append t c.devices (ground (arith, n)) d,
  )

  Stays-insert_row :
      (works : Bool) (t : DeviceTemplate) (c : Catalog)
      → AreKeyed c.devices
      → is_visible org t ≡ false
      → Stays org c.devices (insert_row works t c).1.devices
  unfolding Stays insert_row
  Stays-insert_row false t c d h = (refl, d)
  Stays-insert_row true t c d h = elim (Bool-cases (is_found (first_row (has_id t.id) c.devices))) [
    | inl taken ↦ rw taken (refl, d)
    | inr new ↦ rw new (Stays-if org _ c.devices (500, c) _ (refl, d) (Stays-append t c d h new))
  ]

  Stays-create_device_template :
      (protocols : List String) (works : Bool) (id : ℕ) (req : Option DeviceRequest) (c : Catalog)
      → AreKeyed c.devices
      → Stays org c.devices (create_device_template protocols works id who req c).1.devices
  unfolding Stays create_device_template is_visible number_is
  Stays-create_device_template protocols works id none c d = (refl, d)
  Stays-create_device_template protocols works id (some req) c d =
      Stays-if {A = ℕ} org _ c.devices (400, c) _ (refl, d)
        (Stays-insert_row works (created id who req) c d (rw (plain, other) refl))

  Stays-handle :
      (r : Request) (c : Catalog)
      → AreKeyed c.devices
      → Stays org c.devices (handle who r c).devices
  unfolding handle update_device_template patch_device_template delete_device_template
  Stays-handle (create protocols works id req) c d =
      Stays-create_device_template protocols works id req c d
  Stays-handle (update works id req) c d = Stays-update_found works id req _ c d refl
  Stays-handle (patch works id req) c d = Stays-patch_found works id req _ c d refl
  Stays-handle (delete detaches works id) c d = Stays-delete_found detaches works id _ c d refl

Stays-serve :
    (org : ℕ) (rs : List (Caller × Request)) (c : Catalog)
    → AreOthers org rs
    → AreKeyed c.devices
    → Stays org c.devices (serve rs c).devices
unfolding serve Stays
Stays-serve org [] c o d = (refl, d)
Stays-serve org ((who, r) ∷ rest) c (other, plain, o) d =
    let step = Stays-handle org who other plain r c d in
    let then_on = Stays-serve org rest (handle who r c) o step.1 in (then_on.0 ∙ step.0, then_on.1)

-- Whatever callers of other organisations, none of them a superadmin, ask for behind one another, to create, rewrite,
-- patch or delete device templates, and whether the database works or not: the templates that an organisation can
-- list, by any protocol, and get are the same as before, if no two templates of the table have one id.
pub serve-stays :
    (org : ℕ) (rs : List (Caller × Request)) (sort : List DeviceTemplate → List DeviceTemplate)
    (protocol : String) (id : ℕ) (c : Catalog)
    → AreOthers org rs
    → AreKeyed c.devices
    → (list_device_templates sort org protocol (serve rs c)
        ≡ list_device_templates sort org protocol c)
      × (get_device_template org id (serve rs c) ≡ get_device_template org id c)
unfolding list_device_templates get_device_template Stays
serve-stays org rs sort protocol id c o d =
    let same : rows (is_visible org) (serve rs c).devices ≡ rows (is_visible org) c.devices =
      (Stays-serve org rs c o d).0 in
    (
      rw
          (
            rows-and (is_visible org) (λ t. str_eq t.protocol protocol) (serve rs c).devices,
            rows-and (is_visible org) (λ t. str_eq t.protocol protocol) c.devices,
            same,
          )
          refl,
      rw
          (
            first_row-seen (is_visible org) (has_id id) (serve rs c).devices,
            first_row-seen (is_visible org) (has_id id) c.devices,
            same,
          )
          refl,
    )
