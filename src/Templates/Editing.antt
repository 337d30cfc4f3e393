-- ===== src/Templates/Editing.antt =====
-- The entries of a device template under `patchDeviceTemplateConfigHandler` (cloud/internal/api/templates.go).
use mathlib.Core.Path.{subst}
use qube_enterprise_home.Prelude.{
  ℕ, suc, ◌≡◌, refl, ◌∙◌, ap, inl, inr, true, false, Option, none, some, List, [], ◌∷◌, ◌++◌,
  String, if◌then◌else◌, str_eq, eq_iff, ltb, lt→ltb, length, length-append, ◌+◌, take, drop, arith,
  Bool-cases,
}
use qube_enterprise_home.Prelude.Int.{pos}
use qube_enterprise_home.Prelude.Text.{Text}
use qube_enterprise_home.Qubes.{first_row}
use qube_enterprise_home.Qubes.Tables.{first_row-update_self}
use qube_enterprise_home.Templates.{
  Item, array, Fields, Document, object, DeviceTemplate, Catalog, Caller, has_id, may_edit,
}
use qube_enterprise_home.Templates.Config.{
  protocol_array_key, item, put_item, to_map, entries, PatchRequest, edit, in_range, edited,
  patch_config, Reply, reconfigured, patch_row, patch_body, patch_found, patch_device_template,
}

item-put_item : (k : String) (v : Item) (fs : Fields) → item k (put_item k v fs) ≡ some v
unfolding item put_item
item-put_item k v [] = rw ((eq_iff k k).1 refl) refl
item-put_item k v ((j, w) ∷ fs) = elim (Bool-cases (str_eq j k)) [
  | inl hit ↦ rw (hit, (eq_iff k k).1 refl) refl
  | inr miss ↦ rw miss (rw miss (item-put_item k v fs))
]

item-put_other :
    (j k : String) (v : Item) (fs : Fields)
    → str_eq j k ≡ false
    → item k (put_item j v fs) ≡ item k fs
unfolding item put_item
item-put_other j k v [] h = rw h refl
item-put_other j k v ((l, w) ∷ fs) h = elim (Bool-cases (str_eq l j)) [
  | inl hit ↦ rw (hit, h) (rw ((eq_iff l j).0 hit, h) refl)
  | inr miss ↦ elim (Bool-cases (str_eq l k)) [
    | inl there ↦ rw (miss, there) refl
    | inr away ↦ rw (miss, away) (item-put_other j k v fs h)
  ]
]

item-put_item_all :
    (j k : String) (v : Item) (fs : Fields)
    → item k (put_item j v fs) ≡ (if str_eq j k then some v else item k fs)
item-put_item_all j k v fs = elim (Bool-cases (str_eq j k)) [
  | inl same ↦ rw same (rw ((eq_iff j k).0 same) (item-put_item k v fs))
  | inr other ↦ rw other (item-put_other j k v fs other)
]

-- A configuration with these entries in place of those of another, and nothing else changed.
unfoldable pub HasEntries : String → List Text → Document → Document → Type 0
HasEntries key es before d =
    (k : String)
    → item k (to_map d) ≡ (if str_eq key k then some (array es) else item k (to_map before))

-- What the reply and the catalog are, for the entries that an action gives.
unfoldable pub IsEdited :
    ℕ → DeviceTemplate → Catalog → Option (List Text) → Reply × Catalog → Type 0
IsEdited id t c none p = p ≡ (record { status = 400; total_entries = 0 }, c)
IsEdited id t c (some es) p =
    (p.0 ≡ record { status = 200; total_entries = length es })
    × ((d : Document) × (first_row (has_id id) p.1.devices ≡ some (reconfigured d t))
        × HasEntries (protocol_array_key t.protocol) es t.sensor_config d)

IsEdited-patch_row :
    (id : ℕ) (t : DeviceTemplate) (c : Catalog) (o : Option (List Text))
    → first_row (has_id id) c.devices ≡ some t
    → IsEdited id t c o
        (patch_row true id (edited (protocol_array_key t.protocol) (to_map t.sensor_config) o) c)
unfolding IsEdited patch_row edited HasEntries
IsEdited-patch_row id t c none h = refl
IsEdited-patch_row id t c (some es) h =
    let key = protocol_array_key t.protocol in
    let d = object (put_item key (array es) (to_map t.sensor_config)) in
    (
      refl,
      (
        d,
        first_row-update_self (has_id id) (reconfigured d) t c.devices (λ u. refl) h,
        (λ k. item-put_item_all key k (array es) (to_map t.sensor_config)),
      ),
    )

-- What a patch by a caller that may edit comes to, for what `edit` gives.
pub patch_device_template-IsEdited :
    (id : ℕ) (who : Caller) (req : PatchRequest) (t : DeviceTemplate) (c : Catalog)
    → first_row (has_id id) c.devices ≡ some t
    → may_edit who t ≡ true
    → req.sensor_config ≡ none
    → IsEdited id t c
        (edit req (entries (protocol_array_key t.protocol) t.sensor_config))
        (patch_device_template true id who (some req) c)
unfolding patch_device_template patch_found patch_body patch_config
patch_device_template-IsEdited id who req t c h may partial =
    rw (h, may, partial) (IsEdited-patch_row id t c _ h)

take-length : (es : List Text) (e : Text) → take (length es) (es ++ (e ∷ [])) ≡ es
take-length [] e = refl
take-length (f ∷ es) e = ap (λ l. f ∷ l) (take-length es e)

drop-length : (es : List Text) (e : Text) → drop (suc (length es)) (es ++ (e ∷ [])) ≡ []
drop-length [] e = refl
drop-length (f ∷ es) e = drop-length es e

append-empty : (es : List Text) → es ++ [] ≡ es
append-empty [] = refl
append-empty (e ∷ es) = ap (λ l. e ∷ l) (append-empty es)

abbrev pub adding : Text → PatchRequest
adding e = record { sensor_config = none; action = "add"; index = pos 0; entry = e }

abbrev pub deleting : ℕ → PatchRequest
deleting n = record { sensor_config = none; action = "delete"; index = pos n; entry = [] }

edit-delete_last :
    (es : List Text) (e : Text) → edit (deleting (length es)) (es ++ (e ∷ [])) ≡ some es
unfolding edit in_range
edit-delete_last es e =
    let inside : ltb (length es) (length (es ++ (e ∷ []))) ≡ true =
      lt→ltb _ _ (omega (arith, length-append es (e ∷ []))) in
    rw (inside, take-length es e, drop-length es e, append-empty es) refl

entries-HasEntries :
    (key : String) (es : List Text) (before d : Document)
    → HasEntries key es before d
    → entries key d ≡ es
unfolding HasEntries entries
entries-HasEntries key es before d h = rw (h key, (eq_iff key key).1 refl) refl

HasEntries-again :
    (key : String) (es fs : List Text) (before d e : Document)
    → HasEntries key es before d
    → HasEntries key fs d e
    → HasEntries key fs before e
unfolding HasEntries
HasEntries-again key es fs before d e h g k = elim (Bool-cases (str_eq key k)) [
  | inl same ↦ g k ∙ rw same refl
  | inr other ↦ g k ∙ rw other (h k ∙ rw other refl)
]

IsEdited-delete_last :
    (id : ℕ) (who : Caller) (es : List Text) (e : Text) (u : DeviceTemplate) (c : Catalog)
    → first_row (has_id id) c.devices ≡ some u
    → may_edit who u ≡ true
    → entries (protocol_array_key u.protocol) u.sensor_config ≡ es ++ (e ∷ [])
    → IsEdited id u c (some es) (patch_device_template true id who (some (deleting (length es))) c)
IsEdited-delete_last id who es e u c h may had =
    subst
      (λ o. IsEdited id u c o (patch_device_template true id who (some (deleting (length es))) c))
      (ap (edit (deleting (length es))) had ∙ edit-delete_last es e)
      (patch_device_template-IsEdited id who (deleting (length es)) u c h may refl)

-- An entry that is added and then deleted, as the last one, leaves the template with the entries that it had, every
-- other field of its configuration and every other column as before, two versions on. The caller may edit the
-- template, and the database works.
pub patch_device_template-undone :
    (id : ℕ) (who : Caller) (e : Text) (t : DeviceTemplate) (c : Catalog)
    → first_row (has_id id) c.devices ≡ some t
    → may_edit who t ≡ true
    → (let key = protocol_array_key t.protocol in
        let had = entries key t.sensor_config in
        let with_entry = (patch_device_template true id who (some (adding e)) c).1 in
        let after =
          (patch_device_template true id who (some (deleting (length had))) with_entry).1 in
        (d : Document) × (first_row (has_id id) after.devices
          ≡ some (record t { sensor_config = d; version = t.version + 2 }))
        × HasEntries key had t.sensor_config d)
unfolding may_edit IsEdited edit
patch_device_template-undone id who e t c h may =
    let key = protocol_array_key t.protocol in
    let had = entries key t.sensor_config in
    let added = patch_device_template-IsEdited id who (adding e) t c h may refl in
    let d = added.1.0 in
    let deleted =
      IsEdited-delete_last id who had e (reconfigured d t) _ added.1.1 may
        (entries-HasEntries key (had ++ (e ∷ [])) t.sensor_config d added.1.2) in
    (
      deleted.1.0,
      deleted.1.1
          ∙ ap (λ n. some (record t { sensor_config = deleted.1.0; version = n })) (omega arith),
      HasEntries-again key (had ++ (e ∷ [])) had t.sensor_config d deleted.1.0 added.1.2
          deleted.1.2,
    )
