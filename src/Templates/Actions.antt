-- ===== src/Templates/Actions.antt =====
-- What the three actions of `patchDeviceTemplateConfigHandler` (cloud/internal/api/templates.go) do, told without `edit`.
use qube_enterprise_home.Prelude.{
  ℕ, zero, suc, ◌≡◌, ◌≤◌, refl, ap, ◌∙◌, ◌⊎◌, inl, inr, true, false, Option, none, some, List, [],
  ◌∷◌, ◌++◌, str_eq, eq_iff, ltb, length, set, take, drop, arith, Bool-cases, ◌==◌, if◌then◌else◌,
}
use qube_enterprise_home.Prelude.Int.{ℤ, pos, negsuc}
use qube_enterprise_home.Prelude.Text.{Text}
use qube_enterprise_home.Qubes.{first_row, update_rows}
use qube_enterprise_home.Templates.{DeviceTemplate, Catalog, Caller, has_id, may_edit}
use qube_enterprise_home.Templates.Config.{
  protocol_array_key, entries, PatchRequest, edit, in_range, offset, Patched, refused, config,
  reconfigured, patch_row, patch_body, patch_found, patch_device_template,
}
use qube_enterprise_home.Templates.Editing.{IsEdited, patch_device_template-IsEdited}

-- An index at which there is no entry.
abbrev pub IsOutside : ℤ → List Text → Type 0
IsOutside (pos n) es = length es ≤ n
IsOutside (negsuc n) es = Unit

-- An action on entries, and the entries behind it, or none where the request is refused.
pub data IsActed (req : PatchRequest) (had : List Text) : Option (List Text) → Type 0 where
  adds : req.action ≡ "add" → IsActed req had (some (had ++ (req.entry ∷ [])))
  updates :
      (before after : List Text) (old : Text)
      → req.action ≡ "update"
      → req.index ≡ pos (length before)
      → had ≡ before ++ (old ∷ after)
      → IsActed req had (some (before ++ (req.entry ∷ after)))
  deletes :
      (before after : List Text) (old : Text)
      → req.action ≡ "delete"
      → req.index ≡ pos (length before)
      → had ≡ before ++ (old ∷ after)
      → IsActed req had (some (before ++ after))
  misses :
      (req.action ≡ "update") ⊎ (req.action ≡ "delete")
      → IsOutside req.index had
      → IsActed req had none
  is_unknown :
      str_eq req.action "add" ≡ false
      → str_eq req.action "update" ≡ false
      → str_eq req.action "delete" ≡ false
      → IsActed req had none

-- The entries in front of an index, the one at it, and those behind it.
pub record IsSplit (n : ℕ) (e : Text) (es : List Text) : Type 0 where
  pub before : List Text
  pub after : List Text
  pub old : Text
  pub index : n ≡ length before
  pub parts : es ≡ before ++ (old ∷ after)
  pub updated : set es n e ≡ before ++ (e ∷ after)
  pub deleted : take n es ++ drop (suc n) es ≡ before ++ after

IsSplit-entries : (n : ℕ) (e : Text) (es : List Text) → ltb n (length es) ≡ true → IsSplit n e es
IsSplit-entries n e [] h = absurd (none_below n h)
  where
    none_below : (n : ℕ) → ltb n 0 ≡ true → ⊥
    none_below n h = ground arith
IsSplit-entries zero e (f ∷ es) h = record {
  before = [];
  after = es;
  old = f;
  index = refl;
  parts = refl;
  updated = refl;
  deleted = refl;
}
IsSplit-entries (suc n) e (f ∷ es) h =
    let s = IsSplit-entries n e es (ground arith) in
    record {
      before = f ∷ s.before;
      after = s.after;
      old = s.old;
      index = ap suc s.index;
      parts = ap (λ l. f ∷ l) s.parts;
      updated = ap (λ l. f ∷ l) s.updated;
      deleted = ap (λ l. f ∷ l) s.deleted;
    }

update_at :
    (req : PatchRequest) (had : List Text) (i : ℤ)
    → req.action ≡ "update"
    → req.index ≡ i
    → IsActed req had (if in_range i had then some (set had (offset i) req.entry) else none)
unfolding in_range
update_at req had (pos n) a e = elim (Bool-cases (ltb n (length had))) [
  | inl inside ↦
      let s = IsSplit-entries n req.entry had inside in
      rw inside (rw s.updated (updates s.before s.after s.old a (e ∙ ap pos s.index) s.parts))
  | inr outside ↦ rw outside (misses (inl a) (rw e (ground (arith, outside))))
]
update_at req had (negsuc n) a e = misses (inl a) (rw e tt)

delete_at :
    (req : PatchRequest) (had : List Text) (i : ℤ)
    → req.action ≡ "delete"
    → req.index ≡ i
    → IsActed req had
        (if in_range i had then some (take (offset i) had ++ drop (suc (offset i)) had) else none)
unfolding in_range
delete_at req had (pos n) a e = elim (Bool-cases (ltb n (length had))) [
  | inl inside ↦
      let s = IsSplit-entries n req.entry had inside in
      rw inside (rw s.deleted (deletes s.before s.after s.old a (e ∙ ap pos s.index) s.parts))
  | inr outside ↦ rw outside (misses (inr a) (rw e (ground (arith, outside))))
]
delete_at req had (negsuc n) a e = misses (inr a) (rw e tt)

IsActed-edit : (req : PatchRequest) (had : List Text) → IsActed req had (edit req had)
unfolding edit
IsActed-edit req had = elim (Bool-cases (str_eq req.action "add")) [
  | inl add ↦ rw add (adds ((eq_iff req.action "add").0 add))
  | inr not_add ↦ elim (Bool-cases (str_eq req.action "update")) [
    | inl update ↦
        rw (not_add, update)
          (update_at req had req.index ((eq_iff req.action "update").0 update) refl)
    | inr not_update ↦ elim (Bool-cases (str_eq req.action "delete")) [
      | inl delete ↦
          rw (not_add, not_update, delete)
            (delete_at req had req.index ((eq_iff req.action "delete").0 delete) refl)
      | inr not_delete ↦
          rw (not_add, not_update, not_delete) (is_unknown not_add not_update not_delete)
    ]
  ]
]

first_row-update_other :
    (id j : ℕ) (f : DeviceTemplate → DeviceTemplate) (ts : List DeviceTemplate)
    → ((t : DeviceTemplate) → (f t).id ≡ t.id)
    → (j == id) ≡ false
    → first_row (has_id j) (update_rows (has_id id) f ts) ≡ first_row (has_id j) ts
unfolding first_row update_rows
first_row-update_other id j f [] k h = refl
first_row-update_other id j f (t ∷ ts) k h =
    ground (arith, k t, first_row-update_other id j f ts k h)

-- All other templates, the reader templates and the sensors are as before.
unfoldable pub StaysElse : ℕ → Catalog → Catalog → Type 0
StaysElse id c d =
    ((j : ℕ) → (j == id) ≡ false → first_row (has_id j) d.devices ≡ first_row (has_id j) c.devices)
    × (d.readers ≡ c.readers)
    × (d.sensors ≡ c.sensors)

StaysElse-patch_row :
    (id : ℕ) (p : Patched) (c : Catalog) → StaysElse id c (patch_row true id p c).1
unfolding StaysElse patch_row
StaysElse-patch_row id (refused status) c = (λ j h. refl, refl, refl)
StaysElse-patch_row id (config d total) c =
    (λ j h. first_row-update_other id j (reconfigured d) c.devices (λ t. refl) h, refl, refl)

-- A patch by a caller that may edit the template acts on one entry of the array of its protocol: "add" puts it behind
-- the others, "update" and "delete" replace and remove the one at the index. Then the reply has the number of entries
-- that there are, and the template has these entries, the other fields of its configuration and its other columns as
-- before, but for the version, which is one more. An index out of range and an unknown action are answered with 400 and
-- change nothing. All other rows are as before either way, if the database works and the request has no whole
-- configuration.
pub patch_device_template-edits :
    (id : ℕ) (who : Caller) (req : PatchRequest) (t : DeviceTemplate) (c : Catalog)
    → first_row (has_id id) c.devices ≡ some t
    → may_edit who t ≡ true
    → req.sensor_config ≡ none
    → (result : Option (List Text)) × IsActed req
        (entries (protocol_array_key t.protocol) t.sensor_config)
        result
      × IsEdited id t c result (patch_device_template true id who (some req) c)
      × StaysElse id c (patch_device_template true id who (some req) c).1
unfolding patch_device_template patch_found patch_body
patch_device_template-edits id who req t c h may partial = (
  edit req (entries (protocol_array_key t.protocol) t.sensor_config),
  IsActed-edit req (entries (protocol_array_key t.protocol) t.sensor_config),
  patch_device_template-IsEdited id who req t c h may partial,
  rw (h, may) (StaysElse-patch_row id _ c),
)
