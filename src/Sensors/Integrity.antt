-- ===== src/Sensors/Integrity.antt =====
-- The readers of the sensors under all requests (cloud/internal/api/sensors.go and readers.go).
use qube_enterprise_home.Prelude.{
  ℕ, ◌≡◌, refl, inl, inr, Bool, true, false, not, ◌||◌, Option, none, some, List, [], ◌∷◌, ◌++◌,
  ◌==◌, if◌then◌else◌, Bool-cases,
}
use qube_enterprise_home.Prelude.Text.{Text, text_eq}
use qube_enterprise_home.Qubes.{first_row, update_rows, delete_rows}
use qube_enterprise_home.Qubes.Tables.{rows-delete_rows}
use qube_enterprise_home.Registry.{Config}
use qube_enterprise_home.Sensors.{
  Object, or_empty, Reader, Sensor, Container, Mapping, Tables, create_auto_reader, find_reader,
  find_or_create_reader, look_up, reuse, same_name, has_row, reader_name, serves, is_none,
  endpoint_fingerprint,
}
use qube_enterprise_home.Sensors.Deleting.{
  AllRead, delete_sensor, delete_sensor-AllRead, AllRead-delete_rows, AllRead-delete_reader,
}
use qube_enterprise_home.Sensors.Rows.{
  is_reader, is_reader-new, is_reader-found, AllRead-append_reader, AllRead-append_sensor,
  AllRead-update_readers, AllRead-update_sensors,
}
use qube_enterprise_home.Sensors.Requests.{
  Template, SensorRequest, Connection, Setup, new_sensor, auto_create_telemetry_mapping,
  insert_sensor, with_template, choose_config, create_under, insert_resolved, resolve_and_insert,
  smart_with, find_template,
}
use qube_enterprise_home.Sensors.Changing.{
  ReaderUpdate, SensorUpdate, updated_reader, updated_sensor, drop_reader,
}

-- Every sensor of the tables has its reader.
unfoldable pub IsWhole : Tables → Type 0
IsWhole t = AllRead t.sensors t.readers

pub IsWhole-if {ℓ} :
    {A : Type ℓ} (b : Bool) (x y : A × Tables)
    → IsWhole x.1
    → IsWhole y.1
    → IsWhole (if b then x else y).1
IsWhole-if true x y h k = h
IsWhole-if false x y h k = k

IsWhole-choose : (b : Bool) (x y : Tables) → IsWhole x → IsWhole y → IsWhole (if b then x else y)
IsWhole-choose true x y h k = h
IsWhole-choose false x y h k = k

IsWhole-add_sensor :
    (s : Sensor) (t : Tables)
    → IsWhole t
    → is_reader s.reader t.readers ≡ true
    → IsWhole (record t { sensors = t.sensors ++ (s ∷ []) })
unfolding IsWhole
IsWhole-add_sensor s t h k = AllRead-append_sensor s t.sensors t.readers h k

IsWhole-mappings :
    (ms : List Mapping) (t : Tables) → IsWhole t → IsWhole (record t { mappings = ms })
unfolding IsWhole
IsWhole-mappings ms t h = h

IsWhole-mapping :
    (works : Bool) (qube sensor : ℕ) (name : Text) (t : Tables)
    → IsWhole t
    → IsWhole (auto_create_telemetry_mapping works qube sensor name t)
unfolding auto_create_telemetry_mapping
IsWhole-mapping works qube sensor name t h = IsWhole-choose _ t _ h (IsWhole-mappings _ t h)

IsWhole-insert_sensor :
    (works maps : Bool) (id qube reader : ℕ) (config : Option Object) (req : SensorRequest)
    (t : Tables)
    → IsWhole t
    → is_reader reader t.readers ≡ true
    → IsWhole (insert_sensor works maps id qube reader config req t).1
unfolding insert_sensor
IsWhole-insert_sensor works maps id qube reader config req t h k =
    IsWhole-if {A = ℕ} _ (500, t) _ h
      (IsWhole-mapping maps qube id req.name _
        (IsWhole-add_sensor (new_sensor id reader config req) t h k))

IsWhole-with_template :
    (works maps : Bool) (id : ℕ) (r : Reader) (req : SensorRequest) (tmpl : Option Template)
    (t : Tables)
    → IsWhole t
    → is_reader r.id t.readers ≡ true
    → IsWhole (with_template works maps id r req tmpl t).1
unfolding with_template
IsWhole-with_template works maps id r req none t h k = h
IsWhole-with_template works maps id r req (some tmpl) t h k =
    IsWhole-if {A = ℕ} _ _ (400, t) (IsWhole-insert_sensor works maps id r.qube r.id _ req t h k) h

IsWhole-choose_config :
    (works maps : Bool) (templates : List Template) (id org : ℕ) (r : Reader) (req : SensorRequest)
    (tmpl : Option ℕ) (t : Tables)
    → IsWhole t
    → is_reader r.id t.readers ≡ true
    → IsWhole (choose_config works maps templates id org r req tmpl t).1
unfolding choose_config
IsWhole-choose_config works maps templates id org r req none t h k =
    IsWhole-insert_sensor works maps id r.qube r.id _ req t h k
IsWhole-choose_config works maps templates id org r req (some tmpl) t h k =
    IsWhole-with_template works maps id r req (find_template org tmpl templates) t h k

module _ (org_of : ℕ → Option ℕ) (works maps : Bool) (templates : List Template) (id org : ℕ) where
  pub IsWhole-create_under :
      (req : Option SensorRequest) (r : Option Reader) (p : Reader → Bool) (t : Tables)
      → IsWhole t
      → first_row p t.readers ≡ r
      → IsWhole (create_under org_of works maps templates id org req r t).1
  unfolding create_under
  IsWhole-create_under req none p t h k = h
  IsWhole-create_under none (some r) p t h k = IsWhole-if {A = ℕ} _ (400, t) (404, t) h h
  IsWhole-create_under (some req) (some r) p t h k =
      IsWhole-if {A = ℕ} _ (404, t) _ h
        (IsWhole-if {A = ℕ} _ (400, t) _ h
          (IsWhole-choose_config works maps templates id org r req req.template t h
            (is_reader-found p r t.readers k)))

-- A reader that is given is in the tables that come with it, and these are whole.
unfoldable pub IsResolved : Option ℕ × Tables → Type 0
IsResolved (none, t) = IsWhole t
IsResolved (some id, t) = IsWhole t × (is_reader id t.readers ≡ true)

IsResolved-create_auto_reader :
    (registry : Config) (works : Bool) (suffix : Text) (id qube : ℕ) (protocol name : Text)
    (cfg : Object) (t : Tables)
    → IsWhole t
    → IsResolved (create_auto_reader registry works suffix id qube protocol name cfg t)
unfolding create_auto_reader IsResolved IsWhole
IsResolved-create_auto_reader registry works suffix id qube protocol name cfg t h =
    elim (Bool-cases (
      not works
      || has_row (first_row (same_name qube protocol (reader_name protocol name)) t.readers))) [
        | inl failed ↦ rw failed h
        | inr made ↦
            rw made (AllRead-append_reader t.sensors _ t.readers h, is_reader-new _ t.readers)
      ]

IsResolved-reuse :
    (made : Option ℕ × Tables) (found : Option Reader) (t : Tables)
    → IsWhole t
    → IsResolved made
    → ((r : Reader) → found ≡ some r → is_reader r.id t.readers ≡ true)
    → IsResolved (reuse found made t)
unfolding reuse IsResolved
IsResolved-reuse made none t h g k = g
IsResolved-reuse made (some r) t h g k = (h, k r refl)

find_reader-IsReader :
    (multi : Bool) (qube : ℕ) (protocol : Text) (cfg : Object) (r : Reader) (rs : List Reader)
    → find_reader multi qube protocol cfg rs ≡ some r
    → is_reader r.id rs ≡ true
unfolding find_reader
find_reader-IsReader true qube protocol cfg r rs h = is_reader-found (serves qube protocol) r rs h
find_reader-IsReader false qube protocol cfg r rs h =
    elim (Bool-cases (is_none cfg || text_eq (endpoint_fingerprint protocol cfg) [])) [
      | inl unknown ↦ cc (rw unknown at h)
      | inr known ↦ is_reader-found _ r rs (rw known at h)
    ]

look_up-found :
    (reads : Bool) (o : Option Reader) (r : Reader) → look_up reads o ≡ some r → o ≡ some r
look_up-found true o r h = h
look_up-found false o r h = cc

IsResolved-find_or_create_reader :
    (registry : Config) (works reads : Bool) (suffix : Text) (id : ℕ) (multi : Bool) (qube : ℕ)
    (protocol name : Text) (cfg : Object) (t : Tables)
    → IsWhole t
    → IsResolved
        (find_or_create_reader registry works reads suffix id multi qube protocol name cfg t)
unfolding find_or_create_reader
IsResolved-find_or_create_reader registry works reads suffix id multi qube protocol name cfg t h =
    IsResolved-reuse _ (look_up reads (find_reader multi qube protocol cfg t.readers)) t h
      (IsResolved-create_auto_reader registry works suffix id qube protocol name _ t h)
      (λ r found.
        find_reader-IsReader multi qube protocol cfg r t.readers (look_up-found reads _ r found))

IsWhole-insert_resolved :
    (works maps : Bool) (id qube : ℕ) (tmpl : Template) (req : SensorRequest)
    (made : Option ℕ × Tables)
    → IsResolved made
    → IsWhole (insert_resolved works maps id qube tmpl req made).1
unfolding insert_resolved IsResolved
IsWhole-insert_resolved works maps id qube tmpl req (none, t) h = h
IsWhole-insert_resolved works maps id qube tmpl req (some reader, t) (h, k) =
    IsWhole-insert_sensor works maps id qube reader _ req t h k

IsWhole-resolve_and_insert :
    (setup : Setup) (works maps : Bool) (next id qube : ℕ) (req : SensorRequest) (conn : Connection)
    (tmpl : Option Template) (t : Tables)
    → IsWhole t
    → IsWhole (resolve_and_insert setup works maps next id qube req conn tmpl t).1
unfolding resolve_and_insert
IsWhole-resolve_and_insert setup works maps next id qube req conn none t h = h
IsWhole-resolve_and_insert setup works maps next id qube req conn (some tmpl) t h =
    IsWhole-insert_resolved works maps id qube tmpl req _ (
      IsResolved-find_or_create_reader setup.registry setup.creates setup.reads
        (setup.suffix tmpl.id) next (setup.is_multi_target tmpl.protocol) qube tmpl.protocol
        conn.reader_name (or_empty conn.reader_config) t h)

pub IsWhole-smart_with :
    (setup : Setup) (works maps : Bool) (templates : List Template) (next id org qube : ℕ)
    (req : SensorRequest) (conn : Connection) (tmpl : Option ℕ) (t : Tables)
    → IsWhole t
    → IsWhole (smart_with setup works maps templates next id org qube req conn tmpl t).1
unfolding smart_with
IsWhole-smart_with setup works maps templates next id org qube req conn none t h = h
IsWhole-smart_with setup works maps templates next id org qube req conn (some tmpl) t h =
    IsWhole-resolve_and_insert setup works maps next id qube req conn _ t h

pub IsWhole-add_reader :
    (r : Reader) (cs : List Container) (t : Tables)
    → IsWhole t
    → IsWhole (record t { readers = t.readers ++ (r ∷ []); containers = cs })
unfolding IsWhole
IsWhole-add_reader r cs t h = AllRead-append_reader t.sensors r t.readers h

pub IsWhole-set_reader :
    (id : ℕ) (u : ReaderUpdate) (t : Tables)
    → IsWhole t
    → IsWhole (record t { readers = update_rows (λ r. r.id == id) (updated_reader u) t.readers })
unfolding IsWhole
IsWhole-set_reader id u t h =
    AllRead-update_readers id (updated_reader u) t.sensors t.readers (λ r. refl) h

pub IsWhole-set_sensor :
    (id : ℕ) (u : SensorUpdate) (t : Tables)
    → IsWhole t
    → IsWhole (record t { sensors = update_rows (λ s. s.id == id) (updated_sensor u) t.sensors })
unfolding IsWhole
IsWhole-set_sensor id u t h = AllRead-update_sensors (λ s. s.id == id) u t.sensors t.readers h

pub IsWhole-drop_reader : (id : ℕ) (t : Tables) → IsWhole t → IsWhole (drop_reader id t)
unfolding IsWhole drop_reader
IsWhole-drop_reader id t h =
    AllRead-delete_reader id (delete_rows (λ s. s.reader == id) t.sensors) t.readers
      (rw (rows-delete_rows (λ s. s.reader == id) t.sensors) refl)
      (AllRead-delete_rows (λ s. s.reader == id) t.sensors t.readers h)

pub IsWhole-delete_sensor :
    (org_of : ℕ → Option ℕ) (works : Bool) (org id : ℕ) (t : Tables)
    → IsWhole t
    → IsWhole (delete_sensor org_of works org id t).1
unfolding IsWhole
IsWhole-delete_sensor org_of works org id t h = (delete_sensor-AllRead org_of works org id t h).0
