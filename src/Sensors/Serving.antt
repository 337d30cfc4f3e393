-- ===== src/Sensors/Serving.antt =====
-- Requests on readers and sensors, one behind another (cloud/internal/api/sensors.go and readers.go).
use qube_enterprise_home.Prelude.{ℕ, refl, Bool, Option, none, some, List, [], ◌∷◌}
use qube_enterprise_home.Prelude.Text.{Text}
use qube_enterprise_home.Registry.{Config}
use qube_enterprise_home.Sensors.{Reader, Sensor, Tables}
use qube_enterprise_home.Sensors.Deleting.{delete_sensor}
use qube_enterprise_home.Sensors.Requests.{
  Template, SensorRequest, Connection, Setup, create_sensor, smart_create_sensor,
}
use qube_enterprise_home.Sensors.Changing.{
  Image, ReaderRequest, made_reader, insert_reader, create_reader, ReaderUpdate, SensorUpdate,
  rewrite_reader, update_reader_body, with_reader, update_reader, rewrite_sensor,
  update_sensor_body, update_sensor_found, update_sensor, drop_reader, delete_reader,
}
use qube_enterprise_home.Sensors.Integrity.{
  IsWhole, IsWhole-if, IsWhole-add_reader, IsWhole-set_reader, IsWhole-set_sensor,
  IsWhole-drop_reader, IsWhole-delete_sensor, IsWhole-create_under, IsWhole-smart_with,
}

-- What the requests go by that does not change.
pub record World : Type 0 where
  pub org_of : ℕ → Option ℕ
  pub setup : Setup
  pub templates : List Template
  pub protocols : List Text
  pub images : List Image

-- A request of an organisation, with the ids of new rows and what the database does.
pub data Request : Type 0 where
  make_reader : Bool → ℕ → ℕ → Option ReaderRequest → Request
  change_reader : Bool → ℕ → Option ReaderUpdate → Request
  remove_reader : Bool → ℕ → Request
  make_sensor : Bool → Bool → ℕ → ℕ → Option SensorRequest → Request
  resolve_sensor : Bool → Bool → ℕ → ℕ → ℕ → Option (SensorRequest × Connection) → Request
  change_sensor : Bool → ℕ → Option SensorUpdate → Request
  remove_sensor : Bool → ℕ → Request

unfoldable pub handle : World → ℕ → Request → Tables → ℕ × Tables
handle w org (make_reader works id qube req) t =
    create_reader w.org_of w.setup.registry w.protocols w.images works id org qube req t
handle w org (change_reader works id u) t = update_reader w.org_of works org id u t
handle w org (remove_reader works id) t = delete_reader w.org_of works org id t
handle w org (make_sensor works maps id reader req) t =
    create_sensor w.org_of works maps w.templates id org reader req t
handle w org (resolve_sensor works maps next id qube req) t =
    smart_create_sensor w.org_of w.setup works maps w.templates next id org qube req t
handle w org (change_sensor works id u) t = update_sensor w.org_of works org id u t
handle w org (remove_sensor works id) t = delete_sensor w.org_of works org id t

-- The tables behind the requests of several organisations.
unfoldable pub serve : World → List (ℕ × Request) → Tables → Tables
serve w [] t = t
serve w ((org, r) ∷ rest) t = serve w rest (handle w org r t).1

IsWhole-with_reader :
    (org_of : ℕ → Option ℕ) (org : ℕ) (r : Option Reader) (next : Reader → ℕ × Tables) (t : Tables)
    → IsWhole t
    → ((q : Reader) → IsWhole (next q).1)
    → IsWhole (with_reader org_of org r next t).1
unfolding with_reader
IsWhole-with_reader org_of org none next t h k = h
IsWhole-with_reader org_of org (some r) next t h k = IsWhole-if {A = ℕ} _ _ (404, t) (k r) h

IsWhole-insert_reader :
    (registry : Config) (images : List Image) (works : Bool) (id qube : ℕ) (req : ReaderRequest)
    (t : Tables)
    → IsWhole t
    → IsWhole (insert_reader registry images works id qube req t).1
unfolding insert_reader
IsWhole-insert_reader registry images works id qube req t h =
    IsWhole-if {A = ℕ} _ (500, t) _ h (IsWhole-add_reader (made_reader id qube req) _ t h)

IsWhole-update_reader_body :
    (works : Bool) (id : ℕ) (u : Option ReaderUpdate) (r : Reader) (t : Tables)
    → IsWhole t
    → IsWhole (update_reader_body works id u r t).1
unfolding update_reader_body rewrite_reader
IsWhole-update_reader_body works id none r t h = h
IsWhole-update_reader_body works id (some u) r t h =
    IsWhole-if {A = ℕ} _ (400, t) _ h
      (IsWhole-if {A = ℕ} _ (500, t) _ h (IsWhole-set_reader id u t h))

IsWhole-update_sensor_body :
    (works : Bool) (id : ℕ) (u : Option SensorUpdate) (t : Tables)
    → IsWhole t
    → IsWhole (update_sensor_body works id u t).1
unfolding update_sensor_body rewrite_sensor
IsWhole-update_sensor_body works id none t h = h
IsWhole-update_sensor_body works id (some u) t h =
    IsWhole-if {A = ℕ} _ (400, t) _ h
      (IsWhole-if {A = ℕ} _ (500, t) _ h (IsWhole-set_sensor id u t h))

IsWhole-update_sensor_found :
    (org_of : ℕ → Option ℕ) (works : Bool) (org id : ℕ) (u : Option SensorUpdate)
    (s : Option Sensor) (t : Tables)
    → IsWhole t
    → IsWhole (update_sensor_found org_of works org id u s t).1
unfolding update_sensor_found
IsWhole-update_sensor_found org_of works org id u none t h = h
IsWhole-update_sensor_found org_of works org id u (some s) t h =
    IsWhole-with_reader org_of org _ _ t h (λ r. IsWhole-update_sensor_body works id u t h)

IsWhole-create_reader :
    (w : World) (works : Bool) (id org qube : ℕ) (req : Option ReaderRequest) (t : Tables)
    → IsWhole t
    → IsWhole
        (create_reader w.org_of w.setup.registry w.protocols w.images works id org qube req t).1
unfolding create_reader
IsWhole-create_reader w works id org qube none t h = IsWhole-if {A = ℕ} _ (400, t) (404, t) h h
IsWhole-create_reader w works id org qube (some req) t h =
    IsWhole-if {A = ℕ} _ (404, t) _ h
      (IsWhole-if {A = ℕ} _ (400, t) _ h
        (IsWhole-insert_reader w.setup.registry w.images works id qube req t h))

IsWhole-smart_create_sensor :
    (w : World) (works maps : Bool) (next id org qube : ℕ)
    (req : Option (SensorRequest × Connection)) (t : Tables)
    → IsWhole t
    → IsWhole (smart_create_sensor w.org_of w.setup works maps w.templates next id org qube req t).1
unfolding smart_create_sensor
IsWhole-smart_create_sensor w works maps next id org qube none t h =
    IsWhole-if {A = ℕ} _ (400, t) (404, t) h h
IsWhole-smart_create_sensor w works maps next id org qube (some (req, conn)) t h =
    IsWhole-if {A = ℕ} _ (404, t) _ h
      (IsWhole-if {A = ℕ} _ (400, t) _ h
        (IsWhole-smart_with w.setup works maps w.templates next id org qube req conn req.template t
          h))

IsWhole-handle :
    (w : World) (org : ℕ) (r : Request) (t : Tables) → IsWhole t → IsWhole (handle w org r t).1
unfolding handle update_reader delete_reader create_sensor update_sensor
IsWhole-handle w org (make_reader works id qube req) t h =
    IsWhole-create_reader w works id org qube req t h
IsWhole-handle w org (change_reader works id u) t h =
    IsWhole-with_reader w.org_of org _ _ t h (λ r. IsWhole-update_reader_body works id u r t h)
IsWhole-handle w org (remove_reader works id) t h =
    IsWhole-with_reader w.org_of org _ _ t h (λ r.
      IsWhole-if {A = ℕ} works (200, drop_reader id t) (500, t) (IsWhole-drop_reader id t h) h)
IsWhole-handle w org (make_sensor works maps id reader req) t h =
    IsWhole-create_under w.org_of works maps w.templates id org req _ _ t h refl
IsWhole-handle w org (resolve_sensor works maps next id qube req) t h =
    IsWhole-smart_create_sensor w works maps next id org qube req t h
IsWhole-handle w org (change_sensor works id u) t h =
    IsWhole-update_sensor_found w.org_of works org id u _ t h
IsWhole-handle w org (remove_sensor works id) t h = IsWhole-delete_sensor w.org_of works org id t h

-- Whatever several organisations ask for, to make, change and remove readers and sensors, and whatever fails: if every
-- sensor has its reader before, then every sensor has it behind the requests.
pub serve-IsWhole :
    (w : World) (rs : List (ℕ × Request)) (t : Tables) → IsWhole t → IsWhole (serve w rs t)
unfolding serve
serve-IsWhole w [] t h = h
serve-IsWhole w ((org, r) ∷ rest) t h = serve-IsWhole w rest _ (IsWhole-handle w org r t h)
