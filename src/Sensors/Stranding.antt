-- ===== src/Sensors/Stranding.antt =====
-- The mappings of a reader's sensors when the reader is deleted (`deleteReaderHandler`, cloud/internal/api/readers.go).
use qube_enterprise_home.Prelude.{
  ℕ, ◌≡◌, refl, inl, inr, Bool, true, ◌&&◌, Option, none, some, List, [], ◌∷◌, ◌==◌, map, arith,
  Bool-cases,
}
use qube_enterprise_home.Qubes.{first_row, rows, update_rows}
use qube_enterprise_home.Qubes.Tables.{rows-delete_rows}
use qube_enterprise_home.Sensors.{Reader, Sensor, Mapping, Tables, refers_to}
use qube_enterprise_home.Sensors.Deleting.{is_org}
use qube_enterprise_home.Sensors.Changing.{
  maps_into, orphaned, with_reader, drop_reader, delete_reader,
}

abbrev pub is_sensor_of : ℕ → ℕ → Sensor → Bool
is_sensor_of reader id s = s.reader == reader && s.id == id

maps_into-found :
    (reader j : ℕ) (s : Sensor) (ss : List Sensor) (o : Option ℕ)
    → first_row (is_sensor_of reader j) ss ≡ some s
    → refers_to j o ≡ true
    → maps_into reader ss o ≡ true
unfolding first_row maps_into
maps_into-found reader j s [] o h k = cc
maps_into-found reader j s (q ∷ ss) none h k = cc
maps_into-found reader j s (q ∷ ss) (some n) h k =
    ground (arith, maps_into-found reader j s ss (some n))

rows-orphaned :
    (reader j : ℕ) (s : Sensor) (ss : List Sensor) (ms : List Mapping)
    → first_row (is_sensor_of reader j) ss ≡ some s
    → rows (λ m. refers_to j m.sensor) (update_rows (λ m. maps_into reader ss m.sensor) orphaned ms)
      ≡ []
unfolding rows update_rows
rows-orphaned reader j s ss [] h = refl
rows-orphaned reader j s ss (m ∷ ms) h = elim (Bool-cases (maps_into reader ss m.sensor)) [
  | inl hit ↦ rw hit (rows-orphaned reader j s ss ms h)
  | inr miss ↦ elim (Bool-cases (refers_to j m.sensor)) [
    | inl refers ↦ cc (maps_into-found reader j s ss m.sensor h refers, miss)
    | inr other ↦ rw (miss, other) (rows-orphaned reader j s ss ms h)
  ]
]

devices-orphaned :
    (p : Mapping → Bool) (ms : List Mapping)
    → map (λ m. m.device) (update_rows p orphaned ms) ≡ map (λ m. m.device) ms
unfolding update_rows
devices-orphaned p [] = refl
devices-orphaned p (m ∷ ms) = elim (Bool-cases (p m)) [
  | inl hit ↦ rw (hit, devices-orphaned p ms) refl
  | inr miss ↦ rw (miss, devices-orphaned p ms) refl
]

-- A deletion of a reader that works removes its sensors and containers, and no mapping refers to such a sensor any
-- more; but all mappings stay, one for each device as before, also those of the sensors that are gone.
pub delete_reader-strands :
    (org_of : ℕ → Option ℕ) (org id j : ℕ) (r : Reader) (s : Sensor) (t : Tables)
    → first_row (λ r. r.id == id) t.readers ≡ some r
    → is_org org (org_of r.qube) ≡ true
    → first_row (is_sensor_of id j) t.sensors ≡ some s
    → let (status, after) = delete_reader org_of true org id t in
      (status ≡ 200)
      × (rows (λ s. s.reader == id) after.sensors ≡ [])
      × (rows (λ c. c.reader == id) after.containers ≡ [])
      × (rows (λ m. refers_to j m.sensor) after.mappings ≡ [])
      × (map (λ m. m.device) after.mappings ≡ map (λ m. m.device) t.mappings)
unfolding delete_reader with_reader drop_reader
delete_reader-strands org_of org id j r s t found own sensor =
    rw (found, own)
      (
        refl,
        rows-delete_rows (λ s. s.reader == id) t.sensors,
        rows-delete_rows (λ c. c.reader == id) t.containers,
        rows-orphaned id j s t.sensors t.mappings sensor,
        devices-orphaned (λ m. maps_into id t.sensors m.sensor) t.mappings,
      )
