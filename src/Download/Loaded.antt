-- ===== src/Download/Loaded.antt =====
-- From the tables of the cloud to what a reader on the Qube loads (cloud/internal/tpapi/sync.go,
-- conf-agent/sqlite/sqlite.go, pkg/sqliteconfig/loader.go).
use qube_enterprise_home.Prelude.{
  ℕ, ◌≡◌, refl, ap, ◌∙◌, inl, inr, Bool, true, ◌&&◌, some, List, [], ◌∷◌, ◌==◌, map, Bool-cases,
}
use qube_enterprise_home.Prelude.Text.{Text, text_eq}
use qube_enterprise_home.Qubes.{first_row, rows}
use qube_enterprise_home.Sensors.{Reader, Sensor, Tables}
use qube_enterprise_home.Store
use qube_enterprise_home.Store.{
  SyncConfig, write_config, load_reader_config, order_by_name, reader_row, sensor_row, status_or,
  is_active,
}
use qube_enterprise_home.Store.Loading.{AreDistinct, write_config-loaded}
use qube_enterprise_home.Download.{
  Encoding, sensor_config, sensors_of, reader_config, load_readers_for_qube,
  load_telemetry_settings, sync_config,
}
use qube_enterprise_home.Download.Distinct.{AreDistinct-rows, AreDistinct-map, AreDistinct-rows_of}

first_row-config :
    (e : Encoding) (ss : List Sensor) (i : ℕ) (r : Reader) (p : Reader → Bool) (rs : List Reader)
    → first_row (λ x. x.id == i) rs ≡ some r
    → p r ≡ true
    → first_row (λ x. x.id == i) (map (reader_config e ss) (rows p rs))
      ≡ some (reader_config e ss r)
unfolding first_row rows
first_row-config e ss i r p [] h k = cc
first_row-config e ss i r p (x ∷ rs) h k = elim (Bool-cases (x.id == i)) [
  | inl hit ↦
      (let same : x ≡ r = cc (rw hit at h) in
        rw (ap p same ∙ k) (rw hit (ap (λ q. some (reader_config e ss q)) same)))
  | inr miss ↦
      (let rest = first_row-config e ss i r p rs (rw miss at h) k in
        elim (Bool-cases (p x)) [ inl shown ↦ rw (shown, miss) rest | inr hidden ↦ rw hidden rest ])
]

-- What is in the tables of the cloud for a reader is what the reader loads on its Qube: behind a download that is
-- written, whatever stood on the Qube before, an active reader of the Qube has its row and exactly its active sensors,
-- by name, each with what the cloud has for it. The ids of the readers, and those of the sensors, differ in the tables.
pub sync_config-loaded :
    (e : Encoding) (qube version i : ℕ) (hash : Text) (core_switch : List (Text × Text))
    (r : Reader) (t : Tables) (store : Store.Store)
    → AreDistinct (λ x. x.id) t.readers
    → AreDistinct (λ s. s.id) t.sensors
    → first_row (λ x. x.id == i) t.readers ≡ some r
    → (r.qube == qube && r.active) ≡ true
    → (c : SyncConfig) × (sync_config e qube (some (hash, version)) core_switch t ≡ some c)
      × (load_reader_config i (write_config true true c store).1
          ≡ some (
            reader_row (reader_config e t.sensors r),
            order_by_name (map (sensor_row i) (map (sensor_config e) (sensors_of r.id t.sensors))),
          ))
unfolding sync_config load_readers_for_qube text_eq
sync_config-loaded e qube version i hash core_switch r t store dr ds found own =
    let p : Reader → Bool = λ x. x.qube == qube && x.active in
    let mine = rows p t.readers in
    let c : SyncConfig = record {
      readers = map (reader_config e t.sensors) mine;
      core_switch = core_switch;
      telemetry = load_telemetry_settings e qube t;
      hash = hash;
      version = version;
    } in
    let distinct = AreDistinct-rows (λ x. x.id) p t.readers dr in
    (
      c,
      refl,
      (write_config-loaded c store i (reader_config e t.sensors r)
          (AreDistinct-map (λ x. x.id) (λ x. x.id) (reader_config e t.sensors) mine (λ x. refl)
            distinct)
          (AreDistinct-rows_of e t.sensors mine ds distinct)
          (first_row-config e t.sensors i r p t.readers found own) refl).1,
    )
