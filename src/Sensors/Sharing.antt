-- ===== src/Sensors/Sharing.antt =====
-- Two sensors at one endpoint (`smartCreateSensorHandler`, `findOrCreateReader`, cloud/internal/api/sensors.go).
use mathlib.Core.Path.{subst}
use qube_enterprise_home.Prelude.{
  ℕ, ◌≡◌, ◌≢◌, refl, sym, ap, ◌∙◌, Bool, true, false, not, Option, none, some, List, [],
  if◌then◌else◌, arith,
}
use qube_enterprise_home.Prelude.Text.{Text, text_eq}
use qube_enterprise_home.Registry.{Config}
use qube_enterprise_home.Sensors.{
  Object, or_empty, Reader, Tables, create_auto_reader, find_reader, find_or_create_reader, reuse,
}
use qube_enterprise_home.Sensors.Deleting.{is_org}
use qube_enterprise_home.Sensors.Reuse.{IsFindable, find_or_create-again}
use qube_enterprise_home.Sensors.Requests.{
  Template, SensorRequest, Connection, Setup, auto_create_telemetry_mapping, insert_sensor,
  insert_resolved, resolve_and_insert, smart_with, smart_create_sensor, find_template,
}

-- The readers and containers of two tables are the same.
unfoldable pub KeepsReaders : Tables → Tables → Type 0
KeepsReaders t u = (u.readers ≡ t.readers) × (u.containers ≡ t.containers)

KeepsReaders-same : (t : Tables) → KeepsReaders t t
unfolding KeepsReaders
KeepsReaders-same t = (refl, refl)

KeepsReaders-if {ℓ} :
    {A : Type ℓ} (t : Tables) (b : Bool) (x y : A × Tables)
    → KeepsReaders t x.1
    → KeepsReaders t y.1
    → KeepsReaders t (if b then x else y).1
KeepsReaders-if t true x y h k = h
KeepsReaders-if t false x y h k = k

KeepsReaders-mapping :
    (works : Bool) (qube sensor : ℕ) (name : Text) (t u : Tables)
    → KeepsReaders t u
    → KeepsReaders t (auto_create_telemetry_mapping works qube sensor name u)
unfolding KeepsReaders auto_create_telemetry_mapping
KeepsReaders-mapping works qube sensor name t u h = ground (arith, h)

KeepsReaders-insert_sensor :
    (works maps : Bool) (id qube reader : ℕ) (config : Option Object) (req : SensorRequest)
    (t : Tables)
    → KeepsReaders t (insert_sensor works maps id qube reader config req t).1
unfolding insert_sensor KeepsReaders
KeepsReaders-insert_sensor works maps id qube reader config req t =
    KeepsReaders-if {A = ℕ} t _ (500, t) _ (refl, refl)
      (KeepsReaders-mapping maps qube id req.name t _ (refl, refl))

-- What the handler resolves the reader to, when the query for it works.
abbrev pub resolved : Setup → ℕ → ℕ → Connection → Template → Tables → Option ℕ × Tables
resolved setup next qube conn tmpl t =
    find_or_create_reader setup.registry setup.creates true (setup.suffix tmpl.id) next
      (setup.is_multi_target tmpl.protocol) qube tmpl.protocol conn.reader_name
      (or_empty conn.reader_config) t

error : (n : ℕ) → n ≡ 500 → n ≢ 201
error n h k = omega (arith, h, k)

passed :
    (b : Bool) (n : ℕ) (t u : Tables) (x : ℕ × Tables)
    → n ≢ 201
    → (if b then (n, t) else x) ≡ (201, u)
    → x ≡ (201, u)
passed true n t u x other h = absurd (other (ap (λ p. p.0) h))
passed false n t u x other h = h

reuse-found :
    (o : Option Reader) (i : ℕ) (t : Tables)
    → (reuse o (none, t) t).0 ≡ some i
    → (r : Reader) × (o ≡ some r)
unfolding reuse
reuse-found none i t h = cc
reuse-found (some r) i t h = (r, refl)

-- Without a reader that is inserted, the given one was found.
find_or_create-found :
    (registry : Config) (suffix : Text) (id i : ℕ) (multi : Bool) (qube : ℕ) (protocol name : Text)
    (cfg : Object) (t : Tables)
    → (find_or_create_reader registry false true suffix id multi qube protocol name cfg t).0
      ≡ some i
    → (r : Reader) × (find_reader multi qube protocol cfg t.readers ≡ some r)
unfolding find_or_create_reader create_auto_reader
find_or_create-found registry suffix id i multi qube protocol name cfg t h =
    reuse-found (find_reader multi qube protocol cfg t.readers) i t h

module _ (setup : Setup) (qube : ℕ) (conn : Connection) (tmpl : Template) where
  -- The reader of the endpoint in a table.
  abbrev pub at_endpoint : List Reader → Option Reader
  at_endpoint rs =
      find_reader (setup.is_multi_target tmpl.protocol) qube tmpl.protocol
        (or_empty conn.reader_config) rs

  -- The connection goes by something.
  abbrev pub IsKnown : Type 0
  IsKnown =
      IsFindable (setup.is_multi_target tmpl.protocol) qube tmpl.protocol
        (or_empty conn.reader_config)

  resolved-found :
      (next i : ℕ) (t : Tables)
      → IsKnown
      → (resolved setup next qube conn tmpl t).0 ≡ some i
      → (r : Reader) × (at_endpoint (resolved setup next qube conn tmpl t).1.readers ≡ some r)
  resolved-found next i t findable given =
      find_or_create-found setup.registry (setup.suffix tmpl.id) next i
        (setup.is_multi_target tmpl.protocol) qube tmpl.protocol conn.reader_name
        (or_empty conn.reader_config) (resolved setup next qube conn tmpl t).1
        (ap (λ p. p.0)
          (find_or_create-again setup.registry setup.creates false (setup.suffix tmpl.id) next next
            i (setup.is_multi_target tmpl.protocol) qube tmpl.protocol conn.reader_name
            (or_empty conn.reader_config) t findable given))

  resolved-kept :
      (next : ℕ) (r : Reader) (t : Tables)
      → at_endpoint t.readers ≡ some r
      → resolved setup next qube conn tmpl t ≡ (some r.id, t)
  unfolding find_or_create_reader reuse
  resolved-kept next r t h = rw h refl

  -- A request that is answered with 201 leaves its endpoint with a reader.
  insert_resolved-found :
      (works maps : Bool) (id : ℕ) (req : SensorRequest) (made : Option ℕ × Tables) (u : Tables)
      → ((i : ℕ) → made.0 ≡ some i → (r : Reader) × (at_endpoint made.1.readers ≡ some r))
      → insert_resolved works maps id qube tmpl req made ≡ (201, u)
      → (r : Reader) × (at_endpoint u.readers ≡ some r)
  unfolding insert_resolved KeepsReaders
  insert_resolved-found works maps id req (none, t) u k h =
      absurd (error 500 refl (ap (λ p. p.0) h))
  insert_resolved-found works maps id req (some i, t) u k h =
      let (r, found) = k i refl in
      let kept = (KeepsReaders-insert_sensor works maps id qube i _ req t).0 in
      (r, ap at_endpoint (sym (ap (λ p. p.1.readers) h) ∙ kept) ∙ found)

  resolve_and_insert-kept :
      (works maps : Bool) (next id : ℕ) (req : SensorRequest) (r : Reader) (t : Tables)
      → setup.reads ≡ true
      → at_endpoint t.readers ≡ some r
      → KeepsReaders t (resolve_and_insert setup works maps next id qube req conn (some tmpl) t).1
  unfolding resolve_and_insert insert_resolved
  resolve_and_insert-kept works maps next id req r t reads h = rw reads (
      subst (λ made. KeepsReaders t (insert_resolved works maps id qube tmpl req made).1)
        (sym (resolved-kept next r t h))
        (KeepsReaders-insert_sensor works maps id qube r.id _ req t))

module _ (org_of : ℕ → Option ℕ) (setup : Setup) (templates : List Template) (org qube tid : ℕ)
    (conn : Connection) (tmpl : Template) (there : find_template org tid templates ≡ some tmpl)
    (reads : setup.reads ≡ true) where
  smart_with-found :
      (works maps : Bool) (next id : ℕ) (req : SensorRequest) (o : Option ℕ) (t u : Tables)
      → IsKnown setup qube conn tmpl
      → o ≡ some tid
      → smart_with setup works maps templates next id org qube req conn o t ≡ (201, u)
      → (r : Reader) × (at_endpoint setup qube conn tmpl u.readers ≡ some r)
  unfolding smart_with resolve_and_insert
  smart_with-found works maps next id req o t u known named h =
      insert_resolved-found setup qube conn tmpl works maps id req
        (resolved setup next qube conn tmpl t) u
        (λ i given. resolved-found setup qube conn tmpl next i t known given)
        (rw (named, there, reads) at h)

  smart_with-kept :
      (works maps : Bool) (next id : ℕ) (req : SensorRequest) (o : Option ℕ) (r : Reader)
      (t : Tables)
      → o ≡ some tid
      → at_endpoint setup qube conn tmpl t.readers ≡ some r
      → KeepsReaders t (smart_with setup works maps templates next id org qube req conn o t).1
  unfolding smart_with
  smart_with-kept works maps next id req o r t named h =
      rw (named, there)
        (resolve_and_insert-kept setup qube conn tmpl works maps next id req r t reads h)

  -- Behind a request for a sensor that is answered with 201, any other request of the organisation for a sensor of the
  -- same template with the same connection, on the same Qube, makes no reader and no container, whichever inserts of it
  -- fail, if the queries for the template and for the reader work in both. The connection goes by something: the
  -- protocol has one shared reader, or the connection has a fingerprint.
  pub smart_create_sensor-shares :
      (works works' maps maps' : Bool) (next next' id id' : ℕ) (req req' : SensorRequest)
      (t u : Tables)
      → IsKnown setup qube conn tmpl
      → req.template ≡ some tid
      → req'.template ≡ some tid
      → smart_create_sensor org_of setup works maps templates next id org qube (some (req, conn)) t
        ≡ (201, u)
      → KeepsReaders u
          (smart_create_sensor org_of setup works' maps' templates next' id' org qube
            (some (req', conn))
            u).1
  unfolding smart_create_sensor
  smart_create_sensor-shares works works' maps maps' next next' id id' req req' t u known named
        named' h =
      let inner =
        passed (text_eq req.name []) 400 t u
          (smart_with setup works maps templates next id org qube req conn req.template t)
          (λ e. omega (arith, e))
          (passed (not (is_org org (org_of qube))) 404 t u _ (λ e. omega (arith, e)) h) in
      let (r, found) = smart_with-found works maps next id req req.template t u known named inner in
      KeepsReaders-if {A = ℕ} u _ (404, u) _ (KeepsReaders-same u)
        (KeepsReaders-if {A = ℕ} u _ (400, u) _ (KeepsReaders-same u)
          (smart_with-kept works' maps' next' id' req' req'.template r u named' found))
