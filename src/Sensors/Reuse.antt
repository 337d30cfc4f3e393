-- ===== src/Sensors/Reuse.antt =====
-- Which reader a sensor gets (`findOrCreateReader`, `endpointFingerprint`, cloud/internal/api/sensors.go).
use qube_enterprise_home.Prelude.{
  ℕ, ◌≡◌, refl, sym, ap, ◌∙◌, ◌⊎◌, inl, inr, String, Bool, true, false, not, ◌||◌, Option, none,
  some, List, [], ◌∷◌, ◌++◌, if◌then◌else◌, str_eq, arith, Bool-cases,
}
use qube_enterprise_home.Prelude.Text.{Text, text_eq, text_eq_iff}
use qube_enterprise_home.Qubes.{first_row}
use qube_enterprise_home.Registry.{Config}
use qube_enterprise_home.Sensors.Merging.{get-put_other}
use qube_enterprise_home.Sensors.{
  Json, Object, put, get_str, text_of, endpoint_fingerprint, Reader, Tables, reader_name, same_name,
  has_row, create_auto_reader, serves, same_endpoint, is_none, find_reader, reuse,
  find_or_create_reader,
}

pub first_row-append :
    (p : Reader → Bool) (x : Reader) (xs : List Reader)
    → first_row p xs ≡ none
    → p x ≡ true
    → first_row p (xs ++ (x ∷ [])) ≡ some x
unfolding first_row
first_row-append p x [] h k = rw k refl
first_row-append p x (y ∷ ys) h k = elim (Bool-cases (p y)) [
  | inl hit ↦ ground (arith, hit)
  | inr miss ↦ ground (arith, miss, first_row-append p x ys)
]

module _ (multi : Bool) (qube : ℕ) (protocol : Text) (cfg : Object) where
  -- What a request has to go by: the shared reader of a protocol, or a fingerprint.
  abbrev pub IsFindable : Type 0
  IsFindable =
      (multi ≡ true)
      ⊎ ((multi ≡ false)
          × (is_none cfg ≡ false)
          × (text_eq (endpoint_fingerprint protocol cfg) [] ≡ false))

  find_reader-shared :
      (rs : List Reader)
      → multi ≡ true
      → find_reader multi qube protocol cfg rs ≡ first_row (serves qube protocol) rs
  unfolding find_reader
  find_reader-shared rs m = rw m refl

  find_reader-endpoint :
      (rs : List Reader)
      → multi ≡ false
      → is_none cfg ≡ false
      → text_eq (endpoint_fingerprint protocol cfg) [] ≡ false
      → find_reader multi qube protocol cfg rs
        ≡ first_row (same_endpoint qube protocol (endpoint_fingerprint protocol cfg)) rs
  unfolding find_reader
  find_reader-endpoint rs m given print = rw (m, given, print) refl

  find_reader-appended :
      (r : Reader) (rs : List Reader)
      → IsFindable
      → find_reader multi qube protocol cfg rs ≡ none
      → serves qube protocol r ≡ true
      → (multi ≡ false → r.config ≡ cfg)
      → find_reader multi qube protocol cfg (rs ++ (r ∷ [])) ≡ some r
  unfolding same_endpoint
  find_reader-appended r rs (inl m) h s c =
      find_reader-shared (rs ++ (r ∷ [])) m
      ∙ first_row-append (serves qube protocol) r rs (sym (find_reader-shared rs m) ∙ h) s
  find_reader-appended r rs (inr (m, given, print)) h s c =
      let fp = endpoint_fingerprint protocol cfg in
      find_reader-endpoint (rs ++ (r ∷ [])) m given print
      ∙ first_row-append (same_endpoint qube protocol fp) r rs
          (sym (find_reader-endpoint rs m given print) ∙ h)
          (rw (s, c m) ((text_eq_iff fp fp).1 refl))

made-if :
    (b : Bool) (id i : ℕ) (failed made : Option ℕ × Tables)
    → failed.0 ≡ none
    → made.0 ≡ some id
    → (if b then failed else made).0 ≡ some i
    → (i ≡ id) × ((if b then failed else made).1 ≡ made.1)
made-if true id i failed made f m h = cc
made-if false id i failed made f m h = (cc, refl)

module _ (registry : Config) (suffix : Text) (qube : ℕ) (protocol name : Text) (cfg : Object) where
  -- The row that `createAutoReader` inserts.
  abbrev new_reader : ℕ → Reader
  new_reader id = record {
    id = id;
    qube = qube;
    protocol = protocol;
    name = reader_name protocol name;
    template = none;
    config = cfg;
    active = true;
    version = 1;
  }

  create_auto_reader-made :
      (works : Bool) (id i : ℕ) (t : Tables)
      → (create_auto_reader registry works suffix id qube protocol name cfg t).0 ≡ some i
      → (i ≡ id)
        × ((create_auto_reader registry works suffix id qube protocol name cfg t).1.readers
            ≡ t.readers ++ (new_reader id ∷ []))
  unfolding create_auto_reader
  create_auto_reader-made works id i t h =
      let (same, made) =
        made-if
          (not works
            || has_row (first_row (same_name qube protocol (reader_name protocol name)) t.readers))
          id i (none, t) _ refl refl h in
      (same, ap (λ u. u.readers) made)

  new_reader-serves : (id : ℕ) → serves qube protocol (new_reader id) ≡ true
  unfolding serves
  new_reader-serves id = ground (arith, text_eq_iff protocol protocol)

reuse-hit :
    (f : Option Reader) (r : Reader) (made : Option ℕ × Tables) (t : Tables)
    → f ≡ some r
    → reuse f made t ≡ (some r.id, t)
unfolding reuse
reuse-hit f r made t e = rw e refl

again :
    (registry : Config) (works later : Bool) (suffix : Text) (id next i : ℕ) (multi : Bool)
    (qube : ℕ) (protocol name : Text) (cfg : Object) (t : Tables)
    → IsFindable multi qube protocol cfg
    → (f : Option Reader) → find_reader multi qube protocol cfg t.readers ≡ f
    → let made =
        create_auto_reader registry works suffix id qube protocol name
          (if multi then [] else cfg)
          t in
      (reuse f made t).0 ≡ some i
      → find_or_create_reader registry later true suffix next multi qube protocol name cfg
          (reuse f made t).1
        ≡ (some i, (reuse f made t).1)
unfolding reuse find_or_create_reader
again registry works later suffix id next i multi qube protocol name cfg t findable (some r) e h =
    reuse-hit (find_reader multi qube protocol cfg t.readers) r _ t e ∙ ap (λ o. (o, t)) h
again registry works later suffix id next i multi qube protocol name cfg t findable none e h =
    let given = if multi then [] else cfg in
    let new = new_reader registry suffix qube protocol name given id in
    let (same, made) =
      create_auto_reader-made registry suffix qube protocol name given works id i t h in
    let after = (create_auto_reader registry works suffix id qube protocol name given t).1 in
    let found =
      find_reader-appended multi qube protocol cfg new t.readers findable e
        (new_reader-serves registry suffix qube protocol name given id) (λ m. rw m refl) in
    reuse-hit (find_reader multi qube protocol cfg after.readers) new _ after
      (ap (find_reader multi qube protocol cfg) made ∙ found)
    ∙ ap (λ j. (some j, after)) (sym same)

-- Asking again gives the same reader and changes nothing: once a request that has something to go by has been
-- given a reader, the same request gets that reader, whatever new id is at hand, and all tables stay.
pub find_or_create-again :
    (registry : Config) (works later : Bool) (suffix : Text) (id next i : ℕ) (multi : Bool)
    (qube : ℕ) (protocol name : Text) (cfg : Object) (t : Tables)
    → IsFindable multi qube protocol cfg
    → (find_or_create_reader registry works true suffix id multi qube protocol name cfg t).0
      ≡ some i
    → let after =
        (find_or_create_reader registry works true suffix id multi qube protocol name cfg t).1 in
      find_or_create_reader registry later true suffix next multi qube protocol name cfg after
      ≡ (some i, after)
unfolding find_or_create_reader
find_or_create-again registry works later suffix id next i multi qube protocol name cfg t findable =
    again registry works later suffix id next i multi qube protocol name cfg t findable
      (find_reader multi qube protocol cfg t.readers) refl

get_str-port :
    (k : String) (v : Json) (o : Object)
    → str_eq "port" k ≡ false
    → get_str k (put "port" v o) ≡ get_str k o
unfolding get_str
get_str-port k v o h = ap text_of (get-put_other "port" k v o h)

endpoint_fingerprint-port :
    (protocol : Text) (v : Json) (cfg : Object)
    → endpoint_fingerprint protocol (put "port" v cfg) ≡ endpoint_fingerprint protocol cfg
unfolding endpoint_fingerprint
endpoint_fingerprint-port protocol v cfg =
    rw
      (
        get_str-port "host" v cfg refl,
        get_str-port "ip_address" v cfg refl,
        get_str-port "broker_host" v cfg refl,
        get_str-port "ns_host" v cfg refl,
        get_str-port "endpoint" v cfg refl,
        get_str-port "url" v cfg refl,
      )
      refl

put-given : (j : String) (v : Json) (o : Object) → is_none (put j v o) ≡ false
unfolding put
put-given j v [] = refl
put-given j v ((k, w) ∷ rest) = elim (Bool-cases (str_eq k j)) [
  | inl hit ↦ rw hit refl
  | inr miss ↦ rw miss refl
]

find_reader-given :
    (qube : ℕ) (protocol : Text) (cfg : Object) (v : Json) (r : Reader) (rs : List Reader)
    → find_reader false qube protocol cfg rs ≡ some r
    → find_reader false qube protocol (put "port" v cfg) rs ≡ some r
unfolding find_reader
find_reader-given qube protocol [] v r rs h = cc
find_reader-given qube protocol ((k, w) ∷ rest) v r rs h =
    rw (endpoint_fingerprint-port protocol v ((k, w) ∷ rest), put-given "port" v ((k, w) ∷ rest)) h

-- A device that differs from another in its port only gets the other's reader, of any protocol: the port has no
-- part in the fingerprint.
port-shared :
    (registry : Config) (works : Bool) (suffix : Text) (id qube : ℕ) (protocol name : Text)
    (cfg : Object) (port : Json) (r : Reader) (t : Tables)
    → find_reader false qube protocol cfg t.readers ≡ some r
    → find_or_create_reader registry works true suffix id false qube protocol name
        (put "port" port cfg)
        t
      ≡ (some r.id, t)
unfolding find_or_create_reader
port-shared registry works suffix id qube protocol name cfg port r t h =
    reuse-hit (find_reader false qube protocol (put "port" port cfg) t.readers) r _ t
      (find_reader-given qube protocol cfg port r t.readers h)
