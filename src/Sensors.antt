-- ===== src/Sensors.antt =====
-- How a sensor finds its reader: `findOrCreateReader`, `endpointFingerprint`, `createAutoReader`, `mergeSensorConfig`
-- and `deleteSensorHandler` (cloud/internal/api/sensors.go), `sanitizeServiceName` (cloud/internal/api/readers.go).
-- A JSON object is the list of its fields; a table is the list of its rows, oldest first, which is also the order
-- in which a query without one is taken to read them. Ids are numbers, new ones are arguments; the environment of
-- a container is left out.
pub mod Reuse
pub mod Names
pub mod Merging
pub mod Unordered
pub mod Deleting
pub mod Requests
pub mod Changing
pub mod Rows
pub mod Integrity
pub mod Serving
pub mod Sharing
pub mod Stranding
mod Tests
use qube_enterprise_home.Prelude.{
  ℕ, ◌+◌, ◌-◌, String, Bool, true, false, not, ◌&&◌, ◌||◌, Option, none, some, List, [], ◌∷◌, ◌++◌,
  ◌==◌, if◌then◌else◌, str_eq, leb, map,
}
use qube_enterprise_home.Prelude.Text.{Text, codes, text_eq}
use qube_enterprise_home.Qubes.{first_row, delete_rows, rows}
use qube_enterprise_home.Registry.{Config, resolve_reader_image}

-- A value of a JSON object: a string, or anything else as its text.
pub data Json : Type 0 where
  string : Text → Json
  other : Text → Json

abbrev pub Object : Type 0
Object = List (String × Json)

unfoldable pub get : String → Object → Option Json
get key [] = none
get key ((k, v) ∷ rest) = if str_eq k key then some v else get key rest

unfoldable pub put : String → Json → Object → Object
put key v [] = (key, v) ∷ []
put key v ((k, w) ∷ rest) = if str_eq k key then (key, v) ∷ rest else (k, w) ∷ put key v rest

-- The loop of `mergeSensorConfig`.
unfoldable pub merge : Object → Object → Object
merge tmpl [] = tmpl
merge tmpl ((k, v) ∷ rest) = merge (put k v tmpl) rest

unfoldable pub or_empty : Option Object → Object
or_empty none = []
or_empty (some o) = o

-- `mergeSensorConfig`; `none` is what is no object.
unfoldable pub merge_sensor_config : Option Object → Option Object → Object
unfolding or_empty
merge_sensor_config tmpl none = or_empty tmpl
merge_sensor_config tmpl (some params) = merge (or_empty tmpl) params

text_of : Option Json → Text
text_of none = []
text_of (some (string t)) = t
text_of (some (other t)) = []

-- `getStr`
unfoldable pub get_str : String → Object → Text
unfolding text_of
get_str key cfg = text_of (get key cfg)

abbrev pub first_text : Text → Text → Text
first_text t u = if text_eq t [] then u else t

-- A scheme and a target, "" without a target.
target_url : Text → Text → Text
target_url scheme target = if text_eq target [] then [] else scheme ++ (codes "://" ++ target)

-- `endpointFingerprint`; the codes of a protocol's name are its text.
unfoldable pub endpoint_fingerprint : Text → Object → Text
unfolding target_url
endpoint_fingerprint protocol cfg =
    if text_eq protocol (codes "modbus_tcp")
      || (text_eq protocol (codes "snmp")
          || (text_eq protocol (codes "dnp3") || text_eq protocol (codes "bacnet")))
    then target_url protocol (first_text (get_str "host" cfg) (get_str "ip_address" cfg))
    else if text_eq protocol (codes "mqtt")
    then codes "mqtt://"
      ++ first_text (first_text (get_str "broker_host" cfg) (get_str "host" cfg)) (codes "default")
    else if text_eq protocol (codes "lorawan")
    then codes "lorawan://"
      ++ first_text (first_text (get_str "ns_host" cfg) (get_str "host" cfg)) (codes "default")
    else if text_eq protocol (codes "opcua") || text_eq protocol (codes "http")
    then target_url protocol (first_text (get_str "endpoint" cfg) (get_str "url" cfg))
    else []

-- Rows of `readers`, `sensors`, `containers` and `telemetry_settings`, less the times. A reader's configuration that
-- is no object is read as the empty one; tags are their JSON text.
pub record Reader : Type 0 where
  pub id : ℕ
  pub qube : ℕ
  pub protocol : Text
  pub name : Text
  pub template : Option ℕ
  pub config : Object
  pub active : Bool
  pub version : ℕ

pub record Sensor : Type 0 where
  pub id : ℕ
  pub reader : ℕ
  pub name : Text
  pub template : Option ℕ
  pub config : Option Object
  pub tags : Text
  pub output : Text
  pub table_name : Text
  pub active : Bool
  pub version : ℕ

pub record Container : Type 0 where
  pub reader : ℕ
  pub qube : ℕ
  pub name : Text
  pub image : Text

pub record Mapping : Type 0 where
  pub qube : ℕ
  pub device : Text
  pub reading : Text
  pub agg_time_min : ℕ
  pub agg_func : Text
  pub sensor : Option ℕ

abbrev pub refers_to : ℕ → Option ℕ → Bool
refers_to id none = false
refers_to id (some n) = n == id

pub record Tables : Type 0 where
  pub readers : List Reader
  pub sensors : List Sensor
  pub containers : List Container
  pub mappings : List Mapping

-- The byte that `sanitizeServiceName` has for one.
unfoldable pub service_byte : ℕ → ℕ
service_byte c =
    if leb b'a' c && leb c b'z' || (leb b'0' c && leb c b'9' || c == b'-')
    then c
    else if leb b'A' c && leb c b'Z'
    then c + 32
    else b'-'

-- The two loops behind it.
unfoldable pub trim_left : Text → Text
trim_left [] = []
trim_left (c ∷ s) = let rest = trim_left s in if c == b'-' then rest else c ∷ s

trim_end : ℕ → Text → Text
trim_end c [] = if c == b'-' then [] else c ∷ []
trim_end c (d ∷ s) = c ∷ d ∷ s

unfoldable pub trim_right : Text → Text
unfolding trim_end
trim_right [] = []
trim_right (c ∷ s) = trim_end c (trim_right s)

unfoldable pub sanitize_service_name : Text → Text
sanitize_service_name name = trim_right (trim_left (map service_byte name))

-- `strings.ToUpper` of a text in ASCII.
unfoldable pub to_upper : Text → Text
to_upper s = map (λ c. if leb b'a' c && leb c b'z' then c - 32 else c) s

abbrev pub reader_name : Text → Text → Text
reader_name protocol name = if text_eq name [] then to_upper protocol ++ codes "-reader" else name

unfoldable pub same_name : ℕ → Text → Text → Reader → Bool
same_name qube protocol name r =
    r.qube == qube && (text_eq r.protocol protocol && text_eq r.name name)

unfoldable pub has_row : Option Reader → Bool
has_row none = false
has_row (some r) = true

-- `createAutoReader`: the id of the reader unless the transaction fails, as it does for a name that the Qube has
-- for that protocol (a unique index), or with `works` for another reason. `suffix` is that of the template.
unfoldable pub create_auto_reader :
    Config → Bool → Text → ℕ → ℕ → Text → Text → Object → Tables → Option ℕ × Tables
unfolding same_name has_row
create_auto_reader registry works suffix id qube protocol name cfg t =
    let label = reader_name protocol name in
    if not works || has_row (first_row (same_name qube protocol label) t.readers)
    then (none, t)
    else (
      some id,
      record t {
        readers =
            t.readers
            ++ (record {
              id = id;
              qube = qube;
              protocol = protocol;
              name = label;
              template = none;
              config = cfg;
              active = true;
              version = 1;
            }
                ∷ []);
        containers =
            t.containers
            ++ (record {
              reader = id;
              qube = qube;
              name = sanitize_service_name label;
              image = resolve_reader_image registry suffix;
            }
                ∷ []);
      },
    )

-- The readers that a query of `findOrCreateReader` has.
unfoldable pub serves : ℕ → Text → Reader → Bool
serves qube protocol r = r.qube == qube && (text_eq r.protocol protocol && r.active)

unfoldable pub same_endpoint : ℕ → Text → Text → Reader → Bool
same_endpoint qube protocol print r =
    serves qube protocol r && text_eq (endpoint_fingerprint protocol r.config) print

abbrev pub is_none : Object → Bool
is_none [] = true
is_none (f ∷ fs) = false

-- Its lookup: the shared reader of the protocol, or one with the fingerprint. The configuration [] is none.
unfoldable pub find_reader : Bool → ℕ → Text → Object → List Reader → Option Reader
find_reader multi qube protocol cfg rs =
    let print = endpoint_fingerprint protocol cfg in
    if multi
    then first_row (serves qube protocol) rs
    else if is_none cfg || text_eq print []
    then none
    else first_row (same_endpoint qube protocol print) rs

unfoldable pub reuse : Option Reader → Option ℕ × Tables → Tables → Option ℕ × Tables
reuse none made t = made
reuse (some r) made t = (some r.id, t)

-- A lookup whose query fails finds nothing.
abbrev pub look_up : Bool → Option Reader → Option Reader
look_up true found = found
look_up false found = none

-- `findOrCreateReader`; `multi` is the standard "multi_target", `reads` is whether the query of the lookup works, whose
-- error is taken as no reader.
unfoldable pub find_or_create_reader :
    Config → Bool → Bool → Text → ℕ → Bool → ℕ → Text → Text → Object → Tables → Option ℕ × Tables
unfolding reuse
find_or_create_reader registry works reads suffix id multi qube protocol name cfg t =
    reuse (look_up reads (find_reader multi qube protocol cfg t.readers))
      (create_auto_reader registry works suffix id qube protocol name (if multi then [] else cfg) t)
      t
