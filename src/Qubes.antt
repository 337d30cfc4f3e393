-- ===== src/Qubes.antt =====
-- The Qubes of the cloud: claiming, updating and unclaiming (cloud/internal/api/qubes.go), the hash of a
-- configuration (cloud/internal/api/hash.go). A table is the list of its rows in the order in which the code reads
-- them. The number of a Qube stands for its id, `name` is the text of the id; the HMAC, in hexadecimal, and the
-- SHA-256 of the canonical JSON are parameters; the database's clock is an argument.
pub mod Access
pub mod Tables
pub mod Resync
mod Tests
use qube_enterprise_home.Prelude.{
  ℕ, suc, ◌+◌, Bool, true, false, not, ◌&&◌, ◌||◌, Option, none, some, List, [], ◌∷◌, ◌++◌, ◌==◌,
  if◌then◌else◌, ltb, ◌-◌,
}
use qube_enterprise_home.Prelude.Text.{Text, codes, text_eq}
use qube_enterprise_home.Prelude.Int.{ℤ}
use qube_enterprise_home.Commands.{Command}

pub data QubeStatus : Type 0 where
  online : QubeStatus
  offline : QubeStatus
  unclaimed : QubeStatus

-- A row of `qubes`; `token` is the column `auth_token_hash`.
pub record Qube : Type 0 where
  pub id : ℕ
  pub register_key : Option Text
  pub org : Option ℕ
  pub token : Option Text
  pub status : QubeStatus
  pub label : Text
  pub poll_interval : ℤ
  pub config_version : ℕ
  pub claimed_at : Option ℕ
  pub last_seen : Option ℕ
  pub ws_connected : Bool

pub record Org : Type 0 where
  pub id : ℕ
  pub secret : Text

-- A row of `config_state`, less its snapshot and its time.
pub record ConfigState : Type 0 where
  pub qube : ℕ
  pub hash : Text
  pub version : ℕ

-- Rows of `readers`, `sensors`, `containers` and `telemetry_settings`; `body` is the rest of a row.
pub record Reader : Type 0 where
  pub id : ℕ
  pub qube : ℕ
  pub active : Bool
  pub body : Text

pub record Sensor : Type 0 where
  pub id : ℕ
  pub reader : ℕ
  pub active : Bool
  pub body : Text

pub record Container : Type 0 where
  pub qube : ℕ
  pub reader : Option ℕ
  pub image : Text

pub record Setting : Type 0 where
  pub qube : ℕ
  pub body : Text

pub record Database : Type 0 where
  pub qubes : List Qube
  pub orgs : List Org
  pub configs : List ConfigState
  pub readers : List Reader
  pub sensors : List Sensor
  pub containers : List Container
  pub settings : List Setting
  pub commands : List Command

-- SQL on a table: the first row of a query, all its rows, `UPDATE` and `DELETE`.
unfoldable pub first_row {ℓ} : {A : Type ℓ} → (A → Bool) → List A → Option A
first_row p [] = none
first_row p (x ∷ xs) = if p x then some x else first_row p xs

unfoldable pub rows {ℓ} : {A : Type ℓ} → (A → Bool) → List A → List A
rows p [] = []
rows p (x ∷ xs) = let rest = rows p xs in if p x then x ∷ rest else rest

unfoldable pub update_rows {ℓ} : {A : Type ℓ} → (A → Bool) → (A → A) → List A → List A
update_rows p f [] = []
update_rows p f (x ∷ xs) = (if p x then f x else x) ∷ update_rows p f xs

unfoldable pub delete_rows {ℓ} : {A : Type ℓ} → (A → Bool) → List A → List A
delete_rows p [] = []
delete_rows p (x ∷ xs) = let rest = delete_rows p xs in if p x then rest else x ∷ rest

-- What `recomputeConfigHash` serialises.
pub record Canonical : Type 0 where
  pub qube : ℕ
  pub readers : List (Reader × List Sensor)
  pub settings : List Setting

unfoldable pub with_sensors : List Sensor → List Reader → List (Reader × List Sensor)
with_sensors ss [] = []
with_sensors ss (r ∷ rs) = (r, rows (λ s. s.reader == r.id && s.active) ss) ∷ with_sensors ss rs

unfoldable pub canonical : ℕ → Database → Canonical
canonical qube db = record {
  qube = qube;
  readers = with_sensors db.sensors (rows (λ r. r.qube == qube && r.active) db.readers);
  settings = rows (λ s. s.qube == qube) db.settings;
}

-- `recomputeConfigHash`, for a database that answers: the hash and what it stores.
unfoldable pub recompute_config_hash : (Canonical → Text) → ℕ → Database → Text × Database
recompute_config_hash digest qube db =
    let hash = digest (canonical qube db) in
    (
      hash,
      record db {
        configs =
            update_rows (λ c. c.qube == qube)
              (λ c. record c { hash = hash; version = suc c.version }) db.configs;
      },
    )

-- `computeHMAC`
unfoldable pub compute_hmac : (ℕ → Text) → (Text → Text → Text) → ℕ → Text → Text
compute_hmac name hmac qube secret = hmac secret (name qube ++ (codes ":" ++ secret))

is_key : Text → Option Text → Bool
is_key key none = false
is_key key (some k) = text_eq k key

unfoldable pub key_is : Text → Qube → Bool
unfolding is_key
key_is key q = is_key key q.register_key

abbrev pub is_claimed : Option ℕ → Bool
is_claimed none = false
is_claimed (some org) = true

is_number : ℕ → Option ℕ → Bool
is_number org none = false
is_number org (some o) = o == org

-- `WHERE id = ... AND org_id = ...`
unfoldable pub owned_row : ℕ → ℕ → Qube → Bool
unfolding is_number
owned_row qube org q = q.id == qube && is_number org q.org

-- The lookup of a claim: by the key, else by the id, else a 400.
by_id : Option ℕ → Database → ℕ × Option Qube
by_id none db = (400, none)
by_id (some i) db = (404, first_row (λ q. q.id == i) db.qubes)

unfoldable pub claimed_row : Text → Option ℕ → Database → ℕ × Option Qube
unfolding by_id
claimed_row key qube_id db =
    if not (text_eq key []) then (404, first_row (key_is key) db.qubes) else by_id qube_id db

-- The two updates of `claimQubeHandler`, in its order; `updates` is whether the first one works.
set_claimed : Bool → ℕ → ℕ → Text → ℕ → Database → (ℕ × Option Text) × Database
set_claimed updates now org token qube db = if not updates then ((500, none), db) else (
  (200, some token),
  record db {
    qubes =
        update_rows (λ q. q.id == qube)
          (λ q. record q {
            org = some org;
            token = some token;
            status = offline;
            claimed_at = some now;
            config_version = 1;
          })
          db.qubes;
    configs =
        update_rows (λ c. c.qube == qube) (λ c. record c { hash = []; version = 1 }) db.configs;
  },
)

claim_for :
    (ℕ → Text → Text) → Bool → ℕ → ℕ → Qube → Option Org → Database → (ℕ × Option Text) × Database
unfolding set_claimed
claim_for mac updates now org q none db = ((500, none), db)
claim_for mac updates now org q (some o) db =
    set_claimed updates now org (mac q.id o.secret) q.id db

claim_free :
    (ℕ → Text → Text) → Bool → ℕ → ℕ → Qube → Option ℕ → Database → (ℕ × Option Text) × Database
unfolding claim_for
claim_free mac updates now org q (some other) db = ((409, none), db)
claim_free mac updates now org q none db =
    claim_for mac updates now org q (first_row (λ o. o.id == org) db.orgs) db

claim_row :
    (ℕ → Text → Text) → Bool → ℕ → ℕ → ℕ × Option Qube → Database → (ℕ × Option Text) × Database
unfolding claim_free
claim_row mac updates now org (missing, none) db = ((missing, none), db)
claim_row mac updates now org (missing, some q) db = claim_free mac updates now org q q.org db

-- `claimQubeHandler`, for a body that decodes: the status, the token that the answer has, and the database.
-- `mac` is `compute_hmac` with its parameters.
unfoldable pub claim_qube :
    (ℕ → Text → Text) → Bool → ℕ → ℕ → Text → Option ℕ → Database → (ℕ × Option Text) × Database
unfolding claim_row
claim_qube mac updates now org key qube_id db =
    claim_row mac updates now org (claimed_row key qube_id db) db

-- The fields that `updateQubeHandler` is given.
set_label : Option Text → ℕ → ℕ → Database → Database
set_label none org qube db = db
set_label (some label) org qube db = record db {
  qubes = update_rows (owned_row qube org) (λ q. record q { label = label }) db.qubes;
}

set_interval : Option ℤ → ℕ → ℕ → Database → Database
set_interval none org qube db = db
set_interval (some sec) org qube db = record db {
  qubes = update_rows (owned_row qube org) (λ q. record q { poll_interval = sec }) db.qubes;
}

-- `updateQubeHandler`, which answers 200: the new hash and the database.
unfoldable pub update_qube :
    (Canonical → Text) → ℕ → ℕ → Option Text → Option ℤ → Database → Text × Database
unfolding set_label set_interval
update_qube digest org qube label sec db =
    recompute_config_hash digest qube (set_interval sec org qube (set_label label org qube db))

abbrev pub ids_of : ℕ → List Reader → ℕ → Bool
ids_of qube [] i = false
ids_of qube (r ∷ rs) i = (r.qube == qube && r.id == i) || ids_of qube rs i

-- Whether a container is that of a reader of the Qube.
abbrev pub is_tied : ℕ → List Reader → Option ℕ → Bool
is_tied qube rs none = false
is_tied qube rs (some i) = ids_of qube rs i

-- Which of the first five statements of `unclaimQubeHandler` work.
pub record Clears : Type 0 where
  pub sensors : Bool
  pub readers : Bool
  pub containers : Bool
  pub commands : Bool
  pub configs : Bool

-- What `unclaimQubeHandler` deletes and resets, the row of the Qube excepted. The error of a statement is ignored. The
-- schema deletes the sensors and the containers of a reader with it.
cleared : Clears → ℕ → Database → Database
cleared w qube db = record db {
  sensors =
      if w.sensors || w.readers
      then delete_rows (λ s. ids_of qube db.readers s.reader) db.sensors
      else db.sensors;
  readers = if w.readers then delete_rows (λ r. r.qube == qube) db.readers else db.readers;
  containers =
      let kept =
        if w.readers
        then delete_rows (λ c. is_tied qube db.readers c.reader) db.containers
        else db.containers in
      if w.containers then delete_rows (λ c. c.qube == qube) kept else kept;
  commands = if w.commands then delete_rows (λ c. c.qube == qube) db.commands else db.commands;
  configs =
      if w.configs
      then update_rows (λ c. c.qube == qube) (λ c. record c { hash = []; version = 0 }) db.configs
      else db.configs;
}

release : ℕ → Database → Database
release qube db = record db {
  qubes =
      update_rows (λ q. q.id == qube)
        (λ q. record q {
          org = none;
          token = none;
          status = unclaimed;
          claimed_at = none;
          ws_connected = false;
          config_version = 0;
        })
        db.qubes;
}

unclaim_row : Clears → Bool → ℕ → Option Qube → Database → ℕ × Database
unfolding cleared release
unclaim_row w updates qube none db = (404, db)
unclaim_row w updates qube (some q) db =
    if not (is_claimed q.org)
    then (409, db)
    else if not updates
    then (500, cleared w qube db)
    else (200, release qube (cleared w qube db))

-- `unclaimQubeHandler`; `updates` is whether its last statement works.
unfoldable pub unclaim_qube : Clears → Bool → ℕ → Database → ℕ × Database
unfolding unclaim_row
unclaim_qube w updates qube db =
    unclaim_row w updates qube (first_row (λ q. q.id == qube) db.qubes) db

-- `liveStatus`, with times in seconds.
unfoldable pub live_status : ℕ → QubeStatus → Option ℕ → QubeStatus
live_status now stored none = stored
live_status now stored (some seen) = if ltb 120 (now - seen) then offline else online
