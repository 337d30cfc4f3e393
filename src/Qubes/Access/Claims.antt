-- ===== src/Qubes/Access/Claims.antt =====
-- A claim, the token behind it, and an unclaim (cloud/internal/api/qubes.go, cloud/internal/tpapi/sync.go,
-- cloud/internal/tpapi/router.go, cloud/internal/api/websocket.go).
use qube_enterprise_home.Prelude.{
  ℕ, ◌≡◌, refl, Bool, true, false, not, none, some, [], ◌++◌, ◌==◌, ◌&&◌, ◌||◌, ◌⊎◌, if◌then◌else◌,
}
use qube_enterprise_home.Prelude.Text.{Text, codes, text_eq, text_eq_iff, has_prefix}
use qube_enterprise_home.Qubes.{
  Qube, Org, Database, offline, first_row, rows, key_is, claimed_row, by_id, set_claimed, claim_for,
  claim_free, claim_row, claim_qube, Clears, is_tied, ids_of,
}
use qube_enterprise_home.Qubes.Access.{
  granted, org_row, join_org, org_of_qube, check_token, bearer, qube_auth, ws_auth, device_register,
  register_row, register_claimed, secret_of,
}
use qube_enterprise_home.Qubes.Tables.{first_row-update_self, first_row-and, first_row-holds}

-- What a check gives a Qube of an organisation that exists.
module _ (mac : ℕ → Text → Text) (qube : ℕ) (q : Qube) (o : Org) (db : Database) where
  module _ (by_id : first_row (λ r. r.id == qube) db.qubes ≡ some q) (mine : q.org ≡ some o.id)
      (exists : first_row (λ p. p.id == o.id) db.orgs ≡ some o) where
    org_of_qube-found : org_of_qube qube db ≡ some o
    unfolding org_of_qube join_org org_row
    org_of_qube-found = rw (by_id, mine, exists) refl

    pub qube_auth-granted :
        qube_auth mac (some qube) (codes "Bearer " ++ mac qube o.secret) db ≡ granted qube o.id
    unfolding qube_auth check_token bearer has_prefix
    qube_auth-granted =
        rw (org_of_qube-found, (text_eq_iff (mac qube o.secret) (mac qube o.secret)).1 refl) refl

    ws_auth-granted :
        text_eq (mac qube o.secret) [] ≡ false
        → ws_auth mac (some qube) (mac qube o.secret) db ≡ granted qube o.id
    unfolding ws_auth check_token
    ws_auth-granted h =
        rw (org_of_qube-found, (text_eq_iff (mac qube o.secret) (mac qube o.secret)).1 refl, h) refl

    pub device_register-claimed :
        (works : Bool) (now : ℕ) (key : Text)
        → text_eq key [] ≡ false
        → key_is key q ≡ true
        → (device_register mac works now (some qube) key db).0 ≡ (200, some (mac qube o.secret))
    unfolding device_register register_row register_claimed secret_of org_row
    device_register-claimed works now key h k =
        rw (h, first_row-and (λ r. r.id == qube) (key_is key) q db.qubes by_id k, mine, exists) refl

claim_qube-claimed :
    (mac : ℕ → Text → Text) (now : ℕ) (key : Text) (q : Qube) (o : Org) (db : Database)
    → text_eq key [] ≡ false
    → first_row (key_is key) db.qubes ≡ some q
    → q.org ≡ none
    → first_row (λ p. p.id == o.id) db.orgs ≡ some o
    → claim_qube mac true now o.id key none db
      ≡ set_claimed true now o.id (mac q.id o.secret) q.id db
unfolding claim_qube claimed_row claim_row claim_free claim_for
claim_qube-claimed mac now key q o db h by_key free exists = rw (h, by_key, free, exists) refl

-- A claim by the key of an unclaimed Qube, by an organisation that exists: the answer has the token that the Qube
-- gets when it registers itself with its key, and the TP-API and the WebSocket take that token, for that
-- organisation, from then on.
pub claim-grants :
    (mac : ℕ → Text → Text) (now later : ℕ) (works : Bool) (key : Text) (q : Qube) (o : Org)
    (db : Database)
    → text_eq key [] ≡ false
    → first_row (key_is key) db.qubes ≡ some q
    → first_row (λ r. r.id == q.id) db.qubes ≡ some q
    → q.org ≡ none
    → first_row (λ p. p.id == o.id) db.orgs ≡ some o
    → text_eq (mac q.id o.secret) [] ≡ false
    → let token = mac q.id o.secret in
      let after = (claim_qube mac true now o.id key none db).1 in
      ((claim_qube mac true now o.id key none db).0 ≡ (200, some token))
      × ((device_register mac works later (some q.id) key after).0 ≡ (200, some token))
      × (qube_auth mac (some q.id) (codes "Bearer " ++ token) after ≡ granted q.id o.id)
      × (ws_auth mac (some q.id) token after ≡ granted q.id o.id)
unfolding set_claimed key_is
claim-grants mac now later works key q o db nonempty by_key by_id free exists token_nonempty =
    let token = mac q.id o.secret in
    let claimed = record q {
      org = some o.id;
      token = some token;
      status = offline;
      claimed_at = some now;
      config_version = 1;
    } in
    let after = (set_claimed true now o.id token q.id db).1 in
    let found =
      first_row-update_self (λ r. r.id == q.id)
        (λ r. record r {
          org = some o.id;
          token = some token;
          status = offline;
          claimed_at = some now;
          config_version = 1;
        })
        q db.qubes (λ r. refl) by_id in
    rw (claim_qube-claimed mac now key q o db nonempty by_key free exists) (
      refl,
      device_register-claimed mac q.id claimed o after found refl exists works later key nonempty
          (first_row-holds (key_is key) q db.qubes by_key),
      qube_auth-granted mac q.id claimed o after found refl exists,
      ws_auth-granted mac q.id claimed o after found refl exists token_nonempty,
    )

module _ (mac : ℕ → Text → Text) (qube : ℕ) (q : Qube) (db : Database)
    (by_id : first_row (λ r. r.id == qube) db.qubes ≡ some q) (free : q.org ≡ none) where
  pub device_register-waits :
      (works : Bool) (now : ℕ) (key : Text)
      → text_eq key [] ≡ false
      → key_is key q ≡ true
      → (device_register mac works now (some qube) key db).0 ≡ (202, none)
  unfolding device_register register_row register_claimed
  device_register-waits works now key h k =
      rw (h, first_row-and (λ r. r.id == qube) (key_is key) q db.qubes by_id k, free) refl

-- What an unclaim leaves of other Qubes: their readers, commands, and checks, the containers that are not of a reader of
-- the unclaimed one, and all settings.
unfoldable pub KeepsOther : ℕ → ℕ → Database → Database → Type 0
KeepsOther other qube db after =
    (rows (λ r. r.qube == other) after.readers ≡ rows (λ r. r.qube == other) db.readers)
    × (rows (λ c. c.qube == other && not (is_tied qube db.readers c.reader)) after.containers
        ≡ rows (λ c. c.qube == other && not (is_tied qube db.readers c.reader)) db.containers)
    × (rows (λ c. c.qube == other) after.commands ≡ rows (λ c. c.qube == other) db.commands)
    × (org_of_qube other after ≡ org_of_qube other db)

-- What an unclaim leaves of the Qube: no reader and no command, and no container and no sensor of a reader, where the
-- statement that deletes them works; and the rows of its readers and commands where it does not. No sensor of another
-- reader goes, and no setting, be it the Qube's.
unfoldable pub HasCleared : Clears → ℕ → Database → Database → Type 0
HasCleared w qube db after =
    (rows (λ r. r.qube == qube) after.readers
      ≡ (if w.readers then [] else rows (λ r. r.qube == qube) db.readers))
    × (rows (λ c. c.qube == qube) after.commands
        ≡ (if w.commands then [] else rows (λ c. c.qube == qube) db.commands))
    × ((w.containers ≡ false) ⊎ (rows (λ c. c.qube == qube) after.containers ≡ []))
    × (rows (λ s. ids_of qube db.readers s.reader) after.sensors ≡ (
        if w.sensors || w.readers
        then []
        else rows (λ s. ids_of qube db.readers s.reader) db.sensors))
    × (rows (λ s. not (ids_of qube db.readers s.reader)) after.sensors
        ≡ rows (λ s. not (ids_of qube db.readers s.reader)) db.sensors)
    × (after.settings ≡ db.settings)
