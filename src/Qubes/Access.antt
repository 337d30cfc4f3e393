-- ===== src/Qubes/Access.antt =====
-- How a Qube comes by its token and how the cloud checks it: `deviceRegisterHandler`, `syncStateHandler` and
-- `heartbeatHandler` (cloud/internal/tpapi/sync.go), `qubeAuthMiddleware` (cloud/internal/tpapi/router.go), the
-- checks of `wsHandler` (cloud/internal/api/websocket.go).
pub mod Claims
use qube_enterprise_home.Prelude.{
  ℕ, Bool, true, false, not, ◌&&◌, ◌||◌, Option, none, some, List, [], ◌∷◌, ◌==◌, if◌then◌else◌,
  drop, length,
}
use qube_enterprise_home.Prelude.Text.{Text, codes, text_eq, has_prefix}
use qube_enterprise_home.Qubes.{
  Qube, Org, ConfigState, Database, online, first_row, update_rows, key_is,
}

-- `JOIN organisations o ON o.id = q.org_id`
unfoldable pub org_row : Option ℕ → Database → Option Org
org_row none db = none
org_row (some org) db = first_row (λ o. o.id == org) db.orgs

join_org : Option Qube → Database → Option Org
unfolding org_row
join_org none db = none
join_org (some q) db = org_row q.org db

-- The query of both checks: the organisation of a claimed Qube.
unfoldable pub org_of_qube : ℕ → Database → Option Org
unfolding join_org
org_of_qube qube db = join_org (first_row (λ q. q.id == qube) db.qubes) db

-- What a check ends with: a 401, or the ids in the context of the request.
pub data Access : Type 0 where
  denied : Access
  granted : ℕ → ℕ → Access

check_token : (ℕ → Text → Text) → ℕ → Text → Option Org → Access
check_token mac qube token none = denied
check_token mac qube token (some o) =
    if text_eq (mac qube o.secret) token then granted qube o.id else denied

bearer : Text
bearer = codes "Bearer "

-- `qubeAuthMiddleware`: `none` is an empty `X-Qube-ID`.
unfoldable pub qube_auth : (ℕ → Text → Text) → Option ℕ → Text → Database → Access
unfolding check_token bearer
qube_auth mac none auth db = denied
qube_auth mac (some qube) auth db =
    if not (has_prefix auth bearer)
    then denied
    else check_token mac qube (drop (length bearer) auth) (org_of_qube qube db)

-- `wsHandler` up to the upgrade.
unfoldable pub ws_auth : (ℕ → Text → Text) → Option ℕ → Text → Database → Access
unfolding check_token
ws_auth mac none token db = denied
ws_auth mac (some qube) token db =
    if text_eq token [] then denied else check_token mac qube token (org_of_qube qube db)

-- `UPDATE qubes SET last_seen = NOW(), status = 'online'`
abbrev pub seen_row : ℕ → Qube → Qube
seen_row now q = record q { last_seen = some now; status = online }

unfoldable pub mark_seen : Bool → ℕ → ℕ → Database → Database
mark_seen works now qube db =
    if works
    then record db { qubes = update_rows (λ q. q.id == qube) (seen_row now) db.qubes }
    else db

secret_of : Option Org → Text
secret_of none = []
secret_of (some o) = o.secret

register_claimed :
    (ℕ → Text → Text) → Bool → ℕ → ℕ → Option ℕ → Database → (ℕ × Option Text) × Database
unfolding secret_of mark_seen
register_claimed mac works now qube none db = ((202, none), db)
register_claimed mac works now qube (some org) db =
    ((200, some (mac qube (secret_of (org_row (some org) db)))), mark_seen works now qube db)

register_row :
    (ℕ → Text → Text) → Bool → ℕ → ℕ → Option Qube → Database → (ℕ × Option Text) × Database
unfolding register_claimed
register_row mac works now qube none db = ((401, none), db)
register_row mac works now qube (some q) db = register_claimed mac works now qube q.org db

-- `deviceRegisterHandler`, for a database that answers: the status, `qube_token`, and the database; `works` is
-- whether the update of `last_seen` does.
unfoldable pub device_register :
    (ℕ → Text → Text) → Bool → ℕ → Option ℕ → Text → Database → (ℕ × Option Text) × Database
unfolding register_row
device_register mac works now none key db = ((400, none), db)
device_register mac works now (some qube) key db =
    if text_eq key []
    then ((400, none), db)
    else register_row mac works now qube (first_row (λ q. q.id == qube && key_is key q) db.qubes) db

-- `heartbeatHandler`
unfoldable pub heartbeat : Bool → ℕ → ℕ → Database → ℕ × Database
unfolding mark_seen
heartbeat works now qube db = if not works then (500, db) else (200, mark_seen works now qube db)

unfoldable pub state_row : Option ConfigState → ℕ × Option Text
state_row none = (500, none)
state_row (some c) = (200, some c.hash)

-- `syncStateHandler`: the status and the hash.
unfoldable pub sync_state : ℕ → Database → ℕ × Option Text
unfolding state_row
sync_state qube db = state_row (first_row (λ c. c.qube == qube) db.configs)
