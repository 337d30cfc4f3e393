-- ===== src/Agent.antt =====
-- conf-agent: the configuration a device runs, the token it has, and when it asks the cloud for another
-- (conf-agent/agent/agent.go). The answers of the cloud and the outcomes of writes to disk are arguments; a
-- message is sent when the agent hands it to the socket. `.env` and the commands have modules of their own.
pub mod Env
pub mod Sync
pub mod Registration
pub mod Exec
mod Tests
use qube_enterprise_home.Prelude.{
  ℕ, suc, ◌+◌, Bool, true, false, not, ◌&&◌, ◌||◌, Option, none, some, List, [], ◌∷◌, ◌++◌,
  if◌then◌else◌,
}
use qube_enterprise_home.Prelude.Text.{Text, codes, text_eq}

-- `tpapi.SyncConfig`: its hash, the compose file, and `rows` for all that goes into SQLite.
pub record SyncConfig : Type 0 where
  pub hash : Text
  pub compose : Text
  pub rows : Text

-- `Agent`, with what it keeps on disk: the file of the hash, the compose file, the rows in SQLite with the hash
-- that stands among them. `deploys` counts the calls of `docker.Deploy`; `acks` are the hashes of the
-- `config_ack` messages sent, each with the status "applied".
pub record Agent : Type 0 where
  pub local_hash : Text
  pub token : Text
  pub hash_file : Option Text
  pub compose : Option Text
  pub sqlite : Option SyncConfig
  pub deploys : ℕ
  pub acks : List Text

-- `New`, less the trimming of white space: a hash is hexadecimal. A file that is not there leaves "".
restored : Option Text → Text
restored none = []
restored (some hash) = hash

unfoldable pub new_agent : Text → Agent → Agent
unfolding restored
new_agent token disk = record disk {
  local_hash = restored disk.hash_file;
  token = token;
  acks = [];
}

-- Whether the writes of the compose file, of SQLite and of the hash work.
pub record Writes : Type 0 where
  pub compose : Bool
  pub sqlite : Bool
  pub hash : Bool

-- `applyConfig`: whether it returns no error, and what it leaves. `w.sqlite` is that `WriteConfig` carries out all of
-- its statements or gives an error before it commits; that it commits what is left when single statements fail, whose
-- errors it ignores, is not covered here. Two calls from two goroutines are two uses of this definition.
unfoldable pub apply_config : Writes → SyncConfig → Agent → Bool × Agent
apply_config w c a =
    let composed = record a { compose = some c.compose } in
    if not w.compose
    then (false, a)
    else if not w.sqlite
    then (false, composed)
    else (true, record composed { sqlite = some c; deploys = suc a.deploys })

-- The end of `syncConfig`.
unfoldable pub set_hash : Writes → SyncConfig → Agent → Agent
set_hash w c a = record a {
  local_hash = c.hash;
  hash_file = if w.hash then some c.hash else a.hash_file;
}

after_apply : Writes → SyncConfig → Bool × Agent → Agent
unfolding set_hash
after_apply w c (false, a) = a
after_apply w c (true, a) = set_hash w c a

-- `syncConfig`; `none` is a configuration that could not be fetched.
unfoldable pub sync_config : Option SyncConfig → Writes → Agent → Agent
unfolding after_apply
sync_config none w a = a
sync_config (some c) w a = after_apply w c (apply_config w c a)

-- What `getState` comes to: an error, a 401, or the hash of the cloud.
pub data State : Type 0 where
  unavailable : State
  unauthorized : State
  state : Text → State

-- `checkAndSync`, given the token that a registration behind a 401 ends with.
unfoldable pub check_and_sync : State → Text → Option SyncConfig → Writes → Agent → Agent
check_and_sync unavailable token reply w a = a
check_and_sync unauthorized token reply w a = record a { token = token }
check_and_sync (state hash) token reply w a =
    if text_eq hash a.local_hash then a else sync_config reply w a

acknowledge : Agent → Agent
acknowledge a = record a { acks = a.acks ++ (a.local_hash ∷ []) }

-- The case `config_push` of `handleWSMessage`.
unfoldable pub config_push : Text → Option SyncConfig → Writes → Agent → Agent
unfolding acknowledge
config_push hash reply w a =
    if not (text_eq hash []) && not (text_eq hash a.local_hash)
    then acknowledge (sync_config reply w a)
    else a

-- The commands `reload_config` and `update_sqlite`.
unfoldable pub reload_config : Writes → Agent → Agent
reload_config w a = record a { hash_file = if w.hash then some [] else a.hash_file }
