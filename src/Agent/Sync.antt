-- ===== src/Agent/Sync.antt =====
-- What the hash of an agent says (`syncConfig`, `checkAndSync`, `handleWSMessage`, conf-agent/agent/agent.go).
use qube_enterprise_home.Prelude.{
  suc, ◌≡◌, ◌≢◌, refl, sym, ◌⊎◌, inl, inr, true, not, ◌&&◌, Option, none, some, List, [], ◌∷◌, ◌++◌,
  arith, Bool-cases,
}
use qube_enterprise_home.Prelude.Text.{Text, text_eq, text_eq_iff}
use qube_enterprise_home.Agent.{
  SyncConfig, Agent, Writes, apply_config, set_hash, after_apply, sync_config, State, unavailable,
  unauthorized, state, check_and_sync, acknowledge, config_push, reload_config,
}

-- The agent has no hash, or its hash is that of the configuration in SQLite.
abbrev pub IsCurrent : Agent → Type 0
IsCurrent a =
    (a.local_hash ≡ []) ⊎ ((c : SyncConfig) × (a.sqlite ≡ some c) × (a.local_hash ≡ c.hash))

sync_config-IsCurrent :
    (reply : Option SyncConfig) (w : Writes) (a : Agent)
    → IsCurrent a
    → IsCurrent (sync_config reply w a)
unfolding sync_config after_apply apply_config set_hash
sync_config-IsCurrent none w a h = h
sync_config-IsCurrent (some c) w a h = elim (Bool-cases w.compose) [
  | inr off ↦ rw off h
  | inl on ↦ elim (Bool-cases w.sqlite) [
    | inr off' ↦ rw (on, off') h
    | inl on' ↦ rw (on, on') (inr (c, refl, refl))
  ]
]

-- What happens to an agent, from the start of its process on.
pub data Event : Type 0 where
  checks : State → Text → Option SyncConfig → Writes → Event
  pushed : Text → Option SyncConfig → Writes → Event
  reloads : Writes → Event

unfoldable pub handle : Event → Agent → Agent
handle (checks s token reply w) a = check_and_sync s token reply w a
handle (pushed hash reply w) a = config_push hash reply w a
handle (reloads w) a = reload_config w a

unfoldable pub handle_all : List Event → Agent → Agent
handle_all [] a = a
handle_all (e ∷ es) a = handle_all es (handle e a)

handle-IsCurrent : (e : Event) (a : Agent) → IsCurrent a → IsCurrent (handle e a)
unfolding handle check_and_sync config_push acknowledge reload_config
handle-IsCurrent (checks unavailable token reply w) a h = h
handle-IsCurrent (checks unauthorized token reply w) a h = h
handle-IsCurrent (checks (state hash) token reply w) a h =
    elim (Bool-cases (text_eq hash a.local_hash)) [
      | inl same ↦ rw same h
      | inr other ↦ rw other (sync_config-IsCurrent reply w a h)
    ]
handle-IsCurrent (pushed hash reply w) a h =
    elim (Bool-cases (not (text_eq hash []) && not (text_eq hash a.local_hash))) [
      | inl goes ↦ rw goes (sync_config-IsCurrent reply w a h)
      | inr stays ↦ rw stays h
    ]
handle-IsCurrent (reloads w) a h = h

-- Whatever the cloud answers, pushes and commands, one behind another, and whichever writes give an error: an agent that
-- starts with no hash, or with that of the configuration in SQLite, never has the hash of a configuration that is not
-- in SQLite. Events that interleave are below; statements that fail without an error are not covered.
handle_all-IsCurrent : (es : List Event) (a : Agent) → IsCurrent a → IsCurrent (handle_all es a)
unfolding handle_all
handle_all-IsCurrent [] a h = h
handle_all-IsCurrent (e ∷ es) a h = handle_all-IsCurrent es (handle e a) (handle-IsCurrent e a h)

abbrev pub all_work : Writes
all_work = record { compose = true; sqlite = true; hash = true }

-- When the cloud is reached and the writes work, one check makes the agent's hash that of the cloud, with that
-- configuration in SQLite, in the compose file and deployed if the hash was another; the next check does nothing.
pub check-converges :
    (token : Text) (c : SyncConfig) (a : Agent)
    → a.local_hash ≢ c.hash
    → let b = check_and_sync (state c.hash) token (some c) all_work a in
      (b ≡ record a {
        local_hash = c.hash;
        hash_file = some c.hash;
        compose = some c.compose;
        sqlite = some c;
        deploys = suc a.deploys;
      })
      × (check_and_sync (state c.hash) token (some c) all_work b ≡ b)
unfolding check_and_sync sync_config after_apply apply_config set_hash
check-converges token c a h = elim (Bool-cases (text_eq c.hash a.local_hash)) [
  | inl same ↦ absurd (h (sym ((text_eq_iff c.hash a.local_hash).0 same)))
  | inr other ↦ rw (other, (text_eq_iff c.hash c.hash).1 refl) (refl, refl)
]

-- Behind `reload_config` the next check of an agent that has the cloud's hash fetches nothing, although the file
-- of the hash is empty: only the one in memory counts.
reload-ignored :
    (token : Text) (reply : Option SyncConfig) (w : Writes) (a : Agent)
    → check_and_sync (state a.local_hash) token reply w (reload_config all_work a)
      ≡ record a { hash_file = some [] }
unfolding check_and_sync reload_config
reload-ignored token reply w a = rw ((text_eq_iff a.local_hash a.local_hash).1 refl) refl

-- A push whose configuration cannot be fetched is acknowledged all the same, as applied, with the hash that the
-- agent had before.
push-acknowledged :
    (hash : Text) (w : Writes) (a : Agent)
    → hash ≢ []
    → hash ≢ a.local_hash
    → config_push hash none w a ≡ record a { acks = a.acks ++ (a.local_hash ∷ []) }
unfolding config_push acknowledge sync_config
push-acknowledged hash w a h k = ground (arith, text_eq_iff hash [], text_eq_iff hash a.local_hash)

-- A push and a check run in two goroutines. If each fetches a configuration, the one that is fetched first can be
-- the last one written and the first one whose hash is set: then the agent has the hash of the newer
-- configuration with the older one in SQLite, and no later check against that hash repairs it.
interleaved-stale :
    (older newer : SyncConfig) (a : Agent) (token : Text) (reply : Option SyncConfig) (w : Writes)
    → let written = (apply_config all_work older (apply_config all_work newer a).1).1 in
      let b = set_hash all_work newer (set_hash all_work older written) in
      (b.local_hash ≡ newer.hash)
      × (b.sqlite ≡ some older)
      × (check_and_sync (state newer.hash) token reply w b ≡ b)
unfolding apply_config set_hash check_and_sync
interleaved-stale older newer a token reply w =
    (refl, refl, rw ((text_eq_iff newer.hash newer.hash).1 refl) refl)
