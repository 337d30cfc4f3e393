-- ===== src/Qubes/Resync.antt =====
-- Which changes an agent learns of: the hash of a configuration (cloud/internal/api/hash.go) with the handlers that
-- recompute it (cloud/internal/api/qubes.go), and the agent's check of it (conf-agent/agent/agent.go).
use qube_enterprise_home.Prelude.{
  ℕ, suc, ◌≡◌, ◌≢◌, refl, sym, ap, ◌∙◌, Option, none, some, List, ◌==◌,
}
use qube_enterprise_home.Prelude.Text.{Text, text_eq_iff}
use qube_enterprise_home.Prelude.Int.{ℤ}
use qube_enterprise_home.Qubes.{
  Container, ConfigState, Canonical, Database, first_row, canonical, recompute_config_hash,
  update_qube, set_label, set_interval,
}
use qube_enterprise_home.Qubes.Tables.{first_row-update_self}
use qube_enterprise_home.Qubes.Access.{sync_state, state_row}
use qube_enterprise_home.Agent.{
  SyncConfig, Agent, Writes, State, unavailable, state, check_and_sync,
}
use qube_enterprise_home.Agent.Sync.{all_work, check-converges}

-- What `getState` makes of the answer of `syncStateHandler`.
unfoldable pub to_state : ℕ × Option Text → State
to_state (status, none) = unavailable
to_state (status, some hash) = state hash

set_label-same :
    (label : Option Text) (org qube : ℕ) (db : Database)
    → canonical qube (set_label label org qube db) ≡ canonical qube db
unfolding set_label canonical
set_label-same none org qube db = refl
set_label-same (some label) org qube db = refl

set_interval-same :
    (sec : Option ℤ) (org qube : ℕ) (db : Database)
    → canonical qube (set_interval sec org qube db) ≡ canonical qube db
unfolding set_interval canonical
set_interval-same none org qube db = refl
set_interval-same (some sec) org qube db = refl

set_label-configs :
    (label : Option Text) (org qube : ℕ) (db : Database)
    → (set_label label org qube db).configs ≡ db.configs
unfolding set_label
set_label-configs none org qube db = refl
set_label-configs (some label) org qube db = refl

set_interval-configs :
    (sec : Option ℤ) (org qube : ℕ) (db : Database)
    → (set_interval sec org qube db).configs ≡ db.configs
unfolding set_interval
set_interval-configs none org qube db = refl
set_interval-configs (some sec) org qube db = refl

-- The state that an agent reads behind a recomputation.
sync_state-recomputed :
    (digest : Canonical → Text) (qube : ℕ) (row : ConfigState) (db : Database)
    → first_row (λ c. c.qube == qube) db.configs ≡ some row
    → to_state (sync_state qube (recompute_config_hash digest qube db).1)
      ≡ state (digest (canonical qube db))
unfolding to_state sync_state state_row recompute_config_hash
sync_state-recomputed digest qube row db found =
    rw
      (first_row-update_self (λ c. c.qube == qube)
        (λ c. record c { hash = digest (canonical qube db); version = suc c.version }) row
        db.configs (λ c. refl) found)
      refl

unchanged :
    (hash token : Text) (reply : Option SyncConfig) (w : Writes) (a : Agent)
    → a.local_hash ≡ hash
    → check_and_sync (state hash) token reply w a ≡ a
unfolding check_and_sync
unchanged hash token reply w a e = rw ((text_eq_iff hash a.local_hash).1 (sym e)) refl

-- No change of a Qube's label or interval reaches its agent: an agent that has the hash of the configuration does
-- nothing at the check behind it, although the answer of the update says that it will synchronise.
update_qube-unnoticed :
    (digest : Canonical → Text) (org qube : ℕ) (label : Option Text) (sec : Option ℤ)
    (row : ConfigState) (db : Database) (token : Text) (reply : Option SyncConfig) (w : Writes)
    (a : Agent)
    → first_row (λ c. c.qube == qube) db.configs ≡ some row
    → a.local_hash ≡ digest (canonical qube db)
    → check_and_sync
        (to_state (sync_state qube (update_qube digest org qube label sec db).1))
        token
        reply
        w
        a
      ≡ a
unfolding update_qube
update_qube-unnoticed digest org qube label sec row db token reply w a found current =
    let labelled = set_label label org qube db in
    let after = set_interval sec org qube labelled in
    let same = set_interval-same sec org qube labelled ∙ set_label-same label org qube db in
    let found_after =
      ap (first_row (λ c. c.qube == qube))
        (set_interval-configs sec org qube labelled ∙ set_label-configs label org qube db)
      ∙ found in
    ap (λ s. check_and_sync s token reply w a)
      (sync_state-recomputed digest qube row after found_after)
    ∙ unchanged (digest (canonical qube after)) token reply w a (current ∙ ap digest (sym same))

-- The images of the containers have no part in the hash: however they change, the hash is computed as before.
recompute-containers :
    (digest : Canonical → Text) (qube : ℕ) (containers : List Container) (db : Database)
    → (recompute_config_hash digest qube (record db { containers = containers })).0
      ≡ (recompute_config_hash digest qube db).0
unfolding recompute_config_hash canonical
recompute-containers digest qube containers db = refl

-- A change of the readers, sensors and settings reaches the agent: if the digest tells the two canonical forms apart,
-- an agent with the old hash has the new configuration after one check, and its next check does nothing.
change-reaches :
    (digest : Canonical → Text) (qube : ℕ) (row : ConfigState) (old new : Database) (token : Text)
    (c : SyncConfig) (a : Agent)
    → first_row (λ s. s.qube == qube) new.configs ≡ some row
    → digest (canonical qube old) ≢ digest (canonical qube new)
    → a.local_hash ≡ digest (canonical qube old)
    → c.hash ≡ digest (canonical qube new)
    → let seen = to_state (sync_state qube (recompute_config_hash digest qube new).1) in
      let b = check_and_sync seen token (some c) all_work a in
      (b.sqlite ≡ some c)
      × (b.local_hash ≡ c.hash)
      × (b.compose ≡ some c.compose)
      × (check_and_sync seen token (some c) all_work b ≡ b)
change-reaches digest qube row old new token c a found differ current served =
    let seen = sync_state-recomputed digest qube row new found ∙ ap state (sym served) in
    let (converged, settled) = check-converges token c a (λ e. differ (sym current ∙ e ∙ served)) in
    rw seen (
      ap (λ b. b.sqlite) converged,
      ap (λ b. b.local_hash) converged,
      ap (λ b. b.compose) converged,
      settled,
    )
