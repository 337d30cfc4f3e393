-- ===== src/Agent/Exec/Acking.antt =====
-- What becomes of a command of the cloud on a Qube: `ExecCommand` and the acknowledgement behind it
-- (conf-agent/agent/agent.go), together with `validCommands` and `command_ack` of the cloud.
use qube_enterprise_home.Prelude.{
  ℕ, String, ◌≡◌, refl, inl, inr, Bool, true, false, Option, none, some, List, [], ◌∷◌,
  if◌then◌else◌, arith, Bool-cases, ap, sym, ◌∙◌, map, ◌==◌, ◌&&◌,
}
use qube_enterprise_home.Prelude.Text.{Text}
use qube_enterprise_home.Commands.{
  Status, Command, executed, failed, is_open, Table, valid_commands, valid_status, acked, update,
  affected, ack_message,
}
use qube_enterprise_home.Agent.Exec.{
  Payload, Call, Step, Outcome, refuses, calls, container_step, system_step, network_step,
  identity_step, backup_step, service_step, file_step, exec_command, succeeds, ack_status,
}

abbrev pub is_some : Option Step → Bool
is_some none = false
is_some (some s) = true

-- The commands of a list that are unknown to the agent.
unfoldable pub unknown : (String → Option Step) → List String → List String
unknown exec [] = []
unknown exec (c ∷ cs) = let rest = unknown exec cs in if is_some (exec c) then rest else c ∷ rest

-- Of the commands that the cloud accepts, the agent knows all but `mqtt_discover` and `snmp_walk`, whatever the
-- payload and whether Docker runs a swarm or not.
exec_command-unknown :
    (work_dir : Text) (swarm : Bool) (decode : Text → Option Text) (p : Payload)
    → unknown (λ c. exec_command work_dir swarm decode c p) valid_commands
      ≡ "mqtt_discover" ∷ "snmp_walk" ∷ []
unfolding unknown exec_command container_step system_step network_step identity_step backup_step
    service_step file_step
exec_command-unknown work_dir swarm decode p = refl

-- A command that the agent runs, and what its acknowledgement does to the rows of the cloud.
unfoldable pub run_command :
    (Call → Outcome) → Text → Bool → (Text → Option Text) → ℕ → ℕ → String → Payload → Table → Table
run_command world work_dir swarm decode qube id command p t =
    ack_message qube id (ack_status world (exec_command work_dir swarm decode command p)) t

-- Whether a command comes to a call that succeeds: an unknown or a refused one does not.
unfoldable pub ends_well : (Call → Outcome) → Option Step → Bool
ends_well world none = false
ends_well world (some (refuses e)) = false
ends_well world (some (calls c)) = succeeds c (world c)

-- A row with a new status if it is an open row of a command of a Qube, and as it is if not.
unfoldable pub closed : ℕ → ℕ → Status → Command → Command
closed qube id verdict row =
    if row.id == id && (row.qube == qube && is_open row.status)
    then record row { status = verdict }
    else row

update-closes :
    (qube id : ℕ) (s : Status) (t : Table)
    → is_open s ≡ false
    → affected (acked qube id) (update (acked qube id) s t) ≡ 0
unfolding affected update
update-closes qube id s [] h = refl
update-closes qube id s (c ∷ cs) h = elim (Bool-cases (acked qube id c)) [
  | inl hit ↦ ground (arith, h, hit, update-closes qube id s cs h)
  | inr miss ↦ ground (arith, miss, update-closes qube id s cs h)
]

update-map :
    (qube id : ℕ) (s : Status) (t : Table) → update (acked qube id) s t ≡ map (closed qube id s) t
unfolding update closed
update-map qube id s [] = refl
update-map qube id s (c ∷ cs) = ap (λ rest. closed qube id s c ∷ rest) (update-map qube id s cs)

-- The status that an acknowledgement has is the one of the two that the cloud takes for how the call ended.
ack_message-map :
    (world : Call → Outcome) (step : Option Step) (qube id : ℕ) (t : Table)
    → ack_message qube id (ack_status world step) t
      ≡ map (closed qube id (if ends_well world step then executed else failed)) t
unfolding ack_message ack_status ends_well valid_status
ack_message-map world none qube id t = update-map qube id failed t
ack_message-map world (some (refuses e)) qube id t = update-map qube id failed t
ack_message-map world (some (calls c)) qube id t = elim (Bool-cases (succeeds c (world c))) [
  | inl good ↦ rw good (update-map qube id executed t)
  | inr bad ↦ rw bad (update-map qube id failed t)
]

map-closes :
    (qube id : ℕ) (good : Bool) (t : Table)
    → affected (acked qube id) (map (closed qube id (if good then executed else failed)) t) ≡ 0
map-closes qube id true t =
    ap (affected (acked qube id)) (sym (update-map qube id executed t))
    ∙ update-closes qube id executed t refl
map-closes qube id false t =
    ap (affected (acked qube id)) (sym (update-map qube id failed t))
    ∙ update-closes qube id failed t refl

-- Behind the acknowledgement of a command that the agent runs, the rows of that command that were open are
-- `executed` if the command comes to a call that succeeds, and `failed` if the command is unknown, is refused or
-- comes to a call that does not; all other rows are as before, and no row of the command is open.
pub run_command-closes :
    (world : Call → Outcome) (work_dir : Text) (swarm : Bool) (decode : Text → Option Text)
    (qube id : ℕ) (command : String) (p : Payload) (t : Table)
    → let after = run_command world work_dir swarm decode qube id command p t in
      let good = ends_well world (exec_command work_dir swarm decode command p) in
      (after ≡ map (closed qube id (if good then executed else failed)) t)
      × (affected (acked qube id) after ≡ 0)
unfolding run_command
run_command-closes world work_dir swarm decode qube id command p t =
    let step = exec_command work_dir swarm decode command p in
    let result = ack_message-map world step qube id t in
    (result, ap (affected (acked qube id)) result ∙ map-closes qube id (ends_well world step) t)
