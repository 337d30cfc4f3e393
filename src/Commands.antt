-- ===== src/Commands.antt =====
-- The commands that the cloud sends to a Qube (cloud/internal/api/commands.go, the `command_ack` case of
-- cloud/internal/api/websocket.go, cloud/internal/tpapi/commands.go). The table `qube_commands` is a list of
-- rows in the order of `created_at`; an `UPDATE` is a pass over its rows. Its ids and the database's clock, in
-- seconds, are arguments. Payloads and results are carried along and left out.
pub mod Polling
pub mod Acks
pub mod Sending
mod Tests
use qube_enterprise_home.Prelude.{
  ℕ, suc, ◌+◌, Bool, true, false, not, ◌&&◌, ◌||◌, List, [], ◌∷◌, ◌++◌, String, ltb, ◌==◌,
  if◌then◌else◌, str_eq, take,
}

pub data Status : Type 0 where
  pending : Status
  sent : Status
  executed : Status
  failed : Status
  timeout : Status

pub record Command : Type 0 where
  pub id : ℕ
  pub qube : ℕ
  pub command : String
  pub created : ℕ
  pub status : Status

abbrev pub Table : Type 0
Table = List Command

-- `status IN ('pending', 'sent')`
abbrev pub is_open : Status → Bool
is_open pending = true
is_open sent = true
is_open executed = false
is_open failed = false
is_open timeout = false

abbrev pub is_pending : Status → Bool
is_pending pending = true
is_pending sent = false
is_pending executed = false
is_pending failed = false
is_pending timeout = false

-- `UPDATE qube_commands SET status = ... WHERE ...`, and the number of rows it affects.
unfoldable pub update : (Command → Bool) → Status → Table → Table
update where' status [] = []
update where' status (c ∷ cs) =
    (if where' c then record c { status = status } else c) ∷ update where' status cs

unfoldable pub affected : (Command → Bool) → Table → ℕ
affected where' [] = 0
affected where' (c ∷ cs) = let rest = affected where' cs in if where' c then suc rest else rest

unfoldable pub select : (Command → Bool) → Table → Table
select where' [] = []
select where' (c ∷ cs) = let rest = select where' cs in if where' c then c ∷ rest else rest

-- `validCommands`
abbrev pub valid_commands : List String
valid_commands =
    "ping" ∷ "restart_qube" ∷ "restart_reader" ∷ "stop_container" ∷ "reload_config"
    ∷ "update_sqlite" ∷ "get_logs" ∷ "list_containers" ∷ "reboot" ∷ "shutdown" ∷ "get_info"
    ∷ "reset_ips" ∷ "set_eth" ∷ "set_wifi" ∷ "set_firewall" ∷ "set_name" ∷ "set_timezone"
    ∷ "backup_data" ∷ "restore_data" ∷ "backup_image" ∷ "restore_image" ∷ "repair_fs"
    ∷ "service_add" ∷ "service_rm" ∷ "service_edit" ∷ "put_file" ∷ "get_file" ∷ "mqtt_discover"
    ∷ "snmp_walk" ∷ []

unfoldable pub lists : String → List String → Bool
lists s [] = false
lists s (x ∷ xs) = str_eq x s || lists s xs

-- `sendCommandHandler` up to the delivery: the status to answer, 202 if a row is inserted. `owned` is whether
-- the Qube is of the caller's organisation, `inserts` whether the insertion works.
unfoldable pub queue_command : Bool → Bool → ℕ → ℕ → ℕ → String → Table → ℕ × Table
unfolding lists
queue_command owned inserts now id qube command t =
    if str_eq command "" || not (lists command valid_commands)
    then (400, t)
    else if not owned
    then (404, t)
    else if not inserts
    then (500, t)
    else (
      202,
      t
          ++ (record { id = id; qube = qube; command = command; created = now; status = pending }
              ∷ []),
    )

-- Its last step, behind a delivery over the WebSocket.
unfoldable pub mark_sent : ℕ → Table → Table
mark_sent id t = update (λ c. c.id == id) sent t

-- The rows that an acknowledgement by a Qube is for.
abbrev pub acked : ℕ → ℕ → Command → Bool
acked qube id c = c.id == id && (c.qube == qube && is_open c.status)

unfoldable pub valid_status : String → Bool
valid_status s = str_eq s "executed" || str_eq s "failed"

abbrev pub to_status : String → Status
to_status s = if str_eq s "executed" then executed else failed

-- The `command_ack` case of `handleIncomingMessage`; an id is never "".
unfoldable pub ack_message : ℕ → ℕ → String → Table → Table
unfolding valid_status
ack_message qube id status t =
    if valid_status status then update (acked qube id) (to_status status) t else t

-- `ackCommandHandler`, for a body that decodes and a database that answers.
unfoldable pub ack_request : ℕ → ℕ → String → Table → ℕ × Table
unfolding valid_status
ack_request qube id status t =
    let given = if str_eq status "" then "executed" else status in
    if not (valid_status given)
    then (400, t)
    else if affected (acked qube id) t == 0
    then (404, t)
    else (200, update (acked qube id) (to_status given) t)

abbrev pub due : ℕ → Command → Bool
due qube c = c.qube == qube && is_open c.status

abbrev pub expired : ℕ → ℕ → Command → Bool
expired qube now c = c.qube == qube && (is_open c.status && ltb (c.created + 300) now)

-- The loop over `ids` of `pollCommandsHandler`.
unfoldable pub mark_polled : Table → Table → Table
mark_polled [] t = t
mark_polled (c ∷ cs) t = mark_polled cs (update (λ d. d.id == c.id && is_pending d.status) sent t)

-- `pollCommandsHandler`: the commands that it returns, as they were read.
unfoldable pub poll : ℕ → ℕ → Table → List Command × Table
poll qube now t =
    let cmds = take 10 (select (due qube) t) in
    (cmds, update (expired qube now) timeout (mark_polled cmds t))
