-- ===== src/Agent/Exec.antt =====
-- `ExecCommand` of conf-agent/agent/agent.go: which program, script or file a command comes to. A payload is the
-- list of its fields; whether Docker runs a swarm, and the decoder of base64, are parameters, and so is what a
-- call comes to. The replies are left out but for their status.
pub mod Safety
pub mod Acking
use qube_enterprise_home.Prelude.{
  ℕ, String, Bool, true, false, not, ◌&&◌, ◌||◌, Option, none, some, List, [], ◌∷◌, ◌++◌,
  if◌then◌else◌, str_eq, ◌==◌,
}
use qube_enterprise_home.Prelude.Text.{Text, codes, text_eq, contains, has_byte}

-- A field of a payload: a text, a number by the digits of its integer part, or anything else.
pub data Value : Type 0 where
  text : Text → Value
  number : Text → Value
  other : Value

abbrev pub Payload : Type 0
Payload = List (String × Value)

-- `x, _ := payload[key].(string)`
unfoldable pub field : String → Payload → Text
field key [] = []
field key ((k, text t) ∷ rest) = if str_eq k key then t else field key rest
field key ((k, number d) ∷ rest) = if str_eq k key then [] else field key rest
field key ((k, other) ∷ rest) = if str_eq k key then [] else field key rest

-- `l, ok := payload[key].(float64)`, with a default.
unfoldable pub digits_or : Text → String → Payload → Text
digits_or d key [] = d
digits_or d key ((k, text t) ∷ rest) = if str_eq k key then d else digits_or d key rest
digits_or d key ((k, number n) ∷ rest) = if str_eq k key then n else digits_or d key rest
digits_or d key ((k, other) ∷ rest) = if str_eq k key then d else digits_or d key rest

-- `docker.Run`, `docker.RestartService`, `runScript`, the script in maintenance mode, and the files.
pub data Call : Type 0 where
  runs : List Text → Call
  restarts : Text → Call
  script : Text → List Text → Call
  maintains : Text → Call
  clears_hash : Call
  reboots : Call
  shuts_down : Call
  writes : Text → Text → Call
  reads : Text → Call

-- What a known command comes to: an error before anything is done, or a call.
pub data Step : Type 0 where
  refuses : String → Step
  calls : Call → Step

abbrev pub is_empty : Text → Bool
is_empty t = text_eq t []

abbrev pub or_text : Text → Text → Text
or_text t default = if text_eq t [] then default else t

unfoldable pub compose_logs : Text → Text → Text → List Text
compose_logs work_dir lines service =
    codes "docker"
    ∷ codes "compose"
    ∷ codes "-f"
    ∷ (work_dir ++ codes "/docker-compose.yml")
    ∷ codes "logs"
    ∷ (codes "--tail=" ++ lines)
    ∷ (if is_empty service then [] else service ∷ [])

-- Connectivity and containers.
unfoldable pub container_step : Text → Bool → String → Payload → Option Step
container_step work_dir swarm command p =
    let service = field "service" p in
    if str_eq command "ping"
    then some (
        calls (
          runs (
            codes "ping"
            ∷ codes "-c"
            ∷ codes "4"
            ∷ codes "-W"
            ∷ codes "2"
            ∷ or_text (field "target" p) (codes "8.8.8.8")
            ∷ [])))
    else if str_eq command "restart_reader"
    then some (
        let named = or_text service (field "reader_id" p) in
        if is_empty named then refuses "reader_id or service required" else calls (restarts named))
    else if str_eq command "stop_container"
    then some (
        if is_empty service
        then refuses "service name required"
        else calls (runs (codes "docker" ∷ codes "stop" ∷ service ∷ [])))
    else if str_eq command "list_containers"
    then some (
        calls (
          runs (
            codes "docker"
            ∷ codes "ps"
            ∷ codes "--format"
            ∷ codes "{{.Names}}\t{{.Status}}\t{{.Image}}"
            ∷ [])))
    else if str_eq command "get_logs"
    then some (
        let lines = digits_or (codes "100") "lines" p in
        if swarm && not (is_empty service)
        then calls (
            runs (
              codes "docker"
              ∷ codes "service"
              ∷ codes "logs"
              ∷ (codes "--tail=" ++ lines)
              ∷ codes "--no-task-ids"
              ∷ (codes "qube_" ++ service)
              ∷ []))
        else calls (runs (compose_logs work_dir lines service)))
    else none

-- The local hash, reboot and shutdown.
unfoldable pub system_step : String → Payload → Option Step
system_step command p =
    if str_eq command "reload_config" || str_eq command "update_sqlite"
    then some (calls clears_hash)
    else if str_eq command "restart_qube" || str_eq command "reboot"
    then some (calls reboots)
    else if str_eq command "shutdown"
    then some (calls shuts_down)
    else none

eth_args : Text → Payload → List Text
eth_args mode p =
    if text_eq mode (codes "static")
    then field "address" p ∷ field "gateway" p ∷ field "dns" p ∷ []
    else []

wifi_args : Text → Text → Payload → List Text
wifi_args iface mode p =
    let key = or_text (field "key_mgmt" p) (codes "psk") in
    if text_eq mode (codes "auto")
    then iface ∷ codes "auto" ∷ field "ssid" p ∷ field "password" p ∷ key ∷ []
    else iface
      ∷ field "address" p
      ∷ field "gateway" p
      ∷ field "dns" p
      ∷ field "ssid" p
      ∷ field "password" p
      ∷ key
      ∷ []

unfoldable pub network_step : String → Payload → Option Step
unfolding eth_args wifi_args
network_step command p =
    let iface = field "interface" p in
    let mode = field "mode" p in
    let missing = is_empty iface || is_empty mode in
    if str_eq command "reset_ips"
    then some (calls (script (codes "scripts/reset_ips.sh") []))
    else if str_eq command "set_eth"
    then some (
        if missing
        then refuses "interface and mode required"
        else calls (script (codes "scripts/set_eth.sh") (iface ∷ mode ∷ eth_args mode p)))
    else if str_eq command "set_wifi"
    then some (
        if missing
        then refuses "interface and mode required"
        else calls (script (codes "scripts/set_wifi.sh") (wifi_args iface mode p)))
    else if str_eq command "set_firewall"
    then some (
        if is_empty (field "rules" p)
        then refuses "rules required (e.g. tcp:10.0.0.0/8:1883)"
        else calls (script (codes "scripts/set_firewall.sh") (field "rules" p ∷ [])))
    else none

unfoldable pub identity_step : String → Payload → Option Step
identity_step command p =
    if str_eq command "set_name"
    then some (
        if is_empty (field "name" p)
        then refuses "name required"
        else calls (script (codes "scripts/set_name.sh") (field "name" p ∷ [])))
    else if str_eq command "set_timezone"
    then some (
        if is_empty (field "timezone" p)
        then refuses "timezone required (e.g. Asia/Colombo)"
        else calls (script (codes "scripts/set_timezone.sh") (field "timezone" p ∷ [])))
    else if str_eq command "get_info"
    then some (calls (script (codes "scripts/get_info.sh") []))
    else none

mount_step : Text → Payload → Step
mount_step name p =
    if is_empty (field "type" p) || is_empty (field "path" p)
    then refuses "type and path required"
    else calls
        (script name (field "type" p ∷ field "path" p ∷ field "user" p ∷ field "pass" p ∷ []))

-- Backups, and what needs maintenance mode.
unfoldable pub backup_step : String → Payload → Option Step
unfolding mount_step
backup_step command p =
    if str_eq command "backup_data"
    then some (mount_step (codes "scripts/backup_data.sh") p)
    else if str_eq command "restore_data"
    then some (mount_step (codes "scripts/restore_data.sh") p)
    else if str_eq command "backup_image"
    then some (calls (maintains (codes "scripts/backup_image.sh")))
    else if str_eq command "restore_image"
    then some (calls (maintains (codes "scripts/restore_image.sh")))
    else if str_eq command "repair_fs"
    then some (calls (maintains (codes "scripts/repair_fs.sh")))
    else none

unfoldable pub service_step : String → Payload → Option Step
service_step command p =
    let name = field "name" p in
    if str_eq command "service_add"
    then some (
        if is_empty name || is_empty (field "type" p) || is_empty (field "version" p)
        then refuses "name, type, and version required"
        else calls (
            script (codes "scripts/service_add.sh")
              (name ∷ field "type" p ∷ field "version" p ∷ field "ports" p ∷ [])))
    else if str_eq command "service_rm"
    then some (
        if is_empty name
        then refuses "name required"
        else calls (script (codes "scripts/service_rm.sh") (name ∷ [])))
    else if str_eq command "service_edit"
    then some (
        if is_empty name
        then refuses "name required"
        else calls (script (codes "scripts/service_edit.sh") (name ∷ field "ports" p ∷ [])))
    else none

-- `pathValidate`
unfoldable pub path_validate : Text → Bool
path_validate txt =
    not (contains txt (codes ".."))
    && (not (has_byte b'$' txt) && (not (has_byte b'\\' txt) && not (has_byte b';' txt)))

write_step : Text → Option Text → Step
write_step path none = refuses "invalid base64"
write_step path (some bytes) = calls (writes (codes "/mit" ++ path) bytes)

unfoldable pub file_step : (Text → Option Text) → String → Payload → Option Step
unfolding write_step
file_step decode command p =
    let path = field "path" p in
    if str_eq command "put_file"
    then some (
        if is_empty path || is_empty (field "data" p)
        then refuses "path and data required"
        else if not (path_validate path)
        then refuses "invalid path"
        else write_step path (decode (field "data" p)))
    else if str_eq command "get_file"
    then some (
        if is_empty path
        then refuses "path required"
        else if not (path_validate path)
        then refuses "invalid path"
        else calls (reads (codes "/mit" ++ path)))
    else none

abbrev pub or_else : Option Step → Option Step → Option Step
or_else (some s) rest = some s
or_else none rest = rest

-- `ExecCommand` up to its call; `none` is an unknown command.
unfoldable pub exec_command : Text → Bool → (Text → Option Text) → String → Payload → Option Step
exec_command work_dir swarm decode command p = or_else (container_step work_dir swarm command p) (
    or_else (system_step command p) (
      or_else (network_step command p) (
        or_else (identity_step command p) (
          or_else (backup_step command p)
            (or_else (service_step command p) (file_step decode command p))))))

-- What a call comes to: no error, the exit code of a program, another error.
pub data Outcome : Type 0 where
  ok : Outcome
  exits : ℕ → Outcome
  breaks : Outcome

-- `isMaintenanceReboot` counts the exit code 99 as success; the calls that only start something give no error.
unfoldable pub succeeds : Call → Outcome → Bool
succeeds clears_hash o = true
succeeds reboots o = true
succeeds shuts_down o = true
succeeds (maintains s) ok = true
succeeds (maintains s) (exits code) = code == 99
succeeds (maintains s) breaks = false
succeeds _ ok = true
succeeds _ (exits code) = false
succeeds _ breaks = false

-- The status of the acknowledgement, in `handleWSMessage` and in `executeCommandsHTTP`.
unfoldable pub ack_status : (Call → Outcome) → Option Step → String
ack_status world none = "failed"
ack_status world (some (refuses e)) = "failed"
ack_status world (some (calls c)) = if succeeds c (world c) then "executed" else "failed"
