-- ===== src/Agent/Exec/Safety.antt =====
-- Which files the commands of the cloud reach (`ExecCommand`, `pathValidate`, conf-agent/agent/agent.go).
use qube_enterprise_home.Prelude.{
  String, ◌≡◌, refl, inl, inr, Bool, true, false, not, Option, none, some, List, [], ◌∷◌, ◌++◌,
  if◌then◌else◌, arith, Bool-cases, str_eq, ◌||◌, ◌⊎◌,
}
use qube_enterprise_home.Prelude.Text.{Text, codes, contains, has_byte, has_prefix}
use qube_enterprise_home.Agent.Exec.{
  Payload, Step, field, clears_hash, writes, reads, refuses, calls, or_else, container_step,
  system_step, network_step, identity_step, backup_step, service_step, path_validate, file_step,
  write_step, mount_step, exec_command,
}

-- A path behind the directory `/mit`, with none of what `pathValidate` looks for, anywhere in it.
abbrev pub IsConfined : Text → Type 0
IsConfined dest =
    (path : Text) × (dest ≡ codes "/mit" ++ path)
    × (contains dest (codes "..") ≡ false)
    × (has_byte b'$' dest ≡ false)
    × (has_byte b'\\' dest ≡ false)
    × (has_byte b';' dest ≡ false)

-- The file that `reload_config` and `update_sqlite` clear.
abbrev pub hash_file : Text → Text
hash_file work_dir = work_dir ++ codes "/.config_hash"

-- The files that the agent itself writes or reads for a step; programs and scripts are not followed.
unfoldable pub reached : Text → Option Step → List Text
reached work_dir none = []
reached work_dir (some (refuses e)) = []
reached work_dir (some (calls (writes dest bytes))) = dest ∷ []
reached work_dir (some (calls (reads dest))) = dest ∷ []
reached work_dir (some (calls clears_hash)) = hash_file work_dir ∷ []
reached work_dir (some (calls c)) = []

container_step-reached :
    (work_dir : Text) (d : Text) (w : Bool) (c : String) (p : Payload)
    → reached work_dir (container_step d w c p) ≡ []
unfolding container_step reached
container_step-reached work_dir d w c p = ground arith

network_step-reached :
    (work_dir : Text) (c : String) (p : Payload) → reached work_dir (network_step c p) ≡ []
unfolding network_step reached
network_step-reached work_dir c p = ground arith

identity_step-reached :
    (work_dir : Text) (c : String) (p : Payload) → reached work_dir (identity_step c p) ≡ []
unfolding identity_step reached
identity_step-reached work_dir c p = ground arith

backup_step-reached :
    (work_dir : Text) (c : String) (p : Payload) → reached work_dir (backup_step c p) ≡ []
unfolding backup_step mount_step reached
backup_step-reached work_dir c p = ground arith

service_step-reached :
    (work_dir : Text) (c : String) (p : Payload) → reached work_dir (service_step c p) ≡ []
unfolding service_step reached
service_step-reached work_dir c p = ground arith

path_validate-IsConfined :
    (path : Text) → path_validate path ≡ true → IsConfined (codes "/mit" ++ path)
unfolding path_validate contains has_prefix has_byte
path_validate-IsConfined path h =
    (path, refl, ground arith, ground arith, ground arith, ground arith)

-- The two commands that clear the hash.
abbrev pub is_reload : String → Bool
is_reload command = str_eq command "reload_config" || str_eq command "update_sqlite"

-- Each is confined, or the file of the hash for one of the two commands.
abbrev pub AllAllowed : Text → String → List Text → Type 0
AllAllowed work_dir command [] = Unit
AllAllowed work_dir command (dest ∷ rest) =
    (IsConfined dest ⊎ ((is_reload command ≡ true) × (dest ≡ hash_file work_dir)))
    × AllAllowed work_dir command rest

AllAllowed-none : (d : Text) (command : String) (ds : List Text) → ds ≡ [] → AllAllowed d command ds
AllAllowed-none d command ds e = rw e tt

system_step-allowed :
    (d : Text) (command : String) (p : Payload)
    → AllAllowed d command (reached d (system_step command p))
unfolding system_step reached
system_step-allowed d command p = elim (Bool-cases (is_reload command)) [
  | inl reload ↦ rw reload (inr (reload, refl), tt)
  | inr other ↦ AllAllowed-none d command _ (ground (arith, other))
]

write_step-allowed :
    (d : Text) (c : String) (path : Text) (data' : Option Text)
    → path_validate path ≡ true
    → AllAllowed d c (reached d (some (write_step path data')))
unfolding write_step reached
write_step-allowed d c path none h = tt
write_step-allowed d c path (some bytes) h = (inl (path_validate-IsConfined path h), tt)

put_step-allowed :
    (d : Text) (c : String) (path : Text) (missing : Bool) (data' : Option Text)
    → path_validate path ≡ true
    → AllAllowed d c (
        reached d (
          some (
            if missing
            then refuses "path and data required"
            else if not (path_validate path)
            then refuses "invalid path"
            else write_step path data')))
unfolding reached
put_step-allowed d c path true data' h = tt
put_step-allowed d c path false data' h = rw h (write_step-allowed d c path data' h)

get_step-allowed :
    (d : Text) (c : String) (path : Text) (missing : Bool)
    → path_validate path ≡ true
    → AllAllowed d c (
        reached d (
          some (
            if missing
            then refuses "path required"
            else if not (path_validate path)
            then refuses "invalid path"
            else calls (reads (codes "/mit" ++ path)))))
unfolding reached
get_step-allowed d c path true h = tt
get_step-allowed d c path false h = rw h (inl (path_validate-IsConfined path h), tt)

file_step-allowed :
    (d : Text) (decode : Text → Option Text) (c : String) (p : Payload)
    → AllAllowed d c (reached d (file_step decode c p))
unfolding file_step reached
file_step-allowed d decode c p = elim (Bool-cases (path_validate (field "path" p))) [
  | inr bad ↦ AllAllowed-none d c (reached d (file_step decode c p)) (ground (arith, bad))
  | inl good ↦ elim (Bool-cases (str_eq c "put_file")) [
    | inl put ↦ rw put (put_step-allowed d c (field "path" p) _ (decode (field "data" p)) good)
    | inr other ↦ elim (Bool-cases (str_eq c "get_file")) [
      | inl get ↦ rw (other, get) (get_step-allowed d c (field "path" p) _ good)
      | inr neither ↦ rw (other, neither) tt
    ]
  ]
]

allowed-or_else :
    (d : Text) (c : String) (x y : Option Step)
    → AllAllowed d c (reached d x)
    → AllAllowed d c (reached d y)
    → AllAllowed d c (reached d (or_else x y))
unfolding reached
allowed-or_else d c none y h k = k
allowed-or_else d c (some s) y h k = h

-- Whatever command and payload the cloud sends, every file that the agent itself writes or reads for it has a name
-- that starts with `/mit` and has none of "..", "$", "\" and ";" anywhere, or the command is `reload_config` or
-- `update_sqlite` and the file is `.config_hash` of the working directory.
pub exec_command-confined :
    (work_dir : Text) (swarm : Bool) (decode : Text → Option Text) (command : String) (p : Payload)
    → AllAllowed work_dir command (reached work_dir (exec_command work_dir swarm decode command p))
unfolding exec_command
exec_command-confined work_dir swarm decode command p =
    let quiet = AllAllowed-none work_dir command in
    allowed-or_else work_dir command _ _
      (quiet _ (container_step-reached work_dir work_dir swarm command p))
      (allowed-or_else work_dir command _ _ (system_step-allowed work_dir command p) (
        allowed-or_else work_dir command _ _ (quiet _ (network_step-reached work_dir command p)) (
          allowed-or_else work_dir command _ _ (quiet _ (identity_step-reached work_dir command p))
            (allowed-or_else work_dir command _ _ (quiet _ (backup_step-reached work_dir command p))
              (allowed-or_else work_dir command _ _
                (quiet _ (service_step-reached work_dir command p))
                (file_step-allowed work_dir decode command p))))))
