-- ===== src/Agent/Tests.antt =====
-- An agent from its first token to the commands that it runs.
use qube_enterprise_home.Prelude.{
  ℕ, String, if◌then◌else◌, ◌≡◌, refl, ap, true, false, Option, none, some, List, [], ◌∷◌, ◌++◌,
  map,
}
use mathlib.Core.Path.{subst}
use qube_enterprise_home.Prelude.Text.{Text, codes, text_eq, has_byte, contains}
use qube_enterprise_home.Prelude.Lines.{split_at}
use qube_enterprise_home.Prelude.Int.{pos}
use qube_enterprise_home.Commands.{Command, sent, executed, failed, affected, acked}
use qube_enterprise_home.Qubes.{Qube, Org, Database, offline, first_row, key_is}
use qube_enterprise_home.Qubes.Access.{granted, qube_auth}
use qube_enterprise_home.Agent.Env.{save_token_to_env, existing, read_key, token_key, id_key}
use qube_enterprise_home.Agent.Env.Saving.{others, save_token-read}
use qube_enterprise_home.Agent.Exec.{
  text, Payload, Call, Step, Outcome, exits, exec_command, path_validate,
}
use qube_enterprise_home.Agent.Exec.Safety.{reached, AllAllowed, exec_command-confined}
use qube_enterprise_home.Agent.Exec.Acking.{run_command, ends_well, closed, run_command-closes}
use qube_enterprise_home.Agent.Registration.{
  registered, self_register, saved_env, poll, self_register-claimed, new_token,
}

abbrev env_file : Option Text
env_file = some (codes "A=1\nQUBE_TOKEN=old\nB=2")

save_token-read_example :
    let lines = split_at b'\n' (save_token_to_env env_file (codes "Q-7") (codes "new")) in
    (read_key token_key lines ≡ some (codes "new"))
    × (read_key id_key lines ≡ some (codes "Q-7"))
    × (others lines ≡ others (split_at b'\n' (existing env_file)))
unfolding has_byte
save_token-read_example = save_token-read (codes "Q-7") (codes "new") refl refl env_file

abbrev upload : Payload
upload = ("path", text (codes "/config/a.txt")) ∷ ("data", text (codes "aGk=")) ∷ []

decode : Text → Option Text
decode t = some (codes "hi")

exec_command-confined_example :
    AllAllowed (codes "/opt/qube") "put_file" (
      reached (codes "/opt/qube") (exec_command (codes "/opt/qube") false decode "put_file" upload))
exec_command-confined_example =
    exec_command-confined (codes "/opt/qube") false decode "put_file" upload

abbrev backup : Command
backup = record { id = 4; qube = 7; command = "backup_image"; created = 100; status = sent }

reboots_soon : Call → Outcome
reboots_soon c = exits 99

abbrev exec : String → Payload → Option Step
exec = exec_command (codes "/opt/qube") false decode

run_command-closes_example :
    let after =
      run_command reboots_soon
        (codes "/opt/qube")
        false
        decode
        7
        4
        "backup_image"
        []
        (backup ∷ []) in
    let good =
      ends_well reboots_soon (exec_command (codes "/opt/qube") false decode "backup_image" []) in
    (after ≡ map (closed 7 4 (if good then executed else failed)) (backup ∷ []))
    × (affected (acked 7 4) after ≡ 0)
run_command-closes_example =
    run_command-closes reboots_soon (codes "/opt/qube") false decode 7 4 "backup_image" []
      (backup ∷ [])

abbrev mac : ℕ → Text → Text
mac qube secret = codes "Q" ++ secret

abbrev key : Text
key = codes "AB-12"

abbrev waiting : Qube
waiting = record {
  id = 7;
  register_key = some key;
  org = none;
  token = none;
  status = offline;
  label = [];
  poll_interval = pos 30;
  config_version = 0;
  claimed_at = none;
  last_seen = none;
  ws_connected = false;
}

abbrev claimed : Qube
claimed = record waiting { org = some 3 }

abbrev org : Org
org = record { id = 3; secret = codes "s3cret" }

abbrev table : Qube → Database
table q = record {
  qubes = q ∷ [];
  orgs = org ∷ [];
  configs = [];
  readers = [];
  sensors = [];
  containers = [];
  settings = [];
  commands = [];
}

abbrev earlier : List (ℕ × Database)
earlier = (100, table waiting) ∷ (160, table waiting) ∷ []

self_register-claimed_example :
    let r = self_register key (map (poll mac 7 key) (earlier ++ ((220, table claimed) ∷ []))) in
    (r ≡ registered (codes "Qs3cret") 120)
    × (read_key token_key (split_at b'\n' (existing (saved_env true (codes "Q-7") r env_file)))
        ≡ some (codes "Qs3cret"))
    × (qube_auth mac (some 7) (codes "Bearer Qs3cret") (table claimed) ≡ granted 7 3)
unfolding first_row key_is text_eq has_byte
self_register-claimed_example =
    self_register-claimed mac 7 key refl 220 (table claimed) claimed org refl refl refl refl refl
      earlier (codes "Q-7") env_file
      ((waiting, refl, refl, refl), ((waiting, refl, refl, refl), tt)) refl refl

clean_registered :
    (token : Text) (secs : ℕ)
    → registered (codes "t2") 60 ≡ registered token secs
    → has_byte b'\n' token ≡ false
unfolding has_byte new_token
clean_registered token secs e = subst (λ t. has_byte b'\n' t ≡ false) (ap new_token e) refl

test-path : path_validate (codes "/a/../b") ≡ false
unfolding path_validate contains has_byte
test-path = refl
