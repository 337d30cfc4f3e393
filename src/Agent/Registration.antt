-- ===== src/Agent/Registration.antt =====
-- How an agent comes by its token: `SelfRegister` and `reRegister` (conf-agent/agent/agent.go), against the
-- answers of `deviceRegisterHandler` (cloud/internal/tpapi/sync.go). A run is the list of the replies that come;
-- times are in seconds.
use qube_enterprise_home.Prelude.{
  ℕ, ◌+◌, ◌*◌, ◌≡◌, refl, ap, Bool, true, false, Option, none, some, List, [], ◌∷◌, ◌++◌, map, ◌==◌,
  if◌then◌else◌, length, arith,
}
use qube_enterprise_home.Prelude.Text.{Text, codes, text_eq, has_byte}
use qube_enterprise_home.Prelude.Lines.{split_at}
use qube_enterprise_home.Agent.{Agent}
use qube_enterprise_home.Agent.Env.{save_token_to_env, existing, read_key, token_key}
use qube_enterprise_home.Agent.Env.Saving.{save_token-read}
use qube_enterprise_home.Qubes.{Qube, Org, Database, first_row, key_is}
use qube_enterprise_home.Qubes.Access.{device_register, qube_auth, granted}
use qube_enterprise_home.Qubes.Access.Claims.{
  device_register-claimed, device_register-waits, qube_auth-granted,
}

-- A request that fails, or a status with `qube_token` ("" when there is none) and `retry_secs`.
pub data Reply : Type 0 where
  broken : Reply
  replied : ℕ → Text → Option ℕ → Reply

-- One turn of the loop: to sleep, to end with a token, to end the process.
pub data Turn : Type 0 where
  sleeps : ℕ → Turn
  takes : Text → Turn
  fatal : Turn

retry_secs : Option ℕ → ℕ
retry_secs none = 60
retry_secs (some secs) = secs

unfoldable pub turn : Reply → Turn
unfolding retry_secs
turn broken = sleeps 30
turn (replied status token retry) =
    if status == 200
    then (if text_eq token [] then sleeps 30 else takes token)
    else if status == 202
    then sleeps (retry_secs retry)
    else if status == 401
    then fatal
    else sleeps 30

-- What comes of `SelfRegister`: no key and "", the end of the process, a wait that goes on, or a token; with the
-- time that it has slept.
pub data Registration : Type 0 where
  no_key : Registration
  ended : Registration
  waits : ℕ → Registration
  registered : Text → ℕ → Registration

slept : ℕ → Registration → Registration
slept n no_key = no_key
slept n ended = ended
slept n (waits m) = waits (n + m)
slept n (registered token m) = registered token (n + m)

take_turn : Turn → Registration → Registration
unfolding slept
take_turn (sleeps n) rest = slept n rest
take_turn (takes token) rest = registered token 0
take_turn fatal rest = ended

unfoldable pub register_loop : List Reply → Registration
unfolding take_turn
register_loop [] = waits 0
register_loop (r ∷ rs) = take_turn (turn r) (register_loop rs)

unfoldable pub self_register : Text → List Reply → Registration
self_register key rs = if text_eq key [] then no_key else register_loop rs

-- The file `.env` behind it; `saves` is whether it can be written.
unfoldable pub saved_env : Bool → Text → Registration → Option Text → Option Text
saved_env saves id (registered token secs) file =
    if saves then some (save_token_to_env file id token) else file
saved_env saves id no_key file = file
saved_env saves id ended file = file
saved_env saves id (waits secs) file = file

unfoldable pub new_token : Registration → Text
new_token (registered token secs) = token
new_token no_key = []
new_token ended = []
new_token (waits secs) = []

-- `reRegister`, where `r` is what comes of the registration behind the wiped token.
unfoldable pub re_register : Bool → Text → Registration → Agent × Option Text → Agent × Option Text
unfolding new_token
re_register saves id r (a, file) =
    let wiped = if saves then some (save_token_to_env file id []) else file in
    (record a { token = new_token r }, saved_env saves id r wiped)

-- The reply that an answer of the cloud is for the agent.
unfoldable pub to_reply : ℕ × Option Text → Reply
to_reply (status, none) = replied status [] (if status == 202 then some 60 else none)
to_reply (status, some token) = replied status token none

-- One poll of the agent, at the clock and with the tables that the cloud has then.
unfoldable pub poll : (ℕ → Text → Text) → ℕ → Text → ℕ × Database → Reply
poll mac qube key (now, db) = to_reply (device_register mac true now (some qube) key db).0

-- At each poll the Qube has its key and no organisation.
abbrev pub AllWaiting : ℕ → Text → List (ℕ × Database) → Type 0
AllWaiting qube key [] = Unit
AllWaiting qube key ((now, db) ∷ rest) =
    ((q : Qube) × (first_row (λ r. r.id == qube) db.qubes ≡ some q)
      × (q.org ≡ none)
      × (key_is key q ≡ true))
    × AllWaiting qube key rest

module _ (mac : ℕ → Text → Text) (qube : ℕ) (key : Text) (nonempty : text_eq key [] ≡ false)
    (now : ℕ) (db : Database) (q : Qube) (o : Org)
    (by_id : first_row (λ r. r.id == qube) db.qubes ≡ some q) (mine : q.org ≡ some o.id)
    (exists : first_row (λ p. p.id == o.id) db.orgs ≡ some o) (known : key_is key q ≡ true)
    (token_nonempty : text_eq (mac qube o.secret) [] ≡ false) where
  loop-claimed :
      (earlier : List (ℕ × Database))
      → AllWaiting qube key earlier
      → register_loop (map (poll mac qube key) (earlier ++ ((now, db) ∷ [])))
        ≡ registered (mac qube o.secret) (60 * length earlier)
  unfolding register_loop take_turn turn poll to_reply slept retry_secs
  loop-claimed [] h =
      rw
        (
          device_register-claimed mac qube q o db by_id mine exists true now key nonempty known,
          token_nonempty,
        )
        refl
  loop-claimed ((t, d) ∷ rest) ((r, found, free, k), more) =
      rw
        (
          device_register-waits mac qube r d found free true t key nonempty k,
          loop-claimed rest more,
        )
        (ap (registered (mac qube o.secret)) (omega arith))

  -- However often an agent asks before its Qube is claimed: at the first poll behind the claim it has the token,
  -- a minute of sleep for each poll before, the file `.env` names that token, and the cloud takes it for the
  -- organisation that has the Qube. The poll's requests get through, and neither the token nor the id has a line
  -- break.
  pub self_register-claimed :
      (earlier : List (ℕ × Database)) (id : Text) (file : Option Text)
      → AllWaiting qube key earlier
      → has_byte b'\n' id ≡ false
      → has_byte b'\n' (mac qube o.secret) ≡ false
      → let r = self_register key (map (poll mac qube key) (earlier ++ ((now, db) ∷ []))) in
        (r ≡ registered (mac qube o.secret) (60 * length earlier))
        × (read_key token_key (split_at b'\n' (existing (saved_env true id r file)))
            ≡ some (mac qube o.secret))
        × (qube_auth mac (some qube) (codes "Bearer " ++ mac qube o.secret) db ≡ granted qube o.id)
  unfolding self_register saved_env
  self_register-claimed earlier id file h clean_id clean_token =
      rw (nonempty, loop-claimed earlier h)
        (
          refl,
          (save_token-read id (mac qube o.secret) clean_id clean_token file).0,
          qube_auth-granted mac qube q o db by_id mine exists,
        )

-- An agent whose token is refused asks again: it has no token, in memory and on disk, until the cloud gives it one,
-- and then exactly that one.
re_register-wipes :
    (id : Text) (a : Agent) (file : Option Text) (r : Registration)
    → has_byte b'\n' id ≡ false
    → ((token : Text) (secs : ℕ) → r ≡ registered token secs → has_byte b'\n' token ≡ false)
    → let (b, env) = re_register true id r (a, file) in
      (b ≡ record a { token = new_token r })
      × (read_key token_key (split_at b'\n' (existing env)) ≡ some (new_token r))
unfolding re_register saved_env new_token has_byte
re_register-wipes id a file no_key clean_id clean =
    (refl, (save_token-read id [] clean_id refl file).0)
re_register-wipes id a file ended clean_id clean =
    (refl, (save_token-read id [] clean_id refl file).0)
re_register-wipes id a file (waits secs) clean_id clean =
    (refl, (save_token-read id [] clean_id refl file).0)
re_register-wipes id a file (registered token secs) clean_id clean = (
  refl,
  (save_token-read id token clean_id (clean token secs refl)
      (some (save_token_to_env file id []))).0,
)
