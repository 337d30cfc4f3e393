-- ===== src/Qubes/Tests.antt =====
-- A Qube that is claimed, asks for its token, and is unclaimed again.
use qube_enterprise_home.Prelude.{ℕ, ◌≡◌, refl, true, false, none, some, [], ◌∷◌, ◌++◌}
use qube_enterprise_home.Prelude.Text.{Text, codes, text_eq}
use qube_enterprise_home.Prelude.Int.{pos}
use qube_enterprise_home.Qubes.{
  Qube, Org, Database, ConfigState, unclaimed, online, offline, claim_qube, Clears, compute_hmac,
  first_row, key_is, live_status,
}
use qube_enterprise_home.Qubes.Access.{granted, qube_auth, ws_auth, device_register}
use qube_enterprise_home.Qubes.Access.Claims.{claim-grants}

abbrev mac : ℕ → Text → Text
mac qube secret = codes "Q" ++ (qube ∷ secret)

abbrev key : Text
key = codes "AB-12"

abbrev fresh : Qube
fresh = record {
  id = 7;
  register_key = some key;
  org = none;
  token = none;
  status = unclaimed;
  label = [];
  poll_interval = pos 30;
  config_version = 0;
  claimed_at = none;
  last_seen = none;
  ws_connected = false;
}

abbrev org : Org
org = record { id = 3; secret = codes "s3cret" }

abbrev config : ConfigState
config = record { qube = 7; hash = codes "0"; version = 0 }

abbrev before : Database
before = record {
  qubes = fresh ∷ [];
  orgs = org ∷ [];
  configs = config ∷ [];
  readers = [];
  sensors = [];
  containers = [];
  settings = [];
  commands = [];
}

abbrev taken : Qube
taken = record fresh { org = some 3 }

abbrev owned : Database
owned = record before { qubes = taken ∷ [] }

claim-grants_example :
    let token = mac 7 (codes "s3cret") in
    let after = (claim_qube mac true 100 3 key none before).1 in
    ((claim_qube mac true 100 3 key none before).0 ≡ (200, some token))
    × ((device_register mac true 160 (some 7) key after).0 ≡ (200, some token))
    × (qube_auth mac (some 7) (codes "Bearer " ++ token) after ≡ granted 7 3)
    × (ws_auth mac (some 7) token after ≡ granted 7 3)
unfolding first_row key_is text_eq
claim-grants_example =
    claim-grants mac 100 160 true key fresh org before refl refl refl refl refl refl

abbrev all_clear : Clears
all_clear = record {
  sensors = true;
  readers = true;
  containers = true;
  commands = true;
  configs = true;
}

test-live : live_status 500 offline (some 400) ≡ online
unfolding live_status
test-live = refl

test-hmac : compute_hmac (λ i. codes "Q-7") (λ k m. k ++ m) 7 (codes "s") ≡ codes "sQ-7:s"
unfolding compute_hmac
test-hmac = refl
