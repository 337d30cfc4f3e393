-- ===== src/Relay/Service.antt =====
-- `Service` of influxdb-relay/relay/relay.go: the relays by their names. What `NewHTTP` and `NewUDP`
-- make of a configuration is a list of results, `none` for an error; `Name` of http.go and udp.go.
use qube_enterprise_home.Prelude.{
  String, ◌≡◌, ◌≢◌, refl, sym, ap, ◌∙◌, inl, inr, Bool-cases, Bool, false, ◌||◌, Option, none, some,
  List, [], ◌∷◌, arith, eq_iff, if◌then◌else◌, str_eq,
}

-- `HTTP.Name` and `UDP.Name`; `join` is the formatting of schema and address.
unfoldable pub http_name : (String → String → String) → String → String → String → String
http_name join name schema addr = if str_eq name "" then join schema addr else name

unfoldable pub udp_name : String → String → String
udp_name name addr = if str_eq name "" then addr else name

pub data ServiceError : Type 0 where
  not_made : ServiceError
  duplicate : String → ServiceError

pub data Made : Type 0 where
  service : List String → Made
  fails : ServiceError → Made

has_name : String → List String → Bool
has_name name [] = false
has_name name (x ∷ xs) = str_eq x name || has_name name xs

-- One loop of `New`: the names so far, and a relay each round.
unfoldable pub add_relays : List String → List (Option String) → Made
unfolding has_name
add_relays names [] = service names
add_relays names (none ∷ rest) = fails not_made
add_relays names (some name ∷ rest) =
    let next = add_relays (name ∷ names) rest in
    if has_name name names then fails (duplicate name) else next

then_add : Made → List (Option String) → Made
then_add (service names) udp = add_relays names udp
then_add (fails e) udp = fails e

-- `New`: the HTTP relays, then the UDP relays.
unfoldable pub new_service : List (Option String) → List (Option String) → Made
unfolding then_add
new_service http udp = then_add (add_relays [] http) udp

abbrev pub Fresh : String → List String → Type 0
Fresh name [] = Unit
Fresh name (x ∷ xs) = (x ≢ name) × Fresh name xs

abbrev pub Distinct : List String → Type 0
Distinct [] = Unit
Distinct (x ∷ xs) = Fresh x xs × Distinct xs

fails-ne-service : {e : ServiceError} {out : List String} → fails e ≡ service out → ⊥
fails-ne-service h = cc

has_name-false : (name : String) (xs : List String) → has_name name xs ≡ false → Fresh name xs
unfolding has_name
has_name-false name [] h = tt
has_name-false name (x ∷ xs) h =
    (ground (arith, eq_iff x name), has_name-false name xs (ground arith))

-- The relays of a loop in which every one was made, the last one first.
abbrev pub onto : List (Option String) → List String → List String
onto [] names = names
onto (none ∷ rest) names = onto rest names
onto (some name ∷ rest) names = onto rest (name ∷ names)

abbrev pub AllMade : List (Option String) → Type 0
AllMade [] = Unit
AllMade (none ∷ rest) = ⊥
AllMade (some name ∷ rest) = AllMade rest

service_names : {a b : List String} → service a ≡ service b → a ≡ b
service_names h = cc

add_relays-Distinct :
    (names : List String) (rs : List (Option String)) (out : List String)
    → Distinct names
    → add_relays names rs ≡ service out
    → Distinct out × AllMade rs × (out ≡ onto rs names)
unfolding add_relays
add_relays-Distinct names [] out d h =
    let e : names ≡ out = service_names h in (rw (← e) d, tt, sym e)
add_relays-Distinct names (none ∷ rs) out d h = cc
add_relays-Distinct names (some name ∷ rs) out d h = elim (Bool-cases (has_name name names)) [
  | inl taken ↦ absurd (fails-ne-service (rw taken at h))
  | inr fresh ↦
      add_relays-Distinct (name ∷ names) rs out (has_name-false name names fresh, d) (rw fresh at h)
]

then_add-Distinct :
    (m : Made) (udp : List (Option String)) (out : List String)
    → then_add m udp ≡ service out
    → (names : List String) × (m ≡ service names) × (add_relays names udp ≡ service out)
unfolding then_add
then_add-Distinct (service names) udp out h = (names, refl, h)
then_add-Distinct (fails e) udp out h = cc

-- A service starts only if every relay could be made and no two relays, HTTP or UDP, share a name; it has
-- then exactly the relays of the configuration.
new_service-Distinct :
    (http udp : List (Option String)) (out : List String)
    → new_service http udp ≡ service out
    → Distinct out × AllMade http × AllMade udp × (out ≡ onto udp (onto http []))
unfolding new_service
new_service-Distinct http udp out h =
    let (names, first, second) = then_add-Distinct (add_relays [] http) udp out h in
    let (d, made, e) = add_relays-Distinct [] http names tt first in
    let (d', made', e') = add_relays-Distinct names udp out d second in
    (d', made, made', e' ∙ ap (onto udp) e)
