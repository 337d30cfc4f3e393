-- ===== src/Relay/Http/Choice.antt =====
-- Which answer a client gets (the loop over `responses` of `ServeHTTP`, influxdb-relay/relay/http.go).
use qube_enterprise_home.Prelude.{
  ℕ, ◌/◌, ◌≡◌, ◌≢◌, ◌↔◌, ◌⊎◌, refl, Option, none, some, List, [], ◌∷◌, arith,
}
use qube_enterprise_home.Relay.Response.{ResponseData}
use qube_enterprise_home.Relay.Http.{Answer, json_error, no_content, write_response, choose}

-- The class of a status.
abbrev pub class : ResponseData → ℕ
class r = r.status_code / 100

abbrev pub AnyOk : List ResponseData → Type 0
AnyOk [] = ⊥
AnyOk (r ∷ rs) = (class r ≡ 2) ⊎ AnyOk rs

abbrev pub NoUserError : List ResponseData → Type 0
NoUserError [] = Unit
NoUserError (r ∷ rs) = (class r ≢ 4) × NoUserError rs

abbrev pub NoneDecides : List ResponseData → Type 0
NoneDecides [] = Unit
NoneDecides (r ∷ rs) = (class r ≢ 2) × (class r ≢ 4) × NoneDecides rs

-- The answer when no response decides: the last one that came, or 503 if there was none.
unfoldable pub undecided : Option ResponseData → List ResponseData → Answer
undecided none [] = json_error 503 "unable to write points"
undecided (some held) [] = write_response held
undecided held (r ∷ rs) = undecided (some r) rs

choose-ok :
    (held : Option ResponseData) (rs : List ResponseData)
    → NoUserError rs
    → AnyOk rs
    → choose held rs ≡ no_content
unfolding choose
choose-ok held [] h o = elim o [ ]
choose-ok none (r ∷ rs) h o = ground (arith, choose-ok (some r) rs h.1)
choose-ok (some x) (r ∷ rs) h o = ground (arith, choose-ok (some r) rs h.1)

AnyOk-of_choose :
    (held : Option ResponseData) (rs : List ResponseData) → choose held rs ≡ no_content → AnyOk rs
unfolding choose write_response json_error
AnyOk-of_choose none [] e = cc
AnyOk-of_choose (some x) [] e = cc
AnyOk-of_choose none (r ∷ rs) e = ground (arith, AnyOk-of_choose (some r) rs)
AnyOk-of_choose (some x) (r ∷ rs) e = ground (arith, AnyOk-of_choose (some r) rs)

choose-undecided_from :
    (held : Option ResponseData) (rs : List ResponseData)
    → NoneDecides rs
    → choose held rs ≡ undecided held rs
unfolding choose undecided
choose-undecided_from none [] h = refl
choose-undecided_from (some x) [] h = refl
choose-undecided_from none (r ∷ rs) h = ground (arith, choose-undecided_from (some r) rs h.2)
choose-undecided_from (some x) (r ∷ rs) h = ground (arith, choose-undecided_from (some r) rs h.2)

-- If no backend reports a user error (4xx), the client is told 204 exactly if some backend wrote (2xx), in
-- whatever order the responses come.
choose-no_content_iff :
    (rs : List ResponseData) → NoUserError rs → (choose none rs ≡ no_content) ↔ AnyOk rs
choose-no_content_iff rs h = (AnyOk-of_choose none rs, choose-ok none rs h)

-- If no response is a 2xx or a 4xx, the client gets the last one that came, or 503 if every post failed.
choose-undecided : (rs : List ResponseData) → NoneDecides rs → choose none rs ≡ undecided none rs
choose-undecided rs h = choose-undecided_from none rs h
