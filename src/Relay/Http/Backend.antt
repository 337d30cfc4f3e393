-- ===== src/Relay/Http/Backend.antt =====
-- The backends of influxdb-relay/relay/http.go: `simplePoster.post`, and `newHTTPBackend` with the
-- defaults of the configuration (influxdb-relay/relay/config.go). Durations are nanoseconds; sizes
-- are taken to be no negative numbers, whose products fit an `int`.
use qube_enterprise_home.Prelude.{
  ℕ, ◌*◌, ◌<◌, String, ◌≡◌, ◌≢◌, ◌↔◌, ◌⊎◌, inl, inr, refl, Bool-cases, Bool, Option, none, some, [],
  ◌∷◌, arith, eq_iff, ltb, if◌then◌else◌, str_eq,
}
use qube_enterprise_home.Relay.Response.{Bytes, ResponseData, Reply}
use qube_enterprise_home.Relay.Http.{Values, get, write_response, optional_header}

-- What the HTTP client is handed, and what it gives back; `none` is a body that cannot be read to its
-- end and closed.
pub record Sending : Type 0 where
  pub location : String
  pub raw_query : String
  pub header : Values
  pub payload : Bytes

pub record Received : Type 0 where
  pub status : ℕ
  pub header : Values
  pub body : Option Bytes

none-ne-some : {x : ResponseData} → ◌≡◌ {A = Option ResponseData} none (some x) → ⊥
none-ne-some h = cc

auth_header : String → Values
auth_header auth = if str_eq auth "" then [] else ("Authorization", auth) ∷ []

read_received : Received → Option Bytes → Reply
read_received resp none = none
read_received resp (some bytes) = some (record {
  content_type = get resp.header "Conent-Type";
  content_encoding = get resp.header "Conent-Encoding";
  status_code = resp.status;
  body = bytes;
})

after_do : Option Received → Reply
unfolding read_received
after_do none = none
after_do (some resp) = read_received resp resp.body

-- `simplePoster.post`, less the header for the length; `valid` is whether `http.NewRequest` takes the
-- location, and `do_request` is `client.Do`.
unfoldable pub simple_post :
    (String → Bool) → (Sending → Option Received) → String → Bytes → String → String → Reply
unfolding after_do auth_header
simple_post valid do_request location buf query auth =
    if valid location
    then after_do (
        do_request (record {
          location = location;
          raw_query = query;
          header = ("Content-Type", "text/plain") ∷ auth_header auth;
          payload = buf;
        }))
    else none

after_do-lost :
    (o : Option Received) (resp : ResponseData)
    → ((r : Received)
        → o ≡ some r
        → (get r.header "Conent-Type" ≡ "") × (get r.header "Conent-Encoding" ≡ ""))
    → after_do o ≡ some resp
    → (resp.content_type ≡ "") × (resp.content_encoding ≡ "")
unfolding after_do
after_do-lost none resp real h = cc
after_do-lost (some r) resp real h = ground (arith, real r refl)

-- A response that has no header of the misspelt names, as any real one, loses its content type and its
-- encoding on the way to the client.
write_response-simple_post :
    (valid : String → Bool) (do_request : Sending → Option Received) (location : String)
    (buf : Bytes) (query auth : String) (resp : ResponseData)
    → ((sent : Sending) (r : Received)
        → do_request sent ≡ some r
        → (get r.header "Conent-Type" ≡ "") × (get r.header "Conent-Encoding" ≡ ""))
    → simple_post valid do_request location buf query auth ≡ some resp
    → (write_response resp).headers ≡ []
unfolding simple_post write_response optional_header
write_response-simple_post valid do_request location buf query auth resp real h =
    elim (Bool-cases (valid location)) [
      | inl good ↦ let (t, e) = after_do-lost _ resp (λ r. real _ r) (rw good at h) in rw (t, e)
      | inr bad ↦ absurd (none-ne-some (rw bad at h))
    ]

-- `HTTPOutputConfig`
pub record OutputConfig : Type 0 where
  pub name : String
  pub location : String
  pub timeout : String
  pub buffer_size_mb : ℕ
  pub max_batch_kb : ℕ
  pub max_delay_interval : String
  pub skip_tls_verification : Bool

-- `DefaultHTTPTimeout` and `DefaultMaxDelayInterval`, 10 s, and `DefaultBatchSizeKB`.
abbrev pub default_timeout : ℕ
default_timeout = 10000000000

abbrev pub default_max_delay : ℕ
default_max_delay = 10000000000

abbrev pub default_batch_kb : ℕ
default_batch_kb = 512

abbrev pub kb : ℕ
kb = 1024

abbrev pub mb : ℕ
mb = 1024 * kb

-- The arguments of `newRetryBuffer`.
pub record Buffering : Type 0 where
  pub size : ℕ
  pub batch : ℕ
  pub max : ℕ

pub record HttpBackend : Type 0 where
  pub name : String
  pub location : String
  pub timeout : ℕ
  pub skip_tls_verification : Bool
  pub buffering : Option Buffering

-- A duration of the configuration, or its default; `none` is one that does not parse.
duration_or : (String → Option ℕ) → ℕ → String → Option ℕ
duration_or parse_duration default text =
    if str_eq text "" then some default else parse_duration text

with_buffering : OutputConfig → HttpBackend → Option ℕ → Option HttpBackend
with_buffering cfg b none = none
with_buffering cfg b (some max) = some (record b {
  buffering = some (record {
    size = cfg.buffer_size_mb * mb;
    batch = if ltb 0 cfg.max_batch_kb then cfg.max_batch_kb * kb else default_batch_kb * kb;
    max = max;
  });
})

with_timeout : (String → Option ℕ) → OutputConfig → Option ℕ → Option HttpBackend
unfolding with_buffering duration_or
with_timeout parse_duration cfg none = none
with_timeout parse_duration cfg (some t) =
    let b : HttpBackend = record {
      name = if str_eq cfg.name "" then cfg.location else cfg.name;
      location = cfg.location;
      timeout = t;
      skip_tls_verification = cfg.skip_tls_verification;
      buffering = none;
    } in
    if ltb 0 cfg.buffer_size_mb
    then with_buffering cfg b (duration_or parse_duration default_max_delay cfg.max_delay_interval)
    else some b

-- `newHTTPBackend`; `none` is an error.
unfoldable pub new_http_backend : (String → Option ℕ) → OutputConfig → Option HttpBackend
unfolding with_timeout duration_or
new_http_backend parse_duration cfg =
    with_timeout parse_duration cfg (duration_or parse_duration default_timeout cfg.timeout)

-- A setting is usable if it is left out or parses.
abbrev pub Usable : (String → Option ℕ) → String → Type 0
Usable parse_duration text = (text ≡ "") ⊎ ((t : ℕ) × (parse_duration text ≡ some t))

-- A backend is made exactly if its timeout is usable, and its maximum delay too where it buffers.
new_http_backend-fails_iff :
    (parse_duration : String → Option ℕ) (cfg : OutputConfig)
    → (new_http_backend parse_duration cfg ≢ none) ↔ (
        Usable parse_duration cfg.timeout
        × (0 < cfg.buffer_size_mb → Usable parse_duration cfg.max_delay_interval))
unfolding new_http_backend
new_http_backend-fails_iff parse_duration cfg =
    ground (arith, eq_iff cfg.timeout "", eq_iff cfg.max_delay_interval "")
