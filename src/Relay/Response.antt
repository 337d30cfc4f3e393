-- ===== src/Relay/Response.antt =====
-- Bytes on the wire and `responseData` (influxdb-relay/relay/http.go).
use qube_enterprise_home.Prelude.{ℕ, String, Option, List}

-- A `[]byte`.
abbrev pub Bytes : Type 0
Bytes = List ℕ

-- `responseData`: what a backend answered.
pub record ResponseData : Type 0 where
  pub content_type : String
  pub content_encoding : String
  pub status_code : ℕ
  pub body : Bytes

-- The outcome of `poster.post`: a response, or `none` for a non-nil error.
abbrev pub Reply : Type 0
Reply = Option ResponseData
