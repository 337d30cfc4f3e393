-- ===== src/Relay/Http.antt =====
-- The HTTP relay of influxdb-relay/relay/http.go: `ServeHTTP` up to the backends (`prepare`), the
-- choice of the client's answer from theirs (`choose`), and `simplePoster.post`. The gzip decoder,
-- the line protocol library and the query encoder are parameters.
pub mod Choice
pub mod Prepare
pub mod Backend
use qube_enterprise_home.Prelude.{
  ℕ, ◌/◌, String, Bool, true, false, not, ◌&&◌, ◌||◌, Option, none, some, List, [], ◌∷◌, ◌++◌, ◌==◌,
  if◌then◌else◌, str_eq,
}
use qube_enterprise_home.Relay.Response.{Bytes, ResponseData}

-- `url.Values` and `http.Header`: pairs, with `Get` for the first value of a key, "" if there is none.
abbrev pub Values : Type 0
Values = List (String × String)

unfoldable pub get : Values → String → String
get [] key = ""
get ((k, v) ∷ rest) key = if str_eq k key then v else get rest key

unfoldable pub delete : Values → String → Values
delete [] key = []
delete ((k, v) ∷ rest) key =
    let others = delete rest key in if str_eq k key then others else (k, v) ∷ others

unfoldable pub set_value : Values → String → String → Values
set_value vs key v = (key, v) ∷ delete vs key

-- The body that is sent: none, the JSON object of `jsonError`, or bytes.
pub data Body : Type 0 where
  no_body : Body
  json : String → Body
  raw : Bytes → Body

-- What the handler writes: its status, its headers (less `Content-Length`), its body.
pub record Answer : Type 0 where
  pub status : ℕ
  pub headers : Values
  pub body : Body

unfoldable pub json_error : ℕ → String → Answer
json_error code message = record {
  status = code;
  headers = ("Content-Type", "application/json") ∷ [];
  body = json message;
}

abbrev pub no_content : Answer
no_content = record { status = 204; headers = []; body = no_body }

optional_header : String → String → Values
optional_header name value = if str_eq value "" then [] else (name, value) ∷ []

-- `responseData.Write`
unfoldable pub write_response : ResponseData → Answer
unfolding optional_header
write_response rd = record {
  status = rd.status_code;
  headers =
      optional_header "Content-Type" rd.content_type
      ++ optional_header "Content-Encoding" rd.content_encoding;
  body = raw rd.body;
}

-- The loop over `responses`, in the order of their arrival, with `errResponse`.
unfoldable pub choose : Option ResponseData → List ResponseData → Answer
unfolding write_response json_error
choose none [] = json_error 503 "unable to write points"
choose (some held) [] = write_response held
choose held (resp ∷ rest) =
    let later = choose (some resp) rest in
    if resp.status_code / 100 == 2
    then no_content
    else if resp.status_code / 100 == 4
    then write_response resp
    else later

-- A request; `none` is a body whose reading fails.
pub record Request : Type 0 where
  pub path : String
  pub method : String
  pub query : Values
  pub content_encoding : String
  pub authorization : String
  pub body : Option Bytes

-- The default retention policy goes into the query if the client names none.
unfoldable pub with_default_rp : String → Values → Values
with_default_rp rp query =
    if str_eq (get query "rp") "" && not (str_eq rp "") then set_value query "rp" rp else query

-- What comes of a request before the backends are asked: an answer, a panic behind an answer that is
-- already written, or a write for every backend.
pub data Prepared : Type 0 where
  answers : Answer → Prepared
  panics : Answer → Prepared
  forwards : Bytes → String → String → Prepared

-- The loop that writes the points, a line each.
unfoldable pub lines {ℓ} : {Point : Type ℓ} → (Point → String → Bytes) → String → List Point → Bytes
lines print precision [] = []
lines print precision (p ∷ ps) = print p precision ++ (b'\n' ∷ lines print precision ps)

-- `gunzip` is `none` where `gzip.NewReader` fails, and `some none` where reading from it does.
-- `parse` and `print` are `models.ParsePointsWithPrecision`, at the time of the request, and
-- `PrecisionString`; `encode` is `url.Values.Encode`.
module _ {Point : Type 0} (gunzip : Option Bytes → Option (Option Bytes))
    (parse : Bytes → String → Option (List Point)) (print : Point → String → Bytes)
    (encode : Values → String) where
  forward_points : Values → String → Option (List Point) → Prepared
  forward_points query auth none = answers (json_error 400 "unable to parse points")
  forward_points query auth (some points) =
      forwards (lines print (get query "precision") points) (encode query) auth

  read_points : Values → String → Option Bytes → Prepared
  unfolding forward_points
  read_points query auth none = answers (json_error 500 "problem reading request body")
  read_points query auth (some bytes) =
      forward_points query auth (parse bytes (get query "precision"))

  -- A decoder that cannot be made is answered and then read all the same: a nil dereference.
  decode_gzip : Values → String → Option (Option Bytes) → Prepared
  unfolding read_points
  decode_gzip query auth none = panics (json_error 400 "unable to decode gzip body")
  decode_gzip query auth (some read) = read_points query auth read

  -- `ServeHTTP`, up to the posts to the backends.
  unfoldable pub prepare : String → Request → Prepared
  unfolding decode_gzip
  prepare rp r =
      if str_eq r.path "/ping" && (str_eq r.method "GET" || str_eq r.method "HEAD")
      then answers (record no_content { headers = ("X-InfluxDB-Version", "relay") ∷ [] })
      else if not (str_eq r.path "/write")
      then answers (json_error 404 "invalid write endpoint")
      else if not (str_eq r.method "POST")
      then (if str_eq r.method "OPTIONS"
          then answers (record no_content { headers = ("Allow", "POST") ∷ [] })
          else answers (
              let e = json_error 405 "invalid write method" in
              record e { headers = ("Allow", "POST") ∷ e.headers }))
      else if str_eq (get r.query "db") ""
      then answers (json_error 400 "missing parameter: db")
      else let query = with_default_rp rp r.query in
        if str_eq r.content_encoding "gzip"
        then decode_gzip query r.authorization (gunzip r.body)
        else read_points query r.authorization r.body
