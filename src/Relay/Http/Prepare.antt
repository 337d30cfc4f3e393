-- ===== src/Relay/Http/Prepare.antt =====
-- What a forwarded request must have been (`ServeHTTP` of influxdb-relay/relay/http.go, `prepare`).
use qube_enterprise_home.Prelude.{
  String, ◌≡◌, ◌≢◌, inl, inr, refl, Option, none, some, List, [], ◌∷◌, arith, eq_iff, str_eq,
  Option-cases, Bool-cases, if◌then◌else◌,
}
use qube_enterprise_home.Relay.Response.{Bytes}
use qube_enterprise_home.Relay.Http.{
  Values, get, set_value, delete, Answer, json_error, Request, Prepared, forwards, forward_points,
  read_points, decode_gzip, answers, panics, prepare, with_default_rp, lines,
}

answers-ne-forwards :
    {x : Answer} {out : Bytes} {query auth : String} → answers x ≡ forwards out query auth → ⊥
answers-ne-forwards h = cc

panics-ne-forwards :
    {x : Answer} {out : Bytes} {query auth : String} → panics x ≡ forwards out query auth → ⊥
panics-ne-forwards h = cc

abbrev join : Option (Option Bytes) → Option Bytes
join none = none
join (some o) = o

get-delete : (vs : Values) (k j : String) → k ≢ j → get (delete vs k) j ≡ get vs j
unfolding get delete
get-delete [] k j h = refl
get-delete ((i, v) ∷ vs) k j h =
    ground (arith, get-delete vs k j h, eq_iff i k, eq_iff i j, eq_iff k j)

-- The retention policy that goes out is the client's, or else the default, and no other parameter changes.
get-with_default_rp :
    (rp : String) (query : Values)
    → (get (with_default_rp rp query) "rp"
        ≡ (if str_eq (get query "rp") "" then rp else get query "rp"))
      × ((k : String) → k ≢ "rp" → get (with_default_rp rp query) k ≡ get query k)
unfolding with_default_rp set_value get
get-with_default_rp rp query = (
  ground (arith, eq_iff "rp" "rp", eq_iff rp "", eq_iff (get query "rp") ""),
  λ k h. ground (arith, eq_iff "rp" k, get-delete query "rp" k),
)

module _ {Point : Type 0} (gunzip : Option Bytes → Option (Option Bytes))
    (parse : Bytes → String → Option (List Point)) (print : Point → String → Bytes)
    (encode : Values → String) where
  -- What a write for the backends is made of: the points of some bytes, printed at the precision of the
  -- query, the query encoded, and the client's credentials.
  pub record IsWriteOf (bytes : Bytes) (sent : Values) (out : Bytes) (query : String) : Type 0 where
    pub points : List Point
    pub parsed : parse bytes (get sent "precision") ≡ some points
    pub printed : out ≡ lines print (get sent "precision") points
    pub encoded : query ≡ encode sent

  forward_points-forwards :
      (bytes : Bytes) (sent : Values) (a : String) (out : Bytes) (query auth : String)
      → forward_points gunzip parse print encode sent a (parse bytes (get sent "precision"))
        ≡ forwards out query auth
      → IsWriteOf bytes sent out query × (auth ≡ a)
  unfolding forward_points
  forward_points-forwards bytes sent a out query auth h =
      elim (Option-cases (parse bytes (get sent "precision"))) [
        | inl bad ↦ absurd (answers-ne-forwards (rw bad at h))
        | inr (points, e) ↦
            let sent_out : forwards (lines print (get sent "precision") points) (encode sent) a
                ≡ forwards out query auth =
              rw e at h in
            (record { points = points; parsed = e; printed = cc; encoded = cc }, cc)
      ]

  -- The bytes that the handler reads: the body, or what the decoder makes of it.
  unfoldable pub payload : Request → Option Bytes
  payload r = if str_eq r.content_encoding "gzip" then join (gunzip r.body) else r.body

  read_points-forwards :
      (sent : Values) (a : String) (read : Option Bytes) (out : Bytes) (query auth : String)
      → read_points gunzip parse print encode sent a read ≡ forwards out query auth
      → (bytes : Bytes) × (read ≡ some bytes) × IsWriteOf bytes sent out query × (auth ≡ a)
  unfolding read_points
  read_points-forwards sent a none out query auth h = absurd (answers-ne-forwards h)
  read_points-forwards sent a (some bytes) out query auth h =
      let (w, e) = forward_points-forwards bytes sent a out query auth h in (bytes, refl, w, e)

  decode_gzip-forwards :
      (sent : Values) (a : String) (g : Option (Option Bytes)) (out : Bytes) (query auth : String)
      → decode_gzip gunzip parse print encode sent a g ≡ forwards out query auth
      → (bytes : Bytes) × (join g ≡ some bytes) × IsWriteOf bytes sent out query × (auth ≡ a)
  unfolding decode_gzip
  decode_gzip-forwards sent a none out query auth h = absurd (panics-ne-forwards h)
  decode_gzip-forwards sent a (some read) out query auth h =
      read_points-forwards sent a read out query auth h

  -- What `prepare` does with the payload of a write.
  abbrev serve_write : String → Request → Prepared
  serve_write rp r =
      if str_eq r.content_encoding "gzip"
      then decode_gzip gunzip parse print encode (with_default_rp rp r.query) r.authorization
          (gunzip r.body)
      else read_points gunzip parse print encode (with_default_rp rp r.query) r.authorization r.body

  prepare_guards :
      (rp : String) (r : Request) (out : Bytes) (query auth : String)
      → prepare gunzip parse print encode rp r ≡ forwards out query auth
      → (r.path ≡ "/write")
        × (r.method ≡ "POST")
        × (get r.query "db" ≢ "")
        × (serve_write rp r ≡ forwards out query auth)
  unfolding prepare
  prepare_guards rp r out query auth h =
      ground (arith, eq_iff r.path "/write", eq_iff r.method "POST", eq_iff (get r.query "db") "")

  serve_write-forwards :
      (rp : String) (r : Request) (out : Bytes) (query auth : String)
      → serve_write rp r ≡ forwards out query auth
      → (bytes : Bytes) × (payload r ≡ some bytes)
        × IsWriteOf bytes (with_default_rp rp r.query) out query
        × (auth ≡ r.authorization)
  unfolding payload
  serve_write-forwards rp r out query auth h =
      elim (Bool-cases (str_eq r.content_encoding "gzip")) [
        | inl zipped ↦ rw zipped (
            decode_gzip-forwards (with_default_rp rp r.query) r.authorization (gunzip r.body) out
              query auth (rw zipped at h))
        | inr plain ↦ rw plain (
            read_points-forwards (with_default_rp rp r.query) r.authorization r.body out query auth
              (rw plain at h))
      ]

  -- What the backends are sent is a POST to /write with a database: the points of its payload, printed at
  -- its precision, with its query, the default retention policy in it, and its credentials.
  prepare-forwards :
      (rp : String) (r : Request) (out : Bytes) (query auth : String)
      → prepare gunzip parse print encode rp r ≡ forwards out query auth
      → (r.path ≡ "/write")
        × (r.method ≡ "POST")
        × (get r.query "db" ≢ "")
        × ((bytes : Bytes) × (payload r ≡ some bytes)
            × IsWriteOf bytes (with_default_rp rp r.query) out query)
        × (auth ≡ r.authorization)
  prepare-forwards rp r out query auth h =
      let (path, method, db, tail) = prepare_guards rp r out query auth h in
      let (bytes, read, write, same_auth) = serve_write-forwards rp r out query auth tail in
      (path, method, db, (bytes, read, write), same_auth)

  -- A write whose gzip header cannot be read is answered 400, and then the handler panics.
  prepare-panics :
      (rp : String) (r : Request)
      → r.path ≡ "/write"
      → r.method ≡ "POST"
      → get r.query "db" ≢ ""
      → r.content_encoding ≡ "gzip"
      → gunzip r.body ≡ none
      → prepare gunzip parse print encode rp r
        ≡ panics (json_error 400 "unable to decode gzip body")
  unfolding prepare decode_gzip
  prepare-panics rp r path method db zipped bad =
      rw (path, method, zipped, bad) (ground (arith, eq_iff (get r.query "db") ""))
