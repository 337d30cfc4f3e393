-- ===== src/Relay/Tests.antt =====
-- Runs of the relay (influxdb-relay/relay) on concrete inputs, and its theorems at them.
use qube_enterprise_home.Prelude.{
  ℕ, ◌≤◌, String, ◌≡◌, ◌≢◌, refl, Bool, true, false, Option, none, some, List, [], ◌∷◌, ◌++◌, arith,
}
use mathlib.Core.Option.{some-injective}
use qube_enterprise_home.Relay.Response.{Bytes, ResponseData}
use qube_enterprise_home.Relay.BufferList.{
  Batch, new_buffer_list, skips, place, add, pop, waits, nil_dereference,
}
use qube_enterprise_home.Relay.BufferList.Order.{pending, same}
use qube_enterprise_home.Relay.BufferList.Sizes.{total_size, IsSized}
use qube_enterprise_home.Relay.Retry.{
  RetryBuffer, mark, new_retry_buffer, post, waiting, enqueue, run_take, retry_initial,
}
use qube_enterprise_home.Relay.Retry.Backoff.{attempts}
use qube_enterprise_home.Relay.Retry.Runs.{
  Write, writes_for, batches, logged, Run, start, next, enqueues, takes,
}
use qube_enterprise_home.Relay.Retry.Delivery.{delivered_in_order, flight_size, buffer_bounded}
use qube_enterprise_home.Relay.Retry.Post.{attempts-done}
use qube_enterprise_home.Relay.Http.{
  Values, get, set_value, lines, Request, prepare, forwards, with_default_rp,
}
use qube_enterprise_home.Relay.Http.Backend.{Sending, Received, simple_post, OutputConfig}
use qube_enterprise_home.Relay.Udp.{Sent, post_from, last_newline, post_packets}
use qube_enterprise_home.Relay.Udp.Packets.{IsCut, post_packets-IsCut}
use qube_enterprise_home.Relay.Service.{new_service, add_relays, service}

abbrev fresh : RetryBuffer
fresh = new_retry_buffer 10 4 2000000000

abbrev write_a : Write
write_a = record { buf = 1 ∷ 2 ∷ 3 ∷ []; query = "db=a"; auth = "" }

abbrev write_b : Write
write_b = record { buf = 4 ∷ 5 ∷ []; query = "db=a"; auth = "" }

abbrev after_a : RetryBuffer
after_a = (enqueue write_a.buf write_a.query write_a.auth fresh).1

abbrev after_b : RetryBuffer
after_b = (enqueue write_b.buf write_b.query write_b.auth after_a).1

abbrev log_a : List Write
log_a = logged (enqueue write_a.buf write_a.query write_a.auth fresh).0 write_a []

abbrev log_b : List Write
log_b = logged (enqueue write_b.buf write_b.query write_b.auth after_a).0 write_b log_a

Run-ab : Run fresh log_b (run_take after_b)
Run-ab =
    next (next (next start (enqueues write_a refl refl)) (enqueues write_b refl refl))
      (takes refl refl)

-- The second write does not fit the first batch, and opens another one.
two_batches : pending "db=a" "" (batches (run_take after_b)) ≡ (1 ∷ 2 ∷ 3 ∷ []) ∷ (4 ∷ 5 ∷ []) ∷ []
unfolding pending batches run_take enqueue add place skips pop new_retry_buffer same
two_batches = refl

delivered_in_order_example :
    pending "db=a" "" (batches (run_take after_b)) ≡ writes_for "db=a" "" log_b
delivered_in_order_example = delivered_in_order 10 4 2000000000 Run-ab "db=a" ""

buffer_bounded_example :
    ((run_take after_b).list.size ≡ total_size (run_take after_b).list.head)
    × ((run_take after_b).list.size ≤ 10)
    × (flight_size (run_take after_b).flight ≤ 10)
    × (pop (run_take after_b).list ≢ nil_dereference)
buffer_bounded_example = buffer_bounded 10 4 2000000000 Run-ab

abbrev full : ResponseData
full = record { content_type = ""; content_encoding = ""; status_code = 204; body = [] }

abbrev busy : ResponseData
busy = record { content_type = ""; content_encoding = ""; status_code = 503; body = [] }

abbrev batch_a : Batch
batch_a = record { id = 0; query = "db=a"; auth = ""; bufs = (1 ∷ []) ∷ []; size = 1; full = false }

abbrev held : RetryBuffer
held = record {
  buffering = true;
  max_interval = 2000000000;
  list = new_buffer_list 10 4;
  flight = some (record { batch = batch_a; interval = retry_initial });
  done = [];
}

attempts-done_example :
    attempts ((none ∷ some busy ∷ []) ++ (some full ∷ [])) held
    ≡ record held { buffering = false; flight = none; done = [] ++ ((batch_a, full) ∷ []) }
attempts-done_example =
    attempts-done (none ∷ some busy ∷ []) full held batch_a (tt, (refl, tt)) (omega arith) refl

buffered : (post none (1 ∷ []) "db=a" "" fresh).0 ≡ waiting 0
unfolding post enqueue add place new_retry_buffer mark
buffered = refl

new_IsSized : IsSized (new_buffer_list 10 4)
unfolding new_buffer_list total_size
new_IsSized = record { counted = refl; within = omega arith; batches = tt }

new_waits : pop (new_buffer_list 10 4) ≡ waits
unfolding pop new_buffer_list
new_waits = refl

abbrev unzip : Option Bytes → Option (Option Bytes)
unzip none = none
unzip (some []) = none
unzip (some (x ∷ xs)) = some (some xs)

abbrev points : Bytes → String → Option (List ℕ)
points bytes precision = some bytes

abbrev show : ℕ → String → Bytes
show p precision = p ∷ []

abbrev encoded : Values → String
encoded [] = ""
encoded ((k, v) ∷ rest) = v

abbrev write_request : Request
write_request = record {
  path = "/write";
  method = "POST";
  query = ("db", "edgex") ∷ [];
  content_encoding = "";
  authorization = "token";
  body = some (65 ∷ 66 ∷ []);
}

forwarded :
    prepare unzip points show encoded "rp1" write_request
    ≡ forwards (65 ∷ 10 ∷ 66 ∷ 10 ∷ []) "rp1" "token"
unfolding prepare get with_default_rp lines set_value
forwarded = refl

abbrev bad_gzip : Request
bad_gzip = record write_request { content_encoding = "gzip"; body = some [] }

has_db : get bad_gzip.query "db" ≢ ""
unfolding get
has_db h = cc

abbrev received : Received
received = record {
  status = 400;
  header = ("Content-Type", "application/json") ∷ [];
  body = some (33 ∷ []);
}

abbrev answered : Sending → Option Received
answered sent = some received

abbrev every_location : String → Bool
every_location s = true

abbrev lost : ResponseData
lost = record { content_type = ""; content_encoding = ""; status_code = 400; body = 33 ∷ [] }

lost_posted : simple_post every_location answered "http://db" [] "" "" ≡ some lost
unfolding simple_post get
lost_posted = refl

answered_real :
    (sent : Sending) (r : Received)
    → answered sent ≡ some r
    → (get r.header "Conent-Type" ≡ "") × (get r.header "Conent-Encoding" ≡ "")
unfolding get
answered_real sent r h = let e : received ≡ r = some-injective received r h in rw (← e) (refl, refl)

abbrev output : OutputConfig
output = record {
  name = "";
  location = "http://influxdb:8086/write";
  timeout = "";
  buffer_size_mb = 100;
  max_batch_kb = 0;
  max_delay_interval = "5 apples";
  skip_tls_verification = false;
}

abbrev no_duration : String → Option ℕ
no_duration s = none

abbrev always : ℕ → Bool
always n = true

-- Three lines of two bytes at an MTU of 5.
cut_at_lines :
    post_packets 5 always (65 ∷ 10 ∷ 66 ∷ 10 ∷ 67 ∷ 10 ∷ [])
    ≡ some (record {
      packets = (65 ∷ 10 ∷ 66 ∷ 10 ∷ []) ∷ (67 ∷ 10 ∷ []) ∷ [];
      rest = [];
      error = none;
    })
unfolding post_packets post_from last_newline
cut_at_lines = refl

post_packets-IsCut_example :
    (s : Sent) × (post_packets 5 always (65 ∷ 10 ∷ []) ≡ some s) × IsCut 5 (65 ∷ 10 ∷ []) s
post_packets-IsCut_example = post_packets-IsCut 5 always (65 ∷ 10 ∷ [])

two_relays : new_service (some "http" ∷ []) (some "udp" ∷ []) ≡ service ("udp" ∷ "http" ∷ [])
unfolding new_service add_relays
two_relays = refl
