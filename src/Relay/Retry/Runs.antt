-- ===== src/Relay/Retry/Runs.antt =====
-- The goroutines of a retry buffer interleaved (influxdb-relay/relay/retry.go): the pieces of `post`,
-- called by any number of handlers, and of `run`, in any order.
use qube_enterprise_home.Prelude.{
  String, ◌≡◌, Option, none, some, List, [], ◌∷◌, ◌++◌, map, if◌then◌else◌,
}
use qube_enterprise_home.Relay.Response.{Bytes, ResponseData, Reply}
use qube_enterprise_home.Relay.BufferList.{Batch}
use qube_enterprise_home.Relay.BufferList.Order.{same}
use qube_enterprise_home.Relay.Retry.{
  Flight, RetryBuffer, Posted, waiting, mark, enqueue, run_take, run_attempt,
}

-- A write that `add` has taken.
pub record Write : Type 0 where
  pub buf : Bytes
  pub query : String
  pub auth : String

-- The writes for these parameters.
unfoldable pub writes_for : String → String → List Write → List Bytes
writes_for q a [] = []
writes_for q a (w ∷ ws) = (if same w.query w.auth q a then w.buf ∷ [] else []) ++ writes_for q a ws

unfoldable pub in_flight : Option Flight → List Batch
in_flight none = []
in_flight (some f) = f.batch ∷ []

-- Every batch that there has been: those done, the one that `run` holds, those that wait.
unfoldable pub batches : RetryBuffer → List Batch
unfolding in_flight
batches r = map (λ (d : Batch × ResponseData). d.0) r.done ++ (in_flight r.flight ++ r.list.head)

unfoldable pub logged : Posted → Write → List Write → List Write
logged (waiting id) w log = log ++ (w ∷ [])
logged _ w log = log

-- One uninterrupted piece of one goroutine, with the writes taken so far.
pub data Step (log : List Write) (r : RetryBuffer) (log' : List Write) (r' : RetryBuffer)
    : Type 0 where
  marks : log' ≡ log → r' ≡ mark r → Step log r log' r'
  enqueues :
      (w : Write)
      → log' ≡ logged (enqueue w.buf w.query w.auth r).0 w log
      → r' ≡ (enqueue w.buf w.query w.auth r).1
      → Step log r log' r'
  takes : log' ≡ log → r' ≡ run_take r → Step log r log' r'
  attempts : (reply : Reply) → log' ≡ log → r' ≡ run_attempt reply r → Step log r log' r'

pub data Run (origin : RetryBuffer) : List Write → RetryBuffer → Type 0 where
  start : Run origin [] origin
  next :
      {log log' : List Write} {r r' : RetryBuffer}
      → Run origin log r
      → Step log r log' r'
      → Run origin log' r'
