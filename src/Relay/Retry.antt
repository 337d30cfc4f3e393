-- ===== src/Relay/Retry.antt =====
-- `retryBuffer` of influxdb-relay/relay/retry.go: `post`, which a request handler calls, and `run`,
-- the goroutine that retries one batch at a time. Each definition is one uninterrupted piece;
-- Retry/Runs.antt interleaves them. A duration is an `int64` of nanoseconds, as its bit pattern.
pub mod Backoff
pub mod Runs
pub mod Delivery
pub mod Post
use qube_enterprise_home.Prelude.{
  ℕ, ◌+◌, ◌*◌, ◌/◌, ◌%◌, ◌^◌, String, Bool, true, false, Option, none, some, List, [], ◌∷◌, ◌++◌,
  ltb, ◌==◌, if◌then◌else◌,
}
use qube_enterprise_home.Relay.Response.{Bytes, ResponseData, Reply}
use qube_enterprise_home.Relay.BufferList.{
  Batch, BufferList, new_buffer_list, add, pop, Popped, waits, nil_dereference, took,
}

-- `retryInitial`, 500 ms, and `retryMultiplier`.
abbrev pub retry_initial : ℕ
retry_initial = 500000000

abbrev pub retry_multiplier : ℕ
retry_multiplier = 2

-- a > b on `int64`.
abbrev pub gt_int64 : ℕ → ℕ → Bool
gt_int64 a b = ltb ((b + 2 ^ 63) % 2 ^ 64) ((a + 2 ^ 63) % 2 ^ 64)

-- The batch that `run` holds, and its `interval`.
pub record Flight : Type 0 where
  pub batch : Batch
  pub interval : ℕ

-- `done` lists the batches that `run` has marked done, the oldest first, each with its `resp`.
pub record RetryBuffer : Type 0 where
  pub buffering : Bool
  pub max_interval : ℕ
  pub list : BufferList
  pub flight : Option Flight
  pub done : List (Batch × ResponseData)

unfoldable pub new_retry_buffer : ℕ → ℕ → ℕ → RetryBuffer
unfolding new_buffer_list
new_retry_buffer size batch max = record {
  buffering = false;
  max_interval = max;
  list = new_buffer_list size batch;
  flight = none;
  done = [];
}

-- What `post` comes to: a response, a wait on a batch, or `ErrBufferFull`.
pub data Posted : Type 0 where
  replied : ResponseData → Posted
  waiting : ℕ → Posted
  refused : Posted

-- `atomic.StoreInt32(&r.buffering, 1)`
unfoldable pub mark : RetryBuffer → RetryBuffer
mark r = record r { buffering = true }

after_add : Option (BufferList × ℕ) → RetryBuffer → Posted × RetryBuffer
after_add none r = (refused, r)
after_add (some (l, id)) r = (waiting id, record r { list = l })

-- `r.list.add`, and the wait behind it.
unfoldable pub enqueue : Bytes → String → String → RetryBuffer → Posted × RetryBuffer
unfolding after_add
enqueue buf query auth r = after_add (add buf query auth r.list) r

-- The test on the outcome of the direct attempt, which is made only if `buffering` is 0.
after_direct : Reply → Bytes → String → String → RetryBuffer → Posted × RetryBuffer
after_direct none buf query auth r = enqueue buf query auth (mark r)
after_direct (some resp) buf query auth r =
    if resp.status_code / 100 == 5 then enqueue buf query auth (mark r) else (replied resp, r)

-- `post` with no other goroutine in between; `direct` is what the backend answers if it is asked.
unfoldable pub post : Reply → Bytes → String → String → RetryBuffer → Posted × RetryBuffer
unfolding after_direct
post direct buf query auth r =
    if r.buffering then enqueue buf query auth r else after_direct direct buf query auth r

after_pop : Popped → RetryBuffer → RetryBuffer
after_pop waits r = r
after_pop nil_dereference r = r
after_pop (took b l) r = record r {
  list = l;
  flight = some (record { batch = b; interval = retry_initial });
}

take_for : Option Flight → RetryBuffer → RetryBuffer
unfolding after_pop
take_for none r = after_pop (pop r.list) r
take_for (some f) r = r

-- The head of the loop of `run`, which holds no batch then.
unfoldable pub run_take : RetryBuffer → RetryBuffer
unfolding take_for
run_take r = take_for r.flight r

-- The interval to sleep behind a failed attempt.
unfoldable pub next_interval : ℕ → ℕ → ℕ
next_interval max interval =
    if interval == max
    then interval
    else let doubled = interval * retry_multiplier % 2 ^ 64 in
      if gt_int64 doubled max then max else doubled

-- The attempt was accepted: the batch is done, and `buffering` is 0 again.
finish : ResponseData → Flight → RetryBuffer → RetryBuffer
finish resp f r = record r {
  buffering = false;
  flight = none;
  done = r.done ++ ((f.batch, resp) ∷ []);
}

retry : Flight → RetryBuffer → RetryBuffer
retry f r = record r {
  flight = some (record f { interval = next_interval r.max_interval f.interval });
}

-- The test on the outcome of an attempt.
after_attempt : Reply → Flight → RetryBuffer → RetryBuffer
unfolding finish retry
after_attempt none f r = retry f r
after_attempt (some resp) f r = if resp.status_code / 100 == 5 then retry f r else finish resp f r

attempt_for : Option Flight → Reply → RetryBuffer → RetryBuffer
unfolding after_attempt
attempt_for none reply r = r
attempt_for (some f) reply r = after_attempt reply f r

-- One round of the inner loop of `run`, if it holds a batch: the backend answers `reply`.
unfoldable pub run_attempt : Reply → RetryBuffer → RetryBuffer
unfolding attempt_for
run_attempt reply r = attempt_for r.flight reply r
