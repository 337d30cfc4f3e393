-- ===== src/Relay/Retry/Post.antt =====
-- What `post` and the inner loop of `run` come to (influxdb-relay/relay/retry.go).
use qube_enterprise_home.Prelude.{
  ℕ, ◌+◌, ◌/◌, ◌<◌, String, ◌≡◌, ◌≢◌, ◌↔◌, ◌⊎◌, refl, true, false, none, some, List, [], ◌∷◌, ◌++◌,
  arith, length,
}
use qube_enterprise_home.Relay.Response.{Bytes, ResponseData, Reply}
use qube_enterprise_home.Relay.BufferList.{Batch, add}
use qube_enterprise_home.Relay.Retry.{
  retry_initial, Flight, RetryBuffer, replied, waiting, refused, mark, post, enqueue, after_add,
  run_attempt, attempt_for,
}
use qube_enterprise_home.Relay.Retry.Backoff.{
  Fails, AllFail, attempts, interval_after, attempts-fail,
}

module _ (direct : Reply) (buf : Bytes) (q a : String) (r : RetryBuffer) where
  -- A write is refused exactly if it must be buffered, since the buffer is in use or the backend fails on it,
  -- and does not fit.
  post-refused_iff :
      ((post direct buf q a r).0 ≡ refused)
      ↔ (((r.buffering ≡ true) ⊎ Fails direct) × (r.list.max_size < r.list.size + length buf))
  unfolding post enqueue after_add mark add
  post-refused_iff = ground arith

  -- An answer is the backend's own, which is no failure, and leaves the buffer alone.
  pub post-replied :
      (resp : ResponseData)
      → (post direct buf q a r).0 ≡ replied resp
      → (direct ≡ some resp) × (resp.status_code / 100 ≢ 5) × ((post direct buf q a r).1 ≡ r)
  unfolding post enqueue after_add mark
  post-replied resp h = ground arith

  -- A write that waits met a buffer in use or a direct attempt that failed; the buffer is in use from then on, and
  -- the write is in it, in the batch that it waits for.
  post-waiting :
      (id : ℕ)
      → (post direct buf q a r).0 ≡ waiting id
      → (((r.buffering ≡ true) ⊎ Fails direct))
        × ((post direct buf q a r).1.buffering ≡ true)
        × (add buf q a r.list ≡ some ((post direct buf q a r).1.list, id))
  unfolding post enqueue after_add mark
  post-waiting id h = ground arith

attempts-snoc :
    (xs : List Reply) (x : Reply) (r : RetryBuffer)
    → attempts (xs ++ (x ∷ [])) r ≡ run_attempt x (attempts xs r)
unfolding attempts
attempts-snoc [] x r = refl
attempts-snoc (y ∷ xs) x r = attempts-snoc xs x (run_attempt y r)

-- Once the backend answers with no failure, behind any number of failures, the batch that `run` took is
-- done with that answer, and `run` is free for the next one.
pub attempts-done :
    (xs : List Reply) (resp : ResponseData) (r : RetryBuffer) (b : Batch)
    → AllFail xs
    → resp.status_code / 100 ≢ 5
    → r.flight ≡ some (record { batch = b; interval = retry_initial })
    → attempts (xs ++ (some resp ∷ [])) r
      ≡ record r { buffering = false; flight = none; done = r.done ++ ((b, resp) ∷ []) }
unfolding run_attempt attempt_for interval_after
attempts-done xs resp r b fail good h =
    rw (attempts-snoc xs (some resp) r, attempts-fail xs r b 0 fail h, run_attempt) (ground arith)

-- When `run` marks a batch done, a write that comes next goes to the backend at once, whatever still waits.
overtakes :
    (resp resp' : ResponseData) (r : RetryBuffer) (f : Flight) (buf : Bytes) (q a : String)
    → r.flight ≡ some f
    → resp.status_code / 100 ≢ 5
    → resp'.status_code / 100 ≢ 5
    → (post (some resp') buf q a (run_attempt (some resp) r)).0 ≡ replied resp'
      × ((run_attempt (some resp) r).list ≡ r.list)
unfolding post run_attempt attempt_for
overtakes resp resp' r f buf q a h good good' = rw (h, attempt_for) (ground arith)
