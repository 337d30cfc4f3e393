-- ===== src/Relay/Retry/Backoff.antt =====
-- The intervals between the attempts at one batch (influxdb-relay/relay/retry.go, `run`).
use Prim.Native.Nat.{min}
use qube_enterprise_home.Prelude.{
  refl, ap, length, ◌+◌, List, [], ◌∷◌, none, some, ◌/◌, ℕ, zero, suc, ◌+◌, ◌*◌, ◌^◌, ◌≤◌, ◌≡◌, ◌∙◌,
  arith,
}
use native.Mathlib.Nat.{pow-suc}
use qube_enterprise_home.Relay.Response.{Reply}
use qube_enterprise_home.Relay.BufferList.{Batch}
use qube_enterprise_home.Relay.Retry.{
  RetryBuffer, retry_initial, next_interval, attempt_for, run_attempt,
}

-- The interval behind `k` failed attempts at one batch.
unfoldable pub interval_after : ℕ → ℕ → ℕ
interval_after max zero = retry_initial
interval_after max (suc k) = next_interval max (interval_after max k)

next_interval-min :
    (max i : ℕ) → max ≤ 2 ^ 62 → i ≤ 2 ^ 62 → i ≤ max → next_interval max i ≡ min (i * 2) max
unfolding next_interval
next_interval-min max i h k l = ground arith

next_interval-first :
    (max : ℕ) → max ≤ 2 ^ 62 → next_interval max retry_initial ≡ min (retry_initial * 2) max
unfolding next_interval
next_interval-first max h = ground arith

-- For a maximum of at most 2 ^ 62 ns, the sleep behind attempt `k + 1` is the initial interval doubled
-- as often, cut at the maximum.
interval_after-min :
    (max k : ℕ) → max ≤ 2 ^ 62 → interval_after max (suc k) ≡ min (retry_initial * 2 ^ suc k) max
unfolding interval_after
interval_after-min max zero h = next_interval-first max h
interval_after-min max (suc k) h =
    let before = interval_after-min max k h in
    next_interval-min max (interval_after max (suc k)) h (omega (arith, before))
      (omega (arith, before))
    ∙ omega (arith, before, pow-suc 2 (suc k))

-- A reply that both loops take for a failure: an error, or a status of 500 to 599.
abbrev pub Fails : Reply → Type 0
Fails none = Unit
Fails (some resp) = resp.status_code / 100 ≡ 5

abbrev pub AllFail : List Reply → Type 0
AllFail [] = Unit
AllFail (x ∷ xs) = Fails x × AllFail xs

-- The inner loop of `run`, over the answers of the backend.
unfoldable pub attempts : List Reply → RetryBuffer → RetryBuffer
attempts [] r = r
attempts (x ∷ xs) r = attempts xs (run_attempt x r)

run_attempt-Fails :
    (x : Reply) (r : RetryBuffer) (b : Batch) (i : ℕ)
    → Fails x
    → r.flight ≡ some (record { batch = b; interval = i })
    → run_attempt x r
      ≡ record r { flight = some (record { batch = b; interval = next_interval r.max_interval i }) }
unfolding run_attempt
run_attempt-Fails none r b i h e = rw (e, attempt_for)
run_attempt-Fails (some resp) r b i h e = rw (e, attempt_for, h)

-- Behind a row of failures the batch is still held, with the interval of as many doublings.
pub attempts-fail :
    (xs : List Reply) (r : RetryBuffer) (b : Batch) (k : ℕ)
    → AllFail xs
    → r.flight ≡ some (record { batch = b; interval = interval_after r.max_interval k })
    → attempts xs r ≡ record r {
      flight =
          some (record { batch = b; interval = interval_after r.max_interval (length xs + k) });
    }
unfolding attempts interval_after
attempts-fail [] r b k h e = let z : 0 + k ≡ k = omega arith in rw (z, ← e)
attempts-fail (x ∷ xs) r b k h e =
    let i = interval_after r.max_interval k in
    let r' = record r {
      flight = some (record { batch = b; interval = next_interval r.max_interval i });
    } in
    let one_more : length xs + suc k ≡ suc (length xs) + k = omega arith in
    rw (run_attempt-Fails x r b i h.0 e) (
      attempts-fail xs r' b (suc k) h.1 refl
      ∙ ap
          (λ n. record r {
            flight = some (record { batch = b; interval = interval_after r.max_interval n });
          })
          one_more)
