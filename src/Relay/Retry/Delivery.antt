-- ===== src/Relay/Retry/Delivery.antt =====
-- What is buffered is delivered, once and in order, however the goroutines of
-- influxdb-relay/relay/retry.go interleave.
use qube_enterprise_home.Prelude.{
  ℕ, ◌≤◌, ◌≢◌, ◌/◌, ◌==◌, Bool-cases, String, ◌≡◌, refl, sym, ap, ◌∙◌, Option, none, some, List, [],
  ◌∷◌, ◌++◌, map, if◌then◌else◌, inl, inr, arith, Option-cases,
}
use mathlib.Core.List.{append_assoc, map-append}
use qube_enterprise_home.Relay.Response.{ResponseData, Reply}
use qube_enterprise_home.Relay.BufferList.{
  Batch, BufferList, add, added, add-eq-some, pop, pop-eq-took, Popped, waits, nil_dereference,
  took,
}
use qube_enterprise_home.Relay.BufferList.Order.{
  same, pending, IsOrdered, place-IsOrdered, pending-place, append_if, append-append_if,
}
use qube_enterprise_home.Relay.BufferList.Sizes.{
  IsSized, total_size, pop-ne-nil_dereference, add-IsSized, pop-IsSized,
}
use qube_enterprise_home.Relay.Retry.{
  new_retry_buffer, Flight, RetryBuffer, after_add, after_pop, take_for, attempt_for, after_attempt,
  finish, retry, mark, enqueue, run_take, run_attempt,
}
use qube_enterprise_home.Relay.Retry.Runs.{
  Write, writes_for, in_flight, batches, logged, Step, marks, enqueues, takes, attempts, Run, start,
  next,
}

-- The bytes of the batch that `run` holds.
abbrev pub flight_size : Option Flight → ℕ
flight_size none = 0
flight_size (some f) = f.batch.size

pub record IsDelivering (size : ℕ) (log : List Write) (r : RetryBuffer) : Type 0 where
  pub capacity : r.list.max_size ≡ size
  pub ordered : IsOrdered r.list.head
  pub sized : IsSized r.list
  pub flying : flight_size r.flight ≤ size
  pub fifo : (q a : String) → pending q a (batches r) ≡ writes_for q a log

pending-append :
    (q a : String) (xs ys : List Batch) → pending q a (xs ++ ys) ≡ pending q a xs ++ pending q a ys
unfolding pending
pending-append q a [] ys = refl
pending-append q a (b ∷ xs) ys = simp (pending-append q a xs ys, append_assoc)

writes_for-snoc :
    (q a : String) (log : List Write) (w : Write)
    → writes_for q a (log ++ (w ∷ []))
      ≡ append_if (same w.query w.auth q a) w.buf (writes_for q a log)
unfolding writes_for
writes_for-snoc q a [] w = unfold append_if in ground arith
writes_for-snoc q a (x ∷ log) w =
    rw (writes_for-snoc q a log w)
      (append-append_if _ w.buf (if same x.query x.auth q a then x.buf ∷ [] else []) _)

pending-batches :
    (q a : String) (r : RetryBuffer)
    → pending q a (batches r)
      ≡ pending q a (map (λ (d : Batch × ResponseData). d.0) r.done)
        ++ (pending q a (in_flight r.flight) ++ pending q a r.list.head)
unfolding batches
pending-batches q a r = simp pending-append

pending-added :
    (w : Write) (q a : String) (r : RetryBuffer) (l : BufferList)
    → IsOrdered r.list.head
    → l ≡ added w.buf w.query w.auth r.list
    → pending q a (batches (record r { list = l }))
      ≡ append_if (same w.query w.auth q a) w.buf (pending q a (batches r))
pending-added w q a r l h e =
    let done = pending q a (map (λ (d : Batch × ResponseData). d.0) r.done) in
    let flight = pending q a (in_flight r.flight) in
    simp pending-batches (
      rw (e, pending-place r.list.next_id r.list.max_batch w.buf w.query w.auth q a r.list.head h)
        (ap (λ xs. done ++ xs) (append-append_if _ w.buf flight _)
          ∙ append-append_if _ w.buf done _))

added-IsDelivering :
    (size : ℕ) (w : Write) (log : List Write) (r : RetryBuffer)
    → IsDelivering size log r
    → (l : BufferList) (id : ℕ) → add w.buf w.query w.auth r.list ≡ some (l, id)
    → IsDelivering size (log ++ (w ∷ [])) (record r { list = l })
added-IsDelivering size w log r h l id e =
    let (_, new, _) = add-eq-some w.buf w.query w.auth r.list l id e in
    record {
      capacity = rw new h.capacity;
      ordered = rw new (
          place-IsOrdered r.list.next_id r.list.max_batch w.buf w.query w.auth r.list.head
            h.ordered);
      sized = add-IsSized w.buf w.query w.auth r.list l id h.sized e;
      flying = h.flying;
      fifo = λ q a.
          pending-added w q a r l h.ordered new
          ∙ (ap (append_if (same w.query w.auth q a) w.buf) (h.fifo q a)
              ∙ sym (writes_for-snoc q a log w));
    }

enqueue-IsDelivering :
    (size : ℕ) (w : Write) (log : List Write) (r : RetryBuffer)
    → IsDelivering size log r
    → IsDelivering size
        (logged (enqueue w.buf w.query w.auth r).0 w log)
        (enqueue w.buf w.query w.auth r).1
unfolding enqueue after_add logged
enqueue-IsDelivering size w log r h = elim (Option-cases (add w.buf w.query w.auth r.list)) [
  | inl full ↦ rw full h
  | inr ((l, id), e) ↦ rw e (added-IsDelivering size w log r h l id e)
]

batches-after_pop :
    (r : RetryBuffer) (p : Popped)
    → r.flight ≡ none
    → pop r.list ≡ p
    → batches (after_pop p r) ≡ batches r
unfolding batches after_pop
batches-after_pop r waits h e = refl
batches-after_pop r nil_dereference h e = refl
batches-after_pop r (took b l) h e = rw (h, (pop-eq-took r.list l b e).0)

batches-take_for :
    (fl : Option Flight) (r : RetryBuffer) → r.flight ≡ fl → batches (take_for fl r) ≡ batches r
unfolding take_for
batches-take_for none r e = batches-after_pop r (pop r.list) e refl
batches-take_for (some f) r e = refl

-- `finish` moves the batch that was held to the end of those done.
batches-finish :
    (resp : ResponseData) (f : Flight) (r : RetryBuffer)
    → r.flight ≡ some f
    → batches (finish resp f r) ≡ batches r
unfolding batches finish
batches-finish resp f r e = rw (e, in_flight) (simp (map-append, append_assoc))

batches-retry : (f : Flight) (r : RetryBuffer) → r.flight ≡ some f → batches (retry f r) ≡ batches r
unfolding batches retry
batches-retry f r e = rw (e, in_flight)

batches-attempt_for :
    (fl : Option Flight) (x : Reply) (r : RetryBuffer)
    → r.flight ≡ fl
    → batches (attempt_for fl x r) ≡ batches r
unfolding attempt_for after_attempt
batches-attempt_for none x r e = refl
batches-attempt_for (some f) none r e = batches-retry f r e
batches-attempt_for (some f) (some resp) r e =
    ground (arith, batches-retry f r e, batches-finish resp f r e)

list-after_attempt :
    (x : Reply) (f : Flight) (r : RetryBuffer) → (after_attempt x f r).list ≡ r.list
unfolding after_attempt finish retry
list-after_attempt none f r = refl
list-after_attempt (some resp) f r = ground arith

list-attempt_for :
    (fl : Option Flight) (x : Reply) (r : RetryBuffer) → (attempt_for fl x r).list ≡ r.list
unfolding attempt_for
list-attempt_for none x r = refl
list-attempt_for (some f) x r = list-after_attempt x f r

flight-after_attempt :
    (x : Reply) (f : Flight) (r : RetryBuffer)
    → flight_size (after_attempt x f r).flight ≤ f.batch.size
unfolding after_attempt finish retry
flight-after_attempt none f r = omega arith
flight-after_attempt (some resp) f r = elim (Bool-cases (resp.status_code / 100 == 5)) [
  | inl again ↦ rw again (omega arith)
  | inr over ↦ rw over (omega arith)
]

flight-attempt_for :
    (size : ℕ) (fl : Option Flight) (x : Reply) (r : RetryBuffer)
    → r.flight ≡ fl
    → flight_size r.flight ≤ size
    → flight_size (attempt_for fl x r).flight ≤ size
unfolding attempt_for
flight-attempt_for size none x r e h = h
flight-attempt_for size (some f) x r e h =
    let held : f.batch.size ≤ size = rw e at h in omega (arith, held, flight-after_attempt x f r)

attempt-IsDelivering :
    (size : ℕ) (x : Reply) (log : List Write) (r : RetryBuffer)
    → IsDelivering size log r
    → IsDelivering size log (run_attempt x r)
unfolding run_attempt
attempt-IsDelivering size x log r h = record {
  capacity = rw (list-attempt_for r.flight x r) h.capacity;
  ordered = rw (list-attempt_for r.flight x r) h.ordered;
  sized = rw (list-attempt_for r.flight x r) h.sized;
  flying = flight-attempt_for size r.flight x r refl h.flying;
  fifo = λ q a. rw (batches-attempt_for r.flight x r refl) (h.fifo q a);
}

-- The parts of the invariant that are about sizes and ids.
abbrev IsKept : ℕ → RetryBuffer → Type 0
IsKept size r =
    IsOrdered r.list.head
    × IsSized r.list
    × (r.list.max_size ≡ size)
    × (flight_size r.flight ≤ size)

after_pop-IsKept :
    (size : ℕ) (r : RetryBuffer) (p : Popped)
    → pop r.list ≡ p
    → IsKept size r
    → IsKept size (after_pop p r)
unfolding after_pop
after_pop-IsKept size r waits e h = h
after_pop-IsKept size r nil_dereference e h = h
after_pop-IsKept size r (took b l) e h =
    let ordered : IsOrdered (b ∷ l.head) = rw (pop-eq-took r.list l b e).0 at h.0 in
    let (smaller, fits) = pop-IsSized r.list l b h.1 e in
    (
      ordered.1,
      smaller,
      ap (λ (x : BufferList). x.max_size) (pop-eq-took r.list l b e).1 ∙ h.2,
      omega (arith, fits, h.1.within, h.2),
    )

take_for-IsKept :
    (size : ℕ) (fl : Option Flight) (r : RetryBuffer) → IsKept size r → IsKept size (take_for fl r)
unfolding take_for
take_for-IsKept size none r h = after_pop-IsKept size r (pop r.list) refl h
take_for-IsKept size (some f) r h = h

take-IsDelivering :
    (size : ℕ) (log : List Write) (r : RetryBuffer)
    → IsDelivering size log r
    → IsDelivering size log (run_take r)
unfolding run_take
take-IsDelivering size log r h =
    let (ordered, sized, capacity, flying) =
      take_for-IsKept size r.flight r (h.ordered, h.sized, h.capacity, h.flying) in
    record {
      capacity = capacity;
      ordered = ordered;
      sized = sized;
      flying = flying;
      fifo = λ q a. rw (batches-take_for r.flight r refl) (h.fifo q a);
    }

mark-IsDelivering :
    (size : ℕ) (log : List Write) (r : RetryBuffer)
    → IsDelivering size log r
    → IsDelivering size log (mark r)
unfolding mark batches
mark-IsDelivering size log r h = record {
  capacity = h.capacity;
  ordered = h.ordered;
  sized = h.sized;
  flying = h.flying;
  fifo = h.fifo;
}

Step-IsDelivering :
    (size : ℕ) {log log' : List Write} {r r' : RetryBuffer}
    → Step log r log' r'
    → IsDelivering size log r
    → IsDelivering size log' r'
Step-IsDelivering size {log} {r = r} (marks e e') h = rw (e, e') (mark-IsDelivering size log r h)
Step-IsDelivering size {log} {r = r} (enqueues w e e') h =
    rw (e, e') (enqueue-IsDelivering size w log r h)
Step-IsDelivering size {log} {r = r} (takes e e') h = rw (e, e') (take-IsDelivering size log r h)
Step-IsDelivering size {log} {r = r} (attempts x e e') h =
    rw (e, e') (attempt-IsDelivering size x log r h)

new-IsDelivering : (size batch max : ℕ) → IsDelivering size [] (new_retry_buffer size batch max)
unfolding new_retry_buffer batches pending writes_for total_size
new-IsDelivering size batch max = record {
  capacity = refl;
  ordered = tt;
  sized = record { counted = refl; within = omega arith; batches = tt };
  flying = omega arith;
  fifo = λ q a. refl;
}

Run-IsDelivering :
    (size : ℕ) {origin : RetryBuffer} {log : List Write} {r : RetryBuffer}
    → IsDelivering size [] origin
    → Run origin log r
    → IsDelivering size log r
Run-IsDelivering size h start = h
Run-IsDelivering size h (next run step) = Step-IsDelivering size step (Run-IsDelivering size h run)

-- In every interleaving, for every query and credentials: the writes delivered, then those that `run`
-- holds, then those that wait are together the writes accepted, each once and in the order of acceptance.
pub delivered_in_order :
    (size batch max : ℕ) {log : List Write} {r : RetryBuffer}
    → Run (new_retry_buffer size batch max) log r
    → (q a : String) → pending q a (batches r) ≡ writes_for q a log
delivered_in_order size batch max run =
    (Run-IsDelivering size (new-IsDelivering size batch max) run).fifo

-- In every interleaving the counted bytes are those of the batches that wait, and within the size that
-- the buffer was made with; the batch that is being retried, which is no longer counted, has at most that many
-- bytes too; and `pop` does not run into nil.
pub buffer_bounded :
    (size batch max : ℕ) {log : List Write} {r : RetryBuffer}
    → Run (new_retry_buffer size batch max) log r
    → (r.list.size ≡ total_size r.list.head)
      × (r.list.size ≤ size)
      × (flight_size r.flight ≤ size)
      × (pop r.list ≢ nil_dereference)
buffer_bounded size batch max {r = r} run =
    let h = Run-IsDelivering size (new-IsDelivering size batch max) run in
    let sized = h.sized in
    (
      sized.counted,
      omega (arith, sized.within, h.capacity),
      h.flying,
      pop-ne-nil_dereference r.list sized,
    )
