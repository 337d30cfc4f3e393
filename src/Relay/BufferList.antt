-- ===== src/Relay/BufferList.antt =====
-- `batch`, `bufferList`, `newBatch`, `add` and `pop` of influxdb-relay/relay/retry.go. The chain of
-- `next` pointers from `head` is a list; `id` stands for the address of a batch, which `post` keeps
-- to wait on it, and `next_id` is the allocator. Sizes are Go `int`s that stay below the configured
-- maximum, so they are plain numbers here.
pub mod Order
pub mod Sizes
use qube_enterprise_home.Prelude.{
  ℕ, suc, ◌+◌, ◌-◌, String, Bool, false, true, not, ◌&&◌, ◌||◌, Option, none, some, List, [], ◌∷◌,
  ◌++◌, ltb, ◌==◌, ◌≡◌, ◌≤◌, sym, ap, arith, guard-eq-some, inl, inr, Bool-cases, if◌then◌else◌,
  length, str_eq,
}
use qube_enterprise_home.Relay.Response.{Bytes}

pub record Batch : Type 0 where
  pub id : ℕ
  pub query : String
  pub auth : String
  pub bufs : List Bytes
  pub size : ℕ
  pub full : Bool

pub record BufferList : Type 0 where
  pub head : List Batch
  pub size : ℕ
  pub max_size : ℕ
  pub max_batch : ℕ
  pub next_id : ℕ

unfoldable pub new_buffer_list : ℕ → ℕ → BufferList
new_buffer_list max_size max_batch = record {
  head = [];
  size = 0;
  max_size = max_size;
  max_batch = max_batch;
  next_id = 0;
}

unfoldable pub new_batch : ℕ → Bytes → String → String → Batch
new_batch id buf query auth = record {
  id = id;
  query = query;
  auth = auth;
  bufs = buf ∷ [];
  size = length buf;
  full = false;
}

-- The loop's test for going on to the next batch.
unfoldable pub skips : String → String → Batch → Bool
skips query auth b = not (str_eq b.query query) || not (str_eq b.auth auth) || b.full

-- The search for `cur` in `add`, and the write at it: the new chain, and the batch written to.
unfoldable pub place : ℕ → ℕ → Bytes → String → String → List Batch → List Batch × ℕ
unfolding new_batch
place id max_batch buf query auth [] = (new_batch id buf query auth ∷ [], id)
place id max_batch buf query auth (b ∷ next) =
    let rest = place id max_batch buf query auth next in
    if skips query auth b
    then (b ∷ rest.0, rest.1)
    else if ltb max_batch (b.size + length buf)
    then (record b { full = true } ∷ rest.0, rest.1)
    else (record b { size = b.size + length buf; bufs = b.bufs ++ (buf ∷ []) } ∷ next, b.id)

-- The list behind the size check of `add`.
abbrev pub added : Bytes → String → String → BufferList → BufferList
added buf query auth l = record l {
  head = (place l.next_id l.max_batch buf query auth l.head).0;
  size = l.size + length buf;
  next_id = suc l.next_id;
}

-- `none` is `ErrBufferFull`; the number is the batch returned.
unfoldable pub add : Bytes → String → String → BufferList → Option (BufferList × ℕ)
add buf query auth l =
    if ltb l.max_size (l.size + length buf)
    then none
    else some (added buf query auth l, (place l.next_id l.max_batch buf query auth l.head).1)

-- What a successful `add` says.
pub add-eq-some :
    (buf : Bytes) (query auth : String) (l l' : BufferList) (id : ℕ)
    → add buf query auth l ≡ some (l', id)
    → (l.size + length buf ≤ l.max_size)
      × (l' ≡ added buf query auth l)
      × (id ≡ (place l.next_id l.max_batch buf query auth l.head).1)
unfolding add
add-eq-some buf query auth l l' id h =
    let (fits, e) =
      guard-eq-some (ltb l.max_size (l.size + length buf))
        (added buf query auth l, (place l.next_id l.max_batch buf query auth l.head).1) (l', id)
        h in
    (
      ground arith,
      sym (ap (λ (p : BufferList × ℕ). p.0) e),
      sym (ap (λ (p : BufferList × ℕ). p.1) e),
    )

-- What `pop` does once it is scheduled: it waits, or takes the first batch, or dereferences nil.
pub data Popped : Type 0 where
  waits : Popped
  nil_dereference : Popped
  took : Batch → BufferList → Popped

pop_chain : List Batch → BufferList → Popped
pop_chain [] l = nil_dereference
pop_chain (b ∷ next) l = took b (record l { head = next; size = l.size - b.size })

unfoldable pub pop : BufferList → Popped
unfolding pop_chain
pop l = if l.size == 0 then waits else pop_chain l.head l

waits-ne-took : {b : Batch} {l : BufferList} → waits ≡ took b l → ⊥
waits-ne-took h = cc

pop_chain-eq-took :
    (bs : List Batch) (l l' : BufferList) (b : Batch)
    → pop_chain bs l ≡ took b l'
    → (bs ≡ b ∷ l'.head) × (l' ≡ record l { head = l'.head; size = l.size - b.size })
unfolding pop_chain
pop_chain-eq-took [] l l' b h = cc
pop_chain-eq-took (c ∷ cs) l l' b h = (cc, cc)

-- What a successful `pop` says.
pub pop-eq-took :
    (l l' : BufferList) (b : Batch)
    → pop l ≡ took b l'
    → (l.head ≡ b ∷ l'.head) × (l' ≡ record l { head = l'.head; size = l.size - b.size })
unfolding pop
pop-eq-took l l' b h = elim (Bool-cases (l.size == 0)) [
  | inl empty ↦ absurd (waits-ne-took (rw empty at h))
  | inr some_left ↦ pop_chain-eq-took l.head l l' b (rw some_left at h)
]
