-- ===== src/Commands/Acks.antt =====
-- Acknowledged commands (cloud/internal/tpapi/commands.go, cloud/internal/api/websocket.go).
use qube_enterprise_home.Prelude.{
  ℕ, ◌≡◌, refl, ◌∙◌, inl, inr, Bool, true, false, not, ◌&&◌, [], ◌∷◌, ◌++◌, String, ◌==◌,
  if◌then◌else◌, arith, Bool-cases, take, str_eq,
}
use qube_enterprise_home.Commands.{
  Status, Command, Table, is_open, is_pending, update, affected, select, queue_command, acked,
  ack_message, ack_request, valid_status, to_status, due, expired, mark_polled, poll, timeout, sent,
}

-- Row by row, a table is kept: the commands stay, and those that are executed, failed or timed out stay so. New
-- rows are at the end.
abbrev pub Keeps : Table → Table → Type 0
Keeps [] ds = Unit
Keeps (c ∷ cs) [] = ⊥
Keeps (c ∷ cs) (d ∷ ds) =
    (d.id ≡ c.id)
    × (d.qube ≡ c.qube)
    × (d.command ≡ c.command)
    × (is_open c.status ≡ false → d.status ≡ c.status)
    × Keeps cs ds

Keeps-append : (t new : Table) → Keeps t (t ++ new)
Keeps-append [] new = tt
Keeps-append (c ∷ cs) new = (refl, refl, refl, λ h. refl, Keeps-append cs new)

Keeps-refl : (t : Table) → Keeps t t
Keeps-refl [] = tt
Keeps-refl (c ∷ cs) = (refl, refl, refl, λ h. refl, Keeps-refl cs)

Keeps-trans : (t u v : Table) → Keeps t u → Keeps u v → Keeps t v
Keeps-trans [] u v h k = tt
Keeps-trans (c ∷ cs) [] v h k = elim h [ ]
Keeps-trans (c ∷ cs) (d ∷ ds) [] h k = elim k [ ]
Keeps-trans (c ∷ cs) (d ∷ ds) (e ∷ es) (a1, a2, a3, a4, a5) (b1, b2, b3, b4, b5) = (
  b1 ∙ a1,
  b2 ∙ a2,
  b3 ∙ a3,
  λ h. (let same = a4 h in b4 (rw same h) ∙ same),
  Keeps-trans cs ds es a5 b5,
)

true-ne-false : true ≡ false → ⊥
true-ne-false h = cc

pending-open : (s : Status) → is_pending s ≡ true → is_open s ≡ true
pending-open s h = ground arith

-- An `UPDATE` of open rows only keeps the table.
update-Keeps :
    (where' : Command → Bool) (status : Status) (t : Table)
    → ((c : Command) → where' c ≡ true → is_open c.status ≡ true)
    → Keeps t (update where' status t)
unfolding update
update-Keeps where' status [] h = tt
update-Keeps where' status (c ∷ cs) h = elim (Bool-cases (where' c)) [
  | inl hit ↦ rw hit (
    refl,
    refl,
    refl,
    λ closed. absurd (true-ne-false (rw (h c hit) at closed)),
    update-Keeps where' status cs h,
  )
  | inr miss ↦ rw miss (refl, refl, refl, λ closed. refl, update-Keeps where' status cs h)
]

mark_polled-Keeps : (cmds t : Table) → Keeps t (mark_polled cmds t)
unfolding mark_polled
mark_polled-Keeps [] t = Keeps-refl t
mark_polled-Keeps (c ∷ cs) t =
    let marked = update (λ d. d.id == c.id && is_pending d.status) sent t in
    Keeps-trans t marked _
      (update-Keeps (λ d. d.id == c.id && is_pending d.status) sent t
        (λ d h. pending-open d.status (ground arith)))
      (mark_polled-Keeps cs marked)

-- The operations, the last step of sending excepted.
pub data Step : Table → Table → Type 0 where
  queues :
      (owned inserts : Bool) (now id qube : ℕ) (command : String) (t : Table)
      → Step t (queue_command owned inserts now id qube command t).1
  acks : (qube id : ℕ) (status : String) (t : Table) → Step t (ack_message qube id status t)
  requests : (qube id : ℕ) (status : String) (t : Table) → Step t (ack_request qube id status t).1
  polls : (qube now : ℕ) (t : Table) → Step t (poll qube now t).1

pub data Steps : Table → Table → Type 0 where
  start : (t : Table) → Steps t t
  after : (t u v : Table) → Steps t u → Step u v → Steps t v

Keeps-if :
    (b : Bool) (t : Table) (x y : ℕ × Table)
    → Keeps t x.1
    → Keeps t y.1
    → Keeps t (if b then x else y).1
Keeps-if true t x y h k = h
Keeps-if false t x y h k = k

ack_message-Keeps :
    (qube id : ℕ) (status : String) (t : Table) → Keeps t (ack_message qube id status t)
unfolding ack_message
ack_message-Keeps qube id status t = elim (Bool-cases (valid_status status)) [
  | inl good ↦ rw good (update-Keeps (acked qube id) (to_status status) t (λ c h. ground arith))
  | inr bad ↦ rw bad (Keeps-refl t)
]

abbrev given_status : String → String
given_status status = if str_eq status "" then "executed" else status

ack_request-Keeps :
    (qube id : ℕ) (status : String) (t : Table) → Keeps t (ack_request qube id status t).1
unfolding ack_request
ack_request-Keeps qube id status t = elim (Bool-cases (valid_status (given_status status))) [
  | inr bad ↦ rw bad (Keeps-refl t)
  | inl good ↦ elim (Bool-cases (affected (acked qube id) t == 0)) [
    | inl nothing ↦ rw (good, nothing) (Keeps-refl t)
    | inr some_rows ↦
        rw (good, some_rows)
          (update-Keeps (acked qube id) (to_status (given_status status)) t (λ c h. ground arith))
  ]
]

queue_command-Keeps :
    (owned inserts : Bool) (now id qube : ℕ) (command : String) (t : Table)
    → Keeps t (queue_command owned inserts now id qube command t).1
unfolding queue_command
queue_command-Keeps owned inserts now id qube command t =
    Keeps-if _ t (400, t) _ (Keeps-refl t)
      (Keeps-if (not owned) t (404, t) _ (Keeps-refl t)
        (Keeps-if (not inserts) t (500, t) _ (Keeps-refl t) (Keeps-append t _)))

poll-Keeps : (qube now : ℕ) (t : Table) → Keeps t (poll qube now t).1
unfolding poll
poll-Keeps qube now t =
    let marked = mark_polled (take 10 (select (due qube) t)) t in
    Keeps-trans t marked _ (mark_polled-Keeps _ t)
      (update-Keeps (expired qube now) timeout marked (λ c h. ground arith))

Step-Keeps : (t u : Table) → Step t u → Keeps t u
Step-Keeps _ _ (queues owned inserts now id qube command t) =
    queue_command-Keeps owned inserts now id qube command t
Step-Keeps _ _ (acks qube id status t) = ack_message-Keeps qube id status t
Step-Keeps _ _ (requests qube id status t) = ack_request-Keeps qube id status t
Step-Keeps _ _ (polls qube now t) = poll-Keeps qube now t

-- However commands are queued, polled and acknowledged, no command is lost or changed, and one that is
-- executed, failed or timed out stays so.
pub Steps-Keeps : (t u : Table) → Steps t u → Keeps t u
Steps-Keeps _ _ (start t) = Keeps-refl t
Steps-Keeps _ _ (after t u v run step) =
    Keeps-trans t u v (Steps-Keeps t u run) (Step-Keeps u v step)
