-- ===== src/Commands/Sending.antt =====
-- The last step of `sendCommandHandler` (cloud/internal/api/commands.go) against an acknowledgement that is
-- faster than it.
use qube_enterprise_home.Prelude.{
  ℕ, suc, ◌≤◌, ◌<◌, ◌≡◌, ◌↔◌, inl, inr, Bool, true, [], ◌∷◌, String, ◌==◌, if◌then◌else◌, arith,
  Bool-cases,
}
use qube_enterprise_home.Commands.{
  Status, Command, Table, update, affected, mark_sent, acked, ack_message, ack_request,
  valid_status, to_status,
}

below-if : (b : Bool) (x y : ℕ) → x ≤ y → x ≤ (if b then suc y else y)
below-if b x y h = ground arith

acked-true :
    (qube id : ℕ) (c : Command)
    → acked qube id c ≡ true
    → ((c.id == id) ≡ true) × ((c.qube == qube) ≡ true)
acked-true qube id c h = ground arith

-- Marking as sent opens every row of the command again.
affected-mark_sent :
    (qube id : ℕ) (status : Status) (t : Table)
    → affected (acked qube id) t
      ≤ affected (acked qube id) (mark_sent id (update (acked qube id) status t))
unfolding affected mark_sent update
affected-mark_sent qube id status [] = omega arith
affected-mark_sent qube id status (c ∷ cs) = elim (Bool-cases (acked qube id c)) [
  | inl hit ↦
      let (same_id, same_qube) = acked-true qube id c hit in
      rw (hit, same_id, same_id, same_qube) (omega (arith, affected-mark_sent qube id status cs))
  | inr miss ↦ rw miss (below-if _ _ _ (affected-mark_sent qube id status cs))
]

affected-request :
    (qube id : ℕ) (t : Table)
    → ((ack_request qube id "executed" t).0 ≡ 200) ↔ (0 < affected (acked qube id) t)
unfolding ack_request valid_status
affected-request qube id t = elim (Bool-cases (affected (acked qube id) t == 0)) [
  | inl nothing ↦ rw nothing (ground arith)
  | inr some_rows ↦ rw some_rows (ground arith)
]

-- A command that its Qube acknowledges before the handler that sent it marks it as sent is open again behind
-- that, whether it was executed or had failed: a second acknowledgement is accepted like the first.
pub mark_sent-reopens :
    (qube id : ℕ) (status : String) (t : Table)
    → valid_status status ≡ true
    → (ack_request qube id "executed" t).0 ≡ 200
    → (ack_request qube id "executed" (mark_sent id (ack_message qube id status t))).0 ≡ 200
unfolding ack_message
mark_sent-reopens qube id status t good h =
    let before = (affected-request qube id t).0 h in
    rw good (
      (affected-request qube id _).1
        (omega (arith, before, affected-mark_sent qube id (to_status status) t)))
