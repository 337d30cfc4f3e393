-- ===== src/Commands/Polling.antt =====
-- Commands that a Qube polls for (`pollCommandsHandler`, cloud/internal/tpapi/commands.go).
use qube_enterprise_home.Prelude.{
  ℕ, ◌+◌, ◌<◌, ◌≡◌, refl, sym, ◌∙◌, inl, inr, true, ◌&&◌, List, [], ◌∷◌, ◌==◌, arith, Bool-cases,
  take,
}
use qube_enterprise_home.Commands.{
  Status, sent, timeout, Command, Table, is_open, is_pending, update, affected, select, acked,
  ack_request, valid_status, due, expired, mark_polled, poll,
}

pending-open : (s : Status) → is_pending s ≡ true → is_open s ≡ true
pending-open s h = ground arith

-- Every open row of a command is older than five minutes.
abbrev pub AreLate : ℕ → ℕ → ℕ → Table → Type 0
AreLate qube id now [] = Unit
AreLate qube id now (c ∷ cs) =
    (acked qube id c ≡ true → c.created + 300 < now) × AreLate qube id now cs

acked-sent :
    (qube id : ℕ) (d : Command)
    → is_pending d.status ≡ true
    → acked qube id (record d { status = sent }) ≡ acked qube id d
acked-sent qube id d h = let open_too = pending-open d.status h in rw open_too refl

update-AreLate :
    (qube id now k : ℕ) (t : Table)
    → AreLate qube id now t
    → AreLate qube id now (update (λ d. d.id == k && is_pending d.status) sent t)
unfolding update
update-AreLate qube id now k [] h = tt
update-AreLate qube id now k (d ∷ ds) h = elim (Bool-cases (d.id == k && is_pending d.status)) [
  | inl hit ↦ rw hit (
    λ e. h.0 (sym (acked-sent qube id d (ground arith)) ∙ e),
    update-AreLate qube id now k ds h.1,
  )
  | inr miss ↦ rw miss (h.0, update-AreLate qube id now k ds h.1)
]

mark_polled-AreLate :
    (qube id now : ℕ) (cmds t : Table)
    → AreLate qube id now t
    → AreLate qube id now (mark_polled cmds t)
unfolding mark_polled
mark_polled-AreLate qube id now [] t h = h
mark_polled-AreLate qube id now (c ∷ cs) t h =
    mark_polled-AreLate qube id now cs _ (update-AreLate qube id now c.id t h)

affected-expired :
    (qube id now : ℕ) (t : Table)
    → AreLate qube id now t
    → affected (acked qube id) (update (expired qube now) timeout t) ≡ 0
unfolding affected update
affected-expired qube id now [] h = refl
affected-expired qube id now (c ∷ cs) h = elim (Bool-cases (acked qube id c)) [
  | inl hit ↦
      let old : expired qube now c ≡ true = ground (arith, h.0 hit) in
      rw old (ground (arith, affected-expired qube id now cs h.1))
  | inr miss ↦ elim (Bool-cases (expired qube now c)) [
    | inl old ↦ rw old (ground (arith, affected-expired qube id now cs h.1))
    | inr new ↦ rw (new, miss) (affected-expired qube id now cs h.1)
  ]
]

-- The first command of the queue, if it is open and all its open rows are more than five minutes old, is given to its
-- Qube by a poll, and the same poll times it out: the acknowledgement that it was executed is answered with 404.
pub poll-late :
    (now : ℕ) (c : Command) (rest : Table)
    → is_open c.status ≡ true
    → AreLate c.qube c.id now (c ∷ rest)
    → ((more : List Command) × ((poll c.qube now (c ∷ rest)).0 ≡ c ∷ more))
      × ((ack_request c.qube c.id "executed" (poll c.qube now (c ∷ rest)).1).0 ≡ 404)
unfolding poll ack_request valid_status
poll-late now c rest h late =
    let mine : due c.qube c ≡ true = ground arith in
    let none_left = affected-expired c.qube c.id now _ (
      mark_polled-AreLate c.qube c.id now (take 10 (select (due c.qube) (c ∷ rest))) (c ∷ rest)
        late) in
    ((take 9 (select (due c.qube) rest), unfold select in rw mine refl), rw none_left refl)
