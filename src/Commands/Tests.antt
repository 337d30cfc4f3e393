-- ===== src/Commands/Tests.antt =====
-- A command's life, from the queue to its end.
use qube_enterprise_home.Prelude.{◌≡◌, refl, true, List, arith, [], ◌∷◌}
use qube_enterprise_home.Commands.{
  pending, sent, Command, update, affected, select, queue_command, mark_sent, ack_message,
  ack_request, valid_status, poll, mark_polled, lists,
}
use qube_enterprise_home.Commands.Polling.{poll-late}
use qube_enterprise_home.Commands.Acks.{Keeps, start, after, polls, Steps-Keeps}
use qube_enterprise_home.Commands.Sending.{mark_sent-reopens}

abbrev ping : Command
ping = record { id = 1; qube = 7; command = "ping"; created = 100; status = pending }

test-queue : queue_command true true 100 1 7 "ping" [] ≡ (202, ping ∷ [])
unfolding queue_command lists
test-queue = refl

test-unknown : (queue_command true true 100 1 7 "format" []).0 ≡ 400
unfolding queue_command lists
test-unknown = refl

test-poll : poll 7 120 (ping ∷ []) ≡ (ping ∷ [], record ping { status = sent } ∷ [])
unfolding poll select mark_polled update
test-poll = refl

Steps-Keeps_example : Keeps (ping ∷ []) (poll 7 900 (ping ∷ [])).1
Steps-Keeps_example = Steps-Keeps (ping ∷ []) (poll 7 900 (ping ∷ [])).1 (
    after (ping ∷ []) (ping ∷ []) (poll 7 900 (ping ∷ [])).1 (start (ping ∷ []))
      (polls 7 900 (ping ∷ [])))

mark_sent-reopens_example :
    (ack_request 7 1 "executed" (mark_sent 1 (ack_message 7 1 "failed" (ping ∷ [])))).0 ≡ 200
unfolding ack_request affected valid_status update
mark_sent-reopens_example = mark_sent-reopens 7 1 "failed" (ping ∷ []) refl refl

poll-late_example :
    ((more : List Command) × ((poll 7 900 (ping ∷ [])).0 ≡ ping ∷ more))
    × ((ack_request 7 1 "executed" (poll 7 900 (ping ∷ [])).1).0 ≡ 404)
poll-late_example = poll-late 900 ping [] refl (λ e. omega arith, tt)
