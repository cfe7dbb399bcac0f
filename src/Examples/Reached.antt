-- ===== src/Examples/Reached.antt =====
-- The theorems on stores that calls lead to, at concrete calls.
use lqs.Store.Laws.Sources.{Ordered, list_dead_letter_source_queues-eq-ok}
use lqs.Runs.{runs}
use lqs.Prelude.{true, In, ◌≡◌, ◌↔◌, refl, bytes_eq, ◌+◌, some, [], ◌∷◌, ◌≢◌, text, arith, Bytes}
use lqs.Error.{out_of_fuel}
use lqs.Security.Names.{aws}
use lqs.Queue.Types.{RedrivePolicy, standard, default_options}
use lqs.Store.Tables.{Db, empty_db, PolicyRow}
use lqs.Store.Receive.Page.{receive_page}
use lqs.Store.Sound.Reach.{
  Reachable, perform, start, step, create_queue_call, set_redrive_policy_call,
}
use lqs.Store.Sound.Self.Policies.{NoSelf}
use lqs.Store.Sound.Self.Reach.{Reachable-NoSelf, receive_page-Reachable-ends}
use lqs.Http.Handler.{Context}
use lqs.Http.Poll.{poll_receive}
use lqs.Http.Laws.Answered.{IsAnswer, poll_receive-IsAnswer}
use lqs.Examples.{a_request}
use lqs.Examples.Front.{front, one_queue, pass_at, one_message}
use lqs.Samples.{plain, events}

abbrev failed : Bytes
failed = b'd' ∷ []

abbrev to_failed : RedrivePolicy
to_failed = record { dead_letter_queue = failed; max_receive_count = 3 }

abbrev both_queues : Db
both_queues = perform plain 1 one_queue (create_queue_call failed standard default_options [])

-- The events that fail three times go to the second queue.
abbrev with_policy : Db
with_policy = perform plain 2 both_queues (set_redrive_policy_call events (some to_failed))

one_queue-Reachable : Reachable plain one_queue
one_queue-Reachable = step empty_db 0 (create_queue_call events standard default_options []) start

with_policy-Reachable : Reachable plain with_policy
with_policy-Reachable =
    step both_queues 2 (set_redrive_policy_call events (some to_failed))
      (step one_queue 1 (create_queue_call failed standard default_options []) one_queue-Reachable)

Reachable-NoSelf_example : NoSelf with_policy
Reachable-NoSelf_example = Reachable-NoSelf plain with_policy with_policy-Reachable

receive_page-Reachable-ends_example : (receive_page plain with_policy a_request).1 ≢ out_of_fuel
receive_page-Reachable-ends_example =
    receive_page-Reachable-ends plain with_policy a_request with_policy-Reachable

abbrev neighbour : Context
neighbour = record {
  web = front;
  public_base_url = text "http://h";
  access = record {
    identity = aws (text "111111111111");
    action = text "ReceiveMessage";
    queue = some events;
  };
  now = 5;
}

poll_receive-IsAnswer_example :
    IsAnswer
      (poll_receive neighbour one_message 150
        (5 + 150)
        (pass_at 5 ∷ pass_at 105 ∷ pass_at 155 ∷ [])
        one_queue).1
poll_receive-IsAnswer_example =
    poll_receive-IsAnswer neighbour one_message 150 5 2 (pass_at 5 ∷ pass_at 105 ∷ pass_at 155 ∷ [])
      one_queue one_queue-Reachable (λ db r. r, (λ db r. r, (λ db r. r, tt)))
      (
        omega arith,
        omega arith,
        omega arith,
        (omega arith, omega arith, omega arith, (omega arith, omega arith, omega arith, tt)),
      )
      (omega arith) (omega arith)

list_dead_letter_source_queues-eq-ok_example :
    Ordered (events ∷ [])
    × ((n : Bytes)
        → In n (events ∷ []) ↔ (
            (r : PolicyRow) × In r with_policy.redrive_policies
            × (r.source_queue ≡ n)
            × (bytes_eq r.policy.dead_letter_queue failed ≡ true)))
unfolding runs perform
list_dead_letter_source_queues-eq-ok_example =
    list_dead_letter_source_queues-eq-ok with_policy failed (events ∷ []) refl
