-- ===== src/Examples/Moves.antt =====
-- The theorems on choices, moves and batches of deletions at concrete tables.
use lqs.Prelude.{
  ◌+◌, ◌≤◌, ◌<◌, none, [], ◌∷◌, In, ◌≡◌, ◌↔◌, refl, arith, count, find, select, not, bytes_eq,
}
use lqs.Queue.Types.{standard, fifo}
use lqs.Store.Tables.{Message}
use lqs.Store.Read.{ms, in_queue}
use lqs.Store.Messages.{expire_messages}
use lqs.Store.Redrive.{is_movable, redrive_dead_letters}
use lqs.Store.Receive.Next.{next_message}
use lqs.Store.Laws.Choice.{IsAvailable, IsNext, next_message-eq-none}
use lqs.Store.Laws.Moves.{times, redrive_dead_letters-moves}
use lqs.Batch.{delete_batch}
use lqs.Batch.Deletes.{is_named, delete_batch-messages}
use lqs.Examples.{one_event, one_dead_letter, two_entries, outcomes, event_config}
use lqs.Samples.{events}
use lqs.Runs.{runs}

-- The one message is hidden until 10.
next_message-eq-none_example :
    ((next_message one_event events standard 5 [] none ≡ none)
      ↔ ((m : Message) → In m one_event.messages → ¬ IsAvailable events 5 m))
    × ((next_message one_event events fifo 5 [] none ≡ none)
        ↔ ((m : Message) → In m one_event.messages → ¬ IsNext one_event.messages events 5 [] m))
next_message-eq-none_example = next_message-eq-none one_event events 5 [] none

redrive_dead_letters-moves_example :
    (1 ≤ 5)
    × (1 < 5
        → find
            (is_movable
              (redrive_dead_letters one_dead_letter (b'd' ∷ []) events 5 20).0
              (b'd' ∷ [])
              events
              standard
              (ms 20))
            (redrive_dead_letters one_dead_letter (b'd' ∷ []) events 5 20).0.messages
          ≡ none)
    × (count
            (in_queue events)
            (redrive_dead_letters one_dead_letter (b'd' ∷ []) events 5 20).0.messages
          + times (bytes_eq (b'd' ∷ []) events) 1
        ≡ count
            (in_queue events)
            (expire_messages
              (expire_messages one_dead_letter (b'd' ∷ []) (ms 20))
              events
              (ms 20)).messages
          + times (bytes_eq events events) 1)
unfolding runs
redrive_dead_letters-moves_example =
    redrive_dead_letters-moves one_dead_letter (b'd' ∷ []) events 5 20 1 standard events
      (record {
        ascending = (omega arith, tt);
        rows = ((omega arith, refl, (1, omega arith, refl)), tt);
      })
      refl refl

-- Two deletions with the same handle, of which the second fails.
delete_batch-messages_example :
    (delete_batch one_event events two_entries).0.messages
    ≡ select (λ m. not (is_named events two_entries m)) one_event.messages
unfolding runs
delete_batch-messages_example =
    delete_batch-messages one_event events two_entries event_config outcomes refl refl
