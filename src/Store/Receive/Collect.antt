-- ===== src/Store/Receive/Collect.antt =====
-- src/sqlite_lqs.rs: `collect_received`, the loop that fills one page.
use lqs.Prelude.{
  ℕ, zero, suc, ◌+◌, Option, none, some, List, [], ◌∷◌, ◌++◌, if◌then◌else◌, leb, length, count,
  Bytes,
}
use lqs.Error.{Result, ok, out_of_fuel, ◌>>=◌}
use lqs.Queue.Types.{QueueType, standard, fifo, RedrivePolicy, ReceivedMessage}
use lqs.Queue.External.{External}
use lqs.Store.Tables.{Db}
use lqs.Store.Read.{in_queue, read_redrive_policy}
use lqs.Store.Receive.Next.{
  Candidate, next_receivable, CandidateAction, stop, redrive, deliver, candidate_action,
}
use lqs.Store.Receive.Deliver.{deliver_candidate, redrive_candidate}

-- What stays the same during the loop.
pub record Params : Type 0 where
  pub queue_name : Bytes
  pub queue_type : QueueType
  pub policy : Option RedrivePolicy
  pub limit : ℕ
  pub visibility_ms : ℕ
  pub now : ℕ

-- The loop's variables, and the tables.
pub record Collected : Type 0 where
  pub db : Db
  pub received : List ReceivedMessage
  pub selected : List ℕ
  pub preferred : Option Bytes

-- After one round: `break`, or the next round.
pub data Round : Type 0 where
  finish again : Collected → Round

-- A FIFO queue remembers what it took, and stays with its group.
unfoldable pub note_delivery : QueueType → Candidate → Db × ReceivedMessage → Collected → Collected
note_delivery standard c (db', message) s = record s {
  db = db';
  received = s.received ++ message ∷ [];
}
note_delivery fifo c (db', message) s = record {
  db = db';
  received = s.received ++ message ∷ [];
  selected = s.selected ++ c.sequence ∷ [];
  preferred = c.group_id;
}

unfoldable pub act : External → Params → Candidate → Collected → CandidateAction → Result Round
act ext p c s stop = ok (finish s)
act ext p c s (redrive policy) = do
  db' ← redrive_candidate s.db p.queue_name p.queue_type c policy p.now
  ok (again (record s { db = db' }))
act ext p c s deliver = do
  delivery ← deliver_candidate ext s.db p.queue_type c p.visibility_ms p.now
  ok (again (note_delivery p.queue_type c delivery s))

unfoldable pub with_candidate : External → Params → Collected → Option Candidate → Result Round
with_candidate ext p s none = ok (finish s)
with_candidate ext p s (some c) = act ext p c s (candidate_action c s.received p.policy)

unfoldable pub round : External → Params → Collected → Result Round
round ext p s =
    if leb p.limit (length s.received)
    then ok (finish s)
    else with_candidate ext p s
        (next_receivable s.db p.queue_name p.queue_type p.now s.selected s.preferred)

-- The `break` ends the loop.
unfoldable pub continue_with : (Collected → Result Collected) → Round → Result Collected
continue_with next (finish s) = ok s
continue_with next (again s) = next s

unfoldable pub collect : External → Params → ℕ → Collected → Result Collected
collect ext p zero s = out_of_fuel
collect ext p (suc f) s = round ext p s >>= continue_with (collect ext p f)

-- Each round delivers a message or moves one out of the queue.
unfoldable pub collect_fuel : Db → Bytes → ℕ → ℕ
collect_fuel db name limit = limit + count (in_queue name) db.messages + 1

abbrev pub collect_params : Db → Bytes → QueueType → ℕ → ℕ → ℕ → Params
collect_params db name kind limit visibility now = record {
  queue_name = name;
  queue_type = kind;
  policy = read_redrive_policy db name;
  limit = limit;
  visibility_ms = visibility;
  now = now;
}

abbrev pub collect_start : Db → Collected
collect_start db = record { db = db; received = []; selected = []; preferred = none }

unfoldable pub collect_received :
    External → Db → Bytes → QueueType → ℕ → ℕ → ℕ → Result (Db × List ReceivedMessage)
collect_received ext db name kind limit visibility now = do
  s ←
      collect ext (collect_params db name kind limit visibility now) (collect_fuel db name limit)
        (collect_start db)
  ok (s.db, s.received)
