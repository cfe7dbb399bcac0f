-- ===== src/Store/Receive/Next.antt =====
-- src/sqlite_lqs.rs: `next_receivable` and `fifo_candidate_sql`, the choice of the next message.
-- The rows stand in the order of `sequence`, so ORDER BY sequence LIMIT 1 is the first that passes.
use lqs.Prelude.{
  ℕ, Bool, true, false, not, ◌&&◌, Option, none, some, List, if◌then◌else◌, ltb, leb, ◌==◌, any,
  find, Bytes, bytes_eq,
}
use lqs.Queue.Types.{QueueType, standard, fifo, RedrivePolicy, ReceivedMessage}
use lqs.Store.Tables.{Message, Db}
use lqs.Store.Read.{in_queue}

pub record Candidate : Type 0 where
  pub sequence : ℕ
  pub message_id : Bytes
  pub body : Bytes
  pub group_id : Option Bytes
  pub receive_count : ℕ

abbrev pub candidate_of : Message → Candidate
candidate_of m = record {
  sequence = m.sequence;
  message_id = m.message_id;
  body = m.body;
  group_id = m.group_id;
  receive_count = m.receive_count;
}

-- `invisible_until_ms IS NULL OR invisible_until_ms <= now`
abbrev pub is_visible : Option ℕ → ℕ → Bool
is_visible none now = true
is_visible (some t) now = leb t now

unfoldable pub is_receivable : Bytes → ℕ → Message → Bool
is_receivable name now m =
    in_queue name m && leb m.available_at_ms now && is_visible m.invisible_until_ms now

abbrev pub is_selected : List ℕ → ℕ → Bool
is_selected selected sequence = any (λ s. s == sequence) selected

-- SQL equality, which NULL never meets.
unfoldable pub sql_eq : Option Bytes → Option Bytes → Bool
sql_eq (some a) (some b) = bytes_eq a b
sql_eq _ _ = false

-- `earlier` stands before `m` in its group and was not taken by this receive call.
unfoldable pub blocks : List ℕ → Message → Message → Bool
blocks selected m earlier =
    bytes_eq earlier.queue_name m.queue_name
    && sql_eq earlier.group_id m.group_id
    && ltb earlier.sequence m.sequence
    && not (is_selected selected earlier.sequence)

unfoldable pub is_eligible : List Message → Bytes → ℕ → List ℕ → Message → Bool
is_eligible messages name now selected m =
    is_receivable name now m
    && not (is_selected selected m.sequence)
    && not (any (blocks selected m) messages)

abbrev pub or_else {ℓ} : {A : Type ℓ} → Option A → Option A → Option A
or_else none o = o
or_else (some a) o = some a

-- `ORDER BY CASE WHEN group_id = preferred THEN 0 ELSE 1 END, sequence LIMIT 1`
unfoldable pub preferred_first : Option Bytes → (Message → Bool) → List Message → Option Message
preferred_first preferred p messages =
    or_else (find (λ m. p m && sql_eq m.group_id preferred) messages) (find p messages)

unfoldable pub next_message : Db → Bytes → QueueType → ℕ → List ℕ → Option Bytes → Option Message
next_message db name standard now selected preferred = find (is_receivable name now) db.messages
next_message db name fifo now selected preferred =
    preferred_first preferred (is_eligible db.messages name now selected) db.messages

abbrev pub as_candidate : Option Message → Option Candidate
as_candidate none = none
as_candidate (some m) = some (candidate_of m)

unfoldable pub next_receivable :
    Db → Bytes → QueueType → ℕ → List ℕ → Option Bytes → Option Candidate
next_receivable db name kind now selected preferred =
    as_candidate (next_message db name kind now selected preferred)

pub data CandidateAction : Type 0 where
  stop : CandidateAction
  redrive : RedrivePolicy → CandidateAction
  deliver : CandidateAction

abbrev redrive_or_deliver : Candidate → Option RedrivePolicy → CandidateAction
redrive_or_deliver c none = deliver
redrive_or_deliver c (some policy) =
    if leb policy.max_receive_count c.receive_count then redrive policy else deliver

unfoldable pub candidate_action :
    Candidate → List ReceivedMessage → Option RedrivePolicy → CandidateAction
candidate_action c received policy =
    if any (λ r. bytes_eq r.message_id c.message_id) received
    then stop
    else redrive_or_deliver c policy
