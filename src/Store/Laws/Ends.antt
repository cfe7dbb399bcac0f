-- ===== src/Store/Laws/Ends.antt =====
-- src/sqlite_lqs.rs `collect_received`: the loop ends, because each round delivers one more message or
-- moves one out of the queue.
use lqs.Prelude.{
  ℕ, zero, suc, ◌+◌, ◌-◌, ◌<◌, Bool, true, false, Option, none, some, List, ◌≡◌, ◌≢◌, refl, subst,
  inl, inr, arith, leb, leb→gt, Bool-cases, Option-cases, length, count, find, In, Bytes, bytes_eq,
}
use lqs.Error.{Result, Result-cases, or_fail, ok, out_of_fuel, ◌>>=◌, >>=-eq-ok, >>=-ends}
use lqs.Queue.Types.{QueueType, standard, fifo, is_fifo, RedrivePolicy, ReceivedMessage}
use lqs.Queue.External.{External}
use lqs.Store.Tables.{Message, Db}
use lqs.Store.Read.{in_queue, read_redrive_policy}
use lqs.Store.Messages.{
  delete_messages, has_sequence, move_message, moved_row, insert_row, next_sequence, moved_delay,
}
use lqs.Store.Receive.Next.{
  Candidate, candidate_of, as_candidate, next_message, next_receivable, CandidateAction, stop,
  redrive, deliver, candidate_action,
}
use lqs.Store.Receive.Deliver.{deliver_candidate, redrive_candidate, insert_origin}
use lqs.Store.Receive.Collect.{
  Params, Collected, Round, finish, again, note_delivery, act, with_candidate, round, continue_with,
  collect, collect_fuel, collect_params, collect_start, collect_received,
}
use lqs.Store.Sound.Receive.{ok_inj}
use lqs.Store.Laws.Limit.{note_delivery-length}
use lqs.Store.Laws.Work.{next_message-here, redrive_candidate-count, deliver_candidate-count}

note_delivery-db :
    (kind : QueueType) (c : Candidate) (db' : Db) (x : ReceivedMessage) (s : Collected)
    → (note_delivery kind c (db', x) s).db ≡ db'
unfolding note_delivery
note_delivery-db standard c db' x s = refl
note_delivery-db fifo c db' x s = refl

-- What is left to do: messages to deliver, and messages in the queue.
abbrev work : Params → Collected → ℕ
work p s = (p.limit - length s.received) + count (in_queue p.queue_name) s.db.messages

-- The loop goes on only with less work.
abbrev Smaller : Params → Collected → Round → Type 0
Smaller p s (finish t) = Unit
Smaller p s (again t) = work p t < work p s

-- No policy of the loop sends a message back to the queue.
abbrev pub Elsewhere : Bytes → Option RedrivePolicy → Type 0
Elsewhere name none = Unit
Elsewhere name (some policy) = bytes_eq policy.dead_letter_queue name ≡ false

insert_row-ends : (db : Db) (row : Message) → insert_row db row ≢ out_of_fuel
unfolding insert_row
insert_row-ends db row = ground arith

module _ (ext : External) (p : Params) (away : Elsewhere p.queue_name p.policy) where
  act-Smaller :
      (m : Message) (s : Collected) (a : CandidateAction) (r : Round)
      → length s.received < p.limit
      → In m s.db.messages
      → in_queue p.queue_name m ≡ true
      → ((policy : RedrivePolicy)
          → a ≡ redrive policy
          → bytes_eq policy.dead_letter_queue p.queue_name ≡ false)
      → act ext p (candidate_of m) s a ≡ ok r
      → Smaller p s r
  unfolding act
  act-Smaller m s stop r b i t k h = subst (Smaller p s) (ok_inj (finish s) r h) tt
  act-Smaller m s (redrive policy) r b i t k h =
      let (db', e, h1) =
        >>=-eq-ok (redrive_candidate s.db p.queue_name p.queue_type (candidate_of m) policy p.now) _
          h in
      subst (Smaller p s) (ok_inj _ r h1) (
        omega (
          arith,
          redrive_candidate-count s.db p.queue_name p.queue_type m policy p.now db' (k policy refl)
              i t e,
        ))
  act-Smaller m s deliver r b i t k h =
      let ((db', x), e, h1) =
        >>=-eq-ok (deliver_candidate ext s.db p.queue_type (candidate_of m) p.visibility_ms p.now) _
          h in
      subst (Smaller p s) (ok_inj _ r h1) (
        let n = note_delivery-length p.queue_type (candidate_of m) (db', x) s in
        let c =
          deliver_candidate-count ext s.db p.queue_name p.queue_type (candidate_of m)
            p.visibility_ms p.now db' x e in
        rw (note_delivery-db p.queue_type (candidate_of m) db' x s, n, c) (omega (arith, b)))

  action-policy :
      (c : Candidate) (received : List ReceivedMessage) (policy : RedrivePolicy)
      → candidate_action c received p.policy ≡ redrive policy
      → bytes_eq policy.dead_letter_queue p.queue_name ≡ false
  unfolding candidate_action
  action-policy c received policy h = elim (Option-cases p.policy) [
    | inl e ↦ absurd (ground (arith, rw (e, candidate_action) at h))
    | inr (q, e) ↦
        let same : q ≡ policy = ground (arith, rw (e, candidate_action) at h) in
        let there : Elsewhere p.queue_name (some q) = subst (Elsewhere p.queue_name) e away in
        subst (λ (x : RedrivePolicy). bytes_eq x.dead_letter_queue p.queue_name ≡ false) same there
  ]

  chosen-Smaller :
      (s : Collected) (o : Option Message) (r : Round)
      → length s.received < p.limit
      → ((m : Message) → o ≡ some m → In m s.db.messages × (in_queue p.queue_name m ≡ true))
      → with_candidate ext p s (as_candidate o) ≡ ok r
      → Smaller p s r
  unfolding with_candidate
  chosen-Smaller s none r b k h = subst (Smaller p s) (ok_inj (finish s) r h) tt
  chosen-Smaller s (some m) r b k h =
      let (i, t) = k m refl in
      act-Smaller m s (candidate_action (candidate_of m) s.received p.policy) r b i t
        (λ policy. action-policy (candidate_of m) s.received policy) h

  round-Smaller : (s : Collected) (r : Round) → round ext p s ≡ ok r → Smaller p s r
  unfolding round next_receivable
  round-Smaller s r h = elim (Bool-cases (leb p.limit (length s.received))) [
    | inl e ↦ subst (Smaller p s) (ok_inj (finish s) r (rw (e, round) at h)) tt
    | inr e ↦
        chosen-Smaller s (next_message s.db p.queue_name p.queue_type p.now s.selected s.preferred)
          r (leb→gt _ _ e)
          (λ m. next_message-here s.db p.queue_name p.queue_type p.now s.selected s.preferred m)
          (rw (e, round) at h)
  ]

  deliver_candidate-ends :
      (db : Db) (c : Candidate)
      → deliver_candidate ext db p.queue_type c p.visibility_ms p.now ≢ out_of_fuel
  unfolding deliver_candidate
  deliver_candidate-ends db c = ground arith

  move_message-ends :
      (db : Db) (sequence : ℕ) (destination : Bytes) (reset : Bool)
      → move_message db sequence destination p.now reset false ≢ out_of_fuel
  unfolding move_message moved_delay
  move_message-ends db sequence destination reset =
      let db1 = delete_messages (has_sequence sequence) db in
      let moved = next_sequence db1 in
      let row : Message → Message = λ m. moved_row m moved destination p.now 0 reset false in
      let last : Db → Result (Db × ℕ) = λ db2. ok (db2, moved) in
      >>=-ends (or_fail (find (has_sequence sequence) db.messages) _)
        (λ m. insert_row db1 (row m) >>= last) (λ x. ground (arith, x))
        (λ m. >>=-ends (insert_row db1 (row m)) last (insert_row-ends db1 (row m)) (λ db2 e. cc e))

  redrive_candidate-ends :
      (db : Db) (c : Candidate) (policy : RedrivePolicy)
      → redrive_candidate db p.queue_name p.queue_type c policy p.now ≢ out_of_fuel
  unfolding redrive_candidate insert_origin
  redrive_candidate-ends db c policy =
      >>=-ends
        (move_message db c.sequence policy.dead_letter_queue p.now (is_fifo p.queue_type) false) _
        (move_message-ends db c.sequence policy.dead_letter_queue (is_fifo p.queue_type))
        (λ s. ground arith)

  act-ends : (c : Candidate) (s : Collected) (a : CandidateAction) → act ext p c s a ≢ out_of_fuel
  unfolding act
  act-ends c s stop = ground arith
  act-ends c s (redrive policy) =
      >>=-ends _ _ (redrive_candidate-ends s.db c policy) (λ db'. ground arith)
  act-ends c s deliver = >>=-ends _ _ (deliver_candidate-ends s.db c) (λ d. ground arith)

  round-ends : (s : Collected) → round ext p s ≢ out_of_fuel
  unfolding round with_candidate
  round-ends s h = elim (Bool-cases (leb p.limit (length s.received))) [
    | inl e ↦ absurd (cc (rw (e, round) at h))
    | inr e ↦
        elim (Option-cases
          (next_receivable s.db p.queue_name p.queue_type p.now s.selected s.preferred)) [
            | inl n ↦ absurd (cc (rw (e, n, round) at h))
            | inr (c, n) ↦ act-ends c s _ (rw (e, n, round) at h)
          ]
  ]

  after_round-ends :
      (f : ℕ) (s : Collected) (r : Round)
      → Smaller p s r
      → work p s < suc f
      → ((t : Collected) → work p t < f → collect ext p f t ≢ out_of_fuel)
      → continue_with (collect ext p f) r ≢ out_of_fuel
  unfolding continue_with
  after_round-ends f s (finish t) k b ih = ground arith
  after_round-ends f s (again t) k b ih = ih t (omega arith)

  collect-ends : (f : ℕ) (s : Collected) → work p s < f → collect ext p f s ≢ out_of_fuel
  unfolding collect
  collect-ends zero s b h = absurd (omega (arith, b))
  collect-ends (suc f) s b h = elim (Result-cases (round ext p s)) [
    | inl (r, e) ↦
        after_round-ends f s r (round-Smaller s r e) b (λ t. collect-ends f t)
          (rw (e, collect) at h)
    | inr (inl (x, e)) ↦ cc (rw (e, collect) at h)
    | inr (inr e) ↦ round-ends s e
  ]

-- The loop of `collect_received` ends within its fuel: the limit, plus the messages in the queue,
-- plus one. The queue's policy must name another queue, as `set_redrive_policy` makes sure. The call
-- then returns a page or an error of the store, and never runs out of fuel.
pub collect_received-ends :
    (ext : External) (db : Db) (name : Bytes) (kind : QueueType) (limit visibility now : ℕ)
    → Elsewhere name (read_redrive_policy db name)
    → collect_received ext db name kind limit visibility now ≢ out_of_fuel
unfolding collect_received collect_fuel
collect_received-ends ext db name kind limit visibility now away =
    >>=-ends
      (collect ext (collect_params db name kind limit visibility now) (collect_fuel db name limit)
        (collect_start db))
      _
      (collect-ends ext (collect_params db name kind limit visibility now) away
        (collect_fuel db name limit) (collect_start db) (omega arith))
      (λ s. ground arith)
