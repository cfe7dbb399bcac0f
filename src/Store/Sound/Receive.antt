-- ===== src/Store/Sound/Receive.antt =====
-- `receive_page` keeps the store sound.
use lqs.Prelude.{
  ℕ, zero, suc, ◌+◌, false, Option, none, some, List, [], ◌∷◌, ◌≡◌, refl, sym, subst, inl, inr,
  arith, leb, length, Bool-cases, Bytes,
}
use lqs.Prelude.Word.{saturating_add_i64}
use lqs.Error.{ok, >>=-eq-ok}
use lqs.Queue.Types.{
  QueueType, standard, fifo, is_fifo, RedrivePolicy, ReceivedMessage, ReceiveOptions,
}
use lqs.Queue.External.{External}
use lqs.Store.Tables.{Db}
use lqs.Store.Read.{ms}
use lqs.Store.Messages.{update_messages, move_message, has_sequence}
use lqs.Store.Receive.Next.{Candidate, CandidateAction, stop, redrive, deliver, candidate_action}
use lqs.Store.Receive.Deliver.{
  deliver_candidate, redrive_candidate, insert_origin, delivered, receipt_handle_of,
}
use lqs.Store.Receive.Collect.{
  Params, Collected, Round, finish, again, note_delivery, act, with_candidate, round, continue_with,
  collect, collect_received, collect_params, collect_start, collect_fuel,
}
use lqs.Store.Receive.Attempts.{forget_attempts, hide_again, save_attempt}
use lqs.Store.Sound.Rows.{IsSound, update_rows-IsSound, move_message-IsSound}
use lqs.Store.Sound.Send.{same_rows-IsSound, update_messages-IsSound}

pub ok_inj : {A : Type 0} (a b : A) → ok a ≡ ok b → a ≡ b
ok_inj a b h = cc

-- The tables after a delivery are the update of the delivered row.
pub deliver_candidate-db :
    (ext : External) (db : Db) (kind : QueueType) (c : Candidate) (visibility now : ℕ) (db' : Db)
    (r : ReceivedMessage)
    → deliver_candidate ext db kind c visibility now ≡ ok (db', r)
    → (handle : Bytes) × (until : ℕ) × (db'
        ≡ update_messages
            (has_sequence c.sequence)
            (delivered handle until (c.receive_count + 1) now)
            db)
unfolding deliver_candidate
deliver_candidate-db ext db kind c visibility now db' r h = (
  receipt_handle_of c.sequence (c.receive_count + 1) now,
  saturating_add_i64 now (ms visibility),
  ground arith,
)

module _ (db : Db) (v : IsSound db) where
  deliver_candidate-IsSound :
      (ext : External) (kind : QueueType) (c : Candidate) (visibility now : ℕ) (db' : Db)
      (r : ReceivedMessage)
      → deliver_candidate ext db kind c visibility now ≡ ok (db', r)
      → IsSound db'
  unfolding delivered
  deliver_candidate-IsSound ext kind c visibility now db' r h =
      let (handle, until, e) = deliver_candidate-db ext db kind c visibility now db' r h in
      subst IsSound (sym e) (update_messages-IsSound db v _ _ (λ m. refl) (λ m. refl) (λ m. refl))

  redrive_candidate-IsSound :
      (name : Bytes) (kind : QueueType) (c : Candidate) (policy : RedrivePolicy) (now : ℕ)
      (db' : Db)
      → redrive_candidate db name kind c policy now ≡ ok db'
      → IsSound db'
  unfolding redrive_candidate insert_origin
  redrive_candidate-IsSound name kind c policy now db' h =
      let ((db1, moved), e, h1) =
        >>=-eq-ok (move_message db c.sequence policy.dead_letter_queue now (is_fifo kind) false) _
          h in
      same_rows-IsSound db1 db' (ground arith) (ground arith) (ground arith) (
        move_message-IsSound db v c.sequence policy.dead_letter_queue now (is_fifo kind) false db1
          moved e)

abbrev pub state_of : Round → Collected
state_of (finish s) = s
state_of (again s) = s

pub note_delivery-db :
    (kind : QueueType) (c : Candidate) (d : Db × ReceivedMessage) (s : Collected)
    → (note_delivery kind c d s).db ≡ d.0
unfolding note_delivery
note_delivery-db standard c (db', message) s = refl
note_delivery-db fifo c (db', message) s = refl

module _ (ext : External) (p : Params) where
  act-IsSound :
      (c : Candidate) (s : Collected) (a : CandidateAction) (r : Round)
      → IsSound s.db
      → act ext p c s a ≡ ok r
      → IsSound (state_of r).db
  unfolding act
  act-IsSound c s stop r v h =
      let e : finish s ≡ r = ok_inj _ _ h in subst (λ q. IsSound (state_of q).db) e v
  act-IsSound c s (redrive policy) r v h =
      let (db', e, h1) =
        >>=-eq-ok (redrive_candidate s.db p.queue_name p.queue_type c policy p.now) _ h in
      subst (λ q. IsSound (state_of q).db) (ok_inj _ _ h1)
        (redrive_candidate-IsSound s.db v p.queue_name p.queue_type c policy p.now db' e)
  act-IsSound c s deliver r v h =
      let (d, e, h1) =
        >>=-eq-ok (deliver_candidate ext s.db p.queue_type c p.visibility_ms p.now) _ h in
      subst (λ q. IsSound (state_of q).db) (ok_inj _ _ h1)
        (subst IsSound (sym (note_delivery-db p.queue_type c d s))
          (deliver_candidate-IsSound s.db v ext p.queue_type c p.visibility_ms p.now d.0 d.1 e))

  with_candidate-IsSound :
      (s : Collected) (o : Option Candidate) (r : Round)
      → IsSound s.db
      → with_candidate ext p s o ≡ ok r
      → IsSound (state_of r).db
  unfolding with_candidate
  with_candidate-IsSound s none r v h = subst (λ q. IsSound (state_of q).db) (ok_inj _ _ h) v
  with_candidate-IsSound s (some c) r v h =
      act-IsSound c s (candidate_action c s.received p.policy) r v h

  round-IsSound :
      (s : Collected) (r : Round) → IsSound s.db → round ext p s ≡ ok r → IsSound (state_of r).db
  unfolding round
  round-IsSound s r v h = elim (Bool-cases (leb p.limit (length s.received))) [
    | inl e ↦ subst (λ q. IsSound (state_of q).db) (ok_inj _ _ (rw (e, round) at h)) v
    | inr e ↦ with_candidate-IsSound s _ r v (rw (e, round) at h)
  ]

  after_round-keeps :
      (P : Collected → Type 0) (f : ℕ) (s' : Collected)
      → ((t : Collected) → P t → collect ext p f t ≡ ok s' → P s')
      → (r : Round) → P (state_of r)
      → continue_with (collect ext p f) r ≡ ok s'
      → P s'
  unfolding continue_with
  after_round-keeps P f s' ih (finish t) w k = subst P (ok_inj _ _ k) w
  after_round-keeps P f s' ih (again t) w k = ih t w k

  -- A property of the loop's state that every round keeps holds at the end.
  pub collect-keeps :
      (P : Collected → Type 0)
      → ((s : Collected) (r : Round) → P s → round ext p s ≡ ok r → P (state_of r))
      → (f : ℕ) (s s' : Collected) → P s
      → collect ext p f s ≡ ok s'
      → P s'
  unfolding collect
  collect-keeps P keep zero s s' v h = cc
  collect-keeps P keep (suc f) s s' v h =
      let (r, e, h1) = >>=-eq-ok (round ext p s) (continue_with (collect ext p f)) h in
      after_round-keeps P f s' (λ t. collect-keeps P keep f t s') r (keep s r v e) h1

module _ (db : Db) (v : IsSound db) where
  pub collect_received-IsSound :
      (ext : External) (name : Bytes) (kind : QueueType) (limit visibility now : ℕ) (db' : Db)
      (ms' : List ReceivedMessage)
      → collect_received ext db name kind limit visibility now ≡ ok (db', ms')
      → IsSound db'
  unfolding collect_received
  collect_received-IsSound ext name kind limit visibility now db' ms' h =
      let p = collect_params db name kind limit visibility now in
      let (s, e, h1) =
        >>=-eq-ok (collect ext p (collect_fuel db name limit) (collect_start db)) _ h in
      let same : s.db ≡ db' = ground arith in
      subst IsSound same
        (collect-keeps ext p (λ t. IsSound t.db) (λ t r w k. round-IsSound ext p t r w k) _ _ s v e)

  pub forget_attempts-IsSound : (name : Bytes) (now : ℕ) → IsSound (forget_attempts db name now)
  unfolding forget_attempts
  forget_attempts-IsSound name now = record { ascending = v.ascending; rows = v.rows }

  pub save_attempt-IsSound :
      (ext : External) (name : Bytes) (options : ReceiveOptions) (maximum visibility now : ℕ)
      (messages : List ReceivedMessage) (db' : Db)
      → save_attempt ext db name options maximum visibility now messages ≡ ok db'
      → IsSound db'
  unfolding save_attempt
  save_attempt-IsSound ext name options maximum visibility now messages db' h =
      same_rows-IsSound db db' (ground arith) (ground arith) (ground arith) v

pub hide_again-IsSound :
    (name : Bytes) (until : ℕ) (rs : List ReceivedMessage) (db : Db)
    → IsSound db
    → IsSound (record db { messages = hide_again name until rs db.messages })
unfolding hide_again
hide_again-IsSound name until [] db v = record { ascending = v.ascending; rows = v.rows }
hide_again-IsSound name until (r ∷ rs) db v =
    let w =
      update_rows-IsSound db v _ (λ m. record m { invisible_until_ms = some until }) (λ m. refl)
        (λ m. refl) (λ m. refl) in
    let u = hide_again-IsSound name until rs _ w in
    record { ascending = u.ascending; rows = u.rows }
