-- ===== src/Store/Sound/Self/Work.antt =====
-- src/sqlite_lqs.rs and src/fifo.rs: the table of policies while messages are received and moved.
use lqs.Prelude.{
  ℕ, zero, suc, ◌+◌, ◌-◌, min, Bool, true, false, not, ◌&&◌, ◌||◌, ◌≡◌, refl, subst, ◌∙◌, ap,
  Option, none, some, List, arith, leb, in_range, is_empty, length, find, count, Bytes, Bool-cases,
  Option-cases, inl, inr, bytes_eq,
}
use lqs.Error.{ok, >>=-eq-ok, fail_if, or_fail, or_database}
use lqs.Queue.Types.{
  QueueType, is_fifo, QueueConfig, RedrivePolicy, ReceivedMessage, ReceiveOptions,
}
use lqs.Queue.External.{External}
use lqs.Queue.Validate.{validate_options}
use lqs.Store.Tables.{Db, PolicyRow, Attempt}
use lqs.Store.Read.{ms, transaction, read_queue_config, count_in_flight, queue_type}
use lqs.Store.Messages.{
  expire_messages, delete_messages, update_messages, has_sequence, next_sequence, insert_row,
  moved_delay, moved_row, move_message,
}
use lqs.Store.Redrive.{is_movable, redrive_loop, redrive_body, redrive_dead_letters}
use lqs.Store.Receive.Next.{Candidate, CandidateAction, stop, redrive, deliver, candidate_action}
use lqs.Store.Receive.Deliver.{deliver_candidate, insert_origin, redrive_candidate}
use lqs.Store.Receive.Collect.{
  Params, Collected, Round, finish, act, with_candidate, round, collect, collect_fuel,
  collect_params, collect_start, collect_received,
}
use lqs.Store.Receive.Attempts.{
  fingerprint, is_attempt, is_extra, forget_attempts, check_quota, replay_found, replay_with,
  replay_attempt, save_attempt,
}
use lqs.Store.Receive.Page.{
  Request, visibility_of, save_if, fresh_page, page_or_fresh, receive_body, receive_page,
}
use lqs.Store.Sound.Receive.{
  deliver_candidate-db, state_of, ok_inj, note_delivery-db, collect-keeps,
}
use lqs.Store.Sound.Page.{flatten-db}
use lqs.Store.Sound.Self.{
  Kept, >>=-Kept, transaction-policies, expire_messages-policies, insert_row-policies,
}

move_message-Kept :
    (db : Db) (sequence : ℕ) (destination : Bytes) (now : ℕ) (reset new_identity : Bool)
    → Kept db.redrive_policies (move_message db sequence destination now reset new_identity)
unfolding move_message delete_messages
move_message-Kept db sequence destination now reset new_identity =
    let ps = db.redrive_policies in
    let db1 = delete_messages (has_sequence sequence) db in
    >>=-Kept ps (or_fail (find (has_sequence sequence) db.messages) _) _ λ m e.
      >>=-Kept ps (moved_delay db1 destination new_identity) _ λ delay f.
        let row = moved_row m (next_sequence db1) destination now delay reset new_identity in
        >>=-Kept ps (insert_row db1 row) _ λ db2 g. insert_row-policies db1 row db2 g

redrive_candidate-policies :
    (db : Db) (name : Bytes) (kind : QueueType) (c : Candidate) (policy : RedrivePolicy) (now : ℕ)
    (db' : Db)
    → redrive_candidate db name kind c policy now ≡ ok db'
    → db'.redrive_policies ≡ db.redrive_policies
unfolding redrive_candidate insert_origin
redrive_candidate-policies db name kind c policy now db' h =
    let (d, e, h1) =
      >>=-eq-ok (move_message db c.sequence policy.dead_letter_queue now (is_fifo kind) false) _
        h in
    let moved =
      subst (Kept db.redrive_policies) e
        (move_message-Kept db c.sequence policy.dead_letter_queue now (is_fifo kind) false) in
    let origin : db'.redrive_policies ≡ d.0.redrive_policies = ground arith in origin ∙ moved

redrive_loop-Kept :
    (dlq source : Bytes) (kind : QueueType) (now left : ℕ) (db : Db) (moved : ℕ)
    → Kept db.redrive_policies (redrive_loop dlq source kind now left db moved)
unfolding redrive_loop
redrive_loop-Kept dlq source kind now zero db moved = refl
redrive_loop-Kept dlq source kind now (suc left) db moved =
    elim (Option-cases (find (is_movable db dlq source kind now) db.messages)) [
      | inl e ↦ rw (e, redrive_loop) refl
      | inr (m, e) ↦
          rw (e, redrive_loop)
            (>>=-Kept db.redrive_policies (move_message db m.sequence source now true true) _ λ d f.
              let same =
                subst (Kept db.redrive_policies) f
                  (move_message-Kept db m.sequence source now true true) in
              subst (λ ps. Kept ps (redrive_loop dlq source kind now left d.0 (moved + 1))) same
                (redrive_loop-Kept dlq source kind now left d.0 (moved + 1)))
    ]

pub redrive_dead_letters-policies :
    (db : Db) (dlq source : Bytes) (maximum now : ℕ)
    → (redrive_dead_letters db dlq source maximum now).0.redrive_policies ≡ db.redrive_policies
unfolding redrive_dead_letters redrive_body
redrive_dead_letters-policies db dlq source maximum now =
    let ps = db.redrive_policies in
    transaction-policies db (redrive_body db dlq source maximum now) (
      >>=-Kept ps (queue_type db source) _ λ kind e. >>=-Kept ps (queue_type db dlq) _ λ dlq_kind f.
        >>=-Kept ps (fail_if _ _) _ λ u g.
          let db1 = expire_messages db dlq (ms now) in
          let db2 = expire_messages db1 source (ms now) in
          subst (λ qs. Kept qs (redrive_loop dlq source kind (ms now) maximum db2 0))
            (expire_messages-policies db1 source (ms now)
              ∙ expire_messages-policies db dlq (ms now))
            (redrive_loop-Kept dlq source kind (ms now) maximum db2 0))

module _ (ext : External) (p : Params) (ps : List PolicyRow) where
  act-policies :
      (c : Candidate) (s : Collected) (a : CandidateAction) (r : Round)
      → s.db.redrive_policies ≡ ps
      → act ext p c s a ≡ ok r
      → (state_of r).db.redrive_policies ≡ ps
  unfolding act
  act-policies c s stop r k h =
      subst (λ q. (state_of q).db.redrive_policies ≡ ps) (ok_inj (finish s) r h) k
  act-policies c s (redrive policy) r k h =
      let (db', e, h1) =
        >>=-eq-ok (redrive_candidate s.db p.queue_name p.queue_type c policy p.now) _ h in
      subst (λ q. (state_of q).db.redrive_policies ≡ ps) (ok_inj _ r h1)
        (redrive_candidate-policies s.db p.queue_name p.queue_type c policy p.now db' e ∙ k)
  act-policies c s deliver r k h =
      let (d, e, h1) =
        >>=-eq-ok (deliver_candidate ext s.db p.queue_type c p.visibility_ms p.now) _ h in
      let (handle, until, f) =
        deliver_candidate-db ext s.db p.queue_type c p.visibility_ms p.now d.0 d.1 e in
      let kept : d.0.redrive_policies ≡ ps =
        ap (λ (x : Db). x.redrive_policies) f ∙ (unfold update_messages in k) in
      subst (λ q. (state_of q).db.redrive_policies ≡ ps) (ok_inj _ r h1)
        (ap (λ (x : Db). x.redrive_policies) (note_delivery-db p.queue_type c d s) ∙ kept)

  with_candidate-policies :
      (s : Collected) (o : Option Candidate) (r : Round)
      → s.db.redrive_policies ≡ ps
      → with_candidate ext p s o ≡ ok r
      → (state_of r).db.redrive_policies ≡ ps
  unfolding with_candidate
  with_candidate-policies s none r k h =
      subst (λ q. (state_of q).db.redrive_policies ≡ ps) (ok_inj (finish s) r h) k
  with_candidate-policies s (some c) r k h =
      act-policies c s (candidate_action c s.received p.policy) r k h

  round-policies :
      (s : Collected) (r : Round)
      → s.db.redrive_policies ≡ ps
      → round ext p s ≡ ok r
      → (state_of r).db.redrive_policies ≡ ps
  unfolding round
  round-policies s r k h = elim (Bool-cases (leb p.limit (length s.received))) [
    | inl e ↦
        subst (λ q. (state_of q).db.redrive_policies ≡ ps)
          (ok_inj (finish s) r (rw (e, round) at h)) k
    | inr e ↦ with_candidate-policies s _ r k (rw (e, round) at h)
  ]

module _ (ext : External) where
  collect_received-Kept :
      (db : Db) (name : Bytes) (kind : QueueType) (limit visibility now : ℕ)
      → Kept db.redrive_policies (collect_received ext db name kind limit visibility now)
  unfolding collect_received
  collect_received-Kept db name kind limit visibility now =
      let p = collect_params db name kind limit visibility now in
      let ps = db.redrive_policies in
      >>=-Kept ps (collect ext p (collect_fuel db name limit) (collect_start db)) _ λ s e.
        collect-keeps ext p (λ t. t.db.redrive_policies ≡ ps) (λ t r. round-policies ext p ps t r) _
          _ s refl e

  save_attempt-policies :
      (db : Db) (name : Bytes) (options : ReceiveOptions) (maximum visibility now : ℕ)
      (messages : List ReceivedMessage) (db' : Db)
      → save_attempt ext db name options maximum visibility now messages ≡ ok db'
      → db'.redrive_policies ≡ db.redrive_policies
  unfolding save_attempt
  save_attempt-policies db name options maximum visibility now messages db' h = ground arith

  replay_found-Kept :
      (db : Db) (name id print : Bytes) (now : ℕ) (a : Option Attempt)
      → Kept db.redrive_policies (replay_found ext db name id print now a)
  unfolding replay_found
  replay_found-Kept db name id print now none = refl
  replay_found-Kept db name id print now (some a) =
      let ps = db.redrive_policies in
      >>=-Kept ps (fail_if (not a.valid) _) _ λ u e.
        >>=-Kept ps (fail_if (not (bytes_eq a.fingerprint print)) _) _ λ w f.
          >>=-Kept ps (or_database (ext.received_from_json a.response)) _ λ messages g.
            >>=-Kept ps
              (check_quota db name now a.visibility_ms
                (count (is_extra db name id now) db.messages))
              _ λ x i. refl

  replay_with-Kept :
      (db : Db) (name : Bytes) (options : ReceiveOptions) (maximum now : ℕ) (id : Option Bytes)
      → Kept db.redrive_policies (replay_with ext db name options maximum now id)
  replay_with-Kept db name options maximum now none = refl
  replay_with-Kept db name options maximum now (some id) =
      replay_found-Kept db name id (fingerprint options maximum) now
        (find (is_attempt name id) db.receive_attempts)

  module _ (r : Request) (config : QueueConfig) where
    save_if-policies :
        (b : Bool) (db : Db) (visibility : ℕ) (received : List ReceivedMessage) (db' : Db)
        → save_if b ext db r visibility received ≡ ok db'
        → db'.redrive_policies ≡ db.redrive_policies
    save_if-policies true db visibility received db' h =
        save_attempt-policies db r.queue_name r.options r.max_messages visibility (ms r.now_ms)
          received db' h
    save_if-policies false db visibility received db' h = ground arith

    fresh_page-Kept : (db : Db) → Kept db.redrive_policies (fresh_page ext db r config)
    unfolding fresh_page
    fresh_page-Kept db =
        let ps = db.redrive_policies in
        let taken = count_in_flight db r.queue_name (ms r.now_ms) in
        elim (Bool-cases (leb config.max_in_flight taken && not (is_fifo config.queue_type))) [
          | inl e ↦ rw (e, fresh_page) refl
          | inr e ↦
              let limit = min r.max_messages (config.max_in_flight - taken) in
              let visibility = visibility_of r config in
              rw (e, fresh_page)
                (>>=-Kept ps
                  (collect_received ext db r.queue_name config.queue_type limit visibility
                    (ms r.now_ms))
                  _
                  λ d c.
                    let first = subst (Kept ps) c (
                      collect_received-Kept db r.queue_name config.queue_type limit visibility
                        (ms r.now_ms)) in
                    let complete = not (is_empty d.1) || r.cache_empty in
                    >>=-Kept ps (save_if complete ext d.0 r visibility d.1) _
                      λ db2 g. save_if-policies complete d.0 visibility d.1 db2 g ∙ first)
        ]

    page_or_fresh-Kept :
        (db : Db) (found : Option (List ReceivedMessage))
        → Kept db.redrive_policies (page_or_fresh ext r config (db, found))
    unfolding page_or_fresh
    page_or_fresh-Kept db none = fresh_page-Kept db
    page_or_fresh-Kept db (some messages) = refl

  forget_attempts-policies :
      (db : Db) (name : Bytes) (now : ℕ)
      → (forget_attempts db name now).redrive_policies ≡ db.redrive_policies
  unfolding forget_attempts
  forget_attempts-policies db name now = refl

  receive_body-Kept : (db : Db) (r : Request) → Kept db.redrive_policies (receive_body ext db r)
  unfolding receive_body replay_attempt
  receive_body-Kept db r =
      let ps = db.redrive_policies in
      let now = ms r.now_ms in
      let db1 = expire_messages db r.queue_name now in
      let clean = forget_attempts db1 r.queue_name now in
      let cleaned : clean.redrive_policies ≡ ps =
        forget_attempts-policies db1 r.queue_name now
        ∙ expire_messages-policies db r.queue_name now in
      >>=-Kept ps (read_queue_config db r.queue_name) _ λ config c.
        >>=-Kept ps (validate_options r.options config.queue_type) _ λ u e.
          >>=-Kept ps (replay_attempt ext db1 r.queue_name r.options r.max_messages now)
            (page_or_fresh ext r config)
            λ d f.
              let replayed : d.0.redrive_policies ≡ clean.redrive_policies =
                subst (Kept clean.redrive_policies) f (
                  replay_with-Kept clean r.queue_name r.options r.max_messages now
                    r.options.receive_request_attempt_id) in
              subst (λ qs. Kept qs (page_or_fresh ext r config d)) (replayed ∙ cleaned)
                (page_or_fresh-Kept r config d.0 d.1)

  pub receive_page-policies :
      (db : Db) (r : Request) → (receive_page ext db r).0.redrive_policies ≡ db.redrive_policies
  unfolding receive_page
  receive_page-policies db r = elim (Bool-cases (in_range 1 10 r.max_messages)) [
    | inr e ↦ rw (e, receive_page) refl
    | inl e ↦
        rw (e, receive_page)
          (ap (λ (x : Db). x.redrive_policies) (flatten-db (transaction db (receive_body ext db r)))
            ∙ transaction-policies db (receive_body ext db r) (receive_body-Kept db r))
  ]
