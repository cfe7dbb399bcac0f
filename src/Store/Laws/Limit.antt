-- ===== src/Store/Laws/Limit.antt =====
-- src/sqlite_lqs.rs `collect_received`: a page is no longer than its limit, and the loop ends.
use lqs.Prelude.{
  ℕ, ◌+◌, ◌≤◌, Option, none, some, List, [], ◌∷◌, ◌≡◌, subst, inl, inr, arith, leb, Bool-cases,
  length, length-append, Bytes,
}
use lqs.Error.{ok, >>=-eq-ok}
use lqs.Queue.Types.{QueueType, standard, fifo, ReceivedMessage}
use lqs.Queue.External.{External}
use lqs.Store.Tables.{Db}
use lqs.Store.Receive.Next.{Candidate, CandidateAction, stop, redrive, deliver, candidate_action}
use lqs.Store.Receive.Deliver.{deliver_candidate, redrive_candidate}
use lqs.Store.Receive.Collect.{
  Params, Collected, Round, finish, note_delivery, act, with_candidate, round, collect,
  collect_fuel, collect_params, collect_start, collect_received,
}
use lqs.Store.Sound.Receive.{state_of, ok_inj, collect-keeps}

pub note_delivery-length :
    (kind : QueueType) (c : Candidate) (d : Db × ReceivedMessage) (s : Collected)
    → length (note_delivery kind c d s).received ≡ length s.received + 1
unfolding note_delivery
note_delivery-length standard c d s = length-append s.received (d.1 ∷ [])
note_delivery-length fifo c d s = length-append s.received (d.1 ∷ [])

module _ (ext : External) (p : Params) where
  act-length :
      (c : Candidate) (s : Collected) (a : CandidateAction) (r : Round)
      → act ext p c s a ≡ ok r
      → length (state_of r).received ≤ length s.received + 1
  unfolding act
  act-length c s stop r h =
      subst (λ q. length (state_of q).received ≤ length s.received + 1) (ok_inj (finish s) r h)
        (omega arith)
  act-length c s (redrive policy) r h =
      let (db', e, h1) =
        >>=-eq-ok (redrive_candidate s.db p.queue_name p.queue_type c policy p.now) _ h in
      subst (λ q. length (state_of q).received ≤ length s.received + 1) (ok_inj _ r h1)
        (omega arith)
  act-length c s deliver r h =
      let (d, e, h1) =
        >>=-eq-ok (deliver_candidate ext s.db p.queue_type c p.visibility_ms p.now) _ h in
      subst (λ q. length (state_of q).received ≤ length s.received + 1) (ok_inj _ r h1)
        (omega (arith, note_delivery-length p.queue_type c d s))

  with_candidate-length :
      (s : Collected) (o : Option Candidate) (r : Round)
      → with_candidate ext p s o ≡ ok r
      → length (state_of r).received ≤ length s.received + 1
  unfolding with_candidate
  with_candidate-length s none r h =
      subst (λ q. length (state_of q).received ≤ length s.received + 1) (ok_inj (finish s) r h)
        (omega arith)
  with_candidate-length s (some c) r h = act-length c s (candidate_action c s.received p.policy) r h

  round-length :
      (s : Collected) (r : Round)
      → length s.received ≤ p.limit
      → round ext p s ≡ ok r
      → length (state_of r).received ≤ p.limit
  unfolding round
  round-length s r b h = elim (Bool-cases (leb p.limit (length s.received))) [
    | inl e ↦
        subst (λ q. length (state_of q).received ≤ p.limit)
          (ok_inj (finish s) r (rw (e, round) at h)) b
    | inr e ↦ let k = with_candidate-length s _ r (rw (e, round) at h) in ground (arith, e, k)
  ]

-- The loop never takes more messages than its limit, redrives and repeated candidates included.
pub collect_received-length :
    (ext : External) (db : Db) (name : Bytes) (kind : QueueType) (limit visibility now : ℕ)
    (db' : Db) (received : List ReceivedMessage)
    → collect_received ext db name kind limit visibility now ≡ ok (db', received)
    → length received ≤ limit
unfolding collect_received
collect_received-length ext db name kind limit visibility now db' received h =
    let p = collect_params db name kind limit visibility now in
    let (s, e, h1) =
      >>=-eq-ok (collect ext p (collect_fuel db name limit) (collect_start db)) _ h in
    let bound =
      collect-keeps ext p (λ t. length t.received ≤ limit) (λ t r w k. round-length ext p t r w k) _
        _ s (omega arith) e in
    let same : s.received ≡ received = ground (arith, h1) in
    subst (λ (l : List ReceivedMessage). length l ≤ limit) same bound
