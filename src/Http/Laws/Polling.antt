-- ===== src/Http/Laws/Polling.antt =====
-- src/http_server.rs `receive_message` and `poll_receive`: the calls that a long poll makes.
use lqs.Prelude.{
  false, ℕ, ◌+◌, ◌≡◌, ◌⊎◌, refl, subst, Option, none, some, List, [], ◌∷◌, Bytes, inl, inr,
}
use lqs.Store.Tables.{Db}
use lqs.Store.Sound.Reach.{Call, perform, receive_call}
use lqs.Http.Reply.{Reply, done, refused, stuck}
use lqs.Http.Wire.{WireRequest}
use lqs.Http.Requests.{ParsedReceiveRequest}
use lqs.Http.Answer.{ApiSuccess}
use lqs.Http.Handler.{Context}
use lqs.Http.Poll.{
  Pass, request_of_pass, receive_pass, go_on, poll_receive, start_receive, poll_from,
  receive_message,
}
use lqs.Http.Laws.Denied.{is_done}
use lqs.Http.Laws.Does.{
  Quiet, Effect, Does, >>=-Does, Does->>=, attempt-Does, lock-Quiet, reply-Quiet, quiet_rules,
}

-- The answer in which a pass ends the poll, if it does.
abbrev pub answer_in : Reply (Option ApiSuccess) → Option (Reply ApiSuccess)
answer_in (done none) = none
answer_in (done (some a)) = some (done a)
answer_in (refused e) = some (refused e)
answer_in stuck = some stuck

-- The poll has ended without success.
abbrev pub IsFailure : Option (Reply ApiSuccess) → Type 0
IsFailure none = Unit × ⊥
IsFailure (some x) = is_done x ≡ false

-- The one call of a pass: `receive_page` with the request of the poll, at the time of the pass.
abbrev pub Takes : ParsedReceiveRequest → ℕ → Pass → Call → Type 0
Takes parsed deadline p c = c ≡ receive_call (request_of_pass parsed deadline p)

-- Passes in their order, each on the tables that the others left: it fails and changes nothing, or it
-- makes its call, and the first that has an answer is the last.
pub data Polled (ctx : Context) (parsed : ParsedReceiveRequest) (deadline : ℕ)
    : List Pass → Db → Db × Option (Reply ApiSuccess) → Type 0 where
  waiting : (db : Db) → Polled ctx parsed deadline [] db (db, none)
  again :
      (p : Pass) (ps : List Pass) (db mid : Db) (end : Db × Option (Reply ApiSuccess))
      → Effect {A = Option ApiSuccess} ctx.web.external ctx.now
          (Takes parsed deadline p)
          (p.others db)
          (mid, done none)
      → Polled ctx parsed deadline ps mid end
      → Polled ctx parsed deadline (p ∷ ps) db end
  ended :
      (p : Pass) (ps : List Pass) (db mid : Db) (x : Reply (Option ApiSuccess))
      (answer : Reply ApiSuccess)
      → Effect ctx.web.external ctx.now (Takes parsed deadline p) (p.others db) (mid, x)
      → answer_in x ≡ some answer
      → Polled ctx parsed deadline (p ∷ ps) db (mid, some answer)

module _ (ctx : Context) where
  module _ (parsed : ParsedReceiveRequest) (wait_ms deadline : ℕ) where
    receive_pass-Does :
        (p : Pass)
        → Does ctx.web.external ctx.now
            (Takes parsed deadline p)
            (receive_pass ctx parsed wait_ms deadline p)
    unfolding receive_pass perform
    receive_pass-Does p =
        let A = Takes parsed deadline p in
        let c = receive_call (request_of_pass parsed deadline p) in
        >>=-Does _ ctx.web.external ctx.now A _ (lock-Quiet ctx) λ u.
          Does->>= _ ctx.web.external ctx.now A _
            (attempt-Does ctx.web.external ctx.now A _ c refl (λ db. refl))
            (λ outcome. reply-Quiet _)

    one_pass :
        (p : Pass) (ps : List Pass) (db : Db) (pass : Db × Reply (Option ApiSuccess))
        → Effect ctx.web.external ctx.now (Takes parsed deadline p) (p.others db) pass
        → Polled ctx parsed deadline ps pass.0 (poll_receive ctx parsed wait_ms deadline ps pass.0)
        → Polled ctx parsed deadline
            (p ∷ ps)
            db
            (go_on pass (poll_receive ctx parsed wait_ms deadline ps pass.0))
    one_pass p ps db (mid, done none) e k = again p ps db mid _ e k
    one_pass p ps db (mid, done (some a)) e k = ended p ps db mid (done (some a)) (done a) e refl
    one_pass p ps db (mid, refused x) e k = ended p ps db mid (refused x) (refused x) e refl
    one_pass p ps db (mid, stuck) e k = ended p ps db mid stuck stuck e refl

    poll_receive-Polled :
        (ps : List Pass) (db : Db)
        → Polled ctx parsed deadline ps db (poll_receive ctx parsed wait_ms deadline ps db)
    unfolding poll_receive
    poll_receive-Polled [] db = waiting db
    poll_receive-Polled (p ∷ ps) db =
        let pass = receive_pass ctx parsed wait_ms deadline p (p.others db) in
        one_pass p ps db pass ((receive_pass-Does p).effect (p.others db))
          (poll_receive-Polled ps pass.0)

  start_receive-Quiet : (path : Bytes) (r : WireRequest) → Quiet (start_receive ctx path r)
  unfolding start_receive
  start_receive-Quiet path r = search quiet_rules depth 10

  -- The request was read and allowed, and its passes took place until its deadline.
  abbrev pub Polls :
      Bytes → WireRequest → ℕ → List Pass → Db → Db × Option (Reply ApiSuccess) → Type 0
  Polls path r start ps db out =
      (parsed : ParsedReceiveRequest) × (wait_ms : ℕ) × ((start_receive ctx path r db).1
        ≡ done (parsed, wait_ms))
      × Polled ctx parsed (start + wait_ms) ps db out

  from_begun :
      (path : Bytes) (r : WireRequest) (start : ℕ) (ps : List Pass) (db : Db)
      (begun : Db × Reply (ParsedReceiveRequest × ℕ))
      → begun.0 ≡ db
      → (start_receive ctx path r db).1 ≡ begun.1
      → (((poll_from ctx start ps begun).0 ≡ db) × IsFailure (poll_from ctx start ps begun).1)
        ⊎ Polls path r start ps db (poll_from ctx start ps begun)
  from_begun path r start ps db (db1, done (parsed, wait_ms)) e q = inr (
    parsed,
    wait_ms,
    q,
    subst
        (λ d.
          Polled ctx parsed (start + wait_ms) ps d
            (poll_receive ctx parsed wait_ms (start + wait_ms) ps db1))
        e (poll_receive-Polled parsed wait_ms (start + wait_ms) ps db1),
  )
  from_begun path r start ps db (db1, refused x) e q = inl (e, refl)
  from_begun path r start ps db (db1, stuck) e q = inl (e, refl)

  -- A ReceiveMessage fails and changes nothing, or makes the calls of its passes.
  pub receive_message-Polls :
      (path : Bytes) (r : WireRequest) (start : ℕ) (ps : List Pass) (db : Db)
      → (((receive_message ctx path r start ps db).0 ≡ db)
          × IsFailure (receive_message ctx path r start ps db).1)
        ⊎ Polls path r start ps db (receive_message ctx path r start ps db)
  unfolding receive_message
  receive_message-Polls path r start ps db =
      from_begun path r start ps db (start_receive ctx path r db)
        ((start_receive-Quiet path r).same db) refl
