-- ===== src/Http/Laws/Deadline.antt =====
-- src/http_server.rs `poll_receive`: a long poll comes to its end.
use lqs.Prelude.{
  ℕ, zero, suc, ◌+◌, ◌*◌, ◌≤◌, ◌<◌, min, ◌≡◌, ◌≢◌, refl, Option, none, some, List, [], ◌∷◌, arith,
  length,
}
use lqs.Store.Tables.{Db}
use lqs.Store.Receive.Page.{receive_page}
use lqs.Http.Reply.{Reply, done, refused, stuck}
use lqs.Http.Requests.{ParsedReceiveRequest}
use lqs.Http.Access.{authorize}
use lqs.Http.Answer.{ApiSuccess}
use lqs.Http.Handler.{Context, Handler, continue, ◌>>=◌, lock_lqs, attempt, reply}
use lqs.Http.Poll.{Pass, request_of_pass, after_pass, receive_pass, go_on, poll_receive}
use lqs.Http.Laws.Waiting.{receive_page-Complete, after_pass_late}

-- The instants of the passes: in their order within a pass, and each pass starts no earlier than the
-- sleep before it ends, which is at the deadline at the latest.
abbrev pub WellTimed : ℕ → ℕ → List Pass → Type 0
WellTimed earliest deadline [] = Unit
WellTimed earliest deadline (p ∷ ps) =
    (earliest ≤ p.checked_at)
    × (p.checked_at ≤ p.refused_at)
    × (p.refused_at ≤ p.ended_at)
    × WellTimed (min deadline (p.ended_at + 100)) deadline ps

lock_passes :
    (h : Handler (Option ApiSuccess)) (db : Db) (r : Reply (Unit {0}))
    → (h db).1 ≢ done none
    → (continue (λ u. h) (db, r)).1 ≢ done none
lock_passes h db (done u) k = k
lock_passes h db (refused e) k = λ x. cc x
lock_passes h db stuck k = λ x. cc x

module _ (ctx : Context) (parsed : ParsedReceiveRequest) (wait_ms deadline : ℕ) where
  receive_pass_late :
      (p : Pass) (db : Db)
      → deadline ≤ p.checked_at
      → p.checked_at ≤ p.refused_at
      → (receive_pass ctx parsed wait_ms deadline p db).1 ≢ done none
  unfolding receive_pass ◌>>=◌ lock_lqs attempt reply
  receive_pass_late p db late order =
      let ext = ctx.web.external in
      let r = request_of_pass parsed deadline p in
      let ends : after_pass parsed.selection wait_ms deadline p (receive_page ext db r).1
          ≢ done none =
        after_pass_late parsed.selection wait_ms deadline p (receive_page ext db r).1 (omega arith)
          (receive_page-Complete ext r (unfold request_of_pass in ground arith) db) in
      let h : Handler (Option ApiSuccess) = attempt (λ db'. receive_page ext db' r) >>= λ outcome.
      reply (after_pass parsed.selection wait_ms deadline p outcome) in
      lock_passes h db (authorize ext db ctx.access) ends

  go_on-ends :
      (pass : Db × Reply (Option ApiSuccess)) (rest : Db × Option (Reply ApiSuccess))
      → (pass.1 ≡ done none → rest.1 ≢ none)
      → (go_on pass rest).1 ≢ none
  go_on-ends (db, done none) rest k = k refl
  go_on-ends (db, done (some answer)) rest k = λ e. cc e
  go_on-ends (db, refused x) rest k = λ e. cc e
  go_on-ends (db, stuck) rest k = λ e. cc e

  poll_loop-ends :
      (n earliest : ℕ) (ps : List Pass) (db : Db)
      → WellTimed earliest deadline ps
      → deadline ≤ earliest + 100 * n
      → n < length ps
      → (poll_receive ctx parsed wait_ms deadline ps db).1 ≢ none
  unfolding poll_receive
  poll_loop-ends n earliest [] db t k l = absurd (ground arith)
  poll_loop-ends zero earliest (p ∷ ps) db (a, b, c, t) k l =
      let pass = receive_pass ctx parsed wait_ms deadline p (p.others db) in
      let late : deadline ≤ p.checked_at = omega arith in
      go_on-ends pass (poll_receive ctx parsed wait_ms deadline ps pass.0)
        (λ e. absurd (receive_pass_late p (p.others db) late b e))
  poll_loop-ends (suc n) earliest (p ∷ ps) db (a, b, c, t) k l =
      let pass = receive_pass ctx parsed wait_ms deadline p (p.others db) in
      let nearer : deadline ≤ min deadline (p.ended_at + 100) + 100 * n = omega arith in
      let left : n < length ps = omega arith in
      go_on-ends pass (poll_receive ctx parsed wait_ms deadline ps pass.0)
        (λ e. poll_loop-ends n (min deadline (p.ended_at + 100)) ps pass.0 t nearer left)

-- A long poll waits no longer, and has an answer or is `stuck`, after at most one pass more than there
-- are tenths of a second in its wait, whatever the others do to the tables, if the sleep between passes
-- is as the loop asks for.
pub poll_receive-ends :
    (ctx : Context) (parsed : ParsedReceiveRequest) (wait_ms start n : ℕ) (ps : List Pass) (db : Db)
    → WellTimed start (start + wait_ms) ps
    → wait_ms ≤ 100 * n
    → n < length ps
    → (poll_receive ctx parsed wait_ms (start + wait_ms) ps db).1 ≢ none
poll_receive-ends ctx parsed wait_ms start n ps db t h k =
    poll_loop-ends ctx parsed wait_ms (start + wait_ms) n start ps db t (omega arith) k
