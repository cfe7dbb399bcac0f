-- ===== src/Http/Laws/Answered.antt =====
-- src/http_server.rs `poll_receive`, in the stores that calls lead to.
use lqs.Prelude.{
  ℕ, ◌+◌, ◌*◌, ◌≤◌, ◌<◌, true, false, not, ◌&&◌, ◌≡◌, ◌≢◌, ◌⊎◌, refl, Option, none, some, List, [],
  ◌∷◌, length, arith, Bytes, Bool-cases, Option-cases, inl, inr, bytes_eq, text,
}
use lqs.Error.{Result, ok, err, out_of_fuel, >>=-ends}
use lqs.Queue.External.{External}
use lqs.Security.Authorize.Ends.{authorize-ends}
use lqs.Store.Tables.{Db}
use lqs.Store.Read.{queue_type, read_security, queue_exists}
use lqs.Store.Settings.{queue_security, authorize_queue}
use lqs.Store.Receive.Page.{Page, receive_page}
use lqs.Store.Sound.Reach.{Reachable}
use lqs.Store.Sound.Self.Reach.{receive_page-Reachable-ends}
use lqs.Http.Reply.{ApiError, Reply, done, refused, stuck, from_lqs}
use lqs.Http.Requests.{ParsedReceiveRequest}
use lqs.Http.Requests.{Selection}
use lqs.Http.Access.{AccessContext, authorize_name, authorize}
use lqs.Http.Answer.{ApiSuccess}
use lqs.Http.Handler.{Context, Handler, continue, ◌>>=◌, lock_lqs, attempt, reply}
use lqs.Http.Poll.{Pass, request_of_pass, after_pass, receive_pass, go_on, poll_receive}
use lqs.Http.Laws.Deadline.{WellTimed, poll_receive-ends}
use lqs.Http.Laws.Passes.{AllReach, receive_pass-Keeps}

queue_security-ends : (db : Db) (name : Bytes) → queue_security db name ≢ out_of_fuel
unfolding queue_security queue_type read_security
queue_security-ends db name = ground arith

authorize_queue-ends :
    (ext : External) (db : Db) (name : Bytes) (access : AccessContext)
    → authorize_queue ext db name access.identity access.action ≢ out_of_fuel
unfolding authorize_queue
authorize_queue-ends ext db name access =
    >>=-ends (queue_security db name) _ (queue_security-ends db name)
      (λ security. authorize-ends ext.json_parse security.policy access.identity access.action _)

from_lqs-settled : {A : Type 0} (r : Result A) → r ≢ out_of_fuel → from_lqs r ≢ stuck
from_lqs-settled (ok a) h = λ k. cc k
from_lqs-settled (err e) h = λ k. cc k
from_lqs-settled out_of_fuel h = λ k. h refl

authorize_name-settled :
    (ext : External) (db : Db) (access : AccessContext) (name : Bytes)
    → authorize_name ext db access name ≢ stuck
unfolding authorize_name
authorize_name-settled ext db access name =
    elim (Bool-cases (bytes_eq access.action (text "CreateQueue") && not (queue_exists db name))) [
      | inl e ↦ rw (e, authorize_name) (λ k. cc k)
      | inr e ↦
          rw (e, authorize_name) (from_lqs-settled _ (authorize_queue-ends ext db name access))
    ]

authorize-settled :
    (ext : External) (db : Db) (access : AccessContext) → authorize ext db access ≢ stuck
unfolding authorize
authorize-settled ext db access = elim (Option-cases access.queue) [
  | inl e ↦ rw (e, authorize) (λ k. cc k)
  | inr (name, e) ↦ rw (e, authorize) (authorize_name-settled ext db access name)
]

after_pass-settled :
    (selection : Selection) (wait_ms deadline : ℕ) (p : Pass) (r : Result Page)
    → r ≢ out_of_fuel
    → after_pass selection wait_ms deadline p r ≢ stuck
unfolding after_pass
after_pass-settled selection wait_ms deadline p (ok (messages, true)) h = λ k. cc k
after_pass-settled selection wait_ms deadline p (ok (messages, false)) h = λ k. cc k
after_pass-settled selection wait_ms deadline p (err e) h = ground arith
after_pass-settled selection wait_ms deadline p out_of_fuel h = absurd (h refl)

lock_settled :
    (h : Handler (Option ApiSuccess)) (db : Db) (r : Reply (Unit {0}))
    → r ≢ stuck
    → (h db).1 ≢ stuck
    → (continue (λ u. h) (db, r)).1 ≢ stuck
lock_settled h db (done u) a k = k
lock_settled h db (refused e) a k = λ x. cc x
lock_settled h db stuck a k = absurd (a refl)

module _ (ctx : Context) (parsed : ParsedReceiveRequest) (wait_ms deadline : ℕ) where
  receive_pass-settled :
      (p : Pass) (db : Db)
      → Reachable ctx.web.external db
      → (receive_pass ctx parsed wait_ms deadline p db).1 ≢ stuck
  unfolding receive_pass ◌>>=◌ lock_lqs attempt reply
  receive_pass-settled p db g =
      let ext = ctx.web.external in
      let r = request_of_pass parsed deadline p in
      let settled : after_pass parsed.selection wait_ms deadline p (receive_page ext db r).1
          ≢ stuck =
        after_pass-settled parsed.selection wait_ms deadline p (receive_page ext db r).1
          (receive_page-Reachable-ends ext db r g) in
      let h : Handler (Option ApiSuccess) = attempt (λ db'. receive_page ext db' r) >>= λ outcome.
      reply (after_pass parsed.selection wait_ms deadline p outcome) in
      lock_settled h db (authorize ext db ctx.access) (authorize-settled ext db ctx.access) settled

  go_on-settled :
      (pass : Db × Reply (Option ApiSuccess)) (rest : Db × Option (Reply ApiSuccess))
      → pass.1 ≢ stuck
      → rest.1 ≢ some stuck
      → (go_on pass rest).1 ≢ some stuck
  go_on-settled (db, done none) rest a k = k
  go_on-settled (db, done (some answer)) rest a k = λ e. ground arith
  go_on-settled (db, refused x) rest a k = λ e. ground arith
  go_on-settled (db, stuck) rest a k = absurd (a refl)

  poll_receive-settled :
      (ps : List Pass) (db : Db)
      → AllReach ctx.web.external ps
      → Reachable ctx.web.external db
      → (poll_receive ctx parsed wait_ms deadline ps db).1 ≢ some stuck
  unfolding poll_receive
  poll_receive-settled [] db k g = λ e. cc e
  poll_receive-settled (p ∷ ps) db (k, ks) g =
      let others = k db g in
      let pass = receive_pass ctx parsed wait_ms deadline p (p.others db) in
      let next = (receive_pass-Keeps ctx parsed wait_ms deadline p).after (p.others db) others in
      go_on-settled pass (poll_receive ctx parsed wait_ms deadline ps pass.0)
        (receive_pass-settled p (p.others db) others) (poll_receive-settled ps pass.0 ks next)

-- The end of a poll: an answer or an error of the API.
abbrev pub IsAnswer : Option (Reply ApiSuccess) → Type 0
IsAnswer o = ((a : ApiSuccess) × (o ≡ some (done a))) ⊎ ((e : ApiError) × (o ≡ some (refused e)))

IsAnswer-of : (o : Option (Reply ApiSuccess)) → o ≢ none → o ≢ some stuck → IsAnswer o
IsAnswer-of none a b = absurd (a refl)
IsAnswer-of (some (done x)) a b = inl (x, refl)
IsAnswer-of (some (refused e)) a b = inr (e, refl)
IsAnswer-of (some stuck) a b = absurd (b refl)

-- In a store that calls lead to, and if what others do between the passes is calls too, each pass
-- starts no earlier than the sleep before it ends, and there are more passes than the wait has tenths
-- of a second, the long poll ends with an answer or an error of the API.
pub poll_receive-IsAnswer :
    (ctx : Context) (parsed : ParsedReceiveRequest) (wait_ms start n : ℕ) (ps : List Pass) (db : Db)
    → Reachable ctx.web.external db
    → AllReach ctx.web.external ps
    → WellTimed start (start + wait_ms) ps
    → wait_ms ≤ 100 * n
    → n < length ps
    → IsAnswer (poll_receive ctx parsed wait_ms (start + wait_ms) ps db).1
poll_receive-IsAnswer ctx parsed wait_ms start n ps db g k t h l =
    IsAnswer-of (poll_receive ctx parsed wait_ms (start + wait_ms) ps db).1
      (poll_receive-ends ctx parsed wait_ms start n ps db t h l)
      (poll_receive-settled ctx parsed wait_ms (start + wait_ms) ps db k g)
