-- ===== src/Http/Laws/Waiting.antt =====
-- src/http_server.rs `poll_receive`: a pass at the deadline is the last one.
use lqs.Prelude.{
  ℕ, ◌≤◌, Bool, true, false, not, ◌&&◌, ◌||◌, in_range, ◌≡◌, ◌≢◌, refl, Option, none, some, List,
  arith, leb, Bool-cases, inl, inr, is_empty,
}
use lqs.Error.{over_limit, Result, ok, err, out_of_fuel, ◌>>=◌}
use lqs.Queue.Types.{QueueConfig, is_fifo, ReceivedMessage}
use lqs.Queue.External.{External}
use lqs.Store.Tables.{Db}
use lqs.Store.Messages.{expire_messages}
use lqs.Store.Receive.Attempts.{replay_attempt}
use lqs.Queue.Validate.{validate_options}
use lqs.Store.Read.{read_queue_config, ms, transaction, count_in_flight}
use lqs.Store.Receive.Page.{
  Page, Request, visibility_of, save_if, fresh_page, page_or_fresh, receive_body, flatten,
  receive_page,
}
use lqs.Http.Reply.{done}
use lqs.Http.Requests.{Selection}
use lqs.Http.Poll.{Pass, over_limit_after, after_pass}

-- A page that may be empty is complete.
abbrev pub IsComplete : Result Page → Type 0
IsComplete (ok (messages, complete)) = complete ≡ true
IsComplete (err e) = Unit
IsComplete out_of_fuel = Unit

abbrev Complete : Result (Db × Result Page) → Type 0
Complete (ok (db, page)) = IsComplete page
Complete (err e) = Unit
Complete out_of_fuel = Unit

>>=-Complete {ℓ} :
    {S : Type ℓ} (m : Result S) (rest : S → Result (Db × Result Page))
    → ((s : S) → Complete (rest s))
    → Complete (m >>= rest)
>>=-Complete (ok s) rest k = k s
>>=-Complete (err e) rest k = tt
>>=-Complete out_of_fuel rest k = tt

or_late : (b c : Bool) → c ≡ true → (b || c) ≡ true
or_late b c e = ground arith

module _ (ext : External) (r : Request) (late : r.cache_empty ≡ true) where
  fresh_page-Complete : (db : Db) (config : QueueConfig) → Complete (fresh_page ext db r config)
  unfolding fresh_page
  fresh_page-Complete db config =
      elim (Bool-cases (
        leb config.max_in_flight (count_in_flight db r.queue_name (ms r.now_ms))
        && not (is_fifo config.queue_type))) [
          | inl e ↦ rw (e, fresh_page) tt
          | inr e ↦
              rw (e, fresh_page)
                (>>=-Complete _ _ (λ (x : Db × List ReceivedMessage).
                  >>=-Complete
                    (save_if (not (is_empty x.1) || r.cache_empty) ext x.0 r
                      (visibility_of r config) x.1)
                    _ (λ db2. or_late (not (is_empty x.1)) r.cache_empty late)))
        ]

  page_or_fresh-Complete :
      (config : QueueConfig) (replay : Db × Option (List ReceivedMessage))
      → Complete (page_or_fresh ext r config replay)
  unfolding page_or_fresh
  page_or_fresh-Complete config (db, some messages) = refl
  page_or_fresh-Complete config (db, none) = fresh_page-Complete db config

  receive_body-Complete : (db : Db) → Complete (receive_body ext db r)
  unfolding receive_body
  receive_body-Complete db =
      let replay =
        replay_attempt ext (expire_messages db r.queue_name (ms r.now_ms)) r.queue_name r.options
          r.max_messages (ms r.now_ms) in
      let page : QueueConfig → Result (Db × Result Page) =
        λ config. replay >>= page_or_fresh ext r config in
      >>=-Complete (read_queue_config db r.queue_name)
        (λ config. validate_options r.options config.queue_type >>= λ u. page config)
        (λ config.
          >>=-Complete (validate_options r.options config.queue_type) (λ u. page config)
            (λ u. >>=-Complete replay (page_or_fresh ext r config) (page_or_fresh-Complete config)))

  flatten-Complete :
      (db : Db) (page : Result (Db × Result Page))
      → Complete page
      → IsComplete (flatten (transaction db page)).1
  flatten-Complete db (ok (db', ok (messages, b))) k = k
  flatten-Complete db (ok (db', err e)) k = tt
  flatten-Complete db (ok (db', out_of_fuel)) k = tt
  flatten-Complete db (err e) k = tt
  flatten-Complete db out_of_fuel k = tt

  pub receive_page-Complete : (db : Db) → IsComplete (receive_page ext db r).1
  unfolding receive_page
  receive_page-Complete db = elim (Bool-cases (in_range 1 10 r.max_messages)) [
    | inl e ↦ rw (e, receive_page) (flatten-Complete db _ (receive_body-Complete db))
    | inr e ↦ rw (e, receive_page) tt
  ]

-- A pass at the deadline does not make the loop go on.
over_limit_late :
    (wait_ms deadline : ℕ) (p : Pass)
    → deadline ≤ p.refused_at
    → over_limit_after wait_ms deadline p ≢ done none
over_limit_late wait_ms deadline p late = ground arith

pub after_pass_late :
    (selection : Selection) (wait_ms deadline : ℕ) (p : Pass) (page : Result Page)
    → deadline ≤ p.refused_at
    → IsComplete page
    → after_pass selection wait_ms deadline p page ≢ done none
unfolding after_pass
after_pass_late selection wait_ms deadline p (ok (messages, true)) late k = λ e. cc e
after_pass_late selection wait_ms deadline p (ok (messages, false)) late k = cc k
after_pass_late selection wait_ms deadline p (err over_limit) late k =
    over_limit_late wait_ms deadline p late
after_pass_late selection wait_ms deadline p (err e) late k = λ e. cc e
after_pass_late selection wait_ms deadline p out_of_fuel late k = λ e. cc e
