-- ===== src/Store/Sound/Page.antt =====
-- `receive_page` keeps the store sound.
use lqs.Prelude.{
  ℕ, ◌-◌, Bool, true, false, Option, none, some, List, ◌≡◌, refl, sym, subst, inl, inr, arith, not,
  ◌&&◌, ◌||◌, in_range, leb, is_empty, min, Bool-cases, Bytes, find,
}
use lqs.Error.{Result, ok, err, out_of_fuel, >>=-eq-ok, >>-eq-ok, or_database}
use lqs.Prelude.Word.{saturating_add_i64}
use lqs.Queue.Types.{QueueConfig, ReceivedMessage, ReceiveOptions, is_fifo}
use lqs.Queue.External.{External}
use lqs.Store.Tables.{Attempt, Db}
use lqs.Store.Read.{transaction, ms, read_queue_config, count_in_flight}
use lqs.Store.Messages.{expire_messages}
use lqs.Store.Receive.Collect.{collect_received}
use lqs.Store.Receive.Attempts.{replay_found, replay_with, replay_attempt, fingerprint, is_attempt}
use lqs.Store.Receive.Page.{
  Request, Page, save_if, fresh_page, page_or_fresh, receive_body, receive_page, flatten,
  visibility_of,
}
use lqs.Store.Sound.Rows.{IsSound, expire_messages-IsSound}
use lqs.Store.Sound.Send.{transaction-keeps}
use lqs.Store.Sound.Receive.{
  forget_attempts-IsSound, hide_again-IsSound, save_attempt-IsSound, collect_received-IsSound,
}

ok_fst :
    {A : Type 0} (x y : Db) (a b : A) → ◌≡◌ {A = Result (Db × A)} (ok (x, a)) (ok (y, b)) → x ≡ y
ok_fst x y a b h = ground arith

module _ (ext : External) where
  replay_found-IsSound :
      (db : Db) (name id print : Bytes) (now : ℕ) (a : Option Attempt) (db' : Db)
      (o : Option (List ReceivedMessage))
      → IsSound db
      → replay_found ext db name id print now a ≡ ok (db', o)
      → IsSound db'
  unfolding replay_found
  replay_found-IsSound db name id print now none db' o v h =
      let same : db ≡ db' = ground arith in subst IsSound same v
  replay_found-IsSound db name id print now (some a) db' o v h =
      let (valid, h1) = >>-eq-ok _ _ h in
      let (same_print, h2) = >>-eq-ok _ _ h1 in
      let (messages, m, h3) = >>=-eq-ok (or_database (ext.received_from_json a.response)) _ h2 in
      let (quota, h4) = >>-eq-ok _ _ h3 in
      let w = hide_again-IsSound name (saturating_add_i64 now (ms a.visibility_ms)) messages db v in
      subst IsSound (ok_fst _ db' (some messages) o h4) w

  replay_with-IsSound :
      (db : Db) (name : Bytes) (options : ReceiveOptions) (maximum now : ℕ) (id : Option Bytes)
      (db' : Db) (o : Option (List ReceivedMessage))
      → IsSound db
      → replay_with ext db name options maximum now id ≡ ok (db', o)
      → IsSound db'
  replay_with-IsSound db name options maximum now none db' o v h =
      let same : db ≡ db' = ground arith in subst IsSound same v
  replay_with-IsSound db name options maximum now (some id) db' o v h =
      replay_found-IsSound db name id (fingerprint options maximum) now
        (find (is_attempt name id) db.receive_attempts) db' o v h

  module _ (r : Request) (config : QueueConfig) where
    save_if-IsSound :
        (b : Bool) (db : Db) (visibility : ℕ) (received : List ReceivedMessage) (db' : Db)
        → IsSound db
        → save_if b ext db r visibility received ≡ ok db'
        → IsSound db'
    save_if-IsSound true db visibility received db' v h =
        save_attempt-IsSound db v ext r.queue_name r.options r.max_messages visibility (ms r.now_ms)
          received db' h
    save_if-IsSound false db visibility received db' v h =
        let same : db ≡ db' = ground arith in subst IsSound same v

    fresh_page-IsSound :
        (db db' : Db) (o : Result Page)
        → IsSound db
        → fresh_page ext db r config ≡ ok (db', o)
        → IsSound db'
    unfolding fresh_page
    fresh_page-IsSound db db' o v h =
        elim (Bool-cases (
          leb config.max_in_flight (count_in_flight db r.queue_name (ms r.now_ms))
          && not (is_fifo config.queue_type))) [
            | inl e ↦ let same : db ≡ db' = ground arith in subst IsSound same v
            | inr e ↦
                let (d, c, h1) =
                  >>=-eq-ok
                    (collect_received ext db r.queue_name config.queue_type
                      (min r.max_messages
                        (config.max_in_flight - count_in_flight db r.queue_name (ms r.now_ms)))
                      (visibility_of r config) (ms r.now_ms))
                    _ (rw (e, fresh_page) at h) in
                let (db2, s, h2) =
                  >>=-eq-ok
                    (save_if (not (is_empty d.1) || r.cache_empty) ext d.0 r
                      (visibility_of r config) d.1)
                    _ h1 in
                let same : db2 ≡ db' = ground arith in
                subst IsSound same (
                  save_if-IsSound _ d.0 _ d.1 db2
                    (collect_received-IsSound db v ext r.queue_name config.queue_type _ _ _ d.0 d.1
                      c)
                    s)
          ]

    page_or_fresh-IsSound :
        (db : Db) (found : Option (List ReceivedMessage)) (db' : Db) (o : Result Page)
        → IsSound db
        → page_or_fresh ext r config (db, found) ≡ ok (db', o)
        → IsSound db'
    unfolding page_or_fresh
    page_or_fresh-IsSound db none db' o v h = fresh_page-IsSound db db' o v h
    page_or_fresh-IsSound db (some ms') db' o v h =
        let same : db ≡ db' = ground arith in subst IsSound same v

pub flatten-db : {A : Type 0} (x : Db × Result (Result A)) → (flatten x).0 ≡ x.0
flatten-db (db, ok r) = refl
flatten-db (db, err e) = refl
flatten-db (db, out_of_fuel) = refl

-- Receiving keeps the store sound, whatever the request and the outcome: a fresh page, a replay, an
-- error that rolls back, and the quota error that commits.
pub receive_page-IsSound :
    (ext : External) (db : Db) (r : Request) → IsSound db → IsSound (receive_page ext db r).0
unfolding receive_page receive_body replay_attempt
receive_page-IsSound ext db r v = elim (Bool-cases (in_range 1 10 r.max_messages)) [
  | inr e ↦ rw (e, receive_page) v
  | inl e ↦
      rw (e, receive_page)
        (subst IsSound (sym (flatten-db (transaction db (receive_body ext db r)))) (
          transaction-keeps IsSound db (receive_body ext db r) v λ db' o h.
            let (config, c, h1) = >>=-eq-ok (read_queue_config db r.queue_name) _ h in
            let (okay, h2) = >>-eq-ok _ _ h1 in
            let db1 = expire_messages db r.queue_name (ms r.now_ms) in
            let ((db2, found), p, h3) =
              >>=-eq-ok (replay_attempt ext db1 r.queue_name r.options r.max_messages (ms r.now_ms))
                (page_or_fresh ext r config) h2 in
            let w =
              forget_attempts-IsSound db1 (expire_messages-IsSound db v r.queue_name (ms r.now_ms))
                r.queue_name (ms r.now_ms) in
            page_or_fresh-IsSound ext r config db2 found db' o
              (replay_with-IsSound ext _ r.queue_name r.options r.max_messages (ms r.now_ms)
                r.options.receive_request_attempt_id db2 found w p)
              h3))
]
