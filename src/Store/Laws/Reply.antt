-- ===== src/Store/Laws/Reply.antt =====
-- src/sqlite_lqs.rs `receive_page`: the call always comes to an answer.
use lqs.Prelude.{
  ℕ, ◌-◌, Bool, true, false, not, ◌&&◌, ◌||◌, Option, none, some, List, [], ◌∷◌, ◌≡◌, ◌≢◌, refl,
  ◌∙◌, inl, inr, arith, leb, in_range, Bool-cases, Option-cases, min, count, find, is_empty, Bytes,
}
use lqs.Error.{LqsError, Fallible, or_database, fail_if, Result-cases, ok, out_of_fuel, >>=-ends}
use lqs.Queue.Types.{QueueConfig, QueueType, ReceivedMessage, ReceiveOptions, is_fifo}
use lqs.Queue.External.{External}
use lqs.Queue.Validate.{validate_options, validate_attempt_id}
use lqs.Store.Tables.{Attempt, AttemptMember, Db}
use lqs.Store.Read.{
  ms, find_queue, read_queue_config, read_redrive_policy, read_security, count_in_flight,
}
use lqs.Store.Messages.{expire_messages, delete_messages}
use lqs.Store.Receive.Collect.{collect_received}
use lqs.Store.Receive.Attempts.{
  is_extra, fingerprint, is_attempt, replay_with, save_with, replay_attempt, replay_found,
  check_quota, forget_attempts, save_attempt, add_members,
}
use lqs.Store.Receive.Page.{
  Request, visibility_of, save_if, fresh_page, page_or_fresh, receive_body, receive_page,
}
use lqs.Store.Laws.Ends.{Elsewhere, collect_received-ends}

read_queue_config-ends : (db : Db) (name : Bytes) → read_queue_config db name ≢ out_of_fuel
unfolding read_queue_config read_security
read_queue_config-ends db name = ground arith

validate_options-ends :
    (options : ReceiveOptions) (kind : QueueType) → validate_options options kind ≢ out_of_fuel
unfolding validate_options validate_attempt_id
validate_options-ends options kind = ground arith

check_quota-ends :
    (db : Db) (name : Bytes) (now visibility extra : ℕ)
    → check_quota db name now visibility extra ≢ out_of_fuel
unfolding check_quota
check_quota-ends db name now visibility extra = ground (arith, read_queue_config-ends db name)

fail_if-ends : (b : Bool) (e : LqsError) → fail_if b e ≢ out_of_fuel
fail_if-ends b e = ground arith

or_database-ends : {A : Type 0} (f : Fallible A) → or_database f ≢ out_of_fuel
or_database-ends f = ground arith

add_members-ends :
    (name id : Bytes) (messages : List ReceivedMessage) (members : List AttemptMember)
    → add_members name id messages members ≢ out_of_fuel
unfolding add_members
add_members-ends name id [] members = λ h. cc h
add_members-ends name id (r ∷ rs) members =
    >>=-ends (fail_if _ _) _ (λ h. fail_if-ends _ _ h) (λ u. add_members-ends name id rs _)

save_with-ends :
    (ext : External) (db : Db) (name : Bytes) (options : ReceiveOptions)
    (maximum visibility now : ℕ) (messages : List ReceivedMessage) (id : Option Bytes)
    → save_with ext db name options maximum visibility now messages id ≢ out_of_fuel
save_with-ends ext db name options maximum visibility now messages none = λ h. cc h
save_with-ends ext db name options maximum visibility now messages (some id) =
    ground (arith, add_members-ends name id messages db.attempt_members)

save_if-ends :
    (complete : Bool) (ext : External) (db : Db) (r : Request) (visibility : ℕ)
    (received : List ReceivedMessage)
    → save_if complete ext db r visibility received ≢ out_of_fuel
unfolding save_attempt
save_if-ends false ext db r visibility received = λ h. cc h
save_if-ends true ext db r visibility received =
    save_with-ends ext db r.queue_name r.options r.max_messages visibility (ms r.now_ms) received
      r.options.receive_request_attempt_id

replay_found-ends :
    (ext : External) (db : Db) (name id print : Bytes) (now : ℕ) (a : Option Attempt)
    → replay_found ext db name id print now a ≢ out_of_fuel
unfolding replay_found
replay_found-ends ext db name id print now none = λ h. cc h
replay_found-ends ext db name id print now (some a) =
    let extra = count (is_extra db name id now) db.messages in
    ground (arith, check_quota-ends db name now a.visibility_ms extra)

replay_with-ends :
    (ext : External) (db : Db) (name : Bytes) (options : ReceiveOptions) (maximum now : ℕ)
    (id : Option Bytes)
    → replay_with ext db name options maximum now id ≢ out_of_fuel
replay_with-ends ext db name options maximum now none = λ h. cc h
replay_with-ends ext db name options maximum now (some id) =
    replay_found-ends ext db name id (fingerprint options maximum) now
      (find (is_attempt name id) db.receive_attempts)

-- When nothing is replayed, the tables are those after the old attempts were forgotten.
replay_with-none :
    (ext : External) (db : Db) (name : Bytes) (options : ReceiveOptions) (maximum now : ℕ)
    (id : Option Bytes) (db' : Db)
    → replay_with ext db name options maximum now id ≡ ok (db', none)
    → db'.redrive_policies ≡ db.redrive_policies
unfolding replay_found
replay_with-none ext db name options maximum now none db' h = ground arith
replay_with-none ext db name options maximum now (some id) db' h = ground arith

fresh_page-ends :
    (ext : External) (db : Db) (r : Request) (config : QueueConfig)
    → Elsewhere r.queue_name (read_redrive_policy db r.queue_name)
    → (fresh_page ext db r config ≢ out_of_fuel)
      × ((db' : Db) → fresh_page ext db r config ≢ ok (db', out_of_fuel))
unfolding fresh_page
fresh_page-ends ext db r config away =
    let in_flight = count_in_flight db r.queue_name (ms r.now_ms) in
    let limit = min r.max_messages (config.max_in_flight - in_flight) in
    let collected =
      collect_received-ends ext db r.queue_name config.queue_type limit (visibility_of r config)
        (ms r.now_ms) away in
    let collect =
      collect_received ext db r.queue_name config.queue_type limit (visibility_of r config)
        (ms r.now_ms) in
    elim (Bool-cases (leb config.max_in_flight in_flight && not (is_fifo config.queue_type))) [
      | inl e ↦ (rw (e, fresh_page) (λ h. cc h), rw (e, fresh_page) (λ db' h. ground (arith, h)))
      | inr e ↦ elim (Result-cases collect) [
        | inl ((db1, received), c) ↦
            let complete = not (is_empty received) || r.cache_empty in
            let saved = save_if-ends complete ext db1 r (visibility_of r config) received in
            elim (Result-cases (save_if complete ext db1 r (visibility_of r config) received)) [
              | inl (db2, s) ↦ (
                rw (e, c, s, fresh_page) (λ h. cc h),
                rw (e, c, s, fresh_page) (λ db' h. ground (arith, h)),
              )
              | inr (inl (x, s)) ↦
                  (rw (e, c, s, fresh_page) (λ h. cc h), rw (e, c, s, fresh_page) (λ db' h. cc h))
              | inr (inr s) ↦ absurd (saved s)
            ]
        | inr (inl (x, c)) ↦
            (rw (e, c, fresh_page) (λ h. cc h), rw (e, c, fresh_page) (λ db' h. cc h))
        | inr (inr c) ↦ absurd (collected c)
      ]
    ]

expired_policies :
    (db : Db) (name : Bytes) (now : ℕ)
    → (expire_messages db name now).redrive_policies ≡ db.redrive_policies
unfolding expire_messages delete_messages
expired_policies db name now = elim (Option-cases (find_queue db name)) [
  | inl e ↦ rw e refl
  | inr (q, e) ↦ rw e refl
]

replay_attempt-none :
    (ext : External) (db : Db) (name : Bytes) (options : ReceiveOptions) (maximum now : ℕ)
    (db' : Db)
    → replay_attempt ext db name options maximum now ≡ ok (db', none)
    → db'.redrive_policies ≡ db.redrive_policies
unfolding replay_attempt forget_attempts
replay_attempt-none ext db name options maximum now db' h =
    replay_with-none ext (forget_attempts db name now) name options maximum now
      options.receive_request_attempt_id db' h

replay_attempt-ends :
    (ext : External) (db : Db) (name : Bytes) (options : ReceiveOptions) (maximum now : ℕ)
    → replay_attempt ext db name options maximum now ≢ out_of_fuel
unfolding replay_attempt
replay_attempt-ends ext db name options maximum now =
    replay_with-ends ext (forget_attempts db name now) name options maximum now
      options.receive_request_attempt_id

same_policy :
    (db db' : Db) (name : Bytes)
    → db'.redrive_policies ≡ db.redrive_policies
    → Elsewhere name (read_redrive_policy db name)
    → Elsewhere name (read_redrive_policy db' name)
unfolding read_redrive_policy
same_policy db db' name e away = rw e away

page_or_fresh-ends :
    (ext : External) (r : Request) (config : QueueConfig) (db : Db)
    (found : Option (List ReceivedMessage))
    → (found ≡ none → Elsewhere r.queue_name (read_redrive_policy db r.queue_name))
    → (page_or_fresh ext r config (db, found) ≢ out_of_fuel)
      × ((db' : Db) → page_or_fresh ext r config (db, found) ≢ ok (db', out_of_fuel))
unfolding page_or_fresh
page_or_fresh-ends ext r config db none away = fresh_page-ends ext db r config (away refl)
page_or_fresh-ends ext r config db (some messages) away = (λ h. cc h, λ db' h. ground (arith, h))

receive_body-ends :
    (ext : External) (db : Db) (r : Request)
    → Elsewhere r.queue_name (read_redrive_policy db r.queue_name)
    → (receive_body ext db r ≢ out_of_fuel)
      × ((db' : Db) → receive_body ext db r ≢ ok (db', out_of_fuel))
unfolding receive_body
receive_body-ends ext db r away =
    let expired = expire_messages db r.queue_name (ms r.now_ms) in
    let replay = replay_attempt ext expired r.queue_name r.options r.max_messages (ms r.now_ms) in
    elim (Result-cases (read_queue_config db r.queue_name)) [
      | inl (config, c) ↦ elim (Result-cases (validate_options r.options config.queue_type)) [
        | inl (u, v) ↦ elim (Result-cases replay) [
          | inl ((db1, found), p) ↦
              let there = λ (e : found ≡ none).
                same_policy db db1 r.queue_name
                  (replay_attempt-none ext expired r.queue_name r.options r.max_messages
                      (ms r.now_ms) db1 (rw e at p)
                    ∙ expired_policies db r.queue_name (ms r.now_ms))
                  away in
              let (a, b) = page_or_fresh-ends ext r config db1 found there in
              (rw (c, v, p, receive_body) a, rw (c, v, p, receive_body) b)
          | inr (inl (x, p)) ↦
              (rw (c, v, p, receive_body) (λ h. cc h), rw (c, v, p, receive_body) (λ db' h. cc h))
          | inr (inr p) ↦ absurd (
              replay_attempt-ends ext expired r.queue_name r.options r.max_messages (ms r.now_ms) p)
        ]
        | inr (inl (x, v)) ↦
            (rw (c, v, receive_body) (λ h. cc h), rw (c, v, receive_body) (λ db' h. cc h))
        | inr (inr v) ↦ absurd (validate_options-ends r.options config.queue_type v)
      ]
      | inr (inl (x, c)) ↦ (rw (c, receive_body) (λ h. cc h), rw (c, receive_body) (λ db' h. cc h))
      | inr (inr c) ↦ absurd (read_queue_config-ends db r.queue_name c)
    ]

-- `receive_page` always comes to an answer, a page or an error of the store, and never runs out of
-- fuel, if the policy of the queue names another queue, as `set_redrive_policy` makes sure.
pub receive_page-ends :
    (ext : External) (db : Db) (r : Request)
    → Elsewhere r.queue_name (read_redrive_policy db r.queue_name)
    → (receive_page ext db r).1 ≢ out_of_fuel
unfolding receive_page
receive_page-ends ext db r away =
    let (a, b) = receive_body-ends ext db r away in
    elim (Bool-cases (in_range 1 10 r.max_messages)) [
      | inr e ↦ rw (e, receive_page) (λ h. cc h)
      | inl e ↦ elim (Result-cases (receive_body ext db r)) [
        | inl ((db', page), p) ↦ elim (Result-cases page) [
          | inl (q, k) ↦ rw (e, p, k, receive_page) (λ h. cc h)
          | inr (inl (x, k)) ↦ rw (e, p, k, receive_page) (λ h. cc h)
          | inr (inr k) ↦ absurd (b db' (rw k at p))
        ]
        | inr (inl (x, p)) ↦ rw (e, p, receive_page) (λ h. cc h)
        | inr (inr p) ↦ absurd (a p)
      ]
    ]
