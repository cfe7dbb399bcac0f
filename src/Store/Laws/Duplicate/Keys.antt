-- ===== src/Store/Laws/Duplicate/Keys.antt =====
-- src/sqlite_lqs.rs: the deduplication keys and the settings of a queue through a send.
use lqs.Prelude.{
  ℕ, ◌-◌, Bool, true, false, not, ◌&&◌, ◌≡◌, refl, Option, none, some, List, [], ◌∷◌, arith, leb,
  select, Bytes, bytes_eq, Bool-cases, Option-cases, inl, inr,
}
use lqs.Error.{ok}
use lqs.Queue.Types.{QueueConfig}
use lqs.Store.Tables.{Db, DeduplicationKey}
use lqs.Store.Read.{ms, find_queue, read_security, read_redrive_policy, read_queue_config}
use lqs.Store.Messages.{expire_messages, delete_messages, insert_row}
use lqs.Store.Send.{forget_keys, first_key, remember_key}

-- What a queue's configuration is read from.
pub record SameSettings (db db' : Db) : Type 0 where
  pub queues : db'.queues ≡ db.queues
  pub securities : db'.securities ≡ db.securities
  pub policies : db'.redrive_policies ≡ db.redrive_policies

pub same_config :
    (db db' : Db) (name : Bytes)
    → SameSettings db db'
    → read_queue_config db' name ≡ read_queue_config db name
unfolding read_queue_config find_queue read_security read_redrive_policy
same_config db db' name s = rw (s.queues, s.securities, s.policies) refl

pub expire_messages-keys :
    (db : Db) (name : Bytes) (now : ℕ)
    → (expire_messages db name now).deduplication_keys ≡ db.deduplication_keys
unfolding expire_messages delete_messages
expire_messages-keys db name now = ground arith

pub expire_messages-SameSettings :
    (db : Db) (name : Bytes) (now : ℕ) → SameSettings db (expire_messages db name now)
unfolding expire_messages delete_messages
expire_messages-SameSettings db name now = record {
  queues = ground arith;
  securities = ground arith;
  policies = ground arith;
}

-- The key under which a sent message is remembered.
abbrev pub key_of : Bytes → Bytes → Bytes → Bytes → ℕ → DeduplicationKey
key_of name id group message_id now = record {
  queue_name = name;
  deduplication_id = id;
  message_id = message_id;
  seen_at_ms = ms now;
  group_id = group;
}

pub insert_row-frame :
    (db : Db) (row : lqs.Store.Tables.Message) (db' : Db)
    → insert_row db row ≡ ok db'
    → SameSettings db db' × (db'.deduplication_keys ≡ db.deduplication_keys)
unfolding insert_row
insert_row-frame db row db' h = (
  record { queues = ground arith; securities = ground arith; policies = ground arith },
  ground arith,
)

pub remember_key-frame :
    (db : Db) (name id : Bytes) (group : Option Bytes) (message_id : Bytes) (now : ℕ) (db' : Db)
    → remember_key db name (some id) group message_id (ms now) ≡ ok db'
    → (g : Bytes) × (group ≡ some g)
      × SameSettings db db'
      × (db'.deduplication_keys ≡ key_of name id g message_id now ∷ db.deduplication_keys)
unfolding remember_key
remember_key-frame db name id none message_id now db' h = cc h
remember_key-frame db name id (some g) message_id now db' h = (
  g,
  refl,
  record { queues = ground arith; securities = ground arith; policies = ground arith },
  ground arith,
)

first_key-select :
    (p q : DeduplicationKey → Bool) (ks : List DeduplicationKey)
    → first_key p ks ≡ none
    → first_key p (select q ks) ≡ none
unfolding first_key select
first_key-select p q [] h = refl
first_key-select p q (k ∷ ks) h = elim (Bool-cases (p k)) [
  | inl e ↦ elim (Option-cases (first_key p ks)) [
    | inl f ↦ ground (arith, h, e, f)
    | inr (j, f) ↦ ground (arith, h, e, f)
  ]
  | inr e ↦
      let rest : first_key p ks ≡ none = ground (arith, h, e) in
      elim (Bool-cases (q k)) [
        | inl f ↦ rw (f, e, select, first_key) (first_key-select p q ks rest)
        | inr f ↦ rw (f, select) (first_key-select p q ks rest)
      ]
]

first_key-cons :
    (p : DeduplicationKey → Bool) (k : DeduplicationKey) (ks : List DeduplicationKey)
    → p k ≡ true
    → first_key p ks ≡ none
    → first_key p (k ∷ ks) ≡ some k
unfolding first_key
first_key-cons p k ks h e = rw (h, e) refl

-- A key that the window keeps is found again, if it was the only one.
pub first_key-forget_keys :
    (db : Db) (name : Bytes) (config : QueueConfig) (later : ℕ) (p : DeduplicationKey → Bool)
    (k : DeduplicationKey) (ks : List DeduplicationKey)
    → db.deduplication_keys ≡ k ∷ ks
    → p k ≡ true
    → first_key p ks ≡ none
    → (leb config.deduplication_window_ms later ≡ true
        → leb k.seen_at_ms (ms (later - config.deduplication_window_ms)) ≡ false)
    → first_key p (forget_keys db name config later) ≡ some k
unfolding forget_keys
first_key-forget_keys db name config later p k ks d h e stays =
    let old = λ (j : DeduplicationKey). not (
      bytes_eq j.queue_name name
      && leb j.seen_at_ms (ms (later - config.deduplication_window_ms))) in
    elim (Bool-cases (leb config.deduplication_window_ms later)) [
      | inr w ↦ rw (w, forget_keys, d) (first_key-cons p k ks h e)
      | inl w ↦
          let kept : old k ≡ true = ground (arith, stays w) in
          let same : select old (k ∷ ks) ≡ k ∷ select old ks = unfold select in rw kept refl in
          rw (w, forget_keys, d, same)
            (first_key-cons p k (select old ks) h (first_key-select p old ks e))
    ]
