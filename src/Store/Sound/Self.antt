-- ===== src/Store/Sound/Self.antt =====
-- src/sqlite_lqs.rs: the table of redrive policies through the calls on the store.
pub mod Work
pub mod Policies
pub mod Labels
pub mod Reach
use lqs.Prelude.{
  ℕ, Bool, true, false, not, ◌||◌, ◌≡◌, refl, sym, subst, ◌∙◌, Option, none, some, List, [], ◌∷◌,
  arith, Bytes, bytes_eq,
}
use lqs.Error.{Result, ok, err, out_of_fuel, ◌>>=◌, ◌>>◌}
use lqs.Queue.Types.{RedrivePolicy, SendRequest, SendResult, QueueConfig, PreparedSend}
use lqs.Queue.External.{External}
use lqs.Queue.Send.{prepare_send}
use lqs.Store.Tables.{Db, PolicyRow}
use lqs.Store.Read.{ms, transaction, read_queue_config}
use lqs.Store.Messages.{expire_messages, delete_messages, next_sequence, message_id_of, insert_row}
use lqs.Store.Send.{
  find_duplicate, remember_key, insert_message, send_unless, sent_row, send_body, send,
}
use lqs.Store.Visibility.{delete, change_rows, change_visibility}

-- The policies after a result that is a success.
abbrev pub Kept {ℓ} : {A : Type ℓ} → List PolicyRow → Result (Db × A) → Type 0
Kept ps (ok (db, a)) = db.redrive_policies ≡ ps
Kept ps (err e) = Unit
Kept ps out_of_fuel = Unit

pub >>=-Kept {κ ℓ} :
    {S : Type κ} {A : Type ℓ} (ps : List PolicyRow) (m : Result S) (rest : S → Result (Db × A))
    → ((s : S) → m ≡ ok s → Kept ps (rest s))
    → Kept ps (m >>= rest)
>>=-Kept ps (ok s) rest k = k s refl
>>=-Kept ps (err e) rest k = tt
>>=-Kept ps out_of_fuel rest k = tt

pub >>-Kept {ℓ} :
    {A : Type ℓ} (ps : List PolicyRow) (m : Result (Unit {0})) (rest : Result (Db × A))
    → Kept ps rest
    → Kept ps (m >> rest)
>>-Kept ps (ok s) rest k = k
>>-Kept ps (err e) rest k = tt
>>-Kept ps out_of_fuel rest k = tt

pub transaction-policies :
    {A : Type 0} (db : Db) (r : Result (Db × A))
    → Kept db.redrive_policies r
    → (transaction db r).0.redrive_policies ≡ db.redrive_policies
transaction-policies db (ok (db', a)) k = k
transaction-policies db (err e) k = refl
transaction-policies db out_of_fuel k = refl

pub expire_messages-policies :
    (db : Db) (name : Bytes) (now : ℕ)
    → (expire_messages db name now).redrive_policies ≡ db.redrive_policies
unfolding expire_messages delete_messages
expire_messages-policies db name now = ground arith

pub insert_row-policies :
    (db : Db) (row : lqs.Store.Tables.Message) (db' : Db)
    → insert_row db row ≡ ok db'
    → db'.redrive_policies ≡ db.redrive_policies
unfolding insert_row
insert_row-policies db row db' h = ground arith

remember_key-policies :
    (db : Db) (name : Bytes) (key group : Option Bytes) (id : Bytes) (now : ℕ) (db' : Db)
    → remember_key db name key group id now ≡ ok db'
    → db'.redrive_policies ≡ db.redrive_policies
unfolding remember_key
remember_key-policies db name none group id now db' h = ground arith
remember_key-policies db name (some key) none id now db' h = cc h
remember_key-policies db name (some key) (some group) id now db' h = ground arith

insert_message-Kept :
    (db : Db) (name : Bytes) (prepared : PreparedSend) (now : ℕ)
    → Kept db.redrive_policies (insert_message db name prepared now)
unfolding insert_message
insert_message-Kept db name prepared now =
    let row = sent_row name prepared now (next_sequence db) in
    let id = message_id_of (next_sequence db) in
    >>=-Kept db.redrive_policies (insert_row db row) _ λ db1 e.
      >>=-Kept db.redrive_policies
        (remember_key db1 name prepared.deduplication_id prepared.group_id id (ms now)) _
        λ db2 f.
          remember_key-policies db1 name prepared.deduplication_id prepared.group_id id (ms now) db2
            f
          ∙ insert_row-policies db row db1 e

send_unless-Kept :
    (db : Db) (name : Bytes) (prepared : PreparedSend) (now : ℕ) (found : Option Bytes)
    → Kept db.redrive_policies (send_unless db name prepared now found)
unfolding send_unless
send_unless-Kept db name prepared now (some id) = refl
send_unless-Kept db name prepared now none =
    >>=-Kept db.redrive_policies (insert_message db name prepared now) _
      λ d e. subst (Kept db.redrive_policies) e (insert_message-Kept db name prepared now)

find_duplicate-policies :
    (db : Db) (name : Bytes) (config : QueueConfig) (prepared : PreparedSend) (now : ℕ)
    → (find_duplicate db name config prepared now).0.redrive_policies ≡ db.redrive_policies
unfolding find_duplicate
find_duplicate-policies db name config prepared now = ground arith

pub send-policies :
    (ext : External) (db : Db) (name : Bytes) (request : SendRequest) (now : ℕ)
    → (send ext db name request now).0.redrive_policies ≡ db.redrive_policies
unfolding send send_body
send-policies ext db name request now =
    let ps = db.redrive_policies in
    transaction-policies db (send_body ext db name request now) (
      >>=-Kept ps (read_queue_config db name) _ λ config c.
        >>=-Kept ps (prepare_send ext request config) _ λ prepared p.
          let db1 = expire_messages db name (ms now) in
          let found = find_duplicate db1 name config prepared now in
          subst (λ qs. Kept qs (send_unless found.0 name prepared now found.1))
            (find_duplicate-policies db1 name config prepared now
              ∙ expire_messages-policies db name (ms now))
            (send_unless-Kept found.0 name prepared now found.1))

pub delete-policies :
    (db : Db) (name handle : Bytes)
    → (delete db name handle).0.redrive_policies ≡ db.redrive_policies
unfolding delete delete_messages
delete-policies db name handle = ground arith

pub change_visibility-policies :
    (db : Db) (name handle : Bytes) (timeout now : ℕ)
    → (change_visibility db name handle timeout now).0.redrive_policies ≡ db.redrive_policies
unfolding change_visibility change_rows lqs.Store.Messages.update_messages
change_visibility-policies db name handle timeout now = ground arith
