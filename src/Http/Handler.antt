-- ===== src/Http/Handler.antt =====
-- src/http_server.rs: what a request handler does with the shared store, and `lock_lqs`.
-- One handler runs alone on the tables between the moment it takes the lock and its end, so a
-- handler is a function of the tables. A poisoned lock, which needs a panic, is not modelled.
use lqs.Prelude.{ℕ, Bytes}
use lqs.Error.{Result}
use lqs.Store.Tables.{Db}
use lqs.Http.Reply.{Reply, done, refused, stuck, from_lqs}
use lqs.Http.Web.{Web}
use lqs.Http.Access.{AccessContext, authorize}

-- What a handler can read of its server while it handles one request; `now` is `unix_time_ms()`.
pub record Context : Type 0 where
  pub web : Web
  pub public_base_url : Bytes
  pub access : AccessContext
  pub now : ℕ

abbrev pub Handler {ℓ} : Type ℓ → Type ℓ
Handler A = Db → Db × Reply A

infixl 5 ◌>>=◌ ◌>>◌
abbrev pub continue {κ ℓ} :
    {S : Type κ} {T : Type ℓ} → (S → Handler T) → Db × Reply S → Db × Reply T
continue rest (db, done v) = rest v db
continue rest (db, refused e) = (db, refused e)
continue rest (db, stuck) = (db, stuck)

unfoldable pub ◌>>=◌ {κ ℓ} : {S : Type κ} {T : Type ℓ} → Handler S → (S → Handler T) → Handler T
(first >>= rest) db = continue rest (first db)

abbrev pub ◌>>◌ {κ} : {T : Type κ} → Handler (Unit {0}) → Handler T → Handler T
first >> rest = first >>= λ nothing. rest

-- A result that does not depend on the tables.
unfoldable pub reply {ℓ} : {A : Type ℓ} → Reply A → Handler A
reply r db = (db, r)

unfoldable pub finish {ℓ} : {A : Type ℓ} → A → Handler A
finish a db = (db, done a)

-- A read of the store.
unfoldable pub read {ℓ} : {A : Type ℓ} → (Db → Result A) → Handler A
read f db = (db, from_lqs (f db))

unfoldable pub look {ℓ} : {A : Type ℓ} → (Db → A) → Handler A
look f db = (db, done (f db))

-- A call that may change the store, with its result as a value.
unfoldable pub attempt {ℓ} : {A : Type ℓ} → (Db → Db × Result A) → Handler (Result A)
attempt f db = let (db', result) = f db in (db', done result)

-- A call that may change the store, followed by `?`.
unfoldable pub call {ℓ} : {A : Type ℓ} → (Db → Db × Result A) → Handler A
call f = attempt f >>= λ result. reply (from_lqs result)

unfoldable pub lock_lqs : Context → Handler (Unit {0})
lock_lqs ctx db = (db, authorize ctx.web.external db ctx.access)
