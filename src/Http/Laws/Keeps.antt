-- ===== src/Http/Laws/Keeps.antt =====
-- Predicates on the tables that a handler keeps, with a rule for each way to build a handler.
use lqs.Prelude.{Bool, true, false, if◌then◌else◌}
use lqs.Error.{Result}
use lqs.Store.Tables.{Db}
use lqs.Http.Reply.{Reply, done, refused, stuck}
use lqs.Http.Handler.{Context, Handler, ◌>>=◌, reply, finish, read, look, attempt, lock_lqs}

-- Whatever the handler answers, the tables it leaves have what the tables before had.
pub record Keeps {ℓ} {A : Type ℓ} (P : Db → Type 0) (h : Handler A) : Type ℓ where
  pub after : (db : Db) → P db → P (h db).0

module _ {ℓ} {A : Type ℓ} {P : Db → Type 0} where
  pub reply-Keeps : (r : Reply A) → Keeps P (reply r)
  unfolding reply
  reply-Keeps r = record { after = λ db p. p }

  pub finish-Keeps : (a : A) → Keeps P (finish a)
  unfolding finish
  finish-Keeps a = record { after = λ db p. p }

  pub read-Keeps : (f : Db → Result A) → Keeps P (read f)
  unfolding read
  read-Keeps f = record { after = λ db p. p }

  pub look-Keeps : (f : Db → A) → Keeps P (look f)
  unfolding look
  look-Keeps f = record { after = λ db p. p }

  pub attempt-Keeps :
      (f : Db → Db × Result A) → ((db : Db) → P db → P (f db).0) → Keeps P (attempt f)
  unfolding attempt
  attempt-Keeps f k = record { after = k }

  pub if-Keeps : (b : Bool) (h g : Handler A) → Keeps P h → Keeps P g → Keeps P (if b then h else g)
  if-Keeps true h g k l = k
  if-Keeps false h g k l = l

pub lock-Keeps : {P : Db → Type 0} (ctx : Context) → Keeps P (lock_lqs ctx)
unfolding lock_lqs
lock-Keeps ctx = record { after = λ db p. p }

module _ {κ ℓ} {S : Type κ} {T : Type ℓ} {P : Db → Type 0} where
  rest-Keeps :
      (rest : S → Handler T) (db : Db) (r : Reply S)
      → ((s : S) → Keeps P (rest s))
      → P db
      → P ((reply r >>= rest) db).0
  unfolding ◌>>=◌ reply
  rest-Keeps rest db (done s) k p = (k s).after db p
  rest-Keeps rest db (refused e) k p = p
  rest-Keeps rest db stuck k p = p

  pub >>=-Keeps :
      (h : Handler S) (rest : S → Handler T)
      → Keeps P h
      → ((s : S) → Keeps P (rest s))
      → Keeps P (h >>= rest)
  unfolding ◌>>=◌ reply
  >>=-Keeps h rest k l = record {
    after = λ db p. let (db', r) = h db in rest-Keeps rest db' r l (k.after db p);
  }

pub ruleset keeps_rules =
    (reply-Keeps, finish-Keeps, read-Keeps, look-Keeps, lock-Keeps, if-Keeps, >>=-Keeps)
