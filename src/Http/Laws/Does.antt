-- ===== src/Http/Laws/Does.antt =====
-- What a handler does to the tables: nothing, or one call on the store that it was asked for.
use lqs.Prelude.{ℕ, Bool, true, false, ◌≡◌, ◌⊎◌, refl, sym, subst, ◌∙◌, inl, inr, if◌then◌else◌}
use lqs.Error.{Result}
use lqs.Queue.External.{External}
use lqs.Store.Tables.{Db}
use lqs.Store.Sound.Reach.{Call, perform}
use lqs.Http.Reply.{ApiError, Reply, done, refused, stuck, from_lqs}
use lqs.Http.Handler.{
  Context, Handler, continue, ◌>>=◌, reply, finish, read, look, attempt, call, lock_lqs,
}
use lqs.Http.Laws.Denied.{is_done}

-- The handler leaves the tables as they are.
pub record Quiet {ℓ} {A : Type ℓ} (h : Handler A) : Type ℓ where
  pub same : (db : Db) → (h db).0 ≡ db

-- The handler fails and leaves the tables as they are, or makes one call of those that are asked for.
abbrev pub Effect {ℓ} : {A : Type ℓ} → External → ℕ → (Call → Type 0) → Db → Db × Reply A → Type 0
Effect ext now Asked db (db', r) =
    ((db' ≡ db) × (is_done r ≡ false)) ⊎ ((c : Call) × Asked c × (db' ≡ perform ext now db c))

pub record Does {ℓ} {A : Type ℓ} (ext : External) (now : ℕ) (Asked : Call → Type 0) (h : Handler A)
    : Type ℓ where
  pub effect : (db : Db) → Effect ext now Asked db (h db)

module _ {ℓ} {A : Type ℓ} where
  pub reply-Quiet : (r : Reply A) → Quiet (reply r)
  unfolding reply
  reply-Quiet r = record { same = λ db. refl }

  pub finish-Quiet : (a : A) → Quiet (finish a)
  unfolding finish
  finish-Quiet a = record { same = λ db. refl }

  pub read-Quiet : (f : Db → Result A) → Quiet (read f)
  unfolding read
  read-Quiet f = record { same = λ db. refl }

  pub look-Quiet : (f : Db → A) → Quiet (look f)
  unfolding look
  look-Quiet f = record { same = λ db. refl }

  pub if-Quiet : (b : Bool) (h g : Handler A) → Quiet h → Quiet g → Quiet (if b then h else g)
  if-Quiet true h g k l = k
  if-Quiet false h g k l = l

pub lock-Quiet : (ctx : Context) → Quiet (lock_lqs ctx)
unfolding lock_lqs
lock-Quiet ctx = record { same = λ db. refl }

module _ {κ ℓ} {S : Type κ} {T : Type ℓ} (rest : S → Handler T) where
  rest-same : (out : Db × Reply S) → ((s : S) → Quiet (rest s)) → (continue rest out).0 ≡ out.0
  rest-same (db, done s) k = (k s).same db
  rest-same (db, refused e) k = refl
  rest-same (db, stuck) k = refl

  pub >>=-Quiet : (h : Handler S) → Quiet h → ((s : S) → Quiet (rest s)) → Quiet (h >>= rest)
  unfolding ◌>>=◌
  >>=-Quiet h k l = record { same = λ db. rest-same (h db) l ∙ k.same db }

  module _ (ext : External) (now : ℕ) (Asked : Call → Type 0) where
    reply_then :
        (x : Reply S) (db : Db)
        → ((s : S) → x ≡ done s → Does ext now Asked (rest s))
        → Effect ext now Asked db (continue rest (db, x))
    reply_then (done s) db k = (k s refl).effect db
    reply_then (refused e) db k = inl (refl, refl)
    reply_then stuck db k = inl (refl, refl)

    -- What follows a result knows where it came from.
    pub reply->>=-Does :
        (x : Reply S)
        → ((s : S) → x ≡ done s → Does ext now Asked (rest s))
        → Does ext now Asked (reply x >>= rest)
    unfolding ◌>>=◌ reply
    reply->>=-Does x k = record { effect = λ db. reply_then x db k }

    quiet_then :
        (out : Db × Reply S) (db : Db)
        → out.0 ≡ db
        → ((s : S) → Does ext now Asked (rest s))
        → Effect ext now Asked db (continue rest out)
    quiet_then (db', done s) db e k =
        subst (λ (d : Db). Effect ext now Asked db (rest s d)) (sym e) ((k s).effect db)
    quiet_then (db', refused x) db e k = inl (e, refl)
    quiet_then (db', stuck) db e k = inl (e, refl)

    pub >>=-Does :
        (h : Handler S)
        → Quiet h
        → ((s : S) → Does ext now Asked (rest s))
        → Does ext now Asked (h >>= rest)
    unfolding ◌>>=◌
    >>=-Does h q k = record { effect = λ db. quiet_then (h db) db (q.same db) k }

    answer_after :
        (out : Db × Reply S) (db : Db)
        → Effect ext now Asked db out
        → ((s : S) → Quiet (rest s))
        → Effect ext now Asked db (continue rest out)
    answer_after (db', done s) db (inl (e, f)) k = cc f
    answer_after (db', done s) db (inr (c, a, e)) k = inr (c, a, (k s).same db' ∙ e)
    answer_after (db', refused x) db (inl (e, f)) k = inl (e, refl)
    answer_after (db', refused x) db (inr (c, a, e)) k = inr (c, a, e)
    answer_after (db', stuck) db (inl (e, f)) k = inl (e, refl)
    answer_after (db', stuck) db (inr (c, a, e)) k = inr (c, a, e)

    -- After its call the handler only answers.
    pub Does->>= :
        (h : Handler S)
        → Does ext now Asked h
        → ((s : S) → Quiet (rest s))
        → Does ext now Asked (h >>= rest)
    unfolding ◌>>=◌
    Does->>= h d k = record { effect = λ db. answer_after (h db) db (d.effect db) k }

module _ {ℓ} {A : Type ℓ} (ext : External) (now : ℕ) (Asked : Call → Type 0) where
  pub refused-Does : (e : ApiError) → Does ext now Asked (reply {A = A} (refused e))
  unfolding reply
  refused-Does e = record { effect = λ db. inl (refl, refl) }

  pub attempt-Does :
      (f : Db → Db × Result A) (c : Call)
      → Asked c
      → ((db : Db) → (f db).0 ≡ perform ext now db c)
      → Does ext now Asked (attempt f)
  unfolding attempt
  attempt-Does f c a k = record { effect = λ db. inr (c, a, k db) }

  pub call-Does :
      (f : Db → Db × Result A) (c : Call)
      → Asked c
      → ((db : Db) → (f db).0 ≡ perform ext now db c)
      → Does ext now Asked (call f)
  unfolding call
  call-Does f c a k =
      Does->>= (λ r. reply (from_lqs r)) ext now Asked (attempt f) (attempt-Does f c a k)
        (λ r. reply-Quiet (from_lqs r))

pub ruleset quiet_rules =
    (reply-Quiet, finish-Quiet, read-Quiet, look-Quiet, lock-Quiet, if-Quiet, >>=-Quiet)
