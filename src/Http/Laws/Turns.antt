-- ===== src/Http/Laws/Turns.antt =====
-- src/batch_http.rs: what a batch action does, entry by entry.
use lqs.Prelude.{
  true, false, ◌≡◌, ◌⊎◌, refl, sym, subst, List, [], ◌∷◌, Bytes, text, bytes_eq, bytes_eq→≡, any,
  arith, Bool-cases, inl, inr,
}
use lqs.Store.Tables.{Db}
use lqs.Batch.{BatchEntry}
use lqs.Http.Reply.{Reply, done, refused, stuck}
use lqs.Http.Wire.{WireRequest}
use lqs.Http.Names.{queue_name}
use lqs.Http.Maps.{is_one_of}
use lqs.Http.Entries.{entries}
use lqs.Http.Answer.{ApiBatchResult, ApiSuccess, JsonMap, batch}
use lqs.Http.Handler.{Context, Handler, continue, ◌>>=◌, reply, finish, lock_lqs}
use lqs.Http.BatchActions.{
  caught, kept, run_requests, record_outcome, send_entry, delete_entry, change_entry, batch_entry,
  batch_action_name, batch_action,
}
use lqs.Http.Dispatch.{batch_actions}
use lqs.Http.Laws.Denied.{is_done}
use lqs.Http.Laws.Does.{
  Quiet, Effect, Does, reply->>=-Does, >>=-Does, Does->>=, quiet_rules, read-Quiet, lock-Quiet,
}
use lqs.Http.Laws.Asked.{EntryAsked, send_entry_asked, delete_entry_asked, change_entry_asked}
use lqs.Http.Laws.Effects.{send-Does, delete-Does, change_visibility-Does, visibility_seconds-Quiet}

-- A handler fails and leaves the tables as they are, or does what `R` says.
record Leads {ℓ} {A : Type ℓ} (R : Db → Db × Reply A → Type ℓ) (h : Handler A) : Type ℓ where
  leads : (db : Db) → (((h db).0 ≡ db) × (is_done (h db).1 ≡ false)) ⊎ R db (h db)

module _ {κ ℓ} {S : Type κ} {T : Type ℓ} (R : Db → Db × Reply T → Type ℓ)
    (rest : S → Handler T) where
  first_reply :
      (x : Reply S) (db : Db)
      → ((s : S) → x ≡ done s → Leads R (rest s))
      → (((continue rest (db, x)).0 ≡ db) × (is_done (continue rest (db, x)).1 ≡ false))
        ⊎ R db (continue rest (db, x))
  first_reply (done s) db k = (k s refl).leads db
  first_reply (refused e) db k = inl (refl, refl)
  first_reply stuck db k = inl (refl, refl)

  reply->>=-Leads :
      (x : Reply S) → ((s : S) → x ≡ done s → Leads R (rest s)) → Leads R (reply x >>= rest)
  unfolding ◌>>=◌ reply
  reply->>=-Leads x k = record { leads = λ db. first_reply x db k }

  first_quiet :
      (out : Db × Reply S) (db : Db)
      → out.0 ≡ db
      → ((s : S) → Leads R (rest s))
      → (((continue rest out).0 ≡ db) × (is_done (continue rest out).1 ≡ false))
        ⊎ R db (continue rest out)
  first_quiet (db', done s) db e k =
      subst (λ (d : Db). (((rest s d).0 ≡ db) × (is_done (rest s d).1 ≡ false)) ⊎ R db (rest s d))
        (sym e) ((k s).leads db)
  first_quiet (db', refused x) db e k = inl (e, refl)
  first_quiet (db', stuck) db e k = inl (e, refl)

  >>=-Leads : (h : Handler S) → Quiet h → ((s : S) → Leads R (rest s)) → Leads R (h >>= rest)
  unfolding ◌>>=◌
  >>=-Leads h q k = record { leads = λ db. first_quiet (h db) db (q.same db) k }

-- The entries in their order: each fails and changes nothing, or makes the call that it asks for, on the
-- tables that the one before it left, and the result tells which it was. `stuck` ends the loop.
pub data InTurn (ctx : Context) (action name : Bytes)
    : List (BatchEntry WireRequest) → Db → ApiBatchResult → Db × Reply ApiBatchResult → Type 0 where
  finished :
      (db : Db) (result : ApiBatchResult) → InTurn ctx action name [] db result (db, done result)
  next :
      (e : BatchEntry WireRequest) (es : List (BatchEntry WireRequest)) (db : Db)
      (result : ApiBatchResult) (mid : Db) (out : Reply JsonMap) (end : Db × Reply ApiBatchResult)
      → Effect ctx.web.external ctx.now (EntryAsked ctx action name e.value) db (mid, out)
      → InTurn ctx action name es mid (record_outcome e.id out result) end
      → InTurn ctx action name (e ∷ es) db result end
  halted :
      (e : BatchEntry WireRequest) (es : List (BatchEntry WireRequest)) (db : Db)
      (result : ApiBatchResult) (mid : Db)
      → Effect {A = JsonMap} ctx.web.external ctx.now
          (EntryAsked ctx action name e.value)
          db
          (mid, stuck)
      → InTurn ctx action name (e ∷ es) db result (mid, stuck)

module _ (ctx : Context) (action name : Bytes) where
  abbrev EntryDoes : (r : WireRequest) → Handler JsonMap → Type 0
  EntryDoes r h = Does ctx.web.external ctx.now (EntryAsked ctx action name r) h

  ruleset entry_rules = (
    reply->>=-Does, Does->>=, >>=-Does, quiet_rules, send-Does, delete-Does, change_visibility-Does,
    visibility_seconds-Quiet,
  )

  send_entry-Does :
      (r : WireRequest)
      → bytes_eq action (text "SendMessageBatch") ≡ true
      → EntryDoes r (send_entry ctx name r)
  unfolding send_entry
  send_entry-Does r h = search (entry_rules, send_entry_asked) depth 12

  delete_entry-Does :
      (r : WireRequest)
      → bytes_eq action (text "DeleteMessageBatch") ≡ true
      → EntryDoes r (delete_entry ctx name r)
  unfolding delete_entry
  delete_entry-Does r h = search (entry_rules, delete_entry_asked) depth 12

  change_entry-Does :
      (r : WireRequest)
      → bytes_eq action (text "ChangeMessageVisibilityBatch") ≡ true
      → EntryDoes r (change_entry ctx name r)
  unfolding change_entry
  change_entry-Does r h = search (entry_rules, change_entry_asked) depth 12

  module _ (known : is_one_of batch_actions action ≡ true) where
    batch_entry-Does : (r : WireRequest) → EntryDoes r (batch_entry ctx action name r)
    unfolding batch_entry any
    batch_entry-Does r = elim (Bool-cases (bytes_eq action (text "SendMessageBatch"))) [
      | inl e ↦ rw (e, batch_entry) (send_entry-Does r e)
      | inr e ↦ elim (Bool-cases (bytes_eq action (text "DeleteMessageBatch"))) [
        | inl f ↦ rw (e, f, batch_entry) (delete_entry-Does r f)
        | inr f ↦
            let last : bytes_eq action (text "ChangeMessageVisibilityBatch") ≡ true =
              ground (arith, known, e, f) in
            rw (e, f, batch_entry) (change_entry-Does r last)
      ]
    ]

    turn :
        (e : BatchEntry WireRequest) (es : List (BatchEntry WireRequest)) (db : Db)
        (result : ApiBatchResult) (out : Db × Reply JsonMap)
        → Effect ctx.web.external ctx.now (EntryAsked ctx action name e.value) db out
        → ((db' : Db) (result' : ApiBatchResult)
            → InTurn ctx action name es db' result'
                (run_requests (batch_entry ctx action name) result' es db'))
        → InTurn ctx action name (e ∷ es) db result (
            continue
              (λ outcome.
                run_requests (batch_entry ctx action name) (record_outcome e.id outcome result) es)
              (out.0, kept out.1))
    turn e es db result (mid, done v) f k = next e es db result mid (done v) _ f (k mid _)
    turn e es db result (mid, refused x) f k = next e es db result mid (refused x) _ f (k mid _)
    turn e es db result (mid, stuck) f k = halted e es db result mid f

    run_requests-InTurn :
        (es : List (BatchEntry WireRequest)) (db : Db) (result : ApiBatchResult)
        → InTurn ctx action name es db result
            (run_requests (batch_entry ctx action name) result es db)
    unfolding run_requests finish ◌>>=◌ caught
    run_requests-InTurn [] db result = finished db result
    run_requests-InTurn (e ∷ es) db result =
        turn e es db result (batch_entry ctx action name e.value db)
          ((batch_entry-Does e.value).effect db) (λ db' result'. run_requests-InTurn es db' result')

-- A batch ran: every entry in its turn on the queue that the request names, and the answer holds what
-- they came to.
abbrev pub BatchRuns : Context → Bytes → WireRequest → Db → Db × Reply ApiSuccess → Type 0
BatchRuns ctx path r db out =
    (name : Bytes) × (given : List (BatchEntry WireRequest)) × (end : Db × Reply ApiBatchResult)
    × (queue_name path r ≡ done name)
    × (entries r ≡ done given)
    × InTurn ctx r.action name given db (record { successful = []; failed = [] }) end
    × (out ≡ continue (λ result. finish (batch r.action result)) end)

batch_action_name-known :
    (action : Bytes) → is_one_of batch_actions action ≡ true → batch_action_name action ≡ action
unfolding any
batch_action_name-known action known =
    elim (Bool-cases (bytes_eq action (text "SendMessageBatch"))) [
      | inl e ↦ rw e (sym (bytes_eq→≡ action (text "SendMessageBatch") e))
      | inr e ↦ elim (Bool-cases (bytes_eq action (text "DeleteMessageBatch"))) [
        | inl f ↦ rw (e, f) (sym (bytes_eq→≡ action (text "DeleteMessageBatch") f))
        | inr f ↦
            let last : bytes_eq action (text "ChangeMessageVisibilityBatch") ≡ true =
              ground (arith, known, e, f) in
            rw (e, f) (sym (bytes_eq→≡ action (text "ChangeMessageVisibilityBatch") last))
      ]
    ]

module _ (ctx : Context) (path : Bytes) (r : WireRequest)
    (known : is_one_of batch_actions r.action ≡ true) where
  run_entries-Leads :
      (name : Bytes) (given : List (BatchEntry WireRequest))
      → queue_name path r ≡ done name
      → entries r ≡ done given
      → Leads (BatchRuns ctx path r) (
          run_requests
            (batch_entry ctx r.action name)
            (record { successful = []; failed = [] })
            given
          >>= λ result. finish (batch r.action result))
  unfolding ◌>>=◌
  run_entries-Leads name given q g = record {
    leads = λ db.
        let empty : ApiBatchResult = record { successful = []; failed = [] } in
        let end = run_requests (batch_entry ctx r.action name) empty given db in
        inr (
          name,
          given,
          end,
          q,
          g,
          run_requests-InTurn ctx r.action name known given db empty,
          refl,
        );
  }

  batch_action-Leads : Leads (BatchRuns ctx path r) (batch_action ctx path r)
  unfolding batch_action
  batch_action-Leads =
      let R = BatchRuns ctx path r in
      rw (batch_action_name-known r.action known) (
        reply->>=-Leads R _ (queue_name path r) λ name q. reply->>=-Leads R _ (entries r) λ given g.
          reply->>=-Leads R _ _ λ u v.
            >>=-Leads R _ (lock_lqs ctx) (lock-Quiet ctx)
              λ w. >>=-Leads R _ _ (read-Quiet _) λ x. run_entries-Leads name given q g)

  -- A batch action fails before its entries and changes nothing, or runs them in their order.
  pub batch_action-BatchRuns :
      (db : Db)
      → (((batch_action ctx path r db).0 ≡ db) × (is_done (batch_action ctx path r db).1 ≡ false))
        ⊎ BatchRuns ctx path r db (batch_action ctx path r db)
  batch_action-BatchRuns db = batch_action-Leads.leads db
