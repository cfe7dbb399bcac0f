-- ===== src/Http/Laws/Denied.antt =====
-- src/security_http.rs `authorize` under the lock: a refusal leaves the store alone.
use lqs.Prelude.{ℕ, Bool, true, false, ◌≡◌, refl, ◌∙◌, Option, Bytes, if◌then◌else◌}
use lqs.Store.Tables.{Db}
use lqs.Http.Reply.{ApiError, refuse_if, Reply, done, refused, stuck}
use lqs.Http.Wire.{WireRequest}
use lqs.Http.Access.{authorize}
use lqs.Http.Answer.{ApiSuccess}
use lqs.Http.Handler.{Context, Handler, continue, ◌>>=◌, reply, finish, lock_lqs}
use lqs.Http.Actions.{
  create_queue_action, set_queue_attributes_action, get_queue_attributes_action,
  list_sources_action, send_message_action, delete_message_action, visibility_seconds,
  change_visibility_action,
}
use lqs.Http.Management.{
  list_queues_action, is_foreign, absent_here, is_missing, get_queue_url_action, destroy_action,
  tag_queue_action, untag_queue_action, list_queue_tags_action, add_permission_action,
  remove_permission_action, permission_action,
}
use lqs.Http.BatchActions.{batch_action}
use lqs.Http.Dispatch.{execute, dispatch_own, dispatch}
use lqs.Http.Laws.Keeps.{Keeps, keeps_rules}
use lqs.Http.Poll.{Pass, receive_pass}
use lqs.Http.Requests.{ParsedReceiveRequest}

abbrev pub is_done {ℓ} : {A : Type ℓ} → Reply A → Bool
is_done (done a) = true
is_done (refused e) = false
is_done stuck = false

-- The handler fails on these tables, and leaves them as they are.
pub record Denies {ℓ} {A : Type ℓ} (db : Db) (h : Handler A) : Type ℓ where
  pub same : (h db).0 ≡ db
  pub fails : is_done (h db).1 ≡ false

module _ {ℓ} {A : Type ℓ} (db : Db) where
  refused-Denies : (e : ApiError) → Denies db (reply {A = A} (refused e))
  unfolding reply
  refused-Denies e = record { same = refl; fails = refl }

  if-Denies :
      (b : Bool) (h g : Handler A) → Denies db h → Denies db g → Denies db (if b then h else g)
  if-Denies true h g k l = k
  if-Denies false h g k l = l

module _ {κ ℓ} {S : Type κ} {T : Type ℓ} (db : Db) where
  continue_on :
      (rest : S → Handler T) (out : Db × Reply S)
      → out.0 ≡ db
      → ((s : S) → Denies db (rest s))
      → ((continue rest out).0 ≡ db) × (is_done (continue rest out).1 ≡ false)
  continue_on rest (db', done s) e k = rw e ((k s).same, (k s).fails)
  continue_on rest (db', refused x) e k = (e, refl)
  continue_on rest (db', stuck) e k = (e, refl)

  continue-stops :
      (rest : S → Handler T) (out : Db × Reply S)
      → is_done out.1 ≡ false
      → ((continue rest out).0 ≡ out.0) × (is_done (continue rest out).1 ≡ false)
  continue-stops rest (db', done s) e = cc e
  continue-stops rest (db', refused x) e = (refl, refl)
  continue-stops rest (db', stuck) e = (refl, refl)

  first-Denies : (h : Handler S) (rest : S → Handler T) → Denies db h → Denies db (h >>= rest)
  unfolding ◌>>=◌
  first-Denies h rest k =
      let (tables, fails) = continue-stops rest (h db) k.fails in
      record { same = tables ∙ k.same; fails = fails }

  if_first-Denies :
      (b : Bool) (h g : Handler S) (rest : S → Handler T)
      → Denies db (h >>= rest)
      → Denies db (g >>= rest)
      → Denies db ((if b then h else g) >>= rest)
  if_first-Denies true h g rest k l = k
  if_first-Denies false h g rest k l = l

  passive-Denies :
      (h : Handler S) (rest : S → Handler T)
      → (h db).0 ≡ db
      → ((s : S) → Denies db (rest s))
      → Denies db (h >>= rest)
  unfolding ◌>>=◌
  passive-Denies h rest e k =
      let (tables, fails) = continue_on rest (h db) e k in record { same = tables; fails = fails }

  reply-Denies :
      (r : Reply S) (rest : S → Handler T)
      → ((s : S) → Denies db (rest s))
      → Denies db (reply r >>= rest)
  unfolding ◌>>=◌ reply
  reply-Denies (done s) rest k = k s
  reply-Denies (refused e) rest k = record { same = refl; fails = refl }
  reply-Denies stuck rest k = record { same = refl; fails = refl }

module _ (ctx : Context) (db : Db)
    (denied : is_done (authorize ctx.web.external db ctx.access) ≡ false) where
  lock-Denies {ℓ} : {T : Type ℓ} (rest : Unit {0} → Handler T) → Denies db (lock_lqs ctx >>= rest)
  lock-Denies rest =
      first-Denies db (lock_lqs ctx) rest
        (unfold lock_lqs in record { same = refl; fails = denied })

  ruleset denied_rules = (lock-Denies, reply-Denies, if-Denies)

  create_queue_action-Denies : (r : WireRequest) → Denies db (create_queue_action ctx r)
  unfolding create_queue_action
  create_queue_action-Denies r = search denied_rules depth 12

  set_queue_attributes_action-Denies :
      (path : Bytes) (r : WireRequest) → Denies db (set_queue_attributes_action ctx path r)
  unfolding set_queue_attributes_action
  set_queue_attributes_action-Denies path r = search denied_rules depth 12

  get_queue_attributes_action-Denies :
      (path : Bytes) (r : WireRequest) → Denies db (get_queue_attributes_action ctx path r)
  unfolding get_queue_attributes_action
  get_queue_attributes_action-Denies path r = search denied_rules depth 12

  list_sources_action-Denies :
      (path : Bytes) (r : WireRequest) → Denies db (list_sources_action ctx path r)
  unfolding list_sources_action
  list_sources_action-Denies path r = search denied_rules depth 12

  send_message_action-Denies :
      (path : Bytes) (r : WireRequest) → Denies db (send_message_action ctx path r)
  unfolding send_message_action
  send_message_action-Denies path r = search denied_rules depth 12

  delete_message_action-Denies :
      (path : Bytes) (r : WireRequest) → Denies db (delete_message_action ctx path r)
  unfolding delete_message_action
  delete_message_action-Denies path r = search denied_rules depth 12

  visibility_seconds-same : (r : WireRequest) → (visibility_seconds ctx r db).0 ≡ db
  unfolding visibility_seconds
  visibility_seconds-same r =
      let still : Keeps (λ after. after ≡ db) (visibility_seconds ctx r) =
        search keeps_rules depth 8 in
      still.after db refl

  change_visibility_action-Denies :
      (path : Bytes) (r : WireRequest) → Denies db (change_visibility_action ctx path r)
  unfolding change_visibility_action
  change_visibility_action-Denies path r =
      search (denied_rules, passive-Denies, visibility_seconds-same) depth 12

  list_queues_action-Denies : (r : WireRequest) → Denies db (list_queues_action ctx r)
  unfolding list_queues_action
  list_queues_action-Denies r = search denied_rules depth 12

  refuse_true-Denies {ℓ} :
      {T : Type ℓ} (e : ApiError) (rest : Unit {0} → Handler T)
      → Denies db (reply (refuse_if true e) >>= rest)
  refuse_true-Denies e rest = first-Denies db (reply (refused e)) rest (refused-Denies db e)

  absent_here-Denies : (name : Bytes) → Denies db (absent_here ctx name)
  unfolding absent_here
  absent_here-Denies name = search denied_rules

  missing-Denies :
      (owner : Option Bytes) (name : Bytes) (rest : Bool → Handler ApiSuccess)
      → Denies db (rest true)
      → Denies db (is_missing ctx owner name >>= rest)
  unfolding is_missing
  missing-Denies owner name rest k =
      if_first-Denies db (is_foreign owner) (finish true) (absent_here ctx name) rest
        (unfold ◌>>=◌ finish in record { same = k.same; fails = k.fails })
        (first-Denies db _ rest (absent_here-Denies name))

  get_queue_url_action-Denies : (r : WireRequest) → Denies db (get_queue_url_action ctx r)
  unfolding get_queue_url_action
  get_queue_url_action-Denies r = search (denied_rules, missing-Denies, refuse_true-Denies) depth 8

  destroy_action-Denies : (path : Bytes) (r : WireRequest) → Denies db (destroy_action ctx path r)
  unfolding destroy_action
  destroy_action-Denies path r = search denied_rules depth 12

  tag_queue_action-Denies :
      (path : Bytes) (r : WireRequest) → Denies db (tag_queue_action ctx path r)
  unfolding tag_queue_action
  tag_queue_action-Denies path r = search denied_rules depth 12

  untag_queue_action-Denies :
      (path : Bytes) (r : WireRequest) → Denies db (untag_queue_action ctx path r)
  unfolding untag_queue_action
  untag_queue_action-Denies path r = search denied_rules depth 12

  list_queue_tags_action-Denies :
      (path : Bytes) (r : WireRequest) → Denies db (list_queue_tags_action ctx path r)
  unfolding list_queue_tags_action
  list_queue_tags_action-Denies path r = search denied_rules depth 12

  permission_action-Denies :
      (path : Bytes) (r : WireRequest) → Denies db (permission_action ctx path r)
  unfolding permission_action add_permission_action remove_permission_action
  permission_action-Denies path r = search denied_rules depth 12

  batch_action-Denies : (path : Bytes) (r : WireRequest) → Denies db (batch_action ctx path r)
  unfolding batch_action
  batch_action-Denies path r = search denied_rules depth 12

  execute-Denies : (path : Bytes) (r : WireRequest) → Denies db (execute ctx path r)
  unfolding execute
  execute-Denies path r =
      search
        (
          if-Denies, list_queues_action-Denies, get_queue_url_action-Denies, destroy_action-Denies,
          tag_queue_action-Denies, untag_queue_action-Denies, list_queue_tags_action-Denies,
        )
        depth 12

  dispatch_own-Denies : (path : Bytes) (r : WireRequest) → Denies db (dispatch_own ctx path r)
  unfolding dispatch_own
  dispatch_own-Denies path r =
      search
        (
          if-Denies, create_queue_action-Denies, send_message_action-Denies,
          delete_message_action-Denies, change_visibility_action-Denies,
          set_queue_attributes_action-Denies, get_queue_attributes_action-Denies,
          list_sources_action-Denies, refused-Denies,
        )
        depth 14

  pub dispatch_all-Denies : (path : Bytes) (r : WireRequest) → Denies db (dispatch ctx path r)
  unfolding dispatch
  dispatch_all-Denies path r =
      search
        (
          if-Denies, permission_action-Denies, execute-Denies, batch_action-Denies,
          dispatch_own-Denies,
        )
        depth 8

  receive_pass-Denies :
      (parsed : ParsedReceiveRequest) (wait_ms deadline : ℕ) (p : Pass)
      → Denies db (receive_pass ctx parsed wait_ms deadline p)
  unfolding receive_pass
  receive_pass-Denies parsed wait_ms deadline p = search denied_rules

-- When the policy check under the lock refuses, every action answers no success and leaves every table
-- as it was, and so does each pass of a long poll.
pub dispatch-denied :
    (ctx : Context) (db : Db)
    → is_done (authorize ctx.web.external db ctx.access) ≡ false
    → (path : Bytes) (r : WireRequest) (parsed : ParsedReceiveRequest) (wait_ms deadline : ℕ)
      (p : Pass)
    → (((dispatch ctx path r db).0 ≡ db) × (is_done (dispatch ctx path r db).1 ≡ false))
      × (((receive_pass ctx parsed wait_ms deadline p db).0 ≡ db)
          × (is_done (receive_pass ctx parsed wait_ms deadline p db).1 ≡ false))
dispatch-denied ctx db denied path r parsed wait_ms deadline p =
    let action = dispatch_all-Denies ctx db denied path r in
    let pass = receive_pass-Denies ctx db denied parsed wait_ms deadline p in
    ((action.same, action.fails), (pass.same, pass.fails))
