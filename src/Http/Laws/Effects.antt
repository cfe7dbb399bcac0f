-- ===== src/Http/Laws/Effects.antt =====
-- The handlers of src/http_server.rs, src/management_http.rs and src/security_http.rs, each with the
-- call on the store that it makes.
use lqs.Prelude.{
  ℕ, true, ◌≡◌, refl, Option, List, [], ◌∷◌, Bytes, text, any, arith, Bool-cases, inl, inr,
}
use lqs.Error.{Result, ok, err, out_of_fuel}
use lqs.Queue.Types.{QueueType, QueueOptions, QueueUpdate, SendRequest}
use lqs.Queue.Validate.{QueueTags}
use lqs.Store.Send.{send}
use lqs.Store.Visibility.{delete, change_visibility}
use lqs.Store.Settings.{create_queue, set_queue_attributes, add_permission, remove_permission}
use lqs.Store.Manage.{tag_queue, untag_queue}
use lqs.Store.Remove.{purge_queue, delete_queue}
use lqs.Store.Sound.Reach.{
  Call, perform, create_queue_call, set_attributes_call, send_call, delete_call,
  change_visibility_call, tag_call, untag_call, add_permission_call, remove_permission_call,
  purge_call, delete_queue_call,
}
use lqs.Http.Wire.{WireRequest, required_string}
use lqs.Http.Reply.{done}
use lqs.Http.Names.{queue_name}
use lqs.Http.Lists.{destructive_queue}
use lqs.Http.Maps.{is_one_of, attributes_of}
use lqs.Http.Settings.{NewQueue, delivery_attributes}
use lqs.Http.Handler.{Context, Handler, attempt, call, lock_lqs}
use lqs.Http.Actions.{
  settle, create_queue_action, set_queue_attributes_action, get_queue_attributes_action,
  list_sources_action, send_message_action, delete_message_action, visibility_seconds,
  change_visibility_action,
}
use lqs.Http.Management.{
  list_queues_action, absent_here, is_missing, get_queue_url_action, destroy, destroy_action,
  tag_queue_action, untag_queue_action, list_queue_tags_action, add_permission_action,
  remove_permission_action, permission_action, permit,
}
use lqs.Http.Laws.Does.{
  Quiet, Does, reply->>=-Does, >>=-Does, Does->>=, attempt-Does, call-Does, quiet_rules, lock-Quiet,
  finish-Quiet,
}
use lqs.Http.Laws.Asked.{
  is_action, Asked, create_asked, set_asked, send_asked, delete_asked, change_asked, tag_asked,
  untag_asked, add_permission_asked, remove_permission_asked, purge_asked, delete_queue_asked,
}

module _ (ctx : Context) where
  settle-Quiet : (new : NewQueue) (outcome : Result (Unit {0})) → Quiet (settle new outcome)
  unfolding settle
  settle-Quiet new (ok u) = search quiet_rules
  settle-Quiet new (err e) = search quiet_rules
  settle-Quiet new out_of_fuel = search quiet_rules

  pub visibility_seconds-Quiet : (r : WireRequest) → Quiet (visibility_seconds ctx r)
  unfolding visibility_seconds
  visibility_seconds-Quiet r = search quiet_rules depth 12

  pub list_queues_action-Quiet : (r : WireRequest) → Quiet (list_queues_action ctx r)
  unfolding list_queues_action
  list_queues_action-Quiet r = search quiet_rules depth 12

  is_missing-Quiet : (owner : Option Bytes) (name : Bytes) → Quiet (is_missing ctx owner name)
  unfolding is_missing absent_here
  is_missing-Quiet owner name = search quiet_rules depth 12

  pub get_queue_url_action-Quiet : (r : WireRequest) → Quiet (get_queue_url_action ctx r)
  unfolding get_queue_url_action
  get_queue_url_action-Quiet r = search (quiet_rules, is_missing-Quiet) depth 12

  pub list_queue_tags_action-Quiet :
      (path : Bytes) (r : WireRequest) → Quiet (list_queue_tags_action ctx path r)
  unfolding list_queue_tags_action
  list_queue_tags_action-Quiet path r = search quiet_rules depth 12

  pub get_queue_attributes_action-Quiet :
      (path : Bytes) (r : WireRequest) → Quiet (get_queue_attributes_action ctx path r)
  unfolding get_queue_attributes_action
  get_queue_attributes_action-Quiet path r = search quiet_rules depth 12

  pub list_sources_action-Quiet :
      (path : Bytes) (r : WireRequest) → Quiet (list_sources_action ctx path r)
  unfolding list_sources_action
  list_sources_action-Quiet path r = search quiet_rules depth 12

  -- The calls on the store.
  module _ (A : Call → Type 0) where
    abbrev Makes {ℓ} : {T : Type ℓ} → Handler T → Type ℓ
    Makes h = Does ctx.web.external ctx.now A h

    create_queue-Does :
        (name : Bytes) (kind : QueueType) (options : QueueOptions) (tags : QueueTags)
        → A (create_queue_call name kind options tags)
        → Makes (attempt (λ db. create_queue ctx.web.external db name kind options tags ctx.now))
    unfolding perform
    create_queue-Does name kind options tags a =
        attempt-Does ctx.web.external ctx.now A _ (create_queue_call name kind options tags) a
          (λ db. refl)

    set_queue_attributes-Does :
        (name : Bytes) (change : QueueUpdate)
        → A (set_attributes_call name change)
        → Makes (call (λ db. set_queue_attributes ctx.web.external db name change ctx.now))
    unfolding perform
    set_queue_attributes-Does name change a =
        call-Does ctx.web.external ctx.now A _ (set_attributes_call name change) a (λ db. refl)

    pub send-Does :
        (name : Bytes) (request : SendRequest)
        → A (send_call name request)
        → Makes (call (λ db. send ctx.web.external db name request ctx.now))
    unfolding perform
    send-Does name request a =
        call-Does ctx.web.external ctx.now A _ (send_call name request) a (λ db. refl)

    pub delete-Does :
        (name handle : Bytes)
        → A (delete_call name handle)
        → Makes (call (λ db. delete db name handle))
    unfolding perform
    delete-Does name handle a =
        call-Does ctx.web.external ctx.now A _ (delete_call name handle) a (λ db. refl)

    pub change_visibility-Does :
        (name handle : Bytes) (timeout : ℕ)
        → A (change_visibility_call name handle timeout)
        → Makes (call (λ db. change_visibility db name handle timeout ctx.now))
    unfolding perform
    change_visibility-Does name handle timeout a =
        call-Does ctx.web.external ctx.now A _ (change_visibility_call name handle timeout) a
          (λ db. refl)

    tag_queue-Does :
        (name : Bytes) (tags : QueueTags)
        → A (tag_call name tags)
        → Makes (call (λ db. tag_queue ctx.web.external db name tags))
    unfolding perform
    tag_queue-Does name tags a =
        call-Does ctx.web.external ctx.now A _ (tag_call name tags) a (λ db. refl)

    untag_queue-Does :
        (name : Bytes) (keys : List Bytes)
        → A (untag_call name keys)
        → Makes (call (λ db. untag_queue ctx.web.external db name keys))
    unfolding perform
    untag_queue-Does name keys a =
        call-Does ctx.web.external ctx.now A _ (untag_call name keys) a (λ db. refl)

    add_permission-Does :
        (name label : Bytes) (accounts actions : List Bytes)
        → A (add_permission_call name label accounts actions)
        → Makes
            (call (λ db. add_permission ctx.web.external db name label accounts actions ctx.now))
    unfolding perform
    add_permission-Does name label accounts actions a =
        call-Does ctx.web.external ctx.now A _ (add_permission_call name label accounts actions) a
          (λ db. refl)

    remove_permission-Does :
        (name label : Bytes)
        → A (remove_permission_call name label)
        → Makes (call (λ db. remove_permission ctx.web.external db name label ctx.now))
    unfolding perform
    remove_permission-Does name label a =
        call-Does ctx.web.external ctx.now A _ (remove_permission_call name label) a (λ db. refl)

    purge_queue-Does :
        (name : Bytes) → A (purge_call name) → Makes (call (λ db. purge_queue db name ctx.now))
    unfolding perform
    purge_queue-Does name a =
        call-Does ctx.web.external ctx.now A _ (purge_call name) a (λ db. refl)

    delete_queue-Does :
        (name : Bytes)
        → A (delete_queue_call name)
        → Makes (call (λ db. delete_queue db name ctx.now))
    unfolding perform
    delete_queue-Does name a =
        call-Does ctx.web.external ctx.now A _ (delete_queue_call name) a (λ db. refl)

  ruleset does_rules = (
    reply->>=-Does, Does->>=, >>=-Does, quiet_rules, create_queue-Does, set_queue_attributes-Does,
    send-Does, delete-Does, change_visibility-Does, tag_queue-Does, untag_queue-Does,
    add_permission-Does, remove_permission-Does, purge_queue-Does, delete_queue-Does,
    visibility_seconds-Quiet, settle-Quiet,
  )

  module _ (path : Bytes) (r : WireRequest) where
    abbrev pub Obeys {ℓ} : {T : Type ℓ} → Handler T → Type ℓ
    Obeys h = Does ctx.web.external ctx.now (Asked ctx path r) h

    pub create_queue_action-Does :
        is_action r (text "CreateQueue") ≡ true → Obeys (create_queue_action ctx r)
    unfolding create_queue_action
    create_queue_action-Does h = search (does_rules, create_asked) depth 14

    pub send_message_action-Does :
        is_action r (text "SendMessage") ≡ true → Obeys (send_message_action ctx path r)
    unfolding send_message_action
    send_message_action-Does h = search (does_rules, send_asked) depth 14

    pub set_queue_attributes_action-Does :
        is_action r (text "SetQueueAttributes") ≡ true
        → Obeys (set_queue_attributes_action ctx path r)
    unfolding set_queue_attributes_action
    set_queue_attributes_action-Does h =
        let A = Asked ctx path r in
        reply->>=-Does _ ctx.web.external ctx.now A (queue_name path r) λ name q.
          reply->>=-Does _ ctx.web.external ctx.now A (attributes_of r) λ attributes a.
            reply->>=-Does _ ctx.web.external ctx.now A _ λ u v.
              reply->>=-Does _ ctx.web.external ctx.now A _ λ w x.
                reply->>=-Does _ ctx.web.external ctx.now A (delivery_attributes ctx.web attributes)
                  λ change c.
                    >>=-Does _ ctx.web.external ctx.now A (lock_lqs ctx) (lock-Quiet ctx) λ y.
                      Does->>= _ ctx.web.external ctx.now A _
                        (set_queue_attributes-Does A name change
                          (set_asked name attributes change h q a c))
                        (λ z. finish-Quiet _)

    pub delete_message_action-Does :
        is_action r (text "DeleteMessage") ≡ true → Obeys (delete_message_action ctx path r)
    unfolding delete_message_action
    delete_message_action-Does h = search (does_rules, delete_asked) depth 14

    pub change_visibility_action-Does :
        is_action r (text "ChangeMessageVisibility") ≡ true
        → Obeys (change_visibility_action ctx path r)
    unfolding change_visibility_action
    change_visibility_action-Does h = search (does_rules, change_asked) depth 14

    pub tag_queue_action-Does :
        is_action r (text "TagQueue") ≡ true → Obeys (tag_queue_action ctx path r)
    unfolding tag_queue_action
    tag_queue_action-Does h = search (does_rules, tag_asked) depth 14

    pub untag_queue_action-Does :
        is_action r (text "UntagQueue") ≡ true → Obeys (untag_queue_action ctx path r)
    unfolding untag_queue_action
    untag_queue_action-Does h = search (does_rules, untag_asked) depth 14

    -- Which of the two calls it is follows from the action.
    destroy-Does :
        (name : Bytes)
        → is_one_of (text "DeleteQueue" ∷ text "PurgeQueue" ∷ []) r.action ≡ true
        → destructive_queue ctx.public_base_url path r ≡ done name
        → Obeys (destroy ctx r name)
    unfolding destroy any
    destroy-Does name h q = elim (Bool-cases (is_action r (text "DeleteQueue"))) [
      | inl e ↦
          rw (e, destroy)
            (Does->>= _ ctx.web.external ctx.now (Asked ctx path r) _
              (delete_queue-Does (Asked ctx path r) name (delete_queue_asked name e q))
              (λ u. finish-Quiet _))
      | inr e ↦
          let other : is_action r (text "PurgeQueue") ≡ true = ground (arith, h, e) in
          rw (e, destroy)
            (Does->>= _ ctx.web.external ctx.now (Asked ctx path r) _
              (purge_queue-Does (Asked ctx path r) name (purge_asked name other q))
              (λ u. finish-Quiet _))
    ]

    pub destroy_action-Does :
        is_one_of (text "DeleteQueue" ∷ text "PurgeQueue" ∷ []) r.action ≡ true
        → Obeys (destroy_action ctx path r)
    unfolding destroy_action
    destroy_action-Does h = search (reply->>=-Does, >>=-Does, lock-Quiet, destroy-Does) depth 10

    permit-Does :
        (name label : Bytes)
        → is_one_of (text "AddPermission" ∷ text "RemovePermission" ∷ []) r.action ≡ true
        → queue_name path r ≡ done name
        → required_string r (text "Label") ≡ done label
        → Obeys (permit ctx r name label)
    unfolding add_permission_action remove_permission_action any
    permit-Does name label h q l = elim (Bool-cases (is_action r (text "AddPermission"))) [
      | inl e ↦ rw e (search (does_rules, add_permission_asked) depth 14)
      | inr e ↦
          let other : is_action r (text "RemovePermission") ≡ true = ground (arith, h, e) in
          rw e (search (does_rules, remove_permission_asked) depth 14)
    ]

    pub permission_action-Does :
        is_one_of (text "AddPermission" ∷ text "RemovePermission" ∷ []) r.action ≡ true
        → Obeys (permission_action ctx path r)
    unfolding permission_action
    permission_action-Does h = search (reply->>=-Does, permit-Does) depth 10
