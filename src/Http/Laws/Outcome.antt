-- ===== src/Http/Laws/Outcome.antt =====
-- src/http_server.rs `dispatch`: what an action does to the tables.
use lqs.Prelude.{
  Bool, true, false, ◌≡◌, ◌⊎◌, refl, [], ◌∷◌, Bytes, text, any, arith, Bool-cases, inl, inr,
  if◌then◌else◌,
}
use lqs.Store.Tables.{Db}
use lqs.Store.Sound.Reach.{Call, perform}
use lqs.Http.Reply.{Reply}
use lqs.Http.Wire.{WireRequest}
use lqs.Http.Maps.{is_one_of}
use lqs.Http.Access.{authorize}
use lqs.Http.Answer.{ApiSuccess}
use lqs.Http.Handler.{Context, Handler}
use lqs.Http.Dispatch.{batch_actions, management_actions, execute, dispatch_own, dispatch}
use lqs.Http.Laws.Denied.{is_done, dispatch_all-Denies}
use lqs.Http.Laws.Does.{Quiet, Effect, Does, refused-Does}
use lqs.Http.Laws.Asked.{is_action, Asked}
use lqs.Http.Laws.Effects.{
  list_queues_action-Quiet, get_queue_url_action-Quiet, list_queue_tags_action-Quiet,
  get_queue_attributes_action-Quiet, list_sources_action-Quiet, create_queue_action-Does,
  send_message_action-Does, set_queue_attributes_action-Does, delete_message_action-Does,
  change_visibility_action-Does, tag_queue_action-Does, untag_queue_action-Does,
  destroy_action-Does, permission_action-Does,
}
use lqs.Http.Laws.Turns.{BatchRuns, batch_action-BatchRuns}

abbrev pub is_reading : WireRequest → Bool
is_reading r =
    is_one_of
      (text "ListQueues"
        ∷ text "GetQueueUrl"
        ∷ text "ListQueueTags"
        ∷ text "GetQueueAttributes"
        ∷ text "ListDeadLetterSourceQueues"
        ∷ [])
      r.action

-- A reading action changes nothing, a batch runs its entries in their order, and every other action
-- makes the one call that it asks for.
abbrev pub Acts : Context → Bytes → WireRequest → Db → Db × Reply ApiSuccess → Type 0
Acts ctx path r db out =
    ((is_reading r ≡ true) × (out.0 ≡ db))
    ⊎ (((c : Call) × Asked ctx path r c × (out.0 ≡ perform ctx.web.external ctx.now db c))
        ⊎ BatchRuns ctx path r db out)

abbrev pub Outcome : Context → Bytes → WireRequest → Db → Db × Reply ApiSuccess → Type 0
Outcome ctx path r db out = ((out.0 ≡ db) × (is_done out.1 ≡ false)) ⊎ Acts ctx path r db out

-- The branch that is taken knows its test.
if_known :
    (P : Handler ApiSuccess → Type 0) (b : Bool) (h g : Handler ApiSuccess)
    → (b ≡ true → P h)
    → (b ≡ false → P g)
    → P (if b then h else g)
if_known P true h g k l = k refl
if_known P false h g k l = l refl

module _ (ctx : Context) (path : Bytes) (r : WireRequest) (db : Db) where
  abbrev Ends : Handler ApiSuccess → Type 0
  Ends h = Outcome ctx path r db (h db)

  of_Quiet : (h : Handler ApiSuccess) → is_reading r ≡ true → Quiet h → Ends h
  of_Quiet h reading q = inr (inl (reading, q.same db))

  of_call :
      (out : Db × Reply ApiSuccess)
      → Effect ctx.web.external ctx.now (Asked ctx path r) db out
      → Outcome ctx path r db out
  of_call (db', x) (inl f) = inl f
  of_call (db', x) (inr c) = inr (inr (inl c))

  of_Does : (h : Handler ApiSuccess) → Does ctx.web.external ctx.now (Asked ctx path r) h → Ends h
  of_Does h d = of_call (h db) (d.effect db)

  execute-Ends : is_one_of management_actions r.action ≡ true → Ends (execute ctx path r)
  unfolding execute any
  execute-Ends known =
      if_known Ends (is_action r (text "ListQueues")) _ _
        (λ e. of_Quiet _ (ground (arith, e)) (list_queues_action-Quiet ctx r))
        λ a.
          if_known Ends (is_action r (text "GetQueueUrl")) _ _
            (λ e. of_Quiet _ (ground (arith, e)) (get_queue_url_action-Quiet ctx r))
            λ b.
              if_known Ends (is_one_of (text "DeleteQueue" ∷ text "PurgeQueue" ∷ []) r.action) _ _
                (λ e. of_Does _ (destroy_action-Does ctx path r e))
                λ c.
                  if_known Ends (is_action r (text "TagQueue")) _ _
                    (λ e. of_Does _ (tag_queue_action-Does ctx path r e))
                    λ d.
                      if_known Ends (is_action r (text "UntagQueue")) _ _
                        (λ e. of_Does _ (untag_queue_action-Does ctx path r e))
                        λ f.
                          of_Quiet _ (ground (arith, known, a, b, c, d, f))
                            (list_queue_tags_action-Quiet ctx path r)

  dispatch_own-Ends : Ends (dispatch_own ctx path r)
  unfolding dispatch_own any
  dispatch_own-Ends =
      if_known Ends (is_action r (text "CreateQueue")) _ _
        (λ e. of_Does _ (create_queue_action-Does ctx path r e))
        λ a.
          if_known Ends (is_action r (text "SendMessage")) _ _
            (λ e. of_Does _ (send_message_action-Does ctx path r e))
            λ b.
              if_known Ends (is_action r (text "DeleteMessage")) _ _
                (λ e. of_Does _ (delete_message_action-Does ctx path r e))
                λ c.
                  if_known Ends (is_action r (text "ChangeMessageVisibility")) _ _
                    (λ e. of_Does _ (change_visibility_action-Does ctx path r e))
                    λ d.
                      if_known Ends (is_action r (text "SetQueueAttributes")) _ _
                        (λ e. of_Does _ (set_queue_attributes_action-Does ctx path r e))
                        λ f.
                          if_known Ends (is_action r (text "GetQueueAttributes")) _ _
                            (λ e.
                              of_Quiet _ (ground (arith, e))
                                (get_queue_attributes_action-Quiet ctx path r))
                            λ g.
                              if_known Ends (is_action r (text "ListDeadLetterSourceQueues")) _ _
                                (λ e.
                                  of_Quiet _ (ground (arith, e))
                                    (list_sources_action-Quiet ctx path r))
                                λ h.
                                  of_Does _
                                    (refused-Does ctx.web.external ctx.now (Asked ctx path r) _)

  dispatch_all-Ends : Ends (dispatch ctx path r)
  unfolding dispatch
  dispatch_all-Ends =
      if_known Ends (is_one_of (text "AddPermission" ∷ text "RemovePermission" ∷ []) r.action) _ _
        (λ e. of_Does _ (permission_action-Does ctx path r e))
        λ a.
          if_known Ends (is_one_of management_actions r.action) _ _ (λ e. execute-Ends e)
            λ b.
              if_known Ends (is_one_of batch_actions r.action) _ _
                (λ e. elim (batch_action-BatchRuns ctx path r e db) [
                  | inl f ↦ inl f
                  | inr b' ↦ inr (inr (inr b'))
                ])
                λ c. dispatch_own-Ends

-- An action fails and leaves every table as it was, or the policy check under the lock allowed it on
-- the tables that it found, and then it does what the request asks for: a reading action changes
-- nothing, the batches run their entries one by one in their order, each on the queue of the request,
-- and every other action makes exactly one call on the store, the one for its name with the queue and
-- the parameters that are parsed from the request.
pub dispatch-Acts :
    (ctx : Context) (path : Bytes) (r : WireRequest) (db : Db)
    → (((dispatch ctx path r db).0 ≡ db) × (is_done (dispatch ctx path r db).1 ≡ false))
      ⊎ ((is_done (authorize ctx.web.external db ctx.access) ≡ true)
          × Acts ctx path r db (dispatch ctx path r db))
dispatch-Acts ctx path r db =
    elim (Bool-cases (is_done (authorize ctx.web.external db ctx.access))) [
      | inr denied ↦ let d = dispatch_all-Denies ctx db denied path r in inl (d.same, d.fails)
      | inl allowed ↦ elim (dispatch_all-Ends ctx path r db) [
        | inl f ↦ inl f
        | inr a ↦ inr (allowed, a)
      ]
    ]
