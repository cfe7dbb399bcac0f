-- ===== src/Store/Laws/Policies.antt =====
-- src/sqlite_lqs.rs `set_redrive_policy`: what was written is what is read, and no queue is its own
-- dead-letter queue.
use lqs.Prelude.{
  ℕ, Bool, not, ◌||◌, Option, none, some, List, [], ◌∷◌, ◌≡◌, refl, sym, ap, ◌∙◌, inl, inr, arith,
  in_range, Bool-cases, find, select, Bytes, bytes_eq, bytes_eq_refl,
}
use lqs.Error.{ok, >>=-eq-ok, >>-eq-ok, fail_if, fail_if-eq-ok}
use lqs.Queue.Types.{RedrivePolicy}
use lqs.Store.Tables.{PolicyRow, Db}
use lqs.Store.Read.{queue_type, read_redrive_policy, policy_of}
use lqs.Store.Redrive.{
  put_policy, write_redrive_policy, touch_queue, set_policy_body, set_redrive_policy,
}
use lqs.Store.Laws.Ends.{Elsewhere}
use lqs.Store.Laws.Quotas.{transaction-eq-ok, ok_pair_fst}

abbrev of_source : Bytes → PolicyRow → Bool
of_source name r = bytes_eq r.source_queue name

find-put_policy :
    (name : Bytes) (policy : RedrivePolicy) (rows : List PolicyRow)
    → policy_of (find (of_source name) (put_policy name policy rows)) ≡ some policy
unfolding find put_policy
find-put_policy name policy [] = rw (bytes_eq_refl name) refl
find-put_policy name policy (r ∷ rows) = elim (Bool-cases (bytes_eq r.source_queue name)) [
  | inl e ↦ rw (e, bytes_eq_refl name) refl
  | inr e ↦ rw (e, e) (find-put_policy name policy rows)
]

find-removed :
    (name : Bytes) (rows : List PolicyRow)
    → policy_of (find (of_source name) (select (λ r. not (of_source name r)) rows)) ≡ none
unfolding find select
find-removed name [] = refl
find-removed name (r ∷ rows) = elim (Bool-cases (bytes_eq r.source_queue name)) [
  | inl e ↦ rw e (find-removed name rows)
  | inr e ↦ rw (e, e) (find-removed name rows)
]

write_redrive_policy-read :
    (db : Db) (name : Bytes) (policy : Option RedrivePolicy) (db' : Db)
    → write_redrive_policy db name policy ≡ ok db'
    → (read_redrive_policy db' name ≡ policy) × Elsewhere name policy
unfolding write_redrive_policy read_redrive_policy
write_redrive_policy-read db name none db' h =
    let (kind, k, h1) = >>=-eq-ok (queue_type db name) _ h in
    let same : db'.redrive_policies ≡ select (λ r. not (of_source name r)) db.redrive_policies =
      ground arith in
    (rw same (find-removed name db.redrive_policies), tt)
write_redrive_policy-read db name (some policy) db' h =
    let (kind, k, h1) = >>=-eq-ok (queue_type db name) _ h in
    let (fits, h2) =
      >>-eq-ok
        (fail_if
          (not (in_range 1 1000 policy.max_receive_count) || bytes_eq policy.dead_letter_queue name)
          _)
        _ h1 in
    let valid =
      fail_if-eq-ok
        (not (in_range 1 1000 policy.max_receive_count) || bytes_eq policy.dead_letter_queue name) _
        fits in
    let same : db'.redrive_policies ≡ put_policy name policy db.redrive_policies = ground arith in
    (rw same (find-put_policy name policy db.redrive_policies), ground (arith, valid))

-- When `set_redrive_policy` succeeds, the queue's policy is read back as it was given, a removed one
-- as none, and the dead-letter queue that it names is another queue.
pub set_redrive_policy-read :
    (db : Db) (name : Bytes) (policy : Option RedrivePolicy) (now : ℕ)
    → (set_redrive_policy db name policy now).1 ≡ ok tt
    → (read_redrive_policy (set_redrive_policy db name policy now).0 name ≡ policy)
      × Elsewhere name policy
unfolding set_redrive_policy set_policy_body touch_queue read_redrive_policy
set_redrive_policy-read db name policy now h =
    let h0 = transaction-eq-ok db (set_policy_body db name policy now) tt h in
    let (db1, e, h1) = >>=-eq-ok (write_redrive_policy db name policy) _ h0 in
    let (r, away) = write_redrive_policy-read db name policy db1 e in
    let same = ok_pair_fst (touch_queue name now db1) _ tt tt h1 in
    (ap (λ (d : Db). read_redrive_policy d name) (sym same) ∙ r, away)
