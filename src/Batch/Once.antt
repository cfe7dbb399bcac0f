-- ===== src/Batch/Once.antt =====
-- src/batch.rs `run_batch`: what it reports of its entries.
use lqs.Prelude.{
  ℕ, ◌+◌, List, [], ◌∷◌, ◌++◌, ◌≡◌, refl, ◌∙◌, subst, inl, inr, arith, if◌then◌else◌, count, map,
  Bytes, bytes_eq,
}
use lqs.Prelude.Query.{count-append}
use lqs.Error.{Result-cases, Result, ok}
use lqs.Store.Tables.{Db}
use lqs.Batch.{BatchEntry, BatchResult, run_entries, check_batch, run_batch}

-- How many entries have the id.
abbrev pub named : {T : Type 0} → Bytes → List (BatchEntry T) → ℕ
named id es = count (λ e. bytes_eq e.id id) es

-- How many outcomes a batch reports under the id.
abbrev pub reported : {R : Type 0} → Bytes → BatchResult R → ℕ
reported id r = named id r.successful + named id r.failed

no_entries : (T : Type 0) → (id : Bytes) → named {T = T} id [] ≡ 0
unfolding count
no_entries T id = refl

nothing_reported :
    (R : Type 0) (id : Bytes) (n : ℕ)
    → reported {R = R} id (record { successful = []; failed = [] }) + n ≡ n
unfolding count
nothing_reported R id n = omega arith

named-cons :
    {T : Type 0}
    → (id : Bytes) → (e : BatchEntry T) → (es : List (BatchEntry T))
    → named id (e ∷ es) ≡ (if bytes_eq e.id id then 1 else 0) + named id es
unfolding count
named-cons id e es = ground arith

named-snoc :
    {T : Type 0}
    → (id : Bytes) → (es : List (BatchEntry T)) → (e : BatchEntry T)
    → named id (es ++ e ∷ []) ≡ named id es + (if bytes_eq e.id id then 1 else 0)
unfolding count
named-snoc id es e = ground (arith, count-append (λ x. bytes_eq x.id id) es (e ∷ []))

module _ {T R : Type 0} (op : Db → T → Db × Result R) where
  run_entries-once :
      (id : Bytes) (es : List (BatchEntry T)) (db : Db) (r r' : BatchResult R)
      → (run_entries op db r es).1 ≡ ok r'
      → reported id r' ≡ reported id r + named id es
  unfolding run_entries
  run_entries-once id [] db r r' h =
      let same : r ≡ r' = ground arith in
      subst (λ (x : BatchResult R). reported id x ≡ reported id r + named {T = T} id []) same
        (rw (no_entries T id) (omega arith))
  run_entries-once id (e ∷ es) db r r' h = elim (Result-cases (op db e.value).1) [
    | inl (v, k) ↦
        let rest = run_entries-once id es _ _ r' (rw (k, run_entries) at h) in
        rw rest (
          omega (
            arith,
            named-cons id e es,
            named-snoc id r.successful (record { id = e.id; value = v }),
          ))
    | inr (inl (x, k)) ↦
        let rest = run_entries-once id es _ _ r' (rw (k, run_entries) at h) in
        rw rest (
          omega
            (arith, named-cons id e es, named-snoc id r.failed (record { id = e.id; value = x })))
    | inr (inr k) ↦ absurd (cc (rw (k, run_entries) at h))
  ]

-- A batch that ran reports every entry exactly once: under each id there are as many outcomes,
-- successful or failed, as there are entries with that id.
pub run_batch-once :
    {T R : Type 0}
    → (op : Db → T → Db × Result R) → (db : Db) → (name : Bytes) → (entries : List (BatchEntry T))
    → (result : BatchResult R) → (run_batch op db name entries).1 ≡ ok result
    → (id : Bytes) → reported id result ≡ named id entries
unfolding run_batch
run_batch-once op db name entries result h id =
    elim (Result-cases (check_batch db name (map (λ e. e.id) entries))) [
      | inl (u, k) ↦
          let e =
            run_entries-once op id entries db (record { successful = []; failed = [] }) result
              (rw k at h) in
          e ∙ nothing_reported _ id (named id entries)
      | inr (inl (x, k)) ↦ absurd (cc (rw k at h))
      | inr (inr k) ↦ absurd (cc (rw k at h))
    ]
