-- ===== src/Batch/Ids.antt =====
-- src/batch.rs `validate_batch_ids`: the ids that a batch may have.
use lqs.Prelude.{
  ◌≤◌, true, false, not, List, [], ◌∷◌, ◌≡◌, refl, ◌↔◌, arith, ltb, length, is_empty, any, All,
  Bytes, bytes_eq,
}
use lqs.Error.{ok, >>-eq-ok, fail_if, fail_if-eq-ok}
use lqs.Batch.{valid_entry_id, check_ids, validate_batch_ids}

-- No id is one of those after it.
abbrev pub Distinct : List Bytes → Type 0
Distinct [] = Unit
Distinct (id ∷ ids) = All (λ x. bytes_eq x id ≡ false) ids × Distinct ids

-- No id is one of those seen.
abbrev Unseen : List Bytes → List Bytes → Type 0
Unseen seen ids = All (λ id. any (bytes_eq id) seen ≡ false) ids

Unseen-cons :
    (seen : List Bytes) (id : Bytes) (ids : List Bytes)
    → Unseen (id ∷ seen) ids ↔ (All (λ x. bytes_eq x id ≡ false) ids × Unseen seen ids)
unfolding any
Unseen-cons seen id [] = (λ h. (tt, tt), λ h. tt)
Unseen-cons seen id (x ∷ ids) =
    let (f, g) = Unseen-cons seen id ids in
    (
      λ h. let (a, b) = f h.1 in ((ground arith, a), (ground arith, b)),
      λ h. (ground arith, g (h.0.1, h.1.1)),
    )

check_ids-eq-ok :
    (seen ids : List Bytes)
    → (check_ids seen ids ≡ ok tt)
      ↔ (All (λ id. valid_entry_id id ≡ true) ids × Unseen seen ids × Distinct ids)
unfolding check_ids
check_ids-eq-ok seen [] = (λ h. (tt, tt, tt), λ h. refl)
check_ids-eq-ok seen (id ∷ ids) =
    let (f, g) = check_ids-eq-ok (id ∷ seen) ids in
    let (u, w) = Unseen-cons seen id ids in
    (
      λ h.
          let (v, h1) = >>-eq-ok (fail_if (not (valid_entry_id id)) _) _ h in
          let (n, h2) = >>-eq-ok (fail_if (any (bytes_eq id) seen) _) _ h1 in
          let (a, b, d) = f h2 in
          let (x, y) = u b in
          ((ground (arith, fail_if-eq-ok _ _ v), a), (fail_if-eq-ok _ _ n, y), (x, d)),
      λ h.
          let (a, u, d) = h in
          let (v, vs) = a in
          let (n, us) = u in let (x, ds) = d in rw (v, n) (g (vs, w (x, us), ds)),
    )

nothing_seen : (ids : List Bytes) → Unseen [] ids
unfolding any
nothing_seen [] = tt
nothing_seen (id ∷ ids) = (refl, nothing_seen ids)

-- The ids of a batch are accepted exactly when there is one at least and ten at most, each is valid,
-- and they are distinct.
pub validate_batch_ids-eq-ok :
    (ids : List Bytes)
    → (validate_batch_ids ids ≡ ok tt) ↔ (
        (is_empty ids ≡ false)
        × (length ids ≤ 10)
        × All (λ id. valid_entry_id id ≡ true) ids
        × Distinct ids)
unfolding validate_batch_ids any
validate_batch_ids-eq-ok ids =
    let (f, g) = check_ids-eq-ok [] ids in
    (
      λ h.
          let (e, h1) = >>-eq-ok (fail_if (is_empty ids) _) _ h in
          let (n, h2) = >>-eq-ok (fail_if (ltb 10 (length ids)) _) _ h1 in
          let (a, u, d) = f h2 in
          let few = fail_if-eq-ok _ _ n in (fail_if-eq-ok _ _ e, ground (arith, few), a, d),
      λ h.
          let (e, n, a, d) = h in
          let few : ltb 10 (length ids) ≡ false = ground (arith, n) in
          rw (e, few) (g (a, nothing_seen ids, d)),
    )
