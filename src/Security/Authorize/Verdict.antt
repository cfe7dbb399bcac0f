-- ===== src/Security/Authorize/Verdict.antt =====
-- src/security.rs `QueueSecurity::authorize`: who gets in under a policy.
use lqs.Prelude.{
  Bool, true, false, ◌&&◌, ◌||◌, Option, some, List, [], ◌∷◌, ◌++◌, ◌≡◌, refl, sym, ap, ◌∙◌, ◌↔◌,
  ◌⊎◌, inl, inr, arith, if◌then◌else◌, Bool-cases, All, In, Bytes, text, to_ascii_lowercase,
}
use lqs.Error.{ok, err, >>=-eq-ok, access_denied}
use lqs.Security.Json.{Json}
use lqs.Security.Names.{RequestIdentity, permission_action}
use lqs.Security.Policy.{statements, parse_policy}
use lqs.Security.Authorize.{Access, applies, denies, decide_access, authorize}

-- What `authorize` asks of the statements.
abbrev pub access_of : RequestIdentity → Bytes → Bytes → Access
access_of identity action resource = record {
  identity = identity;
  action = to_ascii_lowercase (text "sqs:" ++ permission_action action);
  resource = resource;
}

-- The statement applies to the request and allows it.
abbrev pub Allows : Access → Json → Type 0
Allows access s = (applies access s ≡ ok true) × (denies s ≡ false)

-- The statement can be read, and does not refuse the request.
abbrev pub Passes : Access → Json → Type 0
Passes access s = (applies access s ≡ ok false) ⊎ Allows access s

decide-step :
    (access : Access) (allowed hit : Bool) (s : Json) (rest : List Json)
    → applies access s ≡ ok hit
    → decide_access access allowed (s ∷ rest)
      ≡ (if hit && denies s then err access_denied else decide_access access (allowed || hit) rest)
unfolding decide_access
decide-step access allowed hit s rest h = rw (h, decide_access) refl

decide_sound :
    (access : Access) (allowed : Bool) (items : List Json)
    → decide_access access allowed items ≡ ok tt
    → All (Passes access) items × ((allowed ≡ true) ⊎ ((s : Json) × In s items × Allows access s))
unfolding decide_access
decide_sound access true [] h = (tt, inl refl)
decide_sound access false [] h = cc
decide_sound access allowed (s ∷ rest) h =
    let (hit, e, h1) = >>=-eq-ok (applies access s) _ h in
    elim (Bool-cases hit) [
      | inl t ↦ elim (Bool-cases (denies s)) [
        | inl d ↦ absurd (ground (arith, t, d, h1))
        | inr d ↦
            let (all, how) = decide_sound access (allowed || true) rest (rw (t, d) at h1) in
            ((inr (e ∙ ap ok t, d), all), inr (s, inl refl, (e ∙ ap ok t, d)))
      ]
      | inr t ↦
          let (all, how) = decide_sound access (allowed || false) rest (rw t at h1) in
          (
            (inl (e ∙ ap ok t), all),
            elim how [ inl a ↦ inl (ground (arith, a)) | inr (x, i, k) ↦ inr (x, inr i, k) ],
          )
    ]

decide_complete :
    (access : Access) (allowed : Bool) (items : List Json)
    → All (Passes access) items
    → (allowed ≡ true) ⊎ ((s : Json) × In s items × Allows access s)
    → decide_access access allowed items ≡ ok tt
unfolding decide_access
decide_complete access allowed [] all (inl a) = rw a refl
decide_complete access allowed [] all (inr (s, (_, i), k)) = absurd i
decide_complete access allowed (s ∷ rest) ((inl e), all) how =
    rw (decide-step access allowed false s rest e) (
      decide_complete access (allowed || false) rest all (elim how [
        | inl a ↦ inl (rw a refl)
        | inr (x, inl i, k) ↦ absurd (cc (i, e, k.0))
        | inr (x, inr i, k) ↦ inr (x, i, k)
      ]))
decide_complete access allowed (s ∷ rest) ((inr (e, d)), all) how =
    rw (decide-step access allowed true s rest e, d)
      (decide_complete access (allowed || true) rest all (inl (ground arith)))

-- Under a policy whose statements can be listed, a request is authorized exactly when every statement
-- can be evaluated on it and none that applies denies, and one at least applies and allows. A
-- statement that applies and denies refuses whatever the others say, and so does no statement at all.
pub authorize-eq-ok :
    (parse : Bytes → Option Json) (encoded : Bytes) (identity : RequestIdentity)
    (action resource : Bytes) (policy : Json) (items : List Json)
    → parse_policy parse encoded ≡ ok policy
    → statements policy ≡ ok items
    → (authorize parse (some encoded) identity action resource ≡ ok tt) ↔ (
        All (Passes (access_of identity action resource)) items
        × ((s : Json) × In s items × Allows (access_of identity action resource) s))
unfolding authorize
authorize-eq-ok parse encoded identity action resource policy items p i =
    let access = access_of identity action resource in
    let run : authorize parse (some encoded) identity action resource
        ≡ decide_access access false items =
      rw (p, i) refl in
    (
      λ h.
          let (all, how) = decide_sound access false items (sym run ∙ h) in
          (all, elim how [ inl a ↦ absurd (cc a) | inr k ↦ k ]),
      λ h. run ∙ decide_complete access false items h.0 (inr h.1),
    )
