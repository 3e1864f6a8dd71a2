-- ===== src/Auth/Admitted.antt =====
-- Which requests the token checks let pass.
use mathlib.Core.Logic.{⊎_elim}
use rtlfarm.Prelude.{
  ℕ, String, ◌≡◌, refl, sym, ap, subst, ◌∙◌, ◌↔◌, ◌⊎◌, inl, inr, ◌≢◌, Bool, true, false, not, ◌||◌,
  map, all, List, [], ◌∷◌, ◌++◌, ◌==◌, nat_lists_equal, nat_lists_equal_iff, Option, none, some,
  if◌then◌else◌, Bool-cases, Option-cases, some_inj, nat_eq, nat_beq_iff, arith,
}
use rtlfarm.Ids.{codes}
use rtlfarm.Auth.{
  Access, Verdict, admitted, token_required, token_not_valid, is_given, auth_enabled, space,
  partition, lower, is_bearer, is_nil, header_text, bearer, check, client_auth, worker_auth,
  any_auth,
}

-- A header `<scheme> <token>`, its scheme in any case.
abbrev pub Presents : Option String → List ℕ → Type 0
Presents header token =
    (scheme : List ℕ) × (header_text header ≡ scheme ++ space ∷ token)
    × (map lower scheme ≡ codes "bearer")
    × (token ≢ [])

-- The header presents the token that is expected.
abbrev pub Holds : Option String → Option String → Type 0
Holds header expected = (token : String) × (expected ≡ some token) × Presents header (codes token)

abbrev solid : List ℕ → Bool
solid cs = all (λ c. not (c == space)) cs

solid_tail : (c : ℕ) (cs : List ℕ) → solid (c ∷ cs) ≡ true → solid cs ≡ true
solid_tail c cs h = ground arith

partition-append :
    (scheme token : List ℕ)
    → solid (map lower scheme) ≡ true
    → partition (scheme ++ space ∷ token) ≡ (scheme, token)
unfolding partition lower
partition-append [] token h = refl
partition-append (c ∷ cs) token h = elim (Bool-cases (c == space)) [
  | inl blank ↦ absurd (
      let h' = subst (λ x. solid (map lower (x ∷ cs)) ≡ true) ((nat_beq_iff c space).0 blank) h in
      cc)
  | inr other ↦
      let rest = partition-append cs token (solid_tail (lower c) (map lower cs) h) in
      rw other (λ i. (c ∷ (rest i).0, (rest i).1))
]

partition-parts :
    (cs : List ℕ) → (cs ≡ (partition cs).0 ++ space ∷ (partition cs).1) ⊎ ((partition cs).1 ≡ [])
unfolding partition
partition-parts [] = inr refl
partition-parts (c ∷ cs) = elim (Bool-cases (c == space)) [
  | inl blank ↦ rw blank (inl (ap (λ x. x ∷ cs) ((nat_beq_iff c space).0 blank)))
  | inr other ↦ rw other (⊎_elim (λ e. inl (ap (λ l. c ∷ l) e)) inr (partition-parts cs))
]

not_nil : (cs : List ℕ) → cs ≢ [] → is_nil cs ≡ false
not_nil [] given = absurd (given refl)
not_nil (c ∷ cs) given = refl

is_admitted : (b : Bool) → (if b then admitted else token_not_valid) ≡ admitted → b ≡ true
is_admitted true h = refl
is_admitted false h = cc

bearer_lem :
    (header : Option String) (token : List ℕ) → (bearer header ≡ some token) ↔ Presents header token
unfolding bearer is_bearer
bearer_lem header token = (sound, complete)
  where
    parts : List ℕ × List ℕ
    parts = partition (header_text header)

    kept :
        (b : Bool) (cs : List ℕ)
        → (if not b || is_nil cs then none else some cs) ≡ some token
        → (b ≡ true) × (cs ≡ token) × (token ≢ [])
    kept false cs h = absurd cc
    kept true [] h = absurd cc
    kept true (c ∷ cs) h = (refl, some_inj h, λ e. let h' = some_inj h ∙ e in cc)

    sound : bearer header ≡ some token → Presents header token
    sound h =
        let (is, same, given) = kept (is_bearer parts.0) parts.1 h in
        (
          parts.0,
          ⊎_elim (λ e. e ∙ ap (λ t. parts.0 ++ space ∷ t) same) (λ e. absurd (given (sym same ∙ e)))
              (partition-parts (header_text header)),
          (nat_lists_equal_iff (map lower parts.0) (codes "bearer")).0 is,
          given,
        )

    complete : Presents header token → bearer header ≡ some token
    complete (scheme, text, is, given) =
        let split : partition (header_text header) ≡ (scheme, token) =
          ap partition text
          ∙ partition-append scheme token (subst (λ cs. solid cs ≡ true) (sym is) refl) in
        let named : is_bearer scheme ≡ true =
          (nat_lists_equal_iff (map lower scheme) (codes "bearer")).1 is in
        subst
          (λ (p : List ℕ × List ℕ).
            (if not (is_bearer p.0) || is_nil p.1 then none else some p.1) ≡ some token)
          (sym split) (rw (named, not_nil token given) refl)

-- No token is configured.
abbrev pub IsOpen : Access → Type 0
IsOpen config = (config.client_token ≡ none) × (config.worker_token ≡ none)

auth_enabled-false : (config : Access) → (auth_enabled config ≡ false) ↔ IsOpen config
unfolding auth_enabled
auth_enabled-false config = neither config.client_token config.worker_token
  where
    neither :
        (c w : Option String) → ((is_given c || is_given w) ≡ false) ↔ ((c ≡ none) × (w ≡ none))
    neither none none = (λ h. (refl, refl), λ h. refl)
    neither none (some t) = (λ h. absurd cc, λ (_, h). absurd cc)
    neither (some t) w = (λ h. absurd cc, λ (h, _). absurd cc)

check_admits :
    (config : Access) (header expected : Option String)
    → (check config header expected ≡ admitted) ↔ (IsOpen config ⊎ Holds header expected)
unfolding check
check_admits config header expected = elim (Bool-cases (auth_enabled config)) [
  | inr off ↦ (λ h. inl ((auth_enabled-false config).0 off), λ how. rw (off, check) refl)
  | inl closed ↦ elim (Option-cases expected) [
    | inl absent ↦ (
      λ h. absurd (let h' = rw (closed, absent, check) at h in cc),
      λ how. absurd (
          ⊎_elim (λ e. let h = sym closed ∙ (auth_enabled-false config).1 e in cc)
            (λ (token, there, _). let h = sym absent ∙ there in cc) how),
    )
    | inr (token, there) ↦ elim (Option-cases (bearer header)) [
      | inl absent ↦ (
        λ h. absurd (let h' = rw (closed, there, absent, check) at h in cc),
        λ how. absurd (
            ⊎_elim (λ e. let h = sym closed ∙ (auth_enabled-false config).1 e in cc)
              (λ (t, _, presents).
                let h = sym absent ∙ (bearer_lem header (codes t)).1 presents in cc)
              how),
      )
      | inr (presented, found) ↦
          let equal = nat_lists_equal_iff presented (codes token) in
          (
            λ h. inr (
              token,
              there,
              (bearer_lem header (codes token)).0 (
                  found
                  ∙ ap some (
                      equal.0 (
                        is_admitted (nat_lists_equal presented (codes token))
                          (rw (closed, there, found, check) at h)))),
            ),
            λ how.
                ⊎_elim (λ e. absurd (let h = sym closed ∙ (auth_enabled-false config).1 e in cc))
                  (λ (t, same, presents).
                    let is = some_inj (sym there ∙ same) in
                    let agree = equal.1 (
                      some_inj (sym found ∙ (bearer_lem header (codes t)).1 presents)
                      ∙ ap codes (sym is)) in
                    rw (closed, there, found, agree, check) refl)
                  how,
          )
    ]
  ]
]

any_admits :
    (config : Access) (header : Option String)
    → (any_auth config header ≡ admitted) ↔ (
        (check config header config.client_token ≡ admitted)
        ⊎ (check config header config.worker_token ≡ admitted))
unfolding any_auth
any_admits config header =
    either (check config header config.client_token) (check config header config.worker_token)
  where
    either :
        (v w : Verdict)
        → (elim v [ admitted ↦ admitted | token_required ↦ w | token_not_valid ↦ w ] ≡ admitted)
          ↔ ((v ≡ admitted) ⊎ (w ≡ admitted))
    either admitted w = (λ h. inl refl, λ how. refl)
    either token_required w = (inr, ⊎_elim (λ e. absurd cc) (λ e. e))
    either token_not_valid w = (inr, ⊎_elim (λ e. absurd cc) (λ e. e))

-- While no token is configured every request passes. Otherwise a client route admits a request exactly
-- when its header is `Bearer`, in any case, a space and the client's token; a worker route so with the
-- worker's token; and a blob route with either. An empty token admits nobody.
pub auth_lem :
    (config : Access) (header : Option String)
    → ((client_auth config header ≡ admitted) ↔ (IsOpen config ⊎ Holds header config.client_token))
      × ((worker_auth config header ≡ admitted)
          ↔ (IsOpen config ⊎ Holds header config.worker_token))
      × ((any_auth config header ≡ admitted)
          ↔ (IsOpen config ⊎ (Holds header config.client_token ⊎ Holds header config.worker_token)))
unfolding client_auth worker_auth
auth_lem config header =
    let client = check_admits config header config.client_token in
    let worker = check_admits config header config.worker_token in
    let any = any_admits config header in
    (
      client,
      worker,
      (
        λ h.
            ⊎_elim (λ c. ⊎_elim inl (λ k. inr (inl k)) (client.0 c))
              (λ w. ⊎_elim inl (λ k. inr (inr k)) (worker.0 w)) (any.0 h),
        λ how. any.1 (
            ⊎_elim (λ off. inl (client.1 (inl off)))
              (⊎_elim (λ k. inl (client.1 (inr k))) (λ k. inr (worker.1 (inr k)))) how),
      ),
    )
