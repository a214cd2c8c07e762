-- ===== src/Manager/Security/Bootstrap.antt =====
-- Starting the Manager again with the same tokens.
use pi_opensandbox_runner.Base.{
  ℕ, String, ◌≡◌, refl, ◌∙◌, sym, ap, Bool, true, false, Option, none, some, List, [], ◌∷◌, ◌++◌,
  str_eq, eq_iff, arith, Bool-cases, Option-cases, inl, inr,
}
use mathlib.Core.List.{append-nil}
use mathlib.Core.Path.{subst}
use pi_opensandbox_runner.Base.Table.{find}
use pi_opensandbox_runner.Base.Rows.{find-append_none}
use pi_opensandbox_runner.Manager.Models.{ManagerToken}
use pi_opensandbox_runner.Manager.Problem.{
  Failure, ok, raise, exception, ok-injective, Result-cases,
}
use pi_opensandbox_runner.Manager.Security.{
  Consumer, Accounts, BootstrapSettings, FreshIds, Pending, has_hash, new_token, service_scopes,
  is_set, ensure_if_set, ensure_tokens, ensure_token, has_slug, has_repeats, commit,
  ensure_consumer, bootstrap,
}
use pi_opensandbox_runner.Manager.Security.Tokens.{
  Granted, GrantedIn, GrantedIn-committed, ensure_token-GrantedIn, ensure_token_keeps,
  ensure_token_other, ensure_token_again,
}

-- A token that is configured is granted its scopes.
abbrev GrantedIf : Bool → String → List String → List ManagerToken → Type 0
GrantedIf true digest scopes tokens = Granted digest scopes tokens
GrantedIf false digest scopes tokens = Unit {0}

abbrev GrantedInIf : Bool → String → List String → Pending → Type 0
GrantedInIf true digest scopes db = GrantedIn digest scopes db
GrantedInIf false digest scopes db = Unit {0}

GrantedInIf-committed :
    (b : Bool) (digest : String) (scopes : List String) (db : Pending)
    → GrantedInIf b digest scopes db
    → GrantedIf b digest scopes (db.0 ++ db.1)
GrantedInIf-committed true digest scopes db g = GrantedIn-committed digest scopes db g
GrantedInIf-committed false digest scopes db g = tt

module _ (hash : String → String) (id : ℕ) (token : String) (consumer : Option ℕ) (kind : String)
    (scopes : List String) where
  ensure_if_set-GrantedInIf :
      (db : Pending)
      → find (has_hash (hash token)) db.1 ≡ none
      → GrantedInIf
          (is_set token)
          (hash token)
          scopes
          (ensure_if_set hash id token consumer kind scopes db)
  ensure_if_set-GrantedInIf db n = elim (Bool-cases (is_set token)) [
    | inl e ↦ rw e (ensure_token-GrantedIn hash id token consumer kind scopes db n)
    | inr e ↦ rw e tt
  ]

  ensure_if_set_keeps :
      (b : Bool) (digest : String) (want : List String) (db : Pending)
      → GrantedInIf b digest want db
      → GrantedInIf b digest want (ensure_if_set hash id token consumer kind scopes db)
  ensure_if_set_keeps false digest want db g = tt
  ensure_if_set_keeps true digest want db g = elim (Bool-cases (is_set token)) [
    | inl e ↦ rw e (ensure_token_keeps hash id token consumer kind scopes digest want db g)
    | inr e ↦ rw e g
  ]

  ensure_if_set_other :
      (digest : String) (db : Pending)
      → str_eq (hash token) digest ≡ false
      → find (has_hash digest) db.1 ≡ none
      → find (has_hash digest) (ensure_if_set hash id token consumer kind scopes db).1 ≡ none
  ensure_if_set_other digest db d n = elim (Bool-cases (is_set token)) [
    | inl e ↦ rw e (ensure_token_other hash id token consumer kind scopes digest db d n)
    | inr e ↦ rw e n
  ]

  ensure_if_set_again :
      (stored added : List ManagerToken)
      → GrantedIf (is_set token) (hash token) scopes stored
      → ensure_if_set hash id token consumer kind scopes (stored, added) ≡ (stored, added)
  ensure_if_set_again stored added g = elim (Bool-cases (is_set token)) [
    | inl e ↦ rw e (ensure_token_again hash id token consumer kind scopes stored added (rw e at g))
    | inr e ↦ rw e refl
  ]

  ensure_if_set_new :
      (stored added : List ManagerToken)
      → is_set token ≡ true
      → find (has_hash (hash token)) stored ≡ none
      → ensure_if_set hash id token consumer kind scopes (stored, added)
        ≡ (stored, added ++ new_token (hash token) id consumer kind scopes ∷ [])
  unfolding ensure_token
  ensure_if_set_new stored added s n = rw (s, ensure_token, n) refl

module _ (hash : String → String) (settings : BootstrapSettings) where
  -- Both tokens are granted in what is committed, so the next start finds nothing to do.
  ensure_tokens_again :
      (fresh fresh' : FreshIds) (consumer consumer' : ℕ) (tokens : List ManagerToken)
      → str_eq (hash settings.service_token) (hash settings.admin_token) ≡ false
      → (let db = ensure_tokens hash fresh settings consumer (tokens, []) in
          ensure_tokens hash fresh' settings consumer' (db.0 ++ db.1, []) ≡ (db.0 ++ db.1, []))
  unfolding find
  ensure_tokens_again fresh fresh' consumer consumer' tokens d =
      let one =
        ensure_if_set hash fresh.service_id settings.service_token (some consumer) "service"
          service_scopes (tokens, []) in
      let db = ensure_tokens hash fresh settings consumer (tokens, []) in
      let a =
        ensure_if_set_keeps hash fresh.admin_id settings.admin_token none "admin" ("*" ∷ [])
          (is_set settings.service_token) (hash settings.service_token) service_scopes one
          (ensure_if_set-GrantedInIf hash fresh.service_id settings.service_token (some consumer)
            "service" service_scopes (tokens, []) refl) in
      let b =
        ensure_if_set-GrantedInIf hash fresh.admin_id settings.admin_token none "admin" ("*" ∷ [])
          one
          (ensure_if_set_other hash fresh.service_id settings.service_token (some consumer)
            "service" service_scopes (hash settings.admin_token) (tokens, []) d refl) in
      ap (ensure_if_set hash fresh'.admin_id settings.admin_token none "admin" ("*" ∷ [])) (
        ensure_if_set_again hash fresh'.service_id settings.service_token (some consumer') "service"
          service_scopes (db.0 ++ db.1) [] (GrantedInIf-committed _ _ _ db a))
      ∙ ensure_if_set_again hash fresh'.admin_id settings.admin_token none "admin" ("*" ∷ [])
          (db.0 ++ db.1) [] (GrantedInIf-committed _ _ _ db b)

  ensure_consumer_found :
      (fresh : FreshIds) (consumers : List Consumer) (c : Consumer)
      → find (has_slug settings.consumer_slug) consumers ≡ some c
      → ensure_consumer fresh settings.consumer_slug consumers ≡ (c.id, consumers)
  unfolding ensure_consumer
  ensure_consumer_found fresh consumers c e = rw (e, ensure_consumer) refl

  ensure_consumer_again :
      (fresh fresh' : FreshIds) (consumers : List Consumer)
      → (let first = ensure_consumer fresh settings.consumer_slug consumers in
          ensure_consumer fresh' settings.consumer_slug first.1 ≡ first)
  unfolding ensure_consumer
  ensure_consumer_again fresh fresh' consumers =
      elim (Option-cases (find (has_slug settings.consumer_slug) consumers)) [
        | inr (c, e) ↦
            let first = ensure_consumer_found fresh consumers c e in
            ap (λ o. ensure_consumer fresh' settings.consumer_slug o.1) first
            ∙ ensure_consumer_found fresh' consumers c e
            ∙ sym first
        | inl n ↦
            let c : Consumer = record { id = fresh.consumer_id; slug = settings.consumer_slug } in
            let first : ensure_consumer fresh settings.consumer_slug consumers
                ≡ (fresh.consumer_id, consumers ++ c ∷ []) =
              rw (n, ensure_consumer) refl in
            let found =
              find-append_none (has_slug settings.consumer_slug) consumers c n
                ((eq_iff settings.consumer_slug settings.consumer_slug).1 refl) in
            ap (λ o. ensure_consumer fresh' settings.consumer_slug o.1) first
            ∙ ensure_consumer_found fresh' (consumers ++ c ∷ []) c found
            ∙ sym first
      ]

  commit_clean :
      (stored added : List ManagerToken)
      → has_repeats (stored ++ added) ≡ false
      → commit (stored, added) ≡ ok (stored ++ added)
  unfolding commit
  commit_clean stored added e = rw (e, commit) refl

  commit_repeats :
      (stored added : List ManagerToken)
      → has_repeats (stored ++ added) ≡ true
      → commit (stored, added) ≡ raise exception
  unfolding commit
  commit_repeats stored added e = rw (e, commit) refl

  -- What has been committed commits again.
  commit_again :
      (stored added tokens : List ManagerToken)
      → commit (stored, added) ≡ ok tokens
      → (stored ++ added ≡ tokens) × (commit (stored ++ added, []) ≡ ok tokens)
  commit_again stored added tokens h = elim (Bool-cases (has_repeats (stored ++ added))) [
    | inl e ↦ absurd (ground (arith, sym h ∙ commit_repeats stored added e))
    | inr e ↦
        let same = ok-injective (sym (commit_clean stored added e) ∙ h) in
        let whole = append-nil (stored ++ added) in
        (same, commit_clean (stored ++ added) [] (ap has_repeats whole ∙ e) ∙ ap ok (whole ∙ same))
  ]

  bootstrap_committed :
      (fresh : FreshIds) (accounts : Accounts) (tokens : List ManagerToken)
      → (let c = ensure_consumer fresh settings.consumer_slug accounts.consumers in
          commit (ensure_tokens hash fresh settings c.0 (accounts.tokens, [])) ≡ ok tokens
          → bootstrap hash fresh settings accounts
            ≡ ok (record { consumers = c.1; tokens = tokens }))
  unfolding bootstrap
  bootstrap_committed fresh accounts tokens e = rw (e, bootstrap) refl

  bootstrap_refused :
      (fresh : FreshIds) (accounts : Accounts) (f : Failure)
      → (let c = ensure_consumer fresh settings.consumer_slug accounts.consumers in
          commit (ensure_tokens hash fresh settings c.0 (accounts.tokens, [])) ≡ raise f
          → bootstrap hash fresh settings accounts ≡ raise f)
  unfolding bootstrap
  bootstrap_refused fresh accounts f e = rw (e, bootstrap) refl

  -- A start of the Manager that returns, with a service and an admin token of different digests, and then
  -- another one with the same settings, whatever ids it would give: the second returns and changes no row.
  pub bootstrap_again :
      (fresh fresh' : FreshIds) (accounts accounts' : Accounts)
      → str_eq (hash settings.service_token) (hash settings.admin_token) ≡ false
      → bootstrap hash fresh settings accounts ≡ ok accounts'
      → bootstrap hash fresh' settings accounts' ≡ ok accounts'
  bootstrap_again fresh fresh' accounts accounts' d h =
      let c = ensure_consumer fresh settings.consumer_slug accounts.consumers in
      let db = ensure_tokens hash fresh settings c.0 (accounts.tokens, []) in
      elim (Result-cases (commit db)) [
        | inr (f, e) ↦ absurd (ground (arith, sym h ∙ bootstrap_refused fresh accounts f e))
        | inl (tokens, e) ↦
            let done : Accounts = record { consumers = c.1; tokens = tokens } in
            let same : done ≡ accounts' =
              ok-injective (sym (bootstrap_committed fresh accounts tokens e) ∙ h) in
            let (all, twice) = commit_again db.0 db.1 tokens e in
            let c' = ensure_consumer fresh' settings.consumer_slug c.1 in
            let nothing =
              ap (λ x. ensure_tokens hash fresh' settings c'.0 (x, [])) (sym all)
              ∙ ensure_tokens_again fresh fresh' c.0 c'.0 accounts.tokens d in
            let again =
              bootstrap_committed fresh' done tokens (ap commit nothing ∙ twice)
              ∙ ap (λ o. ok (record { consumers = o.1; tokens = tokens }))
                  (ensure_consumer_again fresh fresh' accounts.consumers) in
            subst (λ x. bootstrap hash fresh' settings x ≡ ok x) same again
      ]

  has_repeats-append :
      (xs ys : List ManagerToken) → has_repeats ys ≡ true → has_repeats (xs ++ ys) ≡ true
  unfolding has_repeats
  has_repeats-append [] ys h = h
  has_repeats-append (x ∷ xs) ys h = ground (arith, has_repeats-append xs ys h)

  ensure_tokens_same :
      (fresh : FreshIds) (consumer : ℕ) (tokens : List ManagerToken)
      → is_set settings.service_token ≡ true
      → settings.admin_token ≡ settings.service_token
      → find (has_hash (hash settings.service_token)) tokens ≡ none
      → ensure_tokens hash fresh settings consumer (tokens, []) ≡ (
        tokens,
        new_token
              (hash settings.service_token)
              fresh.service_id
              (some consumer)
              "service"
              service_scopes
            ∷ new_token (hash settings.service_token) fresh.admin_id none "admin" ("*" ∷ [])
            ∷ [],
      )
  ensure_tokens_same fresh consumer tokens s a n =
      let service =
        new_token (hash settings.service_token) fresh.service_id (some consumer) "service"
          service_scopes in
      ap (ensure_if_set hash fresh.admin_id settings.admin_token none "admin" ("*" ∷ [])) (
        ensure_if_set_new hash fresh.service_id settings.service_token (some consumer) "service"
          service_scopes tokens [] s n)
      ∙ ensure_if_set_new hash fresh.admin_id settings.admin_token none "admin" ("*" ∷ []) tokens
          (service ∷ []) (ap is_set a ∙ s) (ap (λ t. find (has_hash (hash t)) tokens) a ∙ n)
      ∙ ap (λ t. (tokens, service ∷ new_token (hash t) fresh.admin_id none "admin" ("*" ∷ []) ∷ []))
          a

  -- A start with the same new token for both kinds: the second query does not see the row that the first
  -- added, so the commit breaks the unique constraint and the start raises.
  pub bootstrap_same_tokens :
      (fresh : FreshIds) (accounts : Accounts)
      → is_set settings.service_token ≡ true
      → settings.admin_token ≡ settings.service_token
      → find (has_hash (hash settings.service_token)) accounts.tokens ≡ none
      → bootstrap hash fresh settings accounts ≡ raise exception
  unfolding has_repeats find
  bootstrap_same_tokens fresh accounts s a n =
      let c = ensure_consumer fresh settings.consumer_slug accounts.consumers in
      let digest = hash settings.service_token in
      let added =
        new_token digest fresh.service_id (some c.0) "service" service_scopes
        ∷ new_token digest fresh.admin_id none "admin" ("*" ∷ [])
        ∷ [] in
      let twice : has_repeats added ≡ true = rw ((eq_iff digest digest).1 refl) refl in
      bootstrap_refused fresh accounts exception (
        ap commit (ensure_tokens_same fresh c.0 accounts.tokens s a n)
        ∙ commit_repeats accounts.tokens added (has_repeats-append accounts.tokens added twice))
