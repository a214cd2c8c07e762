-- ===== src/Manager/Security/Tokens.antt =====
-- What `_ensure_token` leaves: a row for the token with the scopes, and other tokens as they were.
use pi_opensandbox_runner.Base.{
  ℕ, String, ◌≡◌, refl, ◌∙◌, ap, Bool, true, false, ◌||◌, Option, none, some, List, [], ◌∷◌, ◌++◌,
  arith, str_eq, eq_iff, All, Bool-cases, Option-cases, inl, inr, ◌⊎◌,
}
use mathlib.Core.List.{append-nil}
use pi_opensandbox_runner.Base.Table.{find, find-holds}
use pi_opensandbox_runner.Base.Rows.{find-append_none, find-append_some}
use pi_opensandbox_runner.Manager.Models.{ManagerToken}
use pi_opensandbox_runner.Manager.Api.{member}
use pi_opensandbox_runner.Manager.Security.{
  missing, change_found, has_hash, grant, new_token, Pending, ensure_token,
}

member-append :
    (s : String) (xs ys : List String) → member s (xs ++ ys) ≡ member s xs || member s ys
unfolding member
member-append s [] ys = refl
member-append s (x ∷ xs) ys = ground (arith, member-append s xs ys)

-- All these scopes are there.
abbrev pub Covers : List String → List String → Type 0
Covers want have = All (λ s. member s have ≡ true) want

missing-Covers : (want have : List String) → Covers want have → missing want have ≡ []
unfolding missing
missing-Covers [] have c = refl
missing-Covers (s ∷ want) have c = ground (arith, c.0, missing-Covers want have c.1)

member-missing :
    (s : String) (want have : List String)
    → member s want ≡ true
    → member s have ≡ false
    → member s (missing want have) ≡ true
unfolding member missing
member-missing s [] have w h = absurd (ground arith)
member-missing s (x ∷ want) have w h = elim (Bool-cases (str_eq x s)) [
  | inr e ↦ ground (arith, e, w, h, member-missing s want have)
  | inl e ↦
      let same : member x have ≡ false = ap (λ y. member y have) ((eq_iff x s).0 e) ∙ h in
      ground (arith, e, same)
]

member-granted :
    (s : String) (want have : List String)
    → member s want ≡ true
    → member s (have ++ missing want have) ≡ true
member-granted s want have w =
    ground (arith, member-append s have (missing want have), member-missing s want have w)

member_head : (x : String) (xs : List String) → member x (x ∷ xs) ≡ true
unfolding member
member_head x xs = rw ((eq_iff x x).1 refl) refl

member_tail : (s x : String) (xs : List String) → member s xs ≡ true → member s (x ∷ xs) ≡ true
unfolding member
member_tail s x xs h = ground (arith, h)

Covers-all :
    (want have : List String)
    → ((s : String) → member s want ≡ true → member s have ≡ true)
    → Covers want have
Covers-all [] have h = tt
Covers-all (s ∷ want) have h =
    (h s (member_head s want), Covers-all want have (λ t m. h t (member_tail t s want m)))

Covers-append : (want have more : List String) → Covers want have → Covers want (have ++ more)
Covers-append [] have more c = tt
Covers-append (s ∷ want) have more c =
    (ground (arith, c.0, member-append s have more), Covers-append want have more c.1)

module _ (p : ManagerToken → Bool) (f : ManagerToken → ManagerToken) where
  find-change_found :
      (tokens : List ManagerToken) (t : ManagerToken)
      → find p tokens ≡ some t
      → p (f t) ≡ true
      → find p (change_found p f tokens) ≡ some (f t)
  unfolding find change_found
  find-change_found [] t h e = absurd (ground arith)
  find-change_found (x ∷ tokens) t h e = ground (arith, h, e, find-change_found tokens t)

  change_found_same :
      (tokens : List ManagerToken) (t : ManagerToken)
      → find p tokens ≡ some t
      → f t ≡ t
      → change_found p f tokens ≡ tokens
  unfolding find change_found
  change_found_same [] t h e = refl
  change_found_same (x ∷ tokens) t h e = ground (arith, h, e, change_found_same tokens t)

  find-change_found_other :
      (q : ManagerToken → Bool)
      → ((t : ManagerToken) → q (f t) ≡ q t)
      → (tokens : List ManagerToken) (u : ManagerToken) → find q tokens ≡ some u
      → (find q (change_found p f tokens) ≡ some u)
        ⊎ (find q (change_found p f tokens) ≡ some (f u))
  unfolding find change_found
  find-change_found_other q k [] u h = absurd (ground arith)
  find-change_found_other q k (x ∷ tokens) u h = elim (Bool-cases (p x)) [
    | inl a ↦ elim (Bool-cases (q x)) [
      | inl b ↦ inr (ground (arith, a, b, k x, h))
      | inr b ↦ inl (ground (arith, a, b, k x, h))
    ]
    | inr a ↦ elim (Bool-cases (q x)) [
      | inl b ↦ inl (ground (arith, a, b, h))
      | inr b ↦ elim (find-change_found_other q k tokens u (ground (arith, b, h))) [
        | inl r ↦ inl (ground (arith, a, b, r))
        | inr r ↦ inr (ground (arith, a, b, r))
      ]
    ]
  ]

find-append_skip :
    (p : ManagerToken → Bool) (xs ys : List ManagerToken)
    → find p xs ≡ none
    → find p (xs ++ ys) ≡ find p ys
unfolding find
find-append_skip p [] ys h = refl
find-append_skip p (x ∷ xs) ys h = ground (arith, h, find-append_skip p xs ys)

module _ (p q : ManagerToken → Bool) (f : ManagerToken → ManagerToken) where
  find-change_found-none :
      ((t : ManagerToken) → q (f t) ≡ q t)
      → (tokens : List ManagerToken) → find q tokens ≡ none
      → find q (change_found p f tokens) ≡ none
  unfolding find change_found
  find-change_found-none k [] h = refl
  find-change_found-none k (x ∷ tokens) h = ground (arith, h, k x, find-change_found-none k tokens)

-- The first token with this digest has these scopes.
abbrev pub Granted : String → List String → List ManagerToken → Type 0
Granted digest scopes tokens =
    (t : ManagerToken) × (find (has_hash digest) tokens ≡ some t) × Covers scopes t.scopes

-- So it has in the table, or it is not there and the first one that was added has.
abbrev pub GrantedIn : String → List String → Pending → Type 0
GrantedIn digest scopes db =
    Granted digest scopes db.0 ⊎ ((find (has_hash digest) db.0 ≡ none) × Granted digest scopes db.1)

pub GrantedIn-committed :
    (digest : String) (scopes : List String) (db : Pending)
    → GrantedIn digest scopes db
    → Granted digest scopes (db.0 ++ db.1)
GrantedIn-committed digest scopes db (inl (t, e, c)) =
    (t, find-append_some (has_hash digest) db.0 db.1 t e, c)
GrantedIn-committed digest scopes db (inr (n, (t, e, c))) =
    (t, find-append_skip (has_hash digest) db.0 db.1 n ∙ e, c)

module _ (hash : String → String) (id : ℕ) (token : String) (consumer : Option ℕ) (kind : String)
    (scopes : List String) where
  pub ensure_token-GrantedIn :
      (db : Pending)
      → find (has_hash (hash token)) db.1 ≡ none
      → GrantedIn (hash token) scopes (ensure_token hash id token consumer kind scopes db)
  unfolding ensure_token
  ensure_token-GrantedIn (stored, added) a =
      elim (Option-cases (find (has_hash (hash token)) stored)) [
        | inl n ↦
            let found =
              find-append_none (has_hash (hash token)) added
                (new_token (hash token) id consumer kind scopes) a
                ((eq_iff (hash token) (hash token)).1 refl) in
            rw (n, ensure_token) (inr (n, (_, found, Covers-all scopes scopes (λ s m. m))))
        | inr (t, e) ↦
            rw (e, ensure_token)
              (inl (
                grant scopes t,
                find-change_found _ (grant scopes) stored t e
                    (find-holds (has_hash (hash token)) stored t e),
                Covers-all scopes _ (λ s m. member-granted s scopes t.scopes m),
              ))
      ]

  pub ensure_token_keeps :
      (digest : String) (want : List String) (db : Pending)
      → GrantedIn digest want db
      → GrantedIn digest want (ensure_token hash id token consumer kind scopes db)
  unfolding ensure_token
  ensure_token_keeps digest want (stored, added) (inr (m, (u, h, c))) =
      elim (Option-cases (find (has_hash (hash token)) stored)) [
        | inl n ↦
            rw (n, ensure_token) (inr (m, (u, find-append_some (has_hash digest) added _ u h, c)))
        | inr (t, e) ↦
            let absent =
              find-change_found-none (has_hash (hash token)) (has_hash digest) (grant scopes)
                (λ x. refl) stored m in
            rw (e, ensure_token) (inr (absent, (u, h, c)))
      ]
  ensure_token_keeps digest want (stored, added) (inl (u, h, c)) =
      elim (Option-cases (find (has_hash (hash token)) stored)) [
        | inl n ↦ rw (n, ensure_token) (inl (u, h, c))
        | inr (t, e) ↦
            elim (find-change_found_other (has_hash (hash token)) (grant scopes) (has_hash digest)
              (λ x. refl) stored u h) [
                | inl r ↦ rw (e, ensure_token) (inl (u, r, c))
                | inr r ↦
                    rw (e, ensure_token) (inl (grant scopes u, r, Covers-append want u.scopes _ c))
              ]
      ]

  -- What is not added: rows of another digest.
  pub ensure_token_other :
      (digest : String) (db : Pending)
      → str_eq (hash token) digest ≡ false
      → find (has_hash digest) db.1 ≡ none
      → find (has_hash digest) (ensure_token hash id token consumer kind scopes db).1 ≡ none
  unfolding ensure_token find
  ensure_token_other digest (stored, added) d n =
      elim (Option-cases (find (has_hash (hash token)) stored)) [
        | inl m ↦ rw (m, ensure_token, find-append_skip (has_hash digest) added _ n, d) refl
        | inr (t, e) ↦ rw (e, ensure_token) n
      ]

  pub ensure_token_again :
      (stored added : List ManagerToken)
      → Granted (hash token) scopes stored
      → ensure_token hash id token consumer kind scopes (stored, added) ≡ (stored, added)
  unfolding ensure_token
  ensure_token_again stored added (t, e, c) =
      let nothing = missing-Covers scopes t.scopes c in
      let same : grant scopes t ≡ t =
        ap (λ m. record t { scopes = t.scopes ++ m }) nothing
        ∙ ap (λ m. record t { scopes = m }) (append-nil t.scopes) in
      rw (e, ensure_token)
        (ap (λ x. (x, added))
          (change_found_same (has_hash (hash token)) (grant scopes) stored t e same))
