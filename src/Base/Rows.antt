-- ===== src/Base/Rows.antt =====
-- Rows by their primary key, and what a query finds after an INSERT or an UPDATE.
use Prim.Native.Nat.{ℕ, ◌≤◌}
use mathlib.Core.Path.{◌≡◌, refl}
use mathlib.Core.Logic.{inl, inr}
use mathlib.Core.Bool.{Bool, true, false}
use mathlib.Core.Option.{none, some}
use mathlib.Core.List.{List, [], ◌∷◌, ◌++◌}
use native.Mathlib.Omega.{arith}
use pi_opensandbox_runner.Base.Table.{find, count, get, modify, earliest, latest, get_key}
use pi_opensandbox_runner.Base.Tests.{◌==◌, Bool-cases, Option-cases}

module _ {ℓ} {A : Type ℓ} where
  pub find-append_none :
      (p : A → Bool) (xs : List A) (x : A)
      → find p xs ≡ none
      → p x ≡ true
      → find p (xs ++ x ∷ []) ≡ some x
  unfolding find
  find-append_none p [] x h e = ground arith
  find-append_none p (y ∷ xs) x h e = ground (arith, find-append_none p xs x)

  module _ (key : A → ℕ) where
    -- A primary key: no two rows have the same value.
    abbrev pub Unique : List A → Type 0
    Unique xs = (k : ℕ) → count (λ x. key x == k) xs ≤ 1

    count_of_get :
        (k : ℕ) (xs : List A) (x : A) → get key k xs ≡ some x → 1 ≤ count (λ y. key y == k) xs
    unfolding get count
    count_of_get k [] x h = absurd (ground arith)
    count_of_get k (y ∷ xs) x h = ground (arith, count_of_get k xs x)

    -- With a primary key, the row that a query finds is the row with its key.
    pub get_of_find :
        (p : A → Bool) (xs : List A) (x : A)
        → Unique xs
        → find p xs ≡ some x
        → get key (key x) xs ≡ some x
    unfolding find get count
    get_of_find p [] x u h = absurd (ground arith)
    get_of_find p (y ∷ xs) x u h = elim (Bool-cases (p y)) [
      | inl e ↦ ground arith
      | inr e ↦
          let rest : get key (key x) xs ≡ some x =
            get_of_find p xs x (λ k. ground (arith, u k)) (ground arith) in
          ground (arith, rest, u (key x), count_of_get (key x) xs x rest)
    ]

    pub find-modify :
        (p : A → Bool) (f : A → A) (k : ℕ) (xs : List A) (x : A)
        → get key k xs ≡ some x
        → find p xs ≡ some x
        → p (f x) ≡ true
        → find p (modify key k f xs) ≡ some (f x)
    unfolding find get modify
    find-modify p f k [] x g h e = absurd (ground arith)
    find-modify p f k (y ∷ xs) x g h e = ground (arith, get_key key k xs x, find-modify p f k xs x)

    -- Writing a row back as it is changes nothing.
    pub modify_same :
        (k : ℕ) (xs : List A) (x : A) → get key k xs ≡ some x → modify key k (λ _. x) xs ≡ xs
    unfolding get modify
    modify_same k [] x h = refl
    modify_same k (y ∷ xs) x h = ground (arith, modify_same k xs x)

  pub find-append_some :
      (p : A → Bool) (xs ys : List A) (x : A) → find p xs ≡ some x → find p (xs ++ ys) ≡ some x
  unfolding find
  find-append_some p [] ys x h = absurd (ground arith)
  find-append_some p (y ∷ xs) ys x h = ground (arith, find-append_some p xs ys x)

  -- A row at the end that does not pass is not the latest.
  pub latest-append_skip :
      (key : A → ℕ) (p : A → Bool) (xs : List A) (x : A)
      → p x ≡ false
      → latest key p (xs ++ x ∷ []) ≡ latest key p xs
  unfolding latest
  latest-append_skip key p [] x h = rw h
  latest-append_skip key p (y ∷ xs) x h = rw (latest-append_skip key p xs x h)

  pub get-modify_to :
      (key : A → ℕ) (k : ℕ) (f : A → A) (xs : List A) (x : A)
      → get key k xs ≡ some x
      → key (f x) ≡ k
      → get key k (modify key k f xs) ≡ some (f x)
  unfolding get modify
  get-modify_to key k f [] x h e = absurd (ground arith)
  get-modify_to key k f (y ∷ xs) x h e = ground (arith, get-modify_to key k f xs x)

  module _ (id key : A → ℕ) (p : A → Bool) where
    -- With a primary key, the row that is chosen is the row with its key.
    pub get_of_earliest :
        (xs : List A) (x : A)
        → Unique id xs
        → earliest key p xs ≡ some x
        → get id (id x) xs ≡ some x
    unfolding earliest get count
    get_of_earliest [] x u h = absurd (ground arith)
    get_of_earliest (y ∷ xs) x u h = elim (Option-cases (earliest key p xs)) [
      | inl n ↦ ground arith
      | inr (r, e) ↦
          let rest : get id (id r) xs ≡ some r =
            get_of_earliest xs r (λ k. ground (arith, u k)) e in
          ground (arith, rest, u (id r), count_of_get id (id r) xs r rest)
    ]
