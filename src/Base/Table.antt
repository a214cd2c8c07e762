-- ===== src/Base/Table.antt =====
-- A table of a database as the list of its rows in insertion order. `key` is the primary key;
-- `get` is `db.get(Model, id)`, `modify` is the UPDATE that a change of a loaded row's attributes
-- makes, `find` is `db.scalar(select(...).where(...))` and `remove` is a DELETE.
use Prim.Native.Nat.{ℕ, ◌+◌, ◌≤◌}
use mathlib.Core.Path.{◌≡◌, refl}
use mathlib.Core.Logic.{inl, inr}
use mathlib.Core.Bool.{Bool, true, false}
use mathlib.Core.Option.{Option, none, some}
use mathlib.Core.List.{List, [], ◌∷◌, ◌++◌}
use native.Mathlib.Omega.{arith}
use pi_opensandbox_runner.Base.Tests.{
  ◌==◌, leb, ltb, if◌then◌else◌, bit, All, Bool-cases, Option-cases,
}

module _ {ℓ} {A : Type ℓ} where
  unfoldable pub find : (A → Bool) → List A → Option A
  find p [] = none
  find p (x ∷ xs) = if p x then some x else find p xs

  -- Keeps the rows that the condition of the DELETE does not select.
  unfoldable pub remove : (A → Bool) → List A → List A
  remove p [] = []
  remove p (x ∷ xs) = let rest = remove p xs in if p x then rest else x ∷ rest

  unfoldable pub count : (A → Bool) → List A → ℕ
  count p [] = 0
  count p (x ∷ xs) = bit (p x) + count p xs

  unfoldable pub get : (A → ℕ) → ℕ → List A → Option A
  get key k [] = none
  get key k (x ∷ xs) = if key x == k then some x else get key k xs

  unfoldable pub modify : (A → ℕ) → ℕ → (A → A) → List A → List A
  modify key k f [] = []
  modify key k f (x ∷ xs) = if key x == k then f x ∷ xs else x ∷ modify key k f xs

  abbrev pub pick : Bool → A → Option A → Option A
  pick b x none = some x
  pick b x (some y) = if b then some x else some y

  abbrev pub key_of : (A → ℕ) → ℕ → Option A → ℕ
  key_of key d none = d
  key_of key d (some y) = key y

  -- `.order_by(column)`, first row: the least value, and the first of equal ones.
  unfoldable pub earliest : (A → ℕ) → (A → Bool) → List A → Option A
  earliest key p [] = none
  earliest key p (x ∷ xs) =
      let rest = earliest key p xs in
      if p x then pick (leb (key x) (key_of key (key x) rest)) x rest else rest

  -- `.order_by(desc(column))`, first row: the greatest value, and the last of equal ones.
  unfoldable pub latest : (A → ℕ) → (A → Bool) → List A → Option A
  latest key p [] = none
  latest key p (x ∷ xs) =
      let rest = latest key p xs in
      if p x then pick (ltb (key_of key (key x) rest) (key x)) x rest else rest

  pub find-holds : (p : A → Bool) (xs : List A) (x : A) → find p xs ≡ some x → p x ≡ true
  unfolding find
  find-holds p [] x h = ground arith
  find-holds p (y ∷ xs) x h = ground (arith, find-holds p xs x)

  pub count-append : (p : A → Bool) (xs ys : List A) → count p (xs ++ ys) ≡ count p xs + count p ys
  unfolding count
  count-append p [] ys = omega arith
  count-append p (x ∷ xs) ys = omega (arith, count-append p xs ys)

  -- No row is found exactly where none is counted.
  pub count_of_find-none : (p : A → Bool) (xs : List A) → find p xs ≡ none → count p xs ≡ 0
  unfolding find count
  count_of_find-none p [] h = refl
  count_of_find-none p (x ∷ xs) h = ground (arith, count_of_find-none p xs)

  -- A test that is narrower counts fewer rows.
  pub count_mono :
      (p q : A → Bool)
      → ((x : A) → p x ≡ true → q x ≡ true)
      → (xs : List A) → count p xs ≤ count q xs
  unfolding count
  count_mono p q h [] = omega arith
  count_mono p q h (x ∷ xs) = ground (arith, h x, count_mono p q h xs)

  module _ (key : A → ℕ) (p : A → Bool) where
    pub earliest-holds : (xs : List A) (x : A) → earliest key p xs ≡ some x → p x ≡ true
    unfolding earliest
    earliest-holds [] x h = ground arith
    earliest-holds (y ∷ xs) x h = ground (arith, earliest-holds xs x)

    -- Every row that passes has a key of at least `b`.
    abbrev Least : ℕ → List A → Type 0
    Least b = All (λ y. p y ≡ true → b ≤ key y)

    Least-mono : (a b : ℕ) → a ≤ b → (xs : List A) → Least b xs → Least a xs
    Least-mono a b h [] l = tt
    Least-mono a b h (y ∷ xs) l = (λ e. omega (arith, l.0 e), Least-mono a b h xs l.1)

    Least-of_none : (b : ℕ) (xs : List A) → earliest key p xs ≡ none → Least b xs
    unfolding earliest
    Least-of_none b [] h = tt
    Least-of_none b (y ∷ xs) h = elim (Bool-cases (p y)) [
      | inl e ↦ absurd (ground arith)
      | inr e ↦ (λ e'. absurd (ground arith), Least-of_none b xs (ground arith))
    ]

    -- No row that passes comes before the one that is chosen.
    pub earliest-Least : (xs : List A) (x : A) → earliest key p xs ≡ some x → Least (key x) xs
    unfolding earliest
    earliest-Least [] x h = tt
    earliest-Least (y ∷ xs) x h = elim (Bool-cases (p y)) [
      | inr e ↦ (λ e'. absurd (ground arith), earliest-Least xs x (ground arith))
      | inl e ↦ elim (Option-cases (earliest key p xs)) [
        | inl n ↦ (λ _. ground arith, Least-of_none (key x) xs n)
        | inr (r, s) ↦ (
          λ _. ground arith,
          Least-mono (key x) (key r) (ground arith) xs (earliest-Least xs r s),
        )
      ]
    ]

    pub earliest-none : (xs : List A) → earliest key p xs ≡ none → All (λ y. p y ≡ false) xs
    unfolding earliest
    earliest-none [] h = tt
    earliest-none (y ∷ xs) h = ground (arith, earliest-none xs)

    pub latest-holds : (xs : List A) (x : A) → latest key p xs ≡ some x → p x ≡ true
    unfolding latest
    latest-holds [] x h = ground arith
    latest-holds (y ∷ xs) x h = ground (arith, latest-holds xs x)

  module _ (key : A → ℕ) where
    pub get_key : (k : ℕ) (xs : List A) (x : A) → get key k xs ≡ some x → key x ≡ k
    unfolding get
    get_key k [] x h = ground arith
    get_key k (y ∷ xs) x h = ground (arith, get_key k xs x)

    pub get-append_new :
        (k : ℕ) (xs : List A) (x : A)
        → get key k xs ≡ none
        → key x ≡ k
        → get key k (xs ++ x ∷ []) ≡ some x
    unfolding get
    get-append_new k [] x h e = ground arith
    get-append_new k (y ∷ xs) x h e = ground (arith, get-append_new k xs x)

    module _ (f : A → A) (keeps : (x : A) → key (f x) ≡ key x) where
      pub get-modify_self :
          (k : ℕ) (xs : List A) (x : A)
          → get key k xs ≡ some x
          → get key k (modify key k f xs) ≡ some (f x)
      unfolding get modify
      get-modify_self k [] x h = ground arith
      get-modify_self k (y ∷ xs) x h = ground (arith, keeps y, get-modify_self k xs x)

      pub get-modify_ne :
          (k j : ℕ) (xs : List A) → (k == j) ≡ false → get key j (modify key k f xs) ≡ get key j xs
      unfolding get modify
      get-modify_ne k j [] h = refl
      get-modify_ne k j (y ∷ xs) h = ground (arith, keeps y, get-modify_ne k j xs)

    -- A change of one row moves a count by that row's test, before and after.
    pub count-modify :
        (p : A → Bool) (k : ℕ) (f : A → A) (xs : List A) (x : A)
        → get key k xs ≡ some x
        → count p (modify key k f xs) + bit (p x) ≡ count p xs + bit (p (f x))
    unfolding get modify count
    count-modify p k f [] x h = ground arith
    count-modify p k f (y ∷ xs) x h = ground (arith, count-modify p k f xs x)

    pub modify_of_none :
        (k : ℕ) (f : A → A) (xs : List A) → get key k xs ≡ none → modify key k f xs ≡ xs
    unfolding get modify
    modify_of_none k f [] h = refl
    modify_of_none k f (y ∷ xs) h = ground (arith, modify_of_none k f xs)
