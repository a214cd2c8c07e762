-- ===== src/Base/Select.antt =====
-- The rows that a query selects, and what a DELETE leaves of them.
use mathlib.Core.Path.{◌≡◌, refl}
use mathlib.Core.Bool.{Bool, true}
use mathlib.Core.List.{List, [], ◌∷◌}
use mathlib.Core.Option.{some}
use native.Mathlib.Omega.{arith}
use pi_opensandbox_runner.Base.Tests.{if◌then◌else◌}
use pi_opensandbox_runner.Base.Table.{remove, count, find}

module _ {ℓ} {A : Type ℓ} where
  -- `select(...).where(...)`, all rows.
  unfoldable pub select : (A → Bool) → List A → List A
  select p [] = []
  select p (x ∷ xs) = let rest = select p xs in if p x then x ∷ rest else rest

  -- Of the rows that a DELETE selects, a query that is no wider finds none.
  pub select-remove :
      (p q : A → Bool)
      → ((x : A) → q x ≡ true → p x ≡ true)
      → (xs : List A) → select q (remove p xs) ≡ []
  unfolding select remove
  select-remove p q h [] = refl
  select-remove p q h (x ∷ xs) = ground (arith, h x, select-remove p q h xs)

  pub count-remove :
      (p q : A → Bool)
      → ((x : A) → q x ≡ true → p x ≡ true)
      → (xs : List A) → count q (remove p xs) ≡ 0
  unfolding count remove
  count-remove p q h [] = refl
  count-remove p q h (x ∷ xs) = ground (arith, h x, count-remove p q h xs)

  pub find_of_select :
      (p : A → Bool) (xs : List A) (x : A) (rest : List A)
      → select p xs ≡ x ∷ rest
      → find p xs ≡ some x
  unfolding select find
  find_of_select p [] x rest h = absurd (ground arith)
  find_of_select p (y ∷ xs) x rest h = ground (arith, find_of_select p xs x rest)
