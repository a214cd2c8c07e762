-- ===== src/Manager/Exec.antt =====
-- Code that runs transactions and calls upstream systems, and that may raise. What was committed
-- before a raise stays committed, so the state comes back beside the exception too. `diverged` is
-- a loop that has used its fuel: it is no exception, and it is proved not to occur.
use pi_opensandbox_runner.Base.{Bool, true, false, if◌then◌else◌}
use pi_opensandbox_runner.Manager.Problem.{Failure, Result, ok, raise}
use pi_opensandbox_runner.Manager.Models.{Db}

pub record St (W : Type 0) : Type 0 where
  pub db : Db
  pub world : W

pub data Outcome (A : Type 0) : Type 0 where
  returned : A → Outcome A
  raised : Failure → Outcome A
  diverged : Outcome A

abbrev pub Exec : Type 0 → Type 0 → Type 0
Exec W A = St W → Outcome A × St W

abbrev pub outcome_of : {A : Type 0} → Result A → Outcome A
outcome_of (ok a) = returned a
outcome_of (raise e) = raised e

module _ {W A : Type 0} where
  unfoldable pub pure : A → Exec W A
  pure a s = (returned a, s)

  unfoldable pub throw : Failure → Exec W A
  throw e s = (raised e, s)

  unfoldable pub diverge : Exec W A
  diverge s = (diverged, s)

  unfoldable pub asks : (W → A) → Exec W A
  asks f s = (returned (f s.world), s)

  -- A transaction that reads, and may raise.
  unfoldable pub reads : (Db → Result A) → Exec W A
  reads f s = (outcome_of (f s.db), s)

  -- A transaction that commits.
  unfoldable pub commits : (Db → A × Db) → Exec W A
  commits f s = let (a, db) = f s.db in (returned a, record s { db = db })

  unfoldable pub call : (W → Result A × W) → Exec W A
  call f s = let (r, w) = f s.world in (outcome_of r, record s { world = w })

  unfoldable pub handle_outcome : (Failure → Exec W A) → Outcome A × St W → Outcome A × St W
  handle_outcome h (returned a, s) = (returned a, s)
  handle_outcome h (raised e, s) = h e s
  handle_outcome h (diverged, s) = (diverged, s)

  -- `try: m` with a handler.
  unfoldable pub catch : Exec W A → (Failure → Exec W A) → Exec W A
  unfolding handle_outcome
  catch m h s = handle_outcome h (m s)

module _ {W A B : Type 0} where
  unfoldable pub next : (A → Exec W B) → Outcome A × St W → Outcome B × St W
  next f (returned a, s) = f a s
  next f (raised e, s) = (raised e, s)
  next f (diverged, s) = (diverged, s)

  infixl 5 ◌>>=◌ ◌>>◌
  unfoldable pub ◌>>=◌ : Exec W A → (A → Exec W B) → Exec W B
  unfolding next
  ◌>>=◌ m f s = next f (m s)

  abbrev pub ◌>>◌ : Exec W A → Exec W B → Exec W B
  m >> n = m >>= λ _. n

-- `m` ends from a database that satisfies `P`: it returns with `Q`, or it raises with `P` kept.
abbrev pub Final : {W A : Type 0} → (Db → Type 0) → (Db → Type 0) → Outcome A × St W → Type 0
Final P Q (returned a, s) = Q s.db
Final P Q (raised e, s) = P s.db
Final P Q (diverged, s) = ⊥

pub record Ends {W A : Type 0} (P Q : Db → Type 0) (m : Exec W A) : Type 0 where
  pub at : (s : St W) → P s.db → Final P Q (m s)

Final-of_result :
    {W A : Type 0} (P : Db → Type 0) (r : Result A) (s : St W)
    → P s.db
    → Final P P (outcome_of r, s)
Final-of_result P (ok a) s h = h
Final-of_result P (raise e) s h = h

module _ {W A : Type 0} {P : Db → Type 0} where
  pub Ends-pure : (a : A) → Ends {W = W} P P (pure a)
  unfolding pure
  Ends-pure a = record { at = λ s h. h }

  pub Ends-throw : {Q : Db → Type 0} (e : Failure) → Ends {W = W} {A = A} P Q (throw e)
  unfolding throw
  Ends-throw e = record { at = λ s h. h }

  pub Ends-asks : (f : W → A) → Ends P P (asks f)
  unfolding asks
  Ends-asks f = record { at = λ s h. h }

  pub Ends-reads : (f : Db → Result A) → Ends {W = W} P P (reads f)
  unfolding reads
  Ends-reads f = record { at = λ s h. Final-of_result P (f s.db) s h }

  pub Ends-call : (f : W → Result A × W) → Ends P P (call f)
  unfolding call
  Ends-call f = record {
    at = λ s h. let (r, w) = f s.world in Final-of_result P r (record s { world = w }) h;
  }

  pub Ends-commits :
      {Q : Db → Type 0} (f : Db → A × Db)
      → ((db : Db) → P db → Q (f db).1)
      → Ends {W = W} P Q (commits f)
  unfolding commits
  Ends-commits f h = record { at = λ s p. h s.db p }

  pub Ends-if :
      {Q : Db → Type 0} (b : Bool) (m n : Exec W A)
      → Ends P Q m
      → Ends P Q n
      → Ends P Q (if b then m else n)
  Ends-if true m n hm hn = hm
  Ends-if false m n hm hn = hn

  -- A handler that ends wherever `m` may raise.
  Final-handle :
      {Q : Db → Type 0} (h : Failure → Exec W A)
      → ((e : Failure) → Ends P Q (h e))
      → (r : Outcome A × St W) → Final P Q r
      → Final P Q (handle_outcome h r)
  unfolding handle_outcome
  Final-handle h hh (returned a, s) f = f
  Final-handle h hh (raised e, s) f = (hh e).at s f
  Final-handle h hh (diverged, s) f = f

  pub Ends-catch :
      {Q : Db → Type 0} (m : Exec W A) (h : Failure → Exec W A)
      → Ends P Q m
      → ((e : Failure) → Ends P Q (h e))
      → Ends P Q (catch m h)
  unfolding catch
  Ends-catch m h hm hh = record { at = λ s p. Final-handle h hh (m s) (hm.at s p) }

module _ {W A B : Type 0} {P Q : Db → Type 0} where
  Final-next :
      (f : A → Exec W B)
      → ((a : A) → Ends P Q (f a))
      → (r : Outcome A × St W) → Final P P r
      → Final P Q (next f r)
  unfolding next
  Final-next f hf (returned a, s) h = (hf a).at s h
  Final-next f hf (raised e, s) h = h
  Final-next f hf (diverged, s) h = absurd h

  pub Ends-bind :
      (m : Exec W A) (f : A → Exec W B)
      → Ends P P m
      → ((a : A) → Ends P Q (f a))
      → Ends P Q (m >>= f)
  unfolding ◌>>=◌
  Ends-bind m f hm hf = record { at = λ s p. Final-next f hf (m s) (hm.at s p) }

pub ruleset ends_rules =
    (Ends-pure, Ends-throw, Ends-asks, Ends-reads, Ends-call, Ends-if, Ends-bind)
