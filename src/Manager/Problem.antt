-- ===== src/Manager/Problem.antt =====
-- problems.py, and `UpstreamProblem` of clients.py: what a handler or the executor can raise.
-- The human-readable `detail` texts and the `extra` members of a problem are not modelled.
use mathlib.Core.Path.{◌≡◌, ap, subst}
use pi_opensandbox_runner.Base.{
  arith, refl, ◌⊎◌, inl, inr, ℕ, String, Bool, true, false, ◌||◌, ◌==◌, if◌then◌else◌,
}

pub record ManagerProblem : Type 0 where
  pub status_code : ℕ
  pub code : String
  pub retryable : Bool
  pub component : String

-- `ManagerProblem(status, code, detail)`
abbrev pub manager_problem : ℕ → String → ManagerProblem
manager_problem status code = record {
  status_code = status;
  code = code;
  retryable = false;
  component = "runner-manager";
}

-- `ManagerProblem(status, code, detail, retryable=True)`
abbrev pub retryable_problem : ℕ → String → ManagerProblem
retryable_problem status code = record {
  status_code = status;
  code = code;
  retryable = true;
  component = "runner-manager";
}

pub record UpstreamProblem : Type 0 where
  pub status_code : ℕ
  pub code : String

-- `UpstreamProblem.retryable`
unfoldable pub is_retryable : UpstreamProblem → Bool
is_retryable p =
    p.status_code == 429 || p.status_code == 502 || p.status_code == 503 || p.status_code == 504

unfoldable pub as_manager_problem : UpstreamProblem → ManagerProblem
unfolding is_retryable
as_manager_problem p = record {
  status_code = p.status_code;
  code = p.code;
  retryable = is_retryable p;
  component = "runner-upstream";
}

-- `exception` is any other Python exception, such as a failed `assert`.
pub data Failure : Type 0 where
  upstream : UpstreamProblem → Failure
  problem : ManagerProblem → Failure
  exception : Failure

pub data Result {ℓ} (A : Type ℓ) : Type ℓ where
  ok : A → Result A
  raise : Failure → Result A

infixl 5 ◌>>=◌
abbrev pub ◌>>=◌ {ℓ κ} : {A : Type ℓ} {B : Type κ} → Result A → (A → Result B) → Result B
ok a >>= f = f a
raise e >>= f = raise e

-- A statement of what a call returns, if it returns.
abbrev pub Holds {ℓ κ} : {A : Type ℓ} → (A → Type κ) → Result A → Type κ
Holds P (ok a) = P a
Holds P (raise e) = Unit

pub Holds-bind {ℓ κ μ} :
    {A : Type ℓ} {B : Type κ} (P : B → Type μ) (m : Result A) (f : A → Result B)
    → ((a : A) → Holds P (f a))
    → Holds P (m >>= f)
Holds-bind P (ok a) f h = h a
Holds-bind P (raise e) f h = tt

pub Holds-if {ℓ κ} :
    {A : Type ℓ} (P : A → Type κ) (b : Bool) (x y : Result A)
    → Holds P x
    → Holds P y
    → Holds P (if b then x else y)
Holds-if P true x y hx hy = hx
Holds-if P false x y hx hy = hy

value_or {ℓ} : {A : Type ℓ} → A → Result A → A
value_or d (ok a) = a
value_or d (raise e) = d

pub ok-injective {ℓ} : {A : Type ℓ} {a b : A} → ok a ≡ ok b → a ≡ b
unfolding value_or
ok-injective {a} h = ap (value_or a) h

pub Result-cases {ℓ} :
    {A : Type ℓ} (r : Result A) → ((a : A) × (r ≡ ok a)) ⊎ ((e : Failure) × (r ≡ raise e))
Result-cases (ok a) = inl (a, refl)
Result-cases (raise e) = inr (e, refl)

pub Holds-ok {ℓ κ} :
    {A : Type ℓ} (P : A → Type κ) (r : Result A) (a : A) → r ≡ ok a → Holds P r → P a
Holds-ok P (ok b) a e h = subst P (ok-injective e) h
Holds-ok P (raise x) a e h = absurd (cc)

pub Holds-then {ℓ κ μ ν} :
    {A : Type ℓ} {B : Type κ} (Q : A → Type μ) (P : B → Type ν) (m : Result A) (f : A → Result B)
    → Holds Q m
    → ((a : A) → Q a → Holds P (f a))
    → Holds P (m >>= f)
Holds-then Q P (ok a) f q h = h a q
Holds-then Q P (raise e) f q h = tt

-- Goes on with what a step returned, or raises with the state `s` that is committed so far.
abbrev pub proceed {ℓ κ μ} :
    {A : Type ℓ} {B : Type κ} {S : Type μ} → Result A → S → (A → Result B × S) → Result B × S
proceed (ok a) s f = f a
proceed (raise e) s f = (raise e, s)

-- What returned has gone through each of its steps.
pub proceed_inv {ℓ κ μ} :
    {A : Type ℓ} {B : Type κ} {S : Type μ}
    → (r : Result A) (s : S) (f : A → Result B × S) (b : B) (s' : S) → proceed r s f ≡ (ok b, s')
    → (a : A) × (r ≡ ok a) × (f a ≡ (ok b, s'))
proceed_inv (ok a) s f b s' h = (a, refl, h)
proceed_inv (raise e) s f b s' h = absurd (ground arith)
