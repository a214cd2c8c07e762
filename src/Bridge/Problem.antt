-- ===== src/Bridge/Problem.antt =====
-- app/problems.py and rpc/errors.py: what the Bridge raises. The texts of problems are not modelled.
use pi_opensandbox_runner.Base.{ℕ, String, ◌≡◌, refl, ap, arith, ◌⊎◌, inl, inr}

pub record ApiProblem : Type 0 where
  pub status_code : ℕ
  pub code : String

abbrev pub api_problem : ℕ → String → ApiProblem
api_problem status code = record { status_code = status; code = code }

-- `rpc_error` stands for `RpcError` and `RpcProcessExited`; `other` for any other exception.
pub data Failure : Type 0 where
  api : ApiProblem → Failure
  rpc_error timeout_error os_error capacity_exceeded key_error other : Failure
  cursor_expired : ℕ → Failure

pub data Result {ℓ} (A : Type ℓ) : Type ℓ where
  ok : A → Result A
  raise : Failure → Result A

infixl 5 ◌>>=◌
abbrev pub ◌>>=◌ {ℓ κ} : {A : Type ℓ} {B : Type κ} → Result A → (A → Result B) → Result B
ok a >>= f = f a
raise e >>= f = raise e

-- Goes on with what a step returned, or raises with the state `s` that is reached so far.
abbrev pub proceed {ℓ κ μ} :
    {A : Type ℓ} {B : Type κ} {S : Type μ} → Result A → S → (A → Result B × S) → Result B × S
proceed (ok a) s f = f a
proceed (raise e) s f = (raise e, s)

-- What returned has gone through each of its steps.
pub proceed_inv {ℓ κ μ} :
    {A : Type ℓ} {B : Type κ} {S : Type μ}
    → (r : Result A) (s : S) (f : A → Result B × S) (b : B) (s' : S) → proceed r s f ≡ (ok b, s')
    → (a : A) × (r ≡ ok a) × (f a ≡ (ok b, s'))
proceed_inv (ok a) s f b s' h = (a, refl, h)
proceed_inv (raise e) s f b s' h = absurd (ground arith)

-- What holds of the state in both outcomes of a step.
pub proceed_state {ℓ κ μ ν} :
    {A : Type ℓ} {B : Type κ} {S : Type μ} (P : S → Type ν) (r : Result A) (s : S)
    (f : A → Result B × S)
    → P s
    → ((a : A) → r ≡ ok a → P (f a).1)
    → P (proceed r s f).1
proceed_state P (ok a) s f h g = g a refl
proceed_state P (raise e) s f h g = h

pub Result-cases {ℓ} :
    {A : Type ℓ} (r : Result A) → ((a : A) × (r ≡ ok a)) ⊎ ((e : Failure) × (r ≡ raise e))
Result-cases (ok a) = inl (a, refl)
Result-cases (raise e) = inr (e, refl)

failure_or {ℓ} : {A : Type ℓ} → Failure → Result A → Failure
failure_or e (ok a) = e
failure_or e (raise f) = f

pub raised_inj {ℓ} : {A : Type ℓ} {e f : Failure} → Path (Result A) (raise e) (raise f) → e ≡ f
unfolding failure_or
raised_inj {e = e} h = ap (failure_or e) h

-- What raised has done so in the step itself or after it.
pub proceed_raised {ℓ κ μ} :
    {A : Type ℓ} {B : Type κ} {S : Type μ}
    → (r : Result A) (s : S) (f : A → Result B × S) (e : Failure) (s' : S)
    → proceed r s f ≡ (raise e, s')
    → ((r ≡ raise e) × (s ≡ s')) ⊎ ((a : A) × (r ≡ ok a) × (f a ≡ (raise e, s')))
proceed_raised (ok a) s f e s' h = inr (a, refl, h)
proceed_raised (raise e) s f e' s' h =
    inl (ap raise (raised_inj (ap (λ o. o.0) h)), ap (λ o. o.1) h)
