-- ===== src/Manager/Load.antt =====
-- service/long_tasks.py: `OperationExecutor._load`, what a run of an operation reads at its start.
use pi_opensandbox_runner.Base.{
  ℕ, String, Bool, false, not, ◌&&◌, ◌||◌, Option, none, some, List, [], ◌∷◌, str_eq, ◌==◌,
  if◌then◌else◌, length,
}
use pi_opensandbox_runner.Base.Table.{find, get}
use pi_opensandbox_runner.Manager.Problem.{
  problem, exception, Result, ok, raise, manager_problem, ◌>>=◌,
}
use pi_opensandbox_runner.Manager.Crypto.{CredentialCipher, decrypt}
use pi_opensandbox_runner.Manager.Models.{
  ModelDeployment, RunnerPolicy, Db, policy_id, instance_id, operation_id,
}
use pi_opensandbox_runner.Manager.Upstream.{ProvisionInput}

-- The value of a text column in the test `not value`: null and "" fail it.
abbrev pub given : Option String → Option String
given none = none
given (some s) = if str_eq s "" then none else some s

slug_in : String → List String → Bool
slug_in slug [] = false
slug_in slug (x ∷ xs) = str_eq x slug || slug_in slug xs

revision_of : String → List (String × ℕ) → Option ℕ
revision_of slug [] = none
revision_of slug ((s, n) ∷ rest) = if str_eq s slug then some n else revision_of slug rest

abbrev has_revision : ℕ → Option ℕ → Bool
has_revision n none = false
has_revision n (some m) = n == m

-- A model that enters `pinned_models`.
is_pinned : RunnerPolicy → ModelDeployment → Bool
unfolding slug_in revision_of
is_pinned policy m =
    slug_in m.slug policy.model_slugs
    && has_revision m.revision (revision_of m.slug policy.model_revisions)

-- The slugs of the dictionary `pinned_models`, each once.
pinned_slugs : RunnerPolicy → List ModelDeployment → List String
unfolding is_pinned slug_in
pinned_slugs policy [] = []
pinned_slugs policy (m ∷ ms) =
    let rest = pinned_slugs policy ms in
    if is_pinned policy m && not (slug_in m.slug rest) then m.slug ∷ rest else rest

-- `[pinned_models[slug] for slug in model_slugs]`; a missing key is a `KeyError`.
pinned_in_order : RunnerPolicy → List ModelDeployment → List String → Result (List ModelDeployment)
unfolding is_pinned
pinned_in_order policy models [] = ok []
pinned_in_order policy models (slug ∷ slugs) =
    let rest = pinned_in_order policy models slugs in
    elim (find (λ m. str_eq m.slug slug && is_pinned policy m) models) [
      | none ↦ raise exception
      | some m ↦ rest >>= λ ms. ok (m ∷ ms)
    ]

or_raise {ℓ} : {A : Type ℓ} → Option A → ℕ → String → Result A
or_raise none status code = raise (problem (manager_problem status code))
or_raise (some a) status code = ok a

-- The models of a policy at the revisions that it pins.
unfoldable pub load_models : RunnerPolicy → List ModelDeployment → Result (List ModelDeployment)
unfolding pinned_slugs pinned_in_order
load_models policy models =
    if length (pinned_slugs policy models) == length policy.model_slugs
    then pinned_in_order policy models policy.model_slugs
    else raise (problem (manager_problem 422 "model_policy_invalid"))

unfoldable pub load : CredentialCipher → Db → ℕ → Result ProvisionInput
unfolding or_raise load_models
load cipher db id = do
  operation ← or_raise (get operation_id id db.operations) 404 "operation_not_found"
  instance ← or_raise (get instance_id operation.instance_id db.instances) 404 "instance_not_found"
  policy ← or_raise (get policy_id instance.policy_id db.policies) 422 "policy_not_found"
  models ← load_models policy db.models
  token ← or_raise (given instance.bridge_token_encrypted) 500 "instance_credentials_missing"
  key ← or_raise (given instance.litellm_key_encrypted) 500 "instance_credentials_missing"
  bridge_token ← decrypt cipher token
  litellm_key ← decrypt cipher key
  ok (record {
    operation_id = operation.id;
    instance_id = instance.id;
    consumer_id = instance.consumer_id;
    subject_ref = instance.subject_ref;
    sandbox_id = instance.sandbox_id;
    bridge_token = bridge_token;
    litellm_key = litellm_key;
    litellm_key_alias = instance.litellm_key_alias;
    pi_volume_name = instance.pi_volume_name;
    workspace_volume_name = instance.workspace_volume_name;
    policy = policy;
    models = models;
  })
