-- ===== src/Manager/Catalog/Document.antt =====
-- catalog_config.py: the configuration document, its references, and the synchronisation of the
-- database with it. The shapes of slugs, domains and numbers are checked before and not modelled.
use pi_opensandbox_runner.Base.{
  ℕ, String, Bool, true, false, not, ◌&&◌, ◌||◌, Option, none, some, List, [], ◌∷◌, map, str_eq,
  ◌==◌, if◌then◌else◌,
}
use pi_opensandbox_runner.Manager.Models.{published, ModelDeployment, RunnerPolicy, Db}
use pi_opensandbox_runner.Manager.Catalog.{Versioned, sync_rows}

pub record CatalogModel : Type 0 where
  pub slug : String
  pub label : String
  pub provider_model : String
  pub api : String
  pub secret_ref : Option String
  pub context_window : ℕ
  pub max_tokens : ℕ
  pub reasoning : Bool
  pub input : List String

pub record CatalogPolicy : Type 0 where
  pub slug : String
  pub label : String
  pub model_slugs : List String
  pub default_model_slug : String
  pub cpu : String
  pub memory : String
  pub max_active_sessions : ℕ
  pub max_budget : ℕ
  pub budget_duration : String
  pub rpm_limit : ℕ
  pub tpm_limit : ℕ
  pub max_parallel_requests : ℕ
  pub mcp_server_ids : List String
  pub egress_domains : List String

pub record CatalogDocument : Type 0 where
  pub models : List CatalogModel
  pub policies : List CatalogPolicy

abbrev pub member_of : String → List String → Bool
member_of s [] = false
member_of s (x ∷ xs) = str_eq x s || member_of s xs

abbrev pub no_repeats : List String → Bool
no_repeats [] = true
no_repeats (x ∷ xs) = not (member_of x xs) && no_repeats xs

abbrev pub all_in : List String → List String → Bool
all_in known [] = true
all_in known (x ∷ xs) = member_of x known && all_in known xs

abbrev pub policies_known : List String → List CatalogPolicy → Bool
policies_known known [] = true
policies_known known (p ∷ policies) =
    all_in known p.model_slugs
    && member_of p.default_model_slug p.model_slugs
    && policies_known known policies

-- `CatalogDocument.validate_references` returns.
unfoldable pub validate_references : CatalogDocument → Bool
validate_references document =
    let known = map (λ m. m.slug) document.models in
    no_repeats known
    && no_repeats (map (λ p. p.slug) document.policies)
    && member_of "coding-default" known
    && policies_known known document.policies

abbrev pub same_option : Option String → Option String → Bool
same_option none none = true
same_option (some s) (some t) = str_eq s t
same_option _ _ = false

abbrev pub same_bool : Bool → Bool → Bool
same_bool true b = b
same_bool false b = not b

abbrev pub same_texts : List String → List String → Bool
same_texts [] [] = true
same_texts (s ∷ ss) (t ∷ ts) = str_eq s t && same_texts ss ts
same_texts _ _ = false

abbrev pub has_version : String → ℕ → List (String × ℕ) → Bool
has_version s m [] = false
has_version s m ((t, n) ∷ ts) = (str_eq s t && m == n) || has_version s m ts

abbrev pub versions_in : List (String × ℕ) → List (String × ℕ) → Bool
versions_in [] ts = true
versions_in ((s, m) ∷ ss) ts = has_version s m ts && versions_in ss ts

-- Equality of dictionaries, whatever the order of their items.
abbrev pub same_versions : List (String × ℕ) → List (String × ℕ) → Bool
same_versions ss ts = versions_in ss ts && versions_in ts ss

-- `_same_model`
unfoldable pub same_model : ModelDeployment → CatalogModel → Bool
same_model r c =
    str_eq r.slug c.slug
    && str_eq r.label c.label
    && str_eq r.provider_model c.provider_model
    && str_eq r.api c.api
    && same_option r.secret_ref c.secret_ref
    && r.context_window == c.context_window
    && r.max_tokens == c.max_tokens
    && same_bool r.reasoning c.reasoning
    && same_texts r.input c.input

unfoldable pub make_model : ℕ → ℕ → CatalogModel → ModelDeployment
make_model id revision c = record {
  id = id;
  slug = c.slug;
  label = c.label;
  provider_model = c.provider_model;
  api = c.api;
  secret_ref = c.secret_ref;
  context_window = c.context_window;
  max_tokens = c.max_tokens;
  reasoning = c.reasoning;
  input = c.input;
  state = published;
  revision = revision;
}

-- `_same_policy`
unfoldable pub same_policy : List (String × ℕ) → RunnerPolicy → CatalogPolicy → Bool
same_policy revisions r c =
    same_texts r.model_slugs c.model_slugs
    && same_versions r.model_revisions revisions
    && same_texts r.egress_domains c.egress_domains
    && same_texts r.mcp_server_ids c.mcp_server_ids
    && str_eq r.slug c.slug
    && str_eq r.label c.label
    && str_eq r.default_model_slug c.default_model_slug
    && str_eq r.cpu c.cpu
    && str_eq r.memory c.memory
    && r.max_active_sessions == c.max_active_sessions
    && r.max_budget == c.max_budget
    && str_eq r.budget_duration c.budget_duration
    && r.rpm_limit == c.rpm_limit
    && r.tpm_limit == c.tpm_limit
    && r.max_parallel_requests == c.max_parallel_requests

unfoldable pub make_policy : List (String × ℕ) → ℕ → ℕ → CatalogPolicy → RunnerPolicy
make_policy revisions id revision c = record {
  id = id;
  slug = c.slug;
  label = c.label;
  revision = revision;
  state = published;
  model_slugs = c.model_slugs;
  model_revisions = revisions;
  default_model_slug = c.default_model_slug;
  cpu = c.cpu;
  memory = c.memory;
  max_active_sessions = c.max_active_sessions;
  max_budget = c.max_budget;
  budget_duration = c.budget_duration;
  rpm_limit = c.rpm_limit;
  tpm_limit = c.tpm_limit;
  max_parallel_requests = c.max_parallel_requests;
  mcp_server_ids = c.mcp_server_ids;
  egress_domains = c.egress_domains;
}

-- `model_versions[slug]`; a document whose references are valid has every slug there.
abbrev pub version_of : String → List (String × ℕ) → ℕ
version_of s [] = 0
version_of s ((t, n) ∷ versions) = if str_eq t s then n else version_of s versions

abbrev pub revisions_of : List (String × ℕ) → CatalogPolicy → List (String × ℕ)
revisions_of versions c = map (λ s. (s, version_of s versions)) c.model_slugs

abbrev pub model_rows : Versioned ModelDeployment CatalogModel
model_rows = record {
  slug = λ r. r.slug;
  revision = λ r. r.revision;
  state = λ r. r.state;
  with_state = λ state r. record r { state = state };
  wanted = λ c. c.slug;
  same = same_model;
  make = make_model;
}

abbrev pub policy_rows : List (String × ℕ) → Versioned RunnerPolicy CatalogPolicy
policy_rows versions = record {
  slug = λ r. r.slug;
  revision = λ r. r.revision;
  state = λ r. r.state;
  with_state = λ state r. record r { state = state };
  wanted = λ c. c.slug;
  same = λ r c. same_policy (revisions_of versions c) r c;
  make = λ id revision c. make_policy (revisions_of versions c) id revision c;
}

-- `sync_catalog`: whether something changed, and the database.
unfoldable pub sync_catalog :
    (CatalogModel → ℕ) → (CatalogPolicy → ℕ) → CatalogDocument → Db → Bool × Db
sync_catalog model_ids policy_ids document db =
    let (models_changed, versions, models) =
      sync_rows model_rows model_ids document.models db.models in
    let (policies_changed, _, policies) =
      sync_rows (policy_rows versions) policy_ids document.policies db.policies in
    (models_changed || policies_changed, record db { models = models; policies = policies })
