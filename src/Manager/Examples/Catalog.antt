-- ===== src/Manager/Examples/Catalog.antt =====
-- The catalog's results on an empty database and one with a model that is no longer configured.
use pi_opensandbox_runner.Base.{◌≡◌, refl, true, false, none, [], ◌∷◌, arith}
use pi_opensandbox_runner.Base.Table.{count}
use pi_opensandbox_runner.Manager.Models.{Db}
use pi_opensandbox_runner.Manager.Catalog.Document.{
  CatalogModel, CatalogPolicy, CatalogDocument, validate_references, sync_catalog,
}
use pi_opensandbox_runner.Manager.Catalog.Sync.{
  sync_catalog_again, published_model, published_policy_of, sync_catalog-published,
}
use pi_opensandbox_runner.Manager.Examples.{model, empty_db}

abbrev configured_model : CatalogModel
configured_model = record {
  slug = "coding-default";
  label = "Coding";
  provider_model = "p/m";
  api = "openai-completions";
  secret_ref = none;
  context_window = 1000;
  max_tokens = 100;
  reasoning = true;
  input = "text" ∷ [];
}

abbrev configured_policy : CatalogPolicy
configured_policy = record {
  slug = "standard";
  label = "Standard";
  model_slugs = "coding-default" ∷ [];
  default_model_slug = "coding-default";
  cpu = "2";
  memory = "4Gi";
  max_active_sessions = 4;
  max_budget = 5;
  budget_duration = "24h";
  rpm_limit = 30;
  tpm_limit = 1000;
  max_parallel_requests = 2;
  mcp_server_ids = [];
  egress_domains = [];
}

abbrev document : CatalogDocument
document = record { models = configured_model ∷ []; policies = configured_policy ∷ [] }

abbrev old_db : Db
old_db = record empty_db { models = record model { slug = "coding-default" } ∷ [] }

sync_catalog_again_example :
    (let synced = (sync_catalog (λ _. 20) (λ _. 21) document old_db).1 in
      sync_catalog (λ _. 30) (λ _. 31) document synced ≡ (false, synced))
unfolding validate_references
sync_catalog_again_example =
    sync_catalog_again (λ _. 20) (λ _. 30) (λ _. 21) (λ _. 31) document old_db refl

sync_catalog-published_example :
    (let synced = (sync_catalog (λ _. 20) (λ _. 21) document old_db).1 in
      (count (published_model "coding-default") synced.models ≡ 1)
      × (count (published_policy_of "coding-default") synced.policies ≡ 0))
unfolding validate_references count
sync_catalog-published_example =
    sync_catalog-published (λ _. 20) (λ _. 21) document old_db "coding-default" refl (omega arith)
      (ground arith)
