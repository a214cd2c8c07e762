-- ===== src/Manager/Examples/Security.antt =====
-- Starts of the Manager with two tokens, and with one for both kinds.
use pi_opensandbox_runner.Base.{String, ◌≡◌, refl, []}
use pi_opensandbox_runner.Base.Table.{find}
use pi_opensandbox_runner.Manager.Problem.{Result, ok, raise, exception}
use pi_opensandbox_runner.Manager.Security.{
  Accounts, BootstrapSettings, FreshIds, bootstrap, ensure_consumer, ensure_token, commit,
  has_repeats,
}
use pi_opensandbox_runner.Manager.Security.Bootstrap.{bootstrap_again, bootstrap_same_tokens}

abbrev plain : String → String
plain s = s

abbrev settings : BootstrapSettings
settings = record { consumer_slug = "default"; service_token = "s"; admin_token = "a" }

abbrev first_ids : FreshIds
first_ids = record { consumer_id = 1; service_id = 2; admin_id = 3 }

abbrev other_ids : FreshIds
other_ids = record { consumer_id = 4; service_id = 5; admin_id = 6 }

abbrev no_accounts : Accounts
no_accounts = record { consumers = []; tokens = [] }

abbrev accounts_or : Result Accounts → Accounts
accounts_or (ok accounts) = accounts
accounts_or (raise e) = no_accounts

abbrev started : Accounts
started = accounts_or (bootstrap plain first_ids settings no_accounts)

first_start : bootstrap plain first_ids settings no_accounts ≡ ok started
unfolding bootstrap ensure_consumer ensure_token commit has_repeats find
first_start = refl

bootstrap_again_example : bootstrap plain other_ids settings started ≡ ok started
bootstrap_again_example =
    bootstrap_again plain settings first_ids other_ids no_accounts started refl first_start

abbrev one_token : BootstrapSettings
one_token = record settings { admin_token = "s" }

bootstrap_same_tokens_example : bootstrap plain first_ids one_token no_accounts ≡ raise exception
unfolding find
bootstrap_same_tokens_example =
    bootstrap_same_tokens plain one_token first_ids no_accounts refl refl refl
