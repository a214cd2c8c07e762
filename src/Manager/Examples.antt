-- ===== src/Manager/Examples.antt =====
-- Test data: a small database and concrete upstream systems, on which the results are applied.
mod Requests
mod Execution
mod Terminals
mod Sessions
mod Catalog
mod Security
use pi_opensandbox_runner.Base.{
  ℕ, ◌+◌, ◌≤◌, ◌<◌, String, ◌≡◌, refl, Bool, true, false, Option, none, some, List, [], ◌∷◌, arith,
  str_eq, ◌==◌, leb, All,
}
use pi_opensandbox_runner.Base.Table.{find, get, count, remove, modify, latest, earliest}
use pi_opensandbox_runner.Base.Rows.{Unique}
use pi_opensandbox_runner.Base.Select.{select}
use pi_opensandbox_runner.Manager.Problem.{
  Result, ok, raise, problem, manager_problem, ManagerProblem, is_retryable,
}
use pi_opensandbox_runner.Manager.Crypto.{Fernet, CredentialCipher, encrypt, decrypt}
use pi_opensandbox_runner.Manager.Models.{
  Kind, provision, stop, OperationStatus, InstanceState, CatalogState, SessionState, TurnStatus,
  TerminalState, ModelDeployment, RunnerPolicy, RunnerInstance, ManagerOperation, SessionBinding,
  TurnBinding, TerminalBinding, TerminalTicket, Db, instance_id, operation_id, session_id, turn_id,
  terminal_id,
}
use pi_opensandbox_runner.Manager.Api.{Principal, BridgeConnection}
use pi_opensandbox_runner.Manager.Upstream.{Upstream}
use pi_opensandbox_runner.Manager.Operations.{
  Fresh, ensure_instance, published_policy, new_operation, enqueue_instance_operation, active_on,
  enqueue_sandbox_recovery, mark_operation_failed, join_or_queue,
}
use pi_opensandbox_runner.Manager.Operations.OneActive.{
  OneActive, ensure_instance-OneActive, enqueue_instance_operation-OneActive,
  enqueue_sandbox_recovery-OneActive, mark_operation_failed-OneActive,
}
use pi_opensandbox_runner.Manager.Operations.Idempotent.{ensure_instance_repeated}

abbrev pub library : Fernet
library = record {
  accepts = λ key. true;
  encrypt = λ key value. value;
  decrypt = λ key token. some token;
}

abbrev pub cipher : CredentialCipher
cipher = record { library = library; key = "key" }

abbrev pub model : ModelDeployment
model = record {
  id = 1;
  slug = "small";
  label = "Small";
  provider_model = "m";
  api = "openai-responses";
  secret_ref = none;
  context_window = 1000;
  max_tokens = 100;
  reasoning = false;
  input = "text" ∷ [];
  state = CatalogState.published;
  revision = 1;
}

abbrev pub policy : RunnerPolicy
policy = record {
  id = 1;
  slug = "default";
  label = "Default";
  revision = 1;
  state = CatalogState.published;
  model_slugs = "small" ∷ [];
  model_revisions = ("small", 1) ∷ [];
  default_model_slug = "small";
  cpu = "1";
  memory = "1Gi";
  max_active_sessions = 2;
  max_budget = 10;
  budget_duration = "1d";
  rpm_limit = 1;
  tpm_limit = 1;
  max_parallel_requests = 1;
  mcp_server_ids = [];
  egress_domains = [];
}

abbrev pub empty_db : Db
empty_db = record {
  models = model ∷ [];
  policies = policy ∷ [];
  instances = [];
  operations = [];
  tokens = [];
  sessions = [];
  turns = [];
  terminals = [];
  tickets = [];
}

abbrev pub digest : ℕ → String → String
digest consumer subject = "digest"

abbrev pub fresh : Fresh
fresh = record {
  instance_id = 7;
  operation_id = 8;
  bridge_secret = "b";
  litellm_secret = "l";
  now = 5;
}

abbrev pub again : Fresh
again = record {
  instance_id = 9;
  operation_id = 10;
  bridge_secret = "c";
  litellm_secret = "m";
  now = 6;
}

abbrev pub new_row : RunnerInstance
new_row = record {
  id = 7;
  consumer_id = 1;
  subject_ref = "user";
  policy_id = 1;
  state = InstanceState.provisioning;
  phase = "queued";
  sandbox_id = none;
  pi_volume_name = "pi-manager-digest-pi";
  workspace_volume_name = "pi-manager-digest-workspace";
  bridge_url = none;
  bridge_token_encrypted = some "b";
  litellm_key_encrypted = some "sk-l";
  litellm_key_alias = "pi-manager-digest";
  problem = none;
  ready_at = none;
}

abbrev pub queued : ManagerOperation
queued = record {
  id = 8;
  consumer_id = 1;
  instance_id = 7;
  kind = provision;
  status = OperationStatus.pending;
  phase = "queued";
  attempt = 0;
  next_attempt_at = none;
  problem = none;
  created_at = 5;
  finished_at = none;
}

abbrev pub queued_db : Db
queued_db = record empty_db { instances = new_row ∷ []; operations = queued ∷ [] }

abbrev pub ready_row : RunnerInstance
ready_row = record new_row {
  state = InstanceState.ready;
  phase = "ready";
  sandbox_id = some "sandbox";
  bridge_url = some "http://bridge";
}

abbrev pub session_row : SessionBinding
session_row = record {
  id = 20;
  instance_id = 7;
  external_session_id = "session";
  bridge_session_id = some "runtime";
  title = "Title";
  model_slug = "small";
  cwd = "/root/workspace";
  state = SessionState.ready;
  active_turn_id = none;
}

abbrev pub terminal_row : TerminalBinding
terminal_row = record {
  id = 30;
  instance_id = 7;
  session_binding_id = none;
  external_session_id = none;
  upstream_terminal_id = "pty";
  cwd = "/root/workspace";
  state = TerminalState.created;
  output_offset = 0;
  created_at = 5;
  connected_at = none;
  disconnected_at = none;
  expires_at = 100;
}

abbrev pub ticket_row : TerminalTicket
ticket_row = record {
  id = 31;
  terminal_id = 30;
  token_hash = "secret";
  origin = "https://app";
  expires_at = 60;
}

abbrev pub ready_db : Db
ready_db = record empty_db {
  instances = ready_row ∷ [];
  sessions = session_row ∷ [];
  terminals = terminal_row ∷ [];
  tickets = ticket_row ∷ [];
}

abbrev pub caller : Principal
caller = record {
  kind = "service";
  consumer_id = some 1;
  scopes = "sessions:write" ∷ "terminals:access" ∷ [];
}

abbrev pub bridge : BridgeConnection
bridge = record { instance_id = 7; bridge_url = "http://bridge"; bridge_token = "b" }

-- Systems that accept everything at once. The world is a clock.
abbrev pub systems : Upstream
systems = record {
  World = ℕ;
  now = λ w. w;
  monotonic = λ w. w;
  sleep = λ w. w + 1;
  ensure_mcp_servers_exist = λ _ w. (ok tt, w);
  ensure_key = λ _ w. (ok tt, w);
  delete_key = λ _ w. (ok tt, w);
  get_sandbox = λ _ w. (ok (record { state = "running"; token_hash = none }), w);
  delete_sandbox = λ _ w. (ok tt, w);
  find_by_metadata = λ _ w. (ok none, w);
  create_sandbox = λ _ w. (ok "sandbox", w);
  endpoint = λ _ w. (ok "http://bridge", w);
  bridge_ready = λ _ _ w. (true, w);
  replace_models = λ _ _ w. (ok tt, w);
  sleep_lasts = λ w. omega arith;
  get_sandbox_monotonic = λ _ w. omega arith;
  bridge_ready_monotonic = λ _ _ w. omega arith;
}
