-- ===== src/Manager/Models.antt =====
-- models.py: the rows of the Manager's database. Row ids (uuid4) and consumer ids are opaque and
-- are compared for equality only, so they are numbers; instants are numbers too. A column of JSON
-- text is the value that it encodes. Columns that no modelled code reads, such as `updated_at`, are left out.
use pi_opensandbox_runner.Base.{ℕ, String, Bool, Option, List}
use pi_opensandbox_runner.Manager.Problem.{ManagerProblem}

-- `unknown` is any text outside the four kinds.
pub data Kind : Type 0 where
  provision recovery stop destroy unknown : Kind

pub data OperationStatus : Type 0 where
  pending running succeeded failed : OperationStatus

pub data InstanceState : Type 0 where
  provisioning ready stopping stopped destroying destroyed failed : InstanceState

pub data CatalogState : Type 0 where
  published superseded retired : CatalogState

pub record ModelDeployment : Type 0 where
  pub id : ℕ
  pub slug : String
  pub label : String
  pub provider_model : String
  pub api : String
  pub secret_ref : Option String
  pub context_window : ℕ
  pub max_tokens : ℕ
  pub reasoning : Bool
  pub input : List String
  pub state : CatalogState
  pub revision : ℕ

-- `max_budget` is a float; it is counted here in a fixed fraction of the currency.
pub record RunnerPolicy : Type 0 where
  pub id : ℕ
  pub slug : String
  pub label : String
  pub revision : ℕ
  pub state : CatalogState
  pub model_slugs : List String
  pub model_revisions : List (String × ℕ)
  pub default_model_slug : String
  pub cpu : String
  pub memory : String
  pub max_active_sessions : ℕ
  pub max_budget : ℕ
  pub budget_duration : String
  pub rpm_limit : ℕ
  pub tpm_limit : ℕ
  pub max_parallel_requests : ℕ
  pub mcp_server_ids : List String
  pub egress_domains : List String

pub record RunnerInstance : Type 0 where
  pub id : ℕ
  pub consumer_id : ℕ
  pub subject_ref : String
  pub policy_id : ℕ
  pub state : InstanceState
  pub phase : String
  pub sandbox_id : Option String
  pub pi_volume_name : String
  pub workspace_volume_name : String
  pub bridge_url : Option String
  pub bridge_token_encrypted : Option String
  pub litellm_key_encrypted : Option String
  pub litellm_key_alias : String
  pub problem : Option ManagerProblem
  pub ready_at : Option ℕ

pub record ManagerOperation : Type 0 where
  pub id : ℕ
  pub consumer_id : ℕ
  pub instance_id : ℕ
  pub kind : Kind
  pub status : OperationStatus
  pub phase : String
  pub attempt : ℕ
  pub next_attempt_at : Option ℕ
  pub problem : Option ManagerProblem
  pub created_at : ℕ
  pub finished_at : Option ℕ

pub data SessionState : Type 0 where
  provisioning ready running failed : SessionState

pub data TurnStatus : Type 0 where
  queued running succeeded cancelled failed : TurnStatus

pub data TerminalState : Type 0 where
  created connected detached exited closed unavailable : TerminalState

pub record ManagerToken : Type 0 where
  pub id : ℕ
  pub consumer_id : Option ℕ
  pub token_hash : String
  pub kind : String
  pub scopes : List String
  pub active : Bool

pub record SessionBinding : Type 0 where
  pub id : ℕ
  pub instance_id : ℕ
  pub external_session_id : String
  pub bridge_session_id : Option String
  pub title : String
  pub model_slug : String
  pub cwd : String
  pub state : SessionState
  pub active_turn_id : Option String

pub record TurnBinding : Type 0 where
  pub id : ℕ
  pub session_binding_id : ℕ
  pub external_turn_id : String
  pub input_text : String
  pub status : TurnStatus
  pub command_id : Option String
  pub problem : Option ManagerProblem

pub record TerminalBinding : Type 0 where
  pub id : ℕ
  pub instance_id : ℕ
  pub session_binding_id : Option ℕ
  pub external_session_id : Option String
  pub upstream_terminal_id : String
  pub cwd : String
  pub state : TerminalState
  pub output_offset : ℕ
  pub created_at : ℕ
  pub connected_at : Option ℕ
  pub disconnected_at : Option ℕ
  pub expires_at : ℕ

pub record TerminalTicket : Type 0 where
  pub id : ℕ
  pub terminal_id : ℕ
  pub token_hash : String
  pub origin : String
  pub expires_at : ℕ

pub record Db : Type 0 where
  pub models : List ModelDeployment
  pub policies : List RunnerPolicy
  pub instances : List RunnerInstance
  pub operations : List ManagerOperation
  pub tokens : List ManagerToken
  pub sessions : List SessionBinding
  pub turns : List TurnBinding
  pub terminals : List TerminalBinding
  pub tickets : List TerminalTicket

abbrev pub model_id : ModelDeployment → ℕ
model_id r = r.id

abbrev pub policy_id : RunnerPolicy → ℕ
policy_id r = r.id

abbrev pub instance_id : RunnerInstance → ℕ
instance_id r = r.id

abbrev pub operation_id : ManagerOperation → ℕ
operation_id r = r.id

abbrev pub session_id : SessionBinding → ℕ
session_id r = r.id

abbrev pub turn_id : TurnBinding → ℕ
turn_id r = r.id

abbrev pub terminal_id : TerminalBinding → ℕ
terminal_id r = r.id
