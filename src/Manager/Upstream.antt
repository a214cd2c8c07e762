-- ===== src/Manager/Upstream.antt =====
-- What the executor and the monitor of service/long_tasks.py ask of other systems. The HTTP clients
-- of clients.py and the clocks are this interface: a call takes the state of the world outside and
-- returns its answer, or what it raises, and the next state. The laws say that `time.sleep(1)`
-- lasts a second at least and that no call turns the monotonic clock back.
use pi_opensandbox_runner.Base.{ℕ, ◌+◌, ◌≤◌, String, Bool, Option, List}
use pi_opensandbox_runner.Manager.Problem.{Result}
use pi_opensandbox_runner.Manager.Models.{RunnerPolicy, ModelDeployment}

-- What is read of a sandbox: the lower-case text of `status` or `status.state`, and the metadata
-- "pi-runner.bridge-proxy-token-sha256".
pub record Sandbox : Type 0 where
  pub state : String
  pub token_hash : Option String

-- `ProvisionInput`. Of the policy, the whole row is kept.
pub record ProvisionInput : Type 0 where
  pub operation_id : ℕ
  pub instance_id : ℕ
  pub consumer_id : ℕ
  pub subject_ref : String
  pub sandbox_id : Option String
  pub bridge_token : String
  pub litellm_key : String
  pub litellm_key_alias : String
  pub pi_volume_name : String
  pub workspace_volume_name : String
  pub policy : RunnerPolicy
  pub models : List ModelDeployment

pub record Upstream : Type 1 where
  pub World : Type 0
  pub now : World → ℕ
  pub monotonic : World → ℕ
  pub sleep : World → World
  pub ensure_mcp_servers_exist : List String → World → Result (Unit {0}) × World
  pub ensure_key : ProvisionInput → World → Result (Unit {0}) × World
  pub delete_key : String → World → Result (Unit {0}) × World
  pub get_sandbox : String → World → Result Sandbox × World
  pub delete_sandbox : String → World → Result (Unit {0}) × World
  pub find_by_metadata : ℕ → World → Result (Option String) × World
  pub create_sandbox : ProvisionInput → World → Result String × World
  pub endpoint : String → World → Result String × World
  pub bridge_ready : String → String → World → Bool × World
  pub replace_models : ProvisionInput → String → World → Result (Unit {0}) × World
  pub sleep_lasts : (w : World) → monotonic w + 1 ≤ monotonic (sleep w)
  pub get_sandbox_monotonic :
      (id : String) (w : World) → monotonic w ≤ monotonic (get_sandbox id w).1
  pub bridge_ready_monotonic :
      (url token : String) (w : World) → monotonic w ≤ monotonic (bridge_ready url token w).1
