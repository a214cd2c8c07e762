-- ===== src/Manager/Executor/Run.antt =====
-- service/long_tasks.py: the work of an operation, and `execute_next`. `timeout` is
-- `settings.provision_timeout_seconds`; `token_hash` is `_bridge_token_hash`.
mod Waits
pub mod Settles
mod Work
pub mod Next
pub mod Credentials
use pi_opensandbox_runner.Base.{
  ℕ, zero, suc, ◌+◌, String, Bool, true, false, not, ◌&&◌, ◌||◌, Option, none, some, str_eq, ◌==◌,
  leb, if◌then◌else◌,
}
use pi_opensandbox_runner.Manager.Problem.{
  UpstreamProblem, Failure, upstream, problem, exception, manager_problem, retryable_problem, ok,
}
use pi_opensandbox_runner.Manager.Crypto.{CredentialCipher}
use pi_opensandbox_runner.Manager.Models.{
  Kind, provision, recovery, stop, destroy, unknown, ManagerOperation, Db,
}
use pi_opensandbox_runner.Manager.Upstream.{Sandbox, ProvisionInput, Upstream}
use pi_opensandbox_runner.Manager.Load.{load, given}
use pi_opensandbox_runner.Manager.Exec.{
  Exec, St, pure, throw, diverge, asks, reads, commits, call, catch, ◌>>=◌, ◌>>◌,
}
use pi_opensandbox_runner.Manager.Executor.{
  set_phase, set_sandbox, finish_provision, finish_stop, fail, stored_problem, claim_next,
}

-- How one round of `_wait_running` goes on.
data Poll : Type 0 where
  arrived dead late again : Poll

poll_sandbox : String → Bool → Poll
poll_sandbox state expired =
    if str_eq state "running" || str_eq state "ready"
    then arrived
    else if str_eq state "failed" || str_eq state "terminated" || str_eq state "deleted"
    then dead
    else if expired
    then late
    else again

-- `except UpstreamProblem as exc: if exc.status_code != 404: raise`
on_missing : {W A : Type 0} → Exec W A → Failure → Exec W A
on_missing m (upstream p) = if p.status_code == 404 then m else throw (upstream p)
on_missing m e = throw e

module _ (up : Upstream) (cipher : CredentialCipher) (token_hash : String → String)
    (timeout : ℕ) where
  open up use {World}

  pause : Exec World (Unit {0})
  pause s = call (λ w. (ok tt, up.sleep w)) s

  -- What a round of `_wait_running` does, with `rest` for the rounds after it.
  on_poll : Exec World (Unit {0}) → Poll → Exec World (Unit {0})
  unfolding pause
  on_poll rest arrived = pure tt
  on_poll rest dead = throw (problem (manager_problem 502 "sandbox_failed"))
  on_poll rest late = throw (problem (retryable_problem 503 "sandbox_not_ready"))
  on_poll rest again = do pause; rest

  -- The loop of `_wait_running`, with a round for each unit of fuel.
  poll_running : ℕ → ℕ → String → Exec World (Unit {0})
  unfolding on_poll poll_sandbox
  poll_running zero deadline id = diverge
  poll_running (suc fuel) deadline id = do
    sandbox ← call (up.get_sandbox id)
    now ← asks up.monotonic
    on_poll (λ s. poll_running fuel deadline id s) (poll_sandbox sandbox.state (leb deadline now))

  -- `_wait_running`: the deadline is reached within `timeout + 1` rounds.
  pub wait_running : String → Exec World (Unit {0})
  unfolding poll_running
  wait_running id = do
    started ← asks up.monotonic
    poll_running (suc timeout) (started + timeout) id

  on_ready : Exec World (Unit {0}) → Bool → Bool → Exec World (Unit {0})
  unfolding pause
  on_ready rest true expired = pure tt
  on_ready rest false true = throw (problem (retryable_problem 503 "bridge_not_ready"))
  on_ready rest false false = do pause; rest

  -- The loop on `bridge.ready()`.
  poll_bridge : ℕ → ℕ → String → String → Exec World (Unit {0})
  unfolding on_ready
  poll_bridge zero deadline url token = diverge
  poll_bridge (suc fuel) deadline url token = do
    ready ← call (λ w. let (b, w') = up.bridge_ready url token w in (ok b, w'))
    now ← asks up.monotonic
    on_ready (λ s. poll_bridge fuel deadline url token s) ready (leb deadline now)

  pub wait_bridge : String → String → Exec World (Unit {0})
  unfolding poll_bridge
  wait_bridge url token = do
    opened ← asks up.monotonic
    poll_bridge (suc timeout) (opened + timeout) url token

  enter_phase : ℕ → String → Exec World (Unit {0})
  enter_phase id value = commits (set_phase id value)

  -- Deletes a sandbox, and takes one that does not exist for deleted.
  delete_existing : String → Exec World (Unit {0})
  unfolding on_missing
  delete_existing id = catch (call (up.delete_sandbox id)) (on_missing (pure tt))

  -- `if force_recreate and sandbox_id is not None`: the old sandbox goes, and its id with it.
  drop_forced : ProvisionInput → Bool → Option String → Exec World (Option String)
  unfolding delete_existing
  drop_forced item true (some id) = do
    delete_existing id
    commits (set_sandbox item.instance_id none)
    pure none
  drop_forced item force sandbox_id = pure sandbox_id

  has_token : ProvisionInput → Option String → Bool
  has_token item none = false
  has_token item (some h) = str_eq h (token_hash item.bridge_token)

  -- A sandbox that was made with the present bridge token is kept; another one is deleted.
  keep_or_delete : ProvisionInput → String → Sandbox → Exec World (Option String)
  unfolding has_token
  keep_or_delete item id current =
      if has_token item current.token_hash
      then pure (some id)
      else do call (up.delete_sandbox id); pure none

  check_found : ProvisionInput → String → Option Sandbox → Exec World (Option String)
  unfolding keep_or_delete
  check_found item id none = pure none
  check_found item id (some current) = keep_or_delete item id current

  check_current : ProvisionInput → Option String → Exec World (Option String)
  unfolding on_missing check_found
  check_current item none = pure none
  check_current item (some id) = do
    found ←
        catch (do sandbox ← call (up.get_sandbox id); pure (some sandbox)) (on_missing (pure none))
    check_found item id found

  -- `if sandbox_id is None and recover_by_metadata`
  find_lost : ProvisionInput → Bool → Option String → Exec World (Option String)
  find_lost item true none = do
    existing ← call (up.find_by_metadata item.instance_id)
    pure (given existing)
  find_lost item by_metadata sandbox_id = pure sandbox_id

  create_missing : ProvisionInput → Option String → Exec World String
  create_missing item (some id) = pure id
  create_missing item none = do
    id ← call (up.create_sandbox item)
    commits (set_sandbox item.instance_id (some id))
    pure id

  is_none : Option String → Bool
  is_none none = true
  is_none (some id) = false

  -- The sandbox of a provision: the one that it has, one that was lost, or a new one.
  obtain_sandbox : ProvisionInput → Bool → Exec World String
  unfolding drop_forced check_current find_lost create_missing is_none
  obtain_sandbox item force = do
    kept ← drop_forced item force item.sandbox_id
    current ← check_current item kept
    known ← find_lost item (is_none item.sandbox_id && not force) current
    create_missing item known

  provision_instance : ℕ → Bool → Exec World (Unit {0})
  unfolding enter_phase obtain_sandbox wait_running wait_bridge
  provision_instance id force = do
    item ← reads (λ db. load cipher db id)
    enter_phase id "issuing_model_key"
    call (up.ensure_mcp_servers_exist item.policy.mcp_server_ids)
    call (up.ensure_key item)
    enter_phase id "creating_sandbox"
    sandbox_id ← obtain_sandbox item force
    enter_phase id "waiting_sandbox"
    wait_running sandbox_id
    bridge_url ← call (up.endpoint sandbox_id)
    enter_phase id "checking_bridge"
    wait_bridge bridge_url item.bridge_token
    enter_phase id "applying_catalog"
    call (up.replace_models item bridge_url)
    now ← asks up.now
    commits (finish_provision id bridge_url now)

  delete_given : Option String → Exec World (Unit {0})
  unfolding delete_existing
  delete_given none = pure tt
  delete_given (some id) = delete_existing id

  stop_instance : Bool → ℕ → Exec World (Unit {0})
  unfolding enter_phase delete_given
  stop_instance destroying id = do
    item ← reads (λ db. load cipher db id)
    enter_phase id "deleting_sandbox"
    delete_given (given item.sandbox_id)
    enter_phase id "revoking_model_key"
    call (up.delete_key item.litellm_key_alias)
    now ← asks up.now
    commits (finish_stop destroying id now)

  pub work : Kind → ℕ → Exec World (Unit {0})
  unfolding provision_instance stop_instance
  work provision id = provision_instance id false
  work recovery id = provision_instance id true
  work stop id = stop_instance false id
  work destroy id = stop_instance true id
  work unknown id = throw (problem (manager_problem 500 "unknown_operation"))

  pub record_failure : ℕ → Failure → Exec World (Unit {0})
  record_failure id e = do now ← asks up.now; commits (fail (stored_problem e) id now)

  pub execute_claimed : Option ManagerOperation → Exec World Bool
  unfolding work record_failure
  execute_claimed none = pure false
  execute_claimed (some o) = do catch (work o.kind o.id) (record_failure o.id); pure true

  pub execute_next : Exec World Bool
  unfolding execute_claimed
  execute_next = do now ← asks up.now; claimed ← commits (claim_next now); execute_claimed claimed
