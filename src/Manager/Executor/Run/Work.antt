-- ===== src/Manager/Executor/Run/Work.antt =====
-- The work of an operation, whatever the upstream systems answer: it ends, and it keeps or settles the
-- operation that the executor has claimed.
use pi_opensandbox_runner.Base.{ℕ, String, Bool, true, false, ◌==◌, Option, none, some}
use pi_opensandbox_runner.Manager.Problem.{Failure, upstream, problem, exception}
use pi_opensandbox_runner.Manager.Crypto.{CredentialCipher}
use pi_opensandbox_runner.Manager.Models.{Kind, provision, recovery, stop, destroy, unknown}
use pi_opensandbox_runner.Manager.Upstream.{ProvisionInput, Sandbox, Upstream}
use pi_opensandbox_runner.Manager.Exec.{
  Exec, Final, handle_outcome, St, Outcome, returned, raised, diverged, Ends, ends_rules,
  Ends-commits, Ends-catch, Ends-if, Ends-throw, asks, commits, ◌>>=◌,
}
use pi_opensandbox_runner.Manager.Executor.Run.{
  on_missing, enter_phase, delete_existing, drop_forced, keep_or_delete, check_found, check_current,
  find_lost, create_missing, obtain_sandbox, delete_given, provision_instance, stop_instance, work,
  record_failure,
}
use pi_opensandbox_runner.Manager.Executor.Run.Waits.{wait_running-Ends, wait_bridge-Ends}
use pi_opensandbox_runner.Manager.Executor.{
  set_phase, set_sandbox, finish_provision, finish_stop, stored_problem,
}
use pi_opensandbox_runner.Manager.Executor.Run.Settles.{
  Claimed, Settled, set_phase-Claimed, set_sandbox-Claimed, finish_provision-Settled,
  finish_stop-Settled, fail-Settled,
}

module _ (up : Upstream) (cipher : CredentialCipher) (token_hash : String → String) (timeout : ℕ)
    (id n : ℕ) (kind : Kind) where
  open up use {World}

  phase_works :
      (value : String)
      → Ends
          (Claimed id n kind)
          (Claimed id n kind)
          (enter_phase up cipher token_hash timeout id value)
  unfolding enter_phase
  phase_works value = Ends-commits (set_phase id value) (set_phase-Claimed id n kind value)

  store_works :
      (i : ℕ) (s : Option String)
      → Ends {W = World} (Claimed id n kind) (Claimed id n kind) (commits (set_sandbox i s))
  store_works i s = Ends-commits (set_sandbox i s) (set_sandbox-Claimed id n kind i s)

  on_missing_works :
      {A : Type 0} (m : Exec World A) (e : Failure)
      → Ends (Claimed id n kind) (Claimed id n kind) m
      → Ends (Claimed id n kind) (Claimed id n kind) (on_missing m e)
  unfolding on_missing
  on_missing_works m (upstream p) h = Ends-if (p.status_code == 404) m _ h (Ends-throw (upstream p))
  on_missing_works m (problem p) h = Ends-throw (problem p)
  on_missing_works m exception h = Ends-throw exception

  delete_existing_works :
      (s : String)
      → Ends
          (Claimed id n kind)
          (Claimed id n kind)
          (delete_existing up cipher token_hash timeout s)
  unfolding delete_existing
  delete_existing_works s = search (ends_rules, Ends-catch, on_missing_works)

  drop_forced_works :
      (item : ProvisionInput) (force : Bool) (s : Option String)
      → Ends
          (Claimed id n kind)
          (Claimed id n kind)
          (drop_forced up cipher token_hash timeout item force s)
  unfolding drop_forced
  drop_forced_works item true (some s) = search (ends_rules, store_works, delete_existing_works)
  drop_forced_works item true none = search ends_rules
  drop_forced_works item false s = search ends_rules

  keep_or_delete_works :
      (item : ProvisionInput) (s : String) (current : Sandbox)
      → Ends
          (Claimed id n kind)
          (Claimed id n kind)
          (keep_or_delete up cipher token_hash timeout item s current)
  unfolding keep_or_delete
  keep_or_delete_works item s current = search ends_rules

  check_found_works :
      (item : ProvisionInput) (s : String) (found : Option Sandbox)
      → Ends
          (Claimed id n kind)
          (Claimed id n kind)
          (check_found up cipher token_hash timeout item s found)
  unfolding check_found
  check_found_works item s none = search ends_rules
  check_found_works item s (some current) = keep_or_delete_works item s current

  check_current_works :
      (item : ProvisionInput) (s : Option String)
      → Ends
          (Claimed id n kind)
          (Claimed id n kind)
          (check_current up cipher token_hash timeout item s)
  unfolding check_current
  check_current_works item none = search ends_rules
  check_current_works item (some s) =
      search (ends_rules, Ends-catch, on_missing_works, check_found_works)

  find_lost_works :
      (item : ProvisionInput) (by_metadata : Bool) (s : Option String)
      → Ends
          (Claimed id n kind)
          (Claimed id n kind)
          (find_lost up cipher token_hash timeout item by_metadata s)
  unfolding find_lost
  find_lost_works item true none = search ends_rules
  find_lost_works item true (some s) = search ends_rules
  find_lost_works item false s = search ends_rules

  create_missing_works :
      (item : ProvisionInput) (s : Option String)
      → Ends
          (Claimed id n kind)
          (Claimed id n kind)
          (create_missing up cipher token_hash timeout item s)
  unfolding create_missing
  create_missing_works item (some s) = search ends_rules
  create_missing_works item none = search (ends_rules, store_works)

  delete_given_works :
      (s : Option String)
      → Ends (Claimed id n kind) (Claimed id n kind) (delete_given up cipher token_hash timeout s)
  unfolding delete_given
  delete_given_works none = search ends_rules
  delete_given_works (some s) = delete_existing_works s

  ruleset sandbox_rules =
      (ends_rules, drop_forced_works, check_current_works, find_lost_works, create_missing_works)

  obtain_sandbox_works :
      (item : ProvisionInput) (force : Bool)
      → Ends
          (Claimed id n kind)
          (Claimed id n kind)
          (obtain_sandbox up cipher token_hash timeout item force)
  unfolding obtain_sandbox
  obtain_sandbox_works item force = search sandbox_rules depth 12

  finish_provision-Ends :
      (url : String) (now : ℕ)
      → Ends {W = World}
          (Claimed id n kind)
          (Settled id n kind)
          (commits (finish_provision id url now))
  finish_provision-Ends url now =
      Ends-commits (finish_provision id url now) (finish_provision-Settled id n kind url now)

  finish_stop-Ends :
      (destroying : Bool) (now : ℕ)
      → Ends {W = World}
          (Claimed id n kind)
          (Settled id n kind)
          (commits (finish_stop destroying id now))
  finish_stop-Ends destroying now =
      Ends-commits (finish_stop destroying id now) (finish_stop-Settled id n kind destroying now)

  ruleset work_rules = (
    ends_rules, phase_works, obtain_sandbox_works, wait_running-Ends, wait_bridge-Ends,
    finish_provision-Ends, finish_stop-Ends, delete_given_works,
  )

  provision-Ends :
      (force : Bool)
      → Ends
          (Claimed id n kind)
          (Settled id n kind)
          (provision_instance up cipher token_hash timeout id force)
  unfolding provision_instance
  provision-Ends force = search work_rules depth 30

  stop-Ends :
      (destroying : Bool)
      → Ends
          (Claimed id n kind)
          (Settled id n kind)
          (stop_instance up cipher token_hash timeout destroying id)
  unfolding stop_instance
  stop-Ends destroying = search work_rules depth 20

  pub work-Ends :
      (k : Kind)
      → Ends (Claimed id n kind) (Settled id n kind) (work up cipher token_hash timeout k id)
  unfolding work
  work-Ends provision = provision-Ends false
  work-Ends recovery = provision-Ends true
  work-Ends stop = stop-Ends false
  work-Ends destroy = stop-Ends true
  work-Ends unknown = Ends-throw _

  -- Recording a failure returns, and settles the operation.
  abbrev pub Recorded : Outcome (Unit {0}) × St World → Type 0
  Recorded (returned a, s) = Settled id n kind s.db
  Recorded (raised e, s) = ⊥
  Recorded (diverged, s) = ⊥

  record_failure_settles :
      (e : Failure) (s : St World)
      → Claimed id n kind s.db
      → Recorded (record_failure up cipher token_hash timeout id e s)
  unfolding record_failure ◌>>=◌ asks commits
  record_failure_settles e s c = fail-Settled id n kind (stored_problem e) (up.now s.world) s.db c

  pub handled :
      (r : Outcome (Unit {0}) × St World)
      → Final (Claimed id n kind) (Settled id n kind) r
      → Recorded (handle_outcome (record_failure up cipher token_hash timeout id) r)
  unfolding handle_outcome
  handled (returned a, s) h = h
  handled (raised e, s) h = record_failure_settles e s h
  handled (diverged, s) h = absurd h
