-- ===== src/Manager/Monitor/Checks.antt =====
-- What a check of `SandboxRecoveryMonitor` leaves.
use pi_opensandbox_runner.Base.{
  ℕ, String, ◌≡◌, refl, ◌∙◌, Bool, true, false, not, Option, none, some, List, [], ◌∷◌, ◌==◌, arith,
  map,
}
use pi_opensandbox_runner.Base.Select.{select}
use pi_opensandbox_runner.Manager.Problem.{upstream, problem, exception, Result, ok, raise}
use pi_opensandbox_runner.Manager.Models.{instance_id}
use pi_opensandbox_runner.Manager.Upstream.{Sandbox, Upstream}
use pi_opensandbox_runner.Manager.Load.{given}
use pi_opensandbox_runner.Manager.Exec.{
  Exec, St, returned, pure, reads, call, catch, ◌>>=◌, next, handle_outcome,
}
use pi_opensandbox_runner.Manager.Monitor.{
  is_candidate, sandbox_of, is_running, on_unavailable, is_lost, recover_if, check_sandbox,
  check_all, check_once,
}

-- An answer that shows no loss: the sandbox runs, or the control plane fails but for a 404.
abbrev shows_no_loss : Result Sandbox → Bool
shows_no_loss (ok sandbox) = is_running sandbox
shows_no_loss (raise (upstream p)) = not (p.status_code == 404)
shows_no_loss (raise e) = false

module _ (up : Upstream) (new_id : ℕ → ℕ)
    (healthy : (id : String) (w : up.World) → shows_no_loss (up.get_sandbox id w).0 ≡ true) where
  open up use {World}

  -- `m` returns `a` and leaves the database as it is.
  abbrev Quiet : {A : Type 0} → A → Exec World A → Type 0
  Quiet a m = (s : St World) → (s' : St World) × (m s ≡ (returned a, s')) × (s'.db ≡ s.db)

  is_lost-Quiet : (sandbox_id : String) → Quiet false (is_lost up new_id sandbox_id)
  unfolding is_lost on_unavailable catch handle_outcome call ◌>>=◌ next pure
  is_lost-Quiet sandbox_id s = by_answer (up.get_sandbox sandbox_id s.world) refl
    where
      by_answer :
          (r : Result Sandbox × World)
          → up.get_sandbox sandbox_id s.world ≡ r
          → (s' : St World) × (is_lost up new_id sandbox_id s ≡ (returned false, s'))
            × (s'.db ≡ s.db)
      by_answer (ok sandbox, w) e =
          (record s { world = w }, ground (arith, e, healthy sandbox_id s.world), refl)
      by_answer (raise (upstream p), w) e =
          (record s { world = w }, ground (arith, e, healthy sandbox_id s.world), refl)
      by_answer (raise (problem p), w) e = absurd (ground (arith, e, healthy sandbox_id s.world))
      by_answer (raise exception, w) e = absurd (ground (arith, e, healthy sandbox_id s.world))

  check_sandbox-Quiet :
      (id : ℕ) (sandbox_id : Option String) → Quiet 0 (check_sandbox up new_id id sandbox_id)
  unfolding check_sandbox recover_if ◌>>=◌ next pure
  check_sandbox-Quiet id none s = (s, refl, refl)
  check_sandbox-Quiet id (some sandbox_id) s =
      let (s', e, same) = is_lost-Quiet sandbox_id s in (s', rw e refl, same)

  check_all-Quiet : (ids : List ℕ) → Quiet 0 (check_all up new_id ids)
  unfolding check_all ◌>>=◌ next pure reads
  check_all-Quiet [] s = (s, refl, refl)
  check_all-Quiet (id ∷ ids) s =
      let (s₁, e₁, same₁) = check_sandbox-Quiet id (given (sandbox_of id s.db)) s in
      let (s₂, e₂, same₂) = check_all-Quiet ids s₁ in (s₂, rw (e₁, e₂) refl, same₂ ∙ same₁)

  -- Where OpenSandbox answers for every sandbox that it runs, or fails with any status but 404, a
  -- check of all ready instances returns that it queued nothing, and leaves the database as it was.
  pub check_once_healthy :
      (s : St World)
      → (s' : St World) × (check_once up new_id s ≡ (returned 0, s')) × (s'.db ≡ s.db)
  unfolding check_once ◌>>=◌ next reads
  check_once_healthy s = check_all-Quiet (map instance_id (select is_candidate s.db.instances)) s
