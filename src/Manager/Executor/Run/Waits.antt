-- ===== src/Manager/Executor/Run/Waits.antt =====
-- The two polling loops of a provision end: the fuel that they are given is enough.
use pi_opensandbox_runner.Base.{
  ℕ, zero, suc, ◌+◌, ◌<◌, ◌≤◌, String, ◌≡◌, refl, Bool, true, false, leb, arith,
}
use pi_opensandbox_runner.Manager.Problem.{Result, ok, raise}
use pi_opensandbox_runner.Manager.Crypto.{CredentialCipher}
use pi_opensandbox_runner.Manager.Models.{Db}
use pi_opensandbox_runner.Manager.Upstream.{Sandbox, Upstream}
use pi_opensandbox_runner.Manager.Exec.{
  Exec, St, outcome_of, pure, throw, asks, call, next, ◌>>=◌, Final, Ends,
}
use pi_opensandbox_runner.Manager.Executor.Run.{
  on_poll, on_ready, poll_sandbox, Poll, arrived, dead, late, again, pause, poll_running,
  poll_bridge, wait_running, wait_bridge,
}

module _ (up : Upstream) (cipher : CredentialCipher) (token_hash : String → String) (timeout : ℕ)
    (P : Db → Type 0) where
  open up use {World}

  -- What the rounds after this one get: fuel, and a later clock.
  abbrev Goes : ℕ → ℕ → Exec World (Unit {0}) → Type 0
  Goes fuel deadline rest =
      (t : St World)
      → 1 ≤ fuel
      → deadline < fuel + up.monotonic t.world
      → P t.db
      → Final P P (rest t)

  on_poll_ends :
      (rest : Exec World (Unit {0})) (fuel deadline : ℕ) (state : String) (s : St World)
      → Goes fuel deadline rest
      → deadline < suc fuel + up.monotonic s.world
      → P s.db
      → (r : Poll) → poll_sandbox state (leb deadline (up.monotonic s.world)) ≡ r
      → Final P P (on_poll up cipher token_hash timeout rest r s)
  unfolding on_poll pause pure throw call ◌>>=◌ next
  on_poll_ends rest fuel deadline state s goes h p arrived e = p
  on_poll_ends rest fuel deadline state s goes h p dead e = p
  on_poll_ends rest fuel deadline state s goes h p late e = p
  on_poll_ends rest fuel deadline state s goes h p again e =
      let waits : up.monotonic s.world < deadline = unfold poll_sandbox in ground arith in
      goes (record s { world = up.sleep s.world }) (omega arith)
        (omega (arith, up.sleep_lasts s.world)) p

  -- The end of a round, from the answer of the sandbox service.
  answered_ends :
      (rest : Exec World (Unit {0})) (fuel deadline : ℕ) (t : St World)
      → Goes fuel deadline rest
      → deadline < suc fuel + up.monotonic t.world
      → P t.db
      → (r : Result Sandbox)
      → Final P P (
          next
            (λ sandbox. asks up.monotonic >>= λ now.
              on_poll up cipher token_hash timeout rest
                (poll_sandbox sandbox.state (leb deadline now)))
            (outcome_of r, t))
  unfolding ◌>>=◌ asks next
  answered_ends rest fuel deadline t goes h p (raise e) = p
  answered_ends rest fuel deadline t goes h p (ok sandbox) =
      on_poll_ends rest fuel deadline sandbox.state t goes h p _ refl

  poll_running_ends :
      (fuel deadline : ℕ) (id : String)
      → Goes fuel deadline (poll_running up cipher token_hash timeout fuel deadline id)
  unfolding poll_running ◌>>=◌ call
  poll_running_ends zero deadline id s f h p = absurd (omega arith)
  poll_running_ends (suc fuel) deadline id s f h p =
      answered_ends (λ s. poll_running up cipher token_hash timeout fuel deadline id s) fuel
        deadline (record s { world = (up.get_sandbox id s.world).1 })
        (poll_running_ends fuel deadline id) (omega (arith, up.get_sandbox_monotonic id s.world)) p
        (up.get_sandbox id s.world).0

  -- Waiting for a sandbox ends, by success, by failure or at the deadline.
  pub wait_running-Ends : (id : String) → Ends P P (wait_running up cipher token_hash timeout id)
  unfolding wait_running ◌>>=◌ asks next
  wait_running-Ends id = record {
    at = λ s p.
        poll_running_ends (suc timeout) (up.monotonic s.world + timeout) id s (omega arith)
          (omega arith) p;
  }

  on_ready_ends :
      (rest : Exec World (Unit {0})) (fuel deadline : ℕ) (s : St World)
      → Goes fuel deadline rest
      → deadline < suc fuel + up.monotonic s.world
      → P s.db
      → (ready expired : Bool) → leb deadline (up.monotonic s.world) ≡ expired
      → Final P P (on_ready up cipher token_hash timeout rest ready expired s)
  unfolding on_ready pause pure throw call ◌>>=◌ next
  on_ready_ends rest fuel deadline s goes h p true expired e = p
  on_ready_ends rest fuel deadline s goes h p false true e = p
  on_ready_ends rest fuel deadline s goes h p false false e =
      let waits : up.monotonic s.world < deadline = ground arith in
      goes (record s { world = up.sleep s.world }) (omega arith)
        (omega (arith, up.sleep_lasts s.world)) p

  poll_bridge_ends :
      (fuel deadline : ℕ) (url token : String)
      → Goes fuel deadline (poll_bridge up cipher token_hash timeout fuel deadline url token)
  unfolding poll_bridge ◌>>=◌ call asks next
  poll_bridge_ends zero deadline url token s f h p = absurd (omega arith)
  poll_bridge_ends (suc fuel) deadline url token s f h p =
      on_ready_ends (λ s. poll_bridge up cipher token_hash timeout fuel deadline url token s) fuel
        deadline (record s { world = (up.bridge_ready url token s.world).1 })
        (poll_bridge_ends fuel deadline url token)
        (omega (arith, up.bridge_ready_monotonic url token s.world)) p
        (up.bridge_ready url token s.world).0 _ refl

  -- So does waiting for the bridge.
  pub wait_bridge-Ends :
      (url token : String) → Ends P P (wait_bridge up cipher token_hash timeout url token)
  unfolding wait_bridge ◌>>=◌ asks next
  wait_bridge-Ends url token = record {
    at = λ s p.
        poll_bridge_ends (suc timeout) (up.monotonic s.world + timeout) url token s (omega arith)
          (omega arith) p;
  }
