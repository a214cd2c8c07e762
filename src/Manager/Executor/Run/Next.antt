-- ===== src/Manager/Executor/Run/Next.antt =====
-- `execute_next` as a whole.
use pi_opensandbox_runner.Base.{ℕ, ◌+◌, String, ◌≡◌, refl, true, some, arith}
use pi_opensandbox_runner.Base.Table.{earliest, get-modify_self, earliest-holds}
use pi_opensandbox_runner.Base.Rows.{Unique, get_of_earliest}
use pi_opensandbox_runner.Manager.Crypto.{CredentialCipher}
use pi_opensandbox_runner.Manager.Models.{ManagerOperation, Db, operation_id}
use pi_opensandbox_runner.Manager.Operations.OneActive.{OneActive, OneActive-update}
use pi_opensandbox_runner.Manager.Upstream.{Upstream}
use pi_opensandbox_runner.Manager.Exec.{
  Outcome, returned, raised, diverged, St, asks, commits, pure, catch, next, ◌>>=◌,
}
use pi_opensandbox_runner.Manager.Executor.{claim_next, is_due, start_operation}
use pi_opensandbox_runner.Manager.Executor.Run.{work, execute_claimed, execute_next}
use pi_opensandbox_runner.Manager.Executor.Run.Settles.{Claimed, Settled}
use pi_opensandbox_runner.Manager.Executor.Run.Work.{Recorded, work-Ends, handled}

claim_next-Claimed :
    (now : ℕ) (db : Db) (o : ManagerOperation)
    → Unique operation_id db.operations
    → OneActive db.operations
    → earliest (λ o. o.created_at) (is_due now) db.operations ≡ some o
    → Claimed o.id (o.attempt + 1) o.kind (claim_next now db).1
unfolding claim_next
claim_next-Claimed now db o u one e =
    let g = get_of_earliest operation_id (λ o. o.created_at) (is_due now) db.operations o u e in
    rw (e, claim_next)
      (record {
        row = start_operation o;
        stored = get-modify_self operation_id start_operation (λ o. refl) o.id db.operations o g;
        running = refl;
        attempts = refl;
        counted = omega arith;
        same_kind = refl;
        one =
            OneActive-update db.operations o.id start_operation o g refl refl
              (λ _.
                ground (arith, earliest-holds (λ o. o.created_at) (is_due now) db.operations o e))
              one;
      })

pub claim_next-first :
    (now : ℕ) (db : Db) (o : ManagerOperation)
    → earliest (λ o. o.created_at) (is_due now) db.operations ≡ some o
    → (claim_next now db).0 ≡ some o
unfolding claim_next
claim_next-first now db o e = ground arith

module _ (up : Upstream) (cipher : CredentialCipher) (token_hash : String → String)
    (timeout : ℕ) where
  open up use {World}

  Settled-of_Recorded :
      (id n : ℕ) (kind : _) (r : Outcome (Unit {0}) × St World)
      → Recorded up cipher token_hash timeout id n kind r
      → (s : St World) × (next (λ _. pure true) r ≡ (returned true, s)) × Settled id n kind s.db
  unfolding next pure
  Settled-of_Recorded id n kind (returned a, s) h = (s, refl, h)
  Settled-of_Recorded id n kind (raised e, s) h = absurd h
  Settled-of_Recorded id n kind (diverged, s) h = absurd h

  -- Where an operation is due, a run of the executor returns true, whatever the upstream systems
  -- answer: no exception escapes and no loop goes on for ever. The first operation that was due has
  -- then succeeded, or failed for good, or is pending again with fewer attempts made than its kind
  -- allows (3 for a recovery, 8 for the others); the run counts as one attempt, and still at most
  -- one operation of a kind is active on each instance. Before the run this bound held and row ids
  -- were unique, and no other transaction commits during the run.
  pub execute_next_settles :
      (s : St World) (o : ManagerOperation)
      → Unique operation_id s.db.operations
      → OneActive s.db.operations
      → earliest (λ o. o.created_at) (is_due (up.now s.world)) s.db.operations ≡ some o
      → (s' : St World) × (execute_next up cipher token_hash timeout s ≡ (returned true, s'))
        × Settled o.id (o.attempt + 1) o.kind s'.db
  unfolding execute_next execute_claimed ◌>>=◌ next asks commits catch
  execute_next_settles s o u one e =
      let c = claim_next-Claimed (up.now s.world) s.db o u one e in
      let t : St World = record s { db = (claim_next (up.now s.world) s.db).1 } in
      let settled = Settled-of_Recorded o.id (o.attempt + 1) o.kind _ (
        handled up cipher token_hash timeout o.id (o.attempt + 1) o.kind
          (work up cipher token_hash timeout o.kind o.id t)
          ((work-Ends up cipher token_hash timeout o.id (o.attempt + 1) o.kind o.kind).at t c)) in
      rw (claim_next-first (up.now s.world) s.db o e) settled
