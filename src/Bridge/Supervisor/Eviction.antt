-- ===== src/Bridge/Supervisor/Eviction.antt =====
-- Which processes a start leaves alone.
use pi_opensandbox_runner.Base.{
  ℕ, ◌≡◌, refl, ◌∙◌, sym, ap, true, false, none, some, arith, ◌==◌, Bool-cases, Option-cases, inl,
  inr, eq_of_==,
}
use pi_opensandbox_runner.Base.Table.{get, earliest-holds}
use pi_opensandbox_runner.Base.Rows.{Unique}
use pi_opensandbox_runner.Bridge.Problem.{proceed_state, Result-cases}
use pi_opensandbox_runner.Bridge.Catalog.{SessionRecord}
use pi_opensandbox_runner.Bridge.Journal.{Envelope}
use pi_opensandbox_runner.Bridge.Supervisor.{
  Limits, Config, Process, World, Answers, session_of, is_idle, active, set_status, pop_process,
  new_process, reserve_capacity, start_process, get_or_start,
}
use pi_opensandbox_runner.Bridge.Supervisor.Processes.{get-remove_ne, put_process-get_ne}
use pi_opensandbox_runner.Bridge.Supervisor.Start.{
  oldest_idle-active, reserve_capacity-cases, evict-processes, enter_process-processes,
}

module _ (limits : Limits) (size : Envelope → ℕ) where
  reserve_capacity-streaming :
      (now : ℕ) (w : World) (k : ℕ) (p : Process)
      → Unique session_of w.processes
      → get session_of k w.processes ≡ some p
      → p.is_streaming ≡ true
      → get session_of k (reserve_capacity limits size now w).1.processes ≡ some p
  unfolding pop_process
  reserve_capacity-streaming now w k p u g s = elim (reserve_capacity-cases limits size now w) [
    | inl (e, _) ↦ rw e g
    | inr (inl (e, _)) ↦ rw e g
    | inr (inr (q, o, e)) ↦
        let (_, live, here) = oldest_idle-active limits size w.processes q u o in
        let idle = earliest-holds (λ q. q.last_activity) is_idle w.processes q o in
        let other : (q.session == k) ≡ false = elim (Bool-cases (q.session == k)) [
          | inr n ↦ n
          | inl y ↦
              let same =
                sym (ap (λ j. get session_of j w.processes) (eq_of_== q.session k y)) ∙ here in
              absurd (ground (arith, same, g, s, idle))
        ] in
        rw (e, evict-processes limits size now w q u o)
          (get-remove_ne session_of k q.session w.processes other ∙ g)
  ]

  start_process-get_ne :
      (config : Config) (r : SessionRecord) (answers : Answers) (now : ℕ) (w : World) (k : ℕ)
      → (r.id == k) ≡ false
      → get session_of k (start_process limits size config r answers now w).1.processes
        ≡ get session_of k w.processes
  unfolding start_process new_process
  start_process-get_ne config r answers now w k n = elim (Result-cases answers.started) [
    | inr (e, h) ↦ rw (h, start_process) refl
    | inl (streaming, h) ↦
        let p = new_process r config streaming w.generation now in
        let starting = set_status r.id "starting" none now w in
        rw (h, start_process, enter_process-processes limits size p answers now starting)
          (put_process-get_ne p k w.processes n)
  ]

  -- Starting the process of a session leaves the entry of another session whose turn is running as it is,
  -- whatever is stopped to make place and whatever is answered.
  pub get_or_start-streaming :
      (config : Config) (r : SessionRecord) (answers : Answers) (now : ℕ) (w : World) (k : ℕ)
      (p : Process)
      → Unique session_of w.processes
      → get session_of k w.processes ≡ some p
      → p.is_streaming ≡ true
      → (r.id == k) ≡ false
      → get session_of k (get_or_start limits size config r answers now w).1.processes ≡ some p
  unfolding get_or_start
  get_or_start-streaming config r answers now w k p u g s n =
      elim (Option-cases (active r.id w.processes)) [
        | inr (q, e) ↦ rw (e, get_or_start) g
        | inl e ↦
            let kept = reserve_capacity-streaming now w k p u g s in
            let o = reserve_capacity limits size now w in
            rw (e, get_or_start)
              (proceed_state (λ (v : World). get session_of k v.processes ≡ some p) o.0 o.1
                (λ _. start_process limits size config r answers now o.1) kept
                (λ a h. start_process-get_ne config r answers now o.1 k n ∙ kept))
      ]
