-- ===== src/Bridge/Supervisor/Steps.antt =====
-- The supervisor as a state machine: what its operations, the events of the processes and the requests
-- do to its state, in any order.
use pi_opensandbox_runner.Base.{
  ℕ, String, ◌≡◌, refl, ap, Bool, true, false, [], ◌∷◌, arith, ◌==◌, Bool-cases, Option-cases, inl,
  inr,
}
use pi_opensandbox_runner.Base.Table.{get, modify}
use pi_opensandbox_runner.Bridge.Problem.{Result, ok, raise, proceed_state}
use pi_opensandbox_runner.Bridge.Journal.{Event, Envelope}
use pi_opensandbox_runner.Bridge.Supervisor.{
  Limits, Process, Processes, World, session_of, is_alive, note_exit, drop_exited, report_exit,
  process_exited, stop, record_event,
}
use pi_opensandbox_runner.Bridge.Supervisor.Events.{
  note_event, settle_event, enrich, find_request, count_one, report_event, on_event, stop_each,
}
use pi_opensandbox_runner.Bridge.Supervisor.Processes.{count-modify_same, count-modify_le}
use pi_opensandbox_runner.Bridge.Supervisor.Capacity.{
  record_event-processes, report_exit-processes, IsBounded, pop_process-IsBounded, stop-IsBounded,
}

settle_event-processes :
    (id : ℕ) (event : Event) (now : ℕ) (w : World)
    → (settle_event id event now w).processes ≡ w.processes
unfolding settle_event
settle_event-processes id event now w = ground arith

pub count_one-state : (o : Result ℕ × World) → (count_one o).1 ≡ o.1
count_one-state (ok n, w) = refl
count_one-state (raise e, w) = refl

module _ (limits : Limits) where
  modify-IsBounded :
      (f : Process → Process)
      → ((p : Process) → (f p).session ≡ p.session)
      → ((p : Process) → (f p).alive ≡ true → p.alive ≡ true)
      → (id : ℕ) (ps : Processes) → IsBounded limits ps
      → IsBounded limits (modify session_of id f ps)
  modify-IsBounded f s a id ps b = (
    omega (arith, b.0, count-modify_le session_of is_alive id f a ps),
    λ k. omega (
      arith,
      b.1 k,
      count-modify_same session_of (λ p. p.session == k) id f (λ p. ap (λ n. n == k) (s p)) ps,
    ),
  )

  drop_exited-IsBounded :
      (id : ℕ) (ps : Processes) → IsBounded limits ps → IsBounded limits (drop_exited id ps)
  unfolding drop_exited
  drop_exited-IsBounded id ps b = elim (Option-cases (get session_of id ps)) [
    | inl n ↦ rw (n, drop_exited) b
    | inr (p, e) ↦ elim (Bool-cases p.alive) [
      | inl c ↦ rw (e, c, drop_exited) b
      | inr c ↦ rw (e, c, drop_exited) (pop_process-IsBounded limits id ps b)
    ]
  ]

module _ (limits : Limits) (size : Envelope → ℕ) where
  pub report_event-IsBounded :
      (id : ℕ) (event : Event) (now : ℕ) (w : World)
      → IsBounded limits w.processes
      → IsBounded limits (report_event limits size id event now w).1.processes
  unfolding report_event
  report_event-IsBounded id event now w b =
      let enriched = enrich (find_request id w.requests) event in
      let o = record_event limits size id "pi" enriched now w in
      let b' : IsBounded limits o.1.processes =
        rw (record_event-processes limits size id "pi" enriched now w) b in
      proceed_state (λ (v : World). IsBounded limits v.processes) o.0 o.1
        (λ _. (ok tt, settle_event id event now o.1)) b'
        (λ a e. rw (settle_event-processes id event now o.1) b')

  pub on_event-IsBounded :
      (id : ℕ) (event : Event) (now : ℕ) (w : World)
      → IsBounded limits w.processes
      → IsBounded limits (on_event limits size id event now w).1.processes
  unfolding on_event
  on_event-IsBounded id event now w b =
      report_event-IsBounded id event now
        (record w { processes = modify session_of id (note_event event now) w.processes })
        (modify-IsBounded limits (note_event event now) (λ p. refl) (λ p h. h) id w.processes b)

  pub report_exit-IsBounded :
      (id : ℕ) (expected : Bool) (error : String) (now : ℕ) (w : World)
      → IsBounded limits w.processes
      → IsBounded limits (report_exit limits size id expected error now w).processes
  report_exit-IsBounded id expected error now w b =
      rw (report_exit-processes limits size id expected error now w)
        (drop_exited-IsBounded limits id w.processes b)

  pub process_exited-IsBounded :
      (id : ℕ) (expected : Bool) (error : String) (now : ℕ) (w : World)
      → IsBounded limits w.processes
      → IsBounded limits (process_exited limits size id expected error now w).processes
  unfolding process_exited
  process_exited-IsBounded id expected error now w b =
      report_exit-IsBounded id expected error now _ (
        modify-IsBounded limits note_exit (λ p. refl) (λ p h. absurd (ground (arith, h))) id
          w.processes b)

  pub stop_each-IsBounded :
      (p : Process → Bool) (now : ℕ) (ps : Processes) (w : World)
      → IsBounded limits w.processes
      → IsBounded limits (stop_each limits size p now ps w).1.processes
  unfolding stop_each
  stop_each-IsBounded p now [] w b = b
  stop_each-IsBounded p now (x ∷ ps) w b = elim (Bool-cases (p x)) [
    | inr c ↦ rw (c, stop_each) (stop_each-IsBounded p now ps w b)
    | inl c ↦
        let o = stop limits size x.session false (ok tt) now w in
        let b' = stop-IsBounded limits size x.session false (ok tt) now w b in
        let rest = stop_each-IsBounded p now ps o.1 b' in
        rw (c, stop_each)
          (proceed_state (λ (v : World). IsBounded limits v.processes) o.0 o.1
            (λ _. count_one (stop_each limits size p now ps o.1)) b'
            (λ a e. rw (count_one-state (stop_each limits size p now ps o.1)) rest))
  ]
