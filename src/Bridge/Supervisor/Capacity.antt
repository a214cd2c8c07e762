-- ===== src/Bridge/Supervisor/Capacity.antt =====
-- What each operation of the supervisor does to the dictionary of processes, and the bound on how many
-- of them are alive.
use pi_opensandbox_runner.Base.{
  ℕ, ◌≤◌, String, ◌≡◌, refl, ◌∙◌, ap, Bool, true, false, ◌&&◌, none, some, arith, ◌==◌, Bool-cases,
  Option-cases, inl, inr, ◌⊎◌,
}
use pi_opensandbox_runner.Base.Table.{count}
use pi_opensandbox_runner.Base.Rows.{Unique}
use pi_opensandbox_runner.Bridge.Problem.{Failure, Result, ok, raise, proceed_state, Result-cases}
use pi_opensandbox_runner.Bridge.Journal.{Event, Envelope, append}
use pi_opensandbox_runner.Bridge.Supervisor.{
  Limits, Process, Processes, World, session_of, is_alive, active, set_status, is_rpc_error,
  pop_process, record_event, record_and, report_exit, process_exited, drop_exited, bridge_event,
  finish_stop, stop,
}
use pi_opensandbox_runner.Bridge.Supervisor.Processes.{
  count-remove_le, pop_process-Unique, pop_process-drop_exited,
}

-- The bound: no more processes are alive than the limit, and a session has one process.
abbrev pub IsBounded : Limits → Processes → Type 0
IsBounded limits ps = (count is_alive ps ≤ limits.max_active_sessions) × Unique session_of ps

pub pop_process-IsBounded :
    (limits : Limits) (id : ℕ) (ps : Processes)
    → IsBounded limits ps
    → IsBounded limits (pop_process id ps)
unfolding pop_process
pop_process-IsBounded limits id ps b = (
  omega (arith, b.0, count-remove_le (λ p. p.session == id) is_alive ps),
  pop_process-Unique id ps b.1,
)

module _ (limits : Limits) (size : Envelope → ℕ) where
  -- Recording an event changes no process.
  pub record_event-processes :
      (id : ℕ) (source : String) (event : Event) (now : ℕ) (w : World)
      → (record_event limits size id source event now w).1.processes ≡ w.processes
  unfolding record_event
  record_event-processes id source event now w =
      elim (Result-cases (
        append limits.segment_bytes limits.segment_count size id source event now w.rows
          (w.journals id))) [
            | inl (a, e) ↦ elim (Bool-cases (w.writable id)) [
              | inl c ↦ rw (e, c, record_event) refl
              | inr c ↦ rw (e, c, record_event) refl
            ]
            | inr (f, e) ↦ rw (e, record_event) refl
          ]

  pub record_and-processes {ℓ} :
      {B : Type ℓ} (b : B) (id : ℕ) (type : String) (now : ℕ) (w : World)
      → (record_and limits size b id type now w).1.processes ≡ w.processes
  unfolding record_and
  record_and-processes b id type now w =
      let o = record_event limits size id "bridge" (bridge_event type "") now w in
      let kept = record_event-processes id "bridge" (bridge_event type "") now w in
      proceed_state (λ (v : World). v.processes ≡ w.processes) o.0 o.1 (λ _. (ok b, o.1)) kept
        (λ a e. kept)

  pub report_exit-processes :
      (id : ℕ) (expected : Bool) (error : String) (now : ℕ) (w : World)
      → (report_exit limits size id expected error now w).processes ≡ drop_exited id w.processes
  unfolding report_exit
  report_exit-processes id expected error now w = elim (Bool-cases w.closing) [
    | inl c ↦ rw (c, report_exit) refl
    | inr c ↦ rw (c, report_exit) (record_event-processes id _ _ now _)
  ]

  pub finish_stop-processes :
      (id now : ℕ) (w : World)
      → (finish_stop limits size id now w).1.processes ≡ pop_process id w.processes
  unfolding finish_stop process_exited
  finish_stop-processes id now w =
      record_and-processes true id "process_stopped" now _
      ∙ ap (pop_process id) (report_exit-processes id true "" now _)
      ∙ pop_process-drop_exited id w.processes

  abbrev stopping : ℕ → ℕ → World → World
  stopping id now w = set_status id "stopping" none now w

  -- A stop finds no process alive, or stops it, or raises while it waits for the turn to be aborted.
  pub stop-cases :
      (id : ℕ) (abort : Bool) (answer : Result (Unit {0})) (now : ℕ) (w : World)
      → ((active id w.processes ≡ none) × (stop limits size id abort answer now w ≡ (ok false, w)))
        ⊎ ((stop limits size id abort answer now w
              ≡ finish_stop limits size id now (stopping id now w))
            ⊎ ((e : Failure) × (stop limits size id abort answer now w
                  ≡ (raise e, stopping id now w))))
  unfolding stop
  stop-cases id abort answer now w = elim (Option-cases (active id w.processes)) [
    | inl n ↦ inl (n, rw (n, stop) refl)
    | inr (p, e) ↦ elim (Bool-cases (abort && p.is_streaming)) [
      | inr b ↦ inr (inl (rw (e, b, stop) refl))
      | inl b ↦ elim (Result-cases answer) [
        | inl (a, r) ↦ inr (inl (rw (e, b, r, stop) refl))
        | inr (f, r) ↦ elim (Bool-cases (is_rpc_error f)) [
          | inl c ↦ inr (inl (rw (e, b, r, c, stop) refl))
          | inr c ↦ inr (inr (f, rw (e, b, r, c, stop) refl))
        ]
      ]
    ]
  ]

  -- A stop ends in the entry of the session being taken out, or changes no entry.
  pub stop-processes :
      (id : ℕ) (abort : Bool) (answer : Result (Unit {0})) (now : ℕ) (w : World)
      → ((stop limits size id abort answer now w).1.processes ≡ w.processes)
        ⊎ ((stop limits size id abort answer now w).1.processes ≡ pop_process id w.processes)
  stop-processes id abort answer now w = elim (stop-cases id abort answer now w) [
    | inl (_, e) ↦ inl (ap (λ o. o.1.processes) e)
    | inr (inl e) ↦
        inr (ap (λ o. o.1.processes) e ∙ finish_stop-processes id now (stopping id now w))
    | inr (inr (f, e)) ↦ inl (ap (λ o. o.1.processes) e)
  ]

  -- A stop of a session with a process alive, which needs no abort, takes the entry out.
  pub stop_idle-processes :
      (id : ℕ) (now : ℕ) (w : World) (p : Process)
      → active id w.processes ≡ some p
      → (stop limits size id false (ok tt) now w).1.processes ≡ pop_process id w.processes
  unfolding stop
  stop_idle-processes id now w p h = rw (h, stop) (finish_stop-processes id now _)

  pub stop-IsBounded :
      (id : ℕ) (abort : Bool) (answer : Result (Unit {0})) (now : ℕ) (w : World)
      → IsBounded limits w.processes
      → IsBounded limits (stop limits size id abort answer now w).1.processes
  stop-IsBounded id abort answer now w b = elim (stop-processes id abort answer now w) [
    | inl e ↦ rw e b
    | inr e ↦ rw e (pop_process-IsBounded limits id w.processes b)
  ]
