-- ===== src/Bridge/Supervisor/Outside.antt =====
-- The processes that run although they were never entered in the dictionary.
use pi_opensandbox_runner.Base.{
  ℕ, ◌+◌, ◌≤◌, String, ◌≡◌, refl, ◌∙◌, ap, Bool, true, false, ◌&&◌, none, List, [], ◌∷◌, arith, bit,
  length, Bool-cases, Option-cases, inl, inr,
}
use pi_opensandbox_runner.Base.Table.{count}
use pi_opensandbox_runner.Bridge.Problem.{Result, ok, raise, proceed_state, Result-cases}
use pi_opensandbox_runner.Bridge.Catalog.{SessionRecord}
use pi_opensandbox_runner.Bridge.Journal.{Event, Envelope, append}
use pi_opensandbox_runner.Bridge.Supervisor.{
  Limits, Config, Process, Processes, World, Answers, is_alive, active, set_status, remove_one,
  record_event, record_and, report_exit, process_exited, outside_exited, finish_stop, stop,
  reserve_capacity, enter_process, new_process, start_process, get_or_start, bridge_event,
}
use pi_opensandbox_runner.Bridge.Supervisor.Events.{
  settle_event, report_event, on_event, count_one, stop_each, reap, reload_mcp_gateway, enrich,
  find_request,
}
use pi_opensandbox_runner.Bridge.Supervisor.Capacity.{stop-cases}
use pi_opensandbox_runner.Bridge.Supervisor.Start.{reserve_capacity-cases}
use pi_opensandbox_runner.Bridge.Supervisor.Steps.{count_one-state}
use pi_opensandbox_runner.Bridge.Supervisor.Reach.{
  Step, stops, starts, event_read, exits, reaps, reloads, outside_reports, outside_exits, handled,
  Reach, here, next, Reach-within_capacity,
}

remove_one-length : (id : ℕ) (ks : List ℕ) → length (remove_one id ks) ≤ length ks
unfolding remove_one
remove_one-length id [] = omega arith
remove_one-length id (k ∷ ks) = ground (arith, remove_one-length id ks)

settle_event-outside :
    (id : ℕ) (event : Event) (now : ℕ) (w : World)
    → (settle_event id event now w).outside ≡ w.outside
unfolding settle_event
settle_event-outside id event now w = ground arith

abbrev raised {ℓ} : {A : Type ℓ} → Result A → Bool
raised (ok a) = false
raised (raise e) = true

-- A start that raises although its process lives on.
abbrev pub loses : Answers → Bool
loses answers = raised answers.started && answers.lives_on

module _ (limits : Limits) (size : Envelope → ℕ) where
  record_event-outside :
      (id : ℕ) (source : String) (event : Event) (now : ℕ) (w : World)
      → (record_event limits size id source event now w).1.outside ≡ w.outside
  unfolding record_event
  record_event-outside id source event now w =
      elim (Result-cases (
        append limits.segment_bytes limits.segment_count size id source event now w.rows
          (w.journals id))) [
            | inr (f, e) ↦ rw (e, record_event) refl
            | inl (a, e) ↦ elim (Bool-cases (w.writable id)) [
              | inl c ↦ rw (e, c, record_event) refl
              | inr c ↦ rw (e, c, record_event) refl
            ]
          ]

  record_and-outside {ℓ} :
      {B : Type ℓ} (b : B) (id : ℕ) (type : String) (now : ℕ) (w : World)
      → (record_and limits size b id type now w).1.outside ≡ w.outside
  unfolding record_and
  record_and-outside b id type now w =
      let o = record_event limits size id "bridge" (bridge_event type "") now w in
      let kept = record_event-outside id "bridge" (bridge_event type "") now w in
      proceed_state (λ (v : World). v.outside ≡ w.outside) o.0 o.1 (λ _. (ok b, o.1)) kept
        (λ a e. kept)

  report_exit-outside :
      (id : ℕ) (expected : Bool) (error : String) (now : ℕ) (w : World)
      → (report_exit limits size id expected error now w).outside ≡ w.outside
  unfolding report_exit
  report_exit-outside id expected error now w = elim (Bool-cases w.closing) [
    | inl c ↦ rw (c, report_exit) refl
    | inr c ↦ rw (c, report_exit) (record_event-outside id _ _ now _)
  ]

  finish_stop-outside :
      (id now : ℕ) (w : World) → (finish_stop limits size id now w).1.outside ≡ w.outside
  unfolding finish_stop process_exited
  finish_stop-outside id now w =
      record_and-outside true id "process_stopped" now _ ∙ report_exit-outside id true "" now _

  stop-outside :
      (id : ℕ) (abort : Bool) (answer : Result (Unit {0})) (now : ℕ) (w : World)
      → (stop limits size id abort answer now w).1.outside ≡ w.outside
  stop-outside id abort answer now w = elim (stop-cases limits size id abort answer now w) [
    | inl (_, e) ↦ ap (λ o. o.1.outside) e
    | inr (inl e) ↦ ap (λ o. o.1.outside) e ∙ finish_stop-outside id now _
    | inr (inr (f, e)) ↦ ap (λ o. o.1.outside) e
  ]

  reserve_capacity-outside :
      (now : ℕ) (w : World) → (reserve_capacity limits size now w).1.outside ≡ w.outside
  reserve_capacity-outside now w = elim (reserve_capacity-cases limits size now w) [
    | inl (e, _) ↦ ap (λ o. o.1.outside) e
    | inr (inl (e, _)) ↦ ap (λ o. o.1.outside) e
    | inr (inr (p, _, e)) ↦
        let o = stop limits size p.session false (ok tt) now w in
        let kept = stop-outside p.session false (ok tt) now w in
        ap (λ x. x.1.outside) e
        ∙ proceed_state (λ (v : World). v.outside ≡ w.outside) o.0 o.1 (λ _. (ok tt, o.1)) kept
            (λ a h. kept)
  ]

  enter_process-outside :
      (p : Process) (answers : Answers) (now : ℕ) (w : World)
      → (enter_process limits size p answers now w).1.outside ≡ w.outside
  unfolding enter_process
  enter_process-outside p answers now w = elim (Result-cases answers.state) [
    | inr (e, h) ↦ rw (h, enter_process) refl
    | inl (state, h) ↦
        rw (h, enter_process) (record_and-outside p p.session "process_started" now _)
  ]

  start_process-outside :
      (config : Config) (r : SessionRecord) (answers : Answers) (now : ℕ) (w : World)
      → length (start_process limits size config r answers now w).1.outside
        ≤ length w.outside + bit (loses answers)
  unfolding start_process
  start_process-outside config r answers now w = elim (Result-cases answers.started) [
    | inl (streaming, h) ↦
        let p = new_process r config streaming w.generation now in
        rw
          (
            h,
            start_process,
            enter_process-outside p answers now (set_status r.id "starting" none now w),
          )
          (omega arith)
    | inr (e, h) ↦ elim (Bool-cases answers.lives_on) [
      | inl c ↦ rw (h, c, start_process) (omega arith)
      | inr c ↦ rw (h, c, start_process) (omega arith)
    ]
  ]

  get_or_start-outside_le :
      (config : Config) (r : SessionRecord) (answers : Answers) (now : ℕ) (w : World)
      → length (get_or_start limits size config r answers now w).1.outside
        ≤ length w.outside + bit (loses answers)
  unfolding get_or_start
  get_or_start-outside_le config r answers now w = elim (Option-cases (active r.id w.processes)) [
    | inr (p, e) ↦ rw (e, get_or_start) (omega arith)
    | inl e ↦
        let o = reserve_capacity limits size now w in
        let kept = ap length (reserve_capacity-outside now w) in
        rw (e, get_or_start)
          (proceed_state (λ (v : World). length v.outside ≤ length w.outside + bit (loses answers))
            o.0 o.1 (λ _. start_process limits size config r answers now o.1) (omega (arith, kept))
            (λ a h. omega (arith, kept, start_process-outside config r answers now o.1)))
  ]

  report_event-outside :
      (id : ℕ) (event : Event) (now : ℕ) (w : World)
      → (report_event limits size id event now w).1.outside ≡ w.outside
  unfolding report_event
  report_event-outside id event now w =
      let enriched = enrich (find_request id w.requests) event in
      let o = record_event limits size id "pi" enriched now w in
      let kept = record_event-outside id "pi" enriched now w in
      proceed_state (λ (v : World). v.outside ≡ w.outside) o.0 o.1
        (λ _. (ok tt, settle_event id event now o.1)) kept
        (λ a e. settle_event-outside id event now o.1 ∙ kept)

  stop_each-outside :
      (p : Process → Bool) (now : ℕ) (ps : Processes) (w : World)
      → (stop_each limits size p now ps w).1.outside ≡ w.outside
  unfolding stop_each
  stop_each-outside p now [] w = refl
  stop_each-outside p now (x ∷ ps) w = elim (Bool-cases (p x)) [
    | inr c ↦ rw (c, stop_each) (stop_each-outside p now ps w)
    | inl c ↦
        let o = stop limits size x.session false (ok tt) now w in
        let kept = stop-outside x.session false (ok tt) now w in
        rw (c, stop_each)
          (proceed_state (λ (v : World). v.outside ≡ w.outside) o.0 o.1
            (λ _. count_one (stop_each limits size p now ps o.1)) kept
            (λ a e.
              ap (λ (v : World). v.outside) (count_one-state (stop_each limits size p now ps o.1))
              ∙ stop_each-outside p now ps o.1
              ∙ kept))
  ]

  -- How many processes a step can leave outside the dictionary.
  abbrev lost_in : {w v : World} → Step limits size w v → ℕ
  lost_in (starts config r answers now) = bit (loses answers)
  lost_in (stops id abort answer now) = 0
  lost_in (event_read id event now) = 0
  lost_in (exits id expected error now) = 0
  lost_in (reaps now) = 0
  lost_in (reloads now) = 0
  lost_in (outside_reports id event now) = 0
  lost_in (outside_exits id expected error now) = 0
  lost_in (handled rows journals writable requests closing) = 0

  -- How many starts on the way raised although their process lived on.
  abbrev pub lost : {w v : World} → Reach limits size w v → ℕ
  lost here = 0
  lost (next r s) = lost r + lost_in s

  Step-outside :
      {w v : World} (s : Step limits size w v) → length v.outside ≤ length w.outside + lost_in s
  unfolding reap reload_mcp_gateway on_event process_exited outside_exited
  Step-outside {w} (stops id abort answer now) =
      omega (arith, ap length (stop-outside id abort answer now w))
  Step-outside {w} (starts config r answers now) = get_or_start-outside_le config r answers now w
  Step-outside {w} (event_read id event now) =
      omega (arith, ap length (report_event-outside id event now _))
  Step-outside {w} (exits id expected error now) =
      omega (arith, ap length (report_exit-outside id expected error now _))
  Step-outside {w} (reaps now) = omega (arith, ap length (stop_each-outside _ now w.processes w))
  Step-outside {w} (reloads now) = omega (
    arith,
    ap length (stop_each-outside _ now w.processes (record w { generation = w.generation + 1 })),
  )
  Step-outside {w} (outside_reports id event now) =
      omega (arith, ap length (report_event-outside id event now w))
  Step-outside {w} (outside_exits id expected error now) = omega (
    arith,
    remove_one-length id w.outside,
    ap length (report_exit-outside id expected error now _),
  )
  Step-outside (handled rows journals writable requests closing) = omega arith

  Reach-outside :
      {w v : World} (r : Reach limits size w v) → length v.outside ≤ length w.outside + lost r
  Reach-outside here = omega arith
  Reach-outside (next r s) = omega (arith, Reach-outside r, Step-outside s)

  -- Where each operation of the supervisor runs as one step, whatever the processes answer, from a state
  -- without processes: the processes that run, in the dictionary or outside it, exceed the limit by no more
  -- than the number of starts that raised although their process lived on.
  pub Reach-within_lost :
      (w v : World) (r : Reach limits size w v)
      → w.processes ≡ []
      → w.outside ≡ []
      → count is_alive v.processes + length v.outside ≤ limits.max_active_sessions + lost r
  Reach-within_lost w v r e o =
      omega (arith, (Reach-within_capacity limits size w v e r).0, Reach-outside r, ap length o)
