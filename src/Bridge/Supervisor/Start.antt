-- ===== src/Bridge/Supervisor/Start.antt =====
-- What a reservation and a start do to the dictionary of processes.
use pi_opensandbox_runner.Base.{
  ℕ, ◌+◌, ◌≤◌, ◌<◌, ◌≡◌, refl, ap, true, false, Option, none, some, arith, ltb, Bool-cases,
  Option-cases, inl, inr, ◌⊎◌,
}
use pi_opensandbox_runner.Base.Table.{get, count, earliest, earliest-holds}
use pi_opensandbox_runner.Base.Rows.{Unique, get_of_earliest}
use pi_opensandbox_runner.Bridge.Problem.{
  ok, raise, proceed, proceed_state, Result-cases, capacity_exceeded,
}
use pi_opensandbox_runner.Bridge.Catalog.{SessionRecord}
use pi_opensandbox_runner.Bridge.Journal.{Envelope}
use pi_opensandbox_runner.Bridge.Supervisor.{
  Limits, Config, Process, Processes, World, Answers, session_of, is_idle, is_alive, active,
  set_status, pop_process, put_process, new_process, stop, reserve_capacity, enter_process,
  start_process, get_or_start,
}
use pi_opensandbox_runner.Bridge.Supervisor.Processes.{
  count-remove_found, put_process-count, put_process-Unique,
}
use pi_opensandbox_runner.Bridge.Supervisor.Capacity.{
  record_and-processes, stop_idle-processes, IsBounded, pop_process-IsBounded,
}

module _ (limits : Limits) (size : Envelope → ℕ) where
  -- The idle process that has been idle the longest.
  abbrev pub oldest_idle : Processes → Option Process
  oldest_idle ps = earliest (λ p. p.last_activity) is_idle ps

  -- The process that a reservation stops is the entry of its session, and alive.
  pub oldest_idle-active :
      (ps : Processes) (p : Process)
      → Unique session_of ps
      → oldest_idle ps ≡ some p
      → (active p.session ps ≡ some p) × (p.alive ≡ true) × (get session_of p.session ps ≡ some p)
  unfolding active
  oldest_idle-active ps p u e =
      let idle = earliest-holds (λ q. q.last_activity) is_idle ps p e in
      let here = get_of_earliest session_of (λ q. q.last_activity) is_idle ps p u e in
      let live : p.alive ≡ true = ground (arith, idle) in (rw (here, live, active) refl, live, here)

  -- A reservation finds a free slot, or finds all processes busy, or stops the oldest idle one.
  pub reserve_capacity-cases :
      (now : ℕ) (w : World)
      → ((reserve_capacity limits size now w ≡ (ok tt, w))
          × (count is_alive w.processes < limits.max_active_sessions))
        ⊎ (((reserve_capacity limits size now w ≡ (raise capacity_exceeded, w))
              × (oldest_idle w.processes ≡ none))
            ⊎ ((p : Process) × (oldest_idle w.processes ≡ some p)
                × (reserve_capacity limits size now w ≡ (
                    let o = stop limits size p.session false (ok tt) now w in
                    proceed o.0 o.1 (λ _. (ok tt, o.1))))))
  unfolding reserve_capacity
  reserve_capacity-cases now w =
      elim (Bool-cases (ltb (count is_alive w.processes) limits.max_active_sessions)) [
        | inl c ↦ inl (rw (c, reserve_capacity) refl, ground (arith, c))
        | inr c ↦ elim (Option-cases (oldest_idle w.processes)) [
          | inl n ↦ inr (inl (rw (c, n, reserve_capacity) refl, n))
          | inr (p, e) ↦ inr (inr (p, e, rw (c, e, reserve_capacity) refl))
        ]
      ]

  -- Stopping the oldest idle process takes its entry out.
  pub evict-processes :
      (now : ℕ) (w : World) (p : Process)
      → Unique session_of w.processes
      → oldest_idle w.processes ≡ some p
      → (let o = stop limits size p.session false (ok tt) now w in
          (proceed {B = Unit {0}} o.0 o.1 (λ _. (ok tt, o.1))).1.processes)
        ≡ pop_process p.session w.processes
  evict-processes now w p u e =
      let (found, _, _) = oldest_idle-active w.processes p u e in
      let popped = stop_idle-processes limits size p.session now w p found in
      proceed_state (λ (v : World). v.processes ≡ pop_process p.session w.processes) _ _ _ popped
        (λ a r. popped)

  -- A reservation that returns leaves a slot free.
  pub reserve_capacity-slot :
      (now : ℕ) (w : World)
      → IsBounded limits w.processes
      → (reserve_capacity limits size now w).0 ≡ ok tt
      → count is_alive (reserve_capacity limits size now w).1.processes + 1
        ≤ limits.max_active_sessions
  unfolding pop_process
  reserve_capacity-slot now w b h = elim (reserve_capacity-cases now w) [
    | inl (e, free) ↦ rw e (omega (arith, free))
    | inr (inl (e, _)) ↦ absurd (ground (arith, h, ap (λ o. o.0) e))
    | inr (inr (p, o, e)) ↦
        let (_, live, here) = oldest_idle-active w.processes p b.1 o in
        rw (e, evict-processes now w p b.1 o)
          (omega
            (arith, b.0, count-remove_found session_of is_alive p.session w.processes p here live))
  ]

  pub reserve_capacity-IsBounded :
      (now : ℕ) (w : World)
      → IsBounded limits w.processes
      → IsBounded limits (reserve_capacity limits size now w).1.processes
  reserve_capacity-IsBounded now w b = elim (reserve_capacity-cases now w) [
    | inl (e, _) ↦ rw e b
    | inr (inl (e, _)) ↦ rw e b
    | inr (inr (p, o, e)) ↦
        rw (e, evict-processes now w p b.1 o) (pop_process-IsBounded limits p.session w.processes b)
  ]

  pub enter_process-processes :
      (p : Process) (answers : Answers) (now : ℕ) (w : World)
      → (enter_process limits size p answers now w).1.processes ≡ put_process p w.processes
  unfolding enter_process
  enter_process-processes p answers now w = elim (Result-cases answers.state) [
    | inr (e, h) ↦ rw (h, enter_process) refl
    | inl (state, h) ↦
        rw (h, enter_process) (record_and-processes limits size p p.session "process_started" now _)
  ]

  start_process-IsBounded :
      (config : Config) (r : SessionRecord) (answers : Answers) (now : ℕ) (w : World)
      → count is_alive w.processes + 1 ≤ limits.max_active_sessions
      → Unique session_of w.processes
      → IsBounded limits (start_process limits size config r answers now w).1.processes
  unfolding start_process
  start_process-IsBounded config r answers now w slot u = elim (Result-cases answers.started) [
    | inr (e, h) ↦ rw (h, start_process) (omega (arith, slot), u)
    | inl (streaming, h) ↦
        let p = new_process r config streaming w.generation now in
        rw
          (
            h,
            start_process,
            enter_process-processes p answers now (set_status r.id "starting" none now w),
          )
          (omega (arith, slot, put_process-count p w.processes), put_process-Unique p w.processes u)
  ]

  pub get_or_start-IsBounded :
      (config : Config) (r : SessionRecord) (answers : Answers) (now : ℕ) (w : World)
      → IsBounded limits w.processes
      → IsBounded limits (get_or_start limits size config r answers now w).1.processes
  unfolding get_or_start
  get_or_start-IsBounded config r answers now w b = elim (Option-cases (active r.id w.processes)) [
    | inr (p, e) ↦ rw (e, get_or_start) b
    | inl e ↦
        let kept = reserve_capacity-IsBounded now w b in
        rw (e, get_or_start)
          (proceed_state (λ (v : World). IsBounded limits v.processes) _ _
            (λ _.
              start_process limits size config r answers now (reserve_capacity limits size now w).1)
            kept
            (λ a h.
              start_process-IsBounded config r answers now _ (reserve_capacity-slot now w b h)
                kept.1))
  ]
