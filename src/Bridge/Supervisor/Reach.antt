-- ===== src/Bridge/Supervisor/Reach.antt =====
-- The states that the supervisor reaches.
use pi_opensandbox_runner.Base.{
  ℕ, ◌+◌, ◌≤◌, String, ◌≡◌, refl, ◌∙◌, ap, Bool, true, false, none, some, List, [], ◌∷◌, arith,
  ◌==◌,
}
use pi_opensandbox_runner.Base.Table.{get, count}
use pi_opensandbox_runner.Bridge.Problem.{Result, ok}
use pi_opensandbox_runner.Bridge.Catalog.{SessionRecord, Sessions, set_runtime}
use pi_opensandbox_runner.Bridge.Journal.{Directory, Event, Envelope}
use pi_opensandbox_runner.Bridge.Supervisor.{
  Limits, Config, World, Answers, session_of, is_alive, set_status, put_process, new_process, stop,
  process_exited, outside_exited, remove_one, reserve_capacity, start_process, get_or_start,
}
use pi_opensandbox_runner.Bridge.Supervisor.Events.{
  report_event, on_event, reap, reload_mcp_gateway,
}
use pi_opensandbox_runner.Bridge.Supervisor.Processes.{put_process-count_new, put_process-get_ne}
use pi_opensandbox_runner.Bridge.Supervisor.Capacity.{IsBounded, stop-IsBounded}
use pi_opensandbox_runner.Bridge.Supervisor.Start.{get_or_start-IsBounded, enter_process-processes}
use pi_opensandbox_runner.Bridge.Supervisor.Steps.{
  report_event-IsBounded, report_exit-IsBounded, on_event-IsBounded, process_exited-IsBounded,
  stop_each-IsBounded,
}

module _ (limits : Limits) (size : Envelope → ℕ) where
  -- One step: an operation of the supervisor, an event or the exit of a process in the dictionary or
  -- outside it, or a change that the handlers of requests and the file system make to sessions, journals
  -- and request ids.
  pub data Step (w : World) : World → Type 0 where
    stops :
        (id : ℕ) (abort : Bool) (answer : Result (Unit {0})) (now : ℕ)
        → Step w (stop limits size id abort answer now w).1
    starts :
        (config : Config) (r : SessionRecord) (answers : Answers) (now : ℕ)
        → Step w (get_or_start limits size config r answers now w).1
    event_read : (id : ℕ) (event : Event) (now : ℕ) → Step w (on_event limits size id event now w).1
    exits :
        (id : ℕ) (expected : Bool) (error : String) (now : ℕ)
        → Step w (process_exited limits size id expected error now w)
    reaps : (now : ℕ) → Step w (reap limits size now w).1
    reloads : (now : ℕ) → Step w (reload_mcp_gateway limits size now w).1
    outside_reports :
        (id : ℕ) (event : Event) (now : ℕ) → Step w (report_event limits size id event now w).1
    outside_exits :
        (id : ℕ) (expected : Bool) (error : String) (now : ℕ)
        → Step w (outside_exited limits size id expected error now w)
    handled :
        (rows : Sessions) (journals : ℕ → Directory) (writable : ℕ → Bool)
        (requests : List (ℕ × String)) (closing : Bool)
        → Step w (record w {
          rows = rows;
          journals = journals;
          writable = writable;
          requests = requests;
          closing = closing;
        })

  pub data Reach (w : World) : World → Type 0 where
    here : Reach w w
    next : {u v : World} → Reach w u → Step u v → Reach w v

  Step-IsBounded :
      {w v : World} → IsBounded limits w.processes → Step w v → IsBounded limits v.processes
  unfolding reap reload_mcp_gateway outside_exited
  Step-IsBounded {w} b (stops id abort answer now) =
      stop-IsBounded limits size id abort answer now w b
  Step-IsBounded {w} b (starts config r answers now) =
      get_or_start-IsBounded limits size config r answers now w b
  Step-IsBounded {w} b (event_read id event now) = on_event-IsBounded limits size id event now w b
  Step-IsBounded {w} b (exits id expected error now) =
      process_exited-IsBounded limits size id expected error now w b
  Step-IsBounded {w} b (reaps now) = stop_each-IsBounded limits size _ now w.processes w b
  Step-IsBounded {w} b (reloads now) =
      stop_each-IsBounded limits size _ now w.processes (record w { generation = w.generation + 1 })
        b
  Step-IsBounded {w} b (outside_reports id event now) =
      report_event-IsBounded limits size id event now w b
  Step-IsBounded {w} b (outside_exits id expected error now) =
      report_exit-IsBounded limits size id expected error now
        (record w { outside = remove_one id w.outside }) b
  Step-IsBounded b (handled rows journals writable requests closing) = b

  Reach-IsBounded :
      {w v : World} → IsBounded limits w.processes → Reach w v → IsBounded limits v.processes
  Reach-IsBounded b here = b
  Reach-IsBounded b (next r s) = Step-IsBounded (Reach-IsBounded b r) s

  -- Where each operation of the supervisor runs as one step, whatever the processes answer: from a state
  -- without processes, no more processes of the dictionary than the limit are ever alive, and a session
  -- has at most one entry in it.
  pub Reach-within_capacity :
      (w v : World)
      → w.processes ≡ []
      → Reach w v
      → (count is_alive v.processes ≤ limits.max_active_sessions)
        × ((id : ℕ) → count (λ p. p.session == id) v.processes ≤ 1)
  unfolding count
  Reach-within_capacity w v e r =
      let b : IsBounded limits w.processes = rw e (omega arith, λ k. omega arith) in
      Reach-IsBounded b r

  started-processes :
      (config : Config) (r : SessionRecord) (answers : Answers) (now : ℕ) (w : World)
      → answers.started ≡ ok false
      → (start_process limits size config r answers now w).1.processes
        ≡ put_process (new_process r config false w.generation now) w.processes
  unfolding start_process
  started-processes config r answers now w h =
      rw (h, start_process)
        (enter_process-processes limits size _ answers now (set_status r.id "starting" none now w))

  reserve_free :
      (now : ℕ) (w : World)
      → count is_alive w.processes + 1 ≡ limits.max_active_sessions
      → reserve_capacity limits size now w ≡ (ok tt, w)
  unfolding reserve_capacity
  reserve_free now w c = ground (arith, c)

  -- A reservation is given up before the process is entered, so two starts of sessions without a process
  -- that both reserve the last free slot and then start their processes end above the limit.
  pub reserve_capacity-overrun :
      (config : Config) (r s : SessionRecord) (answers : Answers) (now : ℕ) (w : World)
      → count is_alive w.processes + 1 ≡ limits.max_active_sessions
      → get session_of r.id w.processes ≡ none
      → get session_of s.id w.processes ≡ none
      → (r.id == s.id) ≡ false
      → answers.started ≡ ok false
      → (let first = reserve_capacity limits size now w in
          let second = reserve_capacity limits size now first.1 in
          let one = start_process limits size config r answers now second.1 in
          let two = start_process limits size config s answers now one.1 in
          (first.0 ≡ ok tt)
          × (second.0 ≡ ok tt)
          × (count is_alive two.1.processes ≡ limits.max_active_sessions + 1))
  unfolding new_process
  reserve_capacity-overrun config r s answers now w c g h n a =
      let free = reserve_free now w c in
      let one = (start_process limits size config r answers now w).1 in
      let first = started-processes config r answers now w a in
      let second = started-processes config s answers now one a in
      let p = new_process r config false w.generation now in
      let q = new_process s config false one.generation now in
      let absent : get session_of s.id one.processes ≡ none =
        ap (get session_of s.id) first ∙ put_process-get_ne p s.id w.processes n ∙ h in
      let counted : count is_alive (start_process limits size config s answers now one).1.processes
          ≡ limits.max_active_sessions + 1 =
        omega (
          arith,
          c,
          ap (count is_alive) first,
          ap (count is_alive) second,
          put_process-count_new p w.processes g,
          put_process-count_new q one.processes absent,
        ) in
      rw (free, free) (refl, refl, counted)

  -- What a start leaves that raises though its process lives on.
  abbrev pub left_running : SessionRecord → String → ℕ → World → World
  left_running r error now w = record w {
    rows =
        set_runtime r.id "failed" (some error) none true now
          (set_runtime r.id "starting" none none true now w.rows);
    outside = r.id ∷ w.outside;
  }
