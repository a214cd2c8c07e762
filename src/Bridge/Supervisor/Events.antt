-- ===== src/Bridge/Supervisor/Events.antt =====
-- rpc/supervisor.py and rpc/process.py: the events and the exit of a Pi process, the reaper of idle
-- processes, and the reload of the MCP gateway.
use pi_opensandbox_runner.Base.{
  ℕ, ◌+◌, String, Bool, true, false, ◌&&◌, ◌||◌, Option, none, some, List, [], ◌∷◌, str_eq, ◌==◌,
  if◌then◌else◌, ltb,
}
use pi_opensandbox_runner.Base.Table.{modify}
use pi_opensandbox_runner.Bridge.Problem.{Result, ok, raise, proceed}
use pi_opensandbox_runner.Bridge.Journal.{Event, Envelope}
use pi_opensandbox_runner.Bridge.Supervisor.{
  Limits, Process, Processes, World, session_of, is_idle, set_status, pop_request, record_event,
  stop,
}

-- `_active_request_ids.get(id)`
unfoldable pub find_request : ℕ → List (ℕ × String) → Option String
find_request id [] = none
find_request id (r ∷ requests) = if r.0 == id then some r.1 else find_request id requests

-- `enriched`
abbrev pub enrich : Option String → Event → Event
enrich none event = event
enrich (some request) event = record event { request_id = some request }

abbrev starts_turn : Event → Bool
starts_turn event = str_eq event.event_type "agent_start"

abbrev ends_turn : Event → Bool
ends_turn event = str_eq event.event_type "agent_settled" || str_eq event.event_type "agent_end"

-- What the reader of the process changes in it.
abbrev pub note_event : Event → ℕ → Process → Process
note_event event now p = record p {
  last_activity = now;
  is_streaming =
      if starts_turn event then true else if ends_turn event then false else p.is_streaming;
}

unfoldable pub settle_event : ℕ → Event → ℕ → World → World
unfolding pop_request
settle_event id event now w =
    if starts_turn event
    then set_status id "running" none now w
    else if ends_turn event
    then record (set_status id "idle" none now w) { requests = pop_request id w.requests }
    else w

abbrev pub count_one : Result ℕ × World → Result ℕ × World
count_one (ok n, w) = (ok (n + 1), w)
count_one (raise e, w) = (raise e, w)

module _ (limits : Limits) (size : Envelope → ℕ) where
  -- `on_event` of `get_or_start`
  unfoldable pub report_event : ℕ → Event → ℕ → World → Result (Unit {0}) × World
  unfolding settle_event
  report_event id event now w =
      let enriched = enrich (find_request id w.requests) event in
      let (recorded, w') = record_event limits size id "pi" enriched now w in
      proceed recorded w' (λ _. (ok tt, settle_event id event now w'))

  -- An event of the process of a session: `_read_stdout`, then `on_event`. A process outside the
  -- dictionary only reports.
  unfoldable pub on_event : ℕ → Event → ℕ → World → Result (Unit {0}) × World
  unfolding report_event
  on_event id event now w =
      report_event id event now
        (record w { processes = modify session_of id (note_event event now) w.processes })

  -- Stops the processes that pass, one after another, until a stop raises.
  unfoldable pub stop_each : (Process → Bool) → ℕ → Processes → World → Result ℕ × World
  stop_each p now [] w = (ok 0, w)
  stop_each p now (x ∷ processes) w =
      if p x
      then (let (stopped, w') = stop limits size x.session false (ok tt) now w in
          proceed stopped w' (λ _. count_one (stop_each p now processes w')))
      else stop_each p now processes w

  -- One round of `SessionSupervisor._reaper`
  unfoldable pub reap : ℕ → World → Result ℕ × World
  reap now w =
      stop_each (λ p. is_idle p && ltb (p.last_activity + limits.idle_timeout) now) now w.processes
        w

  -- `SessionSupervisor.reload_mcp_gateway`, with the number of the restarted
  unfoldable pub reload_mcp_gateway : ℕ → World → Result ℕ × World
  reload_mcp_gateway now w =
      stop_each is_idle now w.processes (record w { generation = w.generation + 1 })
