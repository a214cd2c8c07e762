-- ===== src/Bridge/Supervisor.antt =====
-- rpc/supervisor.py: the Pi processes of the sessions. `processes` is the dictionary by session id, in
-- insertion order; `journals` are the directories of events. What a Pi process answers, and whether it
-- starts, is an argument. What runs under the locks runs as one step; the events and the exit of a
-- process are steps of their own. `outside` names, by session, the processes that run although they were
-- never entered in the dictionary. `writable` says for which sessions the
-- directory and the file of the journal can be made and opened.
pub mod Events
pub mod Processes
pub mod Capacity
pub mod Start
pub mod Steps
pub mod Reach
pub mod Outside
pub mod Eviction
pub mod Reload
use pi_opensandbox_runner.Base.{
  ℕ, ◌+◌, String, Bool, true, false, not, ◌&&◌, Option, none, some, List, [], ◌∷◌, ◌++◌, str_eq,
  ◌==◌, if◌then◌else◌, ltb, length, is_some,
}
use pi_opensandbox_runner.Base.Table.{get, modify, remove, earliest, count}
use pi_opensandbox_runner.Bridge.Problem.{
  Failure, Result, ok, raise, rpc_error, os_error, capacity_exceeded, key_error, proceed,
}
use pi_opensandbox_runner.Bridge.Catalog.{SessionRecord, Sessions, set_runtime}
use pi_opensandbox_runner.Bridge.Journal.{Directory, Event, Envelope, append}

-- The settings that the supervisor and the journal read.
pub record Limits : Type 0 where
  pub max_active_sessions : ℕ
  pub idle_timeout : ℕ
  pub segment_bytes : ℕ
  pub segment_count : ℕ

-- What the files with the configuration give now.
pub record Config : Type 0 where
  pub model_catalog_fingerprint : String
  pub mcp_fingerprint : String

pub record Process : Type 0 where
  pub session : ℕ
  pub alive : Bool
  pub is_streaming : Bool
  pub last_activity : ℕ
  pub system_prompt : Option String
  pub system_prompt_mode : String
  pub config : Config
  pub mcp_generation : ℕ

abbrev pub Processes : Type 0
Processes = List Process

abbrev pub session_of : Process → ℕ
session_of p = p.session

pub record World : Type 0 where
  pub rows : Sessions
  pub journals : ℕ → Directory
  pub writable : ℕ → Bool
  pub processes : Processes
  pub outside : List ℕ
  pub requests : List (ℕ × String)
  pub generation : ℕ
  pub closing : Bool

-- What `get_state` answers; data that is not a dictionary is not streaming and has no file.
pub record PiState : Type 0 where
  pub streaming : Bool
  pub session_file : Option String

-- `PiRpcProcess.idle`
abbrev pub is_idle : Process → Bool
is_idle p = p.alive && not p.is_streaming

abbrev pub is_alive : Process → Bool
is_alive p = p.alive

abbrev pub if_alive : Option Process → Option Process
if_alive none = none
if_alive (some p) = if p.alive then some p else none

-- `SessionSupervisor.active`
unfoldable pub active : ℕ → Processes → Option Process
active id processes = if_alive (get session_of id processes)

abbrev pub same_text : Option String → Option String → Bool
same_text none none = true
same_text (some s) (some t) = str_eq s t
same_text _ _ = false

abbrev is_current : Config → SessionRecord → ℕ → Process → Bool
is_current config r generation p =
    same_text p.system_prompt r.system_prompt
    && str_eq p.system_prompt_mode r.system_prompt_mode
    && str_eq p.config.model_catalog_fingerprint config.model_catalog_fingerprint
    && str_eq p.config.mcp_fingerprint config.mcp_fingerprint
    && p.mcp_generation == generation

-- `SessionSupervisor.needs_configuration_restart`
unfoldable pub needs_configuration_restart : Config → SessionRecord → World → Bool
needs_configuration_restart config r w = elim (active r.id w.processes) [
  | none ↦ false
  | some p ↦ not (is_current config r w.generation p)
]

abbrev pub set_journal : ℕ → Directory → (ℕ → Directory) → ℕ → Directory
set_journal id directory journals k = if k == id then directory else journals k

abbrev pub bridge_event : String → String → Event
bridge_event type body = record {
  event_type = type;
  request_id = none;
  command_id = none;
  delivery = none;
  body = body;
}

abbrev pub set_status : ℕ → String → Option String → ℕ → World → World
set_status id status error now w = record w {
  rows = set_runtime id status error none true now w.rows;
}

abbrev pub is_rpc_error : Failure → Bool
is_rpc_error rpc_error = true
is_rpc_error capacity_exceeded = true
is_rpc_error _ = false

-- `dict.pop(session_id, None)`
unfoldable pub pop_request : ℕ → List (ℕ × String) → List (ℕ × String)
pop_request id requests = remove (λ r. r.0 == id) requests

unfoldable pub pop_process : ℕ → Processes → Processes
pop_process id processes = remove (λ p. p.session == id) processes

-- The process has a return code.
abbrev pub note_exit : Process → Process
note_exit p = record p { alive = false }

unfoldable pub drop_exited : ℕ → Processes → Processes
unfolding pop_process
drop_exited id processes = elim (get session_of id processes) [
  | none ↦ processes
  | some p ↦ if p.alive then processes else pop_process id processes
]

unfoldable pub remove_one : ℕ → List ℕ → List ℕ
remove_one id [] = []
remove_one id (k ∷ ks) = let rest = remove_one id ks in if k == id then ks else k ∷ rest

-- `processes[id] = process`
unfoldable pub put_process : Process → Processes → Processes
put_process p [] = p ∷ []
put_process p (q ∷ processes) =
    let rest = put_process p processes in if q.session == p.session then p ∷ processes else q ∷ rest

-- `PiRpcProcess.start`, where the process is made
unfoldable pub new_process : SessionRecord → Config → Bool → ℕ → ℕ → Process
new_process r config streaming generation now = record {
  session = r.id;
  alive = true;
  is_streaming = streaming;
  last_activity = now;
  system_prompt = r.system_prompt;
  system_prompt_mode = r.system_prompt_mode;
  config = config;
  mcp_generation = generation;
}

-- What the world answers to `get_or_start`: whether `PiRpcProcess.start` returns, and if so whether the
-- process streams already; whether it lives on where the start raises, since nothing stops a subprocess
-- that was made before the first request to it failed; and what it answers to `get_state`.
pub record Answers : Type 0 where
  pub started : Result Bool
  pub lives_on : Bool
  pub state : Result PiState
  pub error : String

module _ (limits : Limits) (size : Envelope → ℕ) where
  -- `journal.append`: the number of the event is taken before its file is opened.
  unfoldable pub record_event : ℕ → String → Event → ℕ → World → Result (Unit {0}) × World
  record_event id source event now w =
      elim (append limits.segment_bytes limits.segment_count size id source event now w.rows
        (w.journals id)) [
          | raise e ↦ (raise e, w)
          | ok (_, rows, directory) ↦
              if w.writable id
              then (ok tt, record w { rows = rows; journals = set_journal id directory w.journals })
              else (raise os_error, record w { rows = rows })
        ]

  -- Records an event and returns a value.
  unfoldable pub record_and {ℓ} : {B : Type ℓ} → B → ℕ → String → ℕ → World → Result B × World
  record_and b id type now w =
      let (recorded, w') = record_event id "bridge" (bridge_event type "") now w in
      proceed recorded w' (λ _. (ok b, w'))

  -- `SessionSupervisor._process_exited`; `error` is the text with the code.
  unfoldable pub report_exit : ℕ → Bool → String → ℕ → World → World
  unfolding drop_exited
  report_exit id expected error now w =
      let popped = record w { processes = drop_exited id w.processes } in
      let status =
        set_status id (if expected then "stopped" else "failed")
          (if expected then none else some error) now popped in
      let (_, w') = record_event id "bridge" (bridge_event "process_exited" error) now status in
      if w.closing then popped else w'

  -- The exit of the process in the dictionary.
  unfoldable pub process_exited : ℕ → Bool → String → ℕ → World → World
  unfolding report_exit
  process_exited id expected error now w =
      report_exit id expected error now
        (record w { processes = modify session_of id note_exit w.processes })

  -- The exit of a process that runs outside the dictionary.
  unfoldable pub outside_exited : ℕ → Bool → String → ℕ → World → World
  unfolding report_exit
  outside_exited id expected error now w =
      report_exit id expected error now (record w { outside = remove_one id w.outside })

  -- `stop` from where the process is stopped; its reader reports the exit while `stop` waits for it.
  unfoldable pub finish_stop : ℕ → ℕ → World → Result Bool × World
  unfolding pop_request pop_process process_exited
  finish_stop id now w =
      let w' = process_exited id true "" now w in
      record_and true id "process_stopped" now (record w' {
        rows = set_runtime id "stopped" none none true now w'.rows;
        processes = pop_process id w'.processes;
        requests = pop_request id w'.requests;
      })

  -- `SessionSupervisor.stop`
  unfoldable pub stop : ℕ → Bool → Result (Unit {0}) → ℕ → World → Result Bool × World
  stop id abort answer now w = elim (active id w.processes) [
    | none ↦ (ok false, w)
    | some p ↦
        let stopping = set_status id "stopping" none now w in
        if abort && p.is_streaming
        then elim answer [
          | ok _ ↦ finish_stop id now stopping
          | raise e ↦ if is_rpc_error e then finish_stop id now stopping else (raise e, stopping)
        ]
        else finish_stop id now stopping
  ]

  -- `SessionSupervisor._reserve_capacity`
  unfoldable pub reserve_capacity : ℕ → World → Result (Unit {0}) × World
  reserve_capacity now w =
      if ltb (count is_alive w.processes) limits.max_active_sessions
      then (ok tt, w)
      else elim (earliest (λ p. p.last_activity) is_idle w.processes) [
        | none ↦ (raise capacity_exceeded, w)
        | some p ↦
            let (stopped, w') = stop p.session false (ok tt) now w in
            proceed stopped w' (λ _. (ok tt, w'))
      ]

  abbrev running_or_idle : Bool → String
  running_or_idle streaming = if streaming then "running" else "idle"

  unfoldable pub enter_process : Process → Answers → ℕ → World → Result Process × World
  enter_process p answers now w =
      let entered = record w { processes = put_process p w.processes } in
      proceed answers.state entered (λ state.
        record_and p p.session "process_started" now (record entered {
          rows =
              set_runtime p.session (running_or_idle p.is_streaming) none state.session_file true
                now w.rows;
        }))

  unfoldable pub start_process :
      Config → SessionRecord → Answers → ℕ → World → Result Process × World
  start_process config r answers now w =
      let starting = set_status r.id "starting" none now w in
      elim answers.started [
        | raise e ↦ (
          raise e,
          set_status r.id "failed" (some answers.error) now (record starting {
            outside = if answers.lives_on then r.id ∷ w.outside else w.outside;
          }),
        )
        | ok streaming ↦
            enter_process (new_process r config streaming w.generation now) answers now starting
      ]

  -- `SessionSupervisor.get_or_start`
  unfoldable pub get_or_start :
      Config → SessionRecord → Answers → ℕ → World → Result Process × World
  get_or_start config r answers now w = elim (active r.id w.processes) [
    | some p ↦ (ok p, w)
    | none ↦
        let (reserved, w') = reserve_capacity now w in
        proceed reserved w' (λ _. start_process config r answers now w')
  ]
