-- ===== src/Bridge/Examples/Processes.antt =====
-- Runs of the supervisor and of prompts on small states.
use pi_opensandbox_runner.Base.{
  ℕ, ◌+◌, ◌≤◌, length, ◌≡◌, refl, Bool, true, false, none, some, List, [], ◌∷◌, arith, ◌==◌,
  Bool-cases, inl, inr,
}
use pi_opensandbox_runner.Base.Table.{get, count, modify}
use pi_opensandbox_runner.Bridge.Problem.{Result, ok, raise, rpc_error, timeout_error, os_error}
use pi_opensandbox_runner.Bridge.Journal.{find_input_accepted, append, write, target, write_line}
use pi_opensandbox_runner.Bridge.Catalog.{next_event_seq, set_runtime}
use pi_opensandbox_runner.Bridge.Journal.Log.{Holds-empty}
use pi_opensandbox_runner.Bridge.Supervisor.{
  Limits, Config, Process, World, Answers, session_of, is_alive, active, reserve_capacity,
  start_process, get_or_start, needs_configuration_restart, enter_process, new_process, put_process,
  record_and, record_event,
}
use pi_opensandbox_runner.Bridge.Supervisor.Reach.{
  here, next, starts, Reach-within_capacity, reserve_capacity-overrun,
}
use pi_opensandbox_runner.Bridge.Supervisor.Outside.{Reach-within_lost}
use pi_opensandbox_runner.Bridge.Supervisor.Eviction.{get_or_start-streaming}
use pi_opensandbox_runner.Bridge.Prompts.{
  Prompt, Replies, Accepted, auto, prompt, submit_prompt, submit, choose_model, require_session,
  require_allowed_model, restart_changed, choose_delivery, send_if, set_level, set_active_request,
}
use pi_opensandbox_runner.Bridge.Prompts.Journals.{Kept}
use pi_opensandbox_runner.Bridge.Prompts.Once.{accepted_as, submit_prompt_repeated}
use pi_opensandbox_runner.Bridge.Prompts.Problems.{submit_prompt-internal}
use pi_opensandbox_runner.Bridge.Examples.{row, rows, ten_bytes, unbroken}
use pi_opensandbox_runner.Base.Table.{remove as remove_rows}
use pi_opensandbox_runner.Bridge.Supervisor.{
  stop, finish_stop, pop_process, process_exited, report_exit, drop_exited,
}
use pi_opensandbox_runner.Bridge.Supervisor.Events.{stop_each, reload_mcp_gateway}
use pi_opensandbox_runner.Bridge.Supervisor.Reload.{reload_mcp_gateway-restarts}

abbrev pub one_slot : Limits
one_slot = record {
  max_active_sessions = 1;
  idle_timeout = 300;
  segment_bytes = 1000;
  segment_count = 8;
}

abbrev pub config : Config
config = record { model_catalog_fingerprint = "c"; mcp_fingerprint = "m" }

abbrev pub process : ℕ → Bool → Process
process id streaming = record {
  session = id;
  alive = true;
  is_streaming = streaming;
  last_activity = 1;
  system_prompt = none;
  system_prompt_mode = "append";
  config = config;
  mcp_generation = 0;
}

abbrev pub world : List Process → World
world processes = record {
  rows = rows;
  journals = λ _. [];
  processes = processes;
  writable = λ _. true;
  outside = [];
  requests = [];
  generation = 0;
  closing = false;
}

abbrev answers : Answers
answers = record {
  started = ok false;
  lives_on = false;
  state = ok (record { streaming = false; session_file = none });
  error = "";
}

Reach-within_capacity_example :
    (count is_alive
        (get_or_start one_slot ten_bytes config
          (row 2)
          answers
          9
          (get_or_start one_slot ten_bytes config (row 1) answers 8 (world [])).1).1.processes
      ≤ 1)
    × ((id : ℕ)
        → count
            (λ p. p.session == id)
            (get_or_start one_slot ten_bytes config
              (row 2)
              answers
              9
              (get_or_start one_slot ten_bytes config (row 1) answers 8 (world [])).1).1.processes
          ≤ 1)
Reach-within_capacity_example =
    Reach-within_capacity one_slot ten_bytes (world []) _ refl
      (next (next here (starts config (row 1) answers 8)) (starts config (row 2) answers 9))

abbrev no_answer : Answers
no_answer = record answers { started = raise timeout_error; lives_on = true }

Reach-within_lost_example :
    (let one = (get_or_start one_slot ten_bytes config (row 1) no_answer 5 (world [])).1 in
      let two = (get_or_start one_slot ten_bytes config (row 1) answers 6 one).1 in
      count is_alive two.processes + length two.outside ≤ 2)
Reach-within_lost_example =
    Reach-within_lost one_slot ten_bytes (world []) _
      (next (next here (starts config (row 1) no_answer 5)) (starts config (row 1) answers 6)) refl
      refl

reserve_capacity-overrun_example :
    (let first = reserve_capacity one_slot ten_bytes 5 (world []) in
      let second = reserve_capacity one_slot ten_bytes 5 first.1 in
      let one = start_process one_slot ten_bytes config (row 1) answers 5 second.1 in
      let two = start_process one_slot ten_bytes config (row 2) answers 5 one.1 in
      (first.0 ≡ ok tt) × (second.0 ≡ ok tt) × (count is_alive two.1.processes ≡ 2))
unfolding count get
reserve_capacity-overrun_example =
    reserve_capacity-overrun one_slot ten_bytes config (row 1) (row 2) answers 5 (world []) refl
      refl refl refl refl

get_or_start-streaming_example :
    get session_of 1
      (get_or_start
        (record one_slot { max_active_sessions = 2 })
        ten_bytes
        config
        (row 3)
        answers
        9
        (world (process 1 true ∷ process 2 false ∷ []))).1.processes
    ≡ some (process 1 true)
unfolding count get
get_or_start-streaming_example =
    get_or_start-streaming (record one_slot { max_active_sessions = 2 }) ten_bytes config (row 3)
      answers 9 (world (process 1 true ∷ process 2 false ∷ [])) 1 (process 1 true)
      (λ k. ground arith) refl refl refl

abbrev payload : Prompt
payload = record { mode = auto; model = none; thinking_level = none }

abbrev replies : Replies
replies = record {
  starting = answers;
  state = ok (record { streaming = false; session_file = none });
  model_set = ok tt;
  level_set = ok tt;
  sent = ok tt;
}

abbrev one_row : World
one_row = record (world []) { rows = row 1 ∷ [] }

one_row-Kept : Kept one_row
unfolding get
one_row-Kept id x = elim (Bool-cases (1 == id)) [
  | inl c ↦ rw c ([], Holds-empty, refl)
  | inr c ↦ rw c tt
]

abbrev after_prompt : World
after_prompt =
    (submit_prompt one_slot ten_bytes config unbroken ("m" ∷ []) 1 payload "r" replies 7 one_row).1

one_row_accepted :
    submit_prompt one_slot ten_bytes config unbroken ("m" ∷ []) 1 payload "r" replies 7 one_row
    ≡ (ok (accepted_as 1 "r" prompt), after_prompt)
unfolding submit_prompt submit find_input_accepted choose_model require_session
    require_allowed_model restart_changed needs_configuration_restart active get_or_start
    reserve_capacity start_process enter_process new_process put_process record_and record_event
    append next_event_seq write target write_line get count modify choose_delivery send_if set_level
    set_active_request set_runtime
one_row_accepted = refl

submit_prompt_repeated_example :
    submit_prompt one_slot ten_bytes config unbroken [] 1 payload "r"
      (record replies { sent = raise rpc_error })
      8
      after_prompt
    ≡ (ok (accepted_as 1 "r" prompt), after_prompt)
submit_prompt_repeated_example =
    submit_prompt_repeated one_slot ten_bytes unbroken config ("m" ∷ []) 1 payload "r" replies 7
      one_row after_prompt (accepted_as 1 "r" prompt) (λ seq id now d. refl) one_row-Kept
      one_row_accepted config [] payload (record replies { sent = raise rpc_error }) 8

abbrev read_only : World
read_only = record (world (process 1 false ∷ [])) { rows = row 1 ∷ []; writable = λ _. false }

abbrev failed_run : Result Accepted × World
failed_run =
    submit_prompt one_slot ten_bytes config unbroken ("m" ∷ []) 1 payload "r" replies 7 read_only

read_only_fails : failed_run ≡ (raise os_error, failed_run.1)
unfolding submit_prompt submit find_input_accepted choose_model require_session
    require_allowed_model restart_changed needs_configuration_restart active get_or_start
    record_event append next_event_seq write target write_line get modify choose_delivery send_if
    set_level set_active_request
read_only_fails = refl

submit_prompt-internal_example : (os_error ≡ os_error) × (failed_run.1.writable 1 ≡ false)
submit_prompt-internal_example =
    submit_prompt-internal one_slot ten_bytes unbroken config ("m" ∷ []) 1 payload "r" replies 7
      read_only failed_run.1 os_error read_only_fails refl

abbrev two_running : World
two_running = world (process 1 true ∷ process 2 false ∷ [])

abbrev reloaded : World
reloaded = (reload_mcp_gateway one_slot ten_bytes 9 two_running).1

two_running_reloads : reload_mcp_gateway one_slot ten_bytes 9 two_running ≡ (ok 1, reloaded)
unfolding reload_mcp_gateway stop_each stop finish_stop process_exited report_exit drop_exited
    active get record_and record_event append next_event_seq modify set_runtime
two_running_reloads = refl

one_still_active : active 1 reloaded.processes ≡ some (process 1 true)
unfolding reload_mcp_gateway stop_each stop finish_stop process_exited report_exit drop_exited
    active get record_and record_event append next_event_seq modify pop_process remove_rows
    set_runtime
one_still_active = refl

reload_mcp_gateway-restarts_example :
    (true ≡ true) × (needs_configuration_restart config (row 1) reloaded ≡ true)
reload_mcp_gateway-restarts_example =
    reload_mcp_gateway-restarts one_slot ten_bytes config (row 1) 9 two_running reloaded 1
      (process 1 true) (omega arith, (omega arith, tt)) two_running_reloads one_still_active
