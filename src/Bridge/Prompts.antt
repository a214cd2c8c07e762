-- ===== src/Bridge/Prompts.antt =====
-- app/session_routes.py, prompt: a prompt of a session is sent to its Pi process, once for each request
-- id. An action runs on the state of the Bridge and keeps what it has changed where it raises. What Pi
-- answers, the allowed models and the configuration files are arguments.
pub mod Journals
pub mod Actions
pub mod Submit
pub mod Once
pub mod Problems
use pi_opensandbox_runner.Base.{
  ℕ, ◌+◌, String, Bool, true, false, not, ◌&&◌, Option, none, some, List, [], ◌∷◌, str_eq,
  if◌then◌else◌,
}
use pi_opensandbox_runner.Base.Table.{get}
use pi_opensandbox_runner.Bridge.Problem.{
  ApiProblem, api_problem, Failure, Result, ok, raise, api, rpc_error, timeout_error, os_error,
  capacity_exceeded, key_error, cursor_expired, other, proceed,
}
use pi_opensandbox_runner.Bridge.Catalog.{
  SessionRecord, Sessions, record_id, is_in, update_model_settings,
}
use pi_opensandbox_runner.Bridge.Journal.{Event, Envelope, find_input_accepted}
use pi_opensandbox_runner.Bridge.Supervisor.{
  Limits, Config, Process, World, Answers, PiState, active, needs_configuration_restart, stop,
  get_or_start, record_event,
}

abbrev pub Action {ℓ} : Type ℓ → Type ℓ
Action A = World → Result A × World

infixl 5 ◌>>=◌
abbrev pub ◌>>=◌ {ℓ κ} : {A : Type ℓ} {B : Type κ} → Action A → (A → Action B) → Action B
(m >>= f) w = proceed (m w).0 (m w).1 (λ a. f a (m w).1)

abbrev pub pure {ℓ} : {A : Type ℓ} → A → Action A
pure a w = (ok a, w)

-- What an outside call answers.
abbrev pub answer {ℓ} : {A : Type ℓ} → Result A → Action A
answer r w = (r, w)

pub data Delivery : Type 0 where
  prompt steer follow_up : Delivery

pub data Mode : Type 0 where
  auto steer_mode follow_up_mode : Mode

abbrev pub delivery_text : Delivery → String
delivery_text prompt = "prompt"
delivery_text steer = "steer"
delivery_text follow_up = "follow_up"

-- `_accepted_delivery`
unfoldable pub accepted_delivery : Option String → Result Delivery
accepted_delivery none = raise (api (api_problem 500 "invalid_event"))
accepted_delivery (some s) =
    if str_eq s "prompt"
    then ok prompt
    else if str_eq s "steer"
    then ok steer
    else if str_eq s "follow_up"
    then ok follow_up
    else raise (api (api_problem 500 "invalid_event"))

pub record Prompt : Type 0 where
  pub mode : Mode
  pub model : Option String
  pub thinking_level : Option String

pub record Accepted : Type 0 where
  pub command_id : String
  pub request_id : String
  pub session_id : ℕ
  pub delivery : Delivery

-- What the Pi process answers in a request.
pub record Replies : Type 0 where
  pub starting : Answers
  pub state : Result PiState
  pub model_set : Result (Unit {0})
  pub level_set : Result (Unit {0})
  pub sent : Result (Unit {0})

-- `BridgeContext.require_session`
unfoldable pub require_session : ℕ → Action SessionRecord
require_session id w = elim (get record_id id w.rows) [
  | none ↦ (raise (api (api_problem 404 "session_not_found")), w)
  | some r ↦ (ok r, w)
]

-- `BridgeContext.require_allowed_model`
unfoldable pub require_allowed_model : List String → String → Action (Unit {0})
require_allowed_model allowed model w =
    if is_in model allowed
    then (ok tt, w)
    else (raise (api (api_problem 422 "model_not_allowed")), w)

-- `update_model_settings` and `assert updated is not None`
unfoldable pub change_settings :
    ℕ → Option String → Option (Option String) → ℕ → Action SessionRecord
change_settings id model level now w =
    let (updated, rows) = update_model_settings id model level now w.rows in
    elim updated [
      | none ↦ (raise other, record w { rows = rows })
      | some r ↦ (ok r, record w { rows = rows })
    ]

unfoldable pub choose_model : List String → ℕ → Option String → ℕ → Action SessionRecord
choose_model allowed id none now = do
  r ← require_session id
  _ ← require_allowed_model allowed r.model
  pure r
choose_model allowed id (some model) now = do
  _ ← require_allowed_model allowed model
  r ← require_session id
  if str_eq r.model model then pure r else change_settings id (some model) none now

-- The delivery that is asked for, where Pi can take it.
unfoldable pub choose_delivery : Mode → Bool → Result Delivery
choose_delivery auto streaming = if streaming then ok follow_up else ok prompt
choose_delivery steer_mode streaming =
    if streaming then ok steer else raise (api (api_problem 409 "session_not_streaming"))
choose_delivery follow_up_mode streaming =
    if streaming then ok follow_up else raise (api (api_problem 409 "session_not_streaming"))

unfoldable pub send_if {ℓ} : {A : Type ℓ} → Option A → Result (Unit {0}) → Action (Unit {0})
send_if none reply = pure tt
send_if (some a) reply = answer reply

unfoldable pub set_level : ℕ → Option String → Result (Unit {0}) → ℕ → Action (Unit {0})
set_level id none reply now = pure tt
set_level id (some level) reply now = do
  _ ← answer reply
  λ w. (ok tt, record w { rows = (update_model_settings id none (some (some level)) now w.rows).1 })

-- `set_active_request`
unfoldable pub set_active_request : ℕ → String → Action (Unit {0})
set_active_request id request w = (ok tt, record w { requests = (id, request) ∷ w.requests })

-- The `except` clauses.
abbrev pub as_problem : Failure → Failure
as_problem capacity_exceeded = api (api_problem 429 "session_capacity_exceeded")
as_problem rpc_error = api (api_problem 503 "pi_unavailable")
as_problem timeout_error = api (api_problem 503 "pi_unavailable")
as_problem os_error = api (api_problem 503 "pi_unavailable")
as_problem e = e

abbrev pub handle {ℓ} : {A : Type ℓ} → Result A → Result A
handle (ok a) = ok a
handle (raise e) = raise (as_problem e)

abbrev pub handled {ℓ} : {A : Type ℓ} → Action A → Action A
handled m w = (handle (m w).0, (m w).1)

abbrev pub acceptance : String → Delivery → Event
acceptance request delivery = record {
  event_type = "input_accepted";
  request_id = some request;
  command_id = some request;
  delivery = some (delivery_text delivery);
  body = "";
}

-- `str(accepted["command_id"])`, and the delivery.
unfoldable pub replay : ℕ → String → Event → Result Accepted
replay id request event = elim event.command_id [
  | none ↦ raise key_error
  | some command ↦ elim (accepted_delivery event.delivery) [
    | raise e ↦ raise e
    | ok d ↦
        ok (record { command_id = command; request_id = request; session_id = id; delivery = d })
  ]
]

module _ (limits : Limits) (size : Envelope → ℕ) (config : Config) where
  -- `stop` without an abort, its value unused
  abbrev pub stop_first : ℕ → ℕ → Action (Unit {0})
  stop_first id now = stop limits size id false (ok tt) now >>= λ _. pure tt

  -- A process with an old configuration is stopped, unless its turn is running.
  unfoldable pub restart_changed : SessionRecord → ℕ → Action (Unit {0})
  restart_changed r now w =
      if needs_configuration_restart config r w
      then elim (active r.id w.processes) [
        | some p ↦
            if p.is_streaming
            then (raise (api (api_problem 409 "model_catalog_update_pending")), w)
            else stop_first r.id now w
        | none ↦ stop_first r.id now w
      ]
      else (ok tt, w)

  -- What runs under `try`.
  unfoldable pub submit : List String → ℕ → Prompt → String → Replies → ℕ → Action Delivery
  submit allowed id payload request replies now = do
    r ← choose_model allowed id payload.model now
    _ ← restart_changed r now
    _ ← get_or_start limits size config r replies.starting now
    state ← answer replies.state
    delivery ← answer (choose_delivery payload.mode state.streaming)
    _ ← send_if payload.model replies.model_set
    _ ← set_level id payload.thinking_level replies.level_set now
    _ ← set_active_request id request
    _ ← answer replies.sent
    pure delivery

  -- The whole handler, with the request id that the header or a new UUID gives; `whole` as in the
  -- journal.
  unfoldable pub submit_prompt :
      (Envelope → Bool) → List String → ℕ → Prompt → String → Replies → ℕ → Action Accepted
  submit_prompt whole allowed id payload request replies now w =
      elim (find_input_accepted whole request (w.journals id)) [
        | some event ↦ (replay id request event, w)
        | none ↦
            (do
              delivery ← handled (submit allowed id payload request replies now)
              _ ← record_event limits size id "bridge" (acceptance request delivery) now
              pure (record {
                command_id = request;
                request_id = request;
                session_id = id;
                delivery = delivery;
              }))
              w
      ]
