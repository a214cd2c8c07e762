-- ===== src/Bridge/Prompts/Actions.antt =====
-- The actions that a prompt is made of keep all journals in step with the counters of events.
use pi_opensandbox_runner.Base.{
  ℕ, String, refl, Bool, true, false, Option, none, some, List, if◌then◌else◌, str_eq, Bool-cases,
  Option-cases, inl, inr,
}
use pi_opensandbox_runner.Base.Table.{get}
use pi_opensandbox_runner.Bridge.Problem.{Result, ok, proceed_state, Result-cases}
use pi_opensandbox_runner.Bridge.Catalog.{SessionRecord, record_id, is_in, update_model_settings}
use pi_opensandbox_runner.Bridge.Journal.{Envelope}
use pi_opensandbox_runner.Bridge.Supervisor.{
  Limits, Config, Process, World, Answers, active, set_status, bridge_event, record_event,
  record_and, report_exit, process_exited, drop_exited, finish_stop, stop, reserve_capacity,
  enter_process, start_process, get_or_start,
}
use pi_opensandbox_runner.Bridge.Supervisor.Capacity.{stop-cases}
use pi_opensandbox_runner.Bridge.Supervisor.Start.{reserve_capacity-cases}
use pi_opensandbox_runner.Bridge.Prompts.{
  Action, ◌>>=◌, pure, answer, require_session, require_allowed_model, change_settings,
  choose_model,
}
use pi_opensandbox_runner.Bridge.Prompts.Journals.{
  Kept, set_runtime-Kept, update-Kept, record_event-Kept,
}

abbrev pub Keeps {ℓ} : {A : Type ℓ} → Action A → Type 0
Keeps m = (w : World) → Kept w → Kept (m w).1

pub bind-Keeps {ℓ κ} :
    {A : Type ℓ} {B : Type κ} (m : Action A) (f : A → Action B)
    → Keeps m
    → ((a : A) → Keeps (f a))
    → Keeps (m >>= f)
bind-Keeps m f h g w k =
    proceed_state Kept (m w).0 (m w).1 (λ a. f a (m w).1) (h w k) (λ a e. g a (m w).1 (h w k))

module _ (limits : Limits) (size : Envelope → ℕ) where
  record_and-Keeps {ℓ} :
      {B : Type ℓ} (b : B) (id : ℕ) (type : String) (now : ℕ)
      → Keeps (record_and limits size b id type now)
  unfolding record_and
  record_and-Keeps b id type now w k =
      let o = record_event limits size id "bridge" (bridge_event type "") now w in
      let kept = record_event-Kept limits size id "bridge" (bridge_event type "") now w k in
      proceed_state Kept o.0 o.1 (λ _. (ok b, o.1)) kept (λ a e. kept)

  report_exit-Kept :
      (id : ℕ) (expected : Bool) (error : String) (now : ℕ) (w : World)
      → Kept w
      → Kept (report_exit limits size id expected error now w)
  unfolding report_exit
  report_exit-Kept id expected error now w k = elim (Bool-cases w.closing) [
    | inl c ↦ rw (c, report_exit) k
    | inr c ↦
        rw (c, report_exit)
          (record_event-Kept limits size id "bridge" _ now _ (
            set_runtime-Kept id _ _ none true now
              (record w { processes = drop_exited id w.processes }) k))
  ]

  finish_stop-Keeps : (id now : ℕ) → Keeps (finish_stop limits size id now)
  unfolding finish_stop process_exited
  finish_stop-Keeps id now w k =
      let exited = process_exited limits size id true "" now w in
      record_and-Keeps true id "process_stopped" now _ (
        set_runtime-Kept id "stopped" none none true now exited
          (report_exit-Kept id true "" now _ k))

  pub stop-Keeps :
      (id : ℕ) (abort : Bool) (answer : Result (Unit {0})) (now : ℕ)
      → Keeps (stop limits size id abort answer now)
  stop-Keeps id abort answer now w k =
      let k' = set_runtime-Kept id "stopping" none none true now w k in
      elim (stop-cases limits size id abort answer now w) [
        | inl (_, e) ↦ rw e k
        | inr (inl e) ↦ rw e (finish_stop-Keeps id now _ k')
        | inr (inr (f, e)) ↦ rw e k'
      ]

  reserve_capacity-Keeps : (now : ℕ) → Keeps (reserve_capacity limits size now)
  reserve_capacity-Keeps now w k = elim (reserve_capacity-cases limits size now w) [
    | inl (e, _) ↦ rw e k
    | inr (inl (e, _)) ↦ rw e k
    | inr (inr (p, _, e)) ↦
        let o = stop limits size p.session false (ok tt) now w in
        let k' = stop-Keeps p.session false (ok tt) now w k in
        rw e (proceed_state Kept o.0 o.1 (λ _. (ok tt, o.1)) k' (λ a h. k'))
  ]

  enter_process-Keeps :
      (p : Process) (answers : Answers) (now : ℕ) → Keeps (enter_process limits size p answers now)
  unfolding enter_process
  enter_process-Keeps p answers now w k = elim (Result-cases answers.state) [
    | inr (e, h) ↦ rw (h, enter_process) k
    | inl (state, h) ↦
        rw (h, enter_process)
          (record_and-Keeps p p.session "process_started" now _
            (set_runtime-Kept p.session _ none state.session_file true now w k))
  ]

  start_process-Keeps :
      (config : Config) (r : SessionRecord) (answers : Answers) (now : ℕ)
      → Keeps (start_process limits size config r answers now)
  unfolding start_process
  start_process-Keeps config r answers now w k =
      let k' = set_runtime-Kept r.id "starting" none none true now w k in
      let starting = set_status r.id "starting" none now w in
      elim (Result-cases answers.started) [
        | inr (e, h) ↦
            rw (h, start_process)
              (set_runtime-Kept r.id "failed" (some answers.error) none true now starting k')
        | inl (streaming, h) ↦ rw (h, start_process) (enter_process-Keeps _ answers now starting k')
      ]

  pub get_or_start-Keeps :
      (config : Config) (r : SessionRecord) (answers : Answers) (now : ℕ)
      → Keeps (get_or_start limits size config r answers now)
  unfolding get_or_start
  get_or_start-Keeps config r answers now w k = elim (Option-cases (active r.id w.processes)) [
    | inr (p, e) ↦ rw (e, get_or_start) k
    | inl e ↦
        let o = reserve_capacity limits size now w in
        let k' = reserve_capacity-Keeps now w k in
        rw (e, get_or_start)
          (proceed_state Kept o.0 o.1 (λ _. start_process limits size config r answers now o.1) k'
            (λ a h. start_process-Keeps config r answers now o.1 k'))
  ]

pub update_model_settings-Kept :
    (id : ℕ) (model : Option String) (level : Option (Option String)) (now : ℕ) (w : World)
    → Kept w
    → Kept (record w { rows = (update_model_settings id model level now w.rows).1 })
unfolding update_model_settings
update_model_settings-Kept id none none now w k = update-Kept id _ now w (λ r. refl) (λ r. refl) k
update_model_settings-Kept id (some m) none now w k =
    update-Kept id _ now w (λ r. refl) (λ r. refl) k
update_model_settings-Kept id none (some l) now w k =
    update-Kept id _ now w (λ r. refl) (λ r. refl) k
update_model_settings-Kept id (some m) (some l) now w k =
    update-Kept id _ now w (λ r. refl) (λ r. refl) k

change_settings-Keeps :
    (id : ℕ) (model : Option String) (level : Option (Option String)) (now : ℕ)
    → Keeps (change_settings id model level now)
unfolding change_settings
change_settings-Keeps id model level now w k =
    let kept = update_model_settings-Kept id model level now w k in
    elim (Option-cases (update_model_settings id model level now w.rows).0) [
      | inl n ↦ rw (n, change_settings) kept
      | inr (r, e) ↦ rw (e, change_settings) kept
    ]

require_session-Keeps : (id : ℕ) → Keeps (require_session id)
unfolding require_session
require_session-Keeps id w k = elim (Option-cases (get record_id id w.rows)) [
  | inl n ↦ rw (n, require_session) k
  | inr (r, e) ↦ rw (e, require_session) k
]

require_allowed_model-Keeps :
    (allowed : List String) (model : String) → Keeps (require_allowed_model allowed model)
unfolding require_allowed_model
require_allowed_model-Keeps allowed model w k = elim (Bool-cases (is_in model allowed)) [
  | inl e ↦ rw (e, require_allowed_model) k
  | inr e ↦ rw (e, require_allowed_model) k
]

pub choose_model-Keeps :
    (allowed : List String) (id : ℕ) (model : Option String) (now : ℕ)
    → Keeps (choose_model allowed id model now)
unfolding choose_model
choose_model-Keeps allowed id none now =
    bind-Keeps (require_session id) (λ r. require_allowed_model allowed r.model >>= λ _. pure r)
      (require_session-Keeps id)
      (λ r.
        bind-Keeps (require_allowed_model allowed r.model) (λ _. pure r)
          (require_allowed_model-Keeps allowed r.model) (λ _ w k. k))
choose_model-Keeps allowed id (some model) now =
    let change : SessionRecord → Action SessionRecord =
      λ r. if str_eq r.model model then pure r else change_settings id (some model) none now in
    bind-Keeps (require_allowed_model allowed model) (λ _. require_session id >>= change)
      (require_allowed_model-Keeps allowed model)
      (λ _. bind-Keeps (require_session id) change (require_session-Keeps id) (λ r w k.
        elim (Bool-cases (str_eq r.model model)) [
          | inl e ↦ rw e k
          | inr e ↦ rw e (change_settings-Keeps id (some model) none now w k)
        ]))
