-- ===== src/Bridge/Prompts/Submit.antt =====
-- Submitting a prompt keeps all journals in step: the handler's block again, each action with its proof.
use pi_opensandbox_runner.Base.{
  ℕ, String, false, Option, none, some, List, Bool-cases, Option-cases, inl, inr,
}
use pi_opensandbox_runner.Bridge.Problem.{Result, ok, raise}
use pi_opensandbox_runner.Bridge.Catalog.{SessionRecord}
use pi_opensandbox_runner.Bridge.Journal.{Envelope}
use pi_opensandbox_runner.Bridge.Supervisor.{
  Limits, Config, active, needs_configuration_restart, stop, get_or_start,
}
use pi_opensandbox_runner.Bridge.Prompts.{
  Action, pure, answer, Delivery, Prompt, Replies, choose_model, choose_delivery, send_if,
  set_level, set_active_request, stop_first, restart_changed, submit,
}
use pi_opensandbox_runner.Bridge.Prompts.{◌>>=◌ as and_then}
use pi_opensandbox_runner.Bridge.Prompts.Actions.{
  Keeps, bind-Keeps, choose_model-Keeps, update_model_settings-Kept, stop-Keeps, get_or_start-Keeps,
}

-- An action with the proof that it keeps the journals in step.
abbrev Keeping {ℓ} : Type ℓ → Type ℓ
Keeping A = (m : Action A) × Keeps m

infixl 5 ◌>>=◌
abbrev ◌>>=◌ {ℓ κ} : {A : Type ℓ} {B : Type κ} → Keeping A → (A → Keeping B) → Keeping B
(m, h) >>= f = (and_then m (λ a. (f a).0), bind-Keeps m (λ a. (f a).0) h (λ a. (f a).1))

abbrev answered {ℓ} : {A : Type ℓ} → Result A → Keeping A
answered r = (answer r, λ w k. k)

set_level-Keeps :
    (id : ℕ) (level : Option String) (reply : Result (Unit {0})) (now : ℕ)
    → Keeps (set_level id level reply now)
unfolding set_level
set_level-Keeps id none reply now w k = k
set_level-Keeps id (some level) (raise e) now w k = k
set_level-Keeps id (some level) (ok a) now w k =
    update_model_settings-Kept id none (some (some level)) now w k

send_if-Keeps {ℓ} :
    {A : Type ℓ} (o : Option A) (reply : Result (Unit {0})) → Keeps (send_if o reply)
unfolding send_if
send_if-Keeps none reply w k = k
send_if-Keeps (some a) reply w k = k

set_active_request-Keeps : (id : ℕ) (request : String) → Keeps (set_active_request id request)
unfolding set_active_request
set_active_request-Keeps id request w k = k

module _ (limits : Limits) (size : Envelope → ℕ) (config : Config) where
  stop_first-Keeps : (id now : ℕ) → Keeps (stop_first limits size config id now)
  stop_first-Keeps id now =
      bind-Keeps (stop limits size id false (ok tt) now) (λ _. pure tt)
        (stop-Keeps limits size id false (ok tt) now) (λ _ w k. k)

  restart_changed-Keeps :
      (r : SessionRecord) (now : ℕ) → Keeps (restart_changed limits size config r now)
  unfolding restart_changed
  restart_changed-Keeps r now w k =
      let k' = stop_first-Keeps r.id now w k in
      elim (Bool-cases (needs_configuration_restart config r w)) [
        | inr c ↦ rw (c, restart_changed) k
        | inl c ↦ elim (Option-cases (active r.id w.processes)) [
          | inl n ↦ rw (c, n, restart_changed) k'
          | inr (p, e) ↦ elim (Bool-cases p.is_streaming) [
            | inl s ↦ rw (c, e, s, restart_changed) k
            | inr s ↦ rw (c, e, s, restart_changed) k'
          ]
        ]
      ]

  submitted : List String → ℕ → Prompt → String → Replies → ℕ → Keeping Delivery
  submitted allowed id payload request replies now = do
    r ← (choose_model allowed id payload.model now, choose_model-Keeps allowed id payload.model now)
    _ ← (restart_changed limits size config r now, restart_changed-Keeps r now)
    _ ← (
      get_or_start limits size config r replies.starting now,
      get_or_start-Keeps limits size config r replies.starting now,
    )
    state ← answered replies.state
    delivery ← answered (choose_delivery payload.mode state.streaming)
    _ ← (send_if payload.model replies.model_set, send_if-Keeps payload.model replies.model_set)
    _ ← (
      set_level id payload.thinking_level replies.level_set now,
      set_level-Keeps id payload.thinking_level replies.level_set now,
    )
    _ ← (set_active_request id request, set_active_request-Keeps id request)
    _ ← answered replies.sent
    (pure delivery, λ w k. k)

  pub submit-Keeps :
      (allowed : List String) (id : ℕ) (payload : Prompt) (request : String) (replies : Replies)
      (now : ℕ)
      → Keeps (submit limits size config allowed id payload request replies now)
  unfolding submit submitted
  submit-Keeps allowed id payload request replies now =
      (submitted allowed id payload request replies now).1
