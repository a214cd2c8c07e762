-- ===== src/Bridge/Prompts/Problems.antt =====
-- What the caller of a prompt is told when it is not accepted.
use pi_opensandbox_runner.Base.{
  ℕ, String, ◌≡◌, ◌∙◌, sym, ap, Bool, true, false, Option, none, some, List, arith, Bool-cases,
  Option-cases, inl, inr,
}
use pi_opensandbox_runner.Base.Table.{get}
use pi_opensandbox_runner.Bridge.Problem.{
  Failure, Result, ok, raise, api, rpc_error, timeout_error, os_error, capacity_exceeded, key_error,
  cursor_expired, other, proceed_raised, raised_inj, Result-cases,
}
use pi_opensandbox_runner.Bridge.Catalog.{record_id}
use pi_opensandbox_runner.Bridge.Journal.{Event, Envelope, find_input_accepted}
use pi_opensandbox_runner.Bridge.Supervisor.{Limits, Config, World, record_event}
use pi_opensandbox_runner.Bridge.Prompts.{
  Prompt, Replies, acceptance, accepted_delivery, handle, replay, submit_prompt,
}
use pi_opensandbox_runner.Bridge.Prompts.Journals.{
  record_event_found, record_event_missing, record_event_unwritable,
}
use pi_opensandbox_runner.Bridge.Prompts.Once.{
  accepted_as, accept, sent, submit_prompt_known, submit_prompt_new,
}

-- A failure of a Pi process, of the operating system, or for lack of a free slot.
abbrev pub is_internal : Failure → Bool
is_internal rpc_error = true
is_internal timeout_error = true
is_internal os_error = true
is_internal capacity_exceeded = true
is_internal _ = false

handle-internal {ℓ} :
    {A : Type ℓ} (r : Result A) (e : Failure) → handle r ≡ raise e → is_internal e ≡ false
handle-internal (ok a) e h = absurd (ground arith)
handle-internal (raise rpc_error) e h = ground arith
handle-internal (raise timeout_error) e h = ground arith
handle-internal (raise os_error) e h = ground arith
handle-internal (raise capacity_exceeded) e h = ground arith
handle-internal (raise (api p)) e h = ground arith
handle-internal (raise key_error) e h = ground arith
handle-internal (raise other) e h = ground arith
handle-internal (raise (cursor_expired n)) e h = ground arith

accepted_delivery-internal :
    (o : Option String) (e : Failure) → accepted_delivery o ≡ raise e → is_internal e ≡ false
unfolding accepted_delivery
accepted_delivery-internal none e h = ground arith
accepted_delivery-internal (some s) e h = ground arith

replay-internal :
    (id : ℕ) (request : String) (event : Event) (e : Failure)
    → replay id request event ≡ raise e
    → is_internal e ≡ false
unfolding replay
replay-internal id request event e h = elim (Option-cases event.command_id) [
  | inl n ↦ ground (arith, n)
  | inr (command, c) ↦ elim (Result-cases (accepted_delivery event.delivery)) [
    | inl (d, a) ↦ absurd (ground (arith, c, a))
    | inr (f, a) ↦ ground (arith, c, a, accepted_delivery-internal event.delivery f a)
  ]
]

module _ (limits : Limits) (size : Envelope → ℕ) (whole : Envelope → Bool) where
  record_event-internal :
      (id : ℕ) (source : String) (event : Event) (now : ℕ) (w w' : World) (e : Failure)
      → (record_event limits size id source event now w).0 ≡ raise e
      → (record_event limits size id source event now w).1 ≡ w'
      → is_internal e ≡ true
      → (e ≡ os_error) × (w'.writable id ≡ false)
  record_event-internal id source event now w w' e h s x =
      elim (Option-cases (get record_id id w.rows)) [
        | inl n ↦ absurd (
            ground (
              arith,
              h,
              x,
              ap (λ o. o.0) (record_event_missing limits size id source event now w n),
            ))
        | inr (r, g) ↦ elim (Bool-cases (w.writable id)) [
          | inl c ↦ absurd (
              ground (
                arith,
                h,
                ap (λ o. o.0) (record_event_found limits size id source event now w r g c),
              ))
          | inr c ↦
              let failed = record_event_unwritable limits size id source event now w r g c in
              (
                raised_inj (sym h ∙ ap (λ o. o.0) failed),
                ap (λ v. v.writable id) (sym s ∙ ap (λ o. o.1) failed) ∙ c,
              )
        ]
      ]

  -- Where a prompt is not accepted, a failure of a Pi process, of the operating system or of the capacity
  -- has become a problem of the API; the one that reaches the caller as it is, is the `OSError` of a journal
  -- that cannot be written.
  pub submit_prompt-internal :
      (config : Config) (allowed : List String) (id : ℕ) (payload : Prompt) (request : String)
      (replies : Replies) (now : ℕ) (w w' : World) (e : Failure)
      → submit_prompt limits size config whole allowed id payload request replies now w
        ≡ (raise e, w')
      → is_internal e ≡ true
      → (e ≡ os_error) × (w'.writable id ≡ false)
  submit_prompt-internal config allowed id payload request replies now w w' e h x =
      elim (Option-cases (find_input_accepted whole request (w.journals id))) [
        | inr (event, f) ↦
            let known =
              submit_prompt_known limits size whole config allowed id payload request replies now w
                event f in
            absurd (
              ground (arith, x, replay-internal id request event e (ap (λ o. o.0) (sym known ∙ h))))
        | inl n ↦
            let s = sent limits size whole config allowed id payload request replies now w in
            let new =
              submit_prompt_new limits size whole config allowed id payload request replies now w
                n in
            elim (proceed_raised s.0 s.1
              (λ d. accept limits size whole config allowed id payload request replies now d s.1) e
              w' (sym new ∙ h)) [
                | inl (r, _) ↦ absurd (ground (arith, x, handle-internal _ e r))
                | inr (d, _, rest) ↦
                    let o = record_event limits size id "bridge" (acceptance request d) now s.1 in
                    elim (proceed_raised o.0 o.1 (λ _. (ok (accepted_as id request d), o.1)) e w'
                      rest) [
                        | inl (r, last) ↦
                            record_event-internal id "bridge" (acceptance request d) now s.1 w' e r
                              last x
                        | inr (_, _, returned) ↦ absurd (ground (arith, ap (λ x. x.0) returned))
                      ]
              ]
      ]
