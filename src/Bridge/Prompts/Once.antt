-- ===== src/Bridge/Prompts/Once.antt =====
-- A request id is a prompt's name: what has been accepted is not sent again.
use pi_opensandbox_runner.Base.{
  ℕ, ◌+◌, String, ◌≡◌, refl, ◌∙◌, sym, ap, Bool, true, none, some, List, arith, eq_iff, ==_refl,
  Bool-cases, Option-cases, inl, inr,
}
use pi_opensandbox_runner.Base.Table.{get}
use pi_opensandbox_runner.Bridge.Problem.{Result, ok, proceed, proceed_inv}
use pi_opensandbox_runner.Bridge.Catalog.{record_id}
use pi_opensandbox_runner.Bridge.Journal.{Event, Envelope, envelope, find_input_accepted}
use pi_opensandbox_runner.Bridge.Journal.Retry.{write-find_input_accepted}
use pi_opensandbox_runner.Bridge.Supervisor.{Limits, Config, World, record_event}
use pi_opensandbox_runner.Bridge.Prompts.{
  Action, ◌>>=◌, pure, Delivery, prompt, steer, follow_up, Prompt, Accepted, Replies, acceptance,
  accepted_delivery, delivery_text, handled, replay, submit, submit_prompt,
}
use pi_opensandbox_runner.Bridge.Prompts.Journals.{
  Kept, KeptAt-same, counted, record_event_found, record_event_missing, record_event_unwritable,
  next_envelope, written,
}
use pi_opensandbox_runner.Bridge.Prompts.Submit.{submit-Keeps}

accepted_delivery-text : (d : Delivery) → accepted_delivery (some (delivery_text d)) ≡ ok d
unfolding accepted_delivery
accepted_delivery-text prompt = refl
accepted_delivery-text steer = refl
accepted_delivery-text follow_up = refl

abbrev pub accepted_as : ℕ → String → Delivery → Accepted
accepted_as id request d = record {
  command_id = request;
  request_id = request;
  session_id = id;
  delivery = d;
}

replay-acceptance :
    (id : ℕ) (request : String) (d : Delivery)
    → replay id request (acceptance request d) ≡ ok (accepted_as id request d)
unfolding replay
replay-acceptance id request d = rw (accepted_delivery-text d, replay) refl

-- The line of the acceptance of this request id is never broken.
abbrev pub IsWhole : (Envelope → Bool) → String → Type 0
IsWhole whole request =
    (seq id now : ℕ) (d : Delivery)
    → whole (envelope seq id now "bridge" (acceptance request d)) ≡ true

module _ (limits : Limits) (size : Envelope → ℕ) (whole : Envelope → Bool) where
  -- After the acceptance is recorded it is found.
  recorded-found :
      (id : ℕ) (request : String) (d : Delivery) (now : ℕ) (w w' : World)
      → IsWhole whole request
      → Kept w
      → record_event limits size id "bridge" (acceptance request d) now w ≡ (ok tt, w')
      → find_input_accepted whole request (w'.journals id) ≡ some (acceptance request d)
  recorded-found id request d now w w' v k h = elim (Option-cases (get record_id id w.rows)) [
    | inl n ↦ absurd (
        ground
          (arith, h, record_event_missing limits size id "bridge" (acceptance request d) now w n))
    | inr (r, e) ↦
        let event = acceptance request d in
        elim (Bool-cases (w.writable id)) [
          | inr x ↦ absurd (
              ground (
                arith,
                ap (λ o. o.0) h,
                ap (λ o. o.0) (record_event_unwritable limits size id "bridge" event now w r e x),
              ))
          | inl x ↦
              let (log, holds, n) =
                KeptAt-same _ (some r.event_seq) (w.journals id) (ap counted e) (k id x) in
              let same : written limits size id "bridge" event now w r ≡ w' =
                ap (λ o. o.1)
                  (sym (record_event_found limits size id "bridge" event now w r e x) ∙ h) in
              ap (λ u. find_input_accepted whole request (u.journals id)) (sym same)
              ∙ rw (==_refl id) (
                  write-find_input_accepted whole limits.segment_bytes limits.segment_count size
                    request (next_envelope limits size id "bridge" event now w r) log
                    (w.journals id) holds (omega (arith, n)) (v (r.event_seq + 1) id now d)
                    ((eq_iff request request).1 refl))
        ]
  ]

  module _ (config : Config) (allowed : List String) (id : ℕ) (payload : Prompt) (request : String)
      (replies : Replies) (now : ℕ) where
    pub submit_prompt_known :
        (w : World) (event : Event)
        → find_input_accepted whole request (w.journals id) ≡ some event
        → submit_prompt limits size config whole allowed id payload request replies now w
          ≡ (replay id request event, w)
    unfolding submit_prompt
    submit_prompt_known w event e = rw (e, submit_prompt) refl

    -- What is done with the delivery that was sent.
    abbrev pub accept : Delivery → Action Accepted
    accept d = record_event limits size id "bridge" (acceptance request d) now >>= λ _.
        pure (accepted_as id request d)

    abbrev pub sent : World → Result Delivery × World
    sent = handled (submit limits size config allowed id payload request replies now)

    pub submit_prompt_new :
        (w : World)
        → find_input_accepted whole request (w.journals id) ≡ none
        → submit_prompt limits size config whole allowed id payload request replies now w
          ≡ proceed (sent w).0 (sent w).1 (λ d. accept d (sent w).1)
    unfolding submit_prompt
    submit_prompt_new w n = rw (n, submit_prompt) refl

    -- An accepted prompt has left its acceptance, which says what was returned.
    submit_prompt-recorded :
        (w w' : World) (out : Accepted)
        → IsWhole whole request
        → Kept w
        → find_input_accepted whole request (w.journals id) ≡ none
        → submit_prompt limits size config whole allowed id payload request replies now w
          ≡ (ok out, w')
        → (event : Event) × (find_input_accepted whole request (w'.journals id) ≡ some event)
          × (replay id request event ≡ ok out)
    submit_prompt-recorded w w' out whole_line k n h =
        let (d, _, rest) =
          proceed_inv (sent w).0 (sent w).1 (λ d. accept d (sent w).1) out w'
            (sym (submit_prompt_new w n) ∙ h) in
        let v = (sent w).1 in
        let o = record_event limits size id "bridge" (acceptance request d) now v in
        let (u, e, final) =
          proceed_inv o.0 o.1 (λ _. (ok (accepted_as id request d), o.1)) out w' rest in
        let kept = submit-Keeps limits size config allowed id payload request replies now w k in
        let found = recorded-found id request d now v o.1 whole_line kept (ap (λ r. (r, o.1)) e) in
        (
          acceptance request d,
          ap (λ x. find_input_accepted whole request (x.journals id)) (sym (ap (λ x. x.1) final))
              ∙ found,
          replay-acceptance id request d ∙ ap (λ x. x.0) final,
        )

  -- A prompt that has been accepted is accepted again with the same result wherever its request id is
  -- repeated next, whatever else is asked for, allowed, configured or answered, and changes nothing: no
  -- process is asked anything. This is for journals in step with the counters of their sessions, and for a
  -- request id whose acceptance `splitlines` leaves in one line.
  pub submit_prompt_repeated :
      (config : Config) (allowed : List String) (id : ℕ) (payload : Prompt) (request : String)
      (replies : Replies) (now : ℕ) (w w' : World) (out : Accepted)
      → IsWhole whole request
      → Kept w
      → submit_prompt limits size config whole allowed id payload request replies now w
        ≡ (ok out, w')
      → (config' : Config) (allowed' : List String) (payload' : Prompt) (replies' : Replies)
        (now' : ℕ)
      → submit_prompt limits size config' whole allowed' id payload' request replies' now' w'
        ≡ (ok out, w')
  submit_prompt_repeated config allowed id payload request replies now w w' out v k h config'
        allowed' payload' replies' now' =
      let again = submit_prompt_known config' allowed' id payload' request replies' now' w' in
      elim (Option-cases (find_input_accepted whole request (w.journals id))) [
        | inl n ↦
            let (event, e, r) =
              submit_prompt-recorded config allowed id payload request replies now w w' out v k n
                h in
            again event e ∙ ap (λ x. (x, w')) r
        | inr (event, e) ↦
            let first =
              sym (submit_prompt_known config allowed id payload request replies now w event e)
              ∙ h in
            let e' =
              ap (λ x. find_input_accepted whole request (x.journals id))
                (sym (ap (λ x. x.1) first))
              ∙ e in
            again event e' ∙ ap (λ x. (x.0, w')) first
      ]
