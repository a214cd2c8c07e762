-- ===== src/Bridge/Supervisor/Reload.antt =====
-- After a reload of the MCP gateway no process with the old tools starts another turn.
use pi_opensandbox_runner.Base.{
  ℕ, ◌+◌, ◌≤◌, String, ◌≡◌, refl, ◌∙◌, sym, ap, Bool, true, false, not, ◌&&◌, Option, none, some,
  List, [], ◌∷◌, arith, ◌==◌, if◌then◌else◌, All, Bool-cases, Option-cases, inl, inr, eq_of_==,
}
use mathlib.Core.Path.{subst}
use pi_opensandbox_runner.Base.Table.{get, get_key}
use pi_opensandbox_runner.Bridge.Problem.{
  Result, ok, raise, proceed_inv, proceed_state, Result-cases,
}
use pi_opensandbox_runner.Bridge.Catalog.{SessionRecord}
use pi_opensandbox_runner.Bridge.Journal.{Event, Envelope, append}
use pi_opensandbox_runner.Bridge.Supervisor.{
  Limits, Config, Process, Processes, World, session_of, is_idle, if_alive, active, bridge_event,
  pop_process, record_event, record_and, report_exit, process_exited, finish_stop, stop,
  needs_configuration_restart,
}
use pi_opensandbox_runner.Bridge.Supervisor.Events.{count_one, stop_each, reload_mcp_gateway}
use pi_opensandbox_runner.Bridge.Supervisor.Steps.{count_one-state}
use pi_opensandbox_runner.Bridge.Supervisor.Processes.{get-remove_ne}
use pi_opensandbox_runner.Bridge.Supervisor.Capacity.{stop-cases, stop_idle-processes}

get_remove_self : (k : ℕ) (ps : Processes) → get session_of k (pop_process k ps) ≡ none
unfolding get pop_process pi_opensandbox_runner.Base.Table.remove
get_remove_self k [] = refl
get_remove_self k (p ∷ ps) = ground (arith, get_remove_self k ps)

-- A process that is active after an entry is taken out was active before, in another session.
pop_process-active :
    (k j : ℕ) (ps : Processes) (p : Process)
    → active j (pop_process k ps) ≡ some p
    → (active j ps ≡ some p) × ((k == j) ≡ false)
unfolding active pop_process
pop_process-active k j ps p h = elim (Bool-cases (k == j)) [
  | inr c ↦ (ap if_alive (sym (get-remove_ne session_of j k ps c)) ∙ h, c)
  | inl c ↦
      let gone =
        ap (λ n. get session_of n (pop_process k ps)) (sym (eq_of_== k j c))
        ∙ get_remove_self k ps in
      absurd (ground (arith, h, ap if_alive gone))
]

active_inv :
    (j : ℕ) (ps : Processes) (p : Process)
    → active j ps ≡ some p
    → (get session_of j ps ≡ some p) × (p.alive ≡ true)
unfolding active
active_inv j ps p h = elim (Option-cases (get session_of j ps)) [
  | inl n ↦ absurd (ground (arith, h, n))
  | inr (q, e) ↦ elim (Bool-cases q.alive) [
    | inr c ↦ absurd (ground (arith, h, e, c))
    | inl c ↦
        let same : q ≡ p = ground (arith, h, e, c) in
        (e ∙ ap some same, sym (ap (λ x. x.alive) same) ∙ c)
  ]
]

module _ (limits : Limits) (size : Envelope → ℕ) where
  record_event-generation :
      (id : ℕ) (source : String) (event : Event) (now : ℕ) (w : World)
      → (record_event limits size id source event now w).1.generation ≡ w.generation
  unfolding record_event
  record_event-generation id source event now w =
      elim (Result-cases (
        append limits.segment_bytes limits.segment_count size id source event now w.rows
          (w.journals id))) [
            | inl (a, e) ↦ elim (Bool-cases (w.writable id)) [
              | inl c ↦ rw (e, c, record_event) refl
              | inr c ↦ rw (e, c, record_event) refl
            ]
            | inr (f, e) ↦ rw (e, record_event) refl
          ]

  record_and-generation {ℓ} :
      {B : Type ℓ} (b : B) (id : ℕ) (type : String) (now : ℕ) (w : World)
      → (record_and limits size b id type now w).1.generation ≡ w.generation
  unfolding record_and
  record_and-generation b id type now w =
      let o = record_event limits size id "bridge" (bridge_event type "") now w in
      let kept = record_event-generation id "bridge" (bridge_event type "") now w in
      proceed_state (λ (v : World). v.generation ≡ w.generation) o.0 o.1 (λ _. (ok b, o.1)) kept
        (λ a e. kept)

  report_exit-generation :
      (id : ℕ) (expected : Bool) (error : String) (now : ℕ) (w : World)
      → (report_exit limits size id expected error now w).generation ≡ w.generation
  unfolding report_exit
  report_exit-generation id expected error now w = elim (Bool-cases w.closing) [
    | inl c ↦ rw (c, report_exit) refl
    | inr c ↦ rw (c, report_exit) (record_event-generation id _ _ now _)
  ]

  finish_stop-generation :
      (id now : ℕ) (w : World) → (finish_stop limits size id now w).1.generation ≡ w.generation
  unfolding finish_stop process_exited
  finish_stop-generation id now w =
      record_and-generation true id "process_stopped" now _
      ∙ report_exit-generation id true "" now _

  stop-generation :
      (id : ℕ) (now : ℕ) (w : World)
      → (stop limits size id false (ok tt) now w).1.generation ≡ w.generation
  stop-generation id now w = elim (stop-cases limits size id false (ok tt) now w) [
    | inl (_, e) ↦ ap (λ o. o.1.generation) e
    | inr (inl e) ↦ ap (λ o. o.1.generation) e ∙ finish_stop-generation id now _
    | inr (inr (f, e)) ↦ ap (λ o. o.1.generation) e
  ]

  -- After a stop the session is not active, and what is active was so before.
  stop-active :
      (id j : ℕ) (now : ℕ) (w : World) (p : Process)
      → active j (stop limits size id false (ok tt) now w).1.processes ≡ some p
      → (active j w.processes ≡ some p) × ((id == j) ≡ false)
  unfolding stop
  stop-active id j now w p h = elim (Option-cases (active id w.processes)) [
    | inr (q, e) ↦
        pop_process-active id j w.processes p
          (ap (active j) (sym (stop_idle-processes limits size id now w q e)) ∙ h)
    | inl n ↦
        let stays : stop limits size id false (ok tt) now w ≡ (ok false, w) = rw (n, stop) refl in
        let h' = ap (λ o. active j o.1.processes) (sym stays) ∙ h in
        (
          h',
          elim (Bool-cases (id == j)) [
            | inr c ↦ c
            | inl c ↦
                absurd (ground (arith, h', n, ap (λ k. active k w.processes) (eq_of_== id j c)))
          ],
        )
  ]

  count_one_inv :
      (o : Result ℕ × World) (n : ℕ) (w : World)
      → count_one o ≡ (ok n, w)
      → (m : ℕ) × (o ≡ (ok m, w))
  count_one_inv (ok m, v) n w h = (m, ap (λ x. (ok m, x.1)) h)
  count_one_inv (raise e, v) n w h = absurd (ground (arith, ap (λ x. x.0) h))

  -- None of the processes that were to be stopped is active after stops that all return.
  stop_each-active :
      (test : Process → Bool) (now : ℕ) (ps : Processes) (w w' : World) (n j : ℕ) (p : Process)
      → stop_each limits size test now ps w ≡ (ok n, w')
      → active j w'.processes ≡ some p
      → (active j w.processes ≡ some p) × All (λ x. (test x && (x.session == j)) ≡ false) ps
  unfolding stop_each
  stop_each-active test now [] w w' n j p h a = (ap (λ o. active j o.1.processes) h ∙ a, tt)
  stop_each-active test now (x ∷ ps) w w' n j p h a = elim (Bool-cases (test x)) [
    | inr c ↦
        let (b, all) = stop_each-active test now ps w w' n j p (rw c at h) a in
        (b, (ground (arith, c), all))
    | inl c ↦
        let o = stop limits size x.session false (ok tt) now w in
        let h' = rw c at h in
        let (_, _, rest) =
          proceed_inv o.0 o.1 (λ _. count_one (stop_each limits size test now ps o.1)) n w' h' in
        let (m, r) = count_one_inv (stop_each limits size test now ps o.1) n w' rest in
        let (b, all) = stop_each-active test now ps o.1 w' m j p r a in
        let (before, other) = stop-active x.session j now w p b in
        (before, (ground (arith, c, other), all))
  ]

  stop_each-generation :
      (test : Process → Bool) (now : ℕ) (ps : Processes) (w : World)
      → (stop_each limits size test now ps w).1.generation ≡ w.generation
  unfolding stop_each
  stop_each-generation test now [] w = refl
  stop_each-generation test now (x ∷ ps) w = elim (Bool-cases (test x)) [
    | inr c ↦ rw (c, stop_each) (stop_each-generation test now ps w)
    | inl c ↦
        let o = stop limits size x.session false (ok tt) now w in
        let first = stop-generation x.session now w in
        let rest = stop_each limits size test now ps o.1 in
        rw (c, stop_each)
          (proceed_state (λ (v : World). v.generation ≡ w.generation) o.0 o.1 (λ _. count_one rest)
            first
            (λ a e.
              ap (λ v. v.generation) (count_one-state rest)
              ∙ stop_each-generation test now ps o.1
              ∙ first))
  ]

  All-active :
      (P : Process → Type 0) (ps : Processes) (j : ℕ) (p : Process)
      → All P ps
      → get session_of j ps ≡ some p
      → P p
  unfolding get
  All-active P [] j p h g = absurd (ground arith)
  All-active P (x ∷ ps) j p h g = elim (Bool-cases (x.session == j)) [
    | inl c ↦ let same : x ≡ p = ground (arith, c, g) in subst P same h.0
    | inr c ↦ All-active P ps j p h.1 (rw c at g)
  ]

  -- After a reload that returns, every active process has its turn running and is restarted before another
  -- prompt, if no process had a number above the current one.
  pub reload_mcp_gateway-restarts :
      (config : Config) (r : SessionRecord) (now : ℕ) (w w' : World) (n : ℕ) (p : Process)
      → All (λ q. q.mcp_generation ≤ w.generation) w.processes
      → reload_mcp_gateway limits size now w ≡ (ok n, w')
      → active r.id w'.processes ≡ some p
      → (p.is_streaming ≡ true) × (needs_configuration_restart config r w' ≡ true)
  unfolding reload_mcp_gateway needs_configuration_restart
  reload_mcp_gateway-restarts config r now w w' n p g h a =
      let v = record w { generation = w.generation + 1 } in
      let (before, all) = stop_each-active is_idle now w.processes v w' n r.id p h a in
      let (here, live) = active_inv r.id w.processes p before in
      let stopped =
        All-active (λ x. (is_idle x && (x.session == r.id)) ≡ false) w.processes r.id p all here in
      let key = get_key session_of r.id w.processes p here in
      let old = All-active (λ q. q.mcp_generation ≤ w.generation) w.processes r.id p g here in
      let next : w'.generation ≡ w.generation + 1 =
        ap (λ o. o.1.generation) (sym h) ∙ stop_each-generation is_idle now w.processes v in
      let changed : (p.mcp_generation == w'.generation) ≡ false = ground (arith, old, next) in
      (ground (arith, stopped, key, live), ground (arith, a, changed))
