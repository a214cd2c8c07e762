-- ===== src/Bridge/Sessions/Deletion.antt =====
-- What is left of a session that has been deleted.
use pi_opensandbox_runner.Base.{
  ℕ, String, ◌≡◌, refl, ◌∙◌, sym, ap, Bool, true, false, not, ◌&&◌, Option, none, List, [], ◌∷◌,
  arith, ◌==◌, ==_refl, Option-cases, inl, inr,
}
use pi_opensandbox_runner.Base.Table.{get, remove}
use pi_opensandbox_runner.Bridge.Problem.{Result, ok, proceed_inv}
use pi_opensandbox_runner.Bridge.Catalog.{SessionRecord, Sessions, record_id, delete}
use pi_opensandbox_runner.Bridge.Journal.{Directory, Envelope}
use pi_opensandbox_runner.Bridge.Supervisor.{
  Limits, Process, Processes, World, active, pop_process, set_journal, stop,
}
use pi_opensandbox_runner.Bridge.Supervisor.Capacity.{stop-cases, finish_stop-processes}
use pi_opensandbox_runner.Bridge.Prompts.{Action, ◌>>=◌, answer, require_session}
use pi_opensandbox_runner.Bridge.Sessions.{
  assert_row, refuse_if, is_active, failed_deletion, delete_journal, erase_session, delete_session,
}

remove-get {ℓ} :
    {A : Type ℓ} (key : A → ℕ) (k : ℕ) (xs : List A)
    → get key k (remove (λ x. key x == k) xs) ≡ none
unfolding remove get
remove-get key k [] = refl
remove-get key k (x ∷ xs) = ground (arith, remove-get key k xs)

delete-get : (id : ℕ) (rows : Sessions) → get record_id id (delete id rows).1 ≡ none
unfolding delete
delete-get id rows = elim (Option-cases (get record_id id rows)) [
  | inl n ↦ rw (n, delete) n
  | inr (r, e) ↦ rw (e, delete) (remove-get record_id id rows)
]

pop_process-active : (id : ℕ) (ps : Processes) → active id (pop_process id ps) ≡ none
unfolding active pop_process
pop_process-active id ps = rw (remove-get (λ (p : Process). p.session) id ps) refl

assert_row-world :
    (change : Sessions → Option SessionRecord × Sessions) (w : World)
    → (assert_row change w).1 ≡ record w { rows = (change w.rows).1 }
assert_row-world change w = elim (Option-cases (change w.rows).0) [
  | inl n ↦ rw (n, assert_row) refl
  | inr (s, e) ↦ rw (e, assert_row) refl
]

require_session-state : (id : ℕ) (w : World) → (require_session id w).1 ≡ w
unfolding require_session
require_session-state id w = elim (Option-cases (get record_id id w.rows)) [
  | inl n ↦ rw (n, require_session) refl
  | inr (r, e) ↦ rw (e, require_session) refl
]

refuse_if-state :
    (b : Bool) (code : ℕ) (text : String) (w : World) → (refuse_if b code text w).1 ≡ w
refuse_if-state true code text w = refl
refuse_if-state false code text w = refl

module _ (limits : Limits) (size : Envelope → ℕ) where
  -- A stop that returns leaves no active process.
  stop-inactive :
      (id : ℕ) (reply : Result (Unit {0})) (now : ℕ) (w w' : World) (b : Bool)
      → stop limits size id true reply now w ≡ (ok b, w')
      → active id w'.processes ≡ none
  stop-inactive id reply now w w' b h = elim (stop-cases limits size id true reply now w) [
    | inl (n, e) ↦ ap (λ o. active id o.1.processes) (sym h ∙ e) ∙ n
    | inr (inl e) ↦
        ap (λ o. active id o.1.processes) (sym h ∙ e)
        ∙ ap (active id) (finish_stop-processes limits size id now _)
        ∙ pop_process-active id w.processes
    | inr (inr (f, e)) ↦ absurd (ground (arith, ap (λ o. o.0) (sym h ∙ e)))
  ]

  erase_session-erased :
      (left : Directory → Directory) (id : ℕ) (unlinked : Result (Unit {0})) (w w' : World)
      → erase_session left id unlinked w ≡ (ok tt, w')
      → (get record_id id w'.rows ≡ none)
        × (w'.processes ≡ w.processes)
        × (w'.journals id ≡ left (w.journals id))
  unfolding erase_session
  erase_session-erased left id unlinked w w' h =
      let o = assert_row (delete id) w in
      let (r, _, rest) =
        proceed_inv o.0 o.1
          (λ _. (answer (failed_deletion unlinked) >>= λ _. delete_journal left id) o.1) tt w' h in
      let (_, _, last) =
        proceed_inv (failed_deletion unlinked) o.1 (λ _. delete_journal left id o.1) tt w' rest in
      let row = assert_row-world (delete id) w in
      let final : record o.1 { journals = set_journal id (left (o.1.journals id)) o.1.journals }
          ≡ w' =
        ap (λ x. x.1) last in
      (
        ap (λ v. get record_id id v.rows) (sym final)
            ∙ ap (λ v. get record_id id v.rows) row
            ∙ delete-get id w.rows,
        ap (λ v. v.processes) (sym final) ∙ ap (λ v. v.processes) row,
        ap (λ v. v.journals id) (sym final) ∙ rw (==_refl id) (ap (λ v. left (v.journals id)) row),
      )

  -- Where the deletion of a session returns, the session has no row and no active process, and its journal
  -- is what `rmtree` leaves of the one that it had when its process had been stopped.
  pub delete_session-gone :
      (left : Directory → Directory) (id : ℕ) (force : Bool) (reply unlinked : Result (Unit {0}))
      (now : ℕ) (w w' : World)
      → delete_session limits size left id force reply unlinked now w ≡ (ok tt, w')
      → (get record_id id w'.rows ≡ none)
        × (active id w'.processes ≡ none)
        × (w'.journals id ≡ left ((stop limits size id true reply now w).1.journals id))
  unfolding delete_session
  delete_session-gone left id force reply unlinked now w w' h =
      let refuse : Action (Unit {0}) =
        λ v. refuse_if (is_active id v && not force) 409 "session_active" v in
      let halt = stop limits size id true reply now in
      let erase = erase_session left id unlinked in
      let a = require_session id w in
      let (_, _, h1) =
        proceed_inv a.0 a.1 (λ _. (refuse >>= λ _. halt >>= λ _. erase) a.1) tt w' h in
      let b = refuse a.1 in
      let (_, _, h2) = proceed_inv b.0 b.1 (λ _. (halt >>= λ _. erase) b.1) tt w' h1 in
      let c = halt b.1 in
      let (stopped, e, h3) = proceed_inv c.0 c.1 (λ _. erase c.1) tt w' h2 in
      let (row, same, journal) = erase_session-erased left id unlinked c.1 w' h3 in
      let inactive = stop-inactive id reply now b.1 c.1 stopped (ap (λ x. (x, c.1)) e) in
      let found : a.1 ≡ w = require_session-state id w in
      let allowed : b.1 ≡ w =
        refuse_if-state (is_active id a.1 && not force) 409 "session_active" a.1 ∙ found in
      (
        row,
        ap (active id) same ∙ inactive,
        journal ∙ ap (λ v. left ((halt v).1.journals id)) allowed,
      )
