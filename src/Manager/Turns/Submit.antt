-- ===== src/Manager/Turns/Submit.antt =====
-- A turn id is an idempotency key of its session: a repeated submission finds the first one's turn.
use pi_opensandbox_runner.Base.{
  ℕ, String, ◌≡◌, refl, ◌∙◌, true, false, Option, none, some, [], ◌∷◌, ◌++◌, arith, str_eq, inl,
  inr, ==_refl,
}
use text.Mathlib.TextPositions.{eq_refl}
use pi_opensandbox_runner.Base.Table.{find, get, modify, get-append_new, get_key, find-holds}
use pi_opensandbox_runner.Base.Rows.{
  Unique, get_of_find, find-modify, find-append_none, get-modify_to,
}
use pi_opensandbox_runner.Manager.Problem.{
  upstream, exception, problem, manager_problem, Result, ok, raise,
}
use pi_opensandbox_runner.Manager.Crypto.{CredentialCipher}
use pi_opensandbox_runner.Manager.Models.{
  SessionBinding, TurnBinding, Db, SessionState, session_id, turn_id,
}
use pi_opensandbox_runner.Manager.Api.{Principal, owned_instance}
use pi_opensandbox_runner.Manager.Load.{given}
use pi_opensandbox_runner.Manager.Turns.{
  Begun, started, turn_of, new_turn, run_turn, begin_turn, accept_turn, send_turn, turn_session,
  put_turn, run_turn,
}
use pi_opensandbox_runner.Manager.Turns.Reached.{
  Opened, begin_turn-Opened, begin_turn_existing, Reached, turn_session-Reached,
  turn_session_of_Reached,
}

owned_instance_same :
    (db db' : Db) (caller : Principal) (subject_ref : String)
    → db'.instances ≡ db.instances
    → owned_instance db' caller subject_ref ≡ owned_instance db caller subject_ref
unfolding owned_instance
owned_instance_same db db' caller subject_ref h = cc

mark_active : String → SessionBinding → SessionBinding
mark_active id b = record b { state = SessionState.running; active_turn_id = some id }

-- What a submission leaves for its repetition.
record Sent (db : Db) (cipher : CredentialCipher) (caller : Principal)
    (subject_ref session id input : String) (t : TurnBinding) : Type 0 where
  binding : SessionBinding
  current : SessionBinding
  reached : Reached db cipher caller subject_ref session binding
  stored : get session_id binding.id db.sessions ≡ some current
  found : find (turn_of binding.id id) db.turns ≡ some t
  same_input : t.input_text ≡ input

put_turn_of_Sent :
    (db : Db) (cipher : CredentialCipher) (caller : Principal)
    (subject_ref session id input : String) (new_id : ℕ) (answer : Result (Option String))
    (t : TurnBinding)
    → Sent db cipher caller subject_ref session id input t
    → put_turn cipher caller subject_ref session id input new_id answer db ≡ (ok t, db)
unfolding put_turn send_turn
put_turn_of_Sent db cipher caller subject_ref session id input new_id answer t s = ground (
  arith,
  turn_session_of_Reached db cipher caller subject_ref session s.binding s.reached,
  begin_turn_existing db s.binding.id id input new_id s.current t s.stored s.found s.same_input,
)

-- The database after a submission that starts a turn and that the bridge accepts.
abbrev submitted : Db → ℕ → String → ℕ → String → Option String → Db
unfolding new_turn mark_active
submitted db s id new_id input command =
    let turns = db.turns ++ new_turn new_id s id input ∷ [] in
    record db {
      turns = modify turn_id new_id (run_turn command) turns;
      sessions = modify session_id s (mark_active id) db.sessions;
    }

module _ (db : Db) (cipher : CredentialCipher) (caller : Principal)
    (subject_ref session id input : String) (new_id : ℕ) (command : Option String)
    (binding : SessionBinding) (new : get turn_id new_id db.turns ≡ none)
    (stored : get session_id binding.id db.sessions ≡ some binding) where
  accept_turn-submitted :
      accept_turn
        (record db { turns = db.turns ++ new_turn new_id binding.id id input ∷ [] })
        new_id
        binding.id
        id
        command
      ≡ ok (
        run_turn command (new_turn new_id binding.id id input),
        submitted db binding.id id new_id input command,
      )
  unfolding accept_turn new_turn mark_active
  accept_turn-submitted =
      rw
        (
          get-append_new turn_id new_id db.turns (new_turn new_id binding.id id input) new refl,
          stored,
        )
        refl

  submitted-Sent :
      Reached db cipher caller subject_ref session binding
      → find (turn_of binding.id id) db.turns ≡ none
      → Sent
          (submitted db binding.id id new_id input command)
          cipher
          caller
          subject_ref
          session
          id
          input
          (run_turn command (new_turn new_id binding.id id input))
  unfolding new_turn mark_active
  submitted-Sent r n =
      let turn = new_turn new_id binding.id id input in
      let itself : turn_of binding.id id turn ≡ true =
        ground (arith, ==_refl binding.id, eq_refl id) in
      record {
        binding = mark_active id binding;
        current = mark_active id binding;
        reached = record {
          instance_row = r.instance_row;
          bridge = r.bridge;
          allowed = r.allowed;
          owned =
              owned_instance_same db (submitted db binding.id id new_id input command) caller
                subject_ref refl
              ∙ r.owned;
          found =
              find-modify session_id _ (mark_active id) binding.id db.sessions binding stored
                r.found (find-holds _ db.sessions binding r.found);
          connected = r.connected;
          has_runtime = r.has_runtime;
        };
        stored =
            get-modify_to session_id binding.id (mark_active id) db.sessions binding stored refl;
        found =
            find-modify turn_id _ (run_turn command) new_id (db.turns ++ turn ∷ []) turn
              (get-append_new turn_id new_id db.turns turn new refl)
              (find-append_none _ db.turns turn n itself) itself;
        same_input = refl;
      }

put_turn-Sent :
    (cipher : CredentialCipher) (caller : Principal) (subject_ref session id input : String)
    (new_id : ℕ) (answer : Result (Option String)) (db db' : Db) (t : TurnBinding)
    → Unique session_id db.sessions
    → get turn_id new_id db.turns ≡ none
    → put_turn cipher caller subject_ref session id input new_id answer db ≡ (ok t, db')
    → Sent db' cipher caller subject_ref session id input t
unfolding put_turn send_turn new_turn
put_turn-Sent cipher caller subject_ref session id input new_id answer db db' t u new h =
    by_session (turn_session db cipher caller subject_ref session) refl
  where
    by_answer :
        (binding : SessionBinding) (a : Result (Option String))
        → Reached db cipher caller subject_ref session binding
        → get session_id binding.id db.sessions ≡ some binding
        → find (turn_of binding.id id) db.turns ≡ none
        → send_turn
            (record db { turns = db.turns ++ new_turn new_id binding.id id input ∷ [] })
            binding
            id
            a
            (started (new_turn new_id binding.id id input))
          ≡ (ok t, db')
        → Sent db' cipher caller subject_ref session id input t
    by_answer binding (raise (upstream p)) r g n e = absurd (ground (arith, e))
    by_answer binding (raise (problem p)) r g n e = absurd (ground (arith, e))
    by_answer binding (raise exception) r g n e = absurd (ground (arith, e))
    by_answer binding (ok command) r g n e =
        let same : (run_turn (given command) (new_turn new_id binding.id id input) ≡ t)
            × (submitted db binding.id id new_id input (given command) ≡ db') =
          ground (
            arith,
            e,
            accept_turn-submitted db cipher caller subject_ref session id input new_id
                (given command) binding new g,
          ) in
        rw (← same.0, ← same.1)
          (submitted-Sent db cipher caller subject_ref session id input new_id (given command)
            binding new g r n)

    by_begin :
        (binding : SessionBinding) (b : Result (Begun × Db))
        → turn_session db cipher caller subject_ref session ≡ ok binding
        → begin_turn db binding.id id input new_id ≡ b
        → Sent db' cipher caller subject_ref session id input t
    by_begin binding (raise x) s b = absurd (ground (arith, s, b, h))
    by_begin binding (ok (begun, db₁)) s b =
        let o : Opened db db₁ binding.id id input new_id begun =
          begin_turn-Opened db db₁ binding.id id input new_id begun b in
        let r : Reached db cipher caller subject_ref session binding =
          turn_session-Reached db cipher caller subject_ref session binding s in
        let g : get session_id binding.id db.sessions ≡ some binding =
          get_of_find session_id _ db.sessions binding u r.found in
        elim o.outcome [
          | inl (t', e, d, f, i) ↦
              let same : (t' ≡ t) × (db ≡ db') = ground (arith, h, s, b, e, d) in
              rw (← same.0, ← same.1)
                (record {
                  binding = binding;
                  current = binding;
                  reached = r;
                  stored = g;
                  found = f;
                  same_input = i;
                })
          | inr (e, e', n) ↦ by_answer binding answer r g n (ground (arith, h, s, b, e, e'))
        ]

    by_session :
        (b : Result SessionBinding)
        → turn_session db cipher caller subject_ref session ≡ b
        → Sent db' cipher caller subject_ref session id input t
    by_session (raise x) s = absurd (ground (arith, s, h))
    by_session (ok binding) s = by_begin binding (begin_turn db binding.id id input new_id) s refl

-- Once a submission of a turn has returned the turn, the same submission again, whatever row id it
-- would draw and whatever the bridge would answer it, returns the same turn and changes nothing in
-- the database. Session ids are unique, and the first submission's row id is new.
pub put_turn_repeated :
    (cipher : CredentialCipher) (caller : Principal) (subject_ref session id input : String)
    (new_id again_id : ℕ) (answer again : Result (Option String)) (db db' : Db) (t : TurnBinding)
    → Unique session_id db.sessions
    → get turn_id new_id db.turns ≡ none
    → put_turn cipher caller subject_ref session id input new_id answer db ≡ (ok t, db')
    → put_turn cipher caller subject_ref session id input again_id again db' ≡ (ok t, db')
put_turn_repeated cipher caller subject_ref session id input new_id again_id answer again db db' t u
      new h =
    put_turn_of_Sent db' cipher caller subject_ref session id input again_id again t
      (put_turn-Sent cipher caller subject_ref session id input new_id answer db db' t u new h)

-- Once a submission of a turn has returned the turn, a submission of another input under the same
-- turn id is refused as a conflict and changes nothing in the database. Session ids are unique, and
-- the first submission's row id is new.
pub put_turn_conflict :
    (cipher : CredentialCipher) (caller : Principal) (subject_ref session id input other : String)
    (new_id again_id : ℕ) (answer again : Result (Option String)) (db db' : Db) (t : TurnBinding)
    → Unique session_id db.sessions
    → get turn_id new_id db.turns ≡ none
    → str_eq input other ≡ false
    → put_turn cipher caller subject_ref session id input new_id answer db ≡ (ok t, db')
    → put_turn cipher caller subject_ref session id other again_id again db'
      ≡ (raise (problem (manager_problem 409 "idempotency_conflict")), db')
unfolding put_turn begin_turn
put_turn_conflict cipher caller subject_ref session id input other new_id again_id answer again db
      db' t u new ne h =
    let s : Sent db' cipher caller subject_ref session id input t =
      put_turn-Sent cipher caller subject_ref session id input new_id answer db db' t u new h in
    ground (
      arith,
      ne,
      turn_session_of_Reached db' cipher caller subject_ref session s.binding s.reached,
      s.stored,
      s.found,
      s.same_input,
      get_key session_id s.binding.id db'.sessions s.current,
    )
