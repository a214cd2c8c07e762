-- ===== src/Manager/Turns/Cancel.antt =====
-- `cancel_turn` of app/turn_routes.py: what a cancellation leaves.
use pi_opensandbox_runner.Base.{
  String, ◌≡◌, refl, false, Option, none, some, arith, Bool-cases, inl, inr, is_some, ◌&&◌,
  if◌then◌else◌,
}
use pi_opensandbox_runner.Base.Table.{find, modify, find-holds}
use pi_opensandbox_runner.Base.Rows.{Unique, get_of_find, find-modify}
use pi_opensandbox_runner.Manager.Problem.{Result, ok, raise, proceed_inv}
use pi_opensandbox_runner.Manager.Crypto.{CredentialCipher}
use pi_opensandbox_runner.Manager.Models.{
  RunnerInstance, SessionBinding, SessionState, TurnBinding, TurnStatus, Db, session_id, turn_id,
}
use pi_opensandbox_runner.Manager.Load.{given}
use pi_opensandbox_runner.Manager.Api.{
  Principal, owned_instance, owned_session, session_connection, session_of, find_session, require,
}
use pi_opensandbox_runner.Manager.Turns.{
  turn_of, update_turn, update_session, cancel_row, is_text, finish_cancel, cancel_turn, ignoring,
}

-- The turn is stored as cancelled, and its session does not name it as its active turn.
pub record Cancelled (db : Db) (caller : Principal) (subject_ref session id : String)
    (t : TurnBinding) : Type 0 where
  pub binding : SessionBinding
  pub owned : owned_session db caller subject_ref session ≡ ok binding
  pub stored : find (turn_of binding.id id) db.turns ≡ some t
  pub is_cancelled : t.status ≡ TurnStatus.cancelled
  pub released : is_text id binding.active_turn_id ≡ false

release : SessionBinding → SessionBinding
release b = record b { active_turn_id = none; state = SessionState.ready }

module _ (db : Db) (caller : Principal) (subject_ref session id : String) (i : RunnerInstance)
    (b : SessionBinding) (t : TurnBinding) (us : Unique session_id db.sessions)
    (ut : Unique turn_id db.turns) (owned : owned_instance db caller subject_ref ≡ ok i)
    (found : find (session_of i.id session) db.sessions ≡ some b)
    (stored : find (turn_of b.id id) db.turns ≡ some t) where
  cancelled_turn :
      find (turn_of b.id id) (modify turn_id t.id cancel_row db.turns) ≡ some (cancel_row t)
  cancelled_turn =
      find-modify turn_id _ cancel_row t.id db.turns t (get_of_find turn_id _ db.turns t ut stored)
        stored (find-holds _ db.turns t stored)

  idle-Cancelled :
      is_text id b.active_turn_id ≡ false
      → Cancelled (update_turn db t.id cancel_row) caller subject_ref session id (cancel_row t)
  unfolding owned_session find_session owned_instance
  idle-Cancelled x = record {
    binding = b;
    owned = ground (arith, owned, found);
    stored = cancelled_turn;
    is_cancelled = refl;
    released = x;
  }

  active-Cancelled :
      Cancelled
        (update_session (update_turn db t.id cancel_row) b.id release)
        caller
        subject_ref
        session
        id
        (cancel_row t)
  unfolding owned_session find_session owned_instance release
  active-Cancelled =
      let kept : find (session_of i.id session) (modify session_id b.id release db.sessions)
          ≡ some (release b) =
        find-modify session_id _ release b.id db.sessions b
          (get_of_find session_id _ db.sessions b us found) found
          (find-holds _ db.sessions b found) in
      record {
        binding = release b;
        owned = ground (arith, owned, kept);
        stored = cancelled_turn;
        is_cancelled = refl;
        released = refl;
      }

finish_cancel-Cancelled :
    (db db' : Db) (caller : Principal) (subject_ref session id : String) (t : TurnBinding)
    → Unique session_id db.sessions
    → Unique turn_id db.turns
    → finish_cancel db caller subject_ref session id ≡ ok (t, db')
    → Cancelled db' caller subject_ref session id t
unfolding finish_cancel owned_session find_session owned_instance release
finish_cancel-Cancelled db db' caller subject_ref session id t us ut h =
    by_instance (owned_instance db caller subject_ref) refl
  where
    by_turn :
        (i : RunnerInstance) (b : SessionBinding) (o : Option TurnBinding)
        → owned_instance db caller subject_ref ≡ ok i
        → find (session_of i.id session) db.sessions ≡ some b
        → find (turn_of b.id id) db.turns ≡ o
        → Cancelled db' caller subject_ref session id t
    by_turn i b none e f o = absurd (ground (arith, e, f, o, h))
    by_turn i b (some t₀) e f o = elim (Bool-cases (is_text id b.active_turn_id)) [
      | inl x ↦
          let same : (cancel_row t₀ ≡ t)
              × (update_session (update_turn db t₀.id cancel_row) b.id release ≡ db') =
            ground (arith, e, f, o, x, h) in
          rw (← same.0, ← same.1)
            (active-Cancelled db caller subject_ref session id i b t₀ us ut e f o)
      | inr x ↦
          let same : (cancel_row t₀ ≡ t) × (update_turn db t₀.id cancel_row ≡ db') =
            ground (arith, e, f, o, x, h) in
          rw (← same.0, ← same.1)
            (idle-Cancelled db caller subject_ref session id i b t₀ us ut e f o x)
    ]

    by_session :
        (i : RunnerInstance) (o : Option SessionBinding)
        → owned_instance db caller subject_ref ≡ ok i
        → find (session_of i.id session) db.sessions ≡ o
        → Cancelled db' caller subject_ref session id t
    by_session i none e o = absurd (ground (arith, e, o, h))
    by_session i (some b) e o = by_turn i b (find (turn_of b.id id) db.turns) e o refl

    by_instance :
        (i : Result RunnerInstance)
        → owned_instance db caller subject_ref ≡ i
        → Cancelled db' caller subject_ref session id t
    by_instance (raise x) e = absurd (ground (arith, e, h))
    by_instance (ok i) e = by_session i (find (session_of i.id session) db.sessions) e refl

-- A cancellation that returns a turn leaves that turn stored as cancelled, whatever its status was,
-- and leaves its session without it as the active turn. Session ids and turn row ids are unique.
pub cancel_turn-Cancelled :
    (cipher : CredentialCipher) (caller : Principal) (subject_ref session id : String)
    (answer : Result (Unit {0})) (db db' : Db) (t : TurnBinding)
    → Unique session_id db.sessions
    → Unique turn_id db.turns
    → cancel_turn cipher caller subject_ref session id answer db ≡ (ok t, db')
    → Cancelled db' caller subject_ref session id t
unfolding cancel_turn
cancel_turn-Cancelled cipher caller subject_ref session id answer db db' t us ut h =
    let (allowed, _, h₁) = proceed_inv (require caller "sessions:write") db _ t db' h in
    let ((bridge, binding), _, h₂) =
      proceed_inv (session_connection db cipher caller subject_ref session) db _ t db' h₁ in
    let (aborted, _, h₃) =
      proceed_inv
        (if is_text id binding.active_turn_id && is_some (given binding.bridge_session_id)
          then ignoring 409 answer
          else ok tt)
        db _ t db' h₂ in
    let ((t', db₁), e, h₄) =
      proceed_inv (finish_cancel db caller subject_ref session id) db _ t db' h₃ in
    finish_cancel-Cancelled db db' caller subject_ref session id t us ut (ground (arith, e, h₄))
