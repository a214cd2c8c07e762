-- ===== src/Manager/Turns/Reached.antt =====
-- What a submission of a turn reads: its session, and the turn that its first transaction finds or makes.
use pi_opensandbox_runner.Base.{
  ℕ, String, ◌≡◌, refl, true, Option, none, some, [], ◌∷◌, ◌++◌, arith, eq_iff, Option-cases, inl,
  inr, ◌⊎◌, is_some,
}
use pi_opensandbox_runner.Base.Table.{find, get, get_key}
use pi_opensandbox_runner.Manager.Problem.{Result, ok, raise}
use pi_opensandbox_runner.Manager.Crypto.{CredentialCipher}
use pi_opensandbox_runner.Manager.Models.{
  SessionBinding, TurnBinding, Db, session_id, RunnerInstance,
}
use pi_opensandbox_runner.Manager.Api.{
  Principal, owned_instance, owned_session, session_connection, session_of, find_session, require,
  connection, BridgeConnection,
}
use pi_opensandbox_runner.Manager.Load.{given}
use pi_opensandbox_runner.Manager.Turns.{
  Begun, existing, started, turn_of, new_turn, begin_turn, turn_session,
}

-- What the first transaction finds or makes, where it does not raise.
pub record Opened (db db' : Db) (s : ℕ) (id input : String) (new_id : ℕ) (begun : Begun)
    : Type 0 where
  pub current : SessionBinding
  pub stored : get session_id s db.sessions ≡ some current
  pub outcome :
      ((t : TurnBinding) × (begun ≡ existing t)
        × (db' ≡ db)
        × (find (turn_of s id) db.turns ≡ some t)
        × (t.input_text ≡ input))
      ⊎ ((begun ≡ started (new_turn new_id s id input))
          × (db' ≡ record db { turns = db.turns ++ new_turn new_id s id input ∷ [] })
          × (find (turn_of s id) db.turns ≡ none))

pub begin_turn-Opened :
    (db db' : Db) (s : ℕ) (id input : String) (new_id : ℕ) (begun : Begun)
    → begin_turn db s id input new_id ≡ ok (begun, db')
    → Opened db db' s id input new_id begun
unfolding begin_turn
begin_turn-Opened db db' s id input new_id begun h =
    elim (Option-cases (get session_id s db.sessions)) [
      | inl e ↦ absurd (ground (arith, e))
      | inr (current, e) ↦
          let k : current.id ≡ s = get_key session_id s db.sessions current e in
          elim (Option-cases (find (turn_of s id) db.turns)) [
            | inl n ↦ record {
              current = current;
              stored = e;
              outcome = inr (ground (arith, k, e, n, h));
            }
            | inr (t, f) ↦ record {
              current = current;
              stored = e;
              outcome = inl (
                t,
                ground (arith, k, e, f, h, eq_iff t.input_text input),
                ground (arith, k, e, f, h),
                f,
                ground (arith, k, e, f, h, eq_iff t.input_text input),
              );
            }
          ]
    ]

-- A submission whose turn exists returns it where the input is the same.
pub begin_turn_existing :
    (db : Db) (s : ℕ) (id input : String) (new_id : ℕ) (current : SessionBinding) (t : TurnBinding)
    → get session_id s db.sessions ≡ some current
    → find (turn_of s id) db.turns ≡ some t
    → t.input_text ≡ input
    → begin_turn db s id input new_id ≡ ok (existing t, db)
unfolding begin_turn
begin_turn_existing db s id input new_id current t g f e =
    ground (arith, get_key session_id s db.sessions current, eq_iff t.input_text input)

-- What a request on a session reads before it does anything.
pub record Reached (db : Db) (cipher : CredentialCipher) (caller : Principal)
    (subject_ref session : String) (binding : SessionBinding) : Type 0 where
  pub instance_row : RunnerInstance
  pub bridge : BridgeConnection
  pub allowed : require caller "sessions:write" ≡ ok tt
  pub owned : owned_instance db caller subject_ref ≡ ok instance_row
  pub found : find (session_of instance_row.id session) db.sessions ≡ some binding
  pub connected : connection cipher instance_row ≡ ok bridge
  pub has_runtime : is_some (given binding.bridge_session_id) ≡ true

pub turn_session-Reached :
    (db : Db) (cipher : CredentialCipher) (caller : Principal) (subject_ref session : String)
    (binding : SessionBinding)
    → turn_session db cipher caller subject_ref session ≡ ok binding
    → Reached db cipher caller subject_ref session binding
unfolding turn_session session_connection owned_session find_session
turn_session-Reached db cipher caller subject_ref session binding h =
    by_require (require caller "sessions:write") refl
  where
    by_connection :
        (i : RunnerInstance) (b : SessionBinding) (c : Result BridgeConnection)
        → require caller "sessions:write" ≡ ok tt
        → owned_instance db caller subject_ref ≡ ok i
        → find (session_of i.id session) db.sessions ≡ some b
        → connection cipher i ≡ c
        → Reached db cipher caller subject_ref session binding
    by_connection i b (raise x) r o f c = absurd (ground (arith, r, o, f, c, h))
    by_connection i b (ok bridge) r o f c = record {
      instance_row = i;
      bridge = bridge;
      allowed = r;
      owned = o;
      connected = c;
      found = ground (arith, r, o, f, c, h);
      has_runtime = ground (arith, r, o, f, c, h);
    }

    by_session :
        (i : RunnerInstance) (b : Option SessionBinding)
        → require caller "sessions:write" ≡ ok tt
        → owned_instance db caller subject_ref ≡ ok i
        → find (session_of i.id session) db.sessions ≡ b
        → Reached db cipher caller subject_ref session binding
    by_session i none r o f = absurd (ground (arith, r, o, f, h))
    by_session i (some b) r o f = by_connection i b (connection cipher i) r o f refl

    by_instance :
        (i : Result RunnerInstance)
        → require caller "sessions:write" ≡ ok tt
        → owned_instance db caller subject_ref ≡ i
        → Reached db cipher caller subject_ref session binding
    by_instance (raise x) r o = absurd (ground (arith, r, o, h))
    by_instance (ok i) r o = by_session i (find (session_of i.id session) db.sessions) r o refl

    by_require :
        (r : Result (Unit {0}))
        → require caller "sessions:write" ≡ r
        → Reached db cipher caller subject_ref session binding
    by_require (raise x) r = absurd (ground (arith, r, h))
    by_require (ok tt) r = by_instance (owned_instance db caller subject_ref) r refl

pub turn_session_of_Reached :
    (db : Db) (cipher : CredentialCipher) (caller : Principal) (subject_ref session : String)
    (binding : SessionBinding)
    → Reached db cipher caller subject_ref session binding
    → turn_session db cipher caller subject_ref session ≡ ok binding
unfolding turn_session session_connection owned_session find_session
turn_session_of_Reached db cipher caller subject_ref session binding r =
    ground (arith, r.allowed, r.owned, r.found, r.connected, r.has_runtime)
