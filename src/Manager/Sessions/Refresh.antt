-- ===== src/Manager/Sessions/Refresh.antt =====
-- What a refresh and a deletion of a session leave.
use pi_opensandbox_runner.Base.{
  ℕ, String, ◌≡◌, refl, true, false, none, some, List, [], ◌∷◌, arith, ◌==◌, is_some, map,
  if◌then◌else◌, Bool-cases, Option, inl, inr, ◌⊎◌,
}
use pi_opensandbox_runner.Base.Table.{find, get, count, find-holds, get_key}
use pi_opensandbox_runner.Base.Rows.{Unique, get_of_find, find-modify, get-modify_to}
use pi_opensandbox_runner.Base.Select.{count-remove}
use pi_opensandbox_runner.Manager.Problem.{Result, ok, proceed_inv}
use pi_opensandbox_runner.Manager.Crypto.{CredentialCipher}
use pi_opensandbox_runner.Manager.Models.{
  SessionState, TurnStatus, SessionBinding, TurnBinding, TerminalBinding, Db, session_id, turn_id,
}
use pi_opensandbox_runner.Manager.Load.{given}
use pi_opensandbox_runner.Manager.Api.{Principal, BridgeConnection, require, session_connection}
use pi_opensandbox_runner.Manager.Turns.{turn_of, ignoring, update_session, update_turn}
use pi_opensandbox_runner.Manager.Sessions.{
  refresh, settle_active, settle_turn, is_running, succeed_if_running, erase, in_session, refers_to,
  release_terminal, delete_session,
}

idle : SessionBinding → SessionBinding
idle b = record b { state = SessionState.ready; active_turn_id = none }

refresh_active :
    (db : Db) (binding current : SessionBinding) (id : String) (t : TurnBinding)
    → get session_id binding.id db.sessions ≡ some current
    → given current.active_turn_id ≡ some id
    → find (turn_of current.id id) db.turns ≡ some t
    → refresh db binding false ≡ (
      idle current,
      update_session
          (update_turn db t.id (λ _. succeed_if_running t))
          binding.id
          (λ _. idle current),
    )
unfolding refresh settle_active settle_turn idle
refresh_active db binding current id t g a f = ground (arith, g, a, f)

is_running_inv : (x : TurnStatus) → is_running x ≡ true → x ≡ TurnStatus.running
is_running_inv TurnStatus.running h = refl
is_running_inv TurnStatus.queued h = absurd (ground arith)
is_running_inv TurnStatus.succeeded h = absurd (ground arith)
is_running_inv TurnStatus.cancelled h = absurd (ground arith)
is_running_inv TurnStatus.failed h = absurd (ground arith)

succeeded-or :
    {t : TurnBinding} {found : Option TurnBinding}
    → found ≡ some (succeed_if_running t)
    → ((t.status ≡ TurnStatus.running)
        × (found ≡ some (record t { status = TurnStatus.succeeded })))
      ⊎ ((is_running t.status ≡ false) × (found ≡ some t))
succeeded-or {t} h = elim (Bool-cases (is_running t.status)) [
  | inl r ↦ inl (is_running_inv t.status r, ground (arith, h, r))
  | inr r ↦ inr (r, ground (arith, h, r))
]

-- Where the bridge says that a session with an active turn is idle, a refresh stores the session as
-- ready without an active turn; the turn that it named has succeeded if it was running, and is as
-- it was if not. Turn row ids are unique.
pub refresh_idle :
    (db : Db) (binding current : SessionBinding) (id : String) (t : TurnBinding)
    → Unique turn_id db.turns
    → get session_id binding.id db.sessions ≡ some current
    → given current.active_turn_id ≡ some id
    → find (turn_of current.id id) db.turns ≡ some t
    → ((refresh db binding false).0.active_turn_id ≡ none)
      × ((refresh db binding false).0.state ≡ SessionState.ready)
      × (get session_id binding.id (refresh db binding false).1.sessions
          ≡ some (refresh db binding false).0)
      × (((t.status ≡ TurnStatus.running)
            × (find (turn_of current.id id) (refresh db binding false).1.turns
                ≡ some (record t { status = TurnStatus.succeeded })))
          ⊎ ((is_running t.status ≡ false)
              × (find (turn_of current.id id) (refresh db binding false).1.turns ≡ some t)))
unfolding idle
refresh_idle db binding current id t u g a f =
    let k : current.id ≡ binding.id = get_key session_id binding.id db.sessions current g in
    let t' = succeed_if_running t in
    let holds : turn_of current.id id t' ≡ true = ground (arith, find-holds _ db.turns t f) in
    rw (refresh_active db binding current id t g a f) (
      refl,
      refl,
      get-modify_to session_id binding.id (λ _. idle current) db.sessions current g k,
      succeeded-or (
          find-modify turn_id _ (λ _. t') t.id db.turns t (get_of_find turn_id _ db.turns t u f) f
            holds),
    )

count-map_release :
    (id : ℕ) (rows : List TerminalBinding)
    → count (refers_to id) (map (release_terminal id) rows) ≡ 0
unfolding count release_terminal
count-map_release id [] = refl
count-map_release id (t ∷ rows) = ground (arith, count-map_release id rows)

-- No session has this row id, and no turn or terminal refers to it.
abbrev pub Erased : ℕ → Db → Type 0
Erased id db =
    (count (λ b. b.id == id) db.sessions ≡ 0)
    × (count (in_session id) db.turns ≡ 0)
    × (count (refers_to id) db.terminals ≡ 0)

erase-Erased :
    (db : Db) (id : ℕ) (current : SessionBinding)
    → get session_id id db.sessions ≡ some current
    → Erased id (erase db id)
unfolding erase
erase-Erased db id current g =
    rw (g, erase)
      (
        count-remove (λ b. b.id == id) (λ b. b.id == id) (λ b e. e) db.sessions,
        count-remove (in_session id) (in_session id) (λ t e. e) db.turns,
        count-map_release id db.terminals,
      )

-- A request to delete a session that succeeds leaves no row of the session, none of its turns, and
-- no terminal that refers to it, whether or not the bridge still knew the session. The session that
-- the request is for is stored under its row id.
pub delete_session-Erased :
    (cipher : CredentialCipher) (caller : Principal) (subject_ref session : String)
    (answer : Result (Unit {0})) (db db' : Db) (bridge : BridgeConnection)
    (binding : SessionBinding)
    → session_connection db cipher caller subject_ref session ≡ ok (bridge, binding)
    → get session_id binding.id db.sessions ≡ some binding
    → delete_session cipher caller subject_ref session answer db ≡ (ok tt, db')
    → Erased binding.id db'
unfolding delete_session
delete_session-Erased cipher caller subject_ref session answer db db' bridge binding c g h =
    let (_, _, h₁) = proceed_inv (require caller "sessions:write") db _ tt db' h in
    let ((bridge', found), e, h₂) =
      proceed_inv (session_connection db cipher caller subject_ref session) db _ tt db' h₁ in
    let (_, _, h₃) =
      proceed_inv (if is_some (given found.bridge_session_id) then ignoring 404 answer else ok tt)
        db _ tt db' h₂ in
    let same : erase db binding.id ≡ db' = ground (arith, h₃, e, c) in
    rw (← same) (erase-Erased db binding.id binding g)
