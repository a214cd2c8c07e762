-- ===== src/Manager/Turns/Race.antt =====
-- Two submissions at once: a session's active turn is set only when the bridge has accepted one.
use pi_opensandbox_runner.Base.{
  ℕ, String, ◌≡◌, Bool, false, none, some, List, [], ◌∷◌, ◌++◌, arith, str_eq,
}
use pi_opensandbox_runner.Base.Table.{find, get, get_key}
use pi_opensandbox_runner.Manager.Problem.{ok}
use pi_opensandbox_runner.Manager.Models.{SessionBinding, TurnBinding, Db, session_id}
use pi_opensandbox_runner.Manager.Load.{given}
use pi_opensandbox_runner.Manager.Turns.{started, turn_of, new_turn, begin_turn}

find-append_skip :
    (p : TurnBinding → Bool) (rows : List TurnBinding) (t : TurnBinding)
    → find p rows ≡ none
    → p t ≡ false
    → find p (rows ++ t ∷ []) ≡ none
unfolding find
find-append_skip p [] t h e = ground arith
find-append_skip p (x ∷ rows) t h e = ground (arith, find-append_skip p rows t)

begin_turn_new :
    (db : Db) (s : ℕ) (id input : String) (new_id : ℕ) (current : SessionBinding)
    → get session_id s db.sessions ≡ some current
    → given current.active_turn_id ≡ none
    → find (turn_of s id) db.turns ≡ none
    → begin_turn db s id input new_id
      ≡ ok (
        started (new_turn new_id s id input),
        record db { turns = db.turns ++ new_turn new_id s id input ∷ [] },
      )
unfolding begin_turn
begin_turn_new db s id input new_id current g a f =
    let k : current.id ≡ s = get_key session_id s db.sessions current g in
    ground (arith, k, g, a, f)

-- In a session without an active turn, the first transactions of two submissions of different new
-- turns both start their turn, one after the other: the second is not refused as turn_active.
pub begin_turn_twice :
    (db : Db) (s : ℕ) (id other input other_input : String) (new_id other_id : ℕ)
    (current : SessionBinding)
    → get session_id s db.sessions ≡ some current
    → given current.active_turn_id ≡ none
    → find (turn_of s id) db.turns ≡ none
    → find (turn_of s other) db.turns ≡ none
    → str_eq id other ≡ false
    → (db₁ db₂ : Db) × (begin_turn db s id input new_id
        ≡ ok (started (new_turn new_id s id input), db₁))
      × (begin_turn db₁ s other other_input other_id
          ≡ ok (started (new_turn other_id s other other_input), db₂))
unfolding new_turn
begin_turn_twice db s id other input other_input new_id other_id current g a f f' ne =
    let turn = new_turn new_id s id input in
    let db₁ = record db { turns = db.turns ++ turn ∷ [] } in
    let still : find (turn_of s other) db₁.turns ≡ none =
      find-append_skip (turn_of s other) db.turns turn f' (ground (arith, ne)) in
    (
      db₁,
      record db₁ { turns = db₁.turns ++ new_turn other_id s other other_input ∷ [] },
      begin_turn_new db s id input new_id current g a f,
      begin_turn_new db₁ s other other_input other_id current g a still,
    )
