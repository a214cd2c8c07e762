-- ===== src/Bridge/Supervisor/Processes.antt =====
-- The dictionary of processes: one entry for each session, and how many of them are alive.
use pi_opensandbox_runner.Base.{
  ℕ, ◌+◌, ◌≤◌, ◌≡◌, refl, ◌∙◌, Bool, true, false, none, some, List, [], ◌∷◌, arith, ◌==◌, bit,
  Bool-cases, Option-cases, inl, inr, eq_of_==,
}
use mathlib.Core.Path.{subst}
use pi_opensandbox_runner.Base.Table.{get, modify, remove, count}
use pi_opensandbox_runner.Base.Rows.{Unique}
use pi_opensandbox_runner.Bridge.Supervisor.{
  Process, Processes, session_of, is_alive, pop_process, put_process, note_exit, drop_exited,
}

module _ {ℓ} {A : Type ℓ} where
  pub count-remove_le : (p q : A → Bool) (xs : List A) → count q (remove p xs) ≤ count q xs
  unfolding count remove
  count-remove_le p q [] = omega arith
  count-remove_le p q (x ∷ xs) = ground (arith, count-remove_le p q xs)

  -- Removing the row with a key removes a row that is counted.
  pub count-remove_found :
      (key : A → ℕ) (q : A → Bool) (k : ℕ) (xs : List A) (x : A)
      → get key k xs ≡ some x
      → q x ≡ true
      → count q (remove (λ y. key y == k) xs) + 1 ≤ count q xs
  unfolding count remove get
  count-remove_found key q k [] x g h = absurd (ground arith)
  count-remove_found key q k (y ∷ xs) x g h =
      ground (arith, count-remove_le (λ z. key z == k) q xs, count-remove_found key q k xs x)

  pub get-remove_ne :
      (key : A → ℕ) (k j : ℕ) (xs : List A)
      → (j == k) ≡ false
      → get key k (remove (λ y. key y == j) xs) ≡ get key k xs
  unfolding remove get
  get-remove_ne key k j [] h = refl
  get-remove_ne key k j (y ∷ xs) h = ground (arith, get-remove_ne key k j xs h)

  pub count-modify_same :
      (key : A → ℕ) (q : A → Bool) (k : ℕ) (f : A → A)
      → ((x : A) → q (f x) ≡ q x)
      → (xs : List A) → count q (modify key k f xs) ≡ count q xs
  unfolding count modify
  count-modify_same key q k f h [] = refl
  count-modify_same key q k f h (x ∷ xs) = ground (arith, h x, count-modify_same key q k f h xs)

  pub count-modify_le :
      (key : A → ℕ) (q : A → Bool) (k : ℕ) (f : A → A)
      → ((x : A) → q (f x) ≡ true → q x ≡ true)
      → (xs : List A) → count q (modify key k f xs) ≤ count q xs
  unfolding count modify
  count-modify_le key q k f h [] = omega arith
  count-modify_le key q k f h (x ∷ xs) = ground (arith, h x, count-modify_le key q k f h xs)

pop_process-pop_process :
    (id : ℕ) (ps : Processes) → pop_process id (pop_process id ps) ≡ pop_process id ps
unfolding pop_process remove
pop_process-pop_process id [] = refl
pop_process-pop_process id (p ∷ ps) = ground (arith, pop_process-pop_process id ps)

pop_process-exited :
    (id : ℕ) (ps : Processes)
    → pop_process id (modify session_of id note_exit ps) ≡ pop_process id ps
unfolding pop_process remove modify
pop_process-exited id [] = refl
pop_process-exited id (p ∷ ps) = ground (arith, pop_process-exited id ps)

-- An entry that is taken out is not there, whether or not its exit had taken it out.
pub pop_process-drop_exited :
    (id : ℕ) (ps : Processes)
    → pop_process id (drop_exited id (modify session_of id note_exit ps)) ≡ pop_process id ps
unfolding drop_exited
pop_process-drop_exited id ps =
    let exited = modify session_of id note_exit ps in
    let gone = pop_process-exited id ps in
    elim (Option-cases (get session_of id exited)) [
      | inl n ↦ rw (n, drop_exited) gone
      | inr (p, e) ↦ elim (Bool-cases p.alive) [
        | inl c ↦ rw (e, c, drop_exited) gone
        | inr c ↦ rw (e, c, drop_exited) (pop_process-pop_process id exited ∙ gone)
      ]
    ]

pub put_process-count :
    (p : Process) (ps : Processes) → count is_alive (put_process p ps) ≤ count is_alive ps + 1
unfolding put_process count
put_process-count p [] = ground arith
put_process-count p (q ∷ ps) = ground (arith, put_process-count p ps)

pub put_process-count_new :
    (p : Process) (ps : Processes)
    → get session_of p.session ps ≡ none
    → count is_alive (put_process p ps) ≡ count is_alive ps + bit p.alive
unfolding put_process count get
put_process-count_new p [] g = ground arith
put_process-count_new p (q ∷ ps) g = ground (arith, put_process-count_new p ps)

pub put_process-get_ne :
    (p : Process) (k : ℕ) (ps : Processes)
    → (p.session == k) ≡ false
    → get session_of k (put_process p ps) ≡ get session_of k ps
unfolding put_process get
put_process-get_ne p k [] h = ground (arith, h)
put_process-get_ne p k (q ∷ ps) h = ground (arith, h, put_process-get_ne p k ps h)

put_process-count_key :
    (p : Process) (k : ℕ) (ps : Processes)
    → count (λ q. q.session == k) (put_process p ps)
      ≤ count (λ q. q.session == k) ps + bit (p.session == k)
unfolding put_process count
put_process-count_key p k [] = omega arith
put_process-count_key p k (q ∷ ps) = ground (arith, put_process-count_key p k ps)

put_process-count_same :
    (p : Process) (ps : Processes)
    → count (λ q. q.session == p.session) ps ≤ 1
    → count (λ q. q.session == p.session) (put_process p ps) ≤ 1
unfolding put_process count
put_process-count_same p [] h = ground arith
put_process-count_same p (q ∷ ps) h = ground (arith, h, put_process-count_same p ps)

pub put_process-Unique :
    (p : Process) (ps : Processes) → Unique session_of ps → Unique session_of (put_process p ps)
put_process-Unique p ps u k = elim (Bool-cases (p.session == k)) [
  | inl e ↦
      subst (λ j. count (λ q. q.session == j) (put_process p ps) ≤ 1) (eq_of_== p.session k e)
        (put_process-count_same p ps (u p.session))
  | inr e ↦ ground (arith, e, put_process-count_key p k ps, u k)
]

pub pop_process-Unique :
    (id : ℕ) (ps : Processes) → Unique session_of ps → Unique session_of (pop_process id ps)
unfolding pop_process
pop_process-Unique id ps u k =
    omega (arith, u k, count-remove_le (λ p. p.session == id) (λ p. p.session == k) ps)
