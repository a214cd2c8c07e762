-- ===== src/Bridge/Journal/Filed.antt =====
-- The files of a journal hold events with consecutive numbers; writing adds one at the end and
-- deleting old files forgets the first ones.
use pi_opensandbox_runner.Base.{
  ℕ, zero, suc, ◌+◌, ◌-◌, ◌≤◌, ◌<◌, ◌≡◌, refl, ◌∙◌, sym, ap, none, some, List, [], ◌∷◌, ◌++◌, arith,
  ltb, length, length-append, ==_refl, Bool-cases, Option-cases, inl, inr, ◌⊎◌,
}
use mathlib.Core.Path.{subst}
use mathlib.Core.List.{append_assoc, append-nil}
use pi_opensandbox_runner.Bridge.Journal.{
  Envelope, Segment, Directory, lines_of, last_segment, write_line, drop, keep_last, target,
  total_size,
}

-- The envelopes carry the numbers k + 1, k + 2, and so on.
abbrev pub Numbered : ℕ → List Envelope → Type 0
Numbered k [] = Unit
Numbered k (e ∷ es) = (e.seq ≡ k + 1) × Numbered (k + 1) es

-- The files hold the events from k + 1 on, and each is named for its first event.
abbrev pub Filed : ℕ → Directory → Type 0
Filed k [] = Unit
Filed k (s ∷ ss) =
    (s.first ≡ k + 1) × (1 ≤ length s.lines) × Numbered k s.lines × Filed (k + length s.lines) ss

pub Numbered-append :
    (k : ℕ) (es : List Envelope) (e : Envelope)
    → Numbered k es
    → e.seq ≡ k + length es + 1
    → Numbered k (es ++ e ∷ [])
Numbered-append k [] e n h = (omega (arith, h), tt)
Numbered-append k (x ∷ es) e n h = (n.0, Numbered-append (k + 1) es e n.1 (omega (arith, h)))

abbrev pub one_line : ℕ → Envelope → Segment
one_line name e = record { first = name; lines = e ∷ [] }

pub last_segment-first :
    (k : ℕ) (ss : Directory) (s : Segment) → Filed k ss → last_segment ss ≡ some s → k + 1 ≤ s.first
unfolding last_segment
last_segment-first k [] s f h = absurd (ground arith)
last_segment-first k (x ∷ []) s f h = ground (arith, f.0)
last_segment-first k (x ∷ y ∷ ss) s f h =
    omega (arith, last_segment-first (k + length x.lines) (y ∷ ss) s f.3 h)

-- Writing to the last file, or to a new file that is named for the event, adds the event at the end.
abbrev Grown : ℕ → Envelope → Directory → Directory → Type 0
Grown k e ss ss' = Filed k ss' × (lines_of ss' ≡ lines_of ss ++ e ∷ [])

pub write_line_skip :
    (name : ℕ) (e : Envelope) (s : Segment) (ss : Directory)
    → s.first < name
    → write_line name e (s ∷ ss) ≡ s ∷ write_line name e ss
unfolding write_line
write_line_skip name e s ss h = ground (arith, h)

pub write_line_hit :
    (e : Envelope) (s : Segment) (ss : Directory)
    → write_line s.first e (s ∷ ss) ≡ record s { lines = s.lines ++ e ∷ [] } ∷ ss
unfolding write_line
write_line_hit e s ss = rw (==_refl s.first) refl

Grown-cons :
    (k : ℕ) (e : Envelope) (s : Segment) (ss ss' : Directory)
    → Filed k (s ∷ ss)
    → Grown (k + length s.lines) e ss ss'
    → Grown k e (s ∷ ss) (s ∷ ss')
unfolding lines_of
Grown-cons k e s ss ss' f g = (
  (f.0, f.1, f.2, g.0),
  ap (λ l. s.lines ++ l) g.1 ∙ sym (append_assoc s.lines (lines_of ss) (e ∷ [])),
)

-- The number of the next event, seen from the files after the first.
pub end_of_rest :
    (k n : ℕ) (s : Segment) (ss : Directory)
    → n ≡ k + length (lines_of (s ∷ ss)) + 1
    → n ≡ k + length s.lines + length (lines_of ss) + 1
unfolding lines_of
end_of_rest k n s ss h = omega (arith, h, length-append s.lines (lines_of ss))

write_line-new :
    (k : ℕ) (e : Envelope) (ss : Directory)
    → Filed k ss
    → e.seq ≡ k + length (lines_of ss) + 1
    → Grown k e ss (write_line e.seq e ss)
unfolding lines_of write_line
write_line-new k e [] f h =
    let h' : e.seq ≡ k + 1 = omega (arith, h) in ((h', omega arith, (h', tt), tt), refl)
write_line-new k e (s ∷ ss) f h =
    let h' = end_of_rest k e.seq s ss h in
    rw (write_line_skip e.seq e s ss (omega (arith, f.0, f.1, h'))) (
      Grown-cons k e s ss (write_line e.seq e ss) f
        (write_line-new (k + length s.lines) e ss f.3 h'))

lines_of_only : (s : Segment) → lines_of (s ∷ []) ≡ s.lines
unfolding lines_of
lines_of_only s = append-nil s.lines

Grown-only :
    (k : ℕ) (e : Envelope) (s : Segment)
    → Filed k (s ∷ [])
    → e.seq ≡ k + length (lines_of (s ∷ [])) + 1
    → Grown k e (s ∷ []) (record s { lines = s.lines ++ e ∷ [] } ∷ [])
Grown-only k e s f h =
    let h' : e.seq ≡ k + length s.lines + 1 = rw (lines_of_only s) at h in
    (
      (f.0, omega (arith, length-append s.lines (e ∷ [])), Numbered-append k s.lines e f.2 h', tt),
      lines_of_only (record s { lines = s.lines ++ e ∷ [] })
          ∙ ap (λ l. l ++ e ∷ []) (sym (lines_of_only s)),
    )

write_line-last :
    (k : ℕ) (e : Envelope) (ss : Directory) (s : Segment)
    → Filed k ss
    → last_segment ss ≡ some s
    → e.seq ≡ k + length (lines_of ss) + 1
    → Grown k e ss (write_line s.first e ss)
unfolding last_segment
write_line-last k e [] s f l h = absurd (ground arith)
write_line-last k e (x ∷ []) s f l h =
    let same : x ≡ s = ground arith in rw (← same, write_line_hit e x []) (Grown-only k e x f h)
write_line-last k e (x ∷ y ∷ ss) s f l h =
    let h' = end_of_rest k e.seq x (y ∷ ss) h in
    let first = last_segment-first (k + length x.lines) (y ∷ ss) s f.3 l in
    rw (write_line_skip s.first e x (y ∷ ss) (omega (arith, f.0, f.1, first))) (
      Grown-cons k e x (y ∷ ss) (write_line s.first e (y ∷ ss)) f
        (write_line-last (k + length x.lines) e (y ∷ ss) s f.3 l h'))

last_segment-none : (ss : Directory) → last_segment ss ≡ none → ss ≡ []
unfolding last_segment
last_segment-none [] h = refl
last_segment-none (x ∷ []) h = absurd (ground arith)
last_segment-none (x ∷ y ∷ ss) h = absurd (ground (arith, last_segment-none (y ∷ ss) h))

pub target_cases :
    (bytes : ℕ) (size : Envelope → ℕ) (e : Envelope) (ss : Directory)
    → (target bytes size e ss ≡ e.seq)
      ⊎ ((s : Segment) × (last_segment ss ≡ some s)
          × (target bytes size e ss ≡ s.first)
          × (total_size size s.lines + size e ≤ bytes))
unfolding target
target_cases bytes size e ss = elim (Option-cases (last_segment ss)) [
  | inl n ↦ inl (ground (arith, n))
  | inr (s, l) ↦ elim (Bool-cases (ltb bytes (total_size size s.lines + size e))) [
    | inl b ↦ inl (ground (arith, l, b))
    | inr b ↦ inr (s, l, ground (arith, l, b), ground (arith, b))
  ]
]

pub write_line-target :
    (k bytes : ℕ) (size : Envelope → ℕ) (e : Envelope) (ss : Directory)
    → Filed k ss
    → e.seq ≡ k + length (lines_of ss) + 1
    → Grown k e ss (write_line (target bytes size e ss) e ss)
write_line-target k bytes size e ss f h = elim (target_cases bytes size e ss) [
  | inl t ↦ rw t (write_line-new k e ss f h)
  | inr (s, l, t, _) ↦ rw t (write_line-last k e ss s f l h)
]

pub Filed-at : (a b : ℕ) (ss : Directory) → a ≡ b → Filed a ss → Filed b ss
Filed-at a b ss h f = subst (λ n. Filed n ss) h f

-- Deleting files from the front forgets the first events.
pub record Forgets (k : ℕ) (ss ss' : Directory) : Type 0 where
  pub gone : List Envelope
  pub split : lines_of ss ≡ gone ++ lines_of ss'
  pub filed : Filed (k + length gone) ss'

drop-Forgets : (k n : ℕ) (ss : Directory) → Filed k ss → Forgets k ss (drop n ss)
unfolding drop lines_of
drop-Forgets k zero ss f = record {
  gone = [];
  split = refl;
  filed = Filed-at k (k + 0) ss (omega arith) f;
}
drop-Forgets k (suc n) [] f = record { gone = []; split = refl; filed = tt }
drop-Forgets k (suc n) (s ∷ ss) f =
    let r = drop-Forgets (k + length s.lines) n ss f.3 in
    record {
      gone = s.lines ++ r.gone;
      split =
          ap (λ l. s.lines ++ l) r.split ∙ sym (append_assoc s.lines r.gone (lines_of (drop n ss)));
      filed = Filed-at _ _ (drop n ss) (omega (arith, length-append s.lines r.gone)) r.filed;
    }

pub keep_last-Forgets : (k n : ℕ) (ss : Directory) → Filed k ss → Forgets k ss (keep_last n ss)
unfolding keep_last drop
keep_last-Forgets k zero ss f = drop-Forgets k 0 ss f
keep_last-Forgets k (suc n) ss f = drop-Forgets k (length ss - suc n) ss f

-- The number of files after a deletion.
pub length-drop : (n : ℕ) (ss : Directory) → length (drop n ss) ≡ length ss - n
unfolding drop
length-drop zero ss = omega arith
length-drop (suc n) [] = omega arith
length-drop (suc n) (s ∷ ss) = omega (arith, length-drop n ss)

pub keep_last_some : (n : ℕ) (ss : Directory) → 1 ≤ length ss → 1 ≤ length (keep_last n ss)
unfolding keep_last
keep_last_some zero ss h = h
keep_last_some (suc n) ss h = omega (arith, h, length-drop (length ss - suc n) ss)

pub lines_of_some : (ss : Directory) → 1 ≤ length (lines_of ss) → 1 ≤ length ss
unfolding lines_of
lines_of_some [] h = h
lines_of_some (s ∷ ss) h = omega arith
