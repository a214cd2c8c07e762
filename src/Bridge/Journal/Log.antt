-- ===== src/Bridge/Journal/Log.antt =====
-- The abstract view of a journal: the events of the session, numbered from one, of which the first
-- ones may have been forgotten.
use pi_opensandbox_runner.Base.{
  ℕ, zero, suc, ◌+◌, ◌-◌, ◌≤◌, ◌≡◌, refl, ◌∙◌, sym, ap, List, [], ◌∷◌, ◌++◌, arith, if◌then◌else◌,
  ltb, length, length-append, Bool-cases, inl, inr,
}
use mathlib.Core.Path.{subst}
use mathlib.Core.List.{append_assoc}
use pi_opensandbox_runner.Bridge.Problem.{Result, ok, raise, cursor_expired}
use pi_opensandbox_runner.Bridge.Journal.{
  Envelope, Directory, lines_of, write_line, target, write, after, ensure_cursor, oldest_cursor,
  read_after,
}
use pi_opensandbox_runner.Bridge.Journal.Filed.{
  Numbered, Filed, Numbered-append, write_line-target, Filed-at, keep_last-Forgets, keep_last_some,
  lines_of_some,
}

Numbered-split :
    (k : ℕ) (es fs : List Envelope)
    → Numbered k (es ++ fs)
    → Numbered k es × Numbered (k + length es) fs
Numbered-split k [] fs h = (tt, subst (λ n. Numbered n fs) (omega arith) h)
Numbered-split k (e ∷ es) fs h =
    let (a, b) = Numbered-split (k + 1) es fs h.1 in
    ((h.0, a), subst (λ n. Numbered n fs) (omega arith) b)

-- No event that has been forgotten comes after the cursor.
after-append_old :
    (cursor k : ℕ) (es fs : List Envelope)
    → Numbered k es
    → k + length es ≤ cursor
    → after cursor (es ++ fs) ≡ after cursor fs
unfolding after
after-append_old cursor k [] fs n h = refl
after-append_old cursor k (e ∷ es) fs n h =
    ground (arith, n.0, h, after-append_old cursor (k + 1) es fs n.1 (omega (arith, h)))

-- A directory that holds the end of a log.
pub record Holds (log : List Envelope) (ss : Directory) : Type 0 where
  pub gone : List Envelope
  pub split : log ≡ gone ++ lines_of ss
  pub filed : Filed (length gone) ss
  pub numbered : Numbered 0 log
  pub recent : length ss ≡ 0 → length gone ≡ 0

pub Holds-empty : Holds [] []
unfolding lines_of
Holds-empty = record { gone = []; split = refl; filed = tt; numbered = tt; recent = λ h. refl }

split-append :
    (log gone more rest es fs : List Envelope) (e : Envelope)
    → log ≡ gone ++ es
    → fs ≡ es ++ e ∷ []
    → fs ≡ more ++ rest
    → log ++ e ∷ [] ≡ (gone ++ more) ++ rest
split-append log gone more rest es fs e h g f =
    ap (λ l. l ++ e ∷ []) h
    ∙ append_assoc gone es (e ∷ [])
    ∙ ap (λ l. gone ++ l) (sym g ∙ f)
    ∙ sym (append_assoc gone more rest)

pub write-Holds :
    (bytes count : ℕ) (size : Envelope → ℕ) (e : Envelope) (log : List Envelope) (ss : Directory)
    → Holds log ss
    → e.seq ≡ length log + 1
    → Holds (log ++ e ∷ []) (write bytes count size e ss)
unfolding write
write-Holds bytes count size e log ss h n =
    let whole = length-append h.gone (lines_of ss) in
    let len : length log ≡ length h.gone + length (lines_of ss) = ap length h.split ∙ whole in
    let g = write_line-target (length h.gone) bytes size e ss h.filed (omega (arith, n, len)) in
    let ss' = write_line (target bytes size e ss) e ss in
    let f = keep_last-Forgets (length h.gone) count ss' g.0 in
    let more : 1 ≤ length (lines_of ss') =
      omega (arith, ap length g.1, length-append (lines_of ss) (e ∷ [])) in
    record {
      gone = h.gone ++ f.gone;
      split = split-append log h.gone f.gone _ (lines_of ss) (lines_of ss') e h.split g.1 f.split;
      filed = Filed-at _ _ _ (sym (length-append h.gone f.gone)) f.filed;
      numbered = Numbered-append 0 log e h.numbered (omega (arith, n));
      recent = λ z. absurd (omega (arith, z, keep_last_some count ss' (lines_of_some ss' more)));
    }

-- A log without its first events.
unfoldable pub skip : ℕ → List Envelope → List Envelope
skip zero es = es
skip (suc n) [] = []
skip (suc n) (e ∷ es) = skip n es

after_past : (cursor k : ℕ) (es : List Envelope) → Numbered k es → cursor ≤ k → after cursor es ≡ es
unfolding after
after_past cursor k [] n h = refl
after_past cursor k (e ∷ es) n h =
    ground (arith, n.0, h, after_past cursor (k + 1) es n.1 (omega (arith, h)))

after-skip : (k c : ℕ) (es : List Envelope) → Numbered k es → after (k + c) es ≡ skip c es
unfolding after skip
after-skip k zero es n = after_past (k + 0) k es n (omega arith)
after-skip k (suc c) [] n = refl
after-skip k (suc c) (e ∷ es) n =
    let same : k + suc c ≡ (k + 1) + c = omega arith in
    let rest : after (k + suc c) es ≡ skip c es =
      ap (λ m. after m es) same ∙ after-skip (k + 1) c es n.1 in
    ground (arith, n.0, rest)

-- What a reader of a log is promised: the events after the cursor, all of them, or the number of the
-- oldest event that is left where some of them are gone.
unfoldable pub read_log : ℕ → ℕ → List Envelope → Result (List Envelope)
read_log forgotten cursor log =
    if ltb cursor forgotten then raise (cursor_expired (forgotten + 1)) else ok (skip cursor log)

after_kept :
    (log : List Envelope) (ss : Directory) (h : Holds log ss) (cursor : ℕ)
    → length h.gone ≤ cursor
    → after cursor (lines_of ss) ≡ skip cursor log
after_kept log ss h cursor c =
    let n = Numbered-split 0 h.gone (lines_of ss) (subst (Numbered 0) h.split h.numbered) in
    let zero_first : cursor ≡ 0 + cursor = omega arith in
    sym (after-append_old cursor 0 h.gone (lines_of ss) n.0 (omega (arith, c)))
    ∙ ap (after cursor) (sym h.split)
    ∙ ap (λ m. after m log) zero_first
    ∙ after-skip 0 cursor log h.numbered

pub read_after-Holds :
    (log : List Envelope) (ss : Directory) (h : Holds log ss) (cursor : ℕ)
    → read_after cursor ss ≡ read_log (length h.gone) cursor log
unfolding read_after ensure_cursor oldest_cursor read_log
read_after-Holds log [] h cursor =
    let none_gone = h.recent refl in
    let kept = after_kept log [] h cursor (omega (arith, none_gone)) in
    ground (arith, none_gone, kept)
read_after-Holds log (s ∷ ss) h cursor = elim (Bool-cases (ltb cursor (length h.gone))) [
  | inl b ↦ let first = h.filed.0 in ground (arith, b, first)
  | inr b ↦
      let first = h.filed.0 in
      let kept = after_kept log (s ∷ ss) h cursor (ground (arith, b)) in
      ground (arith, b, first, kept)
]

lines_of-length : (k : ℕ) (ss : Directory) → Filed k ss → length ss ≤ length (lines_of ss)
unfolding lines_of
lines_of-length k [] f = omega arith
lines_of-length k (s ∷ ss) f =
    omega
      (arith, f.1, length-append s.lines (lines_of ss), lines_of-length (k + length s.lines) ss f.3)

pub latest_kept-Holds :
    (log : List Envelope) (ss : Directory) (h : Holds log ss) → length h.gone ≤ length log - 1
latest_kept-Holds log ss h =
    let all : length log ≡ length h.gone + length (lines_of ss) =
      ap length h.split ∙ length-append h.gone (lines_of ss) in
    let some_line = lines_of-length (length h.gone) ss h.filed in
    let recent = h.recent in ground (arith, all, some_line, recent)
