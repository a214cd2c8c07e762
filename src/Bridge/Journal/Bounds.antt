-- ===== src/Bridge/Journal/Bounds.antt =====
-- How much of the disk the journal of a session takes.
use pi_opensandbox_runner.Base.{
  ℕ, zero, suc, ◌+◌, ◌-◌, ◌≤◌, ◌≡◌, refl, ◌∙◌, ap, some, List, [], ◌∷◌, ◌++◌, arith, length,
  length-append, All, All-append, inl, inr, ◌⊎◌,
}
use pi_opensandbox_runner.Base.Table.{get}
use pi_opensandbox_runner.Bridge.Problem.{ok}
use pi_opensandbox_runner.Bridge.Catalog.{Sessions, SessionRecord, record_id}
use pi_opensandbox_runner.Bridge.Journal.{
  Envelope, Segment, Directory, lines_of, last_segment, write_line, drop, keep_last, target,
  total_size, write, append, envelope,
}
use pi_opensandbox_runner.Bridge.Journal.Filed.{
  Filed, one_line, write_line_skip, write_line_hit, end_of_rest, last_segment-first, length-drop,
  target_cases,
}
use pi_opensandbox_runner.Bridge.Journal.Log.{Holds}
use pi_opensandbox_runner.Bridge.Journal.Refinement.{Item, append_found}

total_size-append :
    (size : Envelope → ℕ) (es : List Envelope) (e : Envelope)
    → total_size size (es ++ e ∷ []) ≡ total_size size es + size e
unfolding total_size
total_size-append size [] e = omega arith
total_size-append size (x ∷ es) e = omega (arith, total_size-append size es e)

-- A file is no longer than the limit, or has one line.
abbrev pub IsSized : ℕ → (Envelope → ℕ) → Segment → Type 0
IsSized bytes size s = (total_size size s.lines ≤ bytes) ⊎ (length s.lines ≡ 1)

module _ (bytes : ℕ) (size : Envelope → ℕ) where
  abbrev Sized : Directory → Type 0
  Sized = All (IsSized bytes size)

  write_line_end :
      (k : ℕ) (e : Envelope) (ss : Directory)
      → Filed k ss
      → e.seq ≡ k + length (lines_of ss) + 1
      → write_line e.seq e ss ≡ ss ++ one_line e.seq e ∷ []
  unfolding write_line
  write_line_end k e [] f h = refl
  write_line_end k e (s ∷ ss) f h =
      let h' = end_of_rest k e.seq s ss h in
      write_line_skip e.seq e s ss (omega (arith, f.0, f.1, h'))
      ∙ ap (λ l. s ∷ l) (write_line_end (k + length s.lines) e ss f.3 h')

  write_line_last-Sized :
      (k : ℕ) (e : Envelope) (ss : Directory) (s : Segment)
      → Filed k ss
      → last_segment ss ≡ some s
      → total_size size s.lines + size e ≤ bytes
      → Sized ss
      → Sized (write_line s.first e ss)
  unfolding last_segment
  write_line_last-Sized k e [] s f l t z = absurd (ground arith)
  write_line_last-Sized k e (x ∷ []) s f l t z =
      let same : x ≡ s = ground arith in
      rw (← same, write_line_hit e x [])
        (
          inl (
              omega (
                arith,
                t,
                ap (λ y. total_size size y.lines) same,
                total_size-append size x.lines e,
              )),
          tt,
        )
  write_line_last-Sized k e (x ∷ y ∷ ss) s f l t z =
      let first = last_segment-first (k + length x.lines) (y ∷ ss) s f.3 l in
      rw (write_line_skip s.first e x (y ∷ ss) (omega (arith, f.0, f.1, first)))
        (z.0, write_line_last-Sized (k + length x.lines) e (y ∷ ss) s f.3 l t z.1)

  target-Sized :
      (k : ℕ) (e : Envelope) (ss : Directory)
      → Filed k ss
      → e.seq ≡ k + length (lines_of ss) + 1
      → Sized ss
      → Sized (write_line (target bytes size e ss) e ss)
  target-Sized k e ss f h z =
      let fresh : Sized (write_line e.seq e ss) =
        rw (write_line_end k e ss f h)
          (All-append (IsSized bytes size) ss (one_line e.seq e ∷ []) z (inr refl, tt)) in
      elim (target_cases bytes size e ss) [
        | inl t ↦ rw t fresh
        | inr (s, l, t, b) ↦ rw t (write_line_last-Sized k e ss s f l b z)
      ]

  drop-Sized : (n : ℕ) (ss : Directory) → Sized ss → Sized (drop n ss)
  unfolding drop
  drop-Sized zero ss z = z
  drop-Sized (suc n) [] z = tt
  drop-Sized (suc n) (s ∷ ss) z = drop-Sized n ss z.1

  -- With a limit of at least one file, after an `append` there are no more files than the limit, and each
  -- is no longer than the limit in bytes or has one line, if that was so of every file before.
  pub append-Sized :
      (count id : ℕ) (i : Item) (rows : Sessions) (ss : Directory) (r : SessionRecord)
      (log : List Envelope)
      → get record_id id rows ≡ some r
      → r.event_seq ≡ length log
      → Holds log ss
      → All (IsSized bytes size) ss
      → (e : Envelope) × (rows' : Sessions) × (ss' : Directory) × (append bytes
            (suc count)
            size
            id
            i.source
            i.event
            i.now
            rows
            ss
          ≡ ok (e, rows', ss'))
        × (length ss' ≤ suc count)
        × All (IsSized bytes size) ss'
  unfolding write keep_last
  append-Sized count id i rows ss r log g n h z =
      let e = envelope (r.event_seq + 1) id i.now i.source i.event in
      let ss' = write_line (target bytes size e ss) e ss in
      let len : length log ≡ length h.gone + length (lines_of ss) =
        ap length h.split ∙ length-append h.gone (lines_of ss) in
      let z' = target-Sized (length h.gone) e ss h.filed (omega (arith, n, len)) z in
      (
        e,
        _,
        write bytes (suc count) size e ss,
        append_found bytes (suc count) size id i rows ss r g,
        omega (arith, length-drop (length ss' - suc count) ss'),
        drop-Sized (length ss' - suc count) ss' z',
      )
