-- ===== src/Bridge/Prompts/Journals.antt =====
-- Every action of the Bridge keeps each session's journal in step with its counter of events.
use pi_opensandbox_runner.Base.{
  ℕ, ◌+◌, String, ◌≡◌, refl, sym, ap, Bool, true, false, Option, none, some, List, [], ◌∷◌, ◌++◌,
  arith, ◌==◌, length, length-append, Bool-cases, Option-cases, inl, inr, eq_of_==, ==_refl,
}
use mathlib.Core.Path.{subst}
use pi_opensandbox_runner.Base.Table.{get, modify, get-modify_self, get-modify_ne}
use pi_opensandbox_runner.Bridge.Problem.{ok, raise, key_error, os_error}
use pi_opensandbox_runner.Bridge.Catalog.{
  SessionRecord, Sessions, record_id, count_event, set_runtime, update, next_event_seq,
}
use pi_opensandbox_runner.Bridge.Journal.{Directory, Event, Envelope, envelope, write, append}
use pi_opensandbox_runner.Bridge.Journal.Log.{Holds, write-Holds}
use pi_opensandbox_runner.Bridge.Journal.Refinement.{append_found, Item}
use pi_opensandbox_runner.Bridge.Supervisor.{Limits, World, set_journal, record_event}

abbrev pub counted : Option SessionRecord → Option ℕ
counted none = none
counted (some r) = some r.event_seq

-- A directory holds the end of a log of as many events as have been counted.
abbrev pub KeptAt : Option ℕ → Directory → Type 0
KeptAt none ss = Unit {0}
KeptAt (some n) ss = (log : List Envelope) × Holds log ss × (n ≡ length log)

pub KeptAt-same : (m n : Option ℕ) (ss : Directory) → m ≡ n → KeptAt m ss → KeptAt n ss
KeptAt-same m n ss h k = subst (λ o. KeptAt o ss) h k

-- So it is for each session whose journal can be written.
abbrev pub Kept : World → Type 0
Kept w =
    (id : ℕ) → w.writable id ≡ true → KeptAt (counted (get record_id id w.rows)) (w.journals id)

module _ (f : SessionRecord → SessionRecord) where
  counted-modify :
      ((r : SessionRecord) → (f r).id ≡ r.id)
      → ((r : SessionRecord) → (f r).event_seq ≡ r.event_seq)
      → (k id : ℕ) (rows : Sessions)
      → counted (get record_id id (modify record_id k f rows)) ≡ counted (get record_id id rows)
  unfolding get modify
  counted-modify g h k id [] = refl
  counted-modify g h k id (r ∷ rows) = ground (arith, g r, h r, counted-modify g h k id rows)

counted-modify_to :
    (k id : ℕ) (item changed : SessionRecord) (rows : Sessions)
    → get record_id k rows ≡ some item
    → changed.id ≡ item.id
    → changed.event_seq ≡ item.event_seq
    → counted (get record_id id (modify record_id k (λ _. changed) rows))
      ≡ counted (get record_id id rows)
unfolding get modify
counted-modify_to k id item changed [] g a b = refl
counted-modify_to k id item changed (r ∷ rows) g a b =
    ground (arith, g, a, b, counted-modify_to k id item changed rows)

pub set_runtime-Kept :
    (k : ℕ) (status : String) (error file : Option String) (touch : Bool) (now : ℕ) (w : World)
    → Kept w
    → Kept (record w { rows = set_runtime k status error file touch now w.rows })
unfolding set_runtime
set_runtime-Kept k status error file touch now w h id c =
    KeptAt-same _ _ (w.journals id) (sym (counted-modify _ (λ r. refl) (λ r. refl) k id w.rows))
      (h id c)

pub update-Kept :
    (k : ℕ) (f : SessionRecord → SessionRecord) (now : ℕ) (w : World)
    → ((r : SessionRecord) → (f r).id ≡ r.id)
    → ((r : SessionRecord) → (f r).event_seq ≡ r.event_seq)
    → Kept w
    → Kept (record w { rows = (update k f now w.rows).1 })
unfolding update
update-Kept k f now w a b h id x = elim (Option-cases (get record_id k w.rows)) [
  | inl n ↦ rw (n, update) (h id x)
  | inr (r, e) ↦
      let changed = record (f r) { updated_at = now } in
      rw (e, update)
        (KeptAt-same _ _ (w.journals id)
          (sym (counted-modify_to k id r changed w.rows e (a r) (b r))) (h id x))
]

module _ (limits : Limits) (size : Envelope → ℕ) (k : ℕ) (source : String) (event : Event) (now : ℕ)
    (w : World) where
  abbrev pub next_envelope : SessionRecord → Envelope
  next_envelope r = envelope (r.event_seq + 1) k now source event

  abbrev pub written : SessionRecord → World
  written r = record w {
    rows = modify record_id k count_event w.rows;
    journals =
        set_journal k
          (write limits.segment_bytes limits.segment_count size (next_envelope r) (w.journals k))
          w.journals;
  }

  pub record_event_found :
      (r : SessionRecord)
      → get record_id k w.rows ≡ some r
      → w.writable k ≡ true
      → record_event limits size k source event now w ≡ (ok tt, written r)
  unfolding record_event
  record_event_found r g c =
      let i : Item = record { source = source; event = event; now = now } in
      rw
        (
          append_found limits.segment_bytes limits.segment_count size k i w.rows (w.journals k) r g,
          c,
          record_event,
        )
        refl

  pub record_event_unwritable :
      (r : SessionRecord)
      → get record_id k w.rows ≡ some r
      → w.writable k ≡ false
      → record_event limits size k source event now w
        ≡ (raise os_error, record w { rows = modify record_id k count_event w.rows })
  unfolding record_event
  record_event_unwritable r g c =
      let i : Item = record { source = source; event = event; now = now } in
      rw
        (
          append_found limits.segment_bytes limits.segment_count size k i w.rows (w.journals k) r g,
          c,
          record_event,
        )
        refl

  pub record_event_missing :
      get record_id k w.rows ≡ none
      → record_event limits size k source event now w ≡ (raise key_error, w)
  unfolding record_event append next_event_seq
  record_event_missing n = rw (n, record_event, append, next_event_seq) refl

  record_event_written-Kept :
      (r : SessionRecord)
      → get record_id k w.rows ≡ some r
      → w.writable k ≡ true
      → Kept w
      → Kept (written r)
  record_event_written-Kept r e x h id y =
      let (log, holds, n) =
        KeptAt-same _ (some r.event_seq) (w.journals k) (ap counted e) (h k x) in
      let holds' =
        write-Holds limits.segment_bytes limits.segment_count size (next_envelope r) log
          (w.journals k) holds (omega (arith, n)) in
      elim (Bool-cases (id == k)) [
        | inr c ↦
            rw (c, get-modify_ne record_id count_event (λ _. refl) k id w.rows (ground (arith, c)))
              (h id y)
        | inl c ↦
            subst
              (λ j. KeptAt (counted (get record_id j (written r).rows)) ((written r).journals j))
              (sym (eq_of_== id k c))
              (rw (==_refl k, get-modify_self record_id count_event (λ _. refl) k w.rows r e)
                (
                  log ++ next_envelope r ∷ [],
                  holds',
                  omega (arith, n, length-append log (next_envelope r ∷ [])),
                ))
      ]

  -- Recording an event keeps all journals in step.
  pub record_event-Kept : Kept w → Kept (record_event limits size k source event now w).1
  record_event-Kept h = elim (Option-cases (get record_id k w.rows)) [
    | inl n ↦ rw (record_event_missing n) h
    | inr (r, e) ↦ elim (Bool-cases (w.writable k)) [
      | inl x ↦ rw (record_event_found r e x) (record_event_written-Kept r e x h)
      | inr x ↦ rw (record_event_unwritable r e x) (λ id y. elim (Bool-cases (id == k)) [
        | inr c ↦
            rw (get-modify_ne record_id count_event (λ _. refl) k id w.rows (ground (arith, c)))
              (h id y)
        | inl c ↦ absurd (ground (arith, x, y, ap w.writable (eq_of_== id k c)))
      ])
    ]
  ]
