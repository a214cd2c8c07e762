-- ===== src/Bridge/Journal/Refinement.antt =====
-- Runs of `append` implement a log that readers read from a cursor.
use pi_opensandbox_runner.Base.{
  ℕ, ◌+◌, ◌-◌, ◌≤◌, String, ◌≡◌, refl, ◌∙◌, sym, ap, some, List, [], ◌∷◌, ◌++◌, map, arith, length,
  length-append,
}
use mathlib.Core.List.{append_assoc, append-nil, map-append}
use pi_opensandbox_runner.Base.Table.{get, modify, get-modify_self}
use pi_opensandbox_runner.Bridge.Problem.{Result, ok, ◌>>=◌}
use pi_opensandbox_runner.Bridge.Catalog.{
  Sessions, SessionRecord, record_id, next_event_seq, count_event,
}
use pi_opensandbox_runner.Bridge.Journal.{
  Envelope, Directory, Event, write, append, envelope, read_after,
}
use pi_opensandbox_runner.Bridge.Journal.Log.{
  Holds, Holds-empty, write-Holds, skip, read_log, read_after-Holds, latest_kept-Holds,
}

-- What an `append` is given.
pub record Item : Type 0 where
  pub source : String
  pub event : Event
  pub now : ℕ

abbrev payloads : List Item → List Event
payloads = map (λ i. i.event)

abbrev events_of : List Envelope → List Event
events_of = map (λ e. e.event)

-- One `append` after another.
unfoldable pub append_all :
    ℕ → ℕ → (Envelope → ℕ) → ℕ → List Item → Sessions → Directory → Result (Sessions × Directory)
append_all bytes count size id [] rows ss = ok (rows, ss)
append_all bytes count size id (i ∷ items) rows ss = do
  (_, rows', ss') ← append bytes count size id i.source i.event i.now rows ss
  append_all bytes count size id items rows' ss'

-- What has been appended, and how much of it is forgotten.
pub record Reads (events : List Event) (outcome : Result (Sessions × Directory)) : Type 0 where
  pub rows : Sessions
  pub segments : Directory
  pub returned : outcome ≡ ok (rows, segments)
  pub log : List Envelope
  pub forgotten : ℕ
  pub whole : events_of log ≡ events
  pub latest_kept : forgotten ≤ length log - 1
  pub reads : (cursor : ℕ) → read_after cursor segments ≡ read_log forgotten cursor log

pub next_event_seq_found :
    (id : ℕ) (rows : Sessions) (r : SessionRecord)
    → get record_id id rows ≡ some r
    → next_event_seq id rows ≡ ok (r.event_seq + 1, modify record_id id count_event rows)
unfolding next_event_seq
next_event_seq_found id rows r g = rw (g, next_event_seq) refl

pub append_found :
    (bytes count : ℕ) (size : Envelope → ℕ) (id : ℕ) (i : Item) (rows : Sessions) (ss : Directory)
    (r : SessionRecord)
    → get record_id id rows ≡ some r
    → append bytes count size id i.source i.event i.now rows ss ≡ (
        let e = envelope (r.event_seq + 1) id i.now i.source i.event in
        ok (e, modify record_id id count_event rows, write bytes count size e ss))
unfolding append
append_found bytes count size id i rows ss r g = rw (next_event_seq_found id rows r g) refl

append_all-Reads :
    (bytes count : ℕ) (size : Envelope → ℕ) (id : ℕ) (items : List Item) (rows : Sessions)
    (ss : Directory) (r : SessionRecord) (log : List Envelope)
    → get record_id id rows ≡ some r
    → r.event_seq ≡ length log
    → Holds log ss
    → Reads (events_of log ++ payloads items) (append_all bytes count size id items rows ss)
unfolding append_all
append_all-Reads bytes count size id [] rows ss r log g n h = record {
  rows = rows;
  segments = ss;
  returned = refl;
  log = log;
  forgotten = length h.gone;
  whole = sym (append-nil (events_of log));
  latest_kept = latest_kept-Holds log ss h;
  reads = read_after-Holds log ss h;
}
append_all-Reads bytes count size id (i ∷ items) rows ss r log g n h =
    let e = envelope (r.event_seq + 1) id i.now i.source i.event in
    let ss' = write bytes count size e ss in
    let h' = write-Holds bytes count size e log ss h (omega (arith, n)) in
    let g' = get-modify_self record_id count_event (λ _. refl) id rows r g in
    let rest =
      append_all-Reads bytes count size id items (modify record_id id count_event rows) ss'
        (count_event r) (log ++ e ∷ []) g' (omega (arith, n, length-append log (e ∷ []))) h' in
    record {
      rows = rest.rows;
      segments = rest.segments;
      returned = rw (append_found bytes count size id i rows ss r g) rest.returned;
      log = rest.log;
      forgotten = rest.forgotten;
      whole =
          rest.whole
          ∙ ap (λ l. l ++ payloads items) (map-append (λ x. x.event) log (e ∷ []))
          ∙ append_assoc (events_of log) (i.event ∷ []) (payloads items);
      latest_kept = rest.latest_kept;
      reads = rest.reads;
    }

-- Appends to the journal of a session that is new return, and what can be read then is what the log of
-- the appended events gives to a reader: with a cursor that is not before the forgotten events all the
-- events after the cursor, else the number of the oldest event that is left; the latest is not forgotten.
pub append_all_refines :
    (bytes count : ℕ) (size : Envelope → ℕ) (id : ℕ) (items : List Item) (rows : Sessions)
    (r : SessionRecord)
    → get record_id id rows ≡ some r
    → r.event_seq ≡ 0
    → Reads (payloads items) (append_all bytes count size id items rows [])
append_all_refines bytes count size id items rows r g n =
    append_all-Reads bytes count size id items rows [] r [] g n Holds-empty

skip-append : (es fs : List Envelope) → skip (length es) (es ++ fs) ≡ fs
unfolding skip
skip-append [] fs = refl
skip-append (e ∷ es) fs = skip-append es fs

-- An event that is appended to a journal that holds the end of a log is what a reader gets who has read
-- up to the last event before it, however many files are deleted.
pub append-read_after :
    (bytes count : ℕ) (size : Envelope → ℕ) (id : ℕ) (i : Item) (rows : Sessions) (ss : Directory)
    (r : SessionRecord) (log : List Envelope)
    → get record_id id rows ≡ some r
    → r.event_seq ≡ length log
    → Holds log ss
    → (e : Envelope) × (rows' : Sessions) × (ss' : Directory) × (append bytes count size id i.source
          i.event i.now rows ss
        ≡ ok (e, rows', ss'))
      × (e.event ≡ i.event)
      × (read_after (length log) ss' ≡ ok (e ∷ []))
unfolding read_log
append-read_after bytes count size id i rows ss r log g n h =
    let e = envelope (r.event_seq + 1) id i.now i.source i.event in
    let ss' = write bytes count size e ss in
    let h' = write-Holds bytes count size e log ss h (omega (arith, n)) in
    let kept = latest_kept-Holds (log ++ e ∷ []) ss' h' in
    let len = length-append log (e ∷ []) in
    let read = read_after-Holds (log ++ e ∷ []) ss' h' (length log) in
    let rest = skip-append log (e ∷ []) in
    (
      e,
      modify record_id id count_event rows,
      ss',
      append_found bytes count size id i rows ss r g,
      refl,
      read ∙ ground (arith, kept, len, rest),
    )
