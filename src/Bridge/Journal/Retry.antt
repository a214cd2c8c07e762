-- ===== src/Bridge/Journal/Retry.antt =====
-- A prompt that has been accepted is found again by its request id.
use pi_opensandbox_runner.Base.{
  ℕ, ◌+◌, ◌≤◌, String, ◌≡◌, refl, ◌∙◌, sym, ap, Bool, true, Option, none, some, List, [], ◌∷◌, ◌++◌,
  arith, length, length-append,
}
use pi_opensandbox_runner.Base.Table.{get, modify}
use pi_opensandbox_runner.Bridge.Problem.{ok}
use pi_opensandbox_runner.Bridge.Catalog.{Sessions, SessionRecord, record_id, count_event}
use pi_opensandbox_runner.Bridge.Journal.{
  Envelope, Directory, Event, lines_of, write, append, envelope, accepts, last_accepted,
  find_input_accepted,
}
use pi_opensandbox_runner.Bridge.Journal.Log.{Holds, write-Holds, latest_kept-Holds}
use pi_opensandbox_runner.Bridge.Journal.Refinement.{Item, append_found}

or_earlier : Option Event → Option Event → Option Event
or_earlier none o = o
or_earlier (some e) o = some e

rest_of : List Envelope → List Envelope
rest_of [] = []
rest_of (e ∷ es) = es

module _ (whole : Envelope → Bool) where
  last_accepted-append :
      (request : String) (es fs : List Envelope)
      → last_accepted whole request (es ++ fs)
        ≡ or_earlier (last_accepted whole request fs) (last_accepted whole request es)
  unfolding last_accepted or_earlier
  last_accepted-append request [] fs = ground arith
  last_accepted-append request (e ∷ es) fs = ground (arith, last_accepted-append request es fs)

  -- The search through the files, from the last one, is the search through all the lines.
  find_input_accepted-lines :
      (request : String) (ss : Directory)
      → find_input_accepted whole request ss ≡ last_accepted whole request (lines_of ss)
  unfolding find_input_accepted lines_of or_earlier last_accepted
  find_input_accepted-lines request [] = refl
  find_input_accepted-lines request (s ∷ ss) = ground (
    arith,
    find_input_accepted-lines request ss,
    last_accepted-append request s.lines (lines_of ss),
  )

  last_accepted_here :
      (request : String) (e : Envelope) (log : List Envelope)
      → whole e ≡ true
      → accepts request e ≡ true
      → last_accepted whole request (log ++ e ∷ []) ≡ some e.event
  unfolding last_accepted or_earlier
  last_accepted_here request e log v a = rw (last_accepted-append request log (e ∷ []), v, a) refl

  -- What is left of a log after its first events ends as the log does, unless nothing is left.
  last_accepted_end :
      (request : String) (e : Envelope) (log gone lines : List Envelope)
      → whole e ≡ true
      → accepts request e ≡ true
      → log ++ e ∷ [] ≡ gone ++ lines
      → 1 ≤ length lines
      → last_accepted whole request lines ≡ some e.event
  unfolding rest_of
  last_accepted_end request e log [] lines v a h n =
      ap (last_accepted whole request) (sym h) ∙ last_accepted_here request e log v a
  last_accepted_end request e [] (g ∷ gone) lines v a h n =
      absurd (omega (arith, n, ap length h, length-append gone lines))
  last_accepted_end request e (x ∷ log) (g ∷ gone) lines v a h n =
      last_accepted_end request e log gone lines v a (ap rest_of h) n

  -- An acceptance record that is written to a directory that holds the end of a log is found.
  pub write-find_input_accepted :
      (bytes count : ℕ) (size : Envelope → ℕ) (request : String) (e : Envelope)
      (log : List Envelope) (ss : Directory)
      → Holds log ss
      → e.seq ≡ length log + 1
      → whole e ≡ true
      → accepts request e ≡ true
      → find_input_accepted whole request (write bytes count size e ss) ≡ some e.event
  write-find_input_accepted bytes count size request e log ss h n v a =
      let ss' = write bytes count size e ss in
      let h' = write-Holds bytes count size e log ss h n in
      let some_line : 1 ≤ length (lines_of ss') = omega (
        arith,
        latest_kept-Holds (log ++ e ∷ []) ss' h',
        length-append log (e ∷ []),
        ap length h'.split,
        length-append h'.gone (lines_of ss'),
      ) in
      find_input_accepted-lines request ss'
      ∙ last_accepted_end request e log h'.gone (lines_of ss') v a h'.split some_line

  -- After an `append` of an acceptance record to a journal that holds the end of a log, where `splitlines`
  -- leaves its line in one piece, that record is what `find_input_accepted` returns for its request id,
  -- whether or not files are deleted.
  pub append-find_input_accepted :
      (bytes count : ℕ) (size : Envelope → ℕ) (id : ℕ) (i : Item) (request : String)
      (rows : Sessions) (ss : Directory) (r : SessionRecord) (log : List Envelope)
      → get record_id id rows ≡ some r
      → r.event_seq ≡ length log
      → Holds log ss
      → whole (envelope (r.event_seq + 1) id i.now i.source i.event) ≡ true
      → accepts request (envelope (r.event_seq + 1) id i.now i.source i.event) ≡ true
      → (e : Envelope) × (rows' : Sessions) × (ss' : Directory) × (append bytes count size id
            i.source i.event i.now rows ss
          ≡ ok (e, rows', ss'))
        × (find_input_accepted whole request ss' ≡ some i.event)
  append-find_input_accepted bytes count size id i request rows ss r log g n h v a =
      let e = envelope (r.event_seq + 1) id i.now i.source i.event in
      (
        e,
        modify record_id id count_event rows,
        write bytes count size e ss,
        append_found bytes count size id i rows ss r g,
        write-find_input_accepted bytes count size request e log ss h (omega (arith, n)) v a,
      )
