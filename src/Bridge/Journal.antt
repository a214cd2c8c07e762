-- ===== src/Bridge/Journal.antt =====
-- journal.py: the events of a session in segment files. A directory is its files, sorted by name; a
-- file is named for the sequence number of its first event, with zeros on the left, so that names
-- sort as the numbers do. `size` is the length in bytes of an encoded envelope.
pub mod Filed
pub mod Bounds
pub mod Log
pub mod Refinement
pub mod Retry
use pi_opensandbox_runner.Base.{
  ℕ, zero, suc, ◌+◌, ◌-◌, String, Bool, true, false, not, ◌&&◌, ◌||◌, Option, none, some, List, [],
  ◌∷◌, ◌++◌, str_eq, ◌==◌, if◌then◌else◌, ltb, leb, length,
}
use pi_opensandbox_runner.Bridge.Problem.{Result, ok, raise, cursor_expired, ◌>>=◌}
use pi_opensandbox_runner.Bridge.Catalog.{Sessions, next_event_seq}

-- An event, with the members that the Bridge reads; `body` stands for the others.
pub record Event : Type 0 where
  pub event_type : String
  pub request_id : Option String
  pub command_id : Option String
  pub delivery : Option String
  pub body : String

pub record Envelope : Type 0 where
  pub seq : ℕ
  pub session_id : ℕ
  pub timestamp : ℕ
  pub source : String
  pub event : Event

pub record Segment : Type 0 where
  pub first : ℕ
  pub lines : List Envelope

abbrev pub Directory : Type 0
Directory = List Segment

unfoldable pub lines_of : Directory → List Envelope
lines_of [] = []
lines_of (segment ∷ segments) = segment.lines ++ lines_of segments

unfoldable pub total_size : (Envelope → ℕ) → List Envelope → ℕ
total_size size [] = 0
total_size size (e ∷ es) = size e + total_size size es

-- `segments[-1]`
unfoldable pub last_segment : Directory → Option Segment
last_segment [] = none
last_segment (segment ∷ []) = some segment
last_segment (segment ∷ other ∷ segments) = last_segment (other ∷ segments)

-- Writes a line at the end of the file of this name, which is made if it is not there.
unfoldable pub write_line : ℕ → Envelope → Directory → Directory
write_line name e [] = record { first = name; lines = e ∷ [] } ∷ []
write_line name e (segment ∷ segments) =
    let rest = write_line name e segments in
    if segment.first == name
    then record segment { lines = segment.lines ++ e ∷ [] } ∷ segments
    else if ltb name segment.first
    then record { first = name; lines = e ∷ [] } ∷ segment ∷ segments
    else segment ∷ rest

unfoldable pub drop : ℕ → Directory → Directory
drop zero segments = segments
drop (suc n) [] = []
drop (suc n) (segment ∷ segments) = drop n segments

-- What is left after `for old in segments[:-count]: old.unlink()`: a slice to -0 is empty.
unfoldable pub keep_last : ℕ → Directory → Directory
keep_last zero segments = segments
keep_last (suc n) segments = drop (length segments - suc n) segments

-- The name of the file that the line goes to.
unfoldable pub target : ℕ → (Envelope → ℕ) → Envelope → Directory → ℕ
unfolding total_size
target segment_bytes size e segments = elim (last_segment segments) [
  | none ↦ e.seq
  | some segment ↦
      if ltb segment_bytes (total_size size segment.lines + size e) then e.seq else segment.first
]

unfoldable pub write : ℕ → ℕ → (Envelope → ℕ) → Envelope → Directory → Directory
write segment_bytes segment_count size e segments =
    keep_last segment_count (write_line (target segment_bytes size e segments) e segments)

abbrev pub envelope : ℕ → ℕ → ℕ → String → Event → Envelope
envelope seq id now source event = record {
  seq = seq;
  session_id = id;
  timestamp = now;
  source = source;
  event = event;
}

-- `EventJournal.append` where its directory and file can be made and opened; `record_event` of the
-- supervisor has the case where they cannot.
unfoldable pub append :
    ℕ
    → ℕ
    → (Envelope → ℕ)
    → ℕ
    → String
    → Event
    → ℕ
    → Sessions
    → Directory
    → Result (Envelope × Sessions × Directory)
append segment_bytes segment_count size id source event now rows segments = do
  (seq, rows') ← next_event_seq id rows
  let e = envelope seq id now source event
  ok (e, rows', write segment_bytes segment_count size e segments)

-- `EventJournal.oldest_cursor`
unfoldable pub oldest_cursor : Directory → Option ℕ
oldest_cursor [] = none
oldest_cursor (segment ∷ segments) = some segment.first

-- `cursor < oldest - 1`, on integers.
abbrev is_expired : ℕ → ℕ → Bool
is_expired cursor oldest = ltb (cursor + 1) oldest

-- `EventJournal.ensure_cursor`
unfoldable pub ensure_cursor : ℕ → Directory → Result (Unit {0})
ensure_cursor cursor segments = elim (oldest_cursor segments) [
  | none ↦ ok tt
  | some oldest ↦ if is_expired cursor oldest then raise (cursor_expired oldest) else ok tt
]

unfoldable pub after : ℕ → List Envelope → List Envelope
after cursor [] = []
after cursor (e ∷ es) = let rest = after cursor es in if ltb cursor e.seq then e ∷ rest else rest

-- `EventJournal.read_after`
unfoldable pub read_after : ℕ → Directory → Result (List Envelope)
read_after cursor segments = do
  _ ← ensure_cursor cursor segments
  ok (after cursor (lines_of segments))

abbrev pub is_text : String → Option String → Bool
is_text s none = false
is_text s (some t) = str_eq t s

-- The acceptance record of a request.
abbrev pub accepts : String → Envelope → Bool
accepts request e = str_eq e.event.event_type "input_accepted" && is_text request e.event.request_id

-- The lines of a file are taken from `splitlines`. `whole` says which encoded envelopes that leaves in one
-- piece: `json.dumps` writes U+0085, U+2028 and U+2029 as they are, and `splitlines` splits there. No piece
-- of a line that is split is a JSON object with an event, so such a line is passed over.
module _ (whole : Envelope → Bool) where
  -- The first one from the end.
  unfoldable pub last_accepted : String → List Envelope → Option Event
  last_accepted request [] = none
  last_accepted request (e ∷ es) = elim (last_accepted request es) [
    | some event ↦ some event
    | none ↦ if whole e && accepts request e then some e.event else none
  ]

  -- `EventJournal.find_input_accepted`: segments from the last, and lines from the last.
  unfoldable pub find_input_accepted : String → Directory → Option Event
  find_input_accepted request [] = none
  find_input_accepted request (segment ∷ segments) = elim (find_input_accepted request segments) [
    | some event ↦ some event
    | none ↦ last_accepted request segment.lines
  ]
