-- ===== src/Bridge/Examples.antt =====
-- Runs of the Bridge on small states.
mod Processes
mod Routes
use pi_opensandbox_runner.Base.{
  ℕ, ◌+◌, ◌≤◌, String, ◌≡◌, refl, Bool, true, false, not, Option, none, some, List, [], ◌∷◌, ◌++◌,
  arith, ◌==◌, length, All, ltb,
}
use pi_opensandbox_runner.Base.Table.{get, modify, count}
use pi_opensandbox_runner.Bridge.Problem.{
  Result, ok, raise, capacity_exceeded, rpc_error, api, api_problem,
}
use pi_opensandbox_runner.Bridge.Catalog.{
  NewSession, Sessions, SessionRecord, new_record, record_id, next_event_seq, count_event,
}
use pi_opensandbox_runner.Bridge.Journal.{
  Event, Envelope, Directory, append, envelope, accepts, read_after, find_input_accepted, is_text,
}
use pi_opensandbox_runner.Bridge.Journal.Bounds.{IsSized, append-Sized}
use pi_opensandbox_runner.Bridge.Journal.Log.{Holds, Holds-empty}
use pi_opensandbox_runner.Bridge.Journal.Refinement.{
  Item, Reads, append_all, append_all_refines, append-read_after,
}
use pi_opensandbox_runner.Bridge.Journal.Retry.{append-find_input_accepted}

abbrev pub item : NewSession
item = record {
  name = "a";
  cwd = "/w";
  model = "m";
  thinking_level = none;
  system_prompt = none;
  system_prompt_mode = "append";
}

abbrev pub row : ℕ → SessionRecord
row id = new_record id item 0

abbrev pub rows : Sessions
rows = row 1 ∷ row 2 ∷ row 3 ∷ []

abbrev pub ten_bytes : Envelope → ℕ
ten_bytes e = 10

abbrev pub text_event : String → Event
text_event body = record {
  event_type = "text";
  request_id = none;
  command_id = none;
  delivery = none;
  body = body;
}

abbrev pub accepted_event : Event
accepted_event = record {
  event_type = "input_accepted";
  request_id = some "r";
  command_id = some "r";
  delivery = some "prompt";
  body = "";
}

abbrev pub item_of : Event → Item
item_of event = record { source = "pi"; event = event; now = 5 }

abbrev pub three_items : List Item
three_items = item_of (text_event "a") ∷ item_of (text_event "b") ∷ item_of (text_event "c") ∷ []

append_all_refines_example :
    Reads
      (text_event "a" ∷ text_event "b" ∷ text_event "c" ∷ [])
      (append_all 20 1 ten_bytes 1 three_items rows [])
unfolding get
append_all_refines_example = append_all_refines 20 1 ten_bytes 1 three_items rows (row 1) refl refl

append-read_after_example :
    (e : Envelope) × (rows' : Sessions) × (ss' : Directory) × (append 20 1 ten_bytes 1 "pi"
        (text_event "a")
        5
        rows
        []
      ≡ ok (e, rows', ss'))
    × (e.event ≡ text_event "a")
    × (read_after 0 ss' ≡ ok (e ∷ []))
unfolding get
append-read_after_example =
    append-read_after 20 1 ten_bytes 1 (item_of (text_event "a")) rows [] (row 1) [] refl refl
      Holds-empty

-- Encoded lines, where the request id "split" has a character at which `splitlines` splits.
abbrev pub unbroken : Envelope → Bool
unbroken e = not (is_text "split" e.event.request_id)

append-find_input_accepted_example :
    (e : Envelope) × (rows' : Sessions) × (ss' : Directory) × (append 20 1 ten_bytes 1 "pi"
        accepted_event 5 rows []
      ≡ ok (e, rows', ss'))
    × (find_input_accepted unbroken "r" ss' ≡ some accepted_event)
unfolding get
append-find_input_accepted_example =
    append-find_input_accepted unbroken 20 1 ten_bytes 1 (item_of accepted_event) "r" rows []
      (row 1) [] refl refl Holds-empty refl refl

abbrev split_event : Event
split_event = record accepted_event { request_id = some "split" }

append-Sized_example :
    (e : Envelope) × (rows' : Sessions) × (ss' : Directory) × (append 20 2 ten_bytes 1 "pi"
        (text_event "a")
        5
        rows
        []
      ≡ ok (e, rows', ss'))
    × (length ss' ≤ 2)
    × All (IsSized 20 ten_bytes) ss'
unfolding get
append-Sized_example =
    append-Sized 20 ten_bytes 1 1 (item_of (text_event "a")) rows [] (row 1) [] refl refl
      Holds-empty tt
