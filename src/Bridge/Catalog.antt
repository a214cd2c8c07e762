-- ===== src/Bridge/Catalog.antt =====
-- catalog/store.py and catalog/models.py: the table of sessions. Session ids (uuid4) are opaque and
-- instants are ordered, so both are numbers. A transaction that raises leaves the table as it was.
use pi_opensandbox_runner.Base.{
  ℕ, ◌+◌, String, Bool, false, not, ◌||◌, Option, none, some, List, [], ◌∷◌, ◌++◌, map, str_eq,
  ◌==◌, if◌then◌else◌,
}
use pi_opensandbox_runner.Base.Table.{get, modify, remove}
use pi_opensandbox_runner.Base.Select.{select}
use pi_opensandbox_runner.Bridge.Problem.{Result, ok, raise, key_error, other}

pub record SessionRecord : Type 0 where
  pub id : ℕ
  pub name : String
  pub cwd : String
  pub model : String
  pub thinking_level : Option String
  pub system_prompt : Option String
  pub system_prompt_mode : String
  pub session_file : Option String
  pub created_at : ℕ
  pub updated_at : ℕ
  pub last_status : String
  pub last_error : Option String
  pub event_seq : ℕ

abbrev pub Sessions : Type 0
Sessions = List SessionRecord

abbrev pub record_id : SessionRecord → ℕ
record_id r = r.id

-- What `create` is given.
pub record NewSession : Type 0 where
  pub name : String
  pub cwd : String
  pub model : String
  pub thinking_level : Option String
  pub system_prompt : Option String
  pub system_prompt_mode : String

abbrev pub new_record : ℕ → NewSession → ℕ → SessionRecord
new_record id item now = record {
  id = id;
  name = item.name;
  cwd = item.cwd;
  model = item.model;
  thinking_level = item.thinking_level;
  system_prompt = item.system_prompt;
  system_prompt_mode = item.system_prompt_mode;
  session_file = none;
  created_at = now;
  updated_at = now;
  last_status = "stopped";
  last_error = none;
  event_seq = 0;
}

-- `Catalog.create`: an id that is taken violates the primary key.
unfoldable pub create : ℕ → NewSession → ℕ → Sessions → Result (SessionRecord × Sessions)
create id item now rows = elim (get record_id id rows) [
  | some existing ↦ raise other
  | none ↦ let r = new_record id item now in ok (r, rows ++ r ∷ [])
]

-- `Catalog._update`, with the assignments as a function.
unfoldable pub update :
    ℕ → (SessionRecord → SessionRecord) → ℕ → Sessions → Option SessionRecord × Sessions
update id f now rows = elim (get record_id id rows) [
  | none ↦ (none, rows)
  | some item ↦
      let changed = record (f item) { updated_at = now } in
      (some changed, modify record_id id (λ _. changed) rows)
]

abbrev pub update_name : ℕ → String → ℕ → Sessions → Option SessionRecord × Sessions
update_name id name = update id (λ r. record r { name = name })

abbrev pub update_system_prompt :
    ℕ → Option String → String → ℕ → Sessions → Option SessionRecord × Sessions
update_system_prompt id prompt mode =
    update id (λ r. record r { system_prompt = prompt; system_prompt_mode = mode })

set_model : Option String → SessionRecord → SessionRecord
set_model none r = r
set_model (some model) r = record r { model = model }

-- `level` is `some` where `update_thinking_level` is true.
set_level : Option (Option String) → SessionRecord → SessionRecord
set_level none r = r
set_level (some level) r = record r { thinking_level = level }

unfoldable pub update_model_settings :
    ℕ → Option String → Option (Option String) → ℕ → Sessions → Option SessionRecord × Sessions
unfolding set_model set_level
update_model_settings id model level = update id (λ r. set_level level (set_model model r))

abbrev pub is_in : String → List String → Bool
is_in s [] = false
is_in s (x ∷ xs) = str_eq x s || is_in s xs

abbrev migrate_row : List String → String → ℕ → SessionRecord → SessionRecord
migrate_row allowed default_model now r =
    if is_in r.model allowed then r else record r { model = default_model; updated_at = now }

-- `Catalog.migrate_removed_models`
unfoldable pub migrate_removed_models : List String → String → ℕ → Sessions → List ℕ × Sessions
migrate_removed_models allowed default_model now rows = (
  map record_id (select (λ r. not (is_in r.model allowed)) rows),
  map (migrate_row allowed default_model now) rows,
)

file_or : Option String → Option String → Option String
file_or none old = old
file_or (some path) old = some path

-- `Catalog.set_runtime`
unfoldable pub set_runtime :
    ℕ → String → Option String → Option String → Bool → ℕ → Sessions → Sessions
unfolding file_or
set_runtime id status error file touch now rows =
    modify record_id id
      (λ r. record r {
        last_status = status;
        last_error = error;
        session_file = file_or file r.session_file;
        updated_at = if touch then now else r.updated_at;
      })
      rows

abbrev pub count_event : SessionRecord → SessionRecord
count_event r = record r { event_seq = r.event_seq + 1 }

-- `Catalog.next_event_seq`
unfoldable pub next_event_seq : ℕ → Sessions → Result (ℕ × Sessions)
next_event_seq id rows = elim (get record_id id rows) [
  | none ↦ raise key_error
  | some item ↦ ok (item.event_seq + 1, modify record_id id count_event rows)
]

-- `Catalog.delete`
unfoldable pub delete : ℕ → Sessions → Option SessionRecord × Sessions
delete id rows = elim (get record_id id rows) [
  | none ↦ (none, rows)
  | some item ↦ (some item, remove (λ r. r.id == id) rows)
]
