-- ===== src/Manager/Catalog.antt =====
-- catalog_config.py, sync_catalog: the models and the policies of the database are made to match the
-- configuration. A row is one revision of a slug; a configured item that differs from the latest
-- revision gets a new one. The two halves of the source are one function over an interface.
pub mod Document
pub mod Versions
pub mod Settled
pub mod Published
pub mod Sync
use pi_opensandbox_runner.Base.{
  ℕ, ◌+◌, String, Bool, true, false, not, ◌&&◌, ◌||◌, Option, none, some, List, [], ◌∷◌, ◌++◌, map,
  str_eq, ◌==◌, if◌then◌else◌, leb,
}
use pi_opensandbox_runner.Manager.Models.{
  CatalogState, published, superseded, retired, ModelDeployment, RunnerPolicy, Db,
}

-- What the synchronisation reads and writes of a row, and of a configured item.
pub record Versioned (A C : Type 0) : Type 0 where
  pub slug : A → String
  pub revision : A → ℕ
  pub state : A → CatalogState
  pub with_state : CatalogState → A → A
  pub wanted : C → String
  pub same : A → C → Bool
  pub make : ℕ → ℕ → C → A

abbrev pub state_is_published : CatalogState → Bool
state_is_published published = true
state_is_published _ = false

abbrev pub state_is_retired : CatalogState → Bool
state_is_retired retired = true
state_is_retired _ = false

module _ {A C : Type 0} (v : Versioned A C) where
  abbrev pub newer : A → Option A → Option A
  newer a none = some a
  newer a (some b) = if leb (v.revision b) (v.revision a) then some a else some b

  -- `max(history, key=revision, default=None)`: the first of the greatest
  unfoldable pub newest : String → List A → Option A
  newest s [] = none
  newest s (a ∷ rows) =
      let rest = newest s rows in if str_eq (v.slug a) s then newer a rest else rest

  abbrev pub revision_of : Option A → ℕ
  revision_of none = 0
  revision_of (some a) = v.revision a

  abbrev pub is_match : C → Option A → Bool
  is_match c none = false
  is_match c (some a) = state_is_published (v.state a) && v.same a c

  -- The latest revision is what is configured.
  abbrev pub is_kept : C → List A → Bool
  is_kept c rows = is_match c (newest (v.wanted c) rows)

  abbrev pub supersede_row : String → A → A
  supersede_row s a =
      if str_eq (v.slug a) s && state_is_published (v.state a) then v.with_state superseded a else a

  abbrev pub version : C → List A → ℕ
  version c rows =
      let latest = revision_of (newest (v.wanted c) rows) in
      if is_kept c rows then latest else latest + 1

  -- One configured item; `id` is the id of the row that is made.
  unfoldable pub sync_one : ℕ → C → List A → List A
  sync_one id c rows =
      if is_kept c rows
      then rows
      else map (supersede_row (v.wanted c)) rows ++ v.make id (version c rows) c ∷ []

  -- All configured items: whether something changed, the versions, and the rows. `fresh` gives
  -- the ids of the rows that are made.
  unfoldable pub sync_all : (C → ℕ) → List C → List A → Bool × List (String × ℕ) × List A
  sync_all fresh [] rows = (false, [], rows)
  sync_all fresh (c ∷ items) rows =
      let (changed, versions, rows') = sync_all fresh items (sync_one (fresh c) c rows) in
      (not (is_kept c rows) || changed, (v.wanted c, version c rows) ∷ versions, rows')

  unfoldable pub is_wanted : String → List C → Bool
  is_wanted s [] = false
  is_wanted s (c ∷ items) = str_eq (v.wanted c) s || is_wanted s items

  abbrev pub is_stale : List C → A → Bool
  is_stale items a = not (is_wanted (v.slug a) items) && not (state_is_retired (v.state a))

  -- The rows of slugs that are not configured are retired.
  unfoldable pub retire_stale : List C → List A → Bool × List A
  retire_stale items [] = (false, [])
  retire_stale items (a ∷ rows) =
      let (changed, rows') = retire_stale items rows in
      if is_stale items a then (true, v.with_state retired a ∷ rows') else (changed, a ∷ rows')

  -- One half of `sync_catalog`
  unfoldable pub sync_rows : (C → ℕ) → List C → List A → Bool × List (String × ℕ) × List A
  sync_rows fresh items rows =
      let (changed, versions, synced) = sync_all fresh items rows in
      let (gone, rows') = retire_stale items synced in (changed || gone, versions, rows')
