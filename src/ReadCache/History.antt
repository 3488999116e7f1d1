-- ===== src/ReadCache/History.antt =====
-- agent/read_cache.go: the read cache as what its history says of a file.
use inber.Prelude.{
  ℕ, String, List, [], ◌∷◌, Option, none, some, contains, str_eq, map, if◌then◌else◌, ◌||◌,
}
use inber.ReadCache.{
  Json, Paths, ReadCache, key_for, record_full_read, stub, invalidates_everything, is_file_write,
  evict,
}

-- What happens to files: one is read in full, or a call runs.
pub data Event : Type 0 where
  read_in_full : String → ℕ → Event
  ran : String → String → Event

module _ {V : Type 0} (json : Json V) (paths : Paths) where
  unfoldable pub perform : Event → ReadCache → ReadCache
  perform (read_in_full path lines) cache = record_full_read paths path lines cache
  perform (ran tool input) cache = evict json paths tool input cache

  -- The events, the latest first.
  unfoldable pub perform_all : List Event → ReadCache → ReadCache
  unfolding perform
  perform_all [] cache = cache
  perform_all (event ∷ older) cache = perform event (perform_all older cache)

  -- What an event says of a file, given by its key: nothing, or that it is or is not in context.
  abbrev pub says : String → Event → String → Option (Option String)
  says root (read_in_full path lines) key =
      if str_eq (key_for paths root path) key then some (some (stub lines)) else none
  says root (ran tool input) key =
      if invalidates_everything tool
        || contains (map (key_for paths root) (is_file_write json tool input)) key
      then some none
      else none

  abbrev pub or_older : Option (Option String) → Option String → Option String
  or_older none older = older
  or_older (some said) older = said

  -- The latest event that says something decides.
  abbrev pub latest_word : String → List Event → Option String → String → Option String
  latest_word root [] before key = before
  latest_word root (event ∷ older) before key =
      or_older (says root event key) (latest_word root older before key)
