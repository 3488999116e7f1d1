-- ===== src/Samples/Caches.antt =====
-- Files in context.
use inber.Prelude.{String, ◌≡◌, refl, [], ◌∷◌, some, str_eq, if◌then◌else◌}
use inber.ReadCache.{
  unaffected, Json, Paths, ReadCache, evict, key_for, is_file_write, invalidates_everything,
  read_cache_effect, writes_named_paths, invalidate, new_read_cache, set_root, entry, without_key,
}

-- Inputs that are a path, or a path with an offset.
abbrev pub json : Json String
json = record {
  unmarshal = λ input.
      if str_eq input "part"
      then some (("path", "a.go") ∷ ("offset", "3") ∷ [])
      else some (("path", input) ∷ []);
  as_string = λ v. some v;
  as_positive = λ v. str_eq v "3";
  as_array = λ v. [];
  as_object = λ v. [];
}

-- Two spellings of one file.
abbrev pub paths : Paths
paths = record {
  lexical_path_identity = λ path root. if str_eq path "./a.go" then "a.go" else path;
  canonical_path_identity = λ path. "";
}

abbrev cache : ReadCache
cache = record (set_root "/repo" new_read_cache) { files = ("a.go", 12) ∷ ("b.go", 7) ∷ [] }

evict_run : (evict json paths "edit_files" "./a.go" cache).files ≡ ("b.go", 7) ∷ []
unfolding evict is_file_write writes_named_paths invalidates_everything invalidate key_for
    without_key entry
evict_run = refl

reads_are_unaffected : read_cache_effect "read_files" ≡ unaffected
unfolding read_cache_effect invalidates_everything writes_named_paths
reads_are_unaffected = refl
