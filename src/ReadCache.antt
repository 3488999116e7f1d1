-- ===== src/ReadCache.antt =====
-- agent/read_cache.go: which files are in context already, and what a call does to them. JSON is
-- what `encoding/json` makes of a text; the identity of a path is the file system's to say.
use Prim.Native.String
use inber.Prelude.{
  ℕ, String, List, [], ◌∷◌, ◌++◌, Option, none, some, Bool, true, false, not, contains, str_eq, ltb,
  leb, map, if◌then◌else◌, ◌||◌, ◌&&◌,
}
use inber.Summary.{decimal}
pub mod Entries
pub mod History

-- `encoding/json`, for values of type `V`; an object is its fields, each name once.
pub record Json (V : Type 0) : Type 0 where
  pub unmarshal : String → Option (List (String × V))
  pub as_string : V → Option String
  pub as_positive : V → Bool
  pub as_array : V → List V
  pub as_object : V → List (String × V)

-- `filepath`: the lexical identity of a path under a root, and the canonical one, "" if there is none.
pub record Paths : Type 0 where
  pub lexical_path_identity : String → String → String
  pub canonical_path_identity : String → String

pub record ReadCache : Type 0 where
  pub root : String
  pub files : List (String × ℕ)

-- A map: a lookup, and the map without a key.
unfoldable pub entry : {V : Type 0} → String → List (String × V) → Option V
entry key [] = none
entry key ((k, v) ∷ rest) = let found = entry key rest in if str_eq k key then some v else found

unfoldable pub without_key : {V : Type 0} → String → List (String × V) → List (String × V)
without_key key [] = []
without_key key ((k, v) ∷ rest) =
    let kept = without_key key rest in if str_eq k key then kept else (k, v) ∷ kept

abbrev pub new_read_cache : ReadCache
new_read_cache = record { root = ""; files = [] }

abbrev pub set_root : String → ReadCache → ReadCache
set_root root cache = record cache { root = root }

-- `keyFor`, of a cache with this root.
unfoldable pub key_for : Paths → String → String → String
key_for paths root path =
    let lexical = paths.lexical_path_identity path root in
    let canonical = paths.canonical_path_identity lexical in
    if str_eq canonical "" then lexical else canonical

unfoldable pub record_full_read : Paths → String → ℕ → ReadCache → ReadCache
record_full_read paths path lines cache =
    let key = key_for paths cache.root path in
    record cache { files = (key, lines) ∷ without_key key cache.files }

unfoldable pub invalidate : Paths → String → ReadCache → ReadCache
invalidate paths path cache = record cache {
  files = without_key (key_for paths cache.root path) cache.files;
}

unfoldable pub invalidate_all : ReadCache → ReadCache
invalidate_all cache = record cache { files = [] }

abbrev pub stub : ℕ → String
stub lines =
    String.◌++◌ "[already in context — "
      (String.◌++◌ (decimal lines) " lines, read earlier this turn. No need to re-read.]")

abbrev pub stub_of : Option ℕ → Option String
stub_of none = none
stub_of (some lines) = some (stub lines)

unfoldable pub check : Paths → String → ReadCache → Option String
check paths path cache = stub_of (entry (key_for paths cache.root path) cache.files)

-- The names of the tools that read files.
abbrev pub reads_files : String → Bool
reads_files tool = str_eq tool "read_files" || str_eq tool "read_file"

abbrev pub string_field : {V : Type 0} → Json V → Option V → String
string_field json none = ""
string_field json (some v) = elim (json.as_string v) [ none ↦ "" | some s ↦ s ]

abbrev pub positive_field : {V : Type 0} → Json V → Option V → Bool
positive_field json none = false
positive_field json (some v) = json.as_positive v

-- The path of an input that names one file, "" if it does not.
abbrev pub single_path : {V : Type 0} → Json V → List (String × V) → String
single_path json fields = elim (entry "paths" fields) [
  | some v ↦ ""
  | none ↦ string_field json (entry "path" fields)
]

abbrev pub is_partial : {V : Type 0} → Json V → List (String × V) → Bool
is_partial json fields =
    positive_field json (entry "offset" fields) || positive_field json (entry "limit" fields)

abbrev pub read_path : {V : Type 0} → Json V → Bool → Option (List (String × V)) → Option String
read_path json partly none = none
read_path json partly (some fields) =
    let path = single_path json fields in
    if str_eq path "" then none else elim (is_partial json fields) [
      | true ↦ if partly then some path else none
      | false ↦ if partly then none else some path
    ]

-- The path that a call reads in full.
unfoldable pub is_full_read : {V : Type 0} → Json V → String → String → Option String
is_full_read json tool input =
    if reads_files tool then read_path json false (json.unmarshal input) else none

-- The path that a call reads a part of.
unfoldable pub is_partial_read : {V : Type 0} → Json V → String → String → Option String
is_partial_read json tool input =
    if reads_files tool then read_path json true (json.unmarshal input) else none

-- Calls that can write files which their input does not name.
unfoldable pub invalidates_everything : String → Bool
invalidates_everything tool =
    contains ("shell_commands" ∷ "deploy" ∷ "task_plan" ∷ "scratchpad" ∷ []) tool

-- Calls that write the files which their input names.
unfoldable pub writes_named_paths : String → Bool
writes_named_paths tool =
    contains ("write_file" ∷ "write_files" ∷ "edit_file" ∷ "edit_files" ∷ []) tool

pub data Effect : Type 0 where
  unaffected : Effect
  named_paths : Effect
  everything : Effect

unfoldable pub read_cache_effect : String → Effect
read_cache_effect tool =
    if invalidates_everything tool
    then everything
    else if writes_named_paths tool
    then named_paths
    else unaffected

abbrev pub named : String → List String
named path = if str_eq path "" then [] else path ∷ []

abbrev pub item_paths : {V : Type 0} → Json V → List V → List String
item_paths json [] = []
item_paths json (item ∷ items) =
    named (string_field json (entry "path" (json.as_object item))) ++ item_paths json items

abbrev pub array_field : {V : Type 0} → Json V → Option V → List V
array_field json none = []
array_field json (some v) = json.as_array v

abbrev named_in : {V : Type 0} → Json V → Option (List (String × V)) → List String
named_in json none = []
named_in json (some fields) =
    named (string_field json (entry "path" fields))
    ++ item_paths json (array_field json (entry "files" fields))
    ++ item_paths json (array_field json (entry "edits" fields))

-- The paths that a call names and writes.
unfoldable pub is_file_write : {V : Type 0} → Json V → String → String → List String
is_file_write json tool input =
    if writes_named_paths tool then named_in json (json.unmarshal input) else []

abbrev pub invalidate_each : Paths → List String → ReadCache → ReadCache
invalidate_each paths [] cache = cache
invalidate_each paths (path ∷ rest) cache = invalidate_each paths rest (invalidate paths path cache)

-- What `executeTools` evicts for a call that ran.
unfoldable pub evict : {V : Type 0} → Json V → Paths → String → String → ReadCache → ReadCache
evict json paths tool input cache =
    let left = invalidate_each paths (is_file_write json tool input) cache in
    if invalidates_everything tool then invalidate_all left else left
