-- ===== src/Dedup.antt =====
-- conversation/dedup_files.go: file references that later ones make redundant. JSON is what
-- `encoding/json` makes of a text, as in ReadCache.
use Prim.Native.String
use inber.Prelude.{
  ℕ, suc, ◌+◌, String, List, [], ◌∷◌, ◌++◌, Option, none, some, Bool, true, false, not, ◌||◌, ◌&&◌,
  str_eq, contains, length, get_elem?, leb, ltb, ◌==◌, if◌then◌else◌,
}
use inber.Message.{
  user, assistant, Block, text, tool_use, tool_result, thinking, redacted_thinking, other, ToolUse,
  ToolResult, Message,
}
use inber.Repair.{is_assistant, is_user}
use inber.Transcript.{join}
use inber.ReadCache.{
  Json, entry, without_key, string_field, positive_field, array_field, item_paths, named,
}
use inber.Prune.{
  Marshal, extract_tool_result_content, replace_tool_result_text, replace_tool_use_input,
}
pub mod Latest
pub mod Superseded
pub mod Rewriting

unfoldable pub is_file_op : String → Bool
is_file_op tool =
    contains
      ("read_file" ∷ "write_file" ∷ "edit_file" ∷ "read_files" ∷ "write_files" ∷ "edit_files" ∷ [])
      tool

abbrev pub is_read : String → Bool
is_read tool = str_eq tool "read_file" || str_eq tool "read_files"

-- The entries of an array of bare paths.
abbrev bare_paths : {V : Type 0} → Json V → List V → List String
bare_paths json [] = []
bare_paths json (item ∷ items) = named (string_field json (some item)) ++ bare_paths json items

abbrev paths_of : {V : Type 0} → Json V → Option (List (String × V)) → List String
paths_of json none = []
paths_of json (some fields) =
    named (string_field json (entry "path" fields))
    ++ bare_paths json (array_field json (entry "paths" fields))
    ++ item_paths json (array_field json (entry "files" fields))
    ++ item_paths json (array_field json (entry "edits" fields))

-- `toolUseFilePaths`, with no paths where it gives false.
unfoldable pub tool_use_file_paths : {V : Type 0} → Json V → ToolUse → List String
unfolding entry
tool_use_file_paths json u =
    if is_file_op u.name then paths_of json (json.unmarshal u.input) else []

abbrev names_lines : {V : Type 0} → Json V → Option (List (String × V)) → Bool
names_lines json none = false
names_lines json (some fields) =
    positive_field json (entry "offset" fields) || positive_field json (entry "limit" fields)

unfoldable pub tool_use_named_line_range : {V : Type 0} → Json V → ToolUse → List String → Bool
unfolding entry
tool_use_named_line_range json u paths =
    is_read u.name && (length paths == 1) && names_lines json (json.unmarshal u.input)

unfoldable pub distinct_from : List String → List String → List String
distinct_from seen [] = []
distinct_from seen (n ∷ names) =
    let rest = distinct_from (if contains seen n then seen else n ∷ seen) names in
    if contains seen n then rest else n ∷ rest

abbrev pub distinct : List String → List String
distinct names = distinct_from [] names

pub record ToolRef : Type 0 where
  pub paths : List String
  pub tool_name : String
  pub tool_id : String
  pub named_line_range : Bool
  pub changes_file : Bool

abbrev ref_of : {V : Type 0} → Json V → ToolUse → List String → List ToolRef
ref_of json u [] = []
ref_of json u (path ∷ paths) =
    record {
      paths = path ∷ paths;
      tool_name = u.name;
      tool_id = u.id;
      named_line_range = tool_use_named_line_range json u (path ∷ paths);
      changes_file = not (is_read u.name);
    }
    ∷ []

abbrev block_refs : {V : Type 0} → Json V → Block → List ToolRef
block_refs json (tool_use u) = ref_of json u (tool_use_file_paths json u)
block_refs json (text s) = []
block_refs json (tool_result r) = []
block_refs json (thinking s) = []
block_refs json (redacted_thinking s) = []
block_refs json (other s) = []

unfoldable pub content_refs : {V : Type 0} → Json V → List Block → List ToolRef
unfolding tool_use_file_paths tool_use_named_line_range
content_refs json [] = []
content_refs json (b ∷ bs) = block_refs json b ++ content_refs json bs

-- The first pass.
unfoldable pub collect_refs : {V : Type 0} → Json V → List Message → List ToolRef
unfolding content_refs
collect_refs json [] = []
collect_refs json (m ∷ ms) =
    let rest = collect_refs json ms in
    if is_assistant m then content_refs json m.content ++ rest else rest

-- `latest[p] = i` for each path p.
unfoldable pub set_all : List String → ℕ → List (String × ℕ) → List (String × ℕ)
unfolding without_key
set_all [] i latest = latest
set_all (p ∷ paths) i latest = set_all paths i ((p, i) ∷ without_key p latest)

-- Which references `latestWholeFileRef` takes, and which `latestChangingRef`.
abbrev pub is_whole : ToolRef → Bool
is_whole r = not r.named_line_range

abbrev pub is_changing : ToolRef → Bool
is_changing r = is_whole r && r.changes_file

-- The loop that fills a map with the references of one kind, from the one numbered `i` on.
unfoldable pub latest_from :
    (ToolRef → Bool) → ℕ → List ToolRef → List (String × ℕ) → List (String × ℕ)
unfolding set_all
latest_from takes i [] latest = latest
latest_from takes i (r ∷ rs) latest =
    latest_from takes (suc i) rs (if takes r then set_all r.paths i latest else latest)

abbrev name_at : Option ToolRef → String
name_at none = ""
name_at (some r) = r.tool_name

-- The name of the latest call for a path, if it is behind the reference numbered `i`.
abbrev pub later_name : List ToolRef → ℕ → Option ℕ → Option String
later_name refs i none = none
later_name refs i (some k) = if leb k i then none else some (name_at (get_elem? refs k))

abbrev pub both_covered : Option String → Option (List String) → Option (List String)
both_covered none names = none
both_covered (some name) none = none
both_covered (some name) (some names) = some (name ∷ names)

-- The names of the calls that supersede the one numbered `i`, if each of the paths is covered.
unfoldable pub superseded_by :
    List ToolRef → List (String × ℕ) → ℕ → List String → Option (List String)
unfolding entry
superseded_by refs latest i [] = some []
superseded_by refs latest i (p ∷ paths) =
    both_covered (later_name refs i (entry p latest)) (superseded_by refs latest i paths)

abbrev pub kind_for : ToolRef → ToolRef → Bool
kind_for r = if r.named_line_range then is_changing else is_whole

abbrev pub latest_for : List ToolRef → ToolRef → List (String × ℕ)
latest_for refs r = latest_from (kind_for r) 0 refs []

abbrev stub_text : List String → List String → String
stub_text paths names = String.◌++◌ "[" (
    String.◌++◌ (join ", " paths)
      (String.◌++◌ " superseded — see later " (String.◌++◌ (join ", " (distinct names)) "]")))

abbrev pub stub_with : List String → Option (List String) → Option String
stub_with paths none = none
stub_with paths (some names) = some (stub_text paths names)

-- The stub of the reference numbered `i`, if it is superseded.
unfoldable pub stub_for : List ToolRef → ℕ → ToolRef → Option String
unfolding superseded_by latest_from distinct_from join
stub_for refs i r = stub_with r.paths (superseded_by refs (latest_for refs r) i r.paths)

abbrev pub with_stub : ToolRef → Option String → List (String × String) → List (String × String)
with_stub r none stubs = stubs
with_stub r (some stub) stubs = (r.tool_id, stub) ∷ without_key r.tool_id stubs

-- `stubIDs`, of the references from the one numbered `i` on.
unfoldable pub stub_ids :
    List ToolRef → ℕ → List ToolRef → List (String × String) → List (String × String)
unfolding stub_for without_key
stub_ids refs i [] stubs = stubs
stub_ids refs i (r ∷ rs) stubs = stub_ids refs (suc i) rs (with_stub r (stub_for refs i r) stubs)

abbrev stub_result_with : ToolResult → Option String → Block × ℕ
stub_result_with r none = (tool_result r, 0)
stub_result_with r (some stub) =
    if str_eq (extract_tool_result_content r) stub
    then (tool_result r, 0)
    else (replace_tool_result_text r stub, 1)

unfoldable pub stub_result : List (String × String) → Block → Block × ℕ
unfolding entry replace_tool_result_text
stub_result stubs (tool_result r) = stub_result_with r (entry r.tool_use_id stubs)
stub_result stubs (text s) = (text s, 0)
stub_result stubs (tool_use u) = (tool_use u, 0)
stub_result stubs (thinking s) = (thinking s, 0)
stub_result stubs (redacted_thinking s) = (redacted_thinking s, 0)
stub_result stubs (other s) = (other s, 0)

unfoldable pub stub_results : List (String × String) → List Block → List Block × ℕ
unfolding stub_result
stub_results stubs [] = ([], 0)
stub_results stubs (b ∷ bs) =
    let done = stub_results stubs bs in
    ((stub_result stubs b).0 ∷ done.0, (stub_result stubs b).1 + done.1)

-- The third pass.
unfoldable pub stub_messages : List (String × String) → List Message → List Message × ℕ
unfolding stub_results
stub_messages stubs [] = ([], 0)
stub_messages stubs (m ∷ ms) =
    let done = stub_messages stubs ms in
    let (content, stubbed) = stub_results stubs m.content in
    if is_user m
    then (record m { content = content } ∷ done.0, stubbed + done.1)
    else (m ∷ done.0, done.1)

abbrev stub_input_with : Marshal → ToolUse → Option String → Block
stub_input_with marshal u none = tool_use u
stub_input_with marshal u (some stub) = replace_tool_use_input u marshal.deduped_input

unfoldable pub stub_input : Marshal → List (String × String) → Block → Block
unfolding entry replace_tool_use_input
stub_input marshal stubs (tool_use u) = stub_input_with marshal u (entry u.id stubs)
stub_input marshal stubs (text s) = text s
stub_input marshal stubs (tool_result r) = tool_result r
stub_input marshal stubs (thinking s) = thinking s
stub_input marshal stubs (redacted_thinking s) = redacted_thinking s
stub_input marshal stubs (other s) = other s

unfoldable pub stub_inputs : Marshal → List (String × String) → List Block → List Block
unfolding stub_input
stub_inputs marshal stubs [] = []
stub_inputs marshal stubs (b ∷ bs) = stub_input marshal stubs b ∷ stub_inputs marshal stubs bs

-- The fourth pass.
unfoldable pub stub_calls : Marshal → List (String × String) → List Message → List Message
unfolding stub_inputs
stub_calls marshal stubs [] = []
stub_calls marshal stubs (m ∷ ms) =
    (if is_assistant m then record m { content = stub_inputs marshal stubs m.content } else m)
    ∷ stub_calls marshal stubs ms

abbrev pub rewritten : Marshal → List Message → List (String × String) → List Message × ℕ
rewritten marshal ms [] = (ms, 0)
rewritten marshal ms (stub ∷ stubs) =
    let done = stub_messages (stub ∷ stubs) ms in (stub_calls marshal (stub ∷ stubs) done.0, done.1)

unfoldable pub deduplicate_file_refs :
    {V : Type 0} → Json V → Marshal → List Message → List Message × ℕ
unfolding collect_refs stub_ids stub_messages stub_calls
deduplicate_file_refs json marshal ms =
    let refs = collect_refs json ms in
    if ltb (length refs) 2 then (ms, 0) else rewritten marshal ms (stub_ids refs 0 refs [])
