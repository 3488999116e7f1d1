-- ===== src/Shelf.antt =====
-- conversation/stash.go: one text that moves to the memory store, and the texts that are looked for. What
-- the libraries give is an argument: the tokens of a text, the matches of a regular expression, random ids,
-- the error of a save, and what a save that succeeds makes of the rows. A memory's importance, which is the same for all of these, is left out.
use Prim.Native.Char.{Char, code}
use Prim.Native.String
use inber.Prelude.{
  ℕ, suc, String, List, [], ◌∷◌, Option, none, some, Bool, true, false, not, ◌||◌, ◌&&◌, contains,
  leb, ◌==◌, if◌then◌else◌,
}
use inber.Prelude.Int.{pos, ltb_ℤ}
use inber.Transcript.{is_newline, onto_first}
use inber.Texts.{lower_contains, contains_text}
use inber.Summary.{decimal, Memory}
use inber.ManagementConfig.{StashConfig}

-- The store, and the libraries. `has_store` is whether there is a store at all.
pub record Shelf : Type 0 where
  pub has_store : Bool
  pub save_error : Memory → Option String
  pub save_row : Memory → List Memory → List Memory
  pub new_id : ℕ → String
  pub estimate_tokens : String → ℕ
  pub matches : String → String → Bool
  pub code_blocks : String → List (String × String)

-- The rows that the store holds, and how many ids were drawn.
pub record Shelved : Type 0 where
  pub rows : List Memory
  pub drawn : ℕ

unfoldable pub recall_instruction : List String → String → Option String
recall_instruction names id =
    let search = contains names "memory_search" in
    let expand = contains names "memory_expand" in
    if search && expand
    then some (
        String.◌++◌ "Use memory_search or memory_expand(id=\""
          (String.◌++◌ id "\") to recall full content"))
    else if expand
    then some (String.◌++◌ "Use memory_expand(id=\"" (String.◌++◌ id "\") to recall full content"))
    else if search
    then some "Use memory_search to recall full content"
    else none

abbrev is_some : Option String → Bool
is_some none = false
is_some (some s) = true

unfoldable pub can_recall_stashed_content : StashConfig → Bool
unfolding recall_instruction
can_recall_stashed_content cfg = is_some (recall_instruction cfg.recall_tool_names "")

-- `strings.Count(s, "```")`; the number is of the backquotes in front.
unfoldable pub count_fences : ℕ → String → ℕ
count_fences n String.[] = 0
count_fences n (String.◌∷◌ c s) =
    let quoted = code c == 0x60 in
    let closed = quoted && (n == 2) in
    let rest = count_fences (if quoted && not closed then suc n else 0) s in
    if closed then suc rest else rest

abbrev any_lower : List String → String → Bool
any_lower [] s = false
any_lower (pattern ∷ patterns) s = lower_contains pattern s || any_lower patterns s

abbrev count_matches : (String → Bool) → List String → ℕ
count_matches matched [] = 0
count_matches matched (pattern ∷ patterns) =
    if matched pattern then suc (count_matches matched patterns) else count_matches matched patterns

unfoldable pub detect_content_type : Shelf → String → String
unfolding lower_contains count_fences contains_text
detect_content_type shelf content =
    if any_lower
      ("error:" ∷ "exception:" ∷ "panic:" ∷ "traceback" ∷ "stack trace" ∷ "fatal:"
        ∷ "segmentation fault" ∷ "core dumped" ∷ [])
      content
    then "error-dump"
    else if leb 4 (count_fences 0 content)
    then "code-block"
    else if leb 2 (
        count_matches (λ pattern. shelf.matches pattern content)
          ("\\d{4}-\\d{2}-\\d{2}" ∷ "\\d{2}:\\d{2}:\\d{2}" ∷ "\\[.*?\\]"
            ∷ "(?i)(DEBUG|INFO|WARN|ERROR|FATAL):" ∷ []))
    then "log-output"
    else if (contains_text "/" content || contains_text "\\" content)
        && shelf.matches ":\\d+:" content
    then "file-content"
    else "large-text"

pub record StashResult : Type 0 where
  pub memory_id : String
  pub content_type : String
  pub tokens : ℕ
  pub summary : String

-- What stashing one text comes to: an error, nothing, or a result.
pub data Outcome : Type 0 where
  failed : String → Outcome
  nothing : Outcome
  stashed : StashResult → Outcome

abbrev or_empty : Option String → String
or_empty none = ""
or_empty (some s) = s

abbrev pub stashed_memory : String → String → String → String → Memory
stashed_memory session content_type content id = record {
  id = id;
  content = content;
  summary = "";
  tags = "large-input" ∷ "stashed" ∷ session ∷ content_type ∷ [];
  source = "system";
}

abbrev pub result_of : StashConfig → String → ℕ → String → StashResult
result_of cfg content_type tokens id = record {
  memory_id = id;
  content_type = content_type;
  tokens = tokens;
  summary = String.◌++◌ "[Large content stashed — " (
      String.◌++◌ content_type (
        String.◌++◌ ", ~" (
          String.◌++◌ (decimal tokens) (
            String.◌++◌ " tokens. "
              (String.◌++◌ (or_empty (recall_instruction cfg.recall_tool_names id)) "]")))));
}

-- The end of `StashLargeContent`, with the error of the save.
abbrev pub saved : Shelf → Memory → StashResult → Shelved → Option String → Outcome × Shelved
saved shelf memory result st (some e) =
    (failed (String.◌++◌ "save stashed content: " e), record st { drawn = suc st.drawn })
saved shelf memory result st none =
    (stashed result, record { rows = shelf.save_row memory st.rows; drawn = suc st.drawn })

unfoldable pub stash_large_content :
    Shelf → String → StashConfig → String → Shelved → Outcome × Shelved
unfolding can_recall_stashed_content detect_content_type
stash_large_content shelf session cfg content st =
    let tokens = shelf.estimate_tokens content in
    let content_type = detect_content_type shelf content in
    let id = shelf.new_id st.drawn in
    let memory = stashed_memory session content_type content id in
    if ltb_ℤ (pos tokens) cfg.min_block_size
    then (nothing, st)
    else if not (can_recall_stashed_content cfg)
    then (nothing, st)
    else saved shelf memory (result_of cfg content_type tokens id) st (shelf.save_error memory)

abbrev without_prefix : String → String → Option String
without_prefix String.[] s = some s
without_prefix (String.◌∷◌ d pattern) String.[] = none
without_prefix (String.◌∷◌ d pattern) (String.◌∷◌ c s) =
    if code d == code c then without_prefix pattern s else none

abbrev replaced_here : Char → String → String → Option String → String
replaced_here c kept new none = String.◌∷◌ c kept
replaced_here c kept new (some rest) = String.◌++◌ new rest

-- `strings.Replace(s, old, new, 1)`, for an old text that is not empty.
unfoldable pub replace_first : String → String → String → String
replace_first old new String.[] = ""
replace_first old new (String.◌∷◌ c s) =
    let kept = replace_first old new s in
    replaced_here c kept new (without_prefix old (String.◌∷◌ c s))

-- `strings.Split(s, "\n\n")`; the flag says that a line break is held back.
unfoldable pub paragraphs : Bool → String → List String
paragraphs held String.[] = (if held then "\n" else "") ∷ []
paragraphs held (String.◌∷◌ c s) =
    let rest = paragraphs (is_newline c && not held) s in
    if is_newline c
    then (if held then "" ∷ rest else rest)
    else if held
    then onto_first "\n" (onto_first c rest)
    else onto_first c rest
