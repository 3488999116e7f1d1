-- ===== src/Stash.antt =====
-- conversation/stash.go: large content of a conversation that moves to the memory store, of a text and of
-- all its messages.
use Prim.Native.Char.{Char, code}
use Prim.Native.String
use inber.Prelude.{
  ℕ, zero, suc, ◌+◌, ◌*◌, String, List, [], ◌∷◌, ◌++◌, Option, none, some, Bool, true, false, not,
  ◌||◌, ◌&&◌, str_eq, contains, length, leb, ltb, ◌==◌, if◌then◌else◌,
}
use inber.Prelude.Int.{ℤ, pos, ltb_ℤ, leb_ℤ, ◌+ℤ◌}
use inber.Message.{
  Role, user, assistant, Block, text, tool_use, tool_result, thinking, redacted_thinking, other,
  Message,
}
use inber.Transcript.{join, is_newline, onto_first}
use inber.Texts.{lower_contains}
use inber.Summary.{decimal, Memory}
use inber.ManagementConfig.{StashConfig}
use inber.Shelf.{
  Shelf, Shelved, recall_instruction, can_recall_stashed_content, count_fences, detect_content_type,
  StashResult, Outcome, saved, stash_large_content, replace_first, paragraphs, failed, nothing,
  stashed,
}
pub mod Recall
pub mod Ledger
pub mod Kept

-- A text as far as it is rewritten, what was stashed of it, and the store.
pub record Stashing : Type 0 where
  pub modified_text : String
  pub results : List StashResult
  pub shelved : Shelved

-- One round of the loop over code blocks, with what stashing the content gave.
abbrev pub replace_code : String → Stashing → Outcome × Shelved → Stashing
replace_code full done (failed e, st) = record done { shelved = st }
replace_code full done (nothing, st) = record done { shelved = st }
replace_code full done (stashed r, st) = record {
  modified_text = replace_first full r.summary done.modified_text;
  results = done.results ++ r ∷ [];
  shelved = st;
}

unfoldable pub stash_code_block :
    Shelf → String → StashConfig → String → String → Stashing → Stashing
unfolding stash_large_content replace_first
stash_code_block shelf session cfg full content done =
    if leb_ℤ cfg.min_block_size (pos (shelf.estimate_tokens content))
    then replace_code full done (stash_large_content shelf session cfg content done.shelved)
    else done

unfoldable pub stash_code_blocks :
    Shelf → String → StashConfig → List (String × String) → Stashing → Stashing
unfolding stash_code_block
stash_code_blocks shelf session cfg [] done = done
stash_code_blocks shelf session cfg ((full, content) ∷ blocks) done =
    stash_code_blocks shelf session cfg blocks
      (stash_code_block shelf session cfg full content done)

-- Rewritten paragraphs, what was stashed of them, and the store.
abbrev pub rebuild : String → Outcome × Shelved → String × List StashResult × Shelved
rebuild para (failed e, st) = (para, [], st)
rebuild para (nothing, st) = (para, [], st)
rebuild para (stashed r, st) = (r.summary, r ∷ [], st)

unfoldable pub stash_paragraph :
    Shelf → String → StashConfig → String → Shelved → String × List StashResult × Shelved
unfolding stash_large_content
stash_paragraph shelf session cfg para st =
    if leb_ℤ cfg.min_block_size (pos (shelf.estimate_tokens para))
    then rebuild para (stash_large_content shelf session cfg para st)
    else (para, [], st)

unfoldable pub stash_paragraphs :
    Shelf → String → StashConfig → List String → Shelved → List String × List StashResult × Shelved
unfolding stash_paragraph
stash_paragraphs shelf session cfg [] st = ([], [], st)
stash_paragraphs shelf session cfg (para ∷ paras) st =
    let (new, results, st1) = stash_paragraph shelf session cfg para st in
    let (rest, more, st2) = stash_paragraphs shelf session cfg paras st1 in
    (new ∷ rest, results ++ more, st2)

unfoldable pub stash_remaining : Shelf → String → StashConfig → Stashing → Stashing
unfolding stash_paragraphs paragraphs join
stash_remaining shelf session cfg done =
    let (rebuilt, results, st) =
      stash_paragraphs shelf session cfg (paragraphs false done.modified_text) done.shelved in
    if leb_ℤ cfg.min_block_size (pos (shelf.estimate_tokens done.modified_text))
    then record {
      modified_text = join "\n\n" rebuilt;
      results = done.results ++ results;
      shelved = st;
    }
    else done

abbrev pub replace_all : Stashing → Outcome × Shelved → Stashing
replace_all done (failed e, st) = record done { shelved = st }
replace_all done (nothing, st) = record done { shelved = st }
replace_all done (stashed r, st) = record {
  modified_text = r.summary;
  results = done.results ++ r ∷ [];
  shelved = st;
}

-- The fallback for a text of which nothing was stashed.
unfoldable pub stash_whole : Shelf → String → StashConfig → Stashing → Stashing
unfolding stash_large_content
stash_whole shelf session cfg done =
    if (length done.results == 0)
      && leb_ℤ cfg.user_message_threshold (pos (shelf.estimate_tokens done.modified_text))
    then replace_all done (stash_large_content shelf session cfg done.modified_text done.shelved)
    else done

-- `DetectAndStashLargeBlocks`, which gives no error.
unfoldable pub detect_and_stash_large_blocks :
    Shelf → String → StashConfig → String → Shelved → Stashing
unfolding can_recall_stashed_content stash_code_blocks stash_remaining stash_whole
detect_and_stash_large_blocks shelf session cfg s st =
    let untouched : Stashing = record { modified_text = s; results = []; shelved = st } in
    if not cfg.enabled || not shelf.has_store
    then untouched
    else if not (can_recall_stashed_content cfg)
    then untouched
    else stash_whole shelf session cfg (
        stash_remaining shelf session cfg
          (stash_code_blocks shelf session cfg (shelf.code_blocks s) untouched))

abbrev threshold : StashConfig → Role → ℤ
threshold cfg user = cfg.user_message_threshold
threshold cfg assistant = cfg.assistant_threshold

unfoldable pub should_stash : StashConfig → Role → ℕ → Bool
should_stash cfg role tokens =
    ltb_ℤ (threshold cfg role) (pos tokens)
    || ltb_ℤ (cfg.min_block_size +ℤ cfg.min_block_size +ℤ cfg.min_block_size) (pos tokens)

-- What becomes of a text block, how many texts were stashed, and the store.
abbrev pub replace_text : String → Stashing → Block × ℕ × Shelved
replace_text s done =
    if length done.results == 0
    then (text s, 0, done.shelved)
    else (text done.modified_text, length done.results, done.shelved)

unfoldable pub stash_block :
    Shelf → String → StashConfig → Role → Block → Shelved → Block × ℕ × Shelved
unfolding detect_and_stash_large_blocks should_stash
stash_block shelf session cfg role (text s) st =
    if should_stash cfg role (shelf.estimate_tokens s)
    then replace_text s (detect_and_stash_large_blocks shelf session cfg s st)
    else (text s, 0, st)
stash_block shelf session cfg role (tool_use u) st = (tool_use u, 0, st)
stash_block shelf session cfg role (tool_result r) st = (tool_result r, 0, st)
stash_block shelf session cfg role (thinking s) st = (thinking s, 0, st)
stash_block shelf session cfg role (redacted_thinking s) st = (redacted_thinking s, 0, st)
stash_block shelf session cfg role (other s) st = (other s, 0, st)

unfoldable pub stash_blocks :
    Shelf → String → StashConfig → Role → List Block → Shelved → List Block × ℕ × Shelved
unfolding stash_block
stash_blocks shelf session cfg role [] st = ([], 0, st)
stash_blocks shelf session cfg role (b ∷ bs) st =
    let (block, n, st1) = stash_block shelf session cfg role b st in
    let (blocks, more, st2) = stash_blocks shelf session cfg role bs st1 in
    (block ∷ blocks, n + more, st2)

unfoldable pub stash_messages :
    Shelf → String → StashConfig → List Message → Shelved → List Message × ℕ × Shelved
unfolding stash_blocks
stash_messages shelf session cfg [] st = ([], 0, st)
stash_messages shelf session cfg (m ∷ ms) st =
    let (content, n, st1) = stash_blocks shelf session cfg m.role m.content st in
    let (rest, more, st2) = stash_messages shelf session cfg ms st1 in
    (record m { content = content } ∷ rest, n + more, st2)

-- `ApplyStashing`, which gives no error.
unfoldable pub apply_stashing :
    Shelf → String → StashConfig → List Message → Shelved → List Message × ℕ × Shelved
unfolding stash_messages
apply_stashing shelf session cfg ms st =
    if not cfg.enabled || not shelf.has_store
    then (ms, 0, st)
    else stash_messages shelf session cfg ms st
