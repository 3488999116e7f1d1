-- ===== src/AutoSave.antt =====
-- conversation/manage_auto_save.go: the facts that pruning saves before it shortens a message. The
-- hash of a fact, and whether an importance of 0.5, or of 0.7, reaches the minimum, are arguments.
use Prim.Native.String
use inber.Prelude.{
  ℕ, zero, suc, String, List, [], ◌∷◌, Option, none, some, Bool, false, not, ◌||◌, str_eq, ltb,
  if◌then◌else◌,
}
use inber.Prelude.Int.{pos, leb_ℤ, ltb_ℤ}
use inber.Message.{Block, text, tool_use, tool_result, thinking, redacted_thinking, other, Message}
use inber.Repair.{is_assistant}
use inber.Transcript.{join}
use inber.Texts.{sentences, trim_space, lower_contains}
use inber.Summary.{Memory}
use inber.ManagementConfig.{ManagementConfig}
use inber.Shelf.{Shelf, Shelved}

pub record Facts : Type 0 where
  pub hash : String → String
  pub reaches_minimum : Bool → Bool

abbrev auto_save_memory_id : Facts → String → String → String
auto_save_memory_id facts session fact =
    String.◌++◌ "auto-saved:" (String.◌++◌ session (String.◌++◌ ":" (facts.hash fact)))

abbrev texts_of : List Block → List String
texts_of [] = []
texts_of (text s ∷ bs) = s ∷ texts_of bs
texts_of (tool_use u ∷ bs) = texts_of bs
texts_of (tool_result r ∷ bs) = texts_of bs
texts_of (thinking s ∷ bs) = texts_of bs
texts_of (redacted_thinking s ∷ bs) = texts_of bs
texts_of (other s ∷ bs) = texts_of bs

unfoldable pub extract_text_block_content : List Block → String
unfolding join
extract_text_block_content bs = join "\n" (texts_of bs)

unfoldable pub substantial_fragments : ℕ → List String → List String
unfolding trim_space
substantial_fragments zero fragments = []
substantial_fragments (suc budget) [] = []
substantial_fragments (suc budget) (s ∷ more) =
    let fragment = trim_space s in
    let rest = substantial_fragments budget more in
    if ltb 20 (String.len fragment) then fragment ∷ rest else rest

unfoldable pub substantial_leading_fragments : String → ℕ → List String
unfolding sentences substantial_fragments
substantial_leading_fragments s budget = substantial_fragments budget (sentences s)

abbrev mentions : List String → String → Bool
mentions [] s = false
mentions (pattern ∷ patterns) s = lower_contains pattern s || mentions patterns s

unfoldable pub has_decision : String → Bool
unfolding lower_contains
has_decision s =
    mentions
      ("decided to" ∷ "choosing" ∷ "will use" ∷ "plan is to" ∷ "implemented" ∷ "created" ∷ "built"
        ∷ "fixed" ∷ "important:" ∷ "note:" ∷ "remember:" ∷ [])
      s

abbrev fact_memory : Facts → String → String → Memory
fact_memory facts session fact = record {
  id = auto_save_memory_id facts session fact;
  content = fact;
  summary = "";
  tags = "auto-saved" ∷ "decision" ∷ session ∷ [];
  source = "pruning";
}

abbrev kept_fact : Shelf → Memory → ℕ × Shelved → Option String → ℕ × Shelved
kept_fact shelf memory (n, st) (some e) = (n, st)
kept_fact shelf memory (n, st) none = (suc n, record st { rows = shelf.save_row memory st.rows })

abbrev save_fragments : Shelf → Facts → String → Bool → List String → ℕ × Shelved → ℕ × Shelved
save_fragments shelf facts session important [] done = done
save_fragments shelf facts session important (first ∷ more) done =
    let memory = fact_memory facts session (join " " (first ∷ more)) in
    if facts.reaches_minimum important
    then kept_fact shelf memory done (shelf.save_error memory)
    else done

unfoldable pub auto_save_message :
    Shelf → Facts → String → ManagementConfig → ℕ → Message → ℕ × Shelved → ℕ × Shelved
unfolding extract_text_block_content has_decision substantial_leading_fragments
auto_save_message shelf facts session cfg age m done =
    let content = extract_text_block_content m.content in
    if not (is_assistant m)
      || leb_ℤ (pos age) cfg.assistant_truncate_after
      || str_eq content ""
      || ltb_ℤ (pos (shelf.estimate_tokens content)) cfg.auto_save_threshold
      || not (has_decision content)
    then done
    else save_fragments shelf facts session (lower_contains "important" content)
        (substantial_leading_fragments content 3) done

-- `autoSaveToMemory`, which gives no error: how many facts were saved, and the store.
unfoldable pub auto_save_to_memory :
    Shelf → Facts → String → ManagementConfig → List ℕ → List Message → ℕ × Shelved → ℕ × Shelved
unfolding auto_save_message
auto_save_to_memory shelf facts session cfg [] ms done = done
auto_save_to_memory shelf facts session cfg (age ∷ ages) [] done = done
auto_save_to_memory shelf facts session cfg (age ∷ ages) (m ∷ ms) done =
    auto_save_to_memory shelf facts session cfg ages ms
      (auto_save_message shelf facts session cfg age m done)
