-- ===== src/Samples/Managed.antt =====
-- Conversations that are pruned, stashed and cut.
use Prim.Native.String.{len}
use inber.Prelude.{
  ◌||◌, contains, Bool-cases, inl, inr, subst, sym, ap, ℕ, zero, suc, str_eq, if◌then◌else◌, true,
  false, ◌*◌, String, ◌≡◌, refl, List, [], ◌∷◌, ◌++◌, none, some, length, drop, take, arith,
}
use inber.Prelude.Int.{pos}
use inber.Message.{
  Message, text, tool_use, tool_result, result_text, user_message, assistant_message,
}
use inber.Repair.Answered.{Answered}
use inber.Transcript.{truncate}
use inber.Texts.{truncate_tail}
use inber.Texts.Bounds.{IsLongestPrefix, IsLongestSuffix, cuts-AreLongest}
use inber.Summary.{Memory}
use inber.ManagementConfig.{StashConfig, ManagementConfig}
use inber.Prune.{Marshal, tool_names_by_use_id, compute_ages}
use inber.Prune.Outline.{outline}
use inber.Estimate.{Estimator}
use inber.Shelf.{Shelf, Shelved, paragraphs, can_recall_stashed_content, recall_instruction}
use inber.Stash.{apply_stashing, detect_and_stash_large_blocks}
use inber.Stash.Ledger.{Adds, Draws, row_ids, Filed, detect_and_stash_large_blocks-Filed}
use inber.Stash.Recall.{apply_stashing-lost}
use inber.HeadTail.{head_of, tail_of, before_last_newline, around_first_newline}
use inber.HeadTail.Apart.{IsParted, head_of-tail_of-IsParted}
use inber.AutoSave.{Facts}
use inber.Manage.{Tools, manage_conversation, prune_messages}
use inber.Manage.Preserved.{outline-manage_conversation, manage_conversation-Answered}
use inber.Manage.Recent.{prune_messages-recent}
use inber.Staging.{manage_staging}
use inber.Staging.Frozen.{manage_staging-IsFrozen}
use inber.Samples.Caches.{json}

abbrev pub read_call : String → String → Message
read_call id path =
    assistant_message (tool_use (record { id = id; name = "read_files"; input = path }) ∷ [])

abbrev pub edit_call : String → String → Message
edit_call id path =
    assistant_message (tool_use (record { id = id; name = "edit_files"; input = path }) ∷ [])

abbrev pub answer : String → String → Message
answer id content = user_message (
    tool_result
      (record { tool_use_id = id; is_error = some false; content = result_text content ∷ [] })
    ∷ [])

abbrev older : List Message
older = user_message (text "go" ∷ []) ∷ read_call "r1" "a.go" ∷ answer "r1" "package a" ∷ []

abbrev recent : List Message
recent = edit_call "e1" "a.go" ∷ answer "e1" "done" ∷ assistant_message (text "Done." ∷ []) ∷ []

abbrev cfg : ManagementConfig
cfg = record {
  role = "default";
  keep_recent_turns = pos 2;
  assistant_truncate_after = pos 1;
  tool_result_keep_full = pos 1;
  tool_result_summary = pos 2;
  tool_result_drop = pos 2;
  tool_call_keep_full = pos 1;
  auto_save_threshold = pos 0;
  aggressive_truncation = true;
  memory_save_threshold = pos 10;
  token_budget = pos 100;
  manage_interval = pos 5;
  stash = record {
    enabled = true;
    user_message_threshold = pos 1;
    assistant_threshold = pos 1;
    min_block_size = pos 1;
    recall_tool_names = [];
  };
}

abbrev pub marshal : Marshal
marshal = record { summary_input = λ s. s; deduped_input = "" }

abbrev estimator : Estimator
estimator = record {
  marshalled = λ b. 1;
  image_of = λ s. none;
  decode_size = λ s. none;
  scaled = λ edge n. n;
}

-- A row under an id that is there is replaced, another is put behind the rest.
abbrev upsert : Memory → List Memory → List Memory
upsert m [] = m ∷ []
upsert m (row ∷ rows) =
    let rest = upsert m rows in if str_eq row.id m.id then m ∷ rows else row ∷ rest

abbrev ticks : ℕ → String
ticks zero = ""
ticks (suc n) = String.◌∷◌ "i" (ticks n)

abbrev shelf : Shelf
shelf = record {
  has_store = true;
  save_error = λ memory. none;
  save_row = upsert;
  new_id = ticks;
  estimate_tokens = λ s. len s;
  matches = λ pattern s. false;
  code_blocks = λ s. [];
}

abbrev facts : Facts
facts = record { hash = λ s. s; reaches_minimum = λ important. true }

abbrev tools : Tools String
tools = record {
  json = json;
  marshal = marshal;
  estimator = estimator;
  shelf = shelf;
  facts = facts;
}

abbrev empty : Shelved
empty = record { rows = []; drawn = 0 }

outline-manage_conversation_example :
    outline (manage_conversation tools "s" cfg (older ++ recent) empty).0
    ≡ outline (older ++ recent)
outline-manage_conversation_example =
    outline-manage_conversation tools "s" cfg (older ++ recent) empty

manage_conversation-Answered_example :
    Answered (manage_conversation tools "s" cfg (older ++ recent) empty).0
manage_conversation-Answered_example =
    manage_conversation-Answered tools "s" cfg (older ++ recent) empty
      (tt, ((refl, tt), (tt, ((refl, tt), (tt, (tt, tt))))))

prune_messages-recent_example :
    drop
      (length older)
      (prune_messages estimator marshal cfg
        (tool_names_by_use_id (older ++ recent))
        (compute_ages (older ++ recent))
        (older ++ recent)).final_messages
    ≡ recent
unfolding compute_ages
prune_messages-recent_example =
    prune_messages-recent estimator marshal cfg (tool_names_by_use_id (older ++ recent)) 1 older
      recent (omega arith, omega arith, omega arith, omega arith) (omega arith)

manage_staging-IsFrozen_example :
    (take 2 (manage_staging json marshal 2 cfg (older ++ recent)).0 ≡ take 2 (older ++ recent))
    × (outline (manage_staging json marshal 2 cfg (older ++ recent)).0 ≡ outline (older ++ recent))
manage_staging-IsFrozen_example = manage_staging-IsFrozen json marshal 2 cfg (older ++ recent)

cuts-AreLongest_example :
    IsLongestPrefix 4 "h€llo" (truncate 4 "h€llo")
    × IsLongestSuffix 4 "h€llo" (truncate_tail 4 "h€llo")
cuts-AreLongest_example = cuts-AreLongest 4 "h€llo"

truncate_run : (truncate 3 "h€llo" ≡ "h") × (truncate_tail 4 "h€llo" ≡ "llo")
unfolding truncate truncate_tail
truncate_run = (refl, refl)

upsert-Adds : Adds shelf
upsert-Adds m [] h = refl
upsert-Adds m (row ∷ rows) h = elim (Bool-cases (str_eq row.id m.id)) [
  | inl e ↦ cc (h, subst (λ b. (b || contains (row_ids rows) m.id) ≡ true) (sym e) refl)
  | inr e ↦ rw e (
      ap (◌∷◌ row)
        (upsert-Adds m rows (subst (λ b. (b || contains (row_ids rows) m.id) ≡ false) e h)))
]

ticks-Draws : Draws shelf
ticks-Draws zero zero e = refl
ticks-Draws zero (suc j) e = cc e
ticks-Draws (suc i) zero e = cc e
ticks-Draws (suc i) (suc j) e = ap suc (ticks-Draws i j (cc e))

abbrev recallable : StashConfig
recallable = record (cfg.stash) { recall_tool_names = "memory_search" ∷ [] }

-- Two paragraphs of which each is stashed.
stashed_run :
    row_ids (detect_and_stash_large_blocks shelf "s" recallable "one\n\ntwo" empty).shelved.rows
    ≡ "" ∷ "i" ∷ []
unfolding detect_and_stash_large_blocks inber.Stash.stash_code_blocks inber.Stash.stash_remaining
    inber.Stash.stash_paragraphs inber.Stash.stash_paragraph inber.Stash.stash_whole paragraphs
    inber.Shelf.stash_large_content can_recall_stashed_content recall_instruction
stashed_run = refl

detect_and_stash_large_blocks-Filed_example :
    Filed shelf recallable
      (detect_and_stash_large_blocks shelf "s" recallable "one\n\ntwo" empty).results
      empty
      (detect_and_stash_large_blocks shelf "s" recallable "one\n\ntwo" empty).shelved
detect_and_stash_large_blocks-Filed_example =
    detect_and_stash_large_blocks-Filed shelf "s" recallable "one\n\ntwo" empty upsert-Adds
      ticks-Draws (λ n h. refl)

apply_stashing-lost_example :
    apply_stashing shelf "s" cfg.stash (older ++ recent) empty ≡ (older ++ recent, 0, empty)
unfolding can_recall_stashed_content recall_instruction
apply_stashing-lost_example = apply_stashing-lost shelf "s" cfg.stash refl (older ++ recent) empty

paragraphs_run : paragraphs false "a\n\n\nb" ≡ "a" ∷ "\nb" ∷ []
unfolding paragraphs
paragraphs_run = refl

head_of-tail_of-IsParted_example :
    IsParted
      (1 * 4)
      (1 * 4)
      "one\ntwo three\nfour"
      (head_of (1 * 4) "one\ntwo three\nfour")
      (tail_of (1 * 4) "one\ntwo three\nfour")
head_of-tail_of-IsParted_example = head_of-tail_of-IsParted "one\ntwo three\nfour" 1 1 (omega arith)

head_tail_run :
    (head_of 4 "one\ntwo three\nfour" ≡ "one") × (tail_of 12 "one\ntwo th\nree\nfour" ≡ "ree\nfour")
unfolding head_of tail_of truncate truncate_tail before_last_newline around_first_newline
head_tail_run = (refl, refl)
