-- ===== src/Summarize/Exchange.antt =====
-- A conversation before and after a compaction (conversation/summarize.go).
use inber.Prelude.{
  ℕ, zero, suc, ◌≡◌, refl, ap, ◌∙◌, ◌⊎◌, inl, inr, String, List, [], ◌∷◌, none, some, Bool, true,
  false, length, drop, Bool-cases,
}
use inber.Prelude.Int.{pos, leb_ℤ}
use inber.Message.{Message, Block, Role, user, assistant}
use inber.Repair.{is_user, is_assistant}
use inber.Repair.Answered.{Answered}
use inber.Repair.Alternation.{
  Alternates, repair_alternation-Alternates, repair_alternation-Answered, assistant_messages,
  assistant_messages-repair_alternation,
}
use inber.Turns.{
  find_turn_boundary, strip_orphaned_tool_results, strip_within, keep_blocks, cleaned,
  collect_tool_use_ids,
}
use inber.Turns.Orphans.{strip_orphaned_tool_results-Answered}
use inber.Turns.Alternation.{fix_alternation-eq-repair_alternation}
use inber.Summary.{Services, Memory, Generated, written, failed}
use inber.Summarize.{
  SummarizeConfig, Outcome, SummarizeResult, with_saved, complete, nothing_done, untouched,
  conclude, summarize_from, summarize_conversation, exchange, acknowledgment,
}

-- The three ways a call ends, `k` being the place of the split: nothing to do, no summary, and the
-- exchange.
pub data Ending (services : Services) (ms : List Message) (k : ℕ) (session_id : String)
    (cfg : SummarizeConfig) : Outcome → Type 0 where
  idle : Ending services ms k session_id cfg (nothing_done ms)
  refused :
      (turns : ℕ) (e : String)
      → Ending services ms k session_id cfg (record (nothing_done ms) {
        result = record (untouched ms) { summarized_turns = turns };
        error = some e;
      })
  done :
      (summary : String) (cut_off : Bool)
      → Ending services ms k session_id cfg (complete services ms k session_id cfg summary cut_off)

conclude-Ending :
    (services : Services) (ms : List Message) (k : ℕ) (session_id : String) (cfg : SummarizeConfig)
    (answer : Generated)
    → Ending services ms k session_id cfg (conclude services ms k session_id cfg answer)
unfolding conclude
conclude-Ending services ms k session_id cfg (failed e) = refused _ _
conclude-Ending services ms k session_id cfg (written summary cut_off) = done summary cut_off

summarize_from-Ending :
    (services : Services) (ms : List Message) (session_id : String) (cfg : SummarizeConfig)
    (model : String) (k : ℕ)
    → Ending services ms k session_id cfg (summarize_from services ms session_id cfg model k)
unfolding summarize_from
summarize_from-Ending services ms session_id cfg model zero = idle
summarize_from-Ending services ms session_id cfg model (suc k) =
    conclude-Ending services ms (suc k) session_id cfg _

pub summarize_conversation-Ending :
    (services : Services) (ms : List Message) (session_id : String) (cfg : SummarizeConfig)
    (model : String)
    → Ending services ms
        (find_turn_boundary ms cfg.keep_recent_turns)
        session_id
        cfg
        (summarize_conversation services ms session_id cfg model)
unfolding summarize_conversation
summarize_conversation-Ending services ms session_id cfg model =
    elim (Bool-cases (leb_ℤ (pos (length ms)) cfg.trigger_messages)) [
      | inl e ↦ rw e idle
      | inr e ↦ rw e (
          summarize_from-Ending services ms session_id cfg model
            (find_turn_boundary ms cfg.keep_recent_turns))
    ]

drop-Answered : (k : ℕ) (ms : List Message) → Answered ms → Answered (drop k ms)
drop-Answered zero ms h = h
drop-Answered (suc k) [] h = tt
drop-Answered (suc k) (m ∷ ms) (c, h) = drop-Answered k ms h

exchange-Answered :
    (block : String) (recent : List Message) → Answered recent → Answered (exchange block recent)
unfolding exchange
exchange-Answered block recent h =
    rw fix_alternation-eq-repair_alternation
      (repair_alternation-Answered _ (tt, (tt, strip_orphaned_tool_results-Answered recent h)))

exchange-Alternates : (block : String) (recent : List Message) → Alternates (exchange block recent)
unfolding exchange
exchange-Alternates block recent =
    rw fix_alternation-eq-repair_alternation (repair_alternation-Alternates _)

assistant_messages-cleaned :
    (m : Message) (bs : List Block) (rest : List Message)
    → is_assistant m ≡ false
    → assistant_messages (cleaned m bs rest) ≡ assistant_messages rest
assistant_messages-cleaned m [] rest a = refl
assistant_messages-cleaned m (b ∷ bs) rest a = rw a

role_cases :
    (m : Message)
    → ((is_user m ≡ true) × (is_assistant m ≡ false))
      ⊎ ((is_user m ≡ false) × (is_assistant m ≡ true))
role_cases m = of_role m.role
  where
    of_role :
        (r : Role)
        → ((elim r [ user ↦ true | assistant ↦ false ] ≡ true)
            × (elim r [ user ↦ false | assistant ↦ true ] ≡ false))
          ⊎ ((elim r [ user ↦ true | assistant ↦ false ] ≡ false)
              × (elim r [ user ↦ false | assistant ↦ true ] ≡ true))
    of_role user = inl (refl, refl)
    of_role assistant = inr (refl, refl)

assistant_messages-strip_within :
    (existing : List String) (ms : List Message)
    → assistant_messages (strip_within existing ms) ≡ assistant_messages ms
unfolding strip_within
assistant_messages-strip_within existing [] = refl
assistant_messages-strip_within existing (m ∷ ms) = elim (role_cases m) [
  | inl (u, a) ↦
      rw (u, a)
        (assistant_messages-cleaned m (keep_blocks existing m.content) (strip_within existing ms) a
          ∙ assistant_messages-strip_within existing ms)
  | inr (u, a) ↦ rw (u, a, assistant_messages-strip_within existing ms)
]

assistant_messages-exchange :
    (block : String) (recent : List Message)
    → assistant_messages (exchange block recent) ≡ acknowledgment ∷ assistant_messages recent
unfolding exchange strip_orphaned_tool_results
assistant_messages-exchange block recent =
    ap assistant_messages (fix_alternation-eq-repair_alternation _)
    ∙ assistant_messages-repair_alternation _
    ∙ ap (λ rest. acknowledgment ∷ rest)
        (assistant_messages-strip_within (collect_tool_use_ids recent) recent)

-- Compaction keeps tool calls answered by the next message, whatever the model and the store answer.
pub summarize_conversation-Answered :
    (services : Services) (ms : List Message) (session_id : String) (cfg : SummarizeConfig)
    (model : String)
    → Answered ms
    → Answered (summarize_conversation services ms session_id cfg model).messages
unfolding complete
summarize_conversation-Answered services ms session_id cfg model h =
    ending (summarize_conversation-Ending services ms session_id cfg model)
  where
    ending :
        {k : ℕ} {out : Outcome} → Ending services ms k session_id cfg out → Answered out.messages
    ending idle = h
    ending (refused turns e) = h
    ending {k = k} (done summary cut_off) = exchange-Answered _ (drop k ms) (drop-Answered k ms h)

-- Nothing changed, or the older turns, those in front of `k`, were exchanged.
abbrev pub AllOrNothing : List Message → ℕ → Outcome → Type 0
AllOrNothing ms k out =
    ((out.messages ≡ ms)
      × (out.saved ≡ [])
      × (out.result.summarized ≡ false)
      × (out.result.kept_messages ≡ length out.messages))
    ⊎ ((out.error ≡ none)
        × (out.result.summarized ≡ true)
        × (out.result.kept_messages ≡ length out.messages)
        × Alternates out.messages
        × (assistant_messages out.messages ≡ acknowledgment ∷ assistant_messages (drop k ms)))

-- Either nothing changes: the messages are those given, nothing is stored and the result says so; or
-- the older turns are exchanged, no error is returned, roles alternate, and the messages of the
-- assistant are the acknowledgment and, unchanged, those behind the split. The result counts the
-- messages that are returned.
pub summarize_conversation-AllOrNothing :
    (services : Services) (ms : List Message) (session_id : String) (cfg : SummarizeConfig)
    (model : String)
    → AllOrNothing ms
        (find_turn_boundary ms cfg.keep_recent_turns)
        (summarize_conversation services ms session_id cfg model)
unfolding complete
summarize_conversation-AllOrNothing services ms session_id cfg model =
    ending (summarize_conversation-Ending services ms session_id cfg model)
  where
    marked :
        (rows : List Memory) (result : SummarizeResult)
        → (with_saved rows result).summarized ≡ result.summarized
    marked [] result = refl
    marked (row ∷ rows) result = refl

    ending :
        {k : ℕ} {out : Outcome} → Ending services ms k session_id cfg out → AllOrNothing ms k out
    ending idle = inl (refl, refl, refl, refl)
    ending (refused turns e) = inl (refl, refl, refl, refl)
    ending {k = k} (done summary cut_off) = inr (
      refl,
      marked _ _,
      refl,
      exchange-Alternates _ (drop k ms),
      assistant_messages-exchange _ (drop k ms),
    )
