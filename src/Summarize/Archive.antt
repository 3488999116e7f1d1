-- ===== src/Summarize/Archive.antt =====
-- The archive of the turns that a summary replaces (conversation/summarize.go).
use inber.Prelude.{
  ℕ, ◌≡◌, refl, ◌⊎◌, inl, inr, String, List, [], ◌∷◌, Option, none, some, true, false, take,
  Bool-cases,
}
use inber.Message.{Message}
use inber.Turns.{find_turn_boundary, count_turns}
use inber.Transcript.{messages_to_text}
use inber.Summary.{Services, Memory}
use inber.Summarize.{
  SummarizeConfig, Outcome, archive_row, save_archive, offer, stored, complete,
  summarize_conversation,
}
use inber.Summarize.Exchange.{Ending, idle, refused, done, summarize_conversation-Ending}

-- Nothing was stored and the result names no row; or the store took one row, which holds the transcript of
-- the messages in front of `k`, and the result, of a finished exchange, names it.
abbrev pub IsFiled : List Message → ℕ → Outcome → Type 0
IsFiled ms k out =
    ((out.saved ≡ []) × (out.result.memory_saved ≡ false) × (out.result.memory_id ≡ ""))
    ⊎ ((row : Memory) × (out.saved ≡ row ∷ [])
        × (row.content ≡ messages_to_text (take k ms))
        × (out.result.memory_saved ≡ true)
        × (out.result.memory_id ≡ row.id)
        × (out.result.summarized ≡ true)
        × (out.result.summarized_turns ≡ count_turns (take k ms)))

save_archive_cases :
    (services : Services) (cfg : SummarizeConfig) (row : Memory)
    → (save_archive services cfg row ≡ []) ⊎ (save_archive services cfg row ≡ row ∷ [])
unfolding save_archive
save_archive_cases services cfg row = offered services.mem_store
  where
    answered : (error : Option String) → (stored row error ≡ []) ⊎ (stored row error ≡ row ∷ [])
    answered none = inr refl
    answered (some e) = inl refl

    offered :
        (mem_store : Option (Memory → Option String))
        → (offer mem_store cfg row ≡ []) ⊎ (offer mem_store cfg row ≡ row ∷ [])
    offered none = inl refl
    offered (some save) = elim (Bool-cases cfg.save_to_memory) [
      | inl e ↦ rw e (answered (save row))
      | inr e ↦ rw e (inl refl)
    ]

-- If a compaction stores anything it is one row, in an exchange that succeeds, and the result then names that
-- row and counts the turns; the row holds the transcript of the messages that are taken away, as the
-- summarizing model reads it, with tool results cut and inputs and thinking left out. Otherwise the result
-- names no row.
pub summarize_conversation-IsFiled :
    (services : Services) (ms : List Message) (session_id : String) (cfg : SummarizeConfig)
    (model : String)
    → IsFiled ms
        (find_turn_boundary ms cfg.keep_recent_turns)
        (summarize_conversation services ms session_id cfg model)
unfolding complete
summarize_conversation-IsFiled services ms session_id cfg model =
    ending (summarize_conversation-Ending services ms session_id cfg model)
  where
    ending : {k : ℕ} {out : Outcome} → Ending services ms k session_id cfg out → IsFiled ms k out
    ending idle = inl (refl, refl, refl)
    ending (refused turns e) = inl (refl, refl, refl)
    ending {k = k} (done summary cut_off) =
        elim (save_archive_cases services cfg (
          archive_row services session_id (count_turns (take k ms))
            (messages_to_text (take k ms)))) [
              | inl e ↦ inl (e, rw e refl, rw e refl)
              | inr e ↦ inr (_, e, refl, rw e refl, rw e refl, rw e refl, rw e refl)
            ]
