-- ===== src/Samples/Summaries.antt =====
-- A conversation whose older turns are exchanged for a summary.
use inber.Prelude.{◌≡◌, refl, [], ◌∷◌, none, some, true}
use inber.Prelude.Int.{pos}
use inber.Repair.Answered.{Answered}
use inber.Turns.{find_turn_boundary}
use inber.Summary.{Services, reply, reply_text, reply_other, decimal}
use inber.Summarize.{SummarizeConfig, summarize_conversation}
use inber.Summarize.Exchange.{
  AllOrNothing, summarize_conversation-Answered, summarize_conversation-AllOrNothing,
}
use inber.Summarize.Archive.{IsFiled, summarize_conversation-IsFiled}
use inber.Samples.Splits.{turns}

-- Answers each request with two texts.
abbrev services : Services
services = record {
  context_error = none;
  messages_new = λ request. reply (record {
    stop_reason = "max_tokens";
    content = reply_text "short" ∷ reply_other ∷ reply_text "and sweet" ∷ [];
  });
  mem_store = some (λ row. none);
  new_id = "0a1b2c3d";
  estimate_tokens = λ s. 7;
}

abbrev config : SummarizeConfig
config = record {
  trigger_messages = pos 4;
  keep_recent_turns = pos 1;
  model = "";
  max_summary_tokens = pos 800;
  save_to_memory = true;
  archive_is_recallable = true;
}

decimal_run : decimal 1024 ≡ "1024"
unfolding decimal
decimal_run = refl

turns-Answered : Answered turns
turns-Answered = (tt, (tt, (tt, ((refl, tt), (tt, (tt, (tt, tt)))))))

summarize_conversation-Answered_example :
    Answered (summarize_conversation services turns "s" config "m").messages
summarize_conversation-Answered_example =
    summarize_conversation-Answered services turns "s" config "m" turns-Answered

summarize_conversation-AllOrNothing_example :
    AllOrNothing turns
      (find_turn_boundary turns (pos 1))
      (summarize_conversation services turns "s" config "m")
summarize_conversation-AllOrNothing_example =
    summarize_conversation-AllOrNothing services turns "s" config "m"

summarize_conversation-IsFiled_example :
    IsFiled turns
      (find_turn_boundary turns (pos 1))
      (summarize_conversation services turns "s" config "m")
summarize_conversation-IsFiled_example =
    summarize_conversation-IsFiled services turns "s" config "m"
