-- ===== src/Samples/Stages.antt =====
-- A staged conversation whose head is dropped, and one that is flushed.
use inber.Prelude.{◌≡◌, refl}
use inber.Prelude.Int.{pos}
use inber.Staged.{StagedConversation, new_staged_conversation, freeze_point}
use inber.Samples.Splits.{turns}

abbrev staged : StagedConversation
staged = record (new_staged_conversation (pos 0)) { frozen_idx = 4 }

freeze_run : freeze_point turns ≡ 6
unfolding freeze_point
freeze_run = refl
