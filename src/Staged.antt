-- ===== src/Staged.antt =====
-- conversation/staged.go: the frozen and the staging zone of a conversation. `FrozenIdx` counts messages, so
-- it is a natural number. `ManageStaging` and `CrossZoneDedup` are not modelled.
use inber.Prelude.{
  ℕ, zero, suc, ◌+◌, ◌-◌, List, [], ◌∷◌, Bool, true, false, length, drop, leb, if◌then◌else◌,
}
use inber.Prelude.Int.{ℤ, pos, leb_ℤ, ◌+ℤ◌}
pub use inber.Repair.{ends_with_user}
use inber.Message.{Message}
use inber.Repair.{is_user}
pub mod Zones

pub record StagedConversation : Type 0 where
  pub frozen_idx : ℕ
  pub flush_interval : ℤ
  pub turns_since_flush : ℤ

abbrev pub new_staged_conversation : ℤ → StagedConversation
new_staged_conversation flush_interval = record {
  frozen_idx = 0;
  flush_interval = if leb_ℤ flush_interval (pos 0) then pos 5 else flush_interval;
  turns_since_flush = pos 0;
}

abbrev pub should_flush : StagedConversation → Bool
should_flush sc = leb_ℤ sc.flush_interval sc.turns_since_flush

unfoldable pub flush : ℕ → StagedConversation → StagedConversation
flush message_count sc = record sc { frozen_idx = message_count; turns_since_flush = pos 0 }

abbrev pub tick : StagedConversation → StagedConversation
tick sc = record sc { turns_since_flush = sc.turns_since_flush +ℤ pos 1 }

-- Subtraction that stops at zero is what the two statements of `ShiftAfterHeadDrop` do.
unfoldable pub shift_after_head_drop : ℕ → StagedConversation → StagedConversation
shift_after_head_drop dropped sc = record sc { frozen_idx = sc.frozen_idx - dropped }

unfoldable pub freeze_point : List Message → ℕ
freeze_point ms = if ends_with_user ms then length ms - 1 else length ms

unfoldable pub staging_slice : StagedConversation → List Message → List Message
staging_slice sc ms = if leb (length ms) sc.frozen_idx then [] else drop sc.frozen_idx ms
