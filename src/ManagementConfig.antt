-- ===== src/ManagementConfig.antt =====
-- conversation/manage_config.go: how old content may get before it is pruned, per role. The two
-- importances, which only the memory store reads, are left out.
use inber.Prelude.{ℕ, String, List, [], Bool, true, ◌||◌, if◌then◌else◌}
use inber.Prelude.Int.{ℤ, pos}
use inber.Texts.{lower_contains}

pub record StashConfig : Type 0 where
  pub enabled : Bool
  pub user_message_threshold : ℤ
  pub assistant_threshold : ℤ
  pub min_block_size : ℤ
  pub recall_tool_names : List String

pub record ManagementConfig : Type 0 where
  pub role : String
  pub keep_recent_turns : ℤ
  pub assistant_truncate_after : ℤ
  pub tool_result_keep_full : ℤ
  pub tool_result_summary : ℤ
  pub tool_result_drop : ℤ
  pub tool_call_keep_full : ℤ
  pub auto_save_threshold : ℤ
  pub aggressive_truncation : Bool
  pub memory_save_threshold : ℤ
  pub token_budget : ℤ
  pub manage_interval : ℤ
  pub stash : StashConfig

abbrev stash_from : ℕ → ℕ → ℕ → StashConfig
stash_from user assistant block = record {
  enabled = true;
  user_message_threshold = pos user;
  assistant_threshold = pos assistant;
  min_block_size = pos block;
  recall_tool_names = [];
}

unfoldable pub orchestrator_management_config : ManagementConfig
orchestrator_management_config = record {
  role = "orchestrator";
  keep_recent_turns = pos 40;
  assistant_truncate_after = pos 8;
  tool_result_keep_full = pos 3;
  tool_result_summary = pos 8;
  tool_result_drop = pos 8;
  tool_call_keep_full = pos 5;
  auto_save_threshold = pos 500;
  aggressive_truncation = true;
  memory_save_threshold = pos 10;
  token_budget = pos 50000;
  manage_interval = pos 3;
  stash = stash_from 1000 1500 1000;
}

unfoldable pub coder_management_config : ManagementConfig
coder_management_config = record {
  role = "coder";
  keep_recent_turns = pos 20;
  assistant_truncate_after = pos 15;
  tool_result_keep_full = pos 10;
  tool_result_summary = pos 20;
  tool_result_drop = pos 20;
  tool_call_keep_full = pos 5;
  auto_save_threshold = pos 1000;
  aggressive_truncation = true;
  memory_save_threshold = pos 10;
  token_budget = pos 50000;
  manage_interval = pos 5;
  stash = stash_from 800 1200 800;
}

unfoldable pub tester_management_config : ManagementConfig
tester_management_config = record {
  role = "tester";
  keep_recent_turns = pos 20;
  assistant_truncate_after = pos 10;
  tool_result_keep_full = pos 15;
  tool_result_summary = pos 25;
  tool_result_drop = pos 25;
  tool_call_keep_full = pos 5;
  auto_save_threshold = pos 1000;
  aggressive_truncation = true;
  memory_save_threshold = pos 10;
  token_budget = pos 50000;
  manage_interval = pos 5;
  stash = stash_from 1000 1500 1000;
}

unfoldable pub default_management_config : ManagementConfig
default_management_config = record {
  role = "default";
  keep_recent_turns = pos 35;
  assistant_truncate_after = pos 10;
  tool_result_keep_full = pos 3;
  tool_result_summary = pos 10;
  tool_result_drop = pos 10;
  tool_call_keep_full = pos 5;
  auto_save_threshold = pos 500;
  aggressive_truncation = true;
  memory_save_threshold = pos 10;
  token_budget = pos 50000;
  manage_interval = pos 5;
  stash = stash_from 1000 1500 1000;
}

unfoldable pub management_config_for_role : String → ManagementConfig
unfolding orchestrator_management_config coder_management_config tester_management_config
    default_management_config
management_config_for_role role =
    if lower_contains "orchestrat" role
      || lower_contains "coordinat" role
      || lower_contains "dispatch" role
      || lower_contains "delegat" role
    then orchestrator_management_config
    else if lower_contains "code" role
        || lower_contains "implement" role
        || lower_contains "scholar" role
        || lower_contains "develop" role
    then coder_management_config
    else if lower_contains "test" role
        || lower_contains "validat" role
        || lower_contains "sentinel" role
    then tester_management_config
    else default_management_config
