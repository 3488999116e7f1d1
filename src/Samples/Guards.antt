-- ===== src/Samples/Guards.antt =====
-- Guards of concrete sessions. Dollars are whole cents here.
use inber.Prelude.{ℕ, ◌+◌, String, ◌≡◌, refl, ◌↔◌, none, some, true, leb, ltb, ◌==◌, arith}
use inber.Prelude.Int.{pos, ◌+ℤ◌}
use inber.Guard.{
  Float64, unset, observe, allowed, check_mode, is_read_only, Config, Guard, new, record_turn,
  record_cost, check_limits, state, restore_guard_state, elapsed_seconds,
}
use inber.Guard.Limits.{OverLimit, check_limits_iff, check_limits-record_turn}
use inber.Guard.Persistence.{restore_guard_state_silent}

abbrev cents : Float64 ℕ
cents = record {
  float_zero = 0;
  add = ◌+◌;
  is_positive = λ c. ltb 0 c;
  at_least = λ a b. leb b a;
  is_float_zero = λ c. c == 0;
}

abbrev silent : Config ℕ
silent = record {
  mode = unset;
  max_turns = pos 0;
  max_input_tokens = pos 0;
  max_cost = 0;
  max_duration = pos 0;
  repetition_threshold = pos 0;
  approval_func = none;
}

abbrev capped : Config ℕ
capped = record silent { mode = observe; max_turns = pos 9; max_cost = 500 }

-- $5.01 spent in one turn.
abbrev spent : Guard ℕ
spent = record_cost cents (record_turn (new cents capped 0) (pos 1000)) 501

spent_stops : check_limits cents spent 0 ≡ (true, "max cost exceeded")
unfolding check_limits record_cost record_turn new ◌+ℤ◌
spent_stops = refl

ripgrep_observed : check_mode observe none "ripgrep" "{}" ≡ allowed
unfolding check_mode is_read_only
ripgrep_observed = refl

check_limits_iff_example : ((check_limits cents spent 7).0 ≡ true) ↔ OverLimit cents spent 7
check_limits_iff_example = check_limits_iff cents spent 7

check_limits-record_turn_example : (check_limits cents (record_turn spent (pos 3)) 9).0 ≡ true
unfolding check_limits record_cost record_turn new ◌+ℤ◌
check_limits-record_turn_example =
    check_limits-record_turn cents spent (pos 3) 0 9 (omega arith) (omega arith) refl

restore_guard_state_silent_example :
    (restore_guard_state cents (new cents silent 5) (some (state spent 3)) 8).cfg.mode
    ≡ spent.cfg.mode
unfolding state record_cost record_turn new ◌+ℤ◌ elapsed_seconds
restore_guard_state_silent_example =
    (restore_guard_state_silent cents silent spent 3 5 8
      (record {
        no_mode = refl;
        no_turns = refl;
        no_tokens = refl;
        no_cost = refl;
        no_duration = refl;
      })
      refl).1

abbrev ls : String × String
ls = ("list_files", "{}")
