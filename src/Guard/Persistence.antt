-- ===== src/Guard/Persistence.antt =====
-- A session that is rebuilt, and its record (guard/state.go).
use inber.Prelude.{ℕ, ◌≡◌, refl, ap, ◌∙◌, inl, inr, none, some, true, false, arith, Bool-cases}
use inber.Prelude.Int.{pos, is_zero, +ℤ-zero}
use inber.Guard.{
  Float64, new, Mode, unset, observe, assist, autonomous, mode_name, parse_mode, Guard, Config,
  State, seconds_since, elapsed_seconds, check_limits, state, restore_state, resume_state, is_blank,
  restore_guard_state, recorded_mode,
}

-- The name "" stands for `unset`; any other mode is read back.
recorded_mode-mode_name : (m : Mode) → recorded_mode (mode_name m) unset ≡ (m, none)
unfolding parse_mode
recorded_mode-mode_name unset = refl
recorded_mode-mode_name observe = refl
recorded_mode-mode_name assist = refl
recorded_mode-mode_name autonomous = refl

seconds_since_self : (now : ℕ) → seconds_since now now ≡ pos 0
seconds_since_self now = ap pos (omega arith)

-- Nothing is handed back: a guard restored from what another recorded is over a limit, at that
-- moment, exactly when the other was, and for the same reason.
pub check_limits-restore_state :
    {F : Type 0} (f : Float64 F) (g h : Guard F) (now later : ℕ)
    → check_limits f (restore_state h (state g now) later).0 later ≡ check_limits f g now
unfolding check_limits restore_state state
check_limits-restore_state f g h now later =
    rw (seconds_since_self later, +ℤ-zero (elapsed_seconds g now))

-- What a rebuild says nothing of.
pub record IsSilent {F : Type 0} (f : Float64 F) (cfg : Config F) : Type 0 where
  pub no_mode : cfg.mode ≡ unset
  pub no_turns : is_zero cfg.max_turns ≡ true
  pub no_tokens : is_zero cfg.max_input_tokens ≡ true
  pub no_cost : f.is_float_zero cfg.max_cost ≡ true
  pub no_duration : is_zero cfg.max_duration ≡ true

module _ {F : Type 0} (f : Float64 F) where
  resume_state_silent :
      (cfg : Config F) (recorded : State F) (started now : ℕ)
      → IsSilent f cfg
      → resume_state f recorded (state (new f cfg started) now) ≡ recorded
  unfolding resume_state state new
  resume_state_silent cfg recorded started now q =
      elim (Bool-cases (is_zero cfg.repetition_threshold)) [
        | inl e ↦ rw (e, q.no_mode, q.no_turns, q.no_tokens, q.no_cost, q.no_duration)
        | inr e ↦ rw (e, q.no_mode, q.no_turns, q.no_tokens, q.no_cost, q.no_duration)
      ]

  unset_of_silent :
      (cfg : Config F) (started : ℕ) → IsSilent f cfg → (new f cfg started).cfg.mode ≡ unset
  unfolding new
  unset_of_silent cfg started q = ground arith

  restore_guard_state_recorded :
      (h : Guard F) (recorded : State F) (now : ℕ)
      → is_blank f recorded ≡ false
      → restore_guard_state f h (some recorded) now
        ≡ (restore_state h (resume_state f recorded (state h now)) now).0
  unfolding restore_guard_state
  restore_guard_state_recorded h recorded now b = rw b

  -- The guard that a silent rebuild ends with.
  restored :
      (cfg : Config F) (g : Guard F) (now started later : ℕ)
      → IsSilent f cfg
      → is_blank f (state g now) ≡ false
      → restore_guard_state f (new f cfg started) (some (state g now)) later
        ≡ (restore_state (new f cfg started) (state g now) later).0
  restored cfg g now started later q b =
      restore_guard_state_recorded (new f cfg started) (state g now) later b
      ∙ ap (λ s. (restore_state (new f cfg started) s later).0)
          (resume_state_silent cfg (state g now) started later q)

  restored_mode :
      (h g : Guard F) (now later : ℕ)
      → h.cfg.mode ≡ unset
      → (restore_state h (state g now) later).0.cfg.mode ≡ g.cfg.mode
  unfolding restore_state state
  restored_mode h g now later u = rw u (ap (λ p. p.0) (recorded_mode-mode_name g.cfg.mode))

  -- A session that is rebuilt by a request which names no mode and no cap comes back under the
  -- mode, the caps and the totals of its record: it is over a limit exactly when it was before.
  pub restore_guard_state_silent :
      (cfg : Config F) (g : Guard F) (now started later : ℕ)
      → IsSilent f cfg
      → is_blank f (state g now) ≡ false
      → let h = restore_guard_state f (new f cfg started) (some (state g now)) later in
        (check_limits f h later ≡ check_limits f g now)
        × (h.cfg.mode ≡ g.cfg.mode)
        × (h.turns ≡ g.turns)
        × (h.input_toks ≡ g.input_toks)
        × (h.cost ≡ g.cost)
  unfolding restore_state state
  restore_guard_state_silent cfg g now started later q b =
      rw (restored cfg g now started later q b) (
        check_limits-restore_state f g (new f cfg started) now later,
        restored_mode (new f cfg started) g now later (unset_of_silent cfg started q),
        refl,
        refl,
        refl,
      )
