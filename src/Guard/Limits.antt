-- ===== src/Guard/Limits.antt =====
-- The caps: `CheckLimits` and the methods that record against them (guard/guard.go).
use inber.Prelude.{
  ℕ, ◌-◌, ◌*◌, ◌/◌, ◌&&◌, ◌≤◌, ◌≡◌, refl, ◌⊎◌, inl, inr, ◌↔◌, Bool, true, false, ◌||◌, arith,
}
use inber.Prelude.Int.{ℤ, pos, ◌+ℤ◌, ◌≤ℤ◌, leb_ℤ-add, +ℤ_parts}
use inber.Guard.{
  Float64, Guard, reached, cost_reached, elapsed_seconds, check_limits, record_turn, seconds_since,
}

-- A cap in force that the total has reached.
abbrev pub Reached : ℤ → ℤ → Type 0
Reached cap total = (pos 1 ≤ℤ cap) × (cap ≤ℤ total)

reached_iff : (cap total : ℤ) → (reached cap total ≡ true) ↔ Reached cap total
reached_iff cap total = ground arith

reached-add :
    (cap total more : ℤ)
    → pos 0 ≤ℤ more
    → reached cap total ≡ true
    → reached cap (total +ℤ more) ≡ true
reached-add cap total more k h = ground (arith, leb_ℤ-add cap total more)

abbrev any_of : Bool → Bool → Bool → Bool → Bool
any_of a b c d = a || b || c || d

any_of-true :
    (a b c d : Bool) → (a ≡ true) ⊎ ((b ≡ true) ⊎ ((c ≡ true) ⊎ (d ≡ true))) → any_of a b c d ≡ true
any_of-true a b c d h = ground arith

any_of_mono :
    (a b c d a' b' c' d' : Bool)
    → (a ≡ true → a' ≡ true)
    → (b ≡ true → b' ≡ true)
    → (c ≡ true → c' ≡ true)
    → (d ≡ true → d' ≡ true)
    → any_of a b c d ≡ true
    → any_of a' b' c' d' ≡ true
any_of_mono true b c d a' b' c' d' p q r s h = any_of-true a' b' c' d' (inl (p refl))
any_of_mono false true c d a' b' c' d' p q r s h = any_of-true a' b' c' d' (inr (inl (q refl)))
any_of_mono false false true d a' b' c' d' p q r s h =
    any_of-true a' b' c' d' (inr (inr (inl (r refl))))
any_of_mono false false false d a' b' c' d' p q r s h =
    any_of-true a' b' c' d' (inr (inr (inr (s h))))

-- The disjunction, with a proposition for each test.
any_of_iff :
    {P Q R S : Type 0} (a b c d : Bool)
    → (a ≡ true) ↔ P
    → (b ≡ true) ↔ Q
    → (c ≡ true) ↔ R
    → (d ≡ true) ↔ S
    → (any_of a b c d ≡ true) ↔ ((P ⊎ Q) ⊎ (R ⊎ S))
any_of_iff {P} {Q} {R} {S} a b c d p q r s = (there a b c d p.0 q.0 r.0 s.0, back)
  where
    there :
        {P Q R S : Type 0} (a b c d : Bool)
        → (a ≡ true → P)
        → (b ≡ true → Q)
        → (c ≡ true → R)
        → (d ≡ true → S)
        → any_of a b c d ≡ true
        → (P ⊎ Q) ⊎ (R ⊎ S)
    there true b c d p q r s h = inl (inl (p refl))
    there false true c d p q r s h = inl (inr (q refl))
    there false false true d p q r s h = inr (inl (r refl))
    there false false false d p q r s h = inr (inr (s h))

    back : (P ⊎ Q) ⊎ (R ⊎ S) → any_of a b c d ≡ true
    back (inl (inl x)) = any_of-true a b c d (inl (p.1 x))
    back (inl (inr x)) = any_of-true a b c d (inr (inl (q.1 x)))
    back (inr (inl x)) = any_of-true a b c d (inr (inr (inl (r.1 x))))
    back (inr (inr x)) = any_of-true a b c d (inr (inr (inr (s.1 x))))

reached-seconds :
    (cap before : ℤ) (started now later : ℕ)
    → now ≤ later
    → reached cap (before +ℤ seconds_since started now) ≡ true
    → reached cap (before +ℤ seconds_since started later) ≡ true
reached-seconds cap before started now later t h = ground (
  arith,
  +ℤ_parts before (seconds_since started now),
  +ℤ_parts before (seconds_since started later),
)

whole_seconds : (d : ℕ) → (d / 1000000000) * 1000000000 ≤ d
whole_seconds d = omega arith

fewer_seconds : (seconds d : ℕ) → seconds * 1000000000 ≤ d → seconds ≤ d / 1000000000
fewer_seconds seconds d h = omega arith

no_later : (before cap : ℤ) (m n : ℕ) → m ≤ n → cap ≤ℤ before +ℤ pos m → cap ≤ℤ before +ℤ pos n
no_later before cap m n h k = ground (arith, +ℤ_parts before (pos m), +ℤ_parts before (pos n))

module _ {F : Type 0} (f : Float64 F) where
  check_limits_lem :
      (g : Guard F) (now : ℕ)
      → (check_limits f g now).0
        ≡ any_of
            (reached g.cfg.max_turns g.turns)
            (reached g.cfg.max_input_tokens g.input_toks)
            (cost_reached f g.cfg.max_cost g.cost)
            (reached g.cfg.max_duration (elapsed_seconds g now))
  unfolding check_limits
  check_limits_lem g now = ground arith

  -- A positive cap on dollars, and no less was spent.
  abbrev pub Spent : F → F → Type 0
  Spent cap total = (f.is_positive cap ≡ true) × (f.at_least total cap ≡ true)

  paid_iff : (cap total : F) → (cost_reached f cap total ≡ true) ↔ Spent cap total
  paid_iff cap total = both (f.is_positive cap) (f.at_least total cap)
    where
      both : (a b : Bool) → ((a && b) ≡ true) ↔ ((a ≡ true) × (b ≡ true))
      both a b = ground arith

  -- A positive cap on seconds, and so many whole seconds have passed in this run that they reach it with
  -- those of the runs before.
  abbrev pub TimeUp : ℤ → Guard F → ℕ → Type 0
  TimeUp cap g now =
      (pos 1 ≤ℤ cap)
      × ((seconds : ℕ) × (seconds * 1000000000 ≤ now - g.started_at)
          × (cap ≤ℤ g.seconds_before_this_run +ℤ pos seconds))

  timed_iff :
      (cap : ℤ) (g : Guard F) (now : ℕ)
      → (reached cap (elapsed_seconds g now) ≡ true) ↔ TimeUp cap g now
  unfolding elapsed_seconds
  timed_iff cap g now = (there, back)
    where
      there :
          reached cap (g.seconds_before_this_run +ℤ seconds_since g.started_at now) ≡ true
          → TimeUp cap g now
      there h =
          let (a, b) = (reached_iff cap _).0 h in
          (a, ((now - g.started_at) / 1000000000, whole_seconds (now - g.started_at), b))

      back :
          TimeUp cap g now
          → reached cap (g.seconds_before_this_run +ℤ seconds_since g.started_at now) ≡ true
      back (a, (seconds, passed, b)) = (reached_iff cap _).1 (
        a,
        no_later g.seconds_before_this_run cap seconds ((now - g.started_at) / 1000000000)
            (fewer_seconds seconds (now - g.started_at) passed) b,
      )

  abbrev pub OverLimit : Guard F → ℕ → Type 0
  OverLimit g now =
      (Reached g.cfg.max_turns g.turns ⊎ Reached g.cfg.max_input_tokens g.input_toks)
      ⊎ (Spent g.cfg.max_cost g.cost ⊎ TimeUp g.cfg.max_duration g now)

  -- The guard stops a session exactly when a positive cap is reached by its total: turns, input tokens,
  -- dollars, or the whole seconds of this run and of those before.
  pub check_limits_iff :
      (g : Guard F) (now : ℕ) → ((check_limits f g now).0 ≡ true) ↔ OverLimit g now
  check_limits_iff g now = rw (check_limits_lem g now) (
      any_of_iff _ _ _ _ (reached_iff g.cfg.max_turns g.turns)
        (reached_iff g.cfg.max_input_tokens g.input_toks) (paid_iff g.cfg.max_cost g.cost)
        (timed_iff g.cfg.max_duration g now))

  -- The totals only grow: once a turn, or the time, has brought the session over a limit, further
  -- turns and later times leave it over.
  pub check_limits-record_turn :
      (g : Guard F) (tokens : ℤ) (now later : ℕ)
      → pos 0 ≤ℤ tokens
      → now ≤ later
      → (check_limits f g now).0 ≡ true
      → (check_limits f (record_turn g tokens) later).0 ≡ true
  unfolding record_turn elapsed_seconds
  check_limits-record_turn g tokens now later k t h =
      rw (check_limits_lem (record_turn g tokens) later) (
        any_of_mono (reached g.cfg.max_turns g.turns) (reached g.cfg.max_input_tokens g.input_toks)
          (cost_reached f g.cfg.max_cost g.cost)
          (reached g.cfg.max_duration (elapsed_seconds g now)) _ _ _ _
          (reached-add g.cfg.max_turns g.turns (pos 1) (omega arith))
          (reached-add g.cfg.max_input_tokens g.input_toks tokens k) (λ c. c)
          (reached-seconds g.cfg.max_duration g.seconds_before_this_run g.started_at now later t)
          (rw (check_limits_lem g now) at h))
