-- ===== src/Sideband/Riders.antt =====
-- What the fields do to the world and to the summary (agent/sideband.go, `processSideband`).
use inber.Prelude.{
  sym, subst, ℕ, ◌≢◌, ◌++◌, false, ◌+◌, String, ◌≡◌, refl, ◌∙◌, ◌⊎◌, inl, inr, List, [], ◌∷◌,
  Option, none, some, length, map, str_eq, eq_iff, Bool-cases, arith, length-append, length-map,
}
use inber.Prelude.Int.{ℤ}
use inber.Sideband.{
  NoteData, SplitData, with_arg, done_riders, note_riders, split_riders, sideband_gate_name,
  Sideband, SidebandData, Callback, Rider, reason_against, told, applied, ride, riders_of, ride_all,
  process_parts, bracketed,
}

module _ {W : Type 0} (sideband : Sideband W) where
  -- Under this name the gate says something against this, and says nothing.
  abbrev pub Refused : String → String → Type 0
  Refused name payload =
      (gate : String → String → String) × (sideband.refusal ≡ some gate) × (gate name payload ≢ "")

  abbrev pub Allowed : String → String → Type 0
  Allowed name payload =
      (sideband.refusal ≡ none)
      ⊎ ((gate : String → String → String) × (sideband.refusal ≡ some gate)
          × (gate name payload ≡ ""))

  -- A field that was written took `before` to `after`: it did nothing, as the gate refused it or nothing
  -- carries it out, or the gate allowed it and its callback was run.
  abbrev pub Written : String → String → Option (Callback W) → W → W → Type 0
  Written name payload apply before after =
      ((after ≡ before) × (Refused name payload ⊎ (apply ≡ none)))
      ⊎ ((callback : Callback W) × (apply ≡ some callback)
          × Allowed name payload
          × (after ≡ (callback before).0))

  -- The three fields, as they stand in a call.
  abbrev pub DonePart : List ℤ → W → W → Type 0
  DonePart [] before after = after ≡ before
  DonePart (i ∷ is) before after =
      Written "sideband:done" (sideband.payload_of_done (i ∷ is))
        (with_arg sideband sideband.complete_tasks (i ∷ is)) before after

  abbrev pub NotePart : Option NoteData → W → W → Type 0
  NotePart none before after = after ≡ before
  NotePart (some note) before after =
      Written "sideband:note" (sideband.payload_of_note note)
        (with_arg sideband sideband.save_note note) before after

  abbrev pub SplitPart : Option SplitData → W → W → Type 0
  SplitPart none before after = after ≡ before
  SplitPart (some split) before after =
      Written "sideband:split" (sideband.payload_of_split split)
        (with_arg sideband sideband.split_task split) before after

  -- First the tasks that are done, then the note, then the split.
  abbrev pub InOrder : SidebandData → W → W → Type 0
  InOrder sb before after =
      (noting splitting : W) × DonePart sb.done before noting
      × NotePart sb.note noting splitting
      × SplitPart sb.split splitting after

  -- How many fields were written, ignored ones included.
  abbrev pub written : SidebandData → ℕ
  written sb = length sb.ignored + (any_done sb.done + (one_note sb.note + one_split sb.split))
    where
      any_done : List ℤ → ℕ
      any_done [] = 0
      any_done (i ∷ is) = 1

      one_note : Option NoteData → ℕ
      one_note none = 0
      one_note (some note) = 1

      one_split : Option SplitData → ℕ
      one_split none = 0
      one_split (some split) = 1

  abbrev IsRide : Rider W → W → W → Type 0
  IsRide r before after = Written (sideband_gate_name r.field) r.payload r.apply before after

  -- From world to world, field by field.
  abbrev AreRides : List (Rider W) → W → W → Type 0
  AreRides [] before after = after ≡ before
  AreRides (r ∷ rs) before after =
      (between : W) × IsRide r before between × AreRides rs between after

  told_one :
      (r : Rider W) (out : W × Option String)
      → ((told sideband r out).0 ≡ out.0) × (length (told sideband r out).1 ≡ 1)
  told_one r (w, none) = (refl, refl)
  told_one r (w, some e) = (refl, refl)

  allowed :
      (field payload : String)
      → reason_against sideband field payload ≡ ""
      → Allowed (sideband_gate_name field) payload
  allowed field payload = asked sideband.refusal refl
    where
      asked :
          (gate : Option (String → String → String))
          → sideband.refusal ≡ gate
          → ◌≡◌ {A = String}
              (elim gate [ none ↦ "" | some g ↦ g (sideband_gate_name field) payload ])
              ""
          → Allowed (sideband_gate_name field) payload
      asked none e h = inl e
      asked (some g) e h = inr (g, e, h)

  against :
      (field payload : String)
      → str_eq (reason_against sideband field payload) "" ≡ false
      → Refused (sideband_gate_name field) payload
  against field payload = asked sideband.refusal refl
    where
      asked :
          (gate : Option (String → String → String))
          → sideband.refusal ≡ gate
          → str_eq (elim gate [ none ↦ "" | some g ↦ g (sideband_gate_name field) payload ]) ""
            ≡ false
          → Refused (sideband_gate_name field) payload
      asked none e h = cc h
      asked (some g) e h =
          (g, e, λ empty. cc ((eq_iff (g (sideband_gate_name field) payload) "").1 empty, h))

  ride-IsRide :
      (r : Rider W) (w : W) → IsRide r w (ride sideband r w).0 × (length (ride sideband r w).1 ≡ 1)
  unfolding ride
  ride-IsRide r w = elim (Bool-cases (str_eq (reason_against sideband r.field r.payload) "")) [
    | inr e ↦ rw e (inl (refl, inl (against r.field r.payload e)), refl)
    | inl e ↦
        rw e (carried r.apply refl ((eq_iff (reason_against sideband r.field r.payload) "").0 e))
  ]
    where
      carried :
          (callback : Option (Callback W))
          → r.apply ≡ callback
          → reason_against sideband r.field r.payload ≡ ""
          → IsRide r w (applied sideband r callback w).0
            × (length (applied sideband r callback w).1 ≡ 1)
      carried none a g = (inl (refl, inr a), refl)
      carried (some callback) a g =
          let one = told_one r (callback w) in
          (inr (callback, a, allowed r.field r.payload g, one.0), one.1)

  ride_all-AreRides :
      (rs : List (Rider W)) (w : W)
      → AreRides rs w (ride_all sideband rs w).0 × (length (ride_all sideband rs w).1 ≡ length rs)
  unfolding ride_all
  ride_all-AreRides [] w = (refl, refl)
  ride_all-AreRides (r ∷ rs) w =
      let first = ride-IsRide r w in
      let rest = ride_all-AreRides rs (ride sideband r w).0 in
      ((_, first.0, rest.0), length-append (ride sideband r w).1 _ ∙ omega (arith, first.1, rest.1))

  -- The rides, one for each field that was written, are the parts in order.
  split_order :
      (split : Option SplitData) (before after : W)
      → AreRides (split_riders sideband split) before after
      → SplitPart split before after
  split_order none before after h = h
  split_order (some split) before after (between, ride, e) =
      subst (λ w. SplitPart (some split) before w) (sym e) ride

  note_order :
      (note : Option NoteData) (split : Option SplitData) (before after : W)
      → AreRides (note_riders sideband note ++ split_riders sideband split) before after
      → (between : W) × NotePart note before between × SplitPart split between after
  note_order none split before after h = (before, refl, split_order split before after h)
  note_order (some note) split before after (between, ride, rest) =
      (between, ride, split_order split between after rest)

  in_order :
      (sb : SidebandData) (before after : W)
      → AreRides (riders_of sideband sb) before after
      → InOrder sb before after
  in_order sb before after = started sb.done
    where
      started :
          (done : List ℤ)
          → AreRides
              (done_riders sideband done
                ++ note_riders sideband sb.note
                ++ split_riders sideband sb.split)
              before
              after
          → (noting splitting : W) × DonePart done before noting
            × NotePart sb.note noting splitting
            × SplitPart sb.split splitting after
      started [] h =
          let (between, note, split) = note_order sb.note sb.split before after h in
          (before, between, refl, note, split)
      started (i ∷ is) (noting, ride, rest) =
          let (between, note, split) = note_order sb.note sb.split noting after rest in
          (noting, between, ride, note, split)

  riders_written :
      (sb : SidebandData) → length sb.ignored + length (riders_of sideband sb) ≡ written sb
  riders_written sb = counted sb.done sb.note sb.split
    where
      counted :
          (done : List ℤ) (note : Option NoteData) (split : Option SplitData)
          → length sb.ignored
              + length (riders_of sideband (record sb { done = done; note = note; split = split }))
            ≡ written (record sb { done = done; note = note; split = split })
      counted [] none none = omega arith
      counted [] none (some s) = omega arith
      counted [] (some n) none = omega arith
      counted [] (some n) (some s) = omega arith
      counted (i ∷ is) none none = omega arith
      counted (i ∷ is) none (some s) = omega arith
      counted (i ∷ is) (some n) none = omega arith
      counted (i ∷ is) (some n) (some s) = omega arith

  -- Of the fields of a tool call the tasks that are done come first, then the note, then the split. Each that
  -- was written is put to the gate under its own name and with what it says; it changes the world by its
  -- callback if the gate allows it and there is one, and not at all otherwise. And each field that was written,
  -- ignored ones included, has one part in the summary.
  pub process_parts-InOrder :
      (sb : SidebandData) (w : W)
      → InOrder sb w (process_parts sideband sb w).0
        × (length (process_parts sideband sb w).1 ≡ written sb)
  unfolding process_parts
  process_parts-InOrder sb w =
      let all = ride_all-AreRides (riders_of sideband sb) w in
      (
        in_order sb w _ all.0,
        length-append (map bracketed sb.ignored) _
            ∙ omega (arith, length-map bracketed sb.ignored, all.1, riders_written sb),
      )
