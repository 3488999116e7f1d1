-- ===== src/Chain/Gate.antt =====
-- What a block does to the world (agent/chain.go, `executeWithChain`), and what the gate is asked.
use Prim.Native.String
use inber.Prelude.{
  String, ◌≡◌, refl, sym, ap, ◌⊎◌, inl, inr, List, Option, none, some, Bool, true, false,
  Bool-cases, str_eq,
}
use inber.ChainField.{Chained, Extracted, extract_chain}
use inber.ToolOutcome.{
  ToolCallOutcome, RunResult, succeeded, errored, Tool, Report, Dispatch, Ran, not_run_with_primary,
  opening, refuse_tool_call, is_some, chain_not_run_note,
}
use inber.Chain.{
  refused, run_chain, found_chain, gated_chain, found_primary, primary_ended, gated_primary,
  deferred, run_block, execute_with_chain, stopped, is_errored,
}
use inber.Chain.Asked.{Lets, Refuses, says}

module _ {V W : Type 0} (d : Dispatch V W) where
  -- A tool of this name ran on this input, which the gate let through, and took `before` to `after`.
  abbrev pub RanTool : String → String → W → W → Type 0
  RanTool name input before after =
      (run : Tool W) × (d.tool_map name ≡ some run)
      × Lets d name input
      × (after ≡ (run input before).0)

  -- Why the primary call did not run: the gate refused it, the cache answered for it, or there is no tool of
  -- its name; the block is an error but for the cache's answer.
  abbrev pub Withheld : String → String → Option String → Bool → Type 0
  Withheld name input cached failed =
      ((reason : String) × Refuses d name input reason × (failed ≡ true))
      ⊎ (((output : String) × (cached ≡ some output) × Lets d name input × (failed ≡ false))
          ⊎ ((d.tool_map name ≡ none) × (cached ≡ none) × Lets d name input × (failed ≡ true)))

  -- The primary call: it did not run, for one of these reasons, or it ran, as nothing is cached for it, and
  -- the block is an error exactly if the tool said so.
  abbrev pub PrimaryPart : String → Option String → W → W → Bool → ToolCallOutcome → Type 0
  PrimaryPart name cached before after failed o =
      ((o.primary_ran ≡ false) × (after ≡ before) × Withheld name o.primary_input cached failed)
      ⊎ ((o.primary_ran ≡ true)
          × RanTool name o.primary_input before after
          × (cached ≡ none)
          × ((run : Tool W) × (d.tool_map name ≡ some run)
              × (failed ≡ is_errored d (run o.primary_input before).1)))

  -- Why no chained call ran: none was asked for, the primary call failed, or the chained tool is unknown or
  -- refused.
  abbrev pub Unchained : Option Chained → Bool → Type 0
  Unchained chain failed =
      (chain ≡ none)
      ⊎ ((failed ≡ true)
          ⊎ ((c : Chained) × (chain ≡ some c)
              × ((d.tool_map c.tool ≡ none)
                  ⊎ ((reason : String) × Refuses d c.tool c.input reason))))

  -- The chained call: it did not run, for one of these reasons, or the one asked for ran, after a primary
  -- call that did not fail.
  abbrev pub ChainPart : Option Chained → W → Ran W → Type 0
  ChainPart chain before ran =
      ((ran.outcome.chain_tool ≡ "") × (ran.world ≡ before) × Unchained chain ran.is_error)
      ⊎ ((ran.is_error ≡ false)
          × RanTool ran.outcome.chain_tool ran.outcome.chain_input before ran.world
          × (chain
              ≡ some (record { tool = ran.outcome.chain_tool; input = ran.outcome.chain_input })))

  abbrev pub IsCourse : String → String → Option String → Option Chained → W → W → Ran W → Type 0
  IsCourse name input cached chain before between ran =
      (ran.outcome.primary_input ≡ input)
      × PrimaryPart name cached before between ran.is_error ran.outcome
      × ChainPart chain between ran

  run_chain-IsCourse :
      (id name input : String) (o : ToolCallOutcome) (cached : Option String)
      (chain : Option Chained) (reports : List Report) (before w : W)
      → PrimaryPart name cached before w false o
      → o.chain_tool ≡ ""
      → o.primary_input ≡ input
      → IsCourse name input cached chain before w (run_chain d id o chain reports w)
  run_chain-IsCourse id name input o cached none reports before w p e i =
      (i, p, inl (e, refl, inl refl))
  run_chain-IsCourse id name input o cached (some c) reports before w p e i =
      found (d.tool_map c.tool) refl
    where
      gated :
          (run : Tool W) (reason : Option String)
          → d.tool_map c.tool ≡ some run
          → refused d c.tool c.input ≡ reason
          → IsCourse name input cached (some c) before w (gated_chain d id o c reports w run reason)
      gated run (some reason) f g = (
        i,
        p,
        inl (e, refl, inr (inr (c, refl, inr (reason, says d c.tool c.input (some reason) g)))),
      )
      gated run none f g = (i, p, inr (refl, (run, f, says d c.tool c.input none g, refl), refl))

      found :
          (tool : Option (Tool W))
          → d.tool_map c.tool ≡ tool
          → IsCourse name input cached (some c) before w (found_chain d id o c reports w tool)
      found none f = (i, p, inl (e, refl, inr (inr (c, refl, inl f))))
      found (some run) f = gated run (refused d c.tool c.input) f refl

  -- A block that stops at its primary call has no chained call.
  not_run_with_primary-IsCourse :
      (name input : String) (o : ToolCallOutcome) (cached : Option String) (chain : Option Chained)
      (reason : String) (before w : W)
      → PrimaryPart name cached before w true o
      → o.chain_tool ≡ ""
      → o.primary_input ≡ input
      → IsCourse name input cached chain before w
          (stopped d (not_run_with_primary chain reason o) w)
  not_run_with_primary-IsCourse name input o cached none reason before w p e i =
      (i, p, inl (e, refl, inl refl))
  not_run_with_primary-IsCourse name input o cached (some c) reason before w p e i =
      (i, p, inl (e, refl, inr (inl refl)))

  -- Some world lies between the two calls.
  abbrev pub HasCourse : String → String → Option String → Option Chained → W → Ran W → Type 0
  HasCourse name input cached chain before ran =
      (between : W) × IsCourse name input cached chain before between ran

  gated_primary-HasCourse :
      (id name input : String) (o : ToolCallOutcome) (chain : Option Chained) (w : W)
      (cached reason : Option String)
      → o.primary_ran ≡ false
      → o.chain_tool ≡ ""
      → o.primary_input ≡ input
      → refused d name o.primary_input ≡ reason
      → HasCourse name input cached chain w (gated_primary d id name o chain w cached reason)
  gated_primary-HasCourse id name input o chain w cached (some reason) r e i g = (
    w,
    not_run_with_primary-IsCourse name input (record o { combined = refuse_tool_call name reason })
        cached chain _ w w
        (inl (r, refl, inl (reason, says d name o.primary_input (some reason) g, refl))) e i,
  )
  gated_primary-HasCourse id name input o chain w (some output) none r e i g = (
    w,
    run_chain-IsCourse id name input (record o { primary_output = output }) (some output) chain _ w
        w (inl (r, refl, inr (inl (output, refl, says d name o.primary_input none g, refl)))) e i,
  )
  gated_primary-HasCourse id name input o chain w none none r e i g = found (d.tool_map name) refl
    where
      ended :
          (run : Tool W) (after : W × RunResult)
          → d.tool_map name ≡ some run
          → run o.primary_input w ≡ after
          → HasCourse name input none chain w (primary_ended d id name o chain after)
      ended run (after, errored reason) f a = (
        after,
        not_run_with_primary-IsCourse name input
            (record o { primary_ran = true; combined = String.◌++◌ "error: " reason }) none chain _
            w after
            (inr (
              refl,
              (run, f, says d name o.primary_input none g, sym (ap (λ r. r.0) a)),
              refl,
              (run, f, sym (ap (λ r. is_errored d r.1) a)),
            ))
            e i,
      )
      ended run (after, succeeded output) f a = (
        after,
        run_chain-IsCourse id name input (record o { primary_ran = true; primary_output = output })
            none chain _ w after
            (inr (
              refl,
              (run, f, says d name o.primary_input none g, sym (ap (λ r. r.0) a)),
              refl,
              (run, f, sym (ap (λ r. is_errored d r.1) a)),
            ))
            e i,
      )

      found :
          (tool : Option (Tool W))
          → d.tool_map name ≡ tool
          → HasCourse name input none chain w (found_primary d id name o chain w tool)
      found none f = (
        w,
        not_run_with_primary-IsCourse name input
            (record o { combined = String.◌++◌ "error: unknown tool " (d.quote name) }) none chain _
            w w (inl (r, refl, inr (inr (f, refl, says d name o.primary_input none g, refl)))) e i,
      )
      found (some run) f = ended run (run o.primary_input w) f refl

  opening_fresh :
      (clean dropped : String) (parses : Bool)
      → ((opening clean dropped parses).primary_ran ≡ false)
        × ((opening clean dropped parses).chain_tool ≡ "")
        × ((opening clean dropped parses).primary_input ≡ clean)
  opening_fresh clean dropped parses = elim (Bool-cases (str_eq dropped "")) [
    | inr e ↦ rw e (refl, refl, refl)
    | inl e ↦ elim (Bool-cases parses) [
      | inl p ↦ rw (e, p) (refl, refl, refl)
      | inr p ↦ rw (e, p) (refl, refl, refl)
    ]
  ]

  deferred-HasCourse :
      (id name input summary : String) (cached : Option String) (chain : Option Chained) (w : W)
      (ran : Ran W)
      → HasCourse name input cached chain w ran
      → HasCourse name input cached chain w (deferred d id summary ran)
  deferred-HasCourse id name input summary cached chain w ran h =
      elim (Bool-cases (str_eq summary "")) [
        | inl e ↦ elim (Bool-cases (str_eq (chain_not_run_note ran.outcome) "")) [
          | inl n ↦ rw (e, n) h
          | inr n ↦ rw (e, n) h
        ]
        | inr e ↦ elim (Bool-cases (str_eq (chain_not_run_note ran.outcome) "")) [
          | inl n ↦ rw (e, n) h
          | inr n ↦ rw (e, n) h
        ]
      ]

  run_block-HasCourse :
      (id name raw_input summary : String) (cached : Option String) (extracted : Extracted) (w : W)
      → HasCourse name extracted.clean_input cached extracted.chain w
          (run_block d id name raw_input cached extracted summary w)
  run_block-HasCourse id name raw_input summary cached extracted w =
      let parses = is_some (d.json.unmarshal raw_input) in
      let fresh = opening_fresh extracted.clean_input extracted.dropped parses in
      deferred-HasCourse id name extracted.clean_input summary cached extracted.chain w _ (
        gated_primary-HasCourse id name extracted.clean_input
          (opening extracted.clean_input extracted.dropped parses) extracted.chain w cached _
          fresh.0 fresh.1 fresh.2 (ap (refused d name) fresh.2))

  -- What `extractChain` makes of the input that the rider leaves.
  abbrev pub extracted_of : String → W → Extracted
  extracted_of raw_input w = extract_chain d.json (d.rider raw_input w).1

  -- What a block does to the world, after its rider: its primary call runs on the cleaned input, once, unless
  -- the gate refuses it, the cache answers for it or its tool is unknown; then the call that was chained runs,
  -- unless the primary call failed or the gate refuses it or its tool is unknown. The block is an error if the
  -- primary call failed, was refused or is unknown, and not otherwise; and a tool runs only under a name and on
  -- an input that the gate let through.
  pub execute_with_chain-HasCourse :
      (id name raw_input : String) (cached : Option String) (w : W)
      → HasCourse name
          (extracted_of raw_input w).clean_input
          cached
          (extracted_of raw_input w).chain
          (d.rider raw_input w).0
          (execute_with_chain d id name raw_input cached w)
  unfolding execute_with_chain
  execute_with_chain-HasCourse id name raw_input cached w =
      run_block-HasCourse id name raw_input _ cached _ _
