-- ===== src/RequestLoop/Bounded.antt =====
-- agent/agent.go, `Run`: a turn comes to an end.
use inber.Prelude.{
  ℕ, zero, suc, ◌+◌, ◌*◌, ◌≤◌, String, List, Option, none, some, Bool, true, false, ◌||◌, ◌&&◌, not,
  ◌≡◌, refl, sym, subst, ◌∙◌, inl, inr, arith, Bool-cases, Option-cases, ltb, str_eq, ◌/◌,
}
use inber.Prelude.Int.{ℤ}
use inber.Message.{Message}
use inber.Execution.{Agent}
use inber.ApiError.{is_context_length_error}
use inber.TurnParts.{
  max_api_calls_per_turn, Response, Completion, completed, broken, Surroundings, Turn, Course,
  again, finished, stopped, prune_did_something, delivered_text, ends_with_user,
}
use inber.RequestLoop.{
  stop_for_canceled_turn, stop_for_api_call_cap, inject, limited, check_between, add_volatile,
  guards_context, adopted, make_room, build_request, with_call, keep_partial, retried,
  retry_on_length, convertible, execute_api_call, keep_delivered, run_tools, after_response,
  answered_by, received, call_api, round, go_on, loop, run, request_of,
}

abbrev pub HasEnded : {S W : Type 0} → Course S W → Type 0
HasEnded (again t) = ⊥
HasEnded (finished t) = Unit {0}
HasEnded (stopped t e) = Unit {0}

-- The turn as a round leaves it.
abbrev pub turn_of : {S W : Type 0} → Course S W → Turn S W
turn_of (again t) = t
turn_of (finished t) = t
turn_of (stopped t e) = t

module _ {V S W : Type 0} (env : Surroundings S) (a : Agent V W) (has_tools : Bool) where
  requests-limited :
      (t : Turn S W) (answer : S × Option String)
      → (limited env a has_tools t answer).0.requests ≡ t.requests
  requests-limited t (state, none) = refl
  requests-limited t (state, some reason) = refl

  requests-check_between :
      (n : ℕ) (t : Turn S W) → (check_between env a has_tools n t).0.requests ≡ t.requests
  unfolding check_between inject
  requests-check_between n t = elim (Bool-cases (ltb 1 n)) [
    | inl later ↦ rw later (requests-limited (inject env a has_tools t) _)
    | inr first ↦ rw first refl
  ]

  requests-adopted :
      (t : Turn S W) (answer : S × List Message × ℤ)
      → (adopted env a has_tools t answer).0.requests ≡ t.requests
  requests-adopted t (state, pruned, freed) =
      elim (Bool-cases (prune_did_something t.messages pruned freed)) [
        | inl did ↦ rw did refl
        | inr idle ↦ rw idle refl
      ]

  requests-make_room :
      (window : ℕ) (t : Turn S W) → (make_room env a has_tools window t).0.requests ≡ t.requests
  unfolding make_room
  requests-make_room window t = requests-adopted t _

  requests-add_volatile : (t : Turn S W) → (add_volatile env a has_tools t).requests ≡ t.requests
  unfolding add_volatile
  requests-add_volatile t =
      elim (Bool-cases (not (str_eq t.volatile_context "") && ends_with_user t.messages)) [
        | inl filled ↦ rw filled refl
        | inr kept ↦ rw kept refl
      ]

  requests-build_request : (t : Turn S W) → (build_request env a has_tools t).requests ≡ t.requests
  unfolding build_request
  requests-build_request t = elim (Bool-cases (guards_context env a has_tools)) [
    | inl guards ↦ rw guards (requests-make_room env.context_window _ ∙ requests-add_volatile t)
    | inr free ↦ rw free (requests-add_volatile t)
  ]

  requests-keep_partial :
      (delivered : Option Response) (c : Turn S W × Completion)
      → (keep_partial env a has_tools delivered c).0.requests ≡ c.0.requests
  requests-keep_partial delivered (t, completed response) = refl
  requests-keep_partial delivered (t, broken later e) = refl

  requests-retried :
      (sends_tools : Bool) (delivered : Option Response) (e : String) (room : Turn S W × Bool)
      → (retried env a has_tools sends_tools delivered e room).0.requests ≤ suc room.0.requests
  requests-retried sends_tools delivered e (t, false) = omega arith
  requests-retried sends_tools delivered e (t, true) = omega (
    arith,
    requests-keep_partial delivered (
        with_call env a has_tools t
          (env.retry_call (request_of env a has_tools sends_tools t) t.state)),
  )

  requests-retry_on_length :
      (sends_tools : Bool) (c : Turn S W × Completion)
      → (retry_on_length env a has_tools sends_tools c).0.requests ≤ suc c.0.requests
  requests-retry_on_length sends_tools (t, completed response) = omega arith
  requests-retry_on_length sends_tools (t, broken delivered e) =
      elim (Bool-cases (guards_context env a has_tools && is_context_length_error e)) [
        | inl long ↦ rw long (
            omega (
              arith,
              requests-retried sends_tools delivered e
                  (make_room env a has_tools (env.context_window / 2) t),
              requests-make_room (env.context_window / 2) t,
            ))
        | inr other ↦ rw other (omega arith)
      ]

  requests-convertible :
      (c : Turn S W × Completion) → (convertible env a has_tools c).0.requests ≡ c.0.requests
  requests-convertible (t, completed response) = refl
  requests-convertible (t, broken delivered e) = refl

  requests-execute_api_call :
      (sends_tools : Bool) (t : Turn S W)
      → (execute_api_call env a has_tools sends_tools t).0.requests ≤ t.requests + 2
  unfolding execute_api_call
  requests-execute_api_call sends_tools t =
      let first =
        with_call env a has_tools t
          (env.first_call (request_of env a has_tools sends_tools t) t.state) in
      omega (
        arith,
        requests-convertible (retry_on_length env a has_tools sends_tools first),
        requests-retry_on_length sends_tools first,
      )

  requests-after_response :
      (response : Response) (t : Turn S W)
      → (turn_of (after_response env a has_tools response t)).requests ≡ t.requests
  unfolding after_response run_tools
  requests-after_response response t =
      elim (Bool-cases
        (str_eq response.stop_reason "end_turn" || str_eq response.stop_reason "max_tokens")) [
          | inl last ↦ rw last refl
          | inr more ↦ elim (Bool-cases (str_eq response.stop_reason "tool_use")) [
            | inl tools ↦ rw (more, tools) refl
            | inr odd ↦ rw (more, odd) refl
          ]
        ]

  requests-keep_delivered :
      (delivered e : String) (t : Turn S W)
      → (keep_delivered env a has_tools delivered e t).requests ≡ t.requests
  unfolding keep_delivered
  requests-keep_delivered delivered e t = elim (Bool-cases (str_eq delivered "")) [
    | inl bare ↦ rw bare refl
    | inr some_text ↦ rw some_text refl
  ]

  requests-received :
      (sends_tools : Bool) (c : Turn S W × Completion)
      → (turn_of (received env a has_tools sends_tools c)).requests ≡ c.0.requests
  requests-received sends_tools (t, broken delivered e) =
      requests-keep_delivered (delivered_text delivered) e t
  requests-received sends_tools (t, completed response) =
      requests-after_response response (answered_by env a has_tools response sends_tools t)

  requests-call_api :
      (t : Turn S W) (force : Bool)
      → (turn_of (call_api env a has_tools (t, force))).requests ≤ t.requests + 2
  requests-call_api t force =
      let sends = has_tools && not force in
      let built = build_request env a has_tools t in
      omega (
        arith,
        requests-received sends (execute_api_call env a has_tools sends built),
        requests-execute_api_call sends built,
        requests-build_request t,
      )

  -- A round makes two requests at most.
  requests-round :
      (n : ℕ) (t : Turn S W) → (turn_of (round env a has_tools n t)).requests ≤ t.requests + 2
  unfolding round
  requests-round n t = elim (Option-cases (env.context_error t.state)) [
    | inr (e, over) ↦ rw over (omega arith)
    | inl alive ↦ elim (Bool-cases (ltb max_api_calls_per_turn n)) [
      | inl past ↦ rw (alive, past) (omega arith)
      | inr within ↦
          rw (alive, within)
            (omega (
              arith,
              requests-call_api (check_between env a has_tools n t).0
                  (check_between env a has_tools n t).1,
              requests-check_between n t,
            ))
    ]
  ]

  -- The round behind the last call that a turn may make ends it, and makes none.
  round-last :
      (t : Turn S W)
      → HasEnded (round env a has_tools (suc max_api_calls_per_turn) t)
        × ((turn_of (round env a has_tools (suc max_api_calls_per_turn) t)).requests ≡ t.requests)
  unfolding round stop_for_canceled_turn stop_for_api_call_cap
  round-last t = elim (Option-cases (env.context_error t.state)) [
    | inl alive ↦ rw alive (tt, refl)
    | inr (e, over) ↦ rw over (tt, refl)
  ]

  -- What the loop comes to, and how many requests it makes at most.
  abbrev pub Ends : Option (Course S W) → ℕ → Type 0
  Ends result n = (c : Course S W) × (result ≡ some c) × HasEnded c × ((turn_of c).requests ≤ n)

  go_on-Ends :
      (next : Turn S W → Option (Course S W)) (c : Course S W) (n more : ℕ)
      → (turn_of c).requests ≤ n
      → ((t : Turn S W) → Ends (next t) (t.requests + more))
      → Ends (go_on env a has_tools next c) (n + more)
  go_on-Ends next (again t) n more few h =
      let (c, e, ended, bound) = h t in (c, e, ended, omega arith)
  go_on-Ends next (finished t) n more few h = (finished t, refl, tt, omega arith)
  go_on-Ends next (stopped t e) n more few h = (stopped t e, refl, tt, omega arith)

  go_on-last :
      (next : Turn S W → Option (Course S W)) (c : Course S W) (n : ℕ)
      → HasEnded c
      → ((turn_of c).requests ≡ n)
      → Ends (go_on env a has_tools next c) n
  go_on-last next (again t) n ended e = absurd ended
  go_on-last next (finished t) n ended e = (finished t, refl, tt, omega arith)
  go_on-last next (stopped t error) n ended e = (stopped t error, refl, tt, omega arith)

  loop-Ends :
      (fuel n : ℕ) (t : Turn S W)
      → fuel + n ≡ max_api_calls_per_turn
      → Ends (loop env a has_tools (suc fuel) n t) (t.requests + 2 * fuel)
  unfolding loop
  loop-Ends zero n t e =
      let last : n ≡ max_api_calls_per_turn = omega arith in
      let (ended, same) =
        subst
          (λ k.
            HasEnded (round env a has_tools (suc k) t)
            × ((turn_of (round env a has_tools (suc k) t)).requests ≡ t.requests))
          (sym last) (round-last t) in
      let (c, f, g, bound) =
        go_on-last (loop env a has_tools zero (suc n)) (round env a has_tools (suc n) t) t.requests
          ended same in
      (c, f, g, omega arith)
  loop-Ends (suc fuel) n t e =
      let (c, f, g, bound) =
        go_on-Ends (loop env a has_tools (suc fuel) (suc n)) (round env a has_tools (suc n) t)
          (t.requests + 2) (2 * fuel) (requests-round (suc n) t)
          (λ u. loop-Ends fuel (suc n) u (omega arith)) in
      (c, f, g, omega arith)

  -- A turn ends, whatever the model and the hooks answer, after two requests for each of the calls it may
  -- make, at most.
  pub run-Ends :
      (t : Turn S W) → Ends (run env a has_tools t) (t.requests + 2 * max_api_calls_per_turn)
  unfolding run
  run-Ends t = loop-Ends max_api_calls_per_turn 0 t (omega arith)
