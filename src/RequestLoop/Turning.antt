-- ===== src/RequestLoop/Turning.antt =====
-- agent/agent.go, `Run`: each round, and the conversation that it leaves.
use inber.Prelude.{
  ℕ, zero, suc, ◌/◌, String, List, Option, none, some, Bool, true, false, ◌||◌, ◌&&◌, not, ◌≡◌,
  subst, ◌∙◌, inl, inr, Bool-cases, Option-cases, ltb, str_eq,
}
use mathlib.Core.Option.{some_inj, none-ne-some}
use inber.Prelude.Int.{ℤ}
use inber.Message.{Message, assistant_message}
use inber.Execution.{Agent, execute_tools}
use inber.Execution.Results.{execute_tools_ids}
use inber.ApiError.{is_context_length_error}
use inber.TurnParts.{
  max_api_calls_per_turn, Response, Completion, completed, broken, Surroundings, Turn, Course,
  again, finished, stopped, prune_did_something, delivered_text, ends_with_user, tool_uses,
}
use inber.RequestLoop.{
  stop_for_canceled_turn, stop_for_api_call_cap, inject, limited, check_between, add_volatile,
  guards_context, adopted, make_room, build_request, with_call, keep_partial, retried,
  retry_on_length, convertible, execute_api_call, start_tools, keep_delivered, run_tools,
  after_response, answered_by, received, round, go_on, loop, run, request_of,
}
use inber.TurnParts.Answering.{
  Settled, Ready, append_to_last-Ready, insert_in_last-Ready, Ready-append, Settled-append,
  tool_uses_ids, answering_lem,
}
use inber.RequestLoop.Bounded.{turn_of, HasEnded, run-Ends}

-- What a caller may make of the messages before a request.
abbrev pub KeepsReady : {S : Type 0} → Surroundings S → Type 0
KeepsReady env =
    (ms : List Message) (window : ℕ) (st : _) → Ready ms → Ready (env.before_request ms window st).1

module _ {V S W : Type 0} (env : Surroundings S) (a : Agent V W) (has_tools : Bool)
    (keeps : KeepsReady env) where
  abbrev IsReady : Turn S W → Type 0
  IsReady t = Ready t.messages

  limited-IsReady :
      (t : Turn S W) (answer : S × Option String)
      → IsReady t
      → IsReady (limited env a has_tools t answer).0
  limited-IsReady t (st, none) h = h
  limited-IsReady t (st, some reason) h = append_to_last-Ready _ t.messages h

  check_between-IsReady :
      (n : ℕ) (t : Turn S W) → IsReady t → IsReady (check_between env a has_tools n t).0
  unfolding check_between inject
  check_between-IsReady n t h = elim (Bool-cases (ltb 1 n)) [
    | inl later ↦
        rw later
          (limited-IsReady (inject env a has_tools t) _ (append_to_last-Ready _ t.messages h))
    | inr first ↦ rw first h
  ]

  add_volatile-IsReady : (t : Turn S W) → IsReady t → IsReady (add_volatile env a has_tools t)
  unfolding add_volatile
  add_volatile-IsReady t h =
      elim (Bool-cases (not (str_eq t.volatile_context "") && ends_with_user t.messages)) [
        | inl filled ↦ rw filled (insert_in_last-Ready t.volatile_context t.messages h)
        | inr kept ↦ rw kept h
      ]

  adopted-IsReady :
      (t : Turn S W) (answer : S × List Message × ℤ)
      → IsReady t
      → Ready answer.1
      → IsReady (adopted env a has_tools t answer).0
  adopted-IsReady t (st, pruned, freed) h g =
      elim (Bool-cases (prune_did_something t.messages pruned freed)) [
        | inl did ↦ rw did g
        | inr idle ↦ rw idle h
      ]

  make_room-IsReady :
      (window : ℕ) (t : Turn S W) → IsReady t → IsReady (make_room env a has_tools window t).0
  unfolding make_room
  make_room-IsReady window t h = adopted-IsReady t _ h (keeps t.messages window t.state h)

  build_request-IsReady : (t : Turn S W) → IsReady t → IsReady (build_request env a has_tools t)
  unfolding build_request
  build_request-IsReady t h = elim (Bool-cases (guards_context env a has_tools)) [
    | inl guards ↦ rw guards (make_room-IsReady env.context_window _ (add_volatile-IsReady t h))
    | inr free ↦ rw free (add_volatile-IsReady t h)
  ]

  keep_partial-IsReady :
      (delivered : Option Response) (c : Turn S W × Completion)
      → IsReady c.0
      → IsReady (keep_partial env a has_tools delivered c).0
  keep_partial-IsReady delivered (t, completed response) h = h
  keep_partial-IsReady delivered (t, broken later e) h = h

  retried-IsReady :
      (sends : Bool) (delivered : Option Response) (e : String) (room : Turn S W × Bool)
      → IsReady room.0
      → IsReady (retried env a has_tools sends delivered e room).0
  retried-IsReady sends delivered e (t, false) h = h
  retried-IsReady sends delivered e (t, true) h =
      keep_partial-IsReady delivered
        (with_call env a has_tools t (env.retry_call (request_of env a has_tools sends t) t.state))
        h

  retry_on_length-IsReady :
      (sends : Bool) (c : Turn S W × Completion)
      → IsReady c.0
      → IsReady (retry_on_length env a has_tools sends c).0
  retry_on_length-IsReady sends (t, completed response) h = h
  retry_on_length-IsReady sends (t, broken delivered e) h =
      elim (Bool-cases (guards_context env a has_tools && is_context_length_error e)) [
        | inl long ↦ rw long (
            retried-IsReady sends delivered e (make_room env a has_tools (env.context_window / 2) t)
              (make_room-IsReady (env.context_window / 2) t h))
        | inr other ↦ rw other h
      ]

  convertible-IsReady :
      (c : Turn S W × Completion) → IsReady c.0 → IsReady (convertible env a has_tools c).0
  convertible-IsReady (t, completed response) h = h
  convertible-IsReady (t, broken delivered e) h = h

  execute_api_call-IsReady :
      (sends : Bool) (t : Turn S W)
      → IsReady t
      → IsReady (execute_api_call env a has_tools sends t).0
  unfolding execute_api_call
  execute_api_call-IsReady sends t h =
      let first =
        with_call env a has_tools t (env.first_call (request_of env a has_tools sends t) t.state) in
      convertible-IsReady (retry_on_length env a has_tools sends first)
        (retry_on_length-IsReady sends first h)

  -- A round ends with a settled conversation, or goes on with one that is ready.
  abbrev Continues : Course S W → Type 0
  Continues (again t) = Ready t.messages
  Continues (finished t) = Settled t.messages
  Continues (stopped t e) = Settled t.messages

  run_tools-IsReady :
      (response : Response) (sends : Bool) (t : Turn S W)
      → IsReady t
      → IsReady (run_tools env a has_tools response (answered_by env a has_tools response sends t))
  unfolding run_tools
  run_tools-IsReady response sends t h =
      let u = answered_by env a has_tools response sends t in
      let done = execute_tools a (tool_uses response.content) (start_tools env a has_tools u) in
      let (is_the_users, covers) = answering_lem done.tool_results done.post_injections _ (
        execute_tools_ids a (tool_uses response.content) (start_tools env a has_tools u)
        ∙ tool_uses_ids response.content) in
      Settled-append t.messages (assistant_message response.content) _
        (Ready-append t.messages (assistant_message response.content) h) covers is_the_users

  after_response-Continues :
      (response : Response) (sends : Bool) (t : Turn S W)
      → IsReady t
      → Continues
          (after_response env a has_tools response (answered_by env a has_tools response sends t))
  unfolding after_response
  after_response-Continues response sends t h =
      let settled = Ready-append t.messages (assistant_message response.content) h in
      elim (Bool-cases
        (str_eq response.stop_reason "end_turn" || str_eq response.stop_reason "max_tokens")) [
          | inl last ↦ rw last settled
          | inr more ↦ elim (Bool-cases (str_eq response.stop_reason "tool_use")) [
            | inl tools ↦ rw (more, tools) (run_tools-IsReady response sends t h)
            | inr odd ↦ rw (more, odd) settled
          ]
        ]

  keep_delivered-Settled :
      (delivered e : String) (t : Turn S W)
      → IsReady t
      → Settled (keep_delivered env a has_tools delivered e t).messages
  unfolding keep_delivered
  keep_delivered-Settled delivered e t h = elim (Bool-cases (str_eq delivered "")) [
    | inl bare ↦ rw bare h.0
    | inr full ↦ rw full (Ready-append t.messages _ h)
  ]

  received-Continues :
      (sends : Bool) (c : Turn S W × Completion)
      → IsReady c.0
      → Continues (received env a has_tools sends c)
  received-Continues sends (t, broken delivered e) h =
      keep_delivered-Settled (delivered_text delivered) e t h
  received-Continues sends (t, completed response) h = after_response-Continues response sends t h

  round-Continues : (n : ℕ) (t : Turn S W) → IsReady t → Continues (round env a has_tools n t)
  unfolding round stop_for_canceled_turn stop_for_api_call_cap
  round-Continues n t h = elim (Option-cases (env.context_error t.state)) [
    | inr (e, over) ↦ rw over h.0
    | inl alive ↦ elim (Bool-cases (ltb max_api_calls_per_turn n)) [
      | inl past ↦ rw (alive, past) h.0
      | inr within ↦
          let checked = check_between env a has_tools n t in
          let sends = has_tools && not checked.1 in
          let built = build_request env a has_tools checked.0 in
          rw (alive, within)
            (received-Continues sends (execute_api_call env a has_tools sends built) (
              execute_api_call-IsReady sends built
                (build_request-IsReady checked.0 (check_between-IsReady n t h))))
    ]
  ]

  go_on-Settled :
      (next : Turn S W → Option (Course S W)) (c d : Course S W)
      → Continues c
      → ((t : Turn S W) → IsReady t → next t ≡ some d → Settled (turn_of d).messages)
      → go_on env a has_tools next c ≡ some d
      → Settled (turn_of d).messages
  go_on-Settled next (again t) d h g e = g t h e
  go_on-Settled next (finished t) d h g e =
      subst (λ c. Settled (turn_of c).messages) (some_inj.0 e) h
  go_on-Settled next (stopped t error) d h g e =
      subst (λ c. Settled (turn_of c).messages) (some_inj.0 e) h

  loop-Settled :
      (fuel n : ℕ) (t : Turn S W) (d : Course S W)
      → IsReady t
      → loop env a has_tools fuel n t ≡ some d
      → Settled (turn_of d).messages
  unfolding loop
  loop-Settled zero n t d h e = absurd (none-ne-some d e)
  loop-Settled (suc fuel) n t d h e =
      go_on-Settled (loop env a has_tools fuel (suc n)) (round env a has_tools (suc n) t) d
        (round-Continues (suc n) t h) (λ u k. loop-Settled fuel (suc n) u d k) e

  -- However a turn ends, each tool call of a message that another follows is answered by that one.
  pub run-Settled :
      (t : Turn S W)
      → Ready t.messages
      → (c : Course S W) × (run env a has_tools t ≡ some c)
        × HasEnded c
        × Settled (turn_of c).messages
  unfolding run
  run-Settled t h =
      let (c, e, ended, few) = run-Ends env a has_tools t in
      (c, e, ended, loop-Settled (suc max_api_calls_per_turn) 0 t c h e)
