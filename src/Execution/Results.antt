-- ===== src/Execution/Results.antt =====
-- The tool results of a response (agent/agent_run.go, `executeTools`).
use mathlib.Core.List.{map-append}
use inber.Prelude.{◌≡◌, sym, ap, ◌∙◌, List, [], ◌∷◌, ◌++◌, map, append-nil, append_assoc}
use inber.Execution.{Agent, ToolUseBlock, Progress, execute_block, execute_tools}

-- Each block has one result, under its id and in its place.
pub execute_tools_ids :
    {V W : Type 0} (a : Agent V W) (blocks : List ToolUseBlock) (p : Progress W)
    → map (λ r. r.id) (execute_tools a blocks p).tool_results
      ≡ map (λ r. r.id) p.tool_results ++ map (λ b. b.id) blocks
unfolding execute_tools execute_block
execute_tools_ids a [] p = sym (append-nil (map (λ r. r.id) p.tool_results))
execute_tools_ids a (block ∷ blocks) p =
    execute_tools_ids a blocks (execute_block a block p)
    ∙ ap (λ ids. ids ++ map (λ b. b.id) blocks) (map-append (λ r. r.id) p.tool_results _)
    ∙ append_assoc (map (λ r. r.id) p.tool_results) (block.id ∷ []) (map (λ b. b.id) blocks)
