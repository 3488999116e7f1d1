-- ===== src/Staging.antt =====
-- conversation/staged.go, `ManageStaging` and `CrossZoneDedup`: deduplication and pruning behind the
-- frozen zone. The part of the slice in front of `frozenIdx` is the one that is returned.
use inber.Prelude.{
  ℕ, String, List, [], ◌∷◌, ◌++◌, Bool, length, take, drop, leb, contains, if◌then◌else◌,
}
use inber.Message.{Block, text, tool_use, tool_result, thinking, redacted_thinking, other, Message}
use inber.Repair.{is_user, is_assistant}
use inber.ReadCache.{Json}
use inber.ManagementConfig.{ManagementConfig}
use inber.Prune.{Marshal, prune_tool_result, tool_name, tool_names_by_use_id, compute_ages}
use inber.Dedup.{deduplicate_file_refs, tool_use_file_paths}
pub mod Frozen

unfoldable pub prune_staged_block : ManagementConfig → List (String × String) → ℕ → Block → Block
unfolding prune_tool_result tool_name
prune_staged_block cfg names age (tool_result r) =
    (prune_tool_result cfg age (tool_name names r.tool_use_id) r).0
prune_staged_block cfg names age (text s) = text s
prune_staged_block cfg names age (tool_use u) = tool_use u
prune_staged_block cfg names age (thinking s) = thinking s
prune_staged_block cfg names age (redacted_thinking s) = redacted_thinking s
prune_staged_block cfg names age (other s) = other s

abbrev pub prune_staged_blocks :
    ManagementConfig → List (String × String) → ℕ → List Block → List Block
prune_staged_blocks cfg names age [] = []
prune_staged_blocks cfg names age (b ∷ bs) =
    prune_staged_block cfg names age b ∷ prune_staged_blocks cfg names age bs

-- The loop over the staging zone, with the age of each message.
unfoldable pub prune_staging :
    ManagementConfig → List (String × String) → List ℕ → List Message → List Message
unfolding prune_staged_block
prune_staging cfg names ages [] = []
prune_staging cfg names [] (m ∷ ms) = m ∷ ms
prune_staging cfg names (age ∷ ages) (m ∷ ms) =
    let rest = prune_staging cfg names ages ms in
    (if is_user m then record m { content = prune_staged_blocks cfg names age m.content } else m)
    ∷ rest

-- The conversation, and how many results were deduplicated.
unfoldable pub manage_staging :
    {V : Type 0} → Json V → Marshal → ℕ → ManagementConfig → List Message → List Message × ℕ
unfolding deduplicate_file_refs compute_ages tool_names_by_use_id prune_staging
manage_staging json marshal frozen_idx cfg ms =
    let frozen = take frozen_idx ms in
    let (staging, deduped) = deduplicate_file_refs json marshal (drop frozen_idx ms) in
    let names = tool_names_by_use_id (frozen ++ staging) in
    if leb (length ms) frozen_idx
    then (ms, 0)
    else (frozen ++ prune_staging cfg names (compute_ages staging) staging, deduped)

abbrev block_paths : {V : Type 0} → Json V → Block → List String
block_paths json (tool_use u) = tool_use_file_paths json u
block_paths json (text s) = []
block_paths json (tool_result r) = []
block_paths json (thinking s) = []
block_paths json (redacted_thinking s) = []
block_paths json (other s) = []

abbrev content_paths : {V : Type 0} → Json V → List Block → List String
content_paths json [] = []
content_paths json (b ∷ bs) = block_paths json b ++ content_paths json bs

-- The paths that the calls of the assistant name.
unfoldable pub zone_paths : {V : Type 0} → Json V → List Message → List String
unfolding tool_use_file_paths
zone_paths json [] = []
zone_paths json (m ∷ ms) =
    let rest = zone_paths json ms in
    if is_assistant m then content_paths json m.content ++ rest else rest

abbrev pub only_known : List String → List String → List String
only_known known [] = []
only_known known (path ∷ paths) =
    if contains known path then path ∷ only_known known paths else only_known known paths

unfoldable pub cross_zone_dedup : {V : Type 0} → Json V → List Message → List Message → List String
unfolding zone_paths
cross_zone_dedup json frozen staging = only_known (zone_paths json frozen) (zone_paths json staging)
