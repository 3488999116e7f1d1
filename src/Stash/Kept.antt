-- ===== src/Stash/Kept.antt =====
-- conversation/stash.go: what stashing leaves of a conversation.
use inber.Prelude.{
  String, ◌≡◌, refl, ap, inl, inr, List, [], ◌∷◌, map, Bool, true, false, not, ◌||◌, if◌then◌else◌,
  Bool-cases, length, ◌==◌,
}
use mathlib.Core.Path.{ap₂}
use inber.Message.{
  Role, Block, text, tool_use, tool_result, thinking, redacted_thinking, other, Message,
}
use inber.ManagementConfig.{StashConfig}
use inber.Prune.Outline.{outline_block, outline}
use inber.Shelf.{Shelf, Shelved}
use inber.Stash.{
  Stashing, detect_and_stash_large_blocks, replace_text, stash_block, stash_blocks, stash_messages,
  apply_stashing, should_stash,
}

-- A text block is replaced by a text block.
outline_block-stash_block :
    (shelf : Shelf) (session : String) (cfg : StashConfig) (role : Role) (b : Block) (st : Shelved)
    → outline_block (stash_block shelf session cfg role b st).0 ≡ outline_block b
unfolding stash_block
outline_block-stash_block shelf session cfg role (text s) st =
    go (should_stash cfg role (shelf.estimate_tokens s))
      (detect_and_stash_large_blocks shelf session cfg s st)
  where
    go :
        (b : Bool) (done : Stashing)
        → outline_block (if b then replace_text s done else (text s, 0, st)).0 ≡ text ""
    go true done = elim (Bool-cases (length done.results == 0)) [
      | inl bare ↦ rw bare refl
      | inr full ↦ rw full refl
    ]
    go false done = refl
outline_block-stash_block shelf session cfg role (tool_use u) st = refl
outline_block-stash_block shelf session cfg role (tool_result r) st = refl
outline_block-stash_block shelf session cfg role (thinking s) st = refl
outline_block-stash_block shelf session cfg role (redacted_thinking s) st = refl
outline_block-stash_block shelf session cfg role (other s) st = refl

outline-stash_blocks :
    (shelf : Shelf) (session : String) (cfg : StashConfig) (role : Role) (bs : List Block)
    (st : Shelved)
    → map outline_block (stash_blocks shelf session cfg role bs st).0 ≡ map outline_block bs
unfolding stash_blocks
outline-stash_blocks shelf session cfg role [] st = refl
outline-stash_blocks shelf session cfg role (b ∷ bs) st =
    ap₂ (◌∷◌) (outline_block-stash_block shelf session cfg role b st)
      (outline-stash_blocks shelf session cfg role bs _)

outline-stash_messages :
    (shelf : Shelf) (session : String) (cfg : StashConfig) (ms : List Message) (st : Shelved)
    → outline (stash_messages shelf session cfg ms st).0 ≡ outline ms
unfolding stash_messages
outline-stash_messages shelf session cfg [] st = refl
outline-stash_messages shelf session cfg (m ∷ ms) st =
    ap₂ (◌∷◌)
      (ap (λ c. record m { content = c })
        (outline-stash_blocks shelf session cfg m.role m.content st))
      (outline-stash_messages shelf session cfg ms _)

pub outline-apply_stashing :
    (shelf : Shelf) (session : String) (cfg : StashConfig) (ms : List Message) (st : Shelved)
    → outline (apply_stashing shelf session cfg ms st).0 ≡ outline ms
unfolding apply_stashing
outline-apply_stashing shelf session cfg ms st = go (not cfg.enabled || not shelf.has_store)
  where
    go :
        (off : Bool)
        → outline (if off then (ms, 0, st) else stash_messages shelf session cfg ms st).0
          ≡ outline ms
    go true = refl
    go false = outline-stash_messages shelf session cfg ms st
