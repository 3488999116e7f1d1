-- ===== src/Stash/Recall.antt =====
-- conversation/stash.go: a session that holds no tool to recall what is stashed.
use inber.Prelude.{
  String, ◌≡◌, refl, ap, List, [], ◌∷◌, Bool, true, false, not, ◌||◌, if◌then◌else◌,
}
use inber.Message.{
  Role, Block, text, tool_use, tool_result, thinking, redacted_thinking, other, Message,
}
use inber.ManagementConfig.{StashConfig}
use inber.Shelf.{Shelf, Shelved, can_recall_stashed_content}
use inber.Stash.{
  Stashing, detect_and_stash_large_blocks, replace_text, stash_block, stash_blocks, stash_messages,
  apply_stashing, should_stash,
}

module _ (shelf : Shelf) (session : String) (cfg : StashConfig)
    (lost : can_recall_stashed_content cfg ≡ false) where
  detect_and_stash_large_blocks-lost :
      (s : String) (st : Shelved)
      → detect_and_stash_large_blocks shelf session cfg s st
        ≡ record { modified_text = s; results = []; shelved = st }
  unfolding detect_and_stash_large_blocks
  detect_and_stash_large_blocks-lost s st =
      go _ _ (not cfg.enabled || not shelf.has_store) (can_recall_stashed_content cfg) lost
    where
      go :
          (x y : Stashing) (off held : Bool)
          → held ≡ false
          → (if off then x else (if not held then x else y)) ≡ x
      go x y true held e = refl
      go x y false held e = rw e refl

  stash_block-lost :
      (role : Role) (b : Block) (st : Shelved)
      → stash_block shelf session cfg role b st ≡ (b, 0, st)
  unfolding stash_block
  stash_block-lost role (text s) st = go (should_stash cfg role (shelf.estimate_tokens s))
    where
      go :
          (b : Bool)
          → (if b
              then replace_text s (detect_and_stash_large_blocks shelf session cfg s st)
              else (text s, 0, st))
            ≡ (text s, 0, st)
      go true = ap (replace_text s) (detect_and_stash_large_blocks-lost s st)
      go false = refl
  stash_block-lost role (tool_use u) st = refl
  stash_block-lost role (tool_result r) st = refl
  stash_block-lost role (thinking s) st = refl
  stash_block-lost role (redacted_thinking s) st = refl
  stash_block-lost role (other s) st = refl

  stash_blocks-lost :
      (role : Role) (bs : List Block) (st : Shelved)
      → stash_blocks shelf session cfg role bs st ≡ (bs, 0, st)
  unfolding stash_blocks
  stash_blocks-lost role [] st = refl
  stash_blocks-lost role (b ∷ bs) st =
      rw (stash_block-lost role b st, stash_blocks-lost role bs st) refl

  stash_messages-lost :
      (ms : List Message) (st : Shelved) → stash_messages shelf session cfg ms st ≡ (ms, 0, st)
  unfolding stash_messages
  stash_messages-lost [] st = refl
  stash_messages-lost (m ∷ ms) st =
      rw (stash_blocks-lost m.role m.content st, stash_messages-lost ms st) refl

  -- Where no tool brings it back, nothing is stashed: the conversation and the store stay as they are.
  pub apply_stashing-lost :
      (ms : List Message) (st : Shelved) → apply_stashing shelf session cfg ms st ≡ (ms, 0, st)
  unfolding apply_stashing
  apply_stashing-lost ms st = go (not cfg.enabled || not shelf.has_store)
    where
      go :
          (off : Bool)
          → (if off then (ms, 0, st) else stash_messages shelf session cfg ms st) ≡ (ms, 0, st)
      go true = refl
      go false = stash_messages-lost ms st
