-- ===== src/Stash/Ledger.antt =====
-- conversation/stash.go: what leaves a conversation, and what the store then holds.
use inber.Prelude.{
  All, All-append, ℕ, ◌≤◌, ◌<◌, false, str_eq, eq_iff, contains, arith, String, ◌≡◌, refl, sym, ap,
  ◌∙◌, inl, inr, List, [], ◌∷◌, ◌++◌, map, Bool, true, not, ◌&&◌, ◌||◌, if◌then◌else◌, Bool-cases,
  Option, none, some, length, append-nil, append_assoc, subst, ◌==◌,
}
use mathlib.Core.Path.{ap₂}
use mathlib.Core.List.{map-append}
use inber.Prelude.Int.{ℤ, ◌≤ℤ◌, pos, leb_ℤ, ltb_ℤ}
use inber.Summary.{Memory}
use inber.ManagementConfig.{StashConfig}
use inber.Shelf.{
  stashed_memory, result_of, detect_content_type, Shelf, Shelved, StashResult, Outcome, failed,
  nothing, stashed, saved, stash_large_content, paragraphs, can_recall_stashed_content,
}
use inber.Stash.{
  Stashing, replace_code, stash_code_block, stash_code_blocks, rebuild, stash_paragraph,
  stash_paragraphs, stash_remaining, replace_all, stash_whole, detect_and_stash_large_blocks,
}

abbrev pub row_ids : List Memory → List String
row_ids rows = map (λ m. m.id) rows

-- What is reported of a row: its id, what kind of text it holds and how many tokens, and how to recall it.
abbrev pub told_of : Shelf → StashConfig → Memory → StashResult
told_of shelf cfg m =
    result_of cfg (detect_content_type shelf m.content) (shelf.estimate_tokens m.content) m.id

-- A text as large as a block has to be to be stashed.
abbrev pub IsLarge : Shelf → StashConfig → Memory → Type 0
IsLarge shelf cfg m = cfg.min_block_size ≤ℤ pos (shelf.estimate_tokens m.content)

-- Rows with large texts are added to those there were, and they are what is reported, in order.
abbrev pub Filed : Shelf → StashConfig → List StashResult → Shelved → Shelved → Type 0
Filed shelf cfg results st after =
    (new : List Memory) × (after.rows ≡ st.rows ++ new)
    × (results ≡ map (told_of shelf cfg) new)
    × All (IsLarge shelf cfg) new

-- What the store does with a row under an id that it does not hold: it keeps its rows and adds the new one.
abbrev pub Adds : Shelf → Type 0
Adds shelf =
    (m : Memory) (rows : List Memory)
    → contains (row_ids rows) m.id ≡ false
    → shelf.save_row m rows ≡ rows ++ m ∷ []

-- No id is drawn twice.
abbrev pub Draws : Shelf → Type 0
Draws shelf = (i j : ℕ) → shelf.new_id i ≡ shelf.new_id j → i ≡ j

-- The ids still to be drawn name no row.
abbrev pub Fresh : Shelf → Shelved → Type 0
Fresh shelf st = (n : ℕ) → st.drawn ≤ n → contains (row_ids st.rows) (shelf.new_id n) ≡ false

row_ids-append :
    (rows : List Memory) (m : Memory) (id : String)
    → contains (row_ids rows) id ≡ false
    → str_eq m.id id ≡ false
    → contains (row_ids (rows ++ m ∷ [])) id ≡ false
row_ids-append [] m id h e = rw e refl
row_ids-append (r ∷ rows) m id h e =
    ground (arith, row_ids-append rows m id (not_in r.id (row_ids rows) h) e, h)
  where
    not_in : (x : String) (xs : List String) → contains (x ∷ xs) id ≡ false → contains xs id ≡ false
    not_in x xs h = ground (arith, h)

module _ (shelf : Shelf) (session : String) (cfg : StashConfig) (adds : Adds shelf)
    (draws : Draws shelf) where
  -- From a store whose ids are fresh to another.
  abbrev Files : List StashResult → Shelved → Shelved → Type 0
  Files results st after = Fresh shelf st → Filed shelf cfg results st after × Fresh shelf after

  Files-nil : (st : Shelved) → Files [] st st
  Files-nil st fresh = (([], sym (append-nil st.rows), refl, tt), fresh)

  Files-trans :
      (rs ss : List StashResult) (a b c : Shelved)
      → Files rs a b
      → Files ss b c
      → Files (rs ++ ss) a c
  Files-trans rs ss a b c first second fresh =
      let ((xs, ex, ix, lx), later) = first fresh in
      let ((ys, ey, iy, ly), last) = second later in
      (
        (
          xs ++ ys,
          ey ∙ ap (λ r. r ++ ys) ex ∙ append_assoc a.rows xs ys,
          ap₂ (◌++◌) ix iy ∙ sym (map-append _ xs ys),
          All-append (IsLarge shelf cfg) xs ys lx ly,
        ),
        last,
      )

  abbrev yield : Outcome → List StashResult
  yield (failed e) = []
  yield nothing = []
  yield (stashed r) = r ∷ []

  impossible : (i j : ℕ) → i < j → i ≡ j → true ≡ false
  impossible i j h e = ground arith

  other_id : (i j : ℕ) → i < j → str_eq (shelf.new_id i) (shelf.new_id j) ≡ false
  other_id i j h = elim (Bool-cases (str_eq (shelf.new_id i) (shelf.new_id j))) [
    | inl e ↦ e ∙ impossible i j h (draws i j ((eq_iff (shelf.new_id i) (shelf.new_id j)).0 e))
    | inr e ↦ e
  ]

  -- A save of a large text under the id that was drawn, with what is reported of it.
  saved-Files :
      (memory : Memory) (r : StashResult) (st : Shelved) (e : Option String)
      → memory.id ≡ shelf.new_id st.drawn
      → r ≡ told_of shelf cfg memory
      → IsLarge shelf cfg memory
      → Files (yield (saved shelf memory r st e).0) st (saved shelf memory r st e).1
  saved-Files memory r st (some e) d i l fresh =
      (([], sym (append-nil st.rows), refl, tt), λ n h. fresh n (omega arith))
  saved-Files memory r st none d i l fresh =
      let unknown =
        subst (λ id. contains (row_ids st.rows) id ≡ false) (sym d)
          (fresh st.drawn (omega arith)) in
      let added = adds memory st.rows unknown in
      (
        (memory ∷ [], added, ap (λ x. x ∷ []) i, (l, tt)),
        λ n h.
            subst (λ rows. contains (row_ids rows) (shelf.new_id n) ≡ false) (sym added)
              (row_ids-append st.rows memory (shelf.new_id n) (fresh n (omega arith)) (
                subst (λ id. str_eq id (shelf.new_id n) ≡ false) (sym d)
                  (other_id st.drawn n (omega arith)))),
      )

  no_smaller : (a b : ℤ) → ltb_ℤ a b ≡ false → b ≤ℤ a
  no_smaller a b h = ground arith

  stash_large_content-Files :
      (content : String) (st : Shelved)
      → Files
          (yield (stash_large_content shelf session cfg content st).0)
          st
          (stash_large_content shelf session cfg content st).1
  unfolding stash_large_content
  stash_large_content-Files content st =
      elim (Bool-cases (ltb_ℤ (pos (shelf.estimate_tokens content)) cfg.min_block_size)) [
        | inl small ↦ rw small (Files-nil st)
        | inr large ↦ elim (Bool-cases (can_recall_stashed_content cfg)) [
          | inr lost ↦ rw (large, lost) (Files-nil st)
          | inl held ↦
              rw (large, held)
                (saved-Files
                  (stashed_memory session (detect_content_type shelf content) content
                    (shelf.new_id st.drawn))
                  _ st _ refl refl
                  (no_smaller (pos (shelf.estimate_tokens content)) cfg.min_block_size large))
        ]
      ]

  -- What a text has had stashed is on file since the store was as given.
  abbrev FilesSince : Shelved → Stashing → Type 0
  FilesSince st done = Files done.results st done.shelved

  replace_code-FilesSince :
      (full : String) (st : Shelved) (done : Stashing) (outcome : Outcome × Shelved)
      → FilesSince st done
      → Files (yield outcome.0) done.shelved outcome.1
      → FilesSince st (replace_code full done outcome)
  replace_code-FilesSince full st done (failed e, after) h g =
      subst (λ rs. Files rs st after) (append-nil done.results)
        (Files-trans done.results [] st done.shelved after h g)
  replace_code-FilesSince full st done (nothing, after) h g =
      subst (λ rs. Files rs st after) (append-nil done.results)
        (Files-trans done.results [] st done.shelved after h g)
  replace_code-FilesSince full st done (stashed r, after) h g =
      Files-trans done.results (r ∷ []) st done.shelved after h g

  stash_code_block-FilesSince :
      (full content : String) (st : Shelved) (done : Stashing)
      → FilesSince st done
      → FilesSince st (stash_code_block shelf session cfg full content done)
  unfolding stash_code_block
  stash_code_block-FilesSince full content st done h =
      elim (Bool-cases (leb_ℤ cfg.min_block_size (pos (shelf.estimate_tokens content)))) [
        | inl large ↦ rw large (
            replace_code-FilesSince full st done _ h
              (stash_large_content-Files content done.shelved))
        | inr small ↦ rw small h
      ]

  stash_code_blocks-FilesSince :
      (blocks : List (String × String)) (st : Shelved) (done : Stashing)
      → FilesSince st done
      → FilesSince st (stash_code_blocks shelf session cfg blocks done)
  unfolding stash_code_blocks
  stash_code_blocks-FilesSince [] st done h = h
  stash_code_blocks-FilesSince ((full, content) ∷ blocks) st done h =
      stash_code_blocks-FilesSince blocks st (stash_code_block shelf session cfg full content done)
        (stash_code_block-FilesSince full content st done h)

  rebuild-Files :
      (para : String) (st : Shelved) (outcome : Outcome × Shelved)
      → Files (yield outcome.0) st outcome.1
      → Files (rebuild para outcome).1 st (rebuild para outcome).2
  rebuild-Files para st (failed e, after) h = h
  rebuild-Files para st (nothing, after) h = h
  rebuild-Files para st (stashed r, after) h = h

  stash_paragraph-Files :
      (para : String) (st : Shelved)
      → Files
          (stash_paragraph shelf session cfg para st).1
          st
          (stash_paragraph shelf session cfg para st).2
  unfolding stash_paragraph
  stash_paragraph-Files para st =
      elim (Bool-cases (leb_ℤ cfg.min_block_size (pos (shelf.estimate_tokens para)))) [
        | inl large ↦ rw large (rebuild-Files para st _ (stash_large_content-Files para st))
        | inr small ↦ rw small (Files-nil st)
      ]

  stash_paragraphs-Files :
      (paras : List String) (st : Shelved)
      → Files
          (stash_paragraphs shelf session cfg paras st).1
          st
          (stash_paragraphs shelf session cfg paras st).2
  unfolding stash_paragraphs
  stash_paragraphs-Files [] st = Files-nil st
  stash_paragraphs-Files (para ∷ paras) st =
      let first = stash_paragraph shelf session cfg para st in
      let rest = stash_paragraphs shelf session cfg paras first.2 in
      Files-trans first.1 rest.1 st first.2 rest.2 (stash_paragraph-Files para st)
        (stash_paragraphs-Files paras first.2)

  stash_remaining-FilesSince :
      (st : Shelved) (done : Stashing)
      → FilesSince st done
      → FilesSince st (stash_remaining shelf session cfg done)
  unfolding stash_remaining
  stash_remaining-FilesSince st done h =
      let split =
        stash_paragraphs shelf session cfg (paragraphs false done.modified_text) done.shelved in
      elim (Bool-cases
        (leb_ℤ cfg.min_block_size (pos (shelf.estimate_tokens done.modified_text)))) [
          | inl large ↦ rw large (
              Files-trans done.results split.1 st done.shelved split.2 h
                (stash_paragraphs-Files (paragraphs false done.modified_text) done.shelved))
          | inr small ↦ rw small h
        ]

  replace_all-FilesSince :
      (st : Shelved) (done : Stashing) (outcome : Outcome × Shelved)
      → FilesSince st done
      → Files (yield outcome.0) done.shelved outcome.1
      → FilesSince st (replace_all done outcome)
  replace_all-FilesSince st done (failed e, after) h g =
      replace_code-FilesSince "" st done (failed e, after) h g
  replace_all-FilesSince st done (nothing, after) h g =
      replace_code-FilesSince "" st done (nothing, after) h g
  replace_all-FilesSince st done (stashed r, after) h g =
      Files-trans done.results (r ∷ []) st done.shelved after h g

  stash_whole-FilesSince :
      (st : Shelved) (done : Stashing)
      → FilesSince st done
      → FilesSince st (stash_whole shelf session cfg done)
  unfolding stash_whole
  stash_whole-FilesSince st done h =
      elim (Bool-cases (
        (length done.results == 0)
        && leb_ℤ cfg.user_message_threshold (pos (shelf.estimate_tokens done.modified_text)))) [
          | inl large ↦ rw large (
              replace_all-FilesSince st done _ h
                (stash_large_content-Files done.modified_text done.shelved))
          | inr small ↦ rw small h
        ]

  FilesSince-if :
      (b : Bool) (st : Shelved) (x y : Stashing)
      → FilesSince st x
      → FilesSince st y
      → FilesSince st (if b then x else y)
  FilesSince-if true st x y h g = h
  FilesSince-if false st x y h g = g

  detect_and_stash_large_blocks-Files :
      (s : String) (st : Shelved)
      → Files
          (detect_and_stash_large_blocks shelf session cfg s st).results
          st
          (detect_and_stash_large_blocks shelf session cfg s st).shelved
  unfolding detect_and_stash_large_blocks
  detect_and_stash_large_blocks-Files s st =
      let start : Stashing = record { modified_text = s; results = []; shelved = st } in
      let coded = stash_code_blocks shelf session cfg (shelf.code_blocks s) start in
      let parted = stash_remaining shelf session cfg coded in
      let whole = stash_whole shelf session cfg parted in
      let start_h : FilesSince st start = Files-nil st in
      let whole_h : FilesSince st whole = stash_whole-FilesSince st parted (
        stash_remaining-FilesSince st coded
          (stash_code_blocks-FilesSince (shelf.code_blocks s) st start start_h)) in
      FilesSince-if (not cfg.enabled || not shelf.has_store) st start _ start_h
        (FilesSince-if (not (can_recall_stashed_content cfg)) st start whole start_h whole_h)

-- The store adds a row under an id that it does not hold and keeps the others, no id is drawn twice, and those
-- still to be drawn name no row. Then stashing a text adds rows with large texts to the store and keeps every
-- row that it held; and what is reported are those rows and no others, in their order, each with its id, the
-- kind and the tokens of the text that it holds, and how to recall it.
pub detect_and_stash_large_blocks-Filed :
    (shelf : Shelf) (session : String) (cfg : StashConfig) (s : String) (st : Shelved)
    → Adds shelf
    → Draws shelf
    → Fresh shelf st
    → Filed shelf cfg
        (detect_and_stash_large_blocks shelf session cfg s st).results
        st
        (detect_and_stash_large_blocks shelf session cfg s st).shelved
detect_and_stash_large_blocks-Filed shelf session cfg s st adds draws fresh =
    (detect_and_stash_large_blocks-Files shelf session cfg adds draws s st fresh).0
