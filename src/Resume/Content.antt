-- ===== src/Resume/Content.antt =====
-- The grouping of log entries into messages (session/resume.go).
use inber.Prelude.{◌≡◌, refl, sym, ap, ◌∙◌, List, [], ◌∷◌, ◌++◌, append_assoc, append-nil}
use inber.Message.{Block, text, Message}
use inber.Repair.Content.{blocks}
use inber.Resume.{
  Entry, Kind, from_user, from_assistant, call, answer, Open, nothing, calling, answering, close,
  call_block, answer_block, prose, advance, group,
}

-- The blocks that one entry stands for.
abbrev pub entry_blocks : Kind → Entry → List Block
entry_blocks from_user e = text e.content ∷ []
entry_blocks from_assistant e = prose e
entry_blocks call e = call_block e ∷ []
entry_blocks answer e = answer_block e ∷ []

abbrev pub all_entry_blocks : List (Kind × Entry) → List Block
all_entry_blocks [] = []
all_entry_blocks ((k, e) ∷ rest) = entry_blocks k e ++ all_entry_blocks rest

abbrev held : Open → List Block
held nothing = []
held (calling bs) = bs
held (answering bs) = bs

blocks-append : (xs ys : List Message) → blocks (xs ++ ys) ≡ blocks xs ++ blocks ys
blocks-append [] ys = refl
blocks-append (x ∷ xs) ys =
    ap (◌++◌ x.content) (blocks-append xs ys) ∙ sym (append_assoc x.content (blocks xs) (blocks ys))

blocks-close : (o : Open) → blocks (close o) ≡ held o
blocks-close nothing = refl
blocks-close (calling bs) = append-nil bs
blocks-close (answering bs) = append-nil bs

blocks-advance :
    (o : Open) (k : Kind) (e : Entry)
    → blocks (advance o k e).0 ++ held (advance o k e).1 ≡ held o ++ entry_blocks k e
unfolding advance
blocks-advance nothing from_user e = refl
blocks-advance (calling bs) from_user e = simp (append_assoc, append-nil)
blocks-advance (answering bs) from_user e = simp (append_assoc, append-nil)
blocks-advance nothing from_assistant e = refl
blocks-advance (calling bs) from_assistant e = simp append-nil
blocks-advance (answering bs) from_assistant e = simp append-nil
blocks-advance nothing call e = refl
blocks-advance (calling bs) call e = refl
blocks-advance (answering bs) call e = simp append-nil
blocks-advance nothing answer e = refl
blocks-advance (calling bs) answer e = simp append-nil
blocks-advance (answering bs) answer e = refl

blocks-group :
    (o : Open) (entries : List (Kind × Entry))
    → blocks (group o entries) ≡ held o ++ all_entry_blocks entries
unfolding group
blocks-group o [] = blocks-close o ∙ sym (append-nil (held o))
blocks-group o ((k, e) ∷ rest) =
    blocks-append (advance o k e).0 (group (advance o k e).1 rest)
    ∙ ap (◌++◌ (blocks (advance o k e).0)) (blocks-group (advance o k e).1 rest)
    ∙ sym (append_assoc (blocks (advance o k e).0) (held (advance o k e).1) (all_entry_blocks rest))
    ∙ ap (λ bs. bs ++ all_entry_blocks rest) (blocks-advance o k e)
    ∙ append_assoc (held o) (entry_blocks k e) (all_entry_blocks rest)

-- Every user text, every non-empty assistant text, every tool call and every tool result of the log
-- is in the grouped messages, once, in the order of the log, and nothing else is.
pub blocks-group_nothing :
    (entries : List (Kind × Entry)) → blocks (group nothing entries) ≡ all_entry_blocks entries
blocks-group_nothing = blocks-group nothing
