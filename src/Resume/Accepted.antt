-- ===== src/Resume/Accepted.antt =====
-- The conversation that `LoadMessages` of session/resume.go gives, against what the API asks.
use inber.Prelude.{
  String, ◌≡◌, ◌≢◌, refl, sym, ap, subst, inl, inr, List, [], ◌∷◌, ◌++◌, map, Option, some, false,
  All, All-append, Bool-cases,
}
use mathlib.Core.Bool.{false≢true}
use inber.Message.{Block, text, Message}
use inber.Repair.{
  interrupted_result, calls, followed_by_user, gap, insert_results, fill, fill_rest,
  repair_missing_tool_results, repair_dangling_tool_use, repair_empty_content, repair_alternation,
  is_empty_text,
}
use inber.Repair.Answered.{Answered, repair_dangling_tool_use-Answered}
use inber.Repair.Alternation.{
  Alternates, repair_alternation-Alternates, repair_alternation-Answered, Run, last, merged, padded,
  kept, alternate-Run,
}
use inber.Repair.Content.{HasContent, repair_empty_content-All}
use inber.Repair.Extension.{fill_lem}
use inber.Resume.{Entry, nothing, read_entries, group, loaded, repaired, load_messages}

abbrev NotBlank : Block → Type 0
NotBlank b = b ≢ text ""

interrupted-NotBlank : (ids : List String) → All NotBlank (map interrupted_result ids)
interrupted-NotBlank [] = tt
interrupted-NotBlank (id ∷ ids) = ((λ e. cc), interrupted-NotBlank ids)

append-ne_nil : (xs ys : List Block) → ys ≢ [] → xs ++ ys ≢ []
append-ne_nil [] ys h = h
append-ne_nil (x ∷ xs) ys h = λ e. cc

headed-HasContent :
    (m : Message) (ids : List String)
    → HasContent m
    → HasContent (record m { content = map interrupted_result ids ++ m.content })
headed-HasContent m ids (n, a) = (
  append-ne_nil (map interrupted_result ids) m.content n,
  All-append NotBlank (map interrupted_result ids) m.content (interrupted-NotBlank ids) a,
)

gap-HasContent : (ids : List String) (rest : List Message) → All HasContent (gap ids rest).0
gap-HasContent [] rest = tt
gap-HasContent (id ∷ ids) rest = elim (Bool-cases (followed_by_user rest)) [
  | inl t ↦ rw (t, gap) tt
  | inr n ↦ rw (n, gap) (((λ e. cc), interrupted-NotBlank (id ∷ ids)), tt)
]

insert_results-HasContent :
    (ms : List Message) → All HasContent ms → All HasContent (insert_results ms).0
unfolding insert_results
insert_results-HasContent [] h = tt
insert_results-HasContent (m ∷ rest) (h, hs) = (
  h,
  All-append HasContent (gap (calls m) rest).0 (insert_results rest).0
      (gap-HasContent (calls m) rest) (insert_results-HasContent rest hs),
)

fill_rest-HasContent :
    (m : Message) (rest : List Message) → All HasContent rest → All HasContent (fill_rest m rest).0
unfolding fill_rest
fill_rest-HasContent m [] h = tt
fill_rest-HasContent m (next ∷ rest) (h, hs) = (
  subst HasContent (sym (fill_lem m next).1) (headed-HasContent next (fill_lem m next).0 h),
  fill_rest-HasContent (fill m next).0 rest hs,
)

missing-HasContent :
    (ms : List Message) → All HasContent ms → All HasContent (repair_missing_tool_results ms).0
unfolding repair_missing_tool_results
missing-HasContent [] h = tt
missing-HasContent (m ∷ rest) (h, hs) = (h, fill_rest-HasContent m rest hs)

dangling-HasContent :
    (ms : List Message) → All HasContent ms → All HasContent (repair_dangling_tool_use ms).0
unfolding repair_dangling_tool_use
dangling-HasContent ms h = missing-HasContent _ (insert_results-HasContent ms h)

continued-NotBlank : text "[continued]" ≢ text ""
continued-NotBlank e = false≢true (ap is_empty_text e)

left-ne_nil : (xs ys : List Block) → xs ≢ [] → xs ++ ys ≢ []
left-ne_nil [] ys h = absurd (h refl)
left-ne_nil (x ∷ xs) ys h = λ e. cc

Run-HasContent :
    {p : Message} {rest out : List Message}
    → Run p rest out
    → All HasContent (p ∷ rest)
    → All HasContent out
Run-HasContent (last p) h = h
Run-HasContent (merged {p} {c} u v r) ((pn, pa), ((cn, ca), hs)) =
    Run-HasContent r
      ((left-ne_nil p.content c.content pn, All-append NotBlank p.content c.content pa ca), hs)
Run-HasContent (padded u v r) (h, hs) =
    (h, (((λ e. cc), (continued-NotBlank, tt)), Run-HasContent r hs))
Run-HasContent (kept d r) (h, hs) = (h, Run-HasContent r hs)

alternation-HasContent :
    (ms : List Message) → All HasContent ms → All HasContent (repair_alternation ms)
unfolding repair_alternation
alternation-HasContent [] h = tt
alternation-HasContent (m ∷ rest) h = Run-HasContent (alternate-Run m rest) h

-- What the repairs are to establish for the API.
pub record Accepted (ms : List Message) : Type 0 where
  pub answered : Answered ms
  pub alternates : Alternates ms
  pub has_content : All HasContent ms

repaired-Accepted : (ms : List Message) → Accepted (repaired ms)
repaired-Accepted ms = record {
  answered =
      repair_alternation-Answered (repair_dangling_tool_use (repair_empty_content ms)).0
        (repair_dangling_tool_use-Answered (repair_empty_content ms));
  alternates = repair_alternation-Alternates (repair_dangling_tool_use (repair_empty_content ms)).0;
  has_content =
      alternation-HasContent (repair_dangling_tool_use (repair_empty_content ms)).0
        (dangling-HasContent (repair_empty_content ms) (repair_empty_content-All ms));
}

-- Whatever lines an unbroken log holds, it loads, and in the conversation each tool call is answered
-- by the next message, roles alternate, and no message or text block is empty.
pub load_messages-Accepted :
    (decode : String → Option Entry) (lines : List String)
    → (ms : List Message) × (load_messages decode (some (record { lines = lines; broken = false }))
        ≡ loaded ms)
      × Accepted ms
unfolding load_messages
load_messages-Accepted decode lines = (
  repaired (group nothing (read_entries decode lines)),
  refl,
  repaired-Accepted (group nothing (read_entries decode lines)),
)
