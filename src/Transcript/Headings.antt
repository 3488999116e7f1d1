-- ===== src/Transcript/Headings.antt =====
-- The labels of a rendered transcript (conversation/message_utils.go, `messagesToText`).
use Prim.Native.Char.{Char, code}
use Prim.Native.String
use package.text.Mathlib.TextLemmas.{nil-append, cons-append}
use mathlib.Core.Path.{ap₂}
use inber.Prelude.{
  String, ◌≡◌, refl, sym, ap, ◌∙◌, subst, List, [], ◌∷◌, ◌++◌, map, false, All, All-append,
  if◌then◌else◌, ◌==◌, append_assoc,
}
use inber.Message.{
  Role, user, assistant, Block, text, tool_use, tool_result, thinking, redacted_thinking, other,
  Message,
}
use inber.Transcript.{
  split_lines, join, indented, replace_breaks, transcript_entry, block_entry, block_entries,
  transcript_entries, rendered, messages_to_text,
}
use inber.Transcript.Breaks.{IsPlain, split_breaks, split_breaks_of_IsPlain, join-rendered-IsPlain}
use inber.Transcript.Lines.{
  OneLine, split_lines-nonempty, split_lines-append, split_lines_of_OneLine, split_lines-OneLine,
  split_lines-join,
}

-- A line that is not blank and does not begin with a space.
abbrev pub heading : String → List String
heading String.[] = []
heading (String.◌∷◌ c s) = if code c == 32 then [] else String.◌∷◌ c s ∷ []

abbrev pub headings : List String → List String
headings [] = []
headings (line ∷ lines) = heading line ++ headings lines

abbrev pub titled : String × String → String
titled e = String.◌++◌ e.0 ":"

headings-append : (xs ys : List String) → headings (xs ++ ys) ≡ headings xs ++ headings ys
headings-append [] ys = refl
headings-append (x ∷ xs) ys =
    ap (◌++◌ (heading x)) (headings-append xs ys)
    ∙ sym (append_assoc (heading x) (headings xs) (headings ys))

headings-indented : (lines : List String) → headings (map indented lines) ≡ []
headings-indented [] = refl
headings-indented (line ∷ lines) = headings-indented lines

indented-OneLine : (lines : List String) → All OneLine lines → All OneLine (map indented lines)
indented-OneLine [] h = tt
indented-OneLine (line ∷ lines) (h, hs) = ((refl, (refl, h)), indented-OneLine lines hs)

-- What a label is.
abbrev IsLabel : String × String → Type 0
IsLabel e = OneLine e.0 × IsPlain e.0 × (heading (titled e) ≡ titled e ∷ [])

block_entry-IsLabel : (role : Role) (b : Block) → All IsLabel (block_entry role b)
unfolding block_entry
block_entry-IsLabel user (text s) =
    (((refl, (refl, (refl, (refl, tt)))), (refl, (refl, (refl, (refl, tt)))), refl), tt)
block_entry-IsLabel assistant (text s) = (
  (
    (refl, (refl, (refl, (refl, (refl, (refl, (refl, (refl, (refl, tt))))))))),
    (refl, (refl, (refl, (refl, (refl, (refl, (refl, (refl, (refl, tt))))))))),
    refl,
  ),
  tt,
)
block_entry-IsLabel user (tool_use u) =
    (((refl, (refl, (refl, (refl, tt)))), (refl, (refl, (refl, (refl, tt)))), refl), tt)
block_entry-IsLabel assistant (tool_use u) = (
  (
    (refl, (refl, (refl, (refl, (refl, (refl, (refl, (refl, (refl, tt))))))))),
    (refl, (refl, (refl, (refl, (refl, (refl, (refl, (refl, (refl, tt))))))))),
    refl,
  ),
  tt,
)
block_entry-IsLabel role (tool_result r) =
    (((refl, (refl, (refl, (refl, tt)))), (refl, (refl, (refl, (refl, tt)))), refl), tt)
block_entry-IsLabel role (thinking s) = tt
block_entry-IsLabel role (redacted_thinking s) = tt
block_entry-IsLabel role (other s) = tt

block_entries-IsLabel : (role : Role) (bs : List Block) → All IsLabel (block_entries role bs)
block_entries-IsLabel role [] = tt
block_entries-IsLabel role (b ∷ bs) =
    All-append IsLabel (block_entry role b) (block_entries role bs) (block_entry-IsLabel role b)
      (block_entries-IsLabel role bs)

transcript_entries-IsLabel : (ms : List Message) → All IsLabel (transcript_entries ms)
unfolding transcript_entries
transcript_entries-IsLabel [] = tt
transcript_entries-IsLabel (m ∷ ms) =
    All-append IsLabel (block_entries m.role m.content) (transcript_entries ms)
      (block_entries-IsLabel m.role m.content) (transcript_entries-IsLabel ms)

indented-lines :
    (s : String)
    → split_lines (join "\n" (map indented (split_lines s))) ≡ map indented (split_lines s)
indented-lines s =
    let (line, lines, e) = split_lines-nonempty s in
    subst (λ ls. split_lines (join "\n" (map indented ls)) ≡ map indented ls) (sym e)
      (split_lines-join (indented line) (map indented lines)
        (indented-OneLine (line ∷ lines) (subst (All OneLine) e (split_lines-OneLine s))))

OneLine-append_colon : (label : String) → OneLine label → OneLine (String.◌++◌ label ":")
OneLine-append_colon String.[] h = (refl, tt)
OneLine-append_colon (String.◌∷◌ c s) (n, h) =
    subst OneLine (sym (cons-append c s ":")) (n, OneLine-append_colon s h)

colon-append :
    (label rest : String)
    → String.◌++◌ label (String.◌∷◌ ":" rest) ≡ String.◌++◌ (String.◌++◌ label ":") rest
colon-append String.[] rest =
    nil-append (String.◌∷◌ ":" rest)
    ∙ sym (cons-append ":" "" rest ∙ ap (String.◌∷◌ ":") (nil-append rest))
colon-append (String.◌∷◌ c s) rest =
    cons-append c s (String.◌∷◌ ":" rest)
    ∙ ap (String.◌∷◌ c) (colon-append s rest)
    ∙ sym (
        ap (λ t. String.◌++◌ t rest) (cons-append c s ":") ∙ cons-append c (String.◌++◌ s ":") rest)

-- Two characters in front of a text.
pair-append :
    (c d : Char) (s : String)
    → String.◌++◌ (String.◌∷◌ c (String.◌∷◌ d "")) s ≡ String.◌∷◌ c (String.◌∷◌ d s)
pair-append c d s =
    cons-append c (String.◌∷◌ d "") s
    ∙ ap (String.◌∷◌ c) (cons-append d "" s ∙ ap (String.◌∷◌ d) (nil-append s))

-- The lines of an entry: its label with a colon, then indented lines.
rendered-lines :
    (label content : String)
    → OneLine label
    → split_lines (transcript_entry label content)
      ≡ String.◌++◌ label ":" ∷ map indented (split_lines (replace_breaks false content))
unfolding transcript_entry
rendered-lines label content h =
    let body = map indented (split_lines (replace_breaks false content)) in
    ap (λ rest. split_lines (String.◌++◌ label rest)) (pair-append ":" "\n" (join "\n" body))
    ∙ ap split_lines (colon-append label (String.◌∷◌ "\n" (join "\n" body)))
    ∙ split_lines-append (String.◌++◌ label ":") (join "\n" body)
    ∙ ap₂ ◌++◌ (split_lines_of_OneLine (String.◌++◌ label ":") (OneLine-append_colon label h))
        (indented-lines (replace_breaks false content))

headings-rendered :
    (e : String × String) → IsLabel e → headings (split_lines (rendered e)) ≡ titled e ∷ []
headings-rendered e (one, plain, h) =
    ap headings (rendered-lines e.0 e.1 one)
    ∙ ap (λ first. first ++ headings (map indented (split_lines (replace_breaks false e.1)))) h
    ∙ ap (λ rest. titled e ∷ rest) (headings-indented (split_lines (replace_breaks false e.1)))

-- A text joined by blank lines shows the headings of its parts.
headings-join :
    (e : String × String) (es : List (String × String))
    → All IsLabel (e ∷ es)
    → headings (split_lines (join "\n\n" (map rendered (e ∷ es)))) ≡ map titled (e ∷ es)
unfolding join split_lines
headings-join e [] (h, _) = headings-rendered e h
headings-join e (next ∷ es) (h, hs) =
    let more = join "\n\n" (map rendered (next ∷ es)) in
    ap (λ rest. headings (split_lines (String.◌++◌ (rendered e) rest))) (pair-append "\n" "\n" more)
    ∙ ap headings (split_lines-append (rendered e) (String.◌∷◌ "\n" more))
    ∙ headings-append (split_lines (rendered e)) ("" ∷ split_lines more)
    ∙ ap₂ ◌++◌ (headings-rendered e h) (headings-join next es hs)

headings-entries :
    (es : List (String × String))
    → All IsLabel es
    → headings (split_lines (join "\n\n" (map rendered es))) ≡ map titled es
unfolding split_lines join
headings-entries [] h = refl
headings-entries (e ∷ es) h = headings-join e es h

IsLabel-IsPlain : (es : List (String × String)) → All IsLabel es → All (λ e. IsPlain e.0) es
IsLabel-IsPlain [] h = tt
IsLabel-IsPlain (e ∷ es) ((one, plain, h), hs) = (plain, IsLabel-IsPlain es hs)

-- Of the lines of a transcript, split at whatever is taken as a line break, those that are neither blank
-- nor indented are, in order, the labels of its entries: no content of a message, with whatever line
-- breaks, can look like the start of another turn.
pub headings-messages_to_text :
    (ms : List Message)
    → headings (split_breaks (messages_to_text ms)) ≡ map titled (transcript_entries ms)
unfolding messages_to_text
headings-messages_to_text ms =
    ap headings (
      split_breaks_of_IsPlain _ (
        join-rendered-IsPlain (transcript_entries ms)
          (IsLabel-IsPlain (transcript_entries ms) (transcript_entries-IsLabel ms))))
    ∙ headings-entries (transcript_entries ms) (transcript_entries-IsLabel ms)
