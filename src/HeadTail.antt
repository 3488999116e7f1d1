-- ===== src/HeadTail.antt =====
-- session/truncate.go: large outputs of tools, cut to a head and a tail. The numbers of tokens in a config are
-- not negative.
use Prim.Native.Char.{Char}
use Prim.Native.String
use inber.Prelude.{
  ℕ, zero, suc, ◌+◌, ◌-◌, ◌*◌, ◌/◌, String, List, [], ◌∷◌, Option, none, some, Bool, true, false,
  not, ◌&&◌, ◌||◌, str_eq, leb, ltb, ◌==◌, if◌then◌else◌,
}
use inber.Prelude.Int.{ℤ, pos, negsuc, sub_ℕ}
use inber.Transcript.{is_newline, truncate}
use inber.Texts.{truncate_tail, lower_is}
use inber.Summary.{decimal}
pub mod Apart

pub data Strategy : Type 0 where
  no_truncation head_tail automatic : Strategy

pub record TruncateConfig : Type 0 where
  pub threshold : ℕ
  pub head_tokens : ℕ
  pub tail_tokens : ℕ
  pub strategy : Strategy

pub record TruncateResult : Type 0 where
  pub truncated : Bool
  pub displayed : String
  pub saved_tokens : ℤ

unfoldable pub default_truncate_config : TruncateConfig
default_truncate_config = record {
  threshold = 1000;
  head_tokens = 500;
  tail_tokens = 200;
  strategy = automatic;
}

unfoldable pub estimate_text_tokens : String → ℕ
estimate_text_tokens s = String.len s / 4

abbrev pub last_newline_with : Char → Option String → Option String
last_newline_with c (some front) = some (String.◌∷◌ c front)
last_newline_with c none = if is_newline c then some "" else none

-- The text in front of its last line break, if it has one.
unfoldable pub before_last_newline : String → Option String
before_last_newline String.[] = none
before_last_newline (String.◌∷◌ c s) = last_newline_with c (before_last_newline s)

abbrev pub longer_front : Char → Option (String × String) → Option (String × String)
longer_front c none = none
longer_front c (some (front, rest)) = some (String.◌∷◌ c front, rest)

-- The text in front of its first line break, and the text behind it, if it has one.
unfoldable pub around_first_newline : String → Option (String × String)
around_first_newline String.[] = none
around_first_newline (String.◌∷◌ c s) =
    let rest = around_first_newline s in if is_newline c then some ("", s) else longer_front c rest

-- `head[:idx]`, where the last line break is in the second half of the budget.
abbrev pub clean_head : ℕ → String → Option String → String
clean_head chars head none = head
clean_head chars head (some front) = if ltb (chars / 2) (String.len front) then front else head

-- `tail[idx+1:]`, where the first line break is in the first half of the budget, and not its first character.
abbrev pub clean_tail : ℕ → String → Option (String × String) → String
clean_tail chars tail none = tail
clean_tail chars tail (some (front, rest)) =
    if ltb 0 (String.len front) && ltb (String.len front) (chars / 2) then rest else tail

unfoldable pub head_of : ℕ → String → String
unfolding truncate before_last_newline
head_of chars content =
    let head = truncate chars content in clean_head chars head (before_last_newline head)

unfoldable pub tail_of : ℕ → String → String
unfolding truncate_tail around_first_newline
tail_of chars content =
    let tail = truncate_tail chars content in clean_tail chars tail (around_first_newline tail)

unfoldable pub count_newlines : String → ℕ
count_newlines String.[] = 0
count_newlines (String.◌∷◌ c s) =
    let rest = count_newlines s in if is_newline c then suc rest else rest

-- `content[len(head):len(content)-len(tail)]`.
unfoldable pub omitted : String → String → String → String
omitted content head tail =
    String.slice content (String.len head) (String.len content - String.len tail)

abbrev signed : ℤ → String
signed (pos n) = decimal n
signed (negsuc n) = String.◌++◌ "-" (decimal (suc n))

abbrev truncation_message : ℤ → ℕ → String
truncation_message saved lines =
    if ltb 0 lines
    then String.◌++◌ "\n\n[... truncated " (
        String.◌++◌ (signed saved)
          (String.◌++◌ " tokens (" (String.◌++◌ (decimal lines) " lines) ...]\n\n")))
    else String.◌++◌ "\n\n[... truncated " (String.◌++◌ (signed saved) " tokens ...]\n\n")

unfoldable pub truncate_head_tail : String → ℕ → ℕ → String
unfolding head_of tail_of count_newlines omitted estimate_text_tokens
truncate_head_tail content head_tokens tail_tokens =
    let head = head_of (head_tokens * 4) content in
    let tail = tail_of (tail_tokens * 4) content in
    let saved = sub_ℕ (estimate_text_tokens content) (head_tokens + tail_tokens) in
    let lines = count_newlines (omitted content head tail) in
    if leb (String.len content) (head_tokens * 4 + tail_tokens * 4)
    then content
    else String.◌++◌ head (String.◌++◌ (truncation_message saved lines) tail)

-- `detectStrategy` always says head and tail, so every strategy but none cuts in the same way.
abbrev cut_by : Strategy → TruncateConfig → String → String
cut_by no_truncation cfg output = output
cut_by head_tail cfg output = truncate_head_tail output cfg.head_tokens cfg.tail_tokens
cut_by automatic cfg output = truncate_head_tail output cfg.head_tokens cfg.tail_tokens

unfoldable pub truncate_tool_result : TruncateConfig → String → TruncateResult
unfolding truncate_head_tail estimate_text_tokens
truncate_tool_result cfg output =
    let tokens = estimate_text_tokens output in
    let displayed = cut_by cfg.strategy cfg output in
    if leb tokens cfg.threshold
    then record { truncated = false; displayed = output; saved_tokens = pos 0 }
    else record {
      truncated = true;
      displayed = displayed;
      saved_tokens = sub_ℕ tokens (estimate_text_tokens displayed);
    }

unfoldable pub truncate_config_for_role : String → TruncateConfig
unfolding default_truncate_config lower_is
truncate_config_for_role role =
    if lower_is "main" role || lower_is "agent" role
    then record { threshold = 1000; head_tokens = 500; tail_tokens = 200; strategy = automatic }
    else if lower_is "project" role
    then record { threshold = 3000; head_tokens = 1500; tail_tokens = 500; strategy = automatic }
    else if lower_is "run" role
    then record { threshold = 5000; head_tokens = 2000; tail_tokens = 1000; strategy = head_tail }
    else default_truncate_config
