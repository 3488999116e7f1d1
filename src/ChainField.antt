-- ===== src/ChainField.antt =====
-- agent/chain.go, `extractChain`: the "then" field of a tool's input, taken out and read. JSON is an
-- argument.
use inber.Prelude.{String, List, Option, none, some, str_eq, if◌then◌else◌}
use inber.ReadCache.{entry, without_key}

pub record Chained : Type 0 where
  pub tool : String
  pub input : String

-- `encoding/json`: an object and its fields, a value as text, and the `{tool, input}` of a text.
pub record ChainJson (V : Type 0) : Type 0 where
  pub unmarshal : String → Option (List (String × V))
  pub marshal_object : List (String × V) → Option String
  pub marshal : V → Option String
  pub as_string : V → Option String
  pub unmarshal_chained : String → Option Chained

pub record Extracted : Type 0 where
  pub clean_input : String
  pub chain : Option Chained
  pub dropped : String

abbrev pub without_chain : String → String → Extracted
without_chain input reason = record { clean_input = input; chain = none; dropped = reason }

-- A chain that was decoded, or the reason that it was not, or that it names no tool.
abbrev pub decoded : String → String → String → Option Chained → Extracted
decoded input unread unnamed none = without_chain input unread
decoded input unread unnamed (some c) =
    if str_eq c.tool ""
    then without_chain input unnamed
    else record { clean_input = input; chain = some c; dropped = "" }

abbrev pub as_text : String
as_text = "it arrived as text that does not read as {tool, input}"

module _ {V : Type 0} (json : ChainJson V) where
  -- The field as text, or as an object.
  abbrev pub of_field : String → Option String → Option String → Extracted
  of_field input none text = without_chain input "it could not be read back out of the tool input"
  of_field input (some raw) (some text) =
      decoded input as_text as_text (json.unmarshal_chained text)
  of_field input (some raw) none =
      decoded input "it is not an object with a tool and an input" "it names no tool"
        (json.unmarshal_chained raw)

  abbrev pub of_rewritten : String → V → Option String → Extracted
  of_rewritten raw_input field none =
      without_chain raw_input "its tool input could not be rewritten without it"
  of_rewritten raw_input field (some clean) =
      of_field clean (json.marshal field) (json.as_string field)

  abbrev pub of_fields : String → List (String × V) → Option V → Extracted
  of_fields raw_input fields none = without_chain raw_input ""
  of_fields raw_input fields (some field) =
      of_rewritten raw_input field (json.marshal_object (without_key "then" fields))

  abbrev pub of_parsed : String → Option (List (String × V)) → Extracted
  of_parsed raw_input none = without_chain raw_input ""
  of_parsed raw_input (some fields) = of_fields raw_input fields (entry "then" fields)

  unfoldable pub extract_chain : String → Extracted
  extract_chain raw_input = of_parsed raw_input (json.unmarshal raw_input)
