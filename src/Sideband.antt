-- ===== src/Sideband.antt =====
-- agent/sideband.go, `processSideband`: the done, note and split fields that ride on a tool call. The gate
-- and the callbacks are arguments, and so is the JSON that the gate is shown.
use Prim.Native.String
use inber.Prelude.{
  ℕ, String, List, [], ◌∷◌, ◌++◌, Option, none, some, Bool, true, false, length, str_eq,
  if◌then◌else◌, map,
}
use inber.Prelude.Int.{ℤ}
use inber.Summary.{decimal}
use inber.Transcript.{join}
use inber.ToolOutcome.{refuse_tool_call}
pub mod Riders

pub record NoteData : Type 0 where
  pub key : String
  pub value : String

pub record SplitData : Type 0 where
  pub index : ℤ
  pub into : List String

pub record SidebandData : Type 0 where
  pub done : List ℤ
  pub note : Option NoteData
  pub split : Option SplitData
  pub ignored : List String

-- A callback changes the world and may fail.
abbrev pub Callback : Type 0 → Type 0
Callback W = W → W × Option String

-- The callbacks that there are; the gate; `sidebandPayload`.
pub record Sideband (W : Type 0) : Type 0 where
  pub complete_tasks : Option (List ℤ → Callback W)
  pub save_note : Option (NoteData → Callback W)
  pub split_task : Option (SplitData → Callback W)
  pub refusal : Option (String → String → String)
  pub payload_of_done : List ℤ → String
  pub payload_of_note : NoteData → String
  pub payload_of_split : SplitData → String

abbrev pub sideband_gate_name : String → String
sideband_gate_name field = String.◌++◌ "sideband:" field

abbrev pub bracketed : String → String
bracketed s = String.◌++◌ "[" (String.◌++◌ s "]")

-- One field that was written: its name, what the gate is shown, what carries it out if anything does, and
-- what is said of an error and of a success.
pub record Rider (W : Type 0) : Type 0 where
  pub field : String
  pub payload : String
  pub apply : Option (Callback W)
  pub failure : String
  pub success : String

module _ {W : Type 0} (sideband : Sideband W) where
  -- The gate's reason against a field, "" if it has none.
  abbrev pub reason_against : String → String → String
  reason_against field payload = elim sideband.refusal [
    | none ↦ ""
    | some gate ↦ gate (sideband_gate_name field) payload
  ]

  abbrev pub told : Rider W → W × Option String → W × List String
  told r (w, none) = (w, r.success ∷ [])
  told r (w, some e) = (w, bracketed (String.◌++◌ r.failure (String.◌++◌ " error: " e)) ∷ [])

  abbrev pub applied : Rider W → Option (Callback W) → W → W × List String
  applied r none w =
      (w, bracketed (String.◌++◌ r.field " ignored: this agent has nothing to apply it to") ∷ [])
  applied r (some callback) w = told r (callback w)

  -- A field that was written: the world after it, and the part of the summary that it adds.
  unfoldable pub ride : Rider W → W → W × List String
  unfolding refuse_tool_call
  ride r w =
      let reason = reason_against r.field r.payload in
      if str_eq reason ""
      then applied r r.apply w
      else (w, bracketed (refuse_tool_call r.field reason) ∷ [])

  -- The fields that were written, in the order in which they are carried out.
  abbrev pub with_arg : {A : Type 0} → Option (A → Callback W) → A → Option (Callback W)
  with_arg none a = none
  with_arg (some f) a = some (f a)

  abbrev pub done_riders : List ℤ → List (Rider W)
  done_riders [] = []
  done_riders (i ∷ is) =
      record {
        field = "done";
        payload = sideband.payload_of_done (i ∷ is);
        apply = with_arg sideband.complete_tasks (i ∷ is);
        failure = "task";
        success =
            bracketed
              (String.◌++◌ "✓ completed " (String.◌++◌ (decimal (length (i ∷ is))) " task(s)"));
      }
      ∷ []

  abbrev pub note_riders : Option NoteData → List (Rider W)
  note_riders none = []
  note_riders (some note) =
      record {
        field = "note";
        payload = sideband.payload_of_note note;
        apply = with_arg sideband.save_note note;
        failure = "note";
        success = bracketed (String.◌++◌ "📝 noted: " note.key);
      }
      ∷ []

  abbrev pub split_riders : Option SplitData → List (Rider W)
  split_riders none = []
  split_riders (some split) =
      record {
        field = "split";
        payload = sideband.payload_of_split split;
        apply = with_arg sideband.split_task split;
        failure = "split";
        success =
            bracketed
              (String.◌++◌ "📋 split into " (String.◌++◌ (decimal (length split.into)) " subtasks"));
      }
      ∷ []

  abbrev pub riders_of : SidebandData → List (Rider W)
  riders_of sb = done_riders sb.done ++ note_riders sb.note ++ split_riders sb.split

  unfoldable pub ride_all : List (Rider W) → W → W × List String
  unfolding ride
  ride_all [] w = (w, [])
  ride_all (r ∷ rs) w =
      let first = ride r w in let rest = ride_all rs first.0 in (rest.0, first.1 ++ rest.1)

  -- The world after the fields, and the parts of the summary.
  unfoldable pub process_parts : SidebandData → W → W × List String
  unfolding ride_all
  process_parts sb w =
      let all = ride_all (riders_of sb) w in (all.0, map bracketed sb.ignored ++ all.1)

  unfoldable pub process_sideband : Option SidebandData → W → W × String
  unfolding process_parts
  process_sideband none w = (w, "")
  process_sideband (some sb) w = let parts = process_parts sb w in (parts.0, join " " parts.1)
