-- ===== src/Samples/Riders.antt =====
-- A call that completes a task and leaves a note, under a gate that refuses tasks.
use inber.Prelude.{String, ◌≡◌, refl, List, [], ◌∷◌, none, some, length, str_eq, if◌then◌else◌}
use inber.Prelude.Int.{pos}
use inber.ToolOutcome.{refuse_tool_call}
use inber.Transcript.{join}
use inber.Sideband.{Sideband, SidebandData, ride_all, ride, process_parts, process_sideband}
use inber.Sideband.Riders.{InOrder, process_parts-InOrder}

abbrev sideband : Sideband (List String)
sideband = record {
  complete_tasks = some (λ indices w. ("tasks" ∷ w, none));
  save_note = some (λ note w. (note.key ∷ w, none));
  split_task = none;
  refusal = some (λ field payload. if str_eq field "sideband:done" then "observe mode" else "");
  payload_of_done = λ indices. "[0]";
  payload_of_note = λ note. "{}";
  payload_of_split = λ split. "{}";
}

abbrev fields : SidebandData
fields = record {
  done = pos 0 ∷ [];
  note = some (record { key = "api"; value = "v1" });
  split = some (record { index = pos 0; into = [] });
  ignored = [];
}

riders_run : process_sideband sideband (some fields) [] ≡ (
  "api" ∷ [],
  "[refused: done was not run — observe mode] [📝 noted: api] [split ignored: this agent has nothing to apply it to]",
)
unfolding process_sideband process_parts ride_all ride refuse_tool_call join
riders_run = refl

process_parts-InOrder_example :
    InOrder sideband fields [] (process_parts sideband fields []).0
    × (length (process_parts sideband fields []).1 ≡ 3)
process_parts-InOrder_example = process_parts-InOrder sideband fields []
