-- ===== src/Repair/Counting.antt =====
-- The repair count that conversation/repair.go reports, against the results that it adds.
use inber.Prelude.{
  String, ℕ, ◌+◌, ◌≡◌, refl, ap, List, [], ◌∷◌, ◌++◌, map, length, arith, without, append-nil,
}
use inber.Message.{Block, Message, call_ids, answer_ids}
use inber.Repair.{
  interrupted_result, calls, gap, insert_results, fill, fill_rest, repair_missing_tool_results,
  repair_dangling_tool_use,
}

-- The number of tool results in a transcript.
abbrev pub result_count : List Message → ℕ
result_count [] = 0
result_count (m ∷ ms) = length (answer_ids m.content) + result_count ms

result_count-append :
    (xs ys : List Message) → result_count (xs ++ ys) ≡ result_count xs + result_count ys
result_count-append [] ys = omega arith
result_count-append (x ∷ xs) ys = omega (arith, result_count-append xs ys)

length-interrupted :
    (ids : List String) (bs : List Block)
    → length (answer_ids (map interrupted_result ids ++ bs)) ≡ length ids + length (answer_ids bs)
length-interrupted [] bs = omega arith
length-interrupted (id ∷ ids) bs = omega (arith, length-interrupted ids bs)

gap_count :
    (ids : List String) (rest : List Message) → result_count (gap ids rest).0 ≡ (gap ids rest).1
gap_count [] rest = refl
gap_count (id ∷ ids) rest = ground (
  arith,
  length-interrupted (id ∷ ids) [],
  ap (λ bs. length (answer_ids bs)) (append-nil (map interrupted_result (id ∷ ids))),
)

insert_results_count :
    (ms : List Message)
    → result_count (insert_results ms).0 ≡ result_count ms + (insert_results ms).1
unfolding insert_results
insert_results_count [] = refl
insert_results_count (m ∷ rest) = omega (
  arith,
  result_count-append (gap (calls m) rest).0 (insert_results rest).0,
  gap_count (calls m) rest,
  insert_results_count rest,
)

fill_count :
    (m next : Message)
    → length (answer_ids (fill m next).0.content)
      ≡ length (answer_ids next.content) + (fill m next).1
unfolding fill
fill_count m next = ground (
  arith,
  length-interrupted (without (answer_ids next.content) (call_ids m.content)) next.content,
)

fill_rest_count :
    (m : Message) (rest : List Message)
    → result_count (fill_rest m rest).0 ≡ result_count rest + (fill_rest m rest).1
unfolding fill_rest
fill_rest_count m [] = refl
fill_rest_count m (next ∷ rest) =
    omega (arith, fill_count m next, fill_rest_count (fill m next).0 rest)

repair_missing_tool_results_count :
    (ms : List Message)
    → result_count (repair_missing_tool_results ms).0
      ≡ result_count ms + (repair_missing_tool_results ms).1
unfolding repair_missing_tool_results
repair_missing_tool_results_count [] = refl
repair_missing_tool_results_count (m ∷ rest) = omega (arith, fill_rest_count m rest)

-- The number of repairs reported is the number of tool results added.
pub repair_dangling_tool_use_count :
    (ms : List Message)
    → result_count (repair_dangling_tool_use ms).0
      ≡ result_count ms + (repair_dangling_tool_use ms).1
unfolding repair_dangling_tool_use
repair_dangling_tool_use_count ms =
    omega (arith, insert_results_count ms, repair_missing_tool_results_count (insert_results ms).0)
