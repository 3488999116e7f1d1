-- ===== src/Samples/Stubs.antt =====
-- File references that later ones make redundant.
use inber.Prelude.{
  ◌≤◌, ℕ, String, ◌≡◌, refl, List, [], ◌∷◌, Option, none, some, true, false, get_elem?, contains,
  All, map, ap, sym, ◌∙◌, zero, suc, eq_iff,
}
use mathlib.Core.Bool.{true≢false}
use mathlib.Core.Option.{none-ne-some}
use inber.ReadCache.{entry, without_key}
use inber.Dedup.{
  ToolRef, collect_refs, stub_ids, is_whole, kind_for, stub_for, superseded_by, latest_from,
  set_all, tool_use_file_paths, is_file_op, content_refs,
}
use inber.Dedup.Superseded.{Distinct, Later, stub_ids-IsSuperseded, whole-spared}
use inber.Samples.Caches.{json}
use inber.Samples.Managed.{read_call, edit_call}

abbrev refs : List ToolRef
refs =
    record {
      paths = "a.go" ∷ [];
      tool_name = "read_files";
      tool_id = "r1";
      named_line_range = false;
      changes_file = false;
    }
    ∷ record {
      paths = "a.go" ∷ "b.go" ∷ [];
      tool_name = "edit_files";
      tool_id = "e1";
      named_line_range = false;
      changes_file = true;
    }
    ∷ []

collect_run :
    map (λ r. r.paths) (collect_refs json (read_call "r1" "a.go" ∷ edit_call "e1" "b.go" ∷ []))
    ≡ ("a.go" ∷ []) ∷ ("b.go" ∷ []) ∷ []
unfolding collect_refs content_refs tool_use_file_paths is_file_op entry
collect_run = refl

stub_ids-IsSuperseded_example :
    (i : ℕ) × (r : ToolRef) × (get_elem? refs i ≡ some r)
    × (r.tool_id ≡ "r1")
    × All (Later (kind_for r) refs i) r.paths
unfolding stub_ids stub_for superseded_by latest_from set_all entry without_key
stub_ids-IsSuperseded_example =
    stub_ids-IsSuperseded refs "r1" "[a.go superseded — see later edit_files]" refl

abbrev id_at : Option ToolRef → String
id_at none = ""
id_at (some r) = r.tool_id

other_id : ◌≡◌ {A = String} "r1" "e1" → ⊥
other_id e = true≢false (sym ((eq_iff "r1" "e1").1 e))

refs-Distinct : Distinct refs
refs-Distinct zero zero q r a b e = refl
refs-Distinct zero (suc zero) q r a b e = absurd (other_id (ap id_at a ∙ e ∙ ap id_at (sym b)))
refs-Distinct (suc zero) zero q r a b e = absurd (other_id (ap id_at b ∙ sym e ∙ ap id_at (sym a)))
refs-Distinct (suc zero) (suc zero) q r a b e = refl
refs-Distinct zero (suc (suc j)) q r a b e = absurd (none-ne-some r b)
refs-Distinct (suc zero) (suc (suc j)) q r a b e = absurd (none-ne-some r b)
refs-Distinct (suc (suc i)) j q r a b e = absurd (none-ne-some q a)

whole-spared_example :
    (k : ℕ) × (r : ToolRef) × (get_elem? refs k ≡ some r)
    × (is_whole r ≡ true)
    × (contains r.paths "a.go" ≡ true)
    × (entry r.tool_id (stub_ids refs 0 refs []) ≡ none)
    × (0 ≤ k)
whole-spared_example = whole-spared refs "a.go" 0 refs-Distinct (_, refl, refl, refl)
