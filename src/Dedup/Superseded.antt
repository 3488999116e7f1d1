-- ===== src/Dedup/Superseded.antt =====
-- conversation/dedup_files.go: which references `DeduplicateFileRefs` takes for redundant.
use inber.Prelude.{
  ◌≤◌, String, ℕ, suc, ◌<◌, ◌≡◌, refl, sym, ap, ◌∙◌, inl, inr, List, [], ◌∷◌, Bool, true, false,
  arith, if◌then◌else◌, Bool-cases, Option-cases, Option, none, some, str_eq, eq_iff, contains, leb,
  get_elem?, drop, All, not,
}
use mathlib.Core.Option.{some_inj, none-ne-some}
use mathlib.Core.Path.{ap₂}
use mathlib.Core.Bool.{true≢false}
use inber.ReadCache.{entry, without_key}
use inber.Dedup.{
  ToolRef, is_whole, is_changing, latest_from, superseded_by, kind_for, latest_for, later_name,
  both_covered, stub_with, stub_for, stub_ids, with_stub,
}
use inber.Dedup.Latest.{
  entry-written, drop-get_elem?, Names, Holds, latest_from-Holds, no_entries, latest-Names,
}

module _ (takes : ToolRef → Bool) (refs : List ToolRef) where
  -- A reference behind the one numbered `i` is of the kind, and names the path.
  abbrev pub Later : ℕ → String → Type 0
  Later i p = (k : ℕ) × (i < k) × Names takes refs p k

  covered-Later :
      (latest : List (String × ℕ)) (i : ℕ) (p : String) (found : Option ℕ) (paths : List String)
      (rest : Option (List String)) (names : List String)
      → Holds takes refs latest
      → entry p latest ≡ found
      → ((more : List String) → rest ≡ some more → All (Later i) paths)
      → both_covered (later_name refs i found) rest ≡ some names
      → All (Later i) (p ∷ paths)
  covered-Later latest i p none paths rest names h f ih e = absurd (none-ne-some names e)
  covered-Later latest i p (some k) paths rest names h f ih e = elim (Bool-cases (leb k i)) [
    | inl before ↦ absurd (none-ne-some names (rw before at e))
    | inr behind ↦ ((k, ground arith, h p k f), behind_all _ rest ih (rw behind at e))
  ]
    where
      behind_all :
          (name : String) (rest : Option (List String))
          → ((more : List String) → rest ≡ some more → All (Later i) paths)
          → both_covered (some name) rest ≡ some names
          → All (Later i) paths
      behind_all name none ih e = absurd (none-ne-some names e)
      behind_all name (some more) ih e = ih more refl

  superseded_by-Later :
      (latest : List (String × ℕ)) (i : ℕ) (paths names : List String)
      → Holds takes refs latest
      → superseded_by refs latest i paths ≡ some names
      → All (Later i) paths
  unfolding superseded_by
  superseded_by-Later latest i [] names h e = tt
  superseded_by-Later latest i (p ∷ paths) names h e =
      covered-Later latest i p (entry p latest) paths (superseded_by refs latest i paths) names h
        refl (λ more m. superseded_by-Later latest i paths more h m) e

  -- A reference that an entry stands for is not superseded.
  superseded_by-none :
      (latest : List (String × ℕ)) (k : ℕ) (paths : List String) (p : String)
      → entry p latest ≡ some k
      → contains paths p ≡ true
      → superseded_by refs latest k paths ≡ none
  unfolding superseded_by
  superseded_by-none latest k [] p f c = absurd (true≢false (sym c))
  superseded_by-none latest k (q ∷ paths) p f c = elim (Bool-cases (str_eq q p)) [
    | inl same ↦
        ap (λ o. both_covered (later_name refs k o) (superseded_by refs latest k paths))
          (ap (λ s. entry s latest) ((eq_iff q p).0 same) ∙ f)
        ∙ not_behind (superseded_by refs latest k paths)
    | inr other ↦
        ap (both_covered (later_name refs k (entry q latest)))
          (superseded_by-none latest k paths p f (rw other at c))
        ∙ none_covered (later_name refs k (entry q latest))
  ]
    where
      not_behind :
          (rest : Option (List String)) → both_covered (later_name refs k (some k)) rest ≡ none
      not_behind rest = ground arith

      none_covered : (name : Option String) → both_covered name none ≡ none
      none_covered none = refl
      none_covered (some name) = refl

-- The paths of a reference that gets a stub are each named by a later reference that named no lines,
-- and that changes the file if this one named lines.
stub_for-Later :
    (refs : List ToolRef) (i : ℕ) (r : ToolRef) (stub : String)
    → stub_for refs i r ≡ some stub
    → All (Later (kind_for r) refs i) r.paths
unfolding stub_for
stub_for-Later refs i r stub e = go (superseded_by refs (latest_for refs r) i r.paths) refl e
  where
    go :
        (names : Option (List String))
        → superseded_by refs (latest_for refs r) i r.paths ≡ names
        → stub_with r.paths names ≡ some stub
        → All (Later (kind_for r) refs i) r.paths
    go none f e = absurd (none-ne-some stub e)
    go (some names) f e =
        superseded_by-Later (kind_for r) refs (latest_for refs r) i r.paths names
          (latest_from-Holds (kind_for r) refs 0 refs [] refl (no_entries (kind_for r) refs)) f

-- The stubs of a map are those of references with the id.
abbrev Stubs : List ToolRef → String → Type 0
Stubs refs id =
    (i : ℕ) × (r : ToolRef) × (get_elem? refs i ≡ some r)
    × (r.tool_id ≡ id)
    × (stub : String) × (stub_for refs i r ≡ some stub)

abbrev HoldsStubs : List ToolRef → List (String × String) → Type 0
HoldsStubs refs stubs = (id stub : String) → entry id stubs ≡ some stub → Stubs refs id

with_stub-HoldsStubs :
    (refs : List ToolRef) (i : ℕ) (r : ToolRef) (found : Option String)
    (stubs : List (String × String))
    → get_elem? refs i ≡ some r
    → stub_for refs i r ≡ found
    → HoldsStubs refs stubs
    → HoldsStubs refs (with_stub r found stubs)
with_stub-HoldsStubs refs i r none stubs at f h id stub e = h id stub e
with_stub-HoldsStubs refs i r (some s) stubs at f h id stub e =
    elim (Bool-cases (str_eq r.tool_id id)) [
      | inl same ↦ (i, r, at, (eq_iff r.tool_id id).0 same, s, f)
      | inr other ↦
          let written : entry id ((r.tool_id, s) ∷ without_key r.tool_id stubs)
              ≡ (if str_eq r.tool_id id then some s else entry id stubs) =
            entry-written id r.tool_id s stubs in
          h id stub (sym (rw other at written) ∙ e)
    ]

stub_ids-HoldsStubs :
    (refs : List ToolRef) (i : ℕ) (rs : List ToolRef) (stubs : List (String × String))
    → drop i refs ≡ rs
    → HoldsStubs refs stubs
    → HoldsStubs refs (stub_ids refs i rs stubs)
unfolding stub_ids
stub_ids-HoldsStubs refs i [] stubs d h = h
stub_ids-HoldsStubs refs i (r ∷ rs) stubs d h =
    let (at, rest) = drop-get_elem? i refs r rs d in
    stub_ids-HoldsStubs refs (suc i) rs (with_stub r (stub_for refs i r) stubs) rest
      (with_stub-HoldsStubs refs i r (stub_for refs i r) stubs at refl h)

no_stubs : (refs : List ToolRef) → HoldsStubs refs []
unfolding entry
no_stubs refs id stub e = absurd (none-ne-some stub e)

-- An id gets a stub only if a reference with that id is superseded.
pub stub_ids-IsSuperseded :
    (refs : List ToolRef) (id stub : String)
    → entry id (stub_ids refs 0 refs []) ≡ some stub
    → (i : ℕ) × (r : ToolRef) × (get_elem? refs i ≡ some r)
      × (r.tool_id ≡ id)
      × All (Later (kind_for r) refs i) r.paths
stub_ids-IsSuperseded refs id stub e =
    let (i, r, at, same, s, f) =
      stub_ids-HoldsStubs refs 0 refs [] refl (no_stubs refs) id stub e in
    (i, r, at, same, stub_for-Later refs i r s f)

-- No two references are of calls with one id.
abbrev pub Distinct : List ToolRef → Type 0
Distinct refs =
    (i j : ℕ) (q r : ToolRef)
    → get_elem? refs i ≡ some q
    → get_elem? refs j ≡ some r
    → q.tool_id ≡ r.tool_id
    → i ≡ j

kind_for-whole : (r : ToolRef) → is_whole r ≡ true → kind_for r ≡ is_whole
kind_for-whole r w = go r.named_line_range w
  where
    go : (lines : Bool) → not lines ≡ true → (if lines then is_changing else is_whole) ≡ is_whole
    go true e = absurd (true≢false (sym e))
    go false e = refl

stub_for-none :
    (refs : List ToolRef) (k : ℕ) (r : ToolRef) (p : String)
    → is_whole r ≡ true
    → contains r.paths p ≡ true
    → entry p (latest_from is_whole 0 refs []) ≡ some k
    → stub_for refs k r ≡ none
unfolding stub_for
stub_for-none refs k r p w c e = ap (stub_with r.paths) (
    superseded_by-none (kind_for r) refs (latest_for refs r) k r.paths p
      (ap (λ f. entry p (latest_from f 0 refs [])) (kind_for-whole r w) ∙ e) c)

-- If no two references are of calls with one id, then for each call that reads or writes a file without naming
-- lines there is such a call of the file, it or a later one, whose id gets no stub.
pub whole-spared :
    (refs : List ToolRef) (p : String) (j : ℕ)
    → Distinct refs
    → Names is_whole refs p j
    → (k : ℕ) × (r : ToolRef) × (get_elem? refs k ≡ some r)
      × (is_whole r ≡ true)
      × (contains r.paths p ≡ true)
      × (entry r.tool_id (stub_ids refs 0 refs []) ≡ none)
      × (j ≤ k)
whole-spared refs p j distinct h =
    let (k, e, (r, at, w, c), later) = latest-Names is_whole refs p j h in
    (
      k,
      r,
      at,
      w,
      c,
      elim (Option-cases (entry r.tool_id (stub_ids refs 0 refs []))) [
        | inl n ↦ n
        | inr (stub, f) ↦
            let (i, q, at_q, same, s, g) =
              stub_ids-HoldsStubs refs 0 refs [] refl (no_stubs refs) r.tool_id stub f in
            let i_k = distinct i k q r at_q at same in
            let q_r : q ≡ r = some_inj.0 (sym at_q ∙ ap (get_elem? refs) i_k ∙ at) in
            absurd (
              none-ne-some s (
                sym (stub_for-none refs k r p w c e) ∙ ap₂ (stub_for refs) (sym i_k) (sym q_r) ∙ g))
      ],
      later,
    )
