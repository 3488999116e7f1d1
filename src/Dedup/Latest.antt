-- ===== src/Dedup/Latest.antt =====
-- conversation/dedup_files.go: the maps from paths to the latest references.
use inber.Prelude.{
  ◌+◌, ◌≤◌, arith, String, ℕ, zero, suc, ◌&&◌, ◌≡◌, refl, sym, ap, subst, ◌∙◌, ◌⊎◌, inl, inr, List,
  [], ◌∷◌, Bool, true, false, if◌then◌else◌, Bool-cases, some, str_eq, contains, get_elem?, ◌||◌,
  drop,
}
use mathlib.Core.Option.{some_inj, none-ne-some}
use mathlib.Core.List.{head-eq_of_cons-eq, tail-eq_of_cons-eq, nil≢cons}
use mathlib.Core.Bool.{true≢false}
use inber.ReadCache.{entry, without_key}
use inber.ReadCache.Entries.{entry-without_key}
use inber.Dedup.{ToolRef, set_all, latest_from}

-- What an association list is after a write.
pub entry-written :
    {V : Type 0} (p key : String) (v : V) (map : List (String × V))
    → entry p ((key, v) ∷ without_key key map) ≡ (if str_eq key p then some v else entry p map)
unfolding entry
entry-written p key v map = elim (Bool-cases (str_eq key p)) [
  | inl e ↦ rw e refl
  | inr e ↦ rw e (entry-without_key p key map ∙ rw e refl)
]

entry-set_all :
    (p : String) (paths : List String) (i : ℕ) (latest : List (String × ℕ))
    → entry p (set_all paths i latest) ≡ (if contains paths p then some i else entry p latest)
unfolding set_all
entry-set_all p [] i latest = refl
entry-set_all p (q ∷ paths) i latest =
    entry-set_all p paths i ((q, i) ∷ without_key q latest)
    ∙ ap (λ o. if contains paths p then some i else o) (entry-written p q i latest)
    ∙ both (str_eq q p) (contains paths p)
  where
    both :
        (a b : Bool)
        → (if b then some i else (if a then some i else entry p latest))
          ≡ (if a || b then some i else entry p latest)
    both true true = refl
    both true false = refl
    both false true = refl
    both false false = refl

pub drop-get_elem? :
    {A : Type 0} (i : ℕ) (xs : List A) (y : A) (ys : List A)
    → drop i xs ≡ y ∷ ys
    → (get_elem? xs i ≡ some y) × (drop (suc i) xs ≡ ys)
drop-get_elem? zero [] y ys e = absurd (nil≢cons e)
drop-get_elem? (suc i) [] y ys e = absurd (nil≢cons e)
drop-get_elem? zero (x ∷ xs) y ys e = (ap some (head-eq_of_cons-eq e), tail-eq_of_cons-eq e)
drop-get_elem? (suc i) (x ∷ xs) y ys e = drop-get_elem? i xs y ys e

-- The reference numbered `k` is of the kind, and names the path.
abbrev pub Names : (ToolRef → Bool) → List ToolRef → String → ℕ → Type 0
Names takes refs p k =
    (r : ToolRef) × (get_elem? refs k ≡ some r) × (takes r ≡ true) × (contains r.paths p ≡ true)

module _ (takes : ToolRef → Bool) (refs : List ToolRef) where
  abbrev pub Holds : List (String × ℕ) → Type 0
  Holds latest = (p : String) (k : ℕ) → entry p latest ≡ some k → Names takes refs p k

  abbrev step : ToolRef → ℕ → List (String × ℕ) → List (String × ℕ)
  step r i latest = if takes r then set_all r.paths i latest else latest

  entry-step :
      (r : ToolRef) (i : ℕ) (latest : List (String × ℕ)) (p : String)
      → entry p (step r i latest)
        ≡ (if takes r && contains r.paths p then some i else entry p latest)
  entry-step r i latest p = elim (Bool-cases (takes r)) [
    | inl t ↦ rw t (entry-set_all p r.paths i latest)
    | inr t ↦ rw t refl
  ]

  step-Holds :
      (r : ToolRef) (i : ℕ) (latest : List (String × ℕ))
      → get_elem? refs i ≡ some r
      → Holds latest
      → Holds (step r i latest)
  step-Holds r i latest at h p k e =
      go (takes r) (contains r.paths p) refl refl (sym (entry-step r i latest p) ∙ e)
    where
      go :
          (t c : Bool)
          → takes r ≡ t
          → contains r.paths p ≡ c
          → (if t && c then some i else entry p latest) ≡ some k
          → Names takes refs p k
      go true true t c f = subst (Names takes refs p) (some_inj.0 f) (r, at, t, c)
      go true false t c f = h p k f
      go false c t d f = h p k f

  pub latest_from-Holds :
      (i : ℕ) (rs : List ToolRef) (latest : List (String × ℕ))
      → drop i refs ≡ rs
      → Holds latest
      → Holds (latest_from takes i rs latest)
  unfolding latest_from
  latest_from-Holds i [] latest d h = h
  latest_from-Holds i (r ∷ rs) latest d h =
      let (at, rest) = drop-get_elem? i refs r rs d in
      latest_from-Holds (suc i) rs (step r i latest) rest (step-Holds r i latest at h)

  -- An entry no earlier than `lo`.
  abbrev Found : ℕ → String → List (String × ℕ) → Type 0
  Found lo p latest = (k : ℕ) × (entry p latest ≡ some k) × (lo ≤ k)

  step-Found :
      (r : ToolRef) (lo i : ℕ) (latest : List (String × ℕ)) (p : String)
      → lo ≤ i
      → Found lo p latest ⊎ ((takes r && contains r.paths p) ≡ true)
      → Found lo p (step r i latest)
  step-Found r lo i latest p l h =
      let (k, e, above) = go (takes r && contains r.paths p) h in
      (k, entry-step r i latest p ∙ e, above)
    where
      go :
          (b : Bool)
          → Found lo p latest ⊎ (b ≡ true)
          → (k : ℕ) × ((if b then some i else entry p latest) ≡ some k) × (lo ≤ k)
      go true h = (i, refl, l)
      go false (inl h) = h
      go false (inr e) = absurd (true≢false (sym e))

  latest_from-Found :
      (lo i : ℕ) (rs : List ToolRef) (latest : List (String × ℕ)) (p : String)
      → lo ≤ i
      → Found lo p latest
      → Found lo p (latest_from takes i rs latest)
  unfolding latest_from
  latest_from-Found lo i [] latest p l h = h
  latest_from-Found lo i (r ∷ rs) latest p l h =
      latest_from-Found lo (suc i) rs (step r i latest) p (omega arith)
        (step-Found r lo i latest p l (inl h))

  latest_from-named :
      (lo i : ℕ) (rs : List ToolRef) (latest : List (String × ℕ)) (p : String) (j : ℕ)
      → lo ≡ i + j
      → Names takes rs p j
      → Found lo p (latest_from takes i rs latest)
  unfolding latest_from
  latest_from-named lo i [] latest p j l (r, at, t, c) = absurd (none-ne-some r at)
  latest_from-named lo i (r ∷ rs) latest p zero l (q, at, t, c) =
      let same : q ≡ r = sym (some_inj.0 at) in
      latest_from-Found lo (suc i) rs (step r i latest) p (omega arith) (
        step-Found r lo i latest p (omega arith)
          (inr (subst (λ x. (takes x && contains x.paths p) ≡ true) same (rw (t, c) refl))))
  latest_from-named lo i (r ∷ rs) latest p (suc j) l h =
      latest_from-named lo (suc i) rs (step r i latest) p j (omega arith) h

  pub no_entries : Holds []
  unfolding entry
  no_entries p k e = absurd (none-ne-some k e)

  -- Each path that a reference of the kind names has an entry, no earlier than the reference, which names it.
  pub latest-Names :
      (p : String) (j : ℕ)
      → Names takes refs p j
      → (k : ℕ) × (entry p (latest_from takes 0 refs []) ≡ some k) × Names takes refs p k × (j ≤ k)
  latest-Names p j h =
      let (k, e, l) = latest_from-named j 0 refs [] p j (omega arith) h in
      (k, e, latest_from-Holds 0 refs [] refl no_entries p k e, l)
