-- ===== src/Execution/Spared.antt =====
-- What bookkeeping keeps in the read cache, and the calls that spare a file (agent/agent_run.go).
use inber.Prelude.{
  String, ◌≡◌, ◌≢◌, refl, sym, subst, ◌∙◌, ◌⊎◌, inl, inr, List, [], ◌∷◌, Option, none, some, Bool,
  true, false, ◌||◌, contains, map, str_eq, eq_iff, ltb, Bool-cases, if◌then◌else◌,
}
use inber.ReadCache.{
  Paths, ReadCache, check, key_for, record_full_read, is_full_read, is_file_write,
  invalidates_everything, writes_named_paths, evict, invalidate_all, invalidate, invalidate_each,
}
use inber.ReadCache.Entries.{check-record_full_read, check-evict}
use inber.ToolOutcome.{ToolCallOutcome}
use inber.Execution.{Agent, record_path, record_read, after_primary}

-- Whether a check of the path finds something.
abbrev pub IsCached : Paths → String → ReadCache → Type 0
IsCached paths path cache = (s : String) × (check paths path cache ≡ some s)

root-invalidate_each :
    (paths : Paths) (written : List String) (cache : ReadCache)
    → (invalidate_each paths written cache).root ≡ cache.root
unfolding invalidate
root-invalidate_each paths [] cache = refl
root-invalidate_each paths (w ∷ written) cache =
    root-invalidate_each paths written (invalidate paths w cache)

spared_if :
    {s : String} (everything named : Bool) (found : Option String)
    → (if everything || named then none else found) ≡ some s
    → (everything ≡ false) × (named ≡ false) × (found ≡ some s)
spared_if true named found h = cc
spared_if false true found h = cc
spared_if false false found h = (refl, refl, h)

found_in :
    {s : String} (same : Bool) (here : String) (found : Option String)
    → (if same then some here else found) ≡ some s
    → (same ≡ true) ⊎ ((t : String) × (found ≡ some t))
found_in true here found h = inl refl
found_in {s = s} false here found h = inr (s, h)

none≢some : {A : Type 0} {a : A} → none ≢ some a
none≢some e = cc

module _ {V W : Type 0} (a : Agent V W) (root : String) where
  abbrev pub key_of : String → String
  key_of path = key_for a.paths root path

  -- A call reads this file in full.
  abbrev pub Reads : String → String → String → Type 0
  Reads tool input path =
      (named : String) × (is_full_read a.json tool input ≡ some named)
      × (key_of named ≡ key_of path)

  -- A call that the cache takes to leave this file as it is.
  abbrev pub Spares : String → String → String → Type 0
  Spares tool input path =
      (invalidates_everything tool ≡ false)
      × (contains (map key_of (is_file_write a.json tool input)) (key_of path) ≡ false)

  pub root-evict :
      (tool input : String) (cache : ReadCache)
      → (evict a.json a.paths tool input cache).root ≡ cache.root
  unfolding evict invalidate_all
  root-evict tool input cache = elim (Bool-cases (invalidates_everything tool)) [
    | inl e ↦ rw e (root-invalidate_each a.paths (is_file_write a.json tool input) cache)
    | inr e ↦ rw e (root-invalidate_each a.paths (is_file_write a.json tool input) cache)
  ]

  pub root-record_read :
      (tool input output : String) (cache : ReadCache)
      → (record_read a tool input output cache).root ≡ cache.root
  unfolding record_read record_full_read
  root-record_read tool input output cache = of_path (is_full_read a.json tool input)
    where
      of_path :
          (path : Option String)
          → (record_path a path (a.extract_complete_file_lines output) cache).root ≡ cache.root
      of_path none = refl
      of_path (some path) = elim (Bool-cases (ltb 0 (a.extract_complete_file_lines output))) [
        | inl e ↦ rw e refl
        | inr e ↦ rw e refl
      ]

  pub evict-IsCached :
      (tool input path : String) (cache : ReadCache)
      → cache.root ≡ root
      → IsCached a.paths path (evict a.json a.paths tool input cache)
      → Spares tool input path × IsCached a.paths path cache
  evict-IsCached tool input path cache r (s, h) =
      let spared =
        spared_if (invalidates_everything tool) _ _
          (sym (check-evict a.json a.paths cache tool input path) ∙ h) in
      (
        (
          spared.0,
          subst
              (λ x.
                contains (map (key_for a.paths x) (is_file_write a.json tool input))
                  (key_for a.paths x path)
                ≡ false)
              r spared.1,
        ),
        (s, spared.2),
      )

  pub record_read-IsCached :
      (tool input output path : String) (cache : ReadCache)
      → cache.root ≡ root
      → IsCached a.paths path (record_read a tool input output cache)
      → IsCached a.paths path cache ⊎ Reads tool input path
  unfolding record_read
  record_read-IsCached tool input output path cache r h =
      of_path (is_full_read a.json tool input) refl h
    where
      of_path :
          (named : Option String)
          → is_full_read a.json tool input ≡ named
          → IsCached a.paths path (record_path a named (a.extract_complete_file_lines output) cache)
          → IsCached a.paths path cache ⊎ Reads tool input path
      of_path none e h = inl h
      of_path (some named) e h = told (ltb 0 (a.extract_complete_file_lines output)) h
        where
          told :
              (worth : Bool)
              → IsCached a.paths path (
                  if worth
                  then record_full_read a.paths named (a.extract_complete_file_lines output) cache
                  else cache)
              → IsCached a.paths path cache ⊎ Reads tool input path
          told false h = inl h
          told true (s, h) =
              elim (found_in
                (str_eq (key_for a.paths cache.root named) (key_for a.paths cache.root path)) _ _
                (sym (check-record_full_read a.paths cache named path _) ∙ h)) [
                  | inl same ↦ inr (
                    named,
                    e,
                    subst (λ x. key_for a.paths x named ≡ key_for a.paths x path) r
                        ((eq_iff (key_for a.paths cache.root named)
                            (key_for a.paths cache.root path)).0
                          same),
                  )
                  | inr found ↦ inl found
                ]

  -- The tool without a name, which nothing registers, writes nothing that the cache knows of.
  pub nameless-Spares : (tool input path : String) → tool ≡ "" → Spares tool input path
  unfolding invalidates_everything is_file_write writes_named_paths
  nameless-Spares tool input path e = subst (λ t. Spares t input path) (sym e) (refl, refl)

  -- A call that reads files writes none.
  pub Reads-Spares : (tool input path : String) → Reads tool input path → Spares tool input path
  unfolding is_full_read invalidates_everything is_file_write writes_named_paths
  Reads-Spares tool input path (named, e, k) = elim (Bool-cases (str_eq tool "read_files")) [
    | inl t ↦ subst (λ n. Spares n input path) (sym ((eq_iff tool "read_files").0 t)) (refl, refl)
    | inr t ↦ elim (Bool-cases (str_eq tool "read_file")) [
      | inl u ↦ subst (λ n. Spares n input path) (sym ((eq_iff tool "read_file").0 u)) (refl, refl)
      | inr u ↦ cc (t, u, e)
    ]
  ]

  pub root-after_primary :
      (name : String) (o : ToolCallOutcome) (cache : ReadCache)
      → (after_primary a name o cache).root ≡ cache.root
  unfolding after_primary
  root-after_primary name o cache = elim (Bool-cases o.primary_ran) [
    | inl e ↦ rw e (root-evict name o.primary_input cache)
    | inr e ↦ rw e refl
  ]
