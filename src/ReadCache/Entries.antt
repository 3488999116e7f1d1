-- ===== src/ReadCache/Entries.antt =====
-- The entries of the read cache after each operation (agent/read_cache.go).
use inber.Prelude.{
  ℕ, ◌≡◌, refl, sym, ap, subst, ◌∙◌, inl, inr, String, List, [], ◌∷◌, Option, none, some, Bool,
  true, false, contains, str_eq, eq_iff, map, Bool-cases, if◌then◌else◌, ◌||◌,
}
use inber.ReadCache.{
  Json, Paths, ReadCache, entry, without_key, key_for, record_full_read, invalidate, invalidate_all,
  stub, stub_of, check, invalidates_everything, is_file_write, invalidate_each, evict,
}

pub entry-without_key :
    {V : Type 0} (q key : String) (files : List (String × V))
    → entry q (without_key key files) ≡ (if str_eq key q then none else entry q files)
unfolding entry without_key
entry-without_key q key [] = elim (Bool-cases (str_eq key q)) [
  | inl e ↦ rw e refl
  | inr e ↦ rw e refl
]
entry-without_key q key ((k, v) ∷ rest) = elim (Bool-cases (str_eq k key)) [
  | inl e ↦
      subst
        (λ name.
          entry q (without_key key ((name, v) ∷ rest))
          ≡ (if str_eq key q then none else entry q ((name, v) ∷ rest)))
        (sym ((eq_iff k key).0 e))
        (rw ((eq_iff key key).1 refl, entry-without_key q key rest)
          (hidden v (str_eq key q) (entry q rest)))
  | inr e ↦ elim (Bool-cases (str_eq key q)) [
    | inl d ↦
        rw
          (
            e,
            entry-without_key q key rest,
            d,
            subst (λ s. str_eq k s ≡ false) ((eq_iff key q).0 d) e,
          )
          refl
    | inr d ↦ rw (e, entry-without_key q key rest, d) refl
  ]
]
  where
    hidden :
        {A : Type 0} (v : A) (same : Bool) (found : Option A)
        → (if same then none else found) ≡ (if same then none else (if same then some v else found))
    hidden v true found = refl
    hidden v false found = refl

stub_of_if :
    (same : Bool) (found : Option ℕ)
    → stub_of (if same then none else found) ≡ (if same then none else stub_of found)
stub_of_if true found = refl
stub_of_if false found = refl

-- A file is in context after it was read in full, under any spelling, and other files are as they were.
pub check-record_full_read :
    (paths : Paths) (cache : ReadCache) (path other : String) (lines : ℕ)
    → check paths other (record_full_read paths path lines cache) ≡ (
        if str_eq (key_for paths cache.root path) (key_for paths cache.root other)
        then some (stub lines)
        else check paths other cache)
unfolding check record_full_read entry
check-record_full_read paths cache path other lines =
    recorded (key_for paths cache.root other) (key_for paths cache.root path)
  where
    recorded :
        (q key : String)
        → stub_of (entry q ((key, lines) ∷ without_key key cache.files))
          ≡ (if str_eq key q then some (stub lines) else stub_of (entry q cache.files))
    recorded q key = elim (Bool-cases (str_eq key q)) [
      | inl e ↦ rw e refl
      | inr e ↦ rw (e, entry-without_key q key cache.files, e) refl
    ]

check-invalidate :
    (paths : Paths) (cache : ReadCache) (path other : String)
    → check paths other (invalidate paths path cache) ≡ (
        if str_eq (key_for paths cache.root path) (key_for paths cache.root other)
        then none
        else check paths other cache)
unfolding check invalidate
check-invalidate paths cache path other =
    ap stub_of (
      entry-without_key (key_for paths cache.root other) (key_for paths cache.root path)
        cache.files)
    ∙ stub_of_if (str_eq (key_for paths cache.root path) (key_for paths cache.root other)) _

check-invalidate_each :
    (paths : Paths) (cache : ReadCache) (written : List String) (path : String)
    → check paths path (invalidate_each paths written cache) ≡ (
        if contains (map (key_for paths cache.root) written) (key_for paths cache.root path)
        then none
        else check paths path cache)
unfolding invalidate
check-invalidate_each paths cache [] path = refl
check-invalidate_each paths cache (w ∷ written) path =
    check-invalidate_each paths (invalidate paths w cache) written path
    ∙ ap
        (λ found.
          if contains (map (key_for paths cache.root) written) (key_for paths cache.root path)
          then none
          else found)
        (check-invalidate paths cache w path)
    ∙ either (str_eq (key_for paths cache.root w) (key_for paths cache.root path)) _
        (check paths path cache)
  where
    either :
        (a b : Bool) (found : Option String)
        → (if b then none else (if a then none else found)) ≡ (if a || b then none else found)
    either true true found = refl
    either true false found = refl
    either false true found = refl
    either false false found = refl

-- A call that ran takes out of the cache the files it may have written, under any spelling, and no other.
pub check-evict :
    {V : Type 0} (json : Json V) (paths : Paths) (cache : ReadCache) (tool input path : String)
    → check paths path (evict json paths tool input cache) ≡ (
        if invalidates_everything tool
          || contains
              (map (key_for paths cache.root) (is_file_write json tool input))
              (key_for paths cache.root path)
        then none
        else check paths path cache)
unfolding evict check invalidate_all entry
check-evict json paths cache tool input path = elim (Bool-cases (invalidates_everything tool)) [
  | inl e ↦ rw e refl
  | inr e ↦ rw (e, check-invalidate_each paths cache (is_file_write json tool input) path) refl
]
