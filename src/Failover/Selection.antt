-- ===== src/Failover/Selection.antt =====
-- The choice of a model and of a timeout (engine/failover.go, `selectModel`).
use inber.Prelude.{
  ℕ, ◌*◌, ◌≤◌, String, ◌≡◌, refl, sym, ◌⊎◌, inl, inr, List, [], ◌∷◌, Option, none, some, Bool, true,
  false, str_eq, eq_iff, subst, All, Bool-cases, arith, ◌==◌,
}
use inber.Prelude.Int.{ℤ, pos, negsuc}
use inber.Failover.{
  ModelStore, Engine, second, int64, clamped, timeout_from_health, is_usable, timeout_of,
  first_usable, fallback_chain, or_preferred, select_from, select_with, select_model,
}

abbrev pub IsTimeout : ℕ → Type 0
IsTimeout n = (30 * second ≤ n) × (n ≤ 300 * second)

clamped-IsTimeout : (n : ℤ) → IsTimeout (clamped n)
clamped-IsTimeout (pos n) = (ground arith, ground arith)
clamped-IsTimeout (negsuc n) = (omega arith, omega arith)

timeout_of-IsTimeout : (store : ModelStore) (model : String) → IsTimeout (timeout_of store model)
unfolding timeout_from_health
timeout_of-IsTimeout store model =
    elim (Bool-cases ((store.get_health model).avg_response_ms == 0)) [
      | inl e ↦ rw e (omega arith, omega arith)
      | inr e ↦
          rw e (clamped-IsTimeout (int64 ((store.get_health model).avg_response_ms * 3 * 1000000)))
    ]

abbrev pub IsDown : ModelStore → String → Type 0
IsDown store model = is_usable (store.get_health model) ≡ false

-- The model is usable, and the preferred one if that is; or nothing is, and it is the preferred one.
abbrev pub IsChoice : ModelStore → String → String → Type 0
IsChoice store preferred model =
    ((is_usable (store.get_health model) ≡ true) × ((model ≡ preferred) ⊎ IsDown store preferred))
    ⊎ ((model ≡ preferred) × IsDown store preferred × All (IsDown store) (fallback_chain store))

-- A fallback is found, or all that are looked at are down.
abbrev Search : ModelStore → List String → Option String → Type 0
Search store chain none = All (IsDown store) chain
Search store chain (some model) = is_usable (store.get_health model) ≡ true

Search-extend :
    (store : ModelStore) (model : String) (chain : List String) (found : Option String)
    → IsDown store model
    → Search store chain found
    → Search store (model ∷ chain) found
Search-extend store model chain none d h = (d, h)
Search-extend store model chain (some other) d h = h

first_usable-Search :
    (store : ModelStore) (preferred : String) (chain : List String)
    → IsDown store preferred
    → Search store chain (first_usable store preferred chain)
unfolding first_usable
first_usable-Search store preferred [] d = tt
first_usable-Search store preferred (fallback ∷ chain) d =
    let later = first_usable-Search store preferred chain d in
    elim (Bool-cases (str_eq fallback preferred)) [
      | inl e ↦ rw e (
          Search-extend store fallback chain (first_usable store preferred chain)
            (subst (IsDown store) (sym ((eq_iff fallback preferred).0 e)) d) later)
      | inr e ↦ elim (Bool-cases (is_usable (store.get_health fallback))) [
        | inl u ↦ rw (e, u) u
        | inr u ↦
            rw (e, u)
              (Search-extend store fallback chain (first_usable store preferred chain) u later)
      ]
    ]

-- The model that was set, if it was set explicitly or nothing is known of models, and otherwise a choice.
abbrev pub IsSelected : Option ModelStore → String → Bool → String × ℕ → Type 0
IsSelected model_store preferred explicit out =
    IsTimeout out.1
    × (((out.0 ≡ preferred) × ((explicit ≡ true) ⊎ (model_store ≡ none)))
        ⊎ ((explicit ≡ false)
            × ((store : ModelStore) × (model_store ≡ some store) × IsChoice store preferred out.0)))

select_from-IsSelected :
    (store : ModelStore) (preferred : String) (explicit : Bool)
    → IsSelected (some store) preferred explicit (select_from store preferred explicit)
select_from-IsSelected store preferred true =
    (timeout_of-IsTimeout store preferred, inl (refl, inl refl))
select_from-IsSelected store preferred false =
    elim (Bool-cases (is_usable (store.get_health preferred))) [
      | inl u ↦
          rw u (timeout_of-IsTimeout store preferred, inr (refl, (store, refl, inl (u, inl refl))))
      | inr u ↦ rw u (
          searched (first_usable store preferred (fallback_chain store)) u
            (first_usable-Search store preferred (fallback_chain store) u))
    ]
  where
    searched :
        (found : Option String)
        → IsDown store preferred
        → Search store (fallback_chain store) found
        → IsSelected (some store) preferred false (or_preferred store preferred found)
    searched none u h = ((omega arith, omega arith), inr (refl, (store, refl, inr (refl, u, h))))
    searched (some model) u h =
        (timeout_of-IsTimeout store model, inr (refl, (store, refl, inl (h, inr u))))

-- A turn runs on the model that is set if it was set explicitly or there is no model store, and only then
-- whatever is known of it; otherwise on a model that is usable, healthy or not yet known, which is the preferred one if that is usable, and on the preferred
-- one only if nothing is usable. It is given between half a minute and five minutes.
pub select_model-IsSelected :
    (e : Engine) → IsSelected e.model_store e.model e.model_explicitly_set (select_model e)
unfolding select_model
select_model-IsSelected e = with_store e.model_store
  where
    with_store :
        (model_store : Option ModelStore)
        → IsSelected model_store e.model e.model_explicitly_set
            (select_with model_store e.model e.model_explicitly_set)
    with_store none = ((omega arith, omega arith), inl (refl, inr refl))
    with_store (some store) = select_from-IsSelected store e.model e.model_explicitly_set
