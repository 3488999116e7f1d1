-- ===== src/Staged/Zones.antt =====
-- The staging zone after the head of a conversation is dropped, and after a flush (conversation/staged.go).
use inber.Prelude.{
  ℕ, zero, suc, ◌-◌, ◌≡◌, refl, sym, ap, ◌∙◌, ◌⊎◌, inl, inr, List, [], ◌∷◌, true, length, drop, leb,
  Bool-cases, arith,
}
use inber.Message.{Message}
use inber.Repair.{is_user}
use inber.Staged.{
  StagedConversation, flush, shift_after_head_drop, ends_with_user, freeze_point, staging_slice,
}

drop_all : {A : Type 0} (n : ℕ) (xs : List A) → leb (length xs) n ≡ true → drop n xs ≡ []
drop_all zero [] h = refl
drop_all (suc n) [] h = refl
drop_all zero (x ∷ xs) h = ground arith
drop_all (suc n) (x ∷ xs) h = drop_all n xs (ground arith)

staging_slice_lem :
    (sc : StagedConversation) (ms : List Message) → staging_slice sc ms ≡ drop sc.frozen_idx ms
unfolding staging_slice
staging_slice_lem sc ms = elim (Bool-cases (leb (length ms) sc.frozen_idx)) [
  | inl e ↦ rw e (sym (drop_all sc.frozen_idx ms e))
  | inr e ↦ rw e refl
]

drop_of_nil : {A : Type 0} (n : ℕ) → drop {A = A} n [] ≡ []
drop_of_nil zero = refl
drop_of_nil (suc n) = refl

drop-at : {A : Type 0} (m n : ℕ) (xs : List A) → m ≡ n → drop m xs ≡ drop n xs
drop-at m n xs e = ap (λ k. drop k xs) e

drop_swap :
    {A : Type 0} (d n : ℕ) (xs : List A) → drop (n - d) (drop d xs) ≡ drop (d - n) (drop n xs)
drop_swap zero n xs =
    drop-at (n - 0) n xs (omega arith) ∙ sym (drop-at (0 - n) 0 (drop n xs) (omega arith))
drop_swap (suc d) zero xs =
    drop-at (0 - suc d) 0 (drop (suc d) xs) (omega arith)
    ∙ sym (drop-at (suc d - 0) (suc d) xs (omega arith))
drop_swap (suc d) (suc n) [] = drop_of_nil (suc n - suc d) ∙ sym (drop_of_nil (suc d - suc n))
drop_swap (suc d) (suc n) (x ∷ xs) =
    drop-at (suc n - suc d) (n - d) (drop d xs) (omega arith)
    ∙ drop_swap d n xs
    ∙ sym (drop-at (suc d - suc n) (d - n) (drop n xs) (omega arith))

last_user :
    (ms : List Message)
    → ends_with_user ms ≡ true
    → (m : Message) × (drop (length ms - 1) ms ≡ m ∷ []) × (is_user m ≡ true)
last_user [] e = cc
last_user (m ∷ []) e = (m, drop-at (length (m ∷ []) - 1) 0 (m ∷ []) (omega arith), e)
last_user (m ∷ next ∷ ms) e =
    let (last, d, u) = last_user (next ∷ ms) e in
    (
      last,
      drop-at (length (m ∷ next ∷ ms) - 1) (suc (length (next ∷ ms) - 1)) (m ∷ next ∷ ms)
            (omega arith)
          ∙ d,
      u,
    )

-- Messages dropped off the head leave the staging zone as it was, but for those of it that are dropped.
pub staging_slice-shift_after_head_drop :
    (sc : StagedConversation) (ms : List Message) (dropped : ℕ)
    → staging_slice (shift_after_head_drop dropped sc) (drop dropped ms)
      ≡ drop (dropped - sc.frozen_idx) (staging_slice sc ms)
unfolding shift_after_head_drop
staging_slice-shift_after_head_drop sc ms dropped =
    staging_slice_lem (shift_after_head_drop dropped sc) (drop dropped ms)
    ∙ drop_swap dropped sc.frozen_idx ms
    ∙ ap (drop (dropped - sc.frozen_idx)) (sym (staging_slice_lem sc ms))

-- After a flush at the freeze point the staging zone is a last message of the user, or empty.
pub staging_slice-flush :
    (sc : StagedConversation) (ms : List Message)
    → (staging_slice (flush (freeze_point ms) sc) ms ≡ [])
      ⊎ ((m : Message) × (staging_slice (flush (freeze_point ms) sc) ms ≡ m ∷ [])
          × (is_user m ≡ true))
unfolding flush freeze_point
staging_slice-flush sc ms = elim (Bool-cases (ends_with_user ms)) [
  | inr e ↦ inl (
      staging_slice_lem (flush (freeze_point ms) sc) ms
      ∙ rw e (drop_all (length ms) ms (ground arith)))
  | inl e ↦
      let (last, d, u) = last_user ms e in
      inr (last, staging_slice_lem (flush (freeze_point ms) sc) ms ∙ rw e d, u)
]
