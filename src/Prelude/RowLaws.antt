-- ===== src/Prelude/RowLaws.antt =====
-- Laws of the statement forms, for any row type.
use Prim.Native.Nat.{suc, ◌+◌}
use mathlib.Core.Path.{◌≡◌, refl, ap, subst}
use mathlib.Core.Bool.{Bool, true, false}
use mathlib.Core.Logic.{◌⊎◌, inl, inr}
use mathlib.Core.List.{List, [], ◌∷◌, Perm}
use mathlib.Core.List.Perm
use mathlib.Core.Option.{none, some}
use native.Mathlib.Omega.{arith}
use omnidrive.Prelude.Tests.{Bool-cases}
use omnidrive.Prelude.Lists.{length, All, first?}
use omnidrive.Prelude.Rows.{
  select_where, update_where, delete_where, count_where, find_where, insert_by, order_by,
}

module _ {ℓ κ μ} {A : Type ℓ} (P : A → Type κ) (Q : A → Type μ) (p : A → Bool) (f : A → A) where
  pub All-update_where :
      (rs : List A)
      → ((r : A) → P r → p r ≡ true → Q (f r))
      → ((r : A) → P r → p r ≡ false → Q r)
      → All P rs
      → All Q (update_where p f rs)
  unfolding update_where
  All-update_where [] hit miss h = tt
  All-update_where (r ∷ rs) hit miss h = elim (Bool-cases (p r)) [
    | inl e ↦ rw e (hit r h.0 e, All-update_where rs hit miss h.1)
    | inr e ↦ rw e (miss r h.0 e, All-update_where rs hit miss h.1)
  ]

module _ {ℓ κ} {A : Type ℓ} (P : A → Type κ) (p : A → Bool) where
  pub All-select_where : (rs : List A) → All P rs → All P (select_where p rs)
  unfolding select_where
  All-select_where [] h = tt
  All-select_where (r ∷ rs) h = elim (Bool-cases (p r)) [
    | inl e ↦ rw e (h.0, All-select_where rs h.1)
    | inr e ↦ rw e (All-select_where rs h.1)
  ]

  pub All-delete_where : (rs : List A) → All P rs → All P (delete_where p rs)
  unfolding delete_where
  All-delete_where [] h = tt
  All-delete_where (r ∷ rs) h = elim (Bool-cases (p r)) [
    | inl e ↦ rw e (All-delete_where rs h.1)
    | inr e ↦ rw e (h.0, All-delete_where rs h.1)
  ]

  pub All-find_where :
      (rs : List A) {r : A} → All P rs → find_where p rs ≡ some r → P r × (p r ≡ true)
  unfolding find_where
  All-find_where [] h e = cc
  All-find_where (r ∷ rs) {r = x} h e = elim (Bool-cases (p r)) [
    | inl t ↦ let q : r ≡ x = ground arith in (subst P q h.0, subst (λ y. p y ≡ true) q t)
    | inr t ↦ All-find_where rs h.1 (ground arith)
  ]

module _ {ℓ} {A : Type ℓ} (p : A → Bool) where
  pub select_where-All : (rs : List A) → All (λ r. p r ≡ true) (select_where p rs)
  unfolding select_where
  select_where-All [] = tt
  select_where-All (r ∷ rs) = elim (Bool-cases (p r)) [
    | inl e ↦ rw e (e, select_where-All rs)
    | inr e ↦ rw e (select_where-All rs)
  ]

  pub delete_where-All : (rs : List A) → All (λ r. p r ≡ false) (delete_where p rs)
  unfolding delete_where
  delete_where-All [] = tt
  delete_where-All (r ∷ rs) = elim (Bool-cases (p r)) [
    | inl e ↦ rw e (delete_where-All rs)
    | inr e ↦ rw e (e, delete_where-All rs)
  ]

  pub find_where_of_none : (rs : List A) → All (λ r. p r ≡ false) rs → find_where p rs ≡ none
  unfolding find_where
  find_where_of_none [] h = refl
  find_where_of_none (r ∷ rs) h = rw (h.0) (find_where_of_none rs h.1)

  pub count_where_of_none : (rs : List A) → All (λ r. p r ≡ false) rs → count_where p rs ≡ 0
  unfolding count_where
  count_where_of_none [] h = refl
  count_where_of_none (r ∷ rs) h = rw (h.0) (count_where_of_none rs h.1)

  pub count_where-zero : (rs : List A) → count_where p rs ≡ 0 → All (λ r. p r ≡ false) rs
  unfolding count_where
  count_where-zero [] h = tt
  count_where-zero (r ∷ rs) h = elim (Bool-cases (p r)) [
    | inl e ↦ absurd (ground arith)
    | inr e ↦ (e, count_where-zero rs (ground arith))
  ]

  pub length-select_where : (rs : List A) → length (select_where p rs) ≡ count_where p rs
  unfolding select_where count_where
  length-select_where [] = refl
  length-select_where (r ∷ rs) = ground (arith, length-select_where rs)

  pub count-delete_where : (rs : List A) → length (delete_where p rs) + count_where p rs ≡ length rs
  unfolding delete_where count_where
  count-delete_where [] = omega arith
  count-delete_where (r ∷ rs) = ground (arith, count-delete_where rs)

  pub length-update_where : (f : A → A) (rs : List A) → length (update_where p f rs) ≡ length rs
  unfolding update_where
  length-update_where f [] = refl
  length-update_where f (r ∷ rs) = ap suc (length-update_where f rs)

  pub find-delete_where : (rs : List A) → find_where p (delete_where p rs) ≡ none
  find-delete_where rs = find_where_of_none (delete_where p rs) (delete_where-All rs)

-- An ordered selection holds the same rows, and its first row precedes every other.
module _ {ℓ} {A : Type ℓ} (before : A → A → Bool) where
  insert_by-perm : (r : A) (rs : List A) → Perm (insert_by before r rs) (r ∷ rs)
  unfolding insert_by
  insert_by-perm r [] = Perm.refl (r ∷ [])
  insert_by-perm r (s ∷ ss) = elim (Bool-cases (before r s)) [
    | inl e ↦ rw e (Perm.refl (r ∷ s ∷ ss))
    | inr e ↦ rw e (Perm.trans (Perm.cons s (insert_by-perm r ss)) (Perm.swap r s ss))
  ]

  pub order_by-perm : (rs : List A) → Perm (order_by before rs) rs
  unfolding order_by
  order_by-perm [] = Perm.refl []
  order_by-perm (r ∷ rs) =
      Perm.trans (insert_by-perm r (order_by before rs)) (Perm.cons r (order_by-perm rs))

  module _ {κ} (P : A → Type κ) where
    pub All-insert_by : (r : A) (rs : List A) → P r → All P rs → All P (insert_by before r rs)
    unfolding insert_by
    All-insert_by r [] h hs = (h, tt)
    All-insert_by r (s ∷ ss) h hs = elim (Bool-cases (before r s)) [
      | inl e ↦ rw e (h, hs)
      | inr e ↦ rw e (hs.0, All-insert_by r ss h hs.1)
    ]

    pub All-order_by : (rs : List A) → All P rs → All P (order_by before rs)
    unfolding order_by
    All-order_by [] h = tt
    All-order_by (r ∷ rs) h = All-insert_by r (order_by before rs) h.0 (All-order_by rs h.1)

    insert_by-All : (r : A) (rs : List A) → All P (insert_by before r rs) → P r × All P rs
    unfolding insert_by
    insert_by-All r [] h = (h.0, tt)
    insert_by-All r (s ∷ ss) h = elim (Bool-cases (before r s)) [
      | inl e ↦ rw e at h
      | inr e ↦
          let h' : P s × All P (insert_by before r ss) = rw e at h in
          let (hr, hss) = insert_by-All r ss h'.1 in (hr, (h'.0, hss))
    ]

    pub order_by-All : (rs : List A) → All P (order_by before rs) → All P rs
    unfolding order_by
    order_by-All [] h = tt
    order_by-All (r ∷ rs) h =
        let (hr, hrs) = insert_by-All r (order_by before rs) h in (hr, order_by-All rs hrs)

-- A row test that is a total preorder, such as a comparison of a numeric column.
module _ {ℓ} {A : Type ℓ} (before : A → A → Bool)
    (total : (a b : A) → before a b ≡ false → before b a ≡ true)
    (trans : (a b c : A) → before a b ≡ true → before b c ≡ true → before a c ≡ true) where
  abbrev pub IsOrdered : List A → Type 0
  IsOrdered [] = Unit
  IsOrdered (r ∷ rs) = All (λ s. before r s ≡ true) rs × IsOrdered rs

  All-before :
      (r s : A) (rs : List A)
      → before r s ≡ true
      → All (λ t. before s t ≡ true) rs
      → All (λ t. before r t ≡ true) rs
  All-before r s [] e h = tt
  All-before r s (t ∷ ts) e h = (trans r s t e h.0, All-before r s ts e h.1)

  insert_by-IsOrdered : (r : A) (rs : List A) → IsOrdered rs → IsOrdered (insert_by before r rs)
  unfolding insert_by
  insert_by-IsOrdered r [] h = (tt, tt)
  insert_by-IsOrdered r (s ∷ ss) h = elim (Bool-cases (before r s)) [
    | inl e ↦ rw e ((e, All-before r s ss e h.0), h)
    | inr e ↦ rw e (
      All-insert_by before (λ t. before s t ≡ true) r ss (total r s e) h.0,
      insert_by-IsOrdered r ss h.1,
    )
  ]

  pub order_by-IsOrdered : (rs : List A) → IsOrdered (order_by before rs)
  unfolding order_by
  order_by-IsOrdered [] = tt
  order_by-IsOrdered (r ∷ rs) = insert_by-IsOrdered r (order_by before rs) (order_by-IsOrdered rs)

  IsOrdered-first :
      (rs : List A) {r : A}
      → IsOrdered rs
      → first? rs ≡ some r
      → All (λ s. (s ≡ r) ⊎ (before r s ≡ true)) rs
  IsOrdered-first [] h e = cc
  IsOrdered-first (s ∷ ss) {r = r} h e =
      let q : s ≡ r = ground arith in
      (inl q, weaken ss (subst (λ a. All (λ t. before a t ≡ true) ss) q h.0))
    where
      weaken :
          (ts : List A)
          → All (λ t. before r t ≡ true) ts
          → All (λ t. (t ≡ r) ⊎ (before r t ≡ true)) ts
      weaken [] k = tt
      weaken (t ∷ ts) k = (inr k.0, weaken ts k.1)

  -- The first row of an ordered selection precedes every row of the selection.
  pub first-order_by :
      (rs : List A) {r : A}
      → first? (order_by before rs) ≡ some r
      → All (λ s. (s ≡ r) ⊎ (before r s ≡ true)) rs
  first-order_by rs {r = r} e =
      order_by-All before (λ s. (s ≡ r) ⊎ (before r s ≡ true)) rs
        (IsOrdered-first (order_by before rs) (order_by-IsOrdered rs) e)
