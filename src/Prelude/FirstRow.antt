-- ===== src/Prelude/FirstRow.antt =====
-- What `SELECT … WHERE p ORDER BY … LIMIT 1` returns.
use mathlib.Core.Path.{◌≡◌, refl, subst, sym}
use mathlib.Core.Bool.{Bool, true, false}
use mathlib.Core.Logic.{◌⊎◌, inl, inr, ◌↔◌}
use mathlib.Core.List.{List, [], ◌∷◌, Memᴰ}
use mathlib.Core.Option.{none, some}
use native.Mathlib.Omega.{arith}
use omnidrive.Prelude.Tests.{Bool-cases}
use omnidrive.Prelude.Lists.{All, first?}
use omnidrive.Prelude.Rows.{select_where, insert_by, order_by}
use omnidrive.Prelude.RowLaws.{All-select_where, select_where-All, All-order_by, first-order_by}

module _ {ℓ} {A : Type ℓ} where
  pub All-implies {κ μ} :
      {P : A → Type κ} {Q : A → Type μ} (rs : List A) → ((a : A) → P a → Q a) → All P rs → All Q rs
  All-implies [] f h = tt
  All-implies (r ∷ rs) f h = (f r h.0, All-implies rs f h.1)

  pub All-Memᴰ : (rs : List A) → All (λ r. Memᴰ r rs) rs
  All-Memᴰ [] = tt
  All-Memᴰ (r ∷ rs) = (Memᴰ.head refl, All-implies rs (λ s m. Memᴰ.tail m) (All-Memᴰ rs))

  pub All-of_Memᴰ {κ} : (P : A → Type κ) {r : A} (rs : List A) → All P rs → Memᴰ r rs → P r
  All-of_Memᴰ P [] h m = elim m [ ]
  All-of_Memᴰ P (s ∷ ss) h (Memᴰ.head e) = subst P (sym e) h.0
  All-of_Memᴰ P (s ∷ ss) h (Memᴰ.tail m) = All-of_Memᴰ P ss h.1 m

  pub All-first {κ} : (P : A → Type κ) (rs : List A) {r : A} → All P rs → first? rs ≡ some r → P r
  All-first P [] h e = cc
  All-first P (s ∷ ss) h e = let q : some s ≡ some _ = e in subst P (ground arith) h.0

  -- A row that the test holds of is found in the selection.
  module _ (p : A → Bool) where
    All-of_select_where {κ} :
        (P : A → Type κ) (rs : List A) → All P (select_where p rs) → All (λ r. p r ≡ true → P r) rs
    unfolding select_where
    All-of_select_where P [] h = tt
    All-of_select_where P (r ∷ rs) h = elim (Bool-cases (p r)) [
      | inl e ↦
          let h' : P r × All P (select_where p rs) = rw e at h in
          ((λ _. h'.0), All-of_select_where P rs h'.1)
      | inr e ↦
          let h' : All P (select_where p rs) = rw e at h in ((λ t. cc), All-of_select_where P rs h')
    ]

    select_where-empty : (rs : List A) → select_where p rs ≡ [] → All (λ r. p r ≡ false) rs
    unfolding select_where
    select_where-empty [] h = tt
    select_where-empty (r ∷ rs) h = elim (Bool-cases (p r)) [
      | inl e ↦ absurd (ground arith)
      | inr e ↦ (e, select_where-empty rs (ground arith))
    ]

    select_where_of_none : (rs : List A) → All (λ r. p r ≡ false) rs → select_where p rs ≡ []
    unfolding select_where
    select_where_of_none [] h = refl
    select_where_of_none (r ∷ rs) h = rw (h.0) (select_where_of_none rs h.1)

    module _ (before : A → A → Bool) where
      insert_by-ne_nil : (r : A) (rs : List A) → insert_by before r rs ≡ [] → ⊥
      unfolding insert_by
      insert_by-ne_nil r [] h = cc
      insert_by-ne_nil r (s ∷ ss) h = ground arith

      order_by-nil : (rs : List A) → order_by before rs ≡ [] → rs ≡ []
      unfolding order_by
      order_by-nil [] h = refl
      order_by-nil (r ∷ rs) h = absurd (insert_by-ne_nil r (order_by before rs) h)

      first?-none : (rs : List A) → first? rs ≡ none → rs ≡ []
      first?-none [] h = refl
      first?-none (r ∷ rs) h = cc

      pub first-none :
          (rs : List A)
          → (first? (order_by before (select_where p rs)) ≡ none) ↔ All (λ r. p r ≡ false) rs
      unfolding order_by
      first-none rs = (
        (λ h. select_where-empty rs (order_by-nil (select_where p rs) (first?-none _ h))),
        (λ h. rw (select_where_of_none rs h)),
      )

      pub first-Memᴰ :
          (rs : List A) {r : A}
          → first? (order_by before (select_where p rs)) ≡ some r
          → Memᴰ r rs × (p r ≡ true)
      first-Memᴰ rs h = (
        All-first (λ s. Memᴰ s rs) _
            (All-order_by before (λ s. Memᴰ s rs) _
              (All-select_where (λ s. Memᴰ s rs) p rs (All-Memᴰ rs)))
            h,
        All-first (λ s. p s ≡ true) _
            (All-order_by before (λ s. p s ≡ true) _ (select_where-All p rs)) h,
      )

      pub first-before :
          (total : (a b : A) → before a b ≡ false → before b a ≡ true)
          (trans : (a b c : A) → before a b ≡ true → before b c ≡ true → before a c ≡ true)
          (rs : List A) {r : A}
          → first? (order_by before (select_where p rs)) ≡ some r
          → All (λ s. p s ≡ true → (s ≡ r) ⊎ (before r s ≡ true)) rs
      first-before total trans rs h =
          All-of_select_where (λ s. (s ≡ _) ⊎ (before _ s ≡ true)) rs
            (first-order_by before total trans (select_where p rs) h)
