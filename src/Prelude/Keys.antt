-- ===== src/Prelude/Keys.antt =====
-- Uniqueness constraints: no two rows of a table agree on a key.
use Prim.Native.Nat.{◌+◌, ◌≤◌, ◌<◌}
use mathlib.Core.Path.{◌≡◌, refl, ◌∙◌}
use mathlib.Core.Bool.{Bool, true, false}
use mathlib.Core.Logic.{inl, inr}
use mathlib.Core.List.{List, [], ◌∷◌, ◌++◌, map}
use native.Mathlib.Omega.{arith}
use omnidrive.Prelude.Tests.{Bool-cases}
use omnidrive.Prelude.Lists.{All}
use omnidrive.Prelude.Rows.{update_where, delete_where, count_where, any_where, select_where}
use omnidrive.Prelude.RowLaws.{All-update_where, All-delete_where, count_where_of_none}

module _ {ℓ} {A : Type ℓ} where
  pub any_where-false :
      (p : A → Bool) (rs : List A) → any_where p rs ≡ false → All (λ r. p r ≡ false) rs
  unfolding any_where
  any_where-false p [] h = tt
  any_where-false p (r ∷ rs) h = elim (Bool-cases (p r)) [
    | inl e ↦ absurd (ground arith)
    | inr e ↦ (e, any_where-false p rs (ground arith))
  ]

  pub any_where_of_none :
      (p : A → Bool) (rs : List A) → All (λ r. p r ≡ false) rs → any_where p rs ≡ false
  unfolding any_where
  any_where_of_none p [] h = refl
  any_where_of_none p (r ∷ rs) h = rw (h.0) (any_where_of_none p rs h.1)

  pub any_where-count : (p : A → Bool) (rs : List A) → any_where p rs ≡ true → 0 < count_where p rs
  unfolding any_where count_where
  any_where-count p [] h = cc
  any_where-count p (r ∷ rs) h = elim (Bool-cases (p r)) [
    | inl e ↦ rw e (omega arith)
    | inr e ↦ rw e (any_where-count p rs (ground arith))
  ]

  pub count_where-append :
      (p : A → Bool) (xs ys : List A)
      → count_where p (xs ++ ys) ≡ count_where p xs + count_where p ys
  unfolding count_where
  count_where-append p [] ys = omega arith
  count_where-append p (x ∷ xs) ys = ground (arith, count_where-append p xs ys)

  pub count_where-congr :
      (p q : A → Bool) (rs : List A) → ((r : A) → p r ≡ q r) → count_where p rs ≡ count_where q rs
  unfolding count_where
  count_where-congr p q [] h = refl
  count_where-congr p q (r ∷ rs) h = rw (h r, count_where-congr p q rs h)

  -- An update that keeps what a test reads keeps the count.
  pub count-update_where :
      (q p : A → Bool) (f : A → A) (rs : List A)
      → ((r : A) → p r ≡ true → q (f r) ≡ q r)
      → count_where q (update_where p f rs) ≡ count_where q rs
  unfolding count_where update_where
  count-update_where q p f [] h = refl
  count-update_where q p f (r ∷ rs) h = elim (Bool-cases (p r)) [
    | inl e ↦ rw (e, h r e, count-update_where q p f rs h)
    | inr e ↦ rw (e, count-update_where q p f rs h)
  ]

  pub map-update_where {κ} :
      {B : Type κ} (g : A → B) (p : A → Bool) (f : A → A) (rs : List A)
      → ((r : A) → p r ≡ true → g (f r) ≡ g r)
      → map g (update_where p f rs) ≡ map g rs
  unfolding update_where
  map-update_where g p f [] h = refl
  map-update_where g p f (r ∷ rs) h = elim (Bool-cases (p r)) [
    | inl e ↦ rw (e, h r e, map-update_where g p f rs h)
    | inr e ↦ rw (e, map-update_where g p f rs h)
  ]

  pub update_where_id :
      (p : A → Bool) (f : A → A) (rs : List A)
      → All (λ r. p r ≡ true → f r ≡ r) rs
      → update_where p f rs ≡ rs
  unfolding update_where
  update_where_id p f [] h = refl
  update_where_id p f (r ∷ rs) h = elim (Bool-cases (p r)) [
    | inl e ↦ rw (e, h.0 e, update_where_id p f rs h.1)
    | inr e ↦ rw (e, update_where_id p f rs h.1)
  ]

  pub update_where_none :
      (p : A → Bool) (f : A → A) (rs : List A)
      → All (λ r. p r ≡ false) rs
      → update_where p f rs ≡ rs
  unfolding update_where
  update_where_none p f [] h = refl
  update_where_none p f (r ∷ rs) h = rw (h.0, update_where_none p f rs h.1)

  -- An update of rows outside a selection keeps the selection.
  pub select-update_where :
      (q p : A → Bool) (f : A → A) (rs : List A)
      → ((r : A) → p r ≡ true → (q r ≡ false) × (q (f r) ≡ false))
      → select_where q (update_where p f rs) ≡ select_where q rs
  unfolding select_where update_where
  select-update_where q p f [] h = refl
  select-update_where q p f (r ∷ rs) h = elim (Bool-cases (p r)) [
    | inl e ↦ rw (e, (h r e).0, (h r e).1, select-update_where q p f rs h)
    | inr e ↦ rw (e, select-update_where q p f rs h)
  ]

  pub select_where-append :
      (q : A → Bool) (xs ys : List A)
      → select_where q (xs ++ ys) ≡ select_where q xs ++ select_where q ys
  unfolding select_where
  select_where-append q [] ys = refl
  select_where-append q (x ∷ xs) ys = ground (arith, select_where-append q xs ys)

-- `same r s` says that the rows agree on the key.
module _ {ℓ} {A : Type ℓ} (same : A → A → Bool) where
  abbrev pub Distinct : List A → Type 0
  Distinct [] = Unit
  Distinct (r ∷ rs) = All (λ s. same s r ≡ false) rs × Distinct rs

  pub Distinct-append :
      (r : A) (rs : List A)
      → Distinct rs
      → All (λ s. same r s ≡ false) rs
      → Distinct (rs ++ (r ∷ []))
  Distinct-append r [] h k = (tt, tt)
  Distinct-append r (s ∷ ss) h k = (All-last ss h.0, Distinct-append r ss h.1 k.1)
    where
      All-last :
          (ts : List A)
          → All (λ t. same t s ≡ false) ts
          → All (λ t. same t s ≡ false) (ts ++ (r ∷ []))
      All-last [] m = (k.0, tt)
      All-last (t ∷ ts) m = (m.0, All-last ts m.1)

  pub Distinct-delete_where :
      (p : A → Bool) (rs : List A) → Distinct rs → Distinct (delete_where p rs)
  unfolding delete_where
  Distinct-delete_where p [] h = tt
  Distinct-delete_where p (r ∷ rs) h = elim (Bool-cases (p r)) [
    | inl e ↦ rw e (Distinct-delete_where p rs h.1)
    | inr e ↦
        rw e (All-delete_where (λ s. same s r ≡ false) p rs h.0, Distinct-delete_where p rs h.1)
  ]

  pub Distinct-update_where :
      (p : A → Bool) (f : A → A)
      → ((r s : A) → same (f r) s ≡ same r s)
      → ((r s : A) → same r (f s) ≡ same r s)
      → (rs : List A) → Distinct rs
      → Distinct (update_where p f rs)
  unfolding update_where
  Distinct-update_where p f left right [] h = tt
  Distinct-update_where p f left right (r ∷ rs) h = elim (Bool-cases (p r)) [
    | inl e ↦ rw e (
      All-update_where (λ s. same s r ≡ false) (λ s. same s (f r) ≡ false) p f rs
          (λ s m _. left s (f r) ∙ right s r ∙ m) (λ s m _. right s r ∙ m) h.0,
      Distinct-update_where p f left right rs h.1,
    )
    | inr e ↦ rw e (
      All-update_where (λ s. same s r ≡ false) (λ s. same s r ≡ false) p f rs
          (λ s m _. left s r ∙ m) (λ s m _. m) h.0,
      Distinct-update_where p f left right rs h.1,
    )
  ]

  pub count-Distinct :
      (p : A → Bool)
      → ((r s : A) → p r ≡ true → p s ≡ true → same s r ≡ true)
      → (rs : List A) → Distinct rs
      → count_where p rs ≤ 1
  unfolding count_where
  count-Distinct p one [] h = omega arith
  count-Distinct p one (r ∷ rs) h = elim (Bool-cases (p r)) [
    | inl e ↦
        let others : count_where p rs ≡ 0 = count_where_of_none p rs (All-other rs e h.0) in
        rw (e, others) (omega arith)
    | inr e ↦ rw e (count-Distinct p one rs h.1)
  ]
    where
      All-other :
          (ts : List A) → p r ≡ true → All (λ s. same s r ≡ false) ts → All (λ s. p s ≡ false) ts
      All-other [] e m = tt
      All-other (t ∷ ts) e m = (
        elim (Bool-cases (p t)) [ inl q ↦ absurd (ground (arith, one r t e q)) | inr q ↦ q ],
        All-other ts e m.1,
      )
