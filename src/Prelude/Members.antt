-- ===== src/Prelude/Members.antt =====
-- The rows of a table under a deletion, an ordering and a limit.
use Prim.Native.Nat.{ℕ, zero, suc, ◌<◌}
use mathlib.Core.Path.{◌≡◌, refl, ap, subst}
use mathlib.Core.Bool.{Bool, true, false}
use mathlib.Core.Logic.{inl, inr}
use mathlib.Core.List.{List, [], ◌∷◌, Memᴰ}
use native.Mathlib.Omega.{arith}
use omnidrive.Prelude.Tests.{Bool-cases}
use omnidrive.Prelude.Lists.{All, All-take, length, take}
use omnidrive.Prelude.Rows.{delete_where, count_where, insert_by, order_by}
use omnidrive.Prelude.RowLaws.{All-insert_by, All-order_by, count-delete_where}
use omnidrive.Prelude.Keys.{Distinct}

module _ {ℓ} {A : Type ℓ} (p : A → Bool) where
  pub delete_where_none : (rs : List A) → All (λ r. p r ≡ false) rs → delete_where p rs ≡ rs
  unfolding delete_where
  delete_where_none [] h = refl
  delete_where_none (r ∷ rs) h = rw (h.0) (ap (λ (ts : List A). r ∷ ts) (delete_where_none rs h.1))

  -- A deletion keeps the other rows.
  pub Memᴰ-delete_where :
      {t : A} (rs : List A) → Memᴰ t rs → p t ≡ false → Memᴰ t (delete_where p rs)
  unfolding delete_where
  Memᴰ-delete_where [] m h = elim m [ ]
  Memᴰ-delete_where (r ∷ rs) (Memᴰ.head e) h =
      let k : p r ≡ false = subst (λ x. p x ≡ false) e h in rw k (Memᴰ.head e)
  Memᴰ-delete_where (r ∷ rs) (Memᴰ.tail m) h = elim (Bool-cases (p r)) [
    | inl k ↦ rw k (Memᴰ-delete_where rs m h)
    | inr k ↦ rw k (Memᴰ.tail (Memᴰ-delete_where rs m h))
  ]

  count-Memᴰ : {t : A} (rs : List A) → Memᴰ t rs → p t ≡ true → 0 < count_where p rs
  unfolding count_where
  count-Memᴰ [] m h = elim m [ ]
  count-Memᴰ (r ∷ rs) (Memᴰ.head e) h =
      let k : p r ≡ true = subst (λ x. p x ≡ true) e h in rw k (omega arith)
  count-Memᴰ (r ∷ rs) (Memᴰ.tail m) h = ground (arith, count-Memᴰ rs m h)

  pub length-delete-lt :
      {t : A} (rs : List A) → Memᴰ t rs → p t ≡ true → length (delete_where p rs) < length rs
  length-delete-lt rs m h = omega (arith, count-delete_where p rs, count-Memᴰ rs m h)

module _ {ℓ} {A : Type ℓ} (same : A → A → Bool)
    (symmetric : (a b : A) → same a b ≡ false → same b a ≡ false) where
  Distinct-insert_by :
      (before : A → A → Bool) (r : A) (rs : List A)
      → All (λ s. same s r ≡ false) rs
      → Distinct same rs
      → Distinct same (insert_by before r rs)
  unfolding insert_by
  Distinct-insert_by before r [] h d = (tt, tt)
  Distinct-insert_by before r (s ∷ ss) h d = elim (Bool-cases (before r s)) [
    | inl e ↦ rw e (h, d)
    | inr e ↦ rw e (
      All-insert_by before (λ t. same t s ≡ false) r ss (symmetric s r h.0) d.0,
      Distinct-insert_by before r ss h.1 d.1,
    )
  ]

  pub Distinct-order_by :
      (before : A → A → Bool) (rs : List A) → Distinct same rs → Distinct same (order_by before rs)
  unfolding order_by
  Distinct-order_by before [] d = tt
  Distinct-order_by before (r ∷ rs) d =
      Distinct-insert_by before r (order_by before rs)
        (All-order_by before (λ s. same s r ≡ false) rs d.0) (Distinct-order_by before rs d.1)

  pub Distinct-take : (n : ℕ) (rs : List A) → Distinct same rs → Distinct same (take n rs)
  Distinct-take zero rs d = tt
  Distinct-take (suc n) [] d = tt
  Distinct-take (suc n) (r ∷ rs) d =
      (All-take (λ s. same s r ≡ false) n rs d.0, Distinct-take n rs d.1)
