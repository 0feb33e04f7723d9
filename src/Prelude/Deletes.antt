-- ===== src/Prelude/Deletes.antt =====
-- What a deletion keeps: the lookups and the selections of the other rows.
use mathlib.Core.Path.{◌≡◌, refl}
use mathlib.Core.Bool.{Bool, true, false, ◌||◌}
use mathlib.Core.Logic.{inl, inr}
use mathlib.Core.List.{List, [], ◌∷◌}
use omnidrive.Prelude.Tests.{Bool-cases}
use omnidrive.Prelude.Rows.{delete_where, find_where, any_where, select_where}

module _ {ℓ} {A : Type ℓ} (q p : A → Bool) where
  pub find-delete_other :
      (rs : List A)
      → ((r : A) → p r ≡ true → q r ≡ false)
      → find_where q (delete_where p rs) ≡ find_where q rs
  unfolding find_where delete_where
  find-delete_other [] h = refl
  find-delete_other (r ∷ rs) h = elim (Bool-cases (p r)) [
    | inl e ↦ rw (e, h r e, find-delete_other rs h)
    | inr e ↦ rw (e, find-delete_other rs h)
  ]

  pub any-delete_other :
      (rs : List A)
      → ((r : A) → p r ≡ true → q r ≡ false)
      → any_where q (delete_where p rs) ≡ any_where q rs
  unfolding any_where delete_where
  any-delete_other [] h = refl
  any-delete_other (r ∷ rs) h = elim (Bool-cases (p r)) [
    | inl e ↦ rw (e, h r e, any-delete_other rs h)
    | inr e ↦ rw (e, any-delete_other rs h)
  ]

  pub select-delete_other :
      (rs : List A)
      → ((r : A) → p r ≡ true → q r ≡ false)
      → select_where q (delete_where p rs) ≡ select_where q rs
  unfolding select_where delete_where
  select-delete_other [] h = refl
  select-delete_other (r ∷ rs) h = elim (Bool-cases (p r)) [
    | inl e ↦ rw (e, h r e, select-delete_other rs h)
    | inr e ↦ rw (e, select-delete_other rs h)
  ]

  pub delete-delete :
      (rs : List A) → delete_where p (delete_where q rs) ≡ delete_where (λ r. q r || p r) rs
  unfolding delete_where
  delete-delete [] = refl
  delete-delete (r ∷ rs) = elim (Bool-cases (q r)) [
    | inl e ↦ rw (e, delete-delete rs)
    | inr e ↦ rw (e, delete-delete rs)
  ]
