-- ===== src/Prelude/Find.antt =====
-- Which row a lookup returns behind an insertion or an update.
use mathlib.Core.Path.{◌≡◌, refl}
use mathlib.Core.Bool.{Bool, true, false}
use mathlib.Core.Logic.{inl, inr}
use mathlib.Core.List.{List, [], ◌∷◌, ◌++◌}
use mathlib.Core.Option.{Option, none, some}
use native.Mathlib.Omega.{arith}
use omnidrive.Prelude.Tests.{if◌then◌else◌, Bool-cases, is_some}
use omnidrive.Prelude.Rows.{update_where, any_where, find_where}

module _ {ℓ} {A : Type ℓ} where
  abbrev pub map_some : (A → A) → Option A → Option A
  map_some f none = none
  map_some f (some r) = some (f r)

  pub find_where-append :
      (p : A → Bool) (r : A) (rs : List A)
      → any_where p rs ≡ false
      → find_where p (rs ++ (r ∷ [])) ≡ (if p r then some r else none)
  unfolding find_where any_where
  find_where-append p r [] h = refl
  find_where-append p r (s ∷ ss) h = elim (Bool-cases (p s)) [
    | inl e ↦ absurd (ground arith)
    | inr e ↦ rw e (find_where-append p r ss (ground arith))
  ]

  pub find_where-append_other :
      (p : A → Bool) (r : A) (rs : List A)
      → p r ≡ false
      → find_where p (rs ++ (r ∷ [])) ≡ find_where p rs
  unfolding find_where
  find_where-append_other p r [] h = rw h
  find_where-append_other p r (s ∷ ss) h = ground (arith, find_where-append_other p r ss h)

  pub find_where-any : (p : A → Bool) (rs : List A) → is_some (find_where p rs) ≡ any_where p rs
  unfolding find_where any_where
  find_where-any p [] = refl
  find_where-any p (r ∷ rs) = ground (arith, find_where-any p rs)

  -- The looked-up rows are the updated ones.
  pub find_where-update_where :
      (p : A → Bool) (f : A → A) (rs : List A)
      → ((r : A) → p r ≡ true → p (f r) ≡ true)
      → find_where p (update_where p f rs) ≡ map_some f (find_where p rs)
  unfolding find_where update_where
  find_where-update_where p f [] h = refl
  find_where-update_where p f (r ∷ rs) h = elim (Bool-cases (p r)) [
    | inl e ↦ rw (e, h r e)
    | inr e ↦ rw (e, find_where-update_where p f rs h, e)
  ]

  -- The updated rows are not looked up, before or after.
  pub find_where-update_other :
      (q p : A → Bool) (f : A → A) (rs : List A)
      → ((r : A) → p r ≡ true → (q r ≡ false) × (q (f r) ≡ false))
      → find_where q (update_where p f rs) ≡ find_where q rs
  unfolding find_where update_where
  find_where-update_other q p f [] h = refl
  find_where-update_other q p f (r ∷ rs) h = elim (Bool-cases (p r)) [
    | inl e ↦ rw (e, (h r e).0, (h r e).1, find_where-update_other q p f rs h)
    | inr e ↦ rw (e, find_where-update_other q p f rs h)
  ]

  pub find_where-congr :
      (p q : A → Bool) (rs : List A) → ((r : A) → p r ≡ q r) → find_where p rs ≡ find_where q rs
  unfolding find_where
  find_where-congr p q [] h = refl
  find_where-congr p q (r ∷ rs) h = rw (h r, find_where-congr p q rs h)
