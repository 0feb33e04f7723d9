-- ===== src/Prelude/Rows.antt =====
-- A table of the SQLite store is the list of its rows, in the order of their insertion. These
-- are the statement forms that the db modules use, over a row test and a row update.
use Prim.Native.Nat.{ℕ, suc}
use mathlib.Core.Bool.{Bool, true, false}
use mathlib.Core.List.{List, [], ◌∷◌}
use mathlib.Core.Option.{Option, none, some}
use omnidrive.Prelude.Tests.{if◌then◌else◌}

module _ {ℓ} {A : Type ℓ} where
  -- SELECT … WHERE p
  unfoldable pub select_where : (A → Bool) → List A → List A
  select_where p [] = []
  select_where p (r ∷ rs) = let rest = select_where p rs in if p r then r ∷ rest else rest

  -- UPDATE … SET f WHERE p
  unfoldable pub update_where : (A → Bool) → (A → A) → List A → List A
  update_where p f [] = []
  update_where p f (r ∷ rs) = (if p r then f r else r) ∷ update_where p f rs

  -- DELETE … WHERE p
  unfoldable pub delete_where : (A → Bool) → List A → List A
  delete_where p [] = []
  delete_where p (r ∷ rs) = let rest = delete_where p rs in if p r then rest else r ∷ rest

  -- COUNT(*) … WHERE p, and rows_affected of an UPDATE or DELETE with that test
  unfoldable pub count_where : (A → Bool) → List A → ℕ
  count_where p [] = 0
  count_where p (r ∷ rs) = let rest = count_where p rs in if p r then suc rest else rest

  -- SELECT … WHERE p LIMIT 1
  unfoldable pub find_where : (A → Bool) → List A → Option A
  find_where p [] = none
  find_where p (r ∷ rs) = let rest = find_where p rs in if p r then some r else rest

  -- EXISTS (SELECT 1 … WHERE p)
  unfoldable pub any_where : (A → Bool) → List A → Bool
  any_where p [] = false
  any_where p (r ∷ rs) = let rest = any_where p rs in if p r then true else rest

  -- ORDER BY, as a stable insertion sort: `before a b` says that `a` may precede `b`.
  unfoldable pub insert_by : (A → A → Bool) → A → List A → List A
  insert_by before r [] = r ∷ []
  insert_by before r (s ∷ ss) =
      let rest = insert_by before r ss in if before r s then r ∷ s ∷ ss else s ∷ rest

  unfoldable pub order_by : (A → A → Bool) → List A → List A
  unfolding insert_by
  order_by before [] = []
  order_by before (r ∷ rs) = insert_by before r (order_by before rs)
