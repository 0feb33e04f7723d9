-- ===== src/Cache/Rows.antt =====
-- The table cache_entries under its primary key, cache_key.
use omnidrive.Prelude.{
  ℕ, suc, ◌+◌, ◌≡◌, refl, sym, subst, ◌∙◌, String, Bool, true, false, Option, none, some, List, [],
  ◌∷◌, str_eq, eq_iff, eq_refl, str_eq-ne, All, take, delete_where, order_by, Distinct,
  delete_where_none, Distinct-order_by, Distinct-take, All-Memᴰ, All-of_Memᴰ, All-order_by,
  All-take, order_by-All, arith,
}
use mathlib.Core.List.{Memᴰ}
use omnidrive.Cache.{
  CacheEntry, has_cache_key, get_total_cache_size, delete_cache_entry, list_cache_entries_by_lru,
  lru_first,
}
use omnidrive.Cache.Manager.{is_protected}

abbrev pub same_key : CacheEntry → CacheEntry → Bool
same_key a b = str_eq a.cache_key b.cache_key

pub str_eq-sym : (s t : String) → str_eq s t ≡ false → str_eq t s ≡ false
str_eq-sym s t h = str_eq-ne t s (λ e. cc (eq_refl s, subst (λ x. str_eq s x ≡ false) e h))

pub same_key-sym : (a b : CacheEntry) → same_key a b ≡ false → same_key b a ≡ false
same_key-sym a b h = str_eq-sym a.cache_key b.cache_key h

-- The total falls by the size of the row that goes.
pub total-delete :
    {e : CacheEntry} (es : List CacheEntry)
    → Distinct same_key es
    → Memᴰ e es
    → get_total_cache_size (delete_cache_entry e.cache_key es) + e.size ≡ get_total_cache_size es
unfolding get_total_cache_size delete_cache_entry delete_where
total-delete [] d m = elim m [ ]
total-delete {e = e} (r ∷ rs) d (Memᴰ.head q) =
    let k : str_eq r.cache_key e.cache_key ≡ true =
      subst (λ (x : CacheEntry). str_eq x.cache_key e.cache_key ≡ true) q (eq_refl e.cache_key) in
    let others : All (λ s. str_eq s.cache_key e.cache_key ≡ false) rs =
      subst (λ (x : CacheEntry). All (λ s. str_eq s.cache_key x.cache_key ≡ false) rs) (sym q)
        d.0 in
    let z : e.size ≡ r.size = subst (λ (x : CacheEntry). e.size ≡ x.size) q refl in
    rw (k, delete_where_none (has_cache_key e.cache_key) rs others) (omega arith)
total-delete {e = e} (r ∷ rs) d (Memᴰ.tail m) =
    let k : str_eq r.cache_key e.cache_key ≡ false =
      same_key-sym e r (All-of_Memᴰ (λ s. same_key s r ≡ false) rs d.0 m) in
    let rest : get_total_cache_size (delete_cache_entry e.cache_key rs) + e.size
        ≡ get_total_cache_size rs =
      total-delete rs d.1 m in
    rw k (omega (arith, rest))

pub lru-Memᴰ :
    (n : ℕ) (es : List CacheEntry) → All (λ e. Memᴰ e es) (list_cache_entries_by_lru n es)
unfolding list_cache_entries_by_lru
lru-Memᴰ n es =
    All-take (λ e. Memᴰ e es) n (order_by lru_first es)
      (All-order_by lru_first (λ e. Memᴰ e es) es (All-Memᴰ es))

pub lru-Distinct :
    (n : ℕ) (es : List CacheEntry)
    → Distinct same_key es
    → Distinct same_key (list_cache_entries_by_lru n es)
unfolding list_cache_entries_by_lru
lru-Distinct n es d =
    Distinct-take same_key same_key-sym n (order_by lru_first es)
      (Distinct-order_by same_key same_key-sym lru_first es d)

abbrev pub IsProtected : Option String → CacheEntry → Type 0
IsProtected protected e = is_protected protected e ≡ true

protected_twice :
    (protected : Option String) (a b : CacheEntry)
    → IsProtected protected a
    → IsProtected protected b
    → same_key b a ≡ true
unfolding is_protected
protected_twice none a b ha hb = cc
protected_twice (some key) a b ha hb =
    (eq_iff b.cache_key a.cache_key).1
      ((eq_iff b.cache_key key).0 hb ∙ sym ((eq_iff a.cache_key key).0 ha))

All-of_first_two :
    (protected : Option String) (n : ℕ) (es : List CacheEntry)
    → Distinct same_key es
    → All (IsProtected protected) (take (suc (suc n)) es)
    → All (IsProtected protected) es
All-of_first_two protected n [] d h = tt
All-of_first_two protected n (a ∷ []) d h = h
All-of_first_two protected n (a ∷ b ∷ es) d h =
    absurd (cc (protected_twice protected a b h.0 h.1.0, d.0.0))

-- At most one row is protected: where the candidates all are, they are the whole table.
pub lru-All-IsProtected :
    (protected : Option String) (n : ℕ) (es : List CacheEntry)
    → Distinct same_key es
    → All (IsProtected protected) (list_cache_entries_by_lru (suc (suc n)) es)
    → All (IsProtected protected) es
unfolding list_cache_entries_by_lru
lru-All-IsProtected protected n es d h = order_by-All lru_first (IsProtected protected) es (
    All-of_first_two protected n (order_by lru_first es)
      (Distinct-order_by same_key same_key-sym lru_first es d) h)
