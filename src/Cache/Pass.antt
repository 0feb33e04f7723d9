-- ===== src/Cache/Pass.antt =====
-- One pass over the candidates in `evict_if_needed` of angeld/src/cache.rs: it removes a row, or
-- finds them all protected.
use omnidrive.Prelude.{
  ℕ, ◌-◌, ◌≤◌, ◌<◌, ◌≡◌, refl, sym, subst, String, true, false, ◌⊎◌, inl, inr, Option, List, [],
  ◌∷◌, leb, Bool-cases, Option-cases, All, length, delete_where, Distinct, Distinct-delete_where,
  Memᴰ-delete_where, length-delete-lt, eq_refl, arith,
}
use mathlib.Core.List.{Memᴰ}
use omnidrive.Result.{Result, ok, err}
use omnidrive.Cache.{
  CachePath, CacheEntry, CacheError, io, Services, CacheManager, has_cache_key, is_at,
  get_total_cache_size, delete_cache_entry,
}
use omnidrive.Cache.Manager.{is_protected, delete_entry, Pass, evict_pass}
use omnidrive.Cache.Rows.{same_key, total-delete, IsProtected}

-- A claim on the value and the state of a call that succeeds.
abbrev pub Returns {ℓ} :
    {A : Type ℓ} → (A → CacheManager → Type 0) → Result CacheError A × CacheManager → Type 0
Returns P (ok a, s) = P a s
Returns P (err e, s) = Unit

unfoldable pub removed : String → CachePath → CacheManager → CacheManager
removed key path s = record s {
  entries = delete_cache_entry key s.entries;
  files = delete_where (is_at path) s.files;
}

pub delete_entry-cases :
    (w : Services) (key : String) (path : CachePath) (s : CacheManager)
    → (delete_entry w key path s ≡ (ok tt, removed key path s))
      ⊎ ((e : CacheError) × (delete_entry w key path s ≡ (err e, s)))
unfolding delete_entry removed
delete_entry-cases w key path s = elim (Option-cases (w.remove_fault path)) [
  | inl q ↦ inl (rw q)
  | inr (e, q) ↦ inr (io e, rw q)
]

-- The running total is the table's, and the table has its primary key.
pub record IsTracked (total : ℕ) (s : CacheManager) : Type 0 where
  pub exact : total ≡ get_total_cache_size s.entries
  pub keyed : Distinct same_key s.entries

removed-IsTracked :
    {total : ℕ} {s : CacheManager} (e : CacheEntry)
    → IsTracked total s
    → Memᴰ e s.entries
    → IsTracked (total - e.size) (removed e.cache_key e.cache_path s)
unfolding removed delete_cache_entry
removed-IsTracked {s = s} e t m = record {
  exact = omega (arith, total-delete s.entries t.keyed m, t.exact);
  keyed = Distinct-delete_where same_key (has_cache_key e.cache_key) s.entries t.keyed;
}

others_stay :
    (s : CacheManager) (e : CacheEntry) (es : List CacheEntry)
    → All (λ x. same_key x e ≡ false) es
    → All (λ x. Memᴰ x s.entries) es
    → All (λ x. Memᴰ x (removed e.cache_key e.cache_path s).entries) es
unfolding removed delete_cache_entry
others_stay s e [] d m = tt
others_stay s e (x ∷ xs) d m =
    (Memᴰ-delete_where (has_cache_key e.cache_key) s.entries m.0 d.0, others_stay s e xs d.1 m.1)

length-removed :
    (s : CacheManager) (e : CacheEntry)
    → Memᴰ e s.entries
    → length (removed e.cache_key e.cache_path s).entries < length s.entries
unfolding removed delete_cache_entry
length-removed s e m =
    length-delete-lt (has_cache_key e.cache_key) s.entries m (eq_refl e.cache_key)

module _ (w : Services) (max_bytes : ℕ) (protected : Option String) where
  -- The steps of a pass.
  module _ (e : CacheEntry) (es : List CacheEntry) (p : Pass) (s : CacheManager) where
    unfoldable pub after : Pass
    after = record { total_size = p.total_size - e.size; removed_any = true }

    pub pass_protected :
        IsProtected protected e
        → evict_pass w max_bytes protected (e ∷ es) p s ≡ evict_pass w max_bytes protected es p s
    unfolding evict_pass
    pass_protected k = rw (k, evict_pass)

    module _ (k : is_protected protected e ≡ false) where
      pub pass_fault :
          {x : CacheError}
          → delete_entry w e.cache_key e.cache_path s ≡ (err x, s)
          → evict_pass w max_bytes protected (e ∷ es) p s ≡ (err x, s)
      unfolding evict_pass
      pass_fault q = rw (k, evict_pass, q)

      module _
          (q : delete_entry w e.cache_key e.cache_path s
            ≡ (ok tt, removed e.cache_key e.cache_path s)) where
        pub pass_enough :
            leb (p.total_size - e.size) max_bytes ≡ true
            → evict_pass w max_bytes protected (e ∷ es) p s
              ≡ (ok after, removed e.cache_key e.cache_path s)
        unfolding evict_pass after
        pass_enough f = rw (k, evict_pass, q, f)

        pub pass_more :
            leb (p.total_size - e.size) max_bytes ≡ false
            → evict_pass w max_bytes protected (e ∷ es) p s
              ≡ evict_pass w max_bytes protected es after (removed e.cache_key e.cache_path s)
        unfolding evict_pass after
        pass_more f = rw (k, evict_pass, q, f)

  -- A pass that has removed a row, seen from a state with at least as many rows.
  abbrev Removed : ℕ → Pass → CacheManager → Type 0
  Removed n p s = IsTracked p.total_size s × (length s.entries ≤ n) × (p.removed_any ≡ true)

  Removed-le :
      {n k : ℕ} (r : Result CacheError Pass × CacheManager)
      → n ≤ k
      → Returns (Removed n) r
      → Returns (Removed k) r
  Removed-le (ok q, s) l h = (h.0, omega (arith, h.1), h.2)
  Removed-le (err x, s) l h = tt

  step-Removed :
      (e : CacheEntry) (es : List CacheEntry) (p : Pass) (s : CacheManager)
      → IsTracked p.total_size s
      → Memᴰ e s.entries
      → is_protected protected e ≡ false
      → (let s' = removed e.cache_key e.cache_path s in
          IsTracked (after e es p s).total_size s'
          → Returns
              (Removed (length s'.entries))
              (evict_pass w max_bytes protected es (after e es p s) s'))
      → Returns (Removed (length s.entries - 1)) (evict_pass w max_bytes protected (e ∷ es) p s)
  unfolding after
  step-Removed e es p s t m k rest = elim (delete_entry-cases w e.cache_key e.cache_path s) [
    | inr (x, q) ↦ subst (Returns (Removed _)) (sym (pass_fault e es p s k q)) tt
    | inl q ↦
        let s' = removed e.cache_key e.cache_path s in
        let t' : IsTracked (p.total_size - e.size) s' = removed-IsTracked e t m in
        let less : length s'.entries ≤ length s.entries - 1 = omega (arith, length-removed s e m) in
        elim (Bool-cases (leb (p.total_size - e.size) max_bytes)) [
          | inl f ↦ subst (Returns (Removed _)) (sym (pass_enough e es p s k q f)) (t', less, refl)
          | inr f ↦
              subst (Returns (Removed _)) (sym (pass_more e es p s k q f))
                (Removed-le _ less (rest t'))
        ]
  ]

  pass-Removed :
      (es : List CacheEntry) (p : Pass) (s : CacheManager)
      → p.removed_any ≡ true
      → IsTracked p.total_size s
      → All (λ x. Memᴰ x s.entries) es
      → Distinct same_key es
      → Returns (Removed (length s.entries)) (evict_pass w max_bytes protected es p s)
  unfolding evict_pass after
  pass-Removed [] p s g t m d = (t, omega arith, g)
  pass-Removed (e ∷ es) p s g t m d = elim (Bool-cases (is_protected protected e)) [
    | inl k ↦
        subst (Returns (Removed _)) (sym (pass_protected e es p s k))
          (pass-Removed es p s g t m.1 d.1)
    | inr k ↦ Removed-le _ (omega arith) (
        step-Removed e es p s t m.0 k λ t'.
          pass-Removed es (after e es p s) (removed e.cache_key e.cache_path s) refl t'
            (others_stay s e es d.0 m.1) d.1)
  ]

  -- A pass removes a row, or finds all its candidates protected and leaves the state.
  abbrev pub Passed : List CacheEntry → CacheManager → Pass → CacheManager → Type 0
  Passed es s p s' =
      (IsTracked p.total_size s' × (length s'.entries < length s.entries) × (p.removed_any ≡ true))
      ⊎ ((s' ≡ s) × (p.removed_any ≡ false) × All (IsProtected protected) es)

  Passed-of_Removed :
      (es : List CacheEntry) (e : CacheEntry) (s : CacheManager)
      (r : Result CacheError Pass × CacheManager)
      → Memᴰ e s.entries
      → Returns (Removed (length s.entries - 1)) r
      → Returns (Passed es s) r
  Passed-of_Removed es e s (ok q, s') m h = inl (h.0, omega (arith, h.1, length-removed s e m), h.2)
  Passed-of_Removed es e s (err x, s') m h = tt

  Passed-skip :
      (e : CacheEntry) (es : List CacheEntry) (s : CacheManager)
      (r : Result CacheError Pass × CacheManager)
      → IsProtected protected e
      → Returns (Passed es s) r
      → Returns (Passed (e ∷ es) s) r
  Passed-skip e es s (ok q, s') k (inl h) = inl h
  Passed-skip e es s (ok q, s') k (inr h) = inr (h.0, h.1, (k, h.2))
  Passed-skip e es s (err x, s') k h = tt

  pub pass-Passed :
      (es : List CacheEntry) (p : Pass) (s : CacheManager)
      → p.removed_any ≡ false
      → IsTracked p.total_size s
      → All (λ x. Memᴰ x s.entries) es
      → Distinct same_key es
      → Returns (Passed es s) (evict_pass w max_bytes protected es p s)
  unfolding evict_pass after
  pass-Passed [] p s g t m d = inr (refl, g, tt)
  pass-Passed (e ∷ es) p s g t m d = elim (Bool-cases (is_protected protected e)) [
    | inl k ↦
        subst (Returns (Passed (e ∷ es) s)) (sym (pass_protected e es p s k))
          (Passed-skip e es s _ k (pass-Passed es p s g t m.1 d.1))
    | inr k ↦ Passed-of_Removed (e ∷ es) e s _ m.0 (
        step-Removed e es p s t m.0 k λ t'.
          pass-Removed es (after e es p s) (removed e.cache_key e.cache_path s) refl t'
            (others_stay s e es d.0 m.1) d.1)
  ]
