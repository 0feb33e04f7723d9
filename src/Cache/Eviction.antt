-- ===== src/Cache/Eviction.antt =====
-- The eviction of angeld/src/cache.rs, `evict_if_needed`: it ends, brings the cache below its
-- budget, and keeps the protected chunk.
use omnidrive.Prelude.{
  ℕ, zero, suc, ◌≤◌, ◌<◌, ◌≡◌, ◌≢◌, refl, sym, subst, String, Bool, true, false, not, ◌⊎◌, inl, inr,
  Option, leb, leb→le, if◌then◌else◌, All, length, Distinct, arith,
}
use omnidrive.Result.{Result, ok, err, and_then}
use omnidrive.Int64.{i64_max}
use omnidrive.Cache.{
  CacheError, Services, CacheManager, get_total_cache_size, list_cache_entries_by_lru,
}
use omnidrive.Cache.Manager.{Pass, LoopEnd, finished, out_of_fuel, evict_loop, evict_if_needed}
use omnidrive.Cache.Rows.{same_key, lru-Memᴰ, lru-Distinct, IsProtected, lru-All-IsProtected}
use omnidrive.Cache.Pass.{Returns, IsTracked, Passed, pass-Passed}

Returns-if {ℓ} :
    {A : Type ℓ} (P : A → CacheManager → Type 0) (b : Bool)
    (x y : Result CacheError A × CacheManager)
    → (b ≡ true → Returns P x)
    → (b ≡ false → Returns P y)
    → Returns P (if b then x else y)
Returns-if P true x y t f = t refl
Returns-if P false x y t f = f refl

module _ (w : Services) (max_bytes : ℕ) (protected : Option String) where
  -- The budget is met, or only the protected chunk is left.
  abbrev pub Fits : CacheManager → Type 0
  Fits s = (get_total_cache_size s.entries ≤ max_bytes) ⊎ All (IsProtected protected) s.entries

  abbrev Ends : LoopEnd → CacheManager → Type 0
  Ends r s = (r ≡ finished) × Fits s

  next_round :
      (fuel : ℕ) (s : CacheManager) (r : Result CacheError Pass × CacheManager)
      → Distinct same_key s.entries
      → Returns (Passed w max_bytes protected (list_cache_entries_by_lru 64 s.entries) s) r
      → ((total : ℕ) (s' : CacheManager)
          → IsTracked total s'
          → length s'.entries < length s.entries
          → Returns Ends (evict_loop w max_bytes fuel protected total s'))
      → Returns Ends (
          and_then r λ p s'.
            if p.removed_any
            then evict_loop w max_bytes fuel protected p.total_size s'
            else (ok finished, s'))
  next_round fuel s (err e, s') d h rest = tt
  next_round fuel s (ok p, s') d (inl h) rest =
      Returns-if Ends p.removed_any _ _ (λ _. rest p.total_size s' h.0 h.1) (λ f. absurd (cc (h.2)))
  next_round fuel s (ok p, s') d (inr h) rest =
      Returns-if Ends p.removed_any _ _ (λ t. absurd (cc (h.1)))
        λ _. (
          refl,
          inr (
              subst (λ (x : CacheManager). All (IsProtected protected) x.entries) (sym (h.0))
                (lru-All-IsProtected protected 62 s.entries d h.2)),
        )

  loop-Ends :
      (fuel total : ℕ) (s : CacheManager)
      → IsTracked total s
      → length s.entries < fuel
      → Returns Ends (evict_loop w max_bytes fuel protected total s)
  unfolding evict_loop
  loop-Ends zero total s t l = absurd (omega arith)
  loop-Ends (suc fuel) total s t l =
      Returns-if Ends (leb total max_bytes) _ _
        (λ k. (refl, inl (omega (arith, leb→le _ _ k, t.exact))))
        (λ _.
          next_round fuel s _ t.keyed
            (pass-Passed w max_bytes protected (list_cache_entries_by_lru 64 s.entries)
              (record { total_size = total; removed_any = false }) s refl t (lru-Memᴰ 64 s.entries)
              (lru-Distinct 64 s.entries t.keyed))
            λ total' s' t' l'. loop-Ends fuel total' s' t' (omega arith))

evicted :
    (w : Services) (protected : Option String) (s : CacheManager)
    → Distinct same_key s.entries
    → Returns (Ends w s.max_bytes protected) (evict_if_needed w protected s)
unfolding evict_if_needed
evicted w protected s d =
    Returns-if _ (not (leb s.max_bytes i64_max)) _ _ (λ _. tt)
      (λ _.
        loop-Ends w s.max_bytes protected (suc (length s.entries)) (get_total_cache_size s.entries)
          s (record { exact = refl; keyed = d }) (omega arith))

-- The eviction ends on every table whose keys are distinct: a number of rounds one above the number
-- of rows is never used up, whatever the budget, the protected key and the faults of removing files.
pub evict_if_needed_ends :
    (w : Services) (protected : Option String) (s : CacheManager)
    → Distinct same_key s.entries
    → (evict_if_needed w protected s).0 ≢ ok out_of_fuel
evict_if_needed_ends w protected s d e =
    ends (evict_if_needed w protected s) (evicted w protected s d) e
  where
    ends :
        (r : Result CacheError LoopEnd × CacheManager)
        → Returns (Ends w s.max_bytes protected) r
        → r.0 ≢ ok out_of_fuel
    ends (ok q, s') h e = cc (h.0)
    ends (err x, s') h e = cc

-- An eviction that succeeds, on a table whose keys are distinct, leaves the cache within its budget,
-- or leaves no row but the protected one.
pub evict_if_needed-Fits :
    (w : Services) (protected : Option String) (s : CacheManager)
    → Distinct same_key s.entries
    → (evict_if_needed w protected s).0 ≡ ok finished
    → Fits w s.max_bytes protected (evict_if_needed w protected s).1
evict_if_needed-Fits w protected s d e =
    fits (evict_if_needed w protected s) (evicted w protected s d) e
  where
    fits :
        (r : Result CacheError LoopEnd × CacheManager)
        → Returns (Ends w s.max_bytes protected) r
        → r.0 ≡ ok finished
        → Fits w s.max_bytes protected r.1
    fits (ok q, s') h e = h.1
    fits (err x, s') h e = cc
