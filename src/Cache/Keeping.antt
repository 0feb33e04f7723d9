-- ===== src/Cache/Keeping.antt =====
-- What the cache of angeld/src/cache.rs keeps: every row's key and path belong together, and an
-- eviction leaves the protected chunk's row and file.
use Prim.Native.String.{◌++◌ as join}
use text.Mathlib.TextLemmas.{append_cancel_right}
use omnidrive.Prelude.{
  ℕ, zero, suc, ◌-◌, ◌≡◌, sym, subst, ◌∙◌, String, Bool, true, false, not, inl, inr, Option, some,
  List, [], ◌∷◌, str_eq, eq_iff, str_eq-ne, leb, if◌then◌else◌, Bool-cases, All, find_where,
  find-delete_other, All-delete_where, Distinct, Distinct-delete_where, All-of_Memᴰ, arith,
}
use mathlib.Core.List.{Memᴰ}
use omnidrive.Result.{Result, ok, err, and_then}
use omnidrive.Int64.{i64_max}
use omnidrive.Cache.{
  CachePath, CacheEntry, CacheError, CacheFile, Services, CacheManager, has_cache_key, is_at,
  same_path, cache_path_for_key, delete_cache_entry, list_cache_entries_by_lru,
}
use omnidrive.Cache.Manager.{is_protected, Pass, evict_pass, evict_loop, evict_if_needed}
use omnidrive.Cache.Rows.{same_key, lru-Memᴰ}
use omnidrive.Cache.Pass.{
  removed, delete_entry-cases, after, pass_protected, pass_fault, pass_enough, pass_more,
}

-- The file of a row is the one that the row's key names.
abbrev pub IsPlaced : Services → CacheEntry → Type 0
IsPlaced w e = e.cache_path ≡ cache_path_for_key w e.cache_key

pub record IsCache (w : Services) (s : CacheManager) : Type 0 where
  pub keyed : Distinct same_key s.entries
  pub placed : All (IsPlaced w) s.entries

pub removed-IsCache :
    {w : Services} {s : CacheManager} (key : String) (path : CachePath)
    → IsCache w s
    → IsCache w (removed key path s)
unfolding removed delete_cache_entry
removed-IsCache {w = w} {s = s} key path c = record {
  keyed = Distinct-delete_where same_key (has_cache_key key) s.entries c.keyed;
  placed = All-delete_where (IsPlaced w) (has_cache_key key) s.entries c.placed;
}

same_path-file_name : (p q : CachePath) → same_path p q ≡ true → p.file_name ≡ q.file_name
unfolding same_path
same_path-file_name p q h = ground (arith, eq_iff p.file_name q.file_name)

-- Two keys name two files.
paths_differ :
    (w : Services) (a b : String) (f : CachePath)
    → str_eq a b ≡ false
    → same_path f (cache_path_for_key w a) ≡ true
    → same_path f (cache_path_for_key w b) ≡ false
unfolding same_path cache_path_for_key
paths_differ w a b f ne h =
    let last : str_eq f.file_name (join b ".bin") ≡ false =
      str_eq-ne f.file_name (join b ".bin") λ q.
        let p : f.file_name ≡ join a ".bin" = same_path-file_name f (cache_path_for_key w a) h in
        let k : a ≡ b = append_cancel_right a b ".bin" (sym p ∙ q) in
        let t : str_eq a b ≡ true = (eq_iff a b).1 k in cc in
    ground arith

-- The row and the file of a key, as a lookup finds them, in a state whose table is in order.
pub record Keeps (w : Services) (key : String) (row : Option CacheEntry) (file : Option CacheFile)
    (s : CacheManager) : Type 0 where
  pub cache : IsCache w s
  pub same_row : find_where (has_cache_key key) s.entries ≡ row
  pub same_file : find_where (is_at (cache_path_for_key w key)) s.files ≡ file

module _ (w : Services) (key : String) (row : Option CacheEntry) (file : Option CacheFile) where
  removed-Keeps :
      {s : CacheManager} (e : CacheEntry)
      → IsPlaced w e
      → str_eq e.cache_key key ≡ false
      → Keeps w key row file s
      → Keeps w key row file (removed e.cache_key e.cache_path s)
  unfolding removed delete_cache_entry
  removed-Keeps {s = s} e placed ne k = record {
    cache = removed-IsCache e.cache_key e.cache_path k.cache;
    same_row =
        find-delete_other (has_cache_key key) (has_cache_key e.cache_key) s.entries
          (λ r h. subst (λ x. str_eq x key ≡ false) (sym ((eq_iff r.cache_key e.cache_key).0 h)) ne)
        ∙ k.same_row;
    same_file =
        find-delete_other (is_at (cache_path_for_key w key)) (is_at e.cache_path) s.files (λ f h.
          paths_differ w e.cache_key key f.path ne
            (subst (λ x. same_path f.path x ≡ true) placed h))
        ∙ k.same_file;
  }

  abbrev Left {ℓ} : {A : Type ℓ} → Result CacheError A × CacheManager → Type 0
  Left r = Keeps w key row file r.1

  pass-Keeps :
      (max_bytes : ℕ) (es : List CacheEntry) (p : Pass) (s : CacheManager)
      → All (IsPlaced w) es
      → Keeps w key row file s
      → Left (evict_pass w max_bytes (some key) es p s)
  unfolding evict_pass is_protected after
  pass-Keeps max_bytes [] p s h k = k
  pass-Keeps max_bytes (e ∷ es) p s h k = elim (Bool-cases (is_protected (some key) e)) [
    | inl t ↦
        subst Left (sym (pass_protected w max_bytes (some key) e es p s t))
          (pass-Keeps max_bytes es p s h.1 k)
    | inr t ↦ elim (delete_entry-cases w e.cache_key e.cache_path s) [
      | inr (x, q) ↦ subst Left (sym (pass_fault w max_bytes (some key) e es p s t q)) k
      | inl q ↦
          let k' : Keeps w key row file (removed e.cache_key e.cache_path s) =
            removed-Keeps e h.0 t k in
          elim (Bool-cases (leb (p.total_size - e.size) max_bytes)) [
            | inl f ↦ subst Left (sym (pass_enough w max_bytes (some key) e es p s t q f)) k'
            | inr f ↦
                subst Left (sym (pass_more w max_bytes (some key) e es p s t q f))
                  (pass-Keeps max_bytes es _ (removed e.cache_key e.cache_path s) h.1 k')
          ]
    ]
  ]

  Left-if {ℓ} :
      {A : Type ℓ} (b : Bool) (x y : Result CacheError A × CacheManager)
      → Left x
      → Left y
      → Left (if b then x else y)
  Left-if true x y hx hy = hx
  Left-if false x y hx hy = hy

  Left-and_then {ℓ κ} :
      {A : Type ℓ} {B : Type κ} (r : Result CacheError A × CacheManager)
      (f : A → CacheManager → Result CacheError B × CacheManager)
      → Left r
      → ((a : A) (s : CacheManager) → Keeps w key row file s → Left (f a s))
      → Left (and_then r f)
  Left-and_then (ok a, s) f h g = g a s h
  Left-and_then (err x, s) f h g = h

  candidates-IsPlaced :
      (s : CacheManager) → IsCache w s → All (IsPlaced w) (list_cache_entries_by_lru 64 s.entries)
  candidates-IsPlaced s c = go _ (lru-Memᴰ 64 s.entries)
    where
      go : (es : List CacheEntry) → All (λ e. Memᴰ e s.entries) es → All (IsPlaced w) es
      go [] m = tt
      go (e ∷ es) m = (All-of_Memᴰ (IsPlaced w) s.entries c.placed m.0, go es m.1)

  loop-Keeps :
      (max_bytes fuel total : ℕ) (s : CacheManager)
      → Keeps w key row file s
      → Left (evict_loop w max_bytes fuel (some key) total s)
  unfolding evict_loop
  loop-Keeps max_bytes zero total s k = k
  loop-Keeps max_bytes (suc fuel) total s k = Left-if (leb total max_bytes) _ _ k (
      Left-and_then
        (evict_pass w max_bytes (some key) (list_cache_entries_by_lru 64 s.entries)
          (record { total_size = total; removed_any = false }) s)
        _ (pass-Keeps max_bytes _ _ s (candidates-IsPlaced s k.cache) k)
        λ p s' k'. Left-if p.removed_any _ _ (loop-Keeps max_bytes fuel p.total_size s' k') k')

  pub evict-Keeps :
      (s : CacheManager) → Keeps w key row file s → Left (evict_if_needed w (some key) s)
  unfolding evict_if_needed
  evict-Keeps s k = Left-if (not (leb s.max_bytes i64_max)) _ _ k (loop-Keeps _ _ _ s k)
