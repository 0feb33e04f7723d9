-- ===== src/Cache/Writing.antt =====
-- The row and the file that `put_chunk` of angeld/src/cache.rs writes.
use omnidrive.Prelude.{
  ◌≤◌, ◌≡◌, refl, sym, ap, subst, ◌∙◌, String, true, false, inl, inr, none, some, List, [], ◌∷◌,
  eq_iff, eq_refl, le→leb, if◌then◌else◌, Bool-cases, Option-cases, length, All, All-append,
  All-update_where, any_where, any_where-false, find_where, delete_where, find_where-append,
  find_where-update_where, find_where-any, find-delete_where, map_some, is_some, Distinct-append,
  Distinct-update_where, arith,
}
use omnidrive.Result.{Result, ok}
use omnidrive.Int64.{i64_max}
use omnidrive.Cache.{
  CachePath, CacheEntry, CacheError, Bytes, CacheFile, Services, CacheManager, has_cache_key,
  cached_again, upsert_cache_entry, is_at, same_path, cache_key, cache_path_for_key,
}
use omnidrive.Cache.Manager.{encrypt_cache_payload, evict_if_needed, put_chunk, write_file, LoopEnd}
use omnidrive.Cache.Rows.{same_key, same_key-sym}
use omnidrive.Cache.Keeping.{IsPlaced, IsCache, Keeps, evict-Keeps}

differ :
    (new : CacheEntry) (es : List CacheEntry)
    → All (λ r. has_cache_key new.cache_key r ≡ false) es
    → All (λ r. same_key new r ≡ false) es
differ new [] h = tt
differ new (e ∷ es) h = (same_key-sym e new h.0, differ new es h.1)

module _ (w : Services) where
  pub upsert-IsCache :
      (new : CacheEntry) (s : CacheManager)
      → IsPlaced w new
      → IsCache w s
      → (files : List CacheFile)
      → IsCache w (record s { entries = upsert_cache_entry new s.entries; files = files })
  unfolding upsert_cache_entry
  upsert-IsCache new s placed c files =
      elim (Bool-cases (any_where (has_cache_key new.cache_key) s.entries)) [
        | inl e ↦ record {
          keyed = rw e (
              Distinct-update_where same_key (has_cache_key new.cache_key) (cached_again new)
                (λ r t. refl) (λ r t. refl) s.entries c.keyed);
          placed = rw e (
              All-update_where (IsPlaced w) (IsPlaced w) (has_cache_key new.cache_key)
                (cached_again new) s.entries
                (λ r _ t.
                  placed ∙ ap (cache_path_for_key w) (sym ((eq_iff r.cache_key new.cache_key).0 t)))
                (λ r h _. h) c.placed);
        }
        | inr e ↦ record {
          keyed = rw e (
              Distinct-append same_key new s.entries c.keyed
                (differ new s.entries (any_where-false (has_cache_key new.cache_key) s.entries e)));
          placed = rw e (All-append (IsPlaced w) s.entries (new ∷ []) c.placed (placed, tt));
        }
      ]

  -- What a lookup of the written key finds.
  get-upsert :
      (new : CacheEntry) (es : List CacheEntry)
      → (e : CacheEntry) × (find_where (has_cache_key new.cache_key) (upsert_cache_entry new es)
          ≡ some e)
        × (e.cache_path ≡ new.cache_path)
        × (e.size ≡ new.size)
  unfolding upsert_cache_entry
  get-upsert new es = elim (Bool-cases (any_where (has_cache_key new.cache_key) es)) [
    | inl t ↦ elim (Option-cases (find_where (has_cache_key new.cache_key) es)) [
      | inl n ↦ absurd (ground (arith, find_where-any (has_cache_key new.cache_key) es))
      | inr (e, f) ↦ (
        cached_again new e,
        rw t (
            find_where-update_where (has_cache_key new.cache_key) (cached_again new) es (λ r h. h)
            ∙ ap (map_some (cached_again new)) f),
        refl,
        refl,
      )
    ]
    | inr t ↦ (
      new,
      rw t (
          find_where-append (has_cache_key new.cache_key) new es t
          ∙ ap (λ b. if b then some new else none) (eq_refl new.cache_key)),
      refl,
      refl,
    )
  ]

same_path_refl : (p : CachePath) → same_path p p ≡ true
unfolding same_path
same_path_refl p = rw (eq_refl p.dir_a, eq_refl p.dir_b, eq_refl p.file_name)

-- What a read of the written file finds.
read_write :
    (path : CachePath) (payload : Bytes) (files : List CacheFile)
    → find_where (is_at path) (write_file path payload files)
      ≡ some (record { path = path; payload = payload })
read_write path payload files =
    find_where-append (is_at path) (record { path = path; payload = payload })
      (delete_where (is_at path) files)
      (sym (find_where-any (is_at path) (delete_where (is_at path) files))
        ∙ ap is_some (find-delete_where (is_at path) files))
    ∙ ap (λ b. if b then some (record { path = path; payload = payload }) else none)
        (same_path_refl path)

abbrev pub stored : CacheManager → CacheEntry → List CacheFile → CacheManager
stored s new files = record s { entries = upsert_cache_entry new s.entries; files = files }

-- The row that a write inserts.
abbrev pub new_row : Services → CacheEntry → Bytes → CacheEntry
new_row w row bytes = record row {
  cache_key = cache_key row.revision_id row.chunk_index;
  cache_path = cache_path_for_key w (cache_key row.revision_id row.chunk_index);
  size = length bytes;
  created_at = w.now;
  last_accessed_at = w.now;
  access_count = 1;
}

module _ (w : Services) (row : CacheEntry) (bytes : Bytes) (s : CacheManager) where
  abbrev row_key : String
  row_key = cache_key row.revision_id row.chunk_index

  abbrev row_path : CachePath
  row_path = cache_path_for_key w row_key

  put_chunk-stored :
      (payload : Bytes)
      → w.create_fault row_path ≡ none
      → w.write_fault row_path ≡ none
      → length bytes ≤ i64_max
      → encrypt_cache_payload w row_key bytes ≡ ok payload
      → put_chunk w row bytes s
        ≡ evict_if_needed w
            (some row_key)
            (stored s (new_row w row bytes) (write_file row_path payload s.files))
  unfolding put_chunk
  put_chunk-stored payload c f l e = rw (c, e, f, le→leb (length bytes) i64_max l)

  -- After a write, the lookup finds the row and the file, eviction or not.
  pub put-Keeps :
      (payload : Bytes)
      → IsCache w s
      → w.create_fault row_path ≡ none
      → w.write_fault row_path ≡ none
      → length bytes ≤ i64_max
      → encrypt_cache_payload w row_key bytes ≡ ok payload
      → (e : CacheEntry) × (e.cache_path ≡ row_path)
        × (e.size ≡ length bytes)
        × Keeps w row_key
            (some e)
            (some (record { path = row_path; payload = payload }))
            (put_chunk w row bytes s).1
  put-Keeps payload c cf wf l e =
      let (found, f, p, z) = get-upsert w (new_row w row bytes) s.entries in
      let files = write_file row_path payload s.files in
      let k : Keeps w row_key (some found) (some (record { path = row_path; payload = payload }))
          (stored s (new_row w row bytes) files) =
        record {
          cache = upsert-IsCache w (new_row w row bytes) s refl c files;
          same_row = f;
          same_file = read_write row_path payload s.files;
        } in
      (
        found,
        p,
        z,
        subst
            (λ (r : Result CacheError LoopEnd × CacheManager).
              Keeps w row_key (some found) (some (record { path = row_path; payload = payload }))
                r.1)
            (sym (put_chunk-stored payload cf wf l e)) (evict-Keeps w row_key _ _ _ k),
      )
