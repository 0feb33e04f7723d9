-- ===== src/Cache/Integrity.antt =====
-- What a hit of the cache rests on: `get_chunk` of
-- angeld/src/cache.rs.
use omnidrive.Prelude.{
  ◌≡◌, refl, sym, ap, ◌∙◌, String, inl, inr, Option, none, some, leb, ◌==◌, ==_iff, Bool-cases,
  length, find_where, arith,
}
use omnidrive.Result.{Result, ok, err}
use omnidrive.Int64.{i64_max}
use omnidrive.Cache.{
  CacheEntry, CacheError, Bytes, CacheFile, Services, CacheManager, get_cache_entry, is_at,
}
use omnidrive.Cache.Manager.{
  discard, check_payload, read_entry, read_found, decrypt_cache_payload, get_chunk,
}
use omnidrive.Cache.Pass.{delete_entry-cases}

module _ (w : Services) (key : String) (s : CacheManager) (bytes : Bytes) where
  discard-ne : (e : CacheEntry) → (discard w e s).0 ≡ ok (some bytes) → ⊥
  discard-ne e h = elim (delete_entry-cases w e.cache_key e.cache_path s) [
    | inl q ↦ cc (q)
    | inr (x, q) ↦ cc (q)
  ]

  check-some :
      (e : CacheEntry) (r : Result CacheError Bytes)
      → (check_payload w e key r s).0 ≡ ok (some bytes)
      → (r ≡ ok bytes) × (length bytes ≡ e.size)
  check-some e (err x) h = absurd (discard-ne e h)
  check-some e (ok plain) h = elim (Bool-cases (leb (length plain) i64_max)) [
    | inr l ↦ absurd (ground arith)
    | inl l ↦ elim (Bool-cases (length plain == e.size)) [
      | inl z ↦
          let same : plain ≡ bytes = ground arith in
          (ap ok same, ap length (sym same) ∙ (==_iff (length plain) e.size).0 z)
      | inr z ↦ absurd (discard-ne e (ground arith))
    ]
  ]

  abbrev pub Backed : CacheEntry → CacheFile → Type 0
  Backed e f =
      (find_where (is_at e.cache_path) s.files ≡ some f)
      × (decrypt_cache_payload w key f.payload ≡ ok bytes)
      × (length bytes ≡ e.size)

  read-some :
      (e : CacheEntry) (fault : Option String) (file : Option CacheFile)
      → find_where (is_at e.cache_path) s.files ≡ file
      → (read_entry w e key fault file s).0 ≡ ok (some bytes)
      → (f : CacheFile) × Backed e f
  read-some e (some x) file q h = cc
  read-some e none none q h = cc
  read-some e none (some f) q h =
      let (d, z) = check-some e (decrypt_cache_payload w key f.payload) h in (f, (q, d, z))

  found-some :
      (o : Option CacheEntry)
      → (read_found w key o s).0 ≡ ok (some bytes)
      → (e : CacheEntry) × (o ≡ some e) × ((f : CacheFile) × Backed e f)
  found-some none h = cc
  found-some (some e) h = (e, refl, read-some e (w.read_fault e.cache_path) _ refl h)

-- `get_chunk` hands out bytes only if a row of that key has a file that decrypts to them, under the
-- derived key and with the cache key as associated data, and the row's size is their number.
pub get_chunk-some :
    (w : Services) (key : String) (s : CacheManager) (bytes : Bytes)
    → (get_chunk w key s).0 ≡ ok (some bytes)
    → (e : CacheEntry) × (get_cache_entry key s.entries ≡ some e)
      × ((f : CacheFile) × Backed w key s bytes e f)
unfolding get_chunk
get_chunk-some w key s bytes h = found-some w key s bytes (get_cache_entry key s.entries) h
