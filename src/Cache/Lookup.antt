-- ===== src/Cache/Lookup.antt =====
-- Reading and writing chunks through the cache: `get_chunk` and `put_chunk` of
-- angeld/src/cache.rs.
use omnidrive.Prelude.{
  ◌≤◌, ◌<◌, ◌≡◌, sym, subst, String, false, none, some, ◌++◌, leb, le→leb, ==_iff, length, take,
  drop, take-append, drop-append, length-append, find_where, arith,
}
use omnidrive.Result.{ok}
use omnidrive.Int64.{i64_max}
use omnidrive.Cache.{
  CacheEntry, Bytes, CacheFile, Services, CacheManager, has_cache_key, get_cache_entry, is_at,
  cache_key, cache_path_for_key,
}
use omnidrive.Cache.Manager.{encrypt_cache_payload, decrypt_cache_payload, get_chunk, put_chunk}
use omnidrive.Cache.Writing.{put-Keeps}
use omnidrive.Cache.Keeping.{IsCache}

module _ (w w' : Services) (key : String) (k bytes ciphertext : Bytes)
    (derived : w.derive_cache_key ≡ ok k) (derived' : w'.derive_cache_key ≡ ok k)
    (sealed : w.encrypt k w.nonce key bytes ≡ some ciphertext)
    (opened : w'.decrypt k w.nonce key ciphertext ≡ some bytes) (nonce : length w.nonce ≡ 12)
    (tag : 0 < length ciphertext) where
  encrypt_lem : encrypt_cache_payload w key bytes ≡ ok (w.nonce ++ ciphertext)
  unfolding encrypt_cache_payload
  encrypt_lem = rw (derived, sealed)

  decrypt_lem : decrypt_cache_payload w' key (w.nonce ++ ciphertext) ≡ ok bytes
  unfolding decrypt_cache_payload
  decrypt_lem =
      let long : leb (length (w.nonce ++ ciphertext)) 12 ≡ false =
        ground (arith, length-append w.nonce ciphertext) in
      let front : take 12 (w.nonce ++ ciphertext) ≡ w.nonce =
        subst (λ n. take n (w.nonce ++ ciphertext) ≡ w.nonce) nonce
          (take-append w.nonce ciphertext) in
      let back : drop 12 (w.nonce ++ ciphertext) ≡ ciphertext =
        subst (λ n. drop n (w.nonce ++ ciphertext) ≡ ciphertext) nonce
          (drop-append w.nonce ciphertext) in
      rw (long, derived', front, back, opened)

-- A row whose file reads and decrypts to as many bytes as it says is a hit.
get_chunk-hit :
    (w : Services) (key : String) (s : CacheManager) {e : CacheEntry} {f : CacheFile}
    {bytes : Bytes}
    → find_where (has_cache_key key) s.entries ≡ some e
    → find_where (is_at e.cache_path) s.files ≡ some f
    → w.read_fault e.cache_path ≡ none
    → decrypt_cache_payload w key f.payload ≡ ok bytes
    → length bytes ≤ i64_max
    → length bytes ≡ e.size
    → (get_chunk w key s).0 ≡ ok (some bytes)
unfolding get_chunk get_cache_entry
get_chunk-hit w key s {bytes = bytes} e f r d l z =
    rw (e, r, f, d, le→leb (length bytes) i64_max l, (==_iff (length bytes) _).1 z)

-- What `put_chunk` writes, `get_chunk` reads back. The table is in order; the directory and the file
-- can be written, and the file read; the same key is derived both times; decryption under the nonce
-- and the cache key undoes the encryption, whose result is not empty; the nonce has twelve bytes.
-- The claim holds whether the eviction that ends the write succeeds, fails or has nothing to do.
pub get-put_chunk :
    (w w' : Services) (row : CacheEntry) (bytes k ciphertext : Bytes) (s : CacheManager)
    → (let key = cache_key row.revision_id row.chunk_index in
        let path = cache_path_for_key w key in
        IsCache w s
        → w.create_fault path ≡ none
        → w.write_fault path ≡ none
        → w'.read_fault path ≡ none
        → w.derive_cache_key ≡ ok k
        → w'.derive_cache_key ≡ ok k
        → w.encrypt k w.nonce key bytes ≡ some ciphertext
        → w'.decrypt k w.nonce key ciphertext ≡ some bytes
        → length w.nonce ≡ 12
        → 0 < length ciphertext
        → length bytes ≤ i64_max
        → (get_chunk w' key (put_chunk w row bytes s).1).0 ≡ ok (some bytes))
get-put_chunk w w' row bytes k ciphertext s c cf wf rf d d' sealed opened n t l =
    let key = cache_key row.revision_id row.chunk_index in
    let (e, p, z, keeps) =
      put-Keeps w row bytes s (w.nonce ++ ciphertext) c cf wf l
        (encrypt_lem w w' key k bytes ciphertext d d' sealed opened n t) in
    get_chunk-hit w' key (put_chunk w row bytes s).1 keeps.same_row
      (subst
        (λ q.
          find_where (is_at q) (put_chunk w row bytes s).1.files
          ≡ some (record { path = cache_path_for_key w key; payload = w.nonce ++ ciphertext }))
        (sym p) keeps.same_file)
      (subst (λ q. w'.read_fault q ≡ none) (sym p) rf)
      (decrypt_lem w w' key k bytes ciphertext d d' sealed opened n t) l (sym z)
