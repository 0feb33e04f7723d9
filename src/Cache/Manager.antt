-- ===== src/Cache/Manager.antt =====
-- The operations of `CacheManager` in angeld/src/cache.rs.
use omnidrive.Prelude.{
  ℕ, zero, suc, ◌+◌, ◌-◌, String, Bool, true, false, Option, none, some, List, [], ◌∷◌, ◌++◌,
  str_eq, leb, ◌==◌, not, if◌then◌else◌, length, take, drop, find_where, delete_where,
}
use omnidrive.Result.{Result, ok, err, and_then}
use omnidrive.Int64.{i64_max}
use omnidrive.Cache.{
  CachePath, CacheEntry, CacheError, io, vault, crypto, numeric_overflow, Bytes, CacheFile,
  Services, CacheManager, cache_nonce_len, get_cache_entry, upsert_cache_entry, touch_cache_entry,
  list_cache_entries_by_lru, get_total_cache_size, delete_cache_entry, cache_key,
  cache_path_for_key, is_at,
}

abbrev pub set_entries : CacheManager → List CacheEntry → CacheManager
set_entries s es = record s { entries = es }

abbrev pub miss : CacheManager → CacheManager
miss s = record s { miss_count = s.miss_count + 1 }

abbrev pub hit : CacheManager → CacheManager
hit s = record s { hit_count = s.hit_count + 1 }

abbrev pub fault_of : Option String → Result CacheError (Unit {0})
fault_of none = ok tt
fault_of (some e) = err (io e)

abbrev pub or_crypto : String → Option Bytes → Result CacheError Bytes
or_crypto reason none = err (crypto reason)
or_crypto reason (some b) = ok b

abbrev pub seal : Services → String → Bytes → Bytes → Result CacheError Bytes
seal w key plaintext k = elim (w.encrypt k w.nonce key plaintext) [
  | none ↦ err (crypto "cache encryption failed")
  | some ciphertext ↦ ok (w.nonce ++ ciphertext)
]

-- `derive_cache_key().await?`, handed to the cipher
abbrev pub with_cache_key :
    Result String Bytes → (Bytes → Result CacheError Bytes) → Result CacheError Bytes
with_cache_key (ok k) f = f k
with_cache_key (err e) f = err (vault e)

unfoldable pub encrypt_cache_payload : Services → String → Bytes → Result CacheError Bytes
encrypt_cache_payload w key plaintext = with_cache_key w.derive_cache_key (seal w key plaintext)

abbrev pub open_payload : Services → String → Bytes → Bytes → Result CacheError Bytes
open_payload w key payload k =
    or_crypto "cache decryption failed"
      (w.decrypt k (take cache_nonce_len payload) key (drop cache_nonce_len payload))

unfoldable pub decrypt_cache_payload : Services → String → Bytes → Result CacheError Bytes
decrypt_cache_payload w key payload =
    if leb (length payload) cache_nonce_len
    then err (crypto "cache payload too short")
    else with_cache_key w.derive_cache_key (open_payload w key payload)

-- A missing file is as good as a removed one.
unfoldable pub delete_entry :
    Services → String → CachePath → CacheManager → Result CacheError (Unit {0}) × CacheManager
delete_entry w key path s =
    and_then (fault_of (w.remove_fault path), s)
      λ _ s'. (
        ok tt,
        record s' {
          entries = delete_cache_entry key s'.entries;
          files = delete_where (is_at path) s'.files;
        },
      )

abbrev pub discard :
    Services → CacheEntry → CacheManager → Result CacheError (Option Bytes) × CacheManager
discard w e s = and_then (delete_entry w e.cache_key e.cache_path s) λ _ s'. (ok none, miss s')

abbrev pub check_size :
    Services
    → CacheEntry
    → String
    → Bytes
    → CacheManager
    → Result CacheError (Option Bytes) × CacheManager
check_size w e key plaintext s =
    if not (leb (length plaintext) i64_max)
    then (err (numeric_overflow "cache plaintext length"), s)
    else (if not (length plaintext == e.size)
        then discard w e s
        else (ok (some plaintext), hit (set_entries s (touch_cache_entry w.now key s.entries))))

abbrev pub check_payload :
    Services
    → CacheEntry
    → String
    → Result CacheError Bytes
    → CacheManager
    → Result CacheError (Option Bytes) × CacheManager
check_payload w e key (ok plaintext) s = check_size w e key plaintext s
check_payload w e key (err _) s = discard w e s

-- What `fs::read` answers: the payload, NotFound, or another error.
abbrev pub read_entry :
    Services
    → CacheEntry
    → String
    → Option String
    → Option CacheFile
    → CacheManager
    → Result CacheError (Option Bytes) × CacheManager
read_entry w e key (some fault) file s = (err (io fault), s)
read_entry w e key none none s = (ok none, miss (set_entries s (delete_cache_entry key s.entries)))
read_entry w e key none (some f) s = check_payload w e key (decrypt_cache_payload w key f.payload) s

abbrev pub read_found :
    Services
    → String
    → Option CacheEntry
    → CacheManager
    → Result CacheError (Option Bytes) × CacheManager
read_found w key none s = (ok none, miss s)
read_found w key (some e) s =
    read_entry w e key (w.read_fault e.cache_path) (find_where (is_at e.cache_path) s.files) s

unfoldable pub get_chunk :
    Services → String → CacheManager → Result CacheError (Option Bytes) × CacheManager
get_chunk w key s = read_found w key (get_cache_entry key s.entries) s

unfoldable pub is_protected : Option String → CacheEntry → Bool
is_protected none e = false
is_protected (some key) e = str_eq e.cache_key key

-- What one pass over the candidates leaves: the running total, and whether it removed any.
pub record Pass : Type 0 where
  pub total_size : ℕ
  pub removed_any : Bool

unfoldable pub evict_pass :
    Services
    → ℕ
    → Option String
    → List CacheEntry
    → Pass
    → CacheManager
    → Result CacheError Pass × CacheManager
evict_pass w max_bytes protected [] p s = (ok p, s)
evict_pass w max_bytes protected (e ∷ es) p s = elim (is_protected protected e) [
  | true ↦ evict_pass w max_bytes protected es p s
  | false ↦ and_then (delete_entry w e.cache_key e.cache_path s) λ _ s'.
      let total = p.total_size - e.size in
      let p' : Pass = record { total_size = total; removed_any = true } in
      elim (leb total max_bytes) [
        | true ↦ (ok p', s')
        | false ↦ evict_pass w max_bytes protected es p' s'
      ]
]

-- How the loop of the eviction ends; `out_of_fuel` is the model's own.
pub data LoopEnd : Type 0 where
  finished : LoopEnd
  out_of_fuel : LoopEnd

unfoldable pub evict_loop :
    Services → ℕ → ℕ → Option String → ℕ → CacheManager → Result CacheError LoopEnd × CacheManager
evict_loop w max_bytes zero protected total s = (ok out_of_fuel, s)
evict_loop w max_bytes (suc fuel) protected total s =
    let again =
      and_then
        (evict_pass w max_bytes protected (list_cache_entries_by_lru 64 s.entries)
          (record { total_size = total; removed_any = false }) s)
        λ p s'.
          let rest = evict_loop w max_bytes fuel protected p.total_size s' in
          if p.removed_any then rest else (ok finished, s') in
    if leb total max_bytes then (ok finished, s) else again

-- One round for each row of the table and one more.
unfoldable pub evict_if_needed :
    Services → Option String → CacheManager → Result CacheError LoopEnd × CacheManager
evict_if_needed w protected s =
    if not (leb s.max_bytes i64_max)
    then (err (numeric_overflow "cache byte budget"), s)
    else evict_loop w s.max_bytes (suc (length s.entries)) protected
        (get_total_cache_size s.entries) s

abbrev pub write_file : CachePath → Bytes → List CacheFile → List CacheFile
write_file path payload files =
    delete_where (is_at path) files ++ (record { path = path; payload = payload } ∷ [])

abbrev pub in_directory :
    Services → CachePath → CacheManager → Result CacheError (Unit {0}) × CacheManager
in_directory w path s = (fault_of (w.create_fault path), s)

-- The columns that the caller binds, and the bytes; the row's key and path are computed.
unfoldable pub put_chunk :
    Services → CacheEntry → Bytes → CacheManager → Result CacheError LoopEnd × CacheManager
put_chunk w row bytes s =
    let key = cache_key row.revision_id row.chunk_index in
    let path = cache_path_for_key w key in
    let new : CacheEntry = record row {
      cache_key = key;
      cache_path = path;
      size = length bytes;
      created_at = w.now;
      last_accessed_at = w.now;
      access_count = 1;
    } in
    and_then (in_directory w path s) λ _ s₁.
      and_then (encrypt_cache_payload w key bytes, s₁)
        λ payload s₂.
          and_then (fault_of (w.write_fault path), s₂)
            λ _ s₃.
              let s₄ = record s₃ { files = write_file path payload s₃.files } in
              if not (leb (length bytes) i64_max)
              then (err (numeric_overflow "cache write length"), s₄)
              else evict_if_needed w (some key) (set_entries s₄ (upsert_cache_entry new s₄.entries))
