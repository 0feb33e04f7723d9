-- ===== src/Examples/Cached.antt =====
-- A cache of two chunks over its budget, and a file of two chunks read through a range.
use omnidrive.Prelude.{
  ℕ, zero, suc, ◌≡◌, ◌≢◌, refl, String, false, none, some, List, [], ◌∷◌, ◌++◌, take, drop,
  find_where, order_by, insert_by, delete_where, Distinct, arith,
}
use omnidrive.Result.{Result, ok, ◌>>=◌}
use omnidrive.Bytes.{Bytes}
use omnidrive.Cache.{
  CachePath, CacheEntry, CacheFile, Services, CacheManager, cache_key, cache_path_for_key,
  get_cache_entry, same_path, get_total_cache_size, list_cache_entries_by_lru, lru_first, text_leb,
  delete_cache_entry,
}
use omnidrive.Cache.Manager.{
  get_chunk, put_chunk, evict_if_needed, finished, out_of_fuel, decrypt_cache_payload, evict_loop,
  evict_pass, is_protected, delete_entry,
}
use omnidrive.Cache.Rows.{same_key}
use omnidrive.Cache.Keeping.{IsCache}
use omnidrive.Cache.Eviction.{Fits, evict_if_needed_ends, evict_if_needed-Fits}
use omnidrive.Cache.Lookup.{get-put_chunk}
use omnidrive.Cache.Integrity.{Backed, get_chunk-some}
use omnidrive.Chunks.{DownloaderError}
use omnidrive.Ranges.{ChunkLocation, read_range, read_range_streamed}
use omnidrive.Ranges.Contiguous.{read_range_lem}
use omnidrive.Ranges.Streamed.{accept, concat, streamed-read_range}

abbrev nonce : Bytes
nonce = 1 ∷ 2 ∷ 3 ∷ 4 ∷ 5 ∷ 6 ∷ 7 ∷ 8 ∷ 9 ∷ 10 ∷ 11 ∷ 12 ∷ []

abbrev services : Services
services = record {
  now = 100;
  digest_hex = λ key. "abcdef";
  create_fault = λ p. none;
  read_fault = λ p. none;
  write_fault = λ p. none;
  remove_fault = λ p. none;
  derive_cache_key = ok (5 ∷ []);
  nonce = nonce;
  encrypt = λ key n aad m. some (0 ∷ m);
  decrypt = λ key n aad c. some (drop 1 c);
}

abbrev path_of : String → CachePath
path_of name = record { dir_a = "ab"; dir_b = "cd"; file_name = name }

abbrev entry : String → String → ℕ → ℕ → CacheEntry
entry key file bytes accessed = record {
  cache_key = key;
  inode_id = 1;
  revision_id = 1;
  chunk_index = 0;
  pack_id = "p";
  file_path = "f";
  cache_path = path_of file;
  size = bytes;
  created_at = 1;
  last_accessed_at = accessed;
  access_count = 1;
  is_prefetched = false;
}

abbrev full : CacheManager
full = record {
  entries = entry "1:0" "1:0.bin" 10 50 ∷ entry "1:1" "1:1.bin" 20 60 ∷ [];
  files = record { path = path_of "1:0.bin"; payload = nonce ++ (0 ∷ []) } ∷ [];
  max_bytes = 25;
  hit_count = 0;
  miss_count = 0;
}

full-Distinct : Distinct same_key full.entries
full-Distinct = ((refl, tt), (tt, tt))

evict_if_needed_ends_example : (evict_if_needed services (some "1:1") full).0 ≢ ok out_of_fuel
evict_if_needed_ends_example = evict_if_needed_ends services (some "1:1") full full-Distinct

evicts : (evict_if_needed services (some "1:1") full).0 ≡ ok finished
unfolding evict_if_needed evict_loop evict_pass list_cache_entries_by_lru get_total_cache_size
    order_by insert_by lru_first text_leb is_protected delete_entry delete_cache_entry delete_where
evicts = refl

evict_if_needed-Fits_example :
    Fits services 25 (some "1:1") (evict_if_needed services (some "1:1") full).1
evict_if_needed-Fits_example = evict_if_needed-Fits services (some "1:1") full full-Distinct evicts

full-IsCache : IsCache services full
unfolding cache_path_for_key
full-IsCache = record { keyed = full-Distinct; placed = (refl, (refl, tt)) }

get-put_chunk_example :
    (get_chunk services
      (cache_key 2 3)
      (put_chunk services
        (record (entry "" "" 0 0) { revision_id = 2; chunk_index = 3 })
        (7 ∷ 8 ∷ [])
        full).1).0
    ≡ ok (some (7 ∷ 8 ∷ []))
get-put_chunk_example =
    get-put_chunk services services (record (entry "" "" 0 0) { revision_id = 2; chunk_index = 3 })
      (7 ∷ 8 ∷ []) (5 ∷ []) (0 ∷ 7 ∷ 8 ∷ []) full full-IsCache refl refl refl refl refl refl refl
      refl (omega arith) (omega arith)

abbrev one_file : CacheManager
one_file = record full {
  entries = entry "1:0" "1:0.bin" 1 50 ∷ [];
  files = record { path = path_of "1:0.bin"; payload = nonce ++ (0 ∷ 9 ∷ []) } ∷ [];
}

hit_lem : (get_chunk services "1:0" one_file).0 ≡ ok (some (9 ∷ []))
unfolding get_chunk get_cache_entry find_where same_path decrypt_cache_payload
hit_lem = refl

get_chunk-some_example :
    (e : CacheEntry) × (get_cache_entry "1:0" one_file.entries ≡ some e)
    × ((f : CacheFile) × Backed services "1:0" one_file (9 ∷ []) e f)
get_chunk-some_example = get_chunk-some services "1:0" one_file (9 ∷ []) hit_lem

abbrev location : ℕ → ℕ → ℕ → ChunkLocation
location index at bytes = record {
  chunk_id = [];
  chunk_index = index;
  file_offset = at;
  size = bytes;
  pack_id = "p";
}

abbrev load : ChunkLocation → Result DownloaderError Bytes
load c = elim (c.chunk_index) [ zero ↦ ok (1 ∷ 2 ∷ 3 ∷ []) | suc n ↦ ok (4 ∷ 5 ∷ []) ]

abbrev rows : List ChunkLocation
rows = location 0 0 3 ∷ location 1 3 2 ∷ []

read_range_lem_example :
    read_range (ok nonce) (λ key. load) (some rows) 1 2 10 ≡ ok (3 ∷ 4 ∷ 5 ∷ [])
read_range_lem_example =
    read_range_lem (ok nonce) (λ key. load) nonce rows (1 ∷ 2 ∷ 3 ∷ 4 ∷ 5 ∷ []) 1 2 10 refl
      (
        refl,
        (
          1 ∷ 2 ∷ 3 ∷ [],
          4 ∷ 5 ∷ [],
          refl,
          refl,
          refl,
          (refl, (4 ∷ 5 ∷ [], [], refl, refl, refl, refl)),
        ),
      )
      (omega arith) (omega arith) (omega arith) (omega arith)

streamed-read_range_example : read_range (ok nonce) (λ key. load) (some rows) 1 2 2 ≡ (
    read_range_streamed (ok nonce) (λ key. load) accept (some rows) 1 2 2 >>= λ pieces.
    ok (take 2 (concat pieces)))
streamed-read_range_example = streamed-read_range (ok nonce) (λ key. load) (some rows) 1 2 2
