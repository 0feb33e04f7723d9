-- ===== src/Cache.antt =====
-- The chunk cache: the table cache_entries of angeld/src/db/cache.rs, and `CacheManager` of
-- angeld/src/cache.rs over that table and the payload files below the cache's root directory.
-- Sizes, counters and times are natural numbers. The key derivation, AES-256-GCM and SHA-256 are
-- the fields of `Services`, with the faults of the file system. The path that a row stores is the
-- path of the file: the root directory is taken to be UTF-8, so `to_string_lossy` loses nothing.
use Prim.Native.Char.{code}
use Prim.Native.String.{◌++◌ as join}
use omnidrive.Prelude.{
  ℕ, zero, suc, ◌+◌, ◌-◌, ◌≤◌, String, Bool, true, false, ◌&&◌, not, Option, none, some, List, [],
  ◌∷◌, ◌++◌, str_eq, ltb, leb, ◌==◌, if◌then◌else◌, length, take, any_where, count_where,
  find_where, update_where, delete_where, order_by,
}
use omnidrive.Result.{Result, ok, err, map_err, and_then}
use omnidrive.Int64.{i64_max}
use omnidrive.AutoLock.{digits}
pub use omnidrive.Bytes.{Bytes}
pub mod Manager
pub mod Rows
pub mod Pass
pub mod Eviction
pub mod Keeping
pub mod Writing
pub mod Lookup
pub mod Integrity

-- A path, by its components below the root directory.
pub record CachePath : Type 0 where
  pub dir_a : String
  pub dir_b : String
  pub file_name : String

pub record CacheEntry : Type 0 where
  pub cache_key : String
  pub inode_id : ℕ
  pub revision_id : ℕ
  pub chunk_index : ℕ
  pub pack_id : String
  pub file_path : String
  pub cache_path : CachePath
  pub size : ℕ
  pub created_at : ℕ
  pub last_accessed_at : ℕ
  pub access_count : ℕ
  pub is_prefetched : Bool

abbrev pub has_cache_key : String → CacheEntry → Bool
has_cache_key key e = str_eq e.cache_key key

unfoldable pub get_cache_entry : String → List CacheEntry → Option CacheEntry
get_cache_entry key es = find_where (has_cache_key key) es

-- The values that a write of a chunk binds.
abbrev pub cached_again : CacheEntry → CacheEntry → CacheEntry
cached_again new e = record e {
  inode_id = new.inode_id;
  revision_id = new.revision_id;
  chunk_index = new.chunk_index;
  pack_id = new.pack_id;
  file_path = new.file_path;
  cache_path = new.cache_path;
  size = new.size;
  last_accessed_at = new.last_accessed_at;
  access_count = e.access_count + 1;
  is_prefetched = new.is_prefetched;
}

unfoldable pub upsert_cache_entry : CacheEntry → List CacheEntry → List CacheEntry
upsert_cache_entry new es =
    if any_where (has_cache_key new.cache_key) es
    then update_where (has_cache_key new.cache_key) (cached_again new) es
    else es ++ (new ∷ [])

abbrev pub touched : ℕ → CacheEntry → CacheEntry
touched now e = record e { last_accessed_at = now; access_count = e.access_count + 1 }

unfoldable pub touch_cache_entry : ℕ → String → List CacheEntry → List CacheEntry
touch_cache_entry now key es = update_where (has_cache_key key) (touched now) es

-- The order of two texts under the BINARY collation.
unfoldable pub text_leb : String → String → Bool
text_leb String.[] t = true
text_leb (String.◌∷◌ c s) String.[] = false
text_leb (String.◌∷◌ c s) (String.◌∷◌ d t) =
    let rest = text_leb s t in
    if ltb (code c) (code d) then true else (if code c == code d then rest else false)

-- ORDER BY last_accessed_at, created_at, cache_key
unfoldable pub lru_first : CacheEntry → CacheEntry → Bool
unfolding text_leb
lru_first a b =
    if a.last_accessed_at == b.last_accessed_at
    then (if a.created_at == b.created_at
        then text_leb a.cache_key b.cache_key
        else ltb a.created_at b.created_at)
    else ltb a.last_accessed_at b.last_accessed_at

unfoldable pub list_cache_entries_by_lru : ℕ → List CacheEntry → List CacheEntry
list_cache_entries_by_lru limit es = take limit (order_by lru_first es)

unfoldable pub get_total_cache_size : List CacheEntry → ℕ
get_total_cache_size [] = 0
get_total_cache_size (e ∷ es) = e.size + get_total_cache_size es

pub record CacheStatusSummary : Type 0 where
  pub total_entries : ℕ
  pub total_bytes : ℕ
  pub prefetched_entries : ℕ

unfoldable pub get_cache_status_summary : List CacheEntry → CacheStatusSummary
get_cache_status_summary es = record {
  total_entries = length es;
  total_bytes = get_total_cache_size es;
  prefetched_entries = count_where (λ e. e.is_prefetched) es;
}

unfoldable pub delete_cache_entry : String → List CacheEntry → List CacheEntry
delete_cache_entry key es = delete_where (has_cache_key key) es

pub data CacheError : Type 0 where
  io : String → CacheError
  vault : String → CacheError
  crypto : String → CacheError
  numeric_overflow : String → CacheError

pub record CacheFile : Type 0 where
  pub path : CachePath
  pub payload : Bytes

-- What a call sees outside the cache: the clock, the file system's faults by path (an error other
-- than NotFound), the derived cache key, the random nonce, and the cipher under key, nonce and
-- associated data.
pub record Services : Type 0 where
  pub now : ℕ
  pub digest_hex : String → String
  pub create_fault : CachePath → Option String
  pub read_fault : CachePath → Option String
  pub write_fault : CachePath → Option String
  pub remove_fault : CachePath → Option String
  pub derive_cache_key : Result String Bytes
  pub nonce : Bytes
  pub encrypt : Bytes → Bytes → String → Bytes → Option Bytes
  pub decrypt : Bytes → Bytes → String → Bytes → Option Bytes

-- The manager's state: the table, the files, and the two counters.
pub record CacheManager : Type 0 where
  pub entries : List CacheEntry
  pub files : List CacheFile
  pub max_bytes : ℕ
  pub hit_count : ℕ
  pub miss_count : ℕ

abbrev pub cache_nonce_len : ℕ
cache_nonce_len = 12

unfoldable pub cache_key : ℕ → ℕ → String
cache_key revision_id chunk_index =
    join (digits 20 revision_id "") (join ":" (digits 20 chunk_index ""))

-- `&text[..n]` and `&text[n..]` of a text of one-byte characters
abbrev pub text_take : ℕ → String → String
text_take zero s = ""
text_take (suc n) String.[] = ""
text_take (suc n) (String.◌∷◌ c s) = String.◌∷◌ c (text_take n s)

abbrev pub text_drop : ℕ → String → String
text_drop zero s = s
text_drop (suc n) String.[] = ""
text_drop (suc n) (String.◌∷◌ c s) = text_drop n s

unfoldable pub cache_path_for_key : Services → String → CachePath
cache_path_for_key w key = record {
  dir_a = text_take 2 (w.digest_hex key);
  dir_b = text_take 2 (text_drop 2 (w.digest_hex key));
  file_name = join key ".bin";
}

unfoldable pub same_path : CachePath → CachePath → Bool
same_path p q = str_eq p.dir_a q.dir_a && str_eq p.dir_b q.dir_b && str_eq p.file_name q.file_name

abbrev pub is_at : CachePath → CacheFile → Bool
is_at p f = same_path f.path p
