-- ===== src/Chunks.antt =====
-- The chunk record of a pack: `ChunkRecordPrefix` of omnidrive-core/src/layout.rs, the builders of
-- angeld/src/packer.rs and angeld/src/downloader/chunk.rs, and `decrypt_chunk_record` of the latter.
-- A usize has 64 bits.
use omnidrive.Prelude.{
  ℕ, ◌+◌, ◌-◌, ◌*◌, ◌^◌, ◌%◌, String, Bool, true, false, ◌&&◌, not, Option, none, some, List, [],
  ◌∷◌, ◌++◌, ltb, leb, ◌==◌, if◌then◌else◌, length, str_eq,
}
use omnidrive.Result.{Result, ok, err, map_err, ◌>>=◌, ◌>>◌, guard, ok_or}
use omnidrive.Int64.{ℤ, pos, negsuc, i64_max}
use omnidrive.Bytes.{Bytes, bytes_eq, slice, to_be_bytes, from_be_bytes}
use omnidrive.Crypto.{Primitives, CryptoError, decrypt_chunk, decrypt_chunk_v2_verified}
pub mod Layout
pub mod Bounds
pub mod Readback
pub mod Rebuild
pub mod Encrypted

abbrev pub chunk_record_magic : Bytes
chunk_record_magic = b'C' ∷ b'H' ∷ b'N' ∷ b'K' ∷ []

abbrev pub compression_algo_none : ℕ
compression_algo_none = 0

abbrev pub key_wrapping_algo_aes_kw : ℕ
key_wrapping_algo_aes_kw = 1

-- `ChunkRecordPrefix::SIZE` and `ChunkRecordPrefix::GCM_TAG_SIZE`
abbrev pub prefix_size : ℕ
prefix_size = 80

abbrev pub gcm_tag_size : ℕ
gcm_tag_size = 16

pub record ChunkRecordPrefix : Type 0 where
  pub record_magic : Bytes
  pub record_version : ℕ
  pub flags : ℕ
  pub compression_algo : ℕ
  pub key_wrapping_algo : ℕ
  pub chunk_id : Bytes
  pub plain_len : ℕ
  pub cipher_len : ℕ
  pub nonce : Bytes
  pub dek_id_hint : Bytes
  pub reserved_1 : Bytes

abbrev pub zeros_4 : Bytes
zeros_4 = 0 ∷ 0 ∷ 0 ∷ 0 ∷ []

abbrev pub zeros_8 : Bytes
zeros_8 = zeros_4 ++ zeros_4

-- The prefix as it lies in memory, in front of `rest`.
unfoldable pub as_bytes : ChunkRecordPrefix → Bytes → Bytes
as_bytes p rest =
    p.record_magic
    ++ ((p.record_version ∷ p.flags ∷ p.compression_algo ∷ p.key_wrapping_algo ∷ [])
        ++ (p.chunk_id
            ++ (to_be_bytes 8 p.plain_len
                ++ (to_be_bytes 8 p.cipher_len
                    ++ (p.nonce ++ (p.dek_id_hint ++ (p.reserved_1 ++ rest)))))))

-- The packer's records; the arrays are the arguments' bytes.
unfoldable pub build_manifest_bytes : Bytes → Bytes → Bytes → Bytes → ℕ → Bytes
build_manifest_bytes chunk_id nonce ciphertext gcm_tag plaintext_len =
    let p : ChunkRecordPrefix = record {
      record_magic = chunk_record_magic;
      record_version = 1;
      flags = 0;
      compression_algo = compression_algo_none;
      key_wrapping_algo = 0;
      chunk_id = chunk_id;
      plain_len = plaintext_len;
      cipher_len = length ciphertext;
      nonce = nonce;
      dek_id_hint = zeros_4;
      reserved_1 = zeros_8;
    } in
    as_bytes p (ciphertext ++ gcm_tag)

unfoldable pub build_manifest_bytes_v2 : Bytes → Bytes → Bytes → Bytes → ℕ → ℕ → Bytes
build_manifest_bytes_v2 chunk_id nonce ciphertext gcm_tag plaintext_len dek_id =
    let p : ChunkRecordPrefix = record {
      record_magic = chunk_record_magic;
      record_version = 2;
      flags = 0;
      compression_algo = compression_algo_none;
      key_wrapping_algo = key_wrapping_algo_aes_kw;
      chunk_id = chunk_id;
      plain_len = plaintext_len;
      cipher_len = length ciphertext;
      nonce = nonce;
      dek_id_hint = to_be_bytes 4 (dek_id % 2 ^ 32);
      reserved_1 = zeros_8;
    } in
    as_bytes p (ciphertext ++ gcm_tag)

-- `out_of_bounds` is the model's own: the panic of an index or a range out of bounds.
pub data DownloaderError : Type 0 where
  invalid_pack_record : String → DownloaderError
  numeric_overflow : String → DownloaderError
  crypto : CryptoError → DownloaderError
  erasure : String → DownloaderError
  no_chunks_for_inode : ℕ → DownloaderError
  out_of_bounds : DownloaderError

-- The columns of a pack's row that the downloader reads.
pub record PackRow : Type 0 where
  pub chunk_id : Bytes
  pub encryption_version : ℤ
  pub logical_size : ℤ
  pub cipher_size : ℤ
  pub shard_size : ℤ
  pub nonce : Bytes
  pub gcm_tag : Bytes

pub record FileChunkLocation : Type 0 where
  pub chunk_id : Bytes
  pub chunk_index : ℤ
  pub file_offset : ℤ
  pub size : ℤ
  pub pack_id : String
  pub pack_offset : ℤ
  pub encrypted_size : ℤ

unfoldable pub to_usize : ℤ → String → Result DownloaderError ℕ
to_usize (pos n) what = ok n
to_usize (negsuc n) what = err (numeric_overflow what)

-- `u8::try_from`
abbrev pub to_u8 : ℤ → String → Result DownloaderError ℕ
to_u8 (pos n) what = if ltb n 256 then ok n else err (numeric_overflow what)
to_u8 (negsuc n) what = err (numeric_overflow what)

-- `try_into` an array of `n` bytes
unfoldable pub to_array : ℕ → String → Bytes → Result DownloaderError Bytes
to_array n what b = guard (length b == n) (invalid_pack_record what) >> ok b

-- The downloader's record, rebuilt from a pack's row.
unfoldable pub rebuild_manifest_bytes : PackRow → Bytes → Result DownloaderError Bytes
rebuild_manifest_bytes pack ciphertext = do
  chunk_id ← to_array 32 "chunk id length" pack.chunk_id
  nonce ← to_array 12 "nonce length" pack.nonce
  gcm_tag ← to_array 16 "gcm tag length" pack.gcm_tag
  plain_len ← to_usize pack.logical_size "logical size"
  version ← to_u8 pack.encryption_version "encryption version"
  let p : ChunkRecordPrefix = record {
    record_magic = chunk_record_magic;
    record_version = version;
    flags = 0;
    compression_algo = compression_algo_none;
    key_wrapping_algo = 0;
    chunk_id = chunk_id;
    plain_len = plain_len;
    cipher_len = length ciphertext;
    nonce = nonce;
    dek_id_hint = zeros_4;
    reserved_1 = zeros_8;
  }
  ok (as_bytes p (ciphertext ++ gcm_tag))

unfoldable pub at_range : ℕ → ℕ → Bytes → Result DownloaderError Bytes
at_range from to b = ok_or (slice from to b) out_of_bounds

abbrev pub usize_end : ℕ
usize_end = 2 ^ 64

abbrev pub checked_add : ℕ → ℕ → String → Result DownloaderError ℕ
checked_add a b what = guard (ltb (a + b) usize_end) (numeric_overflow what) >> ok (a + b)

-- `n as i64` of a usize
abbrev pub as_i64 : ℕ → ℤ
as_i64 n = if leb n i64_max then pos n else negsuc (usize_end - n - 1)

abbrev pub eq_ℤ : ℤ → ℤ → Bool
eq_ℤ (pos a) (pos b) = a == b
eq_ℤ (pos a) (negsuc b) = false
eq_ℤ (negsuc a) (pos b) = false
eq_ℤ (negsuc a) (negsuc b) = a == b

pub record ChunkKeys : Type 0 where
  pub vault_key : Bytes
  pub dek : Option Bytes

-- By the record's version: the file's key for version 2, the vault key for any other.
unfoldable pub open_record :
    Primitives → ChunkKeys → ℕ → Bytes → Bytes → Bytes → Bytes → Result DownloaderError Bytes
open_record c keys version id nonce ciphertext tag = elim (version == 2) [
  | true ↦ do
    dek ← ok_or keys.dek (invalid_pack_record "V2 chunk but no DEK available for this inode")
    map_err crypto (decrypt_chunk_v2_verified c dek id nonce [] ciphertext tag)
  | false ↦ map_err crypto (decrypt_chunk c keys.vault_key id [] ciphertext tag)
]

-- The record of a pack that a location names.
unfoldable pub record_at : Bytes → FileChunkLocation → Result DownloaderError Bytes
record_at pack_bytes chunk = do
  pack_offset ← to_usize chunk.pack_offset "pack offset"
  encrypted_size ← to_usize chunk.encrypted_size "encrypted size"
  record_end ← checked_add pack_offset encrypted_size "record end"
  guard (leb record_end (length pack_bytes) && leb prefix_size encrypted_size)
      (invalid_pack_record "record bounds")
  at_range pack_offset record_end pack_bytes

unfoldable pub open_checked :
    Primitives → ChunkKeys → FileChunkLocation → Bytes → Result DownloaderError Bytes
open_checked c keys chunk bytes = do
  magic ← at_range 0 4 bytes
  guard (bytes_eq magic chunk_record_magic) (invalid_pack_record "chunk magic")
  version ← at_range 4 5 bytes
  expected ← to_array 32 "chunk id length" chunk.chunk_id
  actual ← at_range 8 40 bytes
  guard (bytes_eq actual expected) (invalid_pack_record "chunk_id mismatch")
  plain ← at_range 40 48 bytes
  cipher ← at_range 48 56 bytes
  let cipher_len = from_be_bytes cipher
  tag_start ← checked_add prefix_size cipher_len "record size"
  tag_end ← checked_add tag_start gcm_tag_size "record size"
  guard (tag_end == length bytes) (invalid_pack_record "encrypted size mismatch")
  nonce ← at_range 56 68 bytes
  ciphertext ← at_range prefix_size tag_start bytes
  tag ← at_range tag_start tag_end bytes
  plaintext ← open_record c keys (from_be_bytes version) expected nonce ciphertext tag
  guard (eq_ℤ (as_i64 (length plaintext)) chunk.size && (length plaintext == from_be_bytes plain))
      (invalid_pack_record "plain size mismatch")
  ok plaintext

unfoldable pub decrypt_chunk_record :
    Primitives → Bytes → FileChunkLocation → ChunkKeys → Result DownloaderError Bytes
decrypt_chunk_record c pack_bytes chunk keys = do
  bytes ← record_at pack_bytes chunk
  open_checked c keys chunk bytes

-- nonce ‖ ciphertext ‖ tag
pub record EncryptedChunkBytes : Type 0 where
  pub nonce : Bytes
  pub ciphertext : Bytes
  pub gcm_tag : Bytes

unfoldable pub to_bytes : EncryptedChunkBytes → Bytes
to_bytes e = e.nonce ++ (e.ciphertext ++ e.gcm_tag)
