-- ===== src/Shards/Restore.antt =====
-- From a chunk to its shards and back: the encryption of omnidrive-core/src/crypto.rs, the shards of
-- angeld/src/packer.rs, the assembly of `download_pack` in angeld/src/downloader/pack.rs, and
-- `decrypt_chunk_record` of angeld/src/downloader/chunk.rs.
use mathlib.Core.List.{append-nil}
use omnidrive.Prelude.{
  ℕ, ◌+◌, ◌^◌, ◌≤◌, ◌<◌, ◌≡◌, refl, subst, none, some, List, [], ◌++◌, map, length, arith,
}
use omnidrive.Result.{ok, ◌>>=◌}
use omnidrive.Int64.{pos, i64_max}
use omnidrive.Bytes.{Bytes}
use omnidrive.Crypto.{Primitives, EncryptedChunk, encrypt_chunk_v2}
use omnidrive.Crypto.Roundtrip.{IsAead, decrypt-encrypt_chunk_v2}
use omnidrive.Db.{ec2_1}
use omnidrive.Chunks.{
  PackRow, FileChunkLocation, ChunkKeys, ChunkRecordPrefix, as_bytes, chunk_record_magic,
  compression_algo_none, zeros_4, zeros_8, rebuild_manifest_bytes, to_usize, open_record,
  decrypt_chunk_record,
}
use omnidrive.Chunks.Layout.{IsLaidOut}
use omnidrive.Chunks.Readback.{open_checked-as_bytes, record_at-append, to_array_lem}
use omnidrive.Shards.{
  ReedSolomon, set, shard_len_of, split_ciphertext_into_shards, assemble_pack, ciphertext_of,
}
use omnidrive.Shards.Recovery.{IsErasureCode, reconstruct-split}

-- The row of a pack that holds the chunk.
pub record Holds (pack : PackRow) (e : EncryptedChunk) (plaintext : Bytes) : Type 0 where
  pub version : pack.encryption_version ≡ pos 2
  pub id : pack.chunk_id ≡ e.chunk_id
  pub nonce : pack.nonce ≡ e.nonce
  pub tag : pack.gcm_tag ≡ e.gcm_tag
  pub logical_size : pack.logical_size ≡ pos (length plaintext)
  pub cipher_size : pack.cipher_size ≡ pos (length e.ciphertext)
  pub shard_size : pack.shard_size ≡ pos (shard_len_of e.ciphertext)
  pub id_length : length e.chunk_id ≡ 32
  pub nonce_length : length e.nonce ≡ 12
  pub tag_length : length e.gcm_tag ≡ 16
  pub record_fits : 80 + length e.ciphertext + 16 < 2 ^ 64
  pub plaintext_fits : length plaintext ≤ i64_max

-- A location that names the whole of such a pack.
pub record Locates (chunk : FileChunkLocation) (e : EncryptedChunk) (plaintext : Bytes)
    : Type 0 where
  pub id : chunk.chunk_id ≡ e.chunk_id
  pub size : chunk.size ≡ pos (length plaintext)
  pub offset : chunk.pack_offset ≡ pos 0
  pub encrypted_size : chunk.encrypted_size ≡ pos (80 + length e.ciphertext + 16)

module _ (e : EncryptedChunk) (plaintext : Bytes) where
  rebuilt_prefix : ChunkRecordPrefix
  rebuilt_prefix = record {
    record_magic = chunk_record_magic;
    record_version = 2;
    flags = 0;
    compression_algo = compression_algo_none;
    key_wrapping_algo = 0;
    chunk_id = e.chunk_id;
    plain_len = length plaintext;
    cipher_len = length e.ciphertext;
    nonce = e.nonce;
    dek_id_hint = zeros_4;
    reserved_1 = zeros_8;
  }

  rebuilt :
      (pack : PackRow)
      → Holds pack e plaintext
      → rebuild_manifest_bytes pack e.ciphertext
        ≡ ok (as_bytes rebuilt_prefix (e.ciphertext ++ e.gcm_tag))
  unfolding rebuild_manifest_bytes to_usize rebuilt_prefix
  rebuilt pack h = rw (
    h.id,
    to_array_lem 32 "chunk id length" e.chunk_id h.id_length,
    h.nonce,
    to_array_lem 12 "nonce length" e.nonce h.nonce_length,
    h.tag,
    to_array_lem 16 "gcm tag length" e.gcm_tag h.tag_length,
    h.logical_size,
    h.version,
  )

  rebuilt_opens :
      (c : Primitives) (keys : ChunkKeys) (chunk : FileChunkLocation) (pack : PackRow)
      (dek nonce : Bytes)
      → IsAead c
      → encrypt_chunk_v2 c nonce dek plaintext [] ≡ ok e
      → keys.dek ≡ some dek
      → Holds pack e plaintext
      → Locates chunk e plaintext
      → decrypt_chunk_record c (as_bytes rebuilt_prefix (e.ciphertext ++ e.gcm_tag)) chunk keys
        ≡ ok plaintext
  unfolding decrypt_chunk_record rebuilt_prefix open_record
  rebuilt_opens c keys chunk pack dek nonce laws enc k h at =
      let p = rebuilt_prefix in
      let l : IsLaidOut p = record {
        magic = refl;
        id = h.id_length;
        nonce = h.nonce_length;
        hint = refl;
        reserved = refl;
      } in
      let o : open_record c keys 2 e.chunk_id e.nonce e.ciphertext e.gcm_tag ≡ ok plaintext =
        rw (k, decrypt-encrypt_chunk_v2 c nonce dek plaintext [] laws enc) in
      let r =
        record_at-append c keys chunk p l e.ciphertext e.gcm_tag plaintext h.tag_length [] []
          at.offset at.encrypted_size (omega (arith, h.record_fits)) in
      subst (λ (b : Bytes). decrypt_chunk_record c b chunk keys ≡ ok plaintext)
        (append-nil (as_bytes p (e.ciphertext ++ e.gcm_tag)))
        (rw r (
          open_checked-as_bytes c keys chunk p l e.ciphertext e.gcm_tag plaintext h.tag_length refl
            refl h.record_fits h.plaintext_fits at.id at.size o))

-- A chunk that was encrypted under the file's key can be split into shards, and is restored when any
-- one of them is lost, or none: the pack assembled from the others decrypts to the chunk. The pack's
-- row and the location name it; the code, of shards that are not empty, fills in one missing shard,
-- and AES-GCM decryption undoes encryption.
pub restore_any_loss :
    (c : Primitives) (rs : ReedSolomon) (keys : ChunkKeys) (chunk : FileChunkLocation)
    (pack : PackRow) (dek nonce plaintext : Bytes) {e : EncryptedChunk}
    → IsAead c
    → IsErasureCode rs
    → encrypt_chunk_v2 c nonce dek plaintext [] ≡ ok e
    → keys.dek ≡ some dek
    → Holds pack e plaintext
    → Locates chunk e plaintext
    → (shards : List Bytes) × (split_ciphertext_into_shards rs e.ciphertext ≡ ok shards)
      × ((i : ℕ)
          → (assemble_pack rs ec2_1 pack (set (map some shards) i none) >>= λ bytes.
              decrypt_chunk_record c bytes chunk keys)
            ≡ ok plaintext)
unfolding assemble_pack ciphertext_of
restore_any_loss c rs keys chunk pack dek nonce plaintext {e = e} laws code enc k h at =
    let (shards, cut, whole) =
      reconstruct-split rs code e.ciphertext pack h.shard_size h.cipher_size in
    (
      shards,
      cut,
      λ i.
          rw (whole i, rebuilt e plaintext pack h)
            (rebuilt_opens e plaintext c keys chunk pack dek nonce laws enc k h at),
    )
