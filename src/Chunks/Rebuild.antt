-- ===== src/Chunks/Rebuild.antt =====
-- The downloader's record against the packer's: `build_manifest_bytes` of
-- angeld/src/downloader/chunk.rs and of angeld/src/packer.rs.
use omnidrive.Prelude.{ℕ, ◌≡◌, length}
use omnidrive.Result.{ok}
use omnidrive.Int64.{pos}
use omnidrive.Bytes.{Bytes}
use omnidrive.Chunks.{PackRow, rebuild_manifest_bytes, build_manifest_bytes, to_usize}
use omnidrive.Chunks.Readback.{to_array_lem}

module _ (pack : PackRow) (ciphertext : Bytes) (plain_len : ℕ) (i : length pack.chunk_id ≡ 32)
    (n : length pack.nonce ≡ 12) (t : length pack.gcm_tag ≡ 16)
    (l : pack.logical_size ≡ pos plain_len) where
  -- For a pack of encryption version 1 whose row has an id of 32 bytes, a nonce of twelve and a tag of
  -- sixteen, and whose logical size is not negative, the downloader rebuilds the packer's record
  -- byte for byte.
  pub rebuild-build :
      pack.encryption_version ≡ pos 1
      → rebuild_manifest_bytes pack ciphertext
        ≡ ok (build_manifest_bytes pack.chunk_id pack.nonce ciphertext pack.gcm_tag plain_len)
  unfolding rebuild_manifest_bytes build_manifest_bytes to_usize
  rebuild-build v = rw (
    to_array_lem 32 "chunk id length" pack.chunk_id i,
    to_array_lem 12 "nonce length" pack.nonce n,
    to_array_lem 16 "gcm tag length" pack.gcm_tag t,
    l,
    v,
  )
