-- ===== src/Chunks/Encrypted.antt =====
-- The encrypted bytes that a shared link serves: `get_encrypted_chunk_bytes` of
-- angeld/src/downloader/read.rs on the pack's bytes, and its wire format.
use omnidrive.Prelude.{
  ℕ, ◌+◌, ◌-◌, ◌^◌, ◌%◌, ◌<◌, ◌≡◌, refl, ◌∙◌, ap, sym, none, [], ◌++◌, leb, le→leb, length,
  length-append, arith,
}
use mathlib.Core.List.{append-nil}
use omnidrive.Result.{Result, ok, map_err, ◌>>=◌, ◌>>◌, guard}
use omnidrive.Int64.{pos}
use omnidrive.Bytes.{
  Bytes, bytes_eq, bytes_eq_refl, slice, slice_past, slice_first, to_be_bytes, from_be_bytes,
  from-to_be_bytes,
}
use omnidrive.Crypto.{Primitives, EncryptedChunk, encrypt_chunk_v2, decrypt_chunk_v2_verified}
use omnidrive.Crypto.Roundtrip.{IsAead, decrypt-encrypt_chunk_v2}
use omnidrive.Chunks.{
  DownloaderError, invalid_pack_record, crypto, chunk_record_magic, at_range, usize_end,
  FileChunkLocation, ChunkKeys, EncryptedChunkBytes, to_bytes, record_at, prefix_size, gcm_tag_size,
  build_manifest_bytes_v2, as_bytes, ChunkRecordPrefix,
}
use omnidrive.Chunks.Layout.{
  IsLaidOut, at_magic, at_cipher_len, at_nonce, at_ciphertext, at_tag, length-as_bytes,
}
use omnidrive.Chunks.Readback.{record_at-append, prefix_v2, v2-IsLaidOut}

-- The parts of a record; the sums of the ends wrap as in a release build.
unfoldable pub parts_of : Bytes → Result DownloaderError EncryptedChunkBytes
parts_of bytes = do
  magic ← at_range 0 4 bytes
  guard (bytes_eq magic chunk_record_magic) (invalid_pack_record "chunk magic")
  cipher ← at_range 48 56 bytes
  nonce ← at_range 56 68 bytes
  let ciphertext_end = (prefix_size + from_be_bytes cipher) % usize_end
  let tag_end = (ciphertext_end + gcm_tag_size) % usize_end
  guard (leb tag_end (length bytes)) (invalid_pack_record "record too short")
  ciphertext ← at_range prefix_size ciphertext_end bytes
  gcm_tag ← at_range ciphertext_end tag_end bytes
  ok (record { nonce = nonce; ciphertext = ciphertext; gcm_tag = gcm_tag })

unfoldable pub get_encrypted_chunk_bytes :
    Bytes → FileChunkLocation → Result DownloaderError EncryptedChunkBytes
get_encrypted_chunk_bytes pack_bytes chunk = do bytes ← record_at pack_bytes chunk; parts_of bytes

-- What a reader of the wire format does: the nonce in front, the tag at the end.
unfoldable pub open_wire : Primitives → Bytes → Bytes → Bytes → Result DownloaderError Bytes
open_wire c dek id wire = do
  nonce ← at_range 0 12 wire
  ciphertext ← at_range 12 (length wire - 16) wire
  gcm_tag ← at_range (length wire - 16) (length wire) wire
  map_err crypto (decrypt_chunk_v2_verified c dek id nonce [] ciphertext gcm_tag)

parts_of-as_bytes :
    (p : ChunkRecordPrefix) (h : IsLaidOut p) (ciphertext tag : Bytes) (t : length tag ≡ 16)
    → p.cipher_len ≡ length ciphertext
    → 80 + length ciphertext + 16 < 2 ^ 64
    → parts_of (as_bytes p (ciphertext ++ tag))
      ≡ ok (record { nonce = p.nonce; ciphertext = ciphertext; gcm_tag = tag })
unfolding parts_of
parts_of-as_bytes p h ciphertext tag t cl fits =
    let len : from_be_bytes (to_be_bytes 8 p.cipher_len) ≡ length ciphertext =
      from-to_be_bytes 8 p.cipher_len (omega arith) ∙ cl in
    let f₁ : (80 + length ciphertext) % 2 ^ 64 ≡ 80 + length ciphertext = omega arith in
    let f₂ : (80 + length ciphertext + 16) % 2 ^ 64 ≡ 80 + length ciphertext + 16 = omega arith in
    rw (
      at_magic p h ciphertext tag t,
      bytes_eq_refl chunk_record_magic,
      at_cipher_len p h ciphertext tag t,
      at_nonce p h ciphertext tag t,
      len,
      f₁,
      f₂,
      length-as_bytes p h ciphertext tag t,
      le→leb (80 + length ciphertext + 16) (80 + length ciphertext + 16) (omega arith),
      at_ciphertext p h ciphertext tag t,
      at_tag p h ciphertext tag t,
    )

open_wire-to_bytes :
    (c : Primitives) (dek id : Bytes) (e : EncryptedChunkBytes)
    → length e.nonce ≡ 12
    → length e.gcm_tag ≡ 16
    → open_wire c dek id (to_bytes e)
      ≡ map_err crypto (decrypt_chunk_v2_verified c dek id e.nonce [] e.ciphertext e.gcm_tag)
unfolding open_wire to_bytes at_range
open_wire-to_bytes c dek id e n t =
    let l : length (e.nonce ++ (e.ciphertext ++ e.gcm_tag)) ≡ 12 + length e.ciphertext + 16 =
      omega (
        arith,
        length-append e.nonce (e.ciphertext ++ e.gcm_tag),
        length-append e.ciphertext e.gcm_tag,
      ) in
    let m : 12 + length e.ciphertext + 16 - 16 ≡ 12 + length e.ciphertext = omega arith in
    let s₂ =
      slice_past e.nonce (e.ciphertext ++ e.gcm_tag) 12 12 (12 + length e.ciphertext) 0
        (length e.ciphertext) n refl refl
      ∙ slice_first e.ciphertext e.gcm_tag (length e.ciphertext) refl in
    let s₃ =
      slice_past e.nonce (e.ciphertext ++ e.gcm_tag) 12 (12 + length e.ciphertext)
        (12 + length e.ciphertext + 16) (length e.ciphertext + 0) (length e.ciphertext + 16) n
        (omega arith) (omega arith)
      ∙ (slice_past e.ciphertext e.gcm_tag (length e.ciphertext) (length e.ciphertext + 0)
            (length e.ciphertext + 16) 0 16 refl refl refl
          ∙ (ap (slice 0 16) (sym (append-nil e.gcm_tag)) ∙ slice_first e.gcm_tag [] 16 t)) in
    rw (slice_first e.nonce (e.ciphertext ++ e.gcm_tag) 12 n, l, m, s₂, s₃)

-- A chunk that was encrypted under the file's key and laid out by `build_manifest_bytes_v2` is
-- served from any place in a pack's bytes so that a reader of the wire format with that key and the
-- chunk's id gets the plaintext. The location has the record's offset and size; AES-GCM decryption
-- undoes encryption, with a tag of sixteen bytes; the id has 32 bytes and the nonce twelve; the bytes
-- up to the record's end number less than 2^64.
pub open_wire-served :
    (c : Primitives) (chunk : FileChunkLocation) (dek nonce plaintext before after : Bytes)
    (dek_id : ℕ) {e : EncryptedChunk}
    → IsAead c
    → encrypt_chunk_v2 c nonce dek plaintext [] ≡ ok e
    → length e.chunk_id ≡ 32
    → length e.nonce ≡ 12
    → length e.gcm_tag ≡ 16
    → length before + (80 + length e.ciphertext + 16) < 2 ^ 64
    → chunk.pack_offset ≡ pos (length before)
    → chunk.encrypted_size ≡ pos (80 + length e.ciphertext + 16)
    → (get_encrypted_chunk_bytes
          (before
            ++ (build_manifest_bytes_v2 e.chunk_id e.nonce e.ciphertext e.gcm_tag
                  (length plaintext)
                  dek_id
                ++ after))
          chunk
        >>= λ served. open_wire c dek e.chunk_id (to_bytes served))
      ≡ ok plaintext
unfolding get_encrypted_chunk_bytes build_manifest_bytes_v2
open_wire-served c chunk dek nonce plaintext before after dek_id {e = e} laws enc i n t fits offset
      esize =
    let p = prefix_v2 e.chunk_id e.nonce e.ciphertext e.gcm_tag (length plaintext) i n dek_id in
    let h = v2-IsLaidOut e.chunk_id e.nonce e.ciphertext e.gcm_tag (length plaintext) i n dek_id in
    let keys : ChunkKeys = record { vault_key = []; dek = none } in
    rw (
      record_at-append c keys chunk p h e.ciphertext e.gcm_tag plaintext t before after offset esize
          fits,
      parts_of-as_bytes p h e.ciphertext e.gcm_tag t refl (omega arith),
      open_wire-to_bytes c dek e.chunk_id
          (record { nonce = e.nonce; ciphertext = e.ciphertext; gcm_tag = e.gcm_tag }) n t,
      decrypt-encrypt_chunk_v2 c nonce dek plaintext [] laws enc,
    )
