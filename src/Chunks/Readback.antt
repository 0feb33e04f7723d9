-- ===== src/Chunks/Readback.antt =====
-- Reading a chunk record where it was written: `decrypt_chunk_record` of
-- angeld/src/downloader/chunk.rs on a record that a builder laid out.
use omnidrive.Prelude.{
  ℕ, ◌+◌, ◌^◌, ◌%◌, ◌≤◌, ◌<◌, ◌≡◌, refl, ◌∙◌, true, String, some, [], ◌∷◌, ◌++◌, ltb, leb, lt→ltb,
  le→leb, ==_iff, length, length-append, arith,
}
use omnidrive.Result.{ok}
use omnidrive.Int64.{pos, i64_max}
use omnidrive.Bytes.{
  Bytes, bytes_eq_refl, slice, slice_past, slice_first, to_be_bytes, from_be_bytes,
  length-to_be_bytes, from-to_be_bytes,
}
use omnidrive.Crypto.{Primitives, EncryptedChunk, encrypt_chunk, encrypt_chunk_v2}
use omnidrive.Crypto.Roundtrip.{IsAead, decrypt-encrypt_chunk, decrypt-encrypt_chunk_v2}
use omnidrive.Chunks.{
  ChunkRecordPrefix, as_bytes, chunk_record_magic, at_range, to_usize, to_array, FileChunkLocation,
  ChunkKeys, open_record, record_at, open_checked, decrypt_chunk_record, build_manifest_bytes,
  build_manifest_bytes_v2, compression_algo_none, key_wrapping_algo_aes_kw, zeros_4, zeros_8,
}
use omnidrive.Chunks.Layout.{
  IsLaidOut, at_magic, at_version, at_id, at_plain_len, at_cipher_len, at_nonce, at_ciphertext,
  at_tag, length-as_bytes,
}

from_one : (n : ℕ) → from_be_bytes (n ∷ []) ≡ n
unfolding from_be_bytes
from_one n = ground arith

pub to_array_lem : (n : ℕ) (what : String) (b : Bytes) → length b ≡ n → to_array n what b ≡ ok b
unfolding to_array
to_array_lem n what b e = rw ((==_iff (length b) n).1 e)

module _ (c : Primitives) (keys : ChunkKeys) (chunk : FileChunkLocation) (p : ChunkRecordPrefix)
    (h : IsLaidOut p) (ciphertext tag plaintext : Bytes) (t : length tag ≡ 16) where
  pub open_checked-as_bytes :
      p.cipher_len ≡ length ciphertext
      → p.plain_len ≡ length plaintext
      → 80 + length ciphertext + 16 < 2 ^ 64
      → length plaintext ≤ i64_max
      → chunk.chunk_id ≡ p.chunk_id
      → chunk.size ≡ pos (length plaintext)
      → open_record c keys p.record_version p.chunk_id p.nonce ciphertext tag ≡ ok plaintext
      → open_checked c keys chunk (as_bytes p (ciphertext ++ tag)) ≡ ok plaintext
  unfolding open_checked
  open_checked-as_bytes cl pl fits small id size o =
      let len : from_be_bytes (to_be_bytes 8 p.cipher_len) ≡ length ciphertext =
        from-to_be_bytes 8 p.cipher_len (omega arith) ∙ cl in
      let plain : from_be_bytes (to_be_bytes 8 p.plain_len) ≡ length plaintext =
        from-to_be_bytes 8 p.plain_len (omega arith) ∙ pl in
      let f₁ : ltb (80 + length ciphertext) (2 ^ 64) ≡ true = lt→ltb _ _ (omega arith) in
      let f₂ : ltb (80 + length ciphertext + 16) (2 ^ 64) ≡ true = lt→ltb _ _ fits in
      rw (
        at_magic p h ciphertext tag t,
        bytes_eq_refl chunk_record_magic,
        at_version p h ciphertext tag t,
        id,
        to_array_lem 32 "chunk id length" p.chunk_id h.id,
        at_id p h ciphertext tag t,
        bytes_eq_refl p.chunk_id,
        at_plain_len p h ciphertext tag t,
        at_cipher_len p h ciphertext tag t,
        len,
        f₁,
        f₂,
        length-as_bytes p h ciphertext tag t,
        (==_iff (80 + length ciphertext + 16) (80 + length ciphertext + 16)).1 refl,
        at_nonce p h ciphertext tag t,
        at_ciphertext p h ciphertext tag t,
        at_tag p h ciphertext tag t,
        from_one p.record_version,
        o,
        plain,
        size,
        le→leb (length plaintext) i64_max small,
        (==_iff (length plaintext) (length plaintext)).1 refl,
      )

  pub record_at-append :
      (before after : Bytes)
      → chunk.pack_offset ≡ pos (length before)
      → chunk.encrypted_size ≡ pos (80 + length ciphertext + 16)
      → length before + (80 + length ciphertext + 16) < 2 ^ 64
      → record_at (before ++ (as_bytes p (ciphertext ++ tag) ++ after)) chunk
        ≡ ok (as_bytes p (ciphertext ++ tag))
  unfolding record_at to_usize at_range
  record_at-append before after offset size fits =
      let n = 80 + length ciphertext + 16 in
      let body = as_bytes p (ciphertext ++ tag) in
      let l : length body ≡ n = length-as_bytes p h ciphertext tag t in
      let f : ltb (length before + n) (2 ^ 64) ≡ true = lt→ltb _ _ fits in
      let inside : leb (length before + n) (length (before ++ (body ++ after))) ≡ true =
        le→leb _ _
          (omega (arith, length-append before (body ++ after), length-append body after)) in
      let long : leb 80 n ≡ true = le→leb _ _ (omega arith) in
      let s : slice (length before) (length before + n) (before ++ (body ++ after)) ≡ some body =
        slice_past before (body ++ after) (length before) (length before) (length before + n) 0 n
          refl (omega arith) refl
        ∙ slice_first body after n l in
      rw (offset, size, f, inside, long, s)

-- What the packer lays out.
module _ (id nonce ciphertext tag : Bytes) (plain_len : ℕ) (i : length id ≡ 32)
    (n : length nonce ≡ 12) where
  abbrev prefix_v1 : ChunkRecordPrefix
  prefix_v1 = record {
    record_magic = chunk_record_magic;
    record_version = 1;
    flags = 0;
    compression_algo = compression_algo_none;
    key_wrapping_algo = 0;
    chunk_id = id;
    plain_len = plain_len;
    cipher_len = length ciphertext;
    nonce = nonce;
    dek_id_hint = zeros_4;
    reserved_1 = zeros_8;
  }

  abbrev pub prefix_v2 : ℕ → ChunkRecordPrefix
  prefix_v2 dek_id = record prefix_v1 {
    record_version = 2;
    key_wrapping_algo = key_wrapping_algo_aes_kw;
    dek_id_hint = to_be_bytes 4 (dek_id % 2 ^ 32);
  }

  v1-IsLaidOut : IsLaidOut prefix_v1
  v1-IsLaidOut = record { magic = refl; id = i; nonce = n; hint = refl; reserved = refl }

  pub v2-IsLaidOut : (dek_id : ℕ) → IsLaidOut (prefix_v2 dek_id)
  v2-IsLaidOut dek_id = record {
    magic = refl;
    id = i;
    nonce = n;
    hint = length-to_be_bytes 4 (dek_id % 2 ^ 32);
    reserved = refl;
  }

-- A chunk that was encrypted under the file's key and laid out by `build_manifest_bytes_v2` is read
-- back from any place in a pack's bytes: with the location's id, offset and sizes those of the
-- record, `decrypt_chunk_record` returns the plaintext. AES-GCM decryption undoes encryption, with a
-- tag of sixteen bytes; the id has 32 bytes and the nonce twelve; the bytes up to the record's end
-- number less than 2^64, and the plaintext's fit an i64.
pub read_packed_v2 :
    (c : Primitives) (keys : ChunkKeys) (chunk : FileChunkLocation)
    (dek nonce plaintext before after : Bytes) (dek_id : ℕ) {e : EncryptedChunk}
    → IsAead c
    → encrypt_chunk_v2 c nonce dek plaintext [] ≡ ok e
    → keys.dek ≡ some dek
    → length e.chunk_id ≡ 32
    → length e.nonce ≡ 12
    → length e.gcm_tag ≡ 16
    → length before + (80 + length e.ciphertext + 16) < 2 ^ 64
    → length plaintext ≤ i64_max
    → chunk.chunk_id ≡ e.chunk_id
    → chunk.size ≡ pos (length plaintext)
    → chunk.pack_offset ≡ pos (length before)
    → chunk.encrypted_size ≡ pos (80 + length e.ciphertext + 16)
    → decrypt_chunk_record c
        (before
          ++ (build_manifest_bytes_v2 e.chunk_id e.nonce e.ciphertext e.gcm_tag
                (length plaintext)
                dek_id
              ++ after))
        chunk
        keys
      ≡ ok plaintext
unfolding decrypt_chunk_record build_manifest_bytes_v2 open_record
read_packed_v2 c keys chunk dek nonce plaintext before after dek_id {e = e} laws enc k i n t fits
      small id size offset esize =
    let p = prefix_v2 e.chunk_id e.nonce e.ciphertext e.gcm_tag (length plaintext) i n dek_id in
    let h = v2-IsLaidOut e.chunk_id e.nonce e.ciphertext e.gcm_tag (length plaintext) i n dek_id in
    let o : open_record c keys 2 e.chunk_id e.nonce e.ciphertext e.gcm_tag ≡ ok plaintext =
      rw (k, decrypt-encrypt_chunk_v2 c nonce dek plaintext [] laws enc) in
    rw
      (record_at-append c keys chunk p h e.ciphertext e.gcm_tag plaintext t before after offset
        esize fits)
      (open_checked-as_bytes c keys chunk p h e.ciphertext e.gcm_tag plaintext t refl refl
        (omega arith) small id size o)

-- The same for a chunk that was encrypted under the vault key and laid out by
-- `build_manifest_bytes`, whatever nonce that record shows.
pub read_packed_v1 :
    (c : Primitives) (keys : ChunkKeys) (chunk : FileChunkLocation) (plaintext before after : Bytes)
    {e : EncryptedChunk}
    → IsAead c
    → encrypt_chunk c keys.vault_key plaintext [] ≡ ok e
    → length e.chunk_id ≡ 32
    → length e.nonce ≡ 12
    → length e.gcm_tag ≡ 16
    → length before + (80 + length e.ciphertext + 16) < 2 ^ 64
    → length plaintext ≤ i64_max
    → chunk.chunk_id ≡ e.chunk_id
    → chunk.size ≡ pos (length plaintext)
    → chunk.pack_offset ≡ pos (length before)
    → chunk.encrypted_size ≡ pos (80 + length e.ciphertext + 16)
    → decrypt_chunk_record c
        (before
          ++ (build_manifest_bytes e.chunk_id e.nonce e.ciphertext e.gcm_tag (length plaintext)
              ++ after))
        chunk
        keys
      ≡ ok plaintext
unfolding decrypt_chunk_record build_manifest_bytes open_record
read_packed_v1 c keys chunk plaintext before after {e = e} laws enc i n t fits small id size offset
      esize =
    let p = prefix_v1 e.chunk_id e.nonce e.ciphertext e.gcm_tag (length plaintext) i n in
    let h = v1-IsLaidOut e.chunk_id e.nonce e.ciphertext e.gcm_tag (length plaintext) i n in
    let o : open_record c keys 1 e.chunk_id e.nonce e.ciphertext e.gcm_tag ≡ ok plaintext =
      rw (decrypt-encrypt_chunk c keys.vault_key plaintext [] laws enc) in
    rw
      (record_at-append c keys chunk p h e.ciphertext e.gcm_tag plaintext t before after offset
        esize fits)
      (open_checked-as_bytes c keys chunk p h e.ciphertext e.gcm_tag plaintext t refl refl
        (omega arith) small id size o)
