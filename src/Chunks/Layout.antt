-- ===== src/Chunks/Layout.antt =====
-- Where the fields of a chunk record lie: `ChunkRecordPrefix` of omnidrive-core/src/layout.rs.
use omnidrive.Prelude.{
  ℕ, ◌+◌, ◌≡◌, refl, ◌∙◌, sym, subst, ap, [], ◌∷◌, ◌++◌, length, length-append, arith,
}
use mathlib.Core.List.{append-nil}
use omnidrive.Result.{ok, ok_or}
use omnidrive.Bytes.{Bytes, slice, slice_past, slice_first, to_be_bytes, length-to_be_bytes}
use omnidrive.Chunks.{ChunkRecordPrefix, as_bytes, chunk_record_magic, out_of_bounds, at_range}

-- The arrays of a prefix have their lengths.
pub record IsLaidOut (p : ChunkRecordPrefix) : Type 0 where
  pub magic : p.record_magic ≡ chunk_record_magic
  pub id : length p.chunk_id ≡ 32
  pub nonce : length p.nonce ≡ 12
  pub hint : length p.dek_id_hint ≡ 4
  pub reserved : length p.reserved_1 ≡ 8

module _ (p : ChunkRecordPrefix) (h : IsLaidOut p) (ciphertext tag : Bytes)
    (t : length tag ≡ 16) where
  abbrev algorithms : Bytes
  algorithms = p.record_version ∷ p.flags ∷ p.compression_algo ∷ p.key_wrapping_algo ∷ []

  abbrev behind_reserved : Bytes
  behind_reserved = ciphertext ++ tag

  abbrev behind_nonce : Bytes
  behind_nonce = p.dek_id_hint ++ (p.reserved_1 ++ behind_reserved)

  abbrev behind_cipher_len : Bytes
  behind_cipher_len = p.nonce ++ behind_nonce

  abbrev behind_plain_len : Bytes
  behind_plain_len = to_be_bytes 8 p.cipher_len ++ behind_cipher_len

  abbrev behind_id : Bytes
  behind_id = to_be_bytes 8 p.plain_len ++ behind_plain_len

  abbrev behind_algorithms : Bytes
  behind_algorithms = p.chunk_id ++ behind_id

  -- A range of the record, as a range behind its first parts.
  past_magic :
      (from to : ℕ)
      → slice (4 + from) (4 + to) (as_bytes p (ciphertext ++ tag))
        ≡ slice from to (algorithms ++ behind_algorithms)
  unfolding as_bytes
  past_magic from to =
      slice_past p.record_magic (algorithms ++ behind_algorithms) 4 (4 + from) (4 + to) from to
        (ap length h.magic) refl refl

  past_algorithms :
      (from to : ℕ)
      → slice (8 + from) (8 + to) (as_bytes p (ciphertext ++ tag)) ≡ slice from to behind_algorithms
  past_algorithms from to =
      subst
        (λ n. slice n (8 + to) (as_bytes p (ciphertext ++ tag)) ≡ slice from to behind_algorithms)
        (omega arith)
        (subst
          (λ n.
            slice (4 + (4 + from)) n (as_bytes p (ciphertext ++ tag))
            ≡ slice from to behind_algorithms)
          (omega arith)
          (past_magic (4 + from) (4 + to)
            ∙ slice_past algorithms behind_algorithms 4 (4 + from) (4 + to) from to refl refl refl))

  past_id :
      (from to from' to' : ℕ)
      → from' ≡ 40 + from
      → to' ≡ 40 + to
      → slice from' to' (as_bytes p (ciphertext ++ tag)) ≡ slice from to behind_id
  past_id from to from' to' f g =
      ap (λ n. slice n to' (as_bytes p (ciphertext ++ tag))) (omega arith)
      ∙ (ap (λ n. slice (8 + (32 + from)) n (as_bytes p (ciphertext ++ tag))) (omega arith)
          ∙ (past_algorithms (32 + from) (32 + to)
              ∙ slice_past p.chunk_id behind_id 32 (32 + from) (32 + to) from to h.id refl refl))

  past_plain_len :
      (from to from' to' : ℕ)
      → from' ≡ 48 + from
      → to' ≡ 48 + to
      → slice from' to' (as_bytes p (ciphertext ++ tag)) ≡ slice from to behind_plain_len
  past_plain_len from to from' to' f g =
      past_id (8 + from) (8 + to) from' to' (omega arith) (omega arith)
      ∙ slice_past (to_be_bytes 8 p.plain_len) behind_plain_len 8 (8 + from) (8 + to) from to
          (length-to_be_bytes 8 p.plain_len) refl refl

  past_cipher_len :
      (from to from' to' : ℕ)
      → from' ≡ 56 + from
      → to' ≡ 56 + to
      → slice from' to' (as_bytes p (ciphertext ++ tag)) ≡ slice from to behind_cipher_len
  past_cipher_len from to from' to' f g =
      past_plain_len (8 + from) (8 + to) from' to' (omega arith) (omega arith)
      ∙ slice_past (to_be_bytes 8 p.cipher_len) behind_cipher_len 8 (8 + from) (8 + to) from to
          (length-to_be_bytes 8 p.cipher_len) refl refl

  past_reserved :
      (from to from' to' : ℕ)
      → from' ≡ 80 + from
      → to' ≡ 80 + to
      → slice from' to' (as_bytes p (ciphertext ++ tag)) ≡ slice from to behind_reserved
  past_reserved from to from' to' f g =
      past_cipher_len (24 + from) (24 + to) from' to' (omega arith) (omega arith)
      ∙ (slice_past p.nonce behind_nonce 12 (24 + from) (24 + to) (12 + from) (12 + to) h.nonce
            (omega arith) (omega arith)
          ∙ (slice_past p.dek_id_hint (p.reserved_1 ++ behind_reserved) 4 (12 + from) (12 + to)
                (8 + from) (8 + to) h.hint (omega arith) (omega arith)
              ∙ slice_past p.reserved_1 behind_reserved 8 (8 + from) (8 + to) from to h.reserved
                  refl refl))

  pub at_magic : at_range 0 4 (as_bytes p (ciphertext ++ tag)) ≡ ok chunk_record_magic
  unfolding at_range as_bytes
  at_magic =
      rw (slice_first p.record_magic (algorithms ++ behind_algorithms) 4 (ap length h.magic))
        (ap ok h.magic)

  pub at_version : at_range 4 5 (as_bytes p (ciphertext ++ tag)) ≡ ok (p.record_version ∷ [])
  unfolding at_range
  at_version = rw (past_magic 0 1) (
      rw (
        slice_first (p.record_version ∷ [])
          ((p.flags ∷ p.compression_algo ∷ p.key_wrapping_algo ∷ []) ++ behind_algorithms) 1 refl))

  pub at_id : at_range 8 40 (as_bytes p (ciphertext ++ tag)) ≡ ok p.chunk_id
  unfolding at_range
  at_id = rw (past_algorithms 0 32) (rw (slice_first p.chunk_id behind_id 32 h.id))

  pub at_plain_len :
      at_range 40 48 (as_bytes p (ciphertext ++ tag)) ≡ ok (to_be_bytes 8 p.plain_len)
  unfolding at_range
  at_plain_len = rw (past_id 0 8 40 48 refl refl) (
      rw (
        slice_first (to_be_bytes 8 p.plain_len) behind_plain_len 8
          (length-to_be_bytes 8 p.plain_len)))

  pub at_cipher_len :
      at_range 48 56 (as_bytes p (ciphertext ++ tag)) ≡ ok (to_be_bytes 8 p.cipher_len)
  unfolding at_range
  at_cipher_len = rw (past_plain_len 0 8 48 56 refl refl) (
      rw (
        slice_first (to_be_bytes 8 p.cipher_len) behind_cipher_len 8
          (length-to_be_bytes 8 p.cipher_len)))

  pub at_nonce : at_range 56 68 (as_bytes p (ciphertext ++ tag)) ≡ ok p.nonce
  unfolding at_range
  at_nonce =
      rw (past_cipher_len 0 12 56 68 refl refl) (rw (slice_first p.nonce behind_nonce 12 h.nonce))

  pub at_ciphertext :
      at_range 80 (80 + length ciphertext) (as_bytes p (ciphertext ++ tag)) ≡ ok ciphertext
  unfolding at_range
  at_ciphertext =
      rw (past_reserved 0 (length ciphertext) 80 (80 + length ciphertext) refl refl)
        (rw (slice_first ciphertext tag (length ciphertext) refl))

  pub at_tag :
      at_range
        (80 + length ciphertext)
        (80 + length ciphertext + 16)
        (as_bytes p (ciphertext ++ tag))
      ≡ ok tag
  unfolding at_range
  at_tag =
      ap (λ o. ok_or o out_of_bounds)
        (past_reserved (length ciphertext + 0) (length ciphertext + 16) (80 + length ciphertext)
            (80 + length ciphertext + 16) (omega arith) (omega arith)
          ∙ (slice_past ciphertext tag (length ciphertext) (length ciphertext + 0)
                (length ciphertext + 16) 0 16 refl refl refl
              ∙ (ap (slice 0 16) (sym (append-nil tag)) ∙ slice_first tag [] 16 t)))

  pub length-as_bytes : length (as_bytes p (ciphertext ++ tag)) ≡ 80 + length ciphertext + 16
  unfolding as_bytes
  length-as_bytes = omega (
    arith,
    ap length h.magic,
    h.id,
    h.nonce,
    h.hint,
    h.reserved,
    t,
    length-append p.record_magic (algorithms ++ behind_algorithms),
    length-append p.chunk_id behind_id,
    length-append (to_be_bytes 8 p.plain_len) behind_plain_len,
    length-append (to_be_bytes 8 p.cipher_len) behind_cipher_len,
    length-append p.nonce behind_nonce,
    length-append p.dek_id_hint (p.reserved_1 ++ behind_reserved),
    length-append p.reserved_1 behind_reserved,
    length-append ciphertext tag,
    length-to_be_bytes 8 p.plain_len,
    length-to_be_bytes 8 p.cipher_len,
  )
