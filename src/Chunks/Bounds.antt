-- ===== src/Chunks/Bounds.antt =====
-- No access of `decrypt_chunk_record` in angeld/src/downloader/chunk.rs is out of bounds.
use omnidrive.Prelude.{
  ℕ, ◌+◌, ◌-◌, ◌^◌, ◌≤◌, ◌≡◌, ◌≢◌, refl, ◌∙◌, sym, String, Bool, true, false, ◌&&◌, ltb, leb,
  leb→le, ◌==◌, ==_iff, length, take, drop, ap, Bool-cases, Option-cases, inl, inr, arith,
}
use omnidrive.Result.{Result, ok, err, map_err, ◌>>=◌, guard, >>=-ok, guard-ok, ok-inj}
use omnidrive.Int64.{ℤ, pos, negsuc}
use omnidrive.Bytes.{Bytes, bytes_eq, slice_in_bounds, length-take-drop, from_be_bytes}
use omnidrive.Crypto.{Primitives, CryptoError}
use omnidrive.Chunks.{
  DownloaderError, invalid_pack_record, numeric_overflow, out_of_bounds, crypto, at_range, to_usize,
  to_array, FileChunkLocation, ChunkKeys, open_record, record_at, open_checked,
  decrypt_chunk_record, chunk_record_magic, checked_add, eq_ℤ, as_i64,
}

abbrev pub InBounds {ℓ} : {A : Type ℓ} → Result DownloaderError A → Type ℓ
InBounds r = r ≢ err out_of_bounds

bind {ℓ κ} :
    {A : Type ℓ} {B : Type κ} (m : Result DownloaderError A) (f : A → Result DownloaderError B)
    → InBounds m
    → ((a : A) → m ≡ ok a → InBounds (f a))
    → InBounds (m >>= f)
bind (ok a) f h g = g a refl
bind (err e) f h g = λ q. h (ground arith)

range_ok :
    (from to : ℕ) (b : Bytes)
    → from ≤ to
    → to ≤ length b
    → at_range from to b ≡ ok (take (to - from) (drop from b))
unfolding at_range
range_ok from to b h k = rw (slice_in_bounds from to b h k)

bind_range :
    {B : Type 0} (from to : ℕ) (b : Bytes) (f : Bytes → Result DownloaderError B)
    → from ≤ to
    → to ≤ length b
    → ((x : Bytes) → length x ≡ to - from → InBounds (f x))
    → InBounds (at_range from to b >>= f)
unfolding at_range
bind_range from to b f h k g =
    rw (slice_in_bounds from to b h k) (g _ (length-take-drop from to b h k))

bind_guard :
    {B : Type 0} (b : Bool) (e : DownloaderError) (f : Unit {0} → Result DownloaderError B)
    → e ≢ out_of_bounds
    → (b ≡ true → InBounds (f tt))
    → InBounds (guard b e >>= f)
bind_guard true e f h g = g refl
bind_guard false e f h g = λ q. h (ground arith)

ok_InBounds : (b : Bytes) → InBounds {A = Bytes} (ok b)
ok_InBounds b h = cc

invalid_ne : (s : String) → invalid_pack_record s ≢ out_of_bounds
invalid_ne s h = cc

overflow_ne : (s : String) → numeric_overflow s ≢ out_of_bounds
overflow_ne s h = cc

usize_InBounds : (z : ℤ) (what : String) → InBounds (to_usize z what)
unfolding to_usize
usize_InBounds (pos n) what h = cc
usize_InBounds (negsuc n) what h = ground arith

array_InBounds : (n : ℕ) (what : String) (b : Bytes) → InBounds (to_array n what b)
unfolding to_array
array_InBounds n what b = bind_guard (length b == n) _ _ (invalid_ne what) (λ _ q. cc)

map_err-InBounds : (r : Result CryptoError Bytes) → InBounds (map_err crypto r)
map_err-InBounds (ok b) h = cc
map_err-InBounds (err e) h = ground arith

open_InBounds :
    (c : Primitives) (keys : ChunkKeys) (version : ℕ) (id nonce ciphertext tag : Bytes)
    → InBounds (open_record c keys version id nonce ciphertext tag)
unfolding open_record
open_InBounds c keys version id nonce ciphertext tag = elim (Bool-cases (version == 2)) [
  | inr e ↦ rw (e, open_record) (map_err-InBounds _)
  | inl e ↦ elim (Option-cases keys.dek) [
    | inl k ↦ rw (e, open_record, k) (λ q. ground arith)
    | inr (dek, k) ↦ rw (e, open_record, k) (map_err-InBounds _)
  ]
]

checked_InBounds : (a b : ℕ) (what : String) → InBounds (checked_add a b what)
checked_InBounds a b what = bind_guard (ltb (a + b) (2 ^ 64)) _ _ (overflow_ne what) (λ _ q. cc)

checked_sum : (a b : ℕ) (what : String) {n : ℕ} → checked_add a b what ≡ ok n → n ≡ a + b
checked_sum a b what h = ground arith

and-split : (a b : Bool) → (a && b) ≡ true → (a ≡ true) × (b ≡ true)
and-split true b h = (refl, h)
and-split false b h = cc

open_checked-InBounds :
    (c : Primitives) (keys : ChunkKeys) (chunk : FileChunkLocation) (b : Bytes)
    → 80 ≤ length b
    → InBounds (open_checked c keys chunk b)
unfolding open_checked
open_checked-InBounds c keys chunk b l = bind_range 0 4 b _ (omega arith) (omega arith) λ magic _.
    bind_guard (bytes_eq magic chunk_record_magic) _ _ (invalid_ne _) λ _.
      bind_range 4 5 b _ (omega arith) (omega arith) λ version _.
        bind (to_array 32 "chunk id length" chunk.chunk_id) _ (array_InBounds _ _ _) λ expected _.
          bind_range 8 40 b _ (omega arith) (omega arith) λ actual _.
            bind_guard (bytes_eq actual expected) _ _ (invalid_ne _) λ _.
              bind_range 40 48 b _ (omega arith) (omega arith) λ plain _.
                bind_range 48 56 b _ (omega arith) (omega arith)
                  λ cipher _. behind expected version plain (from_be_bytes cipher)
  where
    sized :
        (expected version plain nonce ciphertext tag : Bytes)
        → InBounds (
            open_record c keys (from_be_bytes version) expected nonce ciphertext tag
            >>= λ plaintext.
                guard
                  (eq_ℤ (as_i64 (length plaintext)) chunk.size
                    && (length plaintext == from_be_bytes plain))
                  (invalid_pack_record "plain size mismatch")
                >>= λ _. ok plaintext)
    sized expected version plain nonce ciphertext tag =
        bind (open_record c keys (from_be_bytes version) expected nonce ciphertext tag) _
          (open_InBounds c keys (from_be_bytes version) expected nonce ciphertext tag)
          λ plaintext _.
            bind_guard
              (eq_ℤ (as_i64 (length plaintext)) chunk.size
                && (length plaintext == from_be_bytes plain))
              (invalid_pack_record "plain size mismatch") _ (invalid_ne "plain size mismatch")
              (λ _. ok_InBounds plaintext)

    behind :
        (expected version plain : Bytes) (n : ℕ)
        → InBounds (
            checked_add 80 n "record size" >>= λ tag_start.
            checked_add tag_start 16 "record size" >>= λ tag_end.
            guard (tag_end == length b) (invalid_pack_record "encrypted size mismatch") >>= λ _.
            at_range 56 68 b >>= λ nonce. at_range 80 tag_start b >>= λ ciphertext.
            at_range tag_start tag_end b >>= λ tag.
            open_record c keys (from_be_bytes version) expected nonce ciphertext tag
            >>= λ plaintext.
                guard
                  (eq_ℤ (as_i64 (length plaintext)) chunk.size
                    && (length plaintext == from_be_bytes plain))
                  (invalid_pack_record "plain size mismatch")
                >>= λ _. ok plaintext)
    behind expected version plain n =
        bind (checked_add 80 n "record size") _ (checked_InBounds _ _ _) λ tag_start s.
          bind (checked_add tag_start 16 "record size") _ (checked_InBounds _ _ _) λ tag_end e.
            bind_guard (tag_end == length b) _ _ (invalid_ne _) λ m.
              let s' : tag_start ≡ 80 + n = checked_sum 80 n "record size" s in
              let e' : tag_end ≡ tag_start + 16 = checked_sum tag_start 16 "record size" e in
              let m' : tag_end ≡ length b = (==_iff tag_end (length b)).0 m in
              bind_range 56 68 b _ (omega arith) (omega arith) λ nonce _.
                bind_range 80 tag_start b _ (omega arith) (omega arith) λ ciphertext _.
                  bind_range tag_start tag_end b _ (omega arith) (omega arith)
                    λ tag _. sized expected version plain nonce ciphertext tag

record_at-InBounds :
    (pack_bytes : Bytes) (chunk : FileChunkLocation) → InBounds (record_at pack_bytes chunk)
unfolding record_at
record_at-InBounds pack_bytes chunk =
    bind (to_usize chunk.pack_offset "pack offset") _ (usize_InBounds _ _) λ offset _.
      bind (to_usize chunk.encrypted_size "encrypted size") _ (usize_InBounds _ _) λ size _.
        bind (checked_add offset size "record end") _ (checked_InBounds _ _ _) λ end e.
          bind_guard (leb end (length pack_bytes) && leb 80 size) _ _ (invalid_ne _) λ g.
            let e' : end ≡ offset + size = checked_sum offset size "record end" e in
            let inside : end ≤ length pack_bytes = leb→le _ _ ((and-split _ _ g).0) in
            λ q. last offset end (omega arith) inside q
  where
    last :
        (from to : ℕ) → from ≤ to → to ≤ length pack_bytes → InBounds (at_range from to pack_bytes)
    last from to h k q = cc (range_ok from to pack_bytes h k)

record_at_long :
    (pack_bytes : Bytes) (chunk : FileChunkLocation) {b : Bytes}
    → record_at pack_bytes chunk ≡ ok b
    → 80 ≤ length b
unfolding record_at
record_at_long pack_bytes chunk {b = b} h =
    let (offset, _, h₁) = >>=-ok (to_usize chunk.pack_offset "pack offset") _ h in
    let (size, _, h₂) = >>=-ok (to_usize chunk.encrypted_size "encrypted size") _ h₁ in
    let (end, e, h₃) = >>=-ok (checked_add offset size "record end") _ h₂ in
    let (u, g, h₄) =
      >>=-ok
        (guard (leb end (length pack_bytes) && leb 80 size) (invalid_pack_record "record bounds")) _
        h₃ in
    let e' : end ≡ offset + size = checked_sum offset size "record end" e in
    let g' = and-split _ _ (guard-ok _ _ g) in
    let inside : end ≤ length pack_bytes = leb→le _ _ (g'.0) in
    let long : 80 ≤ size = leb→le _ _ (g'.1) in
    let same : length b ≡ end - offset =
      ap length (sym (ok-inj (sym (range_ok offset end pack_bytes (omega arith) inside) ∙ h₄)))
      ∙ length-take-drop offset end pack_bytes (omega arith) inside in
    omega arith

-- No index or range is out of bounds, so that no read of a record panics: whatever the pack's bytes,
-- the location and the keys are, and whatever the cipher answers.
pub decrypt_chunk_record-InBounds :
    (c : Primitives) (pack_bytes : Bytes) (chunk : FileChunkLocation) (keys : ChunkKeys)
    → InBounds (decrypt_chunk_record c pack_bytes chunk keys)
unfolding decrypt_chunk_record
decrypt_chunk_record-InBounds c pack_bytes chunk keys =
    bind (record_at pack_bytes chunk) _ (record_at-InBounds pack_bytes chunk)
      λ b e. open_checked-InBounds c keys chunk b (record_at_long pack_bytes chunk e)
