-- ===== src/Examples/Transfer.antt =====
-- A chunk of three bytes, sealed, split and restored, with a shift for the cipher and sums for the
-- parity shard.
use omnidrive.Prelude.{
  ℕ, zero, suc, ◌+◌, ◌-◌, ◌<◌, ◌≡◌, refl, ap, String, Option, none, some, List, [], ◌∷◌, ◌++◌, map,
  length, arith,
}
use omnidrive.Result.{Result, ok, err, ◌>>=◌}
use omnidrive.Int64.{pos}
use omnidrive.Bytes.{Bytes}
use omnidrive.Crypto.{
  Primitives, EncryptedChunk, chunk_id, encrypt_chunk_v2, decrypt_chunk, decrypt_chunk_v2_verified,
}
use omnidrive.Crypto.Keys.{encrypt_secret}
use omnidrive.Crypto.Roundtrip.{IsAead, decrypted-HasId}
use omnidrive.Db.{ec2_1}
use omnidrive.Chunks.{
  PackRow, FileChunkLocation, ChunkKeys, decrypt_chunk_record, build_manifest_bytes_v2, to_bytes,
}
use omnidrive.Chunks.Bounds.{InBounds, decrypt_chunk_record-InBounds}
use omnidrive.Chunks.Readback.{read_packed_v2}
use omnidrive.Chunks.Encrypted.{get_encrypted_chunk_bytes, open_wire, open_wire-served}
use omnidrive.Shards.{
  ReedSolomon, set, set_at, fill_shards, replicate, split_ciphertext_into_shards,
  reconstruct_ciphertext, assemble_pack, shard_len_of,
}
use omnidrive.Shards.Recovery.{IsErasureCode, reconstruct-split}
use omnidrive.Shards.Restore.{restore_any_loss}

up : Bytes → Bytes
up [] = []
up (b ∷ bs) = (b + 1) ∷ up bs

down : Bytes → Bytes
down [] = []
down (b ∷ bs) = (b - 1) ∷ down bs

down-up : (bs : Bytes) → down (up bs) ≡ bs
unfolding up down
down-up [] = refl
down-up (b ∷ bs) = let e : b + 1 - 1 ≡ b = omega arith in rw (e, down-up bs)

unfoldable shift : Primitives
unfolding up down
shift = record {
  hmac = λ key m. some (replicate 32 (length m));
  hkdf = λ key info. some key;
  argon2id = λ p pass. some (replicate 32 0);
  gcm_encrypt = λ key nonce aad m. some (up m, replicate 16 0);
  gcm_decrypt = λ key nonce aad c tag. some (down c);
  aes_kw_wrap = λ k m. some m;
  aes_kw_unwrap = λ k m. some m;
}

shift-IsAead : IsAead shift
unfolding shift
shift-IsAead = record {
  opens = λ key nonce aad m c tag h. let e : c ≡ up m = ground arith in rw e (ap some (down-up m));
  tag_length = λ key nonce aad m c tag h. let e : tag ≡ replicate 16 0 = ground arith in rw e;
}

add : Bytes → Bytes → Bytes
add [] bs = []
add (x ∷ xs) [] = x ∷ xs
add (x ∷ xs) (y ∷ ys) = (x + y) ∷ add xs ys

sub : Bytes → Bytes → Bytes
sub [] bs = []
sub (x ∷ xs) [] = x ∷ xs
sub (x ∷ xs) (y ∷ ys) = (x - y) ∷ sub xs ys

sub-add_right : (a b : Bytes) → length a ≡ length b → sub (add a b) b ≡ a
unfolding add sub
sub-add_right [] b h = refl
sub-add_right (x ∷ xs) [] h = absurd (omega arith)
sub-add_right (x ∷ xs) (y ∷ ys) h =
    let e : x + y - y ≡ x = omega arith in rw (e, sub-add_right xs ys (omega arith))

sub-add_left : (a b : Bytes) → length a ≡ length b → sub (add a b) a ≡ b
unfolding add sub
sub-add_left [] [] h = refl
sub-add_left [] (y ∷ ys) h = absurd (omega arith)
sub-add_left (x ∷ xs) [] h = absurd (omega arith)
sub-add_left (x ∷ xs) (y ∷ ys) h =
    let e : x + y - x ≡ y = omega arith in rw (e, sub-add_left xs ys (omega arith))

length-add : (a b : Bytes) → length a ≡ length b → length (add a b) ≡ length a
unfolding add
length-add [] b h = refl
length-add (x ∷ xs) [] h = absurd (omega arith)
length-add (x ∷ xs) (y ∷ ys) h = ap suc (length-add xs ys (omega arith))

encode : List Bytes → Result String (List Bytes)
encode ([] ∷ b ∷ p ∷ []) = err "empty shard"
encode ((x ∷ a) ∷ b ∷ p ∷ []) = ok ((x ∷ a) ∷ b ∷ add (x ∷ a) b ∷ [])
encode _ = err "shards"

fill_in : List (Option Bytes) → Result String (List (Option Bytes))
fill_in (some a ∷ some b ∷ p ∷ []) = ok (some a ∷ some b ∷ some (add a b) ∷ [])
fill_in (none ∷ some b ∷ some p ∷ []) = ok (some (sub p b) ∷ some b ∷ some p ∷ [])
fill_in (some a ∷ none ∷ some p ∷ []) = ok (some a ∷ some (sub p a) ∷ some p ∷ [])
fill_in _ = err "too few"

unfoldable sums : ReedSolomon
unfolding encode fill_in
sums = record { encode = encode; reconstruct = fill_in }

filled :
    (a b : Bytes) (i : ℕ)
    → length a ≡ length b
    → fill_in (set (some a ∷ some b ∷ some (add a b) ∷ []) i none)
      ≡ ok (some a ∷ some b ∷ some (add a b) ∷ [])
unfolding fill_in set
filled a b zero h = rw (sub-add_right a b h)
filled a b (suc zero) h = rw (sub-add_left a b h)
filled a b (suc (suc zero)) h = refl
filled a b (suc (suc (suc i))) h = refl

encoded :
    (a b p : Bytes)
    → 0 < length a
    → length a ≡ length b
    → length a ≡ length p
    → encode (a ∷ b ∷ p ∷ []) ≡ ok (a ∷ b ∷ add a b ∷ [])
unfolding encode
encoded [] b p n h k = absurd (omega arith)
encoded (x ∷ a) b p n h k = refl

sums-IsErasureCode : IsErasureCode sums
unfolding sums encode
sums-IsErasureCode = record {
  parity = add;
  parity_length = length-add;
  encodes = encoded;
  recovers = λ a b i n h. filled a b i h;
}

abbrev message : Bytes
message = 10 ∷ 20 ∷ 30 ∷ []

abbrev file_key : Bytes
file_key = replicate 32 1

abbrev file_nonce : Bytes
file_nonce = replicate 12 2

abbrev sealed_message : EncryptedChunk
sealed_message = record {
  chunk_id = replicate 32 3;
  nonce = file_nonce;
  ciphertext = 11 ∷ 21 ∷ 31 ∷ [];
  gcm_tag = replicate 16 0;
}

sealed_lem : encrypt_chunk_v2 shift file_nonce file_key message [] ≡ ok sealed_message
unfolding encrypt_chunk_v2 shift up chunk_id
sealed_lem = refl

abbrev chunk_keys : ChunkKeys
chunk_keys = record { vault_key = replicate 32 9; dek = some file_key }

abbrev row : PackRow
row = record {
  chunk_id = replicate 32 3;
  encryption_version = pos 2;
  logical_size = pos 3;
  cipher_size = pos 3;
  shard_size = pos 2;
  nonce = file_nonce;
  gcm_tag = replicate 16 0;
}

abbrev location : ℕ → FileChunkLocation
location offset = record {
  chunk_id = replicate 32 3;
  chunk_index = pos 0;
  file_offset = pos 0;
  size = pos 3;
  pack_id = "p";
  pack_offset = pos offset;
  encrypted_size = pos 99;
}

abbrev message_shards : List Bytes
message_shards = (11 ∷ 21 ∷ []) ∷ (31 ∷ 0 ∷ []) ∷ (42 ∷ 21 ∷ []) ∷ []

shards_lem : split_ciphertext_into_shards sums (11 ∷ 21 ∷ 31 ∷ []) ≡ ok message_shards
unfolding split_ciphertext_into_shards sums encode add fill_shards set_at set shard_len_of
shards_lem = refl

restore_any_loss_example :
    (shards : List Bytes) × (split_ciphertext_into_shards sums (11 ∷ 21 ∷ 31 ∷ []) ≡ ok shards)
    × ((i : ℕ)
        → (assemble_pack sums ec2_1 row (set (map some shards) i none) >>= λ bytes.
            decrypt_chunk_record shift bytes (location 0) chunk_keys)
          ≡ ok message)
unfolding shard_len_of
restore_any_loss_example =
    restore_any_loss shift sums chunk_keys (location 0) row file_key file_nonce message shift-IsAead
      sums-IsErasureCode sealed_lem refl
      (record {
        version = refl;
        id = refl;
        nonce = refl;
        tag = refl;
        logical_size = refl;
        cipher_size = refl;
        shard_size = refl;
        id_length = refl;
        nonce_length = refl;
        tag_length = refl;
        record_fits = omega arith;
        plaintext_fits = omega arith;
      })
      (record { id = refl; size = refl; offset = refl; encrypted_size = refl })

reconstruct-split_example :
    (shards : List Bytes) × (split_ciphertext_into_shards sums (11 ∷ 21 ∷ 31 ∷ []) ≡ ok shards)
    × ((i : ℕ)
        → reconstruct_ciphertext sums row (set (map some shards) i none) ≡ ok (11 ∷ 21 ∷ 31 ∷ []))
unfolding shard_len_of
reconstruct-split_example =
    reconstruct-split sums sums-IsErasureCode (11 ∷ 21 ∷ 31 ∷ []) row refl refl

read_packed_v2_example :
    decrypt_chunk_record shift
      ((7 ∷ 7 ∷ [])
        ++ (build_manifest_bytes_v2
              (replicate 32 3)
              file_nonce
              (11 ∷ 21 ∷ 31 ∷ [])
              (replicate 16 0)
              3
              5
            ++ (8 ∷ [])))
      (location 2)
      chunk_keys
    ≡ ok message
read_packed_v2_example =
    read_packed_v2 shift chunk_keys (location 2) file_key file_nonce message (7 ∷ 7 ∷ []) (8 ∷ []) 5
      shift-IsAead sealed_lem refl refl refl refl (omega arith) (omega arith) refl refl refl refl

decrypt_chunk_record-InBounds_example :
    InBounds (decrypt_chunk_record shift (replicate 90 67) (location 1) chunk_keys)
decrypt_chunk_record-InBounds_example =
    decrypt_chunk_record-InBounds shift (replicate 90 67) (location 1) chunk_keys

decrypted-HasId_example :
    (decrypt_chunk shift file_key (replicate 32 3) [] (11 ∷ 21 ∷ 31 ∷ []) (replicate 16 0)
        ≡ ok message
      → chunk_id shift file_key message ≡ ok (replicate 32 3))
    × (decrypt_chunk_v2_verified shift file_key
            (replicate 32 3)
            file_nonce
            []
            (11 ∷ 21 ∷ 31 ∷ [])
            (replicate 16 0)
          ≡ ok message
        → chunk_id shift file_key message ≡ ok (replicate 32 3))
decrypted-HasId_example =
    decrypted-HasId shift file_key (replicate 32 3) file_nonce [] (11 ∷ 21 ∷ 31 ∷ [])
      (replicate 16 0) message

abbrev secret_blob : Bytes
secret_blob = file_nonce ++ ((11 ∷ 21 ∷ 31 ∷ []) ++ replicate 16 0)

secret_lem : encrypt_secret shift file_nonce file_key message [] ≡ ok secret_blob
unfolding encrypt_secret shift up
secret_lem = refl

open_wire-served_example :
    (get_encrypted_chunk_bytes
        ((7 ∷ 7 ∷ [])
          ++ (build_manifest_bytes_v2
                (replicate 32 3)
                file_nonce
                (11 ∷ 21 ∷ 31 ∷ [])
                (replicate 16 0)
                3
                5
              ++ (8 ∷ [])))
        (location 2)
      >>= λ served. open_wire shift file_key (replicate 32 3) (to_bytes served))
    ≡ ok message
open_wire-served_example =
    open_wire-served shift (location 2) file_key file_nonce message (7 ∷ 7 ∷ []) (8 ∷ []) 5
      shift-IsAead sealed_lem refl refl refl (omega arith) refl refl
