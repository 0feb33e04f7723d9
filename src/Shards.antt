-- ===== src/Shards.antt =====
-- The shards of a pack: `split_ciphertext_into_shards` and `build_shards` of angeld/src/packer.rs,
-- and `reconstruct_ciphertext` of angeld/src/downloader/chunk.rs. Reed-Solomon coding over GF(2^8)
-- with two data shards and a parity shard is another crate's: the fields of `ReedSolomon`.
use omnidrive.Prelude.{
  ℕ, zero, suc, ◌+◌, ◌-◌, ◌*◌, ◌/◌, ◌%◌, ◌≤◌, ◌<◌, ◌≡◌, String, Bool, true, false, ◌&&◌, not, max,
  Option, none, some, List, [], ◌∷◌, ◌++◌, ltb, leb, ◌==◌, if◌then◌else◌, length, take, str_eq,
}
use omnidrive.Result.{Result, ok, err, map_err, ◌>>=◌, ◌>>◌, guard, ok_or}
use omnidrive.Int64.{ℤ, pos}
use omnidrive.Bytes.{Bytes}
use omnidrive.Chunks.{
  PackRow, DownloaderError, invalid_pack_record, erasure, to_usize, out_of_bounds,
  rebuild_manifest_bytes,
}
use omnidrive.Db.{StorageMode, ec2_1, single_replica, local_only}
pub mod Fill
pub mod Recovery
pub mod Restore
pub mod Prepare

abbrev pub data_shards : ℕ
data_shards = 2

abbrev pub parity_shards : ℕ
parity_shards = 1

abbrev pub total_shards : ℕ
total_shards = 3

-- `ReedSolomon::new(2, 1)`: `encode` fills the parity shards in, and `reconstruct` the missing ones.
pub record ReedSolomon : Type 0 where
  pub encode : List Bytes → Result String (List Bytes)
  pub reconstruct : List (Option Bytes) → Result String (List (Option Bytes))

-- `xs[i] = x`, and `xs[i][j] = b`
unfoldable pub set {ℓ} : {A : Type ℓ} → List A → ℕ → A → List A
set [] i x = []
set (y ∷ ys) zero x = x ∷ ys
set (y ∷ ys) (suc i) x = y ∷ set ys i x

unfoldable pub set_at : List Bytes → ℕ → ℕ → ℕ → List Bytes
set_at [] i j b = []
set_at (s ∷ ss) zero j b = set s j b ∷ ss
set_at (s ∷ ss) (suc i) j b = s ∷ set_at ss i j b

abbrev pub replicate {ℓ} : {A : Type ℓ} → ℕ → A → List A
replicate zero x = []
replicate (suc n) x = x ∷ replicate n x

-- The loop over the bytes with their offsets.
unfoldable pub fill_shards : ℕ → ℕ → Bytes → List Bytes → List Bytes
fill_shards shard_len offset [] shards = shards
fill_shards shard_len offset (b ∷ bs) shards =
    fill_shards shard_len (offset + 1) bs
      (set_at shards (offset / shard_len) (offset % shard_len) b)

-- `len.div_ceil(2).max(1)`
unfoldable pub shard_len_of : Bytes → ℕ
shard_len_of ciphertext = max ((length ciphertext + 1) / data_shards) 1

unfoldable pub split_ciphertext_into_shards : ReedSolomon → Bytes → Result String (List Bytes)
split_ciphertext_into_shards rs ciphertext =
    let n = shard_len_of ciphertext in
    rs.encode (fill_shards n 0 ciphertext (replicate total_shards (replicate n 0)))

-- A shard that is there has the length that the pack says.
unfoldable pub sizes_match : ℕ → List (Option Bytes) → Bool
sizes_match n [] = true
sizes_match n (none ∷ ss) = sizes_match n ss
sizes_match n (some b ∷ ss) = (length b == n) && sizes_match n ss

-- The data shards in order, of what is left after reconstruction.
unfoldable pub join_shards : List (Option Bytes) → Result DownloaderError Bytes
join_shards [] = ok []
join_shards (none ∷ ss) = err (invalid_pack_record "missing data shard after reconstruct")
join_shards (some b ∷ ss) = join_shards ss >>= λ rest. ok (b ++ rest)

unfoldable pub reconstruct_ciphertext :
    ReedSolomon → PackRow → List (Option Bytes) → Result DownloaderError Bytes
reconstruct_ciphertext rs pack shards = do
  guard (length shards == total_shards) (invalid_pack_record "shard count mismatch")
  shard_len ← to_usize pack.shard_size "shard size"
  guard (sizes_match shard_len shards) (invalid_pack_record "shard size mismatch")
  all ← map_err erasure (rs.reconstruct shards)
  cipher_size ← to_usize pack.cipher_size "cipher size"
  ciphertext ← join_shards (take data_shards all)
  guard (not (ltb (length ciphertext) cipher_size))
      (invalid_pack_record "reconstructed ciphertext shorter than expected")
  ok (take cipher_size ciphertext)

-- The slots of a single replica: its one shard.
abbrev pub replica : List (Option Bytes) → Option Bytes
replica [] = none
replica (s ∷ ss) = s

-- What `download_pack` makes of the shards that it has; a local pack never gets here.
unfoldable pub ciphertext_of :
    ReedSolomon → StorageMode → PackRow → List (Option Bytes) → Result DownloaderError Bytes
ciphertext_of rs ec2_1 pack slots = reconstruct_ciphertext rs pack slots
ciphertext_of rs single_replica pack slots =
    ok_or (replica slots) (invalid_pack_record "single replica missing shard")
ciphertext_of rs local_only pack slots = err out_of_bounds

unfoldable pub assemble_pack :
    ReedSolomon → StorageMode → PackRow → List (Option Bytes) → Result DownloaderError Bytes
assemble_pack rs mode pack slots = do
  ciphertext ← ciphertext_of rs mode pack slots
  rebuild_manifest_bytes pack ciphertext
