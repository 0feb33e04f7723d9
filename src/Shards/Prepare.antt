-- ===== src/Shards/Prepare.antt =====
-- The shards that the packer hands to the upload queue: `build_shards` and
-- `compute_pack_id` of angeld/src/packer.rs. SHA-256 in hexadecimal is `hex_sha256`.
use Prim.Native.String.{◌++◌ as join}
use omnidrive.Prelude.{
  ℕ, zero, suc, ◌+◌, ◌≡◌, refl, subst, String, Option, none, some, List, [], ◌∷◌, ◌++◌, leb,
  if◌then◌else◌, length,
}
use omnidrive.Result.{Result, ok, err, map_err, ◌>>=◌, ◌>>◌, guard, >>=-ok, ok-inj}
use omnidrive.Int64.{i64_max}
use omnidrive.Bytes.{Bytes}
use omnidrive.AutoLock.{digits}
use omnidrive.Db.{StorageMode, ec2_1, single_replica, local_only, ShardRole, data_shard, parity}
use omnidrive.Shards.{ReedSolomon, split_ciphertext_into_shards, data_shards}

pub data PackerError : Type 0 where
  io : String → PackerError
  reed_solomon : String → PackerError
  numeric_overflow : String → PackerError

pub record PreparedShard : Type 0 where
  pub shard_index : ℕ
  pub shard_role : ShardRole
  pub provider : String
  pub object_key : String
  pub size : ℕ
  pub checksum : String

abbrev pub single_replica_provider : String
single_replica_provider = "backblaze-b2"

-- `SHARD_PROVIDERS[index]`; there are three shards at most.
abbrev pub shard_provider : ℕ → String
shard_provider zero = "cloudflare-r2"
shard_provider (suc zero) = "backblaze-b2"
shard_provider (suc (suc n)) = "scaleway"

abbrev pub provider_for : StorageMode → ℕ → String
provider_for ec2_1 index = shard_provider index
provider_for single_replica index = single_replica_provider
provider_for local_only index = ""

abbrev pub role_for : StorageMode → ℕ → ShardRole
role_for ec2_1 index = if leb data_shards index then parity else data_shard
role_for single_replica index = data_shard
role_for local_only index = data_shard

abbrev pub key_for : String → ℕ → String
key_for pack_id index =
    join "packs/" (join pack_id (join "/shards/" (join (digits 20 index "") ".shard")))

-- The shards' bytes by the storage mode.
unfoldable pub shard_bytes_for : ReedSolomon → StorageMode → Bytes → Result PackerError (List Bytes)
shard_bytes_for rs ec2_1 ciphertext =
    map_err reed_solomon (split_ciphertext_into_shards rs ciphertext)
shard_bytes_for rs single_replica ciphertext = ok (ciphertext ∷ [])
shard_bytes_for rs local_only ciphertext = ok []

abbrev pub written : Option String → Result PackerError (Unit {0})
written none = ok tt
written (some e) = err (io e)

module _ (hex_sha256 : Bytes → String) (write_fault : ℕ → Option String) where
  unfoldable pub prepare_from :
      String → StorageMode → ℕ → List Bytes → Result PackerError (List PreparedShard)
  prepare_from pack_id mode index [] = ok []
  prepare_from pack_id mode index (b ∷ bs) = do
    written (write_fault index)
    guard (leb index i64_max) (numeric_overflow "shard index")
    guard (leb (length b) i64_max) (numeric_overflow "shard size")
    rest ← prepare_from pack_id mode (index + 1) bs
    ok (
        record {
          shard_index = index;
          shard_role = role_for mode index;
          provider = provider_for mode index;
          object_key = key_for pack_id index;
          size = length b;
          checksum = hex_sha256 b;
        }
        ∷ rest)

  unfoldable pub build_shards :
      ReedSolomon → String → Bytes → StorageMode → Result PackerError (List PreparedShard)
  build_shards rs pack_id ciphertext mode = do
    shards ← shard_bytes_for rs mode ciphertext
    prepare_from pack_id mode 0 shards

  -- The mode, a zero byte and the record's bytes name the pack.
  unfoldable pub compute_pack_id : Bytes → Bytes → String
  compute_pack_id mode_bytes manifest_bytes = hex_sha256 (mode_bytes ++ (0 ∷ manifest_bytes))

abbrev pub storage_mode_scheme : StorageMode → String
storage_mode_scheme ec2_1 = "rs_2_1"
storage_mode_scheme single_replica = "single_replica"
storage_mode_scheme local_only = "local_only"

-- What the queue needs of the shards: one at each index from `index` on, with its provider and role,
-- and the length and the checksum of its bytes.
abbrev pub Prepared : (Bytes → String) → StorageMode → ℕ → List Bytes → List PreparedShard → Type 0
Prepared hex mode index [] [] = Unit
Prepared hex mode index [] (s ∷ ss) = ⊥
Prepared hex mode index (b ∷ bs) [] = ⊥
Prepared hex mode index (b ∷ bs) (s ∷ ss) =
    ((s.shard_index ≡ index)
      × (s.provider ≡ provider_for mode index)
      × (s.shard_role ≡ role_for mode index)
      × (s.size ≡ length b)
      × (s.checksum ≡ hex b))
    × Prepared hex mode (index + 1) bs ss

module _ (hex_sha256 : Bytes → String) (write_fault : ℕ → Option String) where
  prepare_from-Prepared :
      (pack_id : String) (mode : StorageMode) (index : ℕ) (bs : List Bytes)
      {out : List PreparedShard}
      → prepare_from hex_sha256 write_fault pack_id mode index bs ≡ ok out
      → Prepared hex_sha256 mode index bs out
  unfolding prepare_from
  prepare_from-Prepared pack_id mode index [] h =
      subst (Prepared hex_sha256 mode index []) (ok-inj h) tt
  prepare_from-Prepared pack_id mode index (b ∷ bs) h =
      let (_, _, h₁) = >>=-ok (written (write_fault index)) _ h in
      let (_, _, h₂) = >>=-ok (guard (leb index i64_max) (numeric_overflow "shard index")) _ h₁ in
      let (_, _, h₃) =
        >>=-ok (guard (leb (length b) i64_max) (numeric_overflow "shard size")) _ h₂ in
      let (rest, r, h₄) =
        >>=-ok (prepare_from hex_sha256 write_fault pack_id mode (index + 1) bs) _ h₃ in
      subst (Prepared hex_sha256 mode index (b ∷ bs)) (ok-inj h₄)
        ((refl, refl, refl, refl, refl), prepare_from-Prepared pack_id mode (index + 1) bs r)

  -- What `build_shards` returns has, in order, a shard for each part that the storage mode makes of
  -- the ciphertext: with its index from 0 on, the index's provider and role, and the length and the
  -- checksum of its own bytes.
  pub build_shards-Prepared :
      (rs : ReedSolomon) (pack_id : String) (ciphertext : Bytes) (mode : StorageMode)
      {out : List PreparedShard}
      → build_shards hex_sha256 write_fault rs pack_id ciphertext mode ≡ ok out
      → (parts : List Bytes) × (shard_bytes_for rs mode ciphertext ≡ ok parts)
        × Prepared hex_sha256 mode 0 parts out
  unfolding build_shards
  build_shards-Prepared rs pack_id ciphertext mode h =
      let (parts, e, h₁) = >>=-ok (shard_bytes_for rs mode ciphertext) _ h in
      (parts, e, prepare_from-Prepared pack_id mode 0 parts h₁)
