-- ===== src/Db.antt =====
-- The tables of the SQLite store that the upload pipeline shares (angeld/src/db/uploads.rs,
-- shards.rs, packs.rs, mod.rs and schema.rs). Ids, sizes, attempts and times are numbers; the
-- status columns are enumerations of the strings that the program writes.
pub mod Jobs
pub mod Targets
pub mod Shards
pub mod Packs
pub mod Orphans
use omnidrive.Prelude.{
  ℕ, String, Bool, true, false, Option, none, some, List, str_eq, if◌then◌else◌,
}
use omnidrive.Int64.{ℤ}

-- The values of the `status` columns of upload_jobs, upload_job_targets and pack_shards.
pub data UploadStatus : Type 0 where
  pending in_progress completed failed permanently_failed : UploadStatus

abbrev pub is_pending : UploadStatus → Bool
is_pending pending = true
is_pending _ = false

abbrev pub is_in_progress : UploadStatus → Bool
is_in_progress in_progress = true
is_in_progress _ = false

abbrev pub is_completed : UploadStatus → Bool
is_completed completed = true
is_completed _ = false

abbrev pub is_failed : UploadStatus → Bool
is_failed failed = true
is_failed _ = false

-- NOT IN ('COMPLETED', 'PERMANENTLY_FAILED')
abbrev pub is_open : UploadStatus → Bool
is_open completed = false
is_open permanently_failed = false
is_open _ = true

pub data PackStatus : Type 0 where
  uploading healthy degraded unreadable : PackStatus

pub data ShardRole : Type 0 where
  data_shard parity : ShardRole

pub data StorageMode : Type 0 where
  ec2_1 single_replica local_only : StorageMode

unfoldable pub as_str : StorageMode → String
as_str ec2_1 = "EC_2_1"
as_str single_replica = "SINGLE_REPLICA"
as_str local_only = "LOCAL_ONLY"

unfoldable pub from_str : String → StorageMode
from_str value =
    if str_eq value "SINGLE_REPLICA"
    then single_replica
    else (if str_eq value "LOCAL_ONLY" then local_only else ec2_1)

-- `StorageMode::from_policy_type`
unfoldable pub from_policy_type : String → StorageMode
from_policy_type value =
    if str_eq value "STANDARD"
    then single_replica
    else (if str_eq value "LOCAL" then local_only else ec2_1)

-- Texts that the program formats, kept as their parts before they are rendered.
pub data Message : Type 0 where
  text : String → Message
  provider_inactive : String → Message
  size_guard_exceeded : ℕ → ℕ → Message
  quota_exceeded : String → ℕ → ℕ → Message
  local_shard_missing : String → ℕ → Message
  provider_timed_out : String → ℕ → Message
  on_shard : String → ℕ → Message → Message
  dry_run_job : String → Message
  breaker_tripped : ℤ → ℤ → ℤ → ℤ → ℤ → ℤ → Message

-- upload_jobs
pub record UploadJob : Type 0 where
  pub id : ℕ
  pub pack_id : String
  pub status : UploadStatus
  pub attempts : Option ℕ
  pub next_attempt_at : Option ℕ

-- upload_job_targets
pub record UploadTarget : Type 0 where
  pub id : ℕ
  pub job_id : ℕ
  pub provider : String
  pub status : UploadStatus
  pub attempts : Option ℕ
  pub last_error : Option Message
  pub bucket : Option String
  pub object_key : Option String
  pub etag : Option String
  pub version_id : Option String
  pub last_attempt_at : Option ℕ
  pub updated_at : Option ℕ
  pub completed_at : Option ℕ

-- pack_shards
pub record PackShard : Type 0 where
  pub id : ℕ
  pub pack_id : String
  pub shard_index : ℕ
  pub shard_role : ShardRole
  pub provider : String
  pub object_key : String
  pub size : ℕ
  pub checksum : String
  pub status : UploadStatus
  pub attempts : Option ℕ
  pub last_error : Option Message
  pub last_verified_at : Option ℕ
  pub last_verification_method : Option String
  pub last_verification_status : Option String
  pub last_verified_size : Option ℕ
  pub verification_failures : ℕ

-- packs, less the cryptographic columns
pub record Pack : Type 0 where
  pub pack_id : String
  pub storage_mode : String
  pub status : PackStatus

-- pack_locations and chunk_refs: a chunk is named by its id
pub record PackLocation : Type 0 where
  pub chunk_id : String
  pub pack_id : String

pub record ChunkRef : Type 0 where
  pub revision_id : ℕ
  pub chunk_id : String

-- `next_…_id` is the AUTOINCREMENT counter of a table.
pub record Db : Type 0 where
  pub upload_jobs : List UploadJob
  pub next_job_id : ℕ
  pub upload_targets : List UploadTarget
  pub next_target_id : ℕ
  pub pack_shards : List PackShard
  pub next_shard_id : ℕ
  pub packs : List Pack
  pub pack_locations : List PackLocation
  pub chunk_refs : List ChunkRef

-- `fetch_one` finds no row.
pub data DbError : Type 0 where
  row_not_found : DbError

-- COALESCE(attempts, 0)
abbrev pub attempts_of : Option ℕ → ℕ
attempts_of none = 0
attempts_of (some n) = n
