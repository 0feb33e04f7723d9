-- ===== src/Examples.antt =====
-- Concrete stores and worlds, and the theorems applied to them.
pub mod Queue
pub mod Upload
pub mod Store
pub mod Guard
pub mod Caller
pub mod Lock
pub mod Transfer
pub mod Cached
pub mod Sharing
pub mod Joining
pub mod Collecting
use omnidrive.Prelude.{
  ℕ, suc, String, Bool, true, false, Option, none, some, List, [], ◌∷◌, str_eq, ◌==◌,
}
use omnidrive.Int64.{ℤ, pos}
use omnidrive.CloudGuard.{GuardConfig, CloudUsage}
use omnidrive.CloudGuard
use omnidrive.Db.{
  Db, UploadJob, UploadTarget, UploadStatus, pending, in_progress, completed, failed, PackShard,
  data_shard, parity, ShardRole, Pack, PackStatus, uploading, healthy, PackLocation, ChunkRef,
}
use omnidrive.Uploader.{
  Machine, WorkerConfig, World, SpoolFile, manifest, shard_file, stored, Reply,
}

abbrev pub job : ℕ → String → UploadStatus → Option ℕ → UploadJob
job id pack_id status next = record {
  id = id;
  pack_id = pack_id;
  status = status;
  attempts = some 0;
  next_attempt_at = next;
}

abbrev pub shard : ℕ → String → ℕ → String → UploadStatus → PackShard
shard id pack_id index provider status = record {
  id = id;
  pack_id = pack_id;
  shard_index = index;
  shard_role = data_shard;
  provider = provider;
  object_key = "k";
  size = 1000;
  checksum = "c";
  status = status;
  attempts = some 0;
  last_error = none;
  last_verified_at = none;
  last_verification_method = none;
  last_verification_status = none;
  last_verified_size = none;
  verification_failures = 0;
}

abbrev pub target : ℕ → ℕ → String → UploadStatus → UploadTarget
target id job_id provider status = record {
  id = id;
  job_id = job_id;
  provider = provider;
  status = status;
  attempts = some 3;
  last_error = none;
  bucket = none;
  object_key = none;
  etag = none;
  version_id = none;
  last_attempt_at = none;
  updated_at = none;
  completed_at = none;
}

-- Two packs: "a" in the 2 + 1 scheme, whose job is 1, and "b", an orphan.
abbrev pub store : Db
store = record {
  upload_jobs =
      job 1 "a" pending none ∷ job 2 "b" pending (some 50) ∷ job 3 "c" in_progress none ∷ [];
  next_job_id = 4;
  upload_targets = target 1 1 "r2" pending ∷ [];
  next_target_id = 2;
  pack_shards =
      shard 1 "a" 0 "r2" completed
      ∷ shard 2 "a" 1 "b2" pending
      ∷ shard 3 "a" 2 "scw" pending
      ∷ shard 4 "b" 0 "r2" completed
      ∷ [];
  next_shard_id = 5;
  packs =
      record { pack_id = "a"; storage_mode = "EC_2_1"; status = uploading }
      ∷ record { pack_id = "b"; storage_mode = "SINGLE_REPLICA"; status = healthy }
      ∷ [];
  pack_locations = record { chunk_id = "x"; pack_id = "a" } ∷ [];
  chunk_refs = record { revision_id = 1; chunk_id = "x" } ∷ [];
}

abbrev pub config : GuardConfig
config = record {
  dry_run_active = false;
  cloud_daily_read_ops_limit = 100;
  cloud_daily_write_ops_limit = 2;
  cloud_daily_egress_bytes_limit = 1000;
  cloud_max_single_upload_bytes = 5000;
}

abbrev pub no_cloud_usage : CloudUsage
no_cloud_usage = record { read_ops = pos 0; write_ops = pos 0; egress_bytes = pos 0 }

abbrev pub guard : CloudGuard.Guard
guard = record { system_config = []; cloud_usage_daily = []; session_usage = no_cloud_usage }

abbrev pub worker : WorkerConfig
worker = record {
  guard_config = config;
  max_physical_bytes_per_provider = 100_000;
  retry_base_delay = 1000;
  retry_max_delay = 60_000;
  provider_timeout = 120_000;
}

abbrev pub machine : Machine
machine = record {
  db = store;
  guard = guard;
  spool = manifest "a" ∷ shard_file "a" 0 ∷ shard_file "a" 1 ∷ shard_file "a" 2 ∷ manifest "b" ∷ [];
}

-- Every provider takes every shard.
abbrev pub world : World
world = record {
  now = 100;
  providers = "r2" ∷ "b2" ∷ "scw" ∷ [];
  reply = λ s.
      stored (record { bucket = "bucket"; key = s.object_key; etag = none; version_id = none });
  deletable = λ f. true;
  probe_error = λ f. none;
}
