-- ===== src/Uploader/Shard.antt =====
-- The loop of the upload worker over the shards of a job: `process_job` of
-- angeld/src/uploader.rs.
use omnidrive.Prelude.{
  ℕ, ◌+◌, ◌-◌, ◌^◌, String, Bool, true, false, not, none, some, List, [], ◌∷◌, str_eq, ltb, min,
  if◌then◌else◌, any_where,
}
use omnidrive.Result.{Result, ok, err, and_then}
use omnidrive.Int64.{pos}
use omnidrive.CloudGuard.{
  Guard, GuardConfig, GuardDecision, ConfigText, plain, GuardOperation, get_system_config_value,
  cloud_suspend_reason, is_cloud_suspended, current_decision, enforce_single_upload_size_limit,
}
use omnidrive.CloudGuard
use omnidrive.Db.{
  Message, text, provider_inactive, size_guard_exceeded, quota_exceeded, local_shard_missing,
  breaker_tripped, UploadJob, PackShard,
}
use omnidrive.Db.Targets.{
  StoredObject, mark_upload_target_in_progress, mark_upload_target_completed, requeue_upload_target,
  mark_upload_target_failed,
}
use omnidrive.Db.Shards.{
  mark_pack_shard_in_progress, mark_pack_shard_completed, requeue_pack_shard,
  mark_pack_shard_failed,
}
use omnidrive.Db.Packs.{get_physical_usage_for_provider}
use omnidrive.Uploader.Types.{
  shard_file, same_file, Machine, WorkerConfig, UploaderError, io, timeout, is_retryable,
  to_message, Reply, stored, refused, elapsed, World, JobProcessOutcome, pending_retry, set_db,
  on_db, escalate_target_if_permanent, Progress, note_failure,
}

-- How a shard leaves the loop body: the loop goes on, or the job ends here.
pub data ShardStep : Type 0 where
  go_on : Progress → ShardStep
  leave : JobProcessOutcome → ShardStep

-- Requeue the shard and its target, and give the target up after too many attempts.
unfoldable pub retry_shard :
    World
    → UploadJob
    → PackShard
    → Message
    → Progress
    → Machine
    → Result UploaderError ShardStep × Machine
retry_shard w job shard message p m =
    and_then (on_db m (requeue_pack_shard job.pack_id shard.shard_index message m.db))
      λ attempts m₁.
        and_then (on_db m₁ (requeue_upload_target w.now job.id shard.provider message m₁.db))
          λ target_attempts m₂. (
            ok (go_on (note_failure shard message attempts p)),
            set_db m₂ (escalate_target_if_permanent w job shard target_attempts message m₂.db),
          )

-- Mark the shard and its target failed.
unfoldable pub fail_shard :
    World
    → UploadJob
    → PackShard
    → Message
    → Progress
    → Machine
    → Result UploaderError ShardStep × Machine
fail_shard w job shard message p m = (
  ok (go_on (note_failure shard message 0 p)),
  set_db m (
      mark_upload_target_failed w.now job.id shard.provider message
        (mark_pack_shard_failed job.pack_id shard.shard_index message m.db)),
)

unfoldable pub store_shard :
    World
    → UploadJob
    → PackShard
    → StoredObject
    → Progress
    → Machine
    → Result UploaderError ShardStep × Machine
store_shard w job shard object p m = (
  ok (go_on p),
  set_db m (
      mark_upload_target_completed w.now job.id shard.provider object
        (mark_pack_shard_completed job.pack_id shard.shard_index m.db)),
)

unfoldable pub handle_reply :
    WorkerConfig
    → World
    → UploadJob
    → PackShard
    → Reply
    → Progress
    → Machine
    → Result UploaderError ShardStep × Machine
handle_reply c w job shard (stored object) p m = store_shard w job shard object p m
handle_reply c w job shard (refused e) p m =
    if is_retryable e
    then retry_shard w job shard (to_message e) p m
    else fail_shard w job shard (to_message e) p m
handle_reply c w job shard elapsed p m =
    retry_shard w job shard (to_message (timeout shard.provider c.provider_timeout)) p m

-- The shard and its target in progress, then the local file, then the provider.
unfoldable pub upload_shard :
    WorkerConfig
    → World
    → UploadJob
    → PackShard
    → Progress
    → Machine
    → Result UploaderError ShardStep × Machine
upload_shard c w job shard p m =
    let started = set_db m (
      mark_upload_target_in_progress w.now job.id shard.provider
        (mark_pack_shard_in_progress job.pack_id shard.shard_index m.db)) in
    let file = shard_file job.pack_id shard.shard_index in
    elim (w.probe_error file) [
      | some e ↦ (err (io e), started)
      | none ↦
          if not (any_where (same_file file) m.spool)
          then fail_shard w job shard (local_shard_missing job.pack_id shard.shard_index) p started
          else handle_reply c w job shard (w.reply shard) p started
    ]

abbrev pub config_message : ConfigText → Message
config_message (plain s) = text s
config_message (CloudGuard.tripped r l) =
    breaker_tripped r.read_ops l.read_ops r.write_ops l.write_ops r.egress_bytes l.egress_bytes

unfoldable pub after_decision :
    WorkerConfig
    → World
    → UploadJob
    → PackShard
    → Progress
    → GuardDecision
    → Machine
    → Result UploaderError ShardStep × Machine
after_decision c w job shard p CloudGuard.allowed m = upload_shard c w job shard p m
after_decision c w job shard p CloudGuard.dry_run m = (
  ok (leave (pending_retry c.retry_max_delay (text "DRY-RUN MODE ACTIVE - NO CLOUD COSTS" ∷ []))),
  m,
)
after_decision c w job shard p (CloudGuard.suspended reason) m =
    (ok (leave (pending_retry c.retry_max_delay (config_message reason ∷ []))), m)
after_decision c w job shard p (CloudGuard.quota_exceeded reason) m =
    (ok (leave (pending_retry c.retry_max_delay (config_message reason ∷ []))), m)

abbrev pub is_provider : PackShard → String → Bool
is_provider shard name = str_eq name shard.provider

-- `current_usage.saturating_add(shard_size)` of u64
abbrev pub projected_usage : ℕ → ℕ → ℕ
projected_usage usage size = min (usage + size) (2 ^ 64 - 1)

abbrev pub exceeds {ℓ κ} : {E : Type κ} {A : Type ℓ} → Result E A → Bool
exceeds (ok a) = false
exceeds (err e) = true

-- The body of the loop over the pending shards.
unfoldable pub process_shard :
    WorkerConfig
    → World
    → UploadJob
    → PackShard
    → Progress
    → Machine
    → Result UploaderError ShardStep × Machine
process_shard c w job shard p m =
    let usage = projected_usage (get_physical_usage_for_provider shard.provider m.db) shard.size in
    let size_limit = c.guard_config.cloud_max_single_upload_bytes in
    let quota = c.max_physical_bytes_per_provider in
    let (decision, guard) =
      current_decision w.now c.guard_config (CloudGuard.write (pos 1)) m.guard in
    if not (any_where (is_provider shard) w.providers)
    then retry_shard w job shard (provider_inactive shard.provider) p m
    else (if exceeds (enforce_single_upload_size_limit c.guard_config shard.size)
        then fail_shard w job shard (size_guard_exceeded shard.size size_limit) p m
        else (if ltb quota usage
            then fail_shard w job shard (quota_exceeded shard.provider usage quota) p m
            else after_decision c w job shard p decision (record m { guard = guard })))

-- The loop: a step that leaves ends it, an error too.
unfoldable pub process_shards :
    WorkerConfig
    → World
    → UploadJob
    → List PackShard
    → Progress
    → Machine
    → Result UploaderError ShardStep × Machine
process_shards c w job [] p m = (ok (go_on p), m)
process_shards c w job (shard ∷ rest) p m = and_then (process_shard c w job shard p m) λ step m'.
    elim step [
      | go_on p' ↦ process_shards c w job rest p' m'
      | leave outcome ↦ (ok (leave outcome), m')
    ]
