-- ===== src/Uploader.antt =====
-- The upload worker: angeld/src/uploader.rs, its loop over jobs and over the shards of a job.
mod Types
mod Shard
pub mod Retry
pub mod Frame
pub mod Loop
pub mod Settling
pub mod Completion
pub mod Isolation
pub mod Round
pub mod Restart
unfoldable pub use Types.*
unfoldable pub use Shard.*
use omnidrive.Prelude.{
  ℕ, String, Bool, true, false, Option, none, some, List, [], ◌∷◌, map, max, if◌then◌else◌,
  delete_where,
}
use omnidrive.Result.{Result, ok, err, and_then}
use omnidrive.CloudGuard.{
  ConfigText, get_system_config_value, cloud_suspend_reason, is_cloud_suspended,
}
use omnidrive.CloudGuard
use omnidrive.Db.{
  Db, Message, text, dry_run_job, UploadJob, PackShard, Pack, PackStatus, uploading, healthy,
  degraded, unreadable, StorageMode, local_only, from_str,
}
use omnidrive.Db.Jobs.{
  get_next_upload_job, mark_upload_job_completed, mark_upload_job_failed, requeue_upload_job_after,
  reset_in_progress_upload_jobs,
}
use omnidrive.Db.Targets.{ensure_upload_targets, reset_in_progress_upload_targets}
use omnidrive.Db.Shards.{
  get_pack_shards, get_incomplete_pack_shards, reset_in_progress_pack_shards, summarize_pack_shards,
}
use omnidrive.Db.Packs.{get_pack, update_pack_status, resolve_pack_status_for_mode}

-- `secure_delete` of one file; a failure is logged.
abbrev pub delete_file : World → SpoolFile → List SpoolFile → List SpoolFile
delete_file w f spool = if w.deletable f then delete_where (same_file f) spool else spool

-- The manifest and the shards 0 to TOTAL_SHARDS - 1.
unfoldable pub cleanup_remote_backed_pack_spool : World → String → List SpoolFile → List SpoolFile
cleanup_remote_backed_pack_spool w pack_id spool = delete_file w (shard_file pack_id 2) (
    delete_file w (shard_file pack_id 1)
      (delete_file w (shard_file pack_id 0) (delete_file w (manifest pack_id) spool)))

abbrev pub outcome_of : PackStatus → ℕ → List Message → JobProcessOutcome
outcome_of healthy delay messages = completed
outcome_of degraded delay messages = completed
outcome_of uploading delay messages = pending_retry delay messages
outcome_of unreadable delay messages = failed

-- Healthy or degraded, and not a local pack.
abbrev pub is_remote_backed : StorageMode → PackStatus → Bool
is_remote_backed local_only status = false
is_remote_backed mode healthy = true
is_remote_backed mode degraded = true
is_remote_backed mode status = false

abbrev pub pack_status : StorageMode → String → Db → PackStatus
pack_status mode pack_id db = resolve_pack_status_for_mode mode (summarize_pack_shards pack_id db)

-- The end of `process_job` behind the loop.
unfoldable pub finish_job :
    WorkerConfig
    → World
    → UploadJob
    → StorageMode
    → ShardStep
    → Machine
    → JobProcessOutcome × Machine
finish_job c w job mode (leave outcome) m = (outcome, m)
finish_job c w job mode (go_on p) m =
    let status = pack_status mode job.pack_id m.db in
    let saved = set_db m (update_pack_status job.pack_id status m.db) in
    (
      outcome_of status (retry_delay c (max p.max_attempts 1)) p.failed_shards,
      (if is_remote_backed mode status
          then record saved { spool = cleanup_remote_backed_pack_spool w job.pack_id saved.spool }
          else saved),
    )

-- The branch for a job without pending shards.
unfoldable pub settle_job :
    WorkerConfig → UploadJob → StorageMode → Machine → JobProcessOutcome × Machine
settle_job c job mode m =
    let status = pack_status mode job.pack_id m.db in
    (
      outcome_of status (retry_delay c 1) (text "waiting for shard retry" ∷ []),
      set_db m (update_pack_status job.pack_id status m.db),
    )

-- The rest of `process_job`, once the storage mode and the pending shards are known.
unfoldable pub process_pending :
    WorkerConfig
    → World
    → UploadJob
    → StorageMode
    → List PackShard
    → Machine
    → Result UploaderError JobProcessOutcome × Machine
process_pending c w job mode [] m = let (o, m') = settle_job c job mode m in (ok o, m')
process_pending c w job mode (s ∷ ss) m =
    and_then (process_shards c w job (s ∷ ss) (record { max_attempts = 0; failed_shards = [] }) m)
      λ step m'. let (o, m'') = finish_job c w job mode step m' in (ok o, m'')

abbrev pub suspension_message : Option ConfigText → Message
suspension_message none = text "cloud operations suspended by circuit breaker"
suspension_message (some t) = config_message t

unfoldable pub process_pack :
    WorkerConfig
    → World
    → UploadJob
    → Option Pack
    → Machine
    → Result UploaderError JobProcessOutcome × Machine
process_pack c w job none m = (err (invalid_env "upload_jobs.pack_id"), m)
process_pack c w job (some pack) m =
    let providers = map (λ (s : PackShard). s.provider) (get_pack_shards job.pack_id m.db) in
    let m' = set_db m (ensure_upload_targets job.id providers m.db) in
    process_pending c w job (from_str pack.storage_mode)
      (get_incomplete_pack_shards job.pack_id m'.db) m'

unfoldable pub process_job :
    WorkerConfig → World → UploadJob → Machine → Result UploaderError JobProcessOutcome × Machine
process_job c w job m =
    if c.guard_config.dry_run_active
    then (ok (pending_retry c.retry_max_delay (dry_run_job job.pack_id ∷ [])), m)
    else (if is_cloud_suspended m.guard
        then (
          ok (
              pending_retry c.retry_max_delay
                (suspension_message (get_system_config_value cloud_suspend_reason m.guard) ∷ [])),
          m,
        )
        else process_pack c w job (get_pack job.pack_id m.db) m)

-- The match on the outcome in `run`.
unfoldable pub conclude_job :
    World → UploadJob → JobProcessOutcome → Machine → Result UploaderError (Unit {0}) × Machine
conclude_job w job completed m = (ok tt, set_db m (mark_upload_job_completed job.id m.db))
conclude_job w job (pending_retry delay messages) m =
    and_then (on_db m (requeue_upload_job_after w.now job.id delay m.db)) λ attempts m'. (ok tt, m')
conclude_job w job failed m = (ok tt, set_db m (mark_upload_job_failed job.id m.db))

abbrev pub run_claimed :
    WorkerConfig → World → Option UploadJob → Machine → Result UploaderError (Unit {0}) × Machine
run_claimed c w none m = (ok tt, m)
run_claimed c w (some job) m =
    and_then (process_job c w job m) λ outcome m'. conclude_job w job outcome m'

-- One round of the loop of `run`: without a ready job the worker sleeps.
unfoldable pub run_round :
    WorkerConfig → World → Machine → Result UploaderError (Unit {0}) × Machine
run_round c w m =
    let (job, db) = get_next_upload_job w.now m.db in run_claimed c w job (set_db m db)

-- The statements before the loop of `run`.
unfoldable pub start : ℕ → Machine → Machine
start now m =
    set_db m
      (reset_in_progress_pack_shards
        (reset_in_progress_upload_targets now (reset_in_progress_upload_jobs m.db).1).1).1
