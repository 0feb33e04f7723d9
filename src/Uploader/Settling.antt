-- ===== src/Uploader/Settling.antt =====
-- How a job ends, by the status of its pack: `finish_job`'s part of `process_job` of
-- angeld/src/uploader.rs.
use omnidrive.Prelude.{ℕ, ◌≤◌, ◌≡◌, ◌≢◌, ◌⊎◌, refl, String, List, if◌then◌else◌, arith, inl, inr}
use omnidrive.Result.{ok}
use omnidrive.Db.{
  Message, UploadJob, PackStatus, uploading, healthy, degraded, unreadable, StorageMode, ec2_1,
  single_replica, local_only,
}
use omnidrive.Db.Packs.{update_pack_status}
use omnidrive.Db.Packs.Status.{needed, stored, in_flight, Says, resolve_pack_status_lem}
use omnidrive.Uploader.Loop.{Deferred}
use omnidrive.Uploader.{
  Machine, WorkerConfig, World, JobProcessOutcome, completed, pending_retry, failed, ShardStep,
  go_on, leave, set_db, finish_job, settle_job, cleanup_remote_backed_pack_spool, outcome_of,
  is_remote_backed, pack_status,
}

-- An ending of a job in the storage mode `mode`: completed only with enough shards stored, and with
-- files deleted only when completed and not local.
pub record Settles (mode : StorageMode) (pack_id : String) (old : Machine)
    (r : JobProcessOutcome × Machine) : Type 0 where
  pub done : r.0 ≡ completed → needed mode ≤ stored pack_id r.1.db
  pub kept : (r.1.spool ≡ old.spool) ⊎ ((r.0 ≡ completed) × (mode ≢ local_only))

abbrev saved : String → PackStatus → Machine → Machine
saved pack_id st m = set_db m (update_pack_status pack_id st m.db)

abbrev cleaned : World → String → StorageMode → PackStatus → Machine → Machine
cleaned w pack_id mode st m =
    if is_remote_backed mode st
    then record (saved pack_id st m) { spool = cleanup_remote_backed_pack_spool w pack_id m.spool }
    else saved pack_id st m

pub pending≢completed : {d : ℕ} {ms : List Message} → pending_retry d ms ≢ completed
pending≢completed e = ground arith

failed≢completed : failed ≢ completed
failed≢completed e = ground arith

cleaned-Settles :
    (w : World) (pack_id : String) (mode : StorageMode) (st : PackStatus) (m : Machine) (d : ℕ)
    (ms : List Message)
    → Says mode (stored pack_id m.db) (in_flight pack_id m.db) st
    → Settles mode pack_id m (outcome_of st d ms, cleaned w pack_id mode st m)
unfolding update_pack_status
cleaned-Settles w pack_id ec2_1 healthy m d ms s = record {
  done = λ e. omega arith;
  kept = inr (refl, λ e. ground arith);
}
cleaned-Settles w pack_id single_replica healthy m d ms s = record {
  done = λ e. omega arith;
  kept = inr (refl, λ e. ground arith);
}
cleaned-Settles w pack_id local_only healthy m d ms s = record {
  done = λ e. omega arith;
  kept = inl refl;
}
cleaned-Settles w pack_id ec2_1 degraded m d ms s = record {
  done = λ e. omega arith;
  kept = inr (refl, λ e. ground arith);
}
cleaned-Settles w pack_id single_replica degraded m d ms s = record {
  done = λ e. omega arith;
  kept = inr (refl, λ e. ground arith);
}
cleaned-Settles w pack_id local_only degraded m d ms s = record {
  done = λ e. omega arith;
  kept = inl refl;
}
cleaned-Settles w pack_id ec2_1 uploading m d ms s = record {
  done = λ e. absurd (pending≢completed e);
  kept = inl refl;
}
cleaned-Settles w pack_id single_replica uploading m d ms s = record {
  done = λ e. absurd (pending≢completed e);
  kept = inl refl;
}
cleaned-Settles w pack_id local_only uploading m d ms s = record {
  done = λ e. absurd (pending≢completed e);
  kept = inl refl;
}
cleaned-Settles w pack_id ec2_1 unreadable m d ms s = record {
  done = λ e. absurd (failed≢completed e);
  kept = inl refl;
}
cleaned-Settles w pack_id single_replica unreadable m d ms s = record {
  done = λ e. absurd (failed≢completed e);
  kept = inl refl;
}
cleaned-Settles w pack_id local_only unreadable m d ms s = record {
  done = λ e. absurd (failed≢completed e);
  kept = inl refl;
}

saved-Settles :
    (pack_id : String) (mode : StorageMode) (st : PackStatus) (m : Machine) (d : ℕ)
    (ms : List Message)
    → Says mode (stored pack_id m.db) (in_flight pack_id m.db) st
    → Settles mode pack_id m (outcome_of st d ms, saved pack_id st m)
unfolding update_pack_status
saved-Settles pack_id ec2_1 healthy m d ms s = record { done = λ e. omega arith; kept = inl refl }
saved-Settles pack_id single_replica healthy m d ms s = record {
  done = λ e. omega arith;
  kept = inl refl;
}
saved-Settles pack_id local_only healthy m d ms s = record {
  done = λ e. omega arith;
  kept = inl refl;
}
saved-Settles pack_id mode degraded m d ms s = record { done = λ e. s.0; kept = inl refl }
saved-Settles pack_id mode uploading m d ms s = record {
  done = λ e. absurd (pending≢completed e);
  kept = inl refl;
}
saved-Settles pack_id mode unreadable m d ms s = record {
  done = λ e. absurd (failed≢completed e);
  kept = inl refl;
}

pub settle-Settles :
    (c : WorkerConfig) (job : UploadJob) (mode : StorageMode) (m : Machine)
    → Settles mode job.pack_id m (settle_job c job mode m)
unfolding settle_job
settle-Settles c job mode m =
    saved-Settles job.pack_id mode (pack_status mode job.pack_id m.db) m _ _
      (resolve_pack_status_lem mode job.pack_id m.db)

pub finish-Settles :
    (c : WorkerConfig) (w : World) (job : UploadJob) (mode : StorageMode) (step : ShardStep)
    (m : Machine)
    → Deferred (ok step)
    → Settles mode job.pack_id m (finish_job c w job mode step m)
unfolding finish_job
finish-Settles c w job mode (go_on p) m h =
    cleaned-Settles w job.pack_id mode (pack_status mode job.pack_id m.db) m _ _
      (resolve_pack_status_lem mode job.pack_id m.db)
finish-Settles c w job mode (leave (pending_retry d ms)) m h = record {
  done = λ e. absurd (pending≢completed e);
  kept = inl refl;
}
finish-Settles c w job mode (leave completed) m h = absurd h
finish-Settles c w job mode (leave failed) m h = absurd h
