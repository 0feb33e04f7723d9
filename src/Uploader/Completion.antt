-- ===== src/Uploader/Completion.antt =====
-- What a completed job says of its pack, and which files of the spool a job may delete:
-- `process_job` and `cleanup_remote_backed_pack_spool` of angeld/src/uploader.rs.
use omnidrive.Prelude.{
  ℕ, ◌≤◌, ◌≡◌, ◌≢◌, ◌⊎◌, refl, ◌∙◌, ap, String, Bool, true, false, Option, none, some, List, [],
  ◌∷◌, if◌then◌else◌, arith, inl, inr,
}
use omnidrive.Result.{Result, ok, err, and_then}
use omnidrive.CloudGuard.{is_cloud_suspended}
use omnidrive.Db.{Db, Message, UploadJob, Pack, PackShard, StorageMode, local_only, from_str}
use omnidrive.Db.Packs.{get_pack}
use omnidrive.Db.Packs.Status.{needed, stored}
use omnidrive.Uploader.Loop.{Ends, shards-Ends}
use omnidrive.Uploader.{
  Machine, WorkerConfig, World, UploaderError, JobProcessOutcome, completed, pending_retry,
  ShardStep, set_db, finish_job, settle_job, process_pending, process_pack, process_job,
}
use omnidrive.Uploader.Settling.{Settles, settle-Settles, finish-Settles, pending≢completed}

-- The same of a run that may end with an error.
pub record SettlesOrFails (mode : StorageMode) (pack_id : String) (old : Machine)
    (r : Result UploaderError JobProcessOutcome × Machine) : Type 0 where
  pub done : r.0 ≡ ok completed → needed mode ≤ stored pack_id r.1.db
  pub kept : (r.1.spool ≡ old.spool) ⊎ ((r.0 ≡ ok completed) × (mode ≢ local_only))

abbrev returned : JobProcessOutcome → Result UploaderError JobProcessOutcome
returned o = ok o

ok_injective : {a b : JobProcessOutcome} → returned a ≡ returned b → a ≡ b
ok_injective e = cc

err≢ok : {e : UploaderError} {a : JobProcessOutcome} → err e ≢ returned a
err≢ok q = ground arith

lift-Settles :
    {mode : StorageMode} {pack_id : String} {old m : Machine} (r : JobProcessOutcome × Machine)
    → m.spool ≡ old.spool
    → Settles mode pack_id m r
    → SettlesOrFails mode pack_id old (ok r.0, r.1)
lift-Settles r h s = record {
  done = λ e. s.done (ok_injective e);
  kept = elim s.kept [ inl k ↦ inl (k ∙ h) | inr k ↦ inr (ap ok k.0, k.1) ];
}

after_loop-Settles :
    (c : WorkerConfig) (w : World) (job : UploadJob) (mode : StorageMode) (m : Machine)
    (r : Result UploaderError ShardStep × Machine)
    → Ends job.pack_id m r
    → SettlesOrFails mode job.pack_id m
        (and_then r λ step m'. let (o, m'') = finish_job c w job mode step m' in (ok o, m''))
after_loop-Settles c w job mode m (ok step, m') h =
    lift-Settles (finish_job c w job mode step m') h.0.spool
      (finish-Settles c w job mode step m' h.1)
after_loop-Settles c w job mode m (err e, m') h = record {
  done = λ q. absurd (err≢ok q);
  kept = inl h.0.spool;
}

pending-Settles :
    (c : WorkerConfig) (w : World) (job : UploadJob) (mode : StorageMode) (ss : List PackShard)
    (m : Machine)
    → SettlesOrFails mode job.pack_id m (process_pending c w job mode ss m)
unfolding process_pending
pending-Settles c w job mode [] m =
    lift-Settles (settle_job c job mode m) refl (settle-Settles c job mode m)
pending-Settles c w job mode (s ∷ ss) m =
    after_loop-Settles c w job mode m _
      (shards-Ends c w job (s ∷ ss) (record { max_attempts = 0; failed_shards = [] }) m)

-- A run of `process_pack` on a pack row, or on none.
PackSettles :
    String → Option Pack → Machine → Result UploaderError JobProcessOutcome × Machine → Type 0
PackSettles pack_id none old r = (r.0 ≢ ok completed) × (r.1.spool ≡ old.spool)
PackSettles pack_id (some p) old r = SettlesOrFails (from_str p.storage_mode) pack_id old r

pack-Settles :
    (c : WorkerConfig) (w : World) (job : UploadJob) (o : Option Pack) (m : Machine)
    → PackSettles job.pack_id o m (process_pack c w job o m)
unfolding PackSettles process_pack
pack-Settles c w job none m = (err≢ok, refl)
pack-Settles c w job (some p) m = record {
  done = (pending-Settles c w job (from_str p.storage_mode) _ _).done;
  kept = (pending-Settles c w job (from_str p.storage_mode) _ (set_db m _)).kept;
}

deferred-Settles :
    (mode : StorageMode) (pack_id : String) (d : ℕ) (ms : List Message) (m : Machine)
    → SettlesOrFails mode pack_id m (ok (pending_retry d ms), m)
deferred-Settles mode pack_id d ms m = record {
  done = λ e. absurd (pending≢completed (ok_injective e));
  kept = inl refl;
}

deferred-PackSettles :
    (pack_id : String) (o : Option Pack) (d : ℕ) (ms : List Message) (m : Machine)
    → PackSettles pack_id o m (ok (pending_retry d ms), m)
unfolding PackSettles
deferred-PackSettles pack_id none d ms m = ((λ e. pending≢completed (ok_injective e)), refl)
deferred-PackSettles pack_id (some p) d ms m =
    deferred-Settles (from_str p.storage_mode) pack_id d ms m

either-PackSettles :
    (pack_id : String) (o : Option Pack) (m : Machine)
    (x y : Result UploaderError JobProcessOutcome × Machine) (b : Bool)
    → PackSettles pack_id o m x
    → PackSettles pack_id o m y
    → PackSettles pack_id o m (if b then x else y)
either-PackSettles pack_id o m x y true h k = h
either-PackSettles pack_id o m x y false h k = k

job-Settles :
    (c : WorkerConfig) (w : World) (job : UploadJob) (m : Machine)
    → PackSettles job.pack_id (get_pack job.pack_id m.db) m (process_job c w job m)
unfolding process_job
job-Settles c w job m =
    either-PackSettles job.pack_id (get_pack job.pack_id m.db) m _ _ c.guard_config.dry_run_active
      (deferred-PackSettles job.pack_id (get_pack job.pack_id m.db) _ _ m)
      (either-PackSettles job.pack_id (get_pack job.pack_id m.db) m _ _ (is_cloud_suspended m.guard)
        (deferred-PackSettles job.pack_id (get_pack job.pack_id m.db) _ _ m)
        (pack-Settles c w job (get_pack job.pack_id m.db) m))

-- That a pack has the shards in the cloud that its storage mode needs.
abbrev pub IsStored : String → Db → Pack → Type 0
IsStored pack_id db p = needed (from_str p.storage_mode) ≤ stored pack_id db

settled-done :
    (pack_id : String) (o : Option Pack) (m : Machine)
    (r : Result UploaderError JobProcessOutcome × Machine)
    → PackSettles pack_id o m r
    → r.0 ≡ ok completed
    → (p : Pack) × (o ≡ some p) × IsStored pack_id r.1.db p
unfolding PackSettles
settled-done pack_id none m r h e = absurd (h.0 e)
settled-done pack_id (some p) m r h e = (p, refl, h.done e)

settled-kept :
    (pack_id : String) (o : Option Pack) (m : Machine)
    (r : Result UploaderError JobProcessOutcome × Machine)
    → PackSettles pack_id o m r
    → (r.1.spool ≡ m.spool)
      ⊎ ((r.0 ≡ ok completed)
          × ((p : Pack) × (o ≡ some p)
              × IsStored pack_id r.1.db p
              × (from_str p.storage_mode ≢ local_only)))
unfolding PackSettles
settled-kept pack_id none m r h = inl h.1
settled-kept pack_id (some p) m r h = elim h.kept [
  | inl k ↦ inl k
  | inr k ↦ inr (k.0, (p, refl, h.done k.0, k.1))
]

-- When `process_job` reports a job completed, whatever the providers answered, the job's pack
-- exists, and behind the call at least as many of its shards are completed as its storage mode
-- needs: two in the 2 + 1 scheme, one of a single replica, none of a local pack.
pub completed-IsStored :
    (c : WorkerConfig) (w : World) (job : UploadJob) (m : Machine)
    → (process_job c w job m).0 ≡ ok completed
    → (p : Pack) × (get_pack job.pack_id m.db ≡ some p)
      × IsStored job.pack_id (process_job c w job m).1.db p
completed-IsStored c w job m e =
    settled-done job.pack_id (get_pack job.pack_id m.db) m (process_job c w job m)
      (job-Settles c w job m) e

-- `process_job` leaves the spool as it is, or it reports the job completed, the pack is not a local
-- one, and enough of its shards are completed to read it. So no local copy is deleted on an error,
-- a retry or a failure, or before the cloud holds the pack.
pub spool_is_kept :
    (c : WorkerConfig) (w : World) (job : UploadJob) (m : Machine)
    → let r = process_job c w job m in
      (r.1.spool ≡ m.spool)
      ⊎ ((r.0 ≡ ok completed)
          × ((p : Pack) × (get_pack job.pack_id m.db ≡ some p)
              × IsStored job.pack_id r.1.db p
              × (from_str p.storage_mode ≢ local_only)))
spool_is_kept c w job m =
    settled-kept job.pack_id (get_pack job.pack_id m.db) m (process_job c w job m)
      (job-Settles c w job m)
