-- ===== src/Uploader/Isolation.antt =====
-- What a job leaves alone outside its own pack: `process_job` and
-- `cleanup_remote_backed_pack_spool` of angeld/src/uploader.rs.
use omnidrive.Prelude.{
  ℕ, ◌≡◌, refl, ◌∙◌, ap, String, Bool, true, false, not, Option, none, some, List, [], ◌∷◌, str_eq,
  eq_iff, if◌then◌else◌, select_where, select-update_where, select-delete_other, arith, Bool-cases,
  inl, inr,
}
use omnidrive.Result.{Result, ok, err, and_then}
use omnidrive.CloudGuard.{is_cloud_suspended}
use omnidrive.Db.{UploadJob, Pack, PackShard, PackStatus, StorageMode, from_str}
use omnidrive.Db.Packs.{get_pack, named, update_pack_status}
use omnidrive.Uploader.Frame.{of_other, targets_ensured-Leaves}
use omnidrive.Uploader.Loop.{Steps, Ends, shards-Ends}
use omnidrive.Uploader.{
  Machine, WorkerConfig, World, UploaderError, SpoolFile, manifest, shard_file, same_file,
  JobProcessOutcome, ShardStep, go_on, leave, set_db, finish_job, settle_job, process_pending,
  process_pack, process_job, cleanup_remote_backed_pack_spool, delete_file, is_remote_backed,
  pack_status,
}

abbrev pub other_named : String → Pack → Bool
other_named pack_id p = not (named pack_id p)

abbrev pub other_file : String → SpoolFile → Bool
other_file pack_id (manifest a) = not (str_eq a pack_id)
other_file pack_id (shard_file a i) = not (str_eq a pack_id)

-- The jobs, the shards and the rows of the other packs and their files are as they were.
pub record Isolated (pack_id : String) (m m' : Machine) : Type 0 where
  pub shards :
      select_where (of_other pack_id) m'.db.pack_shards
      ≡ select_where (of_other pack_id) m.db.pack_shards
  pub packs :
      select_where (other_named pack_id) m'.db.packs ≡ select_where (other_named pack_id) m.db.packs
  pub jobs : m'.db.upload_jobs ≡ m.db.upload_jobs
  pub files : select_where (other_file pack_id) m'.spool ≡ select_where (other_file pack_id) m.spool

Isolated-trans : {p : String} {a b c : Machine} → Isolated p a b → Isolated p b c → Isolated p a c
Isolated-trans h k = record {
  shards = k.shards ∙ h.shards;
  packs = k.packs ∙ h.packs;
  jobs = k.jobs ∙ h.jobs;
  files = k.files ∙ h.files;
}

Isolated-refl : {p : String} (m : Machine) → Isolated p m m
Isolated-refl m = record { shards = refl; packs = refl; jobs = refl; files = refl }

Steps-Isolated : {p : String} {m m' : Machine} → Steps p m m' → Isolated p m m'
Steps-Isolated {p} h = record {
  shards = h.db.others;
  packs = ap (select_where (other_named p)) h.db.packs;
  jobs = h.db.jobs;
  files = ap (select_where (other_file p)) h.spool;
}

manifest-same :
    (pack_id : String) (g : SpoolFile)
    → same_file (manifest pack_id) g ≡ true
    → other_file pack_id g ≡ false
unfolding same_file
manifest-same pack_id (manifest a) e = ground (arith, eq_iff a pack_id, eq_iff pack_id a)
manifest-same pack_id (shard_file a i) e = absurd (ground arith)

shard-same :
    (pack_id : String) (i : ℕ) (g : SpoolFile)
    → same_file (shard_file pack_id i) g ≡ true
    → other_file pack_id g ≡ false
unfolding same_file
shard-same pack_id i (manifest a) e = absurd (ground arith)
shard-same pack_id i (shard_file a j) e = ground (arith, eq_iff a pack_id, eq_iff pack_id a)

delete_file-others :
    (w : World) (pack_id : String) (f : SpoolFile) (spool : List SpoolFile)
    → ((g : SpoolFile) → same_file f g ≡ true → other_file pack_id g ≡ false)
    → select_where (other_file pack_id) (delete_file w f spool)
      ≡ select_where (other_file pack_id) spool
delete_file-others w pack_id f spool h = elim (Bool-cases (w.deletable f)) [
  | inl e ↦ rw e (select-delete_other (other_file pack_id) (same_file f) spool h)
  | inr e ↦ rw e
]

cleanup-others :
    (w : World) (pack_id : String) (spool : List SpoolFile)
    → select_where (other_file pack_id) (cleanup_remote_backed_pack_spool w pack_id spool)
      ≡ select_where (other_file pack_id) spool
unfolding cleanup_remote_backed_pack_spool
cleanup-others w pack_id spool =
    delete_file-others w pack_id (shard_file pack_id 2) _ (shard-same pack_id 2)
    ∙ delete_file-others w pack_id (shard_file pack_id 1) _ (shard-same pack_id 1)
    ∙ delete_file-others w pack_id (shard_file pack_id 0) _ (shard-same pack_id 0)
    ∙ delete_file-others w pack_id (manifest pack_id) spool (manifest-same pack_id)

saved-Isolated :
    (pack_id : String) (st : PackStatus) (m : Machine)
    → Isolated pack_id m (set_db m (update_pack_status pack_id st m.db))
unfolding update_pack_status
saved-Isolated pack_id st m = record {
  shards = refl;
  packs =
      select-update_where (other_named pack_id) (named pack_id) (λ p. record p { status = st })
        m.db.packs λ p e. (ground arith, ground arith);
  jobs = refl;
  files = refl;
}

cleaned-Isolated :
    (w : World) (pack_id : String) (b : Bool) (m : Machine)
    → Isolated pack_id m
        (if b then record m { spool = cleanup_remote_backed_pack_spool w pack_id m.spool } else m)
cleaned-Isolated w pack_id true m = record {
  shards = refl;
  packs = refl;
  jobs = refl;
  files = cleanup-others w pack_id m.spool;
}
cleaned-Isolated w pack_id false m = Isolated-refl m

finish-Isolated :
    (c : WorkerConfig) (w : World) (job : UploadJob) (mode : StorageMode) (step : ShardStep)
    (m : Machine)
    → Isolated job.pack_id m (finish_job c w job mode step m).1
unfolding finish_job
finish-Isolated c w job mode (leave o) m = Isolated-refl m
finish-Isolated c w job mode (go_on p) m =
    Isolated-trans (saved-Isolated job.pack_id (pack_status mode job.pack_id m.db) m) (
      cleaned-Isolated w job.pack_id (is_remote_backed mode (pack_status mode job.pack_id m.db))
        (set_db m _))

after_loop-Isolated :
    (c : WorkerConfig) (w : World) (job : UploadJob) (mode : StorageMode) (m : Machine)
    (r : Result UploaderError ShardStep × Machine)
    → Ends job.pack_id m r
    → Isolated job.pack_id m
        (and_then r λ step m'. let (o, m'') = finish_job c w job mode step m' in (ok o, m'')).1
after_loop-Isolated c w job mode m (ok step, m') h =
    Isolated-trans (Steps-Isolated h.0) (finish-Isolated c w job mode step m')
after_loop-Isolated c w job mode m (err e, m') h = Steps-Isolated h.0

pending-Isolated :
    (c : WorkerConfig) (w : World) (job : UploadJob) (mode : StorageMode) (ss : List PackShard)
    (m : Machine)
    → Isolated job.pack_id m (process_pending c w job mode ss m).1
unfolding process_pending settle_job
pending-Isolated c w job mode [] m =
    saved-Isolated job.pack_id (pack_status mode job.pack_id m.db) m
pending-Isolated c w job mode (s ∷ ss) m =
    after_loop-Isolated c w job mode m _
      (shards-Ends c w job (s ∷ ss) (record { max_attempts = 0; failed_shards = [] }) m)

pack-Isolated :
    (c : WorkerConfig) (w : World) (job : UploadJob) (o : Option Pack) (m : Machine)
    → Isolated job.pack_id m (process_pack c w job o m).1
unfolding process_pack
pack-Isolated c w job none m = Isolated-refl m
pack-Isolated c w job (some p) m =
    Isolated-trans
      (Steps-Isolated
        (record { spool = refl; db = targets_ensured-Leaves job.pack_id job.id _ m.db }))
      (pending-Isolated c w job (from_str p.storage_mode) _ (set_db m _))

either-Isolated :
    (p : String) (m : Machine) (x y : Result UploaderError JobProcessOutcome × Machine) (b : Bool)
    → Isolated p m x.1
    → Isolated p m y.1
    → Isolated p m (if b then x else y).1
either-Isolated p m x y true h k = h
either-Isolated p m x y false h k = k

-- On every path, an error included, `process_job` changes no upload job, no shard and no row of
-- another pack, and deletes no spool file of another pack.
pub process_job-Isolated :
    (c : WorkerConfig) (w : World) (job : UploadJob) (m : Machine)
    → Isolated job.pack_id m (process_job c w job m).1
unfolding process_job
process_job-Isolated c w job m =
    either-Isolated job.pack_id m _ _ c.guard_config.dry_run_active (Isolated-refl m) (
      either-Isolated job.pack_id m _ _ (is_cloud_suspended m.guard) (Isolated-refl m)
        (pack-Isolated c w job (get_pack job.pack_id m.db) m))
