-- ===== src/Uploader/Frame.antt =====
-- What the loop over the shards of a job (`process_job` of angeld/src/uploader.rs) leaves alone.
use omnidrive.Prelude.{
  ℕ, ◌≡◌, refl, ◌∙◌, String, Bool, not, List, [], ◌∷◌, ltb, select_where, update_where,
  select-update_where, arith, Bool-cases, inl, inr,
}
use omnidrive.Db.{Db, Message, UploadJob, PackShard}
use omnidrive.Db.Targets.{
  StoredObject, ensure_upload_target, ensure_upload_targets, mark_upload_target_in_progress,
  mark_upload_target_completed, requeue_upload_target, mark_upload_target_failed,
  mark_upload_target_permanently_failed,
}
use omnidrive.Db.Shards.{
  at_index, of_pack, mark_pack_shard_in_progress, mark_pack_shard_completed, requeue_pack_shard,
  mark_pack_shard_failed, mark_pack_shard_permanently_failed,
}
use omnidrive.Uploader.{World, escalate_target_if_permanent}

abbrev pub of_other : String → PackShard → Bool
of_other pack_id s = not (of_pack pack_id s)

-- The shards of the other packs, the packs and the jobs are as they were.
pub record Leaves (pack_id : String) (db db' : Db) : Type 0 where
  pub others :
      select_where (of_other pack_id) db'.pack_shards
      ≡ select_where (of_other pack_id) db.pack_shards
  pub packs : db'.packs ≡ db.packs
  pub jobs : db'.upload_jobs ≡ db.upload_jobs

pub Leaves-refl : {pack_id : String} (db : Db) → Leaves pack_id db db
Leaves-refl db = record { others = refl; packs = refl; jobs = refl }

pub Leaves-trans :
    {pack_id : String} {a b c : Db} → Leaves pack_id a b → Leaves pack_id b c → Leaves pack_id a c
Leaves-trans h k = record {
  others = k.others ∙ h.others;
  packs = k.packs ∙ h.packs;
  jobs = k.jobs ∙ h.jobs;
}

-- An update of one shard's row.
row-others :
    (pack_id : String) (index : ℕ) (f : PackShard → PackShard) (ss : List PackShard)
    → ((s : PackShard) → (f s).pack_id ≡ s.pack_id)
    → select_where (of_other pack_id) (update_where (at_index pack_id index) f ss)
      ≡ select_where (of_other pack_id) ss
row-others pack_id index f ss h =
    select-update_where (of_other pack_id) (at_index pack_id index) f ss
      λ s e. (ground arith, rw (h s) (ground arith))

pub shard_in_progress-Leaves :
    (p : String) (i : ℕ) (db : Db) → Leaves p db (mark_pack_shard_in_progress p i db)
unfolding mark_pack_shard_in_progress
shard_in_progress-Leaves p i db = record {
  others = row-others p i _ db.pack_shards (λ s. refl);
  packs = refl;
  jobs = refl;
}

pub shard_completed-Leaves :
    (p : String) (i : ℕ) (db : Db) → Leaves p db (mark_pack_shard_completed p i db)
unfolding mark_pack_shard_completed
shard_completed-Leaves p i db = record {
  others = row-others p i _ db.pack_shards (λ s. refl);
  packs = refl;
  jobs = refl;
}

pub shard_failed-Leaves :
    (p : String) (i : ℕ) (e : Message) (db : Db) → Leaves p db (mark_pack_shard_failed p i e db)
unfolding mark_pack_shard_failed
shard_failed-Leaves p i e db = record {
  others = row-others p i _ db.pack_shards (λ s. refl);
  packs = refl;
  jobs = refl;
}

pub shard_given_up-Leaves :
    (p : String) (i : ℕ) (e : Message) (db : Db)
    → Leaves p db (mark_pack_shard_permanently_failed p i e db)
unfolding mark_pack_shard_permanently_failed
shard_given_up-Leaves p i e db = record {
  others = row-others p i _ db.pack_shards (λ s. refl);
  packs = refl;
  jobs = refl;
}

pub shard_requeued-Leaves :
    (p : String) (i : ℕ) (e : Message) (db : Db) → Leaves p db (requeue_pack_shard p i e db).1
unfolding requeue_pack_shard
shard_requeued-Leaves p i e db = record {
  others = row-others p i _ db.pack_shards (λ s. refl);
  packs = refl;
  jobs = refl;
}

pub target_in_progress-Leaves :
    (p : String) (now id : ℕ) (v : String) (db : Db)
    → Leaves p db (mark_upload_target_in_progress now id v db)
unfolding mark_upload_target_in_progress
target_in_progress-Leaves p now id v db = record { others = refl; packs = refl; jobs = refl }

pub target_completed-Leaves :
    (p : String) (now id : ℕ) (v : String) (o : StoredObject) (db : Db)
    → Leaves p db (mark_upload_target_completed now id v o db)
unfolding mark_upload_target_completed
target_completed-Leaves p now id v o db = record { others = refl; packs = refl; jobs = refl }

pub target_failed-Leaves :
    (p : String) (now id : ℕ) (v : String) (e : Message) (db : Db)
    → Leaves p db (mark_upload_target_failed now id v e db)
unfolding mark_upload_target_failed
target_failed-Leaves p now id v e db = record { others = refl; packs = refl; jobs = refl }

pub target_given_up-Leaves :
    (p : String) (now id : ℕ) (v : String) (e : Message) (db : Db)
    → Leaves p db (mark_upload_target_permanently_failed now id v e db)
unfolding mark_upload_target_permanently_failed
target_given_up-Leaves p now id v e db = record { others = refl; packs = refl; jobs = refl }

pub target_requeued-Leaves :
    (p : String) (now id : ℕ) (v : String) (e : Message) (db : Db)
    → Leaves p db (requeue_upload_target now id v e db).1
unfolding requeue_upload_target
target_requeued-Leaves p now id v e db = record { others = refl; packs = refl; jobs = refl }

pub target_ensured-Leaves :
    (p : String) (id : ℕ) (v : String) (db : Db) → Leaves p db (ensure_upload_target id v db)
unfolding ensure_upload_target
target_ensured-Leaves p id v db = record {
  others = ground arith;
  packs = ground arith;
  jobs = ground arith;
}

pub targets_ensured-Leaves :
    (p : String) (id : ℕ) (vs : List String) (db : Db)
    → Leaves p db (ensure_upload_targets id vs db)
unfolding ensure_upload_targets
targets_ensured-Leaves p id [] db = Leaves-refl db
targets_ensured-Leaves p id (v ∷ vs) db =
    Leaves-trans (target_ensured-Leaves p id v db)
      (targets_ensured-Leaves p id vs (ensure_upload_target id v db))

pub escalate-Leaves :
    (w : World) (job : UploadJob) (s : PackShard) (n : ℕ) (e : Message) (db : Db)
    → Leaves job.pack_id db (escalate_target_if_permanent w job s n e db)
unfolding escalate_target_if_permanent
escalate-Leaves w job s n e db = elim (Bool-cases (ltb n 1000)) [
  | inl q ↦ rw q (Leaves-refl db)
  | inr q ↦ rw q (
      Leaves-trans (target_given_up-Leaves job.pack_id w.now job.id s.provider e db)
        (shard_given_up-Leaves job.pack_id s.shard_index e _))
]
