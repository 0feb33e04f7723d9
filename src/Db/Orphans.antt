-- ===== src/Db/Orphans.antt =====
-- The collection of orphaned packs: `gc_orphan_packs` of angeld/src/db/uploads.rs.
pub mod Safety
use omnidrive.Prelude.{
  ℕ, suc, ◌+◌, ◌-◌, ◌^◌, String, Bool, true, false, ◌&&◌, ◌||◌, not, Option, none, some, List, [],
  ◌∷◌, ◌++◌, str_eq, ◌==◌, min, if◌then◌else◌, select_where, delete_where, count_where, any_where,
  map,
}
use omnidrive.Db.{Db, Pack, PackShard, PackLocation, ChunkRef, UploadJob, UploadTarget}
use omnidrive.Db.Shards.{of_pack}
use omnidrive.Db.Packs.{named, located_in, job_of}

pub record GcOrphanReport : Type 0 where
  pub orphan_pack_ids : List String
  pub deleted_packs : ℕ
  pub deleted_pack_shards : ℕ
  pub deleted_pack_locations : ℕ
  pub deleted_upload_jobs : ℕ
  pub deleted_upload_job_targets : ℕ

abbrev pub of_chunk : String → ChunkRef → Bool
of_chunk chunk_id c = str_eq c.chunk_id chunk_id

-- EXISTS (SELECT 1 FROM pack_locations pl INNER JOIN chunk_refs cr … WHERE pl.pack_id = p.pack_id)
abbrev pub holds_live_chunk : String → List ChunkRef → PackLocation → Bool
holds_live_chunk pack_id refs l = located_in pack_id l && any_where (of_chunk l.chunk_id) refs

abbrev pub is_referenced : Db → Pack → Bool
is_referenced db p = any_where (holds_live_chunk p.pack_id db.chunk_refs) db.pack_locations

unfoldable pub orphan_ids : Db → List String
orphan_ids db = map (λ p. p.pack_id) (select_where (λ p. not (is_referenced db p)) db.packs)

-- u64::saturating_add
abbrev pub add_count : ℕ → ℕ → ℕ
add_count a b = min (a + b) (2 ^ 64 - 1)

abbrev pub target_of_job : ℕ → UploadTarget → Bool
target_of_job job_id t = t.job_id == job_id

abbrev pub job_with : ℕ → UploadJob → Bool
job_with job_id j = j.id == job_id

-- The loop over the jobs of a pack: their targets, then the job. The foreign key finds no target
-- left to delete with it.
unfoldable pub delete_jobs : List ℕ → GcOrphanReport × Db → GcOrphanReport × Db
delete_jobs [] (r, db) = (r, db)
delete_jobs (id ∷ ids) (r, db) = delete_jobs ids (
  record r {
    deleted_upload_job_targets =
        add_count r.deleted_upload_job_targets (count_where (target_of_job id) db.upload_targets);
    deleted_upload_jobs =
        add_count r.deleted_upload_jobs (count_where (job_with id) db.upload_jobs);
  },
  record db {
    upload_targets = delete_where (target_of_job id) db.upload_targets;
    upload_jobs = delete_where (job_with id) db.upload_jobs;
  },
)

-- The rest of the loop body; the shards go with the pack, by ON DELETE CASCADE.
abbrev pub delete_pack : String → GcOrphanReport × Db → GcOrphanReport × Db
delete_pack pack_id (r, db) = (
  record r {
    deleted_pack_locations =
        add_count r.deleted_pack_locations (count_where (located_in pack_id) db.pack_locations);
    deleted_pack_shards =
        add_count r.deleted_pack_shards (count_where (of_pack pack_id) db.pack_shards);
    deleted_packs = add_count r.deleted_packs (count_where (named pack_id) db.packs);
  },
  record db {
    pack_locations = delete_where (located_in pack_id) db.pack_locations;
    pack_shards = delete_where (of_pack pack_id) db.pack_shards;
    packs = delete_where (named pack_id) db.packs;
  },
)

unfoldable pub delete_orphan : String → GcOrphanReport × Db → GcOrphanReport × Db
unfolding delete_jobs
delete_orphan pack_id s =
    delete_pack pack_id
      (delete_jobs (map (λ j. j.id) (select_where (job_of pack_id) s.1.upload_jobs)) s)

unfoldable pub delete_orphans : List String → GcOrphanReport × Db → GcOrphanReport × Db
unfolding delete_orphan
delete_orphans [] s = s
delete_orphans (id ∷ ids) s = delete_orphans ids (delete_orphan id s)

abbrev pub no_deletions : List String → GcOrphanReport
no_deletions ids = record {
  orphan_pack_ids = ids;
  deleted_packs = 0;
  deleted_pack_shards = 0;
  deleted_pack_locations = 0;
  deleted_upload_jobs = 0;
  deleted_upload_job_targets = 0;
}

-- Without an orphan nothing is written: the loop is empty then.
unfoldable pub gc_orphan_packs : Db → GcOrphanReport × Db
unfolding orphan_ids delete_orphans
gc_orphan_packs db = delete_orphans (orphan_ids db) (no_deletions (orphan_ids db), db)
