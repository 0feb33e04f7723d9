-- ===== src/Db/Packs.antt =====
-- The packs statements of angeld/src/db/packs.rs that the upload pipeline and the collector use.
-- Foreign keys are enforced: a deleted pack takes its pack_shards with it, and a deleted upload
-- job its targets.
pub mod Status
use omnidrive.Prelude.{
  ℕ, suc, ◌+◌, String, Bool, true, false, ◌&&◌, ◌||◌, not, Option, none, some, List, [], ◌∷◌, ◌++◌,
  str_eq, ltb, leb, ◌==◌, if◌then◌else◌, take, first?, select_where, update_where, delete_where,
  count_where, find_where, any_where, order_by, map,
}
use Prim.Native.String.{compare}
use package.text.Mathlib.Text.{is_le}
use omnidrive.Db.{
  Db, Pack, PackShard, PackStatus, uploading, healthy, degraded, unreadable, StorageMode, ec2_1,
  single_replica, local_only, as_str, PackLocation, ChunkRef, UploadJob, UploadTarget, UploadStatus,
  pending, in_progress, completed,
}
use omnidrive.Db.Shards.{PackShardSummary, of_pack}

abbrev pub named : String → Pack → Bool
named pack_id p = str_eq p.pack_id pack_id

unfoldable pub update_pack_status : String → PackStatus → Db → Db
update_pack_status pack_id status db = record db {
  packs = update_where (named pack_id) (λ p. record p { status = status }) db.packs;
}

unfoldable pub get_pack : String → Db → Option Pack
get_pack pack_id db = find_where (named pack_id) db.packs

abbrev pub located_in : String → PackLocation → Bool
located_in pack_id l = str_eq l.pack_id pack_id

abbrev is_uploading : PackStatus → Bool
is_uploading uploading = true
is_uploading _ = false

-- LEFT JOIN pack_locations … WHERE pl.pack_id IS NULL AND p.status != 'UPLOADING'
abbrev pub is_unreferenced : Db → Pack → Bool
is_unreferenced db p =
    not (any_where (located_in p.pack_id) db.pack_locations) && not (is_uploading p.status)

abbrev pub by_pack_id : Pack → Pack → Bool
by_pack_id a b = is_le (compare a.pack_id b.pack_id)

unfoldable pub get_orphaned_pack_ids : ℕ → Db → List String
get_orphaned_pack_ids limit db =
    take limit
      (map (λ p. p.pack_id) (order_by by_pack_id (select_where (is_unreferenced db) db.packs)))

-- status IN ('PENDING', 'IN_PROGRESS', 'COMPLETED')
abbrev pub occupies : UploadStatus → Bool
occupies pending = true
occupies in_progress = true
occupies completed = true
occupies _ = false

unfoldable pub sum_sizes : List PackShard → ℕ
sum_sizes [] = 0
sum_sizes (s ∷ ss) = s.size + sum_sizes ss

unfoldable pub get_physical_usage_for_provider : String → Db → ℕ
unfolding sum_sizes
get_physical_usage_for_provider provider db =
    sum_sizes (select_where (λ s. str_eq s.provider provider && occupies s.status) db.pack_shards)

-- DELETE FROM upload_jobs, with ON DELETE CASCADE on the targets of each deleted job
abbrev pub job_of : String → UploadJob → Bool
job_of pack_id j = str_eq j.pack_id pack_id

abbrev pub target_of : List UploadJob → UploadTarget → Bool
target_of jobs t = any_where (λ (j : UploadJob). j.id == t.job_id) jobs

unfoldable pub delete_pack_metadata : String → Db → Db
delete_pack_metadata pack_id db =
    let jobs = select_where (job_of pack_id) db.upload_jobs in
    record db {
      upload_jobs = delete_where (job_of pack_id) db.upload_jobs;
      upload_targets = delete_where (target_of jobs) db.upload_targets;
      pack_shards = delete_where (of_pack pack_id) db.pack_shards;
      packs = delete_where (named pack_id) db.packs;
      pack_locations = delete_where (located_in pack_id) db.pack_locations;
    }

unfoldable pub resolve_pack_status_for_mode : StorageMode → PackShardSummary → PackStatus
resolve_pack_status_for_mode ec2_1 m =
    if leb 3 m.completed
    then healthy
    else (if leb 2 m.completed
        then degraded
        else (if ltb 0 m.pending || ltb 0 m.in_progress then uploading else unreadable))
resolve_pack_status_for_mode single_replica m =
    if leb 1 m.completed
    then healthy
    else (if ltb 0 m.pending || ltb 0 m.in_progress then uploading else unreadable)
resolve_pack_status_for_mode local_only m = healthy

unfoldable pub resolve_pack_status : PackShardSummary → PackStatus
unfolding resolve_pack_status_for_mode
resolve_pack_status m = resolve_pack_status_for_mode ec2_1 m
