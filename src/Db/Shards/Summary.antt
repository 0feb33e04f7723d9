-- ===== src/Db/Shards/Summary.antt =====
-- What the summary of a pack's shards counts.
use omnidrive.Prelude.{
  ◌≡◌, refl, String, Bool, ◌&&◌, List, [], ◌∷◌, select_where, count_where, arith,
}
use omnidrive.Db.{Db, PackShard, UploadStatus, is_pending, is_in_progress, is_completed, is_failed}
use omnidrive.Db.Shards.{PackShardSummary, of_pack, tally_all, summarize_pack_shards}

-- The rows of a pack with a status that the test picks.
abbrev pub with_status : (UploadStatus → Bool) → String → PackShard → Bool
with_status p pack_id s = of_pack pack_id s && p s.status

-- The counters of a summary, as counts over the table.
pub record Counts (pack_id : String) (shards : List PackShard) (m : PackShardSummary) : Type 0 where
  pub total : m.total ≡ count_where (of_pack pack_id) shards
  pub completed : m.completed ≡ count_where (with_status is_completed pack_id) shards
  pub pending : m.pending ≡ count_where (with_status is_pending pack_id) shards
  pub in_progress : m.in_progress ≡ count_where (with_status is_in_progress pack_id) shards
  pub failed : m.failed ≡ count_where (with_status is_failed pack_id) shards

tally_all-Counts :
    (pack_id : String) (shards : List PackShard)
    → Counts pack_id shards (tally_all (select_where (of_pack pack_id) shards))
unfolding tally_all select_where count_where
tally_all-Counts pack_id [] = record {
  total = refl;
  completed = refl;
  pending = refl;
  in_progress = refl;
  failed = refl;
}
tally_all-Counts pack_id (s ∷ ss) = ground (arith, tally_all-Counts pack_id ss)

-- The summary of a pack counts its rows: all of them, and apart those pending, in progress, completed
-- and failed.
pub summarize-Counts :
    (pack_id : String) (db : Db) → Counts pack_id db.pack_shards (summarize_pack_shards pack_id db)
unfolding summarize_pack_shards
summarize-Counts pack_id db = tally_all-Counts pack_id db.pack_shards
