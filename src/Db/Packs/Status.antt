-- ===== src/Db/Packs/Status.antt =====
-- The status of a pack, as a function of the rows of its shards.
use omnidrive.Prelude.{ℕ, ◌+◌, ◌≤◌, ◌<◌, ◌≡◌, String, count_where, arith}
use omnidrive.Db.{
  Db, PackStatus, uploading, healthy, degraded, unreadable, StorageMode, ec2_1, single_replica,
  local_only, is_pending, is_in_progress, is_completed,
}
use omnidrive.Db.Shards.{PackShardSummary, summarize_pack_shards}
use omnidrive.Db.Shards.Summary.{with_status, summarize-Counts}
use omnidrive.Db.Packs.{resolve_pack_status_for_mode}

-- How many completed shards of a pack suffice to read it: both data shards' worth in the 2 + 1
-- scheme, one copy of a single replica, none of a local pack.
abbrev pub needed : StorageMode → ℕ
needed ec2_1 = 2
needed single_replica = 1
needed local_only = 0

-- All shards of the scheme.
abbrev pub full : StorageMode → ℕ
full ec2_1 = 3
full single_replica = 1
full local_only = 0

abbrev pub stored : String → Db → ℕ
stored pack_id db = count_where (with_status is_completed pack_id) db.pack_shards

abbrev pub in_flight : String → Db → ℕ
in_flight pack_id db =
    count_where (with_status is_pending pack_id) db.pack_shards
    + count_where (with_status is_in_progress pack_id) db.pack_shards

-- What each status says of the table.
abbrev pub Says : StorageMode → ℕ → ℕ → PackStatus → Type 0
Says mode c live healthy = full mode ≤ c
Says mode c live degraded = (needed mode ≤ c) × (c < full mode)
Says mode c live uploading = (c < needed mode) × (0 < live)
Says mode c live unreadable = (c < needed mode) × (live ≡ 0)

resolve-Says :
    (mode : StorageMode) (m : PackShardSummary)
    → Says mode m.completed (m.pending + m.in_progress) (resolve_pack_status_for_mode mode m)
unfolding resolve_pack_status_for_mode
resolve-Says ec2_1 m = ground arith
resolve-Says single_replica m = ground arith
resolve-Says local_only m = omega arith

-- The resolved status says of a pack's rows: healthy, that every shard of its storage mode is
-- completed; degraded, that enough are completed to read the pack but not all; uploading, that too
-- few are, and some are pending or in progress; unreadable, that too few are, and none is.
pub resolve_pack_status_lem :
    (mode : StorageMode) (pack_id : String) (db : Db)
    → Says mode
        (stored pack_id db)
        (in_flight pack_id db)
        (resolve_pack_status_for_mode mode (summarize_pack_shards pack_id db))
resolve_pack_status_lem mode pack_id db =
    rw
      (
        ← (summarize-Counts pack_id db).completed,
        ← (summarize-Counts pack_id db).pending,
        ← (summarize-Counts pack_id db).in_progress,
      )
      (resolve-Says mode (summarize_pack_shards pack_id db))
