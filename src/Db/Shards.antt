-- ===== src/Db/Shards.antt =====
-- The pack_shards statements of angeld/src/db/shards.rs. `now` is the store's clock in ms.
pub mod Summary
use omnidrive.Prelude.{
  ℕ, suc, ◌+◌, String, Bool, true, false, ◌&&◌, ◌||◌, not, Option, none, some, List, [], ◌∷◌, ◌++◌,
  str_eq, ltb, leb, ◌==◌, if◌then◌else◌, is_some, unwrap_or, take, first?, select_where,
  update_where, count_where, find_where, any_where, order_by, map,
}
use omnidrive.Result.{Result, ok, err}
use omnidrive.Db.{
  Db, DbError, row_not_found, Pack, Message, PackShard, ShardRole, UploadStatus, pending,
  in_progress, completed, failed, permanently_failed, is_pending, is_in_progress, is_completed,
  is_failed, is_open, attempts_of,
}

pub record PackShardSummary : Type 0 where
  pub total : ℕ
  pub completed : ℕ
  pub pending : ℕ
  pub in_progress : ℕ
  pub failed : ℕ

abbrev pub of_pack : String → PackShard → Bool
of_pack pack_id s = str_eq s.pack_id pack_id

-- WHERE pack_id = ? AND shard_index = ?
abbrev pub at_index : String → ℕ → PackShard → Bool
at_index pack_id index s = str_eq s.pack_id pack_id && s.shard_index == index

abbrev pub set_shards : Db → List PackShard → Db
set_shards db ss = record db { pack_shards = ss }

-- The columns that `register_pack_shard` is given.
pub record ShardColumns : Type 0 where
  pub role : ShardRole
  pub provider : String
  pub object_key : String
  pub size : ℕ
  pub checksum : String
  pub status : UploadStatus

abbrev overwritten : ShardColumns → PackShard → PackShard
overwritten c s = record s {
  shard_role = c.role;
  provider = c.provider;
  object_key = c.object_key;
  size = c.size;
  checksum = c.checksum;
  status = c.status;
  last_error = none;
}

abbrev new_shard : ℕ → String → ℕ → ShardColumns → PackShard
new_shard id pack_id index c = record {
  id = id;
  pack_id = pack_id;
  shard_index = index;
  shard_role = c.role;
  provider = c.provider;
  object_key = c.object_key;
  size = c.size;
  checksum = c.checksum;
  status = c.status;
  attempts = some 0;
  last_error = none;
  last_verified_at = none;
  last_verification_method = none;
  last_verification_status = none;
  last_verified_size = none;
  verification_failures = 0;
}

-- A unique or a foreign key refuses the row.
pub data RegisterError : Type 0 where
  constraint_failed : RegisterError

-- Another shard of the pack that is at the same provider: UNIQUE(pack_id, provider).
abbrev clashes : String → ℕ → String → PackShard → Bool
clashes pack_id index provider s =
    of_pack pack_id s && not (at_index pack_id index s) && str_eq s.provider provider

unfoldable pub register_pack_shard :
    String → ℕ → ShardColumns → Db → Result RegisterError (Unit {0}) × Db
register_pack_shard pack_id index c db =
    if any_where (clashes pack_id index c.provider) db.pack_shards
    then (err constraint_failed, db)
    else (if any_where (at_index pack_id index) db.pack_shards
        then (
          ok tt,
          set_shards db (update_where (at_index pack_id index) (overwritten c) db.pack_shards),
        )
        else (if any_where (λ (p : Pack). str_eq p.pack_id pack_id) db.packs
            then (
              ok tt,
              record db {
                pack_shards = db.pack_shards ++ (new_shard db.next_shard_id pack_id index c ∷ []);
                next_shard_id = suc db.next_shard_id;
              },
            )
            else (err constraint_failed, db)))

abbrev pub by_index : PackShard → PackShard → Bool
by_index a b = leb a.shard_index b.shard_index

unfoldable pub get_pack_shards : String → Db → List PackShard
get_pack_shards pack_id db = order_by by_index (select_where (of_pack pack_id) db.pack_shards)

unfoldable pub get_incomplete_pack_shards : String → Db → List PackShard
get_incomplete_pack_shards pack_id db =
    order_by by_index (select_where (λ s. of_pack pack_id s && is_open s.status) db.pack_shards)

abbrev pub moved : UploadStatus → Option Message → PackShard → PackShard
moved status error s = record s { status = status; last_error = error }

unfoldable pub mark_pack_shard_in_progress : String → ℕ → Db → Db
mark_pack_shard_in_progress pack_id index db =
    set_shards db (update_where (at_index pack_id index) (moved in_progress none) db.pack_shards)

unfoldable pub mark_pack_shard_completed : String → ℕ → Db → Db
mark_pack_shard_completed pack_id index db =
    set_shards db (update_where (at_index pack_id index) (moved completed none) db.pack_shards)

abbrev pub retried : UploadStatus → Message → PackShard → PackShard
retried status message s = record s {
  status = status;
  attempts = some (attempts_of s.attempts + 1);
  last_error = some message;
}

abbrev shard_attempts : Option PackShard → Result DbError ℕ
shard_attempts none = err row_not_found
shard_attempts (some s) = ok (attempts_of s.attempts)

unfoldable pub requeue_pack_shard : String → ℕ → Message → Db → Result DbError ℕ × Db
requeue_pack_shard pack_id index message db =
    let ss = update_where (at_index pack_id index) (retried pending message) db.pack_shards in
    (shard_attempts (find_where (at_index pack_id index) ss), set_shards db ss)

unfoldable pub mark_pack_shard_failed : String → ℕ → Message → Db → Db
mark_pack_shard_failed pack_id index message db =
    set_shards db (update_where (at_index pack_id index) (retried failed message) db.pack_shards)

unfoldable pub mark_pack_shard_permanently_failed : String → ℕ → Message → Db → Db
mark_pack_shard_permanently_failed pack_id index message db =
    set_shards db (
      update_where (at_index pack_id index) (moved permanently_failed (some message))
        db.pack_shards)

-- ORDER BY never verified first, then last_verified_at, failures DESC, id
abbrev pub scrub_first : PackShard → PackShard → Bool
scrub_first a b =
    if is_some a.last_verified_at
    then (is_some b.last_verified_at && older)
    else (not (is_some b.last_verified_at) && older || is_some b.last_verified_at)
  where
    worse : Bool
    worse =
        if a.verification_failures == b.verification_failures
        then leb a.id b.id
        else ltb b.verification_failures a.verification_failures

    older : Bool
    older =
        if unwrap_or a.last_verified_at 0 == unwrap_or b.last_verified_at 0
        then worse
        else ltb (unwrap_or a.last_verified_at 0) (unwrap_or b.last_verified_at 0)

unfoldable pub get_next_shards_for_scrub : ℕ → Db → List PackShard
get_next_shards_for_scrub limit db = take limit (order_by scrub_first db.pack_shards)

-- What a verification of a shard reports.
pub record Verification : Type 0 where
  pub method : String
  pub status : String
  pub verified_size : Option ℕ
  pub increment_failures : Bool
  pub last_error : Option Message

abbrev pub verified : ℕ → Verification → PackShard → PackShard
verified now v s = record s {
  status = if str_eq v.status "HEALTHY" then completed else failed;
  last_verified_at = some now;
  last_verification_method = some v.method;
  last_verification_status = some v.status;
  last_verified_size = v.verified_size;
  verification_failures = s.verification_failures + (if v.increment_failures then 1 else 0);
  last_error = v.last_error;
}

unfoldable pub update_shard_verification_status : ℕ → String → ℕ → Verification → Db → Db
update_shard_verification_status now pack_id index v db =
    set_shards db (update_where (at_index pack_id index) (verified now v) db.pack_shards)

unfoldable pub reset_in_progress_pack_shards : Db → ℕ × Db
reset_in_progress_pack_shards db = (
  count_where (λ s. is_in_progress s.status) db.pack_shards,
  set_shards db (
      update_where (λ s. is_in_progress s.status) (λ s. record s { status = pending })
        db.pack_shards),
)

-- SELECT status, COUNT(*) … GROUP BY status, and the loop over its groups: a row adds to the total
-- and to the counter of its status, if there is one.
abbrev pub tally : UploadStatus → PackShardSummary → PackShardSummary
tally completed m = record m { total = m.total + 1; completed = m.completed + 1 }
tally pending m = record m { total = m.total + 1; pending = m.pending + 1 }
tally in_progress m = record m { total = m.total + 1; in_progress = m.in_progress + 1 }
tally failed m = record m { total = m.total + 1; failed = m.failed + 1 }
tally permanently_failed m = record m { total = m.total + 1 }

abbrev pub no_shards : PackShardSummary
no_shards = record { total = 0; completed = 0; pending = 0; in_progress = 0; failed = 0 }

unfoldable pub tally_all : List PackShard → PackShardSummary
tally_all [] = no_shards
tally_all (s ∷ ss) = tally s.status (tally_all ss)

unfoldable pub summarize_pack_shards : String → Db → PackShardSummary
unfolding tally_all
summarize_pack_shards pack_id db = tally_all (select_where (of_pack pack_id) db.pack_shards)
