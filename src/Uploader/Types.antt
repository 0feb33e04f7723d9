-- ===== src/Uploader/Types.antt =====
-- What the upload worker keeps and is given, its errors and its delays:
-- angeld/src/uploader.rs.
use Prim.Native.String.{◌++◌ as str_append}
use omnidrive.Prelude.{
  ℕ, ◌-◌, ◌*◌, ◌^◌, String, Bool, true, false, ◌&&◌, Option, List, [], ◌∷◌, ◌++◌, str_eq, ltb, leb,
  ◌==◌, min, max, if◌then◌else◌,
}
use omnidrive.Result.{Result, ok, err}
use omnidrive.CloudGuard.{Guard, GuardConfig}
use omnidrive.Db.{
  Db, DbError, row_not_found, Message, text, provider_timed_out, on_shard, UploadJob, PackShard,
}
use omnidrive.Db.Targets.{StoredObject, mark_upload_target_permanently_failed}
use omnidrive.Db.Shards.{mark_pack_shard_permanently_failed}

-- The files of a pack in the spool directory: its manifest and its shards.
pub data SpoolFile : Type 0 where
  manifest : String → SpoolFile
  shard_file : String → ℕ → SpoolFile

unfoldable pub same_file : SpoolFile → SpoolFile → Bool
same_file (manifest a) (manifest b) = str_eq a b
same_file (shard_file a i) (shard_file b j) = str_eq a b && i == j
same_file _ _ = false

-- What the worker reads and writes.
pub record Machine : Type 0 where
  pub db : Db
  pub guard : Guard
  pub spool : List SpoolFile

-- The worker's configuration; delays are in ms, sizes in bytes.
pub record WorkerConfig : Type 0 where
  pub guard_config : GuardConfig
  pub max_physical_bytes_per_provider : ℕ
  pub retry_base_delay : ℕ
  pub retry_max_delay : ℕ
  pub provider_timeout : ℕ

pub data UploaderError : Type 0 where
  missing_env : String → UploaderError
  invalid_env : String → UploaderError
  io : String → UploaderError
  db_error : DbError → UploaderError
  local_object_missing : String → UploaderError
  timeout : String → ℕ → UploaderError
  upload : String → String → String → UploaderError
  guard_failed : String → UploaderError

unfoldable pub is_retryable : UploaderError → Bool
is_retryable (upload provider operation details) = true
is_retryable (timeout provider duration) = true
is_retryable _ = false

-- `to_string` of an error.
abbrev pub to_message : UploaderError → Message
to_message (missing_env key) = text (str_append "missing required environment variable " key)
to_message (invalid_env key) = text (str_append "invalid environment variable " key)
to_message (io e) = text (str_append "i/o error: " e)
to_message (db_error row_not_found) =
    text "sqlite error: no rows returned by a query that expected to return at least one row"
to_message (local_object_missing path) = text (str_append "local upload object not found: " path)
to_message (timeout provider duration) = provider_timed_out provider duration
to_message (upload provider operation details) =
    text
      (str_append provider (str_append " " (str_append operation (str_append " failed: " details))))
to_message (guard_failed details) = text (str_append "cloud guard blocked operation: " details)

-- What `timeout(…, uploader.upload_shard(…))` answers: an object, an error, or no answer in time.
pub data Reply : Type 0 where
  stored : StoredObject → Reply
  refused : UploaderError → Reply
  elapsed : Reply

-- The world around one pass over a job: the clock, the providers that the runtime has loaded, the
-- answer of a provider to the upload of a shard, whether a spool file can be deleted, and the error
-- of a look for a spool file, if there is one.
-- The clock stands still in a round. A shard is sent at most once in it, so it has one reply.
pub record World : Type 0 where
  pub now : ℕ
  pub providers : List String
  pub reply : PackShard → Reply
  pub deletable : SpoolFile → Bool
  pub probe_error : SpoolFile → Option String

pub data JobProcessOutcome : Type 0 where
  completed : JobProcessOutcome
  pending_retry : ℕ → List Message → JobProcessOutcome
  failed : JobProcessOutcome

abbrev pub upload_retry_plateau_at : ℕ
upload_retry_plateau_at = 100

-- 3600 s
abbrev pub upload_retry_plateau_delay : ℕ
upload_retry_plateau_delay = 3_600_000

abbrev pub upload_permanent_failure_at : ℕ
upload_permanent_failure_at = 1000

-- The longest `Duration`, in whole ms.
abbrev pub duration_max : ℕ
duration_max = 2 ^ 64 * 1000 - 1

-- `attempts.saturating_sub(1).clamp(0, 10)`; 2u32.saturating_pow of that is exact.
abbrev pub backoff_exponent : ℕ → ℕ
backoff_exponent attempts = min (attempts - 1) 10

-- `checked_mul(…).unwrap_or(retry_max_delay).min(retry_max_delay)`
unfoldable pub backoff : ℕ → ℕ → ℕ → ℕ
backoff base limit exponent =
    let delay = base * 2 ^ exponent in min (if leb delay duration_max then delay else limit) limit

unfoldable pub retry_delay : WorkerConfig → ℕ → ℕ
unfolding backoff
retry_delay c attempts =
    if leb upload_retry_plateau_at attempts
    then upload_retry_plateau_delay
    else backoff c.retry_base_delay c.retry_max_delay (backoff_exponent attempts)

abbrev pub set_db : Machine → Db → Machine
set_db m db = record m { db = db }

-- A database call that may find no row, as `?` of the worker sees it.
abbrev pub on_db {ℓ} :
    {A : Type ℓ} → Machine → Result DbError A × Db → Result UploaderError A × Machine
on_db m (ok a, db) = (ok a, set_db m db)
on_db m (err e, db) = (err (db_error e), set_db m db)

unfoldable pub escalate_target_if_permanent : World → UploadJob → PackShard → ℕ → Message → Db → Db
escalate_target_if_permanent w job shard target_attempts message db =
    if ltb target_attempts upload_permanent_failure_at
    then db
    else mark_pack_shard_permanently_failed job.pack_id shard.shard_index message
        (mark_upload_target_permanently_failed w.now job.id shard.provider message db)

-- What the loop over the shards has gathered.
pub record Progress : Type 0 where
  pub max_attempts : ℕ
  pub failed_shards : List Message

abbrev pub note_failure : PackShard → Message → ℕ → Progress → Progress
note_failure shard message attempts p = record {
  max_attempts = max p.max_attempts attempts;
  failed_shards = p.failed_shards ++ (on_shard shard.provider shard.shard_index message ∷ []);
}
