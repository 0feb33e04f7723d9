-- ===== src/Db/Targets.antt =====
-- The upload_job_targets statements of angeld/src/db/uploads.rs. `now` is the store's clock in ms.
pub mod Sync
use package.text.Mathlib.Text.{is_le}
use Prim.Native.String.{compare}
use omnidrive.Prelude.{
  ℕ, suc, ◌+◌, String, Bool, true, false, ◌&&◌, ◌||◌, not, Option, none, some, List, [], ◌∷◌, ◌++◌,
  str_eq, ltb, leb, ◌==◌, if◌then◌else◌, is_some, unwrap_or, take, first?, select_where,
  update_where, count_where, find_where, any_where, order_by, map,
}
use omnidrive.Result.{Result, ok, err}
use omnidrive.Db.{
  Db, DbError, row_not_found, Message, text, UploadJob, UploadTarget, UploadStatus, PackShard,
  pending, in_progress, completed, failed, permanently_failed, is_in_progress, is_completed,
  is_open, attempts_of,
}

-- WHERE job_id = ? AND provider = ?
abbrev pub for_target : ℕ → String → UploadTarget → Bool
for_target job_id provider t = t.job_id == job_id && str_eq t.provider provider

abbrev pub set_targets : Db → List UploadTarget → Db
set_targets db ts = record db { upload_targets = ts }

abbrev new_target : ℕ → ℕ → String → UploadTarget
new_target id job_id provider = record {
  id = id;
  job_id = job_id;
  provider = provider;
  status = pending;
  attempts = some 0;
  last_error = none;
  bucket = none;
  object_key = none;
  etag = none;
  version_id = none;
  last_attempt_at = none;
  updated_at = none;
  completed_at = none;
}

-- INSERT … ON CONFLICT(job_id, provider) DO NOTHING
unfoldable pub ensure_upload_target : ℕ → String → Db → Db
ensure_upload_target job_id provider db =
    if any_where (for_target job_id provider) db.upload_targets then db else (record db {
      upload_targets = db.upload_targets ++ (new_target db.next_target_id job_id provider ∷ []);
      next_target_id = suc db.next_target_id;
    })

unfoldable pub ensure_upload_targets : ℕ → List String → Db → Db
ensure_upload_targets job_id [] db = db
ensure_upload_targets job_id (p ∷ ps) db =
    ensure_upload_targets job_id ps (ensure_upload_target job_id p db)

abbrev pub target_by_id : UploadTarget → UploadTarget → Bool
target_by_id a b = leb a.id b.id

unfoldable pub get_incomplete_upload_targets : ℕ → Db → List UploadTarget
get_incomplete_upload_targets job_id db =
    order_by target_by_id
      (select_where (λ t. t.job_id == job_id && not (is_completed t.status)) db.upload_targets)

abbrev pub started : ℕ → UploadTarget → UploadTarget
started now t = record t { status = in_progress; last_attempt_at = some now; updated_at = some now }

unfoldable pub mark_upload_target_in_progress : ℕ → ℕ → String → Db → Db
mark_upload_target_in_progress now job_id provider db =
    set_targets db (update_where (for_target job_id provider) (started now) db.upload_targets)

-- The location that a provider reports for a stored object.
pub record StoredObject : Type 0 where
  pub bucket : String
  pub key : String
  pub etag : Option String
  pub version_id : Option String

abbrev pub finished : ℕ → StoredObject → UploadTarget → UploadTarget
finished now o t = record t {
  status = completed;
  last_error = none;
  bucket = some o.bucket;
  object_key = some o.key;
  etag = o.etag;
  version_id = o.version_id;
  last_attempt_at = some now;
  updated_at = some now;
  completed_at = some now;
}

unfoldable pub mark_upload_target_completed : ℕ → ℕ → String → StoredObject → Db → Db
mark_upload_target_completed now job_id provider o db =
    set_targets db (update_where (for_target job_id provider) (finished now o) db.upload_targets)

-- A failed attempt: counted, its message kept.
abbrev pub attempted : UploadStatus → ℕ → Message → UploadTarget → UploadTarget
attempted s now message t = record t {
  status = s;
  attempts = some (attempts_of t.attempts + 1);
  last_error = some message;
  last_attempt_at = some now;
  updated_at = some now;
  completed_at = none;
}

abbrev target_attempts : Option UploadTarget → Result DbError ℕ
target_attempts none = err row_not_found
target_attempts (some t) = ok (attempts_of t.attempts)

unfoldable pub requeue_upload_target : ℕ → ℕ → String → Message → Db → Result DbError ℕ × Db
requeue_upload_target now job_id provider message db =
    let ts =
      update_where (for_target job_id provider) (attempted pending now message) db.upload_targets in
    (target_attempts (find_where (for_target job_id provider) ts), set_targets db ts)

unfoldable pub mark_upload_target_failed : ℕ → ℕ → String → Message → Db → Db
mark_upload_target_failed now job_id provider message db =
    set_targets db
      (update_where (for_target job_id provider) (attempted failed now message) db.upload_targets)

abbrev pub abandoned : ℕ → Message → UploadTarget → UploadTarget
abandoned now message t = record t {
  status = permanently_failed;
  last_error = some message;
  last_attempt_at = some now;
  updated_at = some now;
  completed_at = none;
}

unfoldable pub mark_upload_target_permanently_failed : ℕ → ℕ → String → Message → Db → Db
mark_upload_target_permanently_failed now job_id provider message db =
    set_targets db
      (update_where (for_target job_id provider) (abandoned now message) db.upload_targets)

unfoldable pub has_incomplete_upload_targets : ℕ → Db → Bool
has_incomplete_upload_targets job_id db =
    ltb 0 (count_where (λ t. t.job_id == job_id && not (is_completed t.status)) db.upload_targets)

abbrev pub interrupted : ℕ → UploadTarget → UploadTarget
interrupted now t = record t { status = pending; updated_at = some now }

unfoldable pub reset_in_progress_upload_targets : ℕ → Db → ℕ × Db
reset_in_progress_upload_targets now db = (
  count_where (λ t. is_in_progress t.status) db.upload_targets,
  set_targets db (update_where (λ t. is_in_progress t.status) (interrupted now) db.upload_targets),
)

abbrev pub by_provider : UploadTarget → UploadTarget → Bool
by_provider a b = is_le (compare a.provider b.provider)

unfoldable pub get_upload_targets_for_job : ℕ → Db → List UploadTarget
get_upload_targets_for_job job_id db =
    order_by by_provider (select_where (λ t. t.job_id == job_id) db.upload_targets)

-- COALESCE of optional columns, the last value being the default
abbrev pub coalesce : List (Option ℕ) → ℕ
coalesce [] = 0
coalesce (none ∷ os) = coalesce os
coalesce (some n ∷ os) = n

abbrev pub last_seen : UploadTarget → ℕ
last_seen t = coalesce (t.last_attempt_at ∷ t.updated_at ∷ t.completed_at ∷ [])

-- ORDER BY COALESCE(last_attempt_at, updated_at, completed_at, 0) DESC, id DESC
abbrev pub latest_first : UploadTarget → UploadTarget → Bool
latest_first a b =
    if last_seen a == last_seen b then leb b.id a.id else leb (last_seen b) (last_seen a)

-- last_error IS NOT NULL AND last_error != ''
abbrev pub has_error : UploadTarget → Bool
has_error t = elim t.last_error [
  | none ↦ false
  | some m ↦ elim m [ text s ↦ not (str_eq s "") | _ ↦ true ]
]

abbrev error_of : Option UploadTarget → Option Message
error_of none = none
error_of (some t) = t.last_error

unfoldable pub get_latest_upload_error : Db → Option Message
get_latest_upload_error db =
    error_of (first? (order_by latest_first (select_where has_error db.upload_targets)))

unfoldable pub get_latest_upload_target_for_provider : String → Db → Option UploadTarget
get_latest_upload_target_for_provider provider db =
    first?
      (order_by latest_first (select_where (λ t. str_eq t.provider provider) db.upload_targets))
