-- ===== src/Db/Jobs.antt =====
-- The upload_jobs statements of angeld/src/db/uploads.rs. `now` is the store's clock in ms.
pub mod Queue
pub mod Recovery
pub mod Keys
use omnidrive.Prelude.{
  ℕ, suc, ◌+◌, String, Bool, true, false, ◌&&◌, ◌||◌, not, Option, none, some, List, [], ◌∷◌, ◌++◌,
  str_eq, ltb, leb, ◌==◌, if◌then◌else◌, is_some, take, first?, select_where, update_where,
  count_where, find_where, any_where, order_by,
}
use omnidrive.Result.{Result, ok, err}
use omnidrive.Db.{
  Db, DbError, row_not_found, UploadJob, UploadStatus, pending, in_progress, completed, failed,
  is_pending, is_in_progress, is_completed, attempts_of,
}

abbrev pub for_pack : String → UploadJob → Bool
for_pack pack_id j = str_eq j.pack_id pack_id

abbrev pub with_id : ℕ → UploadJob → Bool
with_id job_id j = j.id == job_id

abbrev pub set_status : UploadStatus → UploadJob → UploadJob
set_status s j = record j { status = s }

-- CASE WHEN status = 'COMPLETED' THEN 'PENDING' ELSE status END
pub requeue_completed : UploadJob → UploadJob
requeue_completed j = if is_completed j.status then set_status pending j else j

abbrev pub new_job : ℕ → String → UploadJob
new_job id pack_id = record {
  id = id;
  pack_id = pack_id;
  status = pending;
  attempts = some 0;
  next_attempt_at = none;
}

unfoldable pub queue_pack_for_upload : String → Db → Db
unfolding requeue_completed
queue_pack_for_upload pack_id db =
    if any_where (for_pack pack_id) db.upload_jobs
    then record db {
      upload_jobs = update_where (for_pack pack_id) requeue_completed db.upload_jobs;
    }
    else (record db {
      upload_jobs = db.upload_jobs ++ (new_job db.next_job_id pack_id ∷ []);
      next_job_id = suc db.next_job_id;
    })

-- next_attempt_at IS NULL OR next_attempt_at <= now
abbrev pub is_due : ℕ → Option ℕ → Bool
is_due now none = true
is_due now (some t) = leb t now

abbrev pub is_ready : ℕ → UploadJob → Bool
is_ready now j = is_pending j.status && is_due now j.next_attempt_at

abbrev pub by_id : UploadJob → UploadJob → Bool
by_id a b = leb a.id b.id

-- The first ready job in the order of ids, before it is claimed.
unfoldable pub next_ready : ℕ → Db → Option UploadJob
next_ready now db = first? (order_by by_id (select_where (is_ready now) db.upload_jobs))

unfoldable pub claim : Option UploadJob → Db → Option UploadJob × Db
claim none db = (none, db)
claim (some job) db = (
  some (set_status in_progress job),
  record db { upload_jobs = update_where (with_id job.id) (set_status in_progress) db.upload_jobs },
)

unfoldable pub get_next_upload_job : ℕ → Db → Option UploadJob × Db
unfolding next_ready claim
get_next_upload_job now db = claim (next_ready now db) db

unfoldable pub mark_upload_job_completed : ℕ → Db → Db
mark_upload_job_completed job_id db = record db {
  upload_jobs = update_where (with_id job_id) (set_status completed) db.upload_jobs;
}

unfoldable pub mark_upload_job_failed : ℕ → Db → Db
mark_upload_job_failed job_id db = record db {
  upload_jobs = update_where (with_id job_id) (set_status failed) db.upload_jobs;
}

unfoldable pub get_upload_job_by_pack_id : String → Db → Option UploadJob
get_upload_job_by_pack_id pack_id db = find_where (for_pack pack_id) db.upload_jobs

abbrev pub defer : ℕ → UploadJob → UploadJob
defer until j = record j {
  status = pending;
  attempts = some (attempts_of j.attempts + 1);
  next_attempt_at = some until;
}

abbrev pub attempts_or_missing : Option UploadJob → Result DbError ℕ
attempts_or_missing none = err row_not_found
attempts_or_missing (some j) = ok (attempts_of j.attempts)

unfoldable pub requeue_upload_job_after : ℕ → ℕ → ℕ → Db → Result DbError ℕ × Db
requeue_upload_job_after now job_id delay_ms db =
    let jobs = update_where (with_id job_id) (defer (now + delay_ms)) db.upload_jobs in
    (attempts_or_missing (find_where (with_id job_id) jobs), record db { upload_jobs = jobs })

-- status = 'IN_PROGRESS' OR next_attempt_at IS NOT NULL
abbrev pub is_held : UploadJob → Bool
is_held j = is_in_progress j.status || is_some j.next_attempt_at

abbrev pub release : UploadJob → UploadJob
release j = record j {
  status = if is_in_progress j.status then pending else j.status;
  next_attempt_at = none;
}

unfoldable pub reset_in_progress_upload_jobs : Db → ℕ × Db
reset_in_progress_upload_jobs db = (
  count_where is_held db.upload_jobs,
  record db { upload_jobs = update_where is_held release db.upload_jobs },
)

-- CASE WHEN status IN ('PENDING', 'IN_PROGRESS') THEN 0 ELSE 1 END, id DESC
abbrev pub is_live : UploadJob → Bool
is_live j = is_pending j.status || is_in_progress j.status

abbrev pub live_first : UploadJob → UploadJob → Bool
live_first a b =
    if is_live a then (not (is_live b) || leb b.id a.id) else (not (is_live b) && leb b.id a.id)

unfoldable pub list_recent_upload_jobs : ℕ → Db → List UploadJob
list_recent_upload_jobs limit db = take limit (order_by live_first db.upload_jobs)

unfoldable pub get_pending_upload_queue_size : Db → ℕ
get_pending_upload_queue_size db = count_where (λ j. is_pending j.status) db.upload_jobs
