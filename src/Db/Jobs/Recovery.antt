-- ===== src/Db/Jobs/Recovery.antt =====
-- The reset of the queue at the start of the daemon.
use omnidrive.Prelude.{
  ℕ, ◌≡◌, refl, true, false, List, [], ◌∷◌, if◌then◌else◌, update_where, map, arith, All,
  All-update_where, count_where_of_none, update_where_id,
}
use omnidrive.Db.{Db, UploadJob, UploadStatus, pending, is_pending, is_in_progress}
use omnidrive.Db.Jobs.{is_ready, is_held, release, reset_in_progress_upload_jobs}

abbrev pub restarted : UploadStatus → UploadStatus
restarted s = if is_in_progress s then pending else s

statuses-release :
    (js : List UploadJob)
    → map (λ j. j.status) (update_where is_held release js) ≡ map (λ j. restarted j.status) js
unfolding update_where
statuses-release [] = refl
statuses-release (j ∷ js) = ground (arith, statuses-release js)

release-All : (js : List UploadJob) → All (λ j. is_held j ≡ false) (update_where is_held release js)
release-All js =
    All-update_where (λ j. Unit {0}) (λ j. is_held j ≡ false) is_held release js
      (λ j _ _. ground arith) (λ j _ e. e) (All-unit js)
  where
    All-unit : (ks : List UploadJob) → All (λ j. Unit {0}) ks
    All-unit [] = tt
    All-unit (k ∷ ks) = (tt, All-unit ks)

-- After the reset no job is in progress or deferred, a job that was in progress is pending, every
-- other status is kept, and a second reset affects no row and changes nothing.
pub reset_lem :
    (db : Db)
    → let db' = (reset_in_progress_upload_jobs db).1 in
      All (λ j. is_held j ≡ false) db'.upload_jobs
      × (map (λ j. j.status) db'.upload_jobs ≡ map (λ j. restarted j.status) db.upload_jobs)
      × (reset_in_progress_upload_jobs db' ≡ (0, db'))
unfolding reset_in_progress_upload_jobs
reset_lem db = (
  release-All db.upload_jobs,
  statuses-release db.upload_jobs,
  rw (
    count_where_of_none is_held _ (release-All db.upload_jobs),
    update_where_id is_held release _ (unheld _ (release-All db.upload_jobs)),
  ),
)
  where
    unheld :
        (js : List UploadJob)
        → All (λ j. is_held j ≡ false) js
        → All (λ j. is_held j ≡ true → release j ≡ j) js
    unheld [] h = tt
    unheld (j ∷ js) h = ((λ e. cc), unheld js h.1)

pending_after :
    (now : ℕ) (js : List UploadJob)
    → All (λ j. is_held j ≡ false) js
    → All (λ j. is_pending j.status ≡ true → is_ready now j ≡ true) js
pending_after now [] h = tt
pending_after now (j ∷ js) h = ((λ e. ground arith), pending_after now js h.1)

-- After the reset every pending job is ready, whatever delay it had: a repaired provider is tried
-- again at once.
pub reset-ready :
    (now : ℕ) (db : Db)
    → All
        (λ j. is_pending j.status ≡ true → is_ready now j ≡ true)
        (reset_in_progress_upload_jobs db).1.upload_jobs
reset-ready now db = pending_after now _ (reset_lem db).0
