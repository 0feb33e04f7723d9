-- ===== src/Uploader/Restart.antt =====
-- What becomes of a job whose round ends in an error: the loop of `run` of angeld/src/uploader.rs
-- leaves the row, and the statements before the loop take it up again when the daemon starts.
use omnidrive.Prelude.{
  ℕ, ◌+◌, ◌≡◌, refl, sym, ap, ◌∙◌, subst, true, false, List, some, map, All, All-update_where,
  Option-cases, inl, inr, find_where, update_where, find_where-any, any_where, All-implies,
  any_where-false, is_some, arith,
}
use omnidrive.Result.{Result, ok, err, and_then}
use omnidrive.Db.{Db, UploadJob, in_progress, is_in_progress}
use omnidrive.Db.Jobs.{
  with_id, set_status, defer, is_ready, is_held, release, get_next_upload_job,
  requeue_upload_job_after, reset_in_progress_upload_jobs,
}
use omnidrive.Db.Jobs.Queue.{get_next_upload_job_lem}
use omnidrive.Db.Targets.{reset_in_progress_upload_targets}
use omnidrive.Db.Shards.{reset_in_progress_pack_shards}
use omnidrive.Uploader.Isolation.{Isolated, process_job-Isolated}
use omnidrive.Uploader.Round.{done, ids-update, settled_rows}
use omnidrive.Uploader.{
  Machine, WorkerConfig, World, UploaderError, JobProcessOutcome, completed, pending_retry, failed,
  set_db, on_db, process_job, conclude_job, run_claimed, run_round, start,
}

abbrev ids : List UploadJob → List ℕ
ids js = map (λ j. j.id) js

-- The job's row is claimed, and the rows are those of `before`.
abbrev IsClaimed : ℕ → List UploadJob → List UploadJob → Type 0
IsClaimed id before js =
    All (λ j. with_id id j ≡ true → is_in_progress j.status ≡ true) js × (ids js ≡ ids before)

requeue-IsClaimed :
    (now delay id : ℕ) (before : List UploadJob) (m : Machine) {e : UploaderError}
    → (and_then (on_db m (requeue_upload_job_after now id delay m.db)) λ attempts m'. (done, m')).0
      ≡ err e
    → ids m.db.upload_jobs ≡ ids before
    → IsClaimed id before
        (and_then
          (on_db m (requeue_upload_job_after now id delay m.db))
          λ attempts m'. (done, m')).1.db.upload_jobs
unfolding requeue_upload_job_after
requeue-IsClaimed now delay id before m h k =
    let jobs = update_where (with_id id) (defer (now + delay)) m.db.upload_jobs in
    let same = ids-update (with_id id) (defer (now + delay)) m.db.upload_jobs (λ j. refl) ∙ k in
    elim (Option-cases (find_where (with_id id) jobs)) [
      | inr (j, e) ↦ absurd (ground arith)
      | inl e ↦
          let missing : any_where (with_id id) jobs ≡ false =
            sym (find_where-any (with_id id) jobs) ∙ ap is_some e in
          rw e (
            All-implies jobs (λ j n q. absurd (cc (n, q)))
                (any_where-false (with_id id) jobs missing),
            same,
          )
    ]

conclude-IsClaimed :
    (w : World) (job : UploadJob) (o : JobProcessOutcome) (before : List UploadJob) (m : Machine)
    {e : UploaderError}
    → (conclude_job w job o m).0 ≡ err e
    → ids m.db.upload_jobs ≡ ids before
    → IsClaimed job.id before (conclude_job w job o m).1.db.upload_jobs
unfolding conclude_job
conclude-IsClaimed w job completed before m h k = cc
conclude-IsClaimed w job (pending_retry d ms) before m h k =
    requeue-IsClaimed w.now d job.id before m h k
conclude-IsClaimed w job failed before m h k = cc

after_job-IsClaimed :
    (w : World) (job : UploadJob) (before : List UploadJob) (m : Machine)
    (r : Result UploaderError JobProcessOutcome × Machine) {e : UploaderError}
    → Isolated job.pack_id m r.1
    → (and_then r λ o m'. conclude_job w job o m').0 ≡ err e
    → IsClaimed job.id before m.db.upload_jobs
    → IsClaimed job.id before (and_then r λ o m'. conclude_job w job o m').1.db.upload_jobs
after_job-IsClaimed w job before m (ok o, m') i h k =
    conclude-IsClaimed w job o before m' h (ap ids i.jobs ∙ k.1)
after_job-IsClaimed w job before m (err q, m') i h k =
    subst (IsClaimed job.id before) (sym i.jobs) k

claim-IsClaimed :
    (id : ℕ) (js : List UploadJob)
    → IsClaimed id js (update_where (with_id id) (set_status in_progress) js)
claim-IsClaimed id js = (
  settled_rows (λ j. is_in_progress j.status ≡ true) id (set_status in_progress) js (λ j. refl),
  ids-update (with_id id) (set_status in_progress) js (λ j. refl),
)

released :
    (later id : ℕ) (js : List UploadJob)
    → All (λ j. with_id id j ≡ true → is_in_progress j.status ≡ true) js
    → All (λ j. with_id id j ≡ true → is_ready later j ≡ true) (update_where is_held release js)
released later id js h =
    All-update_where (λ j. with_id id j ≡ true → is_in_progress j.status ≡ true)
      (λ j. with_id id j ≡ true → is_ready later j ≡ true) is_held release js
      (λ j c held q. let p = c q in ground arith) (λ j c held q. let p = c q in ground arith) h

-- An error loses no job: when a round that has claimed a job ends in an error, and the daemon is
-- started again, every row with the job's id is ready, whatever the time, and the table has the
-- same ids as before the round.
pub restarted-IsReady :
    (c : WorkerConfig) (w : World) (m : Machine) (job : UploadJob) (db : Db) (now later : ℕ)
    {e : UploaderError}
    → get_next_upload_job w.now m.db ≡ (some job, db)
    → (run_round c w m).0 ≡ err e
    → (let jobs = (start now (run_round c w m).1).db.upload_jobs in
        All (λ j. with_id job.id j ≡ true → is_ready later j ≡ true) jobs
        × (map (λ j. j.id) jobs ≡ map (λ j. j.id) m.db.upload_jobs))
unfolding run_round start reset_in_progress_upload_jobs reset_in_progress_upload_targets
    reset_in_progress_pack_shards
restarted-IsReady c w m job db now later {e = x} e h =
    let (r, next, same, rest) = get_next_upload_job_lem w.now m.db e in
    let claimed = set_db m db in
    let h' : (run_claimed c w (some job) claimed).0 ≡ err x = rw e at h in
    let id : r.id ≡ job.id = ap (λ (j : UploadJob). j.id) (sym same) in
    let table : db.upload_jobs
        ≡ update_where (with_id job.id) (set_status in_progress) m.db.upload_jobs =
      ap (λ (d : Db). d.upload_jobs) rest
      ∙ ap (λ n. update_where (with_id n) (set_status in_progress) m.db.upload_jobs) id in
    let k =
      after_job-IsClaimed w job m.db.upload_jobs claimed (process_job c w job claimed)
        (process_job-Isolated c w job claimed) h'
        (subst (IsClaimed job.id m.db.upload_jobs) (sym table)
          (claim-IsClaimed job.id m.db.upload_jobs)) in
    rw e (released later job.id _ k.0, ids-update is_held release _ (λ j. refl) ∙ k.1)
