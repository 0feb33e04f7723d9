-- ===== src/Uploader/Round.antt =====
-- What a round of the upload worker does to the queue: the loop of `run` of angeld/src/uploader.rs.
use omnidrive.Prelude.{
  ℕ, ◌+◌, ◌≡◌, refl, sym, ap, ◌∙◌, Bool, true, map, Bool-cases, inl, inr, not, some, List, [], ◌∷◌,
  select_where, update_where, subst, select-update_where, arith, All,
}
use omnidrive.Result.{Result, ok, err, and_then}
use omnidrive.Db.{Db, DbError, UploadJob, in_progress, is_completed, is_failed, is_pending}
use omnidrive.Db.Jobs.{
  with_id, set_status, defer, get_next_upload_job, mark_upload_job_completed,
  mark_upload_job_failed, requeue_upload_job_after,
}
use omnidrive.Db.Jobs.Queue.{get_next_upload_job_lem}
use omnidrive.Uploader.Isolation.{Isolated, process_job-Isolated}
use omnidrive.Uploader.{
  Machine, WorkerConfig, World, UploaderError, JobProcessOutcome, completed, pending_retry, failed,
  set_db, on_db, process_job, conclude_job, run_claimed, run_round,
}

abbrev pub is_other_job : ℕ → UploadJob → Bool
is_other_job id j = not (with_id id j)

abbrev pub done : Result UploaderError (Unit {0})
done = ok tt

-- What the row of a job says behind a round that ends with this outcome at `now`.
abbrev pub Settled : ℕ → JobProcessOutcome → UploadJob → Type 0
Settled now completed j = is_completed j.status ≡ true
Settled now (pending_retry delay messages) j =
    (is_pending j.status ≡ true) × (j.next_attempt_at ≡ some (now + delay))
Settled now failed j = is_failed j.status ≡ true

-- The job is let go with the outcome, and the other jobs are as they were; no row is lost.
pub record LetsGo (now : ℕ) (o : JobProcessOutcome) (id : ℕ) (before after : List UploadJob)
    : Type 0 where
  pub settled : All (λ j. with_id id j ≡ true → Settled now o j) after
  pub ids : map (λ j. j.id) after ≡ map (λ j. j.id) before
  pub others : select_where (is_other_job id) after ≡ select_where (is_other_job id) before

pub ids-update :
    (p : UploadJob → Bool) (f : UploadJob → UploadJob) (js : List UploadJob)
    → ((j : UploadJob) → (f j).id ≡ j.id)
    → map (λ j. j.id) (update_where p f js) ≡ map (λ j. j.id) js
unfolding update_where
ids-update p f [] k = refl
ids-update p f (j ∷ js) k = ground (arith, k j, ids-update p f js k)

pub settled_rows :
    (P : UploadJob → Type 0) (id : ℕ) (f : UploadJob → UploadJob) (js : List UploadJob)
    → ((j : UploadJob) → P (f j))
    → All (λ j. with_id id j ≡ true → P j) (update_where (with_id id) f js)
unfolding update_where
settled_rows P id f [] h = tt
settled_rows P id f (j ∷ js) h = elim (Bool-cases (with_id id j)) [
  | inl e ↦ rw e ((λ q. h j), settled_rows P id f js h)
  | inr e ↦ rw e ((λ q. absurd (cc (e, q))), settled_rows P id f js h)
]

module _ (now : ℕ) (o : JobProcessOutcome) where
  update-LetsGo :
      (id : ℕ) (f : UploadJob → UploadJob) (js : List UploadJob)
      → ((j : UploadJob) → Settled now o (f j))
      → ((j : UploadJob) → (f j).id ≡ j.id)
      → LetsGo now o id js (update_where (with_id id) f js)
  update-LetsGo id f js h k = record {
    settled = settled_rows (Settled now o) id f js h;
    ids = ids-update (with_id id) f js k;
    others =
        select-update_where (is_other_job id) (with_id id) f js
          (λ j e. (ground arith, rw (k j) (ground arith)));
  }

  requeued-LetsGo :
      (id : ℕ) (m : Machine) (r : Result DbError ℕ × Db)
      → LetsGo now o id m.db.upload_jobs r.1.upload_jobs
      → LetsGo now o id m.db.upload_jobs
          (and_then (on_db m r) λ attempts m'. (done, m')).1.db.upload_jobs
  requeued-LetsGo id m (ok n, db) h = h
  requeued-LetsGo id m (err e, db) h = h

  -- The claim of the job before it keeps the ids and the other jobs.
  LetsGo-claimed :
      (id : ℕ) (js ls : List UploadJob)
      → LetsGo now o id (update_where (with_id id) (set_status in_progress) js) ls
      → LetsGo now o id js ls
  LetsGo-claimed id js ls l = record {
    settled = l.settled;
    ids = l.ids ∙ ids-update (with_id id) (set_status in_progress) js (λ j. refl);
    others =
        l.others
        ∙ select-update_where (is_other_job id) (with_id id) (set_status in_progress) js
            (λ j e. (ground arith, ground arith));
  }

conclude-LetsGo :
    (w : World) (job : UploadJob) (o : JobProcessOutcome) (m : Machine)
    → LetsGo w.now o job.id m.db.upload_jobs (conclude_job w job o m).1.db.upload_jobs
unfolding conclude_job mark_upload_job_completed mark_upload_job_failed requeue_upload_job_after
conclude-LetsGo w job completed m =
    update-LetsGo w.now completed job.id _ m.db.upload_jobs (λ j. refl) (λ j. refl)
conclude-LetsGo w job (pending_retry d ms) m =
    requeued-LetsGo w.now (pending_retry d ms) job.id m
      (requeue_upload_job_after w.now job.id d m.db)
      (update-LetsGo w.now (pending_retry d ms) job.id (defer (w.now + d)) m.db.upload_jobs
        (λ j. (refl, refl)) (λ j. refl))
conclude-LetsGo w job failed m =
    update-LetsGo w.now failed job.id _ m.db.upload_jobs (λ j. refl) (λ j. refl)

abbrev Outcome : ℕ → UploadJob → Machine → Machine → Result UploaderError JobProcessOutcome → Type 0
Outcome now job before after r =
    (o : JobProcessOutcome) × (r ≡ ok o)
    × LetsGo now o job.id before.db.upload_jobs after.db.upload_jobs

after_job-LetsGo :
    (w : World) (job : UploadJob) (m : Machine)
    (r : Result UploaderError JobProcessOutcome × Machine)
    → Isolated job.pack_id m r.1
    → (and_then r λ o m'. conclude_job w job o m').0 ≡ done
    → Outcome w.now job m (and_then r λ o m'. conclude_job w job o m').1 r.0
after_job-LetsGo w job m (ok o, m') h e = (
  o,
  refl,
  subst (λ js. LetsGo w.now o job.id js (conclude_job w job o m').1.db.upload_jobs) h.jobs
      (conclude-LetsGo w job o m'),
)
after_job-LetsGo w job m (err q, m') h e = absurd (ground arith)

-- A round that claims a job and ends without an error has processed it with some outcome, and its
-- row says so: completed, failed, or pending again with the next attempt due when the outcome's
-- delay has passed. No row is lost or added, and the rows of all other jobs are as they were.
pub run_round-LetsGo :
    (c : WorkerConfig) (w : World) (m : Machine) (job : UploadJob) (db : Db)
    → get_next_upload_job w.now m.db ≡ (some job, db)
    → (run_round c w m).0 ≡ done
    → (o : JobProcessOutcome) × ((process_job c w job (set_db m db)).0 ≡ ok o)
      × LetsGo w.now o job.id m.db.upload_jobs (run_round c w m).1.db.upload_jobs
unfolding run_round
run_round-LetsGo c w m job db e h =
    let (r, next, same, rest) = get_next_upload_job_lem w.now m.db e in
    let claimed = set_db m db in
    let h' : (run_claimed c w (some job) claimed).0 ≡ done = rw e at h in
    let (o, q, l) =
      after_job-LetsGo w job claimed (process_job c w job claimed)
        (process_job-Isolated c w job claimed) h' in
    let id : r.id ≡ job.id = ap (λ (j : UploadJob). j.id) (sym same) in
    let table : db.upload_jobs
        ≡ update_where (with_id job.id) (set_status in_progress) m.db.upload_jobs =
      ap (λ (d : Db). d.upload_jobs) rest
      ∙ ap (λ n. update_where (with_id n) (set_status in_progress) m.db.upload_jobs) id in
    let after = (run_claimed c w (some job) claimed).1.db.upload_jobs in
    (
      o,
      q,
      rw e (
          LetsGo-claimed w.now o job.id m.db.upload_jobs after
            (subst (λ js. LetsGo w.now o job.id js after) table l)),
    )
