-- ===== src/Examples/Queue.antt =====
-- The upload queue on a concrete store.
use omnidrive.Prelude.{
  true, false, ◌≡◌, ◌≢◌, refl, All, count_where, select_where, update_where, order_by, none, some,
  List, [], ◌∷◌, arith,
}
use omnidrive.Db.{Db, UploadJob, in_progress, is_pending, is_completed}
use omnidrive.Db.Jobs.{
  get_next_upload_job, requeue_upload_job_after, queue_pack_for_upload, set_status, is_ready,
  with_id, for_pack, reset_in_progress_upload_jobs,
}
use omnidrive.Db.Jobs.Queue.{IsNext, get_next_upload_job_lem, claim_exclusive}
use omnidrive.Db.Jobs.Recovery.{reset-ready}
use omnidrive.Db.Jobs.Keys.{
  IsQueue, JobCall, calls, other_pack, queue, next, complete, requeue, reset, calls-IsQueue,
  queue_pack_for_upload_lem,
}
use omnidrive.Examples.{store, job}

abbrev claimed : Db
claimed = (get_next_upload_job 10 store).1

store-IsQueue : IsQueue store
store-IsQueue = record {
  one_per_pack = ((refl, (refl, tt)), ((refl, tt), (tt, tt)));
  ids_below = (omega arith, (omega arith, (omega arith, tt)));
}

abbrev first_job : UploadJob
first_job = job 1 "a" in_progress none

abbrev second_job : UploadJob
second_job = job 2 "b" in_progress (some 50)

abbrev claimed_twice : Db
claimed_twice = (get_next_upload_job 60 claimed).1

abbrev deferred : Db
deferred = (requeue_upload_job_after 10 1 500 claimed).1

get_next_upload_job_lem_example :
    (r : UploadJob) × IsNext 10 r store.upload_jobs
    × (first_job ≡ set_status in_progress r)
    × (claimed ≡ record store {
      upload_jobs = update_where (with_id r.id) (set_status in_progress) store.upload_jobs;
    })
unfolding get_next_upload_job order_by select_where
get_next_upload_job_lem_example =
    get_next_upload_job_lem 10 store {job = first_job} {db' = claimed} refl

claim_exclusive_example : first_job.id ≢ second_job.id
unfolding get_next_upload_job order_by select_where update_where
claim_exclusive_example =
    claim_exclusive 10 60 store {db' = claimed} {db'' = claimed_twice} {a = first_job}
      {b = second_job} refl refl

reset-ready_example :
    All
      (λ j. is_pending j.status ≡ true → is_ready 10 j ≡ true)
      (reset_in_progress_upload_jobs store).1.upload_jobs
reset-ready_example = reset-ready 10 store

abbrev history : List JobCall
history = queue "d" ∷ next 10 ∷ requeue 10 1 500 ∷ next 60 ∷ complete 2 ∷ queue "b" ∷ reset ∷ []

calls-IsQueue_example : IsQueue (calls history store)
calls-IsQueue_example = calls-IsQueue history store store-IsQueue

queue_pack_for_upload_lem_example :
    let db' = queue_pack_for_upload "b" store in
    (count_where (for_pack "b") db'.upload_jobs ≡ 1)
    × All (λ j. for_pack "b" j ≡ true → is_completed j.status ≡ false) db'.upload_jobs
    × (select_where (other_pack "b") db'.upload_jobs
        ≡ select_where (other_pack "b") store.upload_jobs)
queue_pack_for_upload_lem_example = queue_pack_for_upload_lem "b" store store-IsQueue
