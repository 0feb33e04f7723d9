-- ===== src/Db/Jobs/Queue.antt =====
-- The order and the exclusivity of the upload queue.
use mathlib.Core.List.{Memᴰ}
use omnidrive.Prelude.{
  ℕ, ◌+◌, ◌≤◌, ◌<◌, ◌≡◌, ◌≢◌, ◌↔◌, ◌⊎◌, inl, inr, refl, sym, ap, ◌∙◌, true, false, Option, none,
  some, List, [], ◌∷◌, update_where, arith, All, All-update_where, first-none, first-Memᴰ,
  first-before, All-of_Memᴰ, All-Memᴰ,
}
use omnidrive.Db.{Db, UploadJob, in_progress}
use omnidrive.Db.Jobs.{
  with_id, set_status, is_ready, by_id, next_ready, claim, get_next_upload_job,
  requeue_upload_job_after, defer,
}

by_id_total : (a b : UploadJob) → by_id a b ≡ false → by_id b a ≡ true
by_id_total a b h = ground arith

by_id_trans : (a b c : UploadJob) → by_id a b ≡ true → by_id b c ≡ true → by_id a c ≡ true
by_id_trans a b c h k = ground arith

-- `r` is a ready row of `jobs` at `now`, and no ready row has a smaller id.
pub record IsNext (now : ℕ) (r : UploadJob) (jobs : List UploadJob) : Type 0 where
  pub present : Memᴰ r jobs
  pub ready : is_ready now r ≡ true
  pub least : All (λ j. is_ready now j ≡ true → r.id ≤ j.id) jobs

next_ready-IsNext :
    (now : ℕ) (db : Db) {r : UploadJob} → next_ready now db ≡ some r → IsNext now r db.upload_jobs
unfolding next_ready
next_ready-IsNext now db {r = r} e = record {
  present = (first-Memᴰ (is_ready now) by_id db.upload_jobs e).0;
  ready = (first-Memᴰ (is_ready now) by_id db.upload_jobs e).1;
  least =
      All-weaken db.upload_jobs
        (first-before (is_ready now) by_id by_id_total by_id_trans db.upload_jobs e);
}
  where
    All-weaken :
        (js : List UploadJob)
        → All (λ j. is_ready now j ≡ true → (j ≡ r) ⊎ (by_id r j ≡ true)) js
        → All (λ j. is_ready now j ≡ true → r.id ≤ j.id) js
    All-weaken [] h = tt
    All-weaken (j ∷ js) h = (
      (λ t. elim (h.0 t) [ inl q ↦ rw q (omega arith) | inr q ↦ ground arith ]),
      All-weaken js h.1,
    )

claim_cases :
    (o : Option UploadJob) (db : Db) {job : UploadJob} {db' : Db}
    → claim o db ≡ (some job, db')
    → (r : UploadJob) × (o ≡ some r)
      × (job ≡ set_status in_progress r)
      × (db' ≡ record db {
        upload_jobs = update_where (with_id r.id) (set_status in_progress) db.upload_jobs;
      })
unfolding claim
claim_cases none db e = absurd (ground arith)
claim_cases (some r) db e = (r, refl, ground arith, ground arith)

-- A claimed job is the ready job with the least id, and it alone changes: its status becomes
-- IN_PROGRESS in the table and in the returned row.
pub get_next_upload_job_lem :
    (now : ℕ) (db : Db) {job : UploadJob} {db' : Db}
    → get_next_upload_job now db ≡ (some job, db')
    → (r : UploadJob) × IsNext now r db.upload_jobs
      × (job ≡ set_status in_progress r)
      × (db' ≡ record db {
        upload_jobs = update_where (with_id r.id) (set_status in_progress) db.upload_jobs;
      })
unfolding get_next_upload_job
get_next_upload_job_lem now db e =
    let (r, found, same, rest) = claim_cases (next_ready now db) db e in
    (r, next_ready-IsNext now db found, same, rest)

-- Nothing is claimed, and nothing changes, exactly when no job is pending and due.
pub get_next_upload_job-none :
    (now : ℕ) (db : Db)
    → (get_next_upload_job now db ≡ (none, db)) ↔ All (λ j. is_ready now j ≡ false) db.upload_jobs
unfolding get_next_upload_job next_ready claim
get_next_upload_job-none now db = (
  (λ e. (first-none (is_ready now) by_id db.upload_jobs).0 (claim-none _ e)),
  (λ h. rw ((first-none (is_ready now) by_id db.upload_jobs).1 h)),
)
  where
    claim-none : (o : Option UploadJob) → claim o db ≡ (none, db) → o ≡ none
    claim-none none e = refl
    claim-none (some r) e = absurd (ground arith)

-- Two claims in a row return different jobs: whatever the time of the second claim, the id that it
-- returns is not that of the first.
pub claim_exclusive :
    (now later : ℕ) (db : Db) {db' db'' : Db} {a b : UploadJob}
    → get_next_upload_job now db ≡ (some a, db')
    → get_next_upload_job later db' ≡ (some b, db'')
    → a.id ≢ b.id
claim_exclusive now later db {db' = db'} {a = a} {b = b} e f same =
    let (r, first, ra, rdb) = get_next_upload_job_lem now db e in
    let (s, second, sb, _) = get_next_upload_job_lem later db' f in
    let taken : All (λ j. (j.id ≡ r.id) → is_ready later j ≡ false) db'.upload_jobs = rw rdb (
      All-update_where (λ j. Memᴰ j db.upload_jobs) (λ j. j.id ≡ r.id → is_ready later j ≡ false)
        (with_id r.id) (set_status in_progress) db.upload_jobs (λ j _ _ _. refl)
        (λ j _ miss q. absurd (ground arith)) (All-Memᴰ db.upload_jobs)) in
    let clash : is_ready later s ≡ false =
      All-of_Memᴰ (λ j. j.id ≡ r.id → is_ready later j ≡ false) db'.upload_jobs taken second.present
        (ap (λ (j : UploadJob). j.id) (sym sb) ∙ sym same ∙ ap (λ (j : UploadJob). j.id) ra) in
    cc (second.ready, clash)

-- A deferred job is not claimed before its delay has passed.
pub deferred_not_claimed :
    (now delay later job_id : ℕ) (db : Db) {db' : Db} {b : UploadJob}
    → get_next_upload_job later (requeue_upload_job_after now job_id delay db).1 ≡ (some b, db')
    → later < now + delay
    → b.id ≢ job_id
unfolding requeue_upload_job_after
deferred_not_claimed now delay later job_id db {b = b} e early same =
    let (s, second, sb, _) =
      get_next_upload_job_lem later (requeue_upload_job_after now job_id delay db).1 e in
    let held : All (λ j. j.id ≡ job_id → is_ready later j ≡ false)
        (requeue_upload_job_after now job_id delay db).1.upload_jobs =
      All-update_where (λ j. Memᴰ j db.upload_jobs) (λ j. j.id ≡ job_id → is_ready later j ≡ false)
        (with_id job_id) (defer (now + delay)) db.upload_jobs (λ j _ _ _. ground arith)
        (λ j _ miss q. absurd (ground arith)) (All-Memᴰ db.upload_jobs) in
    let clash : is_ready later s ≡ false =
      All-of_Memᴰ (λ j. j.id ≡ job_id → is_ready later j ≡ false) _ held second.present
        (ap (λ (j : UploadJob). j.id) (sym sb) ∙ same) in
    cc (second.ready, clash)
