-- ===== src/Db/Jobs/Keys.antt =====
-- The constraints UNIQUE(pack_id) and PRIMARY KEY(id) of upload_jobs, kept by the statements.
use mathlib.Core.List.{Memᴰ, append-nil}
use omnidrive.Prelude.{
  inl, inr, All-Memᴰ, select_where, select-update_where, select_where-append, not, ℕ, suc, ◌+◌, ◌≤◌,
  ◌<◌, ◌≡◌, refl, ap, String, Bool, true, false, Option, none, some, List, [], ◌∷◌, str_eq, eq_iff,
  eq_refl, update_where, count_where, any_where, arith, All, All-append, Bool-cases,
  All-update_where, Distinct, Distinct-append, Distinct-update_where, any_where-false,
  any_where-count, count-Distinct, count_where-append, count-update_where,
}
use omnidrive.Db.{Db, UploadJob, in_progress, completed, failed, is_completed}
use omnidrive.Db.Jobs.{
  for_pack, with_id, set_status, new_job, requeue_completed, queue_pack_for_upload, next_ready,
  claim, get_next_upload_job, mark_upload_job_completed, mark_upload_job_failed,
  requeue_upload_job_after, defer, is_held, release, reset_in_progress_upload_jobs,
}

abbrev pub same_pack : UploadJob → UploadJob → Bool
same_pack a b = str_eq a.pack_id b.pack_id

-- One job for a pack, and every id below the counter.
pub record IsQueue (db : Db) : Type 0 where
  pub one_per_pack : Distinct same_pack db.upload_jobs
  pub ids_below : All (λ j. j.id < db.next_job_id) db.upload_jobs

-- What a statement does to the rows it updates: the key columns stay.
abbrev KeepsKeys : (UploadJob → UploadJob) → Type 0
KeepsKeys f = (j : UploadJob) → ((f j).pack_id ≡ j.pack_id) × ((f j).id ≡ j.id)

update-IsQueue :
    (p : UploadJob → Bool) (f : UploadJob → UploadJob) (db : Db)
    → KeepsKeys f
    → IsQueue db
    → IsQueue (record db { upload_jobs = update_where p f db.upload_jobs })
update-IsQueue p f db keeps v = record {
  one_per_pack =
      Distinct-update_where same_pack p f (λ r s. ap (λ k. str_eq k s.pack_id) (keeps r).0)
        (λ r s. ap (λ k. str_eq r.pack_id k) (keeps s).0) db.upload_jobs v.one_per_pack;
  ids_below =
      All-update_where (λ j. j.id < db.next_job_id) (λ j. j.id < db.next_job_id) p f db.upload_jobs
        (λ j b _. rw ((keeps j).1) b) (λ j b _. b) v.ids_below;
}

not_for_pack :
    (pack_id : String) (js : List UploadJob) (j : UploadJob)
    → j.pack_id ≡ pack_id
    → All (λ k. for_pack pack_id k ≡ false) js
    → All (λ k. same_pack j k ≡ false) js
not_for_pack pack_id [] j e h = tt
not_for_pack pack_id (k ∷ ks) j e h = (
  ground (arith, eq_iff k.pack_id pack_id, eq_iff j.pack_id k.pack_id),
  not_for_pack pack_id ks j e h.1,
)

below_suc : (n : ℕ) (js : List UploadJob) → All (λ j. j.id < n) js → All (λ j. j.id < suc n) js
below_suc n [] h = tt
below_suc n (j ∷ js) h = (omega arith, below_suc n js h.1)

pub queue_pack_for_upload-IsQueue :
    (pack_id : String) (db : Db) → IsQueue db → IsQueue (queue_pack_for_upload pack_id db)
unfolding queue_pack_for_upload
queue_pack_for_upload-IsQueue pack_id db v =
    elim (Bool-cases (any_where (for_pack pack_id) db.upload_jobs)) [
      | inl e ↦ rw e (
          update-IsQueue (for_pack pack_id) requeue_completed db (λ j. (ground arith, ground arith))
            v)
      | inr e ↦ rw e (record {
        one_per_pack = Distinct-append same_pack _ db.upload_jobs v.one_per_pack (
            not_for_pack pack_id db.upload_jobs (new_job db.next_job_id pack_id) refl
              (any_where-false (for_pack pack_id) db.upload_jobs e));
        ids_below =
            All-append (λ j. j.id < suc db.next_job_id) db.upload_jobs _
              (below_suc db.next_job_id db.upload_jobs v.ids_below) (omega arith, tt);
      })
    ]

-- The statements on upload_jobs, with the worker's choice of arguments.
pub data JobCall : Type 0 where
  queue : String → JobCall
  next : ℕ → JobCall
  complete fail : ℕ → JobCall
  requeue : ℕ → ℕ → ℕ → JobCall
  reset : JobCall

pub call : JobCall → Db → Db
call (queue pack_id) db = queue_pack_for_upload pack_id db
call (next now) db = (get_next_upload_job now db).1
call (complete job_id) db = mark_upload_job_completed job_id db
call (fail job_id) db = mark_upload_job_failed job_id db
call (requeue now job_id delay_ms) db = (requeue_upload_job_after now job_id delay_ms db).1
call reset db = (reset_in_progress_upload_jobs db).1

pub calls : List JobCall → Db → Db
calls [] db = db
calls (c ∷ cs) db = calls cs (call c db)

claim-IsQueue : (o : Option UploadJob) (db : Db) → IsQueue db → IsQueue (claim o db).1
unfolding claim
claim-IsQueue none db v = v
claim-IsQueue (some job) db v =
    update-IsQueue (with_id job.id) (set_status in_progress) db (λ j. (refl, refl)) v

call-IsQueue : (c : JobCall) (db : Db) → IsQueue db → IsQueue (call c db)
unfolding call get_next_upload_job mark_upload_job_completed mark_upload_job_failed
    requeue_upload_job_after reset_in_progress_upload_jobs
call-IsQueue (queue pack_id) db v = queue_pack_for_upload-IsQueue pack_id db v
call-IsQueue (next now) db v = claim-IsQueue (next_ready now db) db v
call-IsQueue (complete job_id) db v =
    update-IsQueue (with_id job_id) (set_status completed) db (λ j. (refl, refl)) v
call-IsQueue (fail job_id) db v =
    update-IsQueue (with_id job_id) (set_status failed) db (λ j. (refl, refl)) v
call-IsQueue (requeue now job_id delay_ms) db v =
    update-IsQueue (with_id job_id) (defer (now + delay_ms)) db (λ j. (refl, refl)) v
call-IsQueue reset db v = update-IsQueue is_held release db (λ j. (refl, refl)) v

-- Any sequence of calls keeps one job for a pack, and the ids of all jobs below the counter from
-- which the next id is taken.
pub calls-IsQueue : (cs : List JobCall) (db : Db) → IsQueue db → IsQueue (calls cs db)
unfolding calls
calls-IsQueue [] db v = v
calls-IsQueue (c ∷ cs) db v = calls-IsQueue cs (call c db) (call-IsQueue c db v)

queued-present :
    (pack_id : String) (db : Db)
    → 0 < count_where (for_pack pack_id) (queue_pack_for_upload pack_id db).upload_jobs
unfolding queue_pack_for_upload
queued-present pack_id db = elim (Bool-cases (any_where (for_pack pack_id) db.upload_jobs)) [
  | inl e ↦
      rw
        (
          e,
          count-update_where (for_pack pack_id) (for_pack pack_id) requeue_completed db.upload_jobs
              (λ j _. ground arith),
        )
        (any_where-count (for_pack pack_id) db.upload_jobs e)
  | inr e ↦
      rw (e, count_where-append (for_pack pack_id) db.upload_jobs _)
        (unfold count_where in rw (eq_refl pack_id) (omega arith))
]

queued-count :
    (pack_id : String) (db : Db)
    → IsQueue db
    → count_where (for_pack pack_id) (queue_pack_for_upload pack_id db).upload_jobs ≡ 1
queued-count pack_id db v =
    let most : count_where (for_pack pack_id) (queue_pack_for_upload pack_id db).upload_jobs ≤ 1 =
      count-Distinct same_pack (for_pack pack_id)
        (λ r s p q.
          ground
            (arith, eq_iff r.pack_id pack_id, eq_iff s.pack_id pack_id, eq_iff s.pack_id r.pack_id))
        (queue_pack_for_upload pack_id db).upload_jobs
        (queue_pack_for_upload-IsQueue pack_id db v).one_per_pack in
    omega (arith, queued-present pack_id db)

abbrev pub other_pack : String → UploadJob → Bool
other_pack pack_id j = not (for_pack pack_id j)

queued-others :
    (pack_id : String) (db : Db)
    → select_where (other_pack pack_id) (queue_pack_for_upload pack_id db).upload_jobs
      ≡ select_where (other_pack pack_id) db.upload_jobs
unfolding queue_pack_for_upload
queued-others pack_id db = elim (Bool-cases (any_where (for_pack pack_id) db.upload_jobs)) [
  | inl e ↦ rw e (
      select-update_where (other_pack pack_id) (for_pack pack_id) requeue_completed db.upload_jobs
        (λ j m. (rw m, ground arith)))
  | inr e ↦
      rw (e, select_where-append (other_pack pack_id) db.upload_jobs _)
        (unfold select_where in rw (eq_refl pack_id) (append-nil _))
]

queued-open :
    (pack_id : String) (db : Db)
    → All
        (λ j. for_pack pack_id j ≡ true → is_completed j.status ≡ false)
        (queue_pack_for_upload pack_id db).upload_jobs
unfolding queue_pack_for_upload
queued-open pack_id db = elim (Bool-cases (any_where (for_pack pack_id) db.upload_jobs)) [
  | inl e ↦ rw e (
      All-update_where (λ j. Memᴰ j db.upload_jobs)
        (λ j. for_pack pack_id j ≡ true → is_completed j.status ≡ false) (for_pack pack_id)
        requeue_completed db.upload_jobs (λ j _ _ _. ground arith) (λ j _ m t. cc)
        (All-Memᴰ db.upload_jobs))
  | inr e ↦ rw e (
      All-append (λ j. for_pack pack_id j ≡ true → is_completed j.status ≡ false) db.upload_jobs _
        (absent db.upload_jobs (any_where-false (for_pack pack_id) db.upload_jobs e))
        ((λ _. refl), tt))
]
  where
    absent :
        (js : List UploadJob)
        → All (λ j. for_pack pack_id j ≡ false) js
        → All (λ j. for_pack pack_id j ≡ true → is_completed j.status ≡ false) js
    absent [] h = tt
    absent (j ∷ js) h = ((λ t. cc), absent js h.1)

-- In a queue with at most one job for a pack, a pack that is queued has exactly one job, that job is
-- not completed, and the jobs of the other packs are as they were.
pub queue_pack_for_upload_lem :
    (pack_id : String) (db : Db)
    → IsQueue db
    → let db' = queue_pack_for_upload pack_id db in
      (count_where (for_pack pack_id) db'.upload_jobs ≡ 1)
      × All (λ j. for_pack pack_id j ≡ true → is_completed j.status ≡ false) db'.upload_jobs
      × (select_where (other_pack pack_id) db'.upload_jobs
          ≡ select_where (other_pack pack_id) db.upload_jobs)
queue_pack_for_upload_lem pack_id db v =
    (queued-count pack_id db v, queued-open pack_id db, queued-others pack_id db)
