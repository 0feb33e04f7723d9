-- ===== src/Uploader/Loop.antt =====
-- What the loop over the shards of a job (`process_job` of angeld/src/uploader.rs) does not do,
-- whatever the providers answer.
use omnidrive.Prelude.{
  ℕ, ◌≡◌, refl, ◌∙◌, String, List, [], ◌∷◌, ltb, any_where, Bool-cases, Option-cases, inl, inr,
}
use omnidrive.Result.{Result, ok, err, and_then}
use omnidrive.CloudGuard.{GuardDecision, current_decision, enforce_single_upload_size_limit}
use omnidrive.CloudGuard
use omnidrive.Int64.{pos}
use omnidrive.Db.{
  Db, DbError, Message, UploadJob, PackShard, local_shard_missing, provider_inactive,
}
use omnidrive.Db.Packs.{get_physical_usage_for_provider}
use omnidrive.Db.Targets.{mark_upload_target_in_progress, requeue_upload_target}
use omnidrive.Db.Shards.{mark_pack_shard_in_progress, requeue_pack_shard}
use omnidrive.Uploader.Frame.{
  Leaves, Leaves-refl, Leaves-trans, shard_in_progress-Leaves, shard_completed-Leaves,
  shard_failed-Leaves, shard_requeued-Leaves, target_in_progress-Leaves, target_completed-Leaves,
  target_failed-Leaves, target_requeued-Leaves, escalate-Leaves,
}
use omnidrive.Uploader.{
  Machine, WorkerConfig, World, UploaderError, Reply, stored, refused, elapsed, shard_file,
  same_file, completed, failed, Progress, ShardStep, go_on, leave, on_db, set_db,
  escalate_target_if_permanent, retry_shard, fail_shard, store_shard, handle_reply, upload_shard,
  after_decision, process_shard, process_shards, is_retryable, is_provider, projected_usage,
  exceeds, to_message, note_failure, timeout,
}

-- A step keeps the spool, and of the database all that is not about this pack's shards.
pub record Steps (pack_id : String) (m m' : Machine) : Type 0 where
  pub spool : m'.spool ≡ m.spool
  pub db : Leaves pack_id m.db m'.db

Steps-trans : {p : String} {a b c : Machine} → Steps p a b → Steps p b c → Steps p a c
Steps-trans h k = record { spool = k.spool ∙ h.spool; db = Leaves-trans h.db k.db }

Steps-set_db : {p : String} (m : Machine) (db : Db) → Leaves p m.db db → Steps p m (set_db m db)
Steps-set_db m db h = record { spool = refl; db = h }

-- The loop is left early only to try the job again later.
abbrev pub Deferred : Result UploaderError ShardStep → Type 0
Deferred (ok (leave completed)) = ⊥
Deferred (ok (leave failed)) = ⊥
Deferred _ = Unit {0}

abbrev pub Ends : String → Machine → Result UploaderError ShardStep × Machine → Type 0
Ends p m r = Steps p m r.1 × Deferred r.0

on_db-Steps {ℓ} :
    {A : Type ℓ} {p : String} (m : Machine) (r : Result DbError A × Db)
    → Leaves p m.db r.1
    → Steps p m (on_db m r).1
on_db-Steps m (ok a, db) h = record { spool = refl; db = h }
on_db-Steps m (err e, db) h = record { spool = refl; db = h }

and_then-Ends {ℓ} :
    {A : Type ℓ} {p : String} (m : Machine) (r : Result UploaderError A × Machine)
    (k : A → Machine → Result UploaderError ShardStep × Machine)
    → Steps p m r.1
    → ((a : A) (m' : Machine) → Ends p m' (k a m'))
    → Ends p m (and_then r k)
and_then-Ends m (ok a, m') k h g = (Steps-trans h (g a m').0, (g a m').1)
and_then-Ends m (err e, m') k h g = (h, tt)

retry-Ends :
    (w : World) (job : UploadJob) (s : PackShard) (e : Message) (p : Progress) (m : Machine)
    → Ends job.pack_id m (retry_shard w job s e p m)
unfolding retry_shard
retry-Ends w job s e p m =
    and_then-Ends m (on_db m (requeue_pack_shard job.pack_id s.shard_index e m.db))
      (λ n m₁.
        and_then (on_db m₁ (requeue_upload_target w.now job.id s.provider e m₁.db)) (noted n))
      (on_db-Steps m (requeue_pack_shard job.pack_id s.shard_index e m.db)
        (shard_requeued-Leaves job.pack_id s.shard_index e m.db))
      λ n m₁.
        and_then-Ends m₁ (on_db m₁ (requeue_upload_target w.now job.id s.provider e m₁.db))
          (noted n)
          (on_db-Steps m₁ (requeue_upload_target w.now job.id s.provider e m₁.db)
            (target_requeued-Leaves job.pack_id w.now job.id s.provider e m₁.db))
          λ k m₂. (Steps-set_db m₂ _ (escalate-Leaves w job s k e m₂.db), tt)
  where
    noted : ℕ → ℕ → Machine → Result UploaderError ShardStep × Machine
    noted n k m₂ = (
      ok (go_on (note_failure s e n p)),
      set_db m₂ (escalate_target_if_permanent w job s k e m₂.db),
    )

fail-Ends :
    (w : World) (job : UploadJob) (s : PackShard) (e : Message) (p : Progress) (m : Machine)
    → Ends job.pack_id m (fail_shard w job s e p m)
unfolding fail_shard
fail-Ends w job s e p m = (
  Steps-set_db m _ (
      Leaves-trans (shard_failed-Leaves job.pack_id s.shard_index e m.db)
        (target_failed-Leaves job.pack_id w.now job.id s.provider e _)),
  tt,
)

reply-Ends :
    (c : WorkerConfig) (w : World) (job : UploadJob) (s : PackShard) (r : Reply) (p : Progress)
    (m : Machine)
    → Ends job.pack_id m (handle_reply c w job s r p m)
unfolding handle_reply store_shard
reply-Ends c w job s (stored o) p m = (
  Steps-set_db m _ (
      Leaves-trans (shard_completed-Leaves job.pack_id s.shard_index m.db)
        (target_completed-Leaves job.pack_id w.now job.id s.provider o _)),
  tt,
)
reply-Ends c w job s (refused e) p m = elim (Bool-cases (is_retryable e)) [
  | inl q ↦ rw q (retry-Ends w job s (to_message e) p m)
  | inr q ↦ rw q (fail-Ends w job s (to_message e) p m)
]
reply-Ends c w job s elapsed p m =
    retry-Ends w job s (to_message (timeout s.provider c.provider_timeout)) p m

begin-Steps :
    (w : World) (job : UploadJob) (s : PackShard) (m : Machine)
    → Steps job.pack_id m (
        set_db m (
          mark_upload_target_in_progress w.now job.id s.provider
            (mark_pack_shard_in_progress job.pack_id s.shard_index m.db)))
begin-Steps w job s m = Steps-set_db m _ (
    Leaves-trans (shard_in_progress-Leaves job.pack_id s.shard_index m.db)
      (target_in_progress-Leaves job.pack_id w.now job.id s.provider _))

Ends-after :
    {p : String} {m m' : Machine} (r : Result UploaderError ShardStep × Machine)
    → Steps p m m'
    → Ends p m' r
    → Ends p m r
Ends-after r h e = (Steps-trans h e.0, e.1)

upload-Ends :
    (c : WorkerConfig) (w : World) (job : UploadJob) (s : PackShard) (p : Progress) (m : Machine)
    → Ends job.pack_id m (upload_shard c w job s p m)
unfolding upload_shard
upload-Ends c w job s p m =
    elim (Option-cases (w.probe_error (shard_file job.pack_id s.shard_index))) [
      | inl q ↦
          rw (upload_shard, q)
            (Ends-after _ (begin-Steps w job s m)
              (elim (Bool-cases
                (any_where (same_file (shard_file job.pack_id s.shard_index)) m.spool)) [
                  | inl f ↦ rw f (reply-Ends c w job s (w.reply s) p _)
                  | inr f ↦
                      rw f (fail-Ends w job s (local_shard_missing job.pack_id s.shard_index) p _)
                ]))
      | inr (e, q) ↦ rw (upload_shard, q) (begin-Steps w job s m, tt)
    ]

decision-Ends :
    (c : WorkerConfig) (w : World) (job : UploadJob) (s : PackShard) (p : Progress)
    (d : GuardDecision) (m : Machine)
    → Ends job.pack_id m (after_decision c w job s p d m)
unfolding after_decision
decision-Ends c w job s p CloudGuard.allowed m = upload-Ends c w job s p m
decision-Ends c w job s p CloudGuard.dry_run m = (Steps-set_db m m.db (Leaves-refl m.db), tt)
decision-Ends c w job s p (CloudGuard.suspended reason) m =
    (Steps-set_db m m.db (Leaves-refl m.db), tt)
decision-Ends c w job s p (CloudGuard.quota_exceeded reason) m =
    (Steps-set_db m m.db (Leaves-refl m.db), tt)

shard-Ends :
    (c : WorkerConfig) (w : World) (job : UploadJob) (s : PackShard) (p : Progress) (m : Machine)
    → Ends job.pack_id m (process_shard c w job s p m)
unfolding process_shard
shard-Ends c w job s p m = elim (Bool-cases (any_where (is_provider s) w.providers)) [
  | inr h ↦ rw h (retry-Ends w job s (provider_inactive s.provider) p m)
  | inl h ↦ elim (Bool-cases (exceeds (enforce_single_upload_size_limit c.guard_config s.size))) [
    | inl k ↦ rw (h, k) (fail-Ends w job s _ p m)
    | inr k ↦
        elim (Bool-cases (
          ltb c.max_physical_bytes_per_provider
            (projected_usage (get_physical_usage_for_provider s.provider m.db) s.size))) [
              | inl l ↦ rw (h, k, l) (fail-Ends w job s _ p m)
              | inr l ↦
                  rw (h, k, l)
                    (Ends-after _ (record { spool = refl; db = Leaves-refl m.db })
                      (decision-Ends c w job s p
                        (current_decision w.now c.guard_config (CloudGuard.write (pos 1)) m.guard).0
                        _))
            ]
  ]
]

next-Ends :
    {p : String} (m : Machine) (r : Result UploaderError ShardStep × Machine)
    (k : Progress → Machine → Result UploaderError ShardStep × Machine)
    → Ends p m r
    → ((q : Progress) (m' : Machine) → Ends p m' (k q m'))
    → Ends p m (and_then r λ step m'. elim step [ go_on q ↦ k q m' | leave o ↦ (ok (leave o), m') ])
next-Ends m (ok (go_on q), m') k h g = Ends-after _ h.0 (g q m')
next-Ends m (ok (leave o), m') k h g = h
next-Ends m (err e, m') k h g = h

-- The loop ends a job early only by deferring it. On every path, also one that ends with an error,
-- it deletes no spool file and changes no job, no pack and no shard of another pack.
pub shards-Ends :
    (c : WorkerConfig) (w : World) (job : UploadJob) (ss : List PackShard) (p : Progress)
    (m : Machine)
    → Ends job.pack_id m (process_shards c w job ss p m)
unfolding process_shards
shards-Ends c w job [] p m = (Steps-set_db m m.db (Leaves-refl m.db), tt)
shards-Ends c w job (s ∷ ss) p m =
    next-Ends m (process_shard c w job s p m) (λ q m'. process_shards c w job ss q m')
      (shard-Ends c w job s p m) λ q m'. shards-Ends c w job ss q m'
