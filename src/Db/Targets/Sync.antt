-- ===== src/Db/Targets/Sync.antt =====
-- `sync_upload_targets_from_shards` of angeld/src/db/uploads.rs: the targets follow the shards.
use mathlib.Core.List.{Memᴰ}
use omnidrive.Prelude.{
  ℕ, ◌≡◌, refl, Bool, true, false, ◌&&◌, Option, none, some, List, [], ◌∷◌, is_some, str_eq, ◌==◌,
  count_where, update_where, any_where, arith, All, Bool-cases, inl, inr, All-update_where,
  count_where_of_none, any_where_of_none, update_where_none, any_where-false, All-Memᴰ, All-of_Memᴰ,
}
use omnidrive.Db.{Db, PackShard, UploadJob, UploadTarget, completed, is_completed, is_open}
use omnidrive.Db.Targets.{set_targets}

-- JOIN upload_jobs uj … JOIN pack_shards ps …, ps.status = 'COMPLETED'
abbrev shard_for : UploadTarget → UploadJob → PackShard → Bool
shard_for t j s =
    str_eq s.pack_id j.pack_id && str_eq s.provider t.provider && is_completed s.status

abbrev pub has_stored_shard : Db → UploadTarget → Bool
has_stored_shard db t =
    any_where (λ (j : UploadJob). j.id == t.job_id && any_where (shard_for t j) db.pack_shards)
      db.upload_jobs

-- The inner SELECT: open targets whose shard is completed.
abbrev pub is_ghost : Db → UploadTarget → Bool
is_ghost db t = is_open t.status && has_stored_shard db t

-- id IN (SELECT ut.id …)
abbrev pub is_synced : Db → UploadTarget → Bool
is_synced db t = any_where (λ (u : UploadTarget). u.id == t.id && is_ghost db u) db.upload_targets

abbrev or_else : Option ℕ → ℕ → Option ℕ
or_else none n = some n
or_else (some m) n = some m

abbrev pub synced : ℕ → UploadTarget → UploadTarget
synced now t = record t {
  status = completed;
  completed_at = or_else t.completed_at now;
  updated_at = some now;
}

abbrev pub is_stale : UploadTarget → Bool
is_stale t = is_completed t.status && is_some t.last_error

abbrev pub cleared : UploadTarget → UploadTarget
cleared t = record t { last_error = none }

pub record UploadTargetSyncReport : Type 0 where
  pub synced_targets : ℕ
  pub cleared_errors : ℕ

abbrev pub after_sync : ℕ → Db → List UploadTarget
after_sync now db = update_where (is_synced db) (synced now) db.upload_targets

unfoldable pub sync_upload_targets_from_shards : ℕ → Db → UploadTargetSyncReport × Db
sync_upload_targets_from_shards now db =
    let ts = after_sync now db in
    (
      record {
        synced_targets = count_where (is_synced db) db.upload_targets;
        cleared_errors = count_where is_stale ts;
      },
      set_targets db (update_where is_stale cleared ts),
    )

-- Neither a ghost nor a stale error.
abbrev pub IsSettled : Db → UploadTarget → Type 0
IsSettled db t = (is_ghost db t ≡ false) × (is_stale t ≡ false)

any_of_Memᴰ :
    (db : Db) (t : UploadTarget)
    → Memᴰ t db.upload_targets
    → is_ghost db t ≡ true
    → is_synced db t ≡ true
any_of_Memᴰ db t m g = elim (Bool-cases (is_synced db t)) [
  | inl e ↦ e
  | inr e ↦ absurd (
      clash (
        All-of_Memᴰ (λ (u : UploadTarget). (u.id == t.id && is_ghost db u) ≡ false)
          db.upload_targets
          (any_where-false (λ (u : UploadTarget). u.id == t.id && is_ghost db u) db.upload_targets
            e)
          m))
]
  where
    clash : ((t.id == t.id && is_ghost db t) ≡ false) → ⊥
    clash e = ground arith

settled-after_sync : (now : ℕ) (db : Db) → All (λ t. is_ghost db t ≡ false) (after_sync now db)
settled-after_sync now db =
    All-update_where (λ t. Memᴰ t db.upload_targets) (λ t. is_ghost db t ≡ false) (is_synced db)
      (synced now) db.upload_targets (λ t _ _. refl)
      (λ t m miss. elim (Bool-cases (is_ghost db t)) [
        | inl g ↦ absurd (ground (arith, any_of_Memᴰ db t m g))
        | inr g ↦ g
      ])
      (All-Memᴰ db.upload_targets)

-- After the synchronisation no open target has a completed shard, and no completed target keeps an
-- error.
pub sync-IsSettled :
    (now : ℕ) (db : Db)
    → All (IsSettled db) (sync_upload_targets_from_shards now db).1.upload_targets
unfolding sync_upload_targets_from_shards
sync-IsSettled now db =
    All-update_where (λ t. is_ghost db t ≡ false) (IsSettled db) is_stale cleared
      (after_sync now db) (λ t g e. (g, ground arith)) (λ t g e. (g, e)) (settled-after_sync now db)

not_ghost :
    (db : Db) (ts : List UploadTarget)
    → All (IsSettled db) ts
    → (t : UploadTarget) → All (λ (u : UploadTarget). (u.id == t.id && is_ghost db u) ≡ false) ts
not_ghost db [] h t = tt
not_ghost db (u ∷ us) h t = (ground arith, not_ghost db us h.1 t)

All-any {ℓ} : {A : Type ℓ} (P : A → Type 0) (rs : List A) → ((r : A) → P r) → All P rs
All-any P [] f = tt
All-any P (r ∷ rs) f = (f r, All-any P rs f)

settled-stale :
    (db : Db) (ts : List UploadTarget) → All (IsSettled db) ts → All (λ t. is_stale t ≡ false) ts
settled-stale db [] h = tt
settled-stale db (t ∷ ts) h = (h.0.1, settled-stale db ts h.1)

settled_sync :
    (now : ℕ) (db : Db)
    → All (IsSettled db) db.upload_targets
    → sync_upload_targets_from_shards now db
      ≡ (record { synced_targets = 0; cleared_errors = 0 }, db)
unfolding sync_upload_targets_from_shards
settled_sync now db h =
    let none_synced : All (λ t. is_synced db t ≡ false) db.upload_targets =
      All-any (λ t. is_synced db t ≡ false) db.upload_targets
        (λ t. any_where_of_none _ db.upload_targets (not_ghost db db.upload_targets h t)) in
    let same : after_sync now db ≡ db.upload_targets =
      update_where_none (is_synced db) (synced now) db.upload_targets none_synced in
    rw (
      same,
      count_where_of_none (is_synced db) db.upload_targets none_synced,
      count_where_of_none is_stale db.upload_targets (settled-stale db db.upload_targets h),
      update_where_none is_stale cleared db.upload_targets (settled-stale db db.upload_targets h),
    )

-- The synchronisation is idempotent: a second run, at any time, reports nothing and changes nothing.
pub sync_idem :
    (now later : ℕ) (db : Db)
    → let db' = (sync_upload_targets_from_shards now db).1 in
      sync_upload_targets_from_shards later db'
      ≡ (record { synced_targets = 0; cleared_errors = 0 }, db')
sync_idem now later db =
    settled_sync later (sync_upload_targets_from_shards now db).1
      (unfold sync_upload_targets_from_shards in sync-IsSettled now db)
