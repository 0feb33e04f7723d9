-- ===== src/Gc/Safety.antt =====
-- What the collection of angeld/src/gc.rs deletes, and what it keeps.
use omnidrive.Prelude.{
  ◌≡◌, ◌≢◌, refl, ◌∙◌, sym, ap, subst, String, Bool, true, false, ◌&&◌, List, [], ◌∷◌, ◌⊎◌, inl,
  inr, str_eq, Bool-cases, Option-cases, All, any_where,
}
use omnidrive.Result.{Result, ok, err, and_then, guard-ok}
use omnidrive.Db.{PackShard}
use omnidrive.Db.Shards.{get_pack_shards}
use omnidrive.Db.Packs.{delete_pack_metadata}
use omnidrive.Gc.{
  GcError, invalid_env, DeleteReply, deleted, refused, elapsed, StoredAt, GcWorld, GcState,
  is_not_found_details, settle_reply, sent, delete_objects, remove_file_if_exists,
  cleanup_local_files, collect_pack, local_pack_path, local_shard_path,
}
use omnidrive.Gc.NotFound.{SaysNotFound, is_not_found-SaysNotFound}

-- An object of the shard, and that none is stored.
abbrev pub is_object : PackShard → StoredAt → Bool
is_object shard o = str_eq o.provider shard.provider && str_eq o.object_key shard.object_key

abbrev pub Absent : PackShard → List StoredAt → Type 0
Absent shard objects = any_where (is_object shard) objects ≡ false

-- What DeleteObject promises: behind a success the object is gone, and no request makes an object
-- appear. Of an error reply nothing is promised.
pub record IsProvider (w : GcWorld) : Type 0 where
  pub gone :
      (shard : PackShard) (objects : List StoredAt)
      → w.reply shard ≡ deleted
      → Absent shard (w.request shard objects)
  pub none_appears :
      (shard other : PackShard) (objects : List StoredAt)
      → Absent other objects
      → Absent other (w.request shard objects)

-- A shard is dealt with if its object is gone, or the reply to its deletion was an error whose text
-- says that it is not found.
abbrev pub IsDealtWith : GcWorld → List StoredAt → PackShard → Type 0
IsDealtWith w objects shard =
    Absent shard objects
    ⊎ ((details : String) × (w.reply shard ≡ refused details) × SaysNotFound details)

-- How a call treats the store and the objects: the store stays, no object appears.
abbrev Shrinks : GcState → GcState → Type 0
Shrinks s s' =
    (s'.db ≡ s.db) × ((shard : PackShard) → Absent shard s.objects → Absent shard s'.objects)

module _ (w : GcWorld) (provider : IsProvider w) where
  sent-Shrinks : (shard : PackShard) (s : GcState) → Shrinks s (sent w shard s)
  sent-Shrinks shard s = (refl, λ other h. provider.none_appears shard other s.objects h)

  settle_lem :
      (shard : PackShard) (r : DeleteReply) (s : GcState)
      → w.reply shard ≡ r
      → settle_reply shard r ≡ ok tt
      → IsDealtWith w (sent w shard s).objects shard
  unfolding settle_reply
  settle_lem shard deleted s q h = inl (provider.gone shard s.objects q)
  settle_lem shard (refused details) s q h =
      inr (
        details,
        q,
        is_not_found-SaysNotFound details (guard-ok (is_not_found_details details) _ h),
      )
  settle_lem shard elapsed s q h = cc

  kept :
      (s s' : GcState) (shard : PackShard)
      → Shrinks s s'
      → IsDealtWith w s.objects shard
      → IsDealtWith w s'.objects shard
  kept s s' shard k h = elim h [ inl a ↦ inl (k.1 shard a) | inr m ↦ inr m ]

  abbrev Deletes : List PackShard → GcState → Result GcError (Unit {0}) × GcState → Type 0
  Deletes shards s r = Shrinks s r.1 × (r.0 ≡ ok tt → All (IsDealtWith w r.1.objects) shards)

  abbrev has_provider : PackShard → Bool
  has_provider shard = any_where (λ (name : String). str_eq name shard.provider) w.providers

  objects-step :
      (shard : PackShard) (rest : List PackShard) (s : GcState)
      → has_provider shard ≡ true
      → delete_objects w (shard ∷ rest) s
        ≡ and_then
            (settle_reply shard (w.reply shard), sent w shard s)
            λ _ s'. delete_objects w rest s'
  unfolding delete_objects
  objects-step shard rest s e = rw e

  objects-unknown :
      (shard : PackShard) (rest : List PackShard) (s : GcState)
      → has_provider shard ≡ false
      → delete_objects w (shard ∷ rest) s ≡ (err (invalid_env "gc provider not configured"), s)
  unfolding delete_objects
  objects-unknown shard rest s e = rw e

  delete_objects_lem :
      (shards : List PackShard) (s : GcState) → Deletes shards s (delete_objects w shards s)
  unfolding delete_objects
  delete_objects_lem [] s = ((refl, λ other k. k), λ _. tt)
  delete_objects_lem (shard ∷ rest) s = elim (Bool-cases (has_provider shard)) [
    | inr e ↦
        subst (Deletes (shard ∷ rest) s) (sym (objects-unknown shard rest s e))
          ((refl, λ other k. k), λ q. cc)
    | inl e ↦ subst (Deletes (shard ∷ rest) s) (sym (objects-step shard rest s e)) (
        after (settle_reply shard (w.reply shard)) (settle_lem shard (w.reply shard) s refl)
          (delete_objects_lem rest (sent w shard s)))
  ]
    where
      next : GcState
      next = sent w shard s

      after :
          (r : Result GcError (Unit {0}))
          → (r ≡ ok tt → IsDealtWith w next.objects shard)
          → Deletes rest next (delete_objects w rest next)
          → Deletes (shard ∷ rest) s (and_then (r, next) λ _ s'. delete_objects w rest s')
      after (err x) k ih = (sent-Shrinks shard s, λ q. cc)
      after (ok u) k ih =
          let k₀ = sent-Shrinks shard s in
          (
            (ih.0.0 ∙ k₀.0, λ other m. ih.0.1 other (k₀.1 other m)),
            λ q. (kept next (delete_objects w rest next).1 shard ih.0 (k refl), ih.1 q),
          )

  -- Removing local files touches neither the store nor the objects.
  Untouched : GcState → GcState → Type 0
  Untouched s s' = (s'.db ≡ s.db) × (s'.objects ≡ s.objects)

  remove_file-Untouched :
      (path : String) (s : GcState) → Untouched s (remove_file_if_exists w path s).1
  unfolding remove_file_if_exists Untouched
  remove_file-Untouched path s = elim (Option-cases (w.remove_fault path)) [
    | inl e ↦ rw (e, remove_file_if_exists) (refl, refl)
    | inr (x, e) ↦ rw (e, remove_file_if_exists) (refl, refl)
  ]

  then_remove :
      (path : String) (s : GcState) (r : Result GcError (Unit {0}) × GcState)
      → Untouched s r.1
      → Untouched s (and_then r λ _ s'. remove_file_if_exists w path s').1
  unfolding Untouched
  then_remove path s (err x, s') h = h
  then_remove path s (ok u, s') h = let k = remove_file-Untouched path s' in (k.0 ∙ h.0, k.1 ∙ h.1)

  cleanup-Untouched :
      (pack_id : String) (s : GcState) → Untouched s (cleanup_local_files w pack_id s).1
  unfolding cleanup_local_files
  cleanup-Untouched pack_id s =
      chain (remove_file_if_exists w (local_pack_path pack_id) s) (remove_file-Untouched _ s)
    where
      last :
          (r : Result GcError (Unit {0}) × GcState)
          → Untouched s r.1
          → Untouched s
              (and_then r λ _ s₂.
                and_then
                  (remove_file_if_exists w (local_shard_path pack_id 1) s₂)
                  λ _ s₃. remove_file_if_exists w (local_shard_path pack_id 2) s₃).1
      last (err x, s₂) h = h
      last (ok u, s₂) h =
          then_remove (local_shard_path pack_id 2) s _
            (then_remove (local_shard_path pack_id 1) s (ok tt, s₂) h)

      chain :
          (r : Result GcError (Unit {0}) × GcState)
          → Untouched s r.1
          → Untouched s
              (and_then r λ _ s₁.
                and_then (remove_file_if_exists w (local_shard_path pack_id 0) s₁) λ _ s₂.
                  and_then
                    (remove_file_if_exists w (local_shard_path pack_id 1) s₂)
                    λ _ s₃. remove_file_if_exists w (local_shard_path pack_id 2) s₃).1
      chain (err x, s₁) h = h
      chain (ok u, s₁) h = last _ (then_remove (local_shard_path pack_id 0) s (ok tt, s₁) h)

  -- The store keeps a pack's rows until each of its shards is dealt with. Either the store is what
  -- it was, and `collect_pack` gives an error; or it is that store without the pack's rows, and for
  -- each shard of the pack the object is gone, or the provider refused the deletion with a text that
  -- holds "404", "notfound" or "nosuchkey". A provider that reports a success has deleted the
  -- object, and no request makes an object appear; of refusals and timeouts nothing is assumed.
  pub collect_pack_lem :
      (pack_id : String) (s : GcState)
      → (let r = collect_pack w pack_id s in
          ((r.1.db ≡ s.db) × (r.0 ≢ ok tt))
          ⊎ ((r.1.db ≡ delete_pack_metadata pack_id s.db)
              × All (IsDealtWith w r.1.objects) (get_pack_shards pack_id s.db)))
  unfolding collect_pack Untouched
  collect_pack_lem pack_id s =
      go (delete_objects w (get_pack_shards pack_id s.db) s)
        (delete_objects_lem (get_pack_shards pack_id s.db) s)
    where
      shards : List PackShard
      shards = get_pack_shards pack_id s.db

      go :
          (r : Result GcError (Unit {0}) × GcState)
          → Shrinks s r.1 × (r.0 ≡ ok tt → All (IsDealtWith w r.1.objects) shards)
          → (let t = and_then r λ _ s₁.
                cleanup_local_files w pack_id
                  (record s₁ { db = delete_pack_metadata pack_id s₁.db }) in
              ((t.1.db ≡ s.db) × (t.0 ≢ ok tt))
              ⊎ ((t.1.db ≡ delete_pack_metadata pack_id s.db)
                  × All (IsDealtWith w t.1.objects) shards))
      go (err x, s₁) k = inl (k.0.0, λ q. cc)
      go (ok u, s₁) k =
          let s₂ : GcState = record s₁ { db = delete_pack_metadata pack_id s₁.db } in
          let c = cleanup-Untouched pack_id s₂ in
          inr (
            c.0 ∙ ap (delete_pack_metadata pack_id) k.0.0,
            subst (λ (o : List StoredAt). All (IsDealtWith w o) shards) (sym c.1) (k.1 refl),
          )
