-- ===== src/Examples/Collecting.antt =====
-- A pack whose objects the collector deletes, one of them gone before.
use omnidrive.Prelude.{
  ◌≡◌, ◌≢◌, refl, ◌∙◌, sym, ap, String, Bool, false, none, List, [], ◌∷◌, ◌⊎◌, inl, inr, str_eq,
  Bool-cases, is_some, All, any_where, delete_where, order_by, select_where, find-delete_where,
  find_where-any, if◌then◌else◌, arith,
}
use omnidrive.Result.{ok}
use omnidrive.Db.{PackShard}
use omnidrive.Db.Shards.{get_pack_shards}
use omnidrive.Db.Packs.{delete_pack_metadata}
use omnidrive.Gc.{
  StoredAt, DeleteReply, deleted, refused, elapsed, GcWorld, GcState, collect_pack, delete_objects,
  settle_reply, is_not_found_details, cleanup_local_files, remove_file_if_exists,
}
use omnidrive.Gc.Safety.{is_object, Absent, IsProvider, IsDealtWith, collect_pack_lem}
use omnidrive.Examples.{store}

any-delete_mono {ℓ} :
    {A : Type ℓ} (p q : A → Bool) (rs : List A)
    → any_where p rs ≡ false
    → any_where p (delete_where q rs) ≡ false
unfolding any_where delete_where
any-delete_mono p q [] h = refl
any-delete_mono p q (r ∷ rs) h = elim (Bool-cases (q r)) [
  | inl e ↦ rw e (any-delete_mono p q rs (ground arith))
  | inr e ↦ elim (Bool-cases (p r)) [
    | inl f ↦ absurd (ground arith)
    | inr f ↦ rw (e, f) (any-delete_mono p q rs (ground arith))
  ]
]

-- What a deletion with this reply makes of the objects.
taken : DeleteReply → PackShard → List StoredAt → List StoredAt
taken deleted shard objects = delete_where (is_object shard) objects
taken (refused details) shard objects = objects
taken elapsed shard objects = objects

-- A bucket that answers `text` for b2, and deletes everywhere else.
unfoldable bucket : String → GcWorld
unfolding taken
bucket text =
    let answer =
      λ (shard : PackShard). if str_eq shard.provider "b2" then refused text else deleted in
    record {
      providers = "r2" ∷ "b2" ∷ "scw" ∷ [];
      request = λ shard. taken (answer shard) shard;
      reply = answer;
      remove_fault = λ f. none;
    }

taken_gone :
    (r : DeleteReply) (shard : PackShard) (objects : List StoredAt)
    → r ≡ deleted
    → Absent shard (taken r shard objects)
unfolding taken
taken_gone deleted shard objects h =
    sym (find_where-any (is_object shard) (delete_where (is_object shard) objects))
    ∙ ap is_some (find-delete_where (is_object shard) objects)
taken_gone (refused details) shard objects h = cc
taken_gone elapsed shard objects h = cc

taken_stays :
    (r : DeleteReply) (shard other : PackShard) (objects : List StoredAt)
    → Absent other objects
    → Absent other (taken r shard objects)
unfolding taken
taken_stays deleted shard other objects h =
    any-delete_mono (is_object other) (is_object shard) objects h
taken_stays (refused details) shard other objects h = h
taken_stays elapsed shard other objects h = h

bucket-IsProvider : (text : String) → IsProvider (bucket text)
unfolding bucket
bucket-IsProvider text = record {
  gone = λ shard objects h. taken_gone _ shard objects h;
  none_appears = λ shard other objects h. taken_stays _ shard other objects h;
}

abbrev stocked : GcState
stocked = record {
  db = store;
  objects =
      record { provider = "r2"; object_key = "k" }
      ∷ record { provider = "b2"; object_key = "k" }
      ∷ [];
  spool = "a.odpk" ∷ [];
}

collect_pack_lem_example :
    let r = collect_pack (bucket "NoSuchKey") "a" stocked in
    ((r.1.db ≡ store) × (r.0 ≢ ok tt))
    ⊎ ((r.1.db ≡ delete_pack_metadata "a" store)
        × All (IsDealtWith (bucket "NoSuchKey") r.1.objects) (get_pack_shards "a" store))
collect_pack_lem_example =
    collect_pack_lem (bucket "NoSuchKey") (bucket-IsProvider "NoSuchKey") "a" stocked

collected : (collect_pack (bucket "NoSuchKey") "a" stocked).0 ≡ ok tt
unfolding collect_pack bucket delete_objects get_pack_shards order_by select_where any_where
    settle_reply is_not_found_details cleanup_local_files remove_file_if_exists
collected = refl

-- A refusal whose text holds "404" for another reason: the call succeeds, and the object stays.
misread :
    ((collect_pack (bucket "AccessDenied request 1404") "a" stocked).0 ≡ ok tt)
    × ((collect_pack (bucket "AccessDenied request 1404") "a" stocked).1.objects
        ≡ record { provider = "b2"; object_key = "k" } ∷ [])
unfolding collect_pack bucket delete_objects get_pack_shards order_by select_where any_where
    settle_reply is_not_found_details cleanup_local_files remove_file_if_exists delete_where
misread = (refl, refl)
