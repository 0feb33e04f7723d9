-- ===== src/Gc.antt =====
-- The garbage collector of angeld/src/gc.rs: one round of `run`, `collect_pack` and
-- `cleanup_local_files`. The state is the store, the objects at the providers and the spool's files.
-- What a request does to the objects, the providers' replies, the local file system's faults and the
-- formatted error texts are the fields of `GcWorld`, and nothing is built into them; a text is
-- compared by the codes of its characters.
use Prim.Native.String.{◌++◌ as join}
use Prim.Native.Char.{Char, code}
use omnidrive.Prelude.{
  ℕ, zero, suc, ◌+◌, ◌-◌, String, Bool, true, false, ◌&&◌, ◌||◌, not, Option, none, some, List, [],
  ◌∷◌, str_eq, ltb, leb, ◌==◌, if◌then◌else◌, any_where, delete_where,
}
use omnidrive.Result.{Result, ok, err, and_then, guard}
use omnidrive.AutoLock.{digits}
use omnidrive.Db.{Db, PackShard}
use omnidrive.Db.Shards.{get_pack_shards}
use omnidrive.Db.Packs.{get_orphaned_pack_ids, delete_pack_metadata}
pub mod NotFound
pub mod Safety

pub data GcError : Type 0 where
  invalid_env : String → GcError
  provider_failed : String → String → String → GcError
  timed_out : String → GcError
  io : String → GcError

-- The reply to a deletion, an error with its formatted text.
pub data DeleteReply : Type 0 where
  deleted : DeleteReply
  refused : String → DeleteReply
  elapsed : DeleteReply

pub record StoredAt : Type 0 where
  pub provider : String
  pub object_key : String

-- `request` is what a sent deletion makes of the objects, whatever the reply to it.
pub record GcWorld : Type 0 where
  pub providers : List String
  pub request : PackShard → List StoredAt → List StoredAt
  pub reply : PackShard → DeleteReply
  pub remove_fault : String → Option String

pub record GcState : Type 0 where
  pub db : Db
  pub objects : List StoredAt
  pub spool : List String

abbrev pub lower_code : ℕ → ℕ
lower_code c = if leb 65 c && leb c 90 then c + 32 else c

-- `text.to_ascii_lowercase()` starts with `word`, and contains it.
unfoldable pub lower_starts : String → String → Bool
lower_starts String.[] text = true
lower_starts (String.◌∷◌ w word) String.[] = false
lower_starts (String.◌∷◌ w word) (String.◌∷◌ c text) =
    let rest = lower_starts word text in if lower_code (code c) == code w then rest else false

unfoldable pub lower_contains : String → String → Bool
unfolding lower_starts
lower_contains word String.[] = lower_starts word String.[]
lower_contains word (String.◌∷◌ c text) =
    let rest = lower_contains word text in
    if lower_starts word (String.◌∷◌ c text) then true else rest

unfoldable pub is_not_found_details : String → Bool
unfolding lower_contains
is_not_found_details details =
    lower_contains "404" details
    || lower_contains "notfound" details
    || lower_contains "nosuchkey" details

-- The match on the reply: how the loop goes on.
unfoldable pub settle_reply : PackShard → DeleteReply → Result GcError (Unit {0})
settle_reply shard deleted = ok tt
settle_reply shard (refused details) =
    guard (is_not_found_details details) (provider_failed shard.provider "delete_object" details)
settle_reply shard elapsed = err (timed_out shard.provider)

abbrev pub sent : GcWorld → PackShard → GcState → GcState
sent w shard s = record s { objects = w.request shard s.objects }

unfoldable pub delete_objects :
    GcWorld → List PackShard → GcState → Result GcError (Unit {0}) × GcState
delete_objects w [] s = (ok tt, s)
delete_objects w (shard ∷ rest) s =
    if not (any_where (λ (name : String). str_eq name shard.provider) w.providers)
    then (err (invalid_env "gc provider not configured"), s)
    else and_then (settle_reply shard (w.reply shard), sent w shard s)
        λ _ s'. delete_objects w rest s'

-- `remove_file_if_exists`
unfoldable pub remove_file_if_exists :
    GcWorld → String → GcState → Result GcError (Unit {0}) × GcState
remove_file_if_exists w path s = elim (w.remove_fault path) [
  | some e ↦ (err (io e), s)
  | none ↦ (ok tt, record s { spool = delete_where (λ (f : String). str_eq f path) s.spool })
]

abbrev pub local_pack_path : String → String
local_pack_path pack_id = join pack_id ".odpk"

abbrev pub local_shard_path : String → ℕ → String
local_shard_path pack_id index = join pack_id (join ".shard" (digits 20 index ""))

unfoldable pub cleanup_local_files :
    GcWorld → String → GcState → Result GcError (Unit {0}) × GcState
cleanup_local_files w pack_id s =
    and_then (remove_file_if_exists w (local_pack_path pack_id) s) λ _ s₁.
      and_then (remove_file_if_exists w (local_shard_path pack_id 0) s₁) λ _ s₂.
        and_then (remove_file_if_exists w (local_shard_path pack_id 1) s₂)
          λ _ s₃. remove_file_if_exists w (local_shard_path pack_id 2) s₃

unfoldable pub collect_pack : GcWorld → String → GcState → Result GcError (Unit {0}) × GcState
collect_pack w pack_id s =
    and_then (delete_objects w (get_pack_shards pack_id s.db) s)
      λ _ s₁. cleanup_local_files w pack_id (record s₁ { db = delete_pack_metadata pack_id s₁.db })

-- A round of `run` over the orphans of a batch; an error is logged, and the round goes on.
unfoldable pub collect_all : GcWorld → List String → GcState → GcState
collect_all w [] s = s
collect_all w (pack_id ∷ rest) s = collect_all w rest (collect_pack w pack_id s).1

unfoldable pub run_round : GcWorld → ℕ → GcState → GcState
run_round w batch_size s = collect_all w (get_orphaned_pack_ids batch_size s.db) s
