-- ===== src/Shares.antt =====
-- Shared links: the tables shared_links, share_pack_keys and share_password_tokens of
-- angeld/src/db/shares.rs, and the handlers `get_share_chunk`, `get_share_meta`, `revoke_share` and
-- `delete_share` of angeld/src/api/sharing.rs. Times are in ms and not negative. The answer of
-- `acl::require_role` is the argument `caller`; the audit entries are not modelled.
use omnidrive.Prelude.{
  ℕ, suc, ◌+◌, ◌*◌, String, Bool, true, false, ◌&&◌, not, Option, none, some, List, [], ◌∷◌, ◌++◌,
  map, str_eq, ltb, leb, ◌==◌, if◌then◌else◌, length, select_where, update_where, delete_where,
  count_where, find_where, any_where, order_by,
}
use omnidrive.Result.{Result, ok, err, ◌>>=◌, ◌>>◌, guard, ok_or}
use omnidrive.Bytes.{Bytes}
pub mod Revoked
pub mod Served

pub record SharedLink : Type 0 where
  pub share_id : String
  pub inode_id : ℕ
  pub revision_id : ℕ
  pub file_name : String
  pub file_size : ℕ
  pub created_at : ℕ
  pub expires_at : Option ℕ
  pub max_downloads : Option ℕ
  pub download_count : ℕ
  pub revoked : ℕ
  pub password_hash : Option String

pub record SharePackKey : Type 0 where
  pub share_id : String
  pub pack_id : String
  pub sealed_dek : Bytes

pub record SharePasswordToken : Type 0 where
  pub token : String
  pub share_id : String
  pub created_at : ℕ
  pub expires_at : ℕ

pub record Shares : Type 0 where
  pub shared_links : List SharedLink
  pub share_pack_keys : List SharePackKey
  pub share_password_tokens : List SharePasswordToken

-- `constraint_failed` is SQLite's refusal of a second row with the same primary key.
pub data ShareError : Type 0 where
  constraint_failed : ShareError
  forbidden : ShareError
  not_found : String → ShareError
  gone : String → ShareError
  unauthorized : String → ShareError
  service_unavailable : ShareError
  internal : String → ShareError

abbrev pub past : ℕ → Option ℕ → Bool
past now none = false
past now (some t) = ltb t now

abbrev pub used_up : ℕ → Option ℕ → Bool
used_up count none = false
used_up count (some max) = leb max count

unfoldable pub is_shared_link_valid : ℕ → SharedLink → Bool
is_shared_link_valid now link =
    if not (link.revoked == 0)
    then false
    else (if past now link.expires_at
        then false
        else (if used_up link.download_count link.max_downloads then false else true))

abbrev pub has_share_id : String → SharedLink → Bool
has_share_id share_id l = str_eq l.share_id share_id

-- The row's counters start at zero.
unfoldable pub create_shared_link : ℕ → SharedLink → Shares → Result ShareError (Unit {0}) × Shares
create_shared_link now row s =
    if any_where (has_share_id row.share_id) s.shared_links then (err constraint_failed, s) else (
      ok tt,
      record s {
        shared_links =
            s.shared_links
            ++ (record row { created_at = now; download_count = 0; revoked = 0 } ∷ []);
      },
    )

unfoldable pub get_shared_link : String → Shares → Option SharedLink
get_shared_link share_id s = find_where (has_share_id share_id) s.shared_links

abbrev pub newest_first : SharedLink → SharedLink → Bool
newest_first a b = leb b.created_at a.created_at

unfoldable pub list_shared_links : Shares → List SharedLink
list_shared_links s = order_by newest_first s.shared_links

unfoldable pub list_shared_links_for_inode : ℕ → Shares → List SharedLink
list_shared_links_for_inode inode_id s =
    order_by newest_first (select_where (λ l. l.inode_id == inode_id) s.shared_links)

abbrev pub is_open_link : String → SharedLink → Bool
is_open_link share_id l = has_share_id share_id l && (l.revoked == 0)

unfoldable pub revoke_shared_link : String → Shares → Bool × Shares
revoke_shared_link share_id s = (
  ltb 0 (count_where (is_open_link share_id) s.shared_links),
  record s {
    shared_links =
        update_where (is_open_link share_id) (λ l. record l { revoked = 1 }) s.shared_links;
  },
)

unfoldable pub increment_shared_link_download_count : String → Shares → Shares
increment_shared_link_download_count share_id s = record s {
  shared_links =
      update_where (has_share_id share_id) (λ l. record l { download_count = l.download_count + 1 })
        s.shared_links;
}

unfoldable pub delete_shared_link : String → Shares → Bool × Shares
delete_shared_link share_id s = (
  ltb 0 (count_where (has_share_id share_id) s.shared_links),
  record s { shared_links = delete_where (has_share_id share_id) s.shared_links },
)

abbrev pub is_pack_key : String → String → SharePackKey → Bool
is_pack_key share_id pack_id k = str_eq k.share_id share_id && str_eq k.pack_id pack_id

unfoldable pub insert_share_pack_key : String → String → Bytes → Shares → Shares
insert_share_pack_key share_id pack_id sealed_dek s = record s {
  share_pack_keys =
      if any_where (is_pack_key share_id pack_id) s.share_pack_keys
      then update_where (is_pack_key share_id pack_id) (λ k. record k { sealed_dek = sealed_dek })
          s.share_pack_keys
      else s.share_pack_keys
        ++ (record { share_id = share_id; pack_id = pack_id; sealed_dek = sealed_dek } ∷ []);
}

abbrev pub sealed_of : Option SharePackKey → Option Bytes
sealed_of none = none
sealed_of (some k) = some k.sealed_dek

unfoldable pub get_share_pack_key : String → String → Shares → Option Bytes
get_share_pack_key share_id pack_id s =
    sealed_of (find_where (is_pack_key share_id pack_id) s.share_pack_keys)

abbrev pub key_of_share : String → SharePackKey → Bool
key_of_share share_id k = str_eq k.share_id share_id

unfoldable pub delete_share_pack_keys : String → Shares → Shares
delete_share_pack_keys share_id s = record s {
  share_pack_keys = delete_where (key_of_share share_id) s.share_pack_keys;
}

unfoldable pub create_share_password_token :
    ℕ → String → String → ℕ → Shares → Result ShareError (Unit {0}) × Shares
create_share_password_token now token share_id ttl_seconds s =
    if any_where (λ (t : SharePasswordToken). str_eq t.token token) s.share_password_tokens
    then (err constraint_failed, s)
    else (
      ok tt,
      record s {
        share_password_tokens =
            s.share_password_tokens
            ++ (record {
              token = token;
              share_id = share_id;
              created_at = now;
              expires_at = now + ttl_seconds * 1000;
            }
                ∷ []);
      },
    )

abbrev pub is_live_token : ℕ → String → String → SharePasswordToken → Bool
is_live_token now token share_id t =
    str_eq t.token token && str_eq t.share_id share_id && ltb now t.expires_at

unfoldable pub validate_share_password_token : ℕ → String → String → Shares → Bool
validate_share_password_token now token share_id s =
    ltb 0 (count_where (is_live_token now token share_id) s.share_password_tokens)

unfoldable pub cleanup_expired_share_tokens : ℕ → Shares → ℕ × Shares
cleanup_expired_share_tokens now s = (
  count_where (λ (t : SharePasswordToken). leb t.expires_at now) s.share_password_tokens,
  record s {
    share_password_tokens =
        delete_where (λ (t : SharePasswordToken). leb t.expires_at now) s.share_password_tokens;
  },
)

abbrev pub check_token : ℕ → Option String → String → Shares → Result ShareError (Unit {0})
check_token now none share_id s = err (unauthorized "password required")
check_token now (some t) share_id s =
    if str_eq t ""
    then err (unauthorized "password required")
    else guard (validate_share_password_token now t share_id s)
        (unauthorized "invalid or expired share token")

abbrev pub check_password :
    ℕ → Option String → Option String → String → Shares → Result ShareError (Unit {0})
check_password now none token share_id s = ok tt
check_password now (some hash) token share_id s = check_token now token share_id s

unfoldable pub check_share_password_access :
    ℕ → SharedLink → Option String → Shares → Result ShareError (Unit {0})
check_share_password_access now link token s =
    check_password now link.password_hash token link.share_id s

-- A chunk of the link's revision, as the query lists it.
pub record ShareChunk : Type 0 where
  pub chunk_index : ℕ
  pub pack_id : String

-- What the handlers ask elsewhere: the chunks of a revision, and a chunk's encrypted bytes;
-- `downloader` says whether there is a downloader.
pub record ShareSources : Type 0 where
  pub now : ℕ
  pub chunks : ℕ → List ShareChunk
  pub downloader : Bool
  pub encrypted_bytes : ShareChunk → Option Bytes

-- The checks that both download handlers make; `reason` is the text of a refusal.
unfoldable pub open_share :
    ShareSources
    → (SharedLink → String)
    → String
    → Option String
    → Shares
    → Result ShareError SharedLink
open_share w reason share_id token s = do
  link ← ok_or (get_shared_link share_id s) (not_found share_id)
  guard (is_shared_link_valid w.now link) (gone (reason link))
  check_share_password_access w.now link token s
  ok link

unfoldable pub fetch_chunk : ShareSources → SharedLink → ℕ → Result ShareError Bytes
fetch_chunk w link index = do
  guard w.downloader service_unavailable
  chunk ←
      ok_or (find_where (λ (c : ShareChunk). c.chunk_index == index) (w.chunks link.revision_id))
        (not_found "chunk")
  ok_or (w.encrypted_bytes chunk) (internal "chunk fetch failed")

-- The last chunk counts as a download.
unfoldable pub get_share_chunk :
    ShareSources → String → ℕ → Option String → Shares → Result ShareError Bytes × Shares
get_share_chunk w share_id index token s =
    elim (open_share w (λ _. "share is invalid") share_id token s) [
      | err e ↦ (err e, s)
      | ok link ↦ elim (fetch_chunk w link index) [
        | err e ↦ (err e, s)
        | ok bytes ↦ (
          ok bytes,
          (if index + 1 == length (w.chunks link.revision_id)
              then increment_shared_link_download_count share_id s
              else s),
        )
      ]
    ]

-- The sealed keys of the link's chunks; one that is missing refuses the request.
unfoldable pub sealed_keys : String → List ShareChunk → Shares → Result ShareError (List Bytes)
sealed_keys share_id [] s = ok []
sealed_keys share_id (c ∷ cs) s =
    ok_or (get_share_pack_key share_id c.pack_id s)
      (gone "share predates per-pack keys and must be recreated")
    >>= λ key. sealed_keys share_id cs s >>= λ keys. ok (key ∷ keys)

abbrev pub invalid_reason : SharedLink → String
invalid_reason link =
    if not (link.revoked == 0)
    then "share is invalid: revoked"
    else (if used_up link.download_count link.max_downloads
        then "share is invalid: download_limit_reached"
        else "share is invalid: expired")

unfoldable pub get_share_meta :
    ShareSources → String → Option String → Shares → Result ShareError (List Bytes)
get_share_meta w share_id token s = do
  link ← open_share w invalid_reason share_id token s
  sealed_keys share_id (w.chunks link.revision_id) s

abbrev pub require :
    Option ShareError
    → (Shares → Result ShareError (Unit {0}) × Shares)
    → Shares
    → Result ShareError (Unit {0}) × Shares
require none f s = f s
require (some e) f s = (err e, s)

abbrev pub or_missing : String → Bool × Shares → Result ShareError (Unit {0}) × Shares
or_missing share_id (true, s) = (ok tt, delete_share_pack_keys share_id s)
or_missing share_id (false, s) = (err (not_found share_id), s)

unfoldable pub revoke_share :
    Option ShareError → String → Shares → Result ShareError (Unit {0}) × Shares
revoke_share caller share_id s =
    require caller (λ t. or_missing share_id (revoke_shared_link share_id t)) s

unfoldable pub delete_share :
    Option ShareError → String → Shares → Result ShareError (Unit {0}) × Shares
delete_share caller share_id s =
    require caller (λ t. or_missing share_id (delete_shared_link share_id t)) s
