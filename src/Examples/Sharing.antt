-- ===== src/Examples/Sharing.antt =====
-- A shared link with a limit and a password.
use omnidrive.Prelude.{
  ℕ, ◌≡◌, ◌≢◌, refl, true, Option, none, some, [], ◌∷◌, All, count_where, find_where, arith,
}
use omnidrive.Result.{ok}
use omnidrive.Shares.{
  SharedLink, Shares, ShareSources, get_share_chunk, open_share, fetch_chunk, get_shared_link,
  is_shared_link_valid, check_share_password_access, validate_share_password_token, revoke_share,
  revoke_shared_link, get_share_pack_key,
}
use omnidrive.Shares.Served.{IsOpen, IsWithin, get_share_chunk-IsOpen, get_share_chunk-IsWithin}
use omnidrive.Shares.Revoked.{revoke_share_lem}

abbrev link : SharedLink
link = record {
  share_id = "s";
  inode_id = 1;
  revision_id = 2;
  file_name = "f";
  file_size = 3;
  created_at = 10;
  expires_at = some 100;
  max_downloads = some 2;
  download_count = 1;
  revoked = 0;
  password_hash = some "h";
}

abbrev shares : Shares
shares = record {
  shared_links = link ∷ [];
  share_pack_keys = record { share_id = "s"; pack_id = "p"; sealed_dek = 1 ∷ [] } ∷ [];
  share_password_tokens =
      record { token = "t"; share_id = "s"; created_at = 10; expires_at = 60 } ∷ [];
}

abbrev sources : ShareSources
sources = record {
  now = 50;
  chunks = λ revision. record { chunk_index = 0; pack_id = "p" } ∷ [];
  downloader = true;
  encrypted_bytes = λ c. some (9 ∷ []);
}

served : (get_share_chunk sources "s" 0 (some "t") shares).0 ≡ ok (9 ∷ [])
unfolding get_share_chunk open_share fetch_chunk get_shared_link find_where is_shared_link_valid
    check_share_password_access validate_share_password_token count_where
served = refl

get_share_chunk-IsOpen_example : (l : SharedLink) × IsOpen 50 "s" (some "t") shares l
get_share_chunk-IsOpen_example = get_share_chunk-IsOpen sources "s" 0 (some "t") shares served

get_share_chunk-IsWithin_example :
    All IsWithin (get_share_chunk sources "s" 0 (some "t") shares).1.shared_links
get_share_chunk-IsWithin_example =
    get_share_chunk-IsWithin sources "s" 0 (some "t") shares (tt, tt)
      ((λ max h. let e : ◌≡◌ {A = Option ℕ} (some 2) (some max) = h in ground arith), tt)

revoked_lem : (revoke_share none "s" shares).0 ≡ ok tt
unfolding revoke_share revoke_shared_link count_where
revoked_lem = refl

revoke_share_lem_example :
    let s' = (revoke_share none "s" shares).1 in
    ((get_share_chunk sources "s" 0 (some "t") s').0 ≢ ok (9 ∷ []))
    × (get_share_pack_key "s" "p" s' ≡ none)
revoke_share_lem_example = revoke_share_lem sources "s" "p" 0 (some "t") shares (9 ∷ []) revoked_lem
