-- ===== src/Examples/Joining.antt =====
-- An invite with one use left, and the requests that name it.
use omnidrive.Prelude.{
  ◌+◌, ◌≡◌, refl, String, Option, none, some, [], ◌∷◌, length, find_where, any_where, update_where,
}
use omnidrive.Result.{ok}
use omnidrive.Bytes.{Bytes}
use omnidrive.Shards.{replicate}
use omnidrive.Access.{add_vault_member}
use omnidrive.Invites.{
  InviteCodeRecord, Invites, JoinRequest, check_join, commit_join, get_invite_code,
  is_invite_code_valid, invite_member, create_device, create_user, consume_invite_code,
  post_vault_join,
}
use omnidrive.Invites.Uses.{uses_left, admitted, join_all, join_all-uses_left}

abbrev invite : InviteCodeRecord
invite = record {
  code = "c";
  vault_id = "v";
  created_by = "owner";
  role = "member";
  max_uses = 1;
  used_count = 0;
  expires_at = some 100;
  created_at = 1;
}

abbrev invites : Invites
invites = record {
  invite_codes = invite ∷ [];
  devices = [];
  accounts = record {
    users = "owner" ∷ [];
    user_sessions = [];
    vault_members = [];
    vault_state = none;
  };
}

abbrev request : String → JoinRequest
request device_id = record {
  invite_code = "c";
  device_id = device_id;
  device_name = "n";
  public_key = "k";
}

abbrev decode : String → Option Bytes
decode text = some (replicate 32 7)

join_all-uses_left_example :
    (join_all decode "c" ((5, request "a") ∷ (6, request "b") ∷ []) invites).0
      + uses_left "c" (join_all decode "c" ((5, request "a") ∷ (6, request "b") ∷ []) invites).1
    ≡ uses_left "c" invites
join_all-uses_left_example =
    join_all-uses_left decode "c" ((5, request "a") ∷ (6, request "b") ∷ []) invites

-- The second request of the two is refused.
joined_once : (join_all decode "c" ((5, request "a") ∷ (6, request "b") ∷ []) invites).0 ≡ 1
unfolding join_all admitted post_vault_join check_join get_invite_code find_where
    is_invite_code_valid commit_join invite_member create_device any_where create_user
    consume_invite_code update_where
joined_once = refl

-- Two requests that are both checked before either is committed: both pass, and both join.
both_pass :
    (check_join decode 5 (request "a") invites ≡ ok (invite, replicate 32 7))
    × (check_join decode 5 (request "b") invites ≡ ok (invite, replicate 32 7))
unfolding check_join get_invite_code find_where is_invite_code_valid
both_pass = (refl, refl)

both_join :
    length
      (commit_join 5
        (request "b")
        (invite, replicate 32 7)
        (commit_join 5 (request "a") (invite, replicate 32 7) invites).1).1.accounts.vault_members
    ≡ 2
unfolding commit_join invite_member add_vault_member create_device any_where create_user
    consume_invite_code update_where
both_join = refl
