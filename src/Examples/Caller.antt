-- ===== src/Examples/Caller.antt =====
-- Requests on a concrete set of accounts.
use omnidrive.Prelude.{
  ◌+◌, String, ◌≡◌, ◌≢◌, refl, ltb, if◌then◌else◌, [], ◌∷◌, none, some, find_where, any_where,
  delete_where,
}
use omnidrive.Access.{
  Accounts, UserSession, VaultMemberRecord, AuthorizedCaller, member, admin, new_session,
  create_user_session, validate_user_session, require_role, authenticate_session, get_vault_member,
  role_from_str, grant, satisfies, delete_user_sessions_for_user, remove_vault_member,
}
use omnidrive.Access.Sessions.{create-validate}
use omnidrive.Access.Revocation.{
  Authorized, require_role-Authorized, delete_sessions-revokes, remove_member-revokes,
}

abbrev person : String → String → VaultMemberRecord
person user_id role = record {
  user_id = user_id;
  vault_id = "v";
  role = role;
  invited_by = none;
  joined_at = 0;
}

abbrev accounts : Accounts
accounts = record {
  users = "ann" ∷ "bob" ∷ [];
  user_sessions = new_session 0 "t1" "ann" "d1" 100 ∷ new_session 0 "t2" "bob" "d2" 50 ∷ [];
  vault_members = person "ann" "admin" ∷ person "bob" "member" ∷ [];
  vault_state = some "v";
}

abbrev ann : AuthorizedCaller
ann = record { user_id = "ann"; device_id = "d1"; vault_id = "v"; role = admin }

require_role-Authorized_example : Authorized 10 (some "Bearer t1") member accounts ann
unfolding require_role authenticate_session validate_user_session find_where get_vault_member
    role_from_str grant satisfies
require_role-Authorized_example =
    require_role-Authorized 10 (some "Bearer t1") member accounts ann refl

delete_sessions-revokes_example : ann.user_id ≢ "bob"
unfolding require_role authenticate_session validate_user_session find_where get_vault_member
    role_from_str grant satisfies delete_user_sessions_for_user delete_where
delete_sessions-revokes_example =
    delete_sessions-revokes "bob" accounts 10 (some "Bearer t1") member ann refl

remove_member-revokes_example : ann.user_id ≢ "bob"
unfolding require_role authenticate_session validate_user_session find_where get_vault_member
    role_from_str grant satisfies remove_vault_member delete_where
remove_member-revokes_example =
    remove_member-revokes "bob" "v" accounts 10 (some "Bearer t1") member ann refl refl

abbrev created : UserSession
created = new_session 10 "t3" "bob" "d3" 60

abbrev with_created : Accounts
with_created = (create_user_session 10 "t3" "bob" "d3" 60 accounts).1

create-validate_example :
    validate_user_session 30 "t3" with_created ≡ (if ltb 30 (10 + 60) then some created else none)
unfolding create_user_session any_where
create-validate_example =
    create-validate 10 60 "t3" "bob" "d3" created accounts with_created refl 30
