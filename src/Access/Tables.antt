-- ===== src/Access/Tables.antt =====
-- The user_sessions statements of angeld/src/db/sessions.rs and the vault_members statements of
-- angeld/src/db/users.rs. Times and TTLs are in s and not negative; every caller passes
-- SESSION_TTL_SECONDS.
use omnidrive.Prelude.{
  ℕ, ◌+◌, String, Bool, true, ◌&&◌, ◌||◌, not, Option, none, some, List, [], ◌∷◌, ◌++◌, str_eq, ltb,
  leb, if◌then◌else◌, select_where, update_where, delete_where, count_where, find_where, any_where,
  order_by,
}
use omnidrive.Result.{Result, ok, err}

pub record UserSession : Type 0 where
  pub token : String
  pub user_id : String
  pub device_id : String
  pub created_at : ℕ
  pub expires_at : ℕ

pub record VaultMemberRecord : Type 0 where
  pub user_id : String
  pub vault_id : String
  pub role : String
  pub invited_by : Option String
  pub joined_at : ℕ

-- The tables; of users their ids, of vault_state its vault_id.
pub record Accounts : Type 0 where
  pub users : List String
  pub user_sessions : List UserSession
  pub vault_members : List VaultMemberRecord
  pub vault_state : Option String

-- A primary key or a foreign key refuses a row.
pub data AccountError : Type 0 where
  constraint_failed : AccountError

abbrev pub session_ttl_seconds : ℕ
session_ttl_seconds = 86_400

abbrev pub has_token : String → UserSession → Bool
has_token token s = str_eq s.token token

abbrev pub is_live_session : ℕ → String → UserSession → Bool
is_live_session now token s = has_token token s && ltb now s.expires_at

abbrev pub set_sessions : Accounts → List UserSession → Accounts
set_sessions a ss = record a { user_sessions = ss }

abbrev pub new_session : ℕ → String → String → String → ℕ → UserSession
new_session now token user_id device_id ttl = record {
  token = token;
  user_id = user_id;
  device_id = device_id;
  created_at = now;
  expires_at = now + ttl;
}

abbrev pub is_user : Accounts → String → Bool
is_user a user_id = any_where (str_eq user_id) a.users

unfoldable pub create_user_session :
    ℕ → String → String → String → ℕ → Accounts → Result AccountError UserSession × Accounts
create_user_session now token user_id device_id ttl a =
    let session = new_session now token user_id device_id ttl in
    if any_where (has_token token) a.user_sessions || not (is_user a user_id)
    then (err constraint_failed, a)
    else (ok session, set_sessions a (a.user_sessions ++ (session ∷ [])))

unfoldable pub validate_user_session : ℕ → String → Accounts → Option UserSession
validate_user_session now token a = find_where (is_live_session now token) a.user_sessions

abbrev pub renewed : ℕ → UserSession → UserSession
renewed expires_at s = record s { expires_at = expires_at }

unfoldable pub renew_user_session : ℕ → String → ℕ → Accounts → Bool × Accounts
renew_user_session now token ttl a = (
  ltb 0 (count_where (is_live_session now token) a.user_sessions),
  set_sessions a (update_where (is_live_session now token) (renewed (now + ttl)) a.user_sessions),
)

unfoldable pub delete_user_session : String → Accounts → Bool × Accounts
delete_user_session token a = (
  ltb 0 (count_where (has_token token) a.user_sessions),
  set_sessions a (delete_where (has_token token) a.user_sessions),
)

abbrev pub session_of : String → UserSession → Bool
session_of user_id s = str_eq s.user_id user_id

unfoldable pub delete_user_sessions_for_user : String → Accounts → ℕ × Accounts
delete_user_sessions_for_user user_id a = (
  count_where (session_of user_id) a.user_sessions,
  set_sessions a (delete_where (session_of user_id) a.user_sessions),
)

abbrev pub is_expired : ℕ → UserSession → Bool
is_expired now s = leb s.expires_at now

unfoldable pub cleanup_expired_sessions : ℕ → Accounts → ℕ × Accounts
cleanup_expired_sessions now a = (
  count_where (is_expired now) a.user_sessions,
  set_sessions a (delete_where (is_expired now) a.user_sessions),
)

abbrev pub member_of : String → String → VaultMemberRecord → Bool
member_of user_id vault_id m = str_eq m.user_id user_id && str_eq m.vault_id vault_id

abbrev pub set_members : Accounts → List VaultMemberRecord → Accounts
set_members a ms = record a { vault_members = ms }

-- A NULL reference is not checked.
abbrev is_user_or_null : Accounts → Option String → Bool
is_user_or_null a none = true
is_user_or_null a (some user_id) = is_user a user_id

abbrev new_member : ℕ → String → String → String → Option String → VaultMemberRecord
new_member now user_id vault_id role invited_by = record {
  user_id = user_id;
  vault_id = vault_id;
  role = role;
  invited_by = invited_by;
  joined_at = now;
}

unfoldable pub add_vault_member :
    ℕ
    → String
    → String
    → String
    → Option String
    → Accounts
    → Result AccountError (Unit {0}) × Accounts
add_vault_member now user_id vault_id role invited_by a =
    if any_where (member_of user_id vault_id) a.vault_members
      || not (is_user a user_id)
      || not (is_user_or_null a invited_by)
    then (err constraint_failed, a)
    else (
      ok tt,
      set_members a (a.vault_members ++ (new_member now user_id vault_id role invited_by ∷ [])),
    )

unfoldable pub get_vault_member : String → String → Accounts → Option VaultMemberRecord
get_vault_member user_id vault_id a = find_where (member_of user_id vault_id) a.vault_members

unfoldable pub count_vault_members : String → Accounts → ℕ
count_vault_members vault_id a = count_where (λ m. str_eq m.vault_id vault_id) a.vault_members

unfoldable pub list_vault_members : String → Accounts → List VaultMemberRecord
list_vault_members vault_id a =
    order_by (λ m n. leb m.joined_at n.joined_at)
      (select_where (λ m. str_eq m.vault_id vault_id) a.vault_members)

unfoldable pub update_vault_member_role : String → String → String → Accounts → Bool × Accounts
update_vault_member_role user_id vault_id new_role a = (
  ltb 0 (count_where (member_of user_id vault_id) a.vault_members),
  set_members a (
      update_where (member_of user_id vault_id) (λ m. record m { role = new_role })
        a.vault_members),
)

unfoldable pub remove_vault_member : String → String → Accounts → Bool × Accounts
remove_vault_member user_id vault_id a = (
  ltb 0 (count_where (member_of user_id vault_id) a.vault_members),
  set_members a (delete_where (member_of user_id vault_id) a.vault_members),
)
