-- ===== src/Access.antt =====
-- Who may call the daemon: the user_sessions statements of angeld/src/db/sessions.rs, the
-- vault_members statements of angeld/src/db/users.rs and the checks of angeld/src/acl.rs, which the
-- extractors of angeld/src/api/gate.rs call. Times and TTLs are in s and not negative; every caller
-- passes SESSION_TTL_SECONDS.
mod Tables
pub mod Sessions
pub mod Revocation
unfoldable pub use Tables.*
use Prim.Native.String.{len, slice}
use package.text.Mathlib.Text.{starts_with}
use omnidrive.Prelude.{
  ℕ, String, Bool, true, not, Option, none, some, str_eq, leb, if◌then◌else◌, is_some,
}
use omnidrive.Result.{Result, ok, err}

pub data Role : Type 0 where
  viewer : Role
  member : Role
  admin : Role
  owner : Role

-- The discriminants.
abbrev pub level : Role → ℕ
level viewer = 0
level member = 1
level admin = 2
level owner = 3

unfoldable pub role_from_str : String → Option Role
role_from_str s =
    if str_eq s "owner"
    then some owner
    else (if str_eq s "admin"
        then some admin
        else (if str_eq s "member"
            then some member
            else (if str_eq s "viewer" then some viewer else none)))

unfoldable pub satisfies : Role → Role → Bool
satisfies self required = leb (level required) (level self)

-- `Unauthorized` is 401, `Forbidden` 403 (the second of the two is the text with both roles), a bad
-- request 400, an unknown role 500.
pub data ApiError : Type 0 where
  unauthorized : String → ApiError
  forbidden : String → ApiError
  role_forbidden : Role → Role → ApiError
  bad_request : String → String → ApiError
  unknown_role : String → ApiError

pub record AuthorizedCaller : Type 0 where
  pub user_id : String
  pub device_id : String
  pub vault_id : String
  pub role : Role

-- `s.strip_prefix("Bearer ")`
abbrev pub strip_bearer : String → Option String
strip_bearer s = if starts_with s "Bearer " then some (slice s 7 (len s)) else none

-- The token of the `authorization` header, where it is there and is text.
abbrev pub bearer : Option String → Option String
bearer none = none
bearer (some s) = strip_bearer s

abbrev pub session_or_unauthorized : Option UserSession → Result ApiError UserSession
session_or_unauthorized none = err (unauthorized "invalid or expired session token")
session_or_unauthorized (some s) = ok s

abbrev pub authenticate_token : ℕ → Option String → Accounts → Result ApiError UserSession
authenticate_token now none a = err (unauthorized "missing or malformed Authorization header")
authenticate_token now (some token) a = session_or_unauthorized (validate_user_session now token a)

unfoldable pub authenticate_session : ℕ → Option String → Accounts → Result ApiError UserSession
authenticate_session now authorization a = authenticate_token now (bearer authorization) a

abbrev pub is_member_in : Option String → String → Accounts → Bool
is_member_in none user_id a = true
is_member_in (some vault_id) user_id a = is_some (get_vault_member user_id vault_id a)

unfoldable pub is_vault_member : String → Accounts → Bool
is_vault_member user_id a = is_member_in a.vault_state user_id a

unfoldable pub ensure_vault_member : String → Accounts → Result ApiError (Unit {0})
ensure_vault_member user_id a =
    if is_vault_member user_id a then ok tt else err (forbidden "user is not a vault member")

-- `Result::and_then`, as `?` chains the checks.
abbrev pub check_then {ℓ κ} :
    {A : Type ℓ} {B : Type κ} → Result ApiError A → (A → Result ApiError B) → Result ApiError B
check_then (ok a) f = f a
check_then (err e) f = err e

unfoldable pub require_session : ℕ → Option String → Accounts → Result ApiError UserSession
require_session now authorization a =
    check_then (authenticate_session now authorization a)
      λ s. check_then (ensure_vault_member s.user_id a) λ u. ok s

unfoldable pub require_session_no_touch : ℕ → Option String → Accounts → Result ApiError UserSession
require_session_no_touch now authorization a =
    check_then (authenticate_session now authorization a)
      λ s. check_then (ensure_vault_member s.user_id a) λ u. ok s

unfoldable pub grant : Role → UserSession → String → Role → Result ApiError AuthorizedCaller
grant min_role s vault_id role =
    if satisfies role min_role
    then ok
        (record { user_id = s.user_id; device_id = s.device_id; vault_id = vault_id; role = role })
    else err (role_forbidden min_role role)

abbrev pub known_role : String → Option Role → Result ApiError Role
known_role text none = err (unknown_role text)
known_role text (some role) = ok role

abbrev pub admit :
    Role → UserSession → String → Option VaultMemberRecord → Result ApiError AuthorizedCaller
admit min_role s vault_id none = err (forbidden "user is not a vault member")
admit min_role s vault_id (some m) =
    check_then (known_role m.role (role_from_str m.role)) λ role. grant min_role s vault_id role

abbrev pub authorize :
    Role → UserSession → Option String → Accounts → Result ApiError AuthorizedCaller
authorize min_role s none a = err (bad_request "vault_not_initialized" "vault not initialized")
authorize min_role s (some vault_id) a =
    admit min_role s vault_id (get_vault_member s.user_id vault_id a)

unfoldable pub require_role : ℕ → Option String → Role → Accounts → Result ApiError AuthorizedCaller
require_role now authorization min_role a =
    check_then (authenticate_session now authorization a) λ s. authorize min_role s a.vault_state a
