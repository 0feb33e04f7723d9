-- ===== src/Invites.antt =====
-- Invite codes: the table invite_codes of angeld/src/db/invites.rs and the handler `post_vault_join`
-- of angeld/src/api/vault.rs, with `create_user` of angeld/src/db/users.rs and `create_device` of
-- angeld/src/db/devices.rs. Times are in s, they and the counts are not negative. Base64 decoding is
-- the argument `decode`; of a new user the id is kept, and the audit entry is not modelled.
use Prim.Native.String.{◌++◌ as join}
use omnidrive.Prelude.{
  ℕ, ◌+◌, String, Bool, true, false, ◌&&◌, ◌||◌, not, Option, none, some, List, [], ◌∷◌, ◌++◌,
  str_eq, ltb, leb, ◌==◌, if◌then◌else◌, length, select_where, update_where, delete_where,
  count_where, find_where, any_where, order_by,
}
use omnidrive.Result.{Result, ok, err, ◌>>=◌, ◌>>◌, guard, ok_or}
use omnidrive.Bytes.{Bytes}
use omnidrive.Access.{Accounts, AccountError, constraint_failed, is_user, add_vault_member}
pub mod Uses

pub record InviteCodeRecord : Type 0 where
  pub code : String
  pub vault_id : String
  pub created_by : String
  pub role : String
  pub max_uses : ℕ
  pub used_count : ℕ
  pub expires_at : Option ℕ
  pub created_at : ℕ

pub record DeviceRow : Type 0 where
  pub device_id : String
  pub user_id : String
  pub device_name : String
  pub public_key : Bytes
  pub created_at : ℕ

pub record Invites : Type 0 where
  pub invite_codes : List InviteCodeRecord
  pub devices : List DeviceRow
  pub accounts : Accounts

abbrev pub has_code : String → InviteCodeRecord → Bool
has_code code i = str_eq i.code code

-- The row's counter starts at zero; its creator is a user.
unfoldable pub create_invite_code :
    ℕ → InviteCodeRecord → Invites → Result AccountError (Unit {0}) × Invites
create_invite_code now row s =
    if any_where (has_code row.code) s.invite_codes || not (is_user s.accounts row.created_by)
    then (err constraint_failed, s)
    else (
      ok tt,
      record s {
        invite_codes = s.invite_codes ++ (record row { used_count = 0; created_at = now } ∷ []);
      },
    )

unfoldable pub get_invite_code : String → Invites → Option InviteCodeRecord
get_invite_code code s = find_where (has_code code) s.invite_codes

abbrev pub expired : ℕ → Option ℕ → Bool
expired now none = false
expired now (some t) = ltb t now

unfoldable pub is_invite_code_valid : ℕ → InviteCodeRecord → Bool
is_invite_code_valid now i =
    if leb i.max_uses i.used_count
    then false
    else (if expired now i.expires_at then false else true)

abbrev pub is_usable : String → InviteCodeRecord → Bool
is_usable code i = has_code code i && ltb i.used_count i.max_uses

abbrev pub used_once_more : InviteCodeRecord → InviteCodeRecord
used_once_more i = record i { used_count = i.used_count + 1 }

unfoldable pub consume_invite_code : String → Invites → Bool × Invites
consume_invite_code code s = (
  ltb 0 (count_where (is_usable code) s.invite_codes),
  record s { invite_codes = update_where (is_usable code) used_once_more s.invite_codes },
)

unfoldable pub list_invite_codes : String → Invites → List InviteCodeRecord
list_invite_codes vault_id s =
    order_by (λ (a b : InviteCodeRecord). leb b.created_at a.created_at)
      (select_where (λ (i : InviteCodeRecord). str_eq i.vault_id vault_id) s.invite_codes)

unfoldable pub delete_invite_code : String → Invites → Bool × Invites
delete_invite_code code s = (
  ltb 0 (count_where (has_code code) s.invite_codes),
  record s { invite_codes = delete_where (has_code code) s.invite_codes },
)

-- A refused statement leaves the tables; the handler logs it and goes on.
unfoldable pub create_user : String → Invites → Invites
create_user user_id s =
    if is_user s.accounts user_id
    then s
    else (record s { accounts = record s.accounts { users = s.accounts.users ++ (user_id ∷ []) } })

unfoldable pub create_device : ℕ → String → String → String → Bytes → Invites → Invites
create_device now device_id user_id device_name public_key s =
    if any_where (λ (d : DeviceRow). str_eq d.device_id device_id) s.devices
      || not (is_user s.accounts user_id)
    then s
    else (record s {
      devices =
          s.devices
          ++ (record {
            device_id = device_id;
            user_id = user_id;
            device_name = device_name;
            public_key = public_key;
            created_at = now;
          }
              ∷ []);
    })

unfoldable pub invite_member : ℕ → String → InviteCodeRecord → Invites → Invites
invite_member now user_id invite s = record s {
  accounts =
      (add_vault_member now user_id invite.vault_id invite.role (some invite.created_by)
        s.accounts).1;
}

pub record JoinRequest : Type 0 where
  pub invite_code : String
  pub device_id : String
  pub device_name : String
  pub public_key : String

pub record JoinResponse : Type 0 where
  pub user_id : String
  pub device_id : String
  pub role : String
  pub status : String

pub data JoinError : Type 0 where
  bad_request : String → JoinError

abbrev pub key_of_32 : Option Bytes → Option Bytes
key_of_32 none = none
key_of_32 (some pk) = if length pk == 32 then some pk else none

-- What the handler reads before it writes: the invite and the device's key.
unfoldable pub check_join :
    (String → Option Bytes)
    → ℕ
    → JoinRequest
    → Invites
    → Result JoinError (InviteCodeRecord × Bytes)
check_join decode now req s = do
  invite ← ok_or (get_invite_code req.invite_code s) (bad_request "invalid_invite_code")
  guard (is_invite_code_valid now invite) (bad_request "invite_expired_or_exhausted")
  public_key ← ok_or (key_of_32 (decode req.public_key)) (bad_request "invalid_public_key")
  ok (invite, public_key)

abbrev pub user_of : JoinRequest → String
user_of req = join "user-" req.device_id

-- What it writes; whether a use was left is not looked at.
unfoldable pub commit_join :
    ℕ → JoinRequest → InviteCodeRecord × Bytes → Invites → JoinResponse × Invites
commit_join now req (invite, public_key) s =
    let consumed = (consume_invite_code req.invite_code s).1 in
    let with_user = create_user (user_of req) consumed in
    let with_device =
      create_device now req.device_id (user_of req) req.device_name public_key with_user in
    (
      record {
        user_id = user_of req;
        device_id = req.device_id;
        role = invite.role;
        status = "pending_acceptance";
      },
      invite_member now (user_of req) invite with_device,
    )

-- An error of the check ends the request with nothing written.
abbrev pub settle_join :
    ℕ
    → JoinRequest
    → Result JoinError (InviteCodeRecord × Bytes)
    → Invites
    → Result JoinError JoinResponse × Invites
settle_join now req (err e) s = (err e, s)
settle_join now req (ok found) s = let done = commit_join now req found s in (ok done.0, done.1)

unfoldable pub post_vault_join :
    (String → Option Bytes) → ℕ → JoinRequest → Invites → Result JoinError JoinResponse × Invites
post_vault_join decode now req s = settle_join now req (check_join decode now req s) s
