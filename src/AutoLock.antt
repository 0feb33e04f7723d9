-- ===== src/AutoLock.antt =====
-- The idle timeout that locks the vault: angeld/src/auto_lock.rs, angeld/src/lock_flow.rs and the
-- status and the timeout setter of angeld/src/api/auto_lock.rs. Times are in s since the start of
-- the daemon (`now_secs`).
mod Minutes
pub mod Presets
pub mod Idle
unfoldable pub use Minutes.*
use omnidrive.Prelude.{
  ℕ, suc, ◌-◌, ◌*◌, ◌/◌, String, Bool, false, not, Option, none, some, List, [], ◌∷◌, ◌++◌, str_eq,
  ltb, leb, ◌==◌, if◌then◌else◌, unwrap_or,
}
use omnidrive.Result.{Result, ok, err}

abbrev pub warning_threshold_secs : ℕ
warning_threshold_secs = 60

pub data AutoLockError : Type 0 where
  invalid_preset : ℕ → AutoLockError

pub data LockReason : Type 0 where
  logout : LockReason
  idle_timeout : LockReason
  win_session_lock : LockReason
  manual_user_action : LockReason

-- The action and the details of the audit entry.
unfoldable pub audit : LockReason → String × Option String
audit logout = ("logout", none)
audit idle_timeout = ("auto_lock", some "{\"reason\":\"idle_timeout\"}")
audit win_session_lock = ("auto_lock", some "{\"reason\":\"win_session_lock\"}")
audit manual_user_action = ("vault_lock", some "{\"reason\":\"manual\"}")

pub record AuditLog : Type 0 where
  pub vault_id : String
  pub action : String
  pub actor_user_id : Option String
  pub actor_device_id : Option String
  pub details : Option String

-- What `get_vault_params` answers: the vault_id, no row, or an error.
pub data VaultRead : Type 0 where
  vault_row : String → VaultRead
  no_row : VaultRead
  read_failed : VaultRead

-- The monitor's two atomics, whether the key store holds a key, the system_config value of
-- `vault.auto_lock_idle_min`, the audit log, and the number of teardown tasks spawned.
pub record Monitor : Type 0 where
  pub last_activity : ℕ
  pub idle_timeout_secs : ℕ
  pub unlocked : Bool
  pub stored_minutes : Option String
  pub audit_logs : List AuditLog
  pub teardowns : ℕ

abbrev pub is_stored_as : Option String → String → Bool
is_stored_as none text = false
is_stored_as (some v) text = str_eq v text

-- `init`, with the override of the debug build as it is parsed (a positive number of minutes) and
-- the state that the daemon starts from.
unfoldable pub init : Option ℕ → Monitor → Monitor
init env_override_min m =
    let db_minutes = resolve_minutes_from_db m.stored_minutes in
    record m {
      last_activity = 0;
      idle_timeout_secs = unwrap_or env_override_min db_minutes * 60;
      stored_minutes =
          if is_stored_as m.stored_minutes (to_string db_minutes)
          then m.stored_minutes
          else some (to_string db_minutes);
    }

unfoldable pub set_timeout_minutes : ℕ → Monitor → Result AutoLockError (Unit {0}) × Monitor
set_timeout_minutes minutes m =
    if not (is_preset minutes) then (err (invalid_preset minutes), m) else (
      ok tt,
      record m { stored_minutes = some (to_string minutes); idle_timeout_secs = minutes * 60 },
    )

unfoldable pub touch : ℕ → Monitor → Monitor
touch now m = record m { last_activity = now }

unfoldable pub remaining_secs : ℕ → Monitor → ℕ
remaining_secs now m =
    if m.last_activity == 0
    then m.idle_timeout_secs
    else m.idle_timeout_secs - (now - m.last_activity)

abbrev pub actor_user : Option (String × String) → Option String
actor_user none = none
actor_user (some (user_id, device_id)) = some user_id

abbrev pub actor_device : Option (String × String) → Option String
actor_device none = none
actor_device (some (user_id, device_id)) = some device_id

-- The audit entry; `insert_ok` says whether the INSERT succeeds. A failure is logged.
abbrev pub emit_audit :
    VaultRead → Bool → LockReason → Option (String × String) → List AuditLog → List AuditLog
emit_audit (vault_row vault_id) insert_ok reason actor logs =
    if insert_ok
    then logs
      ++ (record {
        vault_id = vault_id;
        action = (audit reason).0;
        actor_user_id = actor_user actor;
        actor_device_id = actor_device actor;
        details = (audit reason).1;
      }
          ∷ [])
    else logs
emit_audit no_row insert_ok reason actor logs = logs
emit_audit read_failed insert_ok reason actor logs = logs

unfoldable pub force_lock_and_dismount :
    VaultRead → Bool → LockReason → Option (String × String) → Monitor → Bool × Monitor
force_lock_and_dismount vault insert_ok reason actor m = (
  m.unlocked,
  record m {
    unlocked = false;
    audit_logs =
        if m.unlocked then emit_audit vault insert_ok reason actor m.audit_logs else m.audit_logs;
    teardowns = if m.unlocked then suc m.teardowns else m.teardowns;
  },
)

-- One pass of `run_tick_loop` behind its sleep.
unfoldable pub run_tick : VaultRead → Bool → ℕ → Monitor → Monitor
run_tick vault insert_ok now m =
    let locked = (force_lock_and_dismount vault insert_ok idle_timeout none m).1 in
    if ltb (now - m.last_activity) m.idle_timeout_secs
    then m
    else (if not m.unlocked then m else locked)

-- The state of `get_status`.
pub data StatusState : Type 0 where
  locked : StatusState
  expired : StatusState
  warning : StatusState
  active : StatusState

unfoldable pub get_status : ℕ → Monitor → ℕ × ℕ × StatusState
get_status now m =
    let rem = remaining_secs now m in
    let minutes = m.idle_timeout_secs / 60 in
    (
      if leb minutes u32_max then minutes else default_idle_min,
      rem,
      (if not m.unlocked
          then locked
          else (if rem == 0
              then expired
              else (if leb rem warning_threshold_secs then warning else active))),
    )
