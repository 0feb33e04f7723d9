-- ===== src/CloudGuard/Config.antt =====
-- The configuration that the circuit breaker keeps and reads: the suspension and the runtime flags of
-- angeld/src/cloud_guard.rs over the system_config statements of angeld/src/db/system_config.rs.
use Prim.Native.Char.{code}
use omnidrive.Prelude.{
  ℕ, String, Bool, true, false, ◌&&◌, ◌||◌, not, Option, none, some, List, [], ◌∷◌, ◌++◌, str_eq,
  leb, ◌==◌, if◌then◌else◌, update_where, find_where, any_where,
}
use omnidrive.Int64.{ℤ}

-- cloud_usage_daily
pub record CloudUsageDaily : Type 0 where
  pub day_epoch : ℕ
  pub read_ops : ℤ
  pub write_ops : ℤ
  pub egress_bytes : ℤ
  pub updated_at : ℕ

-- Also the three limits of a day, and the usage of the session.
pub record CloudUsage : Type 0 where
  pub read_ops : ℤ
  pub write_ops : ℤ
  pub egress_bytes : ℤ

pub record CloudUsageApplyResult : Type 0 where
  pub day_epoch : ℕ
  pub read_ops : ℤ
  pub write_ops : ℤ
  pub egress_bytes : ℤ
  pub allowed : Bool

-- A stored config value: a plain text, or the formatted report of a tripped breaker.
pub data ConfigText : Type 0 where
  plain : String → ConfigText
  tripped : CloudUsageApplyResult → CloudUsage → ConfigText

-- system_config
pub record SystemConfig : Type 0 where
  pub config_key : String
  pub config_value : ConfigText
  pub created_at : ℕ
  pub updated_at : ℕ

-- The two tables and the usage of the session, which lives in memory.
pub record Guard : Type 0 where
  pub system_config : List SystemConfig
  pub cloud_usage_daily : List CloudUsageDaily
  pub session_usage : CloudUsage

-- The fields of `AppConfig` that the guard reads; the limits are u64.
pub record GuardConfig : Type 0 where
  pub dry_run_active : Bool
  pub cloud_daily_read_ops_limit : ℕ
  pub cloud_daily_write_ops_limit : ℕ
  pub cloud_daily_egress_bytes_limit : ℕ
  pub cloud_max_single_upload_bytes : ℕ

abbrev pub cloud_suspended : String
cloud_suspended = "cloud_suspended"

abbrev pub cloud_suspend_reason : String
cloud_suspend_reason = "cloud_suspend_reason"

abbrev pub dry_run_active_key : String
dry_run_active_key = "dry_run_active"

abbrev pub has_key : String → SystemConfig → Bool
has_key key c = str_eq c.config_key key

abbrev value_of : Option SystemConfig → Option ConfigText
value_of none = none
value_of (some c) = some c.config_value

unfoldable pub get_system_config_value : String → Guard → Option ConfigText
get_system_config_value key g = value_of (find_where (has_key key) g.system_config)

abbrev pub overwrite : ConfigText → ℕ → SystemConfig → SystemConfig
overwrite value now c = record c { config_value = value; updated_at = now }

abbrev pub new_config : String → ConfigText → ℕ → SystemConfig
new_config key value now = record {
  config_key = key;
  config_value = value;
  created_at = now;
  updated_at = now;
}

-- INSERT … ON CONFLICT(config_key) DO UPDATE
unfoldable pub set_system_config_value : ℕ → String → ConfigText → Guard → Guard
set_system_config_value now key value g =
    if any_where (has_key key) g.system_config
    then record g {
      system_config = update_where (has_key key) (overwrite value now) g.system_config;
    }
    else (record g { system_config = g.system_config ++ (new_config key value now ∷ []) })

-- `value == "1"`
abbrev pub is_one : Option ConfigText → Bool
is_one none = false
is_one (some (plain s)) = str_eq s "1"
is_one (some (tripped r l)) = false

-- The Unicode property White_Space, which `trim` removes.
unfoldable pub is_whitespace : ℕ → Bool
is_whitespace c =
    (leb 9 c && leb c 13)
    || c == 0x20
    || c == 0x85
    || c == 0xa0
    || c == 0x1680
    || (leb 0x2000 c && leb c 0x200a)
    || c == 0x2028
    || c == 0x2029
    || c == 0x202f
    || c == 0x205f
    || c == 0x3000

unfoldable pub is_blank_text : String → Bool
unfolding is_whitespace
is_blank_text String.[] = true
is_blank_text (String.◌∷◌ c s) = is_whitespace (code c) && is_blank_text s

-- `value.trim().is_empty()`; the report of a tripped breaker begins with a word.
abbrev pub is_blank : ConfigText → Bool
is_blank (plain s) = is_blank_text s
is_blank (tripped r l) = false

unfoldable pub clear_cloud_suspension : ℕ → Guard → Guard
clear_cloud_suspension now g =
    set_system_config_value now cloud_suspend_reason (plain "")
      (set_system_config_value now cloud_suspended (plain "0") g)

unfoldable pub set_cloud_suspension : ℕ → ConfigText → Guard → Guard
set_cloud_suspension now reason g =
    set_system_config_value now cloud_suspend_reason reason
      (set_system_config_value now cloud_suspended (plain "1") g)

unfoldable pub sync_runtime_flags : ℕ → Bool → Guard → Guard
sync_runtime_flags now dry_run g =
    let flagged =
      set_system_config_value now dry_run_active_key (plain (if dry_run then "1" else "0")) g in
    if not dry_run then clear_cloud_suspension now flagged else flagged

unfoldable pub is_cloud_suspended : Guard → Bool
is_cloud_suspended g = is_one (get_system_config_value cloud_suspended g)
