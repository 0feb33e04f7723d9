-- ===== src/CloudGuard.antt =====
-- The cloud circuit breaker: angeld/src/cloud_guard.rs, with the system_config and
-- cloud_usage_daily statements of angeld/src/db/system_config.rs.
mod Config
pub mod Quota
pub mod Breaker
pub mod Budget
unfoldable pub use Config.*
use omnidrive.Prelude.{
  ℕ, ◌/◌, Bool, true, false, ◌&&◌, ◌||◌, not, Option, none, some, List, [], ◌∷◌, ◌++◌, ltb, ◌==◌,
  if◌then◌else◌, unwrap_or, update_where, find_where, any_where,
}
use omnidrive.Result.{Result, ok, err}
use omnidrive.Int64.{ℤ, pos, lez, saturating_add, max_zero, from_u64, is_zero, i64_max}

abbrev pub of_day : ℕ → CloudUsageDaily → Bool
of_day day r = r.day_epoch == day

unfoldable pub get_cloud_usage_for_day : ℕ → Guard → Option CloudUsageDaily
get_cloud_usage_for_day day g = find_where (of_day day) g.cloud_usage_daily

abbrev pub no_usage : ℕ → ℕ → CloudUsageDaily
no_usage day now = record {
  day_epoch = day;
  read_ops = pos 0;
  write_ops = pos 0;
  egress_bytes = pos 0;
  updated_at = now;
}

-- INSERT OR IGNORE
unfoldable pub ensure_day : ℕ → ℕ → List CloudUsageDaily → List CloudUsageDaily
ensure_day day now rows =
    if any_where (of_day day) rows then rows else rows ++ (no_usage day now ∷ [])

-- The usage that a delta would lead to.
unfoldable pub next_usage : CloudUsageDaily → CloudUsage → CloudUsage
next_usage r d = record {
  read_ops = saturating_add r.read_ops d.read_ops;
  write_ops = saturating_add r.write_ops d.write_ops;
  egress_bytes = saturating_add r.egress_bytes d.egress_bytes;
}

abbrev pub within : CloudUsage → CloudUsage → Bool
within u l =
    lez u.read_ops l.read_ops && lez u.write_ops l.write_ops && lez u.egress_bytes l.egress_bytes

abbrev pub usage_of : CloudUsageDaily → CloudUsage
usage_of r = record {
  read_ops = r.read_ops;
  write_ops = r.write_ops;
  egress_bytes = r.egress_bytes;
}

abbrev pub write_usage : CloudUsage → ℕ → CloudUsageDaily → CloudUsageDaily
write_usage u now r = record r {
  read_ops = u.read_ops;
  write_ops = u.write_ops;
  egress_bytes = u.egress_bytes;
  updated_at = now;
}

abbrev pub apply_result : ℕ → CloudUsage → Bool → CloudUsageApplyResult
apply_result day u allowed = record {
  day_epoch = day;
  read_ops = u.read_ops;
  write_ops = u.write_ops;
  egress_bytes = u.egress_bytes;
  allowed = allowed;
}

-- The part of the transaction behind the SELECT of the day's row.
abbrev pub apply_to :
    ℕ
    → ℕ
    → CloudUsage
    → CloudUsage
    → List CloudUsageDaily
    → CloudUsageDaily
    → CloudUsageApplyResult × List CloudUsageDaily
apply_to now day delta limits rows existing =
    let next = next_usage existing delta in
    if within next limits
    then (apply_result day next true, update_where (of_day day) (write_usage next now) rows)
    else (apply_result day (usage_of existing) false, rows)

-- The transaction; `fetch_one` finds the row that the INSERT made sure of.
unfoldable pub apply_cloud_usage_delta_with_limits :
    ℕ → ℕ → CloudUsage → CloudUsage → Guard → CloudUsageApplyResult × Guard
apply_cloud_usage_delta_with_limits now day delta limits g =
    let rows = ensure_day day now g.cloud_usage_daily in
    let existing = unwrap_or (find_where (of_day day) rows) (no_usage day now) in
    let (r, rows') = apply_to now day delta limits rows existing in
    (r, record g { cloud_usage_daily = rows' })

pub data GuardOperation : Type 0 where
  read : ℤ → ℤ → GuardOperation
  write : ℤ → GuardOperation

pub data GuardDecision : Type 0 where
  allowed : GuardDecision
  dry_run : GuardDecision
  suspended : ConfigText → GuardDecision
  quota_exceeded : ConfigText → GuardDecision

unfoldable pub delta_of : GuardOperation → CloudUsage
delta_of (read count bytes) = record {
  read_ops = max_zero count;
  write_ops = pos 0;
  egress_bytes = max_zero bytes;
}
delta_of (write count) = record {
  read_ops = pos 0;
  write_ops = max_zero count;
  egress_bytes = pos 0;
}

unfoldable pub limits_of : GuardConfig → CloudUsage
limits_of c = record {
  read_ops = from_u64 c.cloud_daily_read_ops_limit;
  write_ops = from_u64 c.cloud_daily_write_ops_limit;
  egress_bytes = from_u64 c.cloud_daily_egress_bytes_limit;
}

-- The clock in ms; a day is 86_400_000 ms.
abbrev pub current_day_epoch : ℕ → ℕ
current_day_epoch now = now / 86_400_000

abbrev pub default_reason : ConfigText
default_reason = plain "cloud operations are suspended by circuit breaker"

-- `.filter(|value| !value.trim().is_empty()).unwrap_or_else(default)`
abbrev pub reason_or_default : Option ConfigText → ConfigText
reason_or_default none = default_reason
reason_or_default (some t) = if is_blank t then default_reason else t

abbrev pub add_usage : CloudUsage → CloudUsage → CloudUsage
add_usage u d = record {
  read_ops = saturating_add u.read_ops d.read_ops;
  write_ops = saturating_add u.write_ops d.write_ops;
  egress_bytes = saturating_add u.egress_bytes d.egress_bytes;
}

unfoldable pub dry_run_on : GuardConfig → Guard → Bool
dry_run_on c g = c.dry_run_active || is_one (get_system_config_value dry_run_active_key g)

-- The two ends of `current_decision` behind the update of the usage.
unfoldable pub settle :
    ℕ → CloudUsage → CloudUsage → CloudUsageApplyResult × Guard → GuardDecision × Guard
settle now delta limits (r, g) =
    if not r.allowed
    then (quota_exceeded (tripped r limits), set_cloud_suspension now (tripped r limits) g)
    else (allowed, record g { session_usage = add_usage g.session_usage delta })

unfoldable pub current_decision : ℕ → GuardConfig → GuardOperation → Guard → GuardDecision × Guard
current_decision now c op g =
    if dry_run_on c g
    then (dry_run, g)
    else (if is_cloud_suspended g
        then (suspended (reason_or_default (get_system_config_value cloud_suspend_reason g)), g)
        else settle now (delta_of op) (limits_of c) (
            apply_cloud_usage_delta_with_limits now (current_day_epoch now) (delta_of op)
              (limits_of c) g))

-- The error texts of `try_authorize_read`.
pub data Refusal : Type 0 where
  dry_run_refusal : Refusal
  guard_refusal : ConfigText → Refusal

abbrev pub authorization : GuardDecision → Result Refusal (Unit {0})
authorization allowed = ok tt
authorization dry_run = err dry_run_refusal
authorization (suspended r) = err (guard_refusal r)
authorization (quota_exceeded r) = err (guard_refusal r)

unfoldable pub try_authorize_read : ℕ → GuardConfig → ℤ → Guard → Result Refusal (Unit {0}) × Guard
try_authorize_read now c bytes g =
    let (d, g') = current_decision now c (read (pos 1) (max_zero bytes)) g in (authorization d, g')

abbrev pub unlimited : CloudUsage
unlimited = record { read_ops = pos i64_max; write_ops = pos i64_max; egress_bytes = pos i64_max }

abbrev pub egress_delta : ℤ → CloudUsage
egress_delta bytes = record { read_ops = pos 0; write_ops = pos 0; egress_bytes = bytes }

unfoldable pub reconcile_read_bytes : ℕ → ℤ → Guard → Guard
reconcile_read_bytes now bytes g =
    if is_zero bytes
    then g
    else (let g' =
          (apply_cloud_usage_delta_with_limits now (current_day_epoch now) (egress_delta bytes)
            unlimited g).1 in
        record g' {
          session_usage = record (g'.session_usage) {
            egress_bytes = saturating_add g'.session_usage.egress_bytes bytes;
          };
        })

-- The message of the size guard holds both numbers.
unfoldable pub enforce_single_upload_size_limit : GuardConfig → ℕ → Result (ℕ × ℕ) (Unit {0})
enforce_single_upload_size_limit c size =
    if ltb c.cloud_max_single_upload_bytes size
    then err (size, c.cloud_max_single_upload_bytes)
    else ok tt
