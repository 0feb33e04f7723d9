-- ===== src/Examples/Guard.antt =====
-- The circuit breaker under a limit of two writes a day.
use omnidrive.Prelude.{
  ℕ, ◌+◌, false, ◌&&◌, ◌≡◌, ◌≤◌, refl, if◌then◌else◌, ◌==◌, arith, List, [], ◌∷◌, find_where,
  any_where,
}
use omnidrive.Int64.{pos, above, saturating_add, from_u64}
use omnidrive.CloudGuard.{
  CloudUsage, GuardOperation, write, read, plain, current_decision, current_day_epoch,
  cloud_suspend_reason, cloud_suspended, dry_run_active_key, set_cloud_suspension,
  clear_cloud_suspension, is_cloud_suspended, get_system_config_value, set_system_config_value,
  apply_cloud_usage_delta_with_limits, apply_result, delta_of, limits_of, within, quota_exceeded,
  suspended, allowed, tripped, dry_run_on, ensure_day, next_usage, settle, is_blank_text,
  is_whitespace,
}
use omnidrive.CloudGuard
use omnidrive.CloudGuard.Quota.{usage, plus, apply_cloud_usage_delta_with_limits_lem}
use omnidrive.CloudGuard.Breaker.{tripped_stays}
use omnidrive.CloudGuard.Budget.{writes_on, writes_on-le-limit}
use omnidrive.Examples.{config, guard}

abbrev history : List (ℕ × GuardOperation)
history =
    (10, write (pos 1))
    ∷ (20, write (pos 1))
    ∷ (30, write (pos 1))
    ∷ (40, read (pos 1) (pos 10))
    ∷ []

writes_on-le-limit_example :
    above ((usage 0 guard.cloud_usage_daily).write_ops) + writes_on 0 config history guard ≤ 2
unfolding usage find_where
writes_on-le-limit_example =
    writes_on-le-limit 0 config history guard (omega arith) (refl, omega arith)

abbrev suspended_guard : CloudGuard.Guard
suspended_guard = set_cloud_suspension 10 (plain "test") guard

abbrev over : CloudGuard.Guard
over = (current_decision 10 config (write (pos 3)) guard).1

abbrev report : CloudGuard.ConfigText
report =
    tripped
      (apply_result 0 (record { read_ops = pos 0; write_ops = pos 0; egress_bytes = pos 0 }) false)
      (limits_of config)

tripped_stays_example :
    current_decision 20 config (read (pos 1) (pos 10)) over ≡ (suspended report, over)
unfolding current_decision dry_run_on get_system_config_value find_where is_cloud_suspended settle
    apply_cloud_usage_delta_with_limits next_usage saturating_add ensure_day any_where delta_of
    limits_of from_u64
tripped_stays_example =
    tripped_stays 10 20 config (write (pos 3)) (read (pos 1) (pos 10)) guard {reason = report}
      {g' = over} refl

abbrev one_write : CloudUsage
one_write = delta_of (write (pos 1))

apply_cloud_usage_delta_with_limits_lem_example :
    let a = apply_cloud_usage_delta_with_limits 10 0 one_write (limits_of config) guard in
    let before = usage 0 guard.cloud_usage_daily in
    let fits = within (plus before one_write) (limits_of config) in
    (a.0 ≡ apply_result 0 (if fits then plus before one_write else before) fits)
    × (usage 0 a.1.cloud_usage_daily
        ≡ (if 0 == 0 && fits then plus before one_write else usage 0 guard.cloud_usage_daily))
apply_cloud_usage_delta_with_limits_lem_example =
    apply_cloud_usage_delta_with_limits_lem 10 0 0 one_write (limits_of config) guard
