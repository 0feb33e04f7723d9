-- ===== src/CloudGuard/Budget.antt =====
-- How much the cloud may be used in a day.
use omnidrive.Prelude.{
  ℕ, ◌+◌, ◌≤◌, ◌<◌, ◌≡◌, refl, ap, ◌∙◌, String, Bool, true, false, ◌&&◌, List, [], ◌∷◌, ◌==◌,
  if◌then◌else◌, arith, Bool-cases, inl, inr, any_where,
}
use omnidrive.Int64.{ℤ, pos, negsuc, lez, saturating_add, from_u64, i64_max, above, below}
use omnidrive.CloudGuard.{
  Guard, GuardConfig, GuardOperation, read, write, GuardDecision, allowed, CloudUsage,
  CloudUsageApplyResult, ConfigText, tripped, plain, within, apply_cloud_usage_delta_with_limits,
  set_cloud_suspension, set_system_config_value, cloud_suspended, cloud_suspend_reason, has_key,
  delta_of, limits_of, settle, current_decision, current_day_epoch, dry_run_on, is_cloud_suspended,
}
use omnidrive.CloudGuard.Quota.{usage, plus, apply_cloud_usage_delta_with_limits_lem}

abbrev pub is_allowed : GuardDecision → Bool
is_allowed allowed = true
is_allowed _ = false

usage-set :
    (now : ℕ) (key : String) (v : ConfigText) (g : Guard)
    → (set_system_config_value now key v g).cloud_usage_daily ≡ g.cloud_usage_daily
unfolding set_system_config_value
usage-set now key v g = elim (Bool-cases (any_where (has_key key) g.system_config)) [
  | inl e ↦ rw e
  | inr e ↦ rw e
]

settle-usage :
    (now other : ℕ) (delta limits : CloudUsage) (a : CloudUsageApplyResult × Guard)
    → let s = settle now delta limits a in
      (is_allowed s.0 ≡ a.0.allowed)
      × (usage other s.1.cloud_usage_daily ≡ usage other a.1.cloud_usage_daily)
unfolding settle set_cloud_suspension
settle-usage now other delta limits (r, g) = ground (
  arith,
  ap (usage other) (
      usage-set now cloud_suspend_reason (tripped r limits)
        (set_system_config_value now cloud_suspended (plain "1") g)
      ∙ usage-set now cloud_suspended (plain "1") g),
)

counted :
    (answer fits today : Bool) (u before after : CloudUsage)
    → answer ≡ fits
    → u ≡ (if today && fits then after else before)
    → (u ≡ (if today && answer then after else before)) × (answer ≡ true → fits ≡ true)
counted answer fits today u before after e h = rw e (h, λ k. k)

-- An allowed decision counts its delta for the day of the call, within the limits; any other
-- decision counts nothing.
pub current_decision-usage :
    (now other : ℕ) (c : GuardConfig) (op : GuardOperation) (g : Guard)
    → let s = current_decision now c op g in
      let after = plus (usage (current_day_epoch now) g.cloud_usage_daily) (delta_of op) in
      (usage other s.1.cloud_usage_daily ≡ (
        if other == current_day_epoch now && is_allowed s.0
        then after
        else usage other g.cloud_usage_daily))
      × (is_allowed s.0 ≡ true → within after (limits_of c) ≡ true)
unfolding current_decision
current_decision-usage now other c op g = elim (Bool-cases (dry_run_on c g)) [
  | inl d ↦ rw d (ground arith, λ h. cc)
  | inr d ↦ elim (Bool-cases (is_cloud_suspended g)) [
    | inl s ↦ rw (d, s) (ground arith, λ h. cc)
    | inr s ↦
        let a =
          apply_cloud_usage_delta_with_limits now (current_day_epoch now) (delta_of op)
            (limits_of c) g in
        let (result, rest) =
          apply_cloud_usage_delta_with_limits_lem now (current_day_epoch now) other (delta_of op)
            (limits_of c) g in
        let (same, kept) = settle-usage now other (delta_of op) (limits_of c) a in
        let fits : a.0.allowed
            ≡ within (plus (usage (current_day_epoch now) g.cloud_usage_daily) (delta_of op))
                (limits_of c) =
          ap (λ (r : CloudUsageApplyResult). r.allowed) result in
        rw (d, s)
          (counted (is_allowed (settle now (delta_of op) (limits_of c) a).0) _
            (other == current_day_epoch now) _ _ _ (same ∙ fits) (kept ∙ rest))
  ]
]

-- The writes that a history of calls was allowed on a day.
unfoldable pub writes_on : ℕ → GuardConfig → List (ℕ × GuardOperation) → Guard → ℕ
writes_on day c [] g = 0
writes_on day c ((now, op) ∷ h) g =
    let (d, g') = current_decision now c op g in
    (if day == current_day_epoch now && is_allowed d then above ((delta_of op).write_ops) else 0)
    + writes_on day c h g'

delta_of-pos : (op : GuardOperation) → below ((delta_of op).write_ops) ≡ 0
unfolding delta_of
delta_of-pos (read count bytes) = refl
delta_of-pos (write (pos n)) = refl
delta_of-pos (write (negsuc n)) = refl

add_within :
    (a b : ℤ) (l : ℕ)
    → below a ≡ 0
    → below b ≡ 0
    → l < i64_max
    → lez (saturating_add a b) (from_u64 l) ≡ true
    → (saturating_add a b ≡ pos (above a + above b)) × (above a + above b ≤ l)
unfolding saturating_add from_u64
add_within (pos m) (pos n) l ha hb small fits = ground arith
add_within (negsuc m) b l ha hb small fits = absurd (omega arith)
add_within (pos m) (negsuc n) l ha hb small fits = absurd (omega arith)

middle : (x y z : Bool) → (x && y && z) ≡ true → y ≡ true
middle x y z h = ground arith

within-write :
    (u d : CloudUsage) (c : GuardConfig)
    → below u.write_ops ≡ 0
    → below d.write_ops ≡ 0
    → c.cloud_daily_write_ops_limit < i64_max
    → within (plus u d) (limits_of c) ≡ true
    → ((plus u d).write_ops ≡ pos (above u.write_ops + above d.write_ops))
      × (above u.write_ops + above d.write_ops ≤ c.cloud_daily_write_ops_limit)
unfolding limits_of
within-write u d c hu hd small fits =
    add_within u.write_ops d.write_ops c.cloud_daily_write_ops_limit hu hd small (middle _ _ _ fits)

-- The write counter of a day is not negative and within the limit.
abbrev pub WithinWrites : ℕ → GuardConfig → Guard → Type 0
WithinWrites day c g =
    (below ((usage day g.cloud_usage_daily).write_ops) ≡ 0)
    × (above ((usage day g.cloud_usage_daily).write_ops) ≤ c.cloud_daily_write_ops_limit)

step-writes :
    (day now : ℕ) (c : GuardConfig) (op : GuardOperation) (g : Guard)
    → c.cloud_daily_write_ops_limit < i64_max
    → WithinWrites day c g
    → let (d, g') = current_decision now c op g in
      WithinWrites day c g'
      × (above ((usage day g'.cloud_usage_daily).write_ops)
          ≡ above ((usage day g.cloud_usage_daily).write_ops)
            + (if day == current_day_epoch now && is_allowed d
                then above ((delta_of op).write_ops)
                else 0))
step-writes day now c op g small (sign, bound) =
    elim (Bool-cases (day == current_day_epoch now && is_allowed (current_decision now c op g).0)) [
      | inl hit ↦
          let today : current_day_epoch now ≡ day = ground arith in
          let allow : is_allowed (current_decision now c op g).0 ≡ true = ground arith in
          let (result, fits) = current_decision-usage now day c op g in
          let (exact, most) =
            within-write (usage day g.cloud_usage_daily) (delta_of op) c sign (delta_of-pos op)
              small (rw today at (fits allow)) in
          let same : usage day (current_decision now c op g).1.cloud_usage_daily
              ≡ plus (usage day g.cloud_usage_daily) (delta_of op) =
            rw (hit, today) at result in
          rw (hit, same, exact) ((refl, most), refl)
      | inr miss ↦
          let same : usage day (current_decision now c op g).1.cloud_usage_daily
              ≡ usage day g.cloud_usage_daily =
            rw miss at (current_decision-usage now day c op g).0 in
          rw (miss, same) ((sign, bound), omega arith)
    ]

-- Let the daily limit of writes be below i64::MAX, and the count of a day not negative and within
-- it. Over any history of decisions, the writes that are allowed on the day, together with those
-- that it had before, are at most the limit.
pub writes_on-le-limit :
    (day : ℕ) (c : GuardConfig) (h : List (ℕ × GuardOperation)) (g : Guard)
    → c.cloud_daily_write_ops_limit < i64_max
    → WithinWrites day c g
    → above ((usage day g.cloud_usage_daily).write_ops) + writes_on day c h g
      ≤ c.cloud_daily_write_ops_limit
unfolding writes_on
writes_on-le-limit day c [] g small w = omega arith
writes_on-le-limit day c ((now, op) ∷ h) g small w =
    let (kept, grown) = step-writes day now c op g small w in
    omega (arith, writes_on-le-limit day c h (current_decision now c op g).1 small kept)
