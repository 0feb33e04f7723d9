-- ===== src/CloudGuard/Breaker.antt =====
-- The flags of the breaker in system_config, and what a decision does with them.
use omnidrive.Prelude.{
  ℕ, ◌≡◌, refl, String, true, false, some, str_eq, eq_iff, eq_refl, if◌then◌else◌, any_where, arith,
  Bool-cases, inl, inr, find_where-append, find_where-append_other, find_where-update_where,
  find_where-update_other, find_where-any,
}
use omnidrive.CloudGuard.{
  Guard, GuardConfig, GuardOperation, suspended, quota_exceeded, ConfigText, tripped, SystemConfig,
  CloudUsage, CloudUsageApplyResult, has_key, overwrite, new_config, get_system_config_value,
  set_system_config_value, cloud_suspend_reason, dry_run_active_key, is_blank, set_cloud_suspension,
  clear_cloud_suspension, is_cloud_suspended, dry_run_on, settle, current_decision,
  apply_cloud_usage_delta_with_limits, delta_of, limits_of, current_day_epoch,
}

get-set_self :
    (now : ℕ) (key : String) (value : ConfigText) (g : Guard)
    → get_system_config_value key (set_system_config_value now key value g) ≡ some value
unfolding get_system_config_value set_system_config_value
get-set_self now key value g = elim (Bool-cases (any_where (has_key key) g.system_config)) [
  | inl e ↦
      rw (e, find_where-update_where (has_key key) (overwrite value now) g.system_config (λ c h. h))
        (ground (arith, find_where-any (has_key key) g.system_config))
  | inr e ↦
      rw (
        e,
        find_where-append (has_key key) (new_config key value now) g.system_config e,
        eq_refl key,
      )
]

get-set_ne :
    (now : ℕ) (key other : String) (value : ConfigText) (g : Guard)
    → str_eq key other ≡ false
    → get_system_config_value other (set_system_config_value now key value g)
      ≡ get_system_config_value other g
unfolding get_system_config_value set_system_config_value
get-set_ne now key other value g ne = elim (Bool-cases (any_where (has_key key) g.system_config)) [
  | inl e ↦ rw (
    e,
    find_where-update_other (has_key other) (has_key key) (overwrite value now) g.system_config
        (λ c h. (miss c h, miss c h)),
  )
  | inr e ↦
      rw (e, find_where-append_other (has_key other) (new_config key value now) g.system_config ne)
]
  where
    miss : (c : SystemConfig) → has_key key c ≡ true → has_key other c ≡ false
    miss c h = ground (arith, eq_iff c.config_key key, eq_iff c.config_key other, eq_iff key other)

-- A set value is read back, and every other key reads as before.
pub get_system_config_value-set :
    (now : ℕ) (key other : String) (value : ConfigText) (g : Guard)
    → get_system_config_value other (set_system_config_value now key value g)
      ≡ (if str_eq key other then some value else get_system_config_value other g)
get_system_config_value-set now key other value g = elim (Bool-cases (str_eq key other)) [
  | inl e ↦ rw e (rw (← (eq_iff key other).0 e) (get-set_self now key value g))
  | inr e ↦ rw e (get-set_ne now key other value g e)
]

-- Setting the suspension is read back whole, and leaves the dry-run flag; clearing it ends it.
pub set_cloud_suspension_lem :
    (now : ℕ) (reason : ConfigText) (g : Guard)
    → let g' = set_cloud_suspension now reason g in
      (is_cloud_suspended g' ≡ true)
      × (get_system_config_value cloud_suspend_reason g' ≡ some reason)
      × (get_system_config_value dry_run_active_key g'
          ≡ get_system_config_value dry_run_active_key g)
      × (is_cloud_suspended (clear_cloud_suspension now g') ≡ false)
unfolding set_cloud_suspension clear_cloud_suspension is_cloud_suspended
set_cloud_suspension_lem now reason g = (
  simp get_system_config_value-set,
  simp get_system_config_value-set,
  simp get_system_config_value-set,
  simp get_system_config_value-set,
)

settle-cases :
    (now : ℕ) (delta limits : CloudUsage) (a : CloudUsageApplyResult × Guard) {reason : ConfigText}
    {g' : Guard}
    → settle now delta limits a ≡ (quota_exceeded reason, g')
    → (reason ≡ tripped a.0 limits) × (g' ≡ set_cloud_suspension now reason a.1)
unfolding settle
settle-cases now delta limits (r, g) h = ground arith

trip-cases :
    (now : ℕ) (c : GuardConfig) (op : GuardOperation) (g : Guard) {reason : ConfigText} {g' : Guard}
    → current_decision now c op g ≡ (quota_exceeded reason, g')
    → (dry_run_on c g ≡ false)
      × (h : Guard) × (is_blank reason ≡ false)
      × (h.system_config ≡ g.system_config)
      × (g' ≡ set_cloud_suspension now reason h)
unfolding current_decision apply_cloud_usage_delta_with_limits
trip-cases now c op g e = elim (Bool-cases (dry_run_on c g)) [
  | inl d ↦ absurd (ground arith)
  | inr d ↦ elim (Bool-cases (is_cloud_suspended g)) [
    | inl s ↦ absurd (ground arith)
    | inr s ↦
        let a =
          apply_cloud_usage_delta_with_limits now (current_day_epoch now) (delta_of op)
            (limits_of c) g in
        let q : settle now (delta_of op) (limits_of c) a ≡ (quota_exceeded _, _) = rw (d, s) at e in
        let (same, left) = settle-cases now (delta_of op) (limits_of c) a q in
        (d, a.1, rw same refl, refl, left)
  ]
]

get-congr :
    (key : String) (h g : Guard)
    → h.system_config ≡ g.system_config
    → get_system_config_value key h ≡ get_system_config_value key g
unfolding get_system_config_value
get-congr key h g e = rw e

suspended_decision :
    (now : ℕ) (c : GuardConfig) (op : GuardOperation) (g : Guard) {reason : ConfigText}
    → dry_run_on c g ≡ false
    → is_cloud_suspended g ≡ true
    → get_system_config_value cloud_suspend_reason g ≡ some reason
    → is_blank reason ≡ false
    → current_decision now c op g ≡ (suspended reason, g)
unfolding current_decision
suspended_decision now c op g d s r b = rw (d, s, r) (rw b)

-- Once a decision has found the quota exceeded, every later decision under the same configuration
-- is `suspended` with the stored report and changes nothing, whatever it asks for and when.
pub tripped_stays :
    (now later : ℕ) (c : GuardConfig) (op again : GuardOperation) (g : Guard) {reason : ConfigText}
    {g' : Guard}
    → current_decision now c op g ≡ (quota_exceeded reason, g')
    → current_decision later c again g' ≡ (suspended reason, g')
tripped_stays now later c op again g {reason = reason} e =
    let (d, h, word, same, left) = trip-cases now c op g e in
    let (on, stored, flag, _) = set_cloud_suspension_lem now reason h in
    let off : dry_run_on c (set_cloud_suspension now reason h) ≡ false =
      unfold dry_run_on in rw (flag, get-congr dry_run_active_key h g same) d in
    rw left
      (suspended_decision later c again (set_cloud_suspension now reason h) off on stored word)
