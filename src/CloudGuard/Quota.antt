-- ===== src/CloudGuard/Quota.antt =====
-- The daily usage and its limits.
use omnidrive.Prelude.{
  ℕ, ◌≡◌, refl, ◌∙◌, Bool, true, false, ◌&&◌, Option, none, some, List, ◌==◌, if◌then◌else◌,
  unwrap_or, any_where, find_where, update_where, arith, Bool-cases, inl, inr, find_where-append,
  find_where-append_other, find_where-update_where, find_where-update_other, find_where-any,
  is_some,
}
use omnidrive.Int64.{pos, saturating_add}
use omnidrive.CloudGuard.{
  Guard, CloudUsage, CloudUsageDaily, of_day, no_usage, ensure_day, next_usage, within, usage_of,
  write_usage, apply_result, apply_to, apply_cloud_usage_delta_with_limits,
}

abbrev zero_usage : CloudUsage
zero_usage = record { read_ops = pos 0; write_ops = pos 0; egress_bytes = pos 0 }

abbrev usage_or_zero : Option CloudUsageDaily → CloudUsage
usage_or_zero none = zero_usage
usage_or_zero (some r) = usage_of r

-- The usage counted for a day: none, while the day has no row.
unfoldable pub usage : ℕ → List CloudUsageDaily → CloudUsage
usage day rows = usage_or_zero (find_where (of_day day) rows)

usage-ensure_day :
    (day other now : ℕ) (rows : List CloudUsageDaily)
    → usage other (ensure_day day now rows) ≡ usage other rows
unfolding usage ensure_day
usage-ensure_day day other now rows = elim (Bool-cases (any_where (of_day day) rows)) [
  | inl e ↦ rw e
  | inr e ↦ rw e (elim (Bool-cases (other == day)) [
    | inl q ↦
        let same : other ≡ day = ground arith in
        rw same (
          rw (find_where-append (of_day day) (no_usage day now) rows e)
            (ground (arith, find_where-any (of_day day) rows)))
    | inr q ↦ rw (find_where-append_other (of_day other) (no_usage day now) rows (ground arith))
  ])
]

present :
    (day now : ℕ) (rows : List CloudUsageDaily)
    → is_some (find_where (of_day day) (ensure_day day now rows)) ≡ true
unfolding ensure_day
present day now rows = elim (Bool-cases (any_where (of_day day) rows)) [
  | inl e ↦ rw (e, find_where-any (of_day day) rows) e
  | inr e ↦ rw (e, find_where-append (of_day day) (no_usage day now) rows e) (ground arith)
]

existing_usage :
    (o : Option CloudUsageDaily) (day now : ℕ)
    → usage_of (unwrap_or o (no_usage day now)) ≡ usage_or_zero o
existing_usage none day now = refl
existing_usage (some r) day now = refl

existing-day :
    (day now : ℕ) (rows : List CloudUsageDaily)
    → usage_of (unwrap_or (find_where (of_day day) rows) (no_usage day now)) ≡ usage day rows
unfolding usage
existing-day day now rows = existing_usage (find_where (of_day day) rows) day now

usage-write :
    (day other now : ℕ) (u : CloudUsage) (rows : List CloudUsageDaily)
    → is_some (find_where (of_day day) rows) ≡ true
    → usage other (update_where (of_day day) (write_usage u now) rows)
      ≡ (if other == day then u else usage other rows)
unfolding usage
usage-write day other now u rows h = elim (Bool-cases (other == day)) [
  | inl q ↦
      let same : other ≡ day = ground arith in
      rw (q, same)
        (rw (find_where-update_where (of_day day) (write_usage u now) rows (λ r e. e))
          (ground arith))
  | inr q ↦ rw q (
      rw (
        find_where-update_other (of_day other) (of_day day) (write_usage u now) rows
          (λ r e. (ground arith, ground arith))))
]

-- The next usage depends on the row's counters alone.
abbrev pub plus : CloudUsage → CloudUsage → CloudUsage
plus u d = record {
  read_ops = saturating_add u.read_ops d.read_ops;
  write_ops = saturating_add u.write_ops d.write_ops;
  egress_bytes = saturating_add u.egress_bytes d.egress_bytes;
}

next_usage-plus : (r : CloudUsageDaily) (d : CloudUsage) → next_usage r d ≡ plus (usage_of r) d
unfolding next_usage
next_usage-plus r d = refl

apply_to-lem :
    (now day other : ℕ) (delta limits : CloudUsage) (rows : List CloudUsageDaily)
    (existing : CloudUsageDaily)
    → is_some (find_where (of_day day) rows) ≡ true
    → let next = next_usage existing delta in
      let a = apply_to now day delta limits rows existing in
      (a.0
        ≡ apply_result day
            (if within next limits then next else usage_of existing)
            (within next limits))
      × (usage other a.1 ≡ (if other == day && within next limits then next else usage other rows))
apply_to-lem now day other delta limits rows existing h =
    elim (Bool-cases (within (next_usage existing delta) limits)) [
      | inl e ↦ rw e (
        refl,
        usage-write day other now (next_usage existing delta) rows h
            ∙ and-true (other == day) (next_usage existing delta) (usage other rows),
      )
      | inr e ↦ rw e (refl, and-false (other == day) (next_usage existing delta) (usage other rows))
    ]
  where
    and-true : (b : Bool) (u v : CloudUsage) → (if b then u else v) ≡ (if b && true then u else v)
    and-true true u v = refl
    and-true false u v = refl

    and-false : (b : Bool) (u v : CloudUsage) → v ≡ (if b && false then u else v)
    and-false true u v = refl
    and-false false u v = refl

-- A delta is counted for its day if the sums stay within the three limits, and otherwise for no
-- day; the result reports the day's usage behind the call; the other days keep theirs.
pub apply_cloud_usage_delta_with_limits_lem :
    (now day other : ℕ) (delta limits : CloudUsage) (g : Guard)
    → let a = apply_cloud_usage_delta_with_limits now day delta limits g in
      let before = usage day g.cloud_usage_daily in
      let fits = within (plus before delta) limits in
      (a.0 ≡ apply_result day (if fits then plus before delta else before) fits)
      × (usage other a.1.cloud_usage_daily
          ≡ (if other == day && fits then plus before delta else usage other g.cloud_usage_daily))
unfolding apply_cloud_usage_delta_with_limits next_usage
apply_cloud_usage_delta_with_limits_lem now day other delta limits g =
    let rows = ensure_day day now g.cloud_usage_daily in
    let existing = unwrap_or (find_where (of_day day) rows) (no_usage day now) in
    let was : usage_of existing ≡ usage day g.cloud_usage_daily =
      existing-day day now rows ∙ usage-ensure_day day day now g.cloud_usage_daily in
    let (result, rest) =
      apply_to-lem now day other delta limits rows existing (present day now g.cloud_usage_daily) in
    rw (← was, ← usage-ensure_day day other now g.cloud_usage_daily) (result, rest)
