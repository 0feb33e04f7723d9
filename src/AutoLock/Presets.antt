-- ===== src/AutoLock/Presets.antt =====
-- The timeout is always a preset: the resolution of the stored value and the setter of
-- angeld/src/auto_lock.rs.
use omnidrive.Prelude.{
  ℕ, ◌*◌, ◌≤◌, ◌≡◌, ◌⊎◌, refl, sym, ap, ◌∙◌, String, true, false, Option, none, some, str_eq,
  if◌then◌else◌, any_where, arith, Bool-cases, inl, inr, All, eq_iff,
}
use omnidrive.Result.{err}
use omnidrive.AutoLock.{
  Monitor, invalid_preset, allowed_presets, is_preset, distance, min_by_key, clamp_to_preset,
  resolve_parsed, parsed, parse_u32, parse_digits, parse_unsigned, to_string, digits,
  resolve_minutes_from_db, init, set_timeout_minutes, is_stored_as,
}

abbrev pub IsPreset : ℕ → Type 0
IsPreset m = is_preset m ≡ true

clamp-IsPreset : (n : ℕ) → IsPreset (clamp_to_preset n)
unfolding clamp_to_preset min_by_key any_where
clamp-IsPreset n = ground arith

resolve_parsed-IsPreset : (o : Option ℕ) → IsPreset (resolve_parsed o)
unfolding any_where
resolve_parsed-IsPreset none = refl
resolve_parsed-IsPreset (some n) = elim (Bool-cases (is_preset n)) [
  | inl e ↦ rw (e, e)
  | inr e ↦ rw e (clamp-IsPreset n)
]

-- Whatever the system_config table holds, the resolved timeout is a preset.
pub resolve_minutes-IsPreset : (value : Option String) → IsPreset (resolve_minutes_from_db value)
unfolding resolve_minutes_from_db
resolve_minutes-IsPreset value = resolve_parsed-IsPreset (parsed value)

-- A clamped value is a preset, and no preset is nearer to the given number.
pub clamp-nearest :
    (n : ℕ)
    → IsPreset (clamp_to_preset n)
      × All (λ p. distance (clamp_to_preset n) n ≤ distance p n) allowed_presets
unfolding clamp_to_preset min_by_key
clamp-nearest n =
    (clamp-IsPreset n, (ground arith, (ground arith, (ground arith, (ground arith, tt)))))

preset-cases : (m : ℕ) → IsPreset m → (m ≡ 5) ⊎ ((m ≡ 15) ⊎ ((m ≡ 30) ⊎ (m ≡ 60)))
unfolding any_where
preset-cases m h = ground arith

-- A written preset is read back as itself.
preset-roundtrip : (m : ℕ) → IsPreset m → resolve_minutes_from_db (some (to_string m)) ≡ m
unfolding resolve_minutes_from_db parse_u32 parse_unsigned parse_digits to_string digits any_where
preset-roundtrip m h = elim (preset-cases m h) [
  | inl e ↦ rw e refl
  | inr (inl e) ↦ rw e refl
  | inr (inr (inl e)) ↦ rw e refl
  | inr (inr (inr e)) ↦ rw e refl
]

-- The setter accepts exactly the presets. It refuses any other number and changes nothing then; an
-- accepted one is the timeout at once, and also behind a restart that reads it back.
pub set_timeout_lem :
    (minutes : ℕ) (m : Monitor)
    → ((is_preset minutes ≡ false)
        × (set_timeout_minutes minutes m ≡ (err (invalid_preset minutes), m)))
      ⊎ ((is_preset minutes ≡ true)
          × ((set_timeout_minutes minutes m).1.idle_timeout_secs ≡ minutes * 60)
          × ((init none (set_timeout_minutes minutes m).1).idle_timeout_secs ≡ minutes * 60))
unfolding set_timeout_minutes init
set_timeout_lem minutes m = elim (Bool-cases (is_preset minutes)) [
  | inr e ↦ inl (e, rw e refl)
  | inl e ↦ inr (e, rw e refl, rw (e, preset-roundtrip minutes e) refl)
]

written : (v : Option String) (t : String) → (if is_stored_as v t then v else some t) ≡ some t
written none t = refl
written (some v) t = elim (Bool-cases (str_eq v t)) [
  | inl e ↦ rw e (ap some ((eq_iff v t).0 e))
  | inr e ↦ rw e
]

init-stored :
    (m : Monitor)
    → init none m ≡ record m {
      last_activity = 0;
      idle_timeout_secs = resolve_minutes_from_db m.stored_minutes * 60;
      stored_minutes = some (to_string (resolve_minutes_from_db m.stored_minutes));
    }
unfolding init
init-stored m =
    ap
      (λ v. record m {
        last_activity = 0;
        idle_timeout_secs = resolve_minutes_from_db m.stored_minutes * 60;
        stored_minutes = v;
      })
      (written m.stored_minutes (to_string (resolve_minutes_from_db m.stored_minutes)))

resolve-again :
    (v : Option String)
    → resolve_minutes_from_db (some (to_string (resolve_minutes_from_db v)))
      ≡ resolve_minutes_from_db v
resolve-again v = preset-roundtrip (resolve_minutes_from_db v) (resolve_minutes-IsPreset v)

-- A start of the daemon leaves a preset in the table, whatever stood there: a second start finds it
-- and has the same state.
pub init_idem : (m : Monitor) → init none (init none m) ≡ init none m
init_idem m =
    init-stored (init none m)
    ∙ ap
        (λ (n : Monitor). record n {
          last_activity = 0;
          idle_timeout_secs = resolve_minutes_from_db n.stored_minutes * 60;
          stored_minutes = some (to_string (resolve_minutes_from_db n.stored_minutes));
        })
        (init-stored m)
    ∙ ap
        (λ k. record m {
          last_activity = 0;
          idle_timeout_secs = k * 60;
          stored_minutes = some (to_string k);
        })
        (resolve-again m.stored_minutes)
    ∙ sym (init-stored m)
