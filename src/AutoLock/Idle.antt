-- ===== src/AutoLock/Idle.antt =====
-- When the tick loop locks the vault: `run_tick_loop` of angeld/src/auto_lock.rs over
-- `force_lock_and_dismount` of angeld/src/lock_flow.rs, and what the status shows.
use omnidrive.Prelude.{
  ℕ, ◌+◌, ◌-◌, ◌≤◌, ◌<◌, ◌≡◌, ◌≢◌, ◌↔◌, refl, ◌∙◌, String, Bool, true, false, Option, List, [], ◌∷◌,
  ltb, if◌then◌else◌, arith, Bool-cases, inl, inr, length, ltb→lt, lt→ltb, length-append,
}
use omnidrive.AutoLock.{
  Monitor, VaultRead, vault_row, no_row, read_failed, LockReason, AuditLog, emit_audit,
  force_lock_and_dismount, run_tick, touch, remaining_secs, get_status, expired,
}

at_most_one :
    (v : VaultRead) (insert_ok : Bool) (reason : LockReason) (actor : Option (String × String))
    (b : Bool) (logs : List AuditLog)
    → length (if b then emit_audit v insert_ok reason actor logs else logs)
      ≤ (if b then length logs + 1 else length logs)
at_most_one v insert_ok reason actor false logs = omega arith
at_most_one (vault_row id) true reason actor true logs = omega (arith, length-append logs)
at_most_one (vault_row id) false reason actor true logs = omega arith
at_most_one no_row insert_ok reason actor true logs = omega arith
at_most_one read_failed insert_ok reason actor true logs = omega arith

-- However the audit goes, the vault ends locked, and the call answers whether it was unlocked. One
-- teardown starts if it was, and none if not; at most one audit entry is added; the monitor's
-- activity and timeout stay.
pub force_lock_lem :
    (v : VaultRead) (insert_ok : Bool) (reason : LockReason) (actor : Option (String × String))
    (m : Monitor)
    → let r = force_lock_and_dismount v insert_ok reason actor m in
      (r.1.unlocked ≡ false)
      × (r.0 ≡ m.unlocked)
      × (r.1.teardowns ≡ (if m.unlocked then m.teardowns + 1 else m.teardowns))
      × (length r.1.audit_logs
          ≤ (if m.unlocked then length m.audit_logs + 1 else length m.audit_logs))
      × (r.1.last_activity ≡ m.last_activity)
      × (r.1.idle_timeout_secs ≡ m.idle_timeout_secs)
unfolding force_lock_and_dismount
force_lock_lem v insert_ok reason actor m = (
  refl,
  refl,
  ground arith,
  at_most_one v insert_ok reason actor m.unlocked m.audit_logs,
  refl,
  refl,
)

tick_early :
    (v : VaultRead) (insert_ok : Bool) (now : ℕ) (m : Monitor)
    → now - m.last_activity < m.idle_timeout_secs
    → run_tick v insert_ok now m ≡ m
unfolding run_tick
tick_early v insert_ok now m h =
    ground (arith, lt→ltb (now - m.last_activity) m.idle_timeout_secs h)

tick_late :
    (v : VaultRead) (insert_ok : Bool) (now : ℕ) (m : Monitor)
    → m.idle_timeout_secs ≤ now - m.last_activity
    → (run_tick v insert_ok now m).unlocked ≡ false
unfolding run_tick force_lock_and_dismount
tick_late v insert_ok now m h = ground arith

-- With a recorded activity, the status of an unlocked vault is expired exactly when the next tick
-- at that time locks it.
pub status_agrees :
    (v : VaultRead) (insert_ok : Bool) (now : ℕ) (m : Monitor)
    → m.last_activity ≢ 0
    → m.unlocked ≡ true
    → ((get_status now m).2 ≡ expired) ↔ ((run_tick v insert_ok now m).unlocked ≡ false)
unfolding get_status remaining_secs run_tick force_lock_and_dismount
status_agrees v insert_ok now m h k = ground arith

-- The touches and the ticks of a run, by their times.
pub data Event : Type 0 where
  touched : ℕ → Event
  ticked : ℕ → Event

unfoldable pub run : VaultRead → Bool → List Event → Monitor → Monitor
run v insert_ok [] m = m
run v insert_ok (touched t ∷ es) m = run v insert_ok es (touch t m)
run v insert_ok (ticked t ∷ es) m = run v insert_ok es (run_tick v insert_ok t m)

-- Every tick comes before the timeout has passed since the touch before it.
unfoldable pub IsActive : ℕ → ℕ → List Event → Type 0
IsActive timeout last [] = Unit
IsActive timeout last (touched t ∷ es) = IsActive timeout t es
IsActive timeout last (ticked t ∷ es) = (t - last < timeout) × IsActive timeout last es

stays_locked :
    (v : VaultRead) (insert_ok : Bool) (es : List Event) (m : Monitor)
    → m.unlocked ≡ false
    → (run v insert_ok es m).unlocked ≡ false
unfolding run touch run_tick force_lock_and_dismount
stays_locked v insert_ok [] m h = h
stays_locked v insert_ok (touched t ∷ es) m h = stays_locked v insert_ok es (touch t m) h
stays_locked v insert_ok (ticked t ∷ es) m h =
    stays_locked v insert_ok es (run_tick v insert_ok t m) (ground arith)

active-keeps :
    (v : VaultRead) (insert_ok : Bool) (es : List Event) (m : Monitor)
    → IsActive m.idle_timeout_secs m.last_activity es
    → (run v insert_ok es m).unlocked ≡ m.unlocked
unfolding run IsActive touch
active-keeps v insert_ok [] m h = refl
active-keeps v insert_ok (touched t ∷ es) m h = active-keeps v insert_ok es (touch t m) h
active-keeps v insert_ok (ticked t ∷ es) m h =
    rw (run, tick_early v insert_ok t m h.0) (active-keeps v insert_ok es m h.1)

unlocked-IsActive :
    (v : VaultRead) (insert_ok : Bool) (es : List Event) (m : Monitor)
    → (run v insert_ok es m).unlocked ≡ true
    → IsActive m.idle_timeout_secs m.last_activity es
unfolding run IsActive touch
unlocked-IsActive v insert_ok [] m h = tt
unlocked-IsActive v insert_ok (touched t ∷ es) m h = unlocked-IsActive v insert_ok es (touch t m) h
unlocked-IsActive v insert_ok (ticked t ∷ es) m h =
    elim (Bool-cases (ltb (t - m.last_activity) m.idle_timeout_secs)) [
      | inl e ↦
          let early = ltb→lt (t - m.last_activity) m.idle_timeout_secs e in
          let h' : (run v insert_ok es m).unlocked ≡ true =
            rw (run, tick_early v insert_ok t m early) at h in
          (early, unlocked-IsActive v insert_ok es m h')
      | inr e ↦
          let late =
            stays_locked v insert_ok es (run_tick v insert_ok t m)
              (tick_late v insert_ok t m (ground arith)) in
          absurd (ground arith)
    ]

-- Over any run of touches and ticks, an unlocked vault stays unlocked exactly when every tick comes
-- before the timeout has passed since the last activity before it. So it is never locked early, and
-- the first tick behind the timeout locks it for good.
pub idle_timeout_lem :
    (v : VaultRead) (insert_ok : Bool) (es : List Event) (m : Monitor)
    → m.unlocked ≡ true
    → ((run v insert_ok es m).unlocked ≡ true) ↔ IsActive m.idle_timeout_secs m.last_activity es
idle_timeout_lem v insert_ok es m h =
    (unlocked-IsActive v insert_ok es m, λ k. active-keeps v insert_ok es m k ∙ h)
