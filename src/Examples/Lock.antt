-- ===== src/Examples/Lock.antt =====
-- The idle timeout on a concrete monitor.
use omnidrive.Prelude.{true, ◌≡◌, ◌↔◌, refl, List, [], ◌∷◌, some}
use omnidrive.AutoLock.{Monitor, vault_row}
use omnidrive.AutoLock.Idle.{Event, touched, ticked, run, IsActive, idle_timeout_lem}

abbrev monitor : Monitor
monitor = record {
  last_activity = 20;
  idle_timeout_secs = 900;
  unlocked = true;
  stored_minutes = some "17";
  audit_logs = [];
  teardowns = 0;
}

abbrev events : List Event
events = ticked 30 ∷ touched 500 ∷ ticked 1000 ∷ ticked 1500 ∷ []

idle_timeout_lem_example :
    ((run (vault_row "v") true events monitor).unlocked ≡ true) ↔ IsActive 900 20 events
idle_timeout_lem_example = idle_timeout_lem (vault_row "v") true events monitor refl
