-- ===== src/Watchdog/Status.antt =====
-- The health check and the status lines of src/watchdog_manager.cpp agree.
use mathlib.Core.Bool.{false≢true}
use esp32_real_time_energy_c.Base.{
  ℕ, zero, suc, ◌+◌, ◌≡◌, ◌↔◌, inl, inr, refl, sym, ◌∙◌, true, false, List, [], ◌∷◌, arith, All,
}
use esp32_real_time_energy_c.Heartbeat.{beat, first_stale}
use esp32_real_time_energy_c.Heartbeat.Health.{
  IsSized, NoneStale, NoneStale-cons, first_stale-Finds, new_monitor-IsSized, beat-IsSized,
}
use esp32_real_time_energy_c.Watchdog.{
  Watchdog, EspError, StatusLine, heartbeat_count, initial_watchdog, watchdog_manager_heartbeat,
  watchdog_manager_register_current_task, watchdog_manager_healthy, print_status_from,
  watchdog_manager_print_status,
}

-- Calls on the watchdog manager.
pub data WatchdogCall : Type 0 where
  registers : EspError → WatchdogCall
  beats : ℕ → ℕ → WatchdogCall

unfoldable pub supervise : Watchdog → List WatchdogCall → Watchdog
unfolding watchdog_manager_heartbeat watchdog_manager_register_current_task
supervise w [] = w
supervise w (registers answer ∷ cs) =
    supervise (watchdog_manager_register_current_task w answer).0 cs
supervise w (beats id now_ms ∷ cs) = supervise (watchdog_manager_heartbeat w id now_ms) cs

-- The table has a slot for each task.
pub record IsReady (w : Watchdog) : Type 0 where
  pub sized : IsSized w.monitor
  pub slots : w.monitor.slots ≡ heartbeat_count

pub initial-IsReady : IsReady initial_watchdog
unfolding initial_watchdog
initial-IsReady = record { sized = new_monitor-IsSized heartbeat_count; slots = refl }

pub heartbeat-IsReady :
    (w : Watchdog) (id now_ms : ℕ) → IsReady w → IsReady (watchdog_manager_heartbeat w id now_ms)
unfolding watchdog_manager_heartbeat beat
heartbeat-IsReady w id now_ms r = record {
  sized = ground (arith, beat-IsSized w.monitor id now_ms r.sized);
  slots = ground arith;
}

pub register-IsReady :
    (w : Watchdog) (answer : EspError)
    → IsReady w
    → IsReady (watchdog_manager_register_current_task w answer).0
unfolding watchdog_manager_register_current_task
register-IsReady w answer r = ground arith

pub supervise-IsReady :
    (w : Watchdog) (cs : List WatchdogCall) → IsReady w → IsReady (supervise w cs)
unfolding supervise
supervise-IsReady w [] r = r
supervise-IsReady w (registers answer ∷ cs) r =
    supervise-IsReady (watchdog_manager_register_current_task w answer).0 cs
      (register-IsReady w answer r)
supervise-IsReady w (beats id now_ms ∷ cs) r =
    supervise-IsReady (watchdog_manager_heartbeat w id now_ms) cs (heartbeat-IsReady w id now_ms r)

-- A line that reports a live task.
abbrev pub IsUp : StatusLine → Type 0
IsUp line = (line.ok ≡ true) × (line.stale ≡ false)

status-NoneStale :
    (w : Watchdog) (timeout_ms now_ms left id : ℕ)
    → id + left ≡ heartbeat_count
    → All IsUp (print_status_from w timeout_ms (λ _. now_ms) left id)
      ↔ NoneStale w.monitor now_ms timeout_ms id heartbeat_count
unfolding print_status_from
status-NoneStale w timeout_ms now_ms zero id e = (λ _ k p q. absurd (omega arith), λ _. tt)
status-NoneStale w timeout_ms now_ms (suc left) id e =
    let (forth, back) = status-NoneStale w timeout_ms now_ms left (id + 1) (omega arith) in
    (
      λ (up, ups).
          NoneStale-cons w.monitor now_ms timeout_ms id heartbeat_count (ground arith) (forth ups),
      λ none.
          let here = none id (omega arith) (omega arith) in
          (ground arith, back (λ k p q. none k (omega arith) q)),
    )

healthy-NoneStale :
    (w : Watchdog) (timeout_ms now_ms : ℕ)
    → IsReady w
    → (watchdog_manager_healthy w timeout_ms now_ms ≡ true)
      ↔ NoneStale w.monitor now_ms timeout_ms 0 heartbeat_count
unfolding watchdog_manager_healthy
healthy-NoneStale w timeout_ms now_ms r =
    let found = first_stale w.monitor now_ms timeout_ms in
    elim (first_stale-Finds w.monitor now_ms timeout_ms) [
      | inl (e, none) ↦ (λ _ k p q. none k p (omega (arith, r.slots)), λ _. ground arith)
      | inr (_, hi, stale, _) ↦ (
        λ h. absurd (ground (arith, r.slots)),
        λ none.
            absurd (false≢true (sym (none found (omega arith) (omega (arith, r.slots))) ∙ stale)),
      )
    ]

-- Whatever was registered and whichever tasks have beaten, at whatever times: the health check passes
-- exactly if every line of the status, read at the same time, says OK and none says STALE.
pub healthy-status :
    (cs : List WatchdogCall) (timeout_ms now_ms : ℕ)
    → let w = supervise initial_watchdog cs in
      (watchdog_manager_healthy w timeout_ms now_ms ≡ true)
      ↔ All IsUp (watchdog_manager_print_status w timeout_ms (λ _. now_ms))
unfolding watchdog_manager_print_status
healthy-status cs timeout_ms now_ms =
    let w = supervise initial_watchdog cs in
    let (forth, back) =
      healthy-NoneStale w timeout_ms now_ms (supervise-IsReady _ cs initial-IsReady) in
    let (lines, calm) = status-NoneStale w timeout_ms now_ms heartbeat_count 0 refl in
    (λ h. calm (forth h), λ up. back (lines up))
