-- ===== src/Controller/Restart.antt =====
-- The safe output before a restart, in `watchdogTask` of src/main.cpp, while `controlTask` still
-- takes its turns.
use esp32_real_time_energy_c.Base.{ℕ, ◌≡◌, false, List, [], ◌∷◌, arith}
use esp32_real_time_energy_c.Base.Float.{Float}
use esp32_real_time_energy_c.Measurement.{Measurement}
use esp32_real_time_energy_c.Actuator.{actuator_apply_state, actuator_apply_result}
use esp32_real_time_energy_c.Controller.{
  control_turn, Setup, App, Moment, control_measurement, drive_safe_output, apply_protection_result,
}
use esp32_real_time_energy_c.Controller.Turns.{controls, stops, turn, run_turns}

module _ {ℓ} {F : Type ℓ} ⦃fl : Float F⦄ (setup : Setup) where
  measured-stopped :
      (app : App F) (queue : List (Measurement F)) (at : Moment) (seen : ℕ)
      → let stopped = control_measurement setup (drive_safe_output setup app seen) queue at in
        let free = control_measurement setup app queue at in
        (stopped.guard ≡ free.guard) × (stopped.actuator.commanded_on ≡ free.actuator.commanded_on)
  unfolding control_measurement drive_safe_output apply_protection_result actuator_apply_result
      actuator_apply_state
  measured-stopped app [] at seen = ground arith
  measured-stopped app (m ∷ rest) at seen = ground arith

  pub drive_safe_output-off :
      (app : App F) (seen : ℕ) → (drive_safe_output setup app seen).actuator.commanded_on ≡ false
  unfolding drive_safe_output actuator_apply_state
  drive_safe_output-off app seen = ground arith

  -- Driving the safe output commands the relay off, but does not hold it off: the next turn of
  -- ControlTask leaves the protection core and the relay command as if the safe output had not been
  -- driven.
  pub run_turns-stops :
      (app : App F) (at : Moment) (seen : ℕ)
      → let stopped = run_turns setup app (stops seen ∷ []) in
        let after = run_turns setup app (stops seen ∷ controls at ∷ []) in
        let free = run_turns setup app (controls at ∷ []) in
        (stopped.actuator.commanded_on ≡ false)
        × (after.guard ≡ free.guard)
        × (after.actuator.commanded_on ≡ free.actuator.commanded_on)
  unfolding run_turns turn control_turn
  run_turns-stops app at seen =
      let (guard, relay) = measured-stopped app app.measurement_queue at seen in
      (drive_safe_output-off app seen, guard, relay)
