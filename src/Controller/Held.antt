-- ===== src/Controller/Held.antt =====
-- The writes to the relay pin over the turns of src/main.cpp, in a build that holds the relay off.
use mathlib.Core.Option.{some}
use esp32_real_time_energy_c.Base.{ℕ, ◌≡◌, inl, inr, List, [], ◌∷◌, All, arith}
use esp32_real_time_energy_c.Base.Float.{Float}
use esp32_real_time_energy_c.Measurement.{Measurement}
use esp32_real_time_energy_c.Protection.Types.{SystemState, ProtectionConfig, ProtectionResult}
use esp32_real_time_energy_c.Guard.{
  protection_update, protection_tick, protection_begin, initial_guard,
}
use esp32_real_time_energy_c.Actuator.{hold_off, initial_actuator}
use esp32_real_time_energy_c.Actuator.Writes.{
  IsWired, IsOff, carry_out, begins, applies_state, applies_result, carry_out-IsOff,
}
use esp32_real_time_energy_c.Controller.Commands.{CommandType}
use esp32_real_time_energy_c.Controller.{
  drive_safe_output, apply_protection_result, request_command, Setup, App, Moment,
  control_measurement, judge_measurement, control_turn, command_turn,
}
use esp32_real_time_energy_c.Controller.Remote.{mqtt_callback-cases}
use esp32_real_time_energy_c.Controller.Turns.{
  Turn, senses, controls, executes, requests, receives, subscribes, stops, turn, run_turns, Created,
  app_begin,
}

module _ {ℓ} {F : Type ℓ} ⦃fl : Float F⦄ (setup : Setup) where
  open setup use {mode, wiring}

  -- No write so far has put the relay pin at another level than OFF.
  abbrev pub AllOff : App F → Type 0
  AllOff app = All (IsOff mode wiring) app.actuator.writes

module _ {ℓ} {F : Type ℓ} ⦃fl : Float F⦄ (setup : Setup) (wired : IsWired setup.wiring)
    (held : setup.mode ≡ hold_off) where
  open setup use {mode, wiring}

  measurement-AllOff :
      (app : App F) (queue : List (Measurement F)) (at : Moment)
      → AllOff setup app
      → AllOff setup (control_measurement setup app queue at)
  unfolding control_measurement apply_protection_result carry_out
  measurement-AllOff app [] at h =
      carry_out-IsOff mode wiring app.actuator
        (applies_result (protection_tick app.guard at.taken at.now_ms).1 at.seen) wired held h
  measurement-AllOff app (m ∷ rest) at h =
      carry_out-IsOff mode wiring app.actuator
        (applies_result (protection_update app.guard m at.taken at.now_ms).1 at.seen) wired held h

  pub judge-AllOff :
      (app : App F) (queue : List (Measurement F)) (at : Moment)
      → AllOff setup app
      → AllOff setup (judge_measurement setup app queue at).0
  unfolding judge_measurement
  judge-AllOff app [] at h = h
  judge-AllOff app (m ∷ rest) at h = h

  pub apply-AllOff :
      (app : App F) (r : ProtectionResult) (seen : ℕ)
      → AllOff setup app
      → AllOff setup (apply_protection_result setup app r seen)
  unfolding apply_protection_result carry_out
  apply-AllOff app r seen h =
      carry_out-IsOff mode wiring app.actuator (applies_result r seen) wired held h

  state-AllOff :
      (app : App F) (state : SystemState) (seen : ℕ)
      → AllOff setup app
      → All
          (IsOff mode wiring)
          (carry_out mode wiring app.actuator (applies_state state seen)).writes
  state-AllOff app state seen h =
      carry_out-IsOff mode wiring app.actuator (applies_state state seen) wired held h

  command-AllOff :
      (app : App F) (queue : List CommandType) (at : Moment)
      → AllOff setup app
      → AllOff setup (command_turn setup app queue at)
  unfolding command_turn carry_out
  command-AllOff app [] at h = h
  command-AllOff app (type ∷ rest) at h =
      ground (arith, state-AllOff app SystemState.init at.seen h)

  pub turn-AllOff : (app : App F) (t : Turn F) → AllOff setup app → AllOff setup (turn setup app t)
  unfolding turn request_command drive_safe_output control_turn carry_out
  turn-AllOff app (senses m stored) h = h
  turn-AllOff app (controls at) h = measurement-AllOff app app.measurement_queue at h
  turn-AllOff app (executes at) h = command-AllOff app app.command_queue at h
  turn-AllOff app (requests type) h = h
  turn-AllOff app (receives topic payload size now_ms) h =
      elim (mqtt_callback-cases setup app topic payload size now_ms) [
        | inl (posts, _, _) ↦ rw posts h
        | inr (stays, _) ↦ rw stays h
      ]
  turn-AllOff app (stops seen) h = state-AllOff app SystemState.fault seen h
  turn-AllOff app (subscribes now_ms) h = h

  run_turns-keeps_off :
      (app : App F) (ts : List (Turn F)) → AllOff setup app → AllOff setup (run_turns setup app ts)
  unfolding run_turns
  run_turns-keeps_off app [] h = h
  run_turns-keeps_off app (t ∷ ts) h =
      run_turns-keeps_off (turn setup app t) ts (turn-AllOff app t h)

  pub begin-AllOff :
      (config : ProtectionConfig F) (created : Created) (at : Moment) (app : App F)
      → app_begin setup config created at ≡ some app
      → AllOff setup app
  unfolding app_begin protection_begin initial_guard carry_out
  begin-AllOff config created at app e =
      let off = carry_out mode wiring initial_actuator begins in
      ground (
        arith,
        carry_out-IsOff mode wiring off (applies_state SystemState.init at.seen) wired held
            (carry_out-IsOff mode wiring initial_actuator begins wired held tt),
        e,
      )

  -- In a build that holds the relay off, from start-up on and over any turns of the tasks, no write ever
  -- puts the relay pin at another level than OFF.
  pub run_turns-AllOff :
      (config : ProtectionConfig F) (created : Created) (at : Moment) (app : App F)
      (ts : List (Turn F))
      → app_begin setup config created at ≡ some app
      → AllOff setup (run_turns setup app ts)
  run_turns-AllOff config created at app ts e =
      run_turns-keeps_off app ts (begin-AllOff config created at app e)
