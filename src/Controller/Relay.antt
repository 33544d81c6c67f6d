-- ===== src/Controller/Relay.antt =====
-- The relay and the protection state, in one turn of the tasks of src/main.cpp.
use esp32_real_time_energy_c.Base.{ℕ, ◌≡◌, ◌⊎◌, inl, inr, Bool, true, false, List, [], ◌∷◌, arith}
use esp32_real_time_energy_c.Base.Float.{Float}
use esp32_real_time_energy_c.Measurement.{Measurement}
use esp32_real_time_energy_c.Protection.Types.{ProtectionResult}
use esp32_real_time_energy_c.Protection.Invariant.{IsOperating}
use esp32_real_time_energy_c.Protection.{acknowledge, request_reset}
use esp32_real_time_energy_c.Actuator.{actuator_apply_state}
use esp32_real_time_energy_c.Guard.{
  Guard, protection_update, protection_tick, protection_reset, protection_acknowledge,
}
use esp32_real_time_energy_c.Protection.{update, tick}
use esp32_real_time_energy_c.Actuator.{outputs_for_result, actuator_apply_result}
use esp32_real_time_energy_c.Controller.Commands.{CommandType}
use esp32_real_time_energy_c.Controller.{
  drive_safe_output, apply_protection_result, request_command, Setup, App, Moment,
  judge_measurement, control_measurement, command_turn,
}
use esp32_real_time_energy_c.Controller.Remote.{mqtt_callback-cases}
use esp32_real_time_energy_c.Controller.Turns.{
  Turn, senses, controls, executes, requests, receives, subscribes, stops, turn,
}

-- A result tells the state of the core, or that the lock failed and the fault is pending.
abbrev pub Tells {ℓ} : {F : Type ℓ} → Guard F → ProtectionResult → Type 0
Tells g r =
    ((r.synchronization_failed ≡ true) × (g.internal_fault_pending ≡ true))
    ⊎ ((r.synchronization_failed ≡ false)
        × (g.internal_fault_pending ≡ false)
        × (r.state ≡ g.core.state))

-- The relay is commanded on only in NORMAL and WARNING, and not while an internal fault is pending.
abbrev pub RelayFits {ℓ} : {F : Type ℓ} → App F → Type 0
RelayFits app =
    (app.actuator.commanded_on ≡ true → IsOperating app.guard.core.state)
    × (app.guard.internal_fault_pending ≡ true → app.actuator.commanded_on ≡ false)

module _ {ℓ} {F : Type ℓ} ⦃fl : Float F⦄ where
  update-Tells :
      (g : Guard F) (m : Measurement F) (taken : Bool) (now_ms : ℕ)
      → let (h, r) = protection_update g m taken now_ms in Tells h r
  unfolding protection_update update
  update-Tells g m taken now_ms = ground arith

  tick-Tells :
      (g : Guard F) (taken : Bool) (now_ms : ℕ)
      → let (h, r) = protection_tick g taken now_ms in Tells h r
  unfolding protection_tick tick
  tick-Tells g taken now_ms = ground arith

  -- The relay is commanded on in just the operating states, and only with no fault pending.
  abbrev pub IsCurrent : App F → Type 0
  IsCurrent app =
      ((app.actuator.commanded_on ≡ true)
        × IsOperating app.guard.core.state
        × (app.guard.internal_fault_pending ≡ false))
      ⊎ ((app.actuator.commanded_on ≡ false)
          × ((app.guard.internal_fault_pending ≡ true) ⊎ ¬ (IsOperating app.guard.core.state)))

  pub apply-IsCurrent :
      (setup : Setup) (app : App F) (r : ProtectionResult) (seen : ℕ)
      → Tells app.guard r
      → IsCurrent (apply_protection_result setup app r seen)
  unfolding apply_protection_result actuator_apply_result outputs_for_result
  apply-IsCurrent setup app r seen told = ground arith

  pub judge-Tells :
      (setup : Setup) (app : App F) (queue : List (Measurement F)) (at : Moment)
      → let (b, r) = judge_measurement setup app queue at in Tells b.guard r
  unfolding judge_measurement
  judge-Tells setup app [] at = tick-Tells app.guard at.taken at.now_ms
  judge-Tells setup app (m ∷ rest) at = update-Tells app.guard m at.taken at.now_ms

  -- Right after ControlTask has taken a sample or ticked, from any state, the relay is commanded on
  -- exactly if the lock was taken and the core is in NORMAL or WARNING.
  pub control_measurement-IsCurrent :
      (setup : Setup) (app : App F) (queue : List (Measurement F)) (at : Moment)
      → IsCurrent (control_measurement setup app queue at)
  unfolding control_measurement
  control_measurement-IsCurrent setup app [] at =
      let (g, r) = protection_tick app.guard at.taken at.now_ms in
      apply-IsCurrent setup (record app { guard = g }) r at.seen
        (tick-Tells app.guard at.taken at.now_ms)
  control_measurement-IsCurrent setup app (m ∷ rest) at =
      let (g, r) = protection_update app.guard m at.taken at.now_ms in
      apply-IsCurrent setup (record app { guard = g; measurement_queue = rest }) r at.seen
        (update-Tells app.guard m at.taken at.now_ms)

module _ {ℓ} {F : Type ℓ} ⦃fl : Float F⦄ (setup : Setup) where
  pub command-RelayFits :
      (app : App F) (queue : List CommandType) (at : Moment)
      → RelayFits app
      → RelayFits (command_turn setup app queue at)
  unfolding command_turn protection_reset request_reset protection_acknowledge acknowledge
      actuator_apply_state
  command-RelayFits app [] at h = h
  command-RelayFits app (type ∷ rest) at h = ground arith

  pub turn-RelayFits : (app : App F) (t : Turn F) → RelayFits app → RelayFits (turn setup app t)
  unfolding turn request_command drive_safe_output actuator_apply_state
  turn-RelayFits app (senses m stored) h = h
  turn-RelayFits app (controls at) h =
      ground (arith, control_measurement-IsCurrent setup app app.measurement_queue at)
  turn-RelayFits app (executes at) h = command-RelayFits app app.command_queue at h
  turn-RelayFits app (requests type) h = h
  turn-RelayFits app (receives topic payload size now_ms) h =
      elim (mqtt_callback-cases setup app topic payload size now_ms) [
        | inl (posts, _, _) ↦ rw posts h
        | inr (stays, _) ↦ rw stays h
      ]
  turn-RelayFits app (stops seen) h = ground arith
  turn-RelayFits app (subscribes now_ms) h = h
