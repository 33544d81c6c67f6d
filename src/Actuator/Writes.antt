-- ===== src/Actuator/Writes.antt =====
-- Every write to the relay pin, in src/actuator.cpp.
use mathlib.Core.Option.{Option, none, some}
use esp32_real_time_energy_c.Base.{
  ◌==◌, if◌then◌else◌, ℕ, ◌≡◌, ◌≢◌, ◌⊎◌, true, false, List, [], ◌∷◌, All, arith,
}
use esp32_real_time_energy_c.Protection.Types.{SystemState, ProtectionResult}
use esp32_real_time_energy_c.Protection.Invariant.{IsOperating}
use esp32_real_time_energy_c.Actuator.{
  is_follow_state, RelayOutputMode, hold_off, Wiring, PinWrite, Actuator, actuator_begin,
  actuator_apply_state, actuator_apply_result,
}

-- The calls of src/actuator.cpp, with what `digitalRead` returns.
pub data Order : Type 0 where
  begins : Order
  applies_state : SystemState → ℕ → Order
  applies_result : ProtectionResult → ℕ → Order

-- The relay is one pin, and its two levels differ.
pub record IsWired (wiring : Wiring) : Type 0 where
  pub normal_pin : wiring.led_normal_pin ≢ wiring.relay_pin
  pub alert_pin : wiring.led_alert_pin ≢ wiring.relay_pin
  pub levels : wiring.relay_on_level ≢ wiring.relay_off_level

-- the level of the latest write to a pin
unfoldable pub latest_level : ℕ → List PinWrite → Option ℕ
latest_level pin [] = none
latest_level pin (w ∷ ws) = if w.pin == pin then some w.level else latest_level pin ws

module _ (mode : RelayOutputMode) (wiring : Wiring) where
  unfoldable pub carry_out : Actuator → Order → Actuator
  unfolding actuator_begin actuator_apply_state actuator_apply_result
  carry_out a begins = actuator_begin mode wiring a
  carry_out a (applies_state state seen) = actuator_apply_state mode wiring a state seen
  carry_out a (applies_result result seen) = actuator_apply_result mode wiring a result seen

  unfoldable pub carry_out_all : Actuator → List Order → Actuator
  carry_out_all a [] = a
  carry_out_all a (o ∷ os) = carry_out_all (carry_out a o) os

  -- The order may energise the relay.
  abbrev pub Energises : Order → Type 0
  Energises begins = ⊥
  Energises (applies_state state seen) = IsOperating state
  Energises (applies_result result seen) =
      (result.synchronization_failed ≡ false) × IsOperating result.state

  -- A write that leaves the relay off: to another pin, or the OFF level.
  abbrev pub IsOff : PinWrite → Type 0
  IsOff w = (w.pin ≢ wiring.relay_pin) ⊎ (w.level ≡ wiring.relay_off_level)

  pub carry_out-IsOff :
      (a : Actuator) (o : Order)
      → IsWired wiring
      → mode ≡ hold_off
      → All IsOff a.writes
      → All IsOff (carry_out a o).writes
  unfolding carry_out
  carry_out-IsOff a begins wired h w = ground arith
  carry_out-IsOff a (applies_state state seen) wired h w = ground arith
  carry_out-IsOff a (applies_result result seen) wired h w = ground arith

  -- In a build that holds the relay off, no write ever puts the relay pin at another level than OFF,
  -- whatever states and results are applied and whatever the pin reads back.
  pub carry_out_all-IsOff :
      (a : Actuator) (os : List Order)
      → IsWired wiring
      → mode ≡ hold_off
      → All IsOff a.writes
      → All IsOff (carry_out_all a os).writes
  unfolding carry_out_all
  carry_out_all-IsOff a [] wired h w = w
  carry_out_all-IsOff a (o ∷ os) wired h w =
      carry_out_all-IsOff (carry_out a o) os wired h (carry_out-IsOff a o wired h w)

  -- Every order leaves the relay pin at its ON level if the build follows the state and the order
  -- comes from NORMAL or WARNING with the protection state accessible, and else at its OFF level,
  -- whatever the pin reads back; the command that is reported is ON in just these states.
  pub carry_out-relay :
      (a : Actuator) (o : Order)
      → IsWired wiring
      → let b = carry_out a o in
        (Energises o
          × (b.commanded_on ≡ true)
          × (latest_level wiring.relay_pin b.writes
              ≡ some
                  (if is_follow_state mode then wiring.relay_on_level else wiring.relay_off_level)))
        ⊎ (¬ (Energises o)
            × (b.commanded_on ≡ false)
            × (latest_level wiring.relay_pin b.writes ≡ some wiring.relay_off_level))
  unfolding carry_out latest_level
  carry_out-relay a begins w = ground arith
  carry_out-relay a (applies_state state seen) w = ground arith
  carry_out-relay a (applies_result result seen) w = ground arith

-- A fault, and the state after a reset, leave the relay commanded off.
pub actuator_apply_state-off :
    (mode : RelayOutputMode) (wiring : Wiring) (a : Actuator) (seen : ℕ)
    → ((actuator_apply_state mode wiring a SystemState.fault seen).commanded_on ≡ false)
      × ((actuator_apply_state mode wiring a SystemState.init seen).commanded_on ≡ false)
unfolding actuator_apply_state
actuator_apply_state-off mode wiring a seen = (ground arith, ground arith)
