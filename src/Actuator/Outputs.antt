-- ===== src/Actuator/Outputs.antt =====
-- The output policy of lib/energy_core/src/actuator_policy.cpp and src/build_mode.h.
use mathlib.Core.Option.{some}
use esp32_real_time_energy_c.Base.{ℕ, ◌≡◌, ◌≢◌, ◌↔◌, true, false, arith}
use esp32_real_time_energy_c.Protection.Types.{SystemState, ProtectionResult}
use esp32_real_time_energy_c.Protection.Invariant.{IsOperating}
use esp32_real_time_energy_c.Actuator.{
  outputs_for_result, outputs_for_state, relay_pin_driven_on, relay_level, BuildFlags, BuildMode,
  build_mode,
}

-- In every build that compiles, the relay pin gets its ON level exactly if the build is for the real
-- meter with the relay output left enabled, the protection state was accessible, and it is NORMAL or
-- WARNING.
pub relay_on_iff :
    (flags : BuildFlags) (mode : BuildMode) (result : ProtectionResult) (on_level off_level : ℕ)
    → build_mode flags ≡ some mode
    → on_level ≢ off_level
    → (relay_level
          (relay_pin_driven_on
            (outputs_for_result result).relay_commanded_on
            mode.relay_output_mode)
          on_level
          off_level
        ≡ on_level)
      ↔ ((flags.energy_source_pzem ≡ true)
          × (flags.energy_relay_output_disable ≡ false)
          × (result.synchronization_failed ≡ false)
          × IsOperating result.state)
unfolding build_mode relay_level relay_pin_driven_on outputs_for_result
relay_on_iff flags mode result on_level off_level e d = ground arith

-- The relay command and the two LEDs together tell the four states apart.
pub outputs_for_state-injective :
    (s t : SystemState) → outputs_for_state s ≡ outputs_for_state t → s ≡ t
unfolding outputs_for_state
outputs_for_state-injective s t e = ground arith
