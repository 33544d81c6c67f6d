-- ===== src/Protection/Tests.antt =====
-- The protection core of lib/energy_core/src/protection_core.cpp at the limits of
-- src/config.example.h, on numbers in thousandths.
use mathlib.Core.Option.{none, some}
use esp32_real_time_energy_c.Base.{
  ℕ, ◌*◌, ◌≤◌, ◌<◌, ◌≡◌, ◌≢◌, ◌⊎◌, ◌↔◌, inl, inr, refl, true, false, ◌++◌, List, [], ◌∷◌, arith,
}
use esp32_real_time_energy_c.Base.Words.{sub32, add32}
use esp32_real_time_energy_c.Base.Float.{Milli, milli_float}
use esp32_real_time_energy_c.Measurement.{Measurement, ok, pzem}
use esp32_real_time_energy_c.Protection.{ProtectionCore, new_core, begin, tick, request_reset}
use esp32_real_time_energy_c.Protection.Types.{
  SystemState, FaultCode, ResetResult, ProtectionConfig,
}
use esp32_real_time_energy_c.Protection.Events.{
  Event, samples, ticks, resets, acknowledges, step, run,
}
use esp32_real_time_energy_c.Protection.Invariant.{IsConsistent, IsOperating, run-IsConsistent}
use esp32_real_time_energy_c.Protection.Latch.{IsHeld, HasAcceptedReset, fault_latched}
use esp32_real_time_energy_c.Protection.Reset.{MayReset, request_reset-accepted_iff}
use esp32_real_time_energy_c.Protection.Samples.{IsBacked, operating-IsBacked, tick-silence}
use esp32_real_time_energy_c.Protection.Diagram.{◌⟶◌, Moves, step-Moves}
use esp32_real_time_energy_c.Protection.Confirmation.{burst, confirmation_trips}
use esp32_real_time_energy_c.Protection.Persistence.{EndsOver, overpower_persisted}
use esp32_real_time_energy_c.Protection.Supply.{HasGoodSample, operating_needs_good_sample}
use esp32_real_time_energy_c.Protection.Policy.{waiting, obey_all}
use esp32_real_time_energy_c.Protection.Refinement.{policy_of, run-refines-policy}

abbrev watts : ℕ → Milli
watts n = some (n * 1000)

-- the limits of config.example.h
abbrev pub test_config : ProtectionConfig Milli
test_config = record {
  warning_power_w = watts 485;
  fault_power_w = watts 550;
  min_operating_voltage_v = watts 10;
  fault_confirm_ms = 2000;
  max_measurement_age_ms = 3000;
}

-- a valid sample at 230 V
abbrev pub sample : ℕ → ℕ → Measurement Milli
sample power timestamp_ms = record {
  voltage = watts 230;
  current = watts 2;
  power = watts power;
  energy = watts 0;
  apparent_power = watts 460;
  power_factor = watts 1;
  valid = true;
  status = ok;
  source = pzem;
  timestamp = timestamp_ms;
}

abbrev pub core : ProtectionCore Milli
core = new_core test_config

-- normal load, then an overload for 2 s, an acknowledgement, and a reset after the load is gone
abbrev pub overload : List (Event Milli)
overload =
    samples (sample 40 1000) 1000
    ∷ samples (sample 600 2000) 2000
    ∷ samples (sample 600 3000) 3000
    ∷ samples (sample 600 4000) 4000
    ∷ []

abbrev pub recovery : List (Event Milli)
recovery =
    acknowledges ∷ samples (sample 500 5000) 5000 ∷ resets 5100 ∷ samples (sample 40 6000) 6000 ∷ []

runs :
    ((run (begin core 500) overload).state ≡ SystemState.fault)
    × ((run (begin core 500) overload).fault.active_fault ≡ FaultCode.overpower)
    × ((run (run (begin core 500) overload) recovery).state ≡ SystemState.normal)
    × ((tick (run (begin core 500) overload) 9000).0.fault.active_fault ≡ FaultCode.overpower)
    × ((tick (begin core 500) 3501).0.fault.active_fault ≡ FaultCode.sensor_stale)
unfolding run step begin new_core
runs = (refl, refl, refl, refl, refl)

-- the core after the overload has tripped it
abbrev tripped : ProtectionCore Milli
tripped = run (begin core 500) overload

tripped-IsConsistent : IsConsistent tripped
tripped-IsConsistent = run-IsConsistent core 500 overload

tripped_fault : tripped.state ≡ SystemState.fault
unfolding run step begin new_core
tripped_fault = refl

fault_latched_example : IsHeld tripped (run tripped recovery) ⊎ HasAcceptedReset tripped recovery
fault_latched_example = fault_latched tripped recovery tripped-IsConsistent tripped_fault

-- the core after one normal sample
abbrev loaded : ProtectionCore Milli
loaded = run (begin core 500) (samples (sample 40 1000) 1000 ∷ [])

loaded-IsConsistent : IsConsistent loaded
loaded-IsConsistent = run-IsConsistent core 500 (samples (sample 40 1000) 1000 ∷ [])

request_reset-accepted_iff_example :
    ((request_reset tripped 4500).1 ≡ ResetResult.accepted) ↔ MayReset tripped 4500
request_reset-accepted_iff_example = request_reset-accepted_iff tripped 4500 tripped-IsConsistent

loaded-IsOperating : IsOperating (tick loaded 3500).0.state
unfolding run step begin tick new_core
loaded-IsOperating = inl refl

operating-IsBacked_example :
    IsBacked (tick loaded 3500).0
    × (sub32 3500 (tick loaded 3500).0.last_sample_ms ≤ (tick loaded 3500).0.max_measurement_age_ms)
operating-IsBacked_example =
    operating-IsBacked core 500 3500 (samples (sample 40 1000) 1000 ∷ []) loaded-IsOperating

tick-silence_example :
    let d = (tick loaded 5000).0 in
    ((loaded.state ≢ SystemState.fault)
      × (loaded.max_measurement_age_ms < sub32 5000 loaded.last_sample_ms)
      × (d.state ≡ SystemState.fault)
      × (d.fault.active_fault ≡ FaultCode.sensor_stale)
      × (d.fault.active_since ≡ 5000))
    ⊎ (((loaded.state ≡ SystemState.fault)
          ⊎ (sub32 5000 loaded.last_sample_ms ≤ loaded.max_measurement_age_ms))
        × (d ≡ loaded))
tick-silence_example = tick-silence loaded 5000 loaded-IsConsistent

step-Moves_example :
    (loaded.state ⟶ (step loaded (ticks 5000)).state)
    × Moves {F = Milli} (ticks 5000) loaded.state (step loaded (ticks 5000)).state
step-Moves_example = step-Moves loaded (ticks 5000) loaded-IsConsistent

-- the window opens just before the clock wraps
confirmation_trips_example :
    let start : ℕ = 4_294_967_000 in
    let held =
      run
        (step loaded (samples (sample 600 start) start))
        (burst start ((sample 600 704, 1000) ∷ [])) in
    let last = step held (samples (sample 600 1704) (add32 start 2000)) in
    (held.state ≡ SystemState.warning)
    × (held.fault.active ≡ false)
    × (last.state ≡ SystemState.fault)
    × (last.fault.active_fault ≡ FaultCode.overpower)
    × (last.fault.active_since ≡ add32 start 2000)
unfolding run step begin new_core
confirmation_trips_example =
    confirmation_trips loaded (sample 600 4_294_967_000) (sample 600 1704) 4_294_967_000 2000
      ((sample 600 704, 1000) ∷ []) loaded-IsConsistent (inl refl) refl (omega arith) (omega arith)
      (omega arith) (ground arith) (ground arith) (ground arith) (omega arith)

overpower_persisted_example :
    (first_ms : ℕ) × EndsOver test_config
      ((samples (sample 40 1000) 1000
          ∷ samples (sample 600 2000) 2000
          ∷ samples (sample 600 3000) 3000
          ∷ [])
        ++ (samples (sample 600 4000) 4000 ∷ []))
      first_ms
    × (2000 ≤ sub32 4000 first_ms)
unfolding run step begin new_core
overpower_persisted_example =
    overpower_persisted core 500 4000
      (samples (sample 40 1000) 1000
        ∷ samples (sample 600 2000) 2000
        ∷ samples (sample 600 3000) 3000
        ∷ [])
      (sample 600 4000) refl refl refl

operating_needs_good_sample_example : HasGoodSample tripped recovery
unfolding run step begin new_core
operating_needs_good_sample_example =
    operating_needs_good_sample tripped recovery tripped-IsConsistent (inr refl) (inl refl)

run-refines-policy_example :
    policy_of tripped
    ≡ obey_all test_config
        (record { phase = waiting; rearmed = 500; heard = 500; newest = none })
        overload
unfolding new_core
run-refines-policy_example = run-refines-policy core 500 overload
