-- ===== src/System/Tests.antt =====
-- The whole firmware of src/main.cpp at the settings of src/config.example.h, for the meter and with
-- simulated samples.
use esp32_real_time_energy_c.Base.{◌≡◌, refl, true, false, List, [], ◌∷◌, arith}
use esp32_real_time_energy_c.Base.Float.{Milli, milli_float, Milli-IsIeee}
use esp32_real_time_energy_c.Measurement.{
  build_measurement, some_not_finite, some_out_of_range, pzem, simulation,
}
use esp32_real_time_energy_c.Measurement.Meter.{read_measurement}
use esp32_real_time_energy_c.Actuator.{
  BuildFlags, build_mode, follow_state, hold_off, actuator_apply_result,
}
use esp32_real_time_energy_c.Guard.{protection_begin, initial_guard, protection_update}
use esp32_real_time_energy_c.Protection.{begin, new_core, update}
use esp32_real_time_energy_c.Protection.Tests.{test_config}
use esp32_real_time_energy_c.Watchdog.Supervisor.{Clocks}
use esp32_real_time_energy_c.Controller.{judge_measurement, control_turn, sensor_turn}
use esp32_real_time_energy_c.Cli.{press}
use esp32_real_time_energy_c.Controller.Turns.{app_begin}
use esp32_real_time_energy_c.Controller.Held.{AllOff}
use esp32_real_time_energy_c.Controller.Tests.{setup, at, created, boot}
use esp32_real_time_energy_c.Network.Tests.{network_setup, connected}
use esp32_real_time_energy_c.Console.Display.{Fits}
use esp32_real_time_energy_c.Console.Tests.{pzem_build, answers, Milli-PrintsShort}
use esp32_real_time_energy_c.System.{
  some, Firmware, System, Read, Step, samples, reads, draws, connects, types, beats, supervises,
  sensor, control, judges, applies, boot_system, system_step, run_system, Reached, boots, goes,
}
use esp32_real_time_energy_c.System.Configured.{
  configured, configured-IsBuilt, wiring-IsWired, device_id_valid,
}
use esp32_real_time_energy_c.System.Safety.{IsSafe, IsBuilt, Reached-IsSafe, Reached-AllOff}
use esp32_real_time_energy_c.System.Detection.{after_beat}
use esp32_real_time_energy_c.System.Contract.{guarded_of, contract_of, Reached-refines}
use esp32_real_time_energy_c.System.Packets.{Reached-FitsBuffers}
use esp32_real_time_energy_c.Base.{All}
use esp32_real_time_energy_c.Network.Packets.{FitsBuffers}
use esp32_real_time_energy_c.System.Reports.{Reached-Fits}

abbrev metered : Firmware Milli
metered =
    configured pzem_build (record { measurement_source = pzem; relay_output_mode = follow_state })
      177789161760246

abbrev simulation_build : BuildFlags
simulation_build = record {
  energy_source_pzem = false;
  energy_source_simulation = true;
  energy_relay_output_disable = false;
  energy_relay_output_enable = false;
}

abbrev simulated : Firmware Milli
simulated =
    configured simulation_build
      (record { measurement_source = simulation; relay_output_mode = hold_off }) 177789161760246

booted_metered : app_begin setup test_config created (at 500 1) ≡ some boot
unfolding app_begin protection_begin new_core initial_guard
booted_metered = refl

booted_simulated : app_begin simulated.setup test_config created (at 500 1) ≡ some boot
unfolding app_begin protection_begin new_core initial_guard
booted_simulated = refl

abbrev first : System Milli
first = boot_system metered boot connected 600 600

reaches :
    (firmware : Firmware Milli) (s : System Milli) (ts : List (Step Milli))
    → Reached firmware s
    → Reached firmware (run_system firmware s ts)
unfolding run_system
reaches firmware s [] r = r
reaches firmware s (t ∷ ts) r = reaches firmware (system_step firmware s t) ts (goes s t r)

-- Samples travel to all tasks, while NetworkTask and DisplayTask come in between.
abbrev steps : List (Step Milli)
steps =
    samples answers 1000 true
    ∷ reads (Read.network_snapshot (at 1001 1))
    ∷ judges (at 1002 1)
    ∷ applies 1
    ∷ reads (Read.network_copy true)
    ∷ reads (Read.display_copy true)
    ∷ connects
    ∷ draws
    ∷ types b'a'
    ∷ beats sensor 1010
    ∷ []

abbrev last : System Milli
last = run_system metered first steps

last-Reached : Reached metered last
last-Reached =
    reaches metered first steps (boots created (at 500 1) boot connected 600 600 booted_metered)

Reached-refines_example : guarded_of last.app.guard ≡ contract_of metered last last-Reached
Reached-refines_example = Reached-refines metered last last-Reached

Reached-IsSafe_example : IsSafe last
Reached-IsSafe_example = Reached-IsSafe metered last last-Reached

Reached-Fits_example : Fits 0 last.screen
Reached-Fits_example = Reached-Fits Milli-IsIeee Milli-PrintsShort metered last last-Reached

Reached-FitsBuffers_example : All (FitsBuffers network_setup) last.network.calls
Reached-FitsBuffers_example =
    Reached-FitsBuffers metered last device_id_valid (omega arith) last-Reached

relay_closes : last.app.actuator.commanded_on ≡ true
unfolding run_system boot_system read_measurement actuator_apply_result protection_update update
    press control_turn sensor_turn begin build_measurement some_not_finite some_out_of_range
    new_core judge_measurement
relay_closes = refl

-- The simulated build, whose NetworkTask once fails to copy the sample.
abbrev missed : System Milli
missed = run_system simulated (boot_system simulated boot connected 600 600) (
    samples answers 1000 true
    ∷ judges (at 1002 1)
    ∷ applies 1
    ∷ reads (Read.network_copy false)
    ∷ [])

missed-Reached : Reached simulated missed
missed-Reached =
    reaches simulated (boot_system simulated boot connected 600 600)
      (samples answers 1000 true
        ∷ judges (at 1002 1)
        ∷ applies 1
        ∷ reads (Read.network_copy false)
        ∷ [])
      (boots created (at 500 1) boot connected 600 600 booted_simulated)

simulated-IsBuilt : IsBuilt simulated
unfolding build_mode
simulated-IsBuilt = configured-IsBuilt simulation_build simulated.build 177789161760246 refl

Reached-AllOff_example : AllOff simulated.setup missed.app
Reached-AllOff_example =
    Reached-AllOff simulated missed simulated-IsBuilt wiring-IsWired refl missed-Reached

abbrev late_clocks : Clocks
late_clocks = record { beat_ms = 20_000; grace_ms = 20_000; check_ms = 20_001 }

-- SensorTask hangs after its heartbeat at 1.01 s; the supervisor comes at 20 s.
abbrev found : System Milli
found =
    system_step metered (after_beat metered last sensor 1010 (beats control 19_000 ∷ []))
      (supervises late_clocks 1)
