-- ===== src/System/Samples.antt =====
-- The samples that travel through the whole of src/main.cpp, and what the display shows of them.
use mathlib.Core.Option.{Option, none, some}
use esp32_real_time_energy_c.Base.{
  All-append, ℕ, ◌≡◌, ◌⊎◌, inl, inr, refl, Bool, true, false, List, [], ◌∷◌, All, if◌then◌else◌,
  length, ltb, Bool-cases,
}
use esp32_real_time_energy_c.Base.{All-append}
use esp32_real_time_energy_c.Base.Float.{Float}
use esp32_real_time_energy_c.Measurement.{Measurement, empty_measurement}
use esp32_real_time_energy_c.Measurement.Meter.{DriverAnswers, read_measurement}
use esp32_real_time_energy_c.Controller.{
  apply_protection_result, sensor_turn, request_command, drive_safe_output, App, Moment, queue_send,
  control_measurement, control_turn, command_turn, execute, execute_reset, execute_acknowledge,
}
use esp32_real_time_energy_c.Protection.Types.{ProtectionResult}
use esp32_real_time_energy_c.Controller.{judge_measurement}
use esp32_real_time_energy_c.Controller.Commands.{CommandType}
use esp32_real_time_energy_c.Controller.Remote.{mqtt_callback-cases}
use esp32_real_time_energy_c.Controller.Turns.{
  Turn, senses, controls, executes, requests, receives, subscribes, stops, turn,
}
use esp32_real_time_energy_c.Cli.{Outcome, too_long, parsed, press}
use esp32_real_time_energy_c.Watchdog.{watchdog_manager_heartbeat}
use esp32_real_time_energy_c.Watchdog.Supervisor.{heartbeat_watchdog, supervisor_restarts}
use esp32_real_time_energy_c.System.{
  supervision, Firmware, System, Step, registers, samples, reads, draws, connects, types, beats,
  supervises, system_step, fails, judges, applies,
}
use esp32_real_time_energy_c.System.Turns.{line_turns, turns_of, system_step-keeps}

module _ {ℓ} {F : Type ℓ} ⦃fl : Float F⦄ (firmware : Firmware F) where
  open firmware use {flags, build, setup, protection_config}

  -- No sample so far, or one that `readMeasurement` made in this build.
  abbrev pub IsSample : Measurement F → Type ℓ
  IsSample m =
      (m ≡ empty_measurement)
      ⊎ ((answers : DriverAnswers F) × (now_ms : ℕ) × (m ≡ read_measurement flags answers now_ms))

  abbrev pub IsCopy : Option (Measurement F) → Type ℓ
  IsCopy none = Unit
  IsCopy (some m) = IsSample m

  pub record Holds (app : App F) : Type ℓ where
    pub latest : IsSample app.latest_measurement
    pub queued : All IsSample app.measurement_queue

  -- What a turn brings in is a sample of the build.
  abbrev Brings : Turn F → Type ℓ
  Brings (senses m stored) = IsSample m
  Brings _ = Unit

  send-AllSamples :
      (capacity : ℕ) (m : Measurement F) (queue : List (Measurement F))
      → IsSample m
      → All IsSample queue
      → All IsSample (queue_send capacity m queue)
  send-AllSamples capacity m queue i h = elim (Bool-cases (ltb (length queue) capacity)) [
    | inl room ↦ rw room (All-append IsSample queue (m ∷ []) h (i, tt))
    | inr full ↦ rw full h
  ]

  measurement-Holds :
      (app : App F) (queue : List (Measurement F)) (at : Moment)
      → Holds app
      → All IsSample queue
      → Holds (control_measurement setup app queue at)
  unfolding control_measurement apply_protection_result
  measurement-Holds app [] at h q = record { latest = h.latest; queued = h.queued }
  measurement-Holds app (m ∷ rest) at h (_, q) = record { latest = h.latest; queued = q }

  command-Holds :
      (app : App F) (queue : List CommandType) (at : Moment)
      → Holds app
      → Holds (command_turn setup app queue at)
  unfolding command_turn execute execute_reset execute_acknowledge
  command-Holds app [] at h = h
  command-Holds app (CommandType.reset ∷ rest) at h = record {
    latest = h.latest;
    queued = h.queued;
  }
  command-Holds app (CommandType.remote_reset ∷ rest) at h = record {
    latest = h.latest;
    queued = h.queued;
  }
  command-Holds app (CommandType.ack ∷ rest) at h = record { latest = h.latest; queued = h.queued }
  command-Holds app (CommandType.remote_ack ∷ rest) at h = record {
    latest = h.latest;
    queued = h.queued;
  }
  command-Holds app (_ ∷ rest) at h = record { latest = h.latest; queued = h.queued }

  turn-Holds : (app : App F) (t : Turn F) → Brings t → Holds app → Holds (turn setup app t)
  unfolding turn sensor_turn request_command control_turn drive_safe_output
  turn-Holds app (senses m true) i h = record {
    latest = i;
    queued = send-AllSamples setup.measurement_queue_length m app.measurement_queue i h.queued;
  }
  turn-Holds app (senses m false) i h = record {
    latest = h.latest;
    queued = send-AllSamples setup.measurement_queue_length m app.measurement_queue i h.queued;
  }
  turn-Holds app (controls at) i h = measurement-Holds app app.measurement_queue at h h.queued
  turn-Holds app (executes at) i h = command-Holds app app.command_queue at h
  turn-Holds app (requests type) i h = record { latest = h.latest; queued = h.queued }
  turn-Holds app (receives topic payload size now_ms) i h =
      elim (mqtt_callback-cases setup app topic payload size now_ms) [
        | inl (posts, _, _) ↦ rw posts (record { latest = h.latest; queued = h.queued })
        | inr (stays, _) ↦ rw stays h
      ]
  turn-Holds app (stops seen) i h = record { latest = h.latest; queued = h.queued }
  turn-Holds app (subscribes now_ms) i h = record { latest = h.latest; queued = h.queued }

  judge-Holds :
      (app : App F) (queue : List (Measurement F)) (at : Moment)
      → Holds app
      → All IsSample queue
      → Holds (judge_measurement setup app queue at).0
  unfolding judge_measurement
  judge-Holds app [] at h q = record { latest = h.latest; queued = h.queued }
  judge-Holds app (m ∷ rest) at h (_, q) = record { latest = h.latest; queued = q }

  apply-Holds :
      (app : App F) (r : ProtectionResult) (seen : ℕ)
      → Holds app
      → Holds (apply_protection_result setup app r seen)
  unfolding apply_protection_result
  apply-Holds app r seen h = record { latest = h.latest; queued = h.queued }

  line_turns-Brings : (o : Option Outcome) → All Brings (line_turns {F = F} o)
  line_turns-Brings none = tt
  line_turns-Brings (some too_long) = tt
  line_turns-Brings (some (parsed CommandType.reset line)) = (tt, tt)
  line_turns-Brings (some (parsed CommandType.ack line)) = (tt, tt)
  line_turns-Brings (some (parsed _ line)) = tt

  stops-Brings :
      (waits fires : Bool) (seen : ℕ)
      → All Brings (if waits then [] else if fires then stops seen ∷ [] else [])
  stops-Brings true fires seen = tt
  stops-Brings false true seen = (tt, tt)
  stops-Brings false false seen = tt

  turns_of-Brings : (s : System F) (t : Step F) → All Brings (turns_of firmware s t)
  turns_of-Brings s (samples answers now_ms stored) = (inr (answers, now_ms, refl), tt)
  turns_of-Brings s (types byte) = line_turns-Brings (press s.cli byte).1
  turns_of-Brings s (supervises clocks seen) =
      let beaten = watchdog_manager_heartbeat s.watchdog heartbeat_watchdog clocks.beat_ms in
      stops-Brings s.restarting (supervisor_restarts (supervision firmware s) beaten clocks) seen
  turns_of-Brings s (registers answer) = tt
  turns_of-Brings s (fails seen) = (tt, tt)
  turns_of-Brings s (judges at) = tt
  turns_of-Brings s (applies seen) = tt
  turns_of-Brings s (Step.executes at) = (tt, tt)
  turns_of-Brings s (reads what) = tt
  turns_of-Brings s draws = tt
  turns_of-Brings s connects = (tt, tt)
  turns_of-Brings s (Step.receives topic payload size now_ms) = (tt, tt)
  turns_of-Brings s (beats task now_ms) = tt

  pub step-Holds : (s : System F) (t : Step F) → Holds s.app → Holds (system_step firmware s t).app
  step-Holds s t h =
      system_step-keeps firmware Holds Brings (λ app t i k. turn-Holds app t i k)
        (λ app at k. judge-Holds app app.measurement_queue at k k.queued) apply-Holds s t
        (turns_of-Brings s t) h
