-- ===== src/System/Turns.antt =====
-- The steps of the whole of src/main.cpp, as the turns of the tasks on what they share.
use mathlib.Core.Option.{Option, none, some}
use esp32_real_time_energy_c.Base.{ℕ, ◌≡◌, sym, refl, List, [], ◌∷◌, if◌then◌else◌, arith}
use esp32_real_time_energy_c.Base.Float.{Float}
use esp32_real_time_energy_c.Measurement.Meter.{read_measurement}
use esp32_real_time_energy_c.Watchdog.{watchdog_manager_heartbeat}
use esp32_real_time_energy_c.Watchdog.Supervisor.{
  Clocks, heartbeat_watchdog, supervisor_restarts, supervisor_round,
}
use esp32_real_time_energy_c.Controller.{App, Moment}
use esp32_real_time_energy_c.Controller.Commands.{CommandType}
use esp32_real_time_energy_c.Controller.Turns.{
  Turn, senses, executes, requests, receives, subscribes, stops, turn, run_turns,
}
use esp32_real_time_energy_c.Cli.{Outcome, too_long, parsed, press, carry_out_line}
use esp32_real_time_energy_c.Protection.Types.{ProtectionResult}
use esp32_real_time_energy_c.Base.{All, subst}
use esp32_real_time_energy_c.Controller.{judge_measurement, apply_protection_result}
use esp32_real_time_energy_c.System.{
  fails, judges, applies, judge_step, apply_step, execute_step, Firmware, System, Step, registers,
  samples, reads, draws, connects, types, beats, supervises, carry_out_outcome, supervision,
  network_step, supervisor_step, system_step,
}

module _ {ℓ} {F : Type ℓ} where
  -- what a line asks of ControlTask
  abbrev pub line_turns : Option Outcome → List (Turn F)
  line_turns (some (parsed CommandType.reset line)) = requests CommandType.reset ∷ []
  line_turns (some (parsed CommandType.ack line)) = requests CommandType.ack ∷ []
  line_turns _ = []

module _ {ℓ} {F : Type ℓ} ⦃fl : Float F⦄ (firmware : Firmware F) where
  open firmware use {flags, setup, protection_config}

  -- The safe output, if the supervisor drives it.
  abbrev pub supervisor_turns : System F → Clocks → ℕ → List (Turn F)
  supervisor_turns s clocks seen =
      let beaten = watchdog_manager_heartbeat s.watchdog heartbeat_watchdog clocks.beat_ms in
      if s.restarting
      then []
      else if supervisor_restarts (supervision firmware s) beaten clocks
      then stops seen ∷ []
      else []

  -- The turns that a step makes on what the tasks share, if ControlTask takes no sample and applies none.
  abbrev pub turns_of : System F → Step F → List (Turn F)
  turns_of s (samples answers now_ms stored) =
      senses (read_measurement flags answers now_ms) stored ∷ []
  turns_of s (fails seen) = stops seen ∷ []
  turns_of s (Step.executes at) = executes at ∷ []
  turns_of s connects = subscribes (network_step firmware s).network.subscribed_at_ms ∷ []
  turns_of s (Step.receives topic payload size now_ms) = receives topic payload size now_ms ∷ []
  turns_of s (types byte) = line_turns (press s.cli byte).1
  turns_of s (supervises clocks seen) = supervisor_turns s clocks seen
  turns_of s _ = []

  outcome-turns :
      (app : App F) (o : Option Outcome)
      → carry_out_outcome setup app o ≡ run_turns setup app (line_turns o)
  unfolding run_turns turn carry_out_line
  outcome-turns app none = refl
  outcome-turns app (some too_long) = refl
  outcome-turns app (some (parsed type line)) = ground arith

  supervisor_step-turns :
      (s : System F) (clocks : Clocks) (seen : ℕ)
      → (supervisor_step firmware s clocks seen).app
        ≡ run_turns setup s.app (supervisor_turns s clocks seen)
  unfolding supervisor_step supervisor_round run_turns turn
  supervisor_step-turns s clocks seen = ground arith

  -- What every turn keeps, and what taking a sample or a tick and applying any result keep, a step keeps.
  module _ {p} (P : App F → Type p) (Allowed : Turn F → Type ℓ)
      (turns : (app : App F) (t : Turn F) → Allowed t → P app → P (turn setup app t))
      (judged : (app : App F) (at : Moment)
        → P app
        → P (judge_measurement setup app app.measurement_queue at).0)
      (applied : (app : App F) (r : ProtectionResult) (seen : ℕ)
        → P app
        → P (apply_protection_result setup app r seen)) where
    turns-keep :
        (app : App F) (ts : List (Turn F)) → All Allowed ts → P app → P (run_turns setup app ts)
    unfolding run_turns
    turns-keep app [] a h = h
    turns-keep app (t ∷ ts) (a, as_) h = turns-keep (turn setup app t) ts as_ (turns app t a h)

    judge-keeps :
        (app : App F) (due : Option ProtectionResult) (at : Moment)
        → P app
        → P (judge_step firmware app due at).0
    unfolding judge_step
    judge-keeps app none at h = judged app at h
    judge-keeps app (some r) at h = h

    apply-keeps :
        (app : App F) (due : Option ProtectionResult) (seen : ℕ)
        → P app
        → P (apply_step firmware app due seen)
    unfolding apply_step
    apply-keeps app none seen h = h
    apply-keeps app (some r) seen h = applied app r seen h

    execute-keeps :
        (app : App F) (due : Option ProtectionResult) (at : Moment)
        → Allowed (executes at)
        → P app
        → P (execute_step firmware app due at)
    unfolding execute_step turn
    execute-keeps app none at a h = turns app (executes at) a h
    execute-keeps app (some r) at a h = h

    pub system_step-keeps :
        (s : System F) (t : Step F)
        → All Allowed (turns_of s t)
        → P s.app
        → P (system_step firmware s t).app
    unfolding system_step turn network_step
    system_step-keeps s (registers answer) a h = h
    system_step-keeps s (fails seen) a h = turns s.app (stops seen) a.0 h
    system_step-keeps s (samples answers now_ms stored) a h =
        turns s.app (senses (read_measurement flags answers now_ms) stored) a.0 h
    system_step-keeps s (judges at) a h = judge-keeps s.app s.due at h
    system_step-keeps s (applies seen) a h = apply-keeps s.app s.due seen h
    system_step-keeps s (Step.executes at) a h = execute-keeps s.app s.due at a.0 h
    system_step-keeps s (reads what) a h = h
    system_step-keeps s draws a h = h
    system_step-keeps s connects a h =
        turns s.app (subscribes (network_step firmware s).network.subscribed_at_ms) a.0 h
    system_step-keeps s (Step.receives topic payload size now_ms) a h =
        turns s.app (receives topic payload size now_ms) a.0 h
    system_step-keeps s (types byte) a h =
        let outcome = (press s.cli byte).1 in
        subst P (sym (outcome-turns s.app outcome)) (turns-keep s.app (line_turns outcome) a h)
    system_step-keeps s (beats task now_ms) a h = h
    system_step-keeps s (supervises clocks seen) a h =
        subst P (sym (supervisor_step-turns s clocks seen))
          (turns-keep s.app (supervisor_turns s clocks seen) a h)
