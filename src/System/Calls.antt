-- ===== src/System/Calls.antt =====
-- The calls on the guarded protection that the steps of src/main.cpp make.
use mathlib.Core.Option.{Option, none, some}
use esp32_real_time_energy_c.Base.{ℕ, ◌≡◌, refl, List, [], arith}
use esp32_real_time_energy_c.Base.Float.{Float}
use esp32_real_time_energy_c.Guard.Calls.{Call, calls}
use esp32_real_time_energy_c.Controller.{drive_safe_output, App, Moment, request_command}
use esp32_real_time_energy_c.Controller.Core.{control_calls, command_calls, turn-guard}
use esp32_real_time_energy_c.Controller.Turns.{stops, executes, receives, turn}
use esp32_real_time_energy_c.Cli.{Outcome, too_long, parsed, press, carry_out_line}
use esp32_real_time_energy_c.Controller.Core.{judge-guard}
use esp32_real_time_energy_c.Controller.{apply_protection_result}
use esp32_real_time_energy_c.Protection.Types.{ProtectionResult}
use esp32_real_time_energy_c.System.{
  fails, judges, applies, judge_step, apply_step, execute_step, supervisor_round, Firmware, System,
  Step, types, supervises, carry_out_outcome, network_step, display_step, supervisor_step,
  system_step,
}
use esp32_real_time_energy_c.Watchdog.Supervisor.{Clocks, supervisor_round}
use esp32_real_time_energy_c.Controller.{drive_safe_output}

module _ {ℓ} {F : Type ℓ} ⦃fl : Float F⦄ (firmware : Firmware F) where
  open firmware use {setup, protection_config}

  abbrev judge_calls : App F → Option ProtectionResult → Moment → List (Call F)
  judge_calls app none at = control_calls setup app.measurement_queue at
  judge_calls app (some r) at = []

  abbrev execute_calls : App F → Option ProtectionResult → Moment → List (Call F)
  execute_calls app none at = command_calls setup app.command_queue at
  execute_calls app (some r) at = []

  -- The calls on the guarded protection in a step: ControlTask makes them, and no other task.
  abbrev pub step_calls : System F → Step F → List (Call F)
  step_calls s (judges at) = judge_calls s.app s.due at
  step_calls s (Step.executes at) = execute_calls s.app s.due at
  step_calls s _ = []

  pub outcome-guard :
      (app : App F) (o : Option Outcome) → (carry_out_outcome setup app o).guard ≡ app.guard
  unfolding carry_out_line request_command
  outcome-guard app none = refl
  outcome-guard app (some too_long) = refl
  outcome-guard app (some (parsed type line)) = ground arith

  pub supervisor-guard :
      (s : System F) (clocks : Clocks) (seen : ℕ)
      → (supervisor_step firmware s clocks seen).app.guard ≡ s.app.guard
  unfolding supervisor_step supervisor_round drive_safe_output
  supervisor-guard s clocks seen = ground arith

  judged-guard :
      (app : App F) (due : Option ProtectionResult) (at : Moment)
      → (judge_step firmware app due at).0.guard ≡ calls app.guard (judge_calls app due at)
  unfolding judge_step calls
  judged-guard app none at = judge-guard setup app app.measurement_queue at
  judged-guard app (some r) at = refl

  applied-guard :
      (app : App F) (due : Option ProtectionResult) (seen : ℕ)
      → (apply_step firmware app due seen).guard ≡ app.guard
  unfolding apply_step apply_protection_result
  applied-guard app none seen = refl
  applied-guard app (some r) seen = refl

  executed-guard :
      (app : App F) (due : Option ProtectionResult) (at : Moment)
      → (execute_step firmware app due at).guard ≡ calls app.guard (execute_calls app due at)
  unfolding execute_step calls turn
  executed-guard app none at = turn-guard setup app (executes at)
  executed-guard app (some r) at = refl

  pub step-guard :
      (s : System F) (t : Step F)
      → (system_step firmware s t).app.guard ≡ calls s.app.guard (step_calls s t)
  unfolding system_step calls network_step display_step turn
  step-guard s (judges at) = judged-guard s.app s.due at
  step-guard s (applies seen) = applied-guard s.app s.due seen
  step-guard s (Step.executes at) = executed-guard s.app s.due at
  step-guard s (fails seen) = turn-guard setup s.app (stops seen)
  step-guard s (Step.receives topic payload size now_ms) =
      turn-guard setup s.app (receives topic payload size now_ms)
  step-guard s (types byte) = outcome-guard s.app (press s.cli byte).1
  step-guard s (supervises clocks seen) = supervisor-guard s clocks seen
  step-guard s _ = refl
