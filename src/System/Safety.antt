-- ===== src/System/Safety.antt =====
-- The relay of the whole of src/main.cpp.
use mathlib.Core.Option.{some}
use esp32_real_time_energy_c.Base.{All, ◌≡◌, sym, subst, ◌∙◌, inl, inr, arith}
use esp32_real_time_energy_c.Base.Float.{Float}
use esp32_real_time_energy_c.Measurement.{simulation}
use esp32_real_time_energy_c.Measurement.Meter.{build_mode_cases}
use esp32_real_time_energy_c.Actuator.{build_mode, hold_off}
use esp32_real_time_energy_c.Actuator.Writes.{IsWired}
use esp32_real_time_energy_c.Base.{List, [], ◌∷◌, refl, ℕ}
use mathlib.Core.Option.{Option, none}
use esp32_real_time_energy_c.Controller.Safety.{app_begin-IsSafe}
use esp32_real_time_energy_c.Controller.Core.{IsSound, step-IsSound, turn-guard}
use esp32_real_time_energy_c.Controller.Relay.{
  Tells, RelayFits, judge-Tells, apply-IsCurrent, command-RelayFits, turn-RelayFits,
}
use esp32_real_time_energy_c.Controller.Turns.{turn, Turn, stops, receives}
use esp32_real_time_energy_c.Controller.{
  App, Moment, request_command, sensor_turn, drive_safe_output,
}
use esp32_real_time_energy_c.Cli.{Outcome, too_long, parsed, press, carry_out_line}
use esp32_real_time_energy_c.Protection.Types.{ProtectionResult}
use esp32_real_time_energy_c.Guard.Calls.{calls, calls-keeps}
use esp32_real_time_energy_c.Watchdog.Supervisor.{Clocks, supervisor_round}
use esp32_real_time_energy_c.Actuator.{actuator_apply_state}
use esp32_real_time_energy_c.System.Calls.{step_calls, step-guard, outcome-guard, supervisor-guard}
use esp32_real_time_energy_c.Controller.Held.{
  AllOff, turn-AllOff, judge-AllOff, apply-AllOff, begin-AllOff,
}
use esp32_real_time_energy_c.System.{
  Firmware, System, Step, registers, fails, samples, judges, applies, reads, draws, connects, types,
  beats, supervises, carry_out_outcome, network_step, display_step, supervisor_step, judge_step,
  apply_step, execute_step, system_step, boot_system, Reached, boots, goes,
}
use esp32_real_time_energy_c.System.Turns.{turns_of, system_step-keeps}

-- The firmware compiles, and src/actuator.cpp has the relay mode of the build.
pub record IsBuilt {ℓ} {F : Type ℓ} (firmware : Firmware F) : Type 0 where
  pub compiles : build_mode firmware.flags ≡ some firmware.build
  pub obeys : firmware.setup.mode ≡ firmware.build.relay_output_mode

-- Between its rounds, and while it takes commands, ControlTask has the relay in step with the core; while
-- it has a result that it has not applied, the result tells of the core.
abbrev pub IsSettled {ℓ} : {F : Type ℓ} → App F → Option ProtectionResult → Type 0
IsSettled app none = RelayFits app
IsSettled app (some result) = Tells app.guard result

-- The core is consistent with a good sample behind NORMAL and WARNING, and the relay is settled.
pub record IsSafe {ℓ} {F : Type ℓ} ⦃fl : Float F⦄ (s : System F) : Type 0 where
  pub sound : IsSound s.app.guard.core
  pub settled : IsSettled s.app s.due

module _ {ℓ} {F : Type ℓ} where
  -- A step that leaves the protection alone.
  keeps-IsSettled :
      (a b : App F) (due : Option ProtectionResult)
      → b.guard ≡ a.guard
      → (RelayFits a → RelayFits b)
      → IsSettled a due
      → IsSettled b due
  keeps-IsSettled a b none e k h = k h
  keeps-IsSettled a b (some r) e k h = subst (λ g. Tells g r) (sym e) h

module _ {ℓ} {F : Type ℓ} ⦃fl : Float F⦄ (firmware : Firmware F) where
  open firmware use {flags, build, setup, protection_config}

  outcome-RelayFits :
      (app : App F) (o : Option Outcome) → RelayFits app → RelayFits (carry_out_outcome setup app o)
  unfolding carry_out_line request_command
  outcome-RelayFits app none h = h
  outcome-RelayFits app (some too_long) h = h
  outcome-RelayFits app (some (parsed type line)) h = ground (arith, h)

  supervisor-RelayFits :
      (s : System F) (clocks : Clocks) (seen : ℕ)
      → RelayFits s.app
      → RelayFits (supervisor_step firmware s clocks seen).app
  unfolding supervisor_step supervisor_round drive_safe_output actuator_apply_state
  supervisor-RelayFits s clocks seen h = ground (arith, h)

  supervisor-due :
      (s : System F) (clocks : Clocks) (seen : ℕ)
      → (supervisor_step firmware s clocks seen).due ≡ s.due
  unfolding supervisor_step
  supervisor-due s clocks seen = ground arith

  judge-IsSettled :
      (app : App F) (due : Option ProtectionResult) (at : Moment)
      → IsSettled app due
      → let (b, next) = judge_step firmware app due at in IsSettled b next
  unfolding judge_step
  judge-IsSettled app none at h = judge-Tells setup app app.measurement_queue at
  judge-IsSettled app (some r) at h = h

  apply-IsSettled :
      (app : App F) (due : Option ProtectionResult) (seen : ℕ)
      → IsSettled app due
      → RelayFits (apply_step firmware app due seen)
  unfolding apply_step
  apply-IsSettled app none seen h = h
  apply-IsSettled app (some r) seen h = ground (arith, apply-IsCurrent setup app r seen h)

  execute-IsSettled :
      (app : App F) (due : Option ProtectionResult) (at : Moment)
      → IsSettled app due
      → IsSettled (execute_step firmware app due at) due
  unfolding execute_step
  execute-IsSettled app none at h = command-RelayFits setup app app.command_queue at h
  execute-IsSettled app (some r) at h = h

  step-IsSettled :
      (s : System F) (t : Step F)
      → IsSettled s.app s.due
      → let next = system_step firmware s t in IsSettled next.app next.due
  unfolding system_step sensor_turn network_step display_step calls turn
  step-IsSettled s (registers answer) h = h
  step-IsSettled s (fails seen) h =
      keeps-IsSettled s.app (system_step firmware s (fails seen)).app s.due
        (turn-guard setup s.app (stops seen)) (turn-RelayFits setup s.app (stops seen)) h
  step-IsSettled s (samples answers now_ms stored) h =
      keeps-IsSettled s.app (system_step firmware s (samples answers now_ms stored)).app s.due refl
        (λ k. k) h
  step-IsSettled s (judges at) h = judge-IsSettled s.app s.due at h
  step-IsSettled s (applies seen) h = apply-IsSettled s.app s.due seen h
  step-IsSettled s (Step.executes at) h = execute-IsSettled s.app s.due at h
  step-IsSettled s (Step.receives topic payload size now_ms) h =
      keeps-IsSettled s.app (system_step firmware s (Step.receives topic payload size now_ms)).app
        s.due (turn-guard setup s.app (receives topic payload size now_ms))
        (turn-RelayFits setup s.app (receives topic payload size now_ms)) h
  step-IsSettled s connects h =
      keeps-IsSettled s.app (system_step firmware s connects).app s.due refl (λ k. k) h
  step-IsSettled s (types byte) h =
      let outcome = (press s.cli byte).1 in
      keeps-IsSettled s.app (system_step firmware s (types byte)).app s.due
        (outcome-guard firmware s.app outcome) (outcome-RelayFits s.app outcome) h
  step-IsSettled s (supervises clocks seen) h =
      subst (IsSettled (supervisor_step firmware s clocks seen).app)
        (sym (supervisor-due s clocks seen))
        (keeps-IsSettled s.app (system_step firmware s (supervises clocks seen)).app s.due
          (supervisor-guard firmware s clocks seen) (supervisor-RelayFits s clocks seen) h)
  step-IsSettled s (reads what) h = h
  step-IsSettled s draws h = h
  step-IsSettled s (beats task now_ms) h = h

  -- In every state that the device comes to, also between the single steps of ControlTask and from the
  -- creation of the tasks on, whatever the tasks do in whatever order: the protection core is consistent,
  -- and a good sample is behind NORMAL and WARNING. Unless ControlTask has just got a result that it has
  -- not applied yet, the relay is commanded on only in these states and never while a lock failure waits
  -- to be latched; such a result tells the state of the core, or that the lock failed and waits to be
  -- latched.
  pub Reached-IsSafe : (s : System F) → Reached firmware s → IsSafe s
  unfolding boot_system
  Reached-IsSafe s (boots created at app world setup_ms started_ms e) =
      let begun = app_begin-IsSafe setup protection_config created at app e in
      record { sound = begun.sound; settled = begun.relay }
  Reached-IsSafe s (goes before t r) =
      let h = Reached-IsSafe before r in
      record {
        sound =
            subst (λ g. IsSound g.core) (sym (step-guard firmware before t))
              (calls-keeps IsSound (step-IsSound setup) before.app.guard
                (step_calls firmware before t) h.sound);
        settled = step-IsSettled before t h.settled;
      }

  simulation-hold_off :
      IsBuilt firmware → build.measurement_source ≡ simulation → setup.mode ≡ hold_off
  simulation-hold_off b simulated = elim (build_mode_cases flags build b.compiles) [
    | inl (_, metered) ↦ absurd (ground (arith, metered, simulated))
    | inr (_, _, held) ↦ b.obeys ∙ held
  ]

  abbrev IsAny : Turn F → Type ℓ
  IsAny t = Unit

  All-IsAny : (ts : List (Turn F)) → All IsAny ts
  All-IsAny [] = tt
  All-IsAny (t ∷ ts) = (tt, All-IsAny ts)

  -- A firmware that simulates its samples never puts the relay pin at another level than OFF, in any
  -- state that the device comes to, on a board whose relay has a pin of its own and two levels.
  pub Reached-AllOff :
      (s : System F)
      → IsBuilt firmware
      → IsWired setup.wiring
      → build.measurement_source ≡ simulation
      → Reached firmware s
      → AllOff setup s.app
  unfolding boot_system
  Reached-AllOff s built wired simulated (boots created at app world setup_ms started_ms e) =
      begin-AllOff setup wired (simulation-hold_off built simulated) protection_config created at
        app e
  Reached-AllOff s built wired simulated (goes before t r) =
      let held = simulation-hold_off built simulated in
      system_step-keeps firmware (AllOff setup) IsAny
        (λ app u _ h. turn-AllOff setup wired held app u h)
        (λ app at h. judge-AllOff setup wired held app app.measurement_queue at h)
        (λ app r seen h. apply-AllOff setup wired held app r seen h) before t
        (All-IsAny (turns_of firmware before t)) (Reached-AllOff before built wired simulated r)
