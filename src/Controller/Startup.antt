-- ===== src/Controller/Startup.antt =====
-- `setup`, `createTasks` and `fatalStop` of src/main.cpp, up to the point at which every task runs.
use mathlib.Core.Option.{none, some}
use esp32_real_time_energy_c.Base.{
  inr, inl, ℕ, ◌≡◌, ◌↔◌, refl, Bool, true, false, ◌&&◌, [], if◌then◌else◌, arith,
}
use esp32_real_time_energy_c.Base.Float.{Float}
use esp32_real_time_energy_c.Measurement.{empty_measurement}
use esp32_real_time_energy_c.Protection.Types.{SystemState, ProtectionConfig}
use esp32_real_time_energy_c.Protection.{begin}
use esp32_real_time_energy_c.Base.{Bool-cases, ap}
use esp32_real_time_energy_c.Guard.{Guard, protection_begin, initial_guard}
use esp32_real_time_energy_c.Actuator.{
  Actuator, initial_actuator, actuator_begin, actuator_apply_state,
}
use esp32_real_time_energy_c.Actuator.Writes.{
  IsWired, latest_level, carry_out, applies_state, carry_out-relay,
}
use esp32_real_time_energy_c.Controller.{Setup, App, Moment}
use esp32_real_time_energy_c.Controller.Turns.{Created, app_begin}

-- What the task watchdog and the six calls of `xTaskCreatePinnedToCore` answer.
pub record StartAnswers : Type 0 where
  pub watchdog : Bool
  pub sensor_task : Bool
  pub control_task : Bool
  pub display_task : Bool
  pub network_task : Bool
  pub watchdog_task : Bool
  pub cli_task : Bool

-- `protectionBegin` stops for good, `fatalStop` does, or all tasks run.
pub data Started {ℓ} (F : Type ℓ) : Type ℓ where
  halted : Actuator → Started F
  stopped : Actuator → Started F
  running : App F → Started F

abbrev pub actuator_of {ℓ} : {F : Type ℓ} → Started F → Actuator
actuator_of (halted a) = a
actuator_of (stopped a) = a
actuator_of (running app) = app.actuator

-- Everything that `setup` asks for was granted.
abbrev pub AllGranted : Created → StartAnswers → Type 0
AllGranted created answers =
    (created.protection_mutex ≡ true)
    × (created.measurement_mutex ≡ true)
    × (created.measurement_queue ≡ true)
    × (created.command_queue ≡ true)
    × (answers.watchdog ≡ true)
    × (answers.sensor_task ≡ true)
    × (answers.control_task ≡ true)
    × (answers.display_task ≡ true)
    × (answers.network_task ≡ true)
    × (answers.watchdog_task ≡ true)
    × (answers.cli_task ≡ true)

-- ControlTask was created, and all that `setup` asks for before.
abbrev pub StartsControl : Created → StartAnswers → Type 0
StartsControl created answers =
    (created.protection_mutex ≡ true)
    × (created.measurement_mutex ≡ true)
    × (created.measurement_queue ≡ true)
    × (created.command_queue ≡ true)
    × (answers.watchdog ≡ true)
    × (answers.sensor_task ≡ true)
    × (answers.control_task ≡ true)

granted-StartsControl :
    (created : Created) (answers : StartAnswers)
    → AllGranted created answers
    → StartsControl created answers
granted-StartsControl created answers (a, b, c, d, e, f, g, _, _, _, _) = (a, b, c, d, e, f, g)

abbrev pub IsRunning {ℓ} : {F : Type ℓ} → Started F → Type 0
IsRunning (running app) = Unit
IsRunning (stopped a) = ⊥
IsRunning (halted a) = ⊥

module _ (setup : Setup) where
  open setup use {mode, wiring}

  -- The relay is commanded off, and the last write to its pin was its OFF level.
  abbrev pub IsHeld : Actuator → Type 0
  IsHeld a =
      (a.commanded_on ≡ false)
      × (latest_level wiring.relay_pin a.writes ≡ some wiring.relay_off_level)

  safe-IsHeld :
      (a : Actuator) (seen : ℕ)
      → IsWired wiring
      → IsHeld (actuator_apply_state mode wiring a SystemState.fault seen)
        × IsHeld (actuator_apply_state mode wiring a SystemState.init seen)
  unfolding carry_out
  safe-IsHeld a seen wired = (
    ground (arith, carry_out-relay mode wiring a (applies_state SystemState.fault seen) wired),
    ground (arith, carry_out-relay mode wiring a (applies_state SystemState.init seen) wired),
  )

module _ {ℓ} {F : Type ℓ} (setup : Setup) where
  open setup use {mode, wiring}

  unfoldable pub fatal_stop : Actuator → ℕ → Started F
  fatal_stop a seen = stopped (actuator_apply_state mode wiring a SystemState.fault seen)

  unfoldable pub create_tasks : App F → StartAnswers → ℕ → Started F
  unfolding fatal_stop
  create_tasks app answers seen =
      let failed = fatal_stop app.actuator seen in
      if answers.sensor_task
      then if answers.control_task
        then if answers.display_task
          then if answers.network_task
            then if answers.watchdog_task
              then if answers.cli_task then running app else failed
              else failed
            else failed
          else failed
        else failed
      else failed

  -- `setup` from the creation of the other kernel objects on
  unfoldable pub create_objects : App F → Created → StartAnswers → ℕ → Started F
  unfolding fatal_stop create_tasks
  create_objects app created answers seen =
      let failed = fatal_stop app.actuator seen in
      if created.measurement_mutex
      then if created.measurement_queue
        then if created.command_queue
          then if answers.watchdog then create_tasks app answers seen else failed
          else failed
        else failed
      else failed

module _ {ℓ} {F : Type ℓ} ⦃fl : Float F⦄ (setup : Setup) where
  open setup use {mode, wiring}

  abbrev pub started_app : Guard F → Actuator → App F
  started_app guard actuator = record {
    guard = guard;
    actuator = actuator;
    measurement_queue = [];
    command_queue = [];
    latest_measurement = empty_measurement;
    subscribed_at_ms = 0;
  }

  -- What `setup` itself does, step by step. A task runs from its creation on, so once ControlTask is
  -- created the outputs are no longer those of `setup` alone: System has the tasks from there.
  unfoldable pub setup_firmware : ProtectionConfig F → Created → StartAnswers → Moment → Started F
  unfolding create_objects actuator_begin actuator_apply_state
  setup_firmware config created answers at =
      let off = actuator_begin mode wiring initial_actuator in
      let actuator = actuator_apply_state mode wiring off SystemState.init at.seen in
      elim (protection_begin (initial_guard config) created.protection_mutex at.now_ms) [
        | none ↦ halted actuator
        | some guard ↦ create_objects setup (started_app guard actuator) created answers at.seen
      ]

  create_objects-IsHeld :
      (app : App F) (created : Created) (answers : StartAnswers) (seen : ℕ)
      → IsWired wiring
      → IsHeld setup app.actuator
      → IsHeld setup (actuator_of (create_objects setup app created answers seen))
  unfolding create_objects create_tasks fatal_stop
  create_objects-IsHeld app created answers seen wired h =
      ground (arith, safe-IsHeld setup app.actuator seen wired)

  create_objects-IsRunning :
      (app : App F) (created : Created) (answers : StartAnswers) (seen : ℕ)
      → created.protection_mutex ≡ true
      → IsRunning (create_objects setup app created answers seen) ↔ AllGranted created answers
  unfolding create_objects create_tasks fatal_stop
  create_objects-IsRunning app created answers seen h = ground (arith, h)

  create_objects-running :
      (app end : App F) (created : Created) (answers : StartAnswers) (seen : ℕ)
      → create_objects setup app created answers seen ≡ running end
      → (created.measurement_mutex && created.measurement_queue && created.command_queue ≡ true)
        × (app ≡ end)
  unfolding create_objects create_tasks fatal_stop
  create_objects-running app end created answers seen e = ground (arith, e)

  -- Where the tasks run after `setup`, they start from the state that `app_begin` has.
  pub setup_firmware-app_begin :
      (config : ProtectionConfig F) (created : Created) (answers : StartAnswers) (at : Moment)
      (app : App F)
      → setup_firmware config created answers at ≡ running app
      → app_begin setup config created at ≡ some app
  unfolding setup_firmware protection_begin app_begin
  setup_firmware-app_begin config created answers at =
      let off = actuator_begin mode wiring initial_actuator in
      elim (Bool-cases created.protection_mutex) [
        | inl made ↦
            let granted = record created { protection_mutex = true } in
            let begun = record (initial_guard config) {
              core = begin (initial_guard config).core at.now_ms;
              has_mutex = true;
            } in
            let app =
              started_app begun (actuator_apply_state mode wiring off SystemState.init at.seen) in
            rw made (λ b e.
              let (all, same) = create_objects-running app b granted answers at.seen e in
              rw all (ap some same))
        | inr missing ↦ rw missing (λ b e. absurd (ground (arith, e)))
      ]

  -- The end of `setup`, by its own steps.
  setup_firmware-ends :
      (config : ProtectionConfig F) (created : Created) (answers : StartAnswers) (at : Moment)
      → IsWired wiring
      → let s = setup_firmware config created answers at in
        IsHeld setup (actuator_of s)
        × (IsRunning s ↔ AllGranted created answers)
        × ((app : App F) → s ≡ running app → app_begin setup config created at ≡ some app)
  unfolding setup_firmware protection_begin app_begin
  setup_firmware-ends config created answers at wired =
      let off = actuator_begin mode wiring initial_actuator in
      let held = (safe-IsHeld setup off at.seen wired).1 in
      elim (Bool-cases created.protection_mutex) [
        | inl made ↦
            let granted = record created { protection_mutex = true } in
            let begun = record (initial_guard config) {
              core = begin (initial_guard config).core at.now_ms;
              has_mutex = true;
            } in
            let app =
              started_app begun (actuator_apply_state mode wiring off SystemState.init at.seen) in
            rw made (
              create_objects-IsHeld app granted answers at.seen wired held,
              create_objects-IsRunning app granted answers at.seen refl,
              setup_firmware-app_begin config granted answers at,
            )
        | inr missing ↦ rw missing (
          held,
          (λ e. absurd e, λ g. absurd (ground (arith, g.0))),
          setup_firmware-app_begin config (record created { protection_mutex = false }) answers at,
        )
      ]

  -- Where the kernel refuses anything that `setup` asks for before ControlTask or ControlTask itself, so
  -- that no task exists that could close the relay, `setup` stops for good with the relay commanded off
  -- and its pin at the OFF level, on a board whose relay has a pin of its own and two levels.
  pub setup_firmware-IsHeld :
      (config : ProtectionConfig F) (created : Created) (answers : StartAnswers) (at : Moment)
      → IsWired wiring
      → ¬ (StartsControl created answers)
      → let s = setup_firmware config created answers at in
        IsHeld setup (actuator_of s) × ¬ (IsRunning s)
  setup_firmware-IsHeld config created answers at wired refused =
      let (held, ends, _) = setup_firmware-ends config created answers at wired in
      (held, λ runs. refused (granted-StartsControl created answers (ends.0 runs)))
