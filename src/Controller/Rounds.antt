-- ===== src/Controller/Rounds.antt =====
-- One round of `controlTask` in src/main.cpp: a sample or a tick, and then the commands that wait.
use esp32_real_time_energy_c.Base.{
  Bool, false, Bool-cases, inl, inr, if◌then◌else◌, ◌≤◌, ◌≡◌, refl, ap, ◌∙◌, List, [], ◌∷◌, arith,
  length,
}
use esp32_real_time_energy_c.Base.Float.{Float}
use esp32_real_time_energy_c.Controller.Commands.{CommandType}
use esp32_real_time_energy_c.Controller.{
  Setup, App, Moment, control_turn, command_turn, control_measurement, execute, execute_reset,
  execute_acknowledge, is_reset_accepted, apply_protection_result,
}
use esp32_real_time_energy_c.Controller.Queues.{command_turn-queue, control-commands}
use esp32_real_time_energy_c.Guard.{
  Guard, protection_update, protection_tick, protection_reset, protection_acknowledge,
}
use esp32_real_time_energy_c.Actuator.Writes.{actuator_apply_state-off}
use esp32_real_time_energy_c.Measurement.{Measurement}

module _ {ℓ} {F : Type ℓ} ⦃fl : Float F⦄ (setup : Setup) where
  -- The drain loop, while no other task posts a command. The moments of its passes are the fuel.
  unfoldable drain : App F → List CommandType → List Moment → App F
  unfolding command_turn
  drain app [] ats = app
  drain app (type ∷ rest) [] = app
  drain app (type ∷ rest) (at ∷ ats) =
      let next = command_turn setup app (type ∷ rest) at in drain next next.command_queue ats

  unfoldable pub control_round : App F → Moment → List Moment → App F
  unfolding drain control_turn
  control_round app at ats =
      let next = control_turn setup app at in drain next next.command_queue ats

  drain_empties :
      (app : App F) (queue : List CommandType) (ats : List Moment)
      → app.command_queue ≡ queue
      → length queue ≤ length ats
      → (drain app queue ats).command_queue ≡ []
  unfolding drain
  drain_empties app [] ats e enough = e
  drain_empties app (type ∷ rest) [] e enough = ground arith
  drain_empties app (type ∷ rest) (at ∷ ats) e enough =
      let next = command_turn setup app (type ∷ rest) at in
      let left = command_turn-queue setup app type rest at in
      drain_empties next next.command_queue ats refl (ground (arith, ap length left))

  -- What a round is about: the guard of the core, and whether the relay is commanded on.
  abbrev pub view : App F → Guard F × Bool
  view app = (app.guard, app.actuator.commanded_on)

  -- The commands by themselves: a reset of the core, which opens the relay if it is accepted, an
  -- acknowledgement of its fault, and no other.
  abbrev pub carry_reset : Guard F → Bool → Moment → Guard F × Bool
  carry_reset g relay at =
      let (h, result) = protection_reset g at.taken at.now_ms in
      (h, if is_reset_accepted result then false else relay)

  abbrev pub carry_one : Guard F → Bool → CommandType → Moment → Guard F × Bool
  carry_one g relay CommandType.reset at = carry_reset g relay at
  carry_one g relay CommandType.remote_reset at = carry_reset g relay at
  carry_one g relay CommandType.ack at = ((protection_acknowledge g at.taken).0, relay)
  carry_one g relay CommandType.remote_ack at = ((protection_acknowledge g at.taken).0, relay)
  carry_one g relay _ at = (g, relay)

  abbrev pub carried_out : Guard F × Bool → List CommandType → List Moment → Guard F × Bool
  carried_out v [] ats = v
  carried_out v (type ∷ rest) [] = v
  carried_out (g, relay) (type ∷ rest) (at ∷ ats) = carried_out (carry_one g relay type at) rest ats

  -- The measurement half by itself: an update with the first sample, or a tick.
  abbrev pub measured : Guard F → List (Measurement F) → Moment → Guard F
  measured g [] at = (protection_tick g at.taken at.now_ms).0
  measured g (m ∷ rest) at = (protection_update g m at.taken at.now_ms).0

  reset-carries :
      (app : App F) (at : Moment)
      → view (execute_reset setup app at) ≡ carry_reset app.guard app.actuator.commanded_on at
  unfolding execute_reset
  reset-carries app at =
      let off = (actuator_apply_state-off setup.mode setup.wiring app.actuator at.seen).1 in
      elim (Bool-cases (is_reset_accepted (protection_reset app.guard at.taken at.now_ms).1)) [
        | inl accepted ↦
            rw accepted (ap (λ c. ((protection_reset app.guard at.taken at.now_ms).0, c)) off)
        | inr refused ↦ rw refused refl
      ]

  execute-carries :
      (app : App F) (type : CommandType) (at : Moment)
      → view (execute setup app type at) ≡ carry_one app.guard app.actuator.commanded_on type at
  unfolding execute execute_acknowledge
  execute-carries app CommandType.reset at = reset-carries app at
  execute-carries app CommandType.remote_reset at = reset-carries app at
  execute-carries app CommandType.ack at = refl
  execute-carries app CommandType.remote_ack at = refl
  execute-carries app CommandType.none at = refl
  execute-carries app CommandType.help at = refl
  execute-carries app CommandType.status at = refl
  execute-carries app CommandType.measure at = refl
  execute-carries app CommandType.fault at = refl
  execute-carries app CommandType.watchdog at = refl
  execute-carries app CommandType.tasks at = refl
  execute-carries app CommandType.uptime at = refl
  execute-carries app CommandType.version at = refl

  drain-carries :
      (app : App F) (queue : List CommandType) (ats : List Moment)
      → view (drain app queue ats) ≡ carried_out (view app) queue ats
  unfolding drain command_turn
  drain-carries app [] ats = refl
  drain-carries app (type ∷ rest) [] = refl
  drain-carries app (type ∷ rest) (at ∷ ats) =
      let next = command_turn setup app (type ∷ rest) at in
      let popped = record app { command_queue = rest } in
      drain-carries next next.command_queue ats
      ∙ ap (λ q. carried_out (view next) q ats) (command_turn-queue setup app type rest at)
      ∙ ap (λ v. carried_out v rest ats) (execute-carries popped type at)

  control-measured :
      (app : App F) (queue : List (Measurement F)) (at : Moment)
      → (control_measurement setup app queue at).guard ≡ measured app.guard queue at
  unfolding control_measurement apply_protection_result
  control-measured app [] at = refl
  control-measured app (m ∷ rest) at = refl

  -- While no other task posts a command, and with as many passes as commands wait, a round of
  -- ControlTask leaves the command queue empty, the core as after an update with the first sample that
  -- waits, or a tick, and then each command that waited, in order, and the relay as after the sample or
  -- tick unless one of the resets was accepted, which opens it.
  pub control_round-drains :
      (app : App F) (at : Moment) (ats : List Moment)
      → length app.command_queue ≤ length ats
      → let relay = (control_turn setup app at).actuator.commanded_on in
        ((control_round app at ats).command_queue ≡ [])
        × (view (control_round app at ats)
            ≡ carried_out
                (measured app.guard app.measurement_queue at, relay)
                app.command_queue
                ats)
  unfolding control_round control_turn
  control_round-drains app at ats enough =
      let next = control_measurement setup app app.measurement_queue at in
      let same : next.command_queue ≡ app.command_queue =
        control-commands setup app app.measurement_queue at in
      (
        drain_empties next next.command_queue ats refl (ground (arith, ap length same, enough)),
        drain-carries next next.command_queue ats
            ∙ ap (λ q. carried_out (view next) q ats) same
            ∙ ap (λ g. carried_out (g, next.actuator.commanded_on) app.command_queue ats)
                (control-measured app app.measurement_queue at),
      )
