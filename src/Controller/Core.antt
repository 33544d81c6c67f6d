-- ===== src/Controller/Core.antt =====
-- The calls that the turns of src/main.cpp make on the guarded protection, and what they keep of the
-- core.
use esp32_real_time_energy_c.Base.{◌≡◌, inl, inr, ap, subst, sym, refl, List, [], ◌∷◌, arith}
use esp32_real_time_energy_c.Base.Float.{Float}
use esp32_real_time_energy_c.Measurement.{Measurement}
use esp32_real_time_energy_c.Protection.Invariant.{IsConsistent, step-IsConsistent}
use esp32_real_time_energy_c.Protection.Samples.{BacksItsState, step-Backs}
use esp32_real_time_energy_c.Protection.Events.{Event, step}
use esp32_real_time_energy_c.Protection.{ProtectionCore}
use esp32_real_time_energy_c.Guard.Calls.{
  Call, updating, ticking, resetting, acknowledging, call, calls, calls-keeps,
}
use esp32_real_time_energy_c.Controller.Commands.{CommandType}
use esp32_real_time_energy_c.Controller.{
  judge_measurement, drive_safe_output, apply_protection_result, request_command, Setup, App,
  Moment, control_measurement, command_turn,
}
use esp32_real_time_energy_c.Controller.Remote.{mqtt_callback-cases}
use esp32_real_time_energy_c.Controller.Turns.{
  Turn, senses, controls, executes, requests, receives, subscribes, stops, turn,
}

-- What any call keeps of the core: it is consistent, and a good sample is behind NORMAL and WARNING.
abbrev pub IsSound {ℓ} : {F : Type ℓ} → ⦃fl : Float F⦄ → ProtectionCore F → Type 0
IsSound c = IsConsistent c × BacksItsState c

module _ {ℓ} {F : Type ℓ} ⦃fl : Float F⦄ (setup : Setup) where
  abbrev pub control_calls : List (Measurement F) → Moment → List (Call F)
  control_calls [] at = ticking at.taken at.now_ms ∷ []
  control_calls (m ∷ rest) at = updating m at.taken at.now_ms ∷ []

  abbrev pub command_calls : List CommandType → Moment → List (Call F)
  command_calls (CommandType.reset ∷ rest) at = resetting at.taken at.now_ms ∷ []
  command_calls (CommandType.remote_reset ∷ rest) at = resetting at.taken at.now_ms ∷ []
  command_calls (CommandType.ack ∷ rest) at = acknowledging at.taken ∷ []
  command_calls (CommandType.remote_ack ∷ rest) at = acknowledging at.taken ∷ []
  command_calls _ at = []

  -- The calls on the guarded protection that a turn makes.
  abbrev pub calls_of : App F → Turn F → List (Call F)
  calls_of app (controls at) = control_calls app.measurement_queue at
  calls_of app (executes at) = command_calls app.command_queue at
  calls_of app _ = []

  pub judge-guard :
      (app : App F) (queue : List (Measurement F)) (at : Moment)
      → (judge_measurement setup app queue at).0.guard ≡ calls app.guard (control_calls queue at)
  unfolding judge_measurement calls call
  judge-guard app [] at = refl
  judge-guard app (m ∷ rest) at = refl

  control-guard :
      (app : App F) (queue : List (Measurement F)) (at : Moment)
      → (control_measurement setup app queue at).guard ≡ calls app.guard (control_calls queue at)
  unfolding control_measurement calls call apply_protection_result
  control-guard app [] at = refl
  control-guard app (m ∷ rest) at = refl

  command-guard :
      (app : App F) (queue : List CommandType) (at : Moment)
      → (command_turn setup app queue at).guard ≡ calls app.guard (command_calls queue at)
  unfolding command_turn calls call
  command-guard app [] at = refl
  command-guard app (type ∷ rest) at = ground arith

  pub turn-guard :
      (app : App F) (t : Turn F) → (turn setup app t).guard ≡ calls app.guard (calls_of app t)
  unfolding turn calls request_command drive_safe_output
  turn-guard app (senses m stored) = refl
  turn-guard app (controls at) = control-guard app app.measurement_queue at
  turn-guard app (executes at) = command-guard app app.command_queue at
  turn-guard app (requests type) = refl
  turn-guard app (receives topic payload size now_ms) =
      elim (mqtt_callback-cases setup app topic payload size now_ms) [
        | inl (posts, _, _) ↦ ap (λ b. b.guard) posts
        | inr (stays, _) ↦ ap (λ b. b.guard) stays
      ]
  turn-guard app (stops seen) = refl
  turn-guard app (subscribes now_ms) = refl

  pub step-IsSound : (c : ProtectionCore F) (e : Event F) → IsSound c → IsSound (step c e)
  step-IsSound c e (h, b) = (step-IsConsistent c e h, step-Backs c e h b)

  pub turn-IsSound :
      (app : App F) (t : Turn F) → IsSound app.guard.core → IsSound (turn setup app t).guard.core
  turn-IsSound app t h =
      subst (λ g. IsSound g.core) (sym (turn-guard app t))
        (calls-keeps IsSound step-IsSound app.guard (calls_of app t) h)
