-- ===== src/Protection/Events.antt =====
-- The calls that the firmware makes on the `ProtectionCore` of
-- lib/energy_core/src/protection_core.cpp after `begin`, and any sequence of them.
use esp32_real_time_energy_c.Base.{ℕ, List, [], ◌∷◌, ◌++◌, ◌≡◌, refl}
use esp32_real_time_energy_c.Base.Float.{Float}
use esp32_real_time_energy_c.Measurement.{Measurement}
use esp32_real_time_energy_c.Protection.{
  ProtectionCore, update, tick, request_reset, acknowledge, raise_internal_fault,
}

pub data Event {ℓ} (F : Type ℓ) : Type ℓ where
  samples : Measurement F → ℕ → Event F
  ticks : ℕ → Event F
  resets : ℕ → Event F
  acknowledges : Event F
  breaks : ℕ → Event F

module _ {ℓ} {F : Type ℓ} ⦃fl : Float F⦄ where
  unfoldable pub step : ProtectionCore F → Event F → ProtectionCore F
  unfolding update tick request_reset acknowledge raise_internal_fault
  step c (samples m now_ms) = (update c m now_ms).0
  step c (ticks now_ms) = (tick c now_ms).0
  step c (resets now_ms) = (request_reset c now_ms).0
  step c acknowledges = (acknowledge c).0
  step c (breaks now_ms) = (raise_internal_fault c now_ms).0

  unfoldable pub run : ProtectionCore F → List (Event F) → ProtectionCore F
  run c [] = c
  run c (e ∷ es) = run (step c e) es

  pub run-append :
      (c : ProtectionCore F) (es ds : List (Event F)) → run c (es ++ ds) ≡ run (run c es) ds
  unfolding run
  run-append c [] ds = refl
  run-append c (e ∷ es) ds = run-append (step c e) es ds
