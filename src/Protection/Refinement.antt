-- ===== src/Protection/Refinement.antt =====
-- The state machine of lib/energy_core/src/protection_core.cpp implements the contract of Policy.
use mathlib.Core.Path.{◌≡⟨◌⟩◌, ◌∎}
use mathlib.Core.Option.{none, some}
use esp32_real_time_energy_c.Base.{ℕ, ◌≡◌, refl, Bool, List, [], ◌∷◌, arith, if◌then◌else◌, ap}
use esp32_real_time_energy_c.Base.Float.{Float}
use esp32_real_time_energy_c.Measurement.{Measurement}
use esp32_real_time_energy_c.Protection.{ProtectionCore, begin}
use esp32_real_time_energy_c.Protection.Types.{SystemState, FaultCode}
use esp32_real_time_energy_c.Protection.Events.{
  Event, samples, ticks, resets, acknowledges, breaks, step, run,
}
use esp32_real_time_energy_c.Protection.Invariant.{
  IsConsistent, begin-IsConsistent, step-IsConsistent,
}
use esp32_real_time_energy_c.Protection.Confirmation.{step-config}
use esp32_real_time_energy_c.Protection.Policy.{
  Phase, waiting, supplying, straining, confirming, tripped, Policy, obey, obey_all,
}

-- What the fields of the code stand for.
abbrev pub phase_of : SystemState → Bool → ℕ → FaultCode → Phase
phase_of SystemState.init timer start code = waiting
phase_of SystemState.normal timer start code = supplying
phase_of SystemState.warning timer start code = if timer then confirming start else straining
phase_of SystemState.fault timer start code = tripped code

module _ {ℓ} {F : Type ℓ} where
  abbrev pub policy_of : ProtectionCore F → Policy F
  policy_of c = record {
    phase = phase_of c.state c.timer_active c.timer_start c.fault.active_fault;
    rearmed = c.rearm_ms;
    heard = c.last_sample_ms;
    newest = if c.have_measurement then some c.last else none;
  }

module _ {ℓ} {F : Type ℓ} ⦃fl : Float F⦄ where
  sample_phase :
      (c : ProtectionCore F) (m : Measurement F) (now_ms : ℕ)
      → IsConsistent c
      → (policy_of (step c (samples m now_ms))).phase
        ≡ (obey c.config (policy_of c) (samples m now_ms)).phase
  unfolding step obey
  sample_phase c m now_ms h = ground arith

  sample_times :
      (c : ProtectionCore F) (m : Measurement F) (now_ms : ℕ)
      → IsConsistent c
      → let s = policy_of (step c (samples m now_ms)) in
        let t = obey c.config (policy_of c) (samples m now_ms) in
        (s.rearmed ≡ t.rearmed) × (s.heard ≡ t.heard)
  unfolding step obey
  sample_times c m now_ms h = ground arith

  sample_newest :
      (c : ProtectionCore F) (m : Measurement F) (now_ms : ℕ)
      → (policy_of (step c (samples m now_ms))).newest ≡ some m
  unfolding step
  sample_newest c m now_ms = ground arith

  step-policy :
      (c : ProtectionCore F) (e : Event F)
      → IsConsistent c
      → policy_of (step c e) ≡ obey c.config (policy_of c) e
  unfolding step obey
  step-policy c (samples m now_ms) h = λ i. record {
    phase = sample_phase c m now_ms h i;
    rearmed = (sample_times c m now_ms h).0 i;
    heard = (sample_times c m now_ms h).1 i;
    newest = sample_newest c m now_ms i;
  }
  step-policy c (ticks now_ms) h = ground arith
  step-policy c (resets now_ms) h = ground arith
  step-policy c acknowledges h = ground arith
  step-policy c (breaks now_ms) h = ground arith

  pub run-policy :
      (c : ProtectionCore F) (es : List (Event F))
      → IsConsistent c
      → policy_of (run c es) ≡ obey_all c.config (policy_of c) es
  unfolding run obey_all
  run-policy c [] h = refl
  run-policy c (e ∷ es) h =
      policy_of (run (step c e) es)
      ≡⟨ run-policy (step c e) es (step-IsConsistent c e h) ⟩
        obey_all (step c e).config (policy_of (step c e)) es
      ≡⟨ ap (λ g. obey_all g (policy_of (step c e)) es) (step-config c e) ⟩
        obey_all c.config (policy_of (step c e)) es
      ≡⟨ ap (λ s. obey_all c.config s es) (step-policy c e h) ⟩
        obey_all c.config (obey c.config (policy_of c) e) es ∎

  -- After start-up and any calls, the flags and times of the code stand for exactly the phase, times
  -- and newest sample that the contract reaches from waiting by the same calls.
  pub run-refines-policy :
      (c : ProtectionCore F) (start_ms : ℕ) (es : List (Event F))
      → policy_of (run (begin c start_ms) es)
        ≡ obey_all c.config
            (record { phase = waiting; rearmed = start_ms; heard = start_ms; newest = none })
            es
  unfolding begin
  run-refines-policy c start_ms es =
      run-policy (begin c start_ms) es (begin-IsConsistent c start_ms)
