-- ===== src/Protection/Latch.antt =====
-- The fault latch of `raiseFault` and of the calls around it, in
-- lib/energy_core/src/protection_core.cpp.
use esp32_real_time_energy_c.Base.{
  ℕ, ◌+◌, ◌%◌, ◌≡◌, ◌⊎◌, inl, inr, refl, not, ◌&&◌, List, [], ◌∷◌, ◌++◌, ap, arith, if◌then◌else◌,
}
use esp32_real_time_energy_c.Base.Words.{word}
use esp32_real_time_energy_c.Base.Float.{Float}
use esp32_real_time_energy_c.Protection.{ProtectionCore, request_reset}
use esp32_real_time_energy_c.Protection.Types.{SystemState, ResetResult, FaultManager}
use esp32_real_time_energy_c.Protection.Events.{
  Event, samples, ticks, resets, acknowledges, breaks, step, run,
}
use esp32_real_time_energy_c.Protection.Invariant.{IsConsistent, step-IsConsistent}

-- The same latched fault: cause, count and times; only the operator's mark may differ.
pub record SameFault (f g : FaultManager) : Type 0 where
  pub active_fault : g.active_fault ≡ f.active_fault
  pub last_fault : g.last_fault ≡ f.last_fault
  pub active_since : g.active_since ≡ f.active_since
  pub last_fault_time : g.last_fault_time ≡ f.last_fault_time
  pub total_faults : g.total_faults ≡ f.total_faults

SameFault-refl : (f : FaultManager) → SameFault f f
SameFault-refl f = ground arith

SameFault-trans : (f g h : FaultManager) → SameFault f g → SameFault g h → SameFault f h
SameFault-trans f g h p q = ground arith

module _ {ℓ} {F : Type ℓ} ⦃fl : Float F⦄ where
  -- Among the events, one is a reset that the core accepts when it comes.
  abbrev pub HasAcceptedReset : ProtectionCore F → List (Event F) → Type ℓ
  HasAcceptedReset c es =
      (before : List (Event F)) × (now_ms : ℕ) × (after : List (Event F)) × (es
        ≡ before ++ (resets now_ms ∷ after))
      × ((request_reset (run c before) now_ms).1 ≡ ResetResult.accepted)

  abbrev pub IsHeld : ProtectionCore F → ProtectionCore F → Type 0
  IsHeld c d = (d.state ≡ SystemState.fault) × SameFault c.fault d.fault

  reset-IsHeld :
      (c : ProtectionCore F) (now_ms : ℕ)
      → IsConsistent c
      → c.state ≡ SystemState.fault
      → IsHeld c (request_reset c now_ms).0 ⊎ ((request_reset c now_ms).1 ≡ ResetResult.accepted)
  unfolding request_reset
  reset-IsHeld c now_ms h s = ground arith

  step-IsHeld :
      (c : ProtectionCore F) (e : Event F)
      → IsConsistent c
      → c.state ≡ SystemState.fault
      → IsHeld c (step c e)
        ⊎ ((now_ms : ℕ) × (e ≡ resets now_ms) × ((request_reset c now_ms).1 ≡ ResetResult.accepted))
  unfolding step
  step-IsHeld c (samples m now_ms) h s = inl (ground arith)
  step-IsHeld c (ticks now_ms) h s = inl (ground arith)
  step-IsHeld c (resets now_ms) h s = elim (reset-IsHeld c now_ms h s) [
    | inl held ↦ inl held
    | inr ok ↦ inr (now_ms, refl, ok)
  ]
  step-IsHeld c acknowledges h s = inl (ground arith)
  step-IsHeld c (breaks now_ms) h s = inl (ground arith)

  -- A latched fault stays latched, with its first cause, its times and the fault count unchanged,
  -- through any calls at all, unless one of them is a reset that the core accepts.
  pub fault_latched :
      (c : ProtectionCore F) (es : List (Event F))
      → IsConsistent c
      → c.state ≡ SystemState.fault
      → IsHeld c (run c es) ⊎ HasAcceptedReset c es
  unfolding run
  fault_latched c [] h s = inl (s, SameFault-refl c.fault)
  fault_latched c (e ∷ es) h s = elim (step-IsHeld c e h s) [
    | inl (s', same) ↦ elim (fault_latched (step c e) es (step-IsConsistent c e h) s') [
      | inl (s'', same') ↦ inl (s'', SameFault-trans _ _ _ same same')
      | inr (before, now_ms, after, split, ok) ↦
          inr (e ∷ before, now_ms, after, ap (λ ds. e ∷ ds) split, ok)
    ]
    | inr (now_ms, is_reset, ok) ↦ inr ([], now_ms, es, ap (λ d. d ∷ es) is_reset, ok)
  ]

  -- Every call raises the fault count by one, modulo 2 ^ 32, exactly if it latches a fault that was
  -- not latched before; then the fault and the last fault are the new cause.
  pub step-total_faults :
      (c : ProtectionCore F) (e : Event F)
      → IsConsistent c
      → let d = step c e in
        d.fault.total_faults ≡ (
          if not c.fault.active && d.fault.active
          then (c.fault.total_faults + 1) % word
          else c.fault.total_faults)
  unfolding step
  step-total_faults c (samples m now_ms) h = ground arith
  step-total_faults c (ticks now_ms) h = ground arith
  step-total_faults c (resets now_ms) h = ground arith
  step-total_faults c acknowledges h = ground arith
  step-total_faults c (breaks now_ms) h = ground arith
