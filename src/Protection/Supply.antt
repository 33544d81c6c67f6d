-- ===== src/Protection/Supply.antt =====
-- The first-sample gate of `update` and `evaluate` after start-up, a reset or a loss of mains, in
-- lib/energy_core/src/protection_core.cpp.
use esp32_real_time_energy_c.Base.{
  ℕ, ◌≤◌, ◌≡◌, ◌⊎◌, inl, inr, refl, true, false, List, [], ◌∷◌, ◌++◌, ap, arith,
}
use esp32_real_time_energy_c.Base.Words.{sub32, is_negative32}
use esp32_real_time_energy_c.Base.Float.{Float}
use esp32_real_time_energy_c.Measurement.{Measurement}
use esp32_real_time_energy_c.Protection.{ProtectionCore}
use esp32_real_time_energy_c.Protection.Types.{SystemState}
use esp32_real_time_energy_c.Protection.Events.{
  Event, samples, ticks, resets, acknowledges, breaks, step, run,
}
use esp32_real_time_energy_c.Protection.Invariant.{IsConsistent, IsOperating, step-IsConsistent}

module _ {ℓ} {F : Type ℓ} ⦃fl : Float F⦄ where
  -- A sample that may open the gate of `c`: taken at or after the re-arm point, fresh, valid, with
  -- mains, and not above the fault threshold.
  pub record OpensGate (c : ProtectionCore F) (m : Measurement F) (now_ms : ℕ) : Type 0 where
    pub gated : c.awaiting_first_sample ≡ true
    pub later : is_negative32 (sub32 m.timestamp c.rearm_ms) ≡ false
    pub fresh : sub32 now_ms m.timestamp ≤ c.max_measurement_age_ms
    pub valid : m.valid ≡ true
    pub mains : fl.le m.voltage c.min_operating_voltage_v ≡ false
    pub safe : fl.gt m.power c.fault_power_w ≡ false

  -- Among the events, one is a sample that may open the gate when it comes.
  abbrev pub HasGoodSample : ProtectionCore F → List (Event F) → Type ℓ
  HasGoodSample c es =
      (before : List (Event F)) × (m : Measurement F) × (now_ms : ℕ) × (after : List (Event F))
      × (es ≡ before ++ (samples m now_ms ∷ after))
      × OpensGate (run c before) m now_ms

  -- The core is shut: it waits for a first sample, or a fault is latched.
  abbrev IsShut : ProtectionCore F → Type 0
  IsShut c = (c.awaiting_first_sample ≡ true) ⊎ (c.state ≡ SystemState.fault)

  samples_gate :
      (c : ProtectionCore F) (m : Measurement F) (now_ms : ℕ)
      → IsConsistent c
      → IsShut c
      → IsShut (step c (samples m now_ms)) ⊎ OpensGate c m now_ms
  unfolding step
  samples_gate c m now_ms h g = ground arith

  step-IsShut :
      (c : ProtectionCore F) (e : Event F)
      → IsConsistent c
      → IsShut c
      → IsShut (step c e)
        ⊎ ((m : Measurement F) × (now_ms : ℕ) × (e ≡ samples m now_ms) × OpensGate c m now_ms)
  unfolding step
  step-IsShut c (samples m now_ms) h s = elim (samples_gate c m now_ms h s) [
    | inl shut ↦ inl shut
    | inr good ↦ inr (m, now_ms, refl, good)
  ]
  step-IsShut c (ticks now_ms) h s = inl (ground arith)
  step-IsShut c (resets now_ms) h s = inl (ground arith)
  step-IsShut c acknowledges h s = inl (ground arith)
  step-IsShut c (breaks now_ms) h s = inl (ground arith)

  run-IsShut :
      (c : ProtectionCore F) (es : List (Event F))
      → IsConsistent c
      → IsShut c
      → (IsConsistent (run c es) × IsShut (run c es)) ⊎ HasGoodSample c es
  unfolding run
  run-IsShut c [] h s = inl (h, s)
  run-IsShut c (e ∷ es) h s = elim (step-IsShut c e h s) [
    | inl s' ↦ elim (run-IsShut (step c e) es (step-IsConsistent c e h) s') [
      | inl shut ↦ inl shut
      | inr (before, m, now_ms, after, split, good) ↦
          inr (e ∷ before, m, now_ms, after, ap (λ ds. e ∷ ds) split, good)
    ]
    | inr (m, now_ms, is_sample, good) ↦ inr ([], m, now_ms, es, ap (λ d. d ∷ es) is_sample, good)
  ]

  shut-not-IsOperating :
      (c : ProtectionCore F) → IsConsistent c → IsShut c → ¬ (IsOperating c.state)
  shut-not-IsOperating c h s o = ground arith

  state-IsShut :
      (c : ProtectionCore F)
      → IsConsistent c
      → (c.state ≡ SystemState.init) ⊎ (c.state ≡ SystemState.fault)
      → IsShut c
  state-IsShut c h s = ground arith

  -- From INIT or FAULT, after start-up or a reset or a loss of mains, the core reaches NORMAL or
  -- WARNING only if among the calls is a sample that came while the core was waiting for a first
  -- sample and that was taken at or after the re-arm point then in force, fresh, valid, with mains and
  -- not above the fault threshold.
  pub operating_needs_good_sample :
      (c : ProtectionCore F) (es : List (Event F))
      → IsConsistent c
      → (c.state ≡ SystemState.init) ⊎ (c.state ≡ SystemState.fault)
      → IsOperating (run c es).state
      → HasGoodSample c es
  operating_needs_good_sample c es h s o = elim (run-IsShut c es h (state-IsShut c h s)) [
    | inl (h', shut) ↦ absurd (shut-not-IsOperating (run c es) h' shut o)
    | inr good ↦ good
  ]
