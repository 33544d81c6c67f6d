-- ===== src/Protection/Confirmation.antt =====
-- The overpower confirmation timer of `evaluate`, in lib/energy_core/src/protection_core.cpp.
use esp32_real_time_energy_c.Base.{
  refl, ◌∙◌, sym, subst, All, ℕ, ◌≤◌, ◌<◌, ◌≡◌, true, false, List, [], ◌∷◌, arith,
}
use esp32_real_time_energy_c.Base.Words.{word, sub32, add32, sub32-add32}
use esp32_real_time_energy_c.Base.Float.{Float}
use esp32_real_time_energy_c.Measurement.{Measurement}
use esp32_real_time_energy_c.Protection.{ProtectionCore}
use esp32_real_time_energy_c.Protection.Types.{SystemState, FaultCode, ProtectionConfig}
use esp32_real_time_energy_c.Protection.Events.{
  run, Event, samples, ticks, resets, acknowledges, breaks, step,
}
use esp32_real_time_energy_c.Protection.Invariant.{step-IsConsistent, IsConsistent, IsOperating}

module _ {ℓ} {F : Type ℓ} ⦃fl : Float F⦄ where
  -- A fresh, valid sample with mains present and the power above the fault threshold.
  pub record IsOverload (config : ProtectionConfig F) (m : Measurement F) (now_ms : ℕ)
      : Type 0 where
    pub fresh : sub32 now_ms m.timestamp ≤ config.max_measurement_age_ms
    pub valid : m.valid ≡ true
    pub mains : fl.le m.voltage config.min_operating_voltage_v ≡ false
    pub over : fl.gt m.power config.fault_power_w ≡ true

  pub step-config : (c : ProtectionCore F) (e : Event F) → (step c e).config ≡ c.config
  unfolding step
  step-config c (samples m now_ms) = ground arith
  step-config c (ticks now_ms) = ground arith
  step-config c (resets now_ms) = ground arith
  step-config c acknowledges = ground arith
  step-config c (breaks now_ms) = ground arith

  -- Samples with the times that have passed since `start_ms`.
  abbrev pub burst : ℕ → List (Measurement F × ℕ) → List (Event F)
  burst start_ms [] = []
  burst start_ms ((m, d) ∷ ms) = samples m (add32 start_ms d) ∷ burst start_ms ms

  -- The window opened at `start_ms` is running.
  pub record IsConfirming (c : ProtectionCore F) (start_ms : ℕ) : Type 0 where
    pub state : c.state ≡ SystemState.warning
    pub running : c.timer_active ≡ true
    pub start : c.timer_start ≡ start_ms
    pub armed : c.awaiting_first_sample ≡ false

  -- `d` is still inside the window.
  abbrev pub StaysOver : ProtectionConfig F → ℕ → Measurement F × ℕ → Type 0
  StaysOver config start_ms (m, d) =
      IsOverload config m (add32 start_ms d) × (d < config.fault_confirm_ms) × (d < word)

  open_window :
      (c : ProtectionCore F) (m : Measurement F) (start_ms : ℕ)
      → IsOperating c.state
      → c.timer_active ≡ false
      → c.awaiting_first_sample ≡ false
      → start_ms < word
      → 0 < c.fault_confirm_ms
      → IsOverload c.config m start_ms
      → IsConfirming (step c (samples m start_ms)) start_ms
  unfolding step
  open_window c m start_ms o t a w p h = ground arith

  keep_window :
      (c : ProtectionCore F) (m : Measurement F) (start_ms d : ℕ)
      → start_ms < word
      → IsConfirming c start_ms
      → StaysOver c.config start_ms (m, d)
      → IsConfirming (step c (samples m (add32 start_ms d))) start_ms
  unfolding step
  keep_window c m start_ms d w k h = ground (arith, sub32-add32 start_ms d w)

  close_window :
      (c : ProtectionCore F) (m : Measurement F) (start_ms d : ℕ)
      → start_ms < word
      → d < word
      → IsConsistent c
      → IsConfirming c start_ms
      → IsOverload c.config m (add32 start_ms d)
      → c.fault_confirm_ms ≤ d
      → let e = step c (samples m (add32 start_ms d)) in
        (e.state ≡ SystemState.fault)
        × (e.fault.active_fault ≡ FaultCode.overpower)
        × (e.fault.active_since ≡ add32 start_ms d)
  unfolding step
  close_window c m start_ms d w v i k h e = ground (arith, sub32-add32 start_ms d w v)

  keep_run :
      (c : ProtectionCore F) (start_ms : ℕ) (ms : List (Measurement F × ℕ))
      → start_ms < word
      → IsConsistent c
      → IsConfirming c start_ms
      → All (StaysOver c.config start_ms) ms
      → let d = run c (burst start_ms ms) in
        IsConsistent d × IsConfirming d start_ms × (d.config ≡ c.config)
  unfolding run
  keep_run c start_ms [] w i k a = (i, k, refl)
  keep_run c start_ms ((m, d) ∷ ms) w i k (a, as') =
      let e : Event F = samples m (add32 start_ms d) in
      let same = step-config c e in
      let over = subst (λ (g : ProtectionConfig F). All (StaysOver g start_ms) ms) (sym same) as' in
      let (i', k', same') =
        keep_run (step c e) start_ms ms w (step-IsConsistent c e i)
          (keep_window c m start_ms d w k a) over in
      (i', k', same' ∙ same)

  -- From NORMAL or WARNING with no window open, samples above the fault threshold keep the core in
  -- WARNING as long as less than the confirmation time has passed since the first of them, and the
  -- first sample at or after that time latches OVERPOWER, whatever the clock's wrap does in between.
  pub confirmation_trips :
      (c : ProtectionCore F) (first last : Measurement F) (start_ms d : ℕ)
      (ms : List (Measurement F × ℕ))
      → IsConsistent c
      → IsOperating c.state
      → c.timer_active ≡ false
      → start_ms < word
      → d < word
      → 0 < c.fault_confirm_ms
      → IsOverload c.config first start_ms
      → All (StaysOver c.config start_ms) ms
      → IsOverload c.config last (add32 start_ms d)
      → c.fault_confirm_ms ≤ d
      → let held = run (step c (samples first start_ms)) (burst start_ms ms) in
        let tripped = step held (samples last (add32 start_ms d)) in
        (held.state ≡ SystemState.warning)
        × (held.fault.active ≡ false)
        × (tripped.state ≡ SystemState.fault)
        × (tripped.fault.active_fault ≡ FaultCode.overpower)
        × (tripped.fault.active_since ≡ add32 start_ms d)
  confirmation_trips c first last start_ms d ms i o t w v p h a l e =
      let c₁ = step c (samples first start_ms) in
      let same = step-config c (samples first start_ms) in
      let opened = open_window c first start_ms o t (i.operating_armed o) w p h in
      let over = subst (λ (g : ProtectionConfig F). All (StaysOver g start_ms) ms) (sym same) a in
      let (i', k', same') =
        keep_run c₁ start_ms ms w (step-IsConsistent c (samples first start_ms) i) opened over in
      let config = sym (same' ∙ same) in
      let l' = subst (λ (g : ProtectionConfig F). IsOverload g last (add32 start_ms d)) config l in
      let e' = subst (λ (g : ProtectionConfig F). g.fault_confirm_ms ≤ d) config e in
      let (s, f, since) =
        close_window (run c₁ (burst start_ms ms)) last start_ms d w v i' k' l' e' in
      (k'.state, ground arith, s, f, since)
