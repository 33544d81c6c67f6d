-- ===== src/Protection/Invariant.antt =====
-- What holds of the `ProtectionCore` of lib/energy_core/src/protection_core.cpp between two calls.
use esp32_real_time_energy_c.Base.{ℕ, ◌≡◌, ◌≢◌, ◌<◌, ◌⊎◌, true, false, List, [], ◌∷◌, arith}
use esp32_real_time_energy_c.Base.Words.{word}
use esp32_real_time_energy_c.Base.Float.{Float}
use esp32_real_time_energy_c.Protection.{ProtectionCore, begin}
use esp32_real_time_energy_c.Protection.Types.{SystemState, FaultCode}
use esp32_real_time_energy_c.Protection.Events.{
  Event, samples, ticks, resets, acknowledges, breaks, step, run,
}

-- The relay may be closed in these two states only.
abbrev pub IsOperating : SystemState → Type 0
IsOperating state = (state ≡ SystemState.normal) ⊎ (state ≡ SystemState.warning)

pub record IsConsistent {ℓ} {F : Type ℓ} (c : ProtectionCore F) : Type 0 where
  -- The latch, the state and the fault code agree.
  pub active_state : c.fault.active ≡ true → c.state ≡ SystemState.fault
  pub state_active : c.state ≡ SystemState.fault → c.fault.active ≡ true
  pub active_code : c.fault.active ≡ true → c.fault.active_fault ≢ FaultCode.none
  pub idle_code : c.fault.active ≡ false → c.fault.active_fault ≡ FaultCode.none
  pub last_code : c.fault.active ≡ true → c.fault.last_fault ≡ c.fault.active_fault
  pub acknowledged_active : c.fault.acknowledged ≡ true → c.fault.active ≡ true
  -- The confirmation timer runs in WARNING only, and never before a first good sample.
  pub timer_state : c.timer_active ≡ true → c.state ≡ SystemState.warning
  pub init_awaits : c.state ≡ SystemState.init → c.awaiting_first_sample ≡ true
  pub operating_armed : IsOperating c.state → c.awaiting_first_sample ≡ false
  pub operating_measured : IsOperating c.state → c.have_measurement ≡ true
  pub counter_fits : c.fault.total_faults < word

module _ {ℓ} {F : Type ℓ} ⦃fl : Float F⦄ where
  pub begin-IsConsistent : (c : ProtectionCore F) (now_ms : ℕ) → IsConsistent (begin c now_ms)
  unfolding begin
  begin-IsConsistent c now_ms = ground arith

  pub step-IsConsistent :
      (c : ProtectionCore F) (e : Event F) → IsConsistent c → IsConsistent (step c e)
  unfolding step
  step-IsConsistent c (samples m now_ms) h = ground arith
  step-IsConsistent c (ticks now_ms) h = ground arith
  step-IsConsistent c (resets now_ms) h = ground arith
  step-IsConsistent c acknowledges h = ground arith
  step-IsConsistent c (breaks now_ms) h = ground arith

  pub run-keeps :
      (c : ProtectionCore F) (es : List (Event F)) → IsConsistent c → IsConsistent (run c es)
  unfolding run
  run-keeps c [] h = h
  run-keeps c (e ∷ es) h = run-keeps (step c e) es (step-IsConsistent c e h)

  -- After `begin` and any sequence of calls, at any times and with any samples, the latch, the state
  -- and the fault code agree, the confirmation timer runs in WARNING only, INIT still waits for a
  -- first sample, and NORMAL and WARNING have had one.
  pub run-IsConsistent :
      (c : ProtectionCore F) (now_ms : ℕ) (es : List (Event F))
      → IsConsistent (run (begin c now_ms) es)
  run-IsConsistent c now_ms es = run-keeps (begin c now_ms) es (begin-IsConsistent c now_ms)
