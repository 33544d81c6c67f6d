-- ===== src/Protection/Reset.antt =====
-- `requestReset` and `acknowledge` of lib/energy_core/src/protection_core.cpp.
use esp32_real_time_energy_c.Base.{ℕ, ◌≤◌, ◌≡◌, ◌≢◌, ◌↔◌, ◌⊎◌, true, false, arith}
use esp32_real_time_energy_c.Base.Words.{sub32}
use esp32_real_time_energy_c.Base.Float.{Float}
use esp32_real_time_energy_c.Protection.{ProtectionCore, request_reset, acknowledge}
use esp32_real_time_energy_c.Protection.Types.{SystemState, ResetResult}
use esp32_real_time_energy_c.Protection.Invariant.{IsConsistent}

module _ {ℓ} {F : Type ℓ} ⦃fl : Float F⦄ where
  -- The conditions under which the operator may clear the latch.
  pub record MayReset (c : ProtectionCore F) (now_ms : ℕ) : Type 0 where
    pub latched : c.state ≡ SystemState.fault
    pub measured : c.have_measurement ≡ true
    pub fresh : sub32 now_ms c.last.timestamp ≤ c.max_measurement_age_ms
    pub valid : c.last.valid ≡ true
    pub safe : fl.gt c.last.power c.fault_power_w ≡ false

  -- A reset is accepted exactly if a fault is latched and the last sample is there, fresh, valid and
  -- not above the fault threshold.
  pub request_reset-accepted_iff :
      (c : ProtectionCore F) (now_ms : ℕ)
      → IsConsistent c
      → ((request_reset c now_ms).1 ≡ ResetResult.accepted) ↔ MayReset c now_ms
  unfolding request_reset
  request_reset-accepted_iff c now_ms h = ground arith

  -- A reset leaves the latch only for INIT with the first-sample gate closed, the silence clock
  -- restarted and the history kept; a refused one changes nothing but the recorded result.
  pub request_reset_effect :
      (c : ProtectionCore F) (now_ms : ℕ)
      → let (d, result) = request_reset c now_ms in
        (d.last_reset ≡ result)
        × (((result ≡ ResetResult.accepted)
              × (d.state ≡ SystemState.init)
              × (d.fault.active ≡ false)
              × (d.awaiting_first_sample ≡ true)
              × (d.timer_active ≡ false)
              × (d.rearm_ms ≡ now_ms)
              × (d.last_sample_ms ≡ now_ms)
              × (d.fault.last_fault ≡ c.fault.last_fault)
              × (d.fault.total_faults ≡ c.fault.total_faults))
            ⊎ ((result ≢ ResetResult.accepted) × (record d { last_reset = c.last_reset } ≡ c)))
  unfolding request_reset
  request_reset_effect c now_ms = ground arith

  -- Acknowledging marks a latched fault as seen and changes nothing else; with no fault it is
  -- refused and changes nothing.
  pub acknowledge_marks :
      (c : ProtectionCore F)
      → IsConsistent c
      → let (d, done) = acknowledge c in
        (done ≡ c.fault.active)
        × (d.fault.acknowledged ≡ done)
        × (record d { fault = record (d.fault) { acknowledged = c.fault.acknowledged } } ≡ c)
  unfolding acknowledge
  acknowledge_marks c h = ground arith
