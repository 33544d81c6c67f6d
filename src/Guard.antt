-- ===== src/Guard.antt =====
-- src/protection.cpp: the protection core behind a mutex. Whether the mutex can be created, whether it
-- is taken in time and what the clock shows are arguments of each call.
pub mod Calls
pub mod Pending
mod Tests
use mathlib.Core.Option.{Option, none, some}
use esp32_real_time_energy_c.Base.{ℕ, Bool, true, false, ◌&&◌, if◌then◌else◌}
use esp32_real_time_energy_c.Base.Float.{Float}
use esp32_real_time_energy_c.Measurement.{Measurement}
use esp32_real_time_energy_c.Protection.{
  ProtectionCore, lock_failure_result, new_core, begin, update, tick, request_reset, acknowledge,
  raise_internal_fault, snapshot, no_faults,
}
use esp32_real_time_energy_c.Protection.Types.{
  SystemState, FaultCode, ResetResult, ProtectionConfig, ProtectionResult, ProtectionSnapshot,
}

pub record Guard {ℓ} (F : Type ℓ) : Type ℓ where
  pub core : ProtectionCore F
  pub has_mutex : Bool
  pub internal_fault_pending : Bool

-- `lock()` comes back with the mutex taken.
abbrev pub locks {ℓ} : {F : Type ℓ} → Guard F → Bool → Bool
locks g taken = g.has_mutex && taken

-- the snapshot that is shown when the lock cannot be taken
abbrev pub lock_failure_snapshot : ProtectionSnapshot
lock_failure_snapshot = record {
  state = SystemState.fault;
  fault = record no_faults { active_fault = FaultCode.protection_internal; active = true };
  fault_timer_active = false;
  fault_timer_age_ms = 0;
  last_reset_result = ResetResult.none;
}

module _ {ℓ} {F : Type ℓ} where
  -- `exchange(false)` of the flag, and the fault that it asks for
  unfoldable pub apply_pending_internal_fault : Guard F → ℕ → Guard F
  apply_pending_internal_fault g now_ms =
      if g.internal_fault_pending
      then record g {
        core = (raise_internal_fault g.core now_ms).0;
        internal_fault_pending = false;
      }
      else g

  unfoldable pub protection_tick : Guard F → Bool → ℕ → Guard F × ProtectionResult
  unfolding apply_pending_internal_fault
  protection_tick g taken now_ms =
      let h = apply_pending_internal_fault g now_ms in
      let (core, result) = tick h.core now_ms in
      if locks g taken
      then (record h { core = core }, result)
      else (record g { internal_fault_pending = true }, lock_failure_result)

  unfoldable pub protection_acknowledge : Guard F → Bool → Guard F × Bool
  protection_acknowledge g taken =
      let (core, done) = acknowledge g.core in
      if locks g taken then (record g { core = core }, done) else (g, false)

  unfoldable pub protection_get_snapshot : Guard F → Bool → ℕ → ProtectionSnapshot
  protection_get_snapshot g taken now_ms =
      if locks g taken then snapshot g.core now_ms else lock_failure_snapshot

module _ {ℓ} {F : Type ℓ} ⦃fl : Float F⦄ where
  -- Before `protectionBegin` there is no mutex.
  unfoldable pub initial_guard : ProtectionConfig F → Guard F
  initial_guard config = record {
    core = new_core config;
    has_mutex = false;
    internal_fault_pending = false;
  }

  -- `none`: the mutex could not be created, and the function never returns.
  unfoldable pub protection_begin : Guard F → Bool → ℕ → Option (Guard F)
  protection_begin g created now_ms =
      if created then some (record g { core = begin g.core now_ms; has_mutex = true }) else none

  unfoldable pub protection_update : Guard F → Measurement F → Bool → ℕ → Guard F × ProtectionResult
  unfolding apply_pending_internal_fault
  protection_update g m taken now_ms =
      let h = apply_pending_internal_fault g now_ms in
      let (core, result) = update h.core m now_ms in
      if locks g taken
      then (record h { core = core }, result)
      else (record g { internal_fault_pending = true }, lock_failure_result)

  unfoldable pub protection_reset : Guard F → Bool → ℕ → Guard F × ResetResult
  unfolding apply_pending_internal_fault
  protection_reset g taken now_ms =
      let h = apply_pending_internal_fault g now_ms in
      let (core, result) = request_reset h.core now_ms in
      if locks g taken then (record h { core = core }, result) else (g, ResetResult.rejected_busy)
