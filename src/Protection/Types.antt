-- ===== src/Protection/Types.antt =====
-- The enumerations and structures of lib/energy_core/src/protection_core.h, and the names that
-- lib/energy_core/src/protection_core.cpp prints for them.
use esp32_real_time_energy_c.Base.{ℕ, Bool, true, false, List, ◌≡◌, ◌↔◌, arith}
use esp32_real_time_energy_c.Base.Text.{codes}

pub data SystemState : Type 0 where
  init normal warning fault : SystemState

pub data FaultCode : Type 0 where
  none sensor_invalid overpower sensor_stale protection_internal : FaultCode

pub data ResetResult : Type 0 where
  none accepted rejected_no_active_fault rejected_no_measurement : ResetResult
  rejected_stale_measurement rejected_invalid_measurement : ResetResult
  rejected_unsafe_condition rejected_busy : ResetResult

pub record ProtectionConfig {ℓ} (F : Type ℓ) : Type ℓ where
  pub warning_power_w : F
  pub fault_power_w : F
  pub min_operating_voltage_v : F
  pub fault_confirm_ms : ℕ
  pub max_measurement_age_ms : ℕ

pub record FaultManager : Type 0 where
  pub active_fault : FaultCode
  pub last_fault : FaultCode
  pub active_since : ℕ
  pub last_fault_time : ℕ
  pub total_faults : ℕ
  pub active : Bool
  pub acknowledged : Bool

pub record ProtectionSnapshot : Type 0 where
  pub state : SystemState
  pub fault : FaultManager
  pub fault_timer_active : Bool
  pub fault_timer_age_ms : ℕ
  pub last_reset_result : ResetResult

pub record ProtectionResult : Type 0 where
  pub state_changed : Bool
  pub fault_changed : Bool
  pub previous_state : SystemState
  pub state : SystemState
  pub previous_fault : FaultCode
  pub fault : FaultCode
  pub synchronization_failed : Bool

-- `==` on the two enumerations
abbrev pub same_state : SystemState → SystemState → Bool
same_state SystemState.init SystemState.init = true
same_state SystemState.normal SystemState.normal = true
same_state SystemState.warning SystemState.warning = true
same_state SystemState.fault SystemState.fault = true
same_state _ _ = false

abbrev pub same_fault : FaultCode → FaultCode → Bool
same_fault FaultCode.none FaultCode.none = true
same_fault FaultCode.sensor_invalid FaultCode.sensor_invalid = true
same_fault FaultCode.overpower FaultCode.overpower = true
same_fault FaultCode.sensor_stale FaultCode.sensor_stale = true
same_fault FaultCode.protection_internal FaultCode.protection_internal = true
same_fault _ _ = false

pub same_state_iff : (a b : SystemState) → (same_state a b ≡ true) ↔ (a ≡ b)
same_state_iff a b = ground arith

pub same_fault_iff : (a b : FaultCode) → (same_fault a b ≡ true) ↔ (a ≡ b)
same_fault_iff a b = ground arith

abbrev pub system_state_name : SystemState → List ℕ
system_state_name SystemState.init = codes "INIT"
system_state_name SystemState.normal = codes "NORMAL"
system_state_name SystemState.warning = codes "WARNING"
system_state_name SystemState.fault = codes "FAULT"

abbrev pub fault_code_name : FaultCode → List ℕ
fault_code_name FaultCode.none = codes "NONE"
fault_code_name FaultCode.sensor_invalid = codes "SENSOR_INVALID"
fault_code_name FaultCode.overpower = codes "OVERPOWER"
fault_code_name FaultCode.sensor_stale = codes "SENSOR_STALE"
fault_code_name FaultCode.protection_internal = codes "PROTECTION_INTERNAL"

abbrev pub reset_result_name : ResetResult → List ℕ
reset_result_name ResetResult.none = codes "NONE"
reset_result_name ResetResult.accepted = codes "ACCEPTED"
reset_result_name ResetResult.rejected_no_active_fault = codes "REJECTED_NO_ACTIVE_FAULT"
reset_result_name ResetResult.rejected_no_measurement = codes "REJECTED_NO_MEASUREMENT"
reset_result_name ResetResult.rejected_stale_measurement = codes "REJECTED_STALE_MEASUREMENT"
reset_result_name ResetResult.rejected_invalid_measurement = codes "REJECTED_INVALID_MEASUREMENT"
reset_result_name ResetResult.rejected_unsafe_condition = codes "REJECTED_UNSAFE_CONDITION"
reset_result_name ResetResult.rejected_busy = codes "REJECTED_BUSY"
