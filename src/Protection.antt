-- ===== src/Protection.antt =====
-- lib/energy_core/src/protection_core.h and protection_core.cpp: the protection state machine. A
-- method of `ProtectionCore` takes the object and returns it changed, with its result.
pub mod Types
pub mod Events
pub mod Invariant
pub mod Latch
pub mod Reset
pub mod Samples
pub mod Confirmation
pub mod Persistence
pub mod Supply
pub mod Policy
pub mod Refinement
pub mod Tests
pub mod Diagram
use esp32_real_time_energy_c.Base.{
  ℕ, ◌+◌, ◌%◌, Bool, true, false, not, ◌&&◌, ltb, leb, if◌then◌else◌,
}
use esp32_real_time_energy_c.Base.Words.{word, sub32, is_negative32}
use esp32_real_time_energy_c.Base.Float.{Float}
use esp32_real_time_energy_c.Measurement.{Measurement, empty_measurement}
use Types.{
  SystemState, FaultCode, ResetResult, ProtectionConfig, FaultManager, ProtectionSnapshot,
  ProtectionResult, same_state, same_fault,
}

pub record ProtectionCore {ℓ} (F : Type ℓ) : Type ℓ where
  pub config : ProtectionConfig F
  pub open config use *
  pub state : SystemState
  pub fault : FaultManager
  pub timer_active : Bool
  pub timer_start : ℕ
  pub have_measurement : Bool
  pub last : Measurement F
  pub last_sample_ms : ℕ
  pub awaiting_first_sample : Bool
  pub rearm_ms : ℕ
  pub last_reset : ResetResult

abbrev pub no_faults : FaultManager
no_faults = record {
  active_fault = FaultCode.none;
  last_fault = FaultCode.none;
  active_since = 0;
  last_fault_time = 0;
  total_faults = 0;
  active = false;
  acknowledged = false;
}

abbrev pub lock_failure_result : ProtectionResult
lock_failure_result = record {
  state_changed = true;
  fault_changed = true;
  previous_state = SystemState.fault;
  state = SystemState.fault;
  previous_fault = FaultCode.none;
  fault = FaultCode.protection_internal;
  synchronization_failed = true;
}

-- `if (!fault_.active) { … }` of `raiseFault`
abbrev pub record_fault : FaultManager → FaultCode → ℕ → FaultManager
record_fault f code now_ms = if f.active then f else record f {
  active_fault = code;
  last_fault = code;
  active_since = now_ms;
  last_fault_time = now_ms;
  total_faults = (f.total_faults + 1) % word;
  active = true;
  acknowledged = false;
}

module _ {ℓ} {F : Type ℓ} where
  abbrev pub finish : ProtectionCore F → SystemState → FaultCode → ProtectionResult
  finish c prev_state prev_fault = record {
    state_changed = not (same_state c.state prev_state);
    fault_changed = not (same_fault c.fault.active_fault prev_fault);
    previous_state = prev_state;
    state = c.state;
    previous_fault = prev_fault;
    fault = c.fault.active_fault;
    synchronization_failed = false;
  }

  unfoldable pub raise_fault : ProtectionCore F → FaultCode → ℕ → ProtectionCore F
  raise_fault c FaultCode.none now_ms = c
  raise_fault c code now_ms = record c {
    fault = record_fault c.fault code now_ms;
    timer_active = false;
    state = SystemState.fault;
  }

  unfoldable pub tick : ProtectionCore F → ℕ → ProtectionCore F × ProtectionResult
  unfolding raise_fault
  tick c now_ms =
      let silent =
        not (same_state c.state SystemState.fault)
        && ltb c.max_measurement_age_ms (sub32 now_ms c.last_sample_ms) in
      let next = if silent then raise_fault c FaultCode.sensor_stale now_ms else c in
      (next, finish next c.state c.fault.active_fault)

  unfoldable pub acknowledge : ProtectionCore F → ProtectionCore F × Bool
  acknowledge c =
      if c.fault.active
      then (record c { fault = record (c.fault) { acknowledged = true } }, true)
      else (c, false)

  unfoldable pub raise_internal_fault : ProtectionCore F → ℕ → ProtectionCore F × ProtectionResult
  unfolding raise_fault
  raise_internal_fault c now_ms =
      let next = raise_fault c FaultCode.protection_internal now_ms in
      (next, finish next c.state c.fault.active_fault)

  unfoldable pub snapshot : ProtectionCore F → ℕ → ProtectionSnapshot
  snapshot c now_ms = record {
    state = c.state;
    fault = c.fault;
    fault_timer_active = c.timer_active;
    fault_timer_age_ms = if c.timer_active then sub32 now_ms c.timer_start else 0;
    last_reset_result = c.last_reset;
  }

module _ {ℓ} {F : Type ℓ} ⦃fl : Float F⦄ where
  open fl use {le, gt}

  unfoldable pub new_core : ProtectionConfig F → ProtectionCore F
  new_core config = record {
    config = config;
    state = SystemState.init;
    fault = no_faults;
    timer_active = false;
    timer_start = 0;
    have_measurement = false;
    last = empty_measurement;
    last_sample_ms = 0;
    awaiting_first_sample = true;
    rearm_ms = 0;
    last_reset = ResetResult.none;
  }

  unfoldable pub begin : ProtectionCore F → ℕ → ProtectionCore F
  begin c now_ms = record c {
    state = SystemState.init;
    fault = no_faults;
    timer_active = false;
    timer_start = 0;
    have_measurement = false;
    last = empty_measurement;
    last_sample_ms = now_ms;
    awaiting_first_sample = true;
    rearm_ms = now_ms;
    last_reset = ResetResult.none;
  }

  -- The branch of `evaluate` above the fault threshold, once the first sample has been seen.
  unfoldable pub confirm_overpower : ProtectionCore F → ℕ → ProtectionCore F
  unfolding raise_fault
  confirm_overpower c now_ms =
      let start = if c.timer_active then c.timer_start else now_ms in
      let timed = record c { timer_active = true; timer_start = start } in
      if leb c.fault_confirm_ms (sub32 now_ms start)
      then raise_fault timed FaultCode.overpower now_ms
      else record timed { state = SystemState.warning }

  unfoldable pub evaluate : ProtectionCore F → Measurement F → ℕ → ProtectionCore F
  unfolding raise_fault confirm_overpower
  evaluate c m now_ms =
      if not (leb (sub32 now_ms m.timestamp) c.max_measurement_age_ms)
      then raise_fault c FaultCode.sensor_stale now_ms
      else if not m.valid
      then raise_fault c FaultCode.sensor_invalid now_ms
      else if le m.voltage c.min_operating_voltage_v
      then record c { timer_active = false; state = SystemState.init; awaiting_first_sample = true }
      else if gt m.power c.fault_power_w
      then if c.awaiting_first_sample
        then record (raise_fault c FaultCode.overpower now_ms) { awaiting_first_sample = false }
        else confirm_overpower c now_ms
      else record c {
        timer_active = false;
        state = if gt m.power c.warning_power_w then SystemState.warning else SystemState.normal;
        awaiting_first_sample = false;
      }

  unfoldable pub update : ProtectionCore F → Measurement F → ℕ → ProtectionCore F × ProtectionResult
  unfolding evaluate
  update c m now_ms =
      let seen = record c { last = m; have_measurement = true } in
      let next =
        if same_state c.state SystemState.fault
        then record seen { last_sample_ms = now_ms }
        else if c.awaiting_first_sample && is_negative32 (sub32 m.timestamp c.rearm_ms)
        then seen
        else evaluate (record seen { last_sample_ms = now_ms }) m now_ms in
      (next, finish next c.state c.fault.active_fault)

  -- the chain of tests of `requestReset`
  unfoldable pub judge_reset : ProtectionCore F → ℕ → ResetResult
  judge_reset c now_ms =
      if not c.fault.active
      then ResetResult.rejected_no_active_fault
      else if not c.have_measurement
      then ResetResult.rejected_no_measurement
      else if ltb c.max_measurement_age_ms (sub32 now_ms c.last.timestamp)
      then ResetResult.rejected_stale_measurement
      else if not c.last.valid
      then ResetResult.rejected_invalid_measurement
      else if gt c.last.power c.fault_power_w
      then ResetResult.rejected_unsafe_condition
      else ResetResult.accepted

  -- what an accepted reset does, and nothing for a rejected one
  abbrev pub apply_reset : ResetResult → ProtectionCore F → ℕ → ProtectionCore F
  apply_reset ResetResult.accepted c now_ms = record c {
    fault = record (c.fault) {
      active_fault = FaultCode.none;
      active = false;
      acknowledged = false;
      active_since = 0;
    };
    timer_active = false;
    timer_start = 0;
    state = SystemState.init;
    awaiting_first_sample = true;
    rearm_ms = now_ms;
    last_sample_ms = now_ms;
  }
  apply_reset _ c now_ms = c

  unfoldable pub request_reset : ProtectionCore F → ℕ → ProtectionCore F × ResetResult
  unfolding judge_reset
  request_reset c now_ms =
      let result = judge_reset c now_ms in
      (apply_reset result (record c { last_reset = result }) now_ms, result)
