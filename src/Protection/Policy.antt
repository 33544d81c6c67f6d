-- ===== src/Protection/Policy.antt =====
-- The contract of the protection state machine, as docs/fault-management.md tells it: one phase, and
-- no flags. lib/energy_core/src/protection_core.cpp implements it (Refinement).
use mathlib.Core.Option.{Option, none, some}
use esp32_real_time_energy_c.Base.{
  ℕ, Bool, true, false, not, ◌&&◌, List, [], ◌∷◌, ltb, leb, if◌then◌else◌,
}
use esp32_real_time_energy_c.Base.Words.{sub32, is_negative32}
use esp32_real_time_energy_c.Base.Float.{Float}
use esp32_real_time_energy_c.Measurement.{Measurement}
use esp32_real_time_energy_c.Protection.Types.{FaultCode, ProtectionConfig}
use esp32_real_time_energy_c.Protection.Events.{Event, samples, ticks, resets, acknowledges, breaks}

-- Waiting for a first good sample; load on; load on with high power; load on while an overload is
-- being confirmed, since a time; load off for a cause.
pub data Phase : Type 0 where
  waiting supplying straining : Phase
  confirming : ℕ → Phase
  tripped : FaultCode → Phase

-- The phase, the re-arm time, when a sample last counted, and the newest sample.
pub record Policy {ℓ} (F : Type ℓ) : Type ℓ where
  pub phase : Phase
  pub rearmed : ℕ
  pub heard : ℕ
  pub newest : Option (Measurement F)

-- What a sample says.
pub data Reading : Type 0 where
  stale unusable no_mains overload high low : Reading

abbrev pub is_tripped : Phase → Bool
is_tripped (tripped code) = true
is_tripped _ = false

abbrev pub is_waiting : Phase → Bool
is_waiting waiting = true
is_waiting _ = false

module _ {ℓ} {F : Type ℓ} ⦃fl : Float F⦄ (config : ProtectionConfig F) where
  open config use {
    warning_power_w, fault_power_w, min_operating_voltage_v, fault_confirm_ms,
    max_measurement_age_ms,
  }

  unfoldable pub read : Measurement F → ℕ → Reading
  read m now_ms =
      if ltb max_measurement_age_ms (sub32 now_ms m.timestamp)
      then stale
      else if not m.valid
      then unusable
      else if fl.le m.voltage min_operating_voltage_v
      then no_mains
      else if fl.gt m.power fault_power_w
      then overload
      else if fl.gt m.power warning_power_w
      then high
      else low

  -- An overload that began at `start_ms`.
  unfoldable pub confirm : ℕ → ℕ → Phase
  confirm start_ms now_ms =
      if leb fault_confirm_ms (sub32 now_ms start_ms)
      then tripped FaultCode.overpower
      else confirming start_ms

  -- Where an overload leads.
  unfoldable pub overloaded : Phase → ℕ → Phase
  unfolding confirm
  overloaded (confirming start_ms) now_ms = confirm start_ms now_ms
  overloaded supplying now_ms = confirm now_ms now_ms
  overloaded straining now_ms = confirm now_ms now_ms
  overloaded _ now_ms = tripped FaultCode.overpower

  -- The next phase of a core that is not tripped.
  unfoldable pub react : Phase → Reading → ℕ → Phase
  unfolding overloaded
  react p stale now_ms = tripped FaultCode.sensor_stale
  react p unusable now_ms = tripped FaultCode.sensor_invalid
  react p no_mains now_ms = waiting
  react p overload now_ms = overloaded p now_ms
  react p high now_ms = straining
  react p low now_ms = supplying

  -- A sample from before the re-arm time does not count for a core that waits.
  abbrev pub too_early : Policy F → Measurement F → Bool
  too_early s m = is_waiting s.phase && is_negative32 (sub32 m.timestamp s.rearmed)

  unfoldable pub take_sample : Policy F → Measurement F → ℕ → Policy F
  unfolding react read
  take_sample s m now_ms = record {
    phase =
        if is_tripped s.phase
        then s.phase
        else if too_early s m
        then s.phase
        else react s.phase (read m now_ms) now_ms;
    rearmed = s.rearmed;
    heard = if too_early s m then s.heard else now_ms;
    newest = some m;
  }

  unfoldable pub take_tick : Policy F → ℕ → Policy F
  take_tick s now_ms = record s {
    phase =
        if not (is_tripped s.phase) && ltb max_measurement_age_ms (sub32 now_ms s.heard)
        then tripped FaultCode.sensor_stale
        else s.phase;
  }

  -- The newest sample allows a reset.
  unfoldable pub allows_reset : Option (Measurement F) → ℕ → Bool
  allows_reset none now_ms = false
  allows_reset (some m) now_ms =
      leb (sub32 now_ms m.timestamp) max_measurement_age_ms
      && m.valid
      && not (fl.gt m.power fault_power_w)

  unfoldable pub take_reset : Policy F → ℕ → Policy F
  unfolding allows_reset
  take_reset s now_ms =
      if is_tripped s.phase && allows_reset s.newest now_ms
      then record s { phase = waiting; rearmed = now_ms; heard = now_ms }
      else s

  unfoldable pub take_break : Policy F → Policy F
  take_break s = record s {
    phase = if is_tripped s.phase then s.phase else tripped FaultCode.protection_internal;
  }

  unfoldable pub obey : Policy F → Event F → Policy F
  unfolding take_sample take_tick take_reset take_break
  obey s (samples m now_ms) = take_sample s m now_ms
  obey s (ticks now_ms) = take_tick s now_ms
  obey s (resets now_ms) = take_reset s now_ms
  obey s acknowledges = s
  obey s (breaks now_ms) = take_break s

  unfoldable pub obey_all : Policy F → List (Event F) → Policy F
  obey_all s [] = s
  obey_all s (e ∷ es) = obey_all (obey s e) es
