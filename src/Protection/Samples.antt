-- ===== src/Protection/Samples.antt =====
-- What a closed relay rests on: the samples behind NORMAL and WARNING, in `update` and `tick` of
-- lib/energy_core/src/protection_core.cpp.
use esp32_real_time_energy_c.Base.{
  ℕ, ◌≤◌, ◌<◌, ◌≡◌, ◌≢◌, ◌⊎◌, inl, inr, Bool-cases, ltb, true, false, List, [], ◌∷◌, arith,
}
use esp32_real_time_energy_c.Base.Words.{sub32}
use esp32_real_time_energy_c.Base.Float.{Float}
use esp32_real_time_energy_c.Protection.{Measurement, ProtectionCore, begin, tick, update}
use esp32_real_time_energy_c.Protection.Types.{SystemState, FaultCode, same_state}
use esp32_real_time_energy_c.Protection.Events.{
  Event, samples, ticks, resets, acknowledges, breaks, step, run,
}
use esp32_real_time_energy_c.Protection.Invariant.{
  IsConsistent, IsOperating, begin-IsConsistent, step-IsConsistent, run-IsConsistent,
}

module _ {ℓ} {F : Type ℓ} ⦃fl : Float F⦄ where
  -- The last sample is usable, mains is present, and the power is at most the fault threshold or has
  -- been above it for less than the confirmation time.
  pub record IsBacked (c : ProtectionCore F) : Type 0 where
    pub valid : c.last.valid ≡ true
    pub mains : fl.le c.last.voltage c.min_operating_voltage_v ≡ false
    pub fresh : sub32 c.last_sample_ms c.last.timestamp ≤ c.max_measurement_age_ms
    pub safe :
        (fl.gt c.last.power c.fault_power_w ≡ false)
        ⊎ ((c.timer_active ≡ true)
            × (sub32 c.last_sample_ms c.timer_start < c.fault_confirm_ms)
            × (c.state ≡ SystemState.warning))
    pub calm : c.state ≡ SystemState.normal → fl.gt c.last.power c.warning_power_w ≡ false

  abbrev pub BacksItsState : ProtectionCore F → Type 0
  BacksItsState c = IsOperating c.state → IsBacked c

  pub step-Backs :
      (c : ProtectionCore F) (e : Event F)
      → IsConsistent c
      → BacksItsState c
      → BacksItsState (step c e)
  unfolding step
  step-Backs c (samples m now_ms) h b = ground arith
  step-Backs c (ticks now_ms) h b = ground arith
  step-Backs c (resets now_ms) h b = ground arith
  step-Backs c acknowledges h b = ground arith
  step-Backs c (breaks now_ms) h b = ground arith

  run-Backs :
      (c : ProtectionCore F) (es : List (Event F))
      → IsConsistent c
      → BacksItsState c
      → BacksItsState (run c es)
  unfolding run
  run-Backs c [] h b = b
  run-Backs c (e ∷ es) h b = run-Backs (step c e) es (step-IsConsistent c e h) (step-Backs c e h b)

  pub begin-Backs : (c : ProtectionCore F) (now_ms : ℕ) → BacksItsState (begin c now_ms)
  unfolding begin
  begin-Backs c now_ms = ground arith

  pub tick-fresh :
      (c : ProtectionCore F) (now_ms : ℕ)
      → let d = (tick c now_ms).0 in
        IsOperating d.state → sub32 now_ms d.last_sample_ms ≤ d.max_measurement_age_ms
  unfolding tick
  tick-fresh c now_ms = ground arith

  -- In NORMAL and WARNING the sample that brought the core there, or kept it there, came just now.
  pub update-fresh :
      (c : ProtectionCore F) (m : Measurement F) (now_ms : ℕ)
      → IsConsistent c
      → let d = (update c m now_ms).0 in
        IsOperating d.state → sub32 now_ms d.last_sample_ms ≤ d.max_measurement_age_ms
  unfolding update
  update-fresh c m now_ms h = ground arith

  -- After start-up and any calls, if the core is in NORMAL or WARNING right after a tick, then it took
  -- its last sample within the freshness limit before the tick. That sample was valid and fresh, showed
  -- mains, and its power was at most the fault threshold or the core is in WARNING with a confirmation
  -- window still open at the sample; in NORMAL the power was at most the warning threshold.
  pub operating-IsBacked :
      (c : ProtectionCore F) (start_ms now_ms : ℕ) (es : List (Event F))
      → let d = (tick (run (begin c start_ms) es) now_ms).0 in
        IsOperating d.state
        → IsBacked d × (sub32 now_ms d.last_sample_ms ≤ d.max_measurement_age_ms)
  unfolding step
  operating-IsBacked c start_ms now_ms es o =
      let start : ProtectionCore F = begin c start_ms in
      let ok = run-IsConsistent c start_ms es in
      let backs = run-Backs start es (begin-IsConsistent c start_ms) (begin-Backs c start_ms) in
      (step-Backs (run start es) (ticks now_ms) ok backs o, tick-fresh (run start es) now_ms o)

  -- A tick latches SENSOR_STALE exactly if no fault is latched and the last sample was taken longer ago
  -- than the freshness limit; otherwise it changes nothing.
  pub tick-silence :
      (c : ProtectionCore F) (now_ms : ℕ)
      → IsConsistent c
      → let d = (tick c now_ms).0 in
        ((c.state ≢ SystemState.fault)
          × (c.max_measurement_age_ms < sub32 now_ms c.last_sample_ms)
          × (d.state ≡ SystemState.fault)
          × (d.fault.active_fault ≡ FaultCode.sensor_stale)
          × (d.fault.active_since ≡ now_ms))
        ⊎ (((c.state ≡ SystemState.fault)
              ⊎ (sub32 now_ms c.last_sample_ms ≤ c.max_measurement_age_ms))
            × (d ≡ c))
  unfolding tick
  tick-silence c now_ms h = elim (Bool-cases (same_state c.state SystemState.fault)) [
    | inl s ↦ inr (inl (ground arith), rw s)
    | inr s ↦ elim (Bool-cases (ltb c.max_measurement_age_ms (sub32 now_ms c.last_sample_ms))) [
      | inl e ↦ inl (ground arith)
      | inr e ↦ inr (inr (ground arith), rw (s, e))
    ]
  ]
