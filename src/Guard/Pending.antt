-- ===== src/Guard/Pending.antt =====
-- What becomes of a failed lock, in src/protection.cpp.
use esp32_real_time_energy_c.Base.{
  ap, sym, subst, ◌∙◌, ℕ, ◌≤◌, ◌≡◌, ◌≢◌, Bool, true, false, if◌then◌else◌, List, [], ◌∷◌, arith,
}
use esp32_real_time_energy_c.Base.Words.{sub32}
use esp32_real_time_energy_c.Base.Float.{Float}
use esp32_real_time_energy_c.Measurement.{Measurement}
use esp32_real_time_energy_c.Protection.{
  ProtectionCore, acknowledge, update, tick, raise_internal_fault, request_reset,
}
use esp32_real_time_energy_c.Protection.Types.{
  SystemState, FaultCode, ResetResult, ProtectionResult, same_state,
}
use esp32_real_time_energy_c.Protection.Invariant.{IsConsistent}
use esp32_real_time_energy_c.Guard.{
  Guard, locks, protection_update, protection_tick, protection_reset,
}
use esp32_real_time_energy_c.Guard.Calls.{
  calls-keep, Call, updating, ticking, resetting, acknowledging, call, calls,
}

module _ {ℓ} {F : Type ℓ} ⦃fl : Float F⦄ where
  -- The call does not take the pending fault over: it fails to lock, or it is an acknowledgement.
  abbrev pub Passes : Guard F → Call F → Type 0
  Passes g (updating m taken now_ms) = locks g taken ≡ false
  Passes g (ticking taken now_ms) = locks g taken ≡ false
  Passes g (resetting taken now_ms) = locks g taken ≡ false
  Passes g (acknowledging taken) = Unit

  abbrev pub AllPass : Guard F → List (Call F) → Type 0
  AllPass g [] = Unit
  AllPass g (k ∷ ks) = Passes g k × AllPass (call g k) ks

  -- The core's state and fault code are as they were, and the fault is still pending.
  record Waits (g h : Guard F) : Type 0 where
    pending : h.internal_fault_pending ≡ true
    state : h.core.state ≡ g.core.state
    code : h.core.fault.active_fault ≡ g.core.fault.active_fault
    mutex : h.has_mutex ≡ g.has_mutex

  call-Waits :
      (g : Guard F) (k : Call F) → g.internal_fault_pending ≡ true → Passes g k → Waits g (call g k)
  unfolding call acknowledge
  call-Waits g (updating m taken now_ms) p h = ground arith
  call-Waits g (ticking taken now_ms) p h = ground arith
  call-Waits g (resetting taken now_ms) p h = ground arith
  call-Waits g (acknowledging taken) p h = ground arith

  calls-Waits :
      (g : Guard F) (ks : List (Call F))
      → g.internal_fault_pending ≡ true
      → AllPass g ks
      → Waits g (calls g ks)
  unfolding calls
  calls-Waits g [] p h = ground arith
  calls-Waits g (k ∷ ks) p (h, hs) =
      let first = call-Waits g k p h in ground (arith, calls-Waits (call g k) ks first.pending hs)

  -- An update or a tick that fails to lock.
  abbrev pub Fails : Guard F → Call F → Type 0
  Fails g (updating m taken now_ms) = locks g taken ≡ false
  Fails g (ticking taken now_ms) = locks g taken ≡ false
  Fails g _ = ⊥

  failed_call :
      (g : Guard F) (k : Call F)
      → Fails g k
      → ((call g k).internal_fault_pending ≡ true)
        × ((call g k).core ≡ g.core)
        × ((call g k).has_mutex ≡ g.has_mutex)
  unfolding call
  failed_call g (updating m taken now_ms) h = ground arith
  failed_call g (ticking taken now_ms) h = ground arith
  failed_call g (resetting taken now_ms) h = absurd h
  failed_call g (acknowledging taken) h = absurd h

  -- A fault of the core: latched, the result says so, and the cause is as told.
  abbrev pub Latches : FaultCode → Guard F × ProtectionResult → Type 0
  Latches code (g, r) =
      (g.core.state ≡ SystemState.fault)
      × (g.core.fault.active_fault ≡ code)
      × (r.state ≡ SystemState.fault)
      × (r.fault ≡ code)
      × (g.internal_fault_pending ≡ false)

  -- What the next locked update and tick latch.
  abbrev pub pending_code : ProtectionCore F → FaultCode
  pending_code c =
      if same_state c.state SystemState.fault
      then c.fault.active_fault
      else FaultCode.protection_internal

  pub locked_update-Latches :
      (g : Guard F) (m : Measurement F) (taken : Bool) (now_ms : ℕ)
      → g.internal_fault_pending ≡ true
      → IsConsistent g.core
      → locks g taken ≡ true
      → Latches (pending_code g.core) (protection_update g m taken now_ms)
        × Latches (pending_code g.core) (protection_tick g taken now_ms)
  unfolding protection_update protection_tick update tick raise_internal_fault
  locked_update-Latches g m taken now_ms p h l = ground arith

  same_code :
      (c d : ProtectionCore F)
      → d.state ≡ c.state
      → d.fault.active_fault ≡ c.fault.active_fault
      → pending_code d ≡ pending_code c
  same_code c d s f = rw (s, f)

  -- A lock failure in an update or a tick is never lost: after any further calls that fail to lock
  -- or only acknowledge, the next update or tick that takes the lock leaves the core in FAULT, with
  -- PROTECTION_INTERNAL or with the fault that was latched before the failure, and says so.
  pub lock_failure-Latches :
      (g : Guard F) (failed : Call F) (ks : List (Call F)) (m : Measurement F) (taken : Bool)
      (now_ms : ℕ)
      → IsConsistent g.core
      → Fails g failed
      → AllPass (call g failed) ks
      → let h = calls (call g failed) ks in
        locks h taken ≡ true
        → Latches (pending_code g.core) (protection_update h m taken now_ms)
          × Latches (pending_code g.core) (protection_tick h taken now_ms)
  lock_failure-Latches g failed ks m taken now_ms c f pass l =
      let g₁ = call g failed in
      let (pending, same, _) = failed_call g failed f in
      let waits = calls-Waits g₁ ks pending pass in
      let ok = calls-keep g₁ ks (subst IsConsistent (sym same) c) in
      let code =
        same_code g₁.core (calls g₁ ks).core waits.state waits.code ∙ ap pending_code same in
      subst
        (λ k.
          Latches k (protection_update (calls g₁ ks) m taken now_ms)
          × Latches k (protection_tick (calls g₁ ks) taken now_ms))
        code (locked_update-Latches (calls g₁ ks) m taken now_ms waits.pending ok l)

  -- But a reset that takes the lock first may erase it: with no other fault latched and a last sample
  -- that is there, fresh, valid and not above the fault threshold, the pending fault is latched and
  -- cleared by the same call, which answers ACCEPTED and leaves INIT.
  pub pending_reset_erases :
      (g : Guard F) (taken : Bool) (now_ms : ℕ)
      → g.internal_fault_pending ≡ true
      → locks g taken ≡ true
      → IsConsistent g.core
      → g.core.state ≢ SystemState.fault
      → g.core.have_measurement ≡ true
      → sub32 now_ms g.core.last.timestamp ≤ g.core.max_measurement_age_ms
      → g.core.last.valid ≡ true
      → fl.gt g.core.last.power g.core.fault_power_w ≡ false
      → let (h, result) = protection_reset g taken now_ms in
        (result ≡ ResetResult.accepted)
        × (h.core.state ≡ SystemState.init)
        × (h.core.fault.active_fault ≡ FaultCode.none)
        × (h.core.fault.last_fault ≡ FaultCode.protection_internal)
        × (h.internal_fault_pending ≡ false)
  unfolding protection_reset raise_internal_fault request_reset
  pending_reset_erases g taken now_ms p l i s have fresh valid safe = ground arith
