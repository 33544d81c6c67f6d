-- ===== src/Guard/Tests.antt =====
-- The guarded protection of src/protection.cpp when the mutex is not taken in time.
use mathlib.Core.Option.{some}
use esp32_real_time_energy_c.Base.{◌≡◌, ◌≢◌, refl, true, false, [], ◌∷◌, arith}
use esp32_real_time_energy_c.Base.Float.{Milli, milli_float}
use esp32_real_time_energy_c.Protection.{begin, new_core, update}
use esp32_real_time_energy_c.Protection.Types.{SystemState, FaultCode, ResetResult}
use esp32_real_time_energy_c.Protection.Invariant.{IsConsistent}
use esp32_real_time_energy_c.Protection.Tests.{test_config, sample, core}
use esp32_real_time_energy_c.Guard.{
  Guard, protection_begin, protection_update, protection_tick, protection_reset, initial_guard,
}
use esp32_real_time_energy_c.Guard.Calls.{
  updating, ticking, acknowledging, call, calls, calls-IsConsistent,
}
use esp32_real_time_energy_c.Guard.Pending.{
  Latches, pending_code, lock_failure-Latches, pending_reset_erases,
}

-- behind the mutex, after `protectionBegin` at 500 ms
abbrev guard : Guard Milli
guard = record { core = begin core 500; has_mutex = true; internal_fault_pending = false }

guard_begun : protection_begin (initial_guard test_config) true 500 ≡ some guard
unfolding protection_begin initial_guard
guard_begun = refl

-- one good sample, then a lock failure
abbrev loaded : Guard Milli
loaded = calls guard (updating (sample 40 1000) true 1000 ∷ [])

abbrev missed : Guard Milli
missed = calls guard (updating (sample 40 1000) true 1000 ∷ ticking false 1100 ∷ [])

calls-IsConsistent_example : IsConsistent missed.core
calls-IsConsistent_example =
    calls-IsConsistent guard core 500
      (updating (sample 40 1000) true 1000 ∷ ticking false 1100 ∷ []) refl

loaded-IsConsistent : IsConsistent loaded.core
loaded-IsConsistent =
    calls-IsConsistent guard core 500 (updating (sample 40 1000) true 1000 ∷ []) refl

lock_failure-Latches_example :
    let h = calls (call loaded (ticking false 1100)) (acknowledging true ∷ []) in
    Latches (pending_code loaded.core) (protection_update h (sample 40 2000) true 2000)
    × Latches (pending_code loaded.core) (protection_tick h true 2000)
unfolding calls call
lock_failure-Latches_example =
    lock_failure-Latches loaded (ticking false 1100) (acknowledging true ∷ []) (sample 40 2000) true
      2000 loaded-IsConsistent refl (tt, tt) refl

normal-ne-fault : SystemState.normal ≢ SystemState.fault
normal-ne-fault = λ e. cc

pending_reset_erases_example :
    let (h, result) = protection_reset missed true 1200 in
    (result ≡ ResetResult.accepted)
    × (h.core.state ≡ SystemState.init)
    × (h.core.fault.active_fault ≡ FaultCode.none)
    × (h.core.fault.last_fault ≡ FaultCode.protection_internal)
    × (h.internal_fault_pending ≡ false)
unfolding calls call begin new_core update
pending_reset_erases_example =
    pending_reset_erases missed true 1200 refl refl calls-IsConsistent_example normal-ne-fault refl
      (omega arith) refl refl
