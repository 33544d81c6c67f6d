-- ===== src/System/Contract.antt =====
-- The contract of Protection/Policy over the whole of src/main.cpp.
use esp32_real_time_energy_c.Base.{◌∷◌, Bool, true, false, if◌then◌else◌}
use esp32_real_time_energy_c.Guard.{
  Guard, protection_update, protection_tick, protection_reset, protection_acknowledge,
}
use esp32_real_time_energy_c.Guard.Calls.{
  updating, ticking, resetting, acknowledging, call, call-core, call-keeps, events_of,
}
use esp32_real_time_energy_c.Protection.Types.{ProtectionConfig}
use esp32_real_time_energy_c.Protection.Events.{samples, ticks, resets, acknowledges, breaks}
use esp32_real_time_energy_c.Protection.Policy.{obey}
use esp32_real_time_energy_c.Protection.Invariant.{IsConsistent, step-IsConsistent}
use esp32_real_time_energy_c.Controller.Safety.{app_begin-IsSafe}
use esp32_real_time_energy_c.System.Calls.{step_calls, step-guard}
use mathlib.Core.Option.{none, some}
use esp32_real_time_energy_c.Base.{ℕ, ◌≡◌, refl, sym, subst, ap, ◌∙◌, List, [], arith}
use esp32_real_time_energy_c.Base.Float.{Float}
use esp32_real_time_energy_c.Protection.{new_core, begin}
use esp32_real_time_energy_c.Protection.Confirmation.{step-config}
use esp32_real_time_energy_c.Protection.Policy.{Policy, waiting, obey_all}
use esp32_real_time_energy_c.Protection.Refinement.{policy_of, run-policy}
use esp32_real_time_energy_c.Guard.{initial_guard, protection_begin}
use esp32_real_time_energy_c.Guard.Calls.{Call, calls}
use esp32_real_time_energy_c.Actuator.{actuator_apply_state}
use esp32_real_time_energy_c.Controller.{App, Moment}
use esp32_real_time_energy_c.Controller.Turns.{Created, app_begin}
use esp32_real_time_energy_c.System.{Firmware, System, boot_system, Reached, boots, goes}

-- The contract behind a lock: what it has come to, and whether the lock of a sample or a tick has failed
-- since a sample, a tick or a reset last took it.
pub record Guarded {ℓ} (F : Type ℓ) : Type ℓ where
  pub policy : Policy F
  pub failed : Bool

module _ {ℓ} {F : Type ℓ} ⦃fl : Float F⦄ (config : ProtectionConfig F) where
  -- A failed lock is an internal fault, of the time of the next call that may latch it.
  abbrev settled : Guarded F → ℕ → Policy F
  settled w now_ms = if w.failed then obey config w.policy (breaks now_ms) else w.policy

  -- A sample or a tick that gets no lock is lost, and noted; a reset or an acknowledgement is just lost.
  abbrev pub obey_call : Guarded F → Call F → Guarded F
  obey_call w (updating m taken now_ms) =
      if taken
      then record { policy = obey config (settled w now_ms) (samples m now_ms); failed = false }
      else record w { failed = true }
  obey_call w (ticking taken now_ms) =
      if taken
      then record { policy = obey config (settled w now_ms) (ticks now_ms); failed = false }
      else record w { failed = true }
  obey_call w (resetting taken now_ms) =
      if taken
      then record { policy = obey config (settled w now_ms) (resets now_ms); failed = false }
      else w
  obey_call w (acknowledging taken) =
      if taken then record w { policy = obey config w.policy acknowledges } else w

  pub obey_calls : Guarded F → List (Call F) → Guarded F
  obey_calls w [] = w
  obey_calls w (k ∷ ks) = obey_calls (obey_call w k) ks

module _ {ℓ} {F : Type ℓ} ⦃fl : Float F⦄ where
  abbrev pub guarded_of : Guard F → Guarded F
  guarded_of g = record { policy = policy_of g.core; failed = g.internal_fault_pending }

  call-policy :
      (g : Guard F) (k : Call F)
      → g.has_mutex ≡ true
      → IsConsistent g.core
      → policy_of (call g k).core ≡ (obey_call g.core.config (guarded_of g) k).policy
  unfolding obey_all
  call-policy g k m h = ap policy_of (call-core g k) ∙ run-policy g.core (events_of g k) h ∙ same k
    where
      same :
          (k : Call F)
          → obey_all g.core.config (policy_of g.core) (events_of g k)
            ≡ (obey_call g.core.config (guarded_of g) k).policy
      same (updating s taken now_ms) = ground (arith, m)
      same (ticking taken now_ms) = ground (arith, m)
      same (resetting taken now_ms) = ground (arith, m)
      same (acknowledging taken) = ground (arith, m)

  call-failed :
      (g : Guard F) (k : Call F)
      → g.has_mutex ≡ true
      → ((call g k).internal_fault_pending ≡ (obey_call g.core.config (guarded_of g) k).failed)
        × ((call g k).has_mutex ≡ true)
  unfolding call protection_update protection_tick protection_reset protection_acknowledge
  call-failed g (updating s taken now_ms) m = ground (arith, m)
  call-failed g (ticking taken now_ms) m = ground (arith, m)
  call-failed g (resetting taken now_ms) m = ground (arith, m)
  call-failed g (acknowledging taken) m = ground (arith, m)

module _ {ℓ} {F : Type ℓ} ⦃fl : Float F⦄ (firmware : Firmware F) where
  open firmware use {setup, protection_config}

  -- What the contract has come to in a state, by the calls that led there.
  abbrev pub contract_of : (s : System F) → Reached firmware s → Guarded F
  contract_of s (boots created at app world setup_ms started_ms e) = record {
    policy = record { phase = waiting; rearmed = at.now_ms; heard = at.now_ms; newest = none };
    failed = false;
  }
  contract_of s (goes before t r) =
      obey_calls protection_config (contract_of before r) (step_calls firmware before t)

  -- What every call needs of the guard, and keeps.
  record Works (g : Guard F) : Type ℓ where
    mutex : g.has_mutex ≡ true
    consistent : IsConsistent g.core
    configured : g.core.config ≡ protection_config

  call-Works : (g : Guard F) (k : Call F) → Works g → Works (call g k)
  call-Works g k w = record {
    mutex = (call-failed g k w.mutex).1;
    consistent = call-keeps IsConsistent step-IsConsistent g k w.consistent;
    configured =
        call-keeps (λ c. c.config ≡ protection_config) (λ c e h. step-config c e ∙ h) g k
          w.configured;
  }

  calls-Works : (g : Guard F) (ks : List (Call F)) → Works g → Works (calls g ks)
  unfolding calls
  calls-Works g [] w = w
  calls-Works g (k ∷ ks) w = calls-Works (call g k) ks (call-Works g k w)

  call-obeys :
      (g : Guard F) (k : Call F)
      → Works g
      → guarded_of (call g k) ≡ obey_call protection_config (guarded_of g) k
  call-obeys g k w =
      (λ i. record {
        policy = call-policy g k w.mutex w.consistent i;
        failed = (call-failed g k w.mutex).0 i;
      })
      ∙ ap (λ c. obey_call c (guarded_of g) k) w.configured

  calls-obey :
      (g : Guard F) (ks : List (Call F))
      → Works g
      → guarded_of (calls g ks) ≡ obey_calls protection_config (guarded_of g) ks
  unfolding calls obey_calls
  calls-obey g [] w = refl
  calls-obey g (k ∷ ks) w =
      calls-obey (call g k) ks (call-Works g k w)
      ∙ ap (λ v. obey_calls protection_config v ks) (call-obeys g k w)

  start-Works :
      (created : Created) (at : Moment) (app : App F)
      → app_begin setup protection_config created at ≡ some app
      → Works app.guard
        × (guarded_of app.guard ≡ record {
          policy = record {
            phase = waiting;
            rearmed = at.now_ms;
            heard = at.now_ms;
            newest = none;
          };
          failed = false;
        })
  unfolding app_begin protection_begin initial_guard new_core begin actuator_apply_state
  start-Works created at app e = (
    record {
      mutex = ground (arith, e);
      consistent = (app_begin-IsSafe setup protection_config created at app e).sound.0;
      configured = ground (arith, e);
    },
    ground (arith, e),
  )

  Reached-Works : (s : System F) → Reached firmware s → Works s.app.guard
  unfolding boot_system
  Reached-Works s (boots created at app world setup_ms started_ms e) =
      (start-Works created at app e).0
  Reached-Works s (goes before t r) =
      subst Works (sym (step-guard firmware before t))
        (calls-Works before.app.guard (step_calls firmware before t) (Reached-Works before r))

  -- In every state that the device comes to, whatever the six tasks do in whatever order, the protection
  -- stands for exactly the phase, times and newest sample that the contract of Protection/Policy has come
  -- to from waiting at the boot, by the samples, ticks, resets and acknowledgements for which ControlTask
  -- got the lock, with an internal fault before the first sample, tick or reset that gets it after a sample
  -- or tick that did not; and the pending flag is set exactly if there was such a failure since.
  pub Reached-refines :
      (s : System F) (r : Reached firmware s) → guarded_of s.app.guard ≡ contract_of s r
  unfolding boot_system
  Reached-refines s (boots created at app world setup_ms started_ms e) =
      (start-Works created at app e).1
  Reached-refines s (goes before t r) =
      ap guarded_of (step-guard firmware before t)
      ∙ calls-obey before.app.guard (step_calls firmware before t) (Reached-Works before r)
      ∙ ap (λ w. obey_calls protection_config w (step_calls firmware before t))
          (Reached-refines before r)
