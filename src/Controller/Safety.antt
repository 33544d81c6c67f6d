-- ===== src/Controller/Safety.antt =====
-- A closed relay has a good sample behind it, over any turns of the tasks of src/main.cpp.
use mathlib.Core.Option.{some}
use mathlib.Core.Bool.{true≢false}
use esp32_real_time_energy_c.Base.{
  ◌∙◌, ℕ, ◌≤◌, ◌≡◌, inl, inr, sym, Bool, true, false, List, [], ◌∷◌, arith,
}
use esp32_real_time_energy_c.Base.Float.{Float}
use esp32_real_time_energy_c.Measurement.{Measurement}
use esp32_real_time_energy_c.Base.Words.{sub32}
use esp32_real_time_energy_c.Protection.Types.{ProtectionConfig}
use esp32_real_time_energy_c.Protection.Invariant.{IsConsistent, IsOperating, step-IsConsistent}
use esp32_real_time_energy_c.Protection.Samples.{IsBacked, begin-Backs, update-fresh, tick-fresh}
use esp32_real_time_energy_c.Protection.Events.{step}
use esp32_real_time_energy_c.Actuator.{actuator_apply_state}
use esp32_real_time_energy_c.Guard.{Guard, protection_update, protection_tick}
use esp32_real_time_energy_c.Controller.{Setup, App, Moment, control_measurement, control_turn}
use esp32_real_time_energy_c.Controller.Core.{IsSound, turn-IsSound}
use esp32_real_time_energy_c.Controller.Relay.{
  RelayFits, turn-RelayFits, control_measurement-IsCurrent,
}
use esp32_real_time_energy_c.Guard.{apply_pending_internal_fault}
use esp32_real_time_energy_c.Protection.Events.{breaks}
use esp32_real_time_energy_c.Protection.{new_core}
use esp32_real_time_energy_c.Protection.Invariant.{begin-IsConsistent}
use esp32_real_time_energy_c.Guard.{initial_guard, protection_begin}
use esp32_real_time_energy_c.Controller.Turns.{Created, app_begin, Turn, controls, turn, run_turns}

-- The core is consistent, a good sample is behind NORMAL and WARNING, and the relay is commanded on only
-- in these states and not while an internal fault is pending.
pub record IsSafe {ℓ} {F : Type ℓ} ⦃fl : Float F⦄ (app : App F) : Type 0 where
  pub sound : IsSound app.guard.core
  pub relay : RelayFits app

module _ {ℓ} {F : Type ℓ} ⦃fl : Float F⦄ (setup : Setup) where
  turn-IsSafe : (app : App F) (t : Turn F) → IsSafe app → IsSafe (turn setup app t)
  turn-IsSafe app t h = record {
    sound = turn-IsSound setup app t h.sound;
    relay = turn-RelayFits setup app t h.relay;
  }

  run_turns-keeps :
      (app : App F) (ts : List (Turn F)) → IsSafe app → IsSafe (run_turns setup app ts)
  unfolding run_turns
  run_turns-keeps app [] h = h
  run_turns-keeps app (t ∷ ts) h = run_turns-keeps (turn setup app t) ts (turn-IsSafe app t h)

  pub app_begin-IsSafe :
      (config : ProtectionConfig F) (created : Created) (at : Moment) (app : App F)
      → app_begin setup config created at ≡ some app
      → IsSafe app
  unfolding app_begin protection_begin initial_guard actuator_apply_state
  app_begin-IsSafe config created at app e =
      let core = new_core config in
      record {
        sound = ground (arith, begin-IsConsistent core at.now_ms, begin-Backs core at.now_ms);
        relay = ground arith;
      }

  -- After start-up and any turns of the tasks in any order, with any samples, messages, commands,
  -- times and failures to lock: the relay is commanded on only in NORMAL and WARNING, with a usable
  -- sample behind it, and never while a lock failure waits to be latched.
  pub run_turns-IsSafe :
      (config : ProtectionConfig F) (created : Created) (at : Moment) (app : App F)
      (ts : List (Turn F))
      → app_begin setup config created at ≡ some app
      → IsSafe (run_turns setup app ts)
  run_turns-IsSafe config created at app ts e =
      run_turns-keeps app ts (app_begin-IsSafe config created at app e)

module _ {ℓ} {F : Type ℓ} ⦃fl : Float F⦄ where
  pending-IsConsistent :
      (g : Guard F) (now_ms : ℕ)
      → IsConsistent g.core
      → IsConsistent (apply_pending_internal_fault g now_ms).core
  unfolding apply_pending_internal_fault step
  pending-IsConsistent g now_ms h = ground (arith, step-IsConsistent g.core (breaks now_ms) h)

  -- The sample behind the state is fresh if the lock was taken.
  abbrev IsFresh : Guard F → ℕ → Type 0
  IsFresh g now_ms =
      g.internal_fault_pending ≡ false
      → IsOperating g.core.state
      → sub32 now_ms g.core.last_sample_ms ≤ g.core.max_measurement_age_ms

  update-IsFresh :
      (g : Guard F) (m : Measurement F) (taken : Bool) (now_ms : ℕ)
      → IsConsistent g.core
      → IsFresh (protection_update g m taken now_ms).0 now_ms
  unfolding protection_update
  update-IsFresh g m taken now_ms h =
      let k = apply_pending_internal_fault g now_ms in
      ground (arith, update-fresh k.core m now_ms (pending-IsConsistent g now_ms h))

  tick-IsFresh :
      (g : Guard F) (taken : Bool) (now_ms : ℕ) → IsFresh (protection_tick g taken now_ms).0 now_ms
  unfolding protection_tick
  tick-IsFresh g taken now_ms =
      ground (arith, tick-fresh (apply_pending_internal_fault g now_ms).core now_ms)

  control-IsFresh :
      (setup : Setup) (app : App F) (queue : List (Measurement F)) (at : Moment)
      → IsConsistent app.guard.core
      → IsFresh (control_measurement setup app queue at).guard at.now_ms
  unfolding control_measurement
  control-IsFresh setup app [] at h = tick-IsFresh app.guard at.taken at.now_ms
  control-IsFresh setup app (m ∷ rest) at h = update-IsFresh app.guard m at.taken at.now_ms h

module _ {ℓ} {F : Type ℓ} ⦃fl : Float F⦄ (setup : Setup) where
  -- After start-up and any turns in any order, if the relay is commanded on right after ControlTask has
  -- taken a sample or ticked, then the lock was taken, the core is in NORMAL or WARNING, and its last
  -- sample came within the freshness limit before, was valid and fresh, showed mains, and its power was
  -- at most the fault threshold or a confirmation window was open at it; in NORMAL the power was at most
  -- the warning threshold.
  pub relay_on-IsBacked :
      (config : ProtectionConfig F) (created : Created) (start at : Moment) (boot : App F)
      (ts : List (Turn F))
      → app_begin setup config created start ≡ some boot
      → let b = turn setup (run_turns setup boot ts) (controls at) in
        b.actuator.commanded_on ≡ true
        → (b.guard.internal_fault_pending ≡ false)
          × IsOperating b.guard.core.state
          × IsBacked b.guard.core
          × (sub32 at.now_ms b.guard.core.last_sample_ms ≤ b.guard.core.max_measurement_age_ms)
  unfolding turn control_turn
  relay_on-IsBacked config created start at boot ts e on =
      let app = run_turns setup boot ts in
      let b = turn setup app (controls at) in
      let before = run_turns-IsSafe setup config created start boot ts e in
      let after = turn-IsSafe setup app (controls at) before in
      let fresh = control-IsFresh setup app app.measurement_queue at before.sound.0 in
      elim (control_measurement-IsCurrent setup app app.measurement_queue at) [
        | inl (_, operating, settled) ↦
            (settled, operating, after.sound.1 operating, fresh settled operating)
        | inr (off, _) ↦ absurd (true≢false (sym on ∙ off))
      ]
