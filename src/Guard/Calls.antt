-- ===== src/Guard/Calls.antt =====
-- The guarded calls of src/protection.cpp are calls of the core, in order, so what holds of the core
-- after any calls holds behind the mutex.
use esp32_real_time_energy_c.Base.{
  ℕ, ◌≡◌, refl, Bool, List, [], ◌∷◌, ◌++◌, arith, if◌then◌else◌, ap, ◌∙◌, sym, subst,
}
use esp32_real_time_energy_c.Base.Float.{Float}
use esp32_real_time_energy_c.Measurement.{Measurement}
use esp32_real_time_energy_c.Guard.{
  Guard, locks, protection_update, protection_tick, protection_reset, protection_acknowledge,
}
use esp32_real_time_energy_c.Protection.{ProtectionCore, begin}
use esp32_real_time_energy_c.Protection.Events.{
  Event, samples, ticks, resets, acknowledges, breaks, step, run, run-append,
}
use esp32_real_time_energy_c.Protection.Invariant.{IsConsistent, run-keeps, run-IsConsistent}

-- A call of ControlTask, with the outcome of the lock and the time.
pub data Call {ℓ} (F : Type ℓ) : Type ℓ where
  updating : Measurement F → Bool → ℕ → Call F
  ticking : Bool → ℕ → Call F
  resetting : Bool → ℕ → Call F
  acknowledging : Bool → Call F

module _ {ℓ} {F : Type ℓ} ⦃fl : Float F⦄ where
  unfoldable pub call : Guard F → Call F → Guard F
  unfolding protection_update protection_tick protection_reset protection_acknowledge
  call g (updating m taken now_ms) = (protection_update g m taken now_ms).0
  call g (ticking taken now_ms) = (protection_tick g taken now_ms).0
  call g (resetting taken now_ms) = (protection_reset g taken now_ms).0
  call g (acknowledging taken) = (protection_acknowledge g taken).0

  unfoldable pub calls : Guard F → List (Call F) → Guard F
  calls g [] = g
  calls g (k ∷ ks) = calls (call g k) ks

  -- The fault that a lock failure left behind comes first.
  abbrev after_pending : Guard F → ℕ → Event F → List (Event F)
  after_pending g now_ms e = if g.internal_fault_pending then breaks now_ms ∷ e ∷ [] else e ∷ []

  abbrev pub events_of : Guard F → Call F → List (Event F)
  events_of g (updating m taken now_ms) =
      if locks g taken then after_pending g now_ms (samples m now_ms) else []
  events_of g (ticking taken now_ms) =
      if locks g taken then after_pending g now_ms (ticks now_ms) else []
  events_of g (resetting taken now_ms) =
      if locks g taken then after_pending g now_ms (resets now_ms) else []
  events_of g (acknowledging taken) = if locks g taken then acknowledges ∷ [] else []

  pub call-core : (g : Guard F) (k : Call F) → (call g k).core ≡ run g.core (events_of g k)
  unfolding call run step
  call-core g (updating m taken now_ms) = ground arith
  call-core g (ticking taken now_ms) = ground arith
  call-core g (resetting taken now_ms) = ground arith
  call-core g (acknowledging taken) = ground arith

  -- All the events that a sequence of calls brings to the core.
  pub all_events : Guard F → List (Call F) → List (Event F)
  all_events g [] = []
  all_events g (k ∷ ks) = events_of g k ++ all_events (call g k) ks

  -- Behind the mutex the core goes through exactly the events of the calls that took the lock, an
  -- internal fault first where an earlier call failed to take it.
  pub calls-core :
      (g : Guard F) (ks : List (Call F)) → (calls g ks).core ≡ run g.core (all_events g ks)
  unfolding calls run all_events
  calls-core g [] = refl
  calls-core g (k ∷ ks) =
      calls-core (call g k) ks
      ∙ ap (λ c. run c (all_events (call g k) ks)) (call-core g k)
      ∙ sym (run-append g.core (events_of g k) (all_events (call g k) ks))

  -- So the core is consistent after `protectionBegin` and any calls, whichever of them fail to lock.
  pub calls-IsConsistent :
      (g : Guard F) (c : ProtectionCore F) (start_ms : ℕ) (ks : List (Call F))
      → g.core ≡ begin c start_ms
      → IsConsistent (calls g ks).core
  calls-IsConsistent g c start_ms ks e =
      subst IsConsistent (sym (calls-core g ks ∙ ap (λ d. run d (all_events g ks)) e))
        (run-IsConsistent c start_ms (all_events g ks))

  run-keeps-all {p} :
      (P : ProtectionCore F → Type p)
      → ((c : ProtectionCore F) (e : Event F) → P c → P (step c e))
      → (c : ProtectionCore F) (es : List (Event F)) → P c
      → P (run c es)
  unfolding run
  run-keeps-all P keep c [] h = h
  run-keeps-all P keep c (e ∷ es) h = run-keeps-all P keep (step c e) es (keep c e h)

  -- What every event keeps, a call keeps.
  pub call-keeps {p} :
      (P : ProtectionCore F → Type p)
      → ((c : ProtectionCore F) (e : Event F) → P c → P (step c e))
      → (g : Guard F) (k : Call F) → P g.core
      → P (call g k).core
  call-keeps P keep g k h =
      subst P (sym (call-core g k)) (run-keeps-all P keep g.core (events_of g k) h)

  pub calls-keeps {p} :
      (P : ProtectionCore F → Type p)
      → ((c : ProtectionCore F) (e : Event F) → P c → P (step c e))
      → (g : Guard F) (ks : List (Call F)) → P g.core
      → P (calls g ks).core
  unfolding calls
  calls-keeps P keep g [] h = h
  calls-keeps P keep g (k ∷ ks) h = calls-keeps P keep (call g k) ks (call-keeps P keep g k h)

  -- Any calls keep the core consistent.
  pub calls-keep :
      (g : Guard F) (ks : List (Call F)) → IsConsistent g.core → IsConsistent (calls g ks).core
  calls-keep g ks h =
      subst IsConsistent (sym (calls-core g ks)) (run-keeps g.core (all_events g ks) h)
