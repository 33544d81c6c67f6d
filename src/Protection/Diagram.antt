-- ===== src/Protection/Diagram.antt =====
-- The transition diagram of docs/fault-management.md, for lib/energy_core/src/protection_core.cpp.
use esp32_real_time_energy_c.Base.{◌≡◌, ◌≢◌, ◌⊎◌, arith}
use esp32_real_time_energy_c.Base.Float.{Float}
use esp32_real_time_energy_c.Protection.Types.{SystemState}
use esp32_real_time_energy_c.Protection.{ProtectionCore}
use esp32_real_time_energy_c.Protection.Events.{
  Event, samples, ticks, resets, acknowledges, breaks, step,
}
use esp32_real_time_energy_c.Protection.Invariant.{IsConsistent}

-- The moves that each call may make.
infix 40 ◌⟶◌
pub data ◌⟶◌ : SystemState → SystemState → Type 0 where
  stay : {s : SystemState} → s ⟶ s
  supply : {s : SystemState} → s ≢ SystemState.fault → s ⟶ SystemState.normal
  strain : {s : SystemState} → s ≢ SystemState.fault → s ⟶ SystemState.warning
  lose_mains : {s : SystemState} → s ≢ SystemState.fault → s ⟶ SystemState.init
  trip : {s : SystemState} → s ⟶ SystemState.fault
  clear : SystemState.fault ⟶ SystemState.init

-- Only a sample operates the load or takes mains away, and only a reset clears a fault.
abbrev pub Moves {ℓ} : {F : Type ℓ} → Event F → SystemState → SystemState → Type 0
Moves (samples m now_ms) s t = (t ≡ SystemState.fault) ⊎ (s ≢ SystemState.fault)
Moves (ticks now_ms) s t = (t ≡ SystemState.fault) ⊎ (t ≡ s)
Moves (resets now_ms) s t = (t ≡ s) ⊎ ((s ≡ SystemState.fault) × (t ≡ SystemState.init))
Moves acknowledges s t = t ≡ s
Moves (breaks now_ms) s t = t ≡ SystemState.fault

-- Every move is drawn but those from FAULT to NORMAL or WARNING.
draw :
    (s t : SystemState)
    → (s ≡ SystemState.fault → (t ≡ SystemState.fault) ⊎ (t ≡ SystemState.init))
    → s ⟶ t
draw SystemState.fault SystemState.normal h = absurd (ground arith)
draw SystemState.fault SystemState.warning h = absurd (ground arith)
draw SystemState.fault SystemState.init h = clear
draw _ SystemState.fault h = trip
draw SystemState.init SystemState.normal h = supply (λ e. cc)
draw SystemState.init SystemState.warning h = strain (λ e. cc)
draw SystemState.init SystemState.init h = stay
draw SystemState.normal SystemState.normal h = stay
draw SystemState.normal SystemState.warning h = strain (λ e. cc)
draw SystemState.normal SystemState.init h = lose_mains (λ e. cc)
draw SystemState.warning SystemState.normal h = supply (λ e. cc)
draw SystemState.warning SystemState.warning h = stay
draw SystemState.warning SystemState.init h = lose_mains (λ e. cc)

module _ {ℓ} {F : Type ℓ} ⦃fl : Float F⦄ where
  -- Every call moves along the diagram: FAULT leads to INIT alone, by a reset; only a sample reaches
  -- NORMAL or WARNING or leaves them for INIT; a tick stays or trips, an internal fault trips, and an
  -- acknowledgement stays.
  pub step-Moves :
      (c : ProtectionCore F) (e : Event F)
      → IsConsistent c
      → (c.state ⟶ (step c e).state) × Moves e c.state (step c e).state
  unfolding step
  step-Moves c (samples m now_ms) h = (draw _ _ (ground arith), ground arith)
  step-Moves c (ticks now_ms) h = (draw _ _ (ground arith), ground arith)
  step-Moves c (resets now_ms) h = (draw _ _ (ground arith), ground arith)
  step-Moves c acknowledges h = (draw _ _ (ground arith), ground arith)
  step-Moves c (breaks now_ms) h = (draw _ _ (ground arith), ground arith)
