-- ===== src/Heartbeat/Health.antt =====
-- What the health check of lib/energy_core/src/heartbeat_monitor.cpp finds.
use mathlib.Core.Bool.{false≢true}
use native.Mathlib.Decide.{ℕ_discrete}
use esp32_real_time_energy_c.Base.{
  ◌∙◌, sym, ◌&&◌, ℕ, zero, suc, ◌+◌, ◌≤◌, ◌<◌, ◌≡◌, ◌⊎◌, ◌↔◌, inl, inr, refl, true, false, List, [],
  ◌∷◌, arith, ltb, ◌==◌, if◌then◌else◌, get_or, length, length-set, get_or-set_self, get_or-set_ne,
  Bool-cases,
}
use esp32_real_time_energy_c.Base.Words.{sub32}
use esp32_real_time_energy_c.Heartbeat.{
  HeartbeatMonitor, new_monitor, beat, age_ms, is_stale, first_stale, first_stale_from, healthy,
  heartbeat_never, heartbeat_max_slots, no_slot,
}

-- The arrays have room for every slot.
pub record IsSized (h : HeartbeatMonitor) : Type 0 where
  pub slots_fit : h.slots ≤ heartbeat_max_slots
  pub last_size : length h.last ≡ heartbeat_max_slots
  pub seen_size : length h.seen ≡ heartbeat_max_slots

-- The times and slots of the calls of `beat`.
abbrev pub beats : HeartbeatMonitor → List (ℕ × ℕ) → HeartbeatMonitor
beats h [] = h
beats h ((slot, now_ms) ∷ bs) = beats (beat h slot now_ms) bs

pub new_monitor-IsSized : (slots : ℕ) → IsSized (new_monitor slots)
unfolding new_monitor
new_monitor-IsSized slots = ground arith

pub beat-IsSized :
    (h : HeartbeatMonitor) (slot now_ms : ℕ) → IsSized h → IsSized (beat h slot now_ms)
unfolding beat
beat-IsSized h slot now_ms s =
    ground (arith, length-set h.last slot now_ms, length-set h.seen slot true)

-- A beat of a supervised slot makes its age the time passed since, across the wrap of the clock, and
-- leaves every other age as it was; a beat of any other slot changes nothing.
pub age_ms-beat :
    (h : HeartbeatMonitor) (slot other beat_ms now_ms : ℕ)
    → IsSized h
    → age_ms (beat h slot beat_ms) other now_ms
      ≡ (if slot == other && ltb slot h.slots then sub32 now_ms beat_ms else age_ms h other now_ms)
unfolding beat age_ms
age_ms-beat h slot other beat_ms now_ms s = elim (Bool-cases (slot == other)) [
  | inl e ↦
      ground
        (arith, get_or-set_self h.last other beat_ms 0, get_or-set_self h.seen other true false)
  | inr e ↦
      ground (
        arith,
        get_or-set_ne h.last slot other beat_ms 0,
        get_or-set_ne h.seen slot other true false,
      )
]

-- No slot from `i` up to `j` is stale.
abbrev pub NoneStale : HeartbeatMonitor → ℕ → ℕ → ℕ → ℕ → Type 0
NoneStale h now_ms timeout_ms i j = (k : ℕ) → i ≤ k → k < j → is_stale h k now_ms timeout_ms ≡ false

pub NoneStale-cons :
    (h : HeartbeatMonitor) (now_ms timeout_ms i j : ℕ)
    → is_stale h i now_ms timeout_ms ≡ false
    → NoneStale h now_ms timeout_ms (i + 1) j
    → NoneStale h now_ms timeout_ms i j
NoneStale-cons h now_ms timeout_ms i j first rest k p q = elim (ℕ_discrete i k) [
  | yes e ↦ rw (← e) first
  | no n ↦ rest k (omega arith) q
]

-- What the search returns: `no_slot` and nothing stale, or the first stale slot.
abbrev pub Finds : HeartbeatMonitor → ℕ → ℕ → ℕ → ℕ → ℕ → Type 0
Finds h now_ms timeout_ms i j found =
    ((found ≡ no_slot) × NoneStale h now_ms timeout_ms i j)
    ⊎ ((i ≤ found)
        × (found < j)
        × (is_stale h found now_ms timeout_ms ≡ true)
        × NoneStale h now_ms timeout_ms i found)

Finds-skip :
    (h : HeartbeatMonitor) (now_ms timeout_ms i j found : ℕ)
    → is_stale h i now_ms timeout_ms ≡ false
    → Finds h now_ms timeout_ms (i + 1) j found
    → Finds h now_ms timeout_ms i j found
Finds-skip h now_ms timeout_ms i j found first (inl (e, rest)) =
    inl (e, NoneStale-cons h now_ms timeout_ms i j first rest)
Finds-skip h now_ms timeout_ms i j found first (inr (lo, hi, stale, rest)) =
    inr (omega arith, hi, stale, NoneStale-cons h now_ms timeout_ms i found first rest)

first_stale_from-Finds :
    (h : HeartbeatMonitor) (now_ms timeout_ms left i j : ℕ)
    → i + left ≡ j
    → Finds h now_ms timeout_ms i j (first_stale_from h now_ms timeout_ms left i)
unfolding first_stale_from
first_stale_from-Finds h now_ms timeout_ms zero i j b = inl (refl, λ k p q. absurd (omega arith))
first_stale_from-Finds h now_ms timeout_ms (suc left) i j b =
    elim (Bool-cases (is_stale h i now_ms timeout_ms)) [
      | inl stale ↦ rw stale (inr (omega arith, omega arith, stale, λ k p q. absurd (omega arith)))
      | inr fresh ↦ rw fresh (
          Finds-skip h now_ms timeout_ms i j _ fresh
            (first_stale_from-Finds h now_ms timeout_ms left (i + 1) j (omega arith)))
    ]

-- The search returns the lowest supervised slot that is stale, or SIZE_MAX exactly if no supervised
-- slot is stale.
pub first_stale-Finds :
    (h : HeartbeatMonitor) (now_ms timeout_ms : ℕ)
    → Finds h now_ms timeout_ms 0 h.slots (first_stale h now_ms timeout_ms)
unfolding first_stale
first_stale-Finds h now_ms timeout_ms =
    first_stale_from-Finds h now_ms timeout_ms h.slots 0 h.slots (omega arith)

-- Slot `k` has beaten, and no longer ago than the time limit.
abbrev pub HasBeaten : HeartbeatMonitor → ℕ → ℕ → ℕ → Type 0
HasBeaten h k now_ms timeout_ms =
    (get_or h.seen k false ≡ true) × (sub32 now_ms (get_or h.last k 0) ≤ timeout_ms)

not_stale_iff :
    (h : HeartbeatMonitor) (k now_ms timeout_ms : ℕ)
    → timeout_ms < heartbeat_never
    → k < h.slots
    → (is_stale h k now_ms timeout_ms ≡ false) ↔ HasBeaten h k now_ms timeout_ms
unfolding age_ms
not_stale_iff h k now_ms timeout_ms t b = ground arith

-- After the grace period the health check passes exactly if every supervised slot has beaten within
-- the time limit, for every limit below UINT32_MAX.
pub healthy_iff :
    (h : HeartbeatMonitor) (now_ms timeout_ms start_ms grace_ms : ℕ)
    → IsSized h
    → timeout_ms < heartbeat_never
    → grace_ms ≤ sub32 now_ms start_ms
    → (healthy h now_ms timeout_ms start_ms grace_ms ≡ true)
      ↔ ((k : ℕ) → k < h.slots → HasBeaten h k now_ms timeout_ms)
unfolding healthy
healthy_iff h now_ms timeout_ms start_ms grace_ms s t g = (forth, back)
  where
    found : ℕ
    found = first_stale h now_ms timeout_ms

    forth :
        healthy h now_ms timeout_ms start_ms grace_ms ≡ true
        → (k : ℕ) → k < h.slots
        → HasBeaten h k now_ms timeout_ms
    forth e k b = elim (first_stale-Finds h now_ms timeout_ms) [
      | inl (_, all) ↦ (not_stale_iff h k now_ms timeout_ms t b).0 (all k (omega arith) b)
      | inr (_, hi, _, _) ↦ absurd (ground arith)
    ]

    back :
        ((k : ℕ) → k < h.slots → HasBeaten h k now_ms timeout_ms)
        → healthy h now_ms timeout_ms start_ms grace_ms ≡ true
    back all = elim (first_stale-Finds h now_ms timeout_ms) [
      | inl (e, _) ↦ ground arith
      | inr (_, hi, stale, _) ↦
          let calm = (not_stale_iff h found now_ms timeout_ms t hi).1 (all found hi) in
          absurd (false≢true (sym calm ∙ stale))
    ]
