-- ===== src/Heartbeat.antt =====
-- lib/energy_core/src/heartbeat_monitor.h and heartbeat_monitor.cpp: one time stamp for each task.
pub mod Health
mod Tests
use esp32_real_time_energy_c.Base.{
  ℕ, zero, suc, ◌+◌, ◌-◌, ◌^◌, Bool, true, false, not, ◌&&◌, ◌||◌, List, [], ◌∷◌, ltb, leb, ◌==◌,
  if◌then◌else◌, get_or, set, replicate,
}
use esp32_real_time_energy_c.Base.Words.{word, sub32}

-- UINT32_MAX
abbrev pub heartbeat_never : ℕ
heartbeat_never = word - 1

abbrev pub heartbeat_max_slots : ℕ
heartbeat_max_slots = 8

-- `static_cast<size_t>(-1)`, on a 32-bit target
abbrev pub no_slot : ℕ
no_slot = word - 1

-- `last` and `seen` are the arrays of the class, of `heartbeat_max_slots` elements.
pub record HeartbeatMonitor : Type 0 where
  pub slots : ℕ
  pub last : List ℕ
  pub seen : List Bool

unfoldable pub new_monitor : ℕ → HeartbeatMonitor
new_monitor slots = record {
  slots = if ltb heartbeat_max_slots slots then heartbeat_max_slots else slots;
  last = replicate heartbeat_max_slots 0;
  seen = replicate heartbeat_max_slots false;
}

unfoldable pub beat : HeartbeatMonitor → ℕ → ℕ → HeartbeatMonitor
beat h slot now_ms =
    if leb h.slots slot
    then h
    else record h { last = set h.last slot now_ms; seen = set h.seen slot true }

unfoldable pub age_ms : HeartbeatMonitor → ℕ → ℕ → ℕ
age_ms h slot now_ms =
    if leb h.slots slot || not (get_or h.seen slot false)
    then heartbeat_never
    else sub32 now_ms (get_or h.last slot 0)

-- the test of the loop of `firstStale`
abbrev pub is_stale : HeartbeatMonitor → ℕ → ℕ → ℕ → Bool
is_stale h slot now_ms timeout_ms =
    age_ms h slot now_ms == heartbeat_never || ltb timeout_ms (age_ms h slot now_ms)

-- The loop of `firstStale` from slot `i`, with `left` rounds to go.
unfoldable pub first_stale_from : HeartbeatMonitor → ℕ → ℕ → ℕ → ℕ → ℕ
first_stale_from h now_ms timeout_ms zero i = no_slot
first_stale_from h now_ms timeout_ms (suc left) i =
    let rest = first_stale_from h now_ms timeout_ms left (i + 1) in
    if is_stale h i now_ms timeout_ms then i else rest

unfoldable pub first_stale : HeartbeatMonitor → ℕ → ℕ → ℕ
unfolding first_stale_from
first_stale h now_ms timeout_ms = first_stale_from h now_ms timeout_ms h.slots 0

unfoldable pub healthy : HeartbeatMonitor → ℕ → ℕ → ℕ → ℕ → Bool
healthy h now_ms timeout_ms start_ms grace_ms =
    if ltb (sub32 now_ms start_ms) grace_ms
    then true
    else first_stale h now_ms timeout_ms == no_slot
