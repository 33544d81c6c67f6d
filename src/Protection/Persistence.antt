-- ===== src/Protection/Persistence.antt =====
-- The other half of the confirmation timer of `evaluate`, in
-- lib/energy_core/src/protection_core.cpp: nothing trips OVERPOWER before its time.
use mathlib.Core.List.{append-nil, append_assoc}
use mathlib.Core.Path.{subst₂}
use mathlib.Core.Bool.{false≢true}
use esp32_real_time_energy_c.Base.{
  ℕ, ◌≤◌, ◌≡◌, ◌⊎◌, inl, inr, refl, true, false, List, [], ◌∷◌, ◌++◌, All, All-append, ap, arith,
  sym, subst, ◌∙◌,
}
use esp32_real_time_energy_c.Base.Words.{sub32}
use esp32_real_time_energy_c.Base.Float.{Float}
use esp32_real_time_energy_c.Measurement.{Measurement}
use esp32_real_time_energy_c.Protection.{ProtectionCore, begin}
use esp32_real_time_energy_c.Protection.Types.{FaultCode, ProtectionConfig}
use esp32_real_time_energy_c.Protection.Events.{
  Event, samples, ticks, resets, acknowledges, breaks, step, run,
}
use esp32_real_time_energy_c.Protection.Invariant.{
  IsConsistent, begin-IsConsistent, step-IsConsistent, run-IsConsistent,
}
use esp32_real_time_energy_c.Protection.Confirmation.{IsOverload, step-config}

module _ {ℓ} {F : Type ℓ} ⦃fl : Float F⦄ where
  -- Samples of the event list are above the fault threshold; the other calls are any.
  abbrev pub IsOverEvent : ProtectionConfig F → Event F → Type 0
  IsOverEvent config (samples m now_ms) = IsOverload config m now_ms
  IsOverEvent config (ticks now_ms) = Unit
  IsOverEvent config (resets now_ms) = Unit
  IsOverEvent config acknowledges = Unit
  IsOverEvent config (breaks now_ms) = Unit

  -- The history ends with a sample taken at `start_ms` and, from it on, samples above the threshold.
  abbrev pub EndsOver : ProtectionConfig F → List (Event F) → ℕ → Type ℓ
  EndsOver config es start_ms =
      (before : List (Event F)) × (m : Measurement F) × (after : List (Event F)) × (es
        ≡ before ++ (samples m start_ms ∷ after))
      × All (IsOverEvent config) (samples m start_ms ∷ after)

  abbrev TimerBacked : ProtectionCore F → List (Event F) → Type ℓ
  TimerBacked c es = c.timer_active ≡ true → EndsOver c.config es c.timer_start

  sample_timer :
      (c : ProtectionCore F) (m : Measurement F) (now_ms : ℕ)
      → IsConsistent c
      → let d = step c (samples m now_ms) in
        d.timer_active ≡ true
        → ((c.timer_active ≡ true) × (d.timer_start ≡ c.timer_start) × IsOverload c.config m now_ms)
          ⊎ ((d.timer_start ≡ now_ms) × IsOverload c.config m now_ms)
  unfolding step
  sample_timer c m now_ms h t = ground arith

  -- What a running timer says of the last call.
  timer_step :
      (c : ProtectionCore F) (e : Event F)
      → IsConsistent c
      → (step c e).timer_active ≡ true
      → ((c.timer_active ≡ true)
          × ((step c e).timer_start ≡ c.timer_start)
          × IsOverEvent c.config e)
        ⊎ ((m : Measurement F) × (e ≡ samples m (step c e).timer_start)
            × IsOverload c.config m (step c e).timer_start)
  unfolding step
  timer_step c (samples m now_ms) h t = elim (sample_timer c m now_ms h t) [
    | inl kept ↦ inl kept
    | inr (start, over) ↦
        inr (m, ap (λ k. samples m k) (sym start), subst (IsOverload c.config m) (sym start) over)
  ]
  timer_step c (ticks now_ms) h t = inl (ground arith)
  timer_step c (resets now_ms) h t = inl (ground arith)
  timer_step c acknowledges h t = inl (ground arith)
  timer_step c (breaks now_ms) h t = inl (ground arith)

  EndsOver-snoc :
      (config : ProtectionConfig F) (es : List (Event F)) (start_ms : ℕ) (e : Event F)
      → EndsOver config es start_ms
      → IsOverEvent config e
      → EndsOver config (es ++ (e ∷ [])) start_ms
  EndsOver-snoc config es start_ms e (before, m, after, split, over) last = (
    before,
    m,
    after ++ (e ∷ []),
    ap (λ ds. ds ++ (e ∷ [])) split ∙ append_assoc before (samples m start_ms ∷ after) (e ∷ []),
    All-append (IsOverEvent config) (samples m start_ms ∷ after) (e ∷ []) over (last, tt),
  )

  step-TimerBacked :
      (c : ProtectionCore F) (e : Event F) (es : List (Event F))
      → IsConsistent c
      → TimerBacked c es
      → TimerBacked (step c e) (es ++ (e ∷ []))
  step-TimerBacked c e es h b t =
      let config = sym (step-config c e) in
      elim (timer_step c e h t) [
        | inl (running, start, over) ↦
            subst₂ (λ g k. EndsOver g (es ++ (e ∷ [])) k) config (sym start)
              (EndsOver-snoc c.config es c.timer_start e (b running) over)
        | inr (m, is_sample, over) ↦ (
          es,
          m,
          [],
          ap (λ d. es ++ (d ∷ [])) is_sample,
          (subst (λ g. IsOverload g m (step c e).timer_start) config over, tt),
        )
      ]

  run-TimerBacked :
      (c : ProtectionCore F) (es ds : List (Event F))
      → IsConsistent c
      → TimerBacked c es
      → TimerBacked (run c ds) (es ++ ds)
  unfolding run
  run-TimerBacked c es [] h b = rw append-nil b
  run-TimerBacked c es (e ∷ ds) h b = rw (← append_assoc es (e ∷ []) ds) (
      run-TimerBacked (step c e) (es ++ (e ∷ [])) ds (step-IsConsistent c e h)
        (step-TimerBacked c e es h b))

  idle-TimerBacked : (c : ProtectionCore F) (start_ms : ℕ) → TimerBacked (begin c start_ms) []
  unfolding begin
  idle-TimerBacked c start_ms t = absurd (false≢true t)

  -- A trip from a core that is past its first sample.
  trip_timer :
      (c : ProtectionCore F) (m : Measurement F) (now_ms : ℕ)
      → IsConsistent c
      → c.fault.active ≡ false
      → c.awaiting_first_sample ≡ false
      → (step c (samples m now_ms)).fault.active_fault ≡ FaultCode.overpower
      → IsOverload c.config m now_ms
        × (((c.timer_active ≡ true) × (c.fault_confirm_ms ≤ sub32 now_ms c.timer_start))
            ⊎ (c.fault_confirm_ms ≤ sub32 now_ms now_ms))
  unfolding step
  trip_timer c m now_ms h f a o = ground arith

  -- After start-up and any calls, a sample that latches OVERPOWER on a core past its first sample ends
  -- an unbroken row: every sample from some time on was fresh, valid, with mains and above the fault
  -- threshold, and the confirmation time has passed since the first of them.
  pub overpower_persisted :
      (c : ProtectionCore F) (start_ms now_ms : ℕ) (es : List (Event F)) (m : Measurement F)
      → let d = run (begin c start_ms) es in
        d.fault.active ≡ false
        → d.awaiting_first_sample ≡ false
        → (step d (samples m now_ms)).fault.active_fault ≡ FaultCode.overpower
        → (first_ms : ℕ) × EndsOver d.config (es ++ (samples m now_ms ∷ [])) first_ms
          × (d.fault_confirm_ms ≤ sub32 now_ms first_ms)
  overpower_persisted c start_ms now_ms es m f a o =
      let d : ProtectionCore F = run (begin c start_ms) es in
      let (over, timer) = trip_timer d m now_ms (run-IsConsistent c start_ms es) f a o in
      elim timer [
        | inl (running, late) ↦ (
          d.timer_start,
          EndsOver-snoc d.config es d.timer_start (samples m now_ms) (backed running) over,
          late,
        )
        | inr late ↦ (now_ms, (es, m, [], refl, (over, tt)), late)
      ]
    where
      backed : TimerBacked (run (begin c start_ms) es) es
      backed =
          run-TimerBacked (begin c start_ms) [] es (begin-IsConsistent c start_ms)
            (idle-TimerBacked c start_ms)
