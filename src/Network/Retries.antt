-- ===== src/Network/Retries.antt =====
-- How often `networkTask` of src/main.cpp tries to connect.
use esp32_real_time_energy_c.Base.{
  ℕ, suc, ◌≤◌, ◌≡◌, ◌≢◌, ◌⊎◌, inl, inr, refl, ◌∷◌, arith, Bool-cases,
}
use esp32_real_time_energy_c.Base.Words.{sub32}
use esp32_real_time_energy_c.Base.Float.{Float}
use esp32_real_time_energy_c.Network.{
  reads_clock, wifi_status, World, NetworkSetup, Network, Shared, made, answered,
}
use esp32_real_time_energy_c.Network.Mqtt.{subscribe_commands}
use esp32_real_time_energy_c.Network.Round.{
  wifi_lost, wifi_retry, wifi_found, ntp_check, blynk_round, mqtt_round, publication,
  telemetry_round, online_round, network_round,
}
use esp32_real_time_energy_c.Network.Attempts.{
  Link, wifi, blynk, mqtt, interval_ms, last_attempt, attempts, Rests, Allowed, wifi_lost-rests,
  publication-Rests, telemetry-Rests,
}

module _ {ℓ} {F : Type ℓ} (world : World F) (setup : NetworkSetup) where
  -- What a round may do about a link at its time: nothing, or stamp it when the interval is over, and
  -- then try once.
  abbrev pub Retries : Link → ℕ → Network F → Network F → Type 0
  Retries link now_ms a b =
      ((attempts link b.calls ≡ attempts link a.calls)
        × (last_attempt link b ≡ last_attempt link a))
      ⊎ ((interval_ms setup link ≤ sub32 now_ms (last_attempt link a))
          × (last_attempt link b ≡ now_ms)
          × ((attempts link b.calls ≡ attempts link a.calls)
              ⊎ ((attempts link b.calls ≡ suc (attempts link a.calls)) × Allowed link b)))

  -- No attempt, and no stamp.
  abbrev Idles : Link → Network F → Network F → Type 0
  Idles link a b =
      (attempts link b.calls ≡ attempts link a.calls) × (last_attempt link b ≡ last_attempt link a)

  Idles-then :
      (link : Link) (now_ms : ℕ) (a b c : Network F)
      → Idles link a b
      → Retries link now_ms b c
      → Retries link now_ms a c
  Idles-then link now_ms a b c h k = ground (arith, h, k)

  then-Rests :
      (link : Link) (now_ms : ℕ) (a b c : Network F)
      → Retries link now_ms a b
      → Rests link b c
      → Retries link now_ms a c
  then-Rests wifi now_ms a b c h k = ground (arith, h, k)
  then-Rests blynk now_ms a b c h k = ground (arith, h, k)
  then-Rests mqtt now_ms a b c h k = ground (arith, h, k)

  blynk_then-Idles :
      (now_ms : ℕ) (a b c : Network F)
      → Retries blynk now_ms a b
      → Idles blynk b c
      → Retries blynk now_ms a c
  blynk_then-Idles now_ms a b c h k = ground (arith, h, k)

  wifi_retry-Retries :
      (link : Link) (now_ms : ℕ) (net : Network F)
      → Retries link now_ms net (wifi_retry world setup now_ms net)
  unfolding wifi_retry
  wifi_retry-Retries wifi now_ms net = ground arith
  wifi_retry-Retries blynk now_ms net = ground arith
  wifi_retry-Retries mqtt now_ms net = ground arith

  before-retries :
      (link : Link) (now_ms : ℕ) (net : Network F)
      → let found = wifi_found world setup net in
        let checked = ntp_check world setup now_ms found in
        (attempts link checked.calls ≡ attempts link net.calls)
        × (last_attempt link checked ≡ last_attempt link net)
  unfolding wifi_found ntp_check
  before-retries wifi now_ms net = ground arith
  before-retries blynk now_ms net = ground arith
  before-retries mqtt now_ms net = ground arith

  blynk_round-Retries :
      (link : Link) (now_ms : ℕ) (net : Network F)
      → Retries link now_ms net (blynk_round world setup now_ms net)
  unfolding blynk_round
  blynk_round-Retries wifi now_ms net = ground arith
  blynk_round-Retries blynk now_ms net = ground arith
  blynk_round-Retries mqtt now_ms net = ground arith

  mqtt_round-Retries :
      (link : Link) (now_ms : ℕ) (net : Network F)
      → Retries link now_ms net (mqtt_round world setup now_ms net)
  unfolding mqtt_round subscribe_commands
  mqtt_round-Retries wifi now_ms net = ground arith
  mqtt_round-Retries blynk now_ms net = ground arith
  mqtt_round-Retries mqtt now_ms net = ground arith

  blynk_round-other :
      (link : Link) (now_ms : ℕ) (net : Network F)
      → link ≢ blynk
      → let b = blynk_round world setup now_ms net in
        (attempts link b.calls ≡ attempts link net.calls)
        × (last_attempt link b ≡ last_attempt link net)
  unfolding blynk_round
  blynk_round-other wifi now_ms net d = ground arith
  blynk_round-other blynk now_ms net d = absurd (d refl)
  blynk_round-other mqtt now_ms net d = ground arith

  mqtt_round-other :
      (link : Link) (now_ms : ℕ) (net : Network F)
      → link ≢ mqtt
      → let b = mqtt_round world setup now_ms net in
        (attempts link b.calls ≡ attempts link net.calls)
        × (last_attempt link b ≡ last_attempt link net)
  unfolding mqtt_round subscribe_commands
  mqtt_round-other wifi now_ms net d = ground arith
  mqtt_round-other blynk now_ms net d = ground arith
  mqtt_round-other mqtt now_ms net d = absurd (d refl)

  links-Retries :
      (link : Link) (now_ms : ℕ) (net : Network F)
      → Retries link now_ms net (mqtt_round world setup now_ms (blynk_round world setup now_ms net))
  links-Retries wifi now_ms net =
      let b = blynk_round world setup now_ms net in
      Idles-then wifi now_ms net b (mqtt_round world setup now_ms b)
        (blynk_round-other wifi now_ms net (λ e. cc)) (mqtt_round-Retries wifi now_ms b)
  links-Retries blynk now_ms net =
      let b = blynk_round world setup now_ms net in
      blynk_then-Idles now_ms net b (mqtt_round world setup now_ms b)
        (blynk_round-Retries blynk now_ms net) (mqtt_round-other blynk now_ms b (λ e. cc))
  links-Retries mqtt now_ms net =
      let b = blynk_round world setup now_ms net in
      Idles-then mqtt now_ms net b (mqtt_round world setup now_ms b)
        (blynk_round-other mqtt now_ms net (λ e. cc)) (mqtt_round-Retries mqtt now_ms b)

module _ {ℓ} {F : Type ℓ} ⦃fl : Float F⦄ (world : World F) (setup : NetworkSetup) where
  asked-Idles :
      (link : Link) (net : Network F)
      → Idles world setup link net (made wifi_status (made reads_clock net))
  asked-Idles wifi net = ground arith
  asked-Idles blynk net = ground arith
  asked-Idles mqtt net = ground arith

  online-Retries :
      (link : Link) (now_ms : ℕ) (shared : Shared F) (net : Network F)
      → Retries world setup link now_ms net (online_round world setup now_ms shared net)
  unfolding online_round
  online-Retries link now_ms shared net =
      let checked = ntp_check world setup now_ms (wifi_found world setup net) in
      let linked = mqtt_round world setup now_ms (blynk_round world setup now_ms checked) in
      let told = publication world setup shared.protection linked in
      then-Rests world setup link now_ms net told (telemetry_round world setup now_ms shared told)
        (then-Rests world setup link now_ms net linked told
          (Idles-then world setup link now_ms net checked linked
            (before-retries world setup link now_ms net)
            (links-Retries world setup link now_ms checked))
          (publication-Rests world setup link shared.protection linked))
        (telemetry-Rests world setup link now_ms shared told)

  lost-Retries :
      (link : Link) (now_ms : ℕ) (net : Network F)
      → Retries world setup link now_ms net
          (wifi_retry world setup now_ms (wifi_lost world setup net))
  lost-Retries link now_ms net =
      let lost = wifi_lost world setup net in
      Idles-then world setup link now_ms net lost (wifi_retry world setup now_ms lost)
        (wifi_lost-rests world setup link net) (wifi_retry-Retries world setup link now_ms lost)

  -- In a round of NetworkTask, from any state and whatever the libraries answer, each of the three
  -- connections is tried at most once, and only if its interval has passed since its time stamp, which
  -- then gets the time of the round; the time stamp changes in no other way; and MQTT is tried only if
  -- the time is synchronised.
  pub network_round-Retries :
      (link : Link) (shared : Shared F) (net : Network F)
      → Retries world setup link
          (world.clock (reads_clock ∷ net.calls))
          net
          (network_round world setup shared net)
  unfolding network_round
  network_round-Retries link shared net =
      let timed = made reads_clock net in
      let now_ms = world.clock timed.calls in
      let asked = made wifi_status timed in
      Idles-then world setup link now_ms net asked (network_round world setup shared net)
        (asked-Idles link net)
        (elim (Bool-cases (answered world asked)) [
          | inl up ↦ rw up (online-Retries link now_ms shared asked)
          | inr down ↦ rw down (lost-Retries link now_ms asked)
        ])
