-- ===== src/Network/Attempts.antt =====
-- The attempts of `networkTask` in src/main.cpp to connect, and the parts of a round without any.
use mathlib.Core.Option.{Option, none, some}
use esp32_real_time_energy_c.Base.{ℕ, ◌+◌, ◌≡◌, refl, Bool, true, List, [], ◌∷◌, arith}
use esp32_real_time_energy_c.Base.Float.{Float}
use esp32_real_time_energy_c.Measurement.{Measurement}
use esp32_real_time_energy_c.Protection.Types.{ProtectionSnapshot}
use esp32_real_time_energy_c.Telemetry.{build_telemetry_json}
use esp32_real_time_energy_c.Network.{
  LibraryCall, reads_clock, wifi_begin, blynk_connect, mqtt_connected, mqtt_connect, World,
  NetworkSetup, Network, Shared, made, answered,
}
use esp32_real_time_energy_c.Network.Mqtt.{
  send_telemetry, telemetry_input, mqtt_manager_publish_telemetry,
}
use esp32_real_time_energy_c.Network.Round.{
  wifi_lost, publish_on_connection, publish_changed_state, publish_changed_fault, publication,
  blynk_values, telemetry_round, copied_measurement,
}

-- The three connections.
pub data Link : Type 0 where
  wifi blynk mqtt : Link

abbrev pub interval_ms : NetworkSetup → Link → ℕ
interval_ms setup wifi = setup.wifi_reconnect_interval_ms
interval_ms setup blynk = setup.blynk_reconnect_interval_ms
interval_ms setup mqtt = setup.mqtt_reconnect_interval_ms

module _ {ℓ} {F : Type ℓ} where
  abbrev pub last_attempt : Link → Network F → ℕ
  last_attempt wifi net = net.last_wifi_attempt
  last_attempt blynk net = net.last_blynk_attempt
  last_attempt mqtt net = net.last_mqtt_attempt

  abbrev pub is_attempt : Link → LibraryCall F → ℕ
  is_attempt wifi wifi_begin = 1
  is_attempt blynk blynk_connect = 1
  is_attempt mqtt (mqtt_connect arguments) = 1
  is_attempt _ _ = 0

  -- the number of attempts among the calls
  abbrev pub attempts : Link → List (LibraryCall F) → ℕ
  attempts link [] = 0
  attempts link (call ∷ calls) = is_attempt link call + attempts link calls

  -- No attempt was made.
  abbrev pub Rests : Link → Network F → Network F → Type 0
  Rests link a b =
      (attempts link b.calls ≡ attempts link a.calls)
      × (last_attempt link b ≡ last_attempt link a)
      × (a.time_synchronized ≡ true → b.time_synchronized ≡ true)

  Rests-then : (link : Link) (a b c : Network F) → Rests link a b → Rests link b c → Rests link a c
  Rests-then link a b c h k = ground (arith, h, k)

  asking-Rests : (link : Link) (net : Network F) → Rests link net (made mqtt_connected net)
  asking-Rests wifi net = ground arith
  asking-Rests blynk net = ground arith
  asking-Rests mqtt net = ground arith

  clock-Rests : (link : Link) (net : Network F) → Rests link net (made reads_clock net)
  clock-Rests wifi net = ground arith
  clock-Rests blynk net = ground arith
  clock-Rests mqtt net = ground arith

  stamp-Rests :
      (link : Link) (now_ms : ℕ) (net : Network F)
      → Rests link net (record net { last_telemetry = now_ms })
  stamp-Rests wifi now_ms net = ground arith
  stamp-Rests blynk now_ms net = ground arith
  stamp-Rests mqtt now_ms net = ground arith

  -- An attempt on MQTT wants the time to be known.
  abbrev pub Allowed : Link → Network F → Type 0
  Allowed mqtt net = net.time_synchronized ≡ true
  Allowed _ net = Unit

module _ {ℓ} {F : Type ℓ} (world : World F) (setup : NetworkSetup) where
  pub wifi_lost-rests :
      (link : Link) (net : Network F)
      → let b = wifi_lost world setup net in
        (attempts link b.calls ≡ attempts link net.calls)
        × (last_attempt link b ≡ last_attempt link net)
  unfolding wifi_lost
  wifi_lost-rests wifi net = ground arith
  wifi_lost-rests blynk net = ground arith
  wifi_lost-rests mqtt net = ground arith

  publish_on_connection-Rests :
      (link : Link) (up : Bool) (p : ProtectionSnapshot) (net : Network F)
      → Rests link net (publish_on_connection world setup up p net)
  unfolding publish_on_connection
  publish_on_connection-Rests wifi up p net = ground arith
  publish_on_connection-Rests blynk up p net = ground arith
  publish_on_connection-Rests mqtt up p net = ground arith

  publish_changed_state-Rests :
      (link : Link) (up : Bool) (p : ProtectionSnapshot) (net : Network F)
      → Rests link net (publish_changed_state world setup up p net)
  unfolding publish_changed_state
  publish_changed_state-Rests wifi up p net = ground arith
  publish_changed_state-Rests blynk up p net = ground arith
  publish_changed_state-Rests mqtt up p net = ground arith

  publish_changed_fault-Rests :
      (link : Link) (up : Bool) (p : ProtectionSnapshot) (net : Network F)
      → Rests link net (publish_changed_fault world setup up p net)
  unfolding publish_changed_fault
  publish_changed_fault-Rests wifi up p net = ground arith
  publish_changed_fault-Rests blynk up p net = ground arith
  publish_changed_fault-Rests mqtt up p net = ground arith

  pub publication-Rests :
      (link : Link) (p : ProtectionSnapshot) (net : Network F)
      → Rests link net (publication world setup p net)
  unfolding publication
  publication-Rests link p net =
      let asked = made mqtt_connected net in
      let up = answered world asked in
      let first = publish_on_connection world setup up p asked in
      let second = publish_changed_state world setup up p first in
      let asking = asking-Rests link net in
      Rests-then link net first (publish_changed_fault world setup up p second)
        (Rests-then link net asked first asking (publish_on_connection-Rests link up p asked))
        (Rests-then link first second (publish_changed_fault world setup up p second)
          (publish_changed_state-Rests link up p first)
          (publish_changed_fault-Rests link up p second))

  blynk_values-Rests :
      (link : Link) (m : Measurement F) (net : Network F)
      → Rests link net (blynk_values world setup m net)
  unfolding blynk_values
  blynk_values-Rests wifi m net = ground arith
  blynk_values-Rests blynk m net = ground arith
  blynk_values-Rests mqtt m net = ground arith

module _ {ℓ} {F : Type ℓ} ⦃fl : Float F⦄ (world : World F) (setup : NetworkSetup) where
  send-Rests :
      (link : Link) (built : Option ℕ × List ℕ) (net : Network F)
      → Rests link net (send_telemetry world setup built net).0
  send-Rests link (none, payload) net = (refl, refl, λ h. h)
  send-Rests wifi (some size, payload) net = ground arith
  send-Rests blynk (some size, payload) net = ground arith
  send-Rests mqtt (some size, payload) net = ground arith

  publish_telemetry-Rests :
      (link : Link) (m : Measurement F) (p : ProtectionSnapshot) (commanded enabled : Bool)
      (net : Network F)
      → Rests link net (mqtt_manager_publish_telemetry world setup m p commanded enabled net).0
  unfolding mqtt_manager_publish_telemetry
  publish_telemetry-Rests link m p commanded enabled net =
      let asked = made mqtt_connected net in
      let timed = made reads_clock asked in
      let input = telemetry_input world setup m p commanded enabled (world.clock timed.calls) in
      ground (
        arith,
        asking-Rests link net,
        clock-Rests link asked,
        send-Rests link (build_telemetry_json 768 input) timed,
      )

  pub telemetry-Rests :
      (link : Link) (now_ms : ℕ) (shared : Shared F) (net : Network F)
      → Rests link net (telemetry_round world setup now_ms shared net)
  unfolding telemetry_round
  telemetry-Rests link now_ms shared net =
      let m = copied_measurement world setup shared.latest in
      let timed = record net { last_telemetry = now_ms } in
      let written = blynk_values world setup m timed in
      ground (
        arith,
        stamp-Rests link now_ms net,
        blynk_values-Rests world setup link m timed,
        asking-Rests link written,
        publish_telemetry-Rests link m shared.protection shared.relay_commanded_on
            shared.relay_output_enabled (made mqtt_connected written),
      )
