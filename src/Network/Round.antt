-- ===== src/Network/Round.antt =====
-- A round of `networkTask` in src/main.cpp.
use mathlib.Core.Option.{Option, none, some}
use esp32_real_time_energy_c.Base.{
  ℕ, Bool, true, false, not, ◌&&◌, List, [], ◌∷◌, ltb, leb, if◌then◌else◌,
}
use esp32_real_time_energy_c.Base.Words.{sub32}
use esp32_real_time_energy_c.Base.Float.{Float}
use esp32_real_time_energy_c.Measurement.{Measurement, empty_measurement}
use esp32_real_time_energy_c.Protection.Types.{
  SystemState, FaultCode, ProtectionSnapshot, same_state, same_fault,
}
use esp32_real_time_energy_c.Network.{
  reads_clock, reads_time, wifi_status, wifi_begin, config_time, blynk_connected, blynk_connect,
  blynk_run, blynk_write, mqtt_connected, World, NetworkSetup, Network, Shared, made, answered,
}
use esp32_real_time_energy_c.Network.Mqtt.{
  mqtt_manager_set_time_synchronized, mqtt_manager_connect, mqtt_manager_loop,
  mqtt_manager_publish_state, mqtt_manager_publish_fault, mqtt_manager_publish_telemetry,
}

-- `now - last >= interval`
abbrev pub is_due : ℕ → ℕ → ℕ → Bool
is_due interval_ms now_ms last_ms = leb interval_ms (sub32 now_ms last_ms)

-- `isNtpTimeValid`, of what `time` returns
abbrev is_ntp_time_valid : ℕ → Bool
is_ntp_time_valid now = ltb 1_700_000_000 now

-- The start of `setup` and of the task: every attempt is due at once.
unfoldable pub initial_network {ℓ} : {F : Type ℓ} → NetworkSetup → ℕ → Network F
initial_network setup start_ms = record {
  wifi_connected = false;
  blynk_connected = false;
  time_synchronized = false;
  mqtt_time_synchronized = false;
  mqtt_was_connected = false;
  last_wifi_attempt = sub32 start_ms setup.wifi_reconnect_interval_ms;
  last_blynk_attempt = sub32 start_ms setup.blynk_reconnect_interval_ms;
  last_mqtt_attempt = sub32 start_ms setup.mqtt_reconnect_interval_ms;
  last_telemetry = 0;
  last_ntp_check = 0;
  subscribed_at_ms = 0;
  published_state = SystemState.init;
  published_fault = FaultCode.none;
  calls = [];
}

module _ {ℓ} {F : Type ℓ} (world : World F) (setup : NetworkSetup) where
  open setup use {
    wifi_reconnect_interval_ms, ntp_check_interval_ms, blynk_reconnect_interval_ms,
    mqtt_reconnect_interval_ms,
  }

  unfoldable pub wifi_lost : Network F → Network F
  wifi_lost net =
      if net.wifi_connected
      then (let down = record net {
        wifi_connected = false;
        blynk_connected = false;
        time_synchronized = false;
      } in
          record (mqtt_manager_set_time_synchronized false down) { mqtt_was_connected = false })
      else net

  unfoldable pub wifi_retry : ℕ → Network F → Network F
  wifi_retry now_ms net =
      if is_due wifi_reconnect_interval_ms now_ms net.last_wifi_attempt
      then made wifi_begin (record net { last_wifi_attempt = now_ms })
      else net

  unfoldable pub wifi_found : Network F → Network F
  wifi_found net =
      if not net.wifi_connected
      then made config_time (record net { wifi_connected = true; time_synchronized = false })
      else net

  unfoldable pub ntp_check : ℕ → Network F → Network F
  ntp_check now_ms net =
      let asked = made reads_time net in
      if not net.time_synchronized && is_due ntp_check_interval_ms now_ms net.last_ntp_check
      then (let valid = is_ntp_time_valid (world.time asked.calls) in
          mqtt_manager_set_time_synchronized valid
            (record asked { last_ntp_check = now_ms; time_synchronized = valid }))
      else mqtt_manager_set_time_synchronized net.time_synchronized net

  unfoldable pub blynk_round : ℕ → Network F → Network F
  blynk_round now_ms net =
      let asked = made blynk_connected net in
      let lost = record asked { blynk_connected = false } in
      let tried = made blynk_connect (record lost { last_blynk_attempt = now_ms }) in
      if not (answered world asked)
      then if is_due blynk_reconnect_interval_ms now_ms lost.last_blynk_attempt
        then if answered world tried then record tried { blynk_connected = true } else tried
        else lost
      else made blynk_run (record asked { blynk_connected = true })

  unfoldable pub mqtt_round : ℕ → Network F → Network F
  unfolding mqtt_manager_connect mqtt_manager_loop
  mqtt_round now_ms net =
      let asked = made mqtt_connected net in
      if not (answered world asked)
      then if asked.time_synchronized
          && is_due mqtt_reconnect_interval_ms now_ms asked.last_mqtt_attempt
        then (mqtt_manager_connect world setup (record asked { last_mqtt_attempt = now_ms })).0
        else asked
      else mqtt_manager_loop world setup asked

  -- the first `if` of the publication of changes
  unfoldable pub publish_on_connection : Bool → ProtectionSnapshot → Network F → Network F
  unfolding mqtt_manager_publish_state mqtt_manager_publish_fault
  publish_on_connection now_connected p net =
      if now_connected && not net.mqtt_was_connected
      then (let sent =
            (mqtt_manager_publish_fault world setup p
              (mqtt_manager_publish_state world setup p.state net).0).0 in
          record sent { published_state = p.state; published_fault = p.fault.active_fault })
      else net

  unfoldable pub publish_changed_state : Bool → ProtectionSnapshot → Network F → Network F
  unfolding mqtt_manager_publish_state
  publish_changed_state now_connected p net =
      let (sent, ok) = mqtt_manager_publish_state world setup p.state net in
      if now_connected && not (same_state p.state net.published_state)
      then if ok then record sent { published_state = p.state } else sent
      else net

  unfoldable pub publish_changed_fault : Bool → ProtectionSnapshot → Network F → Network F
  unfolding mqtt_manager_publish_fault
  publish_changed_fault now_connected p net =
      let (sent, ok) = mqtt_manager_publish_fault world setup p net in
      if now_connected && not (same_fault p.fault.active_fault net.published_fault)
      then if ok then record sent { published_fault = p.fault.active_fault } else sent
      else net

  unfoldable pub publication : ProtectionSnapshot → Network F → Network F
  unfolding publish_on_connection publish_changed_state publish_changed_fault
  publication p net =
      let asked = made mqtt_connected net in
      let up = answered world asked in
      publish_changed_fault up p (publish_changed_state up p (publish_on_connection up p asked))

  unfoldable pub blynk_values : Measurement F → Network F → Network F
  blynk_values m net =
      if net.blynk_connected && m.valid
      then made (blynk_write 5 m.power_factor) (
          made (blynk_write 4 m.apparent_power) (
            made (blynk_write 3 m.energy) (
              made (blynk_write 2 m.power)
                (made (blynk_write 1 m.current) (made (blynk_write 0 m.voltage) net)))))
      else net

module _ {ℓ} {F : Type ℓ} ⦃fl : Float F⦄ (world : World F) (setup : NetworkSetup) where
  -- `copyLatestMeasurement` into a new `Measurement`
  abbrev pub copied_measurement : Option (Measurement F) → Measurement F
  copied_measurement none = empty_measurement
  copied_measurement (some m) = m

  unfoldable pub telemetry_round : ℕ → Shared F → Network F → Network F
  unfolding blynk_values mqtt_manager_publish_telemetry
  telemetry_round now_ms shared net =
      let m = copied_measurement shared.latest in
      let written = blynk_values world setup m (record net { last_telemetry = now_ms }) in
      let asked = made mqtt_connected written in
      if is_due setup.telemetry_period_ms now_ms net.last_telemetry
      then if answered world asked
        then (mqtt_manager_publish_telemetry world setup m shared.protection
            shared.relay_commanded_on shared.relay_output_enabled asked).0
        else asked
      else net

  -- the branch of a round with Wi-Fi
  unfoldable pub online_round : ℕ → Shared F → Network F → Network F
  unfolding wifi_found ntp_check blynk_round mqtt_round publication telemetry_round
  online_round now_ms shared net = telemetry_round now_ms shared (
      publication world setup shared.protection (
        mqtt_round world setup now_ms (
          blynk_round world setup now_ms
            (ntp_check world setup now_ms (wifi_found world setup net)))))

  unfoldable pub network_round : Shared F → Network F → Network F
  unfolding online_round wifi_lost wifi_retry
  network_round shared net =
      let timed = made reads_clock net in
      let now_ms = world.clock timed.calls in
      let asked = made wifi_status timed in
      if not (answered world asked)
      then wifi_retry world setup now_ms (wifi_lost world setup asked)
      else online_round now_ms shared asked

  unfoldable pub network_rounds : List (Shared F) → Network F → Network F
  unfolding network_round
  network_rounds [] net = net
  network_rounds (shared ∷ rest) net = network_rounds rest (network_round shared net)
