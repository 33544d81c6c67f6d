-- ===== src/Network/Messages.antt =====
-- What the firmware says to the broker, in src/mqtt_manager.cpp, over any rounds of `networkTask`.
use esp32_real_time_energy_c.Base.{
  refl, ◌≡◌, All, ℕ, inl, inr, Bool, true, List, [], ◌∷◌, arith, Bool-cases,
}
use esp32_real_time_energy_c.Base.Float.{Float}
use esp32_real_time_energy_c.Measurement.{Measurement}
use esp32_real_time_energy_c.Protection.Types.{
  ProtectionSnapshot, system_state_name, fault_code_name,
}
use esp32_real_time_energy_c.Command.{mqtt_topic_state, mqtt_topic_fault}
use esp32_real_time_energy_c.Telemetry.{TelemetryInput, build_telemetry_json}
use esp32_real_time_energy_c.Telemetry.Object.{build_telemetry_json_lem}
use esp32_real_time_energy_c.Network.{
  reads_clock, wifi_status, mqtt_connected, World, NetworkSetup, Network, Shared, made, answered,
}
use esp32_real_time_energy_c.Network.Mqtt.{
  mqtt_manager_publish_state, mqtt_manager_publish_fault, send_telemetry, telemetry_input,
  mqtt_manager_publish_telemetry,
}
use esp32_real_time_energy_c.Network.Protocol.{
  IsMessage, is_telemetry, is_state, is_fault, AllProper,
}
use esp32_real_time_energy_c.Network.Round.{
  wifi_lost, wifi_found, ntp_check, blynk_round, mqtt_round, publish_on_connection,
  publish_changed_state, publish_changed_fault, publication, blynk_values, telemetry_round,
  online_round, network_round, network_rounds, copied_measurement, initial_network,
}
use esp32_real_time_energy_c.Network.Links.{
  wifi_lost-AllProper, wifi_retry-AllProper, wifi_found-AllProper, ntp_check-AllProper,
  blynk_round-AllProper, mqtt_round-AllProper,
}

module _ {ℓ} {F : Type ℓ} ⦃fl : Float F⦄ (world : World F) (setup : NetworkSetup)
    (Told : ProtectionSnapshot → Type ℓ) (Copied : Measurement F → Type ℓ) where
  open setup use {device_id, chip_id}

  -- What the other tasks tell of themselves in a round is told truly.
  abbrev pub IsTold : Shared F → Type ℓ
  IsTold shared = Told shared.protection × Copied (copied_measurement world setup shared.latest)

  publish_state-AllProper :
      (p : ProtectionSnapshot) (net : Network F)
      → Told p
      → AllProper Told Copied setup net
      → AllProper Told Copied setup (mqtt_manager_publish_state world setup p.state net).0
  unfolding mqtt_manager_publish_state
  publish_state-AllProper p net t h =
      let message : IsMessage F Told Copied device_id (mqtt_topic_state device_id)
          (system_state_name p.state) true =
        is_state p t in
      ground (arith, h, message)

  publish_fault-AllProper :
      (p : ProtectionSnapshot) (net : Network F)
      → Told p
      → AllProper Told Copied setup net
      → AllProper Told Copied setup (mqtt_manager_publish_fault world setup p net).0
  unfolding mqtt_manager_publish_fault
  publish_fault-AllProper p net t h =
      let message : IsMessage F Told Copied device_id (mqtt_topic_fault device_id)
          (fault_code_name p.fault.active_fault) true =
        is_fault p t in
      ground (arith, h, message)

  on_connection-AllProper :
      (up : Bool) (p : ProtectionSnapshot) (net : Network F)
      → Told p
      → AllProper Told Copied setup net
      → AllProper Told Copied setup (publish_on_connection world setup up p net)
  unfolding publish_on_connection
  on_connection-AllProper up p net t h =
      let first = publish_state-AllProper p net t h in
      let sent = (mqtt_manager_publish_state world setup p.state net).0 in
      ground (arith, h, publish_fault-AllProper p sent t first)

  changed_state-AllProper :
      (up : Bool) (p : ProtectionSnapshot) (net : Network F)
      → Told p
      → AllProper Told Copied setup net
      → AllProper Told Copied setup (publish_changed_state world setup up p net)
  unfolding publish_changed_state
  changed_state-AllProper up p net t h = ground (arith, h, publish_state-AllProper p net t h)

  changed_fault-AllProper :
      (up : Bool) (p : ProtectionSnapshot) (net : Network F)
      → Told p
      → AllProper Told Copied setup net
      → AllProper Told Copied setup (publish_changed_fault world setup up p net)
  unfolding publish_changed_fault
  changed_fault-AllProper up p net t h = ground (arith, h, publish_fault-AllProper p net t h)

  publication-AllProper :
      (p : ProtectionSnapshot) (net : Network F)
      → Told p
      → AllProper Told Copied setup net
      → AllProper Told Copied setup (publication world setup p net)
  unfolding publication
  publication-AllProper p net t h =
      let asked = made mqtt_connected net in
      let up = answered world asked in
      let first = publish_on_connection world setup up p asked in
      let second = publish_changed_state world setup up p first in
      changed_fault-AllProper up p second t
        (changed_state-AllProper up p first t (on_connection-AllProper up p asked t (tt, h)))

  send-AllProper :
      (input : TelemetryInput F) (net : Network F)
      → Told input.protection
      → Copied input.measurement
      → input.device_id ≡ device_id
      → AllProper Told Copied setup net
      → AllProper Told Copied setup
          (send_telemetry world setup (build_telemetry_json 768 input) net).0
  send-AllProper input net t c d h = elim (build_telemetry_json_lem 768 input) [
    | inl (fits, built) ↦ rw built (is_telemetry input t c d fits, h)
    | inr (_, built) ↦ rw built h
  ]

  publish_telemetry-AllProper :
      (m : Measurement F) (p : ProtectionSnapshot) (commanded enabled : Bool) (net : Network F)
      → Told p
      → Copied m
      → AllProper Told Copied setup net
      → AllProper Told Copied setup
          (mqtt_manager_publish_telemetry world setup m p commanded enabled net).0
  unfolding mqtt_manager_publish_telemetry
  publish_telemetry-AllProper m p commanded enabled net t c h =
      let timed = made reads_clock (made mqtt_connected net) in
      let input = telemetry_input world setup m p commanded enabled (world.clock timed.calls) in
      ground (arith, h, send-AllProper input timed t c refl (tt, (tt, h)))

  blynk_values-AllProper :
      (m : Measurement F) (net : Network F)
      → AllProper Told Copied setup net
      → AllProper Told Copied setup (blynk_values world setup m net)
  unfolding blynk_values
  blynk_values-AllProper m net h = ground (arith, h)

  telemetry-AllProper :
      (now_ms : ℕ) (shared : Shared F) (net : Network F)
      → IsTold shared
      → AllProper Told Copied setup net
      → AllProper Told Copied setup (telemetry_round world setup now_ms shared net)
  unfolding telemetry_round
  telemetry-AllProper now_ms shared net (t, c) h =
      let m = copied_measurement world setup shared.latest in
      let timed = record net { last_telemetry = now_ms } in
      let written = blynk_values world setup m timed in
      let kept = blynk_values-AllProper m timed h in
      ground (
        arith,
        h,
        kept,
        publish_telemetry-AllProper m shared.protection shared.relay_commanded_on
            shared.relay_output_enabled (made mqtt_connected written) t c (tt, kept),
      )

  online-AllProper :
      (now_ms : ℕ) (shared : Shared F) (net : Network F)
      → IsTold shared
      → AllProper Told Copied setup net
      → AllProper Told Copied setup (online_round world setup now_ms shared net)
  unfolding online_round
  online-AllProper now_ms shared net i h =
      let found = wifi_found world setup net in
      let checked = ntp_check world setup now_ms found in
      let blynk = blynk_round world setup now_ms checked in
      let mqtt = mqtt_round world setup now_ms blynk in
      telemetry-AllProper now_ms shared (publication world setup shared.protection mqtt) i (
        publication-AllProper shared.protection mqtt i.0 (
          mqtt_round-AllProper world setup Told Copied now_ms blynk (
            blynk_round-AllProper world setup Told Copied now_ms checked (
              ntp_check-AllProper world setup Told Copied now_ms found
                (wifi_found-AllProper world setup Told Copied net h)))))

  pub round-AllProper :
      (shared : Shared F) (net : Network F)
      → IsTold shared
      → AllProper Told Copied setup net
      → AllProper Told Copied setup (network_round world setup shared net)
  unfolding network_round
  round-AllProper shared net i h =
      let timed = made reads_clock net in
      let now_ms = world.clock timed.calls in
      let asked = made wifi_status timed in
      elim (Bool-cases (answered world asked)) [
        | inl up ↦ rw up (online-AllProper now_ms shared asked i (tt, (tt, h)))
        | inr down ↦ rw down (
            wifi_retry-AllProper world setup Told Copied now_ms (wifi_lost world setup asked)
              (wifi_lost-AllProper world setup Told Copied asked (tt, (tt, h))))
      ]

  rounds-AllProper :
      (rounds : List (Shared F)) (net : Network F)
      → All IsTold rounds
      → AllProper Told Copied setup net
      → AllProper Told Copied setup (network_rounds world setup rounds net)
  unfolding network_rounds
  rounds-AllProper [] net i h = h
  rounds-AllProper (shared ∷ rest) net (i, is) h =
      rounds-AllProper rest (network_round world setup shared net) is
        (round-AllProper shared net i h)

  -- From start-up on, whatever the libraries answer and whenever: every publication is the whole
  -- telemetry object of this device, not retained, on its telemetry topic, or the name of a state, of a
  -- fault code or `online`, retained, on the topic that the protocol has for it; the state, the fault and
  -- the telemetry are of snapshots and samples that satisfy whatever all those do that the rounds read;
  -- every subscription is to one of the device's two command topics; and every connection is under the
  -- client name of the device, with the user name and the password of the firmware and `offline` as the
  -- last will on its availability topic, with QoS 1 and retained.
  pub network_rounds-AllProper :
      (rounds : List (Shared F)) (start_ms : ℕ)
      → All IsTold rounds
      → AllProper Told Copied setup
          (network_rounds world setup rounds (initial_network setup start_ms))
  unfolding initial_network
  network_rounds-AllProper rounds start_ms told =
      rounds-AllProper rounds (initial_network setup start_ms) told tt
