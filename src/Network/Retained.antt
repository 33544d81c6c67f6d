-- ===== src/Network/Retained.antt =====
-- What the newest messages of src/mqtt_manager.cpp on the status topics say.
use mathlib.Core.Option.{Option, none, some}
use esp32_real_time_energy_c.Base.{
  ℕ, ◌≡◌, refl, Bool, true, false, List, [], ◌∷◌, ◌++◌, arith, if◌then◌else◌,
}
use esp32_real_time_energy_c.Base.Text.{codes, same_bytes, same_bytes_refl}
use esp32_real_time_energy_c.Base.Float.{Float}
use esp32_real_time_energy_c.Measurement.{Measurement}
use esp32_real_time_energy_c.Protection.Types.{
  ProtectionSnapshot, system_state_name, fault_code_name,
}
use esp32_real_time_energy_c.Command.{
  mqtt_topic_root, mqtt_topic_telemetry, mqtt_topic_state, mqtt_topic_fault,
}
use esp32_real_time_energy_c.Telemetry.{build_telemetry_json}
use esp32_real_time_energy_c.Network.{
  LibraryCall, reads_clock, wifi_status, mqtt_connected, mqtt_publish, World, NetworkSetup, Network,
  Shared, made, answered,
}
use esp32_real_time_energy_c.Network.Mqtt.{
  mqtt_manager_publish_state, mqtt_manager_publish_fault, send_telemetry, telemetry_input,
  mqtt_manager_publish_telemetry,
}
use esp32_real_time_energy_c.Network.Round.{
  publish_on_connection, publish_changed_state, publish_changed_fault, publication, blynk_values,
  telemetry_round, online_round, network_round, network_rounds, copied_measurement, initial_network,
}
use esp32_real_time_energy_c.Network.Republication.{IsUp, rounds-unnoted, mqtt_linked, linked-Goes}

same_bytes-append : (p a b : List ℕ) → same_bytes (p ++ a) (p ++ b) ≡ same_bytes a b
same_bytes-append [] a b = refl
same_bytes-append (c ∷ p) a b = ground (arith, same_bytes-append p a b)

module _ {ℓ} {F : Type ℓ} where
  -- The text of the newest message on a topic.
  abbrev pub newest_message : List ℕ → List (LibraryCall F) → Option (List ℕ)
  newest_message topic [] = none
  newest_message topic (mqtt_publish target text retained ∷ calls) =
      let older = newest_message topic calls in if same_bytes target topic then some text else older
  newest_message topic (_ ∷ calls) = newest_message topic calls

  -- The newest messages on the topics of the state and of the fault are of a snapshot.
  abbrev pub Says : List ℕ → ProtectionSnapshot → Network F → Type 0
  Says device_id p net =
      (newest_message (mqtt_topic_state device_id) net.calls ≡ some (system_state_name p.state))
      × (newest_message (mqtt_topic_fault device_id) net.calls
          ≡ some (fault_code_name p.fault.active_fault))

-- The three topics differ.
record Differ (device_id : List ℕ) : Type 0 where
  state_fault : same_bytes (mqtt_topic_state device_id) (mqtt_topic_fault device_id) ≡ false
  fault_state : same_bytes (mqtt_topic_fault device_id) (mqtt_topic_state device_id) ≡ false
  telemetry_state : same_bytes (mqtt_topic_telemetry device_id) (mqtt_topic_state device_id) ≡ false
  telemetry_fault : same_bytes (mqtt_topic_telemetry device_id) (mqtt_topic_fault device_id) ≡ false

topics-Differ : (device_id : List ℕ) → Differ device_id
topics-Differ device_id =
    let root = mqtt_topic_root device_id in
    record {
      state_fault = same_bytes-append root (codes "/status/state") (codes "/fault/code");
      fault_state = same_bytes-append root (codes "/fault/code") (codes "/status/state");
      telemetry_state = same_bytes-append root (codes "/telemetry") (codes "/status/state");
      telemetry_fault = same_bytes-append root (codes "/telemetry") (codes "/fault/code");
    }

module _ {ℓ} {F : Type ℓ} ⦃fl : Float F⦄ (world : World F) (setup : NetworkSetup)
    (p : ProtectionSnapshot) where
  open setup use {device_id}

  on_connection-Says :
      (net : Network F)
      → answered world (made mqtt_connected net) ≡ true
      → answered world (made mqtt_connected (mqtt_manager_publish_state world setup p.state net).0)
        ≡ true
      → net.mqtt_was_connected ≡ false
      → Says device_id p (publish_on_connection world setup true p net)
  unfolding publish_on_connection mqtt_manager_publish_state mqtt_manager_publish_fault
  on_connection-Says net one two h =
      let differ = topics-Differ device_id in
      ground (
        arith,
        h,
        one,
        two,
        same_bytes_refl (mqtt_topic_state device_id),
        same_bytes_refl (mqtt_topic_fault device_id),
        differ.fault_state,
      )

  changed_state-Says :
      (up : Bool) (net : Network F)
      → Says device_id p net
      → Says device_id p (publish_changed_state world setup up p net)
  unfolding publish_changed_state mqtt_manager_publish_state
  changed_state-Says up net h =
      let differ = topics-Differ device_id in
      ground (arith, h, same_bytes_refl (mqtt_topic_state device_id), differ.state_fault)

  changed_fault-Says :
      (up : Bool) (net : Network F)
      → Says device_id p net
      → Says device_id p (publish_changed_fault world setup up p net)
  unfolding publish_changed_fault mqtt_manager_publish_fault
  changed_fault-Says up net h =
      let differ = topics-Differ device_id in
      ground (arith, h, same_bytes_refl (mqtt_topic_fault device_id), differ.fault_state)

  blynk_values-Says :
      (m : Measurement F) (net : Network F)
      → Says device_id p net
      → Says device_id p (blynk_values world setup m net)
  unfolding blynk_values
  blynk_values-Says m net h = ground (arith, h)

  send-Says :
      (built : Option ℕ × List ℕ) (net : Network F)
      → Says device_id p net
      → Says device_id p (send_telemetry world setup built net).0
  send-Says (none, payload) net h = h
  send-Says (some size, payload) net h =
      let differ = topics-Differ device_id in
      ground (arith, h, differ.telemetry_state, differ.telemetry_fault)

  publish_telemetry-Says :
      (m : Measurement F) (told : ProtectionSnapshot) (commanded enabled : Bool) (net : Network F)
      → Says device_id p net
      → Says device_id p (mqtt_manager_publish_telemetry world setup m told commanded enabled net).0
  unfolding mqtt_manager_publish_telemetry
  publish_telemetry-Says m told commanded enabled net h =
      let timed = made reads_clock (made mqtt_connected net) in
      let input = telemetry_input world setup m told commanded enabled (world.clock timed.calls) in
      ground (arith, h, send-Says (build_telemetry_json 768 input) timed h)

  telemetry-Says :
      (now_ms : ℕ) (shared : Shared F) (net : Network F)
      → Says device_id p net
      → Says device_id p (telemetry_round world setup now_ms shared net)
  unfolding telemetry_round
  telemetry-Says now_ms shared net h =
      let m = copied_measurement world setup shared.latest in
      let timed = record net { last_telemetry = now_ms } in
      let written = blynk_values world setup m timed in
      let kept = blynk_values-Says m timed h in
      ground (
        arith,
        h,
        kept,
        publish_telemetry-Says m shared.protection shared.relay_commanded_on
            shared.relay_output_enabled (made mqtt_connected written) kept,
      )

  publication-Says :
      (net : Network F)
      → let asked = made mqtt_connected net in
        let told = (mqtt_manager_publish_state world setup p.state asked).0 in
        (answered world asked ≡ true)
          × (answered world (made mqtt_connected asked) ≡ true)
          × (answered world (made mqtt_connected told) ≡ true)
        → net.mqtt_was_connected ≡ false
        → Says device_id p (publication world setup p net)
  unfolding publication
  publication-Says net (up, one, two) h =
      let asked = made mqtt_connected net in
      let first = publish_on_connection world setup true p asked in
      let second = publish_changed_state world setup true p first in
      rw up (
        changed_fault-Says true second
          (changed_state-Says true first (on_connection-Says asked one two h)))

module _ {ℓ} {F : Type ℓ} ⦃fl : Float F⦄ (world : World F) (setup : NetworkSetup) where
  open setup use {device_id}

  round-Says :
      (shared : Shared F) (net : Network F)
      → IsUp world setup shared net
      → net.mqtt_was_connected ≡ false
      → Says device_id shared.protection (network_round world setup shared net)
  unfolding network_round online_round
  round-Says shared net up h =
      let timed = made reads_clock net in
      let now_ms = world.clock timed.calls in
      let asked = made wifi_status timed in
      let linked = mqtt_linked world setup now_ms asked in
      let goes = linked-Goes world setup (mqtt_topic_state device_id) now_ms asked in
      rw up.wifi (
        telemetry-Says world setup shared.protection now_ms shared
          (publication world setup shared.protection linked)
          (publication-Says world setup shared.protection linked up.broker (goes.1 h)))

  -- After any rounds of NetworkTask from start-up on, whatever the libraries answered: when Wi-Fi and the
  -- broker are connected in one more round, then after it the newest message on the topic of the state names
  -- the state, and the newest one on the topic of the fault the fault code, of the snapshot that this round
  -- has read.
  pub network_rounds-tell :
      (rounds : List (Shared F)) (last : Shared F) (start_ms : ℕ)
      → IsUp world setup last (network_rounds world setup rounds (initial_network setup start_ms))
      → Says device_id last.protection (
          network_round world setup last
            (network_rounds world setup rounds (initial_network setup start_ms)))
  unfolding initial_network
  network_rounds-tell rounds last start_ms up =
      let first = initial_network setup start_ms in
      round-Says last (network_rounds world setup rounds first) up
        (rounds-unnoted world setup (mqtt_topic_state device_id) rounds first refl)
