-- ===== src/Network/Republication.antt =====
-- How often `networkTask` of src/main.cpp publishes the state and the fault.
use mathlib.Core.Option.{Option, none, some}
use esp32_real_time_energy_c.Base.{
  Bool-cases, ◌⊎◌, ℕ, suc, ◌+◌, ◌≤◌, ◌≡◌, refl, Bool, true, false, List, [], ◌∷◌, arith, length,
  if◌then◌else◌, inl, inr,
}
use esp32_real_time_energy_c.Base.Text.{same_bytes, same_bytes_refl}
use esp32_real_time_energy_c.Base.Float.{Float}
use esp32_real_time_energy_c.Measurement.{Measurement}
use esp32_real_time_energy_c.Protection.Types.{ProtectionSnapshot}
use esp32_real_time_energy_c.Command.{mqtt_topic_state, mqtt_topic_fault}
use esp32_real_time_energy_c.Telemetry.{build_telemetry_json}
use esp32_real_time_energy_c.Network.{
  LibraryCall, reads_clock, wifi_status, mqtt_connected, mqtt_publish, World, NetworkSetup, Network,
  Shared, made, answered,
}
use esp32_real_time_energy_c.Network.Mqtt.{
  subscribe_commands, mqtt_manager_publish_state, mqtt_manager_publish_fault, send_telemetry,
  telemetry_input, mqtt_manager_publish_telemetry,
}
use esp32_real_time_energy_c.Network.Round.{
  wifi_found, ntp_check, blynk_round, mqtt_round, publish_on_connection, publish_changed_state,
  publish_changed_fault, publication, blynk_values, telemetry_round, online_round, network_round,
  network_rounds, copied_measurement, initial_network, wifi_retry, wifi_lost,
}

module _ {ℓ} {F : Type ℓ} where
  abbrev is_message : List ℕ → LibraryCall F → ℕ
  is_message topic (mqtt_publish target text retained) = if same_bytes target topic then 1 else 0
  is_message topic _ = 0

  -- The number of publications on a topic.
  abbrev pub messages : List ℕ → List (LibraryCall F) → ℕ
  messages topic [] = 0
  messages topic (call ∷ calls) = is_message topic call + messages topic calls

  -- Nothing is unsaid, and the task does not note a connection.
  abbrev pub Goes : List ℕ → Network F → Network F → Type 0
  Goes topic a b =
      (messages topic a.calls ≤ messages topic b.calls)
      × (a.mqtt_was_connected ≡ false → b.mqtt_was_connected ≡ false)

  Goes-then :
      (topic : List ℕ) (a b c : Network F) → Goes topic a b → Goes topic b c → Goes topic a c
  Goes-then topic a b c h k = ground (arith, h, k)

module _ {ℓ} {F : Type ℓ} (world : World F) (setup : NetworkSetup) (topic : List ℕ) where
  wifi_found-Goes : (net : Network F) → Goes topic net (wifi_found world setup net)
  unfolding wifi_found
  wifi_found-Goes net = ground arith

  ntp_check-Goes :
      (now_ms : ℕ) (net : Network F) → Goes topic net (ntp_check world setup now_ms net)
  unfolding ntp_check
  ntp_check-Goes now_ms net = ground arith

  blynk_round-Goes :
      (now_ms : ℕ) (net : Network F) → Goes topic net (blynk_round world setup now_ms net)
  unfolding blynk_round
  blynk_round-Goes now_ms net = ground arith

  mqtt_round-Goes :
      (now_ms : ℕ) (net : Network F) → Goes topic net (mqtt_round world setup now_ms net)
  unfolding mqtt_round subscribe_commands
  mqtt_round-Goes now_ms net = ground arith

  changed_state-Goes :
      (up : Bool) (p : ProtectionSnapshot) (net : Network F)
      → Goes topic net (publish_changed_state world setup up p net)
  unfolding publish_changed_state
  changed_state-Goes up p net = ground arith

  changed_fault-Goes :
      (up : Bool) (p : ProtectionSnapshot) (net : Network F)
      → Goes topic net (publish_changed_fault world setup up p net)
  unfolding publish_changed_fault
  changed_fault-Goes up p net = ground arith

  blynk_values-Goes :
      (m : Measurement F) (net : Network F) → Goes topic net (blynk_values world setup m net)
  unfolding blynk_values
  blynk_values-Goes m net = ground arith

module _ {ℓ} {F : Type ℓ} (world : World F) (setup : NetworkSetup) where
  -- a round with Wi-Fi up to the publication
  abbrev pub mqtt_linked : ℕ → Network F → Network F
  mqtt_linked now_ms net =
      mqtt_round world setup now_ms
        (blynk_round world setup now_ms (ntp_check world setup now_ms (wifi_found world setup net)))

  -- In a round Wi-Fi is connected, and so is the broker when it is asked for the publication: once for the
  -- whole of it, before the state and before the fault.
  pub record IsUp (shared : Shared F) (net : Network F) : Type ℓ where
    pub wifi : answered world (made wifi_status (made reads_clock net)) ≡ true
    pub broker :
        let timed = made reads_clock net in
        let linked = mqtt_linked (world.clock timed.calls) (made wifi_status timed) in
        let asked = made mqtt_connected linked in
        let told = (mqtt_manager_publish_state world setup shared.protection.state asked).0 in
        (answered world asked ≡ true)
        × (answered world (made mqtt_connected asked) ≡ true)
        × (answered world (made mqtt_connected told) ≡ true)

-- The topic of the state or of the fault.
abbrev pub IsStatusTopic : List ℕ → List ℕ → Type 0
IsStatusTopic device_id topic =
    (topic ≡ mqtt_topic_state device_id) ⊎ (topic ≡ mqtt_topic_fault device_id)

module _ {ℓ} {F : Type ℓ} ⦃fl : Float F⦄ (world : World F) (setup : NetworkSetup)
    (topic : List ℕ) where
  send-Goes :
      (built : Option ℕ × List ℕ) (net : Network F)
      → Goes topic net (send_telemetry world setup built net).0
  send-Goes (none, payload) net = ground arith
  send-Goes (some size, payload) net = ground arith

  publish_telemetry-Goes :
      (m : Measurement F) (p : ProtectionSnapshot) (commanded enabled : Bool) (net : Network F)
      → Goes topic net (mqtt_manager_publish_telemetry world setup m p commanded enabled net).0
  unfolding mqtt_manager_publish_telemetry
  publish_telemetry-Goes m p commanded enabled net =
      let timed = made reads_clock (made mqtt_connected net) in
      let input = telemetry_input world setup m p commanded enabled (world.clock timed.calls) in
      ground (arith, send-Goes (build_telemetry_json 768 input) timed)

  telemetry-Goes :
      (now_ms : ℕ) (shared : Shared F) (net : Network F)
      → Goes topic net (telemetry_round world setup now_ms shared net)
  unfolding telemetry_round
  telemetry-Goes now_ms shared net =
      let m = copied_measurement world setup shared.latest in
      let timed = record net { last_telemetry = now_ms } in
      let written = blynk_values world setup m timed in
      ground (
        arith,
        blynk_values-Goes world setup topic m timed,
        publish_telemetry-Goes m shared.protection shared.relay_commanded_on
            shared.relay_output_enabled (made mqtt_connected written),
      )

  -- One more message, and the connection is not noted.
  abbrev pub Speaks : Network F → Network F → Type 0
  Speaks a b =
      (suc (messages topic a.calls) ≤ messages topic b.calls) × (b.mqtt_was_connected ≡ false)

  on_connection-Speaks :
      (p : ProtectionSnapshot) (net : Network F)
      → answered world (made mqtt_connected net) ≡ true
      → answered world (made mqtt_connected (mqtt_manager_publish_state world setup p.state net).0)
        ≡ true
      → IsStatusTopic setup.device_id topic
      → net.mqtt_was_connected ≡ false
      → Speaks net (publish_on_connection world setup true p net)
  unfolding publish_on_connection mqtt_manager_publish_state mqtt_manager_publish_fault
  on_connection-Speaks p net one two (inl e) h =
      rw e (ground (arith, h, one, two, same_bytes_refl (mqtt_topic_state setup.device_id)))
  on_connection-Speaks p net one two (inr e) h =
      rw e (ground (arith, h, one, two, same_bytes_refl (mqtt_topic_fault setup.device_id)))

  publication-Speaks :
      (p : ProtectionSnapshot) (net : Network F)
      → let asked = made mqtt_connected net in
        let told = (mqtt_manager_publish_state world setup p.state asked).0 in
        (answered world asked ≡ true)
          × (answered world (made mqtt_connected asked) ≡ true)
          × (answered world (made mqtt_connected told) ≡ true)
        → IsStatusTopic setup.device_id topic
        → net.mqtt_was_connected ≡ false
        → Speaks net (publication world setup p net)
  unfolding publication
  publication-Speaks p net (up, one, two) t h =
      let asked = made mqtt_connected net in
      let first = publish_on_connection world setup true p asked in
      let second = publish_changed_state world setup true p first in
      rw up (
        ground (
          arith,
          on_connection-Speaks p asked one two t h,
          changed_state-Goes world setup topic true p first,
          changed_fault-Goes world setup topic true p second,
        ))

  asked-Goes : (net : Network F) → Goes topic net (made wifi_status (made reads_clock net))
  asked-Goes net = ground arith

  pub linked-Goes :
      (now_ms : ℕ) (net : Network F) → Goes topic net (mqtt_linked world setup now_ms net)
  linked-Goes now_ms net =
      let found = wifi_found world setup net in
      let checked = ntp_check world setup now_ms found in
      let blynk = blynk_round world setup now_ms checked in
      let linked = mqtt_linked world setup now_ms net in
      Goes-then topic net found linked (wifi_found-Goes world setup topic net) (
        Goes-then topic found checked linked (ntp_check-Goes world setup topic now_ms found) (
          Goes-then topic checked blynk linked (blynk_round-Goes world setup topic now_ms checked)
            (mqtt_round-Goes world setup topic now_ms blynk)))

  Speaks-between :
      (a b c d : Network F)
      → Goes topic a b
      → a.mqtt_was_connected ≡ false
      → Speaks b c
      → Goes topic c d
      → Speaks a d
  Speaks-between a b c d h w k l = ground (arith, h, k, l)

  pub round-Speaks :
      (shared : Shared F) (net : Network F)
      → IsUp world setup shared net
      → IsStatusTopic setup.device_id topic
      → net.mqtt_was_connected ≡ false
      → Speaks net (network_round world setup shared net)
  unfolding network_round online_round
  round-Speaks shared net up t h =
      let timed = made reads_clock net in
      let now_ms = world.clock timed.calls in
      let asked = made wifi_status timed in
      let linked = mqtt_linked world setup now_ms asked in
      let told = publication world setup shared.protection linked in
      rw up.wifi (
        Speaks-between net linked told (telemetry_round world setup now_ms shared told)
          (Goes-then topic net asked linked (asked-Goes net) (linked-Goes now_ms asked)) h
          (publication-Speaks shared.protection linked up.broker t ((linked-Goes now_ms asked).1 h))
          (telemetry-Goes now_ms shared told))

  publication-unnoted :
      (p : ProtectionSnapshot) (net : Network F)
      → net.mqtt_was_connected ≡ false
      → (publication world setup p net).mqtt_was_connected ≡ false
  unfolding publication publish_on_connection publish_changed_state publish_changed_fault
      mqtt_manager_publish_state mqtt_manager_publish_fault
  publication-unnoted p net h = ground (arith, h)

  offline-unnoted :
      (now_ms : ℕ) (net : Network F)
      → net.mqtt_was_connected ≡ false
      → (wifi_retry world setup now_ms (wifi_lost world setup net)).mqtt_was_connected ≡ false
  unfolding wifi_retry wifi_lost
  offline-unnoted now_ms net h = ground (arith, h)

  -- No round ever notes a connection.
  round-unnoted :
      (shared : Shared F) (net : Network F)
      → net.mqtt_was_connected ≡ false
      → (network_round world setup shared net).mqtt_was_connected ≡ false
  unfolding network_round online_round
  round-unnoted shared net h =
      let timed = made reads_clock net in
      let now_ms = world.clock timed.calls in
      let asked = made wifi_status timed in
      let linked = mqtt_linked world setup now_ms asked in
      let told = publication world setup shared.protection linked in
      elim (Bool-cases (answered world asked)) [
        | inl up ↦ rw up (
            (telemetry-Goes now_ms shared told).1
              (publication-unnoted shared.protection linked ((linked-Goes now_ms asked).1 h)))
        | inr down ↦ rw down (offline-unnoted now_ms asked h)
      ]

  pub rounds-unnoted :
      (rounds : List (Shared F)) (net : Network F)
      → net.mqtt_was_connected ≡ false
      → (network_rounds world setup rounds net).mqtt_was_connected ≡ false
  unfolding network_rounds
  rounds-unnoted [] net h = h
  rounds-unnoted (shared ∷ rest) net h =
      rounds-unnoted rest (network_round world setup shared net) (round-unnoted shared net h)

  abbrev pub AllUp : List (Shared F) → Network F → Type ℓ
  AllUp [] net = Unit
  AllUp (shared ∷ rest) net =
      IsUp world setup shared net × AllUp rest (network_round world setup shared net)

  rounds-speak :
      (rounds : List (Shared F)) (net : Network F)
      → AllUp rounds net
      → IsStatusTopic setup.device_id topic
      → net.mqtt_was_connected ≡ false
      → messages topic net.calls + length rounds
        ≤ messages topic (network_rounds world setup rounds net).calls
  unfolding network_rounds
  rounds-speak [] net ups t h = omega arith
  rounds-speak (shared ∷ rest) net (up, ups) t h =
      let next = network_round world setup shared net in
      let (one, still) = round-Speaks shared net up t h in
      omega (arith, one, rounds-speak rest next ups t still)

  -- After any rounds from start-up on, whatever the libraries answered: while Wi-Fi and the broker are
  -- connected in each of n further rounds of NetworkTask, every one of them publishes both the state and the
  -- fault, changed or not, so there are at least n more messages on either topic.
  pub network_rounds-republish :
      (before rounds : List (Shared F)) (start_ms : ℕ)
      → AllUp rounds (network_rounds world setup before (initial_network setup start_ms))
      → IsStatusTopic setup.device_id topic
      → let net = network_rounds world setup before (initial_network setup start_ms) in
        messages topic net.calls + length rounds
        ≤ messages topic (network_rounds world setup rounds net).calls
  unfolding initial_network
  network_rounds-republish before rounds start_ms ups t =
      let first = initial_network setup start_ms in
      rounds-speak rounds (network_rounds world setup before first) ups t
        (rounds-unnoted before first refl)
