-- ===== src/Network/Mqtt.antt =====
-- The functions of src/mqtt_manager.cpp.
use mathlib.Core.Option.{Option, none, some}
use esp32_real_time_energy_c.Base.{
  ℕ, zero, suc, ◌+◌, ◌/◌, ◌%◌, ◌^◌, Bool, true, false, not, ◌||◌, List, [], ◌∷◌, ◌++◌, ltb,
  if◌then◌else◌, take,
}
use esp32_real_time_energy_c.Base.Words.{sub32}
use esp32_real_time_energy_c.Base.Text.{codes}
use esp32_real_time_energy_c.Base.Float.{Float}
use esp32_real_time_energy_c.Measurement.{Measurement}
use esp32_real_time_energy_c.Protection.Types.{
  SystemState, ProtectionSnapshot, system_state_name, fault_code_name,
}
use esp32_real_time_energy_c.Command.{
  mqtt_topic_telemetry, mqtt_topic_state, mqtt_topic_fault, mqtt_topic_availability,
  mqtt_topic_cmd_reset, mqtt_topic_cmd_ack,
}
use esp32_real_time_energy_c.Telemetry.{TelemetryInput, build_telemetry_json}
use esp32_real_time_energy_c.Network.{
  reads_clock, wifi_status, mqtt_connected, mqtt_loop, mqtt_connect, mqtt_publish, mqtt_subscribe,
  ConnectArguments, World, NetworkSetup, Network, made, answered,
}

abbrev pub upper_hex_digit : ℕ → ℕ
upper_hex_digit d = if ltb d 10 then d + b'0' else d + 55

-- `%0wX` of a number of at most `w` hexadecimal digits
abbrev pub upper_hex : ℕ → ℕ → List ℕ
upper_hex zero n = []
upper_hex (suc w) n = upper_hex w (n / 16) ++ (upper_hex_digit (n % 16) ∷ [])

-- What `makeClientId` prints, in full.
unfoldable pub printed_client_id : List ℕ → ℕ → List ℕ
printed_client_id device_id chip_id =
    device_id
    ++ (b'-' ∷ (upper_hex 4 (chip_id / 2 ^ 32 % 2 ^ 16) ++ upper_hex 8 (chip_id % 2 ^ 32)))

-- The text of `snprintf` into the 64 bytes of `clientId`.
unfoldable pub make_client_id : List ℕ → ℕ → List ℕ
unfolding printed_client_id
make_client_id device_id chip_id = take 63 (printed_client_id device_id chip_id)

abbrev pub mqtt_manager_set_time_synchronized {ℓ} : {F : Type ℓ} → Bool → Network F → Network F
mqtt_manager_set_time_synchronized synchronized net = record net {
  mqtt_time_synchronized = synchronized;
}

module _ (setup : NetworkSetup) where
  open setup use {device_id, chip_id, mqtt_username, mqtt_password}

  abbrev pub connect_arguments : ConnectArguments
  connect_arguments = record {
    client_id = make_client_id device_id chip_id;
    username = mqtt_username;
    password = mqtt_password;
    will_topic = mqtt_topic_availability device_id;
    will_qos = 1;
    will_retain = true;
    will_text = codes "offline";
  }

module _ {ℓ} {F : Type ℓ} (world : World F) (setup : NetworkSetup) where
  open setup use {device_id, firmware_version}

  abbrev pub published_message : List ℕ → List ℕ → Bool → Network F → Network F
  published_message topic text retained net = made (mqtt_publish topic text retained) net

  -- the part of `mqttManagerConnect` after a connection
  unfoldable pub subscribe_commands : Network F → Network F
  subscribe_commands net =
      let online =
        made reads_clock
          (published_message (mqtt_topic_availability device_id) (codes "online") true net) in
      made (mqtt_subscribe (mqtt_topic_cmd_ack device_id)) (
        made (mqtt_subscribe (mqtt_topic_cmd_reset device_id))
          (record online { subscribed_at_ms = world.clock online.calls }))

  unfoldable pub mqtt_manager_connect : Network F → Network F × Bool
  unfolding subscribe_commands make_client_id
  mqtt_manager_connect net =
      let asked = made wifi_status net in
      let connecting = made (mqtt_connect (connect_arguments setup)) asked in
      if not (answered world asked) || not net.mqtt_time_synchronized
      then (asked, false)
      else if not (answered world connecting)
      then (connecting, false)
      else (subscribe_commands connecting, true)

  unfoldable pub mqtt_manager_loop : Network F → Network F
  mqtt_manager_loop net =
      let asked = made mqtt_connected net in
      if answered world asked then made mqtt_loop asked else asked

  -- a publication, behind the check of the connection
  abbrev publish_if_connected : List ℕ → List ℕ → Network F → Network F × Bool
  publish_if_connected topic text net =
      let asked = made mqtt_connected net in
      let sent = published_message topic text true asked in
      if not (answered world asked) then (asked, false) else (sent, answered world sent)

  unfoldable pub mqtt_manager_publish_state : SystemState → Network F → Network F × Bool
  mqtt_manager_publish_state state net =
      publish_if_connected (mqtt_topic_state device_id) (system_state_name state) net

  unfoldable pub mqtt_manager_publish_fault : ProtectionSnapshot → Network F → Network F × Bool
  mqtt_manager_publish_fault p net =
      publish_if_connected (mqtt_topic_fault device_id) (fault_code_name p.fault.active_fault) net

module _ {ℓ} {F : Type ℓ} ⦃fl : Float F⦄ (world : World F) (setup : NetworkSetup) where
  open setup use {device_id, firmware_version}

  abbrev pub telemetry_input :
      Measurement F → ProtectionSnapshot → Bool → Bool → ℕ → TelemetryInput F
  telemetry_input m p relay_commanded_on relay_output_enabled now_ms = record {
    device_id = device_id;
    firmware_version = firmware_version;
    measurement = m;
    protection = p;
    uptime_ms = now_ms;
    measurement_age_ms = sub32 now_ms m.timestamp;
    relay_commanded_on = relay_commanded_on;
    relay_output_enabled = relay_output_enabled;
  }

  -- what follows a call of `buildTelemetryJson`
  abbrev pub send_telemetry : Option ℕ × List ℕ → Network F → Network F × Bool
  send_telemetry (none, payload) net = (net, false)
  send_telemetry (some size, payload) net =
      let sent = made (mqtt_publish (mqtt_topic_telemetry device_id) payload false) net in
      (sent, answered world sent)

  unfoldable pub mqtt_manager_publish_telemetry :
      Measurement F → ProtectionSnapshot → Bool → Bool → Network F → Network F × Bool
  mqtt_manager_publish_telemetry m p relay_commanded_on relay_output_enabled net =
      let asked = made mqtt_connected net in
      let timed = made reads_clock asked in
      let input =
        telemetry_input m p relay_commanded_on relay_output_enabled (world.clock timed.calls) in
      if not (answered world asked)
      then (asked, false)
      else send_telemetry (build_telemetry_json 768 input) timed
