-- ===== src/Network/Protocol.antt =====
-- The messages of docs/mqtt-protocol.md, as src/mqtt_manager.cpp sends them.
use esp32_real_time_energy_c.Base.{◌<◌, length, ◌≡◌, ℕ, Bool, true, false, List, All}
use esp32_real_time_energy_c.Base.Text.{codes}
use esp32_real_time_energy_c.Base.Float.{Float}
use esp32_real_time_energy_c.Protection.Types.{
  ProtectionSnapshot, system_state_name, fault_code_name,
}
use esp32_real_time_energy_c.Measurement.{Measurement}
use esp32_real_time_energy_c.Command.{
  mqtt_topic_telemetry, mqtt_topic_state, mqtt_topic_fault, mqtt_topic_availability,
  mqtt_topic_cmd_reset, mqtt_topic_cmd_ack,
}
use esp32_real_time_energy_c.Telemetry.{TelemetryInput}
use esp32_real_time_energy_c.Telemetry.Object.{telemetry_text}
use esp32_real_time_energy_c.Network.{
  ConnectArguments, LibraryCall, mqtt_connect, mqtt_publish, mqtt_subscribe, NetworkSetup, Network,
}
use esp32_real_time_energy_c.Network.Mqtt.{make_client_id}

-- A publication of the protocol: the topic, the text and the retain flag fit, and what it says is of
-- a snapshot and a sample that NetworkTask was told. The text of the telemetry has filled no more than
-- the 768 bytes of `payload`.
pub data IsMessage {ℓ} (F : Type ℓ) ⦃fl : Float F⦄ (Told : ProtectionSnapshot → Type ℓ)
    (Copied : Measurement F → Type ℓ) (device_id : List ℕ) : List ℕ → List ℕ → Bool → Type ℓ where
  is_telemetry :
      (input : TelemetryInput F)
      → Told input.protection
      → Copied input.measurement
      → input.device_id ≡ device_id
      → length (telemetry_text input) < 768
      → IsMessage F Told Copied device_id
          (mqtt_topic_telemetry device_id)
          (telemetry_text input)
          false
  is_state :
      (p : ProtectionSnapshot)
      → Told p
      → IsMessage F Told Copied device_id
          (mqtt_topic_state device_id)
          (system_state_name p.state)
          true
  is_fault :
      (p : ProtectionSnapshot)
      → Told p
      → IsMessage F Told Copied device_id
          (mqtt_topic_fault device_id)
          (fault_code_name p.fault.active_fault)
          true
  is_online :
      IsMessage F Told Copied device_id (mqtt_topic_availability device_id) (codes "online") true

pub data IsSubscription {ℓ} (F : Type ℓ) (device_id : List ℕ) : List ℕ → Type ℓ where
  is_reset : IsSubscription F device_id (mqtt_topic_cmd_reset device_id)
  is_ack : IsSubscription F device_id (mqtt_topic_cmd_ack device_id)

-- A connection of this device, with `offline` as the last will, retained and of QoS 1, on its topic.
pub data IsConnection {ℓ} (F : Type ℓ) (setup : NetworkSetup) : ConnectArguments → Type ℓ where
  is_connection : IsConnection F setup (record {
    client_id = make_client_id setup.device_id setup.chip_id;
    username = setup.mqtt_username;
    password = setup.mqtt_password;
    will_topic = mqtt_topic_availability setup.device_id;
    will_qos = 1;
    will_retain = true;
    will_text = codes "offline";
  })

module _ {ℓ} {F : Type ℓ} ⦃fl : Float F⦄ (Told : ProtectionSnapshot → Type ℓ)
    (Copied : Measurement F → Type ℓ) (setup : NetworkSetup) where
  open setup use {device_id}

  -- A call of the MQTT client that the protocol has; calls of other libraries are not restricted.
  abbrev pub IsProper : LibraryCall F → Type ℓ
  IsProper (mqtt_publish topic text retained) =
      IsMessage F Told Copied device_id topic text retained
  IsProper (mqtt_subscribe topic) = IsSubscription F device_id topic
  IsProper (mqtt_connect arguments) = IsConnection F setup arguments
  IsProper _ = Unit

  abbrev pub AllProper : Network F → Type ℓ
  AllProper net = All IsProper net.calls
