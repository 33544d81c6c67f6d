-- ===== src/Network.antt =====
-- `networkTask` of src/main.cpp and src/mqtt_manager.cpp: what they keep, and the calls that they make
-- on the Wi-Fi, time, Blynk and MQTT libraries.
pub mod Mqtt
pub mod Round
pub mod Protocol
pub mod Links
pub mod Messages
pub mod Packets
pub mod Attempts
pub mod Retries
pub mod Republication
pub mod Retained
pub mod Tests
use mathlib.Core.Option.{Option, none, some}
use esp32_real_time_energy_c.Base.{ℕ, Bool, true, false, List, [], ◌∷◌, if◌then◌else◌}
use esp32_real_time_energy_c.Measurement.{Measurement}
use esp32_real_time_energy_c.Protection.Types.{SystemState, FaultCode, ProtectionSnapshot}

-- The arguments of `PubSubClient::connect`.
pub record ConnectArguments : Type 0 where
  pub client_id : List ℕ
  pub username : List ℕ
  pub password : List ℕ
  pub will_topic : List ℕ
  pub will_qos : ℕ
  pub will_retain : Bool
  pub will_text : List ℕ

-- A call of a library. `wifi_status` asks whether Wi-Fi is connected; `reads_clock` is `millis`.
pub data LibraryCall {ℓ} (F : Type ℓ) : Type ℓ where
  reads_clock reads_time : LibraryCall F
  wifi_status wifi_begin config_time : LibraryCall F
  blynk_connected blynk_connect blynk_run : LibraryCall F
  blynk_write : ℕ → F → LibraryCall F
  mqtt_connected mqtt_loop : LibraryCall F
  mqtt_connect : ConnectArguments → LibraryCall F
  -- the topic, the text, and whether it is retained
  mqtt_publish : List ℕ → List ℕ → Bool → LibraryCall F
  mqtt_subscribe : List ℕ → LibraryCall F

-- The libraries: what a call returns, by all the calls so far, with itself the first.
pub record World {ℓ} (F : Type ℓ) : Type ℓ where
  pub answer : List (LibraryCall F) → Bool
  pub clock : List (LibraryCall F) → ℕ
  pub time : List (LibraryCall F) → ℕ

-- What the build and config.h fix. `chip_id` is the 64 bits of `ESP.getEfuseMac()`.
pub record NetworkSetup : Type 0 where
  pub device_id : List ℕ
  pub firmware_version : List ℕ
  pub chip_id : ℕ
  pub mqtt_username : List ℕ
  pub mqtt_password : List ℕ
  pub wifi_reconnect_interval_ms : ℕ
  pub ntp_check_interval_ms : ℕ
  pub blynk_reconnect_interval_ms : ℕ
  pub mqtt_reconnect_interval_ms : ℕ
  pub telemetry_period_ms : ℕ

-- The variables of the task and of src/mqtt_manager.cpp, whose copy of the flag `timeSynchronized` is
-- `mqtt_time_synchronized`, and the calls so far, the latest first.
pub record Network {ℓ} (F : Type ℓ) : Type ℓ where
  pub wifi_connected : Bool
  pub blynk_connected : Bool
  pub time_synchronized : Bool
  pub mqtt_time_synchronized : Bool
  pub mqtt_was_connected : Bool
  pub last_wifi_attempt : ℕ
  pub last_blynk_attempt : ℕ
  pub last_mqtt_attempt : ℕ
  pub last_telemetry : ℕ
  pub last_ntp_check : ℕ
  pub subscribed_at_ms : ℕ
  pub published_state : SystemState
  pub published_fault : FaultCode
  pub calls : List (LibraryCall F)

-- What a round reads of the other tasks: the snapshot, the latest sample if its mutex was taken, and
-- the relay.
pub record Shared {ℓ} (F : Type ℓ) : Type ℓ where
  pub protection : ProtectionSnapshot
  pub latest : Option (Measurement F)
  pub relay_commanded_on : Bool
  pub relay_output_enabled : Bool

module _ {ℓ} {F : Type ℓ} where
  abbrev pub made : LibraryCall F → Network F → Network F
  made call net = record net { calls = call ∷ net.calls }

  -- what the latest call returned
  abbrev pub answered : World F → Network F → Bool
  answered world net = world.answer net.calls
