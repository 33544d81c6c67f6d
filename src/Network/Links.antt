-- ===== src/Network/Links.antt =====
-- What the firmware says to the broker, in src/mqtt_manager.cpp, while `networkTask` keeps its
-- connections.
use esp32_real_time_energy_c.Base.{ℕ, true, arith}
use esp32_real_time_energy_c.Base.Text.{codes}
use esp32_real_time_energy_c.Base.Float.{Float}
use esp32_real_time_energy_c.Measurement.{Measurement}
use esp32_real_time_energy_c.Protection.Types.{ProtectionSnapshot}
use esp32_real_time_energy_c.Command.{
  mqtt_topic_availability, mqtt_topic_cmd_reset, mqtt_topic_cmd_ack,
}
use esp32_real_time_energy_c.Network.{World, NetworkSetup, Network}
use esp32_real_time_energy_c.Network.Mqtt.{connect_arguments, subscribe_commands}
use esp32_real_time_energy_c.Network.Protocol.{
  IsMessage, is_online, IsSubscription, is_reset, is_ack, IsConnection, is_connection, AllProper,
}
use esp32_real_time_energy_c.Network.Round.{
  wifi_lost, wifi_retry, wifi_found, ntp_check, blynk_round, mqtt_round,
}

module _ {ℓ} {F : Type ℓ} ⦃fl : Float F⦄ (world : World F) (setup : NetworkSetup)
    (Told : ProtectionSnapshot → Type ℓ) (Copied : Measurement F → Type ℓ) where
  open setup use {device_id, chip_id}

  pub wifi_lost-AllProper :
      (net : Network F)
      → AllProper Told Copied setup net
      → AllProper Told Copied setup (wifi_lost world setup net)
  unfolding wifi_lost
  wifi_lost-AllProper net h = ground (arith, h)

  pub wifi_retry-AllProper :
      (now_ms : ℕ) (net : Network F)
      → AllProper Told Copied setup net
      → AllProper Told Copied setup (wifi_retry world setup now_ms net)
  unfolding wifi_retry
  wifi_retry-AllProper now_ms net h = ground (arith, h)

  pub wifi_found-AllProper :
      (net : Network F)
      → AllProper Told Copied setup net
      → AllProper Told Copied setup (wifi_found world setup net)
  unfolding wifi_found
  wifi_found-AllProper net h = ground (arith, h)

  pub ntp_check-AllProper :
      (now_ms : ℕ) (net : Network F)
      → AllProper Told Copied setup net
      → AllProper Told Copied setup (ntp_check world setup now_ms net)
  unfolding ntp_check
  ntp_check-AllProper now_ms net h = ground (arith, h)

  pub blynk_round-AllProper :
      (now_ms : ℕ) (net : Network F)
      → AllProper Told Copied setup net
      → AllProper Told Copied setup (blynk_round world setup now_ms net)
  unfolding blynk_round
  blynk_round-AllProper now_ms net h = ground (arith, h)

  pub mqtt_round-AllProper :
      (now_ms : ℕ) (net : Network F)
      → AllProper Told Copied setup net
      → AllProper Told Copied setup (mqtt_round world setup now_ms net)
  unfolding mqtt_round subscribe_commands
  mqtt_round-AllProper now_ms net h =
      let ack : IsSubscription F device_id (mqtt_topic_cmd_ack device_id) = is_ack in
      let reset : IsSubscription F device_id (mqtt_topic_cmd_reset device_id) = is_reset in
      let online : IsMessage F Told Copied device_id (mqtt_topic_availability device_id)
          (codes "online") true =
        is_online in
      let connection : IsConnection F setup (connect_arguments setup) = is_connection in
      ground (arith, h, ack, reset, online, connection)
