-- ===== src/System/Packets.antt =====
-- The buffers of src/mqtt_manager.cpp in the whole of src/main.cpp.
use esp32_real_time_energy_c.Base.{◌≡◌, ◌≤◌, ◌+◌, ℕ, true, All, length, Bool-cases, inl, inr}
use esp32_real_time_energy_c.Base.Float.{Float}
use esp32_real_time_energy_c.Measurement.{Measurement}
use esp32_real_time_energy_c.Protection.Types.{ProtectionSnapshot}
use esp32_real_time_energy_c.Command.{topic_segment_valid}
use esp32_real_time_energy_c.Command.Topics.{topic_segment_valid_iff}
use esp32_real_time_energy_c.Watchdog.Supervisor.{Clocks}
use esp32_real_time_energy_c.Network.{Network}
use esp32_real_time_energy_c.Network.Round.{initial_network}
use esp32_real_time_energy_c.Network.Protocol.{AllProper}
use esp32_real_time_energy_c.Network.Messages.{round-AllProper}
use esp32_real_time_energy_c.Network.Packets.{FitsBuffers, proper-FitsBuffers}
use esp32_real_time_energy_c.System.{
  Firmware, System, Step, supervises, connects, shared_of, network_step, display_step,
  supervisor_step, system_step, boot_system, Reached, boots, goes,
}

module _ {ℓ} {F : Type ℓ} ⦃fl : Float F⦄ (firmware : Firmware F) where
  open firmware use {network_setup}

  -- Any snapshot and any sample.
  abbrev IsAnySnapshot : ProtectionSnapshot → Type ℓ
  IsAnySnapshot p = Unit

  abbrev IsAnySample : Measurement F → Type ℓ
  IsAnySample m = Unit

  abbrev IsProperNetwork : Network F → Type ℓ
  IsProperNetwork net = AllProper IsAnySnapshot IsAnySample network_setup net

  supervisor-network :
      (s : System F) (clocks : Clocks) (seen : ℕ)
      → IsProperNetwork s.network
      → IsProperNetwork (supervisor_step firmware s clocks seen).network
  unfolding supervisor_step
  supervisor-network s clocks seen h = elim (Bool-cases s.restarting) [
    | inl e ↦ rw e h
    | inr e ↦ rw e h
  ]

  step-AllProper :
      (s : System F) (t : Step F)
      → IsProperNetwork s.network
      → IsProperNetwork (system_step firmware s t).network
  unfolding system_step network_step display_step
  step-AllProper s connects h =
      round-AllProper s.world network_setup IsAnySnapshot IsAnySample
        (shared_of firmware s.readings) s.network (tt, tt) h
  step-AllProper s (supervises clocks seen) h = supervisor-network s clocks seen h
  step-AllProper s t h = h

  Reached-AllProper : (s : System F) → Reached firmware s → IsProperNetwork s.network
  unfolding boot_system initial_network
  Reached-AllProper s (boots created at app world setup_ms started_ms e) = tt
  Reached-AllProper s (goes before t r) = step-AllProper before t (Reached-AllProper before r)

  -- In every state that the device comes to, if its identity passes the compile-time check and the name
  -- and the password of the broker have at most 880 bytes together: the 1024 bytes of the buffer of the MQTT
  -- client have had room for the packet of every publication, subscription and connection so far, and the
  -- 64 bytes of `clientId` for every client name, so that none was cut off.
  pub Reached-FitsBuffers :
      (s : System F)
      → topic_segment_valid network_setup.device_id 0 ≡ true
      → length network_setup.mqtt_username + length network_setup.mqtt_password ≤ 880
      → Reached firmware s
      → All (FitsBuffers network_setup) s.network.calls
  Reached-FitsBuffers s valid credentials r =
      let (_, short, _) = (topic_segment_valid_iff network_setup.device_id).0 valid in
      proper-FitsBuffers IsAnySnapshot IsAnySample network_setup short credentials s.network.calls
        (Reached-AllProper s r)
