-- ===== src/Network/Tests.antt =====
-- Rounds of `networkTask` of src/main.cpp with the settings of src/config.example.h.
use mathlib.Core.Option.{some}
use esp32_real_time_energy_c.Base.{
  ◌*◌, ◌≡◌, ◌≤◌, inl, refl, Bool, true, false, List, [], ◌∷◌, length,
}
use esp32_real_time_energy_c.Base.Text.{codes}
use esp32_real_time_energy_c.Base.Float.{Milli, milli_float}
use esp32_real_time_energy_c.Measurement.{Measurement}
use esp32_real_time_energy_c.Protection.Types.{ProtectionSnapshot}
use esp32_real_time_energy_c.Protection.{begin, snapshot}
use esp32_real_time_energy_c.Protection.Tests.{sample, core}
use esp32_real_time_energy_c.Command.{mqtt_topic_state}
use esp32_real_time_energy_c.Network.{
  LibraryCall, mqtt_connect, mqtt_connected, blynk_connect, World, NetworkSetup, Network, Shared,
}
use esp32_real_time_energy_c.Network.Mqtt.{make_client_id}
use esp32_real_time_energy_c.Network.Round.{initial_network, network_round, network_rounds}
use esp32_real_time_energy_c.Network.Protocol.{AllProper}
use esp32_real_time_energy_c.Network.Messages.{network_rounds-AllProper}
use esp32_real_time_energy_c.Base.{◌+◌}
use esp32_real_time_energy_c.Network.Attempts.{mqtt}
use esp32_real_time_energy_c.Network.Retries.{Retries, network_round-Retries}
use esp32_real_time_energy_c.Network.Retained.{Says, network_rounds-tell}
use esp32_real_time_energy_c.Network.Republication.{IsUp, messages, network_rounds-republish}

abbrev pub network_setup : NetworkSetup
network_setup = record {
  device_id = codes "device01";
  firmware_version = codes "1.3.0";
  chip_id = 177789161760246;
  mqtt_username = codes "YOUR_MQTT_USERNAME";
  mqtt_password = codes "YOUR_MQTT_PASSWORD";
  wifi_reconnect_interval_ms = 10000;
  ntp_check_interval_ms = 1000;
  blynk_reconnect_interval_ms = 5000;
  mqtt_reconnect_interval_ms = 5000;
  telemetry_period_ms = 2000;
}

client_id : make_client_id (codes "device01") 177789161760246 ≡ codes "device01-A1B2C3D4E5F6"
unfolding make_client_id
client_id = refl

abbrev has_connected : List (LibraryCall Milli) → Bool
has_connected [] = false
has_connected (mqtt_connect arguments ∷ calls) = true
has_connected (_ ∷ calls) = has_connected calls

-- Wi-Fi is connected, the broker from the first attempt on, and Blynk never; and time goes by.
abbrev pub answer : List (LibraryCall Milli) → Bool
answer (blynk_connect ∷ calls) = false
answer (mqtt_connected ∷ calls) = has_connected calls
answer calls = true

abbrev pub connected : World Milli
connected = record {
  answer = answer;
  clock = λ calls. 1000 * length calls;
  time = λ calls. 1_800_000_000;
}

abbrev shared : Shared Milli
shared = record {
  protection = snapshot (begin core 500) 1000;
  latest = some (sample 40 1000);
  relay_commanded_on = true;
  relay_output_enabled = true;
}

abbrev start : Network Milli
start = initial_network network_setup 0

-- A round that has connected to the broker.
abbrev linked : Network Milli
linked = network_rounds connected network_setup (shared ∷ []) start

linked-IsUp : IsUp connected network_setup shared linked
unfolding network_rounds initial_network snapshot begin
linked-IsUp = record { wifi = refl; broker = (refl, refl, refl) }

network_rounds-republish_example :
    messages (mqtt_topic_state (codes "device01")) linked.calls + 1
    ≤ messages
        (mqtt_topic_state (codes "device01"))
        (network_rounds connected network_setup (shared ∷ []) linked).calls
network_rounds-republish_example =
    network_rounds-republish connected network_setup (mqtt_topic_state (codes "device01"))
      (shared ∷ []) (shared ∷ []) 0 (linked-IsUp, tt) (inl refl)

-- the one snapshot and the one sample
abbrev IsOurs : ProtectionSnapshot → Type 0
IsOurs p = p ≡ shared.protection

abbrev IsOurCopy : Measurement Milli → Type 0
IsOurCopy m = m ≡ sample 40 1000

network_round-Retries_example :
    Retries connected network_setup mqtt 1000 start
      (network_round connected network_setup shared start)
unfolding initial_network
network_round-Retries_example = network_round-Retries connected network_setup mqtt shared start

network_rounds-tell_example :
    Says (codes "device01") shared.protection (network_round connected network_setup shared linked)
network_rounds-tell_example =
    network_rounds-tell connected network_setup (shared ∷ []) shared 0 linked-IsUp

network_rounds-AllProper_example :
    AllProper IsOurs IsOurCopy network_setup
      (network_rounds connected network_setup (shared ∷ shared ∷ []) start)
network_rounds-AllProper_example =
    network_rounds-AllProper connected network_setup IsOurs IsOurCopy (shared ∷ shared ∷ []) 0
      ((refl, refl), ((refl, refl), tt))
