-- ===== src/Network/Packets.antt =====
-- The buffers of src/mqtt_manager.cpp: the packets of the MQTT client and the client name.
use esp32_real_time_energy_c.Base.{
  ℕ, zero, suc, ◌+◌, ◌/◌, ◌%◌, ◌^◌, ◌≤◌, ◌≡◌, refl, ap, Bool, List, [], ◌∷◌, ◌++◌, arith, length,
  length-append, take, All,
}
use esp32_real_time_energy_c.Base.Text.{codes}
use esp32_real_time_energy_c.Base.Float.{Float}
use esp32_real_time_energy_c.Measurement.{Measurement}
use esp32_real_time_energy_c.Protection.Types.{
  SystemState, FaultCode, ProtectionSnapshot, system_state_name, fault_code_name,
}
use esp32_real_time_energy_c.Command.{mqtt_topic_root, mqtt_topic_cmd_reset, mqtt_topic_cmd_ack}
use esp32_real_time_energy_c.Network.{
  ConnectArguments, LibraryCall, mqtt_publish, mqtt_subscribe, mqtt_connect, NetworkSetup,
}
use esp32_real_time_energy_c.Network.Mqtt.{upper_hex, printed_client_id, make_client_id}
use esp32_real_time_energy_c.Network.Protocol.{
  IsMessage, is_telemetry, is_state, is_fault, is_online, IsSubscription, is_reset, is_ack,
  IsConnection, is_connection, IsProper,
}

-- What `mqttManagerBegin` sets of the MQTT client: times in seconds, and bytes.
pub record ClientSettings : Type 0 where
  pub keep_alive : ℕ
  pub buffer_size : ℕ
  pub socket_timeout : ℕ

abbrev pub mqtt_manager_begin : ClientSettings
mqtt_manager_begin = record { keep_alive = 30; buffer_size = 1024; socket_timeout = 5 }

-- The lengths of MQTT 3.1.1. The fixed header has at most five bytes, and a string is behind the two
-- bytes of its length.
abbrev fixed_header : ℕ
fixed_header = 5

abbrev string_length : List ℕ → ℕ
string_length s = 2 + length s

-- The topic and the payload.
abbrev publish_length : List ℕ → List ℕ → ℕ
publish_length topic text = fixed_header + string_length topic + length text

-- The packet identifier, the topic and the requested QoS.
abbrev subscribe_length : List ℕ → ℕ
subscribe_length topic = fixed_header + 2 + string_length topic + 1

-- The protocol name, level, flags and keep-alive time are ten bytes.
abbrev connect_length : ConnectArguments → ℕ
connect_length a =
    fixed_header
    + 10
    + string_length a.client_id
    + string_length a.will_topic
    + string_length a.will_text
    + string_length a.username
    + string_length a.password

-- The buffer of the MQTT client has room for the packet of a call, and a client name is not cut off.
abbrev pub FitsBuffers {ℓ} : {F : Type ℓ} → NetworkSetup → LibraryCall F → Type 0
FitsBuffers setup (mqtt_publish topic text retained) =
    publish_length topic text ≤ mqtt_manager_begin.buffer_size
FitsBuffers setup (mqtt_subscribe topic) = subscribe_length topic ≤ mqtt_manager_begin.buffer_size
FitsBuffers setup (mqtt_connect arguments) =
    (arguments.client_id ≡ printed_client_id setup.device_id setup.chip_id)
    × (connect_length arguments ≤ mqtt_manager_begin.buffer_size)
FitsBuffers setup _ = Unit

take-short : (n : ℕ) (xs : List ℕ) → length xs ≤ n → take n xs ≡ xs
take-short zero [] h = refl
take-short zero (x ∷ xs) h = absurd (omega (arith, h))
take-short (suc n) [] h = refl
take-short (suc n) (x ∷ xs) h = ap (λ ys. x ∷ ys) (take-short n xs (omega (arith, h)))

state_name-size : (s : SystemState) → length (system_state_name s) ≤ 7
state_name-size s = ground arith

fault_name-size : (f : FaultCode) → length (fault_code_name f) ≤ 19
fault_name-size f = ground arith

topic-size :
    (device_id rest : List ℕ)
    → length device_id ≤ 32
    → length (mqtt_topic_root device_id ++ rest) ≤ 39 + length rest
topic-size device_id rest h = omega (arith, h, length-append device_id rest)

printed_client_id-size :
    (device_id : List ℕ) (chip_id : ℕ)
    → length device_id ≤ 32
    → length (printed_client_id device_id chip_id) ≤ 45
unfolding printed_client_id
printed_client_id-size device_id chip_id h = omega (
  arith,
  h,
  length-append device_id
      (b'-' ∷ (upper_hex 4 (chip_id / 2 ^ 32 % 2 ^ 16) ++ upper_hex 8 (chip_id % 2 ^ 32))),
)

-- The buffer of 64 bytes has room for the client name.
make_client_id-whole :
    (device_id : List ℕ) (chip_id : ℕ)
    → length device_id ≤ 32
    → make_client_id device_id chip_id ≡ printed_client_id device_id chip_id
unfolding make_client_id
make_client_id-whole device_id chip_id h =
    take-short 63 (printed_client_id device_id chip_id)
      (omega (arith, printed_client_id-size device_id chip_id h))

module _ {ℓ} {F : Type ℓ} ⦃fl : Float F⦄ (Told : ProtectionSnapshot → Type ℓ)
    (Copied : Measurement F → Type ℓ) (setup : NetworkSetup) (short : length setup.device_id ≤ 32)
    (credentials : length setup.mqtt_username + length setup.mqtt_password ≤ 880) where
  open setup use {device_id, chip_id}

  message-size :
      (topic text : List ℕ) (retained : Bool)
      → IsMessage F Told Copied device_id topic text retained
      → publish_length topic text ≤ mqtt_manager_begin.buffer_size
  message-size topic text retained (is_telemetry input t c d fits) =
      omega (arith, fits, topic-size device_id (codes "/telemetry") short)
  message-size topic text retained (is_state p t) =
      omega (arith, state_name-size p.state, topic-size device_id (codes "/status/state") short)
  message-size topic text retained (is_fault p t) = omega (
    arith,
    fault_name-size p.fault.active_fault,
    topic-size device_id (codes "/fault/code") short,
  )
  message-size topic text retained is_online =
      omega (arith, topic-size device_id (codes "/status/availability") short)

  subscription-size :
      (topic : List ℕ)
      → IsSubscription F device_id topic
      → subscribe_length topic ≤ mqtt_manager_begin.buffer_size
  unfolding mqtt_topic_cmd_reset mqtt_topic_cmd_ack
  subscription-size topic is_reset = omega (arith, topic-size device_id (codes "/cmd/reset") short)
  subscription-size topic is_ack = omega (arith, topic-size device_id (codes "/cmd/ack") short)

  connection-FitsBuffers :
      (arguments : ConnectArguments)
      → IsConnection F setup arguments
      → FitsBuffers {F = F} setup (mqtt_connect arguments)
  connection-FitsBuffers arguments is_connection = (
    make_client_id-whole device_id chip_id short,
    omega (
      arith,
      credentials,
      ap length (make_client_id-whole device_id chip_id short),
      printed_client_id-size device_id chip_id short,
      topic-size device_id (codes "/status/availability") short,
    ),
  )

  call-FitsBuffers :
      (call : LibraryCall F) → IsProper Told Copied setup call → FitsBuffers setup call
  call-FitsBuffers (mqtt_publish topic text retained) h = message-size topic text retained h
  call-FitsBuffers (mqtt_subscribe topic) h = subscription-size topic h
  call-FitsBuffers (mqtt_connect arguments) h = connection-FitsBuffers arguments h
  call-FitsBuffers _ h = tt

  -- What fits the protocol fits the buffers.
  pub proper-FitsBuffers :
      (calls : List (LibraryCall F))
      → All (IsProper Told Copied setup) calls
      → All (FitsBuffers setup) calls
  proper-FitsBuffers [] h = tt
  proper-FitsBuffers (call ∷ calls) (p, h) = (call-FitsBuffers call p, proper-FitsBuffers calls h)
