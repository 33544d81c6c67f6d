-- ===== src/Controller/Remote.antt =====
-- What a message does to the application, in `mqttCallback` of src/mqtt_manager.cpp.
use mathlib.Core.Option.{Option, some}
use esp32_real_time_energy_c.Base.{
  ltb, ◌≤◌, ◌<◌, ◌++◌, [], ◌∷◌, ℕ, ◌≡◌, ◌≢◌, ◌⊎◌, inl, inr, refl, Bool, true, false, List, arith,
  length, Bool-cases,
}
use esp32_real_time_energy_c.Command.Types.{
  RemoteCommandType, RemoteCommandResult, RemoteCommandVerdict,
}
use esp32_real_time_energy_c.Command.{
  parse_remote_command, command_in_holdoff, mqtt_topic_cmd_reset, mqtt_topic_cmd_ack,
}
use esp32_real_time_energy_c.Command.Parsing.{Asks}
use esp32_real_time_energy_c.Command.Topics.{device_command-accepts}
use esp32_real_time_energy_c.Controller.Commands.{CommandType}
use esp32_real_time_energy_c.Controller.{
  Setup, App, remote_command, is_accepted, request_command, mqtt_callback,
}

abbrev pub own_command : Setup → Option (List ℕ) → Option (List ℕ) → ℕ → RemoteCommandResult
own_command setup topic payload size =
    parse_remote_command topic payload size (mqtt_topic_cmd_reset setup.device_id)
      (mqtt_topic_cmd_ack setup.device_id)

-- What a message asks this device for.
abbrev pub AsksDevice : Setup → RemoteCommandType → List ℕ → List ℕ → Type 0
AsksDevice setup type topic payload =
    Asks type topic payload (mqtt_topic_cmd_reset setup.device_id)
      (mqtt_topic_cmd_ack setup.device_id)

module _ {ℓ} {F : Type ℓ} (setup : Setup) where
  open setup use {device_id, command_queue_length, mqtt_command_holdoff_ms}

  abbrev pub holds_off : App F → ℕ → Bool
  holds_off app now_ms = command_in_holdoff now_ms app.subscribed_at_ms mqtt_command_holdoff_ms

  -- A message posts its command, or changes nothing.
  pub mqtt_callback-cases :
      (app : App F) (topic payload : Option (List ℕ)) (size now_ms : ℕ)
      → let b = mqtt_callback setup app topic payload size now_ms in
        let result = own_command setup topic payload size in
        ((b ≡ request_command setup app (remote_command result.type))
          × (result.verdict ≡ RemoteCommandVerdict.accepted)
          × (holds_off app now_ms ≡ false))
        ⊎ ((b ≡ app)
            × ((result.verdict ≢ RemoteCommandVerdict.accepted) ⊎ (holds_off app now_ms ≡ true)))
  unfolding mqtt_callback
  mqtt_callback-cases app topic payload size now_ms =
      elim (Bool-cases (is_accepted (own_command setup topic payload size).verdict)) [
        | inl a ↦ elim (Bool-cases (holds_off app now_ms)) [
          | inl h ↦ inr (rw (a, h), inr h)
          | inr h ↦ inl (rw (a, h), ground arith, h)
        ]
        | inr a ↦ inr (rw a, inl (ground arith))
      ]

  -- A command goes to the end of the command queue, or nothing changes if the queue is full.
  abbrev pub Posts : App F → CommandType → App F → Type ℓ
  Posts app type b =
      ((length app.command_queue < command_queue_length)
        × (b ≡ record app { command_queue = app.command_queue ++ (type ∷ []) }))
      ⊎ ((command_queue_length ≤ length app.command_queue) × (b ≡ app))

  request_command-Posts :
      (app : App F) (type : CommandType) → Posts app type (request_command setup app type)
  unfolding request_command
  request_command-Posts app type =
      elim (Bool-cases (ltb (length app.command_queue) command_queue_length)) [
        | inl room ↦ inl (ground (arith, room), rw room)
        | inr full ↦ inr (ground (arith, full), rw full)
      ]

  posted_command :
      (app b : App F) (topic payload : List ℕ) (type : RemoteCommandType) (now_ms : ℕ)
      → AsksDevice setup type topic payload
      → holds_off app now_ms ≡ false
      → b ≡ request_command setup app (remote_command type)
      → (AsksDevice setup RemoteCommandType.reset topic payload
          × (holds_off app now_ms ≡ false)
          × Posts app CommandType.remote_reset b)
        ⊎ (AsksDevice setup RemoteCommandType.ack topic payload
            × (holds_off app now_ms ≡ false)
            × Posts app CommandType.remote_ack b)
        ⊎ ((b ≡ app)
            × ((holds_off app now_ms ≡ true)
                ⊎ ((t : RemoteCommandType) → ¬ (AsksDevice setup t topic payload))))
  posted_command app b topic payload RemoteCommandType.none now_ms asks h same = absurd asks
  posted_command app b topic payload RemoteCommandType.reset now_ms asks h same =
      rw same (inl (asks, h, request_command-Posts app CommandType.remote_reset))
  posted_command app b topic payload RemoteCommandType.ack now_ms asks h same =
      rw same (inr (inl (asks, h, request_command-Posts app CommandType.remote_ack)))

  -- A message that asks this device, byte for byte, for `reset` on the device's reset topic posts a
  -- remote reset, and one that asks for `ack` on its acknowledge topic a remote acknowledgement, outside
  -- the hold-off after the subscription: the command goes to the end of the command queue, or is lost if
  -- the queue is full. In the hold-off, and for any other message, nothing changes.
  pub mqtt_callback-Posts :
      (app : App F) (topic payload : List ℕ) (now_ms : ℕ)
      → let b = mqtt_callback setup app (some topic) (some payload) (length payload) now_ms in
        (AsksDevice setup RemoteCommandType.reset topic payload
          × (holds_off app now_ms ≡ false)
          × Posts app CommandType.remote_reset b)
        ⊎ (AsksDevice setup RemoteCommandType.ack topic payload
            × (holds_off app now_ms ≡ false)
            × Posts app CommandType.remote_ack b)
        ⊎ ((b ≡ app)
            × ((holds_off app now_ms ≡ true)
                ⊎ ((type : RemoteCommandType) → ¬ (AsksDevice setup type topic payload))))
  mqtt_callback-Posts app topic payload now_ms =
      let result = own_command setup (some topic) (some payload) (length payload) in
      let b = mqtt_callback setup app (some topic) (some payload) (length payload) now_ms in
      elim (mqtt_callback-cases app (some topic) (some payload) (length payload) now_ms) [
        | inl (same, a, h) ↦
            posted_command app b topic payload result.type now_ms
              ((device_command-accepts device_id topic payload result.type).0 (a, refl)) h same
        | inr (same, inl a) ↦ inr (
            inr (
              same,
              inr (λ type asks. a ((device_command-accepts device_id topic payload type).1 asks).0),
            ))
        | inr (same, inr h) ↦ inr (inr (same, inl h))
      ]
