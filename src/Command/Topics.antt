-- ===== src/Command/Topics.antt =====
-- The topic names of lib/energy_core/src/energy_topics.h.
use mathlib.Core.List.{append_cancel_left, append_cancel_right, reverse, reverse-append}
use mathlib.Core.Option.{some}
use esp32_real_time_energy_c.Base.{
  ℕ, ◌+◌, ◌≤◌, ◌<◌, ◌≡◌, ◌≢◌, ◌⊎◌, inl, inr, refl, ◌↔◌, true, List, [], ◌∷◌, ◌++◌, arith, length,
  length-append, All, ap, sym, ◌∙◌,
}
use esp32_real_time_energy_c.Base.Text.{codes}
use esp32_real_time_energy_c.Command.Types.{
  RemoteCommandType, RemoteCommandResult, reset, ack, accepted,
}
use esp32_real_time_energy_c.Command.{
  mqtt_topic_root, mqtt_topic_cmd_reset, mqtt_topic_cmd_ack, topic_segment_char_ok,
  topic_segment_valid, parse_remote_command,
}
use esp32_real_time_energy_c.Command.Parsing.{Asks, parse_remote_command-accepts}

abbrev pub IsSegmentByte : ℕ → Type 0
IsSegmentByte c = topic_segment_char_ok c ≡ true

segment_from :
    (s : List ℕ) (i : ℕ)
    → (topic_segment_valid s i ≡ true)
      ↔ ((0 < i + length s) × (i + length s ≤ 32) × All IsSegmentByte s)
unfolding topic_segment_valid
segment_from [] i = ground arith
segment_from (c ∷ s) i = ground (arith, segment_from s (i + 1))

-- The compile-time check accepts exactly the device identities of 1 to 32 bytes, each a letter, a
-- digit, an underscore or a dash.
pub topic_segment_valid_iff :
    (s : List ℕ)
    → (topic_segment_valid s 0 ≡ true) ↔ ((0 < length s) × (length s ≤ 32) × All IsSegmentByte s)
topic_segment_valid_iff s = ground (arith, segment_from s 0)

pub reset-ne-ack :
    (device_id : List ℕ) → mqtt_topic_cmd_reset device_id ≢ mqtt_topic_cmd_ack device_id
unfolding mqtt_topic_cmd_reset mqtt_topic_cmd_ack
reset-ne-ack device_id e =
    let root = mqtt_topic_root device_id in
    omega (
      arith,
      ap length e,
      length-append root (codes "/cmd/reset"),
      length-append root (codes "/cmd/ack"),
    )

-- So a device takes exactly `reset` on its own reset topic and `ack` on its own acknowledge topic.
pub device_command-accepts :
    (device_id topic payload : List ℕ) (type : RemoteCommandType)
    → let result =
        parse_remote_command
          (some topic)
          (some payload)
          (length payload)
          (mqtt_topic_cmd_reset device_id)
          (mqtt_topic_cmd_ack device_id) in
      (result.verdict ≡ accepted) × (result.type ≡ type)
      ↔ Asks type topic payload (mqtt_topic_cmd_reset device_id) (mqtt_topic_cmd_ack device_id)
device_command-accepts device_id topic payload type =
    (parse_remote_command-accepts topic payload (mqtt_topic_cmd_reset device_id)
      (mqtt_topic_cmd_ack device_id) type (reset-ne-ack device_id)).0

same_suffix :
    (a b suffix : List ℕ) → mqtt_topic_root a ++ suffix ≡ mqtt_topic_root b ++ suffix → a ≡ b
same_suffix a b suffix e =
    append_cancel_left (codes "energy/") a b
      (append_cancel_right (mqtt_topic_root a) (mqtt_topic_root b) suffix e)

abbrev first_byte : List ℕ → ℕ
first_byte [] = 0
first_byte (c ∷ s) = c

-- The two command topics end in different letters.
reset-ne-foreign_ack : (a b : List ℕ) → mqtt_topic_cmd_reset a ≢ mqtt_topic_cmd_ack b
unfolding mqtt_topic_cmd_reset mqtt_topic_cmd_ack
reset-ne-foreign_ack a b e =
    let ends =
      sym (reverse-append (mqtt_topic_root a) (codes "/cmd/reset"))
      ∙ ap reverse e
      ∙ reverse-append (mqtt_topic_root b) (codes "/cmd/ack") in
    omega (arith, ap first_byte ends)

not-Asks :
    (own other topic payload : List ℕ) (type : RemoteCommandType)
    → own ≢ other
    → (topic ≡ mqtt_topic_cmd_reset other) ⊎ (topic ≡ mqtt_topic_cmd_ack other)
    → ¬ (Asks type topic payload (mqtt_topic_cmd_reset own) (mqtt_topic_cmd_ack own))
unfolding mqtt_topic_cmd_reset mqtt_topic_cmd_ack
not-Asks own other topic payload RemoteCommandType.none d from asked = asked
not-Asks own other topic payload reset d (inl e) (f, _) =
    d (same_suffix own other (codes "/cmd/reset") (sym f ∙ e))
not-Asks own other topic payload reset d (inr e) (f, _) = reset-ne-foreign_ack own other (sym f ∙ e)
not-Asks own other topic payload ack d (inl e) (f, _) = reset-ne-foreign_ack other own (sym e ∙ f)
not-Asks own other topic payload ack d (inr e) (f, _) =
    d (same_suffix own other (codes "/cmd/ack") (sym f ∙ e))

-- A device takes no command from the command topics of another device, whatever the payload.
pub foreign_command-rejected :
    (own other topic payload : List ℕ)
    → own ≢ other
    → (topic ≡ mqtt_topic_cmd_reset other) ⊎ (topic ≡ mqtt_topic_cmd_ack other)
    → (parse_remote_command
        (some topic)
        (some payload)
        (length payload)
        (mqtt_topic_cmd_reset own)
        (mqtt_topic_cmd_ack own)).verdict
      ≢ accepted
foreign_command-rejected own other topic payload d from ok =
    not-Asks own other topic payload result.type d from
      ((device_command-accepts own topic payload result.type).0 (ok, refl))
  where
    result : RemoteCommandResult
    result =
        parse_remote_command (some topic) (some payload) (length payload) (mqtt_topic_cmd_reset own)
          (mqtt_topic_cmd_ack own)
