-- ===== src/Command.antt =====
-- lib/energy_core/src/remote_command.h, remote_command.cpp and energy_topics.h: the topics of a device
-- and the commands that come in on them.
pub mod Types
pub mod Parsing
pub mod Topics
mod Tests
use mathlib.Core.Option.{Option, none, some}
use esp32_real_time_energy_c.Base.{
  ℕ, zero, suc, ◌+◌, ◌<◌, Bool, true, false, not, ◌&&◌, ◌||◌, List, [], ◌∷◌, ◌++◌, ltb, leb, ◌==◌,
  if◌then◌else◌, length, take,
}
use esp32_real_time_energy_c.Base.Words.{sub32}
use esp32_real_time_energy_c.Base.Text.{codes, same_bytes}
use Types.{
  RemoteCommandType, RemoteCommandVerdict, RemoteCommandResult, reset, ack, accepted,
  rejected_topic, rejected_payload, rejected_length,
}

-- `none` is a null pointer; else the bytes at the pointer. `memcmp` reads as many as are expected.
unfoldable pub payload_equals : Option (List ℕ) → ℕ → List ℕ → Bool
payload_equals none size expected = false
payload_equals (some payload) size expected =
    size == length expected && same_bytes (take (length expected) payload) expected

abbrev pub verdict : RemoteCommandVerdict → RemoteCommandType → RemoteCommandResult
verdict v t = record { verdict = v; type = t }

-- the part of `parseRemoteCommand` below the choice of the topic
unfoldable pub check_payload :
    RemoteCommandType → List ℕ → Option (List ℕ) → ℕ → RemoteCommandResult
unfolding payload_equals
check_payload type expected payload size =
    if ltb 16 size
    then verdict rejected_length RemoteCommandType.none
    else if not (payload_equals payload size expected)
    then verdict rejected_payload RemoteCommandType.none
    else verdict accepted type

unfoldable pub parse_remote_command :
    Option (List ℕ) → Option (List ℕ) → ℕ → List ℕ → List ℕ → RemoteCommandResult
unfolding check_payload
parse_remote_command none payload size reset_topic ack_topic =
    verdict rejected_topic RemoteCommandType.none
parse_remote_command (some topic) payload size reset_topic ack_topic =
    if same_bytes topic reset_topic
    then check_payload reset (codes "reset") payload size
    else if same_bytes topic ack_topic
    then check_payload ack (codes "ack") payload size
    else verdict rejected_topic RemoteCommandType.none

unfoldable pub command_in_holdoff : ℕ → ℕ → ℕ → Bool
command_in_holdoff now_ms subscribed_at_ms holdoff_ms =
    ltb (sub32 now_ms subscribed_at_ms) holdoff_ms

-- The topics of energy_topics.h, of the device identity.
abbrev pub mqtt_topic_root : List ℕ → List ℕ
mqtt_topic_root device_id = codes "energy/" ++ device_id

abbrev pub mqtt_topic_telemetry : List ℕ → List ℕ
mqtt_topic_telemetry device_id = mqtt_topic_root device_id ++ codes "/telemetry"

abbrev pub mqtt_topic_state : List ℕ → List ℕ
mqtt_topic_state device_id = mqtt_topic_root device_id ++ codes "/status/state"

abbrev pub mqtt_topic_fault : List ℕ → List ℕ
mqtt_topic_fault device_id = mqtt_topic_root device_id ++ codes "/fault/code"

abbrev pub mqtt_topic_availability : List ℕ → List ℕ
mqtt_topic_availability device_id = mqtt_topic_root device_id ++ codes "/status/availability"

unfoldable pub mqtt_topic_cmd_reset : List ℕ → List ℕ
mqtt_topic_cmd_reset device_id = mqtt_topic_root device_id ++ codes "/cmd/reset"

unfoldable pub mqtt_topic_cmd_ack : List ℕ → List ℕ
mqtt_topic_cmd_ack device_id = mqtt_topic_root device_id ++ codes "/cmd/ack"

unfoldable pub topic_segment_char_ok : ℕ → Bool
topic_segment_char_ok c =
    (leb b'a' c && leb c b'z')
    || (leb b'A' c && leb c b'Z')
    || (leb b'0' c && leb c b'9')
    || c == b'_'
    || c == b'-'

-- `topicSegmentValid(s, i)`, on the bytes from `s + i` on
unfoldable pub topic_segment_valid : List ℕ → ℕ → Bool
unfolding topic_segment_char_ok
topic_segment_valid [] i = ltb 0 i && leb i 32
topic_segment_valid (c ∷ s) i = ltb i 32 && topic_segment_char_ok c && topic_segment_valid s (i + 1)
