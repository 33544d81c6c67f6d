-- ===== src/Command/Tests.antt =====
-- Messages to the device of src/config.example.h.
use mathlib.Core.Option.{some}
use esp32_real_time_energy_c.Base.{ℕ, ◌≡◌, ◌≢◌, refl, ap, List, arith, length}
use esp32_real_time_energy_c.Base.Text.{codes}
use esp32_real_time_energy_c.Command.Types.{RemoteCommandVerdict, accepted, rejected_length}
use esp32_real_time_energy_c.Command.{
  parse_remote_command, mqtt_topic_cmd_reset, mqtt_topic_cmd_ack,
}

abbrev device : List ℕ
device = codes "device01"

abbrev receive : List ℕ → List ℕ → RemoteCommandVerdict
receive topic payload =
    (parse_remote_command (some topic) (some payload) (length payload) (mqtt_topic_cmd_reset device)
      (mqtt_topic_cmd_ack device)).verdict

verdicts :
    (receive (codes "energy/device01/cmd/reset") (codes "reset") ≡ accepted)
    × (receive (codes "energy/device01/cmd/ack") (codes "ack") ≡ accepted)
    × (receive (codes "energy/device01/cmd/ack") (codes "acknowledge please") ≡ rejected_length)
unfolding parse_remote_command mqtt_topic_cmd_reset mqtt_topic_cmd_ack
verdicts = (refl, refl, refl)

names-ne : codes "a" ≢ codes "bb"
names-ne e = omega (arith, ap length e)
