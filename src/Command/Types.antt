-- ===== src/Command/Types.antt =====
-- The enumerations and the structure of lib/energy_core/src/remote_command.h, and the names of
-- lib/energy_core/src/remote_command.cpp.
use esp32_real_time_energy_c.Base.{ℕ, List}
use esp32_real_time_energy_c.Base.Text.{codes}

pub data RemoteCommandType : Type 0 where
  none reset ack : RemoteCommandType

pub data RemoteCommandVerdict : Type 0 where
  accepted rejected_topic rejected_payload rejected_length rejected_holdoff : RemoteCommandVerdict

pub record RemoteCommandResult : Type 0 where
  pub verdict : RemoteCommandVerdict
  pub type : RemoteCommandType

abbrev pub remote_command_verdict_name : RemoteCommandVerdict → List ℕ
remote_command_verdict_name accepted = codes "ACCEPTED"
remote_command_verdict_name rejected_topic = codes "REJECTED_TOPIC"
remote_command_verdict_name rejected_payload = codes "REJECTED_PAYLOAD"
remote_command_verdict_name rejected_length = codes "REJECTED_LENGTH"
remote_command_verdict_name rejected_holdoff = codes "REJECTED_HOLDOFF"
