-- ===== src/Controller/Commands.antt =====
-- The commands of src/diagnostics.h and their names in src/diagnostics.cpp.
use mathlib.Core.Option.{Option, some}
use esp32_real_time_energy_c.Base.{
  subst, sym, ◌∙◌, ◌↔◌, ℕ, ◌≡◌, ◌≢◌, ◌⊎◌, inl, inr, List, arith, if◌then◌else◌,
}
use esp32_real_time_energy_c.Base.Text.{codes, same_bytes, same_bytes→eq}

pub data CommandType : Type 0 where
  none help status measure fault watchdog tasks uptime reset ack version : CommandType
  remote_reset remote_ack : CommandType

unfoldable pub diagnostics_parse_command : List ℕ → CommandType
diagnostics_parse_command command =
    if same_bytes command (codes "help")
    then help
    else if same_bytes command (codes "status")
    then status
    else if same_bytes command (codes "measure")
    then measure
    else if same_bytes command (codes "fault")
    then fault
    else if same_bytes command (codes "watchdog")
    then watchdog
    else if same_bytes command (codes "tasks")
    then tasks
    else if same_bytes command (codes "uptime")
    then uptime
    else if same_bytes command (codes "reset")
    then reset
    else if same_bytes command (codes "ack")
    then ack
    else if same_bytes command (codes "version")
    then version
    else none

-- What an operator types for a command. The remote commands cannot be typed.
abbrev pub command_name : CommandType → Option (List ℕ)
command_name help = some (codes "help")
command_name status = some (codes "status")
command_name measure = some (codes "measure")
command_name fault = some (codes "fault")
command_name watchdog = some (codes "watchdog")
command_name tasks = some (codes "tasks")
command_name uptime = some (codes "uptime")
command_name reset = some (codes "reset")
command_name ack = some (codes "ack")
command_name version = some (codes "version")
command_name _ = Option.none

-- A parsed command was typed by its name.
parsed_name :
    (command : List ℕ)
    → (diagnostics_parse_command command ≡ none)
      ⊎ (command_name (diagnostics_parse_command command) ≡ some command)
unfolding diagnostics_parse_command
parsed_name command = ground (
  arith,
  same_bytes→eq command (codes "help"),
  same_bytes→eq command (codes "status"),
  same_bytes→eq command (codes "measure"),
  same_bytes→eq command (codes "fault"),
  same_bytes→eq command (codes "watchdog"),
  same_bytes→eq command (codes "tasks"),
  same_bytes→eq command (codes "uptime"),
  same_bytes→eq command (codes "reset"),
  same_bytes→eq command (codes "ack"),
  same_bytes→eq command (codes "version"),
)

named_parses :
    (command : List ℕ) (type : CommandType)
    → command_name type ≡ some command
    → diagnostics_parse_command command ≡ type
unfolding diagnostics_parse_command
named_parses command type e = ground arith

-- A line is parsed as a command exactly if it is that command's name, byte for byte; so no line is
-- parsed as a remote command.
pub diagnostics_parse_command_iff :
    (command : List ℕ) (type : CommandType)
    → type ≢ none
    → (diagnostics_parse_command command ≡ type) ↔ (command_name type ≡ some command)
diagnostics_parse_command_iff command type d = (
  λ e. elim (parsed_name command) [
    | inl unknown ↦ absurd (d (sym e ∙ unknown))
    | inr named ↦ subst (λ t. command_name t ≡ some command) e named
  ],
  named_parses command type,
)
