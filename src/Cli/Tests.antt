-- ===== src/Cli/Tests.antt =====
-- Lines typed at the console of src/main.cpp.
use esp32_real_time_energy_c.Base.{ℕ, ◌≡◌, refl, List, [], ◌∷◌, ◌++◌, replicate}
use esp32_real_time_energy_c.Base.Text.{codes}
use esp32_real_time_energy_c.Controller.Commands.{CommandType, diagnostics_parse_command}
use esp32_real_time_energy_c.Cli.{too_long, parsed, initial_cli, read_bytes}
use esp32_real_time_energy_c.Cli.Line.{empty_line, edit_all, read_bytes-edits}

-- a mistyped letter that is taken back, and a line of 40 bytes
abbrev session : List ℕ
session = codes "acj" ++ (127 ∷ b'k' ∷ 13 ∷ 10 ∷ (replicate 40 b'x' ++ (10 ∷ codes "help")))

session_outcomes :
    read_bytes initial_cli session ≡ parsed CommandType.ack (codes "ack") ∷ too_long ∷ []
unfolding read_bytes diagnostics_parse_command
session_outcomes = refl

read_bytes-edits_example : read_bytes initial_cli session ≡ edit_all empty_line session
read_bytes-edits_example = read_bytes-edits session
