-- ===== src/Cli.antt =====
-- `cliTask` of src/main.cpp: the line editor of the serial console and what its commands do.
pub mod Buffer
pub mod Line
pub mod Typing
mod Tests
use mathlib.Core.Option.{Option, none, some}
use esp32_real_time_energy_c.Base.{
  ℕ, ◌+◌, ◌-◌, Bool, true, false, not, ◌&&◌, ◌||◌, List, [], ◌∷◌, ◌++◌, ltb, ◌==◌, if◌then◌else◌,
  set, replicate,
}
use esp32_real_time_energy_c.Controller.{Setup, App, request_command}
use esp32_real_time_energy_c.Controller.Commands.{CommandType, diagnostics_parse_command}

abbrev pub cli_buffer_size : ℕ
cli_buffer_size = 40

-- The variables of the task.
pub record CliState : Type 0 where
  pub buffer : List ℕ
  pub index : ℕ
  pub overflow : Bool

-- What a line comes to: an error message, or a command and the line that it was parsed from.
pub data Outcome : Type 0 where
  too_long : Outcome
  parsed : CommandType → List ℕ → Outcome

abbrev pub initial_cli : CliState
initial_cli = record { buffer = replicate cli_buffer_size 0; index = 0; overflow = false }

-- The bytes of an array up to the first NUL.
abbrev pub c_string : List ℕ → List ℕ
c_string [] = []
c_string (c ∷ s) = let rest = c_string s in if c == 0 then [] else c ∷ rest

abbrev pub is_newline : ℕ → Bool
is_newline c = c == 13 || c == 10

abbrev pub is_backspace : ℕ → Bool
is_backspace c = c == 8 || c == 127

abbrev pub is_unprintable : ℕ → Bool
is_unprintable c = ltb c 32 || ltb 126 c

abbrev pub parsed_line : List ℕ → Outcome
parsed_line line = parsed (diagnostics_parse_command line) line

-- the branch for `\r` and `\n`
unfoldable pub finish_line : CliState → CliState × Option Outcome
finish_line s =
    let ended = set s.buffer s.index 0 in
    if s.index == 0 && not s.overflow
    then (s, none)
    else if s.overflow
    then (record { buffer = s.buffer; index = 0; overflow = false }, some too_long)
    else (
      record { buffer = ended; index = 0; overflow = false },
      some (parsed_line (c_string ended)),
    )

-- One byte from the serial port.
unfoldable pub press : CliState → ℕ → CliState × Option Outcome
unfolding finish_line
press s c =
    if is_newline c
    then finish_line s
    else if is_backspace c
    then (if ltb 0 s.index then record s { index = s.index - 1 } else s, none)
    else if is_unprintable c
    then (s, none)
    else if ltb s.index (cli_buffer_size - 1)
    then (record s { buffer = set s.buffer s.index c; index = s.index + 1 }, none)
    else (record s { overflow = true }, none)

abbrev pub with_outcome : Option Outcome → List Outcome → List Outcome
with_outcome none outcomes = outcomes
with_outcome (some outcome) outcomes = outcome ∷ outcomes

-- The outcomes of the bytes, in order.
unfoldable pub read_bytes : CliState → List ℕ → List Outcome
unfolding press
read_bytes s [] = []
read_bytes s (c ∷ cs) = with_outcome (press s c).1 (read_bytes (press s c).0 cs)

-- the `switch`: `reset` and `ack` go to ControlTask, all else only prints
unfoldable pub carry_out_line {ℓ} : {F : Type ℓ} → Setup → App F → Outcome → App F
unfolding request_command
carry_out_line setup app (parsed CommandType.reset line) =
    request_command setup app CommandType.reset
carry_out_line setup app (parsed CommandType.ack line) = request_command setup app CommandType.ack
carry_out_line setup app _ = app

unfoldable pub carry_out_lines {ℓ} : {F : Type ℓ} → Setup → App F → List Outcome → App F
unfolding carry_out_line
carry_out_lines setup app [] = app
carry_out_lines setup app (o ∷ os) = carry_out_lines setup (carry_out_line setup app o) os
