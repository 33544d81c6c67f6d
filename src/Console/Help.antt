-- ===== src/Console/Help.antt =====
-- `diagnosticsPrintHelp` and `diagnosticsParseCommand` of src/diagnostics.cpp agree.
use esp32_real_time_energy_c.Base.{
  zero, suc, suc, ℕ, ◌==◌, ◌≡◌, ◌≢◌, ◌↔◌, refl, Bool, true, false, ◌&&◌, ◌||◌, List, [], ◌∷◌,
  if◌then◌else◌, arith,
}
use esp32_real_time_energy_c.Base.Text.{codes, same_bytes}
use esp32_real_time_energy_c.Controller.Commands.{CommandType, diagnostics_parse_command}
use esp32_real_time_energy_c.Console.Reports.{diagnostics_print_help}

-- up to the first space
abbrev first_word : List ℕ → List ℕ
first_word [] = []
first_word (c ∷ cs) = let rest = first_word cs in if c == b' ' then [] else c ∷ rest

-- a line that describes a command has "- " from its column 11 on
abbrev describes : ℕ → List ℕ → Bool
describes zero (a ∷ b ∷ rest) = a == b'-' && b == b' '
describes (suc column) (_ ∷ rest) = describes column rest
describes _ _ = false

-- Does a line describe the command?
abbrev pub is_offered : List (List ℕ) → List ℕ → Bool
is_offered [] command = false
is_offered (line ∷ lines) command =
    let later = is_offered lines command in
    if describes 11 line then same_bytes command (first_word line) || later else later

abbrev any_name : List ℕ → Bool
any_name command =
    same_bytes command (codes "help")
    || (same_bytes command (codes "status")
        || (same_bytes command (codes "measure")
            || (same_bytes command (codes "fault")
                || (same_bytes command (codes "watchdog")
                    || (same_bytes command (codes "tasks")
                        || (same_bytes command (codes "uptime")
                            || (same_bytes command (codes "reset")
                                || (same_bytes command (codes "ack")
                                    || (same_bytes command (codes "version") || false)))))))))

offered_names : (command : List ℕ) → is_offered diagnostics_print_help command ≡ any_name command
unfolding diagnostics_print_help
offered_names command = refl

-- The help describes exactly the commands that the parser understands, whatever is typed.
pub diagnostics_print_help-offers :
    (command : List ℕ)
    → (is_offered diagnostics_print_help command ≡ true)
      ↔ (diagnostics_parse_command command ≢ CommandType.none)
unfolding diagnostics_parse_command
diagnostics_print_help-offers command = ground (arith, offered_names command)
