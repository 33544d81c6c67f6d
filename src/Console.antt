-- ===== src/Console.antt =====
-- The texts for people: the reports of src/diagnostics.cpp on the serial console, each a list of its
-- lines, and the frames of `displayTask` of src/main.cpp on the LCD.
pub mod Reports
pub mod Tables
pub mod Uptime
pub mod Help
pub mod Display
pub mod Columns
pub mod Tests
use esp32_real_time_energy_c.Base.{
  ℕ, ◌+◌, ◌-◌, zero, suc, Bool, List, [], ◌∷◌, ◌++◌, if◌then◌else◌, length,
}
use esp32_real_time_energy_c.Base.Text.{codes}
use esp32_real_time_energy_c.Telemetry.{u32_text}

-- `count` spaces
abbrev pub spaces : ℕ → List ℕ
spaces zero = []
spaces (suc count) = b' ' ∷ spaces count

-- `%-ws` and `%w.kf`: a text shorter than the width is filled with spaces.
unfoldable pub pad_right : ℕ → List ℕ → List ℕ
pad_right width s = s ++ spaces (width - length s)

unfoldable pub pad_left : ℕ → List ℕ → List ℕ
pad_left width s = spaces (width - length s) ++ s

-- an integer with its sign, as `rssi` is
pub data ℤ : Type 0 where
  pos negsuc : ℕ → ℤ

-- `%ld`
abbrev pub signed_text : ℤ → List ℕ
signed_text (pos n) = u32_text n
signed_text (negsuc n) = b'-' ∷ u32_text (n + 1)

abbrev pub choice : Bool → List ℕ → List ℕ → List ℕ
choice b yes_text no_text = if b then yes_text else no_text
