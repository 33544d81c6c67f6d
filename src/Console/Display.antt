-- ===== src/Console/Display.antt =====
-- `displayTask` of src/main.cpp: the calls on the LCD in a round.
use esp32_real_time_energy_c.Base.{
  ℕ, ◌+◌, ◌≤◌, ◌<◌, Bool, true, false, List, [], ◌∷◌, ◌++◌, if◌then◌else◌, length,
}
use esp32_real_time_energy_c.Base.Float.{Float}
use esp32_real_time_energy_c.Base.Text.{codes}
use esp32_real_time_energy_c.Measurement.{Measurement, MeasurementSource, pzem, simulation}
use esp32_real_time_energy_c.Protection.Types.{ProtectionSnapshot, SystemState, system_state_name}
use esp32_real_time_energy_c.Console.{pad_left}

-- `lcd.clear()`, `lcd.setCursor(column, row)`, and `lcd.print` or `lcd.printf` of a text
pub data LcdCall : Type 0 where
  clear : LcdCall
  set_cursor : (column row : ℕ) → LcdCall
  print : List ℕ → LcdCall

-- LCD_COLUMNS and LCD_ROWS of config.h
abbrev pub lcd_columns : ℕ
lcd_columns = 16

abbrev pub lcd_rows : ℕ
lcd_rows = 2

abbrev marks_simulation : MeasurementSource → Bool
marks_simulation simulation = true
marks_simulation pzem = false

module _ {ℓ} {F : Type ℓ} ⦃fl : Float F⦄ where
  open fl use {format, le, literal}

  abbrev pub voltage_and_current : Measurement F → List ℕ
  voltage_and_current m =
      codes "V:"
      ++ pad_left 5 (format 1 m.voltage)
      ++ codes " I:"
      ++ pad_left 4 (format 2 m.current)

  abbrev pub power_and_state : Measurement F → SystemState → List ℕ
  power_and_state m state =
      codes "P:" ++ pad_left 5 (format 0 m.power) ++ codes " " ++ system_state_name state

  abbrev pub measurement_calls : Measurement F → SystemState → List LcdCall
  measurement_calls m state =
      if m.valid
      then set_cursor 0 0
        ∷ print (voltage_and_current m)
        ∷ set_cursor 0 1
        ∷ print (power_and_state m state)
        ∷ []
      else set_cursor 0 0
        ∷ print (codes "Sensor Error")
        ∷ set_cursor 0 1
        ∷ print (codes "Check PZEM")
        ∷ []

  -- A round, from the active source, the copy of the latest sample and the snapshot.
  unfoldable pub display_round :
      MeasurementSource → Measurement F → ProtectionSnapshot → List LcdCall
  display_round source m protection =
      clear
      ∷ ((if marks_simulation source then set_cursor 15 0 ∷ print (codes "S") ∷ [] else [])
          ++ measurement_calls m protection.state)

-- What `setup` shows. `lcd.init`, which clears the display, stands as `clear`.
abbrev pub boot_calls : List LcdCall
boot_calls =
    clear
    ∷ set_cursor 0 0
    ∷ print (codes "RT Energy Ctrl")
    ∷ set_cursor 0 1
    ∷ print (codes "Booting...")
    ∷ []

-- From a column on, every text ends on the display, and every row exists.
abbrev pub Fits : ℕ → List LcdCall → Type 0
Fits column [] = Unit
Fits column (clear ∷ calls) = Fits 0 calls
Fits column (set_cursor to row ∷ calls) = (row < lcd_rows) × Fits to calls
Fits column (print s ∷ calls) = (column + length s ≤ lcd_columns) × Fits (column + length s) calls
