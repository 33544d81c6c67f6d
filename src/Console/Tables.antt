-- ===== src/Console/Tables.antt =====
-- The reports of src/diagnostics.cpp with a line for each task, and the one on the firmware.
use mathlib.Core.Option.{Option, none, some}
use esp32_real_time_energy_c.Base.{ℕ, zero, suc, ◌+◌, ◌==◌, List, [], ◌∷◌, ◌++◌, if◌then◌else◌}
use esp32_real_time_energy_c.Base.Text.{codes}
use esp32_real_time_energy_c.Measurement.{measurement_source_name}
use esp32_real_time_energy_c.Actuator.{BuildMode, actuator_relay_output_enabled}
use esp32_real_time_energy_c.Telemetry.{u32_text}
use esp32_real_time_energy_c.Heartbeat.{heartbeat_never}
use esp32_real_time_energy_c.Watchdog.{
  Watchdog, heartbeat_count, watchdog_manager_heartbeat_name, watchdog_manager_heartbeat_age,
}
use esp32_real_time_energy_c.Console.{pad_right, choice}
use esp32_real_time_energy_c.Console.Reports.{rule}

-- The identity of the firmware in config.h, and what the system functions return.
pub record Firmware : Type 0 where
  pub name : List ℕ
  pub version : List ℕ
  pub build : List ℕ
  pub cpu_mhz : ℕ
  pub free_heap : ℕ
  pub min_free_heap : ℕ

-- What the kernel tells of a task behind its handle.
pub record TaskInfo : Type 0 where
  pub state : ℕ
  pub priority : ℕ
  pub stack_free : ℕ

unfoldable pub diagnostics_print_version : BuildMode → Firmware → List (List ℕ)
diagnostics_print_version mode firmware =
    []
    ∷ codes "=========== FIRMWARE =================="
    ∷ (codes "Firmware         : " ++ firmware.name)
    ∷ (codes "Version          : " ++ firmware.version)
    ∷ (codes "Build            : " ++ firmware.build)
    ∷ (codes "Source           : " ++ measurement_source_name mode.measurement_source)
    ∷ (codes "Relay output     : "
        ++ choice (actuator_relay_output_enabled mode.relay_output_mode) (codes "ENABLED")
            (codes "DISABLED (simulation)"))
    ∷ (codes "CPU              : " ++ u32_text firmware.cpu_mhz ++ codes " MHz")
    ∷ (codes "Free Heap        : " ++ u32_text firmware.free_heap ++ codes " bytes")
    ∷ (codes "Minimum Free Heap: " ++ u32_text firmware.min_free_heap ++ codes " bytes")
    ∷ rule
    ∷ []

-- `taskHandles`, `none` for a null handle
abbrev pub initial_task_handles : List (Option TaskInfo)
initial_task_handles = none ∷ none ∷ none ∷ none ∷ none ∷ none ∷ []

-- `taskNames`
abbrev pub task_names : List (List ℕ)
task_names =
    codes "SensorTask"
    ∷ codes "ControlTask"
    ∷ codes "DisplayTask"
    ∷ codes "NetworkTask"
    ∷ codes "WatchdogTask"
    ∷ codes "CliTask"
    ∷ []

abbrev pub diagnostics_set_task_handles :
    (sensor control display network watchdog cli : Option TaskInfo) → List (Option TaskInfo)
diagnostics_set_task_handles sensor control display network watchdog cli =
    sensor ∷ control ∷ display ∷ network ∷ watchdog ∷ cli ∷ []

-- a pass of the loop in `diagnosticsPrintTasks`
abbrev pub task_line : List ℕ → Option TaskInfo → List ℕ
task_line name none = pad_right 14 name ++ codes " : NOT CREATED"
task_line name (some task) =
    pad_right 14 name
    ++ codes " | state="
    ++ u32_text task.state
    ++ codes " | priority="
    ++ u32_text task.priority
    ++ codes " | stack_free="
    ++ u32_text task.stack_free

abbrev task_lines : List (List ℕ) → List (Option TaskInfo) → List (List ℕ)
task_lines (name ∷ names) (handle ∷ handles) = task_line name handle ∷ task_lines names handles
task_lines _ _ = []

unfoldable pub diagnostics_print_tasks : List (Option TaskInfo) → List (List ℕ)
diagnostics_print_tasks handles =
    []
    ∷ codes "============= RTOS TASKS ==============="
    ∷ (task_lines task_names handles ++ (rule ∷ []))

-- a pass of the loop in `diagnosticsPrintWatchdog`
abbrev pub heartbeat_line : ℕ → ℕ → List ℕ
heartbeat_line id age =
    if age == heartbeat_never
    then pad_right 14 (watchdog_manager_heartbeat_name id) ++ codes " : NO HEARTBEAT"
    else pad_right 14 (watchdog_manager_heartbeat_name id)
      ++ codes " : "
      ++ u32_text age
      ++ codes " ms ago"

-- `left` passes from the heartbeat `id`; `clock id` is the time that its pass reads.
unfoldable pub heartbeat_lines : Watchdog → (ℕ → ℕ) → ℕ → ℕ → List (List ℕ)
heartbeat_lines w clock zero id = []
heartbeat_lines w clock (suc left) id =
    heartbeat_line id (watchdog_manager_heartbeat_age w id (clock id))
    ∷ heartbeat_lines w clock left (id + 1)

unfoldable pub diagnostics_print_watchdog : ℕ → ℕ → Watchdog → (ℕ → ℕ) → List (List ℕ)
unfolding heartbeat_lines
diagnostics_print_watchdog watchdog_timeout_ms heartbeat_timeout_ms w clock =
    []
    ∷ codes "=========== WATCHDOG ==================="
    ∷ (codes "TWDT Timeout     : " ++ u32_text watchdog_timeout_ms ++ codes " ms")
    ∷ (codes "Heartbeat Limit  : " ++ u32_text heartbeat_timeout_ms ++ codes " ms")
    ∷ (codes "TWDT reg. failed : " ++ u32_text w.registration_failures)
    ∷ (heartbeat_lines w clock heartbeat_count 0 ++ (rule ∷ []))
