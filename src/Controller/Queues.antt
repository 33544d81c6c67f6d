-- ===== src/Controller/Queues.antt =====
-- The two queues of src/main.cpp, over any turns.
use esp32_real_time_energy_c.Base.{
  ℕ, ◌≤◌, ◌≡◌, inl, inr, refl, ap, List, [], ◌∷◌, arith, length, length-append,
}
use esp32_real_time_energy_c.Base.Float.{Float}
use esp32_real_time_energy_c.Measurement.{Measurement}
use esp32_real_time_energy_c.Controller.Commands.{CommandType}
use esp32_real_time_energy_c.Controller.{
  drive_safe_output, Setup, App, Moment, queue_send, sensor_turn, request_command,
  apply_protection_result, control_measurement, control_turn, command_turn,
}
use esp32_real_time_energy_c.Controller.Turns.{
  Turn, senses, controls, executes, requests, receives, subscribes, stops, turn, run_turns,
}
use esp32_real_time_energy_c.Controller.Remote.{mqtt_callback-cases}

-- No queue is longer than it was made.
pub record QueuesFit {ℓ} {F : Type ℓ} (setup : Setup) (app : App F) : Type 0 where
  pub measurements : length app.measurement_queue ≤ setup.measurement_queue_length
  pub commands : length app.command_queue ≤ setup.command_queue_length

length-queue_send {ℓ} :
    {A : Type ℓ}
    → (capacity : ℕ) (item : A) (queue : List A) → length queue ≤ capacity
    → length (queue_send capacity item queue) ≤ capacity
length-queue_send capacity item queue h = ground (arith, length-append queue (item ∷ []))

module _ {ℓ} {F : Type ℓ} ⦃fl : Float F⦄ (setup : Setup) where
  -- A pass takes the first command off.
  pub command_turn-queue :
      (app : App F) (type : CommandType) (rest : List CommandType) (at : Moment)
      → (command_turn setup app (type ∷ rest) at).command_queue ≡ rest
  unfolding command_turn
  command_turn-queue app type rest at = ground arith

  command_turn-measurements :
      (app : App F) (queue : List CommandType) (at : Moment)
      → (command_turn setup app queue at).measurement_queue ≡ app.measurement_queue
  unfolding command_turn
  command_turn-measurements app [] at = refl
  command_turn-measurements app (type ∷ rest) at = ground arith

  pub control-commands :
      (app : App F) (queue : List (Measurement F)) (at : Moment)
      → (control_measurement setup app queue at).command_queue ≡ app.command_queue
  unfolding control_measurement apply_protection_result
  control-commands app [] at = refl
  control-commands app (m ∷ rest) at = refl

  control-measurements :
      (app : App F) (queue : List (Measurement F)) (at : Moment)
      → app.measurement_queue ≡ queue
      → length (control_measurement setup app queue at).measurement_queue ≤ length queue
  unfolding control_measurement apply_protection_result
  control-measurements app [] at e = ground (arith, ap length e)
  control-measurements app (m ∷ rest) at e = ground arith

  command_turn-shorter :
      (app : App F) (queue : List CommandType) (at : Moment)
      → app.command_queue ≡ queue
      → length (command_turn setup app queue at).command_queue ≤ length queue
  unfolding command_turn
  command_turn-shorter app [] at e = ground (arith, ap length e)
  command_turn-shorter app (type ∷ rest) at e =
      ground (arith, ap length (command_turn-queue app type rest at))

  turn-QueuesFit :
      (app : App F) (t : Turn F) → QueuesFit setup app → QueuesFit setup (turn setup app t)
  unfolding turn sensor_turn request_command control_turn drive_safe_output
  turn-QueuesFit app (senses m stored) h = record {
    measurements =
        length-queue_send setup.measurement_queue_length m app.measurement_queue h.measurements;
    commands = h.commands;
  }
  turn-QueuesFit app (controls at) h = record {
    measurements =
        ground (arith, control-measurements app app.measurement_queue at refl, h.measurements);
    commands =
        ground (arith, ap length (control-commands app app.measurement_queue at), h.commands);
  }
  turn-QueuesFit app (executes at) h = record {
    measurements =
        ground
          (arith, ap length (command_turn-measurements app app.command_queue at), h.measurements);
    commands = ground (arith, command_turn-shorter app app.command_queue at refl, h.commands);
  }
  turn-QueuesFit app (requests type) h = record {
    measurements = h.measurements;
    commands = length-queue_send setup.command_queue_length type app.command_queue h.commands;
  }
  turn-QueuesFit app (receives topic payload size now_ms) h =
      elim (mqtt_callback-cases setup app topic payload size now_ms) [
        | inl (posts, _, _) ↦ rw posts (record {
          measurements = h.measurements;
          commands = length-queue_send setup.command_queue_length _ app.command_queue h.commands;
        })
        | inr (stays, _) ↦ rw stays h
      ]
  turn-QueuesFit app (stops seen) h = record {
    measurements = h.measurements;
    commands = h.commands;
  }
  turn-QueuesFit app (subscribes now_ms) h = record {
    measurements = h.measurements;
    commands = h.commands;
  }

  -- No turns make a queue longer than it was made.
  pub run_turns-QueuesFit :
      (app : App F) (ts : List (Turn F))
      → QueuesFit setup app
      → QueuesFit setup (run_turns setup app ts)
  unfolding run_turns
  run_turns-QueuesFit app [] h = h
  run_turns-QueuesFit app (t ∷ ts) h =
      run_turns-QueuesFit (turn setup app t) ts (turn-QueuesFit app t h)
