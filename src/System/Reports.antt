-- ===== src/System/Reports.antt =====
-- What the display and the telemetry of src/main.cpp tell of the samples.
use mathlib.Core.Option.{Option, none, some}
use esp32_real_time_energy_c.Base.{sym, subst, ◌≡◌, inl, inr, ap, ◌∙◌, Bool, true, false, [], arith}
use esp32_real_time_energy_c.Base.Float.{Float, IsIeee}
use esp32_real_time_energy_c.Measurement.{Measurement, empty_measurement}
use esp32_real_time_energy_c.Guard.{protection_begin}
use esp32_real_time_energy_c.Controller.{App, Moment}
use esp32_real_time_energy_c.Controller.Turns.{Created, app_begin}
use esp32_real_time_energy_c.Network.{World, NetworkSetup}
use esp32_real_time_energy_c.Network.Round.{copied_measurement}
use esp32_real_time_energy_c.Console.Display.{Fits}
use esp32_real_time_energy_c.Console.Columns.{
  PrintsShort, Shown, ranged-Fits, read_measurement-Shown,
}
use esp32_real_time_energy_c.System.{
  Firmware, System, Read, Step, reads, draws, supervises, latest_copy, network_step, display_step,
  supervisor_step, system_step, read_step, boot_system, Reached, boots, goes,
}
use esp32_real_time_energy_c.System.Samples.{IsCopy, Holds, step-Holds}

module _ {ℓ} {F : Type ℓ} ⦃fl : Float F⦄ (firmware : Firmware F) where
  open firmware use {flags, build, setup, protection_config}

  -- All samples that the tasks have, and their copies.
  record Tracks (s : System F) : Type ℓ where
    held : Holds firmware s.app
    network : IsCopy firmware s.readings.network_copy
    display : IsCopy firmware s.readings.display_copy

  begin-Holds :
      (created : Created) (at : Moment) (app : App F)
      → app_begin setup protection_config created at ≡ some app
      → Holds firmware app
  unfolding app_begin protection_begin
  begin-Holds created at app e =
      let latest : app.latest_measurement ≡ empty_measurement = ground (arith, e) in
      let queue : app.measurement_queue ≡ [] = ground (arith, e) in
      record { latest = inl latest; queued = rw queue tt }

  latest-IsCopy :
      (app : App F) (stored : Bool) → Holds firmware app → IsCopy firmware (latest_copy app stored)
  latest-IsCopy app true h = h.latest
  latest-IsCopy app false h = tt

  read_step-Tracks :
      (s : System F) (what : Read) → Tracks s → Tracks (system_step firmware s (reads what))
  unfolding system_step read_step
  read_step-Tracks s (Read.network_snapshot at) h = record {
    held = h.held;
    network = h.network;
    display = h.display;
  }
  read_step-Tracks s (Read.display_snapshot at) h = record {
    held = h.held;
    network = h.network;
    display = h.display;
  }
  read_step-Tracks s (Read.network_copy stored) h = record {
    held = h.held;
    network = latest-IsCopy s.app stored h.held;
    display = h.display;
  }
  read_step-Tracks s (Read.display_copy stored) h = record {
    held = h.held;
    network = h.network;
    display = latest-IsCopy s.app stored h.held;
  }
  read_step-Tracks s Read.network_relay h = record {
    held = h.held;
    network = h.network;
    display = h.display;
  }

  -- Steps that read nothing keep the readings.
  step-Tracks : (s : System F) (t : Step F) → Tracks s → Tracks (system_step firmware s t)
  unfolding system_step network_step display_step supervisor_step
  step-Tracks s (reads what) h = read_step-Tracks s what h
  step-Tracks s (supervises clocks seen) h = record {
    held = step-Holds firmware s (supervises clocks seen) h.held;
    network = ground (arith, h.network);
    display = ground (arith, h.display);
  }
  step-Tracks s t h = record {
    held = step-Holds firmware s t h.held;
    network = h.network;
    display = h.display;
  }

  Reached-Tracks : (s : System F) → Reached firmware s → Tracks s
  unfolding boot_system
  Reached-Tracks s (boots created at app world setup_ms started_ms e) = record {
    held = begin-Holds created at app e;
    network = tt;
    display = tt;
  }
  Reached-Tracks s (goes before t r) = step-Tracks before t (Reached-Tracks before r)

module _ {ℓ} {F : Type ℓ} ⦃fl : Float F⦄ (laws : IsIeee F) (prints : PrintsShort F)
    (firmware : Firmware F) where
  open firmware use {flags, build}

  copy-Shown :
      (world : World F) (net : NetworkSetup) (copy : Option (Measurement F))
      → IsCopy firmware copy
      → let m = copied_measurement world net copy in m.valid ≡ true → Shown laws prints m
  copy-Shown world net none i valid = absurd (ground (arith, valid))
  copy-Shown world net (some m) (inl e) valid = absurd (ground (arith, valid, ap (λ n. n.valid) e))
  copy-Shown world net (some m) (inr (answers, now_ms, e)) valid =
      subst (Shown laws prints) (sym e) (
        read_measurement-Shown laws prints flags answers now_ms (sym (ap (λ n. n.valid) e) ∙ valid))

  step-Fits :
      (s : System F) (t : Step F)
      → Tracks firmware s
      → Fits 0 s.screen
      → Fits 0 (system_step firmware s t).screen
  unfolding system_step network_step display_step supervisor_step
  step-Fits s draws h f =
      ranged-Fits laws prints build.measurement_source
        (copied_measurement s.world firmware.network_setup s.readings.display_copy)
        s.readings.display_snapshot
        (copy-Shown s.world firmware.network_setup s.readings.display_copy h.display)
  step-Fits s (supervises clocks seen) h f = ground (arith, f)
  step-Fits s _ h f = f

  -- In every state that the device comes to, every text on the display ends within its 16 columns and
  -- stands in one of its two rows, for comparisons as in IEEE 754 and a printf that prints a number from 0
  -- to a whole number of d digits, two or more, below 2^24 on at most d columns before its decimals.
  pub Reached-Fits : (s : System F) → Reached firmware s → Fits 0 s.screen
  unfolding boot_system
  Reached-Fits s (boots created at app world setup_ms started_ms e) = ground arith
  Reached-Fits s (goes before t r) =
      step-Fits before t (Reached-Tracks firmware before r) (Reached-Fits before r)
