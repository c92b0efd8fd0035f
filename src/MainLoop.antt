-- ===== src/MainLoop.antt =====
-- src/main.c: a pass of `Midifighter_Task` over the inputs. `update_encoder_display` and `sleep_frame` only draw,
-- and so does clearing the display. The sequencer is not compiled.
pub mod Reachable
use midi_fighter_twister_ope.Base.{ℕ, ◌*◌, Bool, true, not, ◌&&◌, ltb, leb, if◌then◌else◌}
use midi_fighter_twister_ope.Device.{Device, OpMode, startup, normal, shift1, shift2, sequencer}
use midi_fighter_twister_ope.EncoderSwitch.Input.{process_encoder_input}
use midi_fighter_twister_ope.EncoderSwitch.ShiftPages.{run_shift_mode}
use midi_fighter_twister_ope.SideSwitch.{process_side_switch_input}

-- `timeout_ms`; minutes are a byte, so that the product fits 32 bits.
unfoldable pub fall_asleep : Device → Device
fall_asleep d =
    if ltb 0 d.sleep_timeout_minutes
      && not d.sleep_mode_active
      && leb (d.sleep_timeout_minutes * 60000) d.idle_timer
    then record d { sleep_mode_active = true }
    else d

module _ (convert_ticks : ℕ → ℕ → ℕ) (secondary : ℕ → ℕ) (global_super_knob_start : ℕ) where
  -- The switch on the mode, with the movements of the encoders, their counts of cycles, and the levels of the pins
  -- of the side switches.
  unfoldable pub run_mode : OpMode → (ℕ → ℕ) → (ℕ → ℕ) → (ℕ → Bool) → Device → Device
  unfolding fall_asleep process_encoder_input process_side_switch_input run_shift_mode
  run_mode startup movement cycle_count level d = d
  run_mode normal movement cycle_count level d = process_side_switch_input level (
      process_encoder_input convert_ticks secondary global_super_knob_start movement cycle_count
        (fall_asleep d))
  run_mode shift1 movement cycle_count level d =
      process_side_switch_input level (run_shift_mode 0 d)
  run_mode shift2 movement cycle_count level d =
      process_side_switch_input level (run_shift_mode 1 d)
  run_mode sequencer movement cycle_count level d = d

  unfoldable pub midifighter_task : (ℕ → ℕ) → (ℕ → ℕ) → (ℕ → Bool) → Device → Device
  unfolding run_mode
  midifighter_task movement cycle_count level d = run_mode d.mode movement cycle_count level d
