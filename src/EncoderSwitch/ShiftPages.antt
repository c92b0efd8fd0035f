-- ===== src/EncoderSwitch/ShiftPages.antt =====
-- src/encoders.c: `run_shift_mode`, in which the switches of the encoders send notes. The display is left out.
use midi_fighter_twister_ope.Base.{
  ℕ, zero, suc, ◌+◌, ◌-◌, ◌*◌, Bool, true, false, if◌then◌else◌, u8, u16, bit_and, bit_or,
}
use midi_fighter_twister_ope.Midi.{midi_stream_raw_note}
use midi_fighter_twister_ope.Encoders.{assign}
use midi_fighter_twister_ope.Switches.{update_encoder_switch_state}
use midi_fighter_twister_ope.Device.{Device, EncoderSwitches, send}
use midi_fighter_twister_ope.EncoderSwitch.{has, with_keys}

-- `SHIFT_OFFSET`.
abbrev pub shift_offset : ℕ
shift_offset = 44

-- `state |= mask` or, with `~mask` in 16 bits, `state &= ~mask`.
abbrev pub put_bit : Bool → ℕ → ℕ → ℕ
put_bit true mask state = bit_or state mask
put_bit false mask state = bit_and state (0xffff - mask)

-- The state of a switch of a shift page, if the host has not taken it over.
unfoldable pub set_shift_state : ℕ → ℕ → Bool → EncoderSwitches → EncoderSwitches
set_shift_state page mask on keys =
    if has mask (keys.shift_mode_midi_override page) then keys else record keys {
      shift_mode_switch_state =
          assign keys.shift_mode_switch_state page
            (put_bit on mask (keys.shift_mode_switch_state page));
    }

-- The message and the state of a press or a release.
unfoldable pub shift_edge : ℕ → ℕ → ℕ → Bool → Device → Device
unfolding set_shift_state
shift_edge page i mask on d = with_keys (set_shift_state page mask on d.keys) (
    send
      (midi_stream_raw_note d.midi_system_channel (u8 (shift_offset + (i + page * 16))) on
        (if on then 127 else 0))
      d)

-- The body of the loop, and the loop with `n` rounds left.
unfoldable pub shift_switch : ℕ → ℕ → ℕ → Device → Device
unfolding shift_edge
shift_switch page i mask d =
    if has mask d.keys.input.switch_down
    then shift_edge page i mask true d
    else if has mask d.keys.input.switch_up
    then shift_edge page i mask false d
    else d

unfoldable pub each_shift_switch : ℕ → ℕ → ℕ → ℕ → Device → Device
unfolding shift_switch
each_shift_switch page zero i mask d = d
each_shift_switch page (suc n) i mask d =
    each_shift_switch page n (i + 1) (u16 (mask * 2)) (shift_switch page i mask d)

unfoldable pub run_shift_mode : ℕ → Device → Device
run_shift_mode page d =
    let input = update_encoder_switch_state d.keys.input in
    each_shift_switch page 16 0 1 record d {
      keys = record d.keys { input = input };
      encoders = record d.encoders { enc_switch_state = input.switch_state };
    }
