-- ===== src/EncoderSwitch.antt =====
-- src/encoders.c: what the switches of the encoders do, action by action. The overlay of the selection of a
-- bank only draws.
pub mod Input
pub mod ShiftPages
pub mod Sound
pub mod RotarySound
pub mod InputSound
use midi_fighter_twister_ope.Base.{
  ℕ, zero, suc, ◌+◌, ◌-◌, ◌*◌, ◌/◌, ◌%◌, Bool, true, false, not, ◌&&◌, ◌||◌, Option, none, some,
  List, [], ◌∷◌, ◌++◌, ltb, leb, ◌==◌, if◌then◌else◌, u8, u16, ◌<<<◌, bit_and, bit_or, bit_xor,
}
use midi_fighter_twister_ope.Midi.{EventPacket, midi_stream_raw_cc, midi_stream_raw_note}
use midi_fighter_twister_ope.NativeMode.{native_mode_process_encoder_input_switch_pressed}
use midi_fighter_twister_ope.Settings.{EncoderConfig}
use midi_fighter_twister_ope.Encoders.{
  Encoders, assign, assign_cell, enc_shift_hold, enc_shift_toggle, send_switch_vel_control,
  get_virtual_encoder_id, scale_encoder_value, is_relative,
}
use midi_fighter_twister_ope.Encoders.Rotary.{send_encoder_midi}
use midi_fighter_twister_ope.Encoders.Relative.{process_encoder_input_rotary}
use midi_fighter_twister_ope.Switches.{update_encoder_switch_state}
use midi_fighter_twister_ope.Device.{
  Device, EncoderSwitches, current_encoder_bank, send, change_bank, num_banks, reset_idle_timer,
  bank_change_animation,
}

-- Values of `enc_sw_type` in src/encoders.h.
abbrev pub cc_hold : ℕ
cc_hold = 0

abbrev pub cc_toggle : ℕ
cc_toggle = 1

abbrev pub note_hold : ℕ
note_hold = 2

abbrev pub note_toggle : ℕ
note_toggle = 3

abbrev pub enc_reset_value : ℕ
enc_reset_value = 4

abbrev pub enc_reset_value_inv : ℕ
enc_reset_value_inv = 5

-- `mask & state` as a truth value.
abbrev pub has : ℕ → ℕ → Bool
has mask state = not (bit_and mask state == 0)

abbrev pub with_keys : EncoderSwitches → Device → Device
with_keys keys d = record d { keys = keys }

abbrev pub with_encoders : Encoders → Device → Device
with_encoders encoders d = record d { encoders = encoders }

unfoldable pub color_overide_active : EncoderSwitches → ℕ → ℕ → Bool
color_overide_active keys bank encoder = has (u16 (1 <<< encoder)) (keys.switch_color_overide bank)

-- `if (!color_overide_active(bank, i)) switch_color_buffer[bank][i] = color`.
unfoldable pub show_color : ℕ → ℕ → ℕ → EncoderSwitches → EncoderSwitches
show_color bank i color keys =
    if color_overide_active keys bank i
    then keys
    else record keys { switch_color_buffer = assign_cell keys.switch_color_buffer bank i color }

abbrev pub set_midi_state : ℕ → ℕ → ℕ → EncoderSwitches → EncoderSwitches
set_midi_state bank i value keys = record keys {
  enc_switch_midi_state = assign_cell keys.enc_switch_midi_state bank i value;
}

unfoldable pub adjust_switch_value_by_encoder_value : Encoders → ℕ → ℕ → Bool → ℕ
adjust_switch_value_by_encoder_value s banked_encoder_idx value state =
    if not state
    then value
    else if not
        ((s.encoder_settings banked_encoder_idx).encoder_midi_type == send_switch_vel_control)
    then value
    else scale_encoder_value (s.raw_encoder_value banked_encoder_idx)

-- The change of the bank by a switch whose message is that of a bank.
unfoldable pub direct_bank_change : ℕ → Device → Device
unfolding show_color
direct_bank_change banked_encoder_idx d =
    let cfg = d.encoders.encoder_settings banked_encoder_idx in
    let bank = current_encoder_bank d in
    let i : ℕ = bit_and banked_encoder_idx 0x0f in
    change_bank cfg.switch_midi_number
      (with_keys (show_color bank i cfg.inactive_color (set_midi_state bank i 0 d.keys)) d)

-- The message of a control change, and the bank that it may stand for.
unfoldable pub send_switch_cc : ℕ → ℕ → ℕ → Device → Device
unfolding direct_bank_change
send_switch_cc banked_encoder_idx value adj_val d =
    let cfg = d.encoders.encoder_settings banked_encoder_idx in
    let sent = send (midi_stream_raw_cc cfg.switch_midi_channel cfg.switch_midi_number adj_val) d in
    if not (value == 0)
      && (cfg.switch_midi_channel == d.midi_system_channel)
      && ltb cfg.switch_midi_number num_banks
    then direct_bank_change banked_encoder_idx sent
    else sent

-- `send_element_midi`, case `SWITCH`.
unfoldable pub send_switch_midi : ℕ → ℕ → Bool → Device → Device
unfolding send_switch_cc
send_switch_midi banked_encoder_idx value state d =
    let cfg = d.encoders.encoder_settings banked_encoder_idx in
    let action = cfg.switch_action_type in
    let adj_val = adjust_switch_value_by_encoder_value d.encoders banked_encoder_idx value state in
    if leb 128 banked_encoder_idx
    then d
    else if (action == cc_hold)
        || (action == cc_toggle)
        || (action == enc_shift_hold)
        || (action == enc_shift_toggle)
        || (action == enc_reset_value)
        || (action == enc_reset_value_inv)
    then send_switch_cc banked_encoder_idx value adj_val d
    else if (action == note_hold) || (action == note_toggle)
    then send (midi_stream_raw_note cfg.switch_midi_channel cfg.switch_midi_number state adj_val) d
    else d

-- The colour of a switch by its state.
abbrev pub color_by : EncoderConfig → ℕ → ℕ
color_by cfg state = if state == 0 then cfg.inactive_color else cfg.active_color

-- The cases of the toggles and of the switches that hold, with the new state of the switch.
unfoldable pub switch_to_state : ℕ → ℕ → ℕ → Device → Device
unfolding show_color
switch_to_state i banked_encoder_id value d =
    let cfg = d.encoders.encoder_settings banked_encoder_id in
    let bank = current_encoder_bank d in
    send_switch_midi banked_encoder_id value (not (value == 0))
      (with_keys (show_color bank i (color_by cfg value) (set_midi_state bank i value d.keys)) d)

-- `ENC_SHIFT_HOLD` and `ENC_SHIFT_TOGGLE`, behind the change of the state: colour, indicator and message.
unfoldable pub show_shift : ℕ → ℕ → ℕ → Bool → Device → Device
unfolding show_color
show_shift i virtual_encoder_id banked_encoder_id is_on d =
    let cfg = d.encoders.encoder_settings banked_encoder_id in
    let s = d.encoders in
    let bank = current_encoder_bank d in
    let color : ℕ = if is_on then cfg.active_color else cfg.inactive_color in
    let shown = record s {
      indicator_value_buffer =
          assign_cell s.indicator_value_buffer bank i
            (u8 (s.raw_encoder_value virtual_encoder_id / 100));
    } in
    send
      (midi_stream_raw_cc cfg.switch_midi_channel cfg.switch_midi_number (if is_on then 127 else 0))
      (with_encoders shown (with_keys (show_color bank i color d.keys) d))

unfoldable pub toggle_shift : ℕ → ℕ → ℕ → Device → Device
unfolding show_shift
toggle_shift i banked_encoder_id mask d =
    let s = d.encoders in
    let bank = current_encoder_bank d in
    let toggled = record s {
      enc_switch_toggle_state =
          assign s.enc_switch_toggle_state bank (bit_xor (s.enc_switch_toggle_state bank) mask);
    } in
    show_shift i (get_virtual_encoder_id toggled bank i) banked_encoder_id
      (has mask (toggled.enc_switch_toggle_state bank)) (with_encoders toggled d)

-- The selection of a bank, in `process_encoder_input_switch`.
unfoldable pub select_bank : ℕ → Device → Device
unfolding bank_change_animation
select_bank i d =
    let target_bank : ℕ = i % num_banks in
    let left = send (midi_stream_raw_cc d.midi_system_channel (current_encoder_bank d) 0) d in
    let changed = change_bank target_bank (bank_change_animation target_bank left) in
    send (midi_stream_raw_cc changed.midi_system_channel target_bank 127) changed
