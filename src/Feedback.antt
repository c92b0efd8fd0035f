-- ===== src/Feedback.antt =====
-- src/encoders.c: what a message of the host sets: the value of an encoder, the colour and the state of a
-- switch, and the animations.
pub mod Mapping
pub mod Sound
pub mod OneMatch
pub mod Values
pub mod Animations
use midi_fighter_twister_ope.Base.{
  ℕ, zero, suc, ◌+◌, ◌-◌, ◌*◌, ◌/◌, ◌%◌, Bool, true, false, not, ◌&&◌, ◌||◌, Option, none, some,
  ltb, leb, ◌==◌, if◌then◌else◌, u8, u16, ◌<<<◌, bit_and, bit_or, ◌>>=◌,
}
use midi_fighter_twister_ope.NativeMode.{State, native_mode_consume_midi_event}
use midi_fighter_twister_ope.Settings.{EncoderConfig}
use midi_fighter_twister_ope.Config.Global.{get_enc_anim_channel, get_sw_anim_channel}
use midi_fighter_twister_ope.Encoders.{
  Encoders, assign, assign_cell, send_note, send_cc, send_switch_vel_control,
  encoder_is_in_shift_state, is_relative,
}
use midi_fighter_twister_ope.Quadrature.{EncoderInput, encoder_is_active}
use midi_fighter_twister_ope.Device.{Device, EncoderSwitches, current_encoder_bank}
use midi_fighter_twister_ope.EncoderSwitch.{note_hold, note_toggle, with_keys, set_midi_state}
use midi_fighter_twister_ope.EncoderSwitch.ShiftPages.{shift_offset, put_bit}

-- `SEND_NOTE_OFF`.
abbrev pub send_note_off : ℕ
send_note_off = 3

-- `raw_encoder_value[virtual_encoder_id] = value*100`, and the display if the encoder shows that state.
unfoldable pub put_value : ℕ → ℕ → ℕ → ℕ → Bool → Device → Device
put_value bank encoder virtual_encoder_id value is_shown d =
    let s = d.encoders in
    record d {
      encoders = record s {
        raw_encoder_value = assign s.raw_encoder_value virtual_encoder_id (u16 (value * 100));
        indicator_value_buffer =
            if is_shown
            then assign_cell s.indicator_value_buffer bank encoder value
            else s.indicator_value_buffer;
      };
    }

-- `current_shift_state == rx_msg_shifted_mapping`.
abbrev pub same_state : Bool → Bool → Bool
same_state true b = b
same_state false b = not b

-- Whether the tests of `process_indicator_update` let a value through. `inputs` are the encoders' own variables
-- in src/input.c.
unfoldable pub accepts : (ℕ → EncoderInput) → Encoders → ℕ → ℕ → Bool
accepts inputs s idx value =
    let bank : ℕ = idx / 16 in
    let encoder : ℕ = idx % 16 in
    if not ((s.encoder_settings idx).has_detent == 0) && (value == 0)
    then false
    else if bank == s.encoder_bank
    then not (encoder_is_active (inputs encoder))
      || is_relative (s.encoder_settings (u8 (encoder + s.encoder_bank * 16)))
    else true

-- `shifted` is `rx_msg_shifted_mapping`.
unfoldable pub process_indicator_update : (ℕ → EncoderInput) → ℕ → ℕ → Bool → Device → Device
unfolding put_value accepts
process_indicator_update inputs idx value shifted d =
    let s = d.encoders in
    let bank : ℕ = idx / 16 in
    let encoder : ℕ = idx % 16 in
    let virtual_encoder_id : ℕ = u8 (idx + (if shifted then 128 else 0)) in
    let is_shown = same_state (encoder_is_in_shift_state s bank encoder) shifted in
    if accepts inputs s idx value
    then put_value bank encoder virtual_encoder_id value is_shown d
    else d

unfoldable pub override_color : ℕ → ℕ → EncoderConfig → EncoderSwitches → EncoderSwitches
override_color idx value cfg keys =
    let bank : ℕ = idx / 16 in
    let encoder : ℕ = idx % 16 in
    let mask : ℕ = u16 (1 <<< encoder) in
    let color : ℕ =
      if value == 0
      then cfg.inactive_color
      else if ltb 0 value && ltb value 126
      then value
      else cfg.active_color in
    record keys {
      switch_color_overide =
          assign keys.switch_color_overide bank
            (put_bit (not (value == 0)) mask (keys.switch_color_overide bank));
      switch_color_buffer = assign_cell keys.switch_color_buffer bank encoder color;
    }

unfoldable pub process_sw_rgb_update : ℕ → ℕ → Device → Device
unfolding override_color
process_sw_rgb_update idx value d =
    with_keys (override_color idx value (d.encoders.encoder_settings idx) d.keys) d

unfoldable pub process_sw_toggle_update : ℕ → ℕ → Device → Device
process_sw_toggle_update idx value d =
    with_keys (set_midi_state (idx / 16) (idx % 16) (if value == 0 then 0 else 127) d.keys) d

unfoldable pub process_sw_animation_update : ℕ → ℕ → Device → Device
process_sw_animation_update idx value d =
    with_keys
      record d.keys {
        switch_animation_buffer =
            assign_cell d.keys.switch_animation_buffer (idx / 16) (idx % 16) value;
      }
      d

unfoldable pub process_encoder_animation_update : ℕ → ℕ → Device → Device
process_encoder_animation_update idx value d =
    with_keys
      record d.keys {
        encoder_animation_buffer =
            assign_cell d.keys.encoder_animation_buffer (idx / 16) (idx % 16) value;
      }
      d
