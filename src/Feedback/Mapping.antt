-- ===== src/Feedback/Mapping.antt =====
-- src/encoders.c: `process_element_midi`, which looks for the encoders and switches that a message is mapped to.
use midi_fighter_twister_ope.Base.{
  ℕ, zero, suc, ◌+◌, ◌-◌, ◌/◌, ◌%◌, Bool, true, false, not, ◌&&◌, ◌||◌, Option, none, some, leb,
  ◌==◌, if◌then◌else◌, u16, ◌<<<◌, ◌>>=◌,
}
use midi_fighter_twister_ope.NativeMode.{State, native_mode_consume_midi_event}
use midi_fighter_twister_ope.Settings.{EncoderConfig}
use midi_fighter_twister_ope.Config.Global.{get_enc_anim_channel, get_sw_anim_channel}
use midi_fighter_twister_ope.Encoders.{assign, send_note, send_cc, send_switch_vel_control}
use midi_fighter_twister_ope.Quadrature.{EncoderInput}
use midi_fighter_twister_ope.Device.{Device}
use midi_fighter_twister_ope.EncoderSwitch.{note_hold, note_toggle, with_keys}
use midi_fighter_twister_ope.EncoderSwitch.ShiftPages.{shift_offset, put_bit}
use midi_fighter_twister_ope.Feedback.{
  send_note_off, process_indicator_update, process_sw_rgb_update, process_sw_toggle_update,
  process_sw_animation_update, process_encoder_animation_update,
}

-- The first half of the loop's body: whether the message is mapped to the encoder of these settings, and to
-- its shifted state.
unfoldable pub encoder_match : EncoderConfig → ℕ → ℕ → ℕ → Option Bool
encoder_match cfg channel type number =
    let output_type = cfg.encoder_midi_type in
    let is_cc =
      (output_type == send_cc)
      || (output_type == send_switch_vel_control)
      || (output_type == 2)
      || (output_type == 4) in
    if not (cfg.encoder_midi_number == number)
    then none
    else if cfg.encoder_midi_channel == channel
    then (if (if type == send_cc then is_cc || (output_type == 5) else output_type == send_note)
        then some false
        else none)
    else if cfg.encoder_shift_midi_channel == channel
    then (if (if type == send_cc then is_cc else output_type == send_note) then some true else none)
    else none

unfoldable pub update_if : Option Bool → (ℕ → EncoderInput) → ℕ → ℕ → Device → Device
unfolding process_indicator_update
update_if none inputs value i d = d
update_if (some shifted) inputs value i d = process_indicator_update inputs i value shifted d

-- The second half: what the message does to the switch, or to one of the two animations.
pub data SwitchMatch : Type 0 where
  no_match : SwitchMatch
  switch_value : ℕ → SwitchMatch
  encoder_animation : SwitchMatch
  switch_animation : SwitchMatch

unfoldable pub switch_match : ℕ → EncoderConfig → ℕ → ℕ → ℕ → ℕ → SwitchMatch
switch_match animation_channels cfg channel type number value =
    if not (cfg.switch_midi_number == number)
    then no_match
    else if cfg.switch_midi_channel == channel
    then (if (cfg.switch_action_type == note_hold) || (cfg.switch_action_type == note_toggle)
        then (if type == send_note
            then switch_value value
            else if type == send_note_off
            then switch_value 0
            else no_match)
        else if type == send_cc
        then switch_value value
        else no_match)
    else if channel == get_enc_anim_channel animation_channels
    then encoder_animation
    else if channel == get_sw_anim_channel animation_channels
    then switch_animation
    else no_match

unfoldable pub update_switch : SwitchMatch → ℕ → ℕ → Device → Device
unfolding process_sw_rgb_update process_sw_toggle_update process_encoder_animation_update
    process_sw_animation_update
update_switch no_match value i d = d
update_switch (switch_value v) value i d =
    process_sw_toggle_update i v (process_sw_rgb_update i v d)
update_switch encoder_animation value i d = process_encoder_animation_update i value d
update_switch switch_animation value i d = process_sw_animation_update i value d

-- The body of the loop.
unfoldable pub match_one : (ℕ → EncoderInput) → ℕ → ℕ → ℕ → ℕ → ℕ → Device → Device
unfolding update_if update_switch
match_one inputs channel type number value i d =
    let cfg = d.encoders.encoder_settings i in
    update_switch (switch_match d.global_animation_channels cfg channel type number value) value i
      (update_if (encoder_match cfg channel type number) inputs value i d)

-- The loop over the banked encoders, with `n` rounds left.
unfoldable pub match_from : (ℕ → EncoderInput) → ℕ → ℕ → ℕ → ℕ → ℕ → ℕ → Device → Device
match_from inputs channel type number value zero i d = d
match_from inputs channel type number value (suc n) i d =
    match_from inputs channel type number value n (i + 1)
      (match_one inputs channel type number value i d)

-- The notes of the system channel for the shift pages; `none` is a write beyond their two pages.
unfoldable pub override_shift : ℕ → ℕ → Device → Option Device
override_shift number value d =
    let index : ℕ = (number - shift_offset) % 16 in
    let page : ℕ = (number - shift_offset) / 16 in
    let mask : ℕ = u16 (1 <<< index) in
    let keys = d.keys in
    if not (leb shift_offset number && leb number (shift_offset + 32))
    then some d
    else if leb 2 page
    then none
    else some (
        with_keys
          record keys {
            shift_mode_midi_override =
                assign keys.shift_mode_midi_override page
                  (put_bit true mask (keys.shift_mode_midi_override page));
            shift_mode_switch_state =
                assign keys.shift_mode_switch_state page
                  (put_bit (not (value == 0)) mask (keys.shift_mode_switch_state page));
          }
          d)

-- Behind `native_mode_consume_midi_event`.
unfoldable pub element_unless :
    Bool × State → (ℕ → EncoderInput) → ℕ → ℕ → ℕ → ℕ → Device → Option Device
unfolding override_shift match_from
element_unless taken inputs channel type number value d =
    if taken.0
    then some record d { native = taken.1 }
    else if channel == d.midi_system_channel
    then (if (type == send_note) || (type == send_note_off)
        then override_shift number value d
        else some d)
    else some (match_from inputs channel type number value 128 0 d)

unfoldable pub process_element_midi : (ℕ → EncoderInput) → ℕ → ℕ → ℕ → ℕ → Device → Option Device
unfolding element_unless
process_element_midi inputs channel type number value d =
    native_mode_consume_midi_event d.native type channel number value >>= λ taken.
    element_unless taken inputs channel type number value d
