-- ===== src/EncoderSwitch/Input.antt =====
-- src/encoders.c: `process_encoder_input` and the dispatch on the action of a switch. The functions that the
-- source computes in floating point are parameters, as in Encoders/Rotary.
use midi_fighter_twister_ope.Base.{
  ℕ, zero, suc, ◌+◌, ◌*◌, Bool, false, ◌||◌, Option, none, some, ◌++◌, leb, ◌==◌, if◌then◌else◌,
  u16, bit_and,
}
use midi_fighter_twister_ope.Midi.{EventPacket, midi_stream_raw_cc}
use midi_fighter_twister_ope.NativeMode.{native_mode_process_encoder_input_switch_pressed}
use midi_fighter_twister_ope.Encoders.{
  assign, assign_cell, enc_shift_hold, enc_shift_toggle, get_virtual_encoder_id,
  scale_encoder_value, is_relative,
}
use midi_fighter_twister_ope.Encoders.Rotary.{send_encoder_midi}
use midi_fighter_twister_ope.Encoders.Relative.{process_encoder_input_rotary}
use midi_fighter_twister_ope.Switches.{update_encoder_switch_state}
use midi_fighter_twister_ope.Device.{Device, current_encoder_bank, send, reset_idle_timer}
use midi_fighter_twister_ope.EncoderSwitch.{
  cc_hold, cc_toggle, note_hold, note_toggle, enc_reset_value, enc_reset_value_inv, has,
  with_encoders, send_switch_midi, switch_to_state, show_shift, toggle_shift, select_bank,
}

-- `raw_encoder_value[virtual_encoder_id] = raw; encoder_detent_counter[i] = 0`.
unfoldable pub put_raw : ℕ → ℕ → ℕ → Device → Device
put_raw i virtual_encoder_id raw d =
    let s = d.encoders in
    with_encoders
      record s {
        raw_encoder_value = assign s.raw_encoder_value virtual_encoder_id raw;
        encoder_detent_counter = assign s.encoder_detent_counter i 0;
      }
      d

-- `indicator_value_buffer[encoder_bank][i] = value`.
unfoldable pub show_value : ℕ → ℕ → Device → Device
show_value i value d =
    let s = d.encoders in
    with_encoders
      record s {
        indicator_value_buffer = assign_cell s.indicator_value_buffer s.encoder_bank i value;
      }
      d

module _ (convert_ticks : ℕ → ℕ → ℕ) (secondary : ℕ → ℕ) (global_super_knob_start : ℕ) where
  -- `send_element_midi`, case `ENCODER`: as `send_encoder_midi` for an encoder that is not shifted, and a
  -- relative one sends its value.
  unfoldable pub send_element_encoder : ℕ → ℕ → Device → Device
  unfolding is_relative
  send_element_encoder banked_encoder_idx value d =
      let cfg = d.encoders.encoder_settings banked_encoder_idx in
      let packets =
        send_encoder_midi convert_ticks secondary global_super_knob_start d.encoders
          banked_encoder_idx value false in
      if leb 128 banked_encoder_idx
      then d
      else if is_relative cfg
      then send (midi_stream_raw_cc cfg.encoder_midi_channel cfg.encoder_midi_number value) d
      else record d { sent = d.sent ++ packets }

  -- `ENC_RESET_VALUE` and `ENC_RESET_VALUE_INV`; `down` is whether the switch went down.
  unfoldable pub reset_value : ℕ → ℕ → ℕ → ℕ → Bool → Device → Device
  unfolding send_switch_midi send_element_encoder put_raw show_value
  reset_value i virtual_encoder_id banked_encoder_id end down d =
      let cfg = d.encoders.encoder_settings banked_encoder_id in
      let raw : ℕ = if cfg.has_detent == 0 then end else 6300 in
      let control_change_value = scale_encoder_value raw in
      let told =
        send_element_encoder banked_encoder_id control_change_value
          (put_raw i virtual_encoder_id raw d) in
      send_switch_midi banked_encoder_id (if down then 127 else 0) down
        (show_value i control_change_value told)

  -- The switch on `switch_action_type`; an edge is a press (`down`) or a release.
  unfoldable pub switch_action : ℕ → ℕ → ℕ → ℕ → Bool → Device → Device
  switch_action i virtual_encoder_id banked_encoder_id mask down d =
      let action = (d.encoders.encoder_settings banked_encoder_id).switch_action_type in
      let state : ℕ = d.keys.enc_switch_midi_state (current_encoder_bank d) i in
      if (action == cc_toggle) || (action == note_toggle)
      then (if down
          then switch_to_state i banked_encoder_id (if state == 0 then 127 else 0) d
          else d)
      else if (action == cc_hold) || (action == note_hold)
      then switch_to_state i banked_encoder_id (if down then 127 else 0) d
      else if action == enc_reset_value
      then reset_value i virtual_encoder_id banked_encoder_id 0 down d
      else if action == enc_reset_value_inv
      then reset_value i virtual_encoder_id banked_encoder_id 12700 down d
      else if action == enc_shift_hold
      then show_shift i virtual_encoder_id banked_encoder_id down d
      else if action == enc_shift_toggle
      then (if down then toggle_shift i banked_encoder_id mask d else d)
      else d

  -- Behind `native_mode_process_encoder_input_switch_pressed`.
  unfoldable pub switch_unless : Option EventPacket → ℕ → ℕ → ℕ → ℕ → Bool → Device → Device
  switch_unless (some p) i virtual_encoder_id banked_encoder_id mask down d = send p d
  switch_unless none i virtual_encoder_id banked_encoder_id mask down d =
      switch_action i virtual_encoder_id banked_encoder_id mask down d

  unfoldable pub process_encoder_input_switch : ℕ → ℕ → ℕ → ℕ → Device → Device
  unfolding select_bank switch_unless reset_idle_timer
  process_encoder_input_switch i virtual_encoder_id banked_encoder_id mask d =
      let down = has mask d.keys.input.switch_down in
      let up = has mask d.keys.input.switch_up in
      if d.side.bank_select_active
      then (if down then select_bank i d else d)
      else if down || up
      then switch_unless (native_mode_process_encoder_input_switch_pressed d.native i down) i
          virtual_encoder_id banked_encoder_id mask down (reset_idle_timer d)
      else d

  -- `process_encoder_input_rotary` in the device, for a movement and its count of cycles.
  unfoldable pub process_rotary : ℕ → ℕ → ℕ → ℕ → ℕ → ℕ → Device → Device
  unfolding process_encoder_input_rotary
  process_rotary i virtual_encoder_id banked_encoder_id mask movement cycle_count d =
      let r =
        process_encoder_input_rotary convert_ticks secondary global_super_knob_start
          d.native.is_active d.encoders i virtual_encoder_id banked_encoder_id movement mask
          cycle_count in
      record d {
        encoders = r.0;
        sent = d.sent ++ r.1;
        idle_timer = if movement == 0 then d.idle_timer else 0;
        sleep_mode_active = if movement == 0 then d.sleep_mode_active else false;
      }

  -- The loop of `process_encoder_input`, with `n` rounds left.
  unfoldable pub each_encoder : (ℕ → ℕ) → (ℕ → ℕ) → ℕ → ℕ → ℕ → Device → Device
  unfolding process_rotary process_encoder_input_switch
  each_encoder movement cycle_count zero i mask d = d
  each_encoder movement cycle_count (suc n) i mask d =
      let virtual_encoder_id = get_virtual_encoder_id d.encoders (current_encoder_bank d) i in
      let banked_encoder_id : ℕ = bit_and virtual_encoder_id 0x7f in
      each_encoder movement cycle_count n (i + 1) (u16 (mask * 2)) (
        process_encoder_input_switch i virtual_encoder_id banked_encoder_id mask (
          process_rotary i virtual_encoder_id banked_encoder_id mask (movement i) (cycle_count i)
            d))

  -- `movement i` is what `get_encoder_value` gives for encoder `i`, and `cycle_count i` its count of cycles.
  unfoldable pub process_encoder_input : (ℕ → ℕ) → (ℕ → ℕ) → Device → Device
  unfolding each_encoder
  process_encoder_input movement cycle_count d =
      let input = update_encoder_switch_state d.keys.input in
      each_encoder movement cycle_count 16 0 1 record d {
        keys = record d.keys { input = input };
        encoders = record d.encoders { enc_switch_state = input.switch_state };
      }
