-- ===== src/EncoderSwitch/InputSound.antt =====
-- src/encoders.c: what a pass over the encoders, and one in a shift page, leave of the device.
use midi_fighter_twister_ope.Base.{
  ℕ, zero, suc, ◌+◌, ◌*◌, ◌≤◌, refl, arith, Bool, true, false, Option, none, some, ◌==◌, ◌||◌,
  if◌then◌else◌, u16,
}
use midi_fighter_twister_ope.Midi.{EventPacket}
use midi_fighter_twister_ope.NativeMode.{native_mode_process_encoder_input_switch_pressed}
use midi_fighter_twister_ope.Encoders.{assign, assign_cell, scale_encoder_value}
use midi_fighter_twister_ope.Encoders.BankRange.{assign-le}
use midi_fighter_twister_ope.Encoders.Rotary.{send_encoder_midi}
use midi_fighter_twister_ope.Switches.{SwitchInput, update_encoder_switch_state}
use midi_fighter_twister_ope.Device.{Device, reset_idle_timer}
use midi_fighter_twister_ope.Device.Sound.{
  Leaves, leaves, after_both, if-Leaves, send-Leaves, reset_idle_timer-Leaves,
}
use midi_fighter_twister_ope.EncoderSwitch.{has}
use midi_fighter_twister_ope.EncoderSwitch.Input.{
  put_raw, show_value, send_element_encoder, reset_value, switch_action, switch_unless,
  process_encoder_input_switch, each_encoder, process_encoder_input,
}
use midi_fighter_twister_ope.EncoderSwitch.ShiftPages.{
  shift_edge, shift_switch, each_shift_switch, run_shift_mode,
}
use midi_fighter_twister_ope.EncoderSwitch.Sound.{
  with_encoders-Leaves, with_keys-Leaves, send_switch_midi-Leaves, switch_to_state-Leaves,
  show_shift-Leaves, toggle_shift-Leaves, select_bank-Leaves,
}
use midi_fighter_twister_ope.EncoderSwitch.RotarySound.{send_all-Leaves, process_rotary-Leaves}

put_raw-Leaves : (i virt raw : ℕ) (d : Device) → raw ≤ 12700 → Leaves d (put_raw i virt raw d)
unfolding put_raw
put_raw-Leaves i virt raw d small =
    let s = d.encoders in
    with_encoders-Leaves
      record s {
        raw_encoder_value = assign s.raw_encoder_value virt raw;
        encoder_detent_counter = assign s.encoder_detent_counter i 0;
      }
      d refl refl (λ h v. assign-le s.raw_encoder_value virt raw 12700 v h small)

show_value-Leaves : (i value : ℕ) (d : Device) → Leaves d (show_value i value d)
unfolding show_value
show_value-Leaves i value d =
    let s = d.encoders in
    with_encoders-Leaves
      record s {
        indicator_value_buffer = assign_cell s.indicator_value_buffer s.encoder_bank i value;
      }
      d refl refl (λ h. h)

module _ (convert_ticks : ℕ → ℕ → ℕ) (secondary : ℕ → ℕ) (start : ℕ) where
  send_element_encoder-Leaves :
      (banked value : ℕ) (d : Device)
      → Leaves d (send_element_encoder convert_ticks secondary start banked value d)
  unfolding send_element_encoder
  send_element_encoder-Leaves banked value d =
      let packets = send_encoder_midi convert_ticks secondary start d.encoders banked value false in
      if-Leaves _ d _ (leaves d) (
        if-Leaves _ _ _ (send-Leaves _ d)
          (send_all-Leaves packets d.idle_timer d.sleep_mode_active d))

  reset_value-Leaves :
      (i virt banked end : ℕ) (down : Bool) (d : Device)
      → end ≤ 12700
      → Leaves d (reset_value convert_ticks secondary start i virt banked end down d)
  unfolding reset_value
  reset_value-Leaves i virt banked end down d b =
      let raw : ℕ = if (d.encoders.encoder_settings banked).has_detent == 0 then end else 6300 in
      let value = scale_encoder_value raw in
      let put = put_raw i virt raw d in
      let told = send_element_encoder convert_ticks secondary start banked value put in
      after_both (put_raw-Leaves i virt raw d (ground arith)) (
        after_both (send_element_encoder-Leaves banked value put) (
          after_both (show_value-Leaves i value told) (
            send_switch_midi-Leaves banked (if down then 127 else 0) down
              (show_value i value told))))

  switch_action-Leaves :
      (i virt banked mask : ℕ) (down : Bool) (d : Device)
      → Leaves d (switch_action convert_ticks secondary start i virt banked mask down d)
  unfolding switch_action
  switch_action-Leaves i virt banked mask down d =
      if-Leaves _ _ _ (if-Leaves down _ d (switch_to_state-Leaves i banked _ d) (leaves d)) (
        if-Leaves _ _ _ (switch_to_state-Leaves i banked _ d) (
          if-Leaves _ _ _ (reset_value-Leaves i virt banked 0 down d (omega arith)) (
            if-Leaves _ _ _ (reset_value-Leaves i virt banked 12700 down d (omega arith)) (
              if-Leaves _ _ _ (show_shift-Leaves i virt banked down d) (
                if-Leaves _ _ d
                  (if-Leaves down _ d (toggle_shift-Leaves i banked mask d) (leaves d))
                  (leaves d))))))

  switch_unless-Leaves :
      (o : Option EventPacket) (i virt banked mask : ℕ) (down : Bool) (d : Device)
      → Leaves d (switch_unless convert_ticks secondary start o i virt banked mask down d)
  unfolding switch_unless
  switch_unless-Leaves (some p) i virt banked mask down d = send-Leaves p d
  switch_unless-Leaves none i virt banked mask down d =
      switch_action-Leaves i virt banked mask down d

  process_encoder_input_switch-Leaves :
      (i virt banked mask : ℕ) (d : Device)
      → Leaves d (process_encoder_input_switch convert_ticks secondary start i virt banked mask d)
  unfolding process_encoder_input_switch
  process_encoder_input_switch-Leaves i virt banked mask d =
      let down = has mask d.keys.input.switch_down in
      let up = has mask d.keys.input.switch_up in
      let packet = native_mode_process_encoder_input_switch_pressed d.native i down in
      if-Leaves d.side.bank_select_active _ _
        (if-Leaves down _ d (select_bank-Leaves i d) (leaves d))
        (if-Leaves (down || up) _ d
          (after_both (reset_idle_timer-Leaves d)
            (switch_unless-Leaves packet i virt banked mask down (reset_idle_timer d)))
          (leaves d))

  each_encoder-Leaves :
      (movement cycle_count : ℕ → ℕ) (n i mask : ℕ) (d : Device)
      → Leaves d (each_encoder convert_ticks secondary start movement cycle_count n i mask d)
  unfolding each_encoder
  each_encoder-Leaves movement cycle_count zero i mask d = leaves d
  each_encoder-Leaves movement cycle_count (suc n) i mask d =
      after_both
        (process_rotary-Leaves convert_ticks secondary start i _ _ mask (movement i) (cycle_count i)
          d)
        (after_both (process_encoder_input_switch-Leaves i _ _ mask _)
          (each_encoder-Leaves movement cycle_count n (i + 1) (u16 (mask * 2)) _))

-- The new state of the switches of the encoders.
updated-Leaves :
    (input : SwitchInput) (d : Device)
    → Leaves d (record d {
      keys = record d.keys { input = input };
      encoders = record d.encoders { enc_switch_state = input.switch_state };
    })
updated-Leaves input d = after_both (with_keys-Leaves (record d.keys { input = input }) d) (
    with_encoders-Leaves (record d.encoders { enc_switch_state = input.switch_state }) _ refl refl
      (λ h. h))

pub process_encoder_input-Leaves :
    (convert_ticks : ℕ → ℕ → ℕ) (secondary : ℕ → ℕ) (start : ℕ) (movement cycle_count : ℕ → ℕ)
    (d : Device)
    → Leaves d (process_encoder_input convert_ticks secondary start movement cycle_count d)
unfolding process_encoder_input
process_encoder_input-Leaves convert_ticks secondary start movement cycle_count d =
    after_both (updated-Leaves (update_encoder_switch_state d.keys.input) d)
      (each_encoder-Leaves convert_ticks secondary start movement cycle_count 16 0 1 _)

shift_edge-Leaves :
    (page i mask : ℕ) (on : Bool) (d : Device) → Leaves d (shift_edge page i mask on d)
unfolding shift_edge
shift_edge-Leaves page i mask on d = after_both (send-Leaves _ d) (with_keys-Leaves _ _)

shift_switch-Leaves : (page i mask : ℕ) (d : Device) → Leaves d (shift_switch page i mask d)
unfolding shift_switch
shift_switch-Leaves page i mask d =
    if-Leaves _ _ _ (shift_edge-Leaves page i mask true d)
      (if-Leaves _ _ d (shift_edge-Leaves page i mask false d) (leaves d))

each_shift_switch-Leaves :
    (page n i mask : ℕ) (d : Device) → Leaves d (each_shift_switch page n i mask d)
unfolding each_shift_switch
each_shift_switch-Leaves page zero i mask d = leaves d
each_shift_switch-Leaves page (suc n) i mask d =
    after_both (shift_switch-Leaves page i mask d)
      (each_shift_switch-Leaves page n (i + 1) (u16 (mask * 2)) _)

pub run_shift_mode-Leaves : (page : ℕ) (d : Device) → Leaves d (run_shift_mode page d)
unfolding run_shift_mode
run_shift_mode-Leaves page d =
    after_both (updated-Leaves (update_encoder_switch_state d.keys.input) d)
      (each_shift_switch-Leaves page 16 0 1 _)
