-- ===== src/Feedback/Sound.antt =====
-- src/encoders.c, src/midi.c: what a message of the host leaves of the device.
use midi_fighter_twister_ope.Base.{
  ℕ, zero, suc, ◌+◌, ◌*◌, ◌/◌, ◌%◌, ◌<◌, refl, arith, Bool, Option, none, some, ◌==◌, if◌then◌else◌,
  u8, u16,
}
use midi_fighter_twister_ope.Encoders.{assign, assign_cell, encoder_is_in_shift_state}
use midi_fighter_twister_ope.Encoders.BankRange.{assign-le}
use midi_fighter_twister_ope.Quadrature.{EncoderInput}
use midi_fighter_twister_ope.Device.{Device}
use midi_fighter_twister_ope.Device.Sound.{Leaves, leaves, after_both, if-Leaves}
use midi_fighter_twister_ope.EncoderSwitch.{set_midi_state}
use midi_fighter_twister_ope.EncoderSwitch.Sound.{with_encoders-Leaves, with_keys-Leaves}
use midi_fighter_twister_ope.Feedback.{
  same_state, accepts, override_color, put_value, process_indicator_update, process_sw_rgb_update,
  process_sw_toggle_update, process_sw_animation_update, process_encoder_animation_update,
}
use midi_fighter_twister_ope.Feedback.Mapping.{
  update_if, update_switch, SwitchMatch, no_match, switch_value, encoder_animation,
  switch_animation, match_one, match_from,
}

put_value-Leaves :
    (bank encoder virt value : ℕ) (is_shown : Bool) (d : Device)
    → value < 128
    → Leaves d (put_value bank encoder virt value is_shown d)
unfolding put_value
put_value-Leaves bank encoder virt value is_shown d b =
    let s = d.encoders in
    with_encoders-Leaves
      record s {
        raw_encoder_value = assign s.raw_encoder_value virt (u16 (value * 100));
        indicator_value_buffer =
            if is_shown
            then assign_cell s.indicator_value_buffer bank encoder value
            else s.indicator_value_buffer;
      }
      d refl refl
      (λ h v. assign-le s.raw_encoder_value virt (u16 (value * 100)) 12700 v h (omega arith))

module _ (inputs : ℕ → EncoderInput) (channel type number value : ℕ) (small : value < 128) where
  process_indicator_update-Leaves :
      (idx : ℕ) (shifted : Bool) (d : Device)
      → Leaves d (process_indicator_update inputs idx value shifted d)
  unfolding process_indicator_update
  process_indicator_update-Leaves idx shifted d =
      let virt : ℕ = u8 (idx + (if shifted then 128 else 0)) in
      let is_shown =
        same_state (encoder_is_in_shift_state d.encoders (idx / 16) (idx % 16)) shifted in
      if-Leaves (accepts inputs d.encoders idx value) _ d
        (put_value-Leaves (idx / 16) (idx % 16) virt value is_shown d small) (leaves d)

  update_if-Leaves :
      (o : Option Bool) (i : ℕ) (d : Device) → Leaves d (update_if o inputs value i d)
  unfolding update_if
  update_if-Leaves none i d = leaves d
  update_if-Leaves (some shifted) i d = process_indicator_update-Leaves i shifted d

  update-Leaves :
      (i v : ℕ) (d : Device) → Leaves d (process_sw_toggle_update i v (process_sw_rgb_update i v d))
  unfolding process_sw_toggle_update process_sw_rgb_update
  update-Leaves i v d =
      let colored = override_color i v (d.encoders.encoder_settings i) d.keys in
      after_both (with_keys-Leaves colored d)
        (with_keys-Leaves (set_midi_state (i / 16) (i % 16) (if v == 0 then 0 else 127) colored) _)

  animations-Leaves :
      (i v : ℕ) (d : Device)
      → Leaves d (process_encoder_animation_update i v d)
        × Leaves d (process_sw_animation_update i v d)
  unfolding process_encoder_animation_update process_sw_animation_update
  animations-Leaves i v d = (
    with_keys-Leaves
        record d.keys {
          encoder_animation_buffer =
              assign_cell d.keys.encoder_animation_buffer (i / 16) (i % 16) v;
        }
        d,
    with_keys-Leaves
        record d.keys {
          switch_animation_buffer = assign_cell d.keys.switch_animation_buffer (i / 16) (i % 16) v;
        }
        d,
  )

  update_switch-Leaves :
      (m : SwitchMatch) (i : ℕ) (d : Device) → Leaves d (update_switch m value i d)
  unfolding update_switch
  update_switch-Leaves no_match i d = leaves d
  update_switch-Leaves (switch_value v) i d = update-Leaves i v d
  update_switch-Leaves encoder_animation i d = (animations-Leaves i value d).0
  update_switch-Leaves switch_animation i d = (animations-Leaves i value d).1

  match_one-Leaves :
      (i : ℕ) (d : Device) → Leaves d (match_one inputs channel type number value i d)
  unfolding match_one
  match_one-Leaves i d = after_both (update_if-Leaves _ i d) (update_switch-Leaves _ i _)

  pub match_from-Leaves :
      (n i : ℕ) (d : Device) → Leaves d (match_from inputs channel type number value n i d)
  unfolding match_from
  match_from-Leaves zero i d = leaves d
  match_from-Leaves (suc n) i d = after_both (match_one-Leaves i d) (match_from-Leaves n (i + 1) _)
