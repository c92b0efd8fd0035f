-- ===== src/Encoders/Rotary.antt =====
-- src/encoders.c: the movement of an encoder, `process_encoder_input_rotary` and what it calls. The movement
-- `new_value` is a signed byte; the packets that are sent are returned. The two functions that
-- the source computes in floating point are parameters.
use midi_fighter_twister_ope.Base.{
  ℕ, ◌+◌, ◌-◌, ◌*◌, Bool, true, ◌&&◌, ◌||◌, not, Option, none, some, List, [], ◌∷◌, ltb, leb, ◌==◌,
  if◌then◌else◌, u8, u16, bit_and,
}
use midi_fighter_twister_ope.Midi.{EventPacket, midi_stream_raw_cc, midi_stream_raw_note}
use midi_fighter_twister_ope.Settings.{EncoderConfig}
use midi_fighter_twister_ope.Encoders.{
  Encoders, assign, assign_cell, less_int8, less_int16, extend, enc_fine_adjust, send_note, send_cc,
  send_switch_vel_control, direct, velocity_sensitive_enc, encoder_is_in_shift_state,
  scale_encoder_value, clamp_encoder_raw_value, encoder_is_in_detent, encoder_is_in_deadzone,
  is_relative,
}

-- `g_detent_size` and `g_dead_zone_size`, and their negatives as signed bytes.
abbrev pub detent_size : ℕ
detent_size = 8

abbrev pub minus_detent_size : ℕ
minus_detent_size = 0xf8

abbrev pub dead_zone_size : ℕ
dead_zone_size = 2

abbrev pub minus_dead_zone_size : ℕ
minus_dead_zone_size = 0xfe

-- `none` if the function returns false and has done nothing.
unfoldable pub process_encoder_input_rotary_detent : Encoders → ℕ → ℕ → ℕ → ℕ → Option Encoders
unfolding encoder_is_in_detent
process_encoder_input_rotary_detent s i virtual_encoder_id banked_encoder_id new_value =
    let cfg = s.encoder_settings banked_encoder_id in
    let counter : ℕ = u8 (s.encoder_detent_counter i + new_value) in
    let counted : Encoders = record s {
      encoder_detent_counter = assign s.encoder_detent_counter i counter;
    } in
    if cfg.has_detent == 0
    then none
    else if not (encoder_is_in_detent (s.raw_encoder_value virtual_encoder_id))
    then none
    else if less_int8 detent_size counter
    then some
        record counted { raw_encoder_value = assign s.raw_encoder_value virtual_encoder_id 6450 }
    else if less_int8 counter minus_detent_size
    then some
        record counted { raw_encoder_value = assign s.raw_encoder_value virtual_encoder_id 6240 }
    else some record counted {
      indicator_value_buffer = assign_cell s.indicator_value_buffer s.encoder_bank i 63;
    }

unfoldable pub process_encoder_input_rotary_deadzone : Encoders → ℕ → ℕ → ℕ → ℕ → Option Encoders
unfolding encoder_is_in_deadzone is_relative
process_encoder_input_rotary_deadzone s i virtual_encoder_id banked_encoder_id new_value =
    let raw : ℕ = s.raw_encoder_value virtual_encoder_id in
    let is_inward =
      (less_int16 raw 100 && less_int8 0 new_value)
      || (less_int16 12600 raw && less_int8 new_value 0) in
    let counter : ℕ =
      if is_inward
      then u8 (s.encoder_detent_counter i + new_value)
      else s.encoder_detent_counter i in
    let leave = λ (value : ℕ). some record s {
      encoder_detent_counter = assign s.encoder_detent_counter i 0;
      raw_encoder_value = assign s.raw_encoder_value virtual_encoder_id value;
    } in
    if is_relative (s.encoder_settings banked_encoder_id)
    then none
    else if not (encoder_is_in_deadzone raw)
    then none
    else if less_int8 dead_zone_size counter && less_int16 raw 100
    then leave 100
    else if less_int8 counter minus_dead_zone_size && less_int16 12600 raw
    then leave 12600
    else some record s { encoder_detent_counter = assign s.encoder_detent_counter i counter }

-- `fine_adj`, and the test before the fine relative movement.
abbrev pub is_fine : Encoders → EncoderConfig → ℕ → Bool
is_fine s cfg bit =
    (cfg.switch_action_type == enc_fine_adjust) && not (bit_and s.enc_switch_state bit == 0)

-- The channel of an encoder in its state.
abbrev pub channel_of : EncoderConfig → Bool → ℕ
channel_of cfg shifted =
    if shifted then cfg.encoder_shift_midi_channel else cfg.encoder_midi_channel

-- `convert_ticks_per_scan_to_value_multiplier`, and `(uint16_t)(step * (float)(value - global_super_knob_start))`.
module _ (convert_ticks : ℕ → ℕ → ℕ) (secondary : ℕ → ℕ) (global_super_knob_start : ℕ) where
  -- The multiplier of a movement.
  unfoldable pub base_multiplier : Encoders → EncoderConfig → ℕ → ℕ → ℕ → ℕ
  base_multiplier s cfg new_value bit cycle_count =
      let tick_count : ℕ = if less_int8 new_value 0 then u8 (256 - new_value) else new_value in
      let multiplier = convert_ticks tick_count cycle_count in
      if cfg.movement == velocity_sensitive_enc
      then if is_fine s cfg bit || ltb multiplier 25
        then 25
        else if ltb 255 multiplier
        then 255
        else multiplier
      else if is_fine s cfg bit
      then 25
      else if cfg.movement == direct
      then 100
      else 178

  unfoldable pub send_encoder_midi : Encoders → ℕ → ℕ → Bool → List EventPacket
  unfolding midi_stream_raw_cc midi_stream_raw_note
  send_encoder_midi s banked_encoder_idx value shifted =
      let cfg = s.encoder_settings banked_encoder_idx in
      let midi_channel = channel_of cfg shifted in
      let calculated : ℕ = if leb global_super_knob_start value then secondary value else 0 in
      let secondary_value : ℕ = if ltb 127 calculated then 127 else calculated in
      if (cfg.encoder_midi_type == send_cc) || (cfg.encoder_midi_type == send_switch_vel_control)
      then midi_stream_raw_cc midi_channel cfg.encoder_midi_number value
        ∷ (if cfg.is_super_knob == 0
            then []
            else midi_stream_raw_cc midi_channel (u8 (cfg.encoder_midi_number + 64))
                (u8 secondary_value)
              ∷ [])
      else if cfg.encoder_midi_type == send_note
      then midi_stream_raw_note midi_channel cfg.encoder_midi_number true value ∷ []
      else []

  unfoldable pub process_encoder_input_rotary_absolute :
      Encoders → ℕ → ℕ → ℕ → ℕ → ℕ → ℕ → Encoders × List EventPacket
  unfolding base_multiplier clamp_encoder_raw_value scale_encoder_value send_encoder_midi
  process_encoder_input_rotary_absolute s i virtual_encoder_id banked_encoder_id new_value bit
        cycle_count =
      let cfg = s.encoder_settings banked_encoder_id in
      let scaled_value : ℕ =
        u16 (extend new_value * base_multiplier s cfg new_value bit cycle_count) in
      let raw : ℕ =
        clamp_encoder_raw_value (u16 (s.raw_encoder_value virtual_encoder_id + scaled_value)) in
      let control_change_value = scale_encoder_value raw in
      let shifted = encoder_is_in_shift_state s s.encoder_bank i in
      (
        record s {
          raw_encoder_value = assign s.raw_encoder_value virtual_encoder_id raw;
          indicator_value_buffer =
              assign_cell s.indicator_value_buffer s.encoder_bank i control_change_value;
        },
        send_encoder_midi s banked_encoder_id control_change_value shifted,
      )
