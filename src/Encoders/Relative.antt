-- ===== src/Encoders/Relative.antt =====
-- src/encoders.c: `process_encoder_input_rotary_relative`, and `process_encoder_input_rotary`, which
-- asks the functions for the kinds of movement one after the other.
use midi_fighter_twister_ope.Base.{
  ℕ, zero, suc, ◌+◌, ◌-◌, ◌*◌, ◌/◌, ◌%◌, ◌<◌, ◌≤◌, ◌≡◌, Bool-cases, inl, inr, arith, Bool, not,
  Option, none, some, List, [], ◌∷◌, ◌==◌, if◌then◌else◌, u8, u16, bit_and, ◌>>>◌,
}
use midi_fighter_twister_ope.Midi.{EventPacket, midi_stream_raw_cc}
use midi_fighter_twister_ope.Settings.{EncoderConfig}
use midi_fighter_twister_ope.Encoders.{
  Encoders, assign, less_int8, less_int16, extend, emulation, velocity_sensitive_enc,
  encoder_is_in_shift_state, is_relative,
}
use midi_fighter_twister_ope.Encoders.Banks.{refresh_display}
use midi_fighter_twister_ope.Encoders.Rotary.{
  is_fine, channel_of, process_encoder_input_rotary_detent, process_encoder_input_rotary_deadzone,
  process_encoder_input_rotary_absolute,
}

-- `while (relative_fine_value[i] >= 4)`: what is left and the output, after `n` rounds at most.
unfoldable pub fine_up : ℕ → ℕ → ℕ → ℕ × ℕ
fine_up zero v output = (v, output)
fine_up (suc n) v output =
    let next = fine_up n (u16 (v + 65532)) (u8 (output + 1)) in
    if less_int16 3 v then next else (v, output)

-- `while (relative_fine_value[i] <= -4)`.
unfoldable pub fine_down : ℕ → ℕ → ℕ → ℕ × ℕ
fine_down zero v output = (v, output)
fine_down (suc n) v output =
    let next = fine_down n (u16 (v + 4)) (u8 (output + 255)) in
    if less_int16 v 65533 then next else (v, output)

-- With rounds for a quarter of the ticks, the loop for clockwise fine movement ends by itself: four ticks are
-- one step of the output, which is a byte, and what is left of them is kept.
pub fine_up_lem :
    (n v output : ℕ)
    → v < 32768
    → v < 4 * n + 4
    → output < 256
    → fine_up n v output ≡ (v % 4, u8 (output + v / 4))
unfolding fine_up
fine_up_lem zero v output h k b = ground arith
fine_up_lem (suc n) v output h k b = elim (Bool-cases (less_int16 3 v)) [
  | inl more ↦
      let four : 4 ≤ v = ground arith in
      let e : u16 (v + 65532) ≡ v - 4 = omega (arith, four) in
      let rest =
        fine_up_lem n (v - 4) (u8 (output + 1)) (omega arith) (omega arith) (omega arith) in
      rw (more, e, rest) (ground arith)
  | inr enough ↦ rw enough (ground arith)
]

module _ (convert_ticks : ℕ → ℕ → ℕ) (secondary : ℕ → ℕ) (global_super_knob_start : ℕ) where
  -- The value that is sent, and what is left of the fine movement.
  unfoldable pub relative_output : Encoders → ℕ → EncoderConfig → ℕ → ℕ → ℕ → ℕ × ℕ
  relative_output s i cfg new_value bit cycle_count =
      let left : ℕ = s.relative_fine_value i in
      let up : ℕ × ℕ = fine_up 8192 (u16 (left + extend new_value)) 64 in
      let tick_count : ℕ = if less_int8 new_value 0 then u8 (256 - new_value) else new_value in
      let scaled_mult : ℕ = 1 + bit_and (convert_ticks tick_count cycle_count >>> 4) 0x1f in
      if is_fine s cfg bit
      then fine_down 8192 up.0 up.1
      else if cfg.movement == emulation
      then (left, u8 (64 + extend new_value))
      else if cfg.movement == velocity_sensitive_enc
      then (left, u8 (64 + extend new_value * scaled_mult))
      else (left, u8 (64 + extend new_value))

  unfoldable pub process_encoder_input_rotary_relative :
      Encoders → ℕ → ℕ → ℕ → ℕ → ℕ → Option (Encoders × List EventPacket)
  process_encoder_input_rotary_relative s i banked_encoder_id new_value bit cycle_count =
      let cfg = s.encoder_settings banked_encoder_id in
      let out = relative_output s i cfg new_value bit cycle_count in
      let midi_channel = channel_of cfg (encoder_is_in_shift_state s s.encoder_bank i) in
      if not (is_relative cfg)
      then none
      else some (
        record s { relative_fine_value = assign s.relative_fine_value i out.0 },
        if out.1 == 64
            then []
            else midi_stream_raw_cc midi_channel cfg.encoder_midi_number out.1 ∷ [],
      )

  -- A movement that is not taken by the native mode: each kind is asked in turn.
  unfoldable pub rotate_encoder : Encoders → ℕ → ℕ → ℕ → ℕ → ℕ → ℕ → Encoders × List EventPacket
  rotate_encoder s i virtual_encoder_id banked_encoder_id new_value bit cycle_count =
      elim (process_encoder_input_rotary_detent s i virtual_encoder_id banked_encoder_id
        new_value) [
          | some t ↦ (t, [])
          | none ↦
              elim (process_encoder_input_rotary_deadzone s i virtual_encoder_id banked_encoder_id
                new_value) [
                  | some t ↦ (t, [])
                  | none ↦
                      elim (process_encoder_input_rotary_relative s i banked_encoder_id new_value
                        bit cycle_count) [
                          | some r ↦ r
                          | none ↦
                              process_encoder_input_rotary_absolute convert_ticks secondary
                                global_super_knob_start s i virtual_encoder_id banked_encoder_id
                                new_value bit cycle_count
                        ]
                ]
        ]

  -- `native_mode_is_active` is whether the native mode takes the movement. `bit` is that of encoder `i`.
  -- `reset_idle_timer` refreshes the display first.
  unfoldable pub process_encoder_input_rotary :
      Bool → Encoders → ℕ → ℕ → ℕ → ℕ → ℕ → ℕ → Encoders × List EventPacket
  unfolding rotate_encoder
  process_encoder_input_rotary native_mode_is_active s i virtual_encoder_id banked_encoder_id
        new_value bit cycle_count =
      let refreshed = refresh_display s in
      if new_value == 0
      then (s, [])
      else if native_mode_is_active
      then (refreshed, midi_stream_raw_cc 0 i (u8 (64 + extend new_value)) ∷ [])
      else rotate_encoder refreshed i virtual_encoder_id banked_encoder_id new_value bit cycle_count
