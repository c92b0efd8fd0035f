-- ===== src/Sequencer/Turns.antt =====
-- src/sequencer_input.c, `process_sequencer_input`: a pass over the turned encoders and their switches.
pub mod Bounds
pub mod Pass
use midi_fighter_twister_ope.Base.{
  ℕ, ◌+◌, ◌-◌, ◌*◌, ◌/◌, Bool, true, false, not, ◌&&◌, ◌||◌, ltb, leb, ◌==◌, if◌then◌else◌, u8, u16,
  ◌<<<◌, bit_and, for_range,
}
use midi_fighter_twister_ope.Nvm.{Nvm}
use midi_fighter_twister_ope.Encoders.{
  assign, less_int8, less_int16, extend, clamp_encoder_raw_value, encoder_is_in_detent,
  encoder_is_in_deadzone,
}
use midi_fighter_twister_ope.Sequencer.{
  Sequencer, RowType, clip_selection, pattern_selection, volume_adjust, filter_adjust, display_off,
  display_default, pattern_memory, pattern_edit, is_default, is_row_type, send_seq_cc,
  set_slot_clip, set_step_state,
}
use midi_fighter_twister_ope.Sequencer.Memory.{put_filter, put_volume}
use midi_fighter_twister_ope.Sequencer.Buttons.{process_seq_enc_buttons}

-- `scale_encoder_value` of any number of 16 bits: the division of a negative one goes towards 0.
unfoldable pub scale_signed_value : ℕ → ℕ
scale_signed_value value =
    let sum : ℕ = u16 (value + 50) in
    if ltb sum 0x8000 then u8 (sum / 100) else u8 (0x10000 - (0x10000 - sum) / 100)

abbrev pub with_counter : ℕ → ℕ → Sequencer → Sequencer
with_counter i count s = record s { seq_detent_counter = assign s.seq_detent_counter i count }

abbrev pub with_raw : ℕ → ℕ → Sequencer → Sequencer
with_raw i raw s = record s { raw_value = assign s.raw_value i raw }

-- The filters' detent; the counter is the one that also belongs to encoder `i - 12`.
unfoldable pub leave_detent : ℕ → ℕ → Sequencer → Sequencer
leave_detent i new_value s =
    let count : ℕ = u8 (s.seq_detent_counter (i - 12) + new_value) in
    let counted = with_counter (i - 12) count s in
    if less_int8 10 count
    then with_raw i 6450 counted
    else if less_int8 count 0xf6
    then with_raw i 6240 counted
    else counted

unfoldable pub leave_end : ℕ → ℕ → Sequencer → Sequencer
leave_end i new_value s =
    let raw : ℕ = s.raw_value i in
    let inwards =
      (ltb raw 100 && less_int16 0 new_value) || (ltb 12600 raw && less_int16 new_value 0) in
    let count : ℕ =
      if inwards then u8 (s.seq_detent_counter i + new_value) else s.seq_detent_counter i in
    if less_int8 3 count && ltb raw 100
    then with_raw i 100 (with_counter i 0 s)
    else if less_int8 count 0xfd && ltb 12600 raw
    then with_raw i 12600 (with_counter i 0 s)
    else with_counter i count s

abbrev pub sensitivity : Sequencer → ℕ → ℕ
sensitivity s i =
    if ltb i 4 && is_default s.display_state
    then 80
    else if ltb i 8 && is_default s.display_state
    then 100
    else 178

unfoldable pub move_encoder : ℕ → ℕ → Sequencer → Sequencer
unfolding leave_detent leave_end
move_encoder i new_value s =
    if ltb 11 i && ltb i 16 && is_default s.display_state && encoder_is_in_detent (s.raw_value i)
    then leave_detent i new_value s
    else if encoder_is_in_deadzone (s.raw_value i)
    then leave_end i new_value s
    else with_raw i (clamp_encoder_raw_value (u16 (s.raw_value i + new_value * sensitivity s i))) s

-- `abs` of a signed number of 16 bits.
abbrev pub magnitude : ℕ → ℕ
magnitude value = if less_int16 value 0 then u16 (0x10000 - value) else value

-- `a > 39 ? 39 : a` of a signed byte.
abbrev pub limit_mod : ℕ → ℕ
limit_mod level = if less_int8 39 level then 39 else level

-- A turn of a selector of patterns whose switch is down, by `new_value` of 16 bits.
unfoldable pub repeat_beat : ℕ → ℕ → Sequencer → Sequencer
repeat_beat slot new_value s = record s {
  raw_value =
      assign s.raw_value (slot + 4)
        (u16 (s.raw_value (slot + 4) + (0x10000 - u16 (new_value * 178))));
  button_down_counter =
      assign s.button_down_counter slot
        (u16 (s.button_down_counter slot + magnitude new_value * 100));
  mod_level = assign s.mod_level slot (limit_mod (u8 (s.mod_level slot + new_value)));
}

-- What does arithmetic in floating point is a parameter: `divide x` is `(uint8_t)(x/11.55f)`.
module _ (divide : ℕ → ℕ) where
  unfoldable pub turn_pattern : ℕ → ℕ → ℕ → Sequencer → Sequencer
  unfolding repeat_beat
  turn_pattern slot new_value control_change_value s =
      if ltb 0 (s.button_down_counter slot) then repeat_beat slot new_value s else record s {
        slot_selected_buffer = assign s.slot_selected_buffer slot (divide control_change_value);
      }

  unfoldable pub turn_row : RowType → ℕ → ℕ → ℕ → Sequencer → Sequencer
  unfolding turn_pattern
  turn_row clip_selection i new_value control_change_value s =
      set_slot_clip i (divide control_change_value) s
  turn_row pattern_selection i new_value control_change_value s =
      turn_pattern (i - 4) new_value control_change_value s
  turn_row volume_adjust i new_value control_change_value s =
      send_seq_cc (28 + (i + 4)) control_change_value (put_volume (i - 8) control_change_value s)
  turn_row filter_adjust i new_value control_change_value s =
      send_seq_cc (28 + (i - 12)) control_change_value (put_filter (i - 12) control_change_value s)

  unfoldable pub set_value : ℕ → ℕ → ℕ → Sequencer → Sequencer
  unfolding turn_row
  set_value i new_value control_change_value s = elim s.display_state [
    | display_off ↦ s
    | display_default ↦ turn_row (is_row_type i) i new_value control_change_value s
    | pattern_edit ↦ set_step_state s.selected_slot i control_change_value s
    | pattern_memory ↦
        if i == s.active_memory_slot then record s { truncate_value = control_change_value } else s
  ]

  -- `ticks` is the result of `get_encoder_value`, a signed byte.
  unfoldable pub turn_encoder : ℕ → ℕ → Sequencer → Sequencer
  unfolding move_encoder set_value
  turn_encoder i ticks s =
      let new_value : ℕ = extend ticks in
      let moved = move_encoder i new_value s in
      if ticks == 0 then s else set_value i new_value (scale_signed_value (moved.raw_value i)) moved

-- The results of `get_enc_switch_down`, `get_enc_switch_up` and `get_enc_switch_state`.
pub record SwitchBits : Type 0 where
  pub down : ℕ
  pub up : ℕ
  pub state : ℕ

abbrev pub has_bit : ℕ → ℕ → Bool
has_bit bits i = not (bit_and bits (u16 (1 <<< i)) == 0)

-- How long the switches of the selectors of patterns are down.
unfoldable pub count_down : SwitchBits → ℕ → Sequencer → Sequencer
count_down bits i s =
    if leb 4 i && leb i 7
    then (if has_bit bits.state i
        then record s {
          button_down_counter =
              assign s.button_down_counter (i - 4) (u16 (s.button_down_counter (i - 4) + 1));
        }
        else record s {
          button_down_counter = assign s.button_down_counter (i - 4) 0;
          mod_level = assign s.mod_level (i - 4) 0;
        })
    else s

module _ (divide : ℕ → ℕ) (nvm : Nvm) where
  open nvm use {Store}

  unfoldable pub use_encoder : SwitchBits → ℕ → ℕ → Store × Sequencer → Store × Sequencer
  unfolding turn_encoder count_down process_seq_enc_buttons
  use_encoder bits i ticks (store, s) =
      let turned = turn_encoder divide i ticks s in
      let pressed : Store × Sequencer =
        if has_bit bits.down i
        then process_seq_enc_buttons nvm i true (store, turned)
        else if has_bit bits.up i
        then process_seq_enc_buttons nvm i false (store, turned)
        else (store, turned) in
      (pressed.0, count_down bits i pressed.1)

  unfoldable pub process_sequencer_input :
      SwitchBits → (ℕ → ℕ) → Store × Sequencer → Store × Sequencer
  unfolding use_encoder
  process_sequencer_input bits ticks start =
      for_range 16 0 (λ i state. use_encoder bits i (ticks i) state) start
