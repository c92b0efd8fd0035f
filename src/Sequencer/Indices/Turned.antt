-- ===== src/Sequencer/Indices/Turned.antt =====
-- src/sequencer_input.c: turned encoders keep the indices in range.
use midi_fighter_twister_ope.Base.{ℕ, ◌+◌, ◌-◌, ◌&&◌, ltb, leb, ◌==◌, u8, u16}
use midi_fighter_twister_ope.Encoders.{assign, extend}
use midi_fighter_twister_ope.Sequencer.{
  Sequencer, RowType, clip_selection, pattern_selection, volume_adjust, filter_adjust, is_row_type,
  set_step_state,
}
use midi_fighter_twister_ope.Sequencer.Turns.{
  SwitchBits, leave_detent, leave_end, move_encoder, repeat_beat, turn_pattern, turn_row, set_value,
  turn_encoder, count_down, has_bit, with_raw, with_counter,
}
use midi_fighter_twister_ope.Sequencer.Indices.Inputs.{by_display}
use midi_fighter_twister_ope.Sequencer.Indices.{Indexed, if-Indexed}

-- Turned encoders.
with_raw-Indexed : (i raw : ℕ) (s : Sequencer) → Indexed s → Indexed (with_raw i raw s)
with_raw-Indexed i raw s h = record { rythm = h.rythm; slot = h.slot }

with_counter-Indexed : (i count : ℕ) (s : Sequencer) → Indexed s → Indexed (with_counter i count s)
with_counter-Indexed i count s h = record { rythm = h.rythm; slot = h.slot }

leave_detent-Indexed :
    (i new_value : ℕ) (s : Sequencer) → Indexed s → Indexed (leave_detent i new_value s)
unfolding leave_detent
leave_detent-Indexed i new_value s h =
    let counted =
      with_counter-Indexed (i - 12) (u8 (s.seq_detent_counter (i - 12) + new_value)) s h in
    if-Indexed _ _ _ (with_raw-Indexed i 6450 _ counted)
      (if-Indexed _ _ _ (with_raw-Indexed i 6240 _ counted) counted)

leave_end-Indexed :
    (i new_value : ℕ) (s : Sequencer) → Indexed s → Indexed (leave_end i new_value s)
unfolding leave_end
leave_end-Indexed i new_value s h =
    let counted = with_counter-Indexed i 0 s h in
    if-Indexed _ _ _ (with_raw-Indexed i 100 _ counted)
      (if-Indexed _ _ _ (with_raw-Indexed i 12600 _ counted) (with_counter-Indexed i _ s h))

move_encoder-Indexed :
    (i new_value : ℕ) (s : Sequencer) → Indexed s → Indexed (move_encoder i new_value s)
unfolding move_encoder
move_encoder-Indexed i new_value s h =
    if-Indexed _ _ _ (leave_detent-Indexed i new_value s h)
      (if-Indexed _ _ _ (leave_end-Indexed i new_value s h) (with_raw-Indexed i _ s h))

module _ (divide : ℕ → ℕ) where
  turn_row-Indexed :
      (row : RowType) (i new_value value : ℕ) (s : Sequencer)
      → Indexed s
      → Indexed (turn_row divide row i new_value value s)
  unfolding turn_row turn_pattern repeat_beat
  turn_row-Indexed clip_selection i new_value value s h = record { rythm = h.rythm; slot = h.slot }
  turn_row-Indexed pattern_selection i new_value value s h =
      if-Indexed (ltb 0 (s.button_down_counter (i - 4))) (repeat_beat (i - 4) new_value s)
        (record s { slot_selected_buffer = assign s.slot_selected_buffer (i - 4) (divide value) })
        record { rythm = h.rythm; slot = h.slot } record { rythm = h.rythm; slot = h.slot }
  turn_row-Indexed volume_adjust i new_value value s h = record { rythm = h.rythm; slot = h.slot }
  turn_row-Indexed filter_adjust i new_value value s h = record { rythm = h.rythm; slot = h.slot }

  set_value-Indexed :
      (i new_value value : ℕ) (s : Sequencer)
      → Indexed s
      → Indexed (set_value divide i new_value value s)
  unfolding set_value set_step_state
  set_value-Indexed i new_value value s h =
      by_display Indexed s.display_state h (turn_row-Indexed (is_row_type i) i new_value value s h)
        (if-Indexed (i == s.active_memory_slot) (record s { truncate_value = value }) s
          record { rythm = h.rythm; slot = h.slot } h)
        record { rythm = h.rythm; slot = h.slot }

  pub turn_encoder-Indexed :
      (i ticks : ℕ) (s : Sequencer) → Indexed s → Indexed (turn_encoder divide i ticks s)
  unfolding turn_encoder
  turn_encoder-Indexed i ticks s h =
      if-Indexed (ticks == 0) s _ h
        (set_value-Indexed i (extend ticks) _ _ (move_encoder-Indexed i (extend ticks) s h))

pub count_down-Indexed :
    (bits : SwitchBits) (i : ℕ) (s : Sequencer) → Indexed s → Indexed (count_down bits i s)
unfolding count_down
count_down-Indexed bits i s h =
    if-Indexed (leb 4 i && leb i 7) _ s
      (if-Indexed (has_bit bits.state i)
        (record s {
          button_down_counter =
              assign s.button_down_counter (i - 4) (u16 (s.button_down_counter (i - 4) + 1));
        })
        (record s {
          button_down_counter = assign s.button_down_counter (i - 4) 0;
          mod_level = assign s.mod_level (i - 4) 0;
        })
        record { rythm = h.rythm; slot = h.slot } record { rythm = h.rythm; slot = h.slot })
      h
