-- ===== src/Sequencer/Buttons.antt =====
-- src/sequencer_input.c: the switches of the encoders and the side switches while the device is a sequencer.
use midi_fighter_twister_ope.Base.{
  ℕ, ◌+◌, ◌-◌, ◌/◌, Bool, true, false, not, ◌&&◌, ltb, ◌==◌, if◌then◌else◌, u8, u16, ◌<<<◌, bit_and,
  for_range,
}
use midi_fighter_twister_ope.Nvm.{Nvm}
use midi_fighter_twister_ope.Encoders.{assign}
use midi_fighter_twister_ope.Sequencer.{
  Sequencer, RowType, clip_selection, pattern_selection, volume_adjust, filter_adjust, display_off,
  display_default, pattern_memory, pattern_edit, is_off, is_row_type, send_seq_cc, get_step_state,
  set_step_state, sync_clock, reset_sequence,
}
use midi_fighter_twister_ope.Sequencer.Triggers.{play_or_stop_sequence}
use midi_fighter_twister_ope.Sequencer.Alternate.{default_raw_values, do_alternate_functions}
use midi_fighter_twister_ope.Sequencer.Host.{memory_raw_values, with_slot, seven_bit_flag}
use midi_fighter_twister_ope.Sequencer.Memory.{
  delete_pattern_memory, save_pattern_memory, load_pattern_memory,
}

-- The default display: the switch of each row.
unfoldable pub toggle_fx : ℕ → Sequencer → Sequencer
toggle_fx i s =
    let old = s.slot_settings i in
    default_raw_values (
      send_seq_cc (102 + i + 4) (seven_bit_flag (not old.fx_send))
        (with_slot i (record old { fx_send = not old.fx_send }) s))

-- A switch that was down for long has repeated the beat.
unfoldable pub edit_or_redraw : ℕ → Sequencer → Sequencer
edit_or_redraw slot s =
    if ltb (s.button_down_counter slot) 2000
    then record s { selected_slot = slot; display_state = pattern_edit }
    else record (default_raw_values s) { truncate_value = 127 }

unfoldable pub default_button : RowType → ℕ → Bool → Sequencer → Sequencer
unfolding toggle_fx edit_or_redraw
default_button clip_selection i true s = toggle_fx i s
default_button pattern_selection i false s = edit_or_redraw (i - 4) s
default_button volume_adjust i true s =
    send_seq_cc (20 + (i - 8)) (if (s.slot_settings (i - 8)).mute_on then 127 else 63) s
default_button filter_adjust i true s =
    send_seq_cc (24 + (i - 12)) (if (s.slot_settings (i - 12)).filter_on then 63 else 127) s
default_button _ i down s = s

-- A press while a pattern is edited switches the step on or off.
unfoldable pub toggle_step : ℕ → Sequencer → Sequencer
toggle_step i s =
    if get_step_state s s.selected_slot i == 0
    then set_step_state s.selected_slot i 127 record s { raw_value = assign s.raw_value i 12700 }
    else set_step_state s.selected_slot i 0 record s { raw_value = assign s.raw_value i 0 }

abbrev pub with_active : ℕ → ℕ → Sequencer → Sequencer
with_active slot truncate s = record s { active_memory_slot = slot; truncate_value = truncate }

module _ (nvm : Nvm) where
  open nvm use {Store}

  unfoldable pub delete_place : ℕ → Store × Sequencer → Store × Sequencer
  unfolding memory_raw_values
  delete_place i (store, s) =
      let deleted = delete_pattern_memory nvm i (store, s) in
      (
        deleted.0,
        memory_raw_values (
            if s.active_memory_slot == i
            then record deleted.1 { active_memory_slot = 17 }
            else deleted.1),
      )

  unfoldable pub load_place : ℕ → Store × Sequencer → Store × Sequencer
  unfolding memory_raw_values
  load_place i (store, s) = (
    store,
    memory_raw_values
        (with_active i (u8 (s.raw_value i / 100)) (load_pattern_memory nvm store i s)),
  )

  unfoldable pub save_place : ℕ → Store × Sequencer → Store × Sequencer
  unfolding memory_raw_values
  save_place i (store, s) =
      let saved = save_pattern_memory nvm i (store, s) in
      (
        saved.0,
        memory_raw_values
            (with_active i 127 record saved.1 { raw_value = assign s.raw_value i 12700 }),
      )

  -- A press in the display of the memory: with the shift it deletes, otherwise it loads a full place and fills an
  -- empty one.
  unfoldable pub memory_button : ℕ → Store × Sequencer → Store × Sequencer
  unfolding delete_place load_place save_place
  memory_button i (store, s) =
      if s.shift_active
      then delete_place i (store, s)
      else if not (bit_and s.memory_slot_state (u16 (1 <<< i)) == 0)
      then load_place i (store, s)
      else save_place i (store, s)

  unfoldable pub process_seq_enc_buttons : ℕ → Bool → Store × Sequencer → Store × Sequencer
  unfolding default_button memory_button toggle_step
  process_seq_enc_buttons i downpress (store, s) = elim s.display_state [
    | display_off ↦ (store, s)
    | display_default ↦ (store, default_button (is_row_type i) i downpress s)
    | pattern_memory ↦ if downpress then memory_button i (store, s) else (store, s)
    | pattern_edit ↦ (store, if downpress then toggle_step i s else s)
  ]

-- Switches 1 and 4: the shift of the default display, and the way back to it. Only switch 1 draws it.
unfoldable pub shift_or_back : Bool → Bool → Sequencer → Sequencer
shift_or_back draws sw_down s =
    let back = record s { display_state = display_default } in
    elim s.display_state [
      | display_default ↦ do_alternate_functions sw_down s
      | display_off ↦ if sw_down then s else if draws then default_raw_values back else back
      | pattern_memory ↦ if sw_down then s else if draws then default_raw_values back else back
      | pattern_edit ↦ if sw_down then s else if draws then default_raw_values back else back
    ]

-- Switch 5, for a press and for a release.
unfoldable pub memory_or_shift : Bool → Sequencer → Sequencer
memory_or_shift sw_down s = elim s.display_state [
  | pattern_memory ↦ record s { shift_active = sw_down }
  | display_default ↦ record s { display_state = pattern_memory }
  | display_off ↦ record s { display_state = pattern_memory }
  | pattern_edit ↦ record s { display_state = pattern_memory }
]

unfoldable pub side_button : ℕ → Bool → Sequencer → Sequencer
unfolding shift_or_back memory_or_shift
side_button i sw_down s =
    if i == 0
    then (if sw_down then reset_sequence s else s)
    else if i == 1
    then shift_or_back true sw_down s
    else if i == 2
    then sync_clock s
    else if i == 3
    then (if sw_down && not s.shift_active then play_or_stop_sequence s else s)
    else if i == 4
    then shift_or_back false sw_down s
    else memory_or_shift sw_down s

-- `(state & bit) != (prev & bit)` tells a change; the switch went down if its old bit is 0.
unfoldable pub one_side_button : ℕ → ℕ → Sequencer → Sequencer
unfolding side_button
one_side_button seq_side_sw_state i s =
    let bit : ℕ = u8 (1 <<< i) in
    let before = bit_and s.prev_seq_side_sw_state bit in
    if bit_and seq_side_sw_state bit == before then s else side_button i (before == 0) s

-- `seq_side_sw_state` is the result of `update_side_switch_state`.
unfoldable pub process_seq_side_buttons : ℕ → Sequencer → Sequencer
unfolding one_side_button
process_seq_side_buttons seq_side_sw_state s =
    if s.seq_traktor_mode && is_off s.display_state
    then s
    else record (for_range 6 0 (one_side_button seq_side_sw_state) s) {
      prev_seq_side_sw_state = seq_side_sw_state;
    }
