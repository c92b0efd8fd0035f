-- ===== src/Sequencer/Alternate.antt =====
-- src/sequencer_input.c, `do_alternate_functions`: while the shift is held the sounds can be changed, and its
-- release brings them back.
pub mod Undo
use midi_fighter_twister_ope.Base.{
  ◌||◌, ◌&&◌, ltb, ℕ, ◌*◌, ◌+◌, Bool, true, false, not, if◌then◌else◌, u16, for_range,
}
use midi_fighter_twister_ope.Encoders.{assign}
use midi_fighter_twister_ope.Device.{normal}
use midi_fighter_twister_ope.Sequencer.{
  is_within, Sequencer, SlotMemory, get_step_state, set_step_state, get_slot_clip, set_slot_clip,
  assign_slot,
}

-- What `build_default_display` does besides drawing: the raw values of the four rows.
unfoldable pub default_raw_values : Sequencer → Sequencer
default_raw_values s =
    for_range 4 0
      (λ i s. record s {
        raw_value =
            assign
              (assign
                (assign (assign s.raw_value i (u16 (get_slot_clip s i * 1270))) (i + 4)
                  (u16 (s.slot_selected_buffer i * 1270)))
                (8 + i) ((s.slot_settings i).volume * 100))
              (12 + i) ((s.slot_settings i).filter * 100);
      })
      s

-- A round of the loop at a press.
unfoldable pub store_slot : ℕ → Sequencer → Sequencer
store_slot i s = record s {
  slot_memory = assign_slot s.slot_memory i record {
    clip = get_slot_clip s i;
    buffer = s.slot_selected_buffer i;
    step_states =
        for_range 16 0 (λ j steps. assign steps j (get_step_state s i j))
          (s.slot_memory i).step_states;
  };
  overrun = s.overrun || not (is_within s i 0);
}

-- A round of the loop at a release.
unfoldable pub restore_slot : ℕ → Sequencer → Sequencer
restore_slot i s =
    let memory = s.slot_memory i in
    let selected = record (set_slot_clip i memory.clip s) {
      slot_selected_buffer = assign s.slot_selected_buffer i memory.buffer;
    } in
    for_range 16 0 (λ j s. set_step_state i j (memory.step_states j) s) selected

-- A press with the shift on leaves the sequencer; the display of the encoders is then drawn again.
unfoldable pub do_alternate_functions : Bool → Sequencer → Sequencer
unfolding store_slot restore_slot default_raw_values
do_alternate_functions true s =
    if s.shift_active
    then record s { mode = normal }
    else for_range 4 0 store_slot record s { shift_active = true }
do_alternate_functions false s =
    default_raw_values (for_range 4 0 restore_slot record s { shift_active = false })
