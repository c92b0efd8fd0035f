-- ===== src/SequencerTests.antt =====
-- The theorems on the sequencer at concrete inputs: an EEPROM of which every byte is 0xff, and patterns that
-- differ in every slot and step.
use midi_fighter_twister_ope.Base.{
  ℕ, List, ◌∷◌, ◌==◌, if◌then◌else◌, ltb, not, ◌||◌, all_below, below_all, ◌+◌, ◌*◌, ◌/◌, ◌%◌, ◌≡◌,
  refl, arith, true, false, none, [], bit,
}
use midi_fighter_twister_ope.Midi.{midi_stream_raw_note}
use midi_fighter_twister_ope.Nvm.{array_nvm}
use midi_fighter_twister_ope.Device.{OpMode}
use midi_fighter_twister_ope.Sequencer.{
  Sequencer, disabled, playback, wait_for_sync, pattern_memory, display_default, get_step_state,
  seq_channel,
}
use midi_fighter_twister_ope.Sequencer.Triggers.{
  send_triggers, slot_note, slot_velocity, repeats_beat,
}
use midi_fighter_twister_ope.Sequencer.Memory.{
  pattern_memory_init, save_pattern_memory, delete_pattern_memory,
}
use midi_fighter_twister_ope.Sequencer.Memory.Restore.{HasLevels}
use midi_fighter_twister_ope.Sequencer.Memory.Slots.{
  power_up, saved, deleted, Reach-pattern_memory_init,
}
use midi_fighter_twister_ope.Sequencer.Buttons.{process_seq_enc_buttons}
use midi_fighter_twister_ope.Sequencer.Presses.{process_seq_enc_buttons_lem}
use midi_fighter_twister_ope.Sequencer.Turns.{SwitchBits, has_bit, process_sequencer_input}
use midi_fighter_twister_ope.Sequencer.Turns.Bounds.{InRange}
use midi_fighter_twister_ope.Sequencer.Turns.Pass.{NoneHeld, process_sequencer_input-InRange}
use midi_fighter_twister_ope.Sequencer.Indices.Reachable.{
  Event, clock, timer, host, side_switches, encoders, run_event,
}
use midi_fighter_twister_ope.Sequencer.Clock.{clock_run, stable_run, clock_run_lem}
use midi_fighter_twister_ope.Sequencer.Notes.{IsNew, send_triggers-IsNew}
use midi_fighter_twister_ope.Sequencer.Alternate.{do_alternate_functions}
use midi_fighter_twister_ope.Sequencer.Alternate.Undo.{do_alternate_functions_lem}
use midi_fighter_twister_ope.Sequencer.Shift.{shift_pattern}
use midi_fighter_twister_ope.Sequencer.Shift.Rotation.{shift_pattern-shift_pattern}

abbrev erased : ℕ → ℕ
erased a = 0xff

abbrev playing : Sequencer
playing = record {
  seq_state = playback;
  rythm_index = 15;
  start_pattern = false;
  seq_traktor_mode = false;
  init = true;
  pattern = λ a b c. a * 16 + c + 1;
  slot_selected_buffer = λ a. a + 1;
  slot_clip = λ a. a + 2;
  slot_settings = λ a. record {
    keylock = true;
    fx_send = false;
    monitor = false;
    punch_mode = false;
    mute_on = false;
    filter_on = false;
    volume = 100;
    filter = 63;
  };
  selected_slot = 0;
  display_state = pattern_memory;
  raw_value = λ a. 0;
  seq_detent_counter = λ a. 0;
  mod_level = λ a. 0;
  button_down_counter = λ a. 0;
  truncate_value = 1;
  shift_active = false;
  active_memory_slot = 0;
  memory_slot_state = 0;
  slot_memory = λ a. record { clip = 0; buffer = 0; step_states = λ j. 0 };
  prev_seq_side_sw_state = 0;
  mode = OpMode.sequencer;
  scheduled_task = none;
  sent = [];
  overrun = false;
}

playing-HasLevels : HasLevels playing
playing-HasLevels = record {
  steps = λ a b c h k l. omega arith;
  clips = λ a h. omega arith;
  buffers = λ a h. omega arith;
  filters = λ a h. omega arith;
  volumes = λ a h. omega arith;
}

-- Behind the first press, all patterns are cleared.
abbrev cleared : Sequencer
cleared = record ((process_seq_enc_buttons array_nvm 5 true (erased, playing)).1) {
  display_state = pattern_memory;
  shift_active = false;
  pattern = λ a b c. 0;
}

process_seq_enc_buttons_example :
    (let first = process_seq_enc_buttons array_nvm 5 true (erased, playing) in
      let second = process_seq_enc_buttons array_nvm 5 true (first.0, cleared) in
      (second.0 ≡ first.0)
      × (get_step_state second.1 3 15 ≡ get_step_state playing 3 15 / 8 * 8)
      × (second.1.slot_clip 3 ≡ 5)
      × ((second.1.slot_settings 3).filter ≡ 63)
      × ((second.1.slot_settings 3).volume ≡ 100))
process_seq_enc_buttons_example =
    process_seq_enc_buttons_lem array_nvm 5 erased playing cleared 3 15 (omega arith)
      playing-HasLevels refl refl refl refl refl refl (omega arith) (omega arith)

-- Two places are saved, and the first is deleted.
Reach-pattern_memory_init_example :
    (let start = pattern_memory_init array_nvm erased playing in
      let one = save_pattern_memory array_nvm 3 (erased, start) in
      let two = save_pattern_memory array_nvm 9 one in
      let left = delete_pattern_memory array_nvm 3 two in
      bit left.1.memory_slot_state 9
      ≡ bit (pattern_memory_init array_nvm left.0 left.1).memory_slot_state 9)
Reach-pattern_memory_init_example = Reach-pattern_memory_init array_nvm erased _ _ 9 (omega arith) (
    deleted 3 _ _ _ _ (omega arith)
      (saved 9 _ _ _ _ (omega arith) (saved 3 _ _ _ _ (omega arith) (power_up playing) refl) refl)
      refl)

clock_run_example :
    ((clock_run 96 playing).rythm_index ≡ (15 + 101 / 6) % 16)
    × ((stable_run 96 playing).rythm_index ≡ (15 + 97 / 6) % 16)
    × (clock_run 97 (record playing { seq_state = wait_for_sync }) ≡ clock_run 97 playing)
clock_run_example = clock_run_lem 96 playing refl (omega arith) refl

send_triggers-IsNew_example :
    IsNew
      (midi_stream_raw_note seq_channel (slot_note playing 2) true (slot_velocity playing 2))
      []
      (send_triggers playing).sent
    × IsNew
        (midi_stream_raw_note seq_channel (slot_note playing 2) false 127)
        (send_triggers playing).sent
        (send_triggers (send_triggers playing)).sent
unfolding send_triggers get_step_state repeats_beat
send_triggers-IsNew_example =
    send_triggers-IsNew playing (send_triggers playing) 2 (omega arith) refl refl (omega arith) refl
      (omega arith) refl refl refl refl refl

do_alternate_functions_example :
    (let shifted = do_alternate_functions true playing in
      let changed = record shifted { pattern = λ a b c. 0; slot_clip = λ a. 0 } in
      (shifted.pattern ≡ playing.pattern)
      × (shifted.slot_selected_buffer ≡ playing.slot_selected_buffer)
      × (shifted.slot_clip ≡ playing.slot_clip)
      × ((do_alternate_functions false changed).slot_clip 3 ≡ 5)
      × ((do_alternate_functions false changed).slot_selected_buffer 3 ≡ 4)
      × (get_step_state (do_alternate_functions false changed) 3 15 ≡ get_step_state playing 3 15))
do_alternate_functions_example =
    do_alternate_functions_lem playing
      (record (do_alternate_functions true playing) { pattern = λ a b c. 0; slot_clip = λ a. 0 }) 3
      15 refl refl (omega arith) (omega arith)

abbrev shown : Sequencer
shown = record playing { display_state = display_default; slot_selected_buffer = λ a. a }

abbrev pressed : SwitchBits
pressed = record { down = 0x2004; up = 0; state = 0x2004 }

abbrev turned : ℕ → ℕ
turned i = if i % 2 == 0 then 0xff else 2

pressed-NoneHeld : NoneHeld pressed
unfolding all_below
pressed-NoneHeld = record {
  selectors = λ i low high.
      let table = below_all 8 (λ i. ltb i 4 || not (has_bit 0x2004 i)) i (omega arith) refl in
      ground (arith, table);
}

shown-InRange : InRange shown
shown-InRange = record {
  raws = λ k. omega arith;
  steps = λ a b c l m. omega arith;
  filters = λ a l. omega arith;
  volumes = λ a l. omega arith;
  clips = λ a l. omega arith;
  buffers = λ a l. omega arith;
  released = λ a. refl;
  shown = refl;
  slot = omega arith;
  within = refl;
}

shift_pattern-shift_pattern_example :
    ((shift_pattern 2 true playing).pattern 2 3 0 ≡ 48)
    × ((shift_pattern 2 false (shift_pattern 2 true playing)).pattern 2 3 0 ≡ 33)
shift_pattern-shift_pattern_example = shift_pattern-shift_pattern 2 true playing 2 3 0 (omega arith)

-- Every encoder is turned, by a step back or by two forward, and the switches 2 and 13 are pressed.
process_sequencer_input-InRange_example :
    (let used =
        process_sequencer_input (λ x. x * 100 / 1155) array_nvm pressed turned (erased, shown) in
      (used.0 ≡ erased) × InRange used.1)
process_sequencer_input-InRange_example =
    process_sequencer_input-InRange (λ x. x * 100 / 1155) array_nvm pressed turned erased shown
      (λ x. omega arith) pressed-NoneHeld shown-InRange

-- The host starts the sequence, the clock plays a step, a pattern is opened with switch 6 and the memory with side
-- switch 5, and the clock goes on.
abbrev events : List Event
events =
    host 14 127
    ∷ clock false 0
    ∷ encoders record { down = 0; up = 0x40; state = 0 } turned
    ∷ clock true 4
    ∷ timer
    ∷ side_switches 0x20
    ∷ clock false 6
    ∷ []

abbrev at_rest : Sequencer
at_rest = record shown { seq_state = disabled; rythm_index = 0 }

-- The state behind them.
abbrev behind : List Event → Sequencer → Sequencer
behind [] s = s
behind (e ∷ rest) s = behind rest (run_event (λ x. x * 100 / 1155) array_nvm e (erased, s)).1
