-- ===== src/Sequencer/Host.antt =====
-- src/sequencer.c, `process_seq_midi`, with what the displays of src/sequencer_display.c write besides drawing, and
-- from src/sequencer_input.c the messages that tell the host all settings.
use midi_fighter_twister_ope.Base.{
  ◌||◌, ℕ, ◌+◌, ◌-◌, ◌*◌, ◌/◌, ◌%◌, Bool, true, false, not, ◌&&◌, leb, ◌==◌, if◌then◌else◌, u16,
  for_range,
}
use midi_fighter_twister_ope.Encoders.{assign}
use midi_fighter_twister_ope.Device.{OpMode}
use midi_fighter_twister_ope.Sequencer.{
  is_within, Sequencer, SlotSettings, disabled, wait_for_sync, playback, display_off,
  display_default, pattern_memory, pattern_edit, is_default, is_sequencer, assign_slot, send_seq_cc,
  sync_clock, get_step_state,
}
use midi_fighter_twister_ope.Sequencer.Alternate.{default_raw_values}

-- `build_pattern_memory_display`.
unfoldable pub memory_raw_values : Sequencer → Sequencer
memory_raw_values s = for_range 16 0 (λ i s. record s { raw_value = assign s.raw_value i 12700 }) s

-- `build_pattern_edit_display`.
unfoldable pub edit_raw_values : Sequencer → Sequencer
edit_raw_values s =
    for_range 16 0
      (λ i s. record s {
        raw_value = assign s.raw_value i (u16 (get_step_state s s.selected_slot i * 100));
        overrun = s.overrun || not (is_within s s.selected_slot i);
      })
      s

unfoldable pub init_seq_display : Sequencer → Sequencer
unfolding memory_raw_values edit_raw_values
init_seq_display s = elim s.display_state [
  | display_off ↦ s
  | display_default ↦ default_raw_values s
  | pattern_memory ↦ memory_raw_values s
  | pattern_edit ↦ edit_raw_values s
]

-- `build_default_display()`, if that display is shown.
unfoldable pub redraw : Sequencer → Sequencer
redraw s = if is_default s.display_state && is_sequencer s.mode then default_raw_values s else s

-- A write to the settings of a slot.
abbrev pub with_slot : ℕ → SlotSettings → Sequencer → Sequencer
with_slot slot settings s = record s { slot_settings = assign_slot s.slot_settings slot settings }

-- `cc_value ? 1 : 0`.
abbrev pub is_set : ℕ → Bool
is_set cc_value = not (cc_value == 0)

-- The four settings from `SEQ_SETTINGS_OFFSET` on.
unfoldable pub set_slot_setting : ℕ → ℕ → Bool → Sequencer → Sequencer
unfolding redraw
set_slot_setting setting slot on s =
    let old = s.slot_settings slot in
    if setting == 0
    then with_slot slot (record old { keylock = on }) s
    else if setting == 1
    then redraw (with_slot slot (record old { fx_send = on }) s)
    else if setting == 2
    then with_slot slot (record old { monitor = on }) s
    else with_slot slot (record old { punch_mode = on }) s

-- The host starts and stops the sequence.
unfoldable pub host_play : Bool → Sequencer → Sequencer
host_play true s = elim s.seq_state [
  | disabled ↦ record s { seq_state = wait_for_sync }
  | wait_for_sync ↦ s
  | playback ↦ s
]
host_play false s = record s { seq_state = disabled; rythm_index = 0; start_pattern = false }

-- The first message of `SEQ_ENABLE_CC`.
unfoldable pub host_enable : Sequencer → Sequencer
unfolding init_seq_display sync_clock
host_enable s =
    if s.init
    then sync_clock
        (record (init_seq_display record s { seq_traktor_mode = true; mode = OpMode.sequencer }) {
          init = false;
        })
    else s

unfoldable pub process_seq_midi : ℕ → ℕ → Sequencer → Sequencer
unfolding redraw set_slot_setting host_play host_enable
process_seq_midi cc_number cc_value s =
    let on = is_set cc_value in
    if leb 20 cc_number && leb cc_number 23
    then redraw (
        with_slot (cc_number - 20) (record (s.slot_settings (cc_number - 20)) { mute_on = not on })
          s)
    else if leb 24 cc_number && leb cc_number 27
    then redraw (
        with_slot (cc_number - 24) (record (s.slot_settings (cc_number - 24)) { filter_on = on }) s)
    else if leb 102 cc_number && leb cc_number 117
    then set_slot_setting ((cc_number - 102) / 4) ((cc_number - 102) % 4) on s
    else if cc_number == 15
    then host_enable s
    else if cc_number == 14
    then host_play on s
    else s

abbrev pub seven_bit_flag : Bool → ℕ
seven_bit_flag on = if on then 127 else 0

-- The last of the four messages of a slot has the value of the filter, with the number of its switch.
unfoldable pub push_slot : ℕ → Sequencer → Sequencer
push_slot i s =
    let settings = s.slot_settings i in
    send_seq_cc (24 + i) settings.filter (
      send_seq_cc (102 + i + 4) (seven_bit_flag settings.fx_send) (
        send_seq_cc (24 + i) (seven_bit_flag settings.filter_on)
          (send_seq_cc (20 + i) (seven_bit_flag settings.mute_on) s)))

unfoldable pub push_all_parameters : Sequencer → Sequencer
unfolding push_slot
push_all_parameters s = for_range 4 0 push_slot s
