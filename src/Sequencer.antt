-- ===== src/Sequencer.antt =====
-- src/sequencer.h, src/sequencer.c and src/sequencer_input.c: the step sequencer of the build with four banks
-- (without EXTENDED_BANKS): its state, and what reads and writes a step of a pattern.
pub mod Triggers
pub mod Memory
pub mod Shift
pub mod Alternate
pub mod Clock
pub mod Notes
pub mod Host
pub mod Buttons
pub mod Presses
pub mod Turns
pub mod Indices
use midi_fighter_twister_ope.Base.{
  ℕ, zero, suc, ◌+◌, ◌-◌, ◌*◌, ◌/◌, ◌%◌, Bool, true, false, not, ◌&&◌, ◌||◌, List, [], ◌∷◌, ◌++◌,
  Option, none, some, ltb, leb, ◌==◌, if◌then◌else◌, u8, u16, bit_and, for_range,
}
use midi_fighter_twister_ope.Midi.{EventPacket, midi_stream_raw_cc, midi_stream_raw_note}
use midi_fighter_twister_ope.Encoders.{assign, assign_cell}
use midi_fighter_twister_ope.Device.{OpMode}

-- `seq_state_t`.
pub data SeqState : Type 0 where
  disabled : SeqState
  wait_for_sync : SeqState
  playback : SeqState

-- `displayMode_t`.
pub data DisplayMode : Type 0 where
  display_off : DisplayMode
  display_default : DisplayMode
  pattern_memory : DisplayMode
  pattern_edit : DisplayMode

-- `rowTypes_t`.
pub data RowType : Type 0 where
  clip_selection : RowType
  pattern_selection : RowType
  volume_adjust : RowType
  filter_adjust : RowType

-- `slotSettings_t`.
pub record SlotSettings : Type 0 where
  pub keylock : Bool
  pub fx_send : Bool
  pub monitor : Bool
  pub punch_mode : Bool
  pub mute_on : Bool
  pub filter_on : Bool
  pub volume : ℕ
  pub filter : ℕ

-- `slot_memory_t`.
pub record SlotMemory : Type 0 where
  pub clip : ℕ
  pub buffer : ℕ
  pub step_states : ℕ → ℕ

-- The tasks that the sequencer gives to the scheduler of src/input.c.
pub data Task : Type 0 where
  task_schedule_trigger : Task
  task_send_triggers : Task

-- The variables of the sequencer, with the mode of the device, the task that is scheduled and the packets that are
-- sent, oldest first. The arrays are functions of an index in range; `mod_level` and
-- `seq_detent_counter` are signed bytes.
pub record Sequencer : Type 0 where
  pub seq_state : SeqState
  pub rythm_index : ℕ
  pub start_pattern : Bool
  pub seq_traktor_mode : Bool
  pub init : Bool
  pub pattern : ℕ → ℕ → ℕ → ℕ
  pub slot_selected_buffer : ℕ → ℕ
  pub slot_clip : ℕ → ℕ
  pub slot_settings : ℕ → SlotSettings
  pub selected_slot : ℕ
  pub display_state : DisplayMode
  pub raw_value : ℕ → ℕ
  pub seq_detent_counter : ℕ → ℕ
  pub mod_level : ℕ → ℕ
  pub button_down_counter : ℕ → ℕ
  pub truncate_value : ℕ
  pub shift_active : Bool
  pub active_memory_slot : ℕ
  pub memory_slot_state : ℕ
  pub slot_memory : ℕ → SlotMemory
  pub prev_seq_side_sw_state : ℕ
  pub mode : OpMode
  pub scheduled_task : Option Task
  pub sent : List EventPacket
  pub overrun : Bool

abbrev pub is_off : DisplayMode → Bool
is_off display_off = true
is_off _ = false

abbrev pub is_default : DisplayMode → Bool
is_default display_default = true
is_default _ = false

abbrev pub is_sequencer : OpMode → Bool
is_sequencer OpMode.sequencer = true
is_sequencer _ = false

-- Writes to an element of a table of patterns or of settings.
abbrev pub assign_step : (ℕ → ℕ → ℕ → ℕ) → ℕ → ℕ → ℕ → ℕ → ℕ → ℕ → ℕ → ℕ
assign_step table slot buffer step v a b c =
    if (a == slot) && (b == buffer) && (c == step) then v else table a b c

abbrev pub assign_slot {ℓ} : {A : Type ℓ} → (ℕ → A) → ℕ → A → ℕ → A
assign_slot table slot v a = if a == slot then v else table a

abbrev pub seq_channel : ℕ
seq_channel = 7

abbrev pub send_seq : EventPacket → Sequencer → Sequencer
send_seq p s = record s { sent = s.sent ++ p ∷ [] }

abbrev pub send_seq_cc : ℕ → ℕ → Sequencer → Sequencer
send_seq_cc cc value s = send_seq (midi_stream_raw_cc seq_channel cc value) s

-- Whether `pattern[slot][slotSelectedBuffer[slot]][step]` is in the table of 4 slots, 12 patterns and 16 steps. Once
-- an access was not, `overrun` is set: what the code does then is undefined.
abbrev pub is_within : Sequencer → ℕ → ℕ → Bool
is_within s slot step = ltb slot 4 && ltb (s.slot_selected_buffer slot) 12 && ltb step 16

-- The reads of the selected patterns of all slots.
abbrev pub all_within : Sequencer → Bool
all_within s = is_within s 0 0 && is_within s 1 0 && is_within s 2 0 && is_within s 3 0

-- The value that is read; who calls it sets `overrun`.
unfoldable pub get_step_state : Sequencer → ℕ → ℕ → ℕ
get_step_state s slot step = s.pattern slot (s.slot_selected_buffer slot) step

unfoldable pub set_step_state : ℕ → ℕ → ℕ → Sequencer → Sequencer
set_step_state slot step volume s = record s {
  pattern = assign_step s.pattern slot (s.slot_selected_buffer slot) step volume;
  overrun = s.overrun || not (is_within s slot step);
}

abbrev pub get_slot_clip : Sequencer → ℕ → ℕ
get_slot_clip s slot = s.slot_clip slot

abbrev pub set_slot_clip : ℕ → ℕ → Sequencer → Sequencer
set_slot_clip slot clip s = record s { slot_clip = assign s.slot_clip slot clip }

-- `sync_clock`: Traktor's clock is switched on and off.
unfoldable pub sync_clock : Sequencer → Sequencer
sync_clock s = send_seq_cc 15 0 (send_seq_cc 15 127 s)

unfoldable pub reset_sequence : Sequencer → Sequencer
reset_sequence s = record s { rythm_index = 0 }

-- `is_row_type`; beyond 15 it gives `false`, which is the first type.
unfoldable pub is_row_type : ℕ → RowType
is_row_type idx =
    if leb idx 3
    then clip_selection
    else if leb 4 idx && leb idx 7
    then pattern_selection
    else if leb 8 idx && leb idx 11
    then volume_adjust
    else if leb 12 idx && leb idx 15
    then filter_adjust
    else clip_selection
