-- ===== src/Sequencer/Triggers.antt =====
-- src/sequencer.c: the notes of a step, the clock and the task of the scheduler (src/input.c) that plays it.
use midi_fighter_twister_ope.Base.{
  ◌||◌, not, ℕ, ◌+◌, ◌-◌, ◌*◌, ◌/◌, ◌%◌, Bool, true, false, ◌&&◌, List, [], ◌∷◌, ◌++◌, none, some,
  ltb, leb, ◌==◌, if◌then◌else◌, u8, for_range,
}
use midi_fighter_twister_ope.Midi.{EventPacket, midi_stream_raw_cc, midi_stream_raw_note}
use midi_fighter_twister_ope.Sequencer.{
  reset_sequence, all_within, Sequencer, disabled, wait_for_sync, playback, Task,
  task_schedule_trigger, task_send_triggers, get_step_state, get_slot_clip, send_seq_cc,
  seq_channel,
}

unfoldable pub play_or_stop_sequence : Sequencer → Sequencer
play_or_stop_sequence s = elim s.seq_state [
  | disabled ↦ send_seq_cc 14 127 (record s { seq_state = wait_for_sync })
  | wait_for_sync ↦ send_seq_cc 14 0 (record s { seq_state = disabled; rythm_index = 0 })
  | playback ↦ send_seq_cc 14 0 (record s { seq_state = disabled; rythm_index = 0 })
]

-- `states[rate]`.
abbrev pub states : ℕ → ℕ
states rate = if rate == 0 then 0 else if rate == 1 then 4 else if rate == 2 then 2 else 1

-- Whether the slot repeats the beat: `mod_level` is above 9 as a signed byte.
unfoldable pub repeats_beat : Sequencer → ℕ → Bool
repeats_beat s i = leb 10 (s.mod_level i) && ltb (s.mod_level i) 128

abbrev pub slot_note : Sequencer → ℕ → ℕ
slot_note s i = u8 (36 + i + get_slot_clip s i * 4)

-- The level that a slot plays with in a step, 0 for none.
unfoldable pub slot_level : Sequencer → ℕ → ℕ
unfolding repeats_beat
slot_level s i =
    let level : ℕ = s.mod_level i / 10 in
    let rate : ℕ = if ltb 3 level then 3 else level in
    if repeats_beat s i
    then (if s.rythm_index % states rate == 0 then 127 else 0)
    else get_step_state s i s.rythm_index

abbrev pub previous_step : ℕ → ℕ
previous_step step = if step == 0 then 15 else step - 1

unfoldable pub slot_velocity : Sequencer → ℕ → ℕ
unfolding slot_level
slot_velocity s i = u8 (slot_level s i * (s.slot_settings i).volume / 127)

-- What is sent for a slot: the end of the step before, then the new note with the volume of the slot.
unfoldable pub slot_messages : Sequencer → ℕ → List EventPacket
unfolding slot_velocity
slot_messages s i =
    let note = slot_note s i in
    (if get_step_state s i (previous_step s.rythm_index) == 0
      then []
      else midi_stream_raw_note seq_channel note false 127 ∷ [])
    ++ (if slot_level s i == 0
        then []
        else midi_stream_raw_note seq_channel note true (slot_velocity s i)
          ∷ midi_stream_raw_cc seq_channel (10 + i) (slot_velocity s i)
          ∷ [])

-- The packets change nothing that the notes depend on.
unfoldable pub send_triggers : Sequencer → Sequencer
unfolding slot_messages
send_triggers s = elim s.seq_state [
  | playback ↦
      let messages = for_range 4 0 (λ i sent. sent ++ slot_messages s i) s.sent in
      let wraps : Bool = s.rythm_index + 1 == 16 in
      record s {
        sent = messages;
        rythm_index = if wraps then 0 else u8 (s.rythm_index + 1);
        start_pattern = if wraps then true else s.start_pattern;
        overrun = s.overrun || not (all_within s);
      }
  | wait_for_sync ↦ s
  | disabled ↦ s
]

-- `schedule_task`, which takes a task only if none is scheduled; when it is due is up to the timer.
unfoldable pub schedule_task : Task → Sequencer → Sequencer
schedule_task task s = elim s.scheduled_task [
  | none ↦ record s { scheduled_task = some task }
  | some other ↦ s
]

unfoldable pub cancel_task : Sequencer → Sequencer
cancel_task s = record s { scheduled_task = none }

-- `real_time_stop` of src/midi.c.
unfoldable pub real_time_stop : Sequencer → Sequencer
unfolding cancel_task
real_time_stop s = cancel_task (reset_sequence s)

-- `schedule_trigger`; the time depends on the counts of a tick and on `seq_traktor_mode`.
unfoldable pub schedule_trigger : Sequencer → Sequencer
unfolding schedule_task
schedule_trigger s = schedule_task task_send_triggers s

abbrev pub run_task : Task → Sequencer → Sequencer
run_task task_schedule_trigger s = schedule_trigger s
run_task task_send_triggers s = send_triggers s

-- `do_task`, the interrupt of the timer, which is enabled while a task is scheduled.
unfoldable pub do_task : Sequencer → Sequencer
unfolding schedule_trigger send_triggers cancel_task
do_task s = elim s.scheduled_task [ none ↦ s | some task ↦ run_task task (cancel_task s) ]

-- `is_stable` is `clock_is_stable()`.
unfoldable pub seq_midi_clock_handler : Bool → ℕ → Sequencer → Sequencer
unfolding send_triggers schedule_task
seq_midi_clock_handler is_stable tick s = elim s.seq_state [
  | wait_for_sync ↦ if tick == 0 then send_triggers (record s { seq_state = playback }) else s
  | playback ↦
      if is_stable
      then (if (tick + 2) % 6 == 0 then schedule_task task_schedule_trigger s else s)
      else if tick % 6 == 0
      then send_triggers s
      else s
  | disabled ↦ s
]
