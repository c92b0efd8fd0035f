-- ===== src/Sequencer/Indices.antt =====
-- src/sequencer.c and src/sequencer_input.c: the step that is played and the slot that is edited stay in range.
pub mod Inputs
pub mod Turned
pub mod Reachable
use midi_fighter_twister_ope.Base.{
  ℕ, zero, suc, ◌+◌, ◌-◌, ◌*◌, ◌/◌, ◌%◌, ◌<◌, ◌≤◌, ◌≡◌, ◌∙◌, refl, ap, arith, Bool, true, false,
  not, ◌&&◌, ◌||◌, ltb, leb, ◌==◌, if◌then◌else◌, for_range, for_range-Keeps, u8, u16, bit_and,
  ◌<<<◌, Option, none, some,
}
use midi_fighter_twister_ope.Nvm.{Nvm}
use midi_fighter_twister_ope.Encoders.{assign}
use midi_fighter_twister_ope.Sequencer.{
  Sequencer, SeqState, disabled, wait_for_sync, playback, Task, task_schedule_trigger,
  task_send_triggers, RowType, clip_selection, pattern_selection, volume_adjust, filter_adjust,
  DisplayMode, display_off, display_default, pattern_memory, pattern_edit, is_row_type,
  set_step_state, set_slot_clip,
}
use midi_fighter_twister_ope.Sequencer.Triggers.{
  send_triggers, schedule_task, schedule_trigger, cancel_task, run_task, do_task,
  seq_midi_clock_handler, play_or_stop_sequence,
}
use midi_fighter_twister_ope.Sequencer.Alternate.{
  default_raw_values, store_slot, restore_slot, do_alternate_functions,
}
use midi_fighter_twister_ope.Sequencer.Memory.{
  load_steps, load_slot, load_filter, load_volume, load_fx, load_bytes, send_if, put_filter,
  put_volume,
}

-- The two indices.
pub record Indexed (s : Sequencer) : Type 0 where
  pub rythm : s.rythm_index < 16
  pub slot : s.selected_slot < 4

pub if-Indexed : (b : Bool) (s t : Sequencer) → Indexed s → Indexed t → Indexed (if b then s else t)
if-Indexed true s t h k = h
if-Indexed false s t h k = k

pub by_state :
    {a b c : Sequencer} (q : SeqState)
    → Indexed a
    → Indexed b
    → Indexed c
    → Indexed (elim q [ disabled ↦ a | wait_for_sync ↦ b | playback ↦ c ])
by_state disabled x y z = x
by_state wait_for_sync x y z = y
by_state playback x y z = z

-- A loop whose rounds keep them.
pub loop-Indexed :
    (n i : ℕ) (round : ℕ → Sequencer → Sequencer) (s : Sequencer)
    → ((k : ℕ) (t : Sequencer) → Indexed t → Indexed (round k t))
    → Indexed s
    → Indexed (for_range n i round s)
loop-Indexed n i round s keep h =
    for_range-Keeps (λ _. Indexed) round n i (i + n) s refl (λ k t a b e. keep k t e) h

pub send_triggers-Indexed : (s : Sequencer) → Indexed s → Indexed (send_triggers s)
unfolding send_triggers
send_triggers-Indexed s h =
    by_state s.seq_state h h record { rythm = let r = h.rythm in ground arith; slot = h.slot }

schedule_task-Indexed : (task : Task) (s : Sequencer) → Indexed s → Indexed (schedule_task task s)
unfolding schedule_task
schedule_task-Indexed task s h = by_option s.scheduled_task
  where
    by_option :
        (o : Option Task)
        → Indexed (elim o [ none ↦ record s { scheduled_task = some task } | some other ↦ s ])
    by_option none = record { rythm = h.rythm; slot = h.slot }
    by_option (some other) = h

pub do_task-Indexed : (s : Sequencer) → Indexed s → Indexed (do_task s)
unfolding do_task schedule_trigger cancel_task
do_task-Indexed s h = by_option s.scheduled_task
  where
    idle : Indexed (record s { scheduled_task = none })
    idle = record { rythm = h.rythm; slot = h.slot }

    by_option :
        (o : Option Task)
        → Indexed (elim o [ none ↦ s | some task ↦ run_task task (cancel_task s) ])
    by_option none = h
    by_option (some task_schedule_trigger) = schedule_task-Indexed task_send_triggers _ idle
    by_option (some task_send_triggers) = send_triggers-Indexed _ idle

pub seq_midi_clock_handler-Indexed :
    (is_stable : Bool) (tick : ℕ) (s : Sequencer)
    → Indexed s
    → Indexed (seq_midi_clock_handler is_stable tick s)
unfolding seq_midi_clock_handler
seq_midi_clock_handler-Indexed is_stable tick s h =
    by_state s.seq_state h
      (if-Indexed (tick == 0) _ s
        (send_triggers-Indexed (record s { seq_state = playback })
          record { rythm = h.rythm; slot = h.slot })
        h)
      (if-Indexed is_stable _ _
        (if-Indexed ((tick + 2) % 6 == 0) _ s (schedule_task-Indexed task_schedule_trigger s h) h)
        (if-Indexed (tick % 6 == 0) _ s (send_triggers-Indexed s h) h))

pub play_or_stop_sequence-Indexed : (s : Sequencer) → Indexed s → Indexed (play_or_stop_sequence s)
unfolding play_or_stop_sequence
play_or_stop_sequence-Indexed s h =
    by_state s.seq_state record { rythm = h.rythm; slot = h.slot }
      record { rythm = omega arith; slot = h.slot } record { rythm = omega arith; slot = h.slot }

pub default_raw_values-Indexed : (s : Sequencer) → Indexed s → Indexed (default_raw_values s)
unfolding default_raw_values
default_raw_values-Indexed s h =
    loop-Indexed 4 0 _ s (λ k t e. record { rythm = e.rythm; slot = e.slot }) h

restore_slot-Indexed : (i : ℕ) (s : Sequencer) → Indexed s → Indexed (restore_slot i s)
unfolding restore_slot set_step_state
restore_slot-Indexed i s h =
    loop-Indexed 16 0 _ _ (λ k t e. record { rythm = e.rythm; slot = e.slot })
      record { rythm = h.rythm; slot = h.slot }

pub do_alternate_functions-Indexed :
    (down : Bool) (s : Sequencer) → Indexed s → Indexed (do_alternate_functions down s)
unfolding do_alternate_functions store_slot restore_slot set_step_state
do_alternate_functions-Indexed true s h =
    if-Indexed s.shift_active _ _ record { rythm = h.rythm; slot = h.slot }
      (loop-Indexed 4 0 store_slot _ (λ k t e. record { rythm = e.rythm; slot = e.slot })
        record { rythm = h.rythm; slot = h.slot })
do_alternate_functions-Indexed false s h =
    default_raw_values-Indexed _ (
      loop-Indexed 4 0 restore_slot _ restore_slot-Indexed
        record { rythm = h.rythm; slot = h.slot })

load_slot-Indexed :
    (byte : ℕ → ℕ) (i : ℕ) (s : Sequencer) → Indexed s → Indexed (load_slot byte i s)
unfolding load_slot load_steps set_step_state
load_slot-Indexed byte i s h =
    loop-Indexed 8 0 _ _ (λ k t e. record { rythm = e.rythm; slot = e.slot })
      record { rythm = h.rythm; slot = h.slot }

send_if-Indexed : (b : Bool) (cc : ℕ) (s : Sequencer) → Indexed s → Indexed (send_if b cc s)
send_if-Indexed true cc s h = record { rythm = h.rythm; slot = h.slot }
send_if-Indexed false cc s h = h

load_filter-Indexed :
    (byte : ℕ → ℕ) (i : ℕ) (s : Sequencer) → Indexed s → Indexed (load_filter byte i s)
unfolding load_filter
load_filter-Indexed byte i s h =
    send_if-Indexed _ _ (put_filter i (bit_and (byte (36 + i * 2)) 0x7F) s)
      record { rythm = h.rythm; slot = h.slot }

load_volume-Indexed :
    (byte : ℕ → ℕ) (i : ℕ) (s : Sequencer) → Indexed s → Indexed (load_volume byte i s)
unfolding load_volume
load_volume-Indexed byte i s h =
    send_if-Indexed _ _ (put_volume i (bit_and (byte (36 + i * 2 + 1)) 0x7F) s)
      record { rythm = h.rythm; slot = h.slot }

pub load_bytes-Indexed : (byte : ℕ → ℕ) (s : Sequencer) → Indexed s → Indexed (load_bytes byte s)
unfolding load_bytes load_fx
load_bytes-Indexed byte s h =
    loop-Indexed 4 0 (load_fx byte) _ (λ k t e. record { rythm = e.rythm; slot = e.slot })
      (loop-Indexed 4 0 (λ i s. load_volume byte i (load_filter byte i s)) _
        (λ k t e. load_volume-Indexed byte k _ (load_filter-Indexed byte k t e))
        (loop-Indexed 4 0 (λ i s. set_slot_clip i (byte (32 + i)) s) _
          (λ k t e. record { rythm = e.rythm; slot = e.slot })
          (loop-Indexed 4 0 (load_slot byte) s (λ k t e. load_slot-Indexed byte k t e) h)))
