-- ===== src/Sequencer/Indices/Reachable.antt =====
-- src/sequencer.c and src/sequencer_input.c: whatever the clock, the timer, the host and the user do, in any order, the
-- step that is played and the slot that is edited stay in range.
use midi_fighter_twister_ope.Base.{Option, some, none, ℕ, Bool, List, [], ◌∷◌, if◌then◌else◌}
use midi_fighter_twister_ope.Nvm.{Nvm}
use midi_fighter_twister_ope.Sequencer.{Sequencer}
use midi_fighter_twister_ope.Sequencer.Triggers.{real_time_stop, do_task, seq_midi_clock_handler}
use midi_fighter_twister_ope.Sequencer.Host.{init_seq_display, process_seq_midi}
use midi_fighter_twister_ope.Sequencer.Buttons.{process_seq_side_buttons}
use midi_fighter_twister_ope.Sequencer.Turns.{SwitchBits, process_sequencer_input}

-- What happens to the sequencer: a message of the MIDI clock, its stop, the interrupt of the timer, a message of the
-- host, a state of the side switches, a pass over the encoders, and the change of the display by
-- `run_sequencer_display`, which may come at any time here.
pub data Event : Type 0 where
  clock : Bool → ℕ → Event
  clock_stop : Event
  timer : Event
  host : ℕ → ℕ → Event
  side_switches : ℕ → Event
  encoders : SwitchBits → (ℕ → ℕ) → Event
  new_display : Event

module _ (divide : ℕ → ℕ) (nvm : Nvm) where
  open nvm use {Store}

  unfoldable pub run_event : Event → Store × Sequencer → Store × Sequencer
  run_event (clock is_stable tick) (store, s) = (store, seq_midi_clock_handler is_stable tick s)
  run_event clock_stop (store, s) = (store, real_time_stop s)
  run_event new_display (store, s) = (store, init_seq_display s)
  run_event timer (store, s) = (store, do_task s)
  run_event (host cc value) (store, s) = (store, process_seq_midi cc value s)
  run_event (side_switches bits) (store, s) = (store, process_seq_side_buttons bits s)
  run_event (encoders bits ticks) start = process_sequencer_input divide nvm bits ticks start

  -- An event that reads or writes beyond the table of patterns ends the run with `none`.
  unfoldable pub run_events : List Event → Store × Sequencer → Option (Store × Sequencer)
  run_events [] start = some start
  run_events (e ∷ rest) start =
      let next = run_event e start in
      let end = run_events rest next in if next.1.overrun then none else end
