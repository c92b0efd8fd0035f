-- ===== src/Sequencer/Clock.antt =====
-- src/sequencer.c: the steps that the MIDI clock plays, at once or by the scheduler.
use midi_fighter_twister_ope.Base.{
  ℕ, zero, suc, ◌+◌, ◌/◌, ◌%◌, ◌<◌, ◌≡◌, refl, ap, arith, true, false, ◌==◌, if◌then◌else◌, none,
  subst, sym,
}
use midi_fighter_twister_ope.Sequencer.{Sequencer, wait_for_sync, playback}
use midi_fighter_twister_ope.Sequencer.Triggers.{
  send_triggers, seq_midi_clock_handler, do_task, schedule_task, schedule_trigger, cancel_task,
}

pub next_step :
    (s : Sequencer)
    → s.seq_state ≡ playback
    → s.rythm_index < 16
    → ((send_triggers s).seq_state ≡ playback)
      × ((send_triggers s).rythm_index ≡ (s.rythm_index + 1) % 16)
      × ((send_triggers s).scheduled_task ≡ s.scheduled_task)
unfolding send_triggers
next_step s h l = ground arith

-- `n` messages of a clock that is not stable, from the tick 0 on.
unfoldable pub clock_run : ℕ → Sequencer → Sequencer
clock_run zero s = s
clock_run (suc n) s = seq_midi_clock_handler false (n % 24) (clock_run n s)

-- The same with a stable clock, in the schedule in which the timer has run the task that schedules the notes, and then
-- the one that plays them, before the next message.
unfoldable pub stable_run : ℕ → Sequencer → Sequencer
stable_run zero s = s
stable_run (suc n) s = do_task (do_task (seq_midi_clock_handler true (n % 24) (stable_run n s)))

-- In playback, with nothing scheduled, at step `r`.
record IsPlaying (r : ℕ) (s : Sequencer) : Type 0 where
  state : s.seq_state ≡ playback
  step : s.rythm_index ≡ r % 16
  idle : s.scheduled_task ≡ none

one_message :
    (n r : ℕ) (s : Sequencer)
    → IsPlaying r s
    → IsPlaying (if n % 24 % 6 == 0 then r + 1 else r) (seq_midi_clock_handler false (n % 24) s)
unfolding seq_midi_clock_handler
one_message n r s h =
    let next = next_step s h.state (omega (arith, h.step)) in
    record {
      state = let a = h.state in ground (arith, next);
      step = let a = h.state in let b = h.step in ground (arith, next);
      idle = let a = h.state in let b = h.idle in ground (arith, next);
    }

one_scheduled :
    (n r : ℕ) (s : Sequencer)
    → IsPlaying r s
    → IsPlaying
        (if (n % 24 + 2) % 6 == 0 then r + 1 else r)
        (do_task (do_task (seq_midi_clock_handler true (n % 24) s)))
unfolding seq_midi_clock_handler do_task schedule_task schedule_trigger cancel_task
one_scheduled n r s h =
    let next = next_step (record s { scheduled_task = none }) h.state (omega (arith, h.step)) in
    record {
      state = let a = h.state in let c = h.idle in ground (arith, next);
      step = let a = h.state in let b = h.step in let c = h.idle in ground (arith, next);
      idle = let a = h.state in let b = h.idle in ground (arith, next);
    }

clock_run-IsPlaying :
    (n r : ℕ) (s : Sequencer) → IsPlaying r s → IsPlaying (r + (n + 5) / 6) (clock_run n s)
unfolding clock_run
clock_run-IsPlaying zero r s h = let e : r + 5 / 6 ≡ r = omega arith in rw e h
clock_run-IsPlaying (suc n) r s h =
    let e : (if n % 24 % 6 == 0 then r + (n + 5) / 6 + 1 else r + (n + 5) / 6)
        ≡ r + (suc n + 5) / 6 =
      ground arith in
    rw (← e) (one_message n (r + (n + 5) / 6) (clock_run n s) (clock_run-IsPlaying n r s h))

stable_run-IsPlaying :
    (n r : ℕ) (s : Sequencer) → IsPlaying r s → IsPlaying (r + (n + 1) / 6) (stable_run n s)
unfolding stable_run
stable_run-IsPlaying zero r s h = let e : r + 1 / 6 ≡ r = omega arith in rw e h
stable_run-IsPlaying (suc n) r s h =
    let e : (if (n % 24 + 2) % 6 == 0 then r + (n + 1) / 6 + 1 else r + (n + 1) / 6)
        ≡ r + (suc n + 1) / 6 =
      ground arith in
    rw (← e) (one_scheduled n (r + (n + 1) / 6) (stable_run n s) (stable_run-IsPlaying n r s h))

-- The start, with the first tick.
first_message :
    (n : ℕ) (s : Sequencer)
    → s.seq_state ≡ playback
    → clock_run (suc n) (record s { seq_state = wait_for_sync }) ≡ clock_run (suc n) s
unfolding clock_run seq_midi_clock_handler
first_message zero s h =
    subst
      (λ q.
        seq_midi_clock_handler false 0 (record s { seq_state = wait_for_sync })
        ≡ seq_midi_clock_handler false 0 (record s { seq_state = q }))
      (sym h) refl
first_message (suc n) s h = ap (seq_midi_clock_handler false (suc n % 24)) (first_message n s h)

-- In playback at one of the 16 steps, with nothing scheduled, `n` messages of the clock, from the tick 0 on, play one step for each sixth tick.
-- If the clock is not stable, a step is played at the ticks 0, 6, 12 and 18. If it is stable, and the timer runs both
-- scheduled tasks before the next message comes, a step is played behind the ticks 4, 10, 16 and 22 and before the
-- next tick. The 16 steps follow each other in turn, so that 96 messages are a round of the pattern. A sequencer that
-- waits for the clock comes to the same behind the first tick of a clock that is not stable.
pub clock_run_lem :
    (n : ℕ) (s : Sequencer)
    → s.seq_state ≡ playback
    → s.rythm_index < 16
    → s.scheduled_task ≡ none
    → ((clock_run n s).rythm_index ≡ (s.rythm_index + (n + 5) / 6) % 16)
      × ((stable_run n s).rythm_index ≡ (s.rythm_index + (n + 1) / 6) % 16)
      × (clock_run (suc n) (record s { seq_state = wait_for_sync }) ≡ clock_run (suc n) s)
clock_run_lem n s h l idle =
    let start : IsPlaying s.rythm_index s = record { state = h; step = omega arith; idle = idle } in
    (
      (clock_run-IsPlaying n s.rythm_index s start).step,
      (stable_run-IsPlaying n s.rythm_index s start).step,
      first_message n s h,
    )
