-- ===== src/MidiInput/Ticks.antt =====
-- src/midi.c: the ticks of the MIDI clock and the animations that follow them.
use midi_fighter_twister_ope.Base.{
  ℕ, suc, ◌+◌, ◌-◌, ◌/◌, ◌%◌, ◌<◌, ◌≤◌, ◌≡◌, ◌∙◌, arith, Bool-cases, inl, inr, ◌==◌, List, [], ◌∷◌,
}
use midi_fighter_twister_ope.Base.{length}
use midi_fighter_twister_ope.MidiInput.{
  Clock, MidiDevice, update_clock_counter, midi_clock, real_time,
}

-- A sequence of clock messages, each with the count of the timer at it.
unfoldable pub ticks : List ℕ → MidiDevice → MidiDevice
ticks [] m = m
ticks (count ∷ counts) m = ticks counts (real_time count 0xf8 m)

one_tick :
    (count : ℕ) (m : MidiDevice)
    → m.clock.tick_counter < 24
    → m.device.animation_counter < 256
    → (let after = real_time count 0xf8 m in
        (after.clock.tick_counter ≡ (m.clock.tick_counter + 1) % 24)
        × (after.device.animation_counter
            ≡ (m.device.animation_counter
                + ((m.clock.tick_counter + 2) / 3 - (m.clock.tick_counter + 1) / 3))
              % 256))
unfolding real_time midi_clock update_clock_counter
one_tick count m h k = (ground arith, ground arith)

more_frames :
    (t n a : ℕ)
    → t < 24
    → ((a + ((t + 2) / 3 - (t + 1) / 3)) % 256
          + (((t + 1) % 24 + n + 1) / 3 - ((t + 1) % 24 + 1) / 3))
        % 256
      ≡ (a + ((t + suc n + 1) / 3 - (t + 1) / 3)) % 256
more_frames t n a h = elim (Bool-cases (t == 23)) [
  | inl last ↦ let e : t ≡ 23 = ground arith in rw e (omega arith)
  | inr before ↦ let e : (t + 1) % 24 ≡ t + 1 = ground arith in rw e (omega arith)
]

-- After any number of clock messages, the tick counter is that many ticks further, counted round 24, and the
-- animations one frame further for each third tick, counted from the tick 2; so 24 messages, a quarter note,
-- are 8 frames and bring the tick counter back.
pub ticks_lem :
    (counts : List ℕ) (m : MidiDevice)
    → m.clock.tick_counter < 24
    → m.device.animation_counter < 256
    → (let after = ticks counts m in
        let tick = m.clock.tick_counter in
        (after.clock.tick_counter ≡ (tick + length counts) % 24)
        × (after.device.animation_counter
            ≡ (m.device.animation_counter + ((tick + length counts + 1) / 3 - (tick + 1) / 3))
              % 256))
unfolding ticks
ticks_lem [] m h k = (omega arith, omega arith)
ticks_lem (count ∷ counts) m h k =
    let (tick, frame) = one_tick count m h k in
    let after = real_time count 0xf8 m in
    let (ticks, frames) = ticks_lem counts after (omega (arith, tick)) (omega (arith, frame)) in
    (
      omega (arith, ticks, tick),
      frames
          ∙ rw (tick, frame)
              (more_frames m.clock.tick_counter (length counts) m.device.animation_counter h),
    )

-- The average of the counts between two ticks stays within what the timer can count, from any state in which it
-- does, whatever the timer shows: the numbers of `update_clock_counter` do not overflow.
pub update_clock_counter-le :
    (count : ℕ) (c : Clock)
    → count < 65536
    → c.average ≤ 65536
    → c.prev_count < 65536
    → ((update_clock_counter count c).average ≤ 65536)
      × ((update_clock_counter count c).prev_count < 65536)
unfolding update_clock_counter
update_clock_counter-le count c h k b = (ground arith, h)
