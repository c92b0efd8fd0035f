-- ===== src/MidiInput.antt =====
-- src/midi.c: `process_midi_packet` and the MIDI clock. `new_count` is what `tc_read_count` gives.
pub mod Ticks
pub mod Sound
use midi_fighter_twister_ope.Base.{
  ℕ, ◌+◌, ◌-◌, ◌*◌, ◌/◌, ◌%◌, Bool, true, false, not, ◌&&◌, Option, none, some, ltb, leb, ◌==◌,
  if◌then◌else◌, u8, bit_and, ◌>>=◌,
}
use midi_fighter_twister_ope.Midi.{EventPacket}
use midi_fighter_twister_ope.Sysex
use midi_fighter_twister_ope.Encoders.{send_note, send_cc}
use midi_fighter_twister_ope.Quadrature.{EncoderInput}
use midi_fighter_twister_ope.Device.{Device, num_banks, change_bank}
use midi_fighter_twister_ope.Feedback.{send_note_off}
use midi_fighter_twister_ope.Feedback.Mapping.{process_element_midi}

-- The variables of the clock, with `task_is_scheduled` of src/input.c.
pub record Clock : Type 0 where
  pub tick_counter : ℕ
  pub average : ℕ
  pub prev_count : ℕ
  pub clock_stable : Bool
  pub midi_clock_enabled : Bool
  pub task_is_scheduled : Bool

pub record MidiDevice : Type 0 where
  pub device : Device
  pub clock : Clock
  pub receiver : Sysex.Receiver

-- The counts since the last tick, over an overflow of the counter.
abbrev pub interval : ℕ → ℕ → ℕ
interval new_count prev_count =
    if ltb prev_count new_count then new_count - prev_count else 65536 - prev_count + new_count

-- `delta` is an eighth of the difference, rounded to 0; it is added or, if negative, taken away. The sizes
-- are those of the counter, so that neither `delta` nor the average can overflow.
unfoldable pub update_clock_counter : ℕ → Clock → Clock
update_clock_counter new_count c =
    let now : ℕ = interval new_count c.prev_count in
    let is_later = leb c.average now in
    let delta : ℕ = (if is_later then now - c.average else c.average - now) / 8 in
    record c {
      average = if is_later then c.average + delta else c.average - delta;
      clock_stable = if ltb delta 5 && (c.tick_counter == 1) then true else c.clock_stable;
      prev_count = new_count;
    }

-- `tick_counter += 1; if (tick_counter >= 24) tick_counter = 0`.
abbrev pub next_tick : ℕ → ℕ
next_tick tick = if leb 24 (tick + 1) then 0 else tick + 1

abbrev pub with_counter : ℕ → MidiDevice → MidiDevice
with_counter n m = record m { device = record m.device { animation_counter = n } }

unfoldable pub midi_clock : ℕ → MidiDevice → MidiDevice
unfolding update_clock_counter
midi_clock new_count m =
    let c = update_clock_counter new_count m.clock in
    let tick = next_tick c.tick_counter in
    let counter : ℕ = if c.midi_clock_enabled then m.device.animation_counter else 0 in
    record (with_counter (if tick % 3 == 2 then u8 (counter + 1) else counter) m) {
      clock = record c { midi_clock_enabled = true; tick_counter = tick };
    }

abbrev pub midi_clock_enable : Bool → MidiDevice → MidiDevice
midi_clock_enable state m = record m { clock = record m.clock { midi_clock_enabled = state } }

unfoldable pub real_time_start : MidiDevice → MidiDevice
real_time_start m = record m {
  clock = record m.clock { tick_counter = 0; average = 0; prev_count = 0; clock_stable = false };
}

unfoldable pub real_time_stop : MidiDevice → MidiDevice
real_time_stop m = record m { clock = record m.clock { task_is_scheduled = false } }

-- The messages of one byte.
unfoldable pub real_time : ℕ → ℕ → MidiDevice → MidiDevice
unfolding midi_clock real_time_start real_time_stop
real_time new_count message m =
    if message == 0xf8
    then midi_clock new_count (midi_clock_enable true m)
    else if message == 0xfa
    then midi_clock_enable true (real_time_start m)
    else if message == 0xfc
    then midi_clock_enable false (real_time_stop m)
    else m

-- The change of the bank that the host asks for.
unfoldable pub host_bank : ℕ → ℕ → ℕ → Device → Device
host_bank channel number value d =
    if (channel == d.midi_system_channel) && ltb number num_banks && (value == 127)
    then change_bank number d
    else d

-- What the device makes of a note or a control change.
unfoldable pub element_event : (ℕ → EncoderInput) → EventPacket → Device → Option Device
unfolding host_bank
element_event inputs p d =
    let channel : ℕ = bit_and p.data1 0x0f in
    if p.event == 0x9
    then process_element_midi inputs channel send_note p.data2 p.data3
        (host_bank channel p.data2 p.data3 d)
    else if p.event == 0x8
    then process_element_midi inputs channel send_note_off p.data2 p.data3 d
    else if p.event == 0xb
    then process_element_midi inputs channel send_cc p.data2 p.data3 d
      >>= (λ e. some (host_bank channel p.data2 p.data3 e))
    else some d

-- A packet, with what it made `sysex_handle` do. Only the cases 0x4 to 0x7 reach the receiver.
unfoldable pub process_midi_packet :
    ℕ → (ℕ → EncoderInput) → EventPacket → MidiDevice → Option (MidiDevice × Sysex.Action)
unfolding real_time element_event
process_midi_packet new_count inputs p m =
    if p.event == 0xf
    then some (real_time new_count p.data1 m, Sysex.nothing)
    else if leb 0x4 p.event && leb p.event 0x7
    then Sysex.sysex_packet p m.receiver >>= (λ r. some (record m { receiver = r.0 }, r.1))
    else element_event inputs p m.device >>= (λ d. some (record m { device = d }, Sysex.nothing))
