-- ===== src/Lib.antt =====
-- The firmware of the Midi Fighter Twister, a MIDI controller with 16 encoders in eight banks.
--
-- A host configures the device by system exclusive messages. They arrive as USB packets of up to
-- three bytes, which src/sysex.c collects and hands to the command that is installed for them. The
-- commands of src/config.c read and write the device settings and those of the encoders, which
-- src/encoders.c keeps in the EEPROM in eight bytes each. There, too, a turned encoder, whose pins
-- src/input.c reads, becomes a MIDI message, and so do the switches of the encoders; messages of
-- the host, dispatched by src/midi.c, set values and colours. The side switches,
-- src/side_switch.c, change the bank and the mode. src/main.c runs all of this in a loop. In
-- native mode, src/native_mode.c, the host owns the displays instead. A build with four banks has
-- a step sequencer, src/sequencer.c and src/sequencer_input.c, which the host's MIDI clock drives.
--
-- Files:
-- - Base: shared names; lists as arrays over native numbers, tests, casts and shifts, and the rule
--   for a `for` loop.
-- - Midi: src/midi.c, the packets of the streaming functions. Event is the first byte of a packet.
-- - Sysex and its children: src/sysex.c, and the four cases of `process_midi_packet` in src/midi.c
--   that lead to it. The buffer is a list of 127 bytes, `sysex_ptr` an offset or NULL.
--   `sysex_handle_*` take the receiver to the next one with what `sysex_handle` did; a write
--   through NULL or beyond the buffer is `none`. Sysex/Filling, Delivery, Transfer and Overlong
--   follow a message, Sysex/Invariant one packet.
-- - Nvm: what the firmware relies on in the EEPROM and its controller: bytes are written and read
--   one by one, a page of 32 at once. It is a record of operations and laws, with a memory as an
--   instance.
-- - Settings and its children: src/encoders.c, `get_encoder_config`, what `save_encoder_config`
--   does to the EEPROM, and `factory_reset_encoder_config`.
-- - Config and its children: src/config.c. Config/Global has the device settings, Config/Bulk the
--   transfer of an encoder's settings, Config/Decode, GlobalLaws, Reset and BulkTransfer what
--   holds of them.
-- - NativeMode and its children: src/native_mode.c. A handler gives the state and whether it asked
--   for the display to be drawn; an access beyond an array is `none`.
-- - Encoders and its children: src/encoders.c at run time. Encoders/Rotary and Relative have the
--   movement of an encoder, Encoders/Banks the values that banks share and the change of the bank;
--   Ids, Range, Detent, BankLaws and BankChange what holds of them. The arrays are functions of an
--   index in range.
-- - Quadrature and its child: src/input.c, the part of `encoder_scan` that decodes the pins of an
--   encoder.
-- - Switches and its children: src/input.c, the samples of the switches, their debouncing and
--   their edges. Switches/Key has a machine for one switch that the buffer implements,
--   Switches/Edges when presses and releases are noticed.
-- - Device and its child: the state of the whole device as a record of the modules' states, with
--   the packets that were sent, and of src/display_driver.c the idle timer and the animation of a
--   change of the bank. Device/Sound has what holds of it at all times, and the relation Leaves of
--   what a part of the code keeps.
-- - SideSwitch and its children: src/side_switch.c. An event of a side switch takes the device to
--   the next one. SideSwitch/Frame has what is kept, BankActions and Combo what is done.
-- - EncoderSwitch and its children: src/encoders.c, the switches of the encoders. Input has
--   process_encoder_input, ShiftPages run_shift_mode, Sound, RotarySound and InputSound what they
--   keep.
-- - Feedback and its children: src/encoders.c, what the host's messages set. Mapping has
--   process_element_midi, OneMatch and Values which values it sets, Animations the conflicts of
--   two animations and the notes for the shift pages.
-- - MidiInput and its children: src/midi.c, process_midi_packet and the MIDI clock. Ticks and
--   Sound have what holds of them.
-- - Display and its children: what src/display_driver.c draws into the buffer of 80 frames of 32
--   bytes that is sent to the LEDs in turn, a function from addresses to bytes. Display/Frames has
--   what a loop over the frames does to the bytes, Display/Leds what a frame has for an LED,
--   Display/Duty in how many frames an LED is on, and Display/Brightness that of each function.
-- - Sequencer and its children: src/sequencer.c and src/sequencer_input.c, and the scheduler of
--   src/input.c, in the build with four banks. The state is one record, with the task that is
--   scheduled, the packets that were sent, and whether an access has gone beyond the table of
--   patterns (`overrun`), behind which the code is undefined. Triggers has the notes, the clock
--   and the scheduler, Shift and Alternate the changes of patterns and their undoing, Memory the
--   places for patterns in the EEPROM, Host the host's messages, Buttons the switches, Turns the
--   turned encoders and a pass over all inputs. Clock, Notes, Presses, Indices with its children,
--   which has the events of the sequencer in any order, and the children of Memory, Shift,
--   Alternate and Turns have what holds of them.
-- - MainLoop and its child: src/main.c, a pass over the inputs in each mode; MainLoop/Reachable
--   has the steps of the device in any order, with the commands of the host as steps that leave
--   any settings, and what holds of all states that they reach.
-- - Tests, EncoderTests, DeviceTests, DisplayTests, SequencerTests: the theorems at concrete
--   inputs.
--
-- Numbers are natural, and each assignment to a variable of 8 or 16 bits that can wrap is written
-- with its remainder (`u8`, `u16`); signed variables are two's complement. Loops are structural:
-- over the bytes of a message, or over the rounds that are left, which the source's own bounds
-- give (4 rows, 16 encoders, 8 banks, 32 pages, 2 parts). Only the two loops of a fine relative
-- movement have a fuel, 8192 rounds, a quarter of the largest number of 16 bits. Floating-point
-- arithmetic is a parameter: the multiplier of a fast movement, the second value of a super knob,
-- and the division by 11.55 that selects a clip or a pattern. When a scheduled task of the
-- sequencer is due is not said: it may run at any time.
--
-- Not modelled: the table in RAM that `save_encoder_config` fills, when and what the inputs draw,
-- the table of colours, the pattern of an indicator with its floating-point steps and most
-- animations, of the sequencer the start, the random pattern and the drawing, the self test, and
-- what is hardware or third-party (watchdog, interrupts, USB, the EEPROM controller, src/ASF,
-- src/LUFA). The tick of the animation of a change of the bank is modelled in Device, and is no
-- step of the device, since src/main.c does not call it with its present settings.
pub mod Base
pub mod Midi
pub mod Sysex
pub mod Nvm
pub mod Settings
pub mod Config
pub mod NativeMode
pub mod Encoders
pub mod Quadrature
pub mod Switches
pub mod Device
pub mod SideSwitch
pub mod EncoderSwitch
pub mod Feedback
pub mod MidiInput
pub mod Display
pub mod Sequencer
pub mod MainLoop
mod Tests
mod EncoderTests
mod DeviceTests
mod DisplayTests
mod SequencerTests
