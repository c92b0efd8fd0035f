-- ===== src/Midi.antt =====
-- src/midi.c: packets of USB-MIDI and the messages that the device streams.
use midi_fighter_twister_ope.Base.{
  ℕ, ◌-◌, ◌≡◌, refl, Bool, true, false, ◌||◌, Option, none, some, List, [], ◌∷◌, bit_and, bit_or,
  ltb, ◌==◌, if◌then◌else◌, u8, ◌>>>◌,
}
use mathlib.Core.Option

-- `MIDI_EventPacket_t`.
pub record EventPacket : Type 0 where
  pub event : ℕ
  pub data1 : ℕ
  pub data2 : ℕ
  pub data3 : ℕ

abbrev pub packet : ℕ → ℕ → ℕ → ℕ → EventPacket
packet e a b c = record { event = e; data1 = a; data2 = b; data3 = c }

-- `MIDI_EVENT(0, command)`, a macro of the USB library: cable 0 and the command's upper four bits.
abbrev pub midi_event : ℕ → ℕ
midi_event command = command >>> 4

unfoldable pub midi_stream_raw_note : ℕ → ℕ → Bool → ℕ → EventPacket
midi_stream_raw_note channel pitch onoff velocity =
    let command : ℕ = if onoff then 0x90 else 0x80 in
    packet (midi_event command) (bit_or command (bit_and channel 0x0f)) (bit_and pitch 0x7f)
      (bit_and velocity 0x7f)

unfoldable pub midi_stream_raw_cc : ℕ → ℕ → ℕ → EventPacket
midi_stream_raw_cc channel cc value =
    packet (midi_event 0xb0) (bit_or 0xb0 (bit_and channel 0x0f)) (bit_and cc 0x7f)
      (bit_and value 0x7f)

unfoldable pub midi_stream_raw_pitchbend : ℕ → ℕ → EventPacket
midi_stream_raw_pitchbend channel value =
    packet (midi_event 0xe0) (bit_or 0xe0 (bit_and channel 0x0f)) (u8 (bit_and value 0x7f))
      (u8 (bit_and (value >>> 7) 0x7f))

-- What follows the loop of `midi_stream_sysex`, with `num` bytes left. `none` is a read beyond the
-- buffer.
last_packet : Bool → ℕ → List ℕ → Option (List EventPacket)
last_packet first num [] = if num == 0 then some [] else none
last_packet first num (a ∷ []) =
    if num == 0
    then some []
    else if num == 2 || num == 3
    then none
    else some (packet 0x5 a 0 0 ∷ [])
last_packet first num (a ∷ b ∷ []) =
    if num == 0
    then some []
    else if num == 2
    then some (packet 0x6 a b 0 ∷ [])
    else if num == 3
    then none
    else some (packet 0x5 a 0 0 ∷ [])
last_packet first num (a ∷ b ∷ c ∷ _) =
    if num == 0
    then some []
    else if num == 2
    then some (packet 0x6 a b 0 ∷ [])
    else if num == 3
    then some (packet (if first then 0x3 else 0x7) a b c ∷ [])
    else some (packet 0x5 a 0 0 ∷ [])

-- The loop `while (num > 3)`, which takes three bytes a round.
unfoldable pub stream_loop : Bool → ℕ → List ℕ → Option (List EventPacket)
unfolding last_packet
stream_loop first num (a ∷ b ∷ c ∷ rest) =
    if ltb 3 num
    then Option.map (◌∷◌ (packet 0x4 a b c)) (stream_loop false (num - 3) rest)
    else last_packet first num (a ∷ b ∷ c ∷ rest)
stream_loop first num bytes = if ltb 3 num then none else last_packet first num bytes

-- `midi_stream_sysex(length, data)`: the packets sent, in order.
unfoldable pub midi_stream_sysex : ℕ → List ℕ → Option (List EventPacket)
unfolding stream_loop
midi_stream_sysex len bytes = stream_loop true len bytes

abbrev identity : List ℕ
identity = 0xf0 ∷ 0x7e ∷ 0x7f ∷ 0x06 ∷ 0x02 ∷ 0xf7 ∷ 0x33 ∷ []

identity_packets :
    midi_stream_sysex 5 identity ≡ some (packet 4 0xf0 0x7e 0x7f ∷ packet 6 6 2 0 ∷ [])
unfolding midi_stream_sysex
identity_packets = refl
