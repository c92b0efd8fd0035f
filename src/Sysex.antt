-- ===== src/Sysex.antt =====
-- src/sysex.c: the receiver that collects the bytes of a system exclusive message and hands them to
-- the command that is installed for it.
pub mod Invariant
pub mod Filling
pub mod Delivery
pub mod Transfer
pub mod Overlong
use midi_fighter_twister_ope.Base.{
  ℕ, ◌+◌, ◌-◌, Bool, true, false, ◌&&◌, ◌||◌, Option, none, some, List, [], ◌∷◌, ltb, leb, ◌==◌,
  if◌then◌else◌, ◌>>=◌, u8, get_or, set, drop, replicate,
}
use midi_fighter_twister_ope.Midi.{EventPacket}

-- The anonymous enum of `sysex_state`.
pub data State : Type 0 where
  begin check_mid invalid non_realtime djtt : State

-- The functions that `config_init` installs, for the pointers `SysExFn`.
pub data SysExFn : Type 0 where
  push_config pull_config system bulk_xfer get_device_id native_mode : SysExFn

-- What `sysex_handle` does: nothing, the identity reply of these bytes, or a call of a command with
-- a length and the buffer from its second byte on.
pub data Action : Type 0 where
  nothing : Action
  reply : List ℕ → Action
  run : SysExFn → ℕ → List ℕ → Action

-- The module's variables. `ptr` is the offset of `sysex_ptr` in the buffer, `none` for NULL.
pub record Receiver : Type 0 where
  pub buffer : List ℕ
  pub state : State
  pub is_reading : Bool
  pub ptr : Option ℕ
  pub command_map : List (Option SysExFn)

abbrev pub midi_max_sysex : ℕ
midi_max_sysex = 127

abbrev pub max_command : ℕ
max_command = 8

-- `g_midi_sysex_channel`, which nothing writes.
abbrev pub midi_sysex_channel : ℕ
midi_sysex_channel = 5

-- The variables as they are initialised.
abbrev pub power_up : Receiver
power_up = record {
  buffer = replicate midi_max_sysex 0;
  state = begin;
  is_reading = false;
  ptr = none;
  command_map = replicate max_command none;
}

unfoldable pub sysex_install : ℕ → SysExFn → Receiver → Receiver
sysex_install cmd fn r =
    if ltb 0 cmd && leb cmd max_command
    then record r { command_map = set r.command_map (cmd - 1) (some fn) }
    else r

-- The bytes that answer a device identify request.
abbrev pub identity_payload : List ℕ
identity_payload =
    0xf0 ∷ 0x7e ∷ 0x7f ∷ 0x06 ∷ 0x02 ∷ 0x00 ∷ 0x01 ∷ 0x79 ∷ 0x05 ∷ 0x00 ∷ 0x01 ∷ 0x00 ∷ 0x20 ∷ 0x26
    ∷ 0x08 ∷ 0x07 ∷ 0xf7 ∷ []

run_installed : Option SysExFn → ℕ → List ℕ → Action
run_installed none len payload = nothing
run_installed (some fn) len payload = run fn len payload

handle_djtt : Receiver → ℕ → Action
unfolding run_installed
handle_djtt r len =
    let command = get_or r.buffer 0 0 in
    if ltb 0 command && leb command max_command
    then run_installed (get_or r.command_map (command - 1) none) (len - 1) (drop 1 r.buffer)
    else nothing

handle_in : State → Receiver → ℕ → Action
unfolding handle_djtt
handle_in djtt r len = if ltb 0 len then handle_djtt r len else nothing
handle_in non_realtime r len =
    if leb 2 len && (get_or r.buffer 0 0 == 0x06 && get_or r.buffer 1 0 == 0x01)
    then reply identity_payload
    else nothing
handle_in _ r len = nothing

-- `sysex_handle`.
unfoldable pub sysex_handle : Receiver → ℕ → Action
unfolding handle_in
sysex_handle r len = handle_in r.state r len

-- `*sysex_ptr++ = byte`. A write through NULL or beyond the buffer is undefined.
unfoldable pub put : ℕ → Receiver → Option Receiver
put byte r = elim r.ptr [
  | none ↦ none
  | some p ↦
      if ltb p midi_max_sysex
      then some (record r { buffer = set r.buffer p byte; ptr = some (p + 1) })
      else none
]

-- `(sysex_ptr + n) < buffer_end`. NULL lies below the buffer.
unfoldable pub fits : ℕ → Receiver → Bool
fits n r = elim r.ptr [ none ↦ true | some p ↦ ltb (p + n) midi_max_sysex ]

-- `sysex_handle((uint8_t)(sysex_ptr - sysex_buffer))`; the pointer has just been written through.
unfoldable pub process : Receiver → Option (Receiver × Action)
unfolding sysex_handle
process r = elim r.ptr [ none ↦ none | some p ↦ some (r, sysex_handle r (u8 p)) ]

-- The state that the first packet of a message leads to.
unfoldable pub first_state : EventPacket → State
first_state packet =
    if packet.data1 == 0xf0
      && (packet.data2 == 0x7e && (packet.data3 == midi_sysex_channel || packet.data3 == 0x7f))
    then non_realtime
    else if packet.data1 == 0xf0 && (packet.data2 == 0x00 && packet.data3 == 0x01)
    then check_mid
    else invalid

-- The rest of a message in `sysex_handle_3sc`, by the state.
continue_3sc : State → EventPacket → Receiver → Option Receiver
unfolding put fits
continue_3sc check_mid packet r =
    if packet.data1 == 0x79 && fits 2 r
    then put packet.data2 (record r { state = djtt }) >>= put packet.data3
    else some (record r { state = invalid })
continue_3sc invalid packet r = some r
continue_3sc _ packet r =
    if fits 3 r
    then put packet.data1 r >>= put packet.data2 >>= put packet.data3
    else some (record r { state = invalid })

unfoldable pub sysex_handle_3sc : EventPacket → Receiver → Option (Receiver × Action)
unfolding first_state continue_3sc
sysex_handle_3sc packet r =
    if r.is_reading
    then continue_3sc r.state packet r >>= (λ s. some (s, nothing))
    else some (record r { is_reading = true; ptr = some 0; state = first_state packet }, nothing)

-- `sysex_state = State_Begin` after the message.
abbrev reset : Receiver × Action → Option (Receiver × Action)
reset (r, act) = some (record r { state = begin }, act)

end_3e : State → EventPacket → Receiver → Option (Receiver × Action)
unfolding put fits process
end_3e check_mid packet r =
    if packet.data1 == 0x79 && fits 2 r
    then put packet.data2 (record r { state = djtt }) >>= put packet.data3 >>= process
    else some (r, nothing)
end_3e invalid packet r = some (r, nothing)
end_3e _ packet r =
    if fits 3 r
    then put packet.data1 r >>= put packet.data2 >>= put packet.data3 >>= process
    else some (r, nothing)

-- It does not ask whether a message is being read.
unfoldable pub sysex_handle_3e : EventPacket → Receiver → Option (Receiver × Action)
unfolding end_3e
sysex_handle_3e packet r = end_3e r.state packet (record r { is_reading = false }) >>= reset

end_2e : State → EventPacket → Receiver → Option (Receiver × Action)
unfolding put fits process
end_2e invalid packet r = some (r, nothing)
end_2e _ packet r =
    if fits 2 r then put packet.data1 r >>= put packet.data2 >>= process else some (r, nothing)

unfoldable pub sysex_handle_2e : EventPacket → Receiver → Option (Receiver × Action)
unfolding end_2e
sysex_handle_2e packet r =
    if r.is_reading
    then end_2e r.state packet (record r { is_reading = false }) >>= reset
    else some (r, nothing)

end_1e : State → EventPacket → Receiver → Option (Receiver × Action)
unfolding put fits process
end_1e invalid packet r = some (r, nothing)
end_1e _ packet r = if fits 1 r then put packet.data1 r >>= process else some (r, nothing)

unfoldable pub sysex_handle_1e : EventPacket → Receiver → Option (Receiver × Action)
unfolding end_1e
sysex_handle_1e packet r =
    if r.is_reading
    then end_1e r.state packet (record r { is_reading = false }) >>= reset
    else some (r, nothing)

-- The cases 0x4 to 0x7 of `process_midi_packet` in src/midi.c; the other events are not SysEx.
unfoldable pub sysex_packet : EventPacket → Receiver → Option (Receiver × Action)
sysex_packet packet r =
    if packet.event == 0x4
    then sysex_handle_3sc packet r
    else if packet.event == 0x5
    then sysex_handle_1e packet r
    else if packet.event == 0x6
    then sysex_handle_2e packet r
    else if packet.event == 0x7
    then sysex_handle_3e packet r
    else some (r, nothing)

abbrev note_run : Action → List Action → List Action
note_run nothing acts = acts
note_run act acts = act ∷ acts

-- A sequence of packets, with what they made `sysex_handle` do.
unfoldable pub receive : List EventPacket → Receiver → Option (Receiver × List Action)
unfolding sysex_packet
receive [] r = some (r, [])
receive (packet ∷ packets) r = sysex_packet packet r >>= λ (s, act).
    receive packets s >>= λ (t, acts). some (t, note_run act acts)
