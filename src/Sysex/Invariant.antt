-- ===== src/Sysex/Invariant.antt =====
-- src/sysex.c, the four packet handlers: what holds of the receiver between two packets, and the one
-- way in which it goes wrong.
use midi_fighter_twister_ope.Base.{
  ℕ, ◌≤◌, ◌≡◌, ◌≢◌, ◌↔◌, ◌⊎◌, true, false, Option, none, some, arith, length, length-set,
}
use midi_fighter_twister_ope.Midi.{EventPacket}
use midi_fighter_twister_ope.Sysex.{
  begin, Action, Receiver, power_up, midi_max_sysex, max_command, sysex_install, sysex_packet,
  sysex_handle_3sc, sysex_handle_3e, sysex_handle_2e, sysex_handle_1e, SysExFn,
}

-- A pointer that is set lies within the buffer's 127 bytes.
abbrev Within : Option ℕ → Type 0
Within none = Unit
Within (some p) = p ≤ 126

pub record IsSound (r : Receiver) : Type 0 where
  pub room : length r.buffer ≡ midi_max_sysex
  pub commands : length r.command_map ≡ max_command
  pub within : Within r.ptr
  pub quiet : r.is_reading ≡ false → r.state ≡ begin
  pub busy : r.is_reading ≡ true → (r.state ≢ begin) × (r.ptr ≢ none)

-- The outcome of a handler: no undefined access, and a sound receiver.
abbrev pub Keeps : Option (Receiver × Action) → Type 0
Keeps none = ⊥
Keeps (some (s, _)) = IsSound s

pub power_up-IsSound : IsSound power_up
power_up-IsSound = ground arith

pub sysex_install-IsSound :
    (cmd : ℕ) (fn : SysExFn) (r : Receiver) → IsSound r → IsSound (sysex_install cmd fn r)
unfolding sysex_install
sysex_install-IsSound cmd fn r v = grind (arith, length-set)

module _ (packet : EventPacket) (r : Receiver) (v : IsSound r) where
  sysex_handle_3sc-Keeps : Keeps (sysex_handle_3sc packet r)
  unfolding sysex_handle_3sc
  sysex_handle_3sc-Keeps = grind (arith, length-set)

  sysex_handle_1e-Keeps : Keeps (sysex_handle_1e packet r)
  unfolding sysex_handle_1e
  sysex_handle_1e-Keeps = grind (arith, length-set)

  sysex_handle_2e-Keeps : Keeps (sysex_handle_2e packet r)
  unfolding sysex_handle_2e
  sysex_handle_2e-Keeps = grind (arith, length-set)

  sysex_handle_3e-Keeps : (r.ptr ≢ none) → Keeps (sysex_handle_3e packet r)
  unfolding sysex_handle_3e
  sysex_handle_3e-Keeps started = grind (arith, length-set)

  sysex_handle_3e_fails : r.ptr ≡ none → sysex_handle_3e packet r ≡ none
  unfolding sysex_handle_3e
  sysex_handle_3e_fails never = grind arith

  -- In a sound receiver a packet is handled within the buffer and leaves a sound receiver, if it is
  -- not a three-byte end (event 7) or a message has begun since power-up.
  pub sysex_packet-Keeps : (packet.event ≢ 0x7) ⊎ (r.ptr ≢ none) → Keeps (sysex_packet packet r)
  unfolding sysex_packet
  sysex_packet-Keeps h = ground (
    arith, sysex_handle_3sc-Keeps, sysex_handle_1e-Keeps, sysex_handle_2e-Keeps,
    sysex_handle_3e-Keeps,
  )

  -- In a sound receiver an undefined access happens exactly when a three-byte end arrives and no
  -- message has begun since power-up: it is written through the NULL pointer.
  pub sysex_packet-eq-none_iff :
      (sysex_packet packet r ≡ none) ↔ (packet.event ≡ 0x7) × (r.ptr ≡ none)
  unfolding sysex_packet
  sysex_packet-eq-none_iff = ground (
    arith, sysex_handle_3sc-Keeps, sysex_handle_1e-Keeps, sysex_handle_2e-Keeps,
    sysex_handle_3e-Keeps, sysex_handle_3e_fails,
  )
