-- ===== src/Sysex/Transfer.antt =====
-- src/midi.c `midi_stream_sysex` and src/sysex.c together: a message that one device streams and
-- another receives.
use midi_fighter_twister_ope.Base.{
  ℕ, suc, ◌+◌, ◌-◌, ◌<◌, ◌≤◌, ◌≡◌, refl, subst, Bool, true, false, Option, some, List, [], ◌∷◌,
  ◌++◌, arith, length,
}
use mathlib.Core.List.{append_assoc}
use native.Mathlib.Numerals.{add-four}
use midi_fighter_twister_ope.Midi.{EventPacket, packet, stream_loop, midi_stream_sysex}
use midi_fighter_twister_ope.Sysex.{
  begin, check_mid, djtt, SysExFn, Action, nothing, Receiver, sysex_handle_3sc, note_run, receive,
}
use midi_fighter_twister_ope.Sysex.Filling.{IsFilling}
use midi_fighter_twister_ope.Sysex.Delivery.{
  IsDelivered, sysex_handle_3sc-IsFilling, sysex_handle_3e-IsDelivered, sysex_handle_2e-IsDelivered,
  sysex_handle_1e-IsDelivered, sysex_handle_3sc_mid, sysex_handle_3e_mid,
}

-- A packet of event 4, and the packets behind it.
pub receive_next :
    (a b c : ℕ) (ps : List EventPacket) (r s t : Receiver) (acts : List Action)
    → sysex_handle_3sc (packet 4 a b c) r ≡ some (s, nothing)
    → receive ps s ≡ some (t, acts)
    → receive (packet 4 a b c ∷ ps) r ≡ some (t, acts)
unfolding receive
receive_next a b c ps r s t acts e h = rw (e, h)

pub stream_next :
    (first : Bool) (n a b c d : ℕ) (rest : List ℕ) (ps : List EventPacket)
    → n ≡ suc (length rest)
    → stream_loop false n (d ∷ rest) ≡ some ps
    → stream_loop first (suc (suc (suc n))) (a ∷ b ∷ c ∷ d ∷ rest) ≡ some (packet 4 a b c ∷ ps)
unfolding stream_loop
stream_next first n a b c d rest ps e h =
    let e' : suc (suc (suc n)) - 3 ≡ n = omega arith in ground (arith, h)

module _ (commands : List (Option SysExFn)) where
  -- The rest of a message is sent and received.
  abbrev Arrives : List ℕ → List ℕ → Receiver → Type 0
  Arrives got rest r =
      (ps : List EventPacket) × (s : Receiver) × (acts : List Action) × (stream_loop false
          (length rest) rest
        ≡ some ps)
      × (receive ps r ≡ some (s, acts))
      × IsDelivered commands (got ++ rest) s acts

  rest-Arrives :
      (rest : List ℕ) (p : ℕ) (got : List ℕ) (r : Receiver)
      → IsFilling true djtt commands p got r
      → 0 < length rest
      → p + length rest < 127
      → Arrives got rest r
  unfolding stream_loop receive
  rest-Arrives [] p got r v n h = absurd (omega arith)
  rest-Arrives (a ∷ []) p got r v n h =
      let (s, act, es, d) = sysex_handle_1e-IsDelivered 5 a 0 0 p got r v (omega arith) in
      (packet 5 a 0 0 ∷ [], s, note_run act [], refl, rw es, d)
  rest-Arrives (a ∷ b ∷ []) p got r v n h =
      let (s, act, es, d) = sysex_handle_2e-IsDelivered 6 a b 0 p got r v (omega arith) in
      (packet 6 a b 0 ∷ [], s, note_run act [], refl, rw es, d)
  rest-Arrives (a ∷ b ∷ c ∷ []) p got r v n h =
      let (s, act, es, d) = sysex_handle_3e-IsDelivered 7 a b c p got r v (omega arith) in
      (packet 7 a b c ∷ [], s, note_run act [], refl, rw es, d)
  rest-Arrives (a ∷ b ∷ c ∷ d ∷ rest) p got r v n h =
      let (r', e', v') = sysex_handle_3sc-IsFilling 4 a b c p got r v (omega arith) in
      let (ps, s, acts, es, er, dl) =
        rest-Arrives (d ∷ rest) (p + 3) (got ++ a ∷ b ∷ c ∷ []) r' v' (omega arith) (omega arith) in
      (
        packet 4 a b c ∷ ps,
        s,
        acts,
        stream_next false (length (d ∷ rest)) a b c d rest ps refl es,
        receive_next a b c ps r r' s acts e' er,
        subst (λ l. IsDelivered commands l s acts) (append_assoc got (a ∷ b ∷ c ∷ []) (d ∷ rest))
            dl,
      )

  -- A receiver that waits for a message.
  pub record IsWaiting (r : Receiver) : Type 0 where
    pub room : length r.buffer ≡ 127
    pub same_commands : r.command_map ≡ commands
    pub idle : r.is_reading ≡ false
    pub at_begin : r.state ≡ begin

  pub header-IsFilling :
      (r : Receiver)
      → IsWaiting r
      → (s : Receiver) × (sysex_handle_3sc (packet 4 0xf0 0x00 0x01) r ≡ some (s, nothing))
        × IsFilling true check_mid commands 0 [] s
  unfolding sysex_handle_3sc
  header-IsFilling r w = (
    record r { is_reading = true; ptr = some 0; state = check_mid },
    ground arith,
    record {
      room = w.room;
      same_commands = w.same_commands;
      same_reading = refl;
      same_state = refl;
      placed = refl;
      filled = refl;
    },
  )

  mid-Arrives :
      (body : List ℕ) (r : Receiver)
      → IsFilling true check_mid commands 0 [] r
      → 2 ≤ length body
      → length body ≤ 126
      → (ps : List EventPacket) × (s : Receiver) × (acts : List Action) × (stream_loop false
            (suc (length body))
            (0x79 ∷ body)
          ≡ some ps)
        × (receive ps r ≡ some (s, acts))
        × IsDelivered commands body s acts
  unfolding stream_loop receive
  mid-Arrives [] r v n h = absurd (omega arith)
  mid-Arrives (b ∷ []) r v n h = absurd (omega arith)
  mid-Arrives (b ∷ c ∷ []) r v n h =
      let (s, act, es, d) = sysex_handle_3e_mid 7 b c r v in
      (packet 7 0x79 b c ∷ [], s, note_run act [], refl, rw es, d)
  mid-Arrives (b ∷ c ∷ d ∷ rest) r v n h =
      let (r', e', v') = sysex_handle_3sc_mid 4 b c r v in
      let (ps, s, acts, es, er, dl) =
        rest-Arrives (d ∷ rest) 2 (b ∷ c ∷ []) r' v' (omega arith) (omega arith) in
      (
        packet 4 0x79 b c ∷ ps,
        s,
        acts,
        stream_next false (length (d ∷ rest)) 0x79 b c d rest ps refl es,
        receive_next 0x79 b c ps r r' s acts e' er,
        dl,
      )

  -- A message of this manufacturer, with 2 to 126 bytes behind the manufacturer's three, that is cut into
  -- packets by `midi_stream_sysex` and received by a waiting receiver, is stored whole; the command that its first byte names
  -- is called if it is installed, once, with the number of the bytes behind that one; and the receiver waits again.
  pub receive-midi_stream_sysex :
      (body : List ℕ) (r : Receiver)
      → IsWaiting r
      → 2 ≤ length body
      → length body ≤ 126
      → (ps : List EventPacket) × (s : Receiver) × (acts : List Action) × (midi_stream_sysex
            (length body + 4)
            (0xf0 ∷ 0x00 ∷ 0x01 ∷ 0x79 ∷ body)
          ≡ some ps)
        × (receive ps r ≡ some (s, acts))
        × IsDelivered commands body s acts
  unfolding midi_stream_sysex
  receive-midi_stream_sysex body r w n h =
      let (r', e', v') = header-IsFilling r w in
      let (ps, s, acts, es, er, d) = mid-Arrives body r' v' n h in
      (
        packet 4 0xf0 0x00 0x01 ∷ ps,
        s,
        acts,
        rw add-four (stream_next true (suc (length body)) 0xf0 0x00 0x01 0x79 body ps refl es),
        receive_next 0xf0 0x00 0x01 ps r r' s acts e' er,
        d,
      )
