-- ===== src/Sysex/Overlong.antt =====
-- src/sysex.c: messages that the receiver must not act on, those that do not fit its buffer and those of others.
use midi_fighter_twister_ope.Base.{
  ℕ, ◌+◌, ◌<◌, ◌≤◌, ◌≡◌, refl, Bool, true, false, Option, some, List, [], ◌∷◌, ◌++◌, arith, length,
  Bool-cases, ltb, inl, inr,
}
use midi_fighter_twister_ope.Midi.{EventPacket, packet, stream_loop}
use midi_fighter_twister_ope.Sysex.{
  begin, check_mid, djtt, invalid, SysExFn, nothing, Receiver, sysex_handle_3sc, sysex_handle_3e,
  sysex_handle_2e, sysex_handle_1e, receive,
}
use midi_fighter_twister_ope.Sysex.Filling.{IsFilling}
use midi_fighter_twister_ope.Sysex.Delivery.{sysex_handle_3sc-IsFilling, sysex_handle_3sc_mid}
use midi_fighter_twister_ope.Sysex.Transfer.{receive_next, stream_next, header-IsFilling, IsWaiting}

-- The rest of a message is sent and received, nothing is done, and the receiver waits again.
pub record IsDropped (rest : List ℕ) (first : Bool) (r : Receiver) : Type 0 where
  pub ps : List EventPacket
  pub left : Receiver
  pub sent : stream_loop first (length rest) rest ≡ some ps
  pub received : receive ps r ≡ some (left, [])
  pub idle : left.is_reading ≡ false
  pub at_begin : left.state ≡ begin

step-IsDropped :
    (first : Bool) (a b c d : ℕ) (rest : List ℕ) (r s : Receiver)
    → sysex_handle_3sc (packet 4 a b c) r ≡ some (s, nothing)
    → IsDropped (d ∷ rest) false s
    → IsDropped (a ∷ b ∷ c ∷ d ∷ rest) first r
step-IsDropped first a b c d rest r s e n = record {
  ps = packet 4 a b c ∷ n.ps;
  left = n.left;
  sent = stream_next first (length (d ∷ rest)) a b c d rest n.ps refl n.sent;
  received = receive_next a b c n.ps r s n.left [] e n.received;
  idle = n.idle;
  at_begin = n.at_begin;
}

-- A message that has turned invalid is read to its end.
invalid-IsDropped :
    (rest : List ℕ) (r : Receiver)
    → 0 < length rest
    → r.is_reading ≡ true
    → r.state ≡ invalid
    → IsDropped rest false r
unfolding stream_loop receive sysex_handle_1e sysex_handle_2e sysex_handle_3e sysex_handle_3sc
invalid-IsDropped [] r n h e = absurd (omega arith)
invalid-IsDropped (a ∷ []) r n h e = record {
  ps = packet 5 a 0 0 ∷ [];
  left = record r { is_reading = false; state = begin };
  sent = refl;
  received = ground arith;
  idle = refl;
  at_begin = refl;
}
invalid-IsDropped (a ∷ b ∷ []) r n h e = record {
  ps = packet 6 a b 0 ∷ [];
  left = record r { is_reading = false; state = begin };
  sent = refl;
  received = ground arith;
  idle = refl;
  at_begin = refl;
}
invalid-IsDropped (a ∷ b ∷ c ∷ []) r n h e = record {
  ps = packet 7 a b c ∷ [];
  left = record r { is_reading = false; state = begin };
  sent = refl;
  received = ground arith;
  idle = refl;
  at_begin = refl;
}
invalid-IsDropped (a ∷ b ∷ c ∷ d ∷ rest) r n h e =
    step-IsDropped false a b c d rest r r (ground arith)
      (invalid-IsDropped (d ∷ rest) r (omega arith) h e)

module _ (commands : List (Option SysExFn)) where
  full :
      (a b c p : ℕ) (got : List ℕ) (r : Receiver)
      → IsFilling true djtt commands p got r
      → 127 ≤ p + 3
      → sysex_handle_3sc (packet 4 a b c) r ≡ some (record r { state = invalid }, nothing)
  unfolding sysex_handle_3sc
  full a b c p got r v h = ground arith

  overlong-IsDropped :
      (rest : List ℕ) (p : ℕ) (got : List ℕ) (r : Receiver)
      → IsFilling true djtt commands p got r
      → 0 < length rest
      → 127 ≤ p + length rest
      → IsDropped rest false r
  unfolding stream_loop receive sysex_handle_1e sysex_handle_2e sysex_handle_3e
  overlong-IsDropped [] p got r v n h = absurd (omega arith)
  overlong-IsDropped (a ∷ []) p got r v n h = record {
    ps = packet 5 a 0 0 ∷ [];
    left = record r { is_reading = false; state = begin };
    sent = refl;
    received = ground arith;
    idle = refl;
    at_begin = refl;
  }
  overlong-IsDropped (a ∷ b ∷ []) p got r v n h = record {
    ps = packet 6 a b 0 ∷ [];
    left = record r { is_reading = false; state = begin };
    sent = refl;
    received = ground arith;
    idle = refl;
    at_begin = refl;
  }
  overlong-IsDropped (a ∷ b ∷ c ∷ []) p got r v n h = record {
    ps = packet 7 a b c ∷ [];
    left = record r { is_reading = false; state = begin };
    sent = refl;
    received = ground arith;
    idle = refl;
    at_begin = refl;
  }
  overlong-IsDropped (a ∷ b ∷ c ∷ d ∷ rest) p got r v n h = elim (Bool-cases (ltb (p + 3) 127)) [
    | inl room ↦
        let (s, e, vs) = sysex_handle_3sc-IsFilling 4 a b c p got r v (ground arith) in
        step-IsDropped false a b c d rest r s e (
          overlong-IsDropped (d ∷ rest) (p + 3) (got ++ a ∷ b ∷ c ∷ []) s vs (omega arith)
            (omega arith))
    | inr no_room ↦
        step-IsDropped false a b c d rest r (record r { state = invalid })
          (full a b c p got r v (ground arith))
          (invalid-IsDropped (d ∷ rest) (record r { state = invalid }) (omega arith) v.same_reading
            refl)
  ]

  mid_overlong-IsDropped :
      (body : List ℕ) (r : Receiver)
      → IsFilling true check_mid commands 0 [] r
      → 127 ≤ length body
      → IsDropped (0x79 ∷ body) false r
  mid_overlong-IsDropped [] r v h = absurd (omega arith)
  mid_overlong-IsDropped (b ∷ []) r v h = absurd (omega arith)
  mid_overlong-IsDropped (b ∷ c ∷ []) r v h = absurd (omega arith)
  mid_overlong-IsDropped (b ∷ c ∷ d ∷ rest) r v h =
      let (s, e, vs) = sysex_handle_3sc_mid 4 b c r v in
      step-IsDropped false 0x79 b c d rest r s e
        (overlong-IsDropped (d ∷ rest) 2 (b ∷ c ∷ []) s vs (omega arith) (omega arith))

  -- A message of this manufacturer with 127 bytes or more behind the manufacturer's three is
  -- received without an undefined access, calls no command, and leaves the receiver waiting.
  pub overlong_message-IsDropped :
      (body : List ℕ) (r : Receiver)
      → IsWaiting commands r
      → 127 ≤ length body
      → IsDropped (0xf0 ∷ 0x00 ∷ 0x01 ∷ 0x79 ∷ body) true r
  overlong_message-IsDropped body r w h =
      let (s, e, v) = header-IsFilling commands r w in
      step-IsDropped true 0xf0 0x00 0x01 0x79 body r s e (mid_overlong-IsDropped body s v h)
