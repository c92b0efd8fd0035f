-- ===== src/Sysex/Delivery.antt =====
-- src/sysex.c: the last packet of a message, and what the receiver is then left in.
use midi_fighter_twister_ope.Base.{
  ℕ, ◌+◌, ◌<◌, ◌≡◌, refl, ap, Bool, true, false, Option, some, List, [], ◌∷◌, ◌++◌, arith, length,
  take, length-take, u8, ◌>>=◌,
}
use midi_fighter_twister_ope.Midi.{packet}
use midi_fighter_twister_ope.Sysex.{
  State, begin, check_mid, djtt, SysExFn, Action, nothing, Receiver, process, reset, sysex_handle,
  sysex_handle_3sc, sysex_handle_3e, sysex_handle_2e, sysex_handle_1e, note_run,
}
use midi_fighter_twister_ope.Sysex.Filling.{
  IsFilling, requested, regroup, put-IsFilling, put_two-IsFilling, put_three-IsFilling,
  sysex_handle-requested,
}

-- The receiver waits for the next message, and `act` is what the message `body` asked for.
pub record IsDelivered (commands : List (Option SysExFn)) (body : List ℕ) (s : Receiver)
    (acts : List Action) : Type 0 where
  pub idle : s.is_reading ≡ false
  pub at_begin : s.state ≡ begin
  pub stored : take (length body) s.buffer ≡ body
  pub handled : acts ≡ requested commands body s.buffer

module _ {commands : List (Option SysExFn)} where
  length-got :
      {reading : Bool} {state : State} (p : ℕ) (got : List ℕ) (r : Receiver)
      → IsFilling reading state commands p got r
      → p < 127
      → p ≡ length got
  length-got p got r v h = omega (arith, ap length v.filled, length-take p r.buffer, v.room)

  finish :
      (p : ℕ) (body : List ℕ) (r : Receiver)
      → IsFilling false djtt commands p body r
      → p < 127
      → (s : Receiver) × (act : Action) × ((process r >>= reset) ≡ some (s, act))
        × IsDelivered commands body s (note_run act [])
  unfolding process
  finish p body r v h =
      let whole = regroup (length-got p body r v h) refl v in
      (
        record r { state = begin },
        sysex_handle r (u8 (length body)),
        ground (arith, length-got p body r v h),
        record {
          idle = v.same_reading;
          at_begin = refl;
          stored = whole.filled;
          handled =
              sysex_handle-requested commands body r whole (omega (arith, length-got p body r v h));
        },
      )

  stop_reading :
      {state : State} {p : ℕ} {got : List ℕ} (r : Receiver)
      → IsFilling true state commands p got r
      → IsFilling false state commands p got (record r { is_reading = false })
  stop_reading r v = ground arith

  start_ours :
      {reading : Bool} {state : State} {p : ℕ} {got : List ℕ} (r : Receiver)
      → IsFilling reading state commands p got r
      → IsFilling reading djtt commands p got (record r { state = djtt })
  start_ours r v = ground arith

  module _ (e a b c p : ℕ) (got : List ℕ) (r : Receiver) where
    -- A packet that continues a message of ours.
    pub sysex_handle_3sc-IsFilling :
        IsFilling true djtt commands p got r
        → p + 3 < 127
        → (s : Receiver) × (sysex_handle_3sc (packet e a b c) r ≡ some (s, nothing))
          × IsFilling true djtt commands (p + 3) (got ++ a ∷ b ∷ c ∷ []) s
    unfolding sysex_handle_3sc
    sysex_handle_3sc-IsFilling v h =
        let (s, es, vs) = put_three-IsFilling a b c p got r v (omega arith) in
        (s, ground (arith, es), vs)

    pub sysex_handle_3e-IsDelivered :
        IsFilling true djtt commands p got r
        → p + 3 < 127
        → (s : Receiver) × (act : Action) × (sysex_handle_3e (packet e a b c) r ≡ some (s, act))
          × IsDelivered commands (got ++ a ∷ b ∷ c ∷ []) s (note_run act [])
    unfolding sysex_handle_3e
    sysex_handle_3e-IsDelivered v h =
        let r' = record r { is_reading = false } in
        let (t, et, vt) = put_three-IsFilling a b c p got r' (stop_reading r v) (omega arith) in
        let (s, act, es, d) = finish (p + 3) (got ++ a ∷ b ∷ c ∷ []) t vt h in
        (s, act, ground (arith, et, es), d)

    pub sysex_handle_2e-IsDelivered :
        IsFilling true djtt commands p got r
        → p + 2 < 127
        → (s : Receiver) × (act : Action) × (sysex_handle_2e (packet e a b c) r ≡ some (s, act))
          × IsDelivered commands (got ++ a ∷ b ∷ []) s (note_run act [])
    unfolding sysex_handle_2e
    sysex_handle_2e-IsDelivered v h =
        let r' = record r { is_reading = false } in
        let (t, et, vt) = put_two-IsFilling a b p got r' (stop_reading r v) (omega arith) in
        let (s, act, es, d) = finish (p + 2) (got ++ a ∷ b ∷ []) t vt h in
        (s, act, ground (arith, et, es), d)

    pub sysex_handle_1e-IsDelivered :
        IsFilling true djtt commands p got r
        → p + 1 < 127
        → (s : Receiver) × (act : Action) × (sysex_handle_1e (packet e a b c) r ≡ some (s, act))
          × IsDelivered commands (got ++ a ∷ []) s (note_run act [])
    unfolding sysex_handle_1e
    sysex_handle_1e-IsDelivered v h =
        let r' = record r { is_reading = false } in
        let (t, et, vt) = put-IsFilling a p got r' (stop_reading r v) (omega arith) in
        let (s, act, es, d) = finish (p + 1) (got ++ a ∷ []) t vt h in
        (s, act, ground (arith, et, es), d)

  module _ (e b c : ℕ) (r : Receiver) (v : IsFilling true check_mid commands 0 [] r) where
    -- The second packet of a message of ours begins with the manufacturer's third byte.
    pub sysex_handle_3sc_mid :
        (s : Receiver) × (sysex_handle_3sc (packet e 0x79 b c) r ≡ some (s, nothing))
        × IsFilling true djtt commands 2 (b ∷ c ∷ []) s
    unfolding sysex_handle_3sc
    sysex_handle_3sc_mid =
        let r' = record r { state = djtt } in
        let (s, es, vs) = put_two-IsFilling b c 0 [] r' (start_ours r v) (omega arith) in
        (s, ground (arith, es), vs)

    pub sysex_handle_3e_mid :
        (s : Receiver) × (act : Action) × (sysex_handle_3e (packet e 0x79 b c) r ≡ some (s, act))
        × IsDelivered commands (b ∷ c ∷ []) s (note_run act [])
    unfolding sysex_handle_3e
    sysex_handle_3e_mid =
        let r' = record r { is_reading = false; state = djtt } in
        let v' = start_ours (record r { is_reading = false }) (stop_reading r v) in
        let (t, et, vt) = put_two-IsFilling b c 0 [] r' v' (omega arith) in
        let (s, act, es, d) = finish 2 (b ∷ c ∷ []) t vt (omega arith) in
        (s, act, ground (arith, et, es), d)
