-- ===== src/Quadrature.antt =====
-- src/input.c: what `encoder_scan` makes of the two pins of an encoder, and `get_encoder_value`. Each of the 16
-- encoders is handled alike in the loop, and here by itself; the reading of the pins is hardware. Signed
-- bytes are two's complement.
pub mod Turning
use midi_fighter_twister_ope.Base.{
  ℕ, ◌+◌, Bool, true, false, ◌||◌, List, [], ◌∷◌, ltb, leb, ◌==◌, if◌then◌else◌, u8, u16, get_or,
}

abbrev pub inactive_threshold : ℕ
inactive_threshold = 100

abbrev pub debounce_cycle_timeout : ℕ
debounce_cycle_timeout = 6

-- `EncoderActionByState`: 0xff is -1 and 0x81 is -127.
abbrev pub encoder_action_by_state : List ℕ
encoder_action_by_state =
    0 ∷ 0xff ∷ 1 ∷ 0x81 ∷ 1 ∷ 0 ∷ 0x81 ∷ 0xff ∷ 0xff ∷ 0x81 ∷ 0 ∷ 1 ∷ 0x81 ∷ 1 ∷ 0xff ∷ 0 ∷ []

-- The variables of an encoder.
pub record EncoderInput : Type 0 where
  pub encoder_state : ℕ
  pub cha_prev : Bool
  pub chb_prev : Bool
  pub encoder_inactive_counter : ℕ
  pub encoder_last_movement : ℕ
  pub encoder_event_cycle_counts : ℕ

-- `this_encoder_state`, and the action that the table has for it.
unfoldable pub encoder_action : EncoderInput → Bool → Bool → ℕ
encoder_action e cha chb =
    get_or encoder_action_by_state
      ((if cha then 4 else 0)
        + (if chb then 8 else 0)
        + (if e.cha_prev then 1 else 0)
        + (if e.chb_prev then 2 else 0))
      0

-- An event in direction `move`, 1 or -1.
unfoldable pub encoder_event : EncoderInput → ℕ → EncoderInput
encoder_event e move =
    let cycle_count : ℕ = u16 (e.encoder_inactive_counter + 1) in
    let counted : EncoderInput = record e {
      encoder_state = u8 (e.encoder_state + move);
      encoder_event_cycle_counts = u16 (e.encoder_event_cycle_counts + cycle_count);
      encoder_last_movement = move;
      encoder_inactive_counter = 0;
    } in
    if leb debounce_cycle_timeout cycle_count || (e.encoder_last_movement == move)
    then counted
    else record e { encoder_last_movement = move; encoder_inactive_counter = 0 }

-- A round of the loop, with the state of the pins kept for the next scan.
unfoldable pub encoder_scan : EncoderInput → Bool → Bool → EncoderInput
encoder_scan e cha chb =
    let action = encoder_action e cha chb in
    let idle : EncoderInput = record e {
      encoder_inactive_counter =
          if ltb e.encoder_inactive_counter inactive_threshold
          then e.encoder_inactive_counter + 1
          else e.encoder_inactive_counter;
    } in
    let next : EncoderInput =
      if (action == 0) || (action == 0x81)
      then idle
      else encoder_event e (if leb 0x80 action then 0xff else 1) in
    record next { cha_prev = cha; chb_prev = chb }

unfoldable pub encoder_is_active : EncoderInput → Bool
encoder_is_active e = if leb inactive_threshold e.encoder_inactive_counter then false else true
