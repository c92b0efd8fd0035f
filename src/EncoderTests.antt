-- ===== src/EncoderTests.antt =====
-- The theorems on encoders at concrete inputs: all encoders of the eight banks have the factory's
-- settings, stand in the middle, and have a detent. The pins of one of them are scanned from power-up on.
use midi_fighter_twister_ope.Base.{
  refl, ℕ, ◌+◌, ◌*◌, ◌/◌, ◌%◌, ◌<◌, ◌≤◌, ◌≡◌, ◌⊎◌, ◌↔◌, arith, true, false, none, some,
  if◌then◌else◌, ◌==◌, u8, inl, inr, List, [], ◌∷◌,
}
use midi_fighter_twister_ope.Settings.FactoryDefaults.{factory_config}
use midi_fighter_twister_ope.Encoders.{Encoders, get_virtual_encoder_id}
use midi_fighter_twister_ope.Quadrature.{EncoderInput}
use midi_fighter_twister_ope.Quadrature.Turning.{Tick, neither, turn, total, turn_lem}
use midi_fighter_twister_ope.Encoders.Rotary.{process_encoder_input_rotary_detent}
use midi_fighter_twister_ope.Encoders.Relative.{fine_up, fine_up_lem, process_encoder_input_rotary}
use midi_fighter_twister_ope.Encoders.BankRange.{InRange}
use midi_fighter_twister_ope.Encoders.Range.{process_encoder_input_rotary-InRange}
use midi_fighter_twister_ope.Encoders.Detent.{process_encoder_input_rotary_detent_lem}
use midi_fighter_twister_ope.Encoders.Banks.{
  transfer_this_encoder_value_to_other_banks, change_encoder_bank,
}
use midi_fighter_twister_ope.Encoders.BankLaws.{
  copied, transfer_this_encoder_value_to_other_banks_lem,
}
use midi_fighter_twister_ope.Encoders.BankChange.{change_encoder_bank_lem}

abbrev pub middle : Encoders
middle = record {
  encoder_settings = λ id. record (factory_config (id / 16) (id % 16)) { has_detent = 1 };
  raw_encoder_value = λ v. 6300;
  indicator_value_buffer = λ bank i. 63;
  encoder_detent_counter = λ i. 8;
  relative_fine_value = λ i. 0;
  enc_switch_toggle_state = λ bank. 0;
  enc_switch_state = 0;
  encoder_bank = 2;
}

pub middle-InRange : InRange middle
middle-InRange v = omega arith

-- For the two functions in floating point: a multiplier of 3 a tick, and half the way.
abbrev three : ℕ → ℕ → ℕ
three ticks cycles = 3 * ticks

abbrev half : ℕ → ℕ
half value = value / 2

process_encoder_input_rotary-InRange_example :
    InRange (process_encoder_input_rotary three half 63 false middle 5 37 37 2 32 100).0
process_encoder_input_rotary-InRange_example =
    process_encoder_input_rotary-InRange middle middle-InRange three half 63 false 5 37 37 2 32 100

process_encoder_input_rotary_detent_example :
    ((process_encoder_input_rotary_detent middle 5 37 37 2 ≡ none) ↔ (
      ((middle.encoder_settings 37).has_detent ≡ 0)
      ⊎ ((middle.raw_encoder_value 37 ≤ 6240) ⊎ (6450 ≤ middle.raw_encoder_value 37))))
    × ((t : Encoders)
        → process_encoder_input_rotary_detent middle 5 37 37 2 ≡ some t
        → (t.encoder_detent_counter 5 ≡ 10)
          × ((t.raw_encoder_value 37 ≡ 6450)
              × (t.indicator_value_buffer middle.encoder_bank 5 ≡ 63)))
process_encoder_input_rotary_detent_example =
    process_encoder_input_rotary_detent_lem middle middle-InRange 5 37 37 2

fine_up_example : fine_up 8 11 64 ≡ (11 % 4, u8 (64 + 11 / 4))
fine_up_example = fine_up_lem 8 11 64 (omega arith) (omega arith) (omega arith)

transfer_this_encoder_value_to_other_banks_example :
    (let t = transfer_this_encoder_value_to_other_banks 2 5 middle in
      (t.encoder_settings ≡ middle.encoder_settings)
      × ((t.encoder_bank ≡ middle.encoder_bank)
          × ((id : ℕ)
              → id < 256
              → t.raw_encoder_value id ≡ (
                  if id % 128 / 16 == 2
                  then middle.raw_encoder_value id
                  else copied middle.encoder_settings middle.raw_encoder_value (2 * 16 + 5) id))))
transfer_this_encoder_value_to_other_banks_example =
    transfer_this_encoder_value_to_other_banks_lem 2 5 (omega arith) (omega arith) middle

change_encoder_bank_example :
    (let t = change_encoder_bank 3 middle in
      (t.encoder_bank ≡ 3)
      × ((i : ℕ)
          → i < 16
          → t.indicator_value_buffer 3 i
            ≡ u8 (t.raw_encoder_value (get_virtual_encoder_id t 3 i) / 100)))
change_encoder_bank_example = change_encoder_bank_lem 3 middle

abbrev powered : EncoderInput
powered = record {
  encoder_state = 0;
  cha_prev = false;
  chb_prev = false;
  encoder_inactive_counter = 0;
  encoder_last_movement = 0;
  encoder_event_cycle_counts = 0;
}

-- Three ticks clockwise, the last two fast, and two against it after a pause.
abbrev back_and_forth : List Tick
back_and_forth =
    record { wait = 20; is_clockwise = true }
    ∷ record { wait = 1; is_clockwise = true }
    ∷ record { wait = 0; is_clockwise = true }
    ∷ record { wait = 9; is_clockwise = false }
    ∷ record { wait = 2; is_clockwise = false }
    ∷ []

turn_example :
    (turn back_and_forth neither powered).encoder_state
    ≡ u8 (powered.encoder_state + total back_and_forth)
turn_example =
    turn_lem back_and_forth neither powered
      record { at_cha = refl; at_chb = refl; calm = omega arith } (omega arith)
      (inl (omega arith), (inr refl, (inr refl, (inl (omega arith), (inr refl, tt)))))
