-- ===== src/Encoders/Detent.antt =====
-- src/encoders.c: when the centre detent holds an encoder, and where it lets it go.
use midi_fighter_twister_ope.Base.{
  ℕ, ◌+◌, ◌≤◌, ◌≡◌, ◌⊎◌, ◌↔◌, arith, none, some, u8, if◌then◌else◌, ◌||◌,
}
use midi_fighter_twister_ope.Encoders.{Encoders, less_int8}
use midi_fighter_twister_ope.Encoders.Rotary.{process_encoder_input_rotary_detent}
use midi_fighter_twister_ope.Encoders.BankRange.{InRange}

module _ (s : Encoders) (h : InRange s) (i virt banked new_value : ℕ) where
  -- The detent leaves a movement to the next function exactly if the encoder has none, or its value is
  -- not between 6240 and 6450. If it takes the movement, it counts the ticks. With a count beyond 8 in one
  -- direction the value is set to the limit on that side and the indicators stay; otherwise the value stays and 63
  -- is shown.
  pub process_encoder_input_rotary_detent_lem :
      ((process_encoder_input_rotary_detent s i virt banked new_value ≡ none) ↔ (
        ((s.encoder_settings banked).has_detent ≡ 0)
        ⊎ ((s.raw_encoder_value virt ≤ 6240) ⊎ (6450 ≤ s.raw_encoder_value virt))))
      × ((t : Encoders)
          → process_encoder_input_rotary_detent s i virt banked new_value ≡ some t
          → (let count = u8 (s.encoder_detent_counter i + new_value) in
              let leaves = less_int8 8 count || less_int8 count 0xf8 in
              (t.encoder_detent_counter i ≡ count)
              × ((t.raw_encoder_value virt ≡ (
                    if less_int8 8 count
                    then 6450
                    else if less_int8 count 0xf8
                    then 6240
                    else s.raw_encoder_value virt))
                  × (t.indicator_value_buffer s.encoder_bank i
                      ≡ (if leaves then s.indicator_value_buffer s.encoder_bank i else 63)))))
  unfolding process_encoder_input_rotary_detent
  process_encoder_input_rotary_detent_lem =
      let b = h virt in (ground (arith, b), λ t e. grind (arith, b))
