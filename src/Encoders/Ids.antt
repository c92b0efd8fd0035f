-- ===== src/Encoders/Ids.antt =====
-- src/encoders.c: the virtual number of an encoder, and the banked one that is taken from it by
-- `& BANKED_ENCODER_MASK`.
use midi_fighter_twister_ope.Base.{
  ℕ, ◌+◌, ◌*◌, ◌%◌, ◌<◌, ◌≡◌, refl, ◌∙◌, arith, if◌then◌else◌, bit_and, all_below, byte_table,
}
use midi_fighter_twister_ope.Encoders.{Encoders, encoder_is_in_shift_state, get_virtual_encoder_id}

mask : (x : ℕ) → x < 256 → bit_and x 0x7f ≡ x % 128
unfolding all_below
mask x h = byte_table (λ y. bit_and y 0x7f) (λ y. y % 128) x refl h

-- The virtual number of an encoder is its number in its bank and 128 more in a shift state, where it lies
-- beyond the 128 elements of `encoder_settings`; the mask gives the banked number back.
get_virtual_encoder_id_lem :
    (s : Encoders) (bank encoder : ℕ)
    → bank < 8
    → encoder < 16
    → (get_virtual_encoder_id s bank encoder
        ≡ (if encoder_is_in_shift_state s bank encoder then 128 else 0) + (encoder + bank * 16))
      × (bit_and (get_virtual_encoder_id s bank encoder) 0x7f ≡ encoder + bank * 16)
unfolding get_virtual_encoder_id
get_virtual_encoder_id_lem s bank encoder h k =
    let value : get_virtual_encoder_id s bank encoder
        ≡ (if encoder_is_in_shift_state s bank encoder then 128 else 0) + (encoder + bank * 16) =
      ground arith in
    let small : get_virtual_encoder_id s bank encoder < 256 = ground arith in
    (value, mask (get_virtual_encoder_id s bank encoder) small ∙ ground (arith, value))
