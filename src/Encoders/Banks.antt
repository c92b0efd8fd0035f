-- ===== src/Encoders/Banks.antt =====
-- src/encoders.c: encoders of several banks that are mapped to the same controller share a value, and
-- `change_encoder_bank`. The watchdog, and the previous values of the display, which a change
-- of the bank sets to -1, are left out.
use midi_fighter_twister_ope.Base.{
  ℕ, zero, suc, ◌+◌, ◌*◌, ◌/◌, Bool, ◌&&◌, not, ◌==◌, if◌then◌else◌, u8,
}
use midi_fighter_twister_ope.Settings.{EncoderConfig}
use midi_fighter_twister_ope.Encoders.{
  Encoders, assign, assign_cell, physical_encoders, banked_encoders, encoder_is_in_shift_state,
  get_virtual_encoder_id, is_relative,
}

unfoldable pub encoder_maps_match : EncoderConfig → EncoderConfig → Bool
encoder_maps_match this that =
    (this.encoder_midi_number == that.encoder_midi_number)
    && (this.encoder_midi_type == that.encoder_midi_type)
    && not (is_relative this)

-- The values that are copied, unshifted and shifted.
unfoldable pub transfer_values : Bool → Bool → ℕ → ℕ → (ℕ → ℕ) → ℕ → ℕ
transfer_values same same_shifted this that raw =
    let raw1 = if same then assign raw that (raw this) else raw in
    if same_shifted
    then assign raw1 (that + banked_encoders) (raw1 (this + banked_encoders))
    else raw1

-- The body of the inner loop of `transfer_this_encoder_value_to_other_banks`.
unfoldable pub transfer_to : ℕ → ℕ → ℕ → ℕ → Encoders → Encoders
transfer_to current_bank encoder_id that_bank that_encoder s =
    let this : ℕ = u8 (current_bank * physical_encoders + encoder_id) in
    let that : ℕ = u8 (that_bank * physical_encoders + that_encoder) in
    let this_cfg = s.encoder_settings this in
    let that_cfg = s.encoder_settings that in
    let current_shift_state = encoder_is_in_shift_state s that_bank that_encoder in
    let shown =
      assign_cell s.indicator_value_buffer that_bank that_encoder
        (s.indicator_value_buffer current_bank encoder_id) in
    let same = this_cfg.encoder_midi_channel == that_cfg.encoder_midi_channel in
    let same_shifted = this_cfg.encoder_shift_midi_channel == that_cfg.encoder_shift_midi_channel in
    if encoder_maps_match this_cfg that_cfg
    then record s {
      raw_encoder_value = transfer_values same same_shifted this that s.raw_encoder_value;
      indicator_value_buffer =
          if (if current_shift_state then same_shifted else same)
          then shown
          else s.indicator_value_buffer;
    }
    else s

-- `for (that_encoder = 0; ...)` and `for (that_bank = 0; ...)`, with `n` rounds left.
unfoldable pub transfer_to_bank : ℕ → ℕ → ℕ → ℕ → ℕ → Encoders → Encoders
transfer_to_bank current_bank encoder_id that_bank zero that_encoder s = s
transfer_to_bank current_bank encoder_id that_bank (suc n) that_encoder s =
    transfer_to_bank current_bank encoder_id that_bank n (that_encoder + 1)
      (transfer_to current_bank encoder_id that_bank that_encoder s)

unfoldable pub transfer_to_banks : ℕ → ℕ → ℕ → ℕ → Encoders → Encoders
transfer_to_banks current_bank encoder_id zero that_bank s = s
transfer_to_banks current_bank encoder_id (suc n) that_bank s =
    transfer_to_banks current_bank encoder_id n (that_bank + 1) (
      if that_bank == current_bank
      then s
      else transfer_to_bank current_bank encoder_id that_bank 16 0 s)

unfoldable pub transfer_this_encoder_value_to_other_banks : ℕ → ℕ → Encoders → Encoders
transfer_this_encoder_value_to_other_banks current_bank encoder_id s =
    transfer_to_banks current_bank encoder_id 8 0 s

-- `for (this_encoder = 0; ...)`, with `n` rounds left.
unfoldable pub transfer_from : ℕ → ℕ → ℕ → Encoders → Encoders
transfer_from current_bank zero this_encoder s = s
transfer_from current_bank (suc n) this_encoder s =
    transfer_from current_bank n (this_encoder + 1)
      (transfer_this_encoder_value_to_other_banks current_bank this_encoder s)

unfoldable pub transfer_encoder_values_to_other_banks : ℕ → Encoders → Encoders
transfer_encoder_values_to_other_banks current_bank s = transfer_from current_bank 16 0 s

-- The loop of `change_encoder_bank`, with `n` rounds left. The values are not negative.
unfoldable pub show_from : ℕ → ℕ → ℕ → Encoders → Encoders
show_from new_bank zero i s = s
show_from new_bank (suc n) i s =
    let old_virtual = get_virtual_encoder_id s s.encoder_bank i in
    let new_virtual = get_virtual_encoder_id s new_bank i in
    let saved =
      assign_cell s.indicator_value_buffer s.encoder_bank i
        (u8 (s.raw_encoder_value old_virtual / 100)) in
    show_from new_bank n (i + 1) record s {
      indicator_value_buffer =
          assign_cell saved new_bank i (u8 (s.raw_encoder_value new_virtual / 100));
    }

unfoldable pub change_encoder_bank : ℕ → Encoders → Encoders
change_encoder_bank new_bank s =
    let shown = show_from new_bank 16 0 (transfer_encoder_values_to_other_banks s.encoder_bank s) in
    record shown { encoder_bank = new_bank }

unfoldable pub refresh_display : Encoders → Encoders
unfolding change_encoder_bank
refresh_display s = change_encoder_bank s.encoder_bank s
