-- ===== src/EncoderSwitch/RotarySound.antt =====
-- src/encoders.c: what the movement of an encoder leaves of the device.
use midi_fighter_twister_ope.Base.{ℕ, ◌≡◌, refl, ◌∙◌, arith, Bool, some, List, ◌++◌}
use midi_fighter_twister_ope.Midi.{EventPacket}
use midi_fighter_twister_ope.Encoders.{Encoders}
use midi_fighter_twister_ope.Encoders.Banks.{refresh_display}
use midi_fighter_twister_ope.Encoders.BankRange.{refresh_display-Changes}
use midi_fighter_twister_ope.Encoders.Rotary.{
  process_encoder_input_rotary_detent, process_encoder_input_rotary_deadzone,
  process_encoder_input_rotary_absolute,
}
use midi_fighter_twister_ope.Encoders.Relative.{
  process_encoder_input_rotary_relative, rotate_encoder, process_encoder_input_rotary,
}
use midi_fighter_twister_ope.Encoders.Range.{process_encoder_input_rotary-InRange}
use midi_fighter_twister_ope.Device.{Device}
use midi_fighter_twister_ope.Device.Sound.{Leaves, after_both}
use midi_fighter_twister_ope.EncoderSwitch.{with_encoders}
use midi_fighter_twister_ope.EncoderSwitch.Input.{process_rotary}
use midi_fighter_twister_ope.EncoderSwitch.Sound.{with_encoders-Leaves}

-- Packets that are sent at once, and a device that is awake.
pub send_all-Leaves :
    (packets : List EventPacket) (idle : ℕ) (asleep : Bool) (d : Device)
    → Leaves d
        (record d { sent = d.sent ++ packets; idle_timer = idle; sleep_mode_active = asleep })
send_all-Leaves packets idle asleep d = record {
  same_native = refl;
  same_settings = refl;
  same_actions = refl;
  same_input = refl;
  same_previous = refl;
  same_channel = refl;
  sound =
      λ h. record { bank = h.bank; values = h.values; running = h.running; animated = h.animated };
}

-- An encoder's movement changes neither the settings nor the bank.
abbrev IsSameBank : Encoders → Encoders → Type 0
IsSameBank s t = (t.encoder_settings ≡ s.encoder_settings) × (t.encoder_bank ≡ s.encoder_bank)

detent_bank :
    (s t : Encoders) (i virt banked movement : ℕ)
    → process_encoder_input_rotary_detent s i virt banked movement ≡ some t
    → IsSameBank s t
unfolding process_encoder_input_rotary_detent
detent_bank s t i virt banked movement e = (ground arith, ground arith)

deadzone_bank :
    (s t : Encoders) (i virt banked movement : ℕ)
    → process_encoder_input_rotary_deadzone s i virt banked movement ≡ some t
    → IsSameBank s t
unfolding process_encoder_input_rotary_deadzone
deadzone_bank s t i virt banked movement e = (ground arith, ground arith)

module _ (convert_ticks : ℕ → ℕ → ℕ) (secondary : ℕ → ℕ) (start : ℕ) where
  relative_bank :
      (s : Encoders) (r : Encoders × List EventPacket) (i banked movement bit cycle_count : ℕ)
      → process_encoder_input_rotary_relative convert_ticks secondary start s i banked movement bit
          cycle_count
        ≡ some r
      → IsSameBank s r.0
  unfolding process_encoder_input_rotary_relative
  relative_bank s r i banked movement bit cycle_count e = (ground arith, ground arith)

  absolute_bank :
      (s : Encoders) (i virt banked movement bit cycle_count : ℕ)
      → IsSameBank s
          (process_encoder_input_rotary_absolute convert_ticks secondary start s i virt banked
            movement bit cycle_count).0
  unfolding process_encoder_input_rotary_absolute
  absolute_bank s i virt banked movement bit cycle_count = (refl, refl)

  rotate_bank :
      (s : Encoders) (i virt banked movement bit cycle_count : ℕ)
      → IsSameBank s
          (rotate_encoder convert_ticks secondary start s i virt banked movement bit cycle_count).0
  unfolding rotate_encoder
  rotate_bank s i virt banked movement bit cycle_count =
      let detent =
        λ (t : Encoders)
            (e : process_encoder_input_rotary_detent s i virt banked movement ≡ some t).
          detent_bank s t i virt banked movement e in
      let dead =
        λ (t : Encoders)
            (e : process_encoder_input_rotary_deadzone s i virt banked movement ≡ some t).
          deadzone_bank s t i virt banked movement e in
      let relative =
        λ (r : Encoders × List EventPacket)
            (e : process_encoder_input_rotary_relative convert_ticks secondary start s i banked
                movement bit cycle_count
              ≡ some r).
          relative_bank s r i banked movement bit cycle_count e in
      let absolute = absolute_bank s i virt banked movement bit cycle_count in
      (
        grind (arith, detent, dead, relative, absolute),
        grind (arith, detent, dead, relative, absolute),
      )

  rotary_bank :
      (active : Bool) (s : Encoders) (i virt banked movement bit cycle_count : ℕ)
      → IsSameBank s
          (process_encoder_input_rotary convert_ticks secondary start active s i virt banked
            movement bit cycle_count).0
  unfolding process_encoder_input_rotary
  rotary_bank active s i virt banked movement bit cycle_count =
      let c = refresh_display-Changes s in
      let r = rotate_bank (refresh_display s) i virt banked movement bit cycle_count in
      let settings = r.0 ∙ c.same_settings in
      let bank = r.1 ∙ c.new_bank in
      (ground (arith, settings, c.same_settings), ground (arith, bank, c.new_bank))

  pub process_rotary-Leaves :
      (i virt banked mask movement cycle_count : ℕ) (d : Device)
      → Leaves d
          (process_rotary convert_ticks secondary start i virt banked mask movement cycle_count d)
  unfolding process_rotary
  process_rotary-Leaves i virt banked mask movement cycle_count d =
      let r =
        process_encoder_input_rotary convert_ticks secondary start d.native.is_active d.encoders i
          virt banked movement mask cycle_count in
      let b = rotary_bank d.native.is_active d.encoders i virt banked movement mask cycle_count in
      after_both
        (with_encoders-Leaves r.0 d b.0 b.1 (λ h.
          process_encoder_input_rotary-InRange d.encoders h convert_ticks secondary start
            d.native.is_active i virt banked movement mask cycle_count))
        (send_all-Leaves r.1 _ _ (with_encoders r.0 d))
