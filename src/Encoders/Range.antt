-- ===== src/Encoders/Range.antt =====
-- src/encoders.c: the values of the encoders stay between 0 and 12700, and a movement adds to them what
-- it says, up to these ends.
use midi_fighter_twister_ope.Base.{ℕ, ◌+◌, ◌*◌, ◌<◌, ◌≤◌, ◌≡◌, arith, Bool, some, List, u16}
use midi_fighter_twister_ope.Midi.{EventPacket}
use midi_fighter_twister_ope.Encoders.{Encoders, extend, clamp_encoder_raw_value}
use midi_fighter_twister_ope.Encoders.BankRange.{InRange, assign-le, refresh_display-Changes}
use midi_fighter_twister_ope.Encoders.Banks.{refresh_display}
use midi_fighter_twister_ope.Encoders.Rotary.{
  base_multiplier, process_encoder_input_rotary_detent, process_encoder_input_rotary_deadzone,
  process_encoder_input_rotary_absolute,
}
use midi_fighter_twister_ope.Encoders.Relative.{
  process_encoder_input_rotary_relative, rotate_encoder, process_encoder_input_rotary,
}

pub clamp_range : (v : ℕ) → v < 65536 → clamp_encoder_raw_value v ≤ 12700
unfolding clamp_encoder_raw_value
clamp_range v h = ground arith

pub u16-lt : (n : ℕ) → u16 n < 65536
u16-lt n = omega arith

module _ (s : Encoders) (h : InRange s) where
  detent-InRange :
      (i virt banked new_value : ℕ) (t : Encoders)
      → process_encoder_input_rotary_detent s i virt banked new_value ≡ some t
      → (k : ℕ) → t.raw_encoder_value k ≤ 12700
  unfolding process_encoder_input_rotary_detent
  detent-InRange i virt banked new_value t e k = grind (arith, h)

  deadzone-InRange :
      (i virt banked new_value : ℕ) (t : Encoders)
      → process_encoder_input_rotary_deadzone s i virt banked new_value ≡ some t
      → (k : ℕ) → t.raw_encoder_value k ≤ 12700
  unfolding process_encoder_input_rotary_deadzone
  deadzone-InRange i virt banked new_value t e k = grind (arith, h)

  module _ (convert_ticks : ℕ → ℕ → ℕ) (secondary : ℕ → ℕ) (start : ℕ) where
    absolute-InRange :
        (i virt banked new_value bit cycle_count : ℕ)
        → InRange
            (process_encoder_input_rotary_absolute convert_ticks secondary start s i virt banked
              new_value bit cycle_count).0
    unfolding process_encoder_input_rotary_absolute
    absolute-InRange i virt banked new_value bit cycle_count = λ v.
        assign-le s.raw_encoder_value virt _ 12700 v h (
          clamp_range
            (u16 (
              s.raw_encoder_value virt
              + u16 (
                  extend new_value
                  * base_multiplier convert_ticks secondary start s (s.encoder_settings banked)
                      new_value bit cycle_count)))
            (u16-lt _))

    relative-InRange :
        (i banked new_value bit cycle_count : ℕ) (r : Encoders × List EventPacket)
        → process_encoder_input_rotary_relative convert_ticks secondary start s i banked new_value
            bit cycle_count
          ≡ some r
        → (k : ℕ) → r.0.raw_encoder_value k ≤ 12700
    unfolding process_encoder_input_rotary_relative
    relative-InRange i banked new_value bit cycle_count r e k = grind (arith, h)

    rotate-InRange :
        (i virt banked new_value bit cycle_count : ℕ)
        → InRange
            (rotate_encoder convert_ticks secondary start s i virt banked new_value bit
              cycle_count).0
    unfolding rotate_encoder
    rotate-InRange i virt banked new_value bit cycle_count k =
        let b = h k in
        let absolute = absolute-InRange i virt banked new_value bit cycle_count k in
        let relative =
          λ (r : Encoders × List EventPacket)
              (e : process_encoder_input_rotary_relative convert_ticks secondary start s i banked
                  new_value bit cycle_count
                ≡ some r).
            relative-InRange i banked new_value bit cycle_count r e k in
        let dead =
          λ (t : Encoders)
              (e : process_encoder_input_rotary_deadzone s i virt banked new_value ≡ some t).
            deadzone-InRange i virt banked new_value t e k in
        let detent =
          λ (t : Encoders)
              (e : process_encoder_input_rotary_detent s i virt banked new_value ≡ some t).
            detent-InRange i virt banked new_value t e k in
        grind (arith, b, absolute, relative, dead, detent)

    -- The multiplier of a movement by `n` and the state behind it.
    abbrev pub multiplier : ℕ → ℕ → ℕ → ℕ → ℕ
    multiplier banked bit cycle_count n =
        base_multiplier convert_ticks secondary start s (s.encoder_settings banked) n bit
          cycle_count

    abbrev pub moved : ℕ → ℕ → ℕ → ℕ → ℕ → ℕ → Encoders
    moved i virt banked bit cycle_count n =
        (process_encoder_input_rotary_absolute convert_ticks secondary start s i virt banked n bit
          cycle_count).0

module _ (s : Encoders) (h : InRange s) (convert_ticks : ℕ → ℕ → ℕ) (secondary : ℕ → ℕ)
    (start : ℕ) where
  -- No movement takes a value out of 0 to 12700, whatever the settings and the multipliers are.
  pub process_encoder_input_rotary-InRange :
      (native_mode_is_active : Bool) (i virt banked new_value bit cycle_count : ℕ)
      → InRange
          (process_encoder_input_rotary convert_ticks secondary start native_mode_is_active s i virt
            banked new_value bit cycle_count).0
  unfolding process_encoder_input_rotary
  process_encoder_input_rotary-InRange native_mode_is_active i virt banked new_value bit cycle_count
        k =
      let fresh = refresh_display s in
      let refreshed = (refresh_display-Changes s).in_range h in
      let b = h k in
      let c = refreshed k in
      let moved =
        rotate-InRange fresh refreshed convert_ticks secondary start i virt banked new_value bit
          cycle_count k in
      grind (arith, b, c, moved)
