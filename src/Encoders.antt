-- ===== src/Encoders.antt =====
-- src/encoders.c: the values of the encoders while the device runs. An encoder has a physical number
-- below 16, a banked one below 128, and a virtual one below 256, which also tells whether it is shifted. Arrays
-- are functions of an index that is in range. Signed numbers are two's complement, in 8 or 16 bits.
pub mod Ids
pub mod Rotary
pub mod Relative
pub mod Range
pub mod Detent
pub mod Banks
pub mod BankLaws
pub mod BankChange
pub mod BankRange
use midi_fighter_twister_ope.Base.{
  ℕ, ◌+◌, ◌*◌, ◌/◌, ◌%◌, Bool, true, false, ◌&&◌, ◌||◌, not, ltb, ◌==◌, if◌then◌else◌, u8, u16,
  ◌<<<◌, bit_and,
}
use midi_fighter_twister_ope.Settings.{EncoderConfig}

abbrev pub physical_encoders : ℕ
physical_encoders = 16

abbrev pub banked_encoders : ℕ
banked_encoders = 128

-- Values of `enc_sw_type`, `midi_type` and `enc_move_type` in src/encoders.h.
abbrev pub enc_fine_adjust : ℕ
enc_fine_adjust = 6

abbrev pub enc_shift_hold : ℕ
enc_shift_hold = 7

abbrev pub enc_shift_toggle : ℕ
enc_shift_toggle = 8

abbrev pub send_note : ℕ
send_note = 0

abbrev pub send_cc : ℕ
send_cc = 1

abbrev pub send_switch_vel_control : ℕ
send_switch_vel_control = 3

abbrev pub direct : ℕ
direct = 0

abbrev pub emulation : ℕ
emulation = 1

abbrev pub velocity_sensitive_enc : ℕ
velocity_sensitive_enc = 2

-- The tables of the module, with `enc_switch_state` of src/input.c and the counters of fine movement that
-- `process_encoder_input_rotary_relative` keeps.
pub record Encoders : Type 0 where
  pub encoder_settings : ℕ → EncoderConfig
  pub raw_encoder_value : ℕ → ℕ
  pub indicator_value_buffer : ℕ → ℕ → ℕ
  pub encoder_detent_counter : ℕ → ℕ
  pub relative_fine_value : ℕ → ℕ
  pub enc_switch_toggle_state : ℕ → ℕ
  pub enc_switch_state : ℕ
  pub encoder_bank : ℕ

-- An assignment to an element.
abbrev pub assign : (ℕ → ℕ) → ℕ → ℕ → ℕ → ℕ
assign table i v j = if j == i then v else table j

abbrev pub assign_cell : (ℕ → ℕ → ℕ) → ℕ → ℕ → ℕ → ℕ → ℕ → ℕ
assign_cell table b i v c j = if (c == b) && (j == i) then v else table c j

-- `a < b` for signed bytes and signed numbers of 16 bits, and the extension of a byte.
abbrev pub less_int8 : ℕ → ℕ → Bool
less_int8 a b = ltb ((a + 0x80) % 0x100) ((b + 0x80) % 0x100)

abbrev pub less_int16 : ℕ → ℕ → Bool
less_int16 a b = ltb ((a + 0x8000) % 0x10000) ((b + 0x8000) % 0x10000)

abbrev pub extend : ℕ → ℕ
extend d = if ltb d 0x80 then d else d + 0xff00

unfoldable pub encoder_is_in_shift_state : Encoders → ℕ → ℕ → Bool
encoder_is_in_shift_state s bank encoder =
    let cfg = s.encoder_settings (u8 (encoder + bank * physical_encoders)) in
    let bit : ℕ = u16 (1 <<< encoder) in
    ((cfg.switch_action_type == enc_shift_hold) && not (bit_and s.enc_switch_state bit == 0))
    || ((cfg.switch_action_type == enc_shift_toggle)
        && not (bit_and (s.enc_switch_toggle_state bank) bit == 0))

unfoldable pub get_virtual_encoder_id : Encoders → ℕ → ℕ → ℕ
get_virtual_encoder_id s bank encoder_id =
    let virtual_encoder_id : ℕ = u8 (encoder_id + bank * 16) in
    if encoder_is_in_shift_state s bank encoder_id
    then u8 (virtual_encoder_id + banked_encoders)
    else virtual_encoder_id

-- `(uint8_t) ((value+50)/100)`, of a value that is not negative.
unfoldable pub scale_encoder_value : ℕ → ℕ
scale_encoder_value value = u8 ((value + 50) / 100)

unfoldable pub clamp_encoder_raw_value : ℕ → ℕ
clamp_encoder_raw_value value =
    let positive : ℕ = if less_int16 value 0 then 0 else value in
    if less_int16 12700 positive then 12700 else positive

unfoldable pub encoder_is_in_detent : ℕ → Bool
encoder_is_in_detent value = less_int16 6240 value && less_int16 value 6450

unfoldable pub encoder_is_in_deadzone : ℕ → Bool
encoder_is_in_deadzone value = less_int16 12699 value || less_int16 value 1

-- `encoder_midi_type == SEND_REL_ENC || ...`.
unfoldable pub is_relative : EncoderConfig → Bool
is_relative cfg =
    (cfg.encoder_midi_type == 2) || (cfg.encoder_midi_type == 4) || (cfg.encoder_midi_type == 5)
