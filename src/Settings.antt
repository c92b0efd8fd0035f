-- ===== src/Settings.antt =====
-- src/encoders.h `encoder_config_t` and, from src/encoders.c, `get_encoder_config`, what
-- `save_encoder_config` does to the EEPROM, and `factory_reset_encoder_config`. Each encoder has
-- eight bytes; a page of 32 holds four encoders, and the first page is that of the device settings.
pub mod Merge
pub mod Bytes
pub mod SaveLoad
pub mod Factory
pub mod FactoryDefaults
use midi_fighter_twister_ope.Base.{
  ℕ, zero, suc, ◌+◌, ◌-◌, ◌*◌, ◌/◌, ◌%◌, Bool, true, false, List, [], ◌∷◌, bit_and, bit_or, ltb,
  if◌then◌else◌, u8, u16, ◌<<<◌, ◌>>>◌, get_or, set, replicate,
}
use midi_fighter_twister_ope.Nvm.{Nvm}

-- `encoder_config_t`. Data that came in a message has seven bits; 0x80 marks a setting that was not in it.
pub record EncoderConfig : Type 0 where
  pub has_detent : ℕ
  pub movement : ℕ
  pub switch_action_type : ℕ
  pub switch_midi_channel : ℕ
  pub switch_midi_number : ℕ
  pub switch_midi_type : ℕ
  pub encoder_midi_channel : ℕ
  pub encoder_midi_number : ℕ
  pub encoder_midi_type : ℕ
  pub active_color : ℕ
  pub inactive_color : ℕ
  pub detent_color : ℕ
  pub indicator_display_type : ℕ
  pub is_super_knob : ℕ
  pub encoder_shift_midi_channel : ℕ

-- What `get_encoder_config` makes of the eight bytes.
unfoldable pub expand : List ℕ → EncoderConfig
expand buffer =
    let byte = λ (i : ℕ). get_or buffer i 0 in
    record {
      has_detent = bit_and (byte 4 >>> 7) 0x01;
      movement = bit_and (byte 5 >>> 2) 0x03;
      switch_action_type = bit_and (byte 0) 0x0f;
      switch_midi_channel = bit_and (byte 0 >>> 4) 0x0f;
      switch_midi_number = bit_and (byte 1) 0x7f;
      switch_midi_type = 0;
      encoder_midi_channel = bit_and (byte 6 >>> 4) 0x0f;
      encoder_midi_number = bit_and (byte 7) 0x7f;
      encoder_midi_type = bit_and (byte 6) 0x07;
      active_color = byte 2;
      inactive_color = byte 3;
      detent_color = bit_and (byte 4) 0x7f;
      indicator_display_type = bit_and (byte 5) 0x03;
      is_super_knob = bit_and (byte 7 >>> 7) 0x01;
      encoder_shift_midi_channel = bit_and (byte 5 >>> 4) 0x0f;
    }

-- `(ENC_SETTINGS_START_PAGE * 32) + (bank * 128) + (encoder * 8)`.
abbrev pub config_address : ℕ → ℕ → ℕ
config_address bank encoder = 1 * 32 + bank * 128 + encoder * 8

-- `*ptr &= ~mask; *ptr |= value`, if the new setting is valid; `keep` is `~mask` as a byte.
unfoldable pub merge : ℕ → ℕ → ℕ → ℕ → ℕ
merge setting keep value byte = if ltb setting 0x80 then bit_or (bit_and byte keep) value else byte

-- A channel arrives counted from 1: `0xF0 & ((channel - 1) << 4)`, in 16-bit `int`.
abbrev pub channel_bits : ℕ → ℕ
channel_bits channel = bit_and 0xf0 (u16 (u16 (channel + 65535) <<< 4))

-- The eight updates of `save_encoder_config`, a byte each.
unfoldable pub merge_switch : EncoderConfig → ℕ → ℕ
merge_switch cfg byte =
    merge cfg.switch_midi_channel 0x0f (channel_bits cfg.switch_midi_channel)
      (merge cfg.switch_action_type 0xf0 (bit_and cfg.switch_action_type 0x0f) byte)

abbrev pub replace : ℕ → ℕ → ℕ
replace setting byte = if ltb setting 0x80 then setting else byte

unfoldable pub merge_detent : EncoderConfig → ℕ → ℕ
merge_detent cfg byte =
    merge cfg.detent_color 0x80 (bit_and 0x7f cfg.detent_color)
      (merge cfg.has_detent 0x7f (bit_and 0x80 (cfg.has_detent <<< 7)) byte)

unfoldable pub merge_display : EncoderConfig → ℕ → ℕ
merge_display cfg byte =
    merge cfg.encoder_shift_midi_channel 0x0f (channel_bits cfg.encoder_shift_midi_channel) (
      merge cfg.movement 0xf3 (bit_and 0x0c (cfg.movement <<< 2))
        (merge cfg.indicator_display_type 0xfc (bit_and 0x03 cfg.indicator_display_type) byte))

unfoldable pub merge_type : EncoderConfig → ℕ → ℕ
merge_type cfg byte =
    merge cfg.encoder_midi_channel 0x0f (channel_bits cfg.encoder_midi_channel)
      (merge cfg.encoder_midi_type 0xf8 (bit_and 0x07 cfg.encoder_midi_type) byte)

unfoldable pub merge_number : EncoderConfig → ℕ → ℕ
merge_number cfg byte =
    merge cfg.is_super_knob 0x7f (bit_and 0x80 (cfg.is_super_knob <<< 7))
      (merge cfg.encoder_midi_number 0x80 cfg.encoder_midi_number byte)

unfoldable pub updates : EncoderConfig → List (ℕ → ℕ)
updates cfg =
    merge_switch cfg
    ∷ replace cfg.switch_midi_number
    ∷ replace cfg.active_color
    ∷ replace cfg.inactive_color
    ∷ merge_detent cfg
    ∷ merge_display cfg
    ∷ merge_type cfg
    ∷ merge_number cfg
    ∷ []

-- `*buffer_ptr = f(*buffer_ptr); buffer_ptr++`, for each update.
unfoldable pub update_from : List (ℕ → ℕ) → ℕ → List ℕ → List ℕ
update_from [] pos page = page
update_from (f ∷ fs) pos page = update_from fs (pos + 1) (set page pos (f (get_or page pos 0)))

module _ (nvm : Nvm) where
  open nvm use {Store, read_buffer, write_page}

  unfoldable pub get_encoder_config : Store → ℕ → ℕ → EncoderConfig
  get_encoder_config s bank encoder = expand (read_buffer s (config_address bank encoder) 8)

  -- What `save_encoder_config` does behind its first two lines, which write to RAM.
  unfoldable pub save_to_eeprom : Store → ℕ → ℕ → EncoderConfig → Store
  save_to_eeprom s bank encoder cfg =
      let page_buffer = read_buffer s (1 * 32 + bank * 128 + encoder / 4 * 32) 32 in
      let merged = update_from (updates cfg) (8 * (encoder % 4)) page_buffer in
      write_page s merged (1 + 4 * bank + encoder / 4)
