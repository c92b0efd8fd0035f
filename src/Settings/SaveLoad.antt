-- ===== src/Settings/SaveLoad.antt =====
-- src/encoders.c: `get_encoder_config` after `save_encoder_config`, setting by setting.
use midi_fighter_twister_ope.Base.{
  ℕ, ◌+◌, ◌/◌, ◌%◌, ◌<◌, ◌≡◌, ◌≢◌, ◌⊎◌, ◌∙◌, List, arith, get_or, ltb, if◌then◌else◌, u8, bit_and,
  ◌<<<◌,
}
use midi_fighter_twister_ope.Nvm.{Nvm}
use midi_fighter_twister_ope.Settings.{
  EncoderConfig, config_address, updates, expand, get_encoder_config, save_to_eeprom, merge_switch,
  merge_detent, merge_display, merge_type, merge_number, merge,
}
use midi_fighter_twister_ope.Settings.Merge.{
  and_0f, and_7f, and_03, and_07, and_01, merge_low_four, merge_channel, merge_flag, merge_color,
  merge_number_lem, merge_display_lem, merge_movement, merge_type_lem,
}
use midi_fighter_twister_ope.Settings.Bytes.{unchanged, saved_inside, saved_outside}

-- A setting that was sent replaces the stored one; `fits` is what the stored field can hold of it.
abbrev pub overlay : ℕ → ℕ → ℕ → ℕ
overlay sent fits stored = if ltb sent 0x80 then fits else stored

-- A channel is sent counted from 1 and stored counted from 0, in four bits.
abbrev pub stored_channel : ℕ → ℕ
stored_channel channel = (channel + 15) % 16

abbrev pub overlay_config : EncoderConfig → EncoderConfig → EncoderConfig
overlay_config old new = record {
  has_detent = overlay new.has_detent (new.has_detent % 2) old.has_detent;
  movement = overlay new.movement (new.movement % 4) old.movement;
  switch_action_type =
      overlay new.switch_action_type (new.switch_action_type % 16) old.switch_action_type;
  switch_midi_channel =
      overlay new.switch_midi_channel (stored_channel new.switch_midi_channel)
        old.switch_midi_channel;
  switch_midi_number = overlay new.switch_midi_number new.switch_midi_number old.switch_midi_number;
  switch_midi_type = 0;
  encoder_midi_channel =
      overlay new.encoder_midi_channel (stored_channel new.encoder_midi_channel)
        old.encoder_midi_channel;
  encoder_midi_number =
      overlay new.encoder_midi_number new.encoder_midi_number old.encoder_midi_number;
  encoder_midi_type =
      overlay new.encoder_midi_type (new.encoder_midi_type % 8) old.encoder_midi_type;
  active_color = overlay new.active_color new.active_color old.active_color;
  inactive_color = overlay new.inactive_color new.inactive_color old.inactive_color;
  detent_color = overlay new.detent_color new.detent_color old.detent_color;
  indicator_display_type =
      overlay new.indicator_display_type (new.indicator_display_type % 4)
        old.indicator_display_type;
  is_super_knob = overlay new.is_super_knob (new.is_super_knob % 2) old.is_super_knob;
  encoder_shift_midi_channel =
      overlay new.encoder_shift_midi_channel (stored_channel new.encoder_shift_midi_channel)
        old.encoder_shift_midi_channel;
}

-- The updated bytes, as arithmetic.
module _ (cfg : EncoderConfig) (b : ℕ) (h : b < 256) where
  switch_byte :
      (merge_switch cfg b < 256)
      × (merge_switch cfg b % 16
          ≡ overlay cfg.switch_action_type (cfg.switch_action_type % 16) (b % 16))
      × (merge_switch cfg b / 16
          ≡ overlay cfg.switch_midi_channel (stored_channel cfg.switch_midi_channel) (b / 16))
  unfolding merge_switch
  switch_byte =
      let low : ℕ = merge cfg.switch_action_type 0xf0 (bit_and cfg.switch_action_type 0x0f) b in
      let first = merge_low_four cfg.switch_action_type b h in
      ground (arith, first, merge_channel cfg.switch_midi_channel low)

  detent_byte :
      (merge_detent cfg b < 256)
      × (merge_detent cfg b % 128 ≡ overlay cfg.detent_color cfg.detent_color (b % 128))
      × (merge_detent cfg b / 128 ≡ overlay cfg.has_detent (cfg.has_detent % 2) (b / 128))
  unfolding merge_detent
  detent_byte =
      let flag : ℕ = merge cfg.has_detent 0x7f (bit_and 0x80 (cfg.has_detent <<< 7)) b in
      let first = merge_flag cfg.has_detent b h in
      ground (arith, first, merge_color cfg.detent_color flag)

  display_byte :
      (merge_display cfg b < 256)
      × (merge_display cfg b % 4
          ≡ overlay cfg.indicator_display_type (cfg.indicator_display_type % 4) (b % 4))
      × (merge_display cfg b / 4 % 4 ≡ overlay cfg.movement (cfg.movement % 4) (b / 4 % 4))
      × (merge_display cfg b / 16
          ≡ overlay cfg.encoder_shift_midi_channel
              (stored_channel cfg.encoder_shift_midi_channel)
              (b / 16))
  unfolding merge_display
  display_byte =
      let low : ℕ =
        merge cfg.indicator_display_type 0xfc (bit_and 0x03 cfg.indicator_display_type) b in
      let mid : ℕ = merge cfg.movement 0xf3 (bit_and 0x0c (cfg.movement <<< 2)) low in
      let first = merge_display_lem cfg.indicator_display_type b h in
      ground (
        arith,
        first,
        merge_movement cfg.movement low,
        merge_channel cfg.encoder_shift_midi_channel mid,
      )

  type_byte :
      (merge_type cfg b < 256)
      × (merge_type cfg b % 8 ≡ overlay cfg.encoder_midi_type (cfg.encoder_midi_type % 8) (b % 8))
      × (merge_type cfg b / 16
          ≡ overlay cfg.encoder_midi_channel (stored_channel cfg.encoder_midi_channel) (b / 16))
  unfolding merge_type
  type_byte =
      let low : ℕ = merge cfg.encoder_midi_type 0xf8 (bit_and 0x07 cfg.encoder_midi_type) b in
      let first = merge_type_lem cfg.encoder_midi_type b h in
      ground (arith, first, merge_channel cfg.encoder_midi_channel low)

  number_byte :
      (merge_number cfg b < 256)
      × (merge_number cfg b % 128
          ≡ overlay cfg.encoder_midi_number cfg.encoder_midi_number (b % 128))
      × (merge_number cfg b / 128 ≡ overlay cfg.is_super_knob (cfg.is_super_knob % 2) (b / 128))
  unfolding merge_number
  number_byte =
      let low : ℕ = merge cfg.encoder_midi_number 0x80 cfg.encoder_midi_number b in
      let first = merge_number_lem cfg.encoder_midi_number b h in
      ground (arith, first, merge_flag cfg.is_super_knob low)

-- The settings that eight bytes hold.
abbrev pub bytes_config : (ℕ → ℕ) → EncoderConfig
bytes_config byte = record {
  has_detent = byte 4 / 128;
  movement = byte 5 / 4 % 4;
  switch_action_type = byte 0 % 16;
  switch_midi_channel = byte 0 / 16;
  switch_midi_number = byte 1 % 128;
  switch_midi_type = 0;
  encoder_midi_channel = byte 6 / 16;
  encoder_midi_number = byte 7 % 128;
  encoder_midi_type = byte 6 % 8;
  active_color = byte 2;
  inactive_color = byte 3;
  detent_color = byte 4 % 128;
  indicator_display_type = byte 5 % 4;
  is_super_knob = byte 7 / 128;
  encoder_shift_midi_channel = byte 5 / 16;
}

expand-bytes_config :
    (buffer : List ℕ) (byte : ℕ → ℕ)
    → ((i : ℕ) → byte i < 256)
    → ((i : ℕ) → i < 8 → get_or buffer i 0 ≡ byte i)
    → expand buffer ≡ bytes_config byte
unfolding expand
expand-bytes_config buffer byte bound h =
    rw
      (
        h 0 (omega arith),
        h 1 (omega arith),
        h 2 (omega arith),
        h 3 (omega arith),
        h 4 (omega arith),
        h 5 (omega arith),
        h 6 (omega arith),
        h 7 (omega arith),
      )
      (ground (
        arith,
        bound 0,
        bound 1,
        bound 4,
        bound 5,
        bound 6,
        bound 7,
        and_0f (byte 0),
        and_0f (byte 0 / 16),
        and_7f (byte 1),
        and_7f (byte 4),
        and_7f (byte 7),
        and_01 (byte 4 / 128),
        and_01 (byte 7 / 128),
        and_03 (byte 5),
        and_03 (byte 5 / 4),
        and_0f (byte 5 / 16),
        and_0f (byte 6 / 16),
        and_07 (byte 6),
      ))

module _ (nvm : Nvm) (s : nvm.Store) where
  abbrev pub stored : ℕ → ℕ → ℕ → ℕ
  stored bank encoder i = nvm.read_byte s (config_address bank encoder + i)

  pub loaded :
      (bank encoder : ℕ)
      → get_encoder_config nvm s bank encoder ≡ bytes_config (stored bank encoder)
  unfolding get_encoder_config
  loaded bank encoder =
      expand-bytes_config (nvm.read_buffer s (config_address bank encoder) 8) (stored bank encoder)
        (λ i. nvm.read_byte-lt s (config_address bank encoder + i))
        (λ i h. nvm.get_or-read_buffer s (config_address bank encoder) 8 i h)

pub bytes_config_cong :
    (f g : ℕ → ℕ) → ((i : ℕ) → i < 8 → f i ≡ g i) → bytes_config f ≡ bytes_config g
bytes_config_cong f g h = cc (
  h 0 (omega arith),
  h 1 (omega arith),
  h 2 (omega arith),
  h 3 (omega arith),
  h 4 (omega arith),
  h 5 (omega arith),
  h 6 (omega arith),
  h 7 (omega arith),
)

updated-bytes_config :
    (cfg : EncoderConfig) (byte : ℕ → ℕ)
    → ((i : ℕ) → byte i < 256)
    → bytes_config (λ i. u8 (get_or (updates cfg) i unchanged (byte i)))
      ≡ overlay_config (bytes_config byte) cfg
unfolding updates
updated-bytes_config cfg byte bound = ground (
  arith,
  bound 0,
  bound 1,
  bound 2,
  bound 3,
  bound 4,
  bound 5,
  bound 6,
  bound 7,
  switch_byte cfg (byte 0),
  detent_byte cfg (byte 4),
  display_byte cfg (byte 5),
  type_byte cfg (byte 6),
  number_byte cfg (byte 7),
)

module _ (nvm : Nvm) (s : nvm.Store) (bank encoder : ℕ) (cfg : EncoderConfig) where
  -- The settings read back after a save are the ones that were sent, each cut to the bits that it has
  -- and with channels counted from 0, and the old ones for those that were not sent.
  pub get_encoder_config-save_to_eeprom :
      get_encoder_config nvm (save_to_eeprom nvm s bank encoder cfg) bank encoder
      ≡ overlay_config (get_encoder_config nvm s bank encoder) cfg
  get_encoder_config-save_to_eeprom = rw (loaded nvm s bank encoder) (
      loaded nvm (save_to_eeprom nvm s bank encoder cfg) bank encoder
      ∙ bytes_config_cong _ _ (saved_inside nvm s bank encoder cfg)
      ∙ updated-bytes_config cfg (stored nvm s bank encoder)
          (λ i. nvm.read_byte-lt s (config_address bank encoder + i)))

  -- The settings of every other encoder are as before.
  get_encoder_config-save_to_eeprom_ne :
      (other_bank other : ℕ)
      → encoder < 16
      → other < 16
      → (bank ≢ other_bank) ⊎ (encoder ≢ other)
      → get_encoder_config nvm (save_to_eeprom nvm s bank encoder cfg) other_bank other
        ≡ get_encoder_config nvm s other_bank other
  get_encoder_config-save_to_eeprom_ne other_bank other h k ne =
      rw (loaded nvm s other_bank other) (
        loaded nvm (save_to_eeprom nvm s bank encoder cfg) other_bank other
        ∙ bytes_config_cong _ _ (λ i lt.
          saved_outside nvm s bank encoder cfg (config_address other_bank other + i)
            (ground arith)))
