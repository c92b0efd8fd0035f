-- ===== src/Config/BulkTransfer.antt =====
-- src/config.c, `sysExCmdBulkXfer`: settings that are pulled from one device and pushed to another.
use midi_fighter_twister_ope.Base.{
  ℕ, ◌+◌, ◌-◌, ◌/◌, ◌%◌, ◌<◌, ◌≤◌, ◌≡◌, refl, ap, true, Option, some, List, [], ◌∷◌, arith, ltb,
  ◌==◌, if◌then◌else◌, ◌>>=◌, u8, drop, length,
}
use native.Mathlib.Nat.{mod-eq_of_lt}
use midi_fighter_twister_ope.Nvm.{Nvm}
use midi_fighter_twister_ope.Settings.{EncoderConfig, get_encoder_config, save_to_eeprom}
use midi_fighter_twister_ope.Settings.SaveLoad.{
  overlay, overlay_config, stored, stored_channel, loaded, bytes_config,
  get_encoder_config-save_to_eeprom,
}
use midi_fighter_twister_ope.Config.Bulk.{
  put_setting, decode_settings, config_data, send_parts, bulk_push, bulk_pull, bulk_xfer,
}

-- A message as the command receives it: behind the manufacturer and the command, with its end byte.
abbrev pub receive_all : (nvm : Nvm) → List (List ℕ) → nvm.Store → Option nvm.Store
receive_all nvm [] s = some s
receive_all nvm (m ∷ ms) s =
    bulk_xfer nvm (length m - 5) (drop 5 m) s >>= λ r. receive_all nvm ms r.0

-- The two parts of a configuration that is sent: what is not in a part is marked by 0x80.
abbrev first_part : EncoderConfig → EncoderConfig
first_part c = record {
  has_detent = c.has_detent;
  movement = c.movement;
  switch_action_type = c.switch_action_type;
  switch_midi_channel = u8 (c.switch_midi_channel + 1);
  switch_midi_number = c.switch_midi_number;
  switch_midi_type = 0;
  encoder_midi_channel = u8 (c.encoder_midi_channel + 1);
  encoder_midi_number = c.encoder_midi_number;
  encoder_midi_type = c.encoder_midi_type;
  active_color = c.active_color;
  inactive_color = c.inactive_color;
  detent_color = c.detent_color;
  indicator_display_type = 0x80;
  is_super_knob = 0x80;
  encoder_shift_midi_channel = 0x80;
}

abbrev second_part : EncoderConfig → EncoderConfig
second_part c = record {
  has_detent = 0x80;
  movement = 0x80;
  switch_action_type = 0x80;
  switch_midi_channel = 0x80;
  switch_midi_number = 0x80;
  switch_midi_type = 0x80;
  encoder_midi_channel = 0x80;
  encoder_midi_number = 0x80;
  encoder_midi_type = 0x80;
  active_color = 0x80;
  inactive_color = 0x80;
  detent_color = 0x80;
  indicator_display_type = c.indicator_display_type;
  is_super_knob = c.is_super_knob;
  encoder_shift_midi_channel = u8 (c.encoder_shift_midi_channel + 1);
}

sent_some_bits : (v m old : ℕ) → v < m → m ≤ 128 → overlay v (v % m) old ≡ v
sent_some_bits v m old h k = rw (mod-eq_of_lt h) (ground arith)

sent_plain : (v old : ℕ) → v < 128 → overlay v v old ≡ v
sent_plain v old h = ground arith

sent_channel : (v old : ℕ) → v < 16 → overlay (u8 (v + 1)) (stored_channel (u8 (v + 1))) old ≡ v
sent_channel v old h = ground arith

both_parts :
    (byte : ℕ → ℕ) (old : EncoderConfig)
    → ((i : ℕ) → byte i < 256)
    → byte 2 < 128
    → byte 3 < 128
    → overlay_config
        (overlay_config old (first_part (bytes_config byte)))
        (second_part (bytes_config byte))
      ≡ bytes_config byte
both_parts byte old b h k =
    let b0 = b 0 in
    let b1 = b 1 in
    let b4 = b 4 in
    let b5 = b 5 in
    let b6 = b 6 in
    let b7 = b 7 in
    simp
      (
        sent_some_bits (byte 4 / 128) 2 old.has_detent (omega arith) (omega arith),
        sent_some_bits (byte 5 / 4 % 4) 4 old.movement (omega arith) (omega arith),
        sent_some_bits (byte 0 % 16) 16 old.switch_action_type (omega arith) (omega arith),
        sent_channel (byte 0 / 16) old.switch_midi_channel (omega arith),
        sent_plain (byte 1 % 128) old.switch_midi_number (omega arith),
        sent_channel (byte 6 / 16) old.encoder_midi_channel (omega arith),
        sent_plain (byte 7 % 128) old.encoder_midi_number (omega arith),
        sent_some_bits (byte 6 % 8) 8 old.encoder_midi_type (omega arith) (omega arith),
        sent_plain (byte 2) old.active_color h,
        sent_plain (byte 3) old.inactive_color k,
        sent_plain (byte 4 % 128) old.detent_color (omega arith),
        sent_some_bits (byte 5 % 4) 4 old.indicator_display_type (omega arith) (omega arith),
        sent_some_bits (byte 7 / 128) 2 old.is_super_knob (omega arith) (omega arith),
        sent_channel (byte 5 / 16) old.encoder_shift_midi_channel (omega arith),
      )
      refl

bits_after_pull :
    (nvm : Nvm) (s : nvm.Store) (bank encoder : ℕ) (old : EncoderConfig)
    → (let c = get_encoder_config nvm s bank encoder in
        c.active_color < 128
        → c.inactive_color < 128
        → overlay_config (overlay_config old (first_part c)) (second_part c) ≡ c)
bits_after_pull nvm s bank encoder old =
    rw (loaded nvm s bank encoder)
      (both_parts (stored nvm s bank encoder) old (λ i. nvm.read_byte-lt s _))

-- The tag that a message has for encoder `t` counted from 1.
abbrev tag_out : ℕ → ℕ
tag_out t = if t == 128 then 0 else t

tag_again : (t : ℕ) → 1 ≤ t → t ≤ 128 → (if tag_out t == 0 then 128 else tag_out t) ≡ t
tag_again t h k = ground arith

module _ (nvm : Nvm) where
  pushed_back :
      (t : ℕ) (c : EncoderConfig) (s : nvm.Store)
      → 1 ≤ t
      → t ≤ 128
      → receive_all nvm (send_parts 2 1 2 (tag_out t) 30 (config_data c)) s
        ≡ some (
            save_to_eeprom nvm
              (save_to_eeprom nvm s ((t - 1) / 16) ((t - 1) % 16) (first_part c))
              ((t - 1) / 16)
              ((t - 1) % 16)
              (second_part c))
  unfolding bulk_xfer bulk_push send_parts config_data decode_settings put_setting
  pushed_back t c s h k = rw (tag_again t h k) refl

  pulled :
      (t : ℕ) (s : nvm.Store)
      → 1 ≤ t
      → t ≤ 128
      → bulk_pull nvm t s
        ≡ send_parts 2 1 2
            (tag_out t)
            30
            (config_data (get_encoder_config nvm s ((t - 1) / 16) ((t - 1) % 16)))
  unfolding bulk_pull
  pulled t s h k = let e : ltb t 129 ≡ true = ground arith in rw e refl

  -- The settings of an encoder that are pulled from one EEPROM and pushed to another, message by message,
  -- are the same there, if its two colours have seven bits.
  pub bulk_xfer-bulk_pull :
      (t : ℕ) (s other : nvm.Store)
      → 1 ≤ t
      → t ≤ 128
      → (get_encoder_config nvm s ((t - 1) / 16) ((t - 1) % 16)).active_color < 128
      → (get_encoder_config nvm s ((t - 1) / 16) ((t - 1) % 16)).inactive_color < 128
      → (receive_all nvm (bulk_pull nvm t s) other >>= λ s1.
          some (get_encoder_config nvm s1 ((t - 1) / 16) ((t - 1) % 16)))
        ≡ some (get_encoder_config nvm s ((t - 1) / 16) ((t - 1) % 16))
  bulk_xfer-bulk_pull t s other h k a i =
      let bank : ℕ = (t - 1) / 16 in
      let encoder : ℕ = (t - 1) % 16 in
      let c = get_encoder_config nvm s bank encoder in
      rw
        (
          pulled t s h k,
          pushed_back t c other h k,
          get_encoder_config-save_to_eeprom nvm
              (save_to_eeprom nvm other bank encoder (first_part c)) bank encoder (second_part c),
          get_encoder_config-save_to_eeprom nvm other bank encoder (first_part c),
        )
        (ap some
          (bits_after_pull nvm s bank encoder (get_encoder_config nvm other bank encoder) a i))
