-- ===== src/Config/Bulk.antt =====
-- src/config.c, `sysExCmdBulkXfer`: the settings of one encoder are sent in two parts, and taken from
-- such parts. Of `save_encoder_config` it is what the EEPROM gets; the display and the watchdog are left out.
use midi_fighter_twister_ope.Base.{
  ℕ, zero, suc, ◌+◌, ◌-◌, ◌/◌, ◌%◌, Option, none, some, List, [], ◌∷◌, ◌++◌, ltb, ◌==◌,
  if◌then◌else◌, ◌>>=◌, u8, get_or, set, take, drop, replicate,
}
use midi_fighter_twister_ope.Nvm.{Nvm}
use midi_fighter_twister_ope.Settings.{EncoderConfig, get_encoder_config, save_to_eeprom}

-- `ENC_CFG_SIZE`.
abbrev pub enc_cfg_size : ℕ
enc_cfg_size = 15

-- `encoder_config_t`, from its member `bytes`.
abbrev pub config_of : List ℕ → EncoderConfig
config_of bytes = record {
  has_detent = get_or bytes 0 0;
  movement = get_or bytes 1 0;
  switch_action_type = get_or bytes 2 0;
  switch_midi_channel = get_or bytes 3 0;
  switch_midi_number = get_or bytes 4 0;
  switch_midi_type = get_or bytes 5 0;
  encoder_midi_channel = get_or bytes 6 0;
  encoder_midi_number = get_or bytes 7 0;
  encoder_midi_type = get_or bytes 8 0;
  active_color = get_or bytes 9 0;
  inactive_color = get_or bytes 10 0;
  detent_color = get_or bytes 11 0;
  indicator_display_type = get_or bytes 12 0;
  is_super_knob = get_or bytes 13 0;
  encoder_shift_midi_channel = get_or bytes 14 0;
}

-- A round of the decoding loop: tags are counted from 10, in a byte.
unfoldable pub put_setting : ℕ → ℕ → List ℕ → List ℕ
put_setting sent value bytes =
    let tag : ℕ = u8 (sent + 246) in if ltb tag enc_cfg_size then set bytes tag value else bytes

-- `while (idx < size - 1)`, with `left` bytes from `idx` to the end. `none` is a read beyond the buffer.
unfoldable pub decode_settings : List ℕ → ℕ → List ℕ → Option (List ℕ)
unfolding put_setting
decode_settings (tag ∷ value ∷ rest) left bytes =
    let next = decode_settings rest (left - 2) (put_setting tag value bytes) in
    if ltb 1 left then next else some bytes
decode_settings _ left bytes = if ltb 1 left then none else some bytes

-- `config_data`.
unfoldable pub config_data : EncoderConfig → List ℕ
config_data cfg =
    10
    ∷ cfg.has_detent
    ∷ 11
    ∷ cfg.movement
    ∷ 12
    ∷ cfg.switch_action_type
    ∷ 13
    ∷ u8 (cfg.switch_midi_channel + 1)
    ∷ 14
    ∷ cfg.switch_midi_number
    ∷ 15
    ∷ 0
    ∷ 16
    ∷ u8 (cfg.encoder_midi_channel + 1)
    ∷ 17
    ∷ cfg.encoder_midi_number
    ∷ 18
    ∷ cfg.encoder_midi_type
    ∷ 19
    ∷ cfg.active_color
    ∷ 20
    ∷ cfg.inactive_color
    ∷ 21
    ∷ cfg.detent_color
    ∷ 22
    ∷ cfg.indicator_display_type
    ∷ 23
    ∷ cfg.is_super_knob
    ∷ 24
    ∷ u8 (cfg.encoder_shift_midi_channel + 1)
    ∷ []

-- `for (part = 1; part <= total; ++part)`, with `n` rounds left: the messages that are streamed.
unfoldable pub send_parts : ℕ → ℕ → ℕ → ℕ → ℕ → List ℕ → List (List ℕ)
send_parts zero part total tag_out bytes_remaining content = []
send_parts (suc n) part total tag_out bytes_remaining content =
    let size : ℕ = if ltb 24 bytes_remaining then 24 else bytes_remaining in
    (0xf0 ∷ 0x00 ∷ 0x01 ∷ 0x79 ∷ 0x04 ∷ 0x00 ∷ tag_out ∷ part ∷ total ∷ size ∷ take size content
      ++ 0xf7 ∷ [])
    ∷ send_parts n (part + 1) total tag_out (u8 (bytes_remaining + 232)) (drop size content)

module _ (nvm : Nvm) where
  open nvm use {Store}

  -- The push, behind the command and the tag.
  unfoldable pub bulk_push : ℕ → ℕ → List ℕ → Store → Option Store
  unfolding decode_settings
  bulk_push sysex_tag len (part ∷ total ∷ size ∷ content) s =
      if ltb 5 len
      then if part == 0
        then some s
        else if ltb (len - 5) size
        then some s
        else (decode_settings content size (replicate enc_cfg_size 0x80) >>= λ bytes.
            some (
              save_to_eeprom nvm s ((sysex_tag - 1) / 16) ((sysex_tag - 1) % 16) (config_of bytes)))
      else some s
  bulk_push sysex_tag len _ s = if ltb 5 len then none else some s

  -- The pull. 30 bytes are sent in two parts; a tag without an encoder is answered by an empty part.
  unfoldable pub bulk_pull : ℕ → Store → List (List ℕ)
  unfolding send_parts config_data
  bulk_pull sysex_tag s =
      let is_known = ltb sysex_tag 129 in
      let bank : ℕ = if is_known then (sysex_tag - 1) / 16 else 0 in
      let encoder : ℕ = if is_known then (sysex_tag - 1) % 16 else 0 in
      let content = config_data (get_encoder_config nvm s bank encoder) in
      let bytes_remaining : ℕ = if is_known then 30 else 0 in
      let total : ℕ = bytes_remaining / 24 + 1 in
      let tag_out : ℕ = if sysex_tag == 128 then 0 else sysex_tag in
      send_parts total 1 total tag_out bytes_remaining content

  -- `sysExCmdBulkXfer(length, buffer)`: the EEPROM, and the messages sent.
  unfoldable pub bulk_xfer : ℕ → List ℕ → Store → Option (Store × List (List ℕ))
  unfolding bulk_push bulk_pull
  bulk_xfer len (command ∷ sent ∷ rest) s =
      let sysex_tag : ℕ = if sent == 0 then 128 else sent in
      if ltb 2 len
      then if command == 0
        then (bulk_push sysex_tag len rest s >>= λ t. some (t, []))
        else if command == 1
        then some (s, bulk_pull sysex_tag s)
        else some (s, [])
      else some (s, [])
  bulk_xfer len _ s = if ltb 2 len then none else some (s, [])
