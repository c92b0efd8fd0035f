-- ===== src/Config/Global.antt =====
-- src/config.c: the global settings. `global_tv_table_decode`, `sysExCmdPushConfig`,
-- `send_config_data`, `load_config` and `config_factory_reset`; -- Enabling the watchdog and interrupts, the idle timer and the display are left out.
use midi_fighter_twister_ope.Base.{
  ℕ, ◌+◌, ◌-◌, Bool, Option, none, some, List, [], ◌∷◌, bit_and, bit_or, ltb, ◌==◌, if◌then◌else◌,
  ◌>>=◌, u8, ◌<<<◌, ◌>>>◌, get_or, set, replicate,
}
use midi_fighter_twister_ope.Nvm.{Nvm}
use midi_fighter_twister_ope.Settings.Factory.{factory_reset_encoder_config}

-- `global_tvtable_t`, by its member `bytes`.
abbrev pub global_table_size : ℕ
global_table_size = 18

-- One tag with its value: tags below 10 and above 30 are global. `none` is a write beyond the table.
unfoldable pub put_tag : ℕ → ℕ → List ℕ → Option (List ℕ)
put_tag tag value table =
    if ltb tag 10
    then some (set table tag value)
    else if ltb 30 tag
    then if ltb (tag - 20 - 1) global_table_size
      then some (set table (tag - 20 - 1) value)
      else none
    else some table

-- `while (idx < size - 1)`, with `left` bytes from `idx` to the end. `none` is an undefined access.
unfoldable pub global_tv_table_decode : List ℕ → ℕ → List ℕ → Option (List ℕ)
unfolding put_tag
global_tv_table_decode (tag ∷ value ∷ rest) left table =
    let next = put_tag tag value table >>= λ t. global_tv_table_decode rest (left - 2) t in
    if ltb 1 left then next else some table
global_tv_table_decode _ left table = if ltb 1 left then none else some table

-- The EEPROM cells.
abbrev pub ee_version : ℕ
ee_version = 0x00

abbrev pub ee_midi_channel : ℕ
ee_midi_channel = 0x01

abbrev pub ee_bank_side_sw : ℕ
ee_bank_side_sw = 0x03

abbrev pub ee_side_sw : ℕ → ℕ
ee_side_sw k = 0x04 + k

abbrev pub ee_super_knob_start : ℕ
ee_super_knob_start = 0x0a

abbrev pub ee_super_knob_end : ℕ
ee_super_knob_end = 0x0b

abbrev pub ee_rgb_brightness : ℕ
ee_rgb_brightness = 0x0c

abbrev pub ee_ind_brightness : ℕ
ee_ind_brightness = 0x0d

abbrev pub ee_color_map : ℕ
ee_color_map = 0x0e

abbrev pub ee_animation_channels : ℕ
ee_animation_channels = 0x0f

abbrev pub ee_sleep_settings : ℕ
ee_sleep_settings = 0x10

abbrev pub ee_bank_animations_enabled : ℕ
ee_bank_animations_enabled = 0x11

-- `PACK_ANIM_CHANNELS` and the macros that take the parts out again.
unfoldable pub pack_anim_channels : ℕ → ℕ → ℕ
pack_anim_channels enc sw = bit_or (bit_and enc 0x0f <<< 4) (bit_and sw 0x0f)

unfoldable pub get_enc_anim_channel : ℕ → ℕ
get_enc_anim_channel packed = bit_and (packed >>> 4) 0x0f

unfoldable pub get_sw_anim_channel : ℕ → ℕ
get_sw_anim_channel packed = bit_and packed 0x0f

-- `PACK_SLEEP_SETTINGS`, `GET_SLEEP_TIMEOUT`, `GET_SLEEP_ANIMATION`.
unfoldable pub pack_sleep_settings : ℕ → ℕ → ℕ
pack_sleep_settings timeout anim = bit_or (bit_and timeout 0x3f) (bit_and anim 0x03 <<< 6)

unfoldable pub get_sleep_timeout : ℕ → ℕ
get_sleep_timeout val = bit_and val 0x3f

unfoldable pub get_sleep_animation : ℕ → ℕ
get_sleep_animation val = bit_and (val >>> 6) 0x03

abbrev pub sleep_timeout_map : List ℕ
sleep_timeout_map = 0 ∷ 1 ∷ 3 ∷ 5 ∷ 10 ∷ 20 ∷ 30 ∷ 60 ∷ []

-- The variables that `load_config` sets; a bool is 0 or 1.
pub record GlobalConfig : Type 0 where
  pub midi_system_channel : ℕ
  pub side_is_banked : ℕ
  pub sw_action_1 : ℕ
  pub sw_action_2 : ℕ
  pub sw_action_3 : ℕ
  pub sw_action_4 : ℕ
  pub sw_action_5 : ℕ
  pub sw_action_6 : ℕ
  pub super_knob_start : ℕ
  pub super_knob_end : ℕ
  pub rgb_brightness : ℕ
  pub ind_brightness : ℕ
  pub color_map_64 : Bool
  pub animation_channels : ℕ
  pub sleep_timeout_minutes : ℕ
  pub sleep_animation_type : ℕ
  pub bank_animations_enabled : ℕ

-- An animation channel is sent counted from 1; 0 asks for the default.
abbrev pub animation_channel : ℕ → ℕ → ℕ
animation_channel sent default = if ltb 0 sent then sent - 1 else default

-- A value assigned to a bool.
abbrev pub to_bool : ℕ → ℕ
to_bool n = if n == 0 then 0 else 1

module _ (nvm : Nvm) where
  open nvm use {Store, read_byte, write_byte}

  -- The cells that `sysExCmdPushConfig` writes from the decoded table.
  unfoldable pub write_global : List ℕ → Store → Store
  write_global config s0 =
      let tag = λ (k : ℕ). get_or config k 0 in
      let s1 = write_byte s0 ee_midi_channel (u8 (tag 0 + 255)) in
      let s2 = write_byte s1 ee_bank_side_sw (tag 1) in
      let s3 = write_byte s2 (ee_side_sw 0) (tag 2) in
      let s4 = write_byte s3 (ee_side_sw 1) (tag 3) in
      let s5 = write_byte s4 (ee_side_sw 2) (tag 4) in
      let s6 = write_byte s5 (ee_side_sw 3) (tag 5) in
      let s7 = write_byte s6 (ee_side_sw 4) (tag 6) in
      let s8 = write_byte s7 (ee_side_sw 5) (tag 7) in
      let s9 = write_byte s8 ee_super_knob_start (tag 8) in
      let s10 = write_byte s9 ee_super_knob_end (tag 9) in
      let s11 = write_byte s10 ee_rgb_brightness (tag 10) in
      let s12 = write_byte s11 ee_ind_brightness (tag 11) in
      let s13 = write_byte s12 ee_color_map (tag 12) in
      let enc_ch = animation_channel (tag 13) 5 in
      let sw_ch = animation_channel (tag 14) 2 in
      let s14 = write_byte s13 ee_animation_channels (pack_anim_channels enc_ch sw_ch) in
      let s15 = write_byte s14 ee_sleep_settings (pack_sleep_settings (tag 15) (tag 16)) in
      write_byte s15 ee_bank_animations_enabled (tag 17)

  -- `sysExCmdPushConfig(length, buffer)`, up to the reload of the settings.
  unfoldable pub push_config : ℕ → List ℕ → Store → Option Store
  unfolding global_tv_table_decode write_global
  push_config len buffer s =
      global_tv_table_decode buffer len (replicate global_table_size 0) >>= λ config.
      some (write_global config s)

  unfoldable pub load_config : Store → GlobalConfig
  load_config s =
      let sleep_settings = read_byte s ee_sleep_settings in
      let index = get_sleep_timeout sleep_settings in
      record {
        midi_system_channel = read_byte s ee_midi_channel;
        side_is_banked = to_bool (read_byte s ee_bank_side_sw);
        sw_action_1 = read_byte s (ee_side_sw 0);
        sw_action_2 = read_byte s (ee_side_sw 1);
        sw_action_3 = read_byte s (ee_side_sw 2);
        sw_action_4 = read_byte s (ee_side_sw 3);
        sw_action_5 = read_byte s (ee_side_sw 4);
        sw_action_6 = read_byte s (ee_side_sw 5);
        super_knob_start = read_byte s ee_super_knob_start;
        super_knob_end = read_byte s ee_super_knob_end;
        rgb_brightness = read_byte s ee_rgb_brightness;
        ind_brightness = read_byte s ee_ind_brightness;
        color_map_64 = read_byte s ee_color_map == 1;
        animation_channels = read_byte s ee_animation_channels;
        sleep_timeout_minutes = get_or sleep_timeout_map (if ltb 7 index then 0 else index) 0;
        sleep_animation_type = get_sleep_animation sleep_settings;
        bank_animations_enabled = read_byte s ee_bank_animations_enabled;
      }

  -- The tags and values of `send_config_data`, between its six header bytes and the end byte.
  unfoldable pub config_pairs : GlobalConfig → Store → List ℕ
  config_pairs c s =
      let sleep_settings = read_byte s ee_sleep_settings in
      0
      ∷ u8 (c.midi_system_channel + 1)
      ∷ 1
      ∷ c.side_is_banked
      ∷ 2
      ∷ c.sw_action_1
      ∷ 3
      ∷ c.sw_action_2
      ∷ 4
      ∷ c.sw_action_3
      ∷ 5
      ∷ c.sw_action_4
      ∷ 6
      ∷ c.sw_action_5
      ∷ 7
      ∷ c.sw_action_6
      ∷ 8
      ∷ c.super_knob_start
      ∷ 9
      ∷ c.super_knob_end
      ∷ 31
      ∷ c.rgb_brightness
      ∷ 32
      ∷ c.ind_brightness
      ∷ 33
      ∷ read_byte s ee_color_map
      ∷ 34
      ∷ u8 (get_enc_anim_channel c.animation_channels + 1)
      ∷ 35
      ∷ u8 (get_sw_anim_channel c.animation_channels + 1)
      ∷ 36
      ∷ get_sleep_timeout sleep_settings
      ∷ 37
      ∷ get_sleep_animation sleep_settings
      ∷ 38
      ∷ c.bank_animations_enabled
      ∷ 0xf7
      ∷ []

  -- The message of `send_config_data`: a response to command 0x2.
  unfoldable pub send_config_data : GlobalConfig → Store → List ℕ
  unfolding config_pairs
  send_config_data c s = 0xf0 ∷ 0x00 ∷ 0x01 ∷ 0x79 ∷ 0x02 ∷ 0x01 ∷ config_pairs c s

  -- The part of `config_factory_reset` before the encoders, with the defaults of src/constants.h. The
  -- side switch actions 0, 8 and 9 are CC_HOLD_SS, GLOBAL_BANK_UP and GLOBAL_BANK_DOWN.
  unfoldable pub write_defaults : Store → Store
  write_defaults s0 =
      let s1 = write_byte s0 ee_version 8 in
      let s2 = write_byte s1 ee_midi_channel 3 in
      let s3 = write_byte s2 ee_bank_side_sw 1 in
      let s4 = write_byte s3 (ee_side_sw 0) 0 in
      let s5 = write_byte s4 (ee_side_sw 1) 9 in
      let s6 = write_byte s5 (ee_side_sw 2) 0 in
      let s7 = write_byte s6 (ee_side_sw 3) 0 in
      let s8 = write_byte s7 (ee_side_sw 4) 8 in
      let s9 = write_byte s8 (ee_side_sw 5) 0 in
      let s10 = write_byte s9 ee_super_knob_start 63 in
      let s11 = write_byte s10 ee_super_knob_end 127 in
      let s12 = write_byte s11 ee_rgb_brightness 127 in
      let s13 = write_byte s12 ee_ind_brightness 127 in
      let s14 = write_byte s13 ee_color_map 0 in
      let s15 = write_byte s14 ee_animation_channels (pack_anim_channels 5 2) in
      let s16 = write_byte s15 ee_sleep_settings (pack_sleep_settings 7 1) in
      write_byte s16 ee_bank_animations_enabled 1

  unfoldable pub config_factory_reset : Store → Store
  unfolding write_defaults factory_reset_encoder_config
  config_factory_reset s = factory_reset_encoder_config nvm (write_defaults s)

  -- The end of `config_init`: the settings are reset if their layout is another.
  unfoldable pub config_init : Store → Store
  config_init s = if read_byte s ee_version == 8 then s else config_factory_reset s
