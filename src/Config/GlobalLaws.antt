-- ===== src/Config/GlobalLaws.antt =====
-- src/config.c: the global settings that are loaded after they were pushed, and the messages that the
-- decoder cannot take.
use midi_fighter_twister_ope.Base.{
  ℕ, ◌+◌, ◌*◌, ◌/◌, ◌%◌, ◌<◌, ◌≡◌, refl, some, List, arith, ltb, ◌==◌, ==_iff, if◌then◌else◌, ◌>>=◌,
  u8, get_or, get_or-All-lt, All, all_below, pair_table, byte_table,
}
use midi_fighter_twister_ope.Nvm.{Nvm}
use midi_fighter_twister_ope.Config.Global.{
  GlobalConfig, put_tag, global_tv_table_decode, write_global, push_config, load_config,
  config_pairs, pack_anim_channels, get_enc_anim_channel, get_sw_anim_channel, pack_sleep_settings,
  get_sleep_timeout, get_sleep_animation, animation_channel, to_bool, sleep_timeout_map,
}

-- Two fields of four bits, and fields of six and two, fill a byte and come out again.
anim_parts :
    (enc sw : ℕ) → enc < 128 → sw < 128 → pack_anim_channels enc sw ≡ enc % 16 * 16 + sw % 16
unfolding pack_anim_channels all_below
anim_parts enc sw h k =
    (==_iff (pack_anim_channels enc sw) (enc % 16 * 16 + sw % 16)).0
      (pair_table 128 128 (λ x y. pack_anim_channels x y == x % 16 * 16 + y % 16) enc sw refl h k)

sleep_parts :
    (timeout anim : ℕ)
    → timeout < 128
    → anim < 128
    → pack_sleep_settings timeout anim ≡ anim % 4 * 64 + timeout % 64
unfolding pack_sleep_settings all_below
sleep_parts timeout anim h k =
    (==_iff (pack_sleep_settings timeout anim) (anim % 4 * 64 + timeout % 64)).0 (
      pair_table 128 128 (λ x y. pack_sleep_settings x y == y % 4 * 64 + x % 64) timeout anim refl h
        k)

module _ (val : ℕ) (h : val < 256) where
  enc_part : get_enc_anim_channel val ≡ val / 16
  unfolding get_enc_anim_channel all_below
  enc_part = byte_table get_enc_anim_channel (λ x. x / 16) val refl h

  sw_part : get_sw_anim_channel val ≡ val % 16
  unfolding get_sw_anim_channel all_below
  sw_part = byte_table get_sw_anim_channel (λ x. x % 16) val refl h

  timeout_part : get_sleep_timeout val ≡ val % 64
  unfolding get_sleep_timeout all_below
  timeout_part = byte_table get_sleep_timeout (λ x. x % 64) val refl h

  animation_part : get_sleep_animation val ≡ val / 64
  unfolding get_sleep_animation all_below
  animation_part = byte_table get_sleep_animation (λ x. x / 64) val refl h

-- The settings that a table of 18 values asks for.
abbrev pub requested_config : List ℕ → GlobalConfig
requested_config config =
    let tag = λ (k : ℕ). get_or config k 0 in
    record {
      midi_system_channel = u8 (tag 0 + 255);
      side_is_banked = to_bool (tag 1);
      sw_action_1 = tag 2;
      sw_action_2 = tag 3;
      sw_action_3 = tag 4;
      sw_action_4 = tag 5;
      sw_action_5 = tag 6;
      sw_action_6 = tag 7;
      super_knob_start = tag 8;
      super_knob_end = tag 9;
      rgb_brightness = tag 10;
      ind_brightness = tag 11;
      color_map_64 = tag 12 == 1;
      animation_channels =
          animation_channel (tag 13) 5 % 16 * 16 + animation_channel (tag 14) 2 % 16;
      sleep_timeout_minutes =
          if ltb 7 (tag 15 % 64) then 0 else get_or sleep_timeout_map (tag 15 % 64) 0;
      sleep_animation_type = tag 16 % 4;
      bank_animations_enabled = tag 17;
    }

u8-lt : (v : ℕ) → v < 128 → u8 v ≡ v
u8-lt v h = omega arith

u8-anim_parts :
    (enc sw : ℕ) → enc < 128 → sw < 128 → u8 (pack_anim_channels enc sw) ≡ enc % 16 * 16 + sw % 16
u8-anim_parts enc sw h k = rw (anim_parts enc sw h k) (omega arith)

u8-sleep_parts :
    (timeout anim : ℕ)
    → timeout < 128
    → anim < 128
    → u8 (pack_sleep_settings timeout anim) ≡ anim % 4 * 64 + timeout % 64
u8-sleep_parts timeout anim h k = rw (sleep_parts timeout anim h k) (omega arith)

animation_channel-lt : (v d : ℕ) → v < 128 → d < 128 → animation_channel v d < 128
animation_channel-lt v d h k = ground arith

index_map :
    (i : ℕ)
    → get_or sleep_timeout_map (if ltb 7 i then 0 else i) 0
      ≡ (if ltb 7 i then 0 else get_or sleep_timeout_map i 0)
index_map i = ground arith

u8-twice : (v : ℕ) → u8 (u8 v) ≡ u8 v
u8-twice v = omega arith

low_field : (a t : ℕ) → (a % 4 * 64 + t % 64) % 64 ≡ t % 64
low_field a t = omega arith

high_field : (a t : ℕ) → (a % 4 * 64 + t % 64) / 64 ≡ a % 4
high_field a t = omega arith

u8-byte : (v : ℕ) → v < 256 → u8 v ≡ v
u8-byte v h = omega arith

channel_again : (v : ℕ) → v < 256 → u8 (u8 (u8 (v + 1) + 255)) ≡ v
channel_again v h = omega arith

to_bool_again : (v : ℕ) → to_bool (u8 (to_bool v)) ≡ to_bool v
to_bool_again v = ground arith

sent_animation_channel : (v d : ℕ) → v < 16 → animation_channel (u8 (v + 1)) d ≡ v
sent_animation_channel v d h = ground arith

anim_again :
    (v : ℕ)
    → v < 256
    → u8 (
        pack_anim_channels
          (animation_channel (u8 (get_enc_anim_channel v + 1)) 5)
          (animation_channel (u8 (get_sw_anim_channel v + 1)) 2))
      ≡ v
anim_again v h =
    rw
      (
        enc_part v h,
        sw_part v h,
        sent_animation_channel (v / 16) 5 (omega arith),
        sent_animation_channel (v % 16) 2 (omega arith),
        anim_parts (v / 16) (v % 16) (omega arith) (omega arith),
      )
      (omega arith)

sleep_again :
    (v : ℕ) → v < 256 → u8 (pack_sleep_settings (get_sleep_timeout v) (get_sleep_animation v)) ≡ v
sleep_again v h =
    rw
      (
        timeout_part v h,
        animation_part v h,
        sleep_parts (v % 64) (v / 64) (omega arith) (omega arith),
      )
      (omega arith)

module _ (nvm : Nvm) (s : nvm.Store) where
  -- A table of seven-bit values that is written to the EEPROM is loaded as the settings that it asks for:
  -- channels are counted from 1 there, an animation channel of 0 is the default, and of a sleep timeout the lower
  -- six bits count, which are none if they are no index of the map.
  pub load_config-write_global_lem :
      (config : List ℕ)
      → All (λ v. v < 128) config
      → load_config nvm (write_global nvm config s) ≡ requested_config config
  unfolding load_config write_global
  load_config-write_global_lem config h =
      let b = λ (k : ℕ). get_or-All-lt 128 config k (omega arith) h in
      let e = λ (k : ℕ). u8-lt (get_or config k 0) (b k) in
      let f =
        u8-anim_parts _ _ (animation_channel-lt _ 5 (b 13) (omega arith))
          (animation_channel-lt _ 2 (b 14) (omega arith)) in
      let g = u8-sleep_parts _ _ (b 15) (b 16) in
      let t = timeout_part (get_or config 16 0 % 4 * 64 + get_or config 15 0 % 64) (omega arith) in
      let a =
        animation_part (get_or config 16 0 % 4 * 64 + get_or config 15 0 % 64) (omega arith) in
      simp (nvm.read_byte-write_byte, e, f, g, t, a, u8-twice, low_field, high_field, index_map)
        refl

  -- A configuration read back from the EEPROM and pushed again is taken, and the settings are the same
  -- after it, whatever the EEPROM held.
  pub push_config-config_pairs :
      (push_config nvm 37 (config_pairs nvm (load_config nvm s) s) s >>= λ s1.
      some (load_config nvm s1))
      ≡ some (load_config nvm s)
  unfolding load_config write_global push_config config_pairs global_tv_table_decode put_tag
  push_config-config_pairs =
      let c = λ (k : ℕ). u8-byte _ (nvm.read_byte-lt s k) in
      let m = channel_again _ (nvm.read_byte-lt s 1) in
      let a = anim_again _ (nvm.read_byte-lt s 15) in
      let t = sleep_again _ (nvm.read_byte-lt s 16) in
      simp (nvm.read_byte-write_byte, c, m, a, t, to_bool_again) refl
