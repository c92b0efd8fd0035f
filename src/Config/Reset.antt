-- ===== src/Config/Reset.antt =====
-- src/config.c, `config_factory_reset` and the end of `config_init`: what the EEPROM holds behind them.
use midi_fighter_twister_ope.Base.{
  ℕ, ◌<◌, ◌≡◌, refl, ◌∙◌, false, arith, ◌==◌, ==_iff, Bool-cases, inl, inr,
}
use midi_fighter_twister_ope.Nvm.{Nvm}
use midi_fighter_twister_ope.Settings.{get_encoder_config}
use midi_fighter_twister_ope.Settings.FactoryDefaults.{
  factory_config, get_encoder_config-factory_reset, device_page_untouched,
}
use midi_fighter_twister_ope.Config.Global.{
  GlobalConfig, load_config, write_defaults, config_factory_reset, config_init, ee_version,
  get_sleep_timeout, get_sleep_animation, pack_anim_channels, pack_sleep_settings,
}

-- The defaults: channel 4 for the system, side switches that work in each bank, of which the second and
-- the fifth change the bank, full brightness, and sleep after an hour.
abbrev pub default_settings : GlobalConfig
default_settings = record {
  midi_system_channel = 3;
  side_is_banked = 1;
  sw_action_1 = 0;
  sw_action_2 = 9;
  sw_action_3 = 0;
  sw_action_4 = 0;
  sw_action_5 = 8;
  sw_action_6 = 0;
  super_knob_start = 63;
  super_knob_end = 127;
  rgb_brightness = 127;
  ind_brightness = 127;
  color_map_64 = false;
  animation_channels = 0x52;
  sleep_timeout_minutes = 60;
  sleep_animation_type = 1;
  bank_animations_enabled = 1;
}

module _ (nvm : Nvm) (s : nvm.Store) where
  load_config-write_defaults : load_config nvm (write_defaults nvm s) ≡ default_settings
  unfolding load_config write_defaults get_sleep_timeout get_sleep_animation pack_anim_channels
      pack_sleep_settings
  load_config-write_defaults = simp (nvm.read_byte-write_byte) refl

  version-write_defaults : nvm.read_byte (write_defaults nvm s) ee_version ≡ 8
  unfolding write_defaults
  version-write_defaults = simp (nvm.read_byte-write_byte) refl

  cell :
      (a : ℕ)
      → a < 32
      → nvm.read_byte (config_factory_reset nvm s) a ≡ nvm.read_byte (write_defaults nvm s) a
  unfolding config_factory_reset
  cell a h = device_page_untouched nvm (write_defaults nvm s) a h

  load_config-reset :
      load_config nvm (config_factory_reset nvm s) ≡ load_config nvm (write_defaults nvm s)
  unfolding load_config
  load_config-reset =
      let c = cell in
      rw
        (
          c 1 (omega arith),
          c 3 (omega arith),
          c 4 (omega arith),
          c 5 (omega arith),
          c 6 (omega arith),
          c 7 (omega arith),
          c 8 (omega arith),
          c 9 (omega arith),
          c 10 (omega arith),
          c 11 (omega arith),
          c 12 (omega arith),
          c 13 (omega arith),
          c 14 (omega arith),
          c 15 (omega arith),
          c 16 (omega arith),
          c 17 (omega arith),
        )
        refl

  -- After a factory reset the device has the default settings, and so has each encoder of each bank.
  pub load_config-config_factory_reset :
      (load_config nvm (config_factory_reset nvm s) ≡ default_settings)
      × ((bank encoder : ℕ)
          → bank < 8
          → encoder < 16
          → get_encoder_config nvm (config_factory_reset nvm s) bank encoder
            ≡ factory_config bank encoder)
  unfolding config_factory_reset
  load_config-config_factory_reset = (
    load_config-reset ∙ load_config-write_defaults,
    λ bank encoder h k.
        get_encoder_config-factory_reset nvm (write_defaults nvm s) bank encoder h k,
  )

  -- The layout version is the firmware's behind `config_init`, which then does nothing a second time.
  config_init_twice :
      (nvm.read_byte (config_init nvm s) ee_version ≡ 8)
      × (config_init nvm (config_init nvm s) ≡ config_init nvm s)
  unfolding config_init
  config_init_twice = elim (Bool-cases (nvm.read_byte s ee_version == 8)) [
    | inl current ↦ (
      simp current ((==_iff (nvm.read_byte s ee_version) 8).0 current),
      simp (current, current) refl,
    )
    | inr other ↦
        let now : nvm.read_byte (config_factory_reset nvm s) ee_version ≡ 8 =
          cell ee_version (omega arith) ∙ version-write_defaults in
        (simp other now, simp (other, now) refl)
  ]
