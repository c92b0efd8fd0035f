-- ===== src/Tests.antt =====
-- The theorems at concrete inputs. Each input is one that a device meets: the receiver after power-up
-- with the commands that `config_init` installs, and an EEPROM of which every byte is 0xff.
use midi_fighter_twister_ope.Base.{
  ℕ, ◌+◌, ◌<◌, ◌≡◌, ◌↔◌, refl, inl, true, Option, none, some, List, [], ◌∷◌, ◌++◌, length,
  replicate, arith, get_or, ◌>>=◌,
}
use midi_fighter_twister_ope.Midi.{EventPacket, packet, midi_stream_sysex}
use midi_fighter_twister_ope.Sysex.{
  Action, Receiver, SysExFn, push_config, pull_config, system, bulk_xfer, get_device_id,
  native_mode, power_up, receive, sysex_packet,
}
use midi_fighter_twister_ope.Sysex.Invariant.{
  Keeps, power_up-IsSound, sysex_packet-Keeps, sysex_packet-eq-none_iff,
}
use midi_fighter_twister_ope.Sysex.Delivery.{IsDelivered}
use midi_fighter_twister_ope.Sysex.Transfer.{IsWaiting, receive-midi_stream_sysex}
use midi_fighter_twister_ope.Sysex.Overlong.{IsDropped, overlong_message-IsDropped}
use midi_fighter_twister_ope.Nvm.{array_nvm}
use midi_fighter_twister_ope.Settings.{EncoderConfig, expand, get_encoder_config, save_to_eeprom}
use midi_fighter_twister_ope.Settings.SaveLoad.{overlay_config, get_encoder_config-save_to_eeprom}
use midi_fighter_twister_ope.Settings.FactoryDefaults.{factory_config}
use midi_fighter_twister_ope.Config.Global
use midi_fighter_twister_ope.Config.GlobalLaws.{
  requested_config, load_config-write_global_lem, push_config-config_pairs,
}
use midi_fighter_twister_ope.Config.Decode.{
  flatten, reaches_beyond, last_value, tag_of, global_tv_table_decode-last_value,
  global_tv_table_decode-eq-none_iff,
}
use midi_fighter_twister_ope.Config.Reset.{default_settings, load_config-config_factory_reset}
use midi_fighter_twister_ope.Config.Bulk.{bulk_pull}
use midi_fighter_twister_ope.Config.BulkTransfer.{receive_all, bulk_xfer-bulk_pull}
use midi_fighter_twister_ope.NativeMode
use midi_fighter_twister_ope.NativeMode.Items.{
  Item, indicator, switch, encode_all, apply_all, native_mode_handle_sysex_command-encode_all,
}
use midi_fighter_twister_ope.NativeMode.Parsing.{IsSound}
use midi_fighter_twister_ope.NativeMode.Invariant.{native_mode_handle_sysex_command-IsSound}

-- The commands as `config_init` installs them.
abbrev installed : List (Option SysExFn)
installed =
    some push_config
    ∷ some pull_config
    ∷ some system
    ∷ some bulk_xfer
    ∷ some get_device_id
    ∷ some native_mode
    ∷ none
    ∷ none
    ∷ []

abbrev ready : Receiver
ready = record power_up { command_map = installed }

ready-IsWaiting : IsWaiting installed ready
ready-IsWaiting = record { room = refl; same_commands = refl; idle = refl; at_begin = refl }

abbrev pull_request : List ℕ
pull_request = 0x02 ∷ 0x00 ∷ 0xf7 ∷ []

receive-midi_stream_sysex_example :
    (ps : List EventPacket) × (s : Receiver) × (acts : List Action) × (midi_stream_sysex
        (length pull_request + 4)
        (0xf0 ∷ 0x00 ∷ 0x01 ∷ 0x79 ∷ pull_request)
      ≡ some ps)
    × (receive ps ready ≡ some (s, acts))
    × IsDelivered installed pull_request s acts
receive-midi_stream_sysex_example =
    receive-midi_stream_sysex installed pull_request ready ready-IsWaiting (omega arith)
      (omega arith)

sysex_packet-Keeps_example : Keeps (sysex_packet (packet 4 0xf0 0x00 0x01) power_up)
sysex_packet-Keeps_example =
    sysex_packet-Keeps (packet 4 0xf0 0x00 0x01) power_up power_up-IsSound (inl (omega arith))

sysex_packet-eq-none_iff_example :
    (sysex_packet (packet 7 0x01 0x02 0xf7) power_up ≡ none)
    ↔ ((packet 7 0x01 0x02 0xf7).event ≡ 0x7) × (power_up.ptr ≡ none)
sysex_packet-eq-none_iff_example =
    sysex_packet-eq-none_iff (packet 7 0x01 0x02 0xf7) power_up power_up-IsSound

overlong_message-IsDropped_example :
    IsDropped (0xf0 ∷ 0x00 ∷ 0x01 ∷ 0x79 ∷ replicate 130 4) true ready
overlong_message-IsDropped_example =
    overlong_message-IsDropped installed (replicate 130 4) ready ready-IsWaiting (omega arith)

-- An EEPROM as it is delivered.
abbrev erased : ℕ → ℕ
erased a = 0xff

-- A message that sets a detent and the encoder's channel to 3, and nothing else.
abbrev two_settings : EncoderConfig
two_settings = record {
  has_detent = 1;
  movement = 0x80;
  switch_action_type = 0x80;
  switch_midi_channel = 0x80;
  switch_midi_number = 0x80;
  switch_midi_type = 0x80;
  encoder_midi_channel = 3;
  encoder_midi_number = 0x80;
  encoder_midi_type = 0x80;
  active_color = 0x80;
  inactive_color = 0x80;
  detent_color = 0x80;
  indicator_display_type = 0x80;
  is_super_knob = 0x80;
  encoder_shift_midi_channel = 0x80;
}

get_encoder_config-save_to_eeprom_example :
    get_encoder_config array_nvm (save_to_eeprom array_nvm erased 2 5 two_settings) 2 5
    ≡ overlay_config (get_encoder_config array_nvm erased 2 5) two_settings
get_encoder_config-save_to_eeprom_example =
    get_encoder_config-save_to_eeprom array_nvm erased 2 5 two_settings

abbrev eighteen : List ℕ
eighteen = 4 ∷ 1 ∷ replicate 13 5 ++ 3 ∷ 2 ∷ 1 ∷ []

load_config-write_global_example :
    Global.load_config array_nvm (Global.write_global array_nvm eighteen erased)
    ≡ requested_config eighteen
load_config-write_global_example =
    load_config-write_global_lem array_nvm erased eighteen (omega arith)

push_config-config_pairs_example :
    (Global.push_config array_nvm 37
        (Global.config_pairs array_nvm (Global.load_config array_nvm erased) erased)
        erased
      >>= λ s1. some (Global.load_config array_nvm s1))
    ≡ some (Global.load_config array_nvm erased)
push_config-config_pairs_example = push_config-config_pairs array_nvm erased

abbrev two_tags : List (ℕ × ℕ)
two_tags = (0, 4) ∷ (31, 100) ∷ []

global_tv_table_decode-last_value_example :
    (t : List ℕ) × ((Global.global_tv_table_decode
          (flatten two_tags ++ 0xf7 ∷ [])
          5
          (replicate 18 0)
        ≡ some t)
      × ((length t ≡ Global.global_table_size)
          × ((k : ℕ)
              → k < 18
              → get_or t k 0 ≡ last_value (tag_of k) two_tags (get_or (replicate 18 0) k 0))))
global_tv_table_decode-last_value_example =
    global_tv_table_decode-last_value two_tags (0xf7 ∷ []) 1 (replicate 18 0) refl (omega arith)
      (omega arith)

global_tv_table_decode-eq-none_iff_example :
    (Global.global_tv_table_decode (flatten ((4, 7) ∷ (100, 1) ∷ []) ++ []) 4 (replicate 18 0)
      ≡ none)
    ↔ (reaches_beyond ((4, 7) ∷ (100, 1) ∷ []) ≡ true)
global_tv_table_decode-eq-none_iff_example =
    global_tv_table_decode-eq-none_iff ((4, 7) ∷ (100, 1) ∷ []) [] 0 (replicate 18 0) refl
      (omega arith)

load_config-config_factory_reset_example :
    (Global.load_config array_nvm (Global.config_factory_reset array_nvm erased) ≡ default_settings)
    × ((bank encoder : ℕ)
        → bank < 8
        → encoder < 16
        → get_encoder_config array_nvm (Global.config_factory_reset array_nvm erased) bank encoder
          ≡ factory_config bank encoder)
load_config-config_factory_reset_example = load_config-config_factory_reset array_nvm erased

-- An EEPROM of which every byte is 9.
abbrev nines : ℕ → ℕ
nines a = 9

nine_is_small :
    ((get_encoder_config array_nvm nines 7 15).active_color < 128)
    × ((get_encoder_config array_nvm nines 7 15).inactive_color < 128)
unfolding get_encoder_config expand
nine_is_small = (omega arith, omega arith)

bulk_xfer-bulk_pull_example :
    (receive_all array_nvm (bulk_pull array_nvm 128 nines) erased >>= λ s1.
    some (get_encoder_config array_nvm s1 7 15))
    ≡ some (get_encoder_config array_nvm nines 7 15)
bulk_xfer-bulk_pull_example =
    bulk_xfer-bulk_pull array_nvm 128 nines erased (omega arith) (omega arith) nine_is_small.0
      nine_is_small.1

abbrev native : NativeMode.State
native = record {
  is_active = true;
  enc_indicator_configs = replicate 16 NativeMode.default_indicator_config;
  enc_switch_configs = replicate 16 NativeMode.default_switch_config;
  indicator_value_buffer = replicate 16 0;
}

native-IsSound : IsSound native
native-IsSound = record { indicators = refl; switches = refl; values = refl }

abbrev two_items : List Item
two_items =
    indicator 3 record { display_type = 2; has_detent = 1; detent_color = 60 }
    ∷ switch 15 record { color_r = 127; color_g = 0; color_b = 5 }
    ∷ []

native_mode_handle_sysex_command-encode_all_example :
    NativeMode.native_mode_handle_sysex_command native (1 ∷ encode_all two_items)
    ≡ some record { state = apply_all two_items native; refreshed = true }
native_mode_handle_sysex_command-encode_all_example =
    native_mode_handle_sysex_command-encode_all two_items native refl (omega arith)

native_mode_handle_sysex_command-IsSound_example :
    (o : NativeMode.Outcome) × ((NativeMode.native_mode_handle_sysex_command native
          (1 ∷ encode_all two_items)
        ≡ some o)
      × IsSound o.state)
native_mode_handle_sysex_command-IsSound_example =
    native_mode_handle_sysex_command-IsSound (1 ∷ encode_all two_items) native native-IsSound
      (omega arith)
