-- ===== src/MainLoop/Reachable.antt =====
-- src/main.c: the states that the device reaches, under every order of passes of the main loop, packets of the host,
-- their commands and interrupts, and what holds of all of them.
use midi_fighter_twister_ope.Base.{ℕ, ◌<◌, ◌≡◌, ◌==◌, ◌%◌, if◌then◌else◌, Bool, some}
use midi_fighter_twister_ope.Midi.{EventPacket}
use midi_fighter_twister_ope.Sysex
use midi_fighter_twister_ope.Settings.{EncoderConfig}
use midi_fighter_twister_ope.NativeMode.{State}
use midi_fighter_twister_ope.Quadrature.{EncoderInput}
use midi_fighter_twister_ope.Switches.{scan_encoder_switches}
use midi_fighter_twister_ope.Device.{
  Device, SideSwAction, display_animation_timer, refresh, reset_idle_timer,
}
use midi_fighter_twister_ope.Encoders.{banked_encoders}
use midi_fighter_twister_ope.EncoderSwitch.{with_keys}
use midi_fighter_twister_ope.MidiInput.{MidiDevice, process_midi_packet}
use midi_fighter_twister_ope.MainLoop.{midifighter_task}

abbrev pub sampled : (ℕ → Bool) → Device → Device
sampled level d = with_keys record d.keys { input = scan_encoder_switches level d.keys.input } d

-- What the commands in system exclusive messages write to the state: settings, and the state of the native mode.
pub record Settings : Type 0 where
  pub encoder_settings : ℕ → EncoderConfig
  pub sw_action : ℕ → SideSwAction
  pub side_is_banked : Bool
  pub native : State
  pub midi_system_channel : ℕ
  pub global_animation_channels : ℕ
  pub global_bank_animations_enabled : Bool
  pub sleep_timeout_minutes : ℕ

unfoldable pub with_settings : Settings → Device → Device
with_settings c d = record d {
  encoders = record d.encoders { encoder_settings = c.encoder_settings };
  side = record d.side { sw_action = c.sw_action; side_is_banked = c.side_is_banked };
  native = c.native;
  midi_system_channel = c.midi_system_channel;
  global_animation_channels = c.global_animation_channels;
  global_bank_animations_enabled = c.global_bank_animations_enabled;
  sleep_timeout_minutes = c.sleep_timeout_minutes;
}

-- `encoders_init`, behind the reading of the settings; `colors` is what it reads from the EEPROM.
unfoldable pub encoders_init : (ℕ → ℕ → ℕ) → Device → Device
encoders_init colors d = record d {
  encoders = record d.encoders {
    enc_switch_toggle_state = λ bank. 0;
    encoder_detent_counter = λ i. 0;
    raw_encoder_value = λ i.
        if (d.encoders.encoder_settings (i % banked_encoders)).has_detent == 0 then 0 else 6300;
  };
  keys = record d.keys { switch_color_buffer = colors };
}

-- What `sysExCmdPushConfig` does to the state, in its order: the messages that it sends are not in `sent`.
unfoldable pub push : Settings → (ℕ → ℕ → ℕ) → Device → Device
unfolding with_settings encoders_init
push c colors d = refresh (encoders_init colors (with_settings c (reset_idle_timer d)))

-- A step of the device: a pass of the main loop, whatever the inputs are, a packet of the host with data of
-- seven bits, an interrupt, or the command of a completed system exclusive message: a bulk transfer or the
-- native mode (`configured`, `drawn`), or new device settings (`pushed`). What they leave may be any settings.
pub data Step : MidiDevice → MidiDevice → Type 0 where
  pass :
      (m : MidiDevice) (convert_ticks : ℕ → ℕ → ℕ) (secondary : ℕ → ℕ) (start : ℕ)
      (movement cycle_count : ℕ → ℕ) (level : ℕ → Bool)
      → Step m (record m {
        device = midifighter_task convert_ticks secondary start movement cycle_count level m.device;
      })
  midi_packet :
      (m n : MidiDevice) (count : ℕ) (inputs : ℕ → EncoderInput) (p : EventPacket)
      (action : Sysex.Action)
      → p.data3 < 128
      → process_midi_packet count inputs p m ≡ some (n, action)
      → Step m n
  timer : (m : MidiDevice) → Step m (record m { device = display_animation_timer m.device })
  configured :
      (m : MidiDevice) (c : Settings) → Step m (record m { device = with_settings c m.device })
  drawn : (m : MidiDevice) → Step m (record m { device = refresh m.device })
  pushed :
      (m : MidiDevice) (c : Settings) (colors : ℕ → ℕ → ℕ)
      → Step m (record m { device = push c colors m.device })
  scan : (m : MidiDevice) (level : ℕ → Bool) → Step m (record m { device = sampled level m.device })

pub data Reach (m : MidiDevice) : MidiDevice → Type 0 where
  at_start : Reach m m
  then_step : {n k : MidiDevice} → Reach m n → Step n k → Reach m k
