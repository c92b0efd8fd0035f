-- ===== src/DeviceTests.antt =====
-- The theorems on the switches, the messages of the host and the whole device at concrete inputs: the encoders
-- of the other tests, side switches with the factory's actions but for the third, which cycles through the
-- banks, and no packet sent yet.
use midi_fighter_twister_ope.Base.{
  ℕ, ◌+◌, ◌-◌, ◌*◌, ◌/◌, ◌%◌, ◌<◌, ◌≡◌, refl, arith, Bool, true, false, not, ◌&&◌, ◌||◌, inr, List,
  [], ◌∷◌, ◌++◌, replicate, length, bit, ◌==◌, if◌then◌else◌,
}
use midi_fighter_twister_ope.Sysex.{power_up}
use midi_fighter_twister_ope.NativeMode.{State, default_indicator_config, default_switch_config}
use midi_fighter_twister_ope.EncoderTests.{middle, middle-InRange}
use midi_fighter_twister_ope.Quadrature.{EncoderInput}
use midi_fighter_twister_ope.Switches.{no_switches, update_side_switch_state}
use midi_fighter_twister_ope.Switches.Key.{
  Event, sample, update, run, run_key, released, IsSeen, run-IsSeen,
}
use midi_fighter_twister_ope.Switches.Edges.{
  samples, IsUntouched, run-release, presses, releases, presses-releases,
}
use midi_fighter_twister_ope.Device.{
  Device, SideSwAction, normal, sw_down, shift_page_1, global_bank_up, global_bank_down, cycle_bank,
  no_action,
}
use midi_fighter_twister_ope.Device.Sound.{IsSound, in_normal}
use midi_fighter_twister_ope.SideSwitch.{process_side_switch_input, do_side_switch_function}
use midi_fighter_twister_ope.SideSwitch.Combo.{IsCombined, process_side_switch_input-IsCombined}
use midi_fighter_twister_ope.SideSwitch.BankActions.{
  target, HasGone, do_side_switch_function-HasGone,
}
use midi_fighter_twister_ope.Feedback.Mapping.{match_from}
use midi_fighter_twister_ope.Feedback.OneMatch.{takes, shows}
use midi_fighter_twister_ope.Feedback.Values.{match_from_lem}
use midi_fighter_twister_ope.Feedback.Animations.{
  animation_is_switch_rgb, animation_is_encoder_indicator, animation_buffer_conflict_exists,
  animation_buffer_conflict_exists_lem,
}
use midi_fighter_twister_ope.MidiInput.{Clock, MidiDevice, real_time}
use midi_fighter_twister_ope.MidiInput.Ticks.{ticks, ticks_lem}
use midi_fighter_twister_ope.MainLoop.{midifighter_task}
use midi_fighter_twister_ope.MainLoop.Reachable.{sampled, Settings}

-- Switch 1 is pressed for one sample and then left alone.
abbrev quiet : List Event
quiet =
    sample 0
    ∷ sample 1
    ∷ sample 0
    ∷ update
    ∷ sample 0
    ∷ sample 4
    ∷ sample 0
    ∷ sample 0
    ∷ sample 0
    ∷ sample 0
    ∷ sample 0
    ∷ []

abbrev tap : List Event
tap = update ∷ sample 2 ∷ update ∷ quiet

run-IsSeen_example : IsSeen 1 (run tap no_switches) (run_key 1 tap released)
run-IsSeen_example = run-IsSeen 1 tap

run-release_example :
    bit (run (((update ∷ sample 2 ∷ []) ++ quiet) ++ update ∷ []) no_switches).switch_state 1 ≡ 0
unfolding samples IsUntouched
run-release_example =
    run-release 1 (update ∷ sample 2 ∷ []) quiet
      (refl, (refl, (refl, (refl, (refl, (refl, (refl, (refl, (refl, (refl, tt))))))))))
      (omega arith)

presses-releases_example :
    presses 1 tap no_switches + bit no_switches.prev_switch_state 1
    ≡ releases 1 tap no_switches + bit (run tap no_switches).prev_switch_state 1
presses-releases_example = presses-releases 1 tap no_switches

abbrev actions : ℕ → SideSwAction
actions n =
    if n == 1
    then global_bank_down
    else if n == 2
    then cycle_bank
    else if n == 4
    then global_bank_up
    else shift_page_1

abbrev displays : State
displays = record {
  is_active = false;
  enc_indicator_configs = replicate 16 default_indicator_config;
  enc_switch_configs = replicate 16 default_switch_config;
  indicator_value_buffer = replicate 16 0;
}

abbrev ready : Device
ready = record {
  encoders = middle;
  keys = record {
    input = no_switches;
    switch_color_buffer = λ bank i. 1;
    switch_animation_buffer = λ bank i. 10;
    encoder_animation_buffer = λ bank i. 60;
    enc_switch_midi_state = λ bank i. 0;
    switch_color_overide = λ bank. 0;
    shift_mode_switch_state = λ page. 0;
    shift_mode_midi_override = λ page. 0;
  };
  side = record {
    input = no_switches;
    sw_action = actions;
    side_is_banked = false;
    side_switch_toggle_state = λ bank. 0;
    prev_side_switch_state = 0;
    bank_select_active = false;
    bank_select_origin = 0;
  };
  native = displays;
  animation = record {
    bank_anim_bank = 0xff;
    bank_anim_fading = false;
    bank_anim_level = 0;
    animation_frames_remaining = 0;
  };
  mode = normal;
  midi_system_channel = 3;
  global_animation_channels = 0x52;
  global_bank_animations_enabled = true;
  idle_timer = 1000;
  sleep_mode_active = false;
  sleep_timeout_minutes = 10;
  animation_counter = 0;
  pulse_anim_origin = 0;
  sent = [];
}

ready-IsSound : IsSound ready
ready-IsSound = record {
  bank = omega arith;
  values = middle-InRange;
  running = in_normal;
  animated = inr refl;
}

-- The two switches at the bottom are pressed: their pins are low.
abbrev both_low : ℕ → Bool
both_low i = not ((i == 2) || (i == 5))

process_side_switch_input-IsCombined_example :
    IsCombined
      (update_side_switch_state both_low no_switches)
      ready
      (process_side_switch_input both_low ready)
process_side_switch_input-IsCombined_example =
    process_side_switch_input-IsCombined both_low ready ready-IsSound

do_side_switch_function-HasGone_example : HasGone 3 ready (do_side_switch_function 2 sw_down ready)
unfolding target
do_side_switch_function-HasGone_example =
    do_side_switch_function-HasGone 2 3 ready refl (omega arith) refl

-- Encoders that have rested for long.
abbrev resting : ℕ → EncoderInput
resting i = record {
  encoder_state = 0;
  cha_prev = false;
  chb_prev = false;
  encoder_inactive_counter = 200;
  encoder_last_movement = 0;
  encoder_event_cycle_counts = 0;
}

match_from_example :
    (let e = match_from resting 0 1 5 100 128 0 ready in
      ((id : ℕ)
        → id < 256
        → e.encoders.raw_encoder_value id
          ≡ (if takes resting 0 1 5 100 middle id then 100 * 100 else middle.raw_encoder_value id))
      × ((b j : ℕ)
          → b < 8
          → j < 16
          → e.encoders.indicator_value_buffer b j ≡ (
              if shows resting 0 1 5 100 middle b j
              then 100
              else middle.indicator_value_buffer b j)))
match_from_example = match_from_lem resting 0 1 5 100 ready (omega arith)

animation_buffer_conflict_exists_example :
    animation_buffer_conflict_exists ready.keys 2 5
    ≡ (animation_is_switch_rgb 10 && animation_is_switch_rgb 60)
      || (animation_is_encoder_indicator 10 && animation_is_encoder_indicator 60)
animation_buffer_conflict_exists_example = animation_buffer_conflict_exists_lem ready.keys 2 5

abbrev stopped : Clock
stopped = record {
  tick_counter = 0;
  average = 0;
  prev_count = 0;
  clock_stable = false;
  midi_clock_enabled = false;
  task_is_scheduled = false;
}

abbrev started : MidiDevice
started = record { device = ready; clock = stopped; receiver = power_up }

abbrev quarter : List ℕ
quarter = replicate 24 1000

ticks_example :
    (let after = ticks (quarter) started in
      (after.clock.tick_counter ≡ (0 + length (quarter)) % 24)
      × (after.device.animation_counter
          ≡ (0 + ((0 + length (quarter) + 1) / 3 - (0 + 1) / 3)) % 256))
ticks_example = ticks_lem (quarter) started (omega arith) (omega arith)

-- For the functions in floating point.
abbrev three : ℕ → ℕ → ℕ
three ticks cycles = 3 * ticks

abbrev half : ℕ → ℕ
half value = value / 2

-- The first encoder is pressed and turned by two ticks, the clock ticks, and a millisecond passes.
abbrev scanned : MidiDevice
scanned = record started { device = sampled (λ i. not (i == 15)) ready }

abbrev passed : MidiDevice
passed = record scanned {
  device =
      midifighter_task three half 63 (λ i. if i == 0 then 2 else 0) (λ i. 30) (λ i. true)
        scanned.device;
}

abbrev ticked : MidiDevice
ticked = real_time 500 0xf8 passed

-- The host has set all encoders alike, and has taken the first side switch out of use.
abbrev new_settings : Settings
new_settings = record {
  encoder_settings = λ _. middle.encoder_settings 3;
  sw_action = λ i. if i == 0 then no_action else shift_page_1;
  side_is_banked = false;
  native = ready.native;
  midi_system_channel = 5;
  global_animation_channels = 0;
  global_bank_animations_enabled = true;
  sleep_timeout_minutes = 30;
}
