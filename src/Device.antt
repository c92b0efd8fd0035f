-- ===== src/Device.antt =====
-- The state of the whole device while it runs, and what several parts of it do: src/display_driver.c, the idle
-- timer and the animation of a change of the bank, and the packets that are sent, oldest first. What is
-- drawn is left out.
pub mod Sound
use midi_fighter_twister_ope.Base.{
  ℕ, ◌+◌, ◌-◌, ◌%◌, Bool, true, false, not, List, [], ◌∷◌, ◌++◌, ltb, leb, ◌==◌, if◌then◌else◌, u16,
}
use midi_fighter_twister_ope.Midi.{EventPacket}
use midi_fighter_twister_ope.NativeMode.{State}
use midi_fighter_twister_ope.Encoders.{Encoders}
use midi_fighter_twister_ope.Encoders.Banks.{change_encoder_bank, refresh_display}
use midi_fighter_twister_ope.Switches.{SwitchInput}

-- `num_banks` is `NUM_BANKS`.
abbrev pub num_banks : ℕ
num_banks = 8

-- `op_mode_t`.
pub data OpMode : Type 0 where
  startup : OpMode
  normal : OpMode
  shift1 : OpMode
  shift2 : OpMode
  sequencer : OpMode

-- `side_sw_action_t`; `no_action` stands for the numbers beyond it.
pub data SideSwAction : Type 0 where
  cc_hold_ss : SideSwAction
  cc_toggle_ss : SideSwAction
  note_hold_ss : SideSwAction
  note_toggle_ss : SideSwAction
  shift_page_1 : SideSwAction
  shift_page_2 : SideSwAction
  shift_page_1_toggle : SideSwAction
  shift_page_2_toggle : SideSwAction
  global_bank_up : SideSwAction
  global_bank_down : SideSwAction
  bank_select : SideSwAction
  global_bank_1 : SideSwAction
  global_bank_2 : SideSwAction
  global_bank_3 : SideSwAction
  global_bank_4 : SideSwAction
  global_bank_5 : SideSwAction
  global_bank_6 : SideSwAction
  global_bank_7 : SideSwAction
  global_bank_8 : SideSwAction
  cycle_bank : SideSwAction
  no_action : SideSwAction

-- `switch_event_t`.
pub data SwitchEvent : Type 0 where
  sw_up : SwitchEvent
  sw_down : SwitchEvent
  sw_held : SwitchEvent

-- The variables of src/side_switch.c, but for the mode, with the input of these switches.
pub record SideSwitches : Type 0 where
  pub input : SwitchInput
  pub sw_action : ℕ → SideSwAction
  pub side_is_banked : Bool
  pub side_switch_toggle_state : ℕ → ℕ
  pub prev_side_switch_state : ℕ
  pub bank_select_active : Bool
  pub bank_select_origin : ℕ

-- The tables of src/encoders.c that belong to the switches of the encoders, with their input.
pub record EncoderSwitches : Type 0 where
  pub input : SwitchInput
  pub switch_color_buffer : ℕ → ℕ → ℕ
  pub switch_animation_buffer : ℕ → ℕ → ℕ
  pub encoder_animation_buffer : ℕ → ℕ → ℕ
  pub enc_switch_midi_state : ℕ → ℕ → ℕ
  pub switch_color_overide : ℕ → ℕ
  pub shift_mode_switch_state : ℕ → ℕ
  pub shift_mode_midi_override : ℕ → ℕ

-- The variables of the animation in src/display_driver.c; no bank is 0xff.
pub record BankAnimation : Type 0 where
  pub bank_anim_bank : ℕ
  pub bank_anim_fading : Bool
  pub bank_anim_level : ℕ
  pub animation_frames_remaining : ℕ

pub record Device : Type 0 where
  pub encoders : Encoders
  pub keys : EncoderSwitches
  pub side : SideSwitches
  pub native : State
  pub animation : BankAnimation
  pub mode : OpMode
  pub midi_system_channel : ℕ
  pub global_animation_channels : ℕ
  pub global_bank_animations_enabled : Bool
  pub idle_timer : ℕ
  pub sleep_mode_active : Bool
  pub sleep_timeout_minutes : ℕ
  pub animation_counter : ℕ
  pub pulse_anim_origin : ℕ
  pub sent : List EventPacket

-- `current_encoder_bank()`.
abbrev pub current_encoder_bank : Device → ℕ
current_encoder_bank d = d.encoders.encoder_bank

abbrev pub send : EventPacket → Device → Device
send p d = record d { sent = d.sent ++ p ∷ [] }

abbrev pub change_bank : ℕ → Device → Device
change_bank bank d = record d { encoders = change_encoder_bank bank d.encoders }

abbrev pub refresh : Device → Device
refresh d = record d { encoders = refresh_display d.encoders }

unfoldable pub reset_idle_timer : Device → Device
reset_idle_timer d = refresh record d { idle_timer = 0; sleep_mode_active = false }

unfoldable pub reset_pulse_animation : Device → Device
reset_pulse_animation d = record d { pulse_anim_origin = d.animation_counter }

unfoldable pub bank_change_animation : ℕ → Device → Device
bank_change_animation new_bank d = if d.side.bank_select_active then d else record d {
  animation = record {
    bank_anim_bank = new_bank;
    bank_anim_fading = false;
    bank_anim_level = 0;
    animation_frames_remaining = 60;
  };
}

unfoldable pub bank_change_animation_tick : Device → Device
bank_change_animation_tick d =
    let a = d.animation in
    let level : ℕ = u16 (a.bank_anim_level + 4) in
    if a.bank_anim_bank == 0xff
    then d
    else if ltb 0 a.animation_frames_remaining
    then d
    else if not a.bank_anim_fading
    then record (change_bank a.bank_anim_bank d) {
      animation = record a {
        bank_anim_fading = true;
        bank_anim_level = 1;
        animation_frames_remaining = 2;
      };
    }
    else if leb 127 level
    then record d {
      animation = record a {
        bank_anim_bank = 0xff;
        bank_anim_fading = false;
        bank_anim_level = level;
      };
    }
    else record d {
      animation = record a { bank_anim_level = level; animation_frames_remaining = 2 };
    }

-- `idle_timer` has 32 bits.
unfoldable pub display_animation_timer : Device → Device
display_animation_timer d =
    let a = d.animation in
    record d {
      animation = record a { animation_frames_remaining = a.animation_frames_remaining - 1 };
      idle_timer = if d.sleep_mode_active then d.idle_timer else (d.idle_timer + 1) % 0x100000000;
    }
