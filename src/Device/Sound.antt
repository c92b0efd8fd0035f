-- ===== src/Device/Sound.antt =====
-- What holds of the device at all times, and that the parts which others use keep it.
use midi_fighter_twister_ope.Base.{
  ℕ, ◌<◌, ◌≡◌, ◌⊎◌, inl, refl, ◌∙◌, Bool, true, false, if◌then◌else◌,
}
use midi_fighter_twister_ope.Midi.{EventPacket}
use midi_fighter_twister_ope.Encoders.BankRange.{
  InRange, change_encoder_bank-Changes, refresh_display-Changes,
}
use midi_fighter_twister_ope.Device.{
  Device, OpMode, normal, shift1, shift2, change_bank, refresh, send, reset_idle_timer,
  bank_change_animation,
}

-- The mode is one that handles input.
pub data IsRunning : OpMode → Type 0 where
  in_normal : IsRunning normal
  in_shift1 : IsRunning shift1
  in_shift2 : IsRunning shift2

-- A bank of the animation is a bank of the device, or there is none.
abbrev pub IsAnimated : ℕ → Type 0
IsAnimated bank = (bank < 8) ⊎ (bank ≡ 0xff)

pub record IsSound (d : Device) : Type 0 where
  pub bank : d.encoders.encoder_bank < 8
  pub values : InRange d.encoders
  pub running : IsRunning d.mode
  pub animated : IsAnimated d.animation.bank_anim_bank

-- What a step of the side switches, or of the timers, leaves.
pub record Leaves (d e : Device) : Type 0 where
  pub same_native : e.native ≡ d.native
  pub same_settings : e.encoders.encoder_settings ≡ d.encoders.encoder_settings
  pub same_actions : e.side.sw_action ≡ d.side.sw_action
  pub same_input : e.side.input ≡ d.side.input
  pub same_previous : e.side.prev_side_switch_state ≡ d.side.prev_side_switch_state
  pub same_channel : e.midi_system_channel ≡ d.midi_system_channel
  pub sound : IsSound d → IsSound e

pub leaves : (d : Device) → Leaves d d
leaves d = record {
  same_native = refl;
  same_settings = refl;
  same_actions = refl;
  same_input = refl;
  same_previous = refl;
  same_channel = refl;
  sound = λ h. h;
}

pub after_both : {d e f : Device} → Leaves d e → Leaves e f → Leaves d f
after_both a b = record {
  same_native = b.same_native ∙ a.same_native;
  same_settings = b.same_settings ∙ a.same_settings;
  same_actions = b.same_actions ∙ a.same_actions;
  same_input = b.same_input ∙ a.same_input;
  same_previous = b.same_previous ∙ a.same_previous;
  same_channel = b.same_channel ∙ a.same_channel;
  sound = λ h. b.sound (a.sound h);
}

pub if-Leaves :
    {d : Device} (b : Bool) (x y : Device) → Leaves d x → Leaves d y → Leaves d (if b then x else y)
if-Leaves true x y h k = h
if-Leaves false x y h k = k

pub send-Leaves : (p : EventPacket) (d : Device) → Leaves d (send p d)
send-Leaves p d = record {
  same_native = refl;
  same_settings = refl;
  same_actions = refl;
  same_input = refl;
  same_previous = refl;
  same_channel = refl;
  sound =
      λ h. record { bank = h.bank; values = h.values; running = h.running; animated = h.animated };
}

pub change_bank-Leaves : (bank : ℕ) (d : Device) → bank < 8 → Leaves d (change_bank bank d)
change_bank-Leaves bank d b =
    let c = change_encoder_bank-Changes bank d.encoders in
    record {
      same_native = refl;
      same_settings = c.same_settings;
      same_actions = refl;
      same_input = refl;
      same_previous = refl;
      same_channel = refl;
      sound = λ h. record {
        bank = rw c.new_bank b;
        values = c.in_range h.values;
        running = h.running;
        animated = h.animated;
      };
    }

pub refresh-Leaves : (d : Device) → Leaves d (refresh d)
refresh-Leaves d =
    let c = refresh_display-Changes d.encoders in
    record {
      same_native = refl;
      same_settings = c.same_settings;
      same_actions = refl;
      same_input = refl;
      same_previous = refl;
      same_channel = refl;
      sound = λ h. record {
        bank = rw c.new_bank h.bank;
        values = c.in_range h.values;
        running = h.running;
        animated = h.animated;
      };
    }

pub set_mode-Leaves :
    (mode : OpMode) (d : Device) → IsRunning mode → Leaves d (record d { mode = mode })
set_mode-Leaves mode d m = record {
  same_native = refl;
  same_settings = refl;
  same_actions = refl;
  same_input = refl;
  same_previous = refl;
  same_channel = refl;
  sound = λ h. record { bank = h.bank; values = h.values; running = m; animated = h.animated };
}

pub reset_idle_timer-Leaves : (d : Device) → Leaves d (reset_idle_timer d)
unfolding reset_idle_timer
reset_idle_timer-Leaves d =
    let awake = record d { idle_timer = 0; sleep_mode_active = false } in
    let r = refresh-Leaves awake in
    record {
      same_native = refl;
      same_settings = r.same_settings;
      same_actions = refl;
      same_input = refl;
      same_previous = refl;
      same_channel = refl;
      sound = λ h.
          r.sound
            record { bank = h.bank; values = h.values; running = h.running; animated = h.animated };
    }

pub bank_change_animation-Leaves :
    (bank : ℕ) (d : Device) → bank < 8 → Leaves d (bank_change_animation bank d)
unfolding bank_change_animation
bank_change_animation-Leaves bank d b = if-Leaves d.side.bank_select_active d _ (leaves d) record {
  same_native = refl;
  same_settings = refl;
  same_actions = refl;
  same_input = refl;
  same_previous = refl;
  same_channel = refl;
  sound = λ h. record { bank = h.bank; values = h.values; running = h.running; animated = inl b };
}
