-- ===== src/SideSwitch/Combo.antt =====
-- src/side_switch.c: the combination of two side switches that changes the native mode.
use midi_fighter_twister_ope.Base.{ℕ, ◌≡◌, refl, ap, Bool, true, false, not, ◌&&◌, if◌then◌else◌}
use midi_fighter_twister_ope.NativeMode.{native_mode_toggle}
use midi_fighter_twister_ope.Switches.{SwitchInput, update_side_switch_state}
use midi_fighter_twister_ope.Device.{Device, SideSwitches, refresh}
use midi_fighter_twister_ope.Device.Sound.{IsSound, refresh-Leaves}
use midi_fighter_twister_ope.SideSwitch.{
  is_combo, toggle_native_mode, remember, each_side_switch, process_side_switch_input,
}
use midi_fighter_twister_ope.SideSwitch.Frame.{each_side_switch-Leaves}

-- What `process_side_switch_input` leaves behind, with `now` the new state of the switches, and whether
-- they have the combination now and had it before.
pub record IsPassed (complete before : Bool) (now : SwitchInput) (d e : Device) : Type 0 where
  pub native :
      e.native ≡ (if complete && not before then (native_mode_toggle d.native).state else d.native)
  pub input : e.side.input ≡ now
  pub previous : e.side.prev_side_switch_state ≡ now.switch_state
  pub actions : e.side.sw_action ≡ d.side.sw_action
  pub settings : e.encoders.encoder_settings ≡ d.encoders.encoder_settings
  pub sound : IsSound e

abbrev pub IsCombined : SwitchInput → Device → Device → Type 0
IsCombined now d e =
    IsPassed (is_combo now.switch_state) (is_combo d.side.prev_side_switch_state) now d e

remembered : (d : Device) → IsSound d → IsSound (remember d)
remembered d h = record {
  bank = h.bank;
  values = h.values;
  running = h.running;
  animated = h.animated;
}

-- The toggle changes the native mode only.
record Toggles (d e : Device) : Type 0 where
  native : e.native ≡ (native_mode_toggle d.native).state
  side : e.side ≡ d.side
  settings : e.encoders.encoder_settings ≡ d.encoders.encoder_settings
  sound : IsSound d → IsSound e

toggle_native_mode-Toggles : (d : Device) → Toggles d (toggle_native_mode d)
unfolding toggle_native_mode
toggle_native_mode-Toggles d = go (native_mode_toggle d.native).refreshed
  where
    toggled : Device
    toggled = record d { native = (native_mode_toggle d.native).state }

    go : (b : Bool) → Toggles d (if b then refresh toggled else toggled)
    go true =
        let r = refresh-Leaves toggled in
        record {
          native = refl;
          side = refl;
          settings = r.same_settings;
          sound = λ h. r.sound record {
            bank = h.bank;
            values = h.values;
            running = h.running;
            animated = h.animated;
          };
        }
    go false = record {
      native = refl;
      side = refl;
      settings = refl;
      sound = λ h. record {
        bank = h.bank;
        values = h.values;
        running = h.running;
        animated = h.animated;
      };
    }

-- Whatever the switches were before, one pass over the side switches toggles the native mode exactly if the
-- combination is complete and was not in the pass before; no other side switch changes that mode, the settings of
-- the encoders, or the actions. The state of the switches becomes the previous one, and the device
-- stays sound.
pub process_side_switch_input-IsCombined :
    (level : ℕ → Bool) (d : Device)
    → IsSound d
    → IsCombined (update_side_switch_state level d.side.input) d (process_side_switch_input level d)
unfolding process_side_switch_input
process_side_switch_input-IsCombined level d h =
    go (is_combo now.switch_state) (is_combo d.side.prev_side_switch_state)
  where
    now : SwitchInput
    now = update_side_switch_state level d.side.input

    updated : Device
    updated = record d { side = record d.side { input = now } }

    fresh : IsSound updated
    fresh = record { bank = h.bank; values = h.values; running = h.running; animated = h.animated }

    go :
        (complete before : Bool)
        → (let e : Device =
              if complete
              then remember (if before then updated else toggle_native_mode updated)
              else remember (each_side_switch 6 0 1 updated) in
            IsPassed complete before now d e)
    go true true = record {
      native = refl;
      input = refl;
      previous = refl;
      actions = refl;
      settings = refl;
      sound = remembered updated fresh;
    }
    go true false =
        let t = toggle_native_mode-Toggles updated in
        record {
          native = t.native;
          input = ap (λ (s : SideSwitches). s.input) t.side;
          previous = ap (λ (s : SideSwitches). s.input.switch_state) t.side;
          actions = ap (λ (s : SideSwitches). s.sw_action) t.side;
          settings = t.settings;
          sound = remembered (toggle_native_mode updated) (t.sound fresh);
        }
    go false before =
        let l = each_side_switch-Leaves 6 0 1 updated fresh in
        record {
          native = l.same_native;
          input = l.same_input;
          previous = ap (λ (s : SwitchInput). s.switch_state) l.same_input;
          actions = l.same_actions;
          settings = l.same_settings;
          sound = remembered (each_side_switch 6 0 1 updated) (l.sound fresh);
        }
