-- ===== src/SideSwitch/Frame.antt =====
-- src/side_switch.c: what an event of a side switch leaves: the native mode, the settings, the input, and what
-- holds of the device at all times.
use midi_fighter_twister_ope.Base.{
  ℕ, zero, suc, ◌+◌, ◌*◌, ◌<◌, refl, arith, true, false, Option, none, some, if◌then◌else◌, u8,
}
use midi_fighter_twister_ope.Midi.{EventPacket}
use midi_fighter_twister_ope.NativeMode.{native_mode_process_side_switch_pressed}
use midi_fighter_twister_ope.Device.{
  Device, OpMode, SideSwAction, SwitchEvent, current_encoder_bank, refresh, reset_pulse_animation,
  normal, shift1, shift2, sw_up, sw_down, sw_held, cc_hold_ss, cc_toggle_ss, note_hold_ss,
  note_toggle_ss, shift_page_1, shift_page_2, shift_page_1_toggle, shift_page_2_toggle,
  global_bank_up, global_bank_down, bank_select, global_bank_1, global_bank_2, global_bank_3,
  global_bank_4, global_bank_5, global_bank_6, global_bank_7, global_bank_8, cycle_bank, no_action,
}
use midi_fighter_twister_ope.Device.Sound.{
  IsRunning, in_normal, in_shift1, in_shift2, IsSound, Leaves, leaves, after_both, if-Leaves,
  send-Leaves, change_bank-Leaves, refresh-Leaves, set_mode-Leaves, reset_idle_timer-Leaves,
  bank_change_animation-Leaves,
}
use midi_fighter_twister_ope.SideSwitch.{
  animate, toggle, go_to_next, go_to, shift_page, shift_page_toggle, next_bank_up, next_bank_down,
  next_bank_cycle, bank_selecting, side_switch_action, act, act_unless, do_side_switch_function,
  one_side_switch, each_side_switch,
}

toggle-Leaves : (n bank : ℕ) (d : Device) → Leaves d (toggle n bank d)
unfolding toggle
toggle-Leaves n bank d = record {
  same_native = refl;
  same_settings = refl;
  same_actions = refl;
  same_input = refl;
  same_previous = refl;
  same_channel = refl;
  sound =
      λ h. record { bank = h.bank; values = h.values; running = h.running; animated = h.animated };
}

animate-Leaves : (bank : ℕ) (d : Device) → bank < 8 → Leaves d (animate bank d)
unfolding animate
animate-Leaves bank d b =
    if-Leaves d.global_bank_animations_enabled _ d (bank_change_animation-Leaves bank d b)
      (leaves d)

go_to_next-Leaves : (bank : ℕ) (d : Device) → bank < 8 → Leaves d (go_to_next bank d)
unfolding go_to_next
go_to_next-Leaves bank d b = after_both (send-Leaves _ d) (
    after_both (animate-Leaves bank _ b)
      (after_both (change_bank-Leaves bank _ b) (send-Leaves _ _)))

go_to-Leaves :
    (bank : ℕ) (event : SwitchEvent) (d : Device) → bank < 8 → Leaves d (go_to bank event d)
unfolding go_to
go_to-Leaves bank sw_down d b = after_both (send-Leaves _ d) (
    after_both (send-Leaves _ _)
      (after_both (animate-Leaves bank _ b) (change_bank-Leaves bank _ b)))
go_to-Leaves bank sw_up d b = leaves d
go_to-Leaves bank sw_held d b = leaves d

shift_page-Leaves :
    (page : OpMode) (event : SwitchEvent) (d : Device)
    → IsRunning page
    → Leaves d (shift_page page event d)
unfolding shift_page
shift_page-Leaves page sw_down d p = set_mode-Leaves page d p
shift_page-Leaves page sw_up d p =
    after_both (refresh-Leaves d) (set_mode-Leaves normal (refresh d) in_normal)
shift_page-Leaves page sw_held d p = leaves d

shift_page_toggle-Leaves :
    (page : OpMode) (event : SwitchEvent) (d : Device)
    → IsRunning page
    → Leaves d (shift_page_toggle page event d)
unfolding shift_page_toggle
shift_page_toggle-Leaves page sw_down d p =
    if-Leaves _ _ _ (after_both (refresh-Leaves d) (set_mode-Leaves normal (refresh d) in_normal))
      (set_mode-Leaves page d p)
shift_page_toggle-Leaves page sw_up d p = leaves d
shift_page_toggle-Leaves page sw_held d p = leaves d

bank_selecting-Leaves : (event : SwitchEvent) (d : Device) → Leaves d (bank_selecting event d)
unfolding bank_selecting reset_pulse_animation
bank_selecting-Leaves sw_down d = record {
  same_native = refl;
  same_settings = refl;
  same_actions = refl;
  same_input = refl;
  same_previous = refl;
  same_channel = refl;
  sound =
      λ h. record { bank = h.bank; values = h.values; running = h.running; animated = h.animated };
}
bank_selecting-Leaves sw_up d =
    let r = refresh-Leaves record d { side = record d.side { bank_select_active = false } } in
    record {
      same_native = refl;
      same_settings = r.same_settings;
      same_actions = refl;
      same_input = refl;
      same_previous = refl;
      same_channel = refl;
      sound = λ h.
          r.sound
            record { bank = h.bank; values = h.values; running = h.running; animated = h.animated };
    }
bank_selecting-Leaves sw_held d = leaves d

next_banks :
    (bank : ℕ)
    → (bank < 8 → next_bank_up bank < 8)
      × ((bank < 8 → next_bank_down bank < 8) × (next_bank_cycle bank < 8))
unfolding next_bank_up next_bank_down next_bank_cycle
next_banks bank = (λ h. ground arith, (λ h. ground arith, ground arith))

module _ (n bank : ℕ) (d : Device) (h : IsSound d) where
  side_switch_action-Leaves :
      (a : SideSwAction) (event : SwitchEvent) → Leaves d (side_switch_action a n event bank d)
  unfolding side_switch_action
  side_switch_action-Leaves cc_hold_ss sw_down = send-Leaves _ d
  side_switch_action-Leaves cc_hold_ss sw_up = send-Leaves _ d
  side_switch_action-Leaves cc_hold_ss sw_held = leaves d
  side_switch_action-Leaves cc_toggle_ss sw_down =
      after_both (toggle-Leaves n bank d) (send-Leaves _ _)
  side_switch_action-Leaves cc_toggle_ss sw_up = leaves d
  side_switch_action-Leaves cc_toggle_ss sw_held = leaves d
  side_switch_action-Leaves note_hold_ss sw_down = send-Leaves _ d
  side_switch_action-Leaves note_hold_ss sw_up = send-Leaves _ d
  side_switch_action-Leaves note_hold_ss sw_held = leaves d
  side_switch_action-Leaves note_toggle_ss sw_down =
      after_both (toggle-Leaves n bank d) (send-Leaves _ _)
  side_switch_action-Leaves note_toggle_ss sw_up = leaves d
  side_switch_action-Leaves note_toggle_ss sw_held = leaves d
  side_switch_action-Leaves shift_page_1 event = shift_page-Leaves shift1 event d in_shift1
  side_switch_action-Leaves shift_page_2 event = shift_page-Leaves shift2 event d in_shift2
  side_switch_action-Leaves shift_page_1_toggle event =
      shift_page_toggle-Leaves shift1 event d in_shift1
  side_switch_action-Leaves shift_page_2_toggle event =
      shift_page_toggle-Leaves shift2 event d in_shift2
  side_switch_action-Leaves global_bank_up sw_down =
      if-Leaves _ _ d (go_to_next-Leaves _ d ((next_banks (current_encoder_bank d)).0 h.bank))
        (leaves d)
  side_switch_action-Leaves global_bank_up sw_up = leaves d
  side_switch_action-Leaves global_bank_up sw_held = leaves d
  side_switch_action-Leaves global_bank_down sw_down =
      if-Leaves _ _ d (go_to_next-Leaves _ d ((next_banks (current_encoder_bank d)).1.0 h.bank))
        (leaves d)
  side_switch_action-Leaves global_bank_down sw_up = leaves d
  side_switch_action-Leaves global_bank_down sw_held = leaves d
  side_switch_action-Leaves bank_select event = bank_selecting-Leaves event d
  side_switch_action-Leaves global_bank_1 event = go_to-Leaves 0 event d (omega arith)
  side_switch_action-Leaves global_bank_2 event = go_to-Leaves 1 event d (omega arith)
  side_switch_action-Leaves global_bank_3 event = go_to-Leaves 2 event d (omega arith)
  side_switch_action-Leaves global_bank_4 event = go_to-Leaves 3 event d (omega arith)
  side_switch_action-Leaves global_bank_5 event = go_to-Leaves 4 event d (omega arith)
  side_switch_action-Leaves global_bank_6 event = go_to-Leaves 5 event d (omega arith)
  side_switch_action-Leaves global_bank_7 event = go_to-Leaves 6 event d (omega arith)
  side_switch_action-Leaves global_bank_8 event = go_to-Leaves 7 event d (omega arith)
  side_switch_action-Leaves cycle_bank sw_down =
      go_to_next-Leaves _ d (next_banks (current_encoder_bank d)).1.1
  side_switch_action-Leaves cycle_bank sw_up = leaves d
  side_switch_action-Leaves cycle_bank sw_held = leaves d
  side_switch_action-Leaves no_action event = leaves d

act-Leaves : (n : ℕ) (event : SwitchEvent) (d : Device) → IsSound d → Leaves d (act n event d)
unfolding act
act-Leaves n event d h =
    side_switch_action-Leaves n (if d.side.side_is_banked then current_encoder_bank d else 0) d h
      (d.side.sw_action n) event

act_unless-Leaves :
    (o : Option EventPacket) (n : ℕ) (event : SwitchEvent) (d : Device)
    → IsSound d
    → Leaves d (act_unless o n event d)
unfolding act_unless
act_unless-Leaves (some p) n event d h = send-Leaves p d
act_unless-Leaves none n event d h = act-Leaves n event d h

pub do_side_switch_function-Leaves :
    (n : ℕ) (event : SwitchEvent) (d : Device)
    → IsSound d
    → Leaves d (do_side_switch_function n event d)
unfolding do_side_switch_function
do_side_switch_function-Leaves n sw_held d h = act-Leaves n sw_held d h
do_side_switch_function-Leaves n sw_down d h =
    let r = reset_idle_timer-Leaves d in
    after_both r (
      act_unless-Leaves (native_mode_process_side_switch_pressed d.native n true) n sw_down _
        (r.sound h))
do_side_switch_function-Leaves n sw_up d h =
    let r = reset_idle_timer-Leaves d in
    after_both r (
      act_unless-Leaves (native_mode_process_side_switch_pressed d.native n false) n sw_up _
        (r.sound h))

one_side_switch-Leaves : (n mask : ℕ) (d : Device) → IsSound d → Leaves d (one_side_switch n mask d)
unfolding one_side_switch
one_side_switch-Leaves n mask d h = if-Leaves _ _ _ (do_side_switch_function-Leaves n sw_down d h) (
    if-Leaves _ _ _ (do_side_switch_function-Leaves n sw_up d h)
      (if-Leaves _ _ d (do_side_switch_function-Leaves n sw_held d h) (leaves d)))

pub each_side_switch-Leaves :
    (k n mask : ℕ) (d : Device) → IsSound d → Leaves d (each_side_switch k n mask d)
unfolding each_side_switch
each_side_switch-Leaves zero n mask d h = leaves d
each_side_switch-Leaves (suc k) n mask d h =
    let one = one_side_switch-Leaves n mask d h in
    after_both one (each_side_switch-Leaves k (n + 1) (u8 (mask * 2)) _ (one.sound h))
