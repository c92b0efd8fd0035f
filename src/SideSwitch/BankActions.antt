-- ===== src/SideSwitch/BankActions.antt =====
-- src/side_switch.c: where the actions that change the bank go, and what they tell the host.
use midi_fighter_twister_ope.Base.{
  ℕ, zero, suc, ◌+◌, ◌-◌, ◌%◌, ◌<◌, ◌≡◌, refl, subst, ◌∙◌, arith, Bool, true, false, Option, none,
  some, [], ◌∷◌, ◌++◌, ltb, ◌==◌, if◌then◌else◌,
}
use midi_fighter_twister_ope.Midi.{midi_stream_raw_cc}
use midi_fighter_twister_ope.NativeMode.{native_mode_process_side_switch_pressed}
use midi_fighter_twister_ope.Encoders.BankRange.{
  change_encoder_bank-Changes, refresh_display-Changes,
}
use midi_fighter_twister_ope.Device.{
  Device, SideSwAction, current_encoder_bank, send, reset_idle_timer, bank_change_animation,
  sw_down, global_bank_up, global_bank_down, global_bank_1, global_bank_2, global_bank_3,
  global_bank_4, bank_select, cc_hold_ss, cc_toggle_ss, note_hold_ss, note_toggle_ss, shift_page_1,
  shift_page_2, shift_page_1_toggle, shift_page_2_toggle, no_action, global_bank_5, global_bank_6,
  global_bank_7, global_bank_8, cycle_bank,
}
use midi_fighter_twister_ope.SideSwitch.{
  animate, go_to_next, go_to, next_bank_up, next_bank_down, next_bank_cycle, side_switch_action,
  act, act_unless, do_side_switch_function,
}

-- The bank that an action goes to from bank `b`, if it goes to one.
unfoldable pub target : SideSwAction → ℕ → Option ℕ
target global_bank_up b = if b == 7 then none else some (b + 1)
target global_bank_down b = if b == 0 then none else some (b - 1)
target global_bank_1 b = some 0
target global_bank_2 b = some 1
target global_bank_3 b = some 2
target global_bank_4 b = some 3
target global_bank_5 b = some 4
target global_bank_6 b = some 5
target global_bank_7 b = some 6
target global_bank_8 b = some 7
target cycle_bank b = some ((b + 1) % 8)
target _ b = none

-- `e` is in bank `t`, and told the host that the bank of `d` is left and that `t` is entered.
pub record HasGone (t : ℕ) (d e : Device) : Type 0 where
  pub bank : current_encoder_bank e ≡ t
  pub told :
      e.sent
      ≡ (d.sent ++ midi_stream_raw_cc d.midi_system_channel (current_encoder_bank d) 0 ∷ [])
        ++ midi_stream_raw_cc d.midi_system_channel t 127 ∷ []
  pub native : e.native ≡ d.native
  pub actions : e.side.sw_action ≡ d.side.sw_action

-- An animation sends nothing.
record IsSilent (d e : Device) : Type 0 where
  encoders : e.encoders ≡ d.encoders
  sent : e.sent ≡ d.sent
  channel : e.midi_system_channel ≡ d.midi_system_channel
  native : e.native ≡ d.native
  actions : e.side.sw_action ≡ d.side.sw_action

animate-IsSilent : (bank : ℕ) (d : Device) → IsSilent d (animate bank d)
unfolding animate bank_change_animation
animate-IsSilent bank d = record {
  encoders = ground arith;
  sent = ground arith;
  channel = ground arith;
  native = ground arith;
  actions = ground arith;
}

go_to_next-HasGone : (bank : ℕ) (d : Device) → HasGone bank d (go_to_next bank d)
unfolding go_to_next
go_to_next-HasGone bank d =
    let left = send (midi_stream_raw_cc d.midi_system_channel (current_encoder_bank d) 0) d in
    let a = animate-IsSilent bank left in
    let c = change_encoder_bank-Changes bank (animate bank left).encoders in
    record {
      bank = c.new_bank;
      told = rw (c.new_bank, a.sent, a.channel) refl;
      native = a.native;
      actions = a.actions;
    }

go_to-HasGone : (bank : ℕ) (d : Device) → HasGone bank d (go_to bank sw_down d)
unfolding go_to
go_to-HasGone bank d =
    let channel = d.midi_system_channel in
    let left =
      send (midi_stream_raw_cc channel bank 127)
        (send (midi_stream_raw_cc channel (current_encoder_bank d) 0) d) in
    let a = animate-IsSilent bank left in
    let c = change_encoder_bank-Changes bank (animate bank left).encoders in
    record { bank = c.new_bank; told = a.sent; native = a.native; actions = a.actions }

up_target :
    (b t : ℕ)
    → b < 8
    → (if b == 7 then none else some (b + 1)) ≡ some t
    → (ltb b 7 ≡ true) × (next_bank_up b ≡ t)
unfolding next_bank_up
up_target b t h e = ground arith

down_target :
    (b t : ℕ)
    → b < 8
    → (if b == 0 then none else some (b - 1)) ≡ some t
    → (ltb 0 b ≡ true) × (next_bank_down b ≡ t)
unfolding next_bank_down
down_target b t h e = ground arith

cycle_target : (b t : ℕ) → b < 8 → some ((b + 1) % 8) ≡ some t → next_bank_cycle b ≡ t
unfolding next_bank_cycle
cycle_target b t h e = ground arith

reached : (k t : ℕ) (d : Device) → some k ≡ some t → HasGone t d (go_to k sw_down d)
reached k t d e =
    let same : k ≡ t = ground arith in
    subst (λ v. HasGone v d (go_to k sw_down d)) same (go_to-HasGone k d)

go_if :
    (b : Bool) (v t : ℕ) (d : Device)
    → b ≡ true
    → v ≡ t
    → HasGone t d (if b then go_to_next v d else d)
go_if true v t d h e = subst (λ w. HasGone w d (go_to_next v d)) e (go_to_next-HasGone v d)
go_if false v t d h e = absurd (ground arith)

-- Each of these actions goes where `target` says.
side_switch_action-HasGone :
    (a : SideSwAction) (n bank t : ℕ) (d : Device)
    → current_encoder_bank d < 8
    → target a (current_encoder_bank d) ≡ some t
    → HasGone t d (side_switch_action a n sw_down bank d)
unfolding target side_switch_action
side_switch_action-HasGone global_bank_1 n bank t d h e = reached 0 t d e
side_switch_action-HasGone global_bank_2 n bank t d h e = reached 1 t d e
side_switch_action-HasGone global_bank_3 n bank t d h e = reached 2 t d e
side_switch_action-HasGone global_bank_4 n bank t d h e = reached 3 t d e
side_switch_action-HasGone global_bank_5 n bank t d h e = reached 4 t d e
side_switch_action-HasGone global_bank_6 n bank t d h e = reached 5 t d e
side_switch_action-HasGone global_bank_7 n bank t d h e = reached 6 t d e
side_switch_action-HasGone global_bank_8 n bank t d h e = reached 7 t d e
side_switch_action-HasGone global_bank_up n bank t d h e =
    let (may, next) = up_target (current_encoder_bank d) t h e in go_if _ _ t d may next
side_switch_action-HasGone global_bank_down n bank t d h e =
    let (may, next) = down_target (current_encoder_bank d) t h e in go_if _ _ t d may next
side_switch_action-HasGone cycle_bank n bank t d h e =
    go_if true _ t d refl (cycle_target (current_encoder_bank d) t h e)
side_switch_action-HasGone bank_select n bank t d h e = absurd (ground arith)
side_switch_action-HasGone cc_hold_ss n bank t d h e = absurd (ground arith)
side_switch_action-HasGone cc_toggle_ss n bank t d h e = absurd (ground arith)
side_switch_action-HasGone note_hold_ss n bank t d h e = absurd (ground arith)
side_switch_action-HasGone note_toggle_ss n bank t d h e = absurd (ground arith)
side_switch_action-HasGone shift_page_1 n bank t d h e = absurd (ground arith)
side_switch_action-HasGone shift_page_2 n bank t d h e = absurd (ground arith)
side_switch_action-HasGone shift_page_1_toggle n bank t d h e = absurd (ground arith)
side_switch_action-HasGone shift_page_2_toggle n bank t d h e = absurd (ground arith)
side_switch_action-HasGone no_action n bank t d h e = absurd (ground arith)

-- Outside the native mode, a press of a side switch whose action goes to a bank changes to that bank, and sends
-- the host two control changes: that the old bank is off, then that the new one is on. This
-- holds of all eleven actions, though the code sends at different moments.
pub do_side_switch_function-HasGone :
    (n t : ℕ) (d : Device)
    → d.native.is_active ≡ false
    → current_encoder_bank d < 8
    → target (d.side.sw_action n) (current_encoder_bank d) ≡ some t
    → HasGone t d (do_side_switch_function n sw_down d)
unfolding do_side_switch_function act act_unless native_mode_process_side_switch_pressed
    reset_idle_timer
do_side_switch_function-HasGone n t d off h e =
    let r : Device = reset_idle_timer d in
    let same : current_encoder_bank r ≡ current_encoder_bank d =
      (refresh_display-Changes d.encoders).new_bank in
    let quiet : native_mode_process_side_switch_pressed d.native n true ≡ none = rw off refl in
    let g =
      side_switch_action-HasGone (d.side.sw_action n) n
        (if d.side.side_is_banked then current_encoder_bank r else 0) t r (rw same h) (rw same e) in
    rw quiet
      record { bank = g.bank; told = g.told ∙ rw same refl; native = g.native; actions = g.actions }

-- `k` presses of side switch `n`.
unfoldable pub press : ℕ → ℕ → Device → Device
press n zero d = d
press n (suc k) d = press n k (do_side_switch_function n sw_down d)

-- Outside the native mode, `k` presses of a side switch with the action `CYCLE_BANK` take the device `k` banks
-- further, counted round the eight, so that any bank is reached by less than eight of them.
press-cycle_bank :
    (n k : ℕ) (d : Device)
    → d.side.sw_action n ≡ cycle_bank
    → d.native.is_active ≡ false
    → current_encoder_bank d < 8
    → current_encoder_bank (press n k d) ≡ (current_encoder_bank d + k) % 8
unfolding press target
press-cycle_bank n zero d a off h = omega arith
press-cycle_bank n (suc k) d a off h =
    let next : ℕ = (current_encoder_bank d + 1) % 8 in
    let g = do_side_switch_function-HasGone n next d off h (rw a refl) in
    press-cycle_bank n k (do_side_switch_function n sw_down d) (rw g.actions a) (rw g.native off)
      (rw g.bank (omega arith))
    ∙ rw g.bank (omega arith)
