-- ===== src/SideSwitch.antt =====
-- src/side_switch.c: the six side switches and their actions. `pulse_animation` and the overlay only draw.
pub mod Frame
pub mod Combo
pub mod BankActions
use midi_fighter_twister_ope.Base.{
  ℕ, zero, suc, ◌+◌, ◌-◌, ◌*◌, Bool, true, false, not, ◌&&◌, Option, none, some, ltb, leb, ◌==◌,
  if◌then◌else◌, u8, ◌<<<◌, bit_and, bit_xor,
}
use midi_fighter_twister_ope.Midi.{EventPacket, midi_stream_raw_cc, midi_stream_raw_note}
use midi_fighter_twister_ope.NativeMode.{
  native_mode_process_side_switch_pressed, native_mode_toggle,
}
use midi_fighter_twister_ope.Encoders.{assign}
use midi_fighter_twister_ope.Switches.{update_side_switch_state}
use midi_fighter_twister_ope.Device.{
  Device, OpMode, SideSwAction, SwitchEvent, num_banks, current_encoder_bank, send, change_bank,
  refresh, reset_idle_timer, reset_pulse_animation, bank_change_animation, sw_up, sw_down, sw_held,
  normal, shift1, shift2, cc_hold_ss, cc_toggle_ss, note_hold_ss, note_toggle_ss, shift_page_1,
  shift_page_2, shift_page_1_toggle, shift_page_2_toggle, global_bank_up, global_bank_down,
  bank_select, global_bank_1, global_bank_2, global_bank_3, global_bank_4, global_bank_5,
  global_bank_6, global_bank_7, global_bank_8, cycle_bank,
}

-- `SIDE_SWITCH_OFFSET + switch_num + (bank*6)`.
abbrev pub side_switch_number : ℕ → ℕ → ℕ
side_switch_number switch_num bank = u8 (8 + switch_num + bank * 6)

abbrev pub send_system_cc : ℕ → ℕ → Device → Device
send_system_cc number value d = send (midi_stream_raw_cc d.midi_system_channel number value) d

abbrev pub send_system_note : ℕ → Bool → ℕ → Device → Device
send_system_note number on velocity d =
    send (midi_stream_raw_note d.midi_system_channel number on velocity) d

abbrev pub set_op_mode : OpMode → Device → Device
set_op_mode new_mode d = record d { mode = new_mode }

-- `side_switch_toggle_state[bank] ^= bit`.
unfoldable pub toggle : ℕ → ℕ → Device → Device
toggle switch_num bank d =
    let table = d.side.side_switch_toggle_state in
    record d {
      side = record d.side {
        side_switch_toggle_state = assign table bank (bit_xor (table bank) (u8 (1 <<< switch_num)));
      };
    }

unfoldable pub is_toggled : ℕ → ℕ → Device → Bool
is_toggled switch_num bank d =
    not (bit_and (d.side.side_switch_toggle_state bank) (u8 (1 <<< switch_num)) == 0)

-- `if (global_bank_animations_enabled) bank_change_animation(bank)`.
unfoldable pub animate : ℕ → Device → Device
unfolding bank_change_animation
animate bank d = if d.global_bank_animations_enabled then bank_change_animation bank d else d

-- What `GLOBAL_BANK_UP`, `GLOBAL_BANK_DOWN` and `CYCLE_BANK` do with `next_bank`.
unfoldable pub go_to_next : ℕ → Device → Device
go_to_next next_bank d =
    let changed =
      change_bank next_bank (animate next_bank (send_system_cc (current_encoder_bank d) 0 d)) in
    send_system_cc (current_encoder_bank changed) 127 changed

-- `GLOBAL_BANK_1` and on; `bank` is below `num_banks`.
unfoldable pub go_to : ℕ → SwitchEvent → Device → Device
go_to bank sw_down d =
    change_bank bank
      (animate bank (send_system_cc bank 127 (send_system_cc (current_encoder_bank d) 0 d)))
go_to bank sw_up d = d
go_to bank sw_held d = d

unfoldable pub shift_page : OpMode → SwitchEvent → Device → Device
shift_page page sw_down d = set_op_mode page d
shift_page page sw_up d = set_op_mode normal (refresh d)
shift_page page sw_held d = d

-- `get_op_mode() == page`.
abbrev is_page : OpMode → OpMode → Bool
is_page shift1 shift1 = true
is_page shift2 shift2 = true
is_page _ _ = false

unfoldable pub shift_page_toggle : OpMode → SwitchEvent → Device → Device
shift_page_toggle page sw_down d =
    if is_page page d.mode then set_op_mode normal (refresh d) else set_op_mode page d
shift_page_toggle page sw_up d = d
shift_page_toggle page sw_held d = d

unfoldable pub next_bank_up : ℕ → ℕ
next_bank_up bank = if leb num_banks (bank + 1) then 7 else bank + 1

unfoldable pub next_bank_down : ℕ → ℕ
next_bank_down bank = if leb num_banks (bank - 1) then 0 else bank - 1

unfoldable pub next_bank_cycle : ℕ → ℕ
next_bank_cycle bank = if leb 7 bank then 0 else bank + 1

unfoldable pub bank_selecting : SwitchEvent → Device → Device
bank_selecting sw_down d = reset_pulse_animation record d {
  side = record d.side { bank_select_active = true; bank_select_origin = current_encoder_bank d };
}
bank_selecting sw_up d = refresh record d { side = record d.side { bank_select_active = false } }
bank_selecting sw_held d = d

-- The switch on the action, with `bank` the one that the switch belongs to.
unfoldable pub side_switch_action : SideSwAction → ℕ → SwitchEvent → ℕ → Device → Device
unfolding toggle is_toggled
side_switch_action cc_hold_ss n sw_down bank d = send_system_cc (side_switch_number n bank) 127 d
side_switch_action cc_hold_ss n sw_up bank d = send_system_cc (side_switch_number n bank) 0 d
side_switch_action cc_toggle_ss n sw_down bank d =
    let toggled = toggle n bank d in
    send_system_cc (side_switch_number n bank) (if is_toggled n bank toggled then 127 else 0)
      toggled
side_switch_action note_hold_ss n sw_down bank d =
    send_system_note (side_switch_number n bank) true 127 d
side_switch_action note_hold_ss n sw_up bank d =
    send_system_note (side_switch_number n bank) false 0 d
side_switch_action note_toggle_ss n sw_down bank d =
    let toggled = toggle n bank d in
    let on = is_toggled n bank toggled in
    send_system_note (side_switch_number n bank) on (if on then 127 else 0) toggled
side_switch_action shift_page_1 n event bank d = shift_page shift1 event d
side_switch_action shift_page_2 n event bank d = shift_page shift2 event d
side_switch_action shift_page_1_toggle n event bank d = shift_page_toggle shift1 event d
side_switch_action shift_page_2_toggle n event bank d = shift_page_toggle shift2 event d
side_switch_action global_bank_up n sw_down bank d =
    let current = current_encoder_bank d in
    if ltb current 7 then go_to_next (next_bank_up current) d else d
side_switch_action global_bank_down n sw_down bank d =
    let current = current_encoder_bank d in
    if ltb 0 current then go_to_next (next_bank_down current) d else d
side_switch_action bank_select n event bank d = bank_selecting event d
side_switch_action global_bank_1 n event bank d = go_to 0 event d
side_switch_action global_bank_2 n event bank d = go_to 1 event d
side_switch_action global_bank_3 n event bank d = go_to 2 event d
side_switch_action global_bank_4 n event bank d = go_to 3 event d
side_switch_action global_bank_5 n event bank d = go_to 4 event d
side_switch_action global_bank_6 n event bank d = go_to 5 event d
side_switch_action global_bank_7 n event bank d = go_to 6 event d
side_switch_action global_bank_8 n event bank d = go_to 7 event d
side_switch_action cycle_bank n sw_down bank d =
    go_to_next (next_bank_cycle (current_encoder_bank d)) d
side_switch_action _ n event bank d = d

-- The action of switch `n`, in the bank that it belongs to.
unfoldable pub act : ℕ → SwitchEvent → Device → Device
act n event d =
    let bank : ℕ = if d.side.side_is_banked then current_encoder_bank d else 0 in
    side_switch_action (d.side.sw_action n) n event bank d

-- Behind `native_mode_process_side_switch_pressed`: the packet that it sent, if it took the event.
unfoldable pub act_unless : Option EventPacket → ℕ → SwitchEvent → Device → Device
act_unless (some p) n event d = send p d
act_unless none n event d = act n event d

unfoldable pub do_side_switch_function : ℕ → SwitchEvent → Device → Device
unfolding reset_idle_timer
do_side_switch_function n sw_held d = act n sw_held d
do_side_switch_function n sw_down d =
    act_unless (native_mode_process_side_switch_pressed d.native n true) n sw_down
      (reset_idle_timer d)
do_side_switch_function n sw_up d =
    act_unless (native_mode_process_side_switch_pressed d.native n false) n sw_up
      (reset_idle_timer d)

-- The body of the loop of `process_side_switch_input`, for the switch of `mask`.
unfoldable pub one_side_switch : ℕ → ℕ → Device → Device
one_side_switch n mask d =
    let input = d.side.input in
    if not (bit_and input.switch_down mask == 0)
    then do_side_switch_function n sw_down d
    else if not (bit_and input.switch_up mask == 0)
    then do_side_switch_function n sw_up d
    else if not (bit_and input.switch_state mask == 0)
    then do_side_switch_function n sw_held d
    else d

-- The loop, with `k` rounds left.
unfoldable pub each_side_switch : ℕ → ℕ → ℕ → Device → Device
each_side_switch zero n mask d = d
each_side_switch (suc k) n mask d =
    each_side_switch k (n + 1) (u8 (mask * 2)) (one_side_switch n mask d)

abbrev pub native_mode_toggle_combo : ℕ
native_mode_toggle_combo = 0x24

-- Whether both switches of the combination are in `state`.
abbrev pub is_combo : ℕ → Bool
is_combo state = bit_and state native_mode_toggle_combo == native_mode_toggle_combo

-- `native_mode_toggle()`, with the display that it refreshes.
unfoldable pub toggle_native_mode : Device → Device
toggle_native_mode d =
    let out = native_mode_toggle d.native in
    let toggled = record d { native = out.state } in
    if out.refreshed then refresh toggled else toggled

abbrev pub remember : Device → Device
remember d = record d {
  side = record d.side { prev_side_switch_state = d.side.input.switch_state };
}

-- `level i` is the level of the pin of side switch `i`.
unfoldable pub process_side_switch_input : (ℕ → Bool) → Device → Device
process_side_switch_input level d =
    let input = update_side_switch_state level d.side.input in
    let updated = record d { side = record d.side { input = input } } in
    if is_combo input.switch_state
    then remember
        (if is_combo d.side.prev_side_switch_state then updated else toggle_native_mode updated)
    else remember (each_side_switch 6 0 1 updated)
