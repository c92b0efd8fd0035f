-- ===== src/EncoderSwitch/Sound.antt =====
-- src/encoders.c: what the encoders and their switches leave of the device: the settings, the native mode, the
-- side switches, and what holds of it at all times.
use midi_fighter_twister_ope.Base.{
  ℕ, ◌%◌, ◌<◌, ◌≡◌, refl, arith, Bool, true, false, not, ◌&&◌, ltb, ◌==◌, if◌then◌else◌,
}
use midi_fighter_twister_ope.Midi.{midi_stream_raw_cc}
use midi_fighter_twister_ope.Encoders.{Encoders}
use midi_fighter_twister_ope.Encoders.BankRange.{InRange}
use midi_fighter_twister_ope.Device.{Device, EncoderSwitches, num_banks, send}
use midi_fighter_twister_ope.Device.Sound.{
  Leaves, leaves, after_both, if-Leaves, send-Leaves, change_bank-Leaves,
  bank_change_animation-Leaves,
}
use midi_fighter_twister_ope.EncoderSwitch.{
  with_keys, with_encoders, direct_bank_change, send_switch_cc, send_switch_midi, switch_to_state,
  show_shift, toggle_shift, select_bank,
}

-- Other tables of the encoders, in the same bank, with the same settings and with values in range.
pub with_encoders-Leaves :
    (s : Encoders) (d : Device)
    → s.encoder_settings ≡ d.encoders.encoder_settings
    → s.encoder_bank ≡ d.encoders.encoder_bank
    → (InRange d.encoders → InRange s)
    → Leaves d (with_encoders s d)
with_encoders-Leaves s d e f r = record {
  same_native = refl;
  same_settings = e;
  same_actions = refl;
  same_input = refl;
  same_previous = refl;
  same_channel = refl;
  sound = λ h. record {
    bank = rw f h.bank;
    values = r h.values;
    running = h.running;
    animated = h.animated;
  };
}

pub with_keys-Leaves : (keys : EncoderSwitches) (d : Device) → Leaves d (with_keys keys d)
with_keys-Leaves keys d = record {
  same_native = refl;
  same_settings = refl;
  same_actions = refl;
  same_input = refl;
  same_previous = refl;
  same_channel = refl;
  sound =
      λ h. record { bank = h.bank; values = h.values; running = h.running; animated = h.animated };
}

-- As `if-Leaves`, for a branch that relies on the test.
pub when-Leaves :
    {d : Device} (b : Bool) (x y : Device)
    → (b ≡ true → Leaves d x)
    → Leaves d y
    → Leaves d (if b then x else y)
when-Leaves true x y h k = h refl
when-Leaves false x y h k = k

bank_number : (a b : Bool) (n : ℕ) → a && b && ltb n num_banks ≡ true → n < 8
bank_number a b n e = ground arith

direct_bank_change-Leaves :
    (banked : ℕ) (d : Device)
    → (d.encoders.encoder_settings banked).switch_midi_number < 8
    → Leaves d (direct_bank_change banked d)
unfolding direct_bank_change
direct_bank_change-Leaves banked d h = after_both (with_keys-Leaves _ d) (change_bank-Leaves _ _ h)

send_switch_cc-Leaves :
    (banked value adj : ℕ) (d : Device) → Leaves d (send_switch_cc banked value adj d)
unfolding send_switch_cc
send_switch_cc-Leaves banked value adj d =
    let cfg = d.encoders.encoder_settings banked in
    let sent = send (midi_stream_raw_cc cfg.switch_midi_channel cfg.switch_midi_number adj) d in
    let first =
      send-Leaves (midi_stream_raw_cc cfg.switch_midi_channel cfg.switch_midi_number adj) d in
    when-Leaves
      (not (value == 0)
        && (cfg.switch_midi_channel == d.midi_system_channel)
        && ltb cfg.switch_midi_number num_banks)
      (direct_bank_change banked sent) sent
      (λ e. after_both first (
        direct_bank_change-Leaves banked sent (
          bank_number (not (value == 0)) (cfg.switch_midi_channel == d.midi_system_channel)
            cfg.switch_midi_number e)))
      first

pub send_switch_midi-Leaves :
    (banked value : ℕ) (state : Bool) (d : Device)
    → Leaves d (send_switch_midi banked value state d)
unfolding send_switch_midi
send_switch_midi-Leaves banked value state d = if-Leaves _ d _ (leaves d) (
    if-Leaves _ _ _ (send_switch_cc-Leaves banked value _ d)
      (if-Leaves _ _ d (send-Leaves _ d) (leaves d)))

pub switch_to_state-Leaves :
    (i banked value : ℕ) (d : Device) → Leaves d (switch_to_state i banked value d)
unfolding switch_to_state
switch_to_state-Leaves i banked value d =
    after_both (with_keys-Leaves _ d) (send_switch_midi-Leaves banked value _ _)

pub show_shift-Leaves :
    (i virt banked : ℕ) (is_on : Bool) (d : Device) → Leaves d (show_shift i virt banked is_on d)
unfolding show_shift
show_shift-Leaves i virt banked is_on d =
    after_both (with_keys-Leaves _ d)
      (after_both (with_encoders-Leaves _ _ refl refl (λ h. h)) (send-Leaves _ _))

pub toggle_shift-Leaves : (i banked mask : ℕ) (d : Device) → Leaves d (toggle_shift i banked mask d)
unfolding toggle_shift
toggle_shift-Leaves i banked mask d =
    after_both (with_encoders-Leaves _ d refl refl (λ h. h)) (show_shift-Leaves i _ banked _ _)

pub select_bank-Leaves : (i : ℕ) (d : Device) → Leaves d (select_bank i d)
unfolding select_bank
select_bank-Leaves i d =
    let below : i % 8 < 8 = omega arith in
    after_both (send-Leaves _ d) (
      after_both (bank_change_animation-Leaves (i % 8) _ below)
        (after_both (change_bank-Leaves (i % 8) _ below) (send-Leaves _ _)))
