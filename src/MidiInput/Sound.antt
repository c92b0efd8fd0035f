-- ===== src/MidiInput/Sound.antt =====
-- src/midi.c: what a packet of the host leaves of the device.
use midi_fighter_twister_ope.Base.{
  ℕ, ◌<◌, ◌≡◌, refl, ◌∙◌, Yields, Yields-some, Yields-none, Yields-if, Yields-bind, arith, Bool,
  true, false, ◌&&◌, ltb, ◌==◌, if◌then◌else◌, bit_and,
}
use midi_fighter_twister_ope.Midi.{EventPacket}
use midi_fighter_twister_ope.Sysex
use midi_fighter_twister_ope.NativeMode.{State, native_mode_consume_midi_event}
use midi_fighter_twister_ope.Encoders.{send_note, send_cc}
use midi_fighter_twister_ope.Quadrature.{EncoderInput}
use midi_fighter_twister_ope.Device.{Device, num_banks}
use midi_fighter_twister_ope.Device.Sound.{IsSound, Leaves, leaves, change_bank-Leaves}
use midi_fighter_twister_ope.EncoderSwitch.Sound.{with_keys-Leaves, when-Leaves}
use midi_fighter_twister_ope.Feedback.{send_note_off}
use midi_fighter_twister_ope.Feedback.Mapping.{override_shift, element_unless, process_element_midi}
use midi_fighter_twister_ope.Feedback.Sound.{match_from-Leaves}
use midi_fighter_twister_ope.MidiInput.{
  MidiDevice, midi_clock_enable, real_time, midi_clock, real_time_start, real_time_stop, host_bank,
  element_event, process_midi_packet,
}

-- What every step keeps.
pub record Stays (d e : Device) : Type 0 where
  pub same_settings : e.encoders.encoder_settings ≡ d.encoders.encoder_settings
  pub sound : IsSound d → IsSound e

pub stays : (d e : Device) → Leaves d e → Stays d e
stays d e h = record { same_settings = h.same_settings; sound = h.sound }

override_shift-Stays :
    (number value : ℕ) (d : Device) → Yields (Stays d) (override_shift number value d)
unfolding override_shift
override_shift-Stays number value d =
    Yields-if _ _ _ _ (Yields-some _ d (stays d d (leaves d)))
      (Yields-if _ _ _ _ (Yields-none _) (Yields-some _ _ (stays d _ (with_keys-Leaves _ d))))

module _ (inputs : ℕ → EncoderInput) (channel type number value : ℕ) (d : Device)
    (small : value < 128) where
  native-Stays : (native : State) → Stays d (record d { native = native })
  native-Stays native = record {
    same_settings = refl;
    sound = λ h. record {
      bank = h.bank;
      values = h.values;
      running = h.running;
      animated = h.animated;
    };
  }

  element_unless-Stays :
      (taken : Bool × State)
      → Yields (Stays d) (element_unless taken inputs channel type number value d)
  unfolding element_unless
  element_unless-Stays taken = Yields-if _ taken.0 _ _ (Yields-some _ _ (native-Stays taken.1)) (
      Yields-if _ _ _ _
        (Yields-if _ _ _ _ (override_shift-Stays number value d)
          (Yields-some _ d (stays d d (leaves d))))
        (Yields-some _ _
          (stays d _ (match_from-Leaves inputs channel type number value small 128 0 d))))

  process_element_midi-Stays :
      Yields (Stays d) (process_element_midi inputs channel type number value d)
  unfolding process_element_midi
  process_element_midi-Stays =
      Yields-bind (Stays d) (native_mode_consume_midi_event d.native type channel number value) _
        (λ taken e. element_unless-Stays taken)

host_bank-Leaves :
    (channel number value : ℕ) (d : Device) → Leaves d (host_bank channel number value d)
unfolding host_bank
host_bank-Leaves channel number value d =
    when-Leaves ((channel == d.midi_system_channel) && ltb number num_banks && (value == 127)) _ d
      (λ e. change_bank-Leaves number d (ground arith)) (leaves d)

after_both : {d e f : Device} → Stays d e → Stays e f → Stays d f
after_both a b = record {
  same_settings = b.same_settings ∙ a.same_settings;
  sound = λ h. b.sound (a.sound h);
}

element_event-Stays :
    (inputs : ℕ → EncoderInput) (p : EventPacket) (d : Device)
    → p.data3 < 128
    → Yields (Stays d) (element_event inputs p d)
unfolding element_event
element_event-Stays inputs p d small =
    let channel : ℕ = bit_and p.data1 0x0f in
    let banked = host_bank channel p.data2 p.data3 d in
    let control = process_element_midi-Stays inputs channel send_cc p.data2 p.data3 d small in
    Yields-if (Stays d) _ _ _
      (λ e k.
        after_both (stays d banked (host_bank-Leaves channel p.data2 p.data3 d))
          (process_element_midi-Stays inputs channel send_note p.data2 p.data3 banked small e k))
      (Yields-if (Stays d) _ _ _
        (process_element_midi-Stays inputs channel send_note_off p.data2 p.data3 d small)
        (Yields-if (Stays d) _ _ _
          (Yields-bind (Stays d) (process_element_midi inputs channel send_cc p.data2 p.data3 d) _
            (λ f k.
              Yields-some (Stays d) _ (
                after_both (control f k) (stays f _ (host_bank-Leaves channel p.data2 p.data3 f)))))
          (Yields-some (Stays d) d (stays d d (leaves d)))))

-- The clock has its own counter in the device only.
counter-Stays : (n : ℕ) (d : Device) → Stays d (record d { animation_counter = n })
counter-Stays n d = record {
  same_settings = refl;
  sound =
      λ h. record { bank = h.bank; values = h.values; running = h.running; animated = h.animated };
}

if-device :
    {d : Device} (b : Bool) (x y : MidiDevice)
    → Stays d x.device
    → Stays d y.device
    → Stays d (if b then x else y).device
if-device true x y h k = h
if-device false x y h k = k

real_time-Stays :
    (count message : ℕ) (m : MidiDevice) → Stays m.device (real_time count message m).device
unfolding real_time midi_clock real_time_start real_time_stop
real_time-Stays count message m =
    let same = stays m.device m.device (leaves m.device) in
    let started = midi_clock_enable true (real_time_start m) in
    let stopped = midi_clock_enable false (real_time_stop m) in
    let rest = if message == 252 then stopped else m in
    if-device (message == 248) (midi_clock count (midi_clock_enable true m))
      (if message == 250 then started else rest) (counter-Stays _ m.device)
      (if-device (message == 250) started rest same
        (if-device (message == 252) stopped m same same))

pub process_midi_packet-Stays :
    (count : ℕ) (inputs : ℕ → EncoderInput) (p : EventPacket) (m : MidiDevice)
    → p.data3 < 128
    → Yields (λ r. Stays m.device r.0.device) (process_midi_packet count inputs p m)
unfolding process_midi_packet
process_midi_packet-Stays count inputs p m small =
    let P : MidiDevice × Sysex.Action → Type 0 = λ r. Stays m.device r.0.device in
    Yields-if P _ _ _ (Yields-some P _ (real_time-Stays count p.data1 m)) (
      Yields-if P _ _ _
        (Yields-bind P (Sysex.sysex_packet p m.receiver) _
          (λ r k. Yields-some P _ (stays m.device m.device (leaves m.device))))
        (Yields-bind P (element_event inputs p m.device) _
          (λ d k. Yields-some P _ (element_event-Stays inputs p m.device small d k))))
