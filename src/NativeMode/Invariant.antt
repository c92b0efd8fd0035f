-- ===== src/NativeMode/Invariant.antt =====
-- src/native_mode.c: the arrays of the state keep their sizes, and the messages that go beyond one.
use midi_fighter_twister_ope.Base.{
  ℕ, ◌<◌, ◌≤◌, ◌≡◌, ◌⊎◌, ◌≢◌, refl, ◌∙◌, true, false, not, none, some, List, [], ◌∷◌, arith, ltb,
  ◌==◌, get_or, set, length-set, get_or-set_self, drop, All, Bool-cases, inl, inr,
}
use midi_fighter_twister_ope.NativeMode.{
  State, send_cc, is_sysex_byte_valid_bool, native_mode_handle_sysex_command,
  native_mode_handle_sysex_enc_config, native_mode_handle_sysex_set_native_mode,
  native_mode_consume_midi_event,
}
use midi_fighter_twister_ope.NativeMode.Parsing.{IsSound, indices, SoundResult, parse_items-IsSound}
use midi_fighter_twister_ope.NativeMode.Switching.{enter_or_leave-IsSwitched}

set-IsSound :
    (rest : List ℕ) (s : State)
    → IsSound s
    → IsSound (native_mode_handle_sysex_set_native_mode s rest).state
unfolding native_mode_handle_sysex_set_native_mode
set-IsSound [] s h = h
set-IsSound (value ∷ []) s h = elim (Bool-cases (is_sysex_byte_valid_bool value)) [
  | inl valid ↦ rw valid (enter_or_leave-IsSwitched (not (value == 0)) s h).sound
  | inr wrong ↦ rw wrong h
]
set-IsSound (value ∷ a ∷ rest) s h = h

-- A message of any length and content has a result, and keeps the sizes of the arrays, unless an index in it
-- is 16.
pub native_mode_handle_sysex_command-IsSound :
    (buffer : List ℕ) (s : State)
    → IsSound s
    → All (λ i. i ≢ 16) (indices (drop 1 buffer))
    → SoundResult (native_mode_handle_sysex_command s buffer)
unfolding native_mode_handle_sysex_command native_mode_handle_sysex_enc_config
native_mode_handle_sysex_command-IsSound [] s h ne = (_, (refl, h))
native_mode_handle_sysex_command-IsSound (command ∷ rest) s h ne =
    elim (Bool-cases (command == 0)) [
      | inl first ↦
          (native_mode_handle_sysex_set_native_mode s rest, (simp first refl, set-IsSound rest s h))
      | inr other ↦ elim (Bool-cases (command == 1)) [
        | inl second ↦ elim (Bool-cases s.is_active) [
          | inl active ↦
              let (o, (e, sound)) = parse_items-IsSound rest s h ne in
              (o, (simp (other, second, active) e, sound))
          | inr idle ↦
              (record { state = s; refreshed = false }, (simp (other, second, idle) refl, h))
        ]
        | inr unknown ↦ (record { state = s; refreshed = false }, (simp (other, unknown) refl, h))
      ]
    ]

-- In the active mode a controller message on channel 0 for one of the 16 encoders sets its value; one
-- for a number from 16 to 127 writes beyond the buffer.
native_mode_consume_midi_event_lem :
    (s : State) (number value : ℕ)
    → IsSound s
    → s.is_active ≡ true
    → number < 128
    → ((number < 16)
        × ((t : State) × ((native_mode_consume_midi_event s send_cc 0 number value ≡ some (true, t))
              × (IsSound t × (get_or t.indicator_value_buffer number 0 ≡ value)))))
      ⊎ ((16 ≤ number) × (native_mode_consume_midi_event s send_cc 0 number value ≡ none))
unfolding native_mode_consume_midi_event
native_mode_consume_midi_event_lem s number value h active b = elim (Bool-cases (ltb number 16)) [
  | inl within ↦ inl (
    ground arith,
    (
      record s { indicator_value_buffer = set s.indicator_value_buffer number value },
      (
        simp active (ground arith),
        (
          record {
            indicators = h.indicators;
            switches = h.switches;
            values = length-set s.indicator_value_buffer number value ∙ h.values;
          },
          get_or-set_self s.indicator_value_buffer number value 0 (ground (arith, h.values)),
        ),
      ),
    ),
  )
  | inr beyond ↦ inr (ground arith, simp active (ground arith))
]
