-- ===== src/NativeMode.antt =====
-- src/native_mode.c: the mode in which a host owns the displays. Its settings arrive in a system exclusive
-- message of several items, which the handler reads one after the other; `refresh_display` is a flag
-- of the result. An access beyond one of the three arrays of the state is `none`.
pub mod Items
pub mod Parsing
pub mod Switching
pub mod Invariant
use midi_fighter_twister_ope.Base.{
  ℕ, zero, suc, ◌+◌, ◌<<<◌, bit_or, Bool, true, false, not, ◌&&◌, ◌||◌, Option, none, some, List,
  [], ◌∷◌, ltb, leb, ◌==◌, if◌then◌else◌, ◌>>=◌, get_or, set, replicate, length, u8,
}
use midi_fighter_twister_ope.Midi.{EventPacket, midi_stream_raw_cc}

abbrev pub physical_encoders : ℕ
physical_encoders = 16

-- `NUM_DISPLAY_TYPES`.
abbrev pub num_display_types : ℕ
num_display_types = 4

-- `SEND_CC`.
abbrev pub send_cc : ℕ
send_cc = 1

-- `native_mode_enc_indicator_config_t`, `native_mode_enc_switch_config_t`.
pub record IndicatorConfig : Type 0 where
  pub display_type : ℕ
  pub has_detent : ℕ
  pub detent_color : ℕ

pub record SwitchConfig : Type 0 where
  pub color_r : ℕ
  pub color_g : ℕ
  pub color_b : ℕ

-- `native_mode_state_t`.
pub record State : Type 0 where
  pub is_active : Bool
  pub enc_indicator_configs : List IndicatorConfig
  pub enc_switch_configs : List SwitchConfig
  pub indicator_value_buffer : List ℕ

-- What a handler leaves: the state, and whether it asked for the display to be drawn again.
pub record Outcome : Type 0 where
  pub state : State
  pub refreshed : Bool

abbrev pub is_in_range : ℕ → ℕ → ℕ → Bool
is_in_range value low high = leb low value && leb value high

unfoldable pub is_valid_enc_index : ℕ → Bool
is_valid_enc_index value = is_in_range value 0 physical_encoders

unfoldable pub is_valid_enc_indicator_display_type : ℕ → Bool
is_valid_enc_indicator_display_type value = is_in_range value 0 num_display_types

unfoldable pub is_sysex_byte_valid_bool : ℕ → Bool
is_sysex_byte_valid_bool value = (value == 0) || (value == 1)

unfoldable pub is_valid_enc_color : ℕ → Bool
is_valid_enc_color value = is_in_range value 0 0x7f

unfoldable pub native_mode_is_enc_indicator_config_valid : IndicatorConfig → Bool
unfolding is_valid_enc_indicator_display_type is_sysex_byte_valid_bool is_valid_enc_color
native_mode_is_enc_indicator_config_valid config =
    is_valid_enc_indicator_display_type config.display_type
    && is_sysex_byte_valid_bool config.has_detent
    && is_valid_enc_color config.detent_color

unfoldable pub native_mode_is_enc_switch_config_valid : SwitchConfig → Bool
unfolding is_valid_enc_color
native_mode_is_enc_switch_config_valid config =
    is_valid_enc_color config.color_r
    && is_valid_enc_color config.color_g
    && is_valid_enc_color config.color_b

abbrev pub default_indicator_config : IndicatorConfig
default_indicator_config = record { display_type = 0; has_detent = 0; detent_color = 0 }

abbrev pub default_switch_config : SwitchConfig
default_switch_config = record { color_r = 0; color_g = 0; color_b = 0 }

-- A parser returns whether it took the item; `none` is an assignment beyond the array.
unfoldable pub native_mode_parse_sysex_enc_indicator_config : State → List ℕ → Option (Bool × State)
unfolding is_valid_enc_index native_mode_is_enc_indicator_config_valid
native_mode_parse_sysex_enc_indicator_config s
      (index ∷ display_type ∷ has_detent ∷ detent_color ∷ _) =
    let config : IndicatorConfig = record {
      display_type = display_type;
      has_detent = has_detent;
      detent_color = detent_color;
    } in
    if not (is_valid_enc_index index)
    then some (false, s)
    else if not (native_mode_is_enc_indicator_config_valid config)
    then some (false, s)
    else if ltb index physical_encoders
    then some (true, record s { enc_indicator_configs = set s.enc_indicator_configs index config })
    else none
native_mode_parse_sysex_enc_indicator_config s _ = some (false, s)

unfoldable pub native_mode_parse_sysex_enc_switch_config : State → List ℕ → Option (Bool × State)
unfolding is_valid_enc_index native_mode_is_enc_switch_config_valid
native_mode_parse_sysex_enc_switch_config s (index ∷ color_r ∷ color_g ∷ color_b ∷ _) =
    let config : SwitchConfig = record {
      color_r = color_r;
      color_g = color_g;
      color_b = color_b;
    } in
    if not (is_valid_enc_index index)
    then some (false, s)
    else if not (native_mode_is_enc_switch_config_valid config)
    then some (false, s)
    else if ltb index physical_encoders
    then some (true, record s { enc_switch_configs = set s.enc_switch_configs index config })
    else none
native_mode_parse_sysex_enc_switch_config s _ = some (false, s)

-- `for (i = 0; i < PHYSICAL_ENCODERS; i++)`, with `n` rounds left.
unfoldable pub reset_from : ℕ → ℕ → State → State
reset_from zero i s = s
reset_from (suc n) i s = reset_from n (i + 1) record s {
  enc_indicator_configs = set s.enc_indicator_configs i default_indicator_config;
  enc_switch_configs = set s.enc_switch_configs i default_switch_config;
}

abbrev pub native_mode_reset_encoder_configs : State → State
native_mode_reset_encoder_configs s = reset_from physical_encoders 0 s

-- `native_mode_set_active` with what its two callers do if it returns true.
unfoldable pub enter_or_leave : Bool → State → Outcome
enter_or_leave active s =
    let t : State = record s { is_active = active } in
    if (active && s.is_active) || (not active && not s.is_active)
    then record { state = s; refreshed = false }
    else if active
    then record { state = native_mode_reset_encoder_configs t; refreshed = true }
    else record { state = t; refreshed = true }

unfoldable pub native_mode_handle_sysex_set_native_mode : State → List ℕ → Outcome
unfolding enter_or_leave is_sysex_byte_valid_bool
native_mode_handle_sysex_set_native_mode s (value ∷ []) =
    if not (is_sysex_byte_valid_bool value)
    then record { state = s; refreshed = false }
    else enter_or_leave (not (value == 0)) s
native_mode_handle_sysex_set_native_mode s _ = record { state = s; refreshed = false }

unfoldable pub native_mode_toggle : State → Outcome
unfolding enter_or_leave
native_mode_toggle s = enter_or_leave (not s.is_active) s

-- The cases of the switch on the command of an item, with the bytes behind it.
unfoldable pub parse_item : State → ℕ → List ℕ → Option (Bool × State)
unfolding native_mode_parse_sysex_enc_indicator_config native_mode_parse_sysex_enc_switch_config
parse_item s command rest =
    if command == 0
    then native_mode_parse_sysex_enc_indicator_config s rest
    else if command == 1
    then native_mode_parse_sysex_enc_switch_config s rest
    else some (false, s)

-- `while (length > 0)`; an item that is refused ends the handler before it draws the display.
unfoldable pub parse_items : List ℕ → State → Option Outcome
unfolding parse_item
parse_items [] s = some record { state = s; refreshed = true }
parse_items (command ∷ index ∷ x ∷ y ∷ z ∷ rest) s =
    parse_item s command (index ∷ x ∷ y ∷ z ∷ rest) >>= λ p.
    let next = parse_items rest p.1 in
    if p.0 then next else some record { state = p.1; refreshed = false }
parse_items (command ∷ rest) s =
    parse_item s command rest >>= λ p. some record { state = p.1; refreshed = false }

unfoldable pub native_mode_handle_sysex_enc_config : State → List ℕ → Option Outcome
unfolding parse_items
native_mode_handle_sysex_enc_config s buffer =
    if not s.is_active then some record { state = s; refreshed = false } else parse_items buffer s

unfoldable pub native_mode_handle_sysex_command : State → List ℕ → Option Outcome
unfolding native_mode_handle_sysex_set_native_mode native_mode_handle_sysex_enc_config
native_mode_handle_sysex_command s [] = some record { state = s; refreshed = false }
native_mode_handle_sysex_command s (command ∷ rest) =
    if command == 0
    then some (native_mode_handle_sysex_set_native_mode s rest)
    else if command == 1
    then native_mode_handle_sysex_enc_config s rest
    else some record { state = s; refreshed = false }

-- Whether an event was taken, and the state; `none` is a write beyond the buffer.
unfoldable pub native_mode_consume_midi_event : State → ℕ → ℕ → ℕ → ℕ → Option (Bool × State)
native_mode_consume_midi_event s type channel number value =
    if not s.is_active
      || not (type == send_cc)
      || not (channel == 0)
      || not (is_in_range number 0 0x7f)
    then some (false, s)
    else if ltb number physical_encoders
    then some
        (true, record s { indicator_value_buffer = set s.indicator_value_buffer number value })
    else none

-- `native_mode_process_encoder_input_switch_pressed`, `native_mode_process_side_switch_pressed`: the
-- event that is sent, if the input was taken.
unfoldable pub native_mode_process_encoder_input_switch_pressed :
    State → ℕ → Bool → Option EventPacket
unfolding midi_stream_raw_cc
native_mode_process_encoder_input_switch_pressed s idx pressed =
    if s.is_active then some (midi_stream_raw_cc 1 idx (if pressed then 0x7f else 0)) else none

unfoldable pub native_mode_process_side_switch_pressed : State → ℕ → Bool → Option EventPacket
unfolding midi_stream_raw_cc
native_mode_process_side_switch_pressed s idx pressed =
    if s.is_active then some (midi_stream_raw_cc 2 idx (if pressed then 0x7f else 0)) else none
