-- ===== src/Switches.antt =====
-- src/input.c: the samples of the switches, encoders' and side switches alike, their debouncing, and the
-- edges that are found. The levels of the pins are arguments: a switch that is pressed pulls its pin low.
pub mod Key
pub mod Edges
use midi_fighter_twister_ope.Base.{
  ℕ, zero, suc, ◌+◌, ◌*◌, ◌/◌, ◌%◌, Bool, bit_and, bit_or, bit_xor, if◌then◌else◌, u8,
}
use midi_fighter_twister_ope.Encoders.{assign}

abbrev pub switch_debounce_buffer_size : ℕ
switch_debounce_buffer_size = 10

-- The variables of one group of switches.
pub record SwitchInput : Type 0 where
  pub debounce_buffer : ℕ → ℕ
  pub buffer_pos : ℕ
  pub prev_switch_state : ℕ
  pub switch_state : ℕ
  pub switch_up : ℕ
  pub switch_down : ℕ

-- All of them are 0 when the device starts.
abbrev pub no_switches : SwitchInput
no_switches = record {
  debounce_buffer = λ i. 0;
  buffer_pos = 0;
  prev_switch_state = 0;
  switch_state = 0;
  switch_up = 0;
  switch_down = 0;
}

-- The loop of `encoder_scan` that reads the switches, with `n` rounds left: `level i` is the `i`-th level
-- that is shifted out.
unfoldable pub read_switch_register : (ℕ → Bool) → ℕ → ℕ → ℕ → ℕ → ℕ
read_switch_register level zero i mask state = state
read_switch_register level (suc n) i mask state =
    read_switch_register level n (i + 1) (mask / 2) (bit_or state (if level i then 0 else mask))

-- The pins of the side switches, `SIDE_SW1` first, with `n` of them left.
unfoldable pub read_side_switches : (ℕ → Bool) → ℕ → ℕ → ℕ → ℕ → ℕ
read_side_switches level zero i mask state = state
read_side_switches level (suc n) i mask state =
    read_side_switches level n (i + 1) (u8 (mask * 2))
      (if level i then state else bit_or state mask)

-- `debounce_buffer[buffer_pos] = current; buffer_pos = (buffer_pos + 1) % ...`.
unfoldable pub add_sample : ℕ → SwitchInput → SwitchInput
add_sample current s = record s {
  debounce_buffer = assign s.debounce_buffer s.buffer_pos current;
  buffer_pos = (s.buffer_pos + 1) % switch_debounce_buffer_size;
}

-- `for (i = 0; ...) state |= debounce_buffer[i]`, with `n` rounds left.
unfoldable pub or_samples : (ℕ → ℕ) → ℕ → ℕ → ℕ → ℕ
or_samples buffer zero i state = state
or_samples buffer (suc n) i state = or_samples buffer n (i + 1) (bit_or state (buffer i))

unfoldable pub update_encoder_switch_state : SwitchInput → SwitchInput
update_encoder_switch_state s =
    let state = or_samples s.debounce_buffer switch_debounce_buffer_size 0 0 in
    record s {
      switch_state = state;
      switch_up = bit_and (bit_xor s.prev_switch_state state) s.prev_switch_state;
      switch_down = bit_and (bit_xor s.prev_switch_state state) state;
      prev_switch_state = state;
    }

-- What `encoder_scan` does with the switches.
unfoldable pub scan_encoder_switches : (ℕ → Bool) → SwitchInput → SwitchInput
scan_encoder_switches level s = add_sample (read_switch_register level 16 0 0x8000 0) s

unfoldable pub update_side_switch_state : (ℕ → Bool) → SwitchInput → SwitchInput
update_side_switch_state level s =
    update_encoder_switch_state (add_sample (read_side_switches level 6 0 1 0) s)
