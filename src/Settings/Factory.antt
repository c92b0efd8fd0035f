-- ===== src/Settings/Factory.antt =====
-- src/encoders.c, `factory_reset_encoder_config`, with the defaults of src/constants.h: a page of
-- four encoders is filled once and then written for each row of each bank, with the colours of the
-- bank, and its MIDI numbers counted up.
use midi_fighter_twister_ope.Base.{
  ℕ, zero, suc, ◌+◌, ◌*◌, ◌/◌, List, [], ◌∷◌, ◌++◌, bit_and, bit_or, u8, ◌<<<◌, get_or, set,
}
use midi_fighter_twister_ope.Nvm.{Nvm}
use midi_fighter_twister_ope.Settings.{EncoderConfig}

abbrev pub num_banks : ℕ
num_banks = 8

-- `enc_default`.
abbrev pub enc_default : EncoderConfig
enc_default = record {
  has_detent = 0;
  movement = 0;
  switch_action_type = 0;
  switch_midi_channel = 1;
  switch_midi_number = 0;
  switch_midi_type = 0;
  encoder_midi_channel = 0;
  encoder_midi_number = 0;
  encoder_midi_type = 1;
  active_color = 51;
  inactive_color = 1;
  detent_color = 63;
  indicator_display_type = 2;
  is_super_knob = 0;
  encoder_shift_midi_channel = 4;
}

abbrev pub active_colors : List ℕ
active_colors = 25 ∷ 25 ∷ 25 ∷ 25 ∷ 25 ∷ 25 ∷ 25 ∷ 25 ∷ []

abbrev pub inactive_colors : List ℕ
inactive_colors = 5 ∷ 84 ∷ 53 ∷ 13 ∷ 75 ∷ 67 ∷ 106 ∷ 44 ∷ []

-- A round of the loop that fills the template: the eight bytes of encoder `i` of the row.
unfoldable pub template_slot : EncoderConfig → ℕ → List ℕ
template_slot d i =
    u8 (bit_or (bit_and d.switch_action_type 0x0f) (bit_and 0xf0 (d.switch_midi_channel <<< 4)))
    ∷ u8 (d.switch_midi_number + i)
    ∷ 127
    ∷ 127
    ∷ u8 (bit_or (bit_and 0x80 (d.has_detent <<< 7)) d.detent_color)
    ∷ u8 (
        bit_or (bit_or (bit_and 0x03 d.indicator_display_type) (bit_and 0x0c (d.movement <<< 2)))
          (bit_and 0xf0 (d.encoder_shift_midi_channel <<< 4)))
    ∷ u8 (bit_or (bit_and 0x07 d.encoder_midi_type) (bit_and 0xf0 (d.encoder_midi_channel <<< 4)))
    ∷ u8 (bit_or (bit_and 0x7f (d.encoder_midi_number + i)) (bit_and 0x80 (d.is_super_knob <<< 7)))
    ∷ []

unfoldable pub template_page : EncoderConfig → List ℕ
unfolding template_slot
template_page d = template_slot d 0 ++ template_slot d 1 ++ template_slot d 2 ++ template_slot d 3

-- `for (j = 0; j < 4; ++j)` over the colours of a row.
unfoldable pub color_row : ℕ → ℕ → ℕ → ℕ → List ℕ → List ℕ
color_row zero j active inactive page = page
color_row (suc n) j active inactive page =
    color_row n (j + 1) active inactive (set (set page (j * 8 + 2) active) (j * 8 + 3) inactive)

-- `page_buffer[k] += 4`.
abbrev add_four : List ℕ → ℕ → List ℕ
add_four page k = set page k (u8 (get_or page k 0 + 4))

-- `for (j = 0; j < 4; ++j)` over the MIDI numbers of a row.
unfoldable pub count_up : ℕ → ℕ → List ℕ → List ℕ
count_up zero j page = page
count_up (suc n) j page = count_up n (j + 1) (add_four (add_four page (j * 8 + 1)) (j * 8 + 7))

module _ (nvm : Nvm) where
  open nvm use {Store, write_page}

  -- The loop over the pages, with `n` rounds left; round `i` writes page `1 + i`.
  unfoldable pub reset_pages : ℕ → ℕ → List ℕ → Store → Store
  unfolding color_row count_up
  reset_pages zero i page s = s
  reset_pages (suc n) i page s =
      let colored =
        color_row 4 0 (get_or active_colors (i / 4) 0) (get_or inactive_colors (i / 4) 0) page in
      reset_pages n (i + 1) (count_up 4 0 colored) (write_page s colored (1 + i))

  unfoldable pub factory_reset_encoder_config : Store → Store
  unfolding reset_pages template_page
  factory_reset_encoder_config s = reset_pages (4 * num_banks) 0 (template_page enc_default) s
