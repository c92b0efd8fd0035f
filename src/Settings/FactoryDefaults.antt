-- ===== src/Settings/FactoryDefaults.antt =====
-- src/encoders.c: what is stored after `factory_reset_encoder_config`.
use midi_fighter_twister_ope.Base.{
  ℕ, zero, suc, ◌+◌, ◌*◌, ◌/◌, ◌%◌, ◌<◌, ◌≤◌, ◌≡◌, refl, ap, ◌∙◌, List, [], ◌∷◌, ◌++◌, arith,
  get_or, u8, ◌==◌, ==_iff, ◌⊎◌, inl, inr, Bool-cases, if_eq, if_ne, get_or-append_left,
  get_or-append_right, get_or-All-lt,
}
use midi_fighter_twister_ope.Nvm.{Nvm}
use midi_fighter_twister_ope.Settings.{EncoderConfig, get_encoder_config, config_address}
use midi_fighter_twister_ope.Settings.SaveLoad.{loaded, stored, bytes_config_cong}
use midi_fighter_twister_ope.Settings.Factory.{
  enc_default, active_colors, inactive_colors, template_page, color_row, count_up, reset_pages,
  factory_reset_encoder_config,
}

abbrev default_slot : ℕ → ℕ → ℕ → List ℕ
default_slot n a b = 0x10 ∷ n ∷ a ∷ b ∷ 63 ∷ 0x42 ∷ 0x01 ∷ n ∷ []

-- The page of a row that begins with MIDI number `n`.
abbrev default_page : ℕ → ℕ → ℕ → List ℕ
default_page n a b =
    default_slot n a b
    ++ default_slot (n + 1) a b
    ++ default_slot (n + 2) a b
    ++ default_slot (n + 3) a b

template : template_page enc_default ≡ default_page 0 127 127
unfolding template_page
template = refl

color_row_lem : (n a b c d : ℕ) → color_row 4 0 c d (default_page n a b) ≡ default_page n c d
unfolding color_row
color_row_lem n a b c d = refl

count_up_lem :
    (n a b : ℕ) → n + 7 < 256 → count_up 4 0 (default_page n a b) ≡ default_page (n + 4) a b
unfolding count_up
count_up_lem n a b h = ground arith

-- The page that round `i` writes.
abbrev row_page : ℕ → List ℕ
row_page i =
    default_page (4 * i) (get_or active_colors (i / 4) 0) (get_or inactive_colors (i / 4) 0)

next_page :
    (i a b : ℕ)
    → i < 32
    → count_up 4 0 (
        color_row 4 0
          (get_or active_colors (i / 4) 0)
          (get_or inactive_colors (i / 4) 0)
          (default_page (4 * i) a b))
      ≡ default_page
          (4 * (i + 1))
          (get_or active_colors (i / 4) 0)
          (get_or inactive_colors (i / 4) 0)
next_page i a b h =
    let e : 4 * i + 4 ≡ 4 * (i + 1) = omega arith in
    rw color_row_lem (
      rw (← e) (
        count_up_lem (4 * i) (get_or active_colors (i / 4) 0) (get_or inactive_colors (i / 4) 0)
          (omega arith)))

module _ (nvm : Nvm) where
  abbrev active : ℕ → ℕ
  active i = get_or active_colors (i / 4) 0

  abbrev inactive : ℕ → ℕ
  inactive i = get_or inactive_colors (i / 4) 0

  reset_pages_untouched :
      (n i x y a : ℕ) (s : nvm.Store)
      → i + n ≤ 32
      → (a / 32 < 1 + i) ⊎ (1 + i + n ≤ a / 32)
      → nvm.read_byte (reset_pages nvm n i (default_page (4 * i) x y) s) a ≡ nvm.read_byte s a
  unfolding reset_pages
  reset_pages_untouched zero i x y a s h out = refl
  reset_pages_untouched (suc n) i x y a s h out = rw (next_page i x y (omega arith)) (
      reset_pages_untouched n (i + 1) (active i) (inactive i) a
        (nvm.write_page s (row_page i) (1 + i)) (omega arith) (omega arith)
      ∙ nvm.read_byte-write_page s (row_page i) (1 + i) a refl
      ∙ if_ne (a / 32) (1 + i) (u8 (get_or (row_page i) (a % 32) 0)) (nvm.read_byte s a)
          (λ e. omega arith))

  reset_pages_written :
      (n i x y a k : ℕ) (s : nvm.Store)
      → i + n ≤ 32
      → a / 32 ≡ 1 + k
      → i ≤ k
      → k < i + n
      → nvm.read_byte (reset_pages nvm n i (default_page (4 * i) x y) s) a
        ≡ u8 (get_or (row_page k) (a % 32) 0)
  unfolding reset_pages
  reset_pages_written zero i x y a k s h page from to = absurd (omega arith)
  reset_pages_written (suc n) i x y a k s h page from to = elim (Bool-cases (i == k)) [
    | inl now ↦
        let e : i ≡ k = (==_iff i k).0 now in
        rw (next_page i x y (omega arith)) (
          reset_pages_untouched n (i + 1) (active i) (inactive i) a
            (nvm.write_page s (row_page i) (1 + i)) (omega arith) (omega arith)
          ∙ nvm.read_byte-write_page s (row_page i) (1 + i) a refl
          ∙ if_eq (a / 32) (1 + i) (u8 (get_or (row_page i) (a % 32) 0)) (nvm.read_byte s a)
              (omega arith)
          ∙ ap (λ r. u8 (get_or (row_page r) (a % 32) 0)) e)
    | inr later ↦ rw (next_page i x y (omega arith)) (
        reset_pages_written n (i + 1) (active i) (inactive i) a k
          (nvm.write_page s (row_page i) (1 + i)) (omega arith) page (ground arith) (omega arith))
  ]

  -- The first page, that of the device settings, is as before.
  pub device_page_untouched :
      (s : nvm.Store) (a : ℕ)
      → a < 32
      → nvm.read_byte (factory_reset_encoder_config nvm s) a ≡ nvm.read_byte s a
  unfolding factory_reset_encoder_config
  device_page_untouched s a h = reset_pages_untouched 32 0 127 127 a s (omega arith) (omega arith)

  reset_byte :
      (bank encoder i : ℕ) (s : nvm.Store)
      → bank < 8
      → encoder < 16
      → i < 8
      → stored nvm (factory_reset_encoder_config nvm s) bank encoder i
        ≡ u8 (get_or (row_page (bank * 4 + encoder / 4)) (encoder % 4 * 8 + i) 0)
  unfolding factory_reset_encoder_config
  reset_byte bank encoder i s hb he hi =
      let a : ℕ = config_address bank encoder + i in
      let offset : a % 32 ≡ encoder % 4 * 8 + i = omega arith in
      reset_pages_written 32 0 127 127 a (bank * 4 + encoder / 4) s (omega arith) (omega arith)
        (omega arith) (omega arith)
      ∙ ap (λ j. u8 (get_or (row_page (bank * 4 + encoder / 4)) j 0)) offset

-- The page is four slots.
module _ (n a b : ℕ) where
  abbrev slot : ℕ → List ℕ
  slot r = default_slot (n + r) a b

  slot_of_page :
      (r i : ℕ) → r < 4 → i < 8 → get_or (default_page n a b) (r * 8 + i) 0 ≡ get_or (slot r) i 0
  slot_of_page zero i h k =
      get_or-append_left (default_slot n a b) (slot 1 ++ slot 2 ++ slot 3) (0 * 8 + i) 0
        (omega arith)
      ∙ ap (λ j. get_or (default_slot n a b) j 0) (omega arith)
      ∙ ap (λ m. get_or (default_slot m a b) i 0) (omega arith)
  slot_of_page (suc zero) i h k =
      get_or-append_right (default_slot n a b) (slot 1 ++ slot 2 ++ slot 3) i (1 * 8 + i) 0
        (omega arith)
      ∙ get_or-append_left (slot 1) (slot 2 ++ slot 3) i 0 k
  slot_of_page (suc (suc zero)) i h k =
      get_or-append_right (default_slot n a b ++ slot 1) (slot 2 ++ slot 3) i (2 * 8 + i) 0
        (omega arith)
      ∙ get_or-append_left (slot 2) (slot 3) i 0 k
  slot_of_page (suc (suc (suc zero))) i h k =
      get_or-append_right (default_slot n a b ++ slot 1 ++ slot 2) (slot 3) i (3 * 8 + i) 0
        (omega arith)
  slot_of_page (suc (suc (suc (suc r)))) i h k = absurd (omega arith)

-- The settings of an encoder after a factory reset: MIDI numbers count the encoders through all
-- banks, the switch channel is 1, the shifted channel 4, the colours are those of the bank.
abbrev pub factory_config : ℕ → ℕ → EncoderConfig
factory_config bank encoder = record {
  has_detent = 0;
  movement = 0;
  switch_action_type = 0;
  switch_midi_channel = 1;
  switch_midi_number = bank * 16 + encoder;
  switch_midi_type = 0;
  encoder_midi_channel = 0;
  encoder_midi_number = bank * 16 + encoder;
  encoder_midi_type = 1;
  active_color = get_or active_colors bank 0;
  inactive_color = get_or inactive_colors bank 0;
  detent_color = 63;
  indicator_display_type = 2;
  is_super_knob = 0;
  encoder_shift_midi_channel = 4;
}

color-lt : (bank : ℕ) → (get_or active_colors bank 0 < 256) × (get_or inactive_colors bank 0 < 256)
color-lt bank = (
  get_or-All-lt 256 active_colors bank (omega arith) (omega arith),
  get_or-All-lt 256 inactive_colors bank (omega arith) (omega arith),
)

module _ (nvm : Nvm) (s : nvm.Store) where
  -- After a factory reset every encoder of the eight banks has the default settings.
  pub get_encoder_config-factory_reset :
      (bank encoder : ℕ)
      → bank < 8
      → encoder < 16
      → get_encoder_config nvm (factory_reset_encoder_config nvm s) bank encoder
        ≡ factory_config bank encoder
  get_encoder_config-factory_reset bank encoder hb he =
      let k : ℕ = bank * 4 + encoder / 4 in
      let a : ℕ = get_or active_colors bank 0 in
      let b : ℕ = get_or inactive_colors bank 0 in
      let kb : k / 4 ≡ bank = omega arith in
      let byte =
        bytes_config_cong _ (λ i. u8 (get_or (default_slot (4 * k + encoder % 4) a b) i 0))
          λ i h.
            reset_byte nvm bank encoder i s hb he h
            ∙ ap (λ (v : ℕ). u8 v)
                (slot_of_page (4 * k) (get_or active_colors (k / 4) 0)
                    (get_or inactive_colors (k / 4) 0) (encoder % 4) i (omega arith) h
                  ∙ ap
                      (λ c.
                        get_or
                          (default_slot (4 * k + encoder % 4) (get_or active_colors c 0)
                            (get_or inactive_colors c 0))
                          i 0)
                      kb) in
      loaded nvm (factory_reset_encoder_config nvm s) bank encoder
      ∙ byte
      ∙ ground (arith, color-lt bank)
