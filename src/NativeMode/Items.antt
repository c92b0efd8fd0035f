-- ===== src/NativeMode/Items.antt =====
-- src/native_mode.c: what the messages do to the settings of the encoders.
use midi_fighter_twister_ope.Base.{
  ℕ, ◌<◌, ◌≤◌, ◌≡◌, refl, ◌∙◌, true, none, some, List, [], ◌∷◌, ◌++◌, arith, set, All,
}
use midi_fighter_twister_ope.NativeMode.{
  State, IndicatorConfig, SwitchConfig, parse_item, parse_items, native_mode_handle_sysex_command,
  native_mode_handle_sysex_enc_config, native_mode_parse_sysex_enc_indicator_config,
  native_mode_parse_sysex_enc_switch_config, native_mode_is_enc_indicator_config_valid,
  native_mode_is_enc_switch_config_valid,
}

-- The settings that a host can send for an encoder.
pub data Item : Type 0 where
  indicator : ℕ → IndicatorConfig → Item
  switch : ℕ → SwitchConfig → Item

abbrev pub encode : Item → List ℕ
encode (indicator i c) = 0 ∷ i ∷ c.display_type ∷ c.has_detent ∷ c.detent_color ∷ []
encode (switch i c) = 1 ∷ i ∷ c.color_r ∷ c.color_g ∷ c.color_b ∷ []

abbrev pub encode_all : List Item → List ℕ
encode_all [] = []
encode_all (x ∷ xs) = encode x ++ encode_all xs

abbrev pub apply : Item → State → State
apply (indicator i c) s = record s { enc_indicator_configs = set s.enc_indicator_configs i c }
apply (switch i c) s = record s { enc_switch_configs = set s.enc_switch_configs i c }

abbrev pub apply_all : List Item → State → State
apply_all [] s = s
apply_all (x ∷ xs) s = apply_all xs (apply x s)

abbrev pub IsValid : Item → Type 0
IsValid (indicator i c) =
    (i < 16) × ((c.display_type ≤ 4) × ((c.has_detent ≤ 1) × (c.detent_color < 128)))
IsValid (switch i c) = (i < 16) × ((c.color_r < 128) × ((c.color_g < 128) × (c.color_b < 128)))

parse_items-encode :
    (x : Item) (rest : List ℕ) (s : State)
    → IsValid x
    → parse_items (encode x ++ rest) s ≡ parse_items rest (apply x s)
unfolding parse_items
parse_items-encode (indicator i c) rest s h = ground arith
parse_items-encode (switch i c) rest s h = ground arith

parse_items-encode_all :
    (xs : List Item) (s : State)
    → All IsValid xs
    → parse_items (encode_all xs) s ≡ some record { state = apply_all xs s; refreshed = true }
unfolding parse_items
parse_items-encode_all [] s h = refl
parse_items-encode_all (x ∷ xs) s h =
    parse_items-encode x (encode_all xs) s h.0 ∙ parse_items-encode_all xs (apply x s) h.1

-- In the active mode a message of valid settings for the encoders 0 to 15 is carried out in full, item after item, and the
-- display is drawn again.
pub native_mode_handle_sysex_command-encode_all :
    (xs : List Item) (s : State)
    → s.is_active ≡ true
    → All IsValid xs
    → native_mode_handle_sysex_command s (1 ∷ encode_all xs)
      ≡ some record { state = apply_all xs s; refreshed = true }
unfolding native_mode_handle_sysex_command native_mode_handle_sysex_enc_config
native_mode_handle_sysex_command-encode_all xs s active h =
    simp active (parse_items-encode_all xs s h)

-- A valid item for encoder 16, which the range check lets through, is written beyond the array.
native_mode_handle_sysex_command-eq-none :
    (x y z : ℕ) (rest : List ℕ) (s : State)
    → s.is_active ≡ true
    → x ≤ 4
    → y ≤ 1
    → z < 128
    → (native_mode_handle_sysex_command s (1 ∷ 0 ∷ 16 ∷ x ∷ y ∷ z ∷ rest) ≡ none)
      × (native_mode_handle_sysex_command s (1 ∷ 1 ∷ 16 ∷ x ∷ y ∷ z ∷ rest) ≡ none)
unfolding native_mode_handle_sysex_command native_mode_handle_sysex_enc_config parse_items
    parse_item native_mode_parse_sysex_enc_indicator_config
    native_mode_parse_sysex_enc_switch_config native_mode_is_enc_indicator_config_valid
    native_mode_is_enc_switch_config_valid
native_mode_handle_sysex_command-eq-none x y z rest s active hx hy hz =
    (simp active (ground arith), simp active (ground arith))
