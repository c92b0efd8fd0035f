-- ===== src/Display/Brightness.antt =====
-- src/display_driver.c: how bright each LED is after the functions that draw a colour, a pattern of indicators and
-- the two LEDs of the detent.
use midi_fighter_twister_ope.Base.{
  ℕ, ◌+◌, ◌-◌, ◌*◌, ◌/◌, ◌<◌, ◌≡◌, refl, ◌∙◌, arith, Bool, false, ◌&&◌, ltb, leb, ◌==◌,
  if◌then◌else◌, bit, min, by_test, Returns, u8,
}
use midi_fighter_twister_ope.Display.{
  num_of_frames, build_rgb, rgb_frame, rgb_byte, red_level, green_level, blue_level,
  set_indicator_pattern_level, pattern_frame, pattern_lower, pattern_upper, set_encoder_indent,
  indent_frame, indent_byte,
}
use midi_fighter_twister_ope.Display.Duty.{
  duty, duty_kept, duty_below, duty_pattern, duty_each, rgb_frame_lem, pattern_frame_lem,
  indent_frame_lem,
}
use midi_fighter_twister_ope.Display.Leds.{
  bit-rgb_byte, bit-indent_byte, bit-pattern_lower, bit-pattern_upper,
}

one_byte :
    (q p k blue red green old : ℕ)
    → (if q == p + 1
        then old
        else if q == p
        then (if k == 2 then blue else if k == 3 then red else if k == 4 then green else old)
        else old)
      ≡ (if (q == p) && (k == 2)
          then blue
          else if (q == p) && (k == 3)
          then red
          else if (q == p) && (k == 4)
          then green
          else old)
one_byte q p k blue red green old = ground arith

-- `build_rgb` for one of the 16 encoders has a result, in which the encoder's blue, red and green LED, bits 2 to 4
-- of its first byte in a frame, are each on in as many frames as half the level of that colour, rounded up, but at
-- most in all 80; every other LED is on in as many frames as before.
pub build_rgb_lem :
    (is_map_64 : Bool) (encoder color level : ℕ) (buffer : ℕ → ℕ) (q k : ℕ)
    → encoder < 16
    → q < 32
    → k < 8
    → Returns
        (λ new. duty new q k num_of_frames ≡ (
          if (q == (15 - encoder) * 2) && (k == 2)
          then min 80 ((blue_level is_map_64 level color + 1) / 2)
          else if (q == (15 - encoder) * 2) && (k == 3)
          then min 80 ((red_level is_map_64 level color + 1) / 2)
          else if (q == (15 - encoder) * 2) && (k == 4)
          then min 80 ((green_level is_map_64 level color + 1) / 2)
          else duty buffer q k num_of_frames))
        (build_rgb is_map_64 encoder color level buffer)
unfolding build_rgb
build_rgb_lem is_map_64 encoder color level buffer q k below h l =
    let red = red_level is_map_64 level color in
    let green = green_level is_map_64 level color in
    let blue = blue_level is_map_64 level color in
    let one = λ (j : ℕ). bit-rgb_byte red green blue j (buffer (q + j * 32)) k l in
    let here =
      if k == 2
      then min 80 ((blue + 1) / 2)
      else if k == 3
      then min 80 ((red + 1) / 2)
      else if k == 4
      then min 80 ((green + 1) / 2)
      else duty buffer q k 80 in
    let drawn_each =
      duty_each (rgb_frame red green blue) (rgb_byte red green blue) (λ i b. b)
        (rgb_frame_lem red green blue) encoder buffer below q k here (duty buffer q k 80) h
        (λ new bits.
          by_test (k == 2)
            (λ t. duty_below new q k blue 80 (omega arith) (λ j m. bits j m ∙ one j ∙ ground arith))
            (λ f.
              by_test (k == 3)
                (λ t.
                  duty_below new q k red 80 (omega arith) (λ j m. bits j m ∙ one j ∙ ground arith))
                (λ g.
                  by_test (k == 4)
                    (λ t.
                      duty_below new q k green 80 (omega arith)
                        (λ j m. bits j m ∙ one j ∙ ground arith))
                    (λ i. duty_kept buffer new q k 80 (λ j m. bits j m ∙ one j ∙ ground arith)))))
        (λ new bits. duty_kept buffer new q k 80 bits) in
    record {
      result = drawn_each.result;
      returned = drawn_each.returned;
      holds =
          drawn_each.holds
          ∙ one_byte q ((15 - encoder) * 2) k (min 80 ((blue + 1) / 2)) (min 80 ((red + 1) / 2))
              (min 80 ((green + 1) / 2)) (duty buffer q k 80);
    }

-- `set_encoder_indent` for one of the 16 encoders and a setting of seven bits has a result, in which the blue LED of
-- the detent is on in one frame more than the setting and the red one in 128 frames less the setting, but at most
-- in all 80; every other LED is on in as many frames as before.
set_encoder_indent_lem :
    (encoder color_index : ℕ) (buffer : ℕ → ℕ) (q k : ℕ)
    → encoder < 16
    → color_index < 128
    → q < 32
    → k < 8
    → Returns
        (λ new. duty new q k num_of_frames ≡ (
          if (q == (15 - encoder) * 2) && (k == 0)
          then min 80 (color_index + 1)
          else if (q == (15 - encoder) * 2) && (k == 1)
          then min 80 (128 - color_index)
          else duty buffer q k num_of_frames))
        (set_encoder_indent encoder color_index buffer)
unfolding set_encoder_indent
set_encoder_indent_lem encoder color_index buffer q k below small h l =
    let red = u8 (512 + 0xFF - color_index * 2) in
    let blue = u8 (512 + color_index * 2 - 0xFF) in
    let red_frames : min 80 ((red + 1) / 2) ≡ min 80 (128 - color_index) = omega arith in
    let blue_frames : min 80 ((blue + 1) / 2) ≡ min 80 (color_index + 1) = omega arith in
    let one = λ (j : ℕ). bit-indent_byte red blue j (buffer (q + j * 32)) k l in
    let here =
      if k == 0
      then min 80 ((blue + 1) / 2)
      else if k == 1
      then min 80 ((red + 1) / 2)
      else duty buffer q k 80 in
    let drawn_each =
      duty_each (indent_frame red blue) (indent_byte red blue) (λ i b. b)
        (indent_frame_lem red blue) encoder buffer below q k here (duty buffer q k 80) h
        (λ new bits.
          by_test (k == 0)
            (λ t. duty_below new q k blue 80 (omega arith) (λ j m. bits j m ∙ one j ∙ ground arith))
            (λ f.
              by_test (k == 1)
                (λ t.
                  duty_below new q k red 80 (omega arith) (λ j m. bits j m ∙ one j ∙ ground arith))
                (λ g. duty_kept buffer new q k 80 (λ j m. bits j m ∙ one j ∙ ground arith))))
        (λ new bits. duty_kept buffer new q k 80 bits) in
    record {
      result = drawn_each.result;
      returned = drawn_each.returned;
      holds = drawn_each.holds ∙ rw (red_frames, blue_frames) (ground arith);
    }

-- `set_indicator_pattern_level` for one of the 16 encoders has a result, in which each of the encoder's 11
-- indicators, bits 5 to 7 of its first byte and all bits of its second, is on in as many frames as the brightness
-- says, but at most in all 80, if the pattern has its bit, and in none otherwise. The two LEDs of the detent are
-- off, and every other LED is on in as many frames as before.
pub set_indicator_pattern_level_lem :
    (encoder pattern brightness : ℕ) (buffer : ℕ → ℕ) (q k : ℕ)
    → encoder < 16
    → pattern < 0x10000
    → q < 32
    → k < 8
    → Returns
        (λ new. duty new q k num_of_frames ≡ (
          if q == (15 - encoder) * 2 + 1
          then (if bit pattern (8 + k) == 1 then min 80 brightness else 0)
          else if (q == (15 - encoder) * 2) && leb 5 k
          then (if bit pattern k == 1 then min 80 brightness else 0)
          else if (q == (15 - encoder) * 2) && ltb k 2
          then 0
          else duty buffer q k num_of_frames))
        (set_indicator_pattern_level encoder pattern brightness buffer)
unfolding set_indicator_pattern_level
set_indicator_pattern_level_lem encoder pattern brightness buffer q k below small h l =
    let low = λ (j : ℕ). bit-pattern_lower pattern brightness j (buffer (q + j * 32)) k l in
    let up = λ (j : ℕ). bit-pattern_upper pattern brightness j (buffer (q + j * 32)) k small l in
    let off : (if false then min 80 brightness else 0) ≡ 0 = refl in
    let drawn_each =
      duty_each (pattern_frame pattern brightness) (pattern_lower pattern brightness)
        (pattern_upper pattern brightness) (pattern_frame_lem pattern brightness) encoder buffer
        below q k
        (if leb 5 k
          then (if bit pattern k == 1 then min 80 brightness else 0)
          else if ltb k 2
          then 0
          else duty buffer q k 80)
        (if bit pattern (8 + k) == 1 then min 80 brightness else 0) h
        (λ new bits.
          by_test (leb 5 k)
            (λ t.
              duty_pattern new q k brightness (bit pattern k == 1) 80
                (λ j m. bits j m ∙ low j ∙ ground arith))
            (λ f.
              by_test (ltb k 2)
                (λ t.
                  duty_pattern new q k brightness false 80 (λ j m. bits j m ∙ low j ∙ ground arith))
                (λ g. duty_kept buffer new q k 80 (λ j m. bits j m ∙ low j ∙ ground arith))))
        (λ new bits.
          duty_pattern new q k brightness (bit pattern (8 + k) == 1) 80 (λ j m. bits j m ∙ up j)) in
    record {
      result = drawn_each.result;
      returned = drawn_each.returned;
      holds = drawn_each.holds ∙ ground arith;
    }
