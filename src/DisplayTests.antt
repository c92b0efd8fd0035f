-- ===== src/DisplayTests.antt =====
-- Examples for the results on src/display_driver.c: the first encoder of a display that is off.
use midi_fighter_twister_ope.Base.{ℕ, ◌≡◌, false, arith, Returns}
use midi_fighter_twister_ope.Display.{
  num_of_frames, build_rgb, red_level, channel_level, set_indicator_pattern_level,
}
use midi_fighter_twister_ope.Display.Duty.{duty}
use midi_fighter_twister_ope.Display.Brightness.{build_rgb_lem, set_indicator_pattern_level_lem}

abbrev all_off : ℕ → ℕ
all_off a = 0xFF

build_rgb_example :
    Returns (λ new. duty new 30 3 num_of_frames ≡ 50) (build_rgb false 0 0x640000 0 all_off)
unfolding red_level channel_level
build_rgb_example =
    build_rgb_lem false 0 0x640000 0 all_off 30 3 (omega arith) (omega arith) (omega arith)

set_indicator_pattern_level_example :
    Returns
      (λ new. duty new 31 7 num_of_frames ≡ 60)
      (set_indicator_pattern_level 0 0x8000 60 all_off)
set_indicator_pattern_level_example =
    set_indicator_pattern_level_lem 0 0x8000 60 all_off 31 7 (omega arith) (omega arith)
      (omega arith) (omega arith)
