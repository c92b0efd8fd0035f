-- ===== src/Display.antt =====
-- src/display_driver.c: what is drawn into the buffer of frames that the DMA controller sends to the LED drivers
-- in turn. An LED is off where its bit is 1.
pub mod Frames
pub mod Leds
pub mod Duty
pub mod Brightness
use midi_fighter_twister_ope.Base.{
  ℕ, zero, suc, ◌+◌, ◌-◌, ◌*◌, ◌/◌, Bool, Option, some, none, ltb, leb, ◌==◌, if◌then◌else◌, u8,
  u16, ◌<<<◌, ◌>>>◌, bit_and, bit_or,
}
use midi_fighter_twister_ope.Encoders.{assign}

-- `DMA_FRAME_SIZE`.
abbrev pub dma_frame_size : ℕ
dma_frame_size = 32

-- `NUM_OF_FRAMES`, for a buffer of 2560 bytes.
abbrev pub num_of_frames : ℕ
num_of_frames = 2560 / dma_frame_size

-- The loops over the frames: `step i ptr` is the body, which writes from `ptr` on.
unfoldable pub each_frame : (ℕ → ℕ → (ℕ → ℕ) → ℕ → ℕ) → ℕ → ℕ → ℕ → (ℕ → ℕ) → ℕ → ℕ
each_frame step zero i ptr buffer = buffer
each_frame step (suc n) i ptr buffer =
    each_frame step n (i + 1) (ptr + dma_frame_size) (step i ptr buffer)

-- The pointer of the code, from the start of the buffer. For an encoder beyond 15 it would lie before the buffer.
unfoldable pub drawn : (ℕ → ℕ → (ℕ → ℕ) → ℕ → ℕ) → ℕ → (ℕ → ℕ) → Option (ℕ → ℕ)
drawn step encoder buffer =
    if leb encoder 15
    then some (each_frame step num_of_frames 0 ((15 - encoder) * 2) buffer)
    else none

-- `*ptr &= ~mask` under a condition.
unfoldable pub switch_on : Bool → ℕ → ℕ → ℕ
switch_on on mask byte = if on then bit_and byte (0xFF - mask) else byte

unfoldable pub scale8 : ℕ → ℕ → ℕ
scale8 v s = u8 (u16 (v * s) / 255)

-- What `build_rgb` makes of the byte of a colour, whose gain is `gain`. The product is more than an `int` of 16
-- bits has room for; only its high byte is used.
unfoldable pub channel_level : Bool → ℕ → ℕ → ℕ → ℕ
unfolding scale8
channel_level is_map_64 level gain byte =
    let scaled = if is_map_64 then scale8 byte gain else byte in
    if level == 0 then scaled else u8 ((scaled * (level - 1)) >>> 8)

-- `GAIN_R`, `GAIN_G` and `GAIN_B` with the bytes of the colour.
unfoldable pub red_level : Bool → ℕ → ℕ → ℕ
unfolding channel_level
red_level is_map_64 level color = channel_level is_map_64 level 140 (bit_and (color >>> 16) 0xFF)

unfoldable pub green_level : Bool → ℕ → ℕ → ℕ
unfolding channel_level
green_level is_map_64 level color = channel_level is_map_64 level 245 (bit_and (color >>> 8) 0xFF)

unfoldable pub blue_level : Bool → ℕ → ℕ → ℕ
unfolding channel_level
blue_level is_map_64 level color = channel_level is_map_64 level 235 (bit_and color 0xFF)

-- The value that a brightness of 8 bits is compared with in frame `i`.
abbrev pub threshold : ℕ → ℕ
threshold i = u8 ((i <<< 1) * (127 / num_of_frames))

unfoldable pub rgb_byte : ℕ → ℕ → ℕ → ℕ → ℕ → ℕ
unfolding switch_on
rgb_byte red green blue i byte = switch_on (ltb (threshold i) green) 0x10 (
    switch_on (ltb (threshold i) red) 0x08
      (switch_on (ltb (threshold i) blue) 0x04 (bit_or byte 0x1C)))

unfoldable pub rgb_frame : ℕ → ℕ → ℕ → ℕ → ℕ → (ℕ → ℕ) → ℕ → ℕ
unfolding rgb_byte
rgb_frame red green blue i ptr buffer = assign buffer ptr (rgb_byte red green blue i (buffer ptr))

-- `is_map_64` is `activeColorMap == colorMap64`.
unfoldable pub build_rgb : Bool → ℕ → ℕ → ℕ → (ℕ → ℕ) → Option (ℕ → ℕ)
unfolding drawn red_level green_level blue_level rgb_frame
build_rgb is_map_64 encoder color level buffer =
    drawn
      (rgb_frame (red_level is_map_64 level color) (green_level is_map_64 level color)
        (blue_level is_map_64 level color))
      encoder buffer

unfoldable pub indent_byte : ℕ → ℕ → ℕ → ℕ → ℕ
unfolding switch_on
indent_byte red blue i byte =
    switch_on (ltb (threshold i) red) 0x02
      (switch_on (ltb (threshold i) blue) 0x01 (bit_or byte 0x03))

unfoldable pub indent_frame : ℕ → ℕ → ℕ → ℕ → (ℕ → ℕ) → ℕ → ℕ
unfolding indent_byte
indent_frame red blue i ptr buffer = assign buffer ptr (indent_byte red blue i (buffer ptr))

-- The differences are negative for some indices and wrap round; 512 keeps them positive.
unfoldable pub set_encoder_indent : ℕ → ℕ → (ℕ → ℕ) → Option (ℕ → ℕ)
unfolding drawn indent_frame
set_encoder_indent encoder color_index buffer =
    drawn (indent_frame (u8 (512 + 0xFF - color_index * 2)) (u8 (512 + color_index * 2 - 0xFF)))
      encoder buffer

unfoldable pub pattern_lower : ℕ → ℕ → ℕ → ℕ → ℕ
unfolding switch_on
pattern_lower pattern brightness i byte =
    switch_on (ltb i brightness) (bit_and 0xE0 (bit_and pattern 0xFF)) (bit_or byte 0xE3)

unfoldable pub pattern_upper : ℕ → ℕ → ℕ → ℕ → ℕ
pattern_upper pattern brightness i byte =
    if ltb i brightness then bit_and 0xFF (0xFF - u8 (pattern >>> 8)) else bit_or byte 0xFF

unfoldable pub pattern_frame : ℕ → ℕ → ℕ → ℕ → (ℕ → ℕ) → ℕ → ℕ
unfolding pattern_lower pattern_upper
pattern_frame pattern brightness i ptr buffer =
    assign (assign buffer ptr (pattern_lower pattern brightness i (buffer ptr))) (ptr + 1)
      (pattern_upper pattern brightness i (buffer (ptr + 1)))

unfoldable pub set_indicator_pattern_level : ℕ → ℕ → ℕ → (ℕ → ℕ) → Option (ℕ → ℕ)
unfolding drawn pattern_frame
set_indicator_pattern_level encoder pattern brightness buffer =
    drawn (pattern_frame pattern brightness) encoder buffer
