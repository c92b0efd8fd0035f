-- ===== src/Settings/Merge.antt =====
-- src/encoders.c, `save_encoder_config` and `get_encoder_config`: the masks as arithmetic on a byte.
use midi_fighter_twister_ope.Base.{
  ℕ, ◌+◌, ◌*◌, ◌/◌, ◌%◌, ◌<◌, ◌≡◌, refl, true, bit_and, bit_or, ltb, ◌==◌, ==_iff, if◌then◌else◌,
  ◌<<<◌, arith, all_below, byte_table, pair_table, below_all,
}
use midi_fighter_twister_ope.Settings.{merge, channel_bits}

-- What a mask leaves of a byte.
module _ (b : ℕ) (h : b < 256) where
  pub and_0f : bit_and b 0x0f ≡ b % 16
  unfolding all_below
  and_0f = byte_table (λ x. bit_and x 0x0f) (λ x. x % 16) b refl h

  pub and_f0 : bit_and b 0xf0 ≡ b / 16 * 16
  unfolding all_below
  and_f0 = byte_table (λ x. bit_and x 0xf0) (λ x. x / 16 * 16) b refl h

  pub and_7f : bit_and b 0x7f ≡ b % 128
  unfolding all_below
  and_7f = byte_table (λ x. bit_and x 0x7f) (λ x. x % 128) b refl h

  pub and_80 : bit_and b 0x80 ≡ b / 128 * 128
  unfolding all_below
  and_80 = byte_table (λ x. bit_and x 0x80) (λ x. x / 128 * 128) b refl h

  pub and_03 : bit_and b 0x03 ≡ b % 4
  unfolding all_below
  and_03 = byte_table (λ x. bit_and x 0x03) (λ x. x % 4) b refl h

  pub and_07 : bit_and b 0x07 ≡ b % 8
  unfolding all_below
  and_07 = byte_table (λ x. bit_and x 0x07) (λ x. x % 8) b refl h

  pub and_01 : bit_and b 0x01 ≡ b % 2
  unfolding all_below
  and_01 = byte_table (λ x. bit_and x 0x01) (λ x. x % 2) b refl h

-- What is inserted and where: a field of `f` bits at bit `k`. `table n f g` compares over `b < 256`, `v < n`.
table :
    (n : ℕ) (f g : ℕ → ℕ → ℕ) (b v : ℕ)
    → all_below 256 (λ x. all_below n (λ y. f x y == g x y)) ≡ true
    → b < 256
    → v < n
    → f b v ≡ g b v
table n f g b v t h k =
    (==_iff (f b v) (g b v)).0 (pair_table 256 n (λ x y. f x y == g x y) b v t h k)

or_low_four : (b v : ℕ) → b < 256 → v < 16 → bit_or (b / 16 * 16) v ≡ b / 16 * 16 + v
unfolding all_below
or_low_four b v h k = table 16 (λ x y. bit_or (x / 16 * 16) y) (λ x y. x / 16 * 16 + y) b v refl h k

or_high_four : (b v : ℕ) → b < 256 → v < 16 → bit_or (b % 16) (v * 16) ≡ v * 16 + b % 16
unfolding all_below
or_high_four b v h k =
    table 16 (λ x y. bit_or (x % 16) (y * 16)) (λ x y. y * 16 + x % 16) b v refl h k

or_low_two : (b v : ℕ) → b < 256 → v < 4 → bit_or (b / 4 * 4) v ≡ b / 4 * 4 + v
unfolding all_below
or_low_two b v h k = table 4 (λ x y. bit_or (x / 4 * 4) y) (λ x y. x / 4 * 4 + y) b v refl h k

or_mid_two :
    (b v : ℕ) → b < 256 → v < 4 → bit_or (bit_and b 0xf3) (v * 4) ≡ b / 16 * 16 + v * 4 + b % 4
unfolding all_below
or_mid_two b v h k =
    table 4 (λ x y. bit_or (bit_and x 0xf3) (y * 4)) (λ x y. x / 16 * 16 + y * 4 + x % 4) b v refl h
      k

or_low_three : (b v : ℕ) → b < 256 → v < 8 → bit_or (b / 8 * 8) v ≡ b / 8 * 8 + v
unfolding all_below
or_low_three b v h k = table 8 (λ x y. bit_or (x / 8 * 8) y) (λ x y. x / 8 * 8 + y) b v refl h k

or_low_seven : (b v : ℕ) → b < 256 → v < 128 → bit_or (b / 128 * 128) v ≡ b / 128 * 128 + v
unfolding all_below
or_low_seven b v h k =
    table 128 (λ x y. bit_or (x / 128 * 128) y) (λ x y. x / 128 * 128 + y) b v refl h k

or_high_one : (b v : ℕ) → b < 256 → v < 2 → bit_or (b % 128) (v * 128) ≡ v * 128 + b % 128
unfolding all_below
or_high_one b v h k =
    table 2 (λ x y. bit_or (x % 128) (y * 128)) (λ x y. y * 128 + x % 128) b v refl h k

small_table : (f g : ℕ → ℕ) (v : ℕ) → all_below 128 (λ x. f x == g x) ≡ true → v < 128 → f v ≡ g v
small_table f g v t h = (==_iff (f v) (g v)).0 (below_all 128 (λ x. f x == g x) v h t)

channel_field : (v : ℕ) → v < 128 → channel_bits v ≡ (v + 15) % 16 * 16
unfolding all_below
channel_field v h = small_table (λ x. channel_bits x) (λ x. (x + 15) % 16 * 16) v refl h

flag_field : (v : ℕ) → v < 128 → bit_and 0x80 (v <<< 7) ≡ v % 2 * 128
unfolding all_below
flag_field v h = small_table (λ x. bit_and 0x80 (x <<< 7)) (λ x. x % 2 * 128) v refl h

movement_field : (v : ℕ) → v < 128 → bit_and 0x0c (v <<< 2) ≡ v % 4 * 4
unfolding all_below
movement_field v h = small_table (λ x. bit_and 0x0c (x <<< 2)) (λ x. x % 4 * 4) v refl h

color_field : (v : ℕ) → v < 128 → bit_and 0x7f v ≡ v
unfolding all_below
color_field v h = small_table (λ x. bit_and 0x7f x) (λ x. x) v refl h

display_field : (v : ℕ) → v < 128 → bit_and 0x03 v ≡ v % 4
unfolding all_below
display_field v h = small_table (λ x. bit_and 0x03 x) (λ x. x % 4) v refl h

type_field : (v : ℕ) → v < 128 → bit_and 0x07 v ≡ v % 8
unfolding all_below
type_field v h = small_table (λ x. bit_and 0x07 x) (λ x. x % 8) v refl h

keep_fc : (v : ℕ) → v < 256 → bit_and v 0xfc ≡ v / 4 * 4
unfolding all_below
keep_fc v h = byte_table (λ x. bit_and x 0xfc) (λ x. x / 4 * 4) v refl h

keep_f8 : (v : ℕ) → v < 256 → bit_and v 0xf8 ≡ v / 8 * 8
unfolding all_below
keep_f8 v h = byte_table (λ x. bit_and x 0xf8) (λ x. x / 8 * 8) v refl h

-- One setting merged into a byte.
module _ (v b : ℕ) (h : b < 256) where
  pub merge_low_four :
      merge v 0xf0 (bit_and v 0x0f) b ≡ (if ltb v 0x80 then b / 16 * 16 + v % 16 else b)
  unfolding merge
  merge_low_four = ground (arith, and_f0 b, and_0f v, or_low_four b (v % 16))

  pub merge_channel :
      merge v 0x0f (channel_bits v) b ≡ (if ltb v 0x80 then (v + 15) % 16 * 16 + b % 16 else b)
  unfolding merge
  merge_channel = ground (arith, and_0f b, channel_field v, or_high_four b ((v + 15) % 16))

  pub merge_flag :
      merge v 0x7f (bit_and 0x80 (v <<< 7)) b ≡ (if ltb v 0x80 then v % 2 * 128 + b % 128 else b)
  unfolding merge
  merge_flag = ground (arith, and_7f b, flag_field v, or_high_one b (v % 2))

  pub merge_color : merge v 0x80 (bit_and 0x7f v) b ≡ (if ltb v 0x80 then b / 128 * 128 + v else b)
  unfolding merge
  merge_color = ground (arith, and_80 b, color_field v, or_low_seven b v)

  pub merge_number_lem : merge v 0x80 v b ≡ (if ltb v 0x80 then b / 128 * 128 + v else b)
  unfolding merge
  merge_number_lem = ground (arith, and_80 b, or_low_seven b v)

  pub merge_display_lem :
      merge v 0xfc (bit_and 0x03 v) b ≡ (if ltb v 0x80 then b / 4 * 4 + v % 4 else b)
  unfolding merge
  merge_display_lem = ground (arith, keep_fc b, display_field v, or_low_two b (v % 4))

  pub merge_movement :
      merge v 0xf3 (bit_and 0x0c (v <<< 2)) b
      ≡ (if ltb v 0x80 then b / 16 * 16 + v % 4 * 4 + b % 4 else b)
  unfolding merge
  merge_movement = ground (arith, movement_field v, or_mid_two b (v % 4))

  pub merge_type_lem :
      merge v 0xf8 (bit_and 0x07 v) b ≡ (if ltb v 0x80 then b / 8 * 8 + v % 8 else b)
  unfolding merge
  merge_type_lem = ground (arith, keep_f8 b, type_field v, or_low_three b (v % 8))
