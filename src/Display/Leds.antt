-- ===== src/Display/Leds.antt =====
-- src/display_driver.c: the bits of a byte of a frame, one for each LED, after it is drawn.
use midi_fighter_twister_ope.Base.{
  ℕ, ◌+◌, ◌-◌, ◌/◌, ◌<◌, ◌≡◌, refl, ◌∙◌, arith, Bool, true, false, ◌&&◌, ◌||◌, ltb, leb, ◌==◌,
  ==_iff, if◌then◌else◌, u8, ◌>>>◌, all_below, below_all, pair_table, bit_and, bit_or, bit, bit-lt,
  bit-bit_and, bit-bit_or, bit_and-le, bit-upper,
}
use midi_fighter_twister_ope.Display.{
  switch_on, rgb_byte, indent_byte, pattern_lower, pattern_upper, threshold,
}

-- The bit of an LED that is on or not.
abbrev pub lit : Bool → ℕ
lit on = if on then 0 else 1

bit_complement : (mask k : ℕ) → mask < 256 → k < 8 → bit (0xFF - mask) k ≡ 1 - bit mask k
unfolding all_below
bit_complement mask k h l =
    (==_iff (bit (0xFF - mask) k) (1 - bit mask k)).0
      (pair_table 256 8 (λ m k. bit (0xFF - m) k == (1 - bit m k)) mask k refl h l)

bit-switch_on :
    (on : Bool) (mask byte k : ℕ)
    → mask < 256
    → k < 8
    → bit (switch_on on mask byte) k ≡ (if on && (bit mask k == 1) then 0 else bit byte k)
unfolding switch_on
bit-switch_on true mask byte k h l =
    rw (bit-bit_and byte (0xFF - mask) k, bit_complement mask k h l)
      (ground (arith, bit-lt byte k, bit-lt mask k))
bit-switch_on false mask byte k h l = refl

-- A mask that is known has its bits from the table.
bit_table :
    (mask : ℕ) (set : ℕ → Bool) (k : ℕ)
    → all_below 8 (λ k. bit mask k == (if set k then 1 else 0)) ≡ true
    → k < 8
    → bit mask k ≡ (if set k then 1 else 0)
bit_table mask set k h l =
    (==_iff (bit mask k) (if set k then 1 else 0)).0
      (below_all 8 (λ k. bit mask k == (if set k then 1 else 0)) k l h)

pub bit-rgb_byte :
    (red green blue i byte k : ℕ)
    → k < 8
    → bit (rgb_byte red green blue i byte) k ≡ (
        if k == 2
        then lit (ltb (threshold i) blue)
        else if k == 3
        then lit (ltb (threshold i) red)
        else if k == 4
        then lit (ltb (threshold i) green)
        else bit byte k)
unfolding rgb_byte all_below
bit-rgb_byte red green blue i byte k l =
    let off = bit_table 0x1C (λ k. leb 2 k && leb k 4) k refl l in
    let second = bit_table 0x04 (λ k. k == 2) k refl l in
    let third = bit_table 0x08 (λ k. k == 3) k refl l in
    let fourth = bit_table 0x10 (λ k. k == 4) k refl l in
    rw
      (
        bit-switch_on (ltb (threshold i) green) 0x10 _ k (omega arith) l,
        bit-switch_on (ltb (threshold i) red) 0x08 _ k (omega arith) l,
        bit-switch_on (ltb (threshold i) blue) 0x04 _ k (omega arith) l,
        bit-bit_or byte 0x1C k,
        off,
        second,
        third,
        fourth,
      )
      (ground (arith, bit-lt byte k))

pub bit-indent_byte :
    (red blue i byte k : ℕ)
    → k < 8
    → bit (indent_byte red blue i byte) k ≡ (
        if k == 0
        then lit (ltb (threshold i) blue)
        else if k == 1
        then lit (ltb (threshold i) red)
        else bit byte k)
unfolding indent_byte all_below
bit-indent_byte red blue i byte k l =
    rw
      (
        bit-switch_on (ltb (threshold i) red) 0x02
            (switch_on (ltb (threshold i) blue) 0x01 (bit_or byte 0x03)) k (omega arith) l,
        bit-switch_on (ltb (threshold i) blue) 0x01 (bit_or byte 0x03) k (omega arith) l,
        bit-bit_or byte 0x03 k,
        bit_table 0x03 (λ k. ltb k 2) k refl l,
        bit_table 0x02 (λ k. k == 1) k refl l,
        bit_table 0x01 (λ k. k == 0) k refl l,
      )
      (ground (arith, bit-lt byte k))

pub bit-pattern_lower :
    (pattern brightness i byte k : ℕ)
    → k < 8
    → bit (pattern_lower pattern brightness i byte) k ≡ (
        if leb 5 k
        then lit (ltb i brightness && (bit pattern k == 1))
        else if ltb k 2
        then 1
        else bit byte k)
unfolding pattern_lower all_below
bit-pattern_lower pattern brightness i byte k l =
    rw
      (
        bit-switch_on (ltb i brightness) (bit_and 0xE0 (bit_and pattern 0xFF)) (bit_or byte 0xE3) k
            (omega (arith, bit_and-le 0xE0 (bit_and pattern 0xFF))) l,
        bit-bit_or byte 0xE3 k,
        bit-bit_and 0xE0 (bit_and pattern 0xFF) k,
        bit-bit_and pattern 0xFF k,
        bit_table 0xE3 (λ k. leb 5 k || ltb k 2) k refl l,
        bit_table 0xE0 (λ k. leb 5 k) k refl l,
        bit_table 0xFF (λ k. true) k refl l,
      )
      (ground (arith, bit-lt byte k, bit-lt pattern k))

upper_bit :
    (on : Bool) (m byte k : ℕ)
    → m < 256
    → k < 8
    → bit (if on then bit_and 0xFF (0xFF - m) else bit_or byte 0xFF) k ≡ lit (on && (bit m k == 1))
unfolding all_below
upper_bit true m byte k h l =
    rw (bit-bit_and 0xFF (0xFF - m) k, bit_table 0xFF (λ k. true) k refl l, bit_complement m k h l)
      (ground (arith, bit-lt m k))
upper_bit false m byte k h l =
    rw (bit-bit_or byte 0xFF k, bit_table 0xFF (λ k. true) k refl l) (ground (arith, bit-lt byte k))

pub bit-pattern_upper :
    (pattern brightness i byte k : ℕ)
    → pattern < 0x10000
    → k < 8
    → bit (pattern_upper pattern brightness i byte) k
      ≡ lit (ltb i brightness && (bit pattern (8 + k) == 1))
unfolding pattern_upper all_below
bit-pattern_upper pattern brightness i byte k h l =
    let upper : u8 (pattern >>> 8) ≡ pattern / 0x100 = omega (arith, h) in
    upper_bit (ltb i brightness) (u8 (pattern >>> 8)) byte k (omega arith) l
    ∙ rw (upper, bit-upper pattern k) refl
