-- ===== src/Display/Duty.antt =====
-- src/display_driver.c: in how many of the frames an LED is on, which is how bright it is.
use midi_fighter_twister_ope.Base.{
  ℕ, zero, suc, ◌+◌, ◌-◌, ◌*◌, ◌/◌, ◌<◌, ◌≤◌, ◌≡◌, refl, ◌∙◌, arith, Bool, true, false, ◌&&◌, ltb,
  ◌==◌, if◌then◌else◌, bit, min, by_test, Returns, ap,
}
use midi_fighter_twister_ope.Display.{
  each_frame, threshold, rgb_frame, rgb_byte, pattern_frame, pattern_lower, pattern_upper, drawn,
  indent_frame, indent_byte,
}
use midi_fighter_twister_ope.Display.Frames.{frame_byte}
use midi_fighter_twister_ope.Display.Leds.{lit}

-- How many of the first `n` frames have the LED on whose bit is `k` of the byte at `address` of a frame.
unfoldable pub duty : (ℕ → ℕ) → ℕ → ℕ → ℕ → ℕ
duty buffer address k zero = 0
duty buffer address k (suc n) = duty buffer address k n + (1 - bit (buffer (address + n * 32)) k)

pub duty_kept :
    (old new : ℕ → ℕ) (address k n : ℕ)
    → ((j : ℕ) → j < n → bit (new (address + j * 32)) k ≡ bit (old (address + j * 32)) k)
    → duty new address k n ≡ duty old address k n
unfolding duty
duty_kept old new address k zero h = refl
duty_kept old new address k (suc n) h =
    rw (duty_kept old new address k n (λ j l. h j (omega arith)), h n (omega arith)) refl

-- An LED that is on below a level.
pub duty_below :
    (buffer : ℕ → ℕ) (address k level n : ℕ)
    → n ≤ 80
    → ((j : ℕ) → j < n → bit (buffer (address + j * 32)) k ≡ lit (ltb (threshold j) level))
    → duty buffer address k n ≡ min n ((level + 1) / 2)
unfolding duty
duty_below buffer address k level zero small h = ground arith
duty_below buffer address k level (suc n) small h =
    rw
      (
        duty_below buffer address k level n (omega arith) (λ j l. h j (omega arith)),
        h n (omega arith),
      )
      (ground arith)

pub duty_pattern :
    (buffer : ℕ → ℕ) (address k brightness : ℕ) (on : Bool) (n : ℕ)
    → ((j : ℕ) → j < n → bit (buffer (address + j * 32)) k ≡ lit (ltb j brightness && on))
    → duty buffer address k n ≡ (if on then min n brightness else 0)
unfolding duty
duty_pattern buffer address k brightness true zero h = ground arith
duty_pattern buffer address k brightness false zero h = refl
duty_pattern buffer address k brightness true (suc n) h =
    rw
      (
        duty_pattern buffer address k brightness true n (λ j l. h j (omega arith)),
        h n (omega arith),
      )
      (ground arith)
duty_pattern buffer address k brightness false (suc n) h =
    rw
      (
        duty_pattern buffer address k brightness false n (λ j l. h j (omega arith)),
        h n (omega arith),
      )
      (ground arith)

pub rgb_frame_lem :
    (red green blue i ptr : ℕ) (buffer : ℕ → ℕ) (a : ℕ)
    → rgb_frame red green blue i ptr buffer a ≡ (
        if a == ptr + 1
        then buffer a
        else if a == ptr
        then rgb_byte red green blue i (buffer a)
        else buffer a)
unfolding rgb_frame
rgb_frame_lem red green blue i ptr buffer a = grind arith

pub indent_frame_lem :
    (red blue i ptr : ℕ) (buffer : ℕ → ℕ) (a : ℕ)
    → indent_frame red blue i ptr buffer a ≡ (
        if a == ptr + 1
        then buffer a
        else if a == ptr
        then indent_byte red blue i (buffer a)
        else buffer a)
unfolding indent_frame
indent_frame_lem red blue i ptr buffer a = grind arith

pub pattern_frame_lem :
    (pattern brightness i ptr : ℕ) (buffer : ℕ → ℕ) (a : ℕ)
    → pattern_frame pattern brightness i ptr buffer a ≡ (
        if a == ptr + 1
        then pattern_upper pattern brightness i (buffer a)
        else if a == ptr
        then pattern_lower pattern brightness i (buffer a)
        else buffer a)
unfolding pattern_frame
pattern_frame_lem pattern brightness i ptr buffer a = grind arith

-- What a loop that is run for an encoder does to the LED with bit `k` of the byte at `q` of a frame.
module _ (step : ℕ → ℕ → (ℕ → ℕ) → ℕ → ℕ) (lower upper : ℕ → ℕ → ℕ)
    (step_lem : (i ptr : ℕ) (buffer : ℕ → ℕ) (a : ℕ)
      → step i ptr buffer a ≡ (
          if a == ptr + 1
          then upper i (buffer a)
          else if a == ptr
          then lower i (buffer a)
          else buffer a))
    (encoder : ℕ) (buffer : ℕ → ℕ) (below : encoder < 16) where
  drawn_lem :
      (P : (ℕ → ℕ) → Type 0)
      → P (each_frame step 80 0 ((15 - encoder) * 2) buffer)
      → Returns P (drawn step encoder buffer)
  unfolding drawn
  drawn_lem P h = record {
    result = each_frame step 80 0 ((15 - encoder) * 2) buffer;
    returned = ground arith;
    holds = h;
  }

  pub duty_each :
      (q k : ℕ) (here next : ℕ)
      → q < 32
      → ((new : ℕ → ℕ)
          → ((j : ℕ) → j < 80 → bit (new (q + j * 32)) k ≡ bit (lower j (buffer (q + j * 32))) k)
          → duty new q k 80 ≡ here)
      → ((new : ℕ → ℕ)
          → ((j : ℕ) → j < 80 → bit (new (q + j * 32)) k ≡ bit (upper j (buffer (q + j * 32))) k)
          → duty new q k 80 ≡ next)
      → Returns
          (λ new. duty new q k 80 ≡ (
            if q == (15 - encoder) * 2 + 1
            then next
            else if q == (15 - encoder) * 2
            then here
            else duty buffer q k 80))
          (drawn step encoder buffer)
  duty_each q k here next h low up =
      let p = (15 - encoder) * 2 in
      let new = each_frame step 80 0 p buffer in
      let byte = λ (j : ℕ) (l : j < 80).
        frame_byte step lower upper step_lem 80 p buffer j q l h (omega arith) in
      drawn_lem _ (
        by_test (q == p + 1) (λ t. up new (λ j l. ap (λ b. bit b k) (byte j l ∙ ground arith)))
          (λ f.
            by_test (q == p) (λ t. low new (λ j l. ap (λ b. bit b k) (byte j l ∙ ground arith)))
              (λ g.
                duty_kept buffer new q k 80 (λ j l. ap (λ b. bit b k) (byte j l ∙ ground arith)))))
