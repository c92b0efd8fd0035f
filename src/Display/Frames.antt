-- ===== src/Display/Frames.antt =====
-- src/display_driver.c: what a loop over the frames does to each byte of the buffer.
use midi_fighter_twister_ope.Base.{
  ℕ, zero, suc, ◌+◌, ◌*◌, ◌<◌, ◌≡◌, ◌≢◌, refl, sym, ap, ◌∙◌, arith, ◌==◌, if◌then◌else◌, by_test,
  ==_iff,
}
use midi_fighter_twister_ope.Display.{each_frame}

-- A body that writes the two bytes from its pointer on, each from what it was.
module _ (step : ℕ → ℕ → (ℕ → ℕ) → ℕ → ℕ) (lower upper : ℕ → ℕ → ℕ)
    (step_lem : (i ptr : ℕ) (buffer : ℕ → ℕ) (a : ℕ)
      → step i ptr buffer a ≡ (
          if a == ptr + 1
          then upper i (buffer a)
          else if a == ptr
          then lower i (buffer a)
          else buffer a)) where
  pub outside :
      (n i ptr : ℕ) (buffer : ℕ → ℕ) (a : ℕ)
      → ((j : ℕ) → a ≢ ptr + j * 32)
      → ((j : ℕ) → a ≢ ptr + 1 + j * 32)
      → each_frame step n i ptr buffer a ≡ buffer a
  unfolding each_frame
  outside zero i ptr buffer a h k = refl
  outside (suc n) i ptr buffer a h k =
      let first = h 0 in
      let second = k 0 in
      outside n (i + 1) (ptr + 32) (step i ptr buffer) a (λ j e. h (suc j) (omega arith))
        (λ j e. k (suc j) (omega arith))
      ∙ step_lem i ptr buffer a
      ∙ ground arith

  pub at_offset :
      (n i ptr : ℕ) (buffer : ℕ → ℕ) (j o : ℕ)
      → j < n
      → o < 2
      → each_frame step n i ptr buffer (ptr + o + j * 32)
        ≡ (if o == 1 then upper else lower) (i + j) (buffer (ptr + o + j * 32))
  unfolding each_frame
  at_offset zero i ptr buffer j o h k = absurd (omega arith)
  at_offset (suc n) i ptr buffer zero o h k =
      outside n (i + 1) (ptr + 32) (step i ptr buffer) (ptr + o + 0 * 32) (λ j e. omega arith)
        (λ j e. omega arith)
      ∙ step_lem i ptr buffer (ptr + o + 0 * 32)
      ∙ ground arith
  at_offset (suc n) i ptr buffer (suc j) o h k =
      let place : ptr + o + suc j * 32 ≡ ptr + 32 + o + j * 32 = omega arith in
      let frame : i + suc j ≡ i + 1 + j = omega arith in
      let kept : step i ptr buffer (ptr + 32 + o + j * 32) ≡ buffer (ptr + 32 + o + j * 32) =
        step_lem i ptr buffer (ptr + 32 + o + j * 32) ∙ ground arith in
      rw (place, frame, sym kept)
        (at_offset n (i + 1) (ptr + 32) (step i ptr buffer) j o (omega arith) k)

  -- A whole loop: frame `j` has the bytes that the body makes in round `j`.
  pub frame_byte :
      (n ptr : ℕ) (buffer : ℕ → ℕ) (j q : ℕ)
      → j < n
      → q < 32
      → ptr < 31
      → each_frame step n 0 ptr buffer (q + j * 32) ≡ (
          if q == ptr + 1
          then upper j (buffer (q + j * 32))
          else if q == ptr
          then lower j (buffer (q + j * 32))
          else buffer (q + j * 32))
  frame_byte n ptr buffer j q h k l =
      let round : 0 + j ≡ j = omega arith in
      by_test (q == ptr + 1)
        (λ t.
          let place : q + j * 32 ≡ ptr + 1 + j * 32 = omega (arith, (==_iff q (ptr + 1)).0 t) in
          rw place (at_offset n 0 ptr buffer j 1 h (omega arith))
          ∙ ap (λ i. upper i (buffer (q + j * 32))) round)
        (λ next.
          by_test (q == ptr)
            (λ t.
              let place : q + j * 32 ≡ ptr + 0 + j * 32 = omega (arith, (==_iff q ptr).0 t) in
              rw place (at_offset n 0 ptr buffer j 0 h (omega arith))
              ∙ ap (λ i. lower i (buffer (q + j * 32))) round)
            (λ here.
              outside n 0 ptr buffer (q + j * 32) (λ i e. ground arith) (λ i e. ground arith)))
