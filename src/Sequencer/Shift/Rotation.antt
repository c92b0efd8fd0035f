-- ===== src/Sequencer/Shift/Rotation.antt =====
-- src/sequencer.c: what `shift_pattern` does to the steps, and that it is undone by the other direction.
use midi_fighter_twister_ope.Base.{
  ℕ, ◌+◌, ◌-◌, ◌%◌, ◌<◌, ◌≡◌, ◌∙◌, refl, arith, Bool, true, false, not, ◌&&◌, ltb, leb, ◌==◌,
  if◌then◌else◌, for_range-Keeps,
}
use midi_fighter_twister_ope.Sequencer.{Sequencer}
use midi_fighter_twister_ope.Sequencer.Shift.{Row, replace_step, shift_row, shift_pattern}

-- Behind round `i` of the forward loop.
record Forward (old : ℕ → ℕ) (i : ℕ) (r : Row) : Type 0 where
  done : (c : ℕ) → c < 16 → r.steps c ≡ (if ltb c i then old ((c + 15) % 16) else old c)
  last : r.last_byte ≡ old (i - 1)

forward : (old : ℕ → ℕ) → Forward old 16 (shift_row true old)
unfolding shift_row replace_step
forward old =
    for_range-Keeps (Forward old) (λ j r. replace_step j r.last_byte r) 15 1 16
      (replace_step 0 (old 15) record { steps = old; last_byte = 0 }) (omega arith)
      (λ k t a b h. record {
        done = λ c l.
            let e = h.done c l in
            let f = h.last in let place : (k + 15) % 16 ≡ k - 1 = omega arith in grind arith;
        last =
            let e = h.done k b in
            let place : k + 1 - 1 ≡ k = omega arith in rw place (e ∙ ground arith);
      })
      record { done = λ c l. grind arith; last = refl }

record Backward (old : ℕ → ℕ) (i : ℕ) (r : Row) : Type 0 where
  done : (c : ℕ) → c < 16 → r.steps c ≡ (if leb (16 - i) c then old ((c + 1) % 16) else old c)
  last : r.last_byte ≡ old (16 - i)

backward : (old : ℕ → ℕ) → Backward old 16 (shift_row false old)
unfolding shift_row replace_step
backward old =
    for_range-Keeps (Backward old) (λ k r. replace_step (15 - k) r.last_byte r) 15 1 16
      (replace_step 15 (old 0) record { steps = old; last_byte = 0 }) (omega arith)
      (λ k t a b h. record {
        done = λ c l.
            let e = h.done c l in
            let f = h.last in let place : (15 - k + 1) % 16 ≡ 16 - k = omega arith in grind arith;
        last =
            let e = h.done (15 - k) (omega arith) in
            let place : 16 - (k + 1) ≡ 15 - k = omega arith in rw place (e ∙ ground arith);
      })
      record { done = λ c l. grind arith; last = refl }

-- The step that `c` has the velocity of behind a shift.
abbrev pub source : Bool → ℕ → ℕ
source true c = (c + 15) % 16
source false c = (c + 1) % 16

pub shift_row_lem :
    (direction : Bool) (old : ℕ → ℕ) (c : ℕ)
    → c < 16
    → (shift_row direction old).steps c ≡ old (source direction c)
shift_row_lem true old c h = (forward old).done c h ∙ ground arith
shift_row_lem false old c h = (backward old).done c h ∙ ground arith

source-lt : (direction : Bool) (c : ℕ) → source direction c < 16
source-lt true c = omega arith
source-lt false c = omega arith

source_back : (direction : Bool) (c : ℕ) → c < 16 → source direction (source (not direction) c) ≡ c
source_back true c h = omega arith
source_back false c h = omega arith

shifted :
    (slot : ℕ) (direction : Bool) (s : Sequencer) (a b c : ℕ)
    → c < 16
    → (shift_pattern slot direction s).pattern a b c ≡ (
        if (a == slot) && (b == s.slot_selected_buffer slot)
        then s.pattern a b (source direction c)
        else s.pattern a b c)
unfolding shift_pattern
shifted slot direction s a b c h =
    let row = shift_row_lem direction (s.pattern slot (s.slot_selected_buffer slot)) c h in
    grind arith

selection_kept :
    (slot : ℕ) (direction : Bool) (s : Sequencer)
    → (shift_pattern slot direction s).slot_selected_buffer slot ≡ s.slot_selected_buffer slot
unfolding shift_pattern
selection_kept slot direction s = refl

-- A shift turns the selected pattern of a slot by one step, forwards or back, and keeps all other patterns; the
-- shift in the other direction brings every step of every pattern back.
pub shift_pattern-shift_pattern :
    (slot : ℕ) (direction : Bool) (s : Sequencer) (a b c : ℕ)
    → c < 16
    → ((shift_pattern slot direction s).pattern a b c ≡ (
        if (a == slot) && (b == s.slot_selected_buffer slot)
        then s.pattern a b (source direction c)
        else s.pattern a b c))
      × ((shift_pattern slot (not direction) (shift_pattern slot direction s)).pattern a b c
          ≡ s.pattern a b c)
shift_pattern-shift_pattern slot direction s a b c h = (
  shifted slot direction s a b c h,
  shifted slot (not direction) (shift_pattern slot direction s) a b c h
      ∙ rw
          (
            shifted slot direction s a b (source (not direction) c) (source-lt (not direction) c),
            shifted slot direction s a b c h,
            source_back direction c h,
          )
          (ground (arith, selection_kept slot direction s)),
)
