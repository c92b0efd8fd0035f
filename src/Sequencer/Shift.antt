-- ===== src/Sequencer/Shift.antt =====
-- src/sequencer.c, `shift_pattern`: the selected pattern of a slot is turned by a step.
pub mod Rotation
use midi_fighter_twister_ope.Base.{
  ◌||◌, not, ltb, ℕ, zero, suc, ◌+◌, ◌-◌, Bool, true, false, ◌&&◌, ◌==◌, if◌then◌else◌, for_range,
}
use midi_fighter_twister_ope.Encoders.{assign}
use midi_fighter_twister_ope.Sequencer.{is_within, Sequencer}

-- The steps with `last_byte`.
pub record Row : Type 0 where
  pub steps : ℕ → ℕ
  pub last_byte : ℕ

-- `next_byte = steps[j]; steps[j] = byte; last_byte = next_byte`.
unfoldable pub replace_step : ℕ → ℕ → Row → Row
replace_step j byte r = record { steps = assign r.steps j byte; last_byte = r.steps j }

unfoldable pub shift_row : Bool → (ℕ → ℕ) → Row
unfolding replace_step
shift_row true steps =
    for_range 15 1 (λ j r. replace_step j r.last_byte r)
      (replace_step 0 (steps 15) record { steps = steps; last_byte = 0 })
shift_row false steps =
    for_range 15 1 (λ k r. replace_step (15 - k) r.last_byte r)
      (replace_step 15 (steps 0) record { steps = steps; last_byte = 0 })

unfoldable pub shift_pattern : ℕ → Bool → Sequencer → Sequencer
unfolding shift_row
shift_pattern slot direction s =
    let buffer = s.slot_selected_buffer slot in
    let shifted = (shift_row direction (s.pattern slot buffer)).steps in
    record s {
      pattern = λ a b c. if (a == slot) && (b == buffer) then shifted c else s.pattern a b c;
      overrun = s.overrun || not (is_within s slot 0);
    }
