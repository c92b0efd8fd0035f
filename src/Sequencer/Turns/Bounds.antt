-- ===== src/Sequencer/Turns/Bounds.antt =====
-- src/sequencer_input.c: a pass in which no switch is down keeps all values in range.
use midi_fighter_twister_ope.Base.{
  ℕ, ◌+◌, ◌-◌, ◌*◌, ◌<◌, ◌≤◌, ◌≡◌, arith, Bool, true, false, ◌==◌, if◌then◌else◌, u8,
}
use midi_fighter_twister_ope.Encoders.{extend}
use midi_fighter_twister_ope.Encoders.Range.{clamp_range, u16-lt}
use midi_fighter_twister_ope.Sequencer.{
  Sequencer, RowType, DisplayMode, clip_selection, pattern_selection, volume_adjust, filter_adjust,
  display_off, display_default, pattern_memory, pattern_edit, is_row_type, set_step_state,
}
use midi_fighter_twister_ope.Sequencer.Turns.{
  move_encoder, scale_signed_value, turn_pattern, turn_row, set_value, turn_encoder, leave_detent,
  leave_end, with_raw, with_counter,
}

abbrev pub is_memory : DisplayMode → Bool
is_memory pattern_memory = true
is_memory _ = false

-- The values that the sequencer has while no selector of patterns is held down and the memory is not shown.
pub record InRange (s : Sequencer) : Type 0 where
  pub raws : (k : ℕ) → s.raw_value k ≤ 12700
  pub steps : (a b c : ℕ) → a < 4 → c < 16 → s.pattern a b c < 128
  pub filters : (a : ℕ) → a < 4 → (s.slot_settings a).filter < 128
  pub volumes : (a : ℕ) → a < 4 → (s.slot_settings a).volume < 128
  pub clips : (a : ℕ) → a < 4 → s.slot_clip a < 11
  pub buffers : (a : ℕ) → a < 4 → s.slot_selected_buffer a < 11
  pub released : (a : ℕ) → s.button_down_counter a ≡ 0
  pub shown : is_memory s.display_state ≡ false
  pub slot : s.selected_slot < 4
  pub within : s.overrun ≡ false

pub raw-InRange : (i raw : ℕ) (s : Sequencer) → raw ≤ 12700 → InRange s → InRange (with_raw i raw s)
raw-InRange i raw s le h = record {
  raws = λ k. let old = h.raws k in ground arith;
  steps = h.steps;
  filters = h.filters;
  volumes = h.volumes;
  clips = h.clips;
  buffers = h.buffers;
  released = h.released;
  shown = h.shown;
  slot = h.slot;
  within = h.within;
}

counter-InRange : (i count : ℕ) (s : Sequencer) → InRange s → InRange (with_counter i count s)
counter-InRange i count s h = record {
  raws = h.raws;
  steps = h.steps;
  filters = h.filters;
  volumes = h.volumes;
  clips = h.clips;
  buffers = h.buffers;
  released = h.released;
  shown = h.shown;
  slot = h.slot;
  within = h.within;
}

pub if-InRange : (b : Bool) (s t : Sequencer) → InRange s → InRange t → InRange (if b then s else t)
if-InRange true s t h k = h
if-InRange false s t h k = k

leave_detent-InRange :
    (i new_value : ℕ) (s : Sequencer) → InRange s → InRange (leave_detent i new_value s)
unfolding leave_detent
leave_detent-InRange i new_value s h =
    let counted = counter-InRange (i - 12) (u8 (s.seq_detent_counter (i - 12) + new_value)) s h in
    if-InRange _ _ _ (raw-InRange i 6450 _ (omega arith) counted)
      (if-InRange _ _ _ (raw-InRange i 6240 _ (omega arith) counted) counted)

leave_end-InRange :
    (i new_value : ℕ) (s : Sequencer) → InRange s → InRange (leave_end i new_value s)
unfolding leave_end
leave_end-InRange i new_value s h =
    let counted = counter-InRange i 0 s h in
    if-InRange _ _ _ (raw-InRange i 100 _ (omega arith) counted)
      (if-InRange _ _ _ (raw-InRange i 12600 _ (omega arith) counted) (counter-InRange i _ s h))

move_encoder-InRange :
    (i new_value : ℕ) (s : Sequencer) → InRange s → InRange (move_encoder i new_value s)
unfolding move_encoder
move_encoder-InRange i new_value s h = if-InRange _ _ _ (leave_detent-InRange i new_value s h) (
    if-InRange _ _ _ (leave_end-InRange i new_value s h)
      (raw-InRange i _ s (clamp_range _ (u16-lt _)) h))

scale_range : (raw : ℕ) → raw ≤ 12700 → scale_signed_value raw < 128
unfolding scale_signed_value
scale_range raw h = ground arith

pub edit-InRange :
    (slot step value : ℕ) (s : Sequencer)
    → slot < 4
    → step < 16
    → value < 128
    → InRange s
    → InRange (set_step_state slot step value s)
unfolding set_step_state
edit-InRange slot step value s below last le h = record {
  raws = h.raws;
  steps = λ a b c l m. let old = h.steps a b c l m in grind arith;
  filters = h.filters;
  volumes = h.volumes;
  clips = h.clips;
  buffers = h.buffers;
  released = h.released;
  shown = h.shown;
  slot = h.slot;
  within = let none = h.within in let buffer = h.buffers slot below in ground arith;
}

pub truncate-InRange :
    (value : ℕ) (s : Sequencer) → InRange s → InRange (record s { truncate_value = value })
truncate-InRange value s h = record {
  raws = h.raws;
  steps = h.steps;
  filters = h.filters;
  volumes = h.volumes;
  clips = h.clips;
  buffers = h.buffers;
  released = h.released;
  shown = h.shown;
  slot = h.slot;
  within = h.within;
}

-- The division by 11.55 cuts the quotient off.
module _ (divide : ℕ → ℕ) (truncates : (x : ℕ) → divide x * 1155 ≤ x * 100) where
  divide-lt : (x : ℕ) → x < 128 → divide x < 11
  divide-lt x h = omega (arith, truncates x)

  turn_row-InRange :
      (row : RowType) (i new_value value : ℕ) (s : Sequencer)
      → value < 128
      → InRange s
      → InRange (turn_row divide row i new_value value s)
  unfolding turn_row turn_pattern
  turn_row-InRange clip_selection i new_value value s le h = record {
    raws = h.raws;
    steps = h.steps;
    filters = h.filters;
    volumes = h.volumes;
    clips = λ a l. let old = h.clips a l in let new = divide-lt value le in grind arith;
    buffers = h.buffers;
    released = h.released;
    shown = h.shown;
    slot = h.slot;
    within = h.within;
  }
  turn_row-InRange pattern_selection i new_value value s le h = rw (h.released (i - 4)) record {
    raws = h.raws;
    steps = h.steps;
    filters = h.filters;
    volumes = h.volumes;
    clips = h.clips;
    buffers = λ a l. let old = h.buffers a l in let new = divide-lt value le in grind arith;
    released = h.released;
    shown = h.shown;
    slot = h.slot;
    within = h.within;
  }
  turn_row-InRange volume_adjust i new_value value s le h = record {
    raws = h.raws;
    steps = h.steps;
    filters = λ a l. let old = h.filters a l in grind arith;
    volumes = λ a l. let old = h.volumes a l in grind arith;
    clips = h.clips;
    buffers = h.buffers;
    released = h.released;
    shown = h.shown;
    slot = h.slot;
    within = h.within;
  }
  turn_row-InRange filter_adjust i new_value value s le h = record {
    raws = h.raws;
    steps = h.steps;
    filters = λ a l. let old = h.filters a l in grind arith;
    volumes = λ a l. let old = h.volumes a l in grind arith;
    clips = h.clips;
    buffers = h.buffers;
    released = h.released;
    shown = h.shown;
    slot = h.slot;
    within = h.within;
  }

  set_value-InRange :
      (i new_value value : ℕ) (s : Sequencer)
      → i < 16
      → value < 128
      → InRange s
      → InRange (set_value divide i new_value value s)
  unfolding set_value
  set_value-InRange i new_value value s last le h =
      by_display s.display_state (turn_row-InRange (is_row_type i) i new_value value s le h)
        (edit-InRange s.selected_slot i value s h.slot last le h)
        (if-InRange (i == s.active_memory_slot) _ s (truncate-InRange value s h) h)
    where
      by_display :
          {a b c : Sequencer} (d : DisplayMode)
          → InRange a
          → InRange b
          → InRange c
          → InRange (elim d [
            | display_off ↦ s
            | display_default ↦ a
            | pattern_edit ↦ b
            | pattern_memory ↦ c
          ])
      by_display display_off x y z = h
      by_display display_default x y z = x
      by_display pattern_edit x y z = y
      by_display pattern_memory x y z = z

  pub turn_encoder-InRange :
      (i ticks : ℕ) (s : Sequencer) → i < 16 → InRange s → InRange (turn_encoder divide i ticks s)
  unfolding turn_encoder
  turn_encoder-InRange i ticks s last h =
      let moved = move_encoder-InRange i (extend ticks) s h in
      if-InRange (ticks == 0) s _ h
        (set_value-InRange i (extend ticks) _ _ last (scale_range _ (moved.raws i)) moved)
