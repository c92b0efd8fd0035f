-- ===== src/Sequencer/Turns/Pass.antt =====
-- src/sequencer_input.c, `process_sequencer_input`: a whole pass, with its switches, keeps all values in range.
use midi_fighter_twister_ope.Base.{
  ◌<◌, ℕ, ◌-◌, ◌*◌, ◌≤◌, ◌≡◌, refl, arith, Bool, true, false, ◌&&◌, leb, if◌then◌else◌,
  for_range-Keeps, Bool-cases, inl, inr, List,
}
use midi_fighter_twister_ope.Midi.{EventPacket}
use midi_fighter_twister_ope.Nvm.{Nvm}
use midi_fighter_twister_ope.Encoders.{assign}
use midi_fighter_twister_ope.Sequencer.{
  Sequencer, RowType, clip_selection, pattern_selection, volume_adjust, filter_adjust, DisplayMode,
  display_off, display_default, pattern_memory, pattern_edit, is_row_type,
}
use midi_fighter_twister_ope.Sequencer.Alternate.{default_raw_values}
use midi_fighter_twister_ope.Sequencer.Buttons.{
  toggle_fx, edit_or_redraw, default_button, toggle_step, process_seq_enc_buttons,
}
use midi_fighter_twister_ope.Sequencer.Indices.Inputs.{row_slot}
use midi_fighter_twister_ope.Sequencer.Turns.{
  SwitchBits, count_down, has_bit, use_encoder, process_sequencer_input,
}
use midi_fighter_twister_ope.Sequencer.Turns.Bounds.{
  is_memory, InRange, if-InRange, raw-InRange, edit-InRange, truncate-InRange, turn_encoder-InRange,
}

default_raw_values-InRange : (s : Sequencer) → InRange s → InRange (default_raw_values s)
unfolding default_raw_values
default_raw_values-InRange s h =
    for_range-Keeps (λ _. InRange) _ 4 0 4 s (omega arith)
      (λ k t a b e. record {
        raws = λ j.
            let old = e.raws j in
            let clip = e.clips k b in
            let buffer = e.buffers k b in
            let volume = e.volumes k b in let filter = e.filters k b in grind arith;
        steps = e.steps;
        filters = e.filters;
        volumes = e.volumes;
        clips = e.clips;
        buffers = e.buffers;
        released = e.released;
        shown = e.shown;
        slot = e.slot;
        within = e.within;
      })
      h

toggle_fx-InRange : (i : ℕ) (s : Sequencer) → InRange s → InRange (toggle_fx i s)
unfolding toggle_fx
toggle_fx-InRange i s h = default_raw_values-InRange _ record {
  raws = h.raws;
  steps = h.steps;
  filters = λ a l. let old = h.filters a l in grind arith;
  volumes = λ a l. let old = h.volumes a l in grind arith;
  clips = h.clips;
  buffers = h.buffers;
  released = h.released;
  shown = h.shown;
  slot = h.slot;
  within = h.within;
}

-- What changes neither the levels, the selections nor the display.
with_sent-InRange :
    (sent : List EventPacket) (s : Sequencer) → InRange s → InRange (record s { sent = sent })
with_sent-InRange sent s h = record {
  raws = h.raws;
  steps = h.steps;
  filters = h.filters;
  volumes = h.volumes;
  clips = h.clips;
  buffers = h.buffers;
  released = h.released;
  shown = h.shown;
  slot = h.slot;
  within = h.within;
}

edited-InRange :
    (slot : ℕ) (s : Sequencer)
    → slot < 4
    → InRange s
    → InRange (record s { selected_slot = slot; display_state = pattern_edit })
edited-InRange slot s below h = record {
  raws = h.raws;
  steps = h.steps;
  filters = h.filters;
  volumes = h.volumes;
  clips = h.clips;
  buffers = h.buffers;
  released = h.released;
  shown = refl;
  slot = below;
  within = h.within;
}

default_button-InRange :
    (row : RowType) (i : ℕ) (down : Bool) (s : Sequencer)
    → (row ≡ pattern_selection → i - 4 < 4)
    → InRange s
    → InRange (default_button row i down s)
unfolding default_button edit_or_redraw
default_button-InRange clip_selection i true s selects h = toggle_fx-InRange i s h
default_button-InRange clip_selection i false s selects h = h
default_button-InRange pattern_selection i true s selects h = h
default_button-InRange pattern_selection i false s selects h =
    if-InRange _ _ _ (edited-InRange (i - 4) s (selects refl) h)
      (truncate-InRange 127 _ (default_raw_values-InRange s h))
default_button-InRange volume_adjust i true s selects h = with_sent-InRange _ s h
default_button-InRange volume_adjust i false s selects h = h
default_button-InRange filter_adjust i true s selects h = with_sent-InRange _ s h
default_button-InRange filter_adjust i false s selects h = h

toggle_step-InRange : (i : ℕ) (s : Sequencer) → i < 16 → InRange s → InRange (toggle_step i s)
unfolding toggle_step
toggle_step-InRange i s last h =
    if-InRange _ _ _
      (edit-InRange s.selected_slot i 127 _ h.slot last (omega arith)
        (raw-InRange i 12700 s (omega arith) h))
      (edit-InRange s.selected_slot i 0 _ h.slot last (omega arith)
        (raw-InRange i 0 s (omega arith) h))

module _ (nvm : Nvm) (store : nvm.Store) where
  -- The EEPROM is the one before, and the values are in range.
  record Kept (p : nvm.Store × Sequencer) : Type 0 where
    left : p.0 ≡ store
    range : InRange p.1

  process_seq_enc_buttons-Kept :
      (i : ℕ) (down : Bool) (s : Sequencer)
      → i < 16
      → InRange s
      → Kept (process_seq_enc_buttons nvm i down (store, s))
  unfolding process_seq_enc_buttons
  process_seq_enc_buttons-Kept i down s last h =
      by_display s.display_state _ h.shown
        (default_button-InRange (is_row_type i) i down s (row_slot i last) h) (if_down down)
    where
      if_down : (down : Bool) → InRange (if down then toggle_step i s else s)
      if_down true = toggle_step-InRange i s last h
      if_down false = h

      by_display :
          {a b : Sequencer} (d : DisplayMode) (c : nvm.Store × Sequencer)
          → is_memory d ≡ false
          → InRange a
          → InRange b
          → Kept (elim d [
            | display_off ↦ (store, s)
            | display_default ↦ (store, a)
            | pattern_memory ↦ c
            | pattern_edit ↦ (store, b)
          ])
      by_display display_off c other x y = record { left = refl; range = h }
      by_display display_default c other x y = record { left = refl; range = x }
      by_display pattern_memory c other x y = absurd (ground arith)
      by_display pattern_edit c other x y = record { left = refl; range = y }

released-InRange :
    (slot : ℕ) (s : Sequencer)
    → InRange s
    → InRange record s {
      button_down_counter = assign s.button_down_counter slot 0;
      mod_level = assign s.mod_level slot 0;
    }
released-InRange slot s h = record {
  raws = h.raws;
  steps = h.steps;
  filters = h.filters;
  volumes = h.volumes;
  clips = h.clips;
  buffers = h.buffers;
  released = λ a. let old = h.released a in ground arith;
  shown = h.shown;
  slot = h.slot;
  within = h.within;
}

-- No switch of a selector of patterns is down.
pub record NoneHeld (bits : SwitchBits) : Type 0 where
  pub selectors : (i : ℕ) → 4 ≤ i → i ≤ 7 → has_bit bits.state i ≡ false

count_down-InRange :
    (bits : SwitchBits) (i : ℕ) (s : Sequencer)
    → NoneHeld bits
    → InRange s
    → InRange (count_down bits i s)
unfolding count_down
count_down-InRange bits i s none h = elim (Bool-cases (leb 4 i && leb i 7)) [
  | inl selector ↦
      rw (selector, none.selectors i (ground arith) (ground arith)) (released-InRange (i - 4) s h)
  | inr other ↦ rw other h
]

if-Kept :
    (nvm : Nvm) (store : nvm.Store) (b : Bool) (p q : nvm.Store × Sequencer)
    → Kept nvm store p
    → Kept nvm store q
    → Kept nvm store (if b then p else q)
if-Kept nvm store true p q x y = x
if-Kept nvm store false p q x y = y

module _ (divide : ℕ → ℕ) (truncates : (x : ℕ) → divide x * 1155 ≤ x * 100) where
  use_encoder-Kept :
      (nvm : Nvm) (bits : SwitchBits) (i ticks : ℕ) (store : nvm.Store) (p : nvm.Store × Sequencer)
      → i < 16
      → NoneHeld bits
      → Kept nvm store p
      → Kept nvm store (use_encoder divide nvm bits i ticks p)
  unfolding use_encoder
  use_encoder-Kept nvm bits i ticks store p last none h = rw (h.left) (
      let turned = turn_encoder-InRange divide truncates i ticks p.1 last h.range in
      let pressed =
        if-Kept nvm store (has_bit bits.down i) _ _
          (process_seq_enc_buttons-Kept nvm store i true _ last turned)
          (if-Kept nvm store (has_bit bits.up i) _ _
            (process_seq_enc_buttons-Kept nvm store i false _ last turned)
            record { left = refl; range = turned }) in
      record { left = pressed.left; range = count_down-InRange bits i _ none pressed.range })

-- If all values are in range, the division by 11.55 gives no more than the quotient, the memory is not shown, a slot
-- of the four is selected, nothing was read or written beyond the table of patterns, and no selector of patterns is held down in a pass or
-- was counted as held before it: then no ticks of the encoders and no presses and releases of their switches take a
-- value out of range or read or write beyond the table of patterns. The values of the encoders stay between 0 and
-- 12700, the levels of steps, filters and volumes have seven bits, and the clips and the patterns that are selected
-- are among the first eleven. The pass ends in such a state, too, and leaves the EEPROM.
pub process_sequencer_input-InRange :
    (divide : ℕ → ℕ) (nvm : Nvm) (bits : SwitchBits) (ticks : ℕ → ℕ) (store : nvm.Store)
    (s : Sequencer)
    → ((x : ℕ) → divide x * 1155 ≤ x * 100)
    → NoneHeld bits
    → InRange s
    → ((process_sequencer_input divide nvm bits ticks (store, s)).0 ≡ store)
      × InRange (process_sequencer_input divide nvm bits ticks (store, s)).1
unfolding process_sequencer_input
process_sequencer_input-InRange divide nvm bits ticks store s truncates none h =
    let kept =
      for_range-Keeps (λ _. Kept nvm store) (λ i. use_encoder divide nvm bits i (ticks i)) 16 0 16
        (store, s) (omega arith)
        (λ k p a b e. use_encoder-Kept divide truncates nvm bits k (ticks k) store p b none e)
        record { left = refl; range = h } in
    (kept.left, kept.range)
