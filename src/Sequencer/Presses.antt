-- ===== src/Sequencer/Presses.antt =====
-- src/sequencer_input.c: what presses of the switches come to, together with the memory of patterns.
use midi_fighter_twister_ope.Base.{
  Bool-cases, inl, inr, ℕ, ◌*◌, ◌/◌, ◌<◌, ◌≡◌, ◌∙◌, refl, ap, arith, Bool, true, false, not, ◌==◌,
  ==_iff, if◌then◌else◌, for_range-Keeps, bit, bit-bit_and, bit-zero, bit_and, u8, u16, ◌<<<◌,
  bit-bit_or, bit-lt,
}
use midi_fighter_twister_ope.Nvm.{Nvm}
use midi_fighter_twister_ope.Encoders.{assign}
use midi_fighter_twister_ope.Sequencer.{Sequencer, pattern_memory, get_step_state}
use midi_fighter_twister_ope.Sequencer.Host.{memory_raw_values}
use midi_fighter_twister_ope.Sequencer.Buttons.{
  memory_button, process_seq_enc_buttons, with_active, load_place, save_place,
}
use midi_fighter_twister_ope.Sequencer.Memory.{save_pattern_memory, load_pattern_memory}
use midi_fighter_twister_ope.Sequencer.Memory.Slots.{bit-one, saved_state}
use midi_fighter_twister_ope.Sequencer.Memory.Restore.{
  HasLevels, load_pattern_memory-save_pattern_memory,
}

-- Drawing the display of the memory leaves the music.
record Draws (s t : Sequencer) : Type 0 where
  pattern : t.pattern ≡ s.pattern
  buffers : t.slot_selected_buffer ≡ s.slot_selected_buffer
  clips : t.slot_clip ≡ s.slot_clip
  settings : t.slot_settings ≡ s.slot_settings
  places : t.memory_slot_state ≡ s.memory_slot_state
  active : t.active_memory_slot ≡ s.active_memory_slot

memory_raw_values-Draws : (s : Sequencer) → Draws s (memory_raw_values s)
unfolding memory_raw_values
memory_raw_values-Draws s =
    for_range-Keeps (λ _. Draws s) _ 16 0 16 s (omega arith)
      (λ k t a b h. record {
        pattern = h.pattern;
        buffers = h.buffers;
        clips = h.clips;
        settings = h.settings;
        places = h.places;
        active = h.active;
      })
      record {
        pattern = refl;
        buffers = refl;
        clips = refl;
        settings = refl;
        places = refl;
        active = refl;
      }

-- The test of a place in the bit field.
abbrev pub is_full : Sequencer → ℕ → Bool
is_full s i = not (bit_and s.memory_slot_state (u16 (1 <<< i)) == 0)

full_of_bit : (s : Sequencer) (i : ℕ) → i < 16 → bit s.memory_slot_state i ≡ 1 → is_full s i ≡ true
full_of_bit s i h set =
    let state = s.memory_slot_state in
    let digit : bit (bit_and state (u16 (1 <<< i))) i ≡ 1 =
      bit-bit_and state (u16 (1 <<< i)) i ∙ rw (set, bit-one i i h h) (ground arith) in
    elim (Bool-cases (bit_and state (u16 (1 <<< i)) == 0)) [
      | inl nothing ↦
          let e = ap (λ x. bit x i) ((==_iff (bit_and state (u16 (1 <<< i))) 0).0 nothing) in
          absurd (omega (arith, digit, e, bit-zero i))
      | inr other ↦ rw other refl
    ]

module _ (nvm : Nvm) (i : ℕ) (store : nvm.Store) (s : Sequencer) where
  press :
      s.display_state ≡ pattern_memory
      → s.shift_active ≡ false
      → process_seq_enc_buttons nvm i true (store, s)
        ≡ (if is_full s i then load_place nvm i (store, s) else save_place nvm i (store, s))
  unfolding process_seq_enc_buttons memory_button
  press shown off = ground arith

module _ (nvm : Nvm) (i : ℕ) (below : i < 16) (store : nvm.Store) (s : Sequencer) where
  saved_place :
      ((save_place nvm i (store, s)).0 ≡ (save_pattern_memory nvm i (store, s)).0)
      × (bit (save_place nvm i (store, s)).1.memory_slot_state i ≡ 1)
  unfolding save_place
  saved_place = (
    refl,
    ap (λ x. bit x i)
          ((memory_raw_values-Draws (
              with_active i 127 record ((save_pattern_memory nvm i (store, s)).1) {
                raw_value = assign s.raw_value i 12700;
              })).places
            ∙ saved_state nvm i store s)
        ∙ bit-bit_or s.memory_slot_state (u16 (1 <<< i)) i
        ∙ rw (bit-one i i below below) (ground (arith, bit-lt s.memory_slot_state i)),
  )

  loaded_place :
      (t : Sequencer) (slot j : ℕ)
      → HasLevels s
      → slot < 4
      → j < 16
      → (let loaded = load_place nvm i ((save_pattern_memory nvm i (store, s)).0, t) in
          let u = loaded.1 in
          (loaded.0 ≡ (save_pattern_memory nvm i (store, s)).0)
          × (get_step_state u slot j ≡ get_step_state s slot j / 8 * 8)
          × (u.slot_clip slot ≡ s.slot_clip slot)
          × ((u.slot_settings slot).filter ≡ (s.slot_settings slot).filter)
          × ((u.slot_settings slot).volume ≡ (s.slot_settings slot).volume))
  unfolding load_place get_step_state
  loaded_place t slot j levels h l =
      let after = (save_pattern_memory nvm i (store, s)).0 in
      let music =
        load_pattern_memory-save_pattern_memory nvm i store s levels t slot j 1 h l
          (λ e. omega arith) in
      let drawn =
        memory_raw_values-Draws
          (with_active i (u8 (t.raw_value i / 100)) (load_pattern_memory nvm after i t)) in
      (
        refl,
        rw (drawn.pattern, drawn.buffers) music.0,
        rw (drawn.clips) music.1,
        rw (drawn.settings) music.2,
        rw (drawn.settings) music.3,
      )

-- If all velocities of the first sixteen steps, filters and volumes have seven bits, the clips eight, and the
-- selected patterns are of the table of 12: in the display of the memory without the shift, a press of the switch
-- of an empty place and a later press of the same switch, whatever was played and edited in between, if no place
-- was saved or deleted, leave the EEPROM as the first press did, and bring back for each slot the velocities of
-- the pattern as at the first press, rounded down to multiples of 8, the clip, the filter and the volume.
pub process_seq_enc_buttons_lem :
    (nvm : Nvm) (i : ℕ) (store : nvm.Store) (s t : Sequencer) (slot j : ℕ)
    → i < 16
    → HasLevels s
    → s.display_state ≡ pattern_memory
    → s.shift_active ≡ false
    → is_full s i ≡ false
    → t.display_state ≡ pattern_memory
    → t.shift_active ≡ false
    → t.memory_slot_state ≡ (process_seq_enc_buttons nvm i true (store, s)).1.memory_slot_state
    → slot < 4
    → j < 16
    → (let first = process_seq_enc_buttons nvm i true (store, s) in
        let second = process_seq_enc_buttons nvm i true (first.0, t) in
        (second.0 ≡ first.0)
        × (get_step_state second.1 slot j ≡ get_step_state s slot j / 8 * 8)
        × (second.1.slot_clip slot ≡ s.slot_clip slot)
        × ((second.1.slot_settings slot).filter ≡ (s.slot_settings slot).filter)
        × ((second.1.slot_settings slot).volume ≡ (s.slot_settings slot).volume))
process_seq_enc_buttons_lem nvm i store s t slot j below levels shown off empty shown_again
      off_again kept h l =
    let saved = saved_place nvm i below store s in
    let first : process_seq_enc_buttons nvm i true (store, s) ≡ save_place nvm i (store, s) =
      press nvm i store s shown off ∙ rw empty refl in
    let full : is_full t i ≡ true =
      full_of_bit t i below
        (ap (λ x. bit x i) kept ∙ ap (λ p. bit p.1.memory_slot_state i) first ∙ saved.1) in
    let again : process_seq_enc_buttons nvm i true ((save_pattern_memory nvm i (store, s)).0, t)
        ≡ load_place nvm i ((save_pattern_memory nvm i (store, s)).0, t) =
      press nvm i (save_pattern_memory nvm i (store, s)).0 t shown_again off_again ∙ rw full refl in
    rw (first, saved.0, again) (loaded_place nvm i below store s t slot j levels h l)
