-- ===== src/Sequencer/Memory/Restore.antt =====
-- src/sequencer_input.c: `load_pattern_memory` behind `save_pattern_memory`.
use midi_fighter_twister_ope.Base.{
  ℕ, ◌+◌, ◌*◌, ◌/◌, ◌%◌, ◌<◌, ◌≡◌, ◌≢◌, ◌∙◌, refl, ap, arith, Bool, true, false, ◌==◌, ==_iff,
  if◌then◌else◌, u8, ◌<<<◌, ◌>>>◌, bit_and, bit_or, all_below, below_all, pair_table, by_test, sym,
}
use midi_fighter_twister_ope.Nvm.{Nvm}
use midi_fighter_twister_ope.Sequencer.{Sequencer, get_step_state}
use midi_fighter_twister_ope.Sequencer.Memory.{
  memory_page, packed_steps, packed_flag, pattern_page, settings_page, save_pattern_memory,
  load_pattern_memory,
}
use midi_fighter_twister_ope.Sequencer.Memory.Pages.{
  saved_first, saved_second, pattern_page_lem, Settings-filled,
}
use midi_fighter_twister_ope.Sequencer.Memory.Loading.{step_of, Loaded, load_bytes-Loaded}

even_or_odd : (g : ℕ → ℕ) (j : ℕ) → (if j % 2 == 0 then g (j / 2 * 2) else g (j / 2 * 2 + 1)) ≡ g j
even_or_odd g j = sym (
    by_test (j % 2 == 0)
      (λ t. let e : j ≡ j / 2 * 2 = omega (arith, (==_iff (j % 2) 0).0 t) in ap g e)
      (λ f. let e : j ≡ j / 2 * 2 + 1 = ground arith in ap g e))

four_bits : (v : ℕ) → v < 128 → bit_and 0x0F (v >>> 3) ≡ v / 8
unfolding all_below
four_bits v h =
    (==_iff (bit_and 0x0F (v >>> 3)) (v / 8)).0
      (below_all 128 (λ v. bit_and 0x0F (v >>> 3) == (v / 8)) v h refl)

upper_half :
    (x y : ℕ) → x < 16 → y < 16 → (bit_and (u8 (bit_or (u8 (x <<< 4)) y)) 0xF0 >>> 4) * 8 ≡ x * 8
unfolding all_below
upper_half x y h l = (==_iff ((bit_and (u8 (bit_or (u8 (x <<< 4)) y)) 0xF0 >>> 4) * 8) (x * 8)).0 (
    pair_table 16 16 (λ x y. (bit_and (u8 (bit_or (u8 (x <<< 4)) y)) 0xF0 >>> 4) * 8 == (x * 8)) x y
      refl h l)

lower_half : (x y : ℕ) → x < 16 → y < 16 → bit_and (u8 (bit_or (u8 (x <<< 4)) y)) 0x0F * 8 ≡ y * 8
unfolding all_below
lower_half x y h l = (==_iff (bit_and (u8 (bit_or (u8 (x <<< 4)) y)) 0x0F * 8) (y * 8)).0 (
    pair_table 16 16 (λ x y. bit_and (u8 (bit_or (u8 (x <<< 4)) y)) 0x0F * 8 == (y * 8)) x y refl h
      l)

seven_bits : (on : Bool) (v : ℕ) → v < 128 → bit_and (u8 (packed_flag on v)) 0x7F ≡ v
unfolding all_below packed_flag
seven_bits true v h =
    (==_iff (bit_and (u8 (packed_flag true v)) 0x7F) v).0
      (below_all 128 (λ v. bit_and (u8 (packed_flag true v)) 0x7F == v) v h refl)
seven_bits false v h =
    (==_iff (bit_and (u8 (packed_flag false v)) 0x7F) v).0
      (below_all 128 (λ v. bit_and (u8 (packed_flag false v)) 0x7F == v) v h refl)

-- Values within their ranges: seven bits, bytes for the clips, and selected patterns of the table.
pub record HasLevels (s : Sequencer) : Type 0 where
  pub steps : (a b c : ℕ) → a < 4 → b < 12 → c < 16 → s.pattern a b c < 128
  pub clips : (a : ℕ) → a < 4 → s.slot_clip a < 256
  pub buffers : (a : ℕ) → a < 4 → s.slot_selected_buffer a < 12
  pub filters : (a : ℕ) → a < 4 → (s.slot_settings a).filter < 128
  pub volumes : (a : ℕ) → a < 4 → (s.slot_settings a).volume < 128

module _ (nvm : Nvm) (m : ℕ) (store : nvm.Store) (s : Sequencer) (levels : HasLevels s) where
  abbrev byte : ℕ → ℕ
  byte k = nvm.read_byte (save_pattern_memory nvm m (store, s)).0 (32 * memory_page m + k)

  saved_step : (i j : ℕ) → i < 4 → j < 16 → step_of byte i j ≡ get_step_state s i j / 8 * 8
  unfolding packed_steps get_step_state
  saved_step i j h l =
      let x = get_step_state s i (j / 2 * 2) in
      let y = get_step_state s i (j / 2 * 2 + 1) in
      let lx : x < 128 = levels.steps i _ (j / 2 * 2) h (levels.buffers i h) (omega arith) in
      let ly : y < 128 = levels.steps i _ (j / 2 * 2 + 1) h (levels.buffers i h) (omega arith) in
      let at : byte (i * 8 + j / 2) ≡ u8 (packed_steps s i (j / 2)) =
        saved_first nvm m store s (i * 8 + j / 2) (omega arith)
        ∙ rw (pattern_page_lem s i (j / 2) h (omega arith)) refl in
      rw
        (
          at,
          four_bits x lx,
          four_bits y ly,
          upper_half (x / 8) (y / 8) (omega arith) (omega arith),
          lower_half (x / 8) (y / 8) (omega arith) (omega arith),
        )
        (even_or_odd (λ c. get_step_state s i c / 8 * 8) j)

  saved_setting : (k : ℕ) → k < 32 → byte (32 + k) ≡ u8 (settings_page s (pattern_page s) k)
  saved_setting k h =
      let place : 32 * memory_page m + (32 + k) ≡ 32 * memory_page m + 32 + k = omega arith in
      ap (nvm.read_byte (save_pattern_memory nvm m (store, s)).0) place
      ∙ saved_second nvm m store s k h

  loaded :
      (t : Sequencer)
      → Loaded byte t (load_pattern_memory nvm (save_pattern_memory nvm m (store, s)).0 m t)
  unfolding load_pattern_memory
  loaded t = load_bytes-Loaded byte t

  -- A saved place that is loaded, whatever the sequencer has come to since, brings back for each of the four
  -- slots the velocities of the selected pattern, each rounded down to a multiple of 8, the clip, the filter and
  -- the volume. The pattern is put into the first buffer, which is selected; the other buffers stay.
  pub load_pattern_memory-save_pattern_memory :
      (t : Sequencer) (slot j b : ℕ)
      → slot < 4
      → j < 16
      → b ≢ 0
      → (let u = load_pattern_memory nvm (save_pattern_memory nvm m (store, s)).0 m t in
          (get_step_state u slot j ≡ get_step_state s slot j / 8 * 8)
          × (u.slot_clip slot ≡ s.slot_clip slot)
          × ((u.slot_settings slot).filter ≡ (s.slot_settings slot).filter)
          × ((u.slot_settings slot).volume ≡ (s.slot_settings slot).volume)
          × (u.slot_selected_buffer slot ≡ 0)
          × (u.pattern slot b j ≡ t.pattern slot b j))
  unfolding get_step_state
  load_pattern_memory-save_pattern_memory t slot j b h l ne =
      let done = loaded t in
      let second = Settings-filled s (pattern_page s) in
      let filter_place : 36 + slot * 2 ≡ 32 + (4 + slot * 2) = omega arith in
      let volume_place : 36 + slot * 2 + 1 ≡ 32 + (4 + slot * 2 + 1) = omega arith in
      (
        done.pattern slot _ j l ∙ rw (done.buffers slot h, saved_step slot j h l) (ground arith),
        done.clips slot h
            ∙ rw (saved_setting slot (omega arith), second.clips slot h)
                (omega (arith, levels.clips slot h)),
        done.filters slot h
            ∙ rw (filter_place, saved_setting (4 + slot * 2) (omega arith), second.filters slot h)
                (seven_bits _ _ (levels.filters slot h)),
        done.volumes slot h
            ∙ rw
                (
                  volume_place,
                  saved_setting (4 + slot * 2 + 1) (omega arith),
                  second.volumes slot h,
                )
                (seven_bits _ _ (levels.volumes slot h)),
        done.buffers slot h,
        done.pattern slot b j l ∙ ground arith,
      )
