-- ===== src/Settings/Bytes.antt =====
-- src/encoders.c, `save_encoder_config`: which bytes of the EEPROM it changes, and how.
use midi_fighter_twister_ope.Base.{
  ℕ, zero, suc, ◌+◌, ◌*◌, ◌/◌, ◌%◌, ◌<◌, ◌≤◌, ◌≡◌, ◌⊎◌, inl, inr, refl, ap, ◌∙◌, List, [], ◌∷◌,
  arith, length, get_or, set, length-set, get_or-set_self, get_or-set_ne, ◌==◌, ==_iff, Bool-cases,
  if◌then◌else◌, u8,
}
use midi_fighter_twister_ope.Nvm.{Nvm}
use midi_fighter_twister_ope.Settings.{
  EncoderConfig, config_address, updates, update_from, save_to_eeprom,
}

abbrev pub unchanged : ℕ → ℕ
unchanged byte = byte

pub length-update_from :
    (fs : List (ℕ → ℕ)) (pos : ℕ) (page : List ℕ) → length (update_from fs pos page) ≡ length page
unfolding update_from
length-update_from [] pos page = refl
length-update_from (f ∷ fs) pos page =
    length-update_from fs (pos + 1) (set page pos (f (get_or page pos 0)))
    ∙ length-set page pos (f (get_or page pos 0))

outside :
    (fs : List (ℕ → ℕ)) (pos : ℕ) (page : List ℕ) (j : ℕ)
    → (j < pos) ⊎ (pos + length fs ≤ j)
    → get_or (update_from fs pos page) j 0 ≡ get_or page j 0
unfolding update_from
outside [] pos page j h = refl
outside (f ∷ fs) pos page j h =
    outside fs (pos + 1) (set page pos (f (get_or page pos 0))) j (omega arith)
    ∙ get_or-set_ne page pos j (f (get_or page pos 0)) 0 (omega arith)

inside :
    (fs : List (ℕ → ℕ)) (pos : ℕ) (page : List ℕ) (i : ℕ)
    → i < length fs
    → pos + length fs ≤ length page
    → get_or (update_from fs pos page) (pos + i) 0 ≡ get_or fs i unchanged (get_or page (pos + i) 0)
unfolding update_from
inside [] pos page i h r = absurd (omega arith)
inside (f ∷ fs) pos page zero h r =
    let here : pos + zero ≡ pos = omega arith in
    rw here (
      outside fs (pos + 1) (set page pos (f (get_or page pos 0))) pos (omega arith)
      ∙ get_or-set_self page pos (f (get_or page pos 0)) 0 (omega arith))
inside (f ∷ fs) pos page (suc i) h r =
    let next : pos + suc i ≡ pos + 1 + i = omega arith in
    rw next (
      inside fs (pos + 1) (set page pos (f (get_or page pos 0))) i (omega arith)
        (omega (arith, length-set page pos (f (get_or page pos 0))))
      ∙ ap (get_or fs i unchanged)
          (get_or-set_ne page pos (pos + 1 + i) (f (get_or page pos 0)) 0 (omega arith)))

module _ (nvm : Nvm) (s : nvm.Store) (bank encoder : ℕ) (cfg : EncoderConfig) where
  abbrev slot : ℕ
  slot = 8 * (encoder % 4)

  abbrev page_address : ℕ
  page_address = 1 * 32 + bank * 128 + encoder / 4 * 32

  abbrev page_buffer : List ℕ
  page_buffer = nvm.read_buffer s page_address 32

  abbrev merged : List ℕ
  merged = update_from (updates cfg) slot page_buffer

  length-merged : length merged ≡ 32
  length-merged =
      length-update_from (updates cfg) slot page_buffer ∙ nvm.length-read_buffer s page_address 32

  -- A byte of the page comes from the merged buffer, any other stays.
  saved_byte :
      (a : ℕ)
      → nvm.read_byte (save_to_eeprom nvm s bank encoder cfg) a ≡ (
          if a / 32 == 1 + 4 * bank + encoder / 4
          then u8 (get_or merged (a % 32) 0)
          else nvm.read_byte s a)
  unfolding save_to_eeprom
  saved_byte a = nvm.read_byte-write_page s merged (1 + 4 * bank + encoder / 4) a length-merged

  page_byte : (a j : ℕ) → j < 32 → a ≡ page_address + j → get_or page_buffer j 0 ≡ nvm.read_byte s a
  page_byte a j h e = rw e (nvm.get_or-read_buffer s page_address 32 j h)

  merged_inside :
      (i : ℕ)
      → i < 8
      → get_or merged (slot + i) 0
        ≡ get_or (updates cfg) i unchanged (get_or page_buffer (slot + i) 0)
  unfolding updates
  merged_inside i h =
      inside (updates cfg) slot page_buffer i h
        (omega (arith, nvm.length-read_buffer s page_address 32))

  merged_outside :
      (j : ℕ) → (j < slot) ⊎ (slot + 8 ≤ j) → get_or merged j 0 ≡ get_or page_buffer j 0
  unfolding updates
  merged_outside j h = outside (updates cfg) slot page_buffer j h

  -- The eight bytes of the encoder are updated.
  pub saved_inside :
      (i : ℕ)
      → i < 8
      → nvm.read_byte (save_to_eeprom nvm s bank encoder cfg) (config_address bank encoder + i)
        ≡ u8 (get_or (updates cfg) i unchanged (nvm.read_byte s (config_address bank encoder + i)))
  saved_inside i h =
      let a : ℕ = config_address bank encoder + i in
      let page : a / 32 ≡ 1 + 4 * bank + encoder / 4 = omega arith in
      let offset : a % 32 ≡ slot + i = omega arith in
      saved_byte a
      ∙ rw (
        (==_iff (a / 32) (1 + 4 * bank + encoder / 4)).1 page,
        offset,
        merged_inside i h,
        page_byte a (slot + i) (omega arith) (omega arith),
      )

  -- No other byte is.
  pub saved_outside :
      (a : ℕ)
      → (a < config_address bank encoder) ⊎ (config_address bank encoder + 8 ≤ a)
      → nvm.read_byte (save_to_eeprom nvm s bank encoder cfg) a ≡ nvm.read_byte s a
  saved_outside a h = saved_byte a ∙ elim (Bool-cases (a / 32 == 1 + 4 * bank + encoder / 4)) [
    | inl same ↦
        let page : a / 32 ≡ 1 + 4 * bank + encoder / 4 =
          (==_iff (a / 32) (1 + 4 * bank + encoder / 4)).0 same in
        let byte = page_byte a (a % 32) (omega arith) (omega arith) in
        rw (same, merged_outside (a % 32) (omega arith), byte) (omega (arith, nvm.read_byte-lt s a))
    | inr other ↦ rw other
  ]
