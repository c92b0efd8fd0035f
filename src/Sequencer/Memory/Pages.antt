-- ===== src/Sequencer/Memory/Pages.antt =====
-- src/sequencer_input.c: the bytes of the EEPROM behind `save_pattern_memory`.
use midi_fighter_twister_ope.Base.{
  ℕ, zero, suc, ◌+◌, ◌*◌, ◌/◌, ◌%◌, ◌<◌, ◌≡◌, ◌≢◌, ◌∙◌, refl, ap, arith, length, get_or, ltb, ◌==◌,
  ==_iff, if◌then◌else◌, u8, for_range, for_range-Keeps, if_eq, if_ne, Bool-cases, inl, inr,
}
use midi_fighter_twister_ope.Nvm.{Nvm}
use midi_fighter_twister_ope.Encoders.{assign}
use midi_fighter_twister_ope.Sequencer.{Sequencer, get_slot_clip}
use midi_fighter_twister_ope.Sequencer.Memory.{
  memory_page, packed_steps, packed_flag, pattern_page, settings_page, page_bytes,
  save_pattern_memory, fx_slot_full_flag,
}

length-page_bytes : (n i : ℕ) (page : ℕ → ℕ) → length (page_bytes n i page) ≡ n
unfolding page_bytes
length-page_bytes zero i page = refl
length-page_bytes (suc n) i page = ap suc (length-page_bytes n (i + 1) page)

get_or-page_bytes :
    (n i k : ℕ) (page : ℕ → ℕ) → k < n → get_or (page_bytes n i page) k 0 ≡ page (i + k)
unfolding page_bytes
get_or-page_bytes zero i k page h = absurd (omega arith)
get_or-page_bytes (suc n) i zero page h = let e : i + 0 ≡ i = omega arith in rw e refl
get_or-page_bytes (suc n) i (suc k) page h =
    let e : i + suc k ≡ i + 1 + k = omega arith in
    rw e (get_or-page_bytes n (i + 1) k page (omega arith))

page_byte : (k : ℕ) (page : ℕ → ℕ) → k < 32 → get_or (page_bytes 32 0 page) k 0 ≡ page k
page_byte k page h = let e : 0 + k ≡ k = omega arith in get_or-page_bytes 32 0 k page h ∙ ap page e

module _ (nvm : Nvm) (m : ℕ) (store : nvm.Store) (s : Sequencer) where
  abbrev after : nvm.Store
  after = (save_pattern_memory nvm m (store, s)).0

  -- The two pages of the place.
  pub saved_first :
      (k : ℕ) → k < 32 → nvm.read_byte after (32 * memory_page m + k) ≡ u8 (pattern_page s k)
  unfolding save_pattern_memory
  saved_first k h =
      let first = pattern_page s in
      let second = settings_page s first in
      let a : ℕ = 32 * memory_page m + k in
      let page : a / 32 ≡ memory_page m = omega arith in
      let offset : a % 32 ≡ k = omega arith in
      nvm.read_byte-write_page (nvm.write_page store (page_bytes 32 0 first) (memory_page m))
        (page_bytes 32 0 second) (memory_page m + 1) a (length-page_bytes 32 0 second)
      ∙ if_ne (a / 32) (memory_page m + 1) _ _ (λ e. omega arith)
      ∙ nvm.read_byte-write_page store (page_bytes 32 0 first) (memory_page m) a
          (length-page_bytes 32 0 first)
      ∙ if_eq (a / 32) (memory_page m) _ _ page
      ∙ rw (offset, page_byte k first h) refl

  pub saved_second :
      (k : ℕ)
      → k < 32
      → nvm.read_byte after (32 * memory_page m + 32 + k) ≡ u8 (settings_page s (pattern_page s) k)
  unfolding save_pattern_memory
  saved_second k h =
      let first = pattern_page s in
      let second = settings_page s first in
      let a : ℕ = 32 * memory_page m + 32 + k in
      let page : a / 32 ≡ memory_page m + 1 = omega arith in
      let offset : a % 32 ≡ k = omega arith in
      nvm.read_byte-write_page (nvm.write_page store (page_bytes 32 0 first) (memory_page m))
        (page_bytes 32 0 second) (memory_page m + 1) a (length-page_bytes 32 0 second)
      ∙ if_eq (a / 32) (memory_page m + 1) _ _ page
      ∙ rw (offset, page_byte k second h) refl

  -- The others are left alone.
  pub saved_other :
      (a : ℕ)
      → a / 32 ≢ memory_page m
      → a / 32 ≢ memory_page m + 1
      → nvm.read_byte after a ≡ nvm.read_byte store a
  unfolding save_pattern_memory
  saved_other a h k =
      let first = pattern_page s in
      let second = settings_page s first in
      nvm.read_byte-write_page (nvm.write_page store (page_bytes 32 0 first) (memory_page m))
        (page_bytes 32 0 second) (memory_page m + 1) a (length-page_bytes 32 0 second)
      ∙ if_ne (a / 32) (memory_page m + 1) _ _ k
      ∙ nvm.read_byte-write_page store (page_bytes 32 0 first) (memory_page m) a
          (length-page_bytes 32 0 first)
      ∙ if_ne (a / 32) (memory_page m) _ _ h

-- A loop over consecutive elements.
filled :
    (base : ℕ) (f x : ℕ → ℕ) (n c : ℕ)
    → for_range n 0 (λ j page. assign page (base + j) (f j)) x (base + c)
      ≡ (if ltb c n then f c else x (base + c))
filled base f x n c =
    for_range-Keeps (λ k (y : ℕ → ℕ). y (base + c) ≡ (if ltb c k then f c else x (base + c)))
      (λ j page. assign page (base + j) (f j)) n 0 n x (omega arith) (λ k t a b h. grind arith)
      (ground arith)

-- It leaves what lies outside.
filled_outside :
    (base : ℕ) (f x : ℕ → ℕ) (n c : ℕ)
    → ((j : ℕ) → j < n → c ≢ base + j)
    → for_range n 0 (λ j page. assign page (base + j) (f j)) x c ≡ x c
filled_outside base f x n c out =
    for_range-Keeps (λ k (y : ℕ → ℕ). y c ≡ x c) (λ j page. assign page (base + j) (f j)) n 0 n x
      (omega arith) (λ k t a b h. let no = out k b in ground arith) refl

pub pattern_page_lem :
    (s : Sequencer) (i j : ℕ) → i < 4 → j < 8 → pattern_page s (i * 8 + j) ≡ packed_steps s i j
unfolding pattern_page
pattern_page_lem s i j h l =
    for_range-Keeps (λ k (page : ℕ → ℕ). i < k → page (i * 8 + j) ≡ packed_steps s i j)
      (λ i page. for_range 8 0 (λ j page. assign page (i * 8 + j) (packed_steps s i j)) page) 4 0 4
      (λ _. 0) (omega arith)
      (λ k t a b e m. elim (Bool-cases (i == k)) [
        | inl same ↦
            rw ((==_iff i k).0 same) (filled (k * 8) (packed_steps s k) t 8 j ∙ ground arith)
        | inr other ↦
            filled_outside (k * 8) (packed_steps s k) t 8 (i * 8 + j) (λ c d x. ground arith)
            ∙ e (ground arith)
      ])
      (λ m. absurd (omega arith)) h

-- The second page: a clip, the two settings of a slot, and the flag.
pub record Settings (s : Sequencer) (n : ℕ) (page : ℕ → ℕ) : Type 0 where
  pub clips : (i : ℕ) → i < 4 → page i ≡ get_slot_clip s i
  pub filters :
      (i : ℕ)
      → i < n
      → page (4 + i * 2) ≡ packed_flag (s.slot_settings i).filter_on (s.slot_settings i).filter
  pub volumes :
      (i : ℕ)
      → i < n
      → page (4 + i * 2 + 1) ≡ packed_flag (s.slot_settings i).mute_on (s.slot_settings i).volume

clips_filled :
    (s : Sequencer) (page : ℕ → ℕ) (i : ℕ)
    → i < 4
    → for_range 4 0 (λ i page. assign page i (get_slot_clip s i)) page i ≡ get_slot_clip s i
clips_filled s page i h =
    for_range-Keeps (λ k (y : ℕ → ℕ). i < k → y i ≡ get_slot_clip s i)
      (λ i page. assign page i (get_slot_clip s i)) 4 0 4 page (omega arith)
      (λ k t a b e m. grind arith) (λ m. absurd (omega arith)) h

abbrev filter_byte : Sequencer → ℕ → ℕ
filter_byte s i = packed_flag (s.slot_settings i).filter_on (s.slot_settings i).filter

abbrev volume_byte : Sequencer → ℕ → ℕ
volume_byte s i = packed_flag (s.slot_settings i).mute_on (s.slot_settings i).volume

-- A round writes two bytes.
lower_write :
    (f g t : ℕ → ℕ) (k i : ℕ)
    → (i < k → t (4 + i * 2) ≡ f i)
    → i < k + 1
    → assign (assign t (4 + k * 2) (f k)) (4 + k * 2 + 1) (g k) (4 + i * 2) ≡ f i
lower_write f g t k i e h = grind arith

upper_write :
    (f g t : ℕ → ℕ) (k i : ℕ)
    → (i < k → t (4 + i * 2 + 1) ≡ g i)
    → i < k + 1
    → assign (assign t (4 + k * 2) (f k)) (4 + k * 2 + 1) (g k) (4 + i * 2 + 1) ≡ g i
upper_write f g t k i e h = grind arith

pub Settings-filled : (s : Sequencer) (page : ℕ → ℕ) → Settings s 4 (settings_page s page)
unfolding settings_page
Settings-filled s page =
    let clips = clips_filled s page in
    let done =
      for_range-Keeps (Settings s)
        (λ i page.
          assign
            (assign page (4 + i * 2)
              (packed_flag (s.slot_settings i).filter_on (s.slot_settings i).filter))
            (4 + i * 2 + 1) (packed_flag (s.slot_settings i).mute_on (s.slot_settings i).volume))
        4 0 4 (for_range 4 0 (λ i page. assign page i (get_slot_clip s i)) page) (omega arith)
        (λ k t a b e. record {
          clips = λ i h. let c = e.clips i h in ground arith;
          filters = λ i h. lower_write (filter_byte s) (volume_byte s) t k i (e.filters i) h;
          volumes = λ i h. upper_write (filter_byte s) (volume_byte s) t k i (e.volumes i) h;
        })
        record {
          clips = clips;
          filters = λ i h. absurd (omega arith);
          volumes = λ i h. absurd (omega arith);
        } in
    record {
      clips = λ i h. let c = done.clips i h in ground arith;
      filters = λ i h. let c = done.filters i h in ground arith;
      volumes = λ i h. let c = done.volumes i h in ground arith;
    }

pub settings_flag : (s : Sequencer) (page : ℕ → ℕ) → settings_page s page 13 ≡ fx_slot_full_flag
unfolding settings_page
settings_flag s page = refl
