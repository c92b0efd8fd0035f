-- ===== src/Sequencer/Memory/Slots.antt =====
-- src/sequencer_input.c: which places of the memory are full, in the bit field and in the EEPROM.
use midi_fighter_twister_ope.Base.{
  ℕ, ◌+◌, ◌-◌, ◌*◌, ◌<◌, ◌≡◌, ◌≢◌, ◌∙◌, refl, ap, sym, subst, arith, Bool, true, false, ◌&&◌, ltb,
  ◌==◌, ==_iff, if◌then◌else◌, u16, ◌<<<◌, for_range-Keeps, by_test, bit, bit-lt, bit-bit_or,
  bit-bit_and, bit-zero, bit_or, pair_table, all_below,
}
use midi_fighter_twister_ope.Nvm.{Nvm}
use midi_fighter_twister_ope.Sequencer.{Sequencer}
use midi_fighter_twister_ope.Sequencer.Memory.{
  memory_page, pattern_memory_init, delete_pattern_memory, save_pattern_memory, fx_slot_full_flag,
  flag_address, pattern_page,
}
use midi_fighter_twister_ope.Sequencer.Memory.Pages.{saved_second, saved_other, settings_flag}

pub bit-one : (m i : ℕ) → m < 16 → i < 16 → bit (u16 (1 <<< m)) i ≡ (if i == m then 1 else 0)
unfolding all_below
bit-one m i h l =
    (==_iff (bit (u16 (1 <<< m)) i) (if i == m then 1 else 0)).0
      (pair_table 16 16 (λ m i. bit (u16 (1 <<< m)) i == (if i == m then 1 else 0)) m i refl h l)

bit-others :
    (m i : ℕ) → m < 16 → i < 16 → bit (u16 (0xFFFF - u16 (1 <<< m))) i ≡ (if i == m then 0 else 1)
unfolding all_below
bit-others m i h l = (==_iff (bit (u16 (0xFFFF - u16 (1 <<< m))) i) (if i == m then 0 else 1)).0 (
    pair_table 16 16 (λ m i. bit (u16 (0xFFFF - u16 (1 <<< m))) i == (if i == m then 0 else 1)) m i
      refl h l)

one_more :
    (full : Bool) (state k i : ℕ)
    → k < 16
    → i < 16
    → bit (if full then bit_or state (u16 (1 <<< k)) else state) i
      ≡ (if full && (i == k) then 1 else bit state i)
one_more true state k i h l =
    rw (bit-bit_or state (u16 (1 <<< k)) i, bit-one k i h l) (ground (arith, bit-lt state i))
one_more false state k i h l = refl

module _ (nvm : Nvm) where
  open nvm use {Store, read_byte, write_byte}

  -- The bit of a place whose flag is in the EEPROM.
  abbrev full_bit : Store → ℕ → ℕ
  full_bit store i = if read_byte store (flag_address i) == fx_slot_full_flag then 1 else 0

  init_bit :
      (store : Store) (s : Sequencer) (i : ℕ)
      → i < 16
      → bit (pattern_memory_init nvm store s).memory_slot_state i ≡ full_bit store i
  unfolding pattern_memory_init
  init_bit store s i h =
      for_range-Keeps (λ k state. bit state i ≡ (if ltb i k then full_bit store i else 0)) _ 16 0 16
        0 (omega arith)
        (λ k t a b e.
          let place : 32 * 31 + 45 + k * 64 ≡ flag_address k = omega arith in
          rw (place, one_more (read_byte store (flag_address k) == fx_slot_full_flag) t k i b h)
            (ground (arith, e, bit-lt t i)))
        (bit-zero i ∙ ground arith)
      ∙ ground arith

  saved_flag :
      (m : ℕ) (store : Store) (s : Sequencer) (i : ℕ)
      → read_byte (save_pattern_memory nvm m (store, s)).0 (flag_address i)
        ≡ (if i == m then fx_slot_full_flag else read_byte store (flag_address i))
  saved_flag m store s i =
      by_test (i == m)
        (λ same.
          let place : flag_address i ≡ 32 * memory_page m + 32 + 13 =
            omega (arith, (==_iff i m).0 same) in
          rw (place, saved_second nvm m store s 13 (omega arith), settings_flag s (pattern_page s))
            refl)
        (λ other.
          let ne : i ≢ m = λ e. ground arith in
          saved_other nvm m store s (flag_address i) (λ e. ne (omega arith))
            (λ e. ne (omega arith)))

  pub saved_state :
      (m : ℕ) (store : Store) (s : Sequencer)
      → (save_pattern_memory nvm m (store, s)).1.memory_slot_state
        ≡ bit_or s.memory_slot_state (u16 (1 <<< m))
  unfolding save_pattern_memory
  saved_state m store s = refl

  save_bit :
      (m : ℕ) (store : Store) (s : Sequencer) (i : ℕ)
      → m < 16
      → i < 16
      → bit s.memory_slot_state i ≡ full_bit store i
      → bit (save_pattern_memory nvm m (store, s)).1.memory_slot_state i
        ≡ full_bit (save_pattern_memory nvm m (store, s)).0 i
  save_bit m store s i h l e =
      rw
        (
          saved_flag m store s i,
          saved_state m store s,
          bit-bit_or s.memory_slot_state (u16 (1 <<< m)) i,
          bit-one m i h l,
        )
        (ground (arith, e, bit-lt s.memory_slot_state i))

  delete_bit :
      (m : ℕ) (store : Store) (s : Sequencer) (i : ℕ)
      → m < 16
      → i < 16
      → bit s.memory_slot_state i ≡ full_bit store i
      → bit (delete_pattern_memory nvm m (store, s)).1.memory_slot_state i
        ≡ full_bit (delete_pattern_memory nvm m (store, s)).0 i
  unfolding delete_pattern_memory
  delete_bit m store s i h l e =
      rw
        (
          nvm.read_byte-write_byte store (flag_address m) 0xFF (flag_address i),
          bit-bit_and s.memory_slot_state (u16 (0xFFFF - u16 (1 <<< m))) i,
          bit-others m i h l,
        )
        (ground (arith, e, bit-lt s.memory_slot_state i))

  -- What happens to the EEPROM and the sequencer from power-up on; all but saving and deleting leaves the EEPROM and
  -- the bit field alone.
  pub data Reach (start : Store) : Store → Sequencer → Type 0 where
    power_up : (s : Sequencer) → Reach start start (pattern_memory_init nvm start s)
    saved :
        (m : ℕ) (store after : Store) (s t : Sequencer)
        → m < 16
        → Reach start store s
        → save_pattern_memory nvm m (store, s) ≡ (after, t)
        → Reach start after t
    deleted :
        (m : ℕ) (store after : Store) (s t : Sequencer)
        → m < 16
        → Reach start store s
        → delete_pattern_memory nvm m (store, s) ≡ (after, t)
        → Reach start after t
    played :
        (store : Store) (s t : Sequencer)
        → Reach start store s
        → t.memory_slot_state ≡ s.memory_slot_state
        → Reach start store t

  -- However places are saved and deleted after power-up, in any order, the bit field of the full places is the
  -- one that the next power-up would find in the EEPROM.
  pub Reach-pattern_memory_init :
      (start store : Store) (s : Sequencer) (i : ℕ)
      → i < 16
      → Reach start store s
      → bit s.memory_slot_state i ≡ bit (pattern_memory_init nvm store s).memory_slot_state i
  Reach-pattern_memory_init start store s i h r =
      agrees start store s i h r ∙ sym (init_bit store s i h)
    where
      agrees :
          (start store : Store) (s : Sequencer) (i : ℕ)
          → i < 16
          → Reach start store s
          → bit s.memory_slot_state i ≡ full_bit store i
      agrees start store t i h (power_up s) = init_bit store s i h
      agrees start store t i h (saved m old after s u l r e) =
          subst (λ p. bit p.1.memory_slot_state i ≡ full_bit p.0 i) e
            (save_bit m old s i l h (agrees start old s i h r))
      agrees start store t i h (deleted m old after s u l r e) =
          subst (λ p. bit p.1.memory_slot_state i ≡ full_bit p.0 i) e
            (delete_bit m old s i l h (agrees start old s i h r))
      agrees start store t i h (played old s u r e) =
          ap (λ x. bit x i) e ∙ agrees start store s i h r
