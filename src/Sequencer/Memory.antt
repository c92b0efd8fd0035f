-- ===== src/Sequencer/Memory.antt =====
-- src/sequencer_input.c, the memory of patterns: 16 places of two pages in the EEPROM, from page 31 on.
pub mod Pages
pub mod Slots
pub mod Loading
pub mod Restore
use midi_fighter_twister_ope.Base.{
  ◌||◌, ◌&&◌, ltb, ℕ, zero, suc, ◌+◌, ◌-◌, ◌*◌, ◌/◌, ◌%◌, Bool, true, false, not, List, [], ◌∷◌,
  ◌==◌, if◌then◌else◌, u8, u16, ◌<<<◌, ◌>>>◌, bit_and, bit_or, for_range,
}
use midi_fighter_twister_ope.Nvm.{Nvm}
use midi_fighter_twister_ope.Encoders.{assign}
use midi_fighter_twister_ope.Sequencer.{
  all_within, Sequencer, SlotSettings, get_step_state, set_step_state, get_slot_clip, set_slot_clip,
  assign_slot, send_seq_cc,
}

-- `SEQ_EEPROM_START_PAGE + (memory_slot * 2)`.
abbrev pub memory_page : ℕ → ℕ
memory_page memory_slot = 31 + memory_slot * 2

-- `FX_SLOT_FULL_FLAG`, and its place behind the four patterns, the clips, the settings and the flags.
abbrev pub fx_slot_full_flag : ℕ
fx_slot_full_flag = 0xA5

abbrev pub flag_address : ℕ → ℕ
flag_address memory_slot = 32 * memory_page memory_slot + 45

-- The velocities of the steps 2j and 2j+1 of a slot, four bits each.
unfoldable pub packed_steps : Sequencer → ℕ → ℕ → ℕ
packed_steps s i j =
    bit_or (u8 (bit_and 0x0F (get_step_state s i (j * 2) >>> 3) <<< 4))
      (bit_and 0x0F (get_step_state s i (j * 2 + 1) >>> 3))

-- A setting of seven bits with a flag in the eighth.
unfoldable pub packed_flag : Bool → ℕ → ℕ
packed_flag on value = u8 (bit_or (bit_and 0x80 ((if on then 1 else 0) <<< 7)) value)

unfoldable pub fx_flags : Sequencer → ℕ
fx_flags s =
    for_range 4 0
      (λ i flags. bit_or flags (if (s.slot_settings i).fx_send then u8 (1 <<< i) else 0)) 0

-- The page buffer as a function of the position that `buffer_ptr` has.
unfoldable pub pattern_page : Sequencer → ℕ → ℕ
unfolding packed_steps
pattern_page s =
    for_range 4 0
      (λ i page. for_range 8 0 (λ j page. assign page (i * 8 + j) (packed_steps s i j)) page)
      (λ _. 0)

unfoldable pub settings_page : Sequencer → (ℕ → ℕ) → ℕ → ℕ
unfolding packed_flag fx_flags
settings_page s page =
    let clips = for_range 4 0 (λ i page. assign page i (get_slot_clip s i)) page in
    let settings =
      for_range 4 0
        (λ i page.
          assign
            (assign page (4 + i * 2)
              (packed_flag (s.slot_settings i).filter_on (s.slot_settings i).filter))
            (4 + i * 2 + 1) (packed_flag (s.slot_settings i).mute_on (s.slot_settings i).volume))
        clips in
    assign (assign settings 12 (bit_and (fx_flags s) 0x0F)) 13 fx_slot_full_flag

-- The bytes of a page buffer.
unfoldable pub page_bytes : ℕ → ℕ → (ℕ → ℕ) → List ℕ
page_bytes zero i page = []
page_bytes (suc n) i page = page i ∷ page_bytes n (i + 1) page

unfoldable pub load_steps : (ℕ → ℕ) → ℕ → ℕ → Sequencer → Sequencer
load_steps byte i j s =
    set_step_state i (j * 2 + 1) (bit_and (byte (i * 8 + j)) 0x0F * 8)
      (set_step_state i (j * 2) ((bit_and (byte (i * 8 + j)) 0xF0 >>> 4) * 8) s)

unfoldable pub load_slot : (ℕ → ℕ) → ℕ → Sequencer → Sequencer
unfolding load_steps
load_slot byte i s =
    for_range 8 0 (load_steps byte i)
      record s { slot_selected_buffer = assign s.slot_selected_buffer i 0 }

-- `state`, the eighth bit of a byte.
abbrev pub flag_of : ℕ → Bool
flag_of byte = not (bit_and byte 0x80 == 0)

-- `a != b`.
abbrev pub differs : Bool → Bool → Bool
differs true b = not b
differs false b = b

abbrev pub put_filter : ℕ → ℕ → Sequencer → Sequencer
put_filter i value s = record s {
  slot_settings = assign_slot s.slot_settings i (record (s.slot_settings i) { filter = value });
}

abbrev pub put_volume : ℕ → ℕ → Sequencer → Sequencer
put_volume i value s = record s {
  slot_settings = assign_slot s.slot_settings i (record (s.slot_settings i) { volume = value });
}

-- The mapping of the host toggles the filter and the mute, so a message is sent only for a change.
abbrev pub send_if : Bool → ℕ → Sequencer → Sequencer
send_if true cc s = send_seq_cc cc 127 s
send_if false cc s = s

unfoldable pub load_filter : (ℕ → ℕ) → ℕ → Sequencer → Sequencer
load_filter byte i s =
    send_if (differs (s.slot_settings i).filter_on (flag_of (byte (36 + i * 2)))) (24 + i)
      (put_filter i (bit_and (byte (36 + i * 2)) 0x7F) s)

unfoldable pub load_volume : (ℕ → ℕ) → ℕ → Sequencer → Sequencer
load_volume byte i s =
    send_if (differs (s.slot_settings i).mute_on (flag_of (byte (36 + i * 2 + 1)))) (20 + i)
      (put_volume i (bit_and (byte (36 + i * 2 + 1)) 0x7F) s)

unfoldable pub load_fx : (ℕ → ℕ) → ℕ → Sequencer → Sequencer
load_fx byte i s =
    send_seq_cc (102 + i + 4) (if not (bit_and (byte 44) (u8 (1 <<< i)) == 0) then 127 else 0) s

-- `byte k` is the byte that is read when `addr` has grown by `k`.
unfoldable pub load_bytes : (ℕ → ℕ) → Sequencer → Sequencer
unfolding load_slot load_filter load_volume load_fx
load_bytes byte s = for_range 4 0 (load_fx byte) (
    for_range 4 0 (λ i s. load_volume byte i (load_filter byte i s))
      (for_range 4 0 (λ i s. set_slot_clip i (byte (32 + i)) s) (for_range 4 0 (load_slot byte) s)))

module _ (nvm : Nvm) where
  open nvm use {Store, read_byte, write_byte, write_page}

  unfoldable pub pattern_memory_init : Store → Sequencer → Sequencer
  pattern_memory_init store s = record s {
    memory_slot_state =
        for_range 16 0
          (λ i state.
            if read_byte store (32 * 31 + 45 + i * 64) == fx_slot_full_flag
            then bit_or state (u16 (1 <<< i))
            else state)
          0;
  }

  -- `state & ~(1 << memory_slot)`.
  unfoldable pub delete_pattern_memory : ℕ → Store × Sequencer → Store × Sequencer
  delete_pattern_memory memory_slot (store, s) = (
    write_byte store (flag_address memory_slot) 0xFF,
    record s {
      memory_slot_state = bit_and s.memory_slot_state (u16 (0xFFFF - u16 (1 <<< memory_slot)));
    },
  )

  unfoldable pub save_pattern_memory : ℕ → Store × Sequencer → Store × Sequencer
  unfolding pattern_page settings_page page_bytes
  save_pattern_memory memory_slot (store, s) =
      let first = pattern_page s in
      let second = settings_page s first in
      (
        write_page (write_page store (page_bytes 32 0 first) (memory_page memory_slot))
            (page_bytes 32 0 second) (memory_page memory_slot + 1),
        record s {
          memory_slot_state = bit_or s.memory_slot_state (u16 (1 <<< memory_slot));
          overrun = s.overrun || not (all_within s);
        },
      )

  unfoldable pub load_pattern_memory : Store → ℕ → Sequencer → Sequencer
  unfolding load_bytes
  load_pattern_memory store memory_slot s =
      load_bytes (λ k. read_byte store (32 * memory_page memory_slot + k)) s
