-- ===== src/Sequencer/Indices/Inputs.antt =====
-- src/sequencer.c and src/sequencer_input.c: the messages of the host and the switches of the encoders keep the
-- indices in range.
use midi_fighter_twister_ope.Base.{
  ℕ, ◌+◌, ◌-◌, ◌*◌, ◌/◌, ◌%◌, ◌<◌, ◌≡◌, refl, arith, Bool, true, false, not, ◌&&◌, ltb, leb, ◌==◌,
  if◌then◌else◌, u16, bit_and, ◌<<<◌,
}
use midi_fighter_twister_ope.Nvm.{Nvm}
use midi_fighter_twister_ope.Encoders.{assign}
use midi_fighter_twister_ope.Device.{OpMode}
use midi_fighter_twister_ope.Sequencer.{
  Sequencer, SlotSettings, RowType, clip_selection, pattern_selection, volume_adjust, filter_adjust,
  DisplayMode, display_off, display_default, pattern_memory, pattern_edit, is_row_type,
  set_step_state, get_step_state, sync_clock,
}
use midi_fighter_twister_ope.Sequencer.Alternate.{default_raw_values}
use midi_fighter_twister_ope.Sequencer.Host.{
  with_slot, is_set, memory_raw_values, edit_raw_values, init_seq_display, redraw, set_slot_setting,
  host_play, host_enable, process_seq_midi,
}
use midi_fighter_twister_ope.Sequencer.Memory.{
  memory_page, load_pattern_memory, delete_pattern_memory, save_pattern_memory,
}
use midi_fighter_twister_ope.Sequencer.Buttons.{
  toggle_fx, edit_or_redraw, default_button, toggle_step, delete_place, load_place, save_place,
  memory_button, process_seq_enc_buttons,
}
use midi_fighter_twister_ope.Sequencer.Indices.{
  Indexed, if-Indexed, by_state, loop-Indexed, default_raw_values-Indexed, load_bytes-Indexed,
}

memory_raw_values-Indexed : (s : Sequencer) → Indexed s → Indexed (memory_raw_values s)
unfolding memory_raw_values
memory_raw_values-Indexed s h =
    loop-Indexed 16 0 _ s (λ k t e. record { rythm = e.rythm; slot = e.slot }) h

pub by_display :
    {A : Type 0} (P : A → Type 0) {a b c e : A} (d : DisplayMode)
    → P a
    → P b
    → P c
    → P e
    → P (elim d [ display_off ↦ a | display_default ↦ b | pattern_memory ↦ c | pattern_edit ↦ e ])
by_display P display_off w x y z = w
by_display P display_default w x y z = x
by_display P pattern_memory w x y z = y
by_display P pattern_edit w x y z = z

-- The host.
redraw-Indexed : (s : Sequencer) → Indexed s → Indexed (redraw s)
unfolding redraw
redraw-Indexed s h = if-Indexed _ _ s (default_raw_values-Indexed s h) h

with_slot-Indexed :
    (slot : ℕ) (settings : SlotSettings) (s : Sequencer)
    → Indexed s
    → Indexed (with_slot slot settings s)
with_slot-Indexed slot settings s h = record { rythm = h.rythm; slot = h.slot }

set_slot_setting-Indexed :
    (setting slot : ℕ) (on : Bool) (s : Sequencer)
    → Indexed s
    → Indexed (set_slot_setting setting slot on s)
unfolding set_slot_setting
set_slot_setting-Indexed setting slot on s h =
    let old = s.slot_settings slot in
    if-Indexed (setting == 0) _ _ (with_slot-Indexed slot (record old { keylock = on }) s h) (
      if-Indexed (setting == 1) _ _
        (redraw-Indexed _ (with_slot-Indexed slot (record old { fx_send = on }) s h))
        (if-Indexed (setting == 2) _ _ (with_slot-Indexed slot (record old { monitor = on }) s h)
          (with_slot-Indexed slot (record old { punch_mode = on }) s h)))

pub init_seq_display-Indexed : (s : Sequencer) → Indexed s → Indexed (init_seq_display s)
unfolding init_seq_display edit_raw_values
init_seq_display-Indexed s h =
    by_display Indexed s.display_state h (default_raw_values-Indexed s h)
      (memory_raw_values-Indexed s h)
      (loop-Indexed 16 0 _ s (λ k t e. record { rythm = e.rythm; slot = e.slot }) h)

host_enable-Indexed : (s : Sequencer) → Indexed s → Indexed (host_enable s)
unfolding host_enable sync_clock
host_enable-Indexed s h =
    let shown =
      init_seq_display-Indexed (record s { seq_traktor_mode = true; mode = OpMode.sequencer })
        record { rythm = h.rythm; slot = h.slot } in
    if-Indexed s.init _ s record { rythm = shown.rythm; slot = shown.slot } h

host_play-Indexed : (on : Bool) (s : Sequencer) → Indexed s → Indexed (host_play on s)
unfolding host_play
host_play-Indexed true s h = by_state s.seq_state record { rythm = h.rythm; slot = h.slot } h h
host_play-Indexed false s h = record { rythm = omega arith; slot = h.slot }

pub process_seq_midi-Indexed :
    (cc value : ℕ) (s : Sequencer) → Indexed s → Indexed (process_seq_midi cc value s)
unfolding process_seq_midi
process_seq_midi-Indexed cc value s h =
    let on = is_set value in
    if-Indexed (leb 20 cc && leb cc 23) _ _
      (redraw-Indexed _
        (with_slot-Indexed (cc - 20) (record (s.slot_settings (cc - 20)) { mute_on = not on }) s h))
      (if-Indexed (leb 24 cc && leb cc 27) _ _
        (redraw-Indexed _
          (with_slot-Indexed (cc - 24) (record (s.slot_settings (cc - 24)) { filter_on = on }) s h))
        (if-Indexed (leb 102 cc && leb cc 117) _ _
          (set_slot_setting-Indexed ((cc - 102) / 4) ((cc - 102) % 4) on s h)
          (if-Indexed (cc == 15) _ _ (host_enable-Indexed s h)
            (if-Indexed (cc == 14) _ s (host_play-Indexed on s h) h))))

-- The switches of the encoders.
pub row_slot : (i : ℕ) → i < 16 → is_row_type i ≡ pattern_selection → i - 4 < 4
unfolding is_row_type
row_slot i h e = ground arith

default_button-Indexed :
    (row : RowType) (i : ℕ) (down : Bool) (s : Sequencer)
    → (row ≡ pattern_selection → i - 4 < 4)
    → Indexed s
    → Indexed (default_button row i down s)
unfolding default_button toggle_fx edit_or_redraw
default_button-Indexed clip_selection i true s selects h =
    default_raw_values-Indexed _ record { rythm = h.rythm; slot = h.slot }
default_button-Indexed clip_selection i false s selects h = h
default_button-Indexed pattern_selection i true s selects h = h
default_button-Indexed pattern_selection i false s selects h =
    let drawn = default_raw_values-Indexed s h in
    if-Indexed (ltb (s.button_down_counter (i - 4)) 2000)
      (record s { selected_slot = i - 4; display_state = pattern_edit })
      (record (default_raw_values s) { truncate_value = 127 })
      record { rythm = h.rythm; slot = selects refl }
      record { rythm = drawn.rythm; slot = drawn.slot }
default_button-Indexed volume_adjust i true s selects h = record { rythm = h.rythm; slot = h.slot }
default_button-Indexed volume_adjust i false s selects h = h
default_button-Indexed filter_adjust i true s selects h = record { rythm = h.rythm; slot = h.slot }
default_button-Indexed filter_adjust i false s selects h = h

toggle_step-Indexed : (i : ℕ) (s : Sequencer) → Indexed s → Indexed (toggle_step i s)
unfolding toggle_step set_step_state
toggle_step-Indexed i s h =
    if-Indexed (get_step_state s s.selected_slot i == 0)
      (set_step_state s.selected_slot i 127 record s { raw_value = assign s.raw_value i 12700 })
      (set_step_state s.selected_slot i 0 record s { raw_value = assign s.raw_value i 0 })
      record { rythm = h.rythm; slot = h.slot } record { rythm = h.rythm; slot = h.slot }

module _ (nvm : Nvm) where
  open nvm use {Store}

  pub if_pair :
      (b : Bool) (p q : Store × Sequencer)
      → Indexed p.1
      → Indexed q.1
      → Indexed (if b then p else q).1
  if_pair true p q h k = h
  if_pair false p q h k = k

  delete_place-Indexed :
      (i : ℕ) (store : Store) (s : Sequencer)
      → Indexed s
      → Indexed (delete_place nvm i (store, s)).1
  unfolding delete_place delete_pattern_memory
  delete_place-Indexed i store s h =
      let deleted = (delete_pattern_memory nvm i (store, s)).1 in
      memory_raw_values-Indexed _ (
        if-Indexed (s.active_memory_slot == i) (record deleted { active_memory_slot = 17 }) deleted
          record { rythm = h.rythm; slot = h.slot } record { rythm = h.rythm; slot = h.slot })

  load_place-Indexed :
      (i : ℕ) (store : Store) (s : Sequencer) → Indexed s → Indexed (load_place nvm i (store, s)).1
  unfolding load_place load_pattern_memory
  load_place-Indexed i store s h =
      let loaded = load_bytes-Indexed (λ k. nvm.read_byte store (32 * memory_page i + k)) s h in
      memory_raw_values-Indexed _ record { rythm = loaded.rythm; slot = loaded.slot }

  save_place-Indexed :
      (i : ℕ) (store : Store) (s : Sequencer) → Indexed s → Indexed (save_place nvm i (store, s)).1
  unfolding save_place save_pattern_memory
  save_place-Indexed i store s h =
      memory_raw_values-Indexed _ record { rythm = h.rythm; slot = h.slot }

  memory_button-Indexed :
      (i : ℕ) (store : Store) (s : Sequencer)
      → Indexed s
      → Indexed (memory_button nvm i (store, s)).1
  unfolding memory_button
  memory_button-Indexed i store s h =
      if_pair s.shift_active _ _ (delete_place-Indexed i store s h) (
        if_pair (not (bit_and s.memory_slot_state (u16 (1 <<< i)) == 0)) _ _
          (load_place-Indexed i store s h) (save_place-Indexed i store s h))

  pub process_seq_enc_buttons-Indexed :
      (i : ℕ) (down : Bool) (store : Store) (s : Sequencer)
      → i < 16
      → Indexed s
      → Indexed (process_seq_enc_buttons nvm i down (store, s)).1
  unfolding process_seq_enc_buttons
  process_seq_enc_buttons-Indexed i down store s l h =
      by_display (λ (p : Store × Sequencer). Indexed p.1) s.display_state h
        (default_button-Indexed (is_row_type i) i down s (row_slot i l) h)
        (if_pair down _ (store, s) (memory_button-Indexed i store s h) h)
        (if-Indexed down _ s (toggle_step-Indexed i s h) h)
