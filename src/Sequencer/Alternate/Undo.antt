-- ===== src/Sequencer/Alternate/Undo.antt =====
-- src/sequencer_input.c: a release of the shift undoes all that was changed since it was pressed.
use midi_fighter_twister_ope.Base.{
  ℕ, ◌+◌, ◌<◌, ◌≡◌, ◌∙◌, refl, arith, true, false, ◌&&◌, ltb, ◌==◌, if◌then◌else◌, for_range,
  for_range-Keeps, Bool-cases, ==_iff, inl, inr, ap, subst, sym,
}
use midi_fighter_twister_ope.Encoders.{assign}
use midi_fighter_twister_ope.Device.{normal}
use midi_fighter_twister_ope.Sequencer.{Sequencer, SlotMemory, get_step_state, set_step_state}
use midi_fighter_twister_ope.Sequencer.Alternate.{
  default_raw_values, store_slot, restore_slot, do_alternate_functions,
}

-- What a loop over the elements of an array writes.
copied :
    (f x : ℕ → ℕ) (n c : ℕ)
    → for_range n 0 (λ j steps. assign steps j (f j)) x c ≡ (if ltb c n then f c else x c)
copied f x n c =
    for_range-Keeps (λ k (y : ℕ → ℕ). y c ≡ (if ltb c k then f c else x c))
      (λ j steps. assign steps j (f j)) n 0 n x (omega arith) (λ k t a b h. grind arith)
      (ground arith)

-- What is kept of a slot.
record IsStored (s : Sequencer) (slot : ℕ) (m : SlotMemory) : Type 0 where
  clip : m.clip ≡ s.slot_clip slot
  buffer : m.buffer ≡ s.slot_selected_buffer slot
  steps : (j : ℕ) → j < 16 → m.step_states j ≡ get_step_state s slot j

record Storing (s : Sequencer) (i : ℕ) (t : Sequencer) : Type 0 where
  pattern : t.pattern ≡ s.pattern
  buffers : t.slot_selected_buffer ≡ s.slot_selected_buffer
  clips : t.slot_clip ≡ s.slot_clip
  active : t.shift_active ≡ true
  stored : (a : ℕ) → a < i → IsStored s a (t.slot_memory a)

store_one :
    (s : Sequencer) (k : ℕ) (t : Sequencer) → Storing s k t → Storing s (k + 1) (store_slot k t)
unfolding store_slot get_step_state
store_one s k t h = record {
  pattern = h.pattern;
  buffers = h.buffers;
  clips = h.clips;
  active = h.active;
  stored = λ a l. elim (Bool-cases (a == k)) [
    | inl same ↦
        rw (same, (==_iff a k).0 same)
          record {
            clip = ap (λ f. f k) h.clips;
            buffer = ap (λ f. f k) h.buffers;
            steps = λ j m.
                copied (get_step_state t k) _ 16 j ∙ rw (h.pattern, h.buffers) (ground arith);
          }
    | inr other ↦ rw other (h.stored a (ground arith))
  ];
}

-- What a press leaves.
press : (s : Sequencer) → s.shift_active ≡ false → Storing s 4 (do_alternate_functions true s)
unfolding do_alternate_functions
press s h =
    subst
      (λ b. Storing s 4 (
        if b
        then record s { mode = normal }
        else for_range 4 0 store_slot record s { shift_active = true }))
      (sym h)
      (for_range-Keeps (Storing s) store_slot 4 0 4 (record s { shift_active = true }) (omega arith)
        (λ k t a b p. store_one s k t p)
        record {
          pattern = refl;
          buffers = refl;
          clips = refl;
          active = refl;
          stored = λ a l. absurd (omega arith);
        })

-- A slot is as it was kept.
record IsRestored (t : Sequencer) (slot : ℕ) (m : SlotMemory) : Type 0 where
  clip : t.slot_clip slot ≡ m.clip
  buffer : t.slot_selected_buffer slot ≡ m.buffer
  steps : (j : ℕ) → j < 16 → get_step_state t slot j ≡ m.step_states j

-- The steps that have been restored by round `n` of the inner loop.
record Writing (s : Sequencer) (slot n : ℕ) (f : ℕ → ℕ) (t : Sequencer) : Type 0 where
  memory : t.slot_memory ≡ s.slot_memory
  buffers : t.slot_selected_buffer ≡ s.slot_selected_buffer
  clips : t.slot_clip ≡ s.slot_clip
  pattern :
      (a b c : ℕ)
      → t.pattern a b c ≡ (
          if (a == slot) && (b == s.slot_selected_buffer slot) && ltb c n
          then f c
          else s.pattern a b c)

write_steps :
    (s : Sequencer) (slot : ℕ) (f : ℕ → ℕ)
    → Writing s slot 16 f (for_range 16 0 (λ j s. set_step_state slot j (f j) s) s)
unfolding set_step_state
write_steps s slot f =
    for_range-Keeps (λ n t. Writing s slot n f t) (λ j s. set_step_state slot j (f j) s) 16 0 16 s
      (omega arith)
      (λ k t a b h. record {
        memory = h.memory;
        buffers = h.buffers;
        clips = h.clips;
        pattern = λ x y z.
            let e = h.pattern x y z in let same = ap (λ g. g slot) h.buffers in grind arith;
      })
      record { memory = refl; buffers = refl; clips = refl; pattern = λ a b c. ground arith }

-- One round of a release.
record Rewriting (t : Sequencer) (k : ℕ) (m : SlotMemory) (u : Sequencer) : Type 0 where
  memory : u.slot_memory ≡ t.slot_memory
  clips : (a : ℕ) → u.slot_clip a ≡ (if a == k then m.clip else t.slot_clip a)
  buffers :
      (a : ℕ) → u.slot_selected_buffer a ≡ (if a == k then m.buffer else t.slot_selected_buffer a)
  pattern :
      (a b c : ℕ)
      → u.pattern a b c
        ≡ (if (a == k) && (b == m.buffer) && ltb c 16 then m.step_states c else t.pattern a b c)

rewrite_one : (t : Sequencer) (k : ℕ) → Rewriting t k (t.slot_memory k) (restore_slot k t)
unfolding restore_slot
rewrite_one t k =
    let m = t.slot_memory k in
    let u : Sequencer = record t {
      slot_clip = assign t.slot_clip k m.clip;
      slot_selected_buffer = assign t.slot_selected_buffer k m.buffer;
    } in
    let w = write_steps u k m.step_states in
    let here : assign t.slot_selected_buffer k m.buffer k ≡ m.buffer = ground arith in
    record {
      memory = w.memory;
      clips = λ a. ap (λ f. f a) w.clips;
      buffers = λ a. ap (λ f. f a) w.buffers;
      pattern = λ a b c. w.pattern a b c ∙ rw here refl;
    }

record Restoring (s : Sequencer) (i : ℕ) (t : Sequencer) : Type 0 where
  memory : t.slot_memory ≡ s.slot_memory
  restored : (a : ℕ) → a < i → IsRestored t a (s.slot_memory a)

restore_one :
    (s : Sequencer) (k : ℕ) (t u : Sequencer)
    → Rewriting t k (s.slot_memory k) u
    → Restoring s k t
    → Restoring s (k + 1) u
unfolding get_step_state
restore_one s k t u w h = record {
  memory = w.memory ∙ h.memory;
  restored = λ a l. elim (Bool-cases (a == k)) [
    | inl same ↦
        let e : a ≡ k = (==_iff a k).0 same in
        let kept : s.slot_memory a ≡ s.slot_memory k = ap s.slot_memory e in
        let buffer : u.slot_selected_buffer a ≡ (s.slot_memory k).buffer =
          w.buffers a ∙ ground arith in
        rw kept record {
          clip = w.clips a ∙ rw same refl;
          buffer = buffer;
          steps = λ j m. w.pattern a (u.slot_selected_buffer a) j ∙ ground (arith, buffer);
        }
    | inr other ↦
        let r = h.restored a (ground arith) in
        record {
          clip = w.clips a ∙ rw other r.clip;
          buffer = w.buffers a ∙ rw other r.buffer;
          steps = λ j m.
              w.pattern a (u.slot_selected_buffer a) j
              ∙ rw (other, w.buffers a) (rw other (r.steps j m));
        }
  ];
}

-- The drawing of the default display leaves what was restored.
record Keeping (s t : Sequencer) : Type 0 where
  pattern : t.pattern ≡ s.pattern
  buffers : t.slot_selected_buffer ≡ s.slot_selected_buffer
  clips : t.slot_clip ≡ s.slot_clip

default_raw_values-Keeping : (s : Sequencer) → Keeping s (default_raw_values s)
unfolding default_raw_values
default_raw_values-Keeping s =
    for_range-Keeps (λ _. Keeping s) _ 4 0 4 s (omega arith)
      (λ k t a b h. record { pattern = h.pattern; buffers = h.buffers; clips = h.clips })
      record { pattern = refl; buffers = refl; clips = refl }

release :
    (s : Sequencer) (slot : ℕ)
    → slot < 4
    → IsRestored (do_alternate_functions false s) slot (s.slot_memory slot)
unfolding do_alternate_functions get_step_state
release s slot h =
    let start : Sequencer = record s { shift_active = false } in
    let done =
      (for_range-Keeps (Restoring start) restore_slot 4 0 4 start (omega arith)
          (λ k t a b p.
            let kept : t.slot_memory k ≡ start.slot_memory k = ap (λ f. f k) p.memory in
            restore_one start k t (restore_slot k t)
              (subst (λ m. Rewriting t k m (restore_slot k t)) kept (rewrite_one t k)) p)
          record { memory = refl; restored = λ a l. absurd (omega arith) }).restored
        slot h in
    let drawn = default_raw_values-Keeping (for_range 4 0 restore_slot start) in
    record {
      clip = ap (λ f. f slot) drawn.clips ∙ done.clip;
      buffer = ap (λ f. f slot) drawn.buffers ∙ done.buffer;
      steps = λ j m. rw (drawn.pattern, drawn.buffers) (done.steps j m);
    }

-- A press of the shift, if it was off, changes no pattern, selection or clip; and however patterns, selections
-- and clips are changed behind it, the release brings back for each of the four slots the clip, the selected
-- pattern and its steps as they were at the press.
pub do_alternate_functions_lem :
    (s t : Sequencer) (slot j : ℕ)
    → s.shift_active ≡ false
    → t.slot_memory ≡ (do_alternate_functions true s).slot_memory
    → slot < 4
    → j < 16
    → ((do_alternate_functions true s).pattern ≡ s.pattern)
      × ((do_alternate_functions true s).slot_selected_buffer ≡ s.slot_selected_buffer)
      × ((do_alternate_functions true s).slot_clip ≡ s.slot_clip)
      × ((do_alternate_functions false t).slot_clip slot ≡ s.slot_clip slot)
      × ((do_alternate_functions false t).slot_selected_buffer slot ≡ s.slot_selected_buffer slot)
      × (get_step_state (do_alternate_functions false t) slot j ≡ get_step_state s slot j)
do_alternate_functions_lem s t slot j off kept h m =
    let held = press s off in
    let stored = held.stored slot h in
    let same = ap (λ f. f slot) kept in
    let back = release t slot h in
    (
      held.pattern,
      held.buffers,
      held.clips,
      back.clip ∙ rw same stored.clip,
      back.buffer ∙ rw same stored.buffer,
      back.steps j m ∙ rw same (stored.steps j m),
    )
