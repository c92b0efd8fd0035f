-- ===== src/Sequencer/Memory/Loading.antt =====
-- src/sequencer_input.c: what `load_pattern_memory` makes of the bytes that it reads.
use midi_fighter_twister_ope.Base.{
  ℕ, ◌+◌, ◌*◌, ◌/◌, ◌%◌, ◌<◌, ◌≡◌, ◌∙◌, refl, ap, arith, Bool, true, false, ◌&&◌, ltb, ◌==◌,
  if◌then◌else◌, ◌>>>◌, for_range, for_range-Keeps, bit_and,
}
use midi_fighter_twister_ope.Encoders.{assign}
use midi_fighter_twister_ope.Sequencer.{Sequencer, SlotSettings, set_step_state, set_slot_clip}
use midi_fighter_twister_ope.Sequencer.Memory.{
  load_bytes, load_steps, load_slot, load_filter, load_volume, load_fx, put_filter, put_volume,
  send_if,
}

-- The velocity of step `c` of a slot in the bytes.
abbrev pub step_of : (ℕ → ℕ) → ℕ → ℕ → ℕ
step_of byte i c =
    if c % 2 == 0
    then (bit_and (byte (i * 8 + c / 2)) 0xF0 >>> 4) * 8
    else bit_and (byte (i * 8 + c / 2)) 0x0F * 8

if_ap {ℓ κ} :
    {A : Type ℓ} {B : Type κ} (f : A → B) (b : Bool) (x y : A)
    → f (if b then x else y) ≡ (if b then f x else f y)
if_ap f true x y = refl
if_ap f false x y = refl

-- An element that is written back.
if_same : (f : ℕ → ℕ) (a k : ℕ) → (if a == k then f k else f a) ≡ f a
if_same f a k = grind arith

next_pair :
    (f : ℕ → ℕ) (old c k : ℕ) (p q : Bool)
    → (if p && q && (c == k * 2 + 1)
        then f (k * 2 + 1)
        else if p && q && (c == k * 2)
        then f (k * 2)
        else if p && q && ltb c (k * 2)
        then f c
        else old)
      ≡ (if p && q && ltb c ((k + 1) * 2) then f c else old)
next_pair f old c k p q = grind arith

module _ (byte : ℕ → ℕ) where
  -- Round `n` of the inner loop.
  record Writing (s : Sequencer) (slot n : ℕ) (t : Sequencer) : Type 0 where
    buffers : t.slot_selected_buffer ≡ s.slot_selected_buffer
    pattern :
        (a b c : ℕ)
        → t.pattern a b c ≡ (
            if (a == slot) && (b == s.slot_selected_buffer slot) && ltb c (n * 2)
            then step_of byte slot c
            else s.pattern a b c)

  even_step :
      (slot k : ℕ) → (bit_and (byte (slot * 8 + k)) 0xF0 >>> 4) * 8 ≡ step_of byte slot (k * 2)
  even_step slot k =
      let even : k * 2 % 2 ≡ 0 = omega arith in
      let half : k * 2 / 2 ≡ k = omega arith in rw (even, half) refl

  odd_step : (slot k : ℕ) → bit_and (byte (slot * 8 + k)) 0x0F * 8 ≡ step_of byte slot (k * 2 + 1)
  odd_step slot k =
      let odd : (k * 2 + 1) % 2 ≡ 1 = omega arith in
      let half : (k * 2 + 1) / 2 ≡ k = omega arith in rw (odd, half) refl

  two_steps :
      (s : Sequencer) (slot k : ℕ) (t : Sequencer)
      → Writing s slot k t
      → Writing s slot (k + 1) (load_steps byte slot k t)
  unfolding load_steps set_step_state
  two_steps s slot k t h = record {
    buffers = h.buffers;
    pattern = λ a b c.
        let e = h.pattern a b c in
        let same = ap (λ g. g slot) h.buffers in
        rw (same, e, even_step slot k, odd_step slot k)
          (next_pair (step_of byte slot) (s.pattern a b c) c k (a == slot)
            (b == s.slot_selected_buffer slot));
  }

  written : (s : Sequencer) (slot : ℕ) → Writing s slot 8 (for_range 8 0 (load_steps byte slot) s)
  written s slot =
      for_range-Keeps (Writing s slot) (load_steps byte slot) 8 0 8 s (omega arith)
        (λ k t a b h. two_steps s slot k t h)
        record { buffers = refl; pattern = λ a b c. ground arith }

  -- The slots below `n` are loaded.
  record Loading (s : Sequencer) (n : ℕ) (t : Sequencer) : Type 0 where
    buffers : (a : ℕ) → a < n → t.slot_selected_buffer a ≡ 0
    pattern :
        (a b c : ℕ)
        → c < 16
        → t.pattern a b c ≡ (if ltb a n && (b == 0) then step_of byte a c else s.pattern a b c)

  load_one :
      (s : Sequencer) (k : ℕ) (t : Sequencer)
      → Loading s k t
      → Loading s (k + 1) (load_slot byte k t)
  unfolding load_slot
  load_one s k t h =
      let u : Sequencer = record t { slot_selected_buffer = assign t.slot_selected_buffer k 0 } in
      let w = written u k in
      let here : assign t.slot_selected_buffer k 0 k ≡ 0 = ground arith in
      record {
        buffers = λ a l. ap (λ f. f a) w.buffers ∙ (let e = h.buffers a in ground arith);
        pattern = λ a b c l. w.pattern a b c ∙ rw here (let e = h.pattern a b c l in grind arith);
      }

  -- The settings of slot `k` are written.
  record Setting (t : Sequencer) (k filter volume : ℕ) (u : Sequencer) : Type 0 where
    buffers : u.slot_selected_buffer ≡ t.slot_selected_buffer
    pattern : u.pattern ≡ t.pattern
    clips : u.slot_clip ≡ t.slot_clip
    filters :
        (a : ℕ)
        → (u.slot_settings a).filter ≡ (if a == k then filter else (t.slot_settings a).filter)
    volumes :
        (a : ℕ)
        → (u.slot_settings a).volume ≡ (if a == k then volume else (t.slot_settings a).volume)

  send_if-Setting :
      (t : Sequencer) (k filter volume : ℕ) (b : Bool) (cc : ℕ) (u : Sequencer)
      → Setting t k filter volume u
      → Setting t k filter volume (send_if b cc u)
  send_if-Setting t k filter volume true cc u h = record {
    buffers = h.buffers;
    pattern = h.pattern;
    clips = h.clips;
    filters = h.filters;
    volumes = h.volumes;
  }
  send_if-Setting t k filter volume false cc u h = h

  load_filter-Setting :
      (t : Sequencer) (k : ℕ)
      → Setting t k
          (bit_and (byte (36 + k * 2)) 0x7F)
          (t.slot_settings k).volume
          (load_filter byte k t)
  unfolding load_filter
  load_filter-Setting t k =
      send_if-Setting t k _ _ _ (24 + k) (put_filter k (bit_and (byte (36 + k * 2)) 0x7F) t)
        record {
          buffers = refl;
          pattern = refl;
          clips = refl;
          filters = λ a. if_ap (λ (r : SlotSettings). r.filter) (a == k) _ _;
          volumes = λ a. if_ap (λ (r : SlotSettings). r.volume) (a == k) _ _;
        }

  load_volume-Setting :
      (t : Sequencer) (k : ℕ)
      → Setting t k
          (t.slot_settings k).filter
          (bit_and (byte (36 + k * 2 + 1)) 0x7F)
          (load_volume byte k t)
  unfolding load_volume
  load_volume-Setting t k =
      send_if-Setting t k _ _ _ (20 + k) (put_volume k (bit_and (byte (36 + k * 2 + 1)) 0x7F) t)
        record {
          buffers = refl;
          pattern = refl;
          clips = refl;
          filters = λ a. if_ap (λ (r : SlotSettings). r.filter) (a == k) _ _;
          volumes = λ a. if_ap (λ (r : SlotSettings). r.volume) (a == k) _ _;
        }

  record Filling (s : Sequencer) (n : ℕ) (t : Sequencer) : Type 0 where
    buffers : t.slot_selected_buffer ≡ s.slot_selected_buffer
    pattern : t.pattern ≡ s.pattern
    clips : t.slot_clip ≡ s.slot_clip
    filters : (a : ℕ) → a < n → (t.slot_settings a).filter ≡ bit_and (byte (36 + a * 2)) 0x7F
    volumes : (a : ℕ) → a < n → (t.slot_settings a).volume ≡ bit_and (byte (36 + a * 2 + 1)) 0x7F

  -- What is loaded besides.
  fill_one :
      (s : Sequencer) (k : ℕ) (t : Sequencer)
      → Filling s k t
      → Filling s (k + 1) (load_volume byte k (load_filter byte k t))
  fill_one s k t h =
      let u = load_filter byte k t in
      let f = load_filter-Setting t k in
      let v = load_volume-Setting u k in
      record {
        buffers = v.buffers ∙ f.buffers ∙ h.buffers;
        pattern = v.pattern ∙ f.pattern ∙ h.pattern;
        clips = v.clips ∙ f.clips ∙ h.clips;
        filters = λ a l.
            v.filters a
            ∙ if_same (λ a. (u.slot_settings a).filter) a k
            ∙ f.filters a
            ∙ (let e = h.filters a in grind arith);
        volumes = λ a l.
            v.volumes a
            ∙ (let e = f.volumes a ∙ if_same (λ a. (t.slot_settings a).volume) a k in
                let g = h.volumes a in grind arith);
      }

  -- All that is loaded.
  pub record Loaded (s t : Sequencer) : Type 0 where
    pub buffers : (a : ℕ) → a < 4 → t.slot_selected_buffer a ≡ 0
    pub pattern :
        (a b c : ℕ)
        → c < 16
        → t.pattern a b c ≡ (if ltb a 4 && (b == 0) then step_of byte a c else s.pattern a b c)
    pub clips : (a : ℕ) → a < 4 → t.slot_clip a ≡ byte (32 + a)
    pub filters : (a : ℕ) → a < 4 → (t.slot_settings a).filter ≡ bit_and (byte (36 + a * 2)) 0x7F
    pub volumes :
        (a : ℕ) → a < 4 → (t.slot_settings a).volume ≡ bit_and (byte (36 + a * 2 + 1)) 0x7F

  record Clips (s : Sequencer) (n : ℕ) (t : Sequencer) : Type 0 where
    buffers : t.slot_selected_buffer ≡ s.slot_selected_buffer
    pattern : t.pattern ≡ s.pattern
    clips : (a : ℕ) → a < n → t.slot_clip a ≡ byte (32 + a)

  pub load_bytes-Loaded : (s : Sequencer) → Loaded s (load_bytes byte s)
  unfolding load_bytes load_fx
  load_bytes-Loaded s =
      let u = for_range 4 0 (load_slot byte) s in
      let patterns : Loading s 4 u =
        for_range-Keeps (Loading s) (load_slot byte) 4 0 4 s (omega arith)
          (λ k t a b h. load_one s k t h)
          record { buffers = λ a l. absurd (omega arith); pattern = λ a b c l. ground arith } in
      let v = for_range 4 0 (λ i s. set_slot_clip i (byte (32 + i)) s) u in
      let clips : Clips u 4 v =
        for_range-Keeps (Clips u) (λ i s. set_slot_clip i (byte (32 + i)) s) 4 0 4 u (omega arith)
          (λ k t a b h. record {
            buffers = h.buffers;
            pattern = h.pattern;
            clips = λ a l. let e = h.clips a in grind arith;
          })
          record { buffers = refl; pattern = refl; clips = λ a l. absurd (omega arith) } in
      let w = for_range 4 0 (λ i s. load_volume byte i (load_filter byte i s)) v in
      let settings : Filling v 4 w =
        for_range-Keeps (Filling v) (λ i s. load_volume byte i (load_filter byte i s)) 4 0 4 v
          (omega arith) (λ k t a b h. fill_one v k t h)
          record {
            buffers = refl;
            pattern = refl;
            clips = refl;
            filters = λ a l. absurd (omega arith);
            volumes = λ a l. absurd (omega arith);
          } in
      for_range-Keeps (λ _. Loaded s) (load_fx byte) 4 0 4 w (omega arith)
        (λ k t a b h. record {
          buffers = h.buffers;
          pattern = h.pattern;
          clips = h.clips;
          filters = h.filters;
          volumes = h.volumes;
        })
        record {
          buffers = λ a l. rw (settings.buffers, clips.buffers) (patterns.buffers a l);
          pattern = λ a b c l. rw (settings.pattern, clips.pattern) (patterns.pattern a b c l);
          clips = λ a l. rw (settings.clips) (clips.clips a l);
          filters = settings.filters;
          volumes = settings.volumes;
        }
