-- ===== src/Feedback/OneMatch.antt =====
-- src/encoders.c: what one round of the loop of `process_element_midi` does to the values and the indicators.
use midi_fighter_twister_ope.Base.{
  ℕ, ◌+◌, ◌*◌, ◌/◌, ◌%◌, ◌<◌, ◌≡◌, refl, ◌∙◌, arith, Bool, true, false, ◌&&◌, Option, none, some,
  Bool-cases, inl, inr, leb, ◌==◌, ==_iff, if◌then◌else◌, u8, u16,
}
use midi_fighter_twister_ope.Encoders.{Encoders, assign_cell, encoder_is_in_shift_state}
use midi_fighter_twister_ope.Quadrature.{EncoderInput}
use midi_fighter_twister_ope.Device.{Device}
use midi_fighter_twister_ope.Feedback.{
  same_state, accepts, put_value, process_indicator_update, process_sw_rgb_update,
  process_sw_toggle_update, process_sw_animation_update, process_encoder_animation_update,
}
use midi_fighter_twister_ope.Feedback.Mapping.{
  encoder_match, update_if, update_switch, SwitchMatch, no_match, switch_value, encoder_animation,
  switch_animation, switch_match, match_one,
}

-- The tables that a message can change.
abbrev pub with_values : Encoders → (ℕ → ℕ) → (ℕ → ℕ → ℕ) → Encoders
with_values s raw shown = record s { raw_encoder_value = raw; indicator_value_buffer = shown }

abbrev pub IsSame : Encoders → Encoders → Type 0
IsSame s t = t ≡ with_values s t.raw_encoder_value t.indicator_value_buffer

-- Whether the result of `encoder_match` asks for the shifted state, or for the other.
abbrev pub asks : Option Bool → Bool → Bool
asks none shifted = false
asks (some b) shifted = same_state b shifted

-- Where `put_value` writes.
virtual_place :
    (shifted : Bool) (i id : ℕ)
    → i < 128
    → id < 256
    → (id == u8 (i + (if shifted then 128 else 0)))
      ≡ (id % 128 == i) && same_state shifted (leb 128 id)
virtual_place true i id h k = ground arith
virtual_place false i id h k = ground arith

cell_place : (i b j : ℕ) → j < 16 → (b == i / 16) && (j == i % 16) ≡ (b * 16 + j == i)
cell_place i b j h = ground arith

put_cell :
    (is_shown : Bool) (i b j value : ℕ) (table : ℕ → ℕ → ℕ)
    → j < 16
    → (if is_shown then assign_cell table (i / 16) (i % 16) value else table) b j
      ≡ (if (b * 16 + j == i) && is_shown then value else table b j)
put_cell true i b j value table h = rw (cell_place i b j h) (ground arith)
put_cell false i b j value table h = ground arith

same_state_comm : (a b : Bool) → same_state a b ≡ same_state b a
same_state_comm true true = refl
same_state_comm true false = refl
same_state_comm false true = refl
same_state_comm false false = refl

update_switch-encoders :
    (m : SwitchMatch) (value i : ℕ) (d : Device) → (update_switch m value i d).encoders ≡ d.encoders
unfolding update_switch process_sw_rgb_update process_sw_toggle_update
    process_encoder_animation_update process_sw_animation_update
update_switch-encoders no_match value i d = refl
update_switch-encoders (switch_value v) value i d = refl
update_switch-encoders encoder_animation value i d = refl
update_switch-encoders switch_animation value i d = refl

module _ (inputs : ℕ → EncoderInput) (channel type number value : ℕ) where
  -- Whether the message sets the virtual encoder `id`: it is mapped to the banked encoder, for the state that
  -- `id` stands for, and its value is accepted.
  unfoldable pub takes : Encoders → ℕ → Bool
  unfolding accepts encoder_match
  takes s id =
      asks (encoder_match (s.encoder_settings (id % 128)) channel type number) (leb 128 id)
      && accepts inputs s (id % 128) value

  -- Whether it is shown at encoder `j` of bank `b`: it sets the one of the two states that the encoder is in.
  unfoldable pub shows : Encoders → ℕ → ℕ → Bool
  unfolding takes
  shows s b j = takes s (if encoder_is_in_shift_state s b j then 128 + (b * 16 + j) else b * 16 + j)

  pub takes-put :
      (s : Encoders) (raw : ℕ → ℕ) (shown : ℕ → ℕ → ℕ) (id : ℕ)
      → takes (with_values s raw shown) id ≡ takes s id
  unfolding takes accepts
  takes-put s raw shown id = refl

  pub shows-put :
      (s : Encoders) (raw : ℕ → ℕ) (shown : ℕ → ℕ → ℕ) (b j : ℕ)
      → shows (with_values s raw shown) b j ≡ shows s b j
  unfolding shows takes accepts encoder_is_in_shift_state
  shows-put s raw shown b j = refl

  -- What one round does to the encoders.
  pub record Sets (i : ℕ) (s t : Encoders) : Type 0 where
    pub same : IsSame s t
    pub values :
        (id : ℕ)
        → id < 256
        → t.raw_encoder_value id
          ≡ (if (id % 128 == i) && takes s id then u16 (value * 100) else s.raw_encoder_value id)
    pub shown :
        (b j : ℕ)
        → j < 16
        → t.indicator_value_buffer b j
          ≡ (if (b * 16 + j == i) && shows s b j then value else s.indicator_value_buffer b j)

  takes-at :
      (s : Encoders) (i id : ℕ) (o : Option Bool)
      → encoder_match (s.encoder_settings i) channel type number ≡ o
      → id % 128 ≡ i
      → takes s id ≡ asks o (leb 128 id) && accepts inputs s i value
  unfolding takes
  takes-at s i id o e at = rw (at, e) refl

  shows-at :
      (s : Encoders) (i b j : ℕ) (o : Option Bool)
      → i < 128
      → encoder_match (s.encoder_settings i) channel type number ≡ o
      → b * 16 + j ≡ i
      → shows s b j ≡ asks o (encoder_is_in_shift_state s b j) && accepts inputs s i value
  unfolding shows
  shows-at s i b j o h e at = elim (Bool-cases (encoder_is_in_shift_state s b j)) [
    | inl shifted ↦
        let big : leb 128 (128 + (b * 16 + j)) ≡ true = ground arith in
        rw shifted (takes-at s i (128 + (b * 16 + j)) o e (omega arith) ∙ rw big refl)
    | inr other ↦
        let small : leb 128 (b * 16 + j) ≡ false = ground arith in
        rw other (takes-at s i (b * 16 + j) o e (omega arith) ∙ rw small refl)
  ]

  update_if-Sets :
      (o : Option Bool) (i : ℕ) (d : Device)
      → i < 128
      → encoder_match (d.encoders.encoder_settings i) channel type number ≡ o
      → Sets i d.encoders (update_if o inputs value i d).encoders
  unfolding update_if process_indicator_update put_value
  update_if-Sets none i d h e = record {
    same = refl;
    values = λ id k. elim (Bool-cases (id % 128 == i)) [
      | inl here ↦ rw (here, takes-at d.encoders i id none e ((==_iff (id % 128) i).0 here)) refl
      | inr elsewhere ↦ rw elsewhere refl
    ];
    shown = λ b j k. elim (Bool-cases (b * 16 + j == i)) [
      | inl here ↦
          rw (here, shows-at d.encoders i b j none h e ((==_iff (b * 16 + j) i).0 here)) refl
      | inr elsewhere ↦ rw elsewhere refl
    ];
  }
  update_if-Sets (some shifted) i d h e = elim (Bool-cases (accepts inputs d.encoders i value)) [
    | inl accepted ↦ rw accepted record {
      same = refl;
      values = λ id k. rw (virtual_place shifted i id h k) (elim (Bool-cases (id % 128 == i)) [
        | inl here ↦
            let at = takes-at d.encoders i id (some shifted) e ((==_iff (id % 128) i).0 here) in
            rw (here, at, accepted) (ground arith)
        | inr elsewhere ↦ rw elsewhere refl
      ]);
      shown = λ b j k.
          put_cell (same_state (encoder_is_in_shift_state d.encoders (i / 16) (i % 16)) shifted) i b
            j value d.encoders.indicator_value_buffer k
          ∙ elim (Bool-cases (b * 16 + j == i)) [
            | inl here ↦
                let e0 : b * 16 + j ≡ i = (==_iff (b * 16 + j) i).0 here in
                let e1 : i / 16 ≡ b = omega (arith, e0) in
                let e2 : i % 16 ≡ j = omega (arith, e0) in
                rw
                  (
                    here,
                    e1,
                    e2,
                    shows-at d.encoders i b j (some shifted) h e e0,
                    accepted,
                    same_state_comm (encoder_is_in_shift_state d.encoders b j) shifted,
                  )
                  (ground arith)
            | inr elsewhere ↦ rw elsewhere refl
          ];
    }
    | inr refused ↦ rw refused record {
      same = refl;
      values = λ id k. elim (Bool-cases (id % 128 == i)) [
        | inl here ↦
            let at = takes-at d.encoders i id (some shifted) e ((==_iff (id % 128) i).0 here) in
            rw (here, at, refused) (ground arith)
        | inr elsewhere ↦ rw elsewhere refl
      ];
      shown = λ b j k. elim (Bool-cases (b * 16 + j == i)) [
        | inl here ↦
            let at =
              shows-at d.encoders i b j (some shifted) h e ((==_iff (b * 16 + j) i).0 here) in
            rw (here, at, refused) (ground arith)
        | inr elsewhere ↦ rw elsewhere refl
      ];
    }
  ]

  pub match_one-Sets :
      (i : ℕ) (d : Device)
      → i < 128
      → Sets i d.encoders (match_one inputs channel type number value i d).encoders
  unfolding match_one
  match_one-Sets i d h =
      let s = update_if-Sets _ i d h refl in
      rw
        (update_switch-encoders
          (switch_match d.global_animation_channels (d.encoders.encoder_settings i) channel type
            number value)
          value i
          (update_if (encoder_match (d.encoders.encoder_settings i) channel type number) inputs
            value i d))
        s
