-- ===== src/Feedback/Animations.antt =====
-- src/encoders.c: which of the two animations of an encoder animate the same thing, and the notes for the shift
-- pages that are written beyond their tables.
use midi_fighter_twister_ope.Base.{
  ℕ, ◌-◌, ◌/◌, ◌≡◌, ◌↔◌, refl, arith, Bool, true, false, not, ◌&&◌, ◌||◌, none, some, ltb, leb,
  ◌==◌, if◌then◌else◌,
}
use midi_fighter_twister_ope.Device.{Device, EncoderSwitches}
use midi_fighter_twister_ope.Feedback.Mapping.{override_shift}

unfoldable pub animation_is_switch_rgb : ℕ → Bool
animation_is_switch_rgb animation_value =
    if animation_value == 0
    then false
    else if ltb animation_value 49 || (animation_value == 127)
    then true
    else false

unfoldable pub animation_is_encoder_indicator : ℕ → Bool
animation_is_encoder_indicator animation_value =
    if ltb animation_value 49 || (animation_value == 127)
    then false
    else if ltb animation_value 97
    then true
    else false

-- The tests of `animation_buffer_conflict_exists` on the two animations.
unfoldable pub animations_conflict : ℕ → ℕ → Bool
animations_conflict this_animation that_animation =
    if (this_animation == 0) || (that_animation == 0)
    then false
    else if ltb 127 this_animation || ltb 127 that_animation
    then false
    else if ltb this_animation 49 || (this_animation == 127)
    then (if ltb that_animation 49 || (that_animation == 127) then true else false)
    else if ltb this_animation 97
    then (if ltb 48 that_animation && ltb that_animation 97 then true else false)
    else false

unfoldable pub animation_buffer_conflict_exists : EncoderSwitches → ℕ → ℕ → Bool
unfolding animations_conflict
animation_buffer_conflict_exists keys bank encoder =
    animations_conflict (keys.switch_animation_buffer bank encoder)
      (keys.encoder_animation_buffer bank encoder)

conflict_cases :
    (this that : ℕ)
    → animations_conflict this that
      ≡ (animation_is_switch_rgb this && animation_is_switch_rgb that)
        || (animation_is_encoder_indicator this && animation_is_encoder_indicator that)
unfolding animations_conflict animation_is_switch_rgb animation_is_encoder_indicator
conflict_cases this that = ground arith

-- For all contents of the two buffers, values beyond 127 included, there is a conflict exactly if both animations
-- are of the switch's colour, or both of the encoder's indicator, as the two predicates that the display uses
-- tell them.
pub animation_buffer_conflict_exists_lem :
    (keys : EncoderSwitches) (bank encoder : ℕ)
    → (let this = keys.switch_animation_buffer bank encoder in
        let that = keys.encoder_animation_buffer bank encoder in
        animation_buffer_conflict_exists keys bank encoder
        ≡ (animation_is_switch_rgb this && animation_is_switch_rgb that)
          || (animation_is_encoder_indicator this && animation_is_encoder_indicator that))
unfolding animation_buffer_conflict_exists
animation_buffer_conflict_exists_lem keys bank encoder =
    conflict_cases (keys.switch_animation_buffer bank encoder)
      (keys.encoder_animation_buffer bank encoder)

nested_none {ℓ} :
    {A : Type ℓ} (b c : Bool) (x y : A)
    → ((if b then some x else if c then none else some y) ≡ none) ↔ ((b ≡ false) × (c ≡ true))
nested_none true c x y = (λ e. absurd (ground arith), λ e. absurd (ground arith))
nested_none false true x y = (λ e. (refl, refl), λ e. refl)
nested_none false false x y = (λ e. absurd (ground arith), λ e. absurd (ground arith))

-- A note of the system channel for the shift pages is written beyond the tables of the two pages exactly if its
-- number is 76, one more than the last switch of the second page has.
override_shift-eq-none :
    (number value : ℕ) (d : Device) → (override_shift number value d ≡ none) ↔ (number ≡ 76)
unfolding override_shift
override_shift-eq-none number value d =
    let both =
      nested_none (not (leb 44 number && leb number 76)) (leb 2 ((number - 44) / 16)) d _ in
    (λ e. let (inside, beyond) = both.0 e in ground arith, λ e. both.1 (ground arith, ground arith))
