-- ===== src/Encoders/BankLaws.antt =====
-- src/encoders.c: which values `transfer_this_encoder_value_to_other_banks` copies, and what is shown
-- after a change of the bank.
use midi_fighter_twister_ope.Base.{
  ℕ, zero, suc, ◌+◌, ◌*◌, ◌/◌, ◌%◌, ◌<◌, ◌≤◌, ◌≡◌, ◌≢◌, refl, ◌∙◌, arith, Bool, true, false,
  Bool-cases, inl, inr, not, ◌&&◌, ◌||◌, ltb, leb, ◌==◌, ==_iff, if◌then◌else◌, u8,
}
use midi_fighter_twister_ope.Settings.{EncoderConfig}
use midi_fighter_twister_ope.Encoders.{Encoders}
use midi_fighter_twister_ope.Encoders.Banks.{
  encoder_maps_match, transfer_to, transfer_values, transfer_to_bank, transfer_to_banks,
  transfer_this_encoder_value_to_other_banks,
}

-- Whether the virtual encoder `id` follows the banked encoder `this`: its number and type are the same and not
-- relative, and its channel is that of the same state, shifted or not.
abbrev pub follows : (ℕ → EncoderConfig) → ℕ → ℕ → Bool
follows settings this id =
    let mine = settings this in
    let its = settings (id % 128) in
    encoder_maps_match mine its
    && (if ltb id 128
        then mine.encoder_midi_channel == its.encoder_midi_channel
        else mine.encoder_shift_midi_channel == its.encoder_shift_midi_channel)

-- The value that it has then.
abbrev pub copied : (ℕ → EncoderConfig) → (ℕ → ℕ) → ℕ → ℕ → ℕ
copied settings raw this id =
    if follows settings this id then raw (this + id / 128 * 128) else raw id

-- `t` comes from `s` by copying to the encoders that `at` tells.
record Copies (this : ℕ) (at : ℕ → Bool) (s t : Encoders) : Type 0 where
  same_settings : t.encoder_settings ≡ s.encoder_settings
  same_bank : t.encoder_bank ≡ s.encoder_bank
  values :
      (id : ℕ)
      → id < 256
      → t.raw_encoder_value id ≡ (
          if at (id % 128)
          then copied s.encoder_settings s.raw_encoder_value this id
          else s.raw_encoder_value id)

transfer_values_lem :
    (same same_shifted : Bool) (this that : ℕ) (raw : ℕ → ℕ) (id : ℕ)
    → this < 128
    → that < 128
    → id < 256
    → transfer_values same same_shifted this that raw id ≡ (
        if (id % 128 == that) && (if ltb id 128 then same else same_shifted)
        then raw (this + id / 128 * 128)
        else raw id)
unfolding transfer_values
transfer_values_lem true true this that raw id h k b = ground arith
transfer_values_lem true false this that raw id h k b = ground arith
transfer_values_lem false true this that raw id h k b = ground arith
transfer_values_lem false false this that raw id h k b = ground arith

module _ (bank encoder b j : ℕ) (s : Encoders) (hb : bank < 8) (he : encoder < 16) (hc : b < 8)
    (hj : j < 16) where
  transfer_to-settings : (transfer_to bank encoder b j s).encoder_settings ≡ s.encoder_settings
  unfolding transfer_to
  transfer_to-settings = ground arith

  transfer_to-bank : (transfer_to bank encoder b j s).encoder_bank ≡ s.encoder_bank
  unfolding transfer_to
  transfer_to-bank = ground arith

  transfer_to-raw :
      (id : ℕ)
      → (transfer_to bank encoder b j s).raw_encoder_value id ≡ (
          if encoder_maps_match
            (s.encoder_settings (bank * 16 + encoder))
            (s.encoder_settings (b * 16 + j))
          then transfer_values
              ((s.encoder_settings (bank * 16 + encoder)).encoder_midi_channel
                == (s.encoder_settings (b * 16 + j)).encoder_midi_channel)
              ((s.encoder_settings (bank * 16 + encoder)).encoder_shift_midi_channel
                == (s.encoder_settings (b * 16 + j)).encoder_shift_midi_channel)
              (bank * 16 + encoder)
              (b * 16 + j)
              s.raw_encoder_value
              id
          else s.raw_encoder_value id)
  unfolding transfer_to
  transfer_to-raw id =
      let e : u8 (bank * 16 + encoder) ≡ bank * 16 + encoder = omega arith in
      let f : u8 (b * 16 + j) ≡ b * 16 + j = omega arith in rw (e, f) (ground arith)

  transfer_to-Copies :
      Copies (bank * 16 + encoder) (λ k. k == b * 16 + j) s (transfer_to bank encoder b j s)
  transfer_to-Copies = record {
    same_settings = transfer_to-settings;
    same_bank = transfer_to-bank;
    values = λ id h.
        rw
          (
            transfer_to-raw id,
            transfer_values_lem
                ((s.encoder_settings (bank * 16 + encoder)).encoder_midi_channel
                  == (s.encoder_settings (b * 16 + j)).encoder_midi_channel)
                ((s.encoder_settings (bank * 16 + encoder)).encoder_shift_midi_channel
                  == (s.encoder_settings (b * 16 + j)).encoder_shift_midi_channel)
                (bank * 16 + encoder) (b * 16 + j) s.raw_encoder_value id (omega arith)
                (omega arith) h,
          )
          (elim (Bool-cases (id % 128 == b * 16 + j)) [
            | inl here ↦
                let e : id % 128 ≡ b * 16 + j = (==_iff (id % 128) (b * 16 + j)).0 here in
                rw (here, e) (ground arith)
            | inr elsewhere ↦ rw elsewhere (ground arith)
          ]);
  }

copied_cong :
    (settings : ℕ → EncoderConfig) (raw other : ℕ → ℕ) (this id : ℕ)
    → raw (this + id / 128 * 128) ≡ other (this + id / 128 * 128)
    → raw id ≡ other id
    → copied settings raw this id ≡ copied settings other this id
copied_cong settings raw other this id e f = rw (e, f) refl

-- Two copies, one after the other, to different encoders, neither of which is the source.
module _ (this : ℕ) (h : this < 128) (s t u : Encoders) where
  Copies-trans :
      (at then_at : ℕ → Bool)
      → Copies this at s t
      → Copies this then_at t u
      → at this ≡ false
      → ((k : ℕ) → at k ≡ true → then_at k ≡ false)
      → Copies this (λ k. at k || then_at k) s u
  Copies-trans at then_at c d not_this apart = record {
    same_settings = d.same_settings ∙ c.same_settings;
    same_bank = d.same_bank ∙ c.same_bank;
    values = λ id b. d.values id b ∙ elim (Bool-cases (at (id % 128))) [
      | inl now ↦ rw (apart (id % 128) now, now) (c.values id b ∙ rw now refl)
      | inr other ↦
          let source : t.raw_encoder_value (this + id / 128 * 128)
              ≡ s.raw_encoder_value (this + id / 128 * 128) =
            c.values (this + id / 128 * 128) (omega arith)
            ∙ (let e : (this + id / 128 * 128) % 128 ≡ this = omega arith in
                rw (e, not_this) refl) in
          let same : t.raw_encoder_value id ≡ s.raw_encoder_value id =
            c.values id b ∙ rw other refl in
          let value =
            copied_cong s.encoder_settings t.raw_encoder_value s.raw_encoder_value this id source
              same in
          rw (other, c.same_settings, value, same) refl
    ];
  }

none-Copies : (this : ℕ) (s : Encoders) → Copies this (λ k. false) s s
none-Copies this s = record { same_settings = refl; same_bank = refl; values = λ id b. refl }

Copies-ext :
    (this : ℕ) (at same : ℕ → Bool) (s t : Encoders)
    → ((k : ℕ) → k < 128 → at k ≡ same k)
    → Copies this at s t
    → Copies this same s t
Copies-ext this at same s t e c = record {
  same_settings = c.same_settings;
  same_bank = c.same_bank;
  values = λ id b. rw (← e (id % 128) (omega arith)) (c.values id b);
}

module _ (bank encoder : ℕ) (hb : bank < 8) (he : encoder < 16) where
  transfer_to_bank-Copies :
      (b n j : ℕ) (s : Encoders)
      → b < 8
      → b ≢ bank
      → j + n ≤ 16
      → Copies
          (bank * 16 + encoder)
          (λ k. leb (b * 16 + j) k && ltb k (b * 16 + j + n))
          s
          (transfer_to_bank bank encoder b n j s)
  unfolding transfer_to_bank
  transfer_to_bank-Copies b zero j s hc ne room =
      Copies-ext (bank * 16 + encoder) (λ k. false) _ s s (λ k h. ground arith) (none-Copies _ s)
  transfer_to_bank-Copies b (suc n) j s hc ne room =
      let t = transfer_to bank encoder b j s in
      Copies-ext (bank * 16 + encoder) _ _ s (transfer_to_bank bank encoder b n (j + 1) t)
        (λ k h. ground arith)
        (Copies-trans (bank * 16 + encoder) (omega arith) s t
          (transfer_to_bank bank encoder b n (j + 1) t) (λ k. k == b * 16 + j)
          (λ k. leb (b * 16 + (j + 1)) k && ltb k (b * 16 + (j + 1) + n))
          (transfer_to-Copies bank encoder b j s hb he hc (omega arith))
          (transfer_to_bank-Copies b n (j + 1) t hc ne (omega arith)) (ground arith)
          (λ k now. ground arith))

  transfer_to_banks-Copies :
      (n b : ℕ) (s : Encoders)
      → b + n ≤ 8
      → Copies
          (bank * 16 + encoder)
          (λ k. leb (b * 16) k && ltb k ((b + n) * 16) && not (k / 16 == bank))
          s
          (transfer_to_banks bank encoder n b s)
  unfolding transfer_to_banks
  transfer_to_banks-Copies zero b s room =
      Copies-ext (bank * 16 + encoder) (λ k. false) _ s s (λ k h. ground arith) (none-Copies _ s)
  transfer_to_banks-Copies (suc n) b s room = elim (Bool-cases (b == bank)) [
    | inl own ↦
        let e : b ≡ bank = (==_iff b bank).0 own in
        rw own (
          Copies-ext (bank * 16 + encoder) _ _ s (transfer_to_banks bank encoder n (b + 1) s)
            (λ k h. ground arith) (transfer_to_banks-Copies n (b + 1) s (omega arith)))
    | inr other ↦
        let ne : b ≢ bank = λ e. ground (arith, ==_iff b bank) in
        let t = transfer_to_bank bank encoder b 16 0 s in
        rw other (
          Copies-ext (bank * 16 + encoder) _ _ s (transfer_to_banks bank encoder n (b + 1) t)
            (λ k h. ground arith)
            (Copies-trans (bank * 16 + encoder) (omega arith) s t
              (transfer_to_banks bank encoder n (b + 1) t)
              (λ k. leb (b * 16 + 0) k && ltb k (b * 16 + 0 + 16))
              (λ k. leb ((b + 1) * 16) k && ltb k ((b + 1 + n) * 16) && not (k / 16 == bank))
              (transfer_to_bank-Copies b 16 0 s (omega arith) ne (omega arith))
              (transfer_to_banks-Copies n (b + 1) t (omega arith)) (ground arith)
              (λ k now. ground arith)))
  ]

  -- The transfer of the value of an encoder gives it to each encoder of the other banks, shifted or
  -- not, that follows it, the shifted value to the shifted ones, and leaves all other values alone, those of
  -- its own bank among them. It leaves the settings and the bank alone.
  pub transfer_this_encoder_value_to_other_banks_lem :
      (s : Encoders)
      → (let t = transfer_this_encoder_value_to_other_banks bank encoder s in
          (t.encoder_settings ≡ s.encoder_settings)
          × ((t.encoder_bank ≡ s.encoder_bank)
              × ((id : ℕ)
                  → id < 256
                  → t.raw_encoder_value id ≡ (
                      if id % 128 / 16 == bank
                      then s.raw_encoder_value id
                      else copied s.encoder_settings s.raw_encoder_value
                          (bank * 16 + encoder)
                          id))))
  unfolding transfer_this_encoder_value_to_other_banks
  transfer_this_encoder_value_to_other_banks_lem s =
      let c = transfer_to_banks-Copies 8 0 s (omega arith) in
      (c.same_settings, (c.same_bank, λ id b. c.values id b ∙ ground arith))
