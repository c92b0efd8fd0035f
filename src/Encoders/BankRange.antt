-- ===== src/Encoders/BankRange.antt =====
-- src/encoders.c: the values that are copied between banks stay between 0 and 12700, and a change of the
-- bank leaves the settings.
use midi_fighter_twister_ope.Base.{
  ℕ, zero, suc, ◌+◌, ◌≤◌, ◌≡◌, refl, ◌∙◌, arith, Bool, true, false, Bool-cases, inl, inr, ◌==◌, u8,
  ◌*◌,
}
use midi_fighter_twister_ope.Encoders.{Encoders, assign}
use midi_fighter_twister_ope.Encoders.Banks.{
  encoder_maps_match, transfer_to, transfer_values, transfer_to_bank, transfer_to_banks,
  transfer_this_encoder_value_to_other_banks, transfer_from, transfer_encoder_values_to_other_banks,
  show_from, change_encoder_bank, refresh_display,
}

abbrev pub InRange : Encoders → Type 0
InRange s = (v : ℕ) → s.raw_encoder_value v ≤ 12700

pub assign-le :
    (table : ℕ → ℕ) (i v m j : ℕ) → ((k : ℕ) → table k ≤ m) → v ≤ m → assign table i v j ≤ m
assign-le table i v m j h k = let b = h j in ground arith

transfer_values-le :
    (same same_shifted : Bool) (this that m : ℕ) (raw : ℕ → ℕ)
    → ((k : ℕ) → raw k ≤ m)
    → (k : ℕ) → transfer_values same same_shifted this that raw k ≤ m
unfolding transfer_values
transfer_values-le true true this that m raw h k =
    let first = assign raw that (raw this) in
    let bound = λ (j : ℕ). assign-le raw that (raw this) m j h (h this) in
    assign-le first (that + 128) (first (this + 128)) m k bound (bound (this + 128))
transfer_values-le true false this that m raw h k = assign-le raw that (raw this) m k h (h this)
transfer_values-le false true this that m raw h k =
    assign-le raw (that + 128) (raw (this + 128)) m k h (h (this + 128))
transfer_values-le false false this that m raw h k = h k

-- What a copy between banks keeps.
pub record Keeps (s t : Encoders) : Type 0 where
  pub same_settings : t.encoder_settings ≡ s.encoder_settings
  pub same_bank : t.encoder_bank ≡ s.encoder_bank
  pub in_range : InRange s → InRange t

keep : (s : Encoders) → Keeps s s
keep s = record { same_settings = refl; same_bank = refl; in_range = λ h. h }

then_keep : (s t u : Encoders) → Keeps s t → Keeps t u → Keeps s u
then_keep s t u a b = record {
  same_settings = b.same_settings ∙ a.same_settings;
  same_bank = b.same_bank ∙ a.same_bank;
  in_range = λ h. b.in_range (a.in_range h);
}

transfer_to-Keeps : (bank i b j : ℕ) (s : Encoders) → Keeps s (transfer_to bank i b j s)
unfolding transfer_to
transfer_to-Keeps bank i b j s = record {
  same_settings = ground arith;
  same_bank = ground arith;
  in_range = λ h k.
      elim (Bool-cases (
        encoder_maps_match (s.encoder_settings (u8 (bank * 16 + i)))
          (s.encoder_settings (u8 (b * 16 + j))))) [
            | inl same ↦ rw same (transfer_values-le _ _ _ _ 12700 s.raw_encoder_value h k)
            | inr other ↦ rw other (h k)
          ];
}

transfer_to_bank-Keeps :
    (bank i b n j : ℕ) (s : Encoders) → Keeps s (transfer_to_bank bank i b n j s)
unfolding transfer_to_bank
transfer_to_bank-Keeps bank i b zero j s = keep s
transfer_to_bank-Keeps bank i b (suc n) j s =
    then_keep s _ _ (transfer_to-Keeps bank i b j s) (transfer_to_bank-Keeps bank i b n (j + 1) _)

transfer_to_banks-Keeps : (bank i n b : ℕ) (s : Encoders) → Keeps s (transfer_to_banks bank i n b s)
unfolding transfer_to_banks
transfer_to_banks-Keeps bank i zero b s = keep s
transfer_to_banks-Keeps bank i (suc n) b s = elim (Bool-cases (b == bank)) [
  | inl own ↦ rw own (transfer_to_banks-Keeps bank i n (b + 1) s)
  | inr other ↦ rw other (
      then_keep s _ _ (transfer_to_bank-Keeps bank i b 16 0 s)
        (transfer_to_banks-Keeps bank i n (b + 1) (transfer_to_bank bank i b 16 0 s)))
]

transfer_from-Keeps : (bank n i : ℕ) (s : Encoders) → Keeps s (transfer_from bank n i s)
unfolding transfer_from transfer_this_encoder_value_to_other_banks
transfer_from-Keeps bank zero i s = keep s
transfer_from-Keeps bank (suc n) i s =
    then_keep s _ _ (transfer_to_banks-Keeps bank i 8 0 s) (transfer_from-Keeps bank n (i + 1) _)

show_from-Keeps : (bank n i : ℕ) (s : Encoders) → Keeps s (show_from bank n i s)
unfolding show_from
show_from-Keeps bank zero i s = keep s
show_from-Keeps bank (suc n) i s =
    let next = show_from-Keeps bank n (i + 1) _ in
    record {
      same_settings = next.same_settings;
      same_bank = next.same_bank;
      in_range = next.in_range;
    }

-- A change of the bank.
pub record Changes (bank : ℕ) (s t : Encoders) : Type 0 where
  pub same_settings : t.encoder_settings ≡ s.encoder_settings
  pub new_bank : t.encoder_bank ≡ bank
  pub in_range : InRange s → InRange t

pub change_encoder_bank-Changes :
    (bank : ℕ) (s : Encoders) → Changes bank s (change_encoder_bank bank s)
unfolding change_encoder_bank transfer_encoder_values_to_other_banks
change_encoder_bank-Changes bank s =
    let t = transfer_from s.encoder_bank 16 0 s in
    let k =
      then_keep s t _ (transfer_from-Keeps s.encoder_bank 16 0 s) (show_from-Keeps bank 16 0 t) in
    record { same_settings = k.same_settings; new_bank = refl; in_range = k.in_range }

pub refresh_display-Changes : (s : Encoders) → Changes s.encoder_bank s (refresh_display s)
unfolding refresh_display
refresh_display-Changes s = change_encoder_bank-Changes s.encoder_bank s
