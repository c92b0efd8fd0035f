-- ===== src/Encoders/BankChange.antt =====
-- src/encoders.c: what is shown after `change_encoder_bank`.
use midi_fighter_twister_ope.Base.{
  ℕ, zero, suc, ◌+◌, ◌/◌, ◌<◌, ◌≡◌, refl, sym, ap, ◌∙◌, Bool-cases, inl, inr, ==_iff, arith, true,
  ◌&&◌, ltb, leb, ◌==◌, if◌then◌else◌, u8,
}
use midi_fighter_twister_ope.Encoders.{
  Encoders, assign_cell, get_virtual_encoder_id, encoder_is_in_shift_state,
}
use midi_fighter_twister_ope.Encoders.Banks.{
  show_from, change_encoder_bank, transfer_encoder_values_to_other_banks,
}

-- With another table of indicators.
abbrev show : Encoders → (ℕ → ℕ → ℕ) → Encoders
show s table = record s { indicator_value_buffer = table }

get_virtual_encoder_id-show :
    (s : Encoders) (table : ℕ → ℕ → ℕ) (bank i : ℕ)
    → get_virtual_encoder_id (show s table) bank i ≡ get_virtual_encoder_id s bank i
unfolding get_virtual_encoder_id encoder_is_in_shift_state
get_virtual_encoder_id-show s table bank i = refl

get_virtual_encoder_id-bank :
    (s : Encoders) (new_bank bank i : ℕ)
    → get_virtual_encoder_id (record s { encoder_bank = new_bank }) bank i
      ≡ get_virtual_encoder_id s bank i
unfolding get_virtual_encoder_id encoder_is_in_shift_state
get_virtual_encoder_id-bank s new_bank bank i = refl

show_from-show :
    (bank n i : ℕ) (s : Encoders)
    → show_from bank n i s ≡ show s (show_from bank n i s).indicator_value_buffer
unfolding show_from
show_from-show bank zero i s = refl
show_from-show bank (suc n) i s = show_from-show bank n (i + 1) _

show_from-cell :
    (bank n i j : ℕ) (s : Encoders)
    → (show_from bank n i s).indicator_value_buffer bank j ≡ (
        if leb i j && ltb j (i + n)
        then u8 (s.raw_encoder_value (get_virtual_encoder_id s bank j) / 100)
        else s.indicator_value_buffer bank j)
unfolding show_from
show_from-cell bank zero i j s = ground arith
show_from-cell bank (suc n) i j s =
    let saved =
      assign_cell s.indicator_value_buffer s.encoder_bank i
        (u8 (s.raw_encoder_value (get_virtual_encoder_id s s.encoder_bank i) / 100)) in
    let next =
      assign_cell saved bank i (u8 (s.raw_encoder_value (get_virtual_encoder_id s bank i) / 100)) in
    show_from-cell bank n (i + 1) j (show s next)
    ∙ rw (get_virtual_encoder_id-show s next bank j) (elim (Bool-cases (j == i)) [
      | inl now ↦ let e : j ≡ i = (==_iff j i).0 now in rw e (ground arith)
      | inr other ↦ rw other (ground arith)
    ])

-- After `change_encoder_bank` the device is in the new bank, and each of its indicators has the value, in
-- steps of 100, of the encoder that is shown there, shifted or not.
pub change_encoder_bank_lem :
    (new_bank : ℕ) (s : Encoders)
    → (let t = change_encoder_bank new_bank s in
        (t.encoder_bank ≡ new_bank)
        × ((i : ℕ)
            → i < 16
            → t.indicator_value_buffer new_bank i
              ≡ u8 (t.raw_encoder_value (get_virtual_encoder_id t new_bank i) / 100)))
unfolding change_encoder_bank
change_encoder_bank_lem new_bank s =
    let t = transfer_encoder_values_to_other_banks s.encoder_bank s in
    let shown = show_from new_bank 16 0 t in
    (
      refl,
      λ i h.
          let now : leb 0 i && ltb i (0 + 16) ≡ true = ground arith in
          let whole = show_from-show new_bank 16 0 t in
          let value =
            ap
              (λ (q : Encoders).
                u8 (q.raw_encoder_value (get_virtual_encoder_id q new_bank i) / 100))
              whole
            ∙ ap (λ v. u8 (t.raw_encoder_value v / 100))
                (get_virtual_encoder_id-show t shown.indicator_value_buffer new_bank i) in
          show_from-cell new_bank 16 0 i t
          ∙ rw now (sym value)
          ∙ ap (λ v. u8 (shown.raw_encoder_value v / 100))
              (sym (get_virtual_encoder_id-bank shown new_bank new_bank i)),
    )
