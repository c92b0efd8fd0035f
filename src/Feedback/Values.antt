-- ===== src/Feedback/Values.antt =====
-- src/encoders.c: which values and which indicators a message of the host sets.
use midi_fighter_twister_ope.Base.{
  ℕ, zero, suc, ◌+◌, ◌*◌, ◌%◌, ◌<◌, ◌≤◌, ◌≡◌, refl, ap, ◌∙◌, arith, Bool, true, false, ◌&&◌, ltb,
  leb, ◌==◌, if◌then◌else◌, u16,
}
use midi_fighter_twister_ope.Encoders.{Encoders}
use midi_fighter_twister_ope.Quadrature.{EncoderInput}
use midi_fighter_twister_ope.Device.{Device}
use midi_fighter_twister_ope.Feedback.Mapping.{match_one, match_from}
use midi_fighter_twister_ope.Feedback.OneMatch.{
  with_values, IsSame, takes, shows, takes-put, shows-put, match_one-Sets,
}

next_round :
    (i n k v x : ℕ) (takes : Bool)
    → (if leb (i + 1) k && ltb k (i + 1 + n) && takes
        then v
        else if (k == i) && takes
        then v
        else x)
      ≡ (if leb i k && ltb k (i + suc n) && takes then v else x)
next_round i n k v x true = ground arith
next_round i n k v x false = ground arith

module _ (inputs : ℕ → EncoderInput) (channel type number value : ℕ) where
  record HasTaken (at : ℕ → Bool) (s t : Encoders) : Type 0 where
    same : IsSame s t
    values :
        (id : ℕ)
        → id < 256
        → t.raw_encoder_value id ≡ (
            if at (id % 128) && takes inputs channel type number value s id
            then u16 (value * 100)
            else s.raw_encoder_value id)
    shown :
        (b j : ℕ)
        → j < 16
        → t.indicator_value_buffer b j ≡ (
            if at (b * 16 + j) && shows inputs channel type number value s b j
            then value
            else s.indicator_value_buffer b j)

  match_from-HasTaken :
      (n i : ℕ) (d : Device)
      → i + n ≤ 128
      → HasTaken
          (λ k. leb i k && ltb k (i + n))
          d.encoders
          (match_from inputs channel type number value n i d).encoders
  unfolding match_from
  match_from-HasTaken zero i d h = record {
    same = refl;
    values = λ id k. ground arith;
    shown = λ b j k. ground arith;
  }
  match_from-HasTaken (suc n) i d h =
      let e = match_one inputs channel type number value i d in
      let one = match_one-Sets inputs channel type number value i d (omega arith) in
      let rest = match_from-HasTaken n (i + 1) e (omega arith) in
      let f = match_from inputs channel type number value n (i + 1) e in
      record {
        same =
            rest.same
            ∙ ap
                (λ (s : Encoders).
                  with_values s f.encoders.raw_encoder_value f.encoders.indicator_value_buffer)
                one.same;
        values = λ id k.
            let kept : takes inputs channel type number value e.encoders id
                ≡ takes inputs channel type number value d.encoders id =
              ap (λ (s : Encoders). takes inputs channel type number value s id) one.same
              ∙ takes-put inputs channel type number value d.encoders _ _ id in
            rest.values id k
            ∙ rw (kept, one.values id k)
                (next_round i n (id % 128) (u16 (value * 100)) (d.encoders.raw_encoder_value id)
                  (takes inputs channel type number value d.encoders id));
        shown = λ b j k.
            let kept : shows inputs channel type number value e.encoders b j
                ≡ shows inputs channel type number value d.encoders b j =
              ap (λ (s : Encoders). shows inputs channel type number value s b j) one.same
              ∙ shows-put inputs channel type number value d.encoders _ _ b j in
            rest.shown b j k
            ∙ rw (kept, one.shown b j k)
                (next_round i n (b * 16 + j) value (d.encoders.indicator_value_buffer b j)
                  (shows inputs channel type number value d.encoders b j));
      }

  -- The loop of `process_element_midi` over the 128 banked encoders gives a value below 128 to exactly those virtual
  -- encoders that the message is mapped to and that accept it, whether they are in the bank that is shown or not,
  -- and shows it at exactly those of them that are in that state; no other value or indicator changes.
  pub match_from_lem :
      (d : Device)
      → value < 128
      → (let e = match_from inputs channel type number value 128 0 d in
          ((id : ℕ)
            → id < 256
            → e.encoders.raw_encoder_value id ≡ (
                if takes inputs channel type number value d.encoders id
                then value * 100
                else d.encoders.raw_encoder_value id))
          × ((b j : ℕ)
              → b < 8
              → j < 16
              → e.encoders.indicator_value_buffer b j ≡ (
                  if shows inputs channel type number value d.encoders b j
                  then value
                  else d.encoders.indicator_value_buffer b j)))
  match_from_lem d small =
      let h = match_from-HasTaken 128 0 d (omega arith) in
      let whole : u16 (value * 100) ≡ value * 100 = omega arith in
      (λ id k. h.values id k ∙ rw whole (ground arith), λ b j k l. h.shown b j l ∙ ground arith)
