-- ===== src/NativeMode/Parsing.antt =====
-- src/native_mode.c: the items of a message are taken within the arrays of the state.
use midi_fighter_twister_ope.Base.{
  ℕ, ◌<◌, ◌≡◌, ◌≢◌, refl, ◌∙◌, Bool, true, false, Option, some, List, [], ◌∷◌, arith, leb, ◌==◌,
  set, length, length-set, All, Bool-cases, inl, inr,
}
use midi_fighter_twister_ope.NativeMode.{
  State, Outcome, IndicatorConfig, SwitchConfig, parse_item, parse_items,
  native_mode_parse_sysex_enc_indicator_config, native_mode_parse_sysex_enc_switch_config,
  native_mode_is_enc_indicator_config_valid, native_mode_is_enc_switch_config_valid,
}

pub record IsSound (s : State) : Type 0 where
  pub indicators : length s.enc_indicator_configs ≡ 16
  pub switches : length s.enc_switch_configs ≡ 16
  pub values : length s.indicator_value_buffer ≡ 16

-- The bytes that the handler takes for indices.
abbrev pub indices : List ℕ → List ℕ
indices (command ∷ index ∷ x ∷ y ∷ z ∷ rest) = index ∷ indices rest
indices _ = []

indicator-IsSound :
    (s : State) (index x y z : ℕ) (rest : List ℕ)
    → IsSound s
    → index ≢ 16
    → (p : Bool × State) × ((native_mode_parse_sysex_enc_indicator_config s
            (index ∷ x ∷ y ∷ z ∷ rest)
          ≡ some p)
        × IsSound p.1)
unfolding native_mode_parse_sysex_enc_indicator_config
indicator-IsSound s index x y z rest h ne =
    let config : IndicatorConfig = record { display_type = x; has_detent = y; detent_color = z } in
    elim (Bool-cases (leb index 16)) [
      | inr beyond ↦ ((false, s), (ground arith, h))
      | inl within ↦ elim (Bool-cases (native_mode_is_enc_indicator_config_valid config)) [
        | inr bad ↦ ((false, s), (rw bad (ground arith), h))
        | inl good ↦ (
          (true, record s { enc_indicator_configs = set s.enc_indicator_configs index config }),
          (
            rw good (ground arith),
            record {
              indicators = length-set s.enc_indicator_configs index config ∙ h.indicators;
              switches = h.switches;
              values = h.values;
            },
          ),
        )
      ]
    ]

switch-IsSound :
    (s : State) (index x y z : ℕ) (rest : List ℕ)
    → IsSound s
    → index ≢ 16
    → (p : Bool × State) × ((native_mode_parse_sysex_enc_switch_config s (index ∷ x ∷ y ∷ z ∷ rest)
          ≡ some p)
        × IsSound p.1)
unfolding native_mode_parse_sysex_enc_switch_config
switch-IsSound s index x y z rest h ne =
    let config : SwitchConfig = record { color_r = x; color_g = y; color_b = z } in
    elim (Bool-cases (leb index 16)) [
      | inr beyond ↦ ((false, s), (ground arith, h))
      | inl within ↦ elim (Bool-cases (native_mode_is_enc_switch_config_valid config)) [
        | inr bad ↦ ((false, s), (rw bad (ground arith), h))
        | inl good ↦ (
          (true, record s { enc_switch_configs = set s.enc_switch_configs index config }),
          (
            rw good (ground arith),
            record {
              indicators = h.indicators;
              switches = length-set s.enc_switch_configs index config ∙ h.switches;
              values = h.values;
            },
          ),
        )
      ]
    ]

parse_item-IsSound :
    (s : State) (command index x y z : ℕ) (rest : List ℕ)
    → IsSound s
    → index ≢ 16
    → (p : Bool × State) × ((parse_item s command (index ∷ x ∷ y ∷ z ∷ rest) ≡ some p)
        × IsSound p.1)
unfolding parse_item
parse_item-IsSound s command index x y z rest h ne = elim (Bool-cases (command == 0)) [
  | inl first ↦
      let (p, (e, sound)) = indicator-IsSound s index x y z rest h ne in (p, (simp first e, sound))
  | inr other ↦ elim (Bool-cases (command == 1)) [
    | inl second ↦
        let (p, (e, sound)) = switch-IsSound s index x y z rest h ne in
        (p, (simp (other, second) e, sound))
    | inr unknown ↦ ((false, s), (simp (other, unknown) refl, h))
  ]
]

-- A short item is refused.
short_item :
    (s : State) (command : ℕ) (rest : List ℕ)
    → length rest < 4
    → parse_item s command rest ≡ some (false, s)
unfolding parse_item native_mode_parse_sysex_enc_indicator_config
    native_mode_parse_sysex_enc_switch_config
short_item s command [] h = ground arith
short_item s command (a ∷ []) h = ground arith
short_item s command (a ∷ b ∷ []) h = ground arith
short_item s command (a ∷ b ∷ c ∷ []) h = ground arith
short_item s command (a ∷ b ∷ c ∷ d ∷ rest) h = absurd (omega arith)

abbrev pub SoundResult : Option Outcome → Type 0
SoundResult r = (o : Outcome) × ((r ≡ some o) × IsSound o.state)

short_items :
    (s : State) (command : ℕ) (rest : List ℕ)
    → length rest < 4
    → parse_items (command ∷ rest) s ≡ some record { state = s; refreshed = false }
unfolding parse_items
short_items s command [] h = rw (short_item s command [] h)
short_items s command (a ∷ []) h = rw (short_item s command (a ∷ []) h)
short_items s command (a ∷ b ∷ []) h = rw (short_item s command (a ∷ b ∷ []) h)
short_items s command (a ∷ b ∷ c ∷ []) h = rw (short_item s command (a ∷ b ∷ c ∷ []) h)
short_items s command (a ∷ b ∷ c ∷ d ∷ rest) h = absurd (omega arith)

pub parse_items-IsSound :
    (buffer : List ℕ) (s : State)
    → IsSound s
    → All (λ i. i ≢ 16) (indices buffer)
    → SoundResult (parse_items buffer s)
unfolding parse_items
parse_items-IsSound [] s h ne = (_, (refl, h))
parse_items-IsSound (command ∷ []) s h ne = (_, (short_items s command [] (omega arith), h))
parse_items-IsSound (command ∷ a ∷ []) s h ne =
    (_, (short_items s command (a ∷ []) (omega arith), h))
parse_items-IsSound (command ∷ a ∷ b ∷ []) s h ne =
    (_, (short_items s command (a ∷ b ∷ []) (omega arith), h))
parse_items-IsSound (command ∷ a ∷ b ∷ c ∷ []) s h ne =
    (_, (short_items s command (a ∷ b ∷ c ∷ []) (omega arith), h))
parse_items-IsSound (command ∷ index ∷ x ∷ y ∷ z ∷ rest) s h ne =
    let (p, (e, sound)) = parse_item-IsSound s command index x y z rest h ne.0 in
    let (o, (e2, sound2)) = parse_items-IsSound rest p.1 sound ne.1 in
    elim (Bool-cases p.0) [
      | inl taken ↦ (o, (rw e (simp taken e2), sound2))
      | inr refused ↦ (record { state = p.1; refreshed = false }, (rw e (simp refused refl), sound))
    ]
