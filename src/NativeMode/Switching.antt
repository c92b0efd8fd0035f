-- ===== src/NativeMode/Switching.antt =====
-- src/native_mode.c: the settings are the defaults when the mode is entered.
use midi_fighter_twister_ope.Base.{
  ℕ, zero, suc, ◌+◌, ◌<◌, ◌≤◌, ◌≡◌, refl, ◌∙◌, Bool, true, false, not, ◌&&◌, ◌||◌, List, arith, ltb,
  leb, ◌==◌, if◌then◌else◌, get_or, set, length-set, get_or-set_lt,
}
use midi_fighter_twister_ope.NativeMode.{
  State, Outcome, IndicatorConfig, SwitchConfig, default_indicator_config, default_switch_config,
  native_mode_toggle, enter_or_leave, reset_from, native_mode_reset_encoder_configs,
}
use midi_fighter_twister_ope.NativeMode.Parsing.{IsSound}

-- All encoders have the default settings.
abbrev pub IsReset : State → Type 0
IsReset s =
    (i : ℕ)
    → i < 16
    → (get_or s.enc_indicator_configs i default_indicator_config ≡ default_indicator_config)
      × (get_or s.enc_switch_configs i default_switch_config ≡ default_switch_config)

window {ℓ} :
    {A : Type ℓ} (x d : A) (i n j : ℕ)
    → (if leb (i + 1) j && ltb j (i + 1 + n) then d else if i == j then d else x)
      ≡ (if leb i j && ltb j (i + suc n) then d else x)
window x d i n j = ground arith

reset_from_lem :
    (n i : ℕ) (s : State)
    → IsSound s
    → i + n ≤ 16
    → IsSound (reset_from n i s)
      × ((j : ℕ)
          → (get_or (reset_from n i s).enc_indicator_configs j default_indicator_config ≡ (
              if leb i j && ltb j (i + n)
              then default_indicator_config
              else get_or s.enc_indicator_configs j default_indicator_config))
            × (get_or (reset_from n i s).enc_switch_configs j default_switch_config ≡ (
                if leb i j && ltb j (i + n)
                then default_switch_config
                else get_or s.enc_switch_configs j default_switch_config)))
unfolding reset_from
reset_from_lem zero i s h b = (h, λ j. (ground arith, ground arith))
reset_from_lem (suc n) i s h b =
    let t : State = record s {
      enc_indicator_configs = set s.enc_indicator_configs i default_indicator_config;
      enc_switch_configs = set s.enc_switch_configs i default_switch_config;
    } in
    let sound : IsSound t = record {
      indicators = length-set s.enc_indicator_configs i default_indicator_config ∙ h.indicators;
      switches = length-set s.enc_switch_configs i default_switch_config ∙ h.switches;
      values = h.values;
    } in
    let (out, rest) = reset_from_lem n (i + 1) t sound (omega arith) in
    (
      out,
      λ j. (
        (rest j).0
            ∙ rw
                (get_or-set_lt s.enc_indicator_configs i j default_indicator_config
                  default_indicator_config (omega (arith, h.indicators)))
                (window (get_or s.enc_indicator_configs j default_indicator_config)
                  default_indicator_config i n j),
        (rest j).1
            ∙ rw
                (get_or-set_lt s.enc_switch_configs i j default_switch_config default_switch_config
                  (omega (arith, h.switches)))
                (window (get_or s.enc_switch_configs j default_switch_config) default_switch_config
                  i n j),
      ),
    )

native_mode_reset_encoder_configs-IsReset :
    (s : State)
    → IsSound s
    → IsSound (native_mode_reset_encoder_configs s) × IsReset (native_mode_reset_encoder_configs s)
native_mode_reset_encoder_configs-IsReset s h =
    let (sound, at) = reset_from_lem 16 0 s h (omega arith) in
    (sound, λ i b. ((at i).0 ∙ ground arith, (at i).1 ∙ ground arith))

-- The flag that `value` asks for, and the defaults if the mode was entered by it.
pub record IsSwitched (wanted : Bool) (s : State) (o : Outcome) : Type 0 where
  pub is_wanted : o.state.is_active ≡ wanted
  pub sound : IsSound o.state
  pub entered : s.is_active ≡ false → wanted ≡ true → IsReset o.state
  pub kept : s.is_active ≡ wanted → o.state ≡ s
  pub redrawn : o.refreshed ≡ not (wanted && s.is_active || not wanted && not s.is_active)

reset_from_active : (n i : ℕ) (s : State) → (reset_from n i s).is_active ≡ s.is_active
unfolding reset_from
reset_from_active zero i s = refl
reset_from_active (suc n) i s = reset_from_active n (i + 1) _

enter_or_leave_cases :
    (wanted active : Bool) (a : List IndicatorConfig) (b : List SwitchConfig) (v : List ℕ)
    → (let s : State = record {
      is_active = active;
      enc_indicator_configs = a;
      enc_switch_configs = b;
      indicator_value_buffer = v;
    } in
        IsSound s → IsSwitched wanted s (enter_or_leave wanted s))
unfolding enter_or_leave
enter_or_leave_cases true true a b v h = record {
  is_wanted = refl;
  sound = h;
  entered = λ off on. ground arith;
  kept = λ same. refl;
  redrawn = refl;
}
enter_or_leave_cases true false a b v h =
    let t : State = record {
      is_active = true;
      enc_indicator_configs = a;
      enc_switch_configs = b;
      indicator_value_buffer = v;
    } in
    let (sound, reset) =
      native_mode_reset_encoder_configs-IsReset t
        record { indicators = h.indicators; switches = h.switches; values = h.values } in
    record {
      is_wanted = reset_from_active 16 0 t;
      sound = sound;
      entered = λ off on. reset;
      kept = λ same. ground arith;
      redrawn = refl;
    }
enter_or_leave_cases false true a b v h = record {
  is_wanted = refl;
  sound = record { indicators = h.indicators; switches = h.switches; values = h.values };
  entered = λ off on. ground arith;
  kept = λ same. ground arith;
  redrawn = refl;
}
enter_or_leave_cases false false a b v h = record {
  is_wanted = refl;
  sound = h;
  entered = λ off on. ground arith;
  kept = λ same. refl;
  redrawn = refl;
}

pub enter_or_leave-IsSwitched :
    (wanted : Bool) (s : State) → IsSound s → IsSwitched wanted s (enter_or_leave wanted s)
enter_or_leave-IsSwitched wanted s h =
    enter_or_leave_cases wanted s.is_active s.enc_indicator_configs s.enc_switch_configs
      s.indicator_value_buffer h

-- `native_mode_toggle` changes the mode, and entering it sets every encoder to the defaults.
native_mode_toggle-IsSwitched :
    (s : State) → IsSound s → IsSwitched (not s.is_active) s (native_mode_toggle s)
unfolding native_mode_toggle
native_mode_toggle-IsSwitched s h = enter_or_leave-IsSwitched (not s.is_active) s h
