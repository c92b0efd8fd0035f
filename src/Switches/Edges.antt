-- ===== src/Switches/Edges.antt =====
-- src/input.c: when a press and a release of a switch are noticed, and that they alternate.
use midi_fighter_twister_ope.Base.{
  ℕ, ◌+◌, ◌<◌, ◌≤◌, ◌≡◌, refl, ◌∙◌, arith, Bool, true, false, ap, ltb, ◌==◌, if◌then◌else◌, List,
  [], ◌∷◌, ◌++◌, bit, bit-lt, bit_xor, bit-bit_and, bit-bit_xor,
}
use midi_fighter_twister_ope.Switches.{
  SwitchInput, no_switches, or_samples, update_encoder_switch_state, add_sample,
}
use midi_fighter_twister_ope.Switches.Key.{
  Event, sample, update, step, run, Key, released, key_step, run_key, digit, run-IsSeen,
}

-- How many samples a trace has, and that none of them has switch `i` pressed.
unfoldable pub samples : List Event → ℕ
samples [] = 0
samples (sample v ∷ rest) = samples rest + 1
samples (update ∷ rest) = samples rest

unfoldable pub IsUntouched : ℕ → List Event → Type 0
IsUntouched i [] = Unit
IsUntouched i (sample v ∷ rest) = (bit v i ≡ 0) × IsUntouched i rest
IsUntouched i (update ∷ rest) = IsUntouched i rest

run_key-append :
    (i : ℕ) (xs ys : List Event) (k : Key) → run_key i (xs ++ ys) k ≡ run_key i ys (run_key i xs k)
unfolding run_key
run_key-append i [] ys k = refl
run_key-append i (x ∷ xs) ys k = run_key-append i xs ys (key_step i x k)

run_key-since_ge :
    (i : ℕ) (events : List Event) (k : Key)
    → IsUntouched i events
    → k.since + samples events ≤ (run_key i events k).since
unfolding run_key samples IsUntouched key_step
run_key-since_ge i [] k h = omega arith
run_key-since_ge i (sample v ∷ rest) k h =
    let next = run_key-since_ge i rest (key_step i (sample v) k) h.1 in
    let e : (bit v i == 1) ≡ false = ground (arith, h.0) in
    omega (arith, next, ap (λ (b : Bool). if b then 0 else k.since + 1) e)
run_key-since_ge i (update ∷ rest) k h = run_key-since_ge i rest (key_step i update k) h

run_key-since_le :
    (i : ℕ) (events : List Event) (k : Key) → (run_key i events k).since ≤ k.since + samples events
unfolding run_key samples key_step
run_key-since_le i [] k = omega arith
run_key-since_le i (sample v ∷ rest) k =
    let next = run_key-since_le i rest (key_step i (sample v) k) in ground (arith, next)
run_key-since_le i (update ∷ rest) k = run_key-since_le i rest (key_step i update k)

updated :
    (i : ℕ) (events : List Event)
    → bit (run (events ++ update ∷ []) no_switches).switch_state i
      ≡ digit (ltb (run_key i events released).since 10)
unfolding run_key key_step
updated i events =
    (run-IsSeen i (events ++ update ∷ [])).state
    ∙ ap (λ (k : Key). digit k.is_down) (run_key-append i events (update ∷ []) released)

-- After any trace, ten samples in which switch `i` is not pressed, with or without updates between them, are
-- enough: the next update has it released.
pub run-release :
    (i : ℕ) (before after : List Event)
    → IsUntouched i after
    → 10 ≤ samples after
    → bit (run ((before ++ after) ++ update ∷ []) no_switches).switch_state i ≡ 0
run-release i before after h enough =
    let k = run_key i before released in
    let late : (ltb (run_key i (before ++ after) released).since 10) ≡ false =
      rw (run_key-append i before after released) ground (arith, run_key-since_ge i after k h) in
    updated i (before ++ after) ∙ rw late refl

-- After any trace, a single sample in which switch `i` is pressed is noticed by an update that fewer than ten
-- further samples precede, whatever they are.
run-press :
    (i v : ℕ) (before after : List Event)
    → bit v i ≡ 1
    → samples after < 10
    → bit (run ((before ++ sample v ∷ after) ++ update ∷ []) no_switches).switch_state i ≡ 1
unfolding run_key key_step
run-press i v before after h soon =
    let k = run_key i before released in
    let hit : (bit v i == 1) ≡ true = ground (arith, h) in
    let reached : run_key i (sample v ∷ after) k ≡ run_key i after (record k { since = 0 }) =
      rw hit refl in
    let bound = run_key-since_le i after (record k { since = 0 }) in
    let early : (ltb (run_key i (before ++ sample v ∷ after) released).since 10) ≡ true =
      rw (run_key-append i before (sample v ∷ after) released, reached) ground (arith, bound) in
    updated i (before ++ sample v ∷ after) ∙ rw early refl

-- The updates of a trace that find switch `i` newly pressed, and newly released.
unfoldable pub presses : ℕ → List Event → SwitchInput → ℕ
presses i [] s = 0
presses i (sample v ∷ rest) s = presses i rest (step (sample v) s)
presses i (update ∷ rest) s = bit (step update s).switch_down i + presses i rest (step update s)

unfoldable pub releases : ℕ → List Event → SwitchInput → ℕ
releases i [] s = 0
releases i (sample v ∷ rest) s = releases i rest (step (sample v) s)
releases i (update ∷ rest) s = bit (step update s).switch_up i + releases i rest (step update s)

one_edge :
    (i : ℕ) (s : SwitchInput)
    → bit (step update s).switch_down i + bit s.prev_switch_state i
      ≡ bit (step update s).switch_up i + bit (step update s).prev_switch_state i
unfolding step update_encoder_switch_state
one_edge i s =
    let state = or_samples s.debounce_buffer 10 0 0 in
    let old = s.prev_switch_state in
    rw
      (
        bit-bit_and (bit_xor old state) old i,
        bit-bit_and (bit_xor old state) state i,
        bit-bit_xor old state i,
      )
      (omega (arith, bit-lt old i, bit-lt state i))

-- Over every trace and for each switch, presses and releases alternate: there are as many presses as
-- releases, and one more if the switch has become pressed in between.
pub presses-releases :
    (i : ℕ) (events : List Event) (s : SwitchInput)
    → presses i events s + bit s.prev_switch_state i
      ≡ releases i events s + bit (run events s).prev_switch_state i
unfolding presses releases run step add_sample
presses-releases i [] s = refl
presses-releases i (sample v ∷ rest) s = presses-releases i rest (add_sample v s)
presses-releases i (update ∷ rest) s =
    omega (arith, one_edge i s, presses-releases i rest (step update s))
