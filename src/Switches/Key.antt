-- ===== src/Switches/Key.antt =====
-- src/input.c: what the debouncing promises of one switch, as a machine that counts the samples since the
-- switch was last seen pressed, and that the buffer of ten samples implements it.
use midi_fighter_twister_ope.Base.{
  ℕ, zero, suc, ◌+◌, ◌-◌, ◌%◌, ◌<◌, ◌≤◌, ◌≡◌, refl, ◌⊎◌, inl, inr, min, ◌≢◌, arith, Bool, true,
  false, not, ◌&&◌, Bool-cases, ltb, ◌==◌, ==_iff, if◌then◌else◌, List, [], ◌∷◌, bit, bit-lt,
  bit-zero, bit_and, bit_or, bit_xor, bit-bit_and, bit-bit_or, bit-bit_xor,
}
use midi_fighter_twister_ope.Switches.{
  SwitchInput, no_switches, add_sample, or_samples, update_encoder_switch_state,
}

-- A sample that the interrupt takes, and the update that the main loop makes, in any order.
pub data Event : Type 0 where
  sample : ℕ → Event
  update : Event

unfoldable pub step : Event → SwitchInput → SwitchInput
step (sample v) s = add_sample v s
step update s = update_encoder_switch_state s

unfoldable pub run : List Event → SwitchInput → SwitchInput
run [] s = s
run (e ∷ rest) s = run rest (step e s)

pub record Key : Type 0 where
  pub since : ℕ
  pub is_down : Bool
  pub went_up : Bool
  pub went_down : Bool

abbrev pub released : Key
released = record { since = 10; is_down = false; went_up = false; went_down = false }

-- A switch is down if it was pressed in one of the last ten samples.
unfoldable pub key_step : ℕ → Event → Key → Key
key_step i (sample v) k = record k { since = if bit v i == 1 then 0 else k.since + 1 }
key_step i update k =
    let now = ltb k.since 10 in
    record k { is_down = now; went_up = k.is_down && not now; went_down = not k.is_down && now }

unfoldable pub run_key : ℕ → List Event → Key → Key
run_key i [] k = k
run_key i (e ∷ rest) k = run_key i rest (key_step i e k)

abbrev pub digit : Bool → ℕ
digit true = 1
digit false = 0

-- The sample `n` before the last one.
abbrev pub sample_before : SwitchInput → ℕ → ℕ
sample_before s n = s.debounce_buffer ((s.buffer_pos + 9 - n) % 10)

-- What is seen of switch `i` in `s` is what `k` has.
pub record IsSeen (i : ℕ) (s : SwitchInput) (k : Key) : Type 0 where
  pub state : bit s.switch_state i ≡ digit k.is_down
  pub up : bit s.switch_up i ≡ digit k.went_up
  pub down : bit s.switch_down i ≡ digit k.went_down

record Refines (i : ℕ) (s : SwitchInput) (k : Key) : Type 0 where
  in_buffer : s.buffer_pos < 10
  previous : bit s.prev_switch_state i ≡ digit k.is_down
  not_since : (n : ℕ) → n < 10 → n < k.since → bit (sample_before s n) i ≡ 0
  at_last : k.since < 10 → bit (sample_before s k.since) i ≡ 1
  seen : IsSeen i s k

or_samples-some :
    (buffer : ℕ → ℕ) (i n start state j : ℕ)
    → (bit state i ≡ 1) ⊎ ((start ≤ j) × ((j < start + n) × (bit (buffer j) i ≡ 1)))
    → bit (or_samples buffer n start state) i ≡ 1
unfolding or_samples
or_samples-some buffer i zero start state j (inl h) = h
or_samples-some buffer i zero start state j (inr h) = absurd (omega (arith, h.0, h.1.0))
or_samples-some buffer i (suc n) start state j (inl h) =
    or_samples-some buffer i n (start + 1) (bit_or state (buffer start)) j
      (inl (omega (arith, bit-bit_or state (buffer start) i, bit-lt (buffer start) i)))
or_samples-some buffer i (suc n) start state j (inr h) =
    let (after, (before, hit)) = h in
    let now = bit-bit_or state (buffer start) i in
    elim (Bool-cases (j == start)) [
      | inl same ↦
          let e : j ≡ start = (==_iff j start).0 same in
          let here : bit (buffer start) i ≡ 1 = rw (← e) hit in
          or_samples-some buffer i n (start + 1) (bit_or state (buffer start)) j
            (inl (omega (arith, now, here, bit-lt state i)))
      | inr other ↦
          or_samples-some buffer i n (start + 1) (bit_or state (buffer start)) j
            (inr (ground arith, (omega arith, hit)))
    ]

or_samples-none :
    (buffer : ℕ → ℕ) (i n start state : ℕ)
    → bit state i ≡ 0
    → ((j : ℕ) → start ≤ j → j < start + n → bit (buffer j) i ≡ 0)
    → bit (or_samples buffer n start state) i ≡ 0
unfolding or_samples
or_samples-none buffer i zero start state h each = h
or_samples-none buffer i (suc n) start state h each =
    or_samples-none buffer i n (start + 1) (bit_or state (buffer start))
      (omega (arith, bit-bit_or state (buffer start) i, each start (omega arith) (omega arith)))
      (λ j l u. each j (omega arith) (omega arith))

edges :
    (i state : ℕ) (was now : Bool) (s : SwitchInput)
    → bit s.prev_switch_state i ≡ digit was
    → bit state i ≡ digit now
    → (bit (bit_and (bit_xor s.prev_switch_state state) s.prev_switch_state) i
        ≡ digit (was && not now))
      × (bit (bit_and (bit_xor s.prev_switch_state state) state) i ≡ digit (not was && now))
edges i state was now s h k =
    let old = s.prev_switch_state in
    let change = bit-bit_xor old state i in
    rw
      (bit-bit_and (bit_xor old state) old i, bit-bit_and (bit_xor old state) state i, change, h, k)
      (both was now)
  where
    both :
        (was now : Bool)
        → (min ((digit was + digit now) % 2) (digit was) ≡ digit (was && not now))
          × (min ((digit was + digit now) % 2) (digit now) ≡ digit (not was && now))
    both true true = (refl, refl)
    both true false = (refl, refl)
    both false true = (refl, refl)
    both false false = (refl, refl)

update-Refines :
    (i : ℕ) (s : SwitchInput) (k : Key)
    → Refines i s k
    → Refines i (step update s) (key_step i update k)
unfolding step key_step update_encoder_switch_state
update-Refines i s k h =
    let state = or_samples s.debounce_buffer 10 0 0 in
    let is_now : bit state i ≡ digit (ltb k.since 10) = elim (Bool-cases (ltb k.since 10)) [
      | inl now ↦
          let l : k.since < 10 = ground arith in
          rw now (
            or_samples-some s.debounce_buffer i 10 0 0 ((s.buffer_pos + 9 - k.since) % 10)
              (inr (omega arith, (omega arith, h.at_last l))))
      | inr none ↦ rw none (
          or_samples-none s.debounce_buffer i 10 0 0 (bit-zero i) (λ j a b.
            let n = (s.buffer_pos + 9 - j) % 10 in
            let e : (s.buffer_pos + 9 - n) % 10 ≡ j = omega (arith, h.in_buffer) in
            ap_buffer s i ((s.buffer_pos + 9 - n) % 10) j e
              (h.not_since n (omega arith) (ground arith))))
    ] in
    let (up, down) = edges i state k.is_down (ltb k.since 10) s h.previous is_now in
    record {
      in_buffer = h.in_buffer;
      previous = is_now;
      not_since = h.not_since;
      at_last = h.at_last;
      seen = record { state = is_now; up = up; down = down };
    }
  where
    ap_buffer :
        (s : SwitchInput) (i a b : ℕ)
        → a ≡ b
        → bit (s.debounce_buffer a) i ≡ 0
        → bit (s.debounce_buffer b) i ≡ 0
    ap_buffer s i a b e h = rw (← e) h

sample_before-add_sample :
    (v n : ℕ) (s : SwitchInput)
    → s.buffer_pos < 10
    → n < 10
    → sample_before (add_sample v s) n ≡ (if n == 0 then v else sample_before s (n - 1))
unfolding add_sample
sample_before-add_sample v zero s h k =
    let e : ((s.buffer_pos + 1) % 10 + 9 - 0) % 10 ≡ s.buffer_pos = omega arith in
    rw e (ground arith)
sample_before-add_sample v (suc n) s h k =
    let e : ((s.buffer_pos + 1) % 10 + 9 - suc n) % 10 ≡ (s.buffer_pos + 9 - n) % 10 =
      omega arith in
    let ne : (s.buffer_pos + 9 - n) % 10 ≢ s.buffer_pos = λ same. omega arith in rw e (ground arith)

module _ (i v : ℕ) (s : SwitchInput) (k : Key) (h : Refines i s k) where
  sample-not_since :
      (n : ℕ)
      → n < 10
      → n < (if bit v i == 1 then 0 else k.since + 1)
      → bit (sample_before (add_sample v s) n) i ≡ 0
  sample-not_since n l m =
      rw (sample_before-add_sample v n s h.in_buffer l) ground
        (arith, bit-lt v i, h.not_since (n - 1))

  sample-at_last :
      (if bit v i == 1 then 0 else k.since + 1) < 10
      → bit (sample_before (add_sample v s) (if bit v i == 1 then 0 else k.since + 1)) i ≡ 1
  sample-at_last l = elim (Bool-cases (bit v i == 1)) [
    | inl hit ↦ rw (hit, sample_before-add_sample v 0 s h.in_buffer (omega arith)) ground arith
    | inr missed ↦
        let m : k.since + 1 < 10 = ground arith in
        rw (missed, sample_before-add_sample v (k.since + 1) s h.in_buffer m) ground
          (arith, h.at_last)
  ]

  sample-Refines : Refines i (step (sample v) s) (key_step i (sample v) k)
  unfolding step key_step add_sample
  sample-Refines = record {
    in_buffer = omega arith;
    previous = h.previous;
    not_since = sample-not_since;
    at_last = sample-at_last;
    seen = record { state = h.seen.state; up = h.seen.up; down = h.seen.down };
  }

start-Refines : (i : ℕ) → Refines i no_switches released
start-Refines i = record {
  in_buffer = omega arith;
  previous = bit-zero i;
  not_since = λ n l m. bit-zero i;
  at_last = λ l. omega arith;
  seen = record { state = bit-zero i; up = bit-zero i; down = bit-zero i };
}

run-Refines :
    (i : ℕ) (events : List Event) (s : SwitchInput) (k : Key)
    → Refines i s k
    → Refines i (run events s) (run_key i events k)
unfolding run run_key
run-Refines i [] s k h = h
run-Refines i (sample v ∷ rest) s k h = run-Refines i rest _ _ (sample-Refines i v s k h)
run-Refines i (update ∷ rest) s k h = run-Refines i rest _ _ (update-Refines i s k h)

-- From power-up on, under every order of samples and updates, the state and the edges of switch `i` are those of
-- a machine that counts the samples since the switch was pressed, and is down while that is below ten.
pub run-IsSeen :
    (i : ℕ) (events : List Event) → IsSeen i (run events no_switches) (run_key i events released)
run-IsSeen i events = (run-Refines i events no_switches released (start-Refines i)).seen
