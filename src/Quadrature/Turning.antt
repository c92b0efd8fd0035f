-- ===== src/Quadrature/Turning.antt =====
-- src/input.c, `encoder_scan`: the ticks that are counted while an encoder is turned.
use midi_fighter_twister_ope.Base.{
  ℕ, zero, suc, ◌+◌, ◌<◌, ◌≤◌, ◌≡◌, ◌⊎◌, inl, inr, refl, sym, subst, ◌∙◌, min, arith, Bool, true,
  false, List, [], ◌∷◌, if◌then◌else◌, u8,
}
use midi_fighter_twister_ope.Quadrature.{EncoderInput, encoder_scan, encoder_action, encoder_event}

-- The four positions of the two pins, in the order of a clockwise turn.
pub data Phase : Type 0 where
  neither first both second : Phase

abbrev pub cha_at : Phase → Bool
cha_at neither = false
cha_at first = true
cha_at both = true
cha_at second = false

abbrev pub chb_at : Phase → Bool
chb_at neither = false
chb_at first = false
chb_at both = true
chb_at second = true

abbrev pub next_phase : Bool → Phase → Phase
next_phase true neither = first
next_phase true first = both
next_phase true both = second
next_phase true second = neither
next_phase false neither = second
next_phase false first = neither
next_phase false both = first
next_phase false second = both

-- A tick: the scans for which the encoder rests before it, and whether it goes clockwise.
pub record Tick : Type 0 where
  pub wait : ℕ
  pub is_clockwise : Bool

abbrev pub move_of : Bool → ℕ
move_of cw = if cw then 1 else 0xff

abbrev pub rest : ℕ → Phase → EncoderInput → EncoderInput
rest zero p e = e
rest (suc n) p e = rest n p (encoder_scan e (cha_at p) (chb_at p))

-- The scans of a turn that begins in a phase.
abbrev pub turn : List Tick → Phase → EncoderInput → EncoderInput
turn [] p e = e
turn (m ∷ ms) p e =
    let q = next_phase m.is_clockwise p in
    turn ms q (encoder_scan (rest m.wait p e) (cha_at q) (chb_at q))

-- Each tick comes five scans after the one before, or goes on in its direction.
abbrev pub IsSteady : ℕ → List Tick → Type 0
IsSteady last [] = Unit
IsSteady last (m ∷ ms) =
    ((5 ≤ m.wait) ⊎ (last ≡ move_of m.is_clockwise)) × IsSteady (move_of m.is_clockwise) ms

-- The sum of the ticks, as a byte.
abbrev pub total : List Tick → ℕ
total [] = 0
total (m ∷ ms) = move_of m.is_clockwise + total ms

pub record IsIn (p : Phase) (e : EncoderInput) : Type 0 where
  pub at_cha : e.cha_prev ≡ cha_at p
  pub at_chb : e.chb_prev ≡ chb_at p
  pub calm : e.encoder_inactive_counter ≤ 100

record IsRested (n : ℕ) (e t : EncoderInput) : Type 0 where
  same_count : t.encoder_state ≡ e.encoder_state
  same_last : t.encoder_last_movement ≡ e.encoder_last_movement
  waited : min 100 (e.encoder_inactive_counter + n) ≤ t.encoder_inactive_counter

action_at : (p : Phase) (e : EncoderInput) → IsIn p e → encoder_action e (cha_at p) (chb_at p) ≡ 0
unfolding encoder_action
action_at neither e h = rw (h.at_cha, h.at_chb) refl
action_at first e h = rw (h.at_cha, h.at_chb) refl
action_at both e h = rw (h.at_cha, h.at_chb) refl
action_at second e h = rw (h.at_cha, h.at_chb) refl

action_next :
    (cw : Bool) (p : Phase) (e : EncoderInput)
    → IsIn p e
    → encoder_action e (cha_at (next_phase cw p)) (chb_at (next_phase cw p)) ≡ move_of cw
unfolding encoder_action
action_next true neither e h = rw (h.at_cha, h.at_chb) refl
action_next true first e h = rw (h.at_cha, h.at_chb) refl
action_next true both e h = rw (h.at_cha, h.at_chb) refl
action_next true second e h = rw (h.at_cha, h.at_chb) refl
action_next false neither e h = rw (h.at_cha, h.at_chb) refl
action_next false first e h = rw (h.at_cha, h.at_chb) refl
action_next false both e h = rw (h.at_cha, h.at_chb) refl
action_next false second e h = rw (h.at_cha, h.at_chb) refl

-- An event that is counted.
record IsCounted (e : EncoderInput) (move : ℕ) (t : EncoderInput) : Type 0 where
  counted : t.encoder_state ≡ u8 (e.encoder_state + move)
  now_last : t.encoder_last_movement ≡ move
  restarted : t.encoder_inactive_counter ≡ 0

encoder_event-IsCounted :
    (e : EncoderInput) (move : ℕ)
    → e.encoder_inactive_counter ≤ 100
    → (5 ≤ e.encoder_inactive_counter) ⊎ (e.encoder_last_movement ≡ move)
    → IsCounted e move (encoder_event e move)
unfolding encoder_event
encoder_event-IsCounted e move calm steady = record {
  counted = ground arith;
  now_last = ground arith;
  restarted = ground arith;
}

module _ (p : Phase) (e : EncoderInput) (h : IsIn p e) where
  scan-IsIn : IsIn p (encoder_scan e (cha_at p) (chb_at p))
  unfolding encoder_scan
  scan-IsIn =
      let a = action_at p e h in
      record { at_cha = refl; at_chb = refl; calm = rw a (ground (arith, h.calm)) }

  scan-IsRested : IsRested 1 e (encoder_scan e (cha_at p) (chb_at p))
  unfolding encoder_scan
  scan-IsRested =
      let a = action_at p e h in
      record {
        same_count = rw a refl;
        same_last = rw a refl;
        waited = rw a (ground (arith, h.calm));
      }

  -- A scan that finds the pins one position further.
  scan-IsCounted :
      (cw : Bool)
      → (5 ≤ e.encoder_inactive_counter) ⊎ (e.encoder_last_movement ≡ move_of cw)
      → IsCounted e
          (move_of cw)
          (encoder_scan e (cha_at (next_phase cw p)) (chb_at (next_phase cw p)))
  unfolding encoder_scan
  scan-IsCounted true steady =
      let a = action_next true p e h in
      let c = encoder_event-IsCounted e 1 h.calm steady in
      record { counted = rw a c.counted; now_last = rw a c.now_last; restarted = rw a c.restarted }
  scan-IsCounted false steady =
      let a = action_next false p e h in
      let c = encoder_event-IsCounted e 0xff h.calm steady in
      record { counted = rw a c.counted; now_last = rw a c.now_last; restarted = rw a c.restarted }

  scan-next_phase :
      (cw : Bool) (t : EncoderInput)
      → IsCounted e (move_of cw) t
      → t.cha_prev ≡ cha_at (next_phase cw p)
      → t.chb_prev ≡ chb_at (next_phase cw p)
      → IsIn (next_phase cw p) t
  scan-next_phase cw t c a b = record {
    at_cha = a;
    at_chb = b;
    calm = rw c.restarted (omega arith);
  }

pins :
    (e : EncoderInput) (cha chb : Bool)
    → ((encoder_scan e cha chb).cha_prev ≡ cha) × ((encoder_scan e cha chb).chb_prev ≡ chb)
unfolding encoder_scan
pins e cha chb = (refl, refl)

rest_lem :
    (n : ℕ) (p : Phase) (e : EncoderInput)
    → IsIn p e
    → IsIn p (rest n p e) × IsRested n e (rest n p e)
rest_lem zero p e h =
    (h, record { same_count = refl; same_last = refl; waited = omega (arith, h.calm) })
rest_lem (suc n) p e h =
    let r = scan-IsRested p e h in
    let (inside, q) = rest_lem n p (encoder_scan e (cha_at p) (chb_at p)) (scan-IsIn p e h) in
    (
      inside,
      record {
        same_count = q.same_count ∙ r.same_count;
        same_last = q.same_last ∙ r.same_last;
        waited = omega (arith, q.waited, r.waited);
      },
    )

-- A turn in ticks that are five scans apart or go on in the same direction is counted in full: the
-- number of steps grows by the ticks clockwise, less those against it, as a signed byte. The encoder may
-- begin in any phase.
pub turn_lem :
    (ms : List Tick) (p : Phase) (e : EncoderInput)
    → IsIn p e
    → e.encoder_state < 256
    → IsSteady e.encoder_last_movement ms
    → (turn ms p e).encoder_state ≡ u8 (e.encoder_state + total ms)
turn_lem [] p e h b steady = omega arith
turn_lem (m ∷ ms) p e h b steady =
    let q = next_phase m.is_clockwise p in
    let rested = rest m.wait p e in
    let t = encoder_scan rested (cha_at q) (chb_at q) in
    let (inside, r) = rest_lem m.wait p e h in
    let enough : (5 ≤ rested.encoder_inactive_counter)
        ⊎ (rested.encoder_last_movement ≡ move_of m.is_clockwise) =
      elim steady.0 [
        | inl slow ↦ inl (omega (arith, slow, r.waited))
        | inr same ↦ inr (r.same_last ∙ same)
      ] in
    let c = scan-IsCounted p rested inside m.is_clockwise enough in
    let now =
      scan-next_phase p rested inside m.is_clockwise t c (pins rested (cha_at q) (chb_at q)).0
        (pins rested (cha_at q) (chb_at q)).1 in
    let sound : t.encoder_state < 256 = rw c.counted (omega arith) in
    let later =
      turn_lem ms q t now sound (subst (λ last. IsSteady last ms) (sym c.now_last) steady.1) in
    later ∙ omega (arith, c.counted, r.same_count)
