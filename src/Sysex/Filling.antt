-- ===== src/Sysex/Filling.antt =====
-- src/sysex.c: how a message that is being read fills the buffer, packet by packet.
use midi_fighter_twister_ope.Base.{
  ℕ, zero, suc, ◌+◌, ◌<◌, ◌≡◌, refl, ap, ◌∙◌, ◌-◌, Bool, false, ◌&&◌, Option, none, some, List, [],
  ◌∷◌, ◌++◌, arith, length, take, set, drop, get_or, length-set, take-set, ltb, leb, if◌then◌else◌,
  u8, ◌>>=◌,
}
use mathlib.Core.Path.{subst₂}
use mathlib.Core.List.{append_assoc}
use midi_fighter_twister_ope.Sysex.{
  State, djtt, SysExFn, Action, run, Receiver, midi_max_sysex, max_command, put, sysex_handle,
  note_run,
}

-- `p` bytes, `got`, have been stored.
pub record IsFilling (reading : Bool) (state : State) (commands : List (Option SysExFn)) (p : ℕ)
    (got : List ℕ) (r : Receiver) : Type 0 where
  pub room : length r.buffer ≡ midi_max_sysex
  pub same_commands : r.command_map ≡ commands
  pub same_reading : r.is_reading ≡ reading
  pub same_state : r.state ≡ state
  pub placed : r.ptr ≡ some p
  pub filled : take p r.buffer ≡ got

module _ {reading : Bool} {state : State} {commands : List (Option SysExFn)} where
  pub put-IsFilling :
      (a p : ℕ) (got : List ℕ) (r : Receiver)
      → IsFilling reading state commands p got r
      → p < 127
      → (s : Receiver) × (put a r ≡ some s)
        × IsFilling reading state commands (p + 1) (got ++ a ∷ []) s
  unfolding put
  put-IsFilling a p got r v h = (
    record r { buffer = set r.buffer p a; ptr = some (p + 1) },
    ground arith,
    record {
      room = length-set r.buffer p a ∙ v.room;
      same_commands = v.same_commands;
      same_reading = v.same_reading;
      same_state = v.same_state;
      placed = refl;
      filled = take-set r.buffer p a (omega (arith, v.room)) ∙ ap (λ l. l ++ a ∷ []) v.filled;
    },
  )

  pub regroup :
      {p q : ℕ} {got all : List ℕ} {r : Receiver}
      → p ≡ q
      → got ≡ all
      → IsFilling reading state commands p got r
      → IsFilling reading state commands q all r
  regroup {r = r} e f v = subst₂ (λ n l. IsFilling reading state commands n l r) e f v

  pub put_two-IsFilling :
      (a b p : ℕ) (got : List ℕ) (r : Receiver)
      → IsFilling reading state commands p got r
      → p + 2 < 128
      → (s : Receiver) × (put a r >>= put b ≡ some s)
        × IsFilling reading state commands (p + 2) (got ++ a ∷ b ∷ []) s
  put_two-IsFilling a b p got r v h =
      let (s, es, vs) = put-IsFilling a p got r v (omega arith) in
      let (t, et, vt) = put-IsFilling b (p + 1) (got ++ a ∷ []) s vs (omega arith) in
      (t, rw (es, et), regroup (omega arith) (append_assoc got (a ∷ []) (b ∷ [])) vt)

  pub put_three-IsFilling :
      (a b c p : ℕ) (got : List ℕ) (r : Receiver)
      → IsFilling reading state commands p got r
      → p + 3 < 128
      → (s : Receiver) × (put a r >>= put b >>= put c ≡ some s)
        × IsFilling reading state commands (p + 3) (got ++ a ∷ b ∷ c ∷ []) s
  put_three-IsFilling a b c p got r v h =
      let (s, es, vs) = put_two-IsFilling a b p got r v (omega arith) in
      let (t, et, vt) = put-IsFilling c (p + 2) (got ++ a ∷ b ∷ []) s vs (omega arith) in
      (t, rw (es, et), regroup (omega arith) (append_assoc got (a ∷ b ∷ []) (c ∷ [])) vt)

-- What a complete message asks for: the command that its first byte names, if one is installed,
-- with the number of bytes behind that one, and the buffer from the second byte on.
call_installed : Option SysExFn → ℕ → List ℕ → List Action
call_installed none len payload = []
call_installed (some fn) len payload = run fn len payload ∷ []

unfoldable pub requested : List (Option SysExFn) → List ℕ → List ℕ → List Action
unfolding call_installed
requested commands [] buffer = []
requested commands (command ∷ args) buffer =
    if ltb 0 command && leb command max_command
    then call_installed (get_or commands (command - 1) none) (length args) (drop 1 buffer)
    else []

head-take : (p : ℕ) (xs : List ℕ) (c : ℕ) (cs : List ℕ) → take p xs ≡ c ∷ cs → get_or xs 0 0 ≡ c
head-take zero xs c cs e = cc
head-take (suc p) [] c cs e = cc
head-take (suc p) (x ∷ xs) c cs e = cc

-- `sysex_handle` of a complete message does what the message asks for.
pub sysex_handle-requested :
    (commands : List (Option SysExFn)) (body : List ℕ) (r : Receiver)
    → IsFilling false djtt commands (length body) body r
    → length body < 127
    → note_run (sysex_handle r (u8 (length body))) [] ≡ requested commands body r.buffer
unfolding requested sysex_handle
sysex_handle-requested commands [] r v h = ground arith
sysex_handle-requested commands (command ∷ args) r v h =
    ground (arith, head-take (length (command ∷ args)) r.buffer command args v.filled)
