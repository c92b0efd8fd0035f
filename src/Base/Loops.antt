-- ===== src/Base/Loops.antt =====
-- Loops over a range, and the rule by which they are reasoned about.
use Prim.Native.Nat.{ℕ, zero, suc, ◌+◌, ◌<◌, ◌≤◌}
use mathlib.Core.Path.{◌≡◌}
use native.Mathlib.Omega.{arith}

-- `for (k = first; k < first + left; ++k) state = round(k, state)`.
unfoldable pub for_range {ℓ} : {S : Type ℓ} (left first : ℕ) (round : ℕ → S → S) (state : S) → S
for_range zero first round state = state
for_range (suc left) first round state =
    let next = round first state in for_range left (first + 1) round next

-- An invariant of the rounds from `first` to `end` holds at the end.
pub for_range-Keeps {ℓ κ} :
    {S : Type ℓ} (P : ℕ → S → Type κ) (round : ℕ → S → S) (left first end : ℕ) (state : S)
    → first + left ≡ end
    → ((k : ℕ) (t : S) → first ≤ k → k < end → P k t → P (k + 1) (round k t))
    → P first state
    → P end (for_range left first round state)
unfolding for_range
for_range-Keeps P round zero first end state sum keep start =
    let done : first ≡ end = omega arith in rw (← done) start
for_range-Keeps P round (suc left) first end state sum keep start =
    for_range-Keeps P round left (first + 1) end (round first state) (omega arith)
      (λ k t above below. keep k t (omega arith) below)
      (keep first state (omega arith) (omega arith) start)
