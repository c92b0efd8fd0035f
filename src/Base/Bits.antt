-- ===== src/Base/Bits.antt =====
-- Casts to the fixed widths of C, shifts, and equations over small ranges from their tables.
use Prim.Native.Nat.{ℕ, zero, suc, ◌*◌, ◌/◌, ◌%◌, ◌^◌, ◌<◌}
use mathlib.Core.Path.{◌≡◌}
use mathlib.Core.Bool.{Bool, true, ◌&&◌}
use native.Mathlib.Omega.{arith}
use midi_fighter_twister_ope.Base.Tests.{◌==◌, ==_iff}

abbrev pub u8 : ℕ → ℕ
u8 v = v % 0x100

abbrev pub u16 : ℕ → ℕ
u16 v = v % 0x10000

infixl 75 ◌<<<◌ ◌>>>◌
abbrev pub ◌<<<◌ : ℕ → ℕ → ℕ
x <<< k = x * 2 ^ k

abbrev pub ◌>>>◌ : ℕ → ℕ → ℕ
x >>> k = x / 2 ^ k

-- Over a small range, check every value by evaluation.
unfoldable pub all_below : ℕ → (ℕ → Bool) → Bool
all_below zero p = true
all_below (suc n) p = p n && all_below n p

pub below_all :
    (limit : ℕ) (test : ℕ → Bool) (v : ℕ) → v < limit → all_below limit test ≡ true → test v ≡ true
unfolding all_below
below_all zero test v bound checked = absurd (omega arith)
below_all (suc rest) test v bound checked =
    let before = below_all rest test v in ground (arith, before)

-- An equation between two functions of a byte, from its table.
pub byte_table :
    (f g : ℕ → ℕ) (x : ℕ) → all_below 256 (λ y. f y == g y) ≡ true → x < 256 → f x ≡ g x
byte_table f g x h lt = (==_iff (f x) (g x)).0 (below_all 256 (λ y. f y == g y) x lt h)

-- The same over two indices.
pub pair_table :
    (n m : ℕ) (p : ℕ → ℕ → Bool) (x y : ℕ)
    → all_below n (λ a. all_below m (p a)) ≡ true
    → x < n
    → y < m
    → p x y ≡ true
pair_table n m p x y h lx ly = below_all m (p x) y ly (below_all n (λ a. all_below m (p a)) x lx h)
