-- ===== src/Base/Digits.antt =====
-- The binary digits of a number, and what the bit operations do to each of them.
use Prim.Native.Nat.{
  ℕ, zero, suc, ◌+◌, ◌*◌, ◌/◌, ◌%◌, ◌^◌, ◌<◌, ◌≤◌, min, max, bit_and, bit_or, bit_xor, digits,
  differ, bit_and-bitwise, bit_or-bitwise, bit_xor-bitwise,
}
use mathlib.Core.Path.{◌≡◌, refl, ap, ◌∙◌}
use native.Mathlib.Omega.{arith}
use native.Mathlib.Nat.{pow-suc}
use midi_fighter_twister_ope.Base.Tests.{◌==◌, if◌then◌else◌}

-- Digit `i` of `x`, from the lowest.
abbrev pub bit : ℕ → ℕ → ℕ
bit x zero = x % 2
bit x (suc i) = bit (x / 2) i

pub bit-lt : (x i : ℕ) → bit x i < 2
bit-lt x zero = omega arith
bit-lt x (suc i) = bit-lt (x / 2) i

pub bit-zero : (i : ℕ) → bit 0 i ≡ 0
bit-zero zero = refl
bit-zero (suc i) = bit-zero i

-- An operation on numbers that works digit by digit.
module _ (z : ℕ → ℕ) (f : ℕ → ℕ → ℕ) (rest : (b i : ℕ) → bit (z b) i ≡ f 0 (bit b i))
    (digit : (a b : ℕ) → a < 2 → b < 2 → f a b < 2) where
  bit-digits : (n a b i : ℕ) → a ≤ n → bit (digits z f n a b) i ≡ f (bit a i) (bit b i)
  bit-digits zero zero b i h = rw (bit-zero i) (rest b i)
  bit-digits zero (suc a) b i h = absurd (omega arith)
  bit-digits (suc n) zero b i h = rw (bit-zero i) (rest b i)
  bit-digits (suc n) (suc a) b zero h =
      omega (arith, digit (suc a % 2) (b % 2) (omega arith) (omega arith))
  bit-digits (suc n) (suc a) b (suc i) h =
      let half : (digits z f n (suc a / 2) (b / 2) * 2 + f (suc a % 2) (b % 2)) / 2
          ≡ digits z f n (suc a / 2) (b / 2) =
        omega (arith, digit (suc a % 2) (b % 2) (omega arith) (omega arith)) in
      rw half (bit-digits n (suc a / 2) (b / 2) i (omega arith))

pub bit-bit_and : (a b i : ℕ) → bit (bit_and a b) i ≡ min (bit a i) (bit b i)
bit-bit_and a b i = rw (bit_and-bitwise a b) (
    bit-digits (λ b. zero) min (λ b i. omega (arith, bit-zero i)) (λ a b h k. omega arith) a a b i
      (omega arith))

digits-le : (n a b : ℕ) → a ≤ n → digits (λ b. zero) min n a b ≤ a
digits-le zero zero b h = omega arith
digits-le zero (suc a) b h = absurd (omega arith)
digits-le (suc n) zero b h = omega arith
digits-le (suc n) (suc a) b h = omega (arith, digits-le n (suc a / 2) (b / 2) (omega arith))

pub bit_and-le : (a b : ℕ) → bit_and a b ≤ a
bit_and-le a b = rw (bit_and-bitwise a b) (digits-le a a b (omega arith))

pub bit-bit_or : (a b i : ℕ) → bit (bit_or a b) i ≡ max (bit a i) (bit b i)
bit-bit_or a b i =
    rw (bit_or-bitwise a b)
      (bit-digits (λ b. b) max (λ b i. omega arith) (λ a b h k. omega arith) a a b i (omega arith))

differ_lem : (a b : ℕ) → a < 2 → b < 2 → differ a b ≡ (a + b) % 2
differ_lem zero zero h k = refl
differ_lem zero (suc zero) h k = refl
differ_lem (suc zero) zero h k = refl
differ_lem (suc zero) (suc zero) h k = refl
differ_lem zero (suc (suc b)) h k = absurd (omega arith)
differ_lem (suc zero) (suc (suc b)) h k = absurd (omega arith)
differ_lem (suc (suc a)) b h k = absurd (omega arith)

pub bit-bit_xor : (a b i : ℕ) → bit (bit_xor a b) i ≡ (bit a i + bit b i) % 2
bit-bit_xor a b i =
    rw (bit_xor-bitwise a b) (
      bit-digits (λ b. b) differ (λ b i. refl) (λ a b h k. rw (differ_lem a b h k) (omega arith)) a
        a b i (omega arith))
    ∙ differ_lem (bit a i) (bit b i) (bit-lt a i) (bit-lt b i)

-- A number is given by its digits.
pub bits-eq : (n x y : ℕ) → x < 2 ^ n → y < 2 ^ n → ((i : ℕ) → i < n → bit x i ≡ bit y i) → x ≡ y
bits-eq zero x y h k e = omega arith
bits-eq (suc n) x y h k e =
    let half : x / 2 ≡ y / 2 =
      bits-eq n (x / 2) (y / 2) (omega arith) (omega arith) (λ i l. e (suc i) (omega arith)) in
    omega (arith, e 0 (omega arith))

-- The digits of a mask with one bit.
pub bit-power : (k i : ℕ) → bit (2 ^ k) i ≡ (if i == k then 1 else 0)
bit-power zero zero = refl
bit-power zero (suc i) = bit-zero i ∙ ground arith
bit-power (suc k) zero =
    let even : 2 ^ suc k % 2 ≡ 0 = omega (arith, pow-suc 2 k) in rw even (ground arith)
bit-power (suc k) (suc i) =
    let half : 2 ^ suc k / 2 ≡ 2 ^ k = omega (arith, pow-suc 2 k) in
    rw half (bit-power k i ∙ ground arith)

-- The upper byte has the digits from 8 on.
pub bit-upper : (x k : ℕ) → bit (x / 0x100) k ≡ bit x (8 + k)
bit-upper x k =
    let halves : x / 0x100 ≡ x / 2 / 2 / 2 / 2 / 2 / 2 / 2 / 2 = omega arith in
    let digits : 8 + k ≡ suc (suc (suc (suc (suc (suc (suc (suc k))))))) = omega arith in
    rw digits (ap (λ y. bit y k) halves)
