-- ===== src/Base/Results.antt =====
-- What holds of every result of a fallible computation, put together along its branches.
use mathlib.Core.Path.{◌≡◌, refl, subst}
use mathlib.Core.Bool.{Bool, true, false}
use mathlib.Core.Option.{Option, none, some}
use native.Mathlib.Omega.{arith}
use midi_fighter_twister_ope.Base.Tests.{if◌then◌else◌, ◌>>=◌, some-injective}

abbrev pub Yields {ℓ κ} : {A : Type ℓ} → (A → Type κ) → Option A → Type (ℓ ⊔ κ)
Yields P o = (a : _) → o ≡ some a → P a

module _ {ℓ κ} {A : Type ℓ} (P : A → Type κ) where
  pub Yields-some : (x : A) → P x → Yields P (some x)
  Yields-some x h a same = subst P (some-injective same) h

  pub Yields-none : Yields P none
  Yields-none a same = absurd (ground arith)

  pub Yields-if :
      (b : Bool) (x y : Option A) → Yields P x → Yields P y → Yields P (if b then x else y)
  Yields-if true x y h k = h
  Yields-if false x y h k = k

  pub Yields-bind {υ} :
      {B : Type υ} (o : Option B) (f : B → Option A)
      → ((b : B) → o ≡ some b → Yields P (f b))
      → Yields P (o >>= f)
  Yields-bind none f h = Yields-none
  Yields-bind (some b) f h = h b refl

-- A computation that has a result, and what holds of it.
pub record Returns {ℓ κ} {A : Type ℓ} (P : A → Type κ) (o : Option A) : Type (ℓ ⊔ κ) where
  pub result : A
  pub returned : o ≡ some result
  pub holds : P result
