-- ===== src/Prelude/Outcomes.antt =====
-- What a run of kernel code can end in.

use mathlib.Core.Path.{◌≡◌, refl, subst}
use mathlib.Core.Bool.{Bool, true, false}
use saxon_os.Prelude.Tests.{if◌then◌else◌}

-- `panic` is a call of `kpanic`, which never returns; `fault` is an access outside the object that
-- the code indexes or through a pointer to no object; `hang` is a loop that used up its rounds.
pub data Outcome {ℓ} (A : Type ℓ) : Type ℓ where
  ok : A → Outcome A
  panic : Outcome A
  fault : Outcome A
  hang : Outcome A

infixl 5 ◌>>=◌
abbrev pub ◌>>=◌ {ℓ κ} : {A : Type ℓ} {B : Type κ} → Outcome A → (A → Outcome B) → Outcome B
ok a >>= k = k a
panic >>= k = panic
fault >>= k = fault
hang >>= k = hang

-- What a run returns, if it returns, has a property.
abbrev pub Returns {ℓ κ} : {A : Type ℓ} → (A → Type κ) → Outcome A → Type (ℓ ⊔ κ)
Returns P o = (a : _) → o ≡ ok a → P a

module _ {ℓ κ} {A : Type ℓ} (P : A → Type κ) where
  pub ok-Returns : (a : A) → P a → Returns P (ok a)
  ok-Returns a p b e = subst P (same e) p
    where
      same : ok a ≡ ok b → a ≡ b
      same e = cc

  pub panic-Returns : Returns P panic
  panic-Returns b e = absurd cc

  pub if-Returns :
      (c : Bool) {x y : Outcome A}
      → (c ≡ true → Returns P x)
      → (c ≡ false → Returns P y)
      → Returns P (if c then x else y)
  if-Returns true f g = f refl
  if-Returns false f g = g refl

pub bind-Returns {ℓ κ μ} :
    {A : Type ℓ} {B : Type κ} (P : B → Type μ)
    → (o : Outcome A) {k : A → Outcome B} → ((a : A) → o ≡ ok a → Returns P (k a))
    → Returns P (o >>= k)
bind-Returns P (ok a) f b e = f a refl b e
bind-Returns P panic f b e = absurd cc
bind-Returns P fault f b e = absurd cc
bind-Returns P hang f b e = absurd cc
