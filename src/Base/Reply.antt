-- ===== src/Base/Reply.antt =====
-- Calls that may throw: a value, or the message of the error.
use Prim.Native.String.{String}
use mathlib.Core.Path.{◌≡◌, refl, subst}
use mathlib.Core.Bool.{Bool, true, false}
use mathlib.Core.Logic.{◌⊎◌, inl, inr}

pub data Reply {ℓ} (A : Type ℓ) : Type ℓ where
  ok : A → Reply A
  throws : String → Reply A

-- What follows a call that may throw.
abbrev pub and_then {ℓ κ} : {A : Type ℓ} {B : Type κ} → Reply A → (A → Reply B) → Reply B
and_then (ok a) f = f a
and_then (throws message) f = throws message

-- `if (!test) throw new Error(message)`, then the rest.
abbrev pub unless {ℓ} : {A : Type ℓ} → Bool → String → Reply A → Reply A
unless true message rest = rest
unless false message rest = throws message

-- The value, or what stands in where the call has thrown.
abbrev pub settled {ℓ} : {A : Type ℓ} → Reply A → A → A
settled (ok a) d = a
settled (throws message) d = d

pub Reply-cases {ℓ} :
    {A : Type ℓ} (r : Reply A) → ((a : A) × (r ≡ ok a)) ⊎ ((m : String) × (r ≡ throws m))
Reply-cases (ok a) = inl (a, refl)
Reply-cases (throws m) = inr (m, refl)

-- A chain gives a value where each of its calls does.
pub and_then-ok {ℓ κ} :
    {A : Type ℓ} {B : Type κ} (r : Reply A) (f : A → Reply B) (b : B)
    → and_then r f ≡ ok b
    → (a : A) × (r ≡ ok a) × (f a ≡ ok b)
and_then-ok (ok a) f b h = (a, refl, h)
and_then-ok (throws m) f b h = absurd (cc h)

-- What holds of the value, if the call gives one.
abbrev pub Gives {ℓ κ} : {A : Type ℓ} → (A → Type κ) → Reply A → Type (ℓ ⊔ κ)
Gives {A} P r = (a : A) → r ≡ ok a → P a

pub Gives-ok {ℓ κ} : {A : Type ℓ} (P : A → Type κ) (a : A) → P a → Gives P (ok a)
Gives-ok P a p b e = subst P (inner e) p
  where
    inner : ok a ≡ ok b → a ≡ b
    inner h = cc h

pub Gives-throws {ℓ κ} : {A : Type ℓ} (P : A → Type κ) (m : String) → Gives P (throws m)
Gives-throws P m a e = absurd (cc e)

pub Gives-and_then {ℓ κ ι} :
    {A : Type ℓ} {B : Type κ} (P : A → Type ι) (Q : B → Type ι) (r : Reply A) (f : A → Reply B)
    → Gives P r
    → ((a : A) → P a → Gives Q (f a))
    → Gives Q (and_then r f)
Gives-and_then P Q r f p q b e = let (a, g, h) = and_then-ok r f b e in q a (p a g) b h
