-- ===== src/Prelude/Results.antt =====
-- Fallible code: a result with its error, and what a chain of steps passes on.
use mathlib.Core.Path.{◌≡◌, refl}
use mathlib.Core.Bool.{Bool, true, false}
use mathlib.Core.Option.{Option, none, some}
use macha_os.Prelude.Tests.{if◌then◌else◌}

pub data Result {ℓ} (E : Type 0) (A : Type ℓ) : Type ℓ where
  ok : A → Result E A
  err : E → Result E A

infixl 5 ◌>>=◌ ◌>>◌
unfoldable pub ◌>>=◌ {ℓ κ} :
    {E : Type 0} {A : Type ℓ} {B : Type κ} → Result E A → (A → Result E B) → Result E B
ok a >>= f = f a
err e >>= f = err e

abbrev pub ◌>>◌ {ℓ} : {E : Type 0} {B : Type ℓ} → Result E (Unit {0}) → Result E B → Result E B
m >> k = m >>= λ _. k

-- `if wrong { return Err(e) }`
abbrev pub reject_if : {E : Type 0} → Bool → E → Result E (Unit {0})
reject_if true e = err e
reject_if false e = ok tt

-- `ok_or(e)?`
abbrev pub ok_or {ℓ} : {E : Type 0} {A : Type ℓ} → Option A → E → Result E A
ok_or none e = err e
ok_or (some a) e = ok a

-- What holds of the value, if there is one.
abbrev pub OnOk {ℓ κ} : {E : Type 0} {A : Type ℓ} → (A → Type κ) → Result E A → Type κ
OnOk P (ok a) = P a
OnOk P (err e) = Unit

pub OnOk->>= {ℓ ι κ} :
    {E : Type 0} {A : Type ℓ} {B : Type ι} (P : B → Type κ) (m : Result E A) (f : A → Result E B)
    → ((a : A) → m ≡ ok a → OnOk P (f a))
    → OnOk P (m >>= f)
unfolding ◌>>=◌
OnOk->>= P (ok a) f h = h a refl
OnOk->>= P (err e) f h = tt

pub OnOk-if {ℓ κ} :
    {E : Type 0} {A : Type ℓ} (P : A → Type κ) (b : Bool) (x y : Result E A)
    → (b ≡ true → OnOk P x)
    → (b ≡ false → OnOk P y)
    → OnOk P (if b then x else y)
OnOk-if P true x y hx hy = hx refl
OnOk-if P false x y hx hy = hy refl

pub reject_if_lem :
    {E : Type 0} (b : Bool) (e : E) (u : Unit {0}) → reject_if b e ≡ ok u → b ≡ false
reject_if_lem true e u h = absurd (err-ne-ok e u h)
  where
    err-ne-ok :
        {E : Type 0} (e : E) (u : Unit {0}) → ¬ (◌≡◌ {A = Result E (Unit {0})} (err e) (ok u))
    err-ne-ok e u h = cc
reject_if_lem false e u h = refl

pub ok_or_lem {ℓ} :
    {E : Type 0} {A : Type ℓ} (o : Option A) (e : E) (a : A) → ok_or o e ≡ ok a → o ≡ some a
ok_or_lem none e a h = absurd cc
ok_or_lem (some x) e a h = cc
