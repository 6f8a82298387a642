-- ===== src/Prelude/Families.antt =====
-- Predicates on lists and options by recursion, which compute to tuples.
use Prim.Native.Nat.{ℕ, zero, suc}
use mathlib.Core.List.{List, [], ◌∷◌, ◌++◌}
use macha_os.Prelude.Lists.{get_or, set, replicate}

abbrev pub All {ℓ κ} : {A : Type ℓ} → (A → Type κ) → List A → Type κ
All P [] = Unit
All P (x ∷ xs) = P x × All P xs

-- Two lists of `P`s make one.
pub All-append {ℓ κ} :
    {A : Type ℓ} (P : A → Type κ) (front rest : List A)
    → All P front
    → All P rest
    → All P (front ++ rest)
All-append P [] rest first second = second
All-append P (a ∷ front) rest (h, first) second = (h, All-append P front rest first second)

pub All-set {ℓ κ} :
    {A : Type ℓ} (P : A → Type κ) (xs : List A) (i : ℕ) (v : A)
    → P v
    → All P xs
    → All P (set xs i v)
All-set P [] i v h hs = hs
All-set P (x ∷ xs) zero v h hs = (h, hs.1)
All-set P (x ∷ xs) (suc i) v h hs = (hs.0, All-set P xs i v h hs.1)

pub All-get_or {ℓ κ} :
    {A : Type ℓ} (P : A → Type κ) (xs : List A) (i : ℕ) (d : A) → P d → All P xs → P (get_or xs i d)
All-get_or P [] i d h hs = h
All-get_or P (x ∷ xs) zero d h hs = hs.0
All-get_or P (x ∷ xs) (suc i) d h hs = All-get_or P xs i d h hs.1

pub All-replicate {ℓ κ} :
    {A : Type ℓ} (P : A → Type κ) (n : ℕ) (a : A) → P a → All P (replicate n a)
All-replicate P zero a h = tt
All-replicate P (suc n) a h = (h, All-replicate P n a h)
