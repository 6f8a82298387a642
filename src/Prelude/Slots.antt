-- ===== src/Prelude/Slots.antt =====
-- Tables of optional entries, `Vec<Option<T>>`: the lowest free slot is reused, else one is appended.
use Prim.Native.Nat.{ℕ, zero, suc, ◌+◌, ◌<◌, ◌≤◌}
use mathlib.Core.Path.{◌≡◌, refl, ap, ◌∙◌}
use mathlib.Core.Logic.{◌≢◌}
use mathlib.Core.Bool.{◌&&◌}
use mathlib.Core.List.{List, [], ◌∷◌}
use mathlib.Core.Option.{Option, none, some}
use native.Mathlib.Omega.{arith}
use macha_os.Prelude.Tests.{◌==◌, ltb, if◌then◌else◌}
use macha_os.Prelude.Lists.{length, set}

module _ {ℓ} {A : Type ℓ} where
  -- `table.get(i)` with both options as one.
  abbrev pub slot : List (Option A) → ℕ → Option A
  slot [] i = none
  slot (x ∷ xs) zero = x
  slot (x ∷ xs) (suc i) = slot xs i

  -- The search skips the first `k` slots.
  unfoldable pub insert_from : ℕ → List (Option A) → A → ℕ × List (Option A)
  insert_from k [] a = (0, some a ∷ [])
  insert_from zero (none ∷ xs) a = (0, some a ∷ xs)
  insert_from zero (some x ∷ xs) a = let (i, ys) = insert_from zero xs a in (i + 1, some x ∷ ys)
  insert_from (suc k) (x ∷ xs) a = let (i, ys) = insert_from k xs a in (i + 1, x ∷ ys)

  pub slot-insert_from :
      (k : ℕ) (xs : List (Option A)) (a : A) (j : ℕ)
      → slot (insert_from k xs a).1 j ≡ (if (insert_from k xs a).0 == j then some a else slot xs j)
  unfolding insert_from
  slot-insert_from k [] a zero = refl
  slot-insert_from k [] a (suc j) = ground arith
  slot-insert_from zero (none ∷ xs) a zero = refl
  slot-insert_from zero (none ∷ xs) a (suc j) = ground arith
  slot-insert_from zero (some x ∷ xs) a zero = ground arith
  slot-insert_from zero (some x ∷ xs) a (suc j) = ground (arith, slot-insert_from zero xs a j)
  slot-insert_from (suc k) (x ∷ xs) a zero = ground arith
  slot-insert_from (suc k) (x ∷ xs) a (suc j) = ground (arith, slot-insert_from k xs a j)

  pub insert_from-free :
      (k : ℕ) (xs : List (Option A)) (a : A) → slot xs (insert_from k xs a).0 ≡ none
  unfolding insert_from
  insert_from-free k [] a = refl
  insert_from-free zero (none ∷ xs) a = refl
  insert_from-free zero (some x ∷ xs) a =
      ground (arith, insert_from-free zero xs a, slot-add (some x) xs (insert_from zero xs a).0)
    where
      slot-add : (o : Option A) (ys : List (Option A)) (i : ℕ) → slot (o ∷ ys) (i + 1) ≡ slot ys i
      slot-add o ys i = let e : i + 1 ≡ suc i = omega arith in ap (slot (o ∷ ys)) e
  insert_from-free (suc k) (x ∷ xs) a =
      let e : (insert_from k xs a).0 + 1 ≡ suc (insert_from k xs a).0 = omega arith in
      ap (slot (x ∷ xs)) e ∙ insert_from-free k xs a

  pub insert_from-skips :
      (k : ℕ) (xs : List (Option A)) (a : A) → k ≤ length xs → k ≤ (insert_from k xs a).0
  unfolding insert_from
  insert_from-skips zero xs a h = omega arith
  insert_from-skips (suc k) [] a h = absurd (omega arith)
  insert_from-skips (suc k) (x ∷ xs) a h = omega (arith, insert_from-skips k xs a (omega arith))

  pub insert_from-lowest :
      (k : ℕ) (xs : List (Option A)) (a : A) (j : ℕ)
      → k ≤ j
      → j < (insert_from k xs a).0
      → slot xs j ≢ none
  unfolding insert_from
  insert_from-lowest k [] a j h l = absurd (omega arith)
  insert_from-lowest zero (none ∷ xs) a j h l = absurd (omega arith)
  insert_from-lowest zero (some x ∷ xs) a zero h l = λ e. cc
  insert_from-lowest zero (some x ∷ xs) a (suc j) h l =
      insert_from-lowest zero xs a j (omega arith) (omega arith)
  insert_from-lowest (suc k) (x ∷ xs) a zero h l = absurd (omega arith)
  insert_from-lowest (suc k) (x ∷ xs) a (suc j) h l =
      insert_from-lowest k xs a j (omega arith) (omega arith)

  -- An entry that is there is overwritten in place.
  pub slot-set :
      (xs : List (Option A)) (i : ℕ) (o : Option A) (j : ℕ)
      → slot (set xs i o) j ≡ (if (i == j) && ltb i (length xs) then o else slot xs j)
  slot-set [] i o j = ground arith
  slot-set (x ∷ xs) zero o zero = ground arith
  slot-set (x ∷ xs) zero o (suc j) = ground arith
  slot-set (x ∷ xs) (suc i) o zero = ground arith
  slot-set (x ∷ xs) (suc i) o (suc j) = ground (arith, slot-set xs i o j)

  pub slot_in_range : (xs : List (Option A)) (i : ℕ) (a : A) → slot xs i ≡ some a → i < length xs
  slot_in_range [] i a h = cc
  slot_in_range (x ∷ xs) zero a h = omega arith
  slot_in_range (x ∷ xs) (suc i) a h = omega (arith, slot_in_range xs i a h)

  pub slot-set-some :
      (xs : List (Option A)) (i : ℕ) (a : A) (o : Option A) (j : ℕ)
      → slot xs i ≡ some a
      → slot (set xs i o) j ≡ (if i == j then o else slot xs j)
  slot-set-some xs i a o j h = ground (arith, slot-set xs i o j, slot_in_range xs i a h)
