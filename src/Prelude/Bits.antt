-- ===== src/Prelude/Bits.antt =====
-- Single bits of a byte. The laws at variables come from a table over all bytes.
use Prim.Native.Nat.{ℕ, zero, suc, ◌-◌, ◌^◌, ◌<◌, bit_and, bit_or}
use mathlib.Core.Path.{◌≡◌, refl}
use mathlib.Core.Bool.{Bool, true, false, ◌&&◌}
use native.Mathlib.Omega.{arith}
use macha_os.Prelude.Tests.{◌==◌, ltb, if◌then◌else◌}

-- A test of every number under a limit, by evaluation.
unfoldable pub every_under : (ℕ → Bool) → ℕ → Bool
every_under test zero = true
every_under test (suc limit) = every_under test limit && test limit

pub every_under_lem :
    (test : ℕ → Bool) (limit x : ℕ) → x < limit → every_under test limit ≡ true → test x ≡ true
unfolding every_under
every_under_lem test zero x below all = absurd (omega arith)
every_under_lem test (suc limit) x below all = ground (arith, every_under_lem test limit x)

-- `b & (1 << k) == 0`, `b |= 1 << k` and `b &= !(1 << k)` on a byte.
unfoldable pub bit_clear : ℕ → ℕ → Bool
bit_clear b k = bit_and b (2 ^ k) == 0

unfoldable pub set_bit : ℕ → ℕ → ℕ
set_bit b k = bit_or b (2 ^ k)

unfoldable pub clear_bit : ℕ → ℕ → ℕ
clear_bit b k = bit_and b (255 - 2 ^ k)

abbrev bool_eq : Bool → Bool → Bool
bool_eq true b = b
bool_eq false true = false
bool_eq false false = true

bool_eq_sound : (a b : Bool) → bool_eq a b ≡ true → a ≡ b
bool_eq_sound a b h = ground arith

abbrev set_law : ℕ → ℕ → ℕ → Bool
set_law b k j = bool_eq (bit_clear (set_bit b k) j) (if k == j then false else bit_clear b j)

abbrev clear_law : ℕ → ℕ → ℕ → Bool
clear_law b k j = bool_eq (bit_clear (clear_bit b k) j) (if k == j then true else bit_clear b j)

set_table : every_under (λ b. every_under (λ k. every_under (λ j. set_law b k j) 8) 8) 256 ≡ true
unfolding every_under set_bit bit_clear
set_table = refl

clear_table :
    every_under (λ b. every_under (λ k. every_under (λ j. clear_law b k j) 8) 8) 256 ≡ true
unfolding every_under clear_bit bit_clear
clear_table = refl

range_table :
    every_under (λ b. every_under (λ k. ltb (set_bit b k) 256 && ltb (clear_bit b k) 256) 8) 256
    ≡ true
unfolding every_under set_bit clear_bit
range_table = refl

module _ (b k : ℕ) (hb : b < 256) (hk : k < 8) where
  pub bit_clear-set_bit :
      (j : ℕ) → j < 8 → bit_clear (set_bit b k) j ≡ (if k == j then false else bit_clear b j)
  bit_clear-set_bit j hj =
      bool_eq_sound _ _
        (every_under_lem _ 8 j hj (every_under_lem _ 8 k hk (every_under_lem _ 256 b hb set_table)))

  pub bit_clear-clear_bit :
      (j : ℕ) → j < 8 → bit_clear (clear_bit b k) j ≡ (if k == j then true else bit_clear b j)
  bit_clear-clear_bit j hj =
      bool_eq_sound _ _ (
        every_under_lem _ 8 j hj
          (every_under_lem _ 8 k hk (every_under_lem _ 256 b hb clear_table)))

  both_small : (ltb (set_bit b k) 256 && ltb (clear_bit b k) 256) ≡ true
  both_small = every_under_lem _ 8 k hk (every_under_lem _ 256 b hb range_table)

  pub set_bit-lt : set_bit b k < 256
  set_bit-lt = ground (arith, both_small)

  pub clear_bit-lt : clear_bit b k < 256
  clear_bit-lt = ground (arith, both_small)
