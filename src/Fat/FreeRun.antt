-- ===== src/Fat/FreeRun.antt =====
-- src/fat.rs: the run of free slots that a new name gets in a sector of its directory.
use macha_os.Prelude.{
  ℕ, zero, suc, ◌+◌, ◌-◌, ◌*◌, ◌<◌, ◌≤◌, ◌≡◌, sym, Bool, true, false, ◌||◌, some, List, ◌⊎◌, inl,
  inr, arith, ◌==◌, if◌then◌else◌, Bool-cases, ap, subst, ◌∙◌, ==_iff,
}
use macha_os.Fat.Entries.{byte_at, find_run}

abbrev pub is_free_slot : List ℕ → ℕ → Bool
is_free_slot sector offset = (byte_at sector offset == 0) || (byte_at sector offset == 0xe5)

abbrev pub FreeFrom : List ℕ → ℕ → ℕ → Type 0
FreeFrom sector start n = (i : ℕ) → i < n → is_free_slot sector (start + i * 32) ≡ true

FreeFrom-suc :
    (sector : List ℕ) (start n : ℕ)
    → FreeFrom sector start n
    → is_free_slot sector (start + n * 32) ≡ true
    → FreeFrom sector start (n + 1)
FreeFrom-suc sector start n before here i lt = elim (Nat-last i n lt) [
  | inl less ↦ before i less
  | inr same ↦ rw same here
]
  where
    Nat-last : (i n : ℕ) → i < n + 1 → (i < n) ⊎ (i ≡ n)
    Nat-last i n lt = ground arith

taken : {A : Type 0} (b : Bool) (x y z : A) → b ≡ true → (if b then x else y) ≡ z → x ≡ z
taken true x y z e h = h
taken false x y z e h = absurd cc

not_taken : {A : Type 0} (b : Bool) (x y z : A) → b ≡ false → (if b then x else y) ≡ z → y ≡ z
not_taken true x y z e h = absurd cc
not_taken false x y z e h = h

find_run-from :
    (left : ℕ) (sector : List ℕ) (slots start run o : ℕ)
    → 1 ≤ slots
    → run < slots
    → start + run * 32 + left * 32 ≤ 512
    → FreeFrom sector start run
    → find_run left sector slots (start + run * 32) run ≡ some o
    → (o + slots * 32 ≤ 512) × FreeFrom sector o slots
unfolding find_run
find_run-from zero sector slots start run o some_slots small fits before h = absurd cc
find_run-from (suc left) sector slots start run o some_slots small fits before h =
    elim (Bool-cases (is_free_slot sector (start + run * 32))) [
      | inl free ↦
          let before' = FreeFrom-suc sector start run before free in
          let longer = next true free h in
          elim (Bool-cases (run + 1 == slots)) [
            | inl full ↦
                let count : run + 1 ≡ slots = (==_iff _ _).0 full in
                let at =
                  taken _ (some (start + run * 32 + 32 - slots * 32)) _ (some o) full longer in
                let first : start ≡ o = omega (arith, count, same at) in
                (
                  omega (arith, first, count),
                  subst (λ p. FreeFrom sector p slots) first
                      (subst (FreeFrom sector start) count before'),
                )
            | inr more ↦
                let rest =
                  not_taken _ _ (find_run left sector slots (start + run * 32 + 32) (run + 1))
                    (some o) more longer in
                let less : run + 1 < slots = ground (arith, more) in
                let place : start + run * 32 + 32 ≡ start + (run + 1) * 32 = omega arith in
                find_run-from left sector slots start (run + 1) o some_slots less (omega arith)
                  before' (ap (λ p. find_run left sector slots p (run + 1)) (sym place) ∙ rest)
          ]
      | inr used ↦
          let anew = next false used h in
          let not_zero : (0 == slots) ≡ false = ground arith in
          let rest =
            not_taken _ _ (find_run left sector slots (start + run * 32 + 32) 0) (some o) not_zero
              anew in
          let place : start + run * 32 + 32 ≡ (start + run * 32 + 32) + 0 * 32 = omega arith in
          find_run-from left sector slots (start + run * 32 + 32) 0 o some_slots (omega arith)
            (omega arith) (λ i lt. absurd (omega arith))
            (ap (λ p. find_run left sector slots p 0) (sym place) ∙ rest)
    ]
  where
    same : {a b : ℕ} → some a ≡ some b → a ≡ b
    same e = cc

    next :
        (free : Bool)
        → is_free_slot sector (start + run * 32) ≡ free
        → find_run (suc left) sector slots (start + run * 32) run ≡ some o
        → (if (if free then run + 1 else 0) == slots
            then some (start + run * 32 + 32 - slots * 32)
            else find_run left sector slots (start + run * 32 + 32) (if free then run + 1 else 0))
          ≡ some o
    next free e found = rw (sym e) found

-- A run of at least one slot that the search gives in a sector lies within 512 bytes, and every
-- slot of it is free.
pub find_run_lem :
    (sector : List ℕ) (slots o : ℕ)
    → 1 ≤ slots
    → find_run 16 sector slots 0 0 ≡ some o
    → (o + slots * 32 ≤ 512) × FreeFrom sector o slots
find_run_lem sector slots o some_slots h =
    find_run-from 16 sector slots 0 0 o some_slots (omega arith) (omega arith)
      (λ i lt. absurd (omega arith)) h
