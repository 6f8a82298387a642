-- ===== src/Process/Translate.antt =====
-- src/process.rs: what the mappings of a process translate to.
use macha_os.Prelude.{
  ℕ, ◌+◌, ◌^◌, ◌<◌, ◌≤◌, ◌≡◌, refl, ap, true, false, Option, none, some, List, [], ◌∷◌, ◌++◌, ◌⊎◌,
  All, ◌-◌, subst, ◌∙◌, Bool, ◌||◌, not, inl, inr, arith, ltb, leb, add64, ◌==◌, if◌then◌else◌,
  Bool-cases, Option-cases, branch,
}
use macha_os.Process.{
  user_stack_low_limit, map_user, Mapping, Process, covers, find_mapping, translate, translate_of,
  mappings_of, resolve_syscall_ptr, try_grow_stack,
}

-- No address of the mapping, and none of the memory behind it, is past the end of a `u64`.
abbrev pub Fits : Mapping → Type 0
Fits m = (m.vaddr + m.len < 2 ^ 64) × (m.phys + m.len < 2 ^ 64)

-- The first mapping with the range in it, the place of the range there, and none where there is no such mapping.
abbrev pub Found : List Mapping → ℕ → ℕ → Option Mapping → Type 0
Found ms vaddr end none = All (λ m. covers vaddr end m ≡ false) ms
Found ms vaddr end (some m) =
    (before : List Mapping) × (after : List Mapping) × (ms ≡ before ++ m ∷ after)
    × All (λ m. covers vaddr end m ≡ false) before
    × (covers vaddr end m ≡ true)

later_Found :
    (m : Mapping) (ms : List Mapping) (vaddr end : ℕ) (o : Option Mapping)
    → covers vaddr end m ≡ false
    → Found ms vaddr end o
    → Found (m ∷ ms) vaddr end o
later_Found m ms vaddr end none h f = (h, f)
later_Found m ms vaddr end (some x) h (before, after, e, all, at) =
    (m ∷ before, after, ap (λ l. m ∷ l) e, (h, all), at)

find_mapping-Found :
    (ms : List Mapping) (vaddr end : ℕ) → Found ms vaddr end (find_mapping vaddr end ms)
unfolding find_mapping
find_mapping-Found [] vaddr end = tt
find_mapping-Found (m ∷ ms) vaddr end =
    branch (Found (m ∷ ms) vaddr end) (covers vaddr end m) _ _ (λ at. ([], ms, refl, tt, at))
      (λ h. later_Found m ms vaddr end _ h (find_mapping-Found ms vaddr end))

-- The translation of a range, and when there is none.
abbrev pub Translated : List Mapping → ℕ → ℕ → Option ℕ → Type 0
Translated ms vaddr len none =
    (2 ^ 64 ≤ vaddr + len) ⊎ All (λ m. covers vaddr (vaddr + len) m ≡ false) ms
Translated ms vaddr len (some phys) =
    (m : Mapping) × (before : List Mapping) × (after : List Mapping) × (ms ≡ before ++ m ∷ after)
    × All (λ x. covers vaddr (vaddr + len) x ≡ false) before
    × (m.vaddr ≤ vaddr)
    × (vaddr + len ≤ m.vaddr + m.len)
    × (phys + m.vaddr ≡ m.phys + vaddr)
    × (phys + len ≤ m.phys + m.len)

-- With mappings whose ends are below 2 ^ 64, `translate` of a range gives its place in the first
-- mapping that has the whole range in it, and the range there ends inside that mapping; it gives
-- nothing only if the end of the range is 2 ^ 64 or more or no mapping has the whole range in it.
pub translate-Translated :
    (ms : List Mapping) (vaddr len : ℕ)
    → All Fits ms
    → Translated ms vaddr len (translate ms vaddr len)
unfolding translate
translate-Translated ms vaddr len fits = elim (Bool-cases (ltb (vaddr + len) (2 ^ 64))) [
  | inr past ↦ rw (translate, past) (inl (ground (arith, past)))
  | inl short ↦
      rw (translate, short)
        (at_mapping (find_mapping vaddr (vaddr + len) ms)
          (find_mapping-Found ms vaddr (vaddr + len)))
]
  where
    member : (before after : List Mapping) (m : Mapping) → All Fits (before ++ m ∷ after) → Fits m
    member [] after m h = h.0
    member (x ∷ before) after m h = member before after m h.1

    at_mapping :
        (o : Option Mapping)
        → Found ms vaddr (vaddr + len) o
        → Translated ms vaddr len (elim o as (λ o. Option ℕ) [
          | none ↦ none
          | some m ↦ some (add64 m.phys (vaddr - m.vaddr))
        ])
    at_mapping none h = inr h
    at_mapping (some m) (before, after, e, all, at) =
        let (v_fits, p_fits) = member before after m (subst (All Fits) e fits) in
        let low : m.vaddr ≤ vaddr = ground (arith, at) in
        let high : vaddr + len ≤ m.vaddr + m.len = ground (arith, at, v_fits) in
        (
          m,
          before,
          after,
          e,
          all,
          low,
          high,
          omega (arith, low, high, p_fits),
          omega (arith, low, high, p_fits),
        )

try_grow_stack-mappings :
    (pml4 fault_addr : ℕ) (p : Process) → (try_grow_stack pml4 fault_addr p).1.mappings ≡ p.mappings
unfolding try_grow_stack map_user
try_grow_stack-mappings pml4 fault_addr p =
    branch (λ (r : Bool × Process). r.1.mappings ≡ p.mappings)
      (leb p.stack_low fault_addr || ltb fault_addr user_stack_low_limit) _ _ (λ h. refl)
      (λ h.
        branch (λ (r : Bool × Process). r.1.mappings ≡ p.mappings) _ _ _ (λ k. refl) (λ k. refl))

-- Whatever the growth of the stack does, `resolve_syscall_ptr` returns what the translation with
-- the mappings from before the call returns.
pub resolve_syscall_ptr-translate :
    (current cr3 : ℕ) (others : ℕ → Option (List Mapping)) (pid vaddr len : ℕ) (p : Process)
    → (resolve_syscall_ptr current cr3 others pid vaddr len p).0
      ≡ translate_of (mappings_of current others pid p) vaddr len
unfolding resolve_syscall_ptr
resolve_syscall_ptr-translate current cr3 others pid vaddr len p =
    elim (Option-cases (translate_of (mappings_of current others pid p) vaddr len)) [
      | inr (phys, at) ↦ rw (resolve_syscall_ptr, at) refl
      | inl missing ↦
          rw (resolve_syscall_ptr, missing)
            (branch (λ (r : Option ℕ × Process). r.0 ≡ none) (not (pid == current)) _ _ (λ h. refl)
              (λ h.
                branch (λ (r : Option ℕ × Process). r.0 ≡ none) (try_grow_stack cr3 vaddr p).0 _ _
                  (λ k.
                    ap (λ l. translate_of (if pid == current then some l else others pid) vaddr len)
                      (try_grow_stack-mappings cr3 vaddr p)
                    ∙ missing)
                  (λ k. refl)))
    ]
