-- ===== src/Loader/Placement.antt =====
-- src/process.rs: where the segments of an accepted program lie.
use macha_os.Prelude.{
  ℕ, ◌+◌, ◌-◌, ◌*◌, ◌^◌, ◌<◌, ◌≤◌, ◌≡◌, subst, false, ◌&&◌, some, List, [], ◌∷◌, map, ◌⊎◌, inl, inr,
  arith, length, ltb, leb, add64, Bool-cases, All, Result, ok, err, OnOk, OnOk->>=, checked_add,
  reject_if_lem, ok_or_lem,
}
use Prim.Native.String.{String}
use macha_os.Elf.{Segment, Program}
use macha_os.Elf.Bounds.{InFile, parse-IsLoadable}
use macha_os.Loader.{
  page_size, identity_map_end, min_segment_vaddr, user_stack_low_limit, user_exit_stub_virt,
  bias_segment, apply_pie_bias, validate_segment, validate_segments, check_program,
}

-- Clear of the kernel, of its heap with a margin of 1 MiB, and of the stack region, below 4 GiB.
pub record Placed (heap : ℕ × ℕ) (s : Segment) : Type 0 where
  pub above_kernel : min_segment_vaddr ≤ s.vaddr
  pub mapped : s.vaddr + s.memsz ≤ identity_map_end
  pub some_byte : 0 < s.memsz
  pub off_heap : (heap.1 + 1024 * 1024 ≤ s.vaddr) ⊎ (s.vaddr + s.memsz ≤ heap.0 - 1024 * 1024)
  pub off_stack :
      (user_exit_stub_virt + page_size ≤ s.vaddr) ⊎ (s.vaddr + s.memsz ≤ user_stack_low_limit)

clear_of : (a b last vaddr : ℕ) → (ltb vaddr a && ltb b last) ≡ false → (a ≤ vaddr) ⊎ (last ≤ b)
clear_of a b last vaddr h = ground arith

at_most : (a b : ℕ) → ltb a b ≡ false → b ≤ a
at_most a b h = ground arith

above : (a b : ℕ) → leb a b ≡ false → b < a
above a b h = ground arith

sum_of : (a b c : ℕ) → checked_add a b ≡ some c → c ≡ a + b
sum_of a b c h = ground arith

validate_segment-Placed :
    (heap : ℕ × ℕ) (s : Segment)
    → heap.1 ≤ 2 ^ 63
    → OnOk (λ u. Placed heap s) (validate_segment heap s)
unfolding validate_segment
validate_segment-Placed heap s small = OnOk->>= P _ _ (λ last e1. OnOk->>= P _ _ (λ u2 e2.
    OnOk->>= P _ _ (λ u3 e3. OnOk->>= P _ _ (λ u4 e4. OnOk->>= P _ _ (λ u5 e5.
      OnOk->>= P _ _ (λ u6 e6.
        let e : last ≡ s.vaddr + s.memsz = sum_of _ _ _ (ok_or_lem _ _ _ e1) in
        let more : s.vaddr < last = above _ _ (reject_if_lem _ _ _ e2) in
        let margin : add64 heap.1 (1024 * 1024) ≡ heap.1 + 1024 * 1024 = omega arith in
        record {
          above_kernel = at_most _ _ (reject_if_lem _ _ _ e3);
          mapped = subst (λ n. n ≤ identity_map_end) e (at_most _ _ (reject_if_lem _ _ _ e5));
          some_byte = omega (arith, e, more);
          off_heap =
              subst (λ n. (n ≤ s.vaddr) ⊎ (s.vaddr + s.memsz ≤ heap.0 - 1024 * 1024)) margin
                (subst (λ n. (add64 heap.1 (1024 * 1024) ≤ s.vaddr) ⊎ (n ≤ heap.0 - 1024 * 1024)) e
                  (clear_of _ _ last s.vaddr (reject_if_lem _ _ _ e4)));
          off_stack =
              subst (λ n. (user_exit_stub_virt + page_size ≤ s.vaddr) ⊎ (n ≤ user_stack_low_limit))
                e (clear_of _ _ last s.vaddr (reject_if_lem _ _ _ e6));
        }))))))
  where
    P : Unit {0} → Type 0
    P u = Placed heap s

validate_segments-Placed :
    (heap : ℕ × ℕ) (ss : List Segment)
    → heap.1 ≤ 2 ^ 63
    → OnOk (λ u. All (Placed heap) ss) (validate_segments heap ss)
unfolding validate_segments
validate_segments-Placed heap [] small = tt
validate_segments-Placed heap (s ∷ ss) small =
    OnOk->>= (λ u. All (Placed heap) (s ∷ ss)) _ _
      (λ u e.
        both (subst (OnOk (λ u. Placed heap s)) e (validate_segment-Placed heap s small))
          (validate_segments heap ss) (validate_segments-Placed heap ss small))
  where
    both :
        Placed heap s
        → (r : Result String (Unit {0})) → OnOk (λ u. All (Placed heap) ss) r
        → OnOk (λ u. All (Placed heap) (s ∷ ss)) r
    both p (ok u) h = (p, h)
    both p (err e) h = tt

bias-InFile :
    (size : ℕ) (ss : List Segment) → All (InFile size) ss → All (InFile size) (map bias_segment ss)
bias-InFile size [] h = tt
bias-InFile size (s ∷ ss) h = (
  record { inside = h.0.inside; room = h.0.room; some_memory = h.0.some_memory },
  bias-InFile size ss h.1,
)

apply_pie_bias-InFile :
    (size : ℕ) (p : Program)
    → All (InFile size) p.segments
    → All (InFile size) (apply_pie_bias p).segments
unfolding apply_pie_bias
apply_pie_bias-InFile size p h = elim (Bool-cases p.is_pie) [
  | inl pie ↦ rw pie (bias-InFile size p.segments h)
  | inr fixed ↦ rw fixed h
]

-- With a heap that ends by 2 ^ 63, every segment of a program that the checks let through has its
-- bytes in the file, and lies from 2 MiB to 4 GiB, outside the heap with 1 MiB around it, and
-- outside the pages reserved for the stack and the exit stub.
pub check_program-Placed :
    (heap : ℕ × ℕ) (file : List ℕ) (q : Program)
    → heap.1 ≤ 2 ^ 63
    → check_program heap file ≡ ok q
    → All (InFile (length file)) q.segments × All (Placed heap) q.segments
unfolding check_program
check_program-Placed heap file q small e = subst (OnOk P) e (
    OnOk->>= P _ _ (λ program e1. OnOk->>= P _ _ (λ u e2. (
      apply_pie_bias-InFile (length file) program (parse-IsLoadable file program e1).all_inside,
      subst (OnOk (λ v. All (Placed heap) (apply_pie_bias program).segments)) e2
          (validate_segments-Placed heap (apply_pie_bias program).segments small),
    ))))
  where
    P : Program → Type 0
    P p = All (InFile (length file)) p.segments × All (Placed heap) p.segments
