-- ===== src/Process/Stack.antt =====
-- src/process.rs: the stack of a process, which grows down over memory that is set aside for it.
use macha_os.Prelude.{
  ℕ, ◌+◌, ◌-◌, ◌*◌, ◌^◌, ◌<◌, ◌≤◌, ◌≡◌, refl, Bool, true, false, some, arith, if◌then◌else◌, ◌/◌,
  ap, ◌∙◌, ◌||◌, ◌⊎◌, inl, inr, ltb, leb, Bool-cases, branch,
}
use macha_os.Paging.{entry_for, PageTables, page_size}
use macha_os.Paging.View.{view}
use macha_os.Paging.Whole.{IsSpace, MapsRange, in_range, behind, map_range_in-MapsRange}
use macha_os.Process.{
  Process, user_flags, align_down, stack_phys_for, try_grow_stack, map_user, user_stack_low_limit,
  user_stack_max_pages, user_stack_top,
}

-- Every page from the floor of the stack to its top shows its place in the memory set aside.
pub record HasStack (pml4 : ℕ) (p : Process) : Type 0 where
  pub space : IsSpace pml4 p.space
  pub above : user_stack_low_limit ≤ p.stack_low
  pub below : p.stack_low ≤ user_stack_top
  pub backing : p.stack_phys_base + user_stack_max_pages * page_size < 2 ^ 64
  pub shown :
      (w : ℕ)
      → p.stack_low ≤ w
      → w < user_stack_top
      → view p.space.tables pml4 w
        ≡ some (behind user_stack_low_limit p.stack_phys_base (user_flags true false) w)

-- What a fault at `fault_addr` does to the process.
pub record Grown (pml4 fault_addr : ℕ) (p : Process) (r : Bool × Process) : Type 0 where
  pub stack : HasStack pml4 r.1
  pub covered : r.0 ≡ true → r.1.stack_low ≤ fault_addr
  pub kept : r.0 ≡ false → r.1.stack_low ≡ p.stack_low
  pub others :
      (w : ℕ)
      → w < 2 ^ 48
      → in_range user_stack_low_limit (p.stack_low - user_stack_low_limit) w ≡ false
      → view r.1.space.tables pml4 w ≡ view p.space.tables pml4 w

module _ (pml4 fault_addr : ℕ) (p : Process) (h : HasStack pml4 p) where
  abbrev new_low : ℕ
  new_low = align_down fault_addr

  module _ (low : fault_addr < p.stack_low) (high : user_stack_low_limit ≤ fault_addr) where
    same_place :
        (w : ℕ)
        → new_low ≤ w
        → behind new_low (stack_phys_for new_low p) (user_flags true false) w
          ≡ behind user_stack_low_limit p.stack_phys_base (user_flags true false) w
    same_place w le =
        let at : stack_phys_for new_low p + (w / page_size * page_size - new_low)
            ≡ p.stack_phys_base + (w / page_size * page_size - user_stack_low_limit) =
          omega (arith, low, high, le, h.above, h.below, h.backing) in
        ap (λ a. entry_for a (user_flags true false)) at

    elsewhere :
        (s : PageTables) (w : ℕ)
        → (view s.tables pml4 w ≡ view p.space.tables pml4 w)
          ⊎ ((in_range new_low (p.stack_low - new_low) w ≡ true)
              × (view s.tables pml4 w
                  ≡ some (behind new_low (stack_phys_for new_low p) (user_flags true false) w)))
        → in_range user_stack_low_limit (p.stack_low - user_stack_low_limit) w ≡ false
        → view s.tables pml4 w ≡ view p.space.tables pml4 w
    elsewhere s w (inl same) apart = same
    elsewhere s w (inr (at, _)) apart = absurd (outside at apart)
      where
        outside :
            in_range new_low (p.stack_low - new_low) w ≡ true
            → ¬ (in_range user_stack_low_limit (p.stack_low - user_stack_low_limit) w ≡ false)
        outside at apart = ground (arith, at, apart, low, high)

    upper :
        (s : PageTables) (w : ℕ)
        → p.stack_low ≤ w
        → w < user_stack_top
        → (view s.tables pml4 w ≡ view p.space.tables pml4 w)
          ⊎ ((in_range new_low (p.stack_low - new_low) w ≡ true)
              × (view s.tables pml4 w
                  ≡ some (behind new_low (stack_phys_for new_low p) (user_flags true false) w)))
        → view s.tables pml4 w
          ≡ some (behind user_stack_low_limit p.stack_phys_base (user_flags true false) w)
    upper s w lo hi (inl same) = same ∙ h.shown w lo hi
    upper s w lo hi (inr (at, _)) = absurd (ground (arith, at, lo, low))

    grown :
        (r : Bool × PageTables)
        → MapsRange pml4 new_low
            (stack_phys_for new_low p)
            (user_flags true false)
            (p.stack_low - new_low)
            p.space
            r
        → Grown pml4 fault_addr p (
            if r.0
            then (true, record p { space = r.1; stack_low = new_low })
            else (false, record p { space = r.1 }))
    grown (true, s) m = record {
      stack = record {
        space = m.space;
        above = omega (arith, high);
        below = omega (arith, low, h.below);
        backing = h.backing;
        shown = λ w lo hi. elim (Bool-cases (leb p.stack_low w)) [
          | inl old ↦ upper s w (ground (arith, old)) hi (m.each w (omega (arith, hi)))
          | inr new ↦
              let inside : in_range new_low (p.stack_low - new_low) w ≡ true =
                ground (arith, new, lo) in
              m.whole w (omega (arith, hi)) refl inside ∙ ap some (same_place w lo)
        ];
      };
      covered = λ e. omega arith;
      kept = λ e. absurd (cc);
      others = λ w small apart. elsewhere s w (m.each w small) apart;
    }
    grown (false, s) m = record {
      stack = record {
        space = m.space;
        above = h.above;
        below = h.below;
        backing = h.backing;
        shown = λ w lo hi. upper s w lo hi (m.each w (omega (arith, hi)));
      };
      covered = λ e. absurd (cc);
      kept = λ e. refl;
      others = λ w small apart. elsewhere s w (m.each w small) apart;
    }

-- On a process whose pages from the floor of the stack to its top show the memory set aside for
-- them, `try_grow_stack` keeps that so, with the floor at or below the faulting address if it
-- reports success and unmoved if it does not, and no address outside the region below the old floor
-- leads to another entry.
pub try_grow_stack-Grown :
    (pml4 fault_addr : ℕ) (p : Process)
    → HasStack pml4 p
    → Grown pml4 fault_addr p (try_grow_stack pml4 fault_addr p)
unfolding try_grow_stack map_user
try_grow_stack-Grown pml4 fault_addr p h =
    branch (Grown pml4 fault_addr p)
      (leb p.stack_low fault_addr || ltb fault_addr user_stack_low_limit) _ _
      (λ stop. record {
        stack = h;
        covered = λ e. absurd (cc);
        kept = λ e. refl;
        others = λ w small apart. refl;
      })
      (λ go.
        let low : fault_addr < p.stack_low = ground (arith, go) in
        let high : user_stack_low_limit ≤ fault_addr = ground (arith, go) in
        grown pml4 fault_addr p h low high _ (
          map_range_in-MapsRange pml4 (align_down fault_addr)
            (stack_phys_for (align_down fault_addr) p) (user_flags true false)
            (p.stack_low - align_down fault_addr) p.space h.space
            (omega (arith, low, high, h.below, h.backing))))
