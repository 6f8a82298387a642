-- ===== src/Process/Start.antt =====
-- src/process.rs: the stack that a new process starts with is well formed.
use macha_os.Prelude.{
  ℕ, ◌+◌, ◌-◌, ◌*◌, ◌/◌, ◌^◌, ◌<◌, ◌≤◌, ◌≡◌, refl, ap, ◌∙◌, true, false, some, arith, get_or, add64,
  Result, ok, err, to_le_bytes, ◌%◌, Bool, ◌&&◌, not, none, [], ◌∷◌, ◌++◌, ◌⊎◌, inl, inr, ltb, leb,
  if◌then◌else◌, sym, subst, Option, ◌==◌, pick,
}
use Prim.Native.String.{String}
use macha_os.Pmm.{Pmm, frame_alloc, frame_size}
use macha_os.Shm.{write_zeros}
use macha_os.Pmm.Single.{Allocated, frame_alloc-Allocated}
use macha_os.Paging.{PageTables, Flags, Entry, entry_for, page_size}
use macha_os.Paging.View.{view}
use macha_os.Paging.Whole.{IsSpace, MapsRange, in_range, behind, map_range_in-MapsRange}
use macha_os.Process.{
  Mapping, push_mapping, Process, user_flags, map_user, reserve, init_stack_backing, stack_phys_for,
  user_stack_base, user_stack_pages, user_stack_top, user_stack_low_limit, user_stack_max_pages,
}
use macha_os.Process.Memory.{user_load, if_false, IsSpace-fewer, Reserved, reserve-Reserved}
use macha_os.Process.Stack.{HasStack}
use macha_os.Process.Setup.{
  user_exit_stub_virt, own_frame, alloc_frame, finish_stack, add_stub, map_stack, setup_user_stack,
  write_bytes, stub,
}

-- A process that may run: its stack is in place, and the address of the stub is on top of it.
abbrev pub Started : ℕ → Result String ℕ × Process → Type 0
Started pml4 (err e, p') = IsSpace pml4 p'.space
Started pml4 (ok rsp, p') =
    HasStack pml4 p'
    × (rsp ≡ user_stack_top - 8)
    × ((i : ℕ)
        → i < 8
        → user_load pml4 p' (rsp + i) ≡ some (get_or (to_le_bytes 8 user_exit_stub_virt) i 0))

-- Memory for the whole stack, and the floor where it starts.
record Backed (pml4 : ℕ) (p : Process) : Type 0 where
  pub space : IsSpace pml4 p.space
  pub floor : p.stack_low ≡ user_stack_base
  pub fits : p.stack_phys_base + user_stack_max_pages * page_size < 2 ^ 64

module _ (pml4 : ℕ) where
  mapped_stack :
      (p : Process) (s : PageTables)
      → Backed pml4 p
      → MapsRange pml4 user_stack_base
          (stack_phys_for user_stack_base p)
          (user_flags true false)
          (user_stack_pages * page_size)
          p.space
          (true, s)
      → HasStack pml4 (record p { space = s })
  mapped_stack p s b m = record {
    space = m.space;
    above = omega (arith, b.floor);
    below = omega (arith, b.floor);
    backing = b.fits;
    shown = λ w lo hi.
        let inside : in_range user_stack_base (user_stack_pages * page_size) w ≡ true =
          ground (arith, b.floor, lo, hi) in
        let at : stack_phys_for user_stack_base p + (w / page_size * page_size - user_stack_base)
            ≡ p.stack_phys_base + (w / page_size * page_size - user_stack_low_limit) =
          omega (arith, b.floor, lo, b.fits) in
        m.whole w (omega (arith, hi)) refl inside
        ∙ ap (λ a. some (entry_for a (user_flags true false))) at;
  }

  slot_byte :
      (p : Process)
      → HasStack pml4 p
      → (bytes : ℕ → ℕ) (i : ℕ) → i < 8
      → p.stack_low ≤ user_stack_base
      → user_load pml4
          (record p {
            bytes =
                write_bytes
                  (to_le_bytes 8 user_exit_stub_virt)
                  (add64 (stack_phys_for user_stack_base p) (user_stack_top - 8 - user_stack_base))
                  bytes;
          })
          (user_stack_top - 8 + i)
        ≡ some (get_or (to_le_bytes 8 user_exit_stub_virt) i 0)
  slot_byte p h bytes i less low =
      let e : Entry =
        behind user_stack_low_limit p.stack_phys_base (user_flags true false)
          (user_stack_top - 8 + i) in
      let shows : view p.space.tables pml4 (user_stack_top - 8 + i) ≡ some e =
        h.shown (user_stack_top - 8 + i) (omega (arith, low)) (omega (arith, less)) in
      let slot_at : ℕ =
        add64 (stack_phys_for user_stack_base p) (user_stack_top - 8 - user_stack_base) in
      let there : e.addr + (user_stack_top - 8 + i) % page_size ≡ slot_at + i =
        omega (arith, less, h.backing) in
      let inside : (leb slot_at (slot_at + i) && ltb (slot_at + i) (slot_at + 8)) ≡ true =
        ground (arith, less) in
      let back : slot_at + i - slot_at ≡ i = omega arith in
      rw (user_load, shows)
        (ap (λ a. some (write_bytes (to_le_bytes 8 user_exit_stub_virt) slot_at bytes a)) there
          ∙ ap some
              (pick _ _ _ inside ∙ ap (λ k. get_or (to_le_bytes 8 user_exit_stub_virt) k 0) back))

  module _ (stub_phys : ℕ) (p : Process) (h : HasStack pml4 p)
      (low : p.stack_low ≡ user_stack_base) where
    abbrev stub_flags : Flags
    stub_flags = record { writable = false; user = true; no_execute = false }

    abbrev stubbed : PageTables → Process
    stubbed s = record p { bytes = write_bytes stub stub_phys p.bytes; space = s }

    below_stub :
        (s : PageTables) (w : ℕ)
        → w < user_stack_top
        → (view s.tables pml4 w ≡ view p.space.tables pml4 w)
          ⊎ ((in_range user_exit_stub_virt page_size w ≡ true)
              × (view s.tables pml4 w ≡ some (behind user_exit_stub_virt stub_phys stub_flags w)))
        → view s.tables pml4 w ≡ view p.space.tables pml4 w
    below_stub s w hi (inl same) = same
    below_stub s w hi (inr (at, _)) = absurd (ground (arith, at, hi))

    abbrev ended : PageTables → (ℕ → ℕ) → Process
    ended s bytes = record p {
      space = s;
      mappings =
          p.mappings
          ++ record {
            vaddr = user_exit_stub_virt;
            phys = stub_phys;
            len = page_size;
            shm_id = none;
          }
            ∷ [];
      bytes = bytes;
    }

    ended-HasStack :
        (s : PageTables) (bytes : ℕ → ℕ)
        → MapsRange pml4 user_exit_stub_virt stub_phys stub_flags page_size p.space (true, s)
        → HasStack pml4 (ended s bytes)
    ended-HasStack s bytes m = record {
      space = m.space;
      above = h.above;
      below = h.below;
      backing = h.backing;
      shown = λ w lo hi. below_stub s w hi (m.each w (omega (arith, hi))) ∙ h.shown w lo hi;
    }

    finished :
        (r : Bool × PageTables)
        → MapsRange pml4 user_exit_stub_virt stub_phys stub_flags page_size p.space r
        → Started pml4 (
            if not r.0 then (err "failed to map exit trampoline", stubbed r.1) else (
              ok (user_stack_top - 8),
              record (stubbed r.1) {
                mappings =
                    p.mappings
                    ++ record {
                      vaddr = user_exit_stub_virt;
                      phys = stub_phys;
                      len = page_size;
                      shm_id = none;
                    }
                      ∷ [];
                bytes =
                    write_bytes
                      (to_le_bytes 8 user_exit_stub_virt)
                      (add64
                        (stack_phys_for user_stack_base p)
                        (user_stack_top - 8 - user_stack_base))
                      (stubbed r.1).bytes;
              },
            ))
    finished (false, s) m = m.space
    finished (true, s) m =
        let bytes : ℕ → ℕ = (stubbed s).bytes in
        (
          ended-HasStack s _ m,
          refl,
          λ i less.
              slot_byte (ended s bytes) (ended-HasStack s bytes m) bytes i less
                (omega (arith, low)),
        )

    finish_stack-Started :
        stub_phys + page_size < 2 ^ 64
        → Started pml4 (finish_stack pml4 (stack_phys_for user_stack_base p) stub_phys p)
    unfolding finish_stack map_user
    finish_stack-Started fits = finished _ (
        map_range_in-MapsRange pml4 user_exit_stub_virt stub_phys stub_flags page_size p.space
          h.space fits)

  added_stub :
      (stack_phys : ℕ) (p : Process) (r : Option ℕ × Pmm)
      → HasStack pml4 p
      → p.stack_low ≡ user_stack_base
      → stack_phys ≡ stack_phys_for user_stack_base p
      → Allocated p.space.pmm r
      → Started pml4 (add_stub pml4 stack_phys (own_frame p r))
  unfolding add_stub own_frame
  added_stub stack_phys p (none, q) h low at (same, _) =
      subst (λ q. IsSpace pml4 (record p.space { pmm = q })) (sym same) h.space
  added_stub stack_phys p (some frame, q) h low at (f, is, inside, was, first, now, last, valid) =
      let taken : Process = record p {
        space = record { pmm = q; tables = p.space.tables; frames = p.space.frames ++ frame ∷ [] };
        bytes = write_zeros p.bytes frame frame_size;
      } in
      let ready : HasStack pml4 taken = record {
        space =
            IsSpace-fewer pml4 p.space h.space q _ valid
              (λ g is_free. if_false (f == g) _ (sym (now g) ∙ is_free));
        above = h.above;
        below = h.below;
        backing = h.backing;
        shown = h.shown;
      } in
      subst (λ n. Started pml4 (finish_stack pml4 n frame taken)) (sym at)
        (finish_stack-Started frame taken ready low
          (omega (arith, is, inside, h.space.valid.last_in)))

  map_stack-Started : (p : Process) → Backed pml4 p → Started pml4 (map_stack pml4 p)
  unfolding map_stack map_user alloc_frame
  map_stack-Started p b = mapped _ (
      map_range_in-MapsRange pml4 user_stack_base (stack_phys_for user_stack_base p)
        (user_flags true false) (user_stack_pages * page_size) p.space b.space
        (omega (arith, b.fits)))
    where
      mapped :
          (r : Bool × PageTables)
          → MapsRange pml4 user_stack_base
              (stack_phys_for user_stack_base p)
              (user_flags true false)
              (user_stack_pages * page_size)
              p.space
              r
          → Started pml4 (
              if not r.0
              then (err "failed to map user stack", record p { space = r.1 })
              else add_stub pml4
                  (stack_phys_for user_stack_base p)
                  (alloc_frame (record p { space = r.1 })))
      mapped (false, s) m = m.space
      mapped (true, s) m =
          added_stub (stack_phys_for user_stack_base p) (record p { space = s }) (frame_alloc s.pmm)
            (mapped_stack p s b m) b.floor refl (frame_alloc-Allocated s.pmm m.space.valid)

-- On tables that form a tree over a valid memory manager, with the floor at the start of the
-- initial stack, a `setup_user_stack` that succeeds gives a process whose pages from that floor to
-- the top of the stack show the memory set aside for them, and returns the address 8 below the top,
-- behind which the bytes are those of the address of the exit stub. One that fails leaves tables
-- that form a tree over a valid memory manager.
pub setup_user_stack-Started :
    (pml4 : ℕ) (p : Process)
    → IsSpace pml4 p.space
    → p.stack_low ≡ user_stack_base
    → Started pml4 (setup_user_stack pml4 p)
unfolding setup_user_stack init_stack_backing
setup_user_stack-Started pml4 p space low =
    go (reserve (user_stack_max_pages * page_size) p)
      (reserve-Reserved pml4 (user_stack_max_pages * page_size) p space)
  where
    whole_stack : ℕ → Mapping
    whole_stack phys = record {
      vaddr = user_stack_low_limit;
      phys = phys;
      len = user_stack_max_pages * page_size;
      shm_id = none;
    }

    go :
        (r : Option ℕ × Process)
        → Reserved pml4 (user_stack_max_pages * page_size) p r
        → Started pml4 (
            let b = elim r.0 as (λ o. Bool × Process) [
              | none ↦ (false, r.1)
              | some phys ↦
                  (true, push_mapping (whole_stack phys) (record r.1 { stack_phys_base = phys }))
            ] in
            if not b.0 then (err "out of memory", b.1) else map_stack pml4 b.1)
    go (none, q) same = subst (λ (q : Process). IsSpace pml4 q.space) (sym same) space
    go (some phys, q) run =
        map_stack-Started pml4
          (push_mapping (whole_stack phys) (record q { stack_phys_base = phys }))
          (record { space = run.space; floor = run.floor ∙ low; fits = run.fits })
