-- ===== src/Process/Break.antt =====
-- src/process.rs: the heap of a process.
use macha_os.Prelude.{
  ℕ, ◌+◌, ◌-◌, ◌%◌, ◌^◌, ◌<◌, ◌≤◌, ◌≡◌, refl, sym, ap, subst, ◌∙◌, Bool, true, false, Option, none,
  some, ◌⊎◌, inl, inr, arith, if◌then◌else◌, max, ltb, add64, Bool-cases, ltb→lt, branch,
}
use macha_os.Paging.{Entry, Tables, PageTables, page_size, identity_map_end}
use macha_os.Paging.View.{view}
use macha_os.Paging.Whole.{IsSpace, MapsRange, in_range, behind, map_range_in-MapsRange}
use macha_os.Process.{Process, user_flags, align_up, map_user, reserve, push_mapping}
use macha_os.Process.Heap.{grow_heap, brk}
use macha_os.Process.Memory.{NewRun, Reserved, reserve-Reserved}

-- The page has an entry, and the entry is for ring 3.
abbrev pub Usable : Tables → ℕ → ℕ → Type 0
Usable t pml4 w = (e : Entry) × (view t pml4 w ≡ some e) × (e.user ≡ true)

-- The end of the last page of the heap.
abbrev pub heap_top : ℕ → ℕ → ℕ
heap_top start end = start + align_up (end - start)

-- Every page of the heap has such an entry, to the end of its last page.
pub record HasHeap (pml4 : ℕ) (p : Process) : Type 0 where
  pub space : IsSpace pml4 p.space
  pub starts : page_size ≤ p.heap_start
  pub aligned : p.heap_start % page_size ≡ 0
  pub grows : p.heap_start ≤ p.heap_end
  pub ends : p.heap_end ≤ identity_map_end
  pub usable :
      (w : ℕ)
      → p.heap_start ≤ w
      → w < heap_top p.heap_start p.heap_end
      → Usable p.space.tables pml4 w

-- The break is what the caller is told: the one asked for, or the one before.
abbrev pub Moved : ℕ → ℕ → Process → ℕ × Process → Type 0
Moved pml4 requested p r =
    HasHeap pml4 r.1
    × (r.1.heap_end ≡ r.0)
    × (((r.0 ≡ requested) × (p.heap_start ≤ requested))
        ⊎ ((r.0 ≡ p.heap_end) × (r.1.mappings ≡ p.mappings)))

module _ (pml4 : ℕ) (p : Process) (h : HasHeap pml4 p) where
  -- The pages from `from` on for `len` bytes were added, or were not.
  abbrev Extended : ℕ → ℕ → Bool × Process → Type 0
  Extended from len r =
      IsSpace pml4 r.1.space
      × (r.1.heap_start ≡ p.heap_start)
      × (r.1.heap_end ≡ p.heap_end)
      × ((w : ℕ) → w < 2 ^ 48 → Usable p.space.tables pml4 w → Usable r.1.space.tables pml4 w)
      × (r.0 ≡ true
          → (from + len ≤ identity_map_end)
            × ((w : ℕ) → in_range from len w ≡ true → Usable r.1.space.tables pml4 w))
      × (r.0 ≡ false → r.1.mappings ≡ p.mappings)

  module _ (from len phys : ℕ) (q : Process) (run : NewRun pml4 len p phys q) where
    still :
        (s : PageTables) (w : ℕ)
        → (view s.tables pml4 w ≡ view q.space.tables pml4 w)
          ⊎ ((in_range from len w ≡ true)
              × (view s.tables pml4 w ≡ some (behind from phys (user_flags true false) w)))
        → Usable p.space.tables pml4 w
        → Usable s.tables pml4 w
    still s w (inl same) (e, shows, user) =
        (e, same ∙ ap (λ (t : Tables). view t pml4 w) run.tables ∙ shows, user)
    still s w (inr (at, now)) old = (_, now, refl)

    extended :
        (r : Bool × PageTables)
        → MapsRange pml4 from phys (user_flags true false) len q.space r
        → Extended from len (
            if r.0
            then (
              true,
              push_mapping
                  (record { vaddr = from; phys = phys; len = len; shm_id = none })
                  (record q { space = r.1 }),
            )
            else (false, record q { space = r.1 }))
    extended (true, s) m = (
      m.space,
      run.heap.0,
      run.heap.1,
      (λ w small. still s w (m.each w small)),
      (λ done.
          let ends = (m.aligned refl).3 in
          (ends, λ w at. (_, m.whole w (ground (arith, at, ends)) refl at, refl))),
      (λ f. absurd (cc)),
    )
    extended (false, s) m = (
      m.space,
      run.heap.0,
      run.heap.1,
      (λ w small. still s w (m.each w small)),
      (λ f. absurd (cc)),
      λ f. run.mappings,
    )

  grow_heap-Extended :
      (from len : ℕ) → len % page_size ≡ 0 → Extended from len (grow_heap pml4 from len p)
  unfolding grow_heap map_user
  grow_heap-Extended from len whole = go (reserve len p) (reserve-Reserved pml4 len p h.space)
    where
      go :
          (r : Option ℕ × Process)
          → Reserved pml4 len p r
          → Extended from len (elim r.0 as (λ o. Bool × Process) [
            | none ↦ (false, r.1)
            | some phys ↦
                let q = map_user pml4 from phys len (user_flags true false) r.1 in
                if q.0
                then (
                  true,
                  push_mapping (record { vaddr = from; phys = phys; len = len; shm_id = none }) q.1,
                )
                else (false, q.1)
          ])
      go (none, q) same =
          subst (λ (q : Process). Extended from len (false, q)) (sym same)
            (h.space, refl, refl, (λ w small u. u), (λ f. absurd (cc)), λ f. refl)
      go (some phys, q) run = extended from len phys q run _ (
          map_range_in-MapsRange pml4 from phys (user_flags true false) len q.space run.space
            (omega (arith, run.fits, whole)))

  bounded : (w : ℕ) → w < heap_top p.heap_start p.heap_end → w < 2 ^ 48
  bounded w hi = omega (arith, hi, h.ends, h.grows)

  module _ (requested : ℕ) (small : requested < 2 ^ 64) (past : p.heap_start ≤ requested) where
    abbrev old_mapped : ℕ
    old_mapped = align_up (max p.heap_end p.heap_start - p.heap_start)

    abbrev new_mapped : ℕ
    new_mapped = align_up (requested - p.heap_start)

    old_top : p.heap_start + old_mapped ≡ heap_top p.heap_start p.heap_end
    old_top =
        let greater : max p.heap_end p.heap_start ≡ p.heap_end = omega (arith, h.grows) in
        ap (λ n. p.heap_start + align_up (n - p.heap_start)) greater

    within_old :
        new_mapped ≤ old_mapped
        → Moved pml4 requested p (requested, record p { heap_end = requested })
    within_old le =
        let top : heap_top p.heap_start requested ≤ heap_top p.heap_start p.heap_end =
          omega (arith, le, old_top) in
        (
          record {
            space = h.space;
            starts = h.starts;
            aligned = h.aligned;
            grows = past;
            ends = omega (arith, top, h.ends, h.aligned, h.starts, h.grows, past, small);
            usable = λ w lo hi. h.usable w lo (omega (arith, hi, top));
          },
          refl,
          inl (refl, past),
        )

    moved :
        (r : Bool × Process)
        → Extended (add64 p.heap_start old_mapped) (new_mapped - old_mapped) r
        → old_mapped < new_mapped
        → Moved pml4 requested p
            (if r.0 then (requested, record r.1 { heap_end = requested }) else (p.heap_end, r.1))
    moved (false, q) (space, start, end, keeps, grew, same) lt = (
      record {
        space = space;
        starts = omega (arith, start, h.starts);
        aligned = subst (λ n. n % page_size ≡ 0) (sym start) h.aligned;
        grows = omega (arith, start, end, h.grows);
        ends = omega (arith, end, h.ends);
        usable = λ w lo hi.
            let from : p.heap_start ≤ w = omega (arith, start, lo) in
            let to : w < heap_top p.heap_start p.heap_end =
              subst (λ n. w < heap_top n p.heap_end) start
                (subst (λ n. w < heap_top q.heap_start n) end hi) in
            keeps w (bounded w to) (h.usable w from to);
      },
      end,
      inr (refl, same refl),
    )
    moved (true, q) (space, start, end, keeps, grew, same) lt =
        let (ends, new_ones) = grew refl in
        let from : add64 p.heap_start old_mapped ≡ p.heap_start + old_mapped =
          omega (arith, old_top, h.ends, h.grows) in
        let top : p.heap_start + new_mapped ≤ identity_map_end = omega (arith, ends, from, lt) in
        (
          record {
            space = space;
            starts = omega (arith, start, h.starts);
            aligned = subst (λ n. n % page_size ≡ 0) (sym start) h.aligned;
            grows = omega (arith, start, past);
            ends = omega (arith, top, past, h.starts, small);
            usable = λ w lo hi.
                let below : w < p.heap_start + new_mapped =
                  subst (λ n. w < heap_top n requested) start hi in
                elim (Bool-cases (ltb w (p.heap_start + old_mapped))) [
                  | inl old ↦ keeps w (omega (arith, below, top)) (
                      h.usable w (omega (arith, start, lo))
                        (omega (arith, ltb→lt _ _ old, old_top)))
                  | inr new ↦ new_ones w (
                      let at : in_range (add64 p.heap_start old_mapped) (new_mapped - old_mapped) w
                          ≡ true =
                        ground (arith, new, below, from, lt) in
                      at)
                ];
          },
          refl,
          inl (refl, past),
        )

-- On a process with a page-aligned heap that starts at 4096 or above and ends at 4 GiB or below,
-- whose pages all have a last entry that is for ring 3, and for a request below 2 ^ 64, `brk` keeps
-- that so, also when it fails half way, and returns the break as it then is: the one asked for,
-- which is not below the start of the heap, or the one from before, with no new mapping.
pub brk-Moved :
    (pml4 requested : ℕ) (p : Process)
    → requested < 2 ^ 64
    → HasHeap pml4 p
    → Moved pml4 requested p (brk pml4 requested p)
unfolding brk
brk-Moved pml4 requested p small h =
    branch (Moved pml4 requested p) (ltb requested p.heap_start) _ _
      (λ below. (h, refl, inr (refl, refl)))
      (λ above.
        let past : p.heap_start ≤ requested = ground (arith, above) in
        elim (Bool-cases (
          ltb (old_mapped pml4 p h requested small past)
            (new_mapped pml4 p h requested small past))) [
              | inr fits ↦ rw fits (within_old pml4 p h requested small past (ground (arith, fits)))
              | inl grow ↦ rw grow (
                  moved pml4 p h requested small past _
                    (grow_heap-Extended pml4 p h _ _ (omega arith)) (ground (arith, grow)))
            ])
