-- ===== src/Process/Mmap.antt =====
-- src/process.rs: new mappings, and what the process reads from them.
use macha_os.Prelude.{
  ℕ, ◌+◌, ◌%◌, ◌^◌, ◌<◌, ◌≤◌, ◌≡◌, refl, Bool, true, false, Option, none, some, [], ◌∷◌, ◌++◌, ◌-◌,
  ◌/◌, ap, ◌∙◌, inl, inr, arith, zero, suc, min, sym, ◌&&◌, List, length, get_or, ltb, leb,
  Bool-cases, max, subst, pick, pass,
}
use macha_os.Pmm.{frame_size}
use macha_os.Pmm.Single.{free_in}
use macha_os.Paging.{Tables, PageTables, page_size, identity_map_end}
use macha_os.Paging.Ring3.{ForRing3}
use macha_os.Paging.View.{view}
use macha_os.Paging.Whole.{IsSpace, in_range}
use macha_os.Process.{Process, user_flags, align_up, reserve}
use macha_os.Process.Heap.{map_recorded, mmap_address, mmap_with_content, fill_run}
use macha_os.Process.Attempt.{Attempt, map_recorded-Attempt}
use macha_os.Process.Memory.{user_load, NewRun, Reserved, reserve-Reserved}

-- The mapping of new memory that starts with the bytes of `content`.
pub record Filled (pml4 : ℕ) (content : List ℕ) (len addr phys : ℕ) (p p' : Process) : Type 0 where
  pub space : IsSpace pml4 p'.space
  pub mappings :
      p'.mappings
      ≡ p.mappings ++ record { vaddr = addr; phys = phys; len = len; shm_id = none } ∷ []
  pub aligned : addr % page_size ≡ 0
  pub ends : addr + len ≤ identity_map_end
  pub reads : (i : ℕ) → i < len → user_load pml4 p' (addr + i) ≡ some (get_or content i 0)
  pub opens : (i : ℕ) → i < len → ForRing3 p'.space.tables pml4 (addr + i)
  pub kept : (x : ℕ) → (leb phys x && ltb x (phys + len)) ≡ false → p'.bytes x ≡ p.bytes x
  pub fresh : (x : ℕ) → phys ≤ x → x < phys + len → free_in p.space.pmm (x / frame_size) ≡ true
  pub others :
      (w : ℕ)
      → w < 2 ^ 48
      → in_range addr len w ≡ false
      → view p'.space.tables pml4 w ≡ view p.space.tables pml4 w

abbrev pub content_of : Option (List ℕ) → List ℕ
content_of none = []
content_of (some content) = content

abbrev pub Mmapped : ℕ → Option ℕ → Option (List ℕ) → ℕ → Process → Option ℕ × Process → Type 0
Mmapped pml4 at content len p (none, p') =
    IsSpace pml4 p'.space × (p'.mappings ≡ p.mappings) × (p'.mmap_next ≡ p.mmap_next)
Mmapped pml4 at content len p (some addr, p') =
    (mmap_address at len p ≡ some addr)
    × ((phys : ℕ) × Filled pml4 (content_of content) len addr phys p p')

get_or-past : (xs : List ℕ) (i : ℕ) → length xs ≤ i → get_or xs i 0 ≡ 0
get_or-past [] i h = refl
get_or-past (x ∷ xs) zero h = absurd (omega arith)
get_or-past (x ∷ xs) (suc i) h = get_or-past xs i (omega arith)

module _ (pml4 len phys : ℕ) (p q : Process) (run : NewRun pml4 len p phys q) where
  filled_byte :
      (content : Option (List ℕ)) (i : ℕ)
      → i < len
      → (fill_run content phys len q).bytes (phys + i) ≡ get_or (content_of content) i 0
  filled_byte none i h = run.zeroed (phys + i) (omega arith) (omega arith)
  filled_byte (some xs) i h =
      elim (Bool-cases (leb phys (phys + i) && ltb (phys + i) (phys + min (length xs) len))) [
        | inl inside ↦
            let back : phys + i - phys ≡ i = omega arith in
            pick _ _ _ inside ∙ ap (λ k. get_or xs k 0) back
        | inr past ↦
            let beyond : length xs ≤ i = ground (arith, past, h) in
            pass _ _ _ past
            ∙ run.zeroed (phys + i) (omega arith) (omega arith)
            ∙ sym (get_or-past xs i beyond)
      ]

  filled_kept :
      (content : Option (List ℕ)) (x : ℕ)
      → (leb phys x && ltb x (phys + len)) ≡ false
      → (fill_run content phys len q).bytes x ≡ p.bytes x
  filled_kept none x h = run.kept x h
  filled_kept (some xs) x h =
      let out : (leb phys x && ltb x (phys + min (length xs) len)) ≡ false = ground (arith, h) in
      pass _ _ _ out ∙ run.kept x h

  filled_same :
      (content : Option (List ℕ))
      → (((fill_run content phys len q).space ≡ q.space)
          × ((fill_run content phys len q).mappings ≡ q.mappings)
          × ((fill_run content phys len q).mmap_next ≡ q.mmap_next))
  filled_same none = (refl, refl, refl)
  filled_same (some xs) = (refl, refl, refl)

  mapped_fill :
      (at : Option ℕ) (content : Option (List ℕ)) (addr : ℕ) (r : Option ℕ × Process)
      → len % page_size ≡ 0
      → mmap_address at len p ≡ some addr
      → Attempt pml4
          (record { vaddr = addr; phys = phys; len = len; shm_id = none })
          (fill_run content phys len q)
          r
      → Mmapped pml4 at content len p r
  mapped_fill at content addr (none, p') whole place (space, same, next) = (
    space,
    same ∙ (filled_same content).1 ∙ run.mappings,
    next ∙ (filled_same content).2 ∙ run.next,
  )
  mapped_fill at content addr (some a, p') whole place (eq, r) =
      subst (λ x. Mmapped pml4 at content len p (some x, p')) (sym eq) (place, (phys, at_addr))
    where
      at_addr : Filled pml4 (content_of content) len addr phys p p'
      at_addr = record {
        space = r.space;
        mappings =
            r.mappings
            ∙ ap (λ l. l ++ record { vaddr = addr; phys = phys; len = len; shm_id = none } ∷ [])
                ((filled_same content).1 ∙ run.mappings);
        aligned = r.aligned;
        ends = r.ends;
        reads = λ i h. r.reads i h ∙ ap some (filled_byte content i h);
        opens = r.opens;
        kept = λ x h. ap (λ (b : ℕ → ℕ). b x) r.bytes ∙ filled_kept content x h;
        fresh = λ x lo hi. run.fresh x lo (omega (arith, whole, hi));
        others = λ w small apart.
            r.others w small apart
            ∙ ap (λ (t : PageTables). view t.tables pml4 w) ((filled_same content).0)
            ∙ ap (λ (t : Tables). view t pml4 w) run.tables;
      }

-- On tables that form a tree over a valid memory manager, an `mmap` that succeeds returns the page
-- that was asked for, or the next of the arena, records one new mapping behind the others, below 4
-- GiB, on frames that were free, and the bytes behind the new addresses are those of the contents
-- and then zeros, where the entries of all four levels let ring 3 in. No other address leads to
-- another entry, and no byte of memory outside the new frames changes. One that fails leaves the
-- mappings and the arena as they were.
pub mmap_with_content-Mmapped :
    (pml4 : ℕ) (at : Option ℕ) (asked : ℕ) (writable executable : Bool) (content : Option (List ℕ))
    (p : Process)
    → IsSpace pml4 p.space
    → Mmapped pml4 at content
        (align_up (max asked 1))
        p
        (mmap_with_content pml4 at asked writable executable content p)
unfolding mmap_with_content
mmap_with_content-Mmapped pml4 at asked writable executable content p space =
    placed (mmap_address at len p) refl
  where
    len : ℕ
    len = align_up (max asked 1)

    filled :
        (addr : ℕ) (r : Option ℕ × Process)
        → mmap_address at len p ≡ some addr
        → Reserved pml4 len p r
        → Mmapped pml4 at content len p (elim r.0 as (λ o. Option ℕ × Process) [
          | none ↦ (none, r.1)
          | some phys ↦
              map_recorded pml4 at
                (record { vaddr = addr; phys = phys; len = len; shm_id = none })
                (user_flags writable executable)
                (fill_run content phys len r.1)
        ])
    filled addr (none, q) place same =
        subst (λ (q : Process). Mmapped pml4 at content len p (none, q)) (sym same)
          (space, refl, refl)
    filled addr (some phys, q) place run =
        let same = (filled_same pml4 len phys p q run content).0 in
        mapped_fill pml4 len phys p q run at content addr _ (omega arith) place (
          map_recorded-Attempt pml4 at _ writable executable (fill_run content phys len q)
            (subst (IsSpace pml4) (sym same) run.space) (omega (arith, run.fits)))

    placed :
        (o : Option ℕ)
        → mmap_address at len p ≡ o
        → Mmapped pml4 at content len p (elim o as (λ o. Option ℕ × Process) [
          | none ↦ (none, p)
          | some addr ↦
              let r = reserve len p in
              elim r.0 [
                | none ↦ (none, r.1)
                | some phys ↦
                    map_recorded pml4 at
                      (record { vaddr = addr; phys = phys; len = len; shm_id = none })
                      (user_flags writable executable)
                      (fill_run content phys len r.1)
              ]
        ])
    placed none place = (space, refl, refl)
    placed (some addr) place = filled addr (reserve len p) place (reserve-Reserved pml4 len p space)
