-- ===== src/Process/Attempt.antt =====
-- src/process.rs: the end of a request for memory, which maps it and records it.
use macha_os.Prelude.{
  ℕ, ◌+◌, ◌%◌, ◌^◌, ◌<◌, ◌≤◌, ◌≡◌, refl, Bool, true, false, Option, none, some, [], ◌∷◌, ◌++◌,
  if◌then◌else◌, ◌-◌, ◌*◌, ◌/◌, ap, ◌∙◌, arith,
}
use macha_os.Paging.{Entry, Flags, PageTables, page_size, identity_map_end}
use macha_os.Paging.Ring3.{ForRing3}
use macha_os.Paging.View.{view}
use macha_os.Paging.Whole.{IsSpace, MapsRange, in_range, behind, untouched, map_range_in-MapsRange}
use macha_os.Process.{Mapping, Process, user_flags, map_user}
use macha_os.Process.Heap.{advance, map_recorded}
use macha_os.Process.Memory.{user_load}

-- A mapping that was made: its bytes are those of the memory behind it, and nothing else is seen to change.
pub record Recorded (pml4 : ℕ) (m : Mapping) (p p' : Process) : Type 0 where
  pub space : IsSpace pml4 p'.space
  pub mappings : p'.mappings ≡ p.mappings ++ m ∷ []
  pub bytes : p'.bytes ≡ p.bytes
  pub aligned : m.vaddr % page_size ≡ 0
  pub ends : m.vaddr + m.len ≤ identity_map_end
  pub reads : (i : ℕ) → i < m.len → user_load pml4 p' (m.vaddr + i) ≡ some (p.bytes (m.phys + i))
  pub opens : (i : ℕ) → i < m.len → ForRing3 p'.space.tables pml4 (m.vaddr + i)
  pub others :
      (w : ℕ)
      → w < 2 ^ 48
      → in_range m.vaddr m.len w ≡ false
      → view p'.space.tables pml4 w ≡ view p.space.tables pml4 w

-- A request that fails leaves no mapping behind.
abbrev pub Attempt : ℕ → Mapping → Process → Option ℕ × Process → Type 0
Attempt pml4 m p (none, p') =
    IsSpace pml4 p'.space × (p'.mappings ≡ p.mappings) × (p'.mmap_next ≡ p.mmap_next)
Attempt pml4 m p (some addr, p') = (addr ≡ m.vaddr) × Recorded pml4 m p p'

module _ (pml4 : ℕ) (at : Option ℕ) (m : Mapping) (writable executable : Bool) (p : Process) where
  abbrev f : Flags
  f = user_flags writable executable

  advanced :
      (o : Option ℕ) (q : Process)
      → Recorded pml4 m p q
      → Recorded pml4 m p (advance o m.vaddr m.len q)
  advanced (some a) q r = r
  advanced none q r = record {
    space = r.space;
    mappings = r.mappings;
    bytes = r.bytes;
    aligned = r.aligned;
    ends = r.ends;
    reads = r.reads;
    opens = r.opens;
    others = r.others;
  }

  shown_load :
      (s : PageTables) (w : ℕ) (e : Entry)
      → view s.tables pml4 w ≡ some (record e { user = true })
      → user_load pml4 (record p { space = s; mappings = p.mappings ++ m ∷ [] }) w
        ≡ some (p.bytes (e.addr + w % page_size))
  shown_load s w e h = rw (user_load, h) refl

  after_map :
      (r : Bool × PageTables)
      → MapsRange pml4 m.vaddr m.phys f m.len p.space r
      → Attempt pml4 m p (
          if r.0
          then (
            some m.vaddr,
            advance at m.vaddr m.len (record p { space = r.1; mappings = p.mappings ++ m ∷ [] }),
          )
          else (none, record p { space = r.1 }))
  after_map (false, s) r = (r.space, refl, refl)
  after_map (true, s) r =
      let (virt_aligned, phys_aligned, len_aligned, ends) = r.aligned refl in
      (
        refl,
        advanced at (record p { space = s; mappings = p.mappings ++ m ∷ [] })
            (record {
              space = r.space;
              mappings = refl;
              bytes = refl;
              aligned = virt_aligned;
              ends = ends;
              reads = λ i less.
                  let inside : in_range m.vaddr m.len (m.vaddr + i) ≡ true = ground (arith, less) in
                  let place : m.phys
                        + ((m.vaddr + i) / page_size * page_size - m.vaddr)
                        + (m.vaddr + i) % page_size
                      ≡ m.phys + i =
                    omega (arith, virt_aligned) in
                  shown_load s (m.vaddr + i) (behind m.vaddr m.phys f (m.vaddr + i))
                    (r.whole (m.vaddr + i) (omega (arith, less, ends)) refl inside)
                  ∙ ap (λ a. some (p.bytes a)) place;
              opens = λ i less.
                  let inside : in_range m.vaddr m.len (m.vaddr + i) ≡ true = ground (arith, less) in
                  r.opens refl (m.vaddr + i) refl inside;
              others =
                  λ w small apart. untouched pml4 m.vaddr m.phys f m.len p.space _ r w small apart;
            }),
      )

  pub map_recorded-Attempt :
      IsSpace pml4 p.space → m.phys + m.len < 2 ^ 64 → Attempt pml4 m p (map_recorded pml4 at m f p)
  unfolding map_recorded map_user
  map_recorded-Attempt space fits =
      after_map _ (map_range_in-MapsRange pml4 m.vaddr m.phys f m.len p.space space fits)
