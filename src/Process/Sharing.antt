-- ===== src/Process/Sharing.antt =====
-- src/process.rs and src/shm.rs: a shared object in the address space of a process.
use macha_os.Prelude.{
  ℕ, ◌*◌, ◌<◌, ◌≡◌, refl, Bool, Option, none, some, slot, ◌%◌, ◌^◌, sym, subst, arith, ◌==◌,
  if◌then◌else◌, branch,
}
use macha_os.Shm.{SharedMem, Shm, phys_of, pages_of}
use macha_os.Shm.Objects as Objects
use macha_os.Paging.{page_size}
use macha_os.Paging.Whole.{IsSpace}
use macha_os.Process.{Mapping, Process, user_flags}
use macha_os.Process.Heap.{mmap_address, mmap_shared, map_recorded}
use macha_os.Process.Attempt.{Recorded, Attempt, map_recorded-Attempt}

abbrev pub shared_mapping : ℕ → SharedMem → ℕ → Mapping
shared_mapping addr o id = record {
  vaddr = addr;
  phys = o.phys;
  len = o.pages * page_size;
  shm_id = some id;
}

-- The whole object at the address, or nothing; there is nothing where there is no object.
abbrev pub Shares : Shm → ℕ → Option ℕ → ℕ → Process → Option ℕ × Process → Type 0
Shares objects pml4 at id p (none, p') =
    IsSpace pml4 p'.space × (p'.mappings ≡ p.mappings) × (p'.mmap_next ≡ p.mmap_next)
Shares objects pml4 at id p (some addr, p') =
    (o : SharedMem) × (slot objects.table id ≡ some o)
    × (0 < o.pages)
    × (mmap_address at (o.pages * page_size) p ≡ some addr)
    × Recorded pml4 (shared_mapping addr o id) p p'

-- On a valid table of shared objects, and tables that form a tree over a valid memory manager, an
-- `mmap_shared` that succeeds maps the whole of an object in the table with at least one page: the
-- bytes behind the new addresses are those of the frames of the object, no byte of memory changes,
-- and no other address leads to another entry. One that fails leaves the mappings and the arena as
-- they were.
pub mmap_shared-Shares :
    (objects : Shm) (pml4 : ℕ) (at : Option ℕ) (id : ℕ) (writable executable : Bool) (p : Process)
    → Objects.IsValid objects
    → IsSpace pml4 p.space
    → Shares objects pml4 at id p (mmap_shared objects pml4 at id writable executable p)
unfolding mmap_shared phys_of pages_of
mmap_shared-Shares objects pml4 at id writable executable p valid space =
    found (slot objects.table id) refl
  where
    attempted :
        (o : SharedMem) (addr : ℕ) (r : Option ℕ × Process)
        → slot objects.table id ≡ some o
        → 0 < o.pages
        → mmap_address at (o.pages * page_size) p ≡ some addr
        → Attempt pml4 (shared_mapping addr o id) p r
        → Shares objects pml4 at id p r
    attempted o addr (none, p') is pos place h = h
    attempted o addr (some a, p') is pos place (eq, h) =
        subst (λ x. Shares objects pml4 at id p (some x, p')) (sym eq) (o, is, pos, place, h)

    tried : ℕ → SharedMem → Option ℕ → Option ℕ × Process
    tried len o a = elim a [
      | none ↦ (none, p)
      | some addr ↦
          map_recorded pml4 at (record { vaddr = addr; phys = o.phys; len = len; shm_id = some id })
            (user_flags writable executable) p
    ]

    placed :
        (o : SharedMem) (a : Option ℕ)
        → slot objects.table id ≡ some o
        → 0 < o.pages
        → mmap_address at (o.pages * page_size) p ≡ a
        → Shares objects pml4 at id p (tried (o.pages * page_size) o a)
    placed o none is pos e = (space, refl, refl)
    placed o (some addr) is pos e =
        let backed = valid.backed id o is in
        attempted o addr _ is pos e (
          map_recorded-Attempt pml4 at (shared_mapping addr o id) writable executable p space
            (omega (arith, backed.inside)))

    found :
        (o : Option SharedMem)
        → slot objects.table id ≡ o
        → Shares objects pml4 at id p (mmap_shared objects pml4 at id writable executable p)
    found none is = rw (mmap_shared, phys_of, is) (space, refl, refl)
    found (some o) is =
        let backed = valid.backed id o is in
        let same : o.pages * page_size % 2 ^ 64 ≡ o.pages * page_size =
          omega (arith, backed.inside) in
        let physical : phys_of objects id ≡ some o.phys = rw (phys_of, is) refl in
        let count : pages_of objects id ≡ some o.pages = rw (pages_of, is) refl in
        rw (mmap_shared, physical, count)
          (subst
            (λ len.
              Shares objects pml4 at id p
                (if len == 0 then (none, p) else tried len o (mmap_address at len p)))
            (sym same)
            (branch (Shares objects pml4 at id p) (o.pages * page_size == 0) _ _
              (λ h. (space, refl, refl))
              (λ h.
                placed o (mmap_address at (o.pages * page_size) p) is (ground (arith, h)) refl)))
