-- ===== src/Shm.antt =====
-- src/shm.rs: reference-counted shared memory objects, each one run of physical frames.
-- The static TABLE, the memory manager that backs it and the bytes of physical memory (the kernel
-- maps it one to one) are one state; the lock makes each operation one step.
pub mod Frames
pub mod Objects
pub mod Close
pub mod Truncate
mod Tests
use macha_os.Prelude.{
  ℕ, zero, suc, ◌+◌, ◌-◌, ◌*◌, ◌/◌, max, Bool, true, false, ◌&&◌, Option, none, some, List, set,
  slot, insert_from, ltb, leb, ◌==◌, if◌then◌else◌,
}
use macha_os.Pmm.{Pmm, frame_size, alloc_contiguous, frame_free}

pub record SharedMem : Type 0 where
  pub phys : ℕ
  pub pages : ℕ
  pub size : ℕ
  pub refcount : ℕ

pub record Shm : Type 0 where
  pub table : List (Option SharedMem)
  pub pmm : Pmm
  pub bytes : ℕ → ℕ

-- The reference count is a `usize`; it wraps only after 2 ^ 64 duplications, and that is not modelled.
pub create : Shm → ℕ × Shm
create s =
    let (id, table) =
      insert_from 0 s.table (record { phys = 0; pages = 0; size = 0; refcount = 1 }) in
    (id, record s { table = table })

-- `for p in 0..pages { frame_free(phys + p * FRAME_SIZE) }`
pub free_run : ℕ → Pmm → ℕ → Pmm
free_run zero p phys = p
free_run (suc n) p phys = free_run n (frame_free p phys) (phys + frame_size)

-- `write_bytes(at, 0, n)` and `copy_nonoverlapping(from, to, n)`.
abbrev pub write_zeros : (ℕ → ℕ) → ℕ → ℕ → ℕ → ℕ
write_zeros bytes at n x = if leb at x && ltb x (at + n) then 0 else bytes x

abbrev pub copy_bytes : (ℕ → ℕ) → ℕ → ℕ → ℕ → ℕ → ℕ
copy_bytes bytes from to n x =
    if leb to x && ltb x (to + n) then bytes (from + (x - to)) else bytes x

abbrev pub pages_for : ℕ → ℕ
pages_for size = max ((size + (frame_size - 1)) / frame_size) 1

-- The new backing of an object, and the object's old frames given back.
pub rebase : Shm → ℕ → SharedMem → ℕ → ℕ → Pmm → Shm
rebase s id obj new_size new_phys pmm = record {
  table =
      set s.table id
        (some (record obj { phys = new_phys; pages = pages_for new_size; size = new_size }));
  pmm = free_run obj.pages pmm obj.phys;
  bytes =
      copy_bytes (write_zeros s.bytes new_phys (pages_for new_size * frame_size)) obj.phys new_phys
        (obj.pages * frame_size);
}

-- The match on what `alloc_contiguous` returns.
pub grow : Shm → ℕ → SharedMem → ℕ → Option ℕ × Pmm → Bool × Shm
grow s id obj new_size (none, pmm) = (false, record s { pmm = pmm })
grow s id obj new_size (some new_phys, pmm) = (true, rebase s id obj new_size new_phys pmm)

pub truncate_object : Shm → ℕ → SharedMem → ℕ → Bool × Shm
truncate_object s id obj new_size =
    if leb new_size obj.size
    then (true, record s { table = set s.table id (some (record obj { size = new_size })) })
    else if leb (pages_for new_size) obj.pages
    then (true, record s { table = set s.table id (some (record obj { size = new_size })) })
    else grow s id obj new_size (alloc_contiguous s.pmm (pages_for new_size))

pub truncate : Shm → ℕ → ℕ → Bool × Shm
truncate s id new_size = elim (slot s.table id) [
  | none ↦ (false, s)
  | some obj ↦ truncate_object s id obj new_size
]

pub size_of : Shm → ℕ → Option ℕ
size_of s id = elim (slot s.table id) [ none ↦ none | some obj ↦ some obj.size ]

unfoldable pub phys_of : Shm → ℕ → Option ℕ
phys_of s id = elim (slot s.table id) [ none ↦ none | some obj ↦ some obj.phys ]

unfoldable pub pages_of : Shm → ℕ → Option ℕ
pages_of s id = elim (slot s.table id) [ none ↦ none | some obj ↦ some obj.pages ]

unfoldable pub dup : Shm → ℕ → Shm
dup s id = elim (slot s.table id) [
  | none ↦ s
  | some obj ↦ record s {
    table = set s.table id (some (record obj { refcount = obj.refcount + 1 }));
  }
]

-- An object in the table holds a reference, so its count is 0 after the subtraction just if it was 1.
unfoldable pub close : Shm → ℕ → Shm
unfolding free_run
close s id = elim (slot s.table id) [
  | none ↦ s
  | some obj ↦
      if obj.refcount == 1
      then record s { table = set s.table id none; pmm = free_run obj.pages s.pmm obj.phys }
      else record s { table = set s.table id (some (record obj { refcount = obj.refcount - 1 })) }
]
