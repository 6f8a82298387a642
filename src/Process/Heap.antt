-- ===== src/Process/Heap.antt =====
-- src/process.rs: the heap of a process, and the memory that it maps and unmaps.
use macha_os.Prelude.{
  ℕ, zero, suc, ◌+◌, ◌-◌, ◌*◌, ◌/◌, ◌%◌, ◌^◌, min, max, Bool, true, false, ◌&&◌, ◌||◌, Option, none,
  some, List, [], ◌∷◌, length, get_or, ltb, leb, add64, ◌==◌, if◌then◌else◌, checked_add,
}
use macha_os.Shm.{Shm, phys_of, pages_of, free_run}
use macha_os.Paging.{Flags, unmap_range_in, page_size}
use macha_os.Process.{
  Mapping, Process, align_up, align_down, user_flags, push_mapping, reserve, map_user, mmap_ceiling,
  translate_local,
}

-- The new pages of the heap.
unfoldable pub grow_heap : ℕ → ℕ → ℕ → Process → Bool × Process
unfolding reserve map_user
grow_heap pml4 map_at grow_len p =
    let r = reserve grow_len p in
    elim r.0 [
      | none ↦ (false, r.1)
      | some phys ↦
          let q = map_user pml4 map_at phys grow_len (user_flags true false) r.1 in
          if q.0
          then (
            true,
            push_mapping (record { vaddr = map_at; phys = phys; len = grow_len; shm_id = none })
                q.1,
          )
          else (false, q.1)
    ]

unfoldable pub brk : ℕ → ℕ → Process → ℕ × Process
unfolding grow_heap
brk pml4 requested p =
    if ltb requested p.heap_start
    then (p.heap_end, p)
    else let old_mapped = align_up (max p.heap_end p.heap_start - p.heap_start) in
      let new_mapped = align_up (requested - p.heap_start) in
      let r =
        if ltb old_mapped new_mapped
        then grow_heap pml4 (add64 p.heap_start old_mapped) (new_mapped - old_mapped) p
        else (true, p) in
      if r.0 then (requested, record r.1 { heap_end = requested }) else (p.heap_end, r.1)

-- Where a mapping goes: where it was asked for, or next in the arena.
unfoldable pub mmap_address : Option ℕ → ℕ → Process → Option ℕ
mmap_address (some at) len p = some (align_down at)
mmap_address none len p = elim (checked_add p.mmap_next len) [
  | none ↦ none
  | some end ↦ if ltb mmap_ceiling end then none else some p.mmap_next
]

-- `if at.is_none() { self.mmap_next = addr + len }`
abbrev pub advance : Option ℕ → ℕ → ℕ → Process → Process
advance (some at) addr len p = p
advance none addr len p = record p { mmap_next = add64 addr len }

-- The end of `mmap_with_content` and `mmap_shared`.
unfoldable pub map_recorded : ℕ → Option ℕ → Mapping → Flags → Process → Option ℕ × Process
unfolding map_user
map_recorded pml4 at m f p =
    let r = map_user pml4 m.vaddr m.phys m.len f p in
    if r.0 then (some m.vaddr, advance at m.vaddr m.len (push_mapping m r.1)) else (none, r.1)

-- `copy_nonoverlapping(data.as_ptr(), phys, n)` with the bytes that fit.
abbrev pub copy_content : List ℕ → ℕ → ℕ → (ℕ → ℕ) → ℕ → ℕ
copy_content content phys len bytes x =
    if leb phys x && ltb x (phys + min (length content) len)
    then get_or content (x - phys) 0
    else bytes x

abbrev pub fill_run : Option (List ℕ) → ℕ → ℕ → Process → Process
fill_run none phys len p = p
fill_run (some content) phys len p = record p { bytes = copy_content content phys len p.bytes }

unfoldable pub mmap_with_content :
    ℕ → Option ℕ → ℕ → Bool → Bool → Option (List ℕ) → Process → Option ℕ × Process
unfolding reserve map_recorded mmap_address
mmap_with_content pml4 at asked writable executable content p =
    let len = align_up (max asked 1) in
    elim (mmap_address at len p) [
      | none ↦ (none, p)
      | some addr ↦
          let r = reserve len p in
          elim r.0 [
            | none ↦ (none, r.1)
            | some phys ↦
                map_recorded pml4 at
                  (record { vaddr = addr; phys = phys; len = len; shm_id = none })
                  (user_flags writable executable) (fill_run content phys len r.1)
          ]
    ]

abbrev pub mmap_anon : ℕ → Option ℕ → ℕ → Bool → Bool → Process → Option ℕ × Process
mmap_anon pml4 at len writable executable p =
    mmap_with_content pml4 at len writable executable none p

abbrev pub mmap_file : ℕ → Option ℕ → ℕ → Bool → Bool → List ℕ → Process → Option ℕ × Process
mmap_file pml4 at len writable executable content p =
    mmap_with_content pml4 at len writable executable (some content) p

-- The shared objects are only read.
unfoldable pub mmap_shared : Shm → ℕ → Option ℕ → ℕ → Bool → Bool → Process → Option ℕ × Process
unfolding map_recorded mmap_address
mmap_shared objects pml4 at shm_id writable executable p = elim (phys_of objects shm_id) [
  | none ↦ (none, p)
  | some phys ↦ elim (pages_of objects shm_id) [
    | none ↦ (none, p)
    | some pages ↦
        let len = pages * page_size % 2 ^ 64 in
        if len == 0 then (none, p) else elim (mmap_address at len p) [
          | none ↦ (none, p)
          | some addr ↦
              map_recorded pml4 at
                (record { vaddr = addr; phys = phys; len = len; shm_id = some shm_id })
                (user_flags writable executable) p
        ]
  ]
]

-- `frames.retain(|&f| f < low || f >= high)`
unfoldable pub retain_outside : ℕ → ℕ → List ℕ → List ℕ
retain_outside low high [] = []
retain_outside low high (f ∷ fs) =
    let rest = retain_outside low high fs in if ltb f low || leb high f then f ∷ rest else rest

-- One mapping taken back; the frames of a shared one stay.
unfoldable pub release : ℕ → Mapping → Process → Process
unfolding retain_outside
release pml4 m p =
    let t = (unmap_range_in pml4 m.vaddr m.len p.space).1 in
    elim m.shm_id [
      | some id ↦ record p { space = t }
      | none ↦ record p {
        space = record t {
          pmm = free_run (m.len / page_size) t.pmm m.phys;
          frames = retain_outside m.phys (add64 m.phys m.len) t.frames;
        };
      }
    ]

abbrev pub contained : ℕ → ℕ → Mapping → Bool
contained start end m = leb start m.vaddr && leb (add64 m.vaddr m.len) end

-- The loop over the mappings, with those that stay.
unfoldable pub unmap_mappings : ℕ → ℕ → ℕ → List Mapping → Process → List Mapping × Process
unfolding release
unmap_mappings pml4 start end [] p = ([], p)
unmap_mappings pml4 start end (m ∷ ms) p =
    let rest =
      unmap_mappings pml4 start end ms (if contained start end m then release pml4 m p else p) in
    if contained start end m then rest else (m ∷ rest.0, rest.1)

unfoldable pub munmap : ℕ → ℕ → ℕ → Process → Bool × Process
unfolding unmap_mappings
munmap pml4 addr len p =
    let start = align_down addr in
    let r = unmap_mappings pml4 start (add64 start (align_up (max len 1))) p.mappings p in
    (true, record r.1 { mappings = r.0 })

unfoldable pub protect_pages : ℕ → ℕ → ℕ → Flags → Process → Bool × Process
unfolding map_user
protect_pages zero pml4 v f p = (true, p)
protect_pages (suc n) pml4 v f p = elim (translate_local v page_size p) [
  | none ↦ (false, p)
  | some phys ↦
      let r = map_user pml4 v phys page_size f p in
      elim r.0 [ false ↦ (false, r.1) | true ↦ protect_pages n pml4 (v + page_size) f r.1 ]
]

-- Where the sum wraps, the end lies below the start and no page is visited.
unfoldable pub mprotect : ℕ → ℕ → ℕ → Bool → Bool → Process → Bool × Process
unfolding protect_pages
mprotect pml4 addr len writable executable p =
    let start = align_down addr in
    protect_pages ((add64 start (align_up (max len 1)) - start) / page_size) pml4 start
      (user_flags writable executable) p
