-- ===== src/Process.antt =====
-- src/process.rs: the address space of a process. `space` is the frames of the memory manager, the page
-- tables and the frames that the process owns; `bytes` is physical memory apart from the page tables, which
-- the kernel maps one to one. A sum of `u64`s wraps, as in the release build.
use macha_os.Prelude.{
  ℕ, zero, suc, ◌+◌, ◌-◌, ◌*◌, ◌/◌, Bool, true, false, ◌&&◌, ◌||◌, not, Option, none, some, List,
  [], ◌∷◌, ◌++◌, ltb, leb, add64, ◌==◌, if◌then◌else◌, checked_add,
}
use macha_os.Pmm.{Pmm, frame_size, alloc_contiguous}
use macha_os.Shm.{Shm, phys_of, pages_of, free_run, write_zeros}
use macha_os.Paging.{Flags, PageTables, map_range_in, unmap_range_in, page_size}
pub mod Heap
pub mod Translate
pub mod Stack
pub mod Memory
pub mod Break
pub mod Attempt
pub mod Mmap
pub mod Sharing
pub mod Unmap
pub mod Setup
pub mod Start
pub mod Load
pub mod Pages
pub mod Image
pub mod Loaded
mod Tests

abbrev pub user_stack_top : ℕ
user_stack_top = 0x10000000

abbrev pub user_stack_pages : ℕ
user_stack_pages = 8

abbrev pub user_stack_base : ℕ
user_stack_base = user_stack_top - user_stack_pages * page_size

abbrev pub user_stack_max_pages : ℕ
user_stack_max_pages = 256

abbrev pub user_stack_low_limit : ℕ
user_stack_low_limit = user_stack_top - user_stack_max_pages * page_size

abbrev pub mmap_ceiling : ℕ
mmap_ceiling = 0xC0000000

pub record Mapping : Type 0 where
  pub vaddr : ℕ
  pub phys : ℕ
  pub len : ℕ
  pub shm_id : Option ℕ

pub record Process : Type 0 where
  pub space : PageTables
  pub bytes : ℕ → ℕ
  pub mappings : List Mapping
  pub stack_low : ℕ
  pub stack_phys_base : ℕ
  pub heap_start : ℕ
  pub heap_end : ℕ
  pub mmap_next : ℕ

-- `align_up(value, PAGE_SIZE)`, and `value & !(PAGE_SIZE - 1)`.
abbrev pub align_up : ℕ → ℕ
align_up value = add64 value (page_size - 1) / page_size * page_size

abbrev pub align_down : ℕ → ℕ
align_down value = value / page_size * page_size

abbrev pub user_flags : Bool → Bool → Flags
user_flags writable executable = record {
  writable = writable;
  user = true;
  no_execute = not executable;
}

abbrev pub push_mapping : Mapping → Process → Process
push_mapping m p = record p { mappings = p.mappings ++ m ∷ [] }

-- `for i in 0..pages { self.frames.push(phys + i * FRAME_SIZE) }`
unfoldable pub run_frames : ℕ → ℕ → List ℕ
run_frames zero phys = []
run_frames (suc n) phys = phys ∷ run_frames n (phys + frame_size)

-- A run of zeroed frames for `len` bytes that the process owns.
unfoldable pub own_run : ℕ → Process → Option ℕ × Pmm → Option ℕ × Process
own_run len p (none, q) = (none, record p { space = record p.space { pmm = q } })
own_run len p (some phys, q) = (
  some phys,
  record p {
    space = record p.space {
      pmm = q;
      frames = p.space.frames ++ run_frames (len / page_size) phys;
    };
    bytes = write_zeros p.bytes phys len;
  },
)

unfoldable pub reserve : ℕ → Process → Option ℕ × Process
unfolding own_run
reserve len p = own_run len p (alloc_contiguous p.space.pmm (len / page_size))

-- `map_range_in` on the process's own tables.
unfoldable pub map_user : ℕ → ℕ → ℕ → ℕ → Flags → Process → Bool × Process
map_user pml4 virt phys len f p =
    let r = map_range_in pml4 virt phys len f p.space in (r.0, record p { space = r.1 })

unfoldable pub init_stack_backing : Process → Bool × Process
unfolding reserve
init_stack_backing p =
    let r = reserve (user_stack_max_pages * page_size) p in
    elim r.0 [
      | none ↦ (false, r.1)
      | some phys ↦ (
        true,
        push_mapping
            (record {
              vaddr = user_stack_low_limit;
              phys = phys;
              len = user_stack_max_pages * page_size;
              shm_id = none;
            })
            (record r.1 { stack_phys_base = phys }),
      )
    ]

abbrev pub stack_phys_for : ℕ → Process → ℕ
stack_phys_for vaddr p = add64 p.stack_phys_base (vaddr - user_stack_low_limit)

unfoldable pub try_grow_stack : ℕ → ℕ → Process → Bool × Process
unfolding map_user
try_grow_stack pml4 fault_addr p =
    if leb p.stack_low fault_addr || ltb fault_addr user_stack_low_limit
    then (false, p)
    else let new_low = align_down fault_addr in
      let r =
        map_user pml4 new_low (stack_phys_for new_low p) (p.stack_low - new_low)
          (user_flags true false) p in
      if r.0 then (true, record r.1 { stack_low = new_low }) else (false, r.1)

-- The first mapping with the whole range in it.
abbrev pub covers : ℕ → ℕ → Mapping → Bool
covers vaddr end m = leb m.vaddr vaddr && leb end (add64 m.vaddr m.len)

unfoldable pub find_mapping : ℕ → ℕ → List Mapping → Option Mapping
find_mapping vaddr end [] = none
find_mapping vaddr end (m ∷ ms) = if covers vaddr end m then some m else find_mapping vaddr end ms

-- `translate`, on the mappings of the process, and `translate_local`.
unfoldable pub translate : List Mapping → ℕ → ℕ → Option ℕ
unfolding find_mapping
translate mappings vaddr len = elim (checked_add vaddr len) [
  | none ↦ none
  | some end ↦ elim (find_mapping vaddr end mappings) [
    | none ↦ none
    | some m ↦ some (add64 m.phys (vaddr - m.vaddr))
  ]
]

abbrev pub translate_local : ℕ → ℕ → Process → Option ℕ
translate_local vaddr len p = translate p.mappings vaddr len

-- The current task is the process `p`; the mappings of another are the argument `others`, none where `pid` is
-- not a process.
abbrev pub mappings_of : ℕ → (ℕ → Option (List Mapping)) → ℕ → Process → Option (List Mapping)
mappings_of current others pid p = if pid == current then some p.mappings else others pid

abbrev pub translate_of : Option (List Mapping) → ℕ → ℕ → Option ℕ
translate_of none vaddr len = none
translate_of (some mappings) vaddr len = translate mappings vaddr len

unfoldable pub resolve_syscall_ptr :
    ℕ → ℕ → (ℕ → Option (List Mapping)) → ℕ → ℕ → ℕ → Process → Option ℕ × Process
unfolding translate try_grow_stack
resolve_syscall_ptr current cr3 others pid vaddr len p =
    elim (translate_of (mappings_of current others pid p) vaddr len) [
      | some phys ↦ (some phys, p)
      | none ↦
          if not (pid == current)
          then (none, p)
          else let r = try_grow_stack cr3 vaddr p in
            if r.0
            then (translate_of (mappings_of current others pid r.1) vaddr len, r.1)
            else (none, r.1)
    ]
