-- ===== src/Allocator.antt =====
-- src/allocator.rs: the kernel heap, a first-fit free list whose block headers lie in the heap itself.
-- The headers are an explicit memory: `mem a` is the `Block` at address `a`, and 0 is the null
-- pointer. Every operation takes and returns the allocator with that memory; the spin lock makes
-- each one step. The loops over the list take fuel `total / 16 + 1`, one round for each header that
-- fits into the heap; Allocator/Chain shows that a well-formed list is not longer.
pub mod Chain
pub mod Blocks
pub mod FirstFit
pub mod Place
pub mod Alloc
pub mod Dealloc
pub mod Gap
mod Tests
use macha_os.Prelude.{
  ℕ, zero, suc, ◌+◌, ◌-◌, ◌/◌, ◌*◌, ◌%◌, ◌^◌, Bool, true, false, ◌&&◌, not, add64, sub64, ltb, leb,
  ◌==◌, if◌then◌else◌,
}

abbrev pub min_align : ℕ
min_align = 16

abbrev pub header_size : ℕ
header_size = 16

abbrev pub heap_size : ℕ
heap_size = 40 * 1024 * 1024

pub record Block : Type 0 where
  pub size : ℕ
  pub next : ℕ

pub record FreeListAllocator : Type 0 where
  pub head : ℕ
  pub allocated : ℕ
  pub total : ℕ
  pub base : ℕ
  pub mem : ℕ → Block

abbrev pub store : (ℕ → Block) → ℕ → Block → ℕ → Block
store mem a b x = if a == x then b else mem x

pub init : FreeListAllocator → ℕ → ℕ → FreeListAllocator
init s start end = record {
  head = start;
  allocated = 0;
  total = sub64 end start;
  base = start;
  mem = store s.mem start (record { size = sub64 (sub64 end start) header_size; next = 0 });
}

abbrev pub align_up : ℕ → ℕ → ℕ
align_up value align = add64 value (align - 1) / align * align

-- `(*a).next = v`, and `self.head = v` for the null predecessor.
abbrev pub set_next : FreeListAllocator → ℕ → ℕ → FreeListAllocator
set_next s a v =
    if a == 0
    then record s { head = v }
    else record s { mem = store s.mem a (record { size = (s.mem a).size; next = v }) }

-- The split of `current` in two.
pub split : FreeListAllocator → ℕ → ℕ → FreeListAllocator
split s size current =
    let current_size = (s.mem current).size in
    let remaining = add64 (add64 current header_size) size in
    if leb (add64 (add64 size header_size) min_align) current_size
    then record s {
      mem =
          store
            (store s.mem remaining (record {
              size = sub64 (sub64 current_size size) header_size;
              next = (s.mem current).next;
            }))
            current (record { size = size; next = remaining });
    }
    else s

-- The body of the branch that has found a block.
pub take : FreeListAllocator → ℕ → ℕ → ℕ → FreeListAllocator
unfolding split
take s size previous current =
    let s' = split s size current in
    let linked = set_next s' previous (s'.mem current).next in
    record linked { allocated = add64 linked.allocated size }

pub search_list : ℕ → FreeListAllocator → ℕ → ℕ → ℕ → ℕ × FreeListAllocator
search_list zero s size previous current = (0, s)
search_list (suc fuel) s size previous current = elim (current == 0) [
  | true ↦ (0, s)
  | false ↦ elim (leb size (s.mem current).size) [
    | true ↦ (add64 current header_size, take s size previous current)
    | false ↦ search_list fuel s size current (s.mem current).next
  ]
]

pub fuel_of : FreeListAllocator → ℕ
fuel_of s = s.total / header_size + 1

-- The pointer is 0 where the code returns null.
pub alloc : FreeListAllocator → ℕ → ℕ × FreeListAllocator
alloc s size = search_list (fuel_of s) s (align_up size min_align) 0 s.head

-- The loop of `dealloc`: the neighbours of `block` in address order.
pub find_gap : ℕ → FreeListAllocator → ℕ → ℕ → ℕ → ℕ × ℕ
find_gap zero s block previous current = (previous, current)
find_gap (suc fuel) s block previous current = elim (not (current == 0) && ltb current block) [
  | true ↦ find_gap fuel s block current (s.mem current).next
  | false ↦ (previous, current)
]

-- `(*block).next = current`, then the link from the predecessor.
pub link_block : FreeListAllocator → ℕ → ℕ → ℕ → FreeListAllocator
link_block s block previous current =
    set_next
      (record s { mem = store s.mem block (record { size = (s.mem block).size; next = current }) })
      previous block

abbrev pub block_end : FreeListAllocator → ℕ → ℕ
block_end s a = add64 (add64 a header_size) (s.mem a).size

-- `(*a).size += size_of::<Block>() + (*b).size; (*a).next = (*b).next`
abbrev pub absorb : FreeListAllocator → ℕ → ℕ → FreeListAllocator
absorb s a b = record s {
  mem = store s.mem a (record {
    size = add64 (s.mem a).size (add64 header_size (s.mem b).size);
    next = (s.mem b).next;
  });
}

pub coalesce_next : FreeListAllocator → ℕ → ℕ → FreeListAllocator
coalesce_next s block current =
    if not (current == 0) && (block_end s block == current) then absorb s block current else s

pub coalesce_previous : FreeListAllocator → ℕ → ℕ → FreeListAllocator
coalesce_previous s previous block =
    if not (previous == 0) && (block_end s previous == block) then absorb s previous block else s

pub insert_block : FreeListAllocator → ℕ → ℕ → ℕ → FreeListAllocator
insert_block s block previous current =
    coalesce_previous (coalesce_next (link_block s block previous current) block current) previous
      block

pub dealloc : FreeListAllocator → ℕ → FreeListAllocator
dealloc s ptr =
    let block = sub64 ptr header_size in
    let s' = record s { allocated = sub64 s.allocated (s.mem block).size } in
    let (previous, current) = find_gap (fuel_of s) s' block 0 s.head in
    insert_block s' block previous current

-- `GlobalAlloc` for the locked allocator: the layout's size and alignment.
pub global_alloc : FreeListAllocator → ℕ → ℕ → ℕ × FreeListAllocator
global_alloc s size align = if ltb min_align align then (0, s) else alloc s size

pub global_dealloc : FreeListAllocator → ℕ → FreeListAllocator
global_dealloc s ptr = if ptr == 0 then s else dealloc s ptr

pub allocated_bytes : FreeListAllocator → ℕ
allocated_bytes s = s.allocated

pub free_bytes : FreeListAllocator → ℕ
free_bytes s = sub64 s.total s.allocated

pub heap_range : FreeListAllocator → ℕ × ℕ
heap_range s = (s.base, add64 s.base s.total)
