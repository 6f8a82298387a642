-- ===== src/Pmm.antt =====
-- src/pmm.rs: the physical memory manager, a bitmap over 4 KiB frames.
-- The statics BITMAP and LAST_USABLE_FRAME are the fields of `Pmm`, which every operation takes and
-- returns. The spin lock around each operation makes it one step, so it does not appear.
-- `usize` arithmetic wraps at 2 ^ 64, as in the release profile.
pub mod Frames
pub mod Single
pub mod Contiguous
pub mod Reserve
pub mod Boot
mod Tests
use macha_os.Prelude.{
  ℕ, zero, suc, ◌+◌, ◌-◌, ◌*◌, ◌/◌, ◌%◌, ◌^◌, min, Bool, true, false, ◌||◌, not, Option, none, some,
  List, [], ◌∷◌, get_or, set, replicate, ltb, leb, ◌==◌, if◌then◌else◌,
}
use macha_os.Prelude.Bits.{bit_clear, set_bit, clear_bit}

abbrev pub frame_size : ℕ
frame_size = 4096

abbrev pub max_phys_mem : ℕ
max_phys_mem = 256 * 1024 * 1024

abbrev pub frame_count : ℕ
frame_count = max_phys_mem / frame_size

abbrev pub bitmap_bytes : ℕ
bitmap_bytes = frame_count / 8

abbrev pub low_reserved_end : ℕ
low_reserved_end = 64 * 1024 * 1024

pub record Pmm : Type 0 where
  pub bitmap : List ℕ
  pub last : ℕ

abbrev pub initial : Pmm
initial = record { bitmap = replicate bitmap_bytes 0xff; last = 0 }

-- `(value + align - 1) & !(align - 1)` at a power of two; the sum wraps.
abbrev pub align_up : ℕ → ℕ → ℕ
align_up value align = (value + align - 1) % 2 ^ 64 / align * align

abbrev pub align_down : ℕ → ℕ → ℕ
align_down value align = value / align * align

abbrev pub saturating_add : ℕ → ℕ → ℕ
saturating_add a b = min (a + b) (2 ^ 64 - 1)

-- An index past the array would panic; here it reads as a frame in use and writes nothing.
pub set_frame : List ℕ → ℕ → List ℕ
set_frame m frame = set m (frame / 8) (set_bit (get_or m (frame / 8) 0xff) (frame % 8))

pub clear_frame : List ℕ → ℕ → List ℕ
clear_frame m frame = set m (frame / 8) (clear_bit (get_or m (frame / 8) 0xff) (frame % 8))

pub frame_is_free : List ℕ → ℕ → Bool
frame_is_free m frame = bit_clear (get_or m (frame / 8) 0xff) (frame % 8)

-- `while frame * FRAME_SIZE < end { set_frame(frame); frame += 1 }`, with fuel.
pub mark_while : ℕ → List ℕ → ℕ → ℕ → List ℕ
mark_while zero m frame end = m
mark_while (suc fuel) m frame end = elim (ltb (frame * frame_size) end) [
  | true ↦ mark_while fuel (set_frame m frame) (frame + 1) end
  | false ↦ m
]

-- The bitmap has `frame_count` frames and `end` is at most `max_phys_mem`, so the fuel suffices.
pub mark_range : List ℕ → ℕ → ℕ → List ℕ
mark_range m base len =
    let start = align_down base frame_size in
    let end = min (align_up (saturating_add base len) frame_size) max_phys_mem in
    mark_while frame_count m (start / frame_size) end

pub mark_reserved : Pmm → ℕ → ℕ → Pmm
mark_reserved p base len =
    if len == 0 then p else record p { bitmap = mark_range p.bitmap base len }

-- One entry of the Multiboot memory map.
pub record Region : Type 0 where
  pub base : ℕ
  pub len : ℕ
  pub region_type : ℕ

-- `while frame < end_frame`, counted by the rounds left.
pub clear_range : ℕ → List ℕ → ℕ → List ℕ
clear_range zero m frame = m
clear_range (suc n) m frame = clear_range n (clear_frame m frame) (frame + 1)

pub region_start : Region → ℕ
region_start r = align_up r.base frame_size / frame_size

pub region_end : Region → ℕ
region_end r = min (align_down ((r.base + r.len) % 2 ^ 64) frame_size) max_phys_mem / frame_size

pub is_usable : Region → Bool
is_usable r = not (not (r.region_type == 1) || ltb r.base (1024 * 1024))

-- The body of the loop over the memory map; `last` is the local `last_frame`.
pub add_region : Pmm → Region → Pmm
add_region p r =
    if is_usable r
    then record {
      bitmap = clear_range (region_end r - region_start r) p.bitmap (region_start r);
      last = if ltb p.last (region_end r) then region_end r - 1 else p.last;
    }
    else p

pub add_regions : Pmm → List Region → Pmm
add_regions p [] = p
add_regions p (r ∷ rs) = add_regions (add_region p r) rs

-- The two addresses are the linker's symbols `_kernel_start` and `_kernel_end`.
pub init : Pmm → List Region → ℕ → ℕ → Pmm
init p memory_map kernel_start kernel_end =
    let fed = add_regions (record p { last = 0 }) memory_map in
    let image = mark_reserved fed kernel_start ((kernel_end + 2 ^ 64 - kernel_start) % 2 ^ 64) in
    mark_reserved image 0 low_reserved_end

-- `for frame in 0..=last`, from `frame` on with `n` frames left.
pub find_free : ℕ → List ℕ → ℕ → Option ℕ
find_free zero m frame = none
find_free (suc n) m frame =
    let rest = find_free n m (frame + 1) in if frame_is_free m frame then some frame else rest

pub frame_alloc : Pmm → Option ℕ × Pmm
frame_alloc p = elim (find_free (p.last + 1) p.bitmap 0) [
  | none ↦ (none, p)
  | some frame ↦ (some (frame * frame_size), record p { bitmap = set_frame p.bitmap frame })
]

-- The scan of `alloc_contiguous`, with `n` frames left.
pub find_run : ℕ → List ℕ → ℕ → ℕ → ℕ → ℕ → Option ℕ
find_run zero m count frame run_start run_len = none
find_run (suc n) m count frame run_start run_len = elim (frame_is_free m frame) [
  | true ↦
      let start = if run_len == 0 then frame else run_start in
      elim (run_len + 1 == count) [
        | true ↦ some start
        | false ↦ find_run n m count (frame + 1) start (run_len + 1)
      ]
  | false ↦ find_run n m count (frame + 1) run_start 0
]

-- `for f in run_start..run_start + count { set_frame(f) }`
pub set_range : ℕ → List ℕ → ℕ → List ℕ
set_range zero m frame = m
set_range (suc n) m frame = set_range n (set_frame m frame) (frame + 1)

pub alloc_contiguous : Pmm → ℕ → Option ℕ × Pmm
alloc_contiguous p count = if count == 0 || ltb p.last (count - 1) then (none, p) else take_run
  where
    take_run : Option ℕ × Pmm
    take_run = elim (find_run (p.last + 1) p.bitmap count 0 0 0) [
      | none ↦ (none, p)
      | some start ↦
          (some (start * frame_size), record p { bitmap = set_range count p.bitmap start })
    ]

pub frame_free : Pmm → ℕ → Pmm
frame_free p phys =
    if not (phys % frame_size == 0) || leb max_phys_mem phys
    then p
    else record p { bitmap = clear_frame p.bitmap (phys / frame_size) }

pub count_from : ℕ → List ℕ → ℕ → ℕ
count_from zero m frame = 0
count_from (suc n) m frame = (if frame_is_free m frame then 1 else 0) + count_from n m (frame + 1)

pub count_free : Pmm → ℕ
count_free p = count_from (p.last + 1) p.bitmap 0

pub free_frames : Pmm → ℕ
free_frames p = count_free p

pub used_frames : Pmm → ℕ
used_frames p = (p.last + 1) - count_free p

pub total_frames : Pmm → ℕ
total_frames p = p.last + 1
