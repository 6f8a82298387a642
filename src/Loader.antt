-- ===== src/Loader.antt =====
-- src/process.rs: the checks on a program before it is loaded. The heap's range, which the code asks
-- the allocator for, is the argument `heap`.
use macha_os.Prelude.{
  ℕ, ◌+◌, ◌-◌, ◌*◌, ◌&&◌, List, [], ◌∷◌, map, ltb, leb, add64, if◌then◌else◌, Result, ok, ◌>>=◌,
  ◌>>◌, reject_if, ok_or, checked_add,
}
use Prim.Native.String.{String}
use macha_os.Paging.{page_size, identity_map_end}
use macha_os.Process.{user_stack_low_limit}
use macha_os.Process.Setup.{user_exit_stub_virt}
use macha_os.Elf.{Segment, Program, parse}
pub mod Placement
pub mod Loading
mod Tests

abbrev pub min_segment_vaddr : ℕ
min_segment_vaddr = 2 * 1024 * 1024

abbrev pub pie_load_base : ℕ
pie_load_base = 0x20000000

abbrev pub bias_segment : Segment → Segment
bias_segment s = record s { vaddr = add64 s.vaddr pie_load_base }

unfoldable pub apply_pie_bias : Program → Program
apply_pie_bias p =
    if p.is_pie
    then record p { entry = add64 p.entry pie_load_base; segments = map bias_segment p.segments }
    else p

-- The body of the loop, with `first` and `last` for `start` and `end`.
unfoldable pub validate_segment : ℕ × ℕ → Segment → Result String (Unit {0})
validate_segment heap s = do
  last ← ok_or (checked_add s.vaddr s.memsz) "segment range overflow"
  reject_if (leb last s.vaddr) "empty segment"
  reject_if (ltb s.vaddr min_segment_vaddr) "segment below 2 MiB"
  reject_if (ltb s.vaddr (add64 heap.1 (1024 * 1024)) && ltb (heap.0 - 1024 * 1024) last)
      "segment overlaps kernel heap"
  reject_if (ltb identity_map_end last) "segment beyond 4 GiB"
  reject_if (ltb s.vaddr (user_exit_stub_virt + page_size) && ltb user_stack_low_limit last)
      "segment overlaps the reserved process stack region"
  ok tt

unfoldable pub validate_segments : ℕ × ℕ → List Segment → Result String (Unit {0})
validate_segments heap [] = ok tt
validate_segments heap (s ∷ ss) = do validate_segment heap s; validate_segments heap ss

-- The first steps of `spawn` and `spawn_linux`.
unfoldable pub check_program : ℕ × ℕ → List ℕ → Result String Program
check_program heap file = do
  program ← parse file
  let biased = apply_pie_bias program
  validate_segments heap biased.segments
  ok biased
