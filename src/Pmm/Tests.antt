-- ===== src/Pmm/Tests.antt =====
-- src/pmm.rs: the theorems on a manager with frame 0 free, and on a boot with one region of memory.
use macha_os.Prelude.{subst, [], ◌∷◌, true, not, ◌&&◌, ◌≡◌, refl, some, leb, ◌*◌, arith}
use macha_os.Pmm.{
  Pmm, Region, initial, init, frame_alloc, alloc_contiguous, frame_free, clear_frame, frame_is_free,
  find_free, frame_size, low_reserved_end,
}
use macha_os.Prelude.Bits.{bit_clear, clear_bit}
use macha_os.Pmm.Frames.{IsValid}
use macha_os.Pmm.Single.{free_in, Allocated, frame_alloc-Allocated, frame_free_lem}
use macha_os.Pmm.Contiguous.{Taken, alloc_contiguous-Taken}
use macha_os.Pmm.Reserve.{initial-IsValid}
use macha_os.Pmm.Boot.{init_free, in_ram, in_kernel, NoWrap}

abbrev one_free : Pmm
one_free = frame_free initial 0

one_free-IsValid : IsValid one_free
one_free-IsValid = (frame_free_lem initial 0 initial-IsValid).1

abbrev taken : Pmm
taken = (frame_alloc one_free).1

taken_first : frame_alloc one_free ≡ (some 0, taken)
unfolding frame_alloc frame_free find_free frame_is_free clear_frame bit_clear clear_bit
taken_first = refl

frame_alloc-Allocated_example : Allocated one_free (frame_alloc one_free)
frame_alloc-Allocated_example = frame_alloc-Allocated one_free one_free-IsValid

taken-IsValid : IsValid taken
taken-IsValid =
    (subst (Allocated one_free) taken_first (frame_alloc-Allocated one_free one_free-IsValid)).7

alloc_contiguous-Taken_example : Taken one_free 1 (alloc_contiguous one_free 1)
alloc_contiguous-Taken_example = alloc_contiguous-Taken one_free 1 one_free-IsValid

abbrev ram : Region
ram = record { base = 0x100000; len = 0xff00000; region_type = 1 }

abbrev booted : Pmm
booted = init initial (ram ∷ []) 0x100000 0x900000

ram_below : NoWrap (ram ∷ [])
ram_below = (omega arith, tt)

init_free_example : free_in booted 0x4000 ≡ (
    in_ram (ram ∷ []) 0x4000
    && (not (in_kernel 0x100000 0x900000 0x4000) && leb low_reserved_end (0x4000 * frame_size)))
init_free_example =
    init_free (ram ∷ []) 0x100000 0x900000 ram_below (omega arith) (omega arith) 0x4000
      (omega arith)

boot_frame : free_in booted 0x4000 ≡ true
boot_frame = init_free_example
