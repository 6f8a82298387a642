-- ===== src/Loader/Loading.antt =====
-- src/process.rs, src/elf.rs: a program that was checked, and is then loaded.
use macha_os.Prelude.{ℕ, ◌^◌, ◌≤◌, ◌≡◌, sym, subst, List, [], ◌∷◌, All, ok, length}
use macha_os.Elf.{Segment, Program}
use macha_os.Elf.Bounds.{InFile}
use macha_os.Paging.Whole.{IsSpace}
use macha_os.Process.{Process}
use macha_os.Process.Load.{load_segments}
use macha_os.Process.Image.{HasRoom}
use macha_os.Process.Loaded.{Loaded, load_segments-Loaded}
use macha_os.Loader.{check_program}
use macha_os.Loader.Placement.{Placed, check_program-Placed}

both-HasRoom :
    (heap : ℕ × ℕ) (size : ℕ) (ss : List Segment)
    → All (InFile size) ss
    → All (Placed heap) ss
    → All (HasRoom size) ss
both-HasRoom heap size [] files places = tt
both-HasRoom heap size (s ∷ ss) (file, files) (place, places) = (
  record { below = place.mapped; file_part = file.room; in_file = file.inside },
  both-HasRoom heap size ss files places,
)

-- What `check_program` accepts, `load_segments` brings into memory.
pub load_segments-check_program :
    (heap : ℕ × ℕ) (file : List ℕ) (program : Program) (s : Segment) (ss : List Segment) (pml4 : ℕ)
    (p : Process)
    → heap.1 ≤ 2 ^ 63
    → check_program heap file ≡ ok program
    → program.segments ≡ s ∷ ss
    → IsSpace pml4 p.space
    → Loaded pml4 program.segments file p (load_segments pml4 program.segments file p)
load_segments-check_program heap file program s ss pml4 p small accepted is space =
    let (files, places) = check_program-Placed heap file program small accepted in
    subst (λ l. Loaded pml4 l file p (load_segments pml4 l file p)) (sym is)
      (load_segments-Loaded pml4 s ss file p
        (subst (All (HasRoom (length file))) is (both-HasRoom heap _ _ files places)) space)
