-- ===== src/Process/Load.antt =====
-- src/process.rs: loading the segments of a program. Sums of addresses are those of segments below 4 GiB.
use macha_os.Prelude.{
  ℕ, zero, suc, ◌+◌, ◌-◌, ◌/◌, min, max, Bool, true, false, ◌&&◌, ◌||◌, not, Option, none, some,
  List, [], ◌∷◌, get_or, ltb, leb, add64, ◌==◌, if◌then◌else◌, Result, ok, err,
}
use Prim.Native.String.{String}
use macha_os.Elf.{Segment}
use macha_os.Paging.{Flags, page_size}
use macha_os.Shm.{write_zeros}
use macha_os.Process.{Process, align_up, align_down, user_flags, map_user, push_mapping, reserve}

-- The lowest page and the end of the highest one, with those of the segments before.
unfoldable pub lowest : ℕ → List Segment → ℕ
lowest low [] = low
lowest low (s ∷ ss) = lowest (min low (align_down s.vaddr)) ss

abbrev pub segment_end : Segment → ℕ
segment_end s = align_up (add64 s.vaddr s.memsz)

unfoldable pub highest : ℕ → List Segment → ℕ
highest high [] = high
highest high (s ∷ ss) = highest (max high (segment_end s)) ss

-- `segments.iter().any(...)` over the segments that touch the page.
abbrev pub touches : ℕ → Segment → Bool
touches page_vaddr s =
    ltb s.vaddr (add64 page_vaddr page_size) && ltb page_vaddr (add64 s.vaddr s.memsz)

unfoldable pub any_touching : (Segment → Bool) → ℕ → List Segment → Bool
any_touching flag page_vaddr [] = false
any_touching flag page_vaddr (s ∷ ss) =
    flag s && touches page_vaddr s || any_touching flag page_vaddr ss

abbrev pub page_flags : List Segment → ℕ → Flags
page_flags segments page_vaddr =
    user_flags (any_touching (λ s. s.writable) page_vaddr segments)
      (any_touching (λ s. s.executable) page_vaddr segments)

-- The loop over the pages, with `n` to go.
unfoldable pub load_pages : ℕ → ℕ → List Segment → ℕ → ℕ → Process → Bool × Process
unfolding map_user
load_pages zero pml4 segments v phys p = (true, p)
load_pages (suc n) pml4 segments v phys p =
    let r = map_user pml4 v phys page_size (page_flags segments v) p in
    elim r.0 [
      | false ↦ (false, r.1)
      | true ↦ load_pages n pml4 segments (add64 v page_size) (add64 phys page_size) r.1
    ]

-- `copy_nonoverlapping` from the file, whose bytes there the checks before the load have found to be in it.
abbrev pub copy_file : List ℕ → Segment → ℕ → (ℕ → ℕ) → ℕ → ℕ
copy_file file s dst bytes x =
    if leb dst x && ltb x (dst + s.filesz)
    then get_or file (s.file_offset + (x - dst)) 0
    else bytes x

unfoldable pub copy_segments : List ℕ → ℕ → ℕ → List Segment → (ℕ → ℕ) → ℕ → ℕ
copy_segments file phys start [] bytes = bytes
copy_segments file phys start (s ∷ ss) bytes =
    copy_segments file phys start ss
      (if s.filesz == 0 then bytes else copy_file file s (add64 phys (s.vaddr - start)) bytes)

-- The pages, and then the bytes, of the run at `phys`.
unfoldable pub load_run :
    ℕ → List Segment → List ℕ → ℕ → ℕ → ℕ → Process → Result String (Unit {0}) × Process
unfolding load_pages copy_segments
load_run pml4 segments file start len phys p =
    let r = load_pages (len / page_size) pml4 segments start phys p in
    if not r.0 then (err "failed to map segment", r.1) else (
      ok tt,
      push_mapping (record { vaddr = start; phys = phys; len = len; shm_id = none })
          (record r.1 {
            bytes = copy_segments file phys start segments (write_zeros r.1.bytes phys len);
          }),
    )

-- The frames of a run as they are, for the process to own.
abbrev pub reserve_frames : ℕ → Process → Option ℕ × Process
reserve_frames len p = let r = reserve len p in (r.0, record r.1 { bytes = p.bytes })

unfoldable pub load_reserved :
    ℕ → List Segment → List ℕ → ℕ → ℕ → Option ℕ × Process → Result String (Unit {0}) × Process
unfolding load_run
load_reserved pml4 segments file start len (none, p) = (err "out of memory", p)
load_reserved pml4 segments file start len (some phys, p) =
    load_run pml4 segments file start len phys p

unfoldable pub load_segments :
    ℕ → List Segment → List ℕ → Process → Result String (Unit {0}) × Process
unfolding lowest highest load_reserved
load_segments pml4 [] file p = (ok tt, p)
load_segments pml4 (s ∷ ss) file p =
    let start = lowest (align_down s.vaddr) ss in
    let len = highest (segment_end s) ss - start in
    load_reserved pml4 (s ∷ ss) file start len (reserve_frames len p)
