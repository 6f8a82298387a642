-- ===== src/Shm/Frames.antt =====
-- src/shm.rs: the frames of an object, given back one by one.
use macha_os.Prelude.{ℕ, zero, suc, ◌+◌, ◌/◌, ◌%◌, ◌≤◌, ◌≡◌, true, arith, if◌then◌else◌}
use macha_os.Pmm.{Pmm, frame_size, frame_count, frame_free}
use macha_os.Pmm.Frames.{within}
use macha_os.Pmm.Frames as PmmFrames
use macha_os.Pmm.Single.{free_in, frame_free_lem}
use macha_os.Shm.{free_run}

pub free_run_lem :
    (n : ℕ) (p : Pmm) (phys : ℕ)
    → PmmFrames.IsValid p
    → phys % frame_size ≡ 0
    → phys / frame_size + n ≤ frame_count
    → ((g : ℕ)
        → free_in (free_run n p phys) g
          ≡ (if within (phys / frame_size) n g then true else free_in p g))
      × PmmFrames.IsValid (free_run n p phys)
unfolding free_run
free_run_lem zero p phys v a h = (λ g. ground arith, v)
free_run_lem (suc n) p phys v a h =
    let f = frame_free_lem p phys v in
    let r =
      free_run_lem n (frame_free p phys) (phys + frame_size) f.1 (omega arith) (omega arith) in
    (λ g. ground (arith, r.0 g, f.0 g), r.1)
