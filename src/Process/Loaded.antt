-- ===== src/Process/Loaded.antt =====
-- src/process.rs: the memory of a loaded program.
use macha_os.Prelude.{
  ℕ, ◌+◌, ◌*◌, ◌/◌, ◌%◌, ◌^◌, ◌<◌, ◌≤◌, ◌≡◌, refl, ap, ◌∙◌, Bool, true, false, not, none, some,
  List, [], ◌∷◌, ◌++◌, arith, if◌then◌else◌, All, Result, ok, err, ◌-◌, sym, subst, ◌&&◌, Option,
  ltb, leb, pick, length,
}
use Prim.Native.String.{String}
use macha_os.Elf.{Segment}
use macha_os.Shm.{write_zeros}
use macha_os.Paging.{Entry, Tables, page_size, identity_map_end}
use macha_os.Paging.Ring3.{ForRing3}
use macha_os.Paging.View.{view}
use macha_os.Paging.Whole.{IsSpace, in_range, behind}
use macha_os.Process.{Process, align_down, reserve}
use macha_os.Process.Load.{
  lowest, highest, segment_end, any_touching, page_flags, copy_segments, load_run, load_reserved,
  load_segments,
}
use macha_os.Process.Memory.{user_load, NewRun, Reserved, reserve-Reserved}
use macha_os.Process.Image.{image, HasRoom, Within, copy_segments-image, lowest_lem, highest_lem}
use macha_os.Process.Pages.{PagesLoaded, load_pages-PagesLoaded}

-- A program in memory: each byte is that of its image, behind entries that let ring 3 in, of which the last is
-- writable just if a writable segment touches the page, and marked no-execute just if no executable one does.
pub record InMemory (pml4 : ℕ) (segments : List Segment) (file : List ℕ) (p p' : Process)
    : Type 0 where
  pub start : ℕ
  pub len : ℕ
  pub phys : ℕ
  pub space : IsSpace pml4 p'.space
  pub mappings :
      p'.mappings
      ≡ p.mappings ++ record { vaddr = start; phys = phys; len = len; shm_id = none } ∷ []
  pub covered : All (Within start (start + len)) segments
  pub below : start + len ≤ identity_map_end
  pub loaded :
      (a : ℕ) → start ≤ a → a < start + len → user_load pml4 p' a ≡ some (image file segments 0 a)
  pub opens : (a : ℕ) → start ≤ a → a < start + len → ForRing3 p'.space.tables pml4 a
  pub allowed :
      (a : ℕ)
      → start ≤ a
      → a < start + len
      → (e : Entry) × (view p'.space.tables pml4 a ≡ some e)
        × (e.writable ≡ any_touching (λ s. s.writable) (align_down a) segments)
        × (e.no_execute ≡ not (any_touching (λ s. s.executable) (align_down a) segments))
  pub others :
      (w : ℕ)
      → w < 2 ^ 48
      → in_range start len w ≡ false
      → view p'.space.tables pml4 w ≡ view p.space.tables pml4 w

abbrev pub Loaded :
    ℕ → List Segment → List ℕ → Process → Result String (Unit {0}) × Process → Type 0
Loaded pml4 segments file p (err e, p') = IsSpace pml4 p'.space × (p'.mappings ≡ p.mappings)
Loaded pml4 segments file p (ok u, p') = InMemory pml4 segments file p p'

module _ (pml4 : ℕ) (segments : List Segment) (file : List ℕ) (p : Process) (start len : ℕ) where
  abbrev Spans : Type 0
  Spans =
      All (HasRoom (length file)) segments
      × All (Within start (start + len)) segments
      × (start + len ≤ identity_map_end)
      × (start % page_size ≡ 0)
      × (len % page_size ≡ 0)

  load_run-Loaded :
      (phys : ℕ) (q : Process)
      → Spans
      → NewRun pml4 len p phys q
      → Loaded pml4 segments file p
          (load_run pml4 segments file start len phys (record q { bytes = p.bytes }))
  unfolding load_run
  load_run-Loaded phys q (all, within, below, start_whole, len_whole) run = finish _ (
      load_pages-PagesLoaded pml4 segments (len / page_size) start phys
        (record q { bytes = p.bytes }) run.space start_whole (omega (arith, below)) run.fits)
    where
      whole : len / page_size * page_size ≡ len
      whole = omega (arith, len_whole)

      finish :
          (r : Bool × Process)
          → PagesLoaded pml4 (len / page_size) segments start phys (record q { bytes = p.bytes }) r
          → Loaded pml4 segments file p (
              if not r.0 then (err "failed to map segment", r.1) else (
                ok tt,
                record r.1 {
                  mappings =
                      r.1.mappings
                      ++ record { vaddr = start; phys = phys; len = len; shm_id = none } ∷ [];
                  bytes = copy_segments file phys start segments (write_zeros r.1.bytes phys len);
                },
              ))
      finish (false, s) l = (l.space, l.mappings ∙ run.mappings)
      finish (true, s) l = record {
        start = start;
        len = len;
        phys = phys;
        space = l.space;
        mappings =
            ap (λ ms. ms ++ record { vaddr = start; phys = phys; len = len; shm_id = none } ∷ [])
              (l.mappings ∙ run.mappings);
        covered = within;
        below = below;
        loaded = λ a lo hi.
            let e : Entry = behind start phys (page_flags segments (align_down a)) a in
            let place : e.addr + a % page_size ≡ phys + (a - start) =
              omega (arith, start_whole, lo) in
            let inside : (leb phys (phys + (a - start)) && ltb (phys + (a - start)) (phys + len))
                ≡ true =
              ground (arith, lo, hi) in
            let shows : view s.space.tables pml4 a ≡ some e = l.shown a refl (at a lo hi) in
            rw (user_load, shows)
              (ap
                  (λ x.
                    some (copy_segments file phys start segments (write_zeros s.bytes phys len) x))
                  place
                ∙ ap some (
                    copy_segments-image file phys start (start + len) segments
                      (write_zeros s.bytes phys len) a all within (omega (arith, run.fits, whole))
                      lo hi
                    ∙ ap (λ b. image file segments b a) (pick _ _ _ inside)));
        opens = λ a lo hi. l.opens a refl (at a lo hi);
        allowed = λ a lo hi. (_, l.shown a refl (at a lo hi), refl, refl);
        others = λ w small apart.
            let out : in_range start (len / page_size * page_size) w ≡ false =
              ground (arith, apart, whole) in
            l.others w small out ∙ ap (λ (t : Tables). view t pml4 w) run.tables;
      }
        where
          at :
              (a : ℕ)
              → start ≤ a
              → a < start + len
              → in_range start (len / page_size * page_size) a ≡ true
          at a lo hi = ground (arith, lo, hi, whole)

both :
    (start end : ℕ)
    → start ≤ end
    → (ss : List Segment) → All (λ s. start ≤ s.vaddr) ss
    → All (λ s. s.vaddr + s.memsz ≤ end) ss
    → All (Within start (start + (end - start))) ss
both start end le [] lower upper = tt
both start end le (s ∷ ss) lower upper =
    ((lower.0, omega (arith, le, upper.0)), both start end le ss lower.1 upper.1)

-- On tables that form a tree over a valid memory manager, for one or more segments below 4 GiB
-- whose bytes in the file lie in it and are no more than those in memory, a `load_segments` that
-- succeeds records one mapping, below 4 GiB, that has all segments in it: the byte behind each of
-- its addresses is that of the last segment with a file byte there, or else 0, the entries of all
-- four levels let ring 3 in there, and the last one is writable just if a writable segment touches
-- the page, and marked no-execute just if no executable one does; what the entries above it say of
-- writing and executing is not part of this. No other address leads to another entry. One that
-- fails records no mapping.
pub load_segments-Loaded :
    (pml4 : ℕ) (s : Segment) (ss : List Segment) (file : List ℕ) (p : Process)
    → All (HasRoom (length file)) (s ∷ ss)
    → IsSpace pml4 p.space
    → Loaded pml4 (s ∷ ss) file p (load_segments pml4 (s ∷ ss) file p)
unfolding load_segments load_reserved
load_segments-Loaded pml4 s ss file p all space =
    reserved (reserve len p) (reserve-Reserved pml4 len p space)
  where
    start : ℕ
    start = lowest (align_down s.vaddr) ss

    end : ℕ
    end = highest (segment_end s) ss

    len : ℕ
    len = end - start

    spans : Spans pml4 (s ∷ ss) file p start len
    spans =
        let (low, lower, low_whole) = lowest_lem (align_down s.vaddr) ss in
        let (high, upper, high_whole, top) = highest_lem (length file) (segment_end s) ss (all.1) in
        let first_end : s.vaddr + s.memsz ≤ segment_end s = omega (arith, all.0.below) in
        let between : start ≤ end = omega (arith, low, high, first_end) in
        let capped : end ≤ identity_map_end = top (omega (arith, all.0.below)) in
        let at_start : start % page_size ≡ 0 = low_whole (omega arith) in
        let at_end : end % page_size ≡ 0 = high_whole (omega arith) in
        (
          all,
          (
            (omega (arith, low), omega (arith, high, first_end, between)),
            both start end between ss lower upper,
          ),
          omega (arith, between, capped),
          at_start,
          omega (arith, at_start, at_end, between),
        )

    reserved :
        (r : Option ℕ × Process)
        → Reserved pml4 len p r
        → Loaded pml4
            (s ∷ ss)
            file
            p
            (load_reserved pml4 (s ∷ ss) file start len (r.0, record r.1 { bytes = p.bytes }))
    reserved (none, q) same =
        subst (λ (q : Process). IsSpace pml4 q.space × (q.mappings ≡ p.mappings)) (sym same)
          (space, refl)
    reserved (some phys, q) run = load_run-Loaded pml4 (s ∷ ss) file p start len phys q spans run
