-- ===== src/Process/Pages.antt =====
-- src/process.rs: the pages of a program that is being loaded.
use macha_os.Prelude.{
  ℕ, zero, suc, ◌+◌, ◌*◌, ◌%◌, ◌^◌, ◌<◌, ◌≤◌, ◌≡◌, refl, Bool, true, false, some, List, arith,
  add64, ◌-◌, ◌/◌, ap, ◌∙◌, inl, inr, leb, Bool-cases,
}
use macha_os.Elf.{Segment}
use macha_os.Paging.{PageTables, page_size, identity_map_end, entry_for}
use macha_os.Paging.Ring3.{ForRing3}
use macha_os.Paging.View.{view}
use macha_os.Paging.Whole.{IsSpace, MapsRange, in_range, behind, untouched, map_range_in-MapsRange}
use macha_os.Process.{Process, align_down, map_user}
use macha_os.Process.Load.{page_flags, load_pages}

-- The pages from `v` on, each with the flags of the segments that touch it.
pub record PagesLoaded (pml4 n : ℕ) (segments : List Segment) (v phys : ℕ) (p : Process)
    (r : Bool × Process) : Type 0 where
  pub space : IsSpace pml4 r.1.space
  pub bytes : r.1.bytes ≡ p.bytes
  pub mappings : r.1.mappings ≡ p.mappings
  pub shown :
      (w : ℕ)
      → r.0 ≡ true
      → in_range v (n * page_size) w ≡ true
      → view r.1.space.tables pml4 w ≡ some (behind v phys (page_flags segments (align_down w)) w)
  pub stays_open : (w : ℕ) → ForRing3 p.space.tables pml4 w → ForRing3 r.1.space.tables pml4 w
  pub opens :
      (w : ℕ) → r.0 ≡ true → in_range v (n * page_size) w ≡ true → ForRing3 r.1.space.tables pml4 w
  pub others :
      (w : ℕ)
      → w < 2 ^ 48
      → in_range v (n * page_size) w ≡ false
      → view r.1.space.tables pml4 w ≡ view p.space.tables pml4 w

module _ (pml4 : ℕ) (segments : List Segment) where
  pub load_pages-PagesLoaded :
      (n v phys : ℕ) (p : Process)
      → IsSpace pml4 p.space
      → v % page_size ≡ 0
      → v + n * page_size ≤ identity_map_end
      → phys + n * page_size < 2 ^ 64
      → PagesLoaded pml4 n segments v phys p (load_pages n pml4 segments v phys p)
  unfolding load_pages map_user
  load_pages-PagesLoaded zero v phys p space whole below fits = record {
    space = space;
    bytes = refl;
    mappings = refl;
    shown = λ w h at. absurd (ground (arith, at));
    stays_open = λ w o. o;
    opens = λ w h at. absurd (ground (arith, at));
    others = λ w small apart. refl;
  }
  load_pages-PagesLoaded (suc n) v phys p space whole below fits =
      next _
        (map_range_in-MapsRange pml4 v phys (page_flags segments v) page_size p.space space
          (omega (arith, fits)))
        (λ s h.
          load_pages-PagesLoaded n (add64 v page_size) (add64 phys page_size)
            (record p { space = s }) h (omega (arith, whole, below)) (omega (arith, below))
            (omega (arith, fits)))
    where
      stays : add64 v page_size ≡ v + page_size
      stays = omega (arith, below)

      after_le : {w : ℕ} → leb (v + page_size) w ≡ true → v + page_size ≤ w
      after_le h = ground (arith, h)

      next :
          (r : Bool × PageTables)
          → MapsRange pml4 v phys (page_flags segments v) page_size p.space r
          → ((s : PageTables)
              → IsSpace pml4 s
              → PagesLoaded pml4 n segments
                  (add64 v page_size)
                  (add64 phys page_size)
                  (record p { space = s })
                  (load_pages n pml4 segments
                    (add64 v page_size)
                    (add64 phys page_size)
                    (record p { space = s })))
          → PagesLoaded pml4 (suc n) segments v phys p (elim r.0 as (λ b. Bool × Process) [
            | false ↦ (false, record p { space = r.1 })
            | true ↦
                load_pages n pml4 segments
                  (add64 v page_size)
                  (add64 phys page_size)
                  (record p { space = r.1 })
          ])
      next (false, s) m rest = record {
        space = m.space;
        bytes = refl;
        mappings = refl;
        shown = λ w h at. absurd (cc);
        stays_open = m.stays_open;
        opens = λ w h at. absurd (cc);
        others = λ w small apart.
            let out : in_range v page_size w ≡ false = ground (arith, apart) in
            untouched pml4 v phys (page_flags segments v) page_size p.space _ m w small out;
      }
      next (true, s) m rest = joined _ (rest s m.space)
        where
          joined :
              (r : Bool × Process)
              → PagesLoaded pml4 n segments
                  (add64 v page_size)
                  (add64 phys page_size)
                  (record p { space = s })
                  r
              → PagesLoaded pml4 (suc n) segments v phys p r
          joined r l = record {
            space = l.space;
            bytes = l.bytes;
            mappings = l.mappings;
            shown = λ w done at. elim (Bool-cases (leb (v + page_size) w)) [
              | inl after ↦
                  let later : in_range (add64 v page_size) (n * page_size) w ≡ true =
                    ground (arith, after, at, stays) in
                  let place : add64 phys page_size + (w / page_size * page_size - add64 v page_size)
                      ≡ phys + (w / page_size * page_size - v) =
                    omega (arith, after_le after, stays, fits, whole) in
                  l.shown w done later
                  ∙ ap (λ a. some (entry_for a (page_flags segments (align_down w)))) place
              | inr first ↦
                  let here : in_range v page_size w ≡ true = ground (arith, first, at) in
                  let apart : in_range (add64 v page_size) (n * page_size) w ≡ false =
                    ground (arith, first, stays) in
                  let small : w < 2 ^ 48 = ground (arith, first, below) in
                  let page : v ≡ align_down w = ground (arith, here, whole) in
                  l.others w small apart
                  ∙ m.whole w small refl here
                  ∙ ap (λ a. some (behind v phys (page_flags segments a) w)) page
            ];
            stays_open = λ w o. l.stays_open w (m.stays_open w o);
            opens = λ w done at. elim (Bool-cases (leb (v + page_size) w)) [
              | inl after ↦ l.opens w done (ground (arith, after, at, stays))
              | inr first ↦ l.stays_open w (m.opens refl w refl (ground (arith, first, at)))
            ];
            others = λ w small apart.
                let out : in_range v page_size w ≡ false = ground (arith, apart) in
                let later : in_range (add64 v page_size) (n * page_size) w ≡ false =
                  ground (arith, apart, stays) in
                l.others w small later
                ∙ untouched pml4 v phys (page_flags segments v) page_size p.space _ m w small out;
          }
