-- ===== src/Paging/Range.antt =====
-- src/paging.rs: mapping and unmapping a range, on the map from pages to entries that the processor reads.
use macha_os.Prelude.{
  ℕ, zero, suc, ◌+◌, ◌-◌, ◌*◌, ◌/◌, ◌^◌, ◌<◌, ◌≤◌, ◌≡◌, Bool, true, false, ◌&&◌, Option, some,
  arith, ltb, leb, if◌then◌else◌, refl, sym, ap, ◌∙◌, none, inl, inr, add64, ==_iff, Bool-cases,
  ◌%◌, ◌||◌, not, ◌⊎◌, ◌==◌, pick, pass, branch,
}
use macha_os.Pmm.Frames as PmmFrames
use macha_os.Paging.{
  identity_map_end, Entry, Flags, PageTables, entry_for, put, write_entry, pt_entry_in, map_pages,
  map_range_in, bad_range, pt_index, page_size,
}
use macha_os.Paging.View.{view, Role, IsTree}
use macha_os.Paging.Walk.{AtRoot, pt_entry_in-AtRoot}
use macha_os.Paging.Directory.{Walked}
use macha_os.Paging.Ring3.{
  ForRing3, Walked-ForRing3, written-ForRing3, opened-ForRing3, ForRing3-same_page,
}
use macha_os.Paging.Page.{same_page, view-written_page, written-IsTree}

-- The `n` pages from `v` on.
abbrev pub in_pages : ℕ → ℕ → ℕ → Bool
in_pages v n w = leb (v / page_size) (w / page_size) && ltb (w / page_size) (v / page_size + n)

-- What `w` shows when the pages from `v` on lie at `p`.
abbrev pub moved : ℕ → ℕ → ℕ → Flags → Entry
moved v p w f = entry_for (p + (w / page_size - v / page_size) * page_size) f

-- Whether all pages were reached.
abbrev pub Complete : Bool → ℕ → ℕ → Type 0
Complete true m n = m ≡ n
Complete false m n = m < n

-- The first `m` pages of the range are mapped, and no other page changed.
pub record Mapped (pml4 v p : ℕ) (f : Flags) (n : ℕ) (s : PageTables) (r : Bool × PageTables)
    : Type 0 where
  pub count : ℕ
  pub complete : Complete r.0 count n
  pub role' : ℕ → Role
  pub tree : IsTree role' pml4 r.1.tables r.1.pmm
  pub valid : PmmFrames.IsValid r.1.pmm
  pub shows :
      (w : ℕ)
      → w < 2 ^ 48
      → view r.1.tables pml4 w
        ≡ (if in_pages v count w then some (moved v p w f) else view s.tables pml4 w)
  pub stays_open : (w : ℕ) → ForRing3 s.tables pml4 w → ForRing3 r.1.tables pml4 w
  pub opens : f.user ≡ true → (w : ℕ) → in_pages v count w ≡ true → ForRing3 r.1.tables pml4 w

one_more-Complete : (done : Bool) (m n : ℕ) → Complete done m n → Complete done (suc m) (suc n)
one_more-Complete true m n h = ap suc h
one_more-Complete false m n h = omega arith

none_inside : (v w : ℕ) → ¬ (in_pages v 0 w ≡ true)
none_inside v w h = ground (arith, h)

first_or_later :
    (v m w : ℕ)
    → in_pages v (suc m) w ≡ true
    → (v / page_size ≡ w / page_size) ⊎ (in_pages (v + page_size) m w ≡ true)
first_or_later v m w h = elim (Bool-cases (same_page v w)) [
  | inl same ↦ inl ((==_iff _ _).0 same)
  | inr ne ↦ inr (ground (arith, h, ne))
]

module _ (pml4 : ℕ) (f : Flags) where
  stopped :
      (role : ℕ → Role) (v p n : ℕ) (s s' : PageTables)
      → IsTree role pml4 s.tables s.pmm
      → Walked role pml4 s s'
      → Mapped pml4 v p f (suc n) s (false, s')
  stopped role v p n s s' tree walk = record {
    count = 0;
    complete = omega arith;
    role' = walk.role';
    tree = walk.tree;
    valid = walk.valid;
    shows = λ w h. let none_in : in_pages v 0 w ≡ false = ground arith in rw none_in (walk.views w);
    stays_open = Walked-ForRing3 role pml4 s s' tree walk;
    opens = λ h w in_none. absurd (none_inside v w in_none);
  }

  shows_step :
      (v p m w : ℕ) (first rest before : Option Entry)
      → first ≡ (if same_page v w then some (entry_for p f) else before)
      → rest ≡ (
          if in_pages (v + page_size) m w
          then some (moved (v + page_size) (p + page_size) w f)
          else first)
      → rest ≡ (if in_pages v (suc m) w then some (moved v p w f) else before)
  shows_step v p m w first rest before h k = elim (Bool-cases (same_page v w)) [
    | inl same ↦
        let page : v / page_size ≡ w / page_size = (==_iff _ _).0 same in
        let out : in_pages (v + page_size) m w ≡ false = ground (arith, page) in
        let inside : in_pages v (suc m) w ≡ true = ground (arith, page) in
        let at : p ≡ p + (w / page_size - v / page_size) * page_size = omega (arith, page) in
        k
        ∙ pass _ _ _ out
        ∙ h
        ∙ pick _ _ _ same
        ∙ ap (λ a. some (entry_for a f)) at
        ∙ sym (pick _ _ _ inside)
    | inr ne ↦ elim (Bool-cases (in_pages (v + page_size) m w)) [
      | inl later ↦
          let inside : in_pages v (suc m) w ≡ true = ground arith in
          let at : p + page_size + (w / page_size - (v + page_size) / page_size) * page_size
              ≡ p + (w / page_size - v / page_size) * page_size =
            further later in
          k ∙ pick _ _ _ later ∙ ap (λ a. some (entry_for a f)) at ∙ sym (pick _ _ _ inside)
      | inr outside ↦
          let out : in_pages v (suc m) w ≡ false = ground arith in
          k ∙ pass _ _ _ outside ∙ h ∙ pass _ _ _ ne ∙ sym (pass _ _ _ out)
    ]
  ]
    where
      further :
          in_pages (v + page_size) m w ≡ true
          → p + page_size + (w / page_size - (v + page_size) / page_size) * page_size
            ≡ p + (w / page_size - v / page_size) * page_size
      further later =
          let lower : (v + page_size) / page_size ≤ w / page_size = ground arith in
          omega (arith, lower)

  map_pages-Mapped :
      (n : ℕ) (role : ℕ → Role) (v p : ℕ) (s : PageTables)
      → IsTree role pml4 s.tables s.pmm
      → PmmFrames.IsValid s.pmm
      → v + n * page_size ≤ 2 ^ 48
      → p + n * page_size < 2 ^ 64
      → Mapped pml4 v p f n s (map_pages n pml4 v p f s)
  unfolding map_pages
  map_pages-Mapped zero role v p s tree valid hv hp = record {
    count = 0;
    complete = refl;
    role' = role;
    tree = tree;
    valid = valid;
    shows = λ w h. let none_in : in_pages v 0 w ≡ false = ground arith in rw none_in refl;
    stays_open = λ w o. o;
    opens = λ h w in_none. absurd (none_inside v w in_none);
  }
  map_pages-Mapped (suc n) role v p s tree valid hv hp =
      reached (pt_entry_in true pml4 v f s) (pt_entry_in-AtRoot role pml4 true f v s tree valid)
        (λ role' s' tree' valid'.
          map_pages-Mapped n role' (v + page_size) (add64 p page_size) s' tree' valid' (omega arith)
            (omega arith))
    where
      reached :
          (r : Option ℕ × PageTables)
          → AtRoot role pml4 true f v s r
          → ((role' : ℕ → Role) (s' : PageTables)
              → IsTree role' pml4 s'.tables s'.pmm
              → PmmFrames.IsValid s'.pmm
              → Mapped pml4
                  (v + page_size)
                  (add64 p page_size)
                  f
                  n
                  s'
                  (map_pages n pml4 (v + page_size) (add64 p page_size) f s'))
          → Mapped pml4 v p f (suc n) s (elim r.0 as (λ o. Bool × PageTables) [
            | none ↦ (false, r.1)
            | some table ↦
                map_pages n pml4
                  (v + page_size)
                  (add64 p page_size)
                  f
                  (write_entry table (pt_index v) (entry_for p f) r.1)
          ])
      reached (none, s') (walk, to, ring) next = stopped role v p n s s' tree walk
      reached (some b, s') (walk, to, ring) next =
          let m =
            next walk.role' (write_entry b (pt_index v) (entry_for p f) s')
              (written-IsTree walk.role' pml4 s'.tables s'.pmm walk.tree v b to (entry_for p f))
              walk.valid in
          let keeps =
            written-ForRing3 walk.role' pml4 s'.tables s'.pmm walk.tree v b to (entry_for p f) in
          one_more _ m (λ w o. keeps w (Walked-ForRing3 role pml4 s s' tree walk w o))
            (λ user. keeps v (opened-ForRing3 f s'.tables pml4 v b to ring user))
            (λ w h.
              view-written_page walk.role' pml4 s'.tables s'.pmm walk.tree v b to (entry_for p f) w
                (omega arith) h
              ∙ ap (λ o. if same_page v w then some (entry_for p f) else o) (walk.views w))
        where
          one_more :
              (r : Bool × PageTables)
              → (m : Mapped pml4
                  (v + page_size)
                  (add64 p page_size)
                  f
                  n
                  (write_entry b (pt_index v) (entry_for p f) s')
                  r)
              → ((w : ℕ)
                  → ForRing3 s.tables pml4 w
                  → ForRing3 (put s'.tables b (pt_index v) (entry_for p f)) pml4 w)
              → (f.user ≡ true → ForRing3 (put s'.tables b (pt_index v) (entry_for p f)) pml4 v)
              → ((w : ℕ)
                  → w < 2 ^ 48
                  → view (put s'.tables b (pt_index v) (entry_for p f)) pml4 w
                    ≡ (if same_page v w then some (entry_for p f) else view s.tables pml4 w))
              → Mapped pml4 v p f (suc n) s r
          one_more r m stays first here =
              let wraps : add64 p page_size ≡ p + page_size = omega arith in
              record {
                count = suc m.count;
                complete = one_more-Complete r.0 m.count n m.complete;
                role' = m.role';
                tree = m.tree;
                valid = m.valid;
                shows = λ w h. shows_step v p m.count w _ _ (view s.tables pml4 w) (here w h) (
                    m.shows w h
                    ∙ ap
                        (λ q.
                          if in_pages (v + page_size) m.count w
                          then some (moved (v + page_size) q w f)
                          else view (put s'.tables b (pt_index v) (entry_for p f)) pml4 w)
                        wraps);
                stays_open = λ w o. m.stays_open w (stays w o);
                opens = λ user w inside. elim (first_or_later v m.count w inside) [
                  | inl same ↦ m.stays_open w (
                      ForRing3-same_page (put s'.tables b (pt_index v) (entry_for p f)) pml4 v w
                        same (first user))
                  | inr later ↦ m.opens user w later
                ];
              }

  -- Nothing is seen of a refused range.
  abbrev pub RangeMapped : ℕ → ℕ → ℕ → PageTables → Bool × PageTables → Type 0
  RangeMapped v p len s r =
      (((bad_range v len || not (p % page_size == 0)) ≡ true) × (r ≡ (false, s)))
      ⊎ ((len ≡ len / page_size * page_size) × Mapped pml4 v p f (len / page_size) s r)

  -- On tables that form a tree over a valid memory manager, for a range whose physical end is
  -- below 2 ^ 64, `map_range_in` either refuses the range and changes nothing, which it does only
  -- if the range or the physical address is not page-aligned, or the range is empty or ends above
  -- 4 GiB; or it maps the first pages of the range, all of them if it reports success and fewer
  -- otherwise: each of these pages then leads to its entry, through entries that are for ring 3
  -- if the flags are, every other address below 2 ^ 48 leads to the last entry it led to before,
  -- and the tables form a tree over a valid memory manager again.
  pub map_range_in-RangeMapped :
      (role : ℕ → Role) (v p len : ℕ) (s : PageTables)
      → IsTree role pml4 s.tables s.pmm
      → PmmFrames.IsValid s.pmm
      → p + len < 2 ^ 64
      → RangeMapped v p len s (map_range_in pml4 v p len f s)
  unfolding map_range_in
  map_range_in-RangeMapped role v p len s tree valid hp =
      branch (RangeMapped v p len s) (bad_range v len || not (p % page_size == 0)) _ _
        (λ bad. inl (bad, refl))
        (λ good.
          let whole : len % page_size ≡ 0 = ground (arith, good) in
          let inside : v + len ≤ identity_map_end = ground (arith, good) in
          inr (
            omega (arith, whole),
            map_pages-Mapped (len / page_size) role v p s tree valid (omega arith) (omega arith),
          ))
