-- ===== src/Paging/Single.antt =====
-- src/paging.rs: mapping and unmapping one page of the kernel's own tables.
use macha_os.Prelude.{
  ℕ, ◌%◌, ◌^◌, ◌<◌, ◌≡◌, refl, ap, ◌∙◌, Bool, true, false, ◌&&◌, ◌||◌, not, Option, none, some,
  arith, leb, ◌==◌, if◌then◌else◌, branch,
}
use macha_os.Pmm.Frames as PmmFrames
use macha_os.Paging.{
  Entry, Flags, PageTables, entry_for, empty_entry, identity_map_end, page_size, map_page,
  unmap_page, write_found,
}
use macha_os.Paging.View.{view, view_pte, Role, IsTree}
use macha_os.Paging.Walk.{AtRoot, pt_entry_in-AtRoot}
use macha_os.Paging.Page.{same_page, view-written_page, written-IsTree}

-- On success one page shows the entry, on failure no page changes; the tables stay a tree either way.
pub record Written (pml4 v : ℕ) (e : Option Entry) (s : PageTables) (r : Bool × PageTables)
    : Type 0 where
  pub role' : ℕ → Role
  pub tree : IsTree role' pml4 r.1.tables r.1.pmm
  pub valid : PmmFrames.IsValid r.1.pmm
  pub shows :
      (w : ℕ)
      → w < 2 ^ 48
      → view r.1.tables pml4 w ≡ (if r.0 && same_page v w then e else view s.tables pml4 w)

module _ (role : ℕ → Role) (pml4 v : ℕ) (f : Flags) (s : PageTables) where
  write_found-Written :
      (track : Bool) (e : Entry) (r : Option ℕ × PageTables)
      → v < 2 ^ 48
      → AtRoot role pml4 track f v s r
      → Written pml4 v (view_pte e) s (write_found e v r)
  write_found-Written track e (none, s') hv (walk, to, ring) = record {
    role' = walk.role';
    tree = walk.tree;
    valid = walk.valid;
    shows = λ w h. walk.views w;
  }
  write_found-Written track e (some b, s') hv (walk, to, ring) = record {
    role' = walk.role';
    tree = written-IsTree walk.role' pml4 s'.tables s'.pmm walk.tree v b to e;
    valid = walk.valid;
    shows = λ w h.
        view-written_page walk.role' pml4 s'.tables s'.pmm walk.tree v b to e w hv h
        ∙ ap (λ o. if same_page v w then view_pte e else o) (walk.views w);
  }

  unchanged :
      (e : Option Entry)
      → IsTree role pml4 s.tables s.pmm
      → PmmFrames.IsValid s.pmm
      → Written pml4 v e s (false, s)
  unchanged e tree valid = record { role' = role; tree = tree; valid = valid; shows = λ w h. refl }

-- Mapping one page of the kernel changes that page or none.
pub map_page-Written :
    (role : ℕ → Role) (pml4 v p : ℕ) (f : Flags) (s : PageTables)
    → IsTree role pml4 s.tables s.pmm
    → PmmFrames.IsValid s.pmm
    → Written pml4 v (some (entry_for p f)) s (map_page pml4 v p f s)
unfolding map_page
map_page-Written role pml4 v p f s tree valid =
    branch (Written pml4 v (some (entry_for p f)) s)
      (leb identity_map_end v
        || leb identity_map_end p
        || not (v % page_size == 0)
        || not (p % page_size == 0))
      _ _ (λ bad. unchanged role pml4 v f s _ tree valid)
      (λ good.
        let low : v < 2 ^ 48 = ground (arith, good) in
        write_found-Written role pml4 v f s false (entry_for p f) _ low
          (pt_entry_in-AtRoot role pml4 false f v s tree valid))

-- Unmapping one page of the kernel changes that page or none.
pub unmap_page-Written :
    (role : ℕ → Role) (pml4 v : ℕ) (s : PageTables)
    → IsTree role pml4 s.tables s.pmm
    → PmmFrames.IsValid s.pmm
    → Written pml4 v none s (unmap_page pml4 v s)
unfolding unmap_page
unmap_page-Written role pml4 v s tree valid =
    branch (Written pml4 v none s) (leb identity_map_end v || not (v % page_size == 0)) _ _
      (λ bad.
        unchanged role pml4 v (record { writable = true; user = false; no_execute = false }) s _
          tree valid)
      (λ good.
        let low : v < 2 ^ 48 = ground (arith, good) in
        write_found-Written role pml4 v
          (record { writable = true; user = false; no_execute = false }) s false empty_entry _ low
          (pt_entry_in-AtRoot role pml4 false _ v s tree valid))
