-- ===== src/Paging/Whole.antt =====
-- src/paging.rs: mapping a range, by addresses, for those that use it.
use macha_os.Prelude.{
  ℕ, ◌+◌, ◌-◌, ◌*◌, ◌/◌, ◌%◌, ◌^◌, ◌<◌, ◌≤◌, ◌≡◌, refl, sym, ap, subst, ◌∙◌, Bool, true, false,
  ◌&&◌, ◌||◌, not, some, ◌⊎◌, inl, inr, arith, ltb, leb, ◌==◌, Bool-cases, pick, pass,
}
use macha_os.Pmm.Frames as PmmFrames
use macha_os.Paging.{
  Entry, Flags, PageTables, entry_for, identity_map_end, page_size, bad_range, map_range_in,
}
use macha_os.Paging.View.{view, Role, IsTree}
use macha_os.Paging.Ring3.{ForRing3}
use macha_os.Paging.Range.{Complete, in_pages, moved, Mapped, RangeMapped, map_range_in-RangeMapped}

-- Tables that are a tree, over well kept frames.
pub record IsSpace (pml4 : ℕ) (s : PageTables) : Type 0 where
  pub role : ℕ → Role
  pub tree : IsTree role pml4 s.tables s.pmm
  pub valid : PmmFrames.IsValid s.pmm

abbrev pub in_range : ℕ → ℕ → ℕ → Bool
in_range v len w = leb v w && ltb w (v + len)

-- The entry of the page of `w`, where `v` lies at `p`.
abbrev pub behind : ℕ → ℕ → Flags → ℕ → Entry
behind v p f w = entry_for (p + (w / page_size * page_size - v)) f

pub record MapsRange (pml4 v p : ℕ) (f : Flags) (len : ℕ) (s : PageTables) (r : Bool × PageTables)
    : Type 0 where
  pub space : IsSpace pml4 r.1
  pub aligned :
      r.0 ≡ true
      → (v % page_size ≡ 0)
        × (p % page_size ≡ 0)
        × (len % page_size ≡ 0)
        × (v + len ≤ identity_map_end)
  pub whole :
      (w : ℕ)
      → w < 2 ^ 48
      → r.0 ≡ true
      → in_range v len w ≡ true
      → view r.1.tables pml4 w ≡ some (behind v p f w)
  pub each :
      (w : ℕ)
      → w < 2 ^ 48
      → (view r.1.tables pml4 w ≡ view s.tables pml4 w)
        ⊎ ((in_range v len w ≡ true) × (view r.1.tables pml4 w ≡ some (behind v p f w)))
  pub stays_open : (w : ℕ) → ForRing3 s.tables pml4 w → ForRing3 r.1.tables pml4 w
  pub opens :
      f.user ≡ true → (w : ℕ) → r.0 ≡ true → in_range v len w ≡ true → ForRing3 r.1.tables pml4 w

module _ (pml4 v p : ℕ) (f : Flags) (len : ℕ) (s : PageTables) where
  refused : IsSpace pml4 s → MapsRange pml4 v p f len s (false, s)
  refused space = record {
    space = space;
    aligned = λ h. absurd (cc);
    whole = λ w h k at. absurd (cc);
    each = λ w h. inl refl;
    stays_open = λ w o. o;
    opens = λ user w h at. absurd (cc);
  }

  place : (w : ℕ) → v % page_size ≡ 0 → in_range v len w ≡ true → moved v p w f ≡ behind v p f w
  place w h at =
      ap (λ a. entry_for a f)
        (let lower : v ≤ w = ground (arith, at) in
          let same : p + (w / page_size - v / page_size) * page_size
              ≡ p + (w / page_size * page_size - v) =
            omega (arith, h, lower) in
          same)

  of_pages :
      (r : Bool × PageTables)
      → (bad_range v len || not (p % page_size == 0)) ≡ false
      → len ≡ len / page_size * page_size
      → Mapped pml4 v p f (len / page_size) s r
      → MapsRange pml4 v p f len s r
  of_pages r good len_whole m = record {
    space = record { role = m.role'; tree = m.tree; valid = m.valid };
    aligned = λ h. (virt_aligned, phys_aligned, omega (arith, len_whole), ends);
    whole = λ w h done at.
        let all = complete_all r.0 m.complete done in
        let inside : in_pages v m.count w ≡ true = within_pages w at all in
        m.shows w h ∙ pick _ _ _ inside ∙ ap some (place w virt_aligned at);
    each = λ w h. elim (Bool-cases (in_pages v m.count w)) [
      | inr apart ↦ inl (m.shows w h ∙ pass _ _ _ apart)
      | inl inside ↦
          let at : in_range v len w ≡ true = of_prefix w inside (at_most r.0 m.complete) in
          inr (at, m.shows w h ∙ pick _ _ _ inside ∙ ap some (place w virt_aligned at))
    ];
    stays_open = m.stays_open;
    opens = λ user w done at. m.opens user w (within_pages w at (complete_all r.0 m.complete done));
  }
    where
      virt_aligned : v % page_size ≡ 0
      virt_aligned = ground (arith, good)

      phys_aligned : p % page_size ≡ 0
      phys_aligned = ground (arith, good)

      ends : v + len ≤ identity_map_end
      ends = ground (arith, good)

      complete_all :
          (done : Bool)
          → Complete done m.count (len / page_size)
          → done ≡ true
          → m.count ≡ len / page_size
      complete_all true c h = c
      complete_all false c h = absurd (cc)

      at_most : (done : Bool) → Complete done m.count (len / page_size) → m.count ≤ len / page_size
      at_most true c = omega (arith, c)
      at_most false c = omega (arith, c)

      within_pages :
          (w : ℕ)
          → in_range v len w ≡ true
          → m.count ≡ len / page_size
          → in_pages v m.count w ≡ true
      within_pages w at all = ground (arith, at, all, len_whole, virt_aligned)

      of_prefix :
          (w : ℕ)
          → in_pages v m.count w ≡ true
          → m.count ≤ len / page_size
          → in_range v len w ≡ true
      of_prefix w inside most = ground (arith, inside, most, len_whole, virt_aligned)

  stops :
      (bad_range v len || not (p % page_size == 0)) ≡ true
      → map_range_in pml4 v p len f s ≡ (false, s)
  unfolding map_range_in
  stops bad = pick _ _ _ bad

  pub map_range_in-MapsRange :
      IsSpace pml4 s → p + len < 2 ^ 64 → MapsRange pml4 v p f len s (map_range_in pml4 v p len f s)
  map_range_in-MapsRange space fits =
      elim (Bool-cases (bad_range v len || not (p % page_size == 0))) [
        | inl bad ↦ subst (MapsRange pml4 v p f len s) (sym (stops bad)) (refused space)
        | inr good ↦
            go good
              (map_range_in-RangeMapped pml4 f space.role v p len s space.tree space.valid fits)
      ]
    where
      go :
          (bad_range v len || not (p % page_size == 0)) ≡ false
          → RangeMapped pml4 f v p len s (map_range_in pml4 v p len f s)
          → MapsRange pml4 v p f len s (map_range_in pml4 v p len f s)
      go good (inl (bad, same)) = absurd (cc)
      go good (inr (len_whole, m)) = of_pages _ good len_whole m

-- An address outside the range.
pub untouched :
    (pml4 v p : ℕ) (f : Flags) (len : ℕ) (s : PageTables) (r : Bool × PageTables)
    → MapsRange pml4 v p f len s r
    → (w : ℕ) → w < 2 ^ 48
    → in_range v len w ≡ false
    → view r.1.tables pml4 w ≡ view s.tables pml4 w
untouched pml4 v p f len s r m w small apart = from (m.each w small)
  where
    from :
        (view r.1.tables pml4 w ≡ view s.tables pml4 w)
          ⊎ ((in_range v len w ≡ true) × (view r.1.tables pml4 w ≡ some (behind v p f w)))
        → view r.1.tables pml4 w ≡ view s.tables pml4 w
    from (inl same) = same
    from (inr (at, _)) = absurd (cc)
