-- ===== src/Paging/Walk.antt =====
-- src/paging.rs: the walk to the entry of a page, which changes nothing that the processor reads.
use macha_os.Prelude.{
  ℕ, ◌≡◌, Bool, true, false, Option, none, some, sym, ap, ◌∙◌, subst, ◌||◌, not, branch,
}
use macha_os.Pmm.Frames as PmmFrames
use macha_os.Paging.{
  Entry, Flags, Tables, PageTables, promote, table_below, pt_entry_in, pml4_index, pdpt_index,
  pd_index,
}
use macha_os.Paging.View.{Role, root, pdpt, IsTree, IsTree-Follows, promote-Follows, Promotable}
use macha_os.Paging.Directory.{
  Upper, Walked, HasTable, both_false, not-false, stay, promoted, table_in-AtEntry, promote-user,
}

-- After a step that keeps the roles, what follows counts from before it.
after :
    (role : ℕ → Role) (pml4 : ℕ) (s s1 s' : PageTables)
    → Walked role pml4 s s1
    → Walked role pml4 s1 s'
    → Walked role pml4 s s'
after role pml4 s s1 s' a b = record {
  role' = b.role';
  tree = b.tree;
  valid = b.valid;
  views = λ v. b.views v ∙ a.views v;
  upper = λ c x u.
      let y = a.upper c x u in
      let z = b.upper c x u in (z.0 ∙ y.0, z.1 ∙ y.1, z.2 ∙ y.2, λ h. z.3 (y.3 h));
  opens = λ c x i j is o. b.opens c x i j is (a.opens c x i j is o);
}

-- From an entry of each level the tables lead to this one, for `v`.
abbrev pub LeadsPdpte : Tables → Entry → ℕ → Option ℕ → Type 0
LeadsPdpte t e v none = Unit {0}
LeadsPdpte t e v (some b) =
    (e.present ≡ true)
    × (e.large ≡ false)
    × ((t e.addr (pd_index v)).present ≡ true)
    × ((t e.addr (pd_index v)).large ≡ false)
    × ((t e.addr (pd_index v)).addr ≡ b)

abbrev pub LeadsRoot : Tables → ℕ → ℕ → Option ℕ → Type 0
LeadsRoot t pml4 v none = Unit {0}
LeadsRoot t pml4 v (some b) =
    ((t pml4 (pml4_index v)).present ≡ true)
    × LeadsPdpte t (t (t pml4 (pml4_index v)).addr (pdpt_index v)) v (some b)

-- If the page is for ring 3, so is each entry on the way to its table.
abbrev pub Ring3Pdpte : Flags → Tables → Entry → ℕ → Option ℕ → Type 0
Ring3Pdpte f t e v none = Unit {0}
Ring3Pdpte f t e v (some b) =
    (f.user ≡ true → e.user ≡ true) × (f.user ≡ true → (t e.addr (pd_index v)).user ≡ true)

abbrev pub Ring3 : Flags → Tables → ℕ → ℕ → Option ℕ → Type 0
Ring3 f t pml4 v none = Unit {0}
Ring3 f t pml4 v (some b) =
    (f.user ≡ true → (t pml4 (pml4_index v)).user ≡ true)
    × Ring3Pdpte f t (t (t pml4 (pml4_index v)).addr (pdpt_index v)) v (some b)

module _ (role : ℕ → Role) (pml4 : ℕ) (track : Bool) (f : Flags) (v : ℕ) where
  abbrev AtPdpt : ℕ → PageTables → Option ℕ × PageTables → Type 0
  AtPdpt base s (o, s') =
      Walked role pml4 s s'
      × LeadsPdpte s'.tables (s'.tables base (pdpt_index v)) v o
      × Ring3Pdpte f s'.tables (s'.tables base (pdpt_index v)) v o

  Upper-of : (base i : ℕ) (r : Role) → role base ≡ r → Upper r → Upper (role base)
  Upper-of base i r at u = subst Upper (sym at) u

  finish_pdpt :
      (s : PageTables) (base i : ℕ) (o : Option ℕ) (s' : PageTables)
      → role base ≡ pdpt i
      → (s.tables base (pdpt_index v)).present ≡ true
      → (s.tables base (pdpt_index v)).large ≡ false
      → Walked role pml4 s s'
      → HasTable f (s'.tables (s.tables base (pdpt_index v)).addr (pd_index v)) o
      → LeadsPdpte s'.tables (s'.tables base (pdpt_index v)) v o
  finish_pdpt s base i none s' at here small w has = tt
  finish_pdpt s base i (some b) s' at here small w has =
      let line = w.upper base (pdpt_index v) (Upper-of base (pdpt_index v) (pdpt i) at tt) in
      let below = ap (λ n. s'.tables n (pd_index v)) line.0 in
      (
        line.1 ∙ here,
        line.2 ∙ small,
        ap (λ (e : Entry). e.present) below ∙ has.0,
        ap (λ (e : Entry). e.large) below ∙ has.1,
        ap (λ (e : Entry). e.addr) below ∙ has.2,
      )

  opened_below :
      (s s1 : PageTables) (base i : ℕ) (o : Option ℕ) (s' : PageTables)
      → role base ≡ pdpt i
      → Walked role pml4 s1 s'
      → Walked role pml4 s s'
      → (f.user ≡ true → (s1.tables base (pdpt_index v)).user ≡ true)
      → HasTable f (s'.tables (s.tables base (pdpt_index v)).addr (pd_index v)) o
      → Ring3Pdpte f s'.tables (s'.tables base (pdpt_index v)) v o
  opened_below s s1 base i none s' at w1 w up has = tt
  opened_below s s1 base i (some b) s' at w1 w up has =
      let here = Upper-of base (pdpt_index v) (pdpt i) at tt in
      let below = ap (λ n. s'.tables n (pd_index v)) ((w.upper base (pdpt_index v) here).0) in
      (
        λ h. (w1.upper base (pdpt_index v) here).3 (up h),
        λ h. ap (λ (e : Entry). e.user) below ∙ has.3 h,
      )

  table_below-AtPdpt :
      (s : PageTables) (base i : ℕ)
      → IsTree role pml4 s.tables s.pmm
      → PmmFrames.IsValid s.pmm
      → role base ≡ pdpt i
      → AtPdpt base s (table_below track f base v s)
  unfolding table_below
  table_below-AtPdpt s base i tree valid at =
      branch (AtPdpt base s)
        (not (s.tables base (pdpt_index v)).present || (s.tables base (pdpt_index v)).large) _ _
        (λ stop. (stay role pml4 s tree valid, tt, tt))
        (λ go.
          let both =
            both_false (s.tables base (pdpt_index v)).present (s.tables base (pdpt_index v)).large
              go in
          let t1 = promote f base (pdpt_index v) s.tables in
          let can = subst (λ r. Promotable r (s.tables base (pdpt_index v))) (sym at) tt in
          let same = promote-Follows role f base (pdpt_index v) s.tables can in
          let tree1 = IsTree-Follows role pml4 s.tables t1 s.pmm 0 tree same in
          let down = tree.at_pd base i (pdpt_index v) at both.0 both.1 in
          let r =
            table_in-AtEntry role pml4 (record s { tables = t1 }) tree1 valid
              (s.tables base (pdpt_index v)).addr i (pdpt_index v) (pd_index v) down track f in
          let w =
            after role pml4 s (record s { tables = t1 }) _
              (promoted role pml4 s tree valid f base (pdpt_index v) can) r.0 in
          (
            w,
            finish_pdpt s base i _ _ at both.0 both.1 w r.1,
            opened_below s (record s { tables = t1 }) base i _ _ at r.0 w
                (promote-user f base (pdpt_index v) s.tables) r.1,
          ))

  finish_root :
      (s : PageTables) (o : Option ℕ) (s' : PageTables)
      → role pml4 ≡ root
      → (s.tables pml4 (pml4_index v)).present ≡ true
      → Walked role pml4 s s'
      → LeadsPdpte s'.tables (s'.tables (s.tables pml4 (pml4_index v)).addr (pdpt_index v)) v o
      → LeadsRoot s'.tables pml4 v o
  finish_root s none s' at here w has = tt
  finish_root s (some b) s' at here w has =
      let line = w.upper pml4 (pml4_index v) (Upper-of pml4 (pml4_index v) root at tt) in
      (
        line.1 ∙ here,
        subst (λ n. LeadsPdpte s'.tables (s'.tables n (pdpt_index v)) v (some b)) (sym line.0) has,
      )

  opened_top :
      (s s1 : PageTables) (o : Option ℕ) (s' : PageTables)
      → role pml4 ≡ root
      → Walked role pml4 s1 s'
      → Walked role pml4 s s'
      → (f.user ≡ true → (s1.tables pml4 (pml4_index v)).user ≡ true)
      → Ring3Pdpte f s'.tables (s'.tables (s.tables pml4 (pml4_index v)).addr (pdpt_index v)) v o
      → Ring3 f s'.tables pml4 v o
  opened_top s s1 none s' at w1 w up has = tt
  opened_top s s1 (some b) s' at w1 w up has =
      let here = Upper-of pml4 (pml4_index v) root at tt in
      let line = (w.upper pml4 (pml4_index v) here).0 in
      (
        λ h. (w1.upper pml4 (pml4_index v) here).3 (up h),
        subst (λ n. Ring3Pdpte f s'.tables (s'.tables n (pdpt_index v)) v (some b)) (sym line) has,
      )

  abbrev pub AtRoot : PageTables → Option ℕ × PageTables → Type 0
  AtRoot s (o, s') =
      Walked role pml4 s s' × LeadsRoot s'.tables pml4 v o × Ring3 f s'.tables pml4 v o

  -- The walk changes nothing that the processor reads, and ends at the table it says.
  pub pt_entry_in-AtRoot :
      (s : PageTables)
      → IsTree role pml4 s.tables s.pmm
      → PmmFrames.IsValid s.pmm
      → AtRoot s (pt_entry_in track pml4 v f s)
  unfolding pt_entry_in
  pt_entry_in-AtRoot s tree valid =
      branch (AtRoot s) (not (s.tables pml4 (pml4_index v)).present) _ _
        (λ stop. (stay role pml4 s tree valid, tt, tt))
        (λ go.
          let here = not-false (s.tables pml4 (pml4_index v)).present go in
          let t1 = promote f pml4 (pml4_index v) s.tables in
          let can =
            subst (λ r. Promotable r (s.tables pml4 (pml4_index v))) (sym tree.at_root) tt in
          let same = promote-Follows role f pml4 (pml4_index v) s.tables can in
          let tree1 = IsTree-Follows role pml4 s.tables t1 s.pmm 0 tree same in
          let r =
            table_below-AtPdpt (record s { tables = t1 }) (s.tables pml4 (pml4_index v)).addr
              (pml4_index v) tree1 valid (tree.at_pdpt (pml4_index v) here) in
          let w =
            after role pml4 s (record s { tables = t1 }) _
              (promoted role pml4 s tree valid f pml4 (pml4_index v) can) r.0 in
          (
            w,
            finish_root s _ _ tree.at_root here w r.1,
            opened_top s (record s { tables = t1 }) _ _ tree.at_root r.0 w
                (promote-user f pml4 (pml4_index v) s.tables) r.2,
          ))
