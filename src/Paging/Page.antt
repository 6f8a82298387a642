-- ===== src/Paging/Page.antt =====
-- src/paging.rs: one entry of a table is one page of the map that the processor reads.
use macha_os.Prelude.{
  ℕ, ◌/◌, ◌≡◌, refl, Bool, true, false, some, arith, ◌==◌, if◌then◌else◌, ◌^◌, ◌<◌, ◌≢◌, sym, ap,
  ◌∙◌, inl, inr, ==_iff, Bool-cases, pick, pass, if-eq,
}
use macha_os.Pmm.{Pmm}
use macha_os.Paging.{Entry, Tables, put, pml4_index, pdpt_index, pd_index, pt_index, page_size}
use macha_os.Paging.View.{
  view_pte, view_pde, view_pdpte, view_pml4e, view, Role, root, pdpt, pd, pt, IsTree,
}
use macha_os.Paging.Walk.{LeadsRoot}

-- Addresses of one page.
abbrev pub same_page : ℕ → ℕ → Bool
same_page v w = v / page_size == w / page_size

view-same_page :
    (t : Tables) (pml4 v w : ℕ) → v / page_size ≡ w / page_size → view t pml4 w ≡ view t pml4 v
unfolding view
view-same_page t pml4 v w same =
    let i1 : pt_index w ≡ pt_index v = omega (arith, same) in
    let i2 : pd_index w ≡ pd_index v = omega (arith, same) in
    let i3 : pdpt_index w ≡ pdpt_index v = omega (arith, same) in
    let i4 : pml4_index w ≡ pml4_index v = omega (arith, same) in rw (i1, i2, i3, i4) refl

module _ (role : ℕ → Role) (pml4 : ℕ) (t : Tables) (p : Pmm) (tree : IsTree role pml4 t p) (v b : ℕ)
    (to : LeadsRoot t pml4 v (some b)) (e : Entry) where
  abbrev pub written : Tables
  written = put t b (pt_index v) e

  abbrev here_role : Role
  here_role = pt (pml4_index v) (pdpt_index v) (pd_index v)

  abbrev base3 : ℕ
  base3 = (t pml4 (pml4_index v)).addr

  abbrev base2 : ℕ
  base2 = (t base3 (pdpt_index v)).addr

  role3 : role base3 ≡ pdpt (pml4_index v)
  role3 = tree.at_pdpt (pml4_index v) to.0

  role2 : role base2 ≡ pd (pml4_index v) (pdpt_index v)
  role2 = tree.at_pd base3 (pml4_index v) (pdpt_index v) role3 to.1.0 to.1.1

  role1 : role b ≡ here_role
  role1 =
      ap role (sym (to.1.4))
      ∙ tree.at_pt base2 (pml4_index v) (pdpt_index v) (pd_index v) role2 to.1.2 to.1.3

  not_here : (c : ℕ) (r : Role) → role c ≡ r → r ≢ here_role → (c == b) ≡ false
  not_here c r is apart = elim (Bool-cases (c == b)) [
    | inl same ↦ absurd (apart (sym is ∙ ap role ((==_iff _ _).0 same) ∙ role1))
    | inr ne ↦ ne
  ]

  pub elsewhere : (c y : ℕ) (r : Role) → role c ≡ r → r ≢ here_role → written c y ≡ t c y
  elsewhere c y r is apart = rw (not_here c r is apart) refl

  -- The page itself.
  view-written : view written pml4 v ≡ view_pte e
  unfolding view
  view-written =
      ap (λ (x : Entry). view_pml4e written x v)
        (elsewhere pml4 (pml4_index v) root tree.at_root (cc))
      ∙ pick _ _ _ to.0
      ∙ ap (λ (x : Entry). view_pdpte written x v)
          (elsewhere base3 (pdpt_index v) (pdpt (pml4_index v)) role3 (cc))
      ∙ pick _ _ _ to.1.0
      ∙ pass _ _ _ to.1.1
      ∙ ap (λ (x : Entry). view_pde written x v)
          (elsewhere base2 (pd_index v) (pd (pml4_index v) (pdpt_index v)) role2 (cc))
      ∙ pick _ _ _ to.1.2
      ∙ pass _ _ _ to.1.3
      ∙ ap (λ n. view_pte (written n (pt_index v))) (to.1.4)
      ∙ ap view_pte at_self
    where
      at_self : written b (pt_index v) ≡ e
      at_self =
          let hb : (b == b) ≡ true = (==_iff _ _).1 refl in
          let hk : (pt_index v == pt_index v) ≡ true = (==_iff _ _).1 refl in rw (hb, hk) refl

  -- Another page.
  module _ (w : ℕ)
      (apart : ¬ (
        (pml4_index w ≡ pml4_index v)
        × (pdpt_index w ≡ pdpt_index v)
        × (pd_index w ≡ pd_index v)
        × (pt_index w ≡ pt_index v))) where
    pte_other :
        (c : ℕ)
        → role c ≡ pt (pml4_index w) (pdpt_index w) (pd_index w)
        → written c (pt_index w) ≡ t c (pt_index w)
    pte_other c is = elim (Bool-cases (c == b)) [
      | inr ne ↦ rw ne refl
      | inl same ↦ elim (Bool-cases (pt_index w == pt_index v)) [
        | inr ne ↦ rw (same, ne) refl
        | inl eq ↦
            let places : pt (pml4_index w) (pdpt_index w) (pd_index w) ≡ here_role =
              sym is ∙ ap role ((==_iff _ _).0 same) ∙ role1 in
            absurd (apart (first places, second places, third places, (==_iff _ _).0 eq))
      ]
    ]
      where
        first : {i j k x y z : ℕ} → pt i j k ≡ pt x y z → i ≡ x
        first h = cc

        second : {i j k x y z : ℕ} → pt i j k ≡ pt x y z → j ≡ y
        second h = cc

        third : {i j k x y z : ℕ} → pt i j k ≡ pt x y z → k ≡ z
        third h = cc

    view-written_other : view written pml4 w ≡ view t pml4 w
    unfolding view
    view-written_other =
        let i4 : ℕ = pml4_index w in
        let i3 : ℕ = pdpt_index w in
        let i2 : ℕ = pd_index w in
        let e4 : Entry = t pml4 i4 in
        let e3 : Entry = t e4.addr i3 in
        let e2 : Entry = t e3.addr i2 in
        ap (λ (x : Entry). view_pml4e written x w) (elsewhere pml4 i4 root tree.at_root (cc))
        ∙ if-eq e4.present e4.present _ _ _ _ refl
            (λ h4.
              let r3 = tree.at_pdpt i4 h4 in
              ap (λ (x : Entry). view_pdpte written x w) (elsewhere e4.addr i3 (pdpt i4) r3 (cc))
              ∙ if-eq e3.present e3.present _ _ _ _ refl
                  (λ h3.
                    if-eq e3.large e3.large _ _ _ _ refl (λ big. refl)
                      (λ small3.
                        let r2 = tree.at_pd e4.addr i4 i3 r3 h3 small3 in
                        ap (λ (x : Entry). view_pde written x w)
                          (elsewhere e3.addr i2 (pd i4 i3) r2 (cc))
                        ∙ if-eq e2.present e2.present _ _ _ _ refl
                            (λ h2.
                              if-eq e2.large e2.large _ _ _ _ refl (λ big. refl)
                                (λ small2.
                                  ap view_pte
                                    (pte_other e2.addr (tree.at_pt e3.addr i4 i3 i2 r2 h2 small2))))
                            (λ absent. refl)))
                  (λ absent. refl))
            (λ absent. refl)

  pub written-IsTree : IsTree role pml4 written p
  written-IsTree = record {
    at_root = tree.at_root;
    at_pdpt = λ i here.
        let same = elsewhere pml4 i root tree.at_root (cc) in
        ap (λ (x : Entry). role x.addr) same
        ∙ tree.at_pdpt i (sym (ap (λ (x : Entry). x.present) same) ∙ here);
    at_pd = λ c i j is here small.
        let same = elsewhere c j (pdpt i) is (cc) in
        ap (λ (x : Entry). role x.addr) same
        ∙ tree.at_pd c i j is (sym (ap (λ (x : Entry). x.present) same) ∙ here)
            (sym (ap (λ (x : Entry). x.large) same) ∙ small);
    at_pt = λ c i j k is here small.
        let same = elsewhere c k (pd i j) is (cc) in
        ap (λ (x : Entry). role x.addr) same
        ∙ tree.at_pt c i j k is (sym (ap (λ (x : Entry). x.present) same) ∙ here)
            (sym (ap (λ (x : Entry). x.large) same) ∙ small);
    unused = tree.unused;
  }

  -- One entry of a table is one page of the map.
  pub view-written_page :
      (w : ℕ)
      → v < 2 ^ 48
      → w < 2 ^ 48
      → view written pml4 w ≡ (if same_page v w then view_pte e else view t pml4 w)
  view-written_page w hv hw = elim (Bool-cases (same_page v w)) [
    | inl same ↦ rw same (view-same_page written pml4 v w ((==_iff _ _).0 same) ∙ view-written)
    | inr ne ↦ rw ne (view-written_other w (λ h. ground (arith, ne, h)))
  ]
