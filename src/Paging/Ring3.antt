-- ===== src/Paging/Ring3.antt =====
-- src/paging.rs: the entries above the last one, which let ring 3 through to a page that is mapped for it.
use macha_os.Prelude.{ℕ, ◌≡◌, sym, subst, true, false, some, arith, ◌/◌, ◌∙◌}
use macha_os.Pmm.{Pmm}
use macha_os.Paging.{Entry, Flags, Tables, PageTables, pml4_index, pdpt_index, pd_index, page_size}
use macha_os.Paging.View.{Role, root, pdpt, pd, IsTree}
use macha_os.Paging.Directory.{Open, Upper, Walked}
use macha_os.Paging.Walk.{LeadsRoot, Ring3}
use macha_os.Paging.Page.{written, elsewhere}

-- Each entry on the way to the last one of the address is there, and is for ring 3.
abbrev pub OpenPdpte : Tables → Entry → ℕ → Type 0
OpenPdpte t e w = Open e × (e.large ≡ false) × Open (t e.addr (pd_index w))

abbrev pub ForRing3 : Tables → ℕ → ℕ → Type 0
ForRing3 t pml4 w =
    Open (t pml4 (pml4_index w)) × OpenPdpte t (t (t pml4 (pml4_index w)).addr (pdpt_index w)) w

pub ForRing3-same_page :
    (t : Tables) (pml4 v w : ℕ)
    → v / page_size ≡ w / page_size
    → ForRing3 t pml4 v
    → ForRing3 t pml4 w
ForRing3-same_page t pml4 v w same o =
    let i2 : pd_index w ≡ pd_index v = omega (arith, same) in
    let i3 : pdpt_index w ≡ pdpt_index v = omega (arith, same) in
    let i4 : pml4_index w ≡ pml4_index v = omega (arith, same) in rw (i2, i3, i4) o

-- The walk keeps what is for ring 3 so.
pub Walked-ForRing3 :
    (role : ℕ → Role) (pml4 : ℕ) (s s' : PageTables)
    → IsTree role pml4 s.tables s.pmm
    → Walked role pml4 s s'
    → (w : ℕ) → ForRing3 s.tables pml4 w
    → ForRing3 s'.tables pml4 w
Walked-ForRing3 role pml4 s s' tree walk w o =
    let i4 = pml4_index w in
    let i3 = pdpt_index w in
    let i2 = pd_index w in
    let b3 = (s.tables pml4 i4).addr in
    let b2 = (s.tables b3 i3).addr in
    let r3 = tree.at_pdpt i4 (o.0.0) in
    let r2 = tree.at_pd b3 i4 i3 r3 (o.1.0.0) (o.1.1) in
    let l4 = walk.upper pml4 i4 (subst Upper (sym tree.at_root) tt) in
    let l3 = walk.upper b3 i3 (subst Upper (sym r3) tt) in
    (
      (l4.1 ∙ o.0.0, l4.3 (o.0.1)),
      subst (λ n. OpenPdpte s'.tables (s'.tables n i3) w) (sym (l4.0))
          (
            (l3.1 ∙ o.1.0.0, l3.3 (o.1.0.1)),
            l3.2 ∙ o.1.1,
            subst (λ n. Open (s'.tables n i2)) (sym (l3.0)) (walk.opens b2 i2 i4 i3 r2 (o.1.2)),
          ),
    )

-- The walk for a page of ring 3 makes its way so.
pub opened-ForRing3 :
    (f : Flags) (t : Tables) (pml4 v b : ℕ)
    → LeadsRoot t pml4 v (some b)
    → Ring3 f t pml4 v (some b)
    → f.user ≡ true
    → ForRing3 t pml4 v
opened-ForRing3 f t pml4 v b to ring h =
    ((to.0, ring.0 h), ((to.1.0, ring.1.0 h), to.1.1, (to.1.2, ring.1.1 h)))

-- Nor does the last entry change anything above it.
pub written-ForRing3 :
    (role : ℕ → Role) (pml4 : ℕ) (t : Tables) (p : Pmm) (tree : IsTree role pml4 t p) (v b : ℕ)
    (to : LeadsRoot t pml4 v (some b)) (e : Entry) (w : ℕ)
    → ForRing3 t pml4 w
    → ForRing3 (written role pml4 t p tree v b to e) pml4 w
written-ForRing3 role pml4 t p tree v b to e w o =
    let i4 = pml4_index w in
    let i3 = pdpt_index w in
    let b3 = (t pml4 i4).addr in
    let b2 = (t b3 i3).addr in
    let r3 = tree.at_pdpt i4 (o.0.0) in
    let r2 = tree.at_pd b3 i4 i3 r3 (o.1.0.0) (o.1.1) in
    let t' : Tables = written role pml4 t p tree v b to e in
    let same = elsewhere role pml4 t p tree v b to e in
    let e4 = same pml4 i4 root tree.at_root (cc) in
    let e3 = same b3 i3 (pdpt i4) r3 (cc) in
    let e2 = same b2 (pd_index w) (pd i4 i3) r2 (cc) in
    (
      subst Open (sym e4) (o.0),
      subst (λ (x : Entry). OpenPdpte t' (t' x.addr i3) w) (sym e4)
          (subst (λ (x : Entry). OpenPdpte t' x w) (sym e3)
            (o.1.0, o.1.1, subst Open (sym e2) (o.1.2))),
    )
