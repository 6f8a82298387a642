-- ===== src/Paging/View.antt =====
-- src/paging.rs: what the processor reads from the tables, and the shape that keeps the tables apart.
use macha_os.Prelude.{
  ℕ, ◌*◌, ◌≡◌, true, false, Option, none, some, if◌then◌else◌, refl, ap, subst, ◌∙◌, Bool, sym,
  ◌&&◌, not, inl, inr, ◌==◌, ==_iff, Bool-cases, if-eq, ◌+◌, ◌/◌,
}
use macha_os.Pmm.{Pmm, frame_size}
use macha_os.Pmm.Single.{free_in}
use macha_os.Paging.{Flags, promote, Entry, Tables, pml4_index, pdpt_index, pd_index, pt_index}

-- Of a 2 MiB page, the 4 KiB with the number `i`: the page starts at a multiple of 2 MiB.
abbrev pub part_of : Entry → ℕ → Entry
part_of e i = record e { addr = e.addr / 2097152 * 2097152 + i * 4096; large = false }

-- The processor's walk from an entry of each level on, lowest level first.
abbrev pub view_pte : Entry → Option Entry
view_pte e = if e.present then some e else none

abbrev pub view_pde : Tables → Entry → ℕ → Option Entry
view_pde t e v =
    if e.present
    then (if e.large then some (part_of e (pt_index v)) else view_pte (t e.addr (pt_index v)))
    else none

abbrev pub view_pdpte : Tables → Entry → ℕ → Option Entry
view_pdpte t e v =
    if e.present then (if e.large then none else view_pde t (t e.addr (pd_index v)) v) else none

abbrev pub view_pml4e : Tables → Entry → ℕ → Option Entry
view_pml4e t e v = if e.present then view_pdpte t (t e.addr (pdpt_index v)) v else none

-- The last entry on the way to `v`: of a 2 MiB page, the part that `v` lies in. What the entries above it
-- allow is not part of it.
unfoldable pub view : Tables → ℕ → ℕ → Option Entry
view t pml4 v = view_pml4e t (t pml4 (pml4_index v)) v

-- What a frame is: a table, by the indices that lead to it, or no table.
pub data Role : Type 0 where
  root : Role
  pdpt : ℕ → Role
  pd : ℕ → ℕ → Role
  pt : ℕ → ℕ → ℕ → Role
  other : Role

-- Every table has one place in the tree, and no free frame is a table.
pub record IsTree (role : ℕ → Role) (pml4 : ℕ) (t : Tables) (p : Pmm) : Type 0 where
  pub at_root : role pml4 ≡ root
  pub at_pdpt : (i : ℕ) → (t pml4 i).present ≡ true → role (t pml4 i).addr ≡ pdpt i
  pub at_pd :
      (b i j : ℕ)
      → role b ≡ pdpt i
      → (t b j).present ≡ true
      → (t b j).large ≡ false
      → role (t b j).addr ≡ pd i j
  pub at_pt :
      (b i j k : ℕ)
      → role b ≡ pd i j
      → (t b k).present ≡ true
      → (t b k).large ≡ false
      → role (t b k).addr ≡ pt i j k
  pub unused : (g : ℕ) → free_in p g ≡ true → role (g * frame_size) ≡ other

-- Entries that lead to the same tables: leaves are the same, others may differ in what they allow.
abbrev Leaves : Role → Entry → Entry → Type 0
Leaves root e e' = Unit {0}
Leaves (pdpt i) e e' = Unit
Leaves (pd i j) e e' = e.large ≡ true → e' ≡ e
Leaves (pt i j k) e e' = e' ≡ e
Leaves other e e' = Unit

abbrev pub Agrees : Role → Entry → Entry → Type 0
Agrees r e e' = (e'.addr ≡ e.addr) × (e'.present ≡ e.present) × (e'.large ≡ e.large) × Leaves r e e'

abbrev pub Follows : (ℕ → Role) → Tables → Tables → Type 0
Follows role t t' = (b i : ℕ) → Agrees (role b) (t b i) (t' b i)

pub Agrees-refl : (r : Role) (e : Entry) → Agrees r e e
Agrees-refl root e = (refl, refl, refl, tt)
Agrees-refl (pdpt i) e = (refl, refl, refl, tt)
Agrees-refl (pd i j) e = (refl, refl, refl, λ h. refl)
Agrees-refl (pt i j k) e = (refl, refl, refl, refl)
Agrees-refl other e = (refl, refl, refl, tt)

pub small-eq : (e e' : Entry) (i : ℕ) → e' ≡ e → some (part_of e' i) ≡ some (part_of e i)
small-eq e e' i same = ap (λ (x : Entry). some (part_of x i)) same

module _ (role : ℕ → Role) (pml4 : ℕ) (t t' : Tables) (p : Pmm) (v : ℕ) where
  -- Below a directory entry, and so on upwards, where the tables agree.
  module _ (tree : IsTree role pml4 t p) (same : Follows role t t') where
    agree : (b i : ℕ) (r : Role) → role b ≡ r → Agrees r (t b i) (t' b i)
    agree b i r at = subst (λ q. Agrees q (t b i) (t' b i)) at (same b i)

    pde-Follows : (b i j k : ℕ) → role b ≡ pd i j → view_pde t' (t' b k) v ≡ view_pde t (t b k) v
    pde-Follows b i j k at =
        let (addr, present, large, leaf) = agree b k (pd i j) at in
        if-eq (t b k).present (t' b k).present _ _ _ _ present
          (λ here.
            if-eq (t b k).large (t' b k).large _ _ _ _ large
              (λ big. small-eq (t b k) (t' b k) (pt_index v) (leaf big))
              (λ small.
                let table = tree.at_pt b i j k at here small in
                let last = agree (t b k).addr (pt_index v) (pt i j k) table in
                ap (λ n. view_pte (t' n (pt_index v))) addr ∙ ap view_pte (last.3)))
          (λ absent. refl)

    pdpte-Follows :
        (b i j : ℕ) → role b ≡ pdpt i → view_pdpte t' (t' b j) v ≡ view_pdpte t (t b j) v
    pdpte-Follows b i j at =
        let (addr, present, large, leaf) = agree b j (pdpt i) at in
        if-eq (t b j).present (t' b j).present _ _ _ _ present
          (λ here.
            if-eq (t b j).large (t' b j).large _ _ _ _ large (λ big. refl)
              (λ small.
                ap (λ n. view_pde t' (t' n (pd_index v)) v) addr
                ∙ pde-Follows (t b j).addr i j (pd_index v) (tree.at_pd b i j at here small)))
          (λ absent. refl)

    pub view-Follows : view t' pml4 v ≡ view t pml4 v
    unfolding view
    view-Follows =
        let i : ℕ = pml4_index v in
        let (addr, present, large, leaf) = agree pml4 i root tree.at_root in
        if-eq (t pml4 i).present (t' pml4 i).present _ _ _ _ present
          (λ here.
            ap (λ n. view_pdpte t' (t' n (pdpt_index v)) v) addr
            ∙ pdpte-Follows (t pml4 i).addr i (pdpt_index v) (tree.at_pdpt i here))
          (λ absent. refl)

    pub IsTree-Follows : IsTree role pml4 t' p
    IsTree-Follows = record {
      at_root = tree.at_root;
      at_pdpt = λ i here. ap role ((same pml4 i).0) ∙ tree.at_pdpt i (sym ((same pml4 i).1) ∙ here);
      at_pd = λ b i j at here small.
          ap role ((same b j).0)
          ∙ tree.at_pd b i j at (sym ((same b j).1) ∙ here) (sym ((same b j).2) ∙ small);
      at_pt = λ b i j k at here small.
          ap role ((same b k).0)
          ∙ tree.at_pt b i j k at (sym ((same b k).1) ∙ here) (sym ((same b k).2) ∙ small);
      unused = tree.unused;
    }

-- An entry whose user bit may be set: it leads to a table.
abbrev pub Promotable : Role → Entry → Type 0
Promotable root e = Unit {0}
Promotable (pdpt i) e = Unit
Promotable (pd i j) e = e.large ≡ false
Promotable (pt i j k) e = ⊥
Promotable other e = ⊥

promoted-Agrees : (r : Role) (e : Entry) → Promotable r e → Agrees r e (record e { user = true })
promoted-Agrees root e h = (refl, refl, refl, tt)
promoted-Agrees (pdpt i) e h = (refl, refl, refl, tt)
promoted-Agrees (pd i j) e h = (refl, refl, refl, λ big. absurd (cc))
promoted-Agrees (pt i j k) e h = absurd h
promoted-Agrees other e h = absurd h

pub promote-Follows :
    (role : ℕ → Role) (f : Flags) (base i : ℕ) (t : Tables)
    → Promotable (role base) (t base i)
    → Follows role t (promote f base i t)
unfolding promote
promote-Follows role f base i t h b j = elim (Bool-cases (f.user && not (t base i).user)) [
  | inr leave ↦ rw leave (Agrees-refl (role b) (t b j))
  | inl set_it ↦ rw set_it (at_entry (b == base) (j == i) refl refl)
]
  where
    at_entry :
        (x y : Bool)
        → (b == base) ≡ x
        → (j == i) ≡ y
        → Agrees (role b) (t b j) (if x && y then record (t base i) { user = true } else t b j)
    at_entry true true hb hj =
        let eb : b ≡ base = (==_iff _ _).0 hb in
        let ej : j ≡ i = (==_iff _ _).0 hj in rw (eb, ej) (promoted-Agrees (role base) (t base i) h)
    at_entry true false hb hj = Agrees-refl (role b) (t b j)
    at_entry false y hb hj = Agrees-refl (role b) (t b j)
