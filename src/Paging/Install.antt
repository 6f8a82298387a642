-- ===== src/Paging/Install.antt =====
-- src/paging.rs: a new table behind a directory entry, which shows what the entry showed.
use macha_os.Prelude.{
  ℕ, ◌≡◌, ◌≢◌, refl, sym, ap, ◌∙◌, true, false, inl, inr, ◌==◌, ==_iff, if◌then◌else◌, Bool-cases,
  ◌*◌, Bool, ◌⊎◌, arith, if-eq,
}
use macha_os.Pmm.{Pmm, frame_size}
use macha_os.Pmm.Single.{free_in}
use macha_os.Paging.{Entry, Tables, put, fill, pml4_index, pdpt_index, pd_index, pt_index}
use macha_os.Paging.View.{
  view_pml4e, view_pte, view_pde, view_pdpte, view, Role, root, pdpt, pd, pt, other, IsTree,
}

abbrev pub given : (ℕ → Role) → ℕ → Role → ℕ → Role
given role frame r b = if b == frame then r else role b

other-ne-pd : {x y : ℕ} → other ≢ pd x y
other-ne-pd h = cc

module _ (role : ℕ → Role) (pml4 : ℕ) (t : Tables) (p : Pmm) (base i j k frame : ℕ) (es : ℕ → Entry)
    (e' : Entry) where
  abbrev pub installed : Tables
  installed = put (fill t frame es) base k e'

  module _ (tree : IsTree role pml4 t p) (at : role base ≡ pd i j) (fresh : role frame ≡ other)
      (leads : e'.addr ≡ frame) (here : e'.present ≡ true) (small : e'.large ≡ false) where
    elsewhere : (b : ℕ) (r : Role) → role b ≡ r → r ≢ other → (b == frame) ≡ false
    elsewhere b r is apart = elim (Bool-cases (b == frame)) [
      | inl same ↦ absurd (apart (sym is ∙ ap role ((==_iff _ _).0 same) ∙ fresh))
      | inr ne ↦ ne
    ]

    pub kept_role : (b : ℕ) (r : Role) → role b ≡ r → r ≢ other → given role frame (pt i j k) b ≡ r
    kept_role b r is apart = rw (elsewhere b r is apart) is

    -- A table of another role is what it was.
    pub other_table :
        (b x : ℕ) (r : Role) → role b ≡ r → r ≢ other → r ≢ pd i j → installed b x ≡ t b x
    other_table b x r is apart not_pd = elim (Bool-cases (b == base)) [
      | inl same ↦ absurd (not_pd (sym is ∙ ap role ((==_iff _ _).0 same) ∙ at))
      | inr ne ↦ rw (ne, elsewhere b r is apart) refl
    ]

    pd_entry :
        (b x y z : ℕ)
        → role b ≡ pd x y
        → ((b ≡ base) × (z ≡ k) × (installed b z ≡ e')) ⊎ (installed b z ≡ t b z)
    pd_entry b x y z is = split (b == base) (z == k) refl refl
      where
        split :
            (u w : Bool)
            → (b == base) ≡ u
            → (z == k) ≡ w
            → ((b ≡ base) × (z ≡ k) × (installed b z ≡ e')) ⊎ (installed b z ≡ t b z)
        split true true hb hz = inl ((==_iff _ _).0 hb, (==_iff _ _).0 hz, rw (hb, hz) refl)
        split true false hb hz = inr (rw (hb, hz, elsewhere b (pd x y) is (cc)) refl)
        split false w hb hz = inr (rw (hb, elsewhere b (pd x y) is (cc)) refl)

    -- The roles of tables that keep theirs.
    role_back : (b : ℕ) (r : Role) → given role frame (pt i j k) b ≡ r → r ≢ pt i j k → role b ≡ r
    role_back b r is apart = elim (Bool-cases (b == frame)) [
      | inl same ↦ absurd (apart (sym is ∙ rw same refl))
      | inr ne ↦ sym (rw ne refl) ∙ is
    ]

    at_frame : given role frame (pt i j k) frame ≡ pt i j k
    at_frame = let e : (frame == frame) ≡ true = (==_iff _ _).1 refl in rw e refl

    same_place : (x y z : ℕ) → pd x y ≡ pd i j → z ≡ k → pt i j k ≡ pt x y z
    same_place x y z place ez = cc

    pub installed-IsTree :
        (q : Pmm)
        → ((g : ℕ) → free_in q g ≡ true → (free_in p g ≡ true) × (g * frame_size ≢ frame))
        → IsTree (given role frame (pt i j k)) pml4 installed q
    installed-IsTree q still = record {
      at_root = kept_role pml4 root tree.at_root (cc);
      at_pdpt = λ x pr.
          let same = other_table pml4 x root tree.at_root (cc) (cc) in
          ap (λ (e : Entry). given role frame (pt i j k) e.addr) same
          ∙ kept_role _ (pdpt x) (tree.at_pdpt x (sym (ap (λ (e : Entry). e.present) same) ∙ pr))
              (cc);
      at_pd = λ b x y is pr sm.
          let was = role_back b (pdpt x) is (cc) in
          let same = other_table b y (pdpt x) was (cc) (cc) in
          ap (λ (e : Entry). given role frame (pt i j k) e.addr) same
          ∙ kept_role _ (pd x y)
              (tree.at_pd b x y was (sym (ap (λ (e : Entry). e.present) same) ∙ pr)
                (sym (ap (λ (e : Entry). e.large) same) ∙ sm))
              (cc);
      at_pt = λ b x y z is pr sm.
          let was = role_back b (pd x y) is (cc) in
          elim (pd_entry b x y z was) [
            | inl (eb, ez, now) ↦
                let place : pd x y ≡ pd i j = sym was ∙ ap role eb ∙ at in
                ap (λ (e : Entry). given role frame (pt i j k) e.addr) now
                ∙ ap (given role frame (pt i j k)) leads
                ∙ at_frame
                ∙ same_place x y z place ez
            | inr same ↦
                ap (λ (e : Entry). given role frame (pt i j k) e.addr) same
                ∙ kept_role _ (pt x y z)
                    (tree.at_pt b x y z was (sym (ap (λ (e : Entry). e.present) same) ∙ pr)
                      (sym (ap (λ (e : Entry). e.large) same) ∙ sm))
                    (cc)
          ];
      unused = λ g is_free.
          let (was_free, apart) = still g is_free in
          let ne : (g * frame_size == frame) ≡ false = ground (arith, apart) in
          rw ne (tree.unused g was_free);
    }

    not_base : (frame == base) ≡ false
    not_base = elim (Bool-cases (frame == base)) [
      | inl same ↦ absurd (other-ne-pd (sym fresh ∙ ap role ((==_iff _ _).0 same) ∙ at))
      | inr ne ↦ ne
    ]

    -- What every address showed, where the new table shows what the entry did.
    module _ (shows : (v : ℕ) → view_pte (es (pt_index v)) ≡ view_pde t (t base k) v) (v : ℕ) where
      new_shows : view_pde installed e' v ≡ view_pde t (t base k) v
      new_shows =
          let self : (frame == frame) ≡ true = (==_iff _ _).1 refl in
          rw (here, small, leads, not_base, self) (shows v)

      pde_shows :
          (b x y : ℕ) (z : ℕ)
          → role b ≡ pd x y
          → view_pde installed (installed b z) v ≡ view_pde t (t b z) v
      pde_shows b x y z is = elim (pd_entry b x y z is) [
        | inl (eb, ez, now) ↦
            ap (λ (e : Entry). view_pde installed e v) now
            ∙ new_shows
            ∙ ap (λ n. view_pde t (t n k) v) (sym eb)
            ∙ ap (λ n. view_pde t (t b n) v) (sym ez)
        | inr same ↦
            ap (λ (e : Entry). view_pde installed e v) same
            ∙ if-eq (t b z).present (t b z).present _ _ _ _ refl
                (λ pr.
                  if-eq (t b z).large (t b z).large _ _ _ _ refl (λ big. refl)
                    (λ sm. ap view_pte (
                      other_table (t b z).addr (pt_index v) (pt x y z) (tree.at_pt b x y z is pr sm)
                        (cc) (cc))))
                (λ absent. refl)
      ]

      pdpte_shows :
          (b x z : ℕ) → role b ≡ pdpt x → view_pdpte installed (t b z) v ≡ view_pdpte t (t b z) v
      pdpte_shows b x z is =
          if-eq (t b z).present (t b z).present _ _ _ _ refl
            (λ pr.
              if-eq (t b z).large (t b z).large _ _ _ _ refl (λ big. refl)
                (λ sm. pde_shows (t b z).addr x z (pd_index v) (tree.at_pd b x z is pr sm)))
            (λ absent. refl)

      pub view-installed : view installed pml4 v ≡ view t pml4 v
      unfolding view
      view-installed =
          let i4 : ℕ = pml4_index v in
          ap (λ (e : Entry). view_pml4e installed e v)
            (other_table pml4 i4 root tree.at_root (cc) (cc))
          ∙ if-eq (t pml4 i4).present (t pml4 i4).present _ _ _ _ refl
              (λ pr.
                let up = tree.at_pdpt i4 pr in
                ap (λ (e : Entry). view_pdpte installed e v)
                  (other_table (t pml4 i4).addr (pdpt_index v) (pdpt i4) up (cc) (cc))
                ∙ pdpte_shows (t pml4 i4).addr i4 (pdpt_index v) up)
              (λ absent. refl)
