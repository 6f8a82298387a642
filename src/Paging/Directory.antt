-- ===== src/Paging/Directory.antt =====
-- src/paging.rs: the table behind a directory entry, found or made, which changes nothing that the processor
-- reads.
use macha_os.Prelude.{
  if-eq, ℕ, ◌*◌, ◌≡◌, refl, Bool, true, false, Option, none, some, ◌==◌, if◌then◌else◌, ◌≢◌, sym,
  ap, ◌∙◌, inl, inr, arith, Bool-cases, subst, ==_iff, ◌||◌, not, branch, ◌&&◌,
}
use macha_os.Pmm.{Pmm, frame_alloc, frame_size}
use macha_os.Pmm.Frames as PmmFrames
use macha_os.Pmm.Single.{free_in, Allocated, frame_alloc-Allocated}
use macha_os.Paging.{
  Entry, Flags, Tables, PageTables, put, fill, empty_entry, entry_for, small_entry, note_frame,
  promote, new_table, split_entry, table_in, pt_index,
}
use macha_os.Paging.View.{
  view_pte, view_pde, view, Role, root, pdpt, pd, pt, other, IsTree, view-Follows, IsTree-Follows,
  promote-Follows, Promotable,
}
use macha_os.Paging.Install.{given, other_table, installed, installed-IsTree, view-installed}

abbrev pub Upper : Role → Type 0
Upper root = Unit {0}
Upper (pdpt i) = Unit
Upper (pd i j) = ⊥
Upper (pt i j k) = ⊥
Upper other = ⊥

-- An entry that leads where it led, and is still for ring 3 if it was.
abbrev pub Leads : Entry → Entry → Type 0
Leads e e' =
    (e'.addr ≡ e.addr)
    × (e'.present ≡ e.present)
    × (e'.large ≡ e.large)
    × (e.user ≡ true → e'.user ≡ true)

if_kept : {A : Type 0} (b : Bool) (x y : A) (P : A → Type 0) → P x → P y → P (if b then x else y)
if_kept true x y P hx hy = hx
if_kept false x y P hx hy = hy

promote-keeps :
    (f : Flags) (base i : ℕ) (t : Tables) (c x : ℕ)
    → (t c x).user ≡ true
    → (promote f base i t c x).user ≡ true
unfolding promote
promote-keeps f base i t c x h =
    if_kept (f.user && not (t base i).user) _ _ (λ (u : Tables). (u c x).user ≡ true)
      (if_kept _ _ _ (λ (e : Entry). e.user ≡ true) refl h) h

pub promote-user :
    (f : Flags) (base i : ℕ) (t : Tables) → f.user ≡ true → (promote f base i t base i).user ≡ true
unfolding promote
promote-user f base i t ring3 = elim (Bool-cases (t base i).user) [
  | inl was ↦ rw (promote, ring3, was) was
  | inr not_yet ↦
      let hb : (base == base) ≡ true = (==_iff _ _).1 refl in
      let hi : (i == i) ≡ true = (==_iff _ _).1 refl in rw (promote, ring3, not_yet, hb, hi) refl
]

-- The entry is there, and is for ring 3.
abbrev pub Open : Entry → Type 0
Open e = (e.present ≡ true) × (e.user ≡ true)

-- The tables are still a tree, the frames are still well kept, and every address shows what it showed.
pub record Walked (role : ℕ → Role) (pml4 : ℕ) (s s' : PageTables) : Type 0 where
  pub role' : ℕ → Role
  pub tree : IsTree role' pml4 s'.tables s'.pmm
  pub valid : PmmFrames.IsValid s'.pmm
  pub views : (v : ℕ) → view s'.tables pml4 v ≡ view s.tables pml4 v
  pub upper : (c x : ℕ) → Upper (role c) → Leads (s.tables c x) (s'.tables c x)
  pub opens : (c x i j : ℕ) → role c ≡ pd i j → Open (s.tables c x) → Open (s'.tables c x)

Upper-apart : (r : Role) (i j : ℕ) → Upper r → (r ≢ other) × (r ≢ pd i j)
Upper-apart root i j u = (λ h. cc, λ h. cc)
Upper-apart (pdpt x) i j u = (λ h. cc, λ h. cc)
Upper-apart (pd x y) i j u = absurd u
Upper-apart (pt x y z) i j u = absurd u
Upper-apart other i j u = absurd u

shows_small :
    (e : Entry) (i : ℕ) (o : Option Entry)
    → e.present ≡ true
    → e.large ≡ true
    → view_pte (small_entry e i)
      ≡ (if e.present then (if e.large then some (small_entry e i) else o) else none)
shows_small e i o here big =
    if-eq e.present e.present _ _ _ _ refl (λ h. sym (rw big refl)) (λ h. refl)

-- A directory entry, when its table is there.
abbrev pub HasTable : Flags → Entry → Option ℕ → Type 0
HasTable f e none = Unit {0}
HasTable f e (some b) =
    (e.present ≡ true) × (e.large ≡ false) × (e.addr ≡ b) × (f.user ≡ true → e.user ≡ true)

false-ne-true : ¬ (false ≡ true)
false-ne-true h = cc

pub both_false : (a b : Bool) → (not a || b) ≡ false → (a ≡ true) × (b ≡ false)
both_false true b h = (refl, h)
both_false false b h = absurd (false-ne-true (sym h))

pub not-true : (b : Bool) → not b ≡ true → b ≡ false
not-true true h = sym h
not-true false h = refl

pub not-false : (b : Bool) → not b ≡ false → b ≡ true
not-false true h = refl
not-false false h = sym h

or_left : (a b : Bool) → a ≡ true → (a || b) ≡ true
or_left true b h = refl
or_left false b h = absurd (false-ne-true h)

or_true : (a b : Bool) → b ≡ true → (a || b) ≡ true
or_true true b h = refl
or_true false b h = h

module _ (role : ℕ → Role) (pml4 : ℕ) (s : PageTables) (tree : IsTree role pml4 s.tables s.pmm)
    (valid : PmmFrames.IsValid s.pmm) where
  pub stay : Walked role pml4 s s
  stay = record {
    role' = role;
    tree = tree;
    valid = valid;
    views = λ v. refl;
    upper = λ c x h. (refl, refl, refl, λ u. u);
    opens = λ c x i j is o. o;
  }

  pub promoted :
      (f : Flags) (base i : ℕ)
      → Promotable (role base) (s.tables base i)
      → Walked role pml4 s (record s { tables = promote f base i s.tables })
  promoted f base i h =
      let same = promote-Follows role f base i s.tables h in
      record {
        role' = role;
        tree = IsTree-Follows role pml4 s.tables (promote f base i s.tables) s.pmm 0 tree same;
        valid = valid;
        views = λ v. view-Follows role pml4 s.tables (promote f base i s.tables) s.pmm v tree same;
        upper = λ c x u.
            ((same c x).0, (same c x).1, (same c x).2, promote-keeps f base i s.tables c x);
        opens = λ c x a b is o. ((same c x).1 ∙ o.0, promote-keeps f base i s.tables c x (o.1));
      }

  module _ (base i j k : ℕ) (at : role base ≡ pd i j) (track : Bool) (f : Flags) where
    installs :
        (frame fr : ℕ) (q : Pmm) (es : ℕ → Entry) (e' : Entry)
        → frame ≡ fr * frame_size
        → free_in s.pmm fr ≡ true
        → ((g : ℕ) → free_in q g ≡ (if fr == g then false else free_in s.pmm g))
        → PmmFrames.IsValid q
        → e'.addr ≡ frame
        → e'.present ≡ true
        → e'.large ≡ false
        → ((v : ℕ) → view_pte (es (pt_index v)) ≡ view_pde s.tables (s.tables base k) v)
        → (Open (s.tables base k) → Open e')
        → Walked role pml4 s (record {
          pmm = q;
          tables = put (fill s.tables frame es) base k e';
          frames = note_frame track frame s.frames;
        })
    installs frame fr q es e' is was now vq leads here small shows widens =
        let fresh : role frame ≡ other = ap role is ∙ tree.unused fr was in
        record {
          role' = given role frame (pt i j k);
          tree =
              installed-IsTree role pml4 s.tables s.pmm base i j k frame es e' tree at fresh leads
                here small q (λ g free. still g free);
          valid = vq;
          views =
              view-installed role pml4 s.tables s.pmm base i j k frame es e' tree at fresh leads
                here small shows;
          upper = λ c x u.
              let same = upper_same c x u fresh in
              (
                ap (λ (e : Entry). e.addr) same,
                ap (λ (e : Entry). e.present) same,
                ap (λ (e : Entry). e.large) same,
                λ h. ap (λ (e : Entry). e.user) same ∙ h,
              );
          opens = λ c x a b is o. stays_open c x a b is fresh o;
        }
      where
        now_used : (g : ℕ) → (fr == g) ≡ true → ¬ (free_in q g ≡ true)
        now_used g same free = false-ne-true (sym (now g ∙ rw same refl) ∙ free)

        still : (g : ℕ) → free_in q g ≡ true → (free_in s.pmm g ≡ true) × (g * frame_size ≢ frame)
        still g free = elim (Bool-cases (fr == g)) [
          | inl same ↦ absurd (now_used g same free)
          | inr ne ↦ (sym (now g ∙ rw ne refl) ∙ free, λ e. ground (arith, is, ne, e))
        ]

        other-ne-pd : (a b : ℕ) → other ≢ pd a b
        other-ne-pd a b h = cc

        apart_from_frame : (c a b : ℕ) → role c ≡ pd a b → role frame ≡ other → (c == frame) ≡ false
        apart_from_frame c a b is fresh = elim (Bool-cases (c == frame)) [
          | inr ne ↦ ne
          | inl same ↦
              absurd (other-ne-pd a b (sym fresh ∙ ap role (sym ((==_iff c frame).0 same)) ∙ is))
        ]

        both_eq : (c x : ℕ) → ((c == base) && (x == k)) ≡ true → (c ≡ base) × (x ≡ k)
        both_eq c x h = ground (arith, h)

        stays_open :
            (c x a b : ℕ)
            → role c ≡ pd a b
            → role frame ≡ other
            → Open (s.tables c x)
            → Open (put (fill s.tables frame es) base k e' c x)
        stays_open c x a b is fresh o = elim (Bool-cases ((c == base) && (x == k))) [
          | inl same ↦
              let (at_base, at_k) = both_eq c x same in
              rw same (
                widens (
                  subst (λ y. Open (s.tables base y)) at_k
                    (subst (λ y. Open (s.tables y x)) at_base o)))
          | inr ne ↦ rw (ne, apart_from_frame c a b is fresh) o
        ]

        upper_same :
            (c x : ℕ)
            → Upper (role c)
            → role frame ≡ other
            → installed role pml4 s.tables s.pmm base i j k frame es e' c x ≡ s.tables c x
        upper_same c x u fresh =
            let (not_other, not_pd) = Upper-apart (role c) i j u in
            other_table role pml4 s.tables s.pmm base i j k frame es e' tree at fresh leads here
              small c x (role c) refl not_other not_pd

    put_self : (t : Tables) (e : Entry) → put t base k e base k ≡ e
    put_self t e =
        let hb : (base == base) ≡ true = (==_iff _ _).1 refl in
        let hk : (k == k) ≡ true = (==_iff _ _).1 refl in rw (hb, hk) refl

    -- The result at a directory entry, on both branches.
    abbrev pub AtEntry : Option ℕ × PageTables → Type 0
    AtEntry (o, s') = Walked role pml4 s s' × HasTable f (s'.tables base k) o

    new_table-AtEntry :
        (s.tables base k).present ≡ false → AtEntry (new_table track f base k s (frame_alloc s.pmm))
    unfolding new_table
    new_table-AtEntry absent = go (frame_alloc s.pmm) (frame_alloc-Allocated s.pmm valid)
      where
        go : (r : Option ℕ × Pmm) → Allocated s.pmm r → AtEntry (new_table track f base k s r)
        go (none, q) (same, full) =
            (subst (λ p. Walked role pml4 s (record s { pmm = p })) (sym same) stay, tt)
        go (some frame, q) (fr, is, low, was, lowest, now, last, vq) = (
          installs frame fr q (λ x. empty_entry) (entry_for frame f) is was now vq refl refl refl
              (λ v. rw absent refl) (λ o. absurd (false-ne-true (sym absent ∙ o.0))),
          rw (put_self (fill s.tables frame (λ x. empty_entry)) (entry_for frame f))
              (refl, refl, refl, λ h. h),
        )

    split_entry-AtEntry :
        (s.tables base k).present ≡ true
        → (s.tables base k).large ≡ true
        → AtEntry (split_entry track f base k s (frame_alloc s.pmm))
    unfolding split_entry
    split_entry-AtEntry here big = go (frame_alloc s.pmm) (frame_alloc-Allocated s.pmm valid)
      where
        go : (r : Option ℕ × Pmm) → Allocated s.pmm r → AtEntry (split_entry track f base k s r)
        go (none, q) (same, full) =
            (subst (λ p. Walked role pml4 s (record s { pmm = p })) (sym same) stay, tt)
        go (some frame, q) (fr, is, low, was, lowest, now, last, vq) =
            let pde = s.tables base k in
            let e' : Entry = record pde {
              addr = frame;
              large = false;
              user = pde.user || f.user;
            } in
            (
              installs frame fr q (small_entry pde) e' is was now vq refl here refl
                  (λ v.
                    shows_small pde (pt_index v) (view_pte (s.tables pde.addr (pt_index v))) here
                      big)
                  (λ o. (here, or_left pde.user f.user (o.1))),
              rw (put_self (fill s.tables frame (small_entry pde)) e')
                  (here, refl, refl, or_true pde.user f.user),
            )

    pub table_in-AtEntry : AtEntry (table_in track f base k s)
    unfolding table_in
    table_in-AtEntry =
        branch AtEntry (not (s.tables base k).present) _ _
          (λ absent. new_table-AtEntry (not-true _ absent))
          (λ here.
            branch AtEntry (s.tables base k).large _ _ (split_entry-AtEntry (not-false _ here))
              (found (not-false _ here)))
      where
        found :
            (s.tables base k).present ≡ true
            → (s.tables base k).large ≡ false
            → AtEntry (some (s.tables base k).addr, record s { tables = promote f base k s.tables })
        found here small =
            let can = subst (λ r. Promotable r (s.tables base k)) (sym at) small in
            let same = promote-Follows role f base k s.tables can base k in
            (
              promoted f base k can,
              (same.1 ∙ here, same.2 ∙ small, same.0, promote-user f base k s.tables),
            )
