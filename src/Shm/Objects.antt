-- ===== src/Shm/Objects.antt =====
-- src/shm.rs: the invariant of the table, and the operations that move no frame.
use macha_os.Prelude.{
  ℕ, ◌+◌, ◌*◌, ◌/◌, ◌%◌, ◌<◌, ◌≤◌, ◌≡◌, ◌≢◌, refl, sym, subst, Bool, true, false, Option, none,
  some, List, inl, inr, arith, set, ◌==◌, if◌then◌else◌, Bool-cases, slot, insert_from,
  slot-insert_from, insert_from-free, slot-set-some,
}
use macha_os.Pmm.{Pmm, frame_size, frame_count}
use macha_os.Pmm.Frames as PmmFrames
use macha_os.Pmm.Frames.{within}
use macha_os.Pmm.Single.{free_in}
use macha_os.Shm.{SharedMem, Shm, create, dup}

-- The object owns the frame.
abbrev pub owns : SharedMem → ℕ → Bool
owns o g = within (o.phys / frame_size) o.pages g

pub record IsBacked (p : Pmm) (o : SharedMem) : Type 0 where
  pub held : 0 < o.refcount
  pub sized : o.size ≤ o.pages * frame_size
  pub aligned : o.phys % frame_size ≡ 0
  pub inside : o.phys / frame_size + o.pages ≤ frame_count
  pub in_use : (g : ℕ) → owns o g ≡ true → free_in p g ≡ false

abbrev pub Apart : SharedMem → SharedMem → Type 0
Apart a b = (g : ℕ) → owns a g ≡ true → owns b g ≡ false

-- Each object is backed by frames in use, no frame backs two objects, and none is unreferenced.
pub record IsValid (s : Shm) : Type 0 where
  pub memory : PmmFrames.IsValid s.pmm
  pub backed : (i : ℕ) (o : SharedMem) → slot s.table i ≡ some o → IsBacked s.pmm o
  pub apart :
      (i j : ℕ) (a b : SharedMem)
      → i ≢ j
      → slot s.table i ≡ some a
      → slot s.table j ≡ some b
      → Apart a b

-- An entry written at `id` that owns what the entry before it owned, or nothing.
abbrev Inherits : Option SharedMem → SharedMem → Type 0
Inherits none o = o.pages ≡ 0
Inherits (some old) o = (o.phys ≡ old.phys) × (o.pages ≡ old.pages)

Inherits-Apart :
    (old : Option SharedMem) (o b : SharedMem)
    → Inherits old o
    → ((a : SharedMem) → old ≡ some a → Apart a b × Apart b a)
    → Apart o b × Apart b o
Inherits-Apart none o b h k = (λ g own. ground arith, λ g own. ground arith)
Inherits-Apart (some a) o b h k =
    let (l, r) = k a refl in
    (λ g own. ground (arith, h.0, h.1, l g), λ g own. ground (arith, h.0, h.1, r g))

module _ (s : Shm) (v : IsValid s) (id : ℕ) (o : SharedMem) (h : Inherits (slot s.table id) o)
    (ok : IsBacked s.pmm o) (table : List (Option SharedMem))
    (written : (j : ℕ) → slot table j ≡ (if id == j then some o else slot s.table j)) where
  -- Writing such an entry keeps the invariant.
  pub write-IsValid : IsValid (record s { table = table })
  write-IsValid = record {
    memory = v.memory;
    backed = λ i q e. elim (Bool-cases (id == i)) [
      | inl same ↦
          let eq : some o ≡ some q = ground (arith, written i, e) in
          subst (IsBacked s.pmm) (some_inj eq) ok
      | inr other ↦ v.backed i q (ground (arith, written i, e))
    ];
    apart = λ i j a b ne ei ej. elim (Bool-cases (id == i)) [
      | inl same ↦
          let eq : some o ≡ some a = ground (arith, written i, ei) in
          let at_j : slot s.table j ≡ some b = ground (arith, written j, ej) in
          let own : id ≢ j = ground arith in
          subst (λ x. Apart x b) (some_inj eq) (others j b own at_j).0
      | inr other ↦
          let at_i : slot s.table i ≡ some a = ground (arith, written i, ei) in
          elim (Bool-cases (id == j)) [
            | inl same ↦
                let eq : some o ≡ some b = ground (arith, written j, ej) in
                let own : id ≢ i = ground arith in
                subst (Apart a) (some_inj eq) (others i a own at_i).1
            | inr neither ↦ v.apart i j a b ne at_i (ground (arith, written j, ej))
          ]
    ];
  }
    where
      some_inj : {x y : SharedMem} → some x ≡ some y → x ≡ y
      some_inj e = cc

      others : (j : ℕ) (b : SharedMem) → id ≢ j → slot s.table j ≡ some b → Apart o b × Apart b o
      others j b ne e =
          Inherits-Apart (slot s.table id) o b h
            (λ a at. (v.apart id j a b ne at e, v.apart j id b a (λ k. ne (sym k)) e at))

-- In a valid state a new object takes a free id, holds one reference and no memory; all other
-- entries stay, and the invariant is kept.
pub create_lem :
    (s : Shm)
    → IsValid s
    → (slot s.table (create s).0 ≡ none)
      × ((j : ℕ)
          → slot (create s).1.table j ≡ (
              if (create s).0 == j
              then some (record { phys = 0; pages = 0; size = 0; refcount = 1 })
              else slot s.table j))
      × IsValid (create s).1
unfolding create
create_lem s v =
    let fresh : SharedMem = record { phys = 0; pages = 0; size = 0; refcount = 1 } in
    let free = insert_from-free 0 s.table fresh in
    let written = slot-insert_from 0 s.table fresh in
    (
      free,
      written,
      write-IsValid s v (insert_from 0 s.table fresh).0 fresh (rw free refl)
          (record {
            held = omega arith;
            sized = omega arith;
            aligned = omega arith;
            inside = omega arith;
            in_use = λ g own. ground arith;
          })
          (insert_from 0 s.table fresh).1 written,
    )

-- In a valid state `dup` adds a reference to the live object that `id` names, changes no other
-- object, and keeps the invariant.
pub dup_lem :
    (s : Shm) (id : ℕ) (o : SharedMem)
    → IsValid s
    → slot s.table id ≡ some o
    → ((j : ℕ)
        → slot (dup s id).table j
          ≡ (if id == j then some (record o { refcount = o.refcount + 1 }) else slot s.table j))
      × IsValid (dup s id)
unfolding dup
dup_lem s id o v e =
    let more : SharedMem = record o { refcount = o.refcount + 1 } in
    let b = v.backed id o e in
    let written = λ (j : ℕ). slot-set-some s.table id o (some more) j e in
    rw (e, dup)
      (
        written,
        write-IsValid s v id more (rw e (refl, refl))
            (record {
              held = omega arith;
              sized = b.sized;
              aligned = b.aligned;
              inside = b.inside;
              in_use = b.in_use;
            })
            (set s.table id (some more)) written,
      )
