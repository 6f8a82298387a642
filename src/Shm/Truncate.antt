-- ===== src/Shm/Truncate.antt =====
-- src/shm.rs: `truncate` sets the size, and moves a growing object to a fresh run of frames.
use macha_os.Prelude.{
  ℕ, ◌+◌, ◌*◌, ◌/◌, ◌<◌, ◌≤◌, ◌≡◌, ◌≢◌, refl, sym, ap, subst, ◌∙◌, Bool, true, false, Option, none,
  some, ◌⊎◌, inl, inr, arith, set, leb, leb→le, ◌==◌, if◌then◌else◌, Bool-cases, slot,
  slot-set-some,
}
use macha_os.Pmm.{Pmm, frame_size, alloc_contiguous}
use macha_os.Pmm.Frames as PmmFrames
use macha_os.Pmm.Frames.{within}
use macha_os.Pmm.Single.{free_in}
use macha_os.Pmm.Contiguous.{NoRun, Taken, alloc_contiguous-Taken}
use macha_os.Shm.{SharedMem, Shm, truncate, truncate_object, grow, rebase, free_run, pages_for}
use macha_os.Shm.Frames.{free_run_lem}
use macha_os.Shm.Objects.{owns, IsBacked, Apart, IsValid, write-IsValid}

-- The first `n` bytes of an object.
abbrev pub contents : Shm → SharedMem → ℕ → ℕ
contents s o i = s.bytes (o.phys + i)

-- What `truncate` leaves of the object `o` in slot `id`: its new entry `q`, with every byte of the old
-- backing, zeros behind it, and the other entries as they were.
pub record Resized (s : Shm) (id : ℕ) (o : SharedMem) (new_size : ℕ) (t : Shm) (q : SharedMem)
    : Type 0 where
  pub entry : (j : ℕ) → slot t.table j ≡ (if id == j then some q else slot s.table j)
  pub new_size_set : q.size ≡ new_size
  pub same_count : q.refcount ≡ o.refcount
  pub grows : o.pages ≤ q.pages
  pub kept : (i : ℕ) → i < o.pages * frame_size → contents t q i ≡ contents s o i
  pub zeroed : (i : ℕ) → o.pages * frame_size ≤ i → i < q.pages * frame_size → contents t q i ≡ 0
  pub valid : IsValid t

module _ (s : Shm) (id : ℕ) (o : SharedMem) (new_size : ℕ) (v : IsValid s)
    (e : slot s.table id ≡ some o) where
  -- A new size that the frames at hand can hold.
  Resized-in_place :
      new_size ≤ o.pages * frame_size
      → Resized s id o new_size
          (record s { table = set s.table id (some (record o { size = new_size })) })
          (record o { size = new_size })
  Resized-in_place fits =
      let b = v.backed id o e in
      let written =
        λ (j : ℕ). slot-set-some s.table id o (some (record o { size = new_size })) j e in
      record {
        entry = written;
        new_size_set = refl;
        same_count = refl;
        grows = omega arith;
        kept = λ i lt. refl;
        zeroed = λ i le lt. absurd (omega arith);
        valid =
            write-IsValid s v id (record o { size = new_size }) (rw (e, slot) (refl, refl))
              (record {
                held = b.held;
                sized = fits;
                aligned = b.aligned;
                inside = b.inside;
                in_use = b.in_use;
              })
              (set s.table id (some (record o { size = new_size }))) written;
      }

  module _ (phys : ℕ) (pmm : Pmm) (t : Taken s.pmm (pages_for new_size) (some phys, pmm)) where
    moved : SharedMem
    moved = record o { phys = phys; pages = pages_for new_size; size = new_size }

    b : IsBacked s.pmm o
    b = v.backed id o e

    -- The new frames were free, so no object owned one of them.
    fresh : (g : ℕ) → owns moved g ≡ true → free_in s.pmm g ≡ true
    unfolding moved
    fresh g own = ground (arith, t.4 g, t.1)

    freed :
        ((g : ℕ)
          → free_in (free_run o.pages pmm o.phys) g ≡ (if owns o g then true else free_in pmm g))
        × PmmFrames.IsValid (free_run o.pages pmm o.phys)
    freed = free_run_lem o.pages pmm o.phys t.8 b.aligned b.inside

    in_use_after :
        (g : ℕ)
        → owns o g ≡ false
        → (free_in s.pmm g ≡ false) ⊎ (owns moved g ≡ true)
        → free_in (free_run o.pages pmm o.phys) g ≡ false
    unfolding moved
    in_use_after g out was = ground (arith, freed.0 g, t.6 g, t.1)

    written :
        (j : ℕ)
        → slot (rebase s id o new_size phys pmm).table j
          ≡ (if id == j then some moved else slot s.table j)
    unfolding rebase moved
    written j =
        slot-set-some s.table id o
          (some (record o { phys = phys; pages = pages_for new_size; size = new_size })) j e

    other :
        (j : ℕ) (q : SharedMem)
        → id ≢ j
        → slot (rebase s id o new_size phys pmm).table j ≡ some q
        → slot s.table j ≡ some q
    other j q ne at = ground (arith, written j)

    self : (q : SharedMem) → slot (rebase s id o new_size phys pmm).table id ≡ some q → moved ≡ q
    self q at = ground (arith, written id)

    moved-IsBacked : IsBacked (free_run o.pages pmm o.phys) moved
    unfolding moved
    moved-IsBacked = record {
      held = b.held;
      sized = omega arith;
      aligned = omega (arith, t.1);
      inside = omega (arith, t.1, t.3, v.memory.last_in);
      in_use = λ g own. in_use_after g (ground (arith, fresh g own, b.in_use g)) (inr own);
    }

    moved-Apart :
        (j : ℕ) (q : SharedMem) → id ≢ j → slot s.table j ≡ some q → Apart moved q × Apart q moved
    moved-Apart j q ne at = (
      λ g own. ground (arith, fresh g own, (v.backed j q at).in_use g),
      λ g own. ground (arith, fresh g, (v.backed j q at).in_use g),
    )

    moved-IsValid : IsValid (rebase s id o new_size phys pmm)
    unfolding rebase
    moved-IsValid = record {
      memory = freed.1;
      backed = λ i q at. elim (Bool-cases (id == i)) [
        | inl same ↦
            let k : id ≡ i = ground arith in
            subst (IsBacked (free_run o.pages pmm o.phys))
              (self q (
                subst (λ (x : ℕ). slot (rebase s id o new_size phys pmm).table x ≡ some q) (sym k)
                  at))
              moved-IsBacked
        | inr diff ↦
            let was = other i q (ground arith) at in
            let c = v.backed i q was in
            record {
              held = c.held;
              sized = c.sized;
              aligned = c.aligned;
              inside = c.inside;
              in_use = λ g own.
                  in_use_after g (v.apart i id q o (λ k. ground arith) was e g own)
                    (inl (c.in_use g own));
            }
      ];
      apart = λ i j p q ne ei ej. elim (Bool-cases (id == i)) [
        | inl same ↦
            let k : id ≡ i = ground arith in
            let own : id ≢ j = λ (h : id ≡ j). ne (sym k ∙ h) in
            subst (λ x. Apart x q)
              (self p (
                subst (λ (x : ℕ). slot (rebase s id o new_size phys pmm).table x ≡ some p) (sym k)
                  ei))
              (moved-Apart j q own (other j q own ej)).0
        | inr diff ↦
            let own_i : id ≢ i = ground arith in
            let at_i = other i p own_i ei in
            elim (Bool-cases (id == j)) [
              | inl same ↦
                  let k : id ≡ j = ground arith in
                  subst (Apart p)
                    (self q (
                      subst (λ (x : ℕ). slot (rebase s id o new_size phys pmm).table x ≡ some q)
                        (sym k) ej))
                    (moved-Apart i p own_i at_i).1
              | inr neither ↦ v.apart i j p q ne at_i (other j q (ground arith) ej)
            ]
      ];
    }

    -- No byte of the old backing lies in the new one.
    apart_bytes :
        (i : ℕ) → i < o.pages * frame_size → owns moved ((o.phys + i) / frame_size) ≡ false
    apart_bytes i lt = elim (Bool-cases (owns moved ((o.phys + i) / frame_size))) [
      | inr out ↦ out
      | inl own ↦ ground (
        arith,
        fresh ((o.phys + i) / frame_size) own,
        b.in_use ((o.phys + i) / frame_size) (ground (arith, b.aligned)),
      )
    ]

    moved-kept :
        (i : ℕ)
        → i < o.pages * frame_size
        → o.pages < pages_for new_size
        → contents (rebase s id o new_size phys pmm) moved i ≡ contents s o i
    unfolding rebase moved
    moved-kept i lt less = ground (arith, apart_bytes i lt, t.1)

    moved-zeroed :
        (i : ℕ)
        → o.pages * frame_size ≤ i
        → i < pages_for new_size * frame_size
        → contents (rebase s id o new_size phys pmm) moved i ≡ 0
    unfolding rebase moved
    moved-zeroed i le lt = ground arith

    Resized-moved :
        o.pages < pages_for new_size
        → Resized s id o new_size (rebase s id o new_size phys pmm) moved
    Resized-moved less = record {
      entry = written;
      new_size_set = unfold moved in refl;
      same_count = unfold moved in refl;
      grows = unfold moved in omega arith;
      kept = λ i lt. moved-kept i lt less;
      zeroed = unfold moved in λ i le lt. moved-zeroed i le lt;
      valid = moved-IsValid;
    }

-- What `truncate` returns for a live object.
abbrev pub Truncated : Shm → ℕ → SharedMem → ℕ → Bool × Shm → Type 0
Truncated s id o new_size (done, t) =
    ((done ≡ true) × (q : SharedMem) × Resized s id o new_size t q)
    ⊎ ((done ≡ false) × (t ≡ s) × NoRun s.pmm.bitmap (pages_for new_size) (s.pmm.last + 1))

Truncated-grow :
    (s : Shm) (id : ℕ) (o : SharedMem) (new_size : ℕ)
    → IsValid s
    → slot s.table id ≡ some o
    → o.pages < pages_for new_size
    → (r : Option ℕ × Pmm) → Taken s.pmm (pages_for new_size) r
    → Truncated s id o new_size (grow s id o new_size r)
unfolding grow
Truncated-grow s id o new_size v e less (none, pmm) (same, why) = inr (
  refl,
  ap (λ (p : Pmm). record s { pmm = p }) same,
  elim why [ inl zero_pages ↦ absurd (omega arith) | inr no_run ↦ no_run ],
)
Truncated-grow s id o new_size v e less (some phys, pmm) t =
    inl (
      refl,
      moved s id o new_size v e phys pmm t,
      Resized-moved s id o new_size v e phys pmm t less,
    )

-- `truncate` of a live object either sets its size, and then every byte of its old backing reads as
-- before, the bytes of a larger backing behind it are zero, its reference count and all other
-- objects are unchanged and the invariant is kept; or it reports failure and changes nothing, and
-- then no run of enough free frames exists.
pub truncate-Truncated :
    (s : Shm) (id : ℕ) (o : SharedMem) (new_size : ℕ)
    → IsValid s
    → slot s.table id ≡ some o
    → Truncated s id o new_size (truncate s id new_size)
unfolding truncate truncate_object
truncate-Truncated s id o new_size v e =
    rw (e, truncate)
      (elim (Bool-cases (leb new_size o.size)) [
        | inl small ↦ rw small (
            inl (
              refl,
              record o { size = new_size },
              Resized-in_place s id o new_size v e (ground (arith, (v.backed id o e).sized)),
            ))
        | inr large ↦ rw large (elim (Bool-cases (leb (pages_for new_size) o.pages)) [
          | inl fits ↦ rw fits (
              inl (
                refl,
                record o { size = new_size },
                Resized-in_place s id o new_size v e
                    (omega (arith, leb→le (pages_for new_size) o.pages fits)),
              ))
          | inr more ↦ rw more (
              Truncated-grow s id o new_size v e (ground arith)
                (alloc_contiguous s.pmm (pages_for new_size))
                (alloc_contiguous-Taken s.pmm (pages_for new_size) v.memory))
        ])
      ])
