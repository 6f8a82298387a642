-- ===== src/Shm/Close.antt =====
-- src/shm.rs: `close` drops a reference, and the last one gives the frames back.
use macha_os.Prelude.{
  ℕ, ◌-◌, ◌≡◌, ◌≢◌, refl, sym, true, ◌&&◌, none, some, inl, inr, arith, set, ◌==◌, if◌then◌else◌,
  Bool-cases, slot, slot-set-some,
}
use macha_os.Pmm.Frames as PmmFrames
use macha_os.Pmm.Frames.{within}
use macha_os.Pmm.Single.{free_in}
use macha_os.Shm.{SharedMem, Shm, close, free_run}
use macha_os.Shm.Frames.{free_run_lem}
use macha_os.Shm.Objects.{owns, IsBacked, IsValid, write-IsValid}

module _ (s : Shm) (id : ℕ) (o : SharedMem) (v : IsValid s) (e : slot s.table id ≡ some o) where
  freed :
      ((g : ℕ)
        → free_in (free_run o.pages s.pmm o.phys) g ≡ (if owns o g then true else free_in s.pmm g))
      × PmmFrames.IsValid (free_run o.pages s.pmm o.phys)
  freed =
      free_run_lem o.pages s.pmm o.phys v.memory (v.backed id o e).aligned (v.backed id o e).inside

  -- Without the object and its frames the rest is as valid as before.
  drop-IsValid :
      IsValid (record s { table = set s.table id none; pmm = free_run o.pages s.pmm o.phys })
  drop-IsValid = record {
    memory = freed.1;
    backed = λ i q at. kept i q (stays i q at).0 (stays i q at).1;
    apart = λ i j a b ne ei ej. v.apart i j a b ne (stays i a ei).1 (stays j b ej).1;
  }
    where
      stays :
          (i : ℕ) (q : SharedMem)
          → slot (set s.table id none) i ≡ some q
          → (id ≢ i) × (slot s.table i ≡ some q)
      stays i q at = ground (arith, slot-set-some s.table id o none i e)

      kept :
          (i : ℕ) (q : SharedMem)
          → id ≢ i
          → slot s.table i ≡ some q
          → IsBacked (free_run o.pages s.pmm o.phys) q
      kept i q ne at =
          let b = v.backed i q at in
          record {
            held = b.held;
            sized = b.sized;
            aligned = b.aligned;
            inside = b.inside;
            in_use = λ g own.
                ground (arith, freed.0 g, b.in_use g, v.apart i id q o (λ k. ne (sym k)) at e g);
          }

-- `close` of a live object lowers its count by one; the last reference removes the object and makes
-- exactly its frames free. No other object and no other frame changes, and the invariant is kept.
pub close_lem :
    (s : Shm) (id : ℕ) (o : SharedMem)
    → IsValid s
    → slot s.table id ≡ some o
    → ((j : ℕ)
        → slot (close s id).table j ≡ (
            if id == j
            then (if o.refcount == 1 then none else some (record o { refcount = o.refcount - 1 }))
            else slot s.table j))
      × ((g : ℕ)
          → free_in (close s id).pmm g
            ≡ (if (o.refcount == 1) && owns o g then true else free_in s.pmm g))
      × IsValid (close s id)
unfolding close
close_lem s id o v e =
    let b = v.backed id o e in
    let f = freed s id o v e in
    let less : SharedMem = record o { refcount = o.refcount - 1 } in
    let written = λ (j : ℕ). slot-set-some s.table id o (some less) j e in
    elim (Bool-cases (o.refcount == 1)) [
      | inl last ↦
          rw (e, close, last)
            (λ j. slot-set-some s.table id o none j e, f.0, drop-IsValid s id o v e)
      | inr more ↦
          rw (e, close, more)
            (
              written,
              λ g. refl,
              write-IsValid s v id less (rw (e, slot) (refl, refl))
                  (record {
                    held = ground (arith, b.held);
                    sized = b.sized;
                    aligned = b.aligned;
                    inside = b.inside;
                    in_use = b.in_use;
                  })
                  (set s.table id (some less)) written,
            )
    ]
