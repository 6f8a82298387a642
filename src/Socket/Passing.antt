-- ===== src/Socket/Passing.antt =====
-- src/socket.rs: the references that a passed descriptor holds on shared memory.
use macha_os.Prelude.{
  ℕ, ◌+◌, ◌-◌, ◌<◌, ◌≡◌, refl, sym, ap, subst, ◌∙◌, false, Option, none, some, List, [], ◌∷◌, inl,
  inr, arith, ◌==◌, if◌then◌else◌, Bool-cases, Option-cases, slot, slot-set-some,
}
use macha_os.Shm as SharedMemory
use macha_os.Shm.{SharedMem, Shm}
use macha_os.Socket.{Endpoint, Sockets, dup_all, close_all, send, peer_of}

-- How often `id` is among the descriptors.
abbrev pub count : ℕ → List ℕ → ℕ
count id [] = 0
count id (x ∷ xs) = (if x == id then 1 else 0) + count id xs

abbrev pub referenced : Option SharedMem → ℕ → Option SharedMem
referenced none n = none
referenced (some o) n = some (record o { refcount = o.refcount + n })

slot-dup :
    (m : Shm) (fid j : ℕ)
    → slot (SharedMemory.dup m fid).table j
      ≡ referenced (slot m.table j) (if fid == j then 1 else 0)
unfolding SharedMemory.dup
slot-dup m fid j = elim (Option-cases (slot m.table fid)) [
  | inl gone ↦ rw (gone, SharedMemory.dup) (absent j gone)
  | inr (o, live) ↦
      rw (live, SharedMemory.dup)
        (rw (slot-set-some m.table fid o (some (record o { refcount = o.refcount + 1 })) j live)
          (present j o live))
]
  where
    absent :
        (j : ℕ)
        → slot m.table fid ≡ none
        → slot m.table j ≡ referenced (slot m.table j) (if fid == j then 1 else 0)
    absent j gone = elim (Option-cases (slot m.table j)) [
      | inl none_here ↦ rw (none_here, referenced)
      | inr (q, here) ↦
          let ne : (fid == j) ≡ false = ground arith in rw (here, referenced) (ground arith)
    ]

    present :
        (j : ℕ) (o : SharedMem)
        → slot m.table fid ≡ some o
        → (if fid == j then some (record o { refcount = o.refcount + 1 }) else slot m.table j)
          ≡ referenced (slot m.table j) (if fid == j then 1 else 0)
    present j o live = elim (Bool-cases (fid == j)) [
      | inl same ↦
          let k : fid ≡ j = ground arith in
          let here : slot m.table j ≡ some o = subst (λ (x : ℕ). slot m.table x ≡ some o) k live in
          rw (here, same) refl
      | inr other ↦ rw other (plain (slot m.table j))
    ]
      where
        plain : (q : Option SharedMem) → q ≡ referenced q 0
        plain none = refl
        plain (some q) = ground arith

dup_pmm : (m : Shm) (fid : ℕ) → (SharedMemory.dup m fid).pmm ≡ m.pmm
unfolding SharedMemory.dup
dup_pmm m fid = ground arith

referenced-add :
    (o : Option SharedMem) (a b : ℕ) → referenced (referenced o a) b ≡ referenced o (a + b)
referenced-add none a b = refl
referenced-add (some o) a b = ground arith

slot-dup_all :
    (fds : List ℕ) (m : Shm) (j : ℕ)
    → (slot (dup_all m fds).table j ≡ referenced (slot m.table j) (count j fds))
      × ((dup_all m fds).pmm ≡ m.pmm)
unfolding dup_all
slot-dup_all [] m j = (plain (slot m.table j), refl)
  where
    plain : (q : Option SharedMem) → q ≡ referenced q 0
    plain none = refl
    plain (some q) = ground arith
slot-dup_all (fid ∷ fds) m j =
    let (rest, pmm) = slot-dup_all fds (SharedMemory.dup m fid) j in
    (
      rest
          ∙ ap (λ (o : Option SharedMem). referenced o (count j fds)) (slot-dup m fid j)
          ∙ referenced-add (slot m.table j) (if fid == j then 1 else 0) (count j fds),
      pmm ∙ dup_pmm m fid,
    )

-- Every object has a reference of its own.
abbrev pub AllHeld : Shm → Type 0
AllHeld m = (j : ℕ) (o : SharedMem) → slot m.table j ≡ some o → 0 < o.refcount

-- `t` is `m` with one more reference for each of the descriptors.
record Extra (m t : Shm) (fds : List ℕ) : Type 0 where
  slots : (j : ℕ) → slot t.table j ≡ referenced (slot m.table j) (count j fds)
  same_pmm : t.pmm ≡ m.pmm

close-Extra :
    (m t : Shm) (fid : ℕ) (fds : List ℕ)
    → AllHeld m
    → Extra m t (fid ∷ fds)
    → Extra m (SharedMemory.close t fid) fds
unfolding SharedMemory.close
close-Extra m t fid fds held x = elim (Option-cases (slot m.table fid)) [
  | inl gone ↦
      let no_slot : slot t.table fid ≡ none =
        x.slots fid ∙ ap (λ (o : Option SharedMem). referenced o (count fid (fid ∷ fds))) gone in
      rw (no_slot, SharedMemory.close)
        (record {
          slots = λ j. elim (Bool-cases (fid == j)) [
            | inl same ↦
                let k : fid ≡ j = ground arith in
                subst (λ (y : ℕ). slot t.table y ≡ referenced (slot m.table y) (count y fds)) k
                  (no_slot ∙ sym (ap (λ (o : Option SharedMem). referenced o (count fid fds)) gone))
            | inr other ↦ ground (arith, x.slots j)
          ];
          same_pmm = x.same_pmm;
        })
  | inr (o, here) ↦
      let live : slot t.table fid
          ≡ some (record o { refcount = o.refcount + count fid (fid ∷ fds) }) =
        x.slots fid ∙ ap (λ (q : Option SharedMem). referenced q (count fid (fid ∷ fds))) here in
      let left : (o.refcount + count fid (fid ∷ fds) == 1) ≡ false =
        ground (arith, held fid o here) in
      rw (live, SharedMemory.close, left)
        (record {
          slots = λ j.
              slot-set-some t.table fid (record o { refcount = o.refcount + count fid (fid ∷ fds) })
                (some (record o { refcount = o.refcount + count fid (fid ∷ fds) - 1 })) j live
              ∙ elim (Bool-cases (fid == j)) [
                | inl same ↦
                    let k : fid ≡ j = ground arith in
                    let at_j : slot m.table j ≡ some o =
                      subst (λ (y : ℕ). slot m.table y ≡ some o) k here in
                    ground (arith, at_j)
                | inr other ↦ ground (arith, x.slots j)
              ];
          same_pmm = x.same_pmm;
        })
]

close_all-Extra :
    (fds : List ℕ) (m t : Shm) → AllHeld m → Extra m t fds → Extra m (close_all t fds) []
unfolding close_all
close_all-Extra [] m t held x = x
close_all-Extra (fid ∷ fds) m t held x =
    close_all-Extra fds m (SharedMemory.close t fid) held (close-Extra m t fid fds held x)

referenced-zero : (o : Option SharedMem) → referenced o 0 ≡ o
referenced-zero none = refl
referenced-zero (some o) = ground arith

-- `send` to a peer that is gone fails and leaves the sockets as they were; the references that it
-- took for the descriptors are dropped again, so that every shared-memory object has the count of
-- before, and no frame is given back. Every object is assumed to hold a reference of its own.
pub send_dead_peer :
    (s : Sockets) (m : Shm) (id peer_id : ℕ) (bytes fds : List ℕ)
    → AllHeld m
    → peer_of s id ≡ some peer_id
    → slot s.endpoints peer_id ≡ none
    → ((send s m id bytes fds).0 ≡ none)
      × ((send s m id bytes fds).1 ≡ s)
      × ((j : ℕ) → slot (send s m id bytes fds).2.table j ≡ slot m.table j)
      × ((send s m id bytes fds).2.pmm ≡ m.pmm)
unfolding send
send_dead_peer s m id peer_id bytes fds held linked gone =
    let x =
      close_all-Extra fds m (dup_all m fds) held
        (record { slots = λ j. (slot-dup_all fds m j).0; same_pmm = (slot-dup_all fds m 0).1 }) in
    rw (linked, send, gone)
      (refl, refl, λ j. x.slots j ∙ referenced-zero (slot m.table j), x.same_pmm)

-- `send` to a live peer takes one reference on each object for each time that it is passed.
pub send_counts :
    (s : Sockets) (m : Shm) (id peer_id : ℕ) (peer : Endpoint) (bytes fds : List ℕ) (j : ℕ)
    (o : SharedMem)
    → peer_of s id ≡ some peer_id
    → slot s.endpoints peer_id ≡ some peer
    → slot m.table j ≡ some o
    → slot (send s m id bytes fds).2.table j
      ≡ some (record o { refcount = o.refcount + count j fds })
unfolding send
send_counts s m id peer_id peer bytes fds j o linked live here =
    rw (linked, send, live)
      ((slot-dup_all fds m j).0 ∙ ap (λ (q : Option SharedMem). referenced q (count j fds)) here)
