-- ===== src/Descriptors/Table.antt =====
-- src/process.rs: which descriptor a new entry gets, and what closing it undoes.
use macha_os.Prelude.{
  ℕ, ◌<◌, ◌≤◌, ◌≡◌, ◌≢◌, refl, sym, ap, ◌∙◌, true, false, Option, none, some, List, inl, inr, arith,
  length, set, ltb, ◌==◌, ==_iff, if◌then◌else◌, Bool-cases, slot, slot-insert_from,
  insert_from-free, insert_from-lowest, insert_from-skips, slot-set-some, Bool, Result, ok, err, [],
}
use macha_os.Fat.{Device, Fault, done, next_step, ◌>>=◌}
use macha_os.Fat.Entries.{DateTime}
use macha_os.Vfs.{drop_handle}
use macha_os.Descriptors.{
  FdEntry, first_file_fd, alloc_fd, World, drop_entry, close_fd, on_files, file, shm, socket,
}

-- In a table with the three reserved places a new entry gets the lowest free descriptor from 3 on,
-- and no other place changes.
pub alloc_fd_lem :
    (fds : List (Option FdEntry)) (entry : FdEntry)
    → first_file_fd ≤ length fds
    → (first_file_fd ≤ (alloc_fd fds entry).0)
      × (slot fds (alloc_fd fds entry).0 ≡ none)
      × ((j : ℕ) → first_file_fd ≤ j → j < (alloc_fd fds entry).0 → slot fds j ≢ none)
      × ((j : ℕ)
          → slot (alloc_fd fds entry).1 j
            ≡ (if (alloc_fd fds entry).0 == j then some entry else slot fds j))
unfolding alloc_fd
alloc_fd_lem fds entry room = (
  insert_from-skips 3 fds entry room,
  insert_from-free 3 fds entry,
  insert_from-lowest 3 fds entry,
  slot-insert_from 3 fds entry,
)

module _ (dev : Device) (now : DateTime) where
  drop_entry-fds : (e : FdEntry) (w : World dev) → (drop_entry dev now e w).1.fds ≡ w.fds
  unfolding drop_entry
  drop_entry-fds (file h) w = refl
  drop_entry-fds (shm id cursor) w = refl
  drop_entry-fds (socket id) w = refl

  next-rest :
      (r : Result Fault (Unit {0}) × World dev)
      → (record (next_step (λ u. done true) r).1 { fds = [] }) ≡ (record (r.1) { fds = [] })
  next-rest (ok u, w) = refl
  next-rest (err e, w) = refl

  next-fds :
      (r : Result Fault (Unit {0}) × World dev) → (next_step (λ u. done true) r).1.fds ≡ r.1.fds
  next-fds (ok u, w) = refl
  next-fds (err e, w) = refl

  -- `close_fd` of an open descriptor from 3 on drops its entry, frees the descriptor and leaves all
  -- others, also where the drop panics.
  pub close_fd_lem :
      (fd : ℕ) (w : World dev) (e : FdEntry)
      → first_file_fd ≤ fd
      → slot w.fds fd ≡ some e
      → (close_fd dev now fd w
          ≡ (drop_entry dev now e >>= λ u. done true) (record w { fds = set w.fds fd none }))
        × ((j : ℕ)
            → slot (close_fd dev now fd w).1.fds j ≡ (if fd == j then none else slot w.fds j))
  unfolding ◌>>=◌ close_fd drop_entry
  close_fd_lem fd w e from here = (
    closed,
    λ j.
        ap (λ (r : Result Fault Bool × World dev). slot r.1.fds j) closed
        ∙ ap (λ t. slot t j)
            (next-fds (drop_entry dev now e (record w { fds = set w.fds fd none }))
              ∙ drop_entry-fds e (record w { fds = set w.fds fd none }))
        ∙ slot-set-some w.fds fd e none j here,
  )
    where
      past : ltb fd first_file_fd ≡ false
      past = ground (arith, from)

      closed :
          close_fd dev now fd w
          ≡ (drop_entry dev now e >>= λ u. done true) (record w { fds = set w.fds fd none })
      closed = rw (close_fd, past, here) refl

  -- What closing has dropped, whatever the table of descriptors is.
  drop_entry-rest :
      (e : FdEntry) (w : World dev) (fds : List (Option FdEntry))
      → (record (next_step (λ u. done true) (drop_entry dev now e (record w { fds = fds }))).1 {
        fds = [];
      })
        ≡ (record (drop_entry dev now e w).1 { fds = [] })
  unfolding drop_entry
  drop_entry-rest (file h) w fds =
      next-rest (on_files dev (drop_handle dev now h) (record w { fds = fds }))
  drop_entry-rest (shm id cursor) w fds = refl
  drop_entry-rest (socket id) w fds = refl

  -- What allocating a descriptor for `entry` in `w` and then closing it leaves, which is `r`.
  pub record Reclosed (w : World dev) (entry : FdEntry) (fd : ℕ) (r : Result Fault Bool × World dev)
      : Type 0 where
    pub from : first_file_fd ≤ fd
    pub free : slot w.fds fd ≡ none
    pub lowest : (j : ℕ) → first_file_fd ≤ j → j < fd → slot w.fds j ≢ none
    pub places : (j : ℕ) → slot r.1.fds j ≡ slot w.fds j
    pub objects : r.1.objects ≡ (drop_entry dev now entry w).1.objects
    pub sockets : r.1.sockets ≡ (drop_entry dev now entry w).1.sockets
    pub files : r.1.files ≡ (drop_entry dev now entry w).1.files

  -- In a table with the three reserved places a new entry gets the lowest free descriptor from 3
  -- on; closing that descriptor gives every place of the table back as it was, and leaves the
  -- shared objects, the sockets and the volume as dropping the entry leaves them, also where
  -- writing a file back fails or panics.
  pub close_fd-alloc_fd :
      (w : World dev) (entry : FdEntry)
      → first_file_fd ≤ length w.fds
      → Reclosed w entry
          (alloc_fd w.fds entry).0
          (close_fd dev now (alloc_fd w.fds entry).0 (record w { fds = (alloc_fd w.fds entry).1 }))
  unfolding ◌>>=◌
  close_fd-alloc_fd w entry room =
      let (from, free, lowest, places) = alloc_fd_lem w.fds entry room in
      let fd : ℕ = (alloc_fd w.fds entry).0 in
      let here : slot (alloc_fd w.fds entry).1 fd ≡ some entry =
        places fd ∙ ap (λ b. if b then some entry else slot w.fds fd) ((==_iff fd fd).1 refl) in
      let (after, others) =
        close_fd_lem fd (record w { fds = (alloc_fd w.fds entry).1 }) entry from here in
      let rest =
        ap (λ (r : Result Fault Bool × World dev). record (r.1) { fds = [] }) after
        ∙ drop_entry-rest entry w (set (alloc_fd w.fds entry).1 fd none) in
      record {
        from = from;
        free = free;
        lowest = lowest;
        places = λ j. others j ∙ restored j fd (slot w.fds) free (places j);
        objects = ap (λ (v : World dev). v.objects) rest;
        sockets = ap (λ (v : World dev). v.sockets) rest;
        files = ap (λ (v : World dev). v.files) rest;
      }
    where
      restored :
          (j fd : ℕ) (old : ℕ → Option FdEntry)
          → old fd ≡ none
          → {now : Option FdEntry} → now ≡ (if fd == j then some entry else old j)
          → (if fd == j then none else now) ≡ old j
      restored j fd old free {now = now} e = elim (Bool-cases (fd == j)) [
        | inl same ↦ rw same (sym free ∙ ap old ((==_iff fd j).0 same))
        | inr other ↦ rw other (e ∙ rw other refl)
      ]
