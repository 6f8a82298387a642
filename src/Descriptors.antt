-- ===== src/Descriptors.antt =====
-- src/process.rs: the table of open descriptors of a process. Dropping an entry closes what it names,
-- so the operations take and return the shared-memory table, the sockets and the volume of the file
-- system, which stand in the record `World`.
pub mod Table
mod Tests
use macha_os.Prelude.{
  ℕ, Bool, true, false, Option, none, some, List, set, replicate, ltb, if◌then◌else◌, slot,
  insert_from,
}
use macha_os.Shm.{Shm, close as close_object}
use macha_os.Socket.{Sockets, close as close_endpoint}
use macha_os.Fat.{Device, Step, done, ◌>>=◌}
use macha_os.Fat.Entries.{DateTime}
use macha_os.Fat.Mount.{World as Files}
use macha_os.Vfs.{FileHandle, drop_handle}

pub data FdEntry : Type 0 where
  file : FileHandle → FdEntry
  shm : ℕ → ℕ → FdEntry
  socket : ℕ → FdEntry

abbrev pub first_file_fd : ℕ
first_file_fd = 3

-- The descriptors of a new process.
abbrev pub new_fds : List (Option FdEntry)
new_fds = replicate first_file_fd none

unfoldable pub alloc_fd : List (Option FdEntry) → FdEntry → ℕ × List (Option FdEntry)
alloc_fd fds entry = insert_from first_file_fd fds entry

abbrev pub fd_mut : List (Option FdEntry) → ℕ → Option FdEntry
fd_mut fds fd = slot fds fd

-- The volume of the file system with its disk, and what the clock reads at a write.
module _ (dev : Device) where
  pub record World : Type 0 where
    pub fds : List (Option FdEntry)
    pub objects : Shm
    pub sockets : Sockets
    pub files : Files dev

  abbrev pub on_files : Step (Files dev) (Unit {0}) → Step World (Unit {0})
  on_files m w = let r = m w.files in (r.0, record w { files = r.1 })

  -- `Drop` for an entry, and then for the file handle in it.
  unfoldable pub drop_entry : DateTime → FdEntry → Step World (Unit {0})
  drop_entry now (file h) w = on_files (drop_handle dev now h) w
  drop_entry now (shm id cursor) w = done tt (record w { objects = close_object w.objects id })
  drop_entry now (socket id) w =
      let (sockets, objects) = close_endpoint w.sockets w.objects id in
      done tt (record w { sockets = sockets; objects = objects })

  unfoldable pub close_fd : DateTime → ℕ → Step World Bool
  unfolding drop_entry
  close_fd now fd w = if ltb fd first_file_fd then done false w else elim (slot w.fds fd) [
    | none ↦ done false w
    | some entry ↦ (drop_entry now entry >>= λ u. done true) (record w { fds = set w.fds fd none })
  ]
