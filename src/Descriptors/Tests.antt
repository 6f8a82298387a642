-- ===== src/Descriptors/Tests.antt =====
-- src/process.rs: the theorems on the table of a new process, with a socket opened.
use macha_os.Prelude.{
  ℕ, true, false, Option, none, some, List, [], ◌∷◌, arith, ◌==◌, if◌then◌else◌, ok,
}
use macha_os.Pmm.{initial}
use macha_os.Fat.{Device}
use macha_os.Fat.Entries.{DateTime}
use macha_os.Vfs.{FileHandle}
use macha_os.Descriptors.{FdEntry, World, alloc_fd, close_fd, file, shm, socket}
use macha_os.Descriptors.Table.{close_fd-alloc_fd, Reclosed}

abbrev memory : Device
memory = record {
  Disk = ℕ → List ℕ;
  read_sector = λ d n. ok (d n);
  write_sector = λ d n bytes. (ok tt, λ m. if m == n then bytes else d m);
}

abbrev morning : DateTime
morning = record { year = 2024; month = 5; day = 17; hour = 9; minute = 30; second = 0 }

abbrev notes : FileHandle
notes = record {
  path = 47 ∷ 110 ∷ [];
  contents = 1 ∷ [];
  cursor = 1;
  dirty = true;
  writable = true;
  is_dir = false;
}

abbrev opened : List (Option FdEntry)
opened = none ∷ none ∷ none ∷ some (socket 0) ∷ none ∷ some (shm 0 0) ∷ []

abbrev world : World memory
world = record {
  fds = opened;
  objects = record { table = []; pmm = initial; bytes = λ a. 0 };
  sockets = record { endpoints = []; listeners = [] };
  files = record { mounted_volume = none; disk = λ n. [] };
}

close_fd-alloc_fd_example :
    Reclosed memory morning world (file notes) (alloc_fd opened (file notes)).0 (
      close_fd memory morning
        (alloc_fd opened (file notes)).0
        (record world { fds = (alloc_fd opened (file notes)).1 }))
close_fd-alloc_fd_example = close_fd-alloc_fd memory morning world (file notes) (omega arith)
