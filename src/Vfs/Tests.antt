-- ===== src/Vfs/Tests.antt =====
-- src/vfs.rs: the theorems on a three-byte file, over a volume that holds no file.
use macha_os.Prelude.{
  ok, ℕ, ◌+◌, ◌≡◌, refl, true, false, some, List, [], ◌∷◌, arith, replicate, ◌==◌, if◌then◌else◌,
}
use macha_os.Fat.{Device, ◌>>=◌}
use macha_os.Fat.Names.{same_bytes}
use macha_os.Fat.Files.{resolve_parent}
use macha_os.Fat.Directory.{find_dir_entry, scan_sectors, read_cluster}
use macha_os.Fat.Entries.{DateTime, scan_slots, read_slot, find_entry}
use macha_os.Fat.Mount.{World, is_dir, read_file}
use macha_os.Vfs.{
  FileHandle, start, read, write, seek, open_file, drop_handle, opened_file, file_handle,
}
use macha_os.Vfs.Access.{read-write}
use macha_os.Vfs.Disk.{drop-open_file}

abbrev memory : Device
memory = record {
  Disk = ℕ → List ℕ;
  read_sector = λ d n. ok (d n);
  write_sector = λ d n bytes. (ok tt, λ m. if m == n then bytes else d m);
}

abbrev morning : DateTime
morning = record { year = 2024; month = 5; day = 17; hour = 9; minute = 30; second = 0 }

abbrev file : FileHandle
file = record {
  path = 47 ∷ 110 ∷ [];
  contents = 1 ∷ 2 ∷ 3 ∷ [];
  cursor = 2;
  dirty = true;
  writable = true;
  is_dir = false;
}

read-write_example :
    (g : FileHandle) × (read (seek (write file (8 ∷ 9 ∷ [])).1 (start 2)).1 2
      ≡ some (8 ∷ 9 ∷ [], g))
    × (g.cursor ≡ 2 + 2)
read-write_example = read-write file (8 ∷ 9 ∷ []) refl refl (omega arith) (omega arith)

-- A volume with an empty root directory in cluster 2.
abbrev empty : World memory
empty = record {
  mounted_volume = some (record {
    sectors_per_cluster = 1;
    reserved_sectors = 1;
    fat_count = 1;
    fat_size_sectors = 1;
    root_cluster = 2;
    first_data_sector = 2;
    total_sectors = 6;
    fat = 0x0ffffff8 ∷ 0x0fffffff ∷ 0x0fffffff ∷ 0 ∷ 0 ∷ 0 ∷ [];
    fat_dirty = false ∷ [];
    free_clusters = 3;
  });
  disk = λ n. replicate 512 0;
}

-- "/n"
abbrev path : List ℕ
path = 47 ∷ 110 ∷ []

abbrev opened : FileHandle
opened = file_handle path 6 []

opens : open_file memory path 6 empty ≡ (ok (ok opened), empty)
unfolding open_file opened_file file_handle is_dir read_file ◌>>=◌ same_bytes resolve_parent
    find_dir_entry scan_sectors read_cluster scan_slots read_slot find_entry
opens = refl

drop-open_file_example : drop_handle memory morning opened empty ≡ (ok tt, empty)
drop-open_file_example = drop-open_file memory morning path 6 empty empty opened opens
