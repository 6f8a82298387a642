-- ===== src/Fat/Mount.antt =====
-- src/fat.rs: mounting the volume, and the operations that the rest of the kernel calls. `MOUNTED` is the
-- volume of the world, and the disk is there with or without it.
use macha_os.Prelude.{
  ℕ, zero, suc, ◌+◌, ◌-◌, ◌*◌, ◌%◌, ◌^◌, Bool, true, false, ◌&&◌, ◌||◌, not, Option, none, some,
  List, [], ◌∷◌, ◌++◌, length, replicate, ltb, ◌==◌, if◌then◌else◌, Result, ok, err,
}
use Prim.Native.Nat.{bit_and}
use macha_os.Fat.{Device, Fat32, Fault, FatError, error, Step, done, fail, ◌>>=◌, ◌>>◌, fail_if}
use macha_os.Fat.Table.{scan_free_clusters}
use macha_os.Fat.Names.{name_matches, same_bytes}
use macha_os.Fat.Entries.{DirEntry, find_entry, DateTime, byte_at, u16_at, u32_at}
use macha_os.Fat.Directory.{Mounted, io_result, read_dir, find_dir_entry}
use macha_os.Fat.Contents.{read_file_data}
use macha_os.Fat.Files.{
  components, found_or, walk, resolve_parent, write_file_impl, make_dir_impl, remove_impl,
  rename_impl,
}

pub record VolumeInfo : Type 0 where
  pub total_sectors : ℕ
  pub sectors_per_cluster : ℕ
  pub fat_sectors : ℕ
  pub free_clusters : ℕ
  pub root_cluster : ℕ

-- Whether the first sector is not that of a volume the code reads.
unfoldable pub bad_volume : List ℕ → Bool
bad_volume sector =
    not (u16_at sector 0x0b == 512)
    || (byte_at sector 0x0d == 0)
    || not (bit_and (byte_at sector 0x0d) (byte_at sector 0x0d - 1) == 0)
    || not (byte_at sector 0x1fe == 0x55)
    || not (byte_at sector 0x1ff == 0xaa)
    || (u32_at sector 0x24 == 0)
    || ltb (u32_at sector 0x2c) 2
    || (u32_at sector 0x20 == 0)

-- The volume of a first sector, with its table.
unfoldable pub volume_of : List ℕ → List ℕ → Fat32
volume_of sector fat = record {
  sectors_per_cluster = byte_at sector 0x0d;
  reserved_sectors = u16_at sector 0x0e;
  fat_count = byte_at sector 0x10;
  fat_size_sectors = u32_at sector 0x24;
  root_cluster = u32_at sector 0x2c;
  first_data_sector = (u16_at sector 0x0e + byte_at sector 0x10 * u32_at sector 0x24) % 2 ^ 32;
  total_sectors = u32_at sector 0x20;
  fat = fat;
  fat_dirty = replicate (u32_at sector 0x24) false;
  free_clusters = 0;
}

-- The `n` words from an offset of a sector.
unfoldable pub words_at : List ℕ → ℕ → ℕ → List ℕ
words_at sector offset zero = []
words_at sector offset (suc n) = u32_at sector offset ∷ words_at sector (offset + 4) n

module _ (dev : Device) where
  open dev use {Disk, read_sector}

  pub record World : Type 0 where
    pub mounted_volume : Option Fat32
    pub disk : Disk

  unfoldable pub read_word_sector : ℕ → Step Disk (List ℕ)
  read_word_sector sector d = (io_result dev (read_sector d sector), d)

  -- The sectors of the table from number `i`, with `left` to go.
  unfoldable pub read_fat : ℕ → ℕ → ℕ → Step Disk (List ℕ)
  read_fat zero reserved i = done []
  read_fat (suc left) reserved i = read_word_sector ((reserved + i) % 2 ^ 32) >>= λ sector.
      read_fat left reserved (i + 1) >>= λ rest. done (words_at sector 0 128 ++ rest)

  unfoldable pub open_volume : Step Disk Fat32
  unfolding read_fat read_word_sector
  open_volume = read_word_sector 0 >>= λ sector.
      fail_if (bad_volume sector) FatError.invalid_volume
      >> (read_fat (u32_at sector 0x24) (u16_at sector 0x0e) 0 >>= λ fat.
          done (volume_of sector fat))

  unfoldable pub mounted : World → Bool
  mounted w = elim w.mounted_volume [ none ↦ false | some v ↦ true ]

  abbrev pub mount_result : World → Result Fault Fat32 × Disk → Result Fault (Unit {0}) × World
  mount_result w (ok v, disk) =
      (ok tt, record { mounted_volume = some (scan_free_clusters v); disk = disk })
  mount_result w (err e, disk) = (err e, record w { disk = disk })

  -- `ready` is what `ata::device(0)` says: present, and no packet device.
  unfoldable pub mount : Bool → Step World (Unit {0})
  unfolding open_volume
  mount true w = mount_result w (open_volume w.disk)
  mount false w = fail (error FatError.no_disk) w

  unfoldable pub info : World → Option VolumeInfo
  info w = elim w.mounted_volume [
    | none ↦ none
    | some v ↦ some (record {
      total_sectors = v.total_sectors;
      sectors_per_cluster = v.sectors_per_cluster;
      fat_sectors = v.fat_size_sectors;
      free_clusters = v.free_clusters;
      root_cluster = v.root_cluster;
    })
  ]

  abbrev pub put_back : {A : Type 0} → Result Fault A × Mounted dev → Result Fault A × World
  put_back (r, m) = (r, record { mounted_volume = some m.volume; disk = m.disk })

  -- `guard.as_mut().ok_or(NoDisk)?`, and the operation on the volume.
  abbrev pub on_volume :
      {A : Type 0} → Step (Mounted dev) A → World → Option Fat32 → Result Fault A × World
  on_volume op w none = fail (error FatError.no_disk) w
  on_volume op w (some v) = put_back (op (record { volume = v; disk = w.disk }))

  abbrev pub with_volume : {A : Type 0} → Step (Mounted dev) A → Step World A
  with_volume op w = on_volume op w w.mounted_volume

  -- What `list_dir`, `read_file` and `is_dir` do with the volume.
  abbrev pub list_in : List ℕ → Step (Mounted dev) (List DirEntry)
  list_in path m = (walk dev (components [] path) m.volume.root_cluster >>= read_dir dev) m

  abbrev pub is_file : List ℕ → DirEntry → Bool
  is_file name e = not e.is_dir && name_matches e.name name

  abbrev pub read_in : List ℕ → Step (Mounted dev) (List ℕ)
  read_in path = resolve_parent dev path >>= λ (parent, name). read_dir dev parent >>= λ entries.
      found_or (find_entry (is_file name) entries) FatError.not_found >>= λ entry.
      read_file_data dev entry.first_cluster entry.size

  abbrev pub is_dir_in : List ℕ → Step (Mounted dev) Bool
  is_dir_in path =
      if same_bytes path (47 ∷ [])
      then done true
      else resolve_parent dev path >>= λ (parent, name). find_dir_entry dev parent name >>= λ found.
          found_or found FatError.not_found >>= λ entry. done entry.is_dir

  unfoldable pub list_dir : List ℕ → Step World (List DirEntry)
  list_dir path = with_volume (list_in path)

  unfoldable pub read_file : List ℕ → Step World (List ℕ)
  read_file path = with_volume (read_in path)

  unfoldable pub write_file : DateTime → List ℕ → List ℕ → Step World (Unit {0})
  write_file now path content = with_volume (write_file_impl dev now path content)

  unfoldable pub make_dir : DateTime → List ℕ → Step World (Unit {0})
  make_dir now path = with_volume (make_dir_impl dev now path)

  unfoldable pub remove : List ℕ → Step World (Unit {0})
  remove path = with_volume (remove_impl dev path)

  unfoldable pub rename : DateTime → List ℕ → List ℕ → Step World (Unit {0})
  rename now path new_name = with_volume (rename_impl dev now path new_name)

  unfoldable pub is_dir : List ℕ → Step World Bool
  is_dir path = with_volume (is_dir_in path)

  -- The move of a directory: only when it is empty.
  abbrev pub move_dir : DateTime → List ℕ → List ℕ → Step World (Unit {0})
  move_dir now src dst = list_dir src >>= λ entries.
      fail_if (ltb 0 (length entries)) FatError.not_empty >> make_dir now dst >> remove src

  abbrev pub move_contents : DateTime → List ℕ → List ℕ → Step World (Unit {0})
  move_contents now src dst = read_file src >>= λ file. write_file now dst file >> remove src

  unfoldable pub move_file : DateTime → List ℕ → List ℕ → Step World (Unit {0})
  unfolding is_dir list_dir read_file
  move_file now src dst =
      if same_bytes src dst
      then done tt
      else is_dir src >>= λ dir. if dir then move_dir now src dst else move_contents now src dst
