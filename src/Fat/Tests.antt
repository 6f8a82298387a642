-- ===== src/Fat/Tests.antt =====
-- src/fat.rs: a small volume on a disk in memory.
use macha_os.Prelude.{
  ℕ, ◌+◌, ◌*◌, ◌≤◌, ◌≡◌, refl, true, false, none, some, List, [], ◌∷◌, arith, replicate, ◌==◌,
  if◌then◌else◌, ok, ◌≢◌, sym, ap, ◌∙◌, ◌++◌,
}
use macha_os.Fat.{◌>>=◌, Device, Fat32}
use macha_os.Fat.Table.{count_free, free_chain, alloc_clusters}
use macha_os.Fat.Names.{assemble_lfn, long_entries, lfn_count}
use macha_os.Fat.Alloc.{IsValid}
use macha_os.Fat.Release.{Chain, Released, free_chain_lem}
use macha_os.Fat.Shortage.{Taken, alloc_clusters_lem}
use macha_os.Fat.LongNames.{assemble_lfn_lem, collect}
use macha_os.Fat.FreeRun.{find_run_lem, FreeFrom}
use macha_os.Fat.Entries.{find_run, put_bytes, DateTime}
use macha_os.Fat.Mount.{World}
use macha_os.Fat.Directory.{Mounted, write_cluster, write_at}
use macha_os.Fat.Contents.{flush_fat, read_sectors_into, write_in_cluster}
use macha_os.Fat.ReadBack.{IsFaithful, read_sectors_into-write_in_cluster}
use macha_os.Fat.Flush.{Flushed, flush_fat_lem}
use macha_os.Fat.Geometry.Sound.{IsSoundWorld}
use macha_os.Fat.Geometry.Reachable.{
  Call, mount_call, write_call, run, started, called, Reachable-IsSoundWorld,
}

-- The root directory in cluster 2, a file in clusters 3 and 4, and cluster 5 free.
abbrev small : Fat32
small = record {
  sectors_per_cluster = 1;
  reserved_sectors = 1;
  fat_count = 1;
  fat_size_sectors = 1;
  root_cluster = 2;
  first_data_sector = 2;
  total_sectors = 6;
  fat = 0x0ffffff8 ∷ 0x0fffffff ∷ 0x0fffffff ∷ 4 ∷ 0x0fffffff ∷ 0 ∷ [];
  fat_dirty = false ∷ [];
  free_clusters = 1;
}

small-IsValid : IsValid small
unfolding count_free
small-IsValid = record { marked = omega arith; small = omega arith; counted = refl }

alloc_clusters_lem_example : Taken 2 small (alloc_clusters 2 small)
alloc_clusters_lem_example = alloc_clusters_lem 2 small small-IsValid

small-Chain : Chain small.fat 3 (3 ∷ 4 ∷ [])
small-Chain = (
  refl,
  omega arith,
  refl,
  refl,
  (4, refl, cc, (refl, omega arith, refl, refl, (0x0fffffff, refl, cc, refl))),
)

free_chain_lem_example :
    (w : Fat32) × (free_chain 3 small ≡ (ok tt, w)) × Released small (3 ∷ 4 ∷ []) w
free_chain_lem_example = free_chain_lem small 3 (3 ∷ 4 ∷ []) small-IsValid small-Chain (omega arith)

-- "Name of a file"
abbrev long_name : List ℕ
long_name = 78 ∷ 97 ∷ 109 ∷ 101 ∷ 32 ∷ 111 ∷ 102 ∷ 32 ∷ 97 ∷ 32 ∷ 102 ∷ 105 ∷ 108 ∷ 101 ∷ []

assemble_lfn_lem_example :
    assemble_lfn (collect (long_entries 7 long_name (lfn_count long_name)) []) ≡ long_name
assemble_lfn_lem_example = assemble_lfn_lem long_name 7 (ground arith)

-- The first slot is in use, the two after it are not.
abbrev directory : List ℕ
directory = 65 ∷ replicate 511 0

found_at : find_run 16 directory 2 0 0 ≡ some 32
unfolding find_run
found_at = refl

find_run_lem_example : (32 + 2 * 32 ≤ 512) × FreeFrom directory 32 2
find_run_lem_example = find_run_lem directory 2 32 (omega arith) found_at

abbrev memory : Device
memory = record {
  Disk = ℕ → List ℕ;
  read_sector = λ d n. ok (d n);
  write_sector = λ d n bytes. (ok tt, λ m. if m == n then bytes else d m);
}

abbrev boot_sector : List ℕ
boot_sector =
    put_bytes (put_bytes (replicate 512 0) 0x0b (0 ∷ 2 ∷ 1 ∷ 1 ∷ 0 ∷ 1 ∷ [])) 0x1fe
      (0x55 ∷ 0xaa ∷ [])

abbrev disk : ℕ → List ℕ
disk n =
    if n == 0
    then put_bytes boot_sector 0x20 (6 ∷ 0 ∷ 0 ∷ 0 ∷ 1 ∷ 0 ∷ 0 ∷ 0 ∷ 0 ∷ 0 ∷ 0 ∷ 0 ∷ 2 ∷ [])
    else if n == 1
    then 0xf8
      ∷ 0xff
      ∷ 0xff
      ∷ 0x0f
      ∷ 0xff
      ∷ 0xff
      ∷ 0xff
      ∷ 0x0f
      ∷ 0xff
      ∷ 0xff
      ∷ 0xff
      ∷ 0x0f
      ∷ replicate 500 0
    else replicate 512 0

abbrev morning : DateTime
morning = record { year = 2024; month = 5; day = 17; hour = 9; minute = 30; second = 0 }

abbrev started_world : World memory
started_world = record { mounted_volume = none; disk = disk }

abbrev mounted_world : World memory
mounted_world = run memory (mount_call true) started_world

abbrev written : Call
written = write_call morning (47 ∷ 97 ∷ []) (1 ∷ 2 ∷ 3 ∷ [])

Reachable-IsSoundWorld_example : IsSoundWorld memory (run memory written mounted_world)
Reachable-IsSoundWorld_example =
    Reachable-IsSoundWorld memory (run memory written mounted_world)
      (called written mounted_world (called (mount_call true) started_world (started disk)))

memory-IsFaithful : IsFaithful memory
memory-IsFaithful = record {
  reads_back = λ d n bytes e h. ap ok (ap (λ r. r.1 n) (sym h) ∙ hit n bytes (d n));
  others_stay = λ d n m bytes ne. ap ok (miss m n bytes (d m) ne);
}
  where
    hit : (n : ℕ) (bytes old : List ℕ) → (if n == n then bytes else old) ≡ bytes
    hit n bytes old = ground arith

    miss : (m n : ℕ) (bytes old : List ℕ) → m ≢ n → (if m == n then bytes else old) ≡ old
    miss m n bytes old ne = ground (arith, ne)

-- A table of one sector, which has changed.
abbrev changed : Mounted memory
changed = record {
  volume = record small { fat = replicate 128 7; fat_dirty = true ∷ [] };
  disk = disk;
}

flush_fat_lem_example : Flushed memory 1 0 changed (flush_fat memory changed)
flush_fat_lem_example =
    flush_fat_lem memory memory-IsFaithful changed
      (record { entries = refl; marks = refl; has_sectors = omega arith; has_root = omega arith })
      (omega arith)

abbrev on_memory : Mounted memory
on_memory = record { volume = small; disk = disk }

abbrev three_bytes : List ℕ
three_bytes = 1 ∷ 2 ∷ 3 ∷ []

abbrev after_write : Mounted memory
after_write = record on_memory {
  disk = λ n. if n == 5 then three_bytes ++ replicate 509 0 else disk n;
}

writes : write_in_cluster memory 1 0 5 three_bytes on_memory ≡ (ok [], after_write)
unfolding write_in_cluster write_cluster write_at ◌>>=◌
writes = refl

read_sectors_into-write_in_cluster_example :
    read_sectors_into memory 1 0 5 3 [] after_write ≡ (ok (0, three_bytes), after_write)
read_sectors_into-write_in_cluster_example =
    read_sectors_into-write_in_cluster memory memory-IsFaithful 1 5 three_bytes [] on_memory
      after_write (omega arith) (omega arith) writes
