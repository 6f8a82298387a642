-- ===== src/Fat/Directory.antt =====
-- src/fat.rs: directories on the disk. A sector is its 512 bytes. The readings of the clock are an argument.
use macha_os.Prelude.{
  ℕ, zero, suc, ◌+◌, ◌/◌, ◌%◌, Bool, true, false, Option, none, some, List, [], length, set,
  replicate, ltb, leb, if◌then◌else◌, Result, ok, err,
}
use Prim.Native.String.{String}
use macha_os.Fat.{
  Device, Fat32, Fault, FatError, error, panic, Step, done, fail, ◌>>=◌, ◌>>◌, is_eof, chain_guard,
  cluster_to_sector,
}
use macha_os.Fat.Table.{next_cluster, set_cluster, alloc_cluster, last_from}
use macha_os.Fat.Names.{name_matches}
use macha_os.Fat.Entries.{
  DirEntry, Scan, scan_slots, find_entry, find_run, erase_long, DateTime, dir_entries, put_bytes,
  flatten,
}

-- A new cluster at the end of the chain of `parent`.
abbrev pub link_new : ℕ → Step Fat32 ℕ
link_new parent = alloc_cluster >>= λ new_cluster. last_from (chain_guard + 1) parent >>= λ current.
    set_cluster current new_cluster >> done new_cluster

module _ (dev : Device) where
  open dev use {Disk, read_sector, write_sector}

  pub record Mounted : Type 0 where
    pub volume : Fat32
    pub disk : Disk

  -- A step on the table alone.
  abbrev pub on_table : {A : Type 0} → Step Fat32 A → Step Mounted A
  on_table m w = let (r, volume) = m w.volume in (r, record w { volume = volume })

  abbrev pub io_result : {A : Type 0} → Result String A → Result Fault A
  io_result (ok a) = ok a
  io_result (err message) = err (error (FatError.io message))

  unfoldable pub read_at : ℕ → Step Mounted (List ℕ)
  read_at sector w = (io_result (read_sector w.disk sector), w)

  unfoldable pub write_at : ℕ → List ℕ → Step Mounted (Unit {0})
  write_at sector bytes w =
      let (r, disk) = write_sector w.disk sector bytes in (io_result r, record w { disk = disk })

  -- Sector `s` of a cluster.
  abbrev pub sector_of : Mounted → ℕ → ℕ → ℕ
  sector_of w cluster s = cluster_to_sector w.volume cluster + s

  unfoldable pub read_cluster : ℕ → ℕ → Step Mounted (List ℕ)
  unfolding read_at
  read_cluster cluster s w = read_at (sector_of w cluster s) w

  unfoldable pub write_cluster : ℕ → ℕ → List ℕ → Step Mounted (Unit {0})
  unfolding write_at
  write_cluster cluster s bytes w = write_at (sector_of w cluster s) bytes w

  abbrev pub cluster_sectors : Mounted → ℕ
  cluster_sectors w = w.volume.sectors_per_cluster

  -- `for s in 0..sectors_per_cluster`, with `left` sectors to go.
  unfoldable pub scan_sectors : ℕ → ℕ → ℕ → Scan → Step Mounted (Bool × Scan)
  scan_sectors zero s cluster st = done (false, st)
  scan_sectors (suc left) s cluster st = read_cluster cluster s >>= λ sector.
      let (ended, st') = scan_slots 16 sector 0 (cluster, s) st in
      elim ended [ true ↦ done (true, st') | false ↦ scan_sectors left (s + 1) cluster st' ]

  -- The loop over the chain, with `left` rounds until `guard` passes the limit.
  unfoldable pub read_dir_from : ℕ → ℕ → Scan → Step Mounted (List DirEntry)
  read_dir_from zero cluster st w = fail (error FatError.corrupt) w
  read_dir_from (suc left) cluster st w =
      (scan_sectors (cluster_sectors w) 0 cluster st >>= λ found. elim found.0 [
        | true ↦ done found.1.out
        | false ↦ on_table (next_cluster cluster) >>= λ next. elim (is_eof next) [
          | true ↦ done found.1.out
          | false ↦
              if ltb next 2 then fail (error FatError.corrupt) else read_dir_from left next found.1
        ]
      ])
        w

  unfoldable pub read_dir : ℕ → Step Mounted (List DirEntry)
  unfolding read_dir_from
  read_dir cluster = read_dir_from (chain_guard + 1) cluster (record { parts = []; out = [] })

  -- Errors of the search read as no entry.
  abbrev pub or_none :
      Result Fault (List DirEntry) × Mounted → List ℕ → Result Fault (Option DirEntry) × Mounted
  or_none (ok entries, w) name = (ok (find_entry (λ e. name_matches e.name name) entries), w)
  or_none (err (error e), w) name = (ok none, w)
  or_none (err panic, w) name = (err panic, w)

  unfoldable pub find_dir_entry : ℕ → List ℕ → Step Mounted (Option DirEntry)
  unfolding read_dir
  find_dir_entry parent name w = or_none (read_dir parent w) name

  unfoldable pub delete_entry_at : ℕ → ℕ → Step Mounted (Unit {0})
  unfolding read_cluster write_cluster erase_long
  delete_entry_at cluster offset = read_cluster cluster (offset / 512) >>= λ sector.
      write_cluster cluster (offset / 512)
        (erase_long (offset % 512 / 32) (set sector (offset % 512) 0xe5))

  -- The search of `find_free_run` in the sectors of one cluster: the offset is the one in the sector.
  unfoldable pub run_in_sectors : ℕ → ℕ → ℕ → ℕ → Step Mounted (Option (ℕ × ℕ))
  run_in_sectors zero s cluster slots = done none
  run_in_sectors (suc left) s cluster slots = read_cluster cluster s >>= λ sector.
      elim (find_run 16 sector slots 0 0) [
        | some offset ↦ done (some (cluster, offset))
        | none ↦ run_in_sectors left (s + 1) cluster slots
      ]

  unfoldable pub free_run_from : ℕ → ℕ → ℕ → Step Mounted (Option (ℕ × ℕ))
  free_run_from zero cluster slots w = fail (error FatError.corrupt) w
  free_run_from (suc left) cluster slots w =
      (run_in_sectors (cluster_sectors w) 0 cluster slots >>= λ found. elim found [
        | some place ↦ done (some place)
        | none ↦ on_table (next_cluster cluster) >>= λ next. elim (is_eof next) [
          | true ↦ done none
          | false ↦ free_run_from left next slots
        ]
      ])
        w

  unfoldable pub find_free_run : ℕ → ℕ → Step Mounted (Option (ℕ × ℕ))
  unfolding free_run_from
  find_free_run parent slots = free_run_from (chain_guard + 1) parent slots

  unfoldable pub clear_sectors : ℕ → ℕ → ℕ → Step Mounted (Unit {0})
  clear_sectors zero s cluster = done tt
  clear_sectors (suc left) s cluster =
      write_cluster cluster s (replicate 512 0) >> clear_sectors left (s + 1) cluster

  unfoldable pub extend_dir : ℕ → Step Mounted ℕ
  unfolding clear_sectors
  extend_dir parent w =
      (on_table (link_new parent) >>= λ new_cluster.
      clear_sectors (cluster_sectors w) 0 new_cluster >> done new_cluster)
        w

  abbrev pub place_or_extend : ℕ → Option (ℕ × ℕ) → Step Mounted (ℕ × ℕ)
  place_or_extend parent (some place) = done place
  place_or_extend parent none = extend_dir parent >>= λ cluster. done (cluster, 0)

  -- A slice past the end of the sector panics.
  unfoldable pub write_entries_at : List (List ℕ) → ℕ × ℕ → Step Mounted (Unit {0})
  write_entries_at entries (cluster, offset) = read_cluster cluster (offset / 512) >>= λ sector.
      if leb (offset % 512 + length (flatten entries)) 512
      then write_cluster cluster (offset / 512) (put_bytes sector (offset % 512) (flatten entries))
      else fail panic

  unfoldable pub write_dir_entries : DateTime → ℕ → List ℕ → ℕ → ℕ → Bool → Step Mounted (Unit {0})
  unfolding find_free_run extend_dir write_entries_at dir_entries
  write_dir_entries now parent name first_cluster size is_dir =
      let entries = dir_entries name first_cluster size is_dir now in
      find_free_run parent (length entries) >>= λ found.
      place_or_extend parent found >>= write_entries_at entries
