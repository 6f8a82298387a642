-- ===== src/Fat/Geometry/Directories.antt =====
-- src/fat.rs: the operations on directories keep the geometry of the volume.
use macha_os.Prelude.{
  ℕ, zero, suc, ◌+◌, ◌/◌, ◌≡◌, refl, ◌∙◌, Bool, Option, none, some, List, [], length, ltb, Result,
  ok, err,
}
use macha_os.Fat.{Device, Fat32, Fault, error, panic, Step, is_eof, chain_guard}
use macha_os.Fat.Table.{next_cluster, set_cluster, alloc_cluster, last_from}
use macha_os.Fat.Entries.{DirEntry, Scan, scan_slots, find_run, DateTime, dir_entries}
use macha_os.Fat.Directory.{
  Mounted, on_table, read_at, write_at, read_cluster, write_cluster, cluster_sectors, scan_sectors,
  read_dir_from, read_dir, or_none, find_dir_entry, delete_entry_at, run_in_sectors, free_run_from,
  find_free_run, clear_sectors, link_new, extend_dir, place_or_extend, write_entries_at,
  write_dir_entries,
}
use macha_os.Fat.Geometry.{
  Geometry, geometry, Keeps, Keeps->>=, Keeps-if, Keeps-Bool, Keeps-Option, set_cluster-Keeps,
  next_cluster-Keeps, alloc_cluster-Keeps, last_from-Keeps,
}

module _ (dev : Device) where
  unfoldable pub layout : Mounted dev → Geometry
  layout w = geometry w.volume

  pub on_table-Keeps :
      {A : Type 0} (m : Step Fat32 A) → Keeps geometry m → Keeps layout (on_table dev m)
  unfolding layout
  on_table-Keeps m h w = h w.volume

  pub write_at-Keeps : (n : ℕ) (bytes : List ℕ) → Keeps layout (write_at dev n bytes)
  unfolding write_at layout
  write_at-Keeps n bytes w = refl

  pub read_cluster-Keeps : (c s : ℕ) → Keeps layout (read_cluster dev c s)
  unfolding read_cluster read_at
  read_cluster-Keeps c s w = refl

  pub write_cluster-Keeps : (c s : ℕ) (bytes : List ℕ) → Keeps layout (write_cluster dev c s bytes)
  unfolding write_cluster write_at layout
  write_cluster-Keeps c s bytes w = refl

  scan_sectors-Keeps : (left s c : ℕ) (st : Scan) → Keeps layout (scan_sectors dev left s c st)
  unfolding scan_sectors
  scan_sectors-Keeps zero s c st = λ w. refl
  scan_sectors-Keeps (suc left) s c st =
      Keeps->>= layout (read_cluster dev c s) _ (read_cluster-Keeps c s) (λ sector.
        let (ended, st') = scan_slots 16 sector 0 (c, s) st in
        Keeps-Bool layout ended _ _ (λ w. refl) (scan_sectors-Keeps left (s + 1) c st'))

  read_dir_from-Keeps : (left c : ℕ) (st : Scan) → Keeps layout (read_dir_from dev left c st)
  unfolding read_dir_from
  read_dir_from-Keeps zero c st = λ w. refl
  read_dir_from-Keeps (suc left) c st = λ w.
      Keeps->>= layout (scan_sectors dev (cluster_sectors dev w) 0 c st) _
        (scan_sectors-Keeps (cluster_sectors dev w) 0 c st)
        (λ found.
          Keeps-Bool layout found.0 _ _ (λ u. refl)
            (Keeps->>= layout (on_table dev (next_cluster c)) _
              (on_table-Keeps (next_cluster c) (next_cluster-Keeps c))
              (λ next.
                Keeps-Bool layout (is_eof next) _ _ (λ u. refl)
                  (Keeps-if layout (ltb next 2) _ _ (λ u. refl)
                    (read_dir_from-Keeps left next found.1)))))
        w

  pub read_dir-Keeps : (c : ℕ) → Keeps layout (read_dir dev c)
  unfolding read_dir
  read_dir-Keeps c = read_dir_from-Keeps (chain_guard + 1) c (record { parts = []; out = [] })

  pub find_dir_entry-Keeps : (c : ℕ) (name : List ℕ) → Keeps layout (find_dir_entry dev c name)
  unfolding find_dir_entry
  find_dir_entry-Keeps c name w = same (read_dir dev c w) ∙ read_dir-Keeps c w
    where
      same :
          (r : Result Fault (List DirEntry) × Mounted dev)
          → layout (or_none dev r name).1 ≡ layout r.1
      same (ok entries, u) = refl
      same (err (error e), u) = refl
      same (err panic, u) = refl

  pub delete_entry_at-Keeps : (c o : ℕ) → Keeps layout (delete_entry_at dev c o)
  unfolding delete_entry_at
  delete_entry_at-Keeps c o =
      Keeps->>= layout (read_cluster dev c (o / 512)) _ (read_cluster-Keeps c (o / 512))
        (λ sector. write_cluster-Keeps c (o / 512) _)

  run_in_sectors-Keeps : (left s c slots : ℕ) → Keeps layout (run_in_sectors dev left s c slots)
  unfolding run_in_sectors
  run_in_sectors-Keeps zero s c slots = λ w. refl
  run_in_sectors-Keeps (suc left) s c slots =
      Keeps->>= layout (read_cluster dev c s) _ (read_cluster-Keeps c s) (λ sector.
        Keeps-Option layout (find_run 16 sector slots 0 0) _ _ (λ offset w. refl)
          (run_in_sectors-Keeps left (s + 1) c slots))

  free_run_from-Keeps : (left c slots : ℕ) → Keeps layout (free_run_from dev left c slots)
  unfolding free_run_from
  free_run_from-Keeps zero c slots = λ w. refl
  free_run_from-Keeps (suc left) c slots = λ w.
      Keeps->>= layout (run_in_sectors dev (cluster_sectors dev w) 0 c slots) _
        (run_in_sectors-Keeps (cluster_sectors dev w) 0 c slots)
        (λ found.
          Keeps-Option layout found _ _ (λ place u. refl)
            (Keeps->>= layout (on_table dev (next_cluster c)) _
              (on_table-Keeps (next_cluster c) (next_cluster-Keeps c))
              (λ next.
                Keeps-Bool layout (is_eof next) _ _ (λ u. refl)
                  (free_run_from-Keeps left next slots))))
        w

  clear_sectors-Keeps : (left s c : ℕ) → Keeps layout (clear_sectors dev left s c)
  unfolding clear_sectors
  clear_sectors-Keeps zero s c = λ w. refl
  clear_sectors-Keeps (suc left) s c =
      Keeps->>= layout (write_cluster dev c s _) _ (write_cluster-Keeps c s _)
        (λ u. clear_sectors-Keeps left (s + 1) c)

  link_new-Keeps : (parent : ℕ) → Keeps geometry (link_new parent)
  link_new-Keeps parent = Keeps->>= geometry alloc_cluster _ alloc_cluster-Keeps (λ c.
      Keeps->>= geometry (last_from (chain_guard + 1) parent) _
        (last_from-Keeps (chain_guard + 1) parent)
        (λ last.
          Keeps->>= geometry (set_cluster last c) _ (set_cluster-Keeps last c) (λ u v. refl)))

  extend_dir-Keeps : (parent : ℕ) → Keeps layout (extend_dir dev parent)
  unfolding extend_dir
  extend_dir-Keeps parent w =
      Keeps->>= layout (on_table dev (link_new parent)) _
        (on_table-Keeps (link_new parent) (link_new-Keeps parent))
        (λ c.
          Keeps->>= layout (clear_sectors dev (cluster_sectors dev w) 0 c) _
            (clear_sectors-Keeps (cluster_sectors dev w) 0 c) (λ u v. refl))
        w

  place_or_extend-Keeps :
      (parent : ℕ) (found : Option (ℕ × ℕ)) → Keeps layout (place_or_extend dev parent found)
  place_or_extend-Keeps parent none =
      Keeps->>= layout (extend_dir dev parent) _ (extend_dir-Keeps parent) (λ c w. refl)
  place_or_extend-Keeps parent (some place) = λ w. refl

  write_entries_at-Keeps :
      (entries : List (List ℕ)) (place : ℕ × ℕ) → Keeps layout (write_entries_at dev entries place)
  unfolding write_entries_at
  write_entries_at-Keeps entries (c, o) =
      Keeps->>= layout (read_cluster dev c (o / 512)) _ (read_cluster-Keeps c (o / 512))
        (λ sector. Keeps-if layout _ _ _ (write_cluster-Keeps c (o / 512) _) (λ w. refl))

  pub write_dir_entries-Keeps :
      (now : DateTime) (parent : ℕ) (name : List ℕ) (first size : ℕ) (is_dir : Bool)
      → Keeps layout (write_dir_entries dev now parent name first size is_dir)
  unfolding write_dir_entries find_free_run
  write_dir_entries-Keeps now parent name first size is_dir =
      let entries = dir_entries name first size is_dir now in
      Keeps->>= layout (free_run_from dev (chain_guard + 1) parent (length entries)) _
        (free_run_from-Keeps (chain_guard + 1) parent (length entries))
        (λ found.
          Keeps->>= layout (place_or_extend dev parent found) _ (place_or_extend-Keeps parent found)
            (write_entries_at-Keeps entries))
