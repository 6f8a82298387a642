-- ===== src/Fat/ReadOnly.antt =====
-- src/fat.rs: the operations that only read, which leave the volume and the disk as they were.
use macha_os.Prelude.{
  ℕ, zero, suc, ◌+◌, ◌-◌, min, ◌≡◌, refl, sym, ap, ◌∙◌, Bool, ◌&&◌, Option, none, some, List, [],
  ◌∷◌, ◌++◌, length, get_elem?, take, ltb, ◌==◌, Result, ok, err,
}
use macha_os.Fat.{
  Device, Fat32, Fault, FatError, error, panic, Step, ◌>>=◌, fail_if, is_eof, chain_guard, max_name,
}
use macha_os.Fat.Table.{next_cluster, entry_step}
use macha_os.Fat.Names.{name_matches, same_bytes}
use macha_os.Fat.Entries.{DirEntry, Scan, scan_slots, find_entry}
use macha_os.Fat.Directory.{
  Mounted, on_table, read_cluster, read_at, cluster_sectors, scan_sectors, read_dir_from, read_dir,
  or_none, find_dir_entry,
}
use macha_os.Fat.Contents.{read_sectors_into, read_data, read_file_data}
use macha_os.Fat.Files.{found_or, walk, resolve_from, resolve_parent, components, pop}
use macha_os.Fat.Mount.{on_volume, with_volume, is_file, read_in, is_dir_in, read_file, is_dir}
use macha_os.Fat.Geometry.{Keeps, Keeps->>=, Keeps-if, Keeps-Bool}

-- The state as a whole.
abbrev all_of : {S : Type 0} → S → S
all_of s = s

-- A step that leaves its state as it was, also when it fails.
abbrev pub IsReadOnly : {S A : Type 0} → Step S A → Type 0
IsReadOnly m = Keeps all_of m

next_cluster-IsReadOnly : (c : ℕ) → IsReadOnly (next_cluster c)
unfolding next_cluster
next_cluster-IsReadOnly c v = elim (get_elem? v.fat c) as (λ o. (entry_step o v).1 ≡ v) [
  | none ↦ refl
  | some e ↦ refl
]

module _ (dev : Device) where
  read_next-IsReadOnly : (c : ℕ) → IsReadOnly (on_table dev (next_cluster c))
  read_next-IsReadOnly c w = ap (λ v. record w { volume = v }) (next_cluster-IsReadOnly c w.volume)

  read_cluster-IsReadOnly : (c s : ℕ) → IsReadOnly (read_cluster dev c s)
  unfolding read_cluster read_at
  read_cluster-IsReadOnly c s w = refl

  scan_sectors-IsReadOnly : (left s c : ℕ) (st : Scan) → IsReadOnly (scan_sectors dev left s c st)
  unfolding scan_sectors
  scan_sectors-IsReadOnly zero s c st = λ w. refl
  scan_sectors-IsReadOnly (suc left) s c st =
      Keeps->>= all_of (read_cluster dev c s) _ (read_cluster-IsReadOnly c s) (λ sector.
        let (ended, st') = scan_slots 16 sector 0 (c, s) st in
        Keeps-Bool all_of ended _ _ (λ w. refl) (scan_sectors-IsReadOnly left (s + 1) c st'))

  read_dir_from-IsReadOnly : (left c : ℕ) (st : Scan) → IsReadOnly (read_dir_from dev left c st)
  unfolding read_dir_from
  read_dir_from-IsReadOnly zero c st = λ w. refl
  read_dir_from-IsReadOnly (suc left) c st = λ w.
      Keeps->>= all_of (scan_sectors dev (cluster_sectors dev w) 0 c st) _
        (scan_sectors-IsReadOnly (cluster_sectors dev w) 0 c st)
        (λ found.
          Keeps-Bool all_of found.0 _ _ (λ u. refl)
            (Keeps->>= all_of (on_table dev (next_cluster c)) _ (read_next-IsReadOnly c) (λ next.
              Keeps-Bool all_of (is_eof next) _ _ (λ u. refl)
                (Keeps-if all_of (ltb next 2) _ _ (λ u. refl)
                  (read_dir_from-IsReadOnly left next found.1)))))
        w

  read_dir-IsReadOnly : (c : ℕ) → IsReadOnly (read_dir dev c)
  unfolding read_dir
  read_dir-IsReadOnly c =
      read_dir_from-IsReadOnly (chain_guard + 1) c (record { parts = []; out = [] })

  find_dir_entry-IsReadOnly : (c : ℕ) (name : List ℕ) → IsReadOnly (find_dir_entry dev c name)
  unfolding find_dir_entry
  find_dir_entry-IsReadOnly c name w = same (read_dir dev c w) ∙ read_dir-IsReadOnly c w
    where
      same : (r : Result Fault (List DirEntry) × Mounted dev) → (or_none dev r name).1 ≡ r.1
      same (ok entries, u) = refl
      same (err (error e), u) = refl
      same (err panic, u) = refl

  found_or-IsReadOnly :
      (o : Option DirEntry) (e : FatError) → IsReadOnly {S = Mounted dev} (found_or o e)
  found_or-IsReadOnly none e w = refl
  found_or-IsReadOnly (some entry) e w = refl

  guarded :
      {A : Type 0} (b : Bool) (e : FatError) (m : Step (Mounted dev) A)
      → IsReadOnly m
      → IsReadOnly (fail_if b e >>= λ u. m)
  guarded b e m h = Keeps->>= all_of (fail_if b e) _ (λ w. refl) (λ u. h)

  read_sectors_into-IsReadOnly :
      (left s c remaining : ℕ) (out : List ℕ)
      → IsReadOnly (read_sectors_into dev left s c remaining out)
  unfolding read_sectors_into
  read_sectors_into-IsReadOnly zero s c remaining out = λ w. refl
  read_sectors_into-IsReadOnly (suc left) s c remaining out =
      Keeps->>= all_of (read_cluster dev c s) _ (read_cluster-IsReadOnly c s) (λ sector.
        let n = min remaining 512 in
        Keeps-Bool all_of (remaining - n == 0) _ _ (λ w. refl)
          (read_sectors_into-IsReadOnly left (s + 1) c (remaining - n) (out ++ take n sector)))

  read_data-IsReadOnly :
      (left c remaining : ℕ) (out : List ℕ) → IsReadOnly (read_data dev left c remaining out)
  unfolding read_data
  read_data-IsReadOnly zero c remaining out =
      Keeps-if all_of (remaining == 0) _ _ (λ w. refl) (λ w. refl)
  read_data-IsReadOnly (suc left) c remaining out = λ w.
      Keeps-Bool all_of (remaining == 0) _ _ (λ u. refl)
        (guarded (ltb c 2) FatError.corrupt _ (
          Keeps->>= all_of (read_sectors_into dev (cluster_sectors dev w) 0 c remaining out) _
            (read_sectors_into-IsReadOnly (cluster_sectors dev w) 0 c remaining out)
            (λ got.
              Keeps->>= all_of (on_table dev (next_cluster c)) _ (read_next-IsReadOnly c) (λ next.
                guarded (ltb 0 got.0 && is_eof next) FatError.corrupt _
                  (read_data-IsReadOnly left next got.0 got.1)))))
        w

  walk-IsReadOnly : (parts : List (List ℕ)) (c : ℕ) → IsReadOnly (walk dev parts c)
  unfolding walk
  walk-IsReadOnly [] c = λ w. refl
  walk-IsReadOnly (part ∷ rest) c =
      Keeps->>= all_of (read_dir dev c) _ (read_dir-IsReadOnly c) (λ entries.
        Keeps->>= all_of
          (found_or (find_entry (λ e. e.is_dir && name_matches e.name part) entries)
            FatError.not_found)
          _ (found_or-IsReadOnly _ FatError.not_found)
          (λ dir. walk-IsReadOnly rest dir.first_cluster))

  resolve_parent-IsReadOnly : (path : List ℕ) → IsReadOnly (resolve_parent dev path)
  unfolding resolve_parent
  resolve_parent-IsReadOnly path = from (pop (components [] path))
    where
      from : (o : Option (List (List ℕ) × List ℕ)) → IsReadOnly (resolve_from dev o)
      from none w = refl
      from (some (parts, name)) w =
          guarded (ltb max_name (length name)) FatError.invalid_name _
            (Keeps->>= all_of (walk dev parts w.volume.root_cluster) _
              (walk-IsReadOnly parts w.volume.root_cluster) (λ c u. refl))
            w

  with_volume-IsReadOnly :
      {A : Type 0} (op : Step (Mounted dev) A) → IsReadOnly op → IsReadOnly (with_volume dev op)
  with_volume-IsReadOnly op h w = go w.mounted_volume refl
    where
      go : (o : Option Fat32) → w.mounted_volume ≡ o → (on_volume dev op w o).1 ≡ w
      go none at = refl
      go (some v) at =
          ap (λ (m : Mounted dev). record { mounted_volume = some m.volume; disk = m.disk })
            (h (record { volume = v; disk = w.disk }))
          ∙ ap (λ o. record w { mounted_volume = o }) (sym at)

  pub read_file-IsReadOnly : (path : List ℕ) → IsReadOnly (read_file dev path)
  unfolding read_file read_file_data
  read_file-IsReadOnly path = with_volume-IsReadOnly (read_in dev path) (
      Keeps->>= all_of (resolve_parent dev path) _ (resolve_parent-IsReadOnly path) (λ at.
        Keeps->>= all_of (read_dir dev at.0) _ (read_dir-IsReadOnly at.0) (λ entries.
          Keeps->>= all_of (found_or (find_entry (is_file dev at.1) entries) FatError.not_found) _
            (found_or-IsReadOnly _ FatError.not_found)
            (λ entry. read_data-IsReadOnly (chain_guard + 1) entry.first_cluster entry.size []))))

  pub is_dir-IsReadOnly : (path : List ℕ) → IsReadOnly (is_dir dev path)
  unfolding is_dir
  is_dir-IsReadOnly path = with_volume-IsReadOnly (is_dir_in dev path) (
      Keeps-if all_of (same_bytes path (47 ∷ [])) _ _ (λ w. refl)
        (Keeps->>= all_of (resolve_parent dev path) _ (resolve_parent-IsReadOnly path) (λ at.
          Keeps->>= all_of (find_dir_entry dev at.0 at.1) _ (find_dir_entry-IsReadOnly at.0 at.1)
            (λ found.
              Keeps->>= all_of (found_or found FatError.not_found) _
                (found_or-IsReadOnly found FatError.not_found) (λ entry u. refl)))))
