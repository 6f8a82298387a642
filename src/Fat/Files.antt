-- ===== src/Fat/Files.antt =====
-- src/fat.rs: the operations on files and directories by their path, on a mounted volume. Paths and
-- contents are lists of bytes.
use macha_os.Prelude.{
  ℕ, ◌/◌, ◌%◌, ◌^◌, true, false, ◌&&◌, Option, none, some, List, [], ◌∷◌, ◌++◌, length, replicate,
  ltb, ◌==◌, if◌then◌else◌, Result, to_le_bytes,
}
use macha_os.Fat.{
  Device, Fat32, Fault, FatError, error, Step, done, fail, ◌>>=◌, ◌>>◌, fail_if, eof_mark, max_name,
}
use macha_os.Fat.Table.{set_cluster, alloc_cluster, free_chain}
use macha_os.Fat.Names.{name_matches, validate_name, same_bytes}
use macha_os.Fat.Entries.{DirEntry, find_entry, DateTime}
use macha_os.Fat.Contents.{store_content, flush_fat}
use macha_os.Fat.Directory.{
  Mounted, on_table, write_cluster, read_dir, find_dir_entry, delete_entry_at, write_dir_entries,
}

-- `split('/').filter(|c| !c.is_empty())`, with the bytes of the component that was begun.
abbrev pub keep : List ℕ → List (List ℕ) → List (List ℕ)
keep [] rest = rest
keep (c ∷ cs) rest = (c ∷ cs) ∷ rest

unfoldable pub components : List ℕ → List ℕ → List (List ℕ)
components begun [] = keep begun []
components begun (c ∷ cs) = elim (c == 47) [
  | true ↦ keep begun (components [] cs)
  | false ↦ components (begun ++ c ∷ []) cs
]

-- `parts.pop()`: the last component, and those before it.
abbrev pub pop : List (List ℕ) → Option (List (List ℕ) × List ℕ)
pop [] = none
pop (p ∷ []) = some ([], p)
pop (p ∷ q ∷ rest) = elim (pop (q ∷ rest)) [ none ↦ none | some r ↦ some (p ∷ r.0, r.1) ]

abbrev pub found_or : {S : Type 0} → Option DirEntry → FatError → Step S DirEntry
found_or none e = fail (error e)
found_or (some entry) e = done entry

-- An entry named `.` or `..`: its name with its padding, and its cluster.
abbrev pub dot_entry : List ℕ → ℕ → List ℕ
dot_entry name cluster =
    name
    ++ (0x10 ∷ replicate 8 0)
    ++ to_le_bytes 2 (cluster / 2 ^ 16)
    ++ replicate 4 0
    ++ to_le_bytes 2 (cluster % 2 ^ 16)
    ++ replicate 4 0

-- The first sector of a new directory.
unfoldable pub dot_sector : ℕ → ℕ → List ℕ
dot_sector cluster parent =
    dot_entry (46 ∷ replicate 10 32) cluster
    ++ dot_entry (46 ∷ 46 ∷ replicate 9 32) parent
    ++ replicate 448 0

abbrev pub new_cluster : Step Fat32 ℕ
new_cluster = alloc_cluster >>= λ c. set_cluster c eof_mark >> done c

module _ (dev : Device) where
  abbrev pub lift_result : {A : Type 0} → Result Fault A → Step (Mounted dev) A
  lift_result r w = (r, w)

  -- The directory that the components lead to.
  unfoldable pub walk : List (List ℕ) → ℕ → Step (Mounted dev) ℕ
  walk [] cluster = done cluster
  walk (part ∷ rest) cluster = read_dir dev cluster >>= λ entries.
      found_or (find_entry (λ e. e.is_dir && name_matches e.name part) entries) FatError.not_found
      >>= λ dir. walk rest dir.first_cluster

  abbrev pub resolve_from : Option (List (List ℕ) × List ℕ) → Step (Mounted dev) (ℕ × List ℕ)
  resolve_from none w = fail (error FatError.invalid_name) w
  resolve_from (some (parts, name)) w =
      (fail_if (ltb max_name (length name)) FatError.invalid_name
          >> (walk parts w.volume.root_cluster >>= λ cluster. done (cluster, name)))
        w

  unfoldable pub resolve_parent : List ℕ → Step (Mounted dev) (ℕ × List ℕ)
  unfolding components walk
  resolve_parent path = resolve_from (pop (components [] path))

  -- A zero-length file has no clusters.
  abbrev pub free_contents : DirEntry → Step (Mounted dev) (Unit {0})
  free_contents entry =
      if entry.first_cluster == 0 then done tt else on_table dev (free_chain entry.first_cluster)

  -- The file that a new one replaces.
  abbrev pub replace : Option DirEntry → Step (Mounted dev) (Unit {0})
  replace none = done tt
  replace (some existing) =
      fail_if existing.is_dir FatError.not_dir
      >> delete_entry_at dev existing.location.0 existing.location.1
      >> free_contents existing

  unfoldable pub write_file_impl : DateTime → List ℕ → List ℕ → Step (Mounted dev) (Unit {0})
  unfolding resolve_parent
  write_file_impl now path content = resolve_parent path >>= λ (parent, name).
      lift_result (validate_name name)
      >> (find_dir_entry dev parent name >>= λ existing.
          replace existing
          >> (store_content dev content >>= λ first_cluster.
              write_dir_entries dev now parent name first_cluster (length content % 2 ^ 32) false
              >> flush_fat dev))

  abbrev pub none_or_exists : Option DirEntry → Step (Mounted dev) (Unit {0})
  none_or_exists none = done tt
  none_or_exists (some entry) = fail (error FatError.already_exists)

  unfoldable pub make_dir_impl : DateTime → List ℕ → Step (Mounted dev) (Unit {0})
  unfolding resolve_parent dot_sector
  make_dir_impl now path = resolve_parent path >>= λ (parent, name).
      lift_result (validate_name name)
      >> (find_dir_entry dev parent name >>= none_or_exists)
      >> (on_table dev new_cluster >>= λ cluster.
          write_cluster dev cluster 0 (dot_sector cluster parent)
          >> write_dir_entries dev now parent name cluster 0 true
          >> flush_fat dev)

  abbrev pub check_empty : DirEntry → Step (Mounted dev) (Unit {0})
  check_empty entry =
      if entry.is_dir
      then (read_dir dev entry.first_cluster >>= λ contents.
          fail_if (ltb 0 (length contents)) FatError.not_empty)
      else done tt

  unfoldable pub remove_impl : List ℕ → Step (Mounted dev) (Unit {0})
  unfolding resolve_parent
  remove_impl path = resolve_parent path >>= λ (parent, name).
      find_dir_entry dev parent name >>= λ found. found_or found FatError.not_found >>= λ entry.
      check_empty entry
      >> delete_entry_at dev entry.location.0 entry.location.1
      >> free_contents entry
      >> flush_fat dev

  unfoldable pub rename_impl : DateTime → List ℕ → List ℕ → Step (Mounted dev) (Unit {0})
  unfolding resolve_parent
  rename_impl now path new_name = resolve_parent path >>= λ (parent, name).
      lift_result (validate_name new_name)
      >> (if same_bytes name new_name
          then done tt
          else find_dir_entry dev parent name >>= λ found.
              found_or found FatError.not_found >>= λ entry.
              (find_dir_entry dev parent new_name >>= none_or_exists)
              >> delete_entry_at dev entry.location.0 entry.location.1
              >> write_dir_entries dev now parent new_name entry.first_cluster entry.size
                  entry.is_dir
              >> flush_fat dev)
