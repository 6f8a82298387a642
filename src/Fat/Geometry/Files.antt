-- ===== src/Fat/Geometry/Files.antt =====
-- src/fat.rs: the operations on files keep the geometry of the volume.
use macha_os.Prelude.{
  ℕ, ◌+◌, ◌%◌, ◌^◌, refl, true, false, Option, none, some, List, length, ◌==◌, ltb,
}
use macha_os.Fat.{Device, FatError, Step, ◌>>=◌, fail_if, chain_guard, eof_mark}
use macha_os.Fat.Table.{set_cluster, alloc_cluster, free_chain}
use macha_os.Fat.Names.{validate_name, same_bytes}
use macha_os.Fat.Entries.{DirEntry, DateTime}
use macha_os.Fat.Directory.{Mounted, on_table, read_dir, find_dir_entry, delete_entry_at}
use macha_os.Fat.Contents.{store_content, flush_fat}
use macha_os.Fat.Files.{
  found_or, lift_result, resolve_parent, free_contents, replace, none_or_exists, check_empty,
  dot_sector, new_cluster, write_file_impl, make_dir_impl, remove_impl, rename_impl,
}
use macha_os.Fat.Geometry.{
  geometry, Keeps, Keeps->>=, Keeps->>, Keeps-if, set_cluster-Keeps, alloc_cluster-Keeps,
  free_chain-Keeps,
}
use macha_os.Fat.Geometry.Directories.{
  layout, on_table-Keeps, write_cluster-Keeps, read_dir-Keeps, find_dir_entry-Keeps,
  delete_entry_at-Keeps, write_dir_entries-Keeps,
}
use macha_os.Fat.Geometry.Operations.{
  fail_if-Keeps, found_or-Keeps, store_content-Keeps, flush_fat-Keeps, resolve_parent-Keeps,
}

module _ (dev : Device) where
  delete-Keeps :
      (entry : DirEntry)
      → Keeps (layout dev) (delete_entry_at dev entry.location.0 entry.location.1)
  delete-Keeps entry = delete_entry_at-Keeps dev entry.location.0 entry.location.1

  free_contents-Keeps : (entry : DirEntry) → Keeps (layout dev) (free_contents dev entry)
  free_contents-Keeps entry =
      Keeps-if (layout dev) (entry.first_cluster == 0) _ _ (λ w. refl)
        (on_table-Keeps dev (free_chain entry.first_cluster)
          (free_chain-Keeps (chain_guard + 1) entry.first_cluster))

  replace-Keeps : (o : Option DirEntry) → Keeps (layout dev) (replace dev o)
  replace-Keeps none = λ w. refl
  replace-Keeps (some e) =
      Keeps->> (layout dev) _ _
        (Keeps->> (layout dev) (fail_if e.is_dir FatError.not_dir) _
          (fail_if-Keeps dev e.is_dir FatError.not_dir) (delete-Keeps e))
        (free_contents-Keeps e)

  pub write_file_impl-Keeps :
      (now : DateTime) (path content : List ℕ)
      → Keeps (layout dev) (write_file_impl dev now path content)
  unfolding write_file_impl
  write_file_impl-Keeps now path content =
      Keeps->>= (layout dev) (resolve_parent dev path) _ (resolve_parent-Keeps dev path) (λ at.
        Keeps->> (layout dev) (lift_result dev (validate_name at.1)) _ (λ w. refl)
          (Keeps->>= (layout dev) (find_dir_entry dev at.0 at.1) _
            (find_dir_entry-Keeps dev at.0 at.1)
            (λ existing. Keeps->> (layout dev) (replace dev existing) _ (replace-Keeps existing) (
              Keeps->>= (layout dev) (store_content dev content) _ (store_content-Keeps dev content)
                (λ first.
                  Keeps->> (layout dev) _ (flush_fat dev)
                    (write_dir_entries-Keeps dev now at.0 at.1 first (length content % 2 ^ 32)
                      false)
                    (flush_fat-Keeps dev))))))

  none_or_exists-Keeps : (o : Option DirEntry) → Keeps (layout dev) (none_or_exists dev o)
  none_or_exists-Keeps none w = refl
  none_or_exists-Keeps (some e) w = refl

  absent-Keeps :
      (parent : ℕ) (name : List ℕ)
      → Keeps (layout dev) (find_dir_entry dev parent name >>= none_or_exists dev)
  absent-Keeps parent name =
      Keeps->>= (layout dev) (find_dir_entry dev parent name) _
        (find_dir_entry-Keeps dev parent name) none_or_exists-Keeps

  new_cluster-Keeps : Keeps geometry new_cluster
  new_cluster-Keeps =
      Keeps->>= geometry alloc_cluster _ alloc_cluster-Keeps (λ c.
        Keeps->> geometry (set_cluster c eof_mark) _ (set_cluster-Keeps c eof_mark) (λ v. refl))

  pub make_dir_impl-Keeps :
      (now : DateTime) (path : List ℕ) → Keeps (layout dev) (make_dir_impl dev now path)
  unfolding make_dir_impl
  make_dir_impl-Keeps now path =
      Keeps->>= (layout dev) (resolve_parent dev path) _ (resolve_parent-Keeps dev path) (λ at.
        Keeps->> (layout dev) _ _
          (Keeps->> (layout dev) (lift_result dev (validate_name at.1)) _ (λ w. refl)
            (absent-Keeps at.0 at.1))
          (Keeps->>= (layout dev) (on_table dev new_cluster) _
            (on_table-Keeps dev new_cluster new_cluster-Keeps)
            (λ c.
              Keeps->> (layout dev) _ (flush_fat dev)
                (Keeps->> (layout dev) _ _ (write_cluster-Keeps dev c 0 (dot_sector c at.0))
                  (write_dir_entries-Keeps dev now at.0 at.1 c 0 true))
                (flush_fat-Keeps dev))))

  check_empty-Keeps : (e : DirEntry) → Keeps (layout dev) (check_empty dev e)
  check_empty-Keeps e =
      Keeps-if (layout dev) e.is_dir _ _
        (Keeps->>= (layout dev) (read_dir dev e.first_cluster) _
          (read_dir-Keeps dev e.first_cluster)
          (λ contents. fail_if-Keeps dev (ltb 0 (length contents)) FatError.not_empty))
        (λ w. refl)

  -- The entry of a path's last component, and what follows with it.
  on_found :
      {A : Type 0} (parent : ℕ) (name : List ℕ) (f : DirEntry → Step (Mounted dev) A)
      → ((e : DirEntry) → Keeps (layout dev) (f e))
      → Keeps
          (layout dev)
          (find_dir_entry dev parent name >>= λ found. found_or found FatError.not_found >>= f)
  on_found parent name f h =
      Keeps->>= (layout dev) (find_dir_entry dev parent name) _
        (find_dir_entry-Keeps dev parent name)
        (λ found.
          Keeps->>= (layout dev) (found_or found FatError.not_found) _
            (found_or-Keeps dev found FatError.not_found) h)

  pub remove_impl-Keeps : (path : List ℕ) → Keeps (layout dev) (remove_impl dev path)
  unfolding remove_impl
  remove_impl-Keeps path =
      Keeps->>= (layout dev) (resolve_parent dev path) _ (resolve_parent-Keeps dev path) (λ at.
        on_found at.0 at.1 _ (λ e.
          Keeps->> (layout dev) _ (flush_fat dev)
            (Keeps->> (layout dev) _ _
              (Keeps->> (layout dev) _ _ (check_empty-Keeps e) (delete-Keeps e))
              (free_contents-Keeps e))
            (flush_fat-Keeps dev)))

  pub rename_impl-Keeps :
      (now : DateTime) (path new_name : List ℕ)
      → Keeps (layout dev) (rename_impl dev now path new_name)
  unfolding rename_impl
  rename_impl-Keeps now path new_name =
      Keeps->>= (layout dev) (resolve_parent dev path) _ (resolve_parent-Keeps dev path) (λ at.
        Keeps->> (layout dev) (lift_result dev (validate_name new_name)) _ (λ w. refl)
          (Keeps-if (layout dev) (same_bytes at.1 new_name) _ _ (λ w. refl)
            (on_found at.0 at.1 _ (λ e.
              Keeps->> (layout dev) _ (flush_fat dev)
                (Keeps->> (layout dev) _ _
                  (Keeps->> (layout dev) _ _ (absent-Keeps at.0 new_name) (delete-Keeps e))
                  (write_dir_entries-Keeps dev now at.0 new_name e.first_cluster e.size e.is_dir))
                (flush_fat-Keeps dev)))))
