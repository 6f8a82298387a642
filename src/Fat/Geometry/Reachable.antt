-- ===== src/Fat/Geometry/Reachable.antt =====
-- src/fat.rs: the calls of the rest of the kernel in any order, and the volume they leave.
use macha_os.Prelude.{ℕ, refl, Bool, true, false, none, List, [], ◌∷◌, length, ltb, if◌then◌else◌}
use macha_os.Fat.{Device, FatError, Step, ◌>>◌, fail_if}
use macha_os.Fat.Names.{same_bytes}
use macha_os.Fat.Entries.{find_entry, DateTime}
use macha_os.Fat.Directory.{read_dir, find_dir_entry}
use macha_os.Fat.Files.{
  components, walk, resolve_parent, found_or, write_file_impl, make_dir_impl, remove_impl,
  rename_impl,
}
use macha_os.Fat.Mount.{
  World, list_in, is_file, read_in, is_dir_in, mount, list_dir, read_file, write_file, make_dir,
  remove, rename, is_dir, move_dir, move_contents, move_file,
}
use macha_os.Fat.Geometry.{Keeps, Keeps->>=, Keeps-if}
use macha_os.Fat.Geometry.Directories.{layout, read_dir-Keeps, find_dir_entry-Keeps}
use macha_os.Fat.Geometry.Operations.{
  walk-Keeps, found_or-Keeps, resolve_parent-Keeps, read_file_data-Keeps,
}
use macha_os.Fat.Geometry.Files.{
  write_file_impl-Keeps, make_dir_impl-Keeps, remove_impl-Keeps, rename_impl-Keeps,
}
use macha_os.Fat.Geometry.Sound.{IsSoundWorld, Stays, Stays->>=, with_volume-Stays, mount-Stays}

-- A call of this file's public functions.
pub data Call : Type 0 where
  mount_call : Bool → Call
  list_call read_call is_dir_call remove_call : List ℕ → Call
  make_call : DateTime → List ℕ → Call
  write_call rename_call move_call : DateTime → List ℕ → List ℕ → Call

module _ (dev : Device) where
  abbrev pub run : Call → World dev → World dev
  run (mount_call ready) w = (mount dev ready w).1
  run (list_call path) w = (list_dir dev path w).1
  run (read_call path) w = (read_file dev path w).1
  run (is_dir_call path) w = (is_dir dev path w).1
  run (remove_call path) w = (remove dev path w).1
  run (make_call now path) w = (make_dir dev now path w).1
  run (write_call now path content) w = (write_file dev now path content w).1
  run (rename_call now path new_name) w = (rename dev now path new_name w).1
  run (move_call now src dst) w = (move_file dev now src dst w).1

  -- The worlds of a kernel that started with no volume, after any calls, also failed ones.
  pub data Reachable : World dev → Type 0 where
    started : (disk : dev.Disk) → Reachable (record { mounted_volume = none; disk = disk })
    called : (call : Call) (w : World dev) → Reachable w → Reachable (run call w)

  Stays-if :
      {A : Type 0} (b : Bool) (m n : Step (World dev) A)
      → Stays dev m
      → Stays dev n
      → Stays dev (if b then m else n)
  Stays-if true m n hm hn = hm
  Stays-if false m n hm hn = hn

  list_in-Keeps : (path : List ℕ) → Keeps (layout dev) (list_in dev path)
  list_in-Keeps path m =
      Keeps->>= (layout dev) (walk dev (components [] path) m.volume.root_cluster) (read_dir dev)
        (walk-Keeps dev (components [] path) m.volume.root_cluster) (read_dir-Keeps dev) m

  read_in-Keeps : (path : List ℕ) → Keeps (layout dev) (read_in dev path)
  read_in-Keeps path =
      Keeps->>= (layout dev) (resolve_parent dev path) _ (resolve_parent-Keeps dev path) (λ at.
        Keeps->>= (layout dev) (read_dir dev at.0) _ (read_dir-Keeps dev at.0) (λ entries.
          let wanted = find_entry (is_file dev at.1) entries in
          Keeps->>= (layout dev) (found_or wanted FatError.not_found) _
            (found_or-Keeps dev wanted FatError.not_found)
            (λ entry. read_file_data-Keeps dev entry.first_cluster entry.size)))

  is_dir_in-Keeps : (path : List ℕ) → Keeps (layout dev) (is_dir_in dev path)
  is_dir_in-Keeps path =
      Keeps-if (layout dev) (same_bytes path (47 ∷ [])) _ _ (λ m. refl)
        (Keeps->>= (layout dev) (resolve_parent dev path) _ (resolve_parent-Keeps dev path) (λ at.
          Keeps->>= (layout dev) (find_dir_entry dev at.0 at.1) _
            (find_dir_entry-Keeps dev at.0 at.1)
            (λ found.
              Keeps->>= (layout dev) (found_or found FatError.not_found) _
                (found_or-Keeps dev found FatError.not_found) (λ entry m. refl))))

  list_dir-Stays : (path : List ℕ) → Stays dev (list_dir dev path)
  unfolding list_dir
  list_dir-Stays path = with_volume-Stays dev (list_in dev path) (list_in-Keeps path)

  read_file-Stays : (path : List ℕ) → Stays dev (read_file dev path)
  unfolding read_file
  read_file-Stays path = with_volume-Stays dev (read_in dev path) (read_in-Keeps path)

  is_dir-Stays : (path : List ℕ) → Stays dev (is_dir dev path)
  unfolding is_dir
  is_dir-Stays path = with_volume-Stays dev (is_dir_in dev path) (is_dir_in-Keeps path)

  write_file-Stays :
      (now : DateTime) (path content : List ℕ) → Stays dev (write_file dev now path content)
  unfolding write_file
  write_file-Stays now path content =
      with_volume-Stays dev (write_file_impl dev now path content)
        (write_file_impl-Keeps dev now path content)

  make_dir-Stays : (now : DateTime) (path : List ℕ) → Stays dev (make_dir dev now path)
  unfolding make_dir
  make_dir-Stays now path =
      with_volume-Stays dev (make_dir_impl dev now path) (make_dir_impl-Keeps dev now path)

  remove-Stays : (path : List ℕ) → Stays dev (remove dev path)
  unfolding remove
  remove-Stays path = with_volume-Stays dev (remove_impl dev path) (remove_impl-Keeps dev path)

  rename-Stays :
      (now : DateTime) (path new_name : List ℕ) → Stays dev (rename dev now path new_name)
  unfolding rename
  rename-Stays now path new_name =
      with_volume-Stays dev (rename_impl dev now path new_name)
        (rename_impl-Keeps dev now path new_name)

  fail_if-Stays : (b : Bool) (e : FatError) → Stays dev (fail_if b e)
  fail_if-Stays b e w s = s

  then-Stays :
      {A : Type 0} (m : Step (World dev) (Unit {0})) (n : Step (World dev) A)
      → Stays dev m
      → Stays dev n
      → Stays dev (m >> n)
  then-Stays m n hm hn = Stays->>= dev m _ hm (λ u. hn)

  move_file-Stays : (now : DateTime) (src dst : List ℕ) → Stays dev (move_file dev now src dst)
  unfolding move_file
  move_file-Stays now src dst =
      Stays-if (same_bytes src dst) _ _ (λ w s. s)
        (Stays->>= dev (is_dir dev src) _ (is_dir-Stays src) (λ dir.
          Stays-if dir (move_dir dev now src dst) (move_contents dev now src dst)
            (Stays->>= dev (list_dir dev src) _ (list_dir-Stays src) (λ entries.
              then-Stays _ (remove dev src)
                (then-Stays _ (make_dir dev now dst)
                  (fail_if-Stays (ltb 0 (length entries)) FatError.not_empty)
                  (make_dir-Stays now dst))
                (remove-Stays src)))
            (Stays->>= dev (read_file dev src) _ (read_file-Stays src) (λ file.
              then-Stays (write_file dev now dst file) (remove dev src)
                (write_file-Stays now dst file) (remove-Stays src)))))

  run-Stays : (call : Call) (w : World dev) → IsSoundWorld dev w → IsSoundWorld dev (run call w)
  run-Stays (mount_call ready) = mount-Stays dev ready
  run-Stays (list_call path) = list_dir-Stays path
  run-Stays (read_call path) = read_file-Stays path
  run-Stays (is_dir_call path) = is_dir-Stays path
  run-Stays (remove_call path) = remove-Stays path
  run-Stays (make_call now path) = make_dir-Stays now path
  run-Stays (write_call now path content) = write_file-Stays now path content
  run-Stays (rename_call now path new_name) = rename-Stays now path new_name
  run-Stays (move_call now src dst) = move_file-Stays now src dst

  -- After any calls of the public functions in any order, mounting anew and failed calls among
  -- them, a mounted volume is sound: the table has 128 entries and one dirty mark for each of its
  -- sectors, a cluster has sectors, and the root directory is a cluster from 2 on.
  pub Reachable-IsSoundWorld : (w : World dev) → Reachable w → IsSoundWorld dev w
  Reachable-IsSoundWorld w (started disk) = tt
  Reachable-IsSoundWorld w (called call w' r) = run-Stays call w' (Reachable-IsSoundWorld w' r)
