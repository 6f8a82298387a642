-- ===== src/Fat/Geometry/Operations.antt =====
-- src/fat.rs: the operations on contents and on files keep the geometry of the volume.
use macha_os.Prelude.{
  ℕ, zero, suc, ◌+◌, ◌-◌, min, refl, Bool, ◌&&◌, Option, none, some, List, [], ◌∷◌, ◌++◌, length,
  take, drop, ltb, ◌==◌, ◌*◌, false, get_or, length-set, leb,
}
use macha_os.Fat.{max_name, Device, FatError, Step, ◌>>=◌, fail_if, is_eof, chain_guard}
use macha_os.Fat.Table.{next_cluster, alloc_clusters, link_clusters}
use macha_os.Fat.Entries.{DirEntry}
use macha_os.Fat.Directory.{
  Mounted, on_table, write_at, read_cluster, write_cluster, cluster_sectors, read_dir,
}
use macha_os.Fat.Contents.{
  read_sectors_into, read_data, read_file_data, write_in_cluster, write_content, clean,
  take_clusters, store_content, flush_from, flush_fat,
}
use macha_os.Fat.Files.{found_or, walk, resolve_from, resolve_parent}
use macha_os.Fat.Geometry.{
  geometry, Keeps, Keeps->>=, Keeps-if, Keeps-Bool, Keeps-List, next_cluster-Keeps,
  alloc_clusters-Keeps, link_clusters-Keeps,
}
use macha_os.Fat.Geometry.Directories.{
  layout, on_table-Keeps, write_at-Keeps, read_cluster-Keeps, write_cluster-Keeps, read_dir-Keeps,
}

module _ (dev : Device) where
  abbrev DiskStep : Type 0 → Type 0
  DiskStep A = Step (Mounted dev) A

  pub fail_if-Keeps : (b : Bool) (e : FatError) → Keeps (layout dev) (fail_if b e)
  fail_if-Keeps b e w = refl

  -- After a test that may fail.
  guarded :
      {A : Type 0} (b : Bool) (e : FatError) (m : DiskStep A)
      → Keeps (layout dev) m
      → Keeps (layout dev) (fail_if b e >>= λ u. m)
  guarded b e m h = Keeps->>= (layout dev) (fail_if b e) _ (fail_if-Keeps b e) (λ u. h)

  pub found_or-Keeps : (o : Option DirEntry) (e : FatError) → Keeps (layout dev) (found_or o e)
  found_or-Keeps none e w = refl
  found_or-Keeps (some entry) e w = refl

  read_sectors_into-Keeps :
      (left s c remaining : ℕ) (out : List ℕ)
      → Keeps (layout dev) (read_sectors_into dev left s c remaining out)
  unfolding read_sectors_into
  read_sectors_into-Keeps zero s c remaining out = λ w. refl
  read_sectors_into-Keeps (suc left) s c remaining out =
      Keeps->>= (layout dev) (read_cluster dev c s) _ (read_cluster-Keeps dev c s) (λ sector.
        let n = min remaining 512 in
        Keeps-Bool (layout dev) (remaining - n == 0) _ _ (λ w. refl)
          (read_sectors_into-Keeps left (s + 1) c (remaining - n) (out ++ take n sector)))

  read_data-Keeps :
      (left c remaining : ℕ) (out : List ℕ)
      → Keeps (layout dev) (read_data dev left c remaining out)
  unfolding read_data
  read_data-Keeps zero c remaining out =
      Keeps-if (layout dev) (remaining == 0) _ _ (λ w. refl) (λ w. refl)
  read_data-Keeps (suc left) c remaining out = λ w.
      Keeps-Bool (layout dev) (remaining == 0) _ _ (λ u. refl)
        (guarded (ltb c 2) FatError.corrupt _ (
          Keeps->>= (layout dev) (read_sectors_into dev (cluster_sectors dev w) 0 c remaining out) _
            (read_sectors_into-Keeps (cluster_sectors dev w) 0 c remaining out)
            (λ got.
              Keeps->>= (layout dev) (on_table dev (next_cluster c)) _
                (on_table-Keeps dev (next_cluster c) (next_cluster-Keeps c))
                (λ next.
                  guarded (ltb 0 got.0 && is_eof next) FatError.corrupt _
                    (read_data-Keeps left next got.0 got.1)))))
        w

  pub read_file_data-Keeps : (c size : ℕ) → Keeps (layout dev) (read_file_data dev c size)
  unfolding read_file_data
  read_file_data-Keeps c size = read_data-Keeps (chain_guard + 1) c size []

  write_in_cluster-Keeps :
      (left s c : ℕ) (content : List ℕ) → Keeps (layout dev) (write_in_cluster dev left s c content)
  unfolding write_in_cluster
  write_in_cluster-Keeps zero s c content = λ w. refl
  write_in_cluster-Keeps (suc left) s c content =
      Keeps->>= (layout dev) (write_cluster dev c s _) _ (write_cluster-Keeps dev c s _) (λ u.
        Keeps-List (layout dev) (drop 512 content) _ _
          (λ b bs. write_in_cluster-Keeps left (s + 1) c (b ∷ bs)) (λ w. refl))

  write_content-Keeps : (cs content : List ℕ) → Keeps (layout dev) (write_content dev cs content)
  unfolding write_content
  write_content-Keeps [] content = λ w. refl
  write_content-Keeps (c ∷ cs) content = λ w.
      Keeps->>= (layout dev) (write_in_cluster dev (cluster_sectors dev w) 0 c content) _
        (write_in_cluster-Keeps (cluster_sectors dev w) 0 c content)
        (λ rest.
          Keeps-List (layout dev) rest _ _ (λ b bs. write_content-Keeps cs (b ∷ bs)) (λ u. refl))
        w

  take_clusters-Keeps : (n : ℕ) → Keeps geometry (take_clusters n)
  take_clusters-Keeps n =
      Keeps->>= geometry (alloc_clusters n) _ (alloc_clusters-Keeps n)
        (λ cs. Keeps->>= geometry (link_clusters cs) _ (link_clusters-Keeps cs) (λ u v. refl))

  pub store_content-Keeps : (content : List ℕ) → Keeps (layout dev) (store_content dev content)
  unfolding store_content
  store_content-Keeps content w =
      Keeps->>= (layout dev) (on_table dev (take_clusters _)) _
        (on_table-Keeps dev (take_clusters _) (take_clusters-Keeps _))
        (λ cs.
          Keeps->>= (layout dev) (write_content dev cs content) _ (write_content-Keeps cs content)
            (λ u v. refl))
        w

  clean-Keeps : (i : ℕ) → Keeps geometry (clean i)
  clean-Keeps i v = rw (length-set v.fat_dirty i false) refl

  flush_from-Keeps : (left i : ℕ) → Keeps (layout dev) (flush_from dev left i)
  unfolding flush_from
  flush_from-Keeps zero i = λ w. refl
  flush_from-Keeps (suc left) i = λ w.
      Keeps-Bool (layout dev) (get_or w.volume.fat_dirty i false) _ _
        (Keeps-if (layout dev) (leb (i * 128 + 128) (length w.volume.fat)) _ _
          (Keeps->>= (layout dev) (write_at dev _ _) _ (write_at-Keeps dev _ _) (λ u.
            Keeps->>= (layout dev) (on_table dev (clean i)) _
              (on_table-Keeps dev (clean i) (clean-Keeps i)) (λ u'. flush_from-Keeps left (i + 1))))
          (λ u. refl))
        (flush_from-Keeps left (i + 1)) w

  pub flush_fat-Keeps : Keeps (layout dev) (flush_fat dev)
  unfolding flush_fat
  flush_fat-Keeps w = flush_from-Keeps (length w.volume.fat_dirty) 0 w

  pub walk-Keeps : (parts : List (List ℕ)) (c : ℕ) → Keeps (layout dev) (walk dev parts c)
  unfolding walk
  walk-Keeps [] c = λ w. refl
  walk-Keeps (p ∷ ps) c =
      Keeps->>= (layout dev) (read_dir dev c) _ (read_dir-Keeps dev c) (λ entries.
        Keeps->>= (layout dev) (found_or _ FatError.not_found) _
          (found_or-Keeps _ FatError.not_found) (λ dir. walk-Keeps ps dir.first_cluster))

  resolve_from-Keeps :
      (o : Option (List (List ℕ) × List ℕ)) → Keeps (layout dev) (resolve_from dev o)
  resolve_from-Keeps none = λ w. refl
  resolve_from-Keeps (some (parts, name)) = λ w.
      guarded (ltb max_name (length name)) FatError.invalid_name _
        (Keeps->>= (layout dev) (walk dev parts w.volume.root_cluster) _
          (walk-Keeps parts w.volume.root_cluster) (λ c u. refl))
        w

  pub resolve_parent-Keeps : (path : List ℕ) → Keeps (layout dev) (resolve_parent dev path)
  unfolding resolve_parent
  resolve_parent-Keeps path = resolve_from-Keeps _
