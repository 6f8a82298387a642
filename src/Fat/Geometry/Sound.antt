-- ===== src/Fat/Geometry/Sound.antt =====
-- src/fat.rs: a volume whose table and boot sector fit together, which mounting gives and the operations keep.
use macha_os.Prelude.{
  ℕ, zero, suc, ◌+◌, ◌*◌, ◌≤◌, ◌≡◌, refl, ap, false, none, some, List, arith, length,
  length-replicate, Result, ok, err, ◌%◌, ◌^◌, Option, length-append, Bool, true,
}
use macha_os.Fat.{Device, Fat32, Fault, FatError, Step, ◌>>=◌, next_step, fail_if}
use macha_os.Fat.Table.{scan_free_clusters}
use macha_os.Fat.Entries.{u16_at, u32_at}
use macha_os.Fat.Directory.{Mounted}
use macha_os.Fat.Mount.{
  World, bad_volume, volume_of, words_at, read_word_sector, read_fat, open_volume, mount_result,
  mount, on_volume, with_volume,
}
use macha_os.Fat.Geometry.{Geometry, geometry, Keeps}
use macha_os.Fat.Geometry.Directories.{layout}

-- The table has an entry for every 4 bytes of its sectors and a mark for each of them, clusters have
-- sectors, and the root directory is a cluster with data.
pub record IsSound (v : Fat32) : Type 0 where
  pub entries : length v.fat ≡ 128 * v.fat_size_sectors
  pub marks : length v.fat_dirty ≡ v.fat_size_sectors
  pub has_sectors : 1 ≤ v.sectors_per_cluster
  pub has_root : 2 ≤ v.root_cluster

IsSound-geometry : (v w : Fat32) → geometry w ≡ geometry v → IsSound v → IsSound w
IsSound-geometry v w same s =
    let e1 : length w.fat ≡ length v.fat = ap (λ (g : Geometry). g.entries) same in
    let e2 : length w.fat_dirty ≡ length v.fat_dirty = ap (λ (g : Geometry). g.marks) same in
    let e3 : w.sectors_per_cluster ≡ v.sectors_per_cluster =
      ap (λ (g : Geometry). g.sectors_per_cluster) same in
    let e4 : w.fat_size_sectors ≡ v.fat_size_sectors =
      ap (λ (g : Geometry). g.fat_size_sectors) same in
    let e5 : w.root_cluster ≡ v.root_cluster = ap (λ (g : Geometry). g.root_cluster) same in
    record {
      entries = omega (arith, e1, e4, s.entries);
      marks = omega (arith, e2, e4, s.marks);
      has_sectors = omega (arith, e3, s.has_sectors);
      has_root = omega (arith, e5, s.has_root);
    }

length-words_at : (sector : List ℕ) (o n : ℕ) → length (words_at sector o n) ≡ n
unfolding words_at
length-words_at sector o zero = refl
length-words_at sector o (suc n) = ap suc (length-words_at sector (o + 4) n)

volume_of-IsSound :
    (sector fat : List ℕ)
    → bad_volume sector ≡ false
    → length fat ≡ 128 * u32_at sector 0x24
    → IsSound (scan_free_clusters (volume_of sector fat))
unfolding volume_of scan_free_clusters bad_volume
volume_of-IsSound sector fat good count = record {
  entries = count;
  marks = length-replicate (u32_at sector 0x24) false;
  has_sectors = ground (arith, good);
  has_root = ground (arith, good);
}

module _ (dev : Device) where
  open dev use {Disk}

  -- What holds of a successful result.
  abbrev OnDone : {S A : Type 0} → (A → Type 0) → Result Fault A × S → Type 0
  OnDone P (ok a, s) = P a
  OnDone P (err e, s) = Unit

  OnDone->>= :
      {S A B : Type 0} (P : A → Type 0) (Q : B → Type 0) (m : Step S A) (f : A → Step S B) (s : S)
      → OnDone P (m s)
      → ((a : A) (t : S) → P a → OnDone Q (f a t))
      → OnDone Q ((m >>= f) s)
  unfolding ◌>>=◌
  OnDone->>= {S = S} {A = A} P Q m f s hm hf = after (m s) hm
    where
      after : (r : Result Fault A × S) → OnDone P r → OnDone Q (next_step f r)
      after (ok a, t) h = hf a t h
      after (err e, t) h = tt

  abbrev Any : {A : Type 0} → A → Type 0
  Any a = Unit {0}

  read_word_sector-Any : (n : ℕ) (d : Disk) → OnDone Any (read_word_sector dev n d)
  read_word_sector-Any n d = any (read_word_sector dev n d)
    where
      any : {S A : Type 0} (r : Result Fault A × S) → OnDone Any r
      any (ok a, s) = tt
      any (err e, s) = tt

  read_fat-length :
      (left reserved i : ℕ) (d : Disk)
      → OnDone (λ fat. length fat ≡ 128 * left) (read_fat dev left reserved i d)
  unfolding read_fat
  read_fat-length zero reserved i d = refl
  read_fat-length (suc left) reserved i d =
      OnDone->>= Any _ (read_word_sector dev ((reserved + i) % 2 ^ 32)) _ d
        (read_word_sector-Any _ d)
        (λ sector t h.
          OnDone->>= (λ fat. length fat ≡ 128 * left) _ (read_fat dev left reserved (i + 1)) _ t
            (read_fat-length left reserved (i + 1) t)
            (λ rest u count.
              let here = length-words_at sector 0 128 in
              let all = length-append (words_at sector 0 128) rest in
              omega (arith, here, count, all)))

  -- The world's volume, if there is one, is sound.
  abbrev pub IsSoundOption : Option Fat32 → Type 0
  IsSoundOption none = Unit
  IsSoundOption (some v) = IsSound v

  abbrev pub IsSoundWorld : World dev → Type 0
  IsSoundWorld w = IsSoundOption w.mounted_volume

  -- A step that keeps it so.
  abbrev pub Stays : {A : Type 0} → Step (World dev) A → Type 0
  Stays m = (w : World dev) → IsSoundWorld w → IsSoundWorld (m w).1

  pub Stays->>= :
      {A B : Type 0} (m : Step (World dev) A) (f : A → Step (World dev) B)
      → Stays m
      → ((a : A) → Stays (f a))
      → Stays (m >>= f)
  unfolding ◌>>=◌
  Stays->>= {A = A} {B = B} m f hm hf w s = after (m w) (hm w s)
    where
      after : (r : Result Fault A × World dev) → IsSoundWorld r.1 → IsSoundWorld (next_step f r).1
      after (ok a, u) h = hf a u h
      after (err e, u) h = h

  pub with_volume-Stays :
      {A : Type 0} (op : Step (Mounted dev) A) → Keeps (layout dev) op → Stays (with_volume dev op)
  unfolding layout
  with_volume-Stays {A = A} op h w s = go w.mounted_volume s
    where
      go : (o : Option Fat32) → IsSoundOption o → IsSoundWorld (on_volume dev op w o).1
      go none sound = s
      go (some v) sound =
          let m : Mounted dev = record { volume = v; disk = w.disk } in
          IsSound-geometry v (op m).1.volume (h m) sound

  mount_result-Stays :
      (w : World dev) (r : Result Fault Fat32 × Disk)
      → IsSoundWorld w
      → OnDone (λ v. IsSound (scan_free_clusters v)) r
      → IsSoundWorld (mount_result dev w r).1
  mount_result-Stays w (ok v, d) s fresh = fresh
  mount_result-Stays w (err e, d) s fresh = s

  open_volume-IsSound :
      (d : Disk) → OnDone (λ v. IsSound (scan_free_clusters v)) (open_volume dev d)
  unfolding open_volume
  open_volume-IsSound d =
      OnDone->>= Any _ (read_word_sector dev 0) _ d (read_word_sector-Any 0 d) (λ sector t h.
        OnDone->>= (λ u. bad_volume sector ≡ false) _
          (fail_if (bad_volume sector) FatError.invalid_volume) _ t (passed (bad_volume sector) t)
          (λ u t' good.
            OnDone->>= (λ fat. length fat ≡ 128 * u32_at sector 0x24) _
              (read_fat dev (u32_at sector 0x24) (u16_at sector 0x0e) 0) _ t'
              (read_fat-length (u32_at sector 0x24) (u16_at sector 0x0e) 0 t')
              (λ fat u' count. volume_of-IsSound sector fat good count)))
    where
      passed : (b : Bool) (s : Disk) → OnDone (λ u. b ≡ false) (fail_if b FatError.invalid_volume s)
      passed true s = tt
      passed false s = refl

  pub mount-Stays : (ready : Bool) → Stays (mount dev ready)
  unfolding mount
  mount-Stays true w s =
      mount_result-Stays w (open_volume dev w.disk) s (open_volume-IsSound w.disk)
  mount-Stays false w s = s
