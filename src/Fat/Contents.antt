-- ===== src/Fat/Contents.antt =====
-- src/fat.rs: the contents of a file, in the clusters of its chain, and the table on the disk.
use macha_os.Prelude.{
  ℕ, zero, suc, ◌+◌, ◌-◌, ◌*◌, ◌/◌, ◌%◌, ◌^◌, min, true, false, ◌&&◌, List, [], ◌∷◌, ◌++◌, map,
  length, get_or, set, take, drop, replicate, ltb, leb, ◌==◌, if◌then◌else◌, ok, to_le_bytes,
}
use macha_os.Fat.{
  Device, Fat32, FatError, error, panic, Step, done, fail, ◌>>=◌, ◌>>◌, fail_if, is_eof,
  chain_guard,
}
use macha_os.Fat.Table.{next_cluster, alloc_clusters, link_clusters}
use macha_os.Fat.Entries.{flatten}
use macha_os.Fat.Directory.{
  Mounted, on_table, write_at, read_cluster, write_cluster, cluster_sectors,
}

abbrev pub cluster_bytes : Fat32 → ℕ
cluster_bytes v = v.sectors_per_cluster * 512

-- `div_ceil`
abbrev pub clusters_needed : Fat32 → ℕ → ℕ
clusters_needed v len = (len + (cluster_bytes v - 1)) / cluster_bytes v

abbrev pub sector_bytes : List ℕ → List ℕ
sector_bytes content = take 512 content ++ replicate (512 - length content) 0

-- The clusters for the contents, linked to a chain.
abbrev pub take_clusters : ℕ → Step Fat32 (List ℕ)
take_clusters needed = alloc_clusters needed >>= λ clusters. link_clusters clusters >> done clusters

abbrev pub clean : ℕ → Step Fat32 (Unit {0})
clean i v = (ok tt, record v { fat_dirty = set v.fat_dirty i false })

module _ (dev : Device) where
  -- The sectors of one cluster into `out`, until nothing remains.
  unfoldable pub read_sectors_into : ℕ → ℕ → ℕ → ℕ → List ℕ → Step (Mounted dev) (ℕ × List ℕ)
  read_sectors_into zero s cluster remaining out = done (remaining, out)
  read_sectors_into (suc left) s cluster remaining out = read_cluster dev cluster s >>= λ sector.
      let n = min remaining 512 in
      let out' = out ++ take n sector in
      elim (remaining - n == 0) [
        | true ↦ done (0, out')
        | false ↦ read_sectors_into left (s + 1) cluster (remaining - n) out'
      ]

  -- `while remaining > 0`, with `left` rounds until `guard` passes the limit.
  unfoldable pub read_data : ℕ → ℕ → ℕ → List ℕ → Step (Mounted dev) (List ℕ)
  read_data zero cluster remaining out w =
      (if remaining == 0 then done out else fail (error FatError.corrupt)) w
  read_data (suc left) cluster remaining out w =
      let round : Step (Mounted dev) (List ℕ) = elim (remaining == 0) [
        | true ↦ done out
        | false ↦
            fail_if (ltb cluster 2) FatError.corrupt
            >> (read_sectors_into (cluster_sectors dev w) 0 cluster remaining out >>= λ got.
                on_table dev (next_cluster cluster) >>= λ next.
                fail_if (ltb 0 got.0 && is_eof next) FatError.corrupt
                >> read_data left next got.0 got.1)
      ] in
      round w

  unfoldable pub read_file_data : ℕ → ℕ → Step (Mounted dev) (List ℕ)
  unfolding read_data
  read_file_data first_cluster size = read_data (chain_guard + 1) first_cluster size []

  -- The contents into the sectors of one cluster; what is left of them.
  unfoldable pub write_in_cluster : ℕ → ℕ → ℕ → List ℕ → Step (Mounted dev) (List ℕ)
  write_in_cluster zero s cluster content = done content
  write_in_cluster (suc left) s cluster content =
      write_cluster dev cluster s (sector_bytes content) >> elim (drop 512 content) [
        | [] ↦ done []
        | b ∷ bs ↦ write_in_cluster left (s + 1) cluster (b ∷ bs)
      ]

  unfoldable pub write_content : List ℕ → List ℕ → Step (Mounted dev) (Unit {0})
  write_content [] content w = done tt w
  write_content (cluster ∷ clusters) content w =
      (write_in_cluster (cluster_sectors dev w) 0 cluster content >>= λ rest. elim rest [
        | [] ↦ done tt
        | b ∷ bs ↦ write_content clusters (b ∷ bs)
      ])
        w

  abbrev pub head_or : List ℕ → ℕ
  head_or [] = 0
  head_or (c ∷ cs) = c

  -- The clusters for the contents, taken, linked and written; the first one, or 0 when there are none.
  unfoldable pub store_content : List ℕ → Step (Mounted dev) ℕ
  unfolding write_content
  store_content content w =
      (on_table dev (take_clusters (clusters_needed w.volume (length content))) >>= λ clusters.
      write_content clusters content >> done (head_or clusters))
        w

  unfoldable pub flush_from : ℕ → ℕ → Step (Mounted dev) (Unit {0})
  flush_from zero i w = done tt w
  flush_from (suc left) i w =
      let round : Step (Mounted dev) (Unit {0}) = elim (get_or w.volume.fat_dirty i false) [
        | false ↦ flush_from left (i + 1)
        | true ↦
            if leb (i * 128 + 128) (length w.volume.fat)
            then write_at dev ((w.volume.reserved_sectors + i) % 2 ^ 32)
                (flatten (map (to_le_bytes 4) (take 128 (drop (i * 128) w.volume.fat))))
              >> (on_table dev (clean i) >> flush_from left (i + 1))
            else fail panic
      ] in
      round w

  unfoldable pub flush_fat : Step (Mounted dev) (Unit {0})
  unfolding flush_from
  flush_fat w = flush_from (length w.volume.fat_dirty) 0 w
