-- ===== src/Fat/Table.antt =====
-- src/fat.rs: the cached file allocation table, its allocation and its chains.
use macha_os.Prelude.{
  ℕ, zero, suc, ◌+◌, ◌-◌, ◌/◌, ◌%◌, ◌^◌, true, false, ◌&&◌, Option, none, some, List, [], ◌∷◌,
  length, get_elem?, set, drop, ltb, ◌==◌, if◌then◌else◌, ok, err,
}
use macha_os.Fat.{
  Fat32, FatError, error, panic, Step, done, fail, ◌>>=◌, ◌>>◌, eof_mark, masked, chain_guard,
  is_eof,
}

-- An index past the table panics.
abbrev pub entry_step : Option ℕ → Step Fat32 ℕ
entry_step none = fail panic
entry_step (some entry) = done (masked entry)

unfoldable pub next_cluster : ℕ → Step Fat32 ℕ
next_cluster cluster v = entry_step (get_elem? v.fat cluster) v

abbrev pub put_entry : ℕ → ℕ → Fat32 → Fat32
put_entry cluster value v = record v {
  fat = set v.fat cluster value;
  fat_dirty = set v.fat_dirty (cluster / 128) true;
}

unfoldable pub set_cluster : ℕ → ℕ → Step Fat32 (Unit {0})
set_cluster cluster value v = (
  if ltb cluster (length v.fat) && ltb (cluster / 128) (length v.fat_dirty)
      then ok tt
      else err panic,
  if ltb cluster (length v.fat) then put_entry cluster value v else v,
)

-- The number of entries that mark a free cluster.
abbrev pub free_entry : ℕ → ℕ
free_entry entry = if masked entry == 0 then 1 else 0

unfoldable pub count_free : List ℕ → ℕ
count_free [] = 0
count_free (entry ∷ entries) = free_entry entry + count_free entries

unfoldable pub scan_free_clusters : Fat32 → Fat32
scan_free_clusters v = record v { free_clusters = count_free (drop 2 v.fat) }

-- The first free entry, from the entries of which the first has the number `cluster`.
unfoldable pub find_free : ℕ → List ℕ → Option ℕ
find_free cluster [] = none
find_free cluster (entry ∷ entries) =
    let rest = find_free (suc cluster) entries in if masked entry == 0 then some cluster else rest

abbrev pub take_cluster : Option ℕ → Step Fat32 ℕ
take_cluster none = fail (error FatError.out_of_space)
take_cluster (some cluster) = set_cluster cluster eof_mark >>= λ u v.
    (ok cluster, record v { free_clusters = v.free_clusters - 1 })

unfoldable pub alloc_cluster : Step Fat32 ℕ
alloc_cluster v = take_cluster (find_free 2 (drop 2 v.fat)) v

-- Giving back one cluster of a chain.
unfoldable pub release : ℕ → Step Fat32 ℕ
release cluster = next_cluster cluster >>= λ next. set_cluster cluster 0 >>= λ u v.
    (ok next, record v { free_clusters = (v.free_clusters + 1) % 2 ^ 32 })

-- The loop with `left` rounds until `guard` passes the limit.
unfoldable pub free_chain_from : ℕ → ℕ → Step Fat32 (Unit {0})
free_chain_from zero cluster = if is_eof cluster then done tt else fail (error FatError.corrupt)
free_chain_from (suc left) cluster = elim (is_eof cluster) [
  | true ↦ done tt
  | false ↦
      if ltb cluster 2
      then fail (error FatError.corrupt)
      else release cluster >>= free_chain_from left
]

abbrev pub free_chain : ℕ → Step Fat32 (Unit {0})
free_chain cluster = free_chain_from (chain_guard + 1) cluster

-- `for _ in 0..needed { clusters.push(self.alloc_cluster()?) }`
unfoldable pub alloc_clusters : ℕ → Step Fat32 (List ℕ)
alloc_clusters zero = done []
alloc_clusters (suc needed) =
    alloc_cluster >>= λ cluster. alloc_clusters needed >>= λ rest. done (cluster ∷ rest)

-- `for i in 0..clusters.len() - 1 { set_cluster(clusters[i], clusters[i + 1]) }`, and the last one.
unfoldable pub link_clusters : List ℕ → Step Fat32 (Unit {0})
link_clusters [] = done tt
link_clusters (c ∷ []) = set_cluster c eof_mark
link_clusters (c ∷ d ∷ cs) = set_cluster c d >> link_clusters (d ∷ cs)

-- The last cluster of a chain, with `left` rounds until `guard` passes the limit.
unfoldable pub last_from : ℕ → ℕ → Step Fat32 ℕ
last_from zero cluster = fail (error FatError.corrupt)
last_from (suc left) cluster = next_cluster cluster >>= λ next. elim (is_eof next) [
  | true ↦ done cluster
  | false ↦ last_from left next
]
