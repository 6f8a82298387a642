-- ===== src/Fat/Shortage.antt =====
-- src/fat.rs: the clusters for the contents of a file, taken one by one, and what a shortage leaves.
use macha_os.Prelude.{
  ℕ, zero, suc, ◌+◌, ◌<◌, ◌≡◌, refl, sym, ap, subst, ◌∙◌, List, ◌∷◌, arith, length, Result, ok, err,
}
use macha_os.Fat.{Fat32, Fault, FatError, error, Step, done, ◌>>=◌, next_step}
use macha_os.Fat.Table.{alloc_cluster, alloc_clusters}
use macha_os.Fat.Alloc.{IsValid, alloc_cluster_lem, Allocated}

-- The result of `alloc_clusters` for `needed` clusters on both branches.
abbrev pub Taken : ℕ → Fat32 → Result Fault (List ℕ) × Fat32 → Type 0
Taken needed v (ok cs, w) =
    (length cs ≡ needed) × (w.free_clusters + needed ≡ v.free_clusters) × IsValid w
Taken needed v (err fault, w) =
    (fault ≡ error FatError.out_of_space)
    × (v.free_clusters < needed)
    × (w.free_clusters ≡ 0)
    × IsValid w

abbrev more : ℕ → ℕ → Step Fat32 (List ℕ)
more needed cluster = alloc_clusters needed >>= λ rest. done (cluster ∷ rest)

-- On a valid volume `alloc_clusters` gives as many clusters as are needed, and the count of free
-- ones is less by as many; or it fails for want of space, fewer were free than needed, and then
-- none is free: those that it took are not given back. The volume stays valid.
pub alloc_clusters_lem :
    (needed : ℕ) (v : Fat32) → IsValid v → Taken needed v (alloc_clusters needed v)
unfolding alloc_clusters ◌>>=◌
alloc_clusters_lem zero v valid = (refl, omega arith, valid)
alloc_clusters_lem (suc needed) v valid =
    first (alloc_cluster v) (alloc_cluster_lem v valid) (alloc_clusters_lem needed)
  where
    rest :
        (cluster : ℕ) (w : Fat32) (r : Result Fault (List ℕ) × Fat32)
        → w.free_clusters + 1 ≡ v.free_clusters
        → Taken needed w r
        → Taken (suc needed) v (next_step (λ cs. done (cluster ∷ cs)) r)
    rest cluster w (ok cs, u) one (count, fewer, still) = (omega arith, omega arith, still)
    rest cluster w (err fault, u) one (why, short, none_left, still) =
        (why, omega arith, none_left, still)

    first :
        (r : Result Fault ℕ × Fat32)
        → Allocated v r
        → ((w : Fat32) → IsValid w → Taken needed w (alloc_clusters needed w))
        → Taken (suc needed) v (next_step (more needed) r)
    first (ok cluster, w) (lo, was_free, lowest, now, one, still) next =
        rest cluster w (alloc_clusters needed w) one (next w still)
    first (err fault, w) (why, same, none_free) next = (
      why,
      omega (arith, none_free),
      ap (λ u. u.free_clusters) same ∙ none_free,
      subst IsValid (sym same) valid,
    )
