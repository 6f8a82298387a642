-- ===== src/Fat/Release.antt =====
-- src/fat.rs: giving back a chain of clusters, and one that was just allocated.
use macha_os.Prelude.{
  ℕ, zero, suc, ◌+◌, ◌%◌, ◌^◌, ◌≤◌, ◌≡◌, ◌≢◌, refl, ap, ◌∙◌, Bool, true, false, ◌||◌, some, List,
  [], ◌∷◌, arith, length, get_elem?, set, drop, get_elem?-set_ne, ◌==◌, if◌then◌else◌, ok, ltb,
}
use macha_os.Fat.{Fat32, masked, is_eof, chain_guard}
use macha_os.Fat.Table.{
  put_entry, set_cluster, free_entry, count_free, next_cluster, release, free_chain_from,
  free_chain,
}
use macha_os.Fat.Alloc.{IsValid, put_entry-IsValid, set_cluster_lem, >>=-ok}

abbrev pub contains : ℕ → List ℕ → Bool
contains c [] = false
contains c (d ∷ cs) = (c == d) || contains c cs

-- From `c` on the table links exactly these clusters, all different, and then has the end mark.
abbrev pub Chain : List ℕ → ℕ → List ℕ → Type 0
Chain fat c [] = is_eof c ≡ true
Chain fat c (d ∷ cs) =
    (c ≡ d)
    × (2 ≤ d)
    × (is_eof d ≡ false)
    × (contains d cs ≡ false)
    × ((e : ℕ) × (get_elem? fat d ≡ some e) × (masked e ≢ 0) × Chain fat (masked e) cs)

abbrev freed : ℕ → Fat32 → Fat32
freed d v = record (put_entry d 0 v) { free_clusters = v.free_clusters + 1 }

count_free-le : (xs : List ℕ) → count_free xs ≤ length xs
unfolding count_free
count_free-le [] = omega arith
count_free-le (x ∷ xs) = ground (arith, count_free-le xs)

length-drop_le : (k : ℕ) (xs : List ℕ) → length (drop k xs) ≤ length xs
length-drop_le zero xs = omega arith
length-drop_le (suc k) [] = omega arith
length-drop_le (suc k) (x ∷ xs) = omega (arith, length-drop_le k xs)

free_entry_zero : (e : ℕ) → masked e ≢ 0 → free_entry e ≡ 0
free_entry_zero e h = ground (arith, h)

release_lem :
    (v : Fat32) (d e : ℕ)
    → IsValid v
    → 2 ≤ d
    → get_elem? v.fat d ≡ some e
    → masked e ≢ 0
    → (release d v ≡ (ok (masked e), freed d v)) × IsValid (freed d v)
unfolding release next_cluster
release_lem v d e valid lo here used =
    let read : next_cluster d v ≡ (ok (masked e), v) = rw (next_cluster, here) refl in
    let written = set_cluster_lem v d e 0 valid here in
    let fits : (v.free_clusters + 1) % 2 ^ 32 ≡ v.free_clusters + 1 =
      omega
        (arith, valid.small, valid.counted, count_free-le (drop 2 v.fat), length-drop_le 2 v.fat) in
    (
      >>=-ok (next_cluster d) _ v v (masked e) read
          ∙ >>=-ok (set_cluster d 0) _ v (put_entry d 0 v) tt written
          ∙ ap (λ n. (ok (masked e), record (put_entry d 0 v) { free_clusters = n })) fits,
      put_entry-IsValid v d e 0 (v.free_clusters + 1) valid lo here
          (omega (arith, free_entry_zero e used)),
    )

get_elem?-set :
    (xs : List ℕ) (i value e j : ℕ)
    → get_elem? xs i ≡ some e
    → get_elem? (set xs i value) j ≡ (if j == i then some value else get_elem? xs j)
get_elem?-set [] i value e j here = absurd cc
get_elem?-set (x ∷ xs) zero value e zero here = refl
get_elem?-set (x ∷ xs) zero value e (suc j) here = ground arith
get_elem?-set (x ∷ xs) (suc i) value e zero here = ground arith
get_elem?-set (x ∷ xs) (suc i) value e (suc j) here =
    ground (arith, get_elem?-set xs i value e j here)

-- What the clusters of a chain became.
pub record Released (v : Fat32) (cs : List ℕ) (w : Fat32) : Type 0 where
  pub zeroed : (j : ℕ) → get_elem? w.fat j ≡ (if contains j cs then some 0 else get_elem? v.fat j)
  pub more_free : w.free_clusters ≡ v.free_clusters + length cs
  pub still_valid : IsValid w

Chain-put :
    (fat : List ℕ) (c d : ℕ) (cs : List ℕ) (value e : ℕ)
    → contains d cs ≡ false
    → Chain fat c cs
    → Chain (set fat d value) c cs
Chain-put fat c d [] value e out ch = ch
Chain-put fat c d (x ∷ cs) value e out (at, lo, mid, apart, (n, here, used, rest)) = (
  at,
  lo,
  mid,
  apart,
  (
    n,
    get_elem?-set_ne fat value (λ same. ground (arith, out, same)) ∙ here,
    used,
    Chain-put fat (masked n) d cs value e (ground (arith, out)) rest,
  ),
)

ended : (left : ℕ) (v : Fat32) (c : ℕ) → is_eof c ≡ true → free_chain_from left c v ≡ (ok tt, v)
unfolding free_chain_from
ended zero v c h = rw (free_chain_from, h) refl
ended (suc left) v c h = rw (free_chain_from, h) refl

stepped :
    (left : ℕ) (v w : Fat32) (c next : ℕ)
    → 2 ≤ c
    → is_eof c ≡ false
    → release c v ≡ (ok next, w)
    → free_chain_from (suc left) c v ≡ free_chain_from left next w
unfolding free_chain_from
stepped left v w c next lo mid e =
    rw (free_chain_from, mid, low) (>>=-ok (release c) (free_chain_from left) v w next e)
  where
    low : ltb c 2 ≡ false
    low = ground arith

-- The rest of a chain is released after its first cluster.
Released-cons :
    (v w : Fat32) (d e : ℕ) (cs : List ℕ)
    → get_elem? v.fat d ≡ some e
    → Released (freed d v) cs w
    → Released v (d ∷ cs) w
Released-cons v w d e cs here r = record {
  zeroed = λ j. r.zeroed j ∙ places j (contains j cs) (get_elem?-set v.fat d 0 e j here);
  more_free = omega (arith, r.more_free);
  still_valid = r.still_valid;
}
  where
    places :
        (j : ℕ) (later : Bool)
        → get_elem? (set v.fat d 0) j ≡ (if j == d then some 0 else get_elem? v.fat j)
        → (if later then some 0 else get_elem? (set v.fat d 0) j)
          ≡ (if (j == d) || later then some 0 else get_elem? v.fat j)
    places j later h = ground (arith, h)

free_chain_from-Chain :
    (left : ℕ) (v : Fat32) (c : ℕ) (cs : List ℕ)
    → IsValid v
    → Chain v.fat c cs
    → length cs ≤ left
    → (w : Fat32) × (free_chain_from left c v ≡ (ok tt, w)) × Released v cs w
free_chain_from-Chain left v c [] valid end short = (
  v,
  ended left v c end,
  record { zeroed = λ j. refl; more_free = omega arith; still_valid = valid },
)
free_chain_from-Chain zero v c (d ∷ cs) valid ch short = absurd (omega arith)
free_chain_from-Chain (suc left) v c (d ∷ cs) valid (at, lo, mid, apart, (e, here, used, rest))
      short =
    let (freeing, valid') = release_lem v d e valid lo here used in
    let (w, run, r) =
      free_chain_from-Chain left (freed d v) (masked e) cs valid'
        (Chain-put v.fat (masked e) d cs 0 e apart rest) (omega (arith, short)) in
    (
      w,
      ap (λ x. free_chain_from (suc left) x v) at
          ∙ stepped left v (freed d v) d (masked e) lo mid freeing
          ∙ run,
      Released-cons v w d e cs here r,
    )

-- On a valid volume `free_chain` of a chain of at most a million and one clusters succeeds: exactly
-- the entries of the chain become 0, the count of free clusters grows by their number, and the
-- volume stays valid.
pub free_chain_lem :
    (v : Fat32) (c : ℕ) (cs : List ℕ)
    → IsValid v
    → Chain v.fat c cs
    → length cs ≤ chain_guard + 1
    → (w : Fat32) × (free_chain c v ≡ (ok tt, w)) × Released v cs w
free_chain_lem v c cs valid ch short = free_chain_from-Chain (chain_guard + 1) v c cs valid ch short
