-- ===== src/Fat/Alloc.antt =====
-- src/fat.rs: the count of free clusters, and the allocation of one.
use macha_os.Prelude.{
  ℕ, zero, suc, ◌+◌, ◌-◌, ◌*◌, ◌/◌, ◌^◌, ◌<◌, ◌≤◌, ◌≡◌, ◌≢◌, refl, sym, ap, subst, ◌∙◌, true,
  Option, none, some, List, [], ◌∷◌, inl, inr, arith, length, get_elem?, set, drop, length-set,
  lt→ltb, ◌==◌, ==_iff, Bool-cases, Result, ok, err,
}
use macha_os.Fat.{Fat32, Fault, FatError, error, Step, ◌>>=◌, next_step, eof_mark, masked}
use macha_os.Fat.Table.{
  put_entry, set_cluster, free_entry, count_free, find_free, take_cluster, alloc_cluster,
}

-- The table has a dirty mark for each of its sectors and fewer than 2 ^ 28 entries, and the count of
-- free clusters is that of the entries from 2 on that are free.
pub record IsValid (v : Fat32) : Type 0 where
  pub marked : length v.fat ≤ 128 * length v.fat_dirty
  pub small : length v.fat ≤ 2 ^ 28
  pub counted : v.free_clusters ≡ count_free (drop 2 v.fat)

pub count_free-set :
    (xs : List ℕ) (i e value : ℕ)
    → get_elem? xs i ≡ some e
    → count_free (set xs i value) + free_entry e ≡ count_free xs + free_entry value
unfolding count_free
count_free-set [] i e value h = absurd cc
count_free-set (x ∷ xs) zero e value h = let same : x ≡ e = cc in rw (sym same) (omega arith)
count_free-set (x ∷ xs) (suc i) e value h = omega (arith, count_free-set xs i e value h)

pub drop-set :
    (k : ℕ) (xs : List ℕ) (i value : ℕ) → drop k (set xs (i + k) value) ≡ set (drop k xs) i value
drop-set zero xs i value = let e : i + 0 ≡ i = omega arith in rw e refl
drop-set (suc k) [] i value = refl
drop-set (suc k) (x ∷ xs) i value =
    let e : i + suc k ≡ suc (i + k) = omega arith in rw e (drop-set k xs i value)

pub get_elem?-drop : (k : ℕ) (xs : List ℕ) (i : ℕ) → get_elem? (drop k xs) i ≡ get_elem? xs (i + k)
get_elem?-drop zero xs i = let e : i + 0 ≡ i = omega arith in rw e refl
get_elem?-drop (suc k) [] i = refl
get_elem?-drop (suc k) (x ∷ xs) i =
    let e : i + suc k ≡ suc (i + k) = omega arith in rw e (get_elem?-drop k xs i)

pub in_range : (xs : List ℕ) (i e : ℕ) → get_elem? xs i ≡ some e → i < length xs
in_range [] i e h = absurd cc
in_range (x ∷ xs) zero e h = omega arith
in_range (x ∷ xs) (suc i) e h = omega (arith, in_range xs i e h)

-- What the search says of the entries that start at number `base`.
abbrev Found : ℕ → List ℕ → Option ℕ → Type 0
Found base xs none = count_free xs ≡ 0
Found base xs (some c) =
    (i : ℕ) × (c ≡ base + i)
    × ((e : ℕ) × (get_elem? xs i ≡ some e) × (masked e ≡ 0))
    × ((j d : ℕ) → j < i → get_elem? xs j ≡ some d → masked d ≢ 0)

Found-skip :
    (base x : ℕ) (xs : List ℕ) (o : Option ℕ)
    → masked x ≢ 0
    → Found (suc base) xs o
    → Found base (x ∷ xs) o
unfolding count_free
Found-skip base x xs none used h = ground (arith, h)
Found-skip base x xs (some c) used h =
    let (i, at, free, before) = h in (suc i, omega (arith, at), free, lower i before)
  where
    lower :
        (i : ℕ)
        → ((j d : ℕ) → j < i → get_elem? xs j ≡ some d → masked d ≢ 0)
        → (j d : ℕ) → j < suc i
        → get_elem? (x ∷ xs) j ≡ some d
        → masked d ≢ 0
    lower i before zero d lt e = let same : x ≡ d = cc in subst (λ n. masked n ≢ 0) same used
    lower i before (suc j) d lt e = before j d (omega arith) e

find_free-Found : (base : ℕ) (xs : List ℕ) → Found base xs (find_free base xs)
unfolding find_free count_free
find_free-Found base [] = refl
find_free-Found base (x ∷ xs) = elim (Bool-cases (masked x == 0)) [
  | inl free ↦
      rw free (0, omega arith, (x, refl, (==_iff _ _).0 free), λ j d lt e. absurd (omega arith))
  | inr used ↦ rw used (
      Found-skip base x xs (find_free (suc base) xs) (λ e. ground (arith, used, e))
        (find_free-Found (suc base) xs))
]

-- A cluster whose entry changes, and the count that goes with it.
pub put_entry-IsValid :
    (v : Fat32) (c e value free : ℕ)
    → IsValid v
    → 2 ≤ c
    → get_elem? v.fat c ≡ some e
    → free + free_entry e ≡ v.free_clusters + free_entry value
    → IsValid (record (put_entry c value v) { free_clusters = free })
put_entry-IsValid v c e value free valid lo here moved = record {
  marked =
      omega (arith, length-set v.fat c value, length-set v.fat_dirty (c / 128) true, valid.marked);
  small = omega (arith, length-set v.fat c value, valid.small);
  counted =
      let i : ℕ = c - 2 in
      let back : i + 2 ≡ c = omega arith in
      let shifted : get_elem? (drop 2 v.fat) i ≡ some e =
        get_elem?-drop 2 v.fat i ∙ ap (get_elem? v.fat) back ∙ here in
      let dropped : drop 2 (set v.fat c value) ≡ set (drop 2 v.fat) i value =
        ap (λ n. drop 2 (set v.fat n value)) (sym back) ∙ drop-set 2 v.fat i value in
      let counts = count_free-set (drop 2 v.fat) i e value shifted in
      rw dropped (omega (arith, counts, moved, valid.counted));
}

pub set_cluster_lem :
    (v : Fat32) (c e value : ℕ)
    → IsValid v
    → get_elem? v.fat c ≡ some e
    → set_cluster c value v ≡ (ok tt, put_entry c value v)
unfolding set_cluster
set_cluster_lem v c e value valid here =
    rw (set_cluster, lt→ltb _ _ (in_range v.fat c e here), lt→ltb _ _ marked) refl
  where
    marked : c / 128 < length v.fat_dirty
    marked = omega (arith, in_range v.fat c e here, valid.marked)

-- Two steps in a row, the first of which succeeds.
pub >>=-ok :
    {S A B : Type 0} (m : Step S A) (f : A → Step S B) (s t : S) (a : A)
    → m s ≡ (ok a, t)
    → (m >>= f) s ≡ f a t
unfolding ◌>>=◌
>>=-ok m f s t a e = ap (next_step f) e

sub_add : (j : ℕ) → 2 ≤ j → j - 2 + 2 ≡ j
sub_add j lo = omega arith

free_entry_one : (e : ℕ) → masked e ≡ 0 → free_entry e ≡ 1
free_entry_one e h = ground (arith, h)

-- The result of `alloc_cluster` on both branches.
abbrev pub Allocated : Fat32 → Result Fault ℕ × Fat32 → Type 0
Allocated v (err fault, w) = (fault ≡ error FatError.out_of_space) × (w ≡ v) × (v.free_clusters ≡ 0)
Allocated v (ok c, w) =
    (2 ≤ c)
    × ((e : ℕ) × (get_elem? v.fat c ≡ some e) × (masked e ≡ 0))
    × ((j d : ℕ) → 2 ≤ j → j < c → get_elem? v.fat j ≡ some d → masked d ≢ 0)
    × (w.fat ≡ set v.fat c eof_mark)
    × (w.free_clusters + 1 ≡ v.free_clusters)
    × IsValid w

-- On a valid volume `alloc_cluster` takes the lowest free cluster from 2 on, marks it as the end of
-- a chain and no other entry, counts one free cluster less and keeps the volume valid; it fails,
-- and changes nothing, only when none is free.
pub alloc_cluster_lem : (v : Fat32) → IsValid v → Allocated v (alloc_cluster v)
unfolding alloc_cluster
alloc_cluster_lem v valid = after (find_free 2 (drop 2 v.fat)) (find_free-Found 2 (drop 2 v.fat))
  where
    after : (o : Option ℕ) → Found 2 (drop 2 v.fat) o → Allocated v (take_cluster o v)
    after none none_free = (refl, refl, valid.counted ∙ none_free)
    after (some c) (i, at, (e, shifted, free), before) =
        let back : i + 2 ≡ c = omega (arith, at) in
        let here : get_elem? v.fat c ≡ some e =
          ap (get_elem? v.fat) (sym back) ∙ sym (get_elem?-drop 2 v.fat i) ∙ shifted in
        let one = free_entry_one e free in
        let counts = count_free-set (drop 2 v.fat) i e eof_mark shifted in
        let some_free : 1 ≤ v.free_clusters = omega (arith, counts, one, valid.counted) in
        let took =
          >>=-ok (set_cluster c eof_mark)
            (λ u w. (ok c, record w { free_clusters = w.free_clusters - 1 })) v _ tt
            (set_cluster_lem v c e eof_mark valid here) in
        subst (Allocated v) (sym took) (
          omega (arith, at),
          (e, here, free),
          λ j d lo lt at_j.
              before (j - 2) d (omega (arith, at))
                (get_elem?-drop 2 v.fat (j - 2) ∙ ap (get_elem? v.fat) (sub_add j lo) ∙ at_j),
          refl,
          omega (arith, some_free),
          put_entry-IsValid v c e eof_mark (v.free_clusters - 1) valid (omega (arith, at)) here
              (omega (arith, one, some_free)),
        )
