-- ===== src/Fat/Geometry.antt =====
-- src/fat.rs: what no operation changes, whatever its result: the geometry of a mounted volume.
pub mod Directories
pub mod Operations
pub mod Files
pub mod Sound
pub mod Reachable
use macha_os.Prelude.{
  ℕ, zero, suc, ◌/◌, ◌≡◌, refl, ◌∙◌, Bool, true, false, none, some, List, [], ◌∷◌, inl, inr, length,
  get_elem?, drop, length-set, ltb, if◌then◌else◌, Bool-cases, Result, ok, err, Option,
}
use macha_os.Fat.{Device, Fat32, Fault, FatError, Step, ◌>>=◌, ◌>>◌, next_step, eof_mark, is_eof}
use macha_os.Fat.Table.{
  put_entry, set_cluster, entry_step, next_cluster, find_free, take_cluster, alloc_cluster, release,
  free_chain_from, alloc_clusters, link_clusters, last_from,
}

-- The numbers of the boot sector, and the lengths of the table and of its dirty marks.
pub record Geometry : Type 0 where
  pub entries : ℕ
  pub marks : ℕ
  pub sectors_per_cluster : ℕ
  pub reserved_sectors : ℕ
  pub fat_count : ℕ
  pub fat_size_sectors : ℕ
  pub root_cluster : ℕ
  pub first_data_sector : ℕ
  pub total_sectors : ℕ

abbrev pub geometry : Fat32 → Geometry
geometry v = record {
  entries = length v.fat;
  marks = length v.fat_dirty;
  sectors_per_cluster = v.sectors_per_cluster;
  reserved_sectors = v.reserved_sectors;
  fat_count = v.fat_count;
  fat_size_sectors = v.fat_size_sectors;
  root_cluster = v.root_cluster;
  first_data_sector = v.first_data_sector;
  total_sectors = v.total_sectors;
}

-- A step after which `g` is what it was, also when it fails.
abbrev pub Keeps : {S A B : Type 0} → (S → B) → Step S A → Type 0
Keeps {S = S} g m = (s : S) → g (m s).1 ≡ g s

pub Keeps->>= :
    {S A B C : Type 0} (g : S → C) (m : Step S A) (f : A → Step S B)
    → Keeps g m
    → ((a : A) → Keeps g (f a))
    → Keeps g (m >>= f)
unfolding ◌>>=◌
Keeps->>= {S = S} {A = A} {B = B} g m f hm hf s = after (m s) (hm s)
  where
    after : (r : Result Fault A × S) → g r.1 ≡ g s → g (next_step f r).1 ≡ g s
    after (ok a, t) same = hf a t ∙ same
    after (err e, t) same = same

pub Keeps->> :
    {S B C : Type 0} (g : S → C) (m : Step S (Unit {0})) (n : Step S B)
    → Keeps g m
    → Keeps g n
    → Keeps g (m >> n)
Keeps->> g m n hm hn = Keeps->>= g m _ hm (λ u. hn)

pub Keeps-if :
    {S A C : Type 0} (g : S → C) (b : Bool) (m n : Step S A)
    → Keeps g m
    → Keeps g n
    → Keeps g (if b then m else n)
Keeps-if g true m n hm hn = hm
Keeps-if g false m n hm hn = hn

-- The same for a split on a truth value, an optional value and a list.
pub Keeps-Bool :
    {S A C : Type 0} (g : S → C) (b : Bool) (m n : Step S A)
    → Keeps g m
    → Keeps g n
    → Keeps g (elim b [ true ↦ m | false ↦ n ])
Keeps-Bool g true m n hm hn = hm
Keeps-Bool g false m n hm hn = hn

pub Keeps-Option :
    {S A B C : Type 0} (g : S → C) (o : Option B) (m : B → Step S A) (n : Step S A)
    → ((b : B) → Keeps g (m b))
    → Keeps g n
    → Keeps g (elim o [ some b ↦ m b | none ↦ n ])
Keeps-Option g none m n hm hn = hn
Keeps-Option g (some b) m n hm hn = hm b

pub Keeps-List :
    {S A B C : Type 0} (g : S → C) (xs : List B) (m : B → List B → Step S A) (n : Step S A)
    → ((b : B) (bs : List B) → Keeps g (m b bs))
    → Keeps g n
    → Keeps g (elim xs [ [] ↦ n | b ∷ bs ↦ m b bs ])
Keeps-List g [] m n hm hn = hn
Keeps-List g (b ∷ bs) m n hm hn = hm b bs

pub put_entry-geometry : (c value : ℕ) (v : Fat32) → geometry (put_entry c value v) ≡ geometry v
put_entry-geometry c value v =
    rw (length-set v.fat c value, length-set v.fat_dirty (c / 128) true) refl

pub set_cluster-Keeps : (c value : ℕ) → Keeps geometry (set_cluster c value)
unfolding set_cluster
set_cluster-Keeps c value v = elim (Bool-cases (ltb c (length v.fat))) [
  | inl inside ↦ rw inside (put_entry-geometry c value v)
  | inr outside ↦ rw outside refl
]

pub next_cluster-Keeps : (c : ℕ) → Keeps geometry (next_cluster c)
unfolding next_cluster
next_cluster-Keeps c v =
    elim (get_elem? v.fat c) as (λ o. geometry (entry_step o v).1 ≡ geometry v) [
      | none ↦ refl
      | some e ↦ refl
    ]

pub alloc_cluster-Keeps : Keeps geometry alloc_cluster
unfolding alloc_cluster
alloc_cluster-Keeps v =
    elim (find_free 2 (drop 2 v.fat)) as (λ o. geometry (take_cluster o v).1 ≡ geometry v) [
      | none ↦ refl
      | some c ↦
          Keeps->>= geometry (set_cluster c eof_mark) _ (set_cluster-Keeps c eof_mark) (λ u w. refl)
            v
    ]

release-Keeps : (c : ℕ) → Keeps geometry (release c)
unfolding release
release-Keeps c =
    Keeps->>= geometry (next_cluster c) _ (next_cluster-Keeps c)
      (λ next. Keeps->>= geometry (set_cluster c 0) _ (set_cluster-Keeps c 0) (λ u w. refl))

pub free_chain-Keeps : (left c : ℕ) → Keeps geometry (free_chain_from left c)
unfolding free_chain_from
free_chain-Keeps zero c = Keeps-if geometry (is_eof c) _ _ (λ v. refl) (λ v. refl)
free_chain-Keeps (suc left) c =
    Keeps-Bool geometry (is_eof c) _ _ (λ v. refl)
      (Keeps-if geometry (ltb c 2) _ _ (λ v. refl)
        (Keeps->>= geometry (release c) _ (release-Keeps c) (free_chain-Keeps left)))

pub alloc_clusters-Keeps : (n : ℕ) → Keeps geometry (alloc_clusters n)
unfolding alloc_clusters
alloc_clusters-Keeps zero = λ v. refl
alloc_clusters-Keeps (suc n) =
    Keeps->>= geometry alloc_cluster _ alloc_cluster-Keeps
      (λ c. Keeps->>= geometry (alloc_clusters n) _ (alloc_clusters-Keeps n) (λ cs v. refl))

pub link_clusters-Keeps : (cs : List ℕ) → Keeps geometry (link_clusters cs)
unfolding link_clusters
link_clusters-Keeps [] = λ v. refl
link_clusters-Keeps (c ∷ []) = set_cluster-Keeps c eof_mark
link_clusters-Keeps (c ∷ d ∷ cs) =
    Keeps->>= geometry (set_cluster c d) _ (set_cluster-Keeps c d)
      (λ u. link_clusters-Keeps (d ∷ cs))

pub last_from-Keeps : (left c : ℕ) → Keeps geometry (last_from left c)
unfolding last_from
last_from-Keeps zero c = λ v. refl
last_from-Keeps (suc left) c =
    Keeps->>= geometry (next_cluster c) _ (next_cluster-Keeps c)
      (λ next. Keeps-Bool geometry (is_eof next) _ _ (λ v. refl) (last_from-Keeps left next))
