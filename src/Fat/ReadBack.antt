-- ===== src/Fat/ReadBack.antt =====
-- src/fat.rs: contents that are written to the sectors of a cluster, and read from them again.
use macha_os.Prelude.{
  ℕ, zero, suc, ◌+◌, ◌-◌, ◌*◌, ◌<◌, ◌≤◌, min, ◌≡◌, ◌≢◌, true, false, List, [], ◌∷◌, ◌++◌, arith,
  length, take, ◌==◌, ok, refl, ap, drop, replicate, length-take, err, sym, subst, ◌∙◌, length-drop,
  take-append-drop, Result,
}
use Prim.Native.String.{String}
use mathlib.Core.List.{append-nil, append_assoc}
use macha_os.Fat.{Device, cluster_to_sector, Fault, FatError, error, ◌>>=◌}
use macha_os.Fat.Directory.{Mounted, read_cluster, read_at, write_cluster, write_at, sector_of}
use macha_os.Fat.Contents.{sector_bytes, read_sectors_into, write_in_cluster}

-- A device on which a sector that was written reads back, and no other one changes.
pub record IsFaithful (dev : Device) : Type 0 where
  pub reads_back :
      (d : dev.Disk) (n : ℕ) (bytes : List ℕ) (e : dev.Disk)
      → dev.write_sector d n bytes ≡ (ok tt, e)
      → dev.read_sector e n ≡ ok bytes
  pub others_stay :
      (d : dev.Disk) (n m : ℕ) (bytes : List ℕ)
      → m ≢ n
      → dev.read_sector (dev.write_sector d n bytes).1 m ≡ dev.read_sector d m

nothing_left : (n : ℕ) → n ≡ 0 → (n == 0) ≡ true
nothing_left n h = ground (arith, h)

something_left : (n : ℕ) → 1 ≤ n → (n == 0) ≡ false
something_left n h = ground (arith, h)

module _ (dev : Device) (faithful : IsFaithful dev) where
  open dev use {Disk, read_sector, write_sector}

  -- What writing `content` from sector `s` of a cluster on leaves.
  pub record Stored (left s c : ℕ) (content : List ℕ) (w w' : Mounted dev) : Type 0 where
    pub same_volume : w'.volume ≡ w.volume
    pub below : (n : ℕ) → n < sector_of dev w c s → read_sector w'.disk n ≡ read_sector w.disk n
    pub reads :
        (out : List ℕ)
        → read_sectors_into dev left s c (length content) out w' ≡ (ok (0, out ++ content), w')

  read_last :
      (left s c remaining : ℕ) (out sector : List ℕ) (w : Mounted dev)
      → read_sector w.disk (sector_of dev w c s) ≡ ok sector
      → (remaining - min remaining 512 == 0) ≡ true
      → read_sectors_into dev (suc left) s c remaining out w
        ≡ (ok (0, out ++ take (min remaining 512) sector), w)
  unfolding read_sectors_into read_cluster read_at ◌>>=◌
  read_last left s c remaining out sector w h last = rw (read_sectors_into, h, last) refl

  read_more :
      (left s c remaining : ℕ) (out sector : List ℕ) (w : Mounted dev)
      → read_sector w.disk (sector_of dev w c s) ≡ ok sector
      → (remaining - min remaining 512 == 0) ≡ false
      → read_sectors_into dev (suc left) s c remaining out w
        ≡ read_sectors_into dev left
            (s + 1)
            c
            (remaining - min remaining 512)
            (out ++ take (min remaining 512) sector)
            w
  unfolding read_sectors_into read_cluster read_at ◌>>=◌
  read_more left s c remaining out sector w h more = rw (read_sectors_into, h, more) refl

  take-prefix : (xs ys : List ℕ) → take (length xs) (xs ++ ys) ≡ xs
  take-prefix [] ys = refl
  take-prefix (x ∷ xs) ys = ap (λ r. x ∷ r) (take-prefix xs ys)

  take-sector_bytes :
      (content : List ℕ) → take (min (length content) 512) (sector_bytes content) ≡ take 512 content
  take-sector_bytes content =
      let count : min (length content) 512 ≡ length (take 512 content) =
        omega (arith, length-take 512 content) in
      rw count (take-prefix (take 512 content) (replicate (512 - length content) 0))

  -- The two ways on after a sector.
  write_last :
      (left s c : ℕ) (content : List ℕ) (w : Mounted dev) (d : Disk)
      → write_sector w.disk (sector_of dev w c s) (sector_bytes content) ≡ (ok tt, d)
      → drop 512 content ≡ []
      → write_in_cluster dev (suc left) s c content w ≡ (ok [], record w { disk = d })
  unfolding write_in_cluster write_cluster write_at ◌>>=◌
  write_last left s c content w d h none_left = rw (write_in_cluster, h, none_left) refl

  write_more :
      (left s c b : ℕ) (bs content : List ℕ) (w : Mounted dev) (d : Disk)
      → write_sector w.disk (sector_of dev w c s) (sector_bytes content) ≡ (ok tt, d)
      → drop 512 content ≡ b ∷ bs
      → write_in_cluster dev (suc left) s c content w
        ≡ write_in_cluster dev left (s + 1) c (b ∷ bs) (record w { disk = d })
  unfolding write_in_cluster write_cluster write_at ◌>>=◌
  write_more left s c b bs content w d h some_left = rw (write_in_cluster, h, some_left) refl

  write_fails :
      (left s c : ℕ) (content : List ℕ) (w : Mounted dev) (d : Disk) (message : String)
      → write_sector w.disk (sector_of dev w c s) (sector_bytes content) ≡ (err message, d)
      → write_in_cluster dev (suc left) s c content w
        ≡ (err (error (FatError.io message)), record w { disk = d })
  unfolding write_in_cluster write_cluster write_at ◌>>=◌
  write_fails left s c content w d message h = rw (write_in_cluster, h) refl

  untouched :
      (w : Mounted dev) (d : Disk) (at : ℕ) (bytes : List ℕ)
      → write_sector w.disk at bytes ≡ (ok tt, d)
      → (n : ℕ) → n < at
      → read_sector d n ≡ read_sector w.disk n
  untouched w d at bytes h n lt =
      ap (λ e. read_sector e n) (sym (ap (λ r. r.1) h))
      ∙ faithful.others_stay w.disk at n bytes (λ e. absurd (omega arith))

  ends-Stored :
      (left s c : ℕ) (content : List ℕ) (w : Mounted dev) (d : Disk)
      → write_sector w.disk (sector_of dev w c s) (sector_bytes content) ≡ (ok tt, d)
      → drop 512 content ≡ []
      → Stored (suc left) s c content w (record w { disk = d })
  ends-Stored left s c content w d h none_left = record {
    same_volume = refl;
    below = untouched w d (sector_of dev w c s) (sector_bytes content) h;
    reads = λ out.
        let here = faithful.reads_back w.disk (sector_of dev w c s) (sector_bytes content) d h in
        let short = length-drop 512 content in
        let none_length : length (drop 512 content) ≡ 0 = ap length none_left in
        let last : (length content - min (length content) 512 == 0) ≡ true =
          nothing_left _ (omega (arith, short, none_length)) in
        let whole : take 512 content ≡ content =
          sym (append-nil (take 512 content))
          ∙ ap (λ r. take 512 content ++ r) (sym none_left)
          ∙ take-append-drop 512 content in
        read_last left s c (length content) out (sector_bytes content) (record w { disk = d }) here
          last
        ∙ ap (λ r. (ok (0, out ++ r), record w { disk = d })) (take-sector_bytes content ∙ whole);
  }

  continues-Stored :
      (left s c : ℕ) (content : List ℕ) (w w' : Mounted dev) (d : Disk)
      → write_sector w.disk (sector_of dev w c s) (sector_bytes content) ≡ (ok tt, d)
      → 1 ≤ length (drop 512 content)
      → Stored left (s + 1) c (drop 512 content) (record w { disk = d }) w'
      → Stored (suc left) s c content w w'
  continues-Stored left s c content w w' d h some_left st = record {
    same_volume = st.same_volume;
    below = λ n lt.
        st.below n (omega arith)
        ∙ untouched w d (sector_of dev w c s) (sector_bytes content) h n lt;
    reads = λ out.
        let at : sector_of dev w' c s ≡ sector_of dev w c s =
          ap (λ v. cluster_to_sector v c + s) st.same_volume in
        let here : read_sector w'.disk (sector_of dev w' c s) ≡ ok (sector_bytes content) =
          ap (read_sector w'.disk) at
          ∙ st.below (sector_of dev w c s) (omega arith)
          ∙ faithful.reads_back w.disk (sector_of dev w c s) (sector_bytes content) d h in
        let shorter = length-drop 512 content in
        let more : (length content - min (length content) 512 == 0) ≡ false =
          something_left _ (omega (arith, shorter, some_left)) in
        let left_over : length content - min (length content) 512 ≡ length (drop 512 content) =
          omega (arith, shorter) in
        read_more left s c (length content) out (sector_bytes content) w' here more
        ∙ ap
            (λ n.
              read_sectors_into dev left (s + 1) c n
                (out ++ take (min (length content) 512) (sector_bytes content)) w')
            left_over
        ∙ ap (λ r. read_sectors_into dev left (s + 1) c (length (drop 512 content)) (out ++ r) w')
            (take-sector_bytes content)
        ∙ st.reads (out ++ take 512 content)
        ∙ ap (λ r. (ok (0, r), w'))
            (append_assoc out (take 512 content) (drop 512 content)
              ∙ ap (λ r. out ++ r) (take-append-drop 512 content));
  }

  write_in_cluster-Stored :
      (left s c : ℕ) (content rest : List ℕ) (w w' : Mounted dev)
      → 1 ≤ length content
      → length content ≤ left * 512
      → write_in_cluster dev left s c content w ≡ (ok rest, w')
      → Stored left s c content w w'
  unfolding write_in_cluster write_cluster write_at ◌>>=◌
  write_in_cluster-Stored zero s c content rest w w' some_bytes fits h = absurd (omega arith)
  write_in_cluster-Stored (suc left) s c content rest w w' some_bytes fits h =
      written (write_sector w.disk (sector_of dev w c s) (sector_bytes content)) refl
        (λ b bs d. write_in_cluster-Stored left (s + 1) c (b ∷ bs) rest (record w { disk = d }) w')
    where
      err-ne-ok :
          (f : Fault) (u : Mounted dev)
          → ¬ (◌≡◌ {A = Result Fault (List ℕ) × Mounted dev} (err f, u) (ok rest, w'))
      err-ne-ok f u e = absurd cc

      after :
          (d : Disk) (xs : List ℕ)
          → write_sector w.disk (sector_of dev w c s) (sector_bytes content) ≡ (ok tt, d)
          → drop 512 content ≡ xs
          → ((b : ℕ) (bs : List ℕ) (d : Disk)
              → 1 ≤ length (b ∷ bs)
              → length (b ∷ bs) ≤ left * 512
              → write_in_cluster dev left (s + 1) c (b ∷ bs) (record w { disk = d }) ≡ (ok rest, w')
              → Stored left (s + 1) c (b ∷ bs) (record w { disk = d }) w')
          → Stored (suc left) s c content w w'
      after d [] at none_left next =
          let same : record w { disk = d } ≡ w' =
            ap (λ r. r.1) (sym (write_last left s c content w d at none_left) ∙ h) in
          subst (Stored (suc left) s c content w) same
            (ends-Stored left s c content w d at none_left)
      after d (b ∷ bs) at some_left next =
          let count : length (drop 512 content) ≡ length (b ∷ bs) = ap length some_left in
          let ih =
            next b bs d (omega arith) (omega (arith, length-drop 512 content, count, fits))
              (sym (write_more left s c b bs content w d at some_left) ∙ h) in
          continues-Stored left s c content w w' d at (omega (arith, count))
            (subst (λ r. Stored left (s + 1) c r (record w { disk = d }) w') (sym some_left) ih)

      written :
          (r : Result String (Unit {0}) × Disk)
          → write_sector w.disk (sector_of dev w c s) (sector_bytes content) ≡ r
          → ((b : ℕ) (bs : List ℕ) (d : Disk)
              → 1 ≤ length (b ∷ bs)
              → length (b ∷ bs) ≤ left * 512
              → write_in_cluster dev left (s + 1) c (b ∷ bs) (record w { disk = d }) ≡ (ok rest, w')
              → Stored left (s + 1) c (b ∷ bs) (record w { disk = d }) w')
          → Stored (suc left) s c content w w'
      written (ok u, d) at next = after d (drop 512 content) at refl next
      written (err message, d) at next =
          absurd (err-ne-ok _ _ (sym (write_fails left s c content w d message at) ∙ h))

  -- On a device where a written sector reads back and no other one changes: contents of at least
  -- one byte that fit into a cluster, once written to its sectors without an error, are what
  -- reading as many bytes from the cluster gives.
  pub read_sectors_into-write_in_cluster :
      (left c : ℕ) (content rest : List ℕ) (w w' : Mounted dev)
      → 1 ≤ length content
      → length content ≤ left * 512
      → write_in_cluster dev left 0 c content w ≡ (ok rest, w')
      → read_sectors_into dev left 0 c (length content) [] w' ≡ (ok (0, content), w')
  read_sectors_into-write_in_cluster left c content rest w w' some_bytes fits h =
      (write_in_cluster-Stored left 0 c content rest w w' some_bytes fits h).reads []
