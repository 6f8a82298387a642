-- ===== src/Fat/Flush.antt =====
-- src/fat.rs: the write-back of the table to the disk.
use macha_os.Prelude.{
  ℕ, zero, suc, ◌+◌, ◌*◌, ◌%◌, ◌^◌, ◌<◌, ◌≤◌, ◌≡◌, ◌≢◌, refl, sym, subst, Bool, true, false, List,
  map, inl, inr, length, get_or, set, take, drop, Bool-cases, Result, ok, err, to_le_bytes, ap, ◌∙◌,
  ◌⊎◌, arith, length-set, get_or-set_self, get_or-set_ne, leb,
}
use Prim.Native.String.{String}
use macha_os.Fat.{Device, Fault, FatError, error, panic, ◌>>=◌, ◌>>◌, next_step}
use macha_os.Fat.Entries.{flatten}
use macha_os.Fat.Directory.{Mounted, on_table, io_result, write_at}
use macha_os.Fat.Contents.{clean, flush_from, flush_fat}
use macha_os.Fat.Geometry.Sound.{IsSound}
use macha_os.Fat.ReadBack.{IsFaithful}

error-ne-panic : (e : FatError) → error e ≢ panic
error-ne-panic e h = cc

true-ne-false : true ≢ false
true-ne-false h = cc

module _ (dev : Device) where
  open dev use {Disk, read_sector, write_sector}

  abbrev mark : Mounted dev → ℕ → Bool
  mark w j = get_or w.volume.fat_dirty j false

  abbrev table_sector : ℕ → Mounted dev → List ℕ
  table_sector i w = flatten (map (to_le_bytes 4) (take 128 (drop (i * 128) w.volume.fat)))

  -- The table's sectors from `i` on, of which there are `left`, that are marked in `w` are not
  -- number `n` of the disk.
  abbrev Elsewhere : ℕ → ℕ → Mounted dev → ℕ → Type 0
  Elsewhere left i w n =
      (j : ℕ) → i ≤ j → j < i + left → mark w j ≡ true → n ≢ w.volume.reserved_sectors + j

  abbrev OthersStay : ℕ → ℕ → Mounted dev → Mounted dev → Type 0
  OthersStay left i w r =
      (n : ℕ) → Elsewhere left i w n → read_sector r.disk n ≡ read_sector w.disk n

  -- The result of a flush of the `left` sectors from number `i` on, on both branches.
  abbrev pub Flushed : ℕ → ℕ → Mounted dev → Result Fault (Unit {0}) × Mounted dev → Type 0
  Flushed left i w (ok u, r) =
      (r.volume.fat ≡ w.volume.fat)
      × ((j : ℕ) → i ≤ j → j < i + left → mark r j ≡ false)
      × ((j : ℕ) → j < i → mark r j ≡ mark w j)
      × ((j : ℕ)
          → i ≤ j
          → j < i + left
          → mark w j ≡ true
          → read_sector r.disk (w.volume.reserved_sectors + j) ≡ ok (table_sector j w))
      × OthersStay left i w r
  Flushed left i w (err fault, r) = (fault ≢ panic) × OthersStay left i w r

  abbrev Fits : Mounted dev → Type 0
  Fits w =
      (length w.volume.fat ≡ 128 * length w.volume.fat_dirty)
      × (w.volume.reserved_sectors + length w.volume.fat_dirty ≤ 2 ^ 32)

  abbrev cleaned : ℕ → Mounted dev → Mounted dev
  cleaned i w = record w {
    volume = record (w.volume) { fat_dirty = set w.volume.fat_dirty i false };
  }

  pass_clean :
      (left i : ℕ) (w : Mounted dev)
      → mark w i ≡ false
      → flush_from dev (suc left) i w ≡ flush_from dev left (i + 1) w
  unfolding flush_from
  pass_clean left i w clear = rw (flush_from, clear) refl

  pass_dirty :
      (left i : ℕ) (w : Mounted dev)
      → mark w i ≡ true
      → leb (i * 128 + 128) (length w.volume.fat) ≡ true
      → (w.volume.reserved_sectors + i) % 2 ^ 32 ≡ w.volume.reserved_sectors + i
      → flush_from dev (suc left) i w
        ≡ next_step
            (λ u. on_table dev (clean i) >> flush_from dev left (i + 1))
            (write_at dev (w.volume.reserved_sectors + i) (table_sector i w) w)
  unfolding flush_from ◌>>=◌
  pass_dirty left i w dirty inside narrow = rw (flush_from, dirty, inside, narrow) refl

  -- The sector `i` is done in `w'`, and the rest is flushed from there.
  record Done (i : ℕ) (w w' : Mounted dev) : Type 0 where
    same_fat : w'.volume.fat ≡ w.volume.fat
    same_place : w'.volume.reserved_sectors ≡ w.volume.reserved_sectors
    unmarked : mark w' i ≡ false
    same_marks : (j : ℕ) → j ≢ i → mark w' j ≡ mark w j
    stored :
        mark w i ≡ true
        → read_sector w'.disk (w.volume.reserved_sectors + i) ≡ ok (table_sector i w)
    others :
        (n : ℕ)
        → (mark w i ≡ true → n ≢ w.volume.reserved_sectors + i)
        → read_sector w'.disk n ≡ read_sector w.disk n

  here_or_above : (i j : ℕ) → i ≤ j → (j ≡ i) ⊎ (i + 1 ≤ j)
  here_or_above i j lo = ground arith

  carry-OthersStay :
      (left i : ℕ) (w w' r : Mounted dev)
      → Done i w w'
      → OthersStay left (i + 1) w' r
      → OthersStay (suc left) i w r
  carry-OthersStay left i w w' r done stay n elsewhere =
      stay n (λ j lo hi marked e.
        elsewhere j (omega arith) (omega arith)
          (sym (done.same_marks j (λ at. absurd (omega arith))) ∙ marked)
          (e ∙ ap (λ s. s + j) done.same_place))
      ∙ done.others n (elsewhere i (omega arith) (omega arith))

  carry :
      (left i : ℕ) (w w' : Mounted dev) (r : Result Fault (Unit {0}) × Mounted dev)
      → Done i w w'
      → Flushed left (i + 1) w' r
      → Flushed (suc left) i w r
  carry left i w w' (ok u, r) done (fat, above, under, stored, stay) = (
    fat ∙ done.same_fat,
    λ j lo hi. elim (here_or_above i j lo) [
      | inl at ↦ ap (mark r) at ∙ under i (omega arith) ∙ done.unmarked
      | inr past ↦ above j past (omega arith)
    ],
    λ j lt. under j (omega arith) ∙ done.same_marks j (λ e. absurd (omega arith)),
    λ j lo hi marked. elim (here_or_above i j lo) [
      | inl at ↦
          subst (λ k. read_sector r.disk (w.volume.reserved_sectors + k) ≡ ok (table_sector k w))
            (sym at)
            (stay (w.volume.reserved_sectors + i)
                (λ k up most m e. absurd (omega (arith, done.same_place)))
              ∙ done.stored (ap (mark w) (sym at) ∙ marked))
      | inr past ↦
          ap (λ s. read_sector r.disk (s + j)) (sym done.same_place)
          ∙ stored j past (omega arith) (done.same_marks j (λ e. absurd (omega arith)) ∙ marked)
          ∙ ap (λ fat. ok (flatten (map (to_le_bytes 4) (take 128 (drop (j * 128) fat)))))
              done.same_fat
    ],
    carry-OthersStay left i w w' r done stay,
  )
  carry left i w w' (err fault, r) done (fails, stay) =
      (fails, carry-OthersStay left i w w' r done stay)

  passed-Done : (i : ℕ) (w : Mounted dev) → mark w i ≡ false → Done i w w
  passed-Done i w clear = record {
    same_fat = refl;
    same_place = refl;
    unmarked = clear;
    same_marks = λ j ne. refl;
    stored = λ marked. absurd (true-ne-false (sym marked ∙ clear));
    others = λ n elsewhere. refl;
  }

  module _ (faithful : IsFaithful dev) where
    abbrev Writes : ℕ → Mounted dev → Result String (Unit {0}) → Disk → Type 0
    Writes i w res d =
        write_sector w.disk (w.volume.reserved_sectors + i) (table_sector i w) ≡ (res, d)

    stay_written :
        (i : ℕ) (w : Mounted dev) (res : Result String (Unit {0})) (d : Disk)
        → Writes i w res d
        → (n : ℕ) → n ≢ w.volume.reserved_sectors + i
        → read_sector d n ≡ read_sector w.disk n
    stay_written i w res d at n ne =
        ap (λ (r : Result String (Unit {0}) × Disk). read_sector r.1 n) (sym at)
        ∙ faithful.others_stay w.disk (w.volume.reserved_sectors + i) n (table_sector i w) ne

    cleaned-Done :
        (i : ℕ) (w : Mounted dev) (d : Disk)
        → i < length w.volume.fat_dirty
        → mark w i ≡ true
        → Writes i w (ok tt) d
        → Done i w (cleaned i (record w { disk = d }))
    cleaned-Done i w d within dirty at = record {
      same_fat = refl;
      same_place = refl;
      unmarked = get_or-set_self w.volume.fat_dirty i false false (omega arith);
      same_marks = λ j ne. get_or-set_ne w.volume.fat_dirty i j false false (λ e. ne (sym e));
      stored = λ marked.
          faithful.reads_back w.disk (w.volume.reserved_sectors + i) (table_sector i w) d at;
      others = λ n elsewhere. stay_written i w (ok tt) d at n (elsewhere dirty);
    }

    flush_from-Flushed :
        (left i : ℕ) (w : Mounted dev)
        → Fits w
        → i + left ≤ length w.volume.fat_dirty
        → Flushed left i w (flush_from dev left i w)
    unfolding write_at flush_from ◌>>=◌
    flush_from-Flushed zero i w fits within = (
      refl,
      (λ j lo hi. absurd (omega arith)),
      (λ j lt. refl),
      (λ j lo hi m. absurd (omega arith)),
      λ n e. refl,
    )
    flush_from-Flushed (suc left) i w fits within = elim (Bool-cases (mark w i)) [
      | inl dirty ↦
          subst (Flushed (suc left) i w)
            (sym (
              pass_dirty left i w dirty (ground (arith, fits.0, within))
                (omega (arith, fits.1, within))))
            (written (write_sector w.disk (w.volume.reserved_sectors + i) (table_sector i w)) refl
              dirty
              (λ d at.
                let w1 : Mounted dev = record w { disk = d } in
                carry left i w (cleaned i w1) _ (cleaned-Done i w d (omega arith) dirty at) (
                  flush_from-Flushed left (i + 1) (cleaned i w1)
                    (
                      omega (arith, fits.0, length-set w.volume.fat_dirty i false),
                      omega (arith, fits.1, length-set w.volume.fat_dirty i false),
                    )
                    (omega (arith, within, length-set w.volume.fat_dirty i false)))))
      | inr clear ↦ subst (Flushed (suc left) i w) (sym (pass_clean left i w clear)) (
          carry left i w w _ (passed-Done i w clear)
            (flush_from-Flushed left (i + 1) w fits (omega arith)))
    ]
      where
        written :
            (r : Result String (Unit {0}) × Disk)
            → write_sector w.disk (w.volume.reserved_sectors + i) (table_sector i w) ≡ r
            → mark w i ≡ true
            → ((d : Disk)
                → Writes i w (ok tt) d
                → Flushed
                    (suc left)
                    i
                    w
                    (flush_from dev left (i + 1) (cleaned i (record w { disk = d }))))
            → Flushed (suc left) i w (
                next_step
                  (λ u. on_table dev (clean i) >> flush_from dev left (i + 1))
                  (io_result dev r.0, record w { disk = r.1 }))
        written (ok u, d) at dirty h = h d at
        written (err message, d) at dirty h = (
          error-ne-panic (FatError.io message),
          λ n elsewhere.
              stay_written i w (err message) d at n (elsewhere i (omega arith) (omega arith) dirty),
        )

    -- On a device where a written sector reads back and no other one changes, for a sound
    -- volume whose table ends by sector 2 ^ 32, `flush_fat` never panics and writes no sector
    -- but those of the table that are marked as dirty. Where it succeeds, each of these reads,
    -- at its place behind the reserved sectors, as its 128 entries of the table, no mark is
    -- left, and the table is what it was.
    pub flush_fat_lem :
        (w : Mounted dev)
        → IsSound w.volume
        → w.volume.reserved_sectors + length w.volume.fat_dirty ≤ 2 ^ 32
        → Flushed (length w.volume.fat_dirty) 0 w (flush_fat dev w)
    unfolding flush_fat
    flush_fat_lem w sound narrow =
        flush_from-Flushed (length w.volume.fat_dirty) 0 w
          (omega (arith, sound.entries, sound.marks), narrow) (omega arith)
