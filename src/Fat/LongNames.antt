-- ===== src/Fat/LongNames.antt =====
-- src/fat.rs: long names, cut into directory entries and assembled from them.
use macha_os.Prelude.{
  ℕ, zero, suc, ◌+◌, ◌-◌, ◌*◌, ◌<◌, ◌≤◌, ◌≡◌, refl, ap, ◌∙◌, true, false, ◌||◌, List, [], ◌∷◌, ◌++◌,
  inl, inr, arith, length, take, drop, replicate, length-append, length-replicate, length-take,
  length-drop, take-append-drop, ltb, ◌==◌, Bool-cases, All, All-replicate, All-append, min, sym,
  subst, ◌&&◌,
}
use mathlib.Core.List.{append-nil}
use macha_os.Fat.Names.{
  long_entries, name_part, insert_part, lfn_part, part_chars, assemble_lfn, lfn_count,
}
use macha_os.Fat.LongEntries.{Small, All-take, All-drop, take_all, lfn_part-lfn_entry_bytes}

-- The character codes that a long name can hold.
abbrev pub Plain : ℕ → Type 0
Plain c = (0 < c) × (c < 128)

kept : (c : ℕ) → Plain c → ((c == 0) || (c == 0xffff)) ≡ false
kept c h = ground (arith, h)

small_char : (c : ℕ) → Plain c → ltb c 0x80 ≡ true
small_char c h = ground (arith, h)

part_chars-full : (cs : List ℕ) → All Plain cs → part_chars cs ≡ (cs, false)
part_chars-full [] h = refl
part_chars-full (c ∷ cs) h = rw (kept c h.0, part_chars-full cs h.1, small_char c h.0) refl

part_chars-ended : (cs fill : List ℕ) → All Plain cs → part_chars (cs ++ 0 ∷ fill) ≡ (cs, true)
part_chars-ended [] fill h = refl
part_chars-ended (c ∷ cs) fill h =
    rw (kept c h.0, part_chars-ended cs fill h.1, small_char c h.0) refl

abbrev Whole : List ℕ → Type 0
Whole part = (length part ≡ 13) × All Small part

Plain-Small : (cs : List ℕ) → All Plain cs → All Small cs
Plain-Small [] h = tt
Plain-Small (c ∷ cs) h = (omega (arith, h.0), Plain-Small cs h.1)

-- What `read_dir` collects from long entries, in their order on the disk, on top of `parts`.
abbrev pub collect : List (List ℕ) → List (List ℕ) → List (List ℕ)
collect [] parts = parts
collect (e ∷ es) parts = collect es (insert_part (lfn_part e) parts)

drop-nil : (n : ℕ) → drop {A = ℕ} n [] ≡ []
drop-nil zero = refl
drop-nil (suc n) = refl

drop-drop : (m n k : ℕ) (xs : List ℕ) → k ≡ m + n → drop k xs ≡ drop n (drop m xs)
drop-drop zero n k xs h = ap (λ k. drop k xs) (omega (arith, h))
drop-drop (suc m) n k [] h = drop-nil k ∙ sym (drop-nil n)
drop-drop (suc m) n zero (x ∷ xs) h = absurd (omega arith)
drop-drop (suc m) n (suc k) (x ∷ xs) h = drop-drop m n k xs (omega (arith, h))

module _ (name : List ℕ) (plain : All Plain name) (i : ℕ) (inside : i < lfn_count name) where
  abbrev here : List ℕ
  here = take 13 (drop (i * 13) name)

  here-Plain : All Plain here
  here-Plain = All-take Plain 13 (drop (i * 13) name) (All-drop Plain (i * 13) name plain)

  length-here : length here ≡ min 13 (length name - i * 13)
  length-here = length-take 13 (drop (i * 13) name) ∙ ap (min 13) (length-drop (i * 13) name)

  full-part : length here ≡ 13 → name_part i name ≡ here
  unfolding name_part
  full-part h =
      let not_last : ((i + 1 == lfn_count name) && ltb (length here) 13) ≡ false =
        ground (arith, h) in
      let none_left : 13 - length here ≡ 0 = omega (arith, h) in
      rw (name_part, not_last, none_left) (append-nil here)

  last-part :
      length here < 13 → name_part i name ≡ here ++ (0 ∷ replicate (12 - length here) 0xffff)
  unfolding name_part
  last-part h =
      let last : ((i + 1 == lfn_count name) && ltb (length here) 13) ≡ true =
        ground (arith, h, length-here, inside) in
      rw (name_part, last) refl

  name_part-Whole : Whole (name_part i name)
  name_part-Whole = elim (Bool-cases (ltb (length here) 13)) [
    | inr full ↦
        let size : length here ≡ 13 = ground (arith, full, length-here) in
        subst Whole (sym (full-part size)) (size, Plain-Small here here-Plain)
    | inl short ↦
        let size : length here < 13 = ground (arith, short) in
        subst Whole (sym (last-part size)) (
          length-append here (0 ∷ replicate (12 - length here) 0xffff)
              ∙ ap (λ n. length here + suc n) (length-replicate (12 - length here) 0xffff)
              ∙ omega (arith, size),
          All-append Small here (0 ∷ replicate (12 - length here) 0xffff)
              (Plain-Small here here-Plain)
              (omega arith, All-replicate Small (12 - length here) 0xffff (omega arith)),
        )
  ]

  -- A part on top of parts that spell the rest of the name.
  assemble_lfn-insert_part :
      (parts : List (List ℕ))
      → assemble_lfn parts ≡ drop (i * 13 + 13) name
      → assemble_lfn (insert_part (name_part i name) parts) ≡ drop (i * 13) name
  unfolding assemble_lfn
  assemble_lfn-insert_part parts rest = elim (Bool-cases (ltb (length here) 13)) [
    | inr full ↦
        let size : length here ≡ 13 = ground (arith, full, length-here) in
        rw (full-part size, part_chars-full here here-Plain)
          (ap (λ l. here ++ l) (rest ∙ drop-drop (i * 13) 13 (i * 13 + 13) name refl)
            ∙ take-append-drop 13 (drop (i * 13) name))
    | inl short ↦
        let size : length here < 13 = ground (arith, short) in
        rw (last-part size, part_chars-ended here (replicate (12 - length here) 0xffff) here-Plain)
          (take_all 13 (drop (i * 13) name)
            (omega (arith, length-here, size, length-drop (i * 13) name)))
  ]

collect-long_entries :
    (checksum : ℕ) (name : List ℕ) (n : ℕ) (parts : List (List ℕ))
    → All Plain name
    → n ≤ lfn_count name
    → assemble_lfn parts ≡ drop (n * 13) name
    → assemble_lfn (collect (long_entries checksum name n) parts) ≡ name
unfolding long_entries
collect-long_entries checksum name zero parts plain le rest = rest
collect-long_entries checksum name (suc i) parts plain le rest =
    let whole = name_part-Whole name plain i (omega arith) in
    collect-long_entries checksum name i _ plain (omega arith) (
      ap (λ p. assemble_lfn (insert_part p parts))
        (lfn_part-lfn_entry_bytes (i + 1) checksum (name_part i name) (i + 1 == lfn_count name)
          whole.0 whole.1)
      ∙ assemble_lfn-insert_part name plain i (omega arith) parts
          (rest ∙ ap (λ n. drop n name) (omega arith)))

-- A long name reads back: the entries of an ASCII name without NUL characters, in the order in
-- which `write_dir_entries` puts them on the disk, each put before the parts read so far as
-- `read_dir` does, and assembled, are the name itself.
pub assemble_lfn_lem :
    (name : List ℕ) (checksum : ℕ)
    → All Plain name
    → assemble_lfn (collect (long_entries checksum name (lfn_count name)) []) ≡ name
unfolding assemble_lfn
assemble_lfn_lem name checksum plain =
    collect-long_entries checksum name (lfn_count name) [] plain (omega arith)
      (nothing_left (lfn_count name * 13) name (omega arith))
  where
    nothing_left : (n : ℕ) (xs : List ℕ) → length xs ≤ n → assemble_lfn [] ≡ drop n xs
    nothing_left zero [] h = refl
    nothing_left zero (x ∷ xs) h = absurd (omega arith)
    nothing_left (suc n) [] h = refl
    nothing_left (suc n) (x ∷ xs) h = nothing_left n xs (omega arith)
