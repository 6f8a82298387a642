-- ===== src/Fat/LongEntries.antt =====
-- src/fat.rs: the entries of a long name, each with 13 characters at their places among its 32 bytes.
use macha_os.Prelude.{
  ℕ, zero, suc, ◌+◌, ◌*◌, ◌^◌, ◌<◌, ◌≤◌, ◌≡◌, refl, sym, ap, subst, ◌∙◌, Bool, List, [], ◌∷◌, ◌++◌,
  arith, length, take, drop, length-take, length-drop, take-append-drop, if◌then◌else◌, All,
}
use Prim.Native.Nat.{bit_or}
use mathlib.Core.List.{append-nil}
use macha_os.Fat.Names.{low_byte, high_byte, u16_bytes, lfn_entry_bytes, read_u16s, lfn_part}

drop_past : (xs ys : List ℕ) (k : ℕ) → drop (length xs + k) (xs ++ ys) ≡ drop k ys
drop_past [] ys k = let e : 0 + k ≡ k = omega arith in rw e refl
drop_past (x ∷ xs) ys k =
    let e : suc (length xs) + k ≡ suc (length xs + k) = omega arith in rw e (drop_past xs ys k)

abbrev pub Small : ℕ → Type 0
Small c = c < 2 ^ 16

read_u16s-u16_bytes :
    (cs rest : List ℕ) → All Small cs → read_u16s (length cs) (u16_bytes cs ++ rest) ≡ cs
read_u16s-u16_bytes [] rest h = refl
read_u16s-u16_bytes (c ∷ cs) rest h =
    let both : low_byte c + 256 * high_byte c ≡ c = omega (arith, h.0) in
    rw (both, read_u16s-u16_bytes cs rest h.1) refl

length-u16_bytes : (cs : List ℕ) → length (u16_bytes cs) ≡ 2 * length cs
length-u16_bytes [] = refl
length-u16_bytes (c ∷ cs) = omega (arith, length-u16_bytes cs)

pub All-take : (P : ℕ → Type 0) (n : ℕ) (cs : List ℕ) → All P cs → All P (take n cs)
All-take P zero cs h = tt
All-take P (suc n) [] h = tt
All-take P (suc n) (c ∷ cs) h = (h.0, All-take P n cs h.1)

pub All-drop : (P : ℕ → Type 0) (n : ℕ) (cs : List ℕ) → All P cs → All P (drop n cs)
All-drop P zero cs h = h
All-drop P (suc n) [] h = tt
All-drop P (suc n) (c ∷ cs) h = All-drop P n cs h.1

-- A field of `n` characters behind `before` bytes.
field :
    (n : ℕ) (cs : List ℕ) (rest : List ℕ)
    → length cs ≡ n
    → All Small cs
    → read_u16s n (u16_bytes cs ++ rest) ≡ cs
field n cs rest len small =
    subst (λ m. read_u16s m (u16_bytes cs ++ rest) ≡ cs) len (read_u16s-u16_bytes cs rest small)

pub take_all : (n : ℕ) (cs : List ℕ) → length cs ≤ n → take n cs ≡ cs
take_all zero [] h = refl
take_all zero (c ∷ cs) h = absurd (omega arith)
take_all (suc n) [] h = refl
take_all (suc n) (c ∷ cs) h = ap (λ l. c ∷ l) (take_all n cs (omega arith))

drop-drop : (m n : ℕ) (cs : List ℕ) → drop m (drop n cs) ≡ drop (n + m) cs
drop-drop m zero cs = let e : 0 + m ≡ m = omega arith in rw e refl
drop-drop zero (suc n) [] = let e : suc n + 0 ≡ suc n = omega arith in rw e refl
drop-drop (suc m) (suc n) [] = let e : suc n + suc m ≡ suc (n + suc m) = omega arith in rw e refl
drop-drop m (suc n) (c ∷ cs) =
    let e : suc n + m ≡ suc (n + m) = omega arith in rw e (drop-drop m n cs)

three_fields :
    (part : List ℕ)
    → length part ≡ 13
    → take 5 part ++ (take 6 (drop 5 part) ++ take 2 (drop 11 part)) ≡ part
three_fields part len =
    ap (λ l. take 5 part ++ (take 6 (drop 5 part) ++ l))
      (take_all 2 (drop 11 part) (omega (arith, length-drop 11 part, len))
        ∙ sym (drop-drop 6 5 part))
    ∙ ap (λ l. take 5 part ++ l) (take-append-drop 6 (drop 5 part))
    ∙ take-append-drop 5 part

module _ (part : List ℕ) (len : length part ≡ 13) (small : All Small part) (head checksum : ℕ) where
  first : List ℕ
  first = u16_bytes (take 5 part)

  second : List ℕ
  second = u16_bytes (take 6 (drop 5 part))

  third : List ℕ
  third = u16_bytes (take 2 (drop 11 part))

  tail : List ℕ
  tail = 0x0f ∷ 0 ∷ checksum ∷ (second ++ (0 ∷ 0 ∷ third))

  length-first : length first ≡ 10
  unfolding first
  length-first = omega (arith, length-u16_bytes (take 5 part), length-take 5 part, len)

  length-second : length second ≡ 12
  unfolding second
  length-second = omega (
    arith,
    length-u16_bytes (take 6 (drop 5 part)),
    length-take 6 (drop 5 part),
    length-drop 5 part,
    len,
  )

  field_one : read_u16s 5 (first ++ tail) ≡ take 5 part
  unfolding first
  field_one =
      field 5 (take 5 part) tail (omega (arith, length-take 5 part, len))
        (All-take Small 5 part small)

  field_two : read_u16s 6 (drop 13 (first ++ tail)) ≡ take 6 (drop 5 part)
  unfolding tail second
  field_two =
      ap (read_u16s 6)
        (ap (λ n. drop (n + 3) (first ++ tail)) (sym length-first) ∙ drop_past first tail 3)
      ∙ field 6 (take 6 (drop 5 part)) (0 ∷ 0 ∷ third)
          (omega (arith, length-take 6 (drop 5 part), length-drop 5 part, len))
          (All-take Small 6 (drop 5 part) (All-drop Small 5 part small))

  field_three : read_u16s 2 (drop 27 (first ++ tail)) ≡ take 2 (drop 11 part)
  unfolding tail third
  field_three =
      ap (read_u16s 2) (
        ap (λ n. drop (n + 17) (first ++ tail)) (sym length-first)
        ∙ drop_past first tail 17
        ∙ ap (λ n. drop (n + 2) (second ++ (0 ∷ 0 ∷ third))) (sym length-second)
        ∙ drop_past second (0 ∷ 0 ∷ third) 2
        ∙ sym (append-nil third))
      ∙ field 2 (take 2 (drop 11 part)) []
          (omega (arith, length-take 2 (drop 11 part), length-drop 11 part, len))
          (All-take Small 2 (drop 11 part) (All-drop Small 11 part small))

  fields_of_entry : lfn_part (head ∷ (first ++ tail)) ≡ part
  unfolding lfn_part
  fields_of_entry = rw (field_one, field_two, field_three) (three_fields part len)

-- An entry of a long name gives back the 13 characters that it was made of, each below 2 ^ 16.
pub lfn_part-lfn_entry_bytes :
    (seq checksum : ℕ) (part : List ℕ) (is_last : Bool)
    → length part ≡ 13
    → All Small part
    → lfn_part (lfn_entry_bytes seq part is_last checksum) ≡ part
unfolding lfn_entry_bytes first second third tail
lfn_part-lfn_entry_bytes seq checksum part is_last len small =
    fields_of_entry part len small (if is_last then bit_or seq 0x40 else seq) checksum
