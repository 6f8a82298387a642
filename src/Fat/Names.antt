-- ===== src/Fat/Names.antt =====
-- src/fat.rs: the names of directory entries. A name is the list of its character codes, and is
-- taken to be ASCII, so that its bytes are its characters.
use macha_os.Prelude.{
  ℕ, zero, suc, ◌+◌, ◌-◌, ◌*◌, ◌/◌, ◌%◌, Bool, true, false, ◌&&◌, ◌||◌, Option, none, some, List,
  [], ◌∷◌, ◌++◌, length, take, drop, replicate, ltb, leb, ◌==◌, if◌then◌else◌, Result, reject_if,
}
use Prim.Native.Nat.{bit_or}
use macha_os.Fat.{Fault, FatError, error, max_name}

abbrev pub is_digit : ℕ → Bool
is_digit b = leb 48 b && leb b 57

abbrev pub is_upper : ℕ → Bool
is_upper b = leb 65 b && leb b 90

abbrev pub is_lower : ℕ → Bool
is_lower b = leb 97 b && leb b 122

abbrev pub to_ascii_uppercase : ℕ → ℕ
to_ascii_uppercase b = if is_lower b then b - 32 else b

abbrev pub one_of : ℕ → List ℕ → Bool
one_of b [] = false
one_of b (c ∷ cs) = (b == c) || one_of b cs

-- `$ % ' - _ @ ~ backquote ! ( ) { } ^ # &`
abbrev pub sfn_signs : List ℕ
sfn_signs = 36 ∷ 37 ∷ 39 ∷ 45 ∷ 95 ∷ 64 ∷ 126 ∷ 96 ∷ 33 ∷ 40 ∷ 41 ∷ 123 ∷ 125 ∷ 94 ∷ 35 ∷ 38 ∷ []

unfoldable pub is_sfn_char : ℕ → Bool
is_sfn_char b = (is_digit b || (is_upper b || is_lower b)) || one_of b sfn_signs

abbrev pub is_control : ℕ → Bool
is_control c = ltb c 32 || (c == 127)

abbrev pub any_bad : List ℕ → Bool
any_bad [] = false
any_bad (c ∷ cs) = (is_control c || (c == 47)) || any_bad cs

abbrev pub starts_with_dot : List ℕ → Bool
starts_with_dot [] = false
starts_with_dot (c ∷ cs) = c == 46

unfoldable pub validate_name : List ℕ → Result Fault (Unit {0})
validate_name name =
    reject_if
      ((length name == 0) || (ltb max_name (length name) || (starts_with_dot name || any_bad name)))
      (error FatError.invalid_name)

-- `rfind('.')`
abbrev pub rfind_dot : List ℕ → Option ℕ
rfind_dot [] = none
rfind_dot (c ∷ cs) = later (rfind_dot cs)
  where
    later : Option ℕ → Option ℕ
    later (some i) = some (suc i)
    later none = if c == 46 then some 0 else none

-- The first `room` characters that a short name can hold, in upper case, padded with spaces.
abbrev pub sfn_part : ℕ → List ℕ → List ℕ
sfn_part zero bs = []
sfn_part (suc room) [] = 32 ∷ sfn_part room []
sfn_part (suc room) (b ∷ bs) =
    if is_sfn_char b then to_ascii_uppercase b ∷ sfn_part room bs else sfn_part (suc room) bs

unfoldable pub make_sfn : List ℕ → List ℕ
make_sfn name = elim (rfind_dot name) [
  | none ↦ sfn_part 8 name ++ sfn_part 3 []
  | some dot ↦ sfn_part 8 (take dot name) ++ sfn_part 3 (drop (dot + 1) name)
]

abbrev pub checksum_step : ℕ → ℕ → ℕ
checksum_step sum b = (sum % 2 * 128 + sum / 2 + b) % 256

unfoldable pub checksum_from : ℕ → List ℕ → ℕ
checksum_from sum [] = sum
checksum_from sum (b ∷ bs) = checksum_from (checksum_step sum b) bs

abbrev pub sfn_checksum : List ℕ → ℕ
sfn_checksum sfn = checksum_from 0 sfn

abbrev pub low_byte : ℕ → ℕ
low_byte c = c % 256

abbrev pub high_byte : ℕ → ℕ
high_byte c = c / 256 % 256

abbrev pub u16_bytes : List ℕ → List ℕ
u16_bytes [] = []
u16_bytes (c ∷ cs) = low_byte c ∷ high_byte c ∷ u16_bytes cs

-- The 32 bytes of a long-name entry with a part of 13 characters, laid out in their order.
unfoldable pub lfn_entry_bytes : ℕ → List ℕ → Bool → ℕ → List ℕ
lfn_entry_bytes seq part is_last checksum =
    (if is_last then bit_or seq 0x40 else seq)
    ∷ (u16_bytes (take 5 part)
        ++ (0x0f
            ∷ 0
            ∷ checksum
            ∷ (u16_bytes (take 6 (drop 5 part)) ++ (0 ∷ 0 ∷ u16_bytes (take 2 (drop 11 part))))))

-- `u16::from_le_bytes` of `n` pairs.
abbrev pub read_u16s : ℕ → List ℕ → List ℕ
read_u16s zero bs = []
read_u16s (suc n) [] = []
read_u16s (suc n) (low ∷ []) = []
read_u16s (suc n) (low ∷ high ∷ bs) = (low + 256 * high) ∷ read_u16s n bs

-- The 13 characters that `read_dir` reads off an entry.
unfoldable pub lfn_part : List ℕ → List ℕ
lfn_part entry =
    read_u16s 5 (drop 1 entry) ++ (read_u16s 6 (drop 14 entry) ++ read_u16s 2 (drop 28 entry))

-- The characters of one part up to its end, and whether the end was met.
abbrev pub part_chars : List ℕ → List ℕ × Bool
part_chars [] = ([], false)
part_chars (c ∷ cs) =
    let (rest, end) = part_chars cs in
    if (c == 0) || (c == 0xffff) then ([], true) else ((if ltb c 0x80 then c else 63) ∷ rest, end)

unfoldable pub assemble_lfn : List (List ℕ) → List ℕ
assemble_lfn [] = []
assemble_lfn (part ∷ parts) =
    let (chars, end) = part_chars part in
    let rest = assemble_lfn parts in if end then chars else chars ++ rest

-- `iter().position(|&b| b == b' ').unwrap_or(len)`, as the part before it.
abbrev pub before_space : List ℕ → List ℕ
before_space [] = []
before_space (b ∷ bs) = if b == 32 then [] else b ∷ before_space bs

abbrev pub dotted : List ℕ → List ℕ
dotted [] = []
dotted (b ∷ bs) = 46 ∷ b ∷ bs

unfoldable pub sfn_name : List ℕ → List ℕ
sfn_name sfn = before_space (take 8 sfn) ++ dotted (before_space (drop 8 sfn))

-- `eq_ignore_ascii_case`
unfoldable pub name_matches : List ℕ → List ℕ → Bool
name_matches [] [] = true
name_matches [] (d ∷ ds) = false
name_matches (c ∷ cs) [] = false
name_matches (c ∷ cs) (d ∷ ds) =
    (to_ascii_uppercase c == to_ascii_uppercase d) && name_matches cs ds

-- `lfn_chars.len().div_ceil(13)`
abbrev pub lfn_count : List ℕ → ℕ
lfn_count name = (length name + 12) / 13

-- The 13 characters of part `i`, with the terminator in the last part if that is not full.
unfoldable pub name_part : ℕ → List ℕ → List ℕ
name_part i name =
    let part = take 13 (drop (i * 13) name) in
    let fill = replicate (13 - length part) 0xffff in
    if (i + 1 == lfn_count name) && ltb (length part) 13
    then part ++ (0 ∷ replicate (12 - length part) 0xffff)
    else part ++ fill

-- `for i in (0..lfn_count).rev()`, with the first `n` parts to go: the entries in their order on the disk.
unfoldable pub long_entries : ℕ → List ℕ → ℕ → List (List ℕ)
unfolding name_part
long_entries checksum name zero = []
long_entries checksum name (suc i) =
    lfn_entry_bytes (i + 1) (name_part i name) (i + 1 == lfn_count name) checksum
    ∷ long_entries checksum name i

-- `lfn_parts.insert(0, part)`
abbrev pub insert_part : List ℕ → List (List ℕ) → List (List ℕ)
insert_part part parts = part ∷ parts

-- `==` on strings.
unfoldable pub same_bytes : List ℕ → List ℕ → Bool
same_bytes [] [] = true
same_bytes [] (d ∷ ds) = false
same_bytes (c ∷ cs) [] = false
same_bytes (c ∷ cs) (d ∷ ds) = (c == d) && same_bytes cs ds
