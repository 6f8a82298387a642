-- ===== src/Fat/Entries.antt =====
-- src/fat.rs: the slots of a directory, as bytes and as entries, and the entries that a name needs.
-- A place in a directory is the cluster and the byte offset in it.
use macha_os.Prelude.{
  ℕ, zero, suc, ◌+◌, ◌-◌, ◌*◌, ◌/◌, ◌%◌, ◌^◌, min, Bool, true, false, ◌&&◌, ◌||◌, not, Option, none,
  some, List, [], ◌∷◌, ◌++◌, length, get_or, set, take, drop, ◌==◌, if◌then◌else◌, from_le_bytes,
  to_le_bytes,
}
use Prim.Native.Nat.{bit_and}
use macha_os.Fat.Names.{
  sfn_name, lfn_part, assemble_lfn, make_sfn, sfn_checksum, long_entries, insert_part, lfn_count,
}

pub record DirEntry : Type 0 where
  pub name : List ℕ
  pub is_dir : Bool
  pub size : ℕ
  pub first_cluster : ℕ
  pub location : ℕ × ℕ

abbrev pub byte_at : List ℕ → ℕ → ℕ
byte_at sector i = get_or sector i 0

-- `u16::from_le_bytes` and `u32::from_le_bytes` at an offset.
abbrev pub u16_at : List ℕ → ℕ → ℕ
u16_at sector i = from_le_bytes (take 2 (drop i sector))

abbrev pub u32_at : List ℕ → ℕ → ℕ
u32_at sector i = from_le_bytes (take 4 (drop i sector))

-- What one slot of 32 bytes holds.
pub data Slot : Type 0 where
  end deleted : Slot
  long : List ℕ → Slot
  short : ℕ → ℕ → ℕ → List ℕ → Slot

unfoldable pub read_slot : List ℕ → ℕ → Slot
read_slot sector offset =
    if byte_at sector offset == 0
    then end
    else if byte_at sector offset == 0xe5
    then deleted
    else if byte_at sector (offset + 0x0b) == 0x0f
    then long (lfn_part (drop offset sector))
    else short (byte_at sector (offset + 0x0b))
        (u16_at sector (offset + 0x14) * 2 ^ 16 + u16_at sector (offset + 0x1a))
        (u32_at sector (offset + 0x1c)) (take 11 (drop offset sector))

-- The parts of a long name that were met, and the entries.
pub record Scan : Type 0 where
  pub parts : List (List ℕ)
  pub out : List DirEntry

abbrev pub is_listed : List ℕ → Bool
is_listed [] = false
is_listed (c ∷ []) = not (c == 46)
is_listed (c ∷ d ∷ []) = not ((c == 46) && (d == 46))
is_listed (c ∷ d ∷ e ∷ cs) = true

abbrev pub entry_name : List (List ℕ) → List ℕ → List ℕ
entry_name [] sfn = sfn_name sfn
entry_name (p ∷ ps) sfn = assemble_lfn (p ∷ ps)

abbrev pub add_entry : DirEntry → Scan → Scan
add_entry e st = record { parts = []; out = if is_listed e.name then st.out ++ e ∷ [] else st.out }

-- `while offset < 512`, with `left` slots to go; whether the end mark was met.
unfoldable pub scan_slots : ℕ → List ℕ → ℕ → ℕ × ℕ → Scan → Bool × Scan
scan_slots zero sector offset at st = (false, st)
scan_slots (suc left) sector offset at st = elim (read_slot sector offset) [
  | end ↦ (true, st)
  | deleted ↦ scan_slots left sector (offset + 32) at (record st { parts = [] })
  | long part ↦
      scan_slots left sector (offset + 32) at (record st { parts = insert_part part st.parts })
  | short attr first size sfn ↦ scan_slots left sector (offset + 32) at (
      add_entry
        (record {
          name = entry_name st.parts sfn;
          is_dir = not (bit_and attr 0x10 == 0);
          size = size;
          first_cluster = first;
          location = (at.0, at.1 * 512 + offset);
        })
        st)
]

-- `iter().find(..)`
unfoldable pub find_entry : (DirEntry → Bool) → List DirEntry → Option DirEntry
find_entry test [] = none
find_entry test (e ∷ es) = if test e then some e else find_entry test es

-- The run of free slots that ends at `offset`, in one sector.
unfoldable pub find_run : ℕ → List ℕ → ℕ → ℕ → ℕ → Option ℕ
find_run zero sector slots offset run = none
find_run (suc left) sector slots offset run =
    let free = (byte_at sector offset == 0) || (byte_at sector offset == 0xe5) in
    let longer = if free then run + 1 else 0 in
    let rest = find_run left sector slots (offset + 32) longer in
    if longer == slots then some (offset + 32 - slots * 32) else rest

-- The entries of a long name immediately before slot `n` are marked as deleted.
unfoldable pub erase_long : ℕ → List ℕ → List ℕ
erase_long zero sector = sector
erase_long (suc n) sector = elim (byte_at sector (n * 32 + 0x0b) == 0x0f) [
  | true ↦ erase_long n (set sector (n * 32) 0xe5)
  | false ↦ sector
]

pub record DateTime : Type 0 where
  pub year : ℕ
  pub month : ℕ
  pub day : ℕ
  pub hour : ℕ
  pub minute : ℕ
  pub second : ℕ

-- The words for the date and the time; each field is cut to its bits.
unfoldable pub fat_datetime : DateTime → ℕ × ℕ
fat_datetime dt = (
  min (dt.year % 2 ^ 16 - 1980) 127 * 2 ^ 9 + dt.month % 2 ^ 4 * 2 ^ 5 + dt.day % 2 ^ 5,
  dt.hour % 2 ^ 5 * 2 ^ 11 + dt.minute % 2 ^ 6 * 2 ^ 5 + dt.second / 2 % 2 ^ 5,
)

-- The 32 bytes of a short entry, in their order.
unfoldable pub sfn_entry : List ℕ → Bool → DateTime → ℕ → ℕ → List ℕ
sfn_entry sfn is_dir now first_cluster size =
    let date = to_le_bytes 2 (fat_datetime now).0 in
    let time = to_le_bytes 2 (fat_datetime now).1 in
    sfn
    ++ ((if is_dir then 0x10 else 0x20) ∷ 0 ∷ 0 ∷ [])
    ++ time
    ++ date
    ++ date
    ++ to_le_bytes 2 (first_cluster / 2 ^ 16)
    ++ time
    ++ date
    ++ to_le_bytes 2 (first_cluster % 2 ^ 16)
    ++ to_le_bytes 4 size

-- The entries for a name in their order on the disk: the long name from its end, then the short one.
unfoldable pub dir_entries : List ℕ → ℕ → ℕ → Bool → DateTime → List (List ℕ)
unfolding long_entries
dir_entries name first_cluster size is_dir now =
    let sfn = make_sfn name in
    long_entries (sfn_checksum sfn) name (lfn_count name)
    ++ sfn_entry sfn is_dir now first_cluster size ∷ []

-- `sector[at..at + bytes.len()].copy_from_slice(bytes)`
abbrev pub put_bytes : List ℕ → ℕ → List ℕ → List ℕ
put_bytes sector at bytes = take at sector ++ (bytes ++ drop (at + length bytes) sector)

abbrev pub flatten : List (List ℕ) → List ℕ
flatten [] = []
flatten (e ∷ es) = e ++ flatten es
