-- ===== src/Elf.antt =====
-- src/elf.rs: the ELF64 parser. A file is its bytes; an error is the message of the code. The path of
-- the interpreter stays a list of bytes, which the code checks to be UTF-8.
use macha_os.Prelude.{
  ℕ, zero, suc, ◌+◌, ◌*◌, Bool, true, false, ◌&&◌, not, Option, none, some, List, [], ◌∷◌, ◌++◌,
  length, get_or, ltb, leb, ◌==◌, if◌then◌else◌, Result, ok, ◌>>=◌, ◌>>◌, reject_if, ok_or,
  checked_add, get_range, from_le_bytes,
}
use Prim.Native.Nat.{bit_and}
use Prim.Native.String.{String}
pub mod Bounds

abbrev pub elf_header_size : ℕ
elf_header_size = 64

abbrev pub program_header_size : ℕ
program_header_size = 56

abbrev pub et_exec : ℕ
et_exec = 2

abbrev pub et_dyn : ℕ
et_dyn = 3

abbrev pub em_x86_64 : ℕ
em_x86_64 = 0x3e

abbrev pub pt_load : ℕ
pt_load = 1

abbrev pub pt_interp : ℕ
pt_interp = 3

pub record Segment : Type 0 where
  pub vaddr : ℕ
  pub file_offset : ℕ
  pub filesz : ℕ
  pub memsz : ℕ
  pub writable : Bool
  pub executable : Bool

pub record Program : Type 0 where
  pub entry : ℕ
  pub segments : List Segment
  pub is_pie : Bool
  pub phoff : ℕ
  pub phentsize : ℕ
  pub phnum : ℕ
  pub interp : Option (List ℕ)

-- `read_u16`, `read_u32` and `read_u64`, by their width.
unfoldable pub read_uint : ℕ → List ℕ → ℕ → Result String ℕ
read_uint width file off = do
  b ← ok_or (get_range file off (off + width)) "truncated ELF header"
  ok (from_le_bytes b)

-- The checks of UTF-8 with `n` continuation bytes to come, the first of them in `[lo, hi]`.
abbrev lead : ℕ → Bool × ℕ × ℕ × ℕ
lead b =
    if ltb b 0x80
    then (true, 0, 0, 0)
    else if leb 0xc2 b && leb b 0xdf
    then (true, 1, 0x80, 0xbf)
    else if b == 0xe0
    then (true, 2, 0xa0, 0xbf)
    else if b == 0xed
    then (true, 2, 0x80, 0x9f)
    else if leb 0xe1 b && leb b 0xef
    then (true, 2, 0x80, 0xbf)
    else if b == 0xf0
    then (true, 3, 0x90, 0xbf)
    else if leb 0xf1 b && leb b 0xf3
    then (true, 3, 0x80, 0xbf)
    else if b == 0xf4
    then (true, 3, 0x80, 0x8f)
    else (false, 0, 0, 0)

abbrev utf8_from : ℕ → ℕ → ℕ → List ℕ → Bool
utf8_from zero lo hi [] = true
utf8_from (suc n) lo hi [] = false
utf8_from zero lo hi (b ∷ bs) = (lead b).0 && utf8_from (lead b).1 (lead b).2 (lead b).3 bs
utf8_from (suc n) lo hi (b ∷ bs) = leb lo b && (leb b hi && utf8_from n 0x80 0xbf bs)

-- `core::str::from_utf8(bytes).is_ok()`
unfoldable pub is_utf8 : List ℕ → Bool
is_utf8 bytes = utf8_from 0 0 0 bytes

-- `trim_end_matches('\0')`
abbrev pub trim_end_zeros : List ℕ → List ℕ
trim_end_zeros [] = []
trim_end_zeros (b ∷ bs) = keep b (trim_end_zeros bs)
  where
    keep : ℕ → List ℕ → List ℕ
    keep b [] = if b == 0 then [] else b ∷ []
    keep b (c ∷ cs) = b ∷ c ∷ cs

-- What one program header adds.
pub data Header : Type 0 where
  skip : Header
  load : Segment → Header
  interpreter : List ℕ → Header

abbrev pub interp_header : List ℕ → ℕ → Result String Header
interp_header file off = do
  p_offset ← read_uint 8 file (off + 8)
  p_filesz ← read_uint 8 file (off + 32)
  end ← ok_or (checked_add p_offset p_filesz) "interp range overflow"
  bytes ← ok_or (get_range file p_offset end) "interp data outside file"
  reject_if (not (is_utf8 bytes)) "invalid interp string"
  ok (interpreter (trim_end_zeros bytes))

-- The checks of a PT_LOAD header, on the fields that were read and the size of the file.
unfoldable pub load_segment : ℕ → ℕ → ℕ → ℕ → ℕ → ℕ → Result String Header
load_segment size p_flags p_offset p_vaddr p_filesz p_memsz = if p_memsz == 0 then ok skip else do
  file_end ← ok_or (checked_add p_offset p_filesz) "segment file range overflow"
  reject_if (ltb size file_end) "segment data outside file"
  reject_if (ltb p_memsz p_filesz) "segment filesz exceeds memsz"
  ok (
      load (record {
        vaddr = p_vaddr;
        file_offset = p_offset;
        filesz = p_filesz;
        memsz = p_memsz;
        writable = not (bit_and p_flags 2 == 0);
        executable = not (bit_and p_flags 1 == 0);
      }))

abbrev pub load_header : List ℕ → ℕ → Result String Header
load_header file off = do
  p_flags ← read_uint 4 file (off + 4)
  p_offset ← read_uint 8 file (off + 8)
  p_vaddr ← read_uint 8 file (off + 16)
  p_filesz ← read_uint 8 file (off + 32)
  p_memsz ← read_uint 8 file (off + 40)
  load_segment (length file) p_flags p_offset p_vaddr p_filesz p_memsz

-- The body of the loop over the headers.
abbrev pub parse_header : List ℕ → ℕ → Result String Header
parse_header file off = do
  p_type ← read_uint 4 file off
  if p_type == pt_interp
      then interp_header file off
      else if not (p_type == pt_load)
      then ok skip
      else load_header file off

abbrev pub Found : Type 0
Found = List Segment × Option (List ℕ)

abbrev pub add_header : Header → Found → Found
add_header skip found = found
add_header (load s) (segments, interp) = (segments ++ s ∷ [], interp)
add_header (interpreter path) (segments, interp) = (segments, some path)

-- `for i in 0..phnum`, with `left` headers to go, the next of them at `off`.
unfoldable pub parse_headers : ℕ → List ℕ → ℕ → Found → Result String Found
parse_headers zero file off found = ok found
parse_headers (suc left) file off found = do
  h ← parse_header file off
  parse_headers left file (off + program_header_size) (add_header h found)

abbrev pub has_magic : List ℕ → Bool
has_magic file =
    (get_or file 0 0 == 0x7f)
    && ((get_or file 1 0 == 69) && ((get_or file 2 0 == 76) && (get_or file 3 0 == 70)))

abbrev pub is_empty : List Segment → Bool
is_empty [] = true
is_empty (s ∷ ss) = false

abbrev pub parse : List ℕ → Result String Program
parse file = do
  reject_if (ltb (length file) elf_header_size) "truncated ELF header"
  reject_if (not (has_magic file)) "not an ELF file"
  reject_if (not (get_or file 4 0 == 2)) "not a 64-bit ELF"
  reject_if (not (get_or file 5 0 == 1)) "not a little-endian ELF"
  e_type ← read_uint 2 file 16
  reject_if (not (e_type == et_exec) && not (e_type == et_dyn)) "not an executable (ET_EXEC/ET_DYN)"
  machine ← read_uint 2 file 18
  reject_if (not (machine == em_x86_64)) "not an x86_64 ELF"
  entry ← read_uint 8 file 24
  phoff ← read_uint 8 file 32
  phentsize ← read_uint 2 file 54
  phnum ← read_uint 2 file 56
  reject_if (not (phentsize == program_header_size)) "unexpected program header size"
  table_end ← ok_or (checked_add phoff (phnum * phentsize)) "program header table overflow"
  reject_if (ltb (length file) table_end) "program header table outside file"
  found ← parse_headers phnum file phoff ([], none)
  reject_if (is_empty found.0) "no loadable segments"
  ok (record {
    entry = entry;
    segments = found.0;
    is_pie = e_type == et_dyn;
    phoff = phoff;
    phentsize = phentsize;
    phnum = phnum;
    interp = found.1;
  })
