-- ===== src/Loader/Tests.antt =====
-- src/elf.rs, src/process.rs: a program of one segment with two bytes, and its checks.
use macha_os.Prelude.{ℕ, ◌≡◌, refl, true, false, none, List, [], ◌∷◌, arith, All, ok, ◌>>=◌}
use macha_os.Elf.{Program, read_uint, load_segment, parse_headers, parse}
use macha_os.Elf.Bounds.{IsLoadable, parse-IsLoadable, InFile}
use macha_os.Loader.{check_program, validate_segment, validate_segments, apply_pie_bias}
use macha_os.Loader.Placement.{Placed, check_program-Placed}

abbrev two_bytes : List ℕ
two_bytes =
    127 ∷ 69 ∷ 76 ∷ 70 ∷ 2 ∷ 1 ∷ 1 ∷ 0 ∷ 0 ∷ 0 ∷ 0 ∷ 0 ∷ 0 ∷ 0 ∷ 0 ∷ 0 ∷ 2 ∷ 0 ∷ 62 ∷ 0 ∷ 1 ∷ 0 ∷ 0
    ∷ 0 ∷ 0 ∷ 0 ∷ 0 ∷ 3 ∷ 0 ∷ 0 ∷ 0 ∷ 0 ∷ 64 ∷ 0 ∷ 0 ∷ 0 ∷ 0 ∷ 0 ∷ 0 ∷ 0 ∷ 0 ∷ 0 ∷ 0 ∷ 0 ∷ 0 ∷ 0 ∷ 0
    ∷ 0 ∷ 0 ∷ 0 ∷ 0 ∷ 0 ∷ 64 ∷ 0 ∷ 56 ∷ 0 ∷ 1 ∷ 0 ∷ 0 ∷ 0 ∷ 0 ∷ 0 ∷ 0 ∷ 0 ∷ 1 ∷ 0 ∷ 0 ∷ 0 ∷ 5 ∷ 0
    ∷ 0 ∷ 0 ∷ 120 ∷ 0 ∷ 0 ∷ 0 ∷ 0 ∷ 0 ∷ 0 ∷ 0 ∷ 0 ∷ 0 ∷ 0 ∷ 3 ∷ 0 ∷ 0 ∷ 0 ∷ 0 ∷ 0 ∷ 0 ∷ 0 ∷ 3 ∷ 0
    ∷ 0 ∷ 0 ∷ 0 ∷ 2 ∷ 0 ∷ 0 ∷ 0 ∷ 0 ∷ 0 ∷ 0 ∷ 0 ∷ 16 ∷ 0 ∷ 0 ∷ 0 ∷ 0 ∷ 0 ∷ 0 ∷ 0 ∷ 0 ∷ 16 ∷ 0 ∷ 0
    ∷ 0 ∷ 0 ∷ 0 ∷ 0 ∷ 144 ∷ 195 ∷ []

abbrev program : Program
program = record {
  entry = 0x3000000;
  segments =
      record {
        vaddr = 0x3000000;
        file_offset = 120;
        filesz = 2;
        memsz = 16;
        writable = false;
        executable = true;
      }
      ∷ [];
  is_pie = false;
  phoff = 64;
  phentsize = 56;
  phnum = 1;
  interp = none;
}

parses : parse two_bytes ≡ ok program
unfolding read_uint load_segment parse_headers ◌>>=◌
parses = refl

parse-IsLoadable_example : IsLoadable two_bytes program
parse-IsLoadable_example = parse-IsLoadable two_bytes program parses

accepted : check_program (0x4000000, 0x6800000) two_bytes ≡ ok program
unfolding check_program validate_segments validate_segment apply_pie_bias read_uint load_segment
    parse_headers ◌>>=◌
accepted = refl

check_program-Placed_example :
    All (InFile 122) program.segments × All (Placed (0x4000000, 0x6800000)) program.segments
check_program-Placed_example =
    check_program-Placed (0x4000000, 0x6800000) two_bytes program (omega arith) accepted
