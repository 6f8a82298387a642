-- ===== src/Elf/Bounds.antt =====
-- src/elf.rs: what the parser guarantees of the segments that it returns.
use macha_os.Prelude.{
  reject_if_lem, ok_or_lem, ◌==◌, arith, subst, ◌≡◌, All-append, All, OnOk->>=, OnOk-if, ℕ, ◌+◌,
  ◌<◌, ◌≤◌, List, length, OnOk, zero, ◌*◌, none, [], ◌∷◌,
}
use macha_os.Elf.{
  not, ok, false, some, suc, ltb, checked_add, Segment, Program, Header, skip, load, interpreter,
  Found, interp_header, load_segment, load_header, parse_header, add_header, parse_headers,
  is_empty, parse, program_header_size, pt_interp, pt_load,
}

-- The bytes of the segment lie in the file, and it has room for them.
pub record InFile (size : ℕ) (s : Segment) : Type 0 where
  pub inside : s.file_offset + s.filesz ≤ size
  pub room : s.filesz ≤ s.memsz
  pub some_memory : 0 < s.memsz

abbrev Sound : ℕ → Header → Type 0
Sound size (load s) = InFile size s
Sound size skip = Unit {0}
Sound size (interpreter path) = Unit {0}

checked_add_lem : (a b c : ℕ) → checked_add a b ≡ some c → c ≡ a + b
checked_add_lem a b c h = ground arith

zero_or_pos : (n : ℕ) → (n == 0) ≡ false → 0 < n
zero_or_pos n h = ground arith

not_above : (a b : ℕ) → ltb a b ≡ false → b ≤ a
not_above a b h = ground arith

load_segment-Sound :
    (size flags offset vaddr filesz memsz : ℕ)
    → OnOk (Sound size) (load_segment size flags offset vaddr filesz memsz)
unfolding load_segment
load_segment-Sound size flags offset vaddr filesz memsz =
    OnOk-if (Sound size) (memsz == 0) _ _ (λ e. tt)
      (λ some_memory. OnOk->>= (Sound size) _ _ (λ file_end e.
        OnOk->>= (Sound size) _ _ (λ u inside. OnOk->>= (Sound size) _ _ (λ u' room. record {
          inside =
              subst (λ n. n ≤ size) (checked_add_lem offset filesz file_end (ok_or_lem _ _ _ e))
                (not_above size file_end (reject_if_lem _ _ _ inside));
          room = not_above memsz filesz (reject_if_lem _ _ _ room);
          some_memory = zero_or_pos memsz some_memory;
        }))))

interp_header-Sound :
    (size : ℕ) (file : List ℕ) (off : ℕ) → OnOk (Sound size) (interp_header file off)
interp_header-Sound size file off = OnOk->>= (Sound size) _ _ (λ a ea.
    OnOk->>= (Sound size) _ _ (λ b eb.
      OnOk->>= (Sound size) _ _
        (λ c ec. OnOk->>= (Sound size) _ _ (λ d ed. OnOk->>= (Sound size) _ _ (λ u eu. tt)))))

load_header-Sound : (file : List ℕ) (off : ℕ) → OnOk (Sound (length file)) (load_header file off)
load_header-Sound file off = OnOk->>= (Sound (length file)) _ _ (λ flags ea.
    OnOk->>= (Sound (length file)) _ _ (λ offset eb. OnOk->>= (Sound (length file)) _ _ (λ vaddr ec.
      OnOk->>= (Sound (length file)) _ _ (λ filesz ed.
        OnOk->>= (Sound (length file)) _ _
          (λ memsz ee. load_segment-Sound (length file) flags offset vaddr filesz memsz)))))

parse_header-Sound : (file : List ℕ) (off : ℕ) → OnOk (Sound (length file)) (parse_header file off)
parse_header-Sound file off = OnOk->>= (Sound (length file)) _ _ (λ p_type e.
    OnOk-if (Sound (length file)) (p_type == pt_interp) _ _
      (λ h. interp_header-Sound (length file) file off)
      (λ h.
        OnOk-if (Sound (length file)) (not (p_type == pt_load)) _ _ (λ k. tt)
          (λ k. load_header-Sound file off)))

abbrev AllIn : ℕ → Found → Type 0
AllIn size found = All (InFile size) found.0

add_header-AllIn :
    (size : ℕ) (h : Header) (found : Found)
    → Sound size h
    → AllIn size found
    → AllIn size (add_header h found)
add_header-AllIn size skip (segments, interp) s a = a
add_header-AllIn size (load g) (segments, interp) s a =
    All-append (InFile size) segments (g ∷ []) a (s, tt)
add_header-AllIn size (interpreter path) (segments, interp) s a = a

parse_headers-AllIn :
    (left : ℕ) (file : List ℕ) (off : ℕ) (found : Found)
    → AllIn (length file) found
    → OnOk (AllIn (length file)) (parse_headers left file off found)
unfolding parse_headers
parse_headers-AllIn zero file off found a = a
parse_headers-AllIn (suc left) file off found a = OnOk->>= (AllIn (length file)) _ _ (λ h e.
    parse_headers-AllIn left file (off + program_header_size) (add_header h found) (
      add_header-AllIn (length file) h found
        (subst (OnOk (Sound (length file))) e (parse_header-Sound file off)) a))

table_in :
    (size phoff phnum phentsize table_end : ℕ)
    → not (phentsize == program_header_size) ≡ false
    → checked_add phoff (phnum * phentsize) ≡ some table_end
    → ltb size table_end ≡ false
    → phoff + phnum * program_header_size ≤ size
table_in size phoff phnum phentsize table_end w c l =
    subst (λ n. phoff + phnum * n ≤ size) (same w)
      (subst (λ n. n ≤ size) (checked_add_lem phoff (phnum * phentsize) table_end c)
        (not_above size table_end l))
  where
    same : not (phentsize == program_header_size) ≡ false → phentsize ≡ program_header_size
    same w = ground arith

-- What a parsed program promises about the file.
pub record IsLoadable (file : List ℕ) (p : Program) : Type 0 where
  pub all_inside : All (InFile (length file)) p.segments
  pub some_segment : is_empty p.segments ≡ false
  pub table_inside : p.phoff + p.phnum * program_header_size ≤ length file

-- What `parse` returns is loadable: there is a segment, and of every segment the bytes are in the
-- file and no more than it takes in memory; the table of program headers is in the file.
pub parse-IsLoadable : (file : List ℕ) (p : Program) → parse file ≡ ok p → IsLoadable file p
parse-IsLoadable file p e = subst (OnOk (IsLoadable file)) e (
    OnOk->>= (IsLoadable file) _ _ (λ u1 e1. OnOk->>= (IsLoadable file) _ _ (λ u2 e2.
      OnOk->>= (IsLoadable file) _ _ (λ u3 e3. OnOk->>= (IsLoadable file) _ _ (λ u4 e4.
        OnOk->>= (IsLoadable file) _ _ (λ e_type e5. OnOk->>= (IsLoadable file) _ _ (λ u6 e6.
          OnOk->>= (IsLoadable file) _ _ (λ machine e7. OnOk->>= (IsLoadable file) _ _ (λ u8 e8.
            OnOk->>= (IsLoadable file) _ _ (λ entry e9. OnOk->>= (IsLoadable file) _ _ (λ phoff e10.
              OnOk->>= (IsLoadable file) _ _ (λ phentsize e11.
                OnOk->>= (IsLoadable file) _ _ (λ phnum e12.
                  OnOk->>= (IsLoadable file) _ _ (λ u13 e13.
                    OnOk->>= (IsLoadable file) _ _ (λ table_end e14.
                      OnOk->>= (IsLoadable file) _ _ (λ u15 e15.
                        OnOk->>= (IsLoadable file) _ _ (λ found e16.
                          OnOk->>= (IsLoadable file) _ _ (λ u17 e17. record {
                            all_inside =
                                subst (OnOk (AllIn (length file))) e16
                                  (parse_headers-AllIn phnum file phoff ([], none) tt);
                            some_segment = reject_if_lem _ _ _ e17;
                            table_inside =
                                table_in (length file) phoff phnum phentsize table_end
                                  (reject_if_lem _ _ _ e13) (ok_or_lem _ _ _ e14)
                                  (reject_if_lem _ _ _ e15);
                          }))))))))))))))))))
