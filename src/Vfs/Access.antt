-- ===== src/Vfs/Access.antt =====
-- src/vfs.rs: `read`, `write` and `seek` on the private copy.
use macha_os.Prelude.{
  ok, ℕ, zero, suc, ◌+◌, ◌-◌, ◌^◌, ◌<◌, ◌≤◌, min, max, ◌≡◌, refl, sym, ap, ◌∙◌, true, false, ◌&&◌,
  some, List, [], ◌∷◌, ◌++◌, arith, length, get_or, take as take_list, drop, replicate,
  length-append, length-replicate, length-take, length-drop, ltb, leb, add64, if◌then◌else◌,
}
use macha_os.Vfs.{FileHandle, start, read, write, seek, extend_to, clamp_negative}
use macha_os.Vfs.Bytes.{
  get_or-append, get_or-replicate_zero, get_or-take, get_or-drop, take-append, drop-append,
}

length-extend_to : (stop : ℕ) (xs : List ℕ) → length (extend_to stop xs) ≡ max (length xs) stop
length-extend_to stop xs = omega (
  arith,
  length-append xs (replicate (stop - length xs) 0),
  length-replicate {A = ℕ} (stop - length xs) 0,
)

get_or-extend_to : (stop : ℕ) (xs : List ℕ) (i : ℕ) → get_or (extend_to stop xs) i 0 ≡ get_or xs i 0
get_or-extend_to stop xs i = ground (
  arith,
  get_or-append xs (replicate (stop - length xs) 0) i,
  get_or-replicate_zero (stop - length xs) (i - length xs),
  past xs i,
)
  where
    past : (l : List ℕ) (k : ℕ) → length l ≤ k → get_or l k 0 ≡ 0
    past [] k h = refl
    past (x ∷ l) zero h = absurd (omega arith)
    past (x ∷ l) (suc k) h = past l k (omega arith)

-- The contents after a write: `c` the cursor.
abbrev spliced : ℕ → List ℕ → List ℕ → List ℕ
spliced c buf xs =
    take_list c (extend_to (c + length buf) xs)
    ++ (buf ++ drop (c + length buf) (extend_to (c + length buf) xs))

length-head : (c : ℕ) (buf xs : List ℕ) → length (take_list c (extend_to (c + length buf) xs)) ≡ c
length-head c buf xs =
    omega
      (arith, length-take c (extend_to (c + length buf) xs), length-extend_to (c + length buf) xs)

length-spliced :
    (c : ℕ) (buf xs : List ℕ) → length (spliced c buf xs) ≡ max (length xs) (c + length buf)
length-spliced c buf xs =
    let r = extend_to (c + length buf) xs in
    omega (
      arith,
      length-append (take_list c r) (buf ++ drop (c + length buf) r),
      length-append buf (drop (c + length buf) r),
      length-head c buf xs,
      length-drop (c + length buf) r,
      length-extend_to (c + length buf) xs,
    )

get_or-spliced :
    (c : ℕ) (buf xs : List ℕ) (i : ℕ)
    → get_or (spliced c buf xs) i 0
      ≡ (if leb c i && ltb i (c + length buf) then get_or buf (i - c) 0 else get_or xs i 0)
get_or-spliced c buf xs i =
    let r = extend_to (c + length buf) xs in
    let behind : c + length buf + (i - c - length buf) ≡ max i (c + length buf) = omega arith in
    ground (
      arith,
      get_or-append (take_list c r) (buf ++ drop (c + length buf) r) i,
      length-head c buf xs,
      get_or-append buf (drop (c + length buf) r) (i - c),
      get_or-take c r i,
      get_or-drop (c + length buf) r (i - c - length buf),
      behind,
      get_or-extend_to (c + length buf) xs i,
    )

module _ (h : FileHandle) (buf : List ℕ) (file : h.is_dir ≡ false) (may : h.writable ≡ true)
    (fits : h.cursor + length buf < 2 ^ 64) where
  write_unfolds : write h buf ≡ (
    ok (length buf),
    record h {
      contents = spliced h.cursor buf h.contents;
      cursor = h.cursor + length buf;
      dirty = true;
    },
  )
  unfolding write
  write_unfolds =
      let e : add64 h.cursor (length buf) ≡ h.cursor + length buf = omega arith in rw (file, may, e)

  -- `write` on a writable file whose end stays below 2 ^ 64 takes every byte: the bytes from the
  -- cursor on are those of the buffer, all others are as before, with zeros in a gap past the old
  -- end; the file is as long as it was or ends with the buffer, the cursor stands behind the
  -- buffer, and the handle is dirty.
  pub write_lem :
      ((write h buf).0 ≡ ok (length buf))
      × (length (write h buf).1.contents ≡ max (length h.contents) (h.cursor + length buf))
      × ((write h buf).1.cursor ≡ h.cursor + length buf)
      × ((write h buf).1.dirty ≡ true)
      × ((i : ℕ)
          → get_or (write h buf).1.contents i 0 ≡ (
              if leb h.cursor i && ltb i (h.cursor + length buf)
              then get_or buf (i - h.cursor) 0
              else get_or h.contents i 0))
  write_lem = rw write_unfolds (
    refl,
    length-spliced h.cursor buf h.contents,
    refl,
    refl,
    get_or-spliced h.cursor buf h.contents,
  )

  -- On a writable file with the cursor below 2 ^ 63 and the end below 2 ^ 64, what was written
  -- reads back: after `write`, seeking back to where the cursor stood and reading as many bytes
  -- as were written returns exactly the buffer.
  pub read-write :
      h.cursor < 2 ^ 63
      → (let back = (seek (write h buf).1 (start h.cursor)).1 in
          (g : FileHandle) × (read back (length buf) ≡ some (buf, g))
          × (g.cursor ≡ h.cursor + length buf))
  unfolding seek read
  read-write small =
      let c = h.cursor in
      let r = extend_to (c + length buf) h.contents in
      let n : min (length (spliced c buf h.contents) - c) (length buf) ≡ length buf =
        omega (arith, length-spliced c buf h.contents) in
      let inside : leb c (length (spliced c buf h.contents)) ≡ true =
        ground (arith, length-spliced c buf h.contents) in
      let at : clamp_negative c ≡ c = ground arith in
      let piece : take_list (length buf) (drop c (spliced c buf h.contents)) ≡ buf =
        ap (λ (k : ℕ). take_list (length buf) (drop k (spliced c buf h.contents)))
          (sym (length-head c buf h.contents))
        ∙ ap (take_list (length buf)) (drop-append (take_list c r) (buf ++ drop (c + length buf) r))
        ∙ take-append buf (drop (c + length buf) r) in
      rw write_unfolds (
        rw (at, file, inside, n)
          (
            record h {
              contents = spliced c buf h.contents;
              cursor = c + length buf;
              dirty = true;
              is_dir = false;
            },
            ap
                (λ (l : List ℕ). some (
                  l,
                  let g : FileHandle = record h {
                    contents = spliced c buf h.contents;
                    cursor = c + length buf;
                    dirty = true;
                    is_dir = false;
                  } in
                      g,
                ))
                piece,
            refl,
          ))

-- Within a file `read` never fails: it returns the bytes from the cursor on, as many as the buffer
-- and the file allow, and advances the cursor over them.
pub read_lem :
    (h : FileHandle) (n : ℕ)
    → h.is_dir ≡ false
    → h.cursor ≤ length h.contents
    → (g : FileHandle) × (bytes : List ℕ) × (read h n ≡ some (bytes, g))
      × (length bytes ≡ min (length h.contents - h.cursor) n)
      × (g.cursor ≡ h.cursor + length bytes)
      × (g.contents ≡ h.contents)
      × ((i : ℕ) → i < length bytes → get_or bytes i 0 ≡ get_or h.contents (h.cursor + i) 0)
unfolding read
read_lem h n file inside =
    let m = min (length h.contents - h.cursor) n in
    let bytes = take_list m (drop h.cursor h.contents) in
    let size : length bytes ≡ m =
      omega (arith, length-take m (drop h.cursor h.contents), length-drop h.cursor h.contents) in
    let within : leb h.cursor (length h.contents) ≡ true = ground arith in
    (
      record h { cursor = h.cursor + m },
      bytes,
      ground arith,
      size,
      omega (arith, size),
      refl,
      λ i lt.
          get_or-take m (drop h.cursor h.contents) i (omega (arith, size))
          ∙ get_or-drop h.cursor h.contents i,
    )
