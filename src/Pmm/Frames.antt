-- ===== src/Pmm/Frames.antt =====
-- src/pmm.rs: what setting and clearing a frame does to every frame of the bitmap.
use macha_os.Prelude.{
  ℕ, zero, suc, ◌+◌, ◌*◌, ◌/◌, ◌%◌, ◌<◌, ◌≤◌, ◌≡◌, ◌≢◌, Bool, true, false, List, ◌&&◌, arith, All,
  All-set, All-get_or, get_or, get_or-set_self, get_or-set_ne, length, length-set, ltb, leb, ◌==◌,
  if◌then◌else◌, Bool-cases, inl, inr,
}
use macha_os.Prelude.Bits.{
  bit_clear-set_bit, bit_clear-clear_bit, set_bit-lt, clear_bit-lt, set_bit, clear_bit,
}
use macha_os.Pmm.{
  Pmm, bitmap_bytes, frame_count, set_frame, clear_frame, frame_is_free, mark_while, clear_range,
  set_range, frame_size,
}

abbrev pub IsByte : ℕ → Type 0
IsByte b = b < 256

-- The array `[u8; BITMAP_BYTES]`.
pub record IsBitmap (m : List ℕ) : Type 0 where
  pub bytes : All IsByte m
  pub sized : length m ≡ bitmap_bytes

-- The frames that the code scans lie in the bitmap.
pub record IsValid (p : Pmm) : Type 0 where
  pub map_valid : IsBitmap p.bitmap
  pub last_in : p.last < frame_count

pub set_frame-IsBitmap : (m : List ℕ) (f : ℕ) → IsBitmap m → IsBitmap (set_frame m f)
unfolding set_frame
set_frame-IsBitmap m f v = record {
  bytes =
      All-set IsByte m (f / 8) _
        (set_bit-lt _ _ (All-get_or IsByte m (f / 8) 0xff (omega arith) v.bytes) (omega arith))
        v.bytes;
  sized = omega (arith, length-set m (f / 8) (set_bit (get_or m (f / 8) 0xff) (f % 8)), v.sized);
}

pub clear_frame-IsBitmap : (m : List ℕ) (f : ℕ) → IsBitmap m → IsBitmap (clear_frame m f)
unfolding clear_frame
clear_frame-IsBitmap m f v = record {
  bytes =
      All-set IsByte m (f / 8) _
        (clear_bit-lt _ _ (All-get_or IsByte m (f / 8) 0xff (omega arith) v.bytes) (omega arith))
        v.bytes;
  sized = omega (arith, length-set m (f / 8) (clear_bit (get_or m (f / 8) 0xff) (f % 8)), v.sized);
}

module _ (m : List ℕ) (f g : ℕ) (v : IsBitmap m) (h : f < frame_count) where
  byte_in : f / 8 < length m
  byte_in = omega (arith, v.sized)

  byte_lt : get_or m (f / 8) 0xff < 256
  byte_lt = All-get_or IsByte m (f / 8) 0xff (omega arith) v.bytes

  pub free-set_frame :
      frame_is_free (set_frame m f) g ≡ (if f == g then false else frame_is_free m g)
  unfolding set_frame frame_is_free
  free-set_frame = elim (Bool-cases (f / 8 == g / 8)) [
    | inl same ↦
        let e : f / 8 ≡ g / 8 = ground arith in
        rw (← e) (
          rw (get_or-set_self m (f / 8) (set_bit (get_or m (f / 8) 0xff) (f % 8)) 0xff byte_in) (
            ground (
              arith,
              bit_clear-set_bit (get_or m (f / 8) 0xff) (f % 8) byte_lt (omega arith) (g % 8)
                  (omega arith),
            )))
    | inr other ↦
        let ne : f / 8 ≢ g / 8 = ground arith in
        rw (get_or-set_ne m (f / 8) (g / 8) (set_bit (get_or m (f / 8) 0xff) (f % 8)) 0xff ne)
          (ground arith)
  ]

  pub free-clear_frame :
      frame_is_free (clear_frame m f) g ≡ (if f == g then true else frame_is_free m g)
  unfolding clear_frame frame_is_free
  free-clear_frame = elim (Bool-cases (f / 8 == g / 8)) [
    | inl same ↦
        let e : f / 8 ≡ g / 8 = ground arith in
        rw (← e) (
          rw (get_or-set_self m (f / 8) (clear_bit (get_or m (f / 8) 0xff) (f % 8)) 0xff byte_in) (
            ground (
              arith,
              bit_clear-clear_bit (get_or m (f / 8) 0xff) (f % 8) byte_lt (omega arith) (g % 8)
                  (omega arith),
            )))
    | inr other ↦
        let ne : f / 8 ≢ g / 8 = ground arith in
        rw (get_or-set_ne m (f / 8) (g / 8) (clear_bit (get_or m (f / 8) 0xff) (f % 8)) 0xff ne)
          (ground arith)
  ]

abbrev pub within : ℕ → ℕ → ℕ → Bool
within lo n g = leb lo g && ltb g (lo + n)

pub set_range-IsBitmap : (n : ℕ) (m : List ℕ) (f : ℕ) → IsBitmap m → IsBitmap (set_range n m f)
unfolding set_range
set_range-IsBitmap zero m f v = v
set_range-IsBitmap (suc n) m f v = set_range-IsBitmap n _ _ (set_frame-IsBitmap m f v)

pub clear_range-IsBitmap : (n : ℕ) (m : List ℕ) (f : ℕ) → IsBitmap m → IsBitmap (clear_range n m f)
unfolding clear_range
clear_range-IsBitmap zero m f v = v
clear_range-IsBitmap (suc n) m f v = clear_range-IsBitmap n _ _ (clear_frame-IsBitmap m f v)

pub free-set_range :
    (n : ℕ) (m : List ℕ) (f g : ℕ)
    → IsBitmap m
    → f + n ≤ frame_count
    → frame_is_free (set_range n m f) g ≡ (if within f n g then false else frame_is_free m g)
unfolding set_range
free-set_range zero m f g v h = ground arith
free-set_range (suc n) m f g v h = ground (
  arith,
  free-set_range n (set_frame m f) (f + 1) g (set_frame-IsBitmap m f v),
  free-set_frame m f g v,
)

pub free-clear_range :
    (n : ℕ) (m : List ℕ) (f g : ℕ)
    → IsBitmap m
    → (0 < n → f + n ≤ frame_count)
    → frame_is_free (clear_range n m f) g ≡ (if within f n g then true else frame_is_free m g)
unfolding clear_range
free-clear_range zero m f g v h = ground arith
free-clear_range (suc n) m f g v h =
    let fits : f + suc n ≤ frame_count = h (omega arith) in
    ground (
      arith,
      free-clear_range n (clear_frame m f) (f + 1) g (clear_frame-IsBitmap m f v)
          (λ p. omega arith),
      free-clear_frame m f g v,
    )

pub mark_while-IsBitmap :
    (n : ℕ) (m : List ℕ) (f end : ℕ) → IsBitmap m → IsBitmap (mark_while n m f end)
unfolding mark_while
mark_while-IsBitmap zero m f end v = v
mark_while-IsBitmap (suc n) m f end v = elim (Bool-cases (ltb (f * frame_size) end)) [
  | inl more ↦ rw (more, mark_while) (mark_while-IsBitmap n _ _ _ (set_frame-IsBitmap m f v))
  | inr done ↦ rw (done, mark_while) v
]

-- The fuel reaches `end`, and every index of the loop lies in the bitmap.
pub free-mark_while :
    (n : ℕ) (m : List ℕ) (f end g : ℕ)
    → IsBitmap m
    → end ≤ frame_count * frame_size
    → end ≤ (f + n) * frame_size
    → frame_is_free (mark_while n m f end) g
      ≡ (if leb f g && ltb (g * frame_size) end then false else frame_is_free m g)
unfolding mark_while
free-mark_while zero m f end g v h k = ground arith
free-mark_while (suc n) m f end g v h k = elim (Bool-cases (ltb (f * frame_size) end)) [
  | inl more ↦
      rw (more, mark_while)
        (ground (
          arith,
          free-mark_while n (set_frame m f) (f + 1) end g (set_frame-IsBitmap m f v) h,
          free-set_frame m f g v,
        ))
  | inr done ↦ rw (done, mark_while) (ground arith)
]
