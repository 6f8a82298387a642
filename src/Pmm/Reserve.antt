-- ===== src/Pmm/Reserve.antt =====
-- src/pmm.rs: the full bitmap at the start, and `mark_reserved`.
use macha_os.Prelude.{
  ℕ, zero, suc, ◌*◌, ◌/◌, ◌%◌, ◌≡◌, refl, Bool, true, false, ◌&&◌, not, inl, inr, arith, ltb, leb,
  ◌==◌, if◌then◌else◌, Bool-cases, All-replicate, min, get_or, replicate, length-replicate,
}
use macha_os.Prelude.Bits.{every_under, every_under_lem, bit_clear}
use macha_os.Pmm.{
  Pmm, initial, frame_count, frame_size, max_phys_mem, bitmap_bytes, frame_is_free, mark_range,
  mark_reserved, align_up, align_down, saturating_add,
}
use macha_os.Pmm.Frames.{IsByte, IsValid, mark_while-IsBitmap, free-mark_while}
use macha_os.Pmm.Single.{free_in}

get_or-replicate : (n i a : ℕ) → get_or (replicate n a) i a ≡ a
get_or-replicate zero i a = refl
get_or-replicate (suc n) zero a = refl
get_or-replicate (suc n) (suc i) a = get_or-replicate n i a

full_byte : every_under (λ k. not (bit_clear 0xff k)) 8 ≡ true
unfolding every_under bit_clear
full_byte = refl

pub initial_used : (g : ℕ) → free_in initial g ≡ false
unfolding frame_is_free
initial_used g = rw (get_or-replicate bitmap_bytes (g / 8) 0xff) (
    ground (arith, every_under_lem (λ k. not (bit_clear 0xff k)) 8 (g % 8) (omega arith) full_byte))

pub initial-IsValid : IsValid initial
initial-IsValid = record {
  map_valid = record {
    bytes = All-replicate IsByte bitmap_bytes 0xff (omega arith);
    sized = length-replicate {A = ℕ} bitmap_bytes 0xff;
  };
  last_in = omega arith;
}

-- The frames that `mark_reserved` marks.
abbrev pub reserved : ℕ → ℕ → ℕ → Bool
reserved base len g =
    not (len == 0)
    && (leb (base / frame_size) g
        && ltb (g * frame_size) (min (align_up (saturating_add base len) frame_size) max_phys_mem))

pub mark_reserved_lem :
    (p : Pmm) (base len : ℕ)
    → IsValid p
    → ((g : ℕ)
        → free_in (mark_reserved p base len) g
          ≡ (if reserved base len g then false else free_in p g))
      × ((mark_reserved p base len).last ≡ p.last)
      × IsValid (mark_reserved p base len)
unfolding mark_reserved mark_range
mark_reserved_lem p base len v = elim (Bool-cases (len == 0)) [
  | inl z ↦ rw z (λ g. refl, refl, v)
  | inr nz ↦ rw nz (
    λ g. ground (
      arith,
      free-mark_while frame_count p.bitmap (align_down base frame_size / frame_size)
          (min (align_up (saturating_add base len) frame_size) max_phys_mem) g v.map_valid,
    ),
    refl,
    record { map_valid = mark_while-IsBitmap _ _ _ _ v.map_valid; last_in = v.last_in },
  )
]
