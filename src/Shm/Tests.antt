-- ===== src/Shm/Tests.antt =====
-- src/shm.rs: the theorems on the first object, over a memory with one free frame.
use macha_os.Prelude.{
  ℕ, ◌≡◌, refl, subst, true, none, some, [], ◌∷◌, arith, ◌==◌, if◌then◌else◌, slot, insert_from,
}
use macha_os.Pmm.{initial, frame_free}
use macha_os.Pmm.Single.{free_in, frame_free_lem}
use macha_os.Pmm.Reserve.{initial-IsValid}
use macha_os.Shm.{Shm, SharedMem, create, close, truncate}
use macha_os.Shm.Objects.{IsValid, owns, create_lem}
use macha_os.Shm.Close.{close_lem}
use macha_os.Shm.Truncate.{Truncated, truncate-Truncated}

abbrev bare : Shm
bare = record { table = []; pmm = frame_free initial 0; bytes = λ a. 7 }

bare-IsValid : IsValid bare
bare-IsValid = record {
  memory = (frame_free_lem initial 0 initial-IsValid).1;
  backed = λ i o e. ground arith;
  apart = λ i j a b ne ea eb. ground arith;
}

abbrev object : SharedMem
object = record { phys = 0; pages = 0; size = 0; refcount = 1 }

abbrev one : Shm
one = record bare { table = some object ∷ [] }

created_first : (create bare).1 ≡ one
unfolding create insert_from
created_first = refl

one-IsValid : IsValid one
one-IsValid = subst IsValid created_first (create_lem bare bare-IsValid).2

close_lem_example :
    ((j : ℕ) → slot (close one 0).table j ≡ (if 0 == j then none else slot one.table j))
    × ((g : ℕ) → free_in (close one 0).pmm g ≡ (if owns object g then true else free_in one.pmm g))
    × IsValid (close one 0)
close_lem_example = close_lem one 0 object one-IsValid refl

truncate-Truncated_example : Truncated one 0 object 4096 (truncate one 0 4096)
truncate-Truncated_example = truncate-Truncated one 0 object 4096 one-IsValid refl
