-- ===== src/Allocator/Tests.antt =====
-- src/allocator.rs: the theorems on a fresh heap of one page, and on one that is wholly in use.
use macha_os.Prelude.{◌+◌, ◌≡◌, refl, some, [], ◌∷◌, arith, sub64}
use macha_os.Allocator.{
  FreeListAllocator, init, alloc, dealloc, fuel_of, search_list, take, split, align_up, min_align,
  header_size,
}
use macha_os.Allocator.Chain.{Free, IsValid, init-IsValid}
use macha_os.Allocator.Blocks.{first_fit, place, remainder}
use macha_os.Allocator.Alloc.{AllocResult, alloc-AllocResult}
use macha_os.Allocator.Gap.{InUse, dealloc_refines, allocated_drifts}

abbrev blank : FreeListAllocator
blank = record {
  head = 0;
  allocated = 0;
  total = 0;
  base = 0;
  mem = λ a. record { size = 0; next = 0 };
}

abbrev page : FreeListAllocator
page = init blank 4096 8192

abbrev whole : Free
whole = record { at = 4096; size = 4080 }

page-IsValid : IsValid page (whole ∷ [])
page-IsValid = init-IsValid blank 4096 8192 (omega arith) refl refl (omega arith) (omega arith)

alloc-AllocResult_example : AllocResult page (align_up 100 min_align) (whole ∷ []) (alloc page 100)
alloc-AllocResult_example = alloc-AllocResult page (whole ∷ []) 100 page-IsValid (omega arith)

found : (alloc page 100).0 ≡ 4112
unfolding alloc fuel_of search_list take split init
found = refl

-- The whole page is handed out.
abbrev full : FreeListAllocator
full = record {
  head = 0;
  allocated = 4080;
  total = 4096;
  base = 4096;
  mem = λ a. record { size = 4080; next = 0 };
}

full-IsValid : IsValid full []
full-IsValid = record { chain = refl; ordered = tt; base_pos = omega arith; small = omega arith }

whole-InUse : InUse full [] whole
whole-InUse = record {
  header = refl;
  from_base = omega arith;
  in_heap = omega arith;
  aligned = refl;
  whole = refl;
  outside = tt;
}

dealloc_refines_example :
    IsValid (dealloc full (4096 + header_size)) (place whole [])
    × ((dealloc full (4096 + header_size)).allocated ≡ sub64 4080 4080)
dealloc_refines_example = dealloc_refines full [] whole full-IsValid whole-InUse

fits_whole : first_fit (align_up 4064 min_align) (whole ∷ []) ≡ (some whole, [])
unfolding first_fit remainder
fits_whole = refl

allocated_drifts_example :
    (dealloc (alloc page 4064).1 (alloc page 4064).0).allocated ≡ sub64 page.allocated header_size
allocated_drifts_example =
    allocated_drifts page (whole ∷ []) 4064 whole [] page-IsValid (omega arith) fits_whole refl
