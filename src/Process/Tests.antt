-- ===== src/Process/Tests.antt =====
-- src/paging.rs and src/process.rs: the theorems on a process whose stack and heap share one table.
use macha_os.Prelude.{
  ℕ, ◌+◌, ◌*◌, ◌≡◌, refl, sym, ap, subst, ◌∙◌, Bool, true, false, inl, inr, arith, ◌==◌, ==_iff,
  if◌then◌else◌, Bool-cases, zero, suc, ◌-◌, ◌/◌, ◌<◌, ◌≤◌, none, some, [], ◌∷◌, slot,
}
use macha_os.Pmm.{Pmm, initial, frame_free, frame_size}
use macha_os.Pmm.Frames as PmmFrames
use macha_os.Pmm.Single.{free_in, frame_free_lem}
use macha_os.Pmm.Reserve.{initial-IsValid, initial_used}
use macha_os.Paging.{Entry, Tables, PageTables, entry_for, empty_entry, page_size}
use macha_os.Paging.View.{Role, root, pdpt, pd, pt, other, IsTree}
use macha_os.Paging.Whole.{IsSpace}
use macha_os.Paging.{map_range_in, pml4_index, pdpt_index, pd_index, pt_index}
use macha_os.Paging.View.{view}
use macha_os.Paging.Range.{RangeMapped, map_range_in-RangeMapped}
use macha_os.Shm.{Shm, SharedMem}
use macha_os.Shm.Objects as Objects
use macha_os.Process.{
  Process, Mapping, user_flags, try_grow_stack, translate, translate_of, mappings_of,
  resolve_syscall_ptr, user_stack_low_limit, user_stack_top, user_stack_base, align_up,
}
use macha_os.Process.Heap.{brk, mmap_with_content, mmap_shared}
use macha_os.Process.Translate.{Translated, translate-Translated, resolve_syscall_ptr-translate}
use macha_os.Elf.{Segment}
use macha_os.Process.Load.{load_segments}
use macha_os.Process.Loaded.{Loaded, load_segments-Loaded}
use macha_os.Process.Setup.{setup_user_stack}
use macha_os.Process.Start.{Started, setup_user_stack-Started}
use macha_os.Process.Stack.{HasStack, Grown, try_grow_stack-Grown}
use macha_os.Process.Break.{HasHeap, Moved, brk-Moved}
use macha_os.Process.Mmap.{Mmapped, mmap_with_content-Mmapped}
use macha_os.Process.Sharing.{Shares, mmap_shared-Shares}

abbrev leaf : ℕ → Entry
leaf i = entry_for (0x100000 + i * page_size) (user_flags true false)

abbrev only : ℕ → ℕ → ℕ → Entry
only k b i = if i == k then entry_for b (user_flags true true) else empty_entry

abbrev tables : Tables
tables b i =
    if b == 0x1000
    then only 0 0x2000 i
    else if b == 0x2000
    then only 0 0x3000 i
    else if b == 0x3000
    then only 127 0x4000 i
    else if b == 0x4000
    then leaf i
    else empty_entry

abbrev role : ℕ → Role
role b =
    if b == 0x1000
    then root
    else if b == 0x2000
    then pdpt 0
    else if b == 0x3000
    then pd 0 0
    else if b == 0x4000
    then pt 0 0 127
    else other

abbrev one_free : Pmm
one_free = frame_free initial 0

table_frames :
    (free_in one_free 1 ≡ false)
    × (free_in one_free 2 ≡ false)
    × (free_in one_free 3 ≡ false)
    × (free_in one_free 4 ≡ false)
table_frames = (used 1 refl, used 2 refl, used 3 refl, used 4 refl)
  where
    used : (g : ℕ) → (0 == g) ≡ false → free_in one_free g ≡ false
    used g ne = (frame_free_lem initial 0 initial-IsValid).0 g ∙ rw ne (initial_used g)

only_k : (k b i : ℕ) → (only k b i).present ≡ true → (i ≡ k) × ((only k b i).addr ≡ b)
only_k k b i h = elim (Bool-cases (i == k)) [
  | inl same ↦ ((==_iff _ _).0 same, rw same refl)
  | inr ne ↦ absurd (false-ne-true (sym (rw ne refl) ∙ h))
]
  where
    false-ne-true : ¬ (false ≡ true)
    false-ne-true e = cc

pdpt_at : (b i : ℕ) → role b ≡ pdpt i → (b ≡ 0x2000) × (i ≡ 0)
pdpt_at b i = chain (b == 0x1000) (b == 0x2000) (b == 0x3000) (b == 0x4000) refl
  where
    chain :
        (c d e f : Bool)
        → (b == 0x2000) ≡ d
        → (if c
            then root
            else if d
            then pdpt 0
            else if e
            then pd 0 0
            else if f
            then pt 0 0 127
            else other)
          ≡ pdpt i
        → (b ≡ 0x2000) × (i ≡ 0)
    chain true d e f s h = absurd (cc)
    chain false true e f s h = ((==_iff _ _).0 s, cc)
    chain false false true f s h = absurd (cc)
    chain false false false true s h = absurd (cc)
    chain false false false false s h = absurd (cc)

pd_at : (b i j : ℕ) → role b ≡ pd i j → (b ≡ 0x3000) × (i ≡ 0) × (j ≡ 0)
pd_at b i j = chain (b == 0x1000) (b == 0x2000) (b == 0x3000) (b == 0x4000) refl
  where
    chain :
        (c d e f : Bool)
        → (b == 0x3000) ≡ e
        → (if c
            then root
            else if d
            then pdpt 0
            else if e
            then pd 0 0
            else if f
            then pt 0 0 127
            else other)
          ≡ pd i j
        → (b ≡ 0x3000) × (i ≡ 0) × (j ≡ 0)
    chain true d e f s h = absurd (cc)
    chain false true e f s h = absurd (cc)
    chain false false true f s h = ((==_iff _ _).0 s, cc, cc)
    chain false false false true s h = absurd (cc)
    chain false false false false s h = absurd (cc)

pdpt_entry :
    (b i j : ℕ)
    → (b ≡ 0x2000) × (i ≡ 0)
    → (tables b j).present ≡ true
    → role (tables b j).addr ≡ pd i j
pdpt_entry b i j (at, first) here =
    let (k, addr) = only_k 0 0x3000 j (subst (λ n. (tables n j).present ≡ true) at here) in
    rw at (ap role addr ∙ rw (first, k) refl)

pd_entry :
    (b i j k : ℕ)
    → (b ≡ 0x3000) × (i ≡ 0) × (j ≡ 0)
    → (tables b k).present ≡ true
    → role (tables b k).addr ≡ pt i j k
pd_entry b i j k (at, first, second) here =
    let (l, addr) = only_k 127 0x4000 k (subst (λ n. (tables n k).present ≡ true) at here) in
    rw at (ap role addr ∙ rw (first, second, l) refl)

tree : IsTree role 0x1000 tables one_free
tree = record {
  at_root = refl;
  at_pdpt = λ i here. let (k, addr) = only_k 0 0x2000 i here in ap role addr ∙ rw k refl;
  at_pd = λ b i j at here small. pdpt_entry b i j (pdpt_at b i at) here;
  at_pt = λ b i j k at here small. pd_entry b i j k (pd_at b i j at) here;
  unused = λ g is_free.
      let ne1 : (g * frame_size == 0x1000) ≡ false = apart g 1 is_free (table_frames.0) in
      let ne2 : (g * frame_size == 0x2000) ≡ false = apart g 2 is_free (table_frames.1) in
      let ne3 : (g * frame_size == 0x3000) ≡ false = apart g 3 is_free (table_frames.2) in
      let ne4 : (g * frame_size == 0x4000) ≡ false = apart g 4 is_free (table_frames.3) in
      rw (ne1, ne2, ne3, ne4) refl;
}
  where
    apart :
        (g k : ℕ)
        → free_in one_free g ≡ true
        → free_in one_free k ≡ false
        → (g * frame_size == k * frame_size) ≡ false
    apart g k held lost = elim (Bool-cases (g * frame_size == k * frame_size)) [
      | inr ne ↦ ne
      | inl same ↦
          let eq : g ≡ k = omega (arith, (==_iff _ _).0 same) in
          absurd (true-ne-false (sym held ∙ ap (free_in one_free) eq ∙ lost))
    ]
      where
        true-ne-false : ¬ (true ≡ false)
        true-ne-false e = cc

abbrev space : PageTables
space = record { pmm = one_free; tables = tables; frames = [] }

one_free-IsValid : PmmFrames.IsValid one_free
one_free-IsValid = (frame_free_lem initial 0 initial-IsValid).1

space-IsSpace : IsSpace 0x1000 space
space-IsSpace = record { role = role; tree = tree; valid = one_free-IsValid }

map_range_in-RangeMapped_example :
    RangeMapped 0x1000
      (user_flags true false)
      0xFE00000
      0x400000
      0x2000
      space
      (map_range_in 0x1000 0xFE00000 0x400000 0x2000 (user_flags true false) space)
map_range_in-RangeMapped_example =
    map_range_in-RangeMapped 0x1000 (user_flags true false) role 0xFE00000 0x400000 0x2000 space
      tree one_free-IsValid (omega arith)

abbrev stack : Mapping
stack = record { vaddr = user_stack_low_limit; phys = 0x200000; len = 0x100000; shm_id = none }

abbrev process : Process
process = record {
  space = space;
  bytes = λ a. 7;
  mappings = stack ∷ [];
  stack_low = user_stack_base;
  stack_phys_base = 0x200000;
  heap_start = 0xFE10000;
  heap_end = 0xFE10100;
  mmap_next = 0x40000000;
}

shows_leaf :
    (w : ℕ) → 0xFE00000 ≤ w → w < user_stack_top → view tables 0x1000 w ≡ some (leaf (pt_index w))
unfolding view
shows_leaf w lo hi =
    let i4 : pml4_index w ≡ 0 = omega (arith, lo, hi) in
    let i3 : pdpt_index w ≡ 0 = omega (arith, lo, hi) in
    let i2 : pd_index w ≡ 127 = omega (arith, lo, hi) in rw (i4, i3, i2) refl

process-HasStack : HasStack 0x1000 process
process-HasStack = record {
  space = space-IsSpace;
  above = omega arith;
  below = omega arith;
  backing = omega arith;
  shown = λ w lo hi.
      let at : 0x100000 + pt_index w * page_size
          ≡ 0x200000 + (w / page_size * page_size - user_stack_low_limit) =
        omega (arith, lo, hi) in
      shows_leaf w (omega (arith, lo)) hi ∙ ap (λ a. some (entry_for a (user_flags true false))) at;
}

try_grow_stack-Grown_example :
    Grown 0x1000 0xFFF7010 process (try_grow_stack 0x1000 0xFFF7010 process)
try_grow_stack-Grown_example = try_grow_stack-Grown 0x1000 0xFFF7010 process process-HasStack

process-HasHeap : HasHeap 0x1000 process
process-HasHeap = record {
  space = space-IsSpace;
  starts = omega arith;
  aligned = refl;
  grows = omega arith;
  ends = omega arith;
  usable =
      λ w lo hi. (leaf (pt_index w), shows_leaf w (omega (arith, lo)) (omega (arith, hi)), refl);
}

brk-Moved_example : Moved 0x1000 0xFE11800 process (brk 0x1000 0xFE11800 process)
brk-Moved_example = brk-Moved 0x1000 0xFE11800 process (omega arith) process-HasHeap

mmap_with_content-Mmapped_example :
    Mmapped 0x1000
      (some 0xFE20000)
      (some (1 ∷ 2 ∷ []))
      (align_up 100)
      process
      (mmap_with_content 0x1000 (some 0xFE20000) 100 true false (some (1 ∷ 2 ∷ [])) process)
mmap_with_content-Mmapped_example =
    mmap_with_content-Mmapped 0x1000 (some 0xFE20000) 100 true false (some (1 ∷ 2 ∷ [])) process
      space-IsSpace

abbrev object : SharedMem
object = record { phys = 0x300000; pages = 1; size = 100; refcount = 1 }

abbrev objects : Shm
objects = record { table = some object ∷ []; pmm = initial; bytes = λ a. 7 }

only_object : (i : ℕ) (o : SharedMem) → slot objects.table i ≡ some o → (i ≡ 0) × (o ≡ object)
only_object zero o e = (refl, cc)
only_object (suc i) o e = absurd (cc)

objects-IsValid : Objects.IsValid objects
objects-IsValid = record {
  memory = initial-IsValid;
  backed = λ i o e. subst (Objects.IsBacked initial) (sym ((only_object i o e).1)) backed;
  apart = λ i j a b ne ea eb. absurd (ne ((only_object i a ea).0 ∙ sym ((only_object j b eb).0)));
}
  where
    backed : Objects.IsBacked initial object
    backed = record {
      held = omega arith;
      sized = omega arith;
      aligned = refl;
      inside = omega arith;
      in_use = λ g own. initial_used g;
    }

mmap_shared-Shares_example :
    Shares objects 0x1000
      (some 0xFE30000)
      0
      process
      (mmap_shared objects 0x1000 (some 0xFE30000) 0 true false process)
mmap_shared-Shares_example =
    mmap_shared-Shares objects 0x1000 (some 0xFE30000) 0 true false process objects-IsValid
      space-IsSpace

translate-Translated_example :
    Translated process.mappings 0xFF00010 16 (translate process.mappings 0xFF00010 16)
translate-Translated_example =
    translate-Translated process.mappings 0xFF00010 16 ((omega arith, omega arith), tt)

resolve_syscall_ptr-translate_example :
    (resolve_syscall_ptr 1 0x1000 (λ pid. none) 1 0xFFF7010 16 process).0
    ≡ translate_of (mappings_of 1 (λ pid. none) 1 process) 0xFFF7010 16
resolve_syscall_ptr-translate_example =
    resolve_syscall_ptr-translate 1 0x1000 (λ pid. none) 1 0xFFF7010 16 process

abbrev fresh : Process
fresh = record process { mappings = [] }

setup_user_stack-Started_example : Started 0x1000 (setup_user_stack 0x1000 fresh)
setup_user_stack-Started_example = setup_user_stack-Started 0x1000 fresh space-IsSpace refl

abbrev code : Segment
code = record {
  vaddr = 0xFE40000;
  file_offset = 1;
  filesz = 2;
  memsz = 16;
  writable = false;
  executable = true;
}

load_segments-Loaded_example :
    Loaded 0x1000
      (code ∷ [])
      (9 ∷ 5 ∷ 6 ∷ [])
      fresh
      (load_segments 0x1000 (code ∷ []) (9 ∷ 5 ∷ 6 ∷ []) fresh)
load_segments-Loaded_example =
    load_segments-Loaded 0x1000 code [] (9 ∷ 5 ∷ 6 ∷ []) fresh
      (record { below = omega arith; file_part = omega arith; in_file = omega arith }, tt)
      space-IsSpace
