-- ===== src/Process/Memory.antt =====
-- src/process.rs: frames for new memory, and what the process reads from them.
use macha_os.Prelude.{
  ℕ, ◌+◌, ◌*◌, ◌/◌, ◌%◌, ◌^◌, ◌<◌, ◌≤◌, ◌≡◌, refl, ap, true, Option, none, some, arith,
  if◌then◌else◌, sym, ◌∙◌, Bool, false, ◌&&◌, ltb, leb, List, pick, pass,
}
use macha_os.Pmm.{Pmm, frame_size, alloc_contiguous}
use macha_os.Pmm.Frames as PmmFrames
use macha_os.Pmm.Contiguous.{Taken, alloc_contiguous-Taken}
use macha_os.Pmm.Single.{free_in}
use macha_os.Paging.{PageTables, page_size}
use macha_os.Paging.View.{view}
use macha_os.Paging.Whole.{IsSpace}
use macha_os.Process.{Process, own_run, reserve}

-- The byte behind an address whose last entry is for ring 3.
abbrev pub user_load : ℕ → Process → ℕ → Option ℕ
user_load pml4 p w = elim (view p.space.tables pml4 w) [
  | none ↦ none
  | some e ↦ if e.user then some (p.bytes (e.addr + w % page_size)) else none
]

-- New memory: aligned, zeroed, in frames that were free; nothing else changed.
pub record NewRun (pml4 len : ℕ) (p : Process) (phys : ℕ) (p' : Process) : Type 0 where
  pub space : IsSpace pml4 p'.space
  pub tables : p'.space.tables ≡ p.space.tables
  pub mappings : p'.mappings ≡ p.mappings
  pub next : p'.mmap_next ≡ p.mmap_next
  pub floor : p'.stack_low ≡ p.stack_low
  pub heap : (p'.heap_start ≡ p.heap_start) × (p'.heap_end ≡ p.heap_end)
  pub positive : 0 < len / page_size
  pub aligned : phys % page_size ≡ 0
  pub fits : phys + len / page_size * page_size < 2 ^ 64
  pub fresh :
      (x : ℕ)
      → phys ≤ x
      → x < phys + len / page_size * page_size
      → free_in p.space.pmm (x / frame_size) ≡ true
  pub zeroed : (x : ℕ) → phys ≤ x → x < phys + len → p'.bytes x ≡ 0
  pub kept : (x : ℕ) → (leb phys x && ltb x (phys + len)) ≡ false → p'.bytes x ≡ p.bytes x

abbrev pub Reserved : ℕ → ℕ → Process → Option ℕ × Process → Type 0
Reserved pml4 len p (none, p') = p' ≡ p
Reserved pml4 len p (some phys, p') = NewRun pml4 len p phys p'

pub if_false : (c b : Bool) → (if c then false else b) ≡ true → b ≡ true
if_false true b h = absurd (cc)
if_false false b h = h

-- Frames may be taken from under the tables.
pub IsSpace-fewer :
    (pml4 : ℕ) (s : PageTables)
    → IsSpace pml4 s
    → (q : Pmm) (fs : List ℕ) → PmmFrames.IsValid q
    → ((g : ℕ) → free_in q g ≡ true → free_in s.pmm g ≡ true)
    → IsSpace pml4 (record { pmm = q; tables = s.tables; frames = fs })
IsSpace-fewer pml4 s h q fs valid fewer = record {
  role = h.role;
  tree = record {
    at_root = h.tree.at_root;
    at_pdpt = h.tree.at_pdpt;
    at_pd = h.tree.at_pd;
    at_pt = h.tree.at_pt;
    unused = λ g is_free. h.tree.unused g (fewer g is_free);
  };
  valid = valid;
}

pub reserve-Reserved :
    (pml4 len : ℕ) (p : Process) → IsSpace pml4 p.space → Reserved pml4 len p (reserve len p)
unfolding reserve own_run
reserve-Reserved pml4 len p h =
    go (alloc_contiguous p.space.pmm (len / page_size))
      (alloc_contiguous-Taken p.space.pmm (len / page_size) h.valid)
  where
    go :
        (r : Option ℕ × Pmm)
        → Taken p.space.pmm (len / page_size) r
        → Reserved pml4 len p (own_run len p r)
    go (none, q) (same, _) = ap (λ q. record p { space = record p.space { pmm = q } }) same
    go (some phys, q) (s, at, positive, inside, free, first, now, last, valid) = record {
      space = IsSpace-fewer pml4 p.space h q _ valid (λ g is_free.
          if_false (PmmFrames.within s (len / page_size) g) _ (sym (now g) ∙ is_free));
      tables = refl;
      mappings = refl;
      next = refl;
      floor = refl;
      heap = (refl, refl);
      positive = positive;
      aligned = omega (arith, at);
      fits = omega (arith, at, inside, h.valid.last_in);
      fresh = λ x lo hi. free (x / frame_size) (omega (arith, lo, at)) (omega (arith, hi, at));
      zeroed = λ x lo hi.
          let inside : (leb phys x && ltb x (phys + len)) ≡ true = ground (arith, lo, hi) in
          pick _ _ _ inside;
      kept = λ x apart. pass _ _ _ apart;
    }
