-- ===== src/Paging.antt =====
-- src/paging.rs: the four levels of page tables. A table is the 512 entries at the address of its frame; an
-- entry is the `u64` split into its fields, with the attribute bits that the code only carries along in
-- `rest`. The frames that `allocated_frames` collects are a field of the state.
use macha_os.Prelude.{
  ℕ, zero, suc, ◌+◌, ◌*◌, ◌/◌, ◌%◌, ◌^◌, Bool, true, false, ◌&&◌, ◌||◌, not, Option, none, some,
  List, [], ◌∷◌, ◌++◌, ltb, leb, add64, ◌==◌, if◌then◌else◌, checked_add,
}
use macha_os.Pmm.{Pmm, frame_alloc}
pub mod View
pub mod Install
pub mod Directory
pub mod Walk
pub mod Page
pub mod Ring3
pub mod Range
pub mod Single
pub mod Whole

abbrev pub identity_map_end : ℕ
identity_map_end = 4 * 1024 * 1024 * 1024

abbrev pub page_size : ℕ
page_size = 4096

pub record Entry : Type 0 where
  pub addr : ℕ
  pub present : Bool
  pub writable : Bool
  pub user : Bool
  pub large : Bool
  pub no_execute : Bool
  pub rest : ℕ

-- The attributes that a mapping is asked for; `present` is forced on.
pub record Flags : Type 0 where
  pub writable : Bool
  pub user : Bool
  pub no_execute : Bool

abbrev pub Tables : Type 0
Tables = ℕ → ℕ → Entry

pub record PageTables : Type 0 where
  pub pmm : Pmm
  pub tables : Tables
  pub frames : List ℕ

abbrev pub empty_entry : Entry
empty_entry = record {
  addr = 0;
  present = false;
  writable = false;
  user = false;
  large = false;
  no_execute = false;
  rest = 0;
}

-- `addr | flags | PAGE_PRESENT`
abbrev pub entry_for : ℕ → Flags → Entry
entry_for addr f = record {
  addr = addr;
  present = true;
  writable = f.writable;
  user = f.user;
  large = false;
  no_execute = f.no_execute;
  rest = 0;
}

abbrev pub pml4_index : ℕ → ℕ
pml4_index virt = virt / 2 ^ 39 % 512

abbrev pub pdpt_index : ℕ → ℕ
pdpt_index virt = virt / 2 ^ 30 % 512

abbrev pub pd_index : ℕ → ℕ
pd_index virt = virt / 2 ^ 21 % 512

abbrev pub pt_index : ℕ → ℕ
pt_index virt = virt / 2 ^ 12 % 512

pub is_identity_mapped : ℕ → ℕ → Bool
is_identity_mapped addr len = elim (checked_add addr len) [
  | none ↦ false
  | some end ↦ leb end identity_map_end
]

-- One entry, and all the entries of one table.
abbrev pub put : Tables → ℕ → ℕ → Entry → Tables
put t base i e b j = if (b == base) && (j == i) then e else t b j

abbrev pub fill : Tables → ℕ → (ℕ → Entry) → Tables
fill t base es b j = if b == base then es j else t b j

-- Sets the user bit of an entry on the way to a user page.
unfoldable pub promote : Flags → ℕ → ℕ → Tables → Tables
promote f base i t =
    if f.user && not (t base i).user then put t base i (record (t base i) { user = true }) else t

-- The frame is recorded for the caller, if it wants the frames.
abbrev pub note_frame : Bool → ℕ → List ℕ → List ℕ
note_frame track frame frames = if track then frames ++ frame ∷ [] else frames

-- A table for a directory entry that was missing.
unfoldable pub new_table :
    Bool → Flags → ℕ → ℕ → PageTables → Option ℕ × Pmm → Option ℕ × PageTables
new_table track f pd i s (none, q) = (none, record s { pmm = q })
new_table track f pd i s (some frame, q) = (
  some frame,
  record {
    pmm = q;
    tables = put (fill s.tables frame (λ _. empty_entry)) pd i (entry_for frame f);
    frames = note_frame track frame s.frames;
  },
)

-- The start of the 2 MiB of an entry, and entry `i` of the table that takes its place.
abbrev pub large_base : ℕ → ℕ
large_base addr = addr / 2 ^ 21 * 2 ^ 21

abbrev pub small_entry : Entry → ℕ → Entry
small_entry e i = record e { addr = large_base e.addr + i * page_size; large = false }

unfoldable pub split_entry :
    Bool → Flags → ℕ → ℕ → PageTables → Option ℕ × Pmm → Option ℕ × PageTables
split_entry track f pd i s (none, q) = (none, record s { pmm = q })
split_entry track f pd i s (some frame, q) =
    let pde = s.tables pd i in
    (
      some frame,
      record {
        pmm = q;
        tables =
            put (fill s.tables frame (small_entry pde)) pd i
              (record pde { addr = frame; large = false; user = pde.user || f.user });
        frames = note_frame track frame s.frames;
      },
    )

-- The table of 4 KiB entries behind a directory entry.
unfoldable pub table_in : Bool → Flags → ℕ → ℕ → PageTables → Option ℕ × PageTables
unfolding new_table split_entry promote
table_in track f pd i s =
    let pde = s.tables pd i in
    if not pde.present
    then new_table track f pd i s (frame_alloc s.pmm)
    else if pde.large
    then split_entry track f pd i s (frame_alloc s.pmm)
    else (some pde.addr, record s { tables = promote f pd i s.tables })

-- The walk from the directory pointers on.
unfoldable pub table_below : Bool → Flags → ℕ → ℕ → PageTables → Option ℕ × PageTables
unfolding table_in promote
table_below track f pdpt virt s =
    let pdpte = s.tables pdpt (pdpt_index virt) in
    if not pdpte.present || pdpte.large
    then (none, s)
    else table_in track f pdpte.addr (pd_index virt)
        (record s { tables = promote f pdpt (pdpt_index virt) s.tables })

-- The table that has the entry for `virt`; the entry is the one at `pt_index virt`.
unfoldable pub pt_entry_in : Bool → ℕ → ℕ → Flags → PageTables → Option ℕ × PageTables
unfolding table_below promote
pt_entry_in track pml4 virt f s =
    let pml4e = s.tables pml4 (pml4_index virt) in
    if not pml4e.present
    then (none, s)
    else table_below track f pml4e.addr virt
        (record s { tables = promote f pml4 (pml4_index virt) s.tables })

abbrev pub write_entry : ℕ → ℕ → Entry → PageTables → PageTables
write_entry table i e s = record s { tables = put s.tables table i e }

-- `while v < end`, with `n` pages to go.
unfoldable pub map_pages : ℕ → ℕ → ℕ → ℕ → Flags → PageTables → Bool × PageTables
map_pages zero pml4 v p f s = (true, s)
map_pages (suc n) pml4 v p f s =
    let r = pt_entry_in true pml4 v f s in
    elim r.0 [
      | none ↦ (false, r.1)
      | some table ↦
          map_pages n pml4 (v + page_size) (add64 p page_size) f
            (write_entry table (pt_index v) (entry_for p f) r.1)
    ]

abbrev pub bad_range : ℕ → ℕ → Bool
bad_range virt len =
    not (virt % page_size == 0)
    || not (len % page_size == 0)
    || (len == 0)
    || ltb identity_map_end (virt + len)

unfoldable pub map_range_in : ℕ → ℕ → ℕ → ℕ → Flags → PageTables → Bool × PageTables
unfolding map_pages
map_range_in pml4 virt phys len f s =
    if bad_range virt len || not (phys % page_size == 0)
    then (false, s)
    else map_pages (len / page_size) pml4 virt phys f s

abbrev pub no_flags : Flags
no_flags = record { writable = false; user = false; no_execute = false }

-- A page whose entry cannot be reached is passed over.
unfoldable pub unmap_pages : ℕ → ℕ → ℕ → PageTables → PageTables
unmap_pages zero pml4 v s = s
unmap_pages (suc n) pml4 v s =
    let r = pt_entry_in false pml4 v no_flags s in
    elim r.0 [
      | none ↦ unmap_pages n pml4 (v + page_size) r.1
      | some table ↦
          unmap_pages n pml4 (v + page_size) (write_entry table (pt_index v) empty_entry r.1)
    ]

unfoldable pub unmap_range_in : ℕ → ℕ → ℕ → PageTables → Bool × PageTables
unfolding unmap_pages
unmap_range_in pml4 virt len s =
    if bad_range virt len then (false, s) else (true, unmap_pages (len / page_size) pml4 virt s)

-- One page of the kernel's own tables, at `kernel_pml4()`.
abbrev pub write_found : Entry → ℕ → Option ℕ × PageTables → Bool × PageTables
write_found e virt (none, s) = (false, s)
write_found e virt (some table, s) = (true, write_entry table (pt_index virt) e s)

unfoldable pub map_page : ℕ → ℕ → ℕ → Flags → PageTables → Bool × PageTables
map_page kernel_pml4 virt phys f s =
    if leb identity_map_end virt
      || leb identity_map_end phys
      || not (virt % page_size == 0)
      || not (phys % page_size == 0)
    then (false, s)
    else write_found (entry_for phys f) virt (pt_entry_in false kernel_pml4 virt f s)

unfoldable pub unmap_page : ℕ → ℕ → PageTables → Bool × PageTables
unmap_page kernel_pml4 virt s =
    if leb identity_map_end virt || not (virt % page_size == 0)
    then (false, s)
    else write_found empty_entry virt (
        pt_entry_in false kernel_pml4 virt
          (record { writable = true; user = false; no_execute = false }) s)
