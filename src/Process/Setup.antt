-- ===== src/Process/Setup.antt =====
-- src/process.rs: the stack that a new process starts with. A write to physical memory is one byte at a time.
use macha_os.Prelude.{
  ℕ, ◌+◌, ◌-◌, ◌&&◌, List, [], ◌∷◌, length, get_or, ltb, leb, if◌then◌else◌, ◌*◌, true, false, not,
  Option, none, some, ◌++◌, add64, Result, ok, err, to_le_bytes,
}
use Prim.Native.String.{String}
use macha_os.Pmm.{Pmm, frame_alloc, frame_size}
use macha_os.Shm.{write_zeros}
use macha_os.Paging.{page_size}
use macha_os.Process.{
  Process, user_flags, map_user, push_mapping, init_stack_backing, stack_phys_for, user_stack_base,
  user_stack_pages, user_stack_top,
}

abbrev pub user_exit_stub_virt : ℕ
user_exit_stub_virt = user_stack_top

-- `mov eax, SYS_EXIT; syscall; jmp $`
abbrev pub stub : List ℕ
stub = 0xB8 ∷ 1 ∷ 0 ∷ 0 ∷ 0 ∷ 0x0F ∷ 0x05 ∷ 0xEB ∷ 0xFE ∷ []

abbrev pub write_bytes : List ℕ → ℕ → (ℕ → ℕ) → ℕ → ℕ
write_bytes bs at bytes x =
    if leb at x && ltb x (at + length bs) then get_or bs (x - at) 0 else bytes x

-- One zeroed frame that the process owns.
unfoldable pub own_frame : Process → Option ℕ × Pmm → Option ℕ × Process
own_frame p (none, q) = (none, record p { space = record p.space { pmm = q } })
own_frame p (some frame, q) = (
  some frame,
  record p {
    space = record p.space { pmm = q; frames = p.space.frames ++ frame ∷ [] };
    bytes = write_zeros p.bytes frame frame_size;
  },
)

unfoldable pub alloc_frame : Process → Option ℕ × Process
unfolding own_frame
alloc_frame p = own_frame p (frame_alloc p.space.pmm)

-- The page that the program's last `ret` lands on, and the slot for it on the stack.
unfoldable pub finish_stack : ℕ → ℕ → ℕ → Process → Result String ℕ × Process
unfolding map_user
finish_stack pml4 stack_phys stub_phys p =
    let r =
      map_user pml4 user_exit_stub_virt stub_phys page_size
        (record { writable = false; user = true; no_execute = false })
        (record p { bytes = write_bytes stub stub_phys p.bytes }) in
    if not r.0
    then (err "failed to map exit trampoline", r.1)
    else let initial_rsp = user_stack_top - 8 in
      let q =
        push_mapping
          (record { vaddr = user_exit_stub_virt; phys = stub_phys; len = page_size; shm_id = none })
          r.1 in
      (
        ok initial_rsp,
        record q {
          bytes =
              write_bytes (to_le_bytes 8 user_exit_stub_virt)
                (add64 stack_phys (initial_rsp - user_stack_base)) q.bytes;
        },
      )

unfoldable pub add_stub : ℕ → ℕ → Option ℕ × Process → Result String ℕ × Process
unfolding finish_stack
add_stub pml4 stack_phys (none, p) = (err "out of memory", p)
add_stub pml4 stack_phys (some stub_phys, p) = finish_stack pml4 stack_phys stub_phys p

unfoldable pub map_stack : ℕ → Process → Result String ℕ × Process
unfolding map_user alloc_frame add_stub
map_stack pml4 p =
    let stack_phys = stack_phys_for user_stack_base p in
    let r =
      map_user pml4 user_stack_base stack_phys (user_stack_pages * page_size)
        (user_flags true false) p in
    if not r.0
    then (err "failed to map user stack", r.1)
    else add_stub pml4 stack_phys (alloc_frame r.1)

-- The initial stack pointer, or the reason why there is no stack.
unfoldable pub setup_user_stack : ℕ → Process → Result String ℕ × Process
unfolding init_stack_backing map_stack
setup_user_stack pml4 p =
    let r = init_stack_backing p in
    if not r.0 then (err "out of memory", r.1) else map_stack pml4 r.1
