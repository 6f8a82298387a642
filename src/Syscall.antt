-- ===== src/Syscall.antt =====
-- src/syscall.rs: the native system calls, on the memory of the current process, the tasks, the keyboard queue
-- and what was printed. The tick counter is an argument.
use macha_os.Prelude.{
  ℕ, zero, suc, ◌+◌, ◌-◌, ◌%◌, ◌^◌, min, Bool, ◌&&◌, not, Option, none, some, List, [], ◌∷◌, ◌++◌,
  length, get_or, take, ltb, leb, add64, ◌==◌, if◌then◌else◌, true, false, get_elem?,
}
use macha_os.Paging.{is_identity_mapped}
use macha_os.Keyboard.{Event, char, EventQueue, pop}
use macha_os.Task.{Machine, deliver_message, take_current_message}
use macha_os.Process.{Process, resolve_syscall_ptr}
pub mod Confined
mod Tests

abbrev pub syscall_error : ℕ
syscall_error = 2 ^ 64 - 1

-- `process` is the memory of the current task, if that is a process, and `cr3` its page tables.
pub record Kernel : Type 0 where
  pub process : Process
  pub cr3 : ℕ
  pub machine : Machine
  pub keys : EventQueue
  pub printed : List ℕ
  pub write_count : ℕ

abbrev pub current_is_process : Machine → Bool
current_is_process m = elim (get_elem? m.tasks m.current) [
  | none ↦ false
  | some t ↦ elim t.process [ none ↦ false | some p ↦ true ]
]

unfoldable pub resolve_user_buffer : ℕ → ℕ → Kernel → Option ℕ × Kernel
resolve_user_buffer ptr len k =
    let r =
      resolve_syscall_ptr k.machine.current k.cr3 (λ pid. none) k.machine.current ptr len
        k.process in
    if current_is_process k.machine
    then (r.0, record k { process = r.1 })
    else (if is_identity_mapped ptr len then some ptr else none, k)

-- `from_raw_parts(phys, len)`
abbrev pub read_slice : ℕ → ℕ → (ℕ → ℕ) → List ℕ
read_slice zero phys bytes = []
read_slice (suc n) phys bytes = bytes phys ∷ read_slice n (phys + 1) bytes

abbrev pub write_slice : List ℕ → ℕ → (ℕ → ℕ) → ℕ → ℕ
write_slice bs phys bytes x =
    if leb phys x && ltb x (phys + length bs) then get_or bs (x - phys) 0 else bytes x

unfoldable pub written : ℕ → Option ℕ × Kernel → ℕ × Kernel
written len (none, k) = (syscall_error, k)
written len (some phys, k) = (
  len,
  record k {
    printed = k.printed ++ read_slice len phys k.process.bytes;
    write_count = add64 k.write_count len;
  },
)

unfoldable pub sys_write : ℕ → ℕ → ℕ → Kernel → ℕ × Kernel
unfolding resolve_user_buffer written
sys_write fd ptr len k =
    if not (fd == 1) && not (fd == 2)
    then (syscall_error, k)
    else written len (resolve_user_buffer ptr len k)

-- The events in the queue: the rounds that the loop can take.
abbrev pub waiting : EventQueue → ℕ
waiting q = (q.head + 256 - q.tail) % 256

-- The loop of `sys_read`, with room for `len` more bytes; events that are no characters are dropped.
abbrev pub key_byte : Event → Option ℕ
key_byte (char c) = some (c % 256)
key_byte e = none

unfoldable pub read_keys : ℕ → ℕ → EventQueue → List ℕ × EventQueue
unfolding pop
read_keys zero len q = ([], q)
read_keys (suc rounds) zero q = ([], q)
read_keys (suc rounds) (suc len) q =
    let r = pop q in
    elim r.0 [
      | none ↦ ([], r.1)
      | some e ↦ elim (key_byte e) [
        | some c ↦ let kept = read_keys rounds len r.1 in (c ∷ kept.0, kept.1)
        | none ↦ read_keys rounds (suc len) r.1
      ]
    ]

unfoldable pub read_in : ℕ → Option ℕ × Kernel → ℕ × Kernel
unfolding read_keys
read_in len (none, k) = (syscall_error, k)
read_in len (some phys, k) =
    let r = read_keys (waiting k.keys) len k.keys in
    (
      length r.0,
      record k {
        process = record k.process { bytes = write_slice r.0 phys k.process.bytes };
        keys = r.1;
      },
    )

unfoldable pub sys_read : ℕ → ℕ → ℕ → Kernel → ℕ × Kernel
unfolding resolve_user_buffer read_in
sys_read fd ptr len k =
    if not (fd == 0) then (syscall_error, k) else read_in len (resolve_user_buffer ptr len k)

unfoldable pub sent : ℕ → ℕ → Option ℕ × Kernel → ℕ × Kernel
unfolding deliver_message
sent dest_pid len (none, k) = (syscall_error, k)
sent dest_pid len (some phys, k) =
    let r = deliver_message dest_pid (read_slice len phys k.process.bytes) k.machine in
    (if r.0 then 0 else syscall_error, record k { machine = r.1 })

unfoldable pub sys_send : ℕ → ℕ → ℕ → Kernel → ℕ × Kernel
unfolding resolve_user_buffer sent
sys_send dest_pid ptr len k = sent dest_pid len (resolve_user_buffer ptr len k)

-- There is a current task, so that `none` stands for no run of the code.
unfoldable pub received : ℕ → ℕ → Option (Option (List ℕ) × Machine) → Kernel → ℕ × Kernel
received maxlen phys none k = (0, k)
received maxlen phys (some (none, m)) k = (0, record k { machine = m })
received maxlen phys (some (some message, m)) k =
    let bs = take (min (length message) maxlen) message in
    (
      length bs,
      record k {
        process = record k.process { bytes = write_slice bs phys k.process.bytes };
        machine = m;
      },
    )

unfoldable pub recv_in : ℕ → Option ℕ × Kernel → ℕ × Kernel
unfolding received take_current_message
recv_in maxlen (none, k) = (syscall_error, k)
recv_in maxlen (some phys, k) = received maxlen phys (take_current_message k.machine) k

unfoldable pub sys_recv : ℕ → ℕ → Kernel → ℕ × Kernel
unfolding resolve_user_buffer recv_in
sys_recv ptr maxlen k = recv_in maxlen (resolve_user_buffer ptr maxlen k)

-- The native part of `syscall_dispatch`.
unfoldable pub dispatch : ℕ → ℕ → ℕ → ℕ → ℕ → Kernel → ℕ × Kernel
unfolding sys_write sys_read sys_send sys_recv
dispatch ticks num arg1 arg2 arg3 k =
    if num == 0
    then sys_write arg1 arg2 arg3 k
    else if num == 2
    then sys_read arg1 arg2 arg3 k
    else if num == 3
    then (ticks, k)
    else if num == 4
    then sys_send arg1 arg2 arg3 k
    else if num == 5
    then sys_recv arg1 arg2 k
    else (syscall_error, k)
