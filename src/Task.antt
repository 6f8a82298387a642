-- ===== src/Task.antt =====
-- src/task.rs: the task table, the round-robin scheduler with its context switch, the message
-- slot of a process and the removal of a process from the table. A task is what the scheduler
-- reads and writes of `Task` and of its `Process`; stacks and the assembly stubs stand as the saved
-- stack pointers, which `context_switch` stores and loads. `none` stands for a panic.
use macha_os.Prelude.{
  ℕ, zero, suc, ◌+◌, ◌-◌, ◌%◌, Bool, true, false, not, Option, none, some, List, length, get_elem?,
  set, take, ltb, ◌==◌, if◌then◌else◌, slot,
}
pub mod Schedule
pub mod Messages
pub mod Remove
mod Tests

pub data ProcessState : Type 0 where
  running exited : ProcessState

pub data ExitInfo : Type 0 where
  normal : ExitInfo
  page_fault : ℕ → ExitInfo
  exception : ℕ → ExitInfo

pub record Process : Type 0 where
  pub state : ProcessState
  pub exit_info : Option ExitInfo
  pub inbox : Option (List ℕ)
  pub fs_base : ℕ

pub record Task : Type 0 where
  pub rsp : ℕ
  pub cr3 : ℕ
  pub kernel_stack_top : ℕ
  pub ring3_kernel_rsp : ℕ
  pub process : Option Process

-- The registers that a switch reads and writes: the stack pointer, the address space, the base of
-- thread-local storage and the stack for entries from ring 3.
pub record Cpu : Type 0 where
  pub rsp : ℕ
  pub cr3 : ℕ
  pub fs_base : ℕ
  pub rsp0 : ℕ

pub record Machine : Type 0 where
  pub tasks : List Task
  pub current : ℕ
  pub cpu : Cpu

abbrev pub quantum_ticks : ℕ
quantum_ticks = 5

abbrev pub ring3_park_reserve : ℕ
ring3_park_reserve = 1024

abbrev pub process_is_exited : Process → Bool
process_is_exited p = elim p.state [ ProcessState.running ↦ false | ProcessState.exited ↦ true ]

abbrev pub is_exited : Task → Bool
is_exited t = elim t.process [ none ↦ false | some p ↦ process_is_exited p ]

-- The test of the loop; a candidate below the count is always in the table.
abbrev pub exited_at : List Task → ℕ → Bool
exited_at ts i = elim (get_elem? ts i) [ none ↦ true | some t ↦ is_exited t ]

-- `for step in step..step + left`
abbrev pub search_next : List Task → ℕ → ℕ → ℕ → Option ℕ
search_next ts current step zero = none
search_next ts current step (suc left) =
    let candidate = (current + step) % length ts in
    let rest = search_next ts current (suc step) left in
    if exited_at ts candidate then rest else some candidate

unfoldable pub find_next : List Task → ℕ → Option ℕ
find_next ts current = search_next ts current 1 (length ts - 1)

-- The outgoing process keeps the register's value.
abbrev pub save_fs_base : Cpu → Task → Task
save_fs_base cpu t = record t {
  process = elim t.process [ none ↦ none | some p ↦ some (record p { fs_base = cpu.fs_base }) ];
}

-- What the incoming task finds in the registers.
abbrev pub restore : Task → Cpu → Cpu
restore t cpu = record {
  rsp = t.rsp;
  cr3 = t.cr3;
  fs_base = elim t.process [ none ↦ cpu.fs_base | some p ↦ p.fs_base ];
  rsp0 = t.kernel_stack_top - ring3_park_reserve;
}

abbrev pub park : Cpu → Task → Task
park cpu t = record (save_fs_base cpu t) { rsp = cpu.rsp }

abbrev pub modify : List Task → ℕ → (Task → Task) → Option (List Task)
modify ts i f = elim (get_elem? ts i) [ none ↦ none | some t ↦ some (set ts i (f t)) ]

-- `find_next` never picks the current task, so parking it does not change what the next one holds.
unfoldable pub switch_to : ℕ → Machine → Option Machine
switch_to next m = elim (get_elem? m.tasks m.current) [
  | none ↦ none
  | some outgoing ↦
      let parked = set m.tasks m.current (park m.cpu outgoing) in
      elim (get_elem? m.tasks next) [
        | none ↦ none
        | some incoming ↦
            some (record { tasks = parked; current = next; cpu = restore incoming m.cpu })
      ]
]

unfoldable pub scheduler_tick : ℕ → Machine → Option Machine
scheduler_tick ticks m =
    if not (ticks % quantum_ticks == 0)
    then some m
    else if ltb (length m.tasks) 2
    then some m
    else elim (find_next m.tasks m.current) [ none ↦ some m | some next ↦ switch_to next m ]

abbrev pub with_process : Task → (Process → Process) → Task
with_process t f = record t { process = elim t.process [ none ↦ none | some p ↦ some (f p) ] }

unfoldable pub mark_exited : ExitInfo → Process → Process
mark_exited info p = elim p.state [
  | ProcessState.running ↦ record p { state = ProcessState.exited; exit_info = some info }
  | ProcessState.exited ↦ p
]

unfoldable pub mark_current_exited : ExitInfo → Machine → Option Machine
unfolding mark_exited
mark_current_exited info m =
    elim (modify m.tasks m.current (λ t. with_process t (mark_exited info))) [
      | none ↦ none
      | some ts ↦ some (record m { tasks = ts })
    ]

unfoldable pub process_exit_status : ℕ → Machine → Option ExitInfo
process_exit_status pid m = elim (get_elem? m.tasks pid) [
  | none ↦ none
  | some t ↦ elim t.process [
    | none ↦ none
    | some p ↦ if process_is_exited p then p.exit_info else none
  ]
]

unfoldable pub deliver_message : ℕ → List ℕ → Machine → Bool × Machine
deliver_message pid bytes m = elim (get_elem? m.tasks pid) [
  | none ↦ (false, m)
  | some t ↦ elim t.process [
    | none ↦ (false, m)
    | some p ↦ if process_is_exited p then (false, m) else (
      true,
      record m {
        tasks = set m.tasks pid (record t { process = some (record p { inbox = some bytes }) });
      },
    )
  ]
]

abbrev pub inbox_of : Task → Option (List ℕ)
inbox_of t = elim t.process [ none ↦ none | some p ↦ p.inbox ]

unfoldable pub take_current_message : Machine → Option (Option (List ℕ) × Machine)
take_current_message m = elim (get_elem? m.tasks m.current) [
  | none ↦ none
  | some t ↦ some (
    inbox_of t,
    record m { tasks = set m.tasks m.current (with_process t (λ p. record p { inbox = none })) },
  )
]

-- `Vec::swap_remove`: the last element takes the place of the removed one.
abbrev pub swap_remove : List Task → ℕ → List Task
swap_remove ts i =
    let final = length ts - 1 in
    elim (get_elem? ts final) [ none ↦ ts | some t ↦ take final (set ts i t) ]

-- The current index after the removal, with `left` the number of tasks that remain.
abbrev pub adjust_current : ℕ → ℕ → ℕ → ℕ
adjust_current current pid left =
    if current == left then pid else if ltb pid current then current - 1 else current

unfoldable pub remove_process : ℕ → Machine → Option Process × Machine
remove_process pid m = elim (get_elem? m.tasks pid) [
  | none ↦ (none, m)
  | some t ↦ if m.current == pid then (none, m) else (
    t.process,
    record m {
      tasks = swap_remove m.tasks pid;
      current = adjust_current m.current pid (length m.tasks - 1);
    },
  )
]
