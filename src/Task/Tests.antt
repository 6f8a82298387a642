-- ===== src/Task/Tests.antt =====
-- src/task.rs: the theorems on a table of four tasks, the second of them exited.
use macha_os.Prelude.{◌+◌, ◌≡◌, refl, none, some, List, [], ◌∷◌, arith, get_elem?, set}
use macha_os.Task.{
  Task, Process, Machine, Cpu, ProcessState, find_next, switch_to, park, restore, remove_process,
}
use macha_os.Task.Schedule.{NextOf, find_next_lem, switch_to-switch_to}
use macha_os.Task.Remove.{remove_process_drifts}

abbrev kernel_task : Task
kernel_task = record {
  rsp = 100;
  cr3 = 1;
  kernel_stack_top = 9000;
  ring3_kernel_rsp = 0;
  process = none;
}

abbrev gone : Process
gone = record { state = ProcessState.exited; exit_info = none; inbox = none; fs_base = 5 }

abbrev alive : Process
alive = record { state = ProcessState.running; exit_info = none; inbox = none; fs_base = 6 }

abbrev with : Process → Task
with p = record {
  rsp = 200;
  cr3 = 2;
  kernel_stack_top = 8000;
  ring3_kernel_rsp = 0;
  process = some p;
}

abbrev table : List Task
table = kernel_task ∷ with gone ∷ with alive ∷ kernel_task ∷ []

abbrev cpu : Cpu
cpu = record { rsp = 300; cr3 = 2; fs_base = 42; rsp0 = 0 }

abbrev machine : Machine
machine = record { tasks = table; current = 2; cpu = cpu }

find_next_lem_example : NextOf table 0 1 3 (find_next table 0)
find_next_lem_example = find_next_lem table 0

abbrev away : Machine
away = record {
  tasks = set table 2 (park cpu (with alive));
  current = 3;
  cpu = restore kernel_task cpu;
}

abbrev returned : Machine
returned = record {
  tasks = set away.tasks 3 (park (record cpu { rsp = 1 }) kernel_task);
  current = 2;
  cpu = restore (park cpu (with alive)) (record cpu { rsp = 1 });
}

goes : switch_to 3 machine ≡ some away
unfolding switch_to
goes = refl

returns : switch_to 2 (record away { cpu = record cpu { rsp = 1 } }) ≡ some returned
unfolding switch_to
returns = refl

switch_to-switch_to_example :
    (returned.current ≡ 2)
    × (returned.cpu.rsp ≡ 300)
    × (returned.cpu.cr3 ≡ 2)
    × ((p : Process) → some alive ≡ some p → returned.cpu.fs_base ≡ 42)
switch_to-switch_to_example =
    switch_to-switch_to machine away returned (with alive) 3 (record cpu { rsp = 1 }) refl
      (λ e. ground arith) goes returns

remove_process_drifts_example :
    ((remove_process 1 machine).1.current + 1 ≡ 2)
    × (get_elem? (remove_process 1 machine).1.tasks 2 ≡ some (with alive))
remove_process_drifts_example = remove_process_drifts machine 1 (omega arith) (omega arith)
