-- ===== src/Syscall/Tests.antt =====
-- src/syscall.rs: a system call that reads a key into a buffer on the stack.
use macha_os.Prelude.{refl, none, some, [], ◌∷◌, arith}
use macha_os.Keyboard.{char, new_queue, push}
use macha_os.Pmm.{initial}
use macha_os.Paging.{empty_entry}
use macha_os.Process.{Process, Mapping, user_stack_low_limit, user_stack_base}
use macha_os.Task.{ProcessState}
use macha_os.Syscall.{Kernel, dispatch}
use macha_os.Syscall.Confined.{Confined, dispatch-Confined}

abbrev stack : Mapping
stack = record { vaddr = user_stack_low_limit; phys = 0x200000; len = 0x100000; shm_id = none }

abbrev process : Process
process = record {
  space = record { pmm = initial; tables = λ b i. empty_entry; frames = [] };
  bytes = λ a. 7;
  mappings = stack ∷ [];
  stack_low = user_stack_base;
  stack_phys_base = 0x200000;
  heap_start = 0x4000000;
  heap_end = 0x4000000;
  mmap_next = 0x40000000;
}

abbrev kernel : Kernel
kernel = record {
  process = process;
  cr3 = 0x1000;
  machine = record {
    tasks =
        record {
          rsp = 0;
          cr3 = 0x1000;
          kernel_stack_top = 0;
          ring3_kernel_rsp = 0;
          process = some (record {
            state = ProcessState.running;
            exit_info = none;
            inbox = none;
            fs_base = 0;
          });
        }
        ∷ [];
    current = 0;
    cpu = record { rsp = 0; cr3 = 0x1000; fs_base = 0; rsp0 = 0 };
  };
  keys = push (char 65) new_queue;
  printed = [];
  write_count = 0;
}

dispatch-Confined_example : Confined kernel (dispatch 9 2 0 0xFFFF000 16 kernel).1
dispatch-Confined_example =
    dispatch-Confined 9 2 0 0xFFFF000 16 kernel refl ((omega arith, omega arith), tt)
