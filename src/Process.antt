-- ===== src/Process.antt =====
-- kernel/process/process.h: the process control block, and the kernel state that the process table
-- (kernel/process/process.c) and the scheduler (kernel/scheduler/scheduler.c) share.
-- A pointer to a process is its index in `process_table`, and NULL is `none`. Other pointers are
-- addresses. `exit_code` is an `int32_t` by its bit pattern; `epoll_fd_idx` is `none` for -1.
use hobbyos.Base.{ℕ, Bool, false, Option, none, some, List, get_or, modify, replicate}

abbrev pub max_processes : ℕ
max_processes = 64

abbrev pub process_stack_size : ℕ
process_stack_size = 16384

abbrev pub process_max_fds : ℕ
process_max_fds = 32

abbrev pub page_size : ℕ
page_size = 4096

abbrev pub mmap_base : ℕ
mmap_base = 0x10000000

-- FD_NONE, FD_PIPE_READ, FD_PIPE_WRITE and FD_CONSOLE.
abbrev pub fd_none : ℕ
fd_none = 0

abbrev pub fd_pipe_read : ℕ
fd_pipe_read = 2

abbrev pub fd_pipe_write : ℕ
fd_pipe_write = 3

abbrev pub fd_console : ℕ
fd_console = 4

pub record ProcessFd : Type 0 where
  pub type : ℕ
  pub object : ℕ
  pub offset : ℕ

pub data ProcessState : Type 0 where
  unused ready running blocked zombie terminated : ProcessState

pub record Context : Type 0 where
  pub r15 : ℕ
  pub r14 : ℕ
  pub r13 : ℕ
  pub r12 : ℕ
  pub rbx : ℕ
  pub rbp : ℕ
  pub rsp : ℕ
  pub rip : ℕ

-- `vma_t` of kernel/memory/mmap.h.
pub record Vma : Type 0 where
  pub start : ℕ
  pub end : ℕ
  pub prot : ℕ
  pub flags : ℕ
  pub type : ℕ
  pub in_use : Bool
  pub file_inode : ℕ
  pub file_offset : ℕ
  pub shared_phys : ℕ
  pub dev_phys_base : ℕ
  pub elf_data : ℕ
  pub elf_data_filesz : ℕ
  pub elf_vaddr : ℕ
  pub elf_data_owned : Bool

-- The `sig_saved_*` fields: the user registers that a signal handler's call displaces.
pub record SavedFrame : Type 0 where
  pub rip : ℕ
  pub rsp : ℕ
  pub rflags : ℕ
  pub rax : ℕ
  pub rdi : ℕ
  pub rsi : ℕ
  pub rdx : ℕ

pub record Process : Type 0 where
  pub pid : ℕ
  pub name : List ℕ
  pub state : ProcessState
  pub context : Context
  pub kernel_stack : ℕ
  pub kernel_stack_guard : ℕ
  pub next : Option ℕ
  pub cr3 : ℕ
  pub is_user : Bool
  pub user_program_data : ℕ
  pub user_program_size : ℕ
  pub ppid : ℕ
  pub exit_code : ℕ
  pub wait_for_pid : ℕ
  pub fd_table : List ProcessFd
  pub user_entry_rsp : ℕ
  pub user_entry_argv : ℕ
  pub user_entry_argc : ℕ
  pub sig_pending : ℕ
  pub sig_handlers : List ℕ
  pub sig_saved : SavedFrame
  pub in_signal_handler : Bool
  pub vmas : List Vma
  pub mmap_next : ℕ
  pub brk_start : ℕ
  pub brk_current : ℕ
  pub uid : ℕ
  pub gid : ℕ
  pub euid : ℕ
  pub egid : ℕ
  pub epoll_fd_idx : Option ℕ
  pub epoll_timeout_ticks : ℕ
  pub epoll_events_ptr : ℕ
  pub epoll_maxevents : ℕ

-- What `memset(p, 0, sizeof *p)` leaves.
abbrev pub zero_fd : ProcessFd
zero_fd = record { type = 0; object = 0; offset = 0 }

abbrev pub zero_context : Context
zero_context = record { r15 = 0; r14 = 0; r13 = 0; r12 = 0; rbx = 0; rbp = 0; rsp = 0; rip = 0 }

abbrev pub zero_vma : Vma
zero_vma = record {
  start = 0;
  end = 0;
  prot = 0;
  flags = 0;
  type = 0;
  in_use = false;
  file_inode = 0;
  file_offset = 0;
  shared_phys = 0;
  dev_phys_base = 0;
  elf_data = 0;
  elf_data_filesz = 0;
  elf_vaddr = 0;
  elf_data_owned = false;
}

abbrev pub zero_frame : SavedFrame
zero_frame = record { rip = 0; rsp = 0; rflags = 0; rax = 0; rdi = 0; rsi = 0; rdx = 0 }

unfoldable pub zero_process : Process
zero_process = record {
  pid = 0;
  name = replicate 32 0;
  state = ProcessState.unused;
  context = zero_context;
  kernel_stack = 0;
  kernel_stack_guard = 0;
  next = none;
  cr3 = 0;
  is_user = false;
  user_program_data = 0;
  user_program_size = 0;
  ppid = 0;
  exit_code = 0;
  wait_for_pid = 0;
  fd_table = replicate process_max_fds zero_fd;
  user_entry_rsp = 0;
  user_entry_argv = 0;
  user_entry_argc = 0;
  sig_pending = 0;
  sig_handlers = replicate 32 0;
  sig_saved = zero_frame;
  in_signal_handler = false;
  vmas = replicate 32 zero_vma;
  mmap_next = 0;
  brk_start = 0;
  brk_current = 0;
  uid = 0;
  gid = 0;
  euid = 0;
  egid = 0;
  epoll_fd_idx = some 0;
  epoll_timeout_ticks = 0;
  epoll_events_ptr = 0;
  epoll_maxevents = 0;
}

-- The static variables of process.c and scheduler.c, and what `schedule` writes to the processor:
-- the stack of the task state segment and the page table register. `unmapped` holds the guard pages
-- that the kernel's page tables lack, and `kfreed` what the process table has given to `kfree`.
pub record Kernel : Type 0 where
  pub table : List Process
  pub next_pid : ℕ
  pub kstack_free : List ℕ
  pub unmapped : List ℕ
  pub kfreed : List ℕ
  pub current : Option ℕ
  pub queue_head : Option ℕ
  pub queue_tail : Option ℕ
  pub kernel_cr3 : ℕ
  pub rsp0 : ℕ
  pub cr3 : ℕ

-- `process_table[i]`
abbrev pub proc : Kernel → ℕ → Process
proc k i = get_or k.table i zero_process

-- An assignment to fields of `process_table[i]`.
abbrev pub set_proc : ℕ → (Process → Process) → Kernel → Kernel
set_proc i f k = record k { table = modify k.table i f }
