-- ===== src/Kernel.antt =====
-- The state of the kernel: the task structures of include/sched.h, the semaphores of
-- include/semafors.h and the global variables of sched.c, sys.c, interrupt.c, mm.c and io.c.
--
-- A pointer to a task structure is the address of its page, and a list head is the address at which
-- it stands in its structure, so that `list_head_to_task_struct` and `list_entry` compute as they do
-- in the source. The addresses of the globals are this model's choice, as is the page of the tasks.
use so2_project.Common.{ℕ, ◌+◌, ◌-◌, ◌*◌, ◌%◌, ℤ, Bool, List, update}
use so2_project.Address.{task_page, page_size}
use so2_project.Links.{Store}
use so2_project.Buffer.{CircularBuffer}
use so2_project.Stats.{Stats}
use so2_project.Frames.{PhysMem}
use so2_project.Paging.{Entry, PageTable}
use so2_project.Screen.{Screen, printk}

-- `enum state_t`
pub data TaskState : Type 0 where
  st_run st_ready st_blocked : TaskState

-- `struct task_struct` less its list heads, which stand in the store of the links.
-- `dir_pages_base` is the index of the task's directory in `dir_pages`.
pub record Task : Type 0 where
  pub pid : ℤ
  pub master_thread : ℤ
  pub master_thread_address : ℕ
  pub dir_pages_base : ℕ
  pub register_esp : ℕ
  pub state : TaskState
  pub total_quantum : ℤ
  pub p_stats : Stats
  pub pending_unblocks : ℤ
  pub key_timeout : ℤ
  pub has_threads : Bool
  pub thread_user_stack_base_page : ℕ
  pub thread_user_stack_num_page : ℤ

-- `struct semafor` less its list heads
pub record Semafor : Type 0 where
  pub count : ℤ
  pub tid : ℤ

pub record Kernel : Type 0 where
  pub links : Store
  pub tasks : ℕ → Task
  -- the page that the stack pointer lies in, which current() returns
  pub current : ℕ
  pub idle_task : ℕ
  pub remaining_quantum : ℤ
  pub zeos_ticks : ℤ
  pub pending_to_service : ℤ
  pub make_flag : Bool
  pub keyboard_buffer : CircularBuffer
  pub sems : ℕ → Semafor
  pub phys_mem : PhysMem
  pub dir_pages : ℕ → Entry
  pub pagusr_table : ℕ → PageTable
  pub global_pid : ℤ
  pub screen : Screen
  -- the registers that a task switch sets: the directory in use and the top of the kernel stack
  pub cr3 : ℕ
  pub esp0 : ℕ
  -- what the n-th call of get_ticks returns, and the calls made so far
  pub clock : ℕ → ℕ
  pub reads : ℕ

abbrev pub null : ℕ
null = 0

abbrev pub freequeue : ℕ
freequeue = 8

abbrev pub readyqueue : ℕ
readyqueue = 20

abbrev pub blocked : ℕ
blocked = 28

abbrev pub get_key_blocked : ℕ
get_key_blocked = 36

abbrev pub freesem : ℕ
freesem = 44

-- `&task[i]`
abbrev pub task_address : ℕ → ℕ
task_address i = task_page i * page_size

-- `&t->list`, `&t->thread_child_list`, `&t->thread_child_anchor` and `&t->memoria`
abbrev pub list_of : ℕ → ℕ
list_of t = t + 16

abbrev pub thread_child_list_of : ℕ → ℕ
thread_child_list_of t = t + 76

abbrev pub thread_child_anchor_of : ℕ → ℕ
thread_child_anchor_of t = t + 84

abbrev pub memoria_of : ℕ → ℕ
memoria_of t = t + 100

-- `l & 0xfffff000`
unfoldable pub list_head_to_task_struct : ℕ → ℕ
list_head_to_task_struct l = l - l % page_size

-- `sems_free[i]`, a structure of 24 bytes, and its two list heads
abbrev pub sem_address : ℕ → ℕ
sem_address i = 64 + 24 * i

abbrev pub sem_blocked_of : ℕ → ℕ
sem_blocked_of s = s + 4

abbrev pub sem_sems_of : ℕ → ℕ
sem_sems_of s = s + 12

-- A write into a task structure.
abbrev pub set_task : Kernel → ℕ → Task → Kernel
set_task k t v = record k { tasks = update k.tasks t v }

-- One call of get_ticks.
abbrev pub get_ticks : Kernel → ℕ
get_ticks k = k.clock k.reads

abbrev pub after_get_ticks : Kernel → Kernel
after_get_ticks k = record k { reads = k.reads + 1 }

-- printk on the screen of the kernel
abbrev pub print : Kernel → List ℕ → Kernel
print k text = record k { screen = printk k.screen text }
