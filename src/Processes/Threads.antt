-- ===== src/Processes/Threads.antt =====
-- sys_threadCreateWithStack of sys.c.
pub mod Arguments
pub mod Queues
pub mod Created
use so2_project.Common.{
  ℕ, ◌+◌, ◌-◌, ◌*◌, ◌/◌, ◌%◌, ◌^◌, ℤ, pos, pos_part, ◌+ℤ◌, leb_ℤ, ◌==ℤ◌, Option, none, some, Bool,
  true, false, not, if◌then◌else◌,
}
use so2_project.Address.{total_pages, page_size}
use so2_project.Links.{list_empty, list_first, list_add}
use so2_project.Frames.{PhysMem}
use so2_project.Paging.{PageTable}
use so2_project.Utils.{Memory, access_ok, verify_read}
use so2_project.Kernel.{
  Kernel, st_ready, freequeue, thread_child_list_of, thread_child_anchor_of, memoria_of, set_task,
}
use so2_project.Boot.{init_head, add_tail, reset_stats, take_free}
use so2_project.Sched.Wake.{make_ready}
use so2_project.Syscalls.{e_again, e_nomem, e_fault, e_inval}
use so2_project.Regions.{find_gap, map_pages}
use so2_project.Regions.Dynamic.{first_page, put_int}
use so2_project.Processes.{
  Outcome, copy_union, copy_stack, tables_of, set_tables_of, is_mapped, translate, word_of,
  move_ebp, push, number_task,
}

-- The arguments of the call, and with them what get_ebp returns and the address of ret_from_fork.
pub record Request : Type 0 where
  pub function : ℕ
  pub num_pages : ℤ
  pub parameter : ℕ
  pub ext : ℕ
  pub ebp : ℕ
  pub ret : ℕ

-- `copy_to_user(&v, (void*) a, sizeof(DWord))`, for a multiple `a` of 4
abbrev pub put_user : PageTable → Memory → (a v : ℕ) → Option Memory
put_user pt ram a v =
    if is_mapped pt (a / page_size) then some (put_int ram (translate pt a) v) else none

-- `(DWord) ((next_start_pos + N) << 12) - 4`
abbrev pub stack_top : (next_start_pos : ℕ) → ℤ → ℕ
stack_top next_start_pos n = push (word_of (pos next_start_pos +ℤ n) * page_size % 2 ^ 32)

-- The fields of the new thread, up to its statistics.
unfoldable pub settle_thread : Kernel → (t next_start_pos : ℕ) → Request → Kernel
settle_thread k t next_start_pos q =
    let k₁ = number_task k t in
    let k₂ = set_task k₁ t (record (k₁.tasks t) {
      state = st_ready;
      pending_unblocks = pos 0;
      master_thread = (k₁.tasks k₁.current).master_thread;
      master_thread_address = (k₁.tasks k₁.current).master_thread_address;
      thread_user_stack_base_page = next_start_pos;
      thread_user_stack_num_page = q.num_pages;
    }) in
    let k₃ = init_head k₂ (memoria_of t) in
    let k₄ =
      set_task k₃ t (record (k₃.tasks t) { register_esp = push (move_ebp q.ebp k₃.current t) }) in
    reset_stats k₄ t

-- The words on the stack in the task structure: 244003 stands for a saved frame pointer, and the last two
-- are the user's stack and the user's program counter, which the return from the kernel takes.
unfoldable pub thread_stack : Memory → (t ebp : ℕ) → (new_esp : ℕ) → Request → Memory
thread_stack ram t ebp new_esp q =
    let ram₁ = put_int (put_int ram ebp q.ret) (push ebp) 244003 in
    put_int (put_int ram₁ (t + 4 * 1022) (push new_esp)) (t + 4 * 1019) q.function

-- The two words on the thread's user stack.
abbrev then_put : PageTable → (new_esp : ℕ) → Request → Option Memory → Option Memory
then_put pt new_esp q none = none
then_put pt new_esp q (some ram) = put_user pt ram new_esp q.parameter

abbrev pub put_arguments : PageTable → Memory → (new_esp : ℕ) → Request → Option Memory
put_arguments pt ram new_esp q = then_put pt new_esp q (put_user pt ram (push new_esp) q.ext)

-- `if (current()->master_thread == current()->PID) current()->has_threads = 1;`
abbrev pub mark_master : Kernel → Kernel
mark_master k =
    let cur = k.tasks k.current in
    if cur.master_thread ==ℤ cur.pid
    then set_task k k.current (record cur { has_threads = true })
    else k

-- The list of threads that the new one joins.
abbrev pub master_list : Kernel → ℕ
master_list k = thread_child_list_of (k.tasks k.current).master_thread_address

unfoldable pub join_master : Kernel → ℕ → Kernel
join_master k t =
    let k₁ = mark_master k in
    let k₂ = set_task k₁ t (record (k₁.tasks t) { has_threads = false }) in
    record k₂ { links = list_add k₂.links (thread_child_anchor_of t) (master_list k₂) }

-- What follows the writes on the user's stack, and what follows the loop that maps it.
abbrev pub after_arguments : Kernel → ℕ → Option Memory → Outcome
after_arguments k t none = none
after_arguments k t (some ram) =
    let k₁ = make_ready (join_master k t) t in some ((k₁.tasks t).pid, k₁, ram)

abbrev pub after_stack :
    Kernel → Memory → (t l next_start_pos : ℕ) → Request → Bool × (PageTable × PhysMem) → Outcome
after_stack k ram t l next_start_pos q (false, s) =
    some (e_again, add_tail (set_tables_of k t s) l freequeue, ram)
after_stack k ram t l next_start_pos q (true, s) =
    let k₁ = settle_thread (set_tables_of k t s) t next_start_pos q in
    let new_esp = stack_top next_start_pos q.num_pages in
    let ram₁ = thread_stack ram t (move_ebp q.ebp k.current t) new_esp q in
    after_arguments k₁ t (put_arguments (tables_of k₁ t).0 ram₁ new_esp q)

-- What follows the search for free pages.
abbrev pub after_search : Kernel → Memory → (t l : ℕ) → Request → Option ℕ → Outcome
after_search k ram t l q none = some (e_again, add_tail k l freequeue, ram)
after_search k ram t l q (some next_start_pos) =
    after_stack k ram t l next_start_pos q
      (map_pages (pos_part q.num_pages) next_start_pos 0 (tables_of k t))

-- The task structure `t` of the entry `l` becomes the thread.
abbrev pub thread_child : Memory → ℕ → Request → ℕ × Kernel → Outcome
thread_child ram l q (t, k) =
    let k₁ = copy_union k t in
    after_search k₁ (copy_stack ram k.current t) t l q
      (find_gap total_pages (tables_of k₁ t).0 (pos_part q.num_pages) first_page)

unfoldable pub sys_thread_create_with_stack : Kernel → Memory → Request → Outcome
sys_thread_create_with_stack k ram q =
    if not (access_ok verify_read q.function 4)
    then some (e_fault, k, ram)
    else if leb_ℤ (pos 740) q.num_pages
    then some (e_inval, k, ram)
    else if list_empty k.links freequeue
    then some (e_nomem, k, ram)
    else thread_child ram (list_first k.links freequeue) q (take_free k)
