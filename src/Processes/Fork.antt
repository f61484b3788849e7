-- ===== src/Processes/Fork.antt =====
-- sys_fork of sys.c.
pub mod Stack
pub mod Room
pub mod Page
pub mod Share
pub mod Copy
pub mod Cases
pub mod Child
pub mod Inherit
pub mod Queues
use so2_project.Common.{
  ℕ, zero, suc, ◌+◌, ◌-◌, ◌*◌, ◌/◌, ◌%◌, ◌^◌, ℤ, pos, Option, none, some, Bool, true, false, ltb,
  leb, ◌&&◌, if◌then◌else◌, update, for_range,
}
use so2_project.Address.{
  total_pages, page_size, num_pag_kernel, pag_log_init_code, num_pag_code, pag_log_init_data,
  num_pag_data,
}
use so2_project.Links.{list_empty, list_first}
use so2_project.Frames.{PhysMem, free_frame}
use so2_project.Paging.{PageTable, set_ss_pag, del_ss_pag, get_frame}
use so2_project.Utils.{Memory, copy_data}
use so2_project.Kernel.{
  Kernel, st_ready, freequeue, list_of, thread_child_list_of, set_task, list_head_to_task_struct,
}
use so2_project.Boot.{allocate_dir, get_dir, get_pt, init_head, add_tail, reset_stats, take_free}
use so2_project.Sched.Wake.{make_ready}
use so2_project.Syscalls.{e_again, e_nomem}
use so2_project.Regions.{find_gap, stop_page, map_pages}
use so2_project.Regions.Dynamic.{first_page, get_int, put_int}
use so2_project.Processes.{
  Outcome, copy_union, copy_stack, tables_of, set_tables_of, is_mapped, translate, move_ebp, push,
  number_task,
}

-- The tables of all tasks.
abbrev pub Tables : Type 0
Tables = ℕ → PageTable

-- `set_ss_pag(child_PT, page, get_frame(parent_PT, page))`
abbrev pub share_page : (parent child page : ℕ) → Tables → Tables
share_page parent child page ts =
    update ts child (set_ss_pag (ts child) page (get_frame (ts parent) page))

-- The two loops that give the child the kernel's pages and the code of the parent.
unfoldable pub share_pages : (parent child : ℕ) → Tables → Tables
share_pages parent child ts =
    for_range num_pag_code 0 (λ pag. share_page parent child (pag_log_init_code + pag))
      (for_range num_pag_kernel 0 (share_page parent child) ts)

-- `copy_data((void*)(from<<12), (void*)(to<<12), PAGE_SIZE)` through a page table: the bytes of the
-- page `to` go to its frame.
unfoldable pub copy_page : PageTable → (from to : ℕ) → Memory → Memory
copy_page pt from to ram =
    let base = get_frame pt to * page_size in
    let view =
      copy_data (λ a. ram (translate pt a)) (from * page_size) (to * page_size) (pos page_size) in
    λ p.
      if leb base p && ltb p (base + page_size) then view (to * page_size + (p - base)) else ram p

-- One round of the loop that copies the data: a page of the child is mapped in the parent's address
-- space, written and taken out again. `temp` is next_start_pos+(pag-NUM_PAG_KERNEL+NUM_PAG_CODE).
unfoldable pub copy_round : (parent child temp pag : ℕ) → Tables × Memory → Option (Tables × Memory)
copy_round parent child temp pag (ts, ram) =
    let ts₁ = update ts parent (set_ss_pag (ts parent) temp (get_frame (ts child) pag)) in
    if is_mapped (ts₁ parent) pag && is_mapped (ts₁ parent) temp
    then some
        (update ts₁ parent (del_ss_pag (ts₁ parent) temp), copy_page (ts₁ parent) pag temp ram)
    else none

-- The next round, unless there was a fault.
abbrev pub then_round :
    (Tables × Memory → Option (Tables × Memory))
    → Option (Tables × Memory)
    → Option (Tables × Memory)
then_round next none = none
then_round next (some s) = next s

-- The loop over the pages 264 to 283.
unfoldable pub copy_rounds :
    ℕ → (parent child next_start_pos pag : ℕ) → Tables × Memory → Option (Tables × Memory)
copy_rounds zero parent child next_start_pos pag s = some s
copy_rounds (suc left) parent child next_start_pos pag s =
    then_round (copy_rounds left parent child next_start_pos (pag + 1))
      (copy_round parent child (next_start_pos + (pag - num_pag_kernel + num_pag_code)) pag s)

-- A release that runs past the end of a table goes on in the next one, which is behind it.
abbrev pub release_in : (child page : ℕ) → Tables × PhysMem → Tables × PhysMem
release_in child page (ts, mem) =
    let j = child + page / total_pages in
    let e = page % total_pages in
    (update ts j (del_ss_pag (ts j) e), free_frame mem (get_frame (ts j) e))

-- The failure of the search for free pages. The bound is the `pag` of the search, not that of the loop
-- that mapped the pages of the child.
unfoldable pub give_up : Kernel → (t l : ℕ) → Kernel
give_up k t l =
    let stop = stop_page total_pages (tables_of k k.current).0 num_pag_data first_page in
    let (ts, mem) =
      for_range stop 0 (λ i. release_in (get_pt k t) (pag_log_init_data + i))
        (k.pagusr_table, k.phys_mem) in
    add_tail (record k { pagusr_table = ts; phys_mem = mem }) l freequeue

-- The copy of the parent, with a directory of its own.
unfoldable pub begin_child : Kernel → ℕ → Kernel
begin_child k t = allocate_dir (copy_union k t) t

-- The numbers of the child, and the words on its stack that its first switch takes.
unfoldable pub name_child : Kernel → ℕ → Kernel
name_child k t =
    let k₁ = number_task k t in
    set_task k₁ t (record (k₁.tasks t) {
      state = st_ready;
      master_thread = (k₁.tasks t).pid;
      master_thread_address = t;
      pending_unblocks = pos 0;
    })

-- `ebp` is what get_ebp returns, `ret` the address of ret_from_fork.
unfoldable pub fork_stack : Memory → (ebp ret : ℕ) → Memory
fork_stack ram ebp ret = put_int (put_int ram ebp ret) (push ebp) (get_int ram ebp)

-- What is written into the child once its data are there, and then its place in the queues.
unfoldable pub settle_child : Kernel → (t ebp : ℕ) → Kernel
unfolding name_child
settle_child k t ebp =
    let k₁ = name_child (record k { cr3 = get_dir k k.current }) t in
    let k₂ = set_task k₁ t (record (k₁.tasks t) { register_esp = push ebp }) in
    let k₃ = reset_stats k₂ t in set_task k₃ t (record (k₃.tasks t) { has_threads = false })

unfoldable pub finish_child : Kernel → (t ebp : ℕ) → Kernel
finish_child k t ebp = make_ready (init_head (settle_child k t ebp) (thread_child_list_of t)) t

-- What follows the copies, and what follows the search for free pages.
abbrev pub after_copy : Kernel → (t ebp ret : ℕ) → Option (Tables × Memory) → Outcome
after_copy k t ebp ret none = none
after_copy k t ebp ret (some (ts, ram)) =
    let k₁ = finish_child (record k { pagusr_table = ts }) t (move_ebp ebp k.current t) in
    some ((k₁.tasks t).pid, k₁, fork_stack ram (move_ebp ebp k.current t) ret)

abbrev pub after_gap : Kernel → Memory → (t l ebp ret : ℕ) → Option ℕ → Outcome
after_gap k ram t l ebp ret none = some (e_again, give_up k t l, ram)
after_gap k ram t l ebp ret (some next_start_pos) = after_copy k t ebp ret (
    copy_rounds num_pag_data (get_pt k k.current) (get_pt k t) next_start_pos pag_log_init_data
      (k.pagusr_table, ram))

abbrev pub share_system : Kernel → ℕ → Kernel
share_system k t = record k {
  pagusr_table = share_pages (get_pt k k.current) (get_pt k t) k.pagusr_table;
}

-- What follows the loop that gives the child its frames.
abbrev pub after_frames :
    Kernel → Memory → (t l ebp ret : ℕ) → Bool × (PageTable × PhysMem) → Outcome
after_frames k ram t l ebp ret (false, s) =
    some (e_again, add_tail (set_tables_of k t s) l freequeue, ram)
after_frames k ram t l ebp ret (true, s) =
    let k₁ = share_system (set_tables_of k t s) t in
    after_gap k₁ ram t l ebp ret
      (find_gap total_pages (tables_of k₁ k₁.current).0 num_pag_data first_page)

-- The task structure `t` of the entry `l` becomes the child.
abbrev pub fork_child : Memory → (l ebp ret : ℕ) → ℕ × Kernel → Outcome
fork_child ram l ebp ret (t, k) =
    let k₁ = begin_child k t in
    after_frames k₁ (copy_stack ram k.current t) t l ebp ret
      (map_pages num_pag_data pag_log_init_data 0 (tables_of k₁ t))

unfoldable pub sys_fork : Kernel → Memory → (ebp ret : ℕ) → Outcome
sys_fork k ram ebp ret =
    if list_empty k.links freequeue
    then some (e_nomem, k, ram)
    else fork_child ram (list_first k.links freequeue) ebp ret (take_free k)
