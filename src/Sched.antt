-- ===== src/Sched.antt =====
-- The round-robin scheduler of sched.c, and the two routines of sys.c that entry.ss calls on the way
-- into the kernel and out of it.
pub mod Inv
pub mod Switch
pub mod Turn
pub mod Quantum
pub mod Wake
pub mod Aside
mod Tests
use so2_project.Common.{
  ℕ, ◌+◌, ◌%◌, ◌^◌, ℤ, pos, ◌+ℤ◌, ◌-ℤ◌, ◌==ℤ◌, Bool, true, false, not, ◌&&◌, ◌==◌, if◌then◌else◌,
  update,
}
use so2_project.Links.{list_add_tail, list_del, list_empty, list_first}
use so2_project.Stats.{Stats, Counter, update_stats}
use so2_project.Kernel.{
  Kernel, Task, TaskState, st_run, st_ready, st_blocked, null, readyqueue, list_of, set_task,
  get_ticks, after_get_ticks, list_head_to_task_struct,
}

abbrev pub default_quantum : ℤ
default_quantum = pos 10

-- `t->state != ST_RUN`
abbrev pub is_run : TaskState → Bool
is_run st_run = true
is_run st_ready = false
is_run st_blocked = false

-- update_stats on a counter of the task `t`
abbrev pub charge : Kernel → ℕ → Counter → Kernel
charge k t c = after_get_ticks (
    set_task k t
      (record (k.tasks t) { p_stats = update_stats c (get_ticks k) (k.tasks t).p_stats }))

unfoldable pub user_to_system : Kernel → Kernel
user_to_system k = charge k k.current Counter.user_ticks

unfoldable pub system_to_user : Kernel → Kernel
system_to_user k = charge k k.current Counter.system_ticks

abbrev pub get_quantum : Kernel → ℕ → ℤ
get_quantum k t = (k.tasks t).total_quantum

abbrev pub set_quantum : Kernel → ℕ → ℤ → Kernel
set_quantum k t new_quantum = set_task k t (record (k.tasks t) { total_quantum = new_quantum })

abbrev pub set_state : Kernel → ℕ → TaskState → Kernel
set_state k t s = set_task k t (record (k.tasks t) { state = s })

unfoldable pub update_sched_data_rr : Kernel → Kernel
update_sched_data_rr k = record k { remaining_quantum = k.remaining_quantum -ℤ pos 1 }

unfoldable pub needs_sched_rr : Kernel → Bool × Kernel
needs_sched_rr k =
    if k.remaining_quantum ==ℤ pos 0 && not (list_empty k.links readyqueue)
    then (true, k)
    else if k.remaining_quantum ==ℤ pos 0
    then (false, record k { remaining_quantum = get_quantum k k.current })
    else (false, k)

-- The list operations of update_process_state_rr, and then what it does to the state.
abbrev pub unlink : Kernel → ℕ → Kernel
unlink k t =
    if not (is_run (k.tasks t).state) then record k { links = list_del k.links (list_of t) } else k

abbrev pub link : Kernel → ℕ → ℕ → Kernel
link k t dst = record k { links = list_add_tail k.links (list_of t) dst }

unfoldable pub update_process_state_rr : Kernel → (t dst_queue : ℕ) → Kernel
update_process_state_rr k t dst_queue =
    let k₁ = unlink k t in
    if not (dst_queue == null)
    then (let k₂ = link k₁ t dst_queue in
        if not (dst_queue == readyqueue)
        then set_state k₂ t st_blocked
        else set_state (charge k₂ t Counter.system_ticks) t st_ready)
    else set_state k₁ t st_run

-- inner_task_switch. The directory is loaded only if the address space changes; `switch_stack` goes
-- over to the stack of `new`, so that `current` is the new task from then on.
unfoldable pub task_switch : Kernel → ℕ → Kernel
task_switch k new =
    if (k.tasks k.current).master_thread ==ℤ (k.tasks new).master_thread
    then record k { esp0 = new; current = new }
    else record k { esp0 = new; cr3 = (k.tasks new).dir_pages_base; current = new }

-- `total_trans++`, over a word
abbrev pub count_trans : Kernel → ℕ → Kernel
count_trans k t = set_task k t (record (k.tasks t) {
  p_stats = record ((k.tasks t).p_stats) {
    total_trans = ((k.tasks t).p_stats.total_trans + 1) % 2 ^ 32;
  };
})

-- The task that goes next, with its entry off the queue.
unfoldable pub pick_next : Kernel → ℕ × Kernel
pick_next k =
    if not (list_empty k.links readyqueue)
    then (let e = list_first k.links readyqueue in
        (list_head_to_task_struct e, record k { links = list_del k.links e }))
    else (k.idle_task, k)

-- The writes of sched_next_rr once the next task is known, up to the switch.
abbrev pub dispatch : Kernel → ℕ → Kernel
dispatch k t =
    let k₁ = set_state k t st_run in
    let k₂ = record k₁ { remaining_quantum = get_quantum k₁ t } in
    let k₃ = charge k₂ k₂.current Counter.system_ticks in
    let k₄ = charge k₃ t Counter.ready_ticks in count_trans k₄ t

unfoldable pub sched_next_rr : Kernel → Kernel
unfolding pick_next task_switch
sched_next_rr k = let (t, k₁) = pick_next k in task_switch (dispatch k₁ t) t

unfoldable pub force_task_switch : Kernel → Kernel
unfolding update_process_state_rr sched_next_rr
force_task_switch k = sched_next_rr (update_process_state_rr k k.current readyqueue)

unfoldable pub schedule : Kernel → Kernel
schedule k =
    let (needed, k₁) = needs_sched_rr (update_sched_data_rr k) in
    if needed then sched_next_rr (update_process_state_rr k₁ k₁.current readyqueue) else k₁
