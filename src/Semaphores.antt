-- ===== src/Semaphores.antt =====
-- The counting semaphores of sched.c. A `struct semafor *` is the address of its structure.
pub mod Waits
pub mod Counts
pub mod Lifetime
mod Tests
use so2_project.Common.{
  ℕ, ◌-◌, ℤ, pos, negsuc, ◌+ℤ◌, ◌-ℤ◌, ltb_ℤ, leb_ℤ, ◌==ℤ◌, not, ◌⊎◌, inl, inr, if◌then◌else◌,
  update,
}
use so2_project.Links.{list_add, list_add_tail, list_del, list_empty, list_first, init_list_head}
use so2_project.Kernel.{
  Kernel, Semafor, freesem, readyqueue, list_of, sem_blocked_of, sem_sems_of, print,
}
use so2_project.Messages.{wait_found, wait_blocked, signal_found, signal_unblocks}
use so2_project.Sched.{sched_next_rr}

abbrev pub set_sem : Kernel → ℕ → Semafor → Kernel
set_sem k s v = record k { sems = update k.sems s v }

-- An error number, or the new semaphore.
unfoldable pub sys_sem_create : Kernel → ℤ → (ℤ ⊎ ℕ) × Kernel
sys_sem_create k value =
    if list_empty k.links freesem
    then (inl (negsuc 21), k)
    else (let l = list_first k.links freesem in
        let s = l - 12 in
        let k₁ = record k { links = list_del k.links l } in
        let k₂ = set_sem k₁ s (record (k₁.sems s) { count = value }) in
        let k₃ = record k₂ { links = init_list_head k₂.links (sem_blocked_of s) } in
        (inr s, set_sem k₃ s (record (k₃.sems s) { tid = (k₃.tasks k₃.current).pid })))

unfoldable pub sys_sem_wait : Kernel → ℕ → ℤ × Kernel
sys_sem_wait k s =
    let k₁ =
      print (set_sem k s (record (k.sems s) { count = (k.sems s).count -ℤ pos 1 })) wait_found in
    (
      pos 0,
      (if ltb_ℤ (k₁.sems s).count (pos 0)
          then (let k₂ = print k₁ wait_blocked in
              sched_next_rr (record k₂ {
                links = list_add_tail k₂.links (list_of k₂.current) (sem_blocked_of s);
              }))
          else k₁),
    )

unfoldable pub sys_sem_signal : Kernel → ℕ → ℤ × Kernel
sys_sem_signal k s =
    let k₁ =
      print (set_sem k s (record (k.sems s) { count = (k.sems s).count +ℤ pos 1 })) signal_found in
    (
      pos 0,
      (if leb_ℤ (k₁.sems s).count (pos 0)
          then (let k₂ = print k₁ signal_unblocks in
              let l = list_first k₂.links (sem_blocked_of s) in
              record k₂ { links = list_add_tail (list_del k₂.links l) l readyqueue })
          else k₁),
    )

unfoldable pub sys_sem_destroy : Kernel → ℕ → ℤ × Kernel
sys_sem_destroy k s =
    if not ((k.sems s).tid ==ℤ (k.tasks k.current).pid)
    then (negsuc 11, k)
    else (pos 0, record k { links = list_add k.links (sem_sems_of s) freesem })
