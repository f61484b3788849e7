-- ===== src/Processes/Fork/Inherit.antt =====
-- The child of sys_fork finds the bytes of its parent in its own data pages.
use so2_project.Common.{
  ℕ, ◌+◌, ◌*◌, ◌≤◌, ◌<◌, ◌≡◌, refl, sym, ap, ◌∙◌, ◌≢◌, ◌⊎◌, none, some, Bool, true, ◌&&◌, List,
  arith, ltb, leb, if◌then◌else◌,
}
use mathlib.Core.Path.{subst}
use so2_project.Address.{num_pag_data, pag_log_init_data}
use so2_project.Frames.{PhysMem}
use so2_project.Paging.{PageTable, zero_entry, get_frame}
use so2_project.Utils.{Memory}
use so2_project.Kernel.{Kernel, freequeue, list_head_to_task_struct}
use so2_project.Links.{list_first}
use so2_project.Links.Family.{Family}
use so2_project.Sched.Inv.{IsTask, IsSched}
use so2_project.Sched.Wake.{take_free-IsSched}
use so2_project.Sched.Aside.{take_free-entry}
use so2_project.Boot.{get_pt, take_free}
use so2_project.Processes.{copy_stack, tables_of}
use so2_project.Processes.{Outcome}
use so2_project.Processes.Fork.{
  Tables, begin_child, after_copy, after_gap, after_frames, fork_child, sys_fork, finish_child,
  settle_child, name_child,
}
use so2_project.Regions.{map_pages}
use so2_project.Regions.Gap.{First, find_gap-First}
use so2_project.Regions.Frames.{Granted, map_pages-Granted}
use so2_project.Processes.Fork.Page.{IsData, Copied}
use so2_project.Processes.Fork.Cases.{
  own_pt, equipped, equipped-parent, after_frames-true, begin_child-own, begin_child-parent,
  begin_child-same,
}
use so2_project.Processes.Fork.Room.{
  IsParent, FitsTemp, fork_gap, fork_frames, copies, child_frame, parent_frame,
}
use so2_project.Processes.Fork.Child.{CanBegin, sys_fork-takes}
use so2_project.Processes.Fork.Stack.{IsStack, copy_stack-user, fork_stack-user}

-- What sys_fork leaves when the gap begins at page `g`: a byte of a data page of the child, and the table
-- of the caller, from which the pages are gone that the child's pages were mapped at.
abbrev pub Inherits : (k : Kernel) (t g : ℕ) (ram : Memory) (p d : ℕ) → Outcome → Type 0
Inherits k t g ram p d none = ⊥
Inherits k t g ram p d (some (v, k', ram')) =
    let parent = k.pagusr_table (get_pt k k.current) in
    (ram' (get_frame (k'.pagusr_table (own_pt k t)) p * 4096 + d)
      ≡ ram (get_frame parent p * 4096 + d))
    × ((q : ℕ)
        → k'.pagusr_table (get_pt k k.current) q
          ≡ (if leb (g + 16) q && ltb q (g + 36) then zero_entry else parent q))

-- The same, once the task structure has its table.
abbrev Kept : (k : Kernel) (t g : ℕ) (ram : Memory) (p d : ℕ) → Outcome → Type 0
Kept k t g ram p d none = ⊥
Kept k t g ram p d (some (v, k', ram')) =
    let parent = k.pagusr_table (get_pt k k.current) in
    (ram' (get_frame (k'.pagusr_table (get_pt k t)) p * 4096 + d)
      ≡ ram (get_frame parent p * 4096 + d))
    × ((q : ℕ)
        → k'.pagusr_table (get_pt k k.current) q
          ≡ (if leb (g + 16) q && ltb q (g + 36) then zero_entry else parent q))

module _ (k : Kernel) (t : ℕ) (ne : get_pt k t ≢ get_pt k k.current)
    (parent : IsParent (k.pagusr_table (get_pt k k.current)) k.phys_mem)
    (fits : FitsTemp (k.pagusr_table (get_pt k k.current))) (ram : Memory) (ebp ret : ℕ) where
  abbrev mapping : Bool × (PageTable × PhysMem)
  mapping = map_pages num_pag_data pag_log_init_data 0 (tables_of k t)

  module _ (st : IsStack k.current t ebp) (p d : ℕ) (of_data : IsData p) (small : d < 4096) where
    -- The table of the child after the copies, and the frame there.
    Copied-frame :
        (s : PageTable × PhysMem) (g : ℕ) (s' : Tables × Memory)
        → Copied
            (get_pt k k.current)
            (get_pt k t)
            g
            264
            20
            ((equipped k t s ne).pagusr_table, ram)
            s'
        → get_frame (s'.0 (get_pt k t)) p
          ≡ get_frame ((equipped k t s ne).pagusr_table (get_pt k t)) p
    Copied-frame s g s' c = ap (λ pt. get_frame pt p) (c.others (get_pt k t) ne)

    copy-Kept :
        (s : PageTable × PhysMem) (g : ℕ) (s' : Tables × Memory)
        → Granted k.phys_mem s.0 264 20
        → Copied
            (get_pt k k.current)
            (get_pt k t)
            g
            264
            20
            ((equipped k t s ne).pagusr_table, ram)
            s'
        → Kept k t g ram p d (after_copy (equipped k t s ne) t ebp ret (some s'))
    unfolding finish_child settle_child name_child
    copy-Kept s g (ts, ram') granted c =
        let same = Copied-frame s g (ts, ram') c in
        let own = same ∙ child_frame k t ne parent s granted p of_data in
        let above = granted.above p of_data.0 of_data.1 in
        (
          fork_stack-user ram' k.current t ebp ret (get_frame (ts (get_pt k t)) p * 4096 + d) st
                (rw own (omega arith))
              ∙ ap (λ (x : ℕ). ram' (x * 4096 + d)) same
              ∙ c.bytes p d of_data.0 of_data.1 small
              ∙ ap (λ (x : ℕ). ram (x * 4096 + d)) (parent_frame k t ne parent s granted p),
          λ q. ground (arith, c.temps q, ap (λ pt. pt q) (equipped-parent k t s ne)),
        )

    frames-Kept :
        (l g : ℕ)
        → mapping.0 ≡ true
        → fork_gap (k.pagusr_table (get_pt k k.current)) ≡ some g
        → Kept k t g ram p d (after_frames k ram t l ebp ret mapping)
    frames-Kept l g done gap =
        let pt = k.pagusr_table (get_pt k k.current) in
        let granted = map_pages-Granted k.phys_mem (k.pagusr_table (get_pt k t)) 264 20 done in
        let first =
          subst (First pt 20 284) gap (find_gap-First 1024 pt 20 284 (omega arith) (omega arith)) in
        let (s', eq, c) = copies k t ne parent mapping.1 granted g first.0 (fits g gap) ram in
        subst (Kept k t g ram p d) (sym (after_frames-true k ram t l ebp ret mapping ne done)) (
          subst (λ o. Kept k t g ram p d (after_gap (equipped k t mapping.1 ne) ram t l ebp ret o))
            (sym gap)
            (subst (λ x. Kept k t g ram p d (after_copy (equipped k t mapping.1 ne) t ebp ret x))
              (sym eq) (copy-Kept mapping.1 g s' granted c)))

-- Before the copy of the task structure and after it.
Kept-Inherits :
    (k k' : Kernel) (t g : ℕ) (ram ram' : Memory) (p d : ℕ) (x : Outcome)
    → get_pt k' t ≡ own_pt k t
    → k'.pagusr_table (get_pt k' k'.current) ≡ k.pagusr_table (get_pt k k.current)
    → get_pt k' k'.current ≡ get_pt k k.current
    → ram' (get_frame (k.pagusr_table (get_pt k k.current)) p * 4096 + d)
      ≡ ram (get_frame (k.pagusr_table (get_pt k k.current)) p * 4096 + d)
    → Kept k' t g ram' p d x
    → Inherits k t g ram p d x
Kept-Inherits k k' t g ram ram' p d none own par current same h = h
Kept-Inherits k k' t g ram ram' p d (some (v, k₁, ram₁)) own par current same (h, table) = (
  ap (λ n. ram₁ (get_frame (k₁.pagusr_table n) p * 4096 + d)) (sym own)
      ∙ h
      ∙ ap (λ pt. ram' (get_frame pt p * 4096 + d)) par
      ∙ same,
  λ q.
      ap (λ n. k₁.pagusr_table n q) (sym current)
      ∙ table q
      ∙ ap (λ pt. if leb (g + 16) q && ltb q (g + 36) then zero_entry else pt q) par,
)

pages-apart : (t u : ℕ) → IsTask t → IsTask u → t ≢ u → (t ≤ u) ⊎ (u + 4096 ≤ t)
pages-apart t u ht hu ne = ground arith

-- The task structure `t`, when it is off freequeue.
child-Inherits :
    (k : Kernel) (t l g : ℕ) (ram : Memory) (ebp ret p d : ℕ)
    → IsTask t
    → IsTask k.current
    → t ≢ k.current
    → own_pt k t ≢ get_pt k k.current
    → IsParent (k.pagusr_table (get_pt k k.current)) k.phys_mem
    → FitsTemp (k.pagusr_table (get_pt k k.current))
    → IsStack k.current t ebp
    → IsData p
    → d < 4096
    → fork_frames (k.pagusr_table (own_pt k t)) k.phys_mem ≡ true
    → fork_gap (k.pagusr_table (get_pt k k.current)) ≡ some g
    → Inherits k t g ram p d (fork_child ram l ebp ret (t, k))
child-Inherits k t l g ram ebp ret p d ht hc other ne parent fits st of_data small done gap =
    let (tables, mem, cur, gpid, idle) = begin_child-same k t in
    let own = begin_child-own k t in
    let par : get_pt (begin_child k t) (begin_child k t).current ≡ get_pt k k.current =
      ap (get_pt (begin_child k t)) cur ∙ begin_child-parent k t other in
    let above = parent.above p of_data in
    Kept-Inherits k (begin_child k t) t g ram (copy_stack ram k.current t) p d _ own
      (rw (par, tables) refl) par
      (copy_stack-user ram k.current t _ (pages-apart t k.current ht hc other) st.child_low
        (omega arith))
      (frames-Kept (begin_child k t) t (rw (par, own) ne) (rw (par, tables, mem) parent)
        (rw (par, tables) fits) (copy_stack ram k.current t) ebp ret (rw cur st) p d of_data small l
        g (rw (own, tables, mem) done) (rw (par, tables) gap))

-- When the invariant of the scheduler holds and a task structure is free, with a page table that the caller does
-- not use and with other list heads in no list, when the caller's 20 data pages are present, in used frames
-- from 256 on, when the stacks of the kernel are below those frames and the frame pointer is in the caller's,
-- when alloc_frame finds 20 frames, and when the first gap of 20 pages in the caller's address space begins
-- at page g and ends 16 pages before the end of it, then sys_fork meets no page fault and leaves in the data
-- pages of the child the bytes of the data pages of the caller. Of the caller's table it leaves all but the pages
-- from g + 16 to g + 35, which are not mapped any more, although the gap that was looked for is g to g + 19.
pub sys_fork-Inherits :
    {k : Kernel} {f : Family} (e : ℕ) (r : List ℕ)
    → IsSched k f
    → CanBegin k f e r
    → (ram : Memory) (ebp ret p d g : ℕ) → IsStack k.current (list_head_to_task_struct e) ebp
    → IsData p
    → d < 4096
    → fork_frames (k.pagusr_table (own_pt k (list_head_to_task_struct e))) k.phys_mem ≡ true
    → fork_gap (k.pagusr_table (get_pt k k.current)) ≡ some g
    → Inherits k (list_head_to_task_struct e) g ram p d (sys_fork k ram ebp ret)
sys_fork-Inherits {k} {f} e r v b ram ebp ret p d g st of_data small done gap =
    let (same, v₁, task, other, free) = take_free-IsSched e r v b.free in
    let (some_free, entry, not_idle) = take_free-entry e r v b.free in
    subst (Inherits k (list_head_to_task_struct e) g ram p d)
      (sym (sys_fork-takes k ram ebp ret some_free))
      (subst
        (λ u.
          Inherits k u g ram p d
            (fork_child ram (list_first k.links freequeue) ebp ret (take_free k)))
        same
        (child-Inherits (take_free k).1 (take_free k).0 (list_first k.links freequeue) g ram ebp ret
          p d task v.current_is_task other (rw same b.apart) b.parent b.fits (rw same st) of_data
          small (rw same done) gap))
